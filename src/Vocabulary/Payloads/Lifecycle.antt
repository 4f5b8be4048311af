-- ===== src/Vocabulary/Payloads/Lifecycle.antt =====
-- The value-v0.3 and lifecycle-v0.6 bodies of runstate/vocabulary/payloads.py.
use runstate.Prelude.{
  ℕ, String, Bool, true, false, not, ◌&&◌, ◌||◌, Option, none, some, List, [], ◌∷◌, Result, ◌>>=◌,
  ◌>>◌, ok,
}
use runstate.Json.{Number, Json, Fields}
use runstate.Vocabulary.Outcome.{NakReason, nak_reason_text, nak_reasons, member}
use runstate.Vocabulary.Checks.{
  BodyError, takes, check, require, seq_of, parent_of, watermark_of, string_of, bool_of, seqs_of,
  values_of, names_of, error_of, time_of, time_or_null_of,
}

pub record Value (F : Type 0) : Type 0 where
  pub value : Json F
  pub t : Option F

pub record Started (F : Type 0) : Type 0 where
  pub handle : String
  pub t : F
  pub resume_from : Option ℕ
  pub sources : List String

pub record Commit (F : Type 0) : Type 0 where
  pub claim_seq : ℕ
  pub consumed_seq : ℕ
  pub parent : Option ℕ
  pub values : List ℕ
  pub fired : List String
  pub expired : List String
  pub t : F

pub record Heartbeat (F : Type 0) : Type 0 where
  pub claim_seq : ℕ
  pub consumed_seq : ℕ
  pub t : F

pub record Rewind (F : Type 0) : Type 0 where
  pub claim_seq : ℕ
  pub resume_from : Option ℕ
  pub t : F

pub record Stopped (F : Type 0) : Type 0 where
  pub completed : Bool
  pub error : Option String
  pub claim_seq : ℕ
  pub honored : List String
  pub parent : Option ℕ
  pub values : Option (List ℕ)
  pub fired : List String
  pub expired : List String
  pub t : F

pub record Bound : Type 0 where
  pub claim_seq : ℕ

pub record Nak : Type 0 where
  pub reason : NakReason
  pub message : String

abbrev pub is_some : {A : Type 0} → Option A → Bool
is_some none = false
is_some (some a) = true

abbrev pub is_empty : List String → Bool
is_empty [] = true
is_empty (x ∷ xs) = false

abbrev pub values_or_nil : Option (List ℕ) → List ℕ
values_or_nil none = []
values_or_nil (some vs) = vs

abbrev pub commit_keys : List String
commit_keys = "claim_seq" ∷ "consumed_seq" ∷ "parent" ∷ "values" ∷ "fired" ∷ "expired" ∷ "t" ∷ []

abbrev pub stopped_keys : List String
stopped_keys =
    "completed" ∷ "error" ∷ "claim_seq" ∷ "honored" ∷ "parent" ∷ "values" ∷ "fired" ∷ "expired"
    ∷ "t" ∷ []

-- A lineage node: a `Commit` or a `Stopped`, the protocol class `Node`.
pub data Node (F : Type 0) : Type 0 where
  commit : Commit F → Node F
  stopped : Stopped F → Node F

module _ {F : Type 0} where
  unfoldable pub claim_of : Node F → ℕ
  claim_of (commit c) = c.claim_seq
  claim_of (stopped s) = s.claim_seq

  unfoldable pub parent : Node F → Option ℕ
  parent (commit c) = c.parent
  parent (stopped s) = s.parent

  unfoldable pub fired : Node F → List String
  fired (commit c) = c.fired
  fired (stopped s) = s.fired

  unfoldable pub expired : Node F → List String
  expired (commit c) = c.expired
  expired (stopped s) = s.expired

  unfoldable pub committed : Node F → List ℕ
  committed (commit c) = c.values
  committed (stopped s) = values_or_nil s.values

  unfoldable pub iterations : Node F → ℕ
  iterations (commit c) = 1
  iterations (stopped s) = 0

  unfoldable pub extendable : Node F → Bool
  extendable (commit c) = true
  extendable (stopped s) = not s.completed && is_some s.values

  unfoldable pub closed : Node F → Bool
  closed (commit c) = false
  closed (stopped s) = s.completed

  unfoldable pub parse_bound : Fields F → Result BodyError Bound
  unfolding takes check
  parse_bound body = do
    takes ("claim_seq" ∷ []) body
    c ← check "claim_seq" seq_of body
    ok (record { claim_seq = c })

  unfoldable pub reason_of : Json F → Option NakReason
  unfolding string_of member
  reason_of j = elim (string_of j) [ none ↦ none | some s ↦ member nak_reason_text nak_reasons s ]

  unfoldable pub parse_nak : Fields F → Result BodyError Nak
  unfolding takes check
  parse_nak body = do
    takes ("reason" ∷ "message" ∷ []) body
    r ← check "reason" reason_of body
    m ← check "message" string_of body
    ok (record { reason = r; message = m })

module _ {F : Type 0} ⦃num : Number F⦄ where
  -- `value` is any JSON value.
  unfoldable pub parse_value : Fields F → Result BodyError (Value F)
  unfolding takes check
  parse_value body = do
    takes ("value" ∷ "t" ∷ []) body
    t ← check "t" time_or_null_of body
    v ← check "value" some body
    ok (record { value = v; t = t })

  unfoldable pub parse_started : Fields F → Result BodyError (Started F)
  unfolding takes check
  parse_started body = do
    takes ("handle" ∷ "t" ∷ "resume_from" ∷ "sources" ∷ []) body
    h ← check "handle" string_of body
    t ← check "t" time_of body
    r ← check "resume_from" parent_of body
    s ← check "sources" names_of body
    ok (record { handle = h; t = t; resume_from = r; sources = s })

  unfoldable pub parse_commit : Fields F → Result BodyError (Commit F)
  unfolding takes check
  parse_commit body = do
    takes commit_keys body
    c ← check "claim_seq" seq_of body
    w ← check "consumed_seq" watermark_of body
    p ← check "parent" parent_of body
    vs ← check "values" seqs_of body
    f ← check "fired" names_of body
    x ← check "expired" names_of body
    t ← check "t" time_of body
    ok (record {
      claim_seq = c;
      consumed_seq = w;
      parent = p;
      values = vs;
      fired = f;
      expired = x;
      t = t;
    })

  unfoldable pub parse_heartbeat : Fields F → Result BodyError (Heartbeat F)
  unfolding takes check
  parse_heartbeat body = do
    takes ("claim_seq" ∷ "consumed_seq" ∷ "t" ∷ []) body
    c ← check "claim_seq" seq_of body
    w ← check "consumed_seq" watermark_of body
    t ← check "t" time_of body
    ok (record { claim_seq = c; consumed_seq = w; t = t })

  unfoldable pub parse_rewind : Fields F → Result BodyError (Rewind F)
  unfolding takes check
  parse_rewind body = do
    takes ("claim_seq" ∷ "resume_from" ∷ "t" ∷ []) body
    c ← check "claim_seq" seq_of body
    r ← check "resume_from" parent_of body
    t ← check "t" time_of body
    ok (record { claim_seq = c; resume_from = r; t = t })

  -- The last three checks of `Stopped.__post_init__`, which relate fields.
  unfoldable pub exit_checks : Stopped F → Result BodyError (Stopped F)
  unfolding require
  exit_checks s = do
    require (not (s.completed && is_some s.error)) "error"
    require (not (is_some s.error && is_some s.values)) "values"
    require (is_some s.values || (is_empty s.fired && is_empty s.expired)) "fired"
    ok s

  unfoldable pub parse_stopped : Fields F → Result BodyError (Stopped F)
  unfolding takes check
  parse_stopped body = do
    takes stopped_keys body
    d ← check "completed" bool_of body
    e ← check "error" error_of body
    c ← check "claim_seq" seq_of body
    h ← check "honored" names_of body
    p ← check "parent" parent_of body
    vs ← check "values" values_of body
    f ← check "fired" names_of body
    x ← check "expired" names_of body
    t ← check "t" time_of body
    exit_checks (record {
      completed = d;
      error = e;
      claim_seq = c;
      honored = h;
      parent = p;
      values = vs;
      fired = f;
      expired = x;
      t = t;
    })
