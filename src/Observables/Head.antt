-- ===== src/Observables/Head.antt =====
-- The heads of runstate/observables.py: `Head`, `_ClaimHead` and `LatestClaimHead`.
pub mod Point
pub mod Fold
pub mod Stands
pub mod Bounds
use runstate.Prelude.{
  ℕ, String, Bool, true, false, not, ◌&&◌, Option, none, some, List, [], ◌∷◌, str_eq, leb, ◌==◌,
  if◌then◌else◌, Result, ◌>>=◌, ◌>>◌, ok, err,
}
use runstate.Observables.Held.{run}
use runstate.Json.{Number}
use runstate.Channel.{Envelope, last_where}
use runstate.Channel.Interface.{Channel}
use runstate.Channel.Windows.{window}
use runstate.Vocabulary.Topic
use runstate.Vocabulary.Payloads.Lifecycle.{
  Started, Commit, Rewind, Stopped, stopped, commit, parse_started, parse_commit, parse_rewind,
  parse_stopped, closed,
}
use runstate.Walk.Node.{
  WalkError, malformed, value_error, bad_head, exited_at, not_position, At, NodeKind, verdict_parse,
  readable, kind_at, point,
}
use runstate.Walk.Node.Reference.{KindOf, check_reference}
use runstate.Claims.{named_claim, names_claim, claim_window}

pub record Head : Type 0 where
  pub node : Option ℕ
  pub settled : Bool
  pub w : ℕ

-- What `__post_init__` admits.
abbrev pub admits_head : Option ℕ → Bool → ℕ → Bool
admits_head none settled w = not settled
admits_head (some n) settled w = leb 1 n && leb n w

-- `Head(node, settled, w)`.
unfoldable pub make_head : Option ℕ → Bool → ℕ → Result WalkError Head
make_head node settled w =
    if admits_head node settled w
    then ok (record { node = node; settled = settled; w = w })
    else err (value_error bad_head)

-- A record of the claim that bears on its position, with its body.
pub data Position (F : Type 0) : Type 0 where
  by_commit : Commit F → Position F
  by_rewind : Rewind F → Position F
  by_exit : Stopped F → Position F

abbrev pub same_seq? : Option ℕ → Option ℕ → Bool
same_seq? none none = true
same_seq? (some a) (some b) = a == b
same_seq? _ _ = false

-- The head fold's state: `_claim`, `_position`, `_exit` and `_error`.
pub record ClaimHead (F : Type 0) : Type 0 where
  pub claim : Option ℕ
  pub position : Option ℕ
  pub exit : Option (At F)
  pub error : Option WalkError

module _ {F : Type 0} where
  abbrev pub unclaimed : ClaimHead F
  unclaimed = record { claim = none; position = none; exit = none; error = none }

  -- The function `kind_of` local to `apply`, over a lookup of records.
  abbrev pub kind_reader :
      (Option (Envelope F) → Result WalkError (Option NodeKind))
      → (ℕ → Option (Envelope F))
      → KindOf (Unit {0})
  kind_reader kind read_at seq s = (kind (read_at seq), s)

  -- `_resume_point`.
  unfoldable pub resume_point :
      Envelope F → Option ℕ → KindOf (Unit {0}) → Result WalkError (Option ℕ)
  unfolding check_reference
  resume_point e none kind_of = ok none
  resume_point e (some r) kind_of =
      (check_reference e "resume_from" r kind_of tt).0 >>= λ _. ok (some r)

  abbrev pub exit_of : ℕ → Option (Stopped F) → Option (Position F)
  exit_of c none = none
  exit_of c (some s) = if s.claim_seq == c then some (by_exit s) else none

  -- `head`: what the state says at `w`.
  unfoldable pub head : ClaimHead F → ℕ → Result WalkError Head
  unfolding make_head closed
  head h w = elim h.error [
    | some x ↦ err x
    | none ↦ elim h.claim [
      | none ↦ make_head none false w
      | some c ↦ elim h.exit [
        | some at ↦ make_head (some at.env.seq) (closed at.node) w
        | none ↦ make_head h.position false w
      ]
    ]
  ]

module _ {F : Type 0} ⦃num : Number F⦄ where
  -- `_claims`.
  unfoldable pub claims : Envelope F → ℕ → Result WalkError (Option (Position F))
  unfolding readable verdict_parse named_claim
  claims e c =
      if str_eq e.topic Topic.lifecycle_stopped
      then ok (exit_of c (readable parse_stopped e))
      else if not (names_claim (named_claim e) c)
      then ok none
      else if str_eq e.topic Topic.lifecycle_rewind
      then (do r ← verdict_parse parse_rewind e; ok (some (by_rewind r)))
      else (do b ← verdict_parse parse_commit e; ok (some (by_commit b)))

  abbrev pub at_position :
      ClaimHead F → Envelope F → Option ℕ → ClaimHead F → Result WalkError (ClaimHead F)
  at_position h e parent next =
      if same_seq? parent h.position
      then ok next
      else err (malformed e.seq e.topic (not_position parent h.position))

  unfoldable pub move :
      ClaimHead F
      → Envelope F
      → (ℕ → Option (Envelope F))
      → Position F
      → Result WalkError (ClaimHead F)
  unfolding resume_point kind_at
  move h e read_at (by_rewind r) = do
    p ← resume_point e r.resume_from (kind_reader kind_at read_at)
    ok (record h { position = p })
  move h e read_at (by_commit b) = at_position h e b.parent (record h { position = some e.seq })
  move h e read_at (by_exit s) =
      at_position h e s.parent (record h { exit = some (record { env = e; node = stopped s }) })

  -- The exit is its claim's last node.
  abbrev pub unless_exited :
      ClaimHead F → Envelope F → Result WalkError (ClaimHead F) → Result WalkError (ClaimHead F)
  unless_exited h e moved = elim h.exit [
    | some at ↦ err (malformed e.seq e.topic (exited_at at.env.seq))
    | none ↦ moved
  ]

  abbrev pub move_once :
      ClaimHead F
      → Envelope F
      → (ℕ → Option (Envelope F))
      → Option (Position F)
      → Result WalkError (ClaimHead F)
  move_once h e read_at none = ok h
  move_once h e read_at (some p) = unless_exited h e (move h e read_at p)

  -- `except MalformedRecordError as exc: self._error = exc`.
  abbrev pub hold : ClaimHead F → Result WalkError (ClaimHead F) → ClaimHead F
  hold h (ok h') = h'
  hold h (err x) = record h { error = some x }

  abbrev pub claim_at : Envelope F → Result WalkError (Option ℕ) → ClaimHead F
  claim_at e (ok p) = record { claim = some e.seq; position = p; exit = none; error = none }
  claim_at e (err x) = record { claim = some e.seq; position = none; exit = none; error = some x }

  -- `apply` over its two uses of `read_at`: a `started`'s `resume_from`, and a record of the claim's.
  abbrev pub apply_with :
      ClaimHead F
      → Envelope F
      → (Started F → Result WalkError (Option ℕ))
      → (Option (Position F) → Result WalkError (ClaimHead F))
      → ClaimHead F
  apply_with h e resume moved =
      if str_eq e.topic Topic.lifecycle_started
      then claim_at e (verdict_parse parse_started e >>= resume)
      else (elim h.claim [
        | none ↦ h
        | some c ↦ elim h.error [ some x ↦ h | none ↦ hold h (claims e c >>= moved) ]
      ])

  -- `apply`, a record of `_HEAD_TOPICS`.
  unfoldable pub apply : ClaimHead F → Envelope F → (ℕ → Option (Envelope F)) → ClaimHead F
  unfolding verdict_parse resume_point claims move
  apply h e read_at =
      apply_with h e (λ s. resume_point e s.resume_from (kind_reader kind_at read_at))
        (λ p. move_once h e read_at p)

-- Reading at W.
abbrev pub move_topics : List String
move_topics = Topic.lifecycle_commit ∷ Topic.lifecycle_rewind ∷ Topic.lifecycle_stopped ∷ []

module _ {F : Type 0} where
  abbrev pub last_of : List (Envelope F) → Option (Envelope F)
  last_of es = last_where (λ e. true) es

  abbrev pub newest_below : Channel F → String → ℕ → Option (Envelope F) → Option (Envelope F)
  newest_below ch topic w none = none
  newest_below ch topic w (some e) =
      if leb e.seq w then some e else last_of (window ch 0 w (some (topic ∷ [])))

  -- `_newest`.
  unfoldable pub newest : Channel F → String → ℕ → Option (Envelope F)
  unfolding window
  newest ch topic w = if w == 0 then none else newest_below ch topic w (ch.latest topic none)

  unfoldable pub newest_claim : Channel F → ℕ → Option (Envelope F)
  unfolding newest
  newest_claim ch w = newest ch Topic.lifecycle_started w

module _ {F : Type 0} ⦃num : Number F⦄ where
  -- The state that `_latest_claim_head` reaches.
  unfoldable pub claim_head_at : Channel F → ℕ → ClaimHead F
  unfolding newest_claim apply claim_window point
  claim_head_at ch w = elim (newest_claim ch w) [
    | none ↦ unclaimed
    | some claim ↦
        run (λ h e. apply h e (λ seq. point ch seq w))
          (apply unclaimed claim (λ seq. point ch seq w)) (claim_window ch claim w move_topics)
  ]

  -- `_latest_claim_head`.
  unfoldable pub latest_claim_head : Channel F → ℕ → Result WalkError Head
  unfolding claim_head_at head
  latest_claim_head ch w = head (claim_head_at ch w) w
