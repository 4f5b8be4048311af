-- ===== src/Walk/Membership.antt =====
-- Membership in runstate/walk.py: which committed values are elements of which stream, and the
-- coordinates along a lineage. A generator is the list of what it yields, or what it raises.
pub mod Elements
use runstate.Prelude.{
  ℕ, ◌+◌, String, Bool, true, Option, none, some, List, [], ◌∷◌, ◌++◌, str_eq, ltb, ◌==◌,
  if◌then◌else◌, str_mem, Result, ◌>>=◌, ◌>>◌, ok, err,
}
use runstate.Json.{Number, Json}
use runstate.Channel.{Envelope}
use runstate.Vocabulary.Topic
use runstate.Vocabulary.Payloads.Lifecycle.{
  Value, parse_value, parse_started, claim_of, committed, iterations,
}
use runstate.Vocabulary.Schedule.{Coordinates, count_in}
use runstate.Vocabulary.Schedule.Refusals.{put}
use runstate.Walk.Node.{WalkError, malformed, names_no_value, names_no_claim, At, verdict_parse}
use runstate.Walk.Backward.{find_record}
use runstate.Walk.Lineage.{Walked}

pub record Element (F : Type 0) : Type 0 where
  pub node : ℕ
  pub seq : ℕ
  pub value : Json F
  pub t : Option F

pub record Classified (F : Type 0) : Type 0 where
  pub at : At F
  pub seq : ℕ
  pub name : String
  pub is_source : Bool

-- The dict `sources` of `classified`: what each claim met so far declared.
abbrev pub Declarations : Type 0
Declarations = List (ℕ × List String)

unfoldable pub declared_by : ℕ → Declarations → Option (List String)
declared_by c [] = none
declared_by c ((k, ss) ∷ rest) = if k == c then some ss else declared_by c rest

-- `counts[name] = counts.get(name, 0) + 1`, for each of the names.
unfoldable pub add_names : List String → List (String × ℕ) → List (String × ℕ)
unfolding put
add_names [] counts = counts
add_names (n ∷ ns) counts = add_names ns (put n (count_in n counts + 1) counts)

-- `eager.get(seq, ())`.
unfoldable pub names_at : ℕ → List (ℕ × String) → List String
names_at seq [] = []
names_at seq ((k, n) ∷ rest) =
    let others = names_at seq rest in if k == seq then n ∷ others else others

-- The name that a read asks about, if the value bears one.
abbrev pub wanted : (String → Bool) → Option String → Option String
wanted among none = none
wanted among (some n) = if among n then some n else none

module _ {F A : Type 0} where
  unfoldable pub not_a_value : At F → ℕ → Result WalkError A
  not_a_value at seq = err (malformed at.env.seq at.env.topic (names_no_value seq))

  unfoldable pub no_claim : At F → Result WalkError A
  unfolding claim_of
  no_claim at = err (malformed at.env.seq at.env.topic (names_no_claim (claim_of at.node)))

module _ {F : Type 0} where
  abbrev pub value_of : At F → ℕ → Option (Envelope F) → Result WalkError (Envelope F)
  value_of at seq none = not_a_value at seq
  value_of at seq (some e) = if str_eq e.topic Topic.value then ok e else not_a_value at seq

  unfoldable pub value_record : Walked F → At F → ℕ → Result WalkError (Envelope F)
  unfolding not_a_value
  value_record w at seq = value_of at seq (find_record seq w.records)

  -- The record of the claim that wrote a node, where that lies below it.
  abbrev pub claim_record : Walked F → At F → Option (Envelope F)
  claim_record w at =
      if ltb (claim_of at.node) at.env.seq then find_record (claim_of at.node) w.records else none

module _ {F : Type 0} ⦃num : Number F⦄ where
  abbrev pub element_of : At F → ℕ → Value F → Element F
  element_of at seq v = record { node = at.env.seq; seq = seq; value = v.value; t = v.t }

  -- `none` is the `KeyError` of a seq that the walk does not hold.
  unfoldable pub element : Walked F → At F → ℕ → Option (Result WalkError (Element F))
  unfolding verdict_parse
  element w at seq = elim (find_record seq w.records) [
    | none ↦ none
    | some e ↦ some (do v ← verdict_parse parse_value e; ok (element_of at seq v))
  ]

  abbrev pub sources_in : At F → Option (Envelope F) → Result WalkError (List String)
  sources_in at none = no_claim at
  sources_in at (some e) =
      if str_eq e.topic Topic.lifecycle_started
      then (do s ← verdict_parse parse_started e; ok s.sources)
      else no_claim at

  unfoldable pub declared : Walked F → At F → Result WalkError (List String)
  unfolding no_claim verdict_parse
  declared w at = sources_in at (claim_record w at)

  -- `if claim not in sources: sources[claim] = declared(walked, at)`.
  unfoldable pub resolve :
      Walked F → At F → Declarations → Result WalkError (List String × Declarations)
  unfolding declared declared_by
  resolve w at known = elim (declared_by (claim_of at.node) known) [
    | some ss ↦ ok (ss, known)
    | none ↦ do ss ← declared w at; ok (ss, (claim_of at.node, ss) ∷ known)
  ]

  abbrev pub classify_named :
      Walked F
      → At F
      → ℕ
      → Declarations
      → Option String
      → Result WalkError (List (Classified F) × Declarations)
  classify_named w at s known none = ok ([], known)
  classify_named w at s known (some n) = do
    r ← resolve w at known
    ok (record { at = at; seq = s; name = n; is_source = str_mem n r.0 } ∷ [], r.1)

  -- The loop over one node's values.
  unfoldable pub classify_values :
      Walked F
      → (String → Bool)
      → At F
      → List ℕ
      → Declarations
      → Result WalkError (List (Classified F) × Declarations)
  unfolding value_record resolve
  classify_values w among at [] known = ok ([], known)
  classify_values w among at (s ∷ rest) known = do
    e ← value_record w at s
    this ← classify_named w at s known (wanted among e.name)
    others ← classify_values w among at rest this.1
    ok (this.0 ++ others.0, others.1)

  unfoldable pub classify_nodes :
      Walked F
      → (String → Bool)
      → List (At F)
      → Declarations
      → Result WalkError (List (Classified F) × Declarations)
  unfolding classify_values
  classify_nodes w among [] known = ok ([], known)
  classify_nodes w among (at ∷ rest) known = do
    these ← classify_values w among at (committed at.node) known
    others ← classify_nodes w among rest these.1
    ok (these.0 ++ others.0, others.1)

  unfoldable pub classified : Walked F → (String → Bool) → Result WalkError (List (Classified F))
  unfolding classify_nodes
  classified w among = do r ← classify_nodes w among w.nodes []; ok r.0

module _ {F : Type 0} where
  -- The elements among classified values, each with its node.
  unfoldable pub elements_of : List (Classified F) → List (At F × ℕ)
  elements_of [] = []
  elements_of (c ∷ cs) =
      let rest = elements_of cs in if c.is_source then rest else (c.at, c.seq) ∷ rest

  -- The dict `eager` of `coordinates`, as the list of its pairs.
  unfoldable pub eager_of : List (Classified F) → List (ℕ × String)
  eager_of [] = []
  eager_of (c ∷ cs) =
      let rest = eager_of cs in if c.is_source then rest else (c.at.env.seq, c.name) ∷ rest

  -- The loop of `coordinates` over the nodes.
  unfoldable pub count_nodes :
      List (ℕ × String) → List (At F) → List (String × ℕ) → ℕ → List Coordinates
  unfolding add_names names_at iterations
  count_nodes eager [] counts commits = []
  count_nodes eager (at ∷ rest) counts commits =
      let counts' = add_names (names_at at.env.seq eager) counts in
      let commits' = commits + iterations at.node in
      record { streams = counts'; commits = commits' } ∷ count_nodes eager rest counts' commits'

module _ {F : Type 0} ⦃num : Number F⦄ where
  unfoldable pub members : Walked F → String → Result WalkError (List (At F × ℕ))
  unfolding classified elements_of
  members w stream = do cs ← classified w (λ n. str_eq n stream); ok (elements_of cs)

  unfoldable pub coordinates : Walked F → Result WalkError (List Coordinates)
  unfolding classified eager_of count_nodes
  coordinates w = do cs ← classified w (λ n. true); ok (count_nodes (eager_of cs) w.nodes [] 0)
