-- ===== src/Observables/Reads.antt =====
-- The reads of runstate/observables.py at a head: `prefix_len`, `prefix`, `series` and
-- `last_element`.
pub mod Series
pub mod Threshold
pub mod Rows
pub mod Answers
use runstate.Prelude.{
  ℕ, ◌+◌, String, true, Option, none, some, List, [], ◌∷◌, ◌==◌, if◌then◌else◌, length, take,
  Result, ◌>>=◌, ◌>>◌, ok, err,
}
use runstate.Prelude.Int.{ℤ, pos}
use runstate.Json.{Number}
use runstate.Channel.{Envelope}
use runstate.Channel.Interface.{Channel}
use runstate.Vocabulary.Coordinate.{Counted, stream, commits}
use runstate.Vocabulary.Payloads.Lifecycle.{committed, iterations}
use runstate.Walk.Node.{
  WalkError, value_error, key_error, not_a_count, not_zipped, no_record_at, not_a_node_at, At,
  point, node_at,
}
use runstate.Walk.Lineage.{Walked, walk}
use runstate.Walk.Membership.{Element, element, members, value_record}
use runstate.Observables.Head.{Head, make_head, latest_claim_head}

-- A `Head` is itself a strategy.
pub data HeadStrategy : Type 0 where
  at_head : Head → HeadStrategy
  newest_head : HeadStrategy
  at_node : ℕ → HeadStrategy

pub data Prefix (F : Type 0) : Type 0 where
  complete pending settled_short : List (Element F) → Option ℕ → Prefix F

module _ {F : Type 0} where
  abbrev pub sum_iterations : List (At F) → ℕ
  sum_iterations [] = 0
  sum_iterations (at ∷ rest) = iterations at.node + sum_iterations rest

  -- What `prefix` returns of the elements it found.
  unfoldable pub outcome : ℕ → Head → List (Element F) → Prefix F
  outcome n h found =
      if length found == n
      then complete found h.node
      else if h.settled
      then settled_short found h.node
      else pending found h.node

  unfoldable pub last_member : List (At F × ℕ) → Option (At F × ℕ)
  last_member [] = none
  last_member (m ∷ []) = some m
  last_member (m ∷ m' ∷ ms) = last_member (m' ∷ ms)

module _ {F : Type 0} ⦃num : Number F⦄ where
  abbrev pub node_head : ℕ → ℕ → Option (At F) → Result WalkError Head
  node_head n w none = err (value_error (not_a_node_at n))
  node_head n w (some at) = make_head (some n) true w

  abbrev pub node_head_of : ℕ → ℕ → Option (Envelope F) → Result WalkError Head
  node_head_of n w none = err (value_error (no_record_at n))
  node_head_of n w (some e) = node_at e >>= node_head n w

  -- `resolve` of each strategy.
  unfoldable pub resolve : HeadStrategy → Channel F → Result WalkError Head
  unfolding latest_claim_head point make_head
  resolve (at_head h) ch = ok h
  resolve newest_head ch = latest_claim_head ch ch.last_seq
  resolve (at_node n) ch = node_head_of n ch.last_seq (point ch n ch.last_seq)

  -- `element` of a member.
  unfoldable pub read_element : Walked F → At F → ℕ → Result WalkError (Element F)
  unfolding element
  read_element w at s = elim (element w at s) [ none ↦ err (key_error s) | some r ↦ r ]

  unfoldable pub read_elements : Walked F → List (At F × ℕ) → Result WalkError (List (Element F))
  unfolding read_element
  read_elements w [] = ok []
  read_elements w ((at, s) ∷ ms) = do x ← read_element w at s; xs ← read_elements w ms; ok (x ∷ xs)

  -- `_count`.
  unfoldable pub count : Walked F → Counted → Result WalkError ℕ
  unfolding members
  count w commits = ok (sum_iterations w.nodes)
  count w (stream s) = do ms ← members w s; ok (length ms)

  unfoldable pub prefix_len : Channel F → Counted → HeadStrategy → Result WalkError ℕ
  unfolding resolve walk count
  prefix_len ch x hs = do h ← resolve hs ch; w ← walk ch h.node; count w x

  abbrev pub prefix_at : Channel F → String → ℕ → Head → Result WalkError (Prefix F)
  prefix_at ch name n h = if n == 0 then ok (complete [] h.node) else (do
    w ← walk ch h.node
    ms ← members w name
    found ← read_elements w (take n ms)
    ok (outcome n h found))

  unfoldable pub prefix : Channel F → String → ℤ → HeadStrategy → Result WalkError (Prefix F)
  unfolding resolve walk members read_elements outcome
  prefix ch name (pos n) hs = do h ← resolve hs ch; prefix_at ch name n h
  prefix ch name _ hs = err (value_error not_a_count)

  unfoldable pub series : Channel F → String → HeadStrategy → Result WalkError (List (Element F))
  unfolding resolve walk members read_elements
  series ch name hs = do
    h ← resolve hs ch
    w ← walk ch h.node
    ms ← members w name
    read_elements w ms

  abbrev pub read_last : Walked F → Option (At F × ℕ) → Result WalkError (Option (Element F))
  read_last w none = ok none
  read_last w (some (at, s)) = do x ← read_element w at s; ok (some x)

  unfoldable pub last_element :
      Channel F → String → HeadStrategy → Result WalkError (Option (Element F))
  unfolding resolve walk members read_element last_member
  last_element ch name hs = do
    h ← resolve hs ch
    w ← walk ch h.node
    ms ← members w name
    read_last w (last_member ms)
