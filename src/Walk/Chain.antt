-- ===== src/Walk/Chain.antt =====
-- `nodes_in` and `chain` of runstate/walk.py.
pub mod Pure
pub mod Sound
pub mod Ends
pub mod Contract
use runstate.Prelude.{
  ℕ, zero, suc, Option, none, some, List, [], ◌∷◌, leb, if◌then◌else◌, Result, ok,
}
use runstate.Json.{Number}
use runstate.Channel.{Envelope}
use runstate.Walk.Node.{WalkError, not_a_node, assertion, out_of_fuel, At, node_at, kind_of_at}
use runstate.Walk.Node.Reference.{Reader, pure, raise, ◌>>=◌, ◌>>◌, KindOf, check_node}
use runstate.Vocabulary.Payloads.Lifecycle.{parent}

-- A lookup of nodes: `none` where no node is.
abbrev pub NodeAt : Type 0 → Type 0 → Type 0
NodeAt F S = ℕ → Reader S (Option (At F))

module _ {F : Type 0} where
  -- The parent to walk on to: `none` at the root, and at or below `stop_at`.
  unfoldable pub next : Option ℕ → At F → Option ℕ
  next stop_at at = elim (parent at.node) [
    | none ↦ none
    | some p ↦ elim stop_at [ none ↦ some p | some stop ↦ if leb p stop then none else some p ]
  ]

module _ {F S : Type 0} where
  -- `kind_of`, the function local to `chain`.
  unfoldable pub kind_of : NodeAt F S → KindOf S
  kind_of node_of seq = do at ← node_of seq; pure (kind_of_at at)

  -- `above = node_of(parent); assert above is not None`, then the next round.
  unfoldable pub go_on : (At F → Reader S (List (At F))) → Option (At F) → Reader S (List (At F))
  go_on round none = raise assertion
  go_on round (some above) = round above

  unfoldable pub follow :
      NodeAt F S → (At F → Reader S (List (At F))) → List (At F) → Option ℕ → Reader S (List (At F))
  unfolding go_on
  follow node_of round out none = pure out
  follow node_of round out (some p) = node_of p >>= go_on round

  -- The `while` loop. `out` holds the nodes walked, the newest walked first, so that the list is not
  -- reversed at the end.
  unfoldable pub chain_loop :
      ℕ → NodeAt F S → Option ℕ → At F → List (At F) → Reader S (List (At F))
  chain_loop zero node_of stop_at at out = raise out_of_fuel
  chain_loop (suc fuel) node_of stop_at at out = do
    check_node at (kind_of node_of)
    follow node_of (λ above. chain_loop fuel node_of stop_at above (above ∷ out)) out
        (next stop_at at)

  unfoldable pub from_head : ℕ → NodeAt F S → Option ℕ → Option (At F) → Reader S (List (At F))
  from_head node node_of stop_at none = raise (not_a_node node)
  from_head node node_of stop_at (some head) =
      chain_loop (suc node) node_of stop_at head (head ∷ [])

  -- A parent lies below its node, so `node + 1` rounds are enough.
  unfoldable pub chain : ℕ → NodeAt F S → Option ℕ → Reader S (List (At F))
  chain node node_of stop_at = do head ← node_of node; from_head node node_of stop_at head

module _ {F : Type 0} ⦃num : Number F⦄ where
  abbrev pub parsed : Option (Envelope F) → Result WalkError (Option (At F))
  parsed none = ok none
  parsed (some e) = node_at e

module _ {F S : Type 0} ⦃num : Number F⦄ where
  -- The nodes over a lookup of records.
  unfoldable pub nodes_in : (ℕ → S → Option (Envelope F) × S) → NodeAt F S
  nodes_in get seq s = (parsed (get seq s).0, (get seq s).1)
