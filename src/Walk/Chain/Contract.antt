-- ===== src/Walk/Chain/Contract.antt =====
-- `chain` of runstate/walk.py over any lookup of nodes that keeps a state.
use runstate.Prelude.{
  ℕ, suc, ◌≡◌, sym, ◌∙◌, ◌≢◌, inl, inr, Option, none, some, List, [], arith, Result, Result-cases,
  ok, err,
}
use runstate.Walk.Node.{WalkError, assertion, out_of_fuel, At}
use runstate.Walk.Chain.{NodeAt, chain, from_head}
use runstate.Walk.Chain.Pure.{plain, chain-Agrees}
use runstate.Walk.Chain.Sound.{Lineage, reverse_onto, chain_loop-Lineage}
use runstate.Walk.Chain.Ends.{
  IsAscending, reverse-IsAscending, plain-chain-Ends, chain_loop_complete,
}

-- A chain's result: the lineage of the head node, by the rules, root first.
pub record IsLineage {F : Type 0} (f : ℕ → Result WalkError (Option (At F))) (node : ℕ)
    (stop_at : Option ℕ) (r : List (At F)) : Type 0 where
  pub head : At F
  pub found : f node ≡ ok (some head)
  pub path : List (At F)
  pub lineage : Lineage f stop_at head path
  pub root_first : r ≡ reverse_onto f path []

module _ {F : Type 0} (f : ℕ → Result WalkError (Option (At F))) where
  plain-IsLineage :
      (node : ℕ) (stop_at : Option ℕ) (r : List (At F))
      → (chain node (plain f) stop_at tt).0 ≡ ok r
      → IsLineage f node stop_at r
  unfolding chain from_head
  plain-IsLineage node stop_at r h = elim (Result-cases (f node)) [
    | inr (x, q) ↦ absurd (ground (arith, q))
    | inl (none, q) ↦ absurd (ground (arith, q))
    | inl (some head, q) ↦
        let walked = chain_loop-Lineage f (suc node) stop_at head [] r (ground (arith, q)) in
        record {
          head = head;
          found = q;
          path = walked.path;
          lineage = walked.lineage;
          root_first = walked.result;
        }
  ]

-- `I` is what the lookup keeps of its state, `f` what it answers; a node found at a seq bears it.
module _ {F S : Type 0} (I : S → Type 0) (f : ℕ → Result WalkError (Option (At F)))
    (node_of : NodeAt F S)
    (answers : (k : ℕ) (s : S) → I s → ((node_of k s).0 ≡ f k) × I (node_of k s).1)
    (placed : (k : ℕ) (a : At F) → f k ≡ ok (some a) → a.env.seq ≡ k) where
  -- What a chain returns is the lineage of its head, each node checked by the rules.
  pub chain-IsLineage :
      (node : ℕ) (stop_at : Option ℕ) (r : List (At F)) (s : S)
      → I s
      → (chain node node_of stop_at s).0 ≡ ok r
      → IsLineage f node stop_at r
  chain-IsLineage node stop_at r s i h =
      plain-IsLineage f node stop_at r
        (sym (chain-Agrees I f node_of answers node stop_at s i).0 ∙ h)

  -- A lineage by the rules is never refused: the chain returns it.
  pub chain_complete :
      (node : ℕ) (stop_at : Option ℕ) (r : List (At F)) (s : S)
      → I s
      → IsLineage f node stop_at r
      → (chain node node_of stop_at s).0 ≡ ok r
  unfolding chain from_head
  chain_complete node stop_at r s i l =
      (chain-Agrees I f node_of answers node stop_at s i).0
      ∙ ground (
        arith,
        l.found,
        l.root_first,
        chain_loop_complete f placed (suc node) stop_at l.head l.path []
            (omega (arith, placed node l.head l.found)) l.lineage,
      )

  -- Root first, seqs ascend, each node is the next one's parent, and every node but the last is
  -- extendable.
  pub chain-IsAscending :
      (node : ℕ) (stop_at : Option ℕ) (r : List (At F)) (s : S)
      → I s
      → (chain node node_of stop_at s).0 ≡ ok r
      → IsAscending r
  chain-IsAscending node stop_at r s i h =
      let l = chain-IsLineage node stop_at r s i h in
      rw l.root_first (reverse-IsAscending f placed stop_at l.head l.path [] l.lineage tt)

  -- The loop ends within its fuel, and its assertion never fails.
  pub chain-ends :
      (node : ℕ) (stop_at : Option ℕ) (s : S)
      → ((k : ℕ) (x : WalkError) → f k ≡ err x → (x ≢ out_of_fuel) × (x ≢ assertion))
      → I s
      → ((chain node node_of stop_at s).0 ≢ err out_of_fuel)
        × ((chain node node_of stop_at s).0 ≢ err assertion)
  chain-ends node stop_at s real i =
      rw (chain-Agrees I f node_of answers node stop_at s i).0
        (plain-chain-Ends f placed real node stop_at)
