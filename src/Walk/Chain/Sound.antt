-- ===== src/Walk/Chain/Sound.antt =====
-- `chain` of runstate/walk.py: the nodes that it returns and their checks.
use runstate.Prelude.{
  ℕ, zero, suc, ◌<◌, String, ◌≡◌, refl, inl, inr, true, false, Option, none, some, List, [], ◌∷◌,
  arith, leb, leb-false, Bool-cases, Option-cases, filter, All, Result, Result-cases, ok,
}
use runstate.Channel.{Envelope}
use runstate.Walk.Node.{WalkError, NodeKind, extendable_node, At, kind}
use runstate.Walk.Node.Reference.{judge, check_reference, check_parent, check_node, is_nil}
use runstate.Walk.Chain.{kind_of, next, go_on, follow, chain_loop}
use runstate.Walk.Chain.Pure.{plain}
use runstate.Vocabulary.Payloads.Lifecycle.{committed, parent}

module _ {F : Type 0} (f : ℕ → Result WalkError (Option (At F))) where
  abbrev pub ParentFits : ℕ → Option ℕ → Type 0
  ParentFits seq none = Unit
  ParentFits seq (some p) =
      (p < seq) × ((up : At F) × (f p ≡ ok (some up)) × (kind up.node ≡ extendable_node))

  -- The rules of a node: its values lie below it, and its parent is an extendable node below it.
  pub record IsSound (at : At F) : Type 0 where
    pub values_below : All (λ s. s < at.env.seq) (committed at.node)
    pub parent_fits : ParentFits at.env.seq (parent at.node)

  -- A lineage from its newest node up, each node by the rules: it ends at the root, or where the
  -- next parent is at or below `stop_at`.
  pub data Lineage (stop_at : Option ℕ) : At F → List (At F) → Type 0 where
    ends : (at : At F) → IsSound at → next stop_at at ≡ none → Lineage stop_at at (at ∷ [])
    extends :
        (at up : At F) (p : ℕ) {rest : List (At F)}
        → IsSound at
        → next stop_at at ≡ some p
        → f p ≡ ok (some up)
        → Lineage stop_at up rest
        → Lineage stop_at at (at ∷ rest)

  All-below : (n : ℕ) (vs : List ℕ) → is_nil (filter (λ v. leb n v) vs) ≡ true → All (λ v. v < n) vs
  All-below n [] h = tt
  All-below n (v ∷ vs) h = elim (Bool-cases (leb n v)) [
    | inl late ↦ absurd (ground (arith, late))
    | inr early ↦ (leb-false n v early, All-below n vs (ground (arith, early)))
  ]

  pub none_late :
      (n : ℕ) (vs : List ℕ) → All (λ v. v < n) vs → is_nil (filter (λ v. leb n v) vs) ≡ true
  none_late n [] h = refl
  none_late n (v ∷ vs) h = ground (arith, none_late n vs h.1, h.0)

  judge_sound :
      (e : Envelope F) (name : String) (p : ℕ) (k : Option NodeKind)
      → (judge {S = Unit {0}} e name p k tt).0 ≡ ok tt
      → k ≡ some extendable_node
  unfolding judge
  judge_sound e name p (some extendable_node) h = refl
  judge_sound e name p _ h = absurd (ground arith)

  -- A reference that passes names an extendable node below its referrer.
  check_reference_sound :
      (e : Envelope F) (name : String) (p : ℕ)
      → (check_reference e name p (kind_of (plain f)) tt).0 ≡ ok tt
      → ParentFits e.seq (some p)
  unfolding check_reference kind_of judge
  check_reference_sound e name p h = elim (Bool-cases (leb e.seq p)) [
    | inl above ↦ absurd (ground (arith, above))
    | inr below ↦ elim (Result-cases (f p)) [
      | inr (x, q) ↦ absurd (ground (arith, below, q))
      | inl (none, q) ↦ absurd (ground (arith, below, q))
      | inl (some up, q) ↦ (leb-false e.seq p below, (up, q, ground (arith, below, q)))
    ]
  ]

  check_reference_complete :
      (e : Envelope F) (name : String) (p : ℕ)
      → ParentFits e.seq (some p)
      → (check_reference e name p (kind_of (plain f)) tt).0 ≡ ok tt
  unfolding check_reference kind_of judge
  check_reference_complete e name p (below, (up, q, k)) =
      let low : leb e.seq p ≡ false = ground (arith, below) in
      rw (low, check_reference) (ground (arith, q, k))

  check_parent_sound :
      (e : Envelope F) (p : Option ℕ)
      → (check_parent e p (kind_of (plain f)) tt).0 ≡ ok tt
      → ParentFits e.seq p
  unfolding check_parent
  check_parent_sound e none h = tt
  check_parent_sound e (some p) h = check_reference_sound e "parent" p h

  check_parent_complete :
      (e : Envelope F) (p : Option ℕ)
      → ParentFits e.seq p
      → (check_parent e p (kind_of (plain f)) tt).0 ≡ ok tt
  unfolding check_parent
  check_parent_complete e none h = refl
  check_parent_complete e (some p) h = check_reference_complete e "parent" p h

  -- The check of a node passes exactly on the nodes that obey the rules.
  pub check_node-IsSound :
      (at : At F) → (check_node at (kind_of (plain f)) tt).0 ≡ ok tt → IsSound at
  unfolding check_node
  check_node-IsSound at h =
      elim (Bool-cases (is_nil (filter (λ v. leb at.env.seq v) (committed at.node)))) [
        | inl fine ↦ record {
          values_below = All-below at.env.seq (committed at.node) fine;
          parent_fits = check_parent_sound at.env (parent at.node) (rw (fine, check_node) at h);
        }
        | inr late ↦ absurd (ground (arith, late, h))
      ]

  pub check_node_complete :
      (at : At F) → IsSound at → (check_node at (kind_of (plain f)) tt).0 ≡ ok tt
  unfolding check_node
  check_node_complete at h =
      rw (none_late at.env.seq (committed at.node) h.values_below, check_node)
        (check_parent_complete at.env (parent at.node) h.parent_fits)

  -- `reverse_onto l done` is `l` backwards, then `done`.
  abbrev pub reverse_onto : List (At F) → List (At F) → List (At F)
  reverse_onto [] done = done
  reverse_onto (a ∷ rest) done = reverse_onto rest (a ∷ done)

  pub record Reached (stop_at : Option ℕ) (at : At F) (done r : List (At F)) : Type 0 where
    pub path : List (At F)
    pub lineage : Lineage stop_at at path
    pub result : r ≡ reverse_onto path done

  pub chain_loop-Lineage :
      (fuel : ℕ) (stop_at : Option ℕ) (at : At F) (done r : List (At F))
      → (chain_loop fuel (plain f) stop_at at (at ∷ done) tt).0 ≡ ok r
      → Reached stop_at at done r
  unfolding chain_loop follow go_on
  chain_loop-Lineage zero stop_at at done r h = absurd (ground arith)
  chain_loop-Lineage (suc fuel) stop_at at done r h =
      elim (Result-cases (check_node at (kind_of (plain f)) tt).0) [
        | inr (x, c) ↦ absurd (ground (arith, c))
        | inl (u, c) ↦
            let sound = check_node-IsSound at c in
            elim (Option-cases (next stop_at at)) [
              | inl root ↦ record {
                path = at ∷ [];
                lineage = ends at sound root;
                result = ground (arith, c, root);
              }
              | inr (p, on) ↦ elim (Result-cases (f p)) [
                | inr (x, q) ↦ absurd (ground (arith, c, on, q))
                | inl (none, q) ↦ absurd (ground (arith, c, on, q))
                | inl (some up, q) ↦
                    let ih =
                      chain_loop-Lineage fuel stop_at up (at ∷ done) r (ground (arith, c, on, q)) in
                    record {
                      path = at ∷ ih.path;
                      lineage = extends at up p sound on q ih.lineage;
                      result = ih.result;
                    }
              ]
            ]
      ]
