-- ===== src/Walk/Chain/Ends.antt =====
-- The loop of `chain` of runstate/walk.py: its fuel, its assertion, the order of its nodes.
use runstate.Prelude.{
  ℕ, zero, suc, ◌<◌, ◌≡◌, subst, ◌≢◌, inl, inr, Option, none, some, List, [], ◌∷◌, arith, leb,
  Bool-cases, Option-cases, filter, Result, Result-cases, ok, err,
}
use runstate.Walk.Node.{WalkError, assertion, out_of_fuel, At, extendable_node, kind}
use runstate.Walk.Node.Reference.{check_node, check_parent, check_reference, judge, is_nil}
use runstate.Walk.Chain.{kind_of, next, go_on, follow, chain_loop, from_head, chain}
use runstate.Walk.Chain.Pure.{plain}
use runstate.Walk.Chain.Sound.{
  IsSound, ParentFits, Lineage, ends, extends, reverse_onto, check_node-IsSound,
  check_node_complete,
}
use runstate.Vocabulary.Payloads.Lifecycle.{parent, committed}
use runstate.Channel.{Envelope}

module _ {F : Type 0} where
  -- Root first: each node is extendable, lies below the next one, and is that one's parent.
  abbrev pub IsAscending : List (At F) → Type 0
  IsAscending [] = Unit
  IsAscending (a ∷ []) = Unit
  IsAscending (a ∷ b ∷ rest) =
      ((a.env.seq < b.env.seq) × (parent b.node ≡ some a.env.seq) × (kind a.node ≡ extendable_node))
      × IsAscending (b ∷ rest)

  next-parent :
      (stop_at : Option ℕ) (at : At F) (p : ℕ) → next stop_at at ≡ some p → parent at.node ≡ some p
  unfolding next
  next-parent stop_at at p h = ground arith

module _ {F : Type 0} (f : ℕ → Result WalkError (Option (At F)))
    (placed : (k : ℕ) (a : At F) → f k ≡ ok (some a) → a.env.seq ≡ k) where
  -- What the rules say of the parent that the loop walks on to.
  parent_below :
      (stop_at : Option ℕ) (at up : At F) (p : ℕ)
      → IsSound f at
      → next stop_at at ≡ some p
      → f p ≡ ok (some up)
      → (up.env.seq < at.env.seq) × (kind up.node ≡ extendable_node)
  parent_below stop_at at up p sound on q =
      let fits : ParentFits f at.env.seq (some p) =
        subst (ParentFits f at.env.seq) (next-parent stop_at at p on) sound.parent_fits in
      let same : fits.1.0 ≡ up = ground (arith, fits.1.1, q) in
      (
        omega (arith, placed p up q, fits.0),
        subst (λ u. kind u.node ≡ extendable_node) same fits.1.2,
      )

  parent_there :
      (stop_at : Option ℕ) (at : At F) (p : ℕ)
      → IsSound f at
      → next stop_at at ≡ some p
      → f p ≢ ok none
  parent_there stop_at at p sound on q =
      let fits : ParentFits f at.env.seq (some p) =
        subst (ParentFits f at.env.seq) (next-parent stop_at at p on) sound.parent_fits in
      ground (arith, fits.1.1, q)

  pub reverse-IsAscending :
      (stop_at : Option ℕ) (at : At F) (path done : List (At F))
      → Lineage f stop_at at path
      → IsAscending (at ∷ done)
      → IsAscending (reverse_onto f path done)
  reverse-IsAscending stop_at at path done (ends _ sound root) h = h
  reverse-IsAscending stop_at at path done (extends _ up p {rest} sound on q l) h =
      let below = parent_below stop_at at up p sound on q in
      reverse-IsAscending stop_at up rest (at ∷ done) l
        ((below.0, rw (placed p up q) (next-parent stop_at at p on), below.1), h)

  -- Neither the fuel runs out nor the assertion fails.
  abbrev pub Ends : Result WalkError (List (At F)) → Type 0
  Ends r = (r ≢ err out_of_fuel) × (r ≢ err assertion)

  module _
      (real : (k : ℕ) (x : WalkError) → f k ≡ err x → (x ≢ out_of_fuel) × (x ≢ assertion)) where
    check_parent-final :
        (e : Envelope F) (p : Option ℕ) (x : WalkError)
        → (check_parent e p (kind_of (plain f)) tt).0 ≡ err x
        → (x ≢ out_of_fuel) × (x ≢ assertion)
    unfolding check_parent check_reference kind_of judge
    check_parent-final e none x h = absurd (ground arith)
    check_parent-final e (some p) x h = elim (Bool-cases (leb e.seq p)) [
      | inl above ↦ (ground (arith, above), ground (arith, above))
      | inr below ↦ elim (Result-cases (f p)) [
        | inr (y, q) ↦
            let same : y ≡ x = ground (arith, below, q) in
            subst (λ z. (z ≢ out_of_fuel) × (z ≢ assertion)) same (real p y q)
        | inl (none, q) ↦ (ground (arith, below, q), ground (arith, below, q))
        | inl (some up, q) ↦ (ground (arith, below, q), ground (arith, below, q))
      ]
    ]

    check_node-final :
        (at : At F) (x : WalkError)
        → (check_node at (kind_of (plain f)) tt).0 ≡ err x
        → (x ≢ out_of_fuel) × (x ≢ assertion)
    unfolding check_node
    check_node-final at x h =
        elim (Bool-cases (is_nil (filter (λ v. leb at.env.seq v) (committed at.node)))) [
          | inl fine ↦ check_parent-final at.env (parent at.node) x (rw (fine, check_node) at h)
          | inr late ↦ (ground (arith, late), ground (arith, late))
        ]

    chain_loop-Ends :
        (fuel : ℕ) (stop_at : Option ℕ) (at : At F) (out : List (At F))
        → at.env.seq < fuel
        → Ends (chain_loop fuel (plain f) stop_at at out tt).0
    unfolding chain_loop follow go_on
    chain_loop-Ends zero stop_at at out lt = elim lt [ ]
    chain_loop-Ends (suc fuel) stop_at at out lt =
        elim (Result-cases (check_node at (kind_of (plain f)) tt).0) [
          | inr (x, c) ↦
              let final = check_node-final at x c in
              (λ h. final.0 (ground (arith, c, h)), λ h. final.1 (ground (arith, c, h)))
          | inl (u, c) ↦ elim (Option-cases (next stop_at at)) [
            | inl root ↦ (ground (arith, c, root), ground (arith, c, root))
            | inr (p, on) ↦
                let sound = check_node-IsSound f at c in
                elim (Result-cases (f p)) [
                  | inr (x, q) ↦ (
                    λ h. (real p x q).0 (ground (arith, c, on, q, h)),
                    λ h. (real p x q).1 (ground (arith, c, on, q, h)),
                  )
                  | inl (none, q) ↦ absurd (parent_there stop_at at p sound on q)
                  | inl (some up, q) ↦
                      let ih =
                        chain_loop-Ends fuel stop_at up (up ∷ out)
                          (omega (arith, (parent_below stop_at at up p sound on q).0)) in
                      (
                        λ h. ih.0 (ground (arith, c, on, q, h)),
                        λ h. ih.1 (ground (arith, c, on, q, h)),
                      )
                ]
          ]
        ]

    from_head-Ends :
        (node : ℕ) (stop_at : Option ℕ) (head : Option (At F))
        → f node ≡ ok head
        → Ends (from_head node (plain f) stop_at head tt).0
    unfolding from_head
    from_head-Ends node stop_at none q = (ground arith, ground arith)
    from_head-Ends node stop_at (some head) q =
        chain_loop-Ends (suc node) stop_at head (head ∷ []) (omega (arith, placed node head q))

    pub plain-chain-Ends :
        (node : ℕ) (stop_at : Option ℕ) → Ends (chain node (plain f) stop_at tt).0
    unfolding chain
    plain-chain-Ends node stop_at = elim (Result-cases (f node)) [
      | inr (x, q) ↦ (
        λ h. (real node x q).0 (ground (arith, q, h)),
        λ h. (real node x q).1 (ground (arith, q, h)),
      )
      | inl (head, q) ↦
          let e = from_head-Ends node stop_at head q in
          (λ h. e.0 (ground (arith, q, h)), λ h. e.1 (ground (arith, q, h)))
    ]

  -- Completeness: a lineage by the rules is what the loop walks.
  pub chain_loop_complete :
      (fuel : ℕ) (stop_at : Option ℕ) (at : At F) (path done : List (At F))
      → at.env.seq < fuel
      → Lineage f stop_at at path
      → (chain_loop fuel (plain f) stop_at at (at ∷ done) tt).0 ≡ ok (reverse_onto f path done)
  unfolding chain_loop follow go_on
  chain_loop_complete zero stop_at at path done lt l = elim lt [ ]
  chain_loop_complete (suc fuel) stop_at at path done lt (ends _ sound root) =
      ground (arith, check_node_complete f at sound, root)
  chain_loop_complete (suc fuel) stop_at at path done lt (extends _ up p {rest} sound on q l) =
      ground (
        arith,
        check_node_complete f at sound,
        on,
        q,
        chain_loop_complete fuel stop_at up rest (at ∷ done)
            (omega (arith, (parent_below stop_at at up p sound on q).0)) l,
      )
