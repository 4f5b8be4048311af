-- ===== src/Walk/Lineage/Loaded.antt =====
-- `walk` of runstate/walk.py, and the rules of a lineage.
use runstate.Prelude.{
  ℕ, ◌≡◌, refl, ◌≢◌, inl, inr, true, Option, none, some, List, [], ◌∷◌, arith, Bool-cases, nat_mem,
  Result-cases, ok, err,
}
use runstate.Json.{Number}
use runstate.Channel.Interface.{Channel}
use runstate.Vocabulary.Payloads.Lifecycle.{committed}
use runstate.Vocabulary.Checks.{unique_nats}
use runstate.Walk.Node.{WalkError, assertion, out_of_fuel, At}
use runstate.Walk.Backward.{Backward, start, get}
use runstate.Walk.Backward.Lookup.{IsLoaded, start-IsLoaded}
use runstate.Walk.Chain.{chain, nodes_in}
use runstate.Walk.Chain.Ends.{IsAscending}
use runstate.Walk.Chain.Contract.{IsLineage, chain-IsLineage, chain-IsAscending, chain-ends}
use runstate.Walk.Lineage.Nodes.{node_in, node_in-placed, node_in-final, nodes_in-answers}
use runstate.Walk.Lineage.{Walked, load_values, load_claim, load_nodes, walk_from, walk}

-- The seqs that a walk commits, the newest first.
abbrev pub push : List ℕ → List ℕ → List ℕ
push [] seen = seen
push (s ∷ rest) seen = push rest (s ∷ seen)

module _ {F : Type 0} ⦃num : Number F⦄ where
  abbrev pub gather : List (At F) → List ℕ → List ℕ
  gather [] seen = seen
  gather (at ∷ rest) seen = gather rest (push (committed at.node) seen)

  module _ (ch : Channel F) (hi : ℕ) where
    load_values-distinct :
        (at : At F) (vs seen : List ℕ) (b : Backward F) (out : List ℕ)
        → (load_values ch hi at vs seen b).0 ≡ ok out
        → unique_nats seen ≡ true
        → (out ≡ push vs seen) × (unique_nats out ≡ true)
    unfolding load_values unique_nats
    load_values-distinct at [] seen b out h u = (ground arith, ground arith)
    load_values-distinct at (s ∷ rest) seen b out h u = elim (Bool-cases (nat_mem s seen)) [
      | inl twice ↦ absurd (ground (arith, twice))
      | inr new ↦
          load_values-distinct at rest (s ∷ seen) (get ch hi s b).1 out (ground (arith, new))
            (ground (arith, new))
    ]

    load_nodes-distinct :
        (nodes : List (At F)) (seen : List ℕ) (b : Backward F) (out : List ℕ)
        → (load_nodes ch hi nodes seen b).0 ≡ ok out
        → unique_nats seen ≡ true
        → unique_nats (gather nodes seen) ≡ true
    unfolding load_nodes
    load_nodes-distinct [] seen b out h u = u
    load_nodes-distinct (at ∷ rest) seen b out h u =
        elim (Result-cases (load_values ch hi at (committed at.node) seen b).0) [
          | inr (x, e) ↦ absurd (ground (arith, e))
          | inl (mid, e) ↦
              let d = load_values-distinct at (committed at.node) seen b mid e u in
              let ih =
                load_nodes-distinct rest mid
                  (load_claim ch hi at (load_values ch hi at (committed at.node) seen b).1) out
                  (ground (arith, e)) d.1 in
              rw (← d.0) ih
        ]

    load_values-final :
        (at : At F) (vs seen : List ℕ) (b : Backward F) (x : WalkError)
        → (load_values ch hi at vs seen b).0 ≡ err x
        → (x ≢ out_of_fuel) × (x ≢ assertion)
    unfolding load_values
    load_values-final at [] seen b x h = absurd (ground arith)
    load_values-final at (s ∷ rest) seen b x h = elim (Bool-cases (nat_mem s seen)) [
      | inl twice ↦ (ground (arith, twice), ground (arith, twice))
      | inr new ↦ load_values-final at rest (s ∷ seen) (get ch hi s b).1 x (ground (arith, new))
    ]

    load_nodes-final :
        (nodes : List (At F)) (seen : List ℕ) (b : Backward F) (x : WalkError)
        → (load_nodes ch hi nodes seen b).0 ≡ err x
        → (x ≢ out_of_fuel) × (x ≢ assertion)
    unfolding load_nodes
    load_nodes-final [] seen b x h = absurd (ground arith)
    load_nodes-final (at ∷ rest) seen b x h =
        elim (Result-cases (load_values ch hi at (committed at.node) seen b).0) [
          | inr (y, e) ↦ load_values-final at (committed at.node) seen b x (ground (arith, e))
          | inl (mid, e) ↦
              load_nodes-final rest mid
                (load_claim ch hi at (load_values ch hi at (committed at.node) seen b).1) x
                (ground (arith, e))
        ]

  pub record IsWalk (ch : Channel F) (node : ℕ) (w : Walked F) : Type 0 where
    pub lineage : IsLineage (node_in ch node) node none w.nodes
    pub ascending : IsAscending w.nodes
    pub once : unique_nats (gather w.nodes []) ≡ true

  -- What `walk` returns is the lineage of its node, checked by the rules and read to the root; its
  -- nodes ascend, each one the next one's parent; and no value is committed twice along it.
  pub walk-IsWalk :
      (ch : Channel F) (node : ℕ) (w : Walked F) → walk ch (some node) ≡ ok w → IsWalk ch node w
  unfolding walk walk_from unique_nats
  walk-IsWalk ch node w h =
      let loaded = start-IsLoaded ch node in
      let answers = nodes_in-answers ch node in
      let chained = chain node (nodes_in (get ch node)) none (start node) in
      elim (Result-cases chained.0) [
        | inr (x, e) ↦ absurd (ground (arith, e))
        | inl (nodes, e) ↦ elim (Result-cases (load_nodes ch node nodes [] chained.1).0) [
          | inr (x, q) ↦ absurd (ground (arith, e, q))
          | inl (out, q) ↦
              let same : w.nodes ≡ nodes = ground (arith, e, q) in
              record {
                lineage = rw same (
                    chain-IsLineage (IsLoaded ch node) (node_in ch node) (nodes_in (get ch node))
                      answers (node_in-placed ch node) node none nodes (start node) loaded e);
                ascending = rw same (
                    chain-IsAscending (IsLoaded ch node) (node_in ch node) (nodes_in (get ch node))
                      answers (node_in-placed ch node) node none nodes (start node) loaded e);
                once = rw same (load_nodes-distinct ch node nodes [] chained.1 out q refl);
              }
        ]
      ]

  -- `walk` always answers or raises one of its own errors: its loops end within their fuel, and the
  -- assertion in `chain` never fails.
  pub walk-ends :
      (ch : Channel F) (node : Option ℕ)
      → (walk ch node ≢ err out_of_fuel) × (walk ch node ≢ err assertion)
  unfolding walk walk_from
  walk-ends ch none = (ground arith, ground arith)
  walk-ends ch (some node) =
      let chained = chain node (nodes_in (get ch node)) none (start node) in
      let ended =
        chain-ends (IsLoaded ch node) (node_in ch node) (nodes_in (get ch node))
          (nodes_in-answers ch node) (node_in-placed ch node) node none (start node)
          (node_in-final ch node) (start-IsLoaded ch node) in
      elim (Result-cases chained.0) [
        | inr (x, e) ↦ (λ h. ended.0 (ground (arith, e, h)), λ h. ended.1 (ground (arith, e, h)))
        | inl (nodes, e) ↦ elim (Result-cases (load_nodes ch node nodes [] chained.1).0) [
          | inr (x, q) ↦
              let final = load_nodes-final ch node nodes [] chained.1 x q in
              (λ h. final.0 (ground (arith, e, q, h)), λ h. final.1 (ground (arith, e, q, h)))
          | inl (out, q) ↦ (ground (arith, e, q), ground (arith, e, q))
        ]
      ]
