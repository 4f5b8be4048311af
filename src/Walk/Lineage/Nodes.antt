-- ===== src/Walk/Lineage/Nodes.antt =====
-- The nodes of a log as `Backward` looks them up for a walk.
use runstate.Prelude.{
  ℕ, ◌≡◌, ap, ◌≢◌, inl, inr, ◌&&◌, Option, some, List, [], ◌∷◌, arith, leb, ◌==◌, Bool-cases,
  Option-cases, Result, ok, err,
}
use runstate.Json.{Number}
use runstate.Channel.{Envelope}
use runstate.Channel.Interface.{Channel}
use runstate.Walk.Node.{WalkError, assertion, out_of_fuel, At, node_at}
use runstate.Walk.Backward.{Backward, get}
use runstate.Walk.Backward.Lookup.{IsLoaded, get_lem, in_reach, at_seq}
use runstate.Walk.Chain.{nodes_in, parsed}

module _ {F : Type 0} ⦃num : Number F⦄ where
  -- The node at a seq of a channel's log, up to `hi`.
  abbrev pub node_in : Channel F → ℕ → ℕ → Result WalkError (Option (At F))
  node_in ch hi k = parsed (in_reach ch hi k)

  node_at-env : (e : Envelope F) (a : At F) → node_at e ≡ ok (some a) → a.env ≡ e
  unfolding node_at
  node_at-env e a h = ground arith

  node_at-final :
      (e : Envelope F) (x : WalkError) → node_at e ≡ err x → (x ≢ out_of_fuel) × (x ≢ assertion)
  unfolding node_at
  node_at-final e x h = (ground arith, ground arith)

  at_seq-seq : (k : ℕ) (es : List (Envelope F)) (e : Envelope F) → at_seq k es ≡ some e → e.seq ≡ k
  at_seq-seq k [] e h = absurd (ground arith)
  at_seq-seq k (x ∷ es) e h = elim (Bool-cases (x.seq == k)) [
    | inl hit ↦ ground (arith, hit)
    | inr miss ↦ at_seq-seq k es e (ground (arith, miss))
  ]

  module _ (ch : Channel F) (hi : ℕ) where
    in_reach-some : (k : ℕ) (r : Envelope F) → in_reach ch hi k ≡ some r → at_seq k ch.log ≡ some r
    in_reach-some k r h = elim (Bool-cases (leb 1 k && leb k hi)) [
      | inl inside ↦ rw inside at h
      | inr outside ↦ absurd (ground (arith, outside))
    ]

    pub node_in-placed : (k : ℕ) (a : At F) → node_in ch hi k ≡ ok (some a) → a.env.seq ≡ k
    node_in-placed k a h = elim (Option-cases (in_reach ch hi k)) [
      | inl e ↦ absurd (ground (arith, e))
      | inr (r, e) ↦
          let q = node_at-env r a (ground (arith, e)) in
          rw q (at_seq-seq k ch.log r (in_reach-some k r e))
    ]

    pub node_in-final :
        (k : ℕ) (x : WalkError) → node_in ch hi k ≡ err x → (x ≢ out_of_fuel) × (x ≢ assertion)
    node_in-final k x h = elim (Option-cases (in_reach ch hi k)) [
      | inl e ↦ absurd (ground (arith, e))
      | inr (r, e) ↦ node_at-final r x (ground (arith, e))
    ]

    pub nodes_in-answers :
        (k : ℕ) (b : Backward F)
        → IsLoaded ch hi b
        → ((nodes_in (get ch hi) k b).0 ≡ node_in ch hi k)
          × IsLoaded ch hi (nodes_in (get ch hi) k b).1
    unfolding nodes_in
    nodes_in-answers k b h =
        let g = get_lem ch hi k b h in (ap (λ (o : Option (Envelope F)). parsed o) g.0, g.1)
