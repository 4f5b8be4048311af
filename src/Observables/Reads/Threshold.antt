-- ===== src/Observables/Reads/Threshold.antt =====
-- `prefix` and `series` of runstate/observables.py.
use runstate.Prelude.{
  ℕ, zero, suc, ◌≤◌, ◌<◌, String, ◌≡◌, refl, sym, ap, ◌∙◌, subst, inl, inr, true, false, List, [],
  ◌∷◌, arith, leb, ◌==◌, Bool-cases, length, take, Result-cases, ok,
}
use runstate.Prelude.Int.{pos}
use runstate.Json.{Number}
use runstate.Channel.Interface.{Channel}
use runstate.Walk.Node.{At}
use runstate.Walk.Lineage.{Walked, walk}
use runstate.Walk.Membership.{Element}
use runstate.Observables.Head.{Head}
use runstate.Observables.Reads.{
  HeadStrategy, Prefix, complete, pending, settled_short, outcome, resolve, read_element,
  read_elements, prefix, series,
}
use runstate.Observables.Reads.Series.{series-IsSeries}

module _ {ℓ} {A : Type ℓ} where
  length-take : (n : ℕ) (xs : List A) → n ≤ length xs → length (take n xs) ≡ n
  length-take zero xs h = refl
  length-take (suc n) [] h = absurd (omega arith)
  length-take (suc n) (x ∷ xs) h = ap suc (length-take n xs (omega arith))

  take-all : (n : ℕ) (xs : List A) → length xs < n → take n xs ≡ xs
  take-all zero xs h = absurd (omega arith)
  take-all (suc n) [] h = refl
  take-all (suc n) (x ∷ xs) h = ap (λ ys. x ∷ ys) (take-all n xs (omega arith))

module _ {F : Type 0} ⦃num : Number F⦄ where
  read_elements-take :
      (w : Walked F) (n : ℕ) (ms : List (At F × ℕ)) (xs : List (Element F))
      → read_elements w ms ≡ ok xs
      → read_elements w (take n ms) ≡ ok (take n xs)
  unfolding read_elements
  read_elements-take w zero ms xs h = refl
  read_elements-take w (suc n) [] xs h = let same : [] ≡ xs = ground (arith, h) in rw (← same) refl
  read_elements-take w (suc n) ((at, s) ∷ ms) xs h = elim (Result-cases (read_element w at s)) [
    | inr (x, e) ↦ absurd (ground (arith, h, e))
    | inl (x, e) ↦ elim (Result-cases (read_elements w ms)) [
      | inr (y, e') ↦ absurd (ground (arith, h, e, e'))
      | inl (ys, e') ↦
          let same : x ∷ ys ≡ xs = ground (arith, h, e, e') in
          rw (← same, e, read_elements-take w n ms ys e') refl
    ]
  ]

  prefix-outcome :
      (ch : Channel F) (name : String) (n : ℕ) (hs : HeadStrategy) (h : Head)
      (es : List (Element F))
      → resolve hs ch ≡ ok h
      → series ch name hs ≡ ok es
      → prefix ch name (pos n) hs ≡ ok (outcome n h (take n es))
  unfolding series prefix outcome
  prefix-outcome ch name n hs h es r s =
      let k = series-IsSeries ch name hs es s in
      let same : k.head ≡ h = ground (arith, r, k.resolved) in
      rw r (elim (Bool-cases (n == 0)) [
        | inl z ↦ let zero' : n ≡ 0 = ground arith in rw zero' refl
        | inr more ↦
            let walks : walk ch h.node ≡ ok k.walked =
              ap (λ (x : Head). walk ch x.node) (sym same) ∙ k.walks in
            rw (more, walks, k.finds, read_elements-take k.walked n k.found es k.reads) refl
      ])

  -- The first `n` of the series are complete. Short of `n`, they are all of it: settled short if the
  -- head is settled, else pending.
  pub data FirstOf (n : ℕ) (h : Head) (es : List (Element F)) : Prefix F → Type 0 where
    all_there : n ≤ length es → FirstOf n h es (complete (take n es) h.node)
    short_settled : length es < n → h.settled ≡ true → FirstOf n h es (settled_short es h.node)
    short_pending : length es < n → h.settled ≡ false → FirstOf n h es (pending es h.node)

  outcome-FirstOf :
      (n : ℕ) (h : Head) (es : List (Element F)) → FirstOf n h es (outcome n h (take n es))
  unfolding outcome
  outcome-FirstOf n h es = elim (Bool-cases (leb n (length es))) [
    | inl enough ↦
        let fits : n ≤ length es = ground (arith, enough) in
        let exact : (length (take n es) == n) ≡ true = ground (arith, length-take n es fits) in
        rw (exact, outcome) (all_there fits)
    | inr short ↦
        let below : length es < n = ground (arith, short) in
        let apart : (length es == n) ≡ false = ground (arith, below) in
        rw (take-all n es below, apart, outcome)
          (elim (Bool-cases h.settled) [
            | inl s ↦ subst (FirstOf n h es) (ground (arith, s)) (short_settled below s)
            | inr p ↦ subst (FirstOf n h es) (ground (arith, p)) (short_pending below p)
          ])
  ]

  -- Where the series reads, `prefix` reads: with at least `n` elements, its first `n`, complete; with
  -- fewer, all of them, settled short if the head is settled and pending if not. Each is with the node
  -- of the head.
  pub prefix-series :
      (ch : Channel F) (name : String) (n : ℕ) (hs : HeadStrategy) (h : Head)
      (es : List (Element F))
      → resolve hs ch ≡ ok h
      → series ch name hs ≡ ok es
      → (p : Prefix F) × (prefix ch name (pos n) hs ≡ ok p) × FirstOf n h es p
  prefix-series ch name n hs h es r s =
      (outcome n h (take n es), prefix-outcome ch name n hs h es r s, outcome-FirstOf n h es)
