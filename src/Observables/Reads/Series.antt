-- ===== src/Observables/Reads/Series.antt =====
-- `series`, `prefix_len` and `last_element` of runstate/observables.py.
use runstate.Prelude.{
  ℕ, suc, ◌-◌, ◌≤◌, String, ◌≡◌, refl, ap, inl, inr, Option, List, [], ◌∷◌, arith, length,
  get_elem?, Result-cases, ok,
}
use runstate.Json.{Number}
use runstate.Channel.Interface.{Channel}
use runstate.Vocabulary.Coordinate.{stream}
use runstate.Walk.Node.{At}
use runstate.Walk.Lineage.{Walked, walk}
use runstate.Walk.Membership.{Element, members}
use runstate.Observables.Head.{Head}
use runstate.Observables.Reads.{
  HeadStrategy, last_member, read_last, last_element, resolve, read_element, read_elements, count,
  prefix_len, series,
}

module _ {F : Type 0} ⦃num : Number F⦄ where
  length-read_elements :
      (w : Walked F) (ms : List (At F × ℕ)) (xs : List (Element F))
      → read_elements w ms ≡ ok xs
      → length ms ≡ length xs
  unfolding read_elements
  length-read_elements w [] xs h = let same : [] ≡ xs = ground (arith, h) in rw (← same) refl
  length-read_elements w ((at, s) ∷ ms) xs h = elim (Result-cases (read_element w at s)) [
    | inr (x, e) ↦ absurd (ground (arith, h, e))
    | inl (x, e) ↦ elim (Result-cases (read_elements w ms)) [
      | inr (y, e') ↦ absurd (ground (arith, h, e, e'))
      | inl (ys, e') ↦
          let same : x ∷ ys ≡ xs = ground (arith, h, e, e') in
          rw (← same) (ap suc (length-read_elements w ms ys e'))
    ]
  ]

  -- The calls that a series makes.
  pub record IsSeries (ch : Channel F) (name : String) (hs : HeadStrategy) (es : List (Element F))
      : Type 0 where
    pub head : Head
    pub walked : Walked F
    pub found : List (At F × ℕ)
    pub resolved : resolve hs ch ≡ ok head
    pub walks : walk ch head.node ≡ ok walked
    pub finds : members walked name ≡ ok found
    pub reads : read_elements walked found ≡ ok es

  pub series-IsSeries :
      (ch : Channel F) (name : String) (hs : HeadStrategy) (es : List (Element F))
      → series ch name hs ≡ ok es
      → IsSeries ch name hs es
  unfolding series
  series-IsSeries ch name hs es s = elim (Result-cases (resolve hs ch)) [
    | inr (x, r) ↦ absurd (ground (arith, s, r))
    | inl (h, r) ↦ elim (Result-cases (walk ch h.node)) [
      | inr (x, k) ↦ absurd (ground (arith, s, r, k))
      | inl (w, k) ↦ elim (Result-cases (members w name)) [
        | inr (x, m) ↦ absurd (ground (arith, s, r, k, m))
        | inl (ms, m) ↦ record {
          head = h;
          walked = w;
          found = ms;
          resolved = r;
          walks = k;
          finds = m;
          reads = ground (arith, s, r, k, m);
        }
      ]
    ]
  ]

  prefix_len-series :
      (ch : Channel F) (name : String) (hs : HeadStrategy) (es : List (Element F))
      → series ch name hs ≡ ok es
      → prefix_len ch (stream name) hs ≡ ok (length es)
  unfolding series prefix_len count
  prefix_len-series ch name hs es h =
      let k = series-IsSeries ch name hs es h in
      rw (k.resolved, k.walks, k.finds) (ap ok (length-read_elements k.walked k.found es k.reads))

  -- The element at the end of a list.
  abbrev pub last_of : List (Element F) → Option (Element F)
  last_of es = get_elem? es (length es - 1)

  last_of-cons :
      (x : Element F) (es : List (Element F)) → 1 ≤ length es → last_of (x ∷ es) ≡ last_of es
  last_of-cons x [] h = absurd (omega arith)
  last_of-cons x (y ∷ ys) h =
      let whole : suc (suc (length ys)) - 1 ≡ suc (length ys) = omega arith in
      let tail : suc (length ys) - 1 ≡ length ys = omega arith in rw (whole, tail) refl

  read_last-read_elements :
      (w : Walked F) (ms : List (At F × ℕ)) (xs : List (Element F))
      → read_elements w ms ≡ ok xs
      → read_last w (last_member ms) ≡ ok (last_of xs)
  unfolding read_elements last_member
  read_last-read_elements w [] xs h = let same : [] ≡ xs = ground (arith, h) in rw (← same) refl
  read_last-read_elements w ((at, s) ∷ []) xs h = elim (Result-cases (read_element w at s)) [
    | inr (x, e) ↦ absurd (ground (arith, h, e))
    | inl (x, e) ↦ let same : x ∷ [] ≡ xs = ground (arith, h, e) in rw (← same, e) refl
  ]
  read_last-read_elements w ((at, s) ∷ m ∷ ms) xs h = elim (Result-cases (read_element w at s)) [
    | inr (x, e) ↦ absurd (ground (arith, h, e))
    | inl (x, e) ↦ elim (Result-cases (read_elements w (m ∷ ms))) [
      | inr (y, e') ↦ absurd (ground (arith, h, e, e'))
      | inl (ys, e') ↦
          let same : x ∷ ys ≡ xs = ground (arith, h, e, e') in
          let some_left = length-read_elements w (m ∷ ms) ys e' in
          rw (← same, last_of-cons x ys (omega arith)) (read_last-read_elements w (m ∷ ms) ys e')
    ]
  ]

  -- Where the series reads, `last_element` is its last element in lineage order, none of an empty
  -- series, and `prefix_len` is its length.
  pub last_element-series :
      (ch : Channel F) (name : String) (hs : HeadStrategy) (es : List (Element F))
      → series ch name hs ≡ ok es
      → (last_element ch name hs ≡ ok (last_of es))
        × (prefix_len ch (stream name) hs ≡ ok (length es))
  unfolding series last_element
  last_element-series ch name hs es h =
      let k = series-IsSeries ch name hs es h in
      (
        rw (k.resolved, k.walks, k.finds) (read_last-read_elements k.walked k.found es k.reads),
        prefix_len-series ch name hs es h,
      )
