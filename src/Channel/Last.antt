-- ===== src/Channel/Last.antt =====
-- The last record of a log that passes a test.
use runstate.Prelude.{
  ℕ, ◌<◌, ◌≡◌, refl, sym, ap, ◌∙◌, subst, inl, inr, Bool, true, false, ◌&&◌, Option, none, some,
  List, [], ◌∷◌, arith, if◌then◌else◌, Bool-cases, Option-cases,
}
use runstate.Channel.{Envelope, last_where}
use runstate.Channel.Windows.{IsAfter}

module _ {F : Type 0} where
  abbrev pub pick : Option (Envelope F) → Bool → Envelope F → Option (Envelope F)
  pick o b e = elim o [ some found ↦ some found | none ↦ if b then some e else none ]

  pub last_where-step :
      (p : Envelope F → Bool) (e : Envelope F) (es : List (Envelope F))
      → last_where p (e ∷ es) ≡ pick (last_where p es) (p e) e
  last_where-step p e es = refl

  pub last_where-same :
      (n : ℕ) (p q : Envelope F → Bool) (es : List (Envelope F))
      → IsAfter n es
      → ((e : Envelope F) → n < e.seq → p e ≡ q e)
      → last_where p es ≡ last_where q es
  last_where-same n p q [] h same = refl
  last_where-same n p q (e ∷ es) h same =
      let ih = last_where-same e.seq p q es h.1 (λ x above. same x (omega (arith, h.0))) in
      last_where-step p e es
      ∙ ap (λ o. pick o (p e) e) ih
      ∙ ap (λ b. pick (last_where q es) b e) (same e h.0)
      ∙ sym (last_where-step q e es)

  -- A record found passes the test, and lies above what the records lie above.
  pub last_where-found :
      (n : ℕ) (p : Envelope F → Bool) (es : List (Envelope F)) (c : Envelope F)
      → IsAfter n es
      → last_where p es ≡ some c
      → (p c ≡ true) × (n < c.seq)
  last_where-found n p [] c h e = absurd (ground (arith, e))
  last_where-found n p (x ∷ es) c h e = elim (Option-cases (last_where p es)) [
    | inr (d, f) ↦
        let same : d ≡ c = ground (arith, e, f) in
        let found = last_where-found x.seq p es c h.1 (f ∙ ap some same) in
        (found.0, omega (arith, found.1, h.0))
    | inl f ↦ elim (Bool-cases (p x)) [
      | inl t ↦
          let same : x ≡ c = ground (arith, e, f, t) in
          (subst (λ y. p y ≡ true) same t, subst (λ y. n < y.seq) same h.0)
      | inr g ↦ absurd (ground (arith, e, f, g))
    ]
  ]

  pub last_where-none :
      (p q : Envelope F → Bool) (es : List (Envelope F))
      → last_where p es ≡ none
      → last_where (λ x. q x && p x) es ≡ none
  last_where-none p q [] e = refl
  last_where-none p q (x ∷ es) e = elim (Option-cases (last_where p es)) [
    | inr (d, f) ↦ absurd (ground (arith, e, f))
    | inl f ↦
        let fails : p x ≡ false = ground (arith, e, f) in
        last_where-step (λ x. q x && p x) x es
        ∙ rw (last_where-none p q es f, pick) (ground (arith, fails))
  ]

  -- Where the last record that passes one test passes another, it is the last that passes both.
  pub last_where-narrow :
      (p q : Envelope F → Bool) (es : List (Envelope F)) (c : Envelope F)
      → last_where p es ≡ some c
      → q c ≡ true
      → last_where (λ x. q x && p x) es ≡ some c
  last_where-narrow p q [] c e h = absurd (ground (arith, e))
  last_where-narrow p q (x ∷ es) c e h = elim (Option-cases (last_where p es)) [
    | inr (d, f) ↦
        let same : d ≡ c = ground (arith, e, f) in
        last_where-step (λ x. q x && p x) x es
        ∙ rw (last_where-narrow p q es c (f ∙ ap some same) h, pick) refl
    | inl f ↦
        let passes : p x ≡ true = ground (arith, e, f) in
        let same : x ≡ c = ground (arith, e, f, passes) in
        last_where-step (λ x. q x && p x) x es
        ∙ rw (last_where-none p q es f, pick)
            (rw (passes, subst (λ y. q y ≡ true) (sym same) h) (ap some same))
  ]
