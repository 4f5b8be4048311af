-- ===== src/Observables/Heartbeat/Search.antt =====
-- The search of `current_heartbeat` of runstate/observables.py, window by window.
use runstate.Prelude.{
  ℕ, zero, suc, ◌-◌, ◌*◌, ◌≤◌, ◌<◌, max, ◌≡◌, refl, sym, ap, ◌∙◌, inl, inr, Bool, false, ◌&&◌,
  Option, none, some, List, [], ◌∷◌, ◌++◌, reverse, arith, ltb, leb, ltb→lt, Bool-cases, filter,
}
use runstate.Prelude.Int.{ltb_ℤ, pos}
use mathlib.Core.List.{reverse-append}
use runstate.Channel.{Envelope, last_where, admits}
use runstate.Channel.Interface.{Channel}
use runstate.Channel.Last.{pick, last_where-same}
use runstate.Channel.Windows.{within, IsAfter-log}
use runstate.Channel.Windows.Split.{split, filter_empty}
use runstate.Claims.{named_claim, names_claim}
use runstate.Observables.Heartbeat.{beat_topics, beats_query, first_naming, or_found, search_back}

module _ {F : Type 0} where
  abbrev pub names : ℕ → Envelope F → Bool
  names c e = names_claim (named_claim e) c

  first_naming-append :
      (c hi : ℕ) (xs : List (Envelope F)) (e : Envelope F)
      → first_naming c hi (xs ++ e ∷ []) ≡ pick (first_naming c hi xs) (leb e.seq hi && names c e) e
  unfolding first_naming
  first_naming-append c hi [] e = refl
  first_naming-append c hi (x ∷ xs) e = elim (Bool-cases (leb x.seq hi && names c x)) [
    | inl t ↦ rw t refl
    | inr f ↦ rw f (first_naming-append c hi xs e)
  ]

  first_naming-reverse :
      (c hi : ℕ) (es : List (Envelope F))
      → first_naming c hi (reverse es) ≡ last_where (λ e. leb e.seq hi && names c e) es
  unfolding first_naming
  first_naming-reverse c hi [] = refl
  first_naming-reverse c hi (e ∷ es) =
      ap (first_naming c hi) (reverse-append (e ∷ []) es)
      ∙ first_naming-append c hi (reverse es) e
      ∙ ap (λ o. pick o (leb e.seq hi && names c e) e) (first_naming-reverse c hi es)

  pick_none : (o : Option (Envelope F)) (e : Envelope F) → pick o false e ≡ o
  pick_none none e = refl
  pick_none (some x) e = refl

  pub last_where-filter :
      (p q r : Envelope F → Bool) (es : List (Envelope F))
      → ((e : Envelope F) → (q e && p e) ≡ r e)
      → last_where p (filter q es) ≡ last_where r es
  last_where-filter p q r [] h = refl
  last_where-filter p q r (e ∷ es) h =
      let ih = last_where-filter p q r es h in
      elim (Bool-cases (q e)) [
        | inl t ↦
            let same : p e ≡ r e = sym (rw t refl) ∙ h e in
            rw t (ap (λ o. pick o (p e) e) ih ∙ ap (λ b. pick (last_where r es) b e) same)
        | inr f ↦
            let same : false ≡ r e = sym (rw f refl) ∙ h e in
            rw f (
              ih
              ∙ sym
                  (ap (λ b. pick (last_where r es) b e) (sym same) ∙ pick_none (last_where r es) e))
      ]

  or_found-none : (o : Option (Envelope F)) → or_found o none ≡ o
  or_found-none none = refl
  or_found-none (some e) = refl

  pick-or_found :
      (a b : Option (Envelope F)) (q : Bool) (x : Envelope F)
      → pick (or_found a b) q x ≡ or_found a (pick b q x)
  pick-or_found none b q x = refl
  pick-or_found (some e) b q x = refl

  last_where-append :
      (p : Envelope F → Bool) (xs ys : List (Envelope F))
      → last_where p (xs ++ ys) ≡ or_found (last_where p ys) (last_where p xs)
  last_where-append p [] ys = sym (or_found-none (last_where p ys))
  last_where-append p (x ∷ xs) ys =
      ap (λ o. pick o (p x) x) (last_where-append p xs ys)
      ∙ pick-or_found (last_where p ys) (last_where p xs) (p x) x

  -- What the search has to find: the last record in `(c, hi]` on the two topics that names the claim.
  abbrev beats : ℕ → ℕ → List (Envelope F) → List (Envelope F)
  beats lo hi es = filter (within lo hi (some beat_topics)) es

  window_naming :
      (ch : Channel F) (c lo hi : ℕ)
      → first_naming c hi (reverse (ch.read (pos lo) beats_query))
        ≡ last_where (names c) (beats lo hi ch.log)
  window_naming ch c lo hi =
      first_naming-reverse c hi (ch.read (pos lo) beats_query)
      ∙ rw (ch.read_lem (pos lo) beats_query) (
          last_where-filter (λ e. leb e.seq hi && names c e) (admits beats_query)
            (λ e. admits beats_query e && (leb e.seq hi && names c e)) _ (λ e. refl)
          ∙ last_where-filter (λ e. admits beats_query e && (leb e.seq hi && names c e))
              (λ e. ltb_ℤ (pos lo) (pos e.seq))
              (λ e.
                ltb_ℤ (pos lo) (pos e.seq) && (admits beats_query e && (leb e.seq hi && names c e)))
              ch.log (λ e. refl)
          ∙ last_where-same 0 _ (λ e. within lo hi (some beat_topics) e && names c e) ch.log
              (IsAfter-log ch) (λ e above. ground arith)
          ∙ sym
              (last_where-filter (names c) (within lo hi (some beat_topics)) _ ch.log (λ e. refl)))

  pub search_back_lem :
      (ch : Channel F) (fuel c hi width : ℕ)
      → hi ≤ fuel
      → 1 ≤ width
      → search_back ch fuel c hi width ≡ last_where (names c) (beats c hi ch.log)
  unfolding search_back
  search_back_lem ch zero c hi width le w =
      rw (filter_empty (within c hi (some beat_topics)) ch.log (λ e. ground arith)) refl
  search_back_lem ch (suc fuel) c hi width le w = elim (Bool-cases (ltb c hi)) [
    | inr done ↦
        rw (done, filter_empty (within c hi (some beat_topics)) ch.log (λ e. ground arith)) refl
    | inl more ↦
        let lo = max c (hi - width) in
        let below : c < hi = ltb→lt c hi more in
        rw
          (
            more,
            window_naming ch c lo hi,
            search_back_lem ch fuel c lo (width * 4) (omega arith) (omega arith),
            split 0 c lo hi (some beat_topics) ch.log (omega arith) (omega arith) (IsAfter-log ch),
          )
          (sym (last_where-append (names c) (beats c lo ch.log) (beats lo hi ch.log)))
  ]
