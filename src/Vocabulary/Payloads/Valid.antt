-- ===== src/Vocabulary/Payloads/Valid.antt =====
-- The checks of runstate/vocabulary/payloads.py: lemmas on the values that they return.
use runstate.Prelude.{
  ℕ, zero, suc, ◌≤◌, String, ◌≡◌, refl, ap, ◌∙◌, inl, inr, Bool, true, false, Option, none, some,
  List, [], ◌∷◌, arith, str_eq, Bool-cases, Option-cases, All, Ensures, Ensures-of, ok,
}
use runstate.Prelude.Int.{pos}
use runstate.Json.{Number, Json, Items, Fields, bool, int, float, str, list, nil, cons, get}
use runstate.Vocabulary.Checks.{
  check, seq_of, parent_of, watermark_of, bool_of, seqs_of, values_of, names_of, error_of, time_of,
  seq_items, name_items, unique_nats, unique_names, zero_le,
}
use runstate.Vocabulary.Payloads.Wire.{
  seq_json, parent_json, seq_array, values_json, name_array, error_json,
}

abbrev pub IsParent : Option ℕ → Type 0
IsParent none = Unit
IsParent (some n) = 1 ≤ n

abbrev pub IsSeqs : List ℕ → Type 0
IsSeqs ns = All (λ n. 1 ≤ n) ns × (unique_nats ns ≡ true)

abbrev pub IsValues : Option (List ℕ) → Type 0
IsValues none = Unit
IsValues (some ns) = IsSeqs ns

abbrev pub IsNames : List String → Type 0
IsNames ss = All (λ s. str_eq s "" ≡ false) ss × (unique_names ss ≡ true)

module _ {F : Type 0} where
  pub seq_of_sound : (j : Json F) (n : ℕ) → seq_of j ≡ some n → 1 ≤ n
  unfolding seq_of
  seq_of_sound (int (pos (suc m))) n h = ground arith
  seq_of_sound _ n h = ground arith

  pub parent_of-sound : (j : Json F) (p : Option ℕ) → parent_of j ≡ some p → IsParent p
  unfolding parent_of
  parent_of-sound (int (pos (suc m))) none h = tt
  parent_of-sound (int (pos (suc m))) (some n) h = ground arith
  parent_of-sound _ none h = tt
  parent_of-sound _ (some n) h = ground arith

  seq_items_sound : (js : Items F) (ns : List ℕ) → seq_items js ≡ some ns → All (λ n. 1 ≤ n) ns
  unfolding seq_items
  seq_items_sound nil [] h = tt
  seq_items_sound nil (n ∷ ns) h = absurd (ground arith)
  seq_items_sound (cons (int (pos (suc m))) js) [] h = tt
  seq_items_sound (cons (int (pos (suc m))) js) (n ∷ ns) h =
      (ground arith, seq_items_sound js ns (ground arith))
  seq_items_sound (cons _ js) ns h = absurd (ground arith)

  pub seqs_of_sound : (j : Json F) (ns : List ℕ) → seqs_of j ≡ some ns → IsSeqs ns
  unfolding seqs_of
  seqs_of_sound (list js) ns h = elim (Option-cases (seq_items js)) [
    | inl e ↦ absurd (ground (arith, e))
    | inr (xs, e) ↦
        let p : xs ≡ ns = ground (arith, e) in
        (seq_items_sound js ns (e ∙ ap some p), ground (arith, e))
  ]
  seqs_of_sound _ ns h = absurd (ground arith)

  name_items_sound :
      (js : Items F) (ss : List String)
      → name_items js ≡ some ss
      → All (λ s. str_eq s "" ≡ false) ss
  unfolding name_items
  name_items_sound nil [] h = tt
  name_items_sound nil (n ∷ ns) h = absurd (ground arith)
  name_items_sound (cons (str s) js) [] h = tt
  name_items_sound (cons (str s) js) (n ∷ ns) h = elim (Bool-cases (str_eq s "")) [
    | inl empty ↦ absurd (ground (arith, empty))
    | inr full ↦ elim (Option-cases (name_items js)) [
      | inl e ↦ absurd (ground (arith, e, full))
      | inr (xs, e) ↦
          let p : s ≡ n = ground (arith, e, full) in
          let q : xs ≡ ns = ground (arith, e, full) in
          (rw (← p) full, name_items_sound js ns (e ∙ ap some q))
    ]
  ]
  name_items_sound (cons _ js) ns h = absurd (ground arith)

  pub names_of-sound : (j : Json F) (ss : List String) → names_of j ≡ some ss → IsNames ss
  unfolding names_of
  names_of-sound (list js) ss h = elim (Option-cases (name_items js)) [
    | inl e ↦ absurd (ground (arith, e))
    | inr (xs, e) ↦
        let p : xs ≡ ss = ground (arith, e) in
        (name_items_sound js ss (e ∙ ap some p), ground (arith, e))
  ]
  names_of-sound _ ss h = absurd (ground arith)

  pub values_of_sound : (j : Json F) (vs : Option (List ℕ)) → values_of j ≡ some vs → IsValues vs
  unfolding values_of
  values_of_sound (list js) none h = tt
  values_of_sound (list js) (some ns) h = elim (Option-cases (seq_items js)) [
    | inl e ↦ absurd (ground (arith, e))
    | inr (xs, e) ↦ elim (Bool-cases (unique_nats xs)) [
      | inl u ↦
          let p : xs ≡ ns = ground (arith, e, u) in
          (seq_items_sound js ns (e ∙ ap some p), rw (← p) u)
      | inr u ↦ absurd (ground (arith, e, u))
    ]
  ]
  values_of_sound _ none h = tt
  values_of_sound _ (some ns) h = absurd (ground arith)

-- The JSON of valid fields.
module _ (F : Type 0) where
  pub seq_of-seq_json : (n : ℕ) → 1 ≤ n → seq_of (seq_json {F = F} n) ≡ some n
  unfolding seq_of
  seq_of-seq_json zero h = elim h [ ]
  seq_of-seq_json (suc n) h = refl

  pub parent_of-parent_json :
      (p : Option ℕ) → IsParent p → parent_of (parent_json {F = F} p) ≡ some p
  unfolding parent_of
  parent_of-parent_json none h = refl
  parent_of-parent_json (some zero) h = elim h [ ]
  parent_of-parent_json (some (suc n)) h = refl

  seq_items-seq_array :
      (ns : List ℕ) → All (λ n. 1 ≤ n) ns → seq_items (seq_array {F = F} ns) ≡ some ns
  unfolding seq_items
  seq_items-seq_array [] h = refl
  seq_items-seq_array (zero ∷ ns) h = elim h.0 [ ]
  seq_items-seq_array (suc n ∷ ns) h = rw (seq_items-seq_array ns h.1) refl

  pub seqs_of-seq_array :
      (ns : List ℕ) → IsSeqs ns → seqs_of (list (seq_array {F = F} ns)) ≡ some ns
  unfolding seqs_of
  seqs_of-seq_array ns h = rw (seq_items-seq_array ns h.0, h.1, seqs_of) refl

  pub values_of-values_json :
      (vs : Option (List ℕ)) → IsValues vs → values_of (values_json {F = F} vs) ≡ some vs
  unfolding values_of
  values_of-values_json none h = refl
  values_of-values_json (some ns) h = rw (seq_items-seq_array ns h.0, h.1, values_of) refl

  name_items-name_array :
      (ss : List String)
      → All (λ s. str_eq s "" ≡ false) ss
      → name_items (name_array {F = F} ss) ≡ some ss
  unfolding name_items
  name_items-name_array [] h = refl
  name_items-name_array (s ∷ ss) h = rw (h.0, name_items-name_array ss h.1) refl

  pub names_of-name_array :
      (ss : List String) → IsNames ss → names_of (list (name_array {F = F} ss)) ≡ some ss
  unfolding names_of
  names_of-name_array ss h = rw (name_items-name_array ss h.0, h.1, names_of) refl

  pub watermark_of-seq_json : (n : ℕ) → watermark_of (seq_json {F = F} n) ≡ some n
  unfolding watermark_of
  watermark_of-seq_json n = refl

  pub bool_of-bool : (b : Bool) → bool_of {F = F} (bool b) ≡ some b
  unfolding bool_of
  bool_of-bool b = refl

  pub error_of-error_json : (e : Option String) → error_of (error_json {F = F} e) ≡ some e
  unfolding error_of
  error_of-error_json none = refl
  error_of-error_json (some s) = refl

module _ {F : Type 0} ⦃num : Number F⦄ where
  pub time_of_sound : (j : Json F) (t : F) → time_of j ≡ some t → zero_le t ≡ true
  unfolding time_of
  time_of_sound (int n) t h = ground arith
  time_of_sound (float x) t h = ground arith
  time_of_sound _ t h = absurd (ground arith)

  pub time_of-float : (t : F) → zero_le t ≡ true → time_of (float t) ≡ some t
  unfolding time_of
  time_of-float t h = rw h refl

-- One field of a body and its check.
module _ {F A : Type 0} (P : A → Type 0) where
  check-sound :
      (k : String) (read : Json F → Option A) (body : Fields F) (a : A)
      → ((j : Json F) (a : A) → read j ≡ some a → P a)
      → check k read body ≡ ok a
      → P a
  unfolding check
  check-sound k read body a sound h = elim (Option-cases (get k body)) [
    | inl e ↦ absurd (ground (arith, e))
    | inr (j, e) ↦ elim (Option-cases (read j)) [
      | inl f ↦ absurd (ground (arith, e, f))
      | inr (b, f) ↦ let p : b ≡ a = ground (arith, e, f) in sound j a (f ∙ ap some p)
    ]
  ]

  pub check-Ensures :
      (k : String) (read : Json F → Option A) (body : Fields F)
      → ((j : Json F) (a : A) → read j ≡ some a → P a)
      → Ensures P (check k read body)
  check-Ensures k read body sound =
      Ensures-of (check k read body) (λ a h. check-sound k read body a sound h)
