-- ===== src/Vocabulary/Payloads/Bodies.antt =====
-- The checks of runstate/vocabulary/payloads.py and the keyword arguments of a body's constructor:
-- lemmas on the JSON that they read.
use runstate.Prelude.{
  ℕ, suc, String, ◌≡◌, refl, ap, ◌∙◌, subst, inl, inr, Bool, true, Option, none, some, List, [],
  ◌∷◌, arith, str_eq, Bool-cases, Option-cases, str_mem, Ensures, Ensures-of, ok, returns, raises,
}
use runstate.Prelude.Int.{ℤ, pos}
use runstate.Json.{
  Number, Json, Items, Fields, null, bool, int, float, str, list, nil, cons, end, field, get,
}
use runstate.Vocabulary.Checks.{
  takes, check, seq_of, parent_of, bool_of, seqs_of, values_of, names_of, error_of, time_of,
  seq_items, name_items, zero_le, only_keys, has_key,
}
use runstate.Vocabulary.Payloads.Valid.{time_of_sound}
use runstate.Vocabulary.Payloads.Wire.{
  seq_json, parent_json, seq_array, values_json, name_array, error_json,
}

module _ {F : Type 0} where
  -- Every key of the body is one of `ks`.
  abbrev pub HasOnly : List String → Fields F → Type 0
  HasOnly ks end = Unit
  HasOnly ks (field k j fs) = (str_mem k ks ≡ true) × HasOnly ks fs

  only_keys-HasOnly :
      (ks : List String) (body : Fields F) → only_keys ks body ≡ true → HasOnly ks body
  unfolding only_keys
  only_keys-HasOnly ks end h = tt
  only_keys-HasOnly ks (field k j fs) h =
      (ground (arith, h), only_keys-HasOnly ks fs (ground (arith, h)))

  takes-HasOnly : (ks : List String) (body : Fields F) → takes ks body ≡ ok tt → HasOnly ks body
  unfolding takes
  takes-HasOnly ks body h = only_keys-HasOnly ks body (ground (arith, h))

  pub takes-Ensures :
      (ks : List String) (body : Fields F) → Ensures (λ _. HasOnly ks body) (takes ks body)
  takes-Ensures ks body = Ensures-of (takes ks body) (λ u h. takes-HasOnly ks body h)

  -- What a check passes is the JSON of what it returns.
  pub seq_of_inverse : (j : Json F) (n : ℕ) → seq_of j ≡ some n → j ≡ seq_json n
  unfolding seq_of
  seq_of_inverse (int (pos (suc m))) n h = ground arith
  seq_of_inverse _ n h = absurd (ground arith)

  pub bool_of_inverse : (j : Json F) (b : Bool) → bool_of j ≡ some b → j ≡ bool b
  unfolding bool_of
  bool_of_inverse (bool c) b h = ground arith
  bool_of_inverse _ b h = absurd (ground arith)

  pub error_of_inverse : (j : Json F) (e : Option String) → error_of j ≡ some e → j ≡ error_json e
  unfolding error_of
  error_of_inverse null none h = refl
  error_of_inverse null (some s) h = absurd (ground arith)
  error_of_inverse (str s) none h = absurd (ground arith)
  error_of_inverse (str s) (some s') h = ground arith
  error_of_inverse _ e h = absurd (ground arith)

  pub parent_of_inverse : (j : Json F) (p : Option ℕ) → parent_of j ≡ some p → j ≡ parent_json p
  unfolding parent_of
  parent_of_inverse null none h = refl
  parent_of_inverse null (some n) h = absurd (ground arith)
  parent_of_inverse (int (pos (suc m))) none h = absurd (ground arith)
  parent_of_inverse (int (pos (suc m))) (some n) h = ground arith
  parent_of_inverse _ p h = absurd (ground arith)

  seq_items_inverse : (js : Items F) (ns : List ℕ) → seq_items js ≡ some ns → js ≡ seq_array ns
  unfolding seq_items
  seq_items_inverse nil [] h = refl
  seq_items_inverse nil (n ∷ ns) h = absurd (ground arith)
  seq_items_inverse (cons (int (pos (suc m))) js) [] h = absurd (ground arith)
  seq_items_inverse (cons (int (pos (suc m))) js) (n ∷ ns) h =
      let same : suc m ≡ n = ground (arith, h) in
      let rest = seq_items_inverse js ns (ground (arith, h)) in rw (rest, ← same) refl
  seq_items_inverse (cons _ js) ns h = absurd (ground arith)

  seqs_of-inverse : (j : Json F) (ns : List ℕ) → seqs_of j ≡ some ns → j ≡ list (seq_array ns)
  unfolding seqs_of
  seqs_of-inverse (list js) ns h = ap list (seq_items_inverse js ns (ground (arith, h)))
  seqs_of-inverse _ ns h = absurd (ground arith)

  pub values_of_inverse :
      (j : Json F) (vs : Option (List ℕ)) → values_of j ≡ some vs → j ≡ values_json vs
  unfolding values_of seqs_of
  values_of_inverse null none h = refl
  values_of_inverse null (some ns) h = absurd (ground arith)
  values_of_inverse (list js) none h = absurd (ground (arith, h))
  values_of_inverse (list js) (some ns) h = seqs_of-inverse (list js) ns (ground (arith, h))
  values_of_inverse _ vs h = absurd (ground arith)

  name_items_inverse :
      (js : Items F) (ss : List String) → name_items js ≡ some ss → js ≡ name_array ss
  unfolding name_items
  name_items_inverse nil [] h = refl
  name_items_inverse nil (s ∷ ss) h = absurd (ground arith)
  name_items_inverse (cons (str s) js) [] h = absurd (ground (arith, h))
  name_items_inverse (cons (str s) js) (n ∷ ss) h =
      let same : s ≡ n = ground (arith, h) in
      let rest = name_items_inverse js ss (ground (arith, h)) in rw (rest, ← same) refl
  name_items_inverse (cons _ js) ss h = absurd (ground arith)

  pub names_of-inverse :
      (j : Json F) (ss : List String) → names_of j ≡ some ss → j ≡ list (name_array ss)
  unfolding names_of
  names_of-inverse (list js) ss h = ap list (name_items_inverse js ss (ground (arith, h)))
  names_of-inverse _ ss h = absurd (ground arith)

module _ {F : Type 0} ⦃num : Number F⦄ where
  -- A clock is sent as a float or as an integer.
  pub data IsTime : Option (Json F) → F → Type 0 where
    as_float : (x : F) → IsTime (some (float x)) x
    as_int : (n : ℤ) → IsTime (some (int n)) (num.of_int n)

  time_of-IsTime : (j : Json F) (t : F) → time_of j ≡ some t → IsTime (some j) t
  unfolding time_of
  time_of-IsTime (int n) t h =
      let same : num.of_int n ≡ t = ground (arith, h) in
      subst (IsTime (some (int n))) same (as_int n)
  time_of-IsTime (float x) t h =
      let same : x ≡ t = ground (arith, h) in subst (IsTime (some (float x))) same (as_float x)
  time_of-IsTime _ t h = absurd (ground arith)

module _ {F A : Type 0} (P : A → Type 0) where
  get-Ensures :
      (k : String) (read : Json F → Option A) (body : Fields F)
      → ((j : Json F) (a : A) → get k body ≡ some j → read j ≡ some a → P a)
      → Ensures P (check k read body)
  unfolding check
  get-Ensures k read body sound = elim (Option-cases (get k body)) [
    | inl e ↦ rw (e, check) raises
    | inr (j, e) ↦ elim (Option-cases (read j)) [
      | inl f ↦ rw (e, check, f) raises
      | inr (a, f) ↦ rw (e, check, f) (returns (sound j a e f))
    ]
  ]

module _ {F A : Type 0} where
  -- A field that was checked stands in the body as the JSON of what the check returned.
  pub sent-Ensures :
      (P : A → Type 0) (json : A → Json F) (k : String) (read : Json F → Option A) (body : Fields F)
      → ((j : Json F) (a : A) → read j ≡ some a → P a)
      → ((j : Json F) (a : A) → read j ≡ some a → j ≡ json a)
      → Ensures (λ a. P a × (get k body ≡ some (json a))) (check k read body)
  sent-Ensures P json k read body sound back =
      get-Ensures (λ a. P a × (get k body ≡ some (json a))) k read body
        (λ j a e f. (sound j a f, e ∙ ap some (back j a f)))

  -- A field that the body holds, and whose check passes it.
  pub check-get :
      (k : String) (read : Json F → Option A) (body : Fields F) (j : Json F) (a : A)
      → get k body ≡ some j
      → read j ≡ some a
      → check k read body ≡ ok a
  unfolding check
  check-get k read body j a e f = rw (e, check, f) refl

module _ {F : Type 0} where
  pub has_key-get :
      (k : String) (body : Fields F) (j : Json F) → get k body ≡ some j → has_key k body ≡ true
  unfolding has_key
  has_key-get k end j h = absurd (ground arith)
  has_key-get k (field k' j' fs) j h = elim (Bool-cases (str_eq k' k)) [
    | inl same ↦ rw same refl
    | inr other ↦ ground (arith, other, has_key-get k fs j (ground (arith, other, h)))
  ]

  pub HasOnly-only_keys :
      (ks : List String) (body : Fields F) → HasOnly ks body → only_keys ks body ≡ true
  unfolding only_keys
  HasOnly-only_keys ks end h = refl
  HasOnly-only_keys ks (field k j fs) h = rw (h.0, HasOnly-only_keys ks fs h.1) refl

module _ {F : Type 0} ⦃num : Number F⦄ where
  pub IsTime-Ensures :
      (k : String) (body : Fields F)
      → Ensures (λ t. (zero_le t ≡ true) × IsTime (get k body) t) (check k time_of body)
  IsTime-Ensures k body =
      get-Ensures (λ t. (zero_le t ≡ true) × IsTime (get k body) t) k time_of body
        (λ j t e f. (time_of_sound j t f, rw e (time_of-IsTime j t f)))

  -- A clock in the body that is not negative passes its check.
  pub IsTime-reads :
      (o : Option (Json F)) (t : F)
      → IsTime o t
      → zero_le t ≡ true
      → (j : Json F) × (o ≡ some j) × (time_of j ≡ some t)
  unfolding time_of
  IsTime-reads _ _ (as_float x) z = (float x, refl, rw z refl)
  IsTime-reads _ _ (as_int n) z = (int n, refl, rw z refl)
