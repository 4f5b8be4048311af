-- ===== src/Vocabulary/Checks.antt =====
-- The checks of runstate/vocabulary/payloads.py, one for each shared schema definition. A check that
-- passes returns the value read; `none` is its `ValueError`.
use runstate.Prelude.{
  ℕ, suc, String, Bool, true, false, not, ◌&&◌, ◌||◌, Option, none, some, List, [], ◌∷◌, str_eq,
  if◌then◌else◌, all, str_mem, nat_mem, Result, ok, err,
}
use runstate.Prelude.Int.{pos}
use runstate.Json.{
  Number, Json, Items, Fields, null, bool, int, float, str, list, nil, cons, end, field, get,
}

-- What a body's constructor raises: a missing or an extra key, or a field's bad value.
pub data BodyError : Type 0 where
  type_error : BodyError
  value_error : String → BodyError

-- `if not b: raise ValueError`.
unfoldable pub require : Bool → String → Result BodyError (Unit {0})
require b k = if b then ok tt else err (value_error k)

unfoldable pub unique_nats : List ℕ → Bool
unique_nats [] = true
unique_nats (x ∷ xs) = not (nat_mem x xs) && unique_nats xs

unfoldable pub unique_names : List String → Bool
unique_names [] = true
unique_names (x ∷ xs) = not (str_mem x xs) && unique_names xs

module _ {F : Type 0} where
  -- `_seq(nullable=False)`: an integer of at least 1.
  unfoldable pub seq_of : Json F → Option ℕ
  seq_of (int (pos (suc n))) = some (suc n)
  seq_of _ = none

  -- `_seq(nullable=True)`.
  unfoldable pub parent_of : Json F → Option (Option ℕ)
  unfolding seq_of
  parent_of null = some none
  parent_of j = elim (seq_of j) [ none ↦ none | some n ↦ some (some n) ]

  -- `_watermark`: an integer of at least 0.
  unfoldable pub watermark_of : Json F → Option ℕ
  watermark_of (int (pos n)) = some n
  watermark_of _ = none

  unfoldable pub string_of : Json F → Option String
  string_of (str s) = some s
  string_of _ = none

  unfoldable pub bool_of : Json F → Option Bool
  bool_of (bool b) = some b
  bool_of _ = none

  -- The loop of `_seqs` over the list's items.
  unfoldable pub seq_items : Items F → Option (List ℕ)
  unfolding seq_of
  seq_items nil = some []
  seq_items (cons j js) = elim (seq_of j) [
    | none ↦ none
    | some n ↦ elim (seq_items js) [ none ↦ none | some ns ↦ some (n ∷ ns) ]
  ]

  -- `_seqs`: unique seqs, order significant.
  unfoldable pub seqs_of : Json F → Option (List ℕ)
  unfolding seq_items unique_nats
  seqs_of (list js) = elim (seq_items js) [
    | none ↦ none
    | some ns ↦ if unique_nats ns then some ns else none
  ]
  seqs_of _ = none

  unfoldable pub values_of : Json F → Option (Option (List ℕ))
  unfolding seqs_of
  values_of null = some none
  values_of j = elim (seqs_of j) [ none ↦ none | some ns ↦ some (some ns) ]

  unfoldable pub name_items : Items F → Option (List String)
  name_items nil = some []
  name_items (cons (str s) js) =
      if str_eq s "" then none else elim (name_items js) [ none ↦ none | some ns ↦ some (s ∷ ns) ]
  name_items _ = none

  -- `_names`: unique, non-empty strings.
  unfoldable pub names_of : Json F → Option (List String)
  unfolding name_items unique_names
  names_of (list js) = elim (name_items js) [
    | none ↦ none
    | some ns ↦ if unique_names ns then some ns else none
  ]
  names_of _ = none

  unfoldable pub error_of : Json F → Option (Option String)
  error_of null = some none
  error_of (str s) = some (some s)
  error_of _ = none

  -- A constructor called with `**body` takes exactly its own fields.
  unfoldable pub has_key : String → Fields F → Bool
  has_key k end = false
  has_key k (field j v fs) = str_eq j k || has_key k fs

  unfoldable pub only_keys : List String → Fields F → Bool
  only_keys ks end = true
  only_keys ks (field j v fs) = str_mem j ks && only_keys ks fs

  unfoldable pub takes : List String → Fields F → Result BodyError (Unit {0})
  unfolding has_key only_keys
  takes ks body =
      if all (λ k. has_key k body) ks && only_keys ks body then ok tt else err type_error

  -- One field, read and checked.
  unfoldable pub check : {A : Type 0} → String → (Json F → Option A) → Fields F → Result BodyError A
  check k read body = elim (get k body) [
    | none ↦ err type_error
    | some j ↦ elim (read j) [ none ↦ err (value_error k) | some a ↦ ok a ]
  ]

module _ {F : Type 0} ⦃num : Number F⦄ where
  abbrev pub zero_le : F → Bool
  zero_le t = num.le (num.of_int (pos 0)) t

  -- `_time(nullable=False)`: a number of at least 0, which NaN is not.
  unfoldable pub time_of : Json F → Option F
  time_of (int n) = if zero_le (num.of_int n) then some (num.of_int n) else none
  time_of (float t) = if zero_le t then some t else none
  time_of _ = none

  unfoldable pub time_or_null_of : Json F → Option (Option F)
  unfolding time_of
  time_or_null_of null = some none
  time_or_null_of j = elim (time_of j) [ none ↦ none | some t ↦ some (some t) ]
