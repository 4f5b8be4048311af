-- ===== src/Vocabulary/Coordinate/Atom.antt =====
-- `make_target` and the wire shapes of a target, of runstate/vocabulary/coordinate.py.
use runstate.Prelude.{
  ℕ, ◌≤◌, ◌≡◌, refl, subst, inl, inr, true, ◌&&◌, Option, none, some, [], ◌∷◌, arith, leb, leb→le,
  le→leb, Bool-cases,
}
use runstate.Prelude.Int.{pos}
use runstate.Json.{Json, Fields, int, str, get}
use runstate.Vocabulary.Checks.{has_key, only_keys}
use runstate.Vocabulary.Coordinate.{
  Target, Counted, stream, commits, max_count, names_stream, atom, from_atom, make_target,
  keep_target, make_of, stream_of,
}

pub record IsTarget (t : Target) : Type 0 where
  pub named : names_stream t.x ≡ true
  pub bounded : t.n ≤ max_count

module _ (F : Type 0) where
  keep_target-valid :
      (x : Counted) (n : ℕ)
      → names_stream x ≡ true
      → n ≤ max_count
      → keep_target x n ≡ some (record { x = x; n = n })
  keep_target-valid x n h le = rw (h, le→leb n max_count le) refl

  from_atom-counted :
      (x : Counted) (n : ℕ)
      → names_stream x ≡ true
      → n ≤ max_count
      → from_atom (atom {F = F} (record { x = x; n = n })) ≡ some (record { x = x; n = n })
  unfolding from_atom atom
  from_atom-counted (stream s) n h le = keep_target-valid (stream s) n h le
  from_atom-counted commits n h le = keep_target-valid commits n h le

  -- `Target.from_atom(t.atom()) == t`, for every target that the constructor admits.
  pub from_atom-atom : (t : Target) → IsTarget t → from_atom (atom {F = F} t) ≡ some t
  from_atom-atom t v = from_atom-counted t.x t.n v.named v.bounded

none-some : {t : Target} → ◌≡◌ {A = Option Target} none (some t) → ⊥
none-some h = ground arith

keep_target-IsTarget : (x : Counted) (n : ℕ) (t : Target) → keep_target x n ≡ some t → IsTarget t
keep_target-IsTarget x n t h = elim (Bool-cases (names_stream x)) [
  | inr nameless ↦ absurd (ground (arith, nameless))
  | inl named ↦ elim (Bool-cases (leb n max_count)) [
    | inr large ↦ absurd (ground (arith, named, large))
    | inl small ↦
        let same : record { x = x; n = n } ≡ t = ground (arith, named, small) in
        subst IsTarget same (record { named = named; bounded = leb→le n max_count small })
  ]
]

module _ {F : Type 0} where
  pub make_target-IsTarget :
      (x : Counted) (j : Json F) (t : Target) → make_target x j ≡ some t → IsTarget t
  unfolding make_target
  make_target-IsTarget x (int (pos n)) t h = keep_target-IsTarget x n t h
  make_target-IsTarget x _ t h = absurd (ground arith)

  make_of-IsTarget :
      (x : Counted) (j : Option (Json F)) (t : Target) → make_of x j ≡ some t → IsTarget t
  make_of-IsTarget x none t h = absurd (ground arith)
  make_of-IsTarget x (some j) t h = make_target-IsTarget x j t h

  stream_of-IsTarget : (x n : Option (Json F)) (t : Target) → stream_of x n ≡ some t → IsTarget t
  stream_of-IsTarget x none t h = absurd (ground arith)
  stream_of-IsTarget (some (str s)) (some n) t h = make_target-IsTarget (stream s) n t h
  stream_of-IsTarget _ (some n) t h = absurd (ground arith)

  -- What `from_atom` reads is a target that the constructor admits.
  pub from_atom-IsTarget : (body : Fields F) (t : Target) → from_atom body ≡ some t → IsTarget t
  unfolding from_atom
  from_atom-IsTarget body t h =
      elim (Bool-cases (has_key "commits" body && only_keys ("commits" ∷ []) body)) [
        | inl c ↦ make_of-IsTarget commits (get "commits" body) t (rw (c, from_atom) at h)
        | inr c ↦
            elim (Bool-cases
              (has_key "stream" body && has_key "n" body && only_keys ("stream" ∷ "n" ∷ []) body)) [
                | inl q ↦
                    stream_of-IsTarget (get "stream" body) (get "n" body) t
                      (rw (c, q, from_atom) at h)
                | inr q ↦ absurd (none-some (rw (c, q, from_atom) at h))
              ]
      ]
