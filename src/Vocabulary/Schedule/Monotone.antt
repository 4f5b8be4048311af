-- ===== src/Vocabulary/Schedule/Monotone.antt =====
-- The atoms and terms of runstate/vocabulary/schedule.py along a lineage and in time.
use runstate.Prelude.{
  ℕ, ◌≤◌, ◌≡◌, refl, inl, inr, Bool, true, arith, Bool-cases, and_left, and_right, first,
}
use runstate.Json.{Number}
use runstate.Vocabulary.Coordinate.{Counted}
use runstate.Vocabulary.Schedule.{
  Atom, progress, elapsed, fired, Term, leaf, any_of, all_of, Terms, last, more, holds, holds_any,
  holds_all, Coordinates, of, reached, satisfied,
}

module _ {F : Type 0} (p q : Atom F → Bool) (weaker : (a : Atom F) → p a ≡ true → q a ≡ true) where
  mutual
    unfolding holds

    holds_weaker : (t : Term F) → holds t p ≡ true → holds t q ≡ true
    holds_weaker (leaf a) h = weaker a h
    holds_weaker (any_of ts) h = any_weaker ts h
    holds_weaker (all_of ts) h = all_weaker ts h

    any_weaker : (ts : Terms F) → holds_any ts p ≡ true → holds_any ts q ≡ true
    any_weaker (last t) h = holds_weaker t h
    any_weaker (more t ts) h = elim (Bool-cases (holds t p)) [
      | inl first ↦ rw (holds_weaker t first) refl
      | inr rest ↦ ground (arith, any_weaker ts (ground (arith, rest)))
    ]

    all_weaker : (ts : Terms F) → holds_all ts p ≡ true → holds_all ts q ≡ true
    all_weaker (last t) h = holds_weaker t h
    all_weaker (more t ts) h =
        rw (holds_weaker t (and_left (holds t p) _ h), all_weaker ts (and_right (holds t p) _ h))
          refl

module _ {F : Type 0} ⦃num : Number F⦄ where
  reached_mono :
      (a b : Coordinates) (s t : F) (m n : ℕ)
      → ((x : Counted) → of a x ≤ of b x)
      → num.le s t ≡ true
      → m ≤ n
      → (atom : Atom F) → reached a s m atom ≡ true
      → reached b t n atom ≡ true
  unfolding reached
  reached_mono a b s t m n c time count (progress x) h = ground (arith, c x.x)
  reached_mono a b s t m n c time count (elapsed u) h = num.le_trans u s t h time
  reached_mono a b s t m n c time count (fired k) h = ground arith

  -- A term that holds keeps holding: at a node with no smaller count, at no earlier time, and after
  -- no fewer firings.
  pub satisfied_mono :
      (term : Term F) (a b : Coordinates) (s t : F) (m n : ℕ)
      → ((x : Counted) → of a x ≤ of b x)
      → num.le s t ≡ true
      → m ≤ n
      → satisfied term a s m ≡ true
      → satisfied term b t n ≡ true
  unfolding satisfied
  satisfied_mono term a b s t m n c time count h =
      holds_weaker (reached a s m) (reached b t n) (reached_mono a b s t m n c time count) term h
