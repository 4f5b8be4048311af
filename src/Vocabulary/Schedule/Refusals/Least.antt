-- ===== src/Vocabulary/Schedule/Refusals/Least.antt =====
-- `_corner` of runstate/vocabulary/schedule.py: lemmas on the points where a term holds.
use runstate.Prelude.{
  ℕ, ◌≤◌, max, String, ◌≡◌, refl, subst, inl, inr, true, some, List, [], ◌∷◌, arith, str_eq,
  str_eq_iff, if◌then◌else◌, leb→le, Bool-cases, Option-cases, and_left, and_right, some-eq, All,
}
use runstate.Json.{Number}
use runstate.Vocabulary.Coordinate.{Counted, stream, commits}
use runstate.Vocabulary.Schedule.{
  progress, elapsed, fired, Term, leaf, any_of, all_of, Terms, last, more, Coordinates, count_in,
  of, holds, holds_all, satisfied, reached,
}
use runstate.Vocabulary.Schedule.Refusals.{
  Corner, put, merge, least_count, zero_time, root, join, corner, corner_all,
}

-- Every count listed is at most the count at a node.
abbrev pub Within : List (String × ℕ) → Coordinates → Type 0
Within streams at = All (λ p. p.1 ≤ count_in p.0 at.streams) streams

count_in-Within :
    (x : String) (streams : List (String × ℕ)) (at : Coordinates)
    → Within streams at
    → count_in x streams ≤ count_in x at.streams
count_in-Within x [] at h = omega arith
count_in-Within x ((y, n) ∷ rest) at h =
    ground (arith, str_eq_iff y x, h.0, count_in-Within x rest at h.1)

put-Within :
    (x : String) (n : ℕ) (streams : List (String × ℕ)) (at : Coordinates)
    → n ≤ count_in x at.streams
    → Within streams at
    → Within (put x n streams) at
unfolding put
put-Within x n [] at le h = (le, tt)
put-Within x n ((y, m) ∷ rest) at le h = elim (Bool-cases (str_eq y x)) [
  | inl same ↦ rw same (le, h.1)
  | inr other ↦ rw other (h.0, put-Within x n rest at le h.1)
]

merge-Within :
    (sub streams : List (String × ℕ)) (at : Coordinates)
    → Within sub at
    → Within streams at
    → Within (merge sub streams) at
unfolding merge
merge-Within [] streams at s h = h
merge-Within ((x, n) ∷ rest) streams at s h =
    merge-Within rest (put x (max (count_in x streams) n) streams) at s.1 (
      put-Within x (max (count_in x streams) n) streams at
        (omega (arith, s.0, count_in-Within x streams at h)) h)

count_in-put :
    (x y : String) (n : ℕ) (streams : List (String × ℕ))
    → count_in y (put x n streams) ≡ (if str_eq x y then n else count_in y streams)
unfolding put
count_in-put x y n [] = refl
count_in-put x y n ((z, m) ∷ rest) =
    ground (arith, str_eq_iff x y, str_eq_iff z x, str_eq_iff z y, count_in-put x y n rest)

-- Merging loses no count of either side.
pub merge-grows :
    (x : String) (sub streams : List (String × ℕ))
    → count_in x streams ≤ count_in x (merge sub streams)
unfolding merge
merge-grows x [] streams = omega arith
merge-grows x ((y, n) ∷ rest) streams = ground (
  arith,
  str_eq_iff y x,
  count_in-put y x (max (count_in y streams) n) streams,
  merge-grows x rest (put y (max (count_in y streams) n) streams),
)

pub merge-holds :
    (x : String) (sub streams : List (String × ℕ)) → count_in x sub ≤ count_in x (merge sub streams)
unfolding merge
merge-holds x [] streams = omega arith
merge-holds x ((y, n) ∷ rest) streams = ground (
  arith,
  str_eq_iff y x,
  count_in-put y x (max (count_in y streams) n) streams,
  merge-grows x rest (put y (max (count_in y streams) n) streams),
  merge-holds x rest (put y (max (count_in y streams) n) streams),
)

module _ {F : Type 0} ⦃num : Number F⦄ where
  -- A corner lies below a point.
  pub record Below (c : Corner F) (at : Coordinates) (time : F) : Type 0 where
    pub streams : Within c.at.streams at
    pub commits_le : c.at.commits ≤ at.commits
    pub time_le : num.le c.time time ≡ true

  join-Below :
      (c sub : Corner F) (at : Coordinates) (time : F)
      → Below c at time
      → Below sub at time
      → Below (join c sub) at time
  unfolding join
  join-Below c sub at time h s = record {
    streams = merge-Within sub.at.streams c.at.streams at s.streams h.streams;
    commits_le = omega (arith, h.commits_le, s.commits_le);
    time_le = ground (arith, h.time_le, s.time_le);
  }

  least-Below :
      (x : Counted) (n : ℕ) (at : Coordinates) (time : F)
      → n ≤ of at x
      → num.le zero_time time ≡ true
      → Below (record { at = least_count x n; time = zero_time }) at time
  least-Below (stream x) n at time le z = record {
    streams = (le, tt);
    commits_le = omega arith;
    time_le = z;
  }
  least-Below commits n at time le z = record { streams = tt; commits_le = le; time_le = z }

  mutual
    unfolding corner satisfied

    corner-least :
        (t : Term F) (c : Corner F) (at : Coordinates) (time : F) (count : ℕ)
        → corner t ≡ some c
        → num.le zero_time time ≡ true
        → holds t (reached at time count) ≡ true
        → Below c at time
    corner-least (leaf (progress x)) c at time count e z h =
        subst (λ k. Below k at time) (some-eq e)
          (least-Below x.x x.n at time (leb→le x.n (of at x.x) h) z)
    corner-least (leaf (elapsed s)) c at time count e z h =
        subst (λ k. Below k at time) (some-eq e)
          (record { streams = tt; commits_le = omega arith; time_le = h })
    corner-least (leaf (fired n)) c at time count e z h = absurd (ground arith)
    corner-least (any_of ts) c at time count e z h = absurd (ground arith)
    corner-least (all_of ts) c at time count e z h =
        corner_all-least ts root c at time count e z h
          (record { streams = tt; commits_le = omega arith; time_le = z })

    corner_all-least :
        (ts : Terms F) (acc c : Corner F) (at : Coordinates) (time : F) (count : ℕ)
        → corner_all ts acc ≡ some c
        → num.le zero_time time ≡ true
        → holds_all ts (reached at time count) ≡ true
        → Below acc at time
        → Below c at time
    corner_all-least (last t) acc c at time count e z h b = elim (Option-cases (corner t)) [
      | inl q ↦ absurd (ground (arith, q))
      | inr (sub, q) ↦
          let same : join acc sub ≡ c = ground (arith, q) in
          subst (λ k. Below k at time) same
            (join-Below acc sub at time b (corner-least t sub at time count q z h))
    ]
    corner_all-least (more t ts) acc c at time count e z h b = elim (Option-cases (corner t)) [
      | inl q ↦ absurd (ground (arith, q))
      | inr (sub, q) ↦
          corner_all-least ts (join acc sub) c at time count (ground (arith, q)) z
            (and_right (holds t (reached at time count)) _ h)
            (join-Below acc sub at time b (
              corner-least t sub at time count q z
                (and_left (holds t (reached at time count)) _ h)))
    ]

  -- Where a term holds at no negative time, its corner lies below: the corner is least.
  pub corner-Below :
      (t : Term F) (c : Corner F) (at : Coordinates) (time : F) (count : ℕ)
      → corner t ≡ some c
      → num.le zero_time time ≡ true
      → satisfied t at time count ≡ true
      → Below c at time
  unfolding satisfied
  corner-Below t c at time count e z h = corner-least t c at time count e z h

  pub Below-of :
      (c : Corner F) (at : Coordinates) (time : F)
      → Below c at time
      → (x : Counted) → of c.at x ≤ of at x
  Below-of c at time b (stream x) = count_in-Within x c.at.streams at b.streams
  Below-of c at time b commits = b.commits_le
