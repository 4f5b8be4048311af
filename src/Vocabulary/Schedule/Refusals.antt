-- ===== src/Vocabulary/Schedule/Refusals.antt =====
-- `unsatisfiable` and `_corner` of runstate/vocabulary/schedule.py.
pub mod Least
pub mod Attained
pub mod Window
use runstate.Prelude.{
  ℕ, max, String, Bool, false, Option, none, some, List, [], ◌∷◌, str_eq, if◌then◌else◌, str_mem,
}
use runstate.Prelude.Int.{pos}
use runstate.Json.{Number}
use runstate.Vocabulary.Coordinate.{Target, Counted, stream, commits}
use runstate.Vocabulary.Schedule.{
  Atom, progress, elapsed, fired, Term, leaf, any_of, all_of, Terms, last, more, Schedule,
  Coordinates, count_in, schedule_atoms, satisfied,
}

-- The least coordinates at which a conjunctive term holds.
pub record Corner (F : Type 0) : Type 0 where
  pub at : Coordinates
  pub time : F

-- `streams[x] = n`.
unfoldable pub put : String → ℕ → List (String × ℕ) → List (String × ℕ)
put x n [] = (x, n) ∷ []
put x n ((y, m) ∷ rest) = if str_eq y x then (x, n) ∷ rest else (y, m) ∷ put x n rest

-- `for x, n in sub.at.streams.items(): streams[x] = max(streams.get(x, 0), n)`.
unfoldable pub merge : List (String × ℕ) → List (String × ℕ) → List (String × ℕ)
unfolding put
merge [] streams = streams
merge ((x, n) ∷ rest) streams = merge rest (put x (max (count_in x streams) n) streams)

abbrev pub least_count : Counted → ℕ → Coordinates
least_count (stream x) n = record { streams = (x, n) ∷ []; commits = 0 }
least_count commits n = record { streams = []; commits = n }

-- Why a claim refuses a schedule. The names are those that the message lists, before sorting.
pub data Refusal : Type 0 where
  names_source : List String → Refusal
  empty_window : Refusal

-- The streams among the atoms that are declared sources.
unfoldable pub named_sources : {F : Type 0} → List String → List (Atom F) → List String
named_sources sources [] = []
named_sources sources (a ∷ rest) = elim a [
  | progress t ↦ elim t.x [
    | stream x ↦
        if str_mem x sources then x ∷ named_sources sources rest else named_sources sources rest
    | commits ↦ named_sources sources rest
  ]
  | elapsed s ↦ named_sources sources rest
  | fired n ↦ named_sources sources rest
]

module _ {F : Type 0} ⦃num : Number F⦄ where
  abbrev pub zero_time : F
  zero_time = num.of_int (pos 0)

  -- `_ROOT`.
  abbrev pub root : Corner F
  root = record { at = record { streams = []; commits = 0 }; time = zero_time }

  -- Python's `max` of two times: the second where it is greater.
  abbrev pub later : F → F → F
  later s t = if num.lt s t then t else s

  -- One round of the loop in the case `AllOf`.
  unfoldable pub join : Corner F → Corner F → Corner F
  unfolding merge
  join c sub = record {
    at = record {
      streams = merge sub.at.streams c.at.streams;
      commits = max c.at.commits sub.at.commits;
    };
    time = later c.time sub.time;
  }

  -- `_corner`. A `Fired` atom is an `AssertionError` there; a schedule has none in its `from`
  -- (`admits_slots`), and here it has no corner.
  unfoldable mutual
    unfolding join

    pub corner : Term F → Option (Corner F)
    corner (leaf (progress t)) = some (record { at = least_count t.x t.n; time = zero_time })
    corner (leaf (elapsed s)) = some (record { at = root.at; time = s })
    corner (leaf (fired n)) = none
    corner (any_of ts) = none
    corner (all_of ts) = corner_all ts root

    pub corner_all : Terms F → Corner F → Option (Corner F)
    corner_all (last t) c = elim (corner t) [ none ↦ none | some sub ↦ some (join c sub) ]
    corner_all (more t ts) c = elim (corner t) [
      | none ↦ none
      | some sub ↦ corner_all ts (join c sub)
    ]

  abbrev pub corner_of : Option (Term F) → Option (Corner F)
  corner_of none = some root
  corner_of (some t) = corner t

  abbrev pub closed_at : Option (Term F) → Option (Corner F) → Bool
  closed_at none c = false
  closed_at (some u) none = false
  closed_at (some u) (some c) = satisfied u c.at c.time 0

  unfoldable pub unsatisfiable : Schedule F → List String → Option Refusal
  unfolding named_sources schedule_atoms corner satisfied
  unsatisfiable s sources = elim (named_sources sources (schedule_atoms s)) [
    | x ∷ xs ↦ some (names_source (x ∷ xs))
    | [] ↦ if closed_at s.until (corner_of s.from_) then some empty_window else none
  ]
