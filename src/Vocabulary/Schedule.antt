-- ===== src/Vocabulary/Schedule.antt =====
-- The term of runstate/vocabulary/schedule.py and its evaluation.
pub mod Monotone
pub mod Subscription
pub mod Refusals
pub mod Parse
use runstate.Prelude.{
  ℕ, String, Bool, true, false, not, ◌&&◌, ◌||◌, Option, none, some, List, [], ◌∷◌, ◌++◌, str_eq,
  leb, if◌then◌else◌, any,
}
use runstate.Json.{Number}
use runstate.Vocabulary.Coordinate.{Target, Counted, stream, commits}

pub data Atom (F : Type 0) : Type 0 where
  progress : Target → Atom F
  elapsed : F → Atom F
  fired : ℕ → Atom F

-- `AnyOf` and `AllOf` take at least one term, and so does the type `Terms`.
mutual
  pub data Term (F : Type 0) : Type 0 where
    leaf : Atom F → Term F
    any_of : Terms F → Term F
    all_of : Terms F → Term F

  pub data Terms (F : Type 0) : Type 0 where
    last : Term F → Terms F
    more : Term F → Terms F → Terms F

-- The counts at one node. A stream that is absent counts 0.
pub record Coordinates : Type 0 where
  pub streams : List (String × ℕ)
  pub commits : ℕ

abbrev pub count_in : String → List (String × ℕ) → ℕ
count_in x [] = 0
count_in x ((y, n) ∷ rest) = if str_eq y x then n else count_in x rest

-- `Coordinates.of`.
abbrev pub of : Coordinates → Counted → ℕ
of at (stream x) = count_in x at.streams
of at commits = at.commits

module _ {F : Type 0} where
  -- `_atoms`.
  unfoldable mutual
    pub atoms : Term F → List (Atom F)
    atoms (leaf a) = a ∷ []
    atoms (any_of ts) = atoms_of ts
    atoms (all_of ts) = atoms_of ts

    pub atoms_of : Terms F → List (Atom F)
    atoms_of (last t) = atoms t
    atoms_of (more t ts) = atoms t ++ atoms_of ts

  -- `_holds`: the judgement of one leaf, combined.
  unfoldable mutual
    pub holds : Term F → (Atom F → Bool) → Bool
    holds (leaf a) judge = judge a
    holds (any_of ts) judge = holds_any ts judge
    holds (all_of ts) judge = holds_all ts judge

    pub holds_any : Terms F → (Atom F → Bool) → Bool
    holds_any (last t) judge = holds t judge
    holds_any (more t ts) judge = holds t judge || holds_any ts judge

    pub holds_all : Terms F → (Atom F → Bool) → Bool
    holds_all (last t) judge = holds t judge
    holds_all (more t ts) judge = holds t judge && holds_all ts judge

  abbrev pub is_fired : Atom F → Bool
  is_fired (fired n) = true
  is_fired _ = false

  abbrev pub is_elapsed : Atom F → Bool
  is_elapsed (elapsed s) = true
  is_elapsed _ = false

  -- `isinstance(a, (Elapsed, Fired))`.
  abbrev pub is_relative : Atom F → Bool
  is_relative (progress t) = false
  is_relative _ = true

  abbrev pub slot_atoms : Option (Term F) → List (Atom F)
  slot_atoms none = []
  slot_atoms (some t) = atoms t

pub record Schedule (F : Type 0) : Type 0 where
  pub from_ : Option (Term F)
  pub every : Option (Term F)
  pub until : Option (Term F)

module _ {F : Type 0} where
  -- `Schedule.__post_init__`: no `Fired` atom in `from` or `every`.
  unfoldable pub admits_slots : Schedule F → Bool
  unfolding atoms
  admits_slots s =
      not (any is_fired (slot_atoms s.from_)) && not (any is_fired (slot_atoms s.every))

  unfoldable pub schedule_atoms : Schedule F → List (Atom F)
  unfolding atoms
  schedule_atoms s = slot_atoms s.from_ ++ (slot_atoms s.every ++ slot_atoms s.until)

  unfoldable pub is_lease : Schedule F → Bool
  unfolding schedule_atoms
  is_lease s = any is_relative (schedule_atoms s)

  unfoldable pub needs_epoch : Schedule F → Bool
  unfolding atoms
  needs_epoch s = any is_elapsed (slot_atoms s.from_) || any is_elapsed (slot_atoms s.until)

module _ {F : Type 0} ⦃num : Number F⦄ where
  -- The function `atom` local to `satisfied`.
  unfoldable pub reached : Coordinates → F → ℕ → Atom F → Bool
  reached at time_seconds count (progress t) = leb t.n (of at t.x)
  reached at time_seconds count (elapsed s) = num.le s time_seconds
  reached at time_seconds count (fired n) = leb n count

  unfoldable pub satisfied : Term F → Coordinates → F → ℕ → Bool
  unfolding holds reached
  satisfied t at time_seconds count = holds t (reached at time_seconds count)
