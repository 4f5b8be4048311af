-- ===== src/Vocabulary/Schedule/Subscription.antt =====
-- The class `Subscription` of runstate/vocabulary/schedule.py.
pub mod Durable
pub mod Firing
use runstate.Prelude.{
  ℕ, ◌+◌, String, Bool, true, false, not, ◌||◌, Option, none, some, List, leb, if◌then◌else◌,
  str_mem,
}
use runstate.Json.{Number}
use runstate.Vocabulary.Coordinate.{Target}
use runstate.Vocabulary.Schedule.{
  Atom, progress, elapsed, fired, Term, holds, Schedule, Coordinates, of, satisfied, is_lease,
}

pub record Decision : Type 0 where
  pub fire : Bool
  pub expired : Bool

-- `target` is the source that it samples, `none` for a pure demand. `fires` and `fired_at` are the
-- claim's. The property `lease` is `is_lease schedule`.
pub record Subscription (F : Type 0) : Type 0 where
  pub schedule : Schedule F
  pub registered_at : F
  pub target : Option String
  pub fires : ℕ
  pub fired_at : Option F

-- `baseline is None or at.of(x) - baseline.of(x) >= n`. The difference is one of integers, so it is
-- compared as a sum.
abbrev pub delta_holds : Target → Coordinates → Option Coordinates → Bool
delta_holds t at none = true
delta_holds t at (some base) = leb (of base t.x + t.n) (of at t.x)

-- `self._target is not None and self._target in valued`.
abbrev pub can_sample : Option String → List String → Bool
can_sample none valued = false
can_sample (some x) valued = str_mem x valued

module _ {F : Type 0} ⦃num : Number F⦄ where
  unfoldable pub register : Schedule F → F → Option String → Subscription F
  register schedule registered_at target = record {
    schedule = schedule;
    registered_at = registered_at;
    target = target;
    fires = 0;
    fired_at = none;
  }

  abbrev pub time_holds : F → F → Option F → Bool
  time_holds s now none = true
  time_holds s now (some t) = num.le s (num.sub now t)

  -- The function `atom` local to `_due`. A `Fired` atom is an `AssertionError` there, and no case
  -- here: a schedule's constructor refuses one in `every` (`admits_slots`).
  unfoldable pub due_atom : Coordinates → Option Coordinates → F → Option F → Atom F → Bool
  due_atom at baseline now fired_at (progress t) = delta_holds t at baseline
  due_atom at baseline now fired_at (elapsed s) = time_holds s now fired_at
  due_atom at baseline now fired_at (fired n) = false

  unfoldable pub due : Term F → Coordinates → Option Coordinates → F → Option F → Bool
  unfolding holds due_atom
  due every at baseline now fired_at = holds every (due_atom at baseline now fired_at)

  -- An absent `until` never holds, and an absent `from` or `every` does not stop a firing.
  abbrev pub until_holds : Option (Term F) → Coordinates → F → ℕ → Bool
  until_holds none at time count = false
  until_holds (some t) at time count = satisfied t at time count

  abbrev pub from_holds : Option (Term F) → Coordinates → F → ℕ → Bool
  from_holds none at time count = true
  from_holds (some t) at time count = satisfied t at time count

  abbrev pub every_holds : Option (Term F) → Coordinates → Option Coordinates → F → Option F → Bool
  every_holds none at baseline now fired_at = true
  every_holds (some t) at baseline now fired_at = due t at baseline now fired_at

  abbrev pub is_absent : Option (Term F) → Bool
  is_absent none = true
  is_absent (some t) = false

  unfoldable pub evaluate :
      Subscription F
      → Coordinates
      → Option Coordinates
      → F
      → List String
      → Decision × Subscription F
  unfolding satisfied due
  evaluate sub at baseline now valued =
      let s = sub.schedule in
      let time = num.sub now sub.registered_at in
      if until_holds s.until at time sub.fires
      then (record { fire = false; expired = true }, sub)
      else if not (can_sample sub.target valued)
      then (record { fire = false; expired = false }, sub)
      else if not (from_holds s.from_ at time sub.fires)
      then (record { fire = false; expired = false }, sub)
      else if not (every_holds s.every at baseline now sub.fired_at)
      then (record { fire = false; expired = false }, sub)
      else (
        record {
          fire = true;
          expired = is_absent s.every || until_holds s.until at time (sub.fires + 1);
        },
        record sub { fires = sub.fires + 1; fired_at = some now },
      )
