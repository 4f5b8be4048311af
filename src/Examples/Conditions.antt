-- ===== src/Examples/Conditions.antt =====
-- The theorems on targets, terms, schedules and subscriptions, at small conditions.
use runstate.Prelude.{ℕ, ◌≤◌, ◌≡◌, refl, true, false, none, some, [], ◌∷◌, arith, any, ok}
use runstate.Prelude.Int.{ℤ, ◌-ℤ◌, leb_ℤ, pos}
use runstate.Json.{Json, Fields, obj, field, end, int, float}
use runstate.Vocabulary.Coordinate.{Target, Counted, stream, commits, from_atom}
use runstate.Vocabulary.Schedule.{
  progress, elapsed, fired, Term, leaf, any_of, all_of, last, more, Schedule, Coordinates, of,
  satisfied, is_lease, atoms,
}
use runstate.Vocabulary.Schedule.Monotone.{satisfied_mono}
use runstate.Vocabulary.Schedule.Subscription.{Subscription, evaluate}
use runstate.Vocabulary.Schedule.Subscription.Durable.{evaluate-durable}
use runstate.Vocabulary.Schedule.Subscription.Firing.{evaluate-expired}
use runstate.Vocabulary.Schedule.Refusals.{Corner, corner, unsatisfiable, empty_window}
use runstate.Vocabulary.Schedule.Refusals.Attained.{is_negative}
use runstate.Vocabulary.Schedule.Refusals.Window.{unsatisfiable-never_fires, unsatisfiable-open}
use runstate.Vocabulary.Schedule.Parse.{key, parse_term, parse_schedule}
use runstate.Vocabulary.Schedule.Parse.Wire.{wire, IsTerm, parse_term-wire}
use runstate.Vocabulary.Schedule.Parse.Refused.{IsSchedule, parse_schedule-IsSchedule}
use runstate.Examples.{int_number}

abbrev steps : ℕ → Target
steps n = record { x = stream "step"; n = n }

abbrev clock : ℕ → Target
clock n = record { x = commits; n = n }

abbrev by_step : ℕ → Term ℤ
by_step n = leaf (progress (steps n))

abbrev by_commit : ℕ → Term ℤ
by_commit n = leaf (progress (clock n))

-- From step 3 on, every 2 steps, until commit 10 or the fourth firing.
abbrev sampling : Schedule ℤ
sampling = record {
  from_ = some (by_step 3);
  every = some (by_step 2);
  until = some (any_of (more (by_commit 10) (last (leaf (fired 4)))));
}

abbrev durable : Schedule ℤ
durable = record { from_ = some (by_step 3); every = some (by_step 2); until = some (by_commit 10) }

abbrev sub : Schedule ℤ → Subscription ℤ
sub s = record {
  schedule = s;
  registered_at = pos 0;
  target = some "loss";
  fires = 0;
  fired_at = none;
}

abbrev early : Coordinates
early = record { streams = ("step", 5) ∷ []; commits = 1 }

abbrev late : Coordinates
late = record { streams = ("step", 20) ∷ []; commits = 12 }

early-late : (x : Counted) → of early x ≤ of late x
early-late (stream x) = ground arith
early-late commits = omega arith

abbrev clock_body : Fields ℤ
clock_body = field "commits" (int (pos 4)) end

clock_reads : from_atom clock_body ≡ some (clock 4)
unfolding from_atom
clock_reads = refl

early-satisfied : satisfied (by_step 3) early (pos 5) 0 ≡ true
unfolding satisfied
early-satisfied = refl

satisfied_mono_example : satisfied (by_step 3) late (pos 9) 1 ≡ true
satisfied_mono_example =
    satisfied_mono (by_step 3) early late (pos 5) (pos 9) 0 1 early-late refl (omega arith)
      early-satisfied

durable-IsDurable : is_lease durable ≡ false
unfolding is_lease
durable-IsDurable = refl

evaluate-durable_example :
    (evaluate (sub durable) early none (pos 5) ("loss" ∷ [])).0
    ≡ (evaluate
        (record (sub durable) { registered_at = pos 3; fires = 2; fired_at = some (pos 4) })
        early
        none
        (pos 50)
        ("loss" ∷ [])).0
evaluate-durable_example =
    evaluate-durable (sub durable) (pos 3) 2 (some (pos 4)) early none (pos 5) (pos 50)
      ("loss" ∷ []) durable-IsDurable

later_time : leb_ℤ (pos 9 -ℤ pos 0) (pos 30 -ℤ pos 0) ≡ true
unfolding ◌-ℤ◌
later_time = refl

after_zero : leb_ℤ (pos 0) (pos 9 -ℤ pos 0) ≡ true
unfolding ◌-ℤ◌
after_zero = refl

late_expired : (evaluate (sub sampling) late none (pos 9) []).0.expired ≡ true
unfolding evaluate
late_expired = refl

evaluate-expired_example :
    (evaluate
      (evaluate (sub sampling) late none (pos 9) []).1
      late
      (some early)
      (pos 30)
      ("loss" ∷ [])).0
    ≡ record { fire = false; expired = true }
evaluate-expired_example =
    evaluate-expired (sub sampling) late late none (some early) (pos 9) (pos 30) [] ("loss" ∷ [])
      refl late_expired (λ x. omega arith) later_time

-- From commit 5 until commit 3: an empty window.
abbrev empty : Schedule ℤ
empty = record { from_ = some (by_commit 5); every = none; until = some (by_commit 3) }

empty_refused : unsatisfiable empty [] ≡ some empty_window
unfolding unsatisfiable
empty_refused = refl

unsatisfiable-never_fires_example :
    (evaluate (sub empty) late none (pos 9) ("loss" ∷ [])).0.fire ≡ false
unsatisfiable-never_fires_example =
    unsatisfiable-never_fires (sub empty) [] late none (pos 9) ("loss" ∷ []) empty_refused
      after_zero

abbrev step_and_time : Term ℤ
step_and_time = all_of (more (by_step 3) (last (leaf (elapsed (pos 2)))))

abbrev step_corner : Corner ℤ
step_corner = record { at = record { streams = ("step", 3) ∷ []; commits = 0 }; time = pos 2 }

step_corner_lem : corner step_and_time ≡ some step_corner
unfolding corner
step_corner_lem = refl

step_not_negative : any is_negative (atoms step_and_time) ≡ false
unfolding atoms
step_not_negative = refl

late-satisfied : satisfied step_and_time late (pos 9) 0 ≡ true
unfolding satisfied
late-satisfied = refl

abbrev opening : Schedule ℤ
opening = record { from_ = some step_and_time; every = none; until = some (by_step 8) }

opening_admitted : unsatisfiable opening ("loss" ∷ []) ≡ none
unfolding unsatisfiable
opening_admitted = refl

unsatisfiable-open_example :
    (satisfied step_and_time step_corner.at (pos 2) 0 ≡ true)
    × (satisfied (by_step 8) step_corner.at (pos 2) 0 ≡ false)
unsatisfiable-open_example =
    unsatisfiable-open opening ("loss" ∷ []) step_and_time (by_step 8) step_corner refl refl
      step_corner_lem step_not_negative opening_admitted

abbrev nested : Term ℤ
nested =
    any_of
      (more (by_commit 10) (last (all_of (more (leaf (fired 4)) (last (leaf (elapsed (pos 60))))))))

nested-IsTerm : IsTerm none nested
nested-IsTerm = (record { named = refl; bounded = omega arith }, (refl, refl))

parse_term-wire_example : parse_term (key "until" ∷ []) none (wire nested) ≡ ok nested
parse_term-wire_example = parse_term-wire (key "until" ∷ []) none nested nested-IsTerm

abbrev demand_json : Json ℤ
demand_json = obj (field "until" (obj (field "time_seconds" (float (pos 30)) end)) end)

abbrev demand : Schedule ℤ
demand = record { from_ = none; every = none; until = some (leaf (elapsed (pos 30))) }

demand_reads : parse_schedule demand_json true ≡ ok demand
unfolding parse_schedule
demand_reads = refl

parse_schedule-IsSchedule_example : IsSchedule true demand
parse_schedule-IsSchedule_example = parse_schedule-IsSchedule demand_json true demand demand_reads
