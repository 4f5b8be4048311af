-- ===== src/Vocabulary/Schedule/Refusals/Window.antt =====
-- `unsatisfiable` of runstate/vocabulary/schedule.py and the evaluation of a schedule.
use runstate.Prelude.{
  ℕ, String, ◌≡◌, subst, inl, inr, true, false, Option, none, some, List, arith, Bool-cases,
  Option-cases, some-eq, any,
}
use runstate.Json.{Number}
use runstate.Vocabulary.Schedule.{Term, Schedule, Coordinates, atoms, satisfied}
use runstate.Vocabulary.Schedule.Monotone.{satisfied_mono}
use runstate.Vocabulary.Schedule.Subscription.{Subscription, evaluate, until_holds, from_holds}
use runstate.Vocabulary.Schedule.Refusals.{
  Corner, empty_window, zero_time, corner, corner_of, closed_at, unsatisfiable,
}
use runstate.Vocabulary.Schedule.Refusals.Least.{Below, Below-of, corner-Below}
use runstate.Vocabulary.Schedule.Refusals.Attained.{is_negative, corner-holds}

module _ {F : Type 0} ⦃num : Number F⦄ where
  closed_by_refusal :
      (s : Schedule F) (sources : List String)
      → unsatisfiable s sources ≡ some empty_window
      → closed_at s.until (corner_of s.from_) ≡ true
  unfolding unsatisfiable
  closed_by_refusal s sources h = ground arith

  corner_of-Below :
      (o : Option (Term F)) (c : Corner F) (at : Coordinates) (time : F) (count : ℕ)
      → corner_of o ≡ some c
      → num.le zero_time time ≡ true
      → from_holds o at time count ≡ true
      → Below c at time
  corner_of-Below none c at time count e z h =
      subst (λ k. Below k at time) (some-eq e)
        (record { streams = tt; commits_le = omega arith; time_le = z })
  corner_of-Below (some t) c at time count e z h = corner-Below t c at time count e z h

  closed_wherever_open :
      (o u : Option (Term F)) (at : Coordinates) (time : F) (count : ℕ)
      → closed_at u (corner_of o) ≡ true
      → num.le zero_time time ≡ true
      → from_holds o at time count ≡ true
      → until_holds u at time count ≡ true
  closed_wherever_open o none at time count h z open_ = absurd (ground arith)
  closed_wherever_open o (some u) at time count h z open_ = elim (Option-cases (corner_of o)) [
    | inl e ↦ absurd (ground (arith, e))
    | inr (c, e) ↦
        let b = corner_of-Below o c at time count e z open_ in
        satisfied_mono u c.at at c.time time 0 count (Below-of c at time b) b.time_le (omega arith)
          (ground (arith, e))
  ]

  -- A schedule refused for an empty window never fires: at no node, with any baseline, on any
  -- target, at any time that is not before its registration.
  pub unsatisfiable-never_fires :
      (sub : Subscription F) (sources : List String) (at : Coordinates)
      (baseline : Option Coordinates) (now : F) (valued : List String)
      → unsatisfiable sub.schedule sources ≡ some empty_window
      → num.le zero_time (num.sub now sub.registered_at) ≡ true
      → (evaluate sub at baseline now valued).0.fire ≡ false
  unfolding evaluate
  unsatisfiable-never_fires sub sources at baseline now valued h z =
      let s = sub.schedule in
      let time = num.sub now sub.registered_at in
      let closed = closed_by_refusal s sources h in
      elim (Bool-cases (from_holds s.from_ at time sub.fires)) [
        | inl open_ ↦
            ground (arith, closed_wherever_open s.from_ s.until at time sub.fires closed z open_)
        | inr shut ↦ ground (arith, shut)
      ]

  -- A schedule that is not refused, whose `from` has a corner: at that corner its `from` holds and
  -- its `until` does not, so the window is not empty.
  pub unsatisfiable-open :
      (s : Schedule F) (sources : List String) (from_ until : Term F) (c : Corner F)
      → s.from_ ≡ some from_
      → s.until ≡ some until
      → corner from_ ≡ some c
      → any is_negative (atoms from_) ≡ false
      → unsatisfiable s sources ≡ none
      → (satisfied from_ c.at c.time 0 ≡ true) × (satisfied until c.at c.time 0 ≡ false)
  unfolding unsatisfiable
  unsatisfiable-open s sources from_ until c f u e n h =
      (corner-holds from_ c e n, ground (arith, f, u, e))
