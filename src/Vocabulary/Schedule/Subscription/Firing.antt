-- ===== src/Vocabulary/Schedule/Subscription/Firing.antt =====
-- `Subscription.evaluate` of runstate/vocabulary/schedule.py: its guards and its state.
use runstate.Prelude.{ℕ, ◌≤◌, String, ◌≡◌, true, false, Option, none, some, List, arith}
use runstate.Json.{Number}
use runstate.Vocabulary.Coordinate.{Counted}
use runstate.Vocabulary.Schedule.{Term, Coordinates, of}
use runstate.Vocabulary.Schedule.Monotone.{satisfied_mono}
use runstate.Vocabulary.Schedule.Subscription.{
  Subscription, until_holds, from_holds, every_holds, can_sample, is_absent, evaluate,
}

module _ {F : Type 0} ⦃num : Number F⦄ where
  -- The conditions of a firing.
  pub record IsDue (sub : Subscription F) (at : Coordinates) (baseline : Option Coordinates)
      (now : F) (valued : List String) : Type 0 where
    pub open_ : until_holds sub.schedule.until at (num.sub now sub.registered_at) sub.fires ≡ false
    pub sampled : can_sample sub.target valued ≡ true
    pub opened : from_holds sub.schedule.from_ at (num.sub now sub.registered_at) sub.fires ≡ true
    pub repeated : every_holds sub.schedule.every at baseline now sub.fired_at ≡ true

  until_mono :
      (o : Option (Term F)) (a b : Coordinates) (s t : F) (m n : ℕ)
      → ((x : Counted) → of a x ≤ of b x)
      → num.le s t ≡ true
      → m ≤ n
      → until_holds o a s m ≡ true
      → until_holds o b t n ≡ true
  until_mono none a b s t m n c time count h = h
  until_mono (some u) a b s t m n c time count h = satisfied_mono u a b s t m n c time count h

  until_at_expiry :
      (sub : Subscription F) (at : Coordinates) (baseline : Option Coordinates) (now : F)
      (valued : List String)
      → is_absent sub.schedule.every ≡ false
      → (evaluate sub at baseline now valued).0.expired ≡ true
      → until_holds sub.schedule.until at
          (num.sub now sub.registered_at)
          (evaluate sub at baseline now valued).1.fires
        ≡ true
  unfolding evaluate
  until_at_expiry sub at baseline now valued e h = ground arith

  evaluate-schedule :
      (sub : Subscription F) (at : Coordinates) (baseline : Option Coordinates) (now : F)
      (valued : List String)
      → ((evaluate sub at baseline now valued).1.schedule ≡ sub.schedule)
        × ((evaluate sub at baseline now valued).1.registered_at ≡ sub.registered_at)
  unfolding evaluate
  evaluate-schedule sub at baseline now valued = (ground arith, ground arith)

  ended :
      (sub : Subscription F) (at : Coordinates) (baseline : Option Coordinates) (now : F)
      (valued : List String)
      → until_holds sub.schedule.until at (num.sub now sub.registered_at) sub.fires ≡ true
      → (evaluate sub at baseline now valued).0 ≡ record { fire = false; expired = true }
  unfolding evaluate
  ended sub at baseline now valued h = ground arith

  -- An expiry is final. Once a repeating subscription has expired at a node, no later node, where no
  -- count is smaller and no less time has passed, fires it: it is expired there too.
  pub evaluate-expired :
      (sub : Subscription F) (at at' : Coordinates) (baseline baseline' : Option Coordinates)
      (now now' : F) (valued valued' : List String)
      → is_absent sub.schedule.every ≡ false
      → (evaluate sub at baseline now valued).0.expired ≡ true
      → ((x : Counted) → of at x ≤ of at' x)
      → num.le (num.sub now sub.registered_at) (num.sub now' sub.registered_at) ≡ true
      → (evaluate (evaluate sub at baseline now valued).1 at' baseline' now' valued').0
        ≡ record { fire = false; expired = true }
  evaluate-expired sub at at' baseline baseline' now now' valued valued' repeats h c time =
      let after = (evaluate sub at baseline now valued).1 in
      let same = evaluate-schedule sub at baseline now valued in
      ended after at' baseline' now' valued' (
        rw (same.0, same.1)
          (until_mono sub.schedule.until at at' _ _ after.fires after.fires c time (omega arith)
            (until_at_expiry sub at baseline now valued repeats h)))
