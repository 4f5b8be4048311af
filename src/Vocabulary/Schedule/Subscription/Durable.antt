-- ===== src/Vocabulary/Schedule/Subscription/Durable.antt =====
-- `Subscription.evaluate` of runstate/vocabulary/schedule.py on a schedule that is not a lease.
use runstate.Prelude.{
  ℕ, ◌+◌, String, ◌≡◌, refl, sym, ◌∙◌, Bool, false, ◌||◌, Option, none, some, List, [], ◌∷◌, ◌++◌,
  arith, any,
}
use runstate.Json.{Number}
use runstate.Vocabulary.Schedule.{
  Atom, progress, elapsed, fired, Term, leaf, any_of, all_of, Terms, last, more, atoms, atoms_of,
  holds, holds_any, holds_all, Schedule, Coordinates, slot_atoms, is_relative, is_lease, reached,
  satisfied,
}
use runstate.Vocabulary.Schedule.Subscription.{
  Subscription, due_atom, due, until_holds, from_holds, every_holds, evaluate,
}

module _ {ℓ} {A : Type ℓ} (r : A → Bool) where
  pub any-append : (xs ys : List A) → any r (xs ++ ys) ≡ (any r xs || any r ys)
  any-append [] ys = refl
  any-append (x ∷ xs) ys = ground (arith, any-append xs ys)

pub or_false_left : (a b : Bool) → (a || b) ≡ false → a ≡ false
or_false_left a b h = ground arith

pub or_false_right : (a b : Bool) → (a || b) ≡ false → b ≡ false
or_false_right a b h = ground arith

module _ {F : Type 0} (r : Atom F → Bool) (p q : Atom F → Bool)
    (agree : (a : Atom F) → r a ≡ false → p a ≡ q a) where
  mutual
    unfolding holds atoms

    holds_agree : (t : Term F) → any r (atoms t) ≡ false → holds t p ≡ holds t q
    holds_agree (leaf a) h = agree a (or_false_left (r a) false h)
    holds_agree (any_of ts) h = any_agree ts h
    holds_agree (all_of ts) h = all_agree ts h

    any_agree : (ts : Terms F) → any r (atoms_of ts) ≡ false → holds_any ts p ≡ holds_any ts q
    any_agree (last t) h = holds_agree t h
    any_agree (more t ts) h =
        let split : (any r (atoms t) || any r (atoms_of ts)) ≡ false =
          sym (any-append r (atoms t) (atoms_of ts)) ∙ h in
        rw
          (
            holds_agree t (or_false_left _ _ split),
            any_agree ts (or_false_right (any r (atoms t)) _ split),
          )
          refl

    all_agree : (ts : Terms F) → any r (atoms_of ts) ≡ false → holds_all ts p ≡ holds_all ts q
    all_agree (last t) h = holds_agree t h
    all_agree (more t ts) h =
        let split : (any r (atoms t) || any r (atoms_of ts)) ≡ false =
          sym (any-append r (atoms t) (atoms_of ts)) ∙ h in
        rw
          (
            holds_agree t (or_false_left _ _ split),
            all_agree ts (or_false_right (any r (atoms t)) _ split),
          )
          refl

module _ {F : Type 0} ⦃num : Number F⦄ where
  reached-durable :
      (at : Coordinates) (s t : F) (m n : ℕ) (a : Atom F)
      → is_relative a ≡ false
      → reached at s m a ≡ reached at t n a
  unfolding reached
  reached-durable at s t m n (progress x) h = refl
  reached-durable at s t m n (elapsed u) h = absurd (ground arith)
  reached-durable at s t m n (fired k) h = absurd (ground arith)

  due-durable :
      (at : Coordinates) (baseline : Option Coordinates) (now now' : F) (f f' : Option F)
      (a : Atom F)
      → is_relative a ≡ false
      → due_atom at baseline now f a ≡ due_atom at baseline now' f' a
  unfolding due_atom
  due-durable at baseline now now' f f' (progress x) h = refl
  due-durable at baseline now now' f f' (elapsed u) h = absurd (ground arith)
  due-durable at baseline now now' f f' (fired k) h = absurd (ground arith)

  module _ (at : Coordinates) where
    until-durable :
        (o : Option (Term F)) (s t : F) (m n : ℕ)
        → any is_relative (slot_atoms o) ≡ false
        → until_holds o at s m ≡ until_holds o at t n
    unfolding satisfied
    until-durable none s t m n h = refl
    until-durable (some u) s t m n h =
        holds_agree is_relative (reached at s m) (reached at t n) (reached-durable at s t m n) u h

    from-durable :
        (o : Option (Term F)) (s t : F) (m n : ℕ)
        → any is_relative (slot_atoms o) ≡ false
        → from_holds o at s m ≡ from_holds o at t n
    unfolding satisfied
    from-durable none s t m n h = refl
    from-durable (some u) s t m n h =
        holds_agree is_relative (reached at s m) (reached at t n) (reached-durable at s t m n) u h

    every-durable :
        (o : Option (Term F)) (baseline : Option Coordinates) (now now' : F) (f f' : Option F)
        → any is_relative (slot_atoms o) ≡ false
        → every_holds o at baseline now f ≡ every_holds o at baseline now' f'
    unfolding due
    every-durable none baseline now now' f f' h = refl
    every-durable (some u) baseline now now' f f' h =
        holds_agree is_relative (due_atom at baseline now f) (due_atom at baseline now' f')
          (due-durable at baseline now now' f f') u h

  -- The three slots of a durable schedule have no relative atom.
  record AllDurable (s : Schedule F) : Type 0 where
    from_ : any is_relative (slot_atoms s.from_) ≡ false
    every : any is_relative (slot_atoms s.every) ≡ false
    until : any is_relative (slot_atoms s.until) ≡ false

  is_lease-AllDurable : (s : Schedule F) → is_lease s ≡ false → AllDurable s
  unfolding is_lease
  is_lease-AllDurable s h =
      let f = slot_atoms s.from_ in
      let e = slot_atoms s.every in
      let u = slot_atoms s.until in
      let whole = sym (any-append is_relative f (e ++ u)) ∙ h in
      let rest = sym (any-append is_relative e u) ∙ or_false_right (any is_relative f) _ whole in
      record {
        from_ = or_false_left _ _ whole;
        every = or_false_left _ _ rest;
        until = or_false_right (any is_relative e) _ rest;
      }

  -- A durable subscription's decision is a function of the lineage alone. Whatever the clock says,
  -- whenever it was registered, however often and whenever the claim has fired it, two registrations
  -- of one schedule on one target decide alike.
  pub evaluate-durable :
      (sub : Subscription F) (registered_at : F) (fires : ℕ) (fired_at : Option F)
      (at : Coordinates) (baseline : Option Coordinates) (now now' : F) (valued : List String)
      → is_lease sub.schedule ≡ false
      → (evaluate sub at baseline now valued).0
        ≡ (evaluate
            (record sub { registered_at = registered_at; fires = fires; fired_at = fired_at })
            at
            baseline
            now'
            valued).0
  unfolding evaluate
  evaluate-durable sub registered_at fires fired_at at baseline now now' valued h =
      let d = is_lease-AllDurable sub.schedule h in
      let s = sub.schedule in
      let time = num.sub now sub.registered_at in
      let time' = num.sub now' registered_at in
      ground (
        arith,
        until-durable at s.until time time' sub.fires fires d.until,
        until-durable at s.until time time' (sub.fires + 1) (fires + 1) d.until,
        from-durable at s.from_ time time' sub.fires fires d.from_,
        every-durable at s.every baseline now now' sub.fired_at fired_at d.every,
      )
