-- ===== src/Vocabulary/Schedule/Refusals/Attained.antt =====
-- `_corner` of runstate/vocabulary/schedule.py: lemmas on terms at their corner.
use runstate.Prelude.{
  ℕ, ◌≤◌, ◌≡◌, refl, sym, ◌∙◌, subst, inl, inr, Bool, true, false, not, some, arith, str_eq_iff,
  leb, Bool-cases, Option-cases, some-eq, any,
}
use runstate.Json.{Number}
use runstate.Vocabulary.Coordinate.{Counted, stream, commits}
use runstate.Vocabulary.Schedule.{
  Atom, progress, elapsed, fired, Term, leaf, any_of, all_of, Terms, last, more, atoms, atoms_of,
  of, holds_all, satisfied, reached,
}
use runstate.Vocabulary.Schedule.Monotone.{satisfied_mono}
use runstate.Vocabulary.Schedule.Refusals.{
  Corner, least_count, zero_time, root, join, corner, corner_all,
}
use runstate.Vocabulary.Schedule.Refusals.Least.{merge-grows, merge-holds}
use runstate.Vocabulary.Schedule.Subscription.Durable.{any-append, or_false_left, or_false_right}

least_reaches : (x : Counted) (n : ℕ) → leb n (of (least_count x n) x) ≡ true
least_reaches (stream x) n = ground (arith, str_eq_iff x x)
least_reaches commits n = ground arith

module _ {F : Type 0} ⦃num : Number F⦄ where
  -- The times of a term's `Elapsed` atoms are not negative, as their constructor checks.
  abbrev pub is_negative : Atom F → Bool
  is_negative (elapsed s) = not (num.le zero_time s)
  is_negative _ = false

  abbrev pub IsTimely : Corner F → Type 0
  IsTimely c = num.le zero_time c.time ≡ true

  le_refl_time : (s : F) → num.le zero_time s ≡ true → num.le s s ≡ true
  le_refl_time s z = elim (Bool-cases (num.lt s s)) [
    | inl less ↦ num.le_of_lt s s less
    | inr not_less ↦ num.le_of_not_lt s s z z not_less
  ]

  -- A corner joined to another lies above both.
  record Above (c d : Corner F) : Type 0 where
    counts : (x : Counted) → of c.at x ≤ of d.at x
    time_le : num.le c.time d.time ≡ true

  joined_left : (c sub : Corner F) (x : Counted) → of c.at x ≤ of (join c sub).at x
  unfolding join
  joined_left c sub (stream x) = merge-grows x sub.at.streams c.at.streams
  joined_left c sub commits = omega arith

  joined_right : (c sub : Corner F) (x : Counted) → of sub.at x ≤ of (join c sub).at x
  unfolding join
  joined_right c sub (stream x) = merge-holds x sub.at.streams c.at.streams
  joined_right c sub commits = omega arith

  join-left : (c sub : Corner F) → IsTimely c → IsTimely sub → Above c (join c sub)
  unfolding join
  join-left c sub z w = record {
    counts = joined_left c sub;
    time_le = ground (arith, le_refl_time c.time z, num.le_of_lt c.time sub.time);
  }

  join-right : (c sub : Corner F) → IsTimely c → IsTimely sub → Above sub (join c sub)
  unfolding join
  join-right c sub z w = record {
    counts = joined_right c sub;
    time_le = ground (arith, le_refl_time sub.time w, num.le_of_not_lt c.time sub.time z w);
  }

  join-IsTimely : (c sub : Corner F) → IsTimely c → IsTimely sub → IsTimely (join c sub)
  unfolding join
  join-IsTimely c sub z w = ground (arith, z, w)

  Above-trans : (a b c : Corner F) → Above a b → Above b c → Above a c
  Above-trans a b c h k = record {
    counts = λ x. omega (arith, h.counts x, k.counts x);
    time_le = num.le_trans a.time b.time c.time h.time_le k.time_le;
  }

  Above-refl : (c : Corner F) → IsTimely c → Above c c
  Above-refl c z = record { counts = λ x. omega arith; time_le = le_refl_time c.time z }

  lift_up :
      (t : Term F) (c d : Corner F)
      → Above c d
      → satisfied t c.at c.time 0 ≡ true
      → satisfied t d.at d.time 0 ≡ true
  lift_up t c d a h =
      satisfied_mono t c.at d.at c.time d.time 0 0 a.counts a.time_le (omega arith) h

  -- What the recursion gives: the corner is timely and the term holds there.
  record Attained (t : Term F) (c : Corner F) : Type 0 where
    timely : IsTimely c
    holds_there : satisfied t c.at c.time 0 ≡ true

  record AttainedAll (ts : Terms F) (acc c : Corner F) : Type 0 where
    timely : IsTimely c
    above : Above acc c
    holds_there : holds_all ts (reached c.at c.time 0) ≡ true

  mutual
    unfolding corner satisfied atoms

    corner-Attained :
        (t : Term F) (c : Corner F)
        → corner t ≡ some c
        → any is_negative (atoms t) ≡ false
        → Attained t c
    corner-Attained (leaf (progress x)) c e n =
        subst (λ k. Attained (leaf (progress x)) k) (some-eq e)
          (record { timely = num.zero_le_zero; holds_there = least_reaches x.x x.n })
    corner-Attained (leaf (elapsed s)) c e n =
        let z : num.le zero_time s ≡ true = ground arith in
        subst (λ k. Attained (leaf (elapsed s)) k) (some-eq e)
          (record { timely = z; holds_there = le_refl_time s z })
    corner-Attained (leaf (fired n)) c e h = absurd (ground arith)
    corner-Attained (any_of ts) c e n = absurd (ground arith)
    corner-Attained (all_of ts) c e n =
        let r = corner_all-attained ts root c e n num.zero_le_zero in
        record { timely = r.timely; holds_there = r.holds_there }

    corner_all-attained :
        (ts : Terms F) (acc c : Corner F)
        → corner_all ts acc ≡ some c
        → any is_negative (atoms_of ts) ≡ false
        → IsTimely acc
        → AttainedAll ts acc c
    corner_all-attained (last t) acc c e n z = elim (Option-cases (corner t)) [
      | inl q ↦ absurd (ground (arith, q))
      | inr (sub, q) ↦
          let one = corner-Attained t sub q n in
          let same : join acc sub ≡ c = ground (arith, q) in
          subst (λ k. AttainedAll (last t) acc k) same
            (record {
              timely = join-IsTimely acc sub z one.timely;
              above = join-left acc sub z one.timely;
              holds_there =
                  lift_up t sub (join acc sub) (join-right acc sub z one.timely) one.holds_there;
            })
    ]
    corner_all-attained (more t ts) acc c e n z = elim (Option-cases (corner t)) [
      | inl q ↦ absurd (ground (arith, q))
      | inr (sub, q) ↦
          let split = sym (any-append is_negative (atoms t) (atoms_of ts)) ∙ n in
          let one = corner-Attained t sub q (or_false_left _ _ split) in
          let timely = join-IsTimely acc sub z one.timely in
          let rest =
            corner_all-attained ts (join acc sub) c (ground (arith, q))
              (or_false_right (any is_negative (atoms t)) _ split) timely in
          let up = Above-trans sub (join acc sub) c (join-right acc sub z one.timely) rest.above in
          record {
            timely = rest.timely;
            above = Above-trans acc (join acc sub) c (join-left acc sub z one.timely) rest.above;
            holds_there = rw (lift_up t sub c up one.holds_there, rest.holds_there) refl;
          }
    ]

  -- A conjunctive term holds at its corner.
  pub corner-holds :
      (t : Term F) (c : Corner F)
      → corner t ≡ some c
      → any is_negative (atoms t) ≡ false
      → satisfied t c.at c.time 0 ≡ true
  corner-holds t c e n = (corner-Attained t c e n).holds_there
