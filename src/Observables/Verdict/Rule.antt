-- ===== src/Observables/Verdict/Rule.antt =====
-- `claim_verdict` of runstate/observables.py and the rule that its docstring gives.
use runstate.Prelude.{
  ℕ, ◌≤◌, ◌≡◌, refl, inl, inr, Bool, true, false, ◌&&◌, Option, none, some, List, arith, ltb,
  if◌then◌else◌, Bool-cases, Option-cases, any, Result, ◌>>=◌, ok, err,
}
use runstate.Json.{Number}
use runstate.Channel.{Envelope}
use runstate.Channel.Interface.{Channel}
use runstate.Vocabulary.Outcome.{
  Outcome, completed, preempted, errored, killed, lost, presumed_dead,
}
use runstate.Walk.Node.{WalkError}
use runstate.Claims.{ending_topics}
use runstate.Observables.Tail.{between, claim_window_lem}
use runstate.Observables.Verdict.Tiers.{
  RunResult, Outcomes, size, bit, only, is_death_set, make_result, admits_result,
}
use runstate.Observables.Verdict.{
  Exit, Read, new_read, conclude, exit_result, death_result, read_outcomes, less_lost,
  claim_verdict, self_report,
}
use runstate.Observables.Verdict.Loop.{
  exits, reports_in, junk, ends_unread, settle, add_all, with_exit, read_all_lem,
}

size-only : (o : Outcome) → size (only o) ≡ 1
size-only completed = refl
size-only preempted = refl
size-only errored = refl
size-only killed = refl
size-only lost = refl
size-only presumed_dead = refl

bit-kept : (b : Bool) → bit (b && true) ≡ bit b
bit-kept true = refl
bit-kept false = refl

bit-dropped : (b : Bool) → bit (b && false) ≡ 0
bit-dropped true = refl
bit-dropped false = refl

bit_le_one : (b : Bool) → bit b ≤ 1
bit_le_one true = omega arith
bit_le_one false = omega arith

-- Some outcome is left when `lost` is discarded beside another.
size-less_lost : (s : Outcomes) → is_death_set s ≡ true → is_death_set (less_lost s) ≡ true
size-less_lost s h = elim (Bool-cases (ltb 1 (size s))) [
  | inl more ↦
      rw
        (
          more,
          bit-kept (s completed),
          bit-kept (s preempted),
          bit-kept (s errored),
          bit-kept (s killed),
          bit-dropped (s lost),
          bit-kept (s presumed_dead),
        )
        (ground (arith, bit_le_one (s lost), more))
  | inr one ↦ rw one h
]

module _ {F : Type 0} where
  -- What `conclude` returns, when its constructor calls are accepted.
  abbrev pub concluded : ℕ → Read F → Option (RunResult F)
  concluded c st = elim st.exit [
    | some x ↦ some (exit_result c st x)
    | none ↦ if is_death_set (read_outcomes st) then some (death_result c st) else none
  ]

  exit-admitted : (c : ℕ) (st : Read F) (x : Exit F) → admits_result (exit_result c st x) ≡ true
  unfolding admits_result
  exit-admitted c st x = rw (size-only (self_report x.stop)) (ground arith)

  death-admitted :
      (c : ℕ) (st : Read F)
      → is_death_set (read_outcomes st) ≡ true
      → admits_result (death_result c st) ≡ true
  unfolding admits_result
  death-admitted c st h = rw (size-less_lost (read_outcomes st) h) (ground arith)

  -- Every verdict is one that the constructor admits.
  pub conclude_lem : (c : ℕ) (st : Read F) → conclude c st ≡ ok (concluded c st)
  unfolding conclude make_result
  conclude_lem c st = elim (Option-cases st.exit) [
    | inr (x, h) ↦ rw (h, exit-admitted c st x) refl
    | inl h ↦ rw h (elim (Bool-cases (is_death_set (read_outcomes st))) [
      | inl d ↦ rw (d, death-admitted c st d) refl
      | inr n ↦ rw n refl
    ])
  ]

module _ {F : Type 0} ⦃num : Number F⦄ where
  -- What a window holds of the claim `c`, which has the exit `o`.
  abbrev pub found : ℕ → List (Envelope F) → Option (Exit F) → Read F
  found c es o = record {
    exit = o;
    reports = reports_in c es;
    ended_unread = any (ends_unread c) es;
    malformed = junk c es;
  }

  -- The rule: a second exit raises; the exit is the verdict; else the reports and the unreadable
  -- records that name the claim are, if there are any.
  abbrev pub rule : ℕ → List (Envelope F) → Result WalkError (Option (RunResult F))
  rule c es = settle none (exits c es) >>= λ o. ok (concluded c (found c es o))

  conclude-found :
      (c : ℕ) (es : List (Envelope F)) (r : Result WalkError (Option (Exit F)))
      → ((r >>= with_exit (add_all new_read (reports_in c es) (any (ends_unread c) es) (junk c es)))
          >>= λ st. conclude c st)
        ≡ (r >>= λ o. ok (concluded c (found c es o)))
  conclude-found c es (err x) = refl
  conclude-found c es (ok o) = conclude_lem c (found c es o)

  -- `claim_verdict` is the rule on the log's exits and death reports above the claim, at or below `w`.
  pub claim_verdict_lem :
      (ch : Channel F) (claim : Envelope F) (w : ℕ)
      → claim_verdict ch claim w ≡ rule claim.seq (between claim.seq w ending_topics ch.log)
  unfolding claim_verdict
  claim_verdict_lem ch claim w =
      rw
        (
          claim_window_lem ch claim w ending_topics,
          read_all_lem claim.seq new_read (between claim.seq w ending_topics ch.log),
        )
        (conclude-found claim.seq (between claim.seq w ending_topics ch.log)
          (settle none (exits claim.seq (between claim.seq w ending_topics ch.log))))
