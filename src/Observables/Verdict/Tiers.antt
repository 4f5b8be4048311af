-- ===== src/Observables/Verdict/Tiers.antt =====
-- The verdict `RunResult` of runstate/observables.py, its tiers and what its constructor admits.
use runstate.Prelude.{
  ℕ, ◌+◌, String, Bool, true, false, not, ◌&&◌, ◌||◌, Option, List, [], ◌∷◌, str_eq, ltb, ◌==◌,
  if◌then◌else◌, all, Result, ok, err,
}
use runstate.Vocabulary.Outcome.{
  Outcome, completed, preempted, errored, killed, lost, presumed_dead, outcome_text,
}
use runstate.Vocabulary.Payloads.Lifecycle.{is_some}
use runstate.Walk.Node.{WalkError, value_error, bad_verdict}

pub data Tier : Type 0 where
  exit_tier died_tier terminated_tier probed_dead heartbeat_stale session_ended : Tier

-- A `frozenset[Outcome]`, by what is in it.
abbrev pub Outcomes : Type 0
Outcomes = Outcome → Bool

abbrev pub bit : Bool → ℕ
bit true = 1
bit false = 0

-- `len`.
abbrev pub size : Outcomes → ℕ
size s =
    bit (s completed)
    + bit (s preempted)
    + bit (s errored)
    + bit (s killed)
    + bit (s lost)
    + bit (s presumed_dead)

abbrev pub same_outcome : Outcome → Outcome → Bool
same_outcome a b = str_eq (outcome_text a) (outcome_text b)

abbrev pub all_outcomes : List Outcome
all_outcomes = completed ∷ preempted ∷ errored ∷ killed ∷ lost ∷ presumed_dead ∷ []

abbrev pub same_bool : Bool → Bool → Bool
same_bool true b = b
same_bool false b = not b

abbrev pub same_outcomes : Outcomes → Outcomes → Bool
same_outcomes s s' = all (λ o. same_bool (s o) (s' o)) all_outcomes

abbrev pub only : Outcome → Outcomes
only o = λ o'. same_outcome o o'

abbrev pub is_exit : Tier → Bool
is_exit exit_tier = true
is_exit _ = false

abbrev pub is_died : Tier → Bool
is_died died_tier = true
is_died _ = false

abbrev pub is_terminated : Tier → Bool
is_terminated terminated_tier = true
is_terminated _ = false

-- `_CLAIMED_TIERS`.
abbrev pub is_claimed : Tier → Bool
is_claimed exit_tier = true
is_claimed died_tier = true
is_claimed session_ended = true
is_claimed _ = false

pub record DeathReport (F : Type 0) : Type 0 where
  pub seq : ℕ
  pub outcome : Outcome
  pub evidence : String
  pub t : F

pub record RunResult (F : Type 0) : Type 0 where
  pub outcomes : Outcomes
  pub reports : List (DeathReport F)
  pub node : Option ℕ
  pub claim_seq : Option ℕ
  pub malformed : List ℕ
  pub tier : Tier
  pub error : Option String
  pub run_id : Option String

abbrev pub is_empty {ℓ} : {A : Type ℓ} → List A → Bool
is_empty [] = true
is_empty (x ∷ xs) = false

abbrev pub is_death_set : Outcomes → Bool
is_death_set s = ltb 0 (size s)

-- `outcomes.discard(Outcome.LOST)`.
abbrev pub discard_lost : Outcomes → Outcomes
discard_lost s = λ o. s o && not (same_outcome lost o)

module _ {F : Type 0} where
  -- What `__post_init__` admits, one test for each of its `raise`s.
  unfoldable pub admits_result : RunResult F → Bool
  admits_result r =
      ltb 0 (size r.outcomes)
      && (size r.outcomes == 1 || is_died r.tier)
      && same_bool (is_some r.node) (is_exit r.tier)
      && (is_some r.claim_seq || not (is_claimed r.tier))
      && not (is_some r.claim_seq && is_terminated r.tier)
      && (is_empty r.malformed || is_exit r.tier || is_died r.tier)
      && (is_empty r.reports || is_died r.tier)
      && (not (is_some r.error) || is_exit r.tier)

  -- The constructor.
  unfoldable pub make_result : RunResult F → Result WalkError (RunResult F)
  unfolding admits_result
  make_result r = if admits_result r then ok r else err (value_error bad_verdict)
