-- ===== src/Observables/Verdict.antt =====
-- The claim plane of runstate/observables.py: the reads that say how a run ended.
pub mod Tiers
pub mod Loop
pub mod Rule
pub mod Ended
pub mod Final
use runstate.Prelude.{
  ℕ, String, Bool, false, not, ◌&&◌, ◌||◌, Option, none, some, List, [], ◌∷◌, ◌++◌, str_eq, ltb,
  ◌==◌, if◌then◌else◌, any, Result, ◌>>=◌, ok, err,
}
use runstate.Prelude.Int.{ℤ, pos}
use runstate.Json.{Number}
use runstate.Channel.{Envelope}
use runstate.Channel.Interface.{Channel}
use runstate.Vocabulary.Topic
use runstate.Vocabulary.Outcome.{
  Outcome, completed, preempted, errored, killed, lost, presumed_dead, outcome_text, Reap, exited,
}
use runstate.Vocabulary.Payloads.Lifecycle.{Started, Stopped, parse_started, parse_stopped, is_some}
use runstate.Vocabulary.Payloads.Supervisor.{Died, Terminated, parse_died, parse_terminated}
use runstate.Walk.Node.{
  WalkError, malformed, value_error, bad_verdict, exited_at, names_no_launch, verdict_parse,
  readable,
}
use runstate.Claims.{named_claim, request_name, claim_window, ending_topics}
use runstate.Observables.Head.{newest, newest_claim}
use runstate.Observables.Verdict.Tiers.{
  DeathReport, RunResult, Outcomes, size, same_outcome, only, is_death_set, discard_lost,
  make_result, exit_tier, died_tier, terminated_tier, is_exit, same_outcomes,
}

-- `_Exit`.
pub record Exit (F : Type 0) : Type 0 where
  pub env : Envelope F
  pub stop : Stopped F

-- What the loop of `claim_verdict` has read: `exit_`, `reports`, `ended_unread` and `malformed`.
pub record Read (F : Type 0) : Type 0 where
  pub exit : Option (Exit F)
  pub reports : List (DeathReport F)
  pub ended_unread : Bool
  pub malformed : List ℕ

-- `named is not None and named != claim.seq`.
abbrev pub names_another : Option ℕ → ℕ → Bool
names_another none c = false
names_another (some k) c = not (k == c)

abbrev pub less_lost : Outcomes → Outcomes
less_lost s = if ltb 1 (size s) then discard_lost s else s

abbrev pub returned {ℓ} : {A : Type ℓ} → Result WalkError A → Result WalkError (Option A)
returned r = r >>= λ a. ok (some a)

module _ {F : Type 0} where
  -- `_self_report`.
  abbrev pub self_report : Stopped F → Outcome
  self_report s = if is_some s.error then errored else if s.completed then completed else preempted

  abbrev pub new_read : Read F
  new_read = record { exit = none; reports = []; ended_unread = false; malformed = [] }

  abbrev pub unread : Read F → Envelope F → Option ℕ → Read F
  unread st e named = record st {
    malformed = st.malformed ++ (e.seq ∷ []);
    ended_unread = st.ended_unread || is_some named;
  }

  abbrev pub take_exit : Read F → Envelope F → Stopped F → Result WalkError (Read F)
  take_exit st e s = elim st.exit [
    | some x ↦ err (malformed e.seq e.topic (exited_at x.env.seq))
    | none ↦ ok (record st { exit = some (record { env = e; stop = s }) })
  ]

  abbrev pub take_report : Read F → Envelope F → Died F → Read F
  take_report st e d = record st {
    reports =
        st.reports
        ++ (record { seq = e.seq; outcome = d.outcome; evidence = d.evidence; t = d.t } ∷ []);
  }

  abbrev pub reported : List (DeathReport F) → Outcomes
  reported rs = λ o. any (λ r. same_outcome r.outcome o) rs

  -- `{r.outcome for r in reports}`, and `lost` where an unreadable record ended the claim.
  abbrev pub read_outcomes : Read F → Outcomes
  read_outcomes st = λ o. reported st.reports o || (st.ended_unread && same_outcome lost o)

  abbrev pub exit_result : ℕ → Read F → Exit F → RunResult F
  exit_result c st x = record {
    outcomes = only (self_report x.stop);
    reports = [];
    node = some x.env.seq;
    claim_seq = some c;
    malformed = st.malformed;
    tier = exit_tier;
    error = x.stop.error;
    run_id = none;
  }

  abbrev pub death_result : ℕ → Read F → RunResult F
  death_result c st = record {
    outcomes = less_lost (read_outcomes st);
    reports = st.reports;
    node = none;
    claim_seq = some c;
    malformed = st.malformed;
    tier = died_tier;
    error = none;
    run_id = none;
  }

  -- `claim_verdict` after its loop.
  unfoldable pub conclude : ℕ → Read F → Result WalkError (Option (RunResult F))
  unfolding make_result
  conclude c st = elim st.exit [
    | some x ↦ returned (make_result (exit_result c st x))
    | none ↦
        if is_death_set (read_outcomes st)
        then returned (make_result (death_result c st))
        else ok none
  ]

  unfoldable pub latest_episode : Channel F → Option (Envelope F)
  latest_episode ch = ch.latest Topic.lifecycle_started none

  unfoldable pub worker_completed : Option (RunResult F) → Bool
  worker_completed none = false
  worker_completed (some r) = is_exit r.tier && same_outcomes r.outcomes (only completed)

abbrev pub is_zero : Option ℤ → Bool
is_zero (some (pos n)) = n == 0
is_zero _ = false

abbrev pub reap_outcome : Reap → Option ℤ → Outcome
reap_outcome Reap.killed code = Outcome.killed
reap_outcome exited code = if is_zero code then completed else errored

module _ {F : Type 0} ⦃num : Number F⦄ where
  abbrev pub exit_or_junk : Read F → Envelope F → Option (Stopped F) → Result WalkError (Read F)
  exit_or_junk st e none = ok (unread st e (named_claim e))
  exit_or_junk st e (some s) = take_exit st e s

  abbrev pub report_or_junk : Read F → Envelope F → Option (Died F) → Read F
  report_or_junk st e none = unread st e (named_claim e)
  report_or_junk st e (some d) = take_report st e d

  -- One round of the loop of `claim_verdict`.
  unfoldable pub read_one : ℕ → Read F → Envelope F → Result WalkError (Read F)
  unfolding readable named_claim
  read_one c st e =
      if names_another (named_claim e) c
      then ok st
      else if str_eq e.topic Topic.lifecycle_stopped
      then exit_or_junk st e (readable parse_stopped e)
      else ok (report_or_junk st e (readable parse_died e))

  unfoldable pub read_all : ℕ → Read F → List (Envelope F) → Result WalkError (Read F)
  unfolding read_one
  read_all c st [] = ok st
  read_all c st (e ∷ es) = read_one c st e >>= λ st'. read_all c st' es

  unfoldable pub claim_verdict :
      Channel F → Envelope F → ℕ → Result WalkError (Option (RunResult F))
  unfolding claim_window read_all conclude
  claim_verdict ch claim w =
      read_all claim.seq new_read (claim_window ch claim w ending_topics) >>= λ st.
      conclude claim.seq st

  unfoldable pub launch_verdict : Envelope F → Result WalkError (RunResult F)
  unfolding verdict_parse request_name make_result
  launch_verdict e = verdict_parse parse_terminated e >>= λ end. elim (request_name e) [
    | none ↦ err (malformed e.seq e.topic names_no_launch)
    | some r ↦ make_result (record {
      outcomes = only (reap_outcome end.reason end.exit_code);
      reports = [];
      node = none;
      claim_seq = none;
      malformed = [];
      tier = terminated_tier;
      error = none;
      run_id = none;
    })
  ]

  -- `_launch_end`.
  unfoldable pub launch_end : Channel F → ℕ → Result WalkError (Option (RunResult F))
  unfolding newest launch_verdict
  launch_end ch w = elim (newest ch Topic.supervisor_terminated w) [
    | none ↦ ok none
    | some e ↦ returned (launch_verdict e)
  ]

  unfoldable pub peek_terminal : Channel F → Result WalkError (Option (RunResult F))
  unfolding newest_claim launch_end claim_verdict
  peek_terminal ch = elim (newest_claim ch ch.last_seq) [
    | none ↦ launch_end ch ch.last_seq
    | some claim ↦ claim_verdict ch claim ch.last_seq
  ]

  abbrev pub handle_of : Envelope F → Result WalkError (Option String)
  handle_of claim = verdict_parse parse_started claim >>= λ s. ok (some s.handle)

  abbrev pub unless_ended : Envelope F → Option (RunResult F) → Result WalkError (Option String)
  unless_ended claim none = handle_of claim
  unless_ended claim (some r) = ok none

  unfoldable pub live_episode : Channel F → Result WalkError (Option String)
  unfolding newest_claim claim_verdict verdict_parse
  live_episode ch = elim (newest_claim ch ch.last_seq) [
    | none ↦ ok none
    | some claim ↦ claim_verdict ch claim ch.last_seq >>= unless_ended claim
  ]
