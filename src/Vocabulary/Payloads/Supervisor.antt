-- ===== src/Vocabulary/Payloads/Supervisor.antt =====
-- The subscription-v0.4 and supervisor-v0.5 bodies of runstate/vocabulary/payloads.py.
use runstate.Prelude.{
  ℕ, suc, String, Bool, true, false, Option, none, some, [], ◌∷◌, str_eq, if◌then◌else◌, Result,
  ◌>>=◌, ◌>>◌, ok,
}
use runstate.Prelude.Int.{ℤ, pos}
use runstate.Json.{Number, Json, Fields, int, null}
use runstate.Vocabulary.Outcome.{
  Outcome, outcome_text, deaths, Reap, exited, reap_text, reaps, member,
}
use runstate.Vocabulary.Checks.{BodyError, takes, check, require, seq_of, string_of, time_of}

pub record Withdraw (F : Type 0) : Type 0 where
  pub t : F

-- `status` is always "running", so the record leaves it out.
pub record Launched (F : Type 0) : Type 0 where
  pub handle : String
  pub t : F

pub record Terminated (F : Type 0) : Type 0 where
  pub reason : Reap
  pub exit_code : Option ℤ
  pub signal : Option ℤ
  pub t : F

pub record Died (F : Type 0) : Type 0 where
  pub claim_seq : ℕ
  pub outcome : Outcome
  pub evidence : String
  pub t : F

-- `_is_int(code) and code >= 0 and signal is None`, or the same of a signal of at least 1.
unfoldable pub reap_fits : Reap → Option ℤ → Option ℤ → Bool
reap_fits exited (some (pos n)) none = true
reap_fits exited _ _ = false
reap_fits Reap.killed none (some (pos (suc n))) = true
reap_fits Reap.killed _ _ = false

module _ {F : Type 0} where
  unfoldable pub reap_of : Json F → Option Reap
  unfolding string_of member
  reap_of j = elim (string_of j) [ none ↦ none | some s ↦ member reap_text reaps s ]

  unfoldable pub death_of : Json F → Option Outcome
  unfolding string_of member
  death_of j = elim (string_of j) [ none ↦ none | some s ↦ member outcome_text deaths s ]

  -- Any other value fits no reap.
  unfoldable pub code_of : Json F → Option (Option ℤ)
  code_of null = some none
  code_of (int n) = some (some n)
  code_of _ = none

  unfoldable pub running_of : Json F → Option (Unit {0})
  unfolding string_of
  running_of j = elim (string_of j) [
    | none ↦ none
    | some s ↦ if str_eq s "running" then some tt else none
  ]

  unfoldable pub evidence_of : Json F → Option String
  unfolding string_of
  evidence_of j = elim (string_of j) [ none ↦ none | some s ↦ if str_eq s "" then none else some s ]

module _ {F : Type 0} ⦃num : Number F⦄ where
  unfoldable pub parse_withdraw : Fields F → Result BodyError (Withdraw F)
  unfolding takes check
  parse_withdraw body = do takes ("t" ∷ []) body; t ← check "t" time_of body; ok (record { t = t })

  unfoldable pub parse_launched : Fields F → Result BodyError (Launched F)
  unfolding takes check
  parse_launched body = do
    takes ("handle" ∷ "status" ∷ "t" ∷ []) body
    h ← check "handle" string_of body
    check "status" running_of body
    t ← check "t" time_of body
    ok (record { handle = h; t = t })

  unfoldable pub parse_terminated : Fields F → Result BodyError (Terminated F)
  unfolding takes check
  parse_terminated body = do
    takes ("reason" ∷ "exit_code" ∷ "signal" ∷ "t" ∷ []) body
    r ← check "reason" reap_of body
    c ← check "exit_code" code_of body
    s ← check "signal" code_of body
    require (reap_fits r c s) "reason"
    t ← check "t" time_of body
    ok (record { reason = r; exit_code = c; signal = s; t = t })

  unfoldable pub parse_died : Fields F → Result BodyError (Died F)
  unfolding takes check
  parse_died body = do
    takes ("claim_seq" ∷ "outcome" ∷ "evidence" ∷ "t" ∷ []) body
    c ← check "claim_seq" seq_of body
    o ← check "outcome" death_of body
    e ← check "evidence" evidence_of body
    t ← check "t" time_of body
    ok (record { claim_seq = c; outcome = o; evidence = e; t = t })
