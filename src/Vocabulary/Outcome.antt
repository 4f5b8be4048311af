-- ===== src/Vocabulary/Outcome.antt =====
-- The enums `Outcome`, `NakReason` and `Reap` of runstate/vocabulary/payloads.py, with their wire
-- strings.

use runstate.Prelude.{
  String, Bool, true, false, Option, none, some, List, [], ◌∷◌, str_eq, if◌then◌else◌,
}

pub data Outcome : Type 0 where
  completed preempted errored killed lost presumed_dead : Outcome

abbrev pub outcome_text : Outcome → String
outcome_text completed = "completed"
outcome_text preempted = "preempted"
outcome_text errored = "errored"
outcome_text killed = "killed"
outcome_text lost = "lost"
outcome_text presumed_dead = "presumed_dead"

-- `Outcome.failures()`.
abbrev pub is_failure : Outcome → Bool
is_failure errored = true
is_failure killed = true
is_failure lost = true
is_failure presumed_dead = true
is_failure _ = false

-- `Outcome.deaths()`.
abbrev pub is_death : Outcome → Bool
is_death preempted = true
is_death errored = true
is_death killed = true
is_death lost = true
is_death _ = false

pub data NakReason : Type 0 where
  malformed unsatisfiable unsupported : NakReason

abbrev pub nak_reason_text : NakReason → String
nak_reason_text malformed = "malformed"
nak_reason_text unsatisfiable = "unsatisfiable"
nak_reason_text unsupported = "unsupported"

pub data Reap : Type 0 where
  exited killed : Reap

abbrev pub reap_text : Reap → String
reap_text exited = "exited"
reap_text Reap.killed = "killed"

-- `_member`: the first member allowed that has this wire string.
unfoldable pub member : {E : Type 0} → (E → String) → List E → String → Option E
member text [] s = none
member text (e ∷ es) s = if str_eq (text e) s then some e else member text es s

abbrev pub deaths : List Outcome
deaths = preempted ∷ errored ∷ killed ∷ lost ∷ []

abbrev pub nak_reasons : List NakReason
nak_reasons = malformed ∷ unsatisfiable ∷ unsupported ∷ []

abbrev pub reaps : List Reap
reaps = exited ∷ Reap.killed ∷ []
