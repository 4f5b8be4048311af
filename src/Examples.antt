-- ===== src/Examples.antt =====
-- A run's log, its records and its subscriptions, with integers for Python's numbers: the data on
-- which the theorems are applied.
pub mod Logs
pub mod Conditions
pub mod Walks
pub mod Folds
pub mod Verdicts
use runstate.Prelude.{
  ℕ, ◌+◌, String, ◌≡◌, refl, true, false, Option, none, some, List, [], ◌∷◌, arith, ltb→lt, leb→le,
}
use runstate.Prelude.Int.{ℤ, pos_part, neg_part, ◌-ℤ◌, leb_ℤ, ltb_ℤ, pos}
use runstate.Json.{Number, Fields, field, end, str, int, float}
use runstate.Vocabulary.Topic
use runstate.Vocabulary.Payloads.Lifecycle.{Started, Commit, Stopped}
use runstate.Vocabulary.Payloads.Wire.{started_dict, commit_dict, stopped_dict}
use runstate.Channel.{Envelope}

pub leb_ℤ_trans : (a b c : ℤ) → leb_ℤ a b ≡ true → leb_ℤ b c ≡ true → leb_ℤ a c ≡ true
leb_ℤ_trans a b c h k = ground (
  arith,
  leb→le (pos_part a + neg_part b) (pos_part b + neg_part a) h,
  leb→le (pos_part b + neg_part c) (pos_part c + neg_part b) k,
)

pub leb_ℤ_of_ltb_ℤ : (a b : ℤ) → ltb_ℤ a b ≡ true → leb_ℤ a b ≡ true
leb_ℤ_of_ltb_ℤ a b h = ground (arith, ltb→lt _ _ h)

pub leb_ℤ_of_not : (a b : ℤ) → ltb_ℤ a b ≡ false → leb_ℤ b a ≡ true
leb_ℤ_of_not a b h = ground arith

-- Python's numbers, where all of them are integers.
instance abbrev pub int_number : Number ℤ
int_number = record {
  of_int = λ z. z;
  le = leb_ℤ;
  lt = ltb_ℤ;
  sub = λ a b. a -ℤ b;
  le_trans = leb_ℤ_trans;
  le_of_lt = leb_ℤ_of_ltb_ℤ;
  le_of_not_lt = λ a b ha hb h. leb_ℤ_of_not a b h;
  zero_le_zero = refl;
}

-- A claim at 1, a value at 2, a commit of it at 3, a stop request at 4 and the exit at 5.
abbrev pub started_body : Started ℤ
started_body = record { handle = "local:1"; t = pos 10; resume_from = none; sources = "probe" ∷ [] }

abbrev pub commit_body : Commit ℤ
commit_body = record {
  claim_seq = 1;
  consumed_seq = 1;
  parent = none;
  values = 2 ∷ [];
  fired = "r1" ∷ [];
  expired = [];
  t = pos 12;
}

abbrev pub stopped_body : Stopped ℤ
stopped_body = record {
  completed = true;
  error = none;
  claim_seq = 1;
  honored = "r2" ∷ [];
  parent = some 3;
  values = some [];
  fired = [];
  expired = "r1" ∷ [];
  t = pos 20;
}

abbrev pub envelope : ℕ → String → Option String → Fields ℤ → Envelope ℤ
envelope seq topic name body = record {
  seq = seq;
  topic = topic;
  name = name;
  request_id = none;
  body = body;
}

abbrev pub claim_record : Envelope ℤ
claim_record = envelope 1 Topic.lifecycle_started none (started_dict started_body)

abbrev pub run_records : List (Envelope ℤ)
run_records =
    claim_record
    ∷ envelope 2 Topic.value (some "loss")
        (field "value" (int (pos 7)) (field "t" (float (pos 11)) end))
    ∷ envelope 3 Topic.lifecycle_commit none (commit_dict commit_body)
    ∷ envelope 4 Topic.control_stop none end
    ∷ envelope 5 Topic.lifecycle_stopped none (stopped_dict stopped_body)
    ∷ []
