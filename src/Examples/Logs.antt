-- ===== src/Examples/Logs.antt =====
-- The theorems on the log, on its windows and on claims, at a run of five records.
use runstate.Prelude.{
  ◌≡◌, refl, ◌⊎◌, true, false, ◌&&◌, none, some, [], ◌∷◌, reverse, str_eq, filter, str_mem, ok, err,
}
use runstate.Prelude.Int.{ℤ, negsuc}
use runstate.Json.{Fields, end}
use runstate.Channel.{last_where, Envelope, Query, read_spec, name_admits}
use runstate.Channel.Memory.{positions_of, MemoryLog, index_all, of_envelopes, append, latest, read}
use runstate.Channel.Memory.Invariant.{IsLog, index_all-positions, of_envelopes_lem, append-IsLog}
use runstate.Channel.Interface.{Channel, IsContiguous}
use runstate.Channel.Memory.Handle.{memory_channel}
use runstate.Channel.Memory.Latest.{latest-latest_spec}
use runstate.Channel.Memory.Reading.{read-read_spec}
use runstate.Channel.Memory.Writers.{start, write, append_exclusive}
use runstate.Channel.Windows.{within}
use runstate.Vocabulary.Topic
use runstate.Examples.{int_number, run_records, claim_record, envelope, stopped_body}
use runstate.Vocabulary.Payloads.Wire.{stopped_dict}
use runstate.Claims.{endings}
use runstate.Claims.Windowed.{ends_by, endings_lem}
use runstate.Claims.Search.{backward, watermark, mark_topics}
use runstate.Claims.Search.Mark.{newest_mark, watermark-newest_mark}
use runstate.Claims.Search.Windows.{backward_lem}
use runstate.Claims.Bindings.{Bindings, apply, void}
use runstate.Claims.Bindings.Void.{IsIndexed, apply-void}

abbrev pub run_log : MemoryLog ℤ
run_log = record { envelopes = run_records; by_topic = index_all 0 run_records [] }

pub run_log-IsLog : IsLog run_log
unfolding positions_of
run_log-IsLog = record {
  contiguous = (refl, (refl, (refl, (refl, (refl, tt)))));
  indexed = λ t. index_all-positions t 0 run_records [];
}

abbrev pub run : Channel ℤ
run = memory_channel run_log run_log-IsLog

abbrev values_query : Query
values_query = record {
  topics = some ("value" ∷ "lifecycle.>" ∷ []);
  name = some "loss";
  request_ids = none;
  limit = some 2;
}

of_envelopes_lem_example :
    ((l : MemoryLog ℤ) × (of_envelopes run_records ≡ ok l) × IsLog l × (l.envelopes ≡ run_records))
    ⊎ ((of_envelopes run_records ≡ err tt) × ¬ IsContiguous 1 run_records)
of_envelopes_lem_example = of_envelopes_lem run_records

append-IsLog_example : IsLog (append run_log end Topic.value (some "loss") none (some 5)).1
append-IsLog_example =
    append-IsLog run_log end Topic.value (some "loss") none (some 5) run_log-IsLog

read-read_spec_example :
    read run_log (negsuc 0) values_query ≡ read_spec (negsuc 0) values_query run_records
read-read_spec_example = read-read_spec run_log (negsuc 0) values_query run_log-IsLog

latest-latest_spec_example :
    latest run_log Topic.value (some "loss")
    ≡ last_where (λ e. str_eq e.topic Topic.value && name_admits (some "loss") e.name) run_records
latest-latest_spec_example = latest-latest_spec run_log Topic.value (some "loss") run_log-IsLog

abbrev withdraw_body : Fields ℤ
withdraw_body = end

-- A handle that expected seq 5 landed, then another appended without a condition.
abbrev after_two : MemoryLog ℤ
after_two =
    (append (append run_log end Topic.control_stop none none (some 5)).1 withdraw_body
      Topic.control_withdraw none none none).1

landed : (append run_log end Topic.control_stop none none (some 5)).0 ≡ some 6
unfolding append
landed = refl

append_exclusive_example :
    append after_two end Topic.control_stop none none (some 5) ≡ (none, after_two)
append_exclusive_example =
    append_exclusive run_log after_two 5 6 end end Topic.control_stop Topic.control_stop none none
      none none landed (write withdraw_body Topic.control_withdraw none none none start)

endings_lem_example : endings run claim_record 5 ≡ filter (ends_by 5 1) run.log
endings_lem_example = endings_lem run claim_record 5

backward_lem_example :
    backward run 1 5 ("value" ∷ []) ≡ reverse (filter (within 1 5 (some ("value" ∷ []))) run.log)
backward_lem_example = backward_lem run 1 ("value" ∷ []) 5

-- One id that the claim at 1 holds.
abbrev bindings : Bindings
bindings = record { bound = ("r1", 1) ∷ []; bound_to = ("r1", 1) ∷ []; claims = 1 ∷ []; ended = [] }

bindings-IsIndexed : IsIndexed bindings
bindings-IsIndexed = record { indexed = λ r c held. held }

abbrev exit_record : Envelope ℤ
exit_record = envelope 5 Topic.lifecycle_stopped none (stopped_dict stopped_body)

not_void : void bindings "r1" ≡ false
unfolding void
not_void = refl

now_void : void (apply bindings exit_record).1 "r1" ≡ true
unfolding void apply stopped_dict
now_void = refl

apply-void_example : str_mem "r1" (apply bindings exit_record).0 ≡ true
apply-void_example = apply-void bindings exit_record "r1" bindings-IsIndexed not_void now_void

watermark-newest_mark_example :
    watermark run claim_record 4 ≡ newest_mark (within 1 4 (some mark_topics)) 1 run.log
watermark-newest_mark_example = watermark-newest_mark run claim_record 4
