-- ===== src/Examples/Folds.antt =====
-- The theorems on the observer plane's folds, at a log of requests.
use runstate.Prelude.{
  ℕ, String, ◌≡◌, refl, true, false, Option, none, some, List, [], ◌∷◌, arith, filter, any, All,
  str_mem, ok,
}
use runstate.Prelude.Int.{ℤ, pos}
use runstate.Json.{field, end, int, float}
use runstate.Channel.{Envelope}
use runstate.Channel.Interface.{Channel}
use runstate.Channel.Growth.{Grows-refl}
use runstate.Channel.Topics.{topic_match}
use runstate.Channel.Memory.{MemoryLog, index_all, positions_of, last_seq, latest, read}
use runstate.Channel.Memory.Invariant.{IsLog, index_all-positions}
use runstate.Channel.Memory.Handle.{memory_channel}
use runstate.Vocabulary.Topic
use runstate.Vocabulary.Checks.{string_of, parent_of, names_of, seqs_of}
use runstate.Vocabulary.Schedule.{is_lease}
use runstate.Vocabulary.Payloads.Lifecycle.{Commit, parse_started, parse_commit}
use runstate.Vocabulary.Payloads.Wire.{started_dict, commit_dict}
use runstate.Examples.{int_number, claim_record, envelope}
use runstate.Claims.{request_name, spent_by}
use runstate.Observables.Tail.{between}
use runstate.Observables.Held.{new-IsHeld}
use runstate.Observables.Head.{latest_claim_head, head}
use runstate.Observables.Head.Fold.{head_fold, latest_claim_head_lem}
use runstate.Observables.Head.Stands.{Settles}
use runstate.Observables.Head.Bounds.{HeadAt, latest_claim_head-HeadAt}
use runstate.Observables.HeadFold.{poll_at, new_head_fold}
use runstate.Observables.HeadFold.Poll.{
  IsHeadHeld, new_head_fold-IsHeadHeld, poll_at-latest_claim_head,
}
use runstate.Observables.Stops.{
  no_stops, undischarged_stops, stop_topics, poll, apply as apply_stop,
}
use runstate.Observables.Stops.Poll.{HoldsStops, poll-undischarged_stops}
use runstate.Observables.Stops.Pending.{unspent, spends, stop_records, undischarged_stops-unspent}
use runstate.Observables.Demand.{Demand, no_demand, apply, placed, extended, has_key}
use runstate.Observables.Demand.Placed.{elsewhere, stays, applies, moves, shown-elsewhere}
use runstate.Observables.Demand.Dead.{dead-forever}
use runstate.Observables.Demand.Lineage.{live_demand, demand_topics}
use runstate.Observables.Demand.Spent.{names_request, live_demand-unspent}

abbrev pub request : ℕ → String → Option String → String → Envelope ℤ
request seq topic name id = record {
  seq = seq;
  topic = topic;
  name = name;
  request_id = some id;
  body = end;
}

-- The commit of the sample at 3 that "r1" asked for.
abbrev pub sampled : Commit ℤ
sampled = record {
  claim_seq = 1;
  consumed_seq = 2;
  parent = none;
  values = 3 ∷ [];
  fired = "r1" ∷ [];
  expired = [];
  t = pos 12;
}

abbrev pub first_send : Envelope ℤ
first_send = request 2 Topic.control_subscribe (some "probe") "r1"

abbrev pub second_send : Envelope ℤ
second_send = request 5 Topic.control_subscribe (some "loss") "r2"

abbrev pub withdraw : Envelope ℤ
withdraw = request 6 Topic.control_withdraw none "r1"

abbrev pub stop : Envelope ℤ
stop = request 7 Topic.control_stop none "s1"

-- A claim at 1, a subscription at 2, its sample at 3 and the commit of it at 4, another subscription at
-- 5, a withdraw of the first at 6 and a stop at 7.
abbrev pub request_records : List (Envelope ℤ)
request_records =
    claim_record
    ∷ first_send
    ∷ envelope 3 Topic.value (some "probe")
        (field "value" (int (pos 7)) (field "t" (float (pos 11)) end))
    ∷ envelope 4 Topic.lifecycle_commit none (commit_dict sampled)
    ∷ second_send
    ∷ withdraw
    ∷ stop
    ∷ []

abbrev pub requests_log : MemoryLog ℤ
requests_log = record { envelopes = request_records; by_topic = index_all 0 request_records [] }

pub requests_log-IsLog : IsLog requests_log
unfolding positions_of
requests_log-IsLog = record {
  contiguous = (refl, (refl, (refl, (refl, (refl, (refl, (refl, tt)))))));
  indexed = λ t. index_all-positions t 0 request_records [];
}

abbrev pub requests : Channel ℤ
requests = memory_channel requests_log requests_log-IsLog

-- The folds, from before the first record.
poll_at-latest_claim_head_example :
    ((poll_at requests 7 new_head_fold).0 ≡ latest_claim_head requests 7)
    × IsHeadHeld requests (poll_at requests 7 new_head_fold).1
unfolding memory_channel
poll_at-latest_claim_head_example =
    poll_at-latest_claim_head requests requests 7 new_head_fold (new_head_fold-IsHeadHeld requests)
      (Grows-refl requests) (omega arith) (omega arith)

latest_claim_head_lem_example : latest_claim_head requests 7 ≡ head (head_fold requests.log 7) 7
latest_claim_head_lem_example = latest_claim_head_lem requests 7

latest_claim_head-HeadAt_example : Settles (HeadAt requests 7) (latest_claim_head requests 7)
latest_claim_head-HeadAt_example = latest_claim_head-HeadAt requests 7

poll-undischarged_stops_example :
    ((poll requests (record { cursor = 0; state = no_stops })).0 ≡ undischarged_stops requests)
    × HoldsStops requests (poll requests (record { cursor = 0; state = no_stops })).1
poll-undischarged_stops_example =
    poll-undischarged_stops requests requests (record { cursor = 0; state = no_stops })
      (new-IsHeld apply_stop no_stops stop_topics requests) (Grows-refl requests)

undischarged_stops-unspent_example :
    undischarged_stops requests
    ≡ unspent (λ r. any (spends r) (stop_records requests)) (stop_records requests)
undischarged_stops-unspent_example = undischarged_stops-unspent requests

-- The first subscription is sent, and withdrawn.
abbrev asked : Demand ℤ
asked = apply no_demand first_send

abbrev withdrew : Demand ℤ
withdrew = apply asked withdraw

shown-elsewhere_example :
    (apply (placed asked (extended ("r1" ∷ []))) second_send).shown
    ≡ filter
        (elsewhere (apply (placed asked (extended ("r1" ∷ []))) second_send).here)
        (apply (placed asked (extended ("r1" ∷ []))) second_send).live
shown-elsewhere_example =
    shown-elsewhere (apply (placed asked (extended ("r1" ∷ []))) second_send)
      (applies (moves (applies stays first_send) (extended ("r1" ∷ []))) second_send)

withdrew-dead : str_mem "r1" withdrew.dead ≡ true
unfolding apply
withdrew-dead = refl

dead-forever_example : has_key "r1" (apply withdrew first_send).shown ≡ false
dead-forever_example =
    dead-forever withdrew (apply withdrew first_send) "r1"
      (applies (applies stays first_send) withdraw) (applies stays first_send) withdrew-dead

requests_live : live_demand requests ≡ ok (second_send ∷ [])
unfolding live_demand memory_channel last_seq latest index_all read topic_match parse_started
    started_dict string_of parent_of names_of is_lease commit_dict parse_commit seqs_of
requests_live = refl

withdrawn :
    any (λ e. str_mem "r1" (spent_by e)) (between 0 requests.last_seq demand_topics requests.log)
    ≡ true
unfolding spent_by memory_channel last_seq topic_match
withdrawn = refl

live_demand-unspent_example :
    All (λ e. names_request "r1" (request_name e) ≡ false) (second_send ∷ [])
live_demand-unspent_example =
    live_demand-unspent requests "r1" (second_send ∷ []) withdrawn requests_live
