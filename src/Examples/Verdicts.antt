-- ===== src/Examples/Verdicts.antt =====
-- The theorems on verdicts and on reads at a head: at the run of five records, and at the log of
-- requests.
use runstate.Prelude.{
  ◌≡◌, refl, true, false, none, some, [], ◌∷◌, map, arith, take, filter, any, ok,
}
use runstate.Prelude.Int.{ℤ, pos}
use runstate.Json.{int}
use runstate.Channel.Memory.{index_all, last_seq, latest, read}
use runstate.Channel.Topics.{topic_match}
use runstate.Vocabulary.Checks.{
  bool_of, error_of, names_of, parent_of, seqs_of, string_of, time_of, values_of, watermark_of,
  seq_of, time_or_null_of,
}
use runstate.Channel.Growth.{Grows-refl}
use runstate.Channel.Memory.Handle.{memory_channel}
use runstate.Vocabulary.Outcome.{completed}
use runstate.Vocabulary.Payloads.Lifecycle.{
  commit, exit_checks, parse_commit, parse_started, parse_stopped, claim_of, parse_value, committed,
  fired,
}
use runstate.Vocabulary.Payloads.Wire.{commit_dict, started_dict, stopped_dict}
use runstate.Vocabulary.Topic
use runstate.Walk.Chain.{from_head, chain_loop, kind_of, follow, next}
use runstate.Walk.Node.Reference.{check_node, check_reference, judge}
use runstate.Claims.{endings, ending_topics}
use runstate.Walk.Node.{At, node_at, kind}
use runstate.Walk.Lineage.{Walked, walk}
use runstate.Walk.Membership.{Element, members}
use runstate.Walk.Backward.{add_records, get, find_record}
use runstate.Examples.{int_number, claim_record, envelope}
use runstate.Examples.Logs.{run}
use runstate.Examples.Folds.{requests, request_records, sampled}
use runstate.Observables.Tail.{between}
use runstate.Observables.Head.{Head}
use runstate.Observables.Verdict.Tiers.{RunResult, only, exit_tier, is_empty}
use runstate.Observables.Verdict.{claim_verdict, live_episode, worker_completed}
use runstate.Observables.Verdict.Loop.{exits}
use runstate.Observables.Verdict.Rule.{rule, claim_verdict_lem}
use runstate.Observables.Verdict.Ended.{claim_verdict-endings}
use runstate.Observables.Verdict.Final.{
  claim_verdict-final, Gate, live_episode-Gate, worker_completed-exits,
}
use runstate.Channel.{last_where}
use runstate.Observables.Heartbeat.{current_heartbeat}
use runstate.Observables.Heartbeat.Newest.{wanted, current_heartbeat-last_where}
use runstate.Observables.Reads.{
  last_element, prefix_len, Prefix, newest_head, resolve, prefix, series,
}
use runstate.Observables.Reads.Threshold.{FirstOf, prefix-series}
use runstate.Vocabulary.Coordinate.{stream}
use runstate.Observables.Reads.Series.{last_element-series}
use runstate.Observables.Reads.Rows.{answers}
use runstate.Observables.Reads.Answers.{fires, answers-firings}

claim_verdict_lem_example :
    claim_verdict run claim_record 5 ≡ rule 1 (between 1 5 ending_topics run.log)
claim_verdict_lem_example = claim_verdict_lem run claim_record 5

-- The claim is held at 4, and its exit is at 5.
abbrev run_verdict : RunResult ℤ
run_verdict = record {
  outcomes = only completed;
  reports = [];
  node = some 5;
  claim_seq = some 1;
  malformed = [];
  tier = exit_tier;
  error = none;
  run_id = none;
}

held_at_four : claim_verdict run claim_record 4 ≡ ok none
unfolding claim_verdict memory_channel read topic_match
held_at_four = refl

exited : claim_verdict run claim_record 5 ≡ ok (some run_verdict)
unfolding claim_verdict memory_channel read topic_match stopped_dict parse_stopped bool_of error_of
    names_of parent_of values_of time_of exit_checks
exited = refl

claim_verdict-endings_example : true ≡ is_empty (endings run claim_record 4)
claim_verdict-endings_example = claim_verdict-endings run claim_record 4 none held_at_four

claim_verdict-final_example : ¬ (claim_verdict run claim_record 5 ≡ ok none)
unfolding memory_channel
claim_verdict-final_example =
    claim_verdict-final run run claim_record 5 5 run_verdict (Grows-refl run) (omega arith)
      (omega arith) exited

worker_completed-exits_example :
    worker_completed (some run_verdict)
    ≡ any (λ x. x.stop.completed) (exits 1 (between 1 5 ending_topics run.log))
worker_completed-exits_example = worker_completed-exits run claim_record 5 (some run_verdict) exited

live : live_episode requests ≡ ok (some "local:1")
unfolding live_episode memory_channel last_seq latest index_all read topic_match parse_started
    started_dict string_of time_of parent_of names_of
live = refl

live_episode-Gate_example : Gate requests (some "local:1")
live_episode-Gate_example = live_episode-Gate requests (some "local:1") live

abbrev closed_head : Head
closed_head = record { node = some 5; settled = true; w = 5 }

abbrev loss : Element ℤ
loss = record { node = 3; seq = 2; value = int (pos 7); t = some (pos 11) }

resolved : resolve newest_head run ≡ ok closed_head
unfolding resolve walk memory_channel read parse_commit parse_stopped commit_dict stopped_dict
    add_records seq_of watermark_of parent_of seqs_of names_of time_of bool_of error_of values_of
    exit_checks get node_at from_head chain_loop check_node check_reference kind_of judge kind
    follow next claim_of last_seq latest index_all topic_match parse_started started_dict string_of
resolved = refl

whole : series run "loss" newest_head ≡ ok (loss ∷ [])
unfolding series walk memory_channel read parse_commit parse_stopped commit_dict stopped_dict
    add_records seq_of watermark_of parent_of seqs_of names_of time_of bool_of error_of values_of
    exit_checks get node_at from_head chain_loop check_node check_reference kind_of judge kind
    follow next claim_of last_seq latest index_all topic_match parse_started started_dict string_of
    members find_record committed parse_value time_or_null_of
whole = refl

last_element-series_example :
    (last_element run "loss" newest_head ≡ ok (some loss))
    × (prefix_len run (stream "loss") newest_head ≡ ok 1)
last_element-series_example = last_element-series run "loss" newest_head (loss ∷ []) whole

prefix-series_example :
    (p : Prefix ℤ) × (prefix run "loss" (pos 2) newest_head ≡ ok p)
    × FirstOf 2 closed_head (loss ∷ []) p
prefix-series_example =
    prefix-series run "loss" 2 newest_head closed_head (loss ∷ []) resolved whole

abbrev sample_head : Head
sample_head = record { node = some 4; settled = false; w = 7 }

abbrev sample_node : At ℤ
sample_node = record {
  env = envelope 4 Topic.lifecycle_commit none (commit_dict sampled);
  node = commit sampled;
}

abbrev sample : Element ℤ
sample = record { node = 4; seq = 3; value = int (pos 7); t = some (pos 11) }

abbrev sample_walk : Walked ℤ
sample_walk = record { records = add_records (take 4 request_records) []; nodes = sample_node ∷ [] }

sample_resolved : resolve newest_head requests ≡ ok sample_head
unfolding resolve walk memory_channel read parse_commit parse_stopped commit_dict stopped_dict
    add_records seq_of watermark_of parent_of seqs_of names_of time_of bool_of error_of values_of
    exit_checks get node_at from_head chain_loop check_node check_reference kind_of judge kind
    follow next claim_of last_seq latest index_all topic_match parse_started started_dict string_of
sample_resolved = refl

sample_walked : walk requests (some 4) ≡ ok sample_walk
unfolding walk memory_channel read parse_commit parse_stopped commit_dict stopped_dict add_records
    seq_of watermark_of parent_of seqs_of names_of time_of bool_of error_of values_of exit_checks
    get node_at from_head chain_loop check_node check_reference kind_of judge kind follow next
    claim_of last_seq latest index_all topic_match parse_started started_dict string_of
sample_walked = refl

answers-sample : answers requests "r1" newest_head ≡ ok (sample ∷ [])
unfolding answers walk memory_channel read parse_commit parse_stopped commit_dict stopped_dict
    add_records seq_of watermark_of parent_of seqs_of names_of time_of bool_of error_of values_of
    exit_checks get node_at from_head chain_loop check_node check_reference kind_of judge kind
    follow next claim_of last_seq latest index_all topic_match parse_started started_dict string_of
    members find_record committed parse_value time_or_null_of fired
answers-sample = refl

answers-firings_example : (4 ∷ []) ≡ map (λ at. at.env.seq) (filter (fires "r1") sample_walk.nodes)
answers-firings_example =
    answers-firings requests "r1" newest_head sample_head sample_walk (sample ∷ []) sample_resolved
      sample_walked answers-sample

current_heartbeat-last_where_example :
    current_heartbeat run (some claim_record) ≡ last_where (wanted 1) run.log
current_heartbeat-last_where_example = current_heartbeat-last_where run claim_record
