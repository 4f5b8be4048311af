-- ===== src/Examples/Walks.antt =====
-- The theorems on node bodies and on walks, at a run of five records whose exit extends its commit.
use runstate.Prelude.{◌≡◌, refl, ◌≢◌, ◌↔◌, inl, inr, none, some, [], ◌∷◌, arith, ok, err}
use runstate.Prelude.Int.{ℤ}
use runstate.Vocabulary.Checks.{
  seq_of, watermark_of, parent_of, seqs_of, names_of, time_of, bool_of, error_of, values_of,
  unique_nats, unique_names,
}
use runstate.Vocabulary.Payloads.Lifecycle.{
  commit, stopped, exit_checks, claim_of, committed, parse_commit, parse_started, parse_stopped,
}
use runstate.Vocabulary.Payloads.Wire.{commit_dict, started_dict, stopped_dict}
use runstate.Vocabulary.Payloads.Exits.{IsStopped, IsStoppedBody}
use runstate.Vocabulary.Payloads.RoundTrip.{IsCommit, parse_stopped-IsStopped}
use runstate.Walk.Chain.{from_head, chain_loop, kind_of, follow, next}
use runstate.Walk.Node.Sent.{node_at-node_dict}
use runstate.Walk.Node.Reference.{check_node, check_reference, judge}
use runstate.Walk.Node.{node_at, kind, out_of_fuel, assertion, At}
use runstate.Walk.Backward.{get, start}
use runstate.Walk.Backward.Lookup.{IsLoaded, start-IsLoaded, get_lem, in_reach}
use runstate.Vocabulary.Checks.{string_of}
use runstate.Walk.Membership.{members}
use runstate.Walk.Membership.Elements.{elements_in, members_lem}
use runstate.Walk.Lineage.{Walked, walk}
use runstate.Walk.Lineage.Loaded.{IsWalk, walk-IsWalk, walk-ends}
use runstate.Examples.{int_number, commit_body, stopped_body, envelope, run_records}
use runstate.Vocabulary.Topic
use runstate.Channel.Memory.{read}
use runstate.Channel.Memory.Handle.{memory_channel}
use runstate.Walk.Backward.{add_records, find_record}
use runstate.Examples.Logs.{run}

commit_body-IsCommit : IsCommit commit_body
unfolding unique_nats unique_names
commit_body-IsCommit = record {
  claim = omega arith;
  parent = tt;
  values = ((omega arith, tt), refl);
  fired = ((refl, tt), refl);
  expired = (tt, refl);
  time = refl;
}

commit_reads : parse_commit (commit_dict commit_body) ≡ ok commit_body
unfolding parse_commit commit_dict seq_of watermark_of parent_of seqs_of names_of time_of
commit_reads = refl

stopped_body-IsStopped : IsStopped stopped_body
unfolding unique_nats unique_names
stopped_body-IsStopped = record {
  claim = omega arith;
  honored = ((refl, tt), refl);
  parent = omega arith;
  values = (tt, refl);
  fired = (tt, refl);
  expired = ((refl, tt), refl);
  time = refl;
  clean = inr refl;
  discards = inl refl;
  silent = inl refl;
}

node_at-node_dict_example :
    node_at (envelope 5 Topic.lifecycle_stopped none (stopped_dict stopped_body))
    ≡ ok (
        some (record {
          env = envelope 5 Topic.lifecycle_stopped none (stopped_dict stopped_body);
          node = stopped stopped_body;
        }))
node_at-node_dict_example =
    node_at-node_dict (envelope 5 Topic.lifecycle_stopped none (stopped_dict stopped_body))
      (stopped stopped_body) stopped_body-IsStopped refl refl

parse_stopped-IsStopped_example :
    (parse_stopped (stopped_dict stopped_body) ≡ ok stopped_body)
    ↔ (IsStopped stopped_body × IsStoppedBody (stopped_dict stopped_body) stopped_body)
parse_stopped-IsStopped_example = parse_stopped-IsStopped (stopped_dict stopped_body) stopped_body

get_lem_example :
    ((get run 5 3 (start 5)).0 ≡ in_reach run 5 3) × IsLoaded run 5 (get run 5 3 (start 5)).1
get_lem_example = get_lem run 5 3 (start 5) (start-IsLoaded run 5)

abbrev commit_node : At ℤ
commit_node = record {
  env = envelope 3 Topic.lifecycle_commit none (commit_dict commit_body);
  node = commit commit_body;
}

abbrev exit_node : At ℤ
exit_node = record {
  env = envelope 5 Topic.lifecycle_stopped none (stopped_dict stopped_body);
  node = stopped stopped_body;
}

-- The records that the walk of node 5 holds: one window takes in the whole log.
abbrev walked : Walked ℤ
walked = record { records = add_records run_records []; nodes = commit_node ∷ exit_node ∷ [] }

walked-run : walk run (some 5) ≡ ok walked
unfolding walk memory_channel read parse_commit parse_stopped commit_dict stopped_dict add_records
    seq_of watermark_of parent_of seqs_of names_of time_of bool_of error_of values_of exit_checks
    get node_at from_head chain_loop check_node check_reference kind_of judge kind follow next
    claim_of
walked-run = refl

walk-IsWalk_example : IsWalk run 5 walked
walk-IsWalk_example = walk-IsWalk run 5 walked walked-run

walk-ends_example : (walk run (some 5) ≢ err out_of_fuel) × (walk run (some 5) ≢ err assertion)
walk-ends_example = walk-ends run (some 5)

walked-members : members walked "loss" ≡ ok ((commit_node, 2) ∷ [])
unfolding members parse_started started_dict commit_dict stopped_dict add_records find_record
    string_of time_of parent_of names_of committed
walked-members = refl

members_lem_example : ((commit_node, 2) ∷ []) ≡ elements_in walked "loss" walked.nodes
members_lem_example = members_lem walked "loss" ((commit_node, 2) ∷ []) walked-members
