-- ===== src/Walk/Node/Sent.antt =====
-- `node_at` of runstate/walk.py on a node that a writer sent: its topic and its dict.
use runstate.Prelude.{String, ◌≡◌, ap, ◌∙◌, true, false, some, arith, str_eq, ok}
use runstate.Json.{Number, Fields}
use runstate.Channel.{Envelope}
use runstate.Vocabulary.Topic
use runstate.Vocabulary.Payloads.Lifecycle.{Node, commit, stopped, parse_commit, parse_stopped}
use runstate.Vocabulary.Payloads.Wire.{commit_dict, stopped_dict}
use runstate.Vocabulary.Payloads.Exits.{IsStopped}
use runstate.Vocabulary.Payloads.RoundTrip.{
  IsCommit, parse_commit-commit_dict, parse_stopped-stopped_dict,
}
use runstate.Walk.Node.{node_at, verdict_parse}

module _ {F : Type 0} where
  -- The class attribute `TOPIC` of the node's body.
  abbrev pub node_topic : Node F → String
  node_topic (commit c) = Topic.lifecycle_commit
  node_topic (stopped s) = Topic.lifecycle_stopped

  -- `asdict(node)`.
  abbrev pub node_dict : Node F → Fields F
  node_dict (commit c) = commit_dict c
  node_dict (stopped s) = stopped_dict s

module _ {F : Type 0} ⦃num : Number F⦄ where
  abbrev pub IsNode : Node F → Type 0
  IsNode (commit c) = IsCommit c
  IsNode (stopped s) = IsStopped s

  -- A valid node, commit or exit, that is sent on its topic as its dict is read back as itself.
  pub node_at-node_dict :
      (e : Envelope F) (n : Node F)
      → IsNode n
      → e.topic ≡ node_topic n
      → e.body ≡ node_dict n
      → node_at e ≡ ok (some (record { env = e; node = n }))
  unfolding node_at verdict_parse
  node_at-node_dict e (commit c) v t b =
      let same : str_eq e.topic Topic.lifecycle_commit ≡ true =
        ap (λ x. str_eq x Topic.lifecycle_commit) t in
      let parses : parse_commit e.body ≡ ok c = ap parse_commit b ∙ parse_commit-commit_dict c v in
      ground (arith, same, parses)
  node_at-node_dict e (stopped s) v t b =
      let other : str_eq e.topic Topic.lifecycle_commit ≡ false =
        ap (λ x. str_eq x Topic.lifecycle_commit) t in
      let same : str_eq e.topic Topic.lifecycle_stopped ≡ true =
        ap (λ x. str_eq x Topic.lifecycle_stopped) t in
      let parses : parse_stopped e.body ≡ ok s =
        ap parse_stopped b ∙ parse_stopped-stopped_dict s v in
      ground (arith, other, same, parses)
