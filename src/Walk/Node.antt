-- ===== src/Walk/Node.antt =====
-- The malformed records, the nodes, their kinds and their checks of runstate/walk.py.
pub mod Reference
pub mod Sent
use runstate.Prelude.{
  ℕ, ◌-◌, String, ◌&&◌, Option, none, some, List, [], ◌∷◌, str_eq, leb, ◌==◌, if◌then◌else◌, Result,
  ◌>>=◌, ◌>>◌, ok, err,
}
use runstate.Prelude.Int.{pos}
use runstate.Json.{Number, Fields}
use runstate.Channel.{Envelope, Query}
use runstate.Channel.Interface.{Channel}
use runstate.Vocabulary.Topic
use runstate.Vocabulary.Checks.{BodyError}
use runstate.Vocabulary.Payloads.Lifecycle.{
  Node, commit, stopped, parse_commit, parse_stopped, extendable, closed, committed, parent,
}

pub data NodeKind : Type 0 where
  extendable_node closed_node torn_node : NodeKind

-- What `detail` of a `MalformedRecordError` says.
pub data Detail : Type 0 where
  bad_body : BodyError → Detail
  at_or_above : String → ℕ → Detail
  names_no_node : String → ℕ → Detail
  names_kind : String → ℕ → NodeKind → Detail
  values_above : List ℕ → Detail
  names_no_value : ℕ → Detail
  names_no_claim : ℕ → Detail
  committed_twice : ℕ → Detail
  exited_at : ℕ → Detail
  not_position : Option ℕ → Option ℕ → Detail
  names_no_launch : Detail
  unsubscribed : String → Detail
  not_one_sample : String → String → ℕ → Detail

-- The `ValueError`s of runstate/observables.py: of a head, of a verdict, of `AtNode`, of a fold polled
-- below its cursor, of a count below 0, and of a strict `zip`.
pub data ValueError : Type 0 where
  bad_head bad_verdict below_cursor not_a_count not_zipped : ValueError
  no_record_at not_a_node_at : ℕ → ValueError

-- What a read raises: `MalformedRecordError`, the `ValueError` of a head that is no node and the other
-- `ValueError`s, the `KeyError` of a seq that a walk does not hold, and the `AssertionError` of a
-- parent that `check_node` found and the lookup then does not.
pub data WalkError : Type 0 where
  malformed : ℕ → String → Detail → WalkError
  not_a_node : ℕ → WalkError
  assertion : WalkError
  out_of_fuel : WalkError
  value_error : ValueError → WalkError
  key_error : ℕ → WalkError

module _ {F A : Type 0} where
  abbrev wrap : Envelope F → Result BodyError A → Result WalkError A
  wrap e (ok a) = ok a
  wrap e (err x) = err (malformed e.seq e.topic (bad_body x))

  -- `verdict_parse(cls, e)`, with the class's constructor `parse`.
  unfoldable pub verdict_parse :
      (parse : Fields F → Result BodyError A) → Envelope F → Result WalkError A
  verdict_parse parse e = wrap e (parse e.body)

  -- `readable(cls, e)`.
  unfoldable pub readable : (parse : Fields F → Result BodyError A) → Envelope F → Option A
  unfolding verdict_parse
  readable parse e = elim (verdict_parse parse e) [ ok a ↦ some a | err x ↦ none ]

-- A node: its record, and its parsed body.
pub record At (F : Type 0) : Type 0 where
  pub env : Envelope F
  pub node : Node F

module _ {F : Type 0} where
  unfoldable pub kind : Node F → NodeKind
  unfolding extendable closed
  kind n = if extendable n then extendable_node else if closed n then closed_node else torn_node

  abbrev pub kind_of_at : Option (At F) → Option NodeKind
  kind_of_at none = none
  kind_of_at (some at) = some (kind at.node)

  abbrev pub same_seq : ℕ → List (Envelope F) → Option (Envelope F)
  same_seq seq [] = none
  same_seq seq (e ∷ es) = if e.seq == seq then some e else none

  -- `point(ch, seq, w=w)`: one record by a read of one row.
  unfoldable pub point : Channel F → ℕ → ℕ → Option (Envelope F)
  point ch seq w =
      if leb 1 seq && leb seq w
      then same_seq seq (
          ch.read (pos (seq - 1))
            (record { topics = none; name = none; request_ids = none; limit = some 1 }))
      else none

module _ {F : Type 0} ⦃num : Number F⦄ where
  unfoldable pub node_at : Envelope F → Result WalkError (Option (At F))
  unfolding verdict_parse
  node_at e =
      if str_eq e.topic Topic.lifecycle_commit
      then (do c ← verdict_parse parse_commit e; ok (some (record { env = e; node = commit c })))
      else if str_eq e.topic Topic.lifecycle_stopped
      then (do s ← verdict_parse parse_stopped e; ok (some (record { env = e; node = stopped s })))
      else ok none

  unfoldable pub kind_at : Option (Envelope F) → Result WalkError (Option NodeKind)
  unfolding node_at kind
  kind_at none = ok none
  kind_at (some e) = do at ← node_at e; ok (kind_of_at at)
