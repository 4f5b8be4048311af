-- ===== src/Observables/Demand/Lineage.antt =====
-- The lineage that the answer fold of runstate/observables.py is placed on, and `live_demand`.
use runstate.Prelude.{
  ℕ, String, Bool, true, Option, none, some, List, [], ◌∷◌, ◌++◌, reverse, ltb, ◌==◌, if◌then◌else◌,
  filter, Result, ◌>>=◌, ok, err,
}
use runstate.Json.{Number}
use runstate.Channel.{Envelope}
use runstate.Channel.Interface.{Channel}
use runstate.Vocabulary.Topic
use runstate.Vocabulary.Payloads.Lifecycle.{expired}
use runstate.Walk.Node.{WalkError, At}
use runstate.Walk.Backward.{find_record}
use runstate.Walk.Chain.{chain, nodes_in}
use runstate.Observables.Tail.{pass}
use runstate.Observables.Held.{run}
use runstate.Observables.Head.{Head, latest_claim_head}
use runstate.Observables.Demand.{
  Demand, rewalked, no_demand, is_node_topic, apply, placing, placed, live,
}

-- `_Descending`: the records not yet consumed, those got, and the lowest seq consumed.
pub record Descending (F : Type 0) : Type 0 where
  pub rest : List (Envelope F)
  pub got : List (ℕ × Envelope F)
  pub lo : Option ℕ

pub record HeadLineage (F : Type 0) : Type 0 where
  pub tip : Option (At F)
  pub expired : List String

-- `self._lo is None or self._lo > seq`.
abbrev pub goes_on : Option ℕ → ℕ → Bool
goes_on none seq = true
goes_on (some lo) seq = ltb seq lo

module _ {F : Type 0} where
  -- `__init__`.
  abbrev pub descending : List (Envelope F) → Descending F
  descending es = record { rest = es; got = []; lo = none }

  -- The loop of `get`, over the records not yet consumed.
  unfoldable pub descend : ℕ → List (Envelope F) → List (ℕ × Envelope F) → Option ℕ → Descending F
  descend seq [] got lo = record {
    rest = [];
    got = got;
    lo = if goes_on lo seq then some 0 else lo;
  }
  descend seq (e ∷ es) got lo =
      let further = descend seq es ((e.seq, e) ∷ got) (some e.seq) in
      if goes_on lo seq then further else record { rest = e ∷ es; got = got; lo = lo }

  unfoldable pub get : ℕ → Descending F → Option (Envelope F) × Descending F
  unfolding descend
  get seq s = let s' = descend seq s.rest s.got s.lo in (find_record seq s'.got, s')

  unfoldable pub last_node : List (At F) → Option (At F)
  last_node [] = none
  last_node (at ∷ []) = some at
  last_node (at ∷ at' ∷ ats) = last_node (at' ∷ ats)

  abbrev pub all_expired : List (At F) → List String
  all_expired [] = []
  all_expired (at ∷ ats) = expired at.node ++ all_expired ats

abbrev pub demand_topics : List String
demand_topics =
    Topic.control_subscribe ∷ Topic.control_withdraw ∷ Topic.lifecycle_nak ∷ Topic.lifecycle_commit
    ∷ Topic.lifecycle_stopped ∷ Topic.lifecycle_bound ∷ Topic.lifecycle_started
    ∷ Topic.supervisor_died ∷ []

module _ {F : Type 0} ⦃num : Number F⦄ where
  abbrev pub lineage_of : Result WalkError (List (At F)) → Result WalkError (HeadLineage F)
  lineage_of (ok nodes) = ok (record { tip = last_node nodes; expired = all_expired nodes })
  lineage_of (err x) = err x

  -- `_head_lineage`.
  unfoldable pub head_lineage : Option ℕ → List (Envelope F) → Result WalkError (HeadLineage F)
  unfolding chain nodes_in get last_node expired
  head_lineage none below = ok (record { tip = none; expired = [] })
  head_lineage (some node) below = lineage_of (chain node (nodes_in get) none (descending below)).0

  abbrev pub live_at : Demand F → List (Envelope F) → Head → Result WalkError (List (Envelope F))
  live_at d nodes h =
      if h.settled
      then ok []
      else if placing d
      then (do l ← head_lineage h.node (reverse nodes); ok (live (placed d (rewalked l.expired))))
      else ok (live d)

  unfoldable pub live_demand : Channel F → Result WalkError (List (Envelope F))
  unfolding pass apply latest_claim_head head_lineage placing placed live
  live_demand ch =
      if ch.last_seq == 0
      then ok []
      else (let es = pass ch ch.last_seq demand_topics in
          latest_claim_head ch ch.last_seq
          >>= live_at (run apply no_demand es) (filter (λ e. is_node_topic e.topic) es))
