-- ===== src/Observables/Stops.antt =====
-- The stop fold of runstate/observables.py: `_Stops`, `undischarged_stops` and `PendingStops`.
pub mod Poll
pub mod Pending
use runstate.Prelude.{
  String, not, Option, none, some, List, [], ◌∷◌, ◌++◌, map, str_eq, ◌==◌, if◌then◌else◌, filter,
  str_mem,
}
use runstate.Json.{Number}
use runstate.Channel.{Envelope}
use runstate.Channel.Interface.{Channel}
use runstate.Vocabulary.Topic
use runstate.Claims.{request_name, spent_by}
use runstate.Observables.Tail.{pass}
use runstate.Observables.Held.{Held, run, read_on}

-- `_pending`, a dict in insertion order, and `_spent`.
pub record Stops (F : Type 0) : Type 0 where
  pub pending : List (String × Envelope F)
  pub spent : List String

abbrev pub stop_topics : List String
stop_topics =
    Topic.control_stop ∷ Topic.lifecycle_stopped ∷ Topic.control_withdraw ∷ Topic.lifecycle_nak ∷ []

module _ {F : Type 0} where
  abbrev pub no_stops : Stops F
  no_stops = record { pending = []; spent = [] }

  -- `_pending.pop(r, None)`.
  abbrev pub without : String → List (String × Envelope F) → List (String × Envelope F)
  without r ps = filter (λ p. not (str_eq p.0 r)) ps

  unfoldable pub spend : Stops F → List String → Stops F
  spend s [] = s
  spend s (r ∷ rs) = spend (record { pending = without r s.pending; spent = r ∷ s.spent }) rs

  -- The stop that a record sends, by its id.
  abbrev pub stop_name : Envelope F → Option String
  stop_name e = if str_eq e.topic Topic.control_stop then request_name e else none

  abbrev pub add_stop : Stops F → Envelope F → Option String → Stops F
  add_stop s e none = s
  add_stop s e (some r) =
      if str_mem r s.spent then s else record s { pending = without r s.pending ++ (r, e) ∷ [] }

  abbrev pub sends : List (String × Envelope F) → List (Envelope F)
  sends ps = map (λ p. p.1) ps

module _ {F : Type 0} ⦃num : Number F⦄ where
  unfoldable pub apply : Stops F → Envelope F → Stops F
  unfolding spend spent_by request_name
  apply s e = add_stop (spend s (spent_by e)) e (stop_name e)

  unfoldable pub undischarged_stops : Channel F → List (Envelope F)
  unfolding apply pass
  undischarged_stops ch =
      if ch.last_seq == 0
      then []
      else sends (run apply no_stops (pass ch ch.last_seq stop_topics)).pending

  -- `PendingStops`: `poll`.
  unfoldable pub poll : Channel F → Held (Stops F) → List (Envelope F) × Held (Stops F)
  unfolding apply read_on
  poll ch f = let f' = read_on apply ch ch.last_seq stop_topics f in (sends f'.state.pending, f')
