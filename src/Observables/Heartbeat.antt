-- ===== src/Observables/Heartbeat.antt =====
-- `current_heartbeat` of runstate/observables.py: a claim's newest commit or heartbeat.
pub mod Search
pub mod Newest
use runstate.Prelude.{
  ℕ, zero, suc, ◌-◌, ◌*◌, max, String, ◌&&◌, Option, none, some, List, [], ◌∷◌, reverse, ltb, leb,
  if◌then◌else◌,
}
use runstate.Prelude.Int.{pos}
use runstate.Channel.{Envelope, Query}
use runstate.Channel.Interface.{Channel}
use runstate.Vocabulary.Topic
use runstate.Walk.Backward.{first_window}
use runstate.Claims.{named_claim, names_claim}

abbrev pub beat_topics : List String
beat_topics = Topic.lifecycle_commit ∷ Topic.lifecycle_heartbeat ∷ []

abbrev pub beats_query : Query
beats_query = record { topics = some beat_topics; name = none; request_ids = none; limit = none }

module _ {F : Type 0} where
  -- `e is not None and e.seq > claim.seq`.
  abbrev pub if_above : ℕ → Option (Envelope F) → Option (Envelope F)
  if_above c none = none
  if_above c (some e) = if ltb c e.seq then some e else none

  -- `max(newest, key=lambda e: e.seq)`.
  abbrev pub newer : Option (Envelope F) → Option (Envelope F) → Option (Envelope F)
  newer none o = o
  newer (some a) none = some a
  newer (some a) (some b) = if ltb a.seq b.seq then some b else some a

  -- The `for` loop, over the window newest first.
  unfoldable pub first_naming : ℕ → ℕ → List (Envelope F) → Option (Envelope F)
  unfolding named_claim
  first_naming c hi [] = none
  first_naming c hi (e ∷ es) =
      let rest = first_naming c hi es in
      if leb e.seq hi && names_claim (named_claim e) c then some e else rest

  abbrev pub or_found : Option (Envelope F) → Option (Envelope F) → Option (Envelope F)
  or_found (some e) o = some e
  or_found none o = o

  -- `while hi > claim.seq`. A window lowers `hi`, so `hi` rounds are enough.
  unfoldable pub search_back : Channel F → ℕ → ℕ → ℕ → ℕ → Option (Envelope F)
  unfolding first_naming
  search_back ch zero c hi width = none
  search_back ch (suc fuel) c hi width =
      let lo = max c (hi - width) in
      let rest = search_back ch fuel c lo (width * 4) in
      if ltb c hi
      then or_found (first_naming c hi (reverse (ch.read (pos lo) beats_query))) rest
      else none

  abbrev pub verify : Channel F → ℕ → Option (Envelope F) → Option (Envelope F)
  verify ch c none = none
  verify ch c (some top) =
      if names_claim (named_claim top) c
      then some top
      else search_back ch top.seq c top.seq first_window

  unfoldable pub current_heartbeat : Channel F → Option (Envelope F) → Option (Envelope F)
  unfolding named_claim search_back
  current_heartbeat ch none = none
  current_heartbeat ch (some claim) = verify ch claim.seq (
      newer (if_above claim.seq (ch.latest Topic.lifecycle_commit none))
        (if_above claim.seq (ch.latest Topic.lifecycle_heartbeat none)))
