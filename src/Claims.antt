-- ===== src/Claims.antt =====
-- runstate/claims.py: which claim a record names, which it ends, and what ends a claim.
pub mod Search
pub mod Bindings
pub mod Windowed
pub mod Named
use runstate.Prelude.{
  ℕ, String, Bool, true, false, not, ◌&&◌, ◌||◌, Option, none, some, List, [], ◌∷◌, str_eq, ltb,
  leb, ◌==◌, if◌then◌else◌, filter, any,
}
use runstate.Json.{Number, Json, Fields, get}
use runstate.Channel.{Envelope}
use runstate.Channel.Interface.{Channel}
use runstate.Channel.Windows.{window}
use runstate.Vocabulary.Topic
use runstate.Vocabulary.Checks.{seq_of, watermark_of}
use runstate.Vocabulary.Payloads.Lifecycle.{Stopped, parse_stopped}
use runstate.Walk.Node.{readable}

abbrev pub is_ending_topic : String → Bool
is_ending_topic t = str_eq t Topic.lifecycle_stopped || str_eq t Topic.supervisor_died

abbrev pub if_below : ℕ → Option ℕ → Option ℕ
if_below seq none = none
if_below seq (some c) = if ltb c seq then some c else none

abbrev pub names_claim : Option ℕ → ℕ → Bool
names_claim none c = false
names_claim (some k) c = k == c

abbrev pub ending_topics : List String
ending_topics = Topic.lifecycle_stopped ∷ Topic.supervisor_died ∷ []

abbrev pub name_list : Option String → List String
name_list none = []
name_list (some r) = r ∷ []

module _ {F : Type 0} where
  -- An empty request id is no name.
  unfoldable pub request_name : Envelope F → Option String
  request_name e = elim e.request_id [ none ↦ none | some r ↦ if str_eq r "" then none else some r ]

  -- The claim that a record's `claim_seq` names, whatever its other fields hold.
  unfoldable pub named_claim : Envelope F → Option ℕ
  unfolding seq_of
  named_claim e = elim (get "claim_seq" e.body) [ none ↦ none | some j ↦ seq_of j ]

  -- The claim that a record ends, if any: by its presence alone.
  unfoldable pub ends : Envelope F → Option ℕ
  unfolding named_claim
  ends e = if not (is_ending_topic e.topic) then none else if_below e.seq (named_claim e)

  unfoldable pub claim_window : Channel F → Envelope F → ℕ → List String → List (Envelope F)
  unfolding window
  claim_window ch claim w topics =
      if leb w claim.seq then [] else window ch claim.seq w (some topics)

  -- The records at or below `w` that end a claim.
  unfoldable pub endings : Channel F → Envelope F → ℕ → List (Envelope F)
  unfolding claim_window ends
  endings ch claim w =
      filter (λ e. names_claim (ends e) claim.seq) (claim_window ch claim w ending_topics)

module _ {F : Type 0} ⦃num : Number F⦄ where
  abbrev pub honored_by : Option (Stopped F) → List String
  honored_by none = []
  honored_by (some s) = filter (λ r. not (str_eq r "")) s.honored

  -- The request ids that a record spends by name.
  unfoldable pub spent_by : Envelope F → List String
  unfolding readable request_name
  spent_by e =
      if str_eq e.topic Topic.lifecycle_stopped
      then honored_by (readable parse_stopped e)
      else if str_eq e.topic Topic.control_withdraw || str_eq e.topic Topic.lifecycle_nak
      then name_list (request_name e)
      else []

  abbrev pub is_readable : Option (Stopped F) → Bool
  is_readable none = false
  is_readable (some s) = true

  -- Has the claim a readable exit among its endings?
  unfoldable pub has_exit : List (Envelope F) → Bool
  unfolding readable
  has_exit es =
      any (λ e. str_eq e.topic Topic.lifecycle_stopped && is_readable (readable parse_stopped e)) es
