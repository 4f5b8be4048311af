-- ===== src/Claims/Search.antt =====
-- `backward`, `claim_before` and `watermark` of runstate/claims.py: searches back from a seq in
-- windows that grow by 4x. A generator is the list of what it yields.
pub mod Windows
pub mod Mark
use runstate.Prelude.{
  ℕ, zero, suc, ◌-◌, ◌*◌, max, String, not, Option, none, some, List, [], ◌∷◌, ◌++◌, reverse,
  str_eq, ltb, if◌then◌else◌, first,
}
use runstate.Channel.{Envelope}
use runstate.Json.{get}
use runstate.Channel.Interface.{Channel}
use runstate.Channel.Windows.{window}
use runstate.Vocabulary.Topic
use runstate.Vocabulary.Checks.{watermark_of}
use runstate.Walk.Backward.{first_window}
use runstate.Claims.{named_claim, names_claim}

abbrev pub mark_topics : List String
mark_topics = Topic.lifecycle_commit ∷ Topic.lifecycle_heartbeat ∷ Topic.lifecycle_stopped ∷ []

module _ {F : Type 0} where
  -- `while hi > after`. A window lowers `hi`, so `hi` rounds are enough.
  unfoldable pub backward_loop : Channel F → ℕ → ℕ → ℕ → ℕ → List String → List (Envelope F)
  unfolding window
  backward_loop ch zero after hi width topics = []
  backward_loop ch (suc fuel) after hi width topics =
      let lo = max after (hi - width) in
      let rest = backward_loop ch fuel after lo (width * 4) topics in
      if ltb after hi then reverse (window ch lo hi (some topics)) ++ rest else []

  unfoldable pub backward : Channel F → ℕ → ℕ → List String → List (Envelope F)
  unfolding backward_loop
  backward ch after hi topics = backward_loop ch hi after hi first_window topics

  -- The newest claim below a seq.
  unfoldable pub claim_before : Channel F → ℕ → Option (Envelope F)
  unfolding backward
  claim_before ch seq = first (backward ch 0 (seq - 1) (Topic.lifecycle_started ∷ []))

  abbrev pub consumed : Envelope F → Option ℕ
  consumed e = elim (get "consumed_seq" e.body) [ none ↦ none | some j ↦ watermark_of j ]

  -- The loop of `watermark` over what the search yields.
  unfoldable pub first_mark : ℕ → List (Envelope F) → Option ℕ
  unfolding named_claim watermark_of
  first_mark claim [] = none
  first_mark claim (e ∷ es) =
      let rest = first_mark claim es in
      if not (names_claim (named_claim e) claim)
      then rest
      else if str_eq e.topic Topic.lifecycle_stopped
      then some e.seq
      else (elim (consumed e) [ some c ↦ some c | none ↦ rest ])

  unfoldable pub watermark : Channel F → Envelope F → ℕ → Option ℕ
  unfolding backward first_mark
  watermark ch claim w = first_mark claim.seq (backward ch claim.seq w mark_topics)
