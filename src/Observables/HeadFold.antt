-- ===== src/Observables/HeadFold.antt =====
-- The class `HeadFold` of runstate/observables.py: `LatestClaimHead`, held between polls.
pub mod Poll
use runstate.Prelude.{
  ℕ, Bool, true, false, ◌&&◌, Option, none, some, ltb, if◌then◌else◌, Result, err,
}
use runstate.Json.{Number}
use runstate.Channel.{Envelope}
use runstate.Channel.Interface.{Channel}
use runstate.Walk.Node.{WalkError, value_error, below_cursor, point}
use runstate.Observables.Held.{Held, read_on}
use runstate.Observables.Head.{Head, ClaimHead, unclaimed, apply, head, newest_claim}
use runstate.Observables.Head.Fold.{head_topics, step}

abbrev pub is_unclaimed : Option ℕ → Bool
is_unclaimed none = true
is_unclaimed (some c) = false

module _ {F : Type 0} where
  -- The constructor.
  abbrev pub new_head_fold : Held (ClaimHead F)
  new_head_fold = record { cursor = 0; state = unclaimed }

  abbrev pub by_point : Channel F → ℕ → ℕ → Option (Envelope F)
  by_point ch w seq = point ch seq w

module _ {F : Type 0} ⦃num : Number F⦄ where
  abbrev pub start_at :
      Channel F → ℕ → Held (ClaimHead F) → Option (Envelope F) → Held (ClaimHead F)
  start_at ch w f none = record f { cursor = w }
  start_at ch w f (some c) = record { cursor = c.seq; state = apply f.state c (by_point ch w) }

  -- The first poll of a claimed run starts at its newest claim.
  unfoldable pub begin : Channel F → ℕ → Held (ClaimHead F) → Held (ClaimHead F)
  unfolding newest_claim apply point
  begin ch w f =
      if is_unclaimed f.state.claim && ltb f.cursor w
      then start_at ch w f (newest_claim ch w)
      else f

  unfoldable pub poll_at :
      Channel F → ℕ → Held (ClaimHead F) → Result WalkError Head × Held (ClaimHead F)
  unfolding begin read_on head
  poll_at ch w f =
      let f' = read_on (step (by_point ch w)) ch w head_topics (begin ch w f) in
      if ltb w f.cursor then (err (value_error below_cursor), f) else (head f'.state w, f')

  unfoldable pub poll : Channel F → Held (ClaimHead F) → Result WalkError Head × Held (ClaimHead F)
  unfolding poll_at
  poll ch f = poll_at ch ch.last_seq f
