-- ===== src/Observables/Stops/Poll.antt =====
-- `PendingStops.poll` of runstate/observables.py.
use runstate.Prelude.{◌≤◌, ◌≡◌, refl, sym, ap, ◌∙◌, inl, inr, arith, ◌==◌, Bool-cases, length}
use runstate.Json.{Number}
use runstate.Channel.Interface.{Channel}
use runstate.Channel.Growth.{Grows}
use runstate.Observables.Tail.{pass_lem, between, none_between}
use runstate.Observables.Held.{Held, IsHeld, run, poll-IsHeld}
use runstate.Observables.Stops.{
  Stops, no_stops, stop_topics, sends, apply, undischarged_stops, poll,
}

module _ {F : Type 0} ⦃num : Number F⦄ where
  abbrev pub HoldsStops : Channel F → Held (Stops F) → Type 0
  HoldsStops ch f = IsHeld apply no_stops stop_topics ch f

  -- What the one-shot read answers, by the log alone.
  pub undischarged_stops_lem :
      (ch : Channel F)
      → undischarged_stops ch
        ≡ sends (run apply no_stops (between 0 (length ch.log) stop_topics ch.log)).pending
  unfolding undischarged_stops
  undischarged_stops_lem ch = elim (Bool-cases (ch.last_seq == 0)) [
    | inl z ↦
        let nothing : length ch.log ≤ 0 = ground (arith, ch.last_seq_lem) in
        rw (z, none_between 0 (length ch.log) stop_topics ch.log nothing) refl
    | inr more ↦ rw (more, pass_lem ch ch.last_seq stop_topics, ch.last_seq_lem) refl
  ]

  -- A fold polled on a log, then on the log as it has grown, answers each time what the one-shot
  -- read answers there.
  pub poll-undischarged_stops :
      (ch ch' : Channel F) (f : Held (Stops F))
      → HoldsStops ch f
      → Grows ch ch'
      → ((poll ch' f).0 ≡ undischarged_stops ch') × HoldsStops ch' (poll ch' f).1
  unfolding poll
  poll-undischarged_stops ch ch' f h g =
      let held = poll-IsHeld apply no_stops stop_topics ch ch' f h g in
      (ap (λ s. sends s.pending) held.1 ∙ sym (undischarged_stops_lem ch'), held.0)
