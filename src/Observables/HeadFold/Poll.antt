-- ===== src/Observables/HeadFold/Poll.antt =====
-- `HeadFold.poll` of runstate/observables.py.
use runstate.Prelude.{
  ℕ, ◌≤◌, String, ◌≡◌, refl, sym, ap, ◌∙◌, inl, inr, false, ◌&&◌, Option, none, some, List, [], ◌∷◌,
  ◌++◌, arith, str_eq, ltb, leb, leb→le, Bool-cases, Option-cases, and_left, and_right, length,
}
use runstate.Json.{Number}
use runstate.Channel.{Envelope, last_where}
use runstate.Channel.Interface.{Channel}
use runstate.Channel.Growth.{Grows, Grows-refl, Grows-length, Grows-IsAfter, within-Grows}
use runstate.Channel.Last.{last_where-same, last_where-none, last_where-narrow, last_where-found}
use runstate.Channel.Windows.{IsAfter, IsAfter-log}
use runstate.Vocabulary.Topic
use runstate.Walk.Backward.Lookup.{at_seq, at_seq-above}
use runstate.Observables.Tail.{between, none_between, All-between}
use runstate.Observables.Held.{Held, run, read_on, read_on-IsHeld, read_on_cursor}
use runstate.Observables.Head.{ClaimHead, unclaimed, move_topics, head, latest_claim_head}
use runstate.Observables.Head.Point.{newest_spec}
use runstate.Observables.Head.Fold.{
  head_topics, step, step-claim, step-agree, head_fold, run-agree, run-newest, run-unclaimed,
  point-agree, is_claim, newest_claim_lem, latest_claim_head_lem,
}
use runstate.Observables.HeadFold.{is_unclaimed, by_point, begin, poll_at, new_head_fold}

module _ {F : Type 0} where
  at_seq-append :
      (m k : ℕ) (es more : List (Envelope F))
      → IsAfter m more
      → k ≤ m
      → at_seq k (es ++ more) ≡ at_seq k es
  at_seq-append m k [] more h le = at_seq-above m k more le h
  at_seq-append m k (e ∷ es) more h le = ground (arith, at_seq-append m k es more h le)

  pub at_seq-Grows :
      (ch ch' : Channel F) (k : ℕ)
      → Grows ch ch'
      → k ≤ length ch.log
      → at_seq k ch'.log ≡ at_seq k ch.log
  at_seq-Grows ch ch' k g le =
      rw g.grown (at_seq-append (length ch.log) k ch.log g.more (Grows-IsAfter ch ch' g) le)

  narrowed :
      (ch : Channel F) (t : String) (c w : ℕ)
      → c ≤ w
      → newest_spec t c ch.log
        ≡ last_where (λ e. leb e.seq c && (leb e.seq w && str_eq e.topic t)) ch.log
  narrowed ch t c w le =
      last_where-same 0 (λ e. leb e.seq c && str_eq e.topic t)
        (λ e. leb e.seq c && (leb e.seq w && str_eq e.topic t)) ch.log (IsAfter-log ch)
        (λ e a. ground arith)

  none_below :
      (ch : Channel F) (t : String) (c w : ℕ)
      → c ≤ w
      → newest_spec t w ch.log ≡ none
      → newest_spec t c ch.log ≡ none
  none_below ch t c w le h =
      narrowed ch t c w le
      ∙ last_where-none (λ e. leb e.seq w && str_eq e.topic t) (λ e. leb e.seq c) ch.log h

  newest_at :
      (ch : Channel F) (t : String) (w : ℕ) (c : Envelope F)
      → c.seq ≤ w
      → newest_spec t w ch.log ≡ some c
      → newest_spec t c.seq ch.log ≡ some c
  newest_at ch t w c le h =
      narrowed ch t c.seq w le
      ∙ last_where-narrow (λ e. leb e.seq w && str_eq e.topic t) (λ e. leb e.seq c.seq) ch.log c h
          (ground arith)

module _ {F : Type 0} ⦃num : Number F⦄ where
  -- A `HeadFold` that has applied what the log has up to its cursor.
  pub record IsHeadHeld (ch : Channel F) (f : Held (ClaimHead F)) : Type 0 where
    pub reached : f.cursor ≤ length ch.log
    pub folded : f.state ≡ head_fold ch.log f.cursor

  head_fold-Grows :
      (ch ch' : Channel F) (c : ℕ)
      → Grows ch ch'
      → c ≤ length ch.log
      → head_fold ch'.log c ≡ head_fold ch.log c
  head_fold-Grows ch ch' c g le =
      ap (λ es. run (step (λ k. at_seq k ch'.log)) unclaimed es)
        (within-Grows ch ch' 0 c (some head_topics) g le)
      ∙ run-agree c (λ k. at_seq k ch'.log) (λ k. at_seq k ch.log) unclaimed
          (between 0 c head_topics ch.log) (λ k lt. at_seq-Grows ch ch' k g (omega arith))
          (All-between 0 c head_topics ch.log)

  module _ (ch' : Channel F) (w : ℕ) where
    by_point-fold :
        (c : ℕ)
        → c ≤ w
        → run (step (by_point ch' w)) unclaimed (between 0 c head_topics ch'.log)
          ≡ head_fold ch'.log c
    by_point-fold c le =
        run-agree c (by_point ch' w) (λ k. at_seq k ch'.log) unclaimed
          (between 0 c head_topics ch'.log) (λ k lt. point-agree ch' w k (omega arith))
          (All-between 0 c head_topics ch'.log)

    -- A fold that holds no claim, in a run without one.
    begin_none :
        (f : Held (ClaimHead F))
        → IsHeadHeld ch' f
        → f.cursor ≤ w
        → newest_spec Topic.lifecycle_started w ch'.log ≡ none
        → f.state ≡ head_fold ch'.log w
    begin_none f h le n =
        h.folded
        ∙ run-unclaimed (λ k. at_seq k ch'.log) 0 f.cursor ch'.log (IsAfter-log ch')
            (none_below ch' Topic.lifecycle_started f.cursor w le n)
        ∙ sym (run-unclaimed (λ k. at_seq k ch'.log) 0 w ch'.log (IsAfter-log ch') n)

    -- A fold that starts at the newest claim.
    begin_claim :
        (s : ClaimHead F) (c : Envelope F)
        → c.seq ≤ w
        → newest_spec Topic.lifecycle_started w ch'.log ≡ some c
        → step (by_point ch' w) s c ≡ head_fold ch'.log c.seq
    begin_claim s c le q =
        let read : ℕ → Option (Envelope F) = λ k. at_seq k ch'.log in
        let found = last_where-found 0 (is_claim w) ch'.log c (IsAfter-log ch') q in
        step-claim s unclaimed c (by_point ch' w) (and_right (leb c.seq w) _ found.0)
        ∙ step-agree unclaimed c (by_point ch' w) read (λ k lt. point-agree ch' w k (omega arith))
        ∙ ap (λ es. run (step read) (step read unclaimed c) es)
            (sym (none_between c.seq c.seq move_topics ch'.log (omega arith)))
        ∙ sym (
            run-newest read 0 c.seq unclaimed ch'.log c (IsAfter-log ch')
              (newest_at ch' Topic.lifecycle_started w c le q))

    begin-IsHeadHeld :
        (f : Held (ClaimHead F))
        → IsHeadHeld ch' f
        → f.cursor ≤ w
        → w ≤ length ch'.log
        → IsHeadHeld ch' (begin ch' w f) × ((begin ch' w f).cursor ≤ w)
    unfolding begin
    begin-IsHeadHeld f h le top = elim (Bool-cases (is_unclaimed f.state.claim && ltb f.cursor w)) [
      | inr on ↦ rw (on, begin) (h, le)
      | inl new ↦ elim (Option-cases (newest_spec Topic.lifecycle_started w ch'.log)) [
        | inl n ↦
            rw (new, newest_claim_lem ch' w, n, begin)
              (record { reached = top; folded = begin_none f h le n }, omega arith)
        | inr (c, q) ↦
            let found = last_where-found 0 (is_claim w) ch'.log c (IsAfter-log ch') q in
            let low : c.seq ≤ w = leb→le c.seq w (and_left (leb c.seq w) _ found.0) in
            rw (new, newest_claim_lem ch' w, q, begin)
              (record { reached = omega arith; folded = begin_claim f.state c low q }, low)
      ]
    ]

    held_on :
        (f : Held (ClaimHead F))
        → IsHeadHeld ch' f
        → f.cursor ≤ w
        → w ≤ length ch'.log
        → (read_on (step (by_point ch' w)) ch' w head_topics f).state ≡ head_fold ch'.log w
    held_on f h le top =
        let held =
          read_on-IsHeld (step (by_point ch' w)) unclaimed head_topics ch' ch' w f
            (record { reached = h.reached; folded = h.folded ∙ sym (by_point-fold f.cursor le) })
            (Grows-refl ch') le top in
        let at = read_on_cursor (step (by_point ch' w)) unclaimed head_topics ch' ch' w f le in
        held.folded
        ∙ ap (λ c. run (step (by_point ch' w)) unclaimed (between 0 c head_topics ch'.log)) at
        ∙ by_point-fold w (omega arith)

  -- A fold polled on a log, then at any `w` of the log as it has grown, answers each time what the
  -- pure head answers there.
  pub poll_at-latest_claim_head :
      (ch ch' : Channel F) (w : ℕ) (f : Held (ClaimHead F))
      → IsHeadHeld ch f
      → Grows ch ch'
      → f.cursor ≤ w
      → w ≤ length ch'.log
      → ((poll_at ch' w f).0 ≡ latest_claim_head ch' w) × IsHeadHeld ch' (poll_at ch' w f).1
  unfolding poll_at
  poll_at-latest_claim_head ch ch' w f h g le top =
      let now : IsHeadHeld ch' f = record {
        reached = omega (arith, h.reached, Grows-length ch ch' g);
        folded = h.folded ∙ sym (head_fold-Grows ch ch' f.cursor g h.reached);
      } in
      let begun = begin-IsHeadHeld ch' w f now le top in
      let state = held_on ch' w (begin ch' w f) begun.0 begun.1 top in
      let at =
        read_on_cursor (step (by_point ch' w)) unclaimed head_topics ch' ch' w (begin ch' w f)
          begun.1 in
      let on : ltb w f.cursor ≡ false = ground arith in
      rw (on, poll_at)
        (
          ap (λ s. head s w) state ∙ sym (latest_claim_head_lem ch' w),
          record { reached = rw at top; folded = state ∙ ap (λ c. head_fold ch'.log c) (sym at) },
        )

  pub new_head_fold-IsHeadHeld : (ch : Channel F) → IsHeadHeld ch new_head_fold
  new_head_fold-IsHeadHeld ch = record {
    reached = omega arith;
    folded = rw (none_between 0 0 head_topics ch.log (omega arith)) refl;
  }
