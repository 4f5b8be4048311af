-- ===== src/Observables/Tail.antt =====
-- How the folds of runstate/observables.py read a log: `_tail`, and one pass over the whole log up
-- to W.
use runstate.Prelude.{
  ℕ, zero, suc, ◌-◌, ◌≤◌, String, ◌≡◌, refl, ◌∙◌, subst, inl, inr, true, false, some, List, [], ◌∷◌,
  ◌++◌, arith, ltb, leb, if◌then◌else◌, ltb→lt, leb→le, Bool-cases, length, take, filter, All,
}
use runstate.Prelude.Int.{pos}
use runstate.Channel.{Envelope}
use runstate.Channel.Interface.{Channel}
use runstate.Channel.Windows.{
  window, window_lem, within, topics_query, IsAfter, IsAfter-filter, IsAfter-log,
}
use runstate.Channel.Windows.Split.{filter_empty, split}
use runstate.Channel.Growth.{Grows, within-Grows}
use runstate.Claims.{claim_window}

module _ {F : Type 0} where
  -- `_tail`.
  unfoldable pub tail : Channel F → ℕ → ℕ → List String → List (Envelope F)
  unfolding window
  tail ch cursor w topics = if leb w cursor then [] else window ch cursor w (some topics)

  -- The loop of a pass: `if e.seq > w: break`.
  unfoldable pub break_above : ℕ → List (Envelope F) → List (Envelope F)
  break_above w [] = []
  break_above w (e ∷ es) = let rest = break_above w es in if ltb w e.seq then [] else e ∷ rest

  -- The records that `for e in ch.read(topics=…, limit=w)` meets before it breaks.
  unfoldable pub pass : Channel F → ℕ → List String → List (Envelope F)
  unfolding break_above
  pass ch w topics = break_above w (ch.read (pos 0) (topics_query (some topics) w))

  -- The records on the topics above `lo` and at or below `hi`.
  abbrev pub between : ℕ → ℕ → List String → List (Envelope F) → List (Envelope F)
  between lo hi topics es = filter (within lo hi (some topics)) es

  pub none_between :
      (c w : ℕ) (topics : List String) (es : List (Envelope F)) → w ≤ c → between c w topics es ≡ []
  none_between c w topics es le = filter_empty (within c w (some topics)) es (λ e. ground arith)

  pub tail_lem :
      (ch : Channel F) (c w : ℕ) (topics : List String)
      → tail ch c w topics ≡ between c w topics ch.log
  unfolding tail
  tail_lem ch c w topics = elim (Bool-cases (leb w c)) [
    | inl low ↦ rw (low, none_between c w topics ch.log (leb→le w c low)) refl
    | inr up ↦ rw up (window_lem ch c w (some topics))
  ]

  pub claim_window_lem :
      (ch : Channel F) (claim : Envelope F) (w : ℕ) (topics : List String)
      → claim_window ch claim w topics ≡ between claim.seq w topics ch.log
  unfolding claim_window
  claim_window_lem ch claim w topics = elim (Bool-cases (leb w claim.seq)) [
    | inl low ↦ rw (low, none_between claim.seq w topics ch.log (leb→le w claim.seq low)) refl
    | inr up ↦ rw up (window_lem ch claim.seq w (some topics))
  ]

  none_above :
      (n w : ℕ) (es : List (Envelope F)) → w ≤ n → IsAfter n es → filter (λ e. leb e.seq w) es ≡ []
  none_above n w [] le h = refl
  none_above n w (e ∷ es) le h =
      let out : leb e.seq w ≡ false = ground (arith, h.0) in
      rw out (none_above e.seq w es (omega arith) h.1)

  break_above_lem :
      (n w : ℕ) (es : List (Envelope F))
      → IsAfter n es
      → break_above w es ≡ filter (λ e. leb e.seq w) es
  unfolding break_above
  break_above_lem n w [] h = refl
  break_above_lem n w (e ∷ es) h = elim (Bool-cases (ltb w e.seq)) [
    | inl out ↦
        let above : leb e.seq w ≡ false = ground arith in
        rw (out, above, none_above e.seq w es (omega (arith, ltb→lt w e.seq out)) h.1) refl
    | inr stay ↦
        let below : leb e.seq w ≡ true = ground arith in
        rw (stay, below, break_above_lem e.seq w es h.1) refl
  ]

  IsAfter-take : (n k : ℕ) (es : List (Envelope F)) → IsAfter n es → IsAfter n (take k es)
  IsAfter-take n zero es h = tt
  IsAfter-take n (suc k) [] h = tt
  IsAfter-take n (suc k) (e ∷ es) h = (h.0, IsAfter-take e.seq k es h.1)

  -- The pass meets the log's records at or below W on the topics, all of them and in order.
  pub pass_lem :
      (ch : Channel F) (w : ℕ) (topics : List String) → pass ch w topics ≡ between 0 w topics ch.log
  unfolding pass window
  pass_lem ch w topics =
      break_above_lem 0 w (ch.read (pos 0) (topics_query (some topics) w)) (
        rw (ch.read_lem (pos 0) (topics_query (some topics) w))
          (IsAfter-take 0 w _ (IsAfter-filter 0 _ _ (IsAfter-filter 0 _ ch.log (IsAfter-log ch)))))
      ∙ subst
          (λ k.
            filter (λ e. leb e.seq w) (ch.read (pos 0) (topics_query (some topics) k))
            ≡ between 0 w topics ch.log)
          (let e : w - 0 ≡ w = omega arith in e) (window_lem ch 0 w (some topics))

  -- A fold that has read up to `c` and reads on to `w` has read what a pass to `w` reads.
  pub tail-resumes :
      (ch ch' : Channel F) (c w : ℕ) (topics : List String)
      → Grows ch ch'
      → c ≤ length ch.log
      → c ≤ w
      → between 0 w topics ch'.log ≡ between 0 c topics ch.log ++ tail ch' c w topics
  tail-resumes ch ch' c w topics g le up =
      rw
        (
          split 0 0 c w (some topics) ch'.log (omega arith) up (IsAfter-log ch'),
          within-Grows ch ch' 0 c (some topics) g le,
          tail_lem ch' c w topics,
        )
        refl

  pub All-between :
      (lo w : ℕ) (topics : List String) (es : List (Envelope F))
      → All (λ e. e.seq ≤ w) (between lo w topics es)
  All-between lo w topics [] = tt
  All-between lo w topics (e ∷ es) = elim (Bool-cases (within lo w (some topics) e)) [
    | inl t ↦ rw t (ground arith, All-between lo w topics es)
    | inr f ↦ rw f (All-between lo w topics es)
  ]
