-- ===== src/Claims/Search/Windows.antt =====
-- `backward` of runstate/claims.py and the searches over it, window by window.
use runstate.Prelude.{
  ℕ, zero, suc, ◌-◌, ◌*◌, ◌≤◌, ◌<◌, max, String, ◌≡◌, refl, sym, ◌∙◌, inl, inr, Bool, ◌&&◌, Option,
  none, some, List, [], ◌∷◌, ◌++◌, reverse, arith, str_eq, ltb, ltb→lt, Bool-cases, Option-cases,
  filter, first,
}
use mathlib.Core.List.{reverse-append}
use runstate.Channel.Last.{pick, last_where-step, last_where-same}
use runstate.Channel.{last_where, Envelope}
use runstate.Channel.Interface.{Channel}
use runstate.Channel.Windows.Split.{filter_empty, split}
use runstate.Channel.Windows.{window_lem, within, IsAfter-log}
use runstate.Walk.Backward.{first_window}
use runstate.Vocabulary.Topic
use runstate.Channel.Topics.{topic_match}
use runstate.Claims.Search.{backward_loop, backward, claim_before}

topic-started :
    (t : String) → topic_match t (Topic.lifecycle_started ∷ []) ≡ str_eq t Topic.lifecycle_started
unfolding topic_match
topic-started t = ground arith

module _ {F : Type 0} where
  module _ (ch : Channel F) (after : ℕ) (topics : List String) where
    backward_loop_lem :
        (fuel hi width : ℕ)
        → hi ≤ fuel
        → 1 ≤ width
        → backward_loop ch fuel after hi width topics
          ≡ reverse (filter (within after hi (some topics)) ch.log)
    unfolding backward_loop
    backward_loop_lem zero hi width le w =
        rw (filter_empty (within after hi (some topics)) ch.log (λ e. ground arith)) refl
    backward_loop_lem (suc fuel) hi width le w = elim (Bool-cases (ltb after hi)) [
      | inl more ↦
          let lo = max after (hi - width) in
          let below : after < hi = ltb→lt after hi more in
          rw
            (
              more,
              backward_loop_lem fuel lo (width * 4) (omega arith) (omega arith),
              window_lem ch lo hi (some topics),
              split 0 after lo hi (some topics) ch.log (omega arith) (omega arith) (IsAfter-log ch),
              reverse-append (filter (within after lo (some topics)) ch.log)
                  (filter (within lo hi (some topics)) ch.log),
            )
            refl
      | inr done ↦
          rw (done, filter_empty (within after hi (some topics)) ch.log (λ e. ground arith)) refl
    ]

    -- However the windows fall, the search yields the log's records on the topics above `after` and
    -- at or below `hi`, each once and newest first.
    pub backward_lem :
        (hi : ℕ)
        → backward ch after hi topics ≡ reverse (filter (within after hi (some topics)) ch.log)
    unfolding backward
    backward_lem hi = backward_loop_lem hi hi first_window (omega arith) (omega arith)

  abbrev or_found : Option (Envelope F) → Option (Envelope F) → Option (Envelope F)
  or_found (some e) o = some e
  or_found none o = o

  first-append : (xs ys : List (Envelope F)) → first (xs ++ ys) ≡ or_found (first xs) (first ys)
  first-append [] ys = refl
  first-append (x ∷ xs) ys = refl

  first-reverse :
      (p : Envelope F → Bool) (es : List (Envelope F))
      → first (reverse (filter p es)) ≡ last_where p es
  first-reverse p [] = refl
  first-reverse p (e ∷ es) =
      let ih = first-reverse p es in
      elim (Bool-cases (p e)) [
        | inl t ↦
            rw
              (
                t,
                reverse-append (e ∷ []) (filter p es),
                first-append (reverse (filter p es)) (e ∷ []),
                ih,
              )
              (elim (Option-cases (last_where p es)) [
                | inl n ↦ sym (last_where-step p e es ∙ rw (n, t, pick) refl)
                | inr s ↦ sym (last_where-step p e es ∙ rw (s.1, pick) refl)
              ])
        | inr f ↦
            rw (f, ih)
              (elim (Option-cases (last_where p es)) [
                | inl n ↦ sym (last_where-step p e es ∙ rw (n, f, pick) refl)
                | inr s ↦ sym (last_where-step p e es ∙ rw (s.1, pick) refl)
              ])
      ]

  -- A claim below a seq.
  abbrev pub claims_below : ℕ → Envelope F → Bool
  claims_below s e = ltb e.seq s && str_eq e.topic Topic.lifecycle_started

  -- `claim_before` is the last claim of the log below the seq, and `none` when the log has none.
  pub claim_before-last_where :
      (ch : Channel F) (seq : ℕ) → claim_before ch seq ≡ last_where (claims_below seq) ch.log
  unfolding claim_before
  claim_before-last_where ch seq =
      let topics = Topic.lifecycle_started ∷ [] in
      rw
        (
          backward_lem ch 0 topics (seq - 1),
          first-reverse (within 0 (seq - 1) (some topics)) ch.log,
        )
        (last_where-same 0 (within 0 (seq - 1) (some topics)) (claims_below seq) ch.log
          (IsAfter-log ch) (λ e above. rw (topic-started e.topic) (ground arith)))
