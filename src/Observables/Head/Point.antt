-- ===== src/Observables/Head/Point.antt =====
-- Reads of one record and of the newest of a topic, as the head of runstate/observables.py makes
-- them.
use runstate.Prelude.{
  ℕ, ◌-◌, ◌≤◌, String, ◌≡◌, refl, sym, ap, ◌∙◌, inl, inr, Bool, true, false, ◌&&◌, Option, none,
  some, List, [], ◌∷◌, arith, str_eq, leb, ◌==◌, if◌then◌else◌, leb→le, Bool-cases, and_left, take,
  filter,
}
use runstate.Prelude.Int.{ltb_ℤ, pos}
use runstate.Channel.Last.{
  pick, last_where-step, last_where-same, last_where-none, last_where-narrow,
}
use runstate.Channel.{Envelope, Query, admits, last_where}
use runstate.Channel.Topics.{codes, wildcard, topic_match}
use runstate.Channel.Interface.{Channel}
use runstate.Channel.Windows.{window_lem, within, IsAfter, IsAfter-log}
use runstate.Walk.Node.{point, same_seq}
use runstate.Walk.Backward.Lookup.{at_seq, at_seq-above}
use runstate.Observables.Head.{newest, newest_below, last_of}

-- A topic that is no wildcard matches itself alone.
topic_match-one : (t p : String) → wildcard (codes p) ≡ none → topic_match t (p ∷ []) ≡ str_eq t p
unfolding topic_match
topic_match-one t p plain = ground (arith, plain)

abbrev one_row : Query
one_row = record { topics = none; name = none; request_ids = none; limit = some 1 }

module _ {F : Type 0} where
  first_row :
      (n s : ℕ) (es : List (Envelope F))
      → 1 ≤ s
      → IsAfter n es
      → same_seq s
          (take 1 (filter (admits one_row) (filter (λ e. ltb_ℤ (pos (s - 1)) (pos e.seq)) es)))
        ≡ at_seq s es
  first_row n s [] le h = refl
  first_row n s (e ∷ es) le h = elim (Bool-cases (ltb_ℤ (pos (s - 1)) (pos e.seq))) [
    | inl t ↦ rw t (ground (arith, at_seq-above e.seq s es, h.1))
    | inr f ↦
        let other : (e.seq == s) ≡ false = ground arith in
        rw (f, other) (first_row e.seq s es le h.1)
  ]

  -- `point` is the record at the seq, if that lies in `1 … w`.
  pub point_lem :
      (ch : Channel F) (s w : ℕ)
      → point ch s w ≡ (if leb 1 s && leb s w then at_seq s ch.log else none)
  unfolding point
  point_lem ch s w = elim (Bool-cases (leb 1 s && leb s w)) [
    | inl t ↦
        rw (t, ch.read_lem (pos (s - 1)) one_row)
          (first_row 0 s ch.log (leb→le 1 s (and_left (leb 1 s) _ t)) (IsAfter-log ch))
    | inr f ↦ rw f refl
  ]

  -- The newest record of a topic at or below `w`.
  abbrev pub newest_spec : String → ℕ → List (Envelope F) → Option (Envelope F)
  newest_spec topic w es = last_where (λ e. leb e.seq w && str_eq e.topic topic) es

  pick-false : (o : Option (Envelope F)) (e : Envelope F) → pick o false e ≡ o
  pick-false none e = refl
  pick-false (some x) e = refl

  last_of-filter :
      (p : Envelope F → Bool) (es : List (Envelope F)) → last_of (filter p es) ≡ last_where p es
  last_of-filter p [] = refl
  last_of-filter p (e ∷ es) =
      let ih = last_of-filter p es in
      elim (Bool-cases (p e)) [
        | inl t ↦
            rw t (last_where-step (λ x. true) e (filter p es) ∙ ap (λ o. pick o true e) ih)
            ∙ sym (last_where-step p e es ∙ ap (λ b. pick (last_where p es) b e) t)
        | inr f ↦
            rw f ih
            ∙ sym (
                last_where-step p e es
                ∙ ap (λ b. pick (last_where p es) b e) f
                ∙ pick-false (last_where p es) e)
      ]

  newest_below_lem :
      (ch : Channel F) (topic : String) (w : ℕ) (o : Option (Envelope F))
      → wildcard (codes topic) ≡ none
      → last_where (λ e. str_eq e.topic topic && true) ch.log ≡ o
      → newest_below ch topic w o ≡ newest_spec topic w ch.log
  newest_below_lem ch topic w none plain e = sym (
      last_where-same 0 (λ x. leb x.seq w && str_eq x.topic topic)
        (λ x. leb x.seq w && (str_eq x.topic topic && true)) ch.log (IsAfter-log ch)
        (λ x a. ground arith)
      ∙ last_where-none (λ e. str_eq e.topic topic && true) (λ e. leb e.seq w) ch.log e)
  newest_below_lem ch topic w (some c) plain e = elim (Bool-cases (leb c.seq w)) [
    | inl low ↦ rw low (
        sym (
          last_where-same 0 (λ x. leb x.seq w && str_eq x.topic topic)
            (λ x. leb x.seq w && (str_eq x.topic topic && true)) ch.log (IsAfter-log ch)
            (λ x a. ground arith)
          ∙ last_where-narrow (λ e. str_eq e.topic topic && true) (λ e. leb e.seq w) ch.log c e
              low))
    | inr high ↦
        rw
          (
            high,
            window_lem ch 0 w (some (topic ∷ [])),
            last_of-filter (within 0 w (some (topic ∷ []))) ch.log,
          )
          (last_where-same 0 (within 0 w (some (topic ∷ [])))
            (λ e. leb e.seq w && str_eq e.topic topic) ch.log (IsAfter-log ch)
            (λ x above. rw (topic_match-one x.topic topic plain) (ground arith)))
  ]

  none_at_zero :
      (topic : String) (n : ℕ) (es : List (Envelope F))
      → IsAfter n es
      → newest_spec topic 0 es ≡ none
  none_at_zero topic n [] h = refl
  none_at_zero topic n (e ∷ es) h =
      let above : leb e.seq 0 ≡ false = ground (arith, h.0) in
      last_where-step (λ e. leb e.seq 0 && str_eq e.topic topic) e es
      ∙ rw (none_at_zero topic e.seq es h.1, pick) (rw above refl)

  -- `_newest` of a topic that is no wildcard is the log's last record of it at or below `w`.
  pub newest_lem :
      (ch : Channel F) (topic : String) (w : ℕ)
      → wildcard (codes topic) ≡ none
      → newest ch topic w ≡ newest_spec topic w ch.log
  unfolding newest
  newest_lem ch topic w plain = elim (Bool-cases (w == 0)) [
    | inl z ↦
        let zero' : w ≡ 0 = ground arith in
        rw (zero', none_at_zero topic 0 ch.log (IsAfter-log ch)) refl
    | inr more ↦
        rw more (
          newest_below_lem ch topic w (ch.latest topic none) plain (sym (ch.latest_lem topic none)))
  ]
