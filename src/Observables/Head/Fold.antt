-- ===== src/Observables/Head/Fold.antt =====
-- `_latest_claim_head` of runstate/observables.py and the head fold over a log.
use runstate.Prelude.{
  ℕ, ◌≤◌, ◌<◌, String, ◌≡◌, refl, sym, ap, ◌∙◌, subst, inl, inr, Bool, true, false, ◌&&◌, ◌||◌,
  Option, none, some, List, [], ◌∷◌, arith, str_eq, leb, leb→le, leb-false, Bool-cases,
  Option-cases, and_left, and_right, All, Result,
}
use mathlib.Core.Path.{fun_ext}
use runstate.Json.{Number}
use runstate.Channel.{Envelope}
use runstate.Channel.Interface.{Channel}
use runstate.Channel.Last.{last_where-found}
use runstate.Channel.Topics.{topic_match, wildcard}
use runstate.Channel.Windows.{within, IsAfter, IsAfter-log}
use runstate.Vocabulary.Topic
use runstate.Walk.Node.{WalkError, point, kind_at}
use runstate.Walk.Node.Reference.{check_reference}
use runstate.Walk.Backward.Lookup.{at_seq, at_seq-above}
use runstate.Claims.{claim_window}
use runstate.Vocabulary.Payloads.Lifecycle.{Started}
use runstate.Observables.Tail.{between, All-between, claim_window_lem}
use runstate.Observables.Held.{run}
use runstate.Observables.Head.{
  Position, by_commit, by_rewind, by_exit, ClaimHead, unclaimed, kind_reader, resume_point, move,
  move_once, unless_exited, apply, apply_with, head, newest_claim, move_topics, claim_head_at,
  latest_claim_head,
}
use runstate.Observables.Head.Point.{point_lem, newest_lem, newest_spec}

-- `_HEAD_TOPICS`.
abbrev pub head_topics : List String
head_topics =
    Topic.lifecycle_started ∷ Topic.lifecycle_commit ∷ Topic.lifecycle_rewind
    ∷ Topic.lifecycle_stopped ∷ []

topic-head :
    (t : String)
    → topic_match t head_topics ≡ (str_eq t Topic.lifecycle_started || topic_match t move_topics)
unfolding topic_match
topic-head t = ground arith

module _ {F : Type 0} ⦃num : Number F⦄ where
  abbrev pub step : (ℕ → Option (Envelope F)) → ClaimHead F → Envelope F → ClaimHead F
  step read h e = apply h e read

  -- Two lookups that agree below a record give it the same step.
  resume_point-agree :
      (e : Envelope F) (r : Option ℕ) (read read' : ℕ → Option (Envelope F))
      → ((k : ℕ) → k < e.seq → read k ≡ read' k)
      → resume_point e r (kind_reader kind_at read) ≡ resume_point e r (kind_reader kind_at read')
  unfolding resume_point check_reference
  resume_point-agree e none read read' h = refl
  resume_point-agree e (some r) read read' h = elim (Bool-cases (leb e.seq r)) [
    | inl late ↦ rw late refl
    | inr early ↦ rw (early, h r (leb-false e.seq r early)) refl
  ]

  move-agree :
      (h : ClaimHead F) (e : Envelope F) (p : Position F) (read read' : ℕ → Option (Envelope F))
      → ((k : ℕ) → k < e.seq → read k ≡ read' k)
      → move h e read p ≡ move h e read' p
  unfolding move
  move-agree h e (by_commit b) read read' a = refl
  move-agree h e (by_exit s) read read' a = refl
  move-agree h e (by_rewind r) read read' a =
      rw (resume_point-agree e r.resume_from read read' a) refl

  move_once-agree :
      (h : ClaimHead F) (e : Envelope F) (p : Option (Position F))
      (read read' : ℕ → Option (Envelope F))
      → ((k : ℕ) → k < e.seq → read k ≡ read' k)
      → move_once h e read p ≡ move_once h e read' p
  move_once-agree h e none read read' a = refl
  move_once-agree h e (some p) read read' a = ap (unless_exited h e) (move-agree h e p read read' a)

  pub step-agree :
      (h : ClaimHead F) (e : Envelope F) (read read' : ℕ → Option (Envelope F))
      → ((k : ℕ) → k < e.seq → read k ≡ read' k)
      → step read h e ≡ step read' h e
  unfolding apply move
  step-agree h e read read' a =
      ap
        (λ (g : Started F → Result WalkError (Option ℕ)).
          apply_with h e g (λ p. move_once h e read p))
        (fun_ext λ s. resume_point-agree e s.resume_from read read' a)
      ∙ ap
          (λ (g : Option (Position F) → Result WalkError (ClaimHead F)).
            apply_with h e (λ s. resume_point e s.resume_from (kind_reader kind_at read')) g)
          (fun_ext λ p. move_once-agree h e p read read' a)

  -- A claim's record starts the fold afresh.
  pub step-claim :
      (h h' : ClaimHead F) (e : Envelope F) (read : ℕ → Option (Envelope F))
      → str_eq e.topic Topic.lifecycle_started ≡ true
      → step read h e ≡ step read h' e
  unfolding apply
  step-claim h h' e read t = rw t refl

  pub run-agree :
      (w : ℕ) (read read' : ℕ → Option (Envelope F)) (h : ClaimHead F) (es : List (Envelope F))
      → ((k : ℕ) → k < w → read k ≡ read' k)
      → All (λ e. e.seq ≤ w) es
      → run (step read) h es ≡ run (step read') h es
  run-agree w read read' h [] a b = refl
  run-agree w read read' h (e ∷ es) a b =
      let same = step-agree h e read read' (λ k lt. a k (omega (arith, b.0))) in
      rw same (run-agree w read read' (step read' h e) es a b.1)

  abbrev pub is_claim : ℕ → Envelope F → Bool
  is_claim w e = leb e.seq w && str_eq e.topic Topic.lifecycle_started

  -- Where there is no claim, the window's topics are enough.
  between-moves :
      (lo n w : ℕ) (es : List (Envelope F))
      → lo ≤ n
      → IsAfter n es
      → newest_spec Topic.lifecycle_started w es ≡ none
      → between 0 w head_topics es ≡ between lo w move_topics es
  between-moves lo n w [] le a h = refl
  between-moves lo n w (e ∷ es) le a h =
      elim (Option-cases (newest_spec Topic.lifecycle_started w es)) [
        | inr (d, q) ↦ absurd (ground (arith, h, q))
        | inl q ↦
            let fails : is_claim w e ≡ false = ground (arith, h, q) in
            let same : within 0 w (some head_topics) e ≡ within lo w (some move_topics) e =
              rw (topic-head e.topic) (ground (arith, fails, a.0)) in
            rw (same, between-moves lo e.seq w es (omega (arith, a.0)) a.1 q) refl
      ]

  pub run-newest :
      (read : ℕ → Option (Envelope F)) (n w : ℕ) (h : ClaimHead F) (es : List (Envelope F))
      (c : Envelope F)
      → IsAfter n es
      → newest_spec Topic.lifecycle_started w es ≡ some c
      → run (step read) h (between 0 w head_topics es)
        ≡ run (step read) (step read unclaimed c) (between c.seq w move_topics es)
  run-newest read n w h [] c a q = absurd (ground (arith, q))
  run-newest read n w h (e ∷ es) c a q =
      elim (Option-cases (newest_spec Topic.lifecycle_started w es)) [
        | inr (d, f) ↦
            let same : d ≡ c = ground (arith, q, f) in
            let later = last_where-found e.seq (is_claim w) es c a.1 (f ∙ ap some same) in
            let out : within c.seq w (some move_topics) e ≡ false = ground (arith, later.1) in
            rw out (elim (Bool-cases (within 0 w (some head_topics) e)) [
              | inl t ↦ rw t (run-newest read e.seq w (step read h e) es c a.1 (f ∙ ap some same))
              | inr g ↦ rw g (run-newest read e.seq w h es c a.1 (f ∙ ap some same))
            ])
        | inl f ↦
            let claims : is_claim w e ≡ true = ground (arith, q, f) in
            let same : e ≡ c = ground (arith, q, f, claims) in
            let inside : within 0 w (some head_topics) e ≡ true =
              rw (topic-head e.topic) (ground (arith, claims, a.0)) in
            let out : within e.seq w (some move_topics) e ≡ false = ground arith in
            subst
              (λ y.
                run (step read) h (between 0 w head_topics (e ∷ es))
                ≡ run (step read) (step read unclaimed y) (between y.seq w move_topics (e ∷ es)))
              same
              (rw (inside, out, between-moves e.seq e.seq w es (omega arith) a.1 f)
                (ap (λ s. run (step read) s (between e.seq w move_topics es))
                  (step-claim h unclaimed e read (and_right (leb e.seq w) _ claims))))
      ]

  -- Records of which none is a claim leave the fold unclaimed.
  pub run-unclaimed :
      (read : ℕ → Option (Envelope F)) (n w : ℕ) (es : List (Envelope F))
      → IsAfter n es
      → newest_spec Topic.lifecycle_started w es ≡ none
      → run (step read) unclaimed (between 0 w head_topics es) ≡ unclaimed
  unfolding apply
  run-unclaimed read n w [] a h = refl
  run-unclaimed read n w (e ∷ es) a h =
      elim (Option-cases (newest_spec Topic.lifecycle_started w es)) [
        | inr (d, q) ↦ absurd (ground (arith, h, q))
        | inl q ↦
            let fails : is_claim w e ≡ false = ground (arith, h, q) in
            elim (Bool-cases (within 0 w (some head_topics) e)) [
              | inr g ↦ rw g (run-unclaimed read e.seq w es a.1 q)
              | inl t ↦
                  let other : str_eq e.topic Topic.lifecycle_started ≡ false =
                    ground (arith, fails, t) in
                  let still : step read unclaimed e ≡ unclaimed = rw (other, apply) refl in
                  rw t (
                    ap (λ s. run (step read) s (between 0 w head_topics es)) still
                    ∙ run-unclaimed read e.seq w es a.1 q)
            ]
      ]

  -- The head fold of a log at `w`: every record of the head's topics, from the log's first.
  abbrev pub head_fold : List (Envelope F) → ℕ → ClaimHead F
  head_fold log w = run (step (λ k. at_seq k log)) unclaimed (between 0 w head_topics log)

  pub point-agree : (ch : Channel F) (w k : ℕ) → k < w → point ch k w ≡ at_seq k ch.log
  point-agree ch w k lt = elim (Bool-cases (leb 1 k && leb k w)) [
    | inl t ↦ point_lem ch k w ∙ rw t refl
    | inr f ↦
        let zero' : k ≡ 0 = ground arith in
        point_lem ch k w ∙ rw f (sym (at_seq-above 0 k ch.log (omega arith) (IsAfter-log ch)))
  ]

  module _ (ch : Channel F) (w : ℕ) where
    abbrev by_point : ℕ → Option (Envelope F)
    by_point k = point ch k w

    from_claim :
        (c : Envelope F)
        → newest_spec Topic.lifecycle_started w ch.log ≡ some c
        → run (step by_point) (step by_point unclaimed c) (claim_window ch c w move_topics)
          ≡ head_fold ch.log w
    from_claim c q =
        let low : c.seq ≤ w = leb→le c.seq w (
          and_left (leb c.seq w) _
            (last_where-found 0 (is_claim w) ch.log c (IsAfter-log ch) q).0) in
        let agree : (k : ℕ) → k < w → by_point k ≡ at_seq k ch.log = point-agree ch w in
        ap (λ es. run (step by_point) (step by_point unclaimed c) es)
          (claim_window_lem ch c w move_topics)
        ∙ (run-agree w by_point (λ k. at_seq k ch.log) (step by_point unclaimed c)
            (between c.seq w move_topics ch.log) agree (All-between c.seq w move_topics ch.log))
        ∙ ap (λ s. run (step (λ k. at_seq k ch.log)) s (between c.seq w move_topics ch.log))
            (step-agree unclaimed c by_point (λ k. at_seq k ch.log) (λ k lt. agree k (omega arith)))
        ∙ sym (run-newest (λ k. at_seq k ch.log) 0 w unclaimed ch.log c (IsAfter-log ch) q)

    pub newest_claim_lem : newest_claim ch w ≡ newest_spec Topic.lifecycle_started w ch.log
    unfolding newest_claim wildcard
    newest_claim_lem = newest_lem ch Topic.lifecycle_started w refl

    -- The newest claim and its window give the state that the whole log gives.
    pub claim_head_at_lem : claim_head_at ch w ≡ head_fold ch.log w
    unfolding claim_head_at
    claim_head_at_lem = elim (Option-cases (newest_spec Topic.lifecycle_started w ch.log)) [
      | inl n ↦
          rw (newest_claim_lem, n, claim_head_at)
            (sym (run-unclaimed (λ k. at_seq k ch.log) 0 w ch.log (IsAfter-log ch) n))
      | inr (c, q) ↦ rw (newest_claim_lem, q, claim_head_at) (from_claim c q)
    ]

  -- The head that the newest claim and its window give is the one that every record of the log up to
  -- `w` gives: nothing below the claim bears on it but the nodes that a `resume_from` names.
  pub latest_claim_head_lem :
      (ch : Channel F) (w : ℕ) → latest_claim_head ch w ≡ head (head_fold ch.log w) w
  unfolding latest_claim_head
  latest_claim_head_lem ch w = ap (λ h. head h w) (claim_head_at_lem ch w)
