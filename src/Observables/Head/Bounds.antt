-- ===== src/Observables/Head/Bounds.antt =====
-- The bounds of the head that `latest_claim_head` of runstate/observables.py reads.
use runstate.Prelude.{
  ℕ, zero, suc, ◌≤◌, ◌<◌, ◌≡◌, refl, sym, ◌∙◌, inl, inr, Bool, true, false, ◌&&◌, Option, none,
  some, List, [], ◌∷◌, arith, ltb, leb, ◌==◌, leb→le, le→leb, Bool-cases, and_right, All, err,
}
use runstate.Json.{Number}
use runstate.Channel.{Envelope}
use runstate.Channel.Interface.{Channel}
use runstate.Channel.Topics.{topic_match}
use runstate.Channel.Windows.{within, IsAfter, IsAfter-log}
use runstate.Vocabulary.Payloads.Lifecycle.{closed}
use runstate.Walk.Node.{WalkError, At, kind_at}
use runstate.Walk.Backward.Lookup.{at_seq, at_seq-above}
use runstate.Observables.Tail.{between}
use runstate.Observables.Held.{run}
use runstate.Observables.Head.{Head, make_head, ClaimHead, unclaimed, head, latest_claim_head}
use runstate.Observables.Head.Fold.{head_topics, step, head_fold, claim_head_at_lem}
use runstate.Observables.Head.Stands.{Settles, IsNode, OnNode, ExitOn, Raised, Stands, step-Stands}

module _ {F : Type 0} ⦃num : Number F⦄ where
  module _ (read : ℕ → Option (Envelope F)) (w : ℕ) where
    run-Stands :
        (h : ClaimHead F) (es : List (Envelope F))
        → Stands read w h
        → All
            (λ e. (e.seq ≤ w) × (read e.seq ≡ some e) × (topic_match e.topic head_topics ≡ true))
            es
        → Stands read w (run (step read) h es)
    run-Stands h [] s a = s
    run-Stands h (e ∷ es) s a =
        run-Stands (step read h e) es (step-Stands read w h e s a.0.0 a.0.1 a.0.2) a.1

  at_seq-tail :
      (e : Envelope F) (k : ℕ) (es : List (Envelope F))
      → e.seq < k
      → at_seq k (e ∷ es) ≡ at_seq k es
  at_seq-tail e k es lt = let other : (e.seq == k) ≡ false = ground arith in rw other refl

  at_seq-head : (e : Envelope F) (es : List (Envelope F)) → at_seq e.seq (e ∷ es) ≡ some e
  at_seq-head e es = let same : (e.seq == e.seq) ≡ true = ground arith in rw same refl

  -- Each record of an ascending log is what the log has at its seq.
  between-at :
      (n w : ℕ) (log es : List (Envelope F))
      → IsAfter n es
      → ((k : ℕ) → n < k → at_seq k es ≡ at_seq k log)
      → All
          (λ e.
            (e.seq ≤ w) × (at_seq e.seq log ≡ some e) × (topic_match e.topic head_topics ≡ true))
          (between 0 w head_topics es)
  between-at n w log [] a h = tt
  between-at n w log (e ∷ es) a h =
      let rest =
        between-at e.seq w log es a.1
          (λ k lt. sym (at_seq-tail e k es lt) ∙ h k (omega (arith, a.0))) in
      elim (Bool-cases (within 0 w (some head_topics) e)) [
        | inr out ↦ rw out rest
        | inl t ↦ rw t (
          (
            ground (arith, t),
            sym (h e.seq a.0) ∙ at_seq-head e es,
            and_right (ltb 0 e.seq && leb e.seq w) _ t,
          ),
          rest,
        )
      ]

  abbrev pub NodeAt : Channel F → ℕ → Bool → Option ℕ → Type 0
  NodeAt ch w settled none = settled ≡ false
  NodeAt ch w settled (some n) = (1 ≤ n) × (n ≤ w) × IsNode (at_seq n ch.log)

  -- The head that a read returns at `w`: of the empty lineage, unsettled, or at a node of the log.
  abbrev pub HeadAt : Channel F → ℕ → Head → Type 0
  HeadAt ch w h = (h.w ≡ w) × NodeAt ch w h.settled h.node

  module _ (ch : Channel F) (w : ℕ) where
    abbrev in_log : ℕ → Option (Envelope F)
    in_log k = at_seq k ch.log

    node-positive : (n : ℕ) → IsNode (in_log n) → leb 1 n ≡ true
    unfolding kind_at
    node-positive zero k =
        absurd (ground (arith, k.1, at_seq-above 0 0 ch.log (omega arith) (IsAfter-log ch)))
    node-positive (suc n) k = ground arith

    make-HeadAt :
        (n : ℕ) (settled : Bool)
        → OnNode in_log w (some n)
        → Settles (HeadAt ch w) (make_head (some n) settled w)
    unfolding make_head
    make-HeadAt n settled on =
        let low = node-positive n on.1 in
        let high = le→leb n w on.0 in rw (low, high) (refl, (leb→le 1 n low, on.0, on.1))

    position-HeadAt :
        (p : Option ℕ) → OnNode in_log w p → Settles (HeadAt ch w) (make_head p false w)
    unfolding make_head
    position-HeadAt none on = (refl, refl)
    position-HeadAt (some n) on = make-HeadAt n false on

    choose-HeadAt :
        (x : Option WalkError) (c : Option ℕ) (o : Option (At F)) (p : Option ℕ)
        → Raised in_log w x
        → ExitOn in_log w o
        → OnNode in_log w p
        → Settles (HeadAt ch w) (elim x [
          | some y ↦ err y
          | none ↦ elim c [
            | none ↦ make_head none false w
            | some k ↦ elim o [
              | some at ↦ make_head (some at.env.seq) (closed at.node) w
              | none ↦ make_head p false w
            ]
          ]
        ])
    choose-HeadAt (some y) c o p r e on = r
    choose-HeadAt none none o p r e on = position-HeadAt none tt
    choose-HeadAt none (some k) (some at) p r e on = make-HeadAt at.env.seq (closed at.node) e
    choose-HeadAt none (some k) none p r e on = position-HeadAt p on

    head-HeadAt : (h : ClaimHead F) → Stands in_log w h → Settles (HeadAt ch w) (head h w)
    unfolding head
    head-HeadAt h s = choose-HeadAt h.error h.claim h.exit h.position s.error s.exit s.position

  -- `latest_claim_head` returns the empty lineage's head, unsettled, or a head at a node of the log
  -- from 1 to W; what it raises is a `MalformedRecordError`, so the head's own checks never fail.
  pub latest_claim_head-HeadAt :
      (ch : Channel F) (w : ℕ) → Settles (HeadAt ch w) (latest_claim_head ch w)
  unfolding latest_claim_head
  latest_claim_head-HeadAt ch w = rw (claim_head_at_lem ch w) (
      head-HeadAt ch w (head_fold ch.log w) (
        run-Stands (λ k. at_seq k ch.log) w unclaimed (between 0 w head_topics ch.log)
          (record { position = tt; exit = tt; error = tt })
          (between-at 0 w ch.log ch.log (IsAfter-log ch) (λ k lt. refl))))
