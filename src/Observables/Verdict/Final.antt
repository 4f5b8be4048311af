-- ===== src/Observables/Verdict/Final.antt =====
-- The readers of `claim_verdict` in runstate/observables.py: `live_episode` and `worker_completed`.
use runstate.Prelude.{
  ℕ, ◌≤◌, String, ◌≡◌, refl, sym, ap, ◌∙◌, subst, ◌⊎◌, inl, inr, true, false, Option, none, some,
  List, [], ◌∷◌, ◌++◌, arith, str_eq, leb, leb→le, leb-false, Bool-cases, Option-cases, length,
  filter, any, All, filter-append, ensured, Result-cases, ok,
}
use runstate.Json.{Number}
use runstate.Channel.{Envelope}
use runstate.Channel.Interface.{Channel}
use runstate.Channel.Topics.{wildcard}
use runstate.Channel.Growth.{Grows, within-Grows}
use runstate.Channel.Windows.{IsAfter-log}
use runstate.Channel.Windows.Split.{split}
use runstate.Vocabulary.Topic
use runstate.Vocabulary.Outcome.{completed}
use runstate.Vocabulary.Payloads.Lifecycle.{Started, Stopped, parse_started, parse_stopped}
use runstate.Vocabulary.Payloads.Exits.{IsStoppedBody-Ensures}
use runstate.Walk.Node.{verdict_parse, readable}
use runstate.Claims.{named_claim, names_claim, ending_topics, endings}
use runstate.Claims.Named.{readable-parses, verdict-parses}
use runstate.Observables.Tail.{between, none_between}
use runstate.Observables.Head.{newest_claim}
use runstate.Observables.Head.Point.{newest_spec, newest_lem}
use runstate.Observables.Verdict.Tiers.{RunResult, is_empty, same_outcomes, only, is_death_set}
use runstate.Observables.Verdict.{
  Exit, claim_verdict, live_episode, worker_completed, self_report, read_outcomes,
}
use runstate.Observables.Verdict.Loop.{exits, exit_at, settle}
use runstate.Observables.Verdict.Rule.{rule, found, concluded, claim_verdict_lem}
use runstate.Observables.Verdict.Ended.{claim_verdict-endings, endings_named}

module _ {F : Type 0} ⦃num : Number F⦄ where
  endings_grow :
      (ch ch' : Channel F) (claim : Envelope F) (w w' : ℕ)
      → Grows ch ch'
      → w ≤ length ch.log
      → claim.seq ≤ w
      → w ≤ w'
      → endings ch' claim w'
        ≡ endings ch claim w
          ++ filter
              (λ e. names_claim (named_claim e) claim.seq)
              (between w w' ending_topics ch'.log)
  endings_grow ch ch' claim w w' g le low up =
      rw
        (
          endings_named ch' claim w',
          endings_named ch claim w,
          split 0 claim.seq w w' (some ending_topics) ch'.log low up (IsAfter-log ch'),
          within-Grows ch ch' claim.seq w (some ending_topics) g le,
          filter-append (λ e. names_claim (named_claim e) claim.seq)
              (between claim.seq w ending_topics ch.log) (between w w' ending_topics ch'.log),
        )
        refl

  -- An end is final: of a claim that has ended at a `w` no higher than the log's end, no read at `w` or
  -- later of a log grown since finds it held.
  pub claim_verdict-final :
      (ch ch' : Channel F) (claim : Envelope F) (w w' : ℕ) (r : RunResult F)
      → Grows ch ch'
      → w ≤ length ch.log
      → w ≤ w'
      → claim_verdict ch claim w ≡ ok (some r)
      → ¬ (claim_verdict ch' claim w' ≡ ok none)
  claim_verdict-final ch ch' claim w w' r g le up ended held =
      let was = claim_verdict-endings ch claim w (some r) ended in
      let is = claim_verdict-endings ch' claim w' none held in
      elim (Bool-cases (leb claim.seq w)) [
        | inl low ↦
            let more = endings_grow ch ch' claim w w' g le (leb→le claim.seq w low) up in
            absurd (ground (arith, was, is, more))
        | inr high ↦
            let empty : endings ch claim w ≡ [] =
              endings_named ch claim w
              ∙ ap (λ es. filter (λ e. names_claim (named_claim e) claim.seq) es)
                  (none_between claim.seq w ending_topics ch.log
                    (omega (arith, leb-false claim.seq w high))) in
            absurd (ground (arith, was, empty))
      ]

  -- The claim gate, by what it answers.
  pub data Gate (ch : Channel F) : Option String → Type 0 where
    unclaimed_run : newest_spec Topic.lifecycle_started ch.last_seq ch.log ≡ none → Gate ch none
    ended_claim :
        {claim : Envelope F}
        → newest_spec Topic.lifecycle_started ch.last_seq ch.log ≡ some claim
        → is_empty (endings ch claim ch.last_seq) ≡ false
        → Gate ch none
    held_claim :
        {claim : Envelope F} {s : Started F}
        → newest_spec Topic.lifecycle_started ch.last_seq ch.log ≡ some claim
        → is_empty (endings ch claim ch.last_seq) ≡ true
        → parse_started claim.body ≡ ok s
        → Gate ch (some s.handle)

  newest_is :
      (ch : Channel F) (o : Option (Envelope F))
      → newest_claim ch ch.last_seq ≡ o
      → newest_spec Topic.lifecycle_started ch.last_seq ch.log ≡ o
  unfolding newest_claim wildcard
  newest_is ch o h = sym (newest_lem ch Topic.lifecycle_started ch.last_seq refl) ∙ h

  -- Where `live_episode` answers, it is the handle of the log's newest claim if no record ends it, else
  -- `None`.
  pub live_episode-Gate : (ch : Channel F) (o : Option String) → live_episode ch ≡ ok o → Gate ch o
  unfolding live_episode newest_claim
  live_episode-Gate ch o h = elim (Option-cases (newest_claim ch ch.last_seq)) [
    | inl e ↦
        let same : none ≡ o = ground (arith, h, e) in
        subst (Gate ch) same (unclaimed_run (newest_is ch none e))
    | inr (claim, e) ↦ elim (Result-cases (claim_verdict ch claim ch.last_seq)) [
      | inr (x, v) ↦ absurd (ground (arith, h, e, v))
      | inl (none, v) ↦ elim (Result-cases (verdict_parse parse_started claim)) [
        | inr (x, p) ↦ absurd (ground (arith, h, e, v, p))
        | inl (s, p) ↦
            let same : some s.handle ≡ o = ground (arith, h, e, v, p) in
            subst (Gate ch) same (
              held_claim (newest_is ch (some claim) e)
                (sym (claim_verdict-endings ch claim ch.last_seq none v))
                (verdict-parses parse_started claim s p))
      ]
      | inl (some r, v) ↦
          let same : none ≡ o = ground (arith, h, e, v) in
          subst (Gate ch) same (
            ended_claim (newest_is ch (some claim) e)
              (sym (claim_verdict-endings ch claim ch.last_seq (some r) v)))
    ]
  ]

  abbrev IsClean : Exit F → Type 0
  IsClean x = (x.stop.completed ≡ false) ⊎ (x.stop.error ≡ none)

  stop-clean :
      (e : Envelope F) (s : Stopped F)
      → readable parse_stopped e ≡ some s
      → (s.completed ≡ false) ⊎ (s.error ≡ none)
  stop-clean e s h =
      (ensured (IsStoppedBody-Ensures e.body) (readable-parses parse_stopped e s h)).0.clean

  exit-stop :
      (c : ℕ) (e : Envelope F) (x : Exit F)
      → exit_at c e ≡ some x
      → readable parse_stopped e ≡ some x.stop
  exit-stop c e x h = elim (Bool-cases (str_eq e.topic Topic.lifecycle_stopped)) [
    | inr other ↦ absurd (ground (arith, h, other))
    | inl stop ↦ elim (Option-cases (readable parse_stopped e)) [
      | inl bad ↦ absurd (ground (arith, h, stop, bad))
      | inr (s, r) ↦ r ∙ ground (arith, h, stop, r)
    ]
  ]

  exits-IsClean : (c : ℕ) (es : List (Envelope F)) → All IsClean (exits c es)
  exits-IsClean c [] = tt
  exits-IsClean c (e ∷ es) = elim (Option-cases (exit_at c e)) [
    | inl h ↦ rw h (exits-IsClean c es)
    | inr (x, h) ↦ rw h (stop-clean e x.stop (exit-stop c e x h), exits-IsClean c es)
  ]

  completes-only :
      (s : Stopped F)
      → (s.completed ≡ false) ⊎ (s.error ≡ none)
      → same_outcomes (only (self_report s)) (only completed) ≡ s.completed
  completes-only s clean = elim (Option-cases s.error) [
    | inr (x, e) ↦ rw e (ground (arith, clean, e))
    | inl e ↦ rw e (elim (Bool-cases s.completed) [ inl t ↦ rw t refl | inr f ↦ rw f refl ])
  ]

  completed_rule :
      (c : ℕ) (es : List (Envelope F)) (v : Option (RunResult F)) (xs : List (Exit F))
      → exits c es ≡ xs
      → All IsClean xs
      → rule c es ≡ ok v
      → worker_completed v ≡ any (λ x. x.stop.completed) xs
  unfolding worker_completed
  completed_rule c es v [] e clean h =
      let two = ap (settle none) e in
      let same : concluded c (found c es none) ≡ v = ground (arith, h, two) in
      rw (← same) (elim (Bool-cases (is_death_set (read_outcomes (found c es none)))) [
        | inl d ↦ rw d refl
        | inr n ↦ rw n refl
      ])
  completed_rule c es v (x ∷ []) e clean h =
      let one = ap (settle none) e in
      let same : concluded c (found c es (some x)) ≡ v = ground (arith, h, one) in
      rw (← same) (completes-only x.stop clean.0 ∙ ground arith)
  completed_rule c es v (x ∷ y ∷ xs) e clean h =
      absurd (let two = ap (settle none) e in ground (arith, h, two))

  -- Where `claim_verdict` returns, what it returns counts as completed exactly when the claim's window
  -- holds a readable exit of the claim that is completed.
  pub worker_completed-exits :
      (ch : Channel F) (claim : Envelope F) (w : ℕ) (v : Option (RunResult F))
      → claim_verdict ch claim w ≡ ok v
      → worker_completed v
        ≡ any (λ x. x.stop.completed) (exits claim.seq (between claim.seq w ending_topics ch.log))
  worker_completed-exits ch claim w v h =
      let es = between claim.seq w ending_topics ch.log in
      completed_rule claim.seq es v (exits claim.seq es) refl (exits-IsClean claim.seq es)
        (sym (claim_verdict_lem ch claim w) ∙ h)
