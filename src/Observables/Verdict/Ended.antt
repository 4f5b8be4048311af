-- ===== src/Observables/Verdict/Ended.antt =====
-- `claim_verdict` of runstate/observables.py and the records that end a claim.
use runstate.Prelude.{
  ℕ, ◌≡◌, refl, sym, ap, ◌∙◌, inl, inr, Bool, true, false, not, ◌&&◌, ◌||◌, Option, none, some,
  List, [], ◌∷◌, arith, str_eq, ltb, leb, if◌then◌else◌, Bool-cases, Option-cases, and_right,
  filter, any, cons_some, Result-cases, ok,
}
use runstate.Json.{Number}
use runstate.Channel.{Envelope}
use runstate.Channel.Interface.{Channel}
use runstate.Channel.Windows.{within}
use runstate.Vocabulary.Topic
use runstate.Vocabulary.Outcome.{
  Outcome, completed, preempted, errored, killed, lost, presumed_dead,
}
use runstate.Vocabulary.Payloads.Lifecycle.{parse_stopped, is_some}
use runstate.Vocabulary.Payloads.Supervisor.{parse_died}
use runstate.Walk.Node.{readable}
use runstate.Claims.{
  named_claim, names_claim, if_below, is_ending_topic, ends, ending_topics, endings,
}
use runstate.Claims.Named.{stopped-names, died-names}
use runstate.Claims.Windowed.{topic-ending}
use runstate.Observables.Tail.{between, claim_window_lem}
use runstate.Observables.Verdict.Tiers.{
  DeathReport, RunResult, Outcomes, is_empty, is_death_set, same_outcome,
}
use runstate.Observables.Verdict.{Exit, read_outcomes, reported, claim_verdict}
use runstate.Observables.Verdict.Loop.{exits, exit_at, reports_in, report_at, ends_unread, settle}
use runstate.Observables.Verdict.Rule.{rule, found, concluded, claim_verdict_lem}

size-has : (s : Outcomes) (o : Outcome) → s o ≡ true → is_death_set s ≡ true
size-has s completed h = rw h (ground arith)
size-has s preempted h = rw h (ground arith)
size-has s errored h = rw h (ground arith)
size-has s killed h = rw h (ground arith)
size-has s lost h = rw h (ground arith)
size-has s presumed_dead h = rw h (ground arith)

same_outcome_refl : (o : Outcome) → same_outcome o o ≡ true
same_outcome_refl completed = refl
same_outcome_refl preempted = refl
same_outcome_refl errored = refl
same_outcome_refl killed = refl
same_outcome_refl lost = refl
same_outcome_refl presumed_dead = refl

-- A record above the claim that names it does not name it from below.
below-names :
    (c s : ℕ) (named : Option ℕ)
    → ltb c s ≡ true
    → names_claim (if_below s named) c ≡ names_claim named c
below-names c s none h = refl
below-names c s (some k) h = ground (arith, h)

none-step :
    {A B C : Type 0} (n u b : Bool) (x : Option A) (r : Option B) (e : C) (xs : List A)
    (rs : List B) (es : List C)
    → n ≡ (is_some x || is_some r || u)
    → is_empty es ≡ (is_empty xs && is_empty rs && not b)
    → is_empty (if n then e ∷ es else es)
      ≡ (is_empty (cons_some x xs) && is_empty (cons_some r rs) && not (u || b))
none-step n u b (some x) r e xs rs es h ih = rw h refl
none-step n u b none (some r) e xs rs es h ih = rw h (ground arith)
none-step n true b none none e xs rs es h ih = rw h (ground arith)
none-step n false b none none e xs rs es h ih = rw h ih

module _ {F : Type 0} where
  death_set_found :
      (rs : List (DeathReport F)) (b : Bool)
      → is_death_set (λ o. reported rs o || (b && same_outcome lost o)) ≡ (not (is_empty rs) || b)
  death_set_found [] true = refl
  death_set_found [] false = refl
  death_set_found (r ∷ rs) b =
      size-has (λ o. reported (r ∷ rs) o || (b && same_outcome lost o)) r.outcome
        (rw (same_outcome_refl r.outcome) refl)

  -- The claim is held, or how it ended.
  abbrev pub is_held : Option (RunResult F) → Bool
  is_held none = true
  is_held (some r) = false

module _ {F : Type 0} ⦃num : Number F⦄ where
  ends-named :
      (c w : ℕ) (e : Envelope F)
      → within c w (some ending_topics) e ≡ true
      → names_claim (ends e) c ≡ names_claim (named_claim e) c
  unfolding ends
  ends-named c w e h =
      let above : ltb c e.seq ≡ true = ground (arith, h) in
      let ending : is_ending_topic e.topic ≡ true =
        sym (topic-ending e.topic) ∙ and_right (ltb c e.seq && leb e.seq w) _ h in
      rw ending (below-names c e.seq (named_claim e) above)

  -- A record that names the claim is its exit, a report on it, or unreadable.
  names-kinds :
      (c : ℕ) (e : Envelope F)
      → names_claim (named_claim e) c
        ≡ (is_some (exit_at c e) || is_some (report_at c e) || ends_unread c e)
  names-kinds c e = elim (Bool-cases (str_eq e.topic Topic.lifecycle_stopped)) [
    | inl stop ↦ elim (Option-cases (readable parse_stopped e)) [
      | inl bad ↦ rw (stop, bad) (ground arith)
      | inr (s, h) ↦ rw (stop, h, stopped-names e s h) (ground arith)
    ]
    | inr other ↦ elim (Option-cases (readable parse_died e)) [
      | inl bad ↦ rw (other, bad) (ground arith)
      | inr (d, h) ↦ rw (other, h, died-names e d h) (ground arith)
    ]
  ]

  -- No record of a list names the claim if it has no exit, no report and no such unreadable record.
  names-none :
      (c : ℕ) (es : List (Envelope F))
      → is_empty (filter (λ e. names_claim (named_claim e) c) es)
        ≡ (is_empty (exits c es) && is_empty (reports_in c es) && not (any (ends_unread c) es))
  names-none c [] = refl
  names-none c (e ∷ es) =
      none-step (names_claim (named_claim e) c) (ends_unread c e) (any (ends_unread c) es)
        (exit_at c e) (report_at c e) e (exits c es) (reports_in c es)
        (filter (λ x. names_claim (named_claim x) c) es) (names-kinds c e) (names-none c es)

  settled-exit :
      (xs : List (Exit F)) (o : Option (Exit F))
      → settle none xs ≡ ok o
      → is_empty xs ≡ not (is_some o)
  settled-exit [] o h = ground arith
  settled-exit (x ∷ []) o h = ground arith
  settled-exit (x ∷ y ∷ xs) o h = absurd (ground arith)

  held-concluded :
      (c : ℕ) (es : List (Envelope F)) (o : Option (Exit F))
      → is_held (concluded c (found c es o))
        ≡ (not (is_some o) && is_empty (reports_in c es) && not (any (ends_unread c) es))
  held-concluded c es (some x) = refl
  held-concluded c es none = elim (Bool-cases (is_death_set (read_outcomes (found c es none)))) [
    | inl d ↦ rw d (ground (arith, d, death_set_found (reports_in c es) (any (ends_unread c) es)))
    | inr n ↦ rw n (ground (arith, n, death_set_found (reports_in c es) (any (ends_unread c) es)))
  ]

  held-rule :
      (c : ℕ) (es : List (Envelope F)) (v : Option (RunResult F))
      → rule c es ≡ ok v
      → is_held v ≡ is_empty (filter (λ e. names_claim (named_claim e) c) es)
  held-rule c es v h = elim (Result-cases (settle none (exits c es))) [
    | inr (x, e) ↦ absurd (ground (arith, h, e))
    | inl (o, e) ↦
        let same : concluded c (found c es o) ≡ v = ground (arith, h, e) in
        rw (← same, held-concluded c es o, names-none c es, settled-exit (exits c es) o e) refl
  ]

  -- In the claim's window, to end the claim is to name it.
  endings_between :
      (c w : ℕ) (es : List (Envelope F))
      → filter (λ e. names_claim (ends e) c) (between c w ending_topics es)
        ≡ filter (λ e. names_claim (named_claim e) c) (between c w ending_topics es)
  endings_between c w [] = refl
  endings_between c w (e ∷ es) = elim (Bool-cases (within c w (some ending_topics) e)) [
    | inr out ↦ rw out (endings_between c w es)
    | inl inside ↦
        rw (inside, ends-named c w e inside)
          (ap (λ zs. if names_claim (named_claim e) c then e ∷ zs else zs) (endings_between c w es))
  ]

  pub endings_named :
      (ch : Channel F) (claim : Envelope F) (w : ℕ)
      → endings ch claim w
        ≡ filter
            (λ e. names_claim (named_claim e) claim.seq)
            (between claim.seq w ending_topics ch.log)
  unfolding endings
  endings_named ch claim w =
      rw (claim_window_lem ch claim w ending_topics) (endings_between claim.seq w ch.log)

  -- Where `claim_verdict` returns, it is `None` exactly when no record ends the claim.
  pub claim_verdict-endings :
      (ch : Channel F) (claim : Envelope F) (w : ℕ) (v : Option (RunResult F))
      → claim_verdict ch claim w ≡ ok v
      → is_held v ≡ is_empty (endings ch claim w)
  claim_verdict-endings ch claim w v h = rw (endings_named ch claim w) (
      held-rule claim.seq (between claim.seq w ending_topics ch.log) v
        (sym (claim_verdict_lem ch claim w) ∙ h))
