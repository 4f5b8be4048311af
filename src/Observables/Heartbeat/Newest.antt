-- ===== src/Observables/Heartbeat/Newest.antt =====
-- `current_heartbeat` of runstate/observables.py: its first read and its search.
use runstate.Prelude.{
  ℕ, String, ◌≡◌, refl, sym, ap, ◌∙◌, subst, inl, inr, Bool, true, false, ◌&&◌, ◌||◌, Option, none,
  some, List, [], ◌∷◌, arith, str_eq, ltb, leb, Bool-cases, Option-cases,
}
use runstate.Channel.{Envelope, last_where}
use runstate.Channel.Interface.{Channel}
use runstate.Channel.Last.{
  pick, last_where-same, last_where-found, last_where-none, last_where-narrow,
}
use runstate.Channel.Topics.{topic_match}
use runstate.Channel.Windows.{within, IsAfter, IsAfter-log}
use runstate.Vocabulary.Topic
use runstate.Walk.Backward.{first_window}
use runstate.Observables.Heartbeat.{beat_topics, if_above, newer, verify, current_heartbeat}
use runstate.Observables.Heartbeat.Search.{names, search_back_lem, last_where-filter}

module _ {F : Type 0} where
  abbrev pub of_topic : String → Envelope F → Bool
  of_topic t e = str_eq e.topic t && true

  if_above-newer :
      (c : ℕ) (a b : Option (Envelope F))
      → newer (if_above c a) (if_above c b) ≡ if_above c (newer a b)
  if_above-newer c none b = refl
  if_above-newer c (some a) none = ground arith
  if_above-newer c (some a) (some b) = ground arith

  newer-pick :
      (a b : Envelope F) (q : Bool) (e : Envelope F)
      → newer (some a) (some b) ≡ pick (newer (some a) (some b)) q e
  newer-pick a b q e = ground arith

  -- The newer of the last records of two tests is the last record of either.
  newer-last :
      (n : ℕ) (p q : Envelope F → Bool) (es : List (Envelope F))
      → IsAfter n es
      → newer (last_where p es) (last_where q es) ≡ last_where (λ e. p e || q e) es
  newer-last n p q [] h = refl
  newer-last n p q (e ∷ es) h =
      let ih = newer-last e.seq p q es h.1 in
      elim (Option-cases (last_where p es)) [
        | inl np ↦ elim (Option-cases (last_where q es)) [
          | inl nq ↦
              let k : last_where (λ x. p x || q x) es ≡ none = sym ih ∙ rw (np, nq) refl in
              rw (np, nq, k) (ground arith)
          | inr (d, fq) ↦
              let k : last_where (λ x. p x || q x) es ≡ some d = sym ih ∙ rw (np, fq) refl in
              let above = (last_where-found e.seq q es d h.1 fq).1 in
              rw (np, fq, k) (ground (arith, above))
        ]
        | inr (d, fp) ↦ elim (Option-cases (last_where q es)) [
          | inl nq ↦
              let k : last_where (λ x. p x || q x) es ≡ some d = sym ih ∙ rw (fp, nq) refl in
              let above = (last_where-found e.seq p es d h.1 fp).1 in
              rw (fp, nq, k) (ground (arith, above))
          | inr (d', fq) ↦
              let k : last_where (λ x. p x || q x) es ≡ newer (some d) (some d') =
                sym ih ∙ rw (fp, fq) refl in
              rw (fp, fq, k) (newer-pick d d' (p e || q e) e)
        ]
      ]

  -- Records above the last that passes a test pass it no more.
  up_to-last :
      (n : ℕ) (p r : Envelope F → Bool) (es : List (Envelope F)) (t : Envelope F)
      → IsAfter n es
      → last_where p es ≡ some t
      → last_where (λ e. r e && p e) es ≡ last_where (λ e. leb e.seq t.seq && (r e && p e)) es
  up_to-last n p r [] t h e = refl
  up_to-last n p r (x ∷ es) t h e = elim (Option-cases (last_where p es)) [
    | inr (d, f) ↦
        let same : d ≡ t = ground (arith, e, f) in
        let f' = f ∙ ap some same in
        let above = (last_where-found x.seq p es t h.1 f').1 in
        ap (λ o. pick o (r x && p x) x) (up_to-last x.seq p r es t h.1 f')
        ∙ ap (λ b. pick (last_where (λ e. leb e.seq t.seq && (r e && p e)) es) b x)
            (ground (arith, above))
    | inl f ↦
        let passes : p x ≡ true = ground (arith, e, f) in
        let same : x ≡ t = ground (arith, e, f, passes) in
        let low : leb x.seq t.seq ≡ true =
          subst (λ (y : Envelope F). leb x.seq y.seq ≡ true) same (ground arith) in
        let none' = last_where-none p r es f in
        rw (none', last_where-none (λ e. r e && p e) (λ e. leb e.seq t.seq) es none', low) refl
  ]

  last_where-never : (es : List (Envelope F)) → last_where (λ e. false) es ≡ none
  last_where-never [] = refl
  last_where-never (e ∷ es) = rw (last_where-never es) refl

  abbrev pub either : Envelope F → Bool
  either e = of_topic Topic.lifecycle_commit e || of_topic Topic.lifecycle_heartbeat e

  abbrev pub wanted : ℕ → Envelope F → Bool
  wanted c e = (ltb c e.seq && names c e) && either e

  -- From the last record on the two topics, the rest of the call finds the claim's last.
  verify_lem :
      (ch : Channel F) (c : ℕ) (o : Option (Envelope F))
      → last_where either ch.log ≡ o
      → verify ch c (if_above c o) ≡ last_where (wanted c) ch.log
  unfolding topic_match
  verify_lem ch c none h = sym (last_where-none either (λ e. ltb c e.seq && names c e) ch.log h)
  verify_lem ch c (some t) h =
      let cut = up_to-last 0 either (λ e. ltb c e.seq && names c e) ch.log t (IsAfter-log ch) h in
      elim (Bool-cases (ltb c t.seq)) [
        | inr below ↦ rw below (
            sym (
              cut
              ∙ last_where-same 0 _ (λ e. false) ch.log (IsAfter-log ch)
                  (λ e above. ground (arith, below))
              ∙ last_where-never ch.log))
        | inl above ↦ elim (Bool-cases (names c t)) [
          | inl own ↦
              rw (above, own)
                (sym (
                  last_where-narrow either (λ e. ltb c e.seq && names c e) ch.log t h
                    (rw (above, own) refl)))
          | inr other ↦
              rw (above, other)
                (search_back_lem ch t.seq c t.seq first_window (omega arith) (omega arith)
                  ∙ last_where-filter (names c) (within c t.seq (some beat_topics))
                      (λ e. within c t.seq (some beat_topics) e && names c e) ch.log (λ e. refl)
                  ∙ last_where-same 0 _ (λ e. leb e.seq t.seq && wanted c e) ch.log (IsAfter-log ch)
                      (λ e above'. ground arith)
                  ∙ sym cut)
        ]
      ]

  -- `current_heartbeat` is the log's last commit or heartbeat above the claim that names it.
  pub current_heartbeat-last_where :
      (ch : Channel F) (claim : Envelope F)
      → current_heartbeat ch (some claim) ≡ last_where (wanted claim.seq) ch.log
  unfolding current_heartbeat
  current_heartbeat-last_where ch claim =
      rw
        (
          ch.latest_lem Topic.lifecycle_commit none,
          ch.latest_lem Topic.lifecycle_heartbeat none,
          if_above-newer claim.seq (last_where (of_topic Topic.lifecycle_commit) ch.log)
              (last_where (of_topic Topic.lifecycle_heartbeat) ch.log),
          newer-last 0 (of_topic Topic.lifecycle_commit) (of_topic Topic.lifecycle_heartbeat) ch.log
              (IsAfter-log ch),
        )
        (verify_lem ch claim.seq (last_where either ch.log) refl)
