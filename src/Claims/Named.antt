-- ===== src/Claims/Named.antt =====
-- The claim that an exit or a death report of runstate/vocabulary/payloads.py names.
use runstate.Prelude.{
  ℕ, ◌≡◌, subst, inl, inr, Option, none, some, [], ◌∷◌, arith, Result, Ensures, bind-Ensures,
  ensured, Ensures-any, Ensures-of, Result-cases, ok, returns,
}
use runstate.Json.{Number, Fields, get}
use runstate.Channel.{Envelope}
use runstate.Vocabulary.Checks.{
  BodyError, check, takes, seq_of, bool_of, error_of, names_of, parent_of, values_of, time_of,
}
use runstate.Vocabulary.Payloads.Lifecycle.{Stopped, parse_stopped, exit_checks, stopped_keys}
use runstate.Vocabulary.Payloads.Exits.{exit_checks-eq}
use runstate.Vocabulary.Payloads.Supervisor.{Died, parse_died, death_of, evidence_of}
use runstate.Walk.Node.{readable, verdict_parse}
use runstate.Claims.{named_claim}

module _ {F : Type 0} where
  abbrev claim_in : Fields F → Option ℕ
  claim_in body = elim (get "claim_seq" body) [ none ↦ none | some j ↦ seq_of j ]

  claim_seq-Ensures :
      (body : Fields F) → Ensures (λ c. claim_in body ≡ some c) (check "claim_seq" seq_of body)
  unfolding check
  claim_seq-Ensures body = Ensures-of (check "claim_seq" seq_of body) (λ c h. ground (arith, h))

module _ {F A : Type 0} where
  pub verdict-parses :
      (parse : Fields F → Result BodyError A) (e : Envelope F) (a : A)
      → verdict_parse parse e ≡ ok a
      → parse e.body ≡ ok a
  unfolding verdict_parse
  verdict-parses parse e a h = elim (Result-cases (parse e.body)) [
    | inl (b, p) ↦ ground (arith, p, h)
    | inr (x, p) ↦ absurd (ground (arith, p, h))
  ]

  pub readable-parses :
      (parse : Fields F → Result BodyError A) (e : Envelope F) (a : A)
      → readable parse e ≡ some a
      → parse e.body ≡ ok a
  unfolding readable verdict_parse
  readable-parses parse e a h = elim (Result-cases (parse e.body)) [
    | inl (b, p) ↦ ground (arith, p, h)
    | inr (x, p) ↦ absurd (ground (arith, p, h))
  ]

module _ {F : Type 0} ⦃num : Number F⦄ where
  stopped-Ensures :
      (body : Fields F)
      → Ensures (λ (s : Stopped F). claim_in body ≡ some s.claim_seq) (parse_stopped body)
  unfolding parse_stopped
  stopped-Ensures body = bind-Ensures (Ensures-any (takes stopped_keys body)) λ _ _.
      bind-Ensures (Ensures-any (check "completed" bool_of body)) λ d _.
        bind-Ensures (Ensures-any (check "error" error_of body)) λ e _.
          bind-Ensures (claim_seq-Ensures body) λ c claim.
            bind-Ensures (Ensures-any (check "honored" names_of body)) λ h _.
              bind-Ensures (Ensures-any (check "parent" parent_of body)) λ p _.
                bind-Ensures (Ensures-any (check "values" values_of body)) λ vs _.
                  bind-Ensures (Ensures-any (check "fired" names_of body)) λ f _.
                    bind-Ensures (Ensures-any (check "expired" names_of body)) λ x _.
                      bind-Ensures (Ensures-any (check "t" time_of body)) λ t _.
                        Ensures-of (exit_checks _) λ s kept.
                          subst (λ (r : Stopped F). claim_in body ≡ some r.claim_seq)
                            (exit_checks-eq _ s kept) claim

  died-Ensures :
      (body : Fields F)
      → Ensures (λ (d : Died F). claim_in body ≡ some d.claim_seq) (parse_died body)
  unfolding parse_died
  died-Ensures body =
      bind-Ensures (Ensures-any (takes ("claim_seq" ∷ "outcome" ∷ "evidence" ∷ "t" ∷ []) body))
        λ _ _. bind-Ensures (claim_seq-Ensures body) λ c claim.
          bind-Ensures (Ensures-any (check "outcome" death_of body)) λ o _.
            bind-Ensures (Ensures-any (check "evidence" evidence_of body))
              λ e _. bind-Ensures (Ensures-any (check "t" time_of body)) λ t _. returns claim

  pub stopped-names :
      (e : Envelope F) (s : Stopped F)
      → readable parse_stopped e ≡ some s
      → named_claim e ≡ some s.claim_seq
  unfolding named_claim
  stopped-names e s h = ensured (stopped-Ensures e.body) (readable-parses parse_stopped e s h)

  pub died-names :
      (e : Envelope F) (d : Died F)
      → readable parse_died e ≡ some d
      → named_claim e ≡ some d.claim_seq
  unfolding named_claim
  died-names e d h = ensured (died-Ensures e.body) (readable-parses parse_died e d h)
