-- ===== src/Claims/Bindings.antt =====
-- The class `Bindings` of runstate/claims.py. A dict of sets is the list of its pairs, an id and a
-- claim; a set has no order.
pub mod Void
use runstate.Prelude.{
  ℕ, String, Bool, not, ◌&&◌, Option, none, some, List, [], ◌∷◌, str_eq, ◌==◌, if◌then◌else◌,
  filter, any, nat_mem,
}
use runstate.Json.{Number}
use runstate.Channel.{Envelope}
use runstate.Vocabulary.Topic
use runstate.Vocabulary.Payloads.Lifecycle.{Bound, parse_bound}
use runstate.Walk.Node.{readable}
use runstate.Claims.{request_name, ends}

pub record Bindings : Type 0 where
  pub bound : List (String × ℕ)
  pub bound_to : List (String × ℕ)
  pub claims : List ℕ
  pub ended : List ℕ

abbrev pub fresh : Bindings
fresh = record { bound = []; bound_to = []; claims = []; ended = [] }

-- `_bound_to.pop(claim, set())`: the ids, and what is left.
unfoldable pub ids_of : ℕ → List (String × ℕ) → List String
ids_of c [] = []
ids_of c ((r, k) ∷ rest) = if k == c then r ∷ ids_of c rest else ids_of c rest

abbrev pub without_claim : ℕ → List (String × ℕ) → List (String × ℕ)
without_claim c ps = filter (λ p. not (p.1 == c)) ps

-- Is the record one that newly ends a claim, and which?
abbrev pub newly_ended : Bindings → Option ℕ → Option ℕ
newly_ended b none = none
newly_ended b (some c) = if nat_mem c b.claims && not (nat_mem c b.ended) then some c else none

abbrev pub end_claim : Bindings → ℕ → List String × Bindings
end_claim b c =
    (ids_of c b.bound_to, record b { ended = c ∷ b.ended; bound_to = without_claim c b.bound_to })

abbrev pub bind : Bindings → Option String → Option Bound → List String × Bindings
bind b none o = ([], b)
bind b (some r) none = ([], b)
bind b (some r) (some k) =
    if nat_mem k.claim_seq b.ended
    then (r ∷ [], record b { bound = (r, k.claim_seq) ∷ b.bound })
    else (
      [],
      record b { bound = (r, k.claim_seq) ∷ b.bound; bound_to = (r, k.claim_seq) ∷ b.bound_to },
    )

module _ {F : Type 0} where
  -- One record applied; the ids that it newly binds to an ended claim.
  unfoldable pub apply : Bindings → Envelope F → List String × Bindings
  unfolding ends request_name readable ids_of
  apply b e =
      if str_eq e.topic Topic.lifecycle_started
      then ([], record b { claims = e.seq ∷ b.claims })
      else (elim (newly_ended b (ends e)) [
        | some c ↦ end_claim b c
        | none ↦
            if str_eq e.topic Topic.lifecycle_bound
            then bind b (request_name e) (readable parse_bound e)
            else ([], b)
      ])

-- Is an id bound to a claim that has ended?
unfoldable pub void : Bindings → String → Bool
void b r = any (λ p. str_eq p.0 r && nat_mem p.1 b.ended) b.bound

unfoldable pub forget : Bindings → String → Bindings
forget b r = record b { bound = filter (λ p. not (str_eq p.0 r)) b.bound }
