-- ===== src/Claims/Bindings/Void.antt =====
-- `Bindings.apply` and `Bindings.void` of runstate/claims.py.
use runstate.Prelude.{
  ℕ, String, ◌≡◌, refl, inl, inr, Bool, true, false, not, ◌&&◌, ◌||◌, Option, none, some, List, [],
  ◌∷◌, arith, str_eq, str_eq_iff, ◌==◌, Bool-cases, Option-cases, filter, any, str_mem, nat_mem,
}
use runstate.Channel.{Envelope}
use runstate.Vocabulary.Payloads.Lifecycle.{Bound, parse_bound}
use runstate.Vocabulary.Topic
use runstate.Walk.Node.{readable}
use runstate.Claims.{ends, request_name}
use runstate.Claims.Bindings.{
  Bindings, ids_of, without_claim, end_claim, bind, apply, void, forget, fresh, newly_ended,
}

abbrev pub has_pair : String → ℕ → List (String × ℕ) → Bool
has_pair r c ps = any (λ p. str_eq p.0 r && (p.1 == c)) ps

-- Every binding that is kept names a claim that has ended, or one that still holds the id.
pub record IsIndexed (b : Bindings) : Type 0 where
  pub indexed :
      (r : String) (c : ℕ)
      → has_pair r c b.bound ≡ true
      → (nat_mem c b.ended || has_pair r c b.bound_to) ≡ true

has_pair-without :
    (r : String) (c k : ℕ) (ps : List (String × ℕ))
    → (c == k) ≡ false
    → has_pair r c (without_claim k ps) ≡ has_pair r c ps
has_pair-without r c k [] ne = refl
has_pair-without r c k (p ∷ ps) ne = ground (arith, has_pair-without r c k ps ne)

str_eq-sym : (s t : String) → str_eq s t ≡ str_eq t s
str_eq-sym s t = ground (arith, str_eq_iff s t, str_eq_iff t s)

ids_of-has_pair :
    (r : String) (c : ℕ) (ps : List (String × ℕ)) → str_mem r (ids_of c ps) ≡ has_pair r c ps
unfolding ids_of
ids_of-has_pair r c [] = refl
ids_of-has_pair r c ((s, k) ∷ ps) = ground (arith, str_eq-sym r s, ids_of-has_pair r c ps)

ended_pair :
    (r : String) (c : ℕ) (ended : List ℕ) (ps : List (String × ℕ))
    → any (λ p. str_eq p.0 r && nat_mem p.1 (c ∷ ended)) ps ≡ true
    → any (λ p. str_eq p.0 r && nat_mem p.1 ended) ps ≡ false
    → has_pair r c ps ≡ true
ended_pair r c ended [] now before = ground arith
ended_pair r c ended (p ∷ ps) now before = ground (arith, ended_pair r c ended ps)

-- The outcome of one record: the ids that it names, and the bindings after it. The index stays
-- whole, and an id that was not void and now is has been named.
pub record IsStep (b : Bindings) (out : List String × Bindings) : Type 0 where
  pub kept : IsIndexed out.1
  pub named : (r : String) → void out.1 r ≡ true → void b r ≡ false → str_mem r out.0 ≡ true

unchanged-IsStep : (b : Bindings) → IsIndexed b → IsStep b ([], b)
unchanged-IsStep b h = record { kept = h; named = λ r now before. ground arith }

end_claim-IsStep :
    (b : Bindings) (c : ℕ) → nat_mem c b.ended ≡ false → IsIndexed b → IsStep b (end_claim b c)
unfolding void
end_claim-IsStep b c new h = record {
  kept = record {
    indexed = λ r k held. elim (Bool-cases (k == c)) [
      | inl same ↦ ground arith
      | inr other ↦
          rw (has_pair-without r k c b.bound_to other) (ground (arith, h.indexed r k held))
    ];
  };
  named = λ r now before.
      rw (ids_of-has_pair r c b.bound_to)
        (ground (arith, new, h.indexed r c (ended_pair r c b.ended b.bound now before)));
}

bind-IsStep :
    (b : Bindings) (n : Option String) (o : Option Bound) → IsIndexed b → IsStep b (bind b n o)
unfolding void
bind-IsStep b none o h = unchanged-IsStep b h
bind-IsStep b (some r) none h = unchanged-IsStep b h
bind-IsStep b (some r) (some k) h = elim (Bool-cases (nat_mem k.claim_seq b.ended)) [
  | inl over ↦ rw over record {
    kept = record { indexed = λ s c held. ground (arith, over, h.indexed s c) };
    named = λ s now before. ground (arith, str_eq-sym s r);
  }
  | inr open' ↦ rw open' record {
    kept = record { indexed = λ s c held. ground (arith, h.indexed s c) };
    named = λ s now before. ground (arith, open');
  }
]

newly_ended-new :
    (b : Bindings) (o : Option ℕ) (c : ℕ) → newly_ended b o ≡ some c → nat_mem c b.ended ≡ false
newly_ended-new b none c h = ground arith
newly_ended-new b (some k) c h = ground (arith, h)

claims-IsStep : (b : Bindings) (cs : List ℕ) → IsIndexed b → IsStep b ([], record b { claims = cs })
unfolding void
claims-IsStep b cs h = record {
  kept = record { indexed = h.indexed };
  named = λ r now before. ground arith;
}

module _ {F : Type 0} where
  -- Applied to any record, the class keeps its index whole, and names every id that the record
  -- makes void.
  pub apply-IsStep : (b : Bindings) (e : Envelope F) → IsIndexed b → IsStep b (apply b e)
  unfolding apply
  apply-IsStep b e h = elim (Bool-cases (str_eq e.topic Topic.lifecycle_started)) [
    | inl t ↦ rw t (claims-IsStep b (e.seq ∷ b.claims) h)
    | inr f ↦ rw f (elim (Option-cases (newly_ended b (ends e))) [
      | inr c ↦ rw c.1 (end_claim-IsStep b c.0 (newly_ended-new b (ends e) c.0 c.1) h)
      | inl n ↦ rw n (elim (Bool-cases (str_eq e.topic Topic.lifecycle_bound)) [
        | inl t ↦ rw t (bind-IsStep b (request_name e) (readable parse_bound e) h)
        | inr g ↦ rw g (unchanged-IsStep b h)
      ])
    ])
  ]

pub fresh-IsIndexed : IsIndexed fresh
fresh-IsIndexed = record { indexed = λ r c held. ground arith }

has_pair-filter :
    (s : String) (c : ℕ) (r : String) (ps : List (String × ℕ))
    → has_pair s c (filter (λ p. not (str_eq p.0 r)) ps) ≡ true
    → has_pair s c ps ≡ true
has_pair-filter s c r [] held = held
has_pair-filter s c r (p ∷ ps) held = ground (arith, has_pair-filter s c r ps)

pub forget-IsIndexed : (b : Bindings) (r : String) → IsIndexed b → IsIndexed (forget b r)
unfolding forget
forget-IsIndexed b r h = record {
  indexed = λ s c held. h.indexed s c (has_pair-filter s c r b.bound held);
}

module _ {F : Type 0} where
  -- Applying a record keeps every kept binding either of an ended claim or listed under its claim.
  pub apply-IsIndexed : (b : Bindings) (e : Envelope F) → IsIndexed b → IsIndexed (apply b e).1
  apply-IsIndexed b e h = (apply-IsStep b e h).kept

  -- Of an indexed `Bindings`, an id that was not void and is void after a record is one that
  -- `apply` answered with.
  pub apply-void :
      (b : Bindings) (e : Envelope F) (r : String)
      → IsIndexed b
      → void b r ≡ false
      → void (apply b e).1 r ≡ true
      → str_mem r (apply b e).0 ≡ true
  apply-void b e r h before now = (apply-IsStep b e h).named r now before
