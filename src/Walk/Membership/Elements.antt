-- ===== src/Walk/Membership/Elements.antt =====
-- `members` and the classification of values of runstate/walk.py, and the rule of membership.
use runstate.Prelude.{
  ℕ, String, ◌≡◌, refl, sym, ◌∙◌, inl, inr, Bool, true, false, not, ◌&&◌, Option, none, some, List,
  [], ◌∷◌, ◌++◌, map, arith, str_eq, str_eq_iff, ltb, if◌then◌else◌, Bool-cases, Option-cases,
  filter, str_mem, Ensures, bind-Ensures, ensured, Result-cases, ok, returns, raises,
}
use runstate.Json.{Number}
use runstate.Channel.{Envelope}
use runstate.Vocabulary.Topic
use runstate.Vocabulary.Payloads.Lifecycle.{Started, parse_started, claim_of, committed}
use runstate.Walk.Node.{At, verdict_parse, readable}
use runstate.Walk.Backward.{find_record}
use runstate.Walk.Lineage.{Walked}
use runstate.Walk.Membership.{
  Classified, Declarations, declared_by, wanted, value_record, not_a_value, declared, resolve,
  classify_named, classify_values, classify_nodes, classified, elements_of, members,
}

abbrev pub is_named : String → Option String → Bool
is_named x none = false
is_named x (some n) = str_eq n x

module _ {F : Type 0} where
  abbrev pub sources_or_nil : Option (Started F) → List String
  sources_or_nil none = []
  sources_or_nil (some s) = s.sources

  elements_of-append :
      (cs bs : List (Classified F)) → elements_of (cs ++ bs) ≡ elements_of cs ++ elements_of bs
  unfolding elements_of
  elements_of-append [] bs = refl
  elements_of-append (c ∷ cs) bs = ground (arith, elements_of-append cs bs)

module _ {F : Type 0} ⦃num : Number F⦄ where
  -- What the record of a claim declares its sources, if it is a readable `started`.
  abbrev pub sources_at : Option (Envelope F) → List String
  sources_at none = []
  sources_at (some e) =
      if str_eq e.topic Topic.lifecycle_started
      then sources_or_nil (readable parse_started e)
      else []

  abbrev pub claim_sources : Walked F → ℕ → List String
  claim_sources w c = sources_at (find_record c w.records)

  -- The rule: a record on topic `value` named `x`, whose claim did not declare `x` a source.
  abbrev pub named_at : String → Option (Envelope F) → Bool
  named_at x none = false
  named_at x (some e) = str_eq e.topic Topic.value && is_named x e.name

  abbrev pub is_element : Walked F → String → At F → ℕ → Bool
  is_element w x at s =
      named_at x (find_record s w.records) && not (str_mem x (claim_sources w (claim_of at.node)))

  abbrev pub elements_by : Walked F → String → At F → List ℕ → List (At F × ℕ)
  elements_by w x at vs = map (λ s. (at, s)) (filter (is_element w x at) vs)

  -- The committed values that are elements by the rule, in lineage order.
  abbrev pub elements_in : Walked F → String → List (At F) → List (At F × ℕ)
  elements_in w x [] = []
  elements_in w x (at ∷ rest) = elements_by w x at (committed at.node) ++ elements_in w x rest

  module _ (w : Walked F) where
    abbrev IsKnown : Declarations → Type 0
    IsKnown known =
        (c : ℕ) (ss : List String) → declared_by c known ≡ some ss → ss ≡ claim_sources w c

    declared_lem :
        (at : At F) (ss : List String)
        → declared w at ≡ ok ss
        → ss ≡ claim_sources w (claim_of at.node)
    unfolding declared readable verdict_parse
    declared_lem at ss h = elim (Bool-cases (ltb (claim_of at.node) at.env.seq)) [
      | inr f ↦ absurd (ground (arith, f, h))
      | inl t ↦ elim (Option-cases (find_record (claim_of at.node) w.records)) [
        | inl n ↦ absurd (ground (arith, t, n, h))
        | inr (e, p) ↦ elim (Bool-cases (str_eq e.topic Topic.lifecycle_started)) [
          | inr f ↦ absurd (ground (arith, t, p, f, h))
          | inl s ↦ elim (Result-cases (parse_started e.body)) [
            | inr (x, q) ↦ absurd (ground (arith, t, p, s, q, h))
            | inl (b, q) ↦ ground (arith, t, p, s, q, h)
          ]
        ]
      ]
    ]

    resolve-Ensures :
        (at : At F) (known : Declarations)
        → IsKnown known
        → Ensures
            (λ r. (r.0 ≡ claim_sources w (claim_of at.node)) × IsKnown r.1)
            (resolve w at known)
    unfolding resolve declared_by
    resolve-Ensures at known h = elim (Option-cases (declared_by (claim_of at.node) known)) [
      | inr (ss, p) ↦ rw (p, resolve) (returns (h (claim_of at.node) ss p, h))
      | inl n ↦
          rw (n, resolve)
            (elim (Result-cases (declared w at)) [
              | inr (x, q) ↦ rw q raises
              | inl (ss, q) ↦
                  let same = declared_lem at ss q in
                  rw q (returns (same, λ c ss' p. ground (arith, same, h c ss')))
            ])
    ]

    value_record-Ensures :
        (at : At F) (s : ℕ)
        → Ensures
            (λ e. (find_record s w.records ≡ some e) × (str_eq e.topic Topic.value ≡ true))
            (value_record w at s)
    unfolding value_record not_a_value
    value_record-Ensures at s = elim (Option-cases (find_record s w.records)) [
      | inl n ↦ rw n raises
      | inr (e, p) ↦ rw p (elim (Bool-cases (str_eq e.topic Topic.value)) [
        | inl t ↦ rw t (returns (refl, t))
        | inr f ↦ rw f raises
      ])
    ]

    module _ (x : String) where
      abbrev Fits : At F → List ℕ → List (Classified F) × Declarations → Type 0
      Fits at vs r = (elements_of r.0 ≡ elements_by w x at vs) × IsKnown r.1

      classify_named-Ensures :
          (at : At F) (s : ℕ) (e : Envelope F) (known : Declarations)
          → find_record s w.records ≡ some e
          → str_eq e.topic Topic.value ≡ true
          → IsKnown known
          → Ensures
              (Fits at (s ∷ []))
              (classify_named w at s known (wanted (λ n. str_eq n x) e.name))
      unfolding elements_of
      classify_named-Ensures at s e known p v h = elim (Option-cases e.name) [
        | inl n ↦ rw n (returns (rw (p, v, n) refl, h))
        | inr (n, q) ↦ elim (Bool-cases (str_eq n x)) [
          | inr other ↦ rw (q, other) (returns (rw (p, v, q, other) refl, h))
          | inl same ↦
              rw (q, same)
                (bind-Ensures (resolve-Ensures at known h)
                  λ r k. returns (ground (arith, p, v, q, same, k.0, str_eq_iff n x), k.1))
        ]
      ]

      elements_by-cons :
          (at : At F) (s : ℕ) (vs : List ℕ)
          → elements_by w x at (s ∷ vs) ≡ elements_by w x at (s ∷ []) ++ elements_by w x at vs
      elements_by-cons at s vs = elim (Bool-cases (is_element w x at s)) [
        | inl t ↦ rw t refl
        | inr f ↦ rw f refl
      ]

      classify_values-Ensures :
          (at : At F) (vs : List ℕ) (known : Declarations)
          → IsKnown known
          → Ensures (Fits at vs) (classify_values w (λ n. str_eq n x) at vs known)
      unfolding classify_values elements_of
      classify_values-Ensures at [] known h = returns (refl, h)
      classify_values-Ensures at (s ∷ vs) known h = bind-Ensures (value_record-Ensures at s) λ e p.
          bind-Ensures (classify_named-Ensures at s e known p.0 p.1 h) λ this k.
            bind-Ensures (classify_values-Ensures at vs this.1 k.1) λ others m. returns (
              elements_of-append this.0 others.0 ∙ rw (k.0, m.0) (sym (elements_by-cons at s vs)),
              m.1,
            )

      classify_nodes-Ensures :
          (nodes : List (At F)) (known : Declarations)
          → IsKnown known
          → Ensures
              (λ r. elements_of r.0 ≡ elements_in w x nodes)
              (classify_nodes w (λ n. str_eq n x) nodes known)
      unfolding classify_nodes elements_of
      classify_nodes-Ensures [] known h = returns refl
      classify_nodes-Ensures (at ∷ nodes) known h =
          bind-Ensures (classify_values-Ensures at (committed at.node) known h) λ these k.
            bind-Ensures (classify_nodes-Ensures nodes these.1 k.1)
              λ others m. returns (elements_of-append these.0 others.0 ∙ rw (k.0, m) refl)

  members-Ensures :
      (w : Walked F) (x : String) → Ensures (λ ms. ms ≡ elements_in w x w.nodes) (members w x)
  unfolding members classified declared_by
  members-Ensures w x =
      bind-Ensures
        (bind-Ensures (classify_nodes-Ensures w x w.nodes [] (λ c ss p. ground arith))
          λ r k. returns k)
        λ cs k. returns k

  -- The members of a stream, where the read does not raise, are by the rule of membership the
  -- committed seqs whose record is on topic `value` and named for the stream, and whose claim did not
  -- declare the stream a source, each with its node, in lineage order.
  pub members_lem :
      (w : Walked F) (x : String) (ms : List (At F × ℕ))
      → members w x ≡ ok ms
      → ms ≡ elements_in w x w.nodes
  members_lem w x ms h = ensured (members-Ensures w x) h
