-- ===== src/Channel/Memory/Invariant.antt =====
-- The state of `MemoryLog` of runstate/channel/memory.py: its invariant, its constructor, `append`.
use runstate.Prelude.{
  ℕ, suc, ◌+◌, String, ◌≡◌, refl, sym, ◌↔◌, ◌⊎◌, inl, inr, true, Option, List, [], ◌∷◌, ◌++◌,
  append-nil, append_assoc, arith, str_eq, str_eq_iff, if◌then◌else◌, Bool-cases, length, ok, err,
}
use runstate.Json.{Fields}
use runstate.Channel.{Envelope}
use runstate.Channel.Interface.{IsContiguous}
use runstate.Channel.Memory.{
  Index, positions_of, add_position, MemoryLog, is_range, index_all, of_envelopes, append, moved,
}

module _ {F : Type 0} where
  -- The positions, counted from `i`, of the envelopes of a topic.
  abbrev pub positions : String → ℕ → List (Envelope F) → List ℕ
  positions t i [] = []
  positions t i (e ∷ es) =
      if str_eq e.topic t then i ∷ positions t (suc i) es else positions t (suc i) es

  pub record IsLog (l : MemoryLog F) : Type 0 where
    pub contiguous : IsContiguous 1 l.envelopes
    pub indexed : (t : String) → positions_of t l.by_topic ≡ positions t 0 l.envelopes

  pub IsContiguous-append :
      (n : ℕ) (es : List (Envelope F)) (e : Envelope F)
      → IsContiguous n es
      → e.seq ≡ n + length es
      → IsContiguous n (es ++ e ∷ [])
  IsContiguous-append n [] e h s = (omega arith, tt)
  IsContiguous-append n (x ∷ es) e h s = (h.0, IsContiguous-append (suc n) es e h.1 (omega arith))

  pub positions-append :
      (t : String) (i : ℕ) (es : List (Envelope F)) (e : Envelope F)
      → positions t i (es ++ e ∷ [])
        ≡ positions t i es ++ (if str_eq e.topic t then (i + length es) ∷ [] else [])
  positions-append t i [] e = ground arith
  positions-append t i (x ∷ es) e = ground (arith, positions-append t (suc i) es e)

  pub is_range→IsContiguous :
      (n : ℕ) (es : List (Envelope F)) → (is_range n es ≡ true) ↔ IsContiguous n es
  unfolding is_range
  is_range→IsContiguous n [] = ((λ _. tt), (λ _. refl))
  is_range→IsContiguous n (e ∷ es) =
      let ih = is_range→IsContiguous (suc n) es in
      ((λ h. (ground arith, ih.0 (ground arith))), (λ h. ground (arith, ih.1 h.1, h.0)))

pub positions_of-add_position :
    (t k : String) (i : ℕ) (idx : Index)
    → positions_of t (add_position k i idx)
      ≡ (if str_eq k t then positions_of t idx ++ i ∷ [] else positions_of t idx)
unfolding positions_of add_position
positions_of-add_position t k i [] = refl
positions_of-add_position t k i ((j, ps) ∷ rest) =
    ground
      (arith, positions_of-add_position t k i rest, str_eq_iff k t, str_eq_iff j t, str_eq_iff j k)

module _ {F : Type 0} where
  pub index_all-positions :
      (t : String) (i : ℕ) (es : List (Envelope F)) (idx : Index)
      → positions_of t (index_all i es idx) ≡ positions_of t idx ++ positions t i es
  unfolding index_all
  index_all-positions t i [] idx = sym (append-nil _)
  index_all-positions t i (e ∷ es) idx =
      let ih = index_all-positions t (suc i) es (add_position e.topic i idx) in
      let step = positions_of-add_position t e.topic i idx in
      elim (Bool-cases (str_eq e.topic t)) [
        | inl hit ↦
            rw (ih, step, hit) (append_assoc (positions_of t idx) (i ∷ []) (positions t (suc i) es))
        | inr miss ↦ rw (ih, step, miss) refl
      ]

  -- The constructor accepts exactly the envelopes whose seqs are contiguous from 1. It keeps them as
  -- they are and builds a log with a right index; it refuses all others.
  pub of_envelopes_lem :
      (es : List (Envelope F))
      → ((l : MemoryLog F) × (of_envelopes es ≡ ok l) × IsLog l × (l.envelopes ≡ es))
        ⊎ ((of_envelopes es ≡ err tt) × ¬ IsContiguous 1 es)
  unfolding of_envelopes positions_of
  of_envelopes_lem es = elim (Bool-cases (is_range 1 es)) [
    | inl in_range ↦ inl (
      record { envelopes = es; by_topic = index_all 0 es [] },
      rw in_range refl,
      record {
        contiguous = (is_range→IsContiguous 1 es).0 in_range;
        indexed = λ t. index_all-positions t 0 es [];
      },
      refl,
    )
    | inr out ↦ inr (rw out refl, λ h. cc ((is_range→IsContiguous 1 es).1 h, out))
  ]

  -- Every append, landed or lost, leaves a contiguous log with a right index.
  pub append-IsLog :
      (l : MemoryLog F) (body : Fields F) (topic : String) (name request_id : Option String)
      (expected_seq : Option ℕ)
      → IsLog l
      → IsLog (append l body topic name request_id expected_seq).1
  unfolding append
  append-IsLog l body topic name request_id expected_seq h =
      let e : Envelope F = record {
        seq = length l.envelopes + 1;
        topic = topic;
        name = name;
        request_id = request_id;
        body = body;
      } in
      elim (Bool-cases (moved expected_seq (length l.envelopes))) [
        | inl lost ↦ rw lost h
        | inr lands ↦ rw lands (record {
          contiguous = IsContiguous-append 1 l.envelopes e h.contiguous (omega arith);
          indexed = λ t.
              rw
                (
                  positions_of-add_position t topic (length l.envelopes) l.by_topic,
                  positions-append t 0 l.envelopes e,
                  h.indexed t,
                )
                (ground (arith, append-nil (positions t 0 l.envelopes)));
        })
      ]
