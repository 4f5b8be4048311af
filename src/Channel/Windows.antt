-- ===== src/Channel/Windows.antt =====
-- Reads of a window of the log, `read(after=lo, limit=hi - lo)` kept up to `hi`, as
-- runstate/walk.py and runstate/claims.py make them.
pub mod Split
use runstate.Prelude.{
  ℕ, zero, suc, ◌+◌, ◌-◌, ◌≤◌, ◌<◌, String, ◌≡◌, refl, sym, ap, ◌∙◌, subst, inl, inr, Bool, false,
  ◌&&◌, Option, none, some, List, [], ◌∷◌, arith, ltb, leb, ltb→lt, Bool-cases, take, filter,
}
use runstate.Prelude.Int.{ltb_ℤ, pos}
use mathlib.Core.Path.{fun_ext}
use runstate.Channel.{Envelope, Query, admits, topics_admit}
use runstate.Channel.Interface.{Channel, IsContiguous}

abbrev pub topics_query : Option (List String) → ℕ → Query
topics_query topics limit = record {
  topics = topics;
  name = none;
  request_ids = none;
  limit = some limit;
}

module _ {F : Type 0} where
  -- Seqs above `n`, ascending.
  abbrev pub IsAfter : ℕ → List (Envelope F) → Type 0
  IsAfter n [] = Unit
  IsAfter n (e ∷ es) = (n < e.seq) × IsAfter e.seq es

  -- `[e for e in ch.read(after=lo, topics=topics, limit=hi - lo) if e.seq <= hi]`.
  unfoldable pub window : Channel F → ℕ → ℕ → Option (List String) → List (Envelope F)
  window ch lo hi topics =
      filter (λ e. leb e.seq hi) (ch.read (pos lo) (topics_query topics (hi - lo)))

  -- The envelopes of the log above `lo` and up to `hi` on the topics.
  abbrev pub within : ℕ → ℕ → Option (List String) → Envelope F → Bool
  within lo hi topics e = (ltb lo e.seq && leb e.seq hi) && topics_admit topics e.topic

  pub IsContiguous→IsAfter :
      (n : ℕ) (es : List (Envelope F)) → IsContiguous (suc n) es → IsAfter n es
  IsContiguous→IsAfter n [] h = tt
  IsContiguous→IsAfter n (e ∷ es) h =
      (omega arith, subst (λ k. IsAfter k es) (sym h.0) (IsContiguous→IsAfter (suc n) es h.1))

  pub IsAfter-weaken : (m n : ℕ) (es : List (Envelope F)) → m ≤ n → IsAfter n es → IsAfter m es
  IsAfter-weaken m n [] le h = tt
  IsAfter-weaken m n (e ∷ es) le h = (omega arith, h.1)

  pub IsAfter-filter :
      (n : ℕ) (p : Envelope F → Bool) (es : List (Envelope F))
      → IsAfter n es
      → IsAfter n (filter p es)
  IsAfter-filter n p [] h = tt
  IsAfter-filter n p (e ∷ es) h = elim (Bool-cases (p e)) [
    | inl keep ↦ rw keep (h.0, IsAfter-filter e.seq p es h.1)
    | inr drop' ↦
        rw drop'
          (IsAfter-weaken n e.seq (filter p es) (omega arith) (IsAfter-filter e.seq p es h.1))
  ]

  IsAfter-lo :
      (n lo : ℕ) (es : List (Envelope F))
      → IsAfter n es
      → IsAfter lo (filter (λ e. ltb lo e.seq) es)
  IsAfter-lo n lo [] h = tt
  IsAfter-lo n lo (e ∷ es) h = elim (Bool-cases (ltb lo e.seq)) [
    | inl keep ↦ rw keep (ltb→lt lo e.seq keep, IsAfter-filter e.seq (λ x. ltb lo x.seq) es h.1)
    | inr below ↦ rw below (IsAfter-lo e.seq lo es h.1)
  ]

  pub IsAfter-log : (ch : Channel F) → IsAfter 0 ch.log
  IsAfter-log ch = IsContiguous→IsAfter 0 ch.log ch.contiguous

  none_up_to :
      (n m : ℕ) (es : List (Envelope F)) → m ≤ n → IsAfter n es → filter (λ e. leb e.seq m) es ≡ []
  none_up_to n m [] le h = refl
  none_up_to n m (e ∷ es) le h =
      let out : leb e.seq m ≡ false = ground (arith, h.0) in
      rw out (none_up_to e.seq m es (omega arith) h.1)

  -- Of envelopes above `n`, the first `k` hold all those up to `n + k`.
  cap :
      (n k m : ℕ) (es : List (Envelope F))
      → m ≤ n + k
      → IsAfter n es
      → filter (λ e. leb e.seq m) (take k es) ≡ filter (λ e. leb e.seq m) es
  cap n zero m es le h = sym (none_up_to n m es (omega arith) h)
  cap n (suc k) m [] le h = refl
  cap n (suc k) m (e ∷ es) le h =
      let ih = cap e.seq k m es (omega arith) h.1 in
      elim (Bool-cases (leb e.seq m)) [ inl t ↦ rw (t, ih) refl | inr f ↦ rw (f, ih) refl ]

  filter_fuse :
      (p q r s : Envelope F → Bool) (es : List (Envelope F))
      → ((e : Envelope F) → (s e ≡ ((r e && p e) && q e)))
      → filter p (filter q (filter r es)) ≡ filter s es
  filter_fuse p q r s [] h = refl
  filter_fuse p q r s (e ∷ es) h = ground (arith, h e, filter_fuse p q r s es h)

  -- A capped read of a window is the log's envelopes in the window, all of them and in order.
  pub window_lem :
      (ch : Channel F) (lo hi : ℕ) (topics : Option (List String))
      → window ch lo hi topics ≡ filter (within lo hi topics) ch.log
  unfolding window
  window_lem ch lo hi topics =
      let q = topics_query topics (hi - lo) in
      let above : filter (λ e. ltb_ℤ (pos lo) (pos e.seq)) ch.log
          ≡ filter (λ e. ltb lo e.seq) ch.log =
        ap (λ (p : Envelope F → Bool). filter p ch.log) (fun_ext λ e. ground arith) in
      let rest = filter (admits q) (filter (λ e. ltb lo e.seq) ch.log) in
      let ordered = IsAfter-filter lo (admits q) _ (IsAfter-lo 0 lo ch.log (IsAfter-log ch)) in
      rw (ch.read_lem (pos lo) q, above)
        (cap lo (hi - lo) hi rest (omega arith) ordered
          ∙ filter_fuse _ _ _ (within lo hi topics) ch.log (λ e. ground arith))
