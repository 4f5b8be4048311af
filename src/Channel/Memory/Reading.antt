-- ===== src/Channel/Memory/Reading.antt =====
-- `MemoryLog.tail` and `MemoryChannel.read` of runstate/channel/memory.py.
use runstate.Prelude.{
  ℕ, zero, suc, ◌+◌, ◌-◌, ◌<◌, ◌≡◌, refl, sym, ap, ◌∙◌, inl, inr, Bool, true, false, Option, none,
  some, List, [], ◌∷◌, arith, ltb, leb, if◌then◌else◌, lt→ltb, leb→le, leb-false, Bool-cases, drop,
  filter,
}
use runstate.Prelude.Int.{ℤ, ltb_ℤ, pos, negsuc}
use mathlib.Core.Path.{fun_ext}
use runstate.Channel.{Envelope, Query, admits, up_to, read_spec}
use runstate.Channel.Memory.{MemoryLog, collect, full, tail, read}
use runstate.Channel.Memory.Invariant.{IsLog}
use runstate.Channel.Interface.{IsContiguous}

-- What is left of `limit` when `len(out)` is `n`.
abbrev room : Option ℕ → ℕ → Option ℕ
room none n = none
room (some limit) n = some (limit - n)

room-zero : (limit : Option ℕ) → room limit 0 ≡ limit
room-zero none = refl
room-zero (some k) = ground arith

module _ {F : Type 0} where
  filter_all :
      (k n : ℕ) (es : List (Envelope F))
      → IsContiguous n es
      → k < n
      → filter (λ e. ltb k e.seq) es ≡ es
  filter_all k n [] h lt = refl
  filter_all k n (e ∷ es) h lt =
      rw (lt→ltb k e.seq (omega arith))
        (ap (λ r. e ∷ r) (filter_all k (suc n) es h.1 (omega arith)))

  -- A slice by position is a filter by seq.
  drop-filter :
      (k n m : ℕ) (es : List (Envelope F))
      → m ≡ n + k
      → IsContiguous (suc n) es
      → filter (λ e. ltb m e.seq) es ≡ drop k es
  drop-filter zero n m es e h = filter_all m (suc n) es h (omega arith)
  drop-filter (suc k) n m [] e h = refl
  drop-filter (suc k) n m (x ∷ es) e h =
      let ih = drop-filter k (suc n) m es (omega arith) h.1 in
      let out : ltb m x.seq ≡ false = ground (arith, h.0) in rw out ih

  filter-true :
      (p : Envelope F → Bool) (es : List (Envelope F))
      → ((e : Envelope F) → p e ≡ true)
      → filter p es ≡ es
  filter-true p [] h = refl
  filter-true p (e ∷ es) h = rw (h e) (ap (λ r. e ∷ r) (filter-true p es h))

  filter_cong :
      (p q : Envelope F → Bool) (es : List (Envelope F))
      → ((e : Envelope F) → p e ≡ q e)
      → filter p es ≡ filter q es
  filter_cong p q es h = ap (λ (r : Envelope F → Bool). filter r es) (fun_ext h)

  -- A tail is the envelopes above `after`, for a negative `after` too.
  pub tail_lem :
      (l : MemoryLog F) (after : ℤ)
      → IsLog l
      → tail l after ≡ filter (λ e. ltb_ℤ after (pos e.seq)) l.envelopes
  unfolding tail
  tail_lem l (pos k) h =
      sym (drop-filter k 0 k l.envelopes (omega arith) h.contiguous)
      ∙ filter_cong _ _ l.envelopes (λ e. ground arith)
  tail_lem l (negsuc k) h = sym (filter-true _ l.envelopes (λ e. ground arith))

  up_to_step :
      (limit : Option ℕ) (n : ℕ) (e : Envelope F) (es : List (Envelope F))
      → up_to (room limit n) (e ∷ es)
        ≡ (if full limit n then [] else e ∷ up_to (room limit (suc n)) es)
  up_to_step none n e es = refl
  up_to_step (some k) n e es = elim (Bool-cases (leb k n)) [
    | inl done ↦ let z : k - n ≡ 0 = omega (arith, leb→le k n done) in rw (done, z) refl
    | inr more ↦
        let z : k - n ≡ suc (k - suc n) = omega (arith, leb-false k n more) in rw (more, z) refl
  ]

  up_to_nil : (limit : Option ℕ) → up_to {F = F} limit [] ≡ []
  up_to_nil none = refl
  up_to_nil (some zero) = refl
  up_to_nil (some (suc k)) = refl

  collect_lem :
      (q : Query) (es : List (Envelope F)) (n : ℕ)
      → collect q es n ≡ up_to (room q.limit n) (filter (admits q) es)
  unfolding collect
  collect_lem q [] n = sym (up_to_nil (room q.limit n))
  collect_lem q (e ∷ es) n = ground (
    arith,
    collect_lem q es n,
    collect_lem q es (suc n),
    up_to_step q.limit n e (filter (admits q) es),
  )

  -- `read` returns what the base class promises of it: the envelopes above `after`, in order, that
  -- the topics, the name and the request ids admit, and the first `limit` of those.
  pub read-read_spec :
      (l : MemoryLog F) (after : ℤ) (q : Query)
      → IsLog l
      → read l after q ≡ read_spec after q l.envelopes
  unfolding read
  read-read_spec l after q h =
      rw (tail_lem l after h, collect_lem q _ 0) (rw (room-zero q.limit) refl)
