-- ===== src/Walk/Backward/Lookup.antt =====
-- `Backward.get` of runstate/walk.py: its windows and its state.
use runstate.Prelude.{
  ℕ, zero, suc, ◌-◌, ◌≤◌, ◌<◌, ◌≡◌, refl, ◌∙◌, inl, inr, Bool, true, false, ◌&&◌, Option, none,
  some, List, [], ◌∷◌, arith, leb, ◌==◌, if◌then◌else◌, leb→le, leb-false, Bool-cases, and_left,
  and_right, filter,
}
use runstate.Channel.{Envelope}
use runstate.Channel.Interface.{Channel}
use runstate.Channel.Windows.{window_lem, within, IsAfter, IsAfter-filter, IsAfter-log}
use runstate.Walk.Backward.{Backward, start, find_record, add_records, load_window, load, get}

module _ {F : Type 0} where
  -- The record at a seq of a log.
  abbrev pub at_seq : ℕ → List (Envelope F) → Option (Envelope F)
  at_seq seq [] = none
  at_seq seq (e ∷ es) = if e.seq == seq then some e else at_seq seq es

  pub record IsLoaded (ch : Channel F) (hi : ℕ) (b : Backward F) : Type 0 where
    pub below : b.lo ≤ hi
    pub wide : 1 ≤ b.width
    pub held : (s : ℕ) → b.lo < s → s ≤ hi → find_record s b.records ≡ at_seq s ch.log
    pub unheld : (s : ℕ) → s ≤ b.lo → find_record s b.records ≡ none

  pub at_seq-above : (n s : ℕ) (es : List (Envelope F)) → s ≤ n → IsAfter n es → at_seq s es ≡ none
  at_seq-above n s [] le h = refl
  at_seq-above n s (e ∷ es) le h =
      let other : (e.seq == s) ≡ false = ground (arith, h.0) in
      rw other (at_seq-above e.seq s es (omega arith) h.1)

  abbrev or_held : Option (Envelope F) → Option (Envelope F) → Option (Envelope F)
  or_held (some e) o = some e
  or_held none o = o

  find-add :
      (n s : ℕ) (es : List (Envelope F)) (recs : List (ℕ × Envelope F))
      → IsAfter n es
      → find_record s (add_records es recs) ≡ or_held (at_seq s es) (find_record s recs)
  unfolding find_record add_records
  find-add n s [] recs h = refl
  find-add n s (e ∷ es) recs h =
      ground (arith, find-add e.seq s es ((e.seq, e) ∷ recs) h.1, at_seq-above e.seq s es)

  at_seq-filter :
      (p : Envelope F → Bool) (s : ℕ) (es : List (Envelope F))
      → ((e : Envelope F) → e.seq ≡ s → p e ≡ true)
      → at_seq s (filter p es) ≡ at_seq s es
  at_seq-filter p s [] h = refl
  at_seq-filter p s (e ∷ es) h = ground (arith, at_seq-filter p s es h, h e)

  at_seq-outside :
      (p : Envelope F → Bool) (s : ℕ) (es : List (Envelope F))
      → ((e : Envelope F) → e.seq ≡ s → p e ≡ false)
      → at_seq s (filter p es) ≡ none
  at_seq-outside p s [] h = refl
  at_seq-outside p s (e ∷ es) h = ground (arith, at_seq-outside p s es h, h e)

  or_none : (o : Option (Envelope F)) → or_held o none ≡ o
  or_none none = refl
  or_none (some e) = refl

  module _ (ch : Channel F) (hi : ℕ) where
    pub start-IsLoaded : IsLoaded ch hi (start hi)
    unfolding start find_record
    start-IsLoaded = record {
      below = omega arith;
      wide = omega arith;
      held = λ s above le. absurd (omega arith);
      unheld = λ s le. refl;
    }

    found :
        (b : Backward F) (s : ℕ)
        → find_record s (load_window ch b).records
          ≡ or_held
              (at_seq s (filter (within (b.lo - b.width) b.lo none) ch.log))
              (find_record s b.records)
    unfolding load_window
    found b s =
        rw (window_lem ch (b.lo - b.width) b.lo none)
          (find-add 0 s _ b.records (IsAfter-filter 0 _ ch.log (IsAfter-log ch)))

    load_window-IsLoaded : (b : Backward F) → IsLoaded ch hi b → IsLoaded ch hi (load_window ch b)
    unfolding load_window
    load_window-IsLoaded b h = record {
      below = omega (arith, h.below);
      wide = omega (arith, h.wide);
      held = λ s above le. elim (Bool-cases (leb s b.lo)) [
        | inl old ↦
            found b s
            ∙ rw
                (
                  at_seq-filter (within (b.lo - b.width) b.lo none) s ch.log (λ e q. ground arith),
                  h.unheld s (leb→le s b.lo old),
                )
                (or_none (at_seq s ch.log))
        | inr new ↦
            found b s
            ∙ rw (at_seq-outside (within (b.lo - b.width) b.lo none) s ch.log (λ e q. ground arith))
                (h.held s (leb-false s b.lo new) le)
      ];
      unheld = λ s le.
          found b s
          ∙ rw (at_seq-outside (within (b.lo - b.width) b.lo none) s ch.log (λ e q. ground arith))
              (h.unheld s (omega arith));
    }

    load-IsLoaded :
        (fuel seq : ℕ) (b : Backward F) → IsLoaded ch hi b → IsLoaded ch hi (load ch fuel seq b)
    unfolding load
    load-IsLoaded zero seq b h = h
    load-IsLoaded (suc fuel) seq b h =
        ground (arith, h, load-IsLoaded fuel seq (load_window ch b) (load_window-IsLoaded b h))

    load_window-lo : (b : Backward F) → (load_window ch b).lo ≡ b.lo - b.width
    unfolding load_window
    load_window-lo b = refl

    -- With as much fuel as records below what is loaded, the loop ends by its test.
    load-reaches :
        (fuel seq : ℕ) (b : Backward F)
        → 1 ≤ seq
        → b.lo ≤ fuel
        → IsLoaded ch hi b
        → (load ch fuel seq b).lo < seq
    unfolding load
    load-reaches zero seq b pos' le h = omega arith
    load-reaches (suc fuel) seq b pos' le h = elim (Bool-cases (leb seq b.lo)) [
      | inl more ↦
          rw (more, load)
            (load-reaches fuel seq (load_window ch b) pos'
              (omega (arith, load_window-lo b, h.wide, leb→le seq b.lo more))
              (load_window-IsLoaded b h))
      | inr done ↦ rw (done, load) (leb-false seq b.lo done)
    ]

    -- What a lookup answers: the log's record at the seq, where that is one of `1 … hi`.
    abbrev pub in_reach : ℕ → Option (Envelope F)
    in_reach seq = if leb 1 seq && leb seq hi then at_seq seq ch.log else none

    -- `get` answers with the log's record at the seq, whatever was read before and however the
    -- windows fall, and `none` outside `1 … hi`; the state stays well-formed.
    pub get_lem :
        (seq : ℕ) (b : Backward F)
        → IsLoaded ch hi b
        → ((get ch hi seq b).0 ≡ in_reach seq) × IsLoaded ch hi (get ch hi seq b).1
    unfolding get
    get_lem seq b h = elim (Bool-cases (leb 1 seq && leb seq hi)) [
      | inl inside ↦
          let low : 1 ≤ seq = leb→le 1 seq (and_left _ _ inside) in
          let high : seq ≤ hi = leb→le seq hi (and_right (leb 1 seq) _ inside) in
          let loaded = load-IsLoaded b.lo seq b h in
          rw (inside, get)
            (loaded.held seq (load-reaches b.lo seq b low (omega arith) h) high, loaded)
      | inr outside ↦ rw (outside, get) (refl, h)
    ]
