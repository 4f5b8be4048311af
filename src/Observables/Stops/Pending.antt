-- ===== src/Observables/Stops/Pending.antt =====
-- `undischarged_stops` of runstate/observables.py and the records that spend a stop.
use runstate.Prelude.{
  String, ◌≡◌, refl, sym, ap, ◌∙◌, inl, inr, Bool, true, false, not, ◌&&◌, ◌||◌, Option, none, some,
  List, [], ◌∷◌, ◌++◌, append-nil, append_assoc, arith, str_eq, str_eq_iff, if◌then◌else◌,
  Bool-cases, Option-cases, length, filter, any, All, str_mem, filter-append,
}
use mathlib.Core.List.{map-append}
use runstate.Json.{Number}
use runstate.Channel.{Envelope}
use runstate.Channel.Interface.{Channel}
use runstate.Claims.{spent_by}
use runstate.Observables.Tail.{between}
use runstate.Observables.Held.{run}
use runstate.Observables.Stops.{
  Stops, no_stops, stop_topics, stop_name, without, spend, add_stop, sends, apply,
  undischarged_stops,
}
use runstate.Observables.Stops.Poll.{undischarged_stops_lem}

abbrev pub names_it : String → Option String → Bool
names_it r none = false
names_it r (some s) = str_eq s r

module _ {F : Type 0} where
  -- The record sends a stop by this id.
  abbrev pub sends_stop : String → Envelope F → Bool
  sends_stop r e = names_it r (stop_name e)

module _ {F : Type 0} ⦃num : Number F⦄ where
  -- The record spends this id.
  abbrev pub spends : String → Envelope F → Bool
  spends r e = str_mem r (spent_by e)

  -- Of records `es`, the stops whose id `done` does not have and no later stop of `es` sends again.
  abbrev pub kept : Option String → (String → Bool) → Envelope F → List (Envelope F) → Bool
  kept none done e later = false
  kept (some r) done e later = not (done r) && not (any (sends_stop r) later)

  abbrev pub unspent : (String → Bool) → List (Envelope F) → List (Envelope F)
  unspent done [] = []
  unspent done (e ∷ es) =
      let rest = unspent done es in if kept (stop_name e) done e es then e ∷ rest else rest

  module _ (done : String → Bool) where
    abbrev stays : List (Envelope F) → String × Envelope F → Bool
    stays es p = not (done p.0) && not (any (sends_stop p.0) es)

    -- Of the ids, `done` has those spent by now and those that `es` spends.
    abbrev IsDone : Stops F → List (Envelope F) → Type 0
    IsDone s es = (r : String) → done r ≡ (str_mem r s.spent || any (spends r) es)

    spend_spent :
        (s : Stops F) (rs : List String) (r : String)
        → str_mem r (spend s rs).spent ≡ (str_mem r rs || str_mem r s.spent)
    unfolding spend
    spend_spent s [] r = refl
    spend_spent s (x ∷ rs) r =
        ground
          (arith, spend_spent (record { pending = without x s.pending; spent = x ∷ s.spent }) rs r)

    filter-without :
        (q : String × Envelope F → Bool) (r : String) (ps : List (String × Envelope F))
        → ((p : String × Envelope F) → str_eq p.0 r ≡ true → q p ≡ false)
        → filter q (without r ps) ≡ filter q ps
    filter-without q r [] h = refl
    filter-without q r (p ∷ ps) h = ground (arith, h p, filter-without q r ps h)

    spend_pending :
        (q : String × Envelope F → Bool) (s : Stops F) (rs : List String)
        → ((p : String × Envelope F) → str_mem p.0 rs ≡ true → q p ≡ false)
        → filter q (spend s rs).pending ≡ filter q s.pending
    unfolding spend
    spend_pending q s [] h = refl
    spend_pending q s (r ∷ rs) h =
        spend_pending q (record { pending = without r s.pending; spent = r ∷ s.spent }) rs
          (λ p m. h p (ground (arith, m)))
        ∙ filter-without q r s.pending (λ p e. h p (ground (arith, e)))

    filter_both :
        (p q r : String × Envelope F → Bool) (ps : List (String × Envelope F))
        → ((x : String × Envelope F) → (p x && q x) ≡ r x)
        → filter q (filter p ps) ≡ filter r ps
    filter_both p q r [] h = refl
    filter_both p q r (x ∷ ps) h = ground (arith, h x, filter_both p q r ps h)

    filter_same :
        (p q : String × Envelope F → Bool) (ps : List (String × Envelope F))
        → ((x : String × Envelope F) → p x ≡ q x)
        → filter p ps ≡ filter q ps
    filter_same p q [] h = refl
    filter_same p q (x ∷ ps) h = ground (arith, h x, filter_same p q ps h)

    add_stop_spent :
        (s : Stops F) (e : Envelope F) (n : Option String) → (add_stop s e n).spent ≡ s.spent
    add_stop_spent s e none = refl
    add_stop_spent s e (some r) = ground arith

    IsDone-apply :
        (s : Stops F) (e : Envelope F) (es : List (Envelope F))
        → IsDone s (e ∷ es)
        → IsDone (apply s e) es
    unfolding apply
    IsDone-apply s e es h r =
        let same = add_stop_spent (spend s (spent_by e)) e (stop_name e) in
        rw same (ground (arith, h r, spend_spent s (spent_by e) r))

    -- What a send does to the stops that are to stay.
    add_pending :
        (t : Stops F) (e : Envelope F) (es : List (Envelope F))
        → ((r : String) → str_mem r t.spent ≡ true → done r ≡ true)
        → sends (filter (stays es) (add_stop t e (stop_name e)).pending) ++ unspent done es
          ≡ sends (filter (stays (e ∷ es)) t.pending) ++ unspent done (e ∷ es)
    add_pending t e es h = elim (Option-cases (stop_name e)) [
      | inl n ↦
          rw (n, filter_same (stays (e ∷ es)) (stays es) t.pending (λ p. ground (arith, n))) refl
      | inr (r, n) ↦ elim (Bool-cases (str_mem r t.spent)) [
        | inl old ↦
            let dead = h r old in
            rw
              (
                n,
                old,
                dead,
                filter_same (stays (e ∷ es)) (stays es) t.pending
                    (λ p. ground (arith, n, dead, str_eq_iff r p.0)),
              )
              refl
        | inr new ↦
            let fused =
              filter_both (λ p. not (str_eq p.0 r)) (stays es) (stays (e ∷ es)) t.pending
                (λ p. ground (arith, n, str_eq_iff r p.0, str_eq_iff p.0 r)) in
            rw (n, new, filter-append (stays es) (without r t.pending) ((r, e) ∷ []), fused)
              (elim (Bool-cases (stays es (r, e))) [
                | inl stay ↦
                    rw
                      (
                        stay,
                        map-append {A = String × Envelope F} (λ p. p.1)
                            (filter (stays (e ∷ es)) t.pending) ((r, e) ∷ []),
                      )
                      (append_assoc (sends (filter (stays (e ∷ es)) t.pending)) (e ∷ [])
                        (unspent done es))
                | inr go ↦ rw (go, append-nil (filter (stays (e ∷ es)) t.pending)) refl
              ])
      ]
    ]

    -- What one record does to them.
    step_pending :
        (s : Stops F) (e : Envelope F) (es : List (Envelope F))
        → IsDone s (e ∷ es)
        → sends (filter (stays es) (apply s e).pending) ++ unspent done es
          ≡ sends (filter (stays (e ∷ es)) s.pending) ++ unspent done (e ∷ es)
    unfolding apply
    step_pending s e es h =
        let t = spend s (spent_by e) in
        add_pending t e es (λ r m. ground (arith, h r, m, spend_spent s (spent_by e) r))
        ∙ ap (λ ps. sends ps ++ unspent done (e ∷ es))
            (spend_pending (stays (e ∷ es)) s (spent_by e) (λ p m. ground (arith, h p.0, m)))

    run_pending :
        (s : Stops F) (es : List (Envelope F))
        → IsDone s es
        → sends (filter (stays []) (run apply s es).pending)
          ≡ sends (filter (stays es) s.pending) ++ unspent done es
    run_pending s [] h = sym (append-nil (sends (filter (stays []) s.pending)))
    run_pending s (e ∷ es) h =
        run_pending (apply s e) es (IsDone-apply s e es h) ∙ step_pending s e es h

    IsDone-run : (s : Stops F) (es : List (Envelope F)) → IsDone s es → IsDone (run apply s es) []
    IsDone-run s [] h = h
    IsDone-run s (e ∷ es) h = IsDone-run (apply s e) es (IsDone-apply s e es h)

    filter_kept :
        (q : String × Envelope F → Bool) (ps : List (String × Envelope F))
        → All (λ p. q p ≡ true) ps
        → filter q ps ≡ ps
    filter_kept q [] a = refl
    filter_kept q (p ∷ ps) a = rw (a.0, filter_kept q ps a.1) refl

  -- No stop that is held pending has been spent.
  abbrev IsFresh : Stops F → Type 0
  IsFresh s = All (λ p. str_mem p.0 s.spent ≡ false) s.pending

  without-fresh :
      (r : String) (spent : List String) (ps : List (String × Envelope F))
      → All (λ p. str_mem p.0 spent ≡ false) ps
      → All (λ p. str_mem p.0 (r ∷ spent) ≡ false) (without r ps)
  without-fresh r spent [] a = tt
  without-fresh r spent (p ∷ ps) a = elim (Bool-cases (str_eq p.0 r)) [
    | inl t ↦ rw t (without-fresh r spent ps a.1)
    | inr f ↦ rw f (ground (arith, f, a.0), without-fresh r spent ps a.1)
  ]

  drop-fresh :
      (r : String) (spent : List String) (ps : List (String × Envelope F))
      → All (λ p. str_mem p.0 spent ≡ false) ps
      → All (λ p. str_mem p.0 spent ≡ false) (without r ps)
  drop-fresh r spent [] a = tt
  drop-fresh r spent (p ∷ ps) a = elim (Bool-cases (str_eq p.0 r)) [
    | inl t ↦ rw t (drop-fresh r spent ps a.1)
    | inr f ↦ rw f (a.0, drop-fresh r spent ps a.1)
  ]

  append-fresh :
      (spent : List String) (ps qs : List (String × Envelope F))
      → All (λ p. str_mem p.0 spent ≡ false) ps
      → All (λ p. str_mem p.0 spent ≡ false) qs
      → All (λ p. str_mem p.0 spent ≡ false) (ps ++ qs)
  append-fresh spent [] qs a b = b
  append-fresh spent (p ∷ ps) qs a b = (a.0, append-fresh spent ps qs a.1 b)

  spend-IsFresh : (s : Stops F) (rs : List String) → IsFresh s → IsFresh (spend s rs)
  unfolding spend
  spend-IsFresh s [] a = a
  spend-IsFresh s (r ∷ rs) a =
      spend-IsFresh (record { pending = without r s.pending; spent = r ∷ s.spent }) rs
        (without-fresh r s.spent s.pending a)

  add_stop-IsFresh :
      (s : Stops F) (e : Envelope F) (n : Option String) → IsFresh s → IsFresh (add_stop s e n)
  add_stop-IsFresh s e none a = a
  add_stop-IsFresh s e (some r) a = elim (Bool-cases (str_mem r s.spent)) [
    | inl t ↦ rw t a
    | inr f ↦ rw f (
        append-fresh s.spent (without r s.pending) ((r, e) ∷ []) (drop-fresh r s.spent s.pending a)
          (f, tt))
  ]

  run-IsFresh : (s : Stops F) (es : List (Envelope F)) → IsFresh s → IsFresh (run apply s es)
  unfolding apply
  run-IsFresh s [] a = a
  run-IsFresh s (e ∷ es) a =
      run-IsFresh (apply s e) es
        (add_stop-IsFresh (spend s (spent_by e)) e (stop_name e) (spend-IsFresh s (spent_by e) a))

  All-stays :
      (done : String → Bool) (s : Stops F) (ps : List (String × Envelope F))
      → IsDone done s []
      → All (λ p. str_mem p.0 s.spent ≡ false) ps
      → All (λ p. stays done [] p ≡ true) ps
  All-stays done s [] h a = tt
  All-stays done s (p ∷ ps) h a = (ground (arith, h p.0, a.0), All-stays done s ps h a.1)

  abbrev pub stop_records : Channel F → List (Envelope F)
  stop_records ch = between 0 (length ch.log) stop_topics ch.log

  -- The pending stops are, in the log's order, the `control.stop` records with a name that no record
  -- of the log spends, wherever it stands, and that no later stop sends again.
  pub undischarged_stops-unspent :
      (ch : Channel F)
      → undischarged_stops ch ≡ unspent (λ r. any (spends r) (stop_records ch)) (stop_records ch)
  undischarged_stops-unspent ch =
      let es = stop_records ch in
      let done : String → Bool = λ r. any (spends r) es in
      let start : IsDone done no_stops es = λ r. refl in
      let kept_all = filter_kept done (stays done []) (run apply no_stops es).pending (
        All-stays done (run apply no_stops es) (run apply no_stops es).pending
          (IsDone-run done no_stops es start) (run-IsFresh no_stops es tt)) in
      undischarged_stops_lem ch ∙ ap sends (sym kept_all) ∙ run_pending done no_stops es start
