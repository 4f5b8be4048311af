-- ===== src/Vocabulary/Schedule/Parse/Refused.antt =====
-- `parse_schedule` of runstate/vocabulary/schedule.py: lemmas on each function of the parse.
use runstate.Prelude.{
  ℕ, suc, String, ◌≡◌, refl, subst, ◌⊎◌, inl, inr, Bool, true, false, not, ◌&&◌, ◌||◌, Option, none,
  some, List, [], ◌∷◌, ◌++◌, arith, str_eq, Bool-cases, Option-cases, Result, Ensures, bind-Ensures,
  ensured, ok, err, returns, raises,
}
use runstate.Json.{Number, Json, Items, Fields, str, list, obj, nil, cons, field, end, get}
use runstate.Vocabulary.Checks.{has_key, only_keys, time_of, watermark_of, zero_le}
use runstate.Vocabulary.Payloads.Valid.{time_of_sound}
use runstate.Vocabulary.Coordinate.{Target, stream, commits, make_target}
use runstate.Vocabulary.Coordinate.Atom.{IsTarget, make_target-IsTarget}
use runstate.Vocabulary.Schedule.{Term, Terms, Schedule, admits_slots}
use runstate.Vocabulary.Schedule.Parse.{
  Step, key, index, NoCount, outside_until, pure_demand_count, MalformedSchedule, built,
  as_progress, as_elapsed, as_fired, stream_target, stream_named, parse_stream, is_combinator,
  combine, counted_atom, parse_scalar, parse_term, parse_one, parse_items, slot, no_count_in,
  wrap_some, make_schedule, parse_schedule,
}
use runstate.Vocabulary.Schedule.Parse.Wire.{IsTerm, AreTerms}

module _ {F : Type 0} ⦃num : Number F⦄ where
  built-fired :
      (path : List Step) (o : Option ℕ) → Ensures (IsTerm {F = F} none) (built path (as_fired o))
  built-fired path none = raises
  built-fired path (some n) = returns refl

  counted-Ensures :
      (no_count : Option NoCount) (path : List Step) (v : Json F)
      → Ensures (IsTerm no_count) (counted_atom path no_count v)
  counted-Ensures none path v = built-fired path (watermark_of v)
  counted-Ensures (some why) path v = raises

module _ {F : Type 0} ⦃num : Number F⦄ (no_count : Option NoCount) where
  built-progress :
      (path : List Step) (o : Option Target)
      → ((t : Target) → o ≡ some t → IsTarget t)
      → Ensures (IsTerm {F = F} no_count) (built path (as_progress o))
  built-progress path none h = raises
  built-progress path (some t) h = returns (h t refl)

  built-elapsed :
      (path : List Step) (o : Option F)
      → ((s : F) → o ≡ some s → zero_le s ≡ true)
      → Ensures (IsTerm {F = F} no_count) (built path (as_elapsed o))
  built-elapsed path none h = raises
  built-elapsed path (some s) h = returns (h s refl)

  target-Ensures :
      (path : List Step) (s : String) (n : Option (Json F))
      → Ensures (IsTerm no_count) (stream_target path s n)
  target-Ensures path s none = raises
  target-Ensures path s (some n) =
      built-progress (path ++ key "n" ∷ []) (make_target (stream s) n)
        (make_target-IsTarget (stream s) n)

  named-Ensures :
      (path : List Step) (s n : Option (Json F)) → Ensures (IsTerm no_count) (stream_named path s n)
  named-Ensures path (some (str s)) n = elim (Bool-cases (str_eq s "")) [
    | inl empty ↦ rw empty raises
    | inr full ↦ rw full (target-Ensures path s n)
  ]
  named-Ensures path _ n = raises

  stream-Ensures :
      (path : List Step) (fs : Fields F) → Ensures (IsTerm no_count) (parse_stream path fs)
  unfolding parse_stream
  stream-Ensures path fs =
      elim (Bool-cases
        (has_key "stream" fs && has_key "n" fs && only_keys ("stream" ∷ "n" ∷ []) fs)) [
          | inl exact ↦ rw (exact, parse_stream) (named-Ensures path (get "stream" fs) (get "n" fs))
          | inr other ↦ rw (other, parse_stream) raises
        ]

  scalar-Ensures :
      (path : List Step) (k : String) (v : Json F)
      → Ensures (IsTerm no_count) (parse_scalar path no_count k v)
  unfolding parse_scalar
  scalar-Ensures path k v = elim (Bool-cases (str_eq k "commits")) [
    | inl c ↦
        rw (c, parse_scalar)
          (built-progress path (make_target commits v) (make_target-IsTarget commits v))
    | inr c ↦ elim (Bool-cases (str_eq k "time_seconds")) [
      | inl t ↦ rw (c, t, parse_scalar) (built-elapsed path (time_of v) (time_of_sound v))
      | inr t ↦ elim (Bool-cases (str_eq k "count")) [
        | inl n ↦ rw (c, t, n, parse_scalar) (counted-Ensures no_count path v)
        | inr n ↦ rw (c, t, n, parse_scalar) raises
      ]
    ]
  ]

  combine-IsTerm :
      (k : String) (ts : Terms F) → AreTerms no_count ts → IsTerm no_count (combine k ts)
  combine-IsTerm k ts h = elim (Bool-cases (str_eq k "any")) [ inl a ↦ rw a h | inr b ↦ rw b h ]

  mutual
    unfolding parse_term

    IsTerm-Ensures :
        (path : List Step) (j : Json F) → Ensures (IsTerm no_count) (parse_term path no_count j)
    IsTerm-Ensures path (obj fs) = elim (Bool-cases (has_key "stream" fs || has_key "n" fs)) [
      | inl s ↦ rw (s, parse_term) (stream-Ensures path fs)
      | inr s ↦ rw (s, parse_term) (one-Ensures path fs)
    ]
    IsTerm-Ensures path _ = raises

    one-Ensures :
        (path : List Step) (fs : Fields F) → Ensures (IsTerm no_count) (parse_one path no_count fs)
    one-Ensures path (field k (list js) end) = elim (Bool-cases (is_combinator k)) [
      | inl c ↦
          rw (c, parse_one)
            (bind-Ensures (items-Ensures (path ++ key k ∷ []) 0 js)
              (λ ts h. returns (combine-IsTerm k ts h)))
      | inr c ↦ rw (c, parse_one) (scalar-Ensures (path ++ key k ∷ []) k (list js))
    ]
    one-Ensures path (field k v end) = elim (Bool-cases (is_combinator k)) [
      | inl c ↦ rw (c, parse_one) raises
      | inr c ↦ rw (c, parse_one) (scalar-Ensures (path ++ key k ∷ []) k v)
    ]
    one-Ensures path _ = raises

    items-Ensures :
        (path : List Step) (i : ℕ) (js : Items F)
        → Ensures (AreTerms no_count) (parse_items path no_count i js)
    items-Ensures path i nil = raises
    items-Ensures path i (cons j nil) =
        bind-Ensures (IsTerm-Ensures (path ++ index i ∷ []) j) (λ t h. returns h)
    items-Ensures path i (cons j js) =
        bind-Ensures (IsTerm-Ensures (path ++ index i ∷ []) j)
          (λ t h. bind-Ensures (items-Ensures path (suc i) js) (λ ts hs. returns (h, hs)))

module _ {F : Type 0} ⦃num : Number F⦄ where
  abbrev pub IsSlot : Option NoCount → Option (Term F) → Type 0
  IsSlot no_count none = Unit
  IsSlot no_count (some t) = IsTerm no_count t

  -- A slot that a pure demand may not fill is absent.
  abbrev IsParsedSlot : Bool → String → Option (Term F) → Type 0
  IsParsedSlot pure_demand k o =
      IsSlot (no_count_in pure_demand k) o
      × (((pure_demand && not (str_eq k "until")) ≡ false) ⊎ (o ≡ none))

  wrapped :
      (no_count : Option NoCount) (r : Result MalformedSchedule (Term F))
      → Ensures (IsTerm no_count) r
      → Ensures (IsSlot no_count) (wrap_some r)
  wrapped no_count (ok t) (returns h) = returns h
  wrapped no_count (err x) h = raises

  beside :
      {P : Option (Term F) → Type 0} {Q : Type 0} (r : Result MalformedSchedule (Option (Term F)))
      → Q
      → Ensures P r
      → Ensures (λ o. P o × (Q ⊎ (o ≡ none))) r
  beside (ok o) q (returns p) = returns (p, inl q)
  beside (err x) q h = raises

  slot-Ensures :
      (pure_demand : Bool) (body : Fields F) (k : String)
      → Ensures (IsParsedSlot pure_demand k) (slot pure_demand body k)
  unfolding slot
  slot-Ensures pure_demand body k = elim (Option-cases (get k body)) [
    | inl e ↦ rw (e, slot) (returns (tt, inr refl))
    | inr (j, e) ↦ elim (Bool-cases (pure_demand && not (str_eq k "until"))) [
      | inl refused ↦ rw (e, refused, slot) raises
      | inr allowed ↦ subst (Ensures (IsParsedSlot pure_demand k)) (ground (arith, e, allowed)) (
          beside (wrap_some (parse_term (key k ∷ []) (no_count_in pure_demand k) j)) allowed (
            wrapped (no_count_in pure_demand k) _
              (IsTerm-Ensures (no_count_in pure_demand k) (key k ∷ []) j)))
    ]
  ]

  -- The lifetime of a pure demand holds no count atom; that of a subscription may.
  abbrev pub IsUntil : Bool → Option (Term F) → Type 0
  IsUntil true o = IsSlot (some pure_demand_count) o
  IsUntil false o = IsSlot none o

  IsUntil-slot :
      (pure_demand : Bool) (o : Option (Term F))
      → IsSlot (no_count_in pure_demand "until") o
      → IsUntil pure_demand o
  IsUntil-slot true o h = h
  IsUntil-slot false o h = h

  -- A schedule that the wire admits: in `from` and `every` no count atom; in a pure demand neither of
  -- those slots, and no count atom in `until` either. Every atom is one its constructor admits.
  pub record IsSchedule (pure_demand : Bool) (s : Schedule F) : Type 0 where
    pub from_ : IsSlot (some outside_until) s.from_
    pub every : IsSlot (some outside_until) s.every
    pub until : IsUntil pure_demand s.until
    pub demand : (pure_demand ≡ false) ⊎ ((s.from_ ≡ none) × (s.every ≡ none))
    pub slots : admits_slots s ≡ true

  demand_slots :
      (pure_demand : Bool) (f e : Option (Term F))
      → ((pure_demand && true) ≡ false) ⊎ (f ≡ none)
      → ((pure_demand && true) ≡ false) ⊎ (e ≡ none)
      → (pure_demand ≡ false) ⊎ ((f ≡ none) × (e ≡ none))
  demand_slots false f e p q = inl refl
  demand_slots true f e p q = inr (ground arith, ground arith)

  IsSchedule-Ensures :
      (j : Json F) (pure_demand : Bool)
      → Ensures (IsSchedule pure_demand) (parse_schedule j pure_demand)
  unfolding parse_schedule make_schedule
  IsSchedule-Ensures (obj body) pure_demand =
      elim (Bool-cases (only_keys ("from" ∷ "every" ∷ "until" ∷ []) body)) [
        | inr unknown ↦ rw (unknown, parse_schedule) raises
        | inl known ↦
            rw (known, parse_schedule)
              (bind-Ensures (slot-Ensures pure_demand body "from") λ f hf.
                bind-Ensures (slot-Ensures pure_demand body "every") λ e he.
                  bind-Ensures (slot-Ensures pure_demand body "until") λ u hu.
                    elim (Bool-cases (admits_slots (record { from_ = f; every = e; until = u }))) [
                      | inr refused ↦ rw (refused, make_schedule) raises
                      | inl fits ↦
                          rw (fits, make_schedule)
                            (returns (record {
                              from_ = hf.0;
                              every = he.0;
                              until = IsUntil-slot pure_demand u hu.0;
                              demand = demand_slots pure_demand f e hf.1 he.1;
                              slots = fits;
                            }))
                    ])
      ]
  IsSchedule-Ensures _ pure_demand = raises

  -- What `parse_schedule` accepts has only valid atoms, no count atom in `from` or `every`, and slots
  -- that `make_schedule` admits; for a pure demand it has no `from`, no `every`, and no count atom in
  -- `until`.
  pub parse_schedule-IsSchedule :
      (j : Json F) (pure_demand : Bool) (s : Schedule F)
      → parse_schedule j pure_demand ≡ ok s
      → IsSchedule pure_demand s
  parse_schedule-IsSchedule j pure_demand s h = ensured (IsSchedule-Ensures j pure_demand) h
