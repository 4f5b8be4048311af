-- ===== src/Observables/Demand/Placed.antt =====
-- `_Demand.shown` of runstate/observables.py: lemmas on each operation of the fold.
use runstate.Prelude.{
  String, ◌≡◌, refl, sym, ap, ◌∙◌, inl, inr, Bool, not, ◌&&◌, ◌||◌, Option, none, some, List, [],
  ◌∷◌, ◌++◌, append-nil, arith, str_eq, Bool-cases, filter, str_mem, filter-append,
}
use runstate.Json.{Number}
use runstate.Channel.{Envelope}
use runstate.Vocabulary.Topic
use runstate.Claims.{request_name, spent_by}
use runstate.Claims.Bindings.{Bindings, void}
use runstate.Claims.Bindings
use runstate.Observables.Demand.{
  Demand, Move, extended, rewalked, no_demand, drop_key, kill, kill_all, kill_leases, expire,
  expire_all, renew, send, placed, drop_keys, bind_at, expire_if, expired_by, send_if, send_name,
  names_dead, is_node_topic, sends_lease, apply,
}

and_swap : (a b : Bool) → (a && b) ≡ (b && a)
and_swap a b = ground arith

str_mem-append :
    (s : String) (xs ys : List String) → str_mem s (xs ++ ys) ≡ (str_mem s xs || str_mem s ys)
str_mem-append s [] ys = refl
str_mem-append s (x ∷ xs) ys = ground (arith, str_mem-append s xs ys)

module _ {F : Type 0} where
  abbrev pub elsewhere : List String → String × Envelope F → Bool
  elsewhere here p = not (str_mem p.0 here)

  -- The live sends that the placed lineage does not expire.
  pub record IsPlaced (d : Demand F) : Type 0 where
    pub placing : d.shown ≡ filter (elsewhere d.here) d.live

  filter_twice :
      (p q r : String × Envelope F → Bool) (ps : List (String × Envelope F))
      → ((x : String × Envelope F) → ((q x && p x) ≡ r x))
      → filter p (filter q ps) ≡ filter r ps
  filter_twice p q r [] h = refl
  filter_twice p q r (x ∷ ps) h = ground (arith, h x, filter_twice p q r ps h)

  filter_swap :
      (p q : String × Envelope F → Bool) (ps : List (String × Envelope F))
      → filter p (filter q ps) ≡ filter q (filter p ps)
  filter_swap p q ps =
      filter_twice p q (λ x. q x && p x) ps (λ x. refl)
      ∙ sym (filter_twice q p (λ x. q x && p x) ps (λ x. and_swap (p x) (q x)))

  kill-IsPlaced : (d : Demand F) (r : String) → IsPlaced d → IsPlaced (kill d r)
  unfolding kill
  kill-IsPlaced d r i = record {
    placing = ap (drop_key r) i.placing ∙ filter_swap _ (elsewhere d.here) d.live;
  }

  kill_all-IsPlaced : (d : Demand F) (rs : List String) → IsPlaced d → IsPlaced (kill_all d rs)
  unfolding kill_all
  kill_all-IsPlaced d [] i = i
  kill_all-IsPlaced d (r ∷ rs) i = kill_all-IsPlaced (kill d r) rs (kill-IsPlaced d r i)

  kill_leases-IsPlaced :
      (d : Demand F) (rs : List String) → IsPlaced d → IsPlaced (kill_leases d rs)
  unfolding kill_leases
  kill_leases-IsPlaced d [] i = i
  kill_leases-IsPlaced d (r ∷ rs) i = elim (Bool-cases (str_mem r d.leases)) [
    | inl t ↦ rw t (kill_leases-IsPlaced (kill d r) rs (kill-IsPlaced d r i))
    | inr f ↦ rw f (kill_leases-IsPlaced d rs i)
  ]

  expire-IsPlaced : (d : Demand F) (r : String) → IsPlaced d → IsPlaced (expire d r)
  unfolding expire
  expire-IsPlaced d r i = elim (Bool-cases (str_mem r d.dead)) [
    | inl t ↦ rw t i
    | inr f ↦ elim (Bool-cases (str_mem r d.leases)) [
      | inl t ↦ rw (f, t) (kill-IsPlaced d r i)
      | inr g ↦ rw (f, g) (record { placing = i.placing })
    ]
  ]

  expire_all-IsPlaced : (d : Demand F) (rs : List String) → IsPlaced d → IsPlaced (expire_all d rs)
  unfolding expire_all
  expire_all-IsPlaced d [] i = i
  expire_all-IsPlaced d (r ∷ rs) i = expire_all-IsPlaced (expire d r) rs (expire-IsPlaced d r i)

  renew-IsPlaced :
      (d : Demand F) (r : String) (e : Envelope F) → IsPlaced d → IsPlaced (renew d r e)
  unfolding renew
  renew-IsPlaced d r e i =
      let kept = ap (drop_key r) i.placing ∙ filter_swap _ (elsewhere d.here) d.live in
      let both = filter-append (elsewhere d.here) (drop_key r d.live) ((r, e) ∷ []) in
      elim (Bool-cases (str_mem r d.here)) [
        | inl t ↦ record { placing = rw (t, both, t) (kept ∙ sym (append-nil _)) }
        | inr f ↦ record { placing = rw (f, both, f) (ap (λ zs. zs ++ (r, e) ∷ []) kept) }
      ]

  drop_keys_lem :
      (new : List String) (ps : List (String × Envelope F))
      → drop_keys new ps ≡ filter (elsewhere new) ps
  unfolding drop_keys
  drop_keys_lem [] [] = refl
  drop_keys_lem [] (p ∷ ps) = ap (λ zs. p ∷ zs) (drop_keys_lem [] ps)
  drop_keys_lem (r ∷ new) ps =
      drop_keys_lem new (drop_key r ps)
      ∙ filter_twice (elsewhere new) (λ p. not (str_eq p.0 r)) (elsewhere (r ∷ new)) ps
          (λ p. ground arith)

  -- A move keeps what is shown in step with the lineage.
  pub placed-IsPlaced : (d : Demand F) (m : Move) → IsPlaced d → IsPlaced (placed d m)
  unfolding placed
  placed-IsPlaced d (rewalked here) i = record { placing = refl }
  placed-IsPlaced d (extended new) i = record {
    placing =
        drop_keys_lem new d.shown
        ∙ ap (λ zs. filter (elsewhere new) zs) i.placing
        ∙ filter_twice (elsewhere new) (elsewhere d.here) (elsewhere (new ++ d.here)) d.live
            (λ p. ground (arith, str_mem-append p.0 new d.here));
  }

module _ {F : Type 0} ⦃num : Number F⦄ where
  send-IsPlaced : (d : Demand F) (r : String) (e : Envelope F) → IsPlaced d → IsPlaced (send d r e)
  unfolding send
  send-IsPlaced d r e i = elim (Bool-cases (str_mem r d.leases || str_mem r d.durables)) [
    | inl t ↦ rw t (renew-IsPlaced d r e i)
    | inr f ↦ elim (Bool-cases (sends_lease e)) [
      | inr durable ↦
          rw (f, durable)
            (renew-IsPlaced (record d { durables = r ∷ d.durables }) r e
              (record { placing = i.placing }))
      | inl lease ↦ elim (Bool-cases (void d.bindings r || str_mem r d.expired)) [
        | inl t ↦ rw (f, lease, t) (kill-IsPlaced d r i)
        | inr g ↦
            rw (f, lease, g)
              (renew-IsPlaced (record d { leases = r ∷ d.leases }) r e
                (record { placing = i.placing }))
      ]
    ]
  ]

  send_if-IsPlaced :
      (d : Demand F) (e : Envelope F) (o : Option String) → IsPlaced d → IsPlaced (send_if d e o)
  send_if-IsPlaced d e none i = i
  send_if-IsPlaced d e (some r) i = elim (Bool-cases (str_mem r d.dead)) [
    | inl t ↦ rw t i
    | inr f ↦ rw f (send-IsPlaced d r e i)
  ]

  expire_if-IsPlaced : (d : Demand F) (e : Envelope F) → IsPlaced d → IsPlaced (expire_if d e)
  expire_if-IsPlaced d e i = elim (Bool-cases (is_node_topic e.topic)) [
    | inl t ↦ rw t (expire_all-IsPlaced d (expired_by e) i)
    | inr f ↦ rw f i
  ]

  bind_at-IsPlaced :
      (d : Demand F) (b : List String × Bindings) → IsPlaced d → IsPlaced (bind_at d b)
  bind_at-IsPlaced d (rs, b) i =
      kill_leases-IsPlaced (record d { bindings = b }) rs (record { placing = i.placing })

  -- Every record keeps it so.
  pub apply-IsPlaced : (d : Demand F) (e : Envelope F) → IsPlaced d → IsPlaced (apply d e)
  unfolding apply
  apply-IsPlaced d e i =
      let d1 = bind_at d (Bindings.apply d.bindings e) in
      let d2 = kill_all (expire_if d1 e) (spent_by e) in
      let i1 = bind_at-IsPlaced d (Bindings.apply d.bindings e) i in
      let i2 = kill_all-IsPlaced (expire_if d1 e) (spent_by e) (expire_if-IsPlaced d1 e i1) in
      elim (Bool-cases (str_eq e.topic Topic.lifecycle_bound && names_dead d (request_name e))) [
        | inl t ↦ rw t i
        | inr f ↦ rw f (send_if-IsPlaced d2 e (send_name e) i2)
      ]

  -- The states that records and moves of the head lead to, in any order.
  pub data Leads (d : Demand F) : Demand F → Type 0 where
    stays : Leads d d
    applies : {d' : Demand F} → Leads d d' → (e : Envelope F) → Leads d (apply d' e)
    moves : {d' : Demand F} → Leads d d' → (m : Move) → Leads d (placed d' m)

  pub leads-on : {d d' d'' : Demand F} → Leads d d' → Leads d' d'' → Leads d d''
  leads-on l stays = l
  leads-on l (applies l' e) = applies (leads-on l l') e
  leads-on l (moves l' m) = moves (leads-on l l') m

  leads-IsPlaced : {d d' : Demand F} → Leads d d' → IsPlaced d → IsPlaced d'
  leads-IsPlaced stays i = i
  leads-IsPlaced (applies {d'} l e) i = apply-IsPlaced d' e (leads-IsPlaced l i)
  leads-IsPlaced (moves {d'} l m) i = placed-IsPlaced d' m (leads-IsPlaced l i)

  -- Whatever records came and whatever moves the head made, the subscriptions shown are the live sends
  -- that the placed lineage does not expire, in send order.
  pub shown-elsewhere :
      (d : Demand F) → Leads no_demand d → d.shown ≡ filter (elsewhere d.here) d.live
  shown-elsewhere d l = (leads-IsPlaced l (record { placing = refl })).placing
