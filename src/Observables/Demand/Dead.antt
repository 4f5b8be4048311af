-- ===== src/Observables/Demand/Dead.antt =====
-- The dead ids of `_Demand` of runstate/observables.py.
use runstate.Prelude.{
  String, ◌≡◌, refl, sym, ap, ◌∙◌, inl, inr, true, false, ◌&&◌, ◌||◌, Option, none, some, List, [],
  ◌∷◌, ◌++◌, arith, str_eq, str_eq_iff, Bool-cases, filter, All, str_mem,
}
use runstate.Json.{Number}
use runstate.Channel.{Envelope}
use runstate.Vocabulary.Topic
use runstate.Claims.{request_name, spent_by}
use runstate.Claims.Bindings.{Bindings, void}
use runstate.Claims.Bindings
use runstate.Observables.Demand.{
  Demand, Move, extended, rewalked, no_demand, drop_key, has_key, kill, kill_all, kill_leases,
  expire, expire_all, renew, send, placed, bind_at, expire_if, expired_by, send_if, send_name,
  names_dead, is_node_topic, sends_lease, apply,
}
use runstate.Observables.Demand.Placed.{
  Leads, stays, applies, moves, leads-on, elsewhere, shown-elsewhere,
}

module _ {F : Type 0} where
  abbrev pub NotDead : List String → List (String × Envelope F) → Type 0
  NotDead dead ps = All (λ p. (str_mem p.0 dead ≡ false) × (request_name p.1 ≡ some p.0)) ps

  -- Later states have the earlier ones' dead, and none of the dead is live; a live send stands under
  -- the id it names.
  abbrev pub Keeps : Demand F → Demand F → Type 0
  Keeps d d' =
      ((r : String) → str_mem r d.dead ≡ true → str_mem r d'.dead ≡ true) × NotDead d'.dead d'.live

  drop-NotDead :
      (r : String) (dead : List String) (ps : List (String × Envelope F))
      → NotDead dead ps
      → NotDead (r ∷ dead) (drop_key r ps)
  drop-NotDead r dead [] a = tt
  drop-NotDead r dead (p ∷ ps) a = elim (Bool-cases (str_eq p.0 r)) [
    | inl t ↦ rw t (drop-NotDead r dead ps a.1)
    | inr f ↦ rw f ((rw f a.0.0, a.0.1), drop-NotDead r dead ps a.1)
  ]

  pub kill-Keeps : (d : Demand F) (r : String) → NotDead d.dead d.live → Keeps d (kill d r)
  unfolding kill
  kill-Keeps d r a = ((λ q h. ground (arith, h)), drop-NotDead r d.dead d.live a)

  then-Keeps : (d d' d'' : Demand F) → Keeps d d' → Keeps d' d'' → Keeps d d''
  then-Keeps d d' d'' k k' = ((λ q h. k'.0 q (k.0 q h)), k'.1)

  pub kill_all-Keeps :
      (d : Demand F) (rs : List String) → NotDead d.dead d.live → Keeps d (kill_all d rs)
  unfolding kill_all
  kill_all-Keeps d [] a = ((λ q h. h), a)
  kill_all-Keeps d (r ∷ rs) a =
      let k = kill-Keeps d r a in
      then-Keeps d (kill d r) (kill_all (kill d r) rs) k (kill_all-Keeps (kill d r) rs k.1)

  pub kill_leases-Keeps :
      (d : Demand F) (rs : List String) → NotDead d.dead d.live → Keeps d (kill_leases d rs)
  unfolding kill_leases
  kill_leases-Keeps d [] a = ((λ q h. h), a)
  kill_leases-Keeps d (r ∷ rs) a = elim (Bool-cases (str_mem r d.leases)) [
    | inl t ↦
        let k = kill-Keeps d r a in
        rw (t, kill_leases)
          (then-Keeps d (kill d r) (kill_leases (kill d r) rs) k
            (kill_leases-Keeps (kill d r) rs k.1))
    | inr f ↦ rw (f, kill_leases) (kill_leases-Keeps d rs a)
  ]

  expire-Keeps : (d : Demand F) (r : String) → NotDead d.dead d.live → Keeps d (expire d r)
  unfolding expire
  expire-Keeps d r a = elim (Bool-cases (str_mem r d.dead)) [
    | inl t ↦ rw t ((λ q h. h), a)
    | inr f ↦ elim (Bool-cases (str_mem r d.leases)) [
      | inl t ↦ rw (f, t) (kill-Keeps d r a)
      | inr g ↦ rw (f, g) ((λ q h. h), a)
    ]
  ]

  expire_all-Keeps :
      (d : Demand F) (rs : List String) → NotDead d.dead d.live → Keeps d (expire_all d rs)
  unfolding expire_all
  expire_all-Keeps d [] a = ((λ q h. h), a)
  expire_all-Keeps d (r ∷ rs) a =
      let k = expire-Keeps d r a in
      then-Keeps d (expire d r) (expire_all (expire d r) rs) k
        (expire_all-Keeps (expire d r) rs k.1)

  renew-NotDead :
      (r : String) (e : Envelope F) (dead : List String) (ps : List (String × Envelope F))
      → str_mem r dead ≡ false
      → request_name e ≡ some r
      → NotDead dead ps
      → NotDead dead (drop_key r ps ++ (r, e) ∷ [])
  renew-NotDead r e dead [] f n a = ((f, n), tt)
  renew-NotDead r e dead (p ∷ ps) f n a = elim (Bool-cases (str_eq p.0 r)) [
    | inl t ↦ rw t (renew-NotDead r e dead ps f n a.1)
    | inr g ↦ rw g (a.0, renew-NotDead r e dead ps f n a.1)
  ]

  renew-Keeps :
      (d : Demand F) (r : String) (e : Envelope F)
      → str_mem r d.dead ≡ false
      → request_name e ≡ some r
      → NotDead d.dead d.live
      → Keeps d (renew d r e)
  unfolding renew
  renew-Keeps d r e f n a = ((λ q h. h), renew-NotDead r e d.dead d.live f n a)

  placed-Keeps : (d : Demand F) (m : Move) → NotDead d.dead d.live → Keeps d (placed d m)
  unfolding placed
  placed-Keeps d (extended new) a = ((λ q h. h), a)
  placed-Keeps d (rewalked here) a = ((λ q h. h), a)

module _ {F : Type 0} ⦃num : Number F⦄ where
  send-Keeps :
      (d : Demand F) (r : String) (e : Envelope F)
      → str_mem r d.dead ≡ false
      → request_name e ≡ some r
      → NotDead d.dead d.live
      → Keeps d (send d r e)
  unfolding send
  send-Keeps d r e u n a = elim (Bool-cases (str_mem r d.leases || str_mem r d.durables)) [
    | inl t ↦ rw t (renew-Keeps d r e u n a)
    | inr f ↦ elim (Bool-cases (sends_lease e)) [
      | inr durable ↦
          rw (f, durable) (renew-Keeps (record d { durables = r ∷ d.durables }) r e u n a)
      | inl lease ↦ elim (Bool-cases (void d.bindings r || str_mem r d.expired)) [
        | inl t ↦ rw (f, lease, t) (kill-Keeps d r a)
        | inr g ↦ rw (f, lease, g) (renew-Keeps (record d { leases = r ∷ d.leases }) r e u n a)
      ]
    ]
  ]

  pub send_name-named :
      (e : Envelope F) (r : String) → send_name e ≡ some r → request_name e ≡ some r
  send_name-named e r h = elim (Bool-cases (str_eq e.topic Topic.control_subscribe)) [
    | inl t ↦ sym (rw t refl) ∙ h
    | inr f ↦ absurd (ground (arith, h, f))
  ]

  pub send_if-Keeps :
      (d : Demand F) (e : Envelope F) (o : Option String)
      → ((r : String) → o ≡ some r → request_name e ≡ some r)
      → NotDead d.dead d.live
      → Keeps d (send_if d e o)
  send_if-Keeps d e none n a = ((λ q h. h), a)
  send_if-Keeps d e (some r) n a = elim (Bool-cases (str_mem r d.dead)) [
    | inl t ↦ rw t ((λ q h. h), a)
    | inr f ↦ rw f (send-Keeps d r e f (n r refl) a)
  ]

  pub expire_if-Keeps :
      (d : Demand F) (e : Envelope F) → NotDead d.dead d.live → Keeps d (expire_if d e)
  expire_if-Keeps d e a = elim (Bool-cases (is_node_topic e.topic)) [
    | inl t ↦ rw t (expire_all-Keeps d (expired_by e) a)
    | inr f ↦ rw f ((λ q h. h), a)
  ]

  pub apply-Keeps : (d : Demand F) (e : Envelope F) → NotDead d.dead d.live → Keeps d (apply d e)
  unfolding apply
  apply-Keeps d e a =
      let b = Bindings.apply d.bindings e in
      let d1 = bind_at d b in
      let k1 = kill_leases-Keeps (record d { bindings = b.1 }) b.0 a in
      let k2 = expire_if-Keeps d1 e k1.1 in
      let k3 = kill_all-Keeps (expire_if d1 e) (spent_by e) k2.1 in
      let k4 =
        send_if-Keeps (kill_all (expire_if d1 e) (spent_by e)) e (send_name e) (send_name-named e)
          k3.1 in
      elim (Bool-cases (str_eq e.topic Topic.lifecycle_bound && names_dead d (request_name e))) [
        | inl t ↦ rw t ((λ q h. h), a)
        | inr f ↦ rw f ((λ q h. k4.0 q (k3.0 q (k2.0 q (k1.0 q h)))), k4.1)
      ]

  pub leads-Keeps : {d d' : Demand F} → Leads d d' → NotDead d.dead d.live → Keeps d d'
  leads-Keeps stays a = ((λ q h. h), a)
  leads-Keeps {d} (applies {d'} l e) a =
      let k = leads-Keeps l a in then-Keeps d d' (apply d' e) k (apply-Keeps d' e k.1)
  leads-Keeps {d} (moves {d'} l m) a =
      let k = leads-Keeps l a in then-Keeps d d' (placed d' m) k (placed-Keeps d' m k.1)

  NotDead-key :
      (r : String) (dead : List String) (here : List String) (ps : List (String × Envelope F))
      → str_mem r dead ≡ true
      → NotDead dead ps
      → has_key r (filter (elsewhere here) ps) ≡ false
  NotDead-key r dead here [] h a = refl
  NotDead-key r dead here (p ∷ ps) h a = elim (Bool-cases (elsewhere here p)) [
    | inr out ↦ rw out (NotDead-key r dead here ps h a.1)
    | inl t ↦ elim (Bool-cases (str_eq p.0 r)) [
      | inl same ↦
          let e : p.0 ≡ r = (str_eq_iff p.0 r).0 same in
          absurd (ground (arith, h, ap (λ s. str_mem s dead) e, a.0.0))
      | inr f ↦ rw (t, f) (NotDead-key r dead here ps h a.1)
    ]
  ]

  -- An id once dead is not shown again, whatever records come and whatever moves the head makes.
  pub dead-forever :
      (d d' : Demand F) (r : String)
      → Leads no_demand d
      → Leads d d'
      → str_mem r d.dead ≡ true
      → has_key r d'.shown ≡ false
  dead-forever d d' r l l' h =
      let k = leads-Keeps l tt in
      let k' = leads-Keeps l' k.1 in
      rw (shown-elsewhere d' (leads-on l l'))
        (NotDead-key r d'.dead d'.here d'.live (k'.0 r h) k'.1)
