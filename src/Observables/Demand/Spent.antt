-- ===== src/Observables/Demand/Spent.antt =====
-- `live_demand` of runstate/observables.py and the records that spend a subscription by name.
use runstate.Prelude.{
  String, ◌≡◌, refl, sym, ap, ◌∙◌, inl, inr, Bool, true, false, ◌&&◌, Option, none, some, List, [],
  ◌∷◌, map, reverse, arith, str_eq, str_eq_iff, ◌==◌, Bool-cases, and_left, filter, any, All,
  str_mem, Result-cases, ok,
}
use runstate.Json.{Number}
use runstate.Channel.{Envelope}
use runstate.Channel.Interface.{Channel}
use runstate.Vocabulary.Topic
use runstate.Claims.{request_name, spent_by}
use runstate.Claims.Bindings.{Bindings}
use runstate.Claims.Bindings
use runstate.Observables.Tail.{pass, pass_lem, between}
use runstate.Observables.Held.{run}
use runstate.Observables.Head.Stands.{other_topic}
use runstate.Observables.Head.{Head, latest_claim_head}
use runstate.Observables.Demand.{
  Demand, no_demand, rewalked, kill, kill_all, bind_at, expire_if, send_name, names_dead,
  is_node_topic, apply, placing, placed, live,
}
use runstate.Observables.Demand.Placed.{Leads, stays, applies, moves, shown-elsewhere, elsewhere}
use runstate.Observables.Demand.Dead.{
  NotDead, kill-Keeps, kill_all-Keeps, kill_leases-Keeps, expire_if-Keeps, send_if-Keeps,
  send_name-named, leads-Keeps,
}
use runstate.Observables.Demand.Lineage.{demand_topics, head_lineage, live_at, live_demand}

abbrev pub names_request : String → Option String → Bool
names_request r none = false
names_request r (some q) = str_eq q r

module _ {F : Type 0} where
  kill_all-dead :
      (d : Demand F) (rs : List String) (r : String)
      → NotDead d.dead d.live
      → str_mem r rs ≡ true
      → str_mem r (kill_all d rs).dead ≡ true
  unfolding kill_all kill
  kill_all-dead d [] r a h = absurd (ground (arith, h))
  kill_all-dead d (q ∷ rs) r a h =
      let k = kill-Keeps d q a in
      elim (Bool-cases (str_mem r rs)) [
        | inl t ↦ kill_all-dead (kill d q) rs r k.1 t
        | inr f ↦ (kill_all-Keeps (kill d q) rs k.1).0 r (ground (arith, h, f))
      ]

  other-name :
      (r : String) (dead : List String) (p : String × Envelope F)
      → str_mem r dead ≡ true
      → (str_mem p.0 dead ≡ false) × (request_name p.1 ≡ some p.0)
      → names_request r (request_name p.1) ≡ false
  other-name r dead p h a = rw a.1 (elim (Bool-cases (str_eq p.0 r)) [
    | inr f ↦ f
    | inl same ↦
        let e : p.0 ≡ r = (str_eq_iff p.0 r).0 same in
        absurd (ground (arith, h, ap (λ s. str_mem s dead) e, a.0))
  ])

  -- What is shown of a state whose dead hold `r` does not name it.
  unnamed :
      (r : String) (dead here : List String) (ps : List (String × Envelope F))
      → str_mem r dead ≡ true
      → NotDead dead ps
      → All
          (λ e. names_request r (request_name e) ≡ false)
          (map (λ p. p.1) (filter (elsewhere here) ps))
  unnamed r dead here [] h a = tt
  unnamed r dead here (p ∷ ps) h a = elim (Bool-cases (elsewhere here p)) [
    | inr out ↦ rw out (unnamed r dead here ps h a.1)
    | inl t ↦ rw t (other-name r dead p h a.0, unnamed r dead here ps h a.1)
  ]

module _ {F : Type 0} ⦃num : Number F⦄ where
  -- A binding spends nothing.
  bound-spends :
      (e : Envelope F) (r : String)
      → str_eq e.topic Topic.lifecycle_bound ≡ true
      → str_mem r (spent_by e) ≡ true
      → ⊥
  unfolding spent_by
  bound-spends e r t h =
      let stop = other_topic e.topic Topic.lifecycle_bound Topic.lifecycle_stopped t refl in
      let withdraw = other_topic e.topic Topic.lifecycle_bound Topic.control_withdraw t refl in
      let nak = other_topic e.topic Topic.lifecycle_bound Topic.lifecycle_nak t refl in
      ground (arith, stop, withdraw, nak, h)

  apply-dead :
      (d : Demand F) (e : Envelope F) (r : String)
      → NotDead d.dead d.live
      → str_mem r (spent_by e) ≡ true
      → str_mem r (apply d e).dead ≡ true
  unfolding apply
  apply-dead d e r a h =
      let b = Bindings.apply d.bindings e in
      let d1 = bind_at d b in
      let k1 = kill_leases-Keeps (record d { bindings = b.1 }) b.0 a in
      let k2 = expire_if-Keeps d1 e k1.1 in
      let d2 = expire_if d1 e in
      let k3 = kill_all-Keeps d2 (spent_by e) k2.1 in
      let k4 = send_if-Keeps (kill_all d2 (spent_by e)) e (send_name e) (send_name-named e) k3.1 in
      elim (Bool-cases (str_eq e.topic Topic.lifecycle_bound && names_dead d (request_name e))) [
        | inl t ↦ absurd (bound-spends e r (and_left (str_eq e.topic Topic.lifecycle_bound) _ t) h)
        | inr f ↦ rw f (k4.0 r (kill_all-dead d2 (spent_by e) r k2.1 h))
      ]

  run-leads :
      (d : Demand F) (es : List (Envelope F)) {d0 : Demand F}
      → Leads d0 d
      → Leads d0 (run apply d es)
  run-leads d [] l = l
  run-leads d (e ∷ es) l = run-leads (apply d e) es (applies l e)

  run-dead :
      (d : Demand F) (es : List (Envelope F)) (r : String)
      → NotDead d.dead d.live
      → any (λ e. str_mem r (spent_by e)) es ≡ true
      → str_mem r (run apply d es).dead ≡ true
  run-dead d [] r a h = absurd (ground (arith, h))
  run-dead d (e ∷ es) r a h =
      let k = leads-Keeps (applies stays e) a in
      elim (Bool-cases (str_mem r (spent_by e))) [
        | inl t ↦ (leads-Keeps (run-leads (apply d e) es stays) k.1).0 r (apply-dead d e r a t)
        | inr f ↦ run-dead (apply d e) es r k.1 (ground (arith, h, f))
      ]

  live-unnamed :
      (d : Demand F) (r : String)
      → Leads no_demand d
      → str_mem r d.dead ≡ true
      → All (λ e. names_request r (request_name e) ≡ false) (live d)
  unfolding live
  live-unnamed d r l h =
      rw (shown-elsewhere d l) (unnamed r d.dead d.here d.live h (leads-Keeps l tt).1)

  live_at-unnamed :
      (d : Demand F) (nodes : List (Envelope F)) (h : Head) (r : String) (es : List (Envelope F))
      → Leads no_demand d
      → str_mem r d.dead ≡ true
      → live_at d nodes h ≡ ok es
      → All (λ e. names_request r (request_name e) ≡ false) es
  unfolding placed
  live_at-unnamed d nodes h r es l dead q = elim (Bool-cases h.settled) [
    | inl t ↦ let same : [] ≡ es = ground (arith, q, t) in rw (← same) tt
    | inr f ↦ elim (Bool-cases (placing d)) [
      | inr g ↦
          let same : live d ≡ es = ground (arith, q, f, g) in rw (← same) (live-unnamed d r l dead)
      | inl g ↦ elim (Result-cases (head_lineage h.node (reverse nodes))) [
        | inr (x, k) ↦ absurd (ground (arith, q, f, g, k))
        | inl (v, k) ↦
            let same : live (placed d (rewalked v.expired)) ≡ es = ground (arith, q, f, g, k) in
            rw (← same)
              (live-unnamed (placed d (rewalked v.expired)) r (moves l (rewalked v.expired)) dead)
      ]
    ]
  ]

  -- `live_demand` answers no subscription whose id a record at or below W spends: a withdraw, a nak or
  -- an exit's `honored` names it, wherever it sits.
  pub live_demand-unspent :
      (ch : Channel F) (r : String) (es : List (Envelope F))
      → any (λ e. str_mem r (spent_by e)) (between 0 ch.last_seq demand_topics ch.log) ≡ true
      → live_demand ch ≡ ok es
      → All (λ e. names_request r (request_name e) ≡ false) es
  unfolding live_demand
  live_demand-unspent ch r es s q = elim (Bool-cases (ch.last_seq == 0)) [
    | inl z ↦ let same : [] ≡ es = ground (arith, q, z) in rw (← same) tt
    | inr more ↦
        let read = pass ch ch.last_seq demand_topics in
        let spends : any (λ e. str_mem r (spent_by e)) read ≡ true =
          ap (λ xs. any (λ e. str_mem r (spent_by e)) xs) (pass_lem ch ch.last_seq demand_topics)
          ∙ s in
        let d = run apply no_demand read in
        elim (Result-cases (latest_claim_head ch ch.last_seq)) [
          | inr (x, k) ↦ absurd (ground (arith, q, more, k))
          | inl (h, k) ↦
              live_at-unnamed d (filter (λ e. is_node_topic e.topic) read) h r es
                (run-leads no_demand read stays) (run-dead no_demand read r tt spends)
                (sym (rw (more, k, live_demand) refl) ∙ q)
        ]
  ]
