-- ===== src/Observables/Demand.antt =====
-- The answer fold's subscriptions of runstate/observables.py: `_Demand` and `live_demand`. A dict is
-- the list of its pairs in insertion order, and a set the list of what it holds.
pub mod Lineage
pub mod Placed
pub mod Dead
pub mod Spent
use runstate.Prelude.{
  String, Bool, true, false, not, ◌&&◌, ◌||◌, Option, none, some, List, [], ◌∷◌, ◌++◌, map, str_eq,
  if◌then◌else◌, filter, any, str_mem, Result, ok, err,
}
use runstate.Json.{Number, obj}
use runstate.Channel.{Envelope}
use runstate.Vocabulary.Topic
use runstate.Vocabulary.Schedule.{Schedule, is_lease}
use runstate.Vocabulary.Schedule.Parse.{MalformedSchedule, parse_schedule}
use runstate.Vocabulary.Payloads.Lifecycle.{Commit, Stopped, parse_commit, parse_stopped}
use runstate.Walk.Node.{readable}
use runstate.Claims.{request_name, spent_by}
use runstate.Claims.Bindings.{Bindings, fresh, void, forget}
use runstate.Claims.Bindings

abbrev pub drop_name : String → List String → List String
drop_name r rs = filter (λ q. not (str_eq q r)) rs

pub record Demand (F : Type 0) : Type 0 where
  pub live : List (String × Envelope F)
  pub shown : List (String × Envelope F)
  pub leases : List String
  pub durables : List String
  pub dead : List String
  pub expired : List String
  pub expiring : List String
  pub here : List String
  pub bindings : Bindings

-- Where a move of the head leads: `_Extended` and `_Rewalked`.
pub data Move : Type 0 where
  extended rewalked : List String → Move

abbrev pub is_node_topic : String → Bool
is_node_topic t = str_eq t Topic.lifecycle_commit || str_eq t Topic.lifecycle_stopped

abbrev pub has_one : List String → Bool
has_one [] = false
has_one (r ∷ rs) = true

module _ {F : Type 0} where
  abbrev pub no_demand : Demand F
  no_demand = record {
    live = [];
    shown = [];
    leases = [];
    durables = [];
    dead = [];
    expired = [];
    expiring = [];
    here = [];
    bindings = fresh;
  }

  -- `dict.pop(r, None)`.
  abbrev pub drop_key : String → List (String × Envelope F) → List (String × Envelope F)
  drop_key r ps = filter (λ p. not (str_eq p.0 r)) ps

  abbrev pub has_key : String → List (String × Envelope F) → Bool
  has_key r ps = any (λ p. str_eq p.0 r) ps

  -- `_kill`.
  unfoldable pub kill : Demand F → String → Demand F
  unfolding forget
  kill d r = record {
    live = drop_key r d.live;
    shown = drop_key r d.shown;
    leases = drop_name r d.leases;
    durables = drop_name r d.durables;
    dead = r ∷ d.dead;
    expired = drop_name r d.expired;
    expiring = drop_name r d.expiring;
    here = d.here;
    bindings = forget d.bindings r;
  }

  unfoldable pub kill_all : Demand F → List String → Demand F
  unfolding kill
  kill_all d [] = d
  kill_all d (r ∷ rs) = kill_all (kill d r) rs

  -- `for r in …: if r in self._leases: self._kill(r)`.
  unfoldable pub kill_leases : Demand F → List String → Demand F
  unfolding kill
  kill_leases d [] = d
  kill_leases d (r ∷ rs) = kill_leases (if str_mem r d.leases then kill d r else d) rs

  -- `_expire`.
  unfoldable pub expire : Demand F → String → Demand F
  unfolding kill
  expire d r = if str_mem r d.dead then d else if str_mem r d.leases then kill d r else record d {
    expired = r ∷ d.expired;
    expiring = if has_key r d.live then r ∷ d.expiring else d.expiring;
  }

  unfoldable pub expire_all : Demand F → List String → Demand F
  unfolding expire
  expire_all d [] = d
  expire_all d (r ∷ rs) = expire_all (expire d r) rs

  -- The rest of `_send`, of an id that has a class.
  unfoldable pub renew : Demand F → String → Envelope F → Demand F
  renew d r e = record d {
    live = drop_key r d.live ++ (r, e) ∷ [];
    expiring = if str_mem r d.expired then r ∷ d.expiring else d.expiring;
    shown = if str_mem r d.here then drop_key r d.shown else drop_key r d.shown ++ (r, e) ∷ [];
  }

  -- `placed`.
  unfoldable pub drop_keys : List String → List (String × Envelope F) → List (String × Envelope F)
  drop_keys [] ps = ps
  drop_keys (r ∷ rs) ps = drop_keys rs (drop_key r ps)

  unfoldable pub placed : Demand F → Move → Demand F
  unfolding drop_keys
  placed d (extended new) = record d { here = new ++ d.here; shown = drop_keys new d.shown }
  placed d (rewalked here) = record d {
    here = here;
    shown = filter (λ p. not (str_mem p.0 here)) d.live;
  }

  -- `placing`.
  unfoldable pub placing : Demand F → Bool
  placing d = has_one d.expiring

  unfoldable pub live : Demand F → List (Envelope F)
  live d = map (λ p. p.1) d.shown

  abbrev pub send_name : Envelope F → Option String
  send_name e = if str_eq e.topic Topic.control_subscribe then request_name e else none

  abbrev pub names_dead : Demand F → Option String → Bool
  names_dead d none = false
  names_dead d (some r) = str_mem r d.dead

abbrev pub no_name : Option String → Bool
no_name none = true
no_name (some n) = false

module _ {F : Type 0} ⦃num : Number F⦄ where
  abbrev pub lease_of : Result MalformedSchedule (Schedule F) → Bool
  lease_of (ok s) = is_lease s
  lease_of (err x) = false

  -- `_is_lease`.
  unfoldable pub sends_lease : Envelope F → Bool
  unfolding parse_schedule
  sends_lease e = lease_of (parse_schedule (obj e.body) (no_name e.name))

  abbrev pub commit_expires : Option (Commit F) → List String
  commit_expires none = []
  commit_expires (some c) = c.expired

  abbrev pub stop_expires : Option (Stopped F) → List String
  stop_expires none = []
  stop_expires (some s) = s.expired

  -- `_expired`.
  unfoldable pub expired_by : Envelope F → List String
  unfolding readable
  expired_by e =
      if str_eq e.topic Topic.lifecycle_commit
      then commit_expires (readable parse_commit e)
      else stop_expires (readable parse_stopped e)

  -- `_send`.
  unfoldable pub send : Demand F → String → Envelope F → Demand F
  unfolding renew kill sends_lease void
  send d r e =
      if str_mem r d.leases || str_mem r d.durables
      then renew d r e
      else if not (sends_lease e)
      then renew (record d { durables = r ∷ d.durables }) r e
      else if void d.bindings r || str_mem r d.expired
      then kill d r
      else renew (record d { leases = r ∷ d.leases }) r e

  abbrev pub send_if : Demand F → Envelope F → Option String → Demand F
  send_if d e none = d
  send_if d e (some r) = if str_mem r d.dead then d else send d r e

  abbrev pub expire_if : Demand F → Envelope F → Demand F
  expire_if d e = if is_node_topic e.topic then expire_all d (expired_by e) else d

  abbrev pub bind_at : Demand F → List String × Bindings → Demand F
  bind_at d (rs, b) = kill_leases (record d { bindings = b }) rs

  unfoldable pub apply : Demand F → Envelope F → Demand F
  unfolding Bindings.apply kill_leases expire_all expired_by kill_all spent_by send request_name
  apply d e =
      if str_eq e.topic Topic.lifecycle_bound && names_dead d (request_name e)
      then d
      else (let d1 = bind_at d (Bindings.apply d.bindings e) in
          let d2 = kill_all (expire_if d1 e) (spent_by e) in send_if d2 e (send_name e))
