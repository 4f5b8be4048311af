-- ===== src/Channel.antt =====
-- runstate/channel/envelope.py and the filters of runstate/channel/base.py's `read`.
pub mod Topics
pub mod Memory
pub mod Interface
pub mod Windows
pub mod Growth
pub mod Last
use runstate.Prelude.{
  ℕ, String, Bool, true, false, ◌&&◌, Option, none, some, List, [], ◌∷◌, str_eq, if◌then◌else◌,
  take, filter, str_mem,
}
use runstate.Prelude.Int.{ℤ, ltb_ℤ, pos}
use runstate.Json.{Fields}
use Topics.{topic_match}

pub record Envelope (F : Type 0) : Type 0 where
  pub seq : ℕ
  pub topic : String
  pub name : Option String
  pub request_id : Option String
  pub body : Fields F

-- The keyword arguments of `read`; `none` is Python's `None`, which filters nothing.
pub record Query : Type 0 where
  pub topics : Option (List String)
  pub name : Option String
  pub request_ids : Option (List String)
  pub limit : Option ℕ

abbrev pub same_name : Option String → Option String → Bool
same_name none (some b) = false
same_name (some a) none = false
same_name none none = true
same_name (some a) (some b) = str_eq a b

-- `topics is not None and not _topic_match(e.topic, topics)`, negated.
abbrev pub topics_admit : Option (List String) → String → Bool
topics_admit none t = true
topics_admit (some ps) t = topic_match t ps

-- `name is not None and e.name != name`, negated.
abbrev pub name_admits : Option String → Option String → Bool
name_admits none n = true
name_admits (some a) n = same_name n (some a)

-- `e.request_id is None or e.request_id in request_ids`.
abbrev pub requests_admit : Option (List String) → Option String → Bool
requests_admit none r = true
requests_admit (some rs) none = true
requests_admit (some rs) (some r) = str_mem r rs

module _ {F : Type 0} where
  abbrev pub admits : Query → Envelope F → Bool
  admits q e =
      topics_admit q.topics e.topic
      && name_admits q.name e.name
      && requests_admit q.request_ids e.request_id

  abbrev pub up_to : Option ℕ → List (Envelope F) → List (Envelope F)
  up_to none es = es
  up_to (some n) es = take n es

  -- What the base class promises of `read`: the envelopes above `after`, in order, filtered, and at
  -- most `limit` of them.
  abbrev pub read_spec : ℤ → Query → List (Envelope F) → List (Envelope F)
  read_spec after q es =
      up_to q.limit (filter (admits q) (filter (λ e. ltb_ℤ after (pos e.seq)) es))

  -- The last envelope that passes a test.
  abbrev pub last_where : (Envelope F → Bool) → List (Envelope F) → Option (Envelope F)
  last_where p [] = none
  last_where p (e ∷ es) = elim (last_where p es) [
    | some found ↦ some found
    | none ↦ if p e then some e else none
  ]

  -- What the base class promises of `latest`: the newest envelope of the topic, and of the name when
  -- one is given.
  abbrev pub latest_spec : String → Option String → List (Envelope F) → Option (Envelope F)
  latest_spec topic name es = last_where (λ e. str_eq e.topic topic && name_admits name e.name) es
