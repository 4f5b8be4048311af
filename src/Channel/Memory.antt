-- ===== src/Channel/Memory.antt =====
-- `MemoryLog` and `MemoryChannel` of runstate/channel/memory.py. The lock makes each method one
-- step. A stored body is a JSON value, so `_snapshot`, a copy through `json`, is the value itself.
pub mod Invariant
pub mod Latest
pub mod Reading
pub mod Writers
pub mod Handle
use runstate.Prelude.{
  ℕ, zero, suc, ◌+◌, String, Option, none, some, List, [], ◌∷◌, ◌++◌, Bool, true, false, not, ◌==◌,
  reverse, str_eq, if◌then◌else◌, length, get_elem?, drop, Result, ok, err, ◌&&◌, leb,
}
use runstate.Prelude.Int.{ℤ, pos_part}
use runstate.Json.{Fields}
use runstate.Channel.{Envelope, Query, topics_admit, name_admits, requests_admit}

-- The dict `_by_topic`: a topic's positions, ascending.
abbrev pub Index : Type 0
Index = List (String × List ℕ)

-- `by_topic.get(topic, [])`.
unfoldable pub positions_of : String → Index → List ℕ
positions_of t [] = []
positions_of t ((k, ps) ∷ rest) = if str_eq k t then ps else positions_of t rest

-- `by_topic.setdefault(topic, []).append(i)`.
unfoldable pub add_position : String → ℕ → Index → Index
add_position t i [] = (t, i ∷ []) ∷ []
add_position t i ((k, ps) ∷ rest) =
    if str_eq k t then (k, ps ++ i ∷ []) ∷ rest else (k, ps) ∷ add_position t i rest

-- `expected_seq is not None and last != expected_seq`.
abbrev pub moved : Option ℕ → ℕ → Bool
moved none last = false
moved (some k) last = not (last == k)

-- `limit is not None and len(out) >= limit`.
abbrev pub full : Option ℕ → ℕ → Bool
full none n = false
full (some limit) n = leb limit n

pub record MemoryLog (F : Type 0) : Type 0 where
  pub envelopes : List (Envelope F)
  pub by_topic : Index

module _ {F : Type 0} where
  -- `seqs == list(range(n, n + len(seqs)))`.
  unfoldable pub is_range : ℕ → List (Envelope F) → Bool
  is_range n [] = true
  is_range n (e ∷ es) = e.seq == n && is_range (suc n) es

  -- The loop `for i, e in enumerate(...)` of the constructor.
  unfoldable pub index_all : ℕ → List (Envelope F) → Index → Index
  unfolding add_position
  index_all i [] idx = idx
  index_all i (e ∷ es) idx = index_all (suc i) es (add_position e.topic i idx)

  -- The constructor; `err` is its `ValueError`.
  unfoldable pub of_envelopes : List (Envelope F) → Result (Unit {0}) (MemoryLog F)
  unfolding is_range index_all
  of_envelopes es =
      if is_range 1 es then ok (record { envelopes = es; by_topic = index_all 0 es [] }) else err tt

  unfoldable pub last_seq : MemoryLog F → ℕ
  last_seq l = length l.envelopes

  unfoldable pub append :
      MemoryLog F
      → Fields F
      → String
      → Option String
      → Option String
      → Option ℕ
      → Option ℕ × MemoryLog F
  unfolding add_position
  append l body topic name request_id expected_seq =
      let last = length l.envelopes in
      let e : Envelope F = record {
        seq = last + 1;
        topic = topic;
        name = name;
        request_id = request_id;
        body = body;
      } in
      if moved expected_seq last then (none, l) else (
        some (last + 1),
        record { envelopes = l.envelopes ++ e ∷ []; by_topic = add_position topic last l.by_topic },
      )

  -- A negative `after` reads from the start.
  unfoldable pub tail : MemoryLog F → ℤ → List (Envelope F)
  tail l after = drop (pos_part after) l.envelopes

  -- The loop of `latest` over the positions, newest first. No position lies outside the list
  -- (`IsLog`), so the `IndexError` of one that did is no case here.
  unfoldable pub scan : List (Envelope F) → Option String → List ℕ → Option (Envelope F)
  scan es name [] = none
  scan es name (i ∷ is) =
      let rest = scan es name is in
      elim (get_elem? es i) [
        | none ↦ rest
        | some e ↦ if name_admits name e.name then some e else rest
      ]

  unfoldable pub latest : MemoryLog F → String → Option String → Option (Envelope F)
  unfolding scan positions_of
  latest l topic name = scan l.envelopes name (reverse (positions_of topic l.by_topic))

  -- The loop of `read`; `n` is `len(out)`.
  unfoldable pub collect : Query → List (Envelope F) → ℕ → List (Envelope F)
  collect q [] n = []
  collect q (e ∷ es) n =
      let skipped = collect q es n in
      let kept = e ∷ collect q es (suc n) in
      if not (topics_admit q.topics e.topic)
      then skipped
      else if not (name_admits q.name e.name)
      then skipped
      else if not (requests_admit q.request_ids e.request_id)
      then skipped
      else if full q.limit n
      then []
      else kept

  unfoldable pub read : MemoryLog F → ℤ → Query → List (Envelope F)
  unfolding collect tail
  read l after q = collect q (tail l after) 0

-- `MemoryChannel.send`. `encode` is `json.loads(json.dumps(body, default=json_default))`, which may
-- raise on a body that is not serializable; nothing is appended then.
module _ {F B X : Type 0} (encode : B → Result X (Fields F)) where
  unfoldable pub send :
      MemoryLog F
      → B
      → String
      → Option String
      → Option String
      → Option ℕ
      → Result X (Option ℕ) × MemoryLog F
  unfolding append
  send l body topic name request_id expected_seq = elim (encode body) [
    | err x ↦ (err x, l)
    | ok snapshot ↦
        let (seq, l') = append l snapshot topic name request_id expected_seq in (ok seq, l')
  ]
