-- ===== src/Channel/Memory/Writers.antt =====
-- Several handles on one memory log: every interleaving of their appends.
use runstate.Prelude.{
  ℕ, ◌+◌, ◌≤◌, String, ◌≡◌, refl, sym, ap, ◌∙◌, inl, inr, true, false, Option, none, some, List, [],
  ◌∷◌, ◌++◌, append-nil, append_assoc, arith, Bool-cases, length, length-append,
}
use runstate.Json.{Fields}
use runstate.Channel.{Envelope}
use runstate.Channel.Memory.{MemoryLog, append, moved, last_seq}
use runstate.Channel.Memory.Invariant.{IsLog, append-IsLog}

module _ {F : Type 0} where
  -- The appends of any handles, in the order in which they take the lock; some may be lost.
  pub data Writes (l : MemoryLog F) : MemoryLog F → Type 0 where
    start : Writes l l
    write :
        {m : MemoryLog F} (body : Fields F) (topic : String) (name request_id : Option String)
        (expected_seq : Option ℕ)
        → Writes l m
        → Writes l (append m body topic name request_id expected_seq).1

  -- One landed record, as `append` writes it.
  abbrev entry : MemoryLog F → Fields F → String → Option String → Option String → Envelope F
  entry l body topic name request_id = record {
    seq = last_seq l + 1;
    topic = topic;
    name = name;
    request_id = request_id;
    body = body;
  }

  append_lost :
      (l : MemoryLog F) (body : Fields F) (topic : String) (name request_id : Option String)
      (expected_seq : Option ℕ)
      → moved expected_seq (last_seq l) ≡ true
      → append l body topic name request_id expected_seq ≡ (none, l)
  unfolding append last_seq
  append_lost l body topic name request_id expected_seq h = rw h refl

  append_lands :
      (l : MemoryLog F) (body : Fields F) (topic : String) (name request_id : Option String)
      (expected_seq : Option ℕ)
      → moved expected_seq (last_seq l) ≡ false
      → ((append l body topic name request_id expected_seq).0 ≡ some (last_seq l + 1))
        × ((append l body topic name request_id expected_seq).1.envelopes
            ≡ l.envelopes ++ entry l body topic name request_id ∷ [])
  unfolding append last_seq
  append_lands l body topic name request_id expected_seq h = (rw h refl, rw h refl)

  append-extends :
      (l : MemoryLog F) (body : Fields F) (topic : String) (name request_id : Option String)
      (expected_seq : Option ℕ)
      → (more : List (Envelope F)) × ((append l body topic name request_id expected_seq).1.envelopes
          ≡ l.envelopes ++ more)
  append-extends l body topic name request_id expected_seq =
      elim (Bool-cases (moved expected_seq (last_seq l))) [
        | inl m ↦
            ([], rw (append_lost l body topic name request_id expected_seq m) (sym (append-nil _)))
        | inr m ↦ (_, (append_lands l body topic name request_id expected_seq m).1)
      ]

  pub Writes-IsLog : {l m : MemoryLog F} → IsLog l → Writes l m → IsLog m
  Writes-IsLog h start = h
  Writes-IsLog h (write {m} body topic name request_id expected_seq w) =
      append-IsLog m body topic name request_id expected_seq (Writes-IsLog h w)

  -- The log is append-only: whatever the writers do, what was there stays, in place.
  pub Writes-extends :
      {l m : MemoryLog F}
      → Writes l m
      → (more : List (Envelope F)) × (m.envelopes ≡ l.envelopes ++ more)
  Writes-extends {l} start = ([], sym (append-nil l.envelopes))
  Writes-extends {l} (write {m} body topic name request_id expected_seq w) =
      let (before, e) = Writes-extends w in
      let (more, f) = append-extends m body topic name request_id expected_seq in
      (before ++ more, f ∙ ap (λ es. es ++ more) e ∙ append_assoc l.envelopes before more)

  Writes-le : {l m : MemoryLog F} → Writes l m → last_seq l ≤ last_seq m
  unfolding last_seq
  Writes-le {l} {m} w =
      let (more, e) = Writes-extends w in
      omega (arith, ap (λ es. length es) e, length-append l.envelopes more)

  last_seq-lands :
      (l : MemoryLog F) (body : Fields F) (topic : String) (name request_id : Option String)
      (expected_seq : Option ℕ)
      → moved expected_seq (last_seq l) ≡ false
      → last_seq (append l body topic name request_id expected_seq).1 ≡ last_seq l + 1
  unfolding last_seq
  last_seq-lands l body topic name request_id expected_seq h =
      rw (append_lands l body topic name request_id expected_seq h).1
        (rw length-append (omega arith))

  -- A compare-and-append is exclusive. Once one that expected `k` has landed, every later one that
  -- expects `k` is lost and writes nothing, whatever other appends come between them.
  pub append_exclusive :
      (l m : MemoryLog F) (k s : ℕ) (body body' : Fields F) (topic topic' : String)
      (name request_id name' request_id' : Option String)
      → (append l body topic name request_id (some k)).0 ≡ some s
      → Writes (append l body topic name request_id (some k)).1 m
      → append m body' topic' name' request_id' (some k) ≡ (none, m)
  append_exclusive l m k s body body' topic topic' name request_id name' request_id' won w =
      elim (Bool-cases (moved (some k) (last_seq l))) [
        | inl lost ↦
            let e = append_lost l body topic name request_id (some k) lost in
            absurd (ground (arith, e, won))
        | inr lands ↦
            append_lost m body' topic' name' request_id' (some k)
              (ground (arith, Writes-le w, grows lands, lands))
      ]
    where
      grows :
          moved (some k) (last_seq l) ≡ false
          → last_seq (append l body topic name request_id (some k)).1 ≡ last_seq l + 1
      grows lands = last_seq-lands l body topic name request_id (some k) lands
