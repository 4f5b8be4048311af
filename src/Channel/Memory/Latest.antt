-- ===== src/Channel/Memory/Latest.antt =====
-- `MemoryLog.latest` of runstate/channel/memory.py and the topic index.
use runstate.Prelude.{
  ℕ, suc, ◌+◌, String, ◌≡◌, refl, subst, inl, inr, ◌&&◌, Option, none, some, List, [], ◌∷◌, ◌++◌,
  reverse, arith, str_eq, Bool-cases, get_elem?, all,
}
use mathlib.Core.List.{reverse-append}
use native.Mathlib.Nat.{zero-add}
use runstate.Channel.{Envelope, name_admits, last_where, latest_spec}
use runstate.Channel.Memory.{MemoryLog, scan, latest}
use runstate.Channel.Memory.Invariant.{IsLog, positions}

module _ {F : Type 0} where
  abbrev or_else : Option (Envelope F) → Option (Envelope F) → Option (Envelope F)
  or_else (some e) o = some e
  or_else none o = o

  scan-append :
      (es : List (Envelope F)) (name : Option String) (is js : List ℕ)
      → scan es name (is ++ js) ≡ or_else (scan es name is) (scan es name js)
  unfolding scan
  scan-append es name [] js = refl
  scan-append es name (i ∷ is) js = ground (arith, scan-append es name is js)

  -- `all` is the log, and `es` its part from position `i` on.
  scan-positions :
      (all : List (Envelope F)) (name : Option String) (t : String) (i : ℕ) (es : List (Envelope F))
      → ((j : ℕ) → get_elem? all (i + j) ≡ get_elem? es j)
      → scan all name (reverse (positions t i es))
        ≡ last_where (λ e. str_eq e.topic t && name_admits name e.name) es
  unfolding scan
  scan-positions all name t i [] h = refl
  scan-positions all name t i (e ∷ es) h =
      let ih =
        scan-positions all name t (suc i) es
          (λ j. subst (λ k. get_elem? all k ≡ get_elem? es j) (omega arith) (h (suc j))) in
      let here : get_elem? all i ≡ some e =
        subst (λ k. get_elem? all k ≡ some e) (omega arith) (h 0) in
      elim (Bool-cases (str_eq e.topic t)) [
        | inl hit ↦
            rw
              (
                hit,
                reverse-append (i ∷ []) (positions t (suc i) es),
                scan-append all name (reverse (positions t (suc i) es)) (i ∷ []),
                ih,
              )
              (ground (arith, here))
        | inr miss ↦ rw (miss, ih) (ground arith)
      ]

  -- `latest` of a well-formed log is the last envelope of the topic, and of the name when one is
  -- given.
  pub latest-latest_spec :
      (l : MemoryLog F) (topic : String) (name : Option String)
      → IsLog l
      → latest l topic name ≡ latest_spec topic name l.envelopes
  unfolding latest
  latest-latest_spec l topic name h =
      rw (h.indexed topic)
        (scan-positions l.envelopes name topic 0 l.envelopes (λ j. rw zero-add refl))
