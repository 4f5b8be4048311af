-- ===== src/Claims/Search/Mark.antt =====
-- `watermark` of runstate/claims.py.
use runstate.Prelude.{
  ℕ, ◌≡◌, refl, inl, inr, Bool, not, Option, none, some, List, [], ◌∷◌, ◌++◌, reverse, str_eq,
  if◌then◌else◌, Bool-cases, Option-cases, filter,
}
use mathlib.Core.List.{reverse-append}
use runstate.Channel.{Envelope}
use runstate.Channel.Interface.{Channel}
use runstate.Channel.Windows.{within}
use runstate.Vocabulary.Topic
use runstate.Claims.{named_claim, names_claim}
use runstate.Claims.Search.{consumed, first_mark, mark_topics, watermark}
use runstate.Claims.Search.Windows.{backward_lem}

abbrev pub or_mark : Option ℕ → Option ℕ → Option ℕ
or_mark (some n) o = some n
or_mark none o = o

module _ {F : Type 0} where
  -- The watermark that one record writes for the claim, if any: an exit's seq, or the
  -- `consumed_seq` of another record where that is readable.
  abbrev pub mark_of : ℕ → Envelope F → Option ℕ
  mark_of c e =
      if not (names_claim (named_claim e) c)
      then none
      else if str_eq e.topic Topic.lifecycle_stopped
      then some e.seq
      else consumed e

  -- The mark of the last record that passes a test and writes one.
  abbrev pub newest_mark : (Envelope F → Bool) → ℕ → List (Envelope F) → Option ℕ
  newest_mark p c [] = none
  newest_mark p c (e ∷ es) = or_mark (newest_mark p c es) (if p e then mark_of c e else none)

  first_mark-append :
      (c : ℕ) (xs ys : List (Envelope F))
      → first_mark c (xs ++ ys) ≡ or_mark (first_mark c xs) (first_mark c ys)
  unfolding first_mark
  first_mark-append c [] ys = refl
  first_mark-append c (x ∷ xs) ys =
      let ih = first_mark-append c xs ys in
      elim (Bool-cases (names_claim (named_claim x) c)) [
        | inr f ↦ rw f ih
        | inl t ↦ elim (Bool-cases (str_eq x.topic Topic.lifecycle_stopped)) [
          | inl s ↦ rw (t, s) refl
          | inr g ↦ elim (Option-cases (consumed x)) [
            | inl n ↦ rw (t, g, n) ih
            | inr (k, p) ↦ rw (t, g, p) refl
          ]
        ]
      ]

  first_mark-one : (c : ℕ) (e : Envelope F) → first_mark c (e ∷ []) ≡ mark_of c e
  unfolding first_mark
  first_mark-one c e = elim (Option-cases (consumed e)) [
    | inl n ↦ rw n refl
    | inr (k, p) ↦ rw p refl
  ]

  first_mark-reverse :
      (p : Envelope F → Bool) (c : ℕ) (es : List (Envelope F))
      → first_mark c (reverse (filter p es)) ≡ newest_mark p c es
  unfolding first_mark
  first_mark-reverse p c [] = refl
  first_mark-reverse p c (e ∷ es) =
      let ih = first_mark-reverse p c es in
      elim (Bool-cases (p e)) [
        | inl t ↦
            rw
              (
                t,
                reverse-append (e ∷ []) (filter p es),
                first_mark-append c (reverse (filter p es)) (e ∷ []),
                ih,
                first_mark-one c e,
              )
              refl
        | inr f ↦
            rw (f, ih)
              (elim (Option-cases (newest_mark p c es)) [
                | inl n ↦ rw n refl
                | inr (k, q) ↦ rw q refl
              ])
      ]

  -- The claim's watermark is the mark of the log's last record above the claim and at or below `w`,
  -- a commit, a heartbeat or an exit, that names the claim and writes one; none where no record
  -- does.
  pub watermark-newest_mark :
      (ch : Channel F) (claim : Envelope F) (w : ℕ)
      → watermark ch claim w ≡ newest_mark (within claim.seq w (some mark_topics)) claim.seq ch.log
  unfolding watermark
  watermark-newest_mark ch claim w =
      rw (backward_lem ch claim.seq mark_topics w)
        (first_mark-reverse (within claim.seq w (some mark_topics)) claim.seq ch.log)
