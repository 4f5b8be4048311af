-- ===== src/Claims/Windowed.antt =====
-- `endings` of runstate/claims.py and its capped window.
use runstate.Prelude.{
  ℕ, ◌≤◌, String, ◌≡◌, refl, inl, inr, Bool, false, ◌&&◌, Option, none, some, List, [], ◌∷◌, arith,
  ltb, leb, leb→le, Bool-cases, filter,
}
use runstate.Channel.{Envelope}
use runstate.Channel.Topics.{topic_match}
use runstate.Channel.Interface.{Channel}
use runstate.Channel.Windows.{window_lem, within}
use runstate.Claims.{
  named_claim, ends, names_claim, if_below, is_ending_topic, ending_topics, claim_window, endings,
}

-- Of a record on no ending topic, or at or below the claim, it is not the end.
if_below-names :
    (s c : ℕ) (o : Option ℕ)
    → names_claim (if_below s o) c ≡ (ltb c s && names_claim (if_below s o) c)
if_below-names s c none = ground arith
if_below-names s c (some k) = ground arith

pub topic-ending : (t : String) → topic_match t ending_topics ≡ is_ending_topic t
unfolding topic_match
topic-ending t = ground arith

module _ {F : Type 0} where
  filter_twice :
      (p q r : Envelope F → Bool) (es : List (Envelope F))
      → ((e : Envelope F) → ((q e && p e) ≡ r e))
      → filter p (filter q es) ≡ filter r es
  filter_twice p q r [] h = refl
  filter_twice p q r (e ∷ es) h = ground (arith, h e, filter_twice p q r es h)

  filter_none :
      (p : Envelope F → Bool) (es : List (Envelope F))
      → ((e : Envelope F) → p e ≡ false)
      → filter p es ≡ []
  filter_none p [] h = refl
  filter_none p (e ∷ es) h = rw (h e) (filter_none p es h)

  -- The test that a record at or below `w` ends the claim.
  abbrev pub ends_by : ℕ → ℕ → Envelope F → Bool
  ends_by w c e = leb e.seq w && names_claim (ends e) c

  pub in_window :
      (c w : ℕ) (e : Envelope F)
      → (within c w (some ending_topics) e && names_claim (ends e) c) ≡ ends_by w c e
  unfolding ends
  in_window c w e = rw (topic-ending e.topic) (elim (Bool-cases (is_ending_topic e.topic)) [
    | inl t ↦ rw t (ground (arith, if_below-names e.seq c (named_claim e)))
    | inr f ↦ rw f (ground arith)
  ])

  none_ends : (c w : ℕ) (e : Envelope F) → w ≤ c → ends_by w c e ≡ false
  unfolding ends
  none_ends c w e le = elim (Bool-cases (is_ending_topic e.topic)) [
    | inl t ↦ rw t (ground (arith, if_below-names e.seq c (named_claim e)))
    | inr f ↦ rw f (ground arith)
  ]

  -- The capped, topic-filtered read of the claim's window loses nothing: `endings` is the log's
  -- records at or below `w` that end the claim, all of them and in the log's order.
  pub endings_lem :
      (ch : Channel F) (claim : Envelope F) (w : ℕ)
      → endings ch claim w ≡ filter (ends_by w claim.seq) ch.log
  unfolding endings claim_window
  endings_lem ch claim w = elim (Bool-cases (leb w claim.seq)) [
    | inl low ↦
        rw
          (
            low,
            filter_none (ends_by w claim.seq) ch.log
                (λ e. none_ends claim.seq w e (leb→le w claim.seq low)),
          )
          refl
    | inr up ↦
        rw (up, window_lem ch claim.seq w (some ending_topics))
          (filter_twice _ _ (ends_by w claim.seq) ch.log (in_window claim.seq w))
  ]
