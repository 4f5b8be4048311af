-- ===== src/Channel/Windows/Split.antt =====
-- Windows of an ascending log, joined and cut.
use runstate.Prelude.{
  ℕ, ◌≤◌, String, ◌≡◌, refl, inl, inr, Bool, false, Option, List, [], ◌∷◌, ◌++◌, arith, leb,
  leb-false, Bool-cases, filter,
}
use runstate.Channel.{Envelope}
use runstate.Channel.Windows.{within, IsAfter}

module _ {F : Type 0} where
  pub filter_empty :
      (p : Envelope F → Bool) (es : List (Envelope F))
      → ((e : Envelope F) → p e ≡ false)
      → filter p es ≡ []
  filter_empty p [] h = refl
  filter_empty p (e ∷ es) h = rw (h e) (filter_empty p es h)

  pub late :
      (n lo mid : ℕ) (topics : Option (List String)) (es : List (Envelope F))
      → mid ≤ n
      → IsAfter n es
      → filter (within lo mid topics) es ≡ []
  late n lo mid topics [] le h = refl
  late n lo mid topics (e ∷ es) le h =
      let out : within lo mid topics e ≡ false = ground (arith, h.0) in
      rw out (late e.seq lo mid topics es (omega arith) h.1)

  -- A window of an ascending log is its lower part, then its upper part.
  pub split :
      (n lo mid hi : ℕ) (topics : Option (List String)) (es : List (Envelope F))
      → lo ≤ mid
      → mid ≤ hi
      → IsAfter n es
      → filter (within lo hi topics) es
        ≡ filter (within lo mid topics) es ++ filter (within mid hi topics) es
  split n lo mid hi topics [] a b h = refl
  split n lo mid hi topics (e ∷ es) a b h =
      let ih = split e.seq lo mid hi topics es a b h.1 in
      elim (Bool-cases (leb e.seq mid)) [
        | inl low ↦
            let no : within mid hi topics e ≡ false = ground arith in
            let same : within lo hi topics e ≡ within lo mid topics e = ground arith in
            rw (no, same, ih)
              (elim (Bool-cases (within lo mid topics e)) [ inl t ↦ rw t refl | inr f ↦ rw f refl ])
        | inr high ↦
            let no : within lo mid topics e ≡ false = ground arith in
            let same : within lo hi topics e ≡ within mid hi topics e = ground arith in
            let empty = late e.seq lo mid topics es (omega (arith, leb-false e.seq mid high)) h.1 in
            rw (no, same, ih, empty) refl
      ]
