-- ===== src/Channel/Growth.antt =====
-- Reads of a run whose log has grown between them: the lemmas of the held folds.
use runstate.Prelude.{
  ℕ, suc, ◌+◌, ◌≤◌, String, ◌≡◌, sym, subst, Option, List, [], ◌∷◌, ◌++◌, append-nil, arith, length,
  filter, filter-append, length-append,
}
use runstate.Channel.{Envelope}
use runstate.Channel.Interface.{Channel, IsContiguous}
use runstate.Channel.Windows.{within, IsAfter, IsContiguous→IsAfter}
use runstate.Channel.Windows.Split.{late}

module _ {F : Type 0} where
  -- The log of the second is the first's, with more after it.
  pub record Grows (ch ch' : Channel F) : Type 0 where
    pub more : List (Envelope F)
    pub grown : ch'.log ≡ ch.log ++ more

  pub Grows-refl : (ch : Channel F) → Grows ch ch
  Grows-refl ch = record { more = []; grown = sym (append-nil ch.log) }

  pub Grows-length : (ch ch' : Channel F) → Grows ch ch' → length ch.log ≤ length ch'.log
  Grows-length ch ch' g = rw (g.grown, length-append ch.log g.more) (omega arith)

  IsContiguous-drop :
      (n m : ℕ) (es more : List (Envelope F))
      → n + length es ≡ m
      → IsContiguous n (es ++ more)
      → IsContiguous m more
  IsContiguous-drop n m [] more e h = let e' : n ≡ m = omega arith in rw (← e') h
  IsContiguous-drop n m (x ∷ es) more e h = IsContiguous-drop (suc n) m es more (omega arith) h.1

  pub Grows-IsAfter : (ch ch' : Channel F) (g : Grows ch ch') → IsAfter (length ch.log) g.more
  Grows-IsAfter ch ch' g = IsContiguous→IsAfter (length ch.log) g.more (
      IsContiguous-drop 1 (suc (length ch.log)) ch.log g.more (omega arith)
        (subst (λ l. IsContiguous 1 l) g.grown ch'.contiguous))

  -- What lies at or below the old log's end is what it was.
  pub within-Grows :
      (ch ch' : Channel F) (lo w : ℕ) (topics : Option (List String))
      → Grows ch ch'
      → w ≤ length ch.log
      → filter (within lo w topics) ch'.log ≡ filter (within lo w topics) ch.log
  within-Grows ch ch' lo w topics g le =
      rw
        (
          g.grown,
          filter-append (within lo w topics) ch.log g.more,
          late (length ch.log) lo w topics g.more le (Grows-IsAfter ch ch' g),
        )
        (append-nil (filter (within lo w topics) ch.log))
