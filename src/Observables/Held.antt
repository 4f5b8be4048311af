-- ===== src/Observables/Held.antt =====
-- A fold held between polls, as runstate/observables.py holds each: a cursor and a state. A poll
-- applies the records above its cursor and at or below its W, and the cursor moves past each one as
-- it is applied.
use runstate.Prelude.{ℕ, ◌≤◌, max, String, ◌≡◌, refl, ◌∙◌, List, [], ◌∷◌, ◌++◌, arith, length, All}
use runstate.Channel.{Envelope}
use runstate.Channel.Interface.{Channel}
use runstate.Channel.Growth.{Grows, Grows-length}
use runstate.Observables.Tail.{All-between, tail, tail_lem, between, tail-resumes, none_between}

pub record Held (S : Type 0) : Type 0 where
  pub cursor : ℕ
  pub state : S

module _ {F S : Type 0} (step : S → Envelope F → S) where
  abbrev pub run : S → List (Envelope F) → S
  run s [] = s
  run s (e ∷ es) = run (step s e) es

  unfoldable pub advance : Held S → List (Envelope F) → Held S
  advance h [] = h
  advance h (e ∷ es) = advance (record { cursor = e.seq; state = step h.state e }) es

  -- `for e in _tail(…): …; self._cursor = e.seq`, then `self._cursor = max(self._cursor, w)`.
  unfoldable pub read_on : Channel F → ℕ → List String → Held S → Held S
  unfolding advance tail
  read_on ch w topics h =
      let h' = advance h (tail ch h.cursor w topics) in record h' { cursor = max h'.cursor w }

  pub run-append : (s : S) (xs ys : List (Envelope F)) → run s (xs ++ ys) ≡ run (run s xs) ys
  run-append s [] ys = refl
  run-append s (x ∷ xs) ys = run-append (step s x) xs ys

  -- A fold that has applied, in order, what the log has on its topics up to its cursor.
  pub record IsHeld (s0 : S) (topics : List String) (ch : Channel F) (h : Held S) : Type 0 where
    pub reached : h.cursor ≤ length ch.log
    pub folded : h.state ≡ run s0 (between 0 h.cursor topics ch.log)

  advance_state : (h : Held S) (es : List (Envelope F)) → (advance h es).state ≡ run h.state es
  unfolding advance
  advance_state h [] = refl
  advance_state h (e ∷ es) = advance_state (record { cursor = e.seq; state = step h.state e }) es

  advance_cursor :
      (w : ℕ) (h : Held S) (es : List (Envelope F))
      → h.cursor ≤ w
      → All (λ e. e.seq ≤ w) es
      → (advance h es).cursor ≤ w
  unfolding advance
  advance_cursor w h [] le a = le
  advance_cursor w h (e ∷ es) le a =
      advance_cursor w (record { cursor = e.seq; state = step h.state e }) es a.0 a.1

  module _ (s0 : S) (topics : List String) (ch ch' : Channel F) (w : ℕ) (h : Held S) where
    pub read_on_cursor : h.cursor ≤ w → (read_on ch' w topics h).cursor ≡ w
    unfolding read_on
    read_on_cursor le =
        let below : (advance h (tail ch' h.cursor w topics)).cursor ≤ w =
          advance_cursor w h (tail ch' h.cursor w topics) le
            (rw (tail_lem ch' h.cursor w topics) (All-between h.cursor w topics ch'.log)) in
        omega (arith, below)

    folds :
        IsHeld s0 topics ch h
        → Grows ch ch'
        → h.cursor ≤ w
        → (read_on ch' w topics h).state ≡ run s0 (between 0 w topics ch'.log)
    unfolding read_on
    folds i g le =
        advance_state h (tail ch' h.cursor w topics)
        ∙ rw
            (
              i.folded,
              tail-resumes ch ch' h.cursor w topics g i.reached le,
              run-append s0 (between 0 h.cursor topics ch.log) (tail ch' h.cursor w topics),
            )
            refl

    -- A poll of a fold that holds the log up to its cursor holds the grown log up to its W.
    pub read_on-IsHeld :
        IsHeld s0 topics ch h
        → Grows ch ch'
        → h.cursor ≤ w
        → w ≤ length ch'.log
        → IsHeld s0 topics ch' (read_on ch' w topics h)
    read_on-IsHeld i g le top = record {
      reached = rw (read_on_cursor le) top;
      folded = rw (read_on_cursor le) (folds i g le);
    }

  -- A poll to the end of the log holds the whole log.
  pub poll-IsHeld :
      (s0 : S) (topics : List String) (ch ch' : Channel F) (h : Held S)
      → IsHeld s0 topics ch h
      → Grows ch ch'
      → IsHeld s0 topics ch' (read_on ch' ch'.last_seq topics h)
        × ((read_on ch' ch'.last_seq topics h).state
            ≡ run s0 (between 0 (length ch'.log) topics ch'.log))
  poll-IsHeld s0 topics ch ch' h i g =
      let up : h.cursor ≤ length ch'.log = omega (arith, i.reached, Grows-length ch ch' g) in
      rw ch'.last_seq_lem (
        read_on-IsHeld s0 topics ch ch' (length ch'.log) h i g up (omega arith),
        folds s0 topics ch ch' (length ch'.log) h i g up,
      )

  pub new-IsHeld :
      (s0 : S) (topics : List String) (ch : Channel F)
      → IsHeld s0 topics ch (record { cursor = 0; state = s0 })
  new-IsHeld s0 topics ch = record {
    reached = omega arith;
    folded = rw (none_between 0 0 topics ch.log (omega arith)) refl;
  }
