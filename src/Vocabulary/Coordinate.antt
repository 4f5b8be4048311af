-- ===== src/Vocabulary/Coordinate.antt =====
-- runstate/vocabulary/coordinate.py: what progress is counted in, and the target atom.
pub mod Atom
use runstate.Prelude.{
  ℕ, String, Bool, true, not, ◌&&◌, Option, none, some, [], ◌∷◌, str_eq, leb, if◌then◌else◌,
}
use runstate.Prelude.Int.{pos}
use runstate.Json.{Json, Fields, int, str, field, end, get}
use runstate.Vocabulary.Checks.{has_key, only_keys}

-- `_MAX_COUNT`, 2^53 - 1.
abbrev pub max_count : ℕ
max_count = 9007199254740991

-- `str | Commits`: an eager stream's name, or the lineage's own clock.
pub data Counted : Type 0 where
  stream : String → Counted
  commits : Counted

-- The first `n` of `x`.
pub record Target : Type 0 where
  pub x : Counted
  pub n : ℕ

-- What `__post_init__` admits.
abbrev pub names_stream : Counted → Bool
names_stream (stream s) = not (str_eq s "")
names_stream commits = true

abbrev pub keep_target : Counted → ℕ → Option Target
keep_target x n =
    if not (names_stream x)
    then none
    else if leb n max_count
    then some (record { x = x; n = n })
    else none

module _ {F : Type 0} where
  -- `Target(x, n)`; `none` is its `ValueError`.
  unfoldable pub make_target : Counted → Json F → Option Target
  make_target x (int (pos n)) = keep_target x n
  make_target x _ = none

  unfoldable pub atom : Target → Fields F
  atom t = elim t.x [
    | commits ↦ field "commits" (int (pos t.n)) end
    | stream s ↦ field "stream" (str s) (field "n" (int (pos t.n)) end)
  ]

  abbrev pub make_stream : Option (Json F) → Json F → Option Target
  make_stream (some (str s)) n = make_target (stream s) n
  make_stream _ n = none

  abbrev pub make_of : Counted → Option (Json F) → Option Target
  make_of x none = none
  make_of x (some n) = make_target x n

  abbrev pub stream_of : Option (Json F) → Option (Json F) → Option Target
  stream_of x none = none
  stream_of x (some n) = make_stream x n

  -- `Target.from_atom`: exactly one of the two shapes.
  unfoldable pub from_atom : Fields F → Option Target
  unfolding has_key only_keys make_target
  from_atom body =
      if has_key "commits" body && only_keys ("commits" ∷ []) body
      then make_of commits (get "commits" body)
      else if has_key "stream" body && has_key "n" body && only_keys ("stream" ∷ "n" ∷ []) body
      then stream_of (get "stream" body) (get "n" body)
      else none
