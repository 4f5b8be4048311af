-- ===== src/Channel/Topics.antt =====
-- `_topic_match` of runstate/channel/memory.py, over the code points of a topic.
use Prim.Native.Char.{code}
use Prim.Native.String.{String}
use mathlib.Core.Option
use runstate.Prelude.{
  ℕ, Option, none, some, List, [], ◌∷◌, ◌++◌, Bool, true, false, ◌&&◌, ◌≡◌, refl, ◌==◌, str_eq,
  arith, if◌then◌else◌, and_left, and_right,
}

abbrev pub codes : String → List ℕ
codes String.[] = []
codes (String.◌∷◌ c s) = code c ∷ codes s

-- `topic.startswith(prefix)`, the prefix first.
unfoldable pub starts_with : List ℕ → List ℕ → Bool
starts_with [] cs = true
starts_with (x ∷ p) [] = false
starts_with (x ∷ p) (c ∷ cs) = x == c && starts_with p cs

-- `p[:-1]` when `p.endswith(".>")`.
unfoldable pub wildcard : List ℕ → Option (List ℕ)
wildcard [] = none
wildcard (a ∷ []) = none
wildcard (a ∷ b ∷ []) = if a == b'.' && b == b'>' then some (a ∷ []) else none
wildcard (a ∷ b ∷ c ∷ cs) = Option.map (λ p. a ∷ p) (wildcard (b ∷ c ∷ cs))

unfoldable pub matches : String → String → Bool
unfolding starts_with wildcard
matches topic p = elim (wildcard (codes p)) [
  | some prefix ↦ starts_with prefix (codes topic)
  | none ↦ str_eq topic p
]

unfoldable pub topic_match : String → List String → Bool
unfolding matches
topic_match topic [] = false
topic_match topic (p ∷ ps) = if matches topic p then true else topic_match topic ps

starts_with-append : (p cs : List ℕ) → starts_with p (p ++ cs) ≡ true
unfolding starts_with
starts_with-append [] cs = refl
starts_with-append (x ∷ p) cs = ground (arith, starts_with-append p cs)

-- A prefix is exactly a front part.
pub starts_with→append :
    (p cs : List ℕ) → starts_with p cs ≡ true → (rest : List ℕ) × (cs ≡ p ++ rest)
unfolding starts_with
starts_with→append [] cs h = (cs, refl)
starts_with→append (x ∷ p) [] h = ground arith
starts_with→append (x ∷ p) (c ∷ cs) h =
    let r = starts_with→append p cs (and_right (x == c) _ h) in
    (r.0, ground (arith, r.1, and_left (x == c) _ h))

topic_runs :
    (topic_match "control.stop" ("value" ∷ "control.>" ∷ []) ≡ true)
    × (topic_match "controls" ("control.>" ∷ []) ≡ false)
    × (topic_match "value" ("value" ∷ []) ≡ true)
unfolding topic_match
topic_runs = (refl, refl, refl)
