-- ===== src/Walk/Node/Reference.antt =====
-- The checks of a node of runstate/walk.py, over a state that the lookup of nodes may change.
use runstate.Prelude.{
  ℕ, String, Bool, true, false, Option, none, some, List, [], ◌∷◌, leb, if◌then◌else◌, filter,
  Result, ok, err,
}
use runstate.Channel.{Envelope}
use runstate.Vocabulary.Payloads.Lifecycle.{committed, parent}
use runstate.Walk.Node.{
  NodeKind, extendable_node, WalkError, malformed, at_or_above, names_no_node, names_kind,
  values_above, At,
}

-- A read that may raise, and moves a reader's state.
abbrev pub Reader : Type 0 → Type 0 → Type 0
Reader S A = S → Result WalkError A × S

module _ {S A : Type 0} where
  abbrev pub pure : A → Reader S A
  pure a s = (ok a, s)

  abbrev pub raise : WalkError → Reader S A
  raise x s = (err x, s)

module _ {S A B : Type 0} where
  abbrev pub continue : Result WalkError A → (A → Reader S B) → Reader S B
  continue (ok a) f s = f a s
  continue (err x) f s = (err x, s)

  infixl 5 ◌>>=◌ ◌>>◌
  abbrev pub ◌>>=◌ : Reader S A → (A → Reader S B) → Reader S B
  ◌>>=◌ m f s = continue (m s).0 f (m s).1

  abbrev pub ◌>>◌ : Reader S A → Reader S B → Reader S B
  m >> k = m >>= λ _. k

-- `KindOf`: the kind of the node at a seq, `none` where no node is.
abbrev pub KindOf : Type 0 → Type 0
KindOf S = ℕ → Reader S (Option NodeKind)

abbrev pub is_nil : List ℕ → Bool
is_nil [] = true
is_nil (x ∷ xs) = false

module _ {F S : Type 0} where
  -- The branches of `check_reference` on the kind found.
  unfoldable pub judge : Envelope F → String → ℕ → Option NodeKind → Reader S (Unit {0})
  judge e name target none = raise (malformed e.seq e.topic (names_no_node name target))
  judge e name target (some extendable_node) = pure tt
  judge e name target (some k) = raise (malformed e.seq e.topic (names_kind name target k))

  unfoldable pub check_reference : Envelope F → String → ℕ → KindOf S → Reader S (Unit {0})
  check_reference e name target kind_of =
      if leb e.seq target
      then raise (malformed e.seq e.topic (at_or_above name target))
      else (kind_of target >>= judge e name target)

  unfoldable pub check_parent : Envelope F → Option ℕ → KindOf S → Reader S (Unit {0})
  check_parent e none kind_of = pure tt
  check_parent e (some target) kind_of = check_reference e "parent" target kind_of

  unfoldable pub check_node : At F → KindOf S → Reader S (Unit {0})
  unfolding check_parent committed parent
  check_node at kind_of =
      let later = filter (λ s. leb at.env.seq s) (committed at.node) in
      if is_nil later
      then check_parent at.env (parent at.node) kind_of
      else raise (malformed at.env.seq at.env.topic (values_above later))
