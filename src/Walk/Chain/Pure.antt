-- ===== src/Walk/Chain/Pure.antt =====
-- `chain` of runstate/walk.py: the state of its lookup, and what the lookup answers.
use runstate.Prelude.{
  ℕ, zero, suc, String, ◌≡◌, refl, subst, inl, inr, Option, none, some, List, [], ◌∷◌, leb,
  Bool-cases, filter, Result, ok, err,
}
use runstate.Channel.{Envelope}
use runstate.Walk.Node.{WalkError, At, NodeKind, extendable_node}
use runstate.Walk.Node.Reference.{
  Reader, judge, check_reference, check_node, check_parent, is_nil, continue, ◌>>=◌,
}
use runstate.Walk.Chain.{NodeAt, kind_of, next, go_on, follow, chain_loop, from_head, chain}
use runstate.Vocabulary.Payloads.Lifecycle.{committed, parent}

-- The lookup with no state that answers `f`.
abbrev pub plain : {F : Type 0} → (ℕ → Result WalkError (Option (At F))) → NodeAt F (Unit {0})
plain f k s = (f k, s)

module _ {F S : Type 0} (I : S → Type 0) (f : ℕ → Result WalkError (Option (At F)))
    (node_of : NodeAt F S)
    (answers : (k : ℕ) (s : S) → I s → ((node_of k s).0 ≡ f k) × I (node_of k s).1) where
  -- A reader and the plain one answer alike, and the state stays well-formed.
  abbrev pub Agrees : {A : Type 0} → Reader S A → Reader (Unit {0}) A → Type 0
  Agrees m n = (s : S) → I s → ((m s).0 ≡ (n tt).0) × I (m s).1

  continue-Agrees :
      {A B : Type 0} (r : Result WalkError A) (g : A → Reader S B) (h : A → Reader (Unit {0}) B)
      → ((a : A) → Agrees (g a) (h a))
      → (s : S) → I s
      → ((continue r g s).0 ≡ (continue r h tt).0) × I (continue r g s).1
  continue-Agrees (ok a) g h q s i = q a s i
  continue-Agrees (err x) g h q s i = (refl, i)

  bind-Agrees :
      {A B : Type 0} (m : Reader S A) (n : Reader (Unit {0}) A) (g : A → Reader S B)
      (h : A → Reader (Unit {0}) B)
      → Agrees m n
      → ((a : A) → Agrees (g a) (h a))
      → Agrees (m >>= g) (n >>= h)
  bind-Agrees m n g h p q s i =
      subst
        (λ r.
          ((continue (m s).0 g (m s).1).0 ≡ (continue r h tt).0) × I (continue (m s).0 g (m s).1).1)
        (p s i).0 (continue-Agrees (m s).0 g h q (m s).1 (p s i).1)

  kind_of-Agrees : (k : ℕ) → Agrees (kind_of node_of k) (kind_of (plain f) k)
  unfolding kind_of
  kind_of-Agrees k = bind-Agrees (node_of k) (plain f k) _ _ (answers k) (λ a s i. (refl, i))

  judge-Agrees :
      (e : Envelope F) (name : String) (target : ℕ) (k : Option NodeKind)
      → Agrees (judge e name target k) (judge e name target k)
  unfolding judge
  judge-Agrees e name target none s i = (refl, i)
  judge-Agrees e name target (some extendable_node) s i = (refl, i)
  judge-Agrees e name target (some _) s i = (refl, i)

  check_reference-Agrees :
      (e : Envelope F) (name : String) (target : ℕ)
      → Agrees
          (check_reference e name target (kind_of node_of))
          (check_reference e name target (kind_of (plain f)))
  unfolding check_reference
  check_reference-Agrees e name target s i = elim (Bool-cases (leb e.seq target)) [
    | inl above ↦ rw above (refl, i)
    | inr below ↦ rw below (
        bind-Agrees (kind_of node_of target) (kind_of (plain f) target) _ _ (kind_of-Agrees target)
          (judge-Agrees e name target) s i)
  ]

  check_parent-Agrees :
      (e : Envelope F) (p : Option ℕ)
      → Agrees (check_parent e p (kind_of node_of)) (check_parent e p (kind_of (plain f)))
  unfolding check_parent
  check_parent-Agrees e none s i = (refl, i)
  check_parent-Agrees e (some p) s i = check_reference-Agrees e "parent" p s i

  check_node-Agrees :
      (at : At F) → Agrees (check_node at (kind_of node_of)) (check_node at (kind_of (plain f)))
  unfolding check_node
  check_node-Agrees at s i =
      elim (Bool-cases (is_nil (filter (λ v. leb at.env.seq v) (committed at.node)))) [
        | inl fine ↦ rw (fine, check_node) (check_parent-Agrees at.env (parent at.node) s i)
        | inr later ↦ rw (later, check_node) (refl, i)
      ]

  go_on-Agrees :
      (g : At F → Reader S (List (At F))) (h : At F → Reader (Unit {0}) (List (At F)))
      (found : Option (At F))
      → ((a : At F) → Agrees (g a) (h a))
      → Agrees (go_on g found) (go_on h found)
  unfolding go_on
  go_on-Agrees g h none q s i = (refl, i)
  go_on-Agrees g h (some above) q s i = q above s i

  follow-Agrees :
      (g : At F → Reader S (List (At F))) (h : At F → Reader (Unit {0}) (List (At F)))
      (out : List (At F)) (p : Option ℕ)
      → ((a : At F) → Agrees (g a) (h a))
      → Agrees (follow node_of g out p) (follow (plain f) h out p)
  unfolding follow
  follow-Agrees g h out none q s i = (refl, i)
  follow-Agrees g h out (some p) q s i =
      bind-Agrees (node_of p) (plain f p) (go_on g) (go_on h) (answers p)
        (λ found. go_on-Agrees g h found q) s i

  chain_loop-Agrees :
      (fuel : ℕ) (stop_at : Option ℕ) (at : At F) (out : List (At F))
      → Agrees (chain_loop fuel node_of stop_at at out) (chain_loop fuel (plain f) stop_at at out)
  unfolding chain_loop
  chain_loop-Agrees zero stop_at at out s i = (refl, i)
  chain_loop-Agrees (suc fuel) stop_at at out s i =
      bind-Agrees (check_node at (kind_of node_of)) (check_node at (kind_of (plain f))) _ _
        (check_node-Agrees at)
        (λ _.
          follow-Agrees _ _ out (next stop_at at)
            (λ above. chain_loop-Agrees fuel stop_at above (above ∷ out)))
        s i

  from_head-Agrees :
      (node : ℕ) (stop_at : Option ℕ) (head : Option (At F))
      → Agrees (from_head node node_of stop_at head) (from_head node (plain f) stop_at head)
  unfolding from_head
  from_head-Agrees node stop_at none s i = (refl, i)
  from_head-Agrees node stop_at (some head) s i =
      chain_loop-Agrees (suc node) stop_at head (head ∷ []) s i

  -- A chain read through a stateful lookup is the chain of what the lookup answers, and leaves the
  -- lookup's state well-formed.
  pub chain-Agrees :
      (node : ℕ) (stop_at : Option ℕ)
      → Agrees (chain node node_of stop_at) (chain node (plain f) stop_at)
  unfolding chain
  chain-Agrees node stop_at =
      bind-Agrees (node_of node) (plain f node) _ _ (answers node) (from_head-Agrees node stop_at)
