-- ===== src/Observables/Reads/Answers.antt =====
-- `answers` of runstate/observables.py, and the axis of its rows.
use runstate.Prelude.{
  ℕ, suc, ◌+◌, String, ◌≡◌, refl, sym, ap, ◌∙◌, inl, inr, Bool, Option, none, some, List, [], ◌∷◌,
  map, arith, Bool-cases, Option-cases, length, filter, str_mem, length-map, Result-cases, ok,
}
use runstate.Json.{Number}
use runstate.Channel.Interface.{Channel}
use runstate.Vocabulary.Coordinate.{Counted, stream, commits}
use runstate.Vocabulary.Payloads.Lifecycle.{committed, iterations, fired, parse_value}
use runstate.Walk.Node.{At, verdict_parse}
use runstate.Walk.Backward.{find_record}
use runstate.Walk.Lineage.{Walked, walk}
use runstate.Walk.Membership.{Element, element, members}
use runstate.Observables.Head.{Head}
use runstate.Observables.Reads.{HeadStrategy, resolve, read_element}
use runstate.Observables.Reads.Rows.{
  running, axis, counts_at, tally, tally_at, answer, samples, answers_in, answers,
  subscription_target,
}

length-running : (total : ℕ) (ns : List ℕ) → length (running total ns) ≡ length ns
unfolding running
length-running total [] = refl
length-running total (n ∷ ns) = ap suc (length-running (total + n) ns)

module _ {F : Type 0} ⦃num : Number F⦄ where
  -- The axis has a count for each node, so the strict `zip` of `aligned` never raises.
  pub length-axis :
      (w : Walked F) (x : Counted) (xs : List ℕ) → axis w x ≡ ok xs → length xs ≡ length w.nodes
  unfolding axis
  length-axis w commits xs h =
      let same : running 0 (map (λ at. iterations at.node) w.nodes) ≡ xs = ground (arith, h) in
      rw (← same) (length-running 0 _ ∙ length-map (λ at. iterations at.node) w.nodes)
  length-axis w (stream s) xs h = elim (Result-cases (members w s)) [
    | inr (y, e) ↦ absurd (ground (arith, h, e))
    | inl (ms, e) ↦
        let same : running 0 (counts_at w.nodes (tally ms [])) ≡ xs = ground (arith, h, e) in
        rw (← same) (
          length-running 0 (counts_at w.nodes (tally ms []))
          ∙ length-map (λ at. tally_at at.env.seq (tally ms [])) w.nodes)
  ]

  node-read_element :
      (w : Walked F) (at : At F) (s : ℕ) (x : Element F)
      → read_element w at s ≡ ok x
      → x.node ≡ at.env.seq
  unfolding read_element element
  node-read_element w at s x h = elim (Option-cases (find_record s w.records)) [
    | inl f ↦ absurd (ground (arith, h, f))
    | inr (e, f) ↦ elim (Result-cases (verdict_parse parse_value e)) [
      | inr (y, v) ↦ absurd (ground (arith, h, f, v))
      | inl (b, v) ↦ ground (arith, h, f, v)
    ]
  ]

  node-answer :
      (w : Walked F) (at : At F) (r : String) (target : Option String) (x : Element F)
      → answer w at r target ≡ ok x
      → x.node ≡ at.env.seq
  node-answer w at r none x h = absurd (ground (arith, h))
  node-answer w at r (some t) x h = elim (Result-cases (samples w at t (committed at.node))) [
    | inr (y, e) ↦ absurd (ground (arith, h, e))
    | inl ([], e) ↦ absurd (ground (arith, h, e))
    | inl (s ∷ [], e) ↦ node-read_element w at s x (ground (arith, h, e))
    | inl (s ∷ s' ∷ ss, e) ↦ absurd (ground (arith, h, e))
  ]

  abbrev pub fires : String → At F → Bool
  fires r at = str_mem r (fired at.node)

  -- The nodes of the answers.
  nodes-answers_in :
      (w : Walked F) (r : String) (target : Option String) (nodes : List (At F))
      (xs : List (Element F))
      → answers_in w r target nodes ≡ ok xs
      → map (λ x. x.node) xs ≡ map (λ at. at.env.seq) (filter (fires r) nodes)
  unfolding answers_in
  nodes-answers_in w r target [] xs h = let same : [] ≡ xs = ground (arith, h) in rw (← same) refl
  nodes-answers_in w r target (at ∷ nodes) xs h = elim (Bool-cases (fires r at)) [
    | inr f ↦ rw f (nodes-answers_in w r target nodes xs (ground (arith, h, f)))
    | inl t ↦ elim (Result-cases (answer w at r target)) [
      | inr (y, e) ↦ absurd (ground (arith, h, t, e))
      | inl (x, e) ↦ elim (Result-cases (answers_in w r target nodes)) [
        | inr (y, e') ↦ absurd (ground (arith, h, t, e, e'))
        | inl (ys, e') ↦
            let same : x ∷ ys ≡ xs = ground (arith, h, t, e, e') in
            rw (t, ← same, node-answer w at r target x e, nodes-answers_in w r target nodes ys e')
              refl
      ]
    ]
  ]

  -- Where the answers read, there is one for each node of the lineage that fires the request, in
  -- lineage order.
  pub answers-firings :
      (ch : Channel F) (r : String) (hs : HeadStrategy) (h : Head) (w : Walked F)
      (xs : List (Element F))
      → resolve hs ch ≡ ok h
      → walk ch h.node ≡ ok w
      → answers ch r hs ≡ ok xs
      → map (λ x. x.node) xs ≡ map (λ at. at.env.seq) (filter (fires r) w.nodes)
  unfolding answers
  answers-firings ch r hs h w xs e k a =
      let opened : answers ch r hs ≡ answers_in w r (subscription_target ch r h.w) w.nodes =
        rw (e, k) refl in
      nodes-answers_in w r (subscription_target ch r h.w) w.nodes xs (sym opened ∙ a)
