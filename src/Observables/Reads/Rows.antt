-- ===== src/Observables/Reads/Rows.antt =====
-- The reads of runstate/observables.py over the nodes of a lineage: `aligned`, `answers` and `streams`.
use runstate.Prelude.{
  ℕ, ◌+◌, String, Bool, true, false, Option, none, some, List, [], ◌∷◌, ◌++◌, map, str_eq, ◌==◌,
  if◌then◌else◌, length, str_mem, Result, ◌>>=◌, ok, err,
}
use runstate.Json.{Number}
use runstate.Channel.{Envelope}
use runstate.Channel.Interface.{Channel}
use runstate.Vocabulary.Topic
use runstate.Vocabulary.Coordinate.{Counted, stream, commits}
use runstate.Vocabulary.Payloads.Lifecycle.{committed, iterations, fired}
use runstate.Walk.Node.{
  WalkError, malformed, value_error, not_zipped, unsubscribed, not_one_sample, At,
}
use runstate.Walk.Lineage.{Walked, walk}
use runstate.Walk.Membership.{Element, Classified, members, value_record, classified}
use runstate.Observables.Tail.{pass}
use runstate.Observables.Reads.{HeadStrategy, resolve, read_element}

-- The dict `cells`: per name its elements at one node.
abbrev pub Cells : Type 0 → Type 0
Cells F = List (String × List (Element F))

pub record AlignedRow (F : Type 0) : Type 0 where
  pub x : ℕ
  pub node : ℕ
  pub cells : Cells F

-- `per`, summed up to each node.
unfoldable pub running : ℕ → List ℕ → List ℕ
running total [] = []
running total (n ∷ ns) = (total + n) ∷ running (total + n) ns

-- The dict `at_node` of `_axis`.
unfoldable pub bump : ℕ → List (ℕ × ℕ) → List (ℕ × ℕ)
bump k [] = (k, 1) ∷ []
bump k ((j, n) ∷ rest) =
    let others = bump k rest in if j == k then (j, n + 1) ∷ rest else (j, n) ∷ others

unfoldable pub tally_at : ℕ → List (ℕ × ℕ) → ℕ
tally_at k [] = 0
tally_at k ((j, n) ∷ rest) = let other = tally_at k rest in if j == k then n else other

-- Two sets of names.
pub record Streams : Type 0 where
  pub eager : List String
  pub sources : List String

abbrev pub add_once : String → List String → List String
add_once n ns = if str_mem n ns then ns else ns ++ (n ∷ [])

abbrev pub same_request : String → Option String → Bool
same_request r none = false
same_request r (some q) = str_eq q r

module _ {F : Type 0} where
  abbrev pub tally : List (At F × ℕ) → List (ℕ × ℕ) → List (ℕ × ℕ)
  tally [] counts = counts
  tally ((at, s) ∷ ms) counts = tally ms (bump at.env.seq counts)

  -- `{n: [] for n in names}`: a name that comes again is the same key.
  unfoldable pub new_cells : List String → List String → Cells F
  new_cells seen [] = []
  new_cells seen (n ∷ ns) =
      let others = new_cells (n ∷ seen) ns in if str_mem n seen then others else (n, []) ∷ others

  -- `cells[name].append(…)`.
  unfoldable pub add_cell : String → Element F → Cells F → Cells F
  add_cell k x [] = []
  add_cell k x ((n, xs) ∷ rest) =
      let others = add_cell k x rest in
      if str_eq n k then (n, xs ++ (x ∷ [])) ∷ rest else (n, xs) ∷ others

  abbrev pub has_cell : Cells F → Bool
  has_cell [] = false
  has_cell ((n, []) ∷ rest) = has_cell rest
  has_cell ((n, x ∷ xs) ∷ rest) = true

  abbrev pub add_streams : List (Classified F) → Streams → Streams
  add_streams [] st = st
  add_streams (c ∷ cs) st = add_streams cs (
      if c.is_source
      then record st { sources = add_once c.name st.sources }
      else record st { eager = add_once c.name st.eager })

  -- The first record of the request.
  unfoldable pub target_in : String → List (Envelope F) → Option String
  target_in r [] = none
  target_in r (e ∷ es) =
      let rest = target_in r es in if same_request r e.request_id then e.name else rest

  -- `_subscription_target`.
  unfoldable pub subscription_target : Channel F → String → ℕ → Option String
  unfolding pass target_in
  subscription_target ch r w =
      if w == 0 then none else target_in r (pass ch w (Topic.control_subscribe ∷ []))

  -- `[s for s in at.node.committed if value_record(walked, at, s).name == target]`.
  unfoldable pub samples : Walked F → At F → String → List ℕ → Result WalkError (List ℕ)
  unfolding value_record
  samples w at target [] = ok []
  samples w at target (s ∷ rest) = do
    e ← value_record w at s
    others ← samples w at target rest
    ok (if same_request target e.name then s ∷ others else others)

module _ {F : Type 0} ⦃num : Number F⦄ where
  abbrev pub counts_at : List (At F) → List (ℕ × ℕ) → List ℕ
  counts_at nodes counts = map (λ at. tally_at at.env.seq counts) nodes

  -- `_axis`.
  unfoldable pub axis : Walked F → Counted → Result WalkError (List ℕ)
  unfolding members running iterations
  axis w commits = ok (running 0 (map (λ at. iterations at.node) w.nodes))
  axis w (stream s) = do ms ← members w s; ok (running 0 (counts_at w.nodes (tally ms [])))

  abbrev pub fill_one :
      Walked F → List String → At F → ℕ → Cells F → Option String → Result WalkError (Cells F)
  fill_one w names at s cells none = ok cells
  fill_one w names at s cells (some n) =
      if str_mem n names then (do x ← read_element w at s; ok (add_cell n x cells)) else ok cells

  -- The loop of `aligned` over one node's values.
  unfoldable pub fill_cells :
      Walked F → List String → At F → List ℕ → Cells F → Result WalkError (Cells F)
  unfolding value_record read_element add_cell
  fill_cells w names at [] cells = ok cells
  fill_cells w names at (s ∷ rest) cells = do
    e ← value_record w at s
    cells' ← fill_one w names at s cells e.name
    fill_cells w names at rest cells'

  abbrev pub row_if : ℕ → At F → Cells F → List (AlignedRow F) → List (AlignedRow F)
  row_if x at cells rest =
      if has_cell cells then record { x = x; node = at.env.seq; cells = cells } ∷ rest else rest

  -- Its loop over `zip(walked.nodes, …, strict=True)`.
  unfoldable pub rows :
      Walked F → List String → List (At F) → List ℕ → Result WalkError (List (AlignedRow F))
  unfolding fill_cells new_cells committed
  rows w names [] [] = ok []
  rows w names (at ∷ ats) (x ∷ xs) = do
    cells ← fill_cells w names at (committed at.node) (new_cells [] names)
    rest ← rows w names ats xs
    ok (row_if x at cells rest)
  rows w names _ _ = err (value_error not_zipped)

  unfoldable pub aligned :
      Channel F → List String → HeadStrategy → Counted → Result WalkError (List (AlignedRow F))
  unfolding resolve walk axis rows
  aligned ch names hs x = do
    h ← resolve hs ch
    w ← walk ch h.node
    xs ← axis w x
    rows w names w.nodes xs

  abbrev pub one_sample : Walked F → At F → String → String → List ℕ → Result WalkError (Element F)
  one_sample w at r target (s ∷ []) = read_element w at s
  one_sample w at r target ss =
      err (malformed at.env.seq at.env.topic (not_one_sample r target (length ss)))

  abbrev pub answer : Walked F → At F → String → Option String → Result WalkError (Element F)
  answer w at r none = err (malformed at.env.seq at.env.topic (unsubscribed r))
  answer w at r (some target) = do
    ss ← samples w at target (committed at.node)
    one_sample w at r target ss

  -- The loop of `answers` over the nodes.
  unfoldable pub answers_in :
      Walked F → String → Option String → List (At F) → Result WalkError (List (Element F))
  unfolding samples read_element committed fired
  answers_in w r target [] = ok []
  answers_in w r target (at ∷ rest) =
      if str_mem r (fired at.node)
      then (do x ← answer w at r target; xs ← answers_in w r target rest; ok (x ∷ xs))
      else answers_in w r target rest

  unfoldable pub answers : Channel F → String → HeadStrategy → Result WalkError (List (Element F))
  unfolding resolve walk subscription_target answers_in
  answers ch r hs = do
    h ← resolve hs ch
    w ← walk ch h.node
    answers_in w r (subscription_target ch r h.w) w.nodes

  unfoldable pub streams : Channel F → HeadStrategy → Result WalkError Streams
  unfolding resolve walk classified
  streams ch hs = do
    h ← resolve hs ch
    w ← walk ch h.node
    cs ← classified w (λ n. true)
    ok (add_streams cs (record { eager = []; sources = [] }))
