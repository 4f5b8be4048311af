-- ===== src/Walk/Lineage.antt =====
-- `walk` of runstate/walk.py: the checked lineage of a node, with the records that a read may
-- resolve.
pub mod Nodes
pub mod Loaded
use runstate.Prelude.{
  ℕ, Option, none, some, List, [], ◌∷◌, ltb, if◌then◌else◌, nat_mem, Result, ok, err,
}
use runstate.Json.{Number}
use runstate.Channel.{Envelope}
use runstate.Channel.Interface.{Channel}
use runstate.Vocabulary.Payloads.Lifecycle.{committed, claim_of}
use runstate.Walk.Node.{WalkError, malformed, committed_twice, At}
use runstate.Walk.Node.Reference.{Reader, pure, ◌>>=◌, ◌>>◌}
use runstate.Walk.Backward.{Backward, start, get}
use runstate.Walk.Chain.{chain, nodes_in}

pub record Walked (F : Type 0) : Type 0 where
  pub records : List (ℕ × Envelope F)
  pub nodes : List (At F)

module _ {F : Type 0} where
  -- The loop over one node's values; `seen` holds the seqs committed so far.
  unfoldable pub load_values : Channel F → ℕ → At F → List ℕ → List ℕ → Reader (Backward F) (List ℕ)
  load_values ch hi at [] seen b = (ok seen, b)
  load_values ch hi at (s ∷ rest) seen b =
      if nat_mem s seen
      then (err (malformed at.env.seq at.env.topic (committed_twice s)), b)
      else load_values ch hi at rest (s ∷ seen) (get ch hi s b).1

  -- Its claim's record, where that lies below the node.
  unfoldable pub load_claim : Channel F → ℕ → At F → Backward F → Backward F
  load_claim ch hi at b =
      if ltb (claim_of at.node) at.env.seq then (get ch hi (claim_of at.node) b).1 else b

  unfoldable pub load_nodes : Channel F → ℕ → List (At F) → List ℕ → Reader (Backward F) (List ℕ)
  unfolding load_values load_claim
  load_nodes ch hi [] seen b = (ok seen, b)
  load_nodes ch hi (at ∷ rest) seen b =
      (load_values ch hi at (committed at.node) seen >>= λ seen' b'.
      load_nodes ch hi rest seen' (load_claim ch hi at b'))
        b

module _ {F : Type 0} ⦃num : Number F⦄ where
  -- The walk of a node, over the state of `Backward`; the records are what it holds at the end.
  unfoldable pub walk_from : Channel F → ℕ → Reader (Backward F) (List (At F))
  unfolding load_nodes chain nodes_in
  walk_from ch node = do
    nodes ← chain node (nodes_in (get ch node)) none
    load_nodes ch node nodes []
    pure nodes

  abbrev pub walked_of : Result WalkError (List (At F)) × Backward F → Result WalkError (Walked F)
  walked_of (ok nodes, b) = ok (record { records = b.records; nodes = nodes })
  walked_of (err x, b) = err x

  -- `walk(ch, node)`; a node of `None` is the empty lineage.
  unfoldable pub walk : Channel F → Option ℕ → Result WalkError (Walked F)
  unfolding walk_from start
  walk ch none = ok (record { records = []; nodes = [] })
  walk ch (some node) = walked_of (walk_from ch node (start node))
