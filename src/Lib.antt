-- ===== src/Lib.antt =====
-- runstate: a run is an append-only log of records, and everything the program knows of a run it
-- folds from that log. This library models the log, the vocabulary of its records, the conditions of
-- subscriptions, the reads that check a lineage and find a claim's end, and the observer plane: how a
-- run ended, where it stands, what it has produced and what is asked of it.
--
-- The parts and how they interact:
--   - Channel (runstate/channel/envelope.py, runstate/channel/base.py): an `Envelope` is one record.
--     Channel/Interface is what a reader takes of the class `Channel`: the log at one moment, its
--     `read` and `latest`, and the promises of the base class on them. Channel/Windows is the capped read of a window that
--     runstate/walk.py and runstate/claims.py both make.
--   - Channel/Memory (runstate/channel/memory.py): `MemoryLog` and `MemoryChannel`, an operation for
--     each method; an operation that changes the log returns the new one. Channel/Topics is
--     `_topic_match`, over code points. Memory/Writers interleaves the appends of several handles.
--     Memory/Handle fills the interface.
--   - Json: the values that bodies hold. Python's `float` stays abstract: an instance `Number` has the
--     comparisons and the subtraction that the code calls, with their documented laws.
--   - Vocabulary/Topic, Outcome, Checks and Payloads (runstate/vocabulary/payloads.py): a record for
--     each body class; `parse_x` is the constructor `X(**body)` with the checks of its
--     `__post_init__`, in their order, and `x_dict` is `dataclasses.asdict` of it.
--   - Vocabulary/Coordinate (runstate/vocabulary/coordinate.py): the target atom.
--   - Vocabulary/Schedule (runstate/vocabulary/schedule.py): terms and their evaluation,
--     Subscription (`evaluate`, which returns the new state with its decision), Refusals
--     (`unsatisfiable`, `_corner`) and Parse (`parse_schedule`, `_parse_term`).
--   - Walk (runstate/walk.py): Node (the kinds and the structural checks), Backward (the lookup in
--     windows), Chain (`chain`, over any lookup of nodes), Lineage (`walk`) and Membership (`members`,
--     `coordinates`). A lookup is a function of a state, since `Backward.get` loads records; errors
--     are values of `WalkError`.
--   - Claims (runstate/claims.py): which record ends which claim, Claims/Search (searches back from a
--     seq) and Claims/Bindings (the class `Bindings`).
--   - Observables (runstate/observables.py). Tail is how the folds read: `_tail`, and one pass over the
--     log. Held is what the held folds share: a cursor and a state, moved past each record as it is
--     applied. Head is `Head`, `_ClaimHead` and `latest_claim_head`, and HeadFold the class of that
--     name, with Head/Fold and Head/Stands the lemmas on both. Verdict is `claim_verdict` and what
--     reads it, over Verdict/Tiers (`RunResult`, with the checks of its `__post_init__`). Reads is
--     `prefix_len`, `prefix`, `series` and `last_element` at a head, Reads/Rows `aligned`, `answers`
--     and `streams`. Stops is `_Stops`, `undischarged_stops` and `PendingStops`. Demand is `_Demand`,
--     and Demand/Lineage `_Descending`, `_head_lineage` and `live_demand`. Heartbeat is
--     `current_heartbeat`.
--   - Channel/Growth, Channel/Last and Channel/Windows/Split: a log that has grown, its last record
--     with a property, and windows cut in two, which the held folds' proofs use.
--   - Examples: a small run and small conditions, on which the theorems are applied.
--   - Prelude: the names, tests and lemmas that the parts share.
--
-- Fuel: the loop of `Backward.get` runs on what is not loaded yet, which each window lowers. The loop
-- of `chain` runs on its node's seq plus one, since a checked parent lies below its node. The loop of
-- `backward` and that of `current_heartbeat` run on their upper seq, which each window lowers.
--
-- Messages of exceptions are values of data types, not strings. Sets and dicts are lists, read by
-- their members alone. Not modelled: the SQL stores, processes, signals and files, the command
-- line, the migrations of old formats, the worker, the watcher, the launchers, the memoizer, the
-- copy of a lineage, and of runstate/observables.py `last_activity`, the folds by a held
-- head (`PrefixLen`, `LastElement`, `Answers`) and `LiveDemand`. A `frozenset` of outcomes is
-- the test of what is in it.
pub mod Prelude
pub mod Json
pub mod Channel
pub mod Vocabulary
pub mod Walk
pub mod Claims
pub mod Observables
pub mod Examples
