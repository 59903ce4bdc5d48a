-- ===== src/Lib.antt =====
-- A model of the core of the Frontier Reasoning Engine, the Python package under src/fre: the event
-- store and the engine over it, the part of the event reducer that replays budgets, the budget of a
-- run, the task classifier that sizes it, the accounting of model calls, the epistemic ledger, the
-- graph traversal they share with other modules, context deltas, and the stop controller.
--
-- The engine keeps a run as a log of events in the store. `RunReducer` folds the log into a state; its
-- budget branches call the allocator and the meter, its ledger branches the ledger. The engine checks
-- a batch of events and previews it with the reducer before it stores it. The classifier's batch
-- allocates and revises the budget, the semantic runtime's reserves and settles it. The stop
-- controller reads what the meter reports as left.
--
-- Files and what they model:
--   Budget/Types        src/fre/domain/budget.py
--   Budget/Meter, Burn  src/fre/runtime/budget_meter.py (`BudgetMeter`; Burn has `burn_rate`)
--   Budget/Allocator    src/fre/modules/m02_budget.py (`BudgetAllocator`, `default_tier_policy`)
--   Graph               src/fre/domain/graph.py (`depth_first_traverse`)
--   Ledger/Types        src/fre/domain/ledger.py
--   Ledger/Nodes, Edges, Status, Contradictions, Search
--                       src/fre/modules/m09_ledger.py (`EpistemicLedger`, method by method)
--   Stop/Types          src/fre/domain/stop.py
--   Stop/Controller     src/fre/modules/m13_stop.py (`StopController.evaluate`)
--   Settlement          `validate_semantic_reservation_admission` of src/fre/runtime/reducer.py
--   Reducer             the budget and model-call branches of `RunReducer.apply`, `reduce`, of the same
--                       file; Semantic/Guards has the guards on model calls
--   Reducer/LedgerEvents, Staleness
--                       the branches of the same method that change edges and statuses
--   Store               src/fre/adapters/storage_sqlite/store.py (`SQLiteStore`); Store/Snapshots has
--                       its snapshots, Store/Fold what it uses of a reducer
--   Engine              src/fre/engine.py (`FrontierReasoningEngine`)
--   Engine/Runtime      the engine's reducer and admission check, from Reducer and Settlement
--   Classifier          src/fre/modules/m01_classifier.py, the policy, the floors and their helpers
--   Classifier/Dimensions, Stages, Classify, Canonical
--                       the same file: `classify` in steps, `bootstrap_signature`, `canonical_events`
--   Classifier/Record   `ClassificationRecord` of src/fre/domain/task.py
--   Semantic            src/fre/semantic_runtime.py (the accounting and the batch of `_invoke`) and the records of
--                       src/fre/domain/semantic.py; Semantic/Accounting is the validator there
--   Context             `generate_delta` and `apply_delta` of src/fre/modules/m12_context.py
--   Prelude             shared: results of calls that may raise, lists, sorting, sums, dictionaries
--   Tests               runs on concrete inputs
-- The other files hold lemmas and theorems on the file that they stand beside.
--
-- Correspondence. A frozen pydantic model is a record, an enum a data type, a method that returns a
-- copy of its argument with an update a function that returns the record with these fields replaced,
-- and an exception the `err` of a `Result`; the messages of exceptions are not modelled where a class
-- or a constructor tells them apart. A dictionary is an association list or a function, a set a list.
-- Every integer of the code is non-negative by its contract and unbounded, so it is a natural.
-- Identifiers, UUIDs and hashes are numbers in the order of their texts, as the code only compares
-- and sorts them.
--
-- Parameters. `canonical_hash` and the other hashes of canonical JSON are functions that the
-- operations take; nothing is assumed of them. `F` is the type of floats, with the operations that the
-- code calls in `FloatOps`; only the theorem on estimates assumes anything, that the order is
-- transitive, which IEEE comparison is. `J` is the type of JSON values, which the ledger only stores.
-- SQLite is the tables with their keys: an insert that breaks a key raises, a transaction that raises
-- changes nothing, a query returns the rows that its condition says in the order that it says. The
-- store and the engine are over any reducer (`Store.Fold.Reducer`); Engine/Budgets takes the one of
-- this library, which meets the laws. A snapshot's JSON, its hash and `model_validate` are a `Codec`:
-- that `model_validate` restores a state is a hypothesis where it is used, as the snapshot leaves out
-- `pending_semantic_settlements`. A context packet is a `PacketModel`, with Python's equality of JSON
-- values, which is not identity, as a function. A reducer is given the hash and a test of stored
-- proposals against their schemas (`Reducer.RunReducer`), and `model_validate_json` returns the digest
-- of a proposal or raises its diagnostics. The classifier takes the validation of anchors, `str.strip`
-- and the normalisation of a text as functions; a time stamp without a zone does not occur in it.
--
-- Fuel. The nested `visit` of the traversal recurs on fuel, one more than the number of keys: each
-- level of the recursion puts another key among those being visited, so this is never used up. Python's
-- own recursion limit is not modelled. The searches of the ledger have one round for each item that is
-- put on the queue at first and for each item in the dictionary: the items of a key go on the queue
-- once, and a round takes one off, so the rounds suffice.
--
-- Not modelled: `revise_node` of the ledger, the other branches of the reducer, the validation of
-- source anchors, the formaliser, the representations, the compilation of context packets, the prompts,
-- repair, reuse and recovery of the semantic runtime, and the composition of these; the clock, fresh
-- identifiers, artifacts, prompts and scripts, which are input and output or fixed texts.
pub mod Budget
pub mod Classifier
pub mod Context
pub mod Engine
pub mod Graph
pub mod Ledger
pub mod Prelude
pub mod Reducer
pub mod Semantic
pub mod Settlement
pub mod Stop
pub mod Store
pub mod Tests
