-- ===== src/Lib.antt =====
-- AttuneGraph: a store of assertions about the work on a thread, each with its sources, and the
-- queries on it. This library models the graph's data, the validation of assertions, the reference
-- store of src/in-memory-store.ts, whose methods it translates one by one, the query language, and
-- the parts that select from a graph: activation slices, witness paths and settlement ledgers.
--
-- Files:
-- - Common: what the sources use of the language. A string is a list of UTF-16 code units (Texts);
--   `Map` and `Set` are lists in insertion order (Maps, Sets); an exception is a result (Results);
--   `sort` is a stable insertion sort (Lists, with its laws in Order).
-- - Json: `JSON.stringify` of a string and `JSON.parse` of a literal; Print adds numbers, arrays,
--   objects and the length in UTF-8.
-- - Graph: src/types.ts, src/constants.ts and the keys of src/validation.ts. Instant reads canonical
--   ISO instants; epochs are counted from the year -280000, so that they are natural numbers.
-- - Validation: `normalizeGraphAssertion` and `normalizeGraphAssertionBatch`, with the rules on the
--   kinds of endpoints in Contract.
-- - Store: the class `InMemoryAttuneGraphDataStore`. State has its fields as a record, with the
--   private methods; Index the index maps; Append, Forget, Recorded and Verify the methods of these
--   names; Bisect the loop of the two binary searches. A method takes the store and gives the next
--   one. Invariant says when a store is well formed, and Reachable which stores a client can build.
-- - Traverse: the method `traverse`, the breadth-first walk with its budgets.
-- - Methods: `traverse`, `recorded` and `forget` with the normalization of their arguments, which
--   Validation.Plans models and Validation.Accepted describes.
-- - Witness: `findThreadRootedWitnessPath` of src/thread-rooted-witness-path.ts, a breadth-first
--   search for a path of assertions.
-- - Activation: src/activation-subgraph.ts. Conflicts has the order of the candidates and the
--   conflicts among them, Output builds an output with its estimate, and Activation selects.
-- - Decision: `normalizeDecisionQuery` of src/decision-query.ts.
-- - AttuneQl: src/attuneql.ts. Tokens has `tokenize`, and AttuneQl the parser, function by function;
--   Lexemes and QueryText give each query a text, for the round trip.
-- - Settlement: src/candidate-settlement-ledger.ts. Types has its interfaces, Settlement the
--   functions that settle, for any envelope of a ledger, Envelopes the bodies of ledgers and capacity
--   errors with their envelope of the code, and Admission the checks of an inventory in front,
--   which Admitted describes.
-- - Envelope: src/canonical-immutable-envelope.ts. Contract has its errors, limits and contracts,
--   Charges and Inspect the inspection of an input, which detaches a value from it, Encode the
--   writer of canonical JSON, and Envelope the digest and the sealing. Canonical describes the JSON
--   independently; the proofs go through Written (the writer), Charged to Root (what an inspection
--   that ends well tells), Again to Signed (an inspection that is bound to end well) to Laws.
-- - Session: src/local-session-internal.ts, the life of a session. Its closures become functions on
--   a record of their variables; Life has the events of a run, in which `close` may be called again
--   and again, Closing the end of one.
--
-- How they interact: `append` normalizes its batch (Validation), tests it against the fingerprints
-- (Graph.Fingerprint) and then enters each new assertion in the maps and indexes under its keys
-- (Graph.Keys). `forget` closes the ids of a scope under citations by the source index and takes
-- each one out of all maps and indexes. `verify` builds the indexes anew and compares.
-- `compileActivationSubgraph` normalizes a plan, has the store traverse it and selects from the
-- result; the traversal is a parameter there, so that it also stands for other stores.
-- `parseAttuneQL` has its query normalized by `normalizeDecisionQuery`. A settlement names and
-- measures its ledgers by their canonical envelope (Settlement.Envelopes calls Envelope), whose errors
-- it passes on. SHA-256 is a parameter of Envelope.
--
-- Parameters and bounds: `localeCompare` is a parameter, with the hypothesis that it is an order
-- (Common.Order.IsOrder) where a theorem needs it. The closure of `forget` runs on fuel: as many
-- rounds as the scope has ids and the store assertions, since each id is queued once. A binary
-- search has the length of its list as fuel. `traverse` has the seeds and the bound on visited nodes.
-- The witness search has a round for each step at each depth: a node is queued again only at a smaller
-- depth. The estimate of tokens is settled in the eight rounds of the source. The tokenizer goes
-- through its source unit by unit and needs no fuel. The inspection of an input follows the input;
-- a session takes its events one by one, in any order that is possible.
--
-- Not modelled: the envelope of a settlement's request, which gives the inventory its id, and the
-- second check of a settlement (`postResult`); of the canonical envelope the cycles
-- and aliases of objects, property descriptors that differ from those of their object, and the
-- freezing of the result with its check; what the engines and the database of a session do;
-- arguments that are not of their declared types (the checks on `unknown` values), the messages of
-- exceptions and `Object.freeze`; of the rest of the repository the answers to decision and
-- authority queries, revocation, the engine, the portable format, the SQLite store and the admin
-- tools.
pub mod Common
pub mod Json
pub mod Graph
pub mod Validation
pub mod Store
pub mod Traverse
pub mod Methods
pub mod Witness
pub mod Activation
pub mod Decision
pub mod AttuneQl
pub mod Settlement
pub mod Envelope
pub mod Session
