-- ===== src/Lib.antt =====
-- A model of Workspace Atlas, a local index of source workspaces that serves agents with context.
--
-- The part that is modelled most is the Context Governor of src/context_route.rs, with the counters
-- of src/context_metrics.rs and the task kinds of src/context_ir.rs. It decides how a request for
-- context is served, runs the decision against a dispatcher and checks what comes out.
-- A request names the capabilities that the caller needs, how far it satisfies them, its intent and
-- a floor and ceiling among three routes, DIRECT, LIGHT and DEEP. `decide_context_route` turns it
-- into a decision with a hash; `execute_context_route` asks a dispatcher, owned by the application
-- (src/context_application.rs), to serve the decision on one route after another; an execution is
-- completed, partial, blocked or interrupted, and `ContextExecution::validate` checks it.
--
-- The files:
--   Common             Boolean tests, lists, byte strings, results, sets as ascending lists
--   Route/Vocabulary, Route/Explanation    the enums with their order and their ASCII names
--   Route/Request      requests, their parts, errors and version constants
--   Route/Encoder, Route/Hash    `CanonicalEncoder` and `canonical_decision_hash`
--   Route/Budget, Route/Checks   `DeepSemanticBudget`, digests, identifiers, `validate_request`
--   Route/Signals, Route/Decided, Route/Decision    `decide_context_route` and
--                      `ContextRouteDecision::validate`
--   Route/Attempt, Route/Payload, Route/Execution   what executions consist of, with the checks
--   Route/Rules, Route/Shared, Route/Validation     `ContextExecution::validate` and its helpers
--   Route/Dispatch, Route/Handlers, Route/Turn, Route/Execute    `execute_context_route`: its
--                      helpers, what follows each outcome, one turn of its loop, the part before
--                      the loop and the loop
--   Route/Negotiation  `negotiate_context_versions`
--   Paths              `lexically_canonical` and `confine_to_root` of src/paths.rs (below)
--   Catalogue          generations and task sessions (below)
--   Lifecycle          renames and deletions of files (below)
--   Lease              the writer lease of a workspace (below)
--   Errors             the errors of src/error.rs
--   Metrics            `derive_context_metrics` of src/context_metrics.rs (below)
--   Scip               the decoder of SCIP indexes of src/scip_decoder.rs (below)
--   Route/Examples     concrete requests, executions and a scripted dispatcher
-- The children of these modules hold the proofs: Encoder/Framing, Budget/Seal, Checks/Accepted,
-- Decision/Soundness, Routes, Reasons, SignalTerms and SignalSet, Rules/Collected, Accounting and
-- Callers, Validation/Fields, Steps, Variants, Ends and Interrupted, Negotiation/Offers,
-- Turn/Settled and Ceiling, Execute/Total, Direct, NoGeneration and Changed, and Paths/Resolved,
-- Relative and Confined.
--
-- Apart from that, Paths models how src/paths.rs keeps the paths that the other parts read within
-- the root of a workspace: a path is the list of its components on a Unix host, as the standard
-- library yields them, and a `PathBuf` has the last component first.
--
-- Scip models src/scip_decoder.rs, which decodes the protobuf files of external indexers: Types has
-- the messages, limits and errors, Reader the wire format, Fields the loop that all decoders share,
-- Messages and Index the decoders, each as the step of its `match`. A buffer is a list of bytes and
-- the reader a buffer with a position; an `i32` is its 32-bit pattern. The loops take one turn more
-- than the buffer has bytes, which is enough since a tag takes a byte at least; a varint takes
-- eleven turns at most, the last of which refuses. Proofs: Varint and Encode (varints and tags),
-- Progress, Steps and Loop (the loops end), Keeps, Limits and Bounded (the limits hold), and
-- RoundTrip, which writes each message with its fields in a fixed order (there is no encoder in the
-- program but the one in the decoder's tests) and reads it back, with Examples.
--
-- Catalogue models src/generation.rs with the transitions of src/task_session.rs: Tables has the
-- rows, Generations the operations on candidates, Sessions the lifecycle of sessions. The database
-- is three lists of rows; an SQL statement is written out as what it selects or changes, with the
-- constraints and triggers of migrations/0001_foundation.sql, and a transaction that fails changes
-- nothing. Sequence numbers do not overflow; BLAKE3 and the time are parameters. Proofs: Sound and
-- Reachable (the invariant over a step relation), Final, Activated, Reconciled and Begun, and
-- Terminal, with Examples.
--
-- Lease models the writer lease of src/catalogue.rs and the commands of src/cli.rs that run under
-- it: Stamps has the timestamps, Rows the table with its SQL, Operations and Command the functions.
-- Each reading of the clock is an argument of its own, in nanoseconds since 1970; the crate chrono,
-- which reads timestamps, is a parameter. Proofs: Calendar with March and Civil (the dates),
-- Holders and Effects (what an operation changes), Callers and Exclusive (a step relation of
-- callers that hold and release), Takeover, with Examples.
--
-- Lifecycle models src/lifecycle.rs: Renames finds renamed files by content hash, Records writes
-- renames and deletions to the rows of Tables. A hash map is the list of its entries in the order
-- in which it happens to be iterated. Proofs: Groups, Paired and Exact, Deleted and its child
-- Counted.
--
-- Metrics models how src/context_metrics.rs measures the use of the supplied context: Types has the
-- identities and measures, Derive the derivation. Its sets are lists without repetitions in no
-- special order, on which no measure depends. Proofs: Separate and Yield (the sets), Fractions (the
-- measures), with Examples. Identity has the constructors of identities, with what `trim` takes for
-- blank.
--
-- Conventions. A function of the source keeps its name; a method that several types share is named
-- with its type (`validate_budget`, `validate_decision`, `validate_attempt`). A string is the list
-- of its bytes. A `BTreeMap` is the list of its entries and a `BTreeSet` the list of its elements,
-- both in ascending order of the derived `Ord`, which a rank function gives; where a theorem needs
-- the order of a map's keys, it says so (Metrics keeps no order). Numbers are unbounded; the
-- `checked_add` of `u64` is written out, and `elapsed_micros` saturates. SHA-256 is a parameter, a
-- function from bytes to a text, and so is the clock, which gives the microseconds for each ordinal
-- of an attempt. The dispatcher is a record of operations on a state of its own. The early
-- `return`s, `?` and the `loop` of `execute_context_route` are results of a type `Turn` or
-- `Ending`; a panic (`unreachable!`, `expect`) is such a result too. The loop runs on fuel; two
-- turns are enough, since only LIGHT goes on, to DEEP.
--
-- Not modelled are the rest of src/context_route.rs (capability discovery and
-- `SeedSummary::from_targets`), the functions of src/paths.rs that ask the file system, the
-- serialised forms, and the other parts of the program: storage, migrations, removal of a
-- catalogue, the walk of the files, providers, queries, task compilation, the rest of task sessions
-- and of the command line. They need SQLite, processes or the file system, or stand beside the
-- Context Governor.
pub mod Catalogue
pub mod Common
pub mod Errors
pub mod Lease
pub mod Lifecycle
pub mod Metrics
pub mod Paths
pub mod Route
pub mod Scip
