-- ===== src/Lib.antt =====
-- A verification library for pyinc, an incremental computation kernel.
--
-- pyinc's `Database` (src/pyinc/runtime.py) holds inputs that a caller sets and the results of
-- query functions, with the dependencies that each evaluation read. A `get` reuses a stored result
-- after checking its dependencies, and runs the function again where one of them has changed. An
-- equal new result keeps its old revision (backdating), so that nothing above it runs again.
--
-- Modelled, in Kernel/:
--   Node, Program, State: `NodeKey`, `Input`, `Query`, `NodeRecord`, `ExecutionFrame` and the part
--     of `Database` that evaluation uses. A program gives every query a function, as the tree of
--     the calls that it makes of the database, with an outcome (a value or an error) to each call.
--   Verify: `read_input`, `report_untracked_read`, the nested `get` with its error path, and
--     `_maybe_changed_after`, with the evaluation of a query as an argument.
--   Execute: `_ensure_query` and `_execute_query`, recursive on a bound for the depth of nested
--     calls, which raises `recursion_error` at 0. The depth stands for Python's own limit.
--   Inputs, Batch: `set`, `set_many` and their helpers.
--   Requests: the request around a top-level `get`, and eviction.
--   Fresh: the specification, the value of a query computed from scratch.
-- The proofs:
--   Invariant, Settled: what holds of the stored records, for the worlds of the past revisions.
--   Run, Evaluate, Recheck, Order, Commit, Ensure, Evict, Serve: the invariant through a `get`.
--   Serving, SetInput, SetSteps, BatchPhases, BatchChanges, BatchWorld, BatchServed: the invariant
--     through a `set` and a `set_many`.
--   History, Answers: whole sessions. Steps, Keeps, Limit, Indexed, Growth, Stored: any
--     program, raising or not. KeySets, Eviction, Recent: eviction.
--   SetRead, BatchLaws, BatchOne, BatchRead, ColdFailure: single calls and their errors.
--   Samples, Tests, RaiseTests, EvictTests: concrete programs.
-- Store models `InMemoryArtifactStore` (src/pyinc/store.py): `put` under the lock, `get` and `contains`,
-- which take none, as single look-ups.
-- Value/ models the encoding of values (src/pyinc/value.py):
--   Snapshot: the snapshots that `freeze` makes. Texts and floats, with UTF-8 and `float.hex`, are
--     Python's and stand as a record of parameters. Decimal,
--     Digits: `str` and `int` on ASCII digits.
--   Encode, Decode: `_encode_snapshot` and `_decode_snapshot`, the latter with a bound on nested
--     calls that stands for Python's own; the depth of the encoded snapshot is enough of it.
--     RoundTrip: the proofs.
--   Payload, Classes, Checks, Validate: fingerprints, with SHA-256 as a parameter,
--     `_thaw_equivalence_key`, with Python's floats and fractions as parameters, and
--     `_validate_snapshot`. Reach: its loop over the references of a graph, with one round for each
--     reference, which is enough. Serialize: `serialize_snapshot` and `deserialize_snapshot`.
--   Valid, Reachable, Graphs, Ascending, Canonical: the proofs.
--   Exact: `snapshots_equal`, and the kernel's program with these for its values.
-- Pep440/ models versions and specifiers (src/pyinc/integrations/_pep440.py):
--   Version: `Version`, `parse_version` and `compare_versions`. Clause: `_satisfies_single`.
--   Specifier: `satisfies` and `parse_specifier_set`. Regular expressions, `str.strip` and
--     `str.lower` are Python's and stand as parameters.
--   Policy: `check_version_constraints` (src/pyinc/integrations/_version_policy.py).
--   Order, Compare, ClauseLaws, Prefix, SetLaws: the proofs.
-- Document/ models positions in sources:
--   Lines: the line bounds and offsets of src/pyinc_tools/_document.py. Encoding: `DocumentMap`
--     (src/pyinc/integrations/source_geometry.py), with the widths of Python's codecs as a parameter.
--   Chains, Offsets, Convert, Slices: the proofs.
-- JsonRpc/ models the framing of messages (src/pyinc_tools/_jsonrpc.py), on the bytes of a stream that
--   are left:
--   Headers: header lines and their checks. Messages: `read_message`, whose loop has a bound of one
--     round for each byte and one more, which is enough, `write_message` and `validate_request`.
--   Lines, Framing, Progress, Stream: the proofs.
-- EnvFile models `_parse_env_lines` (src/pyinc/integrations/env_file.py), with Python's own work on
--   lines as a record of parameters; EnvFile/Reading has its proofs.
-- Assoc models dictionaries, Prelude passes on the shared names.
--
-- The kernel takes its values as a parameter: an equality and a fingerprint of snapshots. Its theorems
-- on values ask that these tell different values apart (`IsExact`), and the same of the policies in
-- use. Value/Exact fills this in for canonical encodings, with SHA-256 taken to be free of
-- collisions. They ask of the program that its queries have ranks, so that no evaluation reaches
-- itself.
--
-- Not modelled: resources, request spans, checkpoints, the file system store, observers, threads, the
-- checked mode, fingerprints of code and the guards against ambient reads; `freeze` and `thaw`, and
-- CPython's limit on the digits of an `int`; the other integrations, the rest of the language tools, and
-- the code generator. Four limits of the models:
--   A function of a program has no state outside the database. A query that reports an untracked read
--     runs again in each request, as in the source, but here it cannot find another value there.
--   Freezing and the comparators of policies are total. `set` and `set_many` have no branch for one
--     that raises, nor for a failing write to a store.
--   On a payload with a negative length the decoder of the source steps its cursor back and goes on, as
--     far as Python's limit on recursion; here it ends with `backwards`.
--   The sessions that are compared with the values from scratch have no functions that raise in the
--     worlds of their `get` calls: an old dependency that raises while it is checked can escape where a
--     fresh evaluation succeeds (Kernel/RaiseTests runs such a session).
pub mod Prelude
pub mod Assoc
pub mod Kernel
pub mod JsonRpc
pub mod Store
pub mod Value
pub mod Pep440
pub mod Document
pub mod EnvFile
