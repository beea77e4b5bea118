-- ===== src/Lib.antt =====
-- Maestro, a local control center for command line coding agents: the durable types shared by its
-- parts (crates/maestro-domain), the boundary to a vendor's tool (crates/maestro-adapter), the
-- daemon that owns sessions, runs and terminals (crates/maestrod), the wire protocol between the
-- desktop client and the daemon (crates/maestro-protocol), the start of processes
-- (crates/maestro-process), the redaction of secrets (crates/maestro-redaction), the local
-- operations on a project (crates/maestro-project) and what is kept on disk
-- (crates/maestro-storage). The daemon reads a tool's output as JSON lines, turns it into events
-- and requests, redacts and numbers the events, answers requests by the permission overlay or by
-- the user, and keeps the state of a session by the domain's state machine; clients poll terminals
-- and subscribe to events by a cursor. It opens files and runs Git only below the workspace roots
-- of a project, and removes stored segments by a plan of retention.
--
-- Which file models which part:
-- - Domain/Session: crates/maestro-domain/src/session.rs. `SessionState` with `is_terminal`,
--   `can_transition_to` and `transition_to`; the proofs are in Session/Moves.
-- - Domain/Permission: crates/maestro-domain/src/permission.rs, `evaluate_permission`,
--   `best_matching_rule`, `matcher_matches`; Permission/Creation has
--   `create_persistent_permission_rule`. `Path::starts_with` compares components, a path being the
--   list of them. The regex crate is the parameter `Regex`.
-- - Adapter/Jsonl: crates/maestro-adapter/src/jsonl.rs. `Decoder` is `BoundedJsonLineDecoder`, and
--   `push`, `finish`, `encode_json_line` keep their names. The `while let` loop of `push` is
--   `push_lines`, a recursion over the segments that the loop meets, which `split_lines` cuts off
--   at each newline. The serde_json crate is a pair of parameters, with `IsCompact` and
--   `ReadsBack` for what the round trip relies on.
-- - Daemon/Pending: `PendingTracker` of crates/maestrod/src/fake_session.rs, with Pending/Resolve
--   for the methods that settle a request. Its `HashMap` and `HashSet` are lists (Prelude/Maps),
--   whose order no method reads; `forget_oldest` is the eviction loop.
-- - Daemon/Events: `publish` and `subscribe` of fake_session.rs over `EventLog`, with the envelope
--   of crates/maestro-domain/src/event.rs. The envelopes that `publish` sends to live receivers
--   are its results; a slow receiver's lag is not modelled.
-- - Daemon/Capture: `BoundedBytes` and `RawProtocolCaptureState` of fake_session.rs.
-- - Daemon/Frames: `JsonLineDecoder` of fake_session.rs, byte by byte, with serde_json's parser as
--   a parameter.
-- - Daemon/Run: `set_state`, `update_waiting_state`, `record_protocol_failure`,
--   `classify_completion` and `finalize_run` of fake_session.rs as functions of the data they
--   change.
-- - Daemon/Delivery: `deliver_pending_response` and `expire_request` of fake_session.rs over the
--   tracker, the state and the event log; what the write to the process says is an argument.
-- - Daemon/Dispatch: `handle_frame` and `register_pending` of fake_session.rs, which change the state, the
--   requests, the writers and the events of the parts above for each frame of a run's stdout; what
--   serde_json says of a value is a parameter. Held has what the frames keep, Recorded what they record.
-- - Daemon/Bindings: `claim_binding`, `release_binding` and `validate_identifier` of
--   fake_session.rs; Daemon/Limits: `FakeSessionLimits`.
-- - Daemon/Terminals: `TerminalManager` and `TerminalSession` of crates/maestrod/src/terminal.rs: the
--   slots, the leases and the states of terminals; Steps has the life of a terminal as a step relation, one
--   step for each part of an operation that runs under its locks (three for `finalize_reaped`, whose parts
--   take a lock each), Requests what a client asks.
-- - Daemon/Terminal: `OutputBuffer` of crates/maestrod/src/terminal.rs. Daemon/Sequence has the
--   consecutive numbering that it shares with the event log.
-- - Protocol/Frame: `encode_frame`, `decode_frame` and `decode_payload` of
--   crates/maestro-protocol/src/lib.rs and `read_frame_with_limit` of crates/maestrod/src/ipc.rs.
--   The rmp_serde crate is a pair of parameters, with `IsCodec` for what the round trip relies on.
--   A reader is the list of the pieces that the socket delivers, and `fill` is the loop of reads.
-- - Redaction: crates/maestro-redaction/src/lib.rs whole. Bytes has the tests on bytes and keys
--   (Bytes/Sensitive says which keys are sensitive),
--   Scan the scanners, Ranges the merged ranges and their rendering, Json the walk over values.
-- - Process/Environment: `EnvironmentPolicy` of crates/maestro-process/src/environment.rs.
-- - Adapter/Catalog: `CapabilityCatalog` of crates/maestro-adapter/src/contract.rs with
--   `validate`, `capability` and `adapter_capability`, and
--   crates/maestro-domain/src/capability.rs.
-- - Project/Paths, Project/Roots, Project/Access: crates/maestro-project/src/auth.rs. A path is
--   the list of its components, as Unix has them; `normalize_absolute`, `WorkspaceRoots::new`
--   (`new_roots`), `authorize`, `open_directory` and `open_parent`. The file system is a
--   parameter.
-- - Project/Git: crates/maestro-project/src/git.rs. Status has `parse_status`, Worktrees
--   `parse_worktrees`, Output `read_bounded` and the commands of `GitService`. The installed Git
--   is a parameter: what it writes and how it ends. Status/Format writes out the format that Git
--   documents.
-- - Storage/Retention and Storage/Batches: crates/maestro-storage/src/retention.rs, `from_records`
--   and `execute_retention_batch`; Storage/Scrollback: `prune_terminal_segments` of
--   crates/maestro-storage/src/database.rs; Storage/Maintenance: `maintain`,
--   `validate_released_path` and `remove_released_files` of
--   crates/maestrod/src/storage_runtime.rs. The database and the file system are parameters.
-- - Prelude: names that all share, with the standard library's stable sort (Order, Sort) and its
--   slices and lossy decoding of bytes (Bytes); Examples: the theorems at concrete inputs, and
--   tests.
--
-- Conventions. An id is the number of its UUID and a time a number that is only compared. A byte
-- is a number. A method that changes its object returns the new object, beside its result or
-- error. Errors are named by their variant or message. Every loop is a recursion on the list that
-- it consumes or on a position that it counts down, and a cursor that jumps ahead is a number of
-- bytes to skip. The one loop on fuel is `drain_plan`, the `while` of `maintain`, with a round for
-- each planned candidate. Sums of lengths of live vectors do not reach the word size, so they are
-- not bounded; sequence numbers and the counts that the source saturates are bounded by 2 ^ 64 -
-- 1.
--
-- Not modelled: memory zeroing, Debug and serde output, logging, processes, pseudo terminals,
-- sockets, SQL, encryption and the desktop host, which are input and output; locks and tasks,
-- since each method of the tracker, the log and the buffers runs under one lock.
mod Prelude
pub mod Domain
pub mod Adapter
pub mod Daemon
pub mod Protocol
pub mod Redaction
pub mod Process
pub mod Project
pub mod Storage
mod Examples
