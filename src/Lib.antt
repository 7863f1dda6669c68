-- ===== src/Lib.antt =====
-- The Agent Message Queue: a file-based message queue for agents on one machine, its dead letter queue,
-- messages, threads and receipts, the task list and members of a team, the bridge to other hosts, and the
-- policy that guards a session's pinned root, the doorbell that tells an agent of its messages, the
-- registry of attached terminals, and the lease of a launch.
--
-- Parts and files:
--   SessionGuard      internal/sessionguard/session_guard_table.go: `Decide`, the table that every command
--                     asks before it touches a root (`decide`, `decide_invalid` for the switch on an
--                     invalid pin, `decide_mismatch` for its last rows). Laws in SessionGuard/Policy.
--   Fsq               internal/fsq, the Maildir queue of one delivery root:
--     Store           the tree of files: paths by agent, leaf and name (layout.go), and the root's state.
--     Errors          commit_error.go, claim_rename.go and the errors of maildir.go, with errors.Is and
--                     errors.As written out as recursions over the wrappers.
--     Monad           the state passing of calls that may fail; Monad/Triple has Hoare triples for them.
--     Syscall         the calls of the os package on the root, and renameNoReplace (rename_noreplace.go).
--     Names           filename.go and the handle checks of layout.go.
--     Root            delivery_root.go: VerifyBase, writeAndSync, cleanupTemp, WriteFileAtomic and
--                     ReadRegularNoFollow.
--     Delivery        maildir.go: DeliverToInboxes as validation, staging (`stage_all`) and commit
--                     (`commit_all`). Frame, Staging, Publish and Commit hold the lemmas of each phase.
--     Claim           find.go, claim_rename_other.go and DeliverToExistingInbox.
--     Dlq             dlq.go: the envelope and normalizeRetryState, the file format (Dlq/Format), the moves
--                     between its boxes (Dlq/Moves), retryFromDLQLocked (Dlq/Retry), and the moves into it,
--                     MoveToDLQ, MoveCurToDLQ and MoveClaimedCurToDLQ (Dlq/Transition).
--   Swarm             internal/swarm: the task files (Json, Tasks), the operations on a task and the search
--                     for its file (Update; tasks.go), one poll of the bridge (Poll; bridge.go), and the
--                     members of a team in its configuration file (Team; team.go).
--   Bridge            internal/bridge: ValidateEnvelope, ParseAlias and TransferFilename (envelope.go) and
--                     ApplyEnvelope (apply.go); SHA-256 and hexadecimal texts are the parameter `Crypto`.
--                     Auth has CanonicalBytes, SignEnvelope, VerifyEnvelope and parseHostID (auth.go), with
--                     Ed25519 as the parameter `Signing`.
--   Format            internal/format/message.go: Message.Marshal, ParseMessage, ParseHeader and ReadHeader;
--                     encoding/json is the parameter `Json`. Format/Sort has the comparison of
--                     SortByTimestamp.
--   Receipt           internal/receipt: emission, reading, the wait for a receipt, and the listing's filter.
--   Thread            internal/thread: the collection of a thread, with sort.Slice and the parsing of times as
--                     parameters.
--   Presence          internal/presence/presence.go: the presence files of the agents, decoded.
--   Wake              the doorbell of the wake command (internal/cli/wake_doorbell.go): the delay between
--                     attempts (Backoff), the unread files that a ring covers (Cohort), the state and its
--                     operations (Doorbell, with Planning for `plan`, Recovery and Attempt), and one
--                     notification of internal/cli/wake.go (Notify). What the terminal and the attention
--                     output answer, and every clock reading, is a parameter of a call.
--   Keepalive         internal/keepalive/registry/store.go: the entries and their comparisons (Registry),
--                     the file, the calls of a save and a transaction (Store), the changes (Operations,
--                     Batch) and the public operations (Transactions). Paths, SHA-256, the lock and
--                     which calls of a save succeed are parameters (`Paths`, `Io`). Supervisor is
--                     one look of internal/keepalive/supervisor/supervisor.go at an entry.
--   Launch            internal/launch/lease.go: the record, the classification of its holder and its
--                     inspection (Lease), acquisition, release and authorization (Lease/Capability). The
--                     process table, the random sources and the disk's answers are parameters (`Call`).
--   Base              lists, texts, association lists for Go maps, and Boolean equality.
--
-- Faults: each system call takes the next entry of `Root.faults`, and fails with its error number where
-- there is one; a failing write leaves the bytes that the entry says. A theorem over every `Root` is a
-- theorem over every sequence of failures, at every call. `Root.tokens` are the time and random texts of
-- temporary names, in any order and with any repetition. A rename is one atomic step, as POSIX has it.
-- Nothing else writes to the root during a call, and a lock makes its holder's call one step; a sequence
-- of calls is a sequence of states.
--
-- Loops are structural recursions over the recipients, stages, files and tasks, so no fuel is needed, but
-- for the wait for a receipt: its fuel is the number of its rounds, and one more than a round after which
-- the deadline has passed is enough.
--
-- Texts are compared by code; white space and letter case are those of ASCII. A time is a text that the
-- caller gives. encoding/json is not modelled: a task file or a team file is a decoded document (`Doc`,
-- `Document`), and the JSON of an envelope, a message header or a receipt is the parameter `Codec` or
-- `Json`, with what a round trip needs of it in `Encodes` or as a hypothesis. The layout check of an
-- existing inbox is a parameter of `deliver_to_existing_inbox`. Messages of errors are shortened to their
-- fixed texts; the wrapping that errors.Is and errors.As see is kept.
--
-- Not modelled: Windows, the file descriptors under a delivery root, layout inspection and repair
-- (layout.go), the timers and notifications of the swarm bridge, the key files and the outbound spool of
-- the federation bridge (the rest of auth.go, enqueue.go), the texts of new identifiers, sort.Slice, and
-- LockHandles of a launch lease, the rest of the packages cli, keepalive and launch, and the packages acp,
-- config, integration, lock and update, which are input and output, process control, or later
-- work. A rollback of a reattach is taken to bring back rows that stand apart from the rest, as the
-- registration lock that its caller holds ensures. A root whose descriptor or lease is closed during a
-- call, and a team configuration file that is the JSON null, have no case.
pub mod Base
pub mod SessionGuard
pub mod Fsq
pub mod Swarm
pub mod Bridge
pub mod Wake
pub mod Keepalive
pub mod Launch
pub mod Format
pub mod Receipt
pub mod Thread
pub mod Presence
