-- ===== src/Lib.antt =====
-- PeopleBot: the data and the Git-backed protocols of `peoplebot/`, with what they guarantee.
--
-- The program lets Instances work on Git repositories. What they read and write is named by exact
-- State references (peoplebot/state.py). One Execution at a time runs for an Instance, under a lock
-- of the operating system (peoplebot/admission.py), and ends in a record (peoplebot/execution.py)
-- that is written to Git by prepared reference transactions (peoplebot/provenance.py). Instances
-- exchange bounded messages over branches that they publish and read
-- (peoplebot/messaging.py). A work cycle (peoplebot/work_cycle.py) reads them, claims one request at
-- a time in a progress record, lets the handler of its policy answer it, and replies.
--
-- The files, and the code that each is about:
--   Base, Json        Python's text operations, exceptions as values (`Result`), code that raises and
--                     changes a state (`Exec`, with rules for what it returns in `Exec.Spec`), and
--                     `stable_json_bytes` of peoplebot/_json.py with dynamic JSON values
--   Host              the world that the code runs in: Git's repositories, locks, files, calls
--   State             `StateRef`, `_validate_git_path`, `_git_environment` and `resolve_state`
--   Execution         `_utc_timestamp`, `UsageObservation` and `ExecutionRecord`, with their dicts
--   Admission         `try_acquire_execution`, `ExecutionAdmission.release`, `run_with_admission`
--   Provenance        the Git commands and `_update_refs` of `GitAttemptStore`; the records of an
--                     attempt (`Attempt`), their evidence in Git (`Evidence`), and
--                     `run_with_execution_provenance` over any evidence store (`Run`)
--   Messaging         `Message`, `OutboundMessageStore`, publication, peers and owned publication
--   Memory            the checkpoint request, `instance_memory_ref`, and the branches that are
--                     checked out (`_require_unused_branch`, in `Worktrees`)
--   WorkCycle         the reader progress (`Progress`, `Store`, `Update`), its configuration
--                     (`Policy`, `Bindings`, `Configuration`), the status file (`Status`),
--                     `run_work_cycle_tick` (`Tick`) and `reconcile_reader_task` (`Reconcile`)
--   Tests             runs, and the theorems at concrete inputs
--
-- Texts are texts of code points; a length in bytes is the one in UTF-8. A constructor takes JSON
-- values where Python may be given any value, and so its type tests are modelled. Git is the record
-- `External` of Host, a function from the arguments of a command and the state of its repositories
-- to an answer and a new state: theorems hold for every answer that it gives. An exit status is a
-- natural number, any for a negative one, since the code compares with 0 and 1 alone; Git's output
-- is what its decoding gives. The SHA-256 digest, json.loads with its exceptions, urlsplit and the conversion of a time
-- to seconds are parameters too. The lock that msvcrt gives is written out, with faults of the
-- platform as parameters: one descriptor holds the one byte of a resource until it unlocks.
-- All loops are over lists, so there is no fuel. A handler of the work cycle, and the task of a run,
-- are any action on the host. The handlers and the progress store reach a tick through ports; for the
-- theorem on its traces the ports are those of the code (`git_ports`), which write into a trace beside
-- the host that they ran (`logged`).
-- What a call changes in Git is stated by `Effect` (Base.Exec.Runs): which calls of the model returned,
-- from which state to which, and that nothing was done in between or since.
--
-- Left out: threads inside one process (the guard of a handle), copying of handles, the kill and
-- wait of a Git process, the admission that an UnresolvedExecutionOwnership keeps, and
-- the rest of peoplebot/memory.py (the checkpoint and the memory Execution), synchronization.py,
-- preparation.py, usage.py, alpha.py, development.py, the adapters and the command line.
pub mod Base
pub mod Json
pub mod Host
pub mod State
pub mod Execution
pub mod Admission
pub mod Memory
pub mod Provenance
pub mod Messaging
pub mod WorkCycle
mod Tests
