-- ===== src/Lib.antt =====
-- A model of delegatd, the control plane for agent tasks, and the properties that make it correct.
--
-- The program takes one manually submitted task for an allowlisted repository. The text of the task
-- is normalized (internal/domain/task.go), a connector returns the repository's material, its
-- policy is normalized and intersected with the operator's (internal/policy/resolve.go), the
-- snapshots are captured, and the task service (internal/control/task.go) hands one draft to a
-- store (internal/store/memory/store.go or internal/store/sqlite/store.go), which keeps resources,
-- tasks and their history.
--
-- - Prelude: Go's values. A string is the list of its bytes, a map a list of pairs with distinct
--   keys that `insert` updates in place or extends, an error a chain of typed reasons, a fallible
--   function returns `Result`. `strings.TrimSpace`, `Split`, `Join` and `sort.Strings` are written
--   out.
-- - Domain: internal/domain/task.go. Id has NewID, ParseTaskID and ParseResourceID; Utf8
--   utf8.Valid; Input NormalizeManualInput; Json the values that snapshots hold and the codec;
--   Snapshot NewSnapshot, ParseSnapshot and canonicalJSON; Time the parts of time.Time that are
--   read; Task the records.
-- - Policy: internal/policy/resolve.go. Names has the pattern of action names, Glob the syntax of
--   path.Match, Paths the two path functions, Request NormalizeRequest, Resolve Resolve.
-- - Memory: internal/store/memory/store.go. A method takes the store behind its pointer and returns
--   what is there after the call. The mutex makes each call one step, so concurrent calls are the
--   sequences of Memory/Traces.
-- - Control: internal/control. Failure has failure.go and failureFromCause, Store the interface of
--   a store with its laws, Submit SubmitManualRepository, Show Show. A context is what `ctx.Err()`
--   returns at each point where it is read.
-- - Doctor: internal/doctor/doctor.go. Each goroutine of Run is one step, and the order of the
--   steps is an argument.
-- - Docker: internal/workspace/docker/doctor.go, the buffer with its limit, the decoding of the
--   version and the probe. What os/exec answers is the argument Command.
-- - Omp: internal/runtime/omp/doctor.go, readReadyFrame, readyFrame and the probe. The reader is a
--   parameter with laws, and what the process does is the argument Process.
-- - Github: internal/connector/github. The root has the patterns, parseExternalRef and
--   loadPrivateKey, Request request, endpoint and mapError, Snapshot newRepositorySource and
--   Snapshot. The transport, cryptography and package url are arguments.
-- - Config: internal/config. Yaml has the tree, Decode and decodeSingleDocument, Checks the tests
--   of names, instances and resources, Load has Load and LoadStore, Repository DecodeRepository.
--   The YAML package, the file system and the durations of package time are arguments.
-- - Sqlite: internal/store/sqlite. Of store.go, Engine has the rows, the statements and the laws of
--   the database, Draft validateTaskDraft and the stored forms, Create CreateTask, Read Task;
--   Effect and Outcome follow one call, Laws has what it records, Boundary the store as a
--   TaskStore. Schema has migrate and validateSchema of migrations.go, Migration and Complete what
--   they do; Open has Open and OpenReadOnly of store.go, Opened what they leave.
-- - Bootstrap: internal/bootstrap. task.go is submitTask and showTask; what the SQLite and GitHub
--   packages answer is the argument Adapters. doctor.go is LoadDoctor in Checks, with what the
--   probes answer as the argument Probes.
-- - Command: cmd/delegatd/main.go. Input has readTaskInput, Task the task commands and run, Usage
--   what a call of the program is, Judged and Codes how calls and misuses end; a command's result
--   is its exit code and what it printed.
-- - Examples: tests at concrete inputs, and the theorems there.
--
-- Every loop but three is structural recursion on what it ranges over. The loop of `readReadyFrame`
-- runs on fuel, one unit more than the 1 MiB that a frame may have, and each round that goes on
-- brings a byte, so the fuel is never used up. In Policy/Glob, the loop of `path.Match` over a
-- chunk and that over the ranges of a class run on the length of what they read; each round reads a
-- byte. `encoding/json` is the parameter `Codec`: a value that was decoded is encoded as a text and
-- a line feed, and the text decodes to that value (`IsCodec`); Examples/Verbatim has a codec that
-- does so. The database is the parameter `Engine` with the laws `IsEngine`, which Examples/Tables
-- fills; one of them is that a read of a task in a live context does not fail. Random texts, the
-- clock, the connector's answer, the flag sets and what other processes print are arguments.
--
-- Not modelled: the diagnosis of the GitHub connector and the tokens that it signs; the diagnosis
-- of the SQLite database and its connection strings; the release tool, which writes archives; and
-- signal handling.
pub mod Prelude
pub mod Domain
pub mod Policy
pub mod Memory
pub mod Control
pub mod Doctor
pub mod Docker
pub mod Omp
pub mod Github
pub mod Config
pub mod Sqlite
pub mod Bootstrap
pub mod Command
pub mod Examples
