-- ===== src/Lib.antt =====
-- Verification of Cairnline, a coordination service for projects that people and agents share:
-- the data it keeps, the life of an assignment, and the store that holds it all.
--
-- The parts of the program and where they are modelled:
-- * internal/core/types.go, the records: Model and the modules under it. Statuses are data types
--   with a constructor for any other text; a pointer that may be nil is an Option.
-- * The methods on assignments of internal/core/memory_store.go, with internal/core/assignment_claim.go
--   and the status predicates of internal/core/service.go: Lifecycle. Each method is a step on one
--   assignment. Lifecycle.Fenced has the methods of portable workers, who present the id of a claim;
--   Lifecycle.Host those of the embedding host, who do not; Lifecycle.Stamp the helpers they share;
--   Lifecycle.Validate the checks of a claim; Lifecycle.Commands gathers the methods in one type of
--   commands and runs a history of them.
-- * The MemoryStore of internal/core/memory_store.go: MemoryStore, with a module for each kind of
--   record. MemoryStore.Calls gathers the methods in one type of calls and runs a history of them.
--   Methods on assignments look the assignment up, apply its lifecycle step and write it back.
-- * The Service of internal/core/service.go: Service, with a module for each kind of record. Each
--   request checks and trims what it is given, fills in defaults and calls the store. Service.Env
--   is what a request reads beside the store, Service.Normalize has the helpers that the requests
--   share, Service.Requests gathers the requests that change the store in one type, and
--   Service.Launch has what a worker is handed with an assignment. Service.Canonical, Service.Calls,
--   Service.History, Service.Offers, Service.Packets, Service.TidyRoots, Service.RootTrip,
--   Service.RootEdit and Service.RootAtomic prove what the service makes of the store.
-- * The reports of the service on a project or a work item: Reports. FollowUps and Closeout model
--   internal/core/closeout_readiness.go, Activity internal/core/activity.go, Setup
--   internal/core/setup_readiness.go, Operations internal/core/operations_brief.go and Health
--   internal/core/project_health.go; the other modules under Reports prove what the reports say.
--   Reports read the store through the List methods (MemoryStore.Lists) and change nothing.
-- * The error codes of internal/core/errorcode.go: ErrorCode.
-- * The errors of internal/core/store.go: Base.Errors. Go's maps: Base.Table and Base.Nested. Go's
--   sorting and comparisons: Base.Sorting and Base.Order.
--
-- How code and model correspond:
-- * A method takes the store and gives its answer with the new store, or an error. The code takes a
--   lock for the whole of each method and writes nothing before its last error, so a method is one
--   step. A context and its cancellation are not looked at by these methods.
-- * The clock is an argument. Where a method may read it twice, it has two readings.
-- * An instant counts the nanoseconds since the zero value of time.Time, so that IsZero is equality
--   with 0; instants before that and the bounds of Go's 64-bit durations are left out. A duration
--   that is not positive is 0, as the methods that take one treat both the same.
-- * Values are copied, as the code clones what it stores and returns, but for projects: the store's
--   GetProject hands out the project with its slices of roots and sources shared. Two requests write
--   into them, UpdateRoot and UpdateContextSource, so that the stored project changes before
--   UpdateProject is called and stays so if that fails (Service.Projects.write_through). All other
--   requests copy a slice before they change it.
-- * The fingerprint of an accept command, JSON, SHA-256 and hexadecimal digits, is a parameter, and
--   so are the quoting verb of fmt and strings.ToLower, which follow Unicode's tables.
-- * Go ranges over a map in any order and its sort may swap equal items; a list of the model is one
--   of the answers that the code may give, and the theorems on lists are about membership, length
--   and order.
-- * Only the digits of a number run on fuel, n + 1 rounds for n, each of which divides by ten.
--   Every other function is a structural recursion on a list, a text or a tree.
-- * The clock, the drawn ids and claim ids, filepath.Clean, filepath.ToSlash and strings.ToLower are
--   fields of Service.Env. A request whose claim id cannot be drawn ends before the store is called
--   and is left out. A request is one step: the code reads the store and then writes it, under the
--   store's lock each time, and what other requests do between the two is left out.
-- * A command on a root or a source may fail after it has written the project; it answers with the
--   store beside the error.
--
-- Not modelled: the discovery of skills and the reading of their files, which walk the file system;
-- the option that sets the lease term; the assistant's proposals, of which only the data and their
-- list are here; snapshots; the SQLite store; the MCP server with its tools and views; the command
-- line.
pub mod Base
pub mod Model
pub mod Lifecycle
pub mod MemoryStore
pub mod Reports
pub mod ErrorCode
pub mod Service
pub mod Examples
