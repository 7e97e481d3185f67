-- ===== src/Lib.antt =====
-- kokoro-scheduler: a scheduler for tenants' recurring and one-time HTTP calls. Commands create and
-- change schedules; a planner turns due schedules into occurrences and queues their dispatches in an
-- outbox; a dispatcher claims dispatches, calls the targets and records the outcome or a retry. All
-- of them work on one database, through transactions; several instances may run at once.
--
-- Base holds the helpers: Boolean tests and lists over the native numbers, Go's int64 arithmetic,
-- texts, and results. The other files follow the program:
--   Domain      internal/domain: instants, retry policies, schedules, occurrences; Domain/Identity
--               is OccurrenceIdentity, ScheduleSnapshot, ValidateTenantID, IsValidScheduleName;
--               Domain/Normalized is Schedule.Normalized, Validate and canonicalizeJSON
--   Net         the target addresses and URLs of internal/domain/schedule.go: Net/Address is
--               IsSafeTargetAddress, Net/Target validateTargetURL
--   Json        JSON values, and internal/application/json_validation.go in Json/Walk
--   Recurrence  the interface Recurrence of internal/ports/ports.go, with its laws
--   Planner     internal/application/planner.go: Planner/Plan is planSchedule and boundedCatchUp,
--               Planner/Materialize is materialize, Planner/Run is Run and RunCycle of
--               internal/application/processor.go; the other children hold proofs
--   Dispatcher  internal/application/dispatcher.go: Dispatcher/Backoff is retryBackoff,
--               Dispatcher/Decision the decision of persistResult, Dispatcher/Process the rest
--   Store       internal/adapters/postgres: Store/Rows the database and WithinTx, Store/Scan
--               scan.go, Store/Outbox outbox.go, Store/Due due.go, Store/Commands commands.go
--   Service     internal/application/commands.go: Service/Command is Execute and apply,
--               Service/Prepare is prepare, Service/Get is Get; the other children hold proofs
--   Lease       internal/adapters/redis/lease_store.go
--   Runtime     internal/application/runtime.go, and internal/adapters/gocron/wakeup.go in
--               Runtime/Wakeup
--   Client      internal/adapters/httpclient/client.go: Client/Resolve is resolveTarget and the
--               classification of errors, Client/Dispatch is Dispatch
--   Config      internal/config: Config/Allowlist is target_allowlist.go, Config/Database
--               ParseDatabaseURL, Config/Load is Load
--   Http        internal/transport/http: Http/Routing is routing.go and operationFor of handler.go
--   Cron        internal/adapters/recurrence: Cron/Field and Cron/Expression are cron.go,
--               Cron/Calculator is calculator.go
--   Tests       data, and runs of the theorems on it
--
-- Representation. An instant is its number of nanoseconds from Go's zero time, so IsZero is a
-- test for 0, and instants before year 1 are outside the model. A duration is an integer kept in
-- 64 bits: results wrap around where Go's do, and Sub saturates. Texts are lists of bytes; cron
-- rules, hosts and the values of the environment are ASCII. A string type with named constants is
-- a data type with these constants and a case for any other text. An error is a constructor of
-- Error; the wording of messages is kept only where the program stores it. Attempt counts, HTTP
-- statuses and versions are natural numbers.
--
-- The database is a record of row lists, and a transaction a function on it that returns a result
-- with the new database or an error; within_tx rolls back on an error. An SQL statement is a
-- function on the rows, with its WHERE, SET, ORDER BY, LIMIT and ON CONFLICT parts. Identifiers come
-- from an argument uuid, the rows that FOR UPDATE SKIP LOCKED passes over from an argument locked.
-- Transactions run one after another, as the locks make them; a history of steps is an interleaving
-- of the workers' transactions. Failures of the connection are not modelled, and receipts are read
-- back as they were written. The schema's CHECK constraints are not part of the statements: where the
-- database would refuse a row, such as one with an HTTP status outside 100 to 599, the model writes it.
--
-- What the program takes from outside is an argument: clock readings, the lease store, the target,
-- the random source and the digest are the record Surroundings; time zones, ParseDuration and
-- AddDate are the record Cron.Calculator.Library. The packages net/url, net/netip and encoding/json
-- are the records Parsers, Codec, UrlLibrary and AllowlistParsers; Environment gathers what a
-- schedule needs, Config.Load.Library what a configuration needs, and Outside what an attempt to
-- call a target meets. The redis server is the record Redis with the documented effects of its
-- commands; a key that has expired is one that was never set, and calls that the server does not
-- answer are left out. A JSON decoder is the sequence of its tokens.
--
-- The runtime is a state machine whose steps are the sections of Start, trigger, Stop and of a cycle
-- between two points where another goroutine may run. One call of Start and one of Stop run at a
-- time.
--
-- Bounds. The catch-up loop runs on the schedule's catch-up limit, which bounds the loop of the
-- source too. The search for a matching minute runs on the number of minutes up to its limit, and
-- next_matching_complete shows that this is enough. The walk over JSON tokens has twice their number
-- and two units of fuel, and ensure_no_duplicate_keys-ends shows that it never runs out.
--
-- Not modelled: the decoding of HTTP requests, the handler and its responses, the schema's bootstrap,
-- the construction of the HTTP client, the random source and the wiring of the commands under cmd; the
-- advisory lock of a command, which only orders transactions; the release of a dispatcher's lease,
-- whose outcome the program ignores.
-- The package config has a copy of the check for duplicate keys, which is modelled once.
pub mod Base
pub mod Http
pub mod Json
pub mod Net
pub mod Domain
pub mod Recurrence
pub mod Planner
pub mod Dispatcher
pub mod Store
pub mod Service
pub mod Runtime
pub mod Client
pub mod Config
pub mod Cron
pub mod Lease
mod Tests
