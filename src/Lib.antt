-- ===== src/Lib.antt =====
-- Mutandae is a control plane for machine identities: it registers or discovers them, rotates their
-- credentials through a provider's adapter, retires and deletes them, hands out credentials, and
-- keeps an audit trail of all of it. This library models the lifecycle engine of internal/lifecycle
-- with the Azure integration, the wire contract of pkg/protocol that they stand on, the composite
-- provider, the scopes and the simulators of internal/provider, and the guards of internal/web: its
-- roles and its rate limiter.
--
-- The parts, and how they correspond to the code:
--
-- Protocol is pkg/protocol. Protocol/Enums, Models and Messages have the Go constants, structs and
--   request and response envelopes; a Go string type has one more constructor for any other text
--   where a foreign value can reach the code. Protocol/Transitions is transitions.go, with the runs
--   of the machine in Transitions/Reach; Protocol/Validation is validation.go; Protocol/Iso8601 is
--   duration.go, on the float64 of Iso8601/Binary64; Protocol/Errors is the chain of wrapped errors
--   that `errors.Is` reads.
-- Lifecycle is internal/lifecycle. Lifecycle/Env has the interfaces that the store is given (Adapter,
--   VaultStore, CommonVault, Planner, Provisioner, Repository, AuditSink) as records of functions
--   over a world; nothing is assumed of what they return. Lifecycle/Store has the three maps and the
--   two counters of `Store`, addEvent, and persistence.go in Store/Snapshots. A method is an action:
--   it takes the store with the world to a result and the store with the world, and what it wrote
--   before an error stays written. Lifecycle/Rotate, Retire (with Delete), Use, Register, Provision
--   and Boot (newStore) are the handlers, by their critical sections; Vaults and Plans are what they
--   share; Queries has the readers, Transition and urgency.go; Errors has ErrorCode and
--   providerOperationError; Operations composes the handlers into runs of requests; Sweep is
--   worker.go, one sweep at a time, with the point where its context is done as an argument.
--   Lifecycle/Lease is lease.go, on commands of Redis that are given to it; Lease/Exclusive says
--   what Redis documents of them. Lifecycle/Redaction is the redaction of audit_sink.go.
--   Lifecycle/Integration is integration.go: the state of the manager and its limits in the file
--   itself, Connect, the gate of a session, its ends and the cleaning in Integration/Sessions, the
--   five calls on a session in Integration/Operations, their answers in Integration/Receipts. The
--   client of Azure, the vault, the publisher
--   and the random source are given to it; Integration/Runs has its calls as steps of a run.
-- Provider is internal/provider: Provider/Scope is scope.go and create.go, on the path.Match of
--   Prelude/Glob; Provider/Multicloud is multicloud.go and vault.go, over adapters that are given to
--   it as records of functions on a world; Provider/Simulators has the three simulators, each as a
--   state with the adapter's operations, and Aws/Seeds, Gcp/Seeds and Azure/Seeds what they start with.
-- Web is internal/web: Web/Rate is rate.go; Web/Auth is the guard of auth.go: roles, requests and
--   sessions in the file itself, the API tokens in Auth/Tokens, the identity of a request in
--   Auth/Callers, and `ServeHTTP` with the CSRF check
--   of server.go in Auth/Gate, whose outcome is the request handed on or the kind of answer;
--   Auth/Claims verifies ID tokens. The digests, signatures and decoders are given to them.
-- Examples has concrete stores and collaborators, the tests, and the theorems applied to them.
--
-- How the proofs go: Store/Keeps, Yields and Guarded have one rule for each way to build an action;
-- the Induction module of a handler turns them into one principle, that a predicate on the store
-- holds behind the handler if it outlasts the handler's writes; the modules of Operations apply the
-- principles to one predicate each.
--
-- Bounds and conventions: times are nanoseconds since Go's zero time and durations are nanoseconds,
-- natural numbers without an upper bound, where Go has 64 bits; counters are natural numbers, where
-- Go has int. A Go map is an association list with one entry for a key, and where Go ranges over a
-- map the result is sorted. `decimal` counts digits by fuel, one more than the number, which has
-- fewer digits than that. The sorts are insertion sorts, which agree with Go's where the order tells
-- all elements apart, or where the sort is stable. In Web/Rate tokens are exact numbers, where Go
-- rounds in float64. path.Match reads code points, and lower-casing is that of ASCII letters: names of
-- cloud resources are ASCII. redactIdentifier counts characters, where Go counts bytes. Where the
-- integration ranges over a map, the order is that of the list. A validator does not test what the
-- type of a closed enumeration excludes, and a write behind the end of a list of runs, which Go
-- answers with a panic, changes nothing.
--
-- Handlers, and the calls of the integration's manager, run one after another here, but for
-- Rotate/Late, where any state may come between two critical sections of Rotate. Not modelled: the watcher of the repository and all other goroutines;
-- the Redis repository and its stream of events, and the sweeper's timer; the HTTP clients of clouds
-- and vaults in internal/provider; the steps of the OIDC login, the HTTP handlers, logs and metrics of
-- internal/web; the command and its configuration; JSON. They are I/O around the engine, or are
-- given to it as parameters.
pub mod Prelude
pub mod Protocol
pub mod Lifecycle
pub mod Provider
pub mod Web
pub mod Examples
