-- ===== src/Lib.antt =====
-- Network Operations Platform: a model of the backend (backend/app) and theorems about it.
--
-- The platform discovers network devices over several transports, keeps the discovery jobs in a
-- database where workers claim them under leases, schedules recurring runs, and judges what it
-- found against policies.
--
-- Parts and files:
-- - Common: tests, lists and texts that all parts share.
-- - Transports: backend/app/transports. CircuitBreaker (circuit_breaker.py), Retry (retry.py),
--   ConnectionPool (connection_pool.py and session.py).
-- - Discovery: backend/app/discovery. Contracts (contracts.py: job states and their transitions,
--   failure codes, transport order), ResultStates (result_states.py), MultiTransport
--   (multi_transport.py: discovery with fallback between transports), Scopes (scopes.py), Fanout
--   (fanout.py: child jobs of a scope and the reconciliation of their parent), TransportPolicy
--   (transport_policy.py: the transports that a credential profile allows), Execution
--   (execution.py, the execution of one job by a worker: Policy finds the transport policy,
--   Failures has failure codes and stored states, Devices the target view and the stored device,
--   Calls the exceptions and the service's calls, Single and Multi the two transport paths,
--   Service the method execute with its handlers).
-- - Persistence: backend/app/persistence. Tables (models.py and the session), Jobs
--   (discovery_repositories.py, DiscoveryJobRepository; Jobs/Rows has the guards and the values of
--   its UPDATE statements), Trees (its methods that stop a job with its children: operator
--   cancellation, Stale for cancellations that no worker answers, Owned for jobs whose worker is
--   gone), Evidence (discovery_repositories.py, the attempt and evidence repositories). Steps is
--   the row machine that all of them refine, Steps/Follows chains it over the commits of one
--   execution, Histories runs the methods as transactions, one after another.
-- - Jobs: backend/app/jobs. State (state.py, cancellation.py, metrics.py), Dispatcher (dispatcher.py).
-- - Scheduler: backend/app/scheduler. Service (service.py over the in-memory repository).
-- - Evaluation: backend/app/evaluation. Scoring (scoring.py), Engine (the aggregation in engine.py).
-- - Decision: backend/app/decision. Engine (engine.py and registry.py).
--
-- How the parts interact: the repository asks Contracts whether a change of state is legal, and
-- hands the children of a stopped job to Fanout, which creates jobs through the repository; the
-- fallback loop of MultiTransport gives its failures to ResultStates; the execution of a job claims
-- it through the repository, asks TransportPolicy or its own rules for the transports, runs one
-- collector or the fallback loop, stores attempts and evidence, and closes the job through the
-- repository again; the decision engine reads what the evaluation engine produced.
--
-- Conventions: a function keeps the name of the method it models. State is passed explicitly: a
-- method takes the object's fields as a record and returns them changed. The clock reading and
-- fresh identifiers are arguments; identifiers and instants are numbers, durations are
-- microseconds unless a file says otherwise. An exception is a constructor of the operation's
-- result type. A database session is what is committed and what is pending; what other sessions
-- commit between the read and the UPDATE of a method is an argument, a function on the table.
-- Collectors, parsers, snapshots, the prober and the fallback loop's attempts repository are known
-- by what their calls return or raise; one clock reading serves a whole execution; the redaction of secrets by a regular expression and the library ipaddress are
-- parameters, and so are what an event publisher raises and whether an UPDATE changes the objects that
-- a session holds. All loops are
-- structural recursion on a list, so no fuel is needed.
--
-- Not modelled: protocol clients and parsers over third-party libraries, HTTP interfaces,
-- authentication, reporting and rendering, database migrations and the user interface, which are
-- input, output and wiring; the concurrent execution of child jobs; the execution of single
-- compliance rules; the worker loop, the orchestration engine, policy packages, comparison,
-- inventory, snapshots and analytics.
pub mod Common
pub mod Transports
pub mod Discovery
pub mod Persistence
pub mod Scheduler
pub mod Evaluation
pub mod Decision
pub mod Jobs
