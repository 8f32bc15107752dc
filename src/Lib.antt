-- ===== src/Lib.antt =====
-- Navo: the coordinator of connection transactions, the self-healing engine, the analyzer of the network
-- environment, the supervisor of the core's process, the manager of the TUN's network resources, the
-- replay cache, the warm lease, the capture transitions and the failover of the service, and the compatibility resolver, all in Go.
--
-- How the parts interact. Every operation that changes a core, a node, the capture mode or a network
-- resource holds a transaction of the coordinator, whose snapshot says who owns the connection. The
-- observer of the network environment collects facts and the state of that transaction into a snapshot,
-- and its analyzer draws findings from them: evidence, with no authority to repair. Faults are submitted
-- to the self-healing engine, which repairs through the policy of the fault's code, within a budget and
-- behind a circuit breaker. The supervisor starts, stops and replaces the core's process, and watches for
-- its crash. The network manager makes the routes, the DNS rule and the firewall rule of a TUN session and
-- keeps a journal from which it, or a later process, takes them back. The service answers a request that
-- is repeated after a reconnection from its replay cache, and keeps the core of a system proxy that is
-- switched off running for a while, under a lease. Its capture transitions put these together: they stop and
-- start the core through the supervisor, let a network manager make and take back the network, reuse or give up
-- the lease, and go back to a stopped service when a step fails. The resolver says which core can run an endpoint in
-- which capture mode.
--
-- The modules and their sources:
--   Base                 what the program uses of Go itself: tests, lists, texts, signed numbers, maps
--   Compat               internal/domain and internal/compatibility
--     Spec               domain/endpoint/spec.go, options.go, protocol.go: the kinds of endpoints, Validate
--     Endpoint           domain/endpoint/endpoint.go: Validate
--     Resolver           compatibility/resolver.go: Resolve; coreadapter/adapters.go: capabilities
--     Leaves, Validation, Resolution   proofs
--   Connection           internal/connection
--     Policy             policy.go: PolicyFor, intentFor, intentRank, domainFor
--     Coordinator        coordinator.go: Begin, TryBegin, startLocked, supersedeLowerPriorityLocked,
--                        removeWaiter, popNextLocked, SetPhase, Finish; one function for each, and for
--                        each critical section of Begin (begin, remove_waiter)
--     System             the coordinator with the transactions that callers hold, and their steps
--     Queue, Supersession, Invariant, Safety, Admission, Drain   proofs
--   SelfHeal             internal/selfheal
--     Event              model.go, and eventKey of state.go
--     Budget             state.go: begin (refresh, decide), complete (settle), cancelHalfOpen, load,
--                        persistLocked; Window, HalfOpen and Store are proofs
--     Plan               recovery.go: the fault matrix, PlanFor, Action
--     Registry           policy.go and registry.go
--     Engine             engine.go: New's defaults, process, backoff; Engine.Repair is proofs
--     Intake             engine.go: Start, Stop and Submit in two halves each, and run; Intake.Accepted is proofs
--   NetworkEnv           internal/networkenv
--     Model              model.go
--     Analyzer, Verdict  analyzer.go: what each kind of fact adds, and Analyze with deriveHealth
--     Store              store.go
--     Findings, Distinct, Health   proofs
--   Supervisor           internal/supervisor
--     State              state.go: the table of transitions
--     Lifecycle          supervisor.go: Start, Stop, Restart, SwapConfig, startCore, transition
--     Crash              supervisor.go: monitor, handleCrash
--     Transitions, NoRestart, Starting, Replacement   proofs
--   Network              internal/network
--     Journal            journal.go: what is stored; manager.go: validateRecoveryJournal
--     Manager            manager.go: operations, inspectOperation, shouldInjectFailure; writeJournal
--     Recovery           manager.go: rollbackLocked, recoverLocked, migrateV1, recoverNetworkState
--     Activation         manager.go: activateLocked (apply_operation, apply_all, apply_plan), Rebind,
--                        Deactivate, Recover
--     Coverage           the laws of the machine, and when a journal accounts for what was made
--     Rollback, Restore, Applying, Crash, Session, Deactivate, Restart   proofs on that account
--     Released           where a recovery that reports no error leaves no journal
--     Readable, Writing, Plans, Recovers   proofs that a recovery accepts the journals of a session
--     Machine            a small machine that keeps the laws
--   Service              internal/service
--     Replay             ipc_replay.go: execute in its two critical sections; Replay.AtMostOnce is proofs
--     Outbound           compiler/multi_core.go: Compatible; the selected outbound and its pin
--     Failover           failover.go: the pool, the probes and the answer; Failover.Candidates is proofs
--     Routing            runtime.go: runtimeRoutingPolicy; Routing.Decision says where a core that takes
--                        the first matching rule sends a connection, and is proofs
--       Entries          normalizeRoutingRuleEntries, validateDomainSuffix; Entries.Domain and Entries.Normal
--                        are proofs
--     Capture            capture_transition.go and runtime.go, in these parts:
--       Action           functions that change the service and return a value or an error
--       State            service.go, runtime.go: the service's state, and the machine that it runs on
--       Core             the core, the warm lease, stages and faults
--       Runtime          runtime.go: applyRuntimeConfigLocked, setTUNRuntime and its kin, the commit
--       Prepare          prepareCaptureLockedWithOptions, prepareTUNLocked, rollbackCaptureLocked
--       Handler          handleCapturePrepare
--       Health           the watch over the TUN adapter; Threshold and Watch are proofs
--       Managed          newTUNNetworkManager: internal/network's managers behind tunNetworkManager
--       Composed         the service on those managers
--       Steps, Moves, Applied, Committed, Switched, Outcome, Rollback, Handled   proofs
--     Lease              warm_lease.go: the lease (remember, retain, reusable, activeMatches, activate, clear,
--                        remaining) and the service's operations and timers on it; Lease.Refines states
--                        what a lease is for, Lease.Timers the runs of operations and timers; Lease.Expiry
--                        is proofs
--
-- Conventions. Times are nanoseconds since Go's zero time as natural numbers, and time.Duration and int
-- are signed numbers without a bound where the program only compares them; uint64 counters wrap round at
-- 2 ^ 64. A method that takes a lock is one step; where the code gives the lock up in between, each
-- critical section is a function of its own. The clock, random numbers, file writes and the policies'
-- functions are arguments, as are the answers of the core host and of the reconciler. The SHA-256 digest is a
-- parameter, and so are the machine on which the network manager's commands run, with the laws of IsHost,
-- and the parsers of addresses and URLs. A run records every pair of journal file and machine that it goes through,
-- so that a crash is a cut of that trail: a write replaces the journal or leaves it, never half of it, as
-- fsatomic does. A Go context is the number of its making. No definition needs fuel but the decimal
-- digits of a number, where fuel above the number is shown to be enough.
--
-- Not modelled. Logging; contexts as such (their effect on Begin, on the pause of a repair and on the
-- crash handler is modelled); the JSON form of the budget file; the resource locks of the engine (one
-- worker processes the queue); the subscribers of the supervisor, its Status, and the request context that
-- may cut a startup short; the PowerShell text, the crash hook, the stage reports and the validation of the
-- network manager; the wait for the service's capture lock, its injected crash points, the DNS part of
-- the config that it gives the compiler, and its handlers of outbounds, modes, rules and updates; and
-- the other packages of the repository: the network reconciler, the compiler, the rest of the domain
-- packages, subscriptions, platform and user interface.
pub mod Base
pub mod Compat
pub mod Connection
pub mod SelfHeal
pub mod NetworkEnv
pub mod Supervisor
pub mod Service
pub mod Network
