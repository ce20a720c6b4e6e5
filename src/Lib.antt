-- ===== src/Lib.antt =====
-- Verification of probeboard-api, a monitor that probes HTTP endpoints, judges what they answer
-- and computes statistics of it. The parts modelled are the worker's probe and what
-- it stands on, its scheduler and storage, and of the API the headers and the rate limit.
--
-- A probe (src/worker/probing/utils/probe.ts) takes an endpoint's configuration. For each hop it
-- asks the SSRF guard (src/core/ssrf/host-validator.ts) for the addresses of the target and pins
-- the connection to the first, sends the request with what the redirect rules
-- (src/worker/probing/utils/redirect-rules.ts) leave of method and headers, and either follows a
-- redirect or reads the body under a cap (body-cap.ts), compares the status and evaluates the
-- assertions (src/worker/probing/assertions/evaluate.ts) with their JSON paths (json-path.ts,
-- src/core/assertions/json-path-grammar.ts). What is thrown on the way is put into the failure
-- taxonomy (failure-classes.ts, ssrf-pin.ts), and the boundaries of the phases are kept by
-- timing.ts.
--
-- The worker's scheduler (src/worker/scheduler) ticks: endpoint-runtime.repository.ts hands out the
-- slots that are due, each under a lease, monitor-loader.service.ts reads what is to be probed,
-- scheduler.service.ts probes it in a bounded pool (probe-pool.service.ts) and paces its error lines
-- (log-backoff.ts), and result-recorder.service.ts stores a row (src/worker/storage/utils/outcome-mapping.ts) and
-- releases the slot in one transaction. The rows live in partitions, which
-- src/worker/storage/services/partition.service.ts creates ahead and retention.service.ts drops,
-- both by the periods of partition-periods.ts. The headers that a probe sends are checked and
-- stored by src/api/registration/services (header-validation.service.ts,
-- header-storage.service.ts), secrets under src/core/crypto/header-cipher.ts, and merged by
-- src/core/registration. The API admits logins and registrations by a rate limit
-- (src/api/auth/services/rate-limit.service.ts, src/api/auth/repositories/auth-attempt.repository.ts).
-- src/core/stats plans the buckets of a window (window.ts) and keeps latency
-- histograms (histogram.ts, constants.ts).
--
-- Files. Each function keeps its source name in snake case.
--   Common        shared names, tests on numbers, lists, texts as lists of UTF-16 units, integers
--   Web           the parts of a WHATWG URL that the program reads, and the parser's interface
--   Regex         regular expressions and their test, for the pattern of JSON paths
--   Stats/Window      planWindow, oldestNeeded; Tiling and Placement prove what a plan is
--   Stats/Histogram   bucketIndex, emptyHistogram, mergeHistograms, histogramCount
--   Ssrf              resolveAll, assertSaveableUrl; BlockList has isBlockedAddress, Ranges
--                     relates the IPv4 list to intervals, Safety describes accepted URLs
--   Assertions        JsonPath (the grammar), Json (readJsonPath, structurallyEqual), Evaluate
--   Probing           Redirects, BodyCap, FailureClasses, GuardPin, Timing, and Probe: its types
--                     in Probe, attemptHop and evaluate in Probe/Hop, the loop, the catch and the
--                     outcome in Probe/Loop; Probe/Invariant says what holds of a run, and
--                     Probe/Laws, Hops and Outcome are proofs
--   Scheduling        LogBackoff, and ProbePool (start, settlement, drain)
--   Scheduling/Runtime    adopt, reconcile, claim, release and abandon, on the table of slots;
--                     Eligible and Rows are about what a claim takes and writes, with Claims and
--                     Members for the next slot and the order, Statements and Logging about
--                     sequences of statements and the log of claims, Slots puts them together
--   Scheduling/Loader     load, and effectiveUrl
--   Scheduling/Recorder   recordAndRelease; Slot: runOne, persistAndRelease and their budgets;
--                     Tick: runTick, arm, start and stop on the state of the service
--   Storage           OutcomeMapping: outcomeLabel and toResultRow; Periods: the functions of
--                     partition-periods.ts, with Bounds (the calendar), Cover (periodsCovering) and
--                     Decimal and Laws (suffixes); Partitions: ensure, ensureRange, horizonDays;
--                     Expiry: classify and daysFor; Retention: the pass of run
--   Auth/RateLimit    admit, admitRegistration, succeeded and the pruning; Service and Window are
--                     about runs of them
--   Headers           Cipher; Rows: header rows written, read and merged; Checks: validate
-- Laws and modules named for a property hold proofs; Tests hold concrete runs.
--
-- State and effects. The variables of `probe` are the record Run, passed through each function;
-- it also keeps the requests sent and counts the dispatchers made and destroyed. A thrown error is
-- a value, of a result type of the function or of a hop's end. Errors live in a heap, so that a
-- chain of causes may be cyclic. The statements of the slot table are functions on its rows, and a
-- pass of the retention is a step on a record of what it has sent.
--
-- Parameters: the URL parser, `net.isIP` with the value of the literal, the resolver's answers, the
-- deadline's abort, what a request comes to, what the cancel of a body's reader rejects with, the
-- readings of the clock, the text decoder and `JSON.parse`; the database's clock, its random
-- numbers, the rows that another statement locks, what a transaction or a statement on the
-- retention's session comes to and what the reads of the catalogue give, with the names of all
-- relations; the cipher and its random vectors. They are arguments of the definitions, with no
-- hypothesis but the ones a theorem states. A BlockList holds an IPv4-mapped address against its
-- IPv4 rules and an IPv4 address against its IPv6 rules for mapped addresses, as the platform
-- documents.
--
-- Bounds and fuel. Natural numbers are unbounded; instants of a window are milliseconds from 1970
-- on. The window planner runs on the length of the window in milliseconds as fuel, and a round
-- moves on by a minute at least. The loop of a probe runs on one hop more than the redirects it
-- may follow. The walk over causes has the source's own bound of 8. The
-- writes of a result are as many as the configuration allows. Slots are microseconds, as the
-- database keeps them. Dates of partitions are milliseconds from the start of year 0, and the loop
-- over a range has its milliseconds as fuel; the decimal digits of a number have twenty as fuel,
-- more than a date has.
--
-- Not modelled: sockets, TLS and the connector, log lines, the rollup, the worker's lifecycle and
-- maintenance timer, the HTTP API but for headers, sessions and OAuth, configuration and the database
-- itself, which is SQL through a query builder; the deletion of an endpoint between statements of
-- the slot table; late DNS boundaries of a resolver that the deadline overtook; error messages, of
-- which the kind is kept.
pub mod Common
pub mod Web
pub mod Regex
pub mod Stats
pub mod Ssrf
pub mod Assertions
pub mod Auth
pub mod Probing
pub mod Scheduling
pub mod Storage
pub mod Headers
