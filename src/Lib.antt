-- ===== src/Lib.antt =====
-- cgov-api reads Cardano governance data from Koios, keeps it in a database and serves it. This
-- library models the parts of it that decide: the vote arithmetic, the mapping of a proposal to the
-- governance action that the interface shows, the status of a proposal, the history of delegations,
-- the surveys linked to a proposal, and the machinery that runs the ingestion jobs.
--
-- The parts, and the files that model them (paths from the root of the repository):
--   * Governance: the enumerations of prisma/schema.prisma.
--   * Ledger: src/libs/ledgerVoteMath.ts. `compute_drep_ledger_buckets` and
--     `compute_spo_ledger_buckets` are its two exported functions, and `should_use_new_spo_formula`
--     the test of proposalMapper.ts that they call. Percent, Drep and Spo hold the theorems.
--   * Mapper: src/libs/proposalMapper.ts. Row is the proposal row and Records the labels and vote
--     records; Votes resolves and selects votes, Power (Drep, Spo, Committee) builds the vote
--     information of the three bodies, Decision the thresholds and outcomes, and Mapper itself the
--     governance action and its detail. Numbers is the floating-point arithmetic, a parameter.
--   * Status: src/services/ingestion/proposalStatus.policy.ts, with Withdrawal for the amount of a
--     treasury withdrawal.
--   * Delegation: the functions of src/services/ingestion/delegation-sync.service.ts that read the
--     update history of a stake address. ClearGuard is its `evaluateClearGuard`, which lets a run
--     clear delegations or holds it back.
--   * Survey: src/libs/surveyMetadata.ts. Normalize reads responses and surveys from metadata
--     (Details) and gives back their object (Print); Validate has the errors of a survey, of its link
--     to an action (Linked) and of a response (Response); Tally is `buildSurveyTally`, over Votes
--     (which vote of a voter counts) and Methods (the answers, weighed).
--   * Lock: src/services/ingestion/syncLock.ts. The table `sync_status` is a function from job names
--     to rows, and every transaction a step on it. The jobs take a lock here before they run.
--   * Limiter: src/services/koios/limiters.ts, which every request to Koios passes through: Burst and
--     Concurrency, each with its state as a record and its event loop as lists of readings or turns.
--     The maximum of Concurrency may be a function, as the adaptive cap of src/services/koios.ts is.
--   * Retry: `withRetry` of src/services/ingestion/utils.ts, around those requests.
--   * Parallel: src/services/ingestion/parallel.ts, which runs the ingestion of voters.
--   * Jobs: src/jobs/runIngestionCronJob.ts with its pressure guards. `tick` is the callback of the
--     schedule; it takes and gives back locks of Lock.
--   * Cooldown: src/services/koios/sharedCoordination.ts, the cooldowns that instances share.
--   * Cache: src/services/cache.ts, which the controllers of the development endpoints read and fill.
--   * Database: src/services/prisma.ts, the semaphore, the circuit and the retries around database
--     calls; the guards of Jobs read its pressure.
--   * FailFast: src/services/ingestion/dbFailFast.ts, by which the ingestion stops asking the database
--     after an error of the connection or while the circuit of Database is open.
--   * SyncUtils: `chunkArray` of src/services/ingestion/sync-utils.ts, which cuts batches for the syncs.
--   * Json: the values that JSON.parse gives. Prelude: shared names, Boolean tests, lists and integers.
--
-- Lovelace amounts, epochs, slots and times are natural numbers and their differences integers. The
-- ledger arithmetic is exact there as it is with bigint here; the mapper's is over `Double`, whose
-- laws stand in Numbers and are asked for by the theorems that need them. A percentage of the ledger
-- arithmetic is its number of hundredths. No definition runs on fuel but the loops that the code
-- itself bounds: `retry_loop` recurses on the attempts that `max_retries` leaves, `acquire_loop` on
-- the readings of the clock, of which three are enough where each sleep lasts as long as asked, and
-- `chunks_from` on the number of items, which is enough for any size of a chunk but 0.
--
-- Not modelled: HTTP, the queries of the controllers and the ingestion services, routes and scripts,
-- the schedule of the jobs, the enrichment of survey votes, and the parsing of environment variables.
-- Parameters stand for what is not in the repository: printing of numbers and dates, `trim`, `toUpperCase` and `toLowerCase` of strings, the clock, the
-- random jitter, the operations that are retried or run in parallel, and JSON parsing and printing.
pub mod Prelude
pub mod Json
pub mod Governance
pub mod Ledger
pub mod Status
pub mod Survey
pub mod Mapper
pub mod Lock
pub mod Limiter
pub mod Retry
pub mod Parallel
pub mod Delegation
pub mod Jobs
pub mod Cache
pub mod Cooldown
pub mod Database
pub mod FailFast
pub mod SyncUtils
