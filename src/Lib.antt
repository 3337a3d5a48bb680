-- ===== src/Lib.antt =====
-- A verification library for remitlend: models of the parts of the backend and the frontend that decide
-- about money, privileged actions and the behaviour during outages, with the theorems that make them correct.
-- Paths are from the repository's root.
--
-- Parts, and the files that model them:
--
--   Money              backend/src/money/decimal.ts: `roundDiv` (Rounding) and `splitProRata` (Split), on
--                      `bigint` as signed integers over the native numbers (Base/Int); Decimal has `toStroops`
--                      and `fromStroops`, on texts as lists of code units.
--   Circuit            backend/src/services/sorobanCircuitBreaker.ts: the breaker's fields are the record
--                      `Breaker`, each method a function on it. Probe has `checkAvailability`, `runProbe`,
--                      `getStatus` and `reset`; StaleRead has `withStaleRead` of
--                      backend/src/services/sorobanService.ts, which reads through the breaker.
--   WriteQueue         backend/src/services/sorobanWriteQueue.ts: the in-memory store and the facade; Replay has
--                      `runSorobanWriteReplayOnce` of backend/src/services/sorobanWriteReplayProcessor.ts,
--                      which works on the queue once the breaker says that the RPC is available.
--   DualControl        backend/src/services/privilegedActionService.ts: the table of requests and its
--                      statements; Canonical has the payload's hash and what its JSON text gives back,
--                      Execution `executeRequest`, Runs every interleaving of the statements as lists of
--                      events.
--   KeyRotation        backend/src/services/keyRotationService.ts: the tables of
--                      backend/migrations/1805000000000_key-rotation-tables.js; Kms has the wrapping of keys,
--                      Execution the retries and the loop over records, Operations the runs and the
--                      service's operations, and the check of `completeKeyRotationBatch` of
--                      backend/src/controllers/keyRotationController.ts.
--   Challenge          backend/src/services/challengeNonceService.ts: the issue and the use of the login's
--                      challenges, with `generateChallenge` of backend/src/services/authService.ts.
--   Idempotency        backend/src/middleware/idempotency.ts: the middleware and the rotation of keys, on `get`
--                      and `set` of backend/src/services/cacheService.ts.
--   Webhooks           backend/src/services/webhookService.ts: a delivery's attempts, retries and re-drives,
--                      in the order that Interleaving gives them, with overlapping runs of
--                      backend/src/services/webhookRetryProcessor.ts; Payload has the size limit,
--                      Subscriptions the subscriptions and their audit rows.
--   Pagination         backend/src/utils/pagination.ts: the limits and the keyset clause, and the rows of
--                      a page of `getRemittances` of backend/src/controllers/remittanceController.ts;
--                      Requests has that handler as a whole, with the query that counts.
--   Signer             backend/src/services/soroban/signerPolicy.ts: validation, the replay guard; Signing has
--                      the signers and their selection.
--   Scheduler          backend/src/services/adaptiveScheduler.ts: the object, its row in the database, and the
--                      methods.
--   LoanEvents         backend/src/services/loanStateEventStore.ts: `foldLoanState`; Log has the append-only log.
--   LoanSchedule       frontend/src/lib/loanSchedule.ts: `reconcilePreview` and what it needs.
--   Gamification       frontend/src/app/stores/useGamificationStore.ts: the store's state and its actions.
--   Base               shared names, tests on numbers, lists, integers, results and association lists.
--
-- The child modules named for a subject (Laws, Rows, Passes, Trial, Persons, ...) hold proofs; each Tests has
-- runs at concrete inputs.
--
-- How the program is read. Clocks, environment, RPC answers, digests, regular expressions and database
-- failures are arguments, so that every statement holds for whatever they give. A method that awaits is cut
-- at the await where another call may come between, except `withStaleRead`, `runSorobanWriteReplayOnce` and
-- `executeRotation`, which are taken as one step each. Numbers are native and whole: times are milliseconds,
-- in Idempotency seconds, and amounts `bigint`, so nothing wraps around. A sum replaces a difference of two
-- times on both sides of a comparison. Loops are structural: `splitProRata`'s `while` counts its leftover
-- down, which is below the number of weights, so the recursion on that number is the loop, without fuel. The
-- retries of a key's rotation run on fuel: it is the number of attempts, and KeyRotation/Fuel proves that
-- it never cuts them off. The digits of a number run on fuel one above the number. A run of the key rotation
-- that schedules another, and a request for the next page, are separate steps: sequences of them are lists.
--
-- Not modelled: the other implementations of the same contracts in SQL (the PostgreSQL queue store), logging,
-- the audit log, timers, the rest of the HTTP layer, the user interface, and the contracts in Rust.
-- `roundToCents` works on binary floating point. Of the webhooks the request itself, `dispatch` and
-- `redactFailureSummary` are left out, and of the pagination the text of a cursor and the offset listings.
-- The indexer, the remaining services and the disclosure of costs have no model here.
pub mod Base
pub mod Money
pub mod Circuit
pub mod WriteQueue
pub mod DualControl
pub mod KeyRotation
pub mod Challenge
pub mod Idempotency
pub mod Webhooks
pub mod Pagination
pub mod Signer
pub mod Scheduler
pub mod LoanEvents
pub mod LoanSchedule
pub mod Gamification
