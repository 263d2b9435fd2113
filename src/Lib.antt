-- ===== src/Lib.antt =====
-- Verification of Vanguard Settlement Engine: invoice financing with virtual accounts.
--
-- The program. A supplier submits an invoice, its buyer approves it with a signature, the supplier
-- requests financing, the risk engine assesses it, and a virtual account is opened to which the buyer
-- pays. The services (core/services) read and write PostgreSQL through repositories
-- (core/repositories), each write of a service in a transaction of its own, and hand jobs to two
-- queues. Requests come in through the middleware of services/middleware, where errors become
-- responses.
--
-- The files.
-- - Base: names of the libraries, Boolean tests, lists over the native numbers, `trim` and `length` of
--   texts.
-- - Domain, Errors: core/domain/entities.ts, core/domain/auth.types.ts, and what the program throws.
-- - Database: the tables and the use of the pool. Session has `pool.query`, `client.query`, BEGIN,
--   COMMIT, ROLLBACK and `queue.add` over a state with the committed tables, the open transaction's
--   copy, the failures to come and the jobs. Atomic, Transaction and Calm relate a transaction to its
--   statements; Hoare, Quiet, Jobs, Preserves and Guards are the rules that the services' proofs
--   apply.
-- - Repositories: core/repositories/{invoice,event,van,organisation}.repository.ts.
-- - Invoice: core/services/invoice/state-machine.ts (StateMachine), core/services/invoice.service.ts
--   (Service, with proofs in Requests, Submission and Resubmission), and the audit trail as the source
--   of the statuses (History).
-- - Risk: core/services/risk. Types, ThreeWayMatch, Anomaly, BuyerRisk, Engine and Service are the files
--   of that folder; Records has what the service writes.
-- - Van: core/services/van.service.ts (Service), the books (Ledger), and what payments do (Payments,
--   Receipts, Retries, Outcomes) and openings (Openings).
-- - System: every call of the services that writes, in any order and with any failures (Calls, Run). Book
--   is what the books promise, as a machine with two kinds of step; Refinement relates the tables to it,
--   and Trail has what only grows.
-- - Auth: core/services/auth.service.ts; its queries are Repositories/Credentials
--   (core/repositories/auth.repository.ts). Orphans has a registration that fails half-way.
-- - Api: services/middleware/{error-handler,authenticate,idempotency,webhook-auth}.ts,
--   services/middleware/rate-limiter.ts (Limits) and core/repositories/idempotency.repository.ts. Schemas
--   and Routes are services/routes/{invoice,van,risk}; the children Submission, Auth, Admin and Health of
--   Routes are POST /invoices and services/routes/{auth,admin,health}. Sessions is about a login's token
--   at the routes.
-- - Infra: infra/pdf/receipt-generator.ts (Currency, Receipt), infra/email and its template (Mail), the
--   registry, the options, the handlers and the worker of infra/queue (Worker),
--   infra/queue/failed-jobs.repository.ts (FailedJobs) and infra/queue/redis-connection.ts (Redis).
-- - Server: services/app.ts, the routes put together, and what any sequence of requests does: to the
--   books (Consistency, over Rules and Handlers), and without a token (Outsiders, over Cancelled).
-- - Tests: concrete requests.
--
-- Conventions. A function or method `fooBar` is `foo_bar`. A UUID is a number, as the program only
-- compares them, and so are a date (milliseconds) and an amount (paise): the schemas of
-- services/routes admit no negative or fractional amount, and a BIGINT that would overflow is an error
-- of the statement. `Number(x)` of a BIGINT is read as exact. A percentage is an exact fraction where
-- the source has a double. How a UUID and a date are written, the generated account number,
-- identifiers and the clock are arguments; one reading of the clock serves a call. The payloads of
-- events and jobs and all logging are left out.
--
-- PostgreSQL, the queues, `bcrypt`, `jsonwebtoken` and Node's `crypto` are not part of the repository.
-- A statement is read off its text and the constraints of infra/db/migrations, in the order type,
-- CHECK, UNIQUE, foreign key. Which calls fail is a list of Booleans that every theorem takes for any
-- list; a COMMIT that fails has not committed. The requests' transactions run one after the other, as
-- the row locks and unique indexes make them; what a request has read before its transaction may be
-- overtaken, so a payment's transaction also runs with any reading of the account. `jwt.verify`,
-- `jwt.sign`, `bcrypt.compare`, the hash of a password, the HMAC of a body and `JSON.parse` on a body
-- are arguments. `toLowerCase` is that of ASCII, which the schemas' e-mail addresses are. So are zod's
-- test for an e-mail address, the address that `express-rate-limit` keys by and whether a key is over
-- its limit, and how `Intl` writes a date and, in an e-mail, an amount. BullMQ's queues are any type with
-- its four operations; a queue's name is looked up among the map's own keys. `toLocaleString('en-IN')`
-- with two decimals is written out, on the exact quotient by 100, which two decimals of a double are
-- below 2 ^ 46 rupees. A receipt is the list of what is drawn, without what pdfkit makes of it.
--
-- Loops. The polling of the idempotency middleware runs over a list with what other requests do in each
-- interval, and the attempts of a job over a list with a reading of the clock for each. The lists have
-- any length, so no bound is chosen; the digits of an amount are written on fuel that is one more than
-- the number of rupees, which has no more digits than that. Every function is total.
--
-- Not modelled: failures of a webhook's stream, the parser of other bodies than a
-- webhook's, and what only constructs objects or does I/O (mail transport, pdfkit, workers and their
-- shutdown, server, environment, logging, telemetry).
pub mod Base
pub mod Domain
pub mod Invoice
pub mod Risk
pub mod Errors
pub mod Database
pub mod Repositories
pub mod Van
pub mod System
pub mod Api
pub mod Infra
pub mod Server
pub mod Tests
pub mod Auth
