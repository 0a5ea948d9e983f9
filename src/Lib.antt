-- ===== src/Lib.antt =====
-- The core of the oculus-business backend (TypeScript, backend/src): the rules of the sales
-- funnel, offers and bans on contact, receipts of money, the accounts and sessions of its users, the
-- checks of agents and people, repeated requests, the task outbox and the rate limits.
--
-- The parts, and how they interact:
-- - Common: Boolean tests, lists, sorting and integers over the native numbers; Text, a JavaScript
--   string as the list of its code units, with `trim`; Outcome, `BusinessFailure` of
--   backend/src/modules/business/domain/errors.ts.
-- - Sales: the pure rules of backend/src/modules/business/domain/sales-rules.ts, which the sales
--   service calls before it writes. Transition is `evaluateTransition`; Contact the two checks of
--   bans on contact; Pilot the activation of pilots, the contribution of a deal and the sending of
--   drafts; Tasks `nextActionFromOpenTasks`; Import `matchImportCandidate`. Drafts is the operations
--   on offers, their content hash and the bans as they are set and lifted: the service
--   (sales-service.ts) over the tables (sales-repository.ts, sales-repository-v2.ts), with the
--   checks of Contact, Pilot and Access.
-- - Idempotency: `withIdempotency` of the sales service with the statements of
--   sales-repository-v2.ts; it wraps any operation on any state.
-- - Finance: Receipts is the ledger of expected payments and transactions, under receipts,
--   reversals and the plain edits (sales-repository.ts, sales-repository-v2.ts,
--   business-repository.ts, business-service.ts); the service takes a receipt under Idempotency.
--   Forecast is the balance and the months of backend/src/modules/business/domain/forecast.ts, over
--   the same transactions.
-- - Board: the order of deals and of development tasks on their boards, and the moves between
--   stages (business-repository.ts). Both boards are instances of one interface, Card.
-- - Uploads: the avatars of backend/src/modules/uploads. Format is image-format.ts; Service is
--   avatars-service.ts over the transactions of avatars-repository.ts, which are in Uploads; Cleanup
--   is the statements of the job `uploads:pending:cleanup` of backend/src/jobs.ts, and Steps lets them
--   interleave with the requests. Images says what an image is, apart from the code.
-- - Identity: the tables of users, sessions and reset tokens (backend/prisma/schema.prisma) with
--   the statements of backend/src/modules/auth/infrastructure/auth-repository.ts and
--   backend/src/modules/users/infrastructure/users-repository.ts. Sessions is `refresh`,
--   `authenticateAccessToken` and `logout` of
--   backend/src/modules/auth/application/auth-service.ts; Reset is `deliverPasswordReset` and
--   `confirmPasswordReset`; Roles is `updateRole` and `updateAgentPermissions`.
-- - Access: backend/src/modules/business/application/permissions.ts with its table of routes, and
--   `assertCapability`, `assertHumanOnly` and `assertRouteAllowed` of
--   backend/src/modules/business/application/sales-service.ts. It reads the users of Identity.
-- - Outbox: backend/src/outbox. Store is the table of tasks and its statements (store.ts); Retry
--   the delays and leases (retry-policy.ts); Drain the pass of the worker over claimable tasks
--   (drain.ts, handlers.ts), which calls Store. A confirmed reset queues its notice there.
-- - RateLimit: backend/src/rate-limit. Memory is the store of one process (memory-store.ts),
--   Database the shared counters (database-store.ts).
--
-- How code corresponds to definitions: a function of the source in camelCase is the definition of
-- the same name in snake_case. A table is a list of records, a statement or transaction of the
-- database one function on it. Where another request
-- can come between two statements, the function is written as its parts (`begin_refresh` and
-- `finish_refresh`), or takes the tables twice, as its reads find them and as its write finds them
-- (the operations on drafts, whose several reads find the same tables), or the statements are steps
-- of a relation (`Step` and `Reach` of the outbox, of the ledger, of drafts and of avatars). The
-- other operations run undisturbed. Identifiers, hashes, tokens, keys and addresses are only
-- compared by the code and are natural numbers; times are milliseconds. A difference `a - b < c` of
-- times is written `a < c + b`, since the subtraction of natural numbers stops at 0. A thrown
-- failure is a value.
--
-- Bounds and fuel: a pass of the drain runs at most `max_loops` rounds, the bound of the source
-- itself, so its fuel is the source's own; all other loops are recursion on a list.
--
-- Parameters: the hash, family and rotation of refresh tokens, the verification of access tokens,
-- the hash of reset tokens and passwords, what the mail provider does, and what a task's handler
-- does; what the object storage holds; which statements of a pass of the drain throw, and whether the
-- write that takes back a reset token does; how many days a month has; for drafts, `toLowerCase` and
-- `JSON.stringify` of the JavaScript runtime. They are code of libraries or of services.
--
-- Not modelled: the creation of sessions (`login` and `register`) and the jobs other than the
-- cleanup of uploads; routes, schemas and rendering (they pass values on); the log of agents'
-- successful operations; the rest of the sales service and of its repository; the statistics of the
-- funnel; the average burn and the runway of the forecast; backups and scripts (input and output);
-- the web application and the website.
pub mod Common
pub mod Sales
pub mod Outbox
pub mod RateLimit
pub mod Identity
pub mod Access
pub mod Idempotency
pub mod Finance
pub mod Board
pub mod Uploads
