-- ===== src/Lib.antt =====
-- Verification of the web application of Heritage Philippines, a travel agency: apps/web.
--
-- The program's core is three groups of features. In payments, apps/web/src/features/payments, staff
-- set a booking's total, propose a plan of installments and approve or withdraw it; a client's
-- payments are recorded, confirmed, reversed and refunded; confirmed money is allocated to
-- installments, and receipts are issued. In leads and assignments, apps/web/src/features/leads and
-- features/assignments, enquiries are created, edited, moved along a pipeline and converted to
-- clients, and staff are assigned to leads, clients and bookings; an active assignment is what lets
-- a travel consultant see and change a record. In bookings, apps/web/src/features/bookings, staff
-- turn a proposal version that the client has accepted into a booking and move it along its
-- statuses. Every mutating operation is one serializable transaction that is tried again after a
-- write conflict (apps/web/src/lib/serializable-transaction.ts), in a catch block; only the creation
-- of a lead is a plain transaction.
--
-- Parts, by file (sources under apps/web/src, the schema under apps/web):
--   Prelude           shared names, Boolean tests, queries on lists, and signed integers.
--   Transaction       lib/serializable-transaction.ts and lib/prisma-errors.ts. Core: failures and the
--                     monad of transaction bodies. Retry: runSerializableWithRetry (`retry_loop`) and
--                     the catch block (`with_handler`). Rules: postconditions of bodies. Laws and
--                     Bound: what the retry guarantees. Runs: equations of bodies that return. Safe:
--                     calls that keep a property of the store. Writes: what a unique index refuses.
--   Payments/Model    the rows of prisma/schema.prisma that the feature uses, PaymentErrorCode.
--   Payments/Audit, Currencies, Calculations   the files of those names.
--   Payments/Repository   repository.ts by table. A function of the source keeps its name in snake
--                     case; Writes says what each write leaves.
--   Payments/Service  service.ts by operation: `..._tx` is the body of the transaction, `..._new` its
--                     rest after the idempotency check, and the plain name the whole call. Reads:
--                     the checks and the replays change nothing.
--   Payments/Ledger   the invariant `IsLedger` on the tables, and each change of a table that keeps it.
--   Payments/Safety   the operations keep the invariant: Status, Record, Refund, Allocation and Frame
--                     for the bodies, Calls for the retry and the catch block, Interleaving for any
--                     order of calls, Bounds and Roles for what follows.
--   Payments/Recording, Confirming, Forbidden   recordPayment and confirmPayment as a whole, branch
--                     by branch, requests with a used key, and payments that the actor does not see.
--   Bookings          features/bookings: Transitions, Model (its tables, errors.ts and
--                     audit.ts), Repository, References (the booking reference and its pattern) and
--                     Service by operation. Life: the invariant `BookingsFit`, for any order of calls
--                     (`BookingsReach`). Moves, Replays, Errors: the status update, calls made again,
--                     and the errors that leave a call. Pages: the client portal's list of bookings.
--   Contacts          lib/contact-normalization.ts; Phones: its laws.
--   Crm               the tables that leads and assignments share, the checks and catch blocks around
--                     their transactions (Calls), and what their writes leave (Writes).
--   Assignments       features/assignments: Model and Audit, Repository, Authorization, Service (the
--                     assignment of travel consultants), Finance (of a booking's finance assignee) and
--                     Listing. Slots: at most one active assignment. Replacing and Answers:
--                     setAssignment as a whole.
--   Leads             features/leads: Transitions, Audit, Repository, Reads, Matches and Conversion for
--                     the repository, and Service by operation: `..._body` is the body of the
--                     transaction, and the plain name the whole call. Lifecycle: the invariant
--                     `LeadsFit`. Kept: what every write keeps, every call of both features keeps, in
--                     any order (`CrmReaches`). Moves, Replay and Scope: the status update, the
--                     conversion, and what an actor may see.
--   Tests, in each part   concrete stores and runs.
--
-- The store is a record of tables, each a list with the newest row first; payments on one side and
-- leads and assignments on the other have a store of their own, of which a booking's assignments are
-- in both. An amount of money is an integer of hundredths: the code's Decimal sums of amounts with
-- two places are exact. Bookings have a store of their own, too, with the assignments as leads have
-- them. Identifiers, idempotency keys and instants are numbers. `World`, `Runtime` and
-- `BookingRuntime` are what the code takes from elsewhere: the reading and the printing of a
-- decimal, dates, toLowerCase, the database's case-insensitive search and its orders of users and of
-- bookings, `randomUUID` by its index in a call and `randomBytes`, both the same in every attempt of
-- a transaction, and the clock; nothing is assumed of them but that a validated amount reads as a
-- positive one (`Validated`, from positiveMoneyAmountSchema), that ten random bytes are ten numbers
-- below 256, and that an order keeps the number of rows. Identifiers need not be fresh: the database
-- refuses a second row of an id, except of the status-history, refund-link and audit rows of
-- payments, whose ids no other row or code refers to and which the model does not compare. The
-- unique indexes are the ids, the booking references, one booking of a proposal version, the
-- idempotency keys, one reversal of an allocation, one active plan of a booking, one receipt of a
-- payment, the receipt numbers, and one active assignment of a lead, of a client, and of a booking
-- in each role; the index of the sequence numbers of a plan is left out, since the service checks
-- the structure before. Foreign keys are not assumed: that references resolve is part of the
-- invariants. The JSON of an audit row of leads and assignments is the list of its keys with typed
-- values.
--
-- A serializable transaction is atomic: other transactions act before an attempt (`Attempt.others`),
-- and the database decides how the attempt ends (`Attempt.outcome`): it commits, or it reports a
-- write conflict, a unique violation or another error and rolls back. The replay after a lost race
-- is a read of a later store (`Schedule.settled`). The reads that a call of leads makes before its
-- transaction see one store. The retry has three attempts, so `retry_loop` recurses on the two that
-- may follow the first, and needs no fuel; so does the loop of createBooking over three references
-- (`create_loop`), where each turn has its own random values and schedule. All other loops recurse
-- on a list.
--
-- Not modelled: the texts of error messages, the backoff delay, the payment reads for pages (booking
-- lists and headers, the nested query behind a summary, receipts in a summary), the finance exports,
-- the schemas but for their bounds on amounts, the client portal's other reads of bookings, and the
-- other features of the application.
pub mod Prelude
pub mod Transaction
pub mod Payments
pub mod Contacts
pub mod Crm
pub mod Assignments
pub mod Leads
pub mod Bookings
