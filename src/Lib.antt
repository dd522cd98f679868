-- ===== src/Lib.antt =====
-- Verification library of royalvibe-cosmetic, a multi-tenant shop: the NestJS service under api/
-- and the Next.js client under web/. It models the service's stateful core: the storage quota of an
-- organization, its subscription and the payments of it, its sales with the stock that they take,
-- the permissions of its members and the limiter of its reports, and of the client the sales made
-- offline: their policy, their outbox and its synchronisation.
--
-- Parts and files
--   Common           names, tests, lists, integers and dictionaries that the other modules share.
--   Storage          api/src/storage-quota, with the deletion of api/src/s3/s3.service.ts.
--     Model          the registry `storage_objects`, the counters `storage_usages`, the documents that
--                    refer to a file, and the answers of the storage.
--     Registry       the queries on the registry (findOne, updateOne, findOneAndDelete by `_id` and state).
--     Cycle          ensureUsage, reserve, markUploaded, abandonReservation, attach, detach, release,
--                    deleteDetached and discard of storage-quota.service.ts.
--     Recovery       recover, recoverEntry, postpone, reserveOrReject and store.
--     Reconcile      recompute, countExisting, countUntracked, the transaction of reconcileOrphans, usage.
--     Accounting, Preserve, CycleConsistency, RecoveryConsistency, ReconcileConsistency, Recount,
--     Upload, Ownership, OwnershipRecovery, Trace, Safety: the theorems; Trace has the step relation of
--     all transactions.
--   Subscriptions    api/src/subscriptions.
--     Calendar       the language's `Date` in UTC; Instants its conversion from milliseconds.
--     Months, State  subscription-terms.ts and the access view of subscription-access.ts.
--     Requests       validate of subscriptions.service.ts; Grants its grants, the trial and the
--                    repetition of a transaction.
--     Coverage, Chain, Renewal, Replay, Growth: the theorems.
--   Payments         api/src/subscriptions/payments and subscription-pricing.ts.
--     Model          `subscription_payments` and what a provider answers; Registry the queries on them
--                    under the unique indexes.
--     Requests       prices, phone numbers, references and payment-concordance.ts.
--     Writes         transition, markReview, the writes of recordPending and recordFailure,
--                    grantAndMarkSucceededInSession and the transaction of finalize.
--     Service        recordPending, recordFailure, finalize and confirmPayment; Initiation createPayment.
--     Trace          one step for each write and each committed transaction.
--     Machine        the table of the statuses of docs/architecture/phase-1-14d2b-subscription-payments.md
--                    (section 3), with two edges that the code has and the table does not: initiating to
--                    succeeded, and failed to review.
--     Lists, Effects, Steps, Progress, Soundness, Invariant, Handlers, Reservation, Confirmation,
--     Delivery, Concordance, Rest, Outcomes, Exclusive, Replay, Recall, Repetition,
--     Phones: the theorems.
--   Sales            api/src/sales, decrementStock and adjustStock of api/src/products/products.service.ts,
--                    and api/src/push/stock-thresholds.ts.
--     Model          the documents and the stock operations; Service has create and
--                    replay, Edits update and remove, Effects the audits and push events.
--     Stock, Adjustment, Balance, Creation, Changes, Replay: the theorems.
--   Offline          the offline sales of web/src/lib.
--     Policy         offline-sales-policy.ts: the answers, delays and actions; Safety and Corrections
--                    what they guarantee.
--     Outbox         offline-sales-outbox-db.ts: the two object stores, the accesses to one record, withTx
--                    and verifiedPartition; Enqueue enqueueOfflineSale; Transactions countSendable,
--                    preparePartition, getHeadPending, updateOperation and setPartitionBlocked; Actions
--                    clearSubscriptionBlock, the lease, applyOperationAction, deleteUserOperations and
--                    expeditePartition.
--     Decisions      offline-sales-sync.ts: belongsToSession, sessionGuard and the cases of applyDecision;
--                    Sync processPartition, one Round for each turn of its loop.
--     Trace          one step for each transaction of the outbox.
--     Effects, Numbering, Invariant, Steps, Rewritten, UserSteps, EnqueueSteps, SyncSteps, Sending,
--     Measure, Turns, TurnEnds, Termination, Limit: the theorems.
--   Organizations    api/src/organizations/permissions.ts (Permissions) and its guarantees (Escalation).
--   Reports          api/src/reports/report-generation-limiter.ts (Limiter) and its bounds (Bounds).
--   Tests in each part hold runs and the theorems at concrete inputs.
--
-- Interaction. An inactive subscription takes from a sale the right to new writes (the argument
-- `new_writes_allowed` of `create`). A sale writes stock, sale, operation, audit and events in one
-- transaction. A file is reserved, sent, counted and then attached to a product or an organization.
-- A confirmed payment grants a period of the ledger of Subscriptions and is marked in one
-- transaction.
--
-- The outbox of the client numbers the sales of a partition; a pass sends its head, with the
-- identifier that makes `create` of Sales answer a repetition without a second sale.
--
-- Correspondence. A transaction is a function from the collections to the collections or an error;
-- an error leaves the old ones. The clock, fresh identifiers, and what the database, the driver and
-- the object storage answer are arguments. What other requests commit between two transactions of
-- one request is an argument, a function on the collections. A document is found by its `_id`,
-- which is unique. Counters that `$inc` may take below zero are integers; other numbers are natural
-- numbers. The identifiers of the database are texts. The digests of a sale's and of a payment's
-- request are any functions. The random factor of a delay is taken in thousandths.
--
-- Loops and bounds. The loops run over lists, and the repetition of a grant over the five attempts
-- of MAX_GRANT_ATTEMPTS: every definition is total. The loop of processPartition runs over a list
-- of rounds, each of which holds what the browser, the server and the other tabs do in one turn;
-- its result is `unfinished` when the list is used up, and Termination shows how long a list is
-- enough. A failure of the browser's stores within a pass ends it after some of its transactions
-- and is not modelled apart. Dates begin in 1970. Numbers do not reach 2 ^ 53, where the language's
-- arithmetic stops being exact.
--
-- Not modelled: the adapter of one payment provider and the reconciliation of an operator (which
-- alone takes a payment out of review), the lists of the offline outbox for display, the lock around its synchronisation and the state of a
-- tab, invitations, the contents of reports, push notifications, authentication, the loops of the
-- reconciliation commands, display, configuration and migrations; fractional quantities of a
-- changed sale; socket events, which follow the commit and write nothing.
pub mod Common
pub mod Offline
pub mod Storage
pub mod Organizations
pub mod Reports
pub mod Payments
pub mod Sales
pub mod Subscriptions
