-- ===== src/Lib.antt =====
-- expensesapp keeps the accounts, categories, transactions and budgets of a household in the
-- browser's IndexedDB, through Dexie, and shares them, encrypted, with the other devices of a
-- family. A write of src/services/balance.service.ts changes transactions and the stored balance of
-- their accounts in one database transaction; src/services/sync/push-helpers.ts then queues the
-- rows that changed; src/services/sync/engine.ts encrypts them into an outbox, pushes the outbox in
-- batches, and settles what the server accepts and what it refuses; src/services/sync/merge.ts
-- merges a refused edit with the server's.
--
-- Files and the code they model:
--   Prelude       the names that all share; JavaScript texts as UTF-16 code units; integers.
--   Storage       Dexie's tables, a package outside the repository, as an interface with the
--                 documented behaviour of each call; Storage/ListStore is a table as a list.
--   Models        src/db/models.ts: the rows.
--   Ledger        src/services/balance.service.ts. Delta is getBalanceDelta; Database the two
--                 tables, the errors and `db.transaction`; Single the writes of one transaction;
--                 Transfer those of two legs; Opening the opening balance of an account, which is
--                 its stored balance less the effects of its transactions; Moves how a step moves
--                 both, which the proofs on transfers add up; Atomic all writes, and
--                 History sequences of them.
--   Sync/Merge    src/services/sync/merge.ts; Fresher says without its code which side wins a field.
--   Sync/Records  src/services/sync/types.ts and the sync rows of src/db/models.ts.
--   Sync/Tables   recordMappings, syncCursors and pendingUploads of src/db/database.ts.
--   Sync/Cursor   src/services/sync/cursor.ts.
--   Sync/Identity src/services/sync/record-mapping.ts.
--   Sync/Outbox   src/services/sync/engine.ts: Enqueue is enqueuePush, Conflict resolveConflict and
--                 applyTombstoneByLocalId, Batch flushBatchOnce, Flush flushOutbox and
--                 retryTerminalUploads.
--                 Kept, Settled, Queued, Keys, Contiguous and Backoff are proofs on them.
--   Sync/PushHelpers  src/services/sync/push-helpers.ts and getLocalFamilyId.
--   Sync/Pull     src/services/sync/engine.ts: Pull finds the local row and corrects balances, and
--                 has setLocalFamilyId; Upsert is upsertPulledTransaction, its tombstone,
--                 upsertPulledAccount and upsertDomainRow; Write is writeDecryptedRecord; Pages is
--                 pullSince. Moved, Balances, Accounts, KeptCursors, Prefix, Drained and Redelivery
--                 are proofs on them.
--   Sync/Sse      src/services/sync/sse.ts, each callback of the browser as a step; Reached is what
--                 the steps come to, Stopped what they do after `disconnect`.
--   Validation    the row schemas of src/utils/validation.ts.
--   CurrencySearch  src/utils/currency-search.ts.
--   MathParser    src/services/math-parser.ts.
--   Integrity     src/services/integrity.service.ts.
--   Reporting     src/utils/transaction-utils.ts.
--   Backup        createBackup of src/services/backup.service.ts; Backup/Restore the restores, with
--                 src/utils/backup-validation.ts.
--   Logging       src/services/log.service.ts: what its calls, its microtask and the end of its
--                 write do to the variables of the module; Flushed has them as steps.
--   Examples      concrete tables, and the theorems at concrete inputs.
--
-- A function takes the tables and returns them. What a write can throw is a result; the pushes that
-- follow a committed write are a list in their order. Money is an integer of minor units, as the
-- code keeps it. A write reads the clock once. The bytes of a cursor are numbers below 256 and its
-- words wrap at 2^32, as `setUint32` writes them.
--
-- The loop over batches in flushOutbox runs on fuel, one unit for each batch, since nothing in the
-- code bounds it: the server decides when it ends. Its flush on request runs once, as no request
-- arrives while a flush of the model runs.
--
-- The loop over pages in pullSince runs on fuel, one unit for each page; one more than the pages
-- that remain on the server is enough.
--
-- Parameters: Dexie's tables, the crypto worker, JSON and the text codecs, base64, `Date.parse`,
-- the server, the structural part of the schema package, JavaScript's change of case, and
-- floating-point arithmetic. A failed write of Dexie is a parameter of the ledger, as is a push that
-- throws after it, and of enqueuePush; it is left out of the other sync tables, where only a unique
-- index refuses a row. What the other parts log is left out.
--
-- Not modelled: the engine's reactions to live events, the schedule of backups and exports,
-- the trimming and the download of the log, exchange rates and debt payments (floating-point
-- numbers), the HTTP clients, the crypto worker, the user interface, and the backend, which is
-- another program.
pub mod Prelude
pub mod Storage
pub mod Models
pub mod Ledger
pub mod Sync
pub mod Validation
pub mod CurrencySearch
pub mod Reporting
pub mod MathParser
pub mod Integrity
pub mod Backup
pub mod Logging
pub mod Examples
