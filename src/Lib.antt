-- ===== src/Lib.antt =====
-- Syncio: an embedded database with a write-ahead log (src/index.js, src/wal.js), documents over it
-- (src/document.js), indexes over it (src/indexed.js), policies (src/policy-compiler.js), the control
-- plane (src/control-plane.js), and the tools that run it (src/operations.js).
--
-- Base/      shared names: Boolean tests, lists on native numbers, results of calls that may throw
--            (`Error` tells the thrown errors apart), and objects used as dictionaries.
-- Json       JavaScript values and the checks of a record, a collection name and an identity
--            (validateRecord, assertJsonCompatible, validateCollectionName, validateId).
-- Change     the changes that callers ask for and the events that are committed.
-- Json.Text  what JSON.stringify and JSON.parse give back of a value.
-- Wal        src/wal.js: `append`, `read_entries` (readWalEntries), `list_after` (listAfter),
--            `compact_through` (compactThrough), `reset`. A file is a list of lines, of which the model
--            has what JSON.parse makes, and a flag for a torn tail.
-- Database/  src/index.js, SyncioDatabase:
--            State (the state, what a file may hold, normalizeState), Events (appendChange,
--            pruneChangeMetadata), Replay (applyEventToState, replayWal, readStateWithRecovery, open),
--            Commit (commitDraft, checkpointNow, publish, replaceState, close), Collection (insert,
--            upsert, remove, get, all, watch), Transaction (transaction, createTransactionApi,
--            diffCollections), Feed (changesSince, resumeStatus, watchChanges), Replication
--            (applyReplicationChange, hasAppliedChange), Run (histories of calls).
-- Document/  src/document.js, on JavaScript values: Path (getPath, readDirectPath, setMutable,
--            deletePath), Match (matchesDocument, matchesCondition), Update (applyDocumentUpdate), Project (projectDocument),
--            Aggregate (aggregateDocuments and its stages), Runtime (what these use of the language).
-- Control/   src/control-plane.js, over the transactions of Database: Plans, Texts (addresses and names),
--            Records (what the methods use of the database), Accounts (createAccount, deleteAccount,
--            exportAccount), Projects (createProject, changePlan, entitlements), Billing
--            (BillingStateProcessor.process). Its transactions are trees of calls, `Work`.
-- Policy/    src/policy-compiler.js: Conditions (compiled and interpreted), Compiler (normalizeSource,
--            evaluateIr, interpretPolicy, differentialPolicyCheck); src/resource-policy.js: Resource (rules,
--            the decision, reads, writes and the constraint of a query).
-- Indexed/   src/indexed.js, IndexedSyncioDatabase over Database: Indexed (DocumentIndex: add, remove,
--            rebuild, find), Catalog (normalizeDefinitions, publicDefinition), Query (explainQuery,
--            query, and queryRecords of src/advanced.js), Guard (the check of unique indexes and
--            #transactionProxy), Tables (the state, #rebuildCollection, #updateIndexes), with
--            Tables.Writes (insert, upsert, remove, transaction, replaceState,
--            applyReplicationChange) and Tables.Define (defineIndex, dropIndex, listIndexes).
-- Operations/  src/operations.js: Queue (DurableOfflineQueue: enqueue, flush), Tokens
--            (createTokenAuthority, createEntitlementGate), Metrics (MetricsRegistry), Backup
--            (createEncryptedBackupManager).
-- DocumentApi  src/document-api.js: a document's update in a transaction, the aggregation of a collection.
-- Provenance  src/write-provenance.js: the normal form of a write's provenance.
-- Admission  src/resource-control.js: ConcurrencyAdmissionController (`enter` and the function it gives).
--
-- The database keeps its state in memory and two files: a checkpoint of the whole state and a log of the
-- commits behind it. A write decides a draft and its events, appends them to the log, replaces the
-- state, and publishes the events; every so many commits it writes a checkpoint and compacts the log.
-- Each operation takes an `Io`, which says what the file system does with the line, the checkpoint and
-- the compaction, so every failure is a case. The queue of the source runs the operations one after
-- another, so a history is a list of calls.
--
-- Parameters: the digest (SHA-256 of the payload's JSON); isDeepStrictEqual (`Equality`), as an
-- equivalence that respects texts, arrays, truth and properties; the arithmetic and the order of
-- values and JSON.stringify (`Runtime`, `Order`); what JSON.parse makes of the text of a value
-- (`KeepsExact`); toLowerCase, hashEmail and the text of a value
-- that is no text (`Host`); fresh identities and the clock (`Env`, `Call`); the callbacks of policy
-- rules; the resolver of a foreign change; legacyChangeId, a digest; and JSON text, base64 and
-- base64url, HMAC, SHA-256 and AES-256-GCM (`Codec`, `Vault`). Numbers are native; a sequence is
-- bounded by Number.MAX_SAFE_INTEGER, which append checks. The loop of `flush` has fuel, a round
-- for each item and one more, since each round but the last takes an item off; every other loop is
-- over a list or a value.
--
-- Not modelled: taking a listener away again; the provenance that wal.js adds to events; properties
-- that an object inherits, so that an identity such as "constructor" is like any other, but for the
-- walk of setMutable, which meets them (what it writes into Object.prototype is not modelled); holes
-- of arrays; the order that JavaScript gives to keys that are array indices; JSON text: a file or a
-- line stands for the text of what was written, and is read as that, as it is where the values are
-- ones that JSON keeps (Json.Text has them; the database checks its records, up to the sign of a
-- zero, but replaceState, the events that are given to append, and enqueue are not checked, so that
-- the theorems about these ask for such values or speak of the text); failures of the file system
-- while a database is opened; a sort whose comparison is not consistent (it is given as a stable
-- insertion); another commit between a read of the control plane and its transaction; the tokens of
-- the control plane; what is enqueued while a queue is flushed; the version of a policy; invoices
-- and payments; the audit log, the observer of requests and authenticateRequest of
-- src/operations.js; what src/advanced.js has beside queryRecords; the servers, the protocol and the
-- other modules of src/.
pub mod Base
pub mod Json
pub mod Change
pub mod Wal
pub mod Database
pub mod Admission
pub mod Control
pub mod Document
pub mod DocumentApi
pub mod Indexed
pub mod Operations
pub mod Policy
pub mod Provenance
