-- ===== src/Lib.antt =====
-- A model of dankmail's core: the mail daemon's cache, its queue of user actions and its syncs.
--
-- The daemon keeps a local database of accounts, threads, messages and pending operations. Four
-- parts of core/internal/sync work on it. The queue (queue.go) takes a user action, changes the
-- threads at once, and stores the action with a snapshot of the threads. The executor (executor.go)
-- drains the actions of one account in batches against the mail provider, retries them, or gives up
-- and puts the snapshots back. The reconciler (reconciler.go), driven by the poll loop (engine.go),
-- writes what the provider reports over the cache, except threads that an open action holds. The
-- scheduler (scheduler.go) queues the wake-up of snoozed threads, and the janitor (janitor.go)
-- drops old rows. Around it stand the Gmail and the Outlook backend that answer a sync
-- (core/internal/provider), the lists of threads for the user interface (core/repo), the store of
-- drafts that a sync merges into (core/internal/drafts), the addresses of a message
-- (core/internal/mailmime), the event bus, the index of contacts and the store of secrets.
--
-- Files, with the code that each models:
--   Base               helpers: tests, lists, association lists, sublists, members; its child Go
--                      lists the text functions of the standard library as parameters
--   Errdefs            core/errdefs/errdefs.go, retry.go: error trees, kinds, hints
--   Rules              core/internal/rules/rules.go: companion actions
--   Provider           core/internal/provider/provider.go: deltas, drafts, calls
--   Schema             core/ent/schema: tables, and the statements on them; children on its loops
--   Sync/Types         core/internal/sync/types.go: operations and payloads
--   Sync/World         the state that the parts share: database, event log, wake tokens, call log
--   Sync/Queue         queue.go: Enqueue, expand, enqueueOne, applyLocal, revertLocal
--   Sync/Executor      executor.go: Drain and processBatch; its child Calls: call, mergeThreadIDs; its
--                      child Retries: handleFailure
--   Sync/Scheduler     scheduler.go: WakeDue
--   Sync/Janitor       janitor.go: SweepOnce
--   Sync/Reconciler    reconciler.go: apply and frozenThreadIDs; its child Threads: upsertThread and
--                      helpers.go
--   Sync/Engine        engine.go: nextSyncDelay, accountInterval, syncAccount
--   Settings           core/internal/settings/settings.go: Validate, and the store with its file,
--                      which a write that breaks off leaves with any content
--   Gmail/Quota        core/internal/provider/gmail/quota.go: the gate that paces requests
--   Gmail/Errors       errors.go: classify
--   Gmail/Message      gmail.go: parseMessage, extractBody, header
--   Gmail/Delta        gmail.go: threadDelta, and the drafts of a thread
--   Gmail/Checkpoint   sync.go, gmail.go: cursors of a sync and what they hold
--   Gmail/Sync         sync.go: Sync, full and incremental, with its checkpoints
--   Gmail/Mailbox      gmail.go: label edits, search and history pages
--   Microsoft          core/internal/provider/microsoft: errors.go, the delta of a conversation and
--                      the actions in microsoft.go, and sync.go with its checkpoints
--   Repo               core/repo/threads_queries.go, search.go: lists of threads and counters; its child
--                      Order shows why each query gives the rows in one order
--   Drafts             core/internal/drafts/store.go: the map of drafts, the file at its path, and
--                      the errors of reading and writing it; its children: Types, Listing (List),
--                      Merging (MergeRemote), and Saving, Contents and Abstract, which prove what
--                      the store and its file keep
--   Mime               core/internal/mailmime/mailmime.go: recipients, subject, threading headers
--   Bus                core/internal/bus/bus.go: subscriptions with bounded buffers
--   Contacts           core/internal/contacts/contacts.go: IndexMail, the upsert, the search
--   Keyring            core/internal/keyring/keyring.go: Set, Get, Delete and the fallback
--   Tests              runs on small data and instances of the theorems
--
-- A table is the list of its rows in the order of their ids, and a new row takes the next id. An
-- operation of the code is a function on the state; in a transaction an error drops the changed
-- copy. Database statements of the sync package succeed, and the JSON text of a payload or a cursor
-- is the value that it decodes to; that of a list of drafts is the list that it decodes to, which
-- has a replacement character for each stray byte of a snippet. The order that SQLite gives the rows
-- of a query is a parameter with its laws (SqlOrder). Times and durations are nanoseconds since 1970 as
-- natural numbers, and each reading of a clock is an argument. A provider is a parameter: it
-- answers a call from the calls made so far, and a request for changes from the cursor. The Gmail
-- service, the file system and the desktop's secret service are parameters in the same way. In the
-- sync package the bus is the list of what was published; Bus models the subscribers, who lose what
-- does not fit in their buffers.
--
-- Drain and the loop of syncAccount run on fuel, and the result is none when it is used up: `Drain`
-- is to get fuel for two batches more than there are due operations, and a sync for more pages than
-- the provider has left by some measure of its cursors. The wait at the quota gate gets a pass for
-- each nanosecond of the three seconds that it may last. The loops over the pages of the Gmail
-- service get fuel for more pages than some measure of its page tokens leaves. The loop of a Graph
-- sync gets a pass for each of its 25 requests, two for the changes of phase and one to end.
--
-- Not modelled: the ticker loops and goroutines, generated database code, the bytes of a MIME
-- message (regular expressions, quoted-printable and base64 of the standard library), Gmail's
-- drafts and sending, the Google client and the people service, the Microsoft backend's sending,
-- sent history and HTTP client, the snooze presets (they need the calendar of the standard
-- library), sign-in, the socket and its handlers, the HTTP server, the translations and
-- notifications of the desktop, and the user interface.
pub mod Base
pub mod Bus
pub mod Contacts
pub mod Drafts
pub mod Errdefs
pub mod Gmail
pub mod Keyring
pub mod Microsoft
pub mod Mime
pub mod Provider
pub mod Repo
pub mod Rules
pub mod Schema
pub mod Settings
pub mod Sync
pub mod Tests
