-- ===== src/Tests/Reconciler.antt =====
-- The reconciler, the retention job and the poll loop.
use dankmail.Base.{
  ◌<◌, Bool-cases, inl, inr, ℕ, not, ◌++◌, ◌||◌, List, map, insert, update_where, ◌*◌, Bool, true,
  false, String, [], ◌∷◌, ◌≡◌, ◌↔◌, refl, arith, none, some, All, contains, select, ◌==◌, string_eq,
  if◌then◌else◌,
}
use dankmail.Errdefs.{Failure, Result, ok, err, plain}
use dankmail.Provider.{ThreadDelta, Changes, MessageDelta}
use dankmail.Schema.{update_thread, Cache, Thread, find_thread}
use dankmail.Schema.Deletion.{has_row}
use dankmail.Schema.Lookup.{IsWellFormed}
use dankmail.Sync.World.{World, publish}
use dankmail.Sync.Queue.{enqueue_one, apply_local, op_threads, change, snapshots, snapshot_state}
use dankmail.Sync.Executor.{find_account}
use dankmail.Sync.Janitor.{new_janitor, sweep_once, hour}
use dankmail.Sync.Janitor.Sweep.{sweep_once_retention, IsProtected}
use dankmail.Sync.Reconciler.WellFormed.{apply-IsWellFormed}
use dankmail.Sync.Reconciler.Snapshot.{apply-snapshot}
use dankmail.Sync.Reconciler.Known.{stored_ids}
use dankmail.Sync.Reconciler.Arrivals.{fresh, upsert_thread-arrivals}
use dankmail.Sync.Reconciler.{
  is_stale, seen_ids, arrival_of, apply, frozen_thread_ids, apply_with, transact, upsert_all,
  upsert_thread, upsert_row, is_real_change, resnooze, time_from_unix, overwrite, ingest_all,
  ingest, add_message, find_message, set_paperclip, remove_all, publish_arrivals,
}
use dankmail.Sync.Reconciler.Frozen.{SameState}
use dankmail.Sync.Reconciler.Frozen.Pass.{apply-frozen}
use dankmail.Sync.Engine.{Syncer, sync_account, take_page, go_on}
use dankmail.Sync.Engine.Ending.{first_cursor, sync_account-total}
use dankmail.Sync.Engine.Resume.{sync_account-resume, Ready, start, page, cut}
use dankmail.Tests.Samples.{ada, cache, cache-IsIndexed, world, archive_op, queued, thread}

abbrev message : String → MessageDelta
message id = record {
  message_id = id;
  rfc822_message_id = id;
  is_sent = false;
  from = "bob@example.org";
  to = "ada@example.org" ∷ [];
  cc = [];
  date = 0;
  snippet = "";
  body_text = "Hello";
  attachments = [];
  reply_headers = [];
}

abbrev delta : String → ThreadDelta
delta id = record {
  thread_id = id;
  subject = "Notes";
  snippet = "new";
  last_message = 0;
  participants = [];
  unread = false;
  starred = false;
  in_inbox = true;
  labels = [];
  message_count = 1;
  messages = message "m1" ∷ [];
}

abbrev changes : Bool → Changes
changes incomplete = record {
  incomplete = incomplete;
  snapshot_thread_ids = [];
  full_resync = true;
  backfill = false;
  upserted = delta "t1" ∷ delta "t3" ∷ [];
  removed_thread_ids = "t1" ∷ [];
}

sweep_once_retention_example :
    All
      (λ t.
        (has_row t.id (sweep_once (new_janitor 1) (25 * hour) cache).threads ≡ true)
        ↔ IsProtected (new_janitor 1) (25 * hour) cache t)
      cache.threads
sweep_once_retention_example =
    sweep_once_retention (new_janitor 1) (25 * hour) cache cache-IsIndexed

abbrev asleep : Thread
asleep = record (thread 1 "t1") { snoozed_until = some 500; in_inbox = false }

-- A new label on a snoozed thread that left the inbox elsewhere: it stays asleep.
abbrev relabelled : ThreadDelta
relabelled = record (delta "t1") {
  last_message = 0;
  message_count = 1;
  unread = asleep.unread;
  starred = asleep.starred;
  in_inbox = false;
  labels = "Travel" ∷ [];
}

still_asleep :
    ((upsert_row 1 relabelled false (some asleep) cache).0.snoozed_until ≡ some 500)
    × ((upsert_row 1 relabelled false (some asleep) cache).0.in_inbox ≡ false)
unfolding upsert_row overwrite is_real_change resnooze time_from_unix
still_asleep = (refl, refl)

abbrev archiving : World
archiving = record world { cache = record cache { pending_ops = queued 1 archive_op ∷ [] } }

archiving_well : IsWellFormed archiving.threads archiving.next_thread
archiving_well = record { indexed = cache-IsIndexed; fresh = (omega arith, (omega arith, tt)) }

apply-frozen_example :
    (u : Thread) × (find_thread 1 "t1" (apply 1 (changes false) (some "next") 9 archiving).threads
      ≡ some u)
    × SameState u (thread 1 "t1")
unfolding find_thread frozen_thread_ids contains select
apply-frozen_example =
    apply-frozen (thread 1 "t1") (changes false) (some "next") 9 archiving archiving_well refl refl

abbrev no_changes : Bool → Changes
no_changes incomplete = record (changes incomplete) { upserted = []; removed_thread_ids = [] }

abbrev mailbox : Syncer
mailbox cursor =
    if cursor == ""
    then record { changes = no_changes true; cursor = "p1"; failure = none }
    else record { changes = no_changes false; cursor = "p2"; failure = none }

abbrev paged : World
paged = (take_page 1 9 (mailbox "") "" world).0

first_page : take_page 1 9 (mailbox "") "" world ≡ (paged, go_on "p1")
unfolding take_page
first_page = refl

sync_account-resume_example :
    (sync_account (some mailbox) 1 9 false none (cut 0 (plain "canceled")) 1 world
      ≡ some (paged, some (plain "canceled")))
    × Ready 1 "p1" paged
    × (sync_account (some mailbox) 1 9 false none (λ j. none) 5 paged
        ≡ sync_account (some mailbox) 1 9 false none (λ j. none) 6 world)
unfolding find_account
sync_account-resume_example =
    sync_account-resume mailbox 1 9 0 "" "p1" world paged
      (record { row = ada; found = refl; is_active = refl; at = refl })
      (page 0 "" "p1" "p1" world paged paged first_page (start "p1" paged)) (plain "canceled") 5

-- An operation that is queued after the frozen ids were read, and before the transaction of the sync:
-- the sync moves the thread back to the inbox, with the operation still pending.
abbrev refreshed : Changes
refreshed = record (no_changes false) { full_resync = false; upserted = delta "t1" ∷ [] }

abbrev inbox_of : Result Cache → List Bool
inbox_of (err e) = []
inbox_of (ok c) =
    map (λ t. t.in_inbox)
      (apply_with 1 refreshed none 9 (frozen_thread_ids 1 cache.pending_ops)
        (record world { cache = c })).threads

overtaken : inbox_of (enqueue_one 5 archive_op cache) ≡ true ∷ true ∷ []
unfolding enqueue_one apply_local op_threads select contains update_thread update_where change
    snapshots snapshot_state insert apply_with transact upsert_all upsert_thread upsert_row
    find_thread overwrite is_real_change ingest_all ingest add_message find_message set_paperclip
    remove_all publish_arrivals publish frozen_thread_ids
overtaken = refl

upsert_thread-arrivals_example :
    (upsert_thread 1 (delta "t1") false true cache).1
    ≡ map
        (arrival_of 1 (delta "t1"))
        (select (λ m. not m.is_sent) (fresh (stored_ids 1 cache.messages) (delta "t1").messages))
unfolding upsert_row find_thread
upsert_thread-arrivals_example = upsert_thread-arrivals 1 (delta "t1") false true cache

apply-IsWellFormed_example :
    IsWellFormed
      (apply 1 (changes false) (some "next") 9 archiving).threads
      (apply 1 (changes false) (some "next") 9 archiving).next_thread
apply-IsWellFormed_example =
    apply-IsWellFormed 1 (changes false) (some "next") 9 archiving archiving_well

apply-snapshot_example :
    All
      (λ r.
        is_stale 1 r ≡ true
        → (contains r.provider_thread_id ([] ++ seen_ids (changes false).upserted)
            || contains r.provider_thread_id (frozen_thread_ids 1 archiving.pending_ops))
          ≡ true)
      (apply 1 (changes false) (some "next") 9 archiving).threads
apply-snapshot_example =
    apply-snapshot 1 (changes false) (some "next") 9 archiving archiving_well refl refl

abbrev pages_left : String → ℕ
pages_left cursor = if cursor == "" then 1 else 0

pages_fall :
    (c : String)
    → (mailbox c).changes.incomplete ≡ true
    → (mailbox c).failure ≡ none
    → pages_left (mailbox c).cursor < pages_left c
pages_fall c h fine = elim (Bool-cases (c == "")) [
  | inl e ↦ rw e (omega arith)
  | inr e ↦ cc (rw e at h)
]

sync_account-total_example :
    (w' : World) × (e : Failure) × (sync_account (some mailbox) 1 9 true none (λ i. none) 2 world
      ≡ some (w', e))
unfolding first_cursor
sync_account-total_example =
    sync_account-total mailbox 1 9 true none (λ i. none) pages_left 2 world pages_fall
      (λ a found. omega arith)
