-- ===== src/Sync/Reconciler.antt =====
-- core/internal/sync/reconciler.go and helpers.go: a provider's changes into the local cache. Times
-- are nanoseconds, a provider's are seconds.
mod Threads
pub mod Snooze
pub mod Keeps
pub mod Accounts
pub mod Known
pub mod Arrivals
pub mod WellFormed
pub mod Snapshot
pub mod Frozen
unfoldable pub use Threads.*
use dankmail.Base.{
  ℕ, ◌+◌, String, Bool, true, false, not, ◌&&◌, ◌||◌, List, [], ◌∷◌, ◌++◌, Option, none, some, ◌==◌,
  nat_eq, string_eq, if◌then◌else◌, contains, select, delete_where, update_where,
}
use dankmail.Provider.{Changes, ThreadDelta}
use dankmail.Schema.{Cache, Thread, PendingOp, delete_rows, find_thread, is_row}
use dankmail.Sync.Types.{AccountId}
use dankmail.Sync.World.{World, Arrival, publish, threads_changed, message_arrived}
use dankmail.Sync.Janitor.{is_open, thread_ids_of}

unfoldable pub frozen_thread_ids : AccountId → List PendingOp → List String
unfolding thread_ids_of
frozen_thread_ids account rows =
    thread_ids_of (select (λ r. r.account == account && is_open r.state) rows)

-- `SetHistoryLoadedAt` on the thread of a backfilled delta.
unfoldable pub mark_history : AccountId → String → ℕ → Cache → Cache
mark_history account id now c = record c {
  threads =
      update_where (is_row account id) (λ r. record r { history_loaded_at = some now }) c.threads;
}

-- The loop over the upserted deltas: the cache and the arrivals.
unfoldable pub upsert_all :
    AccountId
    → Changes
    → List String
    → ℕ
    → List ThreadDelta
    → Cache
    → List Arrival
    → Cache × List Arrival
unfolding mark_history
upsert_all account ch frozen now [] c arrivals = (c, arrivals)
upsert_all account ch frozen now (d ∷ ds) c arrivals =
    let (c₁, new) =
      upsert_thread account d (contains d.thread_id frozen) (not ch.full_resync && not ch.backfill)
        c in
    upsert_all account ch frozen now ds
      (if ch.backfill then mark_history account d.thread_id now c₁ else c₁) (arrivals ++ new)

-- `Thread.Delete().Where(…)` by the provider id; the messages go with the rows.
unfoldable pub delete_where_id : AccountId → String → Cache → Cache
unfolding find_thread
delete_where_id account id c = elim (find_thread account id c.threads) [
  | none ↦ c
  | some t ↦ record c {
    threads = delete_where (is_row account id) c.threads;
    messages = delete_where (λ m. m.thread == t.id) c.messages;
  }
]

unfoldable pub remove_all : AccountId → List String → List String → Cache → Cache
remove_all account frozen [] c = c
remove_all account frozen (id ∷ ids) c =
    remove_all account frozen ids (if contains id frozen then c else delete_where_id account id c)

abbrev is_none {ℓ} : {A : Type ℓ} → Option A → Bool
is_none none = true
is_none (some a) = false

-- The rows that a full snapshot speaks for.
abbrev pub is_stale : AccountId → Thread → Bool
is_stale account t =
    t.account == account && (is_none t.snoozed_until && is_none t.history_loaded_at)

unfoldable pub drop_stale : AccountId → List String → List String → Cache → Cache
drop_stale account seen frozen c =
    delete_rows (λ t. contains t.provider_thread_id seen || contains t.provider_thread_id frozen)
      (select (is_stale account) c.threads) c

unfoldable pub seen_ids : List ThreadDelta → List String
seen_ids [] = []
seen_ids (d ∷ ds) = d.thread_id ∷ seen_ids ds

-- The account's row after the data: nothing without a cursor; a checkpoint is not a finished sync.
unfoldable pub save_cursor : AccountId → Option String → Bool → ℕ → Cache → Cache
save_cursor account none incomplete now c = c
save_cursor account (some cursor) incomplete now c = record c {
  accounts =
      update_where (λ a. a.id == account)
        (λ a.
          if incomplete then record a { sync_cursor = cursor; last_error = none } else record a {
            sync_cursor = cursor;
            last_error = none;
            last_sync_at = some now;
            needs_reauth = false;
            auth_message = none;
          })
        c.accounts;
}

-- The transaction of `apply`. The frozen ids come from a query before the transaction.
unfoldable pub transact :
    AccountId → Changes → Option String → ℕ → List String → Cache → Cache × List Arrival
unfolding save_cursor
transact account ch cursor now frozen c =
    let (c₁, arrivals) = upsert_all account ch frozen now ch.upserted c [] in
    let c₂ = remove_all account frozen ch.removed_thread_ids c₁ in
    let c₃ =
      if ch.full_resync && not ch.incomplete
      then drop_stale account (ch.snapshot_thread_ids ++ seen_ids ch.upserted) frozen c₂
      else c₂ in
    (save_cursor account cursor ch.incomplete now c₃, arrivals)

unfoldable pub publish_arrivals : List Arrival → World → World
publish_arrivals [] w = w
publish_arrivals (a ∷ arrivals) w = publish_arrivals arrivals (publish (message_arrived a) w)

-- `apply` from its transaction on, with the frozen ids that were read before.
unfoldable pub apply_with : AccountId → Changes → Option String → ℕ → List String → World → World
apply_with account ch cursor now frozen w =
    let (c, arrivals) = transact account ch cursor now frozen w.cache in
    publish_arrivals arrivals (publish (threads_changed account) (record w { cache = c }))

-- `Apply` has no cursor, `ApplySync` has one.
unfoldable pub apply : AccountId → Changes → Option String → ℕ → World → World
unfolding apply_with
apply account ch cursor now w =
    apply_with account ch cursor now (frozen_thread_ids account w.pending_ops) w
