-- ===== src/Tests/Sync.antt =====
-- The queue and the executor.
use dankmail.Base.{
  ℕ, Bool, true, false, List, [], ◌∷◌, ◌++◌, ◌≡◌, refl, arith, none, some, All, All2, select,
  contains, update_where, insert, lookup, map, nat_eq, string_eq,
}
use dankmail.Errdefs.{Error, kind_of, permanent, Result, ok, err, ◌>>=◌, kind_of, retryable}
use dankmail.Rules.{default_policies}
use dankmail.Schema.{Cache, PendingOp, update_thread}
use dankmail.Sync.Types.{Op, mark_read, batchable, op_type_discrete}
use dankmail.Sync.World.{World, publish}
use dankmail.Sync.Queue.{
  enqueue_one, op_from_row, revert_local, apply_local, op_threads, change, snapshots,
  snapshot_state, restore, revert_rows,
}
use dankmail.Sync.Queue.Optimistic.{added, with_saved}
use dankmail.Sync.Queue.Revert.{revert_local-enqueue_one}
use dankmail.Sync.Executor.{
  process_batch, drain, stops, is_due, find_account, due_rows, same_prefix, call, plan,
  handle_failure, revert_all, update_ops, update_threads, ops_of,
}
use dankmail.Sync.Executor.Stacked.{handle_failure-two}
use dankmail.Sync.Executor.Outcome.{SameOp}
use dankmail.Sync.Executor.Invariant.{IsSettled, process_batch-IsSettled, process_batch-frame}
use dankmail.Sync.Executor.Drain.{drain-total}
use dankmail.Sync.Scheduler.{is_snooze_due, wake_due}
use dankmail.Sync.Scheduler.Wakes.{wake_due_once, WakesThread}
use dankmail.Tests.Samples.{
  cache, cache-IsIndexed, world, archive_op, queued, offline, refusing, thread,
}

abbrev archived : Cache
archived =
    added 5 (with_saved archive_op cache.threads) cache
      (record (thread 1 "t1") { in_inbox = false } ∷ thread 2 "t2" ∷ [])

archived_run : enqueue_one 5 archive_op cache ≡ ok archived
unfolding enqueue_one apply_local op_threads select contains update_thread update_where change
    snapshots snapshot_state insert
archived_run = refl

revert_local-enqueue_one_example :
    (row : PendingOp) × (archived.pending_ops ≡ [] ++ row ∷ [])
    × (revert_local (op_from_row row 1) archived.threads ≡ thread 1 "t1" ∷ thread 2 "t2" ∷ [])
revert_local-enqueue_one_example =
    revert_local-enqueue_one 5 archive_op cache {c' = archived} cache-IsIndexed archived_run

abbrev busy : World
busy = record world { cache = record cache { pending_ops = queued 1 archive_op ∷ [] } }

busy-IsSettled : All IsSettled busy.pending_ops
busy-IsSettled = (record { at_rest = λ e. cc; has_try = λ e. omega arith }, tt)

process_batch-IsSettled_example : All IsSettled (process_batch offline 1 7 8 busy).0.pending_ops
process_batch-IsSettled_example = process_batch-IsSettled offline 1 7 8 busy (tt, tt) busy-IsSettled

process_batch-frame_example :
    All2
      (λ x y. SameOp y x × (is_due 1 7 x ≡ false → y ≡ x))
      busy.pending_ops
      (process_batch offline 1 7 8 busy).0.pending_ops
process_batch-frame_example = process_batch-frame offline 1 7 8 busy (tt, tt)

drain-total_example :
    (w' : World) × (j : ℕ) × (drain offline 1 (λ k. 7) 3 0 busy ≡ some w')
    × (stops (process_batch offline 1 7 7 w').1 ≡ true)
unfolding select
drain-total_example =
    drain-total 1 7 7 (omega arith) offline (λ k. 7) (λ k. (omega arith, omega arith)) 3 0 busy
      (omega arith)

abbrev snoozing : World
snoozing = record world {
  cache = record cache {
    threads = record (thread 1 "t1") { snoozed_until = some 5 } ∷ thread 2 "t2" ∷ [];
  };
}

wake_due_once_example :
    (w' : World) × (added : List PendingOp) × (wake_due default_policies true 9 9 snoozing
      ≡ (w', none))
    × All (λ u. is_snooze_due 9 u ≡ false) w'.threads
    × (w'.pending_ops ≡ [] ++ added)
    × All2 WakesThread (select (is_snooze_due 9) snoozing.threads) added
wake_due_once_example =
    wake_due_once default_policies true 9 9 snoozing (((refl, refl), tt), (tt, tt))

-- Two operations of one batch on the same thread, which the provider refuses: they are reverted in
-- the order of the queue, so the later snapshot, that of the change of the first, is what stays.
abbrev read_op : Op
read_op = record archive_op { type = mark_read }

abbrev read_twice : Cache → Result Cache
read_twice c = enqueue_one 5 read_op c >>= enqueue_one 6 read_op

abbrev unread_of : Result Cache → List Bool
unread_of (err e) = []
unread_of (ok c) =
    map (λ t. t.unread) (process_batch refusing 1 7 8 (record world { cache = c })).0.threads

refused :
    (unread_of (enqueue_one 5 read_op cache) ≡ true ∷ true ∷ [])
    × (unread_of (read_twice cache) ≡ false ∷ true ∷ [])
unfolding enqueue_one apply_local op_threads select contains update_thread update_where change
    snapshots snapshot_state insert process_batch find_account due_rows same_prefix call plan
    handle_failure revert_all revert_local revert_rows lookup restore update_ops update_threads
    publish op_from_row kind_of retryable ops_of batchable op_type_discrete
refused = (refl, refl)

abbrev read_once_cache : Cache
read_once_cache =
    added 5 (with_saved read_op cache.threads) cache
      (record (thread 1 "t1") { unread = false } ∷ thread 2 "t2" ∷ [])

abbrev read_twice_cache : Cache
read_twice_cache =
    added 6 (with_saved read_op read_once_cache.threads) read_once_cache read_once_cache.threads

read_runs :
    (enqueue_one 5 read_op cache ≡ ok read_once_cache)
    × (enqueue_one 6 read_op read_once_cache ≡ ok read_twice_cache)
unfolding enqueue_one apply_local op_threads select contains update_thread update_where change
    snapshots snapshot_state insert
read_runs = (refl, refl)

handle_failure-two_example :
    (row row' : PendingOp) × (read_twice_cache.pending_ops ≡ [] ++ row ∷ row' ∷ [])
    × ((at : ℕ) (ids : List ℕ) (e : Error) (w : World)
        → kind_of (some e) ≡ permanent
        → w.threads ≡ read_twice_cache.threads
        → (handle_failure 1 at (op_from_row row 1) (op_from_row row' 1 ∷ []) ids e w).threads
          ≡ read_once_cache.threads)
handle_failure-two_example =
    handle_failure-two 5 6 read_op read_op.payload cache {c₁ = read_once_cache}
      {c₂ = read_twice_cache} cache-IsIndexed (read_runs.0) (read_runs.1)
