-- ===== src/Sync/Queue/Optimistic.antt =====
-- The optimistic change of `applyLocal` as a map over the thread table.
use dankmail.Base.{
  ℕ, String, List, [], ◌∷◌, ◌++◌, suc, ◌≢◌, ◌≡◌, refl, ap, ◌∙◌, arith, select, contains, nat_eq,
  string_eq,
}
use dankmail.Errdefs.{Result, ok, err, ◌>>=◌}
use dankmail.Schema.{Cache, PendingOp, Thread, SameRow, IsIndexed, update_thread}
use dankmail.Schema.Loop.{for_rows, change_rows, for_rows-select}
use dankmail.Sync.Types.{Op, OpType, OpPayload, AccountId, ThreadState, unknown}
use dankmail.Sync.Queue.{
  change, apply_local, op_threads, touches, create_op, new_row, snapshots, with_prev, enqueue_one,
}

abbrev step_or_keep : Result (Thread → Thread → Thread) → Thread → Thread → Thread
step_or_keep (ok g) t r = g t r
step_or_keep (err e) t r = r

-- The change of one row, where there is one.
abbrev pub step : Op → Thread → Thread → Thread
step op = step_or_keep (change op.type op.payload)

step_as-SameRow :
    (type : OpType) (p : OpPayload) (t r : Thread) → SameRow (step_or_keep (change type p) t r) r
unfolding change
step_as-SameRow type p t r = ground arith

pub step-SameRow : (op : Op) (t r : Thread) → SameRow (step op t r) r
step-SameRow op t r = step_as-SameRow op.type op.payload t r

pub apply_local-for_rows :
    (op : Op) (rows table : List Thread) {table' : List Thread}
    → apply_local op rows table ≡ ok table'
    → table' ≡ for_rows (step op) rows table
unfolding apply_local for_rows
apply_local-for_rows op [] table h = cc
apply_local-for_rows op (t ∷ rows) table {table'} h =
    go (change op.type op.payload) h
      λ g. apply_local-for_rows op rows (update_thread t.id (g t) table)
  where
    go :
        (m : Result (Thread → Thread → Thread))
        → (m >>= λ g. apply_local op rows (update_thread t.id (g t) table)) ≡ ok table'
        → ((g : Thread → Thread → Thread)
            → apply_local op rows (update_thread t.id (g t) table) ≡ ok table'
            → table' ≡ for_rows (step op) rows (update_thread t.id (g t) table))
        → table' ≡ for_rows (step op) rows (update_thread t.id (step_or_keep m t) table)
    go (ok g) h ih = ih g h
    go (err e) h ih = cc

pub op_threads-select :
    (account : AccountId) (ids : List String) (table : List Thread)
    → op_threads account ids table ≡ select (touches account ids) table
unfolding op_threads select contains
op_threads-select account [] [] = refl
op_threads-select account [] (t ∷ ts) = ground (arith, op_threads-select account [] ts)
op_threads-select account (i ∷ ids) table = refl

-- What a transaction that adds `op`, with its snapshots in it, leaves.
abbrev pub added : ℕ → Op → Cache → List Thread → Cache
added now op c threads = record c {
  threads = threads;
  pending_ops = c.pending_ops ++ new_row c.next_op now op ∷ [];
  next_op = suc c.next_op;
}

create_op-ok :
    (now : ℕ) (op : Op) (type : OpType) (c : Cache) (threads : List Thread) {c' : Cache}
    → create_op type (new_row c.next_op now op) (record c { threads = threads }) ≡ ok c'
    → (c' ≡ added now op c threads) × (type ≢ unknown)
unfolding create_op
create_op-ok now op type c threads h = ground arith

abbrev pub saved_in : Op → List Thread → List (String × ThreadState)
saved_in op ts = snapshots (op_threads op.account_id op.thread_ids ts) op.payload.prev

abbrev pub with_saved : Op → List Thread → Op
with_saved op ts = with_prev op (saved_in op ts)

-- The successful run of `enqueue_one`, taken apart.
pub enqueue_one-ok :
    (now : ℕ) (op : Op) (c : Cache) {c' : Cache}
    → enqueue_one now op c ≡ ok c'
    → (threads : List Thread) × (apply_local
          (with_saved op c.threads)
          (op_threads op.account_id op.thread_ids c.threads)
          c.threads
        ≡ ok threads)
      × (c' ≡ added now (with_saved op c.threads) c threads)
      × (op.type ≢ unknown)
unfolding enqueue_one
enqueue_one-ok now op c {c'} h = go _ refl h
  where
    go :
        (m : Result (List Thread))
        → apply_local
            (with_saved op c.threads)
            (op_threads op.account_id op.thread_ids c.threads)
            c.threads
          ≡ m
        → (m >>= λ threads.
            create_op op.type
              (new_row c.next_op now (with_saved op c.threads))
              (record c { threads = threads }))
          ≡ ok c'
        → (threads : List Thread) × (apply_local
              (with_saved op c.threads)
              (op_threads op.account_id op.thread_ids c.threads)
              c.threads
            ≡ ok threads)
          × (c' ≡ added now (with_saved op c.threads) c threads)
          × (op.type ≢ unknown)
    go (err e) p h = cc
    go (ok ts) p h =
        let made = create_op-ok now (with_saved op c.threads) op.type c ts h in
        (ts, p, made.0, made.1)

apply_local-run :
    (op : Op) {g : Thread → Thread → Thread} (rows table : List Thread)
    → change op.type op.payload ≡ ok g
    → apply_local op rows table ≡ ok (for_rows (step op) rows table)
unfolding apply_local for_rows
apply_local-run op [] table e = refl
apply_local-run op {g} (t ∷ rows) table e =
    rw e
      (rw (← ap step_or_keep e) (apply_local-run op rows (update_thread t.id (step op t) table) e))

create_op-known :
    (type : OpType) (row : PendingOp) (c : Cache)
    → type ≢ unknown
    → create_op type row c
      ≡ ok (record c { pending_ops = c.pending_ops ++ row ∷ []; next_op = suc c.next_op })
unfolding create_op
create_op-known type row c h = ground arith

-- An operation of a known type whose change is defined is added.
pub enqueue_one-run :
    (now : ℕ) (op : Op) (c : Cache) {g : Thread → Thread → Thread}
    → IsIndexed c.threads
    → op.type ≢ unknown
    → change op.type (with_saved op c.threads).payload ≡ ok g
    → enqueue_one now op c
      ≡ ok (
          added now (with_saved op c.threads) c (
            change_rows
              (touches op.account_id op.thread_ids)
              (step (with_saved op c.threads))
              c.threads))
unfolding enqueue_one
enqueue_one-run now op c {g} idx known e =
    let op' = with_saved op c.threads in
    let rows = op_threads op.account_id op.thread_ids c.threads in
    let all =
      apply_local-run op' rows c.threads e
      ∙ ap ok (
          ap (λ l. for_rows (step op') l c.threads)
            (op_threads-select op.account_id op.thread_ids c.threads)
          ∙ for_rows-select (touches op.account_id op.thread_ids) (step op')
              (λ t r. (step-SameRow op' t r).0) c.threads idx) in
    rw all (create_op-known op.type (new_row c.next_op now op') _ known)
