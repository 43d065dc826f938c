-- ===== src/Sync/Queue/Revert.antt =====
-- `revertLocal` undoes `applyLocal`.
use dankmail.Base.{
  ℕ, true, false, String, List, [], ◌∷◌, ◌++◌, ◌≡◌, refl, sym, ap, ◌∙◌, inl, inr, arith, All,
  select, lookup, insert, if◌then◌else◌, ◌==◌, nat_eq, string_eq, Bool-cases, some, lookup-insert,
  lookup-insert_self, select-hit, select-miss,
}
use dankmail.Errdefs.{ok}
use dankmail.Schema.{Cache, PendingOp, Thread, IsIndexed, SameRow}
use dankmail.Schema.Loop.{for_rows, change_rows, for_rows-select, update_thread_self}
use dankmail.Schema.Indexed.{Apart, change_rows-IsIndexed}
use dankmail.Sync.Types.{Op, AccountId, ThreadState}
use dankmail.Sync.Queue.{
  change, apply_local, op_threads, touches, snapshots, snapshot_state, restore, revert_rows,
  revert_local, enqueue_one, op_from_row, new_row, with_prev,
}
use dankmail.Sync.Queue.Optimistic.{
  step, step-SameRow, apply_local-for_rows, op_threads-select, saved_in, with_saved, enqueue_one-ok,
}

unfoldable pub restore_row : List (String × ThreadState) → Thread → Thread → Thread
restore_row prev t = restore (lookup t.provider_thread_id prev)

pub restore_row-SameRow :
    (prev : List (String × ThreadState)) (t r : Thread) → SameRow (restore_row prev t r) r
unfolding restore_row restore
restore_row-SameRow prev t r = ground arith

revert_rows-for_rows :
    (prev : List (String × ThreadState)) (rows table : List Thread)
    → revert_rows prev rows table ≡ for_rows (restore_row prev) rows table
unfolding revert_rows for_rows restore_row
revert_rows-for_rows prev [] table = refl
revert_rows-for_rows prev (t ∷ rows) table = revert_rows-for_rows prev rows _

for_rows-nothing : (rows table : List Thread) → for_rows (restore_row []) rows table ≡ table
unfolding for_rows restore_row restore lookup
for_rows-nothing [] table = refl
for_rows-nothing (t ∷ rows) table =
    ap (for_rows (restore_row []) rows) (update_thread_self t.id table)
    ∙ for_rows-nothing rows table

pub revert_local-for_rows :
    (op : Op) (prev : List (String × ThreadState)) (table : List Thread)
    → revert_local (with_prev op prev) table
      ≡ for_rows (restore_row prev) (op_threads op.account_id op.thread_ids table) table
unfolding revert_local
revert_local-for_rows op [] table = sym (for_rows-nothing _ table)
revert_local-for_rows op (s ∷ prev) table = revert_rows-for_rows (s ∷ prev) _ table

-- The snapshot of a row undoes any operation on it.
pub restore-step : (op : Op) (t : Thread) → restore (some (snapshot_state t)) (step op t t) ≡ t
unfolding restore snapshot_state change
restore-step op t = ground arith

snapshots-other :
    (k : String) (rows : List Thread) (prev : List (String × ThreadState))
    → All (λ u. (u.provider_thread_id == k) ≡ false) rows
    → lookup k (snapshots rows prev) ≡ lookup k prev
unfolding snapshots
snapshots-other k [] prev h = refl
snapshots-other k (t ∷ rows) prev h =
    snapshots-other k rows (insert t.provider_thread_id (snapshot_state t) prev) h.1
    ∙ lookup-insert t.provider_thread_id k (snapshot_state t) prev
    ∙ (rw (h.0))

module _ (account : AccountId) (ids : List String) where
  -- Two rows of one account that the query selects have different keys in the map of snapshots.
  Apart-ne :
      (t u : Thread)
      → touches account ids t ≡ true
      → touches account ids u ≡ true
      → Apart t u
      → (u.provider_thread_id == t.provider_thread_id) ≡ false
  Apart-ne t u p q h = ground (
    arith,
    string_eq.agrees u.provider_thread_id t.provider_thread_id,
    string_eq.agrees t.provider_thread_id u.provider_thread_id,
  )

  selected-ne :
      (t : Thread) (ts : List Thread)
      → touches account ids t ≡ true
      → All (Apart t) ts
      → All
          (λ u. (u.provider_thread_id == t.provider_thread_id) ≡ false)
          (select (touches account ids) ts)
  unfolding select
  selected-ne t [] p h = tt
  selected-ne t (u ∷ ts) p h = elim (Bool-cases (touches account ids u)) [
    | inl e ↦ rw (e, select) (Apart-ne t u p e h.0, selected-ne t ts p h.1)
    | inr e ↦ rw (e, select) (selected-ne t ts p h.1)
  ]

  abbrev pub Saved : List (String × ThreadState) → Thread → Type 0
  Saved prev t =
      touches account ids t ≡ true → lookup t.provider_thread_id prev ≡ some (snapshot_state t)

  -- Every selected row has its snapshot.
  pub snapshots-Saved :
      (ts : List Thread) (prev m : List (String × ThreadState))
      → m ≡ snapshots (select (touches account ids) ts) prev
      → IsIndexed ts
      → All (Saved m) ts
  unfolding snapshots
  snapshots-Saved [] prev m q h = tt
  snapshots-Saved (t ∷ ts) prev m q h = elim (Bool-cases (touches account ids t)) [
    | inl e ↦
        let later = insert t.provider_thread_id (snapshot_state t) prev in
        let q' : m ≡ snapshots (select (touches account ids) ts) later =
          q ∙ ap (λ rows. snapshots rows prev) (select-hit (touches account ids) t ts e) in
        (
          λ _.
              ap (lookup t.provider_thread_id) q'
              ∙ snapshots-other t.provider_thread_id (select (touches account ids) ts) later
                  (selected-ne t ts e h.0)
              ∙ lookup-insert_self t.provider_thread_id (snapshot_state t) prev,
          snapshots-Saved ts later m q' h.1,
        )
    | inr e ↦ (
      λ hit. cc (e, hit),
      snapshots-Saved ts prev m
          (q ∙ ap (λ rows. snapshots rows prev) (select-miss (touches account ids) t ts e)) h.1,
    )
  ]

  pub touches-SameRow : (t u : Thread) → SameRow u t → touches account ids u ≡ touches account ids t
  touches-SameRow t u (i, a, k) = rw (a, k)

  module _ (op : Op) (m : List (String × ThreadState)) where
    abbrev back : Thread → Thread
    back u = if touches account ids u then restore_row m u u else u

    back-step :
        (t : Thread) → Saved m t → back (if touches account ids t then step op t t else t) ≡ t
    unfolding restore_row
    back-step t saved = elim (Bool-cases (touches account ids t)) [
      | inr e ↦ rw e (rw e)
      | inl e ↦
          let same = step-SameRow op t t in
          rw e (rw (touches-SameRow t (step op t t) same ∙ e, same.2, saved e) (restore-step op t))
    ]

    restored :
        (ts : List Thread)
        → All (Saved m) ts
        → change_rows
            (touches account ids)
            (restore_row m)
            (change_rows (touches account ids) (step op) ts)
          ≡ ts
    unfolding change_rows
    restored [] h = refl
    restored (t ∷ ts) h = cc (back-step t h.0, restored ts h.1)

pub changed_table :
    (op : Op) (ts : List Thread) {ts' : List Thread}
    → IsIndexed ts
    → apply_local op (op_threads op.account_id op.thread_ids ts) ts ≡ ok ts'
    → ts' ≡ change_rows (touches op.account_id op.thread_ids) (step op) ts
changed_table op ts idx h =
    apply_local-for_rows op _ ts h
    ∙ ap (λ rows. for_rows (step op) rows ts) (op_threads-select op.account_id op.thread_ids ts)
    ∙ for_rows-select (touches op.account_id op.thread_ids) (step op)
        (λ t r. (step-SameRow op t r).0) ts idx

pub reverted_table :
    (op : Op) (m : List (String × ThreadState)) (ts : List Thread)
    → IsIndexed ts
    → revert_local (with_prev op m) ts
      ≡ change_rows (touches op.account_id op.thread_ids) (restore_row m) ts
reverted_table op m ts idx =
    revert_local-for_rows op m ts
    ∙ ap (λ rows. for_rows (restore_row m) rows ts)
        (op_threads-select op.account_id op.thread_ids ts)
    ∙ for_rows-select (touches op.account_id op.thread_ids) (restore_row m)
        (λ t r. (restore_row-SameRow m t r).0) ts idx

revert-apply :
    (op : Op) (ts : List Thread) {ts' : List Thread}
    → IsIndexed ts
    → apply_local (with_prev op (saved_in op ts)) (op_threads op.account_id op.thread_ids ts) ts
      ≡ ok ts'
    → revert_local (with_prev op (saved_in op ts)) ts' ≡ ts
revert-apply op ts {ts'} idx h =
    let m = saved_in op ts in
    let op' = with_prev op m in
    let p = touches op.account_id op.thread_ids in
    let e : ts' ≡ change_rows p (step op') ts = changed_table op' ts idx h in
    let q : m ≡ snapshots (select p ts) op.payload.prev =
      ap (λ rows. snapshots rows op.payload.prev)
        (op_threads-select op.account_id op.thread_ids ts) in
    ap (revert_local (with_prev op m)) e
    ∙ reverted_table op m (change_rows p (step op') ts)
        (change_rows-IsIndexed p (step op') (step-SameRow op') ts idx)
    ∙ restored op.account_id op.thread_ids op' m ts
        (snapshots-Saved op.account_id op.thread_ids ts op.payload.prev m q idx)

-- The row that `enqueue_one` adds undoes it: if the operation fails at once for good, `revertLocal`
-- on the operation as it is read back from its row gives the thread table as it was before, in
-- every field of every row, provided that the ids and keys of the thread table are unique.
pub revert_local-enqueue_one :
    (now : ℕ) (op : Op) (c : Cache) {c' : Cache}
    → IsIndexed c.threads
    → enqueue_one now op c ≡ ok c'
    → (row : PendingOp) × (c'.pending_ops ≡ c.pending_ops ++ row ∷ [])
      × (revert_local (op_from_row row op.account_id) c'.threads ≡ c.threads)
unfolding op_from_row revert_local
revert_local-enqueue_one now op c {c'} idx h =
    let (ts', e, made, _) = enqueue_one-ok now op c h in
    (
      new_row c.next_op now (with_saved op c.threads),
      ap (λ (k : Cache). k.pending_ops) made,
      ap (λ (k : Cache). revert_local (with_saved op c.threads) k.threads) made
          ∙ revert-apply op c.threads idx e,
    )
