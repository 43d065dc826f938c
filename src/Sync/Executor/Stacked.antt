-- ===== src/Sync/Executor/Stacked.antt =====
-- `revertLocal` on two operations that changed the same threads, in the order of the queue.
use dankmail.Base.{
  ℕ, Bool, true, false, String, List, [], ◌∷◌, ◌++◌, ◌≡◌, refl, sym, ap, subst, ◌∙◌, inl, inr,
  arith, All, select, lookup, if◌then◌else◌, nat_eq, string_eq, Bool-cases, Option, none, some,
  append_assoc,
}
use dankmail.Errdefs.{ok, Error, kind_of, permanent, retryable}
use dankmail.Schema.{Cache, PendingOp, Thread, IsIndexed, SameRow}
use dankmail.Schema.Loop.{change_rows}
use dankmail.Schema.Indexed.{change_rows-IsIndexed}
use dankmail.Sync.Types.{Op, OpPayload, AccountId, ThreadState}
use dankmail.Sync.Queue.{
  change, touches, snapshots, snapshot_state, restore, revert_local, enqueue_one, op_from_row,
  new_row, with_prev,
}
use dankmail.Sync.World.{World, publish}
use dankmail.Sync.Executor.{revert_all, handle_failure, update_threads, update_ops}
use dankmail.Sync.Queue.Optimistic.{
  step, step-SameRow, saved_in, with_saved, enqueue_one-ok, op_threads-select,
}
use dankmail.Sync.Queue.Revert.{
  restore_row, restore_row-SameRow, snapshots-Saved, Saved, touches-SameRow, reverted_table,
  changed_table, restore-step,
}

-- A snapshot also undoes what another snapshot has written over the operation.
restore-over :
    (older : Option ThreadState) (op : Op) (t : Thread)
    → restore (some (snapshot_state t)) (restore older (step op t t)) ≡ t
unfolding restore snapshot_state change
restore-over none op t = restore-step op t
restore-over (some s) op t = ground arith

if_hit : (b : Bool) (x y : Thread) → b ≡ true → (if b then x else y) ≡ x
if_hit b x y e = rw e

if_miss : (b : Bool) (x y : Thread) → b ≡ false → (if b then x else y) ≡ y
if_miss b x y e = rw e

module _ (account : AccountId) (ids : List String) (op : Op)
    (older m : List (String × ThreadState)) where
  abbrev hits : Thread → Bool
  hits = touches account ids

  abbrev changed : Thread → Thread
  changed t = if hits t then step op t t else t

  abbrev back : List (String × ThreadState) → Thread → Thread
  back prev u = if hits u then restore_row prev u u else u

  restore-SameRow : (t : Thread) → SameRow (restore_row older (step op t t) (step op t t)) t
  restore-SameRow t =
      let a = restore_row-SameRow older (step op t t) (step op t t) in
      let b = step-SameRow op t t in (a.0 ∙ b.0, a.1 ∙ b.1, a.2 ∙ b.2)

  restore_row-over :
      (t : Thread)
      → lookup t.provider_thread_id m ≡ some (snapshot_state t)
      → let u = restore_row older (step op t t) (step op t t) in restore_row m u u ≡ t
  unfolding restore_row
  restore_row-over t saved =
      let v = step op t t in
      let u = restore (lookup v.provider_thread_id older) v in
      ap (λ k. restore (lookup k m) u) (restore-SameRow t).2
      ∙ ap (λ s. restore s u) saved
      ∙ restore-over (lookup v.provider_thread_id older) op t

  stacked-step : (t : Thread) → Saved account ids m t → back m (back older (changed t)) ≡ t
  stacked-step t saved = elim (Bool-cases (hits t)) [
    | inr e ↦
        ap (λ r. back m (back older r)) (if_miss (hits t) (step op t t) t e)
        ∙ ap (back m) (if_miss (hits t) (restore_row older t t) t e)
        ∙ if_miss (hits t) (restore_row m t t) t e
    | inl e ↦
        let v = step op t t in
        let u = restore_row older v v in
        ap (λ r. back m (back older r)) (if_hit (hits t) v t e)
        ∙ ap (back m)
            (if_hit (hits v) u v (touches-SameRow account ids t v (step-SameRow op t t) ∙ e))
        ∙ if_hit (hits u) (restore_row m u u) u
            (touches-SameRow account ids t u (restore-SameRow t) ∙ e)
        ∙ restore_row-over t (saved e)
  ]

  stacked :
      (ts : List Thread)
      → All (Saved account ids m) ts
      → change_rows hits
          (restore_row m)
          (change_rows hits (restore_row older) (change_rows hits (step op) ts))
        ≡ ts
  unfolding change_rows
  stacked [] h = refl
  stacked (t ∷ ts) h = cc (stacked-step t h.0, stacked ts h.1)

-- The table and the row that an enqueued operation leaves.
enqueued :
    (now : ℕ) (op : Op) (c : Cache) {c' : Cache}
    → IsIndexed c.threads
    → enqueue_one now op c ≡ ok c'
    → (c'.threads
        ≡ change_rows
            (touches op.account_id op.thread_ids)
            (step (with_saved op c.threads))
            c.threads)
      × IsIndexed c'.threads
      × (c'.pending_ops ≡ c.pending_ops ++ new_row c.next_op now (with_saved op c.threads) ∷ [])
enqueued now op c {c'} idx h =
    let (ts', e, made, _) = enqueue_one-ok now op c h in
    let op₁ = with_saved op c.threads in
    let p = touches op.account_id op.thread_ids in
    let table : ts' ≡ change_rows p (step op₁) c.threads = changed_table op₁ c.threads idx e in
    let threads : c'.threads ≡ ts' = ap (λ (k : Cache). k.threads) made in
    (
      threads ∙ table,
      subst IsIndexed (sym (threads ∙ table))
          (change_rows-IsIndexed p (step op₁) (step-SameRow op₁) c.threads idx),
      ap (λ (k : Cache). k.pending_ops) made,
    )

-- What a permanent error makes of the thread table.
given_up :
    (account : AccountId) (at : ℕ) (op : Op) (ops : List Op) (ids : List ℕ) (e : Error) (w : World)
    → kind_of (some e) ≡ permanent
    → (handle_failure account at op ops ids e w).threads ≡ revert_all (op ∷ ops) w.threads
unfolding handle_failure retryable update_threads update_ops publish
given_up account at op ops ids e w permanently = rw (permanently, handle_failure) refl

reverts :
    (op : Op) (payload : OpPayload) (older : List (String × ThreadState)) (ts : List Thread)
    {ts₂ : List Thread}
    → let op' : Op = record op { payload = payload } in
      IsIndexed ts
      → ts₂ ≡ change_rows (touches op.account_id op.thread_ids) (step (with_saved op' ts)) ts
      → IsIndexed ts₂
      → revert_local (with_saved op' ts) (revert_local (with_prev op older) ts₂) ≡ ts
reverts op payload older ts {ts₂} idx table idx₂ =
    let op' : Op = record op { payload = payload } in
    let m = saved_in op' ts in
    let p = touches op.account_id op.thread_ids in
    let q : m ≡ snapshots (select p ts) payload.prev =
      ap (λ rows. snapshots rows payload.prev) (op_threads-select op.account_id op.thread_ids ts) in
    let ts₃ = change_rows p (restore_row older) ts₂ in
    let idx₃ =
      change_rows-IsIndexed p (restore_row older) (λ t r. restore_row-SameRow older t r) ts₂ idx₂ in
    ap (revert_local (with_saved op' ts)) (reverted_table op older ts₂ idx₂)
    ∙ reverted_table op' m ts₃ idx₃
    ∙ ap (λ l. change_rows p (restore_row m) (change_rows p (restore_row older) l)) table
    ∙ stacked op.account_id op.thread_ids (with_saved op' ts) older m ts
        (snapshots-Saved op.account_id op.thread_ids ts payload.prev m q idx)

-- Two operations of one type on the same threads are queued one after the other, and the batch of both
-- meets a permanent error. Then `handleFailure` leaves the thread table as the first operation had changed
-- it: the snapshot of the second, which was taken then, is written last. The ids and keys of the thread
-- table are taken to be unique.
pub handle_failure-two :
    (now now' : ℕ) (op : Op) (payload : OpPayload) (c : Cache) {c₁ c₂ : Cache}
    → IsIndexed c.threads
    → enqueue_one now op c ≡ ok c₁
    → enqueue_one now' (record op { payload = payload }) c₁ ≡ ok c₂
    → (row row' : PendingOp) × (c₂.pending_ops ≡ c.pending_ops ++ row ∷ row' ∷ [])
      × ((at : ℕ) (ids : List ℕ) (e : Error) (w : World)
          → kind_of (some e) ≡ permanent
          → w.threads ≡ c₂.threads
          → (handle_failure op.account_id at
              (op_from_row row op.account_id)
              (op_from_row row' op.account_id ∷ [])
              ids
              e
              w).threads
            ≡ c₁.threads)
unfolding revert_all op_from_row revert_local handle_failure retryable update_threads update_ops
    publish
handle_failure-two now now' op payload c {c₁} {c₂} idx h k =
    let op' : Op = record op { payload = payload } in
    let (table₁, idx₁, rows₁) = enqueued now op c idx h in
    let (table₂, idx₂, rows₂) = enqueued now' op' c₁ idx₁ k in
    let row = new_row c.next_op now (with_saved op c.threads) in
    let row' = new_row c₁.next_op now' (with_saved op' c₁.threads) in
    (
      row,
      row',
      rows₂ ∙ ap (λ l. l ++ row' ∷ []) rows₁ ∙ append_assoc c.pending_ops (row ∷ []) (row' ∷ []),
      λ at ids e w permanently same.
          given_up op.account_id at (op_from_row row op.account_id)
            (op_from_row row' op.account_id ∷ []) ids e w permanently
          ∙ ap (revert_all (op_from_row row op.account_id ∷ op_from_row row' op.account_id ∷ []))
              same
          ∙ reverts op payload (saved_in op c.threads) c₁.threads idx₁ table₂ idx₂,
    )
