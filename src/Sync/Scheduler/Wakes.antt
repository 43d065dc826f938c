-- ===== src/Sync/Scheduler/Wakes.antt =====
-- Every due thread is woken, once.
use dankmail.Base.{
  ℕ, Bool, true, false, List, [], ◌∷◌, ◌++◌, ◌≡◌, refl, sym, ap, ◌∙◌, inl, inr, arith, All, All2,
  All-map, exists, select, contains, if◌then◌else◌, nat_eq, string_eq, Bool-cases, none,
  append_assoc, append-nil, subst, ==-self, select-hit, select-miss,
}
use dankmail.Rules.{Policies}
use dankmail.Schema.{Cache, Thread, PendingOp, pending, IsIndexed, same_key, SameRow}
use dankmail.Schema.Loop.{change_rows}
use dankmail.Schema.Indexed.{change_rows-IsIndexed}
use dankmail.Sync.Types.{snooze_wake}
use dankmail.Sync.World.{World, publish, wake, threads_changed, snooze_woke}
use dankmail.Sync.Queue.{change, touches, enqueue, enqueue_all, expand, new_row}
use dankmail.Sync.Queue.Optimistic.{step, step-SameRow, with_saved, enqueue_one-run, added}
use dankmail.Sync.Scheduler.{is_snooze_due, wake_op, wake_rows, wake_due}

-- The row of a thread that is woken.
abbrev pub WakesThread : Thread → PendingOp → Type 0
WakesThread t r =
    (r.op_type ≡ snooze_wake)
    × (r.account ≡ t.account)
    × (r.provider_thread_ids ≡ t.provider_thread_id ∷ [])
    × (r.state ≡ pending)

abbrev wakes : Thread → Thread → Bool
wakes t = touches t.account (t.provider_thread_id ∷ [])

-- What `Enqueue` does to wake `t`.
record Woken (t : Thread) (w w' : World) : Type 0 where
  change_of : Thread → Thread → Thread
  keeps : (u r : Thread) → SameRow (change_of u r) r
  clears : (u r : Thread) → (change_of u r).snoozed_until ≡ none
  threads_lem : w'.threads ≡ change_rows (wakes t) change_of w.threads
  row : PendingOp
  row_lem : WakesThread t row
  ops_lem : w'.pending_ops ≡ w.pending_ops ++ row ∷ []

step-wake_clears :
    (m : Bool) (t u r : Thread) (saved : List Thread)
    → (step (with_saved (wake_op m t) saved) u r).snoozed_until ≡ none
unfolding change wake_op
step-wake_clears m t u r saved = refl

enqueue-wake :
    (p : Policies) (m : Bool) (now : ℕ) (t : Thread) (w : World)
    → IsIndexed w.threads
    → (w' : World) × (enqueue p now (wake_op m t) w ≡ (w', none)) × Woken t w w'
unfolding enqueue enqueue_all expand wake_op change publish wake
enqueue-wake p m now t w idx =
    let op = with_saved (wake_op m t) w.threads in
    let c' : Cache = added now op w.cache (change_rows (wakes t) (step op) w.threads) in
    let run = enqueue_one-run now (wake_op m t) w.cache idx (λ e. cc) refl in
    (
      publish (threads_changed t.account) (wake t.account (record w { cache = c' })),
      rw run refl,
      record {
        change_of = step op;
        keeps = step-SameRow op;
        clears = λ u r. refl;
        threads_lem = refl;
        row = new_row w.next_op now op;
        row_lem = (refl, refl, refl, refl);
        ops_lem = refl;
      },
    )

module _ (p : Policies) (m : Bool) (queried now : ℕ) where
  -- The due threads are among those still to be woken.
  abbrev Covers : List Thread → List Thread → Type 0
  Covers rows = All (λ u. is_snooze_due queried u ≡ true → exists (λ r. same_key r u) rows ≡ true)

  module _ (t : Thread) (rows : List Thread) (g : Thread → Thread → Thread)
      (clears : (u r : Thread) → (g u r).snoozed_until ≡ none) where
    Covers-head :
        (u : Thread)
        → (is_snooze_due queried u ≡ true → exists (λ r. same_key r u) (t ∷ rows) ≡ true)
        → is_snooze_due queried (if wakes t u then g u u else u) ≡ true
        → exists (λ r. same_key r (if wakes t u then g u u else u)) rows ≡ true
    unfolding exists contains
    Covers-head u h d = elim (Bool-cases (wakes t u)) [
      | inl e ↦ rw (e) (cc (clears u u))
      | inr e ↦ rw e (ground (arith, h (rw e at d), e))
    ]

    Covers-step :
        (ts : List Thread) → Covers (t ∷ rows) ts → Covers rows (change_rows (wakes t) g ts)
    unfolding change_rows
    Covers-step [] h = tt
    Covers-step (u ∷ ts) h = (Covers-head u h.0, Covers-step ts h.1)

  Covers-cons : (r : Thread) (rows ts : List Thread) → Covers rows ts → Covers (r ∷ rows) ts
  unfolding exists
  Covers-cons r rows ts =
      All-map (λ u. is_snooze_due queried u ≡ true → exists (λ r. same_key r u) rows ≡ true)
        (λ u. is_snooze_due queried u ≡ true → exists (λ r. same_key r u) (r ∷ rows) ≡ true) ts
        (λ u h d. ground (arith, h d))

  Covers-all : (ts : List Thread) → Covers (select (is_snooze_due queried) ts) ts
  unfolding exists
  Covers-all [] = tt
  Covers-all (t ∷ ts) = elim (Bool-cases (is_snooze_due queried t)) [
    | inl e ↦
        subst (λ rows. Covers rows (t ∷ ts)) (sym (select-hit (is_snooze_due queried) t ts e))
          (
            λ d. rw (==-self t.account, ==-self t.provider_thread_id),
            Covers-cons t (select (is_snooze_due queried) ts) ts (Covers-all ts),
          )
    | inr e ↦
        subst (λ rows. Covers rows (t ∷ ts)) (sym (select-miss (is_snooze_due queried) t ts e))
          ((λ d. cc (d, e)), Covers-all ts)
  ]

  abbrev Result-of : List Thread → World → Type 0
  Result-of rows w =
      (w' : World) × (added : List PendingOp) × (wake_rows p m now rows w ≡ (w', none))
      × All (λ u. is_snooze_due queried u ≡ false) w'.threads
      × (w'.pending_ops ≡ w.pending_ops ++ added)
      × All2 WakesThread rows added

  wake_rows-next :
      (t : Thread) (rows : List Thread) (w : World) {w' : World}
      → enqueue p now (wake_op m t) w ≡ (w', none)
      → wake_rows p m now (t ∷ rows) w
        ≡ wake_rows p m now rows (publish (snooze_woke t.account t.provider_thread_id t.subject) w')
  unfolding wake_rows
  wake_rows-next t rows w e = rw e

  wake_rows-all :
      (rows : List Thread) (w : World)
      → IsIndexed w.threads
      → Covers rows w.threads
      → Result-of rows w
  unfolding wake_rows publish exists
  wake_rows-all [] w idx cov = (
    w,
    [],
    refl,
    All-map (λ u. is_snooze_due queried u ≡ true → false ≡ true)
        (λ u. is_snooze_due queried u ≡ false) w.threads (λ u h. ground (arith, h)) cov,
    sym (append-nil w.pending_ops),
    tt,
  )
  wake_rows-all (t ∷ rows) w idx cov =
      let (w₁, e, k) = enqueue-wake p m now t w idx in
      let w₂ = publish (snooze_woke t.account t.provider_thread_id t.subject) w₁ in
      let idx₂ =
        subst IsIndexed (sym k.threads_lem)
          (change_rows-IsIndexed (wakes t) k.change_of k.keeps w.threads idx) in
      let cov₂ =
        subst (Covers rows) (sym k.threads_lem)
          (Covers-step t rows k.change_of k.clears w.threads cov) in
      let (w', added, run, none_due, ops, each) = wake_rows-all rows w₂ idx₂ cov₂ in
      (
        w',
        k.row ∷ added,
        wake_rows-next t rows w e ∙ run,
        none_due,
        ops ∙ ap (λ l. l ++ added) k.ops_lem ∙ append_assoc w.pending_ops (k.row ∷ []) added,
        (k.row_lem, each),
      )

-- Waking never fails. Afterwards no thread's snooze has run out by the time of the query, so none is
-- woken twice, and the queue has grown by one pending `snooze_wake` for each thread that was due, in
-- the order of the rows, provided that the ids and keys of the thread table are unique.
pub wake_due_once :
    (p : Policies) (mark_unread : Bool) (queried now : ℕ) (w : World)
    → IsIndexed w.threads
    → (w' : World) × (added : List PendingOp) × (wake_due p mark_unread queried now w ≡ (w', none))
      × All (λ u. is_snooze_due queried u ≡ false) w'.threads
      × (w'.pending_ops ≡ w.pending_ops ++ added)
      × All2 WakesThread (select (is_snooze_due queried) w.threads) added
unfolding wake_due
wake_due_once p m queried now w idx =
    wake_rows-all p m queried now (select (is_snooze_due queried) w.threads) w idx
      (Covers-all p m queried now w.threads)
