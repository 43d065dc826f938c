-- ===== src/Sync/Executor/Invariant.antt =====
-- What holds of the rows of the operations between two batches.
use dankmail.Base.{
  ℕ, ◌<◌, true, false, List, [], ◌∷◌, ◌≡◌, ◌≢◌, refl, sym, inl, inr, arith, All, All-map2, All-of,
  contains, ◌==◌, nat_eq, Bool-cases, Sublist, nothing, skip, keep, Sublist-All, Sublist-select,
  Sublist-take, All-update_where, All2, All2-update_where, All2-refl, select, select-All, subst,
  Sublist-refl,
}
use dankmail.Schema.{PendingOp, pending, inflight}
use dankmail.Sync.Types.{AccountId, OpType, batchable}
use dankmail.Sync.World.{World}
use dankmail.Sync.Executor.{
  Registry, ids_of, max_attempts, process_batch, due_rows, is_due, batch_tail, same_prefix,
  same_type, batch_limit,
}
use dankmail.Sync.Executor.Outcome.{
  Outcome, finished, suspended, retried, SameOp, process_batch-cases,
}

-- The primary key of the operations.
abbrev pub HasDistinctIds : List PendingOp → Type 0
HasDistinctIds [] = Unit {0}
HasDistinctIds (r ∷ rows) = All (λ x. (r.id == x.id) ≡ false) rows × HasDistinctIds rows

same_prefix-Sublist :
    (type : OpType) {xs ys : List PendingOp} → Sublist xs ys → Sublist (same_prefix type xs) ys
unfolding same_prefix
same_prefix-Sublist type nothing = nothing
same_prefix-Sublist type (skip y s) = skip y (same_prefix-Sublist type s)
same_prefix-Sublist type (keep y s) = elim (Bool-cases (same_type y.op_type type)) [
  | inl e ↦ rw (e, same_prefix) (keep y (same_prefix-Sublist type s))
  | inr e ↦ rw (e, same_prefix) nothing
]

batch-Sublist :
    (r : PendingOp) {rows table : List PendingOp}
    → Sublist (r ∷ rows) table
    → Sublist (r ∷ batch_tail r rows) table
batch-Sublist r (skip y s) = skip y (batch-Sublist r s)
batch-Sublist r (keep y s) = keep y (elim (Bool-cases (batchable r.op_type)) [
  | inl e ↦ rw e (same_prefix-Sublist r.op_type s)
  | inr e ↦ rw e nothing
])

-- The rows of a batch are rows of the table that were due.
pub due_batch :
    (account now : ℕ) (table : List PendingOp) {r : PendingOp} {rows : List PendingOp}
    → due_rows account now table ≡ r ∷ rows
    → Sublist (r ∷ batch_tail r rows) table
      × All (λ x. is_due account now x ≡ true) (r ∷ batch_tail r rows)
unfolding due_rows
due_batch account now table {r} {rows} e =
    let p = is_due account now in
    let all : All (λ x. p x ≡ true) (r ∷ rows) = subst (All (λ x. p x ≡ true)) e (
      Sublist-All (λ x. p x ≡ true) (Sublist-take batch_limit (Sublist-refl (select p table)))
        (select-All p table)) in
    (
      batch-Sublist r
          (subst (λ b. Sublist b table) e (Sublist-take batch_limit (Sublist-select p table))),
      Sublist-All (λ x. p x ≡ true) (batch-Sublist r (Sublist-refl (r ∷ rows))) all,
    )

not_in_ids :
    (y : PendingOp) (batch : List PendingOp)
    → All (λ x. (y.id == x.id) ≡ false) batch
    → contains y.id (ids_of batch) ≡ false
unfolding contains ids_of
not_in_ids y [] h = refl
not_in_ids y (x ∷ batch) h = ground (arith, h.0, not_in_ids y batch h.1)

-- A row whose id is in the batch is the row of the batch.
pub batch_row :
    (P : PendingOp → Type 0) {batch rows : List PendingOp}
    → Sublist batch rows
    → HasDistinctIds rows
    → All P batch
    → All (λ x. contains x.id (ids_of batch) ≡ true → P x) rows
unfolding contains ids_of
batch_row P (nothing {ys = rows}) d h =
    All-of (λ x. contains x.id (ids_of []) ≡ true → P x) rows (λ x e. cc)
batch_row P (skip {xs = batch} {ys = rows} y s) d h =
    let away = not_in_ids y batch (Sublist-All (λ x. (y.id == x.id) ≡ false) s d.0) in
    ((λ e. cc (e, away)), batch_row P s d.1 h)
batch_row P (keep {xs = batch} {ys = rows} y s) d h = (
  λ e. h.0,
  All-map2 (λ x. (y.id == x.id) ≡ false) (λ x. contains x.id (ids_of batch) ≡ true → P x)
      (λ x. contains x.id (ids_of (y ∷ batch)) ≡ true → P x) rows
      (λ x apart known e. known (ground (arith, apart, e))) d.0 (batch_row P s d.1 h.1),
)

-- No row is left in flight, and a pending one has a try left.
pub record IsSettled (r : PendingOp) : Type 0 where
  pub at_rest : r.state ≢ inflight
  pub has_try : r.state ≡ pending → r.attempts < max_attempts

Outcome-IsSettled :
    {account now : ℕ} {r : PendingOp} {w w' : World} {f : PendingOp → PendingOp} (x : PendingOp)
    → Outcome account now r w w' f
    → x.state ≡ pending
    → IsSettled x
    → IsSettled (f x)
Outcome-IsSettled x (finished h e) p v = record {
  at_rest = ground (arith, h x);
  has_try = ground (arith, h x);
}
Outcome-IsSettled x (suspended e h q) p v = record {
  at_rest = ground (arith, h x);
  has_try = ground (arith, h x, v.has_try);
}
Outcome-IsSettled x (retried e l h q) p v = record {
  at_rest = ground (arith, h x);
  has_try = ground (arith, h x);
}

is_due-pending : (account now : ℕ) (x : PendingOp) → is_due account now x ≡ true → x.state ≡ pending
is_due-pending account now x h = ground arith

-- A row of the batch was due.
abbrev WasDue : AccountId → ℕ → PendingOp → List PendingOp → PendingOp → Type 0
WasDue account now r batch x =
    contains x.id (ids_of (r ∷ batch)) ≡ true → is_due account now x ≡ true

chosen :
    (account now : ℕ) (r : PendingOp) (rows : List PendingOp) (table : List PendingOp)
    → due_rows account now table ≡ r ∷ rows
    → HasDistinctIds table
    → All (WasDue account now r (batch_tail r rows)) table
chosen account now r rows table e d =
    let (sub, due) = due_batch account now table e in
    batch_row (λ x. is_due account now x ≡ true) sub d due

-- Every batch, whatever the provider answers, leaves no operation in flight and every pending
-- operation with fewer than five attempts behind it, if that held before and operation ids are
-- distinct.
pub process_batch-IsSettled :
    (registry : Registry) (account queried failed_at : ℕ) (w : World)
    → HasDistinctIds w.pending_ops
    → All IsSettled w.pending_ops
    → All IsSettled (process_batch registry account queried failed_at w).0.pending_ops
process_batch-IsSettled registry account queried failed_at w d v =
    process_batch-cases (λ s. All IsSettled s.0.pending_ops) registry account queried failed_at w
      (λ n e. v)
      λ r rows e w' end. subst (All IsSettled) (sym end.rows) (
        All-update_where (λ x. WasDue account queried r (batch_tail r rows) x × IsSettled x)
          IsSettled (λ x. contains x.id (ids_of (r ∷ batch_tail r rows))) end.change w.pending_ops
          (λ x h hit.
            Outcome-IsSettled x end.outcome (is_due-pending account queried x (h.0 hit)) h.1)
          (λ x h miss. h.1)
          (All-map2 (WasDue account queried r (batch_tail r rows)) IsSettled
            (λ x. WasDue account queried r (batch_tail r rows) x × IsSettled x) w.pending_ops
            (λ x a b. (a, b)) (chosen account queried r rows w.pending_ops e d) v))

-- A batch neither adds nor drops a row, keeps what each row asks for, and changes only rows that
-- were due for the account when it looked, if operation ids are distinct.
pub process_batch-frame :
    (registry : Registry) (account queried failed_at : ℕ) (w : World)
    → HasDistinctIds w.pending_ops
    → All2
        (λ x y. SameOp y x × (is_due account queried x ≡ false → y ≡ x))
        w.pending_ops
        (process_batch registry account queried failed_at w).0.pending_ops
process_batch-frame registry account queried failed_at w d =
    process_batch-cases (λ s. All2 Kept w.pending_ops s.0.pending_ops) registry account queried
      failed_at w
      (λ n e. All2-refl Kept w.pending_ops (λ x. ((refl, refl, refl, refl, refl, refl), λ _. refl)))
      λ r rows e w' end. subst (All2 Kept w.pending_ops) (sym end.rows) (
        All2-update_where (WasDue account queried r (batch_tail r rows)) Kept
          (λ x. contains x.id (ids_of (r ∷ batch_tail r rows))) end.change w.pending_ops
          (λ x h hit. (end.same x, λ idle. cc (h hit, idle)))
          (λ x h miss. ((refl, refl, refl, refl, refl, refl), λ _. refl))
          (chosen account queried r rows w.pending_ops e d))
  where
    Kept : PendingOp → PendingOp → Type 0
    Kept x y = SameOp y x × (is_due account queried x ≡ false → y ≡ x)
