-- ===== src/Sync/Janitor/Sweep.antt =====
-- What a sweep removes.
use dankmail.Base.{
  ℕ, Bool, true, not, ◌&&◌, String, List, [], ◌∷◌, ◌≡◌, refl, sym, ap, ◌∙◌, inl, inr, arith, All,
  select, contains, delete_where, string_eq, Bool-cases, some, ◌⊎◌, ◌↔◌, ◌≤◌, ◌+◌, ◌*◌, All-map,
}
use dankmail.Schema.{Cache, Thread, PendingOp, IsIndexed, delete_rows, delete_thread}
use dankmail.Schema.Deletion.{delete_rows-select, has_row, has_row-select}
use dankmail.Sync.Janitor.{
  Janitor, sweep_once, sweep_ops, prune, frozen_ids, is_expired, is_open, hour,
}

-- Sweeping the finished operations does not change what is frozen.
frozen_ids-sweep :
    (j : Janitor) (now : ℕ) (rows : List PendingOp)
    → frozen_ids (sweep_ops j now rows) ≡ frozen_ids rows
unfolding frozen_ids sweep_ops delete_where select
frozen_ids-sweep j now [] = refl
frozen_ids-sweep j now (r ∷ rows) = ground (arith, frozen_ids-sweep j now rows)

-- Why a thread is kept: it is starred, snoozed, recent, recently browsed, or has an open operation.
abbrev pub IsProtected : Janitor → ℕ → Cache → Thread → Type 0
IsProtected j now c t =
    (t.starred ≡ true)
    ⊎ ((until : ℕ) × (t.snoozed_until ≡ some until))
    ⊎ (now ≤ t.last_message_at + j.retention_days * (24 * hour))
    ⊎ ((at : ℕ) × (t.history_loaded_at ≡ some at) × (now ≤ at + j.retention_days * (24 * hour)))
    ⊎ (contains t.provider_thread_id (frozen_ids c.pending_ops) ≡ true)

abbrev keeps_thread : Janitor → ℕ → Cache → Thread → Bool
keeps_thread j now c t =
    not (is_expired j now t && not (contains t.provider_thread_id (frozen_ids c.pending_ops)))

keeps_thread-IsProtected :
    (j : Janitor) (now : ℕ) (c : Cache) (t : Thread)
    → (keeps_thread j now c t ≡ true → IsProtected j now c t)
      × (IsProtected j now c t → keeps_thread j now c t ≡ true)
unfolding is_expired
keeps_thread-IsProtected j now c t = (λ h. ground arith, λ h. ground arith)

sweep_once-threads :
    (j : Janitor) (now : ℕ) (c : Cache)
    → IsIndexed c.threads
    → (sweep_once j now c).threads ≡ select (keeps_thread j now c) c.threads
unfolding sweep_once prune
sweep_once-threads j now c h =
    delete_rows-select (is_expired j now)
      (λ t. contains t.provider_thread_id (frozen_ids (sweep_ops j now c.pending_ops)))
      (record c { pending_ops = sweep_ops j now c.pending_ops }) h
    ∙ ap
        (λ ids.
          select (λ t. not (is_expired j now t && not (contains t.provider_thread_id ids)))
            c.threads)
        (frozen_ids-sweep j now c.pending_ops)

-- A sweep keeps a thread exactly if it is starred, snoozed, has had a message within the window, was
-- browsed within the window, or is named by an operation that is pending or in flight, provided that
-- the ids and keys of the thread table are unique.
pub sweep_once_retention :
    (j : Janitor) (now : ℕ) (c : Cache)
    → IsIndexed c.threads
    → All
        (λ t. (has_row t.id (sweep_once j now c).threads ≡ true) ↔ IsProtected j now c t)
        c.threads
sweep_once_retention j now c h = rw (sweep_once-threads j now c h) (
    All-map (λ t. has_row t.id (select (keeps_thread j now c) c.threads) ≡ keeps_thread j now c t)
      (λ t. (has_row t.id (select (keeps_thread j now c) c.threads) ≡ true) ↔ IsProtected j now c t)
      c.threads
      (λ t e. (
        λ k. (keeps_thread-IsProtected j now c t).0 (sym e ∙ k),
        λ k. e ∙ (keeps_thread-IsProtected j now c t).1 k,
      ))
      (has_row-select (keeps_thread j now c) c.threads h))

delete_rows-ops :
    (skip : Thread → Bool) (rows : List Thread) (c : Cache)
    → (delete_rows skip rows c).pending_ops ≡ c.pending_ops
unfolding delete_rows delete_thread
delete_rows-ops skip [] c = refl
delete_rows-ops skip (t ∷ rows) c = elim (Bool-cases (skip t)) [
  | inl e ↦ rw (e, delete_rows) (delete_rows-ops skip rows c)
  | inr e ↦ rw (e, delete_rows) (delete_rows-ops skip rows (delete_thread t.id c))
]

prune-ops :
    (j : Janitor) (now : ℕ) (frozen : List String) (c : Cache)
    → (prune j now frozen c).pending_ops ≡ c.pending_ops
unfolding prune
prune-ops j now frozen c = delete_rows-ops _ (select (is_expired j now) c.threads) c

sweep_ops-open :
    (j : Janitor) (now : ℕ) (rows : List PendingOp)
    → select (λ r. is_open r.state) (sweep_ops j now rows) ≡ select (λ r. is_open r.state) rows
unfolding sweep_ops delete_where select
sweep_ops-open j now [] = refl
sweep_ops-open j now (r ∷ rows) = ground (arith, sweep_ops-open j now rows)

-- A sweep removes no operation that is still pending or in flight.
pub sweep_once-open :
    (j : Janitor) (now : ℕ) (c : Cache)
    → select (λ r. is_open r.state) (sweep_once j now c).pending_ops
      ≡ select (λ r. is_open r.state) c.pending_ops
unfolding sweep_once
sweep_once-open j now c =
    ap (select (λ r. is_open r.state)) (prune-ops j now _ _) ∙ sweep_ops-open j now c.pending_ops
