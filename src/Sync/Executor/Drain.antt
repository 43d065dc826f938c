-- ===== src/Sync/Executor/Drain.antt =====
-- `Drain` ends.
use dankmail.Base.{
  ℕ, zero, suc, ◌+◌, ◌*◌, ◌≤◌, ◌<◌, true, false, List, [], ◌∷◌, ◌≡◌, refl, sym, ◌∙◌, ◌⊎◌, inl, inr,
  arith, contains, ◌==◌, nat_eq, Bool-cases, update_where, select, length, subst, some, ==-self,
  length-select-update_where_lt, min, get_or,
}
use dankmail.Errdefs.{Error, Result, retry_after}
use dankmail.Schema.{Account, PendingOp, auth_error}
use dankmail.Sync.Types.{AccountId}
use dankmail.Sync.World.{World}
use dankmail.Sync.Executor.{
  Registry, ids_of, process_batch, due_rows, is_due, batch_tail, drain, stops, second, retry_delay,
  find_account, process_found, process_active, default_backoff,
}
use dankmail.Sync.Executor.Outcome.{
  Outcome, finished, suspended, retried, Ended, process_batch-cases,
}
use dankmail.Sync.Executor.Invariant.{due_batch}

-- How many operations of the account are due at `t`.
abbrev pub backlog : AccountId → ℕ → World → ℕ
backlog account t w = length (select (is_due account t) w.pending_ops)

backoff_at_least : (n : ℕ) → 2 * second ≤ get_or default_backoff (min n 4) 0
backoff_at_least zero = omega arith
backoff_at_least (suc zero) = omega arith
backoff_at_least (suc (suc zero)) = omega arith
backoff_at_least (suc (suc (suc zero))) = omega arith
backoff_at_least (suc (suc (suc (suc n)))) =
    let last : min (suc (suc (suc (suc n)))) 4 ≡ 4 = omega arith in rw last (omega arith)

-- A failed operation waits two seconds at least, and as long as the provider asks.
pub retry_delay-le :
    (attempts : ℕ) (e : Error)
    → (2 * second ≤ retry_delay attempts e) × (retry_after (some e) ≤ retry_delay attempts e)
unfolding retry_delay
retry_delay-le attempts e = omega (arith, backoff_at_least attempts)

-- The account is not active: the next batch finds nothing to do.
auth_error-stops :
    (registry : Registry) (account q t : ℕ) (e : Error) (accounts : List Account) (w : World)
    → stops
        (process_found registry account q t
          (find_account account (
            update_where
              (λ a. a.id == account)
              (λ a. record a { status = auth_error; last_error = some e })
              accounts))
          w).1
      ≡ true
unfolding process_found process_active find_account update_where
auth_error-stops registry account q t e [] w = refl
auth_error-stops registry account q t e (a ∷ rest) w = elim (Bool-cases (a.id == account)) [
  | inl hit ↦ rw (hit, find_account, hit) refl
  | inr miss ↦ rw (miss, find_account, miss) (auth_error-stops registry account q t e rest w)
]

module _ (account start horizon : ℕ) (short : horizon < start + 2 * second) where
  -- An operation that a batch has changed is not due before the horizon, or the account is paused.
  settled_late :
      {now : ℕ} {r : PendingOp} {w w' : World} {f : PendingOp → PendingOp}
      → start ≤ now
      → Outcome account now r w w' f
      → ((registry : Registry) (q t : ℕ) → stops (process_batch registry account q t w').1 ≡ true)
        ⊎ ((x : PendingOp) → is_due account horizon (f x) ≡ false)
  unfolding process_batch
  settled_late h (finished s a) = inr (λ x. ground (arith, s x))
  settled_late {w} {w'} h (suspended e s a) = inl (λ registry q t.
      subst (λ l. stops (process_found registry account q t (find_account account l) w').1 ≡ true)
        (sym a) (auth_error-stops registry account q t e w.accounts w'))
  settled_late {now} {r} h (retried e l s a) =
      inr (λ x. ground (arith, s x, retry_delay-le r.attempts e))

  is_due_mono :
      (q : ℕ) (x : PendingOp)
      → q ≤ horizon
      → is_due account q x ≡ true
      → is_due account horizon x ≡ true
  is_due_mono q x h d = ground arith

  Ended-backlog :
      {q now : ℕ} {r : PendingOp} {rows : List PendingOp} {w w' : World}
      → q ≤ horizon
      → due_rows account q w.pending_ops ≡ r ∷ rows
      → (end : Ended account now r (batch_tail r rows) w w')
      → ((x : PendingOp) → is_due account horizon (end.change x) ≡ false)
      → backlog account horizon w' < backlog account horizon w
  unfolding contains ids_of
  Ended-backlog {q} {r} {rows} {w} {w'} h e end late =
      let (sub, due) = due_batch account q w.pending_ops e in
      let p = λ (x : PendingOp). contains x.id (ids_of (r ∷ batch_tail r rows)) in
      let hit : p r ≡ true = rw (==-self r.id) in
      subst (λ l. length (select (is_due account horizon) l) < backlog account horizon w)
        (sym end.rows)
        (length-select-update_where_lt (is_due account horizon) p end.change r (λ x _. late x) sub
          (is_due_mono q r h due.0) hit)

  module _ (registry : Registry) (clock : ℕ → ℕ)
      (window : (k : ℕ) → (start ≤ clock k) × (clock k ≤ horizon)) where
    abbrev Idle : ℕ → World → Type 0
    Idle i w = stops (process_batch registry account (clock i) (clock (i + 1)) w).1 ≡ true

    abbrev Ends : World → World × Result ℕ → Type 0
    Ends w s =
        ((stops s.1 ≡ true) × (s.0 ≡ w))
        ⊎ ((stops s.1 ≡ false)
            × (((q t : ℕ) → stops (process_batch registry account q t s.0).1 ≡ true)
                ⊎ (backlog account horizon s.0 < backlog account horizon w)))

    process_batch-Ends :
        (i : ℕ) (w : World) → Ends w (process_batch registry account (clock i) (clock (i + 1)) w)
    process_batch-Ends i w =
        process_batch-cases (Ends w) registry account (clock i) (clock (i + 1)) w
          (λ n e. inl (e, refl))
          λ r rows e w' end. inr (
            refl,
            (elim (settled_late (window (i + 1)).0 end.outcome) [
              | inl idle ↦ inl (idle registry)
              | inr late ↦ inr (Ended-backlog (window i).1 e end late)
            ]),
          )

    drain_once :
        (fuel i : ℕ) (w : World)
        → Idle i w
        → (process_batch registry account (clock i) (clock (i + 1)) w).0 ≡ w
        → drain registry account clock (suc fuel) i w ≡ some w
    unfolding drain
    drain_once fuel i w idle same = rw (idle, same)

    drain_next :
        (fuel i : ℕ) (w : World)
        → stops (process_batch registry account (clock i) (clock (i + 1)) w).1 ≡ false
        → drain registry account clock (suc fuel) i w
          ≡ drain registry account clock fuel
              (i + 2)
              (process_batch registry account (clock i) (clock (i + 1)) w).0
    unfolding drain
    drain_next fuel i w more = rw more

    Idle-same :
        (i : ℕ) (w : World)
        → Idle i w
        → (process_batch registry account (clock i) (clock (i + 1)) w).0 ≡ w
    Idle-same i w idle = elim (process_batch-Ends i w) [ inl e ↦ e.1 | inr e ↦ cc (idle, e.0) ]

    abbrev Drained : ℕ → ℕ → World → Type 0
    Drained fuel i w =
        (w' : World) × (j : ℕ) × (drain registry account clock fuel i w ≡ some w') × Idle j w'

    drain-Idle : (fuel i : ℕ) (w : World) → Idle i w → Drained (suc fuel) i w
    drain-Idle fuel i w idle = (w, i, drain_once fuel i w idle (Idle-same i w idle), idle)

    -- Draining ends: while all readings of the clock lie within less than two seconds, fuel for two
    -- batches more than there are operations due at the end of that time is enough, whatever the
    -- provider answers, and the last look finds nothing to do.
    pub drain-total :
        (fuel i : ℕ) (w : World) → backlog account horizon w + 1 < fuel → Drained fuel i w
    drain-total zero i w h = absurd (omega arith)
    drain-total (suc zero) i w h = absurd (omega arith)
    drain-total (suc (suc fuel)) i w h =
        let w' = (process_batch registry account (clock i) (clock (i + 1)) w).0 in
        elim (process_batch-Ends i w) [
          | inl (stop, same) ↦ drain-Idle (suc fuel) i w stop
          | inr (more, inl halted) ↦
              let (u, j, e, idle) =
                drain-Idle fuel (i + 2) w' (halted (clock (i + 2)) (clock (i + 2 + 1))) in
              (u, j, drain_next (suc fuel) i w more ∙ e, idle)
          | inr (more, inr fewer) ↦
              let (u, j, e, idle) = drain-total (suc fuel) (i + 2) w' (omega arith) in
              (u, j, drain_next (suc fuel) i w more ∙ e, idle)
        ]
