-- ===== src/Sync/Executor/Outcome.antt =====
-- The ways in which a batch can end, and what each does to the rows of the operations.
use dankmail.Base.{
  ℕ, ◌+◌, ◌<◌, Bool, true, ◌&&◌, List, [], ◌∷◌, ◌≡◌, refl, ◌⊎◌, inl, inr, arith, contains, ◌==◌,
  nat_eq, Bool-cases, ltb, update_where, update_where-twice, length, Option, none, some,
}
use dankmail.Errdefs.{Error, Failure, Result, ok, retryable, kind_of}
use dankmail.Provider.{Call}
use dankmail.Schema.{
  Account, PendingOp, pending, inflight, done, failed, Status, active, paused, auth_error,
}
use dankmail.Sync.World.{World, publish}
use dankmail.Sync.Queue.{op_from_row}
use dankmail.Sync.Executor.{
  Registry, ops_of, ids_of, update_ops, update_account, update_threads, handle_failure, settle,
  run_batch, retry_delay, max_attempts, is_auth, process_batch, process_found, process_active,
  process_due, due_rows, batch_tail, stops, find_account,
}

-- `f` is the change of each row of the batch.
pub data Outcome (account now : ℕ) (r : PendingOp) (w w' : World) (f : PendingOp → PendingOp)
    : Type 0 where
  finished :
      ((x : PendingOp) → ((f x).state ≡ done) ⊎ ((f x).state ≡ failed))
      → w'.accounts ≡ w.accounts
      → Outcome account now r w w' f
  suspended :
      (e : Error)
      → ((x : PendingOp) → ((f x).state ≡ pending) × ((f x).attempts ≡ x.attempts))
      → w'.accounts
        ≡ update_where
            (λ a. a.id == account)
            (λ a. record a { status = auth_error; last_error = some e })
            w.accounts
      → Outcome account now r w w' f
  retried :
      (e : Error)
      → r.attempts + 1 < max_attempts
      → ((x : PendingOp)
          → ((f x).state ≡ pending)
            × ((f x).attempts ≡ r.attempts + 1)
            × ((f x).next_attempt_at ≡ some (now + retry_delay r.attempts e)))
      → w'.accounts ≡ w.accounts
      → Outcome account now r w w' f

-- What a batch never changes in a row.
abbrev pub SameOp : PendingOp → PendingOp → Type 0
SameOp x y =
    (x.id ≡ y.id)
    × (x.account ≡ y.account)
    × (x.provider_thread_ids ≡ y.provider_thread_ids)
    × (x.op_type ≡ y.op_type)
    × (x.payload ≡ y.payload)
    × (x.created_at ≡ y.created_at)

abbrev in_batch : PendingOp → List PendingOp → PendingOp → Bool
in_batch r batch x = contains x.id (ids_of (r ∷ batch))

-- The rows of the batch are changed by `f`, the others are not.
pub record Ended (account now : ℕ) (r : PendingOp) (batch : List PendingOp) (w w' : World)
    : Type 0 where
  pub change : PendingOp → PendingOp
  pub same : (x : PendingOp) → SameOp (change x) x
  pub rows : w'.pending_ops ≡ update_where (in_batch r batch) change w.pending_ops
  pub outcome : Outcome account now r w w' change

-- The calls that were made do not matter to the rows.
unmarked-Outcome :
    {account now : ℕ} {r : PendingOp} {w w' : World} {f : PendingOp → PendingOp} {calls : List Call}
    → Outcome account now r (record w { calls = calls }) w' f
    → Outcome account now r w w' f
unmarked-Outcome (finished h e) = finished h e
unmarked-Outcome (suspended e h q) = suspended e h q
unmarked-Outcome (retried e l h q) = retried e l h q

mark : PendingOp → PendingOp
mark x = record x { state = inflight }

handle_failure-Ended :
    (account now : ℕ) (r : PendingOp) (batch : List PendingOp) (e : Error) (w : World)
    → Ended account now r batch w (
        handle_failure account now
          (op_from_row r account)
          (ops_of account batch)
          (ids_of (r ∷ batch))
          e
          (update_ops (ids_of (r ∷ batch)) mark w))
unfolding handle_failure update_ops update_account update_threads publish op_from_row mark
handle_failure-Ended account now r batch e w = elim (Bool-cases (is_auth (kind_of (some e)))) [
  | inl auth ↦
      rw (auth, handle_failure)
        (record {
          change = λ x. record x { state = pending; last_error = some e };
          same = λ x. (refl, refl, refl, refl, refl, refl);
          rows = update_where-twice (in_batch r batch) _ _ w.pending_ops (λ x. refl);
          outcome = suspended e (λ x. (refl, refl)) refl;
        })
  | inr other ↦ elim (Bool-cases (retryable (some e) && ltb (r.attempts + 1) max_attempts)) [
    | inl again ↦
        rw (other, again, handle_failure)
          (record {
            change = λ x. record x {
              state = pending;
              attempts = r.attempts + 1;
              next_attempt_at = some (now + retry_delay r.attempts e);
              last_error = some e;
            };
            same = λ x. (refl, refl, refl, refl, refl, refl);
            rows = update_where-twice (in_batch r batch) _ _ w.pending_ops (λ x. refl);
            outcome = retried e (ground arith) (λ x. (refl, refl, refl)) refl;
          })
    | inr last ↦
        rw (other, last, handle_failure)
          (record {
            change =
                λ x. record x { state = failed; attempts = r.attempts + 1; last_error = some e };
            same = λ x. (refl, refl, refl, refl, refl, refl);
            rows = update_where-twice (in_batch r batch) _ _ w.pending_ops (λ x. refl);
            outcome = finished (λ x. inr refl) refl;
          })
  ]
]

settle-Ended :
    (account now : ℕ) (r : PendingOp) (batch : List PendingOp) (answer : Failure)
    (calls : List Call) (w : World)
    → Ended account now r batch w (
        settle account now
          (op_from_row r account)
          (ops_of account batch)
          (ids_of (r ∷ batch))
          answer
          (record (update_ops (ids_of (r ∷ batch)) mark w) { calls = calls }))
unfolding settle update_ops update_account update_threads publish op_from_row mark
settle-Ended account now r batch none calls w = record {
  change = λ x. record x { state = done; last_error = none };
  same = λ x. (refl, refl, refl, refl, refl, refl);
  rows = update_where-twice (in_batch r batch) _ _ w.pending_ops (λ x. refl);
  outcome = finished (λ x. inl refl) refl;
}
settle-Ended account now r batch (some e) calls w =
    unmarked (handle_failure-Ended account now r batch e (record w { calls = calls }))
  where
    unmarked :
        {w' : World}
        → Ended account now r batch (record w { calls = calls }) w'
        → Ended account now r batch w w'
    unmarked d = record {
      change = d.change;
      same = d.same;
      rows = d.rows;
      outcome = unmarked-Outcome d.outcome;
    }

run_batch-Ended :
    (registry : Registry) (account now : ℕ) (r : PendingOp) (batch : List PendingOp) (w : World)
    → Ended account now r batch w (run_batch registry account now r batch w)
unfolding run_batch mark
run_batch-Ended registry account now r batch w = settle-Ended account now r batch _ _ w

-- A batch is run or, with nothing changed, none is.
pub process_batch-cases {ℓ} :
    (P : World × Result ℕ → Type ℓ) (registry : Registry) (account queried failed_at : ℕ)
    (w : World)
    → ((n : Result ℕ) → stops n ≡ true → P (w, n))
    → ((r : PendingOp) (rows : List PendingOp)
        → due_rows account queried w.pending_ops ≡ r ∷ rows
        → (w' : World) → Ended account failed_at r (batch_tail r rows) w w'
        → P (w', ok (length (r ∷ batch_tail r rows))))
    → P (process_batch registry account queried failed_at w)
unfolding process_batch process_found process_active process_due
process_batch-cases P registry account queried failed_at w idle taken =
    by_account (find_account account w.accounts)
  where
    by_rows :
        (rows : List PendingOp)
        → due_rows account queried w.pending_ops ≡ rows
        → P (process_due registry account failed_at rows w)
    by_rows [] e = idle (ok 0) refl
    by_rows (r ∷ rows) e =
        taken r rows e _ (run_batch-Ended registry account failed_at r (batch_tail r rows) w)

    by_status : (s : Status) → P (process_active registry account queried failed_at s w)
    by_status active = by_rows (due_rows account queried w.pending_ops) refl
    by_status paused = idle (ok 0) refl
    by_status auth_error = idle (ok 0) refl

    by_account : (o : Option Account) → P (process_found registry account queried failed_at o w)
    by_account none = idle _ refl
    by_account (some a) = by_status a.status
