-- ===== src/Sync/Executor.antt =====
-- core/internal/sync/executor.go: the executor that drains one account's operations against its
-- provider. A clock reading is an argument; rows stand in the order of their ids.
mod Calls
mod Retries
pub mod Batch
pub mod Stacked
pub mod Outcome
pub mod Invariant
pub mod Drain
unfoldable pub use Calls.*
unfoldable pub use Retries.*
use dankmail.Base.{
  ℕ, zero, suc, ◌+◌, Bool, true, false, not, ◌&&◌, List, [], ◌∷◌, map, Option, none, some, ◌==◌,
  leb, if◌then◌else◌, select, take, length, string_eq, nat_eq,
}
use dankmail.Errdefs.{plain, Failure, Result, ok, err}
use dankmail.Schema.{Account, PendingOp, OpState, pending, inflight, done, Status, active}
use dankmail.Sync.Types.{AccountId, Op, OpType, op_type_discrete, batchable}
use dankmail.Sync.World.{World, publish, ops_applied}
use dankmail.Sync.Queue.{op_from_row}

abbrev pub batch_limit : ℕ
batch_limit = 50

-- `NextAttemptAtIsNil` or `NextAttemptAtLTE(now)`.
abbrev pub due_at : ℕ → Option ℕ → Bool
due_at now none = true
due_at now (some t) = leb t now

abbrev pub is_pending : OpState → Bool
is_pending pending = true
is_pending _ = false

abbrev pub is_due : AccountId → ℕ → PendingOp → Bool
is_due account now r = r.account == account && is_pending r.state && due_at now r.next_attempt_at

unfoldable pub due_rows : AccountId → ℕ → List PendingOp → List PendingOp
due_rows account now rows = take batch_limit (select (is_due account now) rows)

abbrev pub same_type : OpType → OpType → Bool
same_type a b = elim (op_type_discrete a b) [ yes e ↦ true | no d ↦ false ]

-- The rows before the first of another type.
unfoldable pub same_prefix : OpType → List PendingOp → List PendingOp
same_prefix type [] = []
same_prefix type (r ∷ rows) =
    let rest = same_prefix type rows in if same_type r.op_type type then r ∷ rest else []

unfoldable pub coalesce : PendingOp → List PendingOp → List PendingOp
coalesce r rows = r ∷ (if batchable r.op_type then same_prefix r.op_type rows else [])

unfoldable pub ops_of : AccountId → List PendingOp → List Op
ops_of account = map (λ r. op_from_row r account)

unfoldable pub ids_of : List PendingOp → List ℕ
ids_of = map (λ r. r.id)

-- What follows the provider's answer.
settle : AccountId → ℕ → Op → List Op → List ℕ → Failure → World → World
settle account now op ops ids none w =
    publish (ops_applied account op.type (length (op ∷ ops)))
      (update_ops ids (λ r. record r { state = done; last_error = none }) w)
settle account now op ops ids (some e) w = handle_failure account now op ops ids e w

-- `now` is the reading of the clock after the call.
run_batch : Registry → AccountId → ℕ → PendingOp → List PendingOp → World → World
unfolding settle
run_batch registry account now r batch w =
    let op = op_from_row r account in
    let ops = ops_of account batch in
    let ids = ids_of (r ∷ batch) in
    let marked = update_ops ids (λ x. record x { state = inflight }) w in
    let (answer, calls) = call (registry account) (plan op ops) marked.calls in
    settle account now op ops ids answer (record marked { calls = calls })

unfoldable pub find_account : AccountId → List Account → Option Account
find_account account [] = none
find_account account (a ∷ rest) = if a.id == account then some a else find_account account rest

-- The tail of a coalesced batch.
abbrev pub batch_tail : PendingOp → List PendingOp → List PendingOp
batch_tail r rows = if batchable r.op_type then same_prefix r.op_type rows else []

process_due : Registry → AccountId → ℕ → List PendingOp → World → World × Result ℕ
unfolding run_batch
process_due registry account now [] w = (w, ok 0)
process_due registry account now (r ∷ rows) w =
    let batch = batch_tail r rows in
    (run_batch registry account now r batch w, ok (length (r ∷ batch)))

process_active : Registry → AccountId → ℕ → ℕ → Status → World → World × Result ℕ
unfolding process_due
process_active registry account queried failed_at active w =
    process_due registry account failed_at (due_rows account queried w.pending_ops) w
process_active registry account queried failed_at _ w = (w, ok 0)

process_found : Registry → AccountId → ℕ → ℕ → Option Account → World → World × Result ℕ
unfolding process_active
process_found registry account queried failed_at none w = (w, err (plain "ent: account not found"))
process_found registry account queried failed_at (some a) w =
    process_active registry account queried failed_at a.status w

-- The clock is read when the rows are queried and again when a failure is handled. The number is
-- that of the operations taken.
unfoldable pub process_batch : Registry → AccountId → ℕ → ℕ → World → World × Result ℕ
unfolding process_found find_account
process_batch registry account queried failed_at w =
    process_found registry account queried failed_at (find_account account w.accounts) w

abbrev pub stops : Result ℕ → Bool
stops (ok zero) = true
stops (ok (suc n)) = false
stops (err e) = true

-- `Drain`: `none` if there is no fuel for another batch. `clock` lists the readings of the clock.
unfoldable pub drain : Registry → AccountId → (ℕ → ℕ) → ℕ → ℕ → World → Option World
drain registry account clock zero i w = none
drain registry account clock (suc fuel) i w =
    let (w', n) = process_batch registry account (clock i) (clock (i + 1)) w in
    let rest = drain registry account clock fuel (i + 2) w' in if stops n then some w' else rest
