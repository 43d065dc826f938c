-- ===== src/Sync/Executor/Retries.antt =====
-- executor.go, the retry policy: handleFailure, and the updates that it writes.
use dankmail.Base.{
  ℕ, ◌+◌, ◌-◌, ◌*◌, min, max, Bool, true, false, ◌&&◌, List, [], ◌∷◌, some, ◌==◌, ltb,
  if◌then◌else◌, update_where, contains, length, string_eq, nat_eq, get_or,
}
use dankmail.Errdefs.{Error, Kind, kind_of, retryable, retry_after, auth}
use dankmail.Schema.{Account, Thread, PendingOp, pending, failed, auth_error}
use dankmail.Sync.Types.{AccountId, Op}
use dankmail.Sync.World.{World, publish, threads_changed, account_auth, op_failed}
use dankmail.Sync.Queue.{revert_local}

-- Nanoseconds.
abbrev pub second : ℕ
second = 1_000_000_000

abbrev pub max_attempts : ℕ
max_attempts = 5

abbrev pub default_backoff : List ℕ
default_backoff = (2 * second) ∷ (8 * second) ∷ (30 * second) ∷ (120 * second) ∷ (300 * second) ∷ []

-- `PendingOp.Update().Where(IDIn(ids…))`.
unfoldable pub update_ops : List ℕ → (PendingOp → PendingOp) → World → World
update_ops ids f w = record w {
  cache = record w.cache { pending_ops = update_where (λ r. contains r.id ids) f w.pending_ops };
}

unfoldable pub update_account : AccountId → (Account → Account) → World → World
update_account account f w = record w {
  cache = record w.cache { accounts = update_where (λ a. a.id == account) f w.accounts };
}

unfoldable pub update_threads : (List Thread → List Thread) → World → World
update_threads f w = record w { cache = record w.cache { threads = f w.threads } }

-- The three cases of `handleFailure`.
unfoldable pub pause : AccountId → List ℕ → Error → World → World
pause account ids e w = publish (account_auth account) (
    update_account account (λ a. record a { status = auth_error; last_error = some e })
      (update_ops ids (λ r. record r { state = pending; last_error = some e }) w))

unfoldable pub retry_delay : ℕ → Error → ℕ
retry_delay attempts e =
    max (get_or default_backoff (min attempts (length default_backoff - 1)) 0)
      (retry_after (some e))

unfoldable pub retry : ℕ → ℕ → List ℕ → Error → World → World
retry now attempts ids e w =
    update_ops ids
      (λ r. record r {
        state = pending;
        attempts = attempts + 1;
        next_attempt_at = some (now + retry_delay attempts e);
        last_error = some e;
      })
      w

unfoldable pub revert_all : List Op → List Thread → List Thread
revert_all [] threads = threads
revert_all (op ∷ ops) threads = revert_all ops (revert_local op threads)

unfoldable pub give_up : AccountId → Op → List Op → List ℕ → Error → World → World
give_up account op ops ids e w = publish (threads_changed account) (
    publish (op_failed account op.type e) (
      update_ops ids
        (λ r. record r { state = failed; attempts = op.attempts + 1; last_error = some e })
        (update_threads (revert_all (op ∷ ops)) w)))

abbrev pub is_auth : Kind → Bool
is_auth auth = true
is_auth _ = false

unfoldable pub handle_failure : AccountId → ℕ → Op → List Op → List ℕ → Error → World → World
unfolding pause retry give_up
handle_failure account now op ops ids e w =
    if is_auth (kind_of (some e))
    then pause account ids e w
    else if retryable (some e) && ltb (op.attempts + 1) max_attempts
    then retry now op.attempts ids e w
    else give_up account op ops ids e w
