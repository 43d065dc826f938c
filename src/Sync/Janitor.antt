-- ===== src/Sync/Janitor.antt =====
-- core/internal/sync/janitor.go: the retention job. Times and ages are nanoseconds; a row is older
-- than an age when its time and the age are together before now.
pub mod Sweep
use dankmail.Base.{
  ℕ, ◌+◌, ◌*◌, String, Bool, true, false, not, ◌&&◌, List, [], ◌∷◌, ◌++◌, Option, none, some, ltb,
  ◌==◌, nat_eq, string_eq, if◌then◌else◌, contains, select, delete_where,
}
use dankmail.Schema.{
  Cache, Thread, PendingOp, OpState, pending, inflight, done, failed, delete_rows,
}

abbrev pub hour : ℕ
hour = 3600 * 1_000_000_000

-- `interval`, which only paces the loop of `Run`, is left out.
pub record Janitor : Type 0 where
  pub retention_days : ℕ
  pub done_max_age : ℕ
  pub failed_max_age : ℕ

unfoldable pub new_janitor : ℕ → Janitor
new_janitor retention_days = record {
  retention_days = if retention_days == 0 then 30 else retention_days;
  done_max_age = 24 * hour;
  failed_max_age = 7 * (24 * hour);
}

abbrev is_done : OpState → Bool
is_done done = true
is_done _ = false

abbrev is_failed : OpState → Bool
is_failed failed = true
is_failed _ = false

abbrev pub older : ℕ → ℕ → ℕ → Bool
older age now t = ltb (t + age) now

unfoldable pub sweep_ops : Janitor → ℕ → List PendingOp → List PendingOp
sweep_ops j now rows =
    delete_where (λ r. is_failed r.state && older j.failed_max_age now r.created_at)
      (delete_where (λ r. is_done r.state && older j.done_max_age now r.created_at) rows)

-- `StateIn(pending, inflight)`.
abbrev pub is_open : OpState → Bool
is_open pending = true
is_open inflight = true
is_open _ = false

unfoldable pub thread_ids_of : List PendingOp → List String
thread_ids_of [] = []
thread_ids_of (r ∷ rows) = r.provider_thread_ids ++ thread_ids_of rows

unfoldable pub frozen_ids : List PendingOp → List String
unfolding thread_ids_of
frozen_ids rows = thread_ids_of (select (λ r. is_open r.state) rows)

abbrev older_or_never : ℕ → ℕ → Option ℕ → Bool
older_or_never age now none = true
older_or_never age now (some t) = older age now t

abbrev is_none {ℓ} : {A : Type ℓ} → Option A → Bool
is_none none = true
is_none (some a) = false

-- The rows beyond the retention window. In UTC a day has 24 hours.
unfoldable pub is_expired : Janitor → ℕ → Thread → Bool
is_expired j now t =
    let age = j.retention_days * (24 * hour) in
    older age now t.last_message_at
    && (older_or_never age now t.history_loaded_at && (not t.starred && is_none t.snoozed_until))

unfoldable pub prune : Janitor → ℕ → List String → Cache → Cache
prune j now frozen c =
    delete_rows (λ t. contains t.provider_thread_id frozen) (select (is_expired j now) c.threads) c

unfoldable pub sweep_once : Janitor → ℕ → Cache → Cache
unfolding prune sweep_ops
sweep_once j now c =
    let ops = sweep_ops j now c.pending_ops in
    prune j now (frozen_ids ops) (record c { pending_ops = ops })
