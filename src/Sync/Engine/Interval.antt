-- ===== src/Sync/Engine/Interval.antt =====
-- engine.go, the pause between two syncs.
use dankmail.Base.{ℕ, ◌≤◌, ◌*◌, Option, none, some, leb, arith, inl, inr, Bool-cases}
use dankmail.Errdefs.{Failure, retry_after}
use dankmail.Schema.{Account}
use dankmail.Sync.Engine.{
  interval_of_settings, interval_of_config, account_interval, next_sync_delay,
}
use dankmail.Settings.{min_poll_seconds}
use dankmail.Sync.Executor.{second}

abbrev floor : ℕ
floor = min_poll_seconds * second

settings-ge : (settings : Option ℕ) → floor ≤ interval_of_settings settings
unfolding interval_of_settings
settings-ge none = ground arith
settings-ge (some secs) = elim (Bool-cases (leb min_poll_seconds secs)) [
  | inl e ↦ rw e (ground arith)
  | inr e ↦ rw e (ground arith)
]

config-ge : (config settings : Option ℕ) → floor ≤ interval_of_config config settings
unfolding interval_of_config
config-ge none settings = settings-ge settings
config-ge (some secs) settings = elim (Bool-cases (leb min_poll_seconds secs)) [
  | inl e ↦ rw e (ground arith)
  | inr e ↦ rw e (settings-ge settings)
]

-- Whatever the configuration and the settings say, the poll loop waits at least ten seconds after a
-- sync, and at least as long as the retry hint of the sync's error.
pub next_sync_delay-ge :
    (settings : Option ℕ) (a : Account) (e : Failure)
    → (min_poll_seconds * second ≤ next_sync_delay settings a e)
      × (retry_after e ≤ next_sync_delay settings a e)
unfolding next_sync_delay account_interval
next_sync_delay-ge settings a e =
    let low = config-ge a.poll_seconds settings in (ground arith, ground arith)
