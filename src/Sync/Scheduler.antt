-- ===== src/Sync/Scheduler.antt =====
-- core/internal/sync/scheduler.go: waking the snoozed threads. A thread row always has its account.
pub mod Wakes
use dankmail.Base.{ℕ, Bool, false, List, [], ◌∷◌, Option, none, some, leb, select}
use dankmail.Errdefs.{Failure}
use dankmail.Rules.{Policies}
use dankmail.Schema.{Thread}
use dankmail.Sync.Types.{Op, snooze_wake}
use dankmail.Sync.World.{World, publish, snooze_woke}
use dankmail.Sync.Queue.{enqueue}

-- `SnoozedUntilNotNil` and `SnoozedUntilLTE(now)`.
abbrev is_past : ℕ → Option ℕ → Bool
is_past now none = false
is_past now (some until) = leb until now

abbrev pub is_snooze_due : ℕ → Thread → Bool
is_snooze_due now t = is_past now t.snoozed_until

abbrev until_of : Option ℕ → ℕ
until_of none = 0
until_of (some until) = until

unfoldable pub wake_op : Bool → Thread → Op
wake_op mark_unread t = record {
  id = 0;
  account_id = t.account;
  type = snooze_wake;
  thread_ids = t.provider_thread_id ∷ [];
  payload = record {
    reply = none;
    compose = none;
    snooze = some (record { until = until_of t.snoozed_until; mark_unread = mark_unread });
    prev = [];
  };
  attempts = 0;
}

wake_next : Thread → World × Failure → (World → World × Failure) → World × Failure
wake_next t (w, some e) rest = (w, some e)
wake_next t (w, none) rest = rest (publish (snooze_woke t.account t.provider_thread_id t.subject) w)

-- The loop over the due rows; `now` is the time that the new rows are created.
unfoldable pub wake_rows : Policies → Bool → ℕ → List Thread → World → World × Failure
unfolding wake_next
wake_rows p mark_unread now [] w = (w, none)
wake_rows p mark_unread now (t ∷ rows) w =
    wake_next t (enqueue p now (wake_op mark_unread t) w) (wake_rows p mark_unread now rows)

unfoldable pub wake_due : Policies → Bool → ℕ → ℕ → World → World × Failure
wake_due p mark_unread queried now w =
    wake_rows p mark_unread now (select (is_snooze_due queried) w.threads) w
