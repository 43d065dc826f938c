-- ===== src/Sync/Reconciler/Snooze.antt =====
-- When a sync cancels a snooze.
use dankmail.Base.{◌≤◌, true, false, ◌≡◌, ◌⊎◌}
use dankmail.Provider.{ThreadDelta}
use dankmail.Schema.{Thread}
use dankmail.Sync.Reconciler.{time_from_unix}

-- The remote state brings nothing that the row does not have: no newer message and no more of them,
-- the same flags, and no return to the inbox.
pub record IsEcho (d : ThreadDelta) (t : Thread) : Type 0 where
  pub no_newer : time_from_unix d.last_message ≤ t.last_message_at
  pub no_more : d.message_count ≤ t.message_count
  pub same_unread : d.unread ≡ t.unread
  pub same_starred : d.starred ≡ t.starred
  pub no_return : (d.in_inbox ≡ false) ⊎ (t.in_inbox ≡ true)
