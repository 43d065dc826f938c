-- ===== src/Sync/Queue.antt =====
-- core/internal/sync/queue.go: the write path of the user's actions. A transaction works on a copy
-- of the cache, and an error drops the copy. The JSON form of a payload is the payload itself.
pub mod Optimistic
pub mod Revert
use dankmail.Base.{
  ℕ, suc, ◌+◌, String, Bool, true, false, not, ◌&&◌, List, [], ◌∷◌, ◌++◌, Option, none, some, ◌==◌,
  if◌then◌else◌, select, contains, lookup, insert, string_eq, nat_eq,
}
use dankmail.Errdefs.{plain, Failure, Result, ok, err, ◌>>=◌}
use dankmail.Rules.{Trigger, Companion, Policies}
use dankmail.Rules
use dankmail.Schema.{Cache, Thread, PendingOp, pending, update_thread}
use dankmail.Sync.Types.{
  AccountId, Op, OpType, mark_read, mark_unread, star, unstar, archive, unarchive, trash, unspam,
  spam, snooze, snooze_wake, send_reply, compose, unknown, OpPayload, SnoozePayload, ThreadState,
  no_payload,
}
use dankmail.Sync.World.{World, publish, wake, threads_changed}

abbrev companion_type : Companion → OpType
companion_type Companion.mark_read = mark_read
companion_type Companion.unarchive = unarchive

-- The companions take the primary's threads and stand before it.
companions : Op → List Companion → List Op
companions op [] = op ∷ []
companions op (c ∷ cs) =
    record {
      id = 0;
      account_id = op.account_id;
      type = companion_type c;
      thread_ids = op.thread_ids;
      payload = no_payload;
      attempts = 0;
    }
    ∷ companions op cs

expand_as : OpType → Policies → Op → List Op
expand_as trash p op = companions op (Rules.expand p Trigger.trash)
expand_as star p op = companions op (Rules.expand p Trigger.star)
expand_as send_reply p op = companions op (Rules.expand p Trigger.reply_sent)
expand_as _ p op = op ∷ []

unfoldable pub expand : Policies → Op → List Op
unfolding expand_as companions Rules.expand
expand p op = expand_as op.type p op

abbrev pub touches : AccountId → List String → Thread → Bool
touches account ids t = t.account == account && contains t.provider_thread_id ids

unfoldable pub op_threads : AccountId → List String → List Thread → List Thread
op_threads account [] table = []
op_threads account (i ∷ ids) table = select (touches account (i ∷ ids)) table

unfoldable pub snapshot_state : Thread → ThreadState
snapshot_state t = record {
  labels = some t.labels;
  unread = t.unread;
  starred = t.starred;
  in_inbox = t.in_inbox;
  snoozed_until = t.snoozed_until;
}

unfoldable pub snapshots : List Thread → List (String × ThreadState) → List (String × ThreadState)
snapshots [] prev = prev
snapshots (t ∷ rows) prev = snapshots rows (insert t.provider_thread_id (snapshot_state t) prev)

abbrev without : List String → List String → List String
without dropped = select (λ l. not (contains l dropped))

set_snooze : Option SnoozePayload → Result (Thread → Thread → Thread)
set_snooze none = err (plain "sync: snooze op without payload")
set_snooze (some s) = ok (λ t r. record r { in_inbox = false; snoozed_until = some s.until })

clear_snooze : Option SnoozePayload → Thread → Thread → Thread
clear_snooze none t r = record r { in_inbox = true; snoozed_until = none }
clear_snooze (some s) t r = record r {
  in_inbox = true;
  snoozed_until = none;
  unread = if s.mark_unread then true else r.unread;
}

-- The `switch` of `applyLocal`: how the stored row changes, by the row `t` that was loaded.
unfoldable pub change : OpType → OpPayload → Result (Thread → Thread → Thread)
unfolding set_snooze clear_snooze
change mark_read p = ok (λ t r. record r { unread = false })
change mark_unread p = ok (λ t r. record r { unread = true })
change star p = ok (λ t r. record r { starred = true })
change unstar p = ok (λ t r. record r { starred = false })
change archive p = ok (λ t r. record r { in_inbox = false })
change unarchive p = ok (λ t r. record r { in_inbox = true })
change trash p = ok (λ t r. record r {
  in_inbox = false;
  labels = "TRASH" ∷ without ("TRASH" ∷ "INBOX" ∷ []) t.labels;
})
change unspam p = ok (λ t r. record r { in_inbox = true; labels = without ("SPAM" ∷ []) t.labels })
change spam p = ok (λ t r. record r {
  in_inbox = false;
  labels = "SPAM" ∷ without ("SPAM" ∷ "INBOX" ∷ []) t.labels;
})
change snooze p = set_snooze p.snooze
change snooze_wake p = ok (clear_snooze p.snooze)
change send_reply p = ok (λ t r. r)
change compose p = ok (λ t r. r)
change unknown p = err (plain "sync: unknown op type")

unfoldable pub apply_local : Op → List Thread → List Thread → Result (List Thread)
apply_local op [] table = ok table
apply_local op (t ∷ rows) table =
    change op.type op.payload >>= λ g. apply_local op rows (update_thread t.id (g t) table)

restore_labels : Option (List String) → List String → List String
restore_labels none labels = labels
restore_labels (some saved) labels = saved

-- The update that `revertLocal` writes for the row `t`; a row with no snapshot is left.
unfoldable pub restore : Option ThreadState → Thread → Thread
unfolding restore_labels
restore none r = r
restore (some s) r = record r {
  unread = s.unread;
  starred = s.starred;
  in_inbox = s.in_inbox;
  labels = restore_labels s.labels r.labels;
  snoozed_until = s.snoozed_until;
}

unfoldable pub revert_rows : List (String × ThreadState) → List Thread → List Thread → List Thread
unfolding restore
revert_rows prev [] table = table
revert_rows prev (t ∷ rows) table =
    revert_rows prev rows (update_thread t.id (restore (lookup t.provider_thread_id prev)) table)

revert_with : Op → List (String × ThreadState) → List Thread → List Thread
unfolding revert_rows op_threads
revert_with op [] table = table
revert_with op (s ∷ prev) table =
    revert_rows (s ∷ prev) (op_threads op.account_id op.thread_ids table) table

unfoldable pub revert_local : Op → List Thread → List Thread
unfolding revert_with
revert_local op table = revert_with op op.payload.prev table

-- The row that `PendingOp.Create` saves.
abbrev pub new_row : ℕ → ℕ → Op → PendingOp
new_row id now op = record {
  id = id;
  account = op.account_id;
  provider_thread_ids = op.thread_ids;
  op_type = op.type;
  payload = op.payload;
  created_at = now;
  attempts = 0;
  next_attempt_at = none;
  last_error = none;
  state = pending;
}

unfoldable pub op_from_row : PendingOp → AccountId → Op
op_from_row row account = record {
  id = row.id;
  account_id = account;
  type = row.op_type;
  thread_ids = row.provider_thread_ids;
  payload = row.payload;
  attempts = row.attempts;
}

-- The enum's validator.
create_op : OpType → PendingOp → Cache → Result Cache
create_op unknown row c = err (plain "ent: validator failed for field PendingOp.op_type")
create_op _ row c =
    ok (record c { pending_ops = c.pending_ops ++ row ∷ []; next_op = suc c.next_op })

abbrev pub with_prev : Op → List (String × ThreadState) → Op
with_prev op prev = record op { payload = record op.payload { prev = prev } }

unfoldable pub enqueue_one : ℕ → Op → Cache → Result Cache
unfolding create_op
enqueue_one now op c =
    let rows = op_threads op.account_id op.thread_ids c.threads in
    let op' = with_prev op (snapshots rows op.payload.prev) in
    apply_local op' rows c.threads >>= λ threads.
    create_op op.type (new_row c.next_op now op') (record c { threads = threads })

unfoldable pub enqueue_all : ℕ → List Op → Cache → Result Cache
enqueue_all now [] c = ok c
enqueue_all now (op ∷ ops) c = enqueue_one now op c >>= enqueue_all now ops

commit : AccountId → World → Result Cache → World × Failure
commit account w (err e) = (w, some e)
commit account w (ok c) =
    (publish (threads_changed account) (wake account (record w { cache = c })), none)

unfoldable pub enqueue : Policies → ℕ → Op → World → World × Failure
unfolding commit
enqueue p now op w = commit op.account_id w (enqueue_all now (expand p op) w.cache)
