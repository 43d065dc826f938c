-- ===== src/Tests/Samples.antt =====
-- One account with two threads.
use dankmail.Base.{ℕ, String, true, false, [], ◌∷◌, none, some, refl, GoText, ◌==◌, string_eq}
use dankmail.Errdefs.{kinded, plain, permanent, network}
use dankmail.Schema.{Account, Thread, Cache, PendingOp, IsIndexed, active, pending}
use dankmail.Sync.Types.{Op, archive, no_payload}
use dankmail.Sync.World.{World}
use dankmail.Sync.Executor.{Registry}

abbrev pub ada : Account
ada = record {
  id = 1;
  email = "ada@example.org";
  poll_seconds = none;
  sync_cursor = "";
  status = active;
  needs_reauth = false;
  auth_message = none;
  last_sync_at = none;
  last_error = none;
}

abbrev pub thread : ℕ → String → Thread
thread id name = record {
  id = id;
  account = 1;
  provider_thread_id = name;
  subject = "Notes";
  snippet = "";
  last_message_at = 100;
  history_loaded_at = none;
  participants = [];
  unread = true;
  starred = false;
  in_inbox = true;
  labels = "INBOX" ∷ [];
  snoozed_until = none;
  message_count = 1;
  has_attachments = false;
}

abbrev pub cache : Cache
cache = record {
  accounts = ada ∷ [];
  threads = thread 1 "t1" ∷ thread 2 "t2" ∷ [];
  messages = [];
  pending_ops = [];
  next_thread = 3;
  next_message = 1;
  next_op = 1;
}

pub cache-IsIndexed : IsIndexed cache.threads
cache-IsIndexed = (((refl, refl), tt), (tt, tt))

abbrev pub world : World
world = record { cache = cache; published = []; wakes = []; calls = [] }

abbrev pub archive_op : Op
archive_op = record {
  id = 0;
  account_id = 1;
  type = archive;
  thread_ids = "t1" ∷ [];
  payload = no_payload;
  attempts = 0;
}

abbrev pub queued : ℕ → Op → PendingOp
queued id op = record {
  id = id;
  account = op.account_id;
  provider_thread_ids = op.thread_ids;
  op_type = op.type;
  payload = op.payload;
  created_at = 0;
  attempts = 0;
  next_attempt_at = none;
  last_error = none;
  state = pending;
}

-- A backend that is never reached, and one that refuses.
abbrev pub offline : Registry
offline account = some (λ call calls. some (kinded network (plain "offline")))

abbrev pub refusing : Registry
refusing account = some (λ call calls. some (kinded permanent (plain "gone")))

-- Functions on texts of the simplest kind.
abbrev pub go : GoText
go = record {
  to_lower = λ s. s;
  trim_space = λ s. s;
  equal_fold = λ s t. s == t;
  text_contains = λ s t. s == t;
  trim_angles = λ s. s;
  split_commas = λ s. s ∷ [];
  fields = λ s. s ∷ [];
  parse_address = λ s. none;
  parse_address_list = λ s. some (s ∷ []);
}
