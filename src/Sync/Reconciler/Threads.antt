-- ===== src/Sync/Reconciler/Threads.antt =====
-- reconciler.go, one delta: upsertThread; and helpers.go.
use dankmail.Base.{
  ℕ, suc, ◌*◌, String, Bool, true, false, not, ◌&&◌, ◌||◌, List, [], ◌∷◌, ◌++◌, Option, none, some,
  ltb, ◌==◌, nat_eq, string_eq, if◌then◌else◌, update_where, lookup, insert,
}
use dankmail.Provider.{ThreadDelta, MessageDelta}
use dankmail.Schema.{Cache, Thread, Message, update_thread, find_thread}
use dankmail.Sync.Types.{AccountId}
use dankmail.Sync.World.{Arrival}

unfoldable pub time_from_unix : ℕ → ℕ
time_from_unix seconds = seconds * 1_000_000_000

unfoldable pub keep_header :
    String → List (String × String) → List (String × String) → List (String × String)
keep_header key headers out = elim (lookup key headers) [
  | none ↦ out
  | some v ↦ if v == "" then out else insert key v out
]

unfoldable pub reply_headers : MessageDelta → List (String × String)
unfolding keep_header
reply_headers m =
    keep_header "Reply-To" m.reply_headers
      (keep_header "References" m.reply_headers (keep_header "Subject" m.reply_headers []))

abbrev pub created : ℕ → AccountId → ThreadDelta → Thread
created id account d = record {
  id = id;
  account = account;
  provider_thread_id = d.thread_id;
  subject = d.subject;
  snippet = d.snippet;
  last_message_at = time_from_unix d.last_message;
  history_loaded_at = none;
  participants = d.participants;
  unread = d.unread;
  starred = d.starred;
  in_inbox = d.in_inbox;
  labels = d.labels;
  snoozed_until = none;
  message_count = d.message_count;
  has_attachments = false;
}

-- `!=` on two flags.
abbrev pub differ : Bool → Bool → Bool
differ true b = not b
differ false b = b

-- The signs of a real remote change on a snoozed thread.
unfoldable pub is_real_change : ThreadDelta → Thread → Bool
unfolding time_from_unix
is_real_change d t =
    let new_content =
      ltb t.last_message_at (time_from_unix d.last_message)
      || ltb t.message_count d.message_count in
    let flags_changed = differ d.unread t.unread || differ d.starred t.starred in
    let re_inboxed = d.in_inbox && not t.in_inbox in new_content || (flags_changed || re_inboxed)

-- The snooze and the inbox flag of a row that is overwritten.
unfoldable pub resnooze : Option ℕ → Bool → Bool → Option ℕ × Bool
resnooze none real in_inbox = (none, in_inbox)
resnooze (some until) true in_inbox = (none, in_inbox)
resnooze (some until) false in_inbox = (some until, false)

unfoldable pub overwrite : ThreadDelta → Thread → Thread → Thread
unfolding resnooze is_real_change
overwrite d t r =
    let (until, in_inbox) = resnooze t.snoozed_until (is_real_change d t) d.in_inbox in
    record r {
      subject = d.subject;
      snippet = d.snippet;
      last_message_at = time_from_unix d.last_message;
      participants = d.participants;
      unread = d.unread;
      starred = d.starred;
      in_inbox = in_inbox;
      labels = d.labels;
      snoozed_until = until;
      message_count = d.message_count;
    }

-- The row that the messages of the delta go to, and the cache with it.
unfoldable pub upsert_row : AccountId → ThreadDelta → Bool → Option Thread → Cache → Thread × Cache
unfolding overwrite
upsert_row account d frozen none c =
    let t = created c.next_thread account d in
    (t, record c { threads = c.threads ++ t ∷ []; next_thread = suc c.next_thread })
upsert_row account d true (some t) c = (t, c)
upsert_row account d false (some t) c =
    (overwrite d t t, record c { threads = update_thread t.id (overwrite d t) c.threads })

abbrev pub is_empty {ℓ} : {A : Type ℓ} → List A → Bool
is_empty [] = true
is_empty (x ∷ xs) = false

unfoldable pub find_message : ℕ → String → List Message → Option Message
find_message thread id [] = none
find_message thread id (m ∷ ms) =
    let later = find_message thread id ms in
    if m.thread == thread && m.provider_message_id == id then some m else later

unfoldable pub update_message : ℕ → (Message → Message) → Cache → Cache
update_message id f c = record c { messages = update_where (λ m. m.id == id) f c.messages }

-- The paperclip of the thread: set once, in the row at hand and in the table.
unfoldable pub set_paperclip : Thread × Cache → Thread × Cache
set_paperclip (row, c) = if row.has_attachments then (row, c) else (
  record row { has_attachments = true },
  record c { threads = update_thread row.id (λ r. record r { has_attachments = true }) c.threads },
)

-- A message that is stored already: its sent flag, and attachments that it lacked.
unfoldable pub refresh_message : MessageDelta → Message → Thread × Cache → Thread × Cache
unfolding update_message set_paperclip
refresh_message m old (row, c) =
    let c₁ =
      if differ old.is_sent m.is_sent
      then update_message old.id (λ x. record x { is_sent = m.is_sent }) c
      else c in
    if not (is_empty m.attachments) && is_empty old.attachments
    then set_paperclip
        (row, update_message old.id (λ x. record x { attachments = m.attachments }) c₁)
    else (row, c₁)

abbrev pub message_row : ℕ → ℕ → MessageDelta → Message
message_row id thread m = record {
  id = id;
  thread = thread;
  provider_message_id = m.message_id;
  rfc822_message_id = m.rfc822_message_id;
  from = m.from;
  to = m.to;
  cc = m.cc;
  date = time_from_unix m.date;
  is_sent = m.is_sent;
  snippet = m.snippet;
  body_text = m.body_text;
  reply_headers = reply_headers m;
  attachments = m.attachments;
}

unfoldable pub add_message : MessageDelta → Thread × Cache → Thread × Cache
unfolding set_paperclip
add_message m (row, c) =
    let c₁ = record c {
      messages = c.messages ++ message_row c.next_message row.id m ∷ [];
      next_message = suc c.next_message;
    } in
    if is_empty m.attachments then (row, c₁) else set_paperclip (row, c₁)

abbrev pub arrival_of : AccountId → ThreadDelta → MessageDelta → Arrival
arrival_of account d m = record {
  account_id = account;
  thread_id = d.thread_id;
  message_id = m.message_id;
  from = m.from;
  subject = d.subject;
  snippet = m.snippet;
  in_inbox = d.in_inbox;
}

-- One message: the row, the cache, and the arrivals so far.
unfoldable pub ingest :
    AccountId
    → ThreadDelta
    → Bool
    → MessageDelta
    → Thread × Cache
    → List Arrival
    → (Thread × Cache) × List Arrival
unfolding refresh_message add_message find_message
ingest account d notify m (row, c) arrivals = elim (find_message row.id m.message_id c.messages) [
  | some old ↦ (refresh_message m old (row, c), arrivals)
  | none ↦ (
    add_message m (row, c),
    if notify && not m.is_sent then arrivals ++ arrival_of account d m ∷ [] else arrivals,
  )
]

unfoldable pub ingest_all :
    AccountId
    → ThreadDelta
    → Bool
    → List MessageDelta
    → Thread × Cache
    → List Arrival
    → Cache × List Arrival
ingest_all account d notify [] (row, c) arrivals = (c, arrivals)
ingest_all account d notify (m ∷ ms) at arrivals =
    let (at', arrivals') = ingest account d notify m at arrivals in
    ingest_all account d notify ms at' arrivals'

unfoldable pub upsert_thread : AccountId → ThreadDelta → Bool → Bool → Cache → Cache × List Arrival
unfolding upsert_row
upsert_thread account d frozen notify c =
    ingest_all account d notify d.messages
      (upsert_row account d frozen (find_thread account d.thread_id c.threads) c) []
