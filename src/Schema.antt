-- ===== src/Schema.antt =====
-- core/ent/schema: the tables of the local cache, as lists of rows in the order of their ids, and
-- the statements that the sync package runs on them through the ent client. Statements succeed: a
-- failing database is not modelled.
pub mod Loop
pub mod Indexed
pub mod Deletion
pub mod Lookup
use dankmail.Base.{
  ℕ, String, Bool, if◌then◌else◌, List, [], ◌∷◌, ◌≡◌, false, Option, none, some, ◌==◌, ◌&&◌, All,
  update_where, delete_where, nat_eq, string_eq,
}
use dankmail.Errdefs.{Failure}
use dankmail.Provider.{AttachmentMeta}
use dankmail.Sync.Types.{AccountId, OpType, OpPayload}

pub data Status : Type 0 where
  active paused auth_error : Status

-- A column that keeps the text of an error keeps the error here, and `none` is the empty text.
-- `poll_seconds` is the number under that key of the configuration, whole seconds.
pub record Account : Type 0 where
  pub id : AccountId
  pub email : String
  pub poll_seconds : Option ℕ
  pub sync_cursor : String
  pub status : Status
  pub needs_reauth : Bool
  pub auth_message : Failure
  pub last_sync_at : Option ℕ
  pub last_error : Failure

pub record Thread : Type 0 where
  pub id : ℕ
  pub account : AccountId
  pub provider_thread_id : String
  pub subject : String
  pub snippet : String
  pub last_message_at : ℕ
  pub history_loaded_at : Option ℕ
  pub participants : List String
  pub unread : Bool
  pub starred : Bool
  pub in_inbox : Bool
  pub labels : List String
  pub snoozed_until : Option ℕ
  pub message_count : ℕ
  pub has_attachments : Bool

pub record Message : Type 0 where
  pub id : ℕ
  pub thread : ℕ
  pub provider_message_id : String
  pub rfc822_message_id : String
  pub from : String
  pub to : List String
  pub cc : List String
  pub date : ℕ
  pub is_sent : Bool
  pub snippet : String
  pub body_text : String
  pub reply_headers : List (String × String)
  pub attachments : List AttachmentMeta

pub data OpState : Type 0 where
  pending inflight done failed : OpState

pub record PendingOp : Type 0 where
  pub id : ℕ
  pub account : AccountId
  pub provider_thread_ids : List String
  pub op_type : OpType
  pub payload : OpPayload
  pub created_at : ℕ
  pub attempts : ℕ
  pub next_attempt_at : Option ℕ
  pub last_error : Failure
  pub state : OpState

-- The database. A new row takes the next id of its table.
pub record Cache : Type 0 where
  pub accounts : List Account
  pub threads : List Thread
  pub messages : List Message
  pub pending_ops : List PendingOp
  pub next_thread : ℕ
  pub next_message : ℕ
  pub next_op : ℕ

-- `Thread.UpdateOne(t)`.
unfoldable pub update_thread : ℕ → (Thread → Thread) → List Thread → List Thread
update_thread id = update_where (λ t. t.id == id)

-- The row of the account with this provider id; the index makes it unique.
abbrev pub is_row : AccountId → String → Thread → Bool
is_row account id t = t.account == account && t.provider_thread_id == id

unfoldable pub find_thread : AccountId → String → List Thread → Option Thread
find_thread account id [] = none
find_thread account id (t ∷ ts) =
    let later = find_thread account id ts in if is_row account id t then some t else later

-- `Thread.DeleteOne(t)`: the messages of the thread go with it.
unfoldable pub delete_thread : ℕ → Cache → Cache
delete_thread id c = record c {
  threads = delete_where (λ t. t.id == id) c.threads;
  messages = delete_where (λ m. m.thread == id) c.messages;
}

-- The loop `for _, t := range rows { if skip(t) { continue }; DeleteOne(t) }`.
unfoldable pub delete_rows : (Thread → Bool) → List Thread → Cache → Cache
delete_rows skip [] c = c
delete_rows skip (t ∷ rows) c = delete_rows skip rows (if skip t then c else delete_thread t.id c)

-- The index on `provider_thread_id` and the account, and the primary key, are unique.
abbrev pub same_key : Thread → Thread → Bool
same_key t u = t.account == u.account && t.provider_thread_id == u.provider_thread_id

abbrev pub IsIndexed : List Thread → Type 0
IsIndexed [] = Unit {0}
IsIndexed (t ∷ ts) = All (λ u. ((t.id == u.id) ≡ false) × (same_key t u ≡ false)) ts × IsIndexed ts

-- What identifies a row.
abbrev pub SameRow : Thread → Thread → Type 0
SameRow t u =
    (t.id ≡ u.id) × (t.account ≡ u.account) × (t.provider_thread_id ≡ u.provider_thread_id)
