-- ===== src/Provider.antt =====
-- core/internal/provider/provider.go: what a mail backend reports and what it is asked to do.
-- A backend itself is a parameter of the model: it answers a call from all the calls made so far.
use dankmail.Base.{ℕ, String, Bool, List}
use dankmail.Errdefs.{Failure}

pub data Flag : Type 0 where
  unread starred : Flag

pub record AttachmentMeta : Type 0 where
  pub filename : String
  pub mime_type : String
  pub size : ℕ

-- `reply_headers` is the map of the whitelisted headers.
pub record MessageDelta : Type 0 where
  pub message_id : String
  pub rfc822_message_id : String
  pub is_sent : Bool
  pub from : String
  pub to : List String
  pub cc : List String
  pub date : ℕ
  pub snippet : String
  pub body_text : String
  pub attachments : List AttachmentMeta
  pub reply_headers : List (String × String)

pub record ThreadDelta : Type 0 where
  pub thread_id : String
  pub subject : String
  pub snippet : String
  pub last_message : ℕ
  pub participants : List String
  pub unread : Bool
  pub starred : Bool
  pub in_inbox : Bool
  pub labels : List String
  pub message_count : ℕ
  pub messages : List MessageDelta

pub record Changes : Type 0 where
  pub incomplete : Bool
  pub snapshot_thread_ids : List String
  pub full_resync : Bool
  pub backfill : Bool
  pub upserted : List ThreadDelta
  pub removed_thread_ids : List String

-- An attachment's content is a text here: no theorem looks into it.
pub record AttachmentFile : Type 0 where
  pub filename : String
  pub mime_type : String
  pub size : ℕ
  pub path : String
  pub content : String

pub record ReplyDraft : Type 0 where
  pub in_reply_to_message_id : String
  pub body : String
  pub reply_all : Bool
  pub attachments : List AttachmentFile

pub record ComposeDraft : Type 0 where
  pub to : List String
  pub cc : List String
  pub bcc : List String
  pub subject : String
  pub body : String
  pub attachments : List AttachmentFile

-- A call of one of the mutating methods of `Provider`.
pub data Call : Type 0 where
  modify_flags : List String → List Flag → List Flag → Call
  archive unarchive trash unspam spam : List String → Call
  send_reply : String → ReplyDraft → Call
  compose : ComposeDraft → Call

-- The answer to the last call, from it and the calls before it, the latest first.
abbrev pub Backend : Type 0
Backend = Call → List Call → Failure
