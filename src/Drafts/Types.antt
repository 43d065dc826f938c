-- ===== src/Drafts/Types.antt =====
-- core/models/models.go and provider.go: the drafts of the store and of a provider.
use dankmail.Base.{ℕ, String, List, [], nat_eq, string_eq}
use dankmail.Provider.{AttachmentFile}

pub record AttachmentView : Type 0 where
  pub filename : String
  pub mime_type : String
  pub size : ℕ
  pub path : String

-- A Go string is a list of bytes. A snippet may be cut inside a character: then it is a text, a number of
-- bytes that begin a character and do not end it, and a text again.
pub data Snippet : Type 0 where
  whole : String → Snippet
  cut : String → ℕ → String → Snippet

pub record DraftView : Type 0 where
  pub id : String
  pub account_id : String
  pub provider_draft_id : String
  pub provider_message_id : String
  pub provider_thread_id : String
  pub thread_id : ℕ
  pub in_reply_to : String
  pub to : List String
  pub cc : List String
  pub bcc : List String
  pub subject : String
  pub body : String
  pub snippet : Snippet
  pub updated_at : ℕ
  pub attachments : List AttachmentView

-- `provider.DraftItem`; its time is in Unix seconds.
pub record DraftItem : Type 0 where
  pub provider_draft_id : String
  pub provider_message_id : String
  pub provider_thread_id : String
  pub in_reply_to : String
  pub to : List String
  pub cc : List String
  pub bcc : List String
  pub subject : String
  pub body : String
  pub snippet : String
  pub updated_at : ℕ
  pub attachments : List AttachmentFile

-- `models.DraftView{}`.
abbrev pub no_draft : DraftView
no_draft = record {
  id = "";
  account_id = "";
  provider_draft_id = "";
  provider_message_id = "";
  provider_thread_id = "";
  thread_id = 0;
  in_reply_to = "";
  to = [];
  cc = [];
  bcc = [];
  subject = "";
  body = "";
  snippet = whole "";
  updated_at = 0;
  attachments = [];
}
