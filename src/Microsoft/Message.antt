-- ===== src/Microsoft/Message.antt =====
-- core/internal/provider/microsoft/graph.go and microsoft.go: what the Graph API gives, the provider's
-- fields, and what a conversation is to the rest of the daemon. The Graph API is a parameter, the
-- record `GraphApi`: its answers may change from one pass of a loop to the next, which the argument numbers.
pub mod Folded
use dankmail.Base.{
  ℕ, String, Bool, true, false, not, ◌||◌, ◌&&◌, List, [], ◌∷◌, ◌++◌, Option, none, some, leb, ◌==◌,
  string_eq, if◌then◌else◌, contains, length, lookup, GoText,
}
use dankmail.Errdefs.{Failure, Error, Result, err, ok}
use dankmail.Provider.{AttachmentMeta, MessageDelta, ThreadDelta}
use dankmail.Gmail.Message.{truncate_at_rune}
use dankmail.Microsoft.Errors.{AsGraph, classify}

pub record GraphMessage : Type 0 where
  pub id : String
  pub conversation_id : String
  pub internet_message_id : String
  pub subject : String
  pub body_preview : String
  pub from : String
  pub to : List String
  pub cc : List String
  pub received_at : ℕ
  pub is_read : Bool
  pub flagged : Bool
  pub parent_folder_id : String
  pub has_attachments : Bool
  pub is_draft : Bool
  pub body_text : String
  pub headers : List (String × String)
  pub attachments : List AttachmentMeta
  pub removed : Bool

pub record DeltaPage : Type 0 where
  pub messages : List GraphMessage
  pub next_link : String
  pub delta_link : String

-- A map of strings.
abbrev pub Texts : Type 0
Texts = List (String × String)

pub record GraphApi : Type 0 where
  pub delta_messages : ℕ → String → String → Result DeltaPage
  pub get_message : ℕ → String → Result GraphMessage
  pub list_conversation : ℕ → String → Result (List GraphMessage)
  pub get_folder_ids : ℕ → Result Texts
  -- `ctx.Err()`.
  pub context_err : ℕ → Failure

pub record MicrosoftProvider : Type 0 where
  pub account_id : String
  pub body_cap : ℕ
  pub api : GraphApi
  pub as_graph : AsGraph
  pub go : GoText

-- What an index into a map gives: the empty string if it has no such key.
unfoldable pub text_at : String → Texts → String
unfolding lookup
text_at key texts = elim (lookup key texts) [ some text ↦ text | none ↦ "" ]

header_at : String → Texts → Texts
unfolding text_at
header_at header headers =
    let v = text_at header headers in if not (v == "") then (header, v) ∷ [] else []

subject_entry : String → Texts
subject_entry subject = if not (subject == "") then ("Subject", subject) ∷ [] else []

-- The conversation so far, with its newest message.
pub record Folding : Type 0 where
  pub so_far : ThreadDelta
  pub newest : Option GraphMessage

add_label : String → List String → List String
add_label l labels = if contains l labels then labels else labels ++ (l ∷ [])

-- The branches on the folder that a message is in.
unfoldable pub read_folder : Texts → String → ThreadDelta → ThreadDelta
unfolding text_at add_label
read_folder ids folder t =
    if folder == text_at "inbox" ids
    then record t { in_inbox = true }
    else if folder == text_at "junkemail" ids
    then record t { labels = add_label "SPAM" t.labels }
    else if folder == text_at "deleteditems" ids
    then record t { labels = add_label "TRASH" t.labels }
    else t

later_message : Option GraphMessage → GraphMessage → Option GraphMessage
later_message none m = some m
later_message (some newest) m = if leb newest.received_at m.received_at then some m else some newest

module _ (p : MicrosoftProvider) where
  unfoldable pub message_delta : GraphMessage → MessageDelta
  unfolding subject_entry header_at
  message_delta m = record {
    message_id = m.id;
    rfc822_message_id = p.go.trim_angles (p.go.trim_space m.internet_message_id);
    is_sent = false;
    from = m.from;
    to = m.to;
    cc = m.cc;
    date = m.received_at;
    snippet = m.body_preview;
    body_text = truncate_at_rune m.body_text p.body_cap;
    attachments = m.attachments;
    reply_headers =
        subject_entry m.subject
        ++ (header_at "References" m.headers ++ header_at "Reply-To" m.headers);
  }

  unfoldable pub fold_message : Texts → Folding → GraphMessage → Folding
  unfolding read_folder later_message text_at
  fold_message ids r m =
      let sent = text_at "sentitems" ids in
      let t = read_folder ids m.parent_folder_id (record r.so_far {
        unread = r.so_far.unread || not m.is_read;
        starred = r.so_far.starred || m.flagged;
      }) in
      if m.is_draft then r else record {
        so_far = record t {
          participants =
              if not (m.from == "") && not (contains m.from t.participants)
              then t.participants ++ (m.from ∷ [])
              else t.participants;
          messages =
              t.messages
              ++ (record (message_delta m) {
                is_sent = not (sent == "") && m.parent_folder_id == sent;
              }
                  ∷ []);
        };
        newest = later_message r.newest m;
      }

  unfoldable pub fold_messages : Texts → Folding → List GraphMessage → Folding
  fold_messages ids r [] = r
  fold_messages ids r (m ∷ ms) = fold_messages ids (fold_message ids r m) ms

  unfoldable pub finish_folding : Folding → ThreadDelta
  finish_folding r = elim r.newest [
    | none ↦ record r.so_far { message_count = length r.so_far.messages }
    | some m ↦ record r.so_far {
      message_count = length r.so_far.messages;
      subject = m.subject;
      snippet = m.body_preview;
      last_message = m.received_at;
    }
  ]

  abbrev pub nothing_folded : String → Folding
  nothing_folded id = record {
    so_far = record {
      thread_id = id;
      subject = "";
      snippet = "";
      last_message = 0;
      participants = [];
      unread = false;
      starred = false;
      in_inbox = false;
      labels = [];
      message_count = 0;
      messages = [];
    };
    newest = none;
  }

  -- `folders`: the ids, once they have been read.
  unfoldable pub folders : ℕ → Option Texts → Result Texts
  folders i (some ids) = ok ids
  folders i none = p.api.get_folder_ids i

  failed_classified : Error → Error
  unfolding classify
  failed_classified e = elim (classify p.as_graph (some e)) [ some e' ↦ e' | none ↦ e ]

  -- The delta, with the ids that are kept from now on.
  unfoldable pub thread_delta :
      ℕ → Option Texts → String → List GraphMessage → Result (ThreadDelta × Texts)
  unfolding folders fold_messages finish_folding failed_classified
  thread_delta i cached id msgs = elim (folders i cached) [
    | err e ↦ err (failed_classified e)
    | ok ids ↦ ok (finish_folding (fold_messages ids (nothing_folded id) msgs), ids)
  ]
