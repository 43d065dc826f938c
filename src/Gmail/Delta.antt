-- ===== src/Gmail/Delta.antt =====
-- core/internal/provider/gmail/gmail.go: `threadDelta` and `messageDelta`.
pub mod Drafts
pub mod Reads
use text.Mathlib.Text.{starts_with}
use dankmail.Base.{
  ℕ, ◌/◌, String, Bool, true, false, not, ◌||◌, ◌&&◌, List, [], ◌∷◌, ◌++◌, Option, none, some, leb,
  ◌==◌, nat_eq, string_eq, if◌then◌else◌, contains, length, GoText,
}
use dankmail.Provider.{AttachmentMeta, MessageDelta, ThreadDelta}
use dankmail.Gmail.Message.{
  MessagePart, GmailMessage, GmailThread, Decoders, has_label, is_system_label, header_value,
  split_addr_list, first_text, html_to_text, truncate_at_rune, collect_attachments,
}

-- An entry of the map of reply headers, where the header is there.
header_entry : String → String → List (String × String)
header_entry key value = if not (value == "") then (key, value) ∷ [] else []

-- The delta while the messages are read, with the newest of them.
pub record Reading : Type 0 where
  pub so_far : ThreadDelta
  pub newest : Option GmailMessage

-- The loop over a message's labels.
unfoldable pub read_label : ThreadDelta → String → ThreadDelta
read_label t l = record t {
  unread = t.unread || l == "UNREAD";
  starred = t.starred || l == "STARRED";
  in_inbox = t.in_inbox || l == "INBOX";
  labels =
      if not (is_system_label l) && not (contains l t.labels)
      then t.labels ++ (l ∷ [])
      else t.labels;
}

unfoldable pub read_labels : ThreadDelta → List String → ThreadDelta
read_labels t [] = t
read_labels t (l ∷ ls) = read_labels (read_label t l) ls

add_participant : String → List String → List String
add_participant from seen =
    if not (from == "") && not (contains from seen) then seen ++ (from ∷ []) else seen

newer : Option GmailMessage → GmailMessage → Option GmailMessage
newer none m = some m
newer (some newest) m = if leb newest.internal_date m.internal_date then some m else some newest

abbrev pub nothing_read : String → Reading
nothing_read id = record {
  so_far = record {
    thread_id = id;
    subject = "";
    snippet = "";
    last_message = 0;
    participants = [];
    unread = false;
    starred = false;
    in_inbox = false;
    labels = [];
    message_count = 0;
    messages = [];
  };
  newest = none;
}

module _ (go : GoText) (d : Decoders) (body_cap : ℕ) where
  abbrev plain_text : Option MessagePart → String
  plain_text none = ""
  plain_text (some part) = first_text go d "text/plain" part

  abbrev html_text : Option MessagePart → String
  html_text none = ""
  html_text (some part) = html_to_text go d (first_text go d "text/html" part)

  abbrev attachments_of : Option MessagePart → List AttachmentMeta
  attachments_of none = []
  attachments_of (some part) = collect_attachments part []

  body_of : Option MessagePart → String
  body_of payload =
      let plain = plain_text payload in if plain == "" then html_text payload else plain

  message_id_of : String → String
  message_id_of id = if not (id == "") then go.trim_angles (go.trim_space id) else ""

  -- The keys of the reply headers are those of core/internal/provider.
  unfoldable pub message_delta : GmailMessage → MessageDelta
  unfolding header_entry body_of message_id_of
  message_delta m = record {
    message_id = m.id;
    rfc822_message_id = message_id_of (header_value go m.payload "Message-ID");
    is_sent = has_label m "SENT";
    from = header_value go m.payload "From";
    to = split_addr_list go (header_value go m.payload "To");
    cc = split_addr_list go (header_value go m.payload "Cc");
    date = m.internal_date / 1000;
    snippet = m.snippet;
    body_text = truncate_at_rune (body_of m.payload) body_cap;
    attachments = attachments_of m.payload;
    reply_headers =
        header_entry "Subject" (header_value go m.payload "Subject")
        ++ (header_entry "References" (header_value go m.payload "References")
            ++ header_entry "Reply-To" (header_value go m.payload "Reply-To"));
  }

  unfoldable pub read_message : Reading → GmailMessage → Reading
  unfolding add_participant newer read_labels read_label
  read_message r m =
      let t = read_labels r.so_far m.label_ids in
      if has_label m "DRAFT" then r else record {
        so_far = record t {
          participants = add_participant (header_value go m.payload "From") t.participants;
          messages = t.messages ++ (message_delta m ∷ []);
        };
        newest = newer r.newest m;
      }

  unfoldable pub read_messages : Reading → List GmailMessage → Reading
  read_messages r [] = r
  read_messages r (m ∷ ms) = read_messages (read_message r m) ms

  -- What the newest message gives at the end.
  finish_reading : Reading → ThreadDelta
  finish_reading r = elim r.newest [
    | none ↦ record r.so_far { message_count = length r.so_far.messages }
    | some m ↦ record r.so_far {
      message_count = length r.so_far.messages;
      subject = header_value go m.payload "Subject";
      snippet = m.snippet;
      last_message = m.internal_date / 1000;
    }
  ]

  unfoldable pub thread_delta : GmailThread → ThreadDelta
  unfolding read_messages read_message finish_reading
  thread_delta t = finish_reading (read_messages (nothing_read t.id) t.messages)
