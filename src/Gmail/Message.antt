-- ===== src/Gmail/Message.antt =====
-- core/internal/provider/gmail/gmail.go: from a Gmail thread to the provider-neutral delta.
-- Base64 decoding and the conversion of HTML are parameters, of the record `Decoders`.
use Prim.Native.String.{len, slice}
use text.Mathlib.Text.{starts_with, is_char_boundary}
use dankmail.Base.{
  ℕ, zero, suc, String, Bool, false, not, ◌&&◌, ◌||◌, List, [], ◌∷◌, ◌++◌, Option, none, some, leb,
  ◌==◌, nat_eq, string_eq, if◌then◌else◌, contains, GoText,
}
use dankmail.Provider.{AttachmentMeta}

pub record Header : Type 0 where
  pub name : String
  pub value : String

pub record PartBody : Type 0 where
  pub body_size : ℕ
  pub content : String

-- `gmailv1.MessagePart`, a tree.
mutual
  pub data MessagePart : Type 0 where
    -- Its MIME type, file name, headers, body and children.
    message_part : String → String → List Header → Option PartBody → Parts → MessagePart

  pub data Parts : Type 0 where
    no_parts : Parts
    part_then : MessagePart → Parts → Parts

-- `gmailv1.Message`; `internal_date` is in milliseconds.
pub record GmailMessage : Type 0 where
  pub id : String
  pub thread_id : String
  pub label_ids : List String
  pub snippet : String
  pub internal_date : ℕ
  pub payload : Option MessagePart

pub record GmailThread : Type 0 where
  pub id : String
  pub messages : List GmailMessage

pub record Decoders : Type 0 where
  -- `decodeBase64URL`'s two attempts, with and without padding, each an option.
  pub padded : String → Option String
  pub unpadded : String → Option String
  -- `htmltomarkdown.ConvertString`.
  pub convert_html : String → Option String

unfoldable pub has_label : GmailMessage → String → Bool
unfolding contains
has_label m label = contains label m.label_ids

abbrev pub system_labels : List String
system_labels = "UNREAD" ∷ "STARRED" ∷ "INBOX" ∷ "SENT" ∷ "DRAFT" ∷ "IMPORTANT" ∷ "CHAT" ∷ []

unfoldable pub is_system_label : String → Bool
unfolding contains
is_system_label l = contains l system_labels || starts_with l "CATEGORY_"

unfoldable pub decode_base64_url : Decoders → String → String
decode_base64_url d code = elim (d.padded code) [
  | some text ↦ text
  | none ↦ elim (d.unpadded code) [ some text ↦ text | none ↦ "" ]
]

module _ (go : GoText) where
  first_header : List Header → String → String
  first_header [] name = ""
  first_header (h ∷ hs) name =
      let later = first_header hs name in if go.equal_fold h.name name then h.value else later

  unfoldable pub header_value : Option MessagePart → String → String
  unfolding first_header
  header_value none name = ""
  header_value (some (message_part mime file headers body children)) name =
      first_header headers name

  trimmed_parts : List String → List String
  trimmed_parts [] = []
  trimmed_parts (part ∷ parts) =
      let rest = trimmed_parts parts in
      let p = go.trim_space part in if not (p == "") then p ∷ rest else rest

  unfoldable pub split_addr_list : String → List String
  unfolding trimmed_parts
  split_addr_list v = if go.trim_space v == "" then [] else elim (go.parse_address_list v) [
    | some addrs ↦ addrs
    | none ↦ trimmed_parts (go.split_commas v)
  ]

  abbrev has_data : Option PartBody → Bool
  has_data none = false
  has_data (some b) = not (b.content == "")

  abbrev data_of : Option PartBody → String
  data_of none = ""
  data_of (some b) = b.content

  -- `firstPlainText` and `firstHTML`, which differ in the MIME type they look for.
  unfoldable mutual
    unfolding decode_base64_url

    pub first_text : Decoders → String → MessagePart → String
    first_text d kind (message_part mime file headers body children) =
        let below = first_text_of d kind children in
        if starts_with (go.to_lower mime) kind && has_data body
        then decode_base64_url d (data_of body)
        else below

    pub first_text_of : Decoders → String → Parts → String
    first_text_of d kind no_parts = ""
    first_text_of d kind (part_then part parts) =
        let here = first_text d kind part in
        let later = first_text_of d kind parts in if not (here == "") then here else later

  unfoldable pub html_to_text : Decoders → String → String
  html_to_text d html =
      if html == ""
      then ""
      else elim (d.convert_html html) [ some text ↦ go.trim_space text | none ↦ "" ]

-- The loop over `cut`, which stops at the start of a rune.
cut_back : String → ℕ → ℕ
cut_back s zero = zero
cut_back s (suc cut) =
    let lower = cut_back s cut in if is_char_boundary s (suc cut) then suc cut else lower

unfoldable pub truncate_at_rune : String → ℕ → String
unfolding cut_back
truncate_at_rune s cap = if leb cap 0 || leb (len s) cap then s else slice s 0 (cut_back s cap)

abbrev size_of : Option PartBody → ℕ
size_of none = 0
size_of (some b) = b.body_size

unfoldable mutual
  pub collect_attachments : MessagePart → List AttachmentMeta → List AttachmentMeta
  collect_attachments (message_part mime file headers body children) acc =
      collect_attachments_of children (
        if not (file == "")
        then acc ++ (record { filename = file; mime_type = mime; size = size_of body } ∷ [])
        else acc)

  pub collect_attachments_of : Parts → List AttachmentMeta → List AttachmentMeta
  collect_attachments_of no_parts acc = acc
  collect_attachments_of (part_then part parts) acc =
      collect_attachments_of parts (collect_attachments part acc)
