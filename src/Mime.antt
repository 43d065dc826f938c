-- ===== src/Mime.antt =====
-- core/internal/mailmime/mailmime.go: the recipients and the headers of the messages that are sent. The
-- encoding of a header's text, the body and the attachments are bytes that no theorem looks into, so a
-- message is modelled by its list of headers.
pub mod Recipients
pub mod Reply
use Prim.Native.String.{◌++◌ as text_append}
use text.Mathlib.Text.{starts_with}
use dankmail.Base.{
  String, Bool, true, false, not, ◌&&◌, ◌||◌, List, [], ◌∷◌, ◌++◌, Option, none, some, ◌==◌,
  string_eq, if◌then◌else◌, contains, lookup, select, GoText,
}
use dankmail.Errdefs.{Error, Result, err, ok, plain}
use dankmail.Provider.{MessageDelta, ReplyDraft, ComposeDraft}

abbrev pub err_no_recipients : Error
err_no_recipients = plain "mailmime: no recipients"

module _ (go : GoText) where
  unfoldable pub addr_email : String → String
  addr_email raw = elim (go.parse_address raw) [
    | none ↦ go.to_lower (go.trim_space raw)
    | some address ↦ go.to_lower address.1
  ]

  unfoldable pub exclude_self : List String → String → List String
  unfolding select addr_email
  exclude_self list self = select (λ r. not (addr_email r == self)) list

  -- `excludeAll`, where the set is the list of its keys.
  unfoldable pub emails : List String → List String
  unfolding addr_email
  emails [] = []
  emails (t ∷ ts) = addr_email t ∷ emails ts

  unfoldable pub exclude_all : List String → List String → List String
  unfolding select emails contains
  exclude_all list taken = select (λ r. not (contains (addr_email r) (emails taken))) list

  -- The loop of `dedupe`, with the addresses that were seen.
  unfoldable pub dedupe_from : List String → List String → List String
  unfolding addr_email contains
  dedupe_from seen [] = []
  dedupe_from seen (r ∷ rs) =
      let e = addr_email r in
      let known = e == "" || contains e seen in
      let rest = dedupe_from (if known then seen else e ∷ seen) rs in
      if known then rest else r ∷ rest

  unfoldable pub dedupe : List String → List String
  unfolding dedupe_from
  dedupe list = dedupe_from [] list

  header_or_empty : String → List (String × String) → String
  unfolding lookup
  header_or_empty key headers = elim (lookup key headers) [ some value ↦ value | none ↦ "" ]

  -- The address that a reply goes to.
  unfoldable pub reply_target : MessageDelta → String
  unfolding header_or_empty
  reply_target orig =
      let target = header_or_empty "Reply-To" orig.reply_headers in
      if go.trim_space target == "" then orig.from else target

  is_own_message : MessageDelta → String → Bool
  is_own_message orig self =
      addr_email (reply_target orig) == self && (elim orig.to [ [] ↦ false | _ ↦ true ])

  first_to : MessageDelta → String → List String
  first_to orig self =
      if is_own_message orig self then exclude_self orig.to self else reply_target orig ∷ []

  wanted_to : MessageDelta → String → Bool → List String
  wanted_to orig self all =
      dedupe (if all then first_to orig self ++ exclude_self orig.to self else first_to orig self)

  wanted_cc : MessageDelta → String → Bool → List String → List String
  wanted_cc orig self all to =
      dedupe (exclude_all (if all then exclude_self orig.cc self else []) to)

  -- The lists To and Cc of a reply from the address `self`.
  unfoldable pub reply_recipients :
      MessageDelta → String → Bool → Result (List String × List String)
  unfolding wanted_to wanted_cc first_to is_own_message reply_target dedupe exclude_all exclude_self
  reply_recipients orig self all =
      let to = wanted_to orig self all in
      let cc = wanted_cc orig self all to in
      elim to [
        | r ∷ rs ↦ ok (r ∷ rs, cc)
        | [] ↦
            if not (go.trim_space (reply_target orig) == "")
            then ok (reply_target orig ∷ [], cc)
            else err err_no_recipients
      ]

  -- The lists To, Cc and Bcc of a composition or a draft.
  unfoldable pub compose_recipients :
      List String → List String → List String → List String × List String × List String
  unfolding dedupe exclude_all
  compose_recipients to cc bcc =
      let to' = dedupe to in
      let cc' = dedupe (exclude_all cc to') in (to', cc', dedupe (exclude_all bcc (to' ++ cc')))

  unfoldable pub has_re_prefix : String → Bool
  has_re_prefix s = starts_with (go.to_lower (go.trim_space s)) "re:"

  unfoldable pub reply_subject : String → String
  unfolding has_re_prefix
  reply_subject subject = if has_re_prefix subject then subject else text_append "Re: " subject

  unfoldable pub ensure_angle : String → String
  ensure_angle id =
      let trimmed = go.trim_space id in
      if trimmed == ""
      then ""
      else if starts_with trimmed "<"
      then trimmed
      else text_append "<" (text_append trimmed ">")

  -- In-Reply-To and References, where the original has a Message-ID.
  unfoldable pub threading_headers : String → String → List (String × String)
  unfolding ensure_angle
  threading_headers message_id references =
      let id = ensure_angle message_id in
      let refs = go.trim_space references in
      if id == ""
      then []
      else ("In-Reply-To", id)
        ∷ (("References", if refs == "" then id else text_append refs (text_append " " id)) ∷ [])
