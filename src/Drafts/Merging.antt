-- ===== src/Drafts/Merging.antt =====
-- store.go, `MergeRemote`.
pub mod Frame
pub mod Filed
pub mod Remote
use dankmail.Base.{
  ℕ, zero, suc, ◌+◌, ◌*◌, String, Bool, true, false, not, ◌&&◌, List, [], ◌∷◌, map, Option, none,
  some, ltb, ◌==◌, nat_eq, string_eq, if◌then◌else◌, contains, lookup, insert, remove, GoText,
  is_some,
}
use dankmail.Provider.{AttachmentFile}
use dankmail.Drafts.{
  DraftView, DraftItem, AttachmentView, Items, no_draft, or_text, make_snippet, whole, Store,
  persist_locked,
}
use dankmail.Errdefs.{Failure}

-- `time.Unix`, from the start of year 1.
abbrev of_unix : ℕ → ℕ
of_unix seconds = (62_135_596_800 + seconds) * 1_000_000_000

-- Whether the draft is the account's and backed by its provider.
unfoldable pub is_remote_of : String → DraftView → Bool
is_remote_of account d = d.account_id == account && not (d.provider_draft_id == "")

-- `byProviderID`.
unfoldable pub by_provider_id : String → Items → List (String × String) → List (String × String)
by_provider_id account [] by = by
by_provider_id account (entry ∷ rest) by =
    by_provider_id account rest
      (if is_remote_of account entry.1 then insert entry.1.provider_draft_id entry.0 by else by)

view_of : AttachmentFile → AttachmentView
view_of a = record { filename = a.filename; mime_type = a.mime_type; size = a.size; path = a.path }

merged_attachments : List AttachmentView → List AttachmentFile → List AttachmentView
unfolding view_of
merged_attachments [] remote = map view_of remote
merged_attachments (a ∷ rest) remote = a ∷ rest

merged_time : ℕ → Bool → ℕ → ℕ → ℕ
merged_time now known before remote =
    let updated = if ltb 0 remote then of_unix remote else now in
    if known && ltb updated before then before else updated

merged_body : Bool → String → String → String
merged_body known before remote =
    if known && not (before == "") && remote == "" then before else remote

-- The draft that a remote one makes of `prev`, which stands under `id`; `known` if the provider's id
-- was there.
unfoldable pub merged : GoText → String → ℕ → Bool → String → DraftView → DraftItem → DraftView
unfolding merged_attachments merged_time merged_body
merged go account now known id prev r =
    let body = merged_body known prev.body r.body in
    record {
      id = id;
      account_id = account;
      provider_draft_id = r.provider_draft_id;
      provider_message_id = r.provider_message_id;
      provider_thread_id = r.provider_thread_id;
      thread_id = prev.thread_id;
      in_reply_to = r.in_reply_to;
      to = r.to;
      cc = r.cc;
      bcc = r.bcc;
      subject = r.subject;
      body = body;
      snippet = if r.snippet == "" then make_snippet go body else whole r.snippet;
      updated_at = merged_time now known prev.updated_at r.updated_at;
      attachments = merged_attachments prev.attachments r.attachments;
    }

abbrev pub draft_at : String → Items → DraftView
draft_at id items = elim (lookup id items) [ some d ↦ d | none ↦ no_draft ]

abbrev pub id_for : Option String → String → String
id_for (some id) new_id = id
id_for none new_id = new_id

-- One pass of the loop over the remote drafts.
unfoldable pub merge_one :
    GoText → String → ℕ → String → List (String × String) → DraftItem → Items → Items
unfolding merged
merge_one go account now new_id by r items =
    if r.provider_draft_id == ""
    then items
    else let known = lookup r.provider_draft_id by in
      let id = id_for known new_id in
      insert id (merged go account now (is_some known) id (draft_at id items) r) items

-- The new ids are numbered by pass.
unfoldable pub merge_all :
    GoText → String → ℕ → (ℕ → String) → List (String × String) → ℕ → List DraftItem → Items → Items
unfolding merge_one
merge_all go account now new_id by n [] items = items
merge_all go account now new_id by n (r ∷ rs) items =
    merge_all go account now new_id by (suc n) rs (merge_one go account now (new_id n) by r items)

-- `seenRemote`.
unfoldable pub seen_remote : List DraftItem → List String
seen_remote [] = []
seen_remote (r ∷ rs) =
    let rest = seen_remote rs in
    if r.provider_draft_id == "" then rest else r.provider_draft_id ∷ rest

-- The drafts that disappeared on the server.
unfoldable pub drop_vanished : List String → List (String × String) → Items → Items
drop_vanished seen [] items = items
drop_vanished seen (entry ∷ rest) items =
    drop_vanished seen rest (if not (contains entry.0 seen) then remove entry.1 items else items)

unfoldable pub merge_remote : GoText → String → ℕ → (ℕ → String) → List DraftItem → Items → Items
unfolding merge_all drop_vanished by_provider_id seen_remote
merge_remote go account now new_id remote items =
    let by = by_provider_id account items [] in
    drop_vanished (seen_remote remote) by (merge_all go account now new_id by 0 remote items)

-- The whole of `MergeRemote`, which drops the error of writing the file.
unfoldable pub merge_store :
    GoText → String → ℕ → (ℕ → String) → List DraftItem → Failure → Store → Store
unfolding merge_remote persist_locked
merge_store go account now new_id remote write st =
    (persist_locked write
      (record st { items = merge_remote go account now new_id remote st.items })).0
