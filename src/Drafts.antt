-- ===== src/Drafts.antt =====
-- core/internal/drafts/store.go: the store of drafts. Times are nanoseconds from the start of year 1,
-- Go's zero time. The file system, the types of files and new ids are parameters; the order in which a
-- map is walked is that of its list. The JSON text of the file stands as the drafts that it decodes to.
pub mod Types
pub mod Listing
pub mod Saving
pub mod Merging
pub mod Contents
pub mod Abstract
use Prim.Native.String.{len, slice, ◌++◌ as text_append}
use text.Mathlib.Text.{starts_with}
use dankmail.Base.{
  ℕ, zero, suc, ◌+◌, ◌*◌, ◌-◌, map, String, Bool, true, false, not, ◌&&◌, ◌||◌, List, [], ◌∷◌, ◌++◌,
  Option, none, some, ltb, leb, ◌==◌, nat_eq, string_eq, if◌then◌else◌, contains, lookup, insert,
  remove, values, GoText,
}
use dankmail.Errdefs.{Failure}
pub use dankmail.Drafts.Types.*
use dankmail.Provider.{AttachmentFile}

-- The file system and the tables of MIME types: the size of a file that is no directory, the last
-- element of a path, the extension of a name, and the type of an extension.
pub record Files : Type 0 where
  pub stat : String → Option ℕ
  pub base_name : String → String
  pub extension : String → String
  pub type_by_extension : String → String

abbrev pub Items : Type 0
Items = List (String × DraftView)

abbrev pub or_text : String → String → String
or_text s other = if s == "" then other else s

unfoldable pub join_spaces : List String → String
join_spaces [] = ""
join_spaces (s ∷ []) = s
join_spaces (s ∷ (t ∷ ss)) = text_append s (text_append " " (join_spaces (t ∷ ss)))

-- The first `n` bytes of the text and a mark after them: the characters that end within these bytes,
-- and as many bytes of the next one as are left.
unfoldable pub cut_at : ℕ → String → String → Snippet
cut_at n clean mark =
    let head = slice clean 0 n in
    let stray = n - len head in
    if stray == 0 then whole (text_append head mark) else cut head stray mark

unfoldable pub make_snippet : GoText → String → Snippet
unfolding join_spaces cut_at
make_snippet go body =
    let clean = join_spaces (go.fields body) in
    if ltb 140 (len clean) then cut_at 140 clean "…" else whole clean

repeat_text : ℕ → String → String
repeat_text zero s = ""
repeat_text (suc n) s = text_append s (repeat_text n s)

-- What JSON makes of a text: it writes U+FFFD for each byte that belongs to no character.
unfoldable pub reread_snippet : Snippet → Snippet
unfolding repeat_text
reread_snippet (whole s) = whole s
reread_snippet (cut head stray end) =
    whole (text_append head (text_append (repeat_text stray "�") end))

-- A draft that is encoded as JSON and decoded again.
unfoldable pub reread : DraftView → DraftView
unfolding reread_snippet
reread d = record d { snippet = reread_snippet d.snippet }

module _ (go : GoText) (files : Files) where
  trim_file_prefix : String → String
  trim_file_prefix path = if starts_with path "file://" then slice path 7 (len path) else path

  with_path : String → AttachmentView → AttachmentView
  with_path clean a =
      if not (clean == "")
      then record a {
        path = clean;
        filename = or_text a.filename (files.base_name clean);
        size = elim (files.stat clean) [ some size ↦ size | none ↦ a.size ];
      }
      else a

  with_type : AttachmentView → AttachmentView
  with_type a =
      let guessed =
        if a.mime_type == "" && not (a.filename == "")
        then files.type_by_extension (go.to_lower (files.extension a.filename))
        else a.mime_type in
      record a { mime_type = or_text guessed "application/octet-stream" }

  unfoldable pub normalize_attachments : List AttachmentView → List AttachmentView
  unfolding with_path with_type trim_file_prefix
  normalize_attachments [] = []
  normalize_attachments (a ∷ others) =
      let b = with_type (with_path (trim_file_prefix (go.trim_space a.path)) a) in
      let rest = normalize_attachments others in
      if not (b.filename == "") || not (b.path == "") then b ∷ rest else rest

  -- What a draft takes from the one that it replaces.
  unfoldable pub inherit : Option DraftView → DraftView → DraftView
  inherit none d = d
  inherit (some prev) d = record d {
    provider_draft_id = or_text d.provider_draft_id prev.provider_draft_id;
    provider_thread_id = or_text d.provider_thread_id prev.provider_thread_id;
    in_reply_to = or_text d.in_reply_to prev.in_reply_to;
    thread_id = if d.thread_id == 0 then prev.thread_id else d.thread_id;
  }

  unfoldable pub completed : ℕ → DraftView → DraftView
  completed now d = record d {
    attachments = normalize_attachments d.attachments;
    snippet = make_snippet go d.body;
    updated_at = if d.updated_at == 0 then now else d.updated_at;
  }

  -- The draft as it is stored, and the items with it.
  unfoldable pub save_item : String → ℕ → DraftView → Items → DraftView × Items
  unfolding inherit completed
  save_item new_id now d items =
      let named = record d { id = or_text d.id new_id } in
      let d' = completed now (inherit (lookup named.id items) named) in (d', insert d'.id d' items)

-- `sort.Slice` by the time of the last change, the latest first.
insert_latest : DraftView → List DraftView → List DraftView
insert_latest d [] = d ∷ []
insert_latest d (e ∷ es) =
    let later = insert_latest d es in
    if leb e.updated_at d.updated_at then d ∷ (e ∷ es) else e ∷ later

unfoldable pub sort_latest : List DraftView → List DraftView
unfolding insert_latest
sort_latest [] = []
sort_latest (d ∷ ds) = insert_latest d (sort_latest ds)

-- `Store`, and the file at its path.
pub record Store : Type 0 where
  pub path : String
  pub items : Items
  pub file : Option (List DraftView)

unfoldable pub written_list : Items → List DraftView
unfolding sort_latest reread
written_list items = map reread (sort_latest (values items))

-- `persistLocked`, with the first error of the file system and the encoder. The list is written to
-- another file, which is then renamed, so with an error the file stays as it was.
unfoldable pub persist_locked : Failure → Store → Store × Failure
unfolding written_list
persist_locked write st = if st.path == "" then (st, none) else elim write [
  | some e ↦ (st, some e)
  | none ↦ (record st { file = some (written_list st.items) }, none)
]

unfoldable pub load_onto : Items → List DraftView → Items
load_onto items [] = items
load_onto items (d ∷ ds) = load_onto (if not (d.id == "") then insert d.id d items else items) ds

unfoldable pub load_list : List DraftView → Items
unfolding load_onto
load_list list = load_onto [] list

-- `load`, with the error of reading or decoding a file that is there.
unfoldable pub load : Failure → Store → Store × Failure
unfolding load_list
load read st = if st.path == "" then (st, none) else elim read [
  | some e ↦ (st, some e)
  | none ↦ elim st.file [
    | none ↦ (st, none)
    | some list ↦ (record st { items = load_list list }, none)
  ]
]

unfoldable pub new_store : Failure → String → Option (List DraftView) → Store
unfolding load
new_store read path file = (load read (record { path = path; items = []; file = file })).0

unfoldable pub save :
    GoText → Files → String → ℕ → DraftView → Failure → Store → DraftView × Failure × Store
unfolding save_item persist_locked
save go files new_id now d write st =
    let (d', items) = save_item go files new_id now d st.items in
    let (st', e) = persist_locked write (record st { items = items }) in (d', e, st')

-- `Get`.
unfoldable pub get : String → Items → Option DraftView
get id items = lookup id items

unfoldable pub delete : String → Failure → Store → Option DraftView × Failure × Store
unfolding persist_locked
delete id write st = elim (lookup id st.items) [
  | none ↦ (none, none, st)
  | some d ↦
      let (st', e) = persist_locked write (record st { items = remove id st.items }) in
      (some d, e, st')
]
