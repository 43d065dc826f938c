-- ===== src/Gmail/Mailbox.antt =====
-- core/internal/provider/gmail/gmail.go: search and history pages of a mailbox, and label edits. A page
-- token is modelled by what its text decodes to.
pub mod Pages
pub mod Search
use dankmail.Base.{
  ℕ, zero, suc, ◌+◌, ◌-◌, String, Bool, true, false, not, ◌&&◌, ◌||◌, List, [], ◌∷◌, ◌++◌, map,
  Option, none, some, ltb, leb, ◌==◌, string_eq, if◌then◌else◌, contains, length, min,
}
use dankmail.Errdefs.{Error, Failure, Result, err, ok, plain}
use dankmail.Provider.{ThreadDelta, Changes, Flag, unread, starred}
use dankmail.Gmail.Message.{GmailThread}
use dankmail.Gmail.Delta.{thread_delta}
use dankmail.Gmail.Errors.{classify, is_not_found}
use dankmail.Gmail.Checkpoint.{GmailProvider}

abbrev pub backfill_of : List ThreadDelta → Changes
backfill_of deltas = record {
  incomplete = false;
  snapshot_thread_ids = [];
  full_resync = false;
  backfill = true;
  upserted = deltas;
  removed_thread_ids = [];
}

-- `Changes{}`.
abbrev pub no_changes : Changes
no_changes = record (backfill_of []) { backfill = false }

-- The monitored labels, from those of the options: `New`.
unfoldable pub monitored_labels : List String → List String → List String
monitored_labels labels [] = labels
monitored_labels labels (l ∷ ls) =
    monitored_labels (if l == "" || contains l labels then labels else labels ++ (l ∷ [])) ls

abbrev pub base_labels : List String
base_labels = "INBOX" ∷ ("STARRED" ∷ ("SPAM" ∷ []))

unfoldable pub flag_to_label : Flag → String
flag_to_label unread = "UNREAD"
flag_to_label starred = "STARRED"

-- A label edit that was asked for: the thread, the labels to add and to remove.
abbrev pub Edit : Type 0
Edit = String × List String × List String

abbrev add_request : Edit → List Edit × Failure → List Edit × Failure
add_request edit (edits, e) = (edit ∷ edits, e)

module _ (p : GmailProvider) (modify_thread : Edit → Failure) where
  -- The edits asked for, in order, and the error.
  unfoldable pub modify_all : List String → List String → List String → List Edit × Failure
  modify_all [] add remove = ([], none)
  modify_all (id ∷ ids) add remove =
      let rest = modify_all ids add remove in
      elim (modify_thread (id, add, remove)) [
        | some e ↦ ((id, add, remove) ∷ [], classify p.look (some e))
        | none ↦ add_request (id, add, remove) rest
      ]

  unfoldable pub modify_flags : List String → List Flag → List Flag → List Edit × Failure
  unfolding modify_all flag_to_label
  modify_flags ids [] [] = ([], none)
  modify_flags ids add remove = modify_all ids (map flag_to_label add) (map flag_to_label remove)

  unfoldable pub archive_threads : List String → List Edit × Failure
  archive_threads ids = modify_all ids [] ("INBOX" ∷ [])

  unfoldable pub unarchive_threads : List String → List Edit × Failure
  unarchive_threads ids = modify_all ids ("INBOX" ∷ []) []

  unfoldable pub trash_threads : List String → List Edit × Failure
  trash_threads ids = modify_all ids ("TRASH" ∷ []) ("INBOX" ∷ [])

  unfoldable pub unspam_threads : List String → List Edit × Failure
  unspam_threads ids = modify_all ids ("INBOX" ∷ []) ("SPAM" ∷ [])

  unfoldable pub spam_threads : List String → List Edit × Failure
  spam_threads ids = modify_all ids ("SPAM" ∷ []) ("INBOX" ∷ [])

-- What downloads bring: the deltas, the ids that are left, and the error that left them.
pub record Download : Type 0 where
  pub deltas : List ThreadDelta
  pub left : List String
  pub broken : Option Error

abbrev pub delta_of : GmailProvider → GmailThread → ThreadDelta
delta_of p t = thread_delta p.go p.decoders p.body_cap t

-- A delta counts where its thread has a message.
unfoldable pub with_delta : ThreadDelta → List ThreadDelta → List ThreadDelta
with_delta d ds = if ltb 0 d.message_count then d ∷ ds else ds

pub record ArchiveCursor : Type 0 where
  pub account : String
  pub query : String
  pub page : String
  pub remaining : List String

-- The empty token; one that decodes to a cursor; and one that does not.
pub data PageToken : Type 0 where
  first_page : PageToken
  archive_token : ArchiveCursor → PageToken
  bad_token : String → PageToken

unfoldable pub encode_archive_cursor : ArchiveCursor → PageToken
encode_archive_cursor c = elim c.remaining [
  | [] ↦ if c.page == "" then first_page else archive_token c
  | id ∷ ids ↦ archive_token c
]

pub record PageResult : Type 0 where
  pub page_changes : Changes
  pub token : PageToken
  pub page_failure : Failure

module _ (p : GmailProvider) where
  -- The loop over a page's ids, from request `i` on.
  unfoldable pub download : ℕ → List String → Download
  unfolding with_delta
  download i [] = record { deltas = []; left = []; broken = none }
  download i (id ∷ ids) =
      let rest = download (suc i) ids in
      elim (p.api.get_thread i id) [
        | err e ↦
            if is_not_found p.look e
            then rest
            else record { deltas = []; left = id ∷ ids; broken = some e }
        | ok t ↦ record rest { deltas = with_delta (delta_of p t) rest.deltas }
      ]

  -- The ids of the cursor, or the next page of the search.
  unfoldable pub listed : ℕ → String → ArchiveCursor → Result (List String × String)
  listed i query c = elim c.remaining [
    | id ∷ ids ↦ ok (id ∷ ids, c.page)
    | [] ↦ p.api.search_threads i query c.page 25
  ]

  page_result : String → String → Download → PageResult
  page_result query next d = record {
    page_changes = backfill_of d.deltas;
    token =
        encode_archive_cursor
          (record { account = p.account_id; query = query; page = next; remaining = d.left });
    page_failure = classify p.look d.broken;
  }

  unfoldable pub page_from : ℕ → String → PageToken → ArchiveCursor → PageResult
  unfolding listed download page_result
  page_from i query token c =
      if not (c.account == "") && not (c.account == p.account_id)
        || not (c.query == "") && not (c.query == query)
      then record {
        page_changes = no_changes;
        token = token;
        page_failure = some (plain "history cursor belongs to another mailbox");
      }
      else elim (listed i query c) [
        | err e ↦ record {
          page_changes = no_changes;
          token = token;
          page_failure = classify p.look (some e);
        }
        | ok (ids, next) ↦ page_result query next (download (suc i) ids)
      ]

  abbrev pub empty_cursor : ArchiveCursor
  empty_cursor = record { account = ""; query = ""; page = ""; remaining = [] }

  unfoldable pub history_page : ℕ → String → PageToken → PageResult
  unfolding page_from
  history_page i query first_page = page_from i query first_page empty_cursor
  history_page i query (archive_token c) = page_from i query (archive_token c) c
  history_page i query (bad_token text) = record {
    page_changes = no_changes;
    token = bad_token text;
    page_failure = some (plain "invalid archive cursor");
  }

  unfoldable pub archived_page : ℕ → PageToken → PageResult
  unfolding history_page
  archived_page i token = history_page i "-in:inbox -in:spam -in:trash -is:draft" token

  unfoldable pub sent_page : ℕ → PageToken → PageResult
  unfolding history_page
  sent_page i token = history_page i "in:sent -in:trash -is:draft" token

  -- The inner loop of `SearchRemote`: the deltas so far, or an error, from request `i` on.
  unfoldable pub search_ids : ℕ → ℕ → List String → List ThreadDelta → Result (List ThreadDelta)
  search_ids limit i [] upserted = ok upserted
  search_ids limit i (id ∷ ids) upserted =
      if leb limit (length upserted) then ok upserted else elim (p.api.get_thread i id) [
        | err e ↦ if is_not_found p.look e then search_ids limit (suc i) ids upserted else err e
        | ok t ↦ search_ids limit (suc i) ids (
            if ltb 0 (delta_of p t).message_count
            then upserted ++ (delta_of p t ∷ [])
            else upserted)
      ]

  unfoldable pub failed_search : Error → Changes × Failure
  failed_search e = (no_changes, classify p.look (some e))

  -- The outer loop, a page at a time: `none` if there is no fuel for another page.
  unfoldable pub search_pages :
      ℕ → ℕ → String → ℕ → String → List ThreadDelta → Option (Changes × Failure)
  unfolding search_ids failed_search
  search_pages zero limit query i token upserted = none
  search_pages (suc fuel) limit query i token upserted =
      if not (ltb (length upserted) limit)
      then some (backfill_of upserted, none)
      else elim (p.api.search_threads i query token (min 100 (limit - length upserted))) [
        | err e ↦ some (failed_search e)
        | ok (ids, next) ↦ elim (search_ids limit (suc i) ids upserted) [
          | err e ↦ some (failed_search e)
          | ok upserted' ↦
              let later = search_pages fuel limit query (suc (i + length ids)) next upserted' in
              if next == "" then some (backfill_of upserted', none) else later
        ]
      ]

  abbrev pub limit_or_default : ℕ → ℕ
  limit_or_default limit = if leb limit 0 then 100 else limit

  unfoldable pub search_remote : ℕ → String → ℕ → Option (Changes × Failure)
  unfolding search_pages
  search_remote fuel query limit = search_pages fuel (limit_or_default limit) query 0 "" []
