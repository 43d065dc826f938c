-- ===== src/Gmail/Checkpoint.antt =====
-- core/internal/provider/gmail/sync.go and gmail.go: the API that the provider calls, the checkpoint of
-- a sync, and what an answer makes of it. The Gmail API is a parameter, the record
-- `GmailApi`: its answers may change from one pass of the loop to the next, which the argument numbers.
-- A cursor is modelled by what its text says; a checkpoint whose label is negative stands with those that are no
-- JSON, since the code drops both.
use Prim.Native.String.{compare as compare_texts}
use dankmail.Base.{
  ℕ, suc, String, Bool, true, false, not, ◌&&◌, List, [], ◌∷◌, ◌++◌, Option, none, some, ltb, ◌==◌,
  nat_eq, string_eq, if◌then◌else◌, contains, max, GoText, Ordering, ◌≡◌, refl, ◌∙◌, arith,
}
use dankmail.Errdefs.{Failure, Result}
use dankmail.Provider.{ThreadDelta, Changes}
use dankmail.Gmail.Message.{GmailMessage, GmailThread, Decoders}
use dankmail.Gmail.Errors.{Inspect}

-- A history record, by the messages it names: added, deleted, and with labels added and removed.
pub record HistoryRecord : Type 0 where
  pub history_id : ℕ
  pub messages_added : List (Option GmailMessage)
  pub messages_deleted : List (Option GmailMessage)
  pub labels_added : List (Option GmailMessage)
  pub labels_removed : List (Option GmailMessage)

pub record HistoryPage : Type 0 where
  pub page_history_id : ℕ
  pub records : List HistoryRecord
  pub next_page_token : String

pub record GmailApi : Type 0 where
  pub get_profile : ℕ → Result ℕ
  pub list_threads : ℕ → List String → String → Result (List String × String)
  pub get_thread : ℕ → String → Result GmailThread
  pub list_history : ℕ → ℕ → String → Result HistoryPage
  pub search_threads : ℕ → String → String → ℕ → Result (List String × String)
  -- `ctx.Err()`.
  pub context_err : ℕ → Failure

-- The fields of `Provider`, and the functions of other packages that it calls.
pub record GmailProvider : Type 0 where
  pub account_id : String
  pub labels : List String
  pub body_cap : ℕ
  pub api : GmailApi
  pub look : Inspect
  pub go : GoText
  pub decoders : Decoders

pub record SyncCheckpoint : Type 0 where
  pub account : String
  pub full : Bool
  pub history : ℕ
  pub start : ℕ
  pub phase : String
  pub monitored : List String
  pub label : ℕ
  pub page : String
  pub pending : List String
  pub done : List String
  pub seen : List String

-- With the prefix of a checkpoint, and what its JSON is, if it is one; with the prefix of a history id,
-- and the number; or another text.
pub data Cursor : Type 0 where
  continuation : Option SyncCheckpoint → Cursor
  history_cursor : Option ℕ → Cursor
  other_cursor : String → Cursor

pub record SyncResult : Type 0 where
  pub changes : Changes
  pub cursor : Cursor
  pub failure : Failure

abbrev pub sync_batch_requests : ℕ
sync_batch_requests = 25

add_thread_ids : List String → List (Option GmailMessage) → List String
add_thread_ids dst [] = dst
add_thread_ids dst (none ∷ ms) = add_thread_ids dst ms
add_thread_ids dst (some m ∷ ms) =
    add_thread_ids
      (if not (m.thread_id == "") && not (contains m.thread_id dst)
        then dst ++ (m.thread_id ∷ [])
        else dst)
      ms

unfoldable pub collect_thread_ids : List String → HistoryRecord → List String
unfolding add_thread_ids
collect_thread_ids dst h =
    add_thread_ids
      (add_thread_ids (add_thread_ids (add_thread_ids dst h.messages_added) h.messages_deleted)
        h.labels_added)
      h.labels_removed

unfoldable pub collect_all : List String → List HistoryRecord → List String
unfolding collect_thread_ids
collect_all dst [] = dst
collect_all dst (h ∷ hs) = collect_all (collect_thread_ids dst h) hs

unfoldable pub latest : ℕ → List HistoryRecord → ℕ
latest newest [] = newest
latest newest (h ∷ hs) = latest (max newest h.history_id) hs

-- `sort.Strings`.
abbrev text_leb : String → String → Bool
text_leb s t = elim (compare_texts s t) [ Ordering.gt ↦ false | _ ↦ true ]

insert_sorted : String → List String → List String
insert_sorted s [] = s ∷ []
insert_sorted s (t ∷ ts) =
    let later = insert_sorted s ts in if text_leb s t then s ∷ (t ∷ ts) else t ∷ later

unfoldable pub sort_strings : List String → List String
unfolding insert_sorted
sort_strings [] = []
sort_strings (s ∷ ss) = insert_sorted s (sort_strings ss)

contains-insert_sorted :
    (id s : String) (ts : List String) → contains id (insert_sorted s ts) ≡ contains id (s ∷ ts)
unfolding insert_sorted contains
contains-insert_sorted id s [] = refl
contains-insert_sorted id s (t ∷ ts) =
    let later = contains-insert_sorted id s ts in ground (arith, later)

pub contains-sort_strings :
    (id : String) (ss : List String) → contains id (sort_strings ss) ≡ contains id ss
unfolding sort_strings contains
contains-sort_strings id [] = refl
contains-sort_strings id (s ∷ ss) =
    contains-insert_sorted id s (sort_strings ss) ∙ rw (contains, contains-sort_strings id ss) refl

-- The keys of `affected` at the start, from the list `Pending`.
unfoldable pub distinct_keys : List String → List String → List String
distinct_keys seen [] = seen
distinct_keys seen (id ∷ ids) =
    distinct_keys (if contains id seen then seen else seen ++ (id ∷ [])) ids

-- What a history page makes of the checkpoint, with the affected threads.
unfoldable pub take_history : List String → HistoryPage → SyncCheckpoint → SyncCheckpoint
unfolding collect_all latest
take_history affected resp st = record st {
  history = latest (max st.history resp.page_history_id) resp.records;
  pending = sort_strings affected;
  page = resp.next_page_token;
  phase = if resp.next_page_token == "" then "threads" else st.phase;
}

unfoldable pub take_ids : List String → String → SyncCheckpoint → SyncCheckpoint
take_ids ids next st = record st {
  pending = ids;
  page = next;
  label = if next == "" then suc st.label else st.label;
}

-- The thread `id` is off the list; a full sync remembers that it was downloaded.
unfoldable pub finish_thread : String → List String → SyncCheckpoint → SyncCheckpoint
finish_thread id rest st = record st {
  pending = rest;
  done = if st.full then st.done ++ (id ∷ []) else st.done;
}

-- The delta of a thread that was found, where it has a message.
unfoldable pub take_delta :
    ThreadDelta → String → Changes → SyncCheckpoint → Changes × SyncCheckpoint
take_delta delta id changes st =
    if ltb 0 delta.message_count
    then (
      record changes { upserted = changes.upserted ++ (delta ∷ []) },
      record st { seen = if st.full then st.seen ++ (id ∷ []) else st.seen },
    )
    else (changes, st)

abbrev pub fresh_changes : Bool → Changes
fresh_changes full = record {
  incomplete = false;
  snapshot_thread_ids = [];
  full_resync = full;
  backfill = false;
  upserted = [];
  removed_thread_ids = [];
}

unfoldable pub lists_agree : List String → List String → Bool
lists_agree [] [] = true
lists_agree (s ∷ ss) (t ∷ ts) = s == t && lists_agree ss ts
lists_agree _ _ = false
