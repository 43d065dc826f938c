-- ===== src/Microsoft/Checkpoint.antt =====
-- core/internal/provider/microsoft/sync.go: the checkpoint of a sync, the variables of its loop, and what
-- an answer makes of them.
-- A cursor is modelled by what its text says; a checkpoint whose folder is negative or whose state is null
-- stands with those that are no JSON, since the code drops them all.
use dankmail.Base.{
  ℕ, suc, String, Bool, not, ◌&&◌, ◌||◌, List, [], ◌∷◌, ◌++◌, Option, ltb, ◌==◌, nat_eq, string_eq,
  if◌then◌else◌, contains, insert,
}
use dankmail.Errdefs.{Failure}
use dankmail.Provider.{ThreadDelta, Changes}
use dankmail.Microsoft.Message.{GraphMessage, DeltaPage, Texts, text_at}

pub record GraphCheckpoint : Type 0 where
  pub account : String
  pub full : Bool
  pub state : Texts
  pub folder : ℕ
  pub link : String
  pub phase : String
  pub pending : List String
  pub removed : List String
  pub seen : List String

-- Empty; with the prefix of a checkpoint, and what its JSON is, if it is one; or another text, with the
-- map of links that it is, if it is one.
pub data GraphCursor : Type 0 where
  unset : GraphCursor
  continuation : Option GraphCheckpoint → GraphCursor
  delta_links : Option Texts → GraphCursor

-- What `Sync` returns, with the provider's `folderIDs` afterwards.
pub record GraphResult : Type 0 where
  pub changes : Changes
  pub cursor : GraphCursor
  pub failure : Failure
  pub folder_ids : Option Texts

abbrev pub batch_requests : ℕ
batch_requests = 25

abbrev pub monitored_folders : List String
monitored_folders = "inbox" ∷ ("junkemail" ∷ [])

-- The variables of the loop, with the provider's `folderIDs`.
pub record Round : Type 0 where
  pub requests : ℕ
  pub affected : List String
  pub changes : Changes
  pub st : GraphCheckpoint
  pub folder_ids : Option Texts

pub data Pass : Type 0 where
  returned : GraphResult → Pass
  goes_on : Round → Pass

-- The closure `addConversation`.
unfoldable pub add_conversation : String → Round → Round
add_conversation id s =
    if not (id == "") && not (contains id s.affected)
    then record s {
      affected = s.affected ++ (id ∷ []);
      st = record s.st { pending = s.st.pending ++ (id ∷ []) };
    }
    else s

-- The loop over the messages of a page.
unfoldable pub take_message : Round → GraphMessage → Round
unfolding add_conversation
take_message s m =
    if m.removed
    then record s { st = record s.st { removed = s.st.removed ++ (m.id ∷ []) } }
    else add_conversation m.conversation_id s

unfoldable pub take_messages : Round → List GraphMessage → Round
unfolding take_message
take_messages s [] = s
take_messages s (m ∷ ms) = take_messages (take_message s m) ms

-- Where the next request of the phase "delta" goes.
unfoldable pub advance : String → DeltaPage → GraphCheckpoint → GraphCheckpoint
unfolding insert
advance folder page st =
    if not (page.delta_link == "") || page.next_link == ""
    then record st {
      state = insert folder page.delta_link st.state;
      folder = suc st.folder;
      link = "";
    }
    else record st { link = page.next_link }

unfoldable pub next_link_of : String → GraphCheckpoint → String
unfolding text_at
next_link_of folder st = if st.link == "" && not st.full then text_at folder st.state else st.link

-- A thread that was asked for: gone, empty, or with mail.
unfoldable pub take_removed : String → Changes → Changes
take_removed id changes = record changes {
  removed_thread_ids = changes.removed_thread_ids ++ (id ∷ []);
}

unfoldable pub take_thread : ThreadDelta → String → Round → Round
take_thread delta id s =
    if ltb 0 delta.message_count
    then record s {
      changes = record s.changes { upserted = s.changes.upserted ++ (delta ∷ []) };
      st = record s.st { seen = if s.st.full then s.st.seen ++ (id ∷ []) else s.st.seen };
    }
    else s

unfoldable pub drop_pending : List String → Round → Round
drop_pending rest s = record s { st = record s.st { pending = rest } }
