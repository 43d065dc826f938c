-- ===== src/Microsoft/Sync.antt =====
-- core/internal/provider/microsoft/sync.go: the resumable sync, one pass of its loop at a time.
pub mod Asks
pub mod Ending
pub mod Kept
pub mod Keeps
use dankmail.Base.{
  ℕ, zero, suc, String, Bool, true, false, not, ◌&&◌, ◌||◌, List, [], ◌∷◌, ◌++◌, Option, none, some,
  ltb, leb, ◌==◌, nat_eq, string_eq, if◌then◌else◌, contains, get_or, insert,
}
use dankmail.Errdefs.{Error, Failure, Result, err, ok}
use dankmail.Provider.{ThreadDelta, Changes}
use dankmail.Gmail.Checkpoint.{distinct_keys, sort_strings, fresh_changes}
use dankmail.Microsoft.Errors.{classify, is_not_found, is_gone}
use dankmail.Microsoft.Message.{
  GraphMessage, DeltaPage, Texts, MicrosoftProvider, text_at, thread_delta,
}
use dankmail.Microsoft.Checkpoint.{
  GraphCheckpoint, GraphCursor, unset, continuation, delta_links, GraphResult, batch_requests,
  monitored_folders, Round, Pass, returned, goes_on, add_conversation, take_message, take_messages,
  advance, next_link_of, take_removed, take_thread, drop_pending,
}

module _ (p : MicrosoftProvider) where
  abbrev pub fresh_checkpoint : GraphCheckpoint
  fresh_checkpoint = record {
    account = p.account_id;
    full = true;
    state = [];
    folder = 0;
    link = "";
    phase = "delta";
    pending = [];
    removed = [];
    seen = [];
  }

  -- The closure `checkpoint`.
  unfoldable pub checkpoint : Round → Failure → GraphResult
  unfolding classify
  checkpoint s e = record {
    changes = record s.changes { incomplete = true };
    cursor = continuation (some s.st);
    failure = classify p.as_graph e;
    folder_ids = s.folder_ids;
  }

  -- What an expired link leads to.
  unfoldable pub reset : Round → GraphResult
  unfolding checkpoint
  reset s = checkpoint (record s { changes = fresh_changes true; st = fresh_checkpoint }) none

  -- The branch of the phase "delta", for a folder. An index past the folders does not occur here.
  unfoldable pub folder_pass : String → ℕ → Round → Pass
  unfolding reset checkpoint is_gone next_link_of take_messages advance
  folder_pass folder i s =
      let link = next_link_of folder s.st in
      elim (p.api.delta_messages i folder link) [
        | err e ↦
            returned
              (if is_gone p.as_graph e && not (link == "") then reset s else checkpoint s (some e))
        | ok page ↦
            let s' = take_messages (record s { requests = suc s.requests }) page.messages in
            goes_on (record s' { st = advance folder page s'.st })
      ]

  unfoldable pub delta_pass : ℕ → Round → Pass
  unfolding folder_pass
  delta_pass i s =
      if s.st.folder == 2
      then goes_on (record s { st = record s.st { phase = "removed" } })
      else folder_pass (get_or monitored_folders s.st.folder "") i s

  -- The branch of the phase "removed".
  unfoldable pub removed_pass : List String → ℕ → Round → Pass
  unfolding checkpoint is_not_found add_conversation sort_strings
  removed_pass [] i s =
      goes_on
        (record s { st = record s.st { pending = sort_strings s.st.pending; phase = "threads" } })
  removed_pass (id ∷ rest) i s =
      let s' = record s { requests = suc s.requests; st = record s.st { removed = rest } } in
      elim (p.api.get_message i id) [
        | err e ↦ if is_not_found p.as_graph e then goes_on s' else returned (checkpoint s (some e))
        | ok m ↦ goes_on (add_conversation m.conversation_id s')
      ]

  -- The branch of a conversation that has messages.
  unfoldable pub conversation_pass : String → List String → List GraphMessage → ℕ → Round → Pass
  unfolding checkpoint thread_delta take_thread drop_pending
  conversation_pass id rest msgs i s = elim (thread_delta p i s.folder_ids id msgs) [
    | err e ↦ returned (checkpoint s (some e))
    | ok (delta, ids) ↦ goes_on (
        drop_pending rest
          (take_thread delta id (record s { requests = suc s.requests; folder_ids = some ids })))
  ]

  -- The branch of the phase "threads".
  unfoldable pub threads_pass : List String → ℕ → Round → Pass
  unfolding checkpoint is_not_found conversation_pass take_removed drop_pending
  threads_pass [] i s = returned (record {
    changes = record s.changes { snapshot_thread_ids = s.st.seen };
    cursor = delta_links (some s.st.state);
    failure = none;
    folder_ids = s.folder_ids;
  })
  threads_pass (id ∷ rest) i s =
      let gone = goes_on (
        drop_pending rest
          (record s { requests = suc s.requests; changes = take_removed id s.changes })) in
      elim (p.api.list_conversation i id) [
        | err e ↦ if is_not_found p.as_graph e then gone else returned (checkpoint s (some e))
        | ok [] ↦ gone
        | ok (m ∷ ms) ↦ conversation_pass id rest (m ∷ ms) i s
      ]

  -- The body of the loop.
  unfoldable pub sync_pass : ℕ → Round → Pass
  unfolding checkpoint delta_pass removed_pass threads_pass
  sync_pass i s = elim (p.api.context_err i) [
    | some e ↦ returned (checkpoint s (some e))
    | none ↦
        if leb batch_requests s.requests
        then returned (checkpoint s none)
        else if s.st.phase == "delta"
        then delta_pass i s
        else if s.st.phase == "removed"
        then removed_pass s.st.removed i s
        else if s.st.phase == "threads"
        then threads_pass s.st.pending i s
        else goes_on s
  ]

  -- `none` if there is no fuel for another pass.
  unfoldable pub sync_loop : ℕ → ℕ → Round → Option GraphResult
  unfolding sync_pass
  sync_loop zero i s = none
  sync_loop (suc fuel) i s = elim (sync_pass i s) [
    | returned r ↦ some r
    | goes_on s' ↦ sync_loop fuel (suc i) s'
  ]

  abbrev pub first_round : Option Texts → GraphCheckpoint → Round
  first_round folder_ids st = record {
    requests = 0;
    affected = distinct_keys [] st.pending;
    changes = fresh_changes st.full;
    st = st;
    folder_ids = folder_ids;
  }

  unfoldable pub resume_sync : ℕ → Option Texts → GraphCheckpoint → Option GraphResult
  unfolding sync_loop distinct_keys
  resume_sync fuel folder_ids st = sync_loop fuel 0 (first_round folder_ids st)

  -- The test of a checkpoint in `Sync`.
  unfoldable pub is_usable : GraphCheckpoint → Bool
  is_usable st =
      st.account == p.account_id
      && (leb st.folder 2
          && (st.phase == "delta" || (st.phase == "removed" || st.phase == "threads")))

  -- A cursor of an earlier sync has a link for each folder.
  unfoldable pub has_links : Texts → Bool
  unfolding text_at
  has_links state = not (text_at "inbox" state == "") && not (text_at "junkemail" state == "")

  -- The checkpoint that `Sync` goes on from.
  unfoldable pub starting_point : GraphCursor → GraphCheckpoint
  unfolding is_usable has_links
  starting_point unset = fresh_checkpoint
  starting_point (continuation none) = fresh_checkpoint
  starting_point (continuation (some st)) = if is_usable st then st else fresh_checkpoint
  starting_point (delta_links none) = fresh_checkpoint
  starting_point (delta_links (some state)) =
      if has_links state
      then record fresh_checkpoint { full = false; state = state }
      else fresh_checkpoint

  unfoldable pub sync : ℕ → Option Texts → GraphCursor → Option GraphResult
  unfolding resume_sync starting_point
  sync fuel folder_ids cursor = resume_sync fuel folder_ids (starting_point cursor)
