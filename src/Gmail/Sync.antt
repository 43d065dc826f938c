-- ===== src/Gmail/Sync.antt =====
-- core/internal/provider/gmail/sync.go: the resumable sync, one pass of its loop at a time.
pub mod Falls
pub mod Ending
pub mod Seen
pub mod Snapshot
pub mod Rounds
use dankmail.Base.{
  ℕ, zero, suc, ◌+◌, String, Bool, true, false, not, ◌&&◌, ◌||◌, List, [], ◌∷◌, ◌++◌, Option, none,
  some, ltb, leb, ◌==◌, nat_eq, string_eq, if◌then◌else◌, contains, length, get_or,
}
use dankmail.Errdefs.{Error, Failure, err, ok}
use dankmail.Provider.{ThreadDelta, Changes}
use dankmail.Gmail.Message.{GmailThread}
use dankmail.Gmail.Delta.{thread_delta}
use dankmail.Gmail.Errors.{classify, is_not_found}
use dankmail.Gmail.Checkpoint.{
  GmailProvider, HistoryPage, SyncCheckpoint, Cursor, continuation, history_cursor, other_cursor,
  SyncResult, sync_batch_requests, collect_all, distinct_keys, take_history, take_ids,
  finish_thread, take_delta, fresh_changes, lists_agree,
}

module _ (p : GmailProvider) where
  -- The closure `checkpoint`.
  unfoldable pub checkpoint : Changes → SyncCheckpoint → Failure → SyncResult
  checkpoint changes st e = record {
    changes = record changes { incomplete = true };
    cursor = continuation (some st);
    failure = classify p.look e;
  }

  abbrev pub fresh_checkpoint : ℕ → SyncCheckpoint
  fresh_checkpoint history = record {
    account = p.account_id;
    full = true;
    history = history;
    start = 0;
    phase = "full";
    monitored = p.labels;
    label = 0;
    page = "";
    pending = [];
    done = [];
    seen = [];
  }

  -- What an incremental sync begins with.
  abbrev pub incremental_checkpoint : ℕ → SyncCheckpoint
  incremental_checkpoint start = record {
    account = p.account_id;
    full = false;
    history = start;
    start = start;
    phase = "history";
    monitored = [];
    label = 0;
    page = "";
    pending = [];
    done = [];
    seen = [];
  }

  -- What `startFullSync` returns without a profile.
  unfoldable pub profile_failed : Error → SyncResult
  profile_failed e = record {
    changes = fresh_changes false;
    cursor = other_cursor "";
    failure = classify p.look (some e);
  }

  -- What a pass of the loop does: it returns, goes on, or begins the full sync.
  pub data Pass : Type 0 where
    returned : SyncResult → Pass
    goes_on : ℕ → List String → Changes → SyncCheckpoint → Pass
    starts_over : Pass

  -- The branch of the phase "history".
  unfoldable pub history_pass : ℕ → ℕ → List String → Changes → SyncCheckpoint → Pass
  unfolding checkpoint take_history collect_all is_not_found
  history_pass i requests affected changes st = elim (p.api.list_history i st.start st.page) [
    | err e ↦
        if is_not_found p.look e then starts_over else returned (checkpoint changes st (some e))
    | ok resp ↦
        let affected' = collect_all affected resp.records in
        goes_on (suc requests) affected' changes (take_history affected' resp st)
  ]

  -- The branch of an empty list: the next page of a label, or the end.
  unfoldable pub next_page_pass : ℕ → ℕ → List String → Changes → SyncCheckpoint → Pass
  unfolding checkpoint take_ids
  next_page_pass i requests affected changes st =
      if st.full && ltb st.label (length p.labels)
      then elim (p.api.list_threads i (get_or p.labels st.label "" ∷ []) st.page) [
        | err e ↦ returned (checkpoint changes st (some e))
        | ok (ids, next) ↦ goes_on (suc requests) affected changes (take_ids ids next st)
      ]
      else returned (record {
        changes = record changes { snapshot_thread_ids = st.seen };
        cursor = history_cursor (some st.history);
        failure = none;
      })

  -- The download of the first thread on the list.
  unfoldable pub thread_pass :
      String → List String → ℕ → ℕ → List String → Changes → SyncCheckpoint → Pass
  unfolding checkpoint finish_thread take_delta
  thread_pass id rest i requests affected changes st =
      if contains id st.done
      then goes_on requests affected changes (record st { pending = rest })
      else elim (p.api.get_thread i id) [
        | err e ↦
            if is_not_found p.look e
            then goes_on (suc requests) affected
                (record changes { removed_thread_ids = changes.removed_thread_ids ++ (id ∷ []) })
                (finish_thread id rest st)
            else returned (checkpoint changes st (some e))
        | ok t ↦
            let (changes', st') =
              take_delta (thread_delta p.go p.decoders p.body_cap t) id changes
                (finish_thread id rest st) in
            goes_on (suc requests) affected changes' st'
      ]

  unfoldable pub pending_pass : List String → ℕ → ℕ → List String → Changes → SyncCheckpoint → Pass
  unfolding next_page_pass thread_pass
  pending_pass [] i requests affected changes st = next_page_pass i requests affected changes st
  pending_pass (id ∷ rest) i requests affected changes st =
      thread_pass id rest i requests affected changes st

  -- The body of the loop.
  unfoldable pub sync_pass : ℕ → ℕ → List String → Changes → SyncCheckpoint → Pass
  unfolding checkpoint history_pass pending_pass
  sync_pass i requests affected changes st = elim (p.api.context_err i) [
    | some e ↦ returned (checkpoint changes st (some e))
    | none ↦
        if leb sync_batch_requests requests
        then returned (checkpoint changes st none)
        else if st.phase == "history"
        then history_pass i requests affected changes st
        else pending_pass st.pending i requests affected changes st
  ]

  -- `resumeSync` from a pass on, with `startFullSync` where a pass begins it: `none` if there is no fuel
  -- for another pass.
  unfoldable pub sync_loop : ℕ → ℕ → ℕ → List String → Changes → SyncCheckpoint → Option SyncResult
  unfolding sync_pass profile_failed
  sync_loop zero i requests affected changes st = none
  sync_loop (suc fuel) i requests affected changes st =
      elim (sync_pass i requests affected changes st) [
        | returned r ↦ some r
        | goes_on requests' affected' changes' st' ↦
            sync_loop fuel (suc i) requests' affected' changes' st'
        | starts_over ↦ elim (p.api.get_profile i) [
          | err e ↦ some (profile_failed e)
          | ok history ↦ sync_loop fuel (suc i) 0 [] (fresh_changes true) (fresh_checkpoint history)
        ]
      ]

  unfoldable pub resume_sync : ℕ → ℕ → SyncCheckpoint → Option SyncResult
  unfolding sync_loop distinct_keys
  resume_sync fuel i st =
      sync_loop fuel i 0 (distinct_keys [] st.pending) (fresh_changes st.full) st

  unfoldable pub start_full_sync : ℕ → ℕ → Option SyncResult
  unfolding resume_sync profile_failed
  start_full_sync fuel i = elim (p.api.get_profile i) [
    | err e ↦ some (profile_failed e)
    | ok history ↦ resume_sync fuel (suc i) (fresh_checkpoint history)
  ]

  -- The test of a checkpoint in `Sync`. The labels are compared as lists, where the code joins them
  -- with a zero byte between.
  unfoldable pub is_usable : SyncCheckpoint → Bool
  is_usable st =
      st.account == p.account_id
      && (ltb 0 st.history
          && (st.full
                && (st.phase == "full"
                    && (leb st.label (length p.labels) && lists_agree st.monitored p.labels))
              || not st.full
                && (ltb 0 st.start && (st.phase == "history" || st.phase == "threads"))))

  unfoldable pub sync : ℕ → Cursor → Option SyncResult
  unfolding resume_sync start_full_sync is_usable lists_agree
  sync fuel (continuation (some st)) =
      if is_usable st then resume_sync fuel 0 st else start_full_sync fuel 0
  sync fuel (continuation none) = start_full_sync fuel 0
  sync fuel (history_cursor (some start)) =
      if ltb 0 start
      then resume_sync fuel 0 (incremental_checkpoint start)
      else start_full_sync fuel 0
  sync fuel (history_cursor none) = start_full_sync fuel 0
  sync fuel (other_cursor text) = start_full_sync fuel 0
