-- ===== src/Gmail/Sync/Rounds.antt =====
-- sync.go, the snapshot at the end of a full sync that was cut into several.
use dankmail.Base.{
  ℕ, String, string_eq, true, List, ◌++◌, some, ◌≡◌, refl, sym, ap, ◌∙◌, subst, contains,
}
use dankmail.Errdefs.{ok}
use dankmail.Provider.{ThreadDelta}
use dankmail.Gmail.Message.{GmailThread}
use dankmail.Gmail.Checkpoint.{
  GmailProvider, SyncCheckpoint, Cursor, SyncResult, continuation, history_cursor,
}
use dankmail.Gmail.Sync.{sync, is_usable}
use dankmail.Gmail.Sync.Seen.{seen_after, AreSeen, AreSeen-append, Holds, AreSeen-Holds}
use dankmail.Gmail.Sync.Snapshot.{Covers, sync-Covers, sync-Holds}

-- The syncs of one full pass over a mailbox: each goes on from the checkpoint of the one before, and
-- the last leaves a history id. Of all of them, the deltas, and of the last, the snapshot.
pub data FullSync (p : GmailProvider) : Cursor → List ThreadDelta → List String → Type 0 where
  last :
      (fuel : ℕ) (cursor : Cursor) (r : SyncResult) (history : ℕ)
      → sync p fuel cursor ≡ some r
      → r.changes.full_resync ≡ true
      → r.cursor ≡ history_cursor (some history)
      → FullSync p cursor r.changes.upserted r.changes.snapshot_thread_ids
  more :
      (fuel : ℕ) (cursor : Cursor) (r : SyncResult) (st : SyncCheckpoint) (later : List ThreadDelta)
      (snapshot : List String)
      → sync p fuel cursor ≡ some r
      → r.changes.full_resync ≡ true
      → r.cursor ≡ continuation (some st)
      → is_usable p st ≡ true
      → st.full ≡ true
      → FullSync p (continuation (some st)) later snapshot
      → FullSync p cursor (r.changes.upserted ++ later) snapshot

seen_after-last :
    (r : SyncResult) {history : ℕ}
    → r.cursor ≡ history_cursor (some history)
    → seen_after r ≡ r.changes.snapshot_thread_ids
unfolding seen_after
seen_after-last r h = rw (h) refl

seen_after-more :
    (r : SyncResult) {st : SyncCheckpoint}
    → r.cursor ≡ continuation (some st)
    → seen_after r ≡ st.seen
unfolding seen_after
seen_after-more r h = rw (h) refl

module _ (p : GmailProvider)
    (answers : (i : ℕ) (id : String) (t : GmailThread)
      → p.api.get_thread i id ≡ ok t
      → t.id ≡ id) where
  -- What counts as seen at a checkpoint is in the snapshot.
  FullSync-Holds :
      (st : SyncCheckpoint) {cursor : Cursor} {ds : List ThreadDelta} {snapshot : List String}
      → cursor ≡ continuation (some st)
      → is_usable p st ≡ true
      → st.full ≡ true
      → FullSync p cursor ds snapshot
      → Holds snapshot st.seen
  FullSync-Holds st at usable full (last fuel cursor r history h flag ends) =
      subst (λ snapshot. Holds snapshot st.seen) (seen_after-last r ends)
        (sync-Holds p answers fuel st usable full (subst (λ c. sync p fuel c ≡ some r) at h))
  FullSync-Holds st at usable full
        (more fuel cursor r st' later snapshot h flag ends usable' full' rest) =
      λ id k.
        let began : Holds (seen_after r) st.seen =
          sync-Holds p answers fuel st usable full (subst (λ c. sync p fuel c ≡ some r) at h) in
        FullSync-Holds st' refl usable' full' rest id
          (ap (contains id) (sym (seen_after-more r ends)) ∙ began id k)

  -- However often a full sync of a mailbox is cut off at a checkpoint and resumed, every thread that one
  -- of its parts brings is in the snapshot that the last part returns, if the API answers a request for
  -- a thread with the thread of that id.
  pub FullSync-AreSeen :
      {cursor : Cursor} {ds : List ThreadDelta} {snapshot : List String}
      → FullSync p cursor ds snapshot
      → AreSeen snapshot ds
  unfolding Covers
  FullSync-AreSeen (last fuel cursor r history h flag ends) =
      subst (λ seen. AreSeen seen r.changes.upserted) (seen_after-last r ends)
        (sync-Covers p answers fuel cursor h flag)
  FullSync-AreSeen (more fuel cursor r st later snapshot h flag ends usable full rest) =
      AreSeen-append snapshot r.changes.upserted later
        (AreSeen-Holds p answers snapshot st.seen r.changes.upserted
          (FullSync-Holds st refl usable full rest)
          (subst (λ seen. AreSeen seen r.changes.upserted) (seen_after-more r ends)
            (sync-Covers p answers fuel cursor h flag)))
        (FullSync-AreSeen rest)
