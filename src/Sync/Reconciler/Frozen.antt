-- ===== src/Sync/Reconciler/Frozen.antt =====
-- reconciler.go: the statements of a sync on a thread that is frozen.
pub mod Pass
use dankmail.Base.{
  ℕ, suc, ◌<◌, Bool, true, false, not, ◌&&◌, ◌||◌, String, List, [], ◌∷◌, ◌++◌, ◌≡◌, ◌≢◌, refl, sym,
  ap, ◌∙◌, inl, inr, arith, All, contains, select, update_where, delete_where, if◌then◌else◌, ◌==◌,
  nat_eq, string_eq, Bool-cases, Option, none, some, Option-cases, subst, ==→≡,
}
use dankmail.Provider.{Changes, ThreadDelta, MessageDelta}
use dankmail.Schema.{
  Cache, Thread, Message, SameRow, IsIndexed, find_thread, is_row, update_thread, delete_rows,
}
use dankmail.Schema.Deletion.{delete_rows-select}
use dankmail.Schema.Lookup.{
  IsWellFormed, update_where-IsWellFormed, select-IsWellFormed, append-IsWellFormed,
  find_thread-select, find_thread-append, find_thread-update_where, find_thread-apart,
}
use dankmail.Sync.Types.{AccountId}
use dankmail.Sync.World.{World, Arrival, publish, message_arrived}
use dankmail.Sync.Reconciler.{
  overwrite, upsert_row, created, find_message, set_paperclip, refresh_message, add_message, ingest,
  ingest_all, upsert_thread, upsert_all, mark_history, delete_where_id, remove_all, drop_stale,
  is_stale, seen_ids, save_cursor, transact, publish_arrivals, apply, frozen_thread_ids,
  update_message, differ, is_empty,
}
use dankmail.Sync.Reconciler.Keeps.{paperclip, ingest_all-Keeps}

-- The thread-level state. The paperclip and the time of browsing are not part of it.
pub record SameState (u t : Thread) : Type 0 where
  pub id : u.id ≡ t.id
  pub account : u.account ≡ t.account
  pub key : u.provider_thread_id ≡ t.provider_thread_id
  pub subject : u.subject ≡ t.subject
  pub snippet : u.snippet ≡ t.snippet
  pub last_message_at : u.last_message_at ≡ t.last_message_at
  pub participants : u.participants ≡ t.participants
  pub unread : u.unread ≡ t.unread
  pub starred : u.starred ≡ t.starred
  pub in_inbox : u.in_inbox ≡ t.in_inbox
  pub labels : u.labels ≡ t.labels
  pub snoozed_until : u.snoozed_until ≡ t.snoozed_until
  pub message_count : u.message_count ≡ t.message_count

-- The frozen thread `t`, as it was before the sync, among the rows of the table.
module _ (t : Thread) (frozen : List String)
    (held : contains t.provider_thread_id frozen ≡ true) where
  pub record Holds (ts : List Thread) (next : ℕ) : Type 0 where
    pub well_formed : IsWellFormed ts next
    pub row : Thread
    pub found : find_thread t.account t.provider_thread_id ts ≡ some row
    pub same : SameState row t

  -- An update of rows with other ids, or of fields outside of the state.
  Holds-update :
      (p : Thread → Bool) (f : Thread → Thread) (ts : List Thread) (next : ℕ)
      → ((r : Thread) → SameRow (f r) r)
      → ((r : Thread) → SameState r t → SameState (f r) t)
      → Holds ts next
      → Holds (update_where p f ts) next
  Holds-update p f ts next keeps state h = record {
    well_formed = update_where-IsWellFormed p f ts next keeps h.well_formed;
    row = if p h.row then f h.row else h.row;
    found = find_thread-update_where t.account t.provider_thread_id p f keeps ts h.found;
    same = elim (Bool-cases (p h.row)) [ inl e ↦ rw e (state h.row h.same) | inr e ↦ rw e h.same ];
  }

  Holds-paperclip :
      (id : ℕ) (ts : List Thread) (next : ℕ)
      → Holds ts next
      → Holds (update_thread id paperclip ts) next
  unfolding update_thread
  Holds-paperclip id ts next =
      Holds-update _ paperclip ts next (λ r. (refl, refl, refl)) (λ r s. ground arith)

  pub Holds-select :
      (q : Thread → Bool) (ts : List Thread) (next : ℕ)
      → (h : Holds ts next) → q h.row ≡ true
      → Holds (select q ts) next
  Holds-select q ts next h k = record {
    well_formed = select-IsWellFormed q ts next h.well_formed;
    row = h.row;
    found = find_thread-select t.account t.provider_thread_id q ts h.found k;
    same = h.same;
  }

  overwrite-SameRow : (d : ThreadDelta) (u r : Thread) → SameRow (overwrite d u r) r
  unfolding overwrite
  overwrite-SameRow d u r = (refl, refl, refl)

  -- Overwriting the row of another thread of the account.
  Holds-overwrite :
      (d : ThreadDelta) (u : Thread) (ts : List Thread) (next : ℕ)
      → find_thread t.account d.thread_id ts ≡ some u
      → contains d.thread_id frozen ≡ false
      → Holds ts next
      → Holds (update_thread u.id (overwrite d u) ts) next
  unfolding update_thread
  Holds-overwrite d u ts next found free h = record {
    well_formed =
        update_where-IsWellFormed _ (overwrite d u) ts next (overwrite-SameRow d u) h.well_formed;
    row = h.row;
    found =
        find_thread-update_where t.account t.provider_thread_id (λ r. r.id == u.id) (overwrite d u)
          (overwrite-SameRow d u) ts h.found
        ∙ rw (
            find_thread-apart t.account t.provider_thread_id d.thread_id ts h.well_formed.indexed
              other h.found found);
    same = h.same;
  }
    where
      other : (t.provider_thread_id == d.thread_id) ≡ false
      other = ground (arith, string_eq.agrees t.provider_thread_id d.thread_id, held, free)

  upsert_row-Holds :
      (d : ThreadDelta) (c : Cache)
      → Holds c.threads c.next_thread
      → let c' =
          (upsert_row t.account d
            (contains d.thread_id frozen)
            (find_thread t.account d.thread_id c.threads)
            c).1 in
        Holds c'.threads c'.next_thread
  unfolding upsert_row
  upsert_row-Holds d c h = elim (Option-cases (find_thread t.account d.thread_id c.threads)) [
    | inl e ↦
        rw (e, upsert_row)
          (record {
            well_formed =
                append-IsWellFormed (created c.next_thread t.account d) c.threads c.next_thread refl
                  e h.well_formed;
            row = h.row;
            found = find_thread-append t.account t.provider_thread_id c.threads _ h.found;
            same = h.same;
          })
    | inr (u, e) ↦ elim (Bool-cases (contains d.thread_id frozen)) [
      | inl f ↦ rw (e, f, upsert_row) h
      | inr f ↦ rw (e, f, upsert_row) (Holds-overwrite d u c.threads c.next_thread e f h)
    ]
  ]

  pub upsert_thread-Holds :
      (d : ThreadDelta) (notify : Bool) (c : Cache)
      → Holds c.threads c.next_thread
      → let c' = (upsert_thread t.account d (contains d.thread_id frozen) notify c).0 in
        Holds c'.threads c'.next_thread
  unfolding upsert_thread
  upsert_thread-Holds d notify c h =
      ingest_all-Keeps Holds Holds-paperclip t.account d notify d.messages _ _ []
        (upsert_row-Holds d c h)

  mark_history-Holds :
      (id : String) (now : ℕ) (c : Cache)
      → Holds c.threads c.next_thread
      → Holds (mark_history t.account id now c).threads c.next_thread
  unfolding mark_history
  mark_history-Holds id now c =
      Holds-update _ _ c.threads c.next_thread (λ r. (refl, refl, refl)) (λ r s. ground arith)

  pub maybe_mark-Holds :
      (backfill : Bool) (id : String) (now : ℕ) (c : Cache)
      → Holds c.threads c.next_thread
      → let c' = if backfill then mark_history t.account id now c else c in
        Holds c'.threads c'.next_thread
  unfolding mark_history
  maybe_mark-Holds true id now c h = mark_history-Holds id now c h
  maybe_mark-Holds false id now c h = h
