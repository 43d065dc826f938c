-- ===== src/Sync/Reconciler/WellFormed.antt =====
-- reconciler.go, what a sync leaves of the thread table as a whole.
use dankmail.Base.{
  ℕ, String, Bool, true, false, not, ◌&&◌, ◌||◌, List, [], ◌∷◌, ◌++◌, Option, none, some, ◌==◌,
  nat_eq, string_eq, if◌then◌else◌, ◌≡◌, refl, sym, subst, inl, inr, Bool-cases, Option-cases,
  contains, select, delete_where,
}
use dankmail.Provider.{Changes, ThreadDelta}
use dankmail.Schema.{Cache, Thread, find_thread, is_row, update_thread}
use dankmail.Schema.Deletion.{delete_rows-select, delete_rows-next_thread}
use dankmail.Schema.Lookup.{
  IsWellFormed, update_where-IsWellFormed, select-IsWellFormed, append-IsWellFormed,
}
use dankmail.Sync.Types.{AccountId}
use dankmail.Sync.World.{World, Arrival, publish, threads_changed}
use dankmail.Sync.Reconciler.Keeps.{paperclip, ingest_all-Keeps}
use dankmail.Sync.Reconciler.Frozen.Pass.{publish_arrivals-cache}
use dankmail.Sync.Reconciler.{
  overwrite, upsert_row, created, upsert_thread, upsert_all, mark_history, delete_where_id,
  remove_all, drop_stale, is_stale, seen_ids, save_cursor, transact, apply, apply_with,
  frozen_thread_ids,
}

abbrev pub Sound : Cache → Type 0
Sound c = IsWellFormed c.threads c.next_thread

paperclip-IsWellFormed :
    (id : ℕ) (ts : List Thread) (next : ℕ)
    → IsWellFormed ts next
    → IsWellFormed (update_thread id paperclip ts) next
unfolding update_thread
paperclip-IsWellFormed id ts next =
    update_where-IsWellFormed (λ r. r.id == id) paperclip ts next (λ r. (refl, refl, refl))

overwrite-IsWellFormed :
    (d : ThreadDelta) (u : Thread) (ts : List Thread) (next : ℕ)
    → IsWellFormed ts next
    → IsWellFormed (update_thread u.id (overwrite d u) ts) next
unfolding update_thread overwrite
overwrite-IsWellFormed d u ts next =
    update_where-IsWellFormed (λ r. r.id == u.id) (overwrite d u) ts next (λ r. (refl, refl, refl))

module _ (account : AccountId) (frozen : List String) where
  upsert_row-Sound :
      (d : ThreadDelta) (stays : Bool) (c : Cache)
      → Sound c
      → Sound (upsert_row account d stays (find_thread account d.thread_id c.threads) c).1
  unfolding upsert_row
  upsert_row-Sound d stays c h = elim (Option-cases (find_thread account d.thread_id c.threads)) [
    | inl e ↦
        rw (e, upsert_row)
          (append-IsWellFormed (created c.next_thread account d) c.threads c.next_thread refl e h)
    | inr (u, e) ↦ elim (Bool-cases stays) [
      | inl f ↦ rw (e, f, upsert_row) h
      | inr f ↦ rw (e, f, upsert_row) (overwrite-IsWellFormed d u c.threads c.next_thread h)
    ]
  ]

  upsert_thread-Sound :
      (d : ThreadDelta) (stays notify : Bool) (c : Cache)
      → Sound c
      → Sound (upsert_thread account d stays notify c).0
  unfolding upsert_thread
  upsert_thread-Sound d stays notify c h =
      let (row, c') = upsert_row account d stays (find_thread account d.thread_id c.threads) c in
      ingest_all-Keeps IsWellFormed paperclip-IsWellFormed account d notify d.messages row c' []
        (upsert_row-Sound d stays c h)

  maybe_mark-Sound :
      (backfill : Bool) (id : String) (now : ℕ) (c : Cache)
      → Sound c
      → Sound (if backfill then mark_history account id now c else c)
  unfolding mark_history
  maybe_mark-Sound true id now c h =
      update_where-IsWellFormed (is_row account id) (λ r. record r { history_loaded_at = some now })
        c.threads c.next_thread (λ r. (refl, refl, refl)) h
  maybe_mark-Sound false id now c h = h

  upsert_all-Sound :
      (ch : Changes) (now : ℕ) (ds : List ThreadDelta) (c : Cache) (arrivals : List Arrival)
      → Sound c
      → Sound (upsert_all account ch frozen now ds c arrivals).0
  unfolding upsert_all
  upsert_all-Sound ch now [] c arrivals h = h
  upsert_all-Sound ch now (d ∷ ds) c arrivals h =
      let notify = not ch.full_resync && not ch.backfill in
      let (c₁, new) = upsert_thread account d (contains d.thread_id frozen) notify c in
      upsert_all-Sound ch now ds
        (if ch.backfill then mark_history account d.thread_id now c₁ else c₁) (arrivals ++ new)
        (maybe_mark-Sound ch.backfill d.thread_id now c₁
          (upsert_thread-Sound d (contains d.thread_id frozen) notify c h))

  delete_where_id-Sound : (id : String) (c : Cache) → Sound c → Sound (delete_where_id account id c)
  unfolding delete_where_id delete_where
  delete_where_id-Sound id c h = elim (Option-cases (find_thread account id c.threads)) [
    | inl e ↦ rw (e, delete_where_id) h
    | inr (u, e) ↦
        rw (e, delete_where_id)
          (select-IsWellFormed (λ r. not (is_row account id r)) c.threads c.next_thread h)
  ]

  remove_all-Sound :
      (ids : List String) (c : Cache) → Sound c → Sound (remove_all account frozen ids c)
  unfolding remove_all
  remove_all-Sound [] c h = h
  remove_all-Sound (id ∷ ids) c h = elim (Bool-cases (contains id frozen)) [
    | inl e ↦ rw (e, remove_all) (remove_all-Sound ids c h)
    | inr e ↦
        rw (e, remove_all)
          (remove_all-Sound ids (delete_where_id account id c) (delete_where_id-Sound id c h))
  ]

  -- The rows that the deletion of a full snapshot spares.
  abbrev pub spared : List String → Thread → Bool
  spared seen r = not (
      is_stale account r
      && not (contains r.provider_thread_id seen || contains r.provider_thread_id frozen))

  pub drop_stale-select :
      (seen : List String) (c : Cache)
      → Sound c
      → (drop_stale account seen frozen c).threads ≡ select (spared seen) c.threads
  unfolding drop_stale
  drop_stale-select seen c h =
      delete_rows-select (is_stale account)
        (λ r. contains r.provider_thread_id seen || contains r.provider_thread_id frozen) c
        h.indexed

  drop_stale-Sound :
      (seen : List String) (c : Cache) → Sound c → Sound (drop_stale account seen frozen c)
  unfolding drop_stale
  drop_stale-Sound seen c h =
      rw
        (delete_rows-select (is_stale account)
          (λ r. contains r.provider_thread_id seen || contains r.provider_thread_id frozen) c
          h.indexed)
        (rw
          (delete_rows-next_thread
            (λ r. contains r.provider_thread_id seen || contains r.provider_thread_id frozen)
            (select (is_stale account) c.threads) c)
          (select-IsWellFormed (spared seen) c.threads c.next_thread h))

  -- The cache before the deletion of a full snapshot.
  abbrev pub merged : Changes → ℕ → Cache → Cache
  merged ch now c =
      remove_all account frozen ch.removed_thread_ids
        (upsert_all account ch frozen now ch.upserted c []).0

  pub merged-Sound : (ch : Changes) (now : ℕ) (c : Cache) → Sound c → Sound (merged ch now c)
  merged-Sound ch now c h =
      remove_all-Sound ch.removed_thread_ids (upsert_all account ch frozen now ch.upserted c []).0
        (upsert_all-Sound ch now ch.upserted c [] h)

  maybe_drop-Sound :
      (full : Bool) (seen : List String) (c : Cache)
      → Sound c
      → Sound (if full then drop_stale account seen frozen c else c)
  maybe_drop-Sound true seen c h = drop_stale-Sound seen c h
  maybe_drop-Sound false seen c h = h

  pub save_cursor-threads :
      (cursor : Option String) (incomplete : Bool) (now : ℕ) (c : Cache)
      → ((save_cursor account cursor incomplete now c).threads ≡ c.threads)
        × ((save_cursor account cursor incomplete now c).next_thread ≡ c.next_thread)
  unfolding save_cursor
  save_cursor-threads none incomplete now c = (refl, refl)
  save_cursor-threads (some cursor) incomplete now c = (refl, refl)

  transact-Sound :
      (ch : Changes) (cursor : Option String) (now : ℕ) (c : Cache)
      → Sound c
      → Sound (transact account ch cursor now frozen c).0
  unfolding transact
  transact-Sound ch cursor now c h =
      let seen = ch.snapshot_thread_ids ++ seen_ids ch.upserted in
      let full = ch.full_resync && not ch.incomplete in
      let before = merged ch now c in
      let after = (if full then drop_stale account seen frozen before else before) in
      let kept = save_cursor-threads cursor ch.incomplete now after in
      rw (kept.0, kept.1) (maybe_drop-Sound full seen before (merged-Sound ch now c h))

module _ (account : AccountId) (ch : Changes) (cursor : Option String) (now : ℕ) (w : World)
    (well : IsWellFormed w.threads w.next_thread) where
  abbrev pub frozen_now : List String
  frozen_now = frozen_thread_ids account w.pending_ops

  abbrev pub written : Cache
  written = (transact account ch cursor now frozen_now w.cache).0

  pub apply-cache : (apply account ch cursor now w).cache ≡ written
  unfolding apply apply_with publish
  apply-cache =
      publish_arrivals-cache (transact account ch cursor now frozen_now w.cache).1
        (publish (threads_changed account) (record w { cache = written }))

  -- A sync keeps the ids of the thread rows and their keys distinct, and the next id above all of
  -- them, if they were before.
  pub apply-IsWellFormed :
      IsWellFormed
        (apply account ch cursor now w).threads
        (apply account ch cursor now w).next_thread
  apply-IsWellFormed =
      subst (λ c. IsWellFormed c.threads c.next_thread) (sym apply-cache)
        (transact-Sound account frozen_now ch cursor now w.cache well)
