-- ===== src/Sync/Reconciler/Frozen/Pass.antt =====
-- reconciler.go, a whole sync on a thread with an open operation.
use dankmail.Base.{
  ℕ, Bool, true, false, not, ◌&&◌, ◌||◌, String, List, [], ◌∷◌, ◌++◌, ◌≡◌, refl, inl, inr, arith,
  contains, select, delete_where, if◌then◌else◌, nat_eq, string_eq, Bool-cases, Option, none, some,
  Option-cases,
}
use dankmail.Provider.{Changes, ThreadDelta}
use dankmail.Schema.{Cache, Thread, find_thread, is_row}
use dankmail.Schema.Deletion.{delete_rows-select, delete_rows-next_thread}
use dankmail.Schema.Lookup.{IsWellFormed}
use dankmail.Sync.World.{World, Arrival, publish, message_arrived, threads_changed}
use dankmail.Sync.Reconciler.{
  upsert_thread, upsert_all, mark_history, delete_where_id, remove_all, drop_stale, is_stale,
  seen_ids, save_cursor, transact, publish_arrivals, apply, apply_with, frozen_thread_ids,
}
use dankmail.Sync.Reconciler.Frozen.{
  Holds, SameState, Holds-select, upsert_thread-Holds, maybe_mark-Holds,
}

module _ (t : Thread) (frozen : List String)
    (held : contains t.provider_thread_id frozen ≡ true) where
  upsert_all-Holds :
      (ch : Changes) (now : ℕ) (ds : List ThreadDelta) (c : Cache) (arrivals : List Arrival)
      → Holds t frozen held c.threads c.next_thread
      → let c' = (upsert_all t.account ch frozen now ds c arrivals).0 in
        Holds t frozen held c'.threads c'.next_thread
  unfolding upsert_all mark_history
  upsert_all-Holds ch now [] c arrivals h = h
  upsert_all-Holds ch now (d ∷ ds) c arrivals h =
      let notify = not ch.full_resync && not ch.backfill in
      let (c₁, new) = upsert_thread t.account d (contains d.thread_id frozen) notify c in
      upsert_all-Holds ch now ds
        (if ch.backfill then mark_history t.account d.thread_id now c₁ else c₁) (arrivals ++ new)
        (maybe_mark-Holds t frozen held ch.backfill d.thread_id now c₁
          (upsert_thread-Holds t frozen held d notify c h))

  delete_where_id-Holds :
      (id : String) (c : Cache)
      → contains id frozen ≡ false
      → Holds t frozen held c.threads c.next_thread
      → let c' = delete_where_id t.account id c in Holds t frozen held c'.threads c'.next_thread
  unfolding delete_where_id delete_where
  delete_where_id-Holds id c free h = elim (Option-cases (find_thread t.account id c.threads)) [
    | inl e ↦ rw (e, delete_where_id) h
    | inr (u, e) ↦
        rw (e, delete_where_id)
          (Holds-select t frozen held (λ r. not (is_row t.account id r)) c.threads c.next_thread h
            (ground (arith, h.same.key, string_eq.agrees h.row.provider_thread_id id, held, free)))
  ]

  remove_all-Holds :
      (ids : List String) (c : Cache)
      → Holds t frozen held c.threads c.next_thread
      → let c' = remove_all t.account frozen ids c in Holds t frozen held c'.threads c'.next_thread
  unfolding remove_all
  remove_all-Holds [] c h = h
  remove_all-Holds (id ∷ ids) c h = elim (Bool-cases (contains id frozen)) [
    | inl e ↦ rw (e, remove_all) (remove_all-Holds ids c h)
    | inr e ↦ rw (e, remove_all) (remove_all-Holds ids _ (delete_where_id-Holds id c e h))
  ]

  drop_stale-Holds :
      (seen : List String) (c : Cache)
      → Holds t frozen held c.threads c.next_thread
      → let c' = drop_stale t.account seen frozen c in Holds t frozen held c'.threads c'.next_thread
  unfolding drop_stale
  drop_stale-Holds seen c h =
      let skip = (λ (r : Thread).
        contains r.provider_thread_id seen || contains r.provider_thread_id frozen) in
      rw (delete_rows-select (is_stale t.account) skip c h.well_formed.indexed) (
        rw (delete_rows-next_thread skip (select (is_stale t.account) c.threads) c) (
          Holds-select t frozen held (λ r. not (is_stale t.account r && not (skip r))) c.threads
            c.next_thread h (rw (h.same.key, held) (ground arith))))

  maybe_drop-Holds :
      (full : Bool) (seen : List String) (c : Cache)
      → Holds t frozen held c.threads c.next_thread
      → let c' = if full then drop_stale t.account seen frozen c else c in
        Holds t frozen held c'.threads c'.next_thread
  maybe_drop-Holds true seen c h = drop_stale-Holds seen c h
  maybe_drop-Holds false seen c h = h

  save_cursor-Holds :
      (cursor : Option String) (incomplete : Bool) (now : ℕ) (c : Cache)
      → Holds t frozen held c.threads c.next_thread
      → let c' = save_cursor t.account cursor incomplete now c in
        Holds t frozen held c'.threads c'.next_thread
  unfolding save_cursor
  save_cursor-Holds none incomplete now c h = h
  save_cursor-Holds (some cursor) incomplete now c h = h

pub publish_arrivals-cache :
    (arrivals : List Arrival) (w : World) → (publish_arrivals arrivals w).cache ≡ w.cache
unfolding publish_arrivals publish
publish_arrivals-cache [] w = refl
publish_arrivals-cache (a ∷ arrivals) w =
    publish_arrivals-cache arrivals (publish (message_arrived a) w)

transact-Holds :
    (t : Thread) (ch : Changes) (cursor : Option String) (now : ℕ) (frozen : List String)
    (c : Cache) (held : contains t.provider_thread_id frozen ≡ true)
    → let c' = (transact t.account ch cursor now frozen c).0 in
      Holds t frozen held c.threads c.next_thread → Holds t frozen held c'.threads c'.next_thread
unfolding transact
transact-Holds t ch cursor now frozen c held h =
    let c₁ = (upsert_all t.account ch frozen now ch.upserted c []).0 in
    save_cursor-Holds t frozen held cursor ch.incomplete now _ (
      maybe_drop-Holds t frozen held (ch.full_resync && not ch.incomplete)
        (ch.snapshot_thread_ids ++ seen_ids ch.upserted)
        (remove_all t.account frozen ch.removed_thread_ids c₁)
        (remove_all-Holds t frozen held ch.removed_thread_ids c₁
          (upsert_all-Holds t frozen held ch now ch.upserted c [] h)))

-- While an operation of the account on the thread is pending or inflight, a sync leaves a row with
-- the thread's key, and every field of that row is the field before the sync: the paperclip and the
-- time of browsing are excepted, and the table is assumed to have distinct ids and keys.
pub apply-frozen :
    (t : Thread) (ch : Changes) (cursor : Option String) (now : ℕ) (w : World)
    → IsWellFormed w.threads w.next_thread
    → find_thread t.account t.provider_thread_id w.threads ≡ some t
    → contains t.provider_thread_id (frozen_thread_ids t.account w.pending_ops) ≡ true
    → (u : Thread) × (find_thread t.account t.provider_thread_id
          (apply t.account ch cursor now w).threads
        ≡ some u)
      × SameState u t
unfolding apply apply_with publish
apply-frozen t ch cursor now w well found held =
    let frozen = frozen_thread_ids t.account w.pending_ops in
    let (c, arrivals) = transact t.account ch cursor now frozen w.cache in
    let h = transact-Holds t ch cursor now frozen w.cache held (record {
      well_formed = well;
      row = t;
      found = found;
      same = record {
        id = refl;
        account = refl;
        key = refl;
        subject = refl;
        snippet = refl;
        last_message_at = refl;
        participants = refl;
        unread = refl;
        starred = refl;
        in_inbox = refl;
        labels = refl;
        snoozed_until = refl;
        message_count = refl;
      };
    }) in
    let kept =
      publish_arrivals-cache arrivals
        (publish (threads_changed t.account) (record w { cache = c })) in
    (h.row, rw kept h.found, h.same)
