-- ===== src/Sync/Reconciler/Snapshot.antt =====
-- reconciler.go, what a full snapshot leaves.
use dankmail.Base.{
  ℕ, String, Bool, true, false, not, ◌&&◌, ◌||◌, List, ◌++◌, Option, nat_eq, string_eq,
  if◌then◌else◌, ◌≡◌, sym, subst, arith, All, All-map, select-All, contains, select,
}
use dankmail.Provider.{Changes}
use dankmail.Schema.{Cache, Thread}
use dankmail.Schema.Lookup.{IsWellFormed}
use dankmail.Sync.Types.{AccountId}
use dankmail.Sync.World.{World}
use dankmail.Sync.Reconciler.{drop_stale, is_stale, seen_ids, transact, apply, frozen_thread_ids}
use dankmail.Sync.Reconciler.WellFormed.{
  Sound, spared, merged, merged-Sound, drop_stale-select, save_cursor-threads, apply-cache,
}

implied : (a b : Bool) → not (a && not b) ≡ true → a ≡ true → b ≡ true
implied a b h k = ground arith

both : (a b : Bool) → a ≡ true → b ≡ false → (a && not b) ≡ true
both a b h k = ground arith

module _ (account : AccountId) (frozen : List String) where
  abbrev reported : Changes → List String
  reported ch = ch.snapshot_thread_ids ++ seen_ids ch.upserted

  abbrev pub Accounted : Changes → Thread → Type 0
  Accounted ch r =
      is_stale account r ≡ true
      → (contains r.provider_thread_id (ch.snapshot_thread_ids ++ seen_ids ch.upserted)
          || contains r.provider_thread_id frozen)
        ≡ true

  drop_stale-Accounted :
      (ch : Changes) (c : Cache)
      → Sound c
      → All (Accounted ch) (drop_stale account (reported ch) frozen c).threads
  drop_stale-Accounted ch c h = rw (drop_stale-select account frozen (reported ch) c h) (
      All-map (λ r. spared account frozen (reported ch) r ≡ true) (Accounted ch)
        (select (spared account frozen (reported ch)) c.threads) (λ r k stale. implied _ _ k stale)
        (select-All (spared account frozen (reported ch)) c.threads))

  maybe_drop-Accounted :
      (full : Bool) (ch : Changes) (c : Cache)
      → Sound c
      → full ≡ true
      → All (Accounted ch) (if full then drop_stale account (reported ch) frozen c else c).threads
  maybe_drop-Accounted true ch c h e = drop_stale-Accounted ch c h
  maybe_drop-Accounted false ch c h e = cc

  transact-Accounted :
      (ch : Changes) (cursor : Option String) (now : ℕ) (c : Cache)
      → Sound c
      → ch.full_resync ≡ true
      → ch.incomplete ≡ false
      → All (Accounted ch) (transact account ch cursor now frozen c).0.threads
  unfolding transact
  transact-Accounted ch cursor now c h full complete =
      let before = merged account frozen ch now c in
      let test = ch.full_resync && not ch.incomplete in
      let after = (if test then drop_stale account (reported ch) frozen before else before) in
      subst (All (Accounted ch))
        (sym (save_cursor-threads account frozen cursor ch.incomplete now after).0)
        (maybe_drop-Accounted test ch before (merged-Sound account frozen ch now c h)
          (both ch.full_resync ch.incomplete full complete))

module _ (account : AccountId) (ch : Changes) (cursor : Option String) (now : ℕ) (w : World)
    (well : IsWellFormed w.threads w.next_thread) where
  -- After a full snapshot that is complete, each thread that is left to the account is snoozed, has
  -- been browsed as history, is named by the snapshot or among its deltas, or is held by an operation
  -- that is pending or inflight, if the ids and keys of the thread table were distinct.
  pub apply-snapshot :
      ch.full_resync ≡ true
      → ch.incomplete ≡ false
      → All
          (λ r.
            is_stale account r ≡ true
            → (contains r.provider_thread_id (ch.snapshot_thread_ids ++ seen_ids ch.upserted)
                || contains r.provider_thread_id (frozen_thread_ids account w.pending_ops))
              ≡ true)
          (apply account ch cursor now w).threads
  apply-snapshot full complete =
      subst (λ c. All (Accounted account (frozen_thread_ids account w.pending_ops) ch) c.threads)
        (sym (apply-cache account ch cursor now w well))
        (transact-Accounted account (frozen_thread_ids account w.pending_ops) ch cursor now w.cache
          well full complete)
