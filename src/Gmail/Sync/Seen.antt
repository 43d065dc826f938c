-- ===== src/Gmail/Sync/Seen.antt =====
-- sync.go, what the snapshot of a full sync says of the threads that it downloaded.
use dankmail.Base.{
  ℕ, String, Bool, true, false, List, [], ◌∷◌, ◌++◌, some, ltb, ◌==◌, ==-self, string_eq, ◌≡◌, ◌≢◌,
  ◌⊎◌, refl, sym, ◌∙◌, inl, inr, arith, subst, Bool-cases, contains, contains-append, All, All-map,
  All-append, if◌then◌else◌,
}
use dankmail.Errdefs.{ok}
use dankmail.Provider.{Changes, ThreadDelta}
use dankmail.Gmail.Message.{GmailThread}
use dankmail.Gmail.Delta.{thread_delta}
use dankmail.Gmail.Delta.Reads.{thread_delta-thread_id}
use dankmail.Gmail.Errors.{is_not_found}
use dankmail.Gmail.Checkpoint.{
  GmailProvider, SyncCheckpoint, SyncResult, take_history, take_ids, finish_thread, take_delta,
  continuation,
}
use dankmail.Gmail.Sync.{
  Pass, returned, goes_on, starts_over, sync_pass, history_pass, next_page_pass, thread_pass,
  pending_pass, checkpoint,
}
use dankmail.Gmail.Sync.Falls.{Result-cases}
use dankmail.Gmail.Sync.Ending.{IsFlat, sync_pass-flat}

-- The ids that a result counts as seen: those of its checkpoint, or its snapshot.
unfoldable pub seen_after : SyncResult → List String
seen_after r = elim r.cursor [
  | continuation (some st) ↦ st.seen
  | _ ↦ r.changes.snapshot_thread_ids
]

-- The ids of the deltas are in the list.
unfoldable pub AreSeen : List String → List ThreadDelta → Type 0
AreSeen seen = All (λ d. contains d.thread_id seen ≡ true)

pub AreSeen-append :
    (seen : List String) (ds later : List ThreadDelta)
    → AreSeen seen ds
    → AreSeen seen later
    → AreSeen seen (ds ++ later)
unfolding AreSeen
AreSeen-append seen ds later h k = All-append (λ d. contains d.thread_id seen ≡ true) ds later h k

-- The list holds what another does.
abbrev pub Holds : List String → List String → Type 0
Holds bigger smaller = (id : String) → contains id smaller ≡ true → contains id bigger ≡ true

-- What a pass adds: nothing, or a delta and, in a full sync, its id.
abbrev Gains : Changes → SyncCheckpoint → Changes → SyncCheckpoint → Type 0
Gains changes st changes' st' =
    ((changes'.upserted ≡ changes.upserted) × (st'.seen ≡ st.seen))
    ⊎ ((d : ThreadDelta) × (changes'.upserted ≡ changes.upserted ++ (d ∷ []))
        × (st'.seen ≡ (if st.full then st.seen ++ (d.thread_id ∷ []) else st.seen)))

abbrev Same : Changes → SyncCheckpoint → Changes → SyncCheckpoint → Type 0
Same changes st changes' st' =
    (st'.full ≡ st.full)
    × (changes'.full_resync ≡ changes.full_resync)
    × ((st.phase == "history") ≡ false → (st'.phase == "history") ≡ false)

module _ (p : GmailProvider)
    (answers : (i : ℕ) (id : String) (t : GmailThread)
      → p.api.get_thread i id ≡ ok t
      → t.id ≡ id) where
  take_delta-Gains :
      (d : ThreadDelta) (id : String) (changes : Changes) (st : SyncCheckpoint)
      → d.thread_id ≡ id
      → Gains changes st (take_delta d id changes st).0 (take_delta d id changes st).1
        × Same changes st (take_delta d id changes st).0 (take_delta d id changes st).1
  unfolding take_delta
  take_delta-Gains d id changes st same = elim (Bool-cases (ltb 0 d.message_count)) [
    | inl e ↦ rw e (inr (d, refl, rw same refl), (refl, refl, λ h. h))
    | inr e ↦ rw e (inl (refl, refl), (refl, refl, λ h. h))
  ]

  -- What a pass that goes on adds.
  abbrev PassGains : Changes → SyncCheckpoint → Pass p → Type 0
  PassGains changes st (returned r) = Unit {0}
  PassGains changes st (goes_on requests affected changes' st') =
      Gains changes st changes' st' × Same changes st changes' st'
  PassGains changes st starts_over = Unit {0}

  PassGains-if :
      (b : Bool) (changes : Changes) (st : SyncCheckpoint) (x : Pass p) (r : SyncResult)
      → PassGains changes st x
      → PassGains changes st (if b then x else returned r)
  PassGains-if true changes st x r h = h
  PassGains-if false changes st x r h = tt

  thread_pass-Gains :
      (id : String) (rest : List String) (i requests : ℕ) (affected : List String)
      (changes : Changes) (st : SyncCheckpoint)
      → PassGains changes st (thread_pass p id rest i requests affected changes st)
  unfolding thread_pass finish_thread
  thread_pass-Gains id rest i requests affected changes st =
      elim (Bool-cases (contains id st.done)) [
        | inl e ↦ rw e (inl (refl, refl), (refl, refl, λ h. h))
        | inr e ↦ elim (Result-cases (p.api.get_thread i id)) [
          | inl (x, k) ↦ rw e (
              rw k (
                PassGains-if (is_not_found p.look x) changes st _ _
                  (inl (refl, refl), (refl, refl, λ h. h))))
          | inr (t, k) ↦ rw e (
              rw k (
                take_delta-Gains (thread_delta p.go p.decoders p.body_cap t) id changes
                  (finish_thread id rest st)
                  (thread_delta-thread_id p.go p.decoders p.body_cap t ∙ answers i id t k)))
        ]
      ]

  next_page_pass-Gains :
      (i requests : ℕ) (affected : List String) (changes : Changes) (st : SyncCheckpoint)
      {requests' : ℕ} {affected' : List String} {changes' : Changes} {st' : SyncCheckpoint}
      → next_page_pass p i requests affected changes st ≡ goes_on requests' affected' changes' st'
      → Gains changes st changes' st' × Same changes st changes' st'
  unfolding next_page_pass take_ids
  next_page_pass-Gains i requests affected changes st h = ground arith

  pub sync_pass-returned :
      (i requests : ℕ) (affected : List String) (changes : Changes) (st : SyncCheckpoint)
      {r : SyncResult}
      → sync_pass p i requests affected changes st ≡ returned r
      → (r.changes.upserted ≡ changes.upserted)
        × (seen_after r ≡ st.seen)
        × (r.changes.full_resync ≡ changes.full_resync)
  unfolding sync_pass history_pass pending_pass next_page_pass thread_pass checkpoint seen_after
  sync_pass-returned i requests affected changes st h = ground arith

  pending_pass-Gains :
      (list : List String) (i requests : ℕ) (affected : List String) (changes : Changes)
      (st : SyncCheckpoint) {requests' : ℕ} {affected' : List String} {changes' : Changes}
      {st' : SyncCheckpoint}
      → pending_pass p list i requests affected changes st
        ≡ goes_on requests' affected' changes' st'
      → Gains changes st changes' st' × Same changes st changes' st'
  unfolding pending_pass
  pending_pass-Gains [] i requests affected changes st h =
      next_page_pass-Gains i requests affected changes st h
  pending_pass-Gains (id ∷ rest) i requests affected changes st h =
      subst (PassGains changes st) h (thread_pass-Gains id rest i requests affected changes st)

  returned-goes_on :
      {r : SyncResult} {requests : ℕ} {affected : List String} {changes : Changes}
      {st : SyncCheckpoint} (x : Pass p)
      → x ≡ returned r
      → x ≢ goes_on requests affected changes st
  returned-goes_on x h k = ground arith

  sync_pass-Gains :
      (i requests : ℕ) (affected : List String) (changes : Changes) (st : SyncCheckpoint)
      {requests' : ℕ} {affected' : List String} {changes' : Changes} {st' : SyncCheckpoint}
      → IsFlat p st
      → sync_pass p i requests affected changes st ≡ goes_on requests' affected' changes' st'
      → Gains changes st changes' st' × Same changes st changes' st'
  sync_pass-Gains i requests affected changes st flat h =
      elim (sync_pass-flat p i requests affected changes st flat) [
        | inl (r, k) ↦ absurd (returned-goes_on (sync_pass p i requests affected changes st) k h)
        | inr k ↦ pending_pass-Gains st.pending i requests affected changes st (sym k ∙ h)
      ]

  -- What holds before each pass: the flag of the changes is the checkpoint's, and in a full sync the
  -- deltas so far are of threads that count as seen.
  pub record Inv (changes : Changes) (st : SyncCheckpoint) : Type 0 where
    pub agree : changes.full_resync ≡ st.full
    pub flat : st.full ≡ true → IsFlat p st
    pub covered : st.full ≡ true → AreSeen st.seen changes.upserted

  pub sync_pass-Same :
      (i requests : ℕ) (affected : List String) (changes : Changes) (st : SyncCheckpoint)
      {requests' : ℕ} {affected' : List String} {changes' : Changes} {st' : SyncCheckpoint}
      → sync_pass p i requests affected changes st ≡ goes_on requests' affected' changes' st'
      → (st'.full ≡ st.full) × (changes'.full_resync ≡ changes.full_resync)
  unfolding sync_pass history_pass pending_pass next_page_pass thread_pass take_history take_ids
      finish_thread take_delta
  sync_pass-Same i requests affected changes st h = ground arith

  pub AreSeen-Holds :
      (bigger smaller : List String) (ds : List ThreadDelta)
      → Holds bigger smaller
      → AreSeen smaller ds
      → AreSeen bigger ds
  unfolding AreSeen
  AreSeen-Holds bigger smaller ds more h =
      All-map (λ d. contains d.thread_id smaller ≡ true) (λ d. contains d.thread_id bigger ≡ true)
        ds (λ d k. more d.thread_id k) h

  Holds-append : (seen more : List String) → Holds (seen ++ more) seen
  Holds-append seen more id h = contains-append id seen more ∙ rw h refl

  Gains-Inv :
      (changes changes' : Changes) (st st' : SyncCheckpoint)
      → st.full ≡ true
      → AreSeen st.seen changes.upserted
      → Gains changes st changes' st'
      → AreSeen st'.seen changes'.upserted × Holds st'.seen st.seen
  unfolding AreSeen contains
  Gains-Inv changes changes' st st' full h (inl (same, seen)) = rw (same, seen) (h, λ id k. k)
  Gains-Inv changes changes' st st' full h (inr (d, grown, seen)) =
      rw (grown, seen, full)
        (
          All-append (λ x. contains x.thread_id (st.seen ++ (d.thread_id ∷ [])) ≡ true)
              changes.upserted (d ∷ [])
              (AreSeen-Holds (st.seen ++ (d.thread_id ∷ [])) st.seen changes.upserted
                (Holds-append st.seen (d.thread_id ∷ [])) h)
              (
                contains-append d.thread_id st.seen (d.thread_id ∷ [])
                    ∙ ground (arith, ==-self d.thread_id),
                tt,
              ),
          Holds-append st.seen (d.thread_id ∷ []),
        )

  -- A pass keeps the invariant.
  pub sync_pass-Inv :
      (i requests : ℕ) (affected : List String) (changes : Changes) (st : SyncCheckpoint)
      {requests' : ℕ} {affected' : List String} {changes' : Changes} {st' : SyncCheckpoint}
      → Inv changes st
      → sync_pass p i requests affected changes st ≡ goes_on requests' affected' changes' st'
      → Inv changes' st' × (st.full ≡ true → Holds st'.seen st.seen)
  sync_pass-Inv i requests affected changes st {requests'} {affected'} {changes'} {st'} inv h =
      let same = sync_pass-Same i requests affected changes st h in
      let gains : st.full ≡ true → Gains changes st changes' st' × Same changes st changes' st' =
        λ full. sync_pass-Gains i requests affected changes st (inv.flat full) h in
      (
        record {
          agree = same.1 ∙ inv.agree ∙ sym same.0;
          flat = λ full. (gains (sym same.0 ∙ full)).1.2 (inv.flat (sym same.0 ∙ full));
          covered = λ full.
              let was = sym same.0 ∙ full in
              (Gains-Inv changes changes' st st' was (inv.covered was) (gains was).0).0;
        },
        λ full. (Gains-Inv changes changes' st st' full (inv.covered full) (gains full).0).1,
      )
