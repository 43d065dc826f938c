-- ===== src/Gmail/Sync/Snapshot.antt =====
-- sync.go, one sync: the threads that it brings in a full pass count as seen.
use dankmail.Base.{
  ℕ, zero, suc, String, true, false, List, [], Option, none, some, ltb, ◌≡◌, ◌≢◌, ◌⊎◌, refl, sym,
  ap, ◌∙◌, inl, inr, arith, subst, Bool-cases, contains, ◌==◌, ==→≡, string_eq,
}
use dankmail.Errdefs.{ok}
use dankmail.Provider.{Changes}
use dankmail.Gmail.Message.{GmailThread}
use dankmail.Gmail.Checkpoint.{
  GmailProvider, SyncCheckpoint, Cursor, SyncResult, fresh_changes, distinct_keys, continuation,
  history_cursor, other_cursor,
}
use dankmail.Gmail.Sync.{
  Pass, returned, goes_on, starts_over, sync_pass, sync_loop, resume_sync, start_full_sync, sync,
  profile_failed, fresh_checkpoint, incremental_checkpoint, is_usable,
}
use dankmail.Gmail.Sync.Falls.{Result-cases, Pass-cases, pending_pass-stays}
use dankmail.Gmail.Sync.Ending.{IsFlat, sync_pass-flat}
use dankmail.Gmail.Sync.Seen.{
  seen_after, AreSeen, Holds, Inv, sync_pass-Inv, sync_pass-Same, sync_pass-returned,
}

-- What a full sync returns: the threads that it brings count as seen.
unfoldable pub Covers : SyncResult → Type 0
Covers r = r.changes.full_resync ≡ true → AreSeen (seen_after r) r.changes.upserted

module _ (p : GmailProvider) where
  sync_loop-returned :
      (fuel i requests : ℕ) (affected : List String) (changes : Changes) (st : SyncCheckpoint)
      {r : SyncResult}
      → sync_pass p i requests affected changes st ≡ returned r
      → sync_loop p (suc fuel) i requests affected changes st ≡ some r
  unfolding sync_loop
  sync_loop-returned fuel i requests affected changes st h = rw (h, sync_loop) refl

  sync_loop-goes_on :
      (fuel i requests : ℕ) (affected : List String) (changes : Changes) (st : SyncCheckpoint)
      {requests' : ℕ} {affected' : List String} {changes' : Changes} {st' : SyncCheckpoint}
      → sync_pass p i requests affected changes st ≡ goes_on requests' affected' changes' st'
      → sync_loop p (suc fuel) i requests affected changes st
        ≡ sync_loop p fuel (suc i) requests' affected' changes' st'
  unfolding sync_loop
  sync_loop-goes_on fuel i requests affected changes st h = rw (h, sync_loop) refl

  sync_loop-starts_over :
      (fuel i requests : ℕ) (affected : List String) (changes : Changes) (st : SyncCheckpoint)
      {r : SyncResult}
      → sync_pass p i requests affected changes st ≡ starts_over
      → sync_loop p (suc fuel) i requests affected changes st ≡ some r
      → ((r.changes.full_resync ≡ false) × (r.changes.upserted ≡ []))
        ⊎ ((history : ℕ) × (sync_loop p fuel
                (suc i)
                0
                []
                (fresh_changes true)
                (fresh_checkpoint p history)
              ≡ some r))
  unfolding sync_loop profile_failed
  sync_loop-starts_over fuel i requests affected changes st h k =
      elim (Result-cases (p.api.get_profile i)) [
        | inl (e, q) ↦
            let ended : sync_loop p (suc fuel) i requests affected changes st
                ≡ some (profile_failed p e) =
              rw (h, sync_loop) (rw (q) refl) in
            inl (ground (arith, ended, k))
        | inr (history, q) ↦
            let again : sync_loop p (suc fuel) i requests affected changes st
                ≡ sync_loop p fuel (suc i) 0 [] (fresh_changes true) (fresh_checkpoint p history) =
              rw (h, sync_loop) (rw (q) refl) in
            inr (history, sym again ∙ k)
      ]

some-agree {ℓ} : {A : Type ℓ} {x : Option A} {a b : A} → x ≡ some a → x ≡ some b → a ≡ b
some-agree h k = ground arith

returned-starts_over :
    {p : GmailProvider} {r : SyncResult} (x : Pass p) → x ≡ returned r → x ≢ starts_over
returned-starts_over x h k = ground arith

module _ (p : GmailProvider)
    (answers : (i : ℕ) (id : String) (t : GmailThread)
      → p.api.get_thread i id ≡ ok t
      → t.id ≡ id) where
  abbrev IsSound : SyncCheckpoint → SyncResult → Type 0
  IsSound st r = Covers r × (st.full ≡ true → Holds (seen_after r) st.seen)

  fresh-Inv : (history : ℕ) → Inv p answers (fresh_changes true) (fresh_checkpoint p history)
  unfolding AreSeen
  fresh-Inv history = record { agree = refl; flat = λ h. refl; covered = λ h. tt }

  Covers-partial :
      (r : SyncResult) → (r.changes.full_resync ≡ false) × (r.changes.upserted ≡ []) → Covers r
  unfolding Covers AreSeen
  Covers-partial r h k = rw (h.1) tt

  -- A pass that returns.
  returned-IsSound :
      (i requests : ℕ) (affected : List String) (changes : Changes) (st : SyncCheckpoint)
      {r : SyncResult}
      → Inv p answers changes st
      → sync_pass p i requests affected changes st ≡ returned r
      → IsSound st r
  unfolding Covers
  returned-IsSound i requests affected changes st {r} inv h =
      let ends = sync_pass-returned p answers i requests affected changes st h in
      (
        λ full. subst (AreSeen (seen_after r)) (sym ends.0) (
            subst (λ ids. AreSeen ids changes.upserted) (sym ends.1)
              (inv.covered (sym inv.agree ∙ (sym ends.2 ∙ full)))),
        λ full id k. ap (contains id) ends.1 ∙ k,
      )

  -- A full sync does not start over.
  full_stays :
      (i requests : ℕ) (affected : List String) (changes : Changes) (st : SyncCheckpoint)
      → IsFlat p st
      → sync_pass p i requests affected changes st ≢ starts_over
  full_stays i requests affected changes st flat k =
      elim (sync_pass-flat p i requests affected changes st flat) [
        | inl (r, h) ↦ returned-starts_over (sync_pass p i requests affected changes st) h k
        | inr h ↦ pending_pass-stays p i requests affected changes st st.pending (sym h ∙ k)
      ]

  sync_loop-IsSound :
      (fuel i requests : ℕ) (affected : List String) (changes : Changes) (st : SyncCheckpoint)
      {r : SyncResult}
      → Inv p answers changes st
      → sync_loop p fuel i requests affected changes st ≡ some r
      → IsSound st r
  unfolding sync_loop
  sync_loop-IsSound zero i requests affected changes st inv h = absurd (ground (arith, h))
  sync_loop-IsSound (suc fuel) i requests affected changes st {r} inv h =
      elim (Pass-cases p (sync_pass p i requests affected changes st)) [
        | inl (r', k) ↦
            subst (IsSound st)
              (some-agree (sync_loop-returned p fuel i requests affected changes st k) h)
              (returned-IsSound i requests affected changes st inv k)
        | inr (inl (requests', affected', changes', st', k)) ↦
            let (kept, more) = sync_pass-Inv p answers i requests affected changes st inv k in
            let later : IsSound st' r =
              sync_loop-IsSound fuel (suc i) requests' affected' changes' st' kept
                (sym (sync_loop-goes_on p fuel i requests affected changes st k) ∙ h) in
            (
              later.0,
              λ full id seen.
                  later.1 ((sync_pass-Same p answers i requests affected changes st k).0 ∙ full) id
                    (more full id seen),
            )
        | inr (inr k) ↦ elim (sync_loop-starts_over p fuel i requests affected changes st k h) [
          | inl none_back ↦ (
            Covers-partial r none_back,
            λ full. absurd (full_stays i requests affected changes st (inv.flat full) k),
          )
          | inr (history, again) ↦ (
            (sync_loop-IsSound fuel (suc i) 0 [] (fresh_changes true) (fresh_checkpoint p history)
                (fresh-Inv history) again).0,
            λ full. absurd (full_stays i requests affected changes st (inv.flat full) k),
          )
        ]
      ]

  resume_sync-IsSound :
      (fuel i : ℕ) (st : SyncCheckpoint) {r : SyncResult}
      → (st.full ≡ true → IsFlat p st)
      → resume_sync p fuel i st ≡ some r
      → IsSound st r
  unfolding resume_sync AreSeen
  resume_sync-IsSound fuel i st flat h =
      sync_loop-IsSound fuel i 0 (distinct_keys [] st.pending) (fresh_changes st.full) st
        (record { agree = refl; flat = flat; covered = λ full. tt }) h

  start_full_sync-Covers :
      (fuel i : ℕ) {r : SyncResult} → start_full_sync p fuel i ≡ some r → Covers r
  unfolding start_full_sync profile_failed
  start_full_sync-Covers fuel i {r} h = elim (Result-cases (p.api.get_profile i)) [
    | inl (e, k) ↦
        let ended : start_full_sync p fuel i ≡ some (profile_failed p e) =
          rw (k, start_full_sync) refl in
        Covers-partial r (ground (arith, ended, h))
    | inr (history, k) ↦
        let goes : start_full_sync p fuel i
            ≡ resume_sync p fuel (suc i) (fresh_checkpoint p history) =
          rw (k, start_full_sync) refl in
        (resume_sync-IsSound fuel (suc i) (fresh_checkpoint p history) (λ full. refl)
          (sym goes ∙ h)).0
  ]

  is_usable-IsFlat : (st : SyncCheckpoint) → is_usable p st ≡ true → st.full ≡ true → IsFlat p st
  unfolding is_usable
  is_usable-IsFlat st h full =
      let named : (st.phase == "full") ≡ true = ground (arith, h, full) in
      ap (λ s. s == "history") (==→≡ st.phase "full" named)

  pub sync-Covers :
      (fuel : ℕ) (cursor : Cursor) {r : SyncResult} → sync p fuel cursor ≡ some r → Covers r
  unfolding sync
  sync-Covers fuel (continuation (some st)) {r} h = elim (Bool-cases (is_usable p st)) [
    | inl e ↦
        let goes : sync p fuel (continuation (some st)) ≡ resume_sync p fuel 0 st =
          rw (e, sync) refl in
        (resume_sync-IsSound fuel 0 st (is_usable-IsFlat st e) (sym goes ∙ h)).0
    | inr e ↦
        let starts : sync p fuel (continuation (some st)) ≡ start_full_sync p fuel 0 =
          rw (e, sync) refl in
        start_full_sync-Covers fuel 0 (sym starts ∙ h)
  ]
  sync-Covers fuel (continuation none) h = start_full_sync-Covers fuel 0 h
  sync-Covers fuel (history_cursor (some start)) {r} h = elim (Bool-cases (ltb 0 start)) [
    | inl e ↦
        let goes : sync p fuel (history_cursor (some start))
            ≡ resume_sync p fuel 0 (incremental_checkpoint p start) =
          rw (e, sync) refl in
        (resume_sync-IsSound fuel 0 (incremental_checkpoint p start)
          (λ full. absurd (ground (arith, full))) (sym goes ∙ h)).0
    | inr e ↦
        let starts : sync p fuel (history_cursor (some start)) ≡ start_full_sync p fuel 0 =
          rw (e, sync) refl in
        start_full_sync-Covers fuel 0 (sym starts ∙ h)
  ]
  sync-Covers fuel (history_cursor none) h = start_full_sync-Covers fuel 0 h
  sync-Covers fuel (other_cursor text) h = start_full_sync-Covers fuel 0 h

  pub sync-Holds :
      (fuel : ℕ) (st : SyncCheckpoint) {r : SyncResult}
      → is_usable p st ≡ true
      → st.full ≡ true
      → sync p fuel (continuation (some st)) ≡ some r
      → Holds (seen_after r) st.seen
  unfolding sync
  sync-Holds fuel st usable full h =
      let goes : sync p fuel (continuation (some st)) ≡ resume_sync p fuel 0 st =
        rw (usable, sync) refl in
      (resume_sync-IsSound fuel 0 st (is_usable-IsFlat st usable) (sym goes ∙ h)).1 full
