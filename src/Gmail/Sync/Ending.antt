-- ===== src/Gmail/Sync/Ending.antt =====
-- sync.go, the loop of a sync ends.
use dankmail.Base.{
  ℕ, zero, suc, ◌+◌, ◌≤◌, ◌<◌, String, true, false, List, [], none, some, leb, ltb, ◌==◌, string_eq,
  ◌≡◌, ◌⊎◌, refl, sym, ap, ◌∙◌, inl, inr, arith, length, subst, le→leb, Bool-cases, Option-cases,
}
use dankmail.Provider.{Changes}
use dankmail.Gmail.Checkpoint.{
  GmailProvider, SyncCheckpoint, Cursor, SyncResult, sync_batch_requests, fresh_changes,
  distinct_keys, continuation, history_cursor, other_cursor,
}
use dankmail.Gmail.Sync.{
  returned, goes_on, starts_over, sync_pass, history_pass, pending_pass, sync_loop, resume_sync,
  start_full_sync, sync, fresh_checkpoint, checkpoint, profile_failed, incremental_checkpoint,
  is_usable,
}
use dankmail.Gmail.Sync.Falls.{
  history_pass-asks, pending_pass-Falls, pending_pass-stays, Pass-cases, Result-cases,
}

module _ (p : GmailProvider) where
  abbrev Ends : ℕ → ℕ → List String → Changes → SyncCheckpoint → Type 0
  Ends i requests affected changes st =
      (fuel : ℕ) × (r : SyncResult) × (sync_loop p fuel i requests affected changes st ≡ some r)

  -- A batch is full.
  sync_pass-full :
      (i requests : ℕ) (affected : List String) (changes : Changes) (st : SyncCheckpoint)
      → sync_batch_requests ≤ requests
      → (r : SyncResult) × (sync_pass p i requests affected changes st ≡ returned r)
  unfolding sync_pass
  sync_pass-full i requests affected changes st full = elim (Option-cases (p.api.context_err i)) [
    | inr (e, c) ↦ (checkpoint p changes st (some e), rw (c, sync_pass) refl)
    | inl c ↦ (
      checkpoint p changes st none,
      rw (c, sync_pass) (rw (le→leb sync_batch_requests requests full) refl),
    )
  ]

  abbrev pub IsFlat : SyncCheckpoint → Type 0
  IsFlat st = (st.phase == "history") ≡ false

  pub sync_pass-flat :
      (i requests : ℕ) (affected : List String) (changes : Changes) (st : SyncCheckpoint)
      → IsFlat st
      → ((r : SyncResult) × (sync_pass p i requests affected changes st ≡ returned r))
        ⊎ (sync_pass p i requests affected changes st
            ≡ pending_pass p st.pending i requests affected changes st)
  unfolding sync_pass
  sync_pass-flat i requests affected changes st flat = elim (Option-cases (p.api.context_err i)) [
    | inr (e, c) ↦ inl (checkpoint p changes st (some e), rw (c, sync_pass) refl)
    | inl c ↦ elim (Bool-cases (leb sync_batch_requests requests)) [
      | inl b ↦ inl (checkpoint p changes st none, rw (c, sync_pass) (rw b refl))
      | inr b ↦ inr (rw (c, sync_pass) (rw (b, flat) refl))
    ]
  ]

  sync_pass-history :
      (i requests : ℕ) (affected : List String) (changes : Changes) (st : SyncCheckpoint)
      → (st.phase == "history") ≡ true
      → ((r : SyncResult) × (sync_pass p i requests affected changes st ≡ returned r))
        ⊎ (sync_pass p i requests affected changes st
            ≡ history_pass p i requests affected changes st)
  unfolding sync_pass
  sync_pass-history i requests affected changes st at = elim (Option-cases (p.api.context_err i)) [
    | inr (e, c) ↦ inl (checkpoint p changes st (some e), rw (c, sync_pass) refl)
    | inl c ↦ elim (Bool-cases (leb sync_batch_requests requests)) [
      | inl b ↦ inl (checkpoint p changes st none, rw (c, sync_pass) (rw b refl))
      | inr b ↦ inr (rw (c, sync_pass) (rw (b, at) refl))
    ]
  ]

  -- One pass, given that what follows it ends.
  sync_loop-returned :
      (i requests : ℕ) (affected : List String) (changes : Changes) (st : SyncCheckpoint)
      {r : SyncResult}
      → sync_pass p i requests affected changes st ≡ returned r
      → Ends i requests affected changes st
  unfolding sync_loop
  sync_loop-returned i requests affected changes st {r} h = (1, r, rw (h, sync_loop) refl)

  sync_loop-goes_on :
      (i requests : ℕ) (affected : List String) (changes : Changes) (st : SyncCheckpoint)
      {requests' : ℕ} {affected' : List String} {changes' : Changes} {st' : SyncCheckpoint}
      → sync_pass p i requests affected changes st ≡ goes_on requests' affected' changes' st'
      → Ends (suc i) requests' affected' changes' st'
      → Ends i requests affected changes st
  unfolding sync_loop
  sync_loop-goes_on i requests affected changes st h (fuel, r, later) =
      (suc fuel, r, rw (h, sync_loop) later)

  -- The passes between two requests.
  skips-Ends :
      (requests : ℕ)
      → ((i : ℕ) (affected : List String) (changes : Changes) (st : SyncCheckpoint)
          → IsFlat st
          → Ends i (suc requests) affected changes st)
      → (n i : ℕ) (affected : List String) (changes : Changes) (st : SyncCheckpoint)
      → length st.pending < n
      → IsFlat st
      → Ends i requests affected changes st
  skips-Ends requests more zero i affected changes st few flat = absurd (omega (arith, few))
  skips-Ends requests more (suc n) i affected changes st few flat =
      elim (sync_pass-flat i requests affected changes st flat) [
        | inl (r, h) ↦ sync_loop-returned i requests affected changes st h
        | inr h ↦ elim (Pass-cases p (pending_pass p st.pending i requests affected changes st)) [
          | inl (r, k) ↦ sync_loop-returned i requests affected changes st (h ∙ k)
          | inr (inr k) ↦ absurd (pending_pass-stays p i requests affected changes st st.pending k)
          | inr (inl (requests', affected', changes', st', k)) ↦
              sync_loop-goes_on i requests affected changes st (h ∙ k)
                (elim (pending_pass-Falls p i requests affected changes st st.pending refl k) [
                  | inl (one, same) ↦
                      subst (λ m. Ends (suc i) m affected' changes' st') (sym one)
                        (more (suc i) affected' changes' st' (ap (λ s. s == "history") same ∙ flat))
                  | inr (one, less, same) ↦
                      subst (λ m. Ends (suc i) m affected' changes' st') (sym one)
                        (skips-Ends requests more n (suc i) affected' changes' st'
                          (omega (arith, less, few)) (ap (λ s. s == "history") same ∙ flat))
                ])
        ]
      ]

  flat-Ends :
      (k requests i : ℕ) (affected : List String) (changes : Changes) (st : SyncCheckpoint)
      → sync_batch_requests ≤ requests + k
      → IsFlat st
      → Ends i requests affected changes st
  flat-Ends zero requests i affected changes st full flat =
      sync_loop-returned i requests affected changes st
        (sync_pass-full i requests affected changes st (omega (arith, full))).1
  flat-Ends (suc k) requests i affected changes st enough flat =
      skips-Ends requests
        (λ i affected changes st.
          flat-Ends k (suc requests) i affected changes st (omega (arith, enough)))
        (suc (length st.pending)) i affected changes st (omega arith) flat

  sync_loop-starts_over :
      (i requests : ℕ) (affected : List String) (changes : Changes) (st : SyncCheckpoint)
      → sync_pass p i requests affected changes st ≡ starts_over
      → Ends i requests affected changes st
  unfolding sync_loop
  sync_loop-starts_over i requests affected changes st h =
      elim (Result-cases (p.api.get_profile i)) [
        | inl (e, k) ↦ (1, profile_failed p e, rw (h, sync_loop) (rw (k) refl))
        | inr (history, k) ↦
            let (fuel, r, later) =
              flat-Ends sync_batch_requests 0 (suc i) [] (fresh_changes true)
                (fresh_checkpoint p history) (omega arith) refl in
            (suc fuel, r, rw (h, sync_loop) (rw (k) later))
      ]

  loop-Ends :
      (k requests i : ℕ) (affected : List String) (changes : Changes) (st : SyncCheckpoint)
      → sync_batch_requests ≤ requests + k
      → Ends i requests affected changes st
  loop-Ends zero requests i affected changes st full =
      sync_loop-returned i requests affected changes st
        (sync_pass-full i requests affected changes st (omega (arith, full))).1
  loop-Ends (suc k) requests i affected changes st enough =
      elim (Bool-cases (st.phase == "history")) [
        | inr flat ↦ flat-Ends (suc k) requests i affected changes st enough flat
        | inl at ↦ elim (sync_pass-history i requests affected changes st at) [
          | inl (r, h) ↦ sync_loop-returned i requests affected changes st h
          | inr h ↦ elim (Pass-cases p (history_pass p i requests affected changes st)) [
            | inl (r, q) ↦ sync_loop-returned i requests affected changes st (h ∙ q)
            | inr (inr q) ↦ sync_loop-starts_over i requests affected changes st (h ∙ q)
            | inr (inl (requests', affected', changes', st', q)) ↦
                sync_loop-goes_on i requests affected changes st (h ∙ q) (
                  loop-Ends k requests' (suc i) affected' changes' st'
                    (omega (arith, enough, history_pass-asks p i requests affected changes st q)))
          ]
        ]
      ]

  resume_sync-Ends :
      (i : ℕ) (st : SyncCheckpoint)
      → (fuel : ℕ) × (r : SyncResult) × (resume_sync p fuel i st ≡ some r)
  unfolding resume_sync
  resume_sync-Ends i st =
      loop-Ends sync_batch_requests 0 i (distinct_keys [] st.pending) (fresh_changes st.full) st
        (omega arith)

  start_full_sync-Ends :
      (i : ℕ) → (fuel : ℕ) × (r : SyncResult) × (start_full_sync p fuel i ≡ some r)
  unfolding start_full_sync
  start_full_sync-Ends i = elim (Result-cases (p.api.get_profile i)) [
    | inl (e, k) ↦ (0, profile_failed p e, rw (k, start_full_sync) refl)
    | inr (history, k) ↦
        let (fuel, r, h) = resume_sync-Ends (suc i) (fresh_checkpoint p history) in
        (fuel, r, rw (k, start_full_sync) h)
  ]

  -- A Gmail sync ends from every cursor, whatever the API answers from pass to pass: there is fuel with
  -- which it returns a result.
  pub sync-total : (cursor : Cursor) → (fuel : ℕ) × (r : SyncResult) × (sync p fuel cursor ≡ some r)
  unfolding sync
  sync-total (continuation (some st)) = elim (Bool-cases (is_usable p st)) [
    | inl e ↦ let (fuel, r, h) = resume_sync-Ends 0 st in (fuel, r, rw (e, sync) h)
    | inr e ↦ let (fuel, r, h) = start_full_sync-Ends 0 in (fuel, r, rw (e, sync) h)
  ]
  sync-total (continuation none) = start_full_sync-Ends 0
  sync-total (history_cursor (some start)) = elim (Bool-cases (ltb 0 start)) [
    | inl e ↦
        let (fuel, r, h) = resume_sync-Ends 0 (incremental_checkpoint p start) in
        (fuel, r, rw (e, sync) h)
    | inr e ↦ let (fuel, r, h) = start_full_sync-Ends 0 in (fuel, r, rw (e, sync) h)
  ]
  sync-total (history_cursor none) = start_full_sync-Ends 0
  sync-total (other_cursor text) = start_full_sync-Ends 0
