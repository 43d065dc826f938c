-- ===== src/Gmail/Sync/Falls.antt =====
-- sync.go, a pass makes a request or shortens the list of threads.
use dankmail.Base.{
  ℕ, suc, ◌<◌, String, List, [], ◌∷◌, string_eq, ◌≡◌, ◌≢◌, ◌⊎◌, refl, inl, inr, arith, length,
}
use dankmail.Errdefs.{Result, err, ok, Error}
use dankmail.Provider.{Changes}
use dankmail.Gmail.Checkpoint.{
  GmailProvider, SyncCheckpoint, SyncResult, take_ids, finish_thread, take_delta,
}
use dankmail.Gmail.Sync.{
  Pass, returned, goes_on, starts_over, history_pass, next_page_pass, thread_pass, pending_pass,
}

-- Either a request was made, one of the batch, or the list of threads is shorter.
abbrev pub Falls : ℕ → SyncCheckpoint → ℕ → SyncCheckpoint → Type 0
Falls requests st requests' st' =
    ((requests' ≡ suc requests) × (st'.phase ≡ st.phase))
    ⊎ ((requests' ≡ requests) × (length st'.pending < length st.pending) × (st'.phase ≡ st.phase))

pub Result-cases {ℓ} :
    {S : Type ℓ} (r : Result S) → ((e : Error) × (r ≡ err e)) ⊎ ((s : S) × (r ≡ ok s))
Result-cases (err e) = inl (e, refl)
Result-cases (ok s) = inr (s, refl)

module _ (p : GmailProvider) where
  pub history_pass-asks :
      (i requests : ℕ) (affected : List String) (changes : Changes) (st : SyncCheckpoint)
      {requests' : ℕ} {affected' : List String} {changes' : Changes} {st' : SyncCheckpoint}
      → history_pass p i requests affected changes st ≡ goes_on requests' affected' changes' st'
      → requests' ≡ suc requests
  unfolding history_pass
  history_pass-asks i requests affected changes st h = ground arith

  next_page_pass-falls :
      (i requests : ℕ) (affected : List String) (changes : Changes) (st : SyncCheckpoint)
      {requests' : ℕ} {affected' : List String} {changes' : Changes} {st' : SyncCheckpoint}
      → next_page_pass p i requests affected changes st ≡ goes_on requests' affected' changes' st'
      → (requests' ≡ suc requests) × (st'.phase ≡ st.phase)
  unfolding next_page_pass take_ids
  next_page_pass-falls i requests affected changes st h = ground arith

  thread_pass-Falls :
      (id : String) (rest : List String) (i requests : ℕ) (affected : List String)
      (changes : Changes) (st : SyncCheckpoint) {requests' : ℕ} {affected' : List String}
      {changes' : Changes} {st' : SyncCheckpoint}
      → st.pending ≡ id ∷ rest
      → thread_pass p id rest i requests affected changes st
        ≡ goes_on requests' affected' changes' st'
      → Falls requests st requests' st'
  unfolding thread_pass finish_thread take_delta
  thread_pass-Falls id rest i requests affected changes st q h = ground arith

  pub pending_pass-Falls :
      (i requests : ℕ) (affected : List String) (changes : Changes) (st : SyncCheckpoint)
      (list : List String) {requests' : ℕ} {affected' : List String} {changes' : Changes}
      {st' : SyncCheckpoint}
      → st.pending ≡ list
      → pending_pass p list i requests affected changes st
        ≡ goes_on requests' affected' changes' st'
      → Falls requests st requests' st'
  unfolding pending_pass
  pending_pass-Falls i requests affected changes st [] q h =
      inl (next_page_pass-falls i requests affected changes st h)
  pending_pass-Falls i requests affected changes st (id ∷ rest) q h =
      thread_pass-Falls id rest i requests affected changes st q h

  pub pending_pass-stays :
      (i requests : ℕ) (affected : List String) (changes : Changes) (st : SyncCheckpoint)
      (list : List String)
      → pending_pass p list i requests affected changes st ≢ starts_over
  unfolding pending_pass next_page_pass thread_pass
  pending_pass-stays i requests affected changes st [] h = ground arith
  pending_pass-stays i requests affected changes st (id ∷ rest) h = ground arith

  pub Pass-cases :
      (x : Pass p)
      → ((r : SyncResult) × (x ≡ returned r))
        ⊎ (((requests : ℕ) × (affected : List String) × (changes : Changes) × (st : SyncCheckpoint)
              × (x ≡ goes_on requests affected changes st))
            ⊎ (x ≡ starts_over))
  Pass-cases (returned r) = inl (r, refl)
  Pass-cases (goes_on requests affected changes st) =
      inr (inl (requests, affected, changes, st, refl))
  Pass-cases starts_over = inr (inr refl)
