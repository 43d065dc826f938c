-- ===== src/Sync/Engine/Resume.antt =====
-- engine.go, a sync that is cut off between two pages, and the next sync.
use dankmail.Base.{
  ℕ, suc, zero, ◌+◌, String, true, false, none, some, ◌==◌, if◌then◌else◌, ◌≡◌, ◌⊎◌, refl, sym, ap,
  ◌∙◌, inl, inr, arith, nat_eq, string_eq, subst,
}
use dankmail.Errdefs.{Error, Failure}
use dankmail.Schema.{Account, active}
use dankmail.Sync.Types.{AccountId}
use dankmail.Sync.World.{World}
use dankmail.Sync.Executor.{find_account}
use dankmail.Sync.Reconciler.{apply}
use dankmail.Sync.Reconciler.Accounts.{apply-find_account, synced}
use dankmail.Sync.Engine.{
  Page, Syncer, Step, stop, go_on, next_page, store_page, take_page, sync_pages, sync_account,
  sync_found, sync_status, sync_active,
}

-- The account is active and its stored cursor is this one.
pub record Ready (account : AccountId) (cursor : String) (w : World) : Type 0 where
  pub row : Account
  pub found : find_account account w.accounts ≡ some row
  pub is_active : row.status ≡ active
  pub at : row.sync_cursor ≡ cursor

next_page-go_on :
    (p : Page) (cursor : String) {next : String}
    → next_page p cursor ≡ go_on next
    → (next ≡ p.cursor) × (p.changes.incomplete ≡ true)
unfolding next_page
next_page-go_on p cursor h = ground arith

pub take_page-go_on :
    (account : AccountId) (now : ℕ) (p : Page) (cursor : String) (w : World) {w₁ : World}
    {next : String}
    → take_page account now p cursor w ≡ (w₁, go_on next)
    → (w₁ ≡ apply account p.changes (some p.cursor) now w)
      × (next ≡ p.cursor)
      × (p.changes.incomplete ≡ true)
unfolding take_page store_page next_page
take_page-go_on account now p cursor w h = ground arith

-- The context is cancelled after page `k`.
abbrev pub cut : ℕ → Error → ℕ → Failure
cut k e j = if j == k then some e else none

pub Step-cases : (s : Step) → ((e : Failure) × (s ≡ stop e)) ⊎ ((next : String) × (s ≡ go_on next))
Step-cases (stop e) = inl (e, refl)
Step-cases (go_on next) = inr (next, refl)

module _ (sync : Syncer) (account : AccountId) (now : ℕ) where
  -- A checkpoint is stored with its changes.
  take_page-Ready :
      (cursor : String) (w : World) {w₁ : World} {next : String}
      → take_page account now (sync cursor) cursor w ≡ (w₁, go_on next)
      → Ready account cursor w
      → Ready account next w₁
  take_page-Ready cursor w {w₁} {next} h r =
      let p = sync cursor in
      let (stored, at, more) = take_page-go_on account now p cursor w h in
      let found = apply-find_account account p.changes p.cursor now w r.found in
      subst (Ready account next) (sym stored) (
        subst (λ c. Ready account c (apply account p.changes (some p.cursor) now w)) (sym at)
          (record {
            row = synced p.cursor true now r.row;
            found = found ∙ ap (λ b. some (synced p.cursor b now r.row)) more;
            is_active = r.is_active;
            at = refl;
          }))

  -- The loop went over so many pages, each a checkpoint.
  pub data Reaches : ℕ → String → World → String → World → Type 0 where
    start : (cursor : String) (w : World) → Reaches 0 cursor w cursor w
    page :
        (n : ℕ) (cursor next cursor' : String) (w w₁ w' : World)
        → take_page account now (sync cursor) cursor w ≡ (w₁, go_on next)
        → Reaches n next w₁ cursor' w'
        → Reaches (suc n) cursor w cursor' w'

  Reaches-Ready :
      (n : ℕ) (cursor cursor' : String) (w w' : World)
      → Reaches n cursor w cursor' w'
      → Ready account cursor w
      → Ready account cursor' w'
  Reaches-Ready _ _ _ _ _ (start cursor w) r = r
  Reaches-Ready _ _ _ _ _ (page n cursor next cursor' w w₁ w' h rest) r =
      Reaches-Ready n next cursor' w₁ w' rest (take_page-Ready cursor w h r)

  -- A page that goes on, in a context that is cancelled after it or not.
  module _ (cursor next : String) (w w₁ : World)
      (h : take_page account now (sync cursor) cursor w ≡ (w₁, go_on next))
      (cancelled : ℕ → Failure) (fuel i : ℕ) where
    pub sync_pages-page :
        cancelled i ≡ none
        → sync_pages sync account now cancelled (suc fuel) i cursor w
          ≡ sync_pages sync account now cancelled fuel (suc i) next w₁
    unfolding sync_pages
    sync_pages-page c =
        rw (ap (λ r. r.1) h, sync_pages)
          (rw c (ap (sync_pages sync account now cancelled fuel (suc i) next) (ap (λ r. r.0) h)))

    pub sync_pages-last :
        {e : Error}
        → cancelled i ≡ some e
        → sync_pages sync account now cancelled (suc fuel) i cursor w ≡ some (w₁, some e)
    unfolding sync_pages
    sync_pages-last {e} c =
        rw (ap (λ r. r.1) h, sync_pages) (rw c (ap (λ x. some (x, some e)) (ap (λ r. r.0) h)))

  -- A loop that is not cancelled does not use its counter.
  sync_pages-counter :
      (fuel i j : ℕ) (cursor : String) (w : World)
      → sync_pages sync account now (λ j. none) fuel i cursor w
        ≡ sync_pages sync account now (λ j. none) fuel j cursor w
  unfolding sync_pages
  sync_pages-counter zero i j cursor w = refl
  sync_pages-counter (suc fuel) i j cursor w =
      let p = take_page account now (sync cursor) cursor w in
      elim (Step-cases p.1) [
        | inl (e, h) ↦ rw (h, sync_pages)
        | inr (next, h) ↦ rw (h, sync_pages) (sync_pages-counter fuel (suc i) (suc j) next p.0)
      ]

  -- The pages that are left do not depend on how many went before.
  sync_pages-Reaches :
      (n : ℕ) (cursor cursor' : String) (w w' : World)
      → Reaches n cursor w cursor' w'
      → (fuel i j : ℕ)
      → sync_pages sync account now (λ j. none) (n + fuel) i cursor w
        ≡ sync_pages sync account now (λ j. none) fuel j cursor' w'
  unfolding sync_pages
  sync_pages-Reaches _ _ _ _ _ (start cursor w) fuel i j =
      let nothing : zero + fuel ≡ fuel = ground arith in
      rw nothing (sync_pages-counter fuel i j cursor w)
  sync_pages-Reaches _ _ _ _ _ (page n cursor next cursor' w w₁ w' h rest) fuel i j =
      let one_more : suc n + fuel ≡ suc (n + fuel) = ground arith in
      rw one_more (
        sync_pages-page cursor next w w₁ h (λ k. none) (n + fuel) i refl
        ∙ sync_pages-Reaches n next cursor' w₁ w' rest fuel (suc i) j)

  sync_pages-cut :
      (n : ℕ) (cursor cursor' : String) (w w' : World)
      → Reaches (suc n) cursor w cursor' w'
      → (e : Error) (i : ℕ)
      → sync_pages sync account now (cut (i + n) e) (suc n) i cursor w ≡ some (w', some e)
  unfolding sync_pages
  sync_pages-cut _ _ _ _ _ (page zero cursor next cursor' w w₁ w' h (start _ _)) e i =
      let here : (i == i + zero) ≡ true = ground arith in
      sync_pages-last cursor next w w₁ h (cut (i + zero) e) zero i (rw here)
  sync_pages-cut _ _ _ _ _ (page (suc n) cursor next cursor' w w₁ w' h rest) e i =
      let apart : (i == i + suc n) ≡ false = ground arith in
      let index : i + suc n ≡ suc i + n = ground arith in
      sync_pages-page cursor next w w₁ h (cut (i + suc n) e) (suc n) i (rw apart)
      ∙ rw index (sync_pages-cut n next cursor' w₁ w' rest e (suc i))

  sync_account-Ready :
      (cursor : String) (w : World)
      → Ready account cursor w
      → (cancelled : ℕ → Failure) (fuel : ℕ)
      → sync_account (some sync) account now false none cancelled fuel w
        ≡ sync_pages sync account now cancelled fuel 0 cursor w
  unfolding sync_account sync_found sync_status sync_active
  sync_account-Ready cursor w r cancelled fuel =
      rw (r.found)
        (rw (r.is_active) (ap (λ c. sync_pages sync account now cancelled fuel 0 c w) r.at))

-- Let the account be active, and let the first `n + 1` pages from its stored cursor be checkpoints. If
-- an incremental sync is cancelled after them, it ends with the context's error and leaves an active
-- account whose stored cursor is that of the last page; and the next incremental sync does from there
-- exactly what the first would have done without the interruption, at one reading of the clock and
-- with the fuel that is left.
pub sync_account-resume :
    (sync : Syncer) (account : AccountId) (now n : ℕ) (cursor cursor' : String) (w w' : World)
    → Ready account cursor w
    → Reaches sync account now (suc n) cursor w cursor' w'
    → (e : Error) (fuel : ℕ)
    → (sync_account (some sync) account now false none (cut n e) (suc n) w ≡ some (w', some e))
      × Ready account cursor' w'
      × (sync_account (some sync) account now false none (λ j. none) fuel w'
          ≡ sync_account (some sync) account now false none (λ j. none) (suc n + fuel) w)
sync_account-resume sync account now n cursor cursor' w w' r h e fuel =
    let r' = Reaches-Ready sync account now (suc n) cursor cursor' w w' h r in
    let start : cut n e ≡ cut (0 + n) e = ap (λ k. cut k e) (ground arith) in
    (
      sync_account-Ready sync account now cursor w r (cut n e) (suc n)
          ∙ rw start (sync_pages-cut sync account now n cursor cursor' w w' h e 0),
      r',
      sync_account-Ready sync account now cursor' w' r' (λ j. none) fuel
          ∙ sym (
              sync_account-Ready sync account now cursor w r (λ j. none) (suc n + fuel)
              ∙ sync_pages-Reaches sync account now (suc n) cursor cursor' w w' h fuel 0 0),
    )
