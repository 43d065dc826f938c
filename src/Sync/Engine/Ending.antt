-- ===== src/Sync/Engine/Ending.antt =====
-- engine.go, a sync comes to its end.
use dankmail.Base.{
  ℕ, suc, zero, ◌<◌, String, Bool, true, false, Option, none, some, ◌≡◌, refl, ap, ◌∙◌, inl, inr,
  arith, Option-cases, Bool-cases, List, [], ◌∷◌, update_where, if◌then◌else◌, ◌==◌, nat_eq,
  string_eq, subst, sym,
}
use dankmail.Errdefs.{Failure, plain}
use dankmail.Schema.{Account, Status, active, paused, auth_error}
use dankmail.Sync.Types.{AccountId}
use dankmail.Sync.World.{World}
use dankmail.Sync.Executor.{find_account, update_account}
use dankmail.Sync.Engine.{
  Page, Syncer, go_on, take_page, store_page, sync_pages, sync_account, sync_found, sync_status,
  sync_active,
}
use dankmail.Sync.Engine.Resume.{take_page-go_on, Step-cases, sync_pages-page, sync_pages-last}

take_page-fine :
    (account : AccountId) (now : ℕ) (p : Page) (cursor : String) (w : World) {w₁ : World}
    {next : String}
    → take_page account now p cursor w ≡ (w₁, go_on next)
    → p.failure ≡ none
unfolding take_page store_page
take_page-fine account now p cursor w h = ground arith

-- The row that a full sync finds has the empty cursor, and it was there before.
cleared :
    (account : AccountId) (rows : List Account) (a : Account)
    → find_account account
        (update_where (λ b. b.id == account) (λ b. record b { sync_cursor = "" }) rows)
      ≡ some a
    → (b : Account) × (find_account account rows ≡ some b) × (a.sync_cursor ≡ "")
unfolding find_account update_where
cleared account [] a h = ground arith
cleared account (b ∷ rows) a h = elim (Bool-cases (b.id == account)) [
  | inl e ↦
      let once = rw (e, find_account) at h in
      let here : some (record b { sync_cursor = "" }) ≡ some a = rw e at once in
      (b, rw (e) refl, ground (arith, here))
  | inr e ↦
      let once = rw (e, find_account) at h in
      let there = rw e at once in
      let (b', was, at) = cleared account rows a there in (b', rw (e) was, at)
]

abbrev Ended : Option (World × Failure) → Type 0
Ended r = (w : World) × (e : Failure) × (r ≡ some (w, e))

module _ (sync : Syncer) (account now : ℕ) (cancelled : ℕ → Failure) (rank : String → ℕ)
    (falls : (c : String)
      → (sync c).changes.incomplete ≡ true
      → (sync c).failure ≡ none
      → rank (sync c).cursor < rank c) where
  sync_pages-total :
      (fuel i : ℕ) (cursor : String) (w : World)
      → rank cursor < fuel
      → Ended (sync_pages sync account now cancelled fuel i cursor w)
  unfolding sync_pages
  sync_pages-total zero i cursor w h = absurd (omega (arith, h))
  sync_pages-total (suc fuel) i cursor w h =
      let (w₁, step) = take_page account now (sync cursor) cursor w in
      elim (Step-cases step) [
        | inl (e, s) ↦ (w₁, e, rw (s, sync_pages))
        | inr (next, s) ↦
            let taken : take_page account now (sync cursor) cursor w ≡ (w₁, go_on next) =
              ap (λ r. (w₁, r)) s in
            let (stored, at, incomplete) =
              take_page-go_on account now (sync cursor) cursor w taken in
            let fine = take_page-fine account now (sync cursor) cursor w taken in
            elim (Option-cases (cancelled i)) [
              | inr (e, c) ↦ (
                w₁,
                some e,
                sync_pages-last sync account now cursor next w w₁ taken cancelled fuel i c,
              )
              | inl c ↦
                  let less : rank next < rank cursor =
                    subst (λ n. rank n < rank cursor) (sym at) (falls cursor incomplete fine) in
                  let (w', e, run) =
                    sync_pages-total fuel (suc i) next w₁ (omega (arith, less, h)) in
                  (
                    w',
                    e,
                    sync_pages-page sync account now cursor next w w₁ taken cancelled fuel i c
                        ∙ run,
                  )
            ]
      ]

  sync_status-total :
      (fuel : ℕ) (status : Status) (cursor : String) (w : World)
      → rank cursor < fuel
      → Ended (sync_status (some sync) account now cancelled fuel status cursor w)
  unfolding sync_status sync_active
  sync_status-total fuel active cursor w h = sync_pages-total fuel 0 cursor w h
  sync_status-total fuel paused cursor w h = (w, none, refl)
  sync_status-total fuel auth_error cursor w h = (w, none, refl)

  sync_found-total :
      (fuel : ℕ) (found : Option Account) (w : World)
      → ((a : Account) → found ≡ some a → rank a.sync_cursor < fuel)
      → Ended (sync_found (some sync) account now cancelled fuel found w)
  unfolding sync_found
  sync_found-total fuel none w h = (w, some (plain "ent: account not found"), refl)
  sync_found-total fuel (some a) w h = sync_status-total fuel a.status a.sync_cursor w (h a refl)

-- The cursor that a sync begins with: the empty one if it is full, else that of the account.
unfoldable pub first_cursor : Bool → Account → String
first_cursor full a = if full then "" else a.sync_cursor

-- A sync ends, full or not, cancelled or not, if each checkpoint that the provider gives without an
-- error leaves less to do in some measure of cursors: fuel above the measure of the cursor that the
-- sync begins with is enough. The measure may grow without bound from one cursor to another.
pub sync_account-total :
    (sync : Syncer) (account now : ℕ) (full : Bool) (started : Failure) (cancelled : ℕ → Failure)
    (rank : String → ℕ) (fuel : ℕ) (w : World)
    → ((c : String)
        → (sync c).changes.incomplete ≡ true
        → (sync c).failure ≡ none
        → rank (sync c).cursor < rank c)
    → ((a : Account) → find_account account w.accounts ≡ some a → rank (first_cursor full a) < fuel)
    → (w' : World) × (e : Failure) × (sync_account
          (some sync)
          account
          now
          full
          started
          cancelled
          fuel
          w
        ≡ some (w', e))
unfolding sync_account first_cursor update_account
sync_account-total sync account now full (some e) cancelled rank fuel w falls enough =
    (w, some e, refl)
sync_account-total sync account now true none cancelled rank fuel w falls enough =
    let w₁ = update_account account (λ a. record a { sync_cursor = "" }) w in
    sync_found-total sync account now cancelled rank falls fuel (find_account account w₁.accounts)
      w₁
      (λ a found.
        let (b, was, at) = cleared account w.accounts a found in
        subst (λ c. rank c < fuel) (sym at) (enough b was))
sync_account-total sync account now false none cancelled rank fuel w falls enough =
    sync_found-total sync account now cancelled rank falls fuel (find_account account w.accounts) w
      enough
