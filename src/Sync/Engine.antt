-- ===== src/Sync/Engine.antt =====
-- core/internal/sync/engine.go: the poll interval, and one sync of an account in pages.
-- `Sync` of a provider is a parameter. Two syncs of one account exclude each other by its lock, so
-- a sync is one function on the state.
pub mod Interval
pub mod Resume
pub mod Ending
use dankmail.Base.{
  ℕ, suc, zero, ◌*◌, max, String, Bool, true, not, ◌&&◌, Option, none, some, leb, ◌==◌,
  if◌then◌else◌, nat_eq, string_eq,
}
use dankmail.Errdefs.{Error, Failure, plain, kind_of, retry_after}
use dankmail.Provider.{Changes}
use dankmail.Settings.{min_poll_seconds}
use dankmail.Schema.{Account, Status, active, auth_error}
use dankmail.Sync.Types.{AccountId}
use dankmail.Sync.World.{World, publish, account_auth}
use dankmail.Sync.Executor.{second, update_account, find_account, no_provider, is_auth}
use dankmail.Sync.Reconciler.{apply}

abbrev pub default_poll_interval : ℕ
default_poll_interval = 60 * second

-- The global setting, if there is a store of settings.
unfoldable pub interval_of_settings : Option ℕ → ℕ
interval_of_settings none = default_poll_interval
interval_of_settings (some secs) =
    if leb min_poll_seconds secs then secs * second else default_poll_interval

unfoldable pub interval_of_config : Option ℕ → Option ℕ → ℕ
unfolding interval_of_settings
interval_of_config none settings = interval_of_settings settings
interval_of_config (some secs) settings =
    if leb min_poll_seconds secs then secs * second else interval_of_settings settings

unfoldable pub account_interval : Option ℕ → Account → ℕ
unfolding interval_of_config
account_interval settings a = interval_of_config a.poll_seconds settings

unfoldable pub next_sync_delay : Option ℕ → Account → Failure → ℕ
unfolding account_interval
next_sync_delay settings a e = max (account_interval settings a) (retry_after e)

-- What `Sync` returns for a cursor.
pub record Page : Type 0 where
  pub changes : Changes
  pub cursor : String
  pub failure : Failure

-- `Provider.Sync`, and `Registry.Provider` for it.
abbrev pub Syncer : Type 0
Syncer = String → Page

abbrev pub no_cursor : Error
no_cursor = plain "provider returned a checkpoint without a cursor"

abbrev pub no_progress : Error
no_progress = plain "provider checkpoint did not advance"

-- The account's row after an error of the provider.
unfoldable pub record_failure : AccountId → Error → World → World
record_failure account e w =
    if is_auth (kind_of (some e))
    then update_account account
        (λ a. record a {
          last_error = some e;
          status = auth_error;
          needs_reauth = true;
          auth_message = some e;
        })
        (publish (account_auth account) w)
    else update_account account (λ a. record a { last_error = some e }) w

-- How a page ends: with the result of the sync, or with the cursor of the next page.
pub data Step : Type 0 where
  stop : Failure → Step
  go_on : String → Step

-- A page without an error, after its changes are stored.
unfoldable pub next_page : Page → String → Step
next_page p cursor =
    if not p.changes.incomplete
    then stop none
    else if p.cursor == cursor
    then stop (some no_progress)
    else go_on p.cursor

-- A page after the test for a cursor: the second argument says whether its changes are stored.
unfoldable pub store_page : AccountId → ℕ → Page → String → Failure → World → World × Step
unfolding next_page
store_page account now p cursor none w =
    (apply account p.changes (some p.cursor) now w, next_page p cursor)
store_page account now p cursor (some e) w =
    let w₁ = if p.changes.incomplete then apply account p.changes (some p.cursor) now w else w in
    (record_failure account e w₁, stop (some e))

unfoldable pub take_page : AccountId → ℕ → Page → String → World → World × Step
unfolding store_page
take_page account now p cursor w =
    if p.changes.incomplete && p.cursor == ""
    then (w, stop (some no_cursor))
    else store_page account now p cursor p.failure w

-- The loop: `none` if there is no fuel for another page. `cancelled` lists the readings of
-- `ctx.Err()` after each page, with that of page `i` first.
unfoldable pub sync_pages :
    Syncer → AccountId → ℕ → (ℕ → Failure) → ℕ → ℕ → String → World → Option (World × Failure)
sync_pages sync account now cancelled zero i cursor w = none
sync_pages sync account now cancelled (suc fuel) i cursor w =
    let (w₁, step) = take_page account now (sync cursor) cursor w in
    elim step [
      | stop e ↦ some (w₁, e)
      | go_on next ↦ elim (cancelled i) [
        | some e ↦ some (w₁, some e)
        | none ↦ sync_pages sync account now cancelled fuel (suc i) next w₁
      ]
    ]

unfoldable pub sync_active :
    Option Syncer → AccountId → ℕ → (ℕ → Failure) → ℕ → String → World → Option (World × Failure)
unfolding sync_pages
sync_active none account now cancelled fuel cursor w = some (w, some no_provider)
sync_active (some sync) account now cancelled fuel cursor w =
    sync_pages sync account now cancelled fuel 0 cursor w

unfoldable pub sync_status :
    Option Syncer
    → AccountId
    → ℕ
    → (ℕ → Failure)
    → ℕ
    → Status
    → String
    → World
    → Option (World × Failure)
unfolding sync_active
sync_status sync account now cancelled fuel active cursor w =
    sync_active sync account now cancelled fuel cursor w
sync_status sync account now cancelled fuel _ cursor w = some (w, none)

unfoldable pub sync_found :
    Option Syncer
    → AccountId
    → ℕ
    → (ℕ → Failure)
    → ℕ
    → Option Account
    → World
    → Option (World × Failure)
unfolding sync_status
sync_found sync account now cancelled fuel none w = some (w, some (plain "ent: account not found"))
sync_found sync account now cancelled fuel (some a) w =
    sync_status sync account now cancelled fuel a.status a.sync_cursor w

-- `started` is the reading of `ctx.Err()` once the lock is held.
unfoldable pub sync_account :
    Option Syncer
    → AccountId
    → ℕ
    → Bool
    → Failure
    → (ℕ → Failure)
    → ℕ
    → World
    → Option (World × Failure)
unfolding sync_found find_account
sync_account sync account now full (some e) cancelled fuel w = some (w, some e)
sync_account sync account now full none cancelled fuel w =
    let w₁ = if full then update_account account (λ a. record a { sync_cursor = "" }) w else w in
    sync_found sync account now cancelled fuel (find_account account w₁.accounts) w₁
