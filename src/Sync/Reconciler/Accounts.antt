-- ===== src/Sync/Reconciler/Accounts.antt =====
-- reconciler.go, the account's row after a sync.
use dankmail.Base.{
  ℕ, String, Bool, true, false, not, ◌&&◌, List, [], ◌∷◌, ◌++◌, Option, none, some, ◌==◌,
  if◌then◌else◌, ◌≡◌, refl, ap, ◌∙◌, inl, inr, arith, Bool-cases, Option-cases, nat_eq, string_eq,
  update_where, contains, select,
}
use dankmail.Provider.{Changes, ThreadDelta, MessageDelta}
use dankmail.Schema.{Account, Cache, Thread, Message, delete_rows, delete_thread, find_thread}
use dankmail.Sync.Types.{AccountId}
use dankmail.Sync.World.{World, Arrival, publish, threads_changed}
use dankmail.Sync.Executor.{find_account}
use dankmail.Sync.Reconciler.{
  apply, apply_with, transact, save_cursor, upsert_all, upsert_thread, upsert_row, ingest,
  ingest_all, add_message, refresh_message, find_message, set_paperclip, update_message,
  mark_history, remove_all, delete_where_id, drop_stale, is_stale, frozen_thread_ids, seen_ids,
}
use dankmail.Sync.Reconciler.Frozen.Pass.{publish_arrivals-cache}

set_paperclip-accounts :
    (row : Thread) (c : Cache) → (set_paperclip (row, c)).1.accounts ≡ c.accounts
unfolding set_paperclip
set_paperclip-accounts row c = ground arith

refresh_message-accounts :
    (m : MessageDelta) (old : Message) (row : Thread) (c : Cache)
    → (refresh_message m old (row, c)).1.accounts ≡ c.accounts
unfolding refresh_message set_paperclip update_message
refresh_message-accounts m old row c = ground arith

add_message-accounts :
    (m : MessageDelta) (row : Thread) (c : Cache) → (add_message m (row, c)).1.accounts ≡ c.accounts
unfolding add_message set_paperclip
add_message-accounts m row c = ground arith

ingest-accounts :
    (account : AccountId) (d : ThreadDelta) (notify : Bool) (m : MessageDelta) (row : Thread)
    (c : Cache) (arrivals : List Arrival)
    → (ingest account d notify m (row, c) arrivals).0.1.accounts ≡ c.accounts
unfolding ingest
ingest-accounts account d notify m row c arrivals =
    elim (Option-cases (find_message row.id m.message_id c.messages)) [
      | inl e ↦ rw (e, ingest) (add_message-accounts m row c)
      | inr (old, e) ↦ rw (e, ingest) (refresh_message-accounts m old row c)
    ]

ingest_all-accounts :
    (account : AccountId) (d : ThreadDelta) (notify : Bool) (ms : List MessageDelta) (row : Thread)
    (c : Cache) (arrivals : List Arrival)
    → (ingest_all account d notify ms (row, c) arrivals).0.accounts ≡ c.accounts
unfolding ingest_all
ingest_all-accounts account d notify [] row c arrivals = refl
ingest_all-accounts account d notify (m ∷ ms) row c arrivals =
    let ((row', c'), arrivals') = ingest account d notify m (row, c) arrivals in
    ingest_all-accounts account d notify ms row' c' arrivals'
    ∙ ingest-accounts account d notify m row c arrivals

upsert_row-accounts :
    (account : AccountId) (d : ThreadDelta) (frozen : Bool) (found : Option Thread) (c : Cache)
    → (upsert_row account d frozen found c).1.accounts ≡ c.accounts
unfolding upsert_row
upsert_row-accounts account d frozen none c = refl
upsert_row-accounts account d true (some t) c = refl
upsert_row-accounts account d false (some t) c = refl

upsert_thread-accounts :
    (account : AccountId) (d : ThreadDelta) (frozen notify : Bool) (c : Cache)
    → (upsert_thread account d frozen notify c).0.accounts ≡ c.accounts
unfolding upsert_thread
upsert_thread-accounts account d frozen notify c =
    ingest_all-accounts account d notify d.messages _ _ []
    ∙ upsert_row-accounts account d frozen (find_thread account d.thread_id c.threads) c

maybe_mark-accounts :
    (backfill : Bool) (account : AccountId) (id : String) (now : ℕ) (c : Cache)
    → (if backfill then mark_history account id now c else c).accounts ≡ c.accounts
unfolding mark_history
maybe_mark-accounts true account id now c = refl
maybe_mark-accounts false account id now c = refl

upsert_all-accounts :
    (account : AccountId) (ch : Changes) (frozen : List String) (now : ℕ) (ds : List ThreadDelta)
    (c : Cache) (arrivals : List Arrival)
    → (upsert_all account ch frozen now ds c arrivals).0.accounts ≡ c.accounts
unfolding upsert_all
upsert_all-accounts account ch frozen now [] c arrivals = refl
upsert_all-accounts account ch frozen now (d ∷ ds) c arrivals =
    let notify = not ch.full_resync && not ch.backfill in
    let (c₁, new) = upsert_thread account d (contains d.thread_id frozen) notify c in
    upsert_all-accounts account ch frozen now ds
      (if ch.backfill then mark_history account d.thread_id now c₁ else c₁) (arrivals ++ new)
    ∙ maybe_mark-accounts ch.backfill account d.thread_id now c₁
    ∙ upsert_thread-accounts account d (contains d.thread_id frozen) notify c

delete_where_id-accounts :
    (account : AccountId) (id : String) (c : Cache)
    → (delete_where_id account id c).accounts ≡ c.accounts
unfolding delete_where_id
delete_where_id-accounts account id c = elim (Option-cases (find_thread account id c.threads)) [
  | inl e ↦ rw (e, delete_where_id)
  | inr (t, e) ↦ rw (e, delete_where_id)
]

remove_all-accounts :
    (account : AccountId) (frozen ids : List String) (c : Cache)
    → (remove_all account frozen ids c).accounts ≡ c.accounts
unfolding remove_all
remove_all-accounts account frozen [] c = refl
remove_all-accounts account frozen (id ∷ ids) c = elim (Bool-cases (contains id frozen)) [
  | inl e ↦ rw (e, remove_all) (remove_all-accounts account frozen ids c)
  | inr e ↦
      rw (e, remove_all)
        (remove_all-accounts account frozen ids (delete_where_id account id c)
          ∙ delete_where_id-accounts account id c)
]

delete_rows-accounts :
    (skip : Thread → Bool) (rows : List Thread) (c : Cache)
    → (delete_rows skip rows c).accounts ≡ c.accounts
unfolding delete_rows delete_thread
delete_rows-accounts skip [] c = refl
delete_rows-accounts skip (t ∷ rows) c = elim (Bool-cases (skip t)) [
  | inl e ↦ rw (e, delete_rows) (delete_rows-accounts skip rows c)
  | inr e ↦ rw (e, delete_rows) (delete_rows-accounts skip rows (delete_thread t.id c))
]

maybe_drop-accounts :
    (full : Bool) (account : AccountId) (seen frozen : List String) (c : Cache)
    → (if full then drop_stale account seen frozen c else c).accounts ≡ c.accounts
unfolding drop_stale
maybe_drop-accounts true account seen frozen c =
    delete_rows-accounts _ (select (is_stale account) c.threads) c
maybe_drop-accounts false account seen frozen c = refl

-- Before its last statement a transaction does not touch the accounts.
transact-accounts :
    (account : AccountId) (ch : Changes) (cursor : Option String) (now : ℕ) (frozen : List String)
    (c : Cache)
    → (d : Cache) × (d.accounts ≡ c.accounts)
      × ((transact account ch cursor now frozen c).0
          ≡ save_cursor account cursor ch.incomplete now d)
unfolding transact
transact-accounts account ch cursor now frozen c =
    let c₁ = (upsert_all account ch frozen now ch.upserted c []).0 in
    let c₂ = remove_all account frozen ch.removed_thread_ids c₁ in
    let seen = ch.snapshot_thread_ids ++ seen_ids ch.upserted in
    let full = ch.full_resync && not ch.incomplete in
    (
      (if full then drop_stale account seen frozen c₂ else c₂),
      maybe_drop-accounts full account seen frozen c₂
          ∙ remove_all-accounts account frozen ch.removed_thread_ids c₁
          ∙ upsert_all-accounts account ch frozen now ch.upserted c [],
      refl,
    )

-- The row after the sync of a page, from the row before.
abbrev pub synced : String → Bool → ℕ → Account → Account
synced cursor true now a = record a { sync_cursor = cursor; last_error = none }
synced cursor false now a = record a {
  sync_cursor = cursor;
  last_error = none;
  last_sync_at = some now;
  needs_reauth = false;
  auth_message = none;
}

find_updated :
    (account : AccountId) (f : Account → Account)
    → ((a : Account) → (f a).id ≡ a.id)
    → (rows : List Account) {a : Account} → find_account account rows ≡ some a
    → find_account account (update_where (λ b. b.id == account) f rows) ≡ some (f a)
unfolding find_account update_where
find_updated account f keeps [] h = cc
find_updated account f keeps (b ∷ rows) {a} h = elim (Bool-cases (b.id == account)) [
  | inl e ↦
      let same : b ≡ a = ground (arith, h, e) in
      let hit : ((f b).id == account) ≡ true = ap (λ i. i == account) (keeps b) ∙ e in
      rw e (rw hit (ap (λ x. some (f x)) same))
  | inr e ↦ rw e (rw e (find_updated account f keeps rows (rw e at h)))
]

save_cursor-find_account :
    (account : AccountId) (cursor : String) (incomplete : Bool) (now : ℕ) (c : Cache) {a : Account}
    → find_account account c.accounts ≡ some a
    → find_account account (save_cursor account (some cursor) incomplete now c).accounts
      ≡ some (synced cursor incomplete now a)
unfolding save_cursor
save_cursor-find_account account cursor true now c h =
    find_updated account _ (λ a. refl) c.accounts h
save_cursor-find_account account cursor false now c h =
    find_updated account _ (λ a. refl) c.accounts h

pub apply-find_account :
    (account : AccountId) (ch : Changes) (cursor : String) (now : ℕ) (w : World) {a : Account}
    → find_account account w.accounts ≡ some a
    → find_account account (apply account ch (some cursor) now w).accounts
      ≡ some (synced cursor ch.incomplete now a)
unfolding apply apply_with publish
apply-find_account account ch cursor now w {a} h =
    let frozen = frozen_thread_ids account w.pending_ops in
    let (c, arrivals) = transact account ch (some cursor) now frozen w.cache in
    let (d, kept, saved) = transact-accounts account ch (some cursor) now frozen w.cache in
    rw
      (publish_arrivals-cache arrivals (publish (threads_changed account) (record w { cache = c })))
      (rw saved (save_cursor-find_account account cursor ch.incomplete now d (rw kept h)))
