-- ===== src/Repo.antt =====
-- core/repo/threads_queries.go and search.go: the lists of threads that the user interface shows, and the
-- counters beside them. How SQLite finds a text in a column, without regard to case, is a parameter;
-- a limit or an offset below zero stands with zero. What SQLite does for `ORDER BY` is a parameter too.
pub mod Pages
pub mod Ordered
pub mod Order
use dankmail.Base.{
  ℕ, zero, suc, ◌+◌, String, Bool, true, false, not, ◌&&◌, ◌||◌, List, [], ◌∷◌, ◌++◌, map, Option,
  none, some, ltb, leb, ◌==◌, nat_eq, string_eq, if◌then◌else◌, contains, select, exists, length,
  take, max, is_some, All, ◌≡◌,
}
use dankmail.Sync.Types.{AccountId}
use dankmail.Schema.{Thread, Message, PendingOp, OpState, Cache, pending, inflight, done, failed}

pub record ThreadFilter : Type 0 where
  pub account_id : Option AccountId
  pub unread_only : Bool
  pub starred : Bool
  pub inbox_only : Bool
  pub archived_only : Bool
  pub sent_only : Bool
  pub label : String
  pub exclude_inbox : Bool
  pub query : String
  pub limit : ℕ
  pub offset : ℕ

pub record ThreadSummary : Type 0 where
  pub id : ℕ
  pub account_id : AccountId
  pub provider_thread_id : String
  pub subject : String
  pub snippet : String
  pub last_message_at : ℕ
  pub participants : List String
  pub unread : Bool
  pub starred : Bool
  pub in_inbox : Bool
  pub snoozed_until : Option ℕ
  pub message_count : ℕ
  pub has_attachments : Bool
  pub labels : List String

-- The query and the text of the column.
abbrev pub Matches : Type 0
Matches = String → String → Bool

-- A row of the query's condition `HasAccountWith`, where it is there.
abbrev pub is_of : Option AccountId → Thread → Bool
is_of none t = true
is_of (some account) t = t.account == account

abbrev is_sent_of : Thread → Message → Bool
is_sent_of t m = m.thread == t.id && m.is_sent

unfoldable pub search_predicate : Matches → String → List Message → Thread → Bool
unfolding exists
search_predicate matches query messages t =
    matches query t.subject
    || (matches query t.snippet
        || exists (λ m. m.thread == t.id && (matches query m.from || matches query m.body_text))
            messages)

unfoldable pub is_archived : Thread → Bool
unfolding contains
is_archived t =
    not t.in_inbox
    && (not (is_some t.snoozed_until)
        && not
            (contains "SPAM" t.labels || (contains "TRASH" t.labels || contains "DRAFT" t.labels)))

-- The conditions of `ListThreads`.
unfoldable pub is_listed : Matches → ThreadFilter → List Message → Thread → Bool
unfolding search_predicate is_archived exists contains
is_listed matches f messages t =
    (if f.query == ""
      then not (is_some t.snoozed_until)
      else search_predicate matches f.query messages t)
    && ((not f.sent_only || exists (is_sent_of t) messages)
        && ((not f.archived_only || is_archived t)
            && (is_of f.account_id t
                && ((not f.unread_only || t.unread)
                    && ((not f.starred || t.starred)
                        && ((not f.inbox_only || t.in_inbox)
                            && ((f.label == "" || contains f.label t.labels)
                                && (not f.exclude_inbox || not t.in_inbox))))))))

-- The date of the latest message among them.
unfoldable pub latest_date : List Message → ℕ
latest_date [] = 0
latest_date (m ∷ ms) = max m.date (latest_date ms)

unfoldable pub order_date : ThreadFilter → List Message → Thread → ℕ
unfolding latest_date select
order_date f messages t =
    if f.sent_only then latest_date (select (is_sent_of t) messages) else t.last_message_at

-- The terms of the query's order, each from the highest on: the date, then the id.
unfoldable pub order_terms : ThreadFilter → List Message → List (Thread → ℕ)
unfolding order_date
order_terms f messages = order_date f messages ∷ ((λ t. t.id) ∷ [])

-- Whether a row with the terms of `t` may stand before one with those of `u`.
unfoldable pub leads : List (Thread → ℕ) → Thread → Thread → Bool
leads [] t u = true
leads (term ∷ terms) t u =
    let equal = leads terms t u in ltb (term u) (term t) || (term t == term u && equal)

abbrev pub IsDescending : List (Thread → ℕ) → List Thread → Type 0
IsDescending terms [] = Unit {0}
IsDescending terms (t ∷ ts) = All (λ u. leads terms t u ≡ true) ts × IsDescending terms ts

-- SQLite's `ORDER BY`: the result of a query, which is told by its number, since rows that are equal in
-- all terms may stand in another order in each. It has the rows that are selected, each as often.
pub record SqlOrder : Type 1 where
  pub order_by : ℕ → List (Thread → ℕ) → List Thread → List Thread
  pub same_rows :
      (n : ℕ) (terms : List (Thread → ℕ)) (ts : List Thread) (q : Thread → Bool)
      → length (select q (order_by n terms ts)) ≡ length (select q ts)
  pub no_others :
      (n : ℕ) (terms : List (Thread → ℕ)) (ts : List Thread) (P : Thread → Type 0)
      → All P ts
      → All P (order_by n terms ts)
  pub descending :
      (n : ℕ) (terms : List (Thread → ℕ)) (ts : List Thread)
      → IsDescending terms (order_by n terms ts)

-- `Offset`.
unfoldable pub skip {ℓ} : {A : Type ℓ} → ℕ → List A → List A
skip zero xs = xs
skip (suc n) [] = []
skip (suc n) (x ∷ xs) = skip n xs

unfoldable pub page_size : ThreadFilter → ℕ
page_size f = if f.limit == 0 || ltb 500 f.limit then 100 else f.limit

unfoldable pub thread_summary : Thread → ThreadSummary
thread_summary t = record {
  id = t.id;
  account_id = t.account;
  provider_thread_id = t.provider_thread_id;
  subject = t.subject;
  snippet = t.snippet;
  last_message_at = t.last_message_at;
  participants = t.participants;
  unread = t.unread;
  starred = t.starred;
  in_inbox = t.in_inbox;
  snoozed_until = t.snoozed_until;
  message_count = t.message_count;
  has_attachments = t.has_attachments;
  labels = t.labels;
}

-- The latest of the messages. Which of two with one date comes first is left to the database: here the
-- row with the lower id.
latest_message : List Message → Option Message
latest_message [] = none
latest_message (m ∷ ms) = elim (latest_message ms) [
  | none ↦ some m
  | some newest ↦ if leb newest.date m.date then some m else some newest
]

or_keep : List String → List String → List String
or_keep [] participants = participants
or_keep (to ∷ tos) participants = to ∷ tos

show_sent : Option Message → ThreadSummary → ThreadSummary
unfolding or_keep
show_sent none s = s
show_sent (some m) s = record s {
  last_message_at = m.date;
  snippet = m.snippet;
  participants = or_keep m.to s.participants;
}

-- The summary of a row, which shows the latest sent message in the list of sent mail.
unfoldable pub summary_of : ThreadFilter → List Message → Thread → ThreadSummary
unfolding thread_summary latest_message show_sent select
summary_of f messages t =
    if f.sent_only
    then show_sent (latest_message (select (is_sent_of t) messages)) (thread_summary t)
    else thread_summary t

-- The rows that the filter lets through, in the order that the query of this number gives them.
unfoldable pub rows : SqlOrder → ℕ → Matches → ThreadFilter → Cache → List Thread
unfolding is_listed order_terms select
rows sql n matches f c =
    sql.order_by n (order_terms f c.messages) (select (is_listed matches f c.messages) c.threads)

unfoldable pub list_threads : SqlOrder → ℕ → Matches → ThreadFilter → Cache → List ThreadSummary
unfolding rows skip page_size summary_of
list_threads sql n matches f c =
    map (summary_of f c.messages) (take (page_size f) (skip f.offset (rows sql n matches f c)))

unfoldable pub unread_count : Option AccountId → Cache → ℕ
unfolding select
unread_count account c = length (
    select (λ t. t.unread && (t.in_inbox && (not (is_some t.snoozed_until) && is_of account t)))
      c.threads)

pub record QueueStats : Type 0 where
  pub pending_count : ℕ
  pub inflight_count : ℕ
  pub failed_count : ℕ

abbrev is_pending : OpState → Bool
is_pending pending = true
is_pending _ = false

abbrev is_inflight : OpState → Bool
is_inflight inflight = true
is_inflight _ = false

abbrev is_failed : OpState → Bool
is_failed failed = true
is_failed _ = false

unfoldable pub queue_stats : Cache → QueueStats
unfolding select
queue_stats c = record {
  pending_count = length (select (λ o. is_pending o.state) c.pending_ops);
  inflight_count = length (select (λ o. is_inflight o.state) c.pending_ops);
  failed_count = length (select (λ o. is_failed o.state) c.pending_ops);
}
