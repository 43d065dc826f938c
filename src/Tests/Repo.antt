-- ===== src/Tests/Repo.antt =====
-- The lists of threads of a small cache.
use dankmail.Base.{
  ℕ, Bool, true, false, [], ◌∷◌, none, some, ◌≡◌, refl, ◌≤◌, arith, length, map, All, exists, ◌&&◌,
  select,
}
use dankmail.Schema.{Thread, Message, Cache, IsIndexed}
use dankmail.Repo.{
  ThreadFilter, Matches, leads, order_terms, order_date, latest_date, is_listed, order_date,
  summary_of, rows, unread_count, page_size,
}
use dankmail.Repo.Pages.{list_pages, unread_inbox, list_pages-rows, unread_count-rows}
use dankmail.Repo.Ordered.{IsNewestFirst, rows-IsOrdered}
use dankmail.Tests.Order.{by_insertion, sort_rows, insert_row}
use dankmail.Tests.Samples.{cache, thread}

abbrev nowhere : Matches
nowhere query text = false

abbrev by_one : ThreadFilter
by_one = unread_inbox none 1

abbrev three_threads : Cache
three_threads = record cache {
  threads = thread 3 "t3" ∷ (record (thread 4 "t4") { unread = false } ∷ cache.threads);
}

three_unread : unread_count none three_threads ≡ 3
unfolding unread_count select
three_unread = refl

three_threads-IsIndexed : IsIndexed three_threads.threads
three_threads-IsIndexed = (
  ((refl, refl), ((refl, refl), ((refl, refl), tt))),
  (((refl, refl), ((refl, refl), tt)), (((refl, refl), tt), (tt, tt))),
)

few : length (rows by_insertion 7 nowhere by_one three_threads) ≤ 3
few = omega (arith, unread_count-rows by_insertion 7 nowhere none 1 three_threads, three_unread)

list_pages-rows_example :
    list_pages by_insertion 0 nowhere by_one three_threads 3 0
    ≡ map (summary_of by_one []) (rows by_insertion 7 nowhere by_one three_threads)
unfolding page_size
list_pages-rows_example =
    list_pages-rows by_insertion 7 nowhere by_one three_threads three_threads-IsIndexed 0 3 few

unread_count-rows_example :
    length (rows by_insertion 0 nowhere (unread_inbox (some 1) 50) three_threads)
    ≡ unread_count (some 1) three_threads
unread_count-rows_example = unread_count-rows by_insertion 0 nowhere (some 1) 50 three_threads

abbrev sent : ℕ → ℕ → ℕ → Message
sent id of date = record {
  id = id;
  thread = of;
  provider_message_id = "";
  rfc822_message_id = "";
  from = "";
  to = [];
  cc = [];
  date = date;
  is_sent = true;
  snippet = "";
  body_text = "";
  reply_headers = [];
  attachments = [];
}

-- The first thread has the latest sent message.
abbrev answered : Cache
answered = record three_threads {
  messages = sent 1 1 70 ∷ (sent 2 3 60 ∷ (sent 3 1 50 ∷ (sent 4 2 60 ∷ [])));
}

abbrev sent_mail : ThreadFilter
sent_mail = record by_one { sent_only = true }

rows-IsOrdered_example :
    IsNewestFirst true answered.messages (rows by_insertion 0 nowhere sent_mail answered)
    × All
        (λ t. is_listed nowhere sent_mail answered.messages t ≡ true)
        (rows by_insertion 0 nowhere sent_mail answered)
    × ((q : Thread → Bool)
        → length (select q (rows by_insertion 0 nowhere sent_mail answered))
          ≡ length (
              select
                (λ t. is_listed nowhere sent_mail answered.messages t && q t)
                answered.threads))
rows-IsOrdered_example = rows-IsOrdered by_insertion 0 nowhere sent_mail answered

-- Two threads with one date stand in the order of their ids.
sent_run : map (λ t. t.id) (rows by_insertion 0 nowhere sent_mail answered) ≡ 1 ∷ (3 ∷ (2 ∷ []))
unfolding rows select is_listed exists sort_rows insert_row leads order_terms order_date latest_date
sent_run = refl
