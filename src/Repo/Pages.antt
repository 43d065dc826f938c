-- ===== src/Repo/Pages.antt =====
-- threads_queries.go, the pages of a list and the counter of unread threads.
use dankmail.Base.{
  ℕ, zero, suc, ◌+◌, ◌*◌, ◌≤◌, true, false, not, ◌&&◌, List, [], ◌∷◌, ◌++◌, map, map-append, Option,
  ◌≡◌, refl, sym, ap, ◌∙◌, arith, length, take, select, select_ext, All-of, string_eq, is_some,
}
use dankmail.Sync.Types.{AccountId}
use dankmail.Schema.{Thread, Message, Cache, IsIndexed}
use dankmail.Repo.Order.{rows_stable}
use dankmail.Repo.{
  ThreadFilter, ThreadSummary, Matches, is_of, is_listed, order_terms, SqlOrder, skip, page_size,
  summary_of, rows, list_threads, unread_count,
}

-- Some pages of the list, one after the other, from an offset on, each in a query of its own.
unfoldable pub list_pages :
    SqlOrder → ℕ → Matches → ThreadFilter → Cache → ℕ → ℕ → List ThreadSummary
unfolding list_threads
list_pages sql n matches f c zero offset = []
list_pages sql n matches f c (suc k) offset =
    list_threads sql n matches (record f { offset = offset }) c
    ++ list_pages sql (suc n) matches f c k (offset + page_size f)

module _ {ℓ} {A : Type ℓ} where
  take-skip : (n : ℕ) (xs : List A) → take n xs ++ skip n xs ≡ xs
  unfolding skip
  take-skip zero xs = refl
  take-skip (suc n) [] = refl
  take-skip (suc n) (x ∷ xs) = ap (λ l. x ∷ l) (take-skip n xs)

  skip_nil : (n : ℕ) → skip {A = A} n [] ≡ []
  unfolding skip
  skip_nil zero = refl
  skip_nil (suc n) = refl

  skip-skip : (m n k : ℕ) (xs : List A) → k ≡ m + n → skip n (skip m xs) ≡ skip k xs
  unfolding skip
  skip-skip zero n k xs e = ap (λ i. skip i xs) (omega (arith, e))
  skip-skip (suc m) n k [] e = skip_nil n ∙ sym (skip_nil k)
  skip-skip (suc m) n zero (x ∷ xs) e = absurd (omega (arith, e))
  skip-skip (suc m) n (suc k) (x ∷ xs) e = skip-skip m n k xs (omega (arith, e))

  skip-all : (n : ℕ) (xs : List A) → length xs ≤ n → skip n xs ≡ []
  unfolding skip
  skip-all zero [] h = refl
  skip-all zero (x ∷ xs) h = absurd (omega (arith, h))
  skip-all (suc n) [] h = refl
  skip-all (suc n) (x ∷ xs) h = skip-all n xs (omega (arith, h))

mul_next : (k n : ℕ) → suc k * n ≡ n + k * n
mul_next k n = ground arith

module _ (sql : SqlOrder) (m : ℕ) (matches : Matches) (f : ThreadFilter) (c : Cache)
    (indexed : IsIndexed c.threads) where
  list_pages-skip :
      (n k offset : ℕ)
      → length (rows sql m matches f c) ≤ offset + k * page_size f
      → list_pages sql n matches f c k offset
        ≡ map (summary_of f c.messages) (skip offset (rows sql m matches f c))
  unfolding list_pages list_threads rows summary_of page_size
  list_pages-skip n zero offset enough = sym (
      ap (map (summary_of f c.messages))
        (skip-all offset (rows sql m matches f c) (omega (arith, enough))))
  list_pages-skip n (suc k) offset enough =
      let left = skip offset (rows sql m matches f c) in
      let next = offset + page_size f in
      let page = list_threads sql n matches (record f { offset = offset }) c in
      ap (λ later. page ++ later)
        (list_pages-skip (suc n) k next (omega (arith, enough, mul_next k (page_size f)))
          ∙ ap (map (summary_of f c.messages))
              (sym (skip-skip offset (page_size f) next (rows sql m matches f c) refl)))
      ∙ ap
          (λ all.
            map (summary_of f c.messages) (take (page_size f) (skip offset all))
            ++ map (summary_of f c.messages) (skip (page_size f) left))
          (rows_stable sql n m matches f c indexed)
      ∙ sym
          (map-append (summary_of f c.messages) (take (page_size f) left) (skip (page_size f) left))
      ∙ ap (map (summary_of f c.messages)) (take-skip (page_size f) left)

  -- The pages of a list, each read in a query of its own, one after the other from its start until their
  -- sizes cover it, are the whole list as one query gives it, if the rows of the table have different
  -- ids. SQLite may order rows that are equal in all terms differently in each query.
  pub list_pages-rows :
      (n k : ℕ)
      → length (rows sql m matches f c) ≤ k * page_size f
      → list_pages sql n matches f c k 0 ≡ map (summary_of f c.messages) (rows sql m matches f c)
  unfolding skip
  list_pages-rows n k enough = list_pages-skip n k 0 (omega (arith, enough))

-- The filter of the unread inbox of an account, or of all accounts.
abbrev pub unread_inbox : Option AccountId → ℕ → ThreadFilter
unread_inbox account limit = record {
  account_id = account;
  unread_only = true;
  starred = false;
  inbox_only = true;
  archived_only = false;
  sent_only = false;
  label = "";
  exclude_inbox = false;
  query = "";
  limit = limit;
  offset = 0;
}

is_listed_unread :
    (matches : Matches) (account : Option AccountId) (limit : ℕ) (messages : List Message)
    (t : Thread)
    → is_listed matches (unread_inbox account limit) messages t
      ≡ (t.unread && (t.in_inbox && (not (is_some t.snoozed_until) && is_of account t)))
unfolding is_listed
is_listed_unread matches account limit messages t = ground arith

length-select_all : (ts : List Thread) → length (select (λ t. true) ts) ≡ length ts
unfolding select
length-select_all [] = refl
length-select_all (t ∷ ts) = ap (λ n. suc n) (length-select_all ts)

-- The counter of unread threads, of an account or of all of them, is the length of the list of the
-- unread inbox, whatever the size of a page.
pub unread_count-rows :
    (sql : SqlOrder) (n : ℕ) (matches : Matches) (account : Option AccountId) (limit : ℕ)
    (c : Cache)
    → length (rows sql n matches (unread_inbox account limit) c) ≡ unread_count account c
unfolding rows unread_count
unread_count-rows sql n matches account limit c =
    let f = unread_inbox account limit in
    let selected = select (is_listed matches f c.messages) c.threads in
    let ordered = sql.order_by n (order_terms f c.messages) selected in
    sym (length-select_all ordered)
    ∙ sql.same_rows n (order_terms f c.messages) selected (λ t. true)
    ∙ length-select_all selected
    ∙ ap length (
        select_ext (is_listed matches f c.messages)
          (λ t. t.unread && (t.in_inbox && (not (is_some t.snoozed_until) && is_of account t)))
          c.threads (All-of _ c.threads (is_listed_unread matches account limit c.messages)))
