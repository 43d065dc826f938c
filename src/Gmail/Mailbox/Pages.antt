-- ===== src/Gmail/Mailbox/Pages.antt =====
-- gmail.go, a history page that is cut off and resumed.
use dankmail.Base.{
  ℕ, suc, String, false, not, ◌&&◌, ◌||◌, List, [], ◌∷◌, ◌++◌, ◌==◌, ==-self, string_eq, ◌≡◌, ◌⊎◌,
  refl, sym, ap, ◌∙◌, inl, inr, arith, Bool-cases,
}
use dankmail.Errdefs.{Error, Result, err, ok}
use dankmail.Provider.{ThreadDelta}
use dankmail.Gmail.Message.{GmailThread}
use dankmail.Gmail.Errors.{is_not_found}
use dankmail.Gmail.Checkpoint.{GmailProvider}
use dankmail.Gmail.Sync.Falls.{Result-cases}
use dankmail.Gmail.Mailbox.{
  ArchiveCursor, PageToken, first_page, archive_token, bad_token, PageResult, with_delta, delta_of,
  encode_archive_cursor, download, listed, page_from, page_result, history_page, empty_cursor,
}

unfoldable pub cursor_of : GmailProvider → PageToken → ArchiveCursor
cursor_of p first_page = empty_cursor p
cursor_of p (archive_token c) = c
cursor_of p (bad_token text) = empty_cursor p

-- The token is of this mailbox and this search.
unfoldable pub IsMine : GmailProvider → String → PageToken → Type 0
IsMine p query first_page = Unit {0}
IsMine p query (archive_token c) =
    ((not (c.account == "") && not (c.account == p.account_id)
        || not (c.query == "") && not (c.query == query))
      ≡ false)
IsMine p query (bad_token text) = ⊥

-- The deltas of the threads that a mailbox has.
unfoldable pub found :
    GmailProvider → (String → Result GmailThread) → List String → List ThreadDelta
unfolding with_delta
found p mailbox [] = []
found p mailbox (id ∷ ids) =
    let rest = found p mailbox ids in
    elim (mailbox id) [ err e ↦ rest | ok t ↦ with_delta (delta_of p t) rest ]

-- A request is answered from the mailbox, or it fails in another way than that the thread is not there.
abbrev pub Answers : GmailProvider → (String → Result GmailThread) → Type 0
Answers p mailbox =
    (i : ℕ) (id : String)
    → (p.api.get_thread i id ≡ mailbox id)
      ⊎ ((e : Error) × (p.api.get_thread i id ≡ err e) × (is_not_found p.look e ≡ false))

module _ (p : GmailProvider) (mailbox : String → Result GmailThread)
    (answers : Answers p mailbox) where
  with_delta-append :
      (d : ThreadDelta) (xs ys : List ThreadDelta) → with_delta d xs ++ ys ≡ with_delta d (xs ++ ys)
  unfolding with_delta
  with_delta-append d xs ys = ground arith

  -- What is downloaded and what is left make up the list.
  download-found :
      (i : ℕ) (ids : List String)
      → (download p i ids).deltas ++ found p mailbox (download p i ids).left ≡ found p mailbox ids
  unfolding download found
  download-found i [] = refl
  download-found i (id ∷ ids) =
      let step = download-found (suc i) ids in
      elim (answers i id) [
        | inr (e, h, other) ↦ rw (h, download) (rw (other, found) refl)
        | inl same ↦ elim (Result-cases (mailbox id)) [
          | inr (t, m) ↦
              rw (same, download)
                (rw (m, found)
                  (with_delta-append (delta_of p t) _ _ ∙ ap (with_delta (delta_of p t)) step))
          | inl (e, m) ↦ elim (Bool-cases (is_not_found p.look e)) [
            | inl gone ↦ rw (same, download) (rw (m, found) (rw gone step))
            | inr other ↦ rw (same, download) (rw (m, found) (rw (other) (rw (m, found) refl)))
          ]
        ]
      ]

  abbrev left_over : String → String → List String → ArchiveCursor
  left_over query page left = record {
    account = p.account_id;
    query = query;
    page = page;
    remaining = left;
  }

  encode-remaining :
      (query page : String) (left : List String)
      → (cursor_of p (encode_archive_cursor (left_over query page left))).remaining ≡ left
  unfolding encode_archive_cursor cursor_of
  encode-remaining query page [] = elim (Bool-cases (page == "")) [
    | inl e ↦ rw e refl
    | inr e ↦ rw e refl
  ]
  encode-remaining query page (id ∷ ids) = refl

  left_over-IsMine :
      (query page : String) (left : List String)
      → IsMine p query (archive_token (left_over query page left))
  unfolding IsMine
  left_over-IsMine query page left = rw (==-self p.account_id, ==-self query) (ground arith)

  encode-IsMine :
      (query page : String) (left : List String)
      → IsMine p query (encode_archive_cursor (left_over query page left))
  unfolding IsMine encode_archive_cursor
  encode-IsMine query page [] = elim (Bool-cases (page == "")) [
    | inl e ↦ rw e tt
    | inr e ↦ rw e (left_over-IsMine query page [])
  ]
  encode-IsMine query page (id ∷ ids) = left_over-IsMine query page (id ∷ ids)

  abbrev Brings : String → PageResult → List String → Type 0
  Brings query r ids =
      IsMine p query r.token
      × (r.page_changes.upserted ++ found p mailbox (cursor_of p r.token).remaining
          ≡ found p mailbox ids)

  page_from-Brings :
      (i : ℕ) (query next : String) (token : PageToken) (c : ArchiveCursor) (ids : List String)
      → IsMine p query (archive_token c)
      → listed p i query c ≡ ok (ids, next)
      → Brings query (page_from p i query token c) ids
  unfolding page_from page_result IsMine
  page_from-Brings i query next token c ids mine h =
      let d = download p (suc i) ids in
      rw (mine, h)
        (
          encode-IsMine query next d.left,
          ap (λ left. d.deltas ++ found p mailbox left) (encode-remaining query next d.left)
              ∙ download-found (suc i) ids,
        )

  history_page-Brings :
      (i : ℕ) (query next : String) (token : PageToken) (ids : List String)
      → IsMine p query token
      → listed p i query (cursor_of p token) ≡ ok (ids, next)
      → Brings query (history_page p i query token) ids
  unfolding history_page cursor_of IsMine
  history_page-Brings i query next first_page ids mine h =
      page_from-Brings i query next first_page (empty_cursor p) ids refl h
  history_page-Brings i query next (archive_token c) ids mine h =
      page_from-Brings i query next (archive_token c) c ids mine h
  history_page-Brings i query next (bad_token text) ids mine h = absurd mine

  -- What a page leaves is the end of its list, and less than all if the first request succeeds.
  download-left :
      (i : ℕ) (ids : List String) → (done : List String) × (ids ≡ done ++ (download p i ids).left)
  unfolding download
  download-left i [] = ([], refl)
  download-left i (id ∷ ids) =
      let (done, step) = download-left (suc i) ids in
      elim (Result-cases (p.api.get_thread i id)) [
        | inr (t, k) ↦ rw (k, download) (id ∷ done, ap (λ l. id ∷ l) step)
        | inl (e, k) ↦ elim (Bool-cases (is_not_found p.look e)) [
          | inl gone ↦ rw (k, download) (rw gone (id ∷ done, ap (λ l. id ∷ l) step))
          | inr other ↦ rw (k, download) (rw other ([], refl))
        ]
      ]

  download-left_less :
      (i : ℕ) (id : String) (ids : List String) (t : GmailThread)
      → p.api.get_thread i id ≡ ok t
      → (done : List String) × (ids ≡ done ++ (download p i (id ∷ ids)).left)
  unfolding download
  download-left_less i id ids t k = let step = download-left (suc i) ids in rw (k, download) step

  page_from-left :
      (i : ℕ) (query next : String) (token : PageToken) (c : ArchiveCursor) (ids : List String)
      → IsMine p query (archive_token c)
      → listed p i query c ≡ ok (ids, next)
      → (cursor_of p (page_from p i query token c).token).remaining ≡ (download p (suc i) ids).left
  unfolding page_from page_result IsMine
  page_from-left i query next token c ids mine h =
      rw (mine, h) (encode-remaining query next (download p (suc i) ids).left)

  history_page-left :
      (i : ℕ) (query next : String) (token : PageToken) (ids : List String)
      → IsMine p query token
      → listed p i query (cursor_of p token) ≡ ok (ids, next)
      → (cursor_of p (history_page p i query token).token).remaining ≡ (download p (suc i) ids).left
  unfolding history_page cursor_of IsMine
  history_page-left i query next first_page ids mine h =
      page_from-left i query next first_page (empty_cursor p) ids refl h
  history_page-left i query next (archive_token c) ids mine h =
      page_from-left i query next (archive_token c) c ids mine h
  history_page-left i query next (bad_token text) ids mine h = absurd mine

  -- If a history page was cut off, so that its token holds ids, the token is of this mailbox and this
  -- search, and its page goes on where the first was cut off: the deltas of the first, those of the
  -- second and those of what the second leaves are those of the ids listed for the first, in order; and
  -- if the thread that comes first in the token is now there, what the second leaves is the end of the
  -- ids after it. Each request is answered from the same mailbox, or it fails in another way than that
  -- the thread is not there.
  pub history_page-resumes :
      (i j : ℕ) (query next : String) (token : PageToken) (ids : List String) (id : String)
      (left : List String)
      → IsMine p query token
      → listed p i query (cursor_of p token) ≡ ok (ids, next)
      → (cursor_of p (history_page p i query token).token).remaining ≡ id ∷ left
      → IsMine p query (history_page p i query token).token
        × ((history_page p i query token).page_changes.upserted
              ++ ((history_page p j query
                    (history_page p i query token).token).page_changes.upserted
                  ++ found p mailbox
                      (cursor_of p
                        (history_page p j query
                          (history_page p i query token).token).token).remaining)
            ≡ found p mailbox ids)
        × ((t : GmailThread)
            → p.api.get_thread (suc j) id ≡ ok t
            → (done : List String) × (left
                ≡ done
                  ++ (cursor_of p
                      (history_page p j query
                        (history_page p i query token).token).token).remaining))
  unfolding listed
  history_page-resumes i j query next token ids id left mine h cut =
      let r = history_page p i query token in
      let first = history_page-Brings i query next token ids mine h in
      let second =
        history_page-Brings j query (cursor_of p r.token).page r.token (id ∷ left) first.0
          (rw (cut, listed) refl) in
      (
        first.0,
        ap (λ ds. r.page_changes.upserted ++ ds) (second.1 ∙ ap (found p mailbox) (sym cut))
            ∙ first.1,
        λ t there.
            let less = download-left_less (suc j) id left t there in
            (
              less.0,
              less.1
                  ∙ ap (λ l. less.0 ++ l)
                      (sym (
                        history_page-left j query (cursor_of p r.token).page r.token (id ∷ left)
                          first.0 (rw (cut, listed) refl))),
            ),
      )
