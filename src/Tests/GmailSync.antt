-- ===== src/Tests/GmailSync.antt =====
-- The Gmail provider on concrete mailboxes.
use dankmail.Base.{
  ℕ, String, true, false, List, [], ◌∷◌, ◌++◌, none, some, ◌≡◌, refl, ◌==◌, leb, ◌||◌, nat_eq,
  string_eq, if◌then◌else◌, contains, arith, select, Bool-cases, inl, inr, ◌<◌, ap, sym, ◌∙◌, subst,
  ◌≢◌,
}
use dankmail.Errdefs.{Result, err, ok, plain, retryable, as_kind}
use dankmail.Provider.{ThreadDelta}
use dankmail.Tests.Samples.{go}
use dankmail.Gmail.Quota.{ApiError, DeferredRetry, quota_limited}
use dankmail.Gmail.Message.{GmailMessage, GmailThread, Decoders, has_label}
use dankmail.Gmail.Delta.{thread_delta}
use dankmail.Gmail.Delta.Drafts.{is_kept, thread_delta-drafts}
use dankmail.Gmail.Delta.Reads.{ThreadReads, thread_delta-reads}
use dankmail.Gmail.Errors.{Inspect, classify, is_not_found}
use dankmail.Gmail.Errors.Kinds.{classify-retryable}
use dankmail.Gmail.Checkpoint.{
  GmailProvider, SyncCheckpoint, SyncResult, continuation, history_cursor, other_cursor,
}
use dankmail.Gmail.Mailbox.{
  ArchiveCursor, archive_token, encode_archive_cursor, history_page, search_remote,
}
use dankmail.Gmail.Mailbox.Pages.{Answers, IsMine, cursor_of, found, history_page-resumes}
use dankmail.Gmail.Mailbox.Search.{EndsWithin, search_remote-total}
use dankmail.Gmail.Sync.{sync}
use dankmail.Gmail.Sync.Ending.{sync-total}
use dankmail.Gmail.Sync.Seen.{AreSeen}
use dankmail.Gmail.Sync.Rounds.{FullSync, last, more, FullSync-AreSeen}

abbrev decoders : Decoders
decoders = record { padded = λ s. some s; unpadded = λ s. none; convert_html = λ s. none }

abbrev one_message : String → GmailMessage
one_message thread = record {
  id = "m";
  thread_id = thread;
  label_ids = "INBOX" ∷ [];
  snippet = "hello";
  internal_date = 1_000;
  payload = none;
}

abbrev thread_of : String → GmailThread
thread_of id = record { id = id; messages = one_message id ∷ [] }

-- The third pass meets an error, in the first sync only.
abbrev get_thread_at : ℕ → String → Result GmailThread
get_thread_at i id = if i == 3 then err (plain "reset") else ok (thread_of id)

abbrev mailbox : GmailProvider
mailbox = record {
  account_id = "acct";
  labels = "INBOX" ∷ [];
  body_cap = 32;
  api = record {
    get_profile = λ i. ok 7;
    list_threads = λ i labels page. ok ("a" ∷ ("b" ∷ []), "");
    get_thread = get_thread_at;
    list_history =
        λ i start page. ok (record { page_history_id = 7; records = []; next_page_token = "" });
    search_threads = λ i query page size. ok ([], "");
    context_err = λ i. none;
  };
  look = record {
    as_deferred = λ e. none;
    as_api = λ e. none;
    as_retrieve = λ e. none;
    is_net = λ e. true;
  };
  go = go;
  decoders = decoders;
}

answers : (i : ℕ) (id : String) (t : GmailThread) → get_thread_at i id ≡ ok t → t.id ≡ id
answers i id t h = ground arith

abbrev half_done : SyncCheckpoint
half_done = record {
  account = "acct";
  full = true;
  history = 7;
  start = 0;
  phase = "full";
  monitored = "INBOX" ∷ [];
  label = 1;
  page = "";
  pending = "b" ∷ [];
  done = "a" ∷ [];
  seen = "a" ∷ [];
}

abbrev sample_delta : String → ThreadDelta
sample_delta id = thread_delta go decoders 32 (thread_of id)

abbrev first_part : SyncResult
first_part = record {
  changes = record {
    incomplete = true;
    snapshot_thread_ids = [];
    full_resync = true;
    backfill = false;
    upserted = sample_delta "a" ∷ [];
    removed_thread_ids = [];
  };
  cursor = continuation (some half_done);
  failure = classify mailbox.look (some (plain "reset"));
}

abbrev second_part : SyncResult
second_part = record {
  changes = record {
    incomplete = false;
    snapshot_thread_ids = "a" ∷ ("b" ∷ []);
    full_resync = true;
    backfill = false;
    upserted = sample_delta "b" ∷ [];
    removed_thread_ids = [];
  };
  cursor = history_cursor (some 7);
  failure = none;
}

two_parts :
    FullSync mailbox
      (other_cursor "")
      (sample_delta "a" ∷ (sample_delta "b" ∷ []))
      ("a" ∷ ("b" ∷ []))
unfolding sync thread_delta contains has_label
two_parts =
    more 9 (other_cursor "") first_part half_done (sample_delta "b" ∷ []) ("a" ∷ ("b" ∷ [])) refl
      refl refl refl refl (last 9 (continuation (some half_done)) second_part 7 refl refl refl)

FullSync-AreSeen_example : AreSeen ("a" ∷ ("b" ∷ [])) (sample_delta "a" ∷ (sample_delta "b" ∷ []))
FullSync-AreSeen_example = FullSync-AreSeen mailbox answers two_parts

-- A thread whose last message is a draft.
abbrev with_draft : GmailThread
with_draft = record {
  id = "t";
  messages =
      one_message "t" ∷ (record (one_message "t") { label_ids = "DRAFT" ∷ ("UNREAD" ∷ []) } ∷ []);
}

thread_delta-drafts_example :
    thread_delta go decoders 32 with_draft
    ≡ thread_delta go decoders 32
        (record with_draft { messages = select is_kept with_draft.messages })
thread_delta-drafts_example = thread_delta-drafts go decoders 32 with_draft

thread_delta-reads_example : ThreadReads go decoders 32 with_draft
thread_delta-reads_example = thread_delta-reads go decoders 32 with_draft

-- A quota error of the API, which the gate has deferred.
abbrev too_many : ApiError
too_many = record { code = 429; reasons = []; retry_seconds = none; retry_date = none }

abbrev api_errors : Inspect
api_errors = record {
  as_deferred = λ e. some (record { until = 9; cause = some (plain "quota") });
  as_api = λ e. some too_many;
  as_retrieve = λ e. none;
  is_net = λ e. false;
}

deferred-caused :
    (d : DeferredRetry) → api_errors.as_deferred (plain "quota") ≡ some d → d.cause ≢ none
deferred-caused d h k = ground (arith, h, k)

classify-retryable_example :
    retryable (classify api_errors (some (plain "quota")))
    ≡ (quota_limited (some too_many) || leb 500 429)
unfolding as_kind
classify-retryable_example =
    classify-retryable api_errors (plain "quota") too_many refl deferred-caused refl

sync-total_example : (fuel : ℕ) × (r : SyncResult) × (sync mailbox fuel (other_cursor "") ≡ some r)
sync-total_example = sync-total mailbox (other_cursor "")

-- A page of the archive of which the second thread fails at first.
abbrev archive_cursor : ArchiveCursor
archive_cursor = record {
  account = "acct";
  query = "";
  page = "";
  remaining = "a" ∷ ("b" ∷ ("c" ∷ []));
}

archive-Answers : Answers mailbox (λ id. ok (thread_of id))
unfolding is_not_found
archive-Answers i id = elim (Bool-cases (i == 3)) [
  | inl e ↦ inr (plain "reset", rw e refl, refl)
  | inr e ↦ inl (rw e refl)
]

history_page-resumes_example :
    IsMine mailbox "in:sent" (history_page mailbox 1 "in:sent" (archive_token archive_cursor)).token
    × ((history_page mailbox 1 "in:sent" (archive_token archive_cursor)).page_changes.upserted
          ++ ((history_page mailbox 5 "in:sent"
                (history_page mailbox 1 "in:sent"
                  (archive_token archive_cursor)).token).page_changes.upserted
              ++ found mailbox
                  (λ id. ok (thread_of id))
                  (cursor_of mailbox
                    (history_page mailbox 5 "in:sent"
                      (history_page mailbox 1 "in:sent"
                        (archive_token archive_cursor)).token).token).remaining)
        ≡ found mailbox (λ id. ok (thread_of id)) ("a" ∷ ("b" ∷ ("c" ∷ []))))
    × ((t : GmailThread)
        → get_thread_at 6 "b" ≡ ok t
        → (done : List String) × ("c" ∷ []
            ≡ done
              ++ (cursor_of mailbox
                  (history_page mailbox 5 "in:sent"
                    (history_page mailbox 1 "in:sent"
                      (archive_token archive_cursor)).token).token).remaining))
unfolding history_page IsMine cursor_of encode_archive_cursor is_not_found
history_page-resumes_example =
    history_page-resumes mailbox (λ id. ok (thread_of id)) archive-Answers 1 5 "in:sent" ""
      (archive_token archive_cursor) ("a" ∷ ("b" ∷ ("c" ∷ []))) "b" ("c" ∷ []) refl refl refl

-- A search of two pages.
abbrev search_two : ℕ → String → String → ℕ → Result (List String × String)
search_two i query token size =
    if token == "" then ok ("a" ∷ ("b" ∷ []), "next") else ok ("c" ∷ [], "")

abbrev searched : GmailProvider
searched = record mailbox { api = record mailbox.api { search_threads = search_two } }

abbrev next_token : Result (List String × String) → String
next_token (err e) = ""
next_token (ok (ids, next)) = next

abbrev token_rank : String → ℕ
token_rank token = if token == "" then 1 else 0

token_rank-falls :
    (i size : ℕ) (token next : String) (ids : List String)
    → search_two i "invoice" token size ≡ ok (ids, next)
    → (next == "") ≡ false
    → token_rank next < token_rank token
token_rank-falls i size token next ids h on = elim (Bool-cases (token == "")) [
  | inl e ↦ rw (e, on) (omega arith)
  | inr e ↦
      let ends : search_two i "invoice" token size ≡ ok ("c" ∷ [], "") = rw e refl in
      let same : "" ≡ next = ap next_token (sym ends ∙ h) in
      absurd (subst (λ n. (n == "") ≢ false) same (λ k. ground (arith, k)) on)
]

search_remote-total_example : EndsWithin searched 2 (search_remote searched 2 "invoice" 2)
search_remote-total_example =
    search_remote-total searched "invoice" token_rank token_rank-falls 2 2 (omega arith)
