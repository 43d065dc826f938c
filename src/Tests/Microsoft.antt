-- ===== src/Tests/Microsoft.antt =====
-- The Outlook provider on a concrete mailbox.
use dankmail.Base.{
  Bool, not, lookup, String, true, false, List, [], ◌∷◌, none, some, ◌≡◌, refl, ◌==◌, string_eq,
  if◌then◌else◌, arith, Option,
}
use dankmail.Errdefs.{Failure, Error, Result, err, ok, plain}
use dankmail.Tests.Samples.{go}
use dankmail.Microsoft.Errors.{GraphError}
use dankmail.Microsoft.Message.{GraphMessage, MicrosoftProvider, Texts, folders}
use dankmail.Provider.{unread, starred}
use dankmail.Microsoft.Actions.{
  GraphCall, patch_message, move_message, patch_of, each_message, modify_flags, archive, unarchive,
  unspam, trash, spam,
}
use dankmail.Microsoft.Actions.Moves.{MakesFirst, moves, listed_messages, archive-MakesFirst}
use dankmail.Microsoft.Checkpoint.{GraphCheckpoint, GraphResult, unset, delta_links}
use dankmail.Microsoft.Sync.{sync}
use dankmail.Microsoft.Sync.Ending.{graph_sync-total}

abbrev message_of : String → GraphMessage
message_of conversation = record {
  id = "m";
  conversation_id = conversation;
  internet_message_id = "";
  subject = "hello";
  body_preview = "";
  from = "ada@example.org";
  to = [];
  cc = [];
  received_at = 5;
  is_read = false;
  flagged = false;
  parent_folder_id = "f1";
  has_attachments = false;
  is_draft = false;
  body_text = "";
  headers = [];
  attachments = [];
  removed = false;
}

abbrev answer_for : String → Result (List GraphMessage)
answer_for id = if id == "gone" then err (plain "404") else ok (message_of id ∷ [])

abbrev not_found : Error → Option GraphError
not_found e = some (record { status = 404; code = ""; msg = ""; until = 0 })

abbrev outlook : MicrosoftProvider
outlook = record {
  account_id = "acct";
  body_cap = 32;
  api = record {
    delta_messages = λ i folder link. ok (record {
      messages = message_of "a" ∷ (message_of "a" ∷ []);
      next_link = "";
      delta_link = "next";
    });
    get_message = λ i id. ok (message_of "b");
    list_conversation = λ i id. answer_for id;
    get_folder_ids = λ i. ok (("inbox", "f1") ∷ []);
    context_err = λ i. none;
  };
  as_graph = not_found;
  go = go;
}

graph_sync-total_example : (r : GraphResult) × (sync outlook 28 none unset ≡ some r)
graph_sync-total_example = graph_sync-total outlook 28 none unset (omega arith)

abbrev half_listed : GraphCheckpoint
half_listed = record {
  account = "acct";
  full = false;
  state = [];
  folder = 2;
  link = "";
  phase = "threads";
  pending = "gone" ∷ ("a" ∷ []);
  removed = [];
  seen = [];
}

abbrev listed_result : GraphResult
listed_result = record {
  changes = record {
    incomplete = false;
    snapshot_thread_ids = [];
    full_resync = false;
    backfill = false;
    upserted =
        record {
          thread_id = "a";
          subject = "hello";
          snippet = "";
          last_message = 5;
          participants = "ada@example.org" ∷ [];
          unread = true;
          starred = false;
          in_inbox = true;
          labels = [];
          message_count = 1;
          messages =
              record {
                message_id = "m";
                rfc822_message_id = "";
                is_sent = false;
                from = "ada@example.org";
                to = [];
                cc = [];
                date = 5;
                snippet = "";
                body_text = "";
                attachments = [];
                reply_headers = ("Subject", "hello") ∷ [];
              }
              ∷ [];
        }
        ∷ [];
    removed_thread_ids = "gone" ∷ [];
  };
  cursor = delta_links (some []);
  failure = none;
  folder_ids = some (("inbox", "f1") ∷ []);
}

abbrev accepting : GraphCall → List GraphCall → Failure
accepting call calls = none

-- The folders of the mailbox, and a mailbox that has them.
abbrev known_folders : Texts
known_folders =
    ("inbox", "f1") ∷ (("archive", "f2") ∷ (("junkemail", "f3") ∷ (("deleteditems", "f4") ∷ [])))

abbrev wanted_moves : (GraphMessage → Bool) → String → List GraphCall
wanted_moves test folder =
    moves outlook accepting test folder (listed_messages outlook accepting 0 ("a" ∷ ("gone" ∷ [])))

archive-MakesFirst_example :
    MakesFirst
      (wanted_moves (λ m. m.parent_folder_id == "f1") "archive")
      (archive outlook accepting (some known_folders) ("a" ∷ ("gone" ∷ [])))
    × MakesFirst
        (wanted_moves (λ m. m.parent_folder_id == "f2") "inbox")
        (unarchive outlook accepting (some known_folders) ("a" ∷ ("gone" ∷ [])))
    × MakesFirst
        (wanted_moves (λ m. m.parent_folder_id == "f3") "inbox")
        (unspam outlook accepting (some known_folders) ("a" ∷ ("gone" ∷ [])))
    × MakesFirst
        (wanted_moves (λ m. not (m.parent_folder_id == "f4")) "deleteditems")
        (trash outlook accepting (some known_folders) ("a" ∷ ("gone" ∷ [])))
    × MakesFirst
        (wanted_moves (λ m. not (m.parent_folder_id == "f3")) "junkemail")
        (spam outlook accepting (some known_folders) ("a" ∷ ("gone" ∷ [])))
unfolding folders lookup
archive-MakesFirst_example =
    archive-MakesFirst outlook accepting (some known_folders) known_folders ("a" ∷ ("gone" ∷ []))
      "f1" "f2" "f3" "f4" refl refl refl refl refl

archive_run : (archive outlook accepting none ("a" ∷ [])).calls ≡ move_message "m" "archive" ∷ []
unfolding archive folders each_message
archive_run = refl

flags_run :
    (modify_flags outlook accepting ("a" ∷ []) (starred ∷ []) (unread ∷ [])).calls
    ≡ patch_message "m" (record { is_read = some true; flagged = some true }) ∷ []
unfolding modify_flags patch_of each_message
flags_run = refl
