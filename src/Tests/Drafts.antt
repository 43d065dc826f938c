-- ===== src/Tests/Drafts.antt =====
-- The store of drafts on concrete data.
use dankmail.Base.{
  ℕ, String, true, false, List, [], ◌∷◌, none, some, ◌≡◌, refl, string_eq, contains, is_some,
  lookup, insert, remove,
}
use dankmail.Errdefs.{plain}
use dankmail.Drafts.{
  DraftView, DraftItem, Items, Files, Store, whole, cut, cut_at, reread_snippet, no_draft, get,
  persist_locked, new_store, delete, reread,
}
use dankmail.Drafts.Contents.{view}
use dankmail.Drafts.Abstract.{
  Operation, saves, deletes, restarts, operate_all, specify_all, AreNamed, operate_all-view,
}
use dankmail.Drafts.Saving.Restart.{restarted, persisted, filed_draft, new_store-persist_locked}
use dankmail.Drafts.Saving.Filed.{IsFiled}
use dankmail.Drafts.Merging.{merge_remote, merge_store, by_provider_id, seen_remote, is_remote_of}
use dankmail.Drafts.Merging.Frame.{IsLocal}
use dankmail.Drafts.Merging.Remote.{merge_remote_lem}
use dankmail.Drafts.Merging.Filed.{merge_remote-IsFiled}
use dankmail.Tests.Samples.{go}

abbrev files : Files
files = record {
  stat = λ p. none;
  base_name = λ p. p;
  extension = λ p. "";
  type_by_extension = λ e. "";
}

abbrev local_draft : DraftView
local_draft = record no_draft { id = "l"; account_id = "acct"; body = "not sent"; updated_at = 5 }

abbrev vanished_draft : DraftView
vanished_draft = record no_draft {
  id = "v";
  account_id = "acct";
  provider_draft_id = "r9";
  updated_at = 9;
}

abbrev known_draft : DraftView
known_draft = record no_draft {
  id = "k";
  account_id = "acct";
  provider_draft_id = "r1";
  updated_at = 7;
}

abbrev items : Items
items = ("l", local_draft) ∷ (("v", vanished_draft) ∷ (("k", known_draft) ∷ []))

items-IsFiled : IsFiled items
unfolding IsFiled lookup
items-IsFiled = ((refl, refl, refl, (refl, refl, refl, (refl, refl, refl, tt))))

abbrev remote_draft : DraftItem
remote_draft = record {
  provider_draft_id = "r1";
  provider_message_id = "m";
  provider_thread_id = "t";
  in_reply_to = "";
  to = [];
  cc = [];
  bcc = [];
  subject = "s";
  body = "b";
  snippet = "b";
  updated_at = 1;
  attachments = [];
}

abbrev store : Store
store = record { path = "/drafts.json"; items = items; file = some (local_draft ∷ []) }

new_store-persist_locked_example :
    (get "v" (new_store none "/drafts.json" (persist_locked none store).0.file).items
      ≡ restarted "/drafts.json" none
          (persisted "/drafts.json" none (λ k. get k items) (filed_draft (some (local_draft ∷ []))))
          "v")
    × ((d : DraftView) (s : String) → d.snippet ≡ whole s → reread d ≡ d)
new_store-persist_locked_example = new_store-persist_locked none none store "v" items-IsFiled

-- The deletion is not written, so the restart brings the draft back.
abbrev operations : List Operation
operations =
    saves "n" 3 no_draft none ∷ (deletes "v" (some (plain "disk full")) ∷ (restarts none ∷ []))

operate_all-view_example :
    view (operate_all go files operations store) ≡ specify_all go files operations (view store)
unfolding AreNamed
operate_all-view_example =
    operate_all-view go files operations store (refl, (tt, (tt, tt))) items-IsFiled

-- The third byte is the first one of a character that has two.
cut_run :
    (cut_at 3 "abéd" "…" ≡ cut "ab" 1 "…") × (reread_snippet (cut_at 3 "abéd" "…") ≡ whole "ab�…")
unfolding cut_at reread_snippet
cut_run = (refl, refl)

abbrev new_ids : ℕ → String
new_ids n = "new"

merge_remote_lem_example :
    (IsLocal "acct" (get "v" items)
      → get "v" (merge_remote go "acct" 3 new_ids (remote_draft ∷ []) items) ≡ get "v" items)
    × ((key : String)
        → lookup key (by_provider_id "acct" items []) ≡ some "v"
        → contains key (seen_remote (remote_draft ∷ [])) ≡ false
        → get "v" (merge_remote go "acct" 3 new_ids (remote_draft ∷ []) items) ≡ none)
    × ((d : DraftView)
        → get "v" items ≡ some d
        → contains d.provider_draft_id (seen_remote (remote_draft ∷ [])) ≡ true
        → is_some (get "v" (merge_remote go "acct" 3 new_ids (remote_draft ∷ []) items)) ≡ true)
merge_remote_lem_example =
    merge_remote_lem go "acct" 3 new_ids (remote_draft ∷ []) items "v" items-IsFiled (λ n. refl)

merge_remote-IsFiled_example :
    IsFiled (merge_remote go "acct" 3 new_ids (remote_draft ∷ []) items)
    × IsFiled (merge_store go "acct" 3 new_ids (remote_draft ∷ []) none store).items
    × IsFiled (delete "v" none store).2.items
merge_remote-IsFiled_example =
    merge_remote-IsFiled go "acct" 3 new_ids (λ n. refl) (remote_draft ∷ []) none store "v"
      items-IsFiled

-- The vanished draft goes, the local one stays, and the known one takes the remote body.
merged_run :
    (get "v" (merge_remote go "acct" 3 new_ids (remote_draft ∷ []) items) ≡ none)
    × (get "l" (merge_remote go "acct" 3 new_ids (remote_draft ∷ []) items) ≡ some local_draft)
unfolding merge_remote get contains lookup is_remote_of insert remove
merged_run = (refl, refl)
