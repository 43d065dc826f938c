-- ===== src/Microsoft/Actions.antt =====
-- core/internal/provider/microsoft/microsoft.go: the actions on the messages of conversations. What the
-- Graph API answers to a call, from the calls before it, is a parameter. That the ids of the folders are
-- kept for the next action is left out: an action begins with what is kept.
pub mod Moves
use dankmail.Base.{
  ℕ, zero, suc, String, Bool, true, false, not, List, [], ◌∷◌, ◌++◌, Option, none, some, ◌==◌,
  string_eq, if◌then◌else◌,
}
use dankmail.Errdefs.{Error, Failure, Result, err, ok}
use dankmail.Provider.{Flag, unread, starred}
use dankmail.Microsoft.Errors.{classify}
use dankmail.Microsoft.Message.{GraphMessage, Texts, MicrosoftProvider, text_at, folders}

-- The properties that a call changes: `isRead` and `flag`.
pub record Patch : Type 0 where
  pub is_read : Option Bool
  pub flagged : Option Bool

pub data GraphCall : Type 0 where
  patch_message : String → Patch → GraphCall
  move_message : String → String → GraphCall

-- The calls made so far, the first first, and the error that the action returns.
pub record Acted : Type 0 where
  pub calls : List GraphCall
  pub failure : Failure

add_flag : Patch → Flag → Patch
add_flag patch unread = record patch { is_read = some false }
add_flag patch starred = record patch { flagged = some true }

remove_flag : Patch → Flag → Patch
remove_flag patch unread = record patch { is_read = some true }
remove_flag patch starred = record patch { flagged = some false }

fold_flags : (Patch → Flag → Patch) → Patch → List Flag → Patch
fold_flags step patch [] = patch
fold_flags step patch (f ∷ fs) = fold_flags step (step patch f) fs

unfoldable pub patch_of : List Flag → List Flag → Patch
unfolding fold_flags add_flag remove_flag
patch_of add remove =
    fold_flags remove_flag (fold_flags add_flag (record { is_read = none; flagged = none }) add)
      remove

unfoldable pub is_empty_patch : Patch → Bool
is_empty_patch patch = elim patch.is_read [
  | some b ↦ false
  | none ↦ elim patch.flagged [ some b ↦ false | none ↦ true ]
]

module _ (p : MicrosoftProvider) (answer : GraphCall → List GraphCall → Failure) where
  -- The loop over the messages of a conversation: `act` is the call for a message, if there is one.
  unfoldable pub act_on :
      (GraphMessage → Option GraphCall) → List GraphMessage → List GraphCall → Acted
  unfolding classify
  act_on act [] calls = record { calls = calls; failure = none }
  act_on act (m ∷ ms) calls = elim (act m) [
    | none ↦ act_on act ms calls
    | some call ↦ elim (answer call calls) [
      | some e ↦ record { calls = calls ++ (call ∷ []); failure = classify p.as_graph (some e) }
      | none ↦ act_on act ms (calls ++ (call ∷ []))
    ]
  ]

  unfoldable pub each_message :
      ℕ → List String → (GraphMessage → Option GraphCall) → List GraphCall → Acted
  unfolding act_on classify
  each_message i [] act calls = record { calls = calls; failure = none }
  each_message i (id ∷ ids) act calls = elim (p.api.list_conversation i id) [
    | err e ↦ record { calls = calls; failure = classify p.as_graph (some e) }
    | ok msgs ↦
        let acted = act_on act msgs calls in
        elim acted.failure [ some e ↦ acted | none ↦ each_message (suc i) ids act acted.calls ]
  ]

  unfoldable pub modify_flags : List String → List Flag → List Flag → Acted
  unfolding each_message patch_of is_empty_patch
  modify_flags ids add remove =
      let patch = patch_of add remove in
      if is_empty_patch patch
      then record { calls = []; failure = none }
      else each_message 0 ids (λ m. some (patch_message m.id patch)) []

  abbrev move_if : Bool → String → GraphMessage → Option GraphCall
  move_if b folder m = if b then some (move_message m.id folder) else none

  -- The call for a message of `moveFromTo`.
  unfoldable pub move_between : Texts → String → String → GraphMessage → Option GraphCall
  unfolding text_at
  move_between ids from_folder to_folder m =
      move_if (m.parent_folder_id == text_at from_folder ids) to_folder m

  -- The call for a message of `Trash` and `Spam`.
  unfoldable pub move_into : Texts → String → GraphMessage → Option GraphCall
  unfolding text_at
  move_into ids folder m = move_if (not (m.parent_folder_id == text_at folder ids)) folder m

  -- An action that begins with the ids of the folders.
  unfoldable pub with_folders :
      Option Texts → List String → (Texts → GraphMessage → Option GraphCall) → Acted
  unfolding folders each_message classify
  with_folders cached ids act = elim (folders p 0 cached) [
    | err e ↦ record { calls = []; failure = classify p.as_graph (some e) }
    | ok folder_ids ↦ each_message 0 ids (act folder_ids) []
  ]

  unfoldable pub move_from_to : Option Texts → List String → String → String → Acted
  unfolding with_folders move_between
  move_from_to cached ids from_folder to_folder =
      with_folders cached ids (λ folder_ids. move_between folder_ids from_folder to_folder)

  unfoldable pub archive : Option Texts → List String → Acted
  unfolding move_from_to
  archive cached ids = move_from_to cached ids "inbox" "archive"

  unfoldable pub unarchive : Option Texts → List String → Acted
  unfolding move_from_to
  unarchive cached ids = move_from_to cached ids "archive" "inbox"

  unfoldable pub unspam : Option Texts → List String → Acted
  unfolding move_from_to
  unspam cached ids = move_from_to cached ids "junkemail" "inbox"

  unfoldable pub trash : Option Texts → List String → Acted
  unfolding with_folders move_into
  trash cached ids = with_folders cached ids (λ folder_ids. move_into folder_ids "deleteditems")

  unfoldable pub spam : Option Texts → List String → Acted
  unfolding with_folders move_into
  spam cached ids = with_folders cached ids (λ folder_ids. move_into folder_ids "junkemail")
