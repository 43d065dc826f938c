-- ===== src/Microsoft/Message/Folded.antt =====
-- microsoft.go, what `threadDelta` makes of the messages of a conversation.
use dankmail.Base.{
  ℕ, suc, ◌≤◌, ◌<◌, String, Bool, true, false, not, ◌||◌, List, [], ◌∷◌, Option, sym, string_eq,
  ◌≡◌, refl, ◌∙◌, arith, Bool-cases, inl, inr, if◌then◌else◌, length, length-append, All,
}
use dankmail.Errdefs.{Result, err, ok}
use dankmail.Provider.{ThreadDelta}
use dankmail.Gmail.Sync.Falls.{Result-cases}
use dankmail.Microsoft.Message.{
  GraphMessage, Texts, Folding, MicrosoftProvider, read_folder, fold_message, fold_messages,
  finish_folding, nothing_folded, folders, thread_delta,
}

read_folder-keeps :
    (ids : Texts) (folder : String) (t : ThreadDelta)
    → ((read_folder ids folder t).thread_id ≡ t.thread_id)
      × ((read_folder ids folder t).messages ≡ t.messages)
unfolding read_folder
read_folder-keeps ids folder t = ground arith

module _ (p : MicrosoftProvider) where
  -- A draft adds nothing, another message one.
  abbrev Grows : Bool → Folding → Folding → Type 0
  Grows draft r r' =
      (r'.so_far.thread_id ≡ r.so_far.thread_id)
      × (length r'.so_far.messages
          ≡ (if draft then length r.so_far.messages else suc (length r.so_far.messages)))

  fold_message-Grows :
      (ids : Texts) (r : Folding) (m : GraphMessage) → Grows m.is_draft r (fold_message p ids r m)
  unfolding fold_message
  fold_message-Grows ids r m =
      let t = record r.so_far {
        unread = r.so_far.unread || not m.is_read;
        starred = r.so_far.starred || m.flagged;
      } in
      let keeps = read_folder-keeps ids m.parent_folder_id t in
      elim (Bool-cases m.is_draft) [
        | inl e ↦ rw e (refl, refl)
        | inr e ↦ rw e (
          keeps.0,
          length-append (read_folder ids m.parent_folder_id t).messages _
              ∙ rw (keeps.1) (omega arith),
        )
      ]

  Grows-le :
      (draft : Bool) (r r' : Folding)
      → Grows draft r r'
      → length r.so_far.messages ≤ length r'.so_far.messages
  Grows-le true r r' h = omega (arith, h.1)
  Grows-le false r r' h = omega (arith, h.1)

  Grows-lt :
      (draft : Bool) (r r' : Folding)
      → Grows draft r r'
      → draft ≡ false
      → length r.so_far.messages < length r'.so_far.messages
  Grows-lt true r r' h e = ground arith
  Grows-lt false r r' h e = omega (arith, h.1)

  fold_messages-thread_id :
      (ids : Texts) (r : Folding) (ms : List GraphMessage)
      → (fold_messages p ids r ms).so_far.thread_id ≡ r.so_far.thread_id
  unfolding fold_messages
  fold_messages-thread_id ids r [] = refl
  fold_messages-thread_id ids r (m ∷ ms) =
      fold_messages-thread_id ids (fold_message p ids r m) ms ∙ (fold_message-Grows ids r m).0

  fold_messages-grows :
      (ids : Texts) (r : Folding) (ms : List GraphMessage)
      → length r.so_far.messages ≤ length (fold_messages p ids r ms).so_far.messages
  unfolding fold_messages
  fold_messages-grows ids r [] = omega arith
  fold_messages-grows ids r (m ∷ ms) = omega (
    arith,
    fold_messages-grows ids (fold_message p ids r m) ms,
    Grows-le m.is_draft r (fold_message p ids r m) (fold_message-Grows ids r m),
  )

  fold_messages-drafts :
      (ids : Texts) (r : Folding) (ms : List GraphMessage)
      → length (fold_messages p ids r ms).so_far.messages ≡ 0
      → All (λ m. m.is_draft ≡ true) ms
  unfolding fold_messages
  fold_messages-drafts ids r [] h = tt
  fold_messages-drafts ids r (m ∷ ms) h =
      let later = fold_messages-grows ids (fold_message p ids r m) ms in
      elim (Bool-cases m.is_draft) [
        | inl e ↦ (e, fold_messages-drafts ids (fold_message p ids r m) ms h)
        | inr e ↦ absurd (
            omega (
              arith,
              later,
              h,
              Grows-lt m.is_draft r (fold_message p ids r m) (fold_message-Grows ids r m) e,
            ))
      ]

  finish_folding-keeps :
      (r : Folding)
      → ((finish_folding p r).thread_id ≡ r.so_far.thread_id)
        × ((finish_folding p r).message_count ≡ length r.so_far.messages)
  unfolding finish_folding
  finish_folding-keeps r = ground arith

  -- Of the delta of a conversation: its id, and what it means that it has no message.
  abbrev pub IsDeltaOf : String → List GraphMessage → Result (ThreadDelta × Texts) → Type 0
  IsDeltaOf id ms (err e) = Unit {0}
  IsDeltaOf id ms (ok pair) =
      (pair.0.thread_id ≡ id) × (pair.0.message_count ≡ 0 → All (λ m. m.is_draft ≡ true) ms)

  pub thread_delta-IsDeltaOf :
      (i : ℕ) (cached : Option Texts) (id : String) (ms : List GraphMessage)
      → IsDeltaOf id ms (thread_delta p i cached id ms)
  unfolding thread_delta
  thread_delta-IsDeltaOf i cached id ms = elim (Result-cases (folders p i cached)) [
    | inl (e, k) ↦ rw (k, thread_delta) tt
    | inr (ids, k) ↦
        let r = fold_messages p ids (nothing_folded p id) ms in
        rw (k, thread_delta)
          (
            (finish_folding-keeps r).0 ∙ fold_messages-thread_id ids (nothing_folded p id) ms,
            λ none_left.
                fold_messages-drafts ids (nothing_folded p id) ms
                  (sym (finish_folding-keeps r).1 ∙ none_left),
          )
  ]
