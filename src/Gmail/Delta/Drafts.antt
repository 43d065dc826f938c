-- ===== src/Gmail/Delta/Drafts.antt =====
-- gmail.go, what a thread's delta says of its messages, and that its drafts do not count.
use dankmail.Base.{
  ℕ, String, Bool, true, false, not, List, [], ◌∷◌, ◌++◌, select, select-hit, select-miss, contains,
  contains-append, IsDistinct, All, All-append, string_eq, GoText, ◌≡◌, refl, ap, ◌∙◌, sym, arith,
  inl, inr, Bool-cases,
}
use dankmail.Provider.{ThreadDelta}
use dankmail.Gmail.Message.{GmailMessage, GmailThread, Decoders, has_label, is_system_label}
use dankmail.Gmail.Delta.{
  Reading, read_label, read_message, read_messages, nothing_read, finish_reading, thread_delta,
}

-- The messages that are no drafts.
unfoldable pub is_kept : GmailMessage → Bool
is_kept m = not (has_label m "DRAFT")

IsDistinct-snoc :
    (l : String) (xs : List String)
    → IsDistinct xs
    → contains l xs ≡ false
    → IsDistinct (xs ++ (l ∷ []))
unfolding contains
IsDistinct-snoc l [] h fresh = (refl, tt)
IsDistinct-snoc l (x ∷ xs) h fresh =
    let step = IsDistinct-snoc l xs h.1 (ground arith) in
    (
      contains-append x xs (l ∷ [])
          ∙ ground (arith, h.0, string_eq.agrees x l, string_eq.agrees l x),
      step,
    )

-- No label twice, and no system label.
abbrev pub LabelsAreClean : List String → Type 0
LabelsAreClean labels = IsDistinct labels × All (λ l. is_system_label l ≡ false) labels

pub read_label-LabelsAreClean :
    (t : ThreadDelta) (l : String)
    → LabelsAreClean t.labels
    → LabelsAreClean (read_label t l).labels
unfolding read_label
read_label-LabelsAreClean t l h = elim (Bool-cases (is_system_label l)) [
  | inl e ↦ rw e h
  | inr e ↦ elim (Bool-cases (contains l t.labels)) [
    | inl k ↦ rw e (rw k h)
    | inr k ↦ rw e (
        rw k (
          IsDistinct-snoc l t.labels h.0 k,
          All-append (λ l. is_system_label l ≡ false) t.labels (l ∷ []) h.1 (e, tt),
        ))
  ]
]

module _ (go : GoText) (d : Decoders) (body_cap : ℕ) where
  read_message-draft :
      (r : Reading) (m : GmailMessage)
      → has_label m "DRAFT" ≡ true
      → read_message go d body_cap r m ≡ r
  unfolding read_message
  read_message-draft r m e = rw e

  read_messages-drafts :
      (r : Reading) (ms : List GmailMessage)
      → read_messages go d body_cap r ms ≡ read_messages go d body_cap r (select is_kept ms)
  unfolding read_messages read_message is_kept select
  read_messages-drafts r [] = refl
  read_messages-drafts r (m ∷ ms) = elim (Bool-cases (has_label m "DRAFT")) [
    | inl e ↦
        ap (λ r'. read_messages go d body_cap r' ms) (read_message-draft r m e)
        ∙ read_messages-drafts r ms
        ∙ ap (read_messages go d body_cap r) (sym (select-miss is_kept m ms (rw e)))
    | inr e ↦
        read_messages-drafts (read_message go d body_cap r m) ms
        ∙ ap (read_messages go d body_cap r) (sym (select-hit is_kept m ms (rw e)))
  ]

  -- The drafts of a thread have no influence on its delta: it is the delta of the thread without them.
  pub thread_delta-drafts :
      (t : GmailThread)
      → thread_delta go d body_cap t
        ≡ thread_delta go d body_cap (record t { messages = select is_kept t.messages })
  unfolding thread_delta
  thread_delta-drafts t =
      ap (finish_reading go d body_cap) (read_messages-drafts (nothing_read t.id) t.messages)
