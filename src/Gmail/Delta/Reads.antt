-- ===== src/Gmail/Delta/Reads.antt =====
-- gmail.go, what a thread's delta says of the messages that it was read from.
use dankmail.Base.{
  ℕ, String, Bool, true, false, not, ◌||◌, List, [], ◌∷◌, ◌++◌, map, select, exists, contains,
  length, All, ◌==◌, string_eq, GoText, ◌≡◌, refl, ap, ◌∙◌, sym, arith, inl, inr, Bool-cases,
  Option-cases, select-All, All-map, subst, suc, append-nil, append_assoc,
}
use dankmail.Provider.{ThreadDelta, MessageDelta}
use dankmail.Gmail.Message.{GmailMessage, GmailThread, Decoders, has_label}
use dankmail.Gmail.Delta.{
  message_delta, Reading, read_label, read_labels, read_message, read_messages, nothing_read,
  finish_reading, thread_delta,
}
use dankmail.Gmail.Delta.Drafts.{
  is_kept, thread_delta-drafts, LabelsAreClean, read_label-LabelsAreClean,
}

or_assoc : (a b c : Bool) → ((a || b) || c) ≡ (a || (b || c))
or_assoc a b c = ground arith

-- What a reading says of flags, labels and messages, after the messages `ms` that are no drafts.
record Reads (before after : ThreadDelta) (texts : List MessageDelta) (ms : List GmailMessage)
    : Type 0 where
  messages_read : after.messages ≡ before.messages ++ texts
  unread_read : after.unread ≡ (before.unread || exists (λ m. has_label m "UNREAD") ms)
  starred_read : after.starred ≡ (before.starred || exists (λ m. has_label m "STARRED") ms)
  inbox_read : after.in_inbox ≡ (before.in_inbox || exists (λ m. has_label m "INBOX") ms)
  labels_read : LabelsAreClean before.labels → LabelsAreClean after.labels

read_labels-frame :
    (t : ThreadDelta) (ls : List String)
    → ((read_labels t ls).messages ≡ t.messages)
      × ((read_labels t ls).unread ≡ (t.unread || contains "UNREAD" ls))
      × ((read_labels t ls).starred ≡ (t.starred || contains "STARRED" ls))
      × ((read_labels t ls).in_inbox ≡ (t.in_inbox || contains "INBOX" ls))
      × (LabelsAreClean t.labels → LabelsAreClean (read_labels t ls).labels)
unfolding read_labels read_label contains
read_labels-frame t [] = (refl, ground arith, ground arith, ground arith, λ h. h)
read_labels-frame t (l ∷ ls) =
    let step = read_labels-frame (read_label t l) ls in
    (
      step.0,
      step.1 ∙ or_assoc t.unread (l == "UNREAD") _,
      step.2 ∙ or_assoc t.starred (l == "STARRED") _,
      step.3 ∙ or_assoc t.in_inbox (l == "INBOX") _,
      λ h. step.4 (read_label-LabelsAreClean t l h),
    )

module _ (go : GoText) (d : Decoders) (body_cap : ℕ) where
  read_message-Reads :
      (r : Reading) (m : GmailMessage)
      → has_label m "DRAFT" ≡ false
      → Reads r.so_far
          (read_message go d body_cap r m).so_far
          (message_delta go d body_cap m ∷ [])
          (m ∷ [])
  unfolding read_message exists has_label
  read_message-Reads r m e =
      let step = read_labels-frame r.so_far m.label_ids in
      rw (e) (record {
        messages_read = ap (λ xs. xs ++ (message_delta go d body_cap m ∷ [])) step.0;
        unread_read = step.1 ∙ ground arith;
        starred_read = step.2 ∙ ground arith;
        inbox_read = step.3 ∙ ground arith;
        labels_read = step.4;
      })

  Reads-trans :
      (a b c : ThreadDelta) (m : GmailMessage) (ms : List GmailMessage)
      → Reads a b (message_delta go d body_cap m ∷ []) (m ∷ [])
      → Reads b c (map (message_delta go d body_cap) ms) ms
      → Reads a c (map (message_delta go d body_cap) (m ∷ ms)) (m ∷ ms)
  unfolding exists
  Reads-trans a b c m ms p q = record {
    messages_read =
        q.messages_read
        ∙ ap (λ xs. xs ++ map (message_delta go d body_cap) ms) p.messages_read
        ∙ append_assoc a.messages (message_delta go d body_cap m ∷ [])
            (map (message_delta go d body_cap) ms);
    unread_read = ground (arith, p.unread_read, q.unread_read);
    starred_read = ground (arith, p.starred_read, q.starred_read);
    inbox_read = ground (arith, p.inbox_read, q.inbox_read);
    labels_read = λ h. q.labels_read (p.labels_read h);
  }

  read_messages-Reads :
      (r : Reading) (ms : List GmailMessage)
      → All (λ m. has_label m "DRAFT" ≡ false) ms
      → Reads r.so_far
          (read_messages go d body_cap r ms).so_far
          (map (message_delta go d body_cap) ms)
          ms
  unfolding read_messages exists
  read_messages-Reads r [] h = record {
    messages_read = sym (append-nil r.so_far.messages);
    unread_read = ground arith;
    starred_read = ground arith;
    inbox_read = ground arith;
    labels_read = λ k. k;
  }
  read_messages-Reads r (m ∷ ms) h =
      let r' = read_message go d body_cap r m in
      Reads-trans r.so_far r'.so_far (read_messages go d body_cap r' ms).so_far m ms
        (read_message-Reads r m h.0) (read_messages-Reads r' ms h.1)

  finish_reading-same :
      (r : Reading)
      → ((finish_reading go d body_cap r).messages ≡ r.so_far.messages)
        × ((finish_reading go d body_cap r).message_count ≡ length r.so_far.messages)
        × ((finish_reading go d body_cap r).unread ≡ r.so_far.unread)
        × ((finish_reading go d body_cap r).starred ≡ r.so_far.starred)
        × ((finish_reading go d body_cap r).in_inbox ≡ r.so_far.in_inbox)
        × ((finish_reading go d body_cap r).labels ≡ r.so_far.labels)
  unfolding finish_reading
  finish_reading-same r = elim (Option-cases r.newest) [
    | inl e ↦ rw (e) (refl, refl, refl, refl, refl, refl)
    | inr (m, e) ↦ rw (e) (refl, refl, refl, refl, refl, refl)
  ]

  length-map-message_delta :
      (ms : List GmailMessage) → length (map (message_delta go d body_cap) ms) ≡ length ms
  length-map-message_delta [] = refl
  length-map-message_delta (m ∷ ms) = ap suc (length-map-message_delta ms)

  kept : (ms : List GmailMessage) → All (λ m. has_label m "DRAFT" ≡ false) (select is_kept ms)
  unfolding is_kept
  kept ms =
      All-map (λ m. not (has_label m "DRAFT") ≡ true) (λ m. has_label m "DRAFT" ≡ false)
        (select is_kept ms) (λ m h. ground (arith, h))
        (select-All (λ m. not (has_label m "DRAFT")) ms)

  -- What the delta of a thread says, by its messages that are no drafts.
  abbrev pub ThreadReads : GmailThread → Type 0
  ThreadReads t =
      ((thread_delta go d body_cap t).messages
        ≡ map (message_delta go d body_cap) (select is_kept t.messages))
      × ((thread_delta go d body_cap t).message_count ≡ length (select is_kept t.messages))
      × ((thread_delta go d body_cap t).unread
          ≡ exists (λ m. has_label m "UNREAD") (select is_kept t.messages))
      × ((thread_delta go d body_cap t).starred
          ≡ exists (λ m. has_label m "STARRED") (select is_kept t.messages))
      × ((thread_delta go d body_cap t).in_inbox
          ≡ exists (λ m. has_label m "INBOX") (select is_kept t.messages))
      × LabelsAreClean (thread_delta go d body_cap t).labels

  -- A thread's delta holds the deltas of its messages that are no drafts, in order, and counts them; it
  -- is unread, starred or in the inbox exactly if one of these has the label; and its list of labels
  -- names none twice and no system label.
  pub thread_delta-reads : (t : GmailThread) → ThreadReads t
  unfolding thread_delta
  thread_delta-reads t =
      let ms = select is_kept t.messages in
      let r = read_messages go d body_cap (nothing_read t.id) ms in
      let end = finish_reading-same r in
      let reads = read_messages-Reads (nothing_read t.id) ms (kept t.messages) in
      rw (thread_delta-drafts go d body_cap t, thread_delta)
        (
          end.0 ∙ reads.messages_read,
          end.1 ∙ ap length reads.messages_read ∙ length-map-message_delta ms,
          end.2 ∙ reads.unread_read,
          end.3 ∙ reads.starred_read,
          end.4 ∙ reads.inbox_read,
          subst LabelsAreClean (sym end.5) (reads.labels_read (tt, tt)),
        )

  read_labels-thread_id :
      (t : ThreadDelta) (ls : List String) → (read_labels t ls).thread_id ≡ t.thread_id
  unfolding read_labels read_label
  read_labels-thread_id t [] = refl
  read_labels-thread_id t (l ∷ ls) = read_labels-thread_id (read_label t l) ls

  read_message-thread_id :
      (r : Reading) (m : GmailMessage)
      → (read_message go d body_cap r m).so_far.thread_id ≡ r.so_far.thread_id
  unfolding read_message
  read_message-thread_id r m = elim (Bool-cases (has_label m "DRAFT")) [
    | inl e ↦ rw (e) refl
    | inr e ↦ rw (e) (read_labels-thread_id r.so_far m.label_ids)
  ]

  read_messages-thread_id :
      (r : Reading) (ms : List GmailMessage)
      → (read_messages go d body_cap r ms).so_far.thread_id ≡ r.so_far.thread_id
  unfolding read_messages
  read_messages-thread_id r [] = refl
  read_messages-thread_id r (m ∷ ms) =
      read_messages-thread_id (read_message go d body_cap r m) ms ∙ read_message-thread_id r m

  finish_reading-thread_id :
      (r : Reading) → (finish_reading go d body_cap r).thread_id ≡ r.so_far.thread_id
  unfolding finish_reading
  finish_reading-thread_id r = elim (Option-cases r.newest) [
    | inl e ↦ rw (e) refl
    | inr (m, e) ↦ rw (e) refl
  ]

  pub thread_delta-thread_id : (t : GmailThread) → (thread_delta go d body_cap t).thread_id ≡ t.id
  unfolding thread_delta
  thread_delta-thread_id t =
      finish_reading-thread_id (read_messages go d body_cap (nothing_read t.id) t.messages)
      ∙ read_messages-thread_id (nothing_read t.id) t.messages
