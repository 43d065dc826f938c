-- ===== src/Sync/Reconciler/Keeps.antt =====
-- reconciler.go, the messages of a delta: what they keep of the thread table.
use dankmail.Base.{
  ℕ, Bool, true, not, ◌&&◌, List, [], ◌∷◌, inl, inr, nat_eq, string_eq, Bool-cases, Option-cases,
}
use dankmail.Provider.{ThreadDelta, MessageDelta}
use dankmail.Schema.{Cache, Thread, Message, update_thread}
use dankmail.Sync.Types.{AccountId}
use dankmail.Sync.World.{Arrival}
use dankmail.Sync.Reconciler.{
  find_message, set_paperclip, refresh_message, add_message, ingest, ingest_all, differ, is_empty,
}

abbrev pub paperclip : Thread → Thread
paperclip r = record r { has_attachments = true }

-- A property of the table that survives the setting of a paperclip survives the messages.
module _ (Q : List Thread → ℕ → Type 0)
    (clipped : (id : ℕ) (ts : List Thread) (next : ℕ)
      → Q ts next
      → Q (update_thread id paperclip ts) next) where
  abbrev Keeps : Cache → Type 0
  Keeps c = Q c.threads c.next_thread

  set_paperclip-Keeps : (row : Thread) (c : Cache) → Keeps c → Keeps (set_paperclip (row, c)).1
  unfolding set_paperclip
  set_paperclip-Keeps row c h = elim (Bool-cases row.has_attachments) [
    | inl e ↦ rw e h
    | inr e ↦ rw e (clipped row.id c.threads c.next_thread h)
  ]

  refresh_message-Keeps :
      (m : MessageDelta) (old : Message) (row : Thread) (c : Cache)
      → Keeps c
      → Keeps (refresh_message m old (row, c)).1
  unfolding refresh_message set_paperclip
  refresh_message-Keeps m old row c h = elim (Bool-cases (differ old.is_sent m.is_sent)) [
    | inl a ↦ elim (Bool-cases (not (is_empty m.attachments) && is_empty old.attachments)) [
      | inl b ↦ rw (a, b) (set_paperclip-Keeps row _ h)
      | inr b ↦ rw (a, b) h
    ]
    | inr a ↦ elim (Bool-cases (not (is_empty m.attachments) && is_empty old.attachments)) [
      | inl b ↦ rw (a, b) (set_paperclip-Keeps row _ h)
      | inr b ↦ rw (a, b) h
    ]
  ]

  add_message-Keeps :
      (m : MessageDelta) (row : Thread) (c : Cache) → Keeps c → Keeps (add_message m (row, c)).1
  unfolding add_message set_paperclip
  add_message-Keeps m row c h = elim (Bool-cases (is_empty m.attachments)) [
    | inl e ↦ rw e h
    | inr e ↦ rw e (set_paperclip-Keeps row _ h)
  ]

  ingest-Keeps :
      (account : AccountId) (d : ThreadDelta) (notify : Bool) (m : MessageDelta) (row : Thread)
      (c : Cache) (arrivals : List Arrival)
      → Keeps c
      → Keeps (ingest account d notify m (row, c) arrivals).0.1
  unfolding ingest
  ingest-Keeps account d notify m row c arrivals h =
      elim (Option-cases (find_message row.id m.message_id c.messages)) [
        | inl e ↦ rw (e, ingest) (add_message-Keeps m row c h)
        | inr (old, e) ↦ rw (e, ingest) (refresh_message-Keeps m old row c h)
      ]

  pub ingest_all-Keeps :
      (account : AccountId) (d : ThreadDelta) (notify : Bool) (ms : List MessageDelta)
      (row : Thread) (c : Cache) (arrivals : List Arrival)
      → Keeps c
      → Keeps (ingest_all account d notify ms (row, c) arrivals).0
  unfolding ingest_all
  ingest_all-Keeps account d notify [] row c arrivals h = h
  ingest_all-Keeps account d notify (m ∷ ms) row c arrivals h =
      let ((row', c'), arrivals') = ingest account d notify m (row, c) arrivals in
      ingest_all-Keeps account d notify ms row' c' arrivals'
        (ingest-Keeps account d notify m row c arrivals h)
