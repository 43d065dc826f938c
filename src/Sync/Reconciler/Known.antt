-- ===== src/Sync/Reconciler/Known.antt =====
-- reconciler.go, the ids of the stored messages of a thread, over the loop of a delta.
use dankmail.Base.{
  ℕ, suc, String, Bool, true, false, not, ◌&&◌, List, [], ◌∷◌, ◌++◌, map, Option, none, some, ◌==◌,
  nat_eq, string_eq, if◌then◌else◌, ◌≡◌, refl, ap, ◌∙◌, inl, inr, Bool-cases, contains, select,
  select-append, update_where, map-append, ==-self,
}
use dankmail.Provider.{MessageDelta}
use dankmail.Schema.{Cache, Thread, Message}
use dankmail.Sync.Reconciler.{
  find_message, refresh_message, add_message, set_paperclip, update_message, message_row, differ,
  is_empty,
}

-- The provider's ids of the stored messages of a thread.
abbrev pub stored_ids : ℕ → List Message → List String
stored_ids thread ms = map (λ m. m.provider_message_id) (select (λ m. m.thread == thread) ms)

unfoldable pub is_known : Option Message → Bool
is_known none = false
is_known (some m) = true

pub find_message-contains :
    (thread : ℕ) (id : String) (ms : List Message)
    → contains id (stored_ids thread ms) ≡ is_known (find_message thread id ms)
unfolding contains find_message is_known select
find_message-contains thread id [] = refl
find_message-contains thread id (m ∷ ms) = elim (Bool-cases (m.thread == thread)) [
  | inr e ↦ rw e (find_message-contains thread id ms)
  | inl e ↦ elim (Bool-cases (m.provider_message_id == id)) [
    | inl k ↦ rw e (rw k)
    | inr k ↦ rw e (rw k (find_message-contains thread id ms))
  ]
]

stored_ids-update_where :
    (thread : ℕ) (p : Message → Bool) (f : Message → Message) (ms : List Message)
    → ((m : Message) → (f m).thread ≡ m.thread)
    → ((m : Message) → (f m).provider_message_id ≡ m.provider_message_id)
    → stored_ids thread (update_where p f ms) ≡ stored_ids thread ms
unfolding update_where select
stored_ids-update_where thread p f [] same same_id = refl
stored_ids-update_where thread p f (m ∷ ms) same same_id =
    let rest = stored_ids-update_where thread p f ms same same_id in
    let key : ((f m).thread == thread) ≡ (m.thread == thread) = ap (λ i. i == thread) (same m) in
    elim (Bool-cases (p m)) [
      | inr e ↦ rw e (elim (Bool-cases (m.thread == thread)) [
        | inl k ↦ rw k (ap (◌∷◌ m.provider_message_id) rest)
        | inr k ↦ rw k rest
      ])
      | inl e ↦ rw e (elim (Bool-cases (m.thread == thread)) [
        | inl k ↦ rw (key ∙ k) (rw k (rw (same_id m) (ap (◌∷◌ m.provider_message_id) rest)))
        | inr k ↦ rw (key ∙ k) (rw k rest)
      ])
    ]

-- What a step of the loop leaves: the row's id, and the ids that are stored for it.
abbrev pub Knows : Thread × Cache → ℕ → List String → Type 0
Knows (row, c) id known = (row.id ≡ id) × (stored_ids id c.messages ≡ known)

set_paperclip-Knows :
    (row : Thread) (c : Cache) (id : ℕ) (known : List String)
    → Knows (row, c) id known
    → Knows (set_paperclip (row, c)) id known
unfolding set_paperclip
set_paperclip-Knows row c id known h = elim (Bool-cases row.has_attachments) [
  | inl e ↦ rw e h
  | inr e ↦ rw e h
]

update_message-Knows :
    (i : ℕ) (f : Message → Message) (row : Thread) (c : Cache) (id : ℕ) (known : List String)
    → ((m : Message) → (f m).thread ≡ m.thread)
    → ((m : Message) → (f m).provider_message_id ≡ m.provider_message_id)
    → Knows (row, c) id known
    → Knows (row, update_message i f c) id known
unfolding update_message
update_message-Knows i f row c id known same same_id h =
    (h.0, stored_ids-update_where id (λ m. m.id == i) f c.messages same same_id ∙ h.1)

-- The second statement of `refresh_message`.
attach-Knows :
    (m : MessageDelta) (old : Message) (row : Thread) (c : Cache) (id : ℕ) (known : List String)
    → Knows (row, c) id known
    → Knows
        (if not (is_empty m.attachments) && is_empty old.attachments
          then set_paperclip
              (row, update_message old.id (λ x. record x { attachments = m.attachments }) c)
          else (row, c))
        id
        known
attach-Knows m old row c id known h =
    let f = (λ (x : Message). record x { attachments = m.attachments }) in
    elim (Bool-cases (not (is_empty m.attachments) && is_empty old.attachments)) [
      | inl b ↦ rw b (
          set_paperclip-Knows row (update_message old.id f c) id known
            (update_message-Knows old.id f row c id known (λ x. refl) (λ x. refl) h))
      | inr b ↦ rw b h
    ]

pub refresh_message-Knows :
    (m : MessageDelta) (old : Message) (row : Thread) (c : Cache) (id : ℕ) (known : List String)
    → Knows (row, c) id known
    → Knows (refresh_message m old (row, c)) id known
unfolding refresh_message
refresh_message-Knows m old row c id known h =
    let f = (λ (x : Message). record x { is_sent = m.is_sent }) in
    elim (Bool-cases (differ old.is_sent m.is_sent)) [
      | inl a ↦ rw a (
          attach-Knows m old row (update_message old.id f c) id known
            (update_message-Knows old.id f row c id known (λ x. refl) (λ x. refl) h))
      | inr a ↦ rw a (attach-Knows m old row c id known h)
    ]

stored_ids-add :
    (id next : ℕ) (m : MessageDelta) (ms : List Message)
    → stored_ids id (ms ++ message_row next id m ∷ []) ≡ stored_ids id ms ++ m.message_id ∷ []
unfolding select
stored_ids-add id next m ms =
    rw (select-append (λ x. x.thread == id) ms (message_row next id m ∷ [])) (
      rw (==-self id) (
        map-append (λ x. x.provider_message_id) (select (λ x. x.thread == id) ms)
          (message_row next id m ∷ [])))

pub add_message-Knows :
    (m : MessageDelta) (row : Thread) (c : Cache) (id : ℕ) (known : List String)
    → Knows (row, c) id known
    → Knows (add_message m (row, c)) id (known ++ m.message_id ∷ [])
unfolding add_message
add_message-Knows m row c id known h =
    let c' = record c {
      messages = c.messages ++ message_row c.next_message row.id m ∷ [];
      next_message = suc c.next_message;
    } in
    let knows : Knows (row, c') id (known ++ m.message_id ∷ []) = (
      h.0,
      ap (λ i. stored_ids id (c.messages ++ message_row c.next_message i m ∷ [])) h.0
          ∙ stored_ids-add id c.next_message m c.messages
          ∙ ap (λ l. l ++ m.message_id ∷ []) h.1,
    ) in
    elim (Bool-cases (is_empty m.attachments)) [
      | inl e ↦ rw e knows
      | inr e ↦ rw e (set_paperclip-Knows row c' id (known ++ m.message_id ∷ []) knows)
    ]
