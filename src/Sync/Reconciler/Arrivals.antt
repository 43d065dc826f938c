-- ===== src/Sync/Reconciler/Arrivals.antt =====
-- reconciler.go, which messages of a sync are announced.
use dankmail.Base.{
  ℕ, String, Bool, true, false, not, ◌&&◌, List, [], ◌∷◌, ◌++◌, map, Option, none, some, nat_eq,
  string_eq, if◌then◌else◌, ◌≡◌, refl, sym, ap, ◌∙◌, inl, inr, Bool-cases, Option-cases, contains,
  select, append-nil, append_assoc,
}
use dankmail.Provider.{ThreadDelta, MessageDelta}
use dankmail.Schema.{Cache, Thread, Message, find_thread}
use dankmail.Sync.Types.{AccountId}
use dankmail.Sync.World.{Arrival}
use dankmail.Sync.Reconciler.{
  find_message, refresh_message, add_message, ingest, ingest_all, upsert_row, upsert_thread,
  arrival_of,
}
use dankmail.Sync.Reconciler.Known.{
  stored_ids, is_known, find_message-contains, Knows, refresh_message-Knows, add_message-Knows,
}

-- The messages of a list that are neither known nor behind one with the same id.
unfoldable pub fresh : List String → List MessageDelta → List MessageDelta
unfolding contains
fresh known [] = []
fresh known (m ∷ ms) =
    let old = fresh known ms in
    let new = fresh (known ++ m.message_id ∷ []) ms in
    if contains m.message_id known then old else m ∷ new

-- The announcements for a list of messages, of which some are known.
abbrev pub announced :
    AccountId → ThreadDelta → Bool → List String → List MessageDelta → List Arrival
announced account d notify known ms =
    if notify then map (arrival_of account d) (select (λ m. not m.is_sent) (fresh known ms)) else []

announced-nothing :
    (account : AccountId) (d : ThreadDelta) (notify : Bool) (known : List String)
    → announced account d notify known [] ≡ []
unfolding fresh select
announced-nothing account d true known = refl
announced-nothing account d false known = refl

module _ (account : AccountId) (d : ThreadDelta) (known : List String) (m : MessageDelta)
    (ms : List MessageDelta) where
  announced-old :
      (notify : Bool)
      → contains m.message_id known ≡ true
      → announced account d notify known (m ∷ ms) ≡ announced account d notify known ms
  unfolding fresh
  announced-old true h = rw h
  announced-old false h = refl

  -- What the loop appends for a message that is not stored.
  abbrev one : Bool → List Arrival
  one notify = if notify && not m.is_sent then arrival_of account d m ∷ [] else []

  announced-new :
      (notify : Bool)
      → contains m.message_id known ≡ false
      → announced account d notify known (m ∷ ms)
        ≡ one notify ++ announced account d notify (known ++ m.message_id ∷ []) ms
  unfolding fresh select
  announced-new false h = refl
  announced-new true h = rw h (elim (Bool-cases m.is_sent) [ inl e ↦ rw e | inr e ↦ rw e ])

append_one :
    (b : Bool) (a : Arrival) (arrivals : List Arrival)
    → (if b then arrivals ++ a ∷ [] else arrivals) ≡ arrivals ++ (if b then a ∷ [] else [])
append_one true a arrivals = refl
append_one false a arrivals = sym (append-nil arrivals)

module _ (account : AccountId) (d : ThreadDelta) (notify : Bool) (m : MessageDelta) (row : Thread)
    (c : Cache) (arrivals : List Arrival) where
  ingest-new :
      find_message row.id m.message_id c.messages ≡ none
      → ingest account d notify m (row, c) arrivals
        ≡ (add_message m (row, c), arrivals ++ one account d [] m [] notify)
  unfolding ingest
  ingest-new e =
      rw (e, ingest)
        (ap (λ l. (add_message m (row, c), l))
          (append_one (notify && not m.is_sent) (arrival_of account d m) arrivals))

  ingest-old :
      (old : Message)
      → find_message row.id m.message_id c.messages ≡ some old
      → ingest account d notify m (row, c) arrivals ≡ (refresh_message m old (row, c), arrivals)
  unfolding ingest
  ingest-old old e = rw (e, ingest)

known-find :
    (row : Thread) (c : Cache) (id : ℕ) (known : List String) (m : MessageDelta)
    → Knows (row, c) id known
    → contains m.message_id known ≡ is_known (find_message row.id m.message_id c.messages)
known-find row c id known m h =
    ap (contains m.message_id) (sym (ap (λ i. stored_ids i c.messages) h.0 ∙ h.1))
    ∙ find_message-contains row.id m.message_id c.messages

ingest_all-arrivals :
    (account : AccountId) (d : ThreadDelta) (notify : Bool) (ms : List MessageDelta) (row : Thread)
    (c : Cache) (arrivals : List Arrival) (id : ℕ) (known : List String)
    → Knows (row, c) id known
    → (ingest_all account d notify ms (row, c) arrivals).1
      ≡ arrivals ++ announced account d notify known ms
unfolding ingest_all is_known
ingest_all-arrivals account d notify [] row c arrivals id known h =
    sym (ap (λ l. arrivals ++ l) (announced-nothing account d notify known) ∙ append-nil arrivals)
ingest_all-arrivals account d notify (m ∷ ms) row c arrivals id known h =
    let found = known-find row c id known m h in
    elim (Option-cases (find_message row.id m.message_id c.messages)) [
      | inl e ↦
          let new = one account d [] m [] notify in
          let at = add_message m (row, c) in
          ap (λ r. (ingest_all account d notify ms r.0 r.1).1)
            (ingest-new account d notify m row c arrivals e)
          ∙ (ingest_all-arrivals account d notify ms at.0 at.1 (arrivals ++ new) id
                (known ++ m.message_id ∷ []) (add_message-Knows m row c id known h)
              ∙ append_assoc arrivals new
                  (announced account d notify (known ++ m.message_id ∷ []) ms)
              ∙ ap (λ l. arrivals ++ l)
                  (sym (announced-new account d known m ms notify (found ∙ ap is_known e))))
      | inr (old, e) ↦
          let at = refresh_message m old (row, c) in
          ap (λ r. (ingest_all account d notify ms r.0 r.1).1)
            (ingest-old account d notify m row c arrivals old e)
          ∙ (ingest_all-arrivals account d notify ms at.0 at.1 arrivals id known
                (refresh_message-Knows m old row c id known h)
              ∙ ap (λ l. arrivals ++ l)
                  (sym (announced-old account d known m ms notify (found ∙ ap is_known e))))
    ]

upsert_row-messages :
    (account : AccountId) (d : ThreadDelta) (frozen : Bool) (found : Option Thread) (c : Cache)
    → (upsert_row account d frozen found c).1.messages ≡ c.messages
unfolding upsert_row
upsert_row-messages account d frozen none c = refl
upsert_row-messages account d true (some t) c = refl
upsert_row-messages account d false (some t) c = refl

-- A delta announces its messages in their order, with the thread's id, subject and inbox flag: those
-- that are not the user's own and whose id is neither stored for the thread's row nor that of an
-- earlier message of the delta. It announces nothing if notifications are off.
pub upsert_thread-arrivals :
    (account : AccountId) (d : ThreadDelta) (frozen notify : Bool) (c : Cache)
    → let row = (upsert_row account d frozen (find_thread account d.thread_id c.threads) c).0 in
      (upsert_thread account d frozen notify c).1 ≡ (
        if notify
        then map
            (arrival_of account d)
            (select (λ m. not m.is_sent) (fresh (stored_ids row.id c.messages) d.messages))
        else [])
unfolding upsert_thread
upsert_thread-arrivals account d frozen notify c =
    let (row, c') = upsert_row account d frozen (find_thread account d.thread_id c.threads) c in
    ingest_all-arrivals account d notify d.messages row c' [] row.id (stored_ids row.id c.messages)
      (
        refl,
        ap (stored_ids row.id)
            (upsert_row-messages account d frozen (find_thread account d.thread_id c.threads) c),
      )
