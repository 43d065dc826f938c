-- ===== src/Contacts/Keys.antt =====
-- contacts.go, the unique index of the table of contacts, and what an index run keeps of it.
use dankmail.Base.{
  ℕ, String, Bool, true, false, ◌||◌, List, [], ◌∷◌, ◌++◌, ◌==◌, nat_eq, string_eq, if◌then◌else◌,
  exists, update_where, GoText, ◌≡◌, refl, ap, ◌∙◌, inl, inr, arith, Bool-cases,
}
use dankmail.Contacts.{
  Contact, Source, mail, google, same_source, has_key, upsert_contact, upsert_entries,
  index_account, Envelope, Entry, index_messages,
}

-- No two rows have one key.
unfoldable pub HasUniqueKeys : List Contact → Type 0
HasUniqueKeys [] = Unit {0}
HasUniqueKeys (c ∷ cs) = (exists (has_key c.account c.email c.source) cs ≡ false) × HasUniqueKeys cs

source_sym : (a b : Source) → same_source a b ≡ same_source b a
source_sym mail mail = refl
source_sym mail google = refl
source_sym google mail = refl
source_sym google google = refl

has_key_sym :
    (a b : Contact) → has_key a.account a.email a.source b ≡ has_key b.account b.email b.source a
unfolding has_key
has_key_sym a b = ground (
  arith,
  string_eq.agrees a.email b.email,
  string_eq.agrees b.email a.email,
  source_sym a.source b.source,
)

-- The update of a row.
abbrev refreshed : Contact → Contact → Contact
refreshed c row = record row {
  weight = c.weight;
  last_seen = c.last_seen;
  name = if c.name == "" then row.name else c.name;
}

has_key-refreshed :
    (account : ℕ) (email : String) (source : Source) (b : Bool) (c row : Contact)
    → has_key account email source (if b then refreshed c row else row)
      ≡ has_key account email source row
unfolding has_key
has_key-refreshed account email source true c row = refl
has_key-refreshed account email source false c row = refl

exists-refreshed :
    (account : ℕ) (email : String) (source : Source) (p : Contact → Bool) (c : Contact)
    (rows : List Contact)
    → exists (has_key account email source) (update_where p (refreshed c) rows)
      ≡ exists (has_key account email source) rows
unfolding exists update_where
exists-refreshed account email source p c [] = refl
exists-refreshed account email source p c (row ∷ rows) =
    ap (λ b. b || exists (has_key account email source) (update_where p (refreshed c) rows))
      (has_key-refreshed account email source (p row) c row)
    ∙ ap (λ b. has_key account email source row || b)
        (exists-refreshed account email source p c rows)

exists-append :
    (p : Contact → Bool) (rows : List Contact) (c : Contact)
    → exists p (rows ++ (c ∷ [])) ≡ (exists p rows || p c)
unfolding exists
exists-append p [] c = ground arith
exists-append p (row ∷ rows) c = ground (arith, exists-append p rows c)

refreshed-HasUniqueKeys :
    (p : Contact → Bool) (c : Contact) (rows : List Contact)
    → HasUniqueKeys rows
    → HasUniqueKeys (update_where p (refreshed c) rows)
unfolding HasUniqueKeys update_where
refreshed-HasUniqueKeys p c [] h = tt
refreshed-HasUniqueKeys p c (row ∷ rows) h = elim (Bool-cases (p row)) [
  | inl e ↦ rw (e) (
    exists-refreshed row.account row.email row.source p c rows ∙ h.0,
    refreshed-HasUniqueKeys p c rows h.1,
  )
  | inr e ↦ rw (e) (
    exists-refreshed row.account row.email row.source p c rows ∙ h.0,
    refreshed-HasUniqueKeys p c rows h.1,
  )
]

append-HasUniqueKeys :
    (c : Contact) (rows : List Contact)
    → exists (has_key c.account c.email c.source) rows ≡ false
    → HasUniqueKeys rows
    → HasUniqueKeys (rows ++ (c ∷ []))
unfolding HasUniqueKeys exists
append-HasUniqueKeys c [] fresh h = (refl, tt)
append-HasUniqueKeys c (row ∷ rows) fresh h =
    let rest : exists (has_key c.account c.email c.source) rows ≡ false = ground (arith, fresh) in
    (
      exists-append (has_key row.account row.email row.source) rows c
          ∙ ground (arith, h.0, fresh, has_key_sym row c),
      append-HasUniqueKeys c rows rest h.1,
    )

-- After an upsert the keys are those of before and that of the row.
upsert_contact_lem :
    (c : Contact) (rows : List Contact)
    → HasUniqueKeys rows
    → HasUniqueKeys (upsert_contact c rows)
      × ((account : ℕ) (email : String) (source : Source)
          → exists (has_key account email source) rows ≡ true
          → exists (has_key account email source) (upsert_contact c rows) ≡ true)
unfolding upsert_contact
upsert_contact_lem c rows h = elim (Bool-cases (exists (has_key c.account c.email c.source) rows)) [
  | inl e ↦ rw (e) (
    refreshed-HasUniqueKeys (has_key c.account c.email c.source) c rows h,
    λ account email source at.
        exists-refreshed account email source (has_key c.account c.email c.source) c rows ∙ at,
  )
  | inr e ↦ rw (e) (
    append-HasUniqueKeys c rows e h,
    λ account email source at.
        exists-append (has_key account email source) rows c ∙ ground (arith, at),
  )
]

upsert_entries_lem :
    (account : ℕ) (entries : List (String × Entry)) (rows : List Contact)
    → HasUniqueKeys rows
    → HasUniqueKeys (upsert_entries account entries rows)
      × ((other : ℕ) (email : String) (source : Source)
          → exists (has_key other email source) rows ≡ true
          → exists (has_key other email source) (upsert_entries account entries rows) ≡ true)
unfolding upsert_entries
upsert_entries_lem account [] rows h = (h, λ other email source at. at)
upsert_entries_lem account (entry ∷ rest) rows h =
    let c : Contact = record {
      account = account;
      email = entry.0;
      name = entry.1.entry_name;
      source = mail;
      weight = entry.1.entry_weight;
      last_seen = entry.1.entry_seen;
    } in
    let (unique, kept) = upsert_contact_lem c rows h in
    let (later, still) = upsert_entries_lem account rest (upsert_contact c rows) unique in
    (later, λ other email source at. still other email source (kept other email source at))

-- An index run over the mail of an account keeps the index of the table unique, and removes no row: each
-- key that is there stays, whether the mail still names its address or not.
pub index_account_lem :
    (go : GoText) (account : ℕ) (self : String) (messages : List Envelope) (rows : List Contact)
    → HasUniqueKeys rows
    → HasUniqueKeys (index_account go account self messages rows)
      × ((other : ℕ) (email : String) (source : Source)
          → exists (has_key other email source) rows ≡ true
          → exists (has_key other email source) (index_account go account self messages rows)
            ≡ true)
unfolding index_account
index_account_lem go account self messages rows h =
    upsert_entries_lem account (index_messages go (go.to_lower self) messages []) rows h
