-- ===== src/Contacts.antt =====
-- core/internal/contacts/contacts.go: the contacts that the composer completes, indexed from the cached
-- mail and searched. Google's People API, which only adds rows, is not modelled.
pub mod Keys
pub mod Merged
pub mod Ranked
use Prim.Native.String.{find, len, slice}
use dankmail.Base.{
  ℕ, zero, suc, ◌+◌, ◌*◌, ◌<◌, String, Bool, true, false, not, ◌&&◌, ◌||◌, List, [], ◌∷◌, ◌++◌,
  Option, none, some, ltb, leb, ◌==◌, nat_eq, string_eq, if◌then◌else◌, exists, select, take,
  length, lookup, insert, update_where, GoText, max,
}

pub data Source : Type 0 where
  mail google : Source

abbrev pub is_google : Source → Bool
is_google google = true
is_google mail = false

abbrev same_source : Source → Source → Bool
same_source mail s = not (is_google s)
same_source google s = is_google s

-- A row of the table.
pub record Contact : Type 0 where
  pub account : ℕ
  pub email : String
  pub name : String
  pub source : Source
  pub weight : ℕ
  pub last_seen : ℕ

-- The key of the unique index.
unfoldable pub has_key : ℕ → String → Source → Contact → Bool
has_key account email source c =
    c.account == account && c.email == email && same_source source c.source

-- `upsertContact`, of which a failing database is not modelled.
unfoldable pub upsert_contact : Contact → List Contact → List Contact
unfolding exists update_where has_key
upsert_contact c rows =
    if exists (has_key c.account c.email c.source) rows
    then update_where (has_key c.account c.email c.source)
        (λ row. record row {
          weight = c.weight;
          last_seen = c.last_seen;
          name = if c.name == "" then row.name else c.name;
        })
        rows
    else rows ++ (c ∷ [])

abbrev pub markers : List String
markers =
    "noreply" ∷ "no-reply" ∷ "no_reply" ∷ "donotreply" ∷ "do-not-reply" ∷ "notifications"
    ∷ "notificaciones" ∷ "mailer-daemon" ∷ []

pub record Entry : Type 0 where
  pub entry_name : String
  pub entry_weight : ℕ
  pub entry_seen : ℕ

abbrev entry_of : Option Entry → Entry
entry_of none = record { entry_name = ""; entry_weight = 0; entry_seen = 0 }
entry_of (some e) = e

better_name : String → String → String
better_name old name =
    if not (name == "") && (old == "" || ltb (len old) (len name)) then name else old

-- What is selected of a message.
pub record Envelope : Type 0 where
  pub from : String
  pub to : List String
  pub cc : List String
  pub date : ℕ

upsert_entries : ℕ → List (String × Entry) → List Contact → List Contact
unfolding upsert_contact
upsert_entries account [] rows = rows
upsert_entries account (entry ∷ rest) rows = upsert_entries account rest (
    upsert_contact
      (record {
        account = account;
        email = entry.0;
        name = entry.1.entry_name;
        source = mail;
        weight = entry.1.entry_weight;
        last_seen = entry.1.entry_seen;
      })
      rows)

module _ (go : GoText) where
  -- What stands before the first `@`.
  local_part : String → String
  local_part email = slice email 0 (find email "@")

  unfoldable pub is_no_reply : String → Bool
  unfolding local_part exists
  is_no_reply email = exists (λ marker. go.text_contains (local_part email) marker) markers

  unfoldable pub split_addr : String → String × String
  split_addr raw = elim (go.parse_address raw) [
    | none ↦
        let s = go.to_lower (go.trim_space raw) in
        if go.text_contains s "@" then ("", s) else ("", "")
    | some address ↦ (go.trim_space address.0, go.to_lower address.1)
  ]

  -- The closure `bump`, for the address `self` of the account.
  unfoldable pub bump : String → String → ℕ → ℕ → List (String × Entry) → List (String × Entry)
  unfolding split_addr is_no_reply better_name lookup insert
  bump self raw seen weight entries =
      let (name, email) = split_addr raw in
      let old = entry_of (lookup email entries) in
      if email == "" || email == self || is_no_reply email
      then entries
      else insert email
          (record {
            entry_name = better_name old.entry_name name;
            entry_weight = old.entry_weight + weight;
            entry_seen = max old.entry_seen seen;
          })
          entries

  unfoldable pub bump_all : String → List String → ℕ → List (String × Entry) → List (String × Entry)
  unfolding bump
  bump_all self [] seen entries = entries
  bump_all self (raw ∷ more) seen entries = bump_all self more seen (bump self raw seen 1 entries)

  unfoldable pub index_messages :
      String → List Envelope → List (String × Entry) → List (String × Entry)
  unfolding bump bump_all
  index_messages self [] entries = entries
  index_messages self (m ∷ ms) entries =
      index_messages self ms
        (bump_all self m.cc m.date (bump_all self m.to m.date (bump self m.from m.date 3 entries)))

  -- `IndexMail`, of one account.
  unfoldable pub index_account : ℕ → String → List Envelope → List Contact → List Contact
  unfolding index_messages upsert_entries upsert_contact
  index_account account email messages rows =
      upsert_entries account (index_messages (go.to_lower email) messages []) rows

-- `merged` in `Search`, with its e-mail address.
pub record Suggestion : Type 0 where
  pub name : String
  pub email : String
  pub source : Option Source
  pub weight : ℕ

-- A row joins the suggestion of its address.
join_row : Contact → Suggestion → Suggestion
join_row r m = record m {
  weight = m.weight + r.weight;
  name = if not (r.name == "") && (m.name == "" || is_google r.source) then r.name else m.name;
  source = elim m.source [
    | none ↦ some r.source
    | some s ↦ if is_google r.source then some r.source else some s
  ];
}

-- The suggestions so far, in the order of `order`.
unfoldable pub merge_row : Contact → List Suggestion → List Suggestion
unfolding join_row
merge_row r [] = join_row r (record { name = ""; email = r.email; source = none; weight = 0 }) ∷ []
merge_row r (m ∷ ms) =
    let later = merge_row r ms in if m.email == r.email then join_row r m ∷ ms else m ∷ later

unfoldable pub merge_rows : List Suggestion → List Contact → List Suggestion
unfolding merge_row
merge_rows ms [] = ms
merge_rows ms (r ∷ rs) = merge_rows (merge_row r ms) rs

-- `sort.SliceStable` by weight, the greatest first.
insert_suggestion : Suggestion → List Suggestion → List Suggestion
insert_suggestion m [] = m ∷ []
insert_suggestion m (s ∷ ss) =
    let later = insert_suggestion m ss in if leb s.weight m.weight then m ∷ (s ∷ ss) else s ∷ later

unfoldable pub sort_suggestions : List Suggestion → List Suggestion
unfolding insert_suggestion
sort_suggestions [] = []
sort_suggestions (m ∷ ms) = insert_suggestion m (sort_suggestions ms)

abbrev pub limit_or_eight : ℕ → ℕ
limit_or_eight limit = if leb limit 0 then 8 else limit

-- `Search`, from the rows that the query returns: those that match, the greatest weight first, at most
-- four times the limit.
unfoldable pub search : ℕ → List Contact → List Suggestion
unfolding merge_rows sort_suggestions
search limit rows =
    take (limit_or_eight limit)
      (sort_suggestions (merge_rows [] (take (limit_or_eight limit * 4) rows)))
