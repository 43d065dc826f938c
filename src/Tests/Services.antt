-- ===== src/Tests/Services.antt =====
-- The bus, the composer, the contacts and the keyring on concrete data.
use dankmail.Base.{
  ℕ, ◌≤◌, String, true, false, List, [], ◌∷◌, ◌++◌, none, some, ◌≡◌, refl, inr, arith, ◌==◌, nat_eq,
  string_eq, contains, exists, lookup, insert, length, IsDistinct, All, take, select, if◌then◌else◌,
}
use dankmail.Errdefs.{Failure, ok, plain}
use dankmail.Provider.{MessageDelta}
use dankmail.Bus.{Bus, Action, publishes, subscribes, unsubscribes, receives}
use dankmail.Bus.Delivery.{Lasts, Delivers, act_all-Delivers}
use dankmail.Mime.{emails, compose_recipients, reply_recipients}
use dankmail.Mime.Recipients.{compose_recipients_lem}
use dankmail.Mime.Reply.{IsGoodResult, reply_recipients_lem}
use dankmail.Contacts.{Contact, Source, mail, google, has_key, search}
use dankmail.Contacts.Keys.{HasUniqueKeys}
use dankmail.Contacts.Merged.{total, IsSorted, emails as suggested}
use dankmail.Contacts.Ranked.{search_lem}
use dankmail.Keyring.{Vault, Service, set_secret, get_secret, key}
use dankmail.Keyring.Secrets.{IsReadable, Reads, set_secret-Reads}
use dankmail.Tests.Samples.{go}

-- A subscriber with room for two events.
abbrev one_sub : Bus ℕ
one_sub = record { subs = (0, record { capacity = 2; buffer = [] }) ∷ []; next = 1 }

abbrev users : List (Action ℕ)
users = publishes 5 ∷ subscribes 1 ∷ receives 0 ∷ publishes 6 ∷ unsubscribes 1 ∷ publishes 7 ∷ []

act_all-Delivers_example : Delivers 0 (record { capacity = 2; buffer = [] }) users one_sub
unfolding lookup Lasts
act_all-Delivers_example =
    act_all-Delivers 0 (record { capacity = 2; buffer = [] }) users one_sub (omega arith) refl
      (refl, tt)

compose_recipients_lem_example : IsDistinct (
    emails go (
      ((compose_recipients go ("a" ∷ ("a" ∷ [])) ("a" ∷ ("b" ∷ [])) ("b" ∷ [])).0
        ++ (compose_recipients go ("a" ∷ ("a" ∷ [])) ("a" ∷ ("b" ∷ [])) ("b" ∷ [])).1)
      ++ (compose_recipients go ("a" ∷ ("a" ∷ [])) ("a" ∷ ("b" ∷ [])) ("b" ∷ [])).2))
compose_recipients_lem_example =
    (compose_recipients_lem go ("a" ∷ ("a" ∷ [])) ("a" ∷ ("b" ∷ [])) ("b" ∷ []) "a").0

abbrev original : MessageDelta
original = record {
  message_id = "m";
  rfc822_message_id = "r";
  is_sent = false;
  from = "bob";
  to = "me" ∷ ("eve" ∷ []);
  cc = "bob" ∷ [];
  date = 1;
  snippet = "";
  body_text = "";
  attachments = [];
  reply_headers = [];
}

reply_recipients_lem_example :
    IsGoodResult go original "me" true (reply_recipients go original "me" true)
reply_recipients_lem_example = reply_recipients_lem go original "me" true

reply_run : reply_recipients go original "me" true ≡ ok ("bob" ∷ ("eve" ∷ []), [])
unfolding reply_recipients lookup select contains
reply_run = refl

abbrev row : Source → String → ℕ → Contact
row source name weight = record {
  account = 1;
  email = "ann";
  name = name;
  source = source;
  weight = weight;
  last_seen = 1;
}

abbrev table : List Contact
table = row mail "Ann" 4 ∷ (row google "Ann B" 5 ∷ [])

table-HasUniqueKeys : HasUniqueKeys table
unfolding HasUniqueKeys exists has_key
table-HasUniqueKeys = (refl, (refl, tt))

search_lem_example :
    (length (search 3 table) ≤ 3)
    × IsDistinct (suggested (search 3 table))
    × IsSorted (search 3 table)
    × All (λ m. total m.email (take 12 table) ≡ m.weight) (search 3 table)
search_lem_example = search_lem 3 table

-- A keyring that is away at the second request.
abbrev flaky : Service
flaky = record {
  trouble = λ i. if i == 1 then some (plain "locked") else none;
  not_found = plain "secret not found in keyring";
  is_uuid = λ s. true;
}

abbrev vault : Vault
vault = record { keyring = []; fallback = some [] }

set_secret-Reads_example :
    Reads flaky "a" "oauth-token" 2 "new" vault (set_secret flaky 1 "a" "oauth-token" "new" vault)
unfolding IsReadable lookup
set_secret-Reads_example =
    set_secret-Reads flaky "a" "oauth-token" 1 2 "new" vault (inr (plain "locked", refl, inr refl))

-- A secret that was set while the keyring was away does not replace the older one that the keyring holds:
-- once it is back, it is the older one that is read.
abbrev renewed : Failure × Vault
renewed =
    set_secret flaky 1 "a" "oauth-token" "new"
      (record vault { keyring = (key "a" "oauth-token", "old") ∷ [] })

stale : (renewed.0 ≡ none) × (get_secret flaky 2 "a" "oauth-token" renewed.1 ≡ ok "old")
unfolding set_secret get_secret lookup insert
stale = (refl, refl)
