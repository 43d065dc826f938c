-- ===== src/Keyring.antt =====
-- core/internal/keyring/keyring.go: the secrets of the accounts, in the desktop's keyring with the
-- database as fallback. The keyring is a parameter: whether it serves a request, by its number; what it
-- keeps is a map. A database is there or not, and its statements succeed.
pub mod Secrets
use Prim.Native.String.{◌++◌ as text_append}
use dankmail.Base.{
  ℕ, String, Bool, true, false, not, ◌&&◌, List, [], ◌∷◌, Option, none, some, ◌==◌, string_eq,
  if◌then◌else◌, lookup, insert, remove, Comparable, ==→≡, ==-self, ◌≡◌, ◌↔◌, refl, ap₂, arith, ap,
}
use dankmail.Errdefs.{Error, Failure, Result, err, ok, plain}

-- The key of a secret: its account and its name. `account + "/" + name` is as good a key, since the id
-- of an account has no slash.
abbrev pub key : String → String → String
key account name = text_append account (text_append "/" name)

-- The rows of the table Secret, by their keys; `valid` says which texts are the id of an account.
pub record Vault : Type 0 where
  pub keyring : List (String × String)
  pub fallback : Option (List (String × String))

pub record Service : Type 0 where
  -- The error of the keyring daemon, by request; `none` where it serves it.
  pub trouble : ℕ → Option Error
  pub not_found : Error
  pub is_uuid : String → Bool

unfoldable pub delete_fallback : Service → String → String → Vault → Vault
delete_fallback service account name v =
    if service.is_uuid account
    then record v {
      fallback = elim v.fallback [
        | none ↦ none
        | some rows ↦ some (remove (key account name) rows)
      ];
    }
    else v

abbrev no_fallback : Error
no_fallback = plain "no fallback db configured"

abbrev bad_uuid : Error
bad_uuid = plain "invalid UUID"

-- The statements of `setFallback`, where there is a database.
unfoldable pub set_row :
    Service → String → String → String → Vault → Option (List (String × String)) → Failure × Vault
set_row service account name secret v none = (some no_fallback, v)
set_row service account name secret v (some rows) =
    if service.is_uuid account
    then (none, record v { fallback = some (insert (key account name) secret rows) })
    else (some bad_uuid, v)

unfoldable pub set_fallback : Service → String → String → String → Vault → Failure × Vault
unfolding set_row
set_fallback service account name secret v = set_row service account name secret v v.fallback

unfoldable pub get_fallback : Service → String → String → Vault → Option String
get_fallback service account name v = elim v.fallback [
  | none ↦ none
  | some rows ↦ if service.is_uuid account then lookup (key account name) rows else none
]

-- `Set`, as request `i`.
unfoldable pub set_secret : Service → ℕ → String → String → String → Vault → Failure × Vault
unfolding delete_fallback set_fallback
set_secret service i account name secret v = elim (service.trouble i) [
  | none ↦ (
    none,
    delete_fallback service account name
        (record v { keyring = insert (key account name) secret v.keyring }),
  )
  | some e ↦
      let (failure, v') = set_fallback service account name secret v in
      elim failure [ none ↦ (none, v') | some f ↦ (some e, v') ]
]

-- What the keyring answers.
keyring_get : Service → ℕ → String → String → Vault → Result String
keyring_get service i account name v = elim (service.trouble i) [
  | some e ↦ err e
  | none ↦ elim (lookup (key account name) v.keyring) [
    | some secret ↦ ok secret
    | none ↦ err service.not_found
  ]
]

-- `Get`, as request `i`.
unfoldable pub get_secret : Service → ℕ → String → String → Vault → Result String
unfolding keyring_get get_fallback
get_secret service i account name v = elim (keyring_get service i account name v) [
  | ok secret ↦ ok secret
  | err e ↦ elim (get_fallback service account name v) [ some secret ↦ ok secret | none ↦ err e ]
]

-- `Delete`, as request `i`. A secret that is not there is no error.
unfoldable pub delete_secret : Service → ℕ → String → String → Vault → Failure × Vault
unfolding delete_fallback
delete_secret service i account name v =
    let v' = delete_fallback service account name v in
    elim (service.trouble i) [
      | some e ↦ (some e, v')
      | none ↦ (none, record v' { keyring = remove (key account name) v'.keyring })
    ]
