-- ===== src/Keyring/Secrets.antt =====
-- keyring.go, when a secret that was set can be read, and that a deleted one cannot.
use dankmail.Base.{
  ℕ, String, List, Option, none, some, string_eq, lookup, insert, lookup-insert_self, ◌≡◌, ◌⊎◌,
  refl, sym, ap, ◌∙◌, inl, inr, subst, Bool-cases, Option-cases,
}
use dankmail.Errdefs.{Error, Failure, ok}
use dankmail.Keyring.{
  Vault, Service, key, delete_fallback, set_fallback, set_row, get_fallback, set_secret,
  keyring_get, get_secret,
}

-- The request `i` that sets a secret and the request `j` that reads it: the keyring serves both; or it
-- does not serve the first, and it does not serve the second either or holds no older secret.
unfoldable pub IsReadable : Service → ℕ → ℕ → String → String → Vault → Type 0
IsReadable service i j account name v =
    ((service.trouble i ≡ none) × (service.trouble j ≡ none))
    ⊎ ((e : Error) × (service.trouble i ≡ some e)
        × (((e' : Error) × (service.trouble j ≡ some e'))
            ⊎ (lookup (key account name) v.keyring ≡ none)))

set_through : Error → Failure × Vault → Failure × Vault
set_through e (none, v') = (none, v')
set_through e (some f, v') = (some e, v')

through :
    (e : Error) (r : Failure × Vault)
    → (let (failure, v') = r in elim failure [ none ↦ (none, v') | some f ↦ (some e, v') ])
      ≡ set_through e r
unfolding set_through
through e (none, v') = refl
through e (some f, v') = refl

module _ (service : Service) (account name : String) where
  -- Where the keyring has the secret.
  get_secret-keyring :
      (j : ℕ) (secret : String) (v : Vault)
      → service.trouble j ≡ none
      → lookup (key account name) v.keyring ≡ some secret
      → get_secret service j account name v ≡ ok secret
  unfolding get_secret keyring_get
  get_secret-keyring j secret v serves at = rw (serves, get_secret) (rw (at, get_secret) refl)

  -- Where only the fallback has it.
  get_secret-fallback :
      (j : ℕ) (secret : String) (v : Vault)
      → ((e : Error) × (service.trouble j ≡ some e)) ⊎ (lookup (key account name) v.keyring ≡ none)
      → get_fallback service account name v ≡ some secret
      → get_secret service j account name v ≡ ok secret
  unfolding get_secret keyring_get
  get_secret-fallback j secret v (inl (e, h)) at = rw (h, get_secret) (rw (at) refl)
  get_secret-fallback j secret v (inr gone) at = elim (Option-cases (service.trouble j)) [
    | inl serves ↦ rw (serves, get_secret) (rw (gone, get_secret) (rw (at) refl))
    | inr (e, h) ↦ rw (h, get_secret) (rw (at) refl)
  ]

  delete_fallback-keyring :
      (v : Vault) → (delete_fallback service account name v).keyring ≡ v.keyring
  unfolding delete_fallback
  delete_fallback-keyring v = elim (Bool-cases (service.is_uuid account)) [
    | inl e ↦ rw (e) refl
    | inr e ↦ rw (e) refl
  ]

  -- After the fallback was asked to hold the secret: it does, or nothing has changed.
  abbrev Falls : String → Vault → Failure × Vault → Type 0
  Falls secret v (none, v') =
      (get_fallback service account name v' ≡ some secret) × (v'.keyring ≡ v.keyring)
  Falls secret v (some e, v') = v' ≡ v

  set_row-Falls :
      (secret : String) (v : Vault) (o : Option (List (String × String)))
      → Falls secret v (set_row service account name secret v o)
  unfolding set_row get_fallback
  set_row-Falls secret v none = refl
  set_row-Falls secret v (some rows) = elim (Bool-cases (service.is_uuid account)) [
    | inl u ↦ rw (u) (rw (u) (lookup-insert_self (key account name) secret rows), refl)
    | inr u ↦ rw (u) refl
  ]

  set_fallback-Falls :
      (secret : String) (v : Vault) → Falls secret v (set_fallback service account name secret v)
  unfolding set_fallback
  set_fallback-Falls secret v = set_row-Falls secret v v.fallback

  -- After a secret was set: the request `j` reads it; or there was an error, and nothing has changed.
  unfoldable pub Reads : ℕ → String → Vault → Failure × Vault → Type 0
  Reads j secret v (none, v') = get_secret service j account name v' ≡ ok secret
  Reads j secret v (some e, v') = v' ≡ v

  Falls-Reads :
      (j : ℕ) (e : Error) (secret : String) (v : Vault) (r : Failure × Vault)
      → ((e' : Error) × (service.trouble j ≡ some e'))
        ⊎ (lookup (key account name) v.keyring ≡ none)
      → Falls secret v r
      → Reads j secret v (set_through e r)
  unfolding Reads set_through
  Falls-Reads j e secret v (some f, v') h k = k
  Falls-Reads j e secret v (none, v') (inl h) k = get_secret-fallback j secret v' (inl h) k.0
  Falls-Reads j e secret v (none, v') (inr gone) k =
      get_secret-fallback j secret v' (inr (ap (lookup (key account name)) k.1 ∙ gone)) k.0

  set_secret-troubled :
      (i : ℕ) (e : Error) (secret : String) (v : Vault)
      → service.trouble i ≡ some e
      → set_secret service i account name secret v
        ≡ set_through e (set_fallback service account name secret v)
  unfolding set_secret set_through
  set_secret-troubled i e secret v h =
      rw (h, set_secret) (through e (set_fallback service account name secret v))

  set_secret-served :
      (i : ℕ) (secret : String) (v : Vault)
      → service.trouble i ≡ none
      → set_secret service i account name secret v ≡ (
        none,
        delete_fallback service account name
            (record v { keyring = insert (key account name) secret v.keyring }),
      )
  unfolding set_secret
  set_secret-served i secret v h = rw (h, set_secret) refl

  -- A secret that was set without an error is what is read next, if the keyring serves both requests, or
  -- if it does not serve the first and either does not serve the second or holds no older secret. An
  -- error changes nothing.
  pub set_secret-Reads :
      (i j : ℕ) (secret : String) (v : Vault)
      → IsReadable service i j account name v
      → Reads j secret v (set_secret service i account name secret v)
  unfolding Reads IsReadable
  set_secret-Reads i j secret v (inl (served, serves)) =
      let held = record v { keyring = insert (key account name) secret v.keyring } in
      subst (Reads j secret v) (sym (set_secret-served i secret v served)) (
        get_secret-keyring j secret (delete_fallback service account name held) serves (
          ap (lookup (key account name)) (delete_fallback-keyring held)
          ∙ lookup-insert_self (key account name) secret v.keyring))
  set_secret-Reads i j secret v (inr (e, troubled, h)) =
      subst (Reads j secret v) (sym (set_secret-troubled i e secret v troubled)) (
        Falls-Reads j e secret v (set_fallback service account name secret v) h
          (set_fallback-Falls secret v))
