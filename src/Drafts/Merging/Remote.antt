-- ===== src/Drafts/Merging/Remote.antt =====
-- store.go, which drafts a merge of the remote ones keeps and which it removes.
use dankmail.Base.{
  ℕ, suc, String, Bool, true, false, List, [], ◌∷◌, Option, none, some, ◌==◌, ==→≡, subst,
  string_eq, if◌then◌else◌, contains, lookup, insert, remove, lookup-insert, lookup-remove, is_some,
  All, GoText, ◌≡◌, refl, sym, ap, ◌∙◌, inl, inr, arith, Bool-cases,
}
use dankmail.Drafts.{DraftView, DraftItem, Items, get}
use dankmail.Drafts.Saving.Filed.{IsFiled}
use dankmail.Drafts.Merging.{
  is_remote_of, by_provider_id, merged, merge_one, merge_all, seen_remote, drop_vanished,
  merge_remote, id_for, draft_at,
}
use dankmail.Drafts.Merging.Frame.{
  IsLocal, by_provider_id-Avoids, merge_all-lookup, drop_vanished-lookup, drop_vanished-gone,
}

either-is_some {ℓ} :
    {A : Type ℓ} (a : A) (b : Bool) (o : Option A)
    → is_some o ≡ true
    → is_some (if b then some a else o) ≡ true
either-is_some a true o h = refl
either-is_some a false o h = h

-- The entries of an index that name `id` have one provider id.
abbrev Names : String → String → List (String × String) → Type 0
Names id key = All (λ entry. (entry.1 == id) ≡ true → entry.0 ≡ key)

insert-Names :
    (id key k value : String) (by : List (String × String))
    → ((value == id) ≡ true → k ≡ key)
    → Names id key by
    → Names id key (insert k value by)
unfolding insert
insert-Names id key k value [] h n = (h, tt)
insert-Names id key k value (entry ∷ rest) h n = elim (Bool-cases (entry.0 == k)) [
  | inl e ↦ rw e (h, n.1)
  | inr e ↦ rw e (n.0, insert-Names id key k value rest h n.1)
]

-- The draft under `id`, if there is one, has the provider id.
unfoldable pub HasProviderId : String → Option DraftView → Type 0
HasProviderId key none = Unit {0}
HasProviderId key (some d) = d.provider_draft_id ≡ key

HasProviderId-head :
    (key id : String) (entry : String × DraftView) (rest : Items)
    → HasProviderId key (lookup id (entry ∷ rest))
    → (entry.0 == id) ≡ true
    → entry.1.provider_draft_id ≡ key
unfolding lookup HasProviderId
HasProviderId-head key id entry rest h e =
    subst (λ b. HasProviderId key (if b then some entry.1 else lookup id rest)) e h

HasProviderId-tail :
    (key id : String) (entry : String × DraftView) (rest : Items)
    → IsFiled (entry ∷ rest)
    → HasProviderId key (lookup id (entry ∷ rest))
    → HasProviderId key (lookup id rest)
unfolding lookup HasProviderId IsFiled
HasProviderId-tail key id entry rest filed h = elim (Bool-cases (entry.0 == id)) [
  | inl e ↦
      let gone : lookup id rest ≡ none =
        ap (λ k. lookup k rest) (sym (==→≡ entry.0 id e)) ∙ filed.2 in
      subst (HasProviderId key) (sym gone) tt
  | inr e ↦ subst (λ b. HasProviderId key (if b then some entry.1 else lookup id rest)) e h
]

by_provider_id-Names :
    (account id key : String) (items : Items) (by : List (String × String))
    → IsFiled items
    → HasProviderId key (lookup id items)
    → Names id key by
    → Names id key (by_provider_id account items by)
unfolding by_provider_id IsFiled
by_provider_id-Names account id key [] by filed h n = n
by_provider_id-Names account id key (entry ∷ rest) by filed h n =
    let later = HasProviderId-tail key id entry rest filed h in
    elim (Bool-cases (is_remote_of account entry.1)) [
      | inr e ↦ rw (e) (by_provider_id-Names account id key rest by filed.3 later n)
      | inl e ↦ rw (e) (
          by_provider_id-Names account id key rest (insert entry.1.provider_draft_id entry.0 by)
            filed.3 later
            (insert-Names id key entry.1.provider_draft_id entry.0 by
              (λ k. HasProviderId-head key id entry rest h k) n))
    ]

Names-apart :
    (seen : List String) (id key : String) (entry : String × String)
    → ((entry.1 == id) ≡ true → entry.0 ≡ key)
    → contains key seen ≡ true
    → contains entry.0 seen ≡ false
    → (entry.1 == id) ≡ false
Names-apart seen id key entry n at e = elim (Bool-cases (entry.1 == id)) [
  | inr k ↦ k
  | inl k ↦
      let unseen : contains key seen ≡ false = ap (λ s. contains s seen) (sym (n k)) ∙ e in
      absurd (ground (arith, unseen, at))
]

drop_vanished-stays :
    (seen : List String) (id key : String) (by : List (String × String)) (items : Items)
    → Names id key by
    → contains key seen ≡ true
    → lookup id (drop_vanished seen by items) ≡ lookup id items
unfolding drop_vanished
drop_vanished-stays seen id key [] items n at = refl
drop_vanished-stays seen id key (entry ∷ rest) items n at =
    elim (Bool-cases (contains entry.0 seen)) [
      | inl e ↦ rw (e) (drop_vanished-stays seen id key rest items n.1 at)
      | inr e ↦
          let apart : (entry.1 == id) ≡ false = Names-apart seen id key entry n.0 at e in
          rw (e) (
            drop_vanished-stays seen id key rest (remove entry.1 items) n.1 at
            ∙ lookup-remove entry.1 id items
            ∙ ap (λ b. if b then none else lookup id items) apart)
    ]

module _ (go : GoText) (account : String) (now : ℕ) (new_id : ℕ → String) where
  merge_one-is_some :
      (n : ℕ) (id : String) (by : List (String × String)) (r : DraftItem) (items : Items)
      → is_some (lookup id items) ≡ true
      → is_some (lookup id (merge_one go account now (new_id n) by r items)) ≡ true
  unfolding merge_one
  merge_one-is_some n id by r items h = elim (Bool-cases (r.provider_draft_id == "")) [
    | inl e ↦ rw (e) h
    | inr e ↦
        let known = lookup r.provider_draft_id by in
        let key = id_for known (new_id n) in
        rw (e) (
          ap is_some (
            lookup-insert key id (merged go account now (is_some known) key (draft_at key items) r)
              items)
          ∙ either-is_some (merged go account now (is_some known) key (draft_at key items) r)
              (key == id) (lookup id items) h)
  ]

  merge_all-is_some :
      (n : ℕ) (id : String) (by : List (String × String)) (rs : List DraftItem) (items : Items)
      → is_some (lookup id items) ≡ true
      → is_some (lookup id (merge_all go account now new_id by n rs items)) ≡ true
  unfolding merge_all
  merge_all-is_some n id by [] items h = h
  merge_all-is_some n id by (r ∷ rs) items h =
      merge_all-is_some (suc n) id by rs (merge_one go account now (new_id n) by r items)
        (merge_one-is_some n id by r items h)

-- A merge of the remote drafts of an account touches none of another account and none that its provider
-- does not know; it removes the draft that stands for a provider's id which is not among the remote
-- ones; and a draft whose provider's id is among them stays. Each draft stands under its own id, once,
-- and the new ids are not that of the draft.
pub merge_remote_lem :
    (go : GoText) (account : String) (now : ℕ) (new_id : ℕ → String) (remote : List DraftItem)
    (items : Items) (id : String)
    → IsFiled items
    → ((n : ℕ) → (new_id n == id) ≡ false)
    → (IsLocal account (get id items)
        → get id (merge_remote go account now new_id remote items) ≡ get id items)
      × ((key : String)
          → lookup key (by_provider_id account items []) ≡ some id
          → contains key (seen_remote remote) ≡ false
          → get id (merge_remote go account now new_id remote items) ≡ none)
      × ((d : DraftView)
          → get id items ≡ some d
          → contains d.provider_draft_id (seen_remote remote) ≡ true
          → is_some (get id (merge_remote go account now new_id remote items)) ≡ true)
unfolding merge_remote get HasProviderId
merge_remote_lem go account now new_id remote items id h fresh =
    let by = by_provider_id account items [] in
    let all = merge_all go account now new_id by 0 remote items in
    (
      λ local.
          let a = by_provider_id-Avoids account id items [] h local tt in
          drop_vanished-lookup (seen_remote remote) id by all a
          ∙ merge_all-lookup go account now new_id 0 id by remote items fresh a,
      λ key at gone. drop_vanished-gone (seen_remote remote) key id by all at gone,
      λ d at seen.
          let names =
            by_provider_id-Names account id d.provider_draft_id items [] h
              (subst (HasProviderId d.provider_draft_id) (sym at) refl) tt in
          ap is_some
            (drop_vanished-stays (seen_remote remote) id d.provider_draft_id by all names seen)
          ∙ merge_all-is_some go account now new_id 0 id by remote items (ap is_some at),
    )
