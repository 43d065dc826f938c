-- ===== src/Drafts/Merging/Frame.antt =====
-- store.go, the drafts that the index of a merge does not name, and those that vanished.
use dankmail.Base.{
  ℕ, suc, String, true, false, not, ◌&&◌, List, [], ◌∷◌, Option, none, some, ◌==◌, ==→≡, ==-self,
  subst, string_eq, if◌then◌else◌, contains, lookup, insert, remove, lookup-insert, lookup-remove,
  is_some, All, GoText, ◌≡◌, refl, sym, ap, ◌∙◌, inl, inr, arith, Bool-cases, Option-cases,
}
use dankmail.Drafts.{DraftView, DraftItem, Items}
use dankmail.Drafts.Saving.Filed.{IsFiled}
use dankmail.Drafts.Merging.{
  is_remote_of, by_provider_id, merged, merge_one, merge_all, drop_vanished, id_for, draft_at,
}

-- No entry of the index names the draft.
abbrev pub Avoids : String → List (String × String) → Type 0
Avoids id = All (λ entry. (entry.1 == id) ≡ false)

insert-Avoids :
    (id key value : String) (by : List (String × String))
    → (value == id) ≡ false
    → Avoids id by
    → Avoids id (insert key value by)
unfolding insert
insert-Avoids id key value [] h k = (h, tt)
insert-Avoids id key value (entry ∷ rest) h k = elim (Bool-cases (entry.0 == key)) [
  | inl e ↦ rw e (h, k.1)
  | inr e ↦ rw e (k.0, insert-Avoids id key value rest h k.1)
]

lookup-Avoids :
    (id key value : String) (by : List (String × String))
    → Avoids id by
    → lookup key by ≡ some value
    → (value == id) ≡ false
unfolding lookup
lookup-Avoids id key value [] h found = absurd (ground (arith, found))
lookup-Avoids id key value (entry ∷ rest) h found = elim (Bool-cases (entry.0 == key)) [
  | inl e ↦
      let same : entry.1 ≡ value = ground (arith, found, e) in ap (λ v. v == id) (sym same) ∙ h.0
  | inr e ↦ lookup-Avoids id key value rest h.1 (ground (arith, found, e))
]

-- The draft, if there is one, is another account's or has no provider id.
unfoldable pub IsLocal : String → Option DraftView → Type 0
IsLocal account none = Unit {0}
IsLocal account (some d) = (d.account_id == account && not (d.provider_draft_id == "")) ≡ false

IsLocal-tail :
    (account id : String) (entry : String × DraftView) (rest : Items)
    → IsFiled (entry ∷ rest)
    → IsLocal account (lookup id (entry ∷ rest))
    → IsLocal account (lookup id rest)
unfolding IsFiled lookup IsLocal
IsLocal-tail account id entry rest h k = elim (Bool-cases (entry.0 == id)) [
  | inl e ↦
      let gone : lookup id rest ≡ none =
        ap (λ key. lookup key rest) (sym (==→≡ entry.0 id e)) ∙ h.2 in
      subst (IsLocal account) (sym gone) tt
  | inr e ↦ subst (λ b. IsLocal account (if b then some entry.1 else lookup id rest)) e k
]

IsLocal-head :
    (account id : String) (entry : String × DraftView) (rest : Items)
    → IsLocal account (lookup id (entry ∷ rest))
    → is_remote_of account entry.1 ≡ true
    → (entry.0 == id) ≡ false
unfolding lookup IsLocal is_remote_of
IsLocal-head account id entry rest k remote = elim (Bool-cases (entry.0 == id)) [
  | inr e ↦ e
  | inl e ↦
      let local : is_remote_of account entry.1 ≡ false =
        subst (λ b. IsLocal account (if b then some entry.1 else lookup id rest)) e k in
      absurd (ground (arith, local, remote))
]

-- An index of the drafts that are remote does not name one that is not.
pub by_provider_id-Avoids :
    (account id : String) (items : Items) (by : List (String × String))
    → IsFiled items
    → IsLocal account (lookup id items)
    → Avoids id by
    → Avoids id (by_provider_id account items by)
unfolding by_provider_id IsFiled
by_provider_id-Avoids account id [] by h k a = a
by_provider_id-Avoids account id (entry ∷ rest) by h k a =
    let later = IsLocal-tail account id entry rest h k in
    elim (Bool-cases (is_remote_of account entry.1)) [
      | inr e ↦ rw (e) (by_provider_id-Avoids account id rest by h.3 later a)
      | inl e ↦ rw (e) (
          by_provider_id-Avoids account id rest (insert entry.1.provider_draft_id entry.0 by) h.3
            later
            (insert-Avoids id entry.1.provider_draft_id entry.0 by
              (IsLocal-head account id entry rest k e) a))
    ]

module _ (go : GoText) (account : String) (now : ℕ) (new_id : ℕ → String) where
  pub id_for-other :
      (n : ℕ) (id : String) (by : List (String × String)) (key : String)
      → (new_id n == id) ≡ false
      → Avoids id by
      → (id_for (lookup key by) (new_id n) == id) ≡ false
  id_for-other n id by key fresh a = elim (Option-cases (lookup key by)) [
    | inl e ↦ rw (e) fresh
    | inr (value, e) ↦ rw (e) (lookup-Avoids id key value by a e)
  ]

  merge_one-lookup :
      (n : ℕ) (id : String) (by : List (String × String)) (r : DraftItem) (items : Items)
      → (new_id n == id) ≡ false
      → Avoids id by
      → lookup id (merge_one go account now (new_id n) by r items) ≡ lookup id items
  unfolding merge_one
  merge_one-lookup n id by r items fresh a = elim (Bool-cases (r.provider_draft_id == "")) [
    | inl e ↦ rw (e) refl
    | inr e ↦
        let known = lookup r.provider_draft_id by in
        let key = id_for known (new_id n) in
        rw (e) (
          lookup-insert key id (merged go account now (is_some known) key (draft_at key items) r)
            items
          ∙ ap
              (λ b.
                if b
                then some (merged go account now (is_some known) key (draft_at key items) r)
                else lookup id items)
              (id_for-other n id by r.provider_draft_id fresh a))
  ]

  pub merge_all-lookup :
      (n : ℕ) (id : String) (by : List (String × String)) (rs : List DraftItem) (items : Items)
      → ((m : ℕ) → (new_id m == id) ≡ false)
      → Avoids id by
      → lookup id (merge_all go account now new_id by n rs items) ≡ lookup id items
  unfolding merge_all
  merge_all-lookup n id by [] items fresh a = refl
  merge_all-lookup n id by (r ∷ rs) items fresh a =
      merge_all-lookup (suc n) id by rs (merge_one go account now (new_id n) by r items) fresh a
      ∙ merge_one-lookup n id by r items (fresh n) a

pub drop_vanished-lookup :
    (seen : List String) (id : String) (by : List (String × String)) (items : Items)
    → Avoids id by
    → lookup id (drop_vanished seen by items) ≡ lookup id items
unfolding drop_vanished
drop_vanished-lookup seen id [] items a = refl
drop_vanished-lookup seen id (entry ∷ rest) items a = elim (Bool-cases (contains entry.0 seen)) [
  | inl e ↦ rw e (drop_vanished-lookup seen id rest items a.1)
  | inr e ↦ rw e (
      drop_vanished-lookup seen id rest (remove entry.1 items) a.1
      ∙ lookup-remove entry.1 id items
      ∙ ap (λ b. if b then none else lookup id items) a.0)
]

-- What is gone stays gone.
drop_vanished-none :
    (seen : List String) (id : String) (by : List (String × String)) (items : Items)
    → lookup id items ≡ none
    → lookup id (drop_vanished seen by items) ≡ none
unfolding drop_vanished
drop_vanished-none seen id [] items h = h
drop_vanished-none seen id (entry ∷ rest) items h = elim (Bool-cases (contains entry.0 seen)) [
  | inl e ↦ rw e (drop_vanished-none seen id rest items h)
  | inr e ↦ rw e (
      drop_vanished-none seen id rest (remove entry.1 items)
        (lookup-remove entry.1 id items ∙ ground (arith, h)))
]

pub drop_vanished-gone :
    (seen : List String) (key id : String) (by : List (String × String)) (items : Items)
    → lookup key by ≡ some id
    → contains key seen ≡ false
    → lookup id (drop_vanished seen by items) ≡ none
unfolding drop_vanished lookup
drop_vanished-gone seen key id [] items at gone = absurd (ground (arith, at))
drop_vanished-gone seen key id (entry ∷ rest) items at gone = elim (Bool-cases (entry.0 == key)) [
  | inl e ↦
      let same : entry.1 ≡ id = ground (arith, at, e) in
      let unseen : contains entry.0 seen ≡ false =
        ap (λ k. contains k seen) (==→≡ entry.0 key e) ∙ gone in
      rw (unseen) (
        drop_vanished-none seen id rest (remove entry.1 items) (
          ap (λ k. lookup id (remove k items)) same
          ∙ lookup-remove id id items
          ∙ ap (λ b. if b then none else lookup id items) (==-self id)))
  | inr e ↦
      let later : lookup key rest ≡ some id = ground (arith, at, e) in
      elim (Bool-cases (contains entry.0 seen)) [
        | inl b ↦ rw (b) (drop_vanished-gone seen key id rest items later gone)
        | inr b ↦ rw (b) (drop_vanished-gone seen key id rest (remove entry.1 items) later gone)
      ]
]
