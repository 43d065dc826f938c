-- ===== src/Drafts/Saving/Filed.antt =====
-- store.go, each draft stands under its own id, once, and the id is not empty.
use dankmail.Base.{
  String, false, [], ◌∷◌, none, ◌==◌, ==→≡, string_eq, lookup, insert, remove, lookup-insert,
  lookup-remove, Option-cases, ◌≡◌, refl, sym, ap, ◌∙◌, ◌⊎◌, inl, inr, arith, Bool-cases,
}
use dankmail.Errdefs.{Failure}
use dankmail.Drafts.{DraftView, Items, Store, persist_locked, delete}

unfoldable pub IsFiled : Items → Type 0
IsFiled [] = Unit {0}
IsFiled (entry ∷ rest) =
    (entry.1.id ≡ entry.0) × ((entry.0 == "") ≡ false) × (lookup entry.0 rest ≡ none) × IsFiled rest

pub insert-IsFiled :
    (d : DraftView) (items : Items)
    → (d.id == "") ≡ false
    → IsFiled items
    → IsFiled (insert d.id d items)
unfolding IsFiled insert lookup
insert-IsFiled d [] named h = (refl, named, refl, tt)
insert-IsFiled d (entry ∷ rest) named h = elim (Bool-cases (entry.0 == d.id)) [
  | inl e ↦ rw e (refl, named, ap (λ k. lookup k rest) (sym (==→≡ entry.0 d.id e)) ∙ h.2, h.3)
  | inr e ↦ rw e (
    h.0,
    h.1,
    lookup-insert d.id entry.0 d rest
        ∙ ground (arith, h.2, e, string_eq.agrees d.id entry.0, string_eq.agrees entry.0 d.id),
    insert-IsFiled d rest named h.3,
  )
]

pub remove-IsFiled : (id : String) (items : Items) → IsFiled items → IsFiled (remove id items)
unfolding IsFiled remove
remove-IsFiled id [] h = tt
remove-IsFiled id (entry ∷ rest) h = elim (Bool-cases (entry.0 == id)) [
  | inl e ↦ rw e (remove-IsFiled id rest h.3)
  | inr e ↦
      rw e
        (h.0, h.1, lookup-remove id entry.0 rest ∙ ground (arith, h.2), remove-IsFiled id rest h.3)
]

pub persist_locked-items :
    (write : Failure) (st : Store) → (persist_locked write st).0.items ≡ st.items
unfolding persist_locked
persist_locked-items write st = elim (Bool-cases (st.path == "")) [
  | inl p ↦ rw (p) refl
  | inr p ↦ elim (Option-cases write) [
    | inl w ↦ rw (p) (rw (w) refl)
    | inr (e, w) ↦ rw (p) (rw (w) refl)
  ]
]

-- A draft that is not there is the only one that a deletion leaves.
pub delete-items :
    (id : String) (write : Failure) (st : Store)
    → ((lookup id st.items ≡ none) × ((delete id write st).2 ≡ st))
      ⊎ ((delete id write st).2
          ≡ (persist_locked write (record st { items = remove id st.items })).0)
unfolding delete
delete-items id write st = elim (Option-cases (lookup id st.items)) [
  | inl e ↦ inl (e, rw (e, delete) refl)
  | inr (d, e) ↦ inr (rw (e, delete) refl)
]

pub delete-IsFiled :
    (id : String) (write : Failure) (st : Store)
    → IsFiled st.items
    → IsFiled (delete id write st).2.items
delete-IsFiled id write st h = elim (delete-items id write st) [
  | inl k ↦ rw (k.1) h
  | inr k ↦ rw (k) (
      rw (persist_locked-items write (record st { items = remove id st.items }))
        (remove-IsFiled id st.items h))
]
