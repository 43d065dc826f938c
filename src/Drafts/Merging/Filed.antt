-- ===== src/Drafts/Merging/Filed.antt =====
-- store.go, a merge of the remote drafts keeps each draft under its own id.
use dankmail.Base.{
  ℕ, suc, String, false, List, [], ◌∷◌, none, ◌==◌, string_eq, contains, lookup, remove, is_some,
  GoText, ◌≡◌, refl, sym, subst, inl, inr, Bool-cases,
}
use dankmail.Errdefs.{Failure}
use dankmail.Drafts.{DraftItem, Items, Store, delete}
use dankmail.Drafts.Saving.Filed.{
  IsFiled, insert-IsFiled, remove-IsFiled, persist_locked-items, delete-IsFiled,
}
use dankmail.Drafts.Merging.{
  by_provider_id, merged, merge_one, merge_all, seen_remote, drop_vanished, merge_remote,
  merge_store, id_for, draft_at,
}
use dankmail.Drafts.Merging.Frame.{Avoids, IsLocal, by_provider_id-Avoids, id_for-other}

lookup-empty : (items : Items) → IsFiled items → lookup "" items ≡ none
unfolding lookup IsFiled
lookup-empty [] h = refl
lookup-empty (entry ∷ rest) h = rw (h.1) (lookup-empty rest h.3)

drop_vanished-IsFiled :
    (seen : List String) (by : List (String × String)) (items : Items)
    → IsFiled items
    → IsFiled (drop_vanished seen by items)
unfolding drop_vanished
drop_vanished-IsFiled seen [] items h = h
drop_vanished-IsFiled seen (entry ∷ rest) items h = elim (Bool-cases (contains entry.0 seen)) [
  | inl e ↦ rw (e) (drop_vanished-IsFiled seen rest items h)
  | inr e ↦
      rw (e)
        (drop_vanished-IsFiled seen rest (remove entry.1 items) (remove-IsFiled entry.1 items h))
]

module _ (go : GoText) (account : String) (now : ℕ) (new_id : ℕ → String)
    (named : (n : ℕ) → (new_id n == "") ≡ false) where
  merge_one-IsFiled :
      (n : ℕ) (by : List (String × String)) (r : DraftItem) (items : Items)
      → Avoids "" by
      → IsFiled items
      → IsFiled (merge_one go account now (new_id n) by r items)
  unfolding merge_one merged
  merge_one-IsFiled n by r items a h = elim (Bool-cases (r.provider_draft_id == "")) [
    | inl e ↦ rw (e) h
    | inr e ↦
        let known = lookup r.provider_draft_id by in
        let key = id_for known (new_id n) in
        rw (e) (
          insert-IsFiled (merged go account now (is_some known) key (draft_at key items) r) items
            (id_for-other go account now new_id n "" by r.provider_draft_id (named n) a) h)
  ]

  merge_all-IsFiled :
      (n : ℕ) (by : List (String × String)) (rs : List DraftItem) (items : Items)
      → Avoids "" by
      → IsFiled items
      → IsFiled (merge_all go account now new_id by n rs items)
  unfolding merge_all
  merge_all-IsFiled n by [] items a h = h
  merge_all-IsFiled n by (r ∷ rs) items a h =
      merge_all-IsFiled (suc n) by rs (merge_one go account now (new_id n) by r items) a
        (merge_one-IsFiled n by r items a h)

  -- If each draft of the store stands under its own id, once, and the id is not empty, so it is after a
  -- merge of the remote drafts and after a deletion, whether the file can be written or not. The new ids
  -- are not empty.
  pub merge_remote-IsFiled :
      (remote : List DraftItem) (write : Failure) (st : Store) (id : String)
      → IsFiled st.items
      → IsFiled (merge_remote go account now new_id remote st.items)
        × IsFiled (merge_store go account now new_id remote write st).items
        × IsFiled (delete id write st).2.items
  unfolding merge_remote merge_store IsLocal
  merge_remote-IsFiled remote write st id h =
      let items = st.items in
      let by = by_provider_id account items [] in
      let a =
        by_provider_id-Avoids account "" items [] h
          (subst (IsLocal account) (sym (lookup-empty items h)) tt) tt in
      let merged_items = merge_remote go account now new_id remote items in
      let kept : IsFiled merged_items =
        drop_vanished-IsFiled (seen_remote remote) by
          (merge_all go account now new_id by 0 remote items)
          (merge_all-IsFiled 0 by remote items a h) in
      (
        kept,
        subst IsFiled (sym (persist_locked-items write (record st { items = merged_items }))) kept,
        delete-IsFiled id write st h,
      )
