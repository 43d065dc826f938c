-- ===== src/Drafts/Abstract.antt =====
-- store.go, what the store promises: a finite map from ids to drafts, and its copy in a file.
use dankmail.Base.{
  ℕ, String, false, List, [], ◌∷◌, none, some, ◌==◌, string_eq, if◌then◌else◌, lookup, remove,
  lookup-insert, lookup-remove, GoText, ◌≡◌, refl, sym, subst, ap, ◌∙◌, fun_ext, inl, inr,
  Option-cases,
}
use dankmail.Errdefs.{Failure}
use dankmail.Drafts.{
  DraftView, Items, Files, Store, or_text, save_item, save, get, delete, inherit, completed,
  new_store,
}
use dankmail.Drafts.Saving.{save-names, or_text-full}
use dankmail.Drafts.Saving.Restart.{restarted}
use dankmail.Drafts.Contents.{
  Contents, view, assign, write_down, new_store-IsFiled, new_store-view, persist_locked-view,
}
use dankmail.Drafts.Saving.Filed.{
  IsFiled, insert-IsFiled, remove-IsFiled, persist_locked-items, delete-IsFiled,
}

-- An operation on the store: a save, with the id and the time that it would take and the error of
-- writing the file; a deletion, with that error; and a restart, with the error of reading the file.
pub data Operation : Type 0 where
  saves : String → ℕ → DraftView → Failure → Operation
  deletes : String → Failure → Operation
  restarts : Failure → Operation

module _ (go : GoText) (files : Files) where
  -- The code.
  unfoldable pub operate : Operation → Store → Store
  operate (saves new_id now d write) st = (save go files new_id now d write st).2
  operate (deletes id write) st = (delete id write st).2
  operate (restarts read) st = new_store read st.path st.file

  unfoldable pub operate_all : List Operation → Store → Store
  unfolding operate
  operate_all [] st = st
  operate_all (o ∷ more) st = operate_all more (operate o st)

  -- The specification.
  unfoldable pub specify : Operation → Contents → Contents
  unfolding write_down
  specify (saves new_id now d write) (path, held, filed) =
      let id = or_text d.id new_id in
      write_down write
        (assign id
          (some (completed go files now (inherit go files (held id) (record d { id = id })))) held)
        (path, held, filed)
  specify (deletes id write) (path, held, filed) = elim (held id) [
    | none ↦ (path, held, filed)
    | some d ↦ write_down write (assign id none held) (path, held, filed)
  ]
  specify (restarts read) (path, held, filed) = (path, restarted path read filed, filed)

  unfoldable pub specify_all : List Operation → Contents → Contents
  unfolding specify
  specify_all [] contents = contents
  specify_all (o ∷ more) contents = specify_all more (specify o contents)

  -- The ids that a save may take are not empty.
  unfoldable pub IsNamed : Operation → Type 0
  IsNamed (saves new_id now d write) = (new_id == "") ≡ false
  IsNamed _ = Unit {0}

  unfoldable pub AreNamed : List Operation → Type 0
  unfolding IsNamed
  AreNamed [] = Unit {0}
  AreNamed (o ∷ more) = IsNamed o × AreNamed more

  save_item-IsFiled :
      (new_id : String) (now : ℕ) (d : DraftView) (items : Items)
      → (new_id == "") ≡ false
      → IsFiled items
      → IsFiled (save_item go files new_id now d items).1
  unfolding save_item
  save_item-IsFiled new_id now d items named h =
      insert-IsFiled (save_item go files new_id now d items).0 items
        (ap (λ k. k == "") (save-names go files new_id now d items)
          ∙ or_text-full d.id new_id named)
        h

  operate-IsFiled :
      (o : Operation) (st : Store) → IsNamed o → IsFiled st.items → IsFiled (operate o st).items
  unfolding operate save IsNamed
  operate-IsFiled (saves new_id now d write) st named h =
      let items = (save_item go files new_id now d st.items).1 in
      subst IsFiled (sym (persist_locked-items write (record st { items = items })))
        (save_item-IsFiled new_id now d st.items named h)
  operate-IsFiled (deletes id write) st named h = delete-IsFiled id write st h
  operate-IsFiled (restarts read) st named h = new_store-IsFiled read st.path st.file

  save_item-get :
      (new_id : String) (now : ℕ) (d : DraftView) (items : Items)
      → (λ id. get id (save_item go files new_id now d items).1)
        ≡ assign
            (or_text d.id new_id)
            (some (
              completed go files now (
                inherit go files
                  (get (or_text d.id new_id) items)
                  (record d { id = or_text d.id new_id }))))
            (λ id. get id items)
  unfolding get save_item
  save_item-get new_id now d items =
      let d' = (save_item go files new_id now d items).0 in
      fun_ext (λ other.
        lookup-insert d'.id other d' items
        ∙ ap (λ k. if k == other then some d' else lookup other items)
            (save-names go files new_id now d items))

  operate-view :
      (o : Operation) (st : Store)
      → IsNamed o
      → IsFiled st.items
      → view (operate o st) ≡ specify o (view st)
  unfolding operate view specify get save delete IsNamed lookup
  operate-view (saves new_id now d write) st named h =
      let items = (save_item go files new_id now d st.items).1 in
      persist_locked-view write items st (save_item-IsFiled new_id now d st.items named h)
      ∙ ap (λ drafts. write_down write drafts (view st)) (save_item-get new_id now d st.items)
  operate-view (deletes id write) st named h = elim (Option-cases (lookup id st.items)) [
    | inl e ↦ rw (e, operate, delete) (rw (e, specify, view, get) refl)
    | inr (d, e) ↦
        rw (e, operate, delete)
          (rw (e, specify, view, get)
            (persist_locked-view write (remove id st.items) st (remove-IsFiled id st.items h)
              ∙ ap (λ drafts. write_down write drafts (view st))
                  (fun_ext (λ other. lookup-remove id other st.items))))
  ]
  operate-view (restarts read) st named h = new_store-view read st.path st.file

  -- The store is the map that it promises to be, and its file the copy: whatever is saved, deleted and
  -- restarted, in whatever order and whichever reads and writes of the file fail, each id has the draft
  -- in memory and in the file that it has in the specification, if each draft stood under its own id,
  -- once, and that not empty, and no save takes an empty id. There only a save, and a deletion of a
  -- draft that is there, write the file, as long as there is a path and the write does not fail, and a
  -- restart reads nothing else than the file.
  pub operate_all-view :
      (operations : List Operation) (st : Store)
      → AreNamed operations
      → IsFiled st.items
      → view (operate_all operations st) ≡ specify_all operations (view st)
  unfolding operate_all specify_all AreNamed
  operate_all-view [] st named h = refl
  operate_all-view (o ∷ more) st named h =
      operate_all-view more (operate o st) named.1 (operate-IsFiled o st named.0 h)
      ∙ ap (specify_all more) (operate-view o st named.0 h)
