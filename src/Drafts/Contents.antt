-- ===== src/Drafts/Contents.antt =====
-- store.go, what the store and its file hold, as maps without an order.
use dankmail.Base.{
  String, List, [], ◌∷◌, Option, ◌==◌, string_eq, if◌then◌else◌, insert, ◌≡◌, refl, ap, ◌∙◌,
  fun_ext, inl, inr, Bool-cases, Option-cases,
}
use dankmail.Errdefs.{Failure}
use dankmail.Drafts.{
  DraftView, Items, Store, get, persist_locked, load, load_list, load_onto, new_store,
}
use dankmail.Drafts.Saving.Restart.{
  filed_draft, persisted, restarted, filed_draft-persist_locked, new_store-get,
}
use dankmail.Drafts.Saving.Filed.{IsFiled, insert-IsFiled, persist_locked-items}

-- The drafts by id, without an order.
abbrev pub Drafts : Type 0
Drafts = String → Option DraftView

-- The path of the file, the drafts in memory, and those in the file.
abbrev pub Contents : Type 0
Contents = String × Drafts × Drafts

unfoldable pub view : Store → Contents
view st = (st.path, (λ id. get id st.items), filed_draft st.file)

abbrev pub assign : String → Option DraftView → Drafts → Drafts
assign id d drafts = λ other. if id == other then d else drafts other

-- What is loaded stands under its own id, whatever the file holds.
load_onto-IsFiled :
    (items : Items) (ds : List DraftView) → IsFiled items → IsFiled (load_onto items ds)
unfolding load_onto
load_onto-IsFiled items [] h = h
load_onto-IsFiled items (d ∷ ds) h = elim (Bool-cases (d.id == "")) [
  | inl e ↦ rw (e) (load_onto-IsFiled items ds h)
  | inr e ↦ rw (e) (load_onto-IsFiled (insert d.id d items) ds (insert-IsFiled d items e h))
]

pub new_store-IsFiled :
    (read : Failure) (path : String) (file : Option (List DraftView))
    → IsFiled (new_store read path file).items
unfolding new_store load load_list IsFiled
new_store-IsFiled read path file = elim (Bool-cases (path == "")) [
  | inl p ↦ rw (p, new_store, load) tt
  | inr p ↦ elim (Option-cases read) [
    | inl r ↦ elim (Option-cases file) [
      | inl f ↦ rw (p, new_store, load) (rw (r) (rw (f) tt))
      | inr (list, f) ↦ rw (p, new_store, load) (rw (r) (rw (f) (load_onto-IsFiled [] list tt)))
    ]
    | inr (e, r) ↦ rw (p, new_store, load) (rw (r) tt)
  ]
]

abbrev the_contents : String → Drafts → Drafts → Contents
the_contents p h f = (p, h, f)

contents_ext :
    (p q : String) (h k f g : Drafts)
    → p ≡ q
    → ((id : String) → h id ≡ k id)
    → ((id : String) → f id ≡ g id)
    → (the_contents p h f ≡ the_contents q k g)
contents_ext p q h k f g same held filed =
    ap (λ r. the_contents r h f) same
    ∙ ap (λ m. the_contents q m f) (fun_ext held)
    ∙ ap (λ m. the_contents q k m) (fun_ext filed)

new_store-file :
    (read : Failure) (path : String) (file : Option (List DraftView))
    → ((new_store read path file).path ≡ path) × ((new_store read path file).file ≡ file)
unfolding new_store load
new_store-file read path file = elim (Bool-cases (path == "")) [
  | inl p ↦ rw (p, new_store, load) (refl, refl)
  | inr p ↦ elim (Option-cases read) [
    | inl r ↦ elim (Option-cases file) [
      | inl f ↦ rw (p, new_store, load) (rw (r) (rw (f) (refl, f)))
      | inr (list, f) ↦ rw (p, new_store, load) (rw (r) (rw (f) (refl, f)))
    ]
    | inr (e, r) ↦ rw (p, new_store, load) (rw (r) (refl, refl))
  ]
]

pub new_store-view :
    (read : Failure) (path : String) (file : Option (List DraftView))
    → view (new_store read path file)
      ≡ (path, restarted path read (filed_draft file), filed_draft file)
unfolding view
new_store-view read path file =
    let st = new_store read path file in
    let (same_path, same_file) = new_store-file read path file in
    contents_ext st.path path (λ id. get id st.items) (restarted path read (filed_draft file))
      (filed_draft st.file) (filed_draft file) same_path (new_store-get read path file)
      (λ id. ap (λ f. filed_draft f id) same_file)

persist_locked-path : (write : Failure) (st : Store) → (persist_locked write st).0.path ≡ st.path
unfolding persist_locked
persist_locked-path write st = elim (Bool-cases (st.path == "")) [
  | inl p ↦ rw (p) refl
  | inr p ↦ elim (Option-cases write) [
    | inl w ↦ rw (p) (rw (w) refl)
    | inr (e, w) ↦ rw (p) (rw (w) refl)
  ]
]

-- The drafts are changed to some, and these are written to the file.
unfoldable pub write_down : Failure → Drafts → Contents → Contents
write_down write drafts (path, held, filed) = (path, drafts, persisted path write drafts filed)

pub persist_locked-view :
    (write : Failure) (items : Items) (st : Store)
    → IsFiled items
    → view (persist_locked write (record st { items = items })).0
      ≡ write_down write (λ id. get id items) (view st)
unfolding view write_down
persist_locked-view write items st h =
    let changed = record st { items = items } in
    let st' = (persist_locked write changed).0 in
    contents_ext st'.path st.path (λ id. get id st'.items) (λ id. get id items)
      (filed_draft st'.file) (persisted st.path write (λ id. get id items) (filed_draft st.file))
      (persist_locked-path write changed)
      (λ id. ap (λ l. get id l) (persist_locked-items write changed))
      (λ id. filed_draft-persist_locked write changed id h)
