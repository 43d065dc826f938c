-- ===== src/Drafts/Saving/Restart.antt =====
-- store.go, what is written to the file and what a restart reads from it.
use dankmail.Base.{
  Bool, String, true, false, List, [], ◌∷◌, map, Option, none, some, ◌==◌, string_eq, if◌then◌else◌,
  lookup, values, ◌≡◌, refl, sym, ap, ◌∙◌, inl, inr, Bool-cases, Option-cases,
}
use dankmail.Errdefs.{Failure}
use dankmail.Drafts.{
  DraftView, Items, Store, whole, get, sort_latest, written_list, persist_locked, load_list, load,
  new_store, reread, reread_snippet,
}
use dankmail.Drafts.Saving.{
  pairs, AreUnique, sort_latest-pairs, load_onto-pairs, values-pairs, or_else-none,
}
use dankmail.Drafts.Saving.Filed.{IsFiled}

abbrev pub reread_one : Option DraftView → Option DraftView
reread_one none = none
reread_one (some d) = some (reread d)

-- The draft that the file has under an id.
abbrev pub filed_draft : Option (List DraftView) → String → Option DraftView
filed_draft none id = none
filed_draft (some list) id = lookup id (load_list list)

reread_one-if :
    (b : Bool) (d : DraftView) (o : Option DraftView)
    → reread_one (if b then some d else o) ≡ (if b then some (reread d) else reread_one o)
reread_one-if true d o = refl
reread_one-if false d o = refl

pairs-reread :
    (id : String) (ds : List DraftView)
    → lookup id (pairs (map reread ds)) ≡ reread_one (lookup id (pairs ds))
unfolding lookup reread
pairs-reread id [] = refl
pairs-reread id (d ∷ ds) =
    ap (λ o. if d.id == id then some (reread d) else o) (pairs-reread id ds)
    ∙ sym (reread_one-if (d.id == id) d (lookup id (pairs ds)))

reread-AreUnique : (ds : List DraftView) → AreUnique ds → AreUnique (map reread ds)
unfolding reread
reread-AreUnique [] u = tt
reread-AreUnique (d ∷ ds) u =
    (u.0, pairs-reread d.id ds ∙ ap reread_one u.1, reread-AreUnique ds u.2)

pub load_list-written_list :
    (items : Items) (id : String)
    → IsFiled items
    → lookup id (load_list (written_list items)) ≡ reread_one (lookup id items)
unfolding load_list written_list lookup
load_list-written_list items id h =
    let (same, unique) = values-pairs id items h in
    let (sorted, still) = sort_latest-pairs id (values items) unique in
    let list = sort_latest (values items) in
    load_onto-pairs id [] (map reread list) (reread-AreUnique list still)
    ∙ or_else-none (lookup id (pairs (map reread list)))
    ∙ pairs-reread id list
    ∙ ap reread_one (sorted ∙ same)

-- What the file has once the drafts are written to it: nothing new without a path or with an error.
abbrev pub persisted :
    String
    → Failure
    → (String → Option DraftView)
    → (String → Option DraftView)
    → String
    → Option DraftView
persisted path write held filed id =
    if path == "" then filed id else elim write [ some e ↦ filed id | none ↦ reread_one (held id) ]

-- What a restart reads: nothing without a path or with an error.
abbrev pub restarted : String → Failure → (String → Option DraftView) → String → Option DraftView
restarted path read filed id =
    if path == "" then none else elim read [ some e ↦ none | none ↦ filed id ]

pub filed_draft-persist_locked :
    (write : Failure) (st : Store) (id : String)
    → IsFiled st.items
    → filed_draft (persist_locked write st).0.file id
      ≡ persisted st.path write (λ k. get k st.items) (filed_draft st.file) id
unfolding persist_locked get
filed_draft-persist_locked write st id h = elim (Bool-cases (st.path == "")) [
  | inl p ↦ rw (p) refl
  | inr p ↦ elim (Option-cases write) [
    | inl w ↦ rw (p) (rw (w) (load_list-written_list st.items id h))
    | inr (e, w) ↦ rw (p) (rw (w) refl)
  ]
]

pub new_store-get :
    (read : Failure) (path : String) (file : Option (List DraftView)) (id : String)
    → get id (new_store read path file).items ≡ restarted path read (filed_draft file) id
unfolding new_store load get lookup
new_store-get read path file id = elim (Bool-cases (path == "")) [
  | inl p ↦ rw (p, new_store, load) refl
  | inr p ↦ elim (Option-cases read) [
    | inl r ↦ elim (Option-cases file) [
      | inl f ↦ rw (p, new_store, load) (rw (r) (rw (f) refl))
      | inr (list, f) ↦ rw (p, new_store, load) (rw (r) (rw (f) refl))
    ]
    | inr (e, r) ↦ rw (p, new_store, load) (rw (r) refl)
  ]
]

-- After the drafts are written, a restart reads back under each id: with a path and no error the draft
-- of the store, each stray byte of its snippet replaced; if the write failed, the draft that the file had
-- before; and no draft if there is no path or the file cannot be read. A draft whose snippet is not cut
-- inside a character comes back as it was. The drafts of the store stand under their own ids, once, and
-- the ids are not empty.
pub new_store-persist_locked :
    (write read : Failure) (st : Store) (id : String)
    → IsFiled st.items
    → (get id (new_store read st.path (persist_locked write st).0.file).items
        ≡ restarted st.path read
            (persisted st.path write (λ k. get k st.items) (filed_draft st.file))
            id)
      × ((d : DraftView) (s : String) → d.snippet ≡ whole s → reread d ≡ d)
unfolding reread reread_snippet
new_store-persist_locked write read st id h = (
  new_store-get read st.path (persist_locked write st).0.file id
      ∙ ap (λ o. if st.path == "" then none else elim read [ some e ↦ none | none ↦ o ])
          (filed_draft-persist_locked write st id h),
  λ d s e. ap (λ t. record d { snippet = t }) (ap reread_snippet e ∙ sym e),
)
