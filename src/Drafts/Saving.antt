-- ===== src/Drafts/Saving.antt =====
-- store.go, what is saved can be read again, from memory and from the file.
pub mod Filed
pub mod Restart
use dankmail.Base.{
  ℕ, String, Bool, true, false, not, List, [], ◌∷◌, map, Option, none, some, leb, ◌==◌, string_eq,
  if◌then◌else◌, lookup, insert, remove, values, lookup-insert, lookup-insert_self, GoText, ◌≡◌,
  refl, sym, ap, ◌∙◌, inl, inr, arith, Bool-cases, Option-cases, ==→≡,
}
use dankmail.Errdefs.{or_else}
use dankmail.Drafts.{
  DraftView, Items, Files, or_text, save_item, get, inherit, insert_latest, sort_latest, load_onto,
  completed,
}
use dankmail.Drafts.Saving.Filed.{IsFiled, insert-IsFiled}

pub or_text-full : (s other : String) → (other == "") ≡ false → (or_text s other == "") ≡ false
or_text-full s other h = elim (Bool-cases (s == "")) [ inl e ↦ rw e h | inr e ↦ rw (e) e ]

either {ℓ} :
    {A : Type ℓ} (b : Bool) (o rest : Option A) (a : A)
    → (b ≡ true → o ≡ none)
    → or_else o (if b then some a else rest) ≡ or_else (if b then some a else o) rest
either true o rest a h = rw (h refl) refl
either false o rest a h = refl

pub or_else-none {ℓ} : {A : Type ℓ} (o : Option A) → or_else o none ≡ o
or_else-none none = refl
or_else-none (some a) = refl

-- The drafts by their ids.
abbrev pub pairs : List DraftView → Items
pairs [] = []
pairs (d ∷ ds) = (d.id, d) ∷ pairs ds

-- No id twice, and none empty.
abbrev pub AreUnique : List DraftView → Type 0
AreUnique [] = Unit {0}
AreUnique (d ∷ ds) = ((d.id == "") ≡ false) × (lookup d.id (pairs ds) ≡ none) × AreUnique ds

insert_latest-pairs :
    (id : String) (d : DraftView) (es : List DraftView)
    → lookup d.id (pairs es) ≡ none
    → lookup id (pairs (insert_latest d es)) ≡ (if d.id == id then some d else lookup id (pairs es))
unfolding insert_latest lookup
insert_latest-pairs id d [] fresh = refl
insert_latest-pairs id d (e ∷ es) fresh =
    let step = insert_latest-pairs id d es (ground (arith, fresh)) in
    ground (
      arith,
      step,
      fresh,
      string_eq.agrees d.id id,
      string_eq.agrees e.id id,
      string_eq.agrees e.id d.id,
    )

insert_latest-AreUnique :
    (d : DraftView) (es : List DraftView)
    → (d.id == "") ≡ false
    → lookup d.id (pairs es) ≡ none
    → AreUnique es
    → AreUnique (insert_latest d es)
unfolding insert_latest lookup
insert_latest-AreUnique d [] named fresh u = (named, fresh, tt)
insert_latest-AreUnique d (e ∷ es) named fresh u =
    elim (Bool-cases (leb e.updated_at d.updated_at)) [
      | inl b ↦ rw b (named, fresh, u)
      | inr b ↦
          let other : lookup d.id (pairs es) ≡ none = ground (arith, fresh) in
          rw b (
            u.0,
            insert_latest-pairs e.id d es other
                ∙ ground
                    (arith, u.1, fresh, string_eq.agrees d.id e.id, string_eq.agrees e.id d.id),
            insert_latest-AreUnique d es named other u.2,
          )
    ]

pub sort_latest-pairs :
    (id : String) (ds : List DraftView)
    → AreUnique ds
    → (lookup id (pairs (sort_latest ds)) ≡ lookup id (pairs ds)) × AreUnique (sort_latest ds)
unfolding sort_latest lookup
sort_latest-pairs id [] u = (refl, tt)
sort_latest-pairs id (d ∷ ds) u =
    let step = sort_latest-pairs id ds u.2 in
    let fresh = (sort_latest-pairs d.id ds u.2).0 ∙ u.1 in
    (
      insert_latest-pairs id d (sort_latest ds) fresh
          ∙ ap (λ o. if d.id == id then some d else o) step.0,
      insert_latest-AreUnique d (sort_latest ds) u.0 fresh step.1,
    )

pub load_onto-pairs :
    (id : String) (items : Items) (ds : List DraftView)
    → AreUnique ds
    → lookup id (load_onto items ds) ≡ or_else (lookup id (pairs ds)) (lookup id items)
unfolding load_onto lookup
load_onto-pairs id items [] u = refl
load_onto-pairs id items (d ∷ ds) u = rw (u.0) (
    load_onto-pairs id (insert d.id d items) ds u.2
    ∙ ap (or_else (lookup id (pairs ds))) (lookup-insert d.id id d items)
    ∙ either (d.id == id) (lookup id (pairs ds)) (lookup id items) d
        (λ e. ap (λ k. lookup k (pairs ds)) (sym (==→≡ d.id id e)) ∙ u.1))

pub values-pairs :
    (id : String) (items : Items)
    → IsFiled items
    → (lookup id (pairs (values items)) ≡ lookup id items) × AreUnique (values items)
unfolding values lookup IsFiled
values-pairs id [] h = (refl, tt)
values-pairs id (entry ∷ rest) h =
    let step = values-pairs id rest h.3 in
    let fresh = (values-pairs entry.0 rest h.3).0 ∙ h.2 in
    (
      ap (λ k. if k == id then some entry.1 else lookup id (pairs (values rest))) h.0
          ∙ ap (λ o. if entry.0 == id then some entry.1 else o) step.0,
      (ap (λ k. k == "") h.0 ∙ h.1, ap (λ k. lookup k (pairs (values rest))) h.0 ∙ fresh, step.1),
    )

module _ (go : GoText) (files : Files) where
  pub save-names :
      (new_id : String) (now : ℕ) (d : DraftView) (items : Items)
      → (save_item go files new_id now d items).0.id ≡ or_text d.id new_id
  unfolding save_item inherit completed
  save-names new_id now d items = elim (Option-cases (lookup (or_text d.id new_id) items)) [
    | inl e ↦ rw e refl
    | inr (prev, e) ↦ rw e refl
  ]

  -- A saved draft can be read under its own id, or under the new one if it had none; every other draft
  -- stays as it was; and if each draft of the store stood under its own id, once, and that not empty, so
  -- it does afterwards. The new id is not empty.
  pub save-get :
      (new_id : String) (now : ℕ) (d : DraftView) (items : Items) (other : String)
      → (new_id == "") ≡ false
      → IsFiled items
      → (get (or_text d.id new_id) (save_item go files new_id now d items).1
          ≡ some (save_item go files new_id now d items).0)
        × ((or_text d.id new_id == other) ≡ false
            → get other (save_item go files new_id now d items).1 ≡ get other items)
        × IsFiled (save_item go files new_id now d items).1
  unfolding get save_item
  save-get new_id now d items other named h =
      let d' = (save_item go files new_id now d items).0 in
      let own = save-names new_id now d items in
      let full : (d'.id == "") ≡ false = ap (λ k. k == "") own ∙ or_text-full d.id new_id named in
      (
        ap (λ k. lookup k (insert d'.id d' items)) (sym own) ∙ lookup-insert_self d'.id d' items,
        λ apart.
            lookup-insert d'.id other d' items
            ∙ ap (λ k. if k == other then some d' else lookup other items) own
            ∙ ap (λ b. if b then some d' else lookup other items) apart,
        insert-IsFiled d' items full h,
      )

  -- A draft that is saved again stays linked to its provider: if the provider's id of the draft that it
  -- replaces is not empty, that of the new one is not, and it is the old one unless the new draft names
  -- another; and the same for the thread.
  pub save-inherit :
      (new_id : String) (now : ℕ) (d prev : DraftView) (items : Items)
      → (d.id == "") ≡ false
      → get d.id items ≡ some prev
      → ((save_item go files new_id now d items).0.provider_draft_id
          ≡ or_text d.provider_draft_id prev.provider_draft_id)
        × ((save_item go files new_id now d items).0.provider_thread_id
            ≡ or_text d.provider_thread_id prev.provider_thread_id)
        × ((prev.provider_draft_id == "") ≡ false
            → ((save_item go files new_id now d items).0.provider_draft_id == "") ≡ false)
  unfolding save_item inherit completed get
  save-inherit new_id now d prev items named h =
      rw (named)
        (rw (h) (refl, refl, λ full. or_text-full d.provider_draft_id prev.provider_draft_id full))
