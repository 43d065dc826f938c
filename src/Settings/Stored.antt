-- ===== src/Settings/Stored.antt =====
-- settings.go, the store and its file.
use dankmail.Base.{
  Option, none, some, ◌≡◌, refl, sym, ap, ◌⊎◌, inl, inr, arith, subst, Option-cases, contains, skip,
  keep, nothing,
}
use dankmail.Errdefs.{Error, Failure}
use dankmail.Settings.{
  Settings, Store, validate, reload, update, new_store, defaults, settings_of, settle, save, Write,
  written, broken_off, known_preset,
}
use dankmail.Settings.Valid.{IsValid, validate-IsValid}

validate-cases :
    (s : Settings)
    → ((s' : Settings) × (e : Error) × (validate s ≡ (s', some e)))
      ⊎ ((s' : Settings) × (validate s ≡ (s', none)))
validate-cases s = elim (Option-cases (validate s).1) [
  | inr (e, failed) ↦ inl ((validate s).0, e, ap (λ r. ((validate s).0, r)) failed)
  | inl fine ↦ inr ((validate s).0, ap (λ r. ((validate s).0, r)) fine)
]

defaults-IsValid : IsValid defaults
unfolding known_preset contains
defaults-IsValid = record {
  canonical = keep "archive" (skip "trash" (keep "read" (skip "snooze" (keep "open" nothing))));
  poll = omega arith;
  minutes = omega arith;
  preset = refl;
}

reload-IsValid : (read : Failure) (st : Store) → IsValid st.cur → IsValid (reload read st).0.cur
unfolding reload settle
reload-IsValid (some e) st h = h
reload-IsValid none st h = elim (validate-cases (settings_of st.file)) [
  | inl (s', e, bad) ↦ rw bad h
  | inr (s', fine) ↦ rw fine (validate-IsValid (settings_of st.file) s' fine).0
]

update-IsValid :
    (write : Write) (s : Settings) (st : Store) → IsValid st.cur → IsValid (update write s st).0.cur
unfolding update save
update-IsValid written s st h = elim (validate-cases s) [
  | inl (s', e, bad) ↦ rw bad h
  | inr (s', fine) ↦ rw fine (validate-IsValid s s' fine).0
]
update-IsValid (broken_off e file) s st h = elim (validate-cases s) [
  | inl (s', e', bad) ↦ rw bad h
  | inr (s', fine) ↦ rw fine h
]

-- The settings in force are always valid ones: a new store has them whatever its file holds or however
-- the reading fails, and each reload and update keeps that, also one that fails.
pub new_store-IsValid :
    (read again : Failure) (write : Write) (file : Option Settings) (s : Settings)
    → IsValid (new_store read file).cur
      × IsValid (update write s (new_store read file)).0.cur
      × ((st : Store)
          → IsValid st.cur
          → IsValid (reload again st).0.cur × IsValid (update write s st).0.cur)
unfolding new_store
new_store-IsValid read again write file s =
    let start = reload-IsValid read (record { file = file; cur = defaults }) defaults-IsValid in
    (
      start,
      update-IsValid write s (new_store read file) start,
      λ st h. (reload-IsValid again st h, update-IsValid write s st h),
    )

module _ (s s' : Settings) (st : Store) where
  update-rejected :
      (write : Write) (e : Error) → validate s ≡ (s', some e) → update write s st ≡ (st, some e)
  unfolding update save
  update-rejected write e bad = rw bad

  update-broken_off :
      (e : Error) (file : Option Settings)
      → validate s ≡ (s', none)
      → update (broken_off e file) s st ≡ (record st { file = file }, some e)
  unfolding update save
  update-broken_off e file fine = rw fine

  abbrev stored : Store
  stored = record { file = some s'; cur = s' }

  update-stored : validate s ≡ (s', none) → update written s st ≡ (stored, none)
  unfolding update save
  update-stored fine = rw fine

  reload-stored : validate s' ≡ (s', none) → reload none stored ≡ (stored, none)
  unfolding reload settle settings_of
  reload-stored again = ap (settle stored) again

-- What a store and an error of an update say.
abbrev Outlives : Settings → Write → Store → Store × Failure → Type 0
Outlives s write st r =
    (r.1 ≡ none → reload none r.0 ≡ (r.0, none))
    × ((e : Error)
        → r.1 ≡ some e
        → (r.0.cur ≡ st.cur)
          × ((r.0.file ≡ st.file) ⊎ (((validate s).1 ≡ none) × (write ≡ broken_off e r.0.file))))

written_as :
    (s s' : Settings) (st : Store) (write : Write)
    → validate s ≡ (s', none)
    → Outlives s write st (update write s st)
written_as s s' st (broken_off e file) fine =
    subst (Outlives s (broken_off e file) st) (sym (update-broken_off s s' st e file fine)) (
      λ h. cc h,
      λ e' h. (
        refl,
        inr (
          ap (λ (r : Settings × Failure). r.1) fine,
          ap (λ x. broken_off x file) (ground (arith, h)),
        ),
      ),
    )
written_as s s' st written fine =
    subst (Outlives s written st) (sym (update-stored s s' st fine))
      (λ h. reload-stored s s' st (validate-IsValid s s' fine).2, λ e h. cc h)

-- An update that succeeds is what a reload of the file gives back, exactly. One that fails leaves the
-- settings in force as they were, and the file too, unless the settings were valid and the writing of
-- the file itself was broken off: then the file is what that left.
pub reload-update :
    (write : Write) (s : Settings) (st : Store)
    → ((update write s st).1 ≡ none
        → reload none (update write s st).0 ≡ ((update write s st).0, none))
      × ((e : Error)
          → (update write s st).1 ≡ some e
          → ((update write s st).0.cur ≡ st.cur)
            × (((update write s st).0.file ≡ st.file)
                ⊎ (((validate s).1 ≡ none) × (write ≡ broken_off e (update write s st).0.file))))
reload-update write s st = elim (validate-cases s) [
  | inl (s', e, bad) ↦
      subst (Outlives s write st) (sym (update-rejected s s' st write e bad))
        (λ h. cc h, λ e h. (refl, inl refl))
  | inr (s', fine) ↦ written_as s s' st write fine
]
