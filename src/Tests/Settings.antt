-- ===== src/Tests/Settings.antt =====
-- The settings.
use dankmail.Base.{string_eq, pos, negsuc, [], ◌∷◌, ◌≡◌, none, some, refl, ◌⊎◌, contains, select}
use dankmail.Errdefs.{Error, plain}
use dankmail.Settings.{
  Settings, Store, defaults, validate, known_actions, known_action, known_preset, normalize,
  normal_actions, normal_poll, normal_minutes, normal_preset, positive_or, at_least, reload, update,
  new_store, unknown_action, Write, written, broken_off,
}
use dankmail.Settings.Valid.{IsValid}
use dankmail.Settings.Stored.{new_store-IsValid, reload-update}

abbrev edited : Settings
edited = record defaults {
  notify_actions = "open" ∷ "archive" ∷ "open" ∷ [];
  poll_seconds = pos 3;
  snooze_minutes = negsuc 4;
  snooze_preset = "";
}

abbrev cleaned : Settings
cleaned = record defaults {
  notify_actions = "archive" ∷ "open" ∷ [];
  poll_seconds = pos 10;
  snooze_minutes = pos 60;
}

cleaned_run : validate edited ≡ (cleaned, none)
unfolding validate known_actions known_action known_preset normalize normal_actions normal_poll
    normal_minutes normal_preset positive_or at_least contains select
cleaned_run = refl

refused_run :
    (validate (record defaults { notify_actions = "delete" ∷ [] })).1 ≡ some unknown_action
unfolding validate known_actions known_action contains
refused_run = refl

abbrev fresh : Store
fresh = new_store (some (plain "settings: bad text")) (some edited)

new_store-IsValid_example :
    IsValid fresh.cur
    × IsValid (update written edited fresh).0.cur
    × ((st : Store)
        → IsValid st.cur
        → IsValid (reload none st).0.cur × IsValid (update written edited st).0.cur)
new_store-IsValid_example =
    new_store-IsValid (some (plain "settings: bad text")) none written (some edited) edited

-- The disk is full once the file is emptied: the settings in force stay, and the file is lost.
abbrev disk_full : Write
disk_full = broken_off (plain "no space left on device") none

reload-update_example :
    ((update disk_full edited fresh).1 ≡ none
      → reload none (update disk_full edited fresh).0 ≡ ((update disk_full edited fresh).0, none))
    × ((e : Error)
        → (update disk_full edited fresh).1 ≡ some e
        → ((update disk_full edited fresh).0.cur ≡ fresh.cur)
          × (((update disk_full edited fresh).0.file ≡ fresh.file)
              ⊎ (((validate edited).1 ≡ none)
                  × (disk_full ≡ broken_off e (update disk_full edited fresh).0.file))))
reload-update_example = reload-update disk_full edited fresh
