-- ===== src/Settings.antt =====
-- core/internal/settings/settings.go: the user's preferences and their store. The text of a settings
-- file is the settings it stands for: what reading it gives is an argument where it can fail.
pub mod Valid
pub mod Stored
use dankmail.Base.{
  ℕ, ℤ, pos, negsuc, String, Bool, true, false, ◌&&◌, List, [], ◌∷◌, Option, none, some, ltb, ◌==◌,
  string_eq, nat_eq, if◌then◌else◌, select, contains,
}
use dankmail.Errdefs.{Error, Failure, plain}

abbrev pub min_poll_seconds : ℕ
min_poll_seconds = 10

abbrev pub valid_notify_actions : List String
valid_notify_actions = "archive" ∷ "trash" ∷ "read" ∷ "snooze" ∷ "open" ∷ []

abbrev pub valid_snooze_presets : List String
valid_snooze_presets =
    "hour" ∷ "evening" ∷ "tomorrow" ∷ "laterweek" ∷ "weekend" ∷ "nextweek" ∷ "minutes" ∷ []

pub record Settings : Type 0 where
  pub notify_actions : List String
  pub snooze_preset : String
  pub snooze_minutes : ℤ
  pub mark_read_on_preview : Bool
  pub mark_read_on_reply : Bool
  pub mark_read_on_trash : Bool
  pub unarchive_on_star : Bool
  pub poll_seconds : ℤ

abbrev pub defaults : Settings
defaults = record {
  notify_actions = "archive" ∷ "read" ∷ "open" ∷ [];
  snooze_preset = "hour";
  snooze_minutes = pos 60;
  mark_read_on_preview = true;
  mark_read_on_reply = true;
  mark_read_on_trash = true;
  unarchive_on_star = false;
  poll_seconds = pos 60;
}

unfoldable pub known_action : String → Bool
unfolding contains
known_action a = contains a valid_notify_actions

unfoldable pub known_preset : String → Bool
unfolding contains
known_preset p = contains p valid_snooze_presets

-- Whether every action is a known one.
unfoldable pub known_actions : List String → Bool
unfolding known_action
known_actions [] = true
known_actions (a ∷ rest) = known_action a && known_actions rest

-- `if x <= 0 { x = default }`.
unfoldable pub positive_or : ℕ → ℤ → ℕ
positive_or default (pos n) = if n == 0 then default else n
positive_or default (negsuc n) = default

unfoldable pub at_least : ℕ → ℕ → ℕ
at_least low n = if ltb n low then low else n

-- The set of the actions, in the order of the list.
unfoldable pub normal_actions : List String → List String
unfolding contains
normal_actions actions = select (λ v. contains v actions) valid_notify_actions

unfoldable pub normal_poll : ℤ → ℤ
unfolding positive_or at_least
normal_poll seconds = pos (at_least min_poll_seconds (positive_or 60 seconds))

unfoldable pub normal_minutes : ℤ → ℤ
unfolding positive_or
normal_minutes minutes = pos (positive_or 60 minutes)

unfoldable pub normal_preset : String → String
normal_preset p = if p == "" then "hour" else p

-- The fields as `Validate` sets them, after its check of the actions.
unfoldable pub normalize : Settings → Settings
unfolding normal_actions normal_poll normal_minutes normal_preset
normalize s = record s {
  notify_actions = normal_actions s.notify_actions;
  poll_seconds = normal_poll s.poll_seconds;
  snooze_minutes = normal_minutes s.snooze_minutes;
  snooze_preset = normal_preset s.snooze_preset;
}

abbrev pub unknown_action : Error
unknown_action = plain "unknown notify action"

abbrev pub unknown_preset : Error
unknown_preset = plain "unknown snooze preset"

-- The settings as they stand after the call, and the error.
unfoldable pub validate : Settings → Settings × Failure
unfolding known_actions normalize known_preset
validate s =
    if known_actions s.notify_actions
    then if known_preset (normalize s).snooze_preset
      then (normalize s, none)
      else (normalize s, some unknown_preset)
    else (s, some unknown_action)

-- The store, with the file at its path: `none` if there is no file. Where the file is no settings, a
-- reload meets an error when it reads it.
pub record Store : Type 0 where
  pub file : Option Settings
  pub cur : Settings

-- How reading the file goes wrong, if it does: an error of the system or of the parser.
settle : Store → Settings × Failure → Store × Failure
settle st (s, some e) = (st, some e)
settle st (s, none) = (record st { cur = s }, none)

settings_of : Option Settings → Settings
settings_of none = defaults
settings_of (some s) = s

unfoldable pub reload : Failure → Store → Store × Failure
unfolding settle settings_of validate
reload (some e) st = (st, some e)
reload none st = settle st (validate (settings_of st.file))

unfoldable pub new_store : Failure → Option Settings → Store
unfolding reload
new_store read file = (reload read (record { file = file; cur = defaults })).0

-- How the writing of the file ends. `os.WriteFile` empties the file first, so an error may leave
-- another file than there was; an error before it, of making the directory, leaves the same.
pub data Write : Type 0 where
  written : Write
  broken_off : Error → Option Settings → Write

save : Store → Write → Settings × Failure → Store × Failure
save st write (s, some e) = (st, some e)
save st (broken_off e file) (s, none) = (record st { file = file }, some e)
save st written (s, none) = (record { file = some s; cur = s }, none)

unfoldable pub update : Write → Settings → Store → Store × Failure
unfolding save validate
update write s st = save st write (validate s)
