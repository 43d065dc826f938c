-- ===== src/Settings/Valid.antt =====
-- settings.go, what `Validate` makes of the settings.
use dankmail.Base.{
  ℤ, pos, negsuc, ◌≤◌, String, Bool, true, false, List, [], ◌∷◌, none, some, ◌≡◌, ◌≢◌, refl, sym,
  ap, ◌∙◌, inl, inr, arith, string_eq, nat_eq, select, contains, All, All-map, subst, select_ext,
  contains-select, Sublist, Sublist-select, Bool-cases, at_least_zero,
}
use dankmail.Errdefs.{Error, Failure}
use dankmail.Settings.{min_poll_seconds}
use dankmail.Settings.{
  Settings, valid_notify_actions, known_action, known_preset, known_actions, normalize,
  normal_actions, normal_poll, normal_minutes, normal_preset, validate, positive_or, at_least,
  unknown_preset, unknown_action,
}

-- What holds of settings that are in force.
pub record IsValid (s : Settings) : Type 0 where
  pub canonical : Sublist s.notify_actions valid_notify_actions
  pub poll : min_poll_seconds ≤ at_least_zero s.poll_seconds
  pub minutes : 1 ≤ at_least_zero s.snooze_minutes
  pub preset : known_preset s.snooze_preset ≡ true

some≢none : {e : Error} → ◌≢◌ {A = Failure} (some e) none
some≢none h = cc

validate-run :
    (s : Settings)
    → known_actions s.notify_actions ≡ true
    → known_preset (normalize s).snooze_preset ≡ true
    → validate s ≡ (normalize s, none)
unfolding validate
validate-run s known preset = rw known (rw preset)

bad_action :
    (s : Settings) → known_actions s.notify_actions ≡ false → (validate s).1 ≡ some unknown_action
unfolding validate
bad_action s bad = rw bad

bad_preset :
    (s : Settings)
    → known_actions s.notify_actions ≡ true
    → known_preset (normalize s).snooze_preset ≡ false
    → (validate s).1 ≡ some unknown_preset
unfolding validate
bad_preset s known bad = rw known (rw bad)

-- The settings pass exactly if the actions and the preset are known.
pub record Passes (s s' : Settings) : Type 0 where
  pub result : normalize s ≡ s'
  pub actions : known_actions s.notify_actions ≡ true
  pub preset : known_preset (normalize s).snooze_preset ≡ true

pub validate-Passes : (s s' : Settings) → validate s ≡ (s', none) → Passes s s'
validate-Passes s s' h = elim (Bool-cases (known_actions s.notify_actions)) [
  | inr bad ↦ absurd (some≢none (sym (bad_action s bad) ∙ ap (λ r. r.1) h))
  | inl known ↦ elim (Bool-cases (known_preset (normalize s).snooze_preset)) [
    | inr bad ↦ absurd (some≢none (sym (bad_preset s known bad) ∙ ap (λ r. r.1) h))
    | inl preset ↦ record {
      result = ap (λ r. r.0) (sym (validate-run s known preset) ∙ h);
      actions = known;
      preset = preset;
    }
  ]
]

normal_poll-le : (i : ℤ) → min_poll_seconds ≤ at_least_zero (normal_poll i)
unfolding normal_poll positive_or at_least
normal_poll-le (pos n) = ground arith
normal_poll-le (negsuc n) = ground arith

normal_minutes-le : (i : ℤ) → 1 ≤ at_least_zero (normal_minutes i)
unfolding normal_minutes positive_or
normal_minutes-le (pos n) = ground arith
normal_minutes-le (negsuc n) = ground arith

normalize-IsValid :
    (s : Settings) → known_preset (normalize s).snooze_preset ≡ true → IsValid (normalize s)
unfolding normalize normal_actions
normalize-IsValid s h = record {
  canonical = Sublist-select (λ v. contains v s.notify_actions) valid_notify_actions;
  poll = normal_poll-le s.poll_seconds;
  minutes = normal_minutes-le s.snooze_minutes;
  preset = h;
}

known_actions-select :
    (q : String → Bool) (names : List String)
    → All (λ a. known_action a ≡ true) names
    → known_actions (select q names) ≡ true
unfolding known_actions select
known_actions-select q [] h = refl
known_actions-select q (a ∷ names) h = elim (Bool-cases (q a)) [
  | inl e ↦ rw (e, known_actions) (rw (h.0) (known_actions-select q names h.1))
  | inr e ↦ rw e (known_actions-select q names h.1)
]

all_known : All (λ a. known_action a ≡ true) valid_notify_actions
unfolding known_action contains
all_known = (refl, (refl, (refl, (refl, (refl, tt)))))

normalize-known : (s : Settings) → known_actions (normalize s).notify_actions ≡ true
unfolding normalize normal_actions
normalize-known s =
    known_actions-select (λ v. contains v s.notify_actions) valid_notify_actions all_known

contains-normal :
    (actions : List String) (v : String)
    → known_action v ≡ true
    → contains v (normal_actions actions) ≡ contains v actions
unfolding normal_actions known_action
contains-normal actions v known =
    contains-select (λ a. contains a actions) v valid_notify_actions ∙ rw known (ground arith)

normal_actions_idem :
    (actions : List String) → normal_actions (normal_actions actions) ≡ normal_actions actions
unfolding normal_actions
normal_actions_idem actions =
    select_ext (λ v. contains v (normal_actions actions)) (λ v. contains v actions)
      valid_notify_actions
      (All-map (λ v. known_action v ≡ true)
        (λ v. contains v (normal_actions actions) ≡ contains v actions) valid_notify_actions
        (contains-normal actions) all_known)

normal_poll_idem : (i : ℤ) → normal_poll (normal_poll i) ≡ normal_poll i
unfolding normal_poll positive_or at_least
normal_poll_idem (pos n) = ground arith
normal_poll_idem (negsuc n) = ground arith

normal_minutes_idem : (i : ℤ) → normal_minutes (normal_minutes i) ≡ normal_minutes i
unfolding normal_minutes positive_or
normal_minutes_idem (pos n) = ground arith
normal_minutes_idem (negsuc n) = ground arith

normal_preset_idem : (p : String) → normal_preset (normal_preset p) ≡ normal_preset p
unfolding normal_preset
normal_preset_idem p = ground arith

normalize_idem : (s : Settings) → normalize (normalize s) ≡ normalize s
unfolding normalize
normalize_idem s = rw (
  normal_actions_idem s.notify_actions,
  normal_poll_idem s.poll_seconds,
  normal_minutes_idem s.snooze_minutes,
  normal_preset_idem s.snooze_preset,
)

-- If `Validate` accepts the settings, it leaves settings that are in force: the actions without
-- repetition in the order of the action bar, a poll interval of at least ten seconds, a snooze of at
-- least a minute, and a known preset. An action that is known is kept exactly if it was there, and
-- the result is accepted again and left as it is.
pub validate-IsValid :
    (s s' : Settings)
    → validate s ≡ (s', none)
    → IsValid s'
      × All (λ v. contains v s'.notify_actions ≡ contains v s.notify_actions) valid_notify_actions
      × (validate s' ≡ (s', none))
unfolding normalize
validate-IsValid s s' h =
    let p = validate-Passes s s' h in
    subst
      (λ r.
        IsValid r
        × All (λ v. contains v r.notify_actions ≡ contains v s.notify_actions) valid_notify_actions
        × (validate r ≡ (r, none)))
      p.result
      (
        normalize-IsValid s p.preset,
        All-map (λ v. known_action v ≡ true)
            (λ v. contains v (normal_actions s.notify_actions) ≡ contains v s.notify_actions)
            valid_notify_actions (contains-normal s.notify_actions) all_known,
        validate-run (normalize s) (normalize-known s)
              (ap (λ r. known_preset r.snooze_preset) (normalize_idem s) ∙ p.preset)
            ∙ ap (λ r. (r, none)) (normalize_idem s),
      )
