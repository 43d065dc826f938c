-- ===== src/Gmail/Quota/Waiting.antt =====
-- quota.go, how long a request waits at the gate.
use dankmail.Base.{
  ℕ, suc, zero, ◌+◌, ◌-◌, ◌≤◌, ◌<◌, Option, none, some, ◌≡◌, ◌⊎◌, refl, arith, inl, inr, ltb,
  Bool-cases, Option-cases, sym, subst,
}
use dankmail.Gmail.Quota.{
  QuotaGate, Verdict, reserved, pause, put_off, DeferredRetry, weigh, after_spending, spend,
  Surroundings, Waited, granted, deferred, failed, wait_pass, wait, max_inline_delay,
  max_inline_retry_wait,
}

Verdict-cases :
    (v : Verdict)
    → ((g : QuotaGate) × (v ≡ reserved g))
      ⊎ (((delay : ℕ) × (v ≡ pause delay)) ⊎ ((d : DeferredRetry) × (v ≡ put_off d)))
Verdict-cases (reserved g) = inl (g, refl)
Verdict-cases (pause delay) = inr (inl (delay, refl))
Verdict-cases (put_off d) = inr (inr (d, refl))

-- A pause is at least a nanosecond, and ends within three seconds of the start.
weigh-pause :
    (g : QuotaGate) (started now cost : ℕ) (budget : Option ℕ) {delay : ℕ}
    → (weigh g started now cost budget).0 ≡ pause delay
    → (now + delay ≤ started + max_inline_delay) × (0 < delay)
unfolding weigh after_spending spend
weigh-pause g started now cost budget h = ground arith

-- The budget stands within its five seconds.
unfoldable pub IsWithin : Option ℕ → Type 0
IsWithin none = Unit {0}
IsWithin (some used) = used ≤ max_inline_retry_wait

spend-IsWithin : (budget : Option ℕ) (delay : ℕ) → IsWithin budget → IsWithin (spend budget delay).1
unfolding spend IsWithin
spend-IsWithin none delay h = tt
spend-IsWithin (some used) delay h = elim (Bool-cases (ltb max_inline_retry_wait (used + delay))) [
  | inl e ↦ rw e h
  | inr e ↦ rw e (ground arith)
]

weigh-budget :
    (g : QuotaGate) (started now cost : ℕ) (budget : Option ℕ)
    → ((weigh g started now cost budget).1 ≡ budget)
      ⊎ ((weigh g started now cost budget).1 ≡ (spend budget (g.blocked_until - now)).1)
unfolding weigh after_spending
weigh-budget g started now cost budget = ground arith

weigh-IsWithin :
    (g : QuotaGate) (started now cost : ℕ) (budget : Option ℕ)
    → IsWithin budget
    → IsWithin (weigh g started now cost budget).1
weigh-IsWithin g started now cost budget h = elim (weigh-budget g started now cost budget) [
  | inl same ↦ subst IsWithin (sym same) h
  | inr spent ↦ subst IsWithin (sym spent) (spend-IsWithin budget (g.blocked_until - now) h)
]

module _ (s : Surroundings) (started cost : ℕ)
    (passes : (i : ℕ) → s.clock i < s.clock (suc i)) where
  abbrev Ends : ℕ → ℕ → Option ℕ → QuotaGate → Type 0
  Ends fuel i budget g =
      (end : Waited) × (budget' : Option ℕ) × (g' : QuotaGate) × (wait_pass s started cost fuel i
          budget g
        ≡ some (end, budget', g'))
      × IsWithin budget'

  -- One pass, given what a later one does.
  wait_pass-step :
      (fuel i : ℕ) (budget : Option ℕ) (g : QuotaGate)
      → IsWithin budget
      → ((later : Option ℕ) (g' : QuotaGate)
          → IsWithin later
          → s.clock i < started + max_inline_delay
          → Ends fuel (suc i) later g')
      → Ends (suc fuel) i budget g
  unfolding wait_pass
  wait_pass-step fuel i budget g h rest =
      let (verdict, budget') = weigh g started (s.clock i) cost budget in
      let h' = weigh-IsWithin g started (s.clock i) cost budget h in
      elim (Option-cases (s.cancelled i)) [
        | inr (e, c) ↦ (failed e, budget, g, rw (c, wait_pass), h)
        | inl c ↦ elim (Verdict-cases verdict) [
          | inl (g', v) ↦ (granted, budget', g', rw (c, wait_pass) (rw v), h')
          | inr (inr (d, v)) ↦ (deferred d, budget', g, rw (c, wait_pass) (rw v), h')
          | inr (inl (delay, v)) ↦ elim (Option-cases (s.slept i)) [
            | inr (e, z) ↦ (failed e, budget', g, rw (c, wait_pass) (rw v (rw z)), h')
            | inl z ↦
                let (end, b, g', e, k) =
                  rest budget' (s.others i g) h'
                    (omega (arith, weigh-pause g started (s.clock i) cost budget v)) in
                (end, b, g', rw (c, wait_pass) (rw v (rw z e)), k)
          ]
        ]
      ]

  wait_pass-total :
      (fuel i : ℕ) (budget : Option ℕ) (g : QuotaGate)
      → started + max_inline_delay < s.clock i + suc fuel
      → IsWithin budget
      → Ends (suc fuel) i budget g
  wait_pass-total zero i budget g enough h =
      wait_pass-step zero i budget g h (λ later g' k early. absurd (omega (arith, enough, early)))
  wait_pass-total (suc fuel) i budget g enough h =
      wait_pass-step (suc fuel) i budget g h (λ later g' k early.
        wait_pass-total fuel (suc i) later g' (omega (arith, enough, passes i)) k)

-- A wait ends, whatever the other requests do to the gate between its passes: if the clock moves on
-- between two passes, fuel for as many passes as there are nanoseconds in three seconds, counted from
-- the first reading, is enough. It leaves the retry budget within
-- its five seconds, if it was.
pub wait-total :
    (s : Surroundings) (started cost : ℕ) (budget : Option ℕ) (g : QuotaGate)
    → ((i : ℕ) → s.clock i < s.clock (suc i))
    → started ≤ s.clock 0
    → IsWithin budget
    → (end : Waited) × (budget' : Option ℕ) × (g' : QuotaGate) × (wait s started cost
          (suc max_inline_delay)
          budget
          g
        ≡ some (end, budget', g'))
      × IsWithin budget'
unfolding wait
wait-total s started cost budget g passes begun h =
    wait_pass-total s started cost passes max_inline_delay 0 budget g (omega (arith, begun)) h
