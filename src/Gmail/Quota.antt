-- ===== src/Gmail/Quota.antt =====
-- core/internal/provider/gmail/quota.go: pacing of requests, cooldowns and the retry budget. Times are
-- nanoseconds, and the zero time is 0. An error of the Google client is a parameter: what the code
-- reads from it is the record `ApiError`.
pub mod Rate
pub mod Waiting
use dankmail.Base.{
  ℕ, suc, zero, ◌+◌, ◌-◌, ◌*◌, ◌/◌, ◌^◌, min, max, String, Bool, true, false, not, ◌&&◌, ◌||◌, List,
  Option, none, some, ltb, ◌==◌, nat_eq, string_eq, if◌then◌else◌, contains,
}
use dankmail.Errdefs.{Error, Failure}
use dankmail.Sync.Executor.{second}

abbrev pub quota_units_per_second : ℕ
quota_units_per_second = 40

abbrev pub max_inline_delay : ℕ
max_inline_delay = 3 * second

abbrev pub max_inline_retry_wait : ℕ
max_inline_retry_wait = 5 * second

pub record DeferredRetry : Type 0 where
  pub until : ℕ
  pub cause : Failure

-- `RetryAfter`, at the time that it is asked.
unfoldable pub retry_after_at : ℕ → DeferredRetry → ℕ
retry_after_at now d = d.until - now

pub record QuotaGate : Type 0 where
  pub next : ℕ
  pub blocked_until : ℕ
  pub cause : Failure

abbrev pub new_quota_gate : QuotaGate
new_quota_gate = record { next = 0; blocked_until = 0; cause = none }

-- The callback `spend` of `waitQuota`: the budget is what has been used, and `none` where the context
-- has no budget.
unfoldable pub spend : Option ℕ → ℕ → Bool × Option ℕ
spend none delay = (true, none)
spend (some used) delay =
    if ltb max_inline_retry_wait (used + delay)
    then (false, some used)
    else (true, some (used + delay))

-- What the locked part of `wait` decides.
pub data Verdict : Type 0 where
  reserved : QuotaGate → Verdict
  pause : ℕ → Verdict
  put_off : DeferredRetry → Verdict

abbrev pub ready_at : QuotaGate → ℕ
ready_at g = max g.next g.blocked_until

after_spending : QuotaGate → ℕ → Bool × Option ℕ → Verdict × Option ℕ
after_spending g delay (true, budget) = (pause delay, budget)
after_spending g delay (false, budget) =
    (put_off (record { until = ready_at g; cause = g.cause }), budget)

-- One pass of the loop under the lock. A budget is asked only for a cooldown that is short enough.
unfoldable pub weigh : QuotaGate → ℕ → ℕ → ℕ → Option ℕ → Verdict × Option ℕ
unfolding after_spending
weigh g started now cost budget =
    let delay = ready_at g - now in
    let cooling = g.blocked_until - now in
    if not (ltb 0 delay)
    then (reserved (record g { next = now + (cost * second) / quota_units_per_second }), budget)
    else if ltb max_inline_delay delay || ltb (started + max_inline_delay) (now + delay)
    then (put_off (record { until = ready_at g; cause = g.cause }), budget)
    else if ltb 0 cooling
    then after_spending g delay (spend budget cooling)
    else (pause delay, budget)

-- How `wait` ends: with a reservation, a deferral, or an error of the context.
pub data Waited : Type 0 where
  granted : Waited
  deferred : DeferredRetry → Waited
  failed : Error → Waited

-- What a waiter meets: the readings of the clock and of `ctx.Err()` by pass, what its sleep after a
-- pass returns, and what the others do to the gate meanwhile.
pub record Surroundings : Type 0 where
  pub clock : ℕ → ℕ
  pub cancelled : ℕ → Failure
  pub slept : ℕ → Failure
  pub others : ℕ → QuotaGate → QuotaGate

-- The loop: `none` if there is no fuel for another pass.
unfoldable pub wait_pass :
    Surroundings → ℕ → ℕ → ℕ → ℕ → Option ℕ → QuotaGate → Option (Waited × Option ℕ × QuotaGate)
wait_pass s started cost zero i budget g = none
wait_pass s started cost (suc fuel) i budget g = elim (s.cancelled i) [
  | some e ↦ some (failed e, budget, g)
  | none ↦
      let (verdict, budget') = weigh g started (s.clock i) cost budget in
      elim verdict [
        | reserved g' ↦ some (granted, budget', g')
        | put_off d ↦ some (deferred d, budget', g)
        | pause delay ↦ elim (s.slept i) [
          | some e ↦ some (failed e, budget', g)
          | none ↦ wait_pass s started cost fuel (suc i) budget' (s.others i g)
        ]
      ]
]

-- `wait`, from its first reading of the clock.
unfoldable pub wait :
    Surroundings → ℕ → ℕ → ℕ → Option ℕ → QuotaGate → Option (Waited × Option ℕ × QuotaGate)
unfolding wait_pass
wait s started cost fuel budget g = wait_pass s started cost fuel 0 budget g

unfoldable pub cooldown : ℕ → ℕ → Error → QuotaGate → QuotaGate × DeferredRetry
cooldown now delay cause g =
    let until = now + delay in
    let g' =
      if ltb g.blocked_until until
      then record g { blocked_until = until; cause = some cause }
      else g in
    (g', record { until = g'.blocked_until; cause = g'.cause })

-- `googleapi.Error`: its code, the reasons in its list, and what the header Retry-After parses to, a
-- positive number of seconds or a date.
pub record ApiError : Type 0 where
  pub code : ℕ
  pub reasons : List String
  pub retry_seconds : Option ℕ
  pub retry_date : Option ℕ

unfoldable pub quota_limited : Option ApiError → Bool
unfolding contains
quota_limited none = false
quota_limited (some e) =
    if e.code == 429
    then true
    else if not (e.code == 403)
    then false
    else contains "rateLimitExceeded" e.reasons || contains "userRateLimitExceeded" e.reasons

-- The lower bound that the header gives.
header_delay : ℕ → ApiError → ℕ → ℕ
header_delay now e delay = elim e.retry_seconds [
  | some seconds ↦ max delay (seconds * second)
  | none ↦ elim e.retry_date [ some when ↦ max delay (when - now) | none ↦ delay ]
]

abbrev is_gateway_error : ℕ → Bool
is_gateway_error code = code == 500 || code == 502 || code == 503 || code == 504

-- `none` where the second result is false.
unfoldable pub read_retry_delay : Option ApiError → ℕ → ℕ → Option ℕ
unfolding header_delay quota_limited
read_retry_delay none attempt now = none
read_retry_delay (some e) attempt now =
    if not (quota_limited (some e)) && not (is_gateway_error e.code)
    then none
    else some (header_delay now e (second * 2 ^ min attempt 6))

-- `jitter` is the random part, below a second.
unfoldable pub defer_failure :
    (Error → Option ApiError) → ℕ → ℕ → Error → ℕ → QuotaGate → QuotaGate × Option DeferredRetry
unfolding read_retry_delay cooldown
defer_failure api now jitter e attempt g = elim (read_retry_delay (api e) attempt now) [
  | none ↦ (g, none)
  | some delay ↦ let (g', d) = cooldown now (delay + jitter) e g in (g', some d)
]
