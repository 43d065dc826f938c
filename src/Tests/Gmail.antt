-- ===== src/Tests/Gmail.antt =====
-- The quota gate.
use dankmail.Base.{ℕ, suc, ◌+◌, ◌*◌, ◌≤◌, [], ◌∷◌, ◌≡◌, none, some, refl, arith, Option, contains}
use dankmail.Sync.Executor.{second}
use dankmail.Gmail.Quota.{
  QuotaGate, weigh, new_quota_gate, Surroundings, Waited, wait, max_inline_delay, ApiError,
  read_retry_delay, quota_limited,
}
use dankmail.Gmail.Quota.Rate.{Runs, idle, reserve, Runs-rate, unit, total_cost}
use dankmail.Gmail.Quota.Waiting.{wait-total, IsWithin}

abbrev gate_at : ℕ → QuotaGate
gate_at next = record new_quota_gate { next = next }

-- A message list of 5 units at one second, a read of 10 units, and one of 5.
requests :
    Runs new_quota_gate
      ((second, 5) ∷ (second + 125_000_000, 10) ∷ (2 * second, 5) ∷ [])
      (gate_at (2 * second + 125_000_000))
unfolding weigh
requests =
    reserve new_quota_gate (gate_at (second + 125_000_000)) (gate_at (2 * second + 125_000_000))
      ((second + 125_000_000, 10) ∷ (2 * second, 5) ∷ []) second second 5 none none refl
      (reserve (gate_at (second + 125_000_000)) (gate_at (second + 375_000_000))
        (gate_at (2 * second + 125_000_000)) ((2 * second, 5) ∷ []) second (second + 125_000_000) 10
        none none refl
        (reserve (gate_at (second + 375_000_000)) (gate_at (2 * second + 125_000_000))
          (gate_at (2 * second + 125_000_000)) [] second (2 * second) 5 none none refl
          (idle (gate_at (2 * second + 125_000_000)))))

Runs-rate_example : second + (5 + total_cost ((second + 125_000_000, 10) ∷ [])) * unit ≤ 2 * second
Runs-rate_example =
    Runs-rate new_quota_gate (gate_at (2 * second + 125_000_000)) second (2 * second) 5 5
      ((second + 125_000_000, 10) ∷ []) requests

abbrev quiet : Surroundings
quiet = record {
  clock = λ i. i + second;
  cancelled = λ i. none;
  slept = λ i. none;
  others = λ i g. g;
}

wait-total_example :
    (end : Waited) × (budget' : Option ℕ) × (g' : QuotaGate) × (wait quiet second 5
        (suc max_inline_delay)
        (some 0)
        new_quota_gate
      ≡ some (end, budget', g'))
    × IsWithin budget'
unfolding IsWithin
wait-total_example =
    wait-total quiet second 5 (some 0) new_quota_gate (λ i. omega arith) (omega arith) (omega arith)

abbrev limited : ApiError
limited = record {
  code = 403;
  reasons = "userRateLimitExceeded" ∷ [];
  retry_seconds = some 7;
  retry_date = none;
}

retry_delays :
    (read_retry_delay (some limited) 1 second ≡ some (7 * second))
    × (read_retry_delay (some limited) 3 second ≡ some (8 * second))
    × (read_retry_delay (some (record limited { code = 404 })) 1 second ≡ none)
unfolding read_retry_delay quota_limited contains
retry_delays = (refl, refl, refl)
