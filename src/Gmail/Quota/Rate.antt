-- ===== src/Gmail/Quota/Rate.antt =====
-- quota.go, the rate of the requests that the gate of an account lets through.
use dankmail.Base.{ℕ, ◌+◌, ◌*◌, ◌/◌, ◌≤◌, List, [], ◌∷◌, ◌++◌, Option, ◌≡◌, subst, arith}
use dankmail.Errdefs.{Error}
use dankmail.Sync.Executor.{second}
use dankmail.Gmail.Quota.{
  QuotaGate, reserved, weigh, after_spending, cooldown, spend, quota_units_per_second,
}

-- A request: the time of its reservation and its cost.
abbrev pub Request : Type 0
Request = ℕ × ℕ

-- What happens to one gate, whoever does it: reservations and cooldowns in any order, with the list of
-- the requests that were let through.
pub data Runs : QuotaGate → List Request → QuotaGate → Type 0 where
  idle : (g : QuotaGate) → Runs g [] g
  reserve :
      (g g₁ g' : QuotaGate) (rs : List Request) (started now cost : ℕ) (budget budget' : Option ℕ)
      → weigh g started now cost budget ≡ (reserved g₁, budget')
      → Runs g₁ rs g'
      → Runs g ((now, cost) ∷ rs) g'
  cool :
      (g g' : QuotaGate) (rs : List Request) (now delay : ℕ) (cause : Error)
      → Runs (cooldown now delay cause g).0 rs g'
      → Runs g rs g'

-- Nanoseconds for one unit.
abbrev pub unit : ℕ
unit = 25_000_000

unit_lem : (cost : ℕ) → (cost * second) / quota_units_per_second ≡ cost * unit
unit_lem cost = omega arith

weigh-reserved :
    (g g₁ : QuotaGate) (started now cost : ℕ) (budget budget' : Option ℕ)
    → weigh g started now cost budget ≡ (reserved g₁, budget')
    → (g.next ≤ now) × (now + cost * unit ≤ g₁.next)
unfolding weigh after_spending spend
weigh-reserved g g₁ started now cost budget budget' h = ground (arith, unit_lem cost)

cooldown-next :
    (now delay : ℕ) (cause : Error) (g : QuotaGate) → (cooldown now delay cause g).0.next ≡ g.next
unfolding cooldown
cooldown-next now delay cause g = ground arith

-- Each request comes after the units of the one before are paid for.
pub IsPaced : ℕ → List Request → Type 0
IsPaced from [] = Unit {0}
IsPaced from ((now, cost) ∷ rs) = (from ≤ now) × IsPaced (now + cost * unit) rs

IsPaced-le :
    (early late : ℕ) (rs : List Request) → early ≤ late → IsPaced late rs → IsPaced early rs
unfolding IsPaced
IsPaced-le early late [] h p = tt
IsPaced-le early late ((now, cost) ∷ rs) h p = (omega (arith, h, p.0), p.1)

Runs-IsPaced : (g g' : QuotaGate) (rs : List Request) → Runs g rs g' → IsPaced g.next rs
unfolding IsPaced
Runs-IsPaced _ _ _ (idle g) = tt
Runs-IsPaced _ _ _ (reserve g g₁ g' rs started now cost budget budget' h run) =
    let (after, paid) = weigh-reserved g g₁ started now cost budget budget' h in
    (after, IsPaced-le (now + cost * unit) g₁.next rs paid (Runs-IsPaced g₁ g' rs run))
Runs-IsPaced _ _ _ (cool g g' rs now delay cause run) =
    subst (λ n. IsPaced n rs) (cooldown-next now delay cause g)
      (Runs-IsPaced (cooldown now delay cause g).0 g' rs run)

unfoldable pub total_cost : List Request → ℕ
total_cost [] = 0
total_cost ((now, cost) ∷ rs) = cost + total_cost rs

IsPaced-last :
    (from now cost : ℕ) (rs : List Request)
    → IsPaced from (rs ++ (now, cost) ∷ [])
    → from + total_cost rs * unit ≤ now
unfolding IsPaced total_cost
IsPaced-last from now cost [] p = omega (arith, p.0)
IsPaced-last from now cost ((t, c) ∷ rs) p =
    let rest = IsPaced-last (t + c * unit) now cost rs p.1 in omega (arith, rest, p.0)

-- Whatever reservations and cooldowns happen to the gate of an account, between a request and a later
-- one there are at least 25 milliseconds for each unit of the first and of those between the two: the
-- rate of 40 units a second is kept over every stretch.
pub Runs-rate :
    (g g' : QuotaGate) (first last cost cost' : ℕ) (between : List Request)
    → Runs g ((first, cost) ∷ between ++ (last, cost') ∷ []) g'
    → first + (cost + total_cost between) * unit ≤ last
unfolding IsPaced total_cost
Runs-rate g g' first last cost cost' between run =
    let paced = Runs-IsPaced g g' ((first, cost) ∷ between ++ (last, cost') ∷ []) run in
    let end = IsPaced-last (first + cost * unit) last cost' between paced.1 in omega (arith, end)
