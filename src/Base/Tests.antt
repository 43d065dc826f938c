-- ===== src/Base/Tests.antt =====
-- Boolean tests on the native numbers and on texts, and the conditional.
use Prim.Native.Nat.{ℕ, ◌≤◌, ◌<◌, compare, Ordering}
use Prim.Native.String.{String}
use mathlib.Core.Path.{◌≡◌, refl}
use mathlib.Core.Logic.{◌↔◌, ◌⊎◌, inl, inr}
use mathlib.Core.Bool.{Bool, true, false}
use mathlib.Core.Option.{Option, none, some}
use native.Mathlib.Omega.{arith}
use text.Mathlib.Text.{◌==◌ as text_eq}
use text.Mathlib.TextEquality.{eq_iff}

abbrev pub ltb : ℕ → ℕ → Bool
ltb a b = elim (compare a b) [ Ordering.lt ↦ true | _ ↦ false ]

abbrev pub leb : ℕ → ℕ → Bool
leb a b = elim (compare a b) [ Ordering.gt ↦ false | _ ↦ true ]

abbrev pub nat_eqb : ℕ → ℕ → Bool
nat_eqb a b = elim (compare a b) [ Ordering.eq ↦ true | _ ↦ false ]

infix 1 if◌then◌else◌
abbrev pub if◌then◌else◌ {ℓ} : {A : Type ℓ} → Bool → A → A → A
if true then x else y = x
if false then x else y = y

pub ltb→lt : (a b : ℕ) → ltb a b ≡ true → a < b
ltb→lt a b h = ground arith

pub lt→ltb : (a b : ℕ) → a < b → ltb a b ≡ true
lt→ltb a b h = ground arith

pub leb→le : (a b : ℕ) → leb a b ≡ true → a ≤ b
leb→le a b h = ground arith

pub le→leb : (a b : ℕ) → a ≤ b → leb a b ≡ true
le→leb a b h = ground arith

pub nat_eqb_iff : (a b : ℕ) → (nat_eqb a b ≡ true) ↔ (a ≡ b)
nat_eqb_iff a b = ground arith

-- A type whose values Go compares by `==`, with the law of the test.
pub record Comparable {ℓ} (K : Type ℓ) : Type ℓ where
  pub test : K → K → Bool
  pub agrees : (x y : K) → (x ≡ y) ↔ (test x y ≡ true)

abbrev pub ◌==◌ {ℓ} : {K : Type ℓ} ⦃c : Comparable K⦄ (x y : K) → Bool
◌==◌ ⦃c⦄ x y = c.test x y

infix 50 ◌==◌
instance abbrev pub nat_eq : Comparable ℕ
nat_eq = record { test = nat_eqb; agrees = λ x y. ((nat_eqb_iff x y).1, (nat_eqb_iff x y).0) }

instance abbrev pub string_eq : Comparable String
string_eq = record { test = text_eq; agrees = λ x y. ((eq_iff x y).1, (eq_iff x y).0) }

pub ==-self {ℓ} : {K : Type ℓ} ⦃c : Comparable K⦄ (x : K) → (x == x) ≡ true
==-self ⦃c⦄ x = (c.agrees x x).0 refl

pub ==→≡ {ℓ} : {K : Type ℓ} ⦃c : Comparable K⦄ (x y : K) → (x == y) ≡ true → x ≡ y
==→≡ ⦃c⦄ x y h = (c.agrees x y).1 h

pub Bool-cases : (b : Bool) → (b ≡ true) ⊎ (b ≡ false)
Bool-cases true = inl refl
Bool-cases false = inr refl

pub Option-cases {ℓ} : {A : Type ℓ} (o : Option A) → (o ≡ none) ⊎ ((a : A) × (o ≡ some a))
Option-cases none = inl refl
Option-cases (some a) = inr (a, refl)

abbrev pub is_some {ℓ} : {A : Type ℓ} → Option A → Bool
is_some none = false
is_some (some a) = true
