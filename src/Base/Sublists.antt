-- ===== src/Base/Sublists.antt =====
-- Rows that were chosen from a table, in the table's order, and updates by a test.
use Prim.Native.Nat.{ℕ, zero, suc, ◌≤◌, ◌<◌}
use mathlib.Core.Path.{◌≡◌, refl, ap}
use mathlib.Core.Logic.{inl, inr}
use mathlib.Core.Bool.{Bool, true, false}
use mathlib.Core.List.{List, [], ◌∷◌}
use native.Mathlib.Omega.{arith}
use dankmail.Base.Tests.{Bool-cases}
use dankmail.Base.Lists.{select, take, All, All2, update_where, length}

pub data Sublist {ℓ} {A : Type ℓ} : List A → List A → Type ℓ where
  nothing : {ys : List A} → Sublist [] ys
  skip : {xs ys : List A} (y : A) → Sublist xs ys → Sublist xs (y ∷ ys)
  keep : {xs ys : List A} (y : A) → Sublist xs ys → Sublist (y ∷ xs) (y ∷ ys)

module _ {ℓ} {A : Type ℓ} where
  pub Sublist-refl : (xs : List A) → Sublist xs xs
  Sublist-refl [] = nothing
  Sublist-refl (x ∷ xs) = keep x (Sublist-refl xs)

  pub Sublist-select : (p : A → Bool) (ys : List A) → Sublist (select p ys) ys
  unfolding select
  Sublist-select p [] = nothing
  Sublist-select p (y ∷ ys) = elim (Bool-cases (p y)) [
    | inl e ↦ rw (e, select) (keep y (Sublist-select p ys))
    | inr e ↦ rw (e, select) (skip y (Sublist-select p ys))
  ]

  pub Sublist-take : (n : ℕ) {xs ys : List A} → Sublist xs ys → Sublist (take n xs) ys
  Sublist-take zero s = nothing
  Sublist-take (suc n) nothing = nothing
  Sublist-take (suc n) (skip y s) = skip y (Sublist-take (suc n) s)
  Sublist-take (suc n) (keep y s) = keep y (Sublist-take n s)

  pub Sublist-All {κ} : (P : A → Type κ) {xs ys : List A} → Sublist xs ys → All P ys → All P xs
  Sublist-All P nothing h = tt
  Sublist-All P (skip y s) h = Sublist-All P s h.1
  Sublist-All P (keep y s) h = (h.0, Sublist-All P s h.1)

  -- An update of the rows that pass `p`.
  pub All-update_where {κ μ} :
      (P : A → Type κ) (Q : A → Type μ) (p : A → Bool) (f : A → A) (xs : List A)
      → ((x : A) → P x → p x ≡ true → Q (f x))
      → ((x : A) → P x → p x ≡ false → Q x)
      → All P xs
      → All Q (update_where p f xs)
  unfolding update_where
  All-update_where P Q p f [] hit miss h = tt
  All-update_where P Q p f (x ∷ xs) hit miss h = elim (Bool-cases (p x)) [
    | inl e ↦ rw e (hit x h.0 e, All-update_where P Q p f xs hit miss h.1)
    | inr e ↦ rw e (miss x h.0 e, All-update_where P Q p f xs hit miss h.1)
  ]

  pub All2-update_where {κ} :
      (P : A → Type κ) (R : A → A → Type 0) (p : A → Bool) (f : A → A) (xs : List A)
      → ((x : A) → P x → p x ≡ true → R x (f x))
      → ((x : A) → P x → p x ≡ false → R x x)
      → All P xs
      → All2 R xs (update_where p f xs)
  unfolding update_where
  All2-update_where P R p f [] hit miss h = tt
  All2-update_where P R p f (x ∷ xs) hit miss h = elim (Bool-cases (p x)) [
    | inl e ↦ rw e (hit x h.0 e, All2-update_where P R p f xs hit miss h.1)
    | inr e ↦ rw e (miss x h.0 e, All2-update_where P R p f xs hit miss h.1)
  ]

  pub All2-refl : (R : A → A → Type 0) (xs : List A) → ((x : A) → R x x) → All2 R xs xs
  All2-refl R [] h = tt
  All2-refl R (x ∷ xs) h = (h x, All2-refl R xs h)

  pub update_where-twice :
      (p : A → Bool) (f g : A → A) (xs : List A)
      → ((x : A) → p (g x) ≡ p x)
      → update_where p f (update_where p g xs) ≡ update_where p (λ x. f (g x)) xs
  unfolding update_where
  update_where-twice p f g [] keeps = refl
  update_where-twice p f g (x ∷ xs) keeps = elim (Bool-cases (p x)) [
    | inl e ↦ rw (e, keeps x, e) (ap (◌∷◌ (f (g x))) (update_where-twice p f g xs keeps))
    | inr e ↦ rw (e, e) (ap (◌∷◌ x) (update_where-twice p f g xs keeps))
  ]

  -- Rows that an update takes out of a selection.
  pub length-select-update_where :
      (q p : A → Bool) (f : A → A) (xs : List A)
      → ((x : A) → p x ≡ true → q (f x) ≡ false)
      → length (select q (update_where p f xs)) ≤ length (select q xs)
  unfolding select update_where
  length-select-update_where q p f [] out = omega arith
  length-select-update_where q p f (x ∷ xs) out =
      let rest = length-select-update_where q p f xs out in
      elim (Bool-cases (p x)) [
        | inl e ↦ rw (e, out x e) (ground arith)
        | inr e ↦ rw e (ground arith)
      ]

  pub length-select-update_where_lt :
      (q p : A → Bool) (f : A → A) {ys xs : List A} (y : A)
      → ((x : A) → p x ≡ true → q (f x) ≡ false)
      → Sublist (y ∷ ys) xs
      → q y ≡ true
      → p y ≡ true
      → length (select q (update_where p f xs)) < length (select q xs)
  unfolding select update_where
  length-select-update_where_lt q p f y out (skip {ys = xs} x s) hq hp =
      let rest = length-select-update_where_lt q p f y out s hq hp in
      elim (Bool-cases (p x)) [
        | inl e ↦ rw (e, out x e) (ground arith)
        | inr e ↦ rw e (ground arith)
      ]
  length-select-update_where_lt q p f y out (keep {ys = xs} _ s) hq hp =
      let rest = length-select-update_where q p f xs out in rw (hp, out y hp, hq) (omega arith)
