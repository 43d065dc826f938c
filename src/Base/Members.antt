-- ===== src/Base/Members.antt =====
-- Which members a selection has.
use mathlib.Core.Path.{◌≡◌, refl, ap, ◌∙◌, sym}
use mathlib.Core.Logic.{inl, inr}
use mathlib.Core.Bool.{Bool, ◌&&◌}
use mathlib.Core.List.{List, [], ◌∷◌}
use native.Mathlib.Omega.{arith}
use dankmail.Base.Tests.{Bool-cases, Comparable, ◌==◌, ==→≡}
use dankmail.Base.Lists.{select, contains, All}

module _ {ℓ} {A : Type ℓ} where
  -- Tests that agree on the members select the same.
  pub select_ext :
      (p q : A → Bool) (xs : List A) → All (λ x. p x ≡ q x) xs → select p xs ≡ select q xs
  unfolding select
  select_ext p q [] h = refl
  select_ext p q (x ∷ xs) h = rw (h.0, select_ext p q xs h.1)

module _ {ℓ} {A : Type ℓ} ⦃c : Comparable A⦄ where
  pub contains-select :
      (q : A → Bool) (a : A) (xs : List A) → contains a (select q xs) ≡ (q a && contains a xs)
  unfolding contains select
  contains-select q a [] = ground arith
  contains-select q a (x ∷ xs) =
      let rest = contains-select q a xs in
      elim (Bool-cases (x == a)) [
        | inl e ↦
            let same : q x ≡ q a = ap q (==→≡ x a e) in
            elim (Bool-cases (q x)) [
              | inl k ↦ rw (k, contains) (rw (e, sym same ∙ k))
              | inr k ↦ rw (k) (rest ∙ rw (sym same ∙ k))
            ]
        | inr e ↦ elim (Bool-cases (q x)) [
          | inl k ↦ rw (k, contains) (rw (e) rest)
          | inr k ↦ rw (k) (rest ∙ rw e)
        ]
      ]
