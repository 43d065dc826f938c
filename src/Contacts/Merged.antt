-- ===== src/Contacts/Merged.antt =====
-- contacts.go, what a search suggests.
use dankmail.Base.{
  ℕ, ◌+◌, ◌≤◌, String, false, ◌||◌, List, [], ◌∷◌, ◌==◌, ==→≡, string_eq, if◌then◌else◌, contains,
  IsDistinct, All, ◌≡◌, refl, ap, ◌∙◌, inl, inr, arith, Bool-cases,
}
use dankmail.Contacts.{Contact, Suggestion, join_row, merge_row, merge_rows}

unfoldable pub emails : List Suggestion → List String
emails [] = []
emails (m ∷ ms) = m.email ∷ emails ms

-- The weights of the rows with an address, added up.
unfoldable pub total : String → List Contact → ℕ
total e [] = 0
total e (r ∷ rs) = (if r.email == e then r.weight else 0) + total e rs

unfoldable pub weight_at : String → List Suggestion → ℕ
weight_at e [] = 0
weight_at e (m ∷ ms) = (if m.email == e then m.weight else 0) + weight_at e ms

-- The greatest weight first.
unfoldable pub IsSorted : List Suggestion → Type 0
IsSorted [] = Unit {0}
IsSorted (m ∷ ms) = All (λ s. s.weight ≤ m.weight) ms × IsSorted ms

join_row-email : (r : Contact) (m : Suggestion) → (join_row r m).email ≡ m.email
unfolding join_row
join_row-email r m = refl

join_row-weight : (r : Contact) (m : Suggestion) → (join_row r m).weight ≡ m.weight + r.weight
unfolding join_row
join_row-weight r m = refl

contains-merge_row :
    (e : String) (r : Contact) (ms : List Suggestion)
    → contains e (emails (merge_row r ms)) ≡ (contains e (emails ms) || r.email == e)
unfolding merge_row emails contains join_row
contains-merge_row e r [] = ground arith
contains-merge_row e r (m ∷ ms) =
    let step = contains-merge_row e r ms in
    elim (Bool-cases (m.email == r.email)) [
      | inl k ↦ rw (k) (
          ap (λ s. m.email == e || contains e (emails ms)) k
          ∙ ground (arith, ap (λ s. s == e) (==→≡ m.email r.email k)))
      | inr k ↦ rw (k, contains) (ground (arith, step))
    ]

merge_row-IsDistinct :
    (r : Contact) (ms : List Suggestion)
    → IsDistinct (emails ms)
    → IsDistinct (emails (merge_row r ms))
unfolding merge_row emails contains join_row
merge_row-IsDistinct r [] h = (refl, tt)
merge_row-IsDistinct r (m ∷ ms) h = elim (Bool-cases (m.email == r.email)) [
  | inl k ↦ rw (k) h
  | inr k ↦ rw (k) (
    contains-merge_row m.email r ms
        ∙ ground
            (arith, h.0, k, string_eq.agrees m.email r.email, string_eq.agrees r.email m.email),
    merge_row-IsDistinct r ms h.1,
  )
]

weight_at-merge_row :
    (e : String) (r : Contact) (ms : List Suggestion)
    → weight_at e (merge_row r ms) ≡ weight_at e ms + (if r.email == e then r.weight else 0)
unfolding merge_row weight_at join_row
weight_at-merge_row e r [] = ground arith
weight_at-merge_row e r (m ∷ ms) =
    let step = weight_at-merge_row e r ms in
    elim (Bool-cases (m.email == r.email)) [
      | inl k ↦ rw (k) (ground (arith, ap (λ s. s == e) (==→≡ m.email r.email k)))
      | inr k ↦ rw (k) (ground (arith, step))
    ]

pub merge_rows_lem :
    (e : String) (ms : List Suggestion) (rs : List Contact)
    → IsDistinct (emails ms)
    → IsDistinct (emails (merge_rows ms rs))
      × (weight_at e (merge_rows ms rs) ≡ weight_at e ms + total e rs)
unfolding merge_rows total
merge_rows_lem e ms [] h = (h, omega arith)
merge_rows_lem e ms (r ∷ rs) h =
    let step = merge_rows_lem e (merge_row r ms) rs (merge_row-IsDistinct r ms h) in
    (step.0, omega (arith, step.1, weight_at-merge_row e r ms))

pub weight_at-fresh :
    (e : String) (ms : List Suggestion) → contains e (emails ms) ≡ false → weight_at e ms ≡ 0
unfolding weight_at emails contains
weight_at-fresh e [] h = refl
weight_at-fresh e (m ∷ ms) h =
    let rest : contains e (emails ms) ≡ false = ground (arith, h) in
    ground (arith, h, weight_at-fresh e ms rest)
