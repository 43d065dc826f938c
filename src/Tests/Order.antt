-- ===== src/Tests/Order.antt =====
-- An order of rows that does what SQLite promises, by insertion.
use dankmail.Base.{
  ℕ, Bool, true, false, List, [], ◌∷◌, ◌≡◌, refl, ◌∙◌, arith, inl, inr, Bool-cases, if◌then◌else◌,
  nat_eq, length, select, All, All-map,
}
use dankmail.Schema.{Thread}
use dankmail.Repo.{SqlOrder, leads, IsDescending}

unfoldable pub insert_row : List (Thread → ℕ) → Thread → List Thread → List Thread
insert_row terms t [] = t ∷ []
insert_row terms t (u ∷ us) =
    let later = insert_row terms t us in if leads terms t u then t ∷ (u ∷ us) else u ∷ later

unfoldable pub sort_rows : List (Thread → ℕ) → List Thread → List Thread
unfolding insert_row
sort_rows terms [] = []
sort_rows terms (t ∷ ts) = insert_row terms t (sort_rows terms ts)

leads_total :
    (terms : List (Thread → ℕ)) (t u : Thread) → leads terms t u ≡ false → leads terms u t ≡ true
unfolding leads
leads_total [] t u h = refl
leads_total (term ∷ terms) t u h = elim (Bool-cases (leads terms t u)) [
  | inl e ↦ ground (arith, h, e)
  | inr e ↦ ground (arith, h, e, leads_total terms t u e)
]

leads_trans :
    (terms : List (Thread → ℕ)) (t u v : Thread)
    → leads terms t u ≡ true
    → leads terms u v ≡ true
    → leads terms t v ≡ true
unfolding leads
leads_trans [] t u v h k = refl
leads_trans (term ∷ terms) t u v h k = elim (Bool-cases (leads terms t u)) [
  | inr e ↦ ground (arith, h, k, e)
  | inl e ↦ elim (Bool-cases (leads terms u v)) [
    | inr i ↦ ground (arith, h, k, e, i)
    | inl i ↦ ground (arith, h, k, e, i, leads_trans terms t u v e i)
  ]
]

module _ (terms : List (Thread → ℕ)) where
  insert_row-All :
      (P : Thread → Type 0) (t : Thread) (ts : List Thread)
      → P t
      → All P ts
      → All P (insert_row terms t ts)
  unfolding insert_row
  insert_row-All P t [] h k = (h, tt)
  insert_row-All P t (u ∷ us) h k = elim (Bool-cases (leads terms t u)) [
    | inl e ↦ rw (e, insert_row) (h, k)
    | inr e ↦ rw (e, insert_row) (k.0, insert_row-All P t us h k.1)
  ]

  pub sort_rows-All :
      (ts : List Thread) (P : Thread → Type 0) → All P ts → All P (sort_rows terms ts)
  unfolding sort_rows
  sort_rows-All [] P h = tt
  sort_rows-All (t ∷ ts) P h = insert_row-All P t (sort_rows terms ts) h.0 (sort_rows-All ts P h.1)

  insert_row-count :
      (t : Thread) (ts : List Thread) (q : Thread → Bool)
      → length (select q (insert_row terms t ts)) ≡ length (select q (t ∷ ts))
  unfolding insert_row select
  insert_row-count t [] q = refl
  insert_row-count t (u ∷ us) q = let later = insert_row-count t us q in ground (arith, later)

  pub sort_rows-count :
      (ts : List Thread) (q : Thread → Bool)
      → length (select q (sort_rows terms ts)) ≡ length (select q ts)
  unfolding sort_rows select
  sort_rows-count [] q = refl
  sort_rows-count (t ∷ ts) q =
      let later = sort_rows-count ts q in
      insert_row-count t (sort_rows terms ts) q ∙ ground (arith, later)

  insert_row-IsDescending :
      (t : Thread) (ts : List Thread)
      → IsDescending terms ts
      → IsDescending terms (insert_row terms t ts)
  unfolding insert_row
  insert_row-IsDescending t [] h = (tt, tt)
  insert_row-IsDescending t (u ∷ us) h = elim (Bool-cases (leads terms t u)) [
    | inl e ↦
        rw (e, insert_row)
          (
            (
              e,
              All-map (λ v. leads terms u v ≡ true) (λ v. leads terms t v ≡ true) us
                  (λ v k. leads_trans terms t u v e k) h.0,
            ),
            h,
          )
    | inr e ↦
        rw (e, insert_row)
          (
            insert_row-All (λ v. leads terms u v ≡ true) t us (leads_total terms t u e) h.0,
            insert_row-IsDescending t us h.1,
          )
  ]

  pub sort_rows-IsDescending : (ts : List Thread) → IsDescending terms (sort_rows terms ts)
  unfolding sort_rows
  sort_rows-IsDescending [] = tt
  sort_rows-IsDescending (t ∷ ts) =
      insert_row-IsDescending t (sort_rows terms ts) (sort_rows-IsDescending ts)

abbrev pub by_insertion : SqlOrder
by_insertion = record {
  order_by = λ n terms ts. sort_rows terms ts;
  same_rows = λ n terms ts q. sort_rows-count terms ts q;
  no_others = λ n terms ts P h. sort_rows-All terms ts P h;
  descending = λ n terms ts. sort_rows-IsDescending terms ts;
}
