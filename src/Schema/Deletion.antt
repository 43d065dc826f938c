-- ===== src/Schema/Deletion.antt =====
-- The loop that deletes selected rows one by one leaves the rows that were not selected, and those
-- that it skips.
use dankmail.Base.{
  ℕ, Bool, false, not, ◌&&◌, List, [], ◌∷◌, ◌≡◌, refl, ap, ◌∙◌, inl, inr, arith, All, All-map,
  All-map2, exists, All-select, select, delete_where, if◌then◌else◌, ◌==◌, ==-self, Bool-cases,
  nat_eq,
}
use dankmail.Schema.{Thread, Cache, IsIndexed, delete_thread, delete_rows, same_key}

-- The table's part of the loop.
delete_ids : (Thread → Bool) → List Thread → List Thread → List Thread
delete_ids skip [] table = table
delete_ids skip (t ∷ rows) table =
    delete_ids skip rows (if skip t then table else delete_where (λ u. u.id == t.id) table)

delete_rows-threads :
    (skip : Thread → Bool) (rows : List Thread) (c : Cache)
    → (delete_rows skip rows c).threads ≡ delete_ids skip rows c.threads
unfolding delete_rows delete_ids delete_thread
delete_rows-threads skip [] c = refl
delete_rows-threads skip (t ∷ rows) c = elim (Bool-cases (skip t)) [
  | inl e ↦ rw (e, delete_rows) (delete_rows-threads skip rows c)
  | inr e ↦ rw (e, delete_rows) (delete_rows-threads skip rows (delete_thread t.id c))
]

pub delete_rows-next_thread :
    (skip : Thread → Bool) (rows : List Thread) (c : Cache)
    → (delete_rows skip rows c).next_thread ≡ c.next_thread
unfolding delete_rows delete_thread
delete_rows-next_thread skip [] c = refl
delete_rows-next_thread skip (t ∷ rows) c = elim (Bool-cases (skip t)) [
  | inl e ↦ rw (e, delete_rows) (delete_rows-next_thread skip rows c)
  | inr e ↦ rw (e, delete_rows) (delete_rows-next_thread skip rows (delete_thread t.id c))
]

abbrev Misses : ℕ → List Thread → Type 0
Misses id = All (λ u. (u.id == id) ≡ false)

delete_where-miss :
    (id : ℕ) (ts : List Thread) → Misses id ts → delete_where (λ u. u.id == id) ts ≡ ts
unfolding delete_where select
delete_where-miss id [] h = refl
delete_where-miss id (t ∷ ts) h = rw (h.0) (ap (◌∷◌ t) (delete_where-miss id ts h.1))

delete_where-hit :
    (x : Thread) (xs : List Thread)
    → Misses x.id xs
    → delete_where (λ u. u.id == x.id) (x ∷ xs) ≡ xs
unfolding delete_where select
delete_where-hit x xs h = rw (==-self x.id) (delete_where-miss x.id xs h)

delete_ids-miss :
    (skip : Thread → Bool) (rows : List Thread) (x : Thread) (xs : List Thread)
    → Misses x.id rows
    → delete_ids skip rows (x ∷ xs) ≡ x ∷ delete_ids skip rows xs
unfolding delete_ids delete_where select
delete_ids-miss skip [] x xs h = refl
delete_ids-miss skip (t ∷ rows) x xs h =
    let apart : (x.id == t.id) ≡ false = ground (arith, h.0) in
    elim (Bool-cases (skip t)) [
      | inl e ↦ rw e (delete_ids-miss skip rows x xs h.1)
      | inr e ↦ rw (e, apart) (delete_ids-miss skip rows x _ h.1)
    ]

module _ (p skip : Thread → Bool) where
  abbrev stays : Thread → Bool
  stays t = not (p t && not (skip t))

  delete_ids-select :
      (ts : List Thread) → IsIndexed ts → delete_ids skip (select p ts) ts ≡ select stays ts
  unfolding delete_ids select
  delete_ids-select [] h = refl
  delete_ids-select (x ∷ xs) h =
      let miss : Misses x.id xs =
        All-map (λ u. ((x.id == u.id) ≡ false) × (same_key x u ≡ false))
          (λ u. (u.id == x.id) ≡ false) xs (λ u e. ground (arith, e.0)) h.0 in
      let rest : Misses x.id (select p xs) = All-select (λ u. (u.id == x.id) ≡ false) p xs miss in
      elim (Bool-cases (p x)) [
        | inr e ↦
            rw (e, select)
              (delete_ids-miss skip (select p xs) x xs rest ∙ ap (◌∷◌ x) (delete_ids-select xs h.1))
        | inl e ↦ elim (Bool-cases (skip x)) [
          | inl s ↦
              rw (e, select, s, delete_ids)
                (delete_ids-miss skip (select p xs) x xs rest
                  ∙ ap (◌∷◌ x) (delete_ids-select xs h.1))
          | inr s ↦
              rw (e, select, s, delete_ids)
                (ap (delete_ids skip (select p xs)) (delete_where-hit x xs miss)
                  ∙ delete_ids-select xs h.1)
        ]
      ]

  -- The loop is one deletion by a test.
  pub delete_rows-select :
      (c : Cache)
      → IsIndexed c.threads
      → (delete_rows skip (select p c.threads) c).threads ≡ select stays c.threads
  delete_rows-select c h =
      delete_rows-threads skip (select p c.threads) c ∙ delete_ids-select c.threads h

abbrev pub has_row : ℕ → List Thread → Bool
has_row id = exists (λ u. u.id == id)

has_row-select_miss :
    (q : Thread → Bool) (id : ℕ) (ts : List Thread)
    → Misses id ts
    → has_row id (select q ts) ≡ false
unfolding select exists
has_row-select_miss q id [] h = refl
has_row-select_miss q id (t ∷ ts) h = elim (Bool-cases (q t)) [
  | inl e ↦ rw (e, select, exists) (rw (h.0) (has_row-select_miss q id ts h.1))
  | inr e ↦ rw (e, select) (has_row-select_miss q id ts h.1)
]

has_row-cons :
    (q : Thread → Bool) (t u : Thread) (ts : List Thread)
    → (t.id == u.id) ≡ false
    → has_row u.id (select q (t ∷ ts)) ≡ has_row u.id (select q ts)
unfolding select exists
has_row-cons q t u ts h = elim (Bool-cases (q t)) [
  | inl e ↦ rw (e, select, exists) (rw h)
  | inr e ↦ rw (e, select)
]

-- A row of the table is in a selection if it passes the test.
pub has_row-select :
    (q : Thread → Bool) (ts : List Thread)
    → IsIndexed ts
    → All (λ t. has_row t.id (select q ts) ≡ q t) ts
unfolding select exists
has_row-select q [] h = tt
has_row-select q (t ∷ ts) h = (
  (elim (Bool-cases (q t)) [
    | inl e ↦ rw (e, select, exists) (rw (==-self t.id))
    | inr e ↦
        rw (e, select)
          (has_row-select_miss q t.id ts (
            All-map (λ u. ((t.id == u.id) ≡ false) × (same_key t u ≡ false))
              (λ u. (u.id == t.id) ≡ false) ts (λ u a. ground (arith, a.0)) h.0))
  ]),
  All-map2 (λ u. ((t.id == u.id) ≡ false) × (same_key t u ≡ false))
      (λ u. has_row u.id (select q ts) ≡ q u) (λ u. has_row u.id (select q (t ∷ ts)) ≡ q u) ts
      (λ u a k. has_row-cons q t u ts a.0 ∙ k) h.0 (has_row-select q ts h.1),
)
