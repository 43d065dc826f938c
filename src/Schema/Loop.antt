-- ===== src/Schema/Loop.antt =====
-- The loop that the sync package writes as `for _, t := range rows { UpdateOne(t)… }`, over the rows
-- that a query selected, changes each selected row once and no other.
use dankmail.Base.{
  ℕ, Bool, false, List, [], ◌∷◌, ◌≡◌, refl, ◌∙◌, ap, inl, inr, arith, All, All-map, select,
  update_where, if◌then◌else◌, ◌==◌, ==-self, Bool-cases, map, All-select, nat_eq, string_eq,
}
use dankmail.Schema.{Thread, update_thread, IsIndexed, same_key}

-- `g t` changes the stored row, by what was read of it in `t`.
unfoldable pub for_rows : (Thread → Thread → Thread) → List Thread → List Thread → List Thread
for_rows g [] table = table
for_rows g (t ∷ rows) table = for_rows g rows (update_thread t.id (g t) table)

-- What `for_rows` does to the rows that pass the query.
unfoldable pub change_rows :
    (Thread → Bool) → (Thread → Thread → Thread) → List Thread → List Thread
change_rows p g = map (λ r. if p r then g r r else r)

abbrev Misses : ℕ → List Thread → Type 0
Misses id = All (λ u. (u.id == id) ≡ false)

update_thread_miss :
    (id : ℕ) (f : Thread → Thread) (ts : List Thread) → Misses id ts → update_thread id f ts ≡ ts
unfolding update_thread update_where
update_thread_miss id f [] h = refl
update_thread_miss id f (t ∷ ts) h = rw (h.0) (ap (◌∷◌ t) (update_thread_miss id f ts h.1))

-- An update that changes nothing.
pub update_thread_self : (id : ℕ) (ts : List Thread) → update_thread id (λ r. r) ts ≡ ts
unfolding update_thread update_where
update_thread_self id [] = refl
update_thread_self id (t ∷ ts) = ground (arith, update_thread_self id ts)

update_thread_hit :
    (x : Thread) (f : Thread → Thread) (xs : List Thread)
    → Misses x.id xs
    → update_thread x.id f (x ∷ xs) ≡ f x ∷ xs
unfolding update_thread update_where
update_thread_hit x f xs h = rw (==-self x.id) (ap (◌∷◌ (f x)) (update_thread_miss x.id f xs h))

for_rows_miss :
    (g : Thread → Thread → Thread) (rows : List Thread) (x : Thread) (xs : List Thread)
    → Misses x.id rows
    → for_rows g rows (x ∷ xs) ≡ x ∷ for_rows g rows xs
unfolding for_rows update_thread update_where
for_rows_miss g [] x xs h = refl
for_rows_miss g (t ∷ rows) x xs h =
    let apart : (x.id == t.id) ≡ false = ground (arith, h.0) in
    rw apart (for_rows_miss g rows x (update_thread t.id (g t) xs) h.1)

module _ (p : Thread → Bool) (g : Thread → Thread → Thread)
    (keeps : (t r : Thread) → (g t r).id ≡ r.id) where
  head-Misses : (x : Thread) (xs : List Thread) → IsIndexed (x ∷ xs) → Misses x.id xs
  head-Misses x xs h =
      All-map (λ u. ((x.id == u.id) ≡ false) × (same_key x u ≡ false)) (λ u. (u.id == x.id) ≡ false)
        xs (λ u e. ground (arith, e.0)) h.0

  -- The loop is a map over the table.
  pub for_rows-select :
      (xs : List Thread) → IsIndexed xs → for_rows g (select p xs) xs ≡ change_rows p g xs
  unfolding for_rows select change_rows
  for_rows-select [] h = refl
  for_rows-select (x ∷ xs) h =
      let miss : Misses x.id xs = head-Misses x xs h in
      let rest : Misses x.id (select p xs) = All-select (λ u. (u.id == x.id) ≡ false) p xs miss in
      elim (Bool-cases (p x)) [
        | inl e ↦
            rw (e, select)
              (ap (for_rows g (select p xs)) (update_thread_hit x (g x) xs miss)
                ∙ for_rows_miss g (select p xs) (g x x) xs (rw (keeps x x) rest)
                ∙ ap (◌∷◌ (g x x)) (for_rows-select xs h.1))
        | inr e ↦
            rw (e, select)
              (for_rows_miss g (select p xs) x xs rest ∙ ap (◌∷◌ x) (for_rows-select xs h.1))
      ]
