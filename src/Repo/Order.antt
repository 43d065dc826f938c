-- ===== src/Repo/Order.antt =====
-- threads_queries.go, why the order of a list is the same in every query.
use dankmail.Base.{
  ℕ, ◌≤◌, Bool, true, false, List, [], ◌∷◌, ◌==◌, nat_eq, ◌≡◌, refl, sym, ap, ap₂, subst, ◌∙◌,
  arith, length, select, All, All-map, All-map2, All-select, inl, inr, Bool-cases,
}
use dankmail.Schema.{Thread, Cache, IsIndexed}
use dankmail.Repo.{
  ThreadFilter, Matches, SqlOrder, order_terms, order_date, leads, IsDescending, is_listed, rows,
}
use dankmail.Schema.Indexed.{Apart}

-- What has the id of `t` is `t`.
abbrev Names : Thread → Thread → Type 0
Names t u = (t.id == u.id) ≡ true → t ≡ u

find_row :
    (P : Thread → Type 0) (goal : Type 0) (q : Thread → Bool) (ts : List Thread)
    → 1 ≤ length (select q ts)
    → All P ts
    → ((t : Thread) → q t ≡ true → P t → goal)
    → goal
unfolding select
find_row P goal q [] some_one h use_it = absurd (omega (arith, some_one))
find_row P goal q (t ∷ ts) some_one h use_it = elim (Bool-cases (q t)) [
  | inl e ↦ use_it t e h.0
  | inr e ↦ find_row P goal q ts (ground (arith, some_one, e)) h.1 use_it
]

count_head :
    (q : Thread → Bool) (t : Thread) (ts : List Thread)
    → q t ≡ true
    → 1 ≤ length (select q (t ∷ ts))
unfolding select
count_head q t ts e = rw (e) (omega arith)

count_tail :
    (q : Thread → Bool) (t u : Thread) (ts us : List Thread)
    → t ≡ u
    → length (select q (t ∷ ts)) ≡ length (select q (u ∷ us))
    → length (select q ts) ≡ length (select q us)
unfolding select
count_tail q t u ts us same h = ground (arith, h, ap q same)

same_id : (t : Thread) → (t.id == t.id) ≡ true
same_id t = ground arith

module _ (date : Thread → ℕ) where
  abbrev by_date : List (Thread → ℕ)
  by_date = date ∷ ((λ t. t.id) ∷ [])

  -- Two rows of which each may stand before the other have one id.
  leads_antisym :
      (t u : Thread) → leads by_date t u ≡ true → leads by_date u t ≡ true → (t.id == u.id) ≡ true
  unfolding leads
  leads_antisym t u h k = ground arith

  -- A row of another list either is its head or may stand after it.
  head_leads :
      (t u : Thread) (us : List Thread)
      → All (λ v. leads by_date u v ≡ true) us
      → All (λ v. Names t v) (u ∷ us)
      → 1 ≤ length (select (λ v. t.id == v.id) (u ∷ us))
      → (t.id == u.id) ≡ false
      → leads by_date u t ≡ true
  unfolding select
  head_leads t u us after named some_one apart =
      find_row (λ v. (leads by_date u v ≡ true) × Names t v) (leads by_date u t ≡ true)
        (λ v. t.id == v.id) us (ground (arith, some_one, apart))
        (All-map2 (λ v. leads by_date u v ≡ true) (λ v. Names t v)
          (λ v. (leads by_date u v ≡ true) × Names t v) us (λ v a b. (a, b)) after named.1)
        (λ v e p. subst (λ w. leads by_date u w ≡ true) (sym (p.1 e)) p.0)

  heads_agree :
      (t u : Thread) (ts us : List Thread)
      → All (λ v. leads by_date t v ≡ true) ts
      → All (λ v. leads by_date u v ≡ true) us
      → All (λ v. Names t v) (u ∷ us)
      → All (λ v. Names v u) (t ∷ ts)
      → ((q : Thread → Bool) → length (select q (t ∷ ts)) ≡ length (select q (u ∷ us)))
      → t ≡ u
  heads_agree t u ts us after_t after_u named_t named_u same = elim (Bool-cases (t.id == u.id)) [
    | inl e ↦ named_t.0 e
    | inr e ↦
        let apart : (u.id == t.id) ≡ false = ground (arith, e) in
        let of_t : Thread → Bool = λ v. t.id == v.id in
        let of_u : Thread → Bool = λ v. u.id == v.id in
        let in_us : 1 ≤ length (select of_t (u ∷ us)) =
          subst (λ n. 1 ≤ n) (same of_t) (count_head of_t t ts (same_id t)) in
        let in_ts : 1 ≤ length (select of_u (t ∷ ts)) =
          subst (λ n. 1 ≤ n) (sym (same of_u)) (count_head of_u u us (same_id u)) in
        let turned : All (λ v. Names u v) (t ∷ ts) =
          All-map (λ v. Names v u) (λ v. Names u v) (t ∷ ts) (λ v h i. sym (h (ground (arith, i))))
            named_u in
        let both =
          leads_antisym t u (head_leads u t ts after_t turned in_ts apart)
            (head_leads t u us after_u named_t in_us e) in
        absurd (ground (arith, both, e))
  ]

  -- A table has one order by the terms.
  pub IsDescending-unique :
      (ts us : List Thread)
      → IsDescending by_date ts
      → IsDescending by_date us
      → All (λ t. All (λ u. Names t u) us) ts
      → ((q : Thread → Bool) → length (select q ts) ≡ length (select q us))
      → ts ≡ us
  unfolding select
  IsDescending-unique [] [] d e named same = refl
  IsDescending-unique [] (u ∷ us) d e named same = absurd (omega (arith, same (λ v. true)))
  IsDescending-unique (t ∷ ts) [] d e named same = absurd (omega (arith, same (λ v. true)))
  IsDescending-unique (t ∷ ts) (u ∷ us) d e named same =
      let heads =
        heads_agree t u ts us d.0 e.0 named.0
          (
            named.0.0,
            All-map (λ v. All (λ w. Names v w) (u ∷ us)) (λ v. Names v u) ts (λ v h. h.0) named.1,
          )
          same in
      ap₂ (λ x xs. x ∷ xs) heads
        (IsDescending-unique ts us d.1 e.1
          (All-map (λ v. All (λ w. Names v w) (u ∷ us)) (λ v. All (λ w. Names v w) us) ts
            (λ v h. h.1) named.1)
          (λ q. count_tail q t u ts us heads (same q)))

IsIndexed-Names : (ts : List Thread) → IsIndexed ts → All (λ t. All (λ u. Names t u) ts) ts
IsIndexed-Names [] h = tt
IsIndexed-Names (t ∷ ts) h = (
  (
    (λ e. refl),
    All-map (λ u. Apart t u) (λ u. Names t u) ts (λ u a i. absurd (ground (arith, a.0, i))) h.0,
  ),
  All-map2 (λ u. Apart t u) (λ u. All (λ v. Names u v) ts) (λ u. All (λ v. Names u v) (t ∷ ts)) ts
      (λ u a n. ((λ i. absurd (ground (arith, a.0, i))), n)) h.0 (IsIndexed-Names ts h.1),
)

-- Two queries give the rows in one order, if the rows of the table have different ids.
pub rows_stable :
    (sql : SqlOrder) (n m : ℕ) (matches : Matches) (f : ThreadFilter) (c : Cache)
    → IsIndexed c.threads
    → rows sql n matches f c ≡ rows sql m matches f c
unfolding rows order_terms
rows_stable sql n m matches f c indexed =
    let terms = order_terms f c.messages in
    let passes = is_listed matches f c.messages in
    let selected = select passes c.threads in
    let named : All (λ t. All (λ u. Names t u) selected) selected =
      All-select (λ t. All (λ u. Names t u) selected) passes c.threads
        (All-map (λ t. All (λ u. Names t u) c.threads) (λ t. All (λ u. Names t u) selected)
          c.threads (λ t h. All-select (λ u. Names t u) passes c.threads h)
          (IsIndexed-Names c.threads indexed)) in
    let ordered : All (λ t. All (λ u. Names t u) (sql.order_by m terms selected)) selected =
      All-map (λ t. All (λ u. Names t u) selected)
        (λ t. All (λ u. Names t u) (sql.order_by m terms selected)) selected
        (λ t h. sql.no_others m terms selected (λ u. Names t u) h) named in
    IsDescending-unique (order_date f c.messages) (sql.order_by n terms selected)
      (sql.order_by m terms selected) (sql.descending n terms selected)
      (sql.descending m terms selected)
      (sql.no_others n terms selected (λ t. All (λ u. Names t u) (sql.order_by m terms selected))
        ordered)
      (λ q. sql.same_rows n terms selected q ∙ sym (sql.same_rows m terms selected q))
