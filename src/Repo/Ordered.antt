-- ===== src/Repo/Ordered.antt =====
-- threads_queries.go, the order of a list.
use dankmail.Base.{
  ℕ, Bool, true, false, not, List, [], ◌∷◌, ◌≡◌, ◌≤◌, ◌⊎◌, subst, sym, refl, arith, Bool-cases, inl,
  inr, ◌||◌, ◌&&◌, nat_eq, select, select-All, All, All-map2, exists, ap, ◌∙◌, ltb, leb, ◌==◌,
  length, max,
}
use dankmail.Schema.{Thread, Message, Cache}
use dankmail.Repo.{
  ThreadFilter, Matches, SqlOrder, is_listed, order_date, order_terms, leads, latest_date,
  IsDescending, rows,
}

-- The date that a list shows for a row: that of its last message, or in the list of sent mail that of
-- its latest sent message.
unfoldable pub HasDate : Bool → List Message → Thread → ℕ → Type 0
HasDate false messages t d = d ≡ t.last_message_at
HasDate true messages t d =
    (exists (λ m. (m.thread == t.id && m.is_sent) && m.date == d) messages ≡ true)
    × All (λ m. (not (m.thread == t.id && m.is_sent) || leb m.date d) ≡ true) messages

-- The first row has the later date, or the same date and an id that is not lower.
unfoldable pub ComesBefore : Bool → List Message → Thread → Thread → Type 0
unfolding HasDate
ComesBefore sent messages t u =
    (d : ℕ) × (e : ℕ) × HasDate sent messages t d
    × HasDate sent messages u e
    × ((ltb e d || (d == e && leb u.id t.id)) ≡ true)

-- Each row comes before all the later ones.
unfoldable pub IsNewestFirst : Bool → List Message → List Thread → Type 0
unfolding ComesBefore
IsNewestFirst sent messages [] = Unit {0}
IsNewestFirst sent messages (t ∷ ts) =
    All (λ u. ComesBefore sent messages t u) ts × IsNewestFirst sent messages ts

module _ (p : Message → Bool) where
  abbrev latest_of : List Message → ℕ
  latest_of ms = latest_date (select p ms)

  latest_of-hit :
      (m : Message) (ms : List Message)
      → p m ≡ true
      → latest_of (m ∷ ms) ≡ max m.date (latest_of ms)
  unfolding select latest_date
  latest_of-hit m ms e = rw (e, select) refl

  latest_of-miss :
      (m : Message) (ms : List Message) → p m ≡ false → latest_of (m ∷ ms) ≡ latest_of ms
  unfolding select latest_date
  latest_of-miss m ms e = rw (e, select) refl

  latest_of-bound :
      (ms : List Message) (n : ℕ)
      → latest_of ms ≤ n
      → All (λ m. (not (p m) || leb m.date n) ≡ true) ms
  latest_of-bound [] n h = tt
  latest_of-bound (m ∷ ms) n h = elim (Bool-cases (p m)) [
    | inl e ↦
        let bound = latest_of-hit m ms e in
        (rw (e) (ground (arith, h, bound)), latest_of-bound ms n (omega (arith, h, bound)))
    | inr e ↦ (rw (e) refl, latest_of-bound ms n (omega (arith, h, latest_of-miss m ms e)))
  ]

  abbrev dated : ℕ → List Message → Bool
  dated n ms = exists (λ m. p m && m.date == n) ms

  latest_of-attained :
      (ms : List Message)
      → ((exists p ms ≡ false) × (latest_of ms ≡ 0)) ⊎ (dated (latest_of ms) ms ≡ true)
  unfolding exists select latest_date
  latest_of-attained [] = inl (refl, refl)
  latest_of-attained (m ∷ ms) =
      let later = latest_of-attained ms in
      elim (Bool-cases (p m)) [
        | inl e ↦ elim (Bool-cases (leb (latest_of ms) m.date)) [
          | inl k ↦ inr (ground (arith, latest_of-hit m ms e, e, k))
          | inr k ↦ elim later [
            | inl none_there ↦ absurd (ground (arith, none_there.1, k))
            | inr there ↦
                let same : latest_of (m ∷ ms) ≡ latest_of ms =
                  ground (arith, latest_of-hit m ms e, k) in
                inr (subst (λ n. dated n (m ∷ ms) ≡ true) (sym same) (ground (arith, there)))
          ]
        ]
        | inr e ↦
            let same = latest_of-miss m ms e in
            elim later [
              | inl none_there ↦ inl (rw (e) none_there.0, same ∙ none_there.1)
              | inr there ↦ inr (subst (λ n. dated n (m ∷ ms) ≡ true) (sym same) (rw (e) there))
            ]
      ]

latest_date-HasDate :
    (t : Thread) (ms : List Message)
    → exists (λ m. m.thread == t.id && m.is_sent) ms ≡ true
    → HasDate true ms t (latest_date (select (λ m. m.thread == t.id && m.is_sent) ms))
unfolding HasDate
latest_date-HasDate t ms h =
    let sent : Message → Bool = λ m. m.thread == t.id && m.is_sent in
    (
      elim (latest_of-attained sent ms) [
        | inl none_there ↦ absurd (ground (arith, none_there.0, h))
        | inr there ↦ there
      ],
      latest_of-bound sent ms (latest_of sent ms) (omega arith),
    )

sent_there :
    (matches : Matches) (f : ThreadFilter) (ms : List Message) (t : Thread)
    → f.sent_only ≡ true
    → is_listed matches f ms t ≡ true
    → exists (λ m. m.thread == t.id && m.is_sent) ms ≡ true
unfolding is_listed
sent_there matches f ms t e h = ground (arith, e, h)

order_date-HasDate :
    (matches : Matches) (f : ThreadFilter) (ms : List Message) (t : Thread)
    → is_listed matches f ms t ≡ true
    → HasDate f.sent_only ms t (order_date f ms t)
unfolding HasDate order_date is_listed
order_date-HasDate matches f ms t h = elim (Bool-cases f.sent_only) [
  | inl e ↦ rw (e, order_date) (latest_date-HasDate t ms (sent_there matches f ms t e h))
  | inr e ↦ rw (e, order_date) refl
]

select-select :
    (p q : Thread → Bool) (ts : List Thread) → select q (select p ts) ≡ select (λ t. p t && q t) ts
unfolding select
select-select p q [] = refl
select-select p q (t ∷ ts) = let later = select-select p q ts in ground (arith, later)

module _ (matches : Matches) (f : ThreadFilter) (ms : List Message) where
  leads-ComesBefore :
      (t u : Thread)
      → is_listed matches f ms t ≡ true
      → is_listed matches f ms u ≡ true
      → leads (order_terms f ms) t u ≡ true
      → ComesBefore f.sent_only ms t u
  unfolding ComesBefore leads order_terms
  leads-ComesBefore t u a b h = (
    order_date f ms t,
    order_date f ms u,
    order_date-HasDate matches f ms t a,
    order_date-HasDate matches f ms u b,
    ground (arith, h),
  )

  IsDescending-IsNewestFirst :
      (ts : List Thread)
      → All (λ t. is_listed matches f ms t ≡ true) ts
      → IsDescending (order_terms f ms) ts
      → IsNewestFirst f.sent_only ms ts
  unfolding IsNewestFirst
  IsDescending-IsNewestFirst [] h d = tt
  IsDescending-IsNewestFirst (t ∷ ts) h d = (
    All-map2 (λ u. is_listed matches f ms u ≡ true) (λ u. leads (order_terms f ms) t u ≡ true)
        (λ u. ComesBefore f.sent_only ms t u) ts (λ u a l. leads-ComesBefore t u h.0 a l) h.1 d.0,
    IsDescending-IsNewestFirst ts h.1 d.1,
  )

-- Each row of a list comes before all the later ones: its date is later, or the same and its id not
-- lower, where the date is that of its last message, or in the list of sent mail that of its latest sent
-- message. Each row passes every condition of the filter, and there are as many rows with some quality
-- as the table has that pass the filter.
pub rows-IsOrdered :
    (sql : SqlOrder) (n : ℕ) (matches : Matches) (f : ThreadFilter) (c : Cache)
    → IsNewestFirst f.sent_only c.messages (rows sql n matches f c)
      × All (λ t. is_listed matches f c.messages t ≡ true) (rows sql n matches f c)
      × ((q : Thread → Bool)
          → length (select q (rows sql n matches f c))
            ≡ length (select (λ t. is_listed matches f c.messages t && q t) c.threads))
unfolding rows
rows-IsOrdered sql n matches f c =
    let terms = order_terms f c.messages in
    let passes = is_listed matches f c.messages in
    let selected = select passes c.threads in
    let listed : All (λ t. passes t ≡ true) (sql.order_by n terms selected) =
      sql.no_others n terms selected (λ t. passes t ≡ true) (select-All passes c.threads) in
    (
      IsDescending-IsNewestFirst matches f c.messages (sql.order_by n terms selected) listed
          (sql.descending n terms selected),
      listed,
      λ q. sql.same_rows n terms selected q ∙ ap length (select-select passes q c.threads),
    )
