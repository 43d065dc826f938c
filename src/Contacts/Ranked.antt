-- ===== src/Contacts/Ranked.antt =====
-- contacts.go, the order and the number of the suggestions.
use dankmail.Base.{
  ℕ, zero, suc, ◌+◌, ◌*◌, ◌≤◌, String, false, ◌||◌, List, [], ◌∷◌, leb, ◌==◌, ==-self, string_eq,
  if◌then◌else◌, contains, IsDistinct, All, All-map, All-map2, take, length, ◌≡◌, refl, sym, ap,
  ◌∙◌, inl, inr, arith, Bool-cases,
}
use dankmail.Contacts.{
  Contact, Suggestion, merge_rows, insert_suggestion, sort_suggestions, search, limit_or_eight,
}
use dankmail.Contacts.Merged.{emails, total, weight_at, IsSorted, merge_rows_lem, weight_at-fresh}

apart :
    (e : String) (ms : List Suggestion)
    → contains e (emails ms) ≡ false
    → All (λ m. (e == m.email) ≡ false) ms
unfolding contains emails
apart e [] h = tt
apart e (m ∷ ms) h =
    let rest : contains e (emails ms) ≡ false = ground (arith, h) in
    (ground (arith, h, string_eq.agrees m.email e, string_eq.agrees e m.email), apart e ms rest)

members-weight :
    (ms : List Suggestion) → IsDistinct (emails ms) → All (λ m. weight_at m.email ms ≡ m.weight) ms
unfolding weight_at emails
members-weight [] h = tt
members-weight (m ∷ ms) h = (
  ground (arith, ==-self m.email, weight_at-fresh m.email ms h.0),
  All-map2 (λ x. (m.email == x.email) ≡ false) (λ x. weight_at x.email ms ≡ x.weight)
      (λ x. (if m.email == x.email then m.weight else 0) + weight_at x.email ms ≡ x.weight) ms
      (λ x other same. ground (arith, other, same)) (apart m.email ms h.0) (members-weight ms h.1),
)

contains-insert_suggestion :
    (e : String) (m : Suggestion) (ss : List Suggestion)
    → contains e (emails (insert_suggestion m ss)) ≡ (m.email == e || contains e (emails ss))
unfolding insert_suggestion emails contains
contains-insert_suggestion e m [] = refl
contains-insert_suggestion e m (s ∷ ss) =
    let step = contains-insert_suggestion e m ss in
    elim (Bool-cases (leb s.weight m.weight)) [
      | inl k ↦ rw (k) refl
      | inr k ↦ rw (k, contains) (ground (arith, step))
    ]

insert_suggestion-IsDistinct :
    (m : Suggestion) (ss : List Suggestion)
    → contains m.email (emails ss) ≡ false
    → IsDistinct (emails ss)
    → IsDistinct (emails (insert_suggestion m ss))
unfolding insert_suggestion emails contains
insert_suggestion-IsDistinct m [] fresh h = (refl, tt)
insert_suggestion-IsDistinct m (s ∷ ss) fresh h = elim (Bool-cases (leb s.weight m.weight)) [
  | inl k ↦ rw (k) (fresh, h)
  | inr k ↦
      let rest : contains m.email (emails ss) ≡ false = ground (arith, fresh) in
      rw (k) (
        contains-insert_suggestion s.email m ss
            ∙ ground (
              arith,
              h.0,
              fresh,
              string_eq.agrees m.email s.email,
              string_eq.agrees s.email m.email,
            ),
        insert_suggestion-IsDistinct m ss rest h.1,
      )
]

insert_suggestion-All {κ} :
    (P : Suggestion → Type κ) (m : Suggestion) (ss : List Suggestion)
    → P m
    → All P ss
    → All P (insert_suggestion m ss)
unfolding insert_suggestion
insert_suggestion-All P m [] p h = (p, tt)
insert_suggestion-All P m (s ∷ ss) p h = elim (Bool-cases (leb s.weight m.weight)) [
  | inl k ↦ rw (k) (p, h)
  | inr k ↦ rw (k) (h.0, insert_suggestion-All P m ss p h.1)
]

insert_suggestion-IsSorted :
    (m : Suggestion) (ss : List Suggestion) → IsSorted ss → IsSorted (insert_suggestion m ss)
unfolding insert_suggestion IsSorted
insert_suggestion-IsSorted m [] h = (tt, tt)
insert_suggestion-IsSorted m (s ∷ ss) h = elim (Bool-cases (leb s.weight m.weight)) [
  | inl k ↦
      let less : s.weight ≤ m.weight = ground (arith, k) in
      rw (k) (
        (
          less,
          All-map (λ x. x.weight ≤ s.weight) (λ x. x.weight ≤ m.weight) ss
              (λ x l. omega (arith, l, less)) h.0,
        ),
        h,
      )
  | inr k ↦
      let more : m.weight ≤ s.weight = ground (arith, k) in
      rw (k) (
        insert_suggestion-All (λ x. x.weight ≤ s.weight) m ss more h.0,
        insert_suggestion-IsSorted m ss h.1,
      )
]

-- What the sorted list keeps of the merged one.
sort_suggestions_lem {κ} :
    (P : Suggestion → Type κ) (ms : List Suggestion)
    → IsDistinct (emails ms)
    → All P ms
    → IsDistinct (emails (sort_suggestions ms))
      × IsSorted (sort_suggestions ms)
      × All P (sort_suggestions ms)
      × ((e : String) → contains e (emails (sort_suggestions ms)) ≡ contains e (emails ms))
unfolding sort_suggestions IsSorted emails contains
sort_suggestions_lem P [] h p = (tt, tt, tt, λ e. refl)
sort_suggestions_lem P (m ∷ ms) h p =
    let (distinct, sorted, all, same) = sort_suggestions_lem P ms h.1 p.1 in
    (
      insert_suggestion-IsDistinct m (sort_suggestions ms) (same m.email ∙ h.0) distinct,
      insert_suggestion-IsSorted m (sort_suggestions ms) sorted,
      insert_suggestion-All P m (sort_suggestions ms) p.0 all,
      λ e.
          contains-insert_suggestion e m (sort_suggestions ms)
          ∙ ap (λ b. m.email == e || b) (same e),
    )

take-absent :
    (n : ℕ) (e : String) (ms : List Suggestion)
    → contains e (emails ms) ≡ false
    → contains e (emails (take n ms)) ≡ false
unfolding emails contains
take-absent zero e ms h = refl
take-absent (suc n) e [] h = refl
take-absent (suc n) e (m ∷ ms) h =
    let rest : contains e (emails ms) ≡ false = ground (arith, h) in
    ground (arith, h, take-absent n e ms rest)

take-All {κ} :
    (P : Suggestion → Type κ) (n : ℕ) (ms : List Suggestion) → All P ms → All P (take n ms)
take-All P zero ms p = tt
take-All P (suc n) [] p = tt
take-All P (suc n) (m ∷ ms) p = (p.0, take-All P n ms p.1)

total-merged : (e : String) (rows : List Contact) → weight_at e (merge_rows [] rows) ≡ total e rows
unfolding weight_at emails
total-merged e rows = omega (arith, (merge_rows_lem e [] rows tt).1)

take_lem {κ} :
    (P : Suggestion → Type κ) (n : ℕ) (ms : List Suggestion)
    → IsDistinct (emails ms)
    → IsSorted ms
    → All P ms
    → (length (take n ms) ≤ n)
      × IsDistinct (emails (take n ms))
      × IsSorted (take n ms)
      × All P (take n ms)
unfolding emails IsSorted
take_lem P zero ms h s p = (omega arith, tt, tt, tt)
take_lem P (suc n) [] h s p = (omega arith, tt, tt, tt)
take_lem P (suc n) (m ∷ ms) h s p =
    let (short, distinct, sorted, all) = take_lem P n ms h.1 s.1 p.1 in
    (
      omega (arith, short),
      (take-absent n m.email ms h.0, distinct),
      (take-All (λ x. x.weight ≤ m.weight) n ms s.0, sorted),
      (p.0, all),
    )

-- A search suggests at most as many addresses as its limit, or eight where the limit is 0, none twice,
-- the greatest weight first; the weight of each is the sum of the weights of its rows, among those that
-- the query returned up to four times the limit.
pub search_lem :
    (limit : ℕ) (rows : List Contact)
    → (length (search limit rows) ≤ limit_or_eight limit)
      × IsDistinct (emails (search limit rows))
      × IsSorted (search limit rows)
      × All
          (λ m. total m.email (take (limit_or_eight limit * 4) rows) ≡ m.weight)
          (search limit rows)
unfolding search emails
search_lem limit rows =
    let taken = take (limit_or_eight limit * 4) rows in
    let merged = merge_rows [] taken in
    let distinct = (merge_rows_lem "" [] taken tt).0 in
    let weights =
      All-map (λ m. weight_at m.email merged ≡ m.weight) (λ m. total m.email taken ≡ m.weight)
        merged (λ m same. sym (total-merged m.email taken) ∙ same)
        (members-weight merged distinct) in
    let sorted =
      sort_suggestions_lem (λ m. total m.email taken ≡ m.weight) merged distinct weights in
    take_lem (λ m. total m.email taken ≡ m.weight) (limit_or_eight limit) (sort_suggestions merged)
      sorted.0 sorted.1 sorted.2
