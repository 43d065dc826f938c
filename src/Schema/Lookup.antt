-- ===== src/Schema/Lookup.antt =====
-- Looking a thread up by its key, after the statements that change the table; and the invariant of
-- the thread table that the statements keep.
use dankmail.Base.{
  ℕ, suc, ◌<◌, Bool, true, false, String, List, [], ◌∷◌, ◌++◌, ◌≡◌, refl, ap, ◌∙◌, inl, inr, arith,
  All, All-map, All-append, All-select, select, update_where, if◌then◌else◌, ◌==◌, Bool-cases, none,
  some, nat_eq, string_eq, subst, All-map2, All-update_where,
}
use dankmail.Schema.{Thread, IsIndexed, SameRow, find_thread, is_row}
use dankmail.Schema.Loop.{change_rows}
use dankmail.Schema.Indexed.{Apart, change_rows-IsIndexed, select-IsIndexed}
use dankmail.Sync.Types.{AccountId}

module _ (account : AccountId) (id : String) where
  -- A selection that keeps the row.
  pub find_thread-select :
      (q : Thread → Bool) (ts : List Thread) {u : Thread}
      → find_thread account id ts ≡ some u
      → q u ≡ true
      → find_thread account id (select q ts) ≡ some u
  unfolding find_thread select
  find_thread-select q [] h k = cc
  find_thread-select q (t ∷ ts) {u} h k = elim (Bool-cases (is_row account id t)) [
    | inl e ↦ let same : t ≡ u = ground (arith, h, e) in rw (ap q same ∙ k) (rw e (ap some same))
    | inr e ↦
        let later : find_thread account id ts ≡ some u = rw e at h in
        elim (Bool-cases (q t)) [
          | inl s ↦ rw (s) (rw e (find_thread-select q ts later k))
          | inr s ↦ rw (s) (find_thread-select q ts later k)
        ]
  ]

  -- An appended row comes behind.
  pub find_thread-append :
      (ts us : List Thread) {u : Thread}
      → find_thread account id ts ≡ some u
      → find_thread account id (ts ++ us) ≡ some u
  unfolding find_thread
  find_thread-append [] us h = cc
  find_thread-append (t ∷ ts) us {u} h = elim (Bool-cases (is_row account id t)) [
    | inl e ↦ rw e (rw e at h)
    | inr e ↦ rw e (find_thread-append ts us (rw e at h))
  ]

  module _ (p : Thread → Bool) (f : Thread → Thread) (keeps : (r : Thread) → SameRow (f r) r) where
    is_row-keeps : (t : Thread) → is_row account id (f t) ≡ is_row account id t
    is_row-keeps t = rw ((keeps t).1, (keeps t).2)

    -- An update that keeps keys changes the row that is found, if it hits it.
    pub find_thread-update_where :
        (ts : List Thread) {u : Thread}
        → find_thread account id ts ≡ some u
        → find_thread account id (update_where p f ts) ≡ some (if p u then f u else u)
    unfolding find_thread update_where
    find_thread-update_where [] h = cc
    find_thread-update_where (t ∷ ts) {u} h = elim (Bool-cases (is_row account id t)) [
      | inl e ↦
          let same : t ≡ u = ground (arith, h, e) in
          elim (Bool-cases (p t)) [
            | inl s ↦ rw (← same, s) (rw (is_row-keeps t ∙ e))
            | inr s ↦ rw (← same, s) (rw e)
          ]
      | inr e ↦
          let rest = find_thread-update_where ts (rw e at h) in
          elim (Bool-cases (p t)) [
            | inl s ↦ rw s (rw (is_row-keeps t ∙ e) rest)
            | inr s ↦ rw s (rw e rest)
          ]
    ]

find_thread-All :
    (P : Thread → Type 0) (account : AccountId) (id : String) (ts : List Thread) {u : Thread}
    → find_thread account id ts ≡ some u
    → All P ts
    → P u × (is_row account id u ≡ true)
unfolding find_thread
find_thread-All P account id [] h k = cc
find_thread-All P account id (t ∷ ts) {u} h k = elim (Bool-cases (is_row account id t)) [
  | inl e ↦
      let same : t ≡ u = ground (arith, h, e) in
      (subst P same k.0, subst (λ r. is_row account id r ≡ true) same e)
  | inr e ↦ find_thread-All P account id ts (rw e at h) k.1
]

find_thread-none :
    (account : AccountId) (id : String) (ts : List Thread)
    → find_thread account id ts ≡ none
    → All (λ u. is_row account id u ≡ false) ts
unfolding find_thread
find_thread-none account id [] h = tt
find_thread-none account id (t ∷ ts) h =
    (ground arith, find_thread-none account id ts (ground arith))

-- Rows with different keys have different ids.
pub find_thread-apart :
    (account : AccountId) (k j : String) (ts : List Thread) {u v : Thread}
    → IsIndexed ts
    → (k == j) ≡ false
    → find_thread account k ts ≡ some u
    → find_thread account j ts ≡ some v
    → (u.id == v.id) ≡ false
unfolding find_thread
find_thread-apart account k j [] idx ne h g = cc
find_thread-apart account k j (t ∷ ts) {u} {v} idx ne h g = elim (Bool-cases (is_row account k t)) [
  | inl a ↦ elim (Bool-cases (is_row account j t)) [
    | inl b ↦ ground (
      arith,
      a,
      b,
      string_eq.agrees k j,
      string_eq.agrees t.provider_thread_id k,
      string_eq.agrees t.provider_thread_id j,
    )
    | inr b ↦
        let same : t ≡ u = ground (arith, h, a) in
        let apart = find_thread-All (Apart t) account j ts {u = v} (rw b at g) idx.0 in
        rw (← same) apart.0.0
  ]
  | inr a ↦ elim (Bool-cases (is_row account j t)) [
    | inl b ↦
        let same : t ≡ v = ground (arith, g, b) in
        let apart = find_thread-All (Apart t) account k ts {u = u} (rw a at h) idx.0 in
        rw (← same) (ground (arith, apart.0.0))
    | inr b ↦ find_thread-apart account k j ts idx.1 ne (rw a at h) (rw b at g)
  ]
]

-- The indexes hold, and the next id is new.
pub record IsWellFormed (ts : List Thread) (next : ℕ) : Type 0 where
  pub indexed : IsIndexed ts
  pub fresh : All (λ t. t.id < next) ts

update_where-change_rows :
    (p : Thread → Bool) (f : Thread → Thread) (ts : List Thread)
    → update_where p f ts ≡ change_rows p (λ t. f) ts
unfolding update_where change_rows
update_where-change_rows p f [] = refl
update_where-change_rows p f (t ∷ ts) =
    ap (◌∷◌ (if p t then f t else t)) (update_where-change_rows p f ts)

pub update_where-IsWellFormed :
    (p : Thread → Bool) (f : Thread → Thread) (ts : List Thread) (next : ℕ)
    → ((r : Thread) → SameRow (f r) r)
    → IsWellFormed ts next
    → IsWellFormed (update_where p f ts) next
update_where-IsWellFormed p f ts next keeps v = record {
  indexed =
      rw (update_where-change_rows p f ts)
        (change_rows-IsIndexed p (λ t. f) (λ t. keeps) ts v.indexed);
  fresh =
      All-update_where (λ t. t.id < next) (λ t. t.id < next) p f ts (λ x h e. rw (keeps x).0 h)
        (λ x h e. h) v.fresh;
}

pub select-IsWellFormed :
    (q : Thread → Bool) (ts : List Thread) (next : ℕ)
    → IsWellFormed ts next
    → IsWellFormed (select q ts) next
select-IsWellFormed q ts next v = record {
  indexed = select-IsIndexed q ts v.indexed;
  fresh = All-select (λ t. t.id < next) q ts v.fresh;
}

append-IsIndexed :
    (x : Thread) (ts : List Thread)
    → All (λ u. Apart u x) ts
    → IsIndexed ts
    → IsIndexed (ts ++ x ∷ [])
append-IsIndexed x [] h idx = (tt, tt)
append-IsIndexed x (t ∷ ts) h idx =
    (All-append (Apart t) ts (x ∷ []) idx.0 (h.0, tt), append-IsIndexed x ts h.1 idx.1)

pub append-IsWellFormed :
    (x : Thread) (ts : List Thread) (next : ℕ)
    → x.id ≡ next
    → find_thread x.account x.provider_thread_id ts ≡ none
    → IsWellFormed ts next
    → IsWellFormed (ts ++ x ∷ []) (suc next)
append-IsWellFormed x ts next e absent v = record {
  indexed =
      append-IsIndexed x ts
        (All-map2 (λ u. u.id < next) (λ u. is_row x.account x.provider_thread_id u ≡ false)
          (λ u. Apart u x) ts (λ u lt miss. (ground (arith, e), miss)) v.fresh
          (find_thread-none x.account x.provider_thread_id ts absent))
        v.indexed;
  fresh =
      All-append (λ t. t.id < suc next) ts (x ∷ [])
        (All-map (λ t. t.id < next) (λ t. t.id < suc next) ts (λ t h. omega arith) v.fresh)
        (omega arith, tt);
}
