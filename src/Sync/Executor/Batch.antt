-- ===== src/Sync/Executor/Batch.antt =====
-- What one batch holds, and the thread ids that it sends.
use dankmail.Base.{
  true, false, ◌||◌, String, List, [], ◌∷◌, ◌++◌, ◌≡◌, refl, ap, ◌∙◌, inl, inr, arith, All,
  contains, contains-append, exists, if◌then◌else◌, ◌==◌, string_eq, Bool-cases, IsDistinct,
}
use dankmail.Schema.{PendingOp}
use dankmail.Sync.Types.{OpType, Op}
use dankmail.Sync.Executor.{same_type, same_prefix, merge_ids, merge_from, merge_thread_ids}

abbrev pub StartsApart : OpType → List PendingOp → Type 0
StartsApart type [] = Unit {0}
StartsApart type (r ∷ rows) = same_type r.op_type type ≡ false

-- The coalesced rows are of one type, and they are the longest such prefix.
pub same_prefix-longest :
    (type : OpType) (rows : List PendingOp)
    → (rest : List PendingOp) × (rows ≡ same_prefix type rows ++ rest)
      × All (λ r. same_type r.op_type type ≡ true) (same_prefix type rows)
      × StartsApart type rest
unfolding same_prefix
same_prefix-longest type [] = ([], refl, tt, tt)
same_prefix-longest type (r ∷ rows) =
    let (rest, e, all, apart) = same_prefix-longest type rows in
    elim (Bool-cases (same_type r.op_type type)) [
      | inl hit ↦ rw (hit, same_prefix) (rest, ap (◌∷◌ r) e, (hit, all), apart)
      | inr miss ↦ rw (miss, same_prefix) (r ∷ rows, refl, tt, miss)
    ]

contains-add :
    (i j : String) (out : List String)
    → contains i (if contains j out then out else out ++ j ∷ []) ≡ (contains i out || j == i)
unfolding contains
contains-add i j out = ground (arith, string_eq.agrees j i, contains-append i out (j ∷ []))

contains-merge_ids :
    (i : String) (out ids : List String)
    → contains i (merge_ids out ids) ≡ (contains i out || contains i ids)
unfolding merge_ids contains
contains-merge_ids i out [] = ground arith
contains-merge_ids i out (j ∷ ids) =
    contains-merge_ids i (if contains j out then out else out ++ j ∷ []) ids
    ∙ rw (contains-add i j out) (ground arith)

IsDistinct-add :
    (j : String) (out : List String)
    → IsDistinct out
    → contains j out ≡ false
    → IsDistinct (out ++ j ∷ [])
unfolding contains
IsDistinct-add j [] d h = (refl, tt)
IsDistinct-add j (o ∷ out) d h = (
  rw (contains-append o out (j ∷ [])) (ground (arith, string_eq.agrees j o, string_eq.agrees o j)),
  IsDistinct-add j out d.1 (ground arith),
)

IsDistinct-merge_ids : (out ids : List String) → IsDistinct out → IsDistinct (merge_ids out ids)
unfolding merge_ids
IsDistinct-merge_ids out [] d = d
IsDistinct-merge_ids out (j ∷ ids) d =
    IsDistinct-merge_ids (if contains j out then out else out ++ j ∷ []) ids
      (elim (Bool-cases (contains j out)) [
        | inl old ↦ rw old d
        | inr new ↦ rw new (IsDistinct-add j out d new)
      ])

merged :
    (i : String) (out : List String) (ops : List Op)
    → IsDistinct out
    → IsDistinct (merge_from out ops)
      × (contains i (merge_from out ops)
          ≡ (contains i out || exists (λ op. contains i op.thread_ids) ops))
unfolding merge_from exists
merged i out [] d = (d, ground arith)
merged i out (op ∷ ops) d =
    let (d', e) =
      merged i (merge_ids out op.thread_ids) ops (IsDistinct-merge_ids out op.thread_ids d) in
    (d', e ∙ rw (contains-merge_ids i out op.thread_ids) (ground arith))

-- A merged batch names a thread once, and exactly the threads that its operations name.
pub merge_thread_ids-union :
    (i : String) (ops : List Op)
    → IsDistinct (merge_thread_ids ops)
      × (contains i (merge_thread_ids ops) ≡ exists (λ op. contains i op.thread_ids) ops)
unfolding merge_thread_ids contains
merge_thread_ids-union i ops = merged i [] ops tt
