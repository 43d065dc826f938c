-- ===== src/Schema/Indexed.antt =====
-- The unique indexes of the thread table under the statements that keep ids and keys.
use dankmail.Base.{
  Bool, false, List, [], ◌∷◌, ◌≡◌, refl, inl, inr, All, All-select, select, if◌then◌else◌, ◌==◌,
  Bool-cases, nat_eq, string_eq,
}
use dankmail.Schema.{Thread, IsIndexed, same_key, SameRow}
use dankmail.Schema.Loop.{change_rows}

abbrev pub Apart : Thread → Thread → Type 0
Apart t u = ((t.id == u.id) ≡ false) × (same_key t u ≡ false)

Apart-SameRow : (t t' u u' : Thread) → SameRow t' t → SameRow u' u → Apart t u → Apart t' u'
Apart-SameRow t t' u u' (i, a, k) (j, b, l) h = rw (i, a, k, j, b, l) h

pub SameRow-refl : (t : Thread) → SameRow t t
SameRow-refl t = (refl, refl, refl)

module _ (p : Thread → Bool) (g : Thread → Thread → Thread)
    (keeps : (t r : Thread) → SameRow (g t r) r) where
  abbrev changed : Thread → Thread
  changed u = if p u then g u u else u

  changed-SameRow : (u : Thread) → SameRow (changed u) u
  changed-SameRow u = elim (Bool-cases (p u)) [
    | inl e ↦ rw e (keeps u u)
    | inr e ↦ rw e (SameRow-refl u)
  ]

  change_rows-Apart :
      (t : Thread) (us : List Thread)
      → All (Apart t) us
      → All (Apart (changed t)) (change_rows p g us)
  unfolding change_rows
  change_rows-Apart t [] h = tt
  change_rows-Apart t (u ∷ us) h = (
    Apart-SameRow t (changed t) u (changed u) (changed-SameRow t) (changed-SameRow u) h.0,
    change_rows-Apart t us h.1,
  )

  pub change_rows-IsIndexed : (ts : List Thread) → IsIndexed ts → IsIndexed (change_rows p g ts)
  unfolding change_rows
  change_rows-IsIndexed [] h = tt
  change_rows-IsIndexed (t ∷ ts) h = (change_rows-Apart t ts h.0, change_rows-IsIndexed ts h.1)

pub select-IsIndexed :
    (p : Thread → Bool) (ts : List Thread) → IsIndexed ts → IsIndexed (select p ts)
unfolding select
select-IsIndexed p [] h = tt
select-IsIndexed p (t ∷ ts) h = elim (Bool-cases (p t)) [
  | inl e ↦ rw (e, select) (All-select (Apart t) p ts h.0, select-IsIndexed p ts h.1)
  | inr e ↦ rw (e, select) (select-IsIndexed p ts h.1)
]
