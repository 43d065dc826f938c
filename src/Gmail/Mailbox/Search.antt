-- ===== src/Gmail/Mailbox/Search.antt =====
-- gmail.go, a search of the whole mailbox ends, and keeps to its limit.
use dankmail.Base.{
  ℕ, zero, suc, ◌+◌, ◌-◌, ◌≤◌, ◌<◌, String, Bool, true, false, List, [], ◌∷◌, ◌++◌, Option, none,
  some, ltb, leb, ◌==◌, string_eq, if◌then◌else◌, length, length-append, min, ◌≡◌, refl, sym, inl,
  inr, arith, Bool-cases, subst,
}
use dankmail.Errdefs.{Error, Failure, Result, err, ok}
use dankmail.Provider.{ThreadDelta, Changes}
use dankmail.Gmail.Errors.{is_not_found}
use dankmail.Gmail.Errors.Kinds.{classify_lem}
use dankmail.Gmail.Checkpoint.{GmailProvider}
use dankmail.Gmail.Sync.Falls.{Result-cases}
use dankmail.Gmail.Mailbox.{
  delta_of, search_ids, search_pages, search_remote, failed_search, limit_or_default, backfill_of,
  no_changes,
}

module _ (p : GmailProvider) where
  add_delta-le :
      (b : Bool) (limit : ℕ) (d : ThreadDelta) (upserted : List ThreadDelta)
      → length upserted < limit
      → length (if b then upserted ++ (d ∷ []) else upserted) ≤ limit
  add_delta-le true limit d upserted few = omega (arith, few, length-append upserted (d ∷ []))
  add_delta-le false limit d upserted few = omega (arith, few)

  abbrev Fits : ℕ → Result (List ThreadDelta) → Type 0
  Fits limit (err e) = Unit {0}
  Fits limit (ok upserted) = length upserted ≤ limit

  Fits-if :
      (b : Bool) (limit : ℕ) (r : Result (List ThreadDelta)) (e : Error)
      → Fits limit r
      → Fits limit (if b then r else err e)
  Fits-if true limit r e h = h
  Fits-if false limit r e h = tt

  search_ids-Fits :
      (limit i : ℕ) (ids : List String) (upserted : List ThreadDelta)
      → length upserted ≤ limit
      → Fits limit (search_ids p limit i ids upserted)
  unfolding search_ids
  search_ids-Fits limit i [] upserted few = few
  search_ids-Fits limit i (id ∷ ids) upserted few =
      elim (Bool-cases (leb limit (length upserted))) [
        | inl e ↦ rw (e, search_ids) few
        | inr e ↦ elim (Result-cases (p.api.get_thread i id)) [
          | inl (x, k) ↦
              rw (e, search_ids)
                (rw (k) (
                  Fits-if (is_not_found p.look x) limit _ x
                    (search_ids-Fits limit (suc i) ids upserted few)))
          | inr (t, k) ↦
              let ds =
                if ltb 0 (delta_of p t).message_count
                then upserted ++ (delta_of p t ∷ [])
                else upserted in
              rw (e, search_ids)
                (rw (k) (
                  search_ids-Fits limit (suc i) ids ds (
                    add_delta-le (ltb 0 (delta_of p t).message_count) limit (delta_of p t) upserted
                      (ground (arith, e)))))
        ]
      ]

  -- How a search ends: with its deltas, within the limit and marked as backfill, or with an error.
  unfoldable pub EndsWithin : ℕ → Option (Changes × Failure) → Type 0
  EndsWithin limit none = ⊥
  EndsWithin limit (some (changes, none)) =
      (length changes.upserted ≤ limit) × (changes.backfill ≡ true)
  EndsWithin limit (some (changes, some e)) = changes.upserted ≡ []

  failed-EndsWithin : (limit : ℕ) (e : Error) → EndsWithin limit (some (failed_search p e))
  unfolding failed_search EndsWithin
  failed-EndsWithin limit e =
      let (e', kind, same, known) = (classify_lem p.look e).3 in
      subst (λ f. EndsWithin limit (some (no_changes, f))) (sym same) refl

  stop-EndsWithin :
      (limit : ℕ) (b : Bool) (upserted : List ThreadDelta) (later : Option (Changes × Failure))
      → length upserted ≤ limit
      → (b ≡ false → EndsWithin limit later)
      → EndsWithin limit (if b then some (backfill_of upserted, none) else later)
  unfolding EndsWithin
  stop-EndsWithin limit true upserted later few more = (few, refl)
  stop-EndsWithin limit false upserted later few more = more refl

  module _ (query : String) (rank : String → ℕ)
      (falls : (i size : ℕ) (token next : String) (ids : List String)
        → p.api.search_threads i query token size ≡ ok (ids, next)
        → (next == "") ≡ false
        → rank next < rank token) where
    search_pages-EndsWithin :
        (fuel limit i : ℕ) (token : String) (upserted : List ThreadDelta)
        → rank token < fuel
        → length upserted ≤ limit
        → EndsWithin limit (search_pages p fuel limit query i token upserted)
    unfolding search_pages
    search_pages-EndsWithin zero limit i token upserted enough few = absurd (omega (arith, enough))
    search_pages-EndsWithin (suc fuel) limit i token upserted enough few =
        elim (Bool-cases (ltb (length upserted) limit)) [
          | inr full ↦
              rw (full, search_pages)
                (stop-EndsWithin limit true upserted none few (λ h. absurd (ground (arith, h))))
          | inl e ↦
              elim (Result-cases
                (p.api.search_threads i query token (min 100 (limit - length upserted)))) [
                  | inl (x, k) ↦ rw (e, search_pages) (rw (k) (failed-EndsWithin limit x))
                  | inr ((ids, next), k) ↦
                      elim (Result-cases (search_ids p limit (suc i) ids upserted)) [
                        | inl (x, q) ↦
                            rw (e, search_pages) (rw (k) (rw (q) (failed-EndsWithin limit x)))
                        | inr (ds, q) ↦
                            let fits : length ds ≤ limit =
                              subst (Fits limit) q
                                (search_ids-Fits limit (suc i) ids upserted few) in
                            rw (e, search_pages)
                              (rw (k) (
                                rw (q) (
                                  stop-EndsWithin limit (next == "") ds
                                    (search_pages p fuel limit query (suc (i + length ids)) next ds)
                                    fits
                                    (λ on.
                                      search_pages-EndsWithin fuel limit (suc (i + length ids)) next
                                        ds
                                        (omega (
                                          arith,
                                          enough,
                                          falls i (min 100 (limit - length upserted)) token next ids
                                              k on,
                                        ))
                                        fits))))
                      ]
                ]
        ]

    -- A search of the mailbox ends if the tokens of its pages do: with so much fuel as the rank of the
    -- first page and one more, it returns at most as many threads as its limit, or as 100 where the limit
    -- is 0, marked as backfill; or an error without any.
    pub search_remote-total :
        (fuel limit : ℕ)
        → rank "" < fuel
        → EndsWithin (limit_or_default p limit) (search_remote p fuel query limit)
    unfolding search_remote
    search_remote-total fuel limit enough =
        search_pages-EndsWithin fuel (limit_or_default p limit) 0 "" [] enough (omega arith)
