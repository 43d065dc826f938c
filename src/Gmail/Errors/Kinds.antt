-- ===== src/Gmail/Errors/Kinds.antt =====
-- errors.go, what the queue's retry policy reads from a classified error.
use dankmail.Base.{
  ◌||◌, false, Option, none, some, ◌≢◌, leb, nat_eq, string_eq, ◌≡◌, ap, ◌∙◌, refl, arith, inl, inr,
  Option-cases,
}
use dankmail.Errdefs.{Error, Kind, kinded, as_kind, as_hint, kind_of, retryable, retry_after}
use dankmail.Gmail.Quota.{ApiError, DeferredRetry, quota_limited}
use dankmail.Gmail.Errors.{Inspect, is_bare, classify, new_kind, kind_of_api, has_rate_limit_reason}

-- To classify an error gives it a kind and nothing else: a nil error stays nil, the earliest retry time
-- stays what it was, an error always gets a kind, and to classify it again changes nothing.
pub classify_lem :
    (look : Inspect) (e : Error)
    → (classify look none ≡ none)
      × (retry_after (classify look (some e)) ≡ retry_after (some e))
      × (classify look (classify look (some e)) ≡ classify look (some e))
      × ((e' : Error) × (kind : Kind) × (classify look (some e) ≡ some e')
          × (as_kind e' ≡ some kind))
unfolding classify retry_after as_hint as_kind
classify_lem look e = elim (Option-cases (as_kind e)) [
  | inl n ↦
      rw (n, classify) (refl, refl, refl, (kinded (new_kind look e) e, new_kind look e, refl, refl))
  | inr (kind, n) ↦ rw (n, classify) (refl, refl, rw (n, classify) refl, (e, kind, refl, n))
]

classify-new :
    (look : Inspect) (e : Error)
    → as_kind e ≡ none
    → classify look (some e) ≡ some (kinded (new_kind look e) e)
unfolding classify
classify-new look e n = rw (n, classify) refl

is_bare-caused :
    (o : Option DeferredRetry)
    → ((d : DeferredRetry) → o ≡ some d → d.cause ≢ none)
    → is_bare o ≡ false
is_bare-caused none caused = refl
is_bare-caused (some d) caused = elim (Option-cases d.cause) [
  | inl e ↦ absurd (caused d refl e)
  | inr (cause, e) ↦ rw e refl
]

new_kind-api :
    (look : Inspect) (e : Error) (a : ApiError)
    → ((d : DeferredRetry) → look.as_deferred e ≡ some d → d.cause ≢ none)
    → look.as_api e ≡ some a
    → new_kind look e ≡ kind_of_api a
unfolding new_kind
new_kind-api look e a caused h =
    let kept = is_bare-caused (look.as_deferred e) caused in
    rw (kept, new_kind) (rw (h, new_kind) refl)

kind_of_api-retryable :
    (e : Error) (a : ApiError)
    → retryable (some (kinded (kind_of_api a) e)) ≡ (quota_limited (some a) || leb 500 a.code)
unfolding retryable kind_of as_kind kind_of_api has_rate_limit_reason quota_limited
kind_of_api-retryable e a = ground arith

-- An answer of the Gmail API that no inner layer has classified, bare or as the cause of a deferral, is
-- retried by the queue exactly if the gate counts it as a quota limit or its code is 500 or above; a
-- deferral without a cause is no answer.
pub classify-retryable :
    (look : Inspect) (e : Error) (a : ApiError)
    → as_kind e ≡ none
    → ((d : DeferredRetry) → look.as_deferred e ≡ some d → d.cause ≢ none)
    → look.as_api e ≡ some a
    → retryable (classify look (some e)) ≡ (quota_limited (some a) || leb 500 a.code)
classify-retryable look e a n d h =
    ap retryable (classify-new look e n)
    ∙ ap (λ kind. retryable (some (kinded kind e))) (new_kind-api look e a d h)
    ∙ kind_of_api-retryable e a
