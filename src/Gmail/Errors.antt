-- ===== src/Gmail/Errors.antt =====
-- core/internal/provider/gmail/errors.go: the kind of an error of the Google client. What `errors.As`
-- finds in an error of another package is a parameter, the record `Inspect`.
pub mod Kinds
use dankmail.Base.{
  ℕ, String, Bool, true, false, ◌&&◌, ◌||◌, List, [], Option, none, some, ltb, leb, ◌==◌, nat_eq,
  string_eq, if◌then◌else◌, contains,
}
use dankmail.Errdefs.{
  Error, Failure, Kind, auth, rate_limit, network, permanent, unknown, kinded, as_kind, wrap,
}
use dankmail.Gmail.Quota.{ApiError, DeferredRetry}

-- `oauth2.RetrieveError`: its error code, and the status of its response, if it has one.
pub record RetrieveError : Type 0 where
  pub error_code : String
  pub status_code : Option ℕ

pub record Inspect : Type 0 where
  pub as_deferred : Error → Option DeferredRetry
  pub as_api : Error → Option ApiError
  pub as_retrieve : Error → Option RetrieveError
  -- Whether it is a `net.Error`.
  pub is_net : Error → Bool

unfoldable pub has_rate_limit_reason : ApiError → Bool
unfolding contains
has_rate_limit_reason e =
    contains "rateLimitExceeded" e.reasons || contains "userRateLimitExceeded" e.reasons

unfoldable pub kind_of_api : ApiError → Kind
unfolding has_rate_limit_reason
kind_of_api e =
    if e.code == 401
    then auth
    else if e.code == 429 || (e.code == 403 && has_rate_limit_reason e)
    then rate_limit
    else if leb 500 e.code
    then network
    else permanent

abbrev is_unauthorized : Option ℕ → Bool
is_unauthorized none = false
is_unauthorized (some status) = status == 401

unfoldable pub kind_of_retrieve : RetrieveError → Kind
kind_of_retrieve e =
    if e.error_code == "invalid_grant" || is_unauthorized e.status_code then auth else network

-- The deferral without a cause.
abbrev pub is_bare : Option DeferredRetry → Bool
is_bare none = false
is_bare (some d) = elim d.cause [ none ↦ true | some e ↦ false ]

-- The kind of an error that has none yet.
unfoldable pub new_kind : Inspect → Error → Kind
unfolding kind_of_api kind_of_retrieve
new_kind look e = if is_bare (look.as_deferred e) then rate_limit else elim (look.as_api e) [
  | some a ↦ kind_of_api a
  | none ↦ elim (look.as_retrieve e) [
    | some r ↦ kind_of_retrieve r
    | none ↦ if look.is_net e then network else unknown
  ]
]

unfoldable pub classify : Inspect → Failure → Failure
unfolding new_kind
classify look none = none
classify look (some e) = elim (as_kind e) [
  | some kind ↦ some e
  | none ↦ some (kinded (new_kind look e) e)
]

unfoldable pub is_not_found : Inspect → Error → Bool
is_not_found look e = elim (look.as_api e) [ some a ↦ a.code == 404 | none ↦ false ]
