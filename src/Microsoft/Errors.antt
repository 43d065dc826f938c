-- ===== src/Microsoft/Errors.antt =====
-- core/internal/provider/microsoft/errors.go: the kind of a failure of the Graph API. Which graph error
-- `errors.As` finds in an error is a parameter.
use dankmail.Base.{
  ℕ, ◌-◌, String, Bool, false, ◌&&◌, Option, none, some, leb, ◌==◌, nat_eq, string_eq,
  if◌then◌else◌,
}
use dankmail.Errdefs.{Error, Failure, Kind, auth, rate_limit, network, permanent, kinded, as_kind}

pub record GraphError : Type 0 where
  pub status : ℕ
  pub code : String
  pub msg : String
  pub until : ℕ

abbrev pub AsGraph : Type 0
AsGraph = Error → Option GraphError

-- The method `RetryAfter`, at a time.
unfoldable pub graph_retry_after : GraphError → ℕ → ℕ
graph_retry_after e now = e.until - now

unfoldable pub kind_of_graph : GraphError → Kind
kind_of_graph e =
    if e.status == 401
    then auth
    else if e.status == 403 && e.code == "ErrorAccessDenied"
    then auth
    else if e.status == 429
    then rate_limit
    else if leb 500 e.status
    then network
    else permanent

unfoldable pub classify : AsGraph → Failure → Failure
unfolding kind_of_graph
classify as_graph none = none
classify as_graph (some e) = elim (as_graph e) [
  | some g ↦ some (kinded (kind_of_graph g) e)
  | none ↦ elim (as_kind e) [ some kind ↦ some e | none ↦ some (kinded network e) ]
]

unfoldable pub has_status : ℕ → Option GraphError → Bool
has_status status none = false
has_status status (some g) = g.status == status

unfoldable pub is_not_found : AsGraph → Error → Bool
unfolding has_status
is_not_found as_graph e = has_status 404 (as_graph e)

unfoldable pub is_gone : AsGraph → Error → Bool
unfolding has_status
is_gone as_graph e = has_status 410 (as_graph e)
