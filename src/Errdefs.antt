-- ===== src/Errdefs.antt =====
-- core/errdefs: the kinds of provider errors, and what the retry policy reads from an error.
-- A Go error is the tree that `errors.As` walks, in its order: a node first, then what it wraps.
use dankmail.Base.{ℤ, at_least_zero, ℕ, String, Bool, true, false, Option, none, some}

pub data Kind : Type 0 where
  unknown auth rate_limit network permanent : Kind

-- A `time.Duration` in nanoseconds.
abbrev pub Duration : Type 0
Duration = ℤ

pub data Error : Type 0 where
  -- `errors.New`, or a foreign error that carries nothing for `errors.As`.
  plain : String → Error
  -- `*errdefs.Error`.
  kinded : Kind → Error → Error
  -- `fmt.Errorf("…: %w", err)`.
  wrapped : String → Error → Error
  -- An error with the method `RetryAfter`: that wraps nothing, and around its cause.
  deferred : Duration → Error
  hinted : Duration → Error → Error
  -- `errors.Join` of two errors.
  joined : Error → Error → Error

-- Go's `error`: nil is `none`.
abbrev pub Failure : Type 0
Failure = Option Error

unfoldable pub to_string : Kind → String
to_string auth = "auth"
to_string rate_limit = "rate-limit"
to_string network = "network"
to_string permanent = "permanent"
to_string unknown = "unknown"

unfoldable pub wrap : Kind → Failure → Failure
wrap kind none = none
wrap kind (some err) = some (kinded kind err)

abbrev pub or_else {ℓ} : {A : Type ℓ} → Option A → Option A → Option A
or_else (some a) later = some a
or_else none later = later

-- `errors.As(err, &e)` with `e *Error`.
unfoldable pub as_kind : Error → Option Kind
as_kind (plain msg) = none
as_kind (kinded kind err) = some kind
as_kind (wrapped msg err) = as_kind err
as_kind (deferred d) = none
as_kind (hinted d err) = as_kind err
as_kind (joined a b) = or_else (as_kind a) (as_kind b)

-- `errors.As(err, &hint)`.
unfoldable pub as_hint : Error → Option Duration
as_hint (plain msg) = none
as_hint (kinded kind err) = as_hint err
as_hint (wrapped msg err) = as_hint err
as_hint (deferred d) = some d
as_hint (hinted d err) = some d
as_hint (joined a b) = or_else (as_hint a) (as_hint b)

abbrev kind_or_unknown : Option Kind → Kind
kind_or_unknown (some kind) = kind
kind_or_unknown none = unknown

-- `KindOf(nil)` is `KindUnknown`.
unfoldable pub kind_of : Failure → Kind
unfolding as_kind
kind_of none = unknown
kind_of (some err) = kind_or_unknown (as_kind err)

abbrev pub is_retryable_kind : Kind → Bool
is_retryable_kind rate_limit = true
is_retryable_kind network = true
is_retryable_kind unknown = true
is_retryable_kind _ = false

unfoldable pub retryable : Failure → Bool
unfolding kind_of
retryable err = is_retryable_kind (kind_of err)

abbrev hint_or_zero : Option Duration → ℕ
hint_or_zero (some d) = at_least_zero d
hint_or_zero none = 0

unfoldable pub retry_after : Failure → ℕ
unfolding as_hint
retry_after none = 0
retry_after (some err) = hint_or_zero (as_hint err)

-- The result of a fallible function: Go's `(value, error)` with one of the two.
pub data Result {ℓ} (S : Type ℓ) : Type ℓ where
  err : Error → Result S
  ok : S → Result S

-- `if err != nil { return err }`.
abbrev pub ◌>>=◌ {ℓ κ} :
    {S : Type ℓ} {T : Type κ} (first : Result S) (next : S → Result T) → Result T
first >>= next = elim first [ err e ↦ err e | ok value ↦ next value ]

infixl 5 ◌>>=◌
