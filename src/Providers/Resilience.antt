-- ===== src/Providers/Resilience.antt =====
-- providers/resilience.py with the errors of providers/errors.py: `ProviderExecutor.run`.
-- The seconds are floats, which the code compares, adds and multiplies: a parameter with an order. The
-- adapter's calls and the random samples are given as functions of the attempt.
pub mod Attempts
pub mod Recovery
mod Tests
use arbiscan_arbitrage_scann.Prelude.{
  ℕ, zero, suc, ◌+◌, ◌-◌, ◌^◌, ◌≡◌, Bool, true, false, not, ◌&&◌, ◌||◌, Option, none, some, List,
  [], ◌∷◌, ltb, leb, nat_beq, if◌then◌else◌, checked,
}

-- Python's floats without NaN: the operators, `timedelta.total_seconds` of a number of microseconds,
-- and the order of `<=`.
pub record Floats : Type 1 where
  pub Num : Type 0
  pub le : Num → Num → Bool
  pub add : Num → Num → Num
  pub mul : Num → Num → Num
  pub of_int : ℕ → Num
  pub is_finite : Num → Bool
  pub total_seconds : ℕ → Num
  pub le_refl : (a : Num) → le a a ≡ true
  pub le_total : (a b : Num) → le a b ≡ false → le b a ≡ true
  pub le_trans : (a b c : Num) → le a b ≡ true → le b c ≡ true → le a c ≡ true

pub data ProviderErrorKind : Type 0 where
  authentication authorization invalid_request rate_limited timeout : ProviderErrorKind
  transport upstream malformed_response unsupported internal : ProviderErrorKind

pub data ProviderOperation : Type 0 where
  supported_sports discover_competitions discover_events fetch_odds : ProviderOperation
  stream_odds health rate_limit : ProviderOperation

pub record ProviderError : Type 0 where
  pub provider_id : ℕ
  pub operation : ProviderOperation
  pub kind : ProviderErrorKind
  pub retryable : Bool
  pub retry_after : Option ℕ

-- What awaiting `call()` comes to. `cancelled` is the CancelledError, which no handler catches.
pub data Outcome (T : Type 0) : Type 0 where
  value : T → Outcome T
  timed_out : Outcome T
  failed : ProviderError → Outcome T
  unexpected : Outcome T
  cancelled : Outcome T

-- How `run` ends; `contract_error` is the ProviderContractError.
pub data End (T : Type 0) : Type 0 where
  returned : T → End T
  raised : ProviderError → End T
  cancelled : End T
  contract_error : End T

-- What an attempt hands on: an end, or an error that may be retried.
pub data Attempt (T : Type 0) : Type 0 where
  ends : End T → Attempt T
  retry : ProviderError → Attempt T

abbrev pub error_of : ℕ → ProviderOperation → ProviderErrorKind → Bool → ProviderError
error_of provider operation kind retryable = record {
  provider_id = provider;
  operation = operation;
  kind = kind;
  retryable = retryable;
  retry_after = none;
}

-- The handlers of `run`.
unfoldable pub attempt_of : {T : Type 0} → ℕ → ProviderOperation → Outcome T → Attempt T
attempt_of provider operation (value t) = ends (returned t)
attempt_of provider operation timed_out =
    retry (error_of provider operation ProviderErrorKind.timeout true)
attempt_of provider operation (failed e) = retry (
    if nat_beq e.provider_id provider
    then e
    else error_of provider operation ProviderErrorKind.internal false)
attempt_of provider operation unexpected =
    ends (raised (error_of provider operation ProviderErrorKind.internal false))
attempt_of provider operation Outcome.cancelled = ends End.cancelled

module _ (F : Floats) where
  open F use {Num, le, add, mul, of_int, is_finite, total_seconds}

  pub record ProviderCallPolicy : Type 0 where
    pub timeout_seconds : Num
    pub max_attempts : ℕ
    pub base_backoff_seconds : Num
    pub max_backoff_seconds : Num
    pub jitter_ratio : Num

  -- `ProviderCallPolicy.__post_init__`; `none` is the raised ProviderContractError.
  unfoldable pub validate_policy : ProviderCallPolicy → Option ProviderCallPolicy
  validate_policy p =
      checked
        (not (
            is_finite p.timeout_seconds
            && is_finite p.base_backoff_seconds
            && is_finite p.max_backoff_seconds
            && is_finite p.jitter_ratio)
          ∷ le p.timeout_seconds (of_int 0)
          ∷ ltb p.max_attempts 1
          ∷ not (le (of_int 0) p.base_backoff_seconds)
          ∷ not (le p.base_backoff_seconds p.max_backoff_seconds)
          ∷ not (le (of_int 0) p.jitter_ratio && le p.jitter_ratio (of_int 1))
          ∷ [])
        p

  -- `min(a, b)` and `max(a, b)`
  unfoldable pub lesser : Num → Num → Num
  lesser a b = if le a b then a else b

  unfoldable pub greater : Num → Num → Num
  greater a b = if le b a then a else b

  -- The delay of `_retry_delay`, from a sample that passed its checks.
  unfoldable pub delay_of : ProviderCallPolicy → ℕ → Num → Num
  unfolding lesser
  delay_of p attempt sample =
      let exponential =
        lesser p.max_backoff_seconds (mul p.base_backoff_seconds (of_int (2 ^ (attempt - 1)))) in
      lesser p.max_backoff_seconds (add exponential (mul (mul exponential p.jitter_ratio) sample))

  -- `max(delay, error.retry_after.total_seconds())`
  unfoldable pub hold_back : Option ℕ → Num → Num
  unfolding greater
  hold_back none delay = delay
  hold_back (some retry_after) delay = greater delay (total_seconds retry_after)

  -- `_retry_delay`: a sample that is NaN, infinite or outside of [0, 1] is refused.
  unfoldable pub retry_delay : ProviderCallPolicy → ℕ → ProviderError → Option Num → Option Num
  unfolding delay_of hold_back
  retry_delay p attempt e none = none
  retry_delay p attempt e (some sample) =
      if is_finite sample && (le (of_int 0) sample && le sample (of_int 1))
      then some (hold_back e.retry_after (delay_of p attempt sample))
      else none

  -- The sleeps of a run so far, the first one first, and its end.
  abbrev pub Run : Type 0 → Type 0
  Run T = List Num × End T

  abbrev pub slept : {T : Type 0} → Num → Run T → Run T
  slept d (ds, end) = (d ∷ ds, end)

  -- After the handlers: the last attempt and an error that is not retryable raise, any other sleeps.
  unfoldable pub after_delay : {T : Type 0} → Run T → Option Num → Run T
  after_delay again none = ([], contract_error)
  after_delay again (some d) = slept d again

  unfoldable pub after_attempt :
      {T : Type 0} → ProviderCallPolicy → ℕ → Option Num → Run T → Attempt T → Run T
  unfolding retry_delay after_delay
  after_attempt p attempt sample again (ends e) = ([], e)
  after_attempt p attempt sample again (retry e) =
      if not e.retryable || leb p.max_attempts attempt
      then ([], raised e)
      else after_delay again (retry_delay p attempt e sample)

  -- `for attempt in range(1, max_attempts + 1)`, with so many attempts left. None left is the state
  -- that the code calls impossible.
  unfoldable pub run_from :
      {T : Type 0}
      → ProviderCallPolicy
      → (provider : ℕ) → ProviderOperation
      → (calls : ℕ → Outcome T) (samples : ℕ → Option Num) (left attempt : ℕ) → Run T
  unfolding after_attempt attempt_of
  run_from p provider operation calls samples zero attempt = ([], contract_error)
  run_from p provider operation calls samples (suc left) attempt =
      let again = run_from p provider operation calls samples left (attempt + 1) in
      after_attempt p attempt (samples attempt) again
        (attempt_of provider operation (calls attempt))

  -- `ProviderExecutor.run`
  unfoldable pub run :
      {T : Type 0}
      → ProviderCallPolicy
      → (provider : ℕ) → ProviderOperation
      → (calls : ℕ → Outcome T) (samples : ℕ → Option Num) → Run T
  unfolding run_from
  run p provider operation calls samples =
      run_from p provider operation calls samples p.max_attempts 1
