-- ===== src/Providers/Resilience/Tests.antt =====
-- providers/resilience.py with milliseconds for floats.
use arbiscan_arbitrage_scann.Prelude.{
  ℕ, zero, suc, ◌+◌, ◌*◌, ◌/◌, ◌≤◌, ◌<◌, ◌≡◌, refl, arith, true, false, Option, some, [], ◌∷◌, leb,
}
use arbiscan_arbitrage_scann.Providers.Resilience.{
  Floats, ProviderError, ProviderErrorKind, ProviderOperation, Outcome, value, timed_out, failed,
  returned, error_of, attempt_of, ProviderCallPolicy, validate_policy, retry_delay, run,
}
use arbiscan_arbitrage_scann.Providers.Resilience.Recovery.{IsTransient, run_recovers}

pub leb_refl : (a : ℕ) → leb a a ≡ true
leb_refl a = ground arith

pub leb_total : (a b : ℕ) → leb a b ≡ false → leb b a ≡ true
leb_total a b h = ground arith

pub leb_trans : (a b c : ℕ) → leb a b ≡ true → leb b c ≡ true → leb a c ≡ true
leb_trans a b c h k = ground arith

abbrev milliseconds : Floats
milliseconds = record {
  Num = ℕ;
  le = leb;
  add = λ a b. a + b;
  mul = λ a b. a * b / 1000;
  of_int = λ n. n * 1000;
  is_finite = λ _. true;
  total_seconds = λ n. n / 1000;
  le_refl = leb_refl;
  le_total = leb_total;
  le_trans = leb_trans;
}

abbrev policy : ProviderCallPolicy milliseconds
policy = record {
  timeout_seconds = 5000;
  max_attempts = 3;
  base_backoff_seconds = 250;
  max_backoff_seconds = 4000;
  jitter_ratio = 200;
}

abbrev limited : ProviderError
limited = record {
  provider_id = 7;
  operation = ProviderOperation.fetch_odds;
  kind = ProviderErrorKind.rate_limited;
  retryable = true;
  retry_after = some 6000000;
}

-- A timeout, an error with a time to wait, and a value.
abbrev calls : ℕ → Outcome ℕ
calls zero = timed_out
calls (suc zero) = timed_out
calls (suc (suc zero)) = failed limited
calls (suc (suc (suc n))) = value 9

abbrev samples : ℕ → Option ℕ
samples n = some 500

program : Unit {0}
unfolding run validate_policy
program = tt

policy_valid : validate_policy milliseconds policy ≡ some policy
unfolding program
policy_valid = refl

-- Sleeps of 0.275 and 6 seconds.
run-calls :
    run milliseconds policy 7 ProviderOperation.fetch_odds calls samples
    ≡ (275 ∷ 6000 ∷ [], returned 9)
unfolding program
run-calls = refl

transient :
    (j : ℕ)
    → 1 ≤ j
    → j < 1 + 2
    → IsTransient milliseconds policy 7 ProviderOperation.fetch_odds calls samples j
unfolding attempt_of retry_delay
transient zero low high = absurd (omega arith)
transient (suc zero) low high = (
  error_of 7 ProviderOperation.fetch_odds ProviderErrorKind.timeout true,
  refl,
  refl,
  (275, refl),
)
transient (suc (suc zero)) low high = (limited, refl, refl, (6000, refl))
transient (suc (suc (suc n))) low high = absurd (omega arith)

run_recovers_example :
    (run milliseconds policy 7 ProviderOperation.fetch_odds calls samples).1 ≡ returned 9
run_recovers_example =
    run_recovers milliseconds policy 7 ProviderOperation.fetch_odds calls samples 2 9 (omega arith)
      transient refl
