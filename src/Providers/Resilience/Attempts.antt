-- ===== src/Providers/Resilience/Attempts.antt =====
-- providers/resilience.py: what a run of `ProviderExecutor.run` consists of.
use arbiscan_arbitrage_scann.Prelude.{
  ℕ, ◌+◌, ◌≤◌, ◌<◌, ◌≡◌, ◌⊎◌, true, false, Option, none, some, List, [], ◌∷◌,
}
use arbiscan_arbitrage_scann.Providers.Resilience.{
  Floats, ProviderError, ProviderOperation, Outcome, End, raised, contract_error, ends, retry,
  attempt_of, ProviderCallPolicy, retry_delay,
}

module _ (F : Floats) where
  open F use {Num, le, total_seconds}

  -- A delay after an error: no longer than the maximum, unless the provider asks for more, and no
  -- shorter than what it asks for.
  abbrev pub IsDelay : ProviderCallPolicy F → Option ℕ → Num → Type 0
  IsDelay p none d = le d p.max_backoff_seconds ≡ true
  IsDelay p (some r) d =
      (le (total_seconds r) d ≡ true)
      × ((le d p.max_backoff_seconds ≡ true) ⊎ (d ≡ total_seconds r))

  module _ {T : Type 0} (p : ProviderCallPolicy F) (provider : ℕ) (operation : ProviderOperation)
      (calls : ℕ → Outcome T) (samples : ℕ → Option Num) where
    -- The end of a run with its last attempt, which is the k-th: its own end, an error that may not
    -- be retried or has no attempt left, or a sample that is refused.
    abbrev pub IsLast : ℕ → End T → Type 0
    IsLast k end =
        (attempt_of provider operation (calls k) ≡ ends end)
        ⊎ ((e : ProviderError) × (attempt_of provider operation (calls k) ≡ retry e)
            × (((end ≡ raised e) × ((e.retryable ≡ false) ⊎ (p.max_attempts ≤ k)))
                ⊎ ((end ≡ contract_error) × (retry_delay F p k e (samples k) ≡ none))))

    -- An attempt that is followed by another one, after a delay.
    abbrev pub IsRetried : ℕ → Num → Type 0
    IsRetried k d =
        (e : ProviderError) × (attempt_of provider operation (calls k) ≡ retry e)
        × (e.retryable ≡ true)
        × (k < p.max_attempts)
        × IsDelay p e.retry_after d

    -- A run that begins with the k-th attempt.
    abbrev pub IsRun : ℕ → List Num → End T → Type 0
    IsRun k [] end = IsLast k end
    IsRun k (d ∷ ds) end = IsRetried k d × IsRun (k + 1) ds end
