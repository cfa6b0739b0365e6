-- ===== src/Providers/Resilience/Recovery.antt =====
-- providers/resilience.py: a call that recovers in time succeeds.
use arbiscan_arbitrage_scann.Prelude.{
  ℕ, zero, suc, ◌+◌, ◌≤◌, ◌<◌, ◌≡◌, refl, ◌∙◌, subst, arith, true, false, Option, some, leb,
}
use native.Mathlib.Nat.{add-zero}
use arbiscan_arbitrage_scann.Providers.Resilience.{
  Floats, ProviderError, ProviderOperation, Outcome, value, returned, retry, attempt_of,
  ProviderCallPolicy, retry_delay, Run, after_delay, after_attempt, run_from, run,
}

not_last : (most k : ℕ) → k < most → leb most k ≡ false
not_last most k h = ground arith

module _ (F : Floats) {T : Type 0} (p : ProviderCallPolicy F) (provider : ℕ)
    (operation : ProviderOperation) (calls : ℕ → Outcome T) (samples : ℕ → Option F.Num) where
  -- An attempt that fails with an error that may be retried, while the sample is a good one.
  abbrev pub IsTransient : ℕ → Type 0
  IsTransient k =
      (e : ProviderError) × (attempt_of provider operation (calls k) ≡ retry e)
      × (e.retryable ≡ true)
      × ((d : F.Num) × (retry_delay F p k e (samples k) ≡ some d))

  transient_step :
      (k : ℕ) (again : Run F T)
      → k < p.max_attempts
      → IsTransient k
      → (after_attempt F p k (samples k) again (attempt_of provider operation (calls k))).1
        ≡ again.1
  unfolding after_attempt after_delay
  transient_step k again more (e, at, able, (d, given)) =
      rw (at, able, not_last p.max_attempts k more, given) refl

  recovers :
      (left k : ℕ) (n : ℕ) (t : T)
      → left + k ≡ p.max_attempts + 1
      → n < left
      → ((j : ℕ) → k ≤ j → j < k + n → IsTransient j)
      → calls (k + n) ≡ value t
      → (run_from F p provider operation calls samples left k).1 ≡ returned t
  unfolding run_from attempt_of after_attempt
  recovers zero k n t e h f g = absurd (omega arith)
  recovers (suc left) k zero t e h f g =
      let now : calls k ≡ value t = subst (λ j. calls j ≡ value t) (add-zero k) g in rw now refl
  recovers (suc left) k (suc n) t e h f g =
      let again = run_from F p provider operation calls samples left (k + 1) in
      transient_step k again (omega arith) (f k (omega arith) (omega arith))
      ∙ recovers left (k + 1) n t (omega arith) (omega arith)
          (λ j low high. f j (omega arith) (omega arith))
          (subst (λ j. calls j ≡ value t) (omega arith) g)

  -- If the first attempts fail with errors that may be retried, while the random samples are good
  -- ones, and a later attempt that the policy allows returns a value, then `run` returns that value.
  pub run_recovers :
      (n : ℕ) (t : T)
      → n < p.max_attempts
      → ((j : ℕ) → 1 ≤ j → j < 1 + n → IsTransient j)
      → calls (1 + n) ≡ value t
      → (run F p provider operation calls samples).1 ≡ returned t
  unfolding run
  run_recovers n t h f g = recovers p.max_attempts 1 n t (omega arith) h f g
