-- ===== src/Ingestion/Gate.antt =====
-- ingestion/realtime.py: ProviderRateGate, with providers/models.py: RateLimitSnapshot.
pub mod Laws
use Prim.Native.Nat.{max}
use arbiscan_arbitrage_scann.Prelude.{
  ℕ, ◌+◌, Bool, true, false, Option, none, some, List, [], ◌∷◌, ◌++◌, ltb, leb, nat_beq, nat_eq,
  if◌then◌else◌, is_none,
}
use arbiscan_arbitrage_scann.Prelude.Dict.{Dict, lookup, insert, erase}

pub record RateLimitSnapshot : Type 0 where
  pub provider_id : ℕ
  pub observed_at : ℕ
  pub limit : Option ℕ
  pub remaining : Option ℕ
  pub resets_at : Option ℕ
  pub retry_after : Option ℕ

-- `RateLimitSnapshot.__post_init__`; `none` is the raised ProviderContractError. The signs are part
-- of the types.
unfoldable pub validate_snapshot : RateLimitSnapshot → Option RateLimitSnapshot
validate_snapshot s = elim s.remaining [
  | none ↦ some s
  | some n ↦ elim s.limit [ none ↦ none | some l ↦ if ltb l n then none else some s ]
]

pub record ProviderRateGate : Type 0 where
  pub fallback_cooldown : ℕ
  pub next_allowed : Dict ℕ ℕ

-- The gate afterwards, which forgets a time that has passed, and the answer.
unfoldable pub is_throttled : ProviderRateGate → ℕ → ℕ → ProviderRateGate × Bool
is_throttled g provider_id moment = elim (lookup provider_id g.next_allowed) [
  | none ↦ (g, false)
  | some next ↦
      if leb next moment
      then (record g { next_allowed = erase provider_id g.next_allowed }, false)
      else (g, true)
]

-- The candidate of `retry_after`, when it is above zero.
unfoldable pub retry_candidates : ℕ → Option ℕ → List ℕ
retry_candidates moment none = []
retry_candidates moment (some delay) = if ltb 0 delay then (moment + delay) ∷ [] else []

-- The `elif snapshot.retry_after is None`.
unfoldable pub fallback_candidates : ℕ → ℕ → Option ℕ → List ℕ
fallback_candidates fallback moment none = (moment + fallback) ∷ []
fallback_candidates fallback moment (some _) = []

-- The block under `if snapshot.remaining == 0`.
unfoldable pub exhausted_candidates : ℕ → ℕ → Option ℕ → Option ℕ → List ℕ
unfolding fallback_candidates
exhausted_candidates fallback moment none retry = fallback_candidates fallback moment retry
exhausted_candidates fallback moment (some resets) retry =
    if ltb moment resets then resets ∷ [] else fallback_candidates fallback moment retry

unfoldable pub is_exhausted : Option ℕ → Bool
is_exhausted none = false
is_exhausted (some n) = nat_beq n 0

unfoldable pub candidates : ℕ → RateLimitSnapshot → ℕ → List ℕ
unfolding retry_candidates exhausted_candidates is_exhausted
candidates fallback s moment =
    retry_candidates moment s.retry_after
    ++ (if is_exhausted s.remaining
        then exhausted_candidates fallback moment s.resets_at s.retry_after
        else [])

unfoldable pub max_of : ℕ → List ℕ → ℕ
max_of n [] = n
max_of n (m ∷ ms) = max n (max_of m ms)

-- `max(candidates)` becomes the next allowed time, or none is left.
unfoldable pub schedule : ProviderRateGate → ℕ → List ℕ → ProviderRateGate
unfolding max_of
schedule g provider_id [] = record g { next_allowed = erase provider_id g.next_allowed }
schedule g provider_id (n ∷ ns) = record g {
  next_allowed = insert provider_id (max_of n ns) g.next_allowed;
}

unfoldable pub observe : ProviderRateGate → RateLimitSnapshot → ℕ → ProviderRateGate
unfolding candidates schedule
observe g s moment = schedule g s.provider_id (candidates g.fallback_cooldown s moment)

unfoldable pub retry_delay : ℕ → Option ℕ → ℕ
retry_delay fallback none = fallback
retry_delay fallback (some delay) = max delay fallback

unfoldable pub observe_retry_after : ProviderRateGate → ℕ → Option ℕ → ℕ → ProviderRateGate
unfolding retry_delay
observe_retry_after g provider_id retry moment = record g {
  next_allowed = insert provider_id (moment + retry_delay g.fallback_cooldown retry) g.next_allowed;
}
