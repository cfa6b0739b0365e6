-- ===== src/Ingestion/Gate/Laws.antt =====
-- ingestion/realtime.py: when ProviderRateGate holds a provider back.
use arbiscan_arbitrage_scann.Prelude.{
  ℕ, ◌+◌, ◌≤◌, ◌≡◌, Bool, false, Option, none, some, List, [], ◌∷◌, ltb, nat_eq, if◌then◌else◌,
  arith, ◌==◌, ◌&&◌, ◌||◌, any, is_none,
}
use arbiscan_arbitrage_scann.Prelude.Dict.{lookup, lookup-insert, lookup-erase}
use arbiscan_arbitrage_scann.Ingestion.Gate.{
  RateLimitSnapshot, ProviderRateGate, is_throttled, candidates, observe, retry_delay,
  observe_retry_after, max_of, is_exhausted, schedule,
}

-- The answer of `is_throttled`, from what is stored.
abbrev held : Option ℕ → ℕ → Bool
held none moment = false
held (some next) moment = ltb moment next

is_throttled-eq-held :
    (g : ProviderRateGate) (provider_id moment : ℕ)
    → (is_throttled g provider_id moment).1 ≡ held (lookup provider_id g.next_allowed) moment
unfolding is_throttled
is_throttled-eq-held g provider_id moment = ground arith

-- Asking changes no later answer: as long as the clock does not go back, the gate that has answered
-- answers for every provider as it would have answered without the question.
pub is_throttled_transparent :
    (g : ProviderRateGate) (p q moment later : ℕ)
    → moment ≤ later
    → (is_throttled (is_throttled g p moment).0 q later).1 ≡ (is_throttled g q later).1
unfolding is_throttled
is_throttled_transparent g p q moment later le = ground (arith, lookup-erase p q g.next_allowed)

-- A delay that was asked for at a moment still runs later; none was asked for, none runs.
abbrev pub still_asked : ℕ → Option ℕ → ℕ → Bool
still_asked moment none later = false
still_asked moment (some delay) later = ltb later (moment + delay)

retry_delay-asked :
    (fallback moment later : ℕ) (retry : Option ℕ)
    → ltb later (moment + retry_delay fallback retry)
      ≡ (ltb later (moment + fallback) || still_asked moment retry later)
unfolding retry_delay
retry_delay-asked fallback moment later none = ground arith
retry_delay-asked fallback moment later (some delay) = ground arith

-- After a rate-limit error the provider is held back as long as the fallback cooldown runs from that
-- moment, or the delay that the error asks for, if it asks for one, and no longer; no other provider
-- is touched.
pub observe_retry_after_holds :
    (g : ProviderRateGate) (p q : ℕ) (retry : Option ℕ) (moment later : ℕ)
    → (is_throttled (observe_retry_after g p retry moment) q later).1 ≡ (
        if p == q
        then ltb later (moment + g.fallback_cooldown) || still_asked moment retry later
        else (is_throttled g q later).1)
unfolding observe_retry_after
observe_retry_after_holds g p q retry moment later =
    rw (is_throttled-eq-held, is_throttled-eq-held, lookup-insert)
      (rw (← retry_delay-asked g.fallback_cooldown moment later retry) (ground arith))

-- The reasons for which a snapshot taken at a moment holds a provider back later: a retry delay that
-- runs on, or, with no request remaining, a reset that lies ahead, or the fallback cooldown where
-- there is neither such a reset nor a retry delay.
abbrev waits_retry : ℕ → Option ℕ → ℕ → Bool
waits_retry moment none later = false
waits_retry moment (some delay) later = ltb 0 delay && ltb later (moment + delay)

abbrev waits_exhausted : ℕ → ℕ → Option ℕ → Option ℕ → ℕ → Bool
waits_exhausted fallback moment resets retry later = elim resets [
  | none ↦ is_none retry && ltb later (moment + fallback)
  | some r ↦ if ltb moment r then ltb later r else is_none retry && ltb later (moment + fallback)
]

abbrev pub waits : ℕ → RateLimitSnapshot → ℕ → ℕ → Bool
waits fallback s moment later =
    waits_retry moment s.retry_after later
    || (is_exhausted s.remaining && waits_exhausted fallback moment s.resets_at s.retry_after later)

max_of-any : (later n : ℕ) (ns : List ℕ) → ltb later (max_of n ns) ≡ any (λ m. ltb later m) (n ∷ ns)
unfolding max_of
max_of-any later n [] = ground arith
max_of-any later n (m ∷ ms) = ground (arith, max_of-any later m ms)

candidates-any :
    (fallback : ℕ) (s : RateLimitSnapshot) (moment later : ℕ)
    → any (λ m. ltb later m) (candidates fallback s moment) ≡ waits fallback s moment later
unfolding candidates
candidates-any fallback s moment later = ground arith

schedule-held :
    (g : ProviderRateGate) (p q later : ℕ) (found : List ℕ)
    → held (lookup q (schedule g p found).next_allowed) later
      ≡ (if p == q then any (λ m. ltb later m) found else held (lookup q g.next_allowed) later)
unfolding schedule
schedule-held g p q later [] = rw lookup-erase (ground arith)
schedule-held g p q later (n ∷ ns) = rw lookup-insert (ground (arith, max_of-any later n ns))

-- After rate metadata the provider is held back exactly as long as one of those reasons lasts, and
-- what held it back before no longer counts; no other provider is touched.
pub observe_holds :
    (g : ProviderRateGate) (s : RateLimitSnapshot) (q moment later : ℕ)
    → (is_throttled (observe g s moment) q later).1 ≡ (
        if s.provider_id == q
        then waits g.fallback_cooldown s moment later
        else (is_throttled g q later).1)
unfolding observe
observe_holds g s q moment later =
    rw (is_throttled-eq-held, is_throttled-eq-held)
      (rw (← candidates-any g.fallback_cooldown s moment later)
        (schedule-held g s.provider_id q later (candidates g.fallback_cooldown s moment)))
