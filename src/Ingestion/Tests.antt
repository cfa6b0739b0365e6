-- ===== src/Ingestion/Tests.antt =====
-- ingestion/realtime.py on a store of one quote, a gate and a tracker of one provider.
use arbiscan_arbitrage_scann.Prelude.{
  ℕ, ◌+◌, ◌<◌, ◌≡◌, ◌⊎◌, refl, true, false, if◌then◌else◌, ltb, none, some, List, [], ◌∷◌, ◌++◌,
  length, All, arith, nat_beq, ◌||◌, ◌≤◌, ◌↔◌, map, all_distinct, list_eq, nat_eq,
}
use mathlib.Core.List.{Perm}
use arbiscan_arbitrage_scann.Prelude.Int.{pos}
use arbiscan_arbitrage_scann.Prelude.Dict.{lookup, insert}
use arbiscan_arbitrage_scann.Prelude.Sort.{sort_by}
use arbiscan_arbitrage_scann.Domain.{OddsQuote, QuoteStatus, effective_timestamp, dec_leb}
use arbiscan_arbitrage_scann.Ingestion.Quotes.{
  RealtimeIngestionPolicy, quote_key, quote_key_eq, QuoteVersion, LiveQuoteStore,
}
use arbiscan_arbitrage_scann.Ingestion.Store.{apply, apply_one, no_result}
use arbiscan_arbitrage_scann.Ingestion.Store.Counts.{apply_counts}
use arbiscan_arbitrage_scann.Ingestion.Store.Invariant.{IsValidStore, apply-IsValidStore}
use arbiscan_arbitrage_scann.Ingestion.Store.Revisions.{
  apply-keeps_keys, IsUpdate, apply_one_effect,
}
use arbiscan_arbitrage_scann.Ingestion.Store.Replay.{apply_again}
use arbiscan_arbitrage_scann.Ingestion.Reading.{values, fresh_versions, stale_count, evict_stale}
use arbiscan_arbitrage_scann.Ingestion.Reading.Eviction.{
  IsActionable, fresh_versions_exact, evict_stale_effect,
}
use arbiscan_arbitrage_scann.Ingestion.Gate.{
  RateLimitSnapshot, ProviderRateGate, is_throttled, observe, observe_retry_after,
}
use arbiscan_arbitrage_scann.Ingestion.Gate.Laws.{
  is_throttled_transparent, still_asked, observe_retry_after_holds, observe_holds, waits,
}
use arbiscan_arbitrage_scann.Ingestion.Health.{ProviderHealthState, fresh_health, Poll, record_poll}
use arbiscan_arbitrage_scann.Ingestion.Health.Laws.{
  record_polls, after, recent_issues, Newest, IsClean, after_polls, IsFailure, outage_and_recovery,
}
use arbiscan_arbitrage_scann.Prelude.Grouped.{groups}
use arbiscan_arbitrage_scann.Ingestion.Consolidation.{consolidate_quotes, slot_sort_key}
use arbiscan_arbitrage_scann.Ingestion.Consolidation.Laws.{
  IsSelection, consolidate_quotes-IsSelection,
}
use arbiscan_arbitrage_scann.Ingestion.Consolidation.Distinct.{consolidate_quotes-distinct}
use arbiscan_arbitrage_scann.Ingestion.Consolidation.Counts.{Counts, consolidate_quotes-Counts}

program : Unit {0}
unfolding apply sort_by lookup insert fresh_versions evict_stale stale_count dec_leb is_throttled
    observe observe_retry_after record_poll consolidate_quotes
program = tt

abbrev pub policy : RealtimeIngestionPolicy
policy = record {
  poll_interval = 10;
  freshness_window = 50;
  max_concurrency = 2;
  clock_skew_tolerance = 5;
  rate_limit_fallback_cooldown = 30;
}

abbrev quote : (id price ingested : ℕ) → OddsQuote
quote id price ingested = record {
  id = id;
  provider_id = 7;
  event_id = 1;
  market_id = 2;
  selection_id = 3;
  decimal_price = record { coeff = pos price; scale = 2 };
  source_event_id = 1;
  source_market_id = 2;
  source_selection_id = 3;
  ingested_at = ingested;
  status = QuoteStatus.active;
  source_timestamp = none;
  trace_id = some 1;
  raw_source_reference = none;
  transport_provider_id = some 7;
}

abbrev version : QuoteVersion
version = record {
  key = quote_key (quote 1 210 100);
  revision = 1;
  quote = quote 1 210 100;
  observed_at = 100;
}

abbrev store : LiveQuoteStore
store = record { policy = policy; current = (version.key, version) ∷ [] }

abbrev batch : List OddsQuote
batch = quote 3 220 130 ∷ quote 2 215 120 ∷ quote 4 220 130 ∷ quote 5 230 300 ∷ []

apply-batch :
    let r = (apply store batch 140).1 in
    (r.updated_count ≡ 2) × (r.duplicate_count ≡ 1) × (r.rejected_count ≡ 1)
unfolding program
apply-batch = (refl, refl, refl)

apply_counts_example :
    let (s', r) = apply store batch 140 in
    (r.added_count + r.updated_count + r.duplicate_count + r.rejected_count ≡ length batch)
    × (length r.accepted ≡ r.added_count + r.updated_count)
    × (length s'.current ≡ length store.current + r.added_count)
apply_counts_example = apply_counts store batch 140

store-IsValid : IsValidStore store.policy.clock_skew_tolerance store.current
unfolding lookup effective_timestamp
store-IsValid = record {
  distinct = (refl, tt);
  entries = (
    record {
      keyed = refl;
      of_quote = refl;
      positive = omega arith;
      ingested = omega arith;
      not_ahead = omega arith;
    },
    tt,
  );
}

apply-IsValidStore_example :
    IsValidStore store.policy.clock_skew_tolerance (apply store batch 140).0.current
apply-IsValidStore_example = apply-IsValidStore store batch 140 store-IsValid

lookup-store : lookup version.key store.current ≡ some version
unfolding lookup
lookup-store = refl

apply-keeps_keys_example :
    (v' : QuoteVersion) × (lookup version.key (apply store batch 140).0.current ≡ some v')
    × ((v' ≡ version) ⊎ (version.revision < v'.revision))
apply-keeps_keys_example = apply-keeps_keys store batch 140 version.key version lookup-store

apply_one_effect_example :
    ((apply_one 5 140 (store.current, no_result) (quote 2 215 120)).0 ≡ store.current)
    ⊎ ((v' : QuoteVersion) × ((apply_one 5 140 (store.current, no_result) (quote 2 215 120)).0
          ≡ insert (quote_key (quote 2 215 120)) v' store.current)
        × (v'.quote ≡ quote 2 215 120)
        × IsUpdate 5 version v')
apply_one_effect_example =
    apply_one_effect 5 140 version (quote 2 215 120) (store.current, no_result) lookup-store

apply-accepts : (apply store (quote 2 215 120 ∷ []) 140).1.rejected_count ≡ 0
unfolding program
apply-accepts = refl

apply_again_example :
    let s' = (apply store (quote 2 215 120 ∷ []) 140).0 in
    ((apply s' (quote 2 215 120 ∷ []) 150).0.current ≡ s'.current)
    × ((apply s' (quote 2 215 120 ∷ []) 150).1.duplicate_count ≡ 1)
    × ((apply s' (quote 2 215 120 ∷ []) 150).1.accepted ≡ [])
apply_again_example = apply_again store (quote 2 215 120) 140 150 (omega arith) apply-accepts

fresh_versions-store :
    (length (fresh_versions store 150) ≡ 1) × (length (fresh_versions store 151) ≡ 0)
unfolding program
fresh_versions-store = (refl, refl)

fresh_versions_exact_example :
    (rest : List QuoteVersion) × Perm (fresh_versions store 120 ++ rest) (values store.current)
    × All (IsActionable store.policy 120) (fresh_versions store 120)
    × All (λ v. ¬ IsActionable store.policy 120 v) rest
fresh_versions_exact_example = fresh_versions_exact store 120

evict_stale_effect_example :
    let (s', r) = evict_stale store 200 in
    Perm (values s'.current ++ r.evicted) (values store.current)
    × (fresh_versions s' 200 ≡ fresh_versions store 200)
    × (stale_count s' 200 ≡ 0)
evict_stale_effect_example = evict_stale_effect store 200

abbrev gate : ProviderRateGate
gate = record { fallback_cooldown = 30; next_allowed = (7, 140) ∷ [] }

abbrev exhausted : RateLimitSnapshot
exhausted = record {
  provider_id = 7;
  observed_at = 100;
  limit = some 500;
  remaining = some 0;
  resets_at = some 180;
  retry_after = none;
}

observe-exhausted :
    ((is_throttled (observe gate exhausted 100) 7 179).1 ≡ true)
    × ((is_throttled (observe gate exhausted 100) 7 180).1 ≡ false)
unfolding program
observe-exhausted = (refl, refl)

is_throttled_transparent_example :
    (is_throttled (is_throttled gate 7 140).0 7 150).1 ≡ (is_throttled gate 7 150).1
is_throttled_transparent_example = is_throttled_transparent gate 7 7 140 150 (omega arith)

observe_retry_after_holds_example :
    (is_throttled (observe_retry_after gate 7 (some 60) 100) 7 150).1 ≡ (
      if nat_beq 7 7
      then ltb 150 (100 + gate.fallback_cooldown) || still_asked 100 (some 60) 150
      else (is_throttled gate 7 150).1)
observe_retry_after_holds_example = observe_retry_after_holds gate 7 7 (some 60) 100 150

observe_holds_example : (is_throttled (observe gate exhausted 100) 7 150).1 ≡ (
    if nat_beq exhausted.provider_id 7
    then waits gate.fallback_cooldown exhausted 100 150
    else (is_throttled gate 7 150).1)
observe_holds_example = observe_holds gate exhausted 7 100 150

abbrev failed : ℕ → Poll
failed at = record { completed_at = at; snapshot_count = 0; issue_count = 1; throttled = false }

abbrev clean : ℕ → Poll
clean at = record { completed_at = at; snapshot_count = 4; issue_count = 0; throttled = false }

failed-IsFailure : (at : ℕ) → IsFailure (failed at)
failed-IsFailure at = record { reached = refl; issues = omega arith; empty = refl }

abbrev throttled : ℕ → Poll
throttled at = record { completed_at = at; snapshot_count = 0; issue_count = 0; throttled = true }

-- Throttled polls between three failures do not set the counter back.
abbrev interrupted : List Poll
interrupted = failed 5 ∷ throttled 4 ∷ failed 3 ∷ throttled 2 ∷ failed 1 ∷ []

after_polls_example :
    ((after interrupted).consecutive_failures ≡ recent_issues interrupted)
    × (((after interrupted).state ≡ ProviderHealthState.healthy)
        ↔ ((interrupted ≡ []) ⊎ Newest IsClean interrupted))
    × (((after interrupted).state ≡ ProviderHealthState.unavailable)
        ↔ (Newest IsFailure interrupted × (3 ≤ recent_issues interrupted)))
after_polls_example = after_polls interrupted

after-interrupted : (after interrupted).state ≡ ProviderHealthState.unavailable
unfolding after program
after-interrupted = refl

outage_and_recovery_example :
    let down = record_poll (record_polls fresh_health (failed 1 ∷ failed 2 ∷ [])) (failed 3) in
    let back = record_poll down (clean 4) in
    (down.state ≡ ProviderHealthState.unavailable)
    × (down.last_success_at ≡ fresh_health.last_success_at)
    × (back.state ≡ ProviderHealthState.healthy)
    × (back.consecutive_failures ≡ 0)
    × (back.last_success_at ≡ some 4)
outage_and_recovery_example =
    outage_and_recovery fresh_health (failed 1 ∷ failed 2 ∷ []) (failed 3) (clean 4)
      (failed-IsFailure 1, (failed-IsFailure 2, tt)) (omega arith) (failed-IsFailure 3)
      (record { reached = refl; no_issue = refl })

abbrev from_transport : ℕ → OddsQuote → OddsQuote
from_transport n q = record q { transport_provider_id = some n }

abbrev for_selection : ℕ → OddsQuote → OddsQuote
for_selection n q = record q { selection_id = n }

-- Of selection 3 an old quote and two transports that agree, of selection 4 two that do not.
abbrev pub observations : List OddsQuote
observations =
    quote 2 215 120
    ∷ for_selection 4 (quote 5 150 130)
    ∷ from_transport 8 (quote 4 220 130)
    ∷ quote 3 220 130
    ∷ for_selection 4 (from_transport 8 (quote 6 155 130))
    ∷ []

consolidate-observations :
    let r = consolidate_quotes observations in
    (map (λ q. q.id) r.quotes ≡ 3 ∷ [])
    × (map (λ d. d.quote_ids) r.diagnostics ≡ (3 ∷ 4 ∷ []) ∷ (5 ∷ 6 ∷ []) ∷ [])
    × (r.conflict_count ≡ 1)
unfolding program
consolidate-observations = (refl, refl, refl)

consolidate_quotes-IsSelection_example :
    All (IsSelection observations) (consolidate_quotes observations).quotes
consolidate_quotes-IsSelection_example = consolidate_quotes-IsSelection observations

consolidate_quotes-distinct_example :
    all_distinct (map slot_sort_key (consolidate_quotes observations).quotes) ≡ true
consolidate_quotes-distinct_example = consolidate_quotes-distinct observations

consolidate_quotes-Counts_example :
    Counts (consolidate_quotes observations) (length (groups slot_sort_key observations))
consolidate_quotes-Counts_example = consolidate_quotes-Counts observations
