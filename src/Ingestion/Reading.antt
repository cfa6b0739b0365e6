-- ===== src/Ingestion/Reading.antt =====
-- ingestion/realtime.py: the readers of LiveQuoteStore and `evict_stale`.
pub mod Eviction
use arbiscan_arbitrage_scann.Prelude.{
  ℕ, ◌+◌, Bool, false, ◌&&◌, not, Option, none, some, List, [], ◌∷◌, map, ltb, leb, if◌then◌else◌,
  is_none, keep, length,
}
use arbiscan_arbitrage_scann.Prelude.Dict.{Dict}
use arbiscan_arbitrage_scann.Prelude.Sort.{sort_by}
use arbiscan_arbitrage_scann.Domain.{OddsQuote, effective_timestamp, is_active}
use arbiscan_arbitrage_scann.Ingestion.Quotes.{
  RealtimeIngestionPolicy, QuoteKey, quote_key_eq, QuoteVersion, StoreCode, StoreDiagnostic,
  diagnostic_key, version_key, LiveQuoteStore,
}

abbrev pub values : Dict QuoteKey QuoteVersion → List QuoteVersion
values d = map (λ p. p.1) d

-- The tests of `fresh_versions`.
unfoldable pub is_fresh : RealtimeIngestionPolicy → ℕ → QuoteVersion → Bool
unfolding effective_timestamp is_active
is_fresh policy moment v =
    let effective = effective_timestamp v.quote in
    if not (is_active v.quote.status)
    then false
    else if ltb moment v.quote.ingested_at
    then false
    else if ltb moment effective
    then false
    else not (ltb (effective + policy.freshness_window) moment)

unfoldable pub fresh_versions : LiveQuoteStore → ℕ → List QuoteVersion
unfolding is_fresh version_key sort_by
fresh_versions s moment = sort_by version_key (keep (is_fresh s.policy moment) (values s.current))

unfoldable pub fresh_quotes : LiveQuoteStore → ℕ → List OddsQuote
unfolding fresh_versions
fresh_quotes s moment = map (λ v. v.quote) (fresh_versions s moment)

unfoldable pub is_stale : RealtimeIngestionPolicy → ℕ → QuoteVersion → Bool
unfolding effective_timestamp
is_stale policy moment v =
    let effective = effective_timestamp v.quote in
    leb effective moment && ltb (effective + policy.freshness_window) moment

unfoldable pub stale_count : LiveQuoteStore → ℕ → ℕ
unfolding is_stale
stale_count s moment = length (keep (is_stale s.policy moment) (values s.current))

-- The reason for which `evict_stale` removes a version.
unfoldable pub eviction : RealtimeIngestionPolicy → ℕ → QuoteVersion → Option StoreCode
unfolding is_active is_stale
eviction policy moment v =
    if not (is_active v.quote.status)
    then some StoreCode.inactive_evicted
    else if is_stale policy moment v
    then some StoreCode.stale_evicted
    else none

pub record EvictionResult : Type 0 where
  pub evicted : List QuoteVersion
  pub diagnostics : List StoreDiagnostic

unfoldable pub eviction_notes :
    RealtimeIngestionPolicy → ℕ → Dict QuoteKey QuoteVersion → List StoreDiagnostic
unfolding eviction
eviction_notes policy moment [] = []
eviction_notes policy moment ((k, v) ∷ d) =
    let rest = eviction_notes policy moment d in
    elim (eviction policy moment v) [
      | none ↦ rest
      | some code ↦ record { code = code; key = k } ∷ rest
    ]

unfoldable pub evict_stale : LiveQuoteStore → ℕ → LiveQuoteStore × EvictionResult
unfolding eviction eviction_notes version_key diagnostic_key sort_by
evict_stale s moment = (
  record s { current = keep (λ p. is_none (eviction s.policy moment p.1)) s.current },
  record {
    evicted =
        sort_by version_key
          (keep (λ v. not (is_none (eviction s.policy moment v))) (values s.current));
    diagnostics = sort_by diagnostic_key (eviction_notes s.policy moment s.current);
  },
)
