-- ===== src/Ingestion/Transports.antt =====
-- ingestion/multisource_state.py: MultiSourceLiveQuoteStore, a live quote store for each transport, and
-- SourceObservationKey of ingestion/multisource.py.
pub mod Isolation
pub mod Safety
mod Tests
use arbiscan_arbitrage_scann.Prelude.{
  ℕ, ◌+◌, ◌-◌, ltb, ◌≡◌, Bool, true, false, not, ◌&&◌, ◌↔◌, Option, none, some, List, [], ◌∷◌, ◌++◌,
  map, keep, length, contains, nat_beq, nat_eq, Eq, ◌==◌, arith, or_else, if◌then◌else◌,
}
use arbiscan_arbitrage_scann.Prelude.Dict.{Dict, lookup, insert}
use arbiscan_arbitrage_scann.Prelude.Sort.{sort_by}
use arbiscan_arbitrage_scann.Prelude.Groups.{group_into}
use arbiscan_arbitrage_scann.Prelude.Grouped.{groups}
use arbiscan_arbitrage_scann.Domain.{OddsQuote, effective_timestamp, transport_id, is_active}
use arbiscan_arbitrage_scann.Ingestion.Quotes.{
  RealtimeIngestionPolicy, QuoteVersion, StoreDiagnostic, store_code_rank, ApplyResult,
  LiveQuoteStore,
}
use arbiscan_arbitrage_scann.Ingestion.Store
use arbiscan_arbitrage_scann.Ingestion.Store.{no_result}
use arbiscan_arbitrage_scann.Ingestion.Reading
use arbiscan_arbitrage_scann.Ingestion.Reading.{EvictionResult}
use arbiscan_arbitrage_scann.Ingestion.Consolidation.{ConsolidationResult, consolidate_quotes}

pub record SourceObservationKey : Type 0 where
  pub transport_provider_id : ℕ
  pub provider_id : ℕ
  pub event_id : ℕ
  pub market_id : ℕ
  pub selection_id : ℕ

abbrev pub observation_key_eqb : SourceObservationKey → SourceObservationKey → Bool
observation_key_eqb j k =
    nat_beq j.transport_provider_id k.transport_provider_id
    && nat_beq j.provider_id k.provider_id
    && nat_beq j.event_id k.event_id
    && nat_beq j.market_id k.market_id
    && nat_beq j.selection_id k.selection_id

pub observation_key_eqb_iff :
    (j k : SourceObservationKey) → (observation_key_eqb j k ≡ true) ↔ (j ≡ k)
observation_key_eqb_iff j k = (λ h. ground arith, λ h. ground arith)

instance abbrev pub observation_key_eq : Eq SourceObservationKey
observation_key_eq = record { same = observation_key_eqb; same_iff = observation_key_eqb_iff }

-- `SourceObservationKey.from_quote`
unfoldable pub observation_key : OddsQuote → SourceObservationKey
unfolding transport_id
observation_key q = record {
  transport_provider_id = transport_id q;
  provider_id = q.provider_id;
  event_id = q.event_id;
  market_id = q.market_id;
  selection_id = q.selection_id;
}

-- The object; the set of invalidated keys is a list of which only the members are read.
pub record MultiSourceStore : Type 0 where
  pub policy : RealtimeIngestionPolicy
  pub stores : Dict ℕ LiveQuoteStore
  pub invalidated : List SourceObservationKey
  pub last : ConsolidationResult

-- `__init__`
abbrev pub new_store : RealtimeIngestionPolicy → MultiSourceStore
new_store policy = record {
  policy = policy;
  stores = [];
  invalidated = [];
  last = record { quotes = []; diagnostics = []; equivalent_overlap_count = 0; conflict_count = 0 };
}

-- `LiveQuoteStore(self.policy)`
abbrev pub empty_store : RealtimeIngestionPolicy → LiveQuoteStore
empty_store policy = record { policy = policy; current = [] }

-- `_quote_sort_key` of `version.quote`
unfoldable pub version_sort_key : QuoteVersion → List ℕ
unfolding transport_id effective_timestamp
version_sort_key v =
    v.quote.event_id
    ∷ v.quote.market_id
    ∷ v.quote.selection_id
    ∷ v.quote.provider_id
    ∷ transport_id v.quote
    ∷ effective_timestamp v.quote
    ∷ v.quote.ingested_at
    ∷ v.quote.id
    ∷ []

-- The sort key of diagnostics.
unfoldable pub note_sort_key : StoreDiagnostic → List ℕ
note_sort_key d =
    d.key.event_id
    ∷ d.key.market_id
    ∷ d.key.selection_id
    ∷ d.key.provider_id
    ∷ store_code_rank d.code
    ∷ []

-- `__len__`
unfoldable pub total_length : Dict ℕ LiveQuoteStore → ℕ
total_length [] = 0
total_length (p ∷ d) = length p.1.current + total_length d

-- `invalidate_observations`
unfoldable pub invalidate_observations :
    MultiSourceStore → List SourceObservationKey → MultiSourceStore
invalidate_observations s keys = record s { invalidated = keys ++ s.invalidated }

abbrev pub discard : SourceObservationKey → List SourceObservationKey → List SourceObservationKey
discard k keys = keep (λ j. not (j == k)) keys

-- `for version in result.accepted: if ... is ACTIVE: discard`
unfoldable pub revive : List QuoteVersion → List SourceObservationKey → List SourceObservationKey
unfolding is_active observation_key
revive [] keys = keys
revive (v ∷ vs) keys =
    revive vs (if is_active v.quote.status then discard (observation_key v.quote) keys else keys)

-- The sums and rows that the loop of `apply` collects.
unfoldable pub collect : ApplyResult → ApplyResult → ApplyResult
collect total r = record {
  accepted = total.accepted ++ r.accepted;
  diagnostics = total.diagnostics ++ r.diagnostics;
  added_count = total.added_count + r.added_count;
  updated_count = total.updated_count + r.updated_count;
  duplicate_count = total.duplicate_count + r.duplicate_count;
  rejected_count = total.rejected_count + r.rejected_count;
}

-- One round of the loop of `apply`: the quotes of a transport go into its own store.
unfoldable pub apply_group :
    ℕ → MultiSourceStore × ApplyResult → ℕ × List OddsQuote → MultiSourceStore × ApplyResult
unfolding lookup insert Store.apply revive collect
apply_group observed (s, total) (t, quotes) =
    let (store, r) =
      Store.apply (or_else (lookup t s.stores) (empty_store s.policy)) quotes observed in
    (
      record s { stores = insert t store s.stores; invalidated = revive r.accepted s.invalidated },
      collect total r,
    )

unfoldable pub apply_groups :
    ℕ → MultiSourceStore × ApplyResult → List (ℕ × List OddsQuote) → MultiSourceStore × ApplyResult
unfolding apply_group
apply_groups observed p [] = p
apply_groups observed p (g ∷ gs) = apply_groups observed (apply_group observed p g) gs

-- `sorted(grouped, key=...)` of the quotes by transport.
unfoldable pub transport_groups : List OddsQuote → List (ℕ × List OddsQuote)
unfolding group_into sort_by transport_id
transport_groups quotes = sort_by (λ p. p.0 ∷ []) (groups transport_id quotes)

-- `apply`
unfoldable pub apply : MultiSourceStore → List OddsQuote → ℕ → MultiSourceStore × ApplyResult
unfolding apply_groups transport_groups version_sort_key note_sort_key sort_by
apply s quotes observed =
    let (s', r) = apply_groups observed (s, no_result) (transport_groups quotes) in
    (
      s',
      record r {
        accepted = sort_by version_sort_key r.accepted;
        diagnostics = sort_by note_sort_key r.diagnostics;
      },
    )

-- The versions of all transports, in the order of the dict.
unfoldable pub all_fresh : ℕ → Dict ℕ LiveQuoteStore → List QuoteVersion
unfolding Reading.fresh_versions
all_fresh moment [] = []
all_fresh moment (p ∷ d) = Reading.fresh_versions p.1 moment ++ all_fresh moment d

-- `fresh_versions`
unfoldable pub fresh_versions : MultiSourceStore → ℕ → List QuoteVersion
unfolding all_fresh observation_key version_sort_key sort_by
fresh_versions s moment =
    sort_by version_sort_key (
      keep (λ v. not (contains s.invalidated (observation_key v.quote)))
        (all_fresh moment s.stores))

-- `fresh_observations`
unfoldable pub fresh_observations : MultiSourceStore → ℕ → List OddsQuote
unfolding fresh_versions
fresh_observations s moment = map (λ v. v.quote) (fresh_versions s moment)

-- `consolidate`
unfoldable pub consolidate : MultiSourceStore → ℕ → MultiSourceStore × ConsolidationResult
unfolding consolidate_quotes fresh_observations
consolidate s moment =
    let result = consolidate_quotes (fresh_observations s moment) in
    (record s { last = result }, result)

-- `fresh_quotes`
unfoldable pub fresh_quotes : MultiSourceStore → ℕ → MultiSourceStore × List OddsQuote
unfolding consolidate
fresh_quotes s moment = let (s', result) = consolidate s moment in (s', result.quotes)

-- `stale_count`
unfoldable pub stale_total : ℕ → Dict ℕ LiveQuoteStore → ℕ
unfolding Reading.stale_count
stale_total moment [] = 0
stale_total moment (p ∷ d) = Reading.stale_count p.1 moment + stale_total moment d

-- `maximum_quote_age`: the greatest age of the observations, as their least effective time.
unfoldable pub greatest_age : ℕ → List OddsQuote → Option ℕ
unfolding effective_timestamp
greatest_age moment [] = none
greatest_age moment (q ∷ qs) =
    let age = moment - effective_timestamp q in
    elim (greatest_age moment qs) [
      | none ↦ some age
      | some other ↦ some (if ltb age other then other else age)
    ]

unfoldable pub maximum_quote_age : MultiSourceStore → ℕ → Option ℕ
unfolding fresh_observations greatest_age
maximum_quote_age s moment = greatest_age moment (fresh_observations s moment)

abbrev pub join_evicted : EvictionResult → EvictionResult → EvictionResult
join_evicted a b = record {
  evicted = a.evicted ++ b.evicted;
  diagnostics = a.diagnostics ++ b.diagnostics;
}

-- The loop of `evict_stale` over the transports, in their order: what it collects.
unfoldable pub evict_all : ℕ → Dict ℕ LiveQuoteStore → EvictionResult
unfolding Reading.evict_stale
evict_all moment [] = record { evicted = []; diagnostics = [] }
evict_all moment (p ∷ d) = join_evicted (Reading.evict_stale p.1 moment).1 (evict_all moment d)

-- `self._invalidated_observations.discard(...)` of the evicted versions.
unfoldable pub forget : List QuoteVersion → List SourceObservationKey → List SourceObservationKey
unfolding observation_key
forget [] keys = keys
forget (v ∷ vs) keys = forget vs (discard (observation_key v.quote) keys)

-- The stores afterwards: those that became empty are deleted.
unfoldable pub evict_stores : ℕ → Dict ℕ LiveQuoteStore → Dict ℕ LiveQuoteStore
unfolding Reading.evict_stale
evict_stores moment [] = []
evict_stores moment (p ∷ d) =
    let store = (Reading.evict_stale p.1 moment).0 in
    let rest = evict_stores moment d in
    if nat_beq (length store.current) 0 then rest else (p.0, store) ∷ rest

-- `evict_stale`
unfoldable pub evict_stale : MultiSourceStore → ℕ → MultiSourceStore × EvictionResult
unfolding evict_all forget evict_stores version_sort_key note_sort_key sort_by
evict_stale s moment =
    let r = evict_all moment (sort_by (λ p. p.0 ∷ []) s.stores) in
    (
      record s {
        stores = evict_stores moment s.stores;
        invalidated = forget r.evicted s.invalidated;
      },
      record {
        evicted = sort_by version_sort_key r.evicted;
        diagnostics = sort_by note_sort_key r.diagnostics;
      },
    )
