-- ===== src/Ingestion/Consolidation.antt =====
-- ingestion/multisource.py: one executable quote for each price slot, from several transports.
pub mod Laws
pub mod Distinct
pub mod Counts
use arbiscan_arbitrage_scann.Prelude.{
  ℕ, ◌+◌, Bool, true, false, not, ◌&&◌, ◌||◌, List, [], ◌∷◌, ◌++◌, map, any, keep, nat_beq, nat_eq,
  list_eq, distinct, ltb, if◌then◌else◌,
}
use arbiscan_arbitrage_scann.Prelude.Sort.{sort_by}
use arbiscan_arbitrage_scann.Prelude.Groups.{group_into}
use arbiscan_arbitrage_scann.Prelude.Grouped.{groups}
use arbiscan_arbitrage_scann.Domain.{
  OddsQuote, effective_timestamp, transport_id, status_eqb, dec_eqb,
}
use arbiscan_arbitrage_scann.Ingestion.Quotes.{QuoteKey, quote_key}
use arbiscan_arbitrage_scann.MarketBook.Best.{max_time}

pub data ConsolidationCode : Type 0 where
  equivalent_overlap material_conflict : ConsolidationCode

-- PriceSlotKey has the fields of QuoteKey.
pub record ConsolidationDiagnostic : Type 0 where
  pub code : ConsolidationCode
  pub slot : QuoteKey
  pub effective_timestamp : ℕ
  pub transport_provider_ids : List ℕ
  pub quote_ids : List ℕ

pub record ConsolidationResult : Type 0 where
  pub quotes : List OddsQuote
  pub diagnostics : List ConsolidationDiagnostic
  pub equivalent_overlap_count : ℕ
  pub conflict_count : ℕ

-- `_observation_sort_key`
unfoldable pub observation_sort_key : OddsQuote → List ℕ
unfolding transport_id effective_timestamp
observation_sort_key q = transport_id q ∷ effective_timestamp q ∷ q.ingested_at ∷ q.id ∷ []

-- `_slot_sort_key`
abbrev pub slot_sort_key : OddsQuote → List ℕ
slot_sort_key q = q.event_id ∷ q.market_id ∷ q.selection_id ∷ q.provider_id ∷ []

-- `(quote.decimal_price, quote.status) == (other.decimal_price, other.status)`
unfoldable pub same_state : OddsQuote → OddsQuote → Bool
unfolding dec_eqb
same_state a b = dec_eqb a.decimal_price b.decimal_price && status_eqb a.status b.status

-- The transports of the observations, each once, in order.
unfoldable pub transports_of : List OddsQuote → List ℕ
unfolding transport_id sort_by
transports_of quotes = sort_by (λ n. n ∷ []) (distinct (map transport_id quotes))

unfoldable pub overlap_diagnostic :
    ConsolidationCode → OddsQuote → ℕ → List OddsQuote → ConsolidationDiagnostic
unfolding transports_of
overlap_diagnostic code first newest_timestamp newest = record {
  code = code;
  slot = quote_key first;
  effective_timestamp = newest_timestamp;
  transport_provider_ids = transports_of newest;
  quote_ids = map (λ q. q.id) newest;
}

-- What a slot adds to the result. `silent` is the slot of no observation, which no group is.
pub data SlotDecision : Type 0 where
  select : OddsQuote → SlotDecision
  overlap : OddsQuote → ConsolidationDiagnostic → SlotDecision
  conflict : ConsolidationDiagnostic → SlotDecision
  silent : SlotDecision

-- From the newest observations of a slot on, once they are sorted.
unfoldable pub decide_sorted : OddsQuote → ℕ → List OddsQuote → SlotDecision
unfolding same_state overlap_diagnostic
decide_sorted first newest_timestamp [] = silent
decide_sorted first newest_timestamp (c ∷ cs) =
    if any (λ q. not (same_state q c)) cs
    then conflict
        (overlap_diagnostic ConsolidationCode.material_conflict first newest_timestamp (c ∷ cs))
    else overlap c
        (overlap_diagnostic ConsolidationCode.equivalent_overlap first newest_timestamp (c ∷ cs))

unfoldable pub decide_newest : OddsQuote → ℕ → List OddsQuote → SlotDecision
unfolding decide_sorted observation_sort_key sort_by
decide_newest first newest_timestamp [] = silent
decide_newest first newest_timestamp (q ∷ []) = select q
decide_newest first newest_timestamp (q ∷ r ∷ qs) =
    decide_sorted first newest_timestamp (sort_by observation_sort_key (q ∷ r ∷ qs))

-- The body of the loop over the slots.
unfoldable pub decide_slot : List OddsQuote → SlotDecision
unfolding max_time decide_newest effective_timestamp
decide_slot [] = silent
decide_slot (q ∷ []) = select q
decide_slot (q ∷ r ∷ qs) =
    let newest_timestamp = max_time (effective_timestamp q) (r ∷ qs) in
    decide_newest q newest_timestamp
      (keep (λ x. nat_beq (effective_timestamp x) newest_timestamp) (q ∷ r ∷ qs))

abbrev pub no_consolidation : ConsolidationResult
no_consolidation = record {
  quotes = [];
  diagnostics = [];
  equivalent_overlap_count = 0;
  conflict_count = 0;
}

unfoldable pub add_decision : SlotDecision → ConsolidationResult → ConsolidationResult
add_decision (select q) r = record r { quotes = q ∷ r.quotes }
add_decision (overlap q d) r = record r {
  quotes = q ∷ r.quotes;
  diagnostics = d ∷ r.diagnostics;
  equivalent_overlap_count = r.equivalent_overlap_count + 1;
}
add_decision (conflict d) r = record r {
  diagnostics = d ∷ r.diagnostics;
  conflict_count = r.conflict_count + 1;
}
add_decision silent r = r

-- The loop over the slots, in their order.
unfoldable pub consolidate_slots : List (List ℕ × List OddsQuote) → ConsolidationResult
unfolding decide_slot add_decision
consolidate_slots [] = no_consolidation
consolidate_slots (p ∷ ps) = let rest = consolidate_slots ps in add_decision (decide_slot p.1) rest

-- `consolidate_quotes`
unfoldable pub consolidate_quotes : List OddsQuote → ConsolidationResult
unfolding consolidate_slots group_into sort_by
consolidate_quotes quotes = consolidate_slots (sort_by (λ p. p.0) (groups slot_sort_key quotes))
