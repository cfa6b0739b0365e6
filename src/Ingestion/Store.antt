-- ===== src/Ingestion/Store.antt =====
-- ingestion/realtime.py: `LiveQuoteStore.apply`.
pub mod Counts
pub mod Invariant
pub mod Revisions
pub mod Replay
use arbiscan_arbitrage_scann.Prelude.{
  ℕ, ◌+◌, Bool, ◌&&◌, Option, none, some, List, [], ◌∷◌, ◌++◌, ltb, leb, nat_beq, if◌then◌else◌,
}
use arbiscan_arbitrage_scann.Prelude.Dict.{Dict, lookup, insert}
use arbiscan_arbitrage_scann.Prelude.Sort.{sort_by}
use arbiscan_arbitrage_scann.Domain.{OddsQuote, effective_timestamp, status_eqb, dec_eqb}
use arbiscan_arbitrage_scann.Ingestion.Quotes.{
  QuoteKey, quote_key, quote_key_eq, QuoteVersion, StoreCode, StoreDiagnostic, diagnostic_key,
  ApplyResult, LiveQuoteStore,
}

-- `LiveQuoteStore._fingerprint(a) == LiveQuoteStore._fingerprint(b)`
unfoldable pub same_fingerprint : OddsQuote → OddsQuote → Bool
unfolding dec_eqb effective_timestamp
same_fingerprint a b =
    nat_beq a.provider_id b.provider_id
    && nat_beq a.event_id b.event_id
    && nat_beq a.market_id b.market_id
    && nat_beq a.selection_id b.selection_id
    && dec_eqb a.decimal_price b.decimal_price
    && status_eqb a.status b.status
    && nat_beq a.source_event_id b.source_event_id
    && nat_beq a.source_market_id b.source_market_id
    && nat_beq a.source_selection_id b.source_selection_id
    && nat_beq (effective_timestamp a) (effective_timestamp b)

-- `LiveQuoteStore._sort_key`
unfoldable pub store_sort_key : OddsQuote → List ℕ
unfolding effective_timestamp
store_sort_key q =
    q.provider_id
    ∷ q.event_id
    ∷ q.market_id
    ∷ q.selection_id
    ∷ effective_timestamp q
    ∷ q.ingested_at
    ∷ q.id
    ∷ []

-- What the loop of `apply` decides on one quote: `continue` with a count, or a new version.
pub data Verdict : Type 0 where
  reject : StoreCode → Verdict
  repeat : Verdict
  add : Verdict
  update : ℕ → Verdict

module _ (tolerance : ℕ) where
  -- The branch `if current is not None`. A difference of times is tested by moving it over.
  unfoldable pub judge_against : QuoteVersion → OddsQuote → Verdict
  unfolding same_fingerprint effective_timestamp
  judge_against current q =
      let effective = effective_timestamp q in
      let current_effective = effective_timestamp current.quote in
      if ltb (effective + tolerance) current_effective
      then reject StoreCode.out_of_order
      else if same_fingerprint current.quote q
      then repeat
      else if ltb effective current_effective && leb q.ingested_at current.quote.ingested_at
      then reject StoreCode.out_of_order
      else update (current.revision + 1)

  unfoldable pub judge_known : Option QuoteVersion → OddsQuote → Verdict
  unfolding judge_against
  judge_known none q = add
  judge_known (some current) q = judge_against current q

  unfoldable pub judge : ℕ → Option QuoteVersion → OddsQuote → Verdict
  unfolding judge_known effective_timestamp
  judge observed current q =
      if ltb observed q.ingested_at
      then reject StoreCode.future_ingestion
      else if ltb (observed + tolerance) (effective_timestamp q)
      then reject StoreCode.clock_skew_exceeded
      else judge_known current q

  -- The diagnostic of a quote that is ahead of the clock by no more than the tolerance.
  unfoldable pub skew_diagnostics : ℕ → OddsQuote → List StoreDiagnostic
  unfolding effective_timestamp
  skew_diagnostics observed q =
      if ltb observed q.ingested_at
      then []
      else if ltb (observed + tolerance) (effective_timestamp q)
      then []
      else if ltb observed (effective_timestamp q)
      then record { code = StoreCode.clock_skew_detected; key = quote_key q } ∷ []
      else []

abbrev pub version_of : ℕ → ℕ → OddsQuote → QuoteVersion
version_of observed revision q = record {
  key = quote_key q;
  revision = revision;
  quote = q;
  observed_at = observed;
}

-- The local variables of the loop, and `self._current`.
abbrev pub Progress : Type 0
Progress = Dict QuoteKey QuoteVersion × ApplyResult

abbrev pub note : OddsQuote → StoreCode → StoreDiagnostic
note q code = record { code = code; key = quote_key q }

unfoldable pub settle : ℕ → OddsQuote → Verdict → Progress → Progress
settle observed q (reject code) (current, r) = (
  current,
  record r {
    diagnostics = r.diagnostics ++ note q code ∷ [];
    rejected_count = r.rejected_count + 1;
  },
)
settle observed q repeat (current, r) = (
  current,
  record r {
    diagnostics = r.diagnostics ++ note q StoreCode.duplicate ∷ [];
    duplicate_count = r.duplicate_count + 1;
  },
)
settle observed q add (current, r) = (
  insert (quote_key q) (version_of observed 1 q) current,
  record r {
    accepted = r.accepted ++ version_of observed 1 q ∷ [];
    added_count = r.added_count + 1;
  },
)
settle observed q (update revision) (current, r) = (
  insert (quote_key q) (version_of observed revision q) current,
  record r {
    accepted = r.accepted ++ version_of observed revision q ∷ [];
    updated_count = r.updated_count + 1;
  },
)

-- One round of the loop of `apply`.
unfoldable pub apply_one : ℕ → ℕ → Progress → OddsQuote → Progress
unfolding settle judge skew_diagnostics
apply_one tolerance observed (current, r) q =
    settle observed q (judge tolerance observed (lookup (quote_key q) current) q)
      (current, record r { diagnostics = r.diagnostics ++ skew_diagnostics tolerance observed q })

unfoldable pub apply_all : ℕ → ℕ → Progress → List OddsQuote → Progress
unfolding apply_one
apply_all tolerance observed p [] = p
apply_all tolerance observed p (q ∷ qs) =
    apply_all tolerance observed (apply_one tolerance observed p q) qs

abbrev pub no_result : ApplyResult
no_result = record {
  accepted = [];
  diagnostics = [];
  added_count = 0;
  updated_count = 0;
  duplicate_count = 0;
  rejected_count = 0;
}

-- `LiveQuoteStore.apply`: the store afterwards and the result.
unfoldable pub apply : LiveQuoteStore → List OddsQuote → ℕ → LiveQuoteStore × ApplyResult
unfolding apply_all store_sort_key diagnostic_key sort_by
apply s quotes observed =
    let (current, r) =
      apply_all s.policy.clock_skew_tolerance observed (s.current, no_result)
        (sort_by store_sort_key quotes) in
    (
      record s { current = current },
      record r { diagnostics = sort_by diagnostic_key r.diagnostics },
    )
