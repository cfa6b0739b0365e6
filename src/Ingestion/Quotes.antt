-- ===== src/Ingestion/Quotes.antt =====
-- ingestion/realtime.py: the policy, the keys and versions of quotes, and the store's diagnostics.
use arbiscan_arbitrage_scann.Prelude.{
  ℕ, ◌≡◌, Bool, true, ◌&&◌, Option, none, some, List, [], ◌∷◌, ◌↔◌, ltb, leb, nat_beq, Eq, arith,
  if◌then◌else◌,
}
use arbiscan_arbitrage_scann.Prelude.Dict.{Dict}
use arbiscan_arbitrage_scann.Domain.{OddsQuote}

pub record RealtimeIngestionPolicy : Type 0 where
  pub poll_interval : ℕ
  pub freshness_window : ℕ
  pub max_concurrency : ℕ
  pub clock_skew_tolerance : ℕ
  pub rate_limit_fallback_cooldown : ℕ

-- `RealtimeIngestionPolicy.__post_init__`; `none` is the raised ValueError. A negative timedelta is
-- refused before these tests.
unfoldable pub validate_policy : RealtimeIngestionPolicy → Option RealtimeIngestionPolicy
validate_policy p =
    if leb p.poll_interval 0
    then none
    else if leb p.freshness_window 0
    then none
    else if ltb p.max_concurrency 1
    then none
    else if leb p.rate_limit_fallback_cooldown 0
    then none
    else some p

pub record QuoteKey : Type 0 where
  pub provider_id : ℕ
  pub event_id : ℕ
  pub market_id : ℕ
  pub selection_id : ℕ

abbrev pub quote_key_eqb : QuoteKey → QuoteKey → Bool
quote_key_eqb j k =
    nat_beq j.provider_id k.provider_id
    && nat_beq j.event_id k.event_id
    && nat_beq j.market_id k.market_id
    && nat_beq j.selection_id k.selection_id

pub quote_key_eqb_iff : (j k : QuoteKey) → (quote_key_eqb j k ≡ true) ↔ (j ≡ k)
quote_key_eqb_iff j k = (λ h. ground arith, λ h. ground arith)

instance abbrev pub quote_key_eq : Eq QuoteKey
quote_key_eq = record { same = quote_key_eqb; same_iff = quote_key_eqb_iff }

-- `QuoteKey.from_quote`
abbrev pub quote_key : OddsQuote → QuoteKey
quote_key q = record {
  provider_id = q.provider_id;
  event_id = q.event_id;
  market_id = q.market_id;
  selection_id = q.selection_id;
}

pub record QuoteVersion : Type 0 where
  pub key : QuoteKey
  pub revision : ℕ
  pub quote : OddsQuote
  pub observed_at : ℕ

-- `QuoteStoreDiagnosticCode`
pub data StoreCode : Type 0 where
  duplicate out_of_order future_ingestion clock_skew_detected : StoreCode
  clock_skew_exceeded stale_evicted inactive_evicted : StoreCode

-- The order of the codes' texts.
abbrev pub store_code_rank : StoreCode → ℕ
store_code_rank StoreCode.clock_skew_detected = 0
store_code_rank StoreCode.clock_skew_exceeded = 1
store_code_rank StoreCode.duplicate = 2
store_code_rank StoreCode.future_ingestion = 3
store_code_rank StoreCode.inactive_evicted = 4
store_code_rank StoreCode.out_of_order = 5
store_code_rank StoreCode.stale_evicted = 6

-- `QuoteStoreDiagnostic`, without its text, which no code reads.
pub record StoreDiagnostic : Type 0 where
  pub code : StoreCode
  pub key : QuoteKey

pub record ApplyResult : Type 0 where
  pub accepted : List QuoteVersion
  pub diagnostics : List StoreDiagnostic
  pub added_count : ℕ
  pub updated_count : ℕ
  pub duplicate_count : ℕ
  pub rejected_count : ℕ

-- The object: its policy and `_current`.
pub record LiveQuoteStore : Type 0 where
  pub policy : RealtimeIngestionPolicy
  pub current : Dict QuoteKey QuoteVersion

-- The sort key of diagnostics.
unfoldable pub diagnostic_key : StoreDiagnostic → List ℕ
diagnostic_key d =
    d.key.provider_id
    ∷ d.key.event_id
    ∷ d.key.market_id
    ∷ d.key.selection_id
    ∷ store_code_rank d.code
    ∷ []

-- The sort key of versions.
unfoldable pub version_key : QuoteVersion → List ℕ
version_key v = v.key.event_id ∷ v.key.market_id ∷ v.key.selection_id ∷ v.key.provider_id ∷ []
