-- ===== src/Domain.antt =====
-- src/arbiscan/domain: the canonical objects that every other part passes on.
-- An identifier is an opaque text which the code only compares, hashes and sorts by; here it is the
-- number that stands for the text, and `<` is the order of texts. A timestamp is an aware datetime in
-- UTC, as its number of microseconds. Free texts which nothing reads are left out.
pub mod Number
pub mod Context
pub mod Grid
pub mod Stakes
pub mod AsianHandicap
pub mod Entities
pub use Number.{Decimal}
unfoldable pub use Number.{dec_leb, dec_ltb, dec_eqb, dec_of}
use arbiscan_arbitrage_scann.Prelude.{
  ℕ, Option, none, some, Bool, true, false, ◌≡◌, refl, ◌↔◌, ◌&&◌, if◌then◌else◌, is_none, or_else,
  arith,
}

pub data QuoteStatus : Type 0 where
  active suspended closed unknown : QuoteStatus

unfoldable pub is_active : QuoteStatus → Bool
is_active QuoteStatus.active = true
is_active _ = false

abbrev pub status_eqb : QuoteStatus → QuoteStatus → Bool
status_eqb QuoteStatus.active QuoteStatus.active = true
status_eqb QuoteStatus.suspended QuoteStatus.suspended = true
status_eqb QuoteStatus.closed QuoteStatus.closed = true
status_eqb QuoteStatus.unknown QuoteStatus.unknown = true
status_eqb _ _ = false

pub record OddsQuote : Type 0 where
  pub id : ℕ
  pub provider_id : ℕ
  pub event_id : ℕ
  pub market_id : ℕ
  pub selection_id : ℕ
  pub decimal_price : Decimal
  pub source_event_id : ℕ
  pub source_market_id : ℕ
  pub source_selection_id : ℕ
  pub ingested_at : ℕ
  pub status : QuoteStatus
  pub source_timestamp : Option ℕ
  pub trace_id : Option ℕ
  pub raw_source_reference : Option ℕ
  pub transport_provider_id : Option ℕ

-- `OddsQuote.__post_init__`: the transport defaults to the price provider; `none` is the raised
-- DomainValidationError.
unfoldable pub validate_odds_quote : OddsQuote → Option OddsQuote
validate_odds_quote q =
    let filled : OddsQuote = record q {
      transport_provider_id = some (or_else q.transport_provider_id q.provider_id);
    } in
    if dec_leb q.decimal_price (dec_of 1)
    then none
    else if is_none q.trace_id && is_none q.raw_source_reference
    then none
    else some filled

-- `quote.source_timestamp or quote.ingested_at`: `quote_effective_timestamp`, `effective_timestamp`.
unfoldable pub effective_timestamp : OddsQuote → ℕ
effective_timestamp q = or_else q.source_timestamp q.ingested_at

-- `quote.transport_provider_id or quote.provider_id`
unfoldable pub transport_id : OddsQuote → ℕ
transport_id q = or_else q.transport_provider_id q.provider_id
