-- ===== src/Arbitrage/Exchange.antt =====
-- arbitrage/exchange.py: the prices of exchanges, and what a stake on one needs. An exchange sells both
-- sides of a selection, takes a commission on winnings, and has so much to match at a price.
-- `none` is the raised ArbitrageMathError. A provider is its id and its kind.
pub mod Scenario
pub mod Portfolio
pub mod Levels
pub mod Liquidity
pub mod Rates
pub mod Sound
mod Tests
use arbiscan_arbitrage_scann.Prelude.{
  ℕ, ◌≡◌, refl, Bool, true, false, not, ◌&&◌, ◌||◌, Option, none, some, List, [], ◌∷◌, nat_beq,
  is_none, checked, if◌then◌else◌,
}
use arbiscan_arbitrage_scann.Domain.{
  Decimal, dec_leb, dec_ltb, dec_of, OddsQuote, QuoteStatus, is_active,
}
use arbiscan_arbitrage_scann.Domain.Context.{ctx_sub, ctx_mul}

pub data ExchangeSide : Type 0 where
  back lay : ExchangeSide

pub data ProviderKind : Type 0 where
  bookmaker aggregator exchange synthetic : ProviderKind

pub record Provider : Type 0 where
  pub id : ℕ
  pub kind : ProviderKind

abbrev pub is_exchange : ProviderKind → Bool
is_exchange ProviderKind.exchange = true
is_exchange _ = false

abbrev pub is_bookmaker : ProviderKind → Bool
is_bookmaker ProviderKind.bookmaker = true
is_bookmaker _ = false

pub record ExchangePriceObservation : Type 0 where
  pub exchange_provider : Provider
  pub transport_provider_id : ℕ
  pub event_id : ℕ
  pub market_id : ℕ
  pub selection_id : ℕ
  pub decimal_price : Decimal
  pub status : QuoteStatus
  pub side : Option ExchangeSide
  pub available_stake : Option Decimal
  pub commission_rate : Option Decimal
  pub commission_scope : Option ℕ
  pub settlement_rules_verified : Bool

-- `if value is not None` and the test of it.
abbrev pub fails : Option Decimal → (Decimal → Bool) → Bool
fails none test = false
fails (some d) test = test d

-- `ExchangePriceObservation.__post_init__`
unfoldable pub validate_price : ExchangePriceObservation → Option ExchangePriceObservation
unfolding dec_leb dec_ltb
validate_price p =
    checked
      (not (is_exchange p.exchange_provider.kind)
        ∷ dec_leb p.decimal_price (dec_of 1)
        ∷ fails p.available_stake (λ d. dec_leb d (dec_of 0))
        ∷ fails p.commission_rate (λ d. dec_ltb d (dec_of 0) || dec_leb (dec_of 1) d)
        ∷ [])
      p

-- The blockers of `assess_exchange_price_support`.
pub data Blocker : Type 0 where
  not_active side_missing liquidity_missing : Blocker
  commission_missing scope_missing rules_not_verified : Blocker

abbrev pub block : Bool → Blocker → List Blocker → List Blocker
block test b rest = if test then b ∷ rest else rest

-- `assess_exchange_price_support`; a price is eligible where nothing blocks it.
unfoldable pub assess_exchange_price_support : ExchangePriceObservation → List Blocker
unfolding is_active
assess_exchange_price_support p = block (not (is_active p.status)) Blocker.not_active (
    block (is_none p.side) Blocker.side_missing (
      block (is_none p.available_stake) Blocker.liquidity_missing (
        block (is_none p.commission_rate) Blocker.commission_missing (
          block (is_none p.commission_scope) Blocker.scope_missing
            (block (not p.settlement_rules_verified) Blocker.rules_not_verified [])))))

abbrev pub is_eligible : List Blocker → Bool
is_eligible [] = true
is_eligible (b ∷ bs) = false

pub record ExchangeStake : Type 0 where
  pub price : ExchangePriceObservation
  pub stake : Decimal

-- `stake > available`, where a missing one raises too.
abbrev pub is_over : Decimal → Option Decimal → Bool
is_over stake none = true
is_over stake (some available) = dec_ltb available stake

-- `ExchangeStake.__post_init__`
unfoldable pub validate_exchange_stake : ExchangeStake → Option ExchangeStake
unfolding assess_exchange_price_support dec_leb dec_ltb
validate_exchange_stake s =
    checked
      (not (is_eligible (assess_exchange_price_support s.price))
        ∷ dec_leb s.stake (dec_of 0)
        ∷ is_over s.stake s.price.available_stake
        ∷ [])
      s

-- `lay_liability`
unfoldable pub lay_liability : Decimal → Decimal → Option Decimal
unfolding dec_leb ctx_mul ctx_sub
lay_liability stake price =
    checked (dec_leb stake (dec_of 0) ∷ dec_leb price (dec_of 1) ∷ [])
      (ctx_mul stake (ctx_sub price (dec_of 1)))

-- `ExchangeStake.liability`
unfoldable pub liability : ExchangeStake → Option Decimal
unfolding lay_liability
liability s = elim s.price.side [
  | some ExchangeSide.lay ↦ lay_liability s.stake s.price.decimal_price
  | some ExchangeSide.back ↦ some s.stake
  | none ↦ some s.stake
]

pub record BookmakerBackStake : Type 0 where
  pub quote : OddsQuote
  pub price_provider : Provider
  pub stake : Decimal

-- `BookmakerBackStake.__post_init__`
unfoldable pub validate_back : BookmakerBackStake → Option BookmakerBackStake
unfolding is_active dec_leb
validate_back b =
    checked
      (not (is_bookmaker b.price_provider.kind)
        ∷ not (nat_beq b.price_provider.id b.quote.provider_id)
        ∷ not (is_active b.quote.status)
        ∷ dec_leb b.stake (dec_of 0)
        ∷ [])
      b
