-- ===== src/Arbitrage/Exchange/Portfolio.antt =====
-- arbitrage/exchange.py: `evaluate_exchange_portfolio`, its guards, the shared liquidity of a price level,
-- and the checks of ExchangePortfolioEvaluation.
use arbiscan_arbitrage_scann.Prelude.{
  ℕ, Bool, true, false, not, ◌&&◌, ◌||◌, Option, none, some, List, [], ◌∷◌, map, any, length, ltb,
  nat_beq, nat_eq, list_eq, option_beq, contains, all_distinct, checked, if◌then◌else◌,
}
use arbiscan_arbitrage_scann.Prelude.Dict.{Dict, lookup, insert}
use arbiscan_arbitrage_scann.Prelude.Sort.{sort_by}
use arbiscan_arbitrage_scann.Domain.{Decimal, dec_ltb, dec_eqb, dec_of}
use arbiscan_arbitrage_scann.Domain.Grid.{dec_min, min_of, default_add}
use arbiscan_arbitrage_scann.Prelude.Options.{◌>>=◌}
use arbiscan_arbitrage_scann.Arbitrage.Exchange.{
  ExchangeSide, ExchangePriceObservation, ExchangeStake, BookmakerBackStake, liability,
}
use arbiscan_arbitrage_scann.Arbitrage.Exchange.Scenario.{Scope, ExchangeScenarioProfit, scenarios}

abbrev pub side_eqb : Option ExchangeSide → Option ExchangeSide → Bool
side_eqb none none = true
side_eqb (some ExchangeSide.back) (some ExchangeSide.back) = true
side_eqb (some ExchangeSide.lay) (some ExchangeSide.lay) = true
side_eqb _ _ = false

-- The equality of two `liquidity_key`s, of decimals by their value.
unfoldable pub same_level : ExchangePriceObservation → ExchangePriceObservation → Bool
unfolding dec_eqb
same_level p r =
    nat_beq p.exchange_provider.id r.exchange_provider.id
    && nat_beq p.transport_provider_id r.transport_provider_id
    && nat_beq p.event_id r.event_id
    && nat_beq p.market_id r.market_id
    && nat_beq p.selection_id r.selection_id
    && side_eqb p.side r.side
    && dec_eqb p.decimal_price r.decimal_price
    && option_beq p.commission_scope r.commission_scope

-- An entry of `liquidity_usage` with the one of `liquidity_limits`, which has the same keys.
pub record Level : Type 0 where
  pub key : ExchangePriceObservation
  pub used : Decimal
  pub limit : Decimal

-- A leg is added to its level.
unfoldable pub note_level :
    ExchangePriceObservation → (stake available : Decimal) → List Level → List Level
unfolding same_level default_add dec_min
note_level p stake available [] =
    record { key = p; used = default_add (dec_of 0) stake; limit = available } ∷ []
note_level p stake available (l ∷ ls) =
    let rest = note_level p stake available ls in
    if same_level l.key p
    then record l { used = default_add l.used stake; limit = dec_min l.limit available } ∷ ls
    else l ∷ rest

unfoldable pub note_levels : List Level → List ExchangeStake → Option (List Level)
unfolding note_level
note_levels ls [] = some ls
note_levels ls (s ∷ ss) = do
  available ← s.price.available_stake
  note_levels (note_level s.price s.stake available ls) ss

abbrev pub exceeds : Level → Bool
exceeds l = dec_ltb l.limit l.used

abbrev pub differs : Option Decimal → Decimal → Bool
differs none rate = false
differs (some previous) rate = not (dec_eqb previous rate)

-- `commission_rates`
unfoldable pub commission_rates :
    Dict Scope Decimal → List ExchangeStake → Option (Dict Scope Decimal)
unfolding lookup insert dec_eqb
commission_rates rates [] = some rates
commission_rates rates (s ∷ ss) = do
  scope ← s.price.commission_scope
  rate ← s.price.commission_rate
  let key : Scope = s.price.exchange_provider.id ∷ scope ∷ []
  rates' ← checked (differs (lookup key rates) rate ∷ []) (insert key rate rates)
  commission_rates rates' ss

-- A leg outside of the event, the market or the expected selections.
abbrev pub is_foreign : (event market : ℕ) → List ℕ → (event' market' selection : ℕ) → Bool
is_foreign event market expected event' market' selection =
    not (nat_beq event' event) || not (nat_beq market' market) || not (contains expected selection)

unfoldable pub portfolio_guards :
    (event market : ℕ) → List BookmakerBackStake → List ExchangeStake → List ℕ → List Bool
portfolio_guards event market backs stakes expected =
    (ltb (length expected) 2 || not (all_distinct expected))
    ∷ any
        (λ s.
          is_foreign event market expected s.price.event_id s.price.market_id s.price.selection_id)
        stakes
    ∷ any
        (λ b.
          is_foreign event market expected b.quote.event_id b.quote.market_id b.quote.selection_id)
        backs
    ∷ []

-- `sum(... for lay legs, 0)`, with the sum so far.
unfoldable pub total_lay_liability : Decimal → List ExchangeStake → Option Decimal
unfolding liability default_add
total_lay_liability total [] = some total
total_lay_liability total (s ∷ ss) = elim s.price.side [
  | some ExchangeSide.lay ↦ do loss ← liability s; total_lay_liability (default_add total loss) ss
  | some ExchangeSide.back ↦ total_lay_liability total ss
  | none ↦ total_lay_liability total ss
]

pub record ExchangePortfolioEvaluation : Type 0 where
  pub event_id : ℕ
  pub market_id : ℕ
  pub scenarios : List ExchangeScenarioProfit
  pub total_lay_liability : Decimal
  pub guaranteed_profit : Decimal
  pub is_arbitrage : Bool

-- `min` of the net profits; there is none of no scenario.
unfoldable pub least_profit : List ExchangeScenarioProfit → Option Decimal
unfolding min_of
least_profit [] = none
least_profit (x ∷ xs) = some (min_of x.net_profit (map (λ y. y.net_profit) xs))

abbrev pub is_not : Option Decimal → Decimal → Bool
is_not none d = true
is_not (some least) d = not (dec_eqb d least)

abbrev pub unlike : Bool → Bool → Bool
unlike true b = not b
unlike false b = b

-- The tests of `ExchangePortfolioEvaluation.__post_init__`.
unfoldable pub evaluation_guards : ExchangePortfolioEvaluation → List Bool
unfolding least_profit dec_ltb dec_eqb
evaluation_guards e =
    ltb (length e.scenarios) 2
    ∷ not (all_distinct (map (λ x. x.winning_selection_id) e.scenarios))
    ∷ dec_ltb e.total_lay_liability (dec_of 0)
    ∷ is_not (least_profit e.scenarios) e.guaranteed_profit
    ∷ unlike e.is_arbitrage (dec_ltb (dec_of 0) e.guaranteed_profit)
    ∷ []

-- `ExchangePortfolioEvaluation.__post_init__`
unfoldable pub validate_evaluation :
    ExchangePortfolioEvaluation → Option ExchangePortfolioEvaluation
unfolding evaluation_guards
validate_evaluation e = checked (evaluation_guards e) e

-- The rest of `evaluate_exchange_portfolio`, behind the guards, with the ids of the first stake.
unfoldable pub evaluate_legs :
    (event market : ℕ)
    → List BookmakerBackStake
    → List ExchangeStake
    → List ℕ
    → Option ExchangePortfolioEvaluation
unfolding note_levels commission_rates scenarios total_lay_liability least_profit
    validate_evaluation sort_by
evaluate_legs event market backs stakes expected = do
  levels ← note_levels [] stakes
  within ← checked (any exceeds levels ∷ []) levels
  rates ← commission_rates [] stakes
  outcomes ← scenarios backs stakes rates (sort_by (λ s. s ∷ []) expected)
  lays ← total_lay_liability (dec_of 0) stakes
  least ← least_profit outcomes
  validate_evaluation (record {
    event_id = event;
    market_id = market;
    scenarios = outcomes;
    total_lay_liability = lays;
    guaranteed_profit = least;
    is_arbitrage = dec_ltb (dec_of 0) least;
  })

-- `evaluate_exchange_portfolio`
unfoldable pub evaluate_exchange_portfolio :
    List BookmakerBackStake → List ExchangeStake → List ℕ → Option ExchangePortfolioEvaluation
unfolding portfolio_guards evaluate_legs
evaluate_exchange_portfolio backs [] expected = none
evaluate_exchange_portfolio backs (s ∷ ss) expected =
    let event = s.price.event_id in
    let market = s.price.market_id in
    checked (portfolio_guards event market backs (s ∷ ss) expected) (s ∷ ss) >>= λ stakes.
    evaluate_legs event market backs stakes expected
