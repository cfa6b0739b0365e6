-- ===== src/Arbitrage/Exchange/Scenario.antt =====
-- arbitrage/exchange.py, the loop of `evaluate_exchange_portfolio` over the winners: what a portfolio
-- gains where a selection wins. The winnings of a group, a provider with a commission scope, are summed
-- before the commission is taken.
use arbiscan_arbitrage_scann.Prelude.{
  ℕ, ◌^◌, Bool, true, false, Option, some, List, [], ◌∷◌, map, list_eq, nat_beq, if◌then◌else◌,
}
use arbiscan_arbitrage_scann.Prelude.Dict.{Dict, lookup, insert}
use arbiscan_arbitrage_scann.Domain.{Decimal, dec_ltb, dec_of}
use arbiscan_arbitrage_scann.Domain.Context.{ctx_add, ctx_sub, ctx_mul, in_context, negate}
use arbiscan_arbitrage_scann.Domain.Grid.{sum_from, dec_sum}
use arbiscan_arbitrage_scann.Prelude.Options.{◌>>=◌}
use arbiscan_arbitrage_scann.Arbitrage.Exchange.{
  ExchangeSide, ExchangeStake, BookmakerBackStake, lay_liability,
}

pub record ExchangeScenarioProfit : Type 0 where
  pub winning_selection_id : ℕ
  pub gross_profit : Decimal
  pub commission : Decimal
  pub net_profit : Decimal

-- The key of a group, of a provider and a scope.
abbrev pub Scope : Type 0
Scope = List ℕ

-- `-d` in the context
unfoldable pub ctx_neg : Decimal → Decimal
unfolding in_context negate
ctx_neg d = in_context (negate d).coeff (10 ^ d.scale)

-- `stake * (price - 1)`
unfoldable pub winnings : Decimal → Decimal → Decimal
unfolding ctx_mul ctx_sub
winnings stake price = ctx_mul stake (ctx_sub price (dec_of 1))

-- The loop over the bookmaker legs, with the profit so far.
unfoldable pub bookmaker_profit : ℕ → Decimal → List BookmakerBackStake → Decimal
unfolding winnings ctx_add ctx_sub
bookmaker_profit winner profit [] = profit
bookmaker_profit winner profit (b ∷ bs) =
    bookmaker_profit winner
      (if nat_beq b.quote.selection_id winner
        then ctx_add profit (winnings b.stake b.quote.decimal_price)
        else ctx_sub profit b.stake)
      bs

-- The `profit` of an exchange leg, by its side and whether its selection wins.
unfoldable pub profit_of : (side : ExchangeSide) (wins : Bool) → Decimal → Decimal → Option Decimal
unfolding winnings ctx_neg lay_liability
profit_of ExchangeSide.back true stake price = some (winnings stake price)
profit_of ExchangeSide.back false stake price = some (ctx_neg stake)
profit_of ExchangeSide.lay true stake price = do
  loss ← lay_liability stake price
  some (ctx_neg loss)
profit_of ExchangeSide.lay false stake price = some stake

-- An exchange leg: `exchange_gross[key] += profit`.
unfoldable pub add_leg : ℕ → ExchangeStake → Dict Scope Decimal → Option (Dict Scope Decimal)
unfolding profit_of lookup insert ctx_add
add_leg winner s gross = do
  side ← s.price.side
  scope ← s.price.commission_scope
  profit ← profit_of side (nat_beq s.price.selection_id winner) s.stake s.price.decimal_price
  before ← lookup (s.price.exchange_provider.id ∷ scope ∷ []) gross
  some (insert (s.price.exchange_provider.id ∷ scope ∷ []) (ctx_add before profit) gross)

unfoldable pub add_legs : ℕ → List ExchangeStake → Dict Scope Decimal → Option (Dict Scope Decimal)
unfolding add_leg
add_legs winner [] gross = some gross
add_legs winner (s ∷ ss) gross = do gross' ← add_leg winner s gross; add_legs winner ss gross'

-- `gross * commission_rates[key]` of the groups that win.
unfoldable pub charges : Dict Scope Decimal → Dict Scope Decimal → Option (List Decimal)
unfolding lookup dec_ltb ctx_mul
charges rates [] = some []
charges rates ((scope, gross) ∷ groups) = do
  rest ← charges rates groups
  rate ← lookup scope rates
  some (if dec_ltb (dec_of 0) gross then ctx_mul gross rate ∷ rest else rest)

-- The scenario that a winner comes to, from the winnings of the bookmaker legs and the groups.
unfoldable pub settled : ℕ → Decimal → Dict Scope Decimal → List Decimal → ExchangeScenarioProfit
unfolding sum_from ctx_add ctx_sub
settled winner bookmaker gross fees =
    let commission = dec_sum fees in
    let gross_profit = ctx_add bookmaker (dec_sum (map (λ p. p.1) gross)) in
    record {
      winning_selection_id = winner;
      gross_profit = gross_profit;
      commission = commission;
      net_profit = ctx_sub gross_profit commission;
    }

-- A round of the loop, with `exchange_gross` at zero for each group.
unfoldable pub scenario :
    List BookmakerBackStake
    → List ExchangeStake
    → Dict Scope Decimal
    → ℕ
    → Option ExchangeScenarioProfit
unfolding bookmaker_profit add_legs charges settled
scenario backs stakes rates winner = do
  gross ← add_legs winner stakes (map (λ p. (p.0, dec_of 0)) rates)
  fees ← charges rates gross
  some (settled winner (bookmaker_profit winner (dec_of 0) backs) gross fees)

unfoldable pub scenarios :
    List BookmakerBackStake
    → List ExchangeStake
    → Dict Scope Decimal
    → List ℕ
    → Option (List ExchangeScenarioProfit)
unfolding scenario
scenarios backs stakes rates [] = some []
scenarios backs stakes rates (w ∷ ws) = do
  first ← scenario backs stakes rates w
  others ← scenarios backs stakes rates ws
  some (first ∷ others)
