-- ===== src/Arbitrage/Exchange/Sound.antt =====
-- arbitrage/exchange.py: what an evaluation that `evaluate_exchange_portfolio` returns holds.
use mathlib.Core.Option.{some-injective}
use arbiscan_arbitrage_scann.Prelude.{
  ℕ, true, Option, some, List, [], ◌∷◌, ◌≡◌, refl, sym, subst, ap, ◌↔◌, map, any, All, All-map,
  Bool-cases, inl, inr, list_eq, checked, checked-eq-some, arith,
}
use arbiscan_arbitrage_scann.Prelude.Dict.{Dict, lookup}
use arbiscan_arbitrage_scann.Prelude.Sort.{sort_by}
use arbiscan_arbitrage_scann.Domain.{Decimal, dec_leb, dec_ltb, dec_of}
use arbiscan_arbitrage_scann.Domain.Number.{dec_leb_trans}
use arbiscan_arbitrage_scann.Domain.Grid.{dec_min, min_of}
use arbiscan_arbitrage_scann.Domain.Grid.Laws.{min_of-least}
use arbiscan_arbitrage_scann.Prelude.Options.{>>=-eq-some}
use arbiscan_arbitrage_scann.Arbitrage.Exchange.{ExchangeStake, BookmakerBackStake}
use arbiscan_arbitrage_scann.Arbitrage.Exchange.Scenario.{
  Scope, ExchangeScenarioProfit, bookmaker_profit, add_legs, charges, settled, scenario, scenarios,
}
use arbiscan_arbitrage_scann.Arbitrage.Exchange.Portfolio.{
  ExchangePortfolioEvaluation, note_levels, exceeds, commission_rates, least_profit,
  total_lay_liability, validate_evaluation, evaluation_guards, evaluate_legs,
  evaluate_exchange_portfolio, portfolio_guards,
}
use arbiscan_arbitrage_scann.Arbitrage.Exchange.Liquidity.{used_at, IsWithin, note_levels-IsWithin}
use arbiscan_arbitrage_scann.Arbitrage.Exchange.Rates.{HasRate, commission_rates-HasRate}

scenario-winner :
    (backs : List BookmakerBackStake) (stakes : List ExchangeStake) (rates : Dict Scope Decimal)
    (w : ℕ) (x : ExchangeScenarioProfit)
    → scenario backs stakes rates w ≡ some x
    → x.winning_selection_id ≡ w
unfolding scenario settled
scenario-winner backs stakes rates w x h =
    let start = map (λ p. (p.0, dec_of 0)) rates in
    let (gross, _, h1) = >>=-eq-some (add_legs w stakes start) _ h in
    let (fees, _, h2) = >>=-eq-some (charges rates gross) _ h1 in
    let made = settled w (bookmaker_profit w (dec_of 0) backs) gross fees in
    ap (λ y. y.winning_selection_id) (sym (some-injective made x h2))

scenarios-winners :
    (backs : List BookmakerBackStake) (stakes : List ExchangeStake) (rates : Dict Scope Decimal)
    (ws : List ℕ) (xs : List ExchangeScenarioProfit)
    → scenarios backs stakes rates ws ≡ some xs
    → map (λ x. x.winning_selection_id) xs ≡ ws
unfolding scenarios
scenarios-winners backs stakes rates [] xs h =
    ap (map (λ x. x.winning_selection_id)) (sym (some-injective [] xs h))
scenarios-winners backs stakes rates (w ∷ ws) xs h =
    let (first, e, h1) = >>=-eq-some (scenario backs stakes rates w) _ h in
    let (others, f, h2) = >>=-eq-some (scenarios backs stakes rates ws) _ h1 in
    rw (← some-injective (first ∷ others) xs h2) (
      rw
        (
          scenario-winner backs stakes rates w first e,
          scenarios-winners backs stakes rates ws others f,
        )
        refl)

-- No scenario falls below the guaranteed profit, which is positive exactly if all are.
pub record IsLeast (least : Decimal) (xs : List ExchangeScenarioProfit) : Type 0 where
  pub lower : All (λ x. dec_leb least x.net_profit ≡ true) xs
  pub strict :
      (dec_ltb (dec_of 0) least ≡ true) ↔ All (λ x. dec_ltb (dec_of 0) x.net_profit ≡ true) xs

above_zero :
    (a b : Decimal) → dec_ltb (dec_of 0) a ≡ true → dec_leb a b ≡ true → dec_ltb (dec_of 0) b ≡ true
unfolding dec_ltb
above_zero a b h k = ground (arith, dec_leb_trans a b (dec_of 0))

min_of-positive :
    (d : Decimal) (ds : List Decimal)
    → dec_ltb (dec_of 0) d ≡ true
    → All (λ e. dec_ltb (dec_of 0) e ≡ true) ds
    → dec_ltb (dec_of 0) (min_of d ds) ≡ true
unfolding min_of dec_min
min_of-positive d [] h k = h
min_of-positive d (e ∷ es) h k = elim (Bool-cases (dec_ltb e d)) [
  | inl f ↦ rw f (min_of-positive e es k.0 k.1)
  | inr f ↦ rw f (min_of-positive d es h k.1)
]

All-profits :
    (P : Decimal → Type 0) (xs : List ExchangeScenarioProfit)
    → All P (map (λ x. x.net_profit) xs) ↔ All (λ x. P x.net_profit) xs
All-profits P [] = (λ h. tt, λ h. tt)
All-profits P (x ∷ xs) =
    let (to, back) = All-profits P xs in (λ h. (h.0, to h.1), λ h. (h.0, back h.1))

least_profit-IsLeast :
    (xs : List ExchangeScenarioProfit) (least : Decimal)
    → least_profit xs ≡ some least
    → IsLeast least xs
unfolding least_profit
least_profit-IsLeast [] least h = cc
least_profit-IsLeast (x ∷ xs) least h =
    let nets = map (λ y. y.net_profit) xs in
    let best = min_of x.net_profit nets in
    let (below, others) = min_of-least x.net_profit nets in
    let lower : All (λ y. dec_leb best y.net_profit ≡ true) (x ∷ xs) =
      (below, (All-profits (λ d. dec_leb best d ≡ true) xs).0 others) in
    subst (λ d. IsLeast d (x ∷ xs)) (some-injective best least h)
      (record {
        lower = lower;
        strict = (
          λ positive. All-map _ _ (λ y k. above_zero best y.net_profit positive k) (x ∷ xs) lower,
          λ k.
              min_of-positive x.net_profit nets k.0
                ((All-profits (λ d. dec_ltb (dec_of 0) d ≡ true) xs).1 k.1),
        );
      })

pub record IsSound (stakes : List ExchangeStake) (expected : List ℕ)
    (e : ExchangePortfolioEvaluation) : Type 0 where
  pub winners : map (λ x. x.winning_selection_id) e.scenarios ≡ sort_by (λ s. s ∷ []) expected
  pub lower : All (λ x. dec_leb e.guaranteed_profit x.net_profit ≡ true) e.scenarios
  pub strict :
      (e.is_arbitrage ≡ true) ↔ All (λ x. dec_ltb (dec_of 0) x.net_profit ≡ true) e.scenarios
  pub liquidity :
      All (λ s. IsWithin (used_at s.price (dec_of 0) stakes) s.price.available_stake) stakes
  pub rates : (rate_of : Scope → Option Decimal) × All (λ s. HasRate rate_of s.price) stakes

validated : (m e : ExchangePortfolioEvaluation) → validate_evaluation m ≡ some e → m ≡ e
unfolding validate_evaluation
validated m e h = (checked-eq-some (evaluation_guards m) m e h).1

evaluate_legs-IsSound :
    (event market : ℕ) (backs : List BookmakerBackStake) (stakes : List ExchangeStake)
    (expected : List ℕ) (e : ExchangePortfolioEvaluation)
    → evaluate_legs event market backs stakes expected ≡ some e
    → IsSound stakes expected e
unfolding evaluate_legs
evaluate_legs-IsSound event market backs stakes expected e h =
    let (levels, noted, h1) = >>=-eq-some (note_levels [] stakes) _ h in
    let (_, within, h2) = >>=-eq-some (checked (any exceeds levels ∷ []) levels) _ h1 in
    let (rates, rated, h3) = >>=-eq-some (commission_rates [] stakes) _ h2 in
    let winners = sort_by (λ s. s ∷ []) expected in
    let (outcomes, ran, h4) = >>=-eq-some (scenarios backs stakes rates winners) _ h3 in
    let (lays, _, h5) = >>=-eq-some (total_lay_liability (dec_of 0) stakes) _ h4 in
    let (least, found, h6) = >>=-eq-some (least_profit outcomes) _ h5 in
    let made : ExchangePortfolioEvaluation = record {
      event_id = event;
      market_id = market;
      scenarios = outcomes;
      total_lay_liability = lays;
      guaranteed_profit = least;
      is_arbitrage = dec_ltb (dec_of 0) least;
    } in
    let bound = least_profit-IsLeast outcomes least found in
    subst (IsSound stakes expected) (validated made e h6) (record {
      winners = scenarios-winners backs stakes rates winners outcomes ran;
      lower = bound.lower;
      strict = bound.strict;
      liquidity =
          note_levels-IsWithin stakes levels noted
            (checked-eq-some (any exceeds levels ∷ []) levels _ within).0.0;
      rates = (λ scope. lookup scope rates, commission_rates-HasRate stakes [] rates rated);
    })

-- An evaluation of a portfolio that is returned has one scenario for each expected selection, in the
-- order of the selections; none has a net profit below the guaranteed one, and the portfolio is an
-- arbitrage exactly if the net profit of each is positive. The stakes of the exchange legs at a price
-- level, each addition rounded to 28 digits as in the code, add up to no more than each of the legs has
-- available, and the legs in one commission scope have one rate.
pub evaluate_exchange_portfolio-IsSound :
    (backs : List BookmakerBackStake) (stakes : List ExchangeStake) (expected : List ℕ)
    (e : ExchangePortfolioEvaluation)
    → evaluate_exchange_portfolio backs stakes expected ≡ some e
    → IsSound stakes expected e
unfolding evaluate_exchange_portfolio
evaluate_exchange_portfolio-IsSound backs [] expected e h = cc
evaluate_exchange_portfolio-IsSound backs (s ∷ ss) expected e h =
    let event = s.price.event_id in
    let market = s.price.market_id in
    let guards = portfolio_guards event market backs (s ∷ ss) expected in
    let (stakes, passed, h1) = >>=-eq-some (checked guards (s ∷ ss)) _ h in
    let (_, same) = checked-eq-some guards (s ∷ ss) stakes passed in
    subst (λ x. IsSound x expected e) (sym same)
      (evaluate_legs-IsSound event market backs stakes expected e h1)
