-- ===== src/Arbitrage/Market/Build.antt =====
-- arbitrage/core.py: an opportunity can be built from every arbitrage that `evaluate_market` reports.
use arbiscan_arbitrage_scann.Prelude.{
  ℕ, ◌≡◌, refl, ap, suc, Bool, true, false, not, ◌&&◌, List, [], ◌∷◌, All, length, nat_eq, arith,
  &&-true,
}
use arbiscan_arbitrage_scann.Domain.{Decimal, dec_leb, dec_ltb, dec_of, OddsQuote}
use arbiscan_arbitrage_scann.Domain.Number.{dec_ltb-true}
use arbiscan_arbitrage_scann.Arbitrage.Fraction.{ok, require_passed}
use arbiscan_arbitrage_scann.Arbitrage.Market.{
  ArbitrageEvaluation, exceeds, quote_guards, metric_guards, evaluate_market, expected_flag,
  bool_eqb, build_opportunity, opportunity, opportunity_guards, quote_ids, opportunity_of,
}
use arbiscan_arbitrage_scann.Arbitrage.Market.Sound.{evaluate_market-Passed}

bool_eqb-true : (a b : Bool) → a ≡ true → not (bool_eqb a b) ≡ false → b ≡ true
bool_eqb-true a b e h = ground arith

expected_flag-true :
    (e : ArbitrageEvaluation)
    → expected_flag e ≡ true
    → (dec_leb (dec_of 1) e.implied_probability_sum ≡ false)
      × (dec_leb e.theoretical_profit_margin (dec_of 0) ≡ false)
unfolding expected_flag exceeds
expected_flag-true e h =
    let below = dec_ltb e.implied_probability_sum (dec_of 1) in
    let positive = dec_ltb (dec_of 0) e.theoretical_profit_margin in
    let enough = dec_leb e.minimum_profit_margin e.theoretical_profit_margin in
    let (low, margin) = &&-true below (positive && enough) h in
    (
      dec_ltb-true e.implied_probability_sum (dec_of 1) low,
      dec_ltb-true (dec_of 0) e.theoretical_profit_margin (&&-true positive enough margin).0,
    )

length-quote_ids : (quotes : List OddsQuote) → length (quote_ids quotes) ≡ length quotes
length-quote_ids [] = refl
length-quote_ids (q ∷ qs) = ap suc (length-quote_ids qs)

-- The guards of `Opportunity` on an evaluation that passed its own.
opportunity_passes :
    (e : ArbitrageEvaluation) (id detected_at : ℕ)
    → e.is_arbitrage ≡ true
    → All (λ g. g.0 ≡ false) (quote_guards e)
    → All (λ g. g.0 ≡ false) (metric_guards e)
    → All (λ g. g.0 ≡ false) (opportunity_guards (opportunity_of e id detected_at))
unfolding quote_guards metric_guards opportunity_guards opportunity_of
opportunity_passes e id detected_at flag quotes metrics =
    let (below, margin) =
      expected_flag-true e
        (bool_eqb-true e.is_arbitrage (expected_flag e) flag metrics.1.1.1.1.0) in
    (
      rw (length-quote_ids e.quotes) quotes.0,
      (quotes.1.1.1.1.1.0, (metrics.0, (below, (margin, tt)))),
    )

evaluated_guards :
    (quotes : List OddsQuote) (expected : List ℕ) (threshold : Decimal) (e : ArbitrageEvaluation)
    → evaluate_market quotes expected threshold ≡ ok e
    → All (λ g. g.0 ≡ false) (quote_guards e) × All (λ g. g.0 ≡ false) (metric_guards e)
unfolding evaluate_market
evaluated_guards [] expected threshold e h = cc
evaluated_guards (first ∷ others) expected threshold e h =
    let p = evaluate_market-Passed first others expected threshold e h in (p.quotes, p.metrics)

-- From every arbitrage that `evaluate_market` reports, `build_opportunity` makes an opportunity: none
-- of the checks of Opportunity fails.
pub build_opportunity_total :
    (quotes : List OddsQuote) (expected : List ℕ) (threshold : Decimal) (e : ArbitrageEvaluation)
    (id detected_at : ℕ)
    → evaluate_market quotes expected threshold ≡ ok e
    → e.is_arbitrage ≡ true
    → build_opportunity e id detected_at ≡ ok (opportunity_of e id detected_at)
unfolding build_opportunity opportunity
build_opportunity_total quotes expected threshold e id detected_at h flag =
    let (guards, metrics) = evaluated_guards quotes expected threshold e h in
    rw flag (
      require_passed (opportunity_guards (opportunity_of e id detected_at))
        (ok (opportunity_of e id detected_at))
        (opportunity_passes e id detected_at flag guards metrics))
