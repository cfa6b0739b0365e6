-- ===== src/Arbitrage/Market/Sound.antt =====
-- arbitrage/core.py: what a successful `evaluate_market` has established.
use mathlib.Core.List.{Perm}
use arbiscan_arbitrage_scann.Prelude.{
  ◌⊎◌, inl, inr, Bool-cases, ℕ, ◌≡◌, refl, sym, subst, true, false, not, ◌&&◌, List, [], ◌∷◌, All,
  nat_eq, arith, &&-true, All-map, any-All,
}
use arbiscan_arbitrage_scann.Prelude.Sort.{
  sort_by, sort_by-perm, sort_by-IsSortedBy, IsSortedBy, sort_by-All,
}
use arbiscan_arbitrage_scann.Domain.{Decimal, dec_ltb, dec_of, OddsQuote, QuoteStatus, is_active}
use arbiscan_arbitrage_scann.Arbitrage.Fraction.{
  Fraction, MathError, ok, >>=-eq-ok, ok-injective, require, require-eq-ok, below_one,
  exact_implied_sum,
}
use arbiscan_arbitrage_scann.Arbitrage.ImpliedSum.{sum, Beats, below_one-iff_stakes}
use arbiscan_arbitrage_scann.Arbitrage.Market.{
  ArbitrageEvaluation, prices, by_selection, by_value, exceeds, quote_guards, metric_guards,
  arbitrage_evaluation, book_guards, evaluation_of, evaluate_book, evaluate_total, evaluate_market,
}

-- What `evaluate_market` went through when it returned `e`.
pub record Passed (first : OddsQuote) (others : List OddsQuote) (expected : List ℕ)
    (threshold : Decimal) (e : ArbitrageEvaluation) : Type 0 where
  pub total : Fraction
  pub book : All (λ g. g.0 ≡ false) (book_guards first (first ∷ others) expected)
  pub summed : exact_implied_sum (prices (sort_by by_selection (first ∷ others))) ≡ ok total
  pub built :
      e
      ≡ evaluation_of first
          (sort_by by_selection (first ∷ others))
          (sort_by by_value expected)
          threshold
          total
  pub quotes : All (λ g. g.0 ≡ false) (quote_guards e)
  pub metrics : All (λ g. g.0 ≡ false) (metric_guards e)

arbitrage_evaluation-ok :
    (e e' : ArbitrageEvaluation)
    → arbitrage_evaluation e ≡ ok e'
    → (e' ≡ e) × All (λ g. g.0 ≡ false) (quote_guards e) × All (λ g. g.0 ≡ false) (metric_guards e)
unfolding arbitrage_evaluation
arbitrage_evaluation-ok e e' h =
    let (quotes, h1) = require-eq-ok (quote_guards e) (require (metric_guards e) (ok e)) h in
    let (metrics, h2) = require-eq-ok (metric_guards e) (ok e) h1 in
    (sym (ok-injective h2), quotes, metrics)

evaluate_book-ok :
    (first : OddsQuote) (quotes : List OddsQuote) (expected : List ℕ) (threshold : Decimal)
    (e : ArbitrageEvaluation)
    → evaluate_book first quotes expected threshold ≡ ok e
    → (total : Fraction) × (exact_implied_sum (prices (sort_by by_selection quotes)) ≡ ok total)
      × (e
          ≡ evaluation_of first
              (sort_by by_selection quotes)
              (sort_by by_value expected)
              threshold
              total)
      × All (λ g. g.0 ≡ false) (quote_guards e)
      × All (λ g. g.0 ≡ false) (metric_guards e)
unfolding evaluate_book evaluate_total
evaluate_book-ok first quotes expected threshold e h =
    let (total, summed, rest) =
      >>=-eq-ok (exact_implied_sum (prices (sort_by by_selection quotes)))
        (evaluate_total first (sort_by by_selection quotes) expected threshold) h in
    let candidate =
      evaluation_of first (sort_by by_selection quotes) (sort_by by_value expected) threshold
        total in
    let (_, built) =
      require-eq-ok ((dec_ltb threshold (dec_of 0), MathError.negative_threshold) ∷ [])
        (arbitrage_evaluation candidate) rest in
    let (same, guards, metrics) = arbitrage_evaluation-ok candidate e built in
    (
      total,
      summed,
      same,
      subst (λ x. All (λ g. g.0 ≡ false) (quote_guards x)) (sym same) guards,
      subst (λ x. All (λ g. g.0 ≡ false) (metric_guards x)) (sym same) metrics,
    )

pub evaluate_market-Passed :
    (first : OddsQuote) (others : List OddsQuote) (expected : List ℕ) (threshold : Decimal)
    (e : ArbitrageEvaluation)
    → evaluate_market (first ∷ others) expected threshold ≡ ok e
    → Passed first others expected threshold e
unfolding evaluate_market
evaluate_market-Passed first others expected threshold e h =
    let (book, h1) = require-eq-ok (book_guards first (first ∷ others) expected) _ h in
    let (total, summed, built, quotes, metrics) =
      evaluate_book-ok first (first ∷ others) expected threshold e h1 in
    record {
      total = total;
      book = book;
      summed = summed;
      built = built;
      quotes = quotes;
      metrics = metrics;
    }

is_active→eq : (q : OddsQuote) → not (is_active q.status) ≡ false → q.status ≡ QuoteStatus.active
unfolding is_active
is_active→eq q h = ground arith

-- Every quote passed the guard on its status.
all_active :
    (first : OddsQuote) (quotes : List OddsQuote) (expected : List ℕ)
    → All (λ g. g.0 ≡ false) (book_guards first quotes expected)
    → All (λ q. q.status ≡ QuoteStatus.active) quotes
unfolding book_guards
all_active first quotes expected guards =
    All-map _ _ is_active→eq quotes
      (any-All (λ q. not (is_active q.status)) quotes guards.1.1.1.1.1.0)

Passed-sound :
    (first : OddsQuote) (others : List OddsQuote) (expected : List ℕ) (threshold : Decimal)
    (e : ArbitrageEvaluation)
    → Passed first others expected threshold e
    → Perm e.quotes (first ∷ others)
      × All (λ q. q.status ≡ QuoteStatus.active) e.quotes
      × (e.minimum_profit_margin ≡ threshold)
      × IsSortedBy by_selection e.quotes
      × ((e.is_arbitrage ≡ false)
          ⊎ ((exceeds e.theoretical_profit_margin threshold ≡ true)
              × ((stakes : List ℕ) × Beats (sum stakes) (prices e.quotes) stakes)))
unfolding evaluation_of
Passed-sound first others expected threshold e p = rw p.built (
  sort_by-perm by_selection (first ∷ others),
  sort_by-All by_selection _ _ (all_active first (first ∷ others) expected p.book),
  refl,
  sort_by-IsSortedBy by_selection (first ∷ others),
  elim (Bool-cases (below_one p.total && _)) [
    | inl flag ↦
        let (below, margin) = &&-true (below_one p.total) _ flag in
        inr (margin, (below_one-iff_stakes _ p.total p.summed).0 below)
    | inr flag ↦ inl flag
  ],
)

-- A successful evaluation is about the given quotes, each once and in the order of their selections,
-- all of them active, and about the given threshold. If it reports an arbitrage, its margin is above
-- zero and no less than the threshold, and there are stakes on its quotes of which every outcome pays
-- more than all of them together.
pub evaluate_market_sound :
    (quotes : List OddsQuote) (expected : List ℕ) (threshold : Decimal) (e : ArbitrageEvaluation)
    → evaluate_market quotes expected threshold ≡ ok e
    → Perm e.quotes quotes
      × All (λ q. q.status ≡ QuoteStatus.active) e.quotes
      × (e.minimum_profit_margin ≡ threshold)
      × IsSortedBy by_selection e.quotes
      × ((e.is_arbitrage ≡ false)
          ⊎ ((exceeds e.theoretical_profit_margin threshold ≡ true)
              × ((stakes : List ℕ) × Beats (sum stakes) (prices e.quotes) stakes)))
unfolding evaluate_market
evaluate_market_sound [] expected threshold e h = cc
evaluate_market_sound (first ∷ others) expected threshold e h =
    Passed-sound first others expected threshold e
      (evaluate_market-Passed first others expected threshold e h)
