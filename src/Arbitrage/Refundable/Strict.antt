-- ===== src/Arbitrage/Refundable/Strict.antt =====
-- arbitrage/refundable.py: a shared refund leaves no strict profit, and nothing else is refused.
use arbiscan_arbitrage_scann.Prelude.{
  ℕ, Bool, true, false, not, ◌&&◌, List, [], ◌∷◌, ◌≡◌, refl, subst, ◌∙◌, length, All, Bool-cases,
  inl, inr, arith,
}
use arbiscan_arbitrage_scann.Prelude.Sort.{length-sort_by}
use arbiscan_arbitrage_scann.Domain.{Decimal, dec_ltb, dec_eqb, dec_of, OddsQuote}
use arbiscan_arbitrage_scann.Domain.Number.{dec_eqb_refl, dec_leb_refl}
use arbiscan_arbitrage_scann.Domain.Context.{ctx_sub}
use arbiscan_arbitrage_scann.Domain.Grid.{dec_min}
use arbiscan_arbitrage_scann.Domain.Grid.Laws.{ctx_sub_positive, dec_min-least}
use arbiscan_arbitrage_scann.Arbitrage.Fraction.{ok, require_passed}
use arbiscan_arbitrage_scann.Arbitrage.Market
use arbiscan_arbitrage_scann.Arbitrage.Market.{
  ArbitrageEvaluation, bool_eqb, evaluate_market, evaluation_of, by_selection, by_value,
  expected_flag, exceeds,
}
use arbiscan_arbitrage_scann.Arbitrage.Market.Sound.{Passed, evaluate_market-Passed}
use arbiscan_arbitrage_scann.Arbitrage.Refundable.{
  RefundableTwoWayEvaluation, is_two, quote_guards, metric_guards, expected_refundable,
  expected_strict, refundable_evaluation, refundable_of, evaluate_refundable_two_way_market,
}

-- The worst margin is never positive.
worst_never_positive :
    (multiplier : Decimal)
    → dec_ltb (dec_of 0) (ctx_sub (dec_min multiplier (dec_of 1)) (dec_of 1)) ≡ false
unfolding dec_ltb
worst_never_positive multiplier =
    let worst = dec_min multiplier (dec_of 1) in
    elim (Bool-cases (dec_ltb (dec_of 0) (ctx_sub worst (dec_of 1)))) [
      | inl h ↦
          ground
            (arith, ctx_sub_positive worst (dec_of 1) h, (dec_min-least multiplier (dec_of 1)).1)
      | inr h ↦ h
    ]

same : (d : Decimal) → not (dec_eqb d d) ≡ false
same d = rw (dec_eqb_refl d) refl

same_flag : (b : Bool) → not (bool_eqb b b) ≡ false
same_flag true = refl
same_flag false = refl

refundable_of-quotes :
    (e : ArbitrageEvaluation) (threshold : Decimal)
    → (is_two e.quotes && is_two e.expected_selection_ids) ≡ true
    → All (λ g. g.0 ≡ false) (Market.quote_guards e)
    → All (λ g. g.0 ≡ false) (quote_guards (refundable_of e threshold))
unfolding quote_guards refundable_of Market.quote_guards
refundable_of-quotes e threshold two (_, (_, (g3, (g4, (g5, (g6, (_, (g8, _)))))))) =
    (rw two refl, (g3, (g4, (g5, (g6, (g8, tt))))))

refundable_of-metrics :
    (e : ArbitrageEvaluation)
    → All (λ g. g.0 ≡ false) (Market.metric_guards e)
    → All (λ g. g.0 ≡ false) (metric_guards (refundable_of e e.minimum_profit_margin))
unfolding metric_guards refundable_of Market.metric_guards expected_refundable expected_strict
    expected_flag exceeds
refundable_of-metrics e (g1, (g2, (g3, (g4, (g5, _))))) =
    let worst = dec_min e.return_multiplier (dec_of 1) in
    let margin = ctx_sub worst (dec_of 1) in
    (
      g1,
      (
        g2,
        (
          same (dec_of 1),
          (
            g3,
            (
              g4,
              (
                same worst,
                (
                  same margin,
                  (
                    ground (arith, dec_leb_refl (dec_of 1)),
                    (same_flag (dec_ltb (dec_of 0) margin), tt),
                  ),
                ),
              ),
            ),
          ),
        ),
      ),
    )

-- The evaluation has the two quotes and the two selections, sorted, and the threshold.
Passed-two :
    (first : OddsQuote) (others : List OddsQuote) (expected : List ℕ) (threshold : Decimal)
    (e : ArbitrageEvaluation)
    → Passed first others expected threshold e
    → (is_two (first ∷ others) && is_two expected) ≡ true
    → ((is_two e.quotes && is_two e.expected_selection_ids) ≡ true)
      × (e.minimum_profit_margin ≡ threshold)
unfolding evaluation_of
Passed-two first others expected threshold e p two =
    rw (p.built, length-sort_by by_selection (first ∷ others), length-sort_by by_value expected)
      (two, refl)

two_of :
    (quotes : List OddsQuote) (expected : List ℕ)
    → length quotes ≡ 2
    → length expected ≡ 2
    → (is_two quotes && is_two expected) ≡ true
two_of quotes expected h k = rw (h, k) refl

-- Where `evaluate_market` evaluates two quotes on two selections, the market with a refund has an
-- evaluation too: a refundable arbitrage exactly where the two decisive states are an arbitrage, and
-- never a strict profit, since its margin in the worst state is not positive.
pub evaluate_refundable_two_way_market-never_strict :
    (quotes : List OddsQuote) (expected : List ℕ) (threshold : Decimal) (e : ArbitrageEvaluation)
    → length quotes ≡ 2
    → length expected ≡ 2
    → evaluate_market quotes expected threshold ≡ ok e
    → (r : RefundableTwoWayEvaluation) × (evaluate_refundable_two_way_market quotes expected
          threshold
        ≡ ok r)
      × (r.is_refundable_arbitrage ≡ e.is_arbitrage)
      × (r.has_strict_guaranteed_profit ≡ false)
      × (dec_ltb (dec_of 0) r.worst_case_profit_margin ≡ false)
unfolding evaluate_refundable_two_way_market refundable_evaluation refundable_of
evaluate_refundable_two_way_market-never_strict [] expected threshold e h k evaluated =
    absurd (omega (arith, h))
evaluate_refundable_two_way_market-never_strict (first ∷ others) expected threshold e h k
      evaluated =
    let p = evaluate_market-Passed first others expected threshold e evaluated in
    let given = two_of (first ∷ others) expected h k in
    let (two, kept) = Passed-two first others expected threshold e p given in
    let r = refundable_of e threshold in
    let strict = worst_never_positive e.return_multiplier in
    (
      r,
      rw (given, evaluated)
          (require_passed (quote_guards r) _ (refundable_of-quotes e threshold two p.quotes)
            ∙ require_passed (metric_guards r) (ok r) (
                subst (λ t. All (λ g. g.0 ≡ false) (metric_guards (refundable_of e t))) kept
                  (refundable_of-metrics e p.metrics))),
      refl,
      strict,
      strict,
    )
