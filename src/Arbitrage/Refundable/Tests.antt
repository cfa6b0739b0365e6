-- ===== src/Arbitrage/Refundable/Tests.antt =====
-- arbitrage/refundable.py on a book of two outcomes.
use arbiscan_arbitrage_scann.Prelude.{◌≡◌, refl, true, false, [], ◌∷◌}
use arbiscan_arbitrage_scann.Domain.{dec_leb, dec_ltb, dec_eqb, dec_of}
use arbiscan_arbitrage_scann.Domain.Context.{round_ratio, ctx_sub}
use arbiscan_arbitrage_scann.Prelude.Sort.{sort_by}
use arbiscan_arbitrage_scann.Arbitrage.Fraction.{MathError, ok, err}
use arbiscan_arbitrage_scann.Arbitrage.Tests.{book, evaluation, evaluate-book, quote}
use arbiscan_arbitrage_scann.Arbitrage.Refundable.{
  RefundableTwoWayEvaluation, evaluate_refundable_two_way_market,
}
use arbiscan_arbitrage_scann.Arbitrage.Refundable.Strict.{
  evaluate_refundable_two_way_market-never_strict,
}

program : Unit {0}
unfolding evaluate_refundable_two_way_market dec_leb dec_ltb dec_eqb ctx_sub sort_by round_ratio
program = tt

evaluate_three :
    evaluate_refundable_two_way_market (quote 13 7 300 ∷ book) (5 ∷ 6 ∷ 7 ∷ []) (dec_of 0)
    ≡ err MathError.not_two
unfolding program
evaluate_three = refl

-- Both states win 5 percent, and a refund wins nothing.
evaluate-refund :
    (r : RefundableTwoWayEvaluation) × (evaluate_refundable_two_way_market book
        (5 ∷ 6 ∷ [])
        (dec_of 0)
      ≡ ok r)
    × (dec_eqb r.worst_case_return_multiplier (dec_of 1) ≡ true)
    × (dec_eqb r.worst_case_profit_margin (dec_of 0) ≡ true)
unfolding program
evaluate-refund = (_, refl, refl, refl)

evaluate_refundable_two_way_market-never_strict_example :
    (r : RefundableTwoWayEvaluation) × (evaluate_refundable_two_way_market book
        (5 ∷ 6 ∷ [])
        (dec_of 0)
      ≡ ok r)
    × (r.is_refundable_arbitrage ≡ true)
    × (r.has_strict_guaranteed_profit ≡ false)
    × (dec_ltb (dec_of 0) r.worst_case_profit_margin ≡ false)
evaluate_refundable_two_way_market-never_strict_example =
    evaluate_refundable_two_way_market-never_strict book (5 ∷ 6 ∷ []) (dec_of 0) evaluation refl
      refl evaluate-book
