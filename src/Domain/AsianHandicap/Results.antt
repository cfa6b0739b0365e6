-- ===== src/Domain/AsianHandicap/Results.antt =====
-- domain/asian_handicap.py: the results of components, and the distance that they combine to.
use arbiscan_arbitrage_scann.Prelude.{zero, suc, ◌+◌, ◌*◌, ◌%◌, ◌≡◌, refl, arith, some, [], ◌∷◌}
use arbiscan_arbitrage_scann.Prelude.Int.{ℤ, pos, negsuc, pos_part, neg_part, sub_ℕ, eq_of_parts}
use arbiscan_arbitrage_scann.Domain.AsianHandicap.{AsianHandicapSettlementResult, combined}
use arbiscan_arbitrage_scann.Domain.AsianHandicap.Quarters.{sign_result}
use arbiscan_arbitrage_scann.Domain.AsianHandicap.Lines.{IsNext}

-- The result by the distance, the goal difference and the line together, in quarters of a goal.
abbrev pub result_of : ℤ → AsianHandicapSettlementResult
result_of (pos zero) = AsianHandicapSettlementResult.push
result_of (pos (suc zero)) = AsianHandicapSettlementResult.half_win
result_of (pos (suc (suc m))) = AsianHandicapSettlementResult.win
result_of (negsuc zero) = AsianHandicapSettlementResult.half_loss
result_of (negsuc (suc m)) = AsianHandicapSettlementResult.loss

abbrev pub distance : ℤ → ℤ → ℤ
distance goals u = sub_ℕ (4 * pos_part goals + pos_part u) (4 * neg_part goals + neg_part u)

abbrev pub IsEven : ℤ → Type 0
IsEven v = (pos_part v + neg_part v) % 2 ≡ 0

abbrev pub IsOdd : ℤ → Type 0
IsOdd v = (pos_part v + neg_part v) % 2 ≡ 1

-- One component, at an even distance.
pub combined_even : (v : ℤ) → IsEven v → combined (sign_result v ∷ []) ≡ some (result_of v)
unfolding combined
combined_even (pos zero) h = refl
combined_even (pos (suc zero)) h = absurd (omega (arith, h))
combined_even (pos (suc (suc m))) h = refl
combined_even (negsuc zero) h = absurd (omega (arith, h))
combined_even (negsuc (suc m)) h = refl

-- Two components, around an odd distance.
pub combined_around :
    (v : ℤ)
    → IsOdd v
    → (w x : ℤ) → IsNext w v
    → IsNext v x
    → combined (sign_result w ∷ sign_result x ∷ []) ≡ some (result_of v)
unfolding combined
combined_around (pos zero) h w x a b = absurd (omega (arith, h))
combined_around (pos (suc zero)) h w x a b =
    rw (eq_of_parts w (pos 0) (omega (arith, a)), eq_of_parts x (pos 2) (omega (arith, b))) refl
combined_around (pos (suc (suc zero))) h w x a b = absurd (omega (arith, h))
combined_around (pos (suc (suc (suc m)))) h w x a b =
    rw
      (
        eq_of_parts w (pos (suc (suc m))) (omega (arith, a)),
        eq_of_parts x (pos (suc (suc (suc (suc m))))) (omega (arith, b)),
      )
      refl
combined_around (negsuc zero) h w x a b =
    rw (eq_of_parts w (negsuc 1) (omega (arith, a)), eq_of_parts x (pos 0) (omega (arith, b))) refl
combined_around (negsuc (suc zero)) h w x a b = absurd (omega (arith, h))
combined_around (negsuc (suc (suc m))) h w x a b =
    rw
      (
        eq_of_parts w (negsuc (suc (suc (suc m)))) (omega (arith, a)),
        eq_of_parts x (negsuc (suc m)) (omega (arith, b)),
      )
      refl
