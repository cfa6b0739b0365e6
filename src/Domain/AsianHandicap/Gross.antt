-- ===== src/Domain/AsianHandicap/Gross.antt =====
-- domain/asian_handicap.py: a gross return is not negative.
use arbiscan_arbitrage_scann.Prelude.{
  ℕ, ◌+◌, ◌-◌, ◌*◌, ◌^◌, ◌≤◌, ◌≡◌, refl, arith, false, List, [], ◌∷◌, All,
}
use arbiscan_arbitrage_scann.Prelude.Int.{ℤ, pos, negsuc, pos_part, neg_part, sub_ℕ, ◌*ℤ◌}
use arbiscan_arbitrage_scann.Domain.Number.{Decimal, dec_of, dec_leb, dec_ltb}
use arbiscan_arbitrage_scann.Domain.Context.{ctx_mul, ctx_add, in_context}
use arbiscan_arbitrage_scann.Domain.Grid.Exact.{round_ratio_nonneg, sub_ℕ-pos}
use arbiscan_arbitrage_scann.Domain.AsianHandicap.{
  AsianHandicapComponent, AsianHandicapSettlementResult, component_result, component_return,
  gross_return, adjusted,
}

abbrev pub IsNonNegative : Decimal → Type 0
IsNonNegative d = neg_part d.coeff ≡ 0

in_context_nonneg : (x y den : ℕ) → y ≡ 0 → IsNonNegative (in_context (sub_ℕ x y) den)
unfolding in_context
in_context_nonneg x y den h =
    let le : 0 ≤ x = omega arith in rw (h, sub_ℕ-pos x 0 le) (round_ratio_nonneg (x - 0) den)

ctx_add_nonneg : (a b : Decimal) → IsNonNegative a → IsNonNegative b → IsNonNegative (ctx_add a b)
unfolding ctx_add
ctx_add_nonneg a b h k =
    in_context_nonneg (pos_part a.coeff * 10 ^ b.scale + pos_part b.coeff * 10 ^ a.scale)
      (neg_part b.coeff * 10 ^ a.scale + neg_part a.coeff * 10 ^ b.scale) (10 ^ (a.scale + b.scale))
      (rw (h, k) (omega arith))

ctx_mul_nonneg : (a b : Decimal) → IsNonNegative a → IsNonNegative b → IsNonNegative (ctx_mul a b)
unfolding ctx_mul ◌*ℤ◌
ctx_mul_nonneg a b h k =
    in_context_nonneg (pos_part a.coeff * pos_part b.coeff + neg_part a.coeff * neg_part b.coeff)
      (pos_part a.coeff * neg_part b.coeff + neg_part a.coeff * pos_part b.coeff)
      (10 ^ (a.scale + b.scale)) (rw (h, k) (omega arith))

component_return_nonneg :
    (odds : Decimal) (r : AsianHandicapSettlementResult)
    → IsNonNegative odds
    → IsNonNegative (component_return odds r)
unfolding component_return
component_return_nonneg odds r h = ground arith

pub gross_return_nonneg :
    (goals : ℤ) (odds gross : Decimal) (parts : List AsianHandicapComponent)
    → IsNonNegative odds
    → IsNonNegative gross
    → All (λ c. IsNonNegative c.stake_fraction) parts
    → IsNonNegative (gross_return goals odds gross parts)
unfolding gross_return
gross_return_nonneg goals odds gross [] h g k = g
gross_return_nonneg goals odds gross (c ∷ cs) h g k =
    let part = component_return odds (component_result (adjusted goals c.line)) in
    let more = ctx_mul c.stake_fraction part in
    gross_return_nonneg goals odds (ctx_add gross more) cs h
      (ctx_add_nonneg gross more g
        (ctx_mul_nonneg c.stake_fraction part k.0 (component_return_nonneg odds _ h)))
      k.1

pub odds_nonneg : (d : Decimal) → dec_leb d (dec_of 1) ≡ false → IsNonNegative d
unfolding dec_leb
odds_nonneg d h = go d.coeff d.scale h
  where
    go :
        (c : ℤ) (s : ℕ)
        → dec_leb (record { coeff = c; scale = s }) (dec_of 1) ≡ false
        → neg_part c ≡ 0
    go (pos n) s h = refl
    go (negsuc n) s h = absurd (ground arith)

pub not_below_zero : (d : Decimal) → IsNonNegative d → dec_ltb d (dec_of 0) ≡ false
unfolding dec_ltb dec_leb
not_below_zero d h = ground (arith, h)
