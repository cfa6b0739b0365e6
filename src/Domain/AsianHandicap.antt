-- ===== src/Domain/AsianHandicap.antt =====
-- domain/asian_handicap.py: the lines of Asian handicaps and their settlement. A quarter line is two
-- half stakes on the lines around it. `none` is the raised DomainValidationError.
pub mod Quarters
pub mod Lines
pub mod Results
pub mod Gross
pub mod Settled
mod Tests
use arbiscan_arbitrage_scann.Prelude.{
  ℕ, suc, ◌+◌, ◌-◌, ◌*◌, ◌/◌, ◌%◌, ◌^◌, Bool, true, false, not, ◌&&◌, ◌||◌, Option, none, some,
  List, [], ◌∷◌, map, any, nat_beq, nat_eq, same_set, checked, if◌then◌else◌,
}
use arbiscan_arbitrage_scann.Prelude.Options.{◌>>=◌}
use arbiscan_arbitrage_scann.Prelude.Int.{ℤ, pos, negsuc, pos_part, neg_part, sub_ℕ}
use arbiscan_arbitrage_scann.Domain.Number.{Decimal, dec_leb, dec_ltb, dec_eqb, dec_of}
use arbiscan_arbitrage_scann.Domain.Context.{ctx_add, ctx_mul}
use arbiscan_arbitrage_scann.Domain.Grid.{ctx_div, floor_value, ceil_value, default_add}

pub data AsianHandicapLineClass : Type 0 where
  half_goal integer quarter unsupported : AsianHandicapLineClass

pub data AsianHandicapSettlementResult : Type 0 where
  win half_win push half_loss loss : AsianHandicapSettlementResult

pub record AsianHandicapComponent : Type 0 where
  pub line : Decimal
  pub stake_fraction : Decimal

-- `AsianHandicapComponent.__post_init__`
unfoldable pub validate_component : AsianHandicapComponent → Option AsianHandicapComponent
unfolding dec_leb dec_ltb
validate_component c =
    checked ((dec_leb c.stake_fraction (dec_of 0) || dec_ltb (dec_of 1) c.stake_fraction) ∷ []) c

pub record AsianHandicapLineProfile : Type 0 where
  pub line : Decimal
  pub line_class : AsianHandicapLineClass
  pub components : List AsianHandicapComponent

-- `AsianHandicapLineProfile.__post_init__`, for a line that is supported and one that is not.
-- `sum(fractions, 0)`
unfoldable pub default_sum : Decimal → List Decimal → Decimal
unfolding default_add
default_sum total [] = total
default_sum total (d ∷ ds) = default_sum (default_add total d) ds

unfoldable pub is_bad_total : AsianHandicapLineClass → List AsianHandicapComponent → Bool
unfolding default_sum dec_eqb
is_bad_total AsianHandicapLineClass.unsupported [] = false
is_bad_total AsianHandicapLineClass.unsupported (c ∷ cs) = true
is_bad_total _ cs =
    not (dec_eqb (default_sum (dec_of 0) (map (λ c. c.stake_fraction) cs)) (dec_of 1))

unfoldable pub validate_profile : AsianHandicapLineProfile → Option AsianHandicapLineProfile
unfolding is_bad_total
validate_profile p = checked (is_bad_total p.line_class p.components ∷ []) p

pub record AsianHandicapSettlement : Type 0 where
  pub result : AsianHandicapSettlementResult
  pub gross_return_multiplier : Decimal

-- `AsianHandicapSettlement.__post_init__`
unfoldable pub validate_settlement : AsianHandicapSettlement → Option AsianHandicapSettlement
unfolding dec_ltb
validate_settlement s = checked (dec_ltb s.gross_return_multiplier (dec_of 0) ∷ []) s

-- `units % 4`, which is not negative.
abbrev pub remainder : ℤ → ℕ
remainder (pos n) = n % 4
remainder (negsuc n) = 3 - n % 4

-- `AsianHandicapComponent(line, stake_fraction)`
unfoldable pub component : Decimal → Decimal → Option AsianHandicapComponent
unfolding validate_component
component line fraction = validate_component (record { line = line; stake_fraction = fraction })

-- The profile of a line that is one component.
unfoldable pub whole_profile : Decimal → AsianHandicapLineClass → Option AsianHandicapLineProfile
unfolding component validate_profile
whole_profile line class = do
  c ← component line (dec_of 1)
  validate_profile (record { line = line; line_class = class; components = c ∷ [] })

-- 0.5
abbrev pub half : Decimal
half = record { coeff = pos 5; scale = 1 }

-- `doubled.to_integral_value(rounding=...) / 2`, of the two roundings.
unfoldable pub lower_line : Decimal → Decimal
unfolding ctx_div floor_value ctx_mul
lower_line line = ctx_div (floor_value (ctx_mul line (dec_of 2))) (dec_of 2)

unfoldable pub upper_line : Decimal → Decimal
unfolding ctx_div ceil_value ctx_mul
upper_line line = ctx_div (ceil_value (ctx_mul line (dec_of 2))) (dec_of 2)

-- The profile of a quarter line.
unfoldable pub quarter_profile : Decimal → Option AsianHandicapLineProfile
unfolding lower_line upper_line component validate_profile dec_eqb
quarter_profile line = do
  differ ← checked (dec_eqb (lower_line line) (upper_line line) ∷ []) line
  lower ← component (lower_line line) half
  upper ← component (upper_line line) half
  validate_profile (record {
    line = line;
    line_class = AsianHandicapLineClass.quarter;
    components = lower ∷ upper ∷ [];
  })

unfoldable pub profile_at : Decimal → ℕ → Option AsianHandicapLineProfile
unfolding whole_profile quarter_profile
profile_at line rest =
    if nat_beq rest 0
    then whole_profile line AsianHandicapLineClass.integer
    else if nat_beq rest 2
    then whole_profile line AsianHandicapLineClass.half_goal
    else quarter_profile line

-- `asian_handicap_line_profile`. Whether a number is integral does not depend on the rounding.
unfoldable pub asian_handicap_line_profile : Decimal → Option AsianHandicapLineProfile
unfolding ctx_mul floor_value dec_eqb validate_profile profile_at
asian_handicap_line_profile line =
    let units = ctx_mul line (dec_of 4) in
    if not (dec_eqb units (floor_value units))
    then validate_profile
        (record { line = line; line_class = AsianHandicapLineClass.unsupported; components = [] })
    else profile_at line (remainder (floor_value units).coeff)

-- The result and the return of a component, from `Decimal(goal_difference) + component.line`.
unfoldable pub component_result : Decimal → AsianHandicapSettlementResult
unfolding dec_ltb dec_eqb
component_result adjusted =
    if dec_ltb (dec_of 0) adjusted
    then AsianHandicapSettlementResult.win
    else if dec_eqb adjusted (dec_of 0)
    then AsianHandicapSettlementResult.push
    else AsianHandicapSettlementResult.loss

unfoldable pub component_return : Decimal → AsianHandicapSettlementResult → Decimal
component_return odds AsianHandicapSettlementResult.win = odds
component_return odds AsianHandicapSettlementResult.push = dec_of 1
component_return odds _ = dec_of 0

-- `Decimal(goal_difference) + component.line`
unfoldable pub adjusted : ℤ → Decimal → Decimal
unfolding ctx_add
adjusted goal_difference line = ctx_add (record { coeff = goal_difference; scale = 0 }) line

unfoldable pub component_results :
    ℤ → List AsianHandicapComponent → List AsianHandicapSettlementResult
unfolding component_result adjusted
component_results goal_difference [] = []
component_results goal_difference (c ∷ cs) =
    component_result (adjusted goal_difference c.line) ∷ component_results goal_difference cs

-- `gross`, from its value so far.
unfoldable pub gross_return : ℤ → Decimal → Decimal → List AsianHandicapComponent → Decimal
unfolding component_result component_return adjusted ctx_add ctx_mul
gross_return goal_difference odds gross [] = gross
gross_return goal_difference odds gross (c ∷ cs) =
    let result = component_result (adjusted goal_difference c.line) in
    gross_return goal_difference odds
      (ctx_add gross (ctx_mul c.stake_fraction (component_return odds result))) cs

abbrev pub result_rank : AsianHandicapSettlementResult → ℕ
result_rank AsianHandicapSettlementResult.win = 0
result_rank AsianHandicapSettlementResult.half_win = 1
result_rank AsianHandicapSettlementResult.push = 2
result_rank AsianHandicapSettlementResult.half_loss = 3
result_rank AsianHandicapSettlementResult.loss = 4

-- `states == {...}`
abbrev pub are : List AsianHandicapSettlementResult → List AsianHandicapSettlementResult → Bool
are states row = same_set (map result_rank states) (map result_rank row)

-- The result of the set of the components' results.
unfoldable pub combined : List AsianHandicapSettlementResult → Option AsianHandicapSettlementResult
combined states =
    if are states (AsianHandicapSettlementResult.win ∷ [])
    then some AsianHandicapSettlementResult.win
    else if are states (AsianHandicapSettlementResult.loss ∷ [])
    then some AsianHandicapSettlementResult.loss
    else if are states (AsianHandicapSettlementResult.push ∷ [])
    then some AsianHandicapSettlementResult.push
    else if are states (AsianHandicapSettlementResult.win ∷ AsianHandicapSettlementResult.push ∷ [])
    then some AsianHandicapSettlementResult.half_win
    else if are states
        (AsianHandicapSettlementResult.loss ∷ AsianHandicapSettlementResult.push ∷ [])
    then some AsianHandicapSettlementResult.half_loss
    else none

abbrev pub is_unsupported : AsianHandicapLineClass → Bool
is_unsupported AsianHandicapLineClass.unsupported = true
is_unsupported _ = false

-- `settle_asian_handicap`
unfoldable pub settle_asian_handicap :
    (line : Decimal) (goal_difference : ℤ) (decimal_odds : Decimal) → Option AsianHandicapSettlement
unfolding asian_handicap_line_profile component_results gross_return combined validate_settlement
    dec_leb
settle_asian_handicap line goal_difference odds = do
  price ← checked (dec_leb odds (dec_of 1) ∷ []) odds
  profile ← asian_handicap_line_profile line
  parts ← checked (is_unsupported profile.line_class ∷ []) profile.components
  result ← combined (component_results goal_difference parts)
  validate_settlement (record {
    result = result;
    gross_return_multiplier = gross_return goal_difference odds (dec_of 0) parts;
  })
