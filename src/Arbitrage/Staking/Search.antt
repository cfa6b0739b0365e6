-- ===== src/Arbitrage/Staking/Search.antt =====
-- arbitrage/staking.py: `_evaluate_target_payout` and `_find_safe_discrete_plan`, the search for the
-- highest payout whose rounded stakes fit the bankroll and leave a profit.
use arbiscan_arbitrage_scann.Prelude.{
  ℕ, zero, suc, ◌*◌, ◌/◌, ◌^◌, Bool, true, false, not, ◌&&◌, Option, none, some, List, [], ◌∷◌, any,
  if◌then◌else◌,
}
use arbiscan_arbitrage_scann.Prelude.Int.{pos_part}
use arbiscan_arbitrage_scann.Domain.{Decimal, dec_leb, dec_ltb, dec_eqb, dec_of}
use arbiscan_arbitrage_scann.Domain.Context.{ctx_sub, ctx_mul}
use arbiscan_arbitrage_scann.Domain.Grid.{
  ctx_div, sum_from, dec_sum, min_of, max_of, dec_max, floor_to_grid, ceil_to_grid,
}
use arbiscan_arbitrage_scann.Arbitrage.Staking.Target.{Outcome}

-- `_conservative_payout`
unfoldable pub conservative_payout : Decimal → Decimal → Decimal → Decimal
unfolding floor_to_grid ctx_mul
conservative_payout stake odds quantum = floor_to_grid (ctx_mul stake odds) quantum

pub record TargetPlan : Type 0 where
  pub amounts : List Decimal
  pub payouts : List Decimal
  pub total_staked : Decimal
  pub guaranteed_payout : Decimal
  pub guaranteed_profit : Decimal

unfoldable pub exceeds_maximum : Option Decimal → Decimal → Bool
unfolding dec_ltb
exceeds_maximum none amount = false
exceeds_maximum (some maximum) amount = dec_ltb maximum amount

-- The `amount` of `_minimum_stake_for_target`.
unfoldable pub stake_for : Outcome → Decimal → Decimal
unfolding dec_max ceil_to_grid ctx_div
stake_for o target =
    dec_max o.constraint.minimum (ceil_to_grid (ctx_div target o.odds) o.constraint.increment)

-- `_minimum_stake_for_target`
unfoldable pub minimum_stake_for_target : Outcome → Decimal → Option Decimal
unfolding stake_for exceeds_maximum
minimum_stake_for_target o target =
    let amount = stake_for o target in
    if exceeds_maximum o.constraint.maximum amount then none else some amount

abbrev pub add_stake :
    Outcome
    → Decimal
    → Option Decimal
    → Option (List Decimal × List Decimal)
    → Option (List Decimal × List Decimal)
add_stake o quantum none rest = none
add_stake o quantum (some amount) none = none
add_stake o quantum (some amount) (some (amounts, payouts)) =
    some (amount ∷ amounts, conservative_payout amount o.odds quantum ∷ payouts)

-- The loop of `_evaluate_target_payout`.
unfoldable pub stakes_for : List Outcome → Decimal → Decimal → Option (List Decimal × List Decimal)
unfolding minimum_stake_for_target conservative_payout
stakes_for [] target quantum = some ([], [])
stakes_for (o ∷ os) target quantum =
    let rest = stakes_for os target quantum in
    add_stake o quantum (minimum_stake_for_target o target) rest

-- `min(payouts)`, of a row that is not empty.
abbrev pub least : List Decimal → Decimal
least [] = dec_of 0
least (d ∷ ds) = min_of d ds

unfoldable pub plan_of : Option (List Decimal × List Decimal) → Option TargetPlan
unfolding sum_from min_of ctx_sub
plan_of none = none
plan_of (some (amounts, payouts)) =
    let total = dec_sum amounts in
    some (record {
      amounts = amounts;
      payouts = payouts;
      total_staked = total;
      guaranteed_payout = least payouts;
      guaranteed_profit = ctx_sub (least payouts) total;
    })

-- `_evaluate_target_payout`
unfoldable pub evaluate_target_payout : List Outcome → Decimal → Decimal → Option TargetPlan
unfolding plan_of stakes_for
evaluate_target_payout os target quantum = plan_of (stakes_for os target quantum)

abbrev pub add_breakpoint : (too_low within : Bool) → Decimal → List Decimal → List Decimal
add_breakpoint true within payout rest = rest
add_breakpoint false true payout rest = payout ∷ rest
add_breakpoint false false payout rest = rest

-- What an outcome adds to the breakpoints below a target.
unfoldable pub breakpoint : Outcome → Decimal → Decimal → Decimal → List Decimal → List Decimal
unfolding ctx_sub conservative_payout dec_ltb
breakpoint o amount target quantum rest =
    let lower_amount = ctx_sub amount o.constraint.increment in
    let lower_payout = conservative_payout lower_amount o.odds quantum in
    add_breakpoint (dec_ltb lower_amount o.constraint.minimum)
      (dec_ltb (dec_of 0) lower_payout && dec_ltb lower_payout target) lower_payout rest

unfoldable pub breakpoints : List Outcome → List Decimal → Decimal → Decimal → List Decimal
unfolding breakpoint
breakpoints (o ∷ os) (a ∷ amounts) target quantum =
    breakpoint o a target quantum (breakpoints os amounts target quantum)
breakpoints _ _ target quantum = []

abbrev pub highest : List Decimal → Option Decimal
highest [] = none
highest (d ∷ ds) = some (max_of d ds)

-- `_next_lower_payout_breakpoint`
unfoldable pub next_lower_payout_breakpoint :
    List Outcome → List Decimal → Decimal → Decimal → Option Decimal
unfolding breakpoints max_of
next_lower_payout_breakpoint os amounts target quantum =
    highest (breakpoints os amounts target quantum)

-- The test of a candidate.
unfoldable pub is_safe : (bankroll minimum_profit : Decimal) → TargetPlan → Bool
unfolding dec_leb dec_ltb
is_safe bankroll minimum_profit p =
    dec_leb p.total_staked bankroll
    && (dec_ltb (dec_of 0) p.guaranteed_profit && dec_leb minimum_profit p.guaranteed_profit)

-- How the search ends: with a plan, with None, with the error on a target that was seen before, or,
-- in this model only, for want of fuel.
pub data SearchEnd : Type 0 where
  found : TargetPlan → SearchEnd
  nothing : SearchEnd
  seen_before : SearchEnd
  out_of_fuel : SearchEnd

unfoldable pub step_down : (Decimal → SearchEnd) → Option Decimal → SearchEnd
step_down again none = nothing
step_down again (some lower) = again lower

-- A round of the loop, behind its tests, with the candidate of the target.
unfoldable pub try_plan :
    (Decimal → SearchEnd)
    → List Outcome
    → (bankroll quantum minimum_profit target : Decimal) → Option TargetPlan
    → SearchEnd
unfolding is_safe step_down next_lower_payout_breakpoint
try_plan again os bankroll quantum minimum_profit target none = nothing
try_plan again os bankroll quantum minimum_profit target (some p) =
    if is_safe bankroll minimum_profit p
    then found p
    else step_down again (next_lower_payout_breakpoint os p.amounts target quantum)

-- `while target > 0`
unfoldable pub search_loop :
    ℕ
    → List Outcome
    → (bankroll quantum minimum_profit : Decimal) → List Decimal
    → Decimal
    → SearchEnd
unfolding evaluate_target_payout try_plan dec_ltb dec_eqb
search_loop zero os bankroll quantum minimum_profit seen target = out_of_fuel
search_loop (suc fuel) os bankroll quantum minimum_profit seen target =
    let again = search_loop fuel os bankroll quantum minimum_profit (target ∷ seen) in
    if not (dec_ltb (dec_of 0) target)
    then nothing
    else if any (dec_eqb target) seen
    then seen_before
    else try_plan again os bankroll quantum minimum_profit target
        (evaluate_target_payout os target quantum)

-- The number of quanta in a target, and one more: each round lowers the target by a quantum or more.
unfoldable pub enough : Decimal → Decimal → ℕ
enough quantum target = suc (pos_part target.coeff * 10 ^ quantum.scale / 10 ^ target.scale)

-- `_find_safe_discrete_plan`
unfoldable pub find_safe_discrete_plan :
    List Outcome → (bankroll continuous_target quantum minimum_profit : Decimal) → SearchEnd
unfolding floor_to_grid search_loop enough
find_safe_discrete_plan os bankroll continuous_target quantum minimum_profit =
    let target = floor_to_grid continuous_target quantum in
    search_loop (enough quantum target) os bankroll quantum minimum_profit [] target
