-- ===== src/Arbitrage/Staking/Progress.antt =====
-- arbitrage/staking.py: `allocate_stakes` ends on every input.
use arbiscan_arbitrage_scann.Prelude.{
  ℕ, Bool, true, false, not, Option, none, some, List, [], ◌∷◌, length, All, Bool-cases, inl, inr,
  arith, nat_beq, leb, ltb, any, or_else, nat_eq, contains, ◌*◌, ◌/◌, ◌%◌, ◌^◌,
}
use arbiscan_arbitrage_scann.Prelude.Sort.{sort_by}
use arbiscan_arbitrage_scann.Domain.{Decimal, dec_leb, dec_ltb, dec_of, OddsQuote}
use arbiscan_arbitrage_scann.Prelude.Int.{pos_part}
use arbiscan_arbitrage_scann.Prelude.Groups.{index_get}
use arbiscan_arbitrage_scann.Domain.Context.{precision}
use arbiscan_arbitrage_scann.Domain.Grid.{dec_sum}
use arbiscan_arbitrage_scann.Domain.Stakes.{is_bad_allocation, StakePlan, stake_plan}
use arbiscan_arbitrage_scann.Arbitrage.Fraction.{
  Result, ok, err, ◌>>=◌, unless, require, MathError, Fraction, add_reciprocals, exact_implied_sum,
  validate_odds, no_sum, add, reciprocal, as_fraction,
}
use arbiscan_arbitrage_scann.Arbitrage.Market.{
  Opportunity, implied_probability_sum, gross_return_multiplier, theoretical_profit_margin, prices,
  by_selection,
}
use arbiscan_arbitrage_scann.Arbitrage.Staking.Constraints.{
  StakeConstraint, CurrencyRoundingPolicy, EffectiveConstraint, first_error, default_constraint,
  provided_error, remainder_error, effective_of, effective_all, effective_constraints,
  add_effective, raise_or,
}
use arbiscan_arbitrage_scann.Arbitrage.Staking.Target.{
  Outcome, outcomes, TargetEnd, continuous_target_payout, target_of, target_loop, minima,
}
use arbiscan_arbitrage_scann.Arbitrage.Staking.Search.{SearchEnd, found, nothing}
use arbiscan_arbitrage_scann.Arbitrage.Staking.Terminates.{
  Ends, HasFuel, find_safe_discrete_plan-Ends, target_loop-HasFuel,
}
use arbiscan_arbitrage_scann.Arbitrage.Staking.Allocate.{
  StakeRequest, stake_guards, allocate_stakes, allocate_ordered, check_margin, with_effective,
  with_target, conclude, build_plan, plan_with, built,
}

-- An error that does not stand for a loop that makes no progress.
abbrev IsOther : MathError → Type 0
IsOther MathError.no_progress = ⊥
IsOther _ = Unit {0}

abbrev pub Progresses : {A : Type 0} → Result A → Type 0
Progresses (ok a) = Unit {0}
Progresses (err e) = IsOther e

>>=-Progresses :
    {A B : Type 0} (m : Result A) (next : A → Result B)
    → Progresses m
    → ((a : A) → Progresses (next a))
    → Progresses (m >>= next)
>>=-Progresses (ok a) next h f = f a
>>=-Progresses (err e) next h f = h

unless-Progresses :
    {A : Type 0} (test : Bool) (e : MathError) (rest : Result A)
    → IsOther e
    → Progresses rest
    → Progresses (unless test e rest)
unless-Progresses true e rest other h = other
unless-Progresses false e rest other h = h

require-Progresses :
    {A : Type 0} (guards : List (Bool × MathError)) (rest : Result A)
    → All (λ g. IsOther g.1) guards
    → Progresses rest
    → Progresses (require guards rest)
require-Progresses [] rest a h = h
require-Progresses ((test, e) ∷ guards) rest a h =
    unless-Progresses test e (require guards rest) a.0 (require-Progresses guards rest a.1 h)

add_reciprocals-Progresses :
    (total : Fraction) (os : List Decimal) → Progresses (add_reciprocals total os)
unfolding add_reciprocals validate_odds
add_reciprocals-Progresses total [] = tt
add_reciprocals-Progresses total (o ∷ os) = elim (Bool-cases (dec_leb o (dec_of 1))) [
  | inl e ↦ rw e tt
  | inr e ↦ rw e (add_reciprocals-Progresses (add total (reciprocal (as_fraction o))) os)
]

exact_implied_sum-Progresses : (os : List Decimal) → Progresses (exact_implied_sum os)
unfolding exact_implied_sum
exact_implied_sum-Progresses os =
    unless-Progresses (ltb (length os) 2) MathError.too_few_outcomes (add_reciprocals no_sum os) tt
      (add_reciprocals-Progresses no_sum os)

check_margin-Progresses :
    (o : Opportunity) (ordered : List OddsQuote) → Progresses (check_margin o ordered)
unfolding check_margin implied_probability_sum theoretical_profit_margin gross_return_multiplier
check_margin-Progresses o ordered =
    let os = prices ordered in
    >>=-Progresses (implied_probability_sum os) _
      (>>=-Progresses (exact_implied_sum os) _ (exact_implied_sum-Progresses os) (λ total. tt))
      (λ total. unless-Progresses _ MathError.sum_mismatch _ tt (
        >>=-Progresses (theoretical_profit_margin os) _
          (>>=-Progresses (gross_return_multiplier os) _
            (>>=-Progresses (exact_implied_sum os) _ (exact_implied_sum-Progresses os) (λ t. tt))
            (λ m. tt))
          (λ margin. unless-Progresses _ MathError.margin_mismatch (ok true) tt tt)))

-- An optional error.
abbrev IsOtherOption : Option MathError → Type 0
IsOtherOption none = Unit {0}
IsOtherOption (some e) = IsOther e

raise_or-Progresses :
    {A : Type 0} (e : Option MathError) (rest : Result A)
    → IsOtherOption e
    → Progresses rest
    → Progresses (raise_or e rest)
raise_or-Progresses none rest other h = h
raise_or-Progresses (some e) rest other h = other

first_error-IsOther :
    (guards : List (Bool × MathError)) (rest : Option MathError)
    → All (λ g. IsOther g.1) guards
    → IsOtherOption rest
    → IsOtherOption (first_error guards rest)
unfolding first_error
first_error-IsOther [] rest a h = h
first_error-IsOther ((true, e) ∷ guards) rest a h = a.0
first_error-IsOther ((false, e) ∷ guards) rest a h = first_error-IsOther guards rest a.1 h

provided_error-IsOther :
    (ids seen : List ℕ) (cs : List StakeConstraint) → IsOtherOption (provided_error ids seen cs)
unfolding provided_error
provided_error-IsOther ids seen [] = tt
provided_error-IsOther ids seen (c ∷ cs) =
    first_error-IsOther
      ((not (contains ids c.quote_id), MathError.outside_constraint)
        ∷ (contains seen c.quote_id, MathError.duplicate_constraint)
        ∷ [])
      (provided_error ids (c.quote_id ∷ seen) cs) (tt, (tt, tt))
      (provided_error-IsOther ids (c.quote_id ∷ seen) cs)

remainder_error-IsOther : (a b : Decimal) → IsOtherOption (remainder_error a b)
unfolding remainder_error
remainder_error-IsOther a b =
    let num = pos_part a.coeff * 10 ^ b.scale in
    let den = pos_part b.coeff * 10 ^ a.scale in
    first_error-IsOther
      ((leb (10 ^ precision) (num / den), MathError.invalid_operation)
        ∷ (not (nat_beq (num % den) 0), MathError.off_quantum)
        ∷ [])
      none (tt, (tt, tt)) tt

add_effective-Progresses :
    (e : Option EffectiveConstraint) (rest : Result (Option (List EffectiveConstraint)))
    → Progresses rest
    → Progresses (add_effective e rest)
add_effective-Progresses none rest h = tt
add_effective-Progresses (some e) (ok (some es)) h = tt
add_effective-Progresses (some e) (ok none) h = tt
add_effective-Progresses (some e) (err x) h = h

effective_all-Progresses :
    (policy : CurrencyRoundingPolicy) (provided : List StakeConstraint) (qs : List OddsQuote)
    → Progresses (effective_all policy provided qs)
unfolding effective_all
effective_all-Progresses policy provided [] = tt
effective_all-Progresses policy provided (q ∷ qs) =
    let rest = effective_all policy provided qs in
    let c = or_else (index_get (λ x. x.quote_id) provided q.id) (default_constraint q.id policy) in
    raise_or-Progresses (remainder_error c.stake_increment policy.quantum)
      (add_effective (effective_of c) rest)
      (remainder_error-IsOther c.stake_increment policy.quantum)
      (add_effective-Progresses (effective_of c) rest (effective_all-Progresses policy provided qs))

target_of-Progresses :
    (os : List Outcome) (end : TargetEnd) → HasFuel end → Progresses (target_of os end)
unfolding target_of
target_of-Progresses os TargetEnd.infeasible h = tt
target_of-Progresses os (TargetEnd.ends none) h = tt
target_of-Progresses os (TargetEnd.ends (some t)) h = tt
target_of-Progresses os TargetEnd.bad_sum h = tt
target_of-Progresses os TargetEnd.out_of_fuel h = h

continuous_target_payout-Progresses :
    (os : List Outcome) (bankroll : Decimal) → Progresses (continuous_target_payout os bankroll)
unfolding continuous_target_payout
continuous_target_payout-Progresses os bankroll =
    elim (Bool-cases (dec_ltb bankroll (dec_sum (minima os)))) [
      | inl e ↦ rw e tt
      | inr e ↦ rw e (
          target_of-Progresses os (target_loop (length os) bankroll (dec_of 0) none os)
            (target_loop-HasFuel (length os) bankroll (dec_of 0) none os (omega arith)))
    ]

built-Progresses : (p : Option StakePlan) → Progresses (built p)
built-Progresses none = tt
built-Progresses (some p) = tt

build_plan-Progresses : (plan : StakePlan) → Progresses (build_plan plan)
unfolding build_plan
build_plan-Progresses plan =
    unless-Progresses (any is_bad_allocation plan.allocations) MathError.domain_error
      (built (stake_plan plan)) tt (built-Progresses (stake_plan plan))

conclude-Progresses :
    (o : Opportunity) (r : StakeRequest) (ordered : List OddsQuote) (end : SearchEnd)
    → Ends end
    → Progresses (conclude o r ordered end)
unfolding conclude
conclude-Progresses o r ordered (found p) h = build_plan-Progresses (plan_with o r ordered p)
conclude-Progresses o r ordered nothing h = tt
conclude-Progresses o r ordered SearchEnd.seen_before h = h
conclude-Progresses o r ordered SearchEnd.out_of_fuel h = h

with_target-Progresses :
    (o : Opportunity) (r : StakeRequest) (ordered : List OddsQuote) (os : List Outcome)
    (target : Option Decimal)
    → Progresses (with_target o r ordered os target)
unfolding with_target
with_target-Progresses o r ordered os none = tt
with_target-Progresses o r ordered os (some target) = conclude-Progresses o r ordered _ (
    find_safe_discrete_plan-Ends os r.bankroll target r.rounding_policy.quantum
      r.minimum_guaranteed_profit)

with_effective-Progresses :
    (o : Opportunity) (r : StakeRequest) (ordered : List OddsQuote)
    (effective : Option (List EffectiveConstraint))
    → Progresses (with_effective o r ordered effective)
unfolding with_effective
with_effective-Progresses o r ordered none = tt
with_effective-Progresses o r ordered (some effective) =
    let os = outcomes ordered effective in
    >>=-Progresses (continuous_target_payout os r.bankroll) (with_target o r ordered os)
      (continuous_target_payout-Progresses os r.bankroll) (with_target-Progresses o r ordered os)

allocate_ordered-Progresses :
    (o : Opportunity) (r : StakeRequest) (ordered : List OddsQuote)
    → Progresses (allocate_ordered o r ordered)
unfolding allocate_ordered effective_constraints
allocate_ordered-Progresses o r ordered =
    >>=-Progresses (effective_constraints ordered r.constraints r.rounding_policy) _
      (raise_or-Progresses _ _ (provided_error-IsOther _ [] r.constraints)
        (effective_all-Progresses r.rounding_policy r.constraints ordered))
      (with_effective-Progresses o r ordered)

-- `allocate_stakes` ends on every input: neither of its loops needs more rounds than the fuel that the
-- model gives it, and the error on a search that makes no progress is never raised.
pub allocate_stakes-Progresses :
    (o : Opportunity) (quotes : List OddsQuote) (r : StakeRequest)
    → Progresses (allocate_stakes o quotes r)
unfolding allocate_stakes stake_guards
allocate_stakes-Progresses o quotes r =
    require-Progresses (stake_guards o quotes r) _
      (tt, (tt, (tt, (tt, (tt, (tt, (tt, (tt, (tt, (tt, tt))))))))))
      (let ordered = sort_by by_selection quotes in
        >>=-Progresses (check_margin o ordered) _ (check_margin-Progresses o ordered)
          (λ _. allocate_ordered-Progresses o r ordered))
