-- ===== src/Arbitrage/Staking/Rows.antt =====
-- arbitrage/staking.py: the stakes of a plan are one for each quote.
use arbiscan_arbitrage_scann.Prelude.{
  ◌≡◌, refl, ap, subst, Bool, true, false, Option, none, some, List, [], ◌∷◌, map, if◌then◌else◌,
  Bool-cases, inl, inr, or_else,
}
use mathlib.Core.Option.{some-injective}
use arbiscan_arbitrage_scann.Prelude.Groups.{index_get}
use arbiscan_arbitrage_scann.Domain.{Decimal, dec_leb, dec_ltb, OddsQuote}
use arbiscan_arbitrage_scann.Domain.Number.{dec_leb_refl, dec_leb_total}
use arbiscan_arbitrage_scann.Domain.Grid.{ctx_div, ceil_to_grid, dec_max}
use arbiscan_arbitrage_scann.Domain.Stakes.{StakeAllocation}
use arbiscan_arbitrage_scann.Arbitrage.Fraction.{Result, ok, err, MathError}
use arbiscan_arbitrage_scann.Arbitrage.Staking.Constraints.{
  EffectiveConstraint, StakeConstraint, CurrencyRoundingPolicy, effective_constraints,
  effective_all, effective_of, add_effective, raise_or, provided_error, remainder_error,
  default_constraint,
}
use arbiscan_arbitrage_scann.Arbitrage.Staking.Target.{Outcome, outcomes}
use arbiscan_arbitrage_scann.Arbitrage.Staking.Search.{
  TargetPlan, evaluate_target_payout, plan_of, stakes_for, add_stake, minimum_stake_for_target,
  stake_for, exceeds_maximum, conservative_payout,
}
use arbiscan_arbitrage_scann.Arbitrage.Staking.Allocate.{StakeRequest, allocations_of}

-- A stake of a plan against its quote and the limits that hold for it.
abbrev pub Row : Decimal → OddsQuote → EffectiveConstraint → StakeAllocation → Type 0
Row quantum q e a =
    (a.quote_id ≡ q.id)
    × (a.selection_id ≡ q.selection_id)
    × (a.provider_id ≡ q.provider_id)
    × (a.expected_payout ≡ conservative_payout a.amount q.decimal_price quantum)
    × (dec_leb e.minimum a.amount ≡ true)
    × (exceeds_maximum e.maximum a.amount ≡ false)

-- The stakes of a plan are one for each quote, in their order.
abbrev pub Rows :
    Decimal → List OddsQuote → List EffectiveConstraint → List StakeAllocation → Type 0
Rows quantum (q ∷ qs) (e ∷ es) (a ∷ allocations) =
    Row quantum q e a × Rows quantum qs es allocations
Rows quantum [] [] [] = Unit {0}
Rows quantum _ _ _ = ⊥

-- The constraints are as many as the quotes.
abbrev pub AreMatched : List OddsQuote → List EffectiveConstraint → Type 0
AreMatched (q ∷ qs) (e ∷ es) = AreMatched qs es
AreMatched [] [] = Unit {0}
AreMatched _ _ = ⊥

dec_leb-max : (a b : Decimal) → dec_leb a (dec_max a b) ≡ true
unfolding dec_max dec_ltb
dec_leb-max a b = elim (Bool-cases (dec_leb b a)) [
  | inl e ↦ rw e (dec_leb_refl a)
  | inr e ↦ rw e (dec_leb_total b a e)
]

stake_for_least :
    (o : Outcome) (target : Decimal) → dec_leb o.constraint.minimum (stake_for o target) ≡ true
unfolding stake_for
stake_for_least o target =
    dec_leb-max o.constraint.minimum (ceil_to_grid (ctx_div target o.odds) o.constraint.increment)

kept :
    (test : Bool) (a b : Decimal)
    → (if test then none else some a) ≡ some b
    → (test ≡ false) × (a ≡ b)
kept true a b h = cc
kept false a b h = (refl, some-injective a b h)

minimum_stake-fits :
    (o : Outcome) (target amount : Decimal)
    → minimum_stake_for_target o target ≡ some amount
    → (dec_leb o.constraint.minimum amount ≡ true)
      × (exceeds_maximum o.constraint.maximum amount ≡ false)
unfolding minimum_stake_for_target
minimum_stake-fits o target amount h =
    let stake = stake_for o target in
    let (within, e) = kept (exceeds_maximum o.constraint.maximum stake) stake amount h in
    (
      subst (λ a. dec_leb o.constraint.minimum a ≡ true) e (stake_for_least o target),
      subst (λ a. exceeds_maximum o.constraint.maximum a ≡ false) e within,
    )

add_stake-eq-some :
    (o : Outcome) (quantum : Decimal) (stake : Option Decimal)
    (rest : Option (List Decimal × List Decimal)) (result : List Decimal × List Decimal)
    → add_stake o quantum stake rest ≡ some result
    → (a : Decimal) × (others : List Decimal × List Decimal) × (stake ≡ some a)
      × (rest ≡ some others)
      × ((a ∷ others.0, conservative_payout a o.odds quantum ∷ others.1) ≡ result)
add_stake-eq-some o quantum none rest result h = cc
add_stake-eq-some o quantum (some a) none result h = cc
add_stake-eq-some o quantum (some a) (some others) result h =
    (a, others, refl, refl, some-injective _ result h)

pub stakes_for-Rows :
    (qs : List OddsQuote) (es : List EffectiveConstraint) (target quantum : Decimal)
    (result : List Decimal × List Decimal)
    → AreMatched qs es
    → stakes_for (outcomes qs es) target quantum ≡ some result
    → Rows quantum qs es (allocations_of qs result.0 result.1)
unfolding stakes_for allocations_of
stakes_for-Rows [] [] target quantum result m h =
    subst (λ r. Rows quantum [] [] (allocations_of [] r.0 r.1)) (some-injective ([], []) result h)
      tt
stakes_for-Rows [] (e ∷ es) target quantum result m h = elim m [ ]
stakes_for-Rows (q ∷ qs) [] target quantum result m h = elim m [ ]
stakes_for-Rows (q ∷ qs) (e ∷ es) target quantum result m h =
    let o : Outcome = record { odds = q.decimal_price; constraint = e } in
    let (a, others, stake, rest, same) =
      add_stake-eq-some o quantum (minimum_stake_for_target o target)
        (stakes_for (outcomes qs es) target quantum) result h in
    let (above, within) = minimum_stake-fits o target a stake in
    subst (λ r. Rows quantum (q ∷ qs) (e ∷ es) (allocations_of (q ∷ qs) r.0 r.1)) same
      ((refl, refl, refl, refl, above, within), stakes_for-Rows qs es target quantum others m rest)

abbrev pub AllMatched : List OddsQuote → Result (Option (List EffectiveConstraint)) → Type 0
AllMatched qs (ok (some es)) = AreMatched qs es
AllMatched qs _ = Unit {0}

add_effective-AllMatched :
    (q : OddsQuote) (qs : List OddsQuote) (e : Option EffectiveConstraint)
    (rest : Result (Option (List EffectiveConstraint)))
    → AllMatched qs rest
    → AllMatched (q ∷ qs) (add_effective e rest)
add_effective-AllMatched q qs none rest h = tt
add_effective-AllMatched q qs (some e) (ok (some es)) h = h
add_effective-AllMatched q qs (some e) (ok none) h = tt
add_effective-AllMatched q qs (some e) (err x) h = tt

raise_or-AllMatched :
    (qs : List OddsQuote) (e : Option MathError) (rest : Result (Option (List EffectiveConstraint)))
    → AllMatched qs rest
    → AllMatched qs (raise_or e rest)
raise_or-AllMatched qs none rest h = h
raise_or-AllMatched qs (some e) rest h = tt

effective_all-AllMatched :
    (policy : CurrencyRoundingPolicy) (provided : List StakeConstraint) (qs : List OddsQuote)
    → AllMatched qs (effective_all policy provided qs)
unfolding effective_all
effective_all-AllMatched policy provided [] = tt
effective_all-AllMatched policy provided (q ∷ qs) =
    let rest = effective_all policy provided qs in
    let c = or_else (index_get (λ x. x.quote_id) provided q.id) (default_constraint q.id policy) in
    raise_or-AllMatched (q ∷ qs) (remainder_error c.stake_increment policy.quantum)
      (add_effective (effective_of c) rest)
      (add_effective-AllMatched q qs (effective_of c) rest
        (effective_all-AllMatched policy provided qs))

pub effective_constraints-AreMatched :
    (quotes : List OddsQuote) (r : StakeRequest) (es : List EffectiveConstraint)
    → effective_constraints quotes r.constraints r.rounding_policy ≡ ok (some es)
    → AreMatched quotes es
unfolding effective_constraints
effective_constraints-AreMatched quotes r es h = subst (AllMatched quotes) h (
    raise_or-AllMatched quotes (provided_error (map (λ q. q.id) quotes) [] r.constraints)
      (effective_all r.rounding_policy r.constraints quotes)
      (effective_all-AllMatched r.rounding_policy r.constraints quotes))

plan_of-eq-some :
    (stakes : Option (List Decimal × List Decimal)) (p : TargetPlan)
    → plan_of stakes ≡ some p
    → stakes ≡ some (p.amounts, p.payouts)
unfolding plan_of
plan_of-eq-some none p h = cc
plan_of-eq-some (some r) p h = ap (λ q. some (q.amounts, q.payouts)) (some-injective _ p h)

pub evaluated :
    (qs : List OddsQuote) (es : List EffectiveConstraint) (target quantum : Decimal)
    (p : TargetPlan)
    → evaluate_target_payout (outcomes qs es) target quantum ≡ some p
    → stakes_for (outcomes qs es) target quantum ≡ some (p.amounts, p.payouts)
unfolding evaluate_target_payout
evaluated qs es target quantum p h =
    plan_of-eq-some (stakes_for (outcomes qs es) target quantum) p h
