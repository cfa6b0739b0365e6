-- ===== src/Arbitrage/Staking/Sound.antt =====
-- arbitrage/staking.py: the plan that `allocate_stakes` returns is safe.
use arbiscan_arbitrage_scann.Prelude.{
  not-false, ℕ, zero, suc, ◌≡◌, refl, sym, subst, ◌∙◌, true, false, not, ◌&&◌, Option, none, some,
  List, [], ◌∷◌, map, any, All, All-map, Bool-cases, inl, inr, &&-true, false-true, checked-eq-some,
}
use arbiscan_arbitrage_scann.Prelude.Sort.{sort_by}
use arbiscan_arbitrage_scann.Domain.{Decimal, dec_leb, dec_ltb, dec_eqb, dec_of, OddsQuote}
use arbiscan_arbitrage_scann.Domain.Number.{dec_ltb-false, dec_leb_trans}
use arbiscan_arbitrage_scann.Domain.Context.{ctx_sub}
use arbiscan_arbitrage_scann.Domain.Grid.{floor_to_grid, dec_sum}
use arbiscan_arbitrage_scann.Domain.Grid.Laws.{ctx_sub_positive, min_of-least}
use arbiscan_arbitrage_scann.Domain.Stakes.{
  StakeAllocation, StakePlan, stake_plan, plan_guards, is_bad_allocation, amounts, least_payout,
}
use arbiscan_arbitrage_scann.Arbitrage.Fraction.{Result, ok, err, ◌>>=◌, require-eq-ok, >>=-eq-ok}
use arbiscan_arbitrage_scann.Arbitrage.Market.{Opportunity, by_selection}
use arbiscan_arbitrage_scann.Arbitrage.Staking.Constraints.{
  EffectiveConstraint, effective_constraints,
}
use arbiscan_arbitrage_scann.Arbitrage.Staking.Target.{Outcome, outcomes, continuous_target_payout}
use arbiscan_arbitrage_scann.Arbitrage.Staking.Search.{
  enough, TargetPlan, SearchEnd, found, nothing, find_safe_discrete_plan, search_loop, try_plan,
  step_down, next_lower_payout_breakpoint, evaluate_target_payout, is_safe,
}
use arbiscan_arbitrage_scann.Arbitrage.Staking.Allocate.{
  StakeRequest, allocate_stakes, stake_guards, allocate_ordered, check_margin, with_effective,
  with_target, conclude, build_plan, plan_with, built, allocations_of,
}
use arbiscan_arbitrage_scann.Arbitrage.Staking.Rows.{
  Rows, AreMatched, stakes_for-Rows, effective_constraints-AreMatched, evaluated,
}

pub record IsSafePlan (quotes : List OddsQuote) (r : StakeRequest) (plan : StakePlan) : Type 0 where
  pub limits : List EffectiveConstraint
  pub allowed :
      effective_constraints (sort_by by_selection quotes) r.constraints r.rounding_policy
      ≡ ok (some limits)
  pub rows : Rows r.rounding_policy.quantum (sort_by by_selection quotes) limits plan.allocations
  pub affordable : dec_leb (dec_sum (amounts plan.allocations)) r.bankroll ≡ true
  pub guaranteed :
      All (λ a. dec_leb plan.guaranteed_payout a.expected_payout ≡ true) plan.allocations
  pub gains : dec_ltb (dec_sum (amounts plan.allocations)) plan.guaranteed_payout ≡ true
  pub enough : dec_leb r.minimum_guaranteed_profit plan.guaranteed_profit ≡ true

-- What the search finds is the safe plan of some target.
abbrev Finds : List Outcome → (bankroll quantum profit : Decimal) → SearchEnd → Type 0
Finds os bankroll quantum profit (found p) =
    (target : Decimal) × (evaluate_target_payout os target quantum ≡ some p)
    × (is_safe bankroll profit p ≡ true)
Finds os bankroll quantum profit _ = Unit {0}

step_down-Finds :
    (os : List Outcome) (bankroll quantum profit : Decimal) (again : Decimal → SearchEnd)
    (lower : Option Decimal)
    → ((d : Decimal) → Finds os bankroll quantum profit (again d))
    → Finds os bankroll quantum profit (step_down again lower)
unfolding step_down
step_down-Finds os bankroll quantum profit again none f = tt
step_down-Finds os bankroll quantum profit again (some d) f = f d

try_plan-Finds :
    (os : List Outcome) (bankroll quantum profit target : Decimal) (again : Decimal → SearchEnd)
    (p : Option TargetPlan)
    → evaluate_target_payout os target quantum ≡ p
    → ((d : Decimal) → Finds os bankroll quantum profit (again d))
    → Finds os bankroll quantum profit (try_plan again os bankroll quantum profit target p)
unfolding try_plan
try_plan-Finds os bankroll quantum profit target again none e f = tt
try_plan-Finds os bankroll quantum profit target again (some p) e f =
    elim (Bool-cases (is_safe bankroll profit p)) [
      | inl safe ↦ rw safe (target, e, safe)
      | inr other ↦ rw other (
          step_down-Finds os bankroll quantum profit again
            (next_lower_payout_breakpoint os p.amounts target quantum) f)
    ]

search_loop-Finds :
    (fuel : ℕ) (os : List Outcome) (bankroll quantum profit : Decimal) (seen : List Decimal)
    (target : Decimal)
    → Finds os bankroll quantum profit (search_loop fuel os bankroll quantum profit seen target)
unfolding search_loop
search_loop-Finds zero os bankroll quantum profit seen target = tt
search_loop-Finds (suc fuel) os bankroll quantum profit seen target =
    elim (Bool-cases (dec_ltb (dec_of 0) target)) [
      | inr e ↦ rw e tt
      | inl e ↦ rw e (elim (Bool-cases (any (dec_eqb target) seen)) [
        | inl f ↦ rw f tt
        | inr f ↦ rw f (
            try_plan-Finds os bankroll quantum profit target
              (search_loop fuel os bankroll quantum profit (target ∷ seen))
              (evaluate_target_payout os target quantum) refl
              (search_loop-Finds fuel os bankroll quantum profit (target ∷ seen)))
      ])
    ]

-- A result that is a plan has the property.
abbrev Holds : (StakePlan → Type 0) → Result (Option StakePlan) → Type 0
Holds P (ok (some plan)) = P plan
Holds P _ = Unit {0}

built-Holds :
    (P : StakePlan → Type 0) (plan : StakePlan) (made : Option StakePlan)
    → stake_plan plan ≡ made
    → (All (λ t. t ≡ false) (plan_guards plan) → P plan)
    → Holds P (built made)
unfolding stake_plan
built-Holds P plan none e f = tt
built-Holds P plan (some other) e f =
    let (passed, same) = checked-eq-some (plan_guards plan) plan other e in subst P same (f passed)

build_plan-Holds :
    (P : StakePlan → Type 0) (plan : StakePlan)
    → (All (λ t. t ≡ false) (plan_guards plan) → P plan)
    → Holds P (build_plan plan)
unfolding build_plan
build_plan-Holds P plan f = elim (Bool-cases (any is_bad_allocation plan.allocations)) [
  | inl e ↦ rw e tt
  | inr e ↦ rw e (built-Holds P plan (stake_plan plan) refl f)
]

is_safe-enough :
    (bankroll profit : Decimal) (p : TargetPlan)
    → is_safe bankroll profit p ≡ true
    → dec_leb profit p.guaranteed_profit ≡ true
unfolding is_safe
is_safe-enough bankroll profit p h =
    let positive = dec_ltb (dec_of 0) p.guaranteed_profit in
    let least = dec_leb profit p.guaranteed_profit in
    (&&-true positive least (&&-true (dec_leb p.total_staked bankroll) (positive && least) h).1).1

All-unmap :
    (P : Decimal → Type 0) (xs : List StakeAllocation)
    → All P (map (λ a. a.expected_payout) xs)
    → All (λ a. P a.expected_payout) xs
All-unmap P [] h = tt
All-unmap P (a ∷ xs) h = (h.0, All-unmap P xs h.1)

least_payout-All :
    (xs : List StakeAllocation) → All (λ a. dec_leb (least_payout xs) a.expected_payout ≡ true) xs
least_payout-All [] = tt
least_payout-All (a ∷ xs) =
    let (h, k) = min_of-least a.expected_payout (map (λ b. b.expected_payout) xs) in
    (h, All-unmap (λ d. dec_leb (least_payout (a ∷ xs)) d ≡ true) xs k)

dec_eqb-leb : (a b : Decimal) → not (dec_eqb a b) ≡ false → dec_leb a b ≡ true
unfolding dec_eqb
dec_eqb-leb a b h = (&&-true (dec_leb a b) (dec_leb b a) (not-false (dec_eqb a b) h)).0

positive_le :
    (a b : Decimal)
    → dec_leb a (dec_of 0) ≡ false
    → dec_leb a b ≡ true
    → dec_ltb (dec_of 0) b ≡ true
unfolding dec_ltb
positive_le a b h k = elim (Bool-cases (dec_leb b (dec_of 0))) [
  | inl e ↦ absurd (false-true (sym h ∙ dec_leb_trans a b (dec_of 0) k e))
  | inr e ↦ rw e refl
]

-- The checks of the constructor and of the search.
found-IsSafePlan :
    (o : Opportunity) (quotes : List OddsQuote) (r : StakeRequest) (es : List EffectiveConstraint)
    (target : Decimal) (p : TargetPlan)
    → effective_constraints (sort_by by_selection quotes) r.constraints r.rounding_policy
      ≡ ok (some es)
    → AreMatched (sort_by by_selection quotes) es
    → evaluate_target_payout
        (outcomes (sort_by by_selection quotes) es)
        target
        r.rounding_policy.quantum
      ≡ some p
    → is_safe r.bankroll r.minimum_guaranteed_profit p ≡ true
    → All (λ t. t ≡ false) (plan_guards (plan_with o r (sort_by by_selection quotes) p))
    → IsSafePlan quotes r (plan_with o r (sort_by by_selection quotes) p)
unfolding plan_with plan_guards
found-IsSafePlan o quotes r es target p allowed m e safe
      (g1, (g2, (g3, (g4, (g5, (g6, (g7, (g8, (g9, _))))))))) =
    let ordered = sort_by by_selection quotes in
    let allocations = allocations_of ordered p.amounts p.payouts in
    let total = dec_sum (amounts allocations) in
    record {
      limits = es;
      allowed = allowed;
      rows =
          stakes_for-Rows ordered es target r.rounding_policy.quantum (p.amounts, p.payouts) m
            (evaluated ordered es target r.rounding_policy.quantum p e);
      affordable = dec_ltb-false r.bankroll total g7;
      guaranteed =
          All-map _ _
            (λ a h.
              dec_leb_trans p.guaranteed_payout (least_payout allocations) a.expected_payout
                (dec_eqb-leb p.guaranteed_payout (least_payout allocations) g8) h)
            allocations (least_payout-All allocations);
      gains = ctx_sub_positive p.guaranteed_payout (dec_sum (amounts allocations)) (
          positive_le p.guaranteed_profit (ctx_sub p.guaranteed_payout total) g3
            (dec_eqb-leb p.guaranteed_profit (ctx_sub p.guaranteed_payout total) g9));
      enough = is_safe-enough r.bankroll r.minimum_guaranteed_profit p safe;
    }

conclude-Holds :
    (o : Opportunity) (quotes : List OddsQuote) (r : StakeRequest) (es : List EffectiveConstraint)
    (end : SearchEnd)
    → effective_constraints (sort_by by_selection quotes) r.constraints r.rounding_policy
      ≡ ok (some es)
    → AreMatched (sort_by by_selection quotes) es
    → Finds
        (outcomes (sort_by by_selection quotes) es)
        r.bankroll
        r.rounding_policy.quantum
        r.minimum_guaranteed_profit
        end
    → Holds (IsSafePlan quotes r) (conclude o r (sort_by by_selection quotes) end)
unfolding conclude
conclude-Holds o quotes r es nothing allowed m h = tt
conclude-Holds o quotes r es SearchEnd.seen_before allowed m h = tt
conclude-Holds o quotes r es SearchEnd.out_of_fuel allowed m h = tt
conclude-Holds o quotes r es (found p) allowed m (target, e, safe) =
    build_plan-Holds (IsSafePlan quotes r) (plan_with o r (sort_by by_selection quotes) p)
      (found-IsSafePlan o quotes r es target p allowed m e safe)

>>=-Holds :
    {A : Type 0} (P : StakePlan → Type 0) (m : Result A) (next : A → Result (Option StakePlan))
    → ((a : A) → m ≡ ok a → Holds P (next a))
    → Holds P (m >>= next)
>>=-Holds P (err e) next f = tt
>>=-Holds P (ok a) next f = f a refl

with_target-Holds :
    (o : Opportunity) (quotes : List OddsQuote) (r : StakeRequest) (es : List EffectiveConstraint)
    (target : Option Decimal)
    → effective_constraints (sort_by by_selection quotes) r.constraints r.rounding_policy
      ≡ ok (some es)
    → AreMatched (sort_by by_selection quotes) es
    → Holds (IsSafePlan quotes r) (
        with_target o r
          (sort_by by_selection quotes)
          (outcomes (sort_by by_selection quotes) es)
          target)
unfolding with_target find_safe_discrete_plan
with_target-Holds o quotes r es none allowed m = tt
with_target-Holds o quotes r es (some target) allowed m =
    let os = outcomes (sort_by by_selection quotes) es in
    let quantum = r.rounding_policy.quantum in
    let first = floor_to_grid target quantum in
    conclude-Holds o quotes r es
      (find_safe_discrete_plan os r.bankroll target quantum r.minimum_guaranteed_profit) allowed m
      (search_loop-Finds (enough quantum first) os r.bankroll quantum r.minimum_guaranteed_profit []
        first)

with_effective-Holds :
    (o : Opportunity) (quotes : List OddsQuote) (r : StakeRequest)
    (limits : Option (List EffectiveConstraint))
    → effective_constraints (sort_by by_selection quotes) r.constraints r.rounding_policy
      ≡ ok limits
    → Holds (IsSafePlan quotes r) (with_effective o r (sort_by by_selection quotes) limits)
unfolding with_effective
with_effective-Holds o quotes r none allowed = tt
with_effective-Holds o quotes r (some es) allowed =
    let ordered = sort_by by_selection quotes in
    >>=-Holds (IsSafePlan quotes r) (continuous_target_payout (outcomes ordered es) r.bankroll)
      (with_target o r ordered (outcomes ordered es))
      (λ target _.
        with_target-Holds o quotes r es target allowed
          (effective_constraints-AreMatched ordered r es allowed))

allocate_ordered-Holds :
    (o : Opportunity) (quotes : List OddsQuote) (r : StakeRequest)
    → Holds (IsSafePlan quotes r) (allocate_ordered o r (sort_by by_selection quotes))
unfolding allocate_ordered
allocate_ordered-Holds o quotes r =
    let ordered = sort_by by_selection quotes in
    >>=-Holds (IsSafePlan quotes r) (effective_constraints ordered r.constraints r.rounding_policy)
      (with_effective o r ordered) (with_effective-Holds o quotes r)

-- Every plan that `allocate_stakes` returns is safe. It has one stake for each quote, in the order of
-- their selections, with that quote's identifiers, a payout that is the conservative one of the stake
-- at the quote's odds, and an amount within the effective limits of the constraints. The sum of the
-- stakes, each addition rounded to 60 digits as in the code, is within the bankroll and below the
-- guaranteed payout. Every payout is at least the guaranteed one, and the guaranteed profit is no
-- less than asked for.
pub allocate_stakes-IsSafePlan :
    (o : Opportunity) (quotes : List OddsQuote) (r : StakeRequest) (plan : StakePlan)
    → allocate_stakes o quotes r ≡ ok (some plan)
    → IsSafePlan quotes r plan
unfolding allocate_stakes
allocate_stakes-IsSafePlan o quotes r plan h =
    let ordered = sort_by by_selection quotes in
    let (_, rest) = require-eq-ok (stake_guards o quotes r) _ h in
    let (_, _, last) =
      >>=-eq-ok (check_margin o ordered) (λ _. allocate_ordered o r ordered) rest in
    subst (Holds (IsSafePlan quotes r)) last (allocate_ordered-Holds o quotes r)
