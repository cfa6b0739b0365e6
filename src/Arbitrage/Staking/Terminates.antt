-- ===== src/Arbitrage/Staking/Terminates.antt =====
-- arbitrage/staking.py: the two loops of the stake allocation end.
use arbiscan_arbitrage_scann.Prelude.{
  ℕ, zero, suc, ◌≤◌, ◌<◌, ◌≡◌, inl, inr, refl, sym, arith, ◌∙◌, Bool, true, false, not, ◌&&◌,
  Option, none, some, List, [], ◌∷◌, any, length, keep, false-true, All, All-map, Bool-cases,
  &&-true,
}
use arbiscan_arbitrage_scann.Domain.{Decimal, dec_leb, dec_ltb, dec_eqb, dec_of}
use arbiscan_arbitrage_scann.Domain.Context.{ctx_sub, ctx_mul}
use arbiscan_arbitrage_scann.Domain.Number.{dec_leb_total, dec_leb_trans}
use arbiscan_arbitrage_scann.Domain.Grid.{
  max_of, dec_sum, sum_from, ctx_div, dec_max, floor_to_grid,
}
use arbiscan_arbitrage_scann.Domain.Grid.Laws.{OnGrid, OnGrid-ltb, floor_to_grid-OnGrid}
use arbiscan_arbitrage_scann.Arbitrage.Staking.Target.{
  Outcome, TargetEnd, target_loop, loop_from, leave, is_violating, reciprocals, minima,
}
use arbiscan_arbitrage_scann.Arbitrage.Staking.Search.{
  TargetPlan, SearchEnd, add_breakpoint, breakpoint, breakpoints, highest,
  next_lower_payout_breakpoint, conservative_payout, evaluate_target_payout, is_safe, step_down,
  try_plan, search_loop, enough, find_safe_discrete_plan,
}
use native.Mathlib.Nat.{mul-div_cancel, one-le-pow}

dec_ltb_trans : (a b c : Decimal) → dec_ltb a b ≡ true → dec_ltb b c ≡ true → dec_ltb a c ≡ true
unfolding dec_ltb
dec_ltb_trans a b c h k = ground (arith, dec_leb_total c b, dec_leb_trans b c a)

ltb-eqb : (a b : Decimal) → dec_ltb a b ≡ true → dec_eqb a b ≡ false
unfolding dec_eqb dec_ltb
ltb-eqb a b h = ground arith

-- A target below another: positive, and on the grid of the quantum.
abbrev IsLower : Decimal → Decimal → Decimal → Type 0
IsLower quantum target d =
    (dec_ltb (dec_of 0) d ≡ true) × (dec_ltb d target ≡ true) × ((k : ℕ) × OnGrid quantum.scale k d)

add_breakpoint-All :
    (P : Decimal → Type 0) (too_low within : Bool) (d : Decimal) (rest : List Decimal)
    → (within ≡ true → P d)
    → All P rest
    → All P (add_breakpoint too_low within d rest)
add_breakpoint-All P true within d rest f h = h
add_breakpoint-All P false true d rest f h = (f refl, h)
add_breakpoint-All P false false d rest f h = h

payout-IsLower :
    (stake odds quantum target : Decimal)
    → let payout = conservative_payout stake odds quantum in
      (dec_ltb (dec_of 0) payout && dec_ltb payout target) ≡ true → IsLower quantum target payout
unfolding conservative_payout
payout-IsLower stake odds quantum target h =
    let (positive, lower) = &&-true _ _ h in
    (positive, lower, floor_to_grid-OnGrid (ctx_mul stake odds) quantum positive)

breakpoint-IsLower :
    (o : Outcome) (a target quantum : Decimal) (rest : List Decimal)
    → All (IsLower quantum target) rest
    → All (IsLower quantum target) (breakpoint o a target quantum rest)
unfolding breakpoint
breakpoint-IsLower o a target quantum rest h =
    let lower = ctx_sub a o.constraint.increment in
    let payout = conservative_payout lower o.odds quantum in
    add_breakpoint-All (IsLower quantum target) (dec_ltb lower o.constraint.minimum)
      (dec_ltb (dec_of 0) payout && dec_ltb payout target) payout rest
      (payout-IsLower (ctx_sub a o.constraint.increment) o.odds quantum target) h

breakpoints-IsLower :
    (os : List Outcome) (amounts : List Decimal) (target quantum : Decimal)
    → All (IsLower quantum target) (breakpoints os amounts target quantum)
unfolding breakpoints
breakpoints-IsLower [] amounts target quantum = tt
breakpoints-IsLower (o ∷ os) [] target quantum = tt
breakpoints-IsLower (o ∷ os) (a ∷ amounts) target quantum =
    breakpoint-IsLower o a target quantum (breakpoints os amounts target quantum)
      (breakpoints-IsLower os amounts target quantum)

max_of-All :
    (P : Decimal → Type 0) (d : Decimal) (ds : List Decimal) → P d → All P ds → P (max_of d ds)
unfolding max_of dec_max
max_of-All P d [] p h = p
max_of-All P d (e ∷ es) p h = elim (Bool-cases (dec_ltb d e)) [
  | inl t ↦ rw t (max_of-All P e es h.0 h.1)
  | inr f ↦ rw f (max_of-All P d es p h.1)
]

-- A search that comes to an end of its own, without the error on a target that was seen before.
abbrev pub Ends : SearchEnd → Type 0
Ends SearchEnd.seen_before = ⊥
Ends SearchEnd.out_of_fuel = ⊥
Ends _ = Unit {0}

-- The next round, on a lower target.
step_down-Ends :
    (again : Decimal → SearchEnd) (quantum target : Decimal) (ds : List Decimal)
    → All (IsLower quantum target) ds
    → ((d : Decimal) → IsLower quantum target d → Ends (again d))
    → Ends (step_down again (highest ds))
unfolding step_down
step_down-Ends again quantum target [] h f = tt
step_down-Ends again quantum target (d ∷ ds) h f =
    f (max_of d ds) (max_of-All (IsLower quantum target) d ds h.0 h.1)

try_plan-Ends :
    (again : Decimal → SearchEnd) (os : List Outcome) (bankroll quantum profit target : Decimal)
    (p : Option TargetPlan)
    → ((d : Decimal) → IsLower quantum target d → Ends (again d))
    → Ends (try_plan again os bankroll quantum profit target p)
unfolding try_plan next_lower_payout_breakpoint
try_plan-Ends again os bankroll quantum profit target none f = tt
try_plan-Ends again os bankroll quantum profit target (some p) f =
    elim (Bool-cases (is_safe bankroll profit p)) [
      | inl e ↦ rw e tt
      | inr e ↦ rw e (
          step_down-Ends again quantum target _ (breakpoints-IsLower os p.amounts target quantum) f)
    ]

unseen :
    (target : Decimal) (seen : List Decimal)
    → All (λ s. dec_ltb target s ≡ true) seen
    → any (dec_eqb target) seen ≡ false
unseen target [] h = refl
unseen target (s ∷ seen) h = rw (ltb-eqb target s h.0) (unseen target seen h.1)

search_loop-Ends :
    (fuel : ℕ) (os : List Outcome) (bankroll quantum profit : Decimal) (seen : List Decimal)
    (target : Decimal) (k : ℕ)
    → (dec_ltb (dec_of 0) target ≡ true → OnGrid quantum.scale k target)
    → k < fuel
    → All (λ s. dec_ltb target s ≡ true) seen
    → Ends (search_loop fuel os bankroll quantum profit seen target)
unfolding search_loop
search_loop-Ends zero os bankroll quantum profit seen target k g lt h = absurd (omega arith)
search_loop-Ends (suc fuel) os bankroll quantum profit seen target k g lt h =
    elim (Bool-cases (dec_ltb (dec_of 0) target)) [
      | inr e ↦ rw e tt
      | inl e ↦
          rw (e, unseen target seen h)
            (try_plan-Ends _ os bankroll quantum profit target
              (evaluate_target_payout os target quantum)
              (λ d (positive, lower, (j, at)).
                search_loop-Ends fuel os bankroll quantum profit (target ∷ seen) d j (λ _. at)
                  (omega (arith, OnGrid-ltb quantum.scale j k d target at (g e) lower))
                  (lower, All-map _ _ (λ s. dec_ltb_trans d target s lower) seen h)))
    ]

units_fit :
    (k : ℕ) (target quantum : Decimal) → OnGrid quantum.scale k target → k < enough quantum target
unfolding enough
units_fit k target quantum (sign, e) =
    rw e (omega (arith, mul-div_cancel k (one-le-pow target.scale 10 (omega arith))))

-- `_find_safe_discrete_plan` ends on every input, within as many rounds as its first target has quanta
-- and one more, and never raises the error on a target that was seen before.
pub find_safe_discrete_plan-Ends :
    (os : List Outcome) (bankroll continuous_target quantum minimum_profit : Decimal)
    → Ends (find_safe_discrete_plan os bankroll continuous_target quantum minimum_profit)
unfolding find_safe_discrete_plan enough
find_safe_discrete_plan-Ends os bankroll continuous_target quantum profit =
    let target = floor_to_grid continuous_target quantum in
    elim (Bool-cases (dec_ltb (dec_of 0) target)) [
      | inl e ↦
          let (k, g) = floor_to_grid-OnGrid continuous_target quantum e in
          search_loop-Ends (enough quantum target) os bankroll quantum profit [] target k (λ _. g)
            (units_fit k target quantum g) tt
      | inr e ↦
          search_loop-Ends (enough quantum target) os bankroll quantum profit [] target 0
            (λ h. absurd (false-true (sym e ∙ h))) (omega arith) tt
    ]

abbrev pub HasFuel : TargetEnd → Type 0
HasFuel TargetEnd.out_of_fuel = ⊥
HasFuel _ = Unit {0}

drop_some : (p : Outcome → Bool) (os : List Outcome) → length (keep (λ o. not (p o)) os) ≤ length os
drop_some p [] = omega arith
drop_some p (o ∷ os) = ground (arith, drop_some p os)

-- Those that are kept and those that are not.
drop_one :
    (p : Outcome → Bool) (os : List Outcome) (v : Outcome) (vs : List Outcome)
    → keep p os ≡ v ∷ vs
    → length (keep (λ o. not (p o)) os) < length os
drop_one p [] v vs h = cc
drop_one p (o ∷ os) v vs h = elim (Bool-cases (p o)) [
  | inl e ↦ rw e (omega (arith, drop_some p os))
  | inr e ↦ rw e (omega (arith, drop_one p os v vs (rw e at h)))
]

leave-HasFuel :
    (again : Decimal → List Outcome → TargetEnd) (bankroll fixed target : Decimal)
    (active violating : List Outcome)
    → keep (is_violating target) active ≡ violating
    → ((d : Decimal) (os : List Outcome) → length os < length active → HasFuel (again d os))
    → HasFuel (leave again bankroll fixed target active violating)
unfolding leave
leave-HasFuel again bankroll fixed target active [] e f = tt
leave-HasFuel again bankroll fixed target active (v ∷ vs) e f =
    elim (Bool-cases (dec_ltb bankroll (sum_from fixed (minima (v ∷ vs))))) [
      | inl over ↦ rw over tt
      | inr fits ↦ rw fits (f _ _ (drop_one (is_violating target) active v vs e))
    ]

loop_from-HasFuel :
    (again : Decimal → List Outcome → TargetEnd) (bankroll fixed target : Decimal)
    (active : List Outcome)
    → ((d : Decimal) (os : List Outcome) → length os < length active → HasFuel (again d os))
    → HasFuel (loop_from again bankroll fixed target active)
unfolding loop_from
loop_from-HasFuel again bankroll fixed target active f =
    leave-HasFuel again bankroll fixed target active (keep (is_violating target) active) refl f

pub target_loop-HasFuel :
    (fuel : ℕ) (bankroll fixed : Decimal) (target : Option Decimal) (active : List Outcome)
    → length active ≤ fuel
    → HasFuel (target_loop fuel bankroll fixed target active)
unfolding target_loop
target_loop-HasFuel fuel bankroll fixed target [] h = tt
target_loop-HasFuel zero bankroll fixed target (o ∷ os) h = absurd (omega arith)
target_loop-HasFuel (suc fuel) bankroll fixed target (o ∷ os) h =
    let total = dec_sum (reciprocals (o ∷ os)) in
    let share = ctx_div (ctx_sub bankroll fixed) total in
    elim (Bool-cases (dec_leb total (dec_of 0))) [
      | inl e ↦ rw e tt
      | inr e ↦ rw e (
          loop_from-HasFuel (λ d active. target_loop fuel bankroll d (some share) active) bankroll
            fixed share (o ∷ os)
            (λ d active lt. target_loop-HasFuel fuel bankroll d (some share) active (omega arith)))
    ]
