-- ===== src/Domain/Stakes.antt =====
-- domain/models.py: StakeAllocation and StakePlan. The currency is the normalised code.
use arbiscan_arbitrage_scann.Prelude.{
  ℕ, Bool, not, ◌||◌, Option, List, [], ◌∷◌, map, length, ltb, nat_eq, all_distinct, checked,
}
use arbiscan_arbitrage_scann.Domain.Number.{Decimal, dec_of, dec_leb, dec_ltb, dec_eqb}
use arbiscan_arbitrage_scann.Domain.Context.{ctx_sub}
use arbiscan_arbitrage_scann.Domain.Grid.{dec_sum, sum_from, min_of}

pub record StakeAllocation : Type 0 where
  pub quote_id : ℕ
  pub selection_id : ℕ
  pub provider_id : ℕ
  pub amount : Decimal
  pub expected_payout : Decimal

-- `StakeAllocation.__post_init__`
unfoldable pub is_bad_allocation : StakeAllocation → Bool
unfolding dec_leb
is_bad_allocation a = dec_leb a.amount (dec_of 0) || dec_leb a.expected_payout (dec_of 0)

pub record StakePlan : Type 0 where
  pub id : ℕ
  pub opportunity_id : ℕ
  pub currency : ℕ
  pub bankroll : Decimal
  pub allocations : List StakeAllocation
  pub guaranteed_payout : Decimal
  pub guaranteed_profit : Decimal
  pub created_at : ℕ

abbrev pub amounts : List StakeAllocation → List Decimal
amounts allocations = map (λ a. a.amount) allocations

-- `min(allocation.expected_payout ...)`; the checks refuse an empty row before.
abbrev pub least_payout : List StakeAllocation → Decimal
least_payout [] = dec_of 0
least_payout (a ∷ others) = min_of a.expected_payout (map (λ b. b.expected_payout) others)

-- `StakePlan.__post_init__`, in the context of `allocate_stakes`.
unfoldable pub plan_guards : StakePlan → List Bool
unfolding dec_leb dec_ltb dec_eqb sum_from min_of ctx_sub
plan_guards p =
    dec_leb p.bankroll (dec_of 0)
    ∷ dec_leb p.guaranteed_payout (dec_of 0)
    ∷ dec_leb p.guaranteed_profit (dec_of 0)
    ∷ ltb (length p.allocations) 2
    ∷ not (all_distinct (map (λ a. a.quote_id) p.allocations))
    ∷ not (all_distinct (map (λ a. a.selection_id) p.allocations))
    ∷ dec_ltb p.bankroll (dec_sum (amounts p.allocations))
    ∷ not (dec_eqb p.guaranteed_payout (least_payout p.allocations))
    ∷ not (
        dec_eqb p.guaranteed_profit (ctx_sub p.guaranteed_payout (dec_sum (amounts p.allocations))))
    ∷ []

-- The constructors; `none` is the raised DomainValidationError.
unfoldable pub stake_plan : StakePlan → Option StakePlan
unfolding plan_guards
stake_plan p = checked (plan_guards p) p
