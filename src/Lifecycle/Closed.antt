-- ===== src/Lifecycle/Closed.antt =====
-- lifecycle/evaluator.py: `revalidate_opportunity` fails closed.
use arbiscan_arbitrage_scann.Prelude.{
  not-false, ℕ, ◌≡◌, refl, ap, subst, ◌∙◌, Bool, true, false, not, ◌||◌, inl, inr, arith, Option,
  none, some, List, any, length, ltb, nat_eq, same_set, All, All-map, any-All, if◌then◌else◌,
  Bool-cases,
}
use arbiscan_arbitrage_scann.Domain.{Decimal, dec_leb, dec_ltb, dec_of, OddsQuote, is_active}
use arbiscan_arbitrage_scann.Domain.Number.{dec_ltb-false}
use arbiscan_arbitrage_scann.Domain.Stakes.{StakePlan, amounts}
use arbiscan_arbitrage_scann.Domain.Grid.{dec_sum}
use arbiscan_arbitrage_scann.Arbitrage.Fraction.{Result, ok, err, ◌>>=◌}
use arbiscan_arbitrage_scann.Arbitrage.Market.{
  ArbitrageEvaluation, evaluate_market, Opportunity, opportunity, quote_ids, selection_ids,
}
use arbiscan_arbitrage_scann.Arbitrage.Staking.Allocate.{allocate_stakes}
use arbiscan_arbitrage_scann.Arbitrage.Staking.Sound.{IsSafePlan, allocate_stakes-IsSafePlan}
use arbiscan_arbitrage_scann.Lifecycle.{
  LifecycleState, LifecycleEvaluation, ActionabilityPolicy, is_out_of_age, has_drifted,
  net_profit_of, net_roi_of, verdict, with_plan, with_evaluation, request_of, revalidated,
  revalidate_opportunity, result,
}

-- What an actionable evaluation rests on.
pub record IsGrounded (o : Opportunity) (quotes : List OddsQuote) (now plan_id : ℕ)
    (p : ActionabilityPolicy) (r : LifecycleEvaluation) : Type 0 where
  pub same_quotes : same_set (quote_ids quotes) o.quote_ids ≡ true
  pub all_active : All (λ q. is_active q.status ≡ true) quotes
  pub all_in_age : All (λ q. is_out_of_age p now q ≡ false) quotes
  pub evaluation : ArbitrageEvaluation
  pub evaluated : evaluate_market quotes (selection_ids quotes) (dec_of 0) ≡ ok evaluation
  pub is_arbitrage : evaluation.is_arbitrage ≡ true
  pub within_drift :
      has_drifted p.maximum_margin_drift o.theoretical_profit_margin
        evaluation.theoretical_profit_margin
      ≡ false
  pub plan : StakePlan
  pub planned : r.stake_plan ≡ some plan
  pub safe : IsSafePlan evaluation.quotes (request_of p now plan_id) plan
  pub net : r.net_guaranteed_profit ≡ some (net_profit_of p plan.guaranteed_profit)
  pub enough :
      (dec_leb p.minimum_guaranteed_profit (net_profit_of p plan.guaranteed_profit) ≡ true)
      × (dec_ltb (dec_of 0) (net_profit_of p plan.guaranteed_profit) ≡ true)
  pub returns :
      dec_leb p.minimum_roi
        (net_roi_of (net_profit_of p plan.guaranteed_profit) (dec_sum (amounts plan.allocations)))
      ≡ true

-- A property of evaluations that are actionable.
abbrev IfActionable : LifecycleState → Type 0 → Type 0
IfActionable LifecycleState.actionable X = X
IfActionable _ X = Unit {0}

abbrev Holds : (LifecycleEvaluation → Type 0) → Result LifecycleEvaluation → Type 0
Holds P (err e) = Unit {0}
Holds P (ok r) = IfActionable r.state (P r)

>>=-Holds :
    {A : Type 0} (P : LifecycleEvaluation → Type 0) (m : Result A)
    (next : A → Result LifecycleEvaluation)
    → ((a : A) → m ≡ ok a → Holds P (next a))
    → Holds P (m >>= next)
>>=-Holds P (err e) next f = tt
>>=-Holds P (ok a) next f = f a refl

weaken :
    (state : LifecycleState) (X Y : Type 0) → (X → Y) → IfActionable state X → IfActionable state Y
weaken LifecycleState.actionable X Y f h = f h
weaken LifecycleState.detected X Y f h = tt
weaken LifecycleState.validated X Y f h = tt
weaken LifecycleState.stale X Y f h = tt
weaken LifecycleState.invalidated X Y f h = tt
weaken LifecycleState.expired X Y f h = tt

-- A guard that returns an evaluation which is not actionable.
guard-Holds :
    (P : LifecycleEvaluation → Type 0) (test : Bool) (r : LifecycleEvaluation)
    (rest : Result LifecycleEvaluation)
    → IfActionable r.state ⊥
    → (test ≡ false → Holds P rest)
    → Holds P (if test then ok r else rest)
guard-Holds P true r rest other f = weaken r.state ⊥ (P r) (λ h. absurd h) other
guard-Holds P false r rest other f = f refl

or_false : (a b : Bool) → (a || b) ≡ false → (a ≡ false) × (b ≡ false)
or_false a b h = ground arith

above : (a b : Decimal) → dec_leb a b ≡ false → dec_ltb b a ≡ true
unfolding dec_ltb
above a b h = ap not h

-- What the tests of a verdict say of it.
verdict-enough :
    (p : ActionabilityPolicy) (net roi : Decimal)
    → IfActionable (verdict p net roi).0 (
        (dec_leb p.minimum_guaranteed_profit net ≡ true)
        × (dec_ltb (dec_of 0) net ≡ true)
        × (dec_leb p.minimum_roi roi ≡ true))
unfolding verdict
verdict-enough p net roi =
    elim (Bool-cases (dec_ltb net p.minimum_guaranteed_profit || dec_leb net (dec_of 0))) [
      | inl e ↦ rw e tt
      | inr e ↦ rw e (elim (Bool-cases (dec_ltb roi p.minimum_roi)) [
        | inl f ↦ rw f tt
        | inr f ↦
            let (enough, positive) =
              or_false (dec_ltb net p.minimum_guaranteed_profit) (dec_leb net (dec_of 0)) e in
            rw f (
              dec_ltb-false net p.minimum_guaranteed_profit enough,
              above net (dec_of 0) positive,
              dec_ltb-false roi p.minimum_roi f,
            )
      ])
    ]

module _ (o : Opportunity) (quotes : List OddsQuote) (now plan_id : ℕ)
    (p : ActionabilityPolicy) where
  with_plan-Holds :
      (e : ArbitrageEvaluation) (plan : Option StakePlan)
      → ((made : StakePlan)
          → plan ≡ some made
          → IsSafePlan e.quotes (request_of p now plan_id) made)
      → same_set (quote_ids quotes) o.quote_ids ≡ true
      → All (λ q. is_active q.status ≡ true) quotes
      → All (λ q. is_out_of_age p now q ≡ false) quotes
      → evaluate_market quotes (selection_ids quotes) (dec_of 0) ≡ ok e
      → e.is_arbitrage ≡ true
      → has_drifted p.maximum_margin_drift o.theoretical_profit_margin e.theoretical_profit_margin
        ≡ false
      → Holds
          (IsGrounded o quotes now plan_id p)
          (ok (with_plan p e.theoretical_profit_margin plan))
  unfolding with_plan result
  with_plan-Holds e none safe ids active age evaluated flag drift = tt
  with_plan-Holds e (some plan) safe ids active age evaluated flag drift =
      let net = net_profit_of p plan.guaranteed_profit in
      let roi = net_roi_of net (dec_sum (amounts plan.allocations)) in
      weaken (verdict p net roi).0 _ _
        (λ h. record {
          same_quotes = ids;
          all_active = active;
          all_in_age = age;
          evaluation = e;
          evaluated = evaluated;
          is_arbitrage = flag;
          within_drift = drift;
          plan = plan;
          planned = refl;
          safe = safe plan refl;
          net = refl;
          enough = (h.0, h.1);
          returns = h.2;
        })
        (verdict-enough p net roi)

  with_evaluation-Holds :
      (e : ArbitrageEvaluation)
      → same_set (quote_ids quotes) o.quote_ids ≡ true
      → All (λ q. is_active q.status ≡ true) quotes
      → All (λ q. is_out_of_age p now q ≡ false) quotes
      → evaluate_market quotes (selection_ids quotes) (dec_of 0) ≡ ok e
      → Holds (IsGrounded o quotes now plan_id p) (with_evaluation p now plan_id o e)
  unfolding with_evaluation result
  with_evaluation-Holds e ids active age evaluated =
      let P = IsGrounded o quotes now plan_id p in
      guard-Holds P (not e.is_arbitrage) _ _ tt (λ flag.
        guard-Holds P
          (has_drifted p.maximum_margin_drift o.theoretical_profit_margin
            e.theoretical_profit_margin)
          _ _ tt
          (λ drift. >>=-Holds P (opportunity (revalidated o e)) _ (λ current _.
            >>=-Holds P (allocate_stakes current e.quotes (request_of p now plan_id)) _
              (λ plan allocated.
                with_plan-Holds e plan
                  (λ made same.
                    allocate_stakes-IsSafePlan current e.quotes (request_of p now plan_id) made
                      (allocated ∙ ap ok same))
                  ids active age evaluated (not-false e.is_arbitrage flag) drift))))

  revalidate_opportunity-Holds :
      Holds (IsGrounded o quotes now plan_id p) (revalidate_opportunity o quotes now plan_id p)
  unfolding revalidate_opportunity result
  revalidate_opportunity-Holds =
      let P = IsGrounded o quotes now plan_id p in
      guard-Holds P (ltb (length quotes) 2) _ _ tt (λ _.
        guard-Holds P (not (same_set (quote_ids quotes) o.quote_ids)) _ _ tt (λ ids.
          guard-Holds P (any (λ q. not (is_active q.status)) quotes) _ _ tt (λ active.
            guard-Holds P (any (is_out_of_age p now) quotes) _ _ tt (λ age.
              >>=-Holds P (evaluate_market quotes (selection_ids quotes) (dec_of 0)) _
                (λ e evaluated.
                  with_evaluation-Holds e (not-false (same_set (quote_ids quotes) o.quote_ids) ids)
                    (All-map _ _ (λ q h. not-false (is_active q.status) h) quotes
                      (any-All _ quotes active))
                    (any-All _ quotes age) evaluated)))))

-- An opportunity is surfaced as actionable only on current grounds: the quotes are those it was found
-- on, all active and within the maximum age; they still are an arbitrage, whose margin has not fallen by more than
-- the drift allowed; there is a safe stake plan for them within the exposure; and what is left of its
-- profit after commission and tax is positive, and no less than the profit and the return demanded.
pub revalidate_opportunity-IsGrounded :
    (o : Opportunity) (quotes : List OddsQuote) (now plan_id : ℕ) (p : ActionabilityPolicy)
    (r : LifecycleEvaluation)
    → revalidate_opportunity o quotes now plan_id p ≡ ok r
    → r.state ≡ LifecycleState.actionable
    → IsGrounded o quotes now plan_id p r
revalidate_opportunity-IsGrounded o quotes now plan_id p r h state =
    let P = IsGrounded o quotes now plan_id p in
    subst (λ st. IfActionable st (P r)) state
      (subst (Holds P) h (revalidate_opportunity-Holds o quotes now plan_id p))
