-- ===== src/Arbitrage/Exchange/Rates.antt =====
-- arbitrage/exchange.py: the legs in one commission scope have one rate.
use mathlib.Core.Option.{some-injective}
use arbiscan_arbitrage_scann.Prelude.{
  ℕ, true, false, Option, none, some, List, [], ◌∷◌, ◌≡◌, sym, subst, ◌∙◌, inl, inr, All, ◌==◌,
  ==→eq, ==-refl, list_eq, Bool-cases, checked, checked-eq-some, not-false,
}
use arbiscan_arbitrage_scann.Prelude.Dict.{Dict, lookup, insert, lookup-insert}
use arbiscan_arbitrage_scann.Domain.{Decimal, dec_eqb}
use arbiscan_arbitrage_scann.Domain.Number.{dec_eqb_refl}
use arbiscan_arbitrage_scann.Prelude.Options.{>>=-eq-some}
use arbiscan_arbitrage_scann.Arbitrage.Exchange.{ExchangePriceObservation, ExchangeStake}
use arbiscan_arbitrage_scann.Arbitrage.Exchange.Scenario.{Scope}
use arbiscan_arbitrage_scann.Arbitrage.Exchange.Portfolio.{differs, commission_rates}
use arbiscan_arbitrage_scann.Arbitrage.Exchange.Levels.{dec_eqb-cong}

-- A rate that is there, equal by value to another.
abbrev pub IsRate : Option Decimal → Decimal → Type 0
IsRate none rate = ⊥
IsRate (some known) rate = dec_eqb known rate ≡ true

-- The leg has a scope and a rate, the one that is charged in that scope.
abbrev pub HasRate : (Scope → Option Decimal) → ExchangePriceObservation → Type 0
HasRate rates p =
    (scope : ℕ) × (rate : Decimal) × (p.commission_scope ≡ some scope)
    × (p.commission_rate ≡ some rate)
    × IsRate (rates (p.exchange_provider.id ∷ scope ∷ [])) rate

differs-IsRate :
    (o : Option Decimal) (rate other : Decimal)
    → differs o rate ≡ false
    → IsRate o other
    → dec_eqb rate other ≡ true
differs-IsRate (some known) rate other h k = sym (dec_eqb-cong known rate other (not-false _ h)) ∙ k
differs-IsRate none rate other h k = absurd k

insert-IsRate :
    (key j : Scope) (rate other : Decimal) (rates : Dict Scope Decimal)
    → differs (lookup key rates) rate ≡ false
    → IsRate (lookup j rates) other
    → IsRate (lookup j (insert key rate rates)) other
insert-IsRate key j rate other rates h k = elim (Bool-cases (key == j)) [
  | inl e ↦
      rw (lookup-insert key j rate rates, e)
        (differs-IsRate (lookup key rates) rate other h
          (subst (λ x. IsRate (lookup x rates) other) (sym (==→eq key j e)) k))
  | inr e ↦ rw (lookup-insert key j rate rates, e) k
]

insert-own :
    (key : Scope) (rate : Decimal) (rates : Dict Scope Decimal)
    → IsRate (lookup key (insert key rate rates)) rate
insert-own key rate rates = rw (lookup-insert key key rate rates, ==-refl key) (dec_eqb_refl rate)

abbrev key_of : ExchangeStake → ℕ → Scope
key_of s scope = s.price.exchange_provider.id ∷ scope ∷ []

-- What a round of the loop that does not raise goes through.
commission_rates-cons :
    (s : ExchangeStake) (ss : List ExchangeStake) (rates rates' : Dict Scope Decimal)
    → commission_rates rates (s ∷ ss) ≡ some rates'
    → (scope : ℕ) × (rate : Decimal) × (s.price.commission_scope ≡ some scope)
      × (s.price.commission_rate ≡ some rate)
      × (differs (lookup (key_of s scope) rates) rate ≡ false)
      × (commission_rates (insert (key_of s scope) rate rates) ss ≡ some rates')
unfolding commission_rates
commission_rates-cons s ss rates rates' h =
    let (scope, e1, h1) = >>=-eq-some s.price.commission_scope _ h in
    let (rate, e2, h2) = >>=-eq-some s.price.commission_rate _ h1 in
    let key = key_of s scope in
    let tests = differs (lookup key rates) rate ∷ [] in
    let (next, tested, h3) = >>=-eq-some (checked tests (insert key rate rates)) _ h2 in
    let (passed, same) = checked-eq-some tests (insert key rate rates) next tested in
    (scope, rate, e1, e2, passed.0, subst (λ x. commission_rates x ss ≡ some rates') (sym same) h3)

commission_rates-IsRate :
    (j : Scope) (other : Decimal) (ss : List ExchangeStake) (rates rates' : Dict Scope Decimal)
    → commission_rates rates ss ≡ some rates'
    → IsRate (lookup j rates) other
    → IsRate (lookup j rates') other
unfolding commission_rates
commission_rates-IsRate j other [] rates rates' h k =
    subst (λ x. IsRate (lookup j x) other) (some-injective rates rates' h) k
commission_rates-IsRate j other (s ∷ ss) rates rates' h k =
    let (scope, rate, _, _, agrees, rest) = commission_rates-cons s ss rates rates' h in
    let key = key_of s scope in
    commission_rates-IsRate j other ss (insert key rate rates) rates' rest
      (insert-IsRate key j rate other rates agrees k)

pub commission_rates-HasRate :
    (ss : List ExchangeStake) (rates rates' : Dict Scope Decimal)
    → commission_rates rates ss ≡ some rates'
    → All (λ s. HasRate (λ scope. lookup scope rates') s.price) ss
commission_rates-HasRate [] rates rates' h = tt
commission_rates-HasRate (s ∷ ss) rates rates' h =
    let (scope, rate, e1, e2, _, rest) = commission_rates-cons s ss rates rates' h in
    let key = key_of s scope in
    let next = insert key rate rates in
    (
      (
        scope,
        rate,
        e1,
        e2,
        commission_rates-IsRate key rate ss next rates' rest (insert-own key rate rates),
      ),
      commission_rates-HasRate ss next rates' rest,
    )
