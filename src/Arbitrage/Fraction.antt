-- ===== src/Arbitrage/Fraction.antt =====
-- fractions.Fraction, as arbitrage/core.py uses it: sums of positive fractions, compared with one.
-- A fraction is not brought to lowest terms here: the code only compares and divides it.
use arbiscan_arbitrage_scann.Prelude.{
  ◌≡◌, refl, ℕ, ◌+◌, ◌*◌, ◌^◌, Bool, true, false, ltb, List, [], ◌∷◌, length, All, if◌then◌else◌,
}
use arbiscan_arbitrage_scann.Prelude.Int.{pos_part}
use arbiscan_arbitrage_scann.Domain.{Decimal, dec_leb, dec_of}
use arbiscan_arbitrage_scann.Domain.Context.{round_ratio}

pub record Fraction : Type 0 where
  pub num : ℕ
  pub den : ℕ

-- The reasons of ArbitrageMathError in core.py, models.py, staking.py and refundable.py; `incomplete`
-- is IncompleteMarketError.
pub data MathError : Type 0 where
  too_few_outcomes odds_not_above_one negative_threshold : MathError
  too_few_quotes too_few_expected duplicate_expected : MathError
  other_event other_market inactive duplicate_quote duplicate_selection : MathError
  incomplete uncovered not_positive_sum not_positive_multiplier margin_mismatch flag_mismatch :
      MathError
  not_arbitrage not_two : MathError
  -- Those of staking.py; StakeConstraintError, DomainValidationError and decimal.InvalidOperation.
  sum_mismatch not_active bad_bankroll negative_profit other_quotes no_progress bad_reciprocal_sum :
      MathError
  refund_mismatch outside_constraint duplicate_constraint off_quantum invalid_operation
        domain_error :
      MathError

pub data Result (A : Type 0) : Type 0 where
  err : MathError → Result A
  ok : A → Result A

infixl 4 ◌>>=◌
abbrev pub ◌>>=◌ : {A B : Type 0} → Result A → (A → Result B) → Result B
err e >>= next = err e
ok a >>= next = next a

pub ok-injective : {A : Type 0} {a b : A} → ok a ≡ ok b → a ≡ b
ok-injective h = cc

-- What a chain that succeeded went through.
pub >>=-eq-ok :
    {A B : Type 0} (m : Result A) (next : A → Result B) {b : B}
    → (m >>= next) ≡ ok b
    → (a : A) × (m ≡ ok a) × (next a ≡ ok b)
>>=-eq-ok (err e) next h = cc
>>=-eq-ok (ok a) next h = (a, refl, h)

-- `if test: raise error`, and the rest.
abbrev pub unless : {A : Type 0} → Bool → MathError → Result A → Result A
unless test e rest = if test then err e else rest

-- A row of such guards: the first test that holds raises its error.
abbrev pub require : {A : Type 0} → List (Bool × MathError) → Result A → Result A
require [] rest = rest
require ((test, e) ∷ guards) rest = if test then err e else require guards rest

pub require-eq-ok :
    {A : Type 0} (guards : List (Bool × MathError)) (rest : Result A) {a : A}
    → require guards rest ≡ ok a
    → All (λ g. g.0 ≡ false) guards × (rest ≡ ok a)
require-eq-ok [] rest h = (tt, h)
require-eq-ok ((true, e) ∷ guards) rest h = cc
require-eq-ok ((false, e) ∷ guards) rest h =
    let (passed, ends) = require-eq-ok guards rest h in ((refl, passed), ends)

pub require_passed :
    {A : Type 0} (guards : List (Bool × MathError)) (rest : Result A)
    → All (λ g. g.0 ≡ false) guards
    → require guards rest ≡ rest
require_passed [] rest h = refl
require_passed ((test, e) ∷ guards) rest h = rw h.0 (require_passed guards rest h.1)

-- `_as_fraction` of odds, which are above one.
unfoldable pub as_fraction : Decimal → Fraction
as_fraction d = record { num = pos_part d.coeff; den = 10 ^ d.scale }

-- `Fraction(1, 1) / f`
unfoldable pub reciprocal : Fraction → Fraction
reciprocal f = record { num = f.den; den = f.num }

unfoldable pub add : Fraction → Fraction → Fraction
add a b = record { num = a.num * b.den + b.num * a.den; den = a.den * b.den }

-- f < Fraction(1, 1)
unfoldable pub below_one : Fraction → Bool
below_one f = ltb f.num f.den

-- `_fraction_to_decimal`
unfoldable pub fraction_to_decimal : Fraction → Decimal
fraction_to_decimal f = round_ratio f.num f.den

-- `_validate_odds`, after `_require_decimal`.
unfoldable pub validate_odds : Decimal → Result Decimal
validate_odds o = unless (dec_leb o (dec_of 1)) MathError.odds_not_above_one (ok o)

-- The loop of `_exact_implied_sum`.
unfoldable pub add_reciprocals : Fraction → List Decimal → Result Fraction
unfolding add reciprocal as_fraction validate_odds
add_reciprocals total [] = ok total
add_reciprocals total (o ∷ os) =
    validate_odds o >>= λ price. add_reciprocals (add total (reciprocal (as_fraction price))) os

abbrev pub no_sum : Fraction
no_sum = record { num = 0; den = 1 }

-- `_exact_implied_sum`
unfoldable pub exact_implied_sum : List Decimal → Result Fraction
unfolding add_reciprocals
exact_implied_sum odds =
    unless (ltb (length odds) 2) MathError.too_few_outcomes (add_reciprocals no_sum odds)
