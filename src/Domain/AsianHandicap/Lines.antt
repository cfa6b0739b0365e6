-- ===== src/Domain/AsianHandicap/Lines.antt =====
-- domain/asian_handicap.py: the profile of a line that is a multiple of a quarter.
use arbiscan_arbitrage_scann.Prelude.{
  ℕ, ◌+◌, ◌*◌, ◌%◌, ◌^◌, ◌<◌, ◌≡◌, refl, sym, ap, subst, ◌∙◌, arith, true, false, some, [], ◌∷◌,
}
use arbiscan_arbitrage_scann.Prelude.Int.{ℤ, pos, negsuc, pos_part, neg_part}
use arbiscan_arbitrage_scann.Domain.Number.{Decimal, dec_of, dec_leb, dec_eqb}
use arbiscan_arbitrage_scann.Domain.Context.{ctx_mul, round_to}
use arbiscan_arbitrage_scann.Domain.Grid.{ctx_div, floor_value, default_add}
use arbiscan_arbitrage_scann.Domain.Grid.Exact.{IsQuarters}
use arbiscan_arbitrage_scann.Domain.AsianHandicap.{
  AsianHandicapLineClass, AsianHandicapComponent, half, lower_line, upper_line, component,
  validate_component, validate_profile, is_bad_total, whole_profile, quarter_profile, profile_at,
  remainder, asian_handicap_line_profile, default_sum,
}
use arbiscan_arbitrage_scann.Domain.AsianHandicap.Quarters.{
  floor_quarters, ceil_quarters, floor_value-quarters, ceil_value-quarters, times,
  ctx_mul-IsQuarters, ctx_div-IsQuarters, ten_positive, integral,
}
use native.Mathlib.Nat.{mul-le-mul_left}

program : Unit {0}
unfolding component validate_component validate_profile is_bad_total default_sum default_add
    round_to
program = tt

-- A line is u / 4, with room for the digits of all sums.
pub record IsLine (u : ℤ) (line : Decimal) : Type 0 where
  pub quarters : IsQuarters u line
  pub small : pos_part u + neg_part u < 10 ^ 48

floor-times_four : (u : ℤ) → floor_quarters (times 4 u) ≡ u
floor-times_four (pos m) = ground arith
floor-times_four (negsuc m) = ground arith

times-parts :
    (k : ℕ) (u : ℤ)
    → (pos_part (times k u) ≡ k * pos_part u) × (neg_part (times k u) ≡ k * neg_part u)
times-parts k (pos m) = ground arith
times-parts k (negsuc m) = ground arith

integral-eqb : (u : ℤ) (d : Decimal) → IsQuarters (times 4 u) d → dec_eqb d (integral u) ≡ true
unfolding dec_eqb dec_leb
integral-eqb u d (h, k) =
    let (p, n) = times-parts 4 u in
    ground (arith, h, k, ap (λ (t : ℕ). t * 10 ^ d.scale) p, ap (λ (t : ℕ). t * 10 ^ d.scale) n)

pub line_profile-at :
    (u : ℤ) (line : Decimal)
    → IsLine u line
    → asian_handicap_line_profile line ≡ profile_at line (remainder u)
unfolding asian_handicap_line_profile
line_profile-at u line h =
    let units = ctx_mul line (dec_of 4) in
    let at : IsQuarters (times 4 u) units =
      ctx_mul-IsQuarters 4 u line.coeff line.scale (omega (arith, h.small)) (omega (arith, h.small))
        h.quarters in
    let whole : floor_value units ≡ integral u =
      floor_value-quarters (times 4 u) units.coeff units.scale at
      ∙ ap integral (floor-times_four u) in
    rw (whole, integral-eqb u units at) refl

-- The lines around a quarter line, in quarters.
abbrev pub below : ℤ → ℤ
below u = times 2 (floor_quarters (times 2 u))

abbrev pub above : ℤ → ℤ
above u = times 2 (ceil_quarters (times 2 u))

abbrev pub IsNext : ℤ → ℤ → Type 0
IsNext q r = pos_part q + neg_part r + 1 ≡ pos_part r + neg_part q

pub below-IsNext : (u : ℤ) → remainder u % 2 ≡ 1 → IsNext (below u) u
below-IsNext (pos m) h = ground arith
below-IsNext (negsuc m) h = ground arith

pub above-IsNext : (u : ℤ) → remainder u % 2 ≡ 1 → IsNext u (above u)
above-IsNext (pos m) h = ground arith
above-IsNext (negsuc m) h = ground arith

pub below_small :
    (u : ℤ)
    → pos_part u + neg_part u < 10 ^ 48
    → (pos_part (below u) < 10 ^ 49) × (neg_part (below u) < 10 ^ 49)
below_small (pos m) h = ground arith
below_small (negsuc m) h = ground arith

pub above_small :
    (u : ℤ)
    → pos_part u + neg_part u < 10 ^ 48
    → (pos_part (above u) < 10 ^ 49) × (neg_part (above u) < 10 ^ 49)
above_small (pos m) h = ground arith
above_small (negsuc m) h = ground arith

small_floor :
    (u : ℤ)
    → pos_part u + neg_part u < 10 ^ 48
    → (2 * pos_part (floor_quarters (times 2 u)) < 10 ^ 49)
      × (2 * neg_part (floor_quarters (times 2 u)) < 10 ^ 49)
small_floor (pos m) h = ground arith
small_floor (negsuc m) h = ground arith

small_ceil :
    (u : ℤ)
    → pos_part u + neg_part u < 10 ^ 48
    → (2 * pos_part (ceil_quarters (times 2 u)) < 10 ^ 49)
      × (2 * neg_part (ceil_quarters (times 2 u)) < 10 ^ 49)
small_ceil (pos m) h = ground arith
small_ceil (negsuc m) h = ground arith

doubled-IsQuarters :
    (u : ℤ) (line : Decimal) → IsLine u line → IsQuarters (times 2 u) (ctx_mul line (dec_of 2))
doubled-IsQuarters u line h =
    ctx_mul-IsQuarters 2 u line.coeff line.scale (omega (arith, h.small)) (omega (arith, h.small))
      h.quarters

pub lower_line-IsQuarters :
    (u : ℤ) (line : Decimal) → IsLine u line → IsQuarters (below u) (lower_line line)
unfolding lower_line
lower_line-IsQuarters u line h =
    let doubled = ctx_mul line (dec_of 2) in
    let units = floor_quarters (times 2 u) in
    let (ps, ns) = small_floor u h.small in
    subst (λ d. IsQuarters (below u) (ctx_div d (dec_of 2)))
      (sym (
        floor_value-quarters (times 2 u) doubled.coeff doubled.scale (doubled-IsQuarters u line h)))
      (ctx_div-IsQuarters units (omega (arith, ps)) (omega (arith, ns)))

pub upper_line-IsQuarters :
    (u : ℤ) (line : Decimal) → IsLine u line → IsQuarters (above u) (upper_line line)
unfolding upper_line
upper_line-IsQuarters u line h =
    let doubled = ctx_mul line (dec_of 2) in
    let units = ceil_quarters (times 2 u) in
    let (ps, ns) = small_ceil u h.small in
    subst (λ d. IsQuarters (above u) (ctx_div d (dec_of 2)))
      (sym
        (ceil_value-quarters (times 2 u) doubled.coeff doubled.scale (doubled-IsQuarters u line h)))
      (ctx_div-IsQuarters units (omega (arith, ps)) (omega (arith, ns)))

-- Different quarters are different decimals.
pub dec_eqb-quarters :
    (p q : ℤ) (a b : Decimal)
    → IsQuarters p a
    → IsQuarters q b
    → pos_part p + neg_part q < pos_part q + neg_part p
    → dec_eqb a b ≡ false
unfolding dec_eqb dec_leb
dec_eqb-quarters p q a b h k lt =
    let ta = 10 ^ a.scale in
    let tb = 10 ^ b.scale in
    ground (
      arith,
      mul-le-mul_left (ta * tb) lt,
      ap (λ (t : ℕ). t * tb) h.0,
      ap (λ (t : ℕ). t * tb) h.1,
      ap (λ (t : ℕ). t * ta) k.0,
      ap (λ (t : ℕ). t * ta) k.1,
      product_positive ta tb (ten_positive a.scale) (ten_positive b.scale),
    )
  where
    product_positive : (x y : ℕ) → 0 < x → 0 < y → 0 < x * y
    product_positive x y hx hy = omega (arith, hx, hy, mul-le-mul_left x hy)

abbrev pub piece : Decimal → Decimal → AsianHandicapComponent
piece line fraction = record { line = line; stake_fraction = fraction }

pub whole_profile-integer :
    (line : Decimal)
    → whole_profile line AsianHandicapLineClass.integer
      ≡ some (record {
        line = line;
        line_class = AsianHandicapLineClass.integer;
        components = piece line (dec_of 1) ∷ [];
      })
unfolding whole_profile program
whole_profile-integer line = refl

pub whole_profile-half_goal :
    (line : Decimal)
    → whole_profile line AsianHandicapLineClass.half_goal
      ≡ some (record {
        line = line;
        line_class = AsianHandicapLineClass.half_goal;
        components = piece line (dec_of 1) ∷ [];
      })
unfolding whole_profile program
whole_profile-half_goal line = refl

pub quarter_profile-quarter :
    (line : Decimal)
    → dec_eqb (lower_line line) (upper_line line) ≡ false
    → quarter_profile line
      ≡ some (record {
        line = line;
        line_class = AsianHandicapLineClass.quarter;
        components = piece (lower_line line) half ∷ piece (upper_line line) half ∷ [];
      })
unfolding quarter_profile program
quarter_profile-quarter line h = rw h refl
