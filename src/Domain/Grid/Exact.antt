-- ===== src/Domain/Grid/Exact.antt =====
-- decimal.Decimal in a context of 60 digits: what has few enough digits is not rounded.
use arbiscan_arbitrage_scann.Prelude.{
  ℕ, zero, suc, ◌+◌, ◌-◌, ◌*◌, ◌/◌, ◌^◌, ◌≤◌, ◌<◌, ◌≡◌, inl, inr, sym, ap, arith, ltb, leb,
  Bool-cases, leb→le,
}
use arbiscan_arbitrage_scann.Prelude.Int.{ℤ, pos, negsuc, pos_part, neg_part, sub_ℕ}
use arbiscan_arbitrage_scann.Domain.Number.{Decimal}
use arbiscan_arbitrage_scann.Domain.Context.{
  rounded_at, round_to, round_ratio, in_context, negate, count_digits, precision,
}
use native.Mathlib.Nat.{pow-suc, mul-le-mul_left, eq_of_mul-eq-mul_right}
use arbiscan_arbitrage_scann.Domain.Grid.Laws.{round_to_nonneg, half_even_exact, ten_add, times_add}

count_digits-le : (f n k : ℕ) → n < 10 ^ k → count_digits f n ≤ k
unfolding count_digits
count_digits-le zero n k h = omega arith
count_digits-le (suc f) n zero h = ground arith
count_digits-le (suc f) n (suc k) h =
    ground (arith, pow-suc 10 k, count_digits-le f (n / 10) k (omega (arith, h, pow-suc 10 k)))

less-ten-pow : (f n : ℕ) → n ≤ f → n < 10 ^ count_digits f n
unfolding count_digits
less-ten-pow zero n h = omega arith
less-ten-pow (suc f) n h =
    ground (arith, pow-suc 10 (count_digits f (n / 10)), less-ten-pow f (n / 10) (omega (arith, h)))

rounded_at-exact :
    (num den q up : ℕ)
    → 0 < den
    → 2 ≤ up
    → num * 10 ^ 2 ≡ q * den
    → pos_part (rounded_at num den up 0).coeff * den ≡ num * 10 ^ (rounded_at num den up 0).scale
unfolding rounded_at
rounded_at-exact num den q up positive le e =
    let shift = 10 ^ (up - 2) in
    let whole : num * 10 ^ up ≡ q * shift * den =
      omega (arith, times_ten num up le, ap (λ (t : ℕ). t * shift) e) in
    let unit : den * 10 ^ 0 ≡ den = omega arith in
    rw (whole, unit, half_even_exact (q * shift) den positive) (omega (arith, whole))
  where
    times_ten : (n u : ℕ) → 2 ≤ u → n * 10 ^ u ≡ n * 10 ^ 2 * 10 ^ (u - 2)
    times_ten n u h = sym (times_add n 2 (u - 2) u (omega (arith, h)))

-- A value of two digits after the point, and below 10 ^ 50, is not rounded to 60 digits.
round_ratio-exact :
    (num den q : ℕ)
    → 0 < den
    → num < den * 10 ^ 50
    → num * 10 ^ 2 ≡ q * den
    → pos_part (round_ratio num den).coeff * den ≡ num * 10 ^ (round_ratio num den).scale
unfolding round_ratio round_to
round_ratio-exact num den q positive small e =
    let c = count_digits den den in
    let have = count_digits num num in
    let bounded : have ≤ c + 50 = count_digits-le num num (c + 50) (
      omega (
        arith,
        small,
        ten_add c 50,
        mul-le-mul_left (10 ^ 50) (less-ten-pow den den (omega arith)),
      )) in
    let wanted = precision + c in
    let up = wanted - have in
    let down = have - wanted in
    let none_down : down ≡ 0 = omega (arith, bounded) in
    elim (Bool-cases (ltb (num * 10 ^ up / (den * 10 ^ down)) (10 ^ precision))) [
      | inl f ↦
          rw (f, none_down) (rounded_at-exact num den q up positive (omega (arith, bounded)) e)
      | inr f ↦ rw f (elim (Bool-cases (ltb 0 up)) [
        | inl g ↦
            rw (g, none_down)
              (rounded_at-exact num den q (up - 1) positive (omega (arith, bounded)) e)
        | inr g ↦ absurd (ground (arith, bounded))
      ])
    ]

pub round_ratio_nonneg : (num den : ℕ) → neg_part (round_ratio num den).coeff ≡ 0
unfolding round_ratio
round_ratio_nonneg num den = round_to_nonneg precision num den

-- d is q / 4.
abbrev pub IsQuarters : ℤ → Decimal → Type 0
IsQuarters q d =
    (pos_part d.coeff * 4 ≡ pos_part q * 10 ^ d.scale)
    × (neg_part d.coeff * 4 ≡ neg_part q * 10 ^ d.scale)

round_ratio-quarters :
    (n q den : ℕ)
    → 0 < den
    → q < 10 ^ 50
    → n * 4 ≡ q * den
    → pos_part (round_ratio n den).coeff * 4 ≡ q * 10 ^ (round_ratio n den).scale
round_ratio-quarters n q den positive small e =
    let d = round_ratio n den in
    let p = pos_part d.coeff in
    let t = 10 ^ d.scale in
    let exact : p * den ≡ n * t =
      round_ratio-exact n den (25 * q) positive (omega (arith, e, mul-le-mul_left den small))
        (omega (arith, e)) in
    eq_of_mul-eq-mul_right den positive (p * 4) (q * t)
      (omega (arith, exact, ap (λ (x : ℕ). x * t) e))

pub sub_ℕ-pos : (a b : ℕ) → b ≤ a → sub_ℕ a b ≡ pos (a - b)
sub_ℕ-pos a b h = ground arith

sub_ℕ-negsuc : (a b : ℕ) → a < b → sub_ℕ a b ≡ negsuc (b - a - 1)
sub_ℕ-negsuc a b h = ground arith

negate-parts :
    (d : Decimal)
    → neg_part d.coeff ≡ 0
    → (pos_part (negate d).coeff ≡ 0) × (neg_part (negate d).coeff ≡ pos_part d.coeff)
unfolding negate
negate-parts d h = ground arith

in_context-pos :
    (x p den : ℕ)
    → 0 < den
    → p < 10 ^ 50
    → x * 4 ≡ p * den
    → IsQuarters (pos p) (in_context (pos x) den)
unfolding in_context
in_context-pos x p den positive small e =
    let none_below : neg_part (round_ratio x den).coeff ≡ 0 = round_ratio_nonneg x den in
    (round_ratio-quarters x p den positive small e, omega (arith, none_below))

in_context-negsuc :
    (x p den : ℕ)
    → 0 < den
    → suc p < 10 ^ 50
    → suc x * 4 ≡ suc p * den
    → IsQuarters (negsuc p) (in_context (negsuc x) den)
unfolding in_context negate
in_context-negsuc x p den positive small e =
    let (none, all) = negate-parts (round_ratio (suc x) den) (round_ratio_nonneg (suc x) den) in
    (
      omega (arith, none),
      omega (arith, all, round_ratio-quarters (suc x) (suc p) den positive small e),
    )

times_difference : (p n den : ℕ) → n ≤ p → (p - n) * den + n * den ≡ p * den
times_difference p n den h =
    let whole : p - n + n ≡ p = omega (arith, h) in omega (arith, ap (λ (t : ℕ). t * den) whole)

-- A difference of two quarters, in the context.
pub in_context-IsQuarters :
    (x y p n den : ℕ)
    → 0 < den
    → p < 10 ^ 50
    → n < 10 ^ 50
    → x * 4 ≡ p * den
    → y * 4 ≡ n * den
    → IsQuarters (sub_ℕ p n) (in_context (sub_ℕ x y) den)
in_context-IsQuarters x y p n den positive ps ns e f = elim (Bool-cases (leb n p)) [
  | inl g ↦
      let le : n ≤ p = leb→le n p g in
      let le' : y ≤ x = omega (arith, e, f, mul-le-mul_left den le) in
      rw (sub_ℕ-pos p n le, sub_ℕ-pos x y le')
        (in_context-pos (x - y) (p - n) den positive (omega (arith, ps))
          (omega (arith, e, f, le, le', times_difference p n den le)))
  | inr g ↦
      let lt : p < n = ground arith in
      let lt' : x < y = omega (arith, e, f, mul-le-mul_left den lt, positive) in
      let step : suc (n - p - 1) ≡ n - p = omega (arith, lt) in
      rw (sub_ℕ-negsuc p n lt, sub_ℕ-negsuc x y lt')
        (in_context-negsuc (y - x - 1) (n - p - 1) den positive (omega (arith, ns, lt)) (
          omega (
            arith,
            e,
            f,
            lt,
            lt',
            times_difference n p den (omega (arith, lt)),
            ap (λ (t : ℕ). t * den) step,
          )))
]
