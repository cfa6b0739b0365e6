-- ===== src/Domain/Grid/Laws.antt =====
-- arbitrage/staking.py: what the grids of its amounts and payouts keep.
use arbiscan_arbitrage_scann.Prelude.{
  ℕ, zero, suc, ◌+◌, ◌-◌, ◌*◌, ◌/◌, ◌^◌, ◌≤◌, ◌<◌, ◌≡◌, ◌⊎◌, inl, inr, refl, sym, ap, subst, arith,
  Bool, true, false, not, ltb, leb, List, [], ◌∷◌, All, if◌then◌else◌, Bool-cases,
}
use arbiscan_arbitrage_scann.Prelude.Int.{ℤ, pos, negsuc, pos_part, neg_part, sub_ℕ, ◌*ℤ◌}
use arbiscan_arbitrage_scann.Domain.Number.{
  Decimal, dec_of, dec_leb, dec_ltb, dec_leb_refl, dec_leb_total, dec_leb_trans,
}
use arbiscan_arbitrage_scann.Domain.Context.{
  half_even, rounded_at, round_to, round_ratio, in_context, negate, ctx_sub, ctx_mul, count_digits,
  precision,
}
use arbiscan_arbitrage_scann.Domain.Grid.{ctx_div, floor_value, floor_to_grid, dec_min, min_of}
use native.Mathlib.Nat.{
  mul-le-mul_left, one-le-pow, mul-div_cancel, mul-mod_left, add-zero, zero-mul, zero-div, zero-mod,
  zero-add, mul-one, pow-suc, add-suc, mul_assoc,
}

-- A multiple of 10 ^ -s, that is not negative: so many units of it.
abbrev pub OnGrid : ℕ → ℕ → Decimal → Type 0
OnGrid s k d = (neg_part d.coeff ≡ 0) × (pos_part d.coeff * 10 ^ s ≡ k * 10 ^ d.scale)

pub half_even_exact : (m b : ℕ) → 0 < b → half_even (m * b) b ≡ m
unfolding half_even
half_even_exact m b h = ground (arith, mul-div_cancel m h, mul-mod_left m b)

pub ten_add : (a b : ℕ) → 10 ^ (a + b) ≡ 10 ^ a * 10 ^ b
ten_add a zero = rw add-zero (omega arith)
ten_add a (suc b) = omega (
  arith,
  ap (λ (t : ℕ). 10 ^ t) (add-suc a b),
  pow-suc 10 (a + b),
  ap (λ (t : ℕ). 10 ^ a * t) (pow-suc 10 b),
  ten_add a b,
)

pub times_add : (x a b c : ℕ) → a + b ≡ c → x * 10 ^ a * 10 ^ b ≡ x * 10 ^ c
times_add x a b c e = rw (← e, ten_add a b) (mul_assoc x (10 ^ a) (10 ^ b))

exact_ratio : (n s up : ℕ) → s ≤ up → half_even (n * 10 ^ up) (10 ^ s * 1) ≡ n * 10 ^ (up - s)
exact_ratio n s up le =
    rw (← times_add n (up - s) s up (omega arith), mul-one)
      (half_even_exact (n * 10 ^ (up - s)) (10 ^ s) (one-le-pow s 10 (omega arith)))

rounded_at-OnGrid :
    (n s up down : ℕ)
    → (up ≤ s) ⊎ ((s ≤ up) × (down ≡ 0))
    → (k : ℕ) × OnGrid s k (rounded_at n (10 ^ s) up down)
unfolding rounded_at
rounded_at-OnGrid n s up down (inl le) =
    let x = half_even (n * 10 ^ up) (10 ^ s * 10 ^ down) * 10 ^ down in
    (x * 10 ^ (s - up), (refl, sym (times_add x (s - up) up s (omega arith))))
rounded_at-OnGrid n s up down (inr (le, e)) = (
  n,
  (refl, rw (e, exact_ratio n s up le) (omega (arith, times_add n (up - s) s up (omega arith)))),
)

cross_lt :
    (p q x y z j k : ℕ)
    → 0 < x
    → 0 < y
    → 0 < z
    → p * z ≡ j * x
    → q * z ≡ k * y
    → p * y < q * x
    → j < k
cross_lt p q x y z j k hx hy hz g h lt = elim (Bool-cases (ltb j k)) [
  | inl e ↦ ground arith
  | inr e ↦
      let le : k ≤ j = ground arith in
      absurd (
        omega (
          arith,
          mul-le-mul_left z lt,
          mul-le-mul_left (x * y) le,
          ap (λ (t : ℕ). t * y) g,
          ap (λ (t : ℕ). t * x) h,
          hz,
        ))
]

pub OnGrid-ltb :
    (s j k : ℕ) (a b : Decimal) → OnGrid s j a → OnGrid s k b → dec_ltb a b ≡ true → j < k
unfolding dec_ltb dec_leb
OnGrid-ltb s j k a b (na, ga) (nb, gb) lt =
    cross_lt (pos_part a.coeff) (pos_part b.coeff) (10 ^ a.scale) (10 ^ b.scale) (10 ^ s) j k
      (one-le-pow a.scale 10 (omega arith)) (one-le-pow b.scale 10 (omega arith))
      (one-le-pow s 10 (omega arith)) ga gb (ground arith)

one_side : (a b s : ℕ) → (a - b ≤ s) ⊎ ((s ≤ a - b) × (b - a ≡ 0))
one_side a b s = elim (Bool-cases (leb (a - b) s)) [
  | inl e ↦ inl (ground arith)
  | inr e ↦ inr (ground arith, ground arith)
]

one_side_less : (a b s : ℕ) → 0 < a - b → (a - b - 1 ≤ s) ⊎ ((s ≤ a - b - 1) × (b - a ≡ 0))
one_side_less a b s h = elim (Bool-cases (leb (a - b - 1) s)) [
  | inl e ↦ inl (ground arith)
  | inr e ↦ inr (ground arith, omega arith)
]

round_to-OnGrid : (digits n s : ℕ) → (k : ℕ) × OnGrid s k (round_to digits n (10 ^ s))
unfolding round_to
round_to-OnGrid digits n s =
    let wanted = digits + count_digits (10 ^ s) (10 ^ s) in
    let have = count_digits n n in
    let up = wanted - have in
    let down = have - wanted in
    elim (Bool-cases (ltb (n * 10 ^ up / (10 ^ s * 10 ^ down)) (10 ^ digits))) [
      | inl e ↦ rw e (rounded_at-OnGrid n s up down (one_side wanted have s))
      | inr e ↦ rw e (elim (Bool-cases (ltb 0 up)) [
        | inl f ↦
            rw f (rounded_at-OnGrid n s (up - 1) down (one_side_less wanted have s (ground arith)))
        | inr f ↦ rw f (rounded_at-OnGrid n s 0 (down + 1) (inl (omega arith)))
      ])
    ]

pub round_to_nonneg : (digits n d : ℕ) → neg_part (round_to digits n d).coeff ≡ 0
unfolding round_to rounded_at
round_to_nonneg digits n d = ground arith

-- A number is positive only if its coefficient is.
is_positive : (d : Decimal) → dec_ltb (dec_of 0) d ≡ true → 0 < pos_part d.coeff
unfolding dec_ltb dec_leb
is_positive d h = ground arith

in_context-negsuc : (n d : ℕ) → pos_part (in_context (negsuc n) d).coeff ≡ 0
unfolding in_context negate round_ratio
in_context-negsuc n d = ground (arith, round_to_nonneg precision (suc n) d)

in_context-positive :
    (z : ℤ) (d : ℕ) → dec_ltb (dec_of 0) (in_context z d) ≡ true → (n : ℕ) × (z ≡ pos n)
in_context-positive (pos n) d h = (n, refl)
in_context-positive (negsuc n) d h =
    absurd (omega (arith, is_positive (in_context (negsuc n) d) h, in_context-negsuc n d))

-- A positive number that the context rounds from a multiple of 10 ^ -s is another one.
in_context-OnGrid :
    (z : ℤ) (s : ℕ)
    → dec_ltb (dec_of 0) (in_context z (10 ^ s)) ≡ true
    → (k : ℕ) × OnGrid s k (in_context z (10 ^ s))
unfolding in_context round_ratio
in_context-OnGrid (pos n) s h = round_to-OnGrid precision n s
in_context-OnGrid (negsuc n) s h = let (m, e) = in_context-positive (negsuc n) (10 ^ s) h in cc

floor_scale : (d : Decimal) → (floor_value d).scale ≡ 0
unfolding floor_value
floor_scale d = ground arith

-- The amounts of a grid whose step has `scale` digits are multiples of 10 ^ -scale.
pub floor_to_grid-OnGrid :
    (v step : Decimal)
    → dec_ltb (dec_of 0) (floor_to_grid v step) ≡ true
    → (k : ℕ) × OnGrid step.scale k (floor_to_grid v step)
unfolding floor_to_grid ctx_mul
floor_to_grid-OnGrid v step h =
    let units = floor_value (ctx_div v step) in
    let e : 10 ^ (units.scale + step.scale) ≡ 10 ^ step.scale =
      rw (floor_scale (ctx_div v step)) (rw zero-add refl) in
    subst (λ d. (k : ℕ) × OnGrid step.scale k (in_context (units.coeff *ℤ step.coeff) d)) (sym e)
      (in_context-OnGrid (units.coeff *ℤ step.coeff) step.scale
        (subst (λ d. dec_ltb (dec_of 0) (in_context (units.coeff *ℤ step.coeff) d) ≡ true) e h))

half_even_zero : (b : ℕ) → half_even 0 b ≡ 0
unfolding half_even
half_even_zero b = ground (arith, zero-div b, zero-mod b)

rounded_at_zero : (d up down : ℕ) → pos_part (rounded_at 0 d up down).coeff ≡ 0
unfolding rounded_at
rounded_at_zero d up down =
    rw (zero-mul (10 ^ up), half_even_zero (d * 10 ^ down), zero-mul (10 ^ down)) refl

choose_zero :
    (test : Bool) (a b : Decimal)
    → pos_part a.coeff ≡ 0
    → pos_part b.coeff ≡ 0
    → pos_part (if test then a else b).coeff ≡ 0
choose_zero true a b h k = h
choose_zero false a b h k = k

round_to_zero : (digits d : ℕ) → pos_part (round_to digits 0 d).coeff ≡ 0
unfolding round_to
round_to_zero digits d =
    let wanted = digits + count_digits d d in
    let up = wanted - count_digits 0 0 in
    let down = count_digits 0 0 - wanted in
    choose_zero (ltb (0 * 10 ^ up / (d * 10 ^ down)) (10 ^ digits)) (rounded_at 0 d up down)
      (if ltb 0 up then rounded_at 0 d (up - 1) down else rounded_at 0 d 0 (down + 1))
      (rounded_at_zero d up down)
      (choose_zero (ltb 0 up) (rounded_at 0 d (up - 1) down) (rounded_at 0 d 0 (down + 1))
        (rounded_at_zero d (up - 1) down) (rounded_at_zero d 0 (down + 1)))

in_context_zero : (d : ℕ) → pos_part (in_context (pos 0) d).coeff ≡ 0
unfolding in_context round_ratio
in_context_zero d = round_to_zero precision d

nonpositive : (a b : ℕ) → leb a b ≡ true → (sub_ℕ a b ≡ pos 0) ⊎ ((n : ℕ) × (sub_ℕ a b ≡ negsuc n))
nonpositive a b h = elim (Bool-cases (leb b a)) [
  | inl e ↦ inl (rw e (ap pos (ground arith)))
  | inr e ↦ inr (b - a - 1, rw e refl)
]

difference_positive :
    (a b d : ℕ) → dec_ltb (dec_of 0) (in_context (sub_ℕ a b) d) ≡ true → leb a b ≡ false
difference_positive a b d h = elim (Bool-cases (leb a b)) [
  | inl e ↦ elim (nonpositive a b e) [
    | inl z ↦
        absurd (omega (arith, is_positive (in_context (pos 0) d) (rw z at h), in_context_zero d))
    | inr (n, z) ↦
        absurd
          (omega (arith, is_positive (in_context (negsuc n) d) (rw z at h), in_context-negsuc n d))
  ]
  | inr e ↦ e
]

pub ctx_sub_positive :
    (a b : Decimal) → dec_ltb (dec_of 0) (ctx_sub a b) ≡ true → dec_ltb b a ≡ true
unfolding ctx_sub dec_ltb dec_leb
ctx_sub_positive a b h = ap not (
    difference_positive (pos_part a.coeff * 10 ^ b.scale + neg_part b.coeff * 10 ^ a.scale)
      (pos_part b.coeff * 10 ^ a.scale + neg_part a.coeff * 10 ^ b.scale) (10 ^ (a.scale + b.scale))
      h)

pub dec_min-least :
    (d e : Decimal) → (dec_leb (dec_min d e) d ≡ true) × (dec_leb (dec_min d e) e ≡ true)
unfolding dec_min dec_ltb
dec_min-least d e = elim (Bool-cases (dec_leb d e)) [
  | inl f ↦ rw f (dec_leb_refl d, f)
  | inr f ↦ rw f (dec_leb_total d e f, dec_leb_refl e)
]

pub min_of-least :
    (d : Decimal) (ds : List Decimal)
    → (dec_leb (min_of d ds) d ≡ true) × All (λ e. dec_leb (min_of d ds) e ≡ true) ds
unfolding min_of
min_of-least d [] = (dec_leb_refl d, tt)
min_of-least d (e ∷ es) =
    let least = dec_min d e in
    let (below, others) = min_of-least least es in
    let (left, right) = dec_min-least d e in
    (
      dec_leb_trans (min_of least es) least d below left,
      (dec_leb_trans (min_of least es) least e below right, others),
    )
