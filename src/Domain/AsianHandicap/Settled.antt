-- ===== src/Domain/AsianHandicap/Settled.antt =====
-- domain/asian_handicap.py: `settle_asian_handicap` settles every line that is a multiple of a quarter,
-- by the distance of the handicapped goals.
use arbiscan_arbitrage_scann.Prelude.{
  ℕ, suc, ◌+◌, ◌*◌, ◌%◌, ◌^◌, ◌<◌, ◌≡◌, inl, inr, refl, ap, ◌∙◌, arith, false, Option, some, [],
  ◌∷◌, All, nat_beq, Bool-cases,
}
use arbiscan_arbitrage_scann.Prelude.Int.{ℤ, pos, negsuc, pos_part, neg_part, sub_ℕ}
use arbiscan_arbitrage_scann.Domain.Number.{Decimal, dec_of, dec_leb}
use arbiscan_arbitrage_scann.Domain.Grid.Exact.{IsQuarters}
use arbiscan_arbitrage_scann.Domain.AsianHandicap.{
  AsianHandicapLineClass, AsianHandicapLineProfile, AsianHandicapSettlement,
  AsianHandicapSettlementResult, half, lower_line, upper_line, profile_at, remainder,
  is_unsupported, asian_handicap_line_profile, component_result, component_results, gross_return,
  combined, adjusted, validate_settlement, settle_asian_handicap,
}
use arbiscan_arbitrage_scann.Domain.AsianHandicap.Quarters.{
  adjusted-IsQuarters, sign_result, component_result-quarters,
}
use arbiscan_arbitrage_scann.Domain.AsianHandicap.Lines.{
  IsLine, IsNext, below, above, below_small, above_small, below-IsNext, above-IsNext,
  line_profile-at, lower_line-IsQuarters, upper_line-IsQuarters, dec_eqb-quarters,
  whole_profile-integer, whole_profile-half_goal, quarter_profile-quarter, piece,
}
use arbiscan_arbitrage_scann.Domain.AsianHandicap.Results.{
  result_of, distance, IsEven, IsOdd, combined_even, combined_around,
}
use arbiscan_arbitrage_scann.Domain.AsianHandicap.Gross.{
  IsNonNegative, gross_return_nonneg, odds_nonneg, not_below_zero,
}

-- A component on a line of so many quarters.
result-at :
    (goals q : ℤ) (line : Decimal)
    → 4 * pos_part goals + pos_part q < 10 ^ 50
    → 4 * neg_part goals + neg_part q < 10 ^ 50
    → IsQuarters q line
    → component_result (adjusted goals line) ≡ sign_result (distance goals q)
result-at goals q line ps ns h =
    let sum = adjusted goals line in
    component_result-quarters (distance goals q) sum.coeff sum.scale
      (adjusted-IsQuarters goals q line.coeff line.scale ps ns h)

-- The tail of `settle_asian_handicap` on a profile.
settle-profile :
    (line : Decimal) (goals : ℤ) (odds : Decimal) (p : AsianHandicapLineProfile)
    (r : AsianHandicapSettlementResult)
    → dec_leb odds (dec_of 1) ≡ false
    → asian_handicap_line_profile line ≡ some p
    → is_unsupported p.line_class ≡ false
    → All (λ c. IsNonNegative c.stake_fraction) p.components
    → combined (component_results goals p.components) ≡ some r
    → settle_asian_handicap line goals odds
      ≡ some (record {
        result = r;
        gross_return_multiplier = gross_return goals odds (dec_of 0) p.components;
      })
unfolding settle_asian_handicap validate_settlement
settle-profile line goals odds p r above_one profiled supported fractions settled =
    let gross = gross_return goals odds (dec_of 0) p.components in
    let positive = not_below_zero gross (
      gross_return_nonneg goals odds (dec_of 0) p.components (odds_nonneg odds above_one) refl
        fractions) in
    rw (above_one, profiled) (rw supported (rw settled (rw positive refl)))

-- The settlement has the result of a distance.
abbrev pub Settles : AsianHandicapSettlementResult → Option AsianHandicapSettlement → Type 0
Settles r settlement = (s : AsianHandicapSettlement) × (settlement ≡ some s) × (s.result ≡ r)

sub_ℕ-parts : (a b : ℕ) → pos_part (sub_ℕ a b) + b ≡ neg_part (sub_ℕ a b) + a
sub_ℕ-parts a b = ground arith

distance-IsNext : (goals q r : ℤ) → IsNext q r → IsNext (distance goals q) (distance goals r)
distance-IsNext goals q r h = omega (
  arith,
  h,
  sub_ℕ-parts (4 * pos_part goals + pos_part q) (4 * neg_part goals + neg_part q),
  sub_ℕ-parts (4 * pos_part goals + pos_part r) (4 * neg_part goals + neg_part r),
)

distance-IsEven : (goals u : ℤ) → remainder u % 2 ≡ 0 → IsEven (distance goals u)
distance-IsEven goals (pos m) h =
    ground (arith, sub_ℕ-parts (4 * pos_part goals + m) (4 * neg_part goals + 0))
distance-IsEven goals (negsuc m) h =
    ground (arith, sub_ℕ-parts (4 * pos_part goals + 0) (4 * neg_part goals + suc m))

distance-IsOdd : (goals u : ℤ) → remainder u % 2 ≡ 1 → IsOdd (distance goals u)
distance-IsOdd goals (pos m) h =
    ground (arith, sub_ℕ-parts (4 * pos_part goals + m) (4 * neg_part goals + 0))
distance-IsOdd goals (negsuc m) h =
    ground (arith, sub_ℕ-parts (4 * pos_part goals + 0) (4 * neg_part goals + suc m))

remainder-odd :
    (u : ℤ)
    → nat_beq (remainder u) 0 ≡ false
    → nat_beq (remainder u) 2 ≡ false
    → remainder u % 2 ≡ 1
remainder-odd (pos m) h k = ground arith
remainder-odd (negsuc m) h k = ground arith

module _ (u goals : ℤ) (line odds : Decimal) (at : IsLine u line)
    (few : pos_part goals + neg_part goals < 10 ^ 48)
    (above_one : dec_leb odds (dec_of 1) ≡ false) where
  room_for :
      (q : ℤ)
      → (pos_part q < 10 ^ 49) × (neg_part q < 10 ^ 49)
      → (4 * pos_part goals + pos_part q < 10 ^ 50) × (4 * neg_part goals + neg_part q < 10 ^ 50)
  room_for q h = (omega (arith, few, h.0), omega (arith, few, h.1))

  settle_whole :
      (class : AsianHandicapLineClass)
      → asian_handicap_line_profile line
        ≡ some (record { line = line; line_class = class; components = piece line (dec_of 1) ∷ [] })
      → is_unsupported class ≡ false
      → remainder u % 2 ≡ 0
      → Settles (result_of (distance goals u)) (settle_asian_handicap line goals odds)
  unfolding component_results
  settle_whole class profiled supported even = (
    _,
    settle-profile line goals odds _ (result_of (distance goals u)) above_one profiled supported
        (refl, tt)
        (ap (λ r. combined (r ∷ []))
            (result-at goals u line (omega (arith, few, at.small)) (omega (arith, few, at.small))
              at.quarters)
          ∙ combined_even (distance goals u) (distance-IsEven goals u even)),
    refl,
  )

  settle_quarter :
      remainder u % 2 ≡ 1
      → asian_handicap_line_profile line
        ≡ some (record {
          line = line;
          line_class = AsianHandicapLineClass.quarter;
          components = piece (lower_line line) half ∷ piece (upper_line line) half ∷ [];
        })
      → Settles (result_of (distance goals u)) (settle_asian_handicap line goals odds)
  unfolding component_results
  settle_quarter odd profiled =
      let v = distance goals u in
      let lower_next = below-IsNext u odd in
      let upper_next = above-IsNext u odd in
      let room = room_for (below u) (below_small u at.small) in
      let room' = room_for (above u) (above_small u at.small) in
      let lower =
        result-at goals (below u) (lower_line line) room.0 room.1
          (lower_line-IsQuarters u line at) in
      let upper =
        result-at goals (above u) (upper_line line) room'.0 room'.1
          (upper_line-IsQuarters u line at) in
      (
        _,
        settle-profile line goals odds _ (result_of v) above_one profiled refl (refl, (refl, tt))
            (rw (lower, upper)
              (combined_around v (distance-IsOdd goals u odd) (distance goals (below u))
                (distance goals (above u)) (distance-IsNext goals (below u) u lower_next)
                (distance-IsNext goals u (above u) upper_next))),
        refl,
      )

  -- A line u / 4, with u and the goal difference of less than 49 digits, is settled at any odds above
  -- one, and the distance v = 4 * goal difference + u alone gives its result: a push at 0, half a win
  -- at 1 and a win above, half a loss at -1 and a loss below.
  pub settle_asian_handicap-Settles :
      Settles (result_of (distance goals u)) (settle_asian_handicap line goals odds)
  unfolding profile_at
  settle_asian_handicap-Settles = elim (Bool-cases (nat_beq (remainder u) 0)) [
    | inl e ↦
        settle_whole AsianHandicapLineClass.integer
          (line_profile-at u line at ∙ rw e (whole_profile-integer line)) refl (ground arith)
    | inr e ↦ elim (Bool-cases (nat_beq (remainder u) 2)) [
      | inl f ↦
          settle_whole AsianHandicapLineClass.half_goal
            (line_profile-at u line at ∙ rw (e, f) (whole_profile-half_goal line)) refl
            (ground arith)
      | inr f ↦
          let odd = remainder-odd u e f in
          let apart =
            dec_eqb-quarters (below u) (above u) (lower_line line) (upper_line line)
              (lower_line-IsQuarters u line at) (upper_line-IsQuarters u line at)
              (omega (arith, below-IsNext u odd, above-IsNext u odd)) in
          settle_quarter odd
            (line_profile-at u line at ∙ rw (e, f) (quarter_profile-quarter line apart))
    ]
  ]
