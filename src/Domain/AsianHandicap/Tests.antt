-- ===== src/Domain/AsianHandicap/Tests.antt =====
-- domain/asian_handicap.py on the lines +0.25, -1.5 and 0.3.
use arbiscan_arbitrage_scann.Prelude.{◌≡◌, refl, true, false, none, some, arith}
use arbiscan_arbitrage_scann.Prelude.Int.{pos, negsuc}
use arbiscan_arbitrage_scann.Domain.Number.{Decimal, dec_of, dec_leb, dec_ltb, dec_eqb}
use arbiscan_arbitrage_scann.Domain.Context.{round_ratio, round_to}
use arbiscan_arbitrage_scann.Domain.AsianHandicap.{
  AsianHandicapLineClass, AsianHandicapLineProfile, AsianHandicapSettlement,
  AsianHandicapSettlementResult, asian_handicap_line_profile, settle_asian_handicap,
}
use arbiscan_arbitrage_scann.Domain.AsianHandicap.Lines.{IsLine}
use arbiscan_arbitrage_scann.Domain.AsianHandicap.Settled.{Settles, settle_asian_handicap-Settles}

program : Unit {0}
unfolding settle_asian_handicap dec_leb dec_ltb dec_eqb round_ratio round_to
program = tt

abbrev plus_quarter : Decimal
plus_quarter = record { coeff = pos 25; scale = 2 }

abbrev odds : Decimal
odds = record { coeff = pos 190; scale = 2 }

-- A draw on +0.25 at 1.90: half the stake is returned, the other half wins, 1.45 in all.
settle-draw :
    (s : AsianHandicapSettlement) × (settle_asian_handicap plus_quarter (pos 0) odds ≡ some s)
    × (s.result ≡ AsianHandicapSettlementResult.half_win)
    × (dec_eqb s.gross_return_multiplier (record { coeff = pos 145; scale = 2 }) ≡ true)
unfolding program
settle-draw = (_, refl, refl, refl)

-- A win by one goal on -1.5 loses.
settle-lost :
    (s : AsianHandicapSettlement) × (settle_asian_handicap
        (record { coeff = negsuc 14; scale = 1 })
        (pos 1)
        odds
      ≡ some s)
    × (s.result ≡ AsianHandicapSettlementResult.loss)
    × (dec_eqb s.gross_return_multiplier (dec_of 0) ≡ true)
unfolding program
settle-lost = (_, refl, refl, refl)

profile-unsupported :
    (p : AsianHandicapLineProfile) × (asian_handicap_line_profile
        (record { coeff = pos 3; scale = 1 })
      ≡ some p)
    × (p.line_class ≡ AsianHandicapLineClass.unsupported)
unfolding program
profile-unsupported = (_, refl, refl)

settle_unsupported : settle_asian_handicap (record { coeff = pos 3; scale = 1 }) (pos 1) odds ≡ none
unfolding program
settle_unsupported = refl

plus_quarter-IsLine : IsLine (pos 1) plus_quarter
plus_quarter-IsLine = record { quarters = (omega arith, omega arith); small = omega arith }

above_one : dec_leb odds (dec_of 1) ≡ false
unfolding program
above_one = refl

-- +0.25 after a defeat by one goal.
settle_asian_handicap-Settles_example :
    Settles AsianHandicapSettlementResult.loss (settle_asian_handicap plus_quarter (negsuc 0) odds)
settle_asian_handicap-Settles_example =
    settle_asian_handicap-Settles (pos 1) (negsuc 0) plus_quarter odds plus_quarter-IsLine
      (omega arith) above_one
