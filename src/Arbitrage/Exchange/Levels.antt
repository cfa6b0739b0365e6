-- ===== src/Arbitrage/Exchange/Levels.antt =====
-- arbitrage/exchange.py: the equality of price levels is an equivalence, with decimals by their value.
use arbiscan_arbitrage_scann.Prelude.{
  ℕ, true, Option, none, some, ◌≡◌, refl, sym, ◌∙◌, nat_beq, option_beq, option_beq_iff,
  nat_beq_iff, nat_eq, arith,
}
use arbiscan_arbitrage_scann.Domain.{Decimal, dec_eqb}
use arbiscan_arbitrage_scann.Domain.Number.{dec_leb_refl, dec_leb_trans}
use arbiscan_arbitrage_scann.Arbitrage.Exchange.{ExchangeSide, ExchangePriceObservation}
use arbiscan_arbitrage_scann.Arbitrage.Exchange.Portfolio.{side_eqb, same_level}

nat_beq-cong : (a b c : ℕ) → nat_beq a b ≡ true → nat_beq a c ≡ nat_beq b c
nat_beq-cong a b c h = rw ((nat_beq_iff a b).0 h)

option_beq-cong : (a b c : Option ℕ) → option_beq a b ≡ true → option_beq a c ≡ option_beq b c
option_beq-cong a b c h = rw ((option_beq_iff a b).0 h)

side_eqb-eq : (a b : Option ExchangeSide) → side_eqb a b ≡ true → a ≡ b
side_eqb-eq none none h = refl
side_eqb-eq (some ExchangeSide.back) (some ExchangeSide.back) h = refl
side_eqb-eq (some ExchangeSide.lay) (some ExchangeSide.lay) h = refl
side_eqb-eq none (some ExchangeSide.back) h = cc
side_eqb-eq none (some ExchangeSide.lay) h = cc
side_eqb-eq (some ExchangeSide.back) none h = cc
side_eqb-eq (some ExchangeSide.lay) none h = cc
side_eqb-eq (some ExchangeSide.back) (some ExchangeSide.lay) h = cc
side_eqb-eq (some ExchangeSide.lay) (some ExchangeSide.back) h = cc

side_eqb-cong : (a b c : Option ExchangeSide) → side_eqb a b ≡ true → side_eqb a c ≡ side_eqb b c
side_eqb-cong a b c h = rw (side_eqb-eq a b h)

pub dec_eqb-cong : (a b c : Decimal) → dec_eqb a b ≡ true → dec_eqb a c ≡ dec_eqb b c
unfolding dec_eqb
dec_eqb-cong a b c h =
    ground
      (arith, dec_leb_trans a b c, dec_leb_trans b a c, dec_leb_trans c a b, dec_leb_trans c b a)

pub same_level-cong :
    (p r s : ExchangePriceObservation) → same_level p r ≡ true → same_level p s ≡ same_level r s
unfolding same_level
same_level-cong p r s h = ground (
  arith,
  nat_beq-cong p.exchange_provider.id r.exchange_provider.id s.exchange_provider.id,
  nat_beq-cong p.transport_provider_id r.transport_provider_id s.transport_provider_id,
  nat_beq-cong p.event_id r.event_id s.event_id,
  nat_beq-cong p.market_id r.market_id s.market_id,
  nat_beq-cong p.selection_id r.selection_id s.selection_id,
  side_eqb-cong p.side r.side s.side,
  dec_eqb-cong p.decimal_price r.decimal_price s.decimal_price,
  option_beq-cong p.commission_scope r.commission_scope s.commission_scope,
)

pub same_level_refl : (p : ExchangePriceObservation) → same_level p p ≡ true
unfolding same_level dec_eqb
same_level_refl p = ground (
  arith,
  dec_leb_refl p.decimal_price,
  nat_beq_iff p.exchange_provider.id p.exchange_provider.id,
  nat_beq_iff p.transport_provider_id p.transport_provider_id,
  nat_beq_iff p.event_id p.event_id,
  nat_beq_iff p.market_id p.market_id,
  nat_beq_iff p.selection_id p.selection_id,
  side_eqb_refl p.side,
  option_beq_iff p.commission_scope p.commission_scope,
)
  where
    side_eqb_refl : (a : Option ExchangeSide) → side_eqb a a ≡ true
    side_eqb_refl none = refl
    side_eqb_refl (some ExchangeSide.back) = refl
    side_eqb_refl (some ExchangeSide.lay) = refl

pub same_level_sym :
    (p r : ExchangePriceObservation) → same_level p r ≡ true → same_level r p ≡ true
same_level_sym p r h = sym (same_level-cong p r p h) ∙ same_level_refl p
