-- ===== src/MarketBook/Best.antt =====
-- marketbook/builder.py: `_best_quote`.
pub mod Laws
use arbiscan_arbitrage_scann.Prelude.{
  ℕ, Option, none, some, List, [], ◌∷◌, keep, ltb, nat_beq, key_leb, if◌then◌else◌,
}
use arbiscan_arbitrage_scann.Domain.{Decimal, OddsQuote, dec_ltb, dec_eqb, effective_timestamp}

-- `max(quote.decimal_price for ...)`
unfoldable pub max_price : Decimal → List OddsQuote → Decimal
max_price best [] = best
max_price best (q ∷ qs) =
    max_price (if dec_ltb best q.decimal_price then q.decimal_price else best) qs

-- `max(quote_effective_timestamp(quote) for ...)`
unfoldable pub max_time : ℕ → List OddsQuote → ℕ
unfolding effective_timestamp
max_time best [] = best
max_time best (q ∷ qs) =
    max_time (if ltb best (effective_timestamp q) then effective_timestamp q else best) qs

-- `(provider, quote)`, by which the last ties are broken.
abbrev pub tie_key : OddsQuote → List ℕ
tie_key q = q.provider_id ∷ q.id ∷ []

-- `min(freshest_ties, key=...)`
unfoldable pub min_key : OddsQuote → List OddsQuote → OddsQuote
min_key best [] = best
min_key best (q ∷ qs) = min_key (if key_leb (tie_key best) (tie_key q) then best else q) qs

unfoldable pub first_tie : List OddsQuote → Option OddsQuote
unfolding min_key
first_tie [] = none
first_tie (q ∷ qs) = some (min_key q qs)

unfoldable pub freshest : List OddsQuote → Option OddsQuote
unfolding max_time first_tie effective_timestamp
freshest [] = none
freshest (q ∷ qs) =
    let latest = max_time (effective_timestamp q) qs in
    first_tie (keep (λ x. nat_beq (effective_timestamp x) latest) (q ∷ qs))

-- `_best_quote`; `none` is the ValueError of no candidate.
unfoldable pub best_quote : List OddsQuote → Option OddsQuote
unfolding max_price freshest dec_eqb
best_quote [] = none
best_quote (q ∷ qs) =
    let best = max_price q.decimal_price qs in
    freshest (keep (λ x. dec_eqb x.decimal_price best) (q ∷ qs))
