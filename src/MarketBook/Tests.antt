-- ===== src/MarketBook/Tests.antt =====
-- marketbook/builder.py on the quotes of two providers for a market of two selections.
use arbiscan_arbitrage_scann.Prelude.{
  arith, ℕ, ◌≡◌, ◌↔◌, refl, none, some, List, [], ◌∷◌, map, keep, All, In,
}
use arbiscan_arbitrage_scann.Prelude.Int.{pos}
use arbiscan_arbitrage_scann.Prelude.Sort.{sort_by}
use arbiscan_arbitrage_scann.Domain.{OddsQuote, dec_leb, QuoteStatus, dec_ltb}
use arbiscan_arbitrage_scann.Matching.Tests.{registry, validate_registry-sample}
use arbiscan_arbitrage_scann.MarketBook.Builder.Total.{build_market_books_total}
use arbiscan_arbitrage_scann.MarketBook.Books.{ProviderBookPolicy, validate_policy, MarketBookBatch}
use arbiscan_arbitrage_scann.MarketBook.Best.{best_quote}
use arbiscan_arbitrage_scann.MarketBook.Best.Laws.{Loses, best_quote_best}
use arbiscan_arbitrage_scann.MarketBook.Builder.{scope_of, build_market_books}
use arbiscan_arbitrage_scann.MarketBook.Builder.Quotes.{Setting, judge, eligible, screen}
use arbiscan_arbitrage_scann.MarketBook.Builder.Eligible.{
  IsEligible, judge-iff_eligible, is_kept, screen-eq-keep,
}
use arbiscan_arbitrage_scann.MarketBook.Builder.Sound.{IsSound, setting, build_market_books-IsSound}

program : Unit {0}
unfolding dec_leb build_market_books best_quote dec_ltb validate_policy sort_by
program = tt

abbrev quote : (id provider selection price : ℕ) → OddsQuote
quote id provider selection price = record {
  id = id;
  provider_id = provider;
  event_id = 1;
  market_id = 5;
  selection_id = selection;
  decimal_price = record { coeff = pos price; scale = 2 };
  source_event_id = 1;
  source_market_id = 5;
  source_selection_id = selection;
  ingested_at = 100;
  status = QuoteStatus.active;
  source_timestamp = none;
  trace_id = some 1;
  raw_source_reference = none;
  transport_provider_id = some provider;
}

-- The second provider has the better price for selection 8, the first for selection 9.
abbrev quotes : List OddsQuote
quotes = quote 31 1 8 200 ∷ quote 32 2 8 215 ∷ quote 33 1 9 205 ∷ quote 34 2 9 195 ∷ []

abbrev open_policy : ProviderBookPolicy
open_policy = record { included_provider_ids = none; excluded_provider_ids = [] }

best_quote-sample : best_quote (quote 31 1 8 200 ∷ quote 32 2 8 215 ∷ []) ≡ some (quote 32 2 8 215)
unfolding program
best_quote-sample = refl

build-sample :
    (b : MarketBookBatch) × (build_market_books quotes registry 120 50 open_policy none ≡ some b)
    × (map (λ x. map (λ o. o.quote.id) x.outcomes) b.books ≡ (32 ∷ 33 ∷ []) ∷ [])
unfolding program
build-sample = (_, refl, refl)

best_quote_best_example :
    (b : OddsQuote) × (best_quote (quote 31 1 8 200 ∷ quote 32 2 8 215 ∷ []) ≡ some b)
    × In b (quote 31 1 8 200 ∷ quote 32 2 8 215 ∷ [])
    × All (λ q. Loses q b) (quote 31 1 8 200 ∷ quote 32 2 8 215 ∷ [])
best_quote_best_example = best_quote_best (quote 31 1 8 200) (quote 32 2 8 215 ∷ [])

abbrev here : Setting
here = setting registry 120 50 open_policy (5 ∷ [])

judge-iff_eligible_example :
    (judge here (quote 31 1 8 200) ≡ eligible) ↔ IsEligible here (quote 31 1 8 200)
judge-iff_eligible_example = judge-iff_eligible here (quote 31 1 8 200)

screen-eq-keep_example : (screen here quotes).quotes ≡ keep (is_kept here quotes) quotes
screen-eq-keep_example = screen-eq-keep here quotes

build_market_books-IsSound_example :
    (scope : List ℕ) × (scope_of registry none ≡ some scope)
    × All (IsSound (setting registry 120 50 open_policy scope) quotes) build-sample.0.books
build_market_books-IsSound_example =
    build_market_books-IsSound quotes registry 120 50 open_policy none build-sample.0 build-sample.1

scope_of-sample : scope_of registry none ≡ some (5 ∷ [])
unfolding program
scope_of-sample = refl

build_market_books_total_example :
    (b : MarketBookBatch) × (build_market_books quotes registry 120 50 open_policy none ≡ some b)
build_market_books_total_example =
    build_market_books_total quotes registry 120 50 open_policy none (5 ∷ [])
      validate_registry-sample (omega arith) scope_of-sample
