-- ===== src/MarketBook/Builder.antt =====
-- marketbook/builder.py: `build_market_books`. `none` is a raised ValueError or AssertionError.
pub mod Quotes
pub mod Market
pub mod Eligible
pub mod Outcomes
pub mod Sound
pub mod Chosen
pub mod Known
pub mod Passes
pub mod Total
use arbiscan_arbitrage_scann.Prelude.{
  ℕ, Bool, true, false, not, ◌&&◌, Option, none, some, List, [], ◌∷◌, ◌++◌, map, any, keep, leb,
  nat_beq, nat_eq, option_eq, ◌==◌, all_distinct, is_none, if◌then◌else◌,
}
use arbiscan_arbitrage_scann.Prelude.Sort.{sort_by}
use arbiscan_arbitrage_scann.Domain.{OddsQuote}
use arbiscan_arbitrage_scann.Matching.Registry.{CanonicalRegistry, market}
use arbiscan_arbitrage_scann.MarketBook.Books.{
  ProviderBookPolicy, sort_ids, MarketBookDiagnostic, diagnostic_sort_key, CanonicalMarketBook,
  book_key, MarketBookBatch, validate_batch,
}
use arbiscan_arbitrage_scann.MarketBook.Builder.Quotes.{Setting, screen, Screened, no_quotes}
use arbiscan_arbitrage_scann.MarketBook.Builder.Market.{Built, book, noted, raised, build_book}

-- `scoped_market_ids`: all markets of the registry, or the given ones, which have to be known.
unfoldable pub scope_of : CanonicalRegistry → Option (List ℕ) → Option (List ℕ)
unfolding market
scope_of r none = some (sort_ids (map (λ m. m.id) r.markets))
scope_of r (some ids) =
    if not (all_distinct ids)
    then none
    else if any (λ i. is_none (market r i)) ids
    then none
    else some (sort_ids ids)

-- The loop over the markets: the books and the diagnostics that it adds.
abbrev pub Assembly : Type 0
Assembly = List CanonicalMarketBook × List MarketBookDiagnostic

abbrev pub add_built : Built → Option Assembly → Option Assembly
add_built (book b) (some (books, notes)) = some (b ∷ books, notes)
add_built (noted d) (some (books, notes)) = some (books, d ∷ notes)
add_built raised _ = none
add_built _ none = none

unfoldable pub assemble : Setting → Screened → List ℕ → Option Assembly
unfolding build_book
assemble s screened [] = some ([], [])
assemble s screened (i ∷ ids) =
    let rest = assemble s screened ids in add_built (build_book s screened i) rest

-- The end of `build_market_books`.
unfoldable pub batch_of : Screened → Option Assembly → Option MarketBookBatch
unfolding validate_batch diagnostic_sort_key
batch_of screened none = none
batch_of screened (some (books, notes)) = validate_batch (record {
  books = sort_by book_key books;
  diagnostics = sort_by diagnostic_sort_key (screened.diagnostics ++ notes);
})

unfoldable pub build_scope : Setting → List OddsQuote → Option MarketBookBatch
unfolding assemble batch_of screen
build_scope s quotes =
    let screened = screen s quotes in batch_of screened (assemble s screened s.scope)

-- `build_market_books`
unfoldable pub build_market_books :
    List OddsQuote
    → CanonicalRegistry
    → (as_of freshness_window : ℕ) → ProviderBookPolicy
    → Option (List ℕ)
    → Option MarketBookBatch
unfolding scope_of build_scope
build_market_books quotes registry as_of freshness_window policy market_ids =
    if leb freshness_window 0 then none else elim (scope_of registry market_ids) [
      | none ↦ none
      | some scope ↦
          build_scope
            (record {
              registry = registry;
              now = as_of;
              freshness_window = freshness_window;
              policy = policy;
              scope = scope;
            })
            quotes
    ]
