-- ===== src/MarketBook/Builder/Market.antt =====
-- marketbook/builder.py: the loop of `build_market_books` over the markets in scope.
use arbiscan_arbitrage_scann.Prelude.{
  ℕ, Bool, true, false, not, ◌&&◌, ◌||◌, Option, none, some, List, [], ◌∷◌, map, any, keep, length,
  ltb, leb, nat_beq, nat_eq, option_eq, ◌==◌, if◌then◌else◌,
}
use arbiscan_arbitrage_scann.Prelude.Groups.{group_into, group_at}
use arbiscan_arbitrage_scann.Prelude.Sort.{sort_by}
use arbiscan_arbitrage_scann.Domain.{OddsQuote, effective_timestamp}
use arbiscan_arbitrage_scann.Domain.Entities.{Event, is_scheduled, Selection}
use arbiscan_arbitrage_scann.Domain.Entities
use arbiscan_arbitrage_scann.Matching.Registry.{event, market, selection, selection_ids_for_market}
use arbiscan_arbitrage_scann.MarketBook.Books.{
  BookCode, MarketBookDiagnostic, diagnostic_sort_key, BestPriceOutcome, validate_outcome,
  MarketBookFreshness, validate_freshness, CanonicalMarketBook, validate_book,
}
use arbiscan_arbitrage_scann.MarketBook.Best.{best_quote}
use arbiscan_arbitrage_scann.MarketBook.Builder.Quotes.{Setting, Screened}

-- What the loop does with a market: a book, a diagnostic, or an exception.
pub data Built : Type 0 where
  book : CanonicalMarketBook → Built
  noted : MarketBookDiagnostic → Built
  raised : Built

-- `eligible_by_market_selection[market_id][selection_id]`; the dict of dicts is keyed by the pair.
abbrev pub pair_key : OddsQuote → ℕ × ℕ
pair_key q = (q.market_id, q.selection_id)

abbrev pub same_pair : (a b : ℕ × ℕ) → Bool
same_pair a b = nat_beq a.0 b.0 && nat_beq a.1 b.1

unfoldable pub candidates_for : Screened → ℕ → ℕ → List OddsQuote
unfolding group_into group_at
candidates_for s market_id selection_id =
    group_at same_pair pair_key (market_id, selection_id)
      (group_into same_pair pair_key [] s.quotes)

-- The outcome of a selection that is known, on a quote that was found.
unfoldable pub outcome_from : Option Selection → Option OddsQuote → Option BestPriceOutcome
unfolding validate_outcome
outcome_from (some x) (some q) = validate_outcome (record { selection = x; quote = q })
outcome_from _ _ = none

-- The outcome of an expected selection, with its best quote.
unfoldable pub outcome_for : Setting → Screened → ℕ → ℕ → Option BestPriceOutcome
unfolding selection candidates_for best_quote outcome_from
outcome_for s screened market_id selection_id =
    outcome_from (selection s.registry selection_id)
      (best_quote (candidates_for screened market_id selection_id))

abbrev pub add_outcome :
    Option BestPriceOutcome → Option (List BestPriceOutcome) → Option (List BestPriceOutcome)
add_outcome (some o) (some os) = some (o ∷ os)
add_outcome _ _ = none

unfoldable pub outcomes_for : Setting → Screened → ℕ → List ℕ → Option (List BestPriceOutcome)
unfolding outcome_for
outcomes_for s screened market_id [] = some []
outcomes_for s screened market_id (i ∷ ids) =
    let rest = outcomes_for s screened market_id ids in
    add_outcome (outcome_for s screened market_id i) rest

-- `min(selected_timestamps)` and `max(selected_timestamps)`
abbrev pub oldest : ℕ → List ℕ → ℕ
oldest t [] = t
oldest t (u ∷ us) = oldest (if ltb u t then u else t) us

abbrev pub newest : ℕ → List ℕ → ℕ
newest t [] = t
newest t (u ∷ us) = newest (if ltb t u then u else t) us

-- `diagnostics_by_market.get(market.id, ())`, of the diagnostics on quotes.
unfoldable pub market_diagnostics : Screened → ℕ → List MarketBookDiagnostic
unfolding diagnostic_sort_key sort_by
market_diagnostics s market_id =
    sort_by diagnostic_sort_key (keep (λ d. d.market_id == some market_id) s.diagnostics)

abbrev pub built_of : Option CanonicalMarketBook → Built
built_of none = raised
built_of (some b) = book b

-- The book of a market, from its outcomes and their freshness.
unfoldable pub book_with :
    Screened
    → Entities.Event
    → Entities.Market
    → List ℕ
    → List BestPriceOutcome
    → Option MarketBookFreshness
    → Built
unfolding validate_book market_diagnostics
book_with screened e m expected outcomes none = raised
book_with screened e m expected outcomes (some freshness) = built_of (
    validate_book (record {
      event = e;
      market = m;
      expected_selection_ids = expected;
      outcomes = outcomes;
      freshness = freshness;
      construction_diagnostics = market_diagnostics screened m.id;
    }))

unfoldable pub freshness_of : Setting → ℕ → List ℕ → MarketBookFreshness
freshness_of s time times = record {
  as_of = s.now;
  freshness_window = s.freshness_window;
  oldest_quote_at = oldest time times;
  newest_quote_at = newest time times;
}

unfoldable pub finish :
    Setting → Screened → Entities.Event → Entities.Market → List ℕ → List BestPriceOutcome → Built
unfolding effective_timestamp validate_freshness book_with freshness_of
finish s screened e m expected [] = raised
finish s screened e m expected (o ∷ os) = book_with screened e m expected (o ∷ os) (
    validate_freshness
      (freshness_of s (effective_timestamp o.quote) (map (λ x. effective_timestamp x.quote) os)))

abbrev pub note : BookCode → Entities.Event → Entities.Market → Built
note code e m = noted (record {
  code = code;
  event_id = some e.id;
  market_id = some m.id;
  selection_id = none;
  provider_id = none;
  quote_id = none;
})

abbrev pub is_empty : List OddsQuote → Bool
is_empty [] = true
is_empty (q ∷ qs) = false

-- A market of a known event.
unfoldable pub build_market : Setting → Screened → Entities.Event → Entities.Market → Built
unfolding is_scheduled selection_ids_for_market candidates_for outcomes_for finish
build_market s screened e m =
    let expected = selection_ids_for_market s.registry m.id in
    if not (is_scheduled e.status) || leb e.scheduled_start s.now
    then note BookCode.event_not_prematch e m
    else if ltb (length expected) 2
    then note BookCode.insufficient_outcomes e m
    else if any (λ i. is_empty (candidates_for screened m.id i)) expected
    then note BookCode.incomplete_market e m
    else elim (outcomes_for s screened m.id expected) [
      | none ↦ raised
      | some outcomes ↦ finish s screened e m expected outcomes
    ]

-- The look-up of the event of a market; an unknown one is an AssertionError.
unfoldable pub build_event : Setting → Screened → Entities.Market → Option Entities.Event → Built
unfolding build_market
build_event s screened m none = raised
build_event s screened m (some e) = build_market s screened e m

unfoldable pub build_known : Setting → Screened → Option Entities.Market → Built
unfolding event build_event
build_known s screened none = raised
build_known s screened (some m) = build_event s screened m (event s.registry m.event_id)

-- One round of the loop over the markets.
unfoldable pub build_book : Setting → Screened → ℕ → Built
unfolding market build_known
build_book s screened market_id = build_known s screened (market s.registry market_id)
