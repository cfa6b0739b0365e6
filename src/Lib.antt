-- ===== src/Lib.antt =====
-- A model of ArbiScan, a scanner that collects odds of several bookmakers and reports arbitrage
-- opportunities, with the properties of its parts. Paths are from the root of the repository.
--
-- The parts. A poll of a provider yields quotes. `ingestion/realtime.py` stores the current version of
-- each quote, and keeps track of the rate limits and the health of providers. `matching` holds the
-- canonical registry of events, markets and selections, and matches the events of providers to it.
-- `marketbook` selects the best eligible quote of each selection of a market in that registry.
-- `arbitrage` evaluates the quotes of a book, turns an arbitrage into an opportunity, and allocates
-- stakes to it. `lifecycle` evaluates an opportunity again on current quotes before it is surfaced.
-- `ingestion/multisource_state.py` keeps a live quote store for each transport, and consolidates what
-- they hold. `providers/resilience.py` retries the calls of adapters, and
-- `services/source_enablement.py` selects the adapters that are polled.
--
-- Files, all of the code under src/arbiscan:
-- - Domain: domain/enums.py and domain/models.py. OddsQuote and its checks are in Domain, the other
--   entities in Domain/Entities, decimal.Decimal in Domain/Number, its contexts in Domain/Context, and
--   domain/asian_handicap.py in Domain/AsianHandicap.
-- - Ingestion: ingestion/realtime.py. Ingestion/Store is `LiveQuoteStore.apply`, Ingestion/Reading the
--   other operations of that class, Ingestion/Gate `ProviderRateGate`, Ingestion/Health
--   `ProviderHealthTracker`, and Ingestion/Quotes the records that they share.
--   Ingestion/Consolidation is `consolidate_quotes` of ingestion/multisource.py, Ingestion/Transports
--   `MultiSourceLiveQuoteStore` of ingestion/multisource_state.py.
-- - Arbitrage: arbitrage/core.py with ArbitrageEvaluation of arbitrage/models.py. Arbitrage/Fraction is
--   the exact arithmetic, Arbitrage/Market the functions on books. Arbitrage/Staking is
--   arbitrage/staking.py: the limits of stakes in Constraints, `_continuous_target_payout` in Target,
--   `_find_safe_discrete_plan` in Search, `allocate_stakes` in Allocate. StakePlan is in
--   Domain/Stakes, the arithmetic of its grids in Domain/Grid. Arbitrage/Exchange is
--   arbitrage/exchange.py: its prices and stakes, with the profits of a winner in Scenario, and
--   `evaluate_exchange_portfolio` in Portfolio. Arbitrage/Refundable is arbitrage/refundable.py.
-- - Lifecycle: lifecycle/models.py and `revalidate_opportunity` of lifecycle/evaluator.py.
-- - Providers: Providers/Resilience is `ProviderExecutor` of providers/resilience.py.
-- - Services: Services/Enablement is services/source_enablement.py.
-- - Matching: Matching/Registry is `CanonicalRegistry` of matching/catalog.py, Matching/Candidate and
--   Matching/Decision are `EventMatcher` of matching/event_matcher.py.
-- - MarketBook: MarketBook/Books is marketbook/models.py, MarketBook/Best `_best_quote`, and
--   MarketBook/Builder `build_market_books` of marketbook/builder.py.
-- - Prelude: tests on numbers, lists, dicts, sorting and groups, for all parts.
-- Each part has its theorems in modules below the ones that define it, and runs on small inputs in a
-- module Tests.
--
-- Conventions. An object is a record, and a method that changes one returns the record afterwards. A
-- raised exception is `none`, or an error of MathError in the arbitrage part. An identifier or another
-- text is an opaque number: the code compares, hashes and sorts texts, and the order of numbers stands
-- for the order of texts. An aware datetime is its number of microseconds in UTC, a timedelta is a
-- number of microseconds, and a test of a difference of two times is written with the subtrahend on
-- the other side. A dict is a list of pairs in insertion order. `sorted` is a stable insertion sort by
-- a list of numbers, and an enumeration that is sorted by its text has a function to the rank of it.
-- Python's checks with isinstance are the types; a Decimal is finite, since NaN and the infinities
-- are refused before an object is built.
--
-- Bounds. A Decimal operation in a context yields the exact value rounded half-even to 60 significant
-- digits (28 for the default context); the exponent range of decimal is not reached. A floor to a grid
-- whose quotient has more than 60 digits is the InvalidOperation of `%` and `//`, an error here where
-- the code reaches it. `count_digits` recurs on fuel, and a number is enough fuel for its own digits.
-- The loop of `_find_safe_discrete_plan` runs on one round more than there are quanta in its first
-- target, since each round lowers the target by a quantum. The loop of `_continuous_target_payout`
-- runs on as many rounds as there are outcomes, since each one fixes an outcome, and the retries of
-- `ProviderExecutor.run` are structural in the attempts left. All other recursions are structural.
-- Python's floats occur in providers/resilience.py only as the parameter Floats. An age in seconds
-- passes through a float in lifecycle/evaluator.py, exact to the microsecond below 2 ^ 53 of them.
--
-- Not modelled: names, notes and messages, which nothing reads; the asynchronous polling of adapters;
-- transports, parsers, SQLite, HTTP and HTML; the incremental reuse of earlier consolidations;
-- normalisation, metrics and backtesting.
pub mod Prelude
pub mod Domain
pub mod Ingestion
pub mod Arbitrage
pub mod Matching
pub mod MarketBook
pub mod Lifecycle
pub mod Providers
pub mod Services
