-- ===== src/MarketBook/Builder/Sound.antt =====
-- marketbook/builder.py: what a book of `build_market_books` has in it.
use mathlib.Core.List.{Perm}
use mathlib.Core.Option.{some-injective}
use arbiscan_arbitrage_scann.Prelude.{
  ℕ, ◌<◌, ◌≡◌, inl, inr, refl, sym, ap, subst, arith, ◌∙◌, true, Option, none, some, List, [], ◌∷◌,
  ◌++◌, nat_eq, Option-cases, All, All-map, checked-eq-some,
}
use arbiscan_arbitrage_scann.Prelude.Sort.{sort_by, sort_by-All, sort_by-perm}
use arbiscan_arbitrage_scann.Domain.{OddsQuote}
use arbiscan_arbitrage_scann.Domain.Entities
use arbiscan_arbitrage_scann.Domain.Entities.{EventStatus, is_scheduled}
use arbiscan_arbitrage_scann.Matching.Registry.{
  CanonicalRegistry, event, market, selection_ids_for_market,
}
use arbiscan_arbitrage_scann.MarketBook.Books.{
  BestPriceOutcome, book_guards, ordered, by_selection, CanonicalMarketBook, validate_book,
  outcome_ids, ProviderBookPolicy, MarketBookBatch, validate_batch, MarketBookFreshness,
  diagnostic_sort_key, batch_guards,
}
use arbiscan_arbitrage_scann.MarketBook.Builder.Quotes.{Setting, Screened, screen}
use arbiscan_arbitrage_scann.MarketBook.Builder.Market.{
  Built, book, noted, raised, outcomes_for, book_with, market_diagnostics, finish, build_market,
  build_book, built_of,
}
use arbiscan_arbitrage_scann.MarketBook.Builder.Outcomes.{
  outcomes_for-AreOutcomes, IsBest, IsOutcome-IsBest,
}
use arbiscan_arbitrage_scann.MarketBook.Books.{book_key}
use arbiscan_arbitrage_scann.MarketBook.Builder.{
  Assembly, add_built, assemble, batch_of, build_scope, build_market_books, scope_of,
}

-- A book of a market that has not begun, complete, with the best quote of each selection.
pub record IsSound (s : Setting) (quotes : List OddsQuote) (b : CanonicalMarketBook) : Type 0 where
  pub scheduled : b.event.status ≡ EventStatus.scheduled
  pub prematch : s.now < b.event.scheduled_start
  pub outcomes : List BestPriceOutcome
  pub reordered : Perm b.outcomes outcomes
  pub complete : outcome_ids outcomes ≡ selection_ids_for_market s.registry b.market.id
  pub best : All (IsBest s quotes b.market.id) b.outcomes

built_of-book :
    (o : Option CanonicalMarketBook) (b : CanonicalMarketBook) → built_of o ≡ book b → o ≡ some b
built_of-book none b h = cc
built_of-book (some c) b h = cc

validate_book-ordered : (c b : CanonicalMarketBook) → validate_book c ≡ some b → ordered c ≡ b
unfolding validate_book
validate_book-ordered c b h = (checked-eq-some (book_guards c) (ordered c) b h).1

record IsFinished (e : Entities.Event) (m : Entities.Market) (os : List BestPriceOutcome)
    (b : CanonicalMarketBook) : Type 0 where
  of_event : b.event ≡ e
  of_market : b.market ≡ m
  sorted : b.outcomes ≡ sort_by by_selection os

book_with-IsFinished :
    (screened : Screened) (e : Entities.Event) (m : Entities.Market) (expected : List ℕ)
    (os : List BestPriceOutcome) (f : Option MarketBookFreshness) (b : CanonicalMarketBook)
    → book_with screened e m expected os f ≡ book b
    → IsFinished e m os b
unfolding book_with
book_with-IsFinished screened e m expected os none b h = cc
book_with-IsFinished screened e m expected os (some f) b h =
    subst (IsFinished e m os)
      (validate_book-ordered
        (record {
          event = e;
          market = m;
          expected_selection_ids = expected;
          outcomes = os;
          freshness = f;
          construction_diagnostics = market_diagnostics screened m.id;
        })
        b (built_of-book _ b h))
      (record { of_event = refl; of_market = refl; sorted = refl })

finish-IsFinished :
    (s : Setting) (screened : Screened) (e : Entities.Event) (m : Entities.Market)
    (expected : List ℕ) (os : List BestPriceOutcome) (b : CanonicalMarketBook)
    → finish s screened e m expected os ≡ book b
    → IsFinished e m os b
unfolding finish
finish-IsFinished s screened e m expected [] b h = cc
finish-IsFinished s screened e m expected (o ∷ os) b h =
    book_with-IsFinished screened e m expected (o ∷ os) _ b h

-- What `build_market` went through before it returned a book.
record IsBuilt (s : Setting) (screened : Screened) (e : Entities.Event) (m : Entities.Market)
    (b : CanonicalMarketBook) : Type 0 where
  started : is_scheduled e.status ≡ true
  later : s.now < e.scheduled_start
  os : List BestPriceOutcome
  found : outcomes_for s screened m.id (selection_ids_for_market s.registry m.id) ≡ some os
  finished : finish s screened e m (selection_ids_for_market s.registry m.id) os ≡ book b

build_market-IsBuilt :
    (s : Setting) (screened : Screened) (e : Entities.Event) (m : Entities.Market)
    (b : CanonicalMarketBook)
    → build_market s screened e m ≡ book b
    → IsBuilt s screened e m b
unfolding build_market
build_market-IsBuilt s screened e m b h =
    elim (Option-cases (outcomes_for s screened m.id (selection_ids_for_market s.registry m.id))) [
      | inl n ↦ absurd (ground arith)
      | inr (os, found) ↦ record {
        started = ground arith;
        later = ground arith;
        os = os;
        found = found;
        finished = ground arith;
      }
    ]

is_scheduled→eq : (x : EventStatus) → is_scheduled x ≡ true → x ≡ EventStatus.scheduled
unfolding is_scheduled
is_scheduled→eq x h = ground arith

build_market-IsSound :
    (s : Setting) (quotes : List OddsQuote) (e : Entities.Event) (m : Entities.Market)
    (b : CanonicalMarketBook)
    → build_market s (screen s quotes) e m ≡ book b
    → IsSound s quotes b
build_market-IsSound s quotes e m b h =
    let built = build_market-IsBuilt s (screen s quotes) e m b h in
    let os = built.os in
    let done =
      finish-IsFinished s (screen s quotes) e m (selection_ids_for_market s.registry m.id) os b
        built.finished in
    let are =
      outcomes_for-AreOutcomes s (screen s quotes) m.id (selection_ids_for_market s.registry m.id)
        os built.found in
    record {
      scheduled = ap (λ x. x.status) done.of_event ∙ is_scheduled→eq e.status built.started;
      prematch = subst (λ x. s.now < x.scheduled_start) (sym done.of_event) built.later;
      outcomes = os;
      reordered = subst (λ x. Perm x os) (sym done.sorted) (sort_by-perm by_selection os);
      complete =
          are.named ∙ ap (λ x. selection_ids_for_market s.registry x.id) (sym done.of_market);
      best =
          subst (λ x. All (IsBest s quotes x.id) b.outcomes) (sym done.of_market)
            (subst (All (IsBest s quotes m.id)) (sym done.sorted) (
              sort_by-All by_selection _ os
                (All-map _ _ (λ o k. IsOutcome-IsBest s quotes m.id o k) os are.each)));
    }

build_book-IsSound :
    (s : Setting) (quotes : List OddsQuote) (i : ℕ) (b : CanonicalMarketBook)
    → build_book s (screen s quotes) i ≡ book b
    → IsSound s quotes b
unfolding build_book
build_book-IsSound s quotes i b h = elim (Option-cases (market s.registry i)) [
  | inl n ↦ absurd (ground arith)
  | inr (m, known) ↦ elim (Option-cases (event s.registry m.event_id)) [
    | inl n ↦ absurd (ground arith)
    | inr (e, there) ↦ build_market-IsSound s quotes e m b (ground arith)
  ]
]

add_built-All :
    (P : CanonicalMarketBook → Type 0) (x : Built) (rest : Option Assembly) (a : Assembly)
    → ((b : CanonicalMarketBook) → x ≡ book b → P b)
    → ((r : Assembly) → rest ≡ some r → All P r.0)
    → add_built x rest ≡ some a
    → All P a.0
add_built-All P raised none a f g h = cc
add_built-All P raised (some r) a f g h = cc
add_built-All P (book b) none a f g h = cc
add_built-All P (noted d) none a f g h = cc
add_built-All P (book b) (some r) a f g h =
    subst (λ y. All P y.0) (some-injective (b ∷ r.0, r.1) a h) (f b refl, g r refl)
add_built-All P (noted d) (some r) a f g h =
    subst (λ y. All P y.0) (some-injective (r.0, d ∷ r.1) a h) (g r refl)

assemble-All :
    (s : Setting) (quotes : List OddsQuote) (ids : List ℕ) (a : Assembly)
    → assemble s (screen s quotes) ids ≡ some a
    → All (IsSound s quotes) a.0
unfolding assemble
assemble-All s quotes [] a h =
    subst (λ y. All (IsSound s quotes) y.0) (some-injective ([], []) a h) tt
assemble-All s quotes (i ∷ ids) a h =
    add_built-All (IsSound s quotes) (build_book s (screen s quotes) i)
      (assemble s (screen s quotes) ids) a (build_book-IsSound s quotes i)
      (λ r k. assemble-All s quotes ids r k) h

validate_batch-same : (c b : MarketBookBatch) → validate_batch c ≡ some b → c ≡ b
unfolding validate_batch
validate_batch-same c b h = (checked-eq-some (batch_guards c) c b h).1

batch_of-All :
    (P : CanonicalMarketBook → Type 0) (screened : Screened) (a : Option Assembly)
    (batch : MarketBookBatch)
    → ((r : Assembly) → a ≡ some r → All P r.0)
    → batch_of screened a ≡ some batch
    → All P batch.books
unfolding batch_of
batch_of-All P screened none batch f h = cc
batch_of-All P screened (some (books, notes)) batch f h =
    subst (λ y. All P y.books)
      (validate_batch-same
        (record {
          books = sort_by book_key books;
          diagnostics = sort_by diagnostic_sort_key (screened.diagnostics ++ notes);
        })
        batch h)
      (sort_by-All book_key P books (f (books, notes) refl))

build_scope-IsSound :
    (s : Setting) (quotes : List OddsQuote) (batch : MarketBookBatch)
    → build_scope s quotes ≡ some batch
    → All (IsSound s quotes) batch.books
unfolding build_scope
build_scope-IsSound s quotes batch h =
    batch_of-All (IsSound s quotes) (screen s quotes) (assemble s (screen s quotes) s.scope) batch
      (assemble-All s quotes s.scope) h

abbrev pub setting :
    CanonicalRegistry → (as_of freshness_window : ℕ) → ProviderBookPolicy → List ℕ → Setting
setting registry as_of freshness_window policy scope = record {
  registry = registry;
  now = as_of;
  freshness_window = freshness_window;
  policy = policy;
  scope = scope;
}

-- Every book of a batch is about a scheduled event that begins after the evaluation time. It has one
-- outcome for each selection that the registry has of the market, and no other. The quote of each
-- outcome is one of the given quotes, eligible, and of that market and selection, and no other of the
-- given quotes has its identifier. Each given quote of that selection that is eligible, and whose
-- identifier no other given quote has, loses to it or is it, by price, then time, then provider and
-- identifier. The scope is the one of the given markets, or else of all markets of the registry.
pub build_market_books-IsSound :
    (quotes : List OddsQuote) (registry : CanonicalRegistry) (as_of freshness_window : ℕ)
    (policy : ProviderBookPolicy) (market_ids : Option (List ℕ)) (batch : MarketBookBatch)
    → build_market_books quotes registry as_of freshness_window policy market_ids ≡ some batch
    → (scope : List ℕ) × (scope_of registry market_ids ≡ some scope)
      × All (IsSound (setting registry as_of freshness_window policy scope) quotes) batch.books
unfolding build_market_books
build_market_books-IsSound quotes registry as_of freshness_window policy market_ids batch h =
    elim (Option-cases (scope_of registry market_ids)) [
      | inl n ↦ absurd (ground arith)
      | inr (scope, known) ↦ (
        scope,
        known,
        build_scope-IsSound (setting registry as_of freshness_window policy scope) quotes batch
            (ground arith),
      )
    ]
