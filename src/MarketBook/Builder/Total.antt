-- ===== src/MarketBook/Builder/Total.antt =====
-- marketbook/builder.py: on a valid registry, no call of `build_market_books` raises.
use arbiscan_arbitrage_scann.Prelude.{
  ℕ, ◌<◌, ◌≡◌, inl, inr, refl, sym, ap, subst, arith, ◌∙◌, true, false, not, ◌||◌, Option, some,
  List, [], ◌∷◌, ◌++◌, map, any, nat_beq, nat_beq_iff, nat_eq, list_eq, ltb, leb, length, All,
  All-map, Bool-cases, checked-passed, contains, all_distinct,
}
use arbiscan_arbitrage_scann.Prelude.Sort.{sort_by}
use arbiscan_arbitrage_scann.Prelude.Distinct.{all_distinct-sort_by}
use arbiscan_arbitrage_scann.Domain.{OddsQuote}
use arbiscan_arbitrage_scann.Domain.Entities
use arbiscan_arbitrage_scann.Domain.Entities.{is_scheduled}
use arbiscan_arbitrage_scann.Matching.Registry.{
  CanonicalRegistry, event, market, selection_ids_for_market,
}
use arbiscan_arbitrage_scann.Matching.Registry.Checks.{validate_registry}
use arbiscan_arbitrage_scann.MarketBook.Books.{
  CanonicalMarketBook, book_key, ProviderBookPolicy, MarketBookBatch, validate_batch, batch_guards,
  diagnostic_sort_key,
}
use arbiscan_arbitrage_scann.MarketBook.Builder.Quotes.{Setting, Screened, screen}
use arbiscan_arbitrage_scann.MarketBook.Builder.Market.{
  Built, book, noted, raised, candidates_for, is_empty, build_market, build_book,
}
use arbiscan_arbitrage_scann.MarketBook.Builder.Chosen.{outcomes_for-Fits}
use arbiscan_arbitrage_scann.MarketBook.Builder.Sound.{setting}
use arbiscan_arbitrage_scann.MarketBook.Builder.{
  Assembly, add_built, assemble, batch_of, build_scope, build_market_books, scope_of,
}
use arbiscan_arbitrage_scann.MarketBook.Builder.Known.{
  IsRegistry, validate_registry-IsRegistry, selection_ids-distinct, event-id, market-id,
  market-event, scope_of-All,
}
use arbiscan_arbitrage_scann.MarketBook.Builder.Passes.{Returns, finish-Returns}

clash : (ids : List ℕ) (j i : ℕ) → contains ids j ≡ true → contains ids i ≡ false → j ≡ i → ⊥
clash ids j i h k e = true-false (sym (subst (λ n. contains ids n ≡ true) e h) ∙ k)
  where
    true-false : true ≡ false → ⊥
    true-false x = ground arith

-- A book of a market that no other book is of.
book_key-new :
    (i : ℕ) (ids : List ℕ) (b : CanonicalMarketBook) (bs : List CanonicalMarketBook)
    → contains ids i ≡ false
    → b.market.id ≡ i
    → All (λ c. contains ids c.market.id ≡ true) bs
    → contains (map book_key bs) (book_key b) ≡ false
book_key-new i ids b [] new named h = refl
book_key-new i ids b (c ∷ cs) new named h =
    let here = h.0 in
    let rest = book_key-new i ids b cs new named h.1 in
    elim (Bool-cases (nat_beq c.market.id b.market.id)) [
      | inl e ↦ absurd (clash ids c.market.id i here new ((nat_beq_iff _ _).0 e ∙ named))
      | inr e ↦ ground (arith, e, rest)
    ]

module _ (s : Setting) (quotes : List OddsQuote) (positive : 0 < s.freshness_window) where
  module _ (h : IsRegistry s.registry) where
    build_market-Returns :
        (e : Entities.Event) (m : Entities.Market)
        → market s.registry m.id ≡ some m
        → event s.registry m.event_id ≡ some e
        → Returns m.id (build_market s (screen s quotes) e m)
    unfolding build_market
    build_market-Returns e m known there =
        let expected = selection_ids_for_market s.registry m.id in
        elim (Bool-cases (not (is_scheduled e.status) || leb e.scheduled_start s.now)) [
          | inl late ↦ rw late tt
          | inr early ↦ elim (Bool-cases (ltb (length expected) 2)) [
            | inl few ↦ rw (early, few) tt
            | inr enough ↦
                elim (Bool-cases
                  (any (λ i. is_empty (candidates_for (screen s quotes) m.id i)) expected)) [
                    | inl missing ↦ rw (early, enough, missing) tt
                    | inr full ↦
                        let (os, found, named, fits) =
                          outcomes_for-Fits s quotes m expected known full in
                        rw (early, enough, full, found)
                          (finish-Returns s positive (screen s quotes) e m expected os
                            (sym (event-id s.registry m.event_id e there)) enough
                            (selection_ids-distinct s.registry m.id h) named fits)
                  ]
          ]
        ]

    build_book-Returns :
        (i : ℕ) (m : Entities.Market)
        → market s.registry i ≡ some m
        → Returns i (build_book s (screen s quotes) i)
    unfolding build_book
    build_book-Returns i m known =
        let named = market-id s.registry i m known in
        let (e, there) = market-event s.registry i m h known in
        rw (known, there)
          (subst (λ n. Returns n (build_market s (screen s quotes) e m)) named
            (build_market-Returns e m (ap (market s.registry) named ∙ known) there))

    -- The markets of a scope are known.
    abbrev IsKnown : List ℕ → Type 0
    IsKnown ids = All (λ i. (m : Entities.Market) × (market s.registry i ≡ some m)) ids

    abbrev IsAssembled : List ℕ → Assembly → Type 0
    IsAssembled ids a =
        (all_distinct (map book_key a.0) ≡ true) × All (λ b. contains ids b.market.id ≡ true) a.0

    add_built-IsAssembled :
        (i : ℕ) (ids : List ℕ) (x : Built) (a : Assembly)
        → contains ids i ≡ false
        → Returns i x
        → IsAssembled ids a
        → (r : Assembly) × (add_built x (some a) ≡ some r) × IsAssembled (i ∷ ids) r
    add_built-IsAssembled i ids raised a new returns done = absurd returns
    add_built-IsAssembled i ids (noted d) a new returns done =
        ((a.0, d ∷ a.1), refl, (done.0, All-map _ _ (λ b k. ground (arith, k)) a.0 done.1))
    add_built-IsAssembled i ids (book b) a new returns done = (
      (b ∷ a.0, a.1),
      refl,
      (
        ground (arith, done.0, book_key-new i ids b a.0 new returns done.1),
        (ground (arith, returns), All-map _ _ (λ c k. ground (arith, k)) a.0 done.1),
      ),
    )

    assemble-IsAssembled :
        (ids : List ℕ)
        → all_distinct ids ≡ true
        → IsKnown ids
        → (a : Assembly) × (assemble s (screen s quotes) ids ≡ some a) × IsAssembled ids a
    unfolding assemble
    assemble-IsAssembled [] distinct known = (([], []), refl, (refl, tt))
    assemble-IsAssembled (i ∷ ids) distinct known =
        let (a, rest, done) = assemble-IsAssembled ids (ground arith) known.1 in
        let (r, added, all_done) =
          add_built-IsAssembled i ids (build_book s (screen s quotes) i) a (ground arith)
            (build_book-Returns i known.0.0 known.0.1) done in
        (r, rw rest added, all_done)

    batch_of-some :
        (screened : Screened) (a : Assembly)
        → all_distinct (map book_key a.0) ≡ true
        → (b : MarketBookBatch) × (batch_of screened (some a) ≡ some b)
    unfolding batch_of validate_batch
    batch_of-some screened (books, notes) distinct =
        let b : MarketBookBatch = record {
          books = sort_by book_key books;
          diagnostics = sort_by diagnostic_sort_key (screened.diagnostics ++ notes);
        } in
        (
          b,
          checked-passed (batch_guards b) b
              (ground (arith, all_distinct-sort_by book_key book_key books distinct), tt),
        )

    build_scope-some :
        all_distinct s.scope ≡ true
        → IsKnown s.scope
        → (b : MarketBookBatch) × (build_scope s quotes ≡ some b)
    unfolding build_scope
    build_scope-some distinct known =
        let (a, found, done) = assemble-IsAssembled s.scope distinct known in
        let (b, made) = batch_of-some (screen s quotes) a done.0 in (b, rw found made)

-- On a registry that passes its checks, with a positive window and market identifiers that are unique
-- and known, `build_market_books` returns a batch, whatever the quotes are: no check of a book, of an
-- outcome, of a freshness envelope or of the batch fails, and no assertion.
pub build_market_books_total :
    (quotes : List OddsQuote) (registry : CanonicalRegistry) (as_of freshness_window : ℕ)
    (policy : ProviderBookPolicy) (market_ids : Option (List ℕ)) (scope : List ℕ)
    → validate_registry registry ≡ some registry
    → 0 < freshness_window
    → scope_of registry market_ids ≡ some scope
    → (batch : MarketBookBatch) × (build_market_books quotes registry as_of freshness_window policy
          market_ids
        ≡ some batch)
unfolding build_market_books
build_market_books_total quotes registry as_of freshness_window policy market_ids scope valid
      positive known =
    let h = validate_registry-IsRegistry registry valid in
    let (distinct, found) = scope_of-All registry market_ids scope h known in
    let (batch, built) =
      build_scope-some (setting registry as_of freshness_window policy scope) quotes positive h
        distinct found in
    (batch, ground (arith, positive, known, built))
