-- ===== src/MarketBook/Builder/Passes.antt =====
-- marketbook/models.py: a book of outcomes that fit its market passes its checks.
use arbiscan_arbitrage_scann.Prelude.{
  ℕ, ◌+◌, ◌≤◌, ◌<◌, ◌≡◌, refl, ap, arith, Bool, true, false, some, List, [], ◌∷◌, map, any, nat_eq,
  list_eq, ltb, length, All, All-map, checked-passed, all_distinct,
}
use arbiscan_arbitrage_scann.Prelude.Groups.{same_set_refl}
use arbiscan_arbitrage_scann.Domain.{effective_timestamp}
use arbiscan_arbitrage_scann.Domain.Entities
use arbiscan_arbitrage_scann.Domain.Entities.{is_scheduled}
use arbiscan_arbitrage_scann.MarketBook.Books.{
  BestPriceOutcome, outcome_ids, CanonicalMarketBook, validate_book, book_guards, ordered,
}
use arbiscan_arbitrage_scann.MarketBook.Builder.Quotes.{Setting, Screened}
use arbiscan_arbitrage_scann.MarketBook.Builder.Market.{
  Built, book, noted, raised, finish, book_with, freshness_of, market_diagnostics,
}
use arbiscan_arbitrage_scann.MarketBook.Builder.Chosen.{Fits, validate_freshness-passes}

-- The market of a book, and no exception.
abbrev pub Returns : ℕ → Built → Type 0
Returns i (book b) = b.market.id ≡ i
Returns i (noted d) = Unit
Returns i raised = ⊥

all_false {ℓ} :
    {A : Type ℓ} (p : A → Bool) (xs : List A) → All (λ x. p x ≡ false) xs → any p xs ≡ false
all_false p [] h = refl
all_false p (x ∷ xs) h = ground (arith, h.0, all_false p xs h.1)

module _ (s : Setting) (positive : 0 < s.freshness_window) where
  book_passes :
      (b : CanonicalMarketBook)
      → b.market.event_id ≡ b.event.id
      → ltb (length b.expected_selection_ids) 2 ≡ false
      → all_distinct b.expected_selection_ids ≡ true
      → outcome_ids b.outcomes ≡ b.expected_selection_ids
      → All (Fits s b.market) b.outcomes
      → validate_book b ≡ some (ordered b)
  unfolding validate_book book_guards
  book_passes b linked enough distinct named fits = checked-passed (book_guards b) (ordered b) (
    ground arith,
    (
      enough,
      (
        ground (arith, distinct),
        (
          rw named (ground (arith, distinct)),
          (
            rw named (ground (arith, same_set_refl b.expected_selection_ids)),
            (
              all_false _ _ (All-map _ _ (λ o f. ground (arith, f.of_market)) b.outcomes fits),
              (
                all_false _ _ (All-map _ _ (λ o f. ground (arith, f.quote_event)) b.outcomes fits),
                (
                  all_false _ _
                      (All-map _ _ (λ o f. ground (arith, f.quote_market)) b.outcomes fits),
                  tt,
                ),
              ),
            ),
          ),
        ),
      ),
    ),
  )

  times-All :
      (P : ℕ → Type 0) (m : Entities.Market) (os : List BestPriceOutcome)
      → ((o : BestPriceOutcome) → Fits s m o → P (effective_timestamp o.quote))
      → All (Fits s m) os
      → All P (map (λ x. effective_timestamp x.quote) os)
  times-All P m [] f h = tt
  times-All P m (o ∷ os) f h = (f o h.0, times-All P m os f h.1)

  pub finish-Returns :
      (screened : Screened) (e : Entities.Event) (m : Entities.Market) (expected : List ℕ)
      (os : List BestPriceOutcome)
      → m.event_id ≡ e.id
      → ltb (length expected) 2 ≡ false
      → all_distinct expected ≡ true
      → outcome_ids os ≡ expected
      → All (Fits s m) os
      → Returns m.id (finish s screened e m expected os)
  unfolding finish book_with
  finish-Returns screened e m expected [] linked enough distinct named fits =
      absurd (ground (arith, ap length named))
  finish-Returns screened e m expected (o ∷ os) linked enough distinct named fits =
      let time = effective_timestamp o.quote in
      let times = map (λ x. effective_timestamp x.quote) os in
      rw
        (
          validate_freshness-passes s time times positive
              (times-All (λ u. u ≤ s.now) m (o ∷ os) (λ x f. f.not_future) fits)
              (times-All (λ u. s.now ≤ u + s.freshness_window) m (o ∷ os) (λ x f. f.in_window)
                fits),
          book_passes
              (record {
                event = e;
                market = m;
                expected_selection_ids = expected;
                outcomes = o ∷ os;
                freshness = freshness_of s time times;
                construction_diagnostics = market_diagnostics screened m.id;
              })
              linked enough distinct named fits,
        )
        refl
