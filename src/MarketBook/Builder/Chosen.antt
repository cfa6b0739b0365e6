-- ===== src/MarketBook/Builder/Chosen.antt =====
-- marketbook/builder.py: where every selection has an eligible quote, its outcome passes all checks.
use mathlib.Core.Option.{some-injective}
use arbiscan_arbitrage_scann.Prelude.{
  ℕ, ◌+◌, ◌≤◌, ◌<◌, ◌≡◌, refl, sym, ap, subst, arith, ◌∙◌, Bool, false, some, List, [], ◌∷◌, any,
  any-All, keep, ltb, All, In, In-keep, checked-passed, if◌then◌else◌,
}
use arbiscan_arbitrage_scann.Domain.{OddsQuote, effective_timestamp}
use arbiscan_arbitrage_scann.Domain.Entities
use arbiscan_arbitrage_scann.Matching.Registry.{market, selection}
use arbiscan_arbitrage_scann.MarketBook.Books.{
  BestPriceOutcome, validate_outcome, outcome_guards, outcome_ids, freshness_guards,
  validate_freshness,
}
use arbiscan_arbitrage_scann.MarketBook.Best.{best_quote}
use arbiscan_arbitrage_scann.MarketBook.Best.Laws.{best_quote_best}
use arbiscan_arbitrage_scann.MarketBook.Builder.Quotes.{Setting, screen}
use arbiscan_arbitrage_scann.MarketBook.Builder.Eligible.{is_kept, IsEligible, screen-eq-keep}
use arbiscan_arbitrage_scann.MarketBook.Builder.Market.{
  pair_key, same_pair, candidates_for, outcome_for, outcomes_for, is_empty, oldest, newest,
  freshness_of,
}
use arbiscan_arbitrage_scann.MarketBook.Builder.Outcomes.{
  candidates_for-eq-keep, selection-id, is_kept-IsEligible,
}

-- An outcome that stands in no way of a book of the market.
pub record Fits (s : Setting) (m : Entities.Market) (o : BestPriceOutcome) : Type 0 where
  pub of_market : o.selection.market_id ≡ m.id
  pub quote_event : o.quote.event_id ≡ m.event_id
  pub quote_market : o.quote.market_id ≡ m.id
  pub not_future : effective_timestamp o.quote ≤ s.now
  pub in_window : s.now ≤ effective_timestamp o.quote + s.freshness_window

not_empty :
    (qs : List OddsQuote)
    → is_empty qs ≡ false
    → (q : OddsQuote) × (rest : List OddsQuote) × (qs ≡ q ∷ rest)
not_empty [] h = absurd (ground arith)
not_empty (q ∷ rest) h = (q, rest, refl)

-- The best of the candidates of a selection, where there is one.
best_candidate :
    (s : Setting) (quotes : List OddsQuote) (market_id i : ℕ)
    → is_empty (candidates_for (screen s quotes) market_id i) ≡ false
    → (b : OddsQuote) × (best_quote (candidates_for (screen s quotes) market_id i) ≡ some b)
      × IsEligible s b
      × (b.market_id ≡ market_id)
      × (b.selection_id ≡ i)
best_candidate s quotes market_id i h =
    let (q, rest, shape) = not_empty (candidates_for (screen s quotes) market_id i) h in
    let (b, found, here, least) = best_quote_best q rest in
    let fits : OddsQuote → Bool = λ x. same_pair (pair_key x) (market_id, i) in
    let shown =
      sym shape
      ∙ candidates_for-eq-keep (screen s quotes) market_id i
      ∙ ap (keep fits) (screen-eq-keep s quotes) in
    let (j, pair) = In-keep fits b (keep (is_kept s quotes) quotes) (subst (In b) shown here) in
    let (k, kept) = In-keep (is_kept s quotes) b quotes j in
    (
      b,
      ap best_quote shape ∙ found,
      is_kept-IsEligible s quotes b kept,
      ground (arith, pair),
      ground (arith, pair),
    )

outcome_passes :
    (s : Setting) (b : OddsQuote) (x : Entities.Selection) (i market_id : ℕ)
    → IsEligible s b
    → b.market_id ≡ market_id
    → b.selection_id ≡ i
    → selection s.registry i ≡ some x
    → x.market_id ≡ b.market_id
    → validate_outcome (record { selection = x; quote = b })
      ≡ some (record { selection = x; quote = b })
unfolding validate_outcome outcome_guards
outcome_passes s b x i market_id e hm hi hx linked =
    let active = e.active in
    let named = selection-id s.registry i x hx in
    checked-passed (outcome_guards (record { selection = x; quote = b })) _
      (ground arith, (ground arith, (ground arith, tt)))

outcome_for-Fits :
    (s : Setting) (quotes : List OddsQuote) (m : Entities.Market) (i : ℕ)
    → market s.registry m.id ≡ some m
    → is_empty (candidates_for (screen s quotes) m.id i) ≡ false
    → (o : BestPriceOutcome) × (outcome_for s (screen s quotes) m.id i ≡ some o)
      × (o.selection.id ≡ i)
      × Fits s m o
unfolding outcome_for
outcome_for-Fits s quotes m i known h =
    let (b, found, e, hm, hi) = best_candidate s quotes m.id i h in
    let x = e.of_selection in
    let hx = subst (λ n. selection s.registry n ≡ some x) hi e.known_selection in
    let same =
      some-injective m e.of_market (sym known ∙ ap (market s.registry) (sym hm) ∙ e.known_market) in
    let passes = outcome_passes s b x i m.id e hm hi hx e.linked_market in
    (
      record { selection = x; quote = b },
      rw (hx, found) passes,
      selection-id s.registry i x hx,
      record {
        of_market = e.linked_market ∙ hm;
        quote_event = sym (ap (λ y. y.event_id) same ∙ e.linked_event);
        quote_market = hm;
        not_future = e.not_future;
        in_window = e.in_window;
      },
    )

-- The outcomes of a market of which no selection lacks a quote.
pub outcomes_for-Fits :
    (s : Setting) (quotes : List OddsQuote) (m : Entities.Market) (ids : List ℕ)
    → market s.registry m.id ≡ some m
    → any (λ i. is_empty (candidates_for (screen s quotes) m.id i)) ids ≡ false
    → (os : List BestPriceOutcome) × (outcomes_for s (screen s quotes) m.id ids ≡ some os)
      × (outcome_ids os ≡ ids)
      × All (Fits s m) os
unfolding outcomes_for
outcomes_for-Fits s quotes m [] known h = ([], refl, refl, tt)
outcomes_for-Fits s quotes m (i ∷ ids) known h =
    let (here, there) =
      any-All (λ j. is_empty (candidates_for (screen s quotes) m.id j)) (i ∷ ids) h in
    let (o, found, named, fits) = outcome_for-Fits s quotes m i known here in
    let (os, rest, ids_same, all_fit) = outcomes_for-Fits s quotes m ids known (ground arith) in
    (o ∷ os, rw (found, rest) refl, rw (named, ids_same) refl, (fits, all_fit))

newest-ge : (t : ℕ) (ts : List ℕ) → t ≤ newest t ts
newest-ge t [] = omega arith
newest-ge t (u ∷ us) = ground (arith, newest-ge (if ltb t u then u else t) us)

oldest-le : (t : ℕ) (ts : List ℕ) → oldest t ts ≤ t
oldest-le t [] = omega arith
oldest-le t (u ∷ us) = ground (arith, oldest-le (if ltb u t then u else t) us)

newest-le : (now t : ℕ) (ts : List ℕ) → t ≤ now → All (λ u. u ≤ now) ts → newest t ts ≤ now
newest-le now t [] h k = h
newest-le now t (u ∷ us) h k =
    newest-le now (if ltb t u then u else t) us (ground (arith, h, k.0)) k.1

oldest-ge :
    (now window t : ℕ) (ts : List ℕ)
    → now ≤ t + window
    → All (λ u. now ≤ u + window) ts
    → now ≤ oldest t ts + window
oldest-ge now window t [] h k = h
oldest-ge now window t (u ∷ us) h k =
    oldest-ge now window (if ltb u t then u else t) us (ground (arith, h, k.0)) k.1

-- The freshness envelope of times that are all in the window passes its checks.
pub validate_freshness-passes :
    (s : Setting) (t : ℕ) (ts : List ℕ)
    → 0 < s.freshness_window
    → All (λ u. u ≤ s.now) (t ∷ ts)
    → All (λ u. s.now ≤ u + s.freshness_window) (t ∷ ts)
    → validate_freshness (freshness_of s t ts) ≡ some (freshness_of s t ts)
unfolding validate_freshness freshness_guards freshness_of
validate_freshness-passes s t ts positive past recent =
    checked-passed (freshness_guards (freshness_of s t ts)) _ (
      ground arith,
      (
        ground (arith, newest-ge t ts, oldest-le t ts),
        (
          ground (arith, newest-le s.now t ts past.0 past.1),
          (ground (arith, oldest-ge s.now s.freshness_window t ts recent.0 recent.1), tt),
        ),
      ),
    )
