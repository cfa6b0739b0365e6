-- ===== src/MarketBook/Builder/Outcomes.antt =====
-- marketbook/builder.py: the outcomes of a market are the best of its quotes.
use mathlib.Core.Option.{some-injective}
use arbiscan_arbitrage_scann.Prelude.{
  ℕ, ◌≡◌, ◌⊎◌, inl, inr, refl, sym, ap, subst, arith, ◌∙◌, Bool, true, false, Option, none, some,
  List, [], ◌∷◌, keep, nat_eq, Option-cases, All, checked-eq-some, In, In-keep, keep-All_back,
}
use arbiscan_arbitrage_scann.Prelude.Groups.{
  IsCongruent, group_at, group_at-group_into, index_get-key,
}
use arbiscan_arbitrage_scann.Domain.{OddsQuote}
use arbiscan_arbitrage_scann.Domain.Entities
use arbiscan_arbitrage_scann.Domain.Entities.{EventStatus, is_scheduled}
use arbiscan_arbitrage_scann.Matching.Registry.{CanonicalRegistry, selection}
use arbiscan_arbitrage_scann.MarketBook.Books.{
  BestPriceOutcome, validate_outcome, outcome_guards, outcome_ids,
}
use arbiscan_arbitrage_scann.MarketBook.Best.{best_quote}
use arbiscan_arbitrage_scann.MarketBook.Best.Laws.{Loses, best_quote_best}
use arbiscan_arbitrage_scann.MarketBook.Builder.Quotes.{is_duplicate, Setting, Screened, screen}
use arbiscan_arbitrage_scann.MarketBook.Builder.Eligible.{
  is_kept, IsEligible, judge-iff_eligible, screen-eq-keep,
}
use arbiscan_arbitrage_scann.MarketBook.Builder.Market.{
  pair_key, same_pair, candidates_for, outcome_for, add_outcome, outcomes_for,
}

same_pair-IsCongruent : IsCongruent same_pair
same_pair-IsCongruent = record { left = λ a b c h. ground arith; right = λ a b c h. ground arith }

pub candidates_for-eq-keep :
    (screened : Screened) (market_id selection_id : ℕ)
    → candidates_for screened market_id selection_id
      ≡ keep (λ q. same_pair (pair_key q) (market_id, selection_id)) screened.quotes
unfolding candidates_for group_at
candidates_for-eq-keep screened market_id selection_id =
    group_at-group_into same_pair pair_key same_pair-IsCongruent _ [] screened.quotes

best_quote-found :
    (cs : List OddsQuote) (b : OddsQuote)
    → best_quote cs ≡ some b
    → In b cs × All (λ q. Loses q b) cs
unfolding best_quote
best_quote-found [] b h = cc
best_quote-found (c ∷ cs) b h =
    let (d, found, i, least) = best_quote_best c cs in
    let e = some-injective d b (sym found ∙ h) in
    (subst (λ x. In x (c ∷ cs)) e i, subst (λ x. All (λ q. Loses q x) (c ∷ cs)) e least)

-- The outcome of a selection, before it stands in a book.
pub record IsOutcome (s : Setting) (screened : Screened) (market_id i : ℕ) (o : BestPriceOutcome)
    : Type 0 where
  pub named : o.selection.id ≡ i
  pub among : In o.quote (candidates_for screened market_id i)
  pub least : All (λ q. Loses q o.quote) (candidates_for screened market_id i)

pub selection-id :
    (r : CanonicalRegistry) (i : ℕ) (x : Entities.Selection) → selection r i ≡ some x → x.id ≡ i
unfolding selection
selection-id r i x h = index_get-key (λ y. y.id) r.selections i x h

validate_outcome-same : (o p : BestPriceOutcome) → validate_outcome o ≡ some p → o ≡ p
unfolding validate_outcome
validate_outcome-same o p h = (checked-eq-some (outcome_guards o) o p h).1

outcome_for-IsOutcome :
    (s : Setting) (screened : Screened) (market_id i : ℕ) (o : BestPriceOutcome)
    → outcome_for s screened market_id i ≡ some o
    → IsOutcome s screened market_id i o
unfolding outcome_for
outcome_for-IsOutcome s screened market_id i o h = elim (Option-cases (selection s.registry i)) [
  | inl n ↦ absurd (ground arith)
  | inr (x, known) ↦ elim (Option-cases (best_quote (candidates_for screened market_id i))) [
    | inl n ↦ absurd (ground arith)
    | inr (q, found) ↦
        let same = validate_outcome-same (record { selection = x; quote = q }) o (ground arith) in
        let (among, least) = best_quote-found (candidates_for screened market_id i) q found in
        subst (IsOutcome s screened market_id i) same
          (record { named = selection-id s.registry i x known; among = among; least = least })
  ]
]

pub record AreOutcomes (s : Setting) (screened : Screened) (market_id : ℕ) (ids : List ℕ)
    (os : List BestPriceOutcome) : Type 0 where
  pub named : outcome_ids os ≡ ids
  pub each : All (λ o. IsOutcome s screened market_id o.selection.id o) os

add_outcome-some :
    (o : Option BestPriceOutcome) (rest : Option (List BestPriceOutcome))
    (os : List BestPriceOutcome)
    → add_outcome o rest ≡ some os
    → (p : BestPriceOutcome) × (ps : List BestPriceOutcome) × (o ≡ some p)
      × (rest ≡ some ps)
      × (p ∷ ps ≡ os)
add_outcome-some none rest os h = cc
add_outcome-some (some p) none os h = cc
add_outcome-some (some p) (some ps) os h = (p, ps, refl, refl, some-injective (p ∷ ps) os h)

pub outcomes_for-AreOutcomes :
    (s : Setting) (screened : Screened) (market_id : ℕ) (ids : List ℕ) (os : List BestPriceOutcome)
    → outcomes_for s screened market_id ids ≡ some os
    → AreOutcomes s screened market_id ids os
unfolding outcomes_for
outcomes_for-AreOutcomes s screened market_id [] os h =
    subst (AreOutcomes s screened market_id []) (some-injective [] os h)
      (record { named = refl; each = tt })
outcomes_for-AreOutcomes s screened market_id (i ∷ ids) os h =
    let (p, ps, here, there, same) =
      add_outcome-some (outcome_for s screened market_id i) (outcomes_for s screened market_id ids)
        os h in
    let first = outcome_for-IsOutcome s screened market_id i p here in
    let rest = outcomes_for-AreOutcomes s screened market_id ids ps there in
    subst (AreOutcomes s screened market_id (i ∷ ids)) same (record {
      named = rw (first.named, rest.named) refl;
      each = (subst (λ j. IsOutcome s screened market_id j p) (sym first.named) first, rest.each);
    })

-- An outcome of a book, against all the quotes that were given.
pub record IsBest (s : Setting) (quotes : List OddsQuote) (market_id : ℕ) (o : BestPriceOutcome)
    : Type 0 where
  pub given : In o.quote quotes
  pub eligible : IsEligible s o.quote
  pub unique : is_duplicate quotes o.quote ≡ false
  pub of_market : o.quote.market_id ≡ market_id
  pub of_selection : o.quote.selection_id ≡ o.selection.id
  pub best :
      All
        (λ q.
          (is_kept s quotes q ≡ false)
          ⊎ ((same_pair (pair_key q) (market_id, o.selection.id) ≡ false) ⊎ Loses q o.quote))
        quotes

pub is_kept-IsEligible :
    (s : Setting) (quotes : List OddsQuote) (q : OddsQuote)
    → is_kept s quotes q ≡ true
    → IsEligible s q
is_kept-IsEligible s quotes q h = (judge-iff_eligible s q).0 (ground arith)

pub IsOutcome-IsBest :
    (s : Setting) (quotes : List OddsQuote) (market_id : ℕ) (o : BestPriceOutcome)
    → IsOutcome s (screen s quotes) market_id o.selection.id o
    → IsBest s quotes market_id o
IsOutcome-IsBest s quotes market_id o h =
    let here : OddsQuote → Bool = λ q. same_pair (pair_key q) (market_id, o.selection.id) in
    let shown =
      candidates_for-eq-keep (screen s quotes) market_id o.selection.id
      ∙ ap (keep here) (screen-eq-keep s quotes) in
    let (i, pair) =
      In-keep here o.quote (keep (is_kept s quotes) quotes) (subst (In o.quote) shown h.among) in
    let (j, kept) = In-keep (is_kept s quotes) o.quote quotes i in
    record {
      given = j;
      eligible = is_kept-IsEligible s quotes o.quote kept;
      unique = ground arith;
      of_market = ground (arith, pair);
      of_selection = ground (arith, pair);
      best = keep-All_back _ (is_kept s quotes) quotes (
          keep-All_back _ here (keep (is_kept s quotes) quotes)
            (subst (All (λ q. Loses q o.quote)) shown h.least));
    }
