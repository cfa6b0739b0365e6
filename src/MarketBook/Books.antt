-- ===== src/MarketBook/Books.antt =====
-- marketbook/models.py. The details of diagnostics are texts that nothing reads but their sort key,
-- where they come last and tell apart diagnostics that are otherwise the same.
use arbiscan_arbitrage_scann.Prelude.{
  ℕ, suc, ◌+◌, Bool, true, false, not, Option, none, some, List, [], ◌∷◌, map, any, length, ltb,
  leb, nat_beq, nat_eq, list_eq, contains, all_distinct, same_set, or_else, checked, if◌then◌else◌,
}
use arbiscan_arbitrage_scann.Prelude.Sort.{sort_by}
use arbiscan_arbitrage_scann.Domain.{OddsQuote, is_active}
use arbiscan_arbitrage_scann.Domain.Entities.{Event, Market, Selection}

-- `MarketBookDiagnosticCode`
pub data BookCode : Type 0 where
  duplicate_quote_id unknown_event unknown_market unknown_selection : BookCode
  quote_event_mismatch quote_selection_mismatch provider_filtered inactive_quote : BookCode
  future_ingestion future_quote stale_quote : BookCode
  event_not_prematch insufficient_outcomes incomplete_market : BookCode

-- The order of the codes' texts.
abbrev pub book_code_rank : BookCode → ℕ
book_code_rank BookCode.duplicate_quote_id = 0
book_code_rank BookCode.event_not_prematch = 1
book_code_rank BookCode.future_ingestion = 2
book_code_rank BookCode.future_quote = 3
book_code_rank BookCode.inactive_quote = 4
book_code_rank BookCode.incomplete_market = 5
book_code_rank BookCode.insufficient_outcomes = 6
book_code_rank BookCode.provider_filtered = 7
book_code_rank BookCode.quote_event_mismatch = 8
book_code_rank BookCode.quote_selection_mismatch = 9
book_code_rank BookCode.stale_quote = 10
book_code_rank BookCode.unknown_event = 11
book_code_rank BookCode.unknown_market = 12
book_code_rank BookCode.unknown_selection = 13

pub record ProviderBookPolicy : Type 0 where
  pub included_provider_ids : Option (List ℕ)
  pub excluded_provider_ids : List ℕ

abbrev pub sort_ids : List ℕ → List ℕ
sort_ids ids = sort_by (λ n. n ∷ []) ids

abbrev pub sort_included : Option (List ℕ) → Option (List ℕ)
sort_included none = none
sort_included (some ids) = some (sort_ids ids)

-- `ProviderBookPolicy.__post_init__`; `none` is the raised ValueError, here and below.
unfoldable pub validate_policy : ProviderBookPolicy → Option ProviderBookPolicy
validate_policy p =
    let included = or_else p.included_provider_ids [] in
    checked
      (not (all_distinct included)
        ∷ not (all_distinct p.excluded_provider_ids)
        ∷ any (contains p.excluded_provider_ids) included
        ∷ [])
      (record {
        included_provider_ids = sort_included p.included_provider_ids;
        excluded_provider_ids = sort_ids p.excluded_provider_ids;
      })

-- `ProviderBookPolicy.allows`
unfoldable pub allows : ProviderBookPolicy → ℕ → Bool
allows p provider_id =
    if contains p.excluded_provider_ids provider_id then false else elim p.included_provider_ids [
      | none ↦ true
      | some included ↦ contains included provider_id
    ]

pub record MarketBookDiagnostic : Type 0 where
  pub code : BookCode
  pub event_id : Option ℕ
  pub market_id : Option ℕ
  pub selection_id : Option ℕ
  pub provider_id : Option ℕ
  pub quote_id : Option ℕ

-- `"" if x is None else x.value`: the empty text comes before the others.
abbrev pub text_or_empty : Option ℕ → ℕ
text_or_empty none = 0
text_or_empty (some n) = suc n

-- `_diagnostic_sort_key`
unfoldable pub diagnostic_sort_key : MarketBookDiagnostic → List ℕ
diagnostic_sort_key d =
    text_or_empty d.event_id
    ∷ text_or_empty d.market_id
    ∷ book_code_rank d.code
    ∷ text_or_empty d.selection_id
    ∷ text_or_empty d.provider_id
    ∷ text_or_empty d.quote_id
    ∷ []

pub record BestPriceOutcome : Type 0 where
  pub selection : Selection
  pub quote : OddsQuote

-- `BestPriceOutcome.__post_init__`
unfoldable pub outcome_guards : BestPriceOutcome → List Bool
unfolding is_active
outcome_guards o =
    not (nat_beq o.quote.selection_id o.selection.id)
    ∷ not (nat_beq o.quote.market_id o.selection.market_id)
    ∷ not (is_active o.quote.status)
    ∷ []

unfoldable pub validate_outcome : BestPriceOutcome → Option BestPriceOutcome
unfolding outcome_guards
validate_outcome o = checked (outcome_guards o) o

pub record MarketBookFreshness : Type 0 where
  pub as_of : ℕ
  pub freshness_window : ℕ
  pub oldest_quote_at : ℕ
  pub newest_quote_at : ℕ

-- `MarketBookFreshness.__post_init__`; `as_of - oldest > window` with the subtrahend moved over.
unfoldable pub freshness_guards : MarketBookFreshness → List Bool
freshness_guards f =
    leb f.freshness_window 0
    ∷ ltb f.newest_quote_at f.oldest_quote_at
    ∷ ltb f.as_of f.newest_quote_at
    ∷ ltb (f.freshness_window + f.oldest_quote_at) f.as_of
    ∷ []

unfoldable pub validate_freshness : MarketBookFreshness → Option MarketBookFreshness
unfolding freshness_guards
validate_freshness f = checked (freshness_guards f) f

pub record CanonicalMarketBook : Type 0 where
  pub event : Event
  pub market : Market
  pub expected_selection_ids : List ℕ
  pub outcomes : List BestPriceOutcome
  pub freshness : MarketBookFreshness
  pub construction_diagnostics : List MarketBookDiagnostic

abbrev pub outcome_ids : List BestPriceOutcome → List ℕ
outcome_ids outcomes = map (λ o. o.selection.id) outcomes

-- `CanonicalMarketBook.__post_init__`
unfoldable pub book_guards : CanonicalMarketBook → List Bool
book_guards b =
    not (nat_beq b.market.event_id b.event.id)
    ∷ ltb (length b.expected_selection_ids) 2
    ∷ not (all_distinct b.expected_selection_ids)
    ∷ not (all_distinct (outcome_ids b.outcomes))
    ∷ not (same_set (outcome_ids b.outcomes) b.expected_selection_ids)
    ∷ any (λ o. not (nat_beq o.selection.market_id b.market.id)) b.outcomes
    ∷ any (λ o. not (nat_beq o.quote.event_id b.event.id)) b.outcomes
    ∷ any (λ o. not (nat_beq o.quote.market_id b.market.id)) b.outcomes
    ∷ []

abbrev pub by_selection : BestPriceOutcome → List ℕ
by_selection o = o.selection.id ∷ []

abbrev pub ordered : CanonicalMarketBook → CanonicalMarketBook
ordered b = record b {
  expected_selection_ids = sort_ids b.expected_selection_ids;
  outcomes = sort_by by_selection b.outcomes;
}

unfoldable pub validate_book : CanonicalMarketBook → Option CanonicalMarketBook
unfolding book_guards
validate_book b = checked (book_guards b) (ordered b)

pub record MarketBookBatch : Type 0 where
  pub books : List CanonicalMarketBook
  pub diagnostics : List MarketBookDiagnostic

-- `(book.event.id, book.market.id)`
abbrev pub book_key : CanonicalMarketBook → List ℕ
book_key b = b.event.id ∷ b.market.id ∷ []

-- `MarketBookBatch.__post_init__`
abbrev pub batch_guards : MarketBookBatch → List Bool
batch_guards b = not (all_distinct (map book_key b.books)) ∷ []

unfoldable pub validate_batch : MarketBookBatch → Option MarketBookBatch
validate_batch b = checked (batch_guards b) b
