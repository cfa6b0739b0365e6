-- ===== src/MarketBook/Builder/Quotes.antt =====
-- marketbook/builder.py: the loop of `build_market_books` over the quotes.
use arbiscan_arbitrage_scann.Prelude.{
  ℕ, ◌+◌, Bool, true, false, not, none, some, List, [], ◌∷◌, ◌++◌, keep, length, ltb, nat_beq,
  nat_eq, contains, if◌then◌else◌,
}
use arbiscan_arbitrage_scann.Domain.{OddsQuote, effective_timestamp, is_active}
use arbiscan_arbitrage_scann.Domain.Entities.{Market, Selection}
use arbiscan_arbitrage_scann.Matching.Registry.{CanonicalRegistry, event, market, selection}
use arbiscan_arbitrage_scann.MarketBook.Books.{
  BookCode, ProviderBookPolicy, allows, MarketBookDiagnostic,
}

-- The arguments of `build_market_books` that its loops read, once they are validated.
pub record Setting : Type 0 where
  pub registry : CanonicalRegistry
  pub now : ℕ
  pub freshness_window : ℕ
  pub policy : ProviderBookPolicy
  pub scope : List ℕ

-- What the loop decides on a quote whose identifier is not a duplicate.
pub data Verdict : Type 0 where
  eligible out_of_scope : Verdict
  refuse : BookCode → Verdict

abbrev pub is_verdict_eligible : Verdict → Bool
is_verdict_eligible eligible = true
is_verdict_eligible _ = false

-- `_diagnostic`
unfoldable pub diagnostic : BookCode → OddsQuote → MarketBookDiagnostic
diagnostic code q = record {
  code = code;
  event_id = some q.event_id;
  market_id = some q.market_id;
  selection_id = some q.selection_id;
  provider_id = some q.provider_id;
  quote_id = some q.id;
}

-- The tests from the scope on.
unfoldable pub judge_scoped : Setting → OddsQuote → Verdict
unfolding allows is_active effective_timestamp
judge_scoped s q =
    if not (contains s.scope q.market_id)
    then out_of_scope
    else if not (allows s.policy q.provider_id)
    then refuse BookCode.provider_filtered
    else if not (is_active q.status)
    then refuse BookCode.inactive_quote
    else if ltb s.now q.ingested_at
    then refuse BookCode.future_ingestion
    else if ltb s.now (effective_timestamp q)
    then refuse BookCode.future_quote
    else if ltb (effective_timestamp q + s.freshness_window) s.now
    then refuse BookCode.stale_quote
    else eligible

-- The tests of the identities, once they are found.
unfoldable pub judge_linked : Setting → OddsQuote → Market → Selection → Verdict
unfolding judge_scoped
judge_linked s q m x =
    if not (nat_beq m.event_id q.event_id)
    then refuse BookCode.quote_event_mismatch
    else if not (nat_beq x.market_id q.market_id)
    then refuse BookCode.quote_selection_mismatch
    else judge_scoped s q

unfoldable pub judge : Setting → OddsQuote → Verdict
unfolding event market selection judge_linked
judge s q = elim (event s.registry q.event_id) [
  | none ↦ refuse BookCode.unknown_event
  | some _ ↦ elim (market s.registry q.market_id) [
    | none ↦ refuse BookCode.unknown_market
    | some m ↦ elim (selection s.registry q.selection_id) [
      | none ↦ refuse BookCode.unknown_selection
      | some x ↦ judge_linked s q m x
    ]
  ]
]

-- `quote.id in duplicate_ids`
unfoldable pub is_duplicate : List OddsQuote → OddsQuote → Bool
is_duplicate quotes q = ltb 1 (length (keep (λ x. nat_beq x.id q.id) quotes))

-- The eligible quotes in their order, and the diagnostics of the others.
pub record Screened : Type 0 where
  pub quotes : List OddsQuote
  pub diagnostics : List MarketBookDiagnostic

abbrev pub no_quotes : Screened
no_quotes = record { quotes = []; diagnostics = [] }

unfoldable pub settle : OddsQuote → Verdict → Screened → Screened
unfolding diagnostic
settle q eligible s = record s { quotes = s.quotes ++ q ∷ [] }
settle q out_of_scope s = s
settle q (refuse code) s = record s { diagnostics = s.diagnostics ++ diagnostic code q ∷ [] }

-- One round of the loop, with the duplicates that were reported before it.
abbrev pub Pass : Type 0
Pass = List ℕ × Screened

unfoldable pub screen_one : Setting → List OddsQuote → Pass → OddsQuote → Pass
unfolding is_duplicate judge settle diagnostic
screen_one setting all_quotes (reported, s) q =
    if is_duplicate all_quotes q
    then if contains reported q.id
      then (reported, s)
      else (q.id ∷ reported, settle q (refuse BookCode.duplicate_quote_id) s)
    else (reported, settle q (judge setting q) s)

unfoldable pub screen_all : Setting → List OddsQuote → Pass → List OddsQuote → Pass
unfolding screen_one
screen_all setting all_quotes p [] = p
screen_all setting all_quotes p (q ∷ qs) =
    screen_all setting all_quotes (screen_one setting all_quotes p q) qs

unfoldable pub screen : Setting → List OddsQuote → Screened
unfolding screen_all
screen setting quotes = (screen_all setting quotes ([], no_quotes) quotes).1
