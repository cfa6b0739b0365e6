-- ===== src/MarketBook/Builder/Eligible.antt =====
-- marketbook/builder.py: which quotes may compete for the best price.
use arbiscan_arbitrage_scann.Prelude.{
  ◌+◌, ◌≤◌, ◌≡◌, ◌↔◌, refl, ap, sym, arith, ◌∙◌, Bool, true, not, ◌&&◌, some, List, [], ◌∷◌, ◌++◌,
  keep, contains, nat_eq, Option-cases, inl, inr, Bool-cases, if◌then◌else◌,
}
use mathlib.Core.List.{append_assoc, append-nil}
use arbiscan_arbitrage_scann.Prelude.Groups.{keep-cons}
use arbiscan_arbitrage_scann.Domain.{OddsQuote, QuoteStatus, effective_timestamp}
use arbiscan_arbitrage_scann.Domain.Entities
use arbiscan_arbitrage_scann.Matching.Registry.{event, market, selection}
use arbiscan_arbitrage_scann.MarketBook.Books.{BookCode, allows}
use arbiscan_arbitrage_scann.MarketBook.Builder.Quotes.{
  Setting, Verdict, eligible, out_of_scope, refuse, is_verdict_eligible, judge, judge_linked,
  is_duplicate, Screened, Pass, settle, screen_one, screen_all, screen, no_quotes,
}

-- A quote of known and matching identities, that is in scope, allowed, active and fresh.
pub record IsEligible (s : Setting) (q : OddsQuote) : Type 0 where
  pub of_event : Entities.Event
  pub of_market : Entities.Market
  pub of_selection : Entities.Selection
  pub known_event : event s.registry q.event_id ≡ some of_event
  pub known_market : market s.registry q.market_id ≡ some of_market
  pub known_selection : selection s.registry q.selection_id ≡ some of_selection
  pub linked_event : of_market.event_id ≡ q.event_id
  pub linked_market : of_selection.market_id ≡ q.market_id
  pub in_scope : contains s.scope q.market_id ≡ true
  pub allowed : allows s.policy q.provider_id ≡ true
  pub active : q.status ≡ QuoteStatus.active
  pub ingested : q.ingested_at ≤ s.now
  pub not_future : effective_timestamp q ≤ s.now
  pub in_window : s.now ≤ effective_timestamp q + s.freshness_window

judge_linked-IsEligible :
    (s : Setting) (q : OddsQuote) (e : Entities.Event) (m : Entities.Market)
    (x : Entities.Selection)
    → event s.registry q.event_id ≡ some e
    → market s.registry q.market_id ≡ some m
    → selection s.registry q.selection_id ≡ some x
    → judge_linked s q m x ≡ eligible
    → IsEligible s q
unfolding judge_linked
judge_linked-IsEligible s q e m x he hm hx h = record {
  of_event = e;
  of_market = m;
  of_selection = x;
  known_event = he;
  known_market = hm;
  known_selection = hx;
  linked_event = ground arith;
  linked_market = ground arith;
  in_scope = ground arith;
  allowed = ground arith;
  active = ground arith;
  ingested = ground arith;
  not_future = ground arith;
  in_window = ground arith;
}

judge-IsEligible : (s : Setting) (q : OddsQuote) → judge s q ≡ eligible → IsEligible s q
unfolding judge
judge-IsEligible s q h = elim (Option-cases (event s.registry q.event_id)) [
  | inl n ↦ absurd (ground arith)
  | inr (e, he) ↦ elim (Option-cases (market s.registry q.market_id)) [
    | inl n ↦ absurd (ground arith)
    | inr (m, hm) ↦ elim (Option-cases (selection s.registry q.selection_id)) [
      | inl n ↦ absurd (ground arith)
      | inr (x, hx) ↦ judge_linked-IsEligible s q e m x he hm hx (ground arith)
    ]
  ]
]

IsEligible-judge : (s : Setting) (q : OddsQuote) → IsEligible s q → judge s q ≡ eligible
unfolding judge
IsEligible-judge s q h =
    let linked_event = h.linked_event in
    let linked_market = h.linked_market in
    let active = h.active in
    let allowed = h.allowed in
    let in_scope = h.in_scope in
    let ingested = h.ingested in
    let not_future = h.not_future in
    let in_window = h.in_window in
    let known_event = h.known_event in
    let known_market = h.known_market in let known_selection = h.known_selection in ground arith

-- `build_market_books` lets a quote compete if and only if its event, market and selection are known
-- and belong together, its market is in scope, its provider is allowed, and it is active, ingested,
-- not in the future and no older than the freshness window.
pub judge-iff_eligible : (s : Setting) (q : OddsQuote) → (judge s q ≡ eligible) ↔ IsEligible s q
judge-iff_eligible s q = (judge-IsEligible s q, IsEligible-judge s q)

-- The quotes that the loop keeps.
abbrev pub is_kept : Setting → List OddsQuote → OddsQuote → Bool
is_kept s all_quotes q = not (is_duplicate all_quotes q) && is_verdict_eligible (judge s q)

settle-quotes :
    (q : OddsQuote) (v : Verdict) (p : Screened)
    → (settle q v p).quotes ≡ p.quotes ++ (if is_verdict_eligible v then q ∷ [] else [])
unfolding settle
settle-quotes q eligible p = refl
settle-quotes q out_of_scope p = sym (append-nil p.quotes)
settle-quotes q (refuse code) p = sym (append-nil p.quotes)

screen_one-quotes :
    (s : Setting) (all_quotes : List OddsQuote) (p : Pass) (q : OddsQuote)
    → (screen_one s all_quotes p q).1.quotes ≡ p.1.quotes ++ keep (is_kept s all_quotes) (q ∷ [])
unfolding screen_one
screen_one-quotes s all_quotes p q = elim (Bool-cases (is_duplicate all_quotes q)) [
  | inl e ↦
      rw (e, append-nil p.1.quotes)
        (elim (Bool-cases (contains p.0 q.id)) [
          | inl k ↦ rw k refl
          | inr k ↦
              rw k
                (settle-quotes q (refuse BookCode.duplicate_quote_id) p.1 ∙ append-nil p.1.quotes)
        ])
  | inr e ↦ rw e (settle-quotes q (judge s q) p.1)
]

screen_all-quotes :
    (s : Setting) (all_quotes : List OddsQuote) (p : Pass) (qs : List OddsQuote)
    → (screen_all s all_quotes p qs).1.quotes ≡ p.1.quotes ++ keep (is_kept s all_quotes) qs
unfolding screen_all
screen_all-quotes s all_quotes p [] = sym (append-nil p.1.quotes)
screen_all-quotes s all_quotes p (q ∷ qs) =
    screen_all-quotes s all_quotes (screen_one s all_quotes p q) qs
    ∙ ap (λ t. t ++ keep (is_kept s all_quotes) qs) (screen_one-quotes s all_quotes p q)
    ∙ append_assoc p.1.quotes (keep (is_kept s all_quotes) (q ∷ []))
        (keep (is_kept s all_quotes) qs)
    ∙ ap (λ t. p.1.quotes ++ t) (keep-cons (is_kept s all_quotes) q qs)

-- The quotes that compete are, in the order given, those that are eligible and whose identifier occurs
-- once among the given ones.
pub screen-eq-keep :
    (s : Setting) (quotes : List OddsQuote)
    → (screen s quotes).quotes ≡ keep (is_kept s quotes) quotes
unfolding screen
screen-eq-keep s quotes = screen_all-quotes s quotes ([], no_quotes) quotes
