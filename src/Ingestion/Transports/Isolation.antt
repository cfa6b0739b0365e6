-- ===== src/Ingestion/Transports/Isolation.antt =====
-- ingestion/multisource_state.py: each transport has a live quote store of its own.
use arbiscan_arbitrage_scann.Prelude.{
  ℕ, ◌≡◌, refl, sym, ap, subst, ◌∙◌, Bool, true, false, inl, inr, arith, Option, some, List, [],
  ◌∷◌, map, keep, contains, all_distinct, nat_eq, ◌==◌, ==→eq, or_else, All, if◌then◌else◌,
  Bool-cases,
}
use arbiscan_arbitrage_scann.Prelude.Dict.{lookup, lookup-insert}
use arbiscan_arbitrage_scann.Prelude.Sort.{sort_by, sort_by-All}
use arbiscan_arbitrage_scann.Prelude.Distinct.{all_distinct-sort_by, contains-sort_by}
use arbiscan_arbitrage_scann.Prelude.Grouped.{groups, groups-All, groups-distinct, groups-absent}
use arbiscan_arbitrage_scann.Domain.{OddsQuote, transport_id}
use arbiscan_arbitrage_scann.Ingestion.Quotes.{ApplyResult, LiveQuoteStore}
use arbiscan_arbitrage_scann.Ingestion.Store
use arbiscan_arbitrage_scann.Ingestion.Store.{no_result}
use arbiscan_arbitrage_scann.Ingestion.Transports.{
  MultiSourceStore, empty_store, apply_group, apply_groups, transport_groups, apply,
}

-- The live quote store of a transport: an empty one until its first quote.
abbrev pub store_of : MultiSourceStore → ℕ → LiveQuoteStore
store_of s t = or_else (lookup t s.stores) (empty_store s.policy)

apply-nil : (s : LiveQuoteStore) (observed : ℕ) → (Store.apply s [] observed).0 ≡ s
unfolding Store.apply
apply-nil s observed = refl

or_else-if :
    (b : Bool) (v d : LiveQuoteStore) (o : Option LiveQuoteStore)
    → or_else (if b then some v else o) d ≡ (if b then v else or_else o d)
or_else-if true v d o = refl
or_else-if false v d o = refl

if_true : (b : Bool) (x y : LiveQuoteStore) → b ≡ true → (if b then x else y) ≡ x
if_true b x y h = rw h refl

if_false : (b : Bool) (x y : LiveQuoteStore) → b ≡ false → (if b then x else y) ≡ y
if_false b x y h = rw h refl

apply_group-store_of :
    (observed : ℕ) (s : MultiSourceStore) (r : ApplyResult) (t j : ℕ) (quotes : List OddsQuote)
    → store_of (apply_group observed (s, r) (t, quotes)).0 j
      ≡ (if t == j then (Store.apply (store_of s t) quotes observed).0 else store_of s j)
unfolding apply_group
apply_group-store_of observed s r t j quotes =
    let store = (Store.apply (store_of s t) quotes observed).0 in
    ap (λ o. or_else o (empty_store s.policy)) (lookup-insert t j store s.stores)
    ∙ or_else-if (t == j) store (empty_store s.policy) (lookup j s.stores)

apply_groups-absent :
    (observed : ℕ) (s : MultiSourceStore) (r : ApplyResult) (j : ℕ) (gs : List (ℕ × List OddsQuote))
    → contains (map (λ g. g.0) gs) j ≡ false
    → store_of (apply_groups observed (s, r) gs).0 j ≡ store_of s j
unfolding apply_groups
apply_groups-absent observed s r j [] h = refl
apply_groups-absent observed s r j ((t, quotes) ∷ gs) h =
    let (s', r') = apply_group observed (s, r) (t, quotes) in
    apply_groups-absent observed s' r' j gs (ground arith)
    ∙ apply_group-store_of observed s r t j quotes
    ∙ if_false (t == j) (Store.apply (store_of s t) quotes observed).0 (store_of s j) (ground arith)

abbrev IsGroup : List OddsQuote → ℕ × List OddsQuote → Type 0
IsGroup quotes g = g.1 ≡ keep (λ q. transport_id q == g.0) quotes

apply_groups-present :
    (observed : ℕ) (s : MultiSourceStore) (r : ApplyResult) (j : ℕ) (quotes : List OddsQuote)
    (gs : List (ℕ × List OddsQuote))
    → All (IsGroup quotes) gs
    → all_distinct (map (λ g. g.0) gs) ≡ true
    → contains (map (λ g. g.0) gs) j ≡ true
    → store_of (apply_groups observed (s, r) gs).0 j
      ≡ (Store.apply (store_of s j) (keep (λ q. transport_id q == j) quotes) observed).0
unfolding apply_groups
apply_groups-present observed s r j quotes [] groups distinct h = absurd (ground arith)
apply_groups-present observed s r j quotes ((t, qs) ∷ gs) groups distinct h =
    let (s', r') = apply_group observed (s, r) (t, qs) in
    let new = (Store.apply (store_of s t) qs observed).0 in
    elim (Bool-cases (t == j)) [
      | inl e ↦
          let same = ==→eq t j e in
          apply_groups-absent observed s' r' j gs
            (subst (λ k. contains (map (λ g. g.0) gs) k ≡ false) same (ground arith))
          ∙ apply_group-store_of observed s r t j qs
          ∙ if_true (t == j) new (store_of s j) e
          ∙ ap (λ vs. (Store.apply (store_of s t) vs observed).0) groups.0
          ∙ ap
              (λ k.
                (Store.apply (store_of s k) (keep (λ q. transport_id q == k) quotes) observed).0)
              same
      | inr e ↦
          apply_groups-present observed s' r' j quotes gs groups.1 (ground arith) (ground arith)
          ∙ ap (λ st. (Store.apply st (keep (λ q. transport_id q == j) quotes) observed).0)
              (apply_group-store_of observed s r t j qs ∙ if_false (t == j) new (store_of s j) e)
    ]

-- Transports are isolated: after `apply`, the store of each transport is the one that
-- `LiveQuoteStore.apply` makes of its store before and of its own quotes alone, in their order.
-- A transport without a quote keeps its store.
pub apply-store_of :
    (s : MultiSourceStore) (quotes : List OddsQuote) (observed t : ℕ)
    → store_of (apply s quotes observed).0 t
      ≡ (Store.apply (store_of s t) (keep (λ q. transport_id q == t) quotes) observed).0
unfolding apply transport_groups
apply-store_of s quotes observed t =
    let gs = sort_by (λ g. g.0 ∷ []) (groups transport_id quotes) in
    let at = λ (g : ℕ × List OddsQuote). g.0 in
    elim (Bool-cases (contains (map at gs) t)) [
      | inl e ↦
          apply_groups-present observed s no_result t quotes gs
            (sort_by-All (λ g. g.0 ∷ []) (IsGroup quotes) (groups transport_id quotes)
              (groups-All transport_id quotes))
            (all_distinct-sort_by at (λ g. g.0 ∷ []) (groups transport_id quotes)
              (groups-distinct transport_id quotes))
            e
      | inr e ↦
          apply_groups-absent observed s no_result t gs e
          ∙ sym (
              ap (λ vs. (Store.apply (store_of s t) vs observed).0)
                (groups-absent transport_id quotes t
                  (sym (contains-sort_by at (λ g. g.0 ∷ []) (groups transport_id quotes) t) ∙ e))
              ∙ apply-nil (store_of s t) observed)
    ]
