-- ===== src/Ingestion/Store/Invariant.antt =====
-- ingestion/realtime.py: what stays true of `LiveQuoteStore._current` under `apply`.
use arbiscan_arbitrage_scann.Prelude.{
  ℕ, ◌+◌, ◌≤◌, ◌≡◌, refl, none, some, List, [], ◌∷◌, arith, Option, All,
}
use arbiscan_arbitrage_scann.Prelude.Dict.{
  Dict, lookup, HasDistinctKeys, insert-HasDistinctKeys, insert-All,
}
use arbiscan_arbitrage_scann.Prelude.Sort.{sort_by}
use arbiscan_arbitrage_scann.Domain.{OddsQuote, effective_timestamp}
use arbiscan_arbitrage_scann.Ingestion.Quotes.{
  QuoteKey, quote_key, quote_key_eq, QuoteVersion, LiveQuoteStore,
}
use arbiscan_arbitrage_scann.Ingestion.Store.{
  Verdict, reject, repeat, add, update, judge, Progress, settle, apply_one, apply_all, apply,
  store_sort_key, no_result,
}

-- A version stands under the key of its quote, and was not ahead of the clock when it was stored.
pub record IsEntry (tolerance : ℕ) (p : QuoteKey × QuoteVersion) : Type 0 where
  pub keyed : p.1.key ≡ p.0
  pub of_quote : quote_key p.1.quote ≡ p.0
  pub positive : 1 ≤ p.1.revision
  pub ingested : p.1.quote.ingested_at ≤ p.1.observed_at
  pub not_ahead : effective_timestamp p.1.quote ≤ p.1.observed_at + tolerance

pub record IsValidStore (tolerance : ℕ) (d : Dict QuoteKey QuoteVersion) : Type 0 where
  pub distinct : HasDistinctKeys d
  pub entries : All (IsEntry tolerance) d

abbrev Admits : ℕ → ℕ → OddsQuote → Verdict → Type 0
Admits tolerance observed q add =
    (q.ingested_at ≤ observed) × (effective_timestamp q ≤ observed + tolerance)
Admits tolerance observed q (update revision) =
    (q.ingested_at ≤ observed) × (effective_timestamp q ≤ observed + tolerance) × (1 ≤ revision)
Admits tolerance observed q _ = Unit {0}

judge-Admits :
    (tolerance observed : ℕ) (current : Option QuoteVersion) (q : OddsQuote)
    → Admits tolerance observed q (judge tolerance observed current q)
unfolding judge
judge-Admits tolerance observed none q = ground arith
judge-Admits tolerance observed (some current) q = ground arith

settle-IsValidStore :
    (tolerance observed : ℕ) (q : OddsQuote) (v : Verdict) (p : Progress)
    → Admits tolerance observed q v
    → IsValidStore tolerance p.0
    → IsValidStore tolerance (settle observed q v p).0
unfolding settle
settle-IsValidStore tolerance observed q (reject code) p a h = h
settle-IsValidStore tolerance observed q repeat p a h = h
settle-IsValidStore tolerance observed q add p a h = record {
  distinct = insert-HasDistinctKeys _ _ p.0 h.distinct;
  entries =
      insert-All (IsEntry tolerance) _ _ p.0
        (record {
          keyed = refl;
          of_quote = refl;
          positive = omega arith;
          ingested = a.0;
          not_ahead = a.1;
        })
        h.entries;
}
settle-IsValidStore tolerance observed q (update revision) p a h = record {
  distinct = insert-HasDistinctKeys _ _ p.0 h.distinct;
  entries =
      insert-All (IsEntry tolerance) _ _ p.0
        (record { keyed = refl; of_quote = refl; positive = a.2; ingested = a.0; not_ahead = a.1 })
        h.entries;
}

apply_all-IsValidStore :
    (tolerance observed : ℕ) (qs : List OddsQuote) (p : Progress)
    → IsValidStore tolerance p.0
    → IsValidStore tolerance (apply_all tolerance observed p qs).0
unfolding apply_all apply_one
apply_all-IsValidStore tolerance observed [] p h = h
apply_all-IsValidStore tolerance observed (q ∷ qs) p h =
    let known = lookup (quote_key q) p.0 in
    apply_all-IsValidStore tolerance observed qs (apply_one tolerance observed p q) (
      settle-IsValidStore tolerance observed q (judge tolerance observed known q) _
        (judge-Admits tolerance observed known q) h)

-- `apply` keeps the invariant of the store: keys are distinct, each version stands under the key of
-- its quote with a revision of at least 1, was ingested no later than it was observed, and its
-- effective time is ahead of that by no more than the clock-skew tolerance.
pub apply-IsValidStore :
    (s : LiveQuoteStore) (quotes : List OddsQuote) (observed : ℕ)
    → IsValidStore s.policy.clock_skew_tolerance s.current
    → IsValidStore s.policy.clock_skew_tolerance (apply s quotes observed).0.current
unfolding apply
apply-IsValidStore s quotes observed h =
    apply_all-IsValidStore s.policy.clock_skew_tolerance observed (sort_by store_sort_key quotes)
      (s.current, no_result) h
