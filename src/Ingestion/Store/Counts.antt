-- ===== src/Ingestion/Store/Counts.antt =====
-- ingestion/realtime.py: what the counts of `LiveQuoteStore.apply` add up to.
use arbiscan_arbitrage_scann.Prelude.{
  ℕ, ◌+◌, ◌≡◌, refl, none, some, List, [], ◌∷◌, ◌++◌, length, length-append, arith, Option,
}
use arbiscan_arbitrage_scann.Prelude.Dict.{lookup, length-insert_new, length-insert_known}
use arbiscan_arbitrage_scann.Prelude.Sort.{sort_by, length-sort_by}
use arbiscan_arbitrage_scann.Domain.{OddsQuote}
use arbiscan_arbitrage_scann.Ingestion.Quotes.{
  quote_key, quote_key_eq, QuoteVersion, ApplyResult, LiveQuoteStore,
}
use arbiscan_arbitrage_scann.Ingestion.Store.{
  Verdict, reject, repeat, add, update, judge, Progress, settle, apply_one, apply_all, apply,
  store_sort_key, no_result, version_of, skew_diagnostics,
}

abbrev pub counted : ApplyResult → ℕ
counted r = r.added_count + r.updated_count + r.duplicate_count + r.rejected_count

-- After `n` quotes, beginning with a store of `size` keys.
pub record Balances (size n : ℕ) (p : Progress) : Type 0 where
  pub total : counted p.1 ≡ n
  pub versions : length p.1.accepted ≡ p.1.added_count + p.1.updated_count
  pub keys : length p.0 ≡ size + p.1.added_count

-- A verdict fits the version that was looked up.
abbrev Fits : Option QuoteVersion → Verdict → Type 0
Fits none (update _) = ⊥
Fits (some _) add = ⊥
Fits _ _ = Unit {0}

judge-Fits :
    (tolerance observed : ℕ) (current : Option QuoteVersion) (q : OddsQuote)
    → Fits current (judge tolerance observed current q)
unfolding judge
judge-Fits tolerance observed none q = ground arith
judge-Fits tolerance observed (some current) q = ground arith

Fits-add : (o : Option QuoteVersion) → Fits o add → o ≡ none
Fits-add none f = refl
Fits-add (some w) f = absurd f

Fits-update :
    (o : Option QuoteVersion) (revision : ℕ)
    → Fits o (update revision)
    → (w : QuoteVersion) × (o ≡ some w)
Fits-update none revision f = absurd f
Fits-update (some w) revision f = (w, refl)

settle-Balances :
    (observed size n : ℕ) (q : OddsQuote) (v : Verdict) (p : Progress)
    → Fits (lookup (quote_key q) p.0) v
    → Balances size n p
    → Balances size (n + 1) (settle observed q v p)
unfolding settle
settle-Balances observed size n q (reject code) p f b = omega arith
settle-Balances observed size n q repeat p f b = omega arith
settle-Balances observed size n q add p f b =
    let v : QuoteVersion = version_of observed 1 q in
    omega (
      arith,
      length-append p.1.accepted (v ∷ []),
      length-insert_new (quote_key q) v p.0 (Fits-add _ f),
    )
settle-Balances observed size n q (update revision) p f b =
    let v : QuoteVersion = version_of observed revision q in
    let known = Fits-update (lookup (quote_key q) p.0) revision f in
    omega (
      arith,
      length-append p.1.accepted (v ∷ []),
      length-insert_known (quote_key q) v known.0 p.0 known.1,
    )

apply_all-Balances :
    (tolerance observed size n : ℕ) (qs : List OddsQuote) (p : Progress)
    → Balances size n p
    → Balances size (n + length qs) (apply_all tolerance observed p qs)
unfolding apply_all apply_one
apply_all-Balances tolerance observed size n [] p b = omega arith
apply_all-Balances tolerance observed size n (q ∷ qs) p b =
    let known = lookup (quote_key q) p.0 in
    let step =
      settle-Balances observed size n q (judge tolerance observed known q)
        (p.0, record p.1 { diagnostics = p.1.diagnostics ++ skew_diagnostics tolerance observed q })
        (judge-Fits tolerance observed known q)
        (record { total = b.total; versions = b.versions; keys = b.keys }) in
    omega (
      arith,
      apply_all-Balances tolerance observed size (n + 1) qs (apply_one tolerance observed p q) step,
    )

-- Every quote of a batch is counted exactly once, as added, updated, duplicate or rejected; the
-- accepted versions are as many as the added and the updated; and the store grows by the added.
pub apply_counts :
    (s : LiveQuoteStore) (quotes : List OddsQuote) (observed : ℕ)
    → let (s', r) = apply s quotes observed in
      (r.added_count + r.updated_count + r.duplicate_count + r.rejected_count ≡ length quotes)
      × (length r.accepted ≡ r.added_count + r.updated_count)
      × (length s'.current ≡ length s.current + r.added_count)
unfolding apply
apply_counts s quotes observed =
    let tolerance = s.policy.clock_skew_tolerance in
    let sorted = sort_by store_sort_key quotes in
    let b =
      apply_all-Balances tolerance observed (length s.current) 0 sorted (s.current, no_result)
        (omega arith) in
    (omega (arith, length-sort_by store_sort_key quotes), b.versions, b.keys)
