-- ===== src/Ingestion/Store/Revisions.antt =====
-- ingestion/realtime.py: how `LiveQuoteStore.apply` replaces the version under a key.
use arbiscan_arbitrage_scann.Prelude.{
  ℕ, ◌+◌, ◌≤◌, ◌<◌, ◌≡◌, ◌⊎◌, refl, subst, inl, inr, none, some, List, [], ◌∷◌, ◌∙◌, arith, Option,
  Bool-cases, ◌==◌, ==→eq,
}
use mathlib.Core.Option.{some-injective}
use arbiscan_arbitrage_scann.Prelude.Dict.{Dict, lookup, insert, lookup-insert}
use arbiscan_arbitrage_scann.Prelude.Sort.{sort_by}
use arbiscan_arbitrage_scann.Domain.{OddsQuote, effective_timestamp}
use arbiscan_arbitrage_scann.Ingestion.Quotes.{
  QuoteKey, quote_key, quote_key_eq, QuoteVersion, LiveQuoteStore,
}
use arbiscan_arbitrage_scann.Ingestion.Store.{
  Verdict, reject, repeat, add, update, judge, judge_against, Progress, settle, apply_one,
  apply_all, apply, store_sort_key, no_result, version_of,
}

-- What may take the place of a version: itself, or a later revision of the same key.
abbrev pub Supersedes : QuoteVersion → QuoteVersion → Type 0
Supersedes v v' = (v' ≡ v) ⊎ (v.revision < v'.revision)

Supersedes-trans : (a b c : QuoteVersion) → Supersedes a b → Supersedes b c → Supersedes a c
Supersedes-trans a b c (inl e) r = subst (λ x. Supersedes x c) e r
Supersedes-trans a b c (inr h) (inl e) = inr (rw e h)
Supersedes-trans a b c (inr h) (inr k) = inr (omega arith)

-- The version under a key after one verdict.
Rises : Option QuoteVersion → Verdict → Type 0
Rises none v = Unit
Rises (some w) (update revision) = w.revision < revision
Rises (some w) add = ⊥
Rises (some w) _ = Unit

judge-Rises :
    (tolerance observed : ℕ) (current : Option QuoteVersion) (q : OddsQuote)
    → Rises current (judge tolerance observed current q)
unfolding judge Rises
judge-Rises tolerance observed none q = tt
judge-Rises tolerance observed (some current) q = ground arith

Keeps : (d d' : Dict QuoteKey QuoteVersion) → Type 0
Keeps d d' =
    (k : QuoteKey) (v : QuoteVersion)
    → lookup k d ≡ some v
    → (v' : QuoteVersion) × (lookup k d' ≡ some v') × Supersedes v v'

insert-Keeps :
    (key : QuoteKey) (new : QuoteVersion) (d : Dict QuoteKey QuoteVersion)
    → ((w : QuoteVersion) → lookup key d ≡ some w → w.revision < new.revision)
    → Keeps d (insert key new d)
unfolding Keeps
insert-Keeps key new d rises k v found = elim (Bool-cases (key == k)) [
  | inl same ↦
      (new, lookup-insert key k new d ∙ rw same refl, inr (rises v (rw (==→eq key k same) found)))
  | inr other ↦ (v, lookup-insert key k new d ∙ rw other found, inl refl)
]

Rises-at :
    (current : Option QuoteVersion) (revision : ℕ) (w : QuoteVersion)
    → Rises current (update revision)
    → current ≡ some w
    → w.revision < revision
unfolding Rises
Rises-at none revision w r e = cc
Rises-at (some u) revision w r e = subst (λ x. x.revision < revision) (some-injective u w e) r

Rises-add :
    (current : Option QuoteVersion) (w : QuoteVersion) → Rises current add → current ≡ some w → ⊥
unfolding Rises
Rises-add none w r e = cc
Rises-add (some u) w r e = r

settle-Keeps :
    (observed : ℕ) (q : OddsQuote) (v : Verdict) (p : Progress)
    → Rises (lookup (quote_key q) p.0) v
    → Keeps p.0 (settle observed q v p).0
unfolding settle
settle-Keeps observed q (reject code) p r = unfold Keeps in λ k v found. (v, found, inl refl)
settle-Keeps observed q repeat p r = unfold Keeps in λ k v found. (v, found, inl refl)
settle-Keeps observed q add p r =
    insert-Keeps (quote_key q) _ p.0 (λ w found. absurd (Rises-add _ w r found))
settle-Keeps observed q (update revision) p r =
    insert-Keeps (quote_key q) _ p.0 (λ w found. Rises-at _ revision w r found)

apply_all-Keeps :
    (tolerance observed : ℕ) (qs : List OddsQuote) (p : Progress)
    → Keeps p.0 (apply_all tolerance observed p qs).0
unfolding apply_all apply_one Keeps
apply_all-Keeps tolerance observed [] p k v found = (v, found, inl refl)
apply_all-Keeps tolerance observed (q ∷ qs) p k v found =
    let known = lookup (quote_key q) p.0 in
    let (v', found', s) =
      settle-Keeps observed q (judge tolerance observed known q) _
        (judge-Rises tolerance observed known q) k v found in
    let (v'', found'', s') = apply_all-Keeps tolerance observed qs _ k v' found' in
    (v'', found'', Supersedes-trans v v' v'' s s')

-- No key of the store is lost by `apply`: it keeps its version, or gets one of a higher revision.
pub apply-keeps_keys :
    (s : LiveQuoteStore) (quotes : List OddsQuote) (observed : ℕ) (k : QuoteKey) (v : QuoteVersion)
    → lookup k s.current ≡ some v
    → (v' : QuoteVersion) × (lookup k (apply s quotes observed).0.current ≡ some v')
      × ((v' ≡ v) ⊎ (v.revision < v'.revision))
unfolding apply Keeps
apply-keeps_keys s quotes observed k v found =
    apply_all-Keeps s.policy.clock_skew_tolerance observed (sort_by store_sort_key quotes)
      (s.current, no_result) k v found

-- How a version replaces another under its key.
pub record IsUpdate (tolerance : ℕ) (v v' : QuoteVersion) : Type 0 where
  pub next : v'.revision ≡ v.revision + 1
  pub back_le : effective_timestamp v.quote ≤ effective_timestamp v'.quote + tolerance
  pub newer :
      (effective_timestamp v.quote ≤ effective_timestamp v'.quote)
      ⊎ (v.quote.ingested_at < v'.quote.ingested_at)

judge_against-IsUpdate :
    (tolerance observed revision : ℕ) (w : QuoteVersion) (q : OddsQuote)
    → judge_against tolerance w q ≡ update revision
    → IsUpdate tolerance w (version_of observed revision q)
unfolding judge_against
judge_against-IsUpdate tolerance observed revision w q e = record {
  next = ground arith;
  back_le = ground arith;
  newer = ground arith;
}

judge-eq-update :
    (tolerance observed revision : ℕ) (w : QuoteVersion) (q : OddsQuote)
    → judge tolerance observed (some w) q ≡ update revision
    → judge_against tolerance w q ≡ update revision
unfolding judge
judge-eq-update tolerance observed revision w q e = ground arith

judge-ne-add :
    (tolerance observed : ℕ) (w : QuoteVersion) (q : OddsQuote)
    → judge tolerance observed (some w) q ≡ add
    → ⊥
unfolding judge
judge-ne-add tolerance observed w q e = ground arith

abbrev pub Effect : ℕ → QuoteVersion → OddsQuote → (d d' : Dict QuoteKey QuoteVersion) → Type 0
Effect tolerance w q d d' =
    (d' ≡ d)
    ⊎ ((v' : QuoteVersion) × (d' ≡ insert (quote_key q) v' d)
        × (v'.quote ≡ q)
        × IsUpdate tolerance w v')

settle-Effect :
    (tolerance observed : ℕ) (w : QuoteVersion) (q : OddsQuote) (v : Verdict) (p : Progress)
    → judge tolerance observed (some w) q ≡ v
    → Effect tolerance w q p.0 (settle observed q v p).0
unfolding settle
settle-Effect tolerance observed w q (reject code) p e = inl refl
settle-Effect tolerance observed w q repeat p e = inl refl
settle-Effect tolerance observed w q add p e = absurd (judge-ne-add tolerance observed w q e)
settle-Effect tolerance observed w q (update revision) p e = inr (
  version_of observed revision q,
  refl,
  refl,
  judge_against-IsUpdate tolerance observed revision w q
      (judge-eq-update tolerance observed revision w q e),
)

-- One round of `apply` on a quote whose key holds the version `w`: either the store is as before, or
-- the version under that key becomes one of the quote, of the next revision, that lies back in time
-- by no more than the clock-skew tolerance, and that was ingested later if it lies back at all.
pub apply_one_effect :
    (tolerance observed : ℕ) (w : QuoteVersion) (q : OddsQuote) (p : Progress)
    → lookup (quote_key q) p.0 ≡ some w
    → (((apply_one tolerance observed p q).0 ≡ p.0)
        ⊎ ((v' : QuoteVersion) × ((apply_one tolerance observed p q).0
              ≡ insert (quote_key q) v' p.0)
            × (v'.quote ≡ q)
            × IsUpdate tolerance w v'))
unfolding apply_one
apply_one_effect tolerance observed w q p found =
    rw found (settle-Effect tolerance observed w q (judge tolerance observed (some w) q) _ refl)
