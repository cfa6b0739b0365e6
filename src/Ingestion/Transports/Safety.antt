-- ===== src/Ingestion/Transports/Safety.antt =====
-- ingestion/multisource_state.py: what `fresh_quotes` lets into the market books.
use arbiscan_arbitrage_scann.Prelude.{
  ℕ, ◌≤◌, ◌≡◌, refl, sym, Bool, true, false, not, inl, inr, List, [], ◌∷◌, map, keep, contains, All,
  All-map, All-map_both, All-append, All-In, keep-All, Bool-cases,
}
use arbiscan_arbitrage_scann.Prelude.Dict.{Dict}
use arbiscan_arbitrage_scann.Prelude.Sort.{sort_by, sort_by-All}
use arbiscan_arbitrage_scann.Domain.{OddsQuote, effective_timestamp, QuoteStatus}
use arbiscan_arbitrage_scann.Ingestion.Quotes.{QuoteVersion, LiveQuoteStore, quote_key_eq}
use arbiscan_arbitrage_scann.Ingestion.Reading
use arbiscan_arbitrage_scann.Ingestion.Reading.Eviction.{fresh_versions_exact}
use arbiscan_arbitrage_scann.Ingestion.Consolidation.{consolidate_quotes}
use arbiscan_arbitrage_scann.Ingestion.Consolidation.Laws.{
  IsSelection, consolidate_quotes-IsSelection,
}
use arbiscan_arbitrage_scann.Ingestion.Transports.{
  MultiSourceStore, observation_key, observation_key_eq, version_sort_key, all_fresh,
  fresh_versions, fresh_observations, consolidate, fresh_quotes,
}

-- An executable quote: it stands in a version that the policy of its store allows, no caller has
-- invalidated its observation, and it wins against every observation of its slot.
pub record IsExecutable (s : MultiSourceStore) (moment : ℕ) (q : OddsQuote) : Type 0 where
  pub active : q.status ≡ QuoteStatus.active
  pub ingested : q.ingested_at ≤ moment
  pub not_future : effective_timestamp q ≤ moment
  pub valid : contains s.invalidated (observation_key q) ≡ false
  pub stands : IsSelection (fresh_observations s moment) q

-- The same of any observation.
abbrev IsObservation : MultiSourceStore → ℕ → OddsQuote → Type 0
IsObservation s moment q =
    (q.status ≡ QuoteStatus.active)
    × (q.ingested_at ≤ moment)
    × (effective_timestamp q ≤ moment)
    × (contains s.invalidated (observation_key q) ≡ false)

abbrev IsTimely : ℕ → QuoteVersion → Type 0
IsTimely moment v =
    (v.quote.status ≡ QuoteStatus.active)
    × (v.quote.ingested_at ≤ moment)
    × (effective_timestamp v.quote ≤ moment)

all_fresh-All :
    (moment : ℕ) (d : Dict ℕ LiveQuoteStore) → All (IsTimely moment) (all_fresh moment d)
unfolding all_fresh
all_fresh-All moment [] = tt
all_fresh-All moment (p ∷ d) =
    let (_, _, fresh, _) = fresh_versions_exact p.1 moment in
    All-append (IsTimely moment) (Reading.fresh_versions p.1 moment) (all_fresh moment d)
      (All-map _ _ (λ v a. (a.active, a.ingested, a.not_future)) (Reading.fresh_versions p.1 moment)
        fresh)
      (all_fresh-All moment d)

keep-All_of :
    (P : QuoteVersion → Type 0) (p : QuoteVersion → Bool) (vs : List QuoteVersion)
    → All P vs
    → All P (keep p vs)
keep-All_of P p [] h = tt
keep-All_of P p (v ∷ vs) h = elim (Bool-cases (p v)) [
  | inl e ↦ rw e (h.0, keep-All_of P p vs h.1)
  | inr e ↦ rw e (keep-All_of P p vs h.1)
]

map-All :
    (P : OddsQuote → Type 0) (vs : List QuoteVersion)
    → All (λ v. P v.quote) vs
    → All P (map (λ v. v.quote) vs)
map-All P [] h = tt
map-All P (v ∷ vs) h = (h.0, map-All P vs h.1)

not-true : (b : Bool) → not b ≡ true → b ≡ false
not-true true h = sym h
not-true false h = refl

fresh_observations-All :
    (s : MultiSourceStore) (moment : ℕ) → All (IsObservation s moment) (fresh_observations s moment)
unfolding fresh_observations fresh_versions
fresh_observations-All s moment =
    let valid : QuoteVersion → Bool = λ v. not (contains s.invalidated (observation_key v.quote)) in
    let vs = all_fresh moment s.stores in
    map-All (IsObservation s moment) (sort_by version_sort_key (keep valid vs)) (
      sort_by-All version_sort_key _ (keep valid vs) (
        All-map_both _ _ _
          (λ v t h. (t.0, t.1, t.2, not-true (contains s.invalidated (observation_key v.quote)) h))
          (keep valid vs) (keep-All_of (IsTimely moment) valid vs (all_fresh-All moment s.stores))
          (keep-All valid vs)))

-- Every quote that `fresh_quotes` returns is executable: it is active, ingested and not in the future,
-- its observation is not invalidated, it is one of the fresh observations, and no other one of its
-- slot is newer, nor of the same time with another price or status.
pub fresh_quotes-IsExecutable :
    (s : MultiSourceStore) (moment : ℕ) → All (IsExecutable s moment) (fresh_quotes s moment).1
unfolding fresh_quotes consolidate
fresh_quotes-IsExecutable s moment =
    let observations = fresh_observations s moment in
    All-map _ _
      (λ q selected.
        let (active, ingested, past, valid) =
          All-In (IsObservation s moment) q observations (fresh_observations-All s moment)
            selected.0 in
        record {
          active = active;
          ingested = ingested;
          not_future = past;
          valid = valid;
          stands = selected;
        })
      (consolidate_quotes observations).quotes (consolidate_quotes-IsSelection observations)
