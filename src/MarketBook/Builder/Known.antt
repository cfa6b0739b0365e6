-- ===== src/MarketBook/Builder/Known.antt =====
-- matching/catalog.py and marketbook/builder.py: what a valid registry and a scope of it guarantee.
use arbiscan_arbitrage_scann.Prelude.{
  is_none, ℕ, ◌≡◌, inl, inr, refl, sym, subst, arith, Bool, true, false, Option, none, some, List,
  [], ◌∷◌, map, any, any-All, keep, nat_beq, nat_eq, list_eq, All, All-map, Option-cases,
  checked-eq-some, all_distinct,
}
use mathlib.Core.Option.{some-injective}
use arbiscan_arbitrage_scann.Prelude.Sort.{sort_by, sort_by-All}
use arbiscan_arbitrage_scann.Prelude.Groups.{
  IsCongruent, group_at, group_at-group_into, index_get-key, index_get-All, index_get-known,
  contains_self,
}
use arbiscan_arbitrage_scann.Prelude.Distinct.{all_distinct-keep, all_distinct-sort_by, map_same}
use arbiscan_arbitrage_scann.Domain.Entities
use arbiscan_arbitrage_scann.Domain.Entities.{is_scheduled}
use arbiscan_arbitrage_scann.Matching.Registry.{
  CanonicalRegistry, event, market, selection_ids_for_market,
}
use arbiscan_arbitrage_scann.Matching.Registry.Checks.{
  validate_registry, registry_guards, refuse_market,
}
use arbiscan_arbitrage_scann.MarketBook.Books.{sort_ids}
use arbiscan_arbitrage_scann.MarketBook.Builder.{scope_of}

nat_beq-IsCongruent : IsCongruent nat_beq
nat_beq-IsCongruent = record { left = λ a b c h. ground arith; right = λ a b c h. ground arith }

-- What the checks of a registry say of its markets and selections.
pub record IsRegistry (r : CanonicalRegistry) : Type 0 where
  pub events : All (λ m. (e : Entities.Event) × (event r m.event_id ≡ some e)) r.markets
  pub markets : all_distinct (map (λ m. m.id) r.markets) ≡ true
  pub selections : all_distinct (map (λ s. s.id) r.selections) ≡ true

refuse_market-known :
    (r : CanonicalRegistry) (m : Entities.Market)
    → refuse_market r m ≡ false
    → (e : Entities.Event) × (event r m.event_id ≡ some e)
unfolding refuse_market
refuse_market-known r m h = elim (Option-cases (event r m.event_id)) [
  | inl n ↦ absurd (ground arith)
  | inr (e, known) ↦ (e, known)
]

pub validate_registry-IsRegistry :
    (r : CanonicalRegistry) → validate_registry r ≡ some r → IsRegistry r
unfolding validate_registry registry_guards
validate_registry-IsRegistry r h =
    let (passed, same) = checked-eq-some (registry_guards r) r r h in
    record {
      events =
          All-map _ _ (refuse_market-known r) r.markets
            (any-All (refuse_market r) r.markets passed.1.1.1.1.1.1.1.0);
      markets = ground (arith, passed.1.1.1.0);
      selections = ground (arith, passed.1.1.1.1.0);
    }

pub selection_ids-distinct :
    (r : CanonicalRegistry) (market_id : ℕ)
    → IsRegistry r
    → all_distinct (selection_ids_for_market r market_id) ≡ true
unfolding selection_ids_for_market group_at
selection_ids-distinct r market_id h =
    let here : Entities.Selection → Bool = λ s. nat_beq s.market_id market_id in
    let group =
      group_at-group_into nat_beq (λ s. s.market_id) nat_beq-IsCongruent market_id []
        r.selections in
    let ids = map (λ s. s.id) (keep here r.selections) in
    let unsorted = all_distinct-keep (λ s. s.id) here r.selections h.selections in
    let sorted =
      all_distinct-sort_by (λ n. n) (λ n. n ∷ []) ids
        (subst (λ t. all_distinct t ≡ true) (sym (map_same ids)) unsorted) in
    rw group (subst (λ t. all_distinct t ≡ true) (map_same (sort_by (λ n. n ∷ []) ids)) sorted)

pub event-id : (r : CanonicalRegistry) (i : ℕ) (e : Entities.Event) → event r i ≡ some e → e.id ≡ i
unfolding event
event-id r i e h = index_get-key (λ x. x.id) r.events i e h

pub market-id :
    (r : CanonicalRegistry) (i : ℕ) (m : Entities.Market) → market r i ≡ some m → m.id ≡ i
unfolding market
market-id r i m h = index_get-key (λ x. x.id) r.markets i m h

pub market-event :
    (r : CanonicalRegistry) (i : ℕ) (m : Entities.Market)
    → IsRegistry r
    → market r i ≡ some m
    → (e : Entities.Event) × (event r m.event_id ≡ some e)
unfolding market
market-event r i m h known =
    index_get-All (λ x. x.id) (λ x. (e : Entities.Event) × (event r x.event_id ≡ some e)) r.markets
      i m h.events known

sort_ids-distinct : (ids : List ℕ) → all_distinct ids ≡ true → all_distinct (sort_ids ids) ≡ true
sort_ids-distinct ids h =
    let key : ℕ → List ℕ = λ n. n ∷ [] in
    subst (λ t. all_distinct t ≡ true) (map_same (sort_by key ids))
      (all_distinct-sort_by (λ n. n) key ids
        (subst (λ t. all_distinct t ≡ true) (sym (map_same ids)) h))

not_none {ℓ} : {A : Type ℓ} (o : Option A) → is_none o ≡ false → (a : A) × (o ≡ some a)
not_none none h = absurd (ground arith)
not_none (some a) h = (a, refl)

pub scope_of-All :
    (r : CanonicalRegistry) (market_ids : Option (List ℕ)) (scope : List ℕ)
    → IsRegistry r
    → scope_of r market_ids ≡ some scope
    → (all_distinct scope ≡ true) × All (λ i. (m : Entities.Market) × (market r i ≡ some m)) scope
unfolding scope_of market
scope_of-All r none scope h known =
    let ids = map (λ m. m.id) r.markets in
    subst
      (λ t. (all_distinct t ≡ true) × All (λ i. (m : Entities.Market) × (market r i ≡ some m)) t)
      (some-injective (sort_ids ids) scope known)
      (
        sort_ids-distinct ids h.markets,
        sort_by-All _ _ ids
            (All-map _ _ (index_get-known (λ m. m.id) r.markets) ids (contains_self ids)),
      )
scope_of-All r (some ids) scope h known =
    let distinct : all_distinct ids ≡ true = ground arith in
    let found : any (λ i. is_none (market r i)) ids ≡ false = ground arith in
    subst
      (λ t. (all_distinct t ≡ true) × All (λ i. (m : Entities.Market) × (market r i ≡ some m)) t)
      (some-injective (sort_ids ids) scope (ground arith))
      (
        sort_ids-distinct ids distinct,
        sort_by-All _ _ ids
            (All-map _ _ (λ i k. not_none (market r i) k) ids (any-All _ ids found)),
      )
