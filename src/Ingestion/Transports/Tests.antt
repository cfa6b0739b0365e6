-- ===== src/Ingestion/Transports/Tests.antt =====
-- ingestion/multisource_state.py on quotes of two transports.
use arbiscan_arbitrage_scann.Prelude.{◌≡◌, refl, [], ◌∷◌, map, keep, All, ◌==◌, nat_eq}
use arbiscan_arbitrage_scann.Prelude.Dict.{lookup, insert}
use arbiscan_arbitrage_scann.Prelude.Sort.{sort_by}
use arbiscan_arbitrage_scann.Prelude.Groups.{group_into}
use arbiscan_arbitrage_scann.Domain.{transport_id, dec_leb}
use arbiscan_arbitrage_scann.Ingestion.Tests.{policy, observations}
use arbiscan_arbitrage_scann.Ingestion.Store
use arbiscan_arbitrage_scann.Ingestion.Transports.{
  MultiSourceStore, new_store, apply, fresh_quotes, evict_stale, invalidate_observations,
  observation_key, stale_total, total_length,
}
use arbiscan_arbitrage_scann.Ingestion.Transports.Isolation.{store_of, apply-store_of}
use arbiscan_arbitrage_scann.Ingestion.Transports.Safety.{IsExecutable, fresh_quotes-IsExecutable}

program : Unit {0}
unfolding apply fresh_quotes evict_stale invalidate_observations stale_total total_length sort_by
    lookup insert group_into dec_leb
program = tt

abbrev fed : MultiSourceStore
unfolding program
fed = (apply (new_store policy) observations 140).0

-- Selection 3 has one executable quote, and the two prices of selection 4 suppress one another.
fresh-fed : map (λ q. q.id) (fresh_quotes fed 140).1 ≡ 3 ∷ []
unfolding program
fresh-fed = refl

-- Without the observation of one transport the price of the other one stands.
fresh_invalidated :
    let other = keep (λ q. q.id == 6) observations in
    map (λ q. q.id) (fresh_quotes (invalidate_observations fed (map observation_key other)) 140).1
    ≡ 3 ∷ 5 ∷ []
unfolding program
fresh_invalidated = refl

evicted-fed : map (λ v. v.quote.id) (evict_stale fed 175).1.evicted ≡ []
unfolding program
evicted-fed = refl

apply-store_of_example :
    store_of (apply (new_store policy) observations 140).0 8
    ≡ (Store.apply
        (store_of (new_store policy) 8)
        (keep (λ q. transport_id q == 8) observations)
        140).0
apply-store_of_example = apply-store_of (new_store policy) observations 140 8

fresh_quotes-IsExecutable_example : All (IsExecutable fed 140) (fresh_quotes fed 140).1
fresh_quotes-IsExecutable_example = fresh_quotes-IsExecutable fed 140
