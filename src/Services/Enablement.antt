-- ===== src/Services/Enablement.antt =====
-- services/source_enablement.py: `TransportSourceEnablementPolicy`, which selects the adapters that are
-- polled. A frozenset is a list without duplicates; `none` is the raised ValueError. An adapter is a
-- value of any type with the id of its provider.
pub mod Laws
mod Tests
use arbiscan_arbitrage_scann.Prelude.{
  ℕ, Bool, true, false, not, ◌||◌, Option, none, some, List, [], ◌∷◌, nat_eq, is_none, distinct,
  subset, map, checked, if◌then◌else◌,
}
use arbiscan_arbitrage_scann.Prelude.Options.{◌>>=◌}
use arbiscan_arbitrage_scann.Prelude.Dict.{Dict, lookup, insert}
use arbiscan_arbitrage_scann.Prelude.Sort.{sort_by}

pub record TransportSourceEnablementPolicy : Type 0 where
  pub enabled_provider_ids : List ℕ
  pub required_provider_ids : List ℕ

-- `__post_init__`
unfoldable pub validate_policy :
    TransportSourceEnablementPolicy → Option TransportSourceEnablementPolicy
validate_policy p =
    checked (not (subset p.required_provider_ids p.enabled_provider_ids) ∷ []) (record {
      enabled_provider_ids = distinct p.enabled_provider_ids;
      required_provider_ids = distinct p.required_provider_ids;
    })

-- `primary_only`
unfoldable pub primary_only : ℕ → Option TransportSourceEnablementPolicy
unfolding validate_policy
primary_only id =
    validate_policy (record { enabled_provider_ids = id ∷ []; required_provider_ids = id ∷ [] })

-- `staged_multi_source`
unfoldable pub staged_multi_source : ℕ → List ℕ → Option TransportSourceEnablementPolicy
unfolding validate_policy
staged_multi_source primary additional =
    validate_policy
      (record { enabled_provider_ids = primary ∷ additional; required_provider_ids = primary ∷ [] })

module _ {Adapter : Type 0} (provider_id : Adapter → ℕ) where
  -- The loop that fills `by_provider`.
  unfoldable pub index : Dict ℕ Adapter → List Adapter → Option (Dict ℕ Adapter)
  unfolding lookup insert
  index d [] = some d
  index d (a ∷ others) =
      let filled = index (insert (provider_id a) a d) others in
      if is_none (lookup (provider_id a) d) then filled else none

  -- `unknown = ids - set(by_provider)` is not empty.
  unfoldable pub has_unknown : Dict ℕ Adapter → List ℕ → Bool
  unfolding lookup
  has_unknown d [] = false
  has_unknown d (i ∷ others) = is_none (lookup i d) || has_unknown d others

  -- `tuple(by_provider[provider_id] ...)`
  unfoldable pub take_all : Dict ℕ Adapter → List ℕ → Option (List Adapter)
  unfolding lookup
  take_all d [] = some []
  take_all d (i ∷ others) = do a ← lookup i d; more ← take_all d others; some (a ∷ more)

  -- `select`
  unfoldable pub select : TransportSourceEnablementPolicy → List Adapter → Option (List Adapter)
  unfolding index has_unknown take_all sort_by
  select p adapters = do
    by_provider ← index [] adapters
    known ←
        checked
          (has_unknown by_provider p.enabled_provider_ids
            ∷ has_unknown by_provider p.required_provider_ids
            ∷ [])
          by_provider
    take_all known (sort_by (λ i. i ∷ []) p.enabled_provider_ids)
