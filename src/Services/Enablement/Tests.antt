-- ===== src/Services/Enablement/Tests.antt =====
-- services/source_enablement.py on three adapters, which are their provider's ids and a port.
use arbiscan_arbitrage_scann.Prelude.{ℕ, ◌≡◌, refl, none, some, List, [], ◌∷◌}
use arbiscan_arbitrage_scann.Prelude.Dict.{lookup, insert}
use arbiscan_arbitrage_scann.Prelude.Sort.{sort_by}
use arbiscan_arbitrage_scann.Services.Enablement.{
  TransportSourceEnablementPolicy, validate_policy, primary_only, staged_multi_source, select,
}
use arbiscan_arbitrage_scann.Services.Enablement.Laws.{Selects, select-Selects}

program : Unit {0}
unfolding select primary_only staged_multi_source validate_policy lookup insert sort_by
program = tt

abbrev adapters : List (ℕ × ℕ)
adapters = (9, 80) ∷ (4, 81) ∷ (7, 82) ∷ []

abbrev id_of : ℕ × ℕ → ℕ
id_of p = p.0

abbrev staged : TransportSourceEnablementPolicy
staged = record { enabled_provider_ids = 9 ∷ 4 ∷ []; required_provider_ids = 9 ∷ [] }

staged-policy : staged_multi_source 9 (4 ∷ []) ≡ some staged
unfolding program
staged-policy = refl

select-staged : select id_of staged adapters ≡ some ((4, 81) ∷ (9, 80) ∷ [])
unfolding program
select-staged = refl

-- A required source that is not enabled.
policy_without_primary :
    validate_policy (record { enabled_provider_ids = 4 ∷ []; required_provider_ids = 9 ∷ [] })
    ≡ none
unfolding program
policy_without_primary = refl

-- Two adapters of one provider, and an enabled source without an adapter.
select_twice : select id_of staged ((4, 83) ∷ adapters) ≡ none
unfolding program
select_twice = refl

select_missing : select id_of staged ((9, 80) ∷ []) ≡ none
unfolding program
select_missing = refl

select-Selects_example : Selects id_of staged adapters (select id_of staged adapters)
select-Selects_example = select-Selects id_of staged adapters refl
