-- ===== src/Ingestion/Health.antt =====
-- ingestion/realtime.py: ProviderHealthTracker. One provider's `_MutableProviderHealth` is a record,
-- and `_states` a dict of them.
pub mod Laws
use arbiscan_arbitrage_scann.Prelude.{
  ℕ, ◌+◌, Bool, true, false, Option, none, some, List, [], ◌∷◌, ltb, leb, nat_beq, nat_eq,
  if◌then◌else◌, or_else,
}
use arbiscan_arbitrage_scann.Prelude.Int.{ℤ, sub_ℕ}
use arbiscan_arbitrage_scann.Prelude.Dict.{Dict, lookup, insert}
use arbiscan_arbitrage_scann.Prelude.Sort.{sort_by}

pub data ProviderHealthState : Type 0 where
  healthy degraded unavailable : ProviderHealthState

pub record ProviderHealth : Type 0 where
  pub state : ProviderHealthState
  pub last_attempt_at : Option ℕ
  pub last_success_at : Option ℕ
  pub last_update_at : Option ℕ
  pub consecutive_failures : ℕ
  pub throttling_events : ℕ
  pub last_issue_count : ℕ

-- The defaults of `_MutableProviderHealth`.
abbrev pub fresh_health : ProviderHealth
fresh_health = record {
  state = ProviderHealthState.healthy;
  last_attempt_at = none;
  last_success_at = none;
  last_update_at = none;
  consecutive_failures = 0;
  throttling_events = 0;
  last_issue_count = 0;
}

-- What one poll reports to `record`.
pub record Poll : Type 0 where
  pub completed_at : ℕ
  pub snapshot_count : ℕ
  pub issue_count : ℕ
  pub throttled : Bool

-- The assignments of `record` to the state of one provider.
unfoldable pub record_poll : ProviderHealth → Poll → ProviderHealth
record_poll h p =
    let attempted : ProviderHealth = record h {
      last_attempt_at = some p.completed_at;
      last_issue_count = p.issue_count;
    } in
    let failures = h.consecutive_failures + 1 in
    if p.throttled
    then record attempted {
      state = ProviderHealthState.degraded;
      throttling_events = h.throttling_events + 1;
    }
    else if nat_beq p.issue_count 0
    then record attempted {
      state = ProviderHealthState.healthy;
      consecutive_failures = 0;
      last_success_at = some p.completed_at;
      last_update_at = if ltb 0 p.snapshot_count then some p.completed_at else h.last_update_at;
    }
    else if ltb 0 p.snapshot_count
    then record attempted {
      consecutive_failures = failures;
      state = ProviderHealthState.degraded;
      last_success_at = some p.completed_at;
      last_update_at = some p.completed_at;
    }
    else if leb 3 failures
    then record attempted {
      consecutive_failures = failures;
      state = ProviderHealthState.unavailable;
    }
    else record attempted { consecutive_failures = failures; state = ProviderHealthState.degraded }

-- `update_interval`, from `last_update_at` after and before the poll.
unfoldable pub update_interval : ℕ → Option ℕ → Option ℕ → Option ℤ
update_interval snapshot_count (some now) (some previous) =
    if ltb 0 snapshot_count then some (sub_ℕ now previous) else none
update_interval snapshot_count _ _ = none

abbrev pub ProviderHealthTracker : Type 0
ProviderHealthTracker = Dict ℕ ProviderHealth

-- `ProviderHealthTracker.record`: the tracker afterwards, the frozen health and the interval.
unfoldable pub record_provider :
    ProviderHealthTracker → ℕ → Poll → ProviderHealthTracker × ProviderHealth × Option ℤ
unfolding record_poll update_interval
record_provider states provider_id p =
    let state = or_else (lookup provider_id states) fresh_health in
    let after = record_poll state p in
    (
      insert provider_id after states,
      after,
      update_interval p.snapshot_count after.last_update_at state.last_update_at,
    )

-- `snapshots`: each provider with its health, by provider; a state has an attempt once it is there.
unfoldable pub frozen : ProviderHealthTracker → List (ℕ × ProviderHealth)
frozen [] = []
frozen ((k, h) ∷ rest) =
    let others = frozen rest in elim h.last_attempt_at [ none ↦ others | some _ ↦ (k, h) ∷ others ]

unfoldable pub snapshots : ProviderHealthTracker → List (ℕ × ProviderHealth)
unfolding frozen sort_by
snapshots states = sort_by (λ p. p.0 ∷ []) (frozen states)
