-- ===== src/Ingestion/Health/Laws.antt =====
-- ingestion/realtime.py: what the health of a provider says of its polls.
use mathlib.Core.List.{cons-ne-nil}
use arbiscan_arbitrage_scann.Prelude.{
  ℕ, suc, ◌+◌, ◌≤◌, ◌<◌, ◌≡◌, ◌⊎◌, ◌↔◌, inl, inr, refl, sym, subst, ◌∙◌, Bool, false, not, ◌&&◌,
  some, List, [], ◌∷◌, arith, length, keep, nat_beq, All, if◌then◌else◌,
}
use arbiscan_arbitrage_scann.Ingestion.Health.{
  ProviderHealthState, ProviderHealth, fresh_health, Poll, record_poll,
}

-- A poll that was not throttled, had issues and brought no snapshot.
pub record IsFailure (p : Poll) : Type 0 where
  pub reached : p.throttled ≡ false
  pub issues : 0 < p.issue_count
  pub empty : p.snapshot_count ≡ 0

-- A poll that was not throttled and had no issue.
pub record IsClean (p : Poll) : Type 0 where
  pub reached : p.throttled ≡ false
  pub no_issue : p.issue_count ≡ 0

-- The health after polls, the newest first.
unfoldable pub after : List Poll → ProviderHealth
unfolding record_poll
after [] = fresh_health
after (p ∷ earlier) = record_poll (after earlier) p

abbrev pub is_clean : Poll → Bool
is_clean p = not p.throttled && nat_beq p.issue_count 0

abbrev pub has_issues : Poll → Bool
has_issues p = not p.throttled && not (nat_beq p.issue_count 0)

-- The polls after the last clean one.
unfoldable pub since_clean : List Poll → List Poll
since_clean [] = []
since_clean (p ∷ earlier) = if is_clean p then [] else p ∷ since_clean earlier

-- The newest poll, if there is one, has the property.
abbrev pub Newest : (Poll → Type 0) → List Poll → Type 0
Newest P [] = ⊥
Newest P (p ∷ earlier) = P p

-- The polls after the last clean one that were not throttled and had issues.
abbrev pub recent_issues : List Poll → ℕ
recent_issues polls = length (keep has_issues (since_clean polls))

record_poll-count :
    (h : ProviderHealth) (p : Poll)
    → (record_poll h p).consecutive_failures ≡ (
        if is_clean p
        then 0
        else if has_issues p
        then suc h.consecutive_failures
        else h.consecutive_failures)
unfolding record_poll
record_poll-count h p = ground arith

after-count : (polls : List Poll) → (after polls).consecutive_failures ≡ recent_issues polls
unfolding after since_clean
after-count [] = refl
after-count (p ∷ earlier) =
    record_poll-count (after earlier) p ∙ ground (arith, after-count earlier)

record_poll-healthy :
    (h : ProviderHealth) (p : Poll)
    → ((record_poll h p).state ≡ ProviderHealthState.healthy) ↔ IsClean p
unfolding record_poll
record_poll-healthy h p = (
  λ e. record { reached = ground arith; no_issue = ground arith },
  λ c. let r = c.reached in let n = c.no_issue in ground arith,
)

record_poll-unavailable :
    (h : ProviderHealth) (p : Poll)
    → ((record_poll h p).state ≡ ProviderHealthState.unavailable)
      ↔ (IsFailure p × (3 ≤ (record_poll h p).consecutive_failures))
unfolding record_poll
record_poll-unavailable h p = (
  λ e. (
    record { reached = ground arith; issues = ground arith; empty = ground arith },
    ground arith,
  ),
  λ f. let r = f.0.reached in let i = f.0.issues in let n = f.0.empty in ground arith,
)

-- After polls of a provider, the newest first, the counter of failures is the number of those after
-- the last clean poll that were not throttled and had issues. The provider is healthy if and only if
-- there was no poll or the newest is clean, and unavailable if and only if the newest was not
-- throttled, had issues and brought no snapshot, and that number is three or more.
pub after_polls :
    (polls : List Poll)
    → ((after polls).consecutive_failures ≡ recent_issues polls)
      × (((after polls).state ≡ ProviderHealthState.healthy)
          ↔ ((polls ≡ []) ⊎ Newest IsClean polls))
      × (((after polls).state ≡ ProviderHealthState.unavailable)
          ↔ (Newest IsFailure polls × (3 ≤ recent_issues polls)))
unfolding after
after_polls [] =
    (after-count [], (λ e. inl refl, λ e. refl), (λ e. absurd (ground arith), λ f. absurd f.0))
after_polls (p ∷ earlier) =
    let count = after-count (p ∷ earlier) in
    let (clean, healthy) = record_poll-healthy (after earlier) p in
    let (failed, down) = record_poll-unavailable (after earlier) p in
    (
      count,
      (
        λ e. inr (clean e),
        λ c. elim c [ inl n ↦ absurd (cons-ne-nil p earlier n) | inr k ↦ healthy k ],
      ),
      (
        λ e. let (f, many) = failed e in (f, subst (λ n. 3 ≤ n) count many),
        λ f. down (f.0, subst (λ n. 3 ≤ n) (sym count) f.1),
      ),
    )

pub record_polls : ProviderHealth → List Poll → ProviderHealth
record_polls h [] = h
record_polls h (p ∷ ps) = record_polls (record_poll h p) ps

record_poll-failure :
    (h : ProviderHealth) (p : Poll)
    → IsFailure p
    → ((record_poll h p).consecutive_failures ≡ h.consecutive_failures + 1)
      × ((record_poll h p).last_success_at ≡ h.last_success_at)
      × (3 ≤ h.consecutive_failures + 1 → (record_poll h p).state ≡ ProviderHealthState.unavailable)
unfolding record_poll
record_poll-failure h p f = (ground arith, ground arith, ground arith)

record_polls-failures :
    (h : ProviderHealth) (ps : List Poll)
    → All IsFailure ps
    → ((record_polls h ps).consecutive_failures ≡ h.consecutive_failures + length ps)
      × ((record_polls h ps).last_success_at ≡ h.last_success_at)
unfolding record_polls
record_polls-failures h [] f = (omega arith, refl)
record_polls-failures h (p ∷ ps) f =
    let one = record_poll-failure h p f.0 in
    let rest = record_polls-failures (record_poll h p) ps f.1 in
    (omega (arith, rest.0, one.0), rest.1 ∙ one.1)

record_poll-clean :
    (h : ProviderHealth) (p : Poll)
    → IsClean p
    → ((record_poll h p).state ≡ ProviderHealthState.healthy)
      × ((record_poll h p).consecutive_failures ≡ 0)
      × ((record_poll h p).last_success_at ≡ some p.completed_at)
unfolding record_poll
record_poll-clean h p c = (ground arith, ground arith, ground arith)

-- Three failures in a row or more make a provider unavailable, whatever came before, and leave its
-- last success as it was; the first clean poll after that makes it healthy, with no failure behind it
-- and itself as the last success.
pub outage_and_recovery :
    (h : ProviderHealth) (ps : List Poll) (last clean : Poll)
    → All IsFailure ps
    → 2 ≤ length ps
    → IsFailure last
    → IsClean clean
    → let down = record_poll (record_polls h ps) last in
      let back = record_poll down clean in
      (down.state ≡ ProviderHealthState.unavailable)
      × (down.last_success_at ≡ h.last_success_at)
      × (back.state ≡ ProviderHealthState.healthy)
      × (back.consecutive_failures ≡ 0)
      × (back.last_success_at ≡ some clean.completed_at)
outage_and_recovery h ps last clean f long failed c =
    let before = record_polls-failures h ps f in
    let (count, success, down) = record_poll-failure (record_polls h ps) last failed in
    let (state, none_left, at) = record_poll-clean _ clean c in
    (down (omega (arith, before.0)), success ∙ before.1, state, none_left, at)
