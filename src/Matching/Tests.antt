-- ===== src/Matching/Tests.antt =====
-- src/arbiscan/matching on a registry of two events, of which the first has a market of two selections.
use arbiscan_arbitrage_scann.Prelude.{
  ℕ, ◌≤◌, ◌≡◌, ◌↔◌, refl, true, false, ◌&&◌, none, some, [], ◌∷◌, map, keep, length, nat_beq,
  same_set, nat_eq,
}
use arbiscan_arbitrage_scann.Prelude.Dict.{lookup}
use arbiscan_arbitrage_scann.Prelude.Sort.{sort_by}
use arbiscan_arbitrage_scann.Domain.Entities.{
  Sport, sport_eqb, ParticipantKind, EventStatus, MarketKind, MarketPeriod, SelectionKind,
  Competition, Participant, Event, Market, Selection, participant_ids, validate_event,
  validate_market, validate_selection,
}
use arbiscan_arbitrage_scann.Matching.Registry.{CanonicalRegistry, event_match_candidates}
use arbiscan_arbitrage_scann.Matching.Registry.Checks.{validate_registry}
use arbiscan_arbitrage_scann.Matching.Registry.Index.{event_match_candidates-eq-keep}
use arbiscan_arbitrage_scann.Matching.Candidate.{
  ParticipantOrderPolicy, EventMatchConfig, validate_config, NormalizedEventEvidence, candidate,
  evaluate_candidate, EventMatchStatus,
}
use arbiscan_arbitrage_scann.Matching.Candidate.Laws.{
  evaluate_candidate_iff, IsCompatible, candidate_of,
}
use arbiscan_arbitrage_scann.Matching.Decision.{
  EventMatcher, match_uncached, candidate_events, survivors, remember, validate_decision, match,
}
use arbiscan_arbitrage_scann.Matching.Decision.Choice.{Explains, match_uncached-Explains}
use arbiscan_arbitrage_scann.Matching.Decision.Filter.{outcome, exhaustive_diagnostics_transparent}
use arbiscan_arbitrage_scann.Matching.Decision.Cache.{match_each, match_each-transparent}
use arbiscan_arbitrage_scann.Matching.Decision.Valid.{match_uncached_valid}

program : Unit {0}
unfolding validate_registry validate_event match_uncached validate_market validate_selection
    validate_config lookup sort_by match
program = tt

abbrev league : Competition
league = record { id = 1; sport = Sport.tennis }

abbrev player : ℕ → Participant
player id = record { id = id; sport = Sport.tennis; kind = ParticipantKind.individual }

abbrev game : (id start : ℕ) → Event
game id start = record {
  id = id;
  sport = Sport.tennis;
  competition = league;
  participants = player 1 ∷ player 2 ∷ [];
  scheduled_start = start;
  status = EventStatus.scheduled;
  provider_references = [];
}

abbrev winner : Market
winner = record {
  id = 5;
  event_id = 1;
  kind = MarketKind.match_winner_2_way;
  period = MarketPeriod.full_event;
  line = none;
  period_index = none;
  set_index = none;
  subject_participant_id = none;
  provider_references = [];
}

abbrev side : (id participant_id : ℕ) → Selection
side id participant_id = record {
  id = id;
  market_id = 5;
  kind = SelectionKind.participant;
  participant_id = some participant_id;
  handicap = none;
}

abbrev pub registry : CanonicalRegistry
registry = record {
  competitions = league ∷ [];
  participants = player 1 ∷ player 2 ∷ [];
  events = game 1 10000 ∷ game 2 90000 ∷ [];
  markets = winner ∷ [];
  selections = side 8 1 ∷ side 9 2 ∷ [];
}

pub validate_registry-sample : validate_registry registry ≡ some registry
unfolding program
validate_registry-sample = refl

abbrev config : EventMatchConfig
config = record {
  start_time_tolerance = 1800;
  referenced_start_time_tolerance = 172800;
  minimum_confidence_bps = 8500;
  ambiguity_margin_bps = 250;
}

abbrev evidence : ℕ → NormalizedEventEvidence
evidence start = record {
  provider_id = 3;
  external_event_id = 4;
  sport = Sport.tennis;
  competition_id = 1;
  participant_ids = 2 ∷ 1 ∷ [];
  scheduled_start = start;
  order_policy = ParticipantOrderPolicy.unordered;
  round_or_stage = none;
  venue = none;
}

abbrev matcher : EventMatcher
matcher = record {
  registry = registry;
  config = config;
  metadata = [];
  cache_capacity = 1;
  exhaustive_diagnostics = false;
  decision_cache = [];
}

-- The comparison key of a text, which folds nothing here.
abbrev casefold : ℕ → ℕ
casefold n = n

match-near :
    ((match_uncached casefold matcher (evidence 10090)).status ≡ EventMatchStatus.matched)
    × ((match_uncached casefold matcher (evidence 10090)).confidence_bps ≡ some 8900)
unfolding program
match-near = (refl, refl)

match-far : (match_uncached casefold matcher (evidence 50000)).status ≡ EventMatchStatus.rejected
unfolding program
match-far = refl

event_match_candidates-eq-keep_example :
    event_match_candidates registry Sport.tennis 1 (2 ∷ 1 ∷ [])
    ≡ keep
        (λ e.
          sport_eqb e.sport Sport.tennis
          && nat_beq e.competition.id 1
          && same_set (participant_ids e) (2 ∷ 1 ∷ []))
        registry.events
event_match_candidates-eq-keep_example =
    event_match_candidates-eq-keep registry Sport.tennis 1 (2 ∷ 1 ∷ [])

evaluate_candidate_iff_example :
    (evaluate_candidate casefold config (evidence 10090) (game 1 10000) none
      ≡ candidate (candidate_of config (evidence 10090) (game 1 10000) none))
    ↔ (IsCompatible casefold config (evidence 10090) (game 1 10000) none
        × (candidate_of config (evidence 10090) (game 1 10000) none
            ≡ candidate_of config (evidence 10090) (game 1 10000) none))
evaluate_candidate_iff_example =
    evaluate_candidate_iff casefold config (evidence 10090) (game 1 10000) none
      (candidate_of config (evidence 10090) (game 1 10000) none)

match_uncached-Explains_example :
    let d = match_uncached casefold matcher (evidence 10090) in
    Explains config
      (survivors casefold matcher (evidence 10090) (candidate_events matcher (evidence 10090)))
      d
      d.status
match_uncached-Explains_example = match_uncached-Explains casefold matcher (evidence 10090)

exhaustive_diagnostics_transparent_example :
    outcome
      (match_uncached casefold (record matcher { exhaustive_diagnostics = true }) (evidence 10090))
    ≡ outcome (match_uncached casefold matcher (evidence 10090))
exhaustive_diagnostics_transparent_example =
    exhaustive_diagnostics_transparent casefold matcher (evidence 10090) true

match_each-transparent_example :
    let r =
      match_each casefold
        (remember matcher [])
        (evidence 10090 ∷ evidence 50000 ∷ evidence 10090 ∷ []) in
    (r.1
      ≡ map
          (match_uncached casefold matcher)
          (evidence 10090 ∷ evidence 50000 ∷ evidence 10090 ∷ []))
    × (length r.0.decision_cache ≤ 1)
match_each-transparent_example =
    match_each-transparent casefold matcher (evidence 10090 ∷ evidence 50000 ∷ evidence 10090 ∷ [])

match_uncached_valid_example :
    let d = match_uncached casefold matcher (evidence 10090) in validate_decision d ≡ some d
match_uncached_valid_example = match_uncached_valid casefold matcher (evidence 10090)
