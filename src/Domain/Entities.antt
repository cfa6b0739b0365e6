-- ===== src/Domain/Entities.antt =====
-- domain/enums.py, and the entities of domain/models.py with their `__post_init__`. Names, regions
-- and seasons are texts that nothing reads; `none` is the raised DomainValidationError.
use arbiscan_arbitrage_scann.Prelude.{
  ℕ, Bool, true, false, not, ◌&&◌, ◌||◌, Option, none, some, List, [], ◌∷◌, map, any, length, ltb,
  nat_beq, nat_eq, all_distinct, is_none, checked, if◌then◌else◌,
}
use arbiscan_arbitrage_scann.Domain.Number.{Decimal}

pub data Sport : Type 0 where
  football basketball tennis motorsport : Sport

abbrev pub sport_rank : Sport → ℕ
sport_rank Sport.football = 0
sport_rank Sport.basketball = 1
sport_rank Sport.tennis = 2
sport_rank Sport.motorsport = 3

abbrev pub sport_eqb : Sport → Sport → Bool
sport_eqb a b = nat_beq (sport_rank a) (sport_rank b)

pub data ParticipantKind : Type 0 where
  team individual driver constructor other : ParticipantKind

abbrev pub participant_kind_rank : ParticipantKind → ℕ
participant_kind_rank ParticipantKind.team = 0
participant_kind_rank ParticipantKind.individual = 1
participant_kind_rank ParticipantKind.driver = 2
participant_kind_rank ParticipantKind.constructor = 3
participant_kind_rank ParticipantKind.other = 4

pub data EventStatus : Type 0 where
  scheduled live postponed cancelled completed unknown : EventStatus

unfoldable pub is_scheduled : EventStatus → Bool
is_scheduled EventStatus.scheduled = true
is_scheduled _ = false

pub data MarketKind : Type 0 where
  match_winner_2_way match_winner_3_way qualification_winner total_points handicap : MarketKind
  both_teams_to_score set_winner game_winner outright_winner podium_finish head_to_head : MarketKind

abbrev pub market_kind_rank : MarketKind → ℕ
market_kind_rank MarketKind.match_winner_2_way = 0
market_kind_rank MarketKind.match_winner_3_way = 1
market_kind_rank MarketKind.qualification_winner = 2
market_kind_rank MarketKind.total_points = 3
market_kind_rank MarketKind.handicap = 4
market_kind_rank MarketKind.both_teams_to_score = 5
market_kind_rank MarketKind.set_winner = 6
market_kind_rank MarketKind.game_winner = 7
market_kind_rank MarketKind.outright_winner = 8
market_kind_rank MarketKind.podium_finish = 9
market_kind_rank MarketKind.head_to_head = 10

-- `a is b` on market kinds.
abbrev pub market_kind_eqb : MarketKind → MarketKind → Bool
market_kind_eqb a b = nat_beq (market_kind_rank a) (market_kind_rank b)

pub data MarketPeriod : Type 0 where
  full_event regulation first_half second_half set game period quarter : MarketPeriod
  race qualifying session tournament : MarketPeriod

abbrev pub market_period_rank : MarketPeriod → ℕ
market_period_rank MarketPeriod.full_event = 0
market_period_rank MarketPeriod.regulation = 1
market_period_rank MarketPeriod.first_half = 2
market_period_rank MarketPeriod.second_half = 3
market_period_rank MarketPeriod.set = 4
market_period_rank MarketPeriod.game = 5
market_period_rank MarketPeriod.period = 6
market_period_rank MarketPeriod.quarter = 7
market_period_rank MarketPeriod.race = 8
market_period_rank MarketPeriod.qualifying = 9
market_period_rank MarketPeriod.session = 10
market_period_rank MarketPeriod.tournament = 11

-- `a is b` on market periods.
abbrev pub market_period_eqb : MarketPeriod → MarketPeriod → Bool
market_period_eqb a b = nat_beq (market_period_rank a) (market_period_rank b)

pub data SelectionKind : Type 0 where
  participant draw over under yes no : SelectionKind

abbrev pub selection_kind_rank : SelectionKind → ℕ
selection_kind_rank SelectionKind.participant = 0
selection_kind_rank SelectionKind.draw = 1
selection_kind_rank SelectionKind.over = 2
selection_kind_rank SelectionKind.under = 3
selection_kind_rank SelectionKind.yes = 4
selection_kind_rank SelectionKind.no = 5

-- `a is b` on selection kinds.
abbrev pub selection_kind_eqb : SelectionKind → SelectionKind → Bool
selection_kind_eqb a b = nat_beq (selection_kind_rank a) (selection_kind_rank b)

pub record Competition : Type 0 where
  pub id : ℕ
  pub sport : Sport

pub record Participant : Type 0 where
  pub id : ℕ
  pub sport : Sport
  pub kind : ParticipantKind

pub record ProviderEventReference : Type 0 where
  pub provider_id : ℕ
  pub external_event_id : ℕ

pub record ProviderMarketReference : Type 0 where
  pub provider_id : ℕ
  pub external_event_id : ℕ
  pub external_market_id : ℕ

pub record Event : Type 0 where
  pub id : ℕ
  pub sport : Sport
  pub competition : Competition
  pub participants : List Participant
  pub scheduled_start : ℕ
  pub status : EventStatus
  pub provider_references : List ProviderEventReference

abbrev pub participant_ids : Event → List ℕ
participant_ids e = map (λ p. p.id) e.participants

-- `Event.__post_init__`
unfoldable pub validate_event : Event → Option Event
validate_event e =
    checked
      (not (sport_eqb e.competition.sport e.sport)
        ∷ ltb (length e.participants) 1
        ∷ any (λ p. not (sport_eqb p.sport e.sport)) e.participants
        ∷ not (all_distinct (participant_ids e))
        ∷ not (all_distinct (map (λ r. r.provider_id) e.provider_references))
        ∷ [])
      e

pub record Market : Type 0 where
  pub id : ℕ
  pub event_id : ℕ
  pub kind : MarketKind
  pub period : MarketPeriod
  pub line : Option Decimal
  pub period_index : Option ℕ
  pub set_index : Option ℕ
  pub subject_participant_id : Option ℕ
  pub provider_references : List ProviderMarketReference

-- `kind in parameterized`
abbrev pub is_parameterized : MarketKind → Bool
is_parameterized MarketKind.total_points = true
is_parameterized MarketKind.handicap = true
is_parameterized _ = false

-- `period in indexed_periods`
abbrev pub is_indexed : MarketPeriod → Bool
is_indexed MarketPeriod.set = true
is_indexed MarketPeriod.game = true
is_indexed MarketPeriod.period = true
is_indexed MarketPeriod.quarter = true
is_indexed _ = false

-- `period in {RACE, QUALIFYING, SESSION}`
abbrev pub is_motorsport_scope : MarketPeriod → Bool
is_motorsport_scope MarketPeriod.race = true
is_motorsport_scope MarketPeriod.qualifying = true
is_motorsport_scope MarketPeriod.session = true
is_motorsport_scope _ = false

-- `period in {RACE, QUALIFYING, SESSION, TOURNAMENT}`
abbrev pub is_outright_scope : MarketPeriod → Bool
is_outright_scope MarketPeriod.tournament = true
is_outright_scope p = is_motorsport_scope p

-- `index is None or index < 1`; an index below zero is refused as zero is.
abbrev pub is_missing_index : Option ℕ → Bool
is_missing_index none = true
is_missing_index (some n) = ltb n 1

-- A field that one condition requires and every other forbids.
abbrev pub exactly_when : Bool → (missing present : Bool) → Bool
exactly_when required missing present = if required then missing else present

-- `Market.__post_init__`
unfoldable pub validate_market : Market → Option Market
validate_market m =
    checked
      (exactly_when (is_parameterized m.kind) (is_none m.line) (not (is_none m.line))
        ∷ exactly_when (is_indexed m.period) (is_missing_index m.period_index)
            (not (is_none m.period_index))
        ∷ exactly_when (market_period_eqb m.period MarketPeriod.game) (is_missing_index m.set_index)
            (not (is_none m.set_index))
        ∷ (market_kind_eqb m.kind MarketKind.set_winner
            && not (market_period_eqb m.period MarketPeriod.set))
        ∷ (market_kind_eqb m.kind MarketKind.game_winner
            && not (market_period_eqb m.period MarketPeriod.game))
        ∷ exactly_when (market_kind_eqb m.kind MarketKind.podium_finish)
            (is_none m.subject_participant_id) (not (is_none m.subject_participant_id))
        ∷ (market_kind_eqb m.kind MarketKind.outright_winner && not (is_outright_scope m.period))
        ∷ ((market_kind_eqb m.kind MarketKind.podium_finish
              || market_kind_eqb m.kind MarketKind.head_to_head)
            && not (is_motorsport_scope m.period))
        ∷ not (all_distinct (map (λ r. r.provider_id) m.provider_references))
        ∷ [])
      m

pub record Selection : Type 0 where
  pub id : ℕ
  pub market_id : ℕ
  pub kind : SelectionKind
  pub participant_id : Option ℕ
  pub handicap : Option Decimal

-- `Selection.__post_init__`
unfoldable pub validate_selection : Selection → Option Selection
validate_selection s =
    let on_participant = selection_kind_eqb s.kind SelectionKind.participant in
    checked
      (exactly_when on_participant (is_none s.participant_id) (not (is_none s.participant_id))
        ∷ (not (is_none s.handicap) && not on_participant)
        ∷ [])
      s
