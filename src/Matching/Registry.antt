-- ===== src/Matching/Registry.antt =====
-- matching/catalog.py: CanonicalRegistry. The dicts that the object derives from its tuples are
-- computed from the tuples here.
pub mod Checks
pub mod Index
use arbiscan_arbitrage_scann.Prelude.{
  ℕ, Bool, true, ◌&&◌, Option, List, [], ◌∷◌, map, nat_beq, nat_eq, same_set, keep,
}
use arbiscan_arbitrage_scann.Prelude.Sort.{sort_by}
use arbiscan_arbitrage_scann.Prelude.Groups.{group_into, group_at, index_get}
use arbiscan_arbitrage_scann.Domain.Entities.{
  Sport, sport_eqb, Competition, Participant, Event, participant_ids, Market, Selection,
}

pub record CanonicalRegistry : Type 0 where
  pub competitions : List Competition
  pub participants : List Participant
  pub events : List Event
  pub markets : List Market
  pub selections : List Selection

unfoldable pub competition : CanonicalRegistry → ℕ → Option Competition
unfolding index_get
competition r competition_id = index_get (λ c. c.id) r.competitions competition_id

unfoldable pub participant : CanonicalRegistry → ℕ → Option Participant
unfolding index_get
participant r participant_id = index_get (λ p. p.id) r.participants participant_id

unfoldable pub event : CanonicalRegistry → ℕ → Option Event
unfolding index_get
event r event_id = index_get (λ e. e.id) r.events event_id

unfoldable pub market : CanonicalRegistry → ℕ → Option Market
unfolding index_get
market r market_id = index_get (λ m. m.id) r.markets market_id

unfoldable pub selection : CanonicalRegistry → ℕ → Option Selection
unfolding index_get
selection r selection_id = index_get (λ s. s.id) r.selections selection_id

-- `_selection_ids_by_market.get(market_id, ())`: each group is sorted once it is complete.
unfoldable pub selection_ids_for_market : CanonicalRegistry → ℕ → List ℕ
unfolding group_into group_at sort_by
selection_ids_for_market r market_id =
    sort_by (λ n. n ∷ [])
      (map (λ s. s.id)
        (group_at nat_beq (λ s. s.market_id) market_id
          (group_into nat_beq (λ s. s.market_id) [] r.selections)))

-- The keys of the indexes of events. A frozenset of identifiers is a list up to its elements.
pub record MatchKey : Type 0 where
  pub sport : Sport
  pub competition_id : ℕ
  pub participants : List ℕ

abbrev pub same_competition : (a b : Sport × ℕ) → Bool
same_competition a b = sport_eqb a.0 b.0 && nat_beq a.1 b.1

abbrev pub same_match_key : (a b : MatchKey) → Bool
same_match_key a b =
    sport_eqb a.sport b.sport
    && nat_beq a.competition_id b.competition_id
    && same_set a.participants b.participants

abbrev pub competition_key : Event → Sport × ℕ
competition_key e = (e.sport, e.competition.id)

abbrev pub match_key : Event → MatchKey
match_key e = record {
  sport = e.sport;
  competition_id = e.competition.id;
  participants = participant_ids e;
}

unfoldable pub events_for_sport : CanonicalRegistry → Sport → List Event
unfolding group_into group_at
events_for_sport r sport =
    group_at sport_eqb (λ e. e.sport) sport (group_into sport_eqb (λ e. e.sport) [] r.events)

unfoldable pub events_for_competition : CanonicalRegistry → Sport → ℕ → List Event
unfolding group_into group_at
events_for_competition r sport competition_id =
    group_at same_competition competition_key (sport, competition_id)
      (group_into same_competition competition_key [] r.events)

unfoldable pub event_match_candidates : CanonicalRegistry → Sport → ℕ → List ℕ → List Event
unfolding group_into group_at
event_match_candidates r sport competition_id participants =
    group_at same_match_key match_key
      (record { sport = sport; competition_id = competition_id; participants = participants })
      (group_into same_match_key match_key [] r.events)
