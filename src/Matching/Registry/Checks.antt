-- ===== src/Matching/Registry/Checks.antt =====
-- matching/catalog.py: `CanonicalRegistry.__post_init__`. `none` is the raised ValueError.
use arbiscan_arbitrage_scann.Prelude.{
  ℕ, Bool, true, false, not, ◌&&◌, ◌||◌, Option, none, some, List, [], ◌∷◌, map, any, keep, length,
  ltb, nat_beq, nat_eq, option_eq, option_beq, contains, all_distinct, distinct, subset, same_set,
  is_none, checked, if◌then◌else◌,
}
use arbiscan_arbitrage_scann.Domain.{Decimal, dec_eqb}
use arbiscan_arbitrage_scann.Domain.Context.{minus}
use arbiscan_arbitrage_scann.Domain.Entities.{
  participant_kind_rank, MarketKind, SelectionKind, selection_kind_rank, selection_kind_eqb, Event,
  participant_ids, Market, Selection,
}
use arbiscan_arbitrage_scann.Matching.Registry.{CanonicalRegistry, event, market}

abbrev pub is_on_participant : Selection → Bool
is_on_participant s = selection_kind_eqb s.kind SelectionKind.participant

-- `len(market_selections) != 2 or {kinds} != {a, b}`
unfoldable pub refuse_pair : SelectionKind → SelectionKind → List Selection → Bool
refuse_pair a b selections =
    not (nat_beq (length selections) 2)
    || not (
        same_set (map (λ s. selection_kind_rank s.kind) selections)
          (selection_kind_rank a ∷ selection_kind_rank b ∷ []))

-- A number of selections other than that, or one that is not on a participant.
unfoldable pub refuse_on_participants : ℕ → List Selection → Bool
refuse_on_participants count selections =
    not (nat_beq (length selections) count) || any (λ s. not (is_on_participant s)) selections

abbrev pub selected : List Selection → List (Option ℕ)
selected selections = map (λ s. s.participant_id) selections

abbrev pub expected : Event → List (Option ℕ)
expected e = map some (participant_ids e)

-- `{participant ids of the selections} != event_participant_ids`
unfoldable pub refuse_cover : Event → List Selection → Bool
refuse_cover e selections = not (same_set (selected selections) (expected e))

abbrev pub has_handicap : List Selection → Bool
has_handicap selections = any (λ s. not (is_none s.handicap)) selections

-- The set-winner and the game-winner blocks.
unfoldable pub refuse_two_way : Event → List Selection → Bool
unfolding refuse_on_participants refuse_cover
refuse_two_way e selections =
    not (nat_beq (length e.participants) 2)
    || refuse_on_participants 2 selections
    || refuse_cover e selections
    || has_handicap selections

unfoldable pub refuse_outright : Event → List Selection → Bool
unfolding refuse_on_participants refuse_cover
refuse_outright e selections =
    ltb (length e.participants) 2
    || not (nat_beq (length (distinct (map (λ p. participant_kind_rank p.kind) e.participants))) 1)
    || refuse_on_participants (length e.participants) selections
    || refuse_cover e selections
    || has_handicap selections

unfoldable pub refuse_podium : Event → Option ℕ → List Selection → Bool
unfolding refuse_pair
refuse_podium e none selections = true
refuse_podium e (some subject) selections =
    not (contains (participant_ids e) subject)
    || refuse_pair SelectionKind.yes SelectionKind.no selections
    || has_handicap selections

unfoldable pub refuse_head_to_head : Event → List Selection → Bool
unfolding refuse_on_participants
refuse_head_to_head e selections =
    refuse_on_participants 2 selections
    || contains (selected selections) none
    || not (nat_beq (length (distinct (selected selections))) 2)
    || not (subset (selected selections) (expected e))
    || has_handicap selections

-- `by_participant[participant_id].handicap`, where the last selection of a participant counts.
unfoldable pub handicap_of : List Selection → ℕ → Option Decimal
handicap_of [] participant_id = none
handicap_of (s ∷ rest) participant_id =
    let later = handicap_of rest participant_id in
    if contains (selected rest) (some participant_id)
    then later
    else if option_beq s.participant_id (some participant_id)
    then s.handicap
    else none

-- `handicap != expected`
abbrev pub differs : Option Decimal → Decimal → Bool
differs none d = true
differs (some h) d = not (dec_eqb h d)

unfoldable pub refuse_lines : List ℕ → Decimal → List Selection → Bool
unfolding handicap_of minus
refuse_lines (first ∷ second ∷ []) line selections =
    differs (handicap_of selections first) line
    || differs (handicap_of selections second) (minus line)
refuse_lines _ line selections = true

unfoldable pub refuse_handicap : Event → Option Decimal → List Selection → Bool
unfolding refuse_on_participants refuse_cover refuse_lines
refuse_handicap e none selections = true
refuse_handicap e (some line) selections =
    not (nat_beq (length e.participants) 2)
    || refuse_on_participants 2 selections
    || refuse_cover e selections
    || refuse_lines (participant_ids e) line selections

-- The blocks on the kinds of markets, of which each skips the other kinds.
unfoldable pub refuse_kind : Event → Market → List Selection → Bool
unfolding refuse_pair refuse_two_way refuse_outright refuse_podium refuse_head_to_head
    refuse_handicap
refuse_kind e m selections = elim m.kind [
  | MarketKind.total_points ↦ refuse_pair SelectionKind.over SelectionKind.under selections
  | MarketKind.both_teams_to_score ↦ refuse_pair SelectionKind.yes SelectionKind.no selections
  | MarketKind.set_winner ↦ refuse_two_way e selections
  | MarketKind.game_winner ↦ refuse_two_way e selections
  | MarketKind.outright_winner ↦ refuse_outright e selections
  | MarketKind.podium_finish ↦ refuse_podium e m.subject_participant_id selections
  | MarketKind.head_to_head ↦ refuse_head_to_head e selections
  | MarketKind.handicap ↦ refuse_handicap e m.line selections
  | _ ↦ false
]

abbrev pub market_selections : CanonicalRegistry → Market → List Selection
market_selections r m = keep (λ s. nat_beq s.market_id m.id) r.selections

-- A market whose event is unknown is refused, before its kind is looked at.
unfoldable pub refuse_market : CanonicalRegistry → Market → Bool
unfolding refuse_kind event
refuse_market r m = elim (event r m.event_id) [
  | none ↦ true
  | some e ↦ refuse_kind e m (market_selections r m)
]

unfoldable pub refuse_event : CanonicalRegistry → Event → Bool
refuse_event r e =
    not (contains (map (λ c. c.id) r.competitions) e.competition.id)
    || any (λ p. not (contains (map (λ q. q.id) r.participants) p.id)) e.participants

-- A participant selection: a known participant, of the event of its market.
unfoldable pub refuse_participant : CanonicalRegistry → Option Event → Option ℕ → Bool
refuse_participant r (some e) (some p) =
    not (contains (map (λ q. q.id) r.participants) p) || not (contains (participant_ids e) p)
refuse_participant r _ _ = true

unfoldable pub refuse_selection : CanonicalRegistry → Selection → Bool
unfolding refuse_participant event market
refuse_selection r s = elim (market r s.market_id) [
  | none ↦ true
  | some m ↦ is_on_participant s && refuse_participant r (event r m.event_id) s.participant_id
]

-- `__post_init__`: identifiers are unique, references are known, and each market has the selections
-- of its kind.
unfoldable pub registry_guards : CanonicalRegistry → List Bool
unfolding refuse_event refuse_market refuse_selection
registry_guards r =
    not (all_distinct (map (λ c. c.id) r.competitions))
    ∷ not (all_distinct (map (λ p. p.id) r.participants))
    ∷ not (all_distinct (map (λ e. e.id) r.events))
    ∷ not (all_distinct (map (λ m. m.id) r.markets))
    ∷ not (all_distinct (map (λ s. s.id) r.selections))
    ∷ any (refuse_event r) r.events
    ∷ any (refuse_selection r) r.selections
    ∷ any (refuse_market r) r.markets
    ∷ []

unfoldable pub validate_registry : CanonicalRegistry → Option CanonicalRegistry
unfolding registry_guards
validate_registry r = checked (registry_guards r) r
