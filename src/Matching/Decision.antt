-- ===== src/Matching/Decision.antt =====
-- matching/event_matcher.py: EventMatcher, its decision and its cache of decisions.
pub mod Choice
pub mod Filter
pub mod Cache
pub mod Valid
use arbiscan_arbitrage_scann.Prelude.{
  ℕ, ◌+◌, ◌-◌, Bool, true, false, not, ◌&&◌, any, Option, none, some, List, [], ◌∷◌, ◌++◌, map,
  keep, length, ltb, leb, nat_beq, nat_eq, Eq, option_eq, all_distinct, is_none, checked,
  if◌then◌else◌, ◌==◌,
}
use arbiscan_arbitrage_scann.Prelude.Dict.{Dict, lookup, insert, erase}
use arbiscan_arbitrage_scann.Prelude.Groups.{index_get}
use arbiscan_arbitrage_scann.Prelude.Sort.{sort_by}
use arbiscan_arbitrage_scann.Domain.Entities.{Event}
use arbiscan_arbitrage_scann.Matching.Registry.{
  CanonicalRegistry, event, events_for_sport, events_for_competition, event_match_candidates,
}
use arbiscan_arbitrage_scann.Matching.Candidate.{
  EventMatchConfig, NormalizedEventEvidence, evidence_eq, CanonicalEventMatchMetadata,
  EventMatchCandidate, EventMatchDiagnostic, EventMatchReason, EventMatchStatus, EventMatchDecision,
  Evaluated, candidate, refused, evaluate_candidate,
}

pub record EventMatcher : Type 0 where
  pub registry : CanonicalRegistry
  pub config : EventMatchConfig
  pub metadata : List CanonicalEventMatchMetadata
  pub cache_capacity : ℕ
  pub exhaustive_diagnostics : Bool
  pub decision_cache : Dict NormalizedEventEvidence EventMatchDecision

-- `EventMatcher.__post_init__`, which begins with no decision.
unfoldable pub validate_matcher : EventMatcher → Option EventMatcher
unfolding event
validate_matcher m =
    checked
      (not (all_distinct (map (λ x. x.event_id) m.metadata))
        ∷ any (λ x. is_none (event m.registry x.event_id)) m.metadata
        ∷ [])
      (record m { decision_cache = [] })

-- `EventMatchDecision.__post_init__`
unfoldable pub validate_decision : EventMatchDecision → Option EventMatchDecision
validate_decision d = elim d.status [
  | EventMatchStatus.matched ↦ elim d.matched_event_id [
    | none ↦ none
    | some _ ↦ elim d.confidence_bps [ none ↦ none | some c ↦ checked (ltb 10000 c ∷ []) d ]
  ]
  | _ ↦ checked (not (is_none d.matched_event_id && is_none d.confidence_bps) ∷ []) d
]

-- The sort key (-confidence, start delta, event), of a confidence that is at most 10000.
abbrev pub candidate_key : EventMatchCandidate → List ℕ
candidate_key c = (10000 - c.confidence_bps) ∷ c.start_delta ∷ c.event_id ∷ []

-- `_hard_filter_diagnostic`
unfoldable pub hard_filter_reason : CanonicalRegistry → NormalizedEventEvidence → EventMatchReason
unfolding events_for_sport events_for_competition
hard_filter_reason r v =
    if nat_beq (length (events_for_sport r v.sport)) 0
    then EventMatchReason.sport_mismatch
    else if nat_beq (length (events_for_competition r v.sport v.competition_id)) 0
    then EventMatchReason.competition_mismatch
    else EventMatchReason.participant_mismatch

unfoldable pub candidate_events : EventMatcher → NormalizedEventEvidence → List Event
unfolding event_match_candidates
candidate_events m v =
    if m.exhaustive_diagnostics
    then m.registry.events
    else event_match_candidates m.registry v.sport v.competition_id v.participant_ids

unfoldable pub filter_diagnostics :
    EventMatcher → NormalizedEventEvidence → List EventMatchDiagnostic
unfolding candidate_events hard_filter_reason
filter_diagnostics m v =
    if not m.exhaustive_diagnostics && nat_beq (length (candidate_events m v)) 0
    then record { reason = hard_filter_reason m.registry v; candidate_event_id = none } ∷ []
    else []

abbrev pub diagnostic : EventMatchReason → ℕ → EventMatchDiagnostic
diagnostic reason event_id = record { reason = reason; candidate_event_id = some event_id }

-- `best.confidence_bps - c.confidence_bps <= margin`, the subtrahend moved over.
abbrev pub is_close : ℕ → EventMatchCandidate → EventMatchCandidate → Bool
is_close margin best c = leb best.confidence_bps (margin + c.confidence_bps)

abbrev pub is_eligible : EventMatchConfig → EventMatchCandidate → Bool
is_eligible config c = leb config.minimum_confidence_bps c.confidence_bps

-- The end of `_match_uncached`, from the best eligible candidate and the ambiguous ones.
unfoldable pub choose :
    EventMatchCandidate
    → List EventMatchCandidate
    → List EventMatchCandidate
    → List EventMatchDiagnostic
    → EventMatchDecision
choose best [] others diagnostics = record {
  status = EventMatchStatus.matched;
  matched_event_id = some best.event_id;
  confidence_bps = some best.confidence_bps;
  candidates = best ∷ others;
  diagnostics = diagnostics ++ diagnostic EventMatchReason.matched best.event_id ∷ [];
}
choose best (c ∷ cs) others diagnostics = record {
  status = EventMatchStatus.ambiguous;
  matched_event_id = none;
  confidence_bps = none;
  candidates = best ∷ c ∷ cs;
  diagnostics =
      diagnostics
      ++ record { reason = EventMatchReason.ambiguous_candidates; candidate_event_id = none } ∷ [];
}

-- The same, from the sorted candidates and the eligible ones among them.
unfoldable pub decide :
    EventMatchConfig
    → (sorted eligible : List EventMatchCandidate) → List EventMatchDiagnostic
    → EventMatchDecision
unfolding choose
decide config sorted [] diagnostics = record {
  status = EventMatchStatus.rejected;
  matched_event_id = none;
  confidence_bps = none;
  candidates = sorted;
  diagnostics =
      diagnostics
      ++ map (λ c. diagnostic EventMatchReason.below_confidence_threshold c.event_id) sorted;
}
decide config sorted (best ∷ others) diagnostics =
    choose best (keep (is_close config.ambiguity_margin_bps best) others) others diagnostics

abbrev pub remember : EventMatcher → Dict NormalizedEventEvidence EventMatchDecision → EventMatcher
remember m cache = record m { decision_cache = cache }

-- `while len(cache) > capacity: cache.popitem(last=False)`
unfoldable pub trim :
    ℕ
    → Dict NormalizedEventEvidence EventMatchDecision
    → Dict NormalizedEventEvidence EventMatchDecision
trim capacity [] = []
trim capacity (p ∷ d) =
    let rest = trim capacity d in if leb (length (p ∷ d)) capacity then p ∷ d else rest

-- `cache[v] = d; cache.move_to_end(v)`
unfoldable pub put_last :
    NormalizedEventEvidence
    → EventMatchDecision
    → Dict NormalizedEventEvidence EventMatchDecision
    → Dict NormalizedEventEvidence EventMatchDecision
unfolding erase
put_last v d cache = erase v cache ++ (v, d) ∷ []

-- `candidates.append(candidate)`, if there is one.
abbrev pub with_candidate : Evaluated → List EventMatchCandidate → List EventMatchCandidate
with_candidate (candidate c) rest = c ∷ rest
with_candidate (refused _) rest = rest

-- `diagnostics.append(rejected)`, if there is one.
abbrev pub with_rejection : ℕ → Evaluated → List EventMatchDiagnostic → List EventMatchDiagnostic
with_rejection event_id (candidate _) rest = rest
with_rejection event_id (refused reason) rest = diagnostic reason event_id ∷ rest

module _ (casefold : ℕ → ℕ) where
  -- `_evaluate_candidate` on an event, with its metadata.
  unfoldable pub evaluate : EventMatcher → NormalizedEventEvidence → Event → Evaluated
  unfolding index_get evaluate_candidate
  evaluate m v e =
      evaluate_candidate casefold m.config v e (index_get (λ x. x.event_id) m.metadata e.id)

  -- The loop of `_match_uncached`: the candidates, and the diagnostics of the other events.
  unfoldable pub survivors :
      EventMatcher → NormalizedEventEvidence → List Event → List EventMatchCandidate
  unfolding evaluate
  survivors m v [] = []
  survivors m v (e ∷ es) = let rest = survivors m v es in with_candidate (evaluate m v e) rest

  unfoldable pub rejections :
      EventMatcher → NormalizedEventEvidence → List Event → List EventMatchDiagnostic
  unfolding evaluate
  rejections m v [] = []
  rejections m v (e ∷ es) =
      let rest = rejections m v es in with_rejection e.id (evaluate m v e) rest

  unfoldable pub sorted_candidates :
      EventMatcher → NormalizedEventEvidence → List EventMatchCandidate
  unfolding survivors candidate_events sort_by
  sorted_candidates m v = sort_by candidate_key (survivors m v (candidate_events m v))

  -- `EventMatcher._match_uncached`
  unfoldable pub match_uncached : EventMatcher → NormalizedEventEvidence → EventMatchDecision
  unfolding sorted_candidates decide rejections filter_diagnostics
  match_uncached m v =
      let sorted = sorted_candidates m v in
      decide m.config sorted (keep (is_eligible m.config) sorted)
        (filter_diagnostics m v ++ rejections m v (candidate_events m v))

  -- `match` with a cache, from what it holds for the evidence.
  unfoldable pub match_from :
      EventMatcher
      → NormalizedEventEvidence
      → Option EventMatchDecision
      → EventMatcher × EventMatchDecision
  unfolding match_uncached trim put_last
  match_from m v (some cached) = (remember m (put_last v cached m.decision_cache), cached)
  match_from m v none =
      let decision = match_uncached m v in
      (remember m (trim m.cache_capacity (put_last v decision m.decision_cache)), decision)

  -- `EventMatcher.match`
  unfoldable pub match : EventMatcher → NormalizedEventEvidence → EventMatcher × EventMatchDecision
  unfolding match_uncached match_from lookup
  match m v =
      if ltb 0 m.cache_capacity
      then match_from m v (lookup v m.decision_cache)
      else (m, match_uncached m v)
