-- ===== src/Matching/Decision/Filter.antt =====
-- matching/event_matcher.py: `exhaustive_diagnostics` adds diagnostics, and decides nothing.
use arbiscan_arbitrage_scann.Prelude.{
  ℕ, ◌≡◌, refl, sym, ap, arith, Bool, true, false, ◌&&◌, Option, List, [], ◌∷◌, keep, nat_beq,
  nat_eq, same_set, Bool-cases, inl, inr, ◌∙◌, if◌then◌else◌,
}
use arbiscan_arbitrage_scann.Prelude.Sort.{sort_by}
use arbiscan_arbitrage_scann.Domain.Entities.{Event, sport_eqb, participant_ids}
use arbiscan_arbitrage_scann.Matching.Registry.Index.{event_match_candidates-eq-keep}
use arbiscan_arbitrage_scann.Matching.Candidate.{
  NormalizedEventEvidence, CanonicalEventMatchMetadata, EventMatchConfig, EventMatchCandidate,
  EventMatchDiagnostic, EventMatchDecision, EventMatchStatus, evaluate_candidate, identity_guards,
}
use arbiscan_arbitrage_scann.Matching.Decision.{
  EventMatcher, candidate_events, survivors, evaluate, with_candidate, sorted_candidates,
  match_uncached, decide, choose, candidate_key,
}

-- The hard filters of the index.
abbrev shares : NormalizedEventEvidence → Event → Bool
shares v e =
    sport_eqb e.sport v.sport
    && nat_beq e.competition.id v.competition_id
    && same_set (participant_ids e) v.participant_ids

-- `EventMatchDecision` without its diagnostics.
abbrev pub outcome :
    EventMatchDecision → EventMatchStatus × Option ℕ × Option ℕ × List EventMatchCandidate
outcome d = (d.status, d.matched_event_id, d.confidence_bps, d.candidates)

choose-outcome :
    (best : EventMatchCandidate) (close others : List EventMatchCandidate)
    (ds ds' : List EventMatchDiagnostic)
    → outcome (choose best close others ds) ≡ outcome (choose best close others ds')
unfolding choose
choose-outcome best [] others ds ds' = refl
choose-outcome best (c ∷ cs) others ds ds' = refl

decide-outcome :
    (config : EventMatchConfig) (sorted eligible : List EventMatchCandidate)
    (ds ds' : List EventMatchDiagnostic)
    → outcome (decide config sorted eligible ds) ≡ outcome (decide config sorted eligible ds')
unfolding decide
decide-outcome config sorted [] ds ds' = refl
decide-outcome config sorted (best ∷ others) ds ds' = choose-outcome best _ others ds ds'

module _ (casefold : ℕ → ℕ) where
  evaluate_candidate-refused :
      (config : EventMatchConfig) (v : NormalizedEventEvidence) (e : Event)
      (metadata : Option CanonicalEventMatchMetadata) (rest : List EventMatchCandidate)
      → shares v e ≡ false
      → with_candidate (evaluate_candidate casefold config v e metadata) rest ≡ rest
  unfolding evaluate_candidate identity_guards
  evaluate_candidate-refused config v e metadata rest h = ground arith

  survivors-keep :
      (m : EventMatcher) (v : NormalizedEventEvidence) (es : List Event)
      → survivors casefold m v (keep (shares v) es) ≡ survivors casefold m v es
  unfolding survivors
  survivors-keep m v [] = refl
  survivors-keep m v (e ∷ es) = elim (Bool-cases (shares v e)) [
    | inl h ↦ rw h (ap (with_candidate (evaluate casefold m v e)) (survivors-keep m v es))
    | inr h ↦ rw h (
        survivors-keep m v es
        ∙ sym (evaluate_candidate-refused m.config v e _ (survivors casefold m v es) h))
  ]

  survivors-if :
      (m : EventMatcher) (v : NormalizedEventEvidence) (flag : Bool) (es indexed : List Event)
      → survivors casefold m v indexed ≡ survivors casefold m v es
      → survivors casefold m v (if flag then es else indexed) ≡ survivors casefold m v es
  survivors-if m v true es indexed h = refl
  survivors-if m v false es indexed h = h

  -- The same candidates survive of the indexed events as of all events.
  survivors-candidate_events :
      (m : EventMatcher) (v : NormalizedEventEvidence)
      → survivors casefold m v (candidate_events m v) ≡ survivors casefold m v m.registry.events
  unfolding candidate_events
  survivors-candidate_events m v = survivors-if m v m.exhaustive_diagnostics m.registry.events _ (
      ap (survivors casefold m v)
        (event_match_candidates-eq-keep m.registry v.sport v.competition_id v.participant_ids)
      ∙ survivors-keep m v m.registry.events)

  survivors-flag :
      (m : EventMatcher) (v : NormalizedEventEvidence) (flag : Bool) (es : List Event)
      → survivors casefold (record m { exhaustive_diagnostics = flag }) v es
        ≡ survivors casefold m v es
  unfolding survivors
  survivors-flag m v flag [] = refl
  survivors-flag m v flag (e ∷ es) =
      ap (with_candidate (evaluate casefold m v e)) (survivors-flag m v flag es)

  sorted_candidates-flag :
      (m : EventMatcher) (v : NormalizedEventEvidence) (flag : Bool)
      → sorted_candidates casefold (record m { exhaustive_diagnostics = flag }) v
        ≡ sorted_candidates casefold m v
  unfolding sorted_candidates
  sorted_candidates-flag m v flag = ap (sort_by candidate_key) (
      survivors-candidate_events (record m { exhaustive_diagnostics = flag }) v
      ∙ survivors-flag m v flag m.registry.events
      ∙ sym (survivors-candidate_events m v))

  -- A matcher that looks up events in the index of the registry and one that tries every event of it,
  -- alike in all else, come to the same status, matched event, confidence and candidates.
  pub exhaustive_diagnostics_transparent :
      (m : EventMatcher) (v : NormalizedEventEvidence) (flag : Bool)
      → outcome (match_uncached casefold (record m { exhaustive_diagnostics = flag }) v)
        ≡ outcome (match_uncached casefold m v)
  unfolding match_uncached
  exhaustive_diagnostics_transparent m v flag =
      rw (sorted_candidates-flag m v flag)
        (decide-outcome m.config (sorted_candidates casefold m v) _ _ _)
