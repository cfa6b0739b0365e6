-- ===== src/Matching/Decision/Valid.antt =====
-- matching/event_matcher.py: no decision is refused by `EventMatchDecision.__post_init__`.
use arbiscan_arbitrage_scann.Prelude.{
  ℕ, ◌≤◌, ◌≡◌, refl, sym, subst, arith, some, List, [], ◌∷◌, keep-All_of, All,
}
use arbiscan_arbitrage_scann.Prelude.Sort.{sort_by-All}
use arbiscan_arbitrage_scann.Domain.Entities.{Event}
use arbiscan_arbitrage_scann.Matching.Candidate.{
  NormalizedEventEvidence, EventMatchConfig, EventMatchCandidate, EventMatchDiagnostic, Evaluated,
  candidate, refused,
}
use arbiscan_arbitrage_scann.Matching.Candidate.Laws.{evaluate_candidate_iff, confidence_of-bounds}
use arbiscan_arbitrage_scann.Matching.Decision.{
  EventMatcher, candidate_events, survivors, with_candidate, evaluate, sorted_candidates,
  match_uncached, decide, choose, validate_decision, is_eligible, candidate_key,
}

abbrev IsSure : EventMatchCandidate → Type 0
IsSure c = (7000 ≤ c.confidence_bps) × (c.confidence_bps ≤ 10000)

with_candidate-All :
    (x : Evaluated) (cs : List EventMatchCandidate)
    → ((c : EventMatchCandidate) → x ≡ candidate c → IsSure c)
    → All IsSure cs
    → All IsSure (with_candidate x cs)
with_candidate-All (candidate c) cs f h = (f c refl, h)
with_candidate-All (refused reason) cs f h = h

choose-valid :
    (best : EventMatchCandidate) (close others : List EventMatchCandidate)
    (ds : List EventMatchDiagnostic)
    → IsSure best
    → let d = choose best close others ds in validate_decision d ≡ some d
unfolding choose validate_decision
choose-valid best [] others ds h = ground (arith, h)
choose-valid best (c ∷ cs) others ds h = refl

decide-valid :
    (config : EventMatchConfig) (sorted eligible : List EventMatchCandidate)
    (ds : List EventMatchDiagnostic)
    → All IsSure eligible
    → let d = decide config sorted eligible ds in validate_decision d ≡ some d
unfolding decide validate_decision
decide-valid config sorted [] ds h = refl
decide-valid config sorted (best ∷ others) ds h = choose-valid best _ others ds h.0

module _ (casefold : ℕ → ℕ) where
  evaluate-IsSure :
      (m : EventMatcher) (v : NormalizedEventEvidence) (e : Event) (c : EventMatchCandidate)
      → evaluate casefold m v e ≡ candidate c
      → IsSure c
  unfolding evaluate
  evaluate-IsSure m v e c h =
      let made = ((evaluate_candidate_iff casefold m.config v e _ c).0 h).1 in
      subst IsSure (sym made) (confidence_of-bounds _ _ _ _)

  survivors-All :
      (m : EventMatcher) (v : NormalizedEventEvidence) (es : List Event)
      → All IsSure (survivors casefold m v es)
  unfolding survivors
  survivors-All m v [] = tt
  survivors-All m v (e ∷ es) =
      with_candidate-All (evaluate casefold m v e) (survivors casefold m v es)
        (evaluate-IsSure m v e) (survivors-All m v es)

  -- The decision that the matcher builds passes the checks of its class: a match names an event, with
  -- a confidence of at most 10000, and nothing else names one.
  pub match_uncached_valid :
      (m : EventMatcher) (v : NormalizedEventEvidence)
      → let d = match_uncached casefold m v in validate_decision d ≡ some d
  unfolding match_uncached sorted_candidates
  match_uncached_valid m v = decide-valid m.config _ _ _ (
      keep-All_of IsSure (is_eligible m.config) _
        (sort_by-All candidate_key IsSure _ (survivors-All m v (candidate_events m v))))
