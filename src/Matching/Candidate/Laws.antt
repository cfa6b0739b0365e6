-- ===== src/Matching/Candidate/Laws.antt =====
-- matching/event_matcher.py: which events survive `_evaluate_candidate`, and how sure it is of them.
use arbiscan_arbitrage_scann.Prelude.{
  lists_eqb_iff, nat_eq, All, [], ◌∷◌, ℕ, ◌≤◌, ◌≡◌, ◌↔◌, refl, arith, Bool, Option, none, some,
  true, false, same_set, ltb, List, ◌⊎◌,
}
use arbiscan_arbitrage_scann.Domain.Entities.{Event, participant_ids}
use arbiscan_arbitrage_scann.Matching.Candidate.{
  lists_eqb_iff, sport_eqb_iff, first_reason, identity_guards, metadata_guards,
  NormalizedEventEvidence, ParticipantOrderPolicy, EventMatchConfig, CanonicalEventMatchMetadata,
  EventMatchCandidate, EventMatchReason, Evaluated, candidate, evaluate_candidate, distance,
  tolerance_of, has_reference, has_exact_reference, conflicts, confidence_of, metadata_score,
}

first_reason-eq-candidate :
    (guards : List (Bool × EventMatchReason)) (rest : Evaluated) (c : EventMatchCandidate)
    → first_reason guards rest ≡ candidate c
    → All (λ g. g.0 ≡ false) guards × (rest ≡ candidate c)
first_reason-eq-candidate [] rest c h = (tt, h)
first_reason-eq-candidate ((true, reason) ∷ guards) rest c h = cc
first_reason-eq-candidate ((false, reason) ∷ guards) rest c h =
    let (passed, made) = first_reason-eq-candidate guards rest c h in ((refl, passed), made)

first_reason-passed :
    (guards : List (Bool × EventMatchReason)) (rest : Evaluated)
    → All (λ g. g.0 ≡ false) guards
    → first_reason guards rest ≡ rest
first_reason-passed [] rest h = refl
first_reason-passed ((test, reason) ∷ guards) rest h = rw h.0 (first_reason-passed guards rest h.1)

-- A candidate has a confidence from 7000 to 10000 basis points.
pub confidence_of-bounds :
    (delta tolerance metadata : ℕ) (exact : Bool)
    → (7000 ≤ confidence_of delta tolerance metadata exact)
      × (confidence_of delta tolerance metadata exact ≤ 10000)
unfolding confidence_of
confidence_of-bounds delta tolerance metadata exact = (ground arith, ground arith)

identity-IsCompatible :
    (v : NormalizedEventEvidence) (e : Event)
    → All (λ g. g.0 ≡ false) (identity_guards v e)
    → (e.sport ≡ v.sport)
      × (e.competition.id ≡ v.competition_id)
      × (same_set (participant_ids e) v.participant_ids ≡ true)
      × ((v.order_policy ≡ ParticipantOrderPolicy.unordered)
          ⊎ (participant_ids e ≡ v.participant_ids))
      × ((has_reference v e ≡ false) ⊎ (has_exact_reference v e ≡ true))
unfolding identity_guards
identity-IsCompatible v e g = (
  ground (arith, sport_eqb_iff e.sport v.sport),
  ground arith,
  ground arith,
  ground (arith, lists_eqb_iff (participant_ids e) v.participant_ids),
  ground arith,
)

-- The candidate that an event makes.
abbrev pub candidate_of :
    EventMatchConfig
    → NormalizedEventEvidence
    → Event
    → Option CanonicalEventMatchMetadata
    → EventMatchCandidate
candidate_of config v e metadata =
    let exact = has_exact_reference v e in
    let delta = distance e.scheduled_start v.scheduled_start in
    record {
      event_id = e.id;
      confidence_bps =
          confidence_of delta (tolerance_of config exact) (metadata_score v metadata) exact;
      start_delta = delta;
      explicit_provider_reference = exact;
    }

module _ (casefold : ℕ → ℕ) where
  -- No text that both have conflicts.
  abbrev pub Agrees : NormalizedEventEvidence → Option CanonicalEventMatchMetadata → Type 0
  Agrees v none = Unit
  Agrees v (some m) =
      (conflicts casefold v.round_or_stage m.round_or_stage ≡ false)
      × (conflicts casefold v.venue m.venue ≡ false)

  -- What an event and the evidence have to share.
  pub record IsCompatible (config : EventMatchConfig) (v : NormalizedEventEvidence) (e : Event)
      (metadata : Option CanonicalEventMatchMetadata) : Type 0 where
    pub sport : e.sport ≡ v.sport
    pub competition : e.competition.id ≡ v.competition_id
    pub participants : same_set (participant_ids e) v.participant_ids ≡ true
    pub order :
        (v.order_policy ≡ ParticipantOrderPolicy.unordered)
        ⊎ (participant_ids e ≡ v.participant_ids)
    pub reference : (has_reference v e ≡ false) ⊎ (has_exact_reference v e ≡ true)
    pub start :
        distance e.scheduled_start v.scheduled_start ≤ tolerance_of config (has_exact_reference v e)
    pub texts : Agrees v metadata

  metadata-Agrees :
      (v : NormalizedEventEvidence) (metadata : Option CanonicalEventMatchMetadata)
      → All (λ g. g.0 ≡ false) (metadata_guards casefold v metadata)
      → Agrees v metadata
  unfolding metadata_guards
  metadata-Agrees v none g = tt
  metadata-Agrees v (some m) g = (g.0, g.1.0)

  identity-passes :
      (config : EventMatchConfig) (v : NormalizedEventEvidence) (e : Event)
      (metadata : Option CanonicalEventMatchMetadata)
      → IsCompatible config v e metadata
      → All (λ g. g.0 ≡ false) (identity_guards v e)
  unfolding identity_guards
  identity-passes config v e metadata h =
      let sport = h.sport in
      let competition = h.competition in
      let participants = h.participants in
      let order = h.order in
      let reference = h.reference in
      (
        ground (arith, sport_eqb_iff e.sport v.sport),
        (
          ground arith,
          (
            ground arith,
            (
              ground (arith, lists_eqb_iff (participant_ids e) v.participant_ids),
              (ground arith, tt),
            ),
          ),
        ),
      )

  metadata-passes :
      (v : NormalizedEventEvidence) (metadata : Option CanonicalEventMatchMetadata)
      → Agrees v metadata
      → All (λ g. g.0 ≡ false) (metadata_guards casefold v metadata)
  unfolding metadata_guards
  metadata-passes v none a = tt
  metadata-passes v (some m) a = (a.0, (a.1, tt))

  -- An event survives as a candidate if and only if it is compatible with the evidence: the sport,
  -- the competition and the set of participants are the same, their order too where it matters, no
  -- other reference of the provider stands on the event, the starts are no further apart than the
  -- tolerance, and no text of the metadata conflicts. The candidate is then the one of that event.
  pub evaluate_candidate_iff :
      (config : EventMatchConfig) (v : NormalizedEventEvidence) (e : Event)
      (metadata : Option CanonicalEventMatchMetadata) (c : EventMatchCandidate)
      → (evaluate_candidate casefold config v e metadata ≡ candidate c)
        ↔ (IsCompatible config v e metadata × (c ≡ candidate_of config v e metadata))
  unfolding evaluate_candidate
  evaluate_candidate_iff config v e metadata c = (
    λ h.
        let (identity, inner) = first_reason-eq-candidate (identity_guards v e) _ c h in
        let (rest, made) =
          first_reason-eq-candidate
            ((
              ltb (tolerance_of config (has_exact_reference v e))
                  (distance e.scheduled_start v.scheduled_start),
              EventMatchReason.start_time_outside_tolerance,
            )
              ∷ metadata_guards casefold v metadata)
            (candidate (candidate_of config v e metadata)) c inner in
        let shared = identity-IsCompatible v e identity in
        (
          record {
            sport = shared.0;
            competition = shared.1;
            participants = shared.2;
            order = shared.3;
            reference = shared.4;
            start = ground (arith, rest.0);
            texts = metadata-Agrees v metadata rest.1;
          },
          cc,
        ),
    λ h.
        rw
          (
            first_reason-passed (identity_guards v e) _ (identity-passes config v e metadata h.0),
            first_reason-passed
                ((
                  ltb (tolerance_of config (has_exact_reference v e))
                      (distance e.scheduled_start v.scheduled_start),
                  EventMatchReason.start_time_outside_tolerance,
                )
                  ∷ metadata_guards casefold v metadata)
                _ (ground (arith, h.0.start), metadata-passes v metadata h.0.texts),
            h.1,
          )
          refl,
  )
