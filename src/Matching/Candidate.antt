-- ===== src/Matching/Candidate.antt =====
-- matching/event_matcher.py: how EventMatcher weighs one canonical event, with the models of
-- matching/models.py. The evidence notes and the details are texts that nothing reads. `casefold` is
-- the folding of texts by `_comparison_key`, which rests on Python's tables of characters.
pub mod Laws
use arbiscan_arbitrage_scann.Prelude.{
  lists_eqb, lists_eqb_iff, ℕ, ◌+◌, ◌-◌, ◌*◌, ◌/◌, Bool, true, false, not, ◌&&◌, ◌||◌, ◌≡◌, refl,
  Option, none, some, List, [], ◌∷◌, ◌++◌, map, any, keep, length, ltb, leb, nat_beq, nat_eq,
  all_distinct, same_set, is_none, checked, if◌then◌else◌, ◌↔◌, arith, Eq, ◌==◌, option_eq,
  option_beq_iff,
}
use Prim.Native.Nat.{min}
use arbiscan_arbitrage_scann.Prelude.Sort.{sort_by}
use arbiscan_arbitrage_scann.Domain.Entities.{Sport, sport_eqb, Event, participant_ids}
use arbiscan_arbitrage_scann.Matching.Registry.{
  CanonicalRegistry, events_for_sport, events_for_competition, event_match_candidates,
}

pub data ParticipantOrderPolicy : Type 0 where
  ordered unordered : ParticipantOrderPolicy

pub data EventMatchStatus : Type 0 where
  matched ambiguous rejected : EventMatchStatus

pub data EventMatchReason : Type 0 where
  source_competition_mismatch unresolved_competition ambiguous_competition : EventMatchReason
  unresolved_participant ambiguous_participant : EventMatchReason
  sport_mismatch competition_mismatch participant_mismatch : EventMatchReason
  participant_order_mismatch start_time_outside_tolerance stage_mismatch : EventMatchReason
  venue_mismatch provider_reference_conflict below_confidence_threshold : EventMatchReason
  ambiguous_candidates matched : EventMatchReason

pub record EventMatchConfig : Type 0 where
  pub start_time_tolerance : ℕ
  pub referenced_start_time_tolerance : ℕ
  pub minimum_confidence_bps : ℕ
  pub ambiguity_margin_bps : ℕ

-- `EventMatchConfig.__post_init__`; `none` is the raised ValueError, here and below.
unfoldable pub validate_config : EventMatchConfig → Option EventMatchConfig
validate_config c =
    checked
      (leb c.start_time_tolerance 0
        ∷ ltb c.referenced_start_time_tolerance c.start_time_tolerance
        ∷ ltb 10000 c.minimum_confidence_bps
        ∷ ltb 10000 c.ambiguity_margin_bps
        ∷ [])
      c

pub record NormalizedEventEvidence : Type 0 where
  pub provider_id : ℕ
  pub external_event_id : ℕ
  pub sport : Sport
  pub competition_id : ℕ
  pub participant_ids : List ℕ
  pub scheduled_start : ℕ
  pub order_policy : ParticipantOrderPolicy
  pub round_or_stage : Option ℕ
  pub venue : Option ℕ

-- `NormalizedEventEvidence.__post_init__`
unfoldable pub validate_evidence : NormalizedEventEvidence → Option NormalizedEventEvidence
validate_evidence v =
    checked (ltb (length v.participant_ids) 1 ∷ not (all_distinct v.participant_ids) ∷ []) v

abbrev pub is_ordered : ParticipantOrderPolicy → Bool
is_ordered ParticipantOrderPolicy.ordered = true
is_ordered ParticipantOrderPolicy.unordered = false

abbrev pub policy_eqb : (a b : ParticipantOrderPolicy) → Bool
policy_eqb ParticipantOrderPolicy.ordered b = is_ordered b
policy_eqb ParticipantOrderPolicy.unordered b = not (is_ordered b)

pub sport_eqb_iff : (a b : Sport) → (sport_eqb a b ≡ true) ↔ (a ≡ b)
sport_eqb_iff a b = (λ h. ground arith, λ h. ground arith)

-- `==` on the frozen dataclass, by which the cache finds a decision.
abbrev pub evidence_eqb : (a b : NormalizedEventEvidence) → Bool
evidence_eqb a b =
    nat_beq a.provider_id b.provider_id
    && nat_beq a.external_event_id b.external_event_id
    && sport_eqb a.sport b.sport
    && nat_beq a.competition_id b.competition_id
    && lists_eqb a.participant_ids b.participant_ids
    && nat_beq a.scheduled_start b.scheduled_start
    && policy_eqb a.order_policy b.order_policy
    && a.round_or_stage == b.round_or_stage
    && a.venue == b.venue

pub evidence_eqb_iff : (a b : NormalizedEventEvidence) → (evidence_eqb a b ≡ true) ↔ (a ≡ b)
evidence_eqb_iff a b = (
  λ h. ground (arith, lists_eqb_iff a.participant_ids b.participant_ids),
  λ h. ground (arith, lists_eqb_iff a.participant_ids b.participant_ids),
)

instance abbrev pub evidence_eq : Eq NormalizedEventEvidence
evidence_eq = record { same = evidence_eqb; same_iff = evidence_eqb_iff }

pub record CanonicalEventMatchMetadata : Type 0 where
  pub event_id : ℕ
  pub round_or_stage : Option ℕ
  pub venue : Option ℕ

pub record EventMatchCandidate : Type 0 where
  pub event_id : ℕ
  pub confidence_bps : ℕ
  pub start_delta : ℕ
  pub explicit_provider_reference : Bool

pub record EventMatchDiagnostic : Type 0 where
  pub reason : EventMatchReason
  pub candidate_event_id : Option ℕ

pub record EventMatchDecision : Type 0 where
  pub status : EventMatchStatus
  pub matched_event_id : Option ℕ
  pub confidence_bps : Option ℕ
  pub candidates : List EventMatchCandidate
  pub diagnostics : List EventMatchDiagnostic

-- `_time_score`
unfoldable pub time_score : ℕ → ℕ → ℕ
time_score delta tolerance = 2000 * (tolerance - min delta tolerance) / tolerance

-- `abs(a - b)` on timestamps.
abbrev pub distance : ℕ → ℕ → ℕ
distance a b = (a - b) + (b - a)

-- A candidate, or the diagnostic of its rejection.
pub data Evaluated : Type 0 where
  candidate : EventMatchCandidate → Evaluated
  refused : EventMatchReason → Evaluated

-- `references` is not empty, and `exact_reference`.
unfoldable pub has_reference : NormalizedEventEvidence → Event → Bool
has_reference v e = any (λ r. nat_beq r.provider_id v.provider_id) e.provider_references

unfoldable pub has_exact_reference : NormalizedEventEvidence → Event → Bool
has_exact_reference v e =
    any
      (λ r. nat_beq r.provider_id v.provider_id && nat_beq r.external_event_id v.external_event_id)
      e.provider_references

-- The tests of `_evaluate_candidate` up to the start time, with the reason of each.
unfoldable pub identity_guards : NormalizedEventEvidence → Event → List (Bool × EventMatchReason)
unfolding has_reference has_exact_reference
identity_guards v e =
    (not (sport_eqb e.sport v.sport), EventMatchReason.sport_mismatch)
    ∷ (not (nat_beq e.competition.id v.competition_id), EventMatchReason.competition_mismatch)
    ∷ (not (same_set (participant_ids e) v.participant_ids), EventMatchReason.participant_mismatch)
    ∷ (
      is_ordered v.order_policy && not (lists_eqb (participant_ids e) v.participant_ids),
      EventMatchReason.participant_order_mismatch,
    )
    ∷ (
      has_reference v e && not (has_exact_reference v e),
      EventMatchReason.provider_reference_conflict,
    )
    ∷ []

unfoldable pub tolerance_of : EventMatchConfig → Bool → ℕ
tolerance_of config exact =
    if exact then config.referenced_start_time_tolerance else config.start_time_tolerance

abbrev pub first_reason : List (Bool × EventMatchReason) → Evaluated → Evaluated
first_reason [] rest = rest
first_reason ((test, reason) ∷ guards) rest =
    if test then refused reason else first_reason guards rest

-- The score of a text which both have, once they do not conflict.
abbrev pub score_if_both : ℕ → Option ℕ → Option ℕ → ℕ
score_if_both score (some a) (some b) = score
score_if_both score _ _ = 0

unfoldable pub metadata_score : NormalizedEventEvidence → Option CanonicalEventMatchMetadata → ℕ
metadata_score v none = 0
metadata_score v (some m) =
    score_if_both 400 v.round_or_stage m.round_or_stage + score_if_both 300 v.venue m.venue

unfoldable pub confidence_of : ℕ → ℕ → ℕ → Bool → ℕ
unfolding time_score
confidence_of delta tolerance metadata exact =
    min
      (500
        + 1500
        + 4500
        + 500
        + time_score delta tolerance
        + metadata
        + (if exact then 1000 else 0))
      10000

module _ (casefold : ℕ → ℕ) where
  -- Both texts are there, and their comparison keys differ.
  unfoldable pub conflicts : Option ℕ → Option ℕ → Bool
  conflicts (some a) (some b) = not (nat_beq (casefold a) (casefold b))
  conflicts _ _ = false

  unfoldable pub metadata_guards :
      NormalizedEventEvidence → Option CanonicalEventMatchMetadata → List (Bool × EventMatchReason)
  unfolding conflicts
  metadata_guards v none = []
  metadata_guards v (some m) =
      (conflicts v.round_or_stage m.round_or_stage, EventMatchReason.stage_mismatch)
      ∷ (conflicts v.venue m.venue, EventMatchReason.venue_mismatch)
      ∷ []

  -- `EventMatcher._evaluate_candidate`
  unfoldable pub evaluate_candidate :
      EventMatchConfig
      → NormalizedEventEvidence
      → Event
      → Option CanonicalEventMatchMetadata
      → Evaluated
  unfolding identity_guards metadata_guards metadata_score confidence_of tolerance_of
      has_exact_reference
  evaluate_candidate config v e metadata =
      let exact = has_exact_reference v e in
      let delta = distance e.scheduled_start v.scheduled_start in
      let tolerance = tolerance_of config exact in
      first_reason (identity_guards v e) (
        first_reason
          ((ltb tolerance delta, EventMatchReason.start_time_outside_tolerance)
            ∷ metadata_guards v metadata)
          (candidate (record {
            event_id = e.id;
            confidence_bps = confidence_of delta tolerance (metadata_score v metadata) exact;
            start_delta = delta;
            explicit_provider_reference = exact;
          })))
