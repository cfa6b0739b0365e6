-- ===== src/Matching/Registry/Index.antt =====
-- matching/catalog.py: the dicts of CanonicalRegistry against a search of its tuples.
use arbiscan_arbitrage_scann.Prelude.{
  ℕ, ◌&&◌, ◌≡◌, arith, List, [], keep, nat_beq, nat_eq, same_set,
}
use arbiscan_arbitrage_scann.Prelude.Groups.{
  IsCongruent, group_at, group_at-group_into, same_set-IsCongruent,
}
use arbiscan_arbitrage_scann.Domain.Entities.{Sport, sport_eqb, participant_ids}
use arbiscan_arbitrage_scann.Matching.Registry.{
  CanonicalRegistry, same_match_key, match_key, event_match_candidates,
}

sets-IsCongruent : IsCongruent (same_set {A = ℕ})
sets-IsCongruent = same_set-IsCongruent

same_match_key-IsCongruent : IsCongruent same_match_key
same_match_key-IsCongruent = record {
  left =
      λ a b c h. ground (arith, sets-IsCongruent.left a.participants b.participants c.participants);
  right = λ a b c h.
      ground (arith, sets-IsCongruent.right a.participants b.participants c.participants);
}

-- The index of events by sport, competition and participants answers as a search of the registry
-- does: the events, in registry order, of that sport and competition whose participants are that set.
pub event_match_candidates-eq-keep :
    (r : CanonicalRegistry) (sport : Sport) (competition_id : ℕ) (participants : List ℕ)
    → event_match_candidates r sport competition_id participants
      ≡ keep
          (λ e.
            sport_eqb e.sport sport
            && nat_beq e.competition.id competition_id
            && same_set (participant_ids e) participants)
          r.events
unfolding event_match_candidates group_at
event_match_candidates-eq-keep r sport competition_id participants =
    group_at-group_into same_match_key match_key same_match_key-IsCongruent _ [] r.events
