-- ===== src/Matching/Decision/Cache.antt =====
-- matching/event_matcher.py: the cache of decisions in `EventMatcher.match`.
use arbiscan_arbitrage_scann.Prelude.{
  ℕ, ◌≤◌, ◌≡◌, refl, sym, ap, arith, some, List, [], ◌∷◌, map, length, length-append, All, All-map,
  All-append, ltb, leb, Bool-cases, Option-cases, inl, inr, ◌∙◌,
}
use arbiscan_arbitrage_scann.Prelude.Dict.{
  Dict, lookup, lookup-All, erase, erase-All, length-erase_known,
}
use arbiscan_arbitrage_scann.Domain.Entities.{Event}
use arbiscan_arbitrage_scann.Matching.Candidate.{
  NormalizedEventEvidence, evidence_eq, EventMatchDecision,
}
use arbiscan_arbitrage_scann.Matching.Decision.{
  EventMatcher, match_uncached, trim, put_last, match, match_from, remember, survivors, rejections,
  with_candidate, with_rejection, evaluate, candidate_events, sorted_candidates,
}

module _ (casefold : ℕ → ℕ) where
  -- A cached decision is the one that the matcher would come to.
  abbrev IsCached : EventMatcher → NormalizedEventEvidence × EventMatchDecision → Type 0
  IsCached m p = p.1 ≡ match_uncached casefold m p.0

  record IsValidCache (m : EventMatcher) (cache : Dict NormalizedEventEvidence EventMatchDecision)
      : Type 0 where
    right : All (IsCached m) cache
    bounded : length cache ≤ m.cache_capacity

  -- The matcher after a call on the evidence, and its answer.
  record IsAnswer (m : EventMatcher) (v : NormalizedEventEvidence)
      (r : EventMatcher × EventMatchDecision) : Type 0 where
    cache : Dict NormalizedEventEvidence EventMatchDecision
    only_cache : r.0 ≡ remember m cache
    valid : IsValidCache m cache
    answer : r.1 ≡ match_uncached casefold m v

  trim-All :
      (P : NormalizedEventEvidence × EventMatchDecision → Type 0) (capacity : ℕ)
      (d : Dict NormalizedEventEvidence EventMatchDecision)
      → All P d
      → All P (trim capacity d)
  unfolding trim
  trim-All P capacity [] h = tt
  trim-All P capacity (p ∷ d) h = elim (Bool-cases (leb (length (p ∷ d)) capacity)) [
    | inl e ↦ rw e h
    | inr e ↦ rw e (trim-All P capacity d h.1)
  ]

  trim-length :
      (capacity : ℕ) (d : Dict NormalizedEventEvidence EventMatchDecision)
      → length (trim capacity d) ≤ capacity
  unfolding trim
  trim-length capacity [] = omega arith
  trim-length capacity (p ∷ d) = ground (arith, trim-length capacity d)

  put_last-All :
      (P : NormalizedEventEvidence × EventMatchDecision → Type 0) (v : NormalizedEventEvidence)
      (d : EventMatchDecision) (cache : Dict NormalizedEventEvidence EventMatchDecision)
      → P (v, d)
      → All P cache
      → All P (put_last v d cache)
  unfolding put_last
  put_last-All P v d cache p h =
      All-append P (erase v cache) ((v, d) ∷ []) (erase-All P v cache h) (p, tt)

  put_last-length :
      (v : NormalizedEventEvidence) (d : EventMatchDecision)
      (cache : Dict NormalizedEventEvidence EventMatchDecision)
      → lookup v cache ≡ some d
      → length (put_last v d cache) ≤ length cache
  unfolding put_last
  put_last-length v d cache found =
      omega (arith, length-append (erase v cache) ((v, d) ∷ []), length-erase_known v d cache found)

  match_from-IsAnswer :
      (m : EventMatcher) (v : NormalizedEventEvidence)
      → IsValidCache m m.decision_cache
      → IsAnswer m v (match_from casefold m v (lookup v m.decision_cache))
  unfolding match_from
  match_from-IsAnswer m v h = elim (Option-cases (lookup v m.decision_cache)) [
    | inl missing ↦ rw missing (record {
      cache = _;
      only_cache = refl;
      valid = record {
        right = trim-All (IsCached m) m.cache_capacity _ (
            put_last-All (IsCached m) v (match_uncached casefold m v) m.decision_cache refl
              h.right);
        bounded = trim-length m.cache_capacity _;
      };
      answer = refl;
    })
    | inr (d, found) ↦
        let known = lookup-All (IsCached m) v d m.decision_cache h.right found in
        rw found (record {
          cache = _;
          only_cache = refl;
          valid = record {
            right = put_last-All (IsCached m) v d m.decision_cache known h.right;
            bounded = omega (arith, put_last-length v d m.decision_cache found, h.bounded);
          };
          answer = known;
        })
  ]

  match-IsAnswer :
      (m : EventMatcher) (v : NormalizedEventEvidence)
      → IsValidCache m m.decision_cache
      → IsAnswer m v (match casefold m v)
  unfolding match
  match-IsAnswer m v h = elim (Bool-cases (ltb 0 m.cache_capacity)) [
    | inl e ↦ rw e (match_from-IsAnswer m v h)
    | inr e ↦
        rw e (record { cache = m.decision_cache; only_cache = refl; valid = h; answer = refl })
  ]

  survivors-remember :
      (m : EventMatcher) (cache : Dict NormalizedEventEvidence EventMatchDecision)
      (v : NormalizedEventEvidence) (es : List Event)
      → survivors casefold (remember m cache) v es ≡ survivors casefold m v es
  unfolding survivors
  survivors-remember m cache v [] = refl
  survivors-remember m cache v (e ∷ es) =
      ap (with_candidate (evaluate casefold m v e)) (survivors-remember m cache v es)

  rejections-remember :
      (m : EventMatcher) (cache : Dict NormalizedEventEvidence EventMatchDecision)
      (v : NormalizedEventEvidence) (es : List Event)
      → rejections casefold (remember m cache) v es ≡ rejections casefold m v es
  unfolding rejections
  rejections-remember m cache v [] = refl
  rejections-remember m cache v (e ∷ es) =
      ap (with_rejection e.id (evaluate casefold m v e)) (rejections-remember m cache v es)

  match_uncached-remember :
      (m : EventMatcher) (cache : Dict NormalizedEventEvidence EventMatchDecision)
      (v : NormalizedEventEvidence)
      → match_uncached casefold (remember m cache) v ≡ match_uncached casefold m v
  unfolding match_uncached sorted_candidates
  match_uncached-remember m cache v =
      rw
        (
          survivors-remember m cache v (candidate_events m v),
          rejections-remember m cache v (candidate_events m v),
        )
        refl

  IsCached-remember :
      (m : EventMatcher) (other cache : Dict NormalizedEventEvidence EventMatchDecision)
      → IsValidCache m cache
      → IsValidCache (remember m other) cache
  IsCached-remember m other cache h = record {
    right = All-map _ _ (λ p e. e ∙ sym (match_uncached-remember m other p.0)) cache h.right;
    bounded = h.bounded;
  }

  IsCached-forget :
      (m : EventMatcher) (other cache : Dict NormalizedEventEvidence EventMatchDecision)
      → IsValidCache (remember m other) cache
      → IsValidCache m cache
  IsCached-forget m other cache h = record {
    right = All-map _ _ (λ p e. e ∙ match_uncached-remember m other p.0) cache h.right;
    bounded = h.bounded;
  }

  -- A row of calls on one matcher, with the answers.
  pub match_each :
      EventMatcher → List NormalizedEventEvidence → EventMatcher × List EventMatchDecision
  match_each m [] = (m, [])
  match_each m (v ∷ vs) =
      let (next, d) = match casefold m v in let (last, ds) = match_each next vs in (last, d ∷ ds)

  Transparent :
      EventMatcher
      → Dict NormalizedEventEvidence EventMatchDecision
      → List NormalizedEventEvidence
      → Type 0
  Transparent m cache vs =
      ((match_each (remember m cache) vs).1 ≡ map (match_uncached casefold m) vs)
      × (length (match_each (remember m cache) vs).0.decision_cache ≤ m.cache_capacity)

  match_each-from :
      (m : EventMatcher) (cache : Dict NormalizedEventEvidence EventMatchDecision)
      (vs : List NormalizedEventEvidence)
      → IsValidCache m cache
      → Transparent m cache vs
  unfolding match_each Transparent
  match_each-from m cache [] h = (refl, h.bounded)
  match_each-from m cache (v ∷ vs) h =
      let a = match-IsAnswer (remember m cache) v (IsCached-remember m cache cache h) in
      let rest = match_each-from m a.cache vs (IsCached-forget m cache a.cache a.valid) in
      rw (a.only_cache, a.answer, match_uncached-remember m cache v, rest.0) (refl, rest.1)

  -- The cache shows in no answer: a matcher that begins with an empty cache answers every row of calls
  -- with the decisions that it would come to without one, and holds no more than its capacity of them
  -- afterwards.
  pub match_each-transparent :
      (m : EventMatcher) (vs : List NormalizedEventEvidence)
      → let r = match_each (remember m []) vs in
        (r.1 ≡ map (match_uncached casefold m) vs) × (length r.0.decision_cache ≤ m.cache_capacity)
  unfolding Transparent
  match_each-transparent m vs =
      match_each-from m [] vs (record { right = tt; bounded = omega arith })
