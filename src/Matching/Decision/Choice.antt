-- ===== src/Matching/Decision/Choice.antt =====
-- matching/event_matcher.py: what a decision of `_match_uncached` says of the surviving candidates.
use mathlib.Core.List.{Perm, append_assoc}
use mathlib.Core.List.Perm
use arbiscan_arbitrage_scann.Prelude.{
  ℕ, ◌+◌, ◌≤◌, ◌<◌, ◌≡◌, refl, arith, Bool, true, not, none, some, List, [], ◌∷◌, ◌++◌, keep,
  keep-All, keep-append-perm, All, All-map, All-append, subst, ◌⊎◌, inl, inr, All-map_both,
  keep_none, keep-All_of,
}
use arbiscan_arbitrage_scann.Prelude.Sort.{sort_by-perm}
use arbiscan_arbitrage_scann.Matching.Candidate.{
  NormalizedEventEvidence, EventMatchConfig, EventMatchCandidate, EventMatchDiagnostic,
  EventMatchStatus, EventMatchDecision,
}
use arbiscan_arbitrage_scann.Matching.Decision.{
  EventMatcher, candidate_events, survivors, sorted_candidates, match_uncached, decide, choose,
  is_close, is_eligible, candidate_key,
}

-- What a decision claims of the candidates that were found.
pub record IsMatch (config : EventMatchConfig) (found : List EventMatchCandidate)
    (d : EventMatchDecision) : Type 0 where
  pub best : EventMatchCandidate
  pub others : List EventMatchCandidate
  pub among : Perm (best ∷ others) found
  pub named : d.matched_event_id ≡ some best.event_id
  pub sure : d.confidence_bps ≡ some best.confidence_bps
  pub enough : config.minimum_confidence_bps ≤ best.confidence_bps
  pub ahead :
      All
        (λ c.
          (c.confidence_bps < config.minimum_confidence_bps)
          ⊎ (c.confidence_bps + config.ambiguity_margin_bps < best.confidence_bps))
        others

pub record IsAmbiguous (config : EventMatchConfig) (found : List EventMatchCandidate)
    (d : EventMatchDecision) : Type 0 where
  pub best : EventMatchCandidate
  pub rival : EventMatchCandidate
  pub rest : List EventMatchCandidate
  pub others : List EventMatchCandidate
  pub listed : d.candidates ≡ best ∷ rival ∷ rest
  pub among : Perm (d.candidates ++ others) found
  pub unnamed : d.matched_event_id ≡ none
  pub enough : config.minimum_confidence_bps ≤ best.confidence_bps
  pub close :
      All
        (λ c.
          (config.minimum_confidence_bps ≤ c.confidence_bps)
          × (best.confidence_bps ≤ c.confidence_bps + config.ambiguity_margin_bps))
        (rival ∷ rest)

pub record IsRejected (config : EventMatchConfig) (found : List EventMatchCandidate)
    (d : EventMatchDecision) : Type 0 where
  pub unnamed : d.matched_event_id ≡ none
  pub listed : Perm d.candidates found
  pub short : All (λ c. c.confidence_bps < config.minimum_confidence_bps) d.candidates

abbrev pub Explains :
    EventMatchConfig → List EventMatchCandidate → EventMatchDecision → EventMatchStatus → Type 0
Explains config found d EventMatchStatus.matched = IsMatch config found d
Explains config found d EventMatchStatus.ambiguous = IsAmbiguous config found d
Explains config found d EventMatchStatus.rejected = IsRejected config found d

-- The candidates that are kept, and the others, are all of them.
split-perm {ℓ} :
    {A : Type ℓ} (p : A → Bool) (xs ys : List A)
    → keep p xs ≡ ys
    → Perm (ys ++ keep (λ x. not (p x)) xs) xs
split-perm p xs ys h =
    subst (λ t. Perm (t ++ keep (λ x. not (p x)) xs) xs) h (keep-append-perm p xs)

kept-All {ℓ} :
    {A : Type ℓ} (p : A → Bool) (xs ys : List A) → keep p xs ≡ ys → All (λ x. p x ≡ true) ys
kept-All p xs ys h = subst (All (λ x. p x ≡ true)) h (keep-All p xs)

not_eligible :
    (config : EventMatchConfig) (xs : List EventMatchCandidate)
    → All
        (λ c. c.confidence_bps < config.minimum_confidence_bps)
        (keep (λ c. not (is_eligible config c)) xs)
not_eligible config xs =
    All-map _ _ (λ c h. ground (arith, h)) _ (keep-All (λ c. not (is_eligible config c)) xs)

choose-Explains :
    (config : EventMatchConfig) (best : EventMatchCandidate)
    (close others rest found : List EventMatchCandidate) (diagnostics : List EventMatchDiagnostic)
    → keep (is_close config.ambiguity_margin_bps best) others ≡ close
    → is_eligible config best ≡ true
    → All (λ c. is_eligible config c ≡ true) others
    → All (λ c. c.confidence_bps < config.minimum_confidence_bps) rest
    → Perm ((best ∷ others) ++ rest) found
    → let d = choose best close others diagnostics in Explains config found d d.status
unfolding choose
choose-Explains config best [] others rest found diagnostics ambiguous eligible all_eligible low p =
    record {
      best = best;
      others = others ++ rest;
      among = p;
      named = refl;
      sure = refl;
      enough = ground arith;
      ahead =
          All-append _ others rest
            (All-map _ _ (λ c h. inr (ground arith)) others (keep_none _ others ambiguous))
            (All-map _ _ (λ c h. inl h) rest low);
    }
choose-Explains config best (c ∷ cs) others rest found diagnostics ambiguous eligible all_eligible
      low p =
    let far = keep (λ x. not (is_close config.ambiguity_margin_bps best x)) others in
    record {
      best = best;
      rival = c;
      rest = cs;
      others = far ++ rest;
      listed = refl;
      among =
          Perm.trans
            (subst (λ t. Perm (best ∷ t) (best ∷ (others ++ rest))) (append_assoc (c ∷ cs) far rest)
              (Perm.cons best (Perm.append_right rest (split-perm _ others (c ∷ cs) ambiguous))))
            p;
      unnamed = refl;
      enough = ground arith;
      close =
          All-map_both _ _ _ (λ x h k. (ground arith, ground arith)) (c ∷ cs)
            (kept-All _ others (c ∷ cs) ambiguous)
            (subst (All (λ x. is_eligible config x ≡ true)) ambiguous
              (keep-All_of _ _ others all_eligible));
    }

decide-Explains :
    (config : EventMatchConfig) (sorted eligible found : List EventMatchCandidate)
    (diagnostics : List EventMatchDiagnostic)
    → keep (is_eligible config) sorted ≡ eligible
    → Perm sorted found
    → let d = decide config sorted eligible diagnostics in Explains config found d d.status
unfolding decide
decide-Explains config sorted [] found diagnostics h p = record {
  unnamed = refl;
  listed = p;
  short = All-map _ _ (λ c e. ground (arith, e)) sorted (keep_none (is_eligible config) sorted h);
}
decide-Explains config sorted (best ∷ others) found diagnostics h p =
    let eligible = kept-All (is_eligible config) sorted (best ∷ others) h in
    choose-Explains config best (keep (is_close config.ambiguity_margin_bps best) others) others
      (keep (λ c. not (is_eligible config c)) sorted) found diagnostics refl eligible.0 eligible.1
      (not_eligible config sorted)
      (Perm.trans (split-perm (is_eligible config) sorted (best ∷ others) h) p)

-- The decision on the surviving candidates, on each of its branches. A match names a candidate with
-- at least the minimum confidence, while every other one is below that minimum or behind by more than
-- the ambiguity margin. An ambiguous decision names none, and lists at least two candidates, which
-- have at least the minimum confidence and are behind the first by no more than the margin. A
-- rejection names none, lists all candidates, and all of them are below the minimum.
pub match_uncached-Explains :
    (casefold : ℕ → ℕ) (m : EventMatcher) (v : NormalizedEventEvidence)
    → let d = match_uncached casefold m v in
      Explains m.config (survivors casefold m v (candidate_events m v)) d d.status
unfolding match_uncached sorted_candidates
match_uncached-Explains casefold m v =
    decide-Explains m.config (sorted_candidates casefold m v)
      (keep (is_eligible m.config) (sorted_candidates casefold m v)) _ _ refl
      (sort_by-perm candidate_key (survivors casefold m v (candidate_events m v)))
