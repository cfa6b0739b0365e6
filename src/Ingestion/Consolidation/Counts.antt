-- ===== src/Ingestion/Consolidation/Counts.antt =====
-- ingestion/multisource.py: the counts of the result.
use arbiscan_arbitrage_scann.Prelude.{
  ℕ, ◌+◌, ◌≤◌, ◌≡◌, inl, inr, refl, subst, arith, Bool, not, List, [], ◌∷◌, any, keep, length,
  nat_beq, nat_beq_iff, nat_eq, list_eq, suc, length, nat_beq, nat_beq_iff, All, In, In-keep_back,
  Bool-cases,
}
use arbiscan_arbitrage_scann.Prelude.Sort.{sort_by, sort_by-All, length-sort_by}
use arbiscan_arbitrage_scann.Prelude.Grouped.{groups, groups-full}
use arbiscan_arbitrage_scann.Domain.{OddsQuote, effective_timestamp}
use arbiscan_arbitrage_scann.MarketBook.Best.{max_time}
use arbiscan_arbitrage_scann.MarketBook.Best.Laws.{max_time-In}
use arbiscan_arbitrage_scann.Ingestion.Consolidation.{
  SlotDecision, select, overlap, conflict, silent, same_state, slot_sort_key, decide_sorted,
  decide_newest, decide_slot, add_decision, consolidate_slots, observation_sort_key,
  consolidate_quotes, ConsolidationResult, observation_sort_key,
}

-- A slot with an observation is decided.
abbrev IsDecided : SlotDecision → Type 0
IsDecided silent = ⊥
IsDecided _ = Unit {0}

decide_sorted-IsDecided :
    (first : OddsQuote) (t : ℕ) (qs : List OddsQuote)
    → 1 ≤ length qs
    → IsDecided (decide_sorted first t qs)
unfolding decide_sorted
decide_sorted-IsDecided first t [] h = absurd (omega arith)
decide_sorted-IsDecided first t (c ∷ cs) h =
    elim (Bool-cases (any (λ q. not (same_state q c)) cs)) [ inl e ↦ rw e tt | inr e ↦ rw e tt ]

decide_newest-IsDecided :
    (first : OddsQuote) (t : ℕ) (q : OddsQuote) (qs : List OddsQuote)
    → In q qs
    → IsDecided (decide_newest first t qs)
unfolding decide_newest
decide_newest-IsDecided first t q [] i = absurd i
decide_newest-IsDecided first t q (r ∷ []) i = tt
decide_newest-IsDecided first t q (r ∷ s ∷ qs) i =
    decide_sorted-IsDecided first t (sort_by observation_sort_key (r ∷ s ∷ qs))
      (omega (arith, length-sort_by observation_sort_key (r ∷ s ∷ qs)))

decide_slot-IsDecided : (qs : List OddsQuote) → 1 ≤ length qs → IsDecided (decide_slot qs)
unfolding decide_slot
decide_slot-IsDecided [] h = absurd (omega arith)
decide_slot-IsDecided (q ∷ []) h = tt
decide_slot-IsDecided (q ∷ r ∷ qs) h =
    let t = max_time (effective_timestamp q) (r ∷ qs) in
    let (l, i, e) = max_time-In q (r ∷ qs) in
    let at : OddsQuote → Bool = λ x. nat_beq (effective_timestamp x) t in
    decide_newest-IsDecided q t l (keep at (q ∷ r ∷ qs))
      (In-keep_back at l (q ∷ r ∷ qs) i (ground (arith, nat_beq_iff (effective_timestamp l) t)))

-- What a result counts, for a number of slots.
abbrev pub Counts : ConsolidationResult → ℕ → Type 0
Counts r slots =
    (length r.quotes + r.conflict_count ≡ slots)
    × (length r.diagnostics ≡ r.equivalent_overlap_count + r.conflict_count)

add_decision-Counts :
    (d : SlotDecision) (r : ConsolidationResult) (n : ℕ)
    → IsDecided d
    → Counts r n
    → Counts (add_decision d r) (suc n)
unfolding add_decision
add_decision-Counts (select q) r n h c = (omega (arith, c.0), c.1)
add_decision-Counts (overlap q d) r n h c = (omega (arith, c.0), omega (arith, c.1))
add_decision-Counts (conflict d) r n h c = (omega (arith, c.0), omega (arith, c.1))
add_decision-Counts silent r n h c = absurd h

consolidate_slots-Counts :
    (ps : List (List ℕ × List OddsQuote))
    → All (λ p. 1 ≤ length p.1) ps
    → Counts (consolidate_slots ps) (length ps)
unfolding consolidate_slots
consolidate_slots-Counts [] h = (refl, refl)
consolidate_slots-Counts (p ∷ ps) h =
    add_decision-Counts (decide_slot p.1) (consolidate_slots ps) (length ps)
      (decide_slot-IsDecided p.1 h.0) (consolidate_slots-Counts ps h.1)

-- No slot is dropped: `consolidate_quotes` selects one quote or counts one conflict for each slot that
-- a quote is of, and it has one diagnostic for each overlap and each conflict that it counts.
pub consolidate_quotes-Counts :
    (quotes : List OddsQuote)
    → Counts (consolidate_quotes quotes) (length (groups slot_sort_key quotes))
unfolding consolidate_quotes
consolidate_quotes-Counts quotes =
    subst (Counts (consolidate_quotes quotes))
      (length-sort_by (λ p. p.0) (groups slot_sort_key quotes))
      (consolidate_slots-Counts _
        (sort_by-All (λ p. p.0) _ (groups slot_sort_key quotes) (groups-full slot_sort_key quotes)))
