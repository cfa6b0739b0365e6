-- ===== src/Ingestion/Consolidation/Distinct.antt =====
-- ingestion/multisource.py: one selected quote for a slot at most.
use arbiscan_arbitrage_scann.Prelude.{
  ℕ, ◌≡◌, refl, subst, arith, true, false, List, [], ◌∷◌, map, nat_eq, list_eq, All, In, In-keep,
  ◌==◌, ==→eq, contains, all_distinct, map,
}
use arbiscan_arbitrage_scann.Prelude.Sort.{sort_by-All}
use arbiscan_arbitrage_scann.Prelude.Distinct.{all_distinct-sort_by}
use arbiscan_arbitrage_scann.Prelude.Grouped.{groups, groups-All, groups-distinct}
use arbiscan_arbitrage_scann.Domain.{OddsQuote}
use arbiscan_arbitrage_scann.Ingestion.Consolidation.{
  SlotDecision, select, overlap, conflict, silent, slot_sort_key, decide_slot, add_decision,
  consolidate_slots, consolidate_quotes, ConsolidationResult,
}
use arbiscan_arbitrage_scann.Ingestion.Consolidation.Laws.{IsRight, IsSlot, decide_slot-IsRight}

HasKey : List ℕ → List OddsQuote → Type 0
HasKey k qs = (q : OddsQuote) → In q qs → slot_sort_key q ≡ k

slot-HasKey :
    (quotes : List OddsQuote) (p : List ℕ × List OddsQuote) → IsSlot quotes p → HasKey p.0 p.1
unfolding HasKey
slot-HasKey quotes p slot q i =
    ==→eq (slot_sort_key q) p.0 (In-keep _ q quotes (subst (In q) slot i)).1

contains-other :
    (s k j : List ℕ) (ks : List (List ℕ))
    → s ≡ k
    → (k == j) ≡ false
    → contains ks j ≡ false
    → contains (s ∷ ks) j ≡ false
contains-other s k j ks e h absent = rw (e, h) absent

distinct-other :
    (s k : List ℕ) (ks : List (List ℕ))
    → s ≡ k
    → contains ks k ≡ false
    → all_distinct ks ≡ true
    → all_distinct (s ∷ ks) ≡ true
distinct-other s k ks e absent h = rw (e, absent) h

add_decision-contains :
    (k j : List ℕ) (qs : List OddsQuote) (d : SlotDecision) (r : ConsolidationResult)
    → HasKey k qs
    → IsRight qs d
    → (k == j) ≡ false
    → contains (map slot_sort_key r.quotes) j ≡ false
    → contains (map slot_sort_key (add_decision d r).quotes) j ≡ false
unfolding add_decision HasKey
add_decision-contains k j qs (select q) r has right e h =
    contains-other (slot_sort_key q) k j (map slot_sort_key r.quotes) (has q right.0) e h
add_decision-contains k j qs (overlap q n) r has right e h =
    contains-other (slot_sort_key q) k j (map slot_sort_key r.quotes) (has q right.0) e h
add_decision-contains k j qs (conflict n) r has right e h = h
add_decision-contains k j qs silent r has right e h = h

add_decision-distinct :
    (k : List ℕ) (qs : List OddsQuote) (d : SlotDecision) (r : ConsolidationResult)
    → HasKey k qs
    → IsRight qs d
    → contains (map slot_sort_key r.quotes) k ≡ false
    → all_distinct (map slot_sort_key r.quotes) ≡ true
    → all_distinct (map slot_sort_key (add_decision d r).quotes) ≡ true
unfolding add_decision HasKey
add_decision-distinct k qs (select q) r has right e h =
    distinct-other (slot_sort_key q) k (map slot_sort_key r.quotes) (has q right.0) e h
add_decision-distinct k qs (overlap q n) r has right e h =
    distinct-other (slot_sort_key q) k (map slot_sort_key r.quotes) (has q right.0) e h
add_decision-distinct k qs (conflict n) r has right e h = h
add_decision-distinct k qs silent r has right e h = h

consolidate_slots-contains :
    (quotes : List OddsQuote) (ps : List (List ℕ × List OddsQuote)) (j : List ℕ)
    → All (IsSlot quotes) ps
    → contains (map (λ p. p.0) ps) j ≡ false
    → contains (map slot_sort_key (consolidate_slots ps).quotes) j ≡ false
unfolding consolidate_slots
consolidate_slots-contains quotes [] j a h = refl
consolidate_slots-contains quotes (p ∷ ps) j a h =
    add_decision-contains p.0 j p.1 (decide_slot p.1) (consolidate_slots ps)
      (slot-HasKey quotes p a.0) (decide_slot-IsRight p.1) (ground arith)
      (consolidate_slots-contains quotes ps j a.1 (ground arith))

consolidate_slots-distinct :
    (quotes : List OddsQuote) (ps : List (List ℕ × List OddsQuote))
    → All (IsSlot quotes) ps
    → all_distinct (map (λ p. p.0) ps) ≡ true
    → all_distinct (map slot_sort_key (consolidate_slots ps).quotes) ≡ true
unfolding consolidate_slots
consolidate_slots-distinct quotes [] a h = refl
consolidate_slots-distinct quotes (p ∷ ps) a h =
    add_decision-distinct p.0 p.1 (decide_slot p.1) (consolidate_slots ps)
      (slot-HasKey quotes p a.0) (decide_slot-IsRight p.1)
      (consolidate_slots-contains quotes ps p.0 a.1 (ground arith))
      (consolidate_slots-distinct quotes ps a.1 (ground arith))

-- No two quotes that `consolidate_quotes` selects are of the same slot, whatever the transports.
pub consolidate_quotes-distinct :
    (quotes : List OddsQuote)
    → all_distinct (map slot_sort_key (consolidate_quotes quotes).quotes) ≡ true
unfolding consolidate_quotes
consolidate_quotes-distinct quotes =
    consolidate_slots-distinct quotes _
      (sort_by-All (λ p. p.0) (IsSlot quotes) (groups slot_sort_key quotes)
        (groups-All slot_sort_key quotes))
      (all_distinct-sort_by (λ p. p.0) (λ p. p.0) (groups slot_sort_key quotes)
        (groups-distinct slot_sort_key quotes))
