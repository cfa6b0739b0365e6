-- ===== src/Ingestion/Consolidation/Laws.antt =====
-- ingestion/multisource.py: what `consolidate_quotes` selects.
use arbiscan_arbitrage_scann.Prelude.{
  ℕ, ◌≤◌, ◌<◌, ◌≡◌, ◌⊎◌, inl, inr, refl, sym, subst, arith, Bool, true, false, not, List, [], ◌∷◌,
  any, any-All, keep, keep-All_back, nat_beq, nat_beq_iff, nat_eq, list_eq, ltb, nat_beq,
  nat_beq_iff, any-All, keep-All_back, All, All-map, All-map_both, In, In-keep, ◌==◌, ==→eq,
  Bool-cases,
}
use arbiscan_arbitrage_scann.Prelude.Sort.{sort_by, sort_by-All, sort_by-All_back}
use arbiscan_arbitrage_scann.Prelude.Grouped.{groups, groups-All}
use arbiscan_arbitrage_scann.Domain.{OddsQuote, effective_timestamp}
use arbiscan_arbitrage_scann.MarketBook.Best.{max_time}
use arbiscan_arbitrage_scann.MarketBook.Best.Laws.{max_time-ge, max_time-All}
use arbiscan_arbitrage_scann.Ingestion.Consolidation.{
  SlotDecision, select, overlap, conflict, silent, same_state, slot_sort_key, decide_sorted,
  decide_newest, decide_slot, add_decision, consolidate_slots, observation_sort_key,
  consolidate_quotes, ConsolidationResult, observation_sort_key,
}

-- A quote that may stand for its slot against an observation: that one is older, or it has the same
-- time, and is the quote itself or has its price and status.
abbrev pub Yields : OddsQuote → OddsQuote → Type 0
Yields x q =
    (effective_timestamp x < effective_timestamp q)
    ⊎ ((effective_timestamp x ≡ effective_timestamp q) × ((x ≡ q) ⊎ (same_state x q ≡ true)))

-- The decision on the observations of a slot.
abbrev pub IsRight : List OddsQuote → SlotDecision → Type 0
IsRight qs (select q) = In q qs × All (λ x. Yields x q) qs
IsRight qs (overlap q d) = In q qs × All (λ x. Yields x q) qs
IsRight qs _ = Unit {0}

All_self : (qs : List OddsQuote) → All (λ x. In x qs) qs
All_self [] = tt
All_self (q ∷ qs) = (inl refl, All-map _ _ (λ x i. inr i) qs (All_self qs))

-- The decision on the newest observations: they agree with the selected one.
abbrev IsAgreed : List OddsQuote → SlotDecision → Type 0
IsAgreed qs (select q) = In q qs × All (λ x. (x ≡ q) ⊎ (same_state x q ≡ true)) qs
IsAgreed qs (overlap q d) = In q qs × All (λ x. (x ≡ q) ⊎ (same_state x q ≡ true)) qs
IsAgreed qs _ = Unit {0}

not-false : (b : Bool) → not b ≡ false → b ≡ true
not-false true h = refl
not-false false h = sym h

decide_sorted-IsAgreed :
    (first : OddsQuote) (t : ℕ) (qs ys : List OddsQuote)
    → All (λ x. In x qs) ys
    → ((P : OddsQuote → Type 0) → All P ys → All P qs)
    → IsAgreed qs (decide_sorted first t ys)
unfolding decide_sorted
decide_sorted-IsAgreed first t qs [] i back = tt
decide_sorted-IsAgreed first t qs (c ∷ cs) i back =
    elim (Bool-cases (any (λ q. not (same_state q c)) cs)) [
      | inl e ↦ rw e tt
      | inr e ↦ rw e (
        i.0,
        back _
            (inl refl, All-map _ _ (λ x h. inr (not-false (same_state x c) h)) cs (any-All _ cs e)),
      )
    ]

decide_newest-IsAgreed :
    (first : OddsQuote) (t : ℕ) (qs : List OddsQuote) → IsAgreed qs (decide_newest first t qs)
unfolding decide_newest
decide_newest-IsAgreed first t [] = tt
decide_newest-IsAgreed first t (q ∷ []) = (inl refl, (inl refl, tt))
decide_newest-IsAgreed first t (q ∷ r ∷ qs) =
    decide_sorted-IsAgreed first t (q ∷ r ∷ qs) (sort_by observation_sort_key (q ∷ r ∷ qs))
      (sort_by-All observation_sort_key _ (q ∷ r ∷ qs) (All_self (q ∷ r ∷ qs)))
      (λ P h. sort_by-All_back observation_sort_key P (q ∷ r ∷ qs) h)

-- The newest observation stands for all of the slot.
nat_beq-eq : (a b : ℕ) → nat_beq a b ≡ true → a ≡ b
nat_beq-eq a b h = ground (arith, nat_beq_iff a b)

yields :
    (x q : OddsQuote) (t : ℕ)
    → effective_timestamp q ≡ t
    → (nat_beq (effective_timestamp x) t ≡ false) ⊎ ((x ≡ q) ⊎ (same_state x q ≡ true))
    → effective_timestamp x ≤ t
    → Yields x q
yields x q t e (inl h) le = inl (ground (arith, nat_beq_iff (effective_timestamp x) t))
yields x q t e (inr h) le = elim (Bool-cases (ltb (effective_timestamp x) t)) [
  | inl l ↦ inl (ground arith)
  | inr l ↦ inr (ground arith, h)
]

stands :
    (qs : List OddsQuote) (t : ℕ) (q : OddsQuote)
    → All (λ x. effective_timestamp x ≤ t) qs
    → In q (keep (λ x. nat_beq (effective_timestamp x) t) qs)
      × All
          (λ x. (x ≡ q) ⊎ (same_state x q ≡ true))
          (keep (λ x. nat_beq (effective_timestamp x) t) qs)
    → In q qs × All (λ x. Yields x q) qs
stands qs t q le (i, agree) =
    let (j, e) = In-keep _ q qs i in
    (
      j,
      All-map_both _ _ _ (λ x h l. yields x q t (nat_beq-eq (effective_timestamp q) t e) h l) qs
          (keep-All_back _ _ qs agree) le,
    )

IsAgreed→IsRight :
    (qs : List OddsQuote) (t : ℕ) (d : SlotDecision)
    → All (λ x. effective_timestamp x ≤ t) qs
    → IsAgreed (keep (λ x. nat_beq (effective_timestamp x) t) qs) d
    → IsRight qs d
IsAgreed→IsRight qs t (select q) le h = stands qs t q le h
IsAgreed→IsRight qs t (overlap q d) le h = stands qs t q le h
IsAgreed→IsRight qs t (conflict d) le h = tt
IsAgreed→IsRight qs t silent le h = tt

pub decide_slot-IsRight : (qs : List OddsQuote) → IsRight qs (decide_slot qs)
unfolding decide_slot
decide_slot-IsRight [] = tt
decide_slot-IsRight (q ∷ []) = (inl refl, (inr (refl, inl refl), tt))
decide_slot-IsRight (q ∷ r ∷ qs) =
    let t = max_time (effective_timestamp q) (r ∷ qs) in
    IsAgreed→IsRight (q ∷ r ∷ qs) t _
      (max_time-ge (effective_timestamp q) (r ∷ qs), max_time-All (effective_timestamp q) (r ∷ qs))
      (decide_newest-IsAgreed q t (keep (λ x. nat_beq (effective_timestamp x) t) (q ∷ r ∷ qs)))

-- The slots are the groups of the quotes.
abbrev pub IsSlot : List OddsQuote → List ℕ × List OddsQuote → Type 0
IsSlot quotes p = p.1 ≡ keep (λ x. slot_sort_key x == p.0) quotes

-- A selected quote, against all observations.
abbrev pub IsSelection : List OddsQuote → OddsQuote → Type 0
IsSelection quotes q =
    In q quotes × All (λ x. ((slot_sort_key x == slot_sort_key q) ≡ false) ⊎ Yields x q) quotes

other_slot :
    (x q : OddsQuote) (k : List ℕ)
    → (slot_sort_key q == k) ≡ true
    → ((slot_sort_key x == k) ≡ false) ⊎ Yields x q
    → ((slot_sort_key x == slot_sort_key q) ≡ false) ⊎ Yields x q
other_slot x q k e (inl h) =
    inl (subst (λ j. (slot_sort_key x == j) ≡ false) (sym (==→eq (slot_sort_key q) k e)) h)
other_slot x q k e (inr h) = inr h

IsSelection-IsSlot :
    (quotes : List OddsQuote) (p : List ℕ × List OddsQuote) (q : OddsQuote)
    → IsSlot quotes p
    → In q p.1 × All (λ x. Yields x q) p.1
    → IsSelection quotes q
IsSelection-IsSlot quotes p q slot (i, y) =
    let (j, e) = In-keep _ q quotes (subst (In q) slot i) in
    (
      j,
      All-map _ _ (λ x h. other_slot x q p.0 e h) quotes
          (keep-All_back _ _ quotes (subst (All (λ x. Yields x q)) slot y)),
    )

add_decision-All :
    (P : OddsQuote → Type 0) (qs : List OddsQuote)
    → ((q : OddsQuote) → In q qs × All (λ x. Yields x q) qs → P q)
    → (d : SlotDecision) (r : ConsolidationResult) → IsRight qs d
    → All P r.quotes
    → All P (add_decision d r).quotes
unfolding add_decision
add_decision-All P qs f (select q) r h a = (f q h, a)
add_decision-All P qs f (overlap q n) r h a = (f q h, a)
add_decision-All P qs f (conflict n) r h a = a
add_decision-All P qs f silent r h a = a

consolidate_slots-All :
    (quotes : List OddsQuote) (ps : List (List ℕ × List OddsQuote))
    → All (IsSlot quotes) ps
    → All (IsSelection quotes) (consolidate_slots ps).quotes
unfolding consolidate_slots
consolidate_slots-All quotes [] h = tt
consolidate_slots-All quotes (p ∷ ps) h =
    add_decision-All (IsSelection quotes) p.1 (λ q right. IsSelection-IsSlot quotes p q h.0 right)
      (decide_slot p.1) (consolidate_slots ps) (decide_slot-IsRight p.1)
      (consolidate_slots-All quotes ps h.1)

-- Each quote that `consolidate_quotes` selects is one of the quotes given, and each quote given is of
-- another slot, or it is older, or it has the same effective time and is the selected one or has the
-- same price and status. So no stale and no disputed price is selected.
pub consolidate_quotes-IsSelection :
    (quotes : List OddsQuote) → All (IsSelection quotes) (consolidate_quotes quotes).quotes
unfolding consolidate_quotes
consolidate_quotes-IsSelection quotes = consolidate_slots-All quotes _ (
    sort_by-All (λ p. p.0) (IsSlot quotes) (groups slot_sort_key quotes)
      (groups-All slot_sort_key quotes))
