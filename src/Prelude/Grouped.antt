-- ===== src/Prelude/Grouped.antt =====
-- The groups of a list by a key with an equality: each key once, with all values that have it.
use mathlib.Core.Path.{◌≡◌, refl, ◌∙◌, sym}
use Prim.Native.Nat.{◌≤◌}
use mathlib.Core.Bool.{true, false, ◌||◌}
use mathlib.Core.Logic.{inl, inr}
use mathlib.Core.List.{List, [], ◌∷◌, map}
use native.Mathlib.Omega.{arith}
use arbiscan_arbitrage_scann.Prelude.Tests.{Bool-cases}
use arbiscan_arbitrage_scann.Prelude.Lists.{keep, length, length-append, All, All-map, All-map_both}
use arbiscan_arbitrage_scann.Prelude.Keys.{
  Eq, ◌==◌, contains, all_distinct, ==-refl, ==-cong_left, ==-cong_right,
}
use arbiscan_arbitrage_scann.Prelude.Groups.{
  IsCongruent, append_to, group_into, group_at, group_at-group_into,
}

module _ {ℓ κ} {K : Type ℓ} {V : Type κ} ⦃e : Eq K⦄ (key : V → K) where
  -- The groups under `==`.
  abbrev pub groups : List V → List (K × List V)
  groups vs = group_into ◌==◌ key [] vs

  ==-IsCongruent : IsCongruent {K = K} ◌==◌
  ==-IsCongruent = record {
    left = λ a b c h. sym (==-cong_left a b c h);
    right = λ a b c h. ==-cong_right a b c h;
  }

  abbrev keys : List (K × List V) → List K
  keys d = map (λ p. p.0) d

  contains-append_to :
      (v : V) (d : List (K × List V)) (k : K)
      → contains (keys (append_to ◌==◌ key v d)) k ≡ (contains (keys d) k || (key v == k))
  unfolding append_to
  contains-append_to v [] k = ground arith
  contains-append_to v (p ∷ d) k =
      ground (arith, ==-cong_left p.0 (key v) k, contains-append_to v d k)

  append_to-distinct :
      (v : V) (d : List (K × List V))
      → all_distinct (keys d) ≡ true
      → all_distinct (keys (append_to ◌==◌ key v d)) ≡ true
  unfolding append_to
  append_to-distinct v [] h = refl
  append_to-distinct v (p ∷ d) h = ground (
    arith,
    contains-append_to v d p.0,
    append_to-distinct v d,
    e.same_iff (key v) p.0,
    e.same_iff p.0 (key v),
  )

  group_into-distinct :
      (d : List (K × List V)) (vs : List V)
      → all_distinct (keys d) ≡ true
      → all_distinct (keys (group_into ◌==◌ key d vs)) ≡ true
  unfolding group_into
  group_into-distinct d [] h = h
  group_into-distinct d (v ∷ vs) h =
      group_into-distinct (append_to ◌==◌ key v d) vs (append_to-distinct v d h)

  absent-All :
      (k : K) (d : List (K × List V))
      → contains (keys d) k ≡ false
      → All (λ p. (k == p.0) ≡ false) d
  absent-All k [] h = tt
  absent-All k (p ∷ d) h =
      (ground (arith, e.same_iff p.0 k, e.same_iff k p.0), absent-All k d (ground arith))

  group_at_self :
      (d : List (K × List V))
      → all_distinct (keys d) ≡ true
      → All (λ p. group_at ◌==◌ key p.0 d ≡ p.1) d
  unfolding group_at
  group_at_self [] h = tt
  group_at_self (p ∷ d) h = (
    rw (==-refl p.0) refl,
    All-map_both _ _ _ (λ q found other. rw other found) d (group_at_self d (ground arith))
        (absent-All p.0 d (ground arith)),
  )

  -- Each group has all values of its key, in their order, and no key has two groups.
  pub groups-All : (vs : List V) → All (λ p. p.1 ≡ keep (λ x. key x == p.0) vs) (groups vs)
  unfolding group_at
  groups-All vs =
      All-map _ _ (λ p h. sym h ∙ group_at-group_into ◌==◌ key ==-IsCongruent p.0 [] vs) (groups vs)
        (group_at_self (groups vs) (group_into-distinct [] vs refl))

  pub groups-distinct : (vs : List V) → all_distinct (map (λ p. p.0) (groups vs)) ≡ true
  groups-distinct vs = group_into-distinct [] vs refl

  append_to-full :
      (v : V) (d : List (K × List V))
      → All (λ p. 1 ≤ length p.1) d
      → All (λ p. 1 ≤ length p.1) (append_to ◌==◌ key v d)
  unfolding append_to
  append_to-full v [] h = (omega arith, tt)
  append_to-full v ((j, vs) ∷ d) h = elim (Bool-cases (j == key v)) [
    | inl e ↦ rw e (omega (arith, length-append vs (v ∷ [])), h.1)
    | inr e ↦ rw e (h.0, append_to-full v d h.1)
  ]

  group_into-full :
      (d : List (K × List V)) (vs : List V)
      → All (λ p. 1 ≤ length p.1) d
      → All (λ p. 1 ≤ length p.1) (group_into ◌==◌ key d vs)
  unfolding group_into
  group_into-full d [] h = h
  group_into-full d (v ∷ vs) h = group_into-full (append_to ◌==◌ key v d) vs (append_to-full v d h)

  -- No group is empty.
  pub groups-full : (vs : List V) → All (λ p. 1 ≤ length p.1) (groups vs)
  groups-full vs = group_into-full [] vs tt

  group_at-absent :
      (k : K) (d : List (K × List V)) → contains (keys d) k ≡ false → group_at ◌==◌ key k d ≡ []
  unfolding group_at
  group_at-absent k [] h = refl
  group_at-absent k (p ∷ d) h = ground (arith, group_at-absent k d)

  -- A key that no group has is the key of no value.
  pub groups-absent :
      (vs : List V) (k : K) → contains (keys (groups vs)) k ≡ false → keep (λ x. key x == k) vs ≡ []
  unfolding group_at
  groups-absent vs k h =
      sym (group_at-group_into ◌==◌ key ==-IsCongruent k [] vs) ∙ group_at-absent k (groups vs) h
