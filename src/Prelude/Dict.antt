-- ===== src/Prelude/Dict.antt =====
-- A Python dict, in insertion order, keyed by anything with an equality.
use Prim.Native.Nat.{◌+◌, ◌≤◌, ◌<◌}
use mathlib.Core.Path.{◌≡◌, refl, sym, subst, ◌∙◌}
use mathlib.Core.Logic.{inl, inr}
use mathlib.Core.Option.{Option, none, some, some-injective}
use mathlib.Core.List.{List, [], ◌∷◌}
use native.Mathlib.Omega.{arith}
use arbiscan_arbitrage_scann.Prelude.Tests.{if◌then◌else◌, Bool-cases}
use arbiscan_arbitrage_scann.Prelude.Lists.{All, length}
use arbiscan_arbitrage_scann.Prelude.Keys.{
  Eq, ◌==◌, ==-cong_left, ==-cong_right, ==-sym_false, ==→eq,
}

abbrev pub Dict {ℓ κ} : Type ℓ → Type κ → Type (ℓ ⊔ κ)
Dict K V = List (K × V)

module _ {ℓ κ} {K : Type ℓ} ⦃e : Eq K⦄ {V : Type κ} where
  -- `d.get(k)`
  unfoldable pub lookup : K → Dict K V → Option V
  lookup k [] = none
  lookup k ((j, v) ∷ d) = if j == k then some v else lookup k d

  -- `d[k] = v`: a known key keeps its place.
  unfoldable pub insert : K → V → Dict K V → Dict K V
  insert k v [] = (k, v) ∷ []
  insert k v (p ∷ d) = if p.0 == k then (p.0, v) ∷ d else p ∷ insert k v d

  -- `d.pop(k, None)`
  unfoldable pub erase : K → Dict K V → Dict K V
  erase k [] = []
  erase k (p ∷ d) = if p.0 == k then erase k d else p ∷ erase k d

  pub lookup-insert :
      (k j : K) (v : V) (d : Dict K V)
      → lookup j (insert k v d) ≡ (if k == j then some v else lookup j d)
  unfolding lookup insert
  lookup-insert k j v [] = refl
  lookup-insert k j v (p ∷ d) =
      ground (arith, ==-cong_left p.0 k j, ==-cong_right p.0 k j, lookup-insert k j v d)

  pub lookup-erase :
      (k j : K) (d : Dict K V) → lookup j (erase k d) ≡ (if k == j then none else lookup j d)
  unfolding lookup erase
  lookup-erase k j [] = ground arith
  lookup-erase k j (p ∷ d) =
      ground (arith, ==-cong_left p.0 k j, ==-cong_right p.0 k j, lookup-erase k j d)

  abbrev pub HasDistinctKeys : Dict K V → Type κ
  HasDistinctKeys [] = Unit
  HasDistinctKeys (p ∷ d) = (lookup p.0 d ≡ none) × HasDistinctKeys d

  pub insert-HasDistinctKeys :
      (k : K) (v : V) (d : Dict K V) → HasDistinctKeys d → HasDistinctKeys (insert k v d)
  unfolding insert lookup
  insert-HasDistinctKeys k v [] h = (refl, tt)
  insert-HasDistinctKeys k v (p ∷ d) h = elim (Bool-cases (p.0 == k)) [
    | inl e ↦ rw e h
    | inr e ↦
        rw e (
          lookup-insert k p.0 v d ∙ rw (==-sym_false p.0 k e) h.0,
          insert-HasDistinctKeys k v d h.1,
        )
  ]

  pub insert-All {μ} :
      (P : K × V → Type μ) (k : K) (v : V) (d : Dict K V)
      → P (k, v)
      → All P d
      → All P (insert k v d)
  unfolding insert
  insert-All P k v [] p h = (p, tt)
  insert-All P k v (q ∷ d) p h = elim (Bool-cases (q.0 == k)) [
    | inl same ↦ rw same (subst (λ j. P (j, v)) (sym (==→eq q.0 k same)) p, h.1)
    | inr e ↦ rw e (h.0, insert-All P k v d p h.1)
  ]

  pub lookup-All {μ} :
      (P : K × V → Type μ) (k : K) (v : V) (d : Dict K V) → All P d → lookup k d ≡ some v → P (k, v)
  unfolding lookup
  lookup-All P k v [] h found = cc
  lookup-All P k v (q ∷ d) h found = elim (Bool-cases (q.0 == k)) [
    | inl same ↦
        subst (λ j. P (j, v)) (==→eq q.0 k same)
          (subst (λ w. P (q.0, w)) (some-injective q.1 v (rw same at found)) h.0)
    | inr e ↦ lookup-All P k v d h.1 (rw e at found)
  ]

  pub length-insert_new :
      (k : K) (v : V) (d : Dict K V) → lookup k d ≡ none → length (insert k v d) ≡ length d + 1
  unfolding insert lookup
  length-insert_new k v [] h = omega arith
  length-insert_new k v (p ∷ d) h = ground (arith, length-insert_new k v d)

  pub length-insert_known :
      (k : K) (v w : V) (d : Dict K V) → lookup k d ≡ some w → length (insert k v d) ≡ length d
  unfolding insert lookup
  length-insert_known k v w [] h = cc
  length-insert_known k v w (p ∷ d) h = ground (arith, length-insert_known k v w d)

  pub erase-All {μ} : (P : K × V → Type μ) (k : K) (d : Dict K V) → All P d → All P (erase k d)
  unfolding erase
  erase-All P k [] h = tt
  erase-All P k (p ∷ d) h = elim (Bool-cases (p.0 == k)) [
    | inl e ↦ rw e (erase-All P k d h.1)
    | inr e ↦ rw e (h.0, erase-All P k d h.1)
  ]

  pub length-erase : (k : K) (d : Dict K V) → length (erase k d) ≤ length d
  unfolding erase
  length-erase k [] = omega arith
  length-erase k (p ∷ d) = ground (arith, length-erase k d)

  pub length-erase_known :
      (k : K) (v : V) (d : Dict K V) → lookup k d ≡ some v → length (erase k d) < length d
  unfolding erase lookup
  length-erase_known k v [] h = cc
  length-erase_known k v (p ∷ d) h = ground (arith, length-erase k d, length-erase_known k v d)
