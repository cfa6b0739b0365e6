-- ===== src/Prelude/Groups.antt =====
-- Dicts that an object builds from its tuple of values: `{key(x): x for x in xs}`, and the groups of
-- `d.setdefault(key(x), []).append(x)`.
use Prim.Native.Nat.{ℕ}
use mathlib.Core.Path.{◌≡◌, refl, ◌∙◌, sym, ap, subst}
use mathlib.Core.Bool.{Bool, true}
use mathlib.Core.Logic.{◌⊎◌, inl, inr}
use mathlib.Core.Option.{Option, none, some, some-injective}
use mathlib.Core.List.{List, [], ◌∷◌, ◌++◌, map, append_assoc, append-nil}
use native.Mathlib.Omega.{arith}
use arbiscan_arbitrage_scann.Prelude.Tests.{if◌then◌else◌, Bool-cases}
use arbiscan_arbitrage_scann.Prelude.Lists.{keep, All, All-map}
use arbiscan_arbitrage_scann.Prelude.Keys.{
  Eq, nat_eq, ◌==◌, contains, subset, same_set, ==→eq, ==-refl,
}

-- A test of keys that cannot tell equal keys apart.
pub record IsCongruent {ℓ} {K : Type ℓ} (same : K → K → Bool) : Type ℓ where
  pub left : (a b c : K) → same a b ≡ true → same a c ≡ same b c
  pub right : (a b c : K) → same b c ≡ true → same a b ≡ same a c

pub keep-cons {κ} :
    {V : Type κ} (p : V → Bool) (v : V) (vs : List V)
    → keep p (v ∷ []) ++ keep p vs ≡ keep p (v ∷ vs)
keep-cons p v vs = ground arith

module _ {ℓ κ} {K : Type ℓ} {V : Type κ} (same : K → K → Bool) (key : V → K) where
  unfoldable pub append_to : V → List (K × List V) → List (K × List V)
  append_to v [] = (key v, v ∷ []) ∷ []
  append_to v ((j, vs) ∷ d) =
      if same j (key v) then (j, vs ++ v ∷ []) ∷ d else (j, vs) ∷ append_to v d

  unfoldable pub group_into : List (K × List V) → List V → List (K × List V)
  unfolding append_to
  group_into d [] = d
  group_into d (v ∷ vs) = group_into (append_to v d) vs

  -- `d.get(k, ())`
  unfoldable pub group_at : K → List (K × List V) → List V
  group_at k [] = []
  group_at k ((j, vs) ∷ d) = if same j k then vs else group_at k d

  group_at-append_to :
      IsCongruent same
      → (k : K) (v : V) (d : List (K × List V))
      → group_at k (append_to v d) ≡ group_at k d ++ keep (λ x. same (key x) k) (v ∷ [])
  unfolding group_at append_to
  group_at-append_to c k v [] = refl
  group_at-append_to c k v ((j, vs) ∷ d) = ground (
    arith,
    c.left j (key v) k,
    c.right j (key v) k,
    append-nil vs,
    append-nil (group_at k d),
    group_at-append_to c k v d,
  )

  -- What is found under a key: what was there, then the values with that key in their order.
  pub group_at-group_into :
      IsCongruent same
      → (k : K) (d : List (K × List V)) (vs : List V)
      → group_at k (group_into d vs) ≡ group_at k d ++ keep (λ x. same (key x) k) vs
  unfolding group_into
  group_at-group_into c k d [] = sym (append-nil (group_at k d))
  group_at-group_into c k d (v ∷ vs) =
      group_at-group_into c k (append_to v d) vs
      ∙ rw (group_at-append_to c k v d) (
          append_assoc (group_at k d) (keep (λ x. same (key x) k) (v ∷ []))
            (keep (λ x. same (key x) k) vs)
          ∙ ap (λ t. group_at k d ++ t) (keep-cons (λ x. same (key x) k) v vs))

none-ne-some {ℓ} : {V : Type ℓ} (v : V) → none ≡ some v → ⊥
none-ne-some v h = cc

-- `{key(x): x for x in xs}.get(k)`: the last one wins.
module _ {ℓ} {V : Type ℓ} (key : V → ℕ) where
  abbrev pub found_or : Option V → V → ℕ → Option V
  found_or (some u) v k = some u
  found_or none v k = if key v == k then some v else none

  unfoldable pub index_get : List V → ℕ → Option V
  index_get [] k = none
  index_get (v ∷ vs) k = let rest = index_get vs k in found_or rest v k

  found_or-key :
      (o : Option V) (w : V) (k : ℕ) (v : V)
      → (o ≡ some v → key v ≡ k)
      → found_or o w k ≡ some v
      → key v ≡ k
  found_or-key (some u) w k v ih h = ih h
  found_or-key none w k v ih h = elim (Bool-cases (key w == k)) [
    | inl e ↦ ap key (sym (some-injective w v (rw e at h))) ∙ ==→eq (key w) k e
    | inr e ↦ absurd (none-ne-some v (rw e at h))
  ]

  -- What is found has the key that was looked up.
  pub index_get-key : (vs : List V) (k : ℕ) (v : V) → index_get vs k ≡ some v → key v ≡ k
  unfolding index_get
  index_get-key [] k v h = absurd (none-ne-some v h)
  index_get-key (w ∷ vs) k v h = found_or-key (index_get vs k) w k v (index_get-key vs k v) h

  found_or-All {κ} :
      (P : V → Type κ) (o : Option V) (w : V) (k : ℕ) (v : V)
      → P w
      → (o ≡ some v → P v)
      → found_or o w k ≡ some v
      → P v
  found_or-All P (some u) w k v p f h = f h
  found_or-All P none w k v p f h = elim (Bool-cases (key w == k)) [
    | inl e ↦ subst P (some-injective w v (rw e at h)) p
    | inr e ↦ absurd (none-ne-some v (rw e at h))
  ]

  -- What is found is one of the values.
  pub index_get-All {κ} :
      (P : V → Type κ) (vs : List V) (k : ℕ) (v : V) → All P vs → index_get vs k ≡ some v → P v
  unfolding index_get
  index_get-All P [] k v a h = absurd (none-ne-some v h)
  index_get-All P (w ∷ vs) k v a h =
      found_or-All P (index_get vs k) w k v a.0 (index_get-All P vs k v a.1) h

  found_or-known :
      (o : Option V) (w : V) (k : ℕ)
      → ((key w == k) ≡ true) ⊎ ((u : V) × (o ≡ some u))
      → (u : V) × (found_or o w k ≡ some u)
  found_or-known (some u) w k h = (u, refl)
  found_or-known none w k (inl e) = (w, rw e refl)
  found_or-known none w k (inr (u, e)) = absurd (none-ne-some u e)

  -- A key that a value has is found.
  pub index_get-known :
      (vs : List V) (k : ℕ) → contains (map key vs) k ≡ true → (u : V) × (index_get vs k ≡ some u)
  unfolding index_get
  index_get-known [] k h = absurd (ground arith)
  index_get-known (w ∷ vs) k h = elim (Bool-cases (key w == k)) [
    | inl e ↦ found_or-known (index_get vs k) w k (inl e)
    | inr e ↦ found_or-known (index_get vs k) w k (inr (index_get-known vs k (ground arith)))
  ]

module _ {ℓ} {A : Type ℓ} ⦃e : Eq A⦄ where
  contains-subset :
      (xs ys : List A) (a : A) → subset xs ys ≡ true → contains xs a ≡ true → contains ys a ≡ true
  contains-subset [] ys a s h = absurd (ground arith)
  contains-subset (x ∷ xs) ys a s h = elim (Bool-cases (x == a)) [
    | inl same ↦ ground (arith, ==→eq x a same)
    | inr other ↦ contains-subset xs ys a (ground arith) (ground arith)
  ]

  subset_trans :
      (xs ys zs : List A) → subset xs ys ≡ true → subset ys zs ≡ true → subset xs zs ≡ true
  subset_trans [] ys zs s t = refl
  subset_trans (x ∷ xs) ys zs s t = ground (arith, contains-subset ys zs x t, subset_trans xs ys zs)

  -- Two tuples with the same elements have the same frozenset.
  pub same_set-IsCongruent : IsCongruent (same_set {A = A})
  same_set-IsCongruent = record {
    left = λ a b c h.
        ground
          (arith, subset_trans a b c, subset_trans b a c, subset_trans c a b, subset_trans c b a);
    right = λ a b c h.
        ground
          (arith, subset_trans a b c, subset_trans a c b, subset_trans b c a, subset_trans c b a);
  }

  -- An element of a list counts among its elements, whatever is put before them.
  subset-weaken : (xs ys : List A) (y : A) → subset xs ys ≡ true → subset xs (y ∷ ys) ≡ true
  subset-weaken [] ys y h = refl
  subset-weaken (x ∷ xs) ys y h = ground (arith, subset-weaken xs ys y)

  subset_refl : (xs : List A) → subset xs xs ≡ true
  subset_refl [] = refl
  subset_refl (x ∷ xs) = ground (arith, ==-refl x, subset-weaken xs xs x, subset_refl xs)

  pub same_set_refl : (xs : List A) → same_set xs xs ≡ true
  same_set_refl xs = ground (arith, subset_refl xs)

  -- Each element is contained.
  pub contains_self : (xs : List A) → All (λ x. contains xs x ≡ true) xs
  contains_self [] = tt
  contains_self (x ∷ xs) =
      (ground (arith, ==-refl x), All-map _ _ (λ y h. ground (arith, h)) xs (contains_self xs))
