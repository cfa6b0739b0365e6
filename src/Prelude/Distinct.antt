-- ===== src/Prelude/Distinct.antt =====
-- `len(set(keys)) == len(keys)` under sorting and filtering.
use mathlib.Core.Path.{◌≡◌, refl}
use mathlib.Core.Bool.{Bool, true, false, ◌||◌}
use mathlib.Core.List.{List, [], ◌∷◌, map}
use Prim.Native.Nat.{ℕ}
use native.Mathlib.Omega.{arith}
use arbiscan_arbitrage_scann.Prelude.Lists.{keep}
use arbiscan_arbitrage_scann.Prelude.Keys.{Eq, nat_eq, ◌==◌, contains, all_distinct, ==-sym_false}
use arbiscan_arbitrage_scann.Prelude.Sort.{insert_by, sort_by}

module _ {ℓ κ} {A : Type ℓ} {B : Type κ} ⦃e : Eq B⦄ (f : A → B) where
  pub contains-keep :
      (p : A → Bool) (xs : List A) (b : B)
      → contains (map f xs) b ≡ false
      → contains (map f (keep p xs)) b ≡ false
  contains-keep p [] b h = refl
  contains-keep p (x ∷ xs) b h = ground (arith, contains-keep p xs b)

  pub all_distinct-keep :
      (p : A → Bool) (xs : List A)
      → all_distinct (map f xs) ≡ true
      → all_distinct (map f (keep p xs)) ≡ true
  all_distinct-keep p [] h = refl
  all_distinct-keep p (x ∷ xs) h = ground (arith, contains-keep p xs (f x), all_distinct-keep p xs)

  module _ (key : A → List ℕ) where
    contains-insert_by :
        (x : A) (ys : List A) (b : B)
        → contains (map f (insert_by key x ys)) b ≡ ((f x == b) || contains (map f ys) b)
    unfolding insert_by
    contains-insert_by x [] b = refl
    contains-insert_by x (y ∷ ys) b = ground (arith, contains-insert_by x ys b)

    pub contains-sort_by :
        (xs : List A) (b : B) → contains (map f (sort_by key xs)) b ≡ contains (map f xs) b
    unfolding sort_by
    contains-sort_by [] b = refl
    contains-sort_by (x ∷ xs) b =
        ground (arith, contains-insert_by x (sort_by key xs) b, contains-sort_by xs b)

    all_distinct-insert_by :
        (x : A) (ys : List A)
        → contains (map f ys) (f x) ≡ false
        → all_distinct (map f ys) ≡ true
        → all_distinct (map f (insert_by key x ys)) ≡ true
    unfolding insert_by
    all_distinct-insert_by x [] h k = refl
    all_distinct-insert_by x (y ∷ ys) h k = ground (
      arith,
      contains-insert_by x ys (f y),
      all_distinct-insert_by x ys,
      ==-sym_false (f y) (f x),
    )

    pub all_distinct-sort_by :
        (xs : List A)
        → all_distinct (map f xs) ≡ true
        → all_distinct (map f (sort_by key xs)) ≡ true
    unfolding sort_by
    all_distinct-sort_by [] h = refl
    all_distinct-sort_by (x ∷ xs) h = ground (
      arith,
      contains-sort_by xs (f x),
      all_distinct-sort_by xs,
      all_distinct-insert_by x (sort_by key xs),
    )

pub map_same {ℓ} : {A : Type ℓ} (xs : List A) → map (λ x. x) xs ≡ xs
map_same [] = refl
map_same (x ∷ xs) = rw (map_same xs) refl
