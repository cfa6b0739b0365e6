-- ===== src/Prelude/Lists.antt =====
-- Lists over the native numbers under the library's names, and the Boolean tests on them that the
-- code writes as `any`, `all` and comprehensions.
use Prim.Native.Nat.{ℕ, suc, ◌+◌, ◌≤◌}
use mathlib.Core.Path.{◌≡◌, refl, sym, subst, ◌∙◌}
use mathlib.Core.Bool.{Bool, true, false, ◌&&◌, ◌||◌, not}
use mathlib.Core.List.{List, [], ◌∷◌, ◌++◌, Perm, perm_middle}
use mathlib.Core.List.Perm
use mathlib.Core.Option.{some, some-injective}
use mathlib.Core.Logic.{◌⊎◌, inl, inr}
use native.Mathlib.Omega.{arith}
use arbiscan_arbitrage_scann.Prelude.Tests.{if◌then◌else◌, &&-true, Bool-cases, checked}

pub false-true : false ≡ true → ⊥
false-true h = ground arith

module _ {ℓ} {A : Type ℓ} where
  abbrev pub length : List A → ℕ
  length [] = 0
  length (x ∷ xs) = suc (length xs)

  abbrev pub any : (A → Bool) → List A → Bool
  any p [] = false
  any p (x ∷ xs) = p x || any p xs

  abbrev pub all : (A → Bool) → List A → Bool
  all p [] = true
  all p (x ∷ xs) = p x && all p xs

  -- `[x for x in xs if p(x)]`
  abbrev pub keep : (A → Bool) → List A → List A
  keep p [] = []
  keep p (x ∷ xs) = if p x then x ∷ keep p xs else keep p xs

  -- A predicate on every element, which computes to a tuple.
  abbrev pub All {κ} : (A → Type κ) → List A → Type κ
  All P [] = Unit
  All P (x ∷ xs) = P x × All P xs

  pub length-append : (xs ys : List A) → length (xs ++ ys) ≡ length xs + length ys
  length-append [] ys = omega arith
  length-append (x ∷ xs) ys = omega (arith, length-append xs ys)

  pub All-append {κ} : (P : A → Type κ) (xs ys : List A) → All P xs → All P ys → All P (xs ++ ys)
  All-append P [] ys hx hy = hy
  All-append P (x ∷ xs) ys hx hy = (hx.0, All-append P xs ys hx.1 hy)

  pub All-map {κ μ} :
      (P : A → Type κ) (Q : A → Type μ)
      → ((x : A) → P x → Q x)
      → (xs : List A) → All P xs
      → All Q xs
  All-map P Q f [] h = tt
  All-map P Q f (x ∷ xs) h = (f x h.0, All-map P Q f xs h.1)

  pub all→All : (p : A → Bool) (xs : List A) → all p xs ≡ true → All (λ x. p x ≡ true) xs
  all→All p [] h = tt
  all→All p (x ∷ xs) h = let (a, b) = &&-true (p x) (all p xs) h in (a, all→All p xs b)

  pub keep-All : (p : A → Bool) (xs : List A) → All (λ x. p x ≡ true) (keep p xs)
  keep-All p [] = tt
  keep-All p (x ∷ xs) = ground (arith, keep-All p xs)

  pub keep-All_of {κ} : (P : A → Type κ) (p : A → Bool) (xs : List A) → All P xs → All P (keep p xs)
  keep-All_of P p [] h = tt
  keep-All_of P p (x ∷ xs) h = go (p x) (keep-All_of P p xs h.1)
    where
      go : (b : Bool) → All P (keep p xs) → All P (if b then x ∷ keep p xs else keep p xs)
      go true r = (h.0, r)
      go false r = r

  pub length-keep : (p : A → Bool) (xs : List A) → length (keep p xs) ≤ length xs
  length-keep p [] = omega arith
  length-keep p (x ∷ xs) = ground (arith, length-keep p xs)

  pub keep-append-perm :
      (p : A → Bool) (xs : List A) → Perm (keep p xs ++ keep (λ x. not (p x)) xs) xs
  keep-append-perm p [] = Perm.refl _
  keep-append-perm p (x ∷ xs) = elim (Bool-cases (p x)) [
    | inl e ↦ rw e (Perm.cons x (keep-append-perm p xs))
    | inr e ↦ rw e (Perm.trans (perm_middle (keep p xs) _) (Perm.cons x (keep-append-perm p xs)))
  ]

  -- A stricter test after a laxer one.
  pub keep-keep :
      (p q : A → Bool)
      → ((x : A) → p x ≡ true → q x ≡ true)
      → (xs : List A) → keep p (keep q xs) ≡ keep p xs
  keep-keep p q f [] = refl
  keep-keep p q f (x ∷ xs) = ground (arith, f x, keep-keep p q f xs)

  -- Two tests that exclude one another.
  pub keep-keep_none :
      (p q : A → Bool)
      → ((x : A) → q x ≡ true → p x ≡ false)
      → (xs : List A) → keep p (keep q xs) ≡ []
  keep-keep_none p q f [] = refl
  keep-keep_none p q f (x ∷ xs) = ground (arith, f x, keep-keep_none p q f xs)

  pub any-All : (p : A → Bool) (xs : List A) → any p xs ≡ false → All (λ x. p x ≡ false) xs
  any-All p [] h = tt
  any-All p (x ∷ xs) h = (ground arith, any-All p xs (ground arith))

  pub All-map_both {κ μ ν} :
      (P : A → Type κ) (Q : A → Type μ) (R : A → Type ν)
      → ((x : A) → P x → Q x → R x)
      → (xs : List A) → All P xs
      → All Q xs
      → All R xs
  All-map_both P Q R f [] h k = tt
  All-map_both P Q R f (x ∷ xs) h k = (f x h.0 k.0, All-map_both P Q R f xs h.1 k.1)

  -- None is kept.
  pub keep_none : (p : A → Bool) (xs : List A) → keep p xs ≡ [] → All (λ x. p x ≡ false) xs
  keep_none p [] h = tt
  keep_none p (x ∷ xs) h = elim (Bool-cases (p x)) [
    | inl e ↦ absurd (ground arith)
    | inr e ↦ (e, keep_none p xs (ground arith))
  ]

  -- What holds of the kept ones holds of each or it is not kept.
  pub keep-All_back {κ} :
      (P : A → Type κ) (p : A → Bool) (xs : List A)
      → All P (keep p xs)
      → All (λ x. (p x ≡ false) ⊎ P x) xs
  keep-All_back P p [] h = tt
  keep-All_back P p (x ∷ xs) h = elim (Bool-cases (p x)) [
    | inl e ↦ let k = rw e at h in (inr k.0, keep-All_back P p xs k.1)
    | inr e ↦ (inl e, keep-All_back P p xs (rw e at h))
  ]

module _ {A : Type 0} where
  -- An element of a list, at one of its places.
  abbrev pub In : A → List A → Type 0
  In a [] = ⊥
  In a (x ∷ xs) = (a ≡ x) ⊎ In a xs

  pub All-In {κ} : (P : A → Type κ) (a : A) (xs : List A) → All P xs → In a xs → P a
  All-In P a [] h i = absurd i
  All-In P a (x ∷ xs) h (inl e) = subst P (sym e) h.0
  All-In P a (x ∷ xs) h (inr i) = All-In P a xs h.1 i

  pub In-keep : (p : A → Bool) (a : A) (xs : List A) → In a (keep p xs) → In a xs × (p a ≡ true)
  In-keep p a [] i = absurd i
  In-keep p a (x ∷ xs) i = elim (Bool-cases (p x)) [
    | inl e ↦ elim (rw e at i) [
      | inl here ↦ (inl here, subst (λ y. p y ≡ true) (sym here) e)
      | inr j ↦ let (k, h) = In-keep p a xs j in (inr k, h)
    ]
    | inr e ↦ let (j, h) = In-keep p a xs (rw e at i) in (inr j, h)
  ]

  pub In-keep_back : (p : A → Bool) (a : A) (xs : List A) → In a xs → p a ≡ true → In a (keep p xs)
  In-keep_back p a [] i h = i
  In-keep_back p a (x ∷ xs) i h = elim (Bool-cases (p x)) [
    | inl e ↦ rw e (elim i [ inl here ↦ inl here | inr j ↦ inr (In-keep_back p a xs j h) ])
    | inr e ↦ rw e (elim i [
      | inl here ↦ absurd (false-true (sym e ∙ subst (λ y. p y ≡ true) here h))
      | inr j ↦ In-keep_back p a xs j h
    ])
  ]

-- An object that passed its checks: none of them held, and it is the object that was built.
pub checked-eq-some {ℓ} :
    {A : Type ℓ} (tests : List Bool) (a b : A)
    → checked tests a ≡ some b
    → All (λ t. t ≡ false) tests × (a ≡ b)
checked-eq-some [] a b h = (tt, some-injective a b h)
checked-eq-some (true ∷ tests) a b h = cc
checked-eq-some (false ∷ tests) a b h =
    let (passed, same) = checked-eq-some tests a b h in ((refl, passed), same)

pub checked-passed {ℓ} :
    {A : Type ℓ} (tests : List Bool) (a : A) → All (λ t. t ≡ false) tests → checked tests a ≡ some a
checked-passed [] a h = refl
checked-passed (test ∷ tests) a h = rw h.0 (checked-passed tests a h.1)
