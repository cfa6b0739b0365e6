-- ===== src/Prelude/Keys.antt =====
-- Equality as an interface, and sort keys. The code sorts by tuples of texts and times; a key is the
-- list of the numbers that stand for them.
use Prim.Native.Nat.{ℕ}
use mathlib.Core.Path.{◌≡◌, refl, ap}
use mathlib.Core.Option.{Option, none, some, some-injective}
use mathlib.Core.Logic.{◌↔◌}
use mathlib.Core.Bool.{Bool, true, false, ◌&&◌, ◌||◌}
use mathlib.Core.List.{List, [], ◌∷◌}
use native.Mathlib.Omega.{arith}
use arbiscan_arbitrage_scann.Prelude.Tests.{nat_beq, nat_beq_iff, ltb, if◌then◌else◌}

pub record Eq {ℓ} (A : Type ℓ) : Type ℓ where
  pub same : A → A → Bool
  pub same_iff : (a b : A) → (same a b ≡ true) ↔ (a ≡ b)

infix 45 ◌==◌
abbrev pub ◌==◌ {ℓ} : {A : Type ℓ} ⦃e : Eq A⦄ → A → A → Bool
◌==◌ ⦃e⦄ = e.same

instance abbrev pub nat_eq : Eq ℕ
nat_eq = record { same = nat_beq; same_iff = nat_beq_iff }

module _ {ℓ} {A : Type ℓ} ⦃e : Eq A⦄ where
  pub ==-refl : (a : A) → (a == a) ≡ true
  ==-refl a = (e.same_iff a a).1 refl

  pub ==-cong_left : (a b c : A) → (a == b) ≡ true → (b == c) ≡ (a == c)
  ==-cong_left a b c h = rw ((e.same_iff a b).0 h)

  pub ==-cong_right : (a b c : A) → (b == c) ≡ true → (a == b) ≡ (a == c)
  ==-cong_right a b c h = rw ((e.same_iff b c).0 h)

  pub ==→eq : (a b : A) → (a == b) ≡ true → a ≡ b
  ==→eq a b = (e.same_iff a b).0

  pub ==-sym_false : (a b : A) → (a == b) ≡ false → (b == a) ≡ false
  ==-sym_false a b h = ground (arith, e.same_iff a b, e.same_iff b a)

  -- `a in xs`
  abbrev pub contains : List A → A → Bool
  contains [] a = false
  contains (x ∷ xs) a = x == a || contains xs a

  -- `len(set(xs)) == len(xs)`
  abbrev pub all_distinct : List A → Bool
  all_distinct [] = true
  all_distinct (x ∷ xs) = if contains xs x then false else all_distinct xs

  -- The elements of `set(xs)`.
  abbrev pub distinct : List A → List A
  distinct [] = []
  distinct (x ∷ xs) = let rest = distinct xs in if contains xs x then rest else x ∷ rest

  -- `set(xs) <= set(ys)`
  abbrev pub subset : List A → List A → Bool
  subset [] ys = true
  subset (x ∷ xs) ys = contains ys x && subset xs ys

  -- `set(xs) == set(ys)`
  abbrev pub same_set : List A → List A → Bool
  same_set xs ys = subset xs ys && subset ys xs

abbrev pub option_beq {ℓ} : {A : Type ℓ} ⦃e : Eq A⦄ → Option A → Option A → Bool
option_beq none none = true
option_beq (some a) (some b) = a == b
option_beq _ _ = false

pub option_beq_iff {ℓ} :
    {A : Type ℓ} ⦃e : Eq A⦄ (a b : Option A) → (option_beq a b ≡ true) ↔ (a ≡ b)
option_beq_iff none none = (λ h. refl, λ h. refl)
option_beq_iff (some a) none = (λ h. absurd (ground arith), λ h. absurd (ground arith))
option_beq_iff none (some b) = (λ h. absurd (ground arith), λ h. absurd (ground arith))
option_beq_iff ⦃e⦄ (some a) (some b) =
    (λ h. ap some ((e.same_iff a b).0 h), λ h. (e.same_iff a b).1 (some-injective a b h))

instance abbrev pub option_eq {ℓ} : {A : Type ℓ} ⦃e : Eq A⦄ → Eq (Option A)
option_eq = record { same = option_beq; same_iff = option_beq_iff }

abbrev pub lists_eqb : List ℕ → List ℕ → Bool
lists_eqb [] [] = true
lists_eqb (x ∷ xs) (y ∷ ys) = nat_beq x y && lists_eqb xs ys
lists_eqb _ _ = false

pub lists_eqb_iff : (xs ys : List ℕ) → (lists_eqb xs ys ≡ true) ↔ (xs ≡ ys)
lists_eqb_iff [] [] = (λ h. refl, λ h. refl)
lists_eqb_iff [] (y ∷ ys) = (λ h. absurd (ground arith), λ h. absurd (ground arith))
lists_eqb_iff (x ∷ xs) [] = (λ h. absurd (ground arith), λ h. absurd (ground arith))
lists_eqb_iff (x ∷ xs) (y ∷ ys) =
    (λ h. ground (arith, lists_eqb_iff xs ys), λ h. ground (arith, lists_eqb_iff xs ys))

instance abbrev pub list_eq : Eq (List ℕ)
list_eq = record { same = lists_eqb; same_iff = lists_eqb_iff }

-- Tuples are compared from the left.
abbrev pub key_leb : List ℕ → List ℕ → Bool
key_leb [] ys = true
key_leb (x ∷ xs) [] = false
key_leb (x ∷ xs) (y ∷ ys) = ltb x y || (nat_beq x y && key_leb xs ys)

pub key_leb_refl : (xs : List ℕ) → key_leb xs xs ≡ true
key_leb_refl [] = refl
key_leb_refl (x ∷ xs) = ground (arith, key_leb_refl xs)

pub key_leb_total : (xs ys : List ℕ) → key_leb xs ys ≡ false → key_leb ys xs ≡ true
key_leb_total [] ys h = absurd (ground arith)
key_leb_total (x ∷ xs) [] h = refl
key_leb_total (x ∷ xs) (y ∷ ys) h = ground (arith, key_leb_total xs ys)

pub key_leb_trans :
    (xs ys zs : List ℕ) → key_leb xs ys ≡ true → key_leb ys zs ≡ true → key_leb xs zs ≡ true
key_leb_trans [] ys zs h k = refl
key_leb_trans (x ∷ xs) [] zs h k = absurd (ground arith)
key_leb_trans (x ∷ xs) (y ∷ ys) [] h k = k
key_leb_trans (x ∷ xs) (y ∷ ys) (z ∷ zs) h k = ground (arith, key_leb_trans xs ys zs)

pub key_leb_antisym : (xs ys : List ℕ) → key_leb xs ys ≡ true → key_leb ys xs ≡ true → xs ≡ ys
key_leb_antisym [] [] h k = refl
key_leb_antisym [] (y ∷ ys) h k = absurd (ground arith)
key_leb_antisym (x ∷ xs) [] h k = absurd (ground arith)
key_leb_antisym (x ∷ xs) (y ∷ ys) h k = ground (arith, key_leb_antisym xs ys)
