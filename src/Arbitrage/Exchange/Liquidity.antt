-- ===== src/Arbitrage/Exchange/Liquidity.antt =====
-- arbitrage/exchange.py: the stakes at one price level share what there is to match.
use mathlib.Core.Option.{some-injective}
use arbiscan_arbitrage_scann.Prelude.{
  Bool, true, false, Option, none, some, List, [], ◌∷◌, ◌≡◌, refl, sym, ap, subst, ◌∙◌, inl, inr,
  any, All, All-map, any-All, nat_eq, Bool-cases, if◌then◌else◌, arith,
}
use arbiscan_arbitrage_scann.Domain.{Decimal, dec_leb, dec_of}
use arbiscan_arbitrage_scann.Domain.Number.{dec_ltb-false, dec_leb_refl, dec_leb_trans}
use arbiscan_arbitrage_scann.Domain.Grid.{dec_min, default_add}
use arbiscan_arbitrage_scann.Domain.Grid.Laws.{dec_min-least}
use arbiscan_arbitrage_scann.Prelude.Options.{>>=-eq-some}
use arbiscan_arbitrage_scann.Arbitrage.Exchange.{ExchangePriceObservation, ExchangeStake}
use arbiscan_arbitrage_scann.Arbitrage.Exchange.Portfolio.{
  same_level, Level, note_level, note_levels, exceeds,
}
use arbiscan_arbitrage_scann.Arbitrage.Exchange.Levels.{
  same_level-cong, same_level_refl, same_level_sym,
}

-- The stakes of the legs at the level of a price, added up in the order of the legs.
unfoldable pub used_at : ExchangePriceObservation → Decimal → List ExchangeStake → Decimal
used_at p total [] = total
used_at p total (s ∷ ss) =
    used_at p (if same_level s.price p then default_add total s.stake else total) ss

-- The first level of a price.
unfoldable level_at : ExchangePriceObservation → List Level → Option Level
level_at p [] = none
level_at p (l ∷ ls) = if same_level l.key p then some l else level_at p ls

unfoldable raised : ExchangePriceObservation → Decimal → Decimal → Option Level → Level
unfolding default_add dec_min
raised q stake available none = record {
  key = q;
  used = default_add (dec_of 0) stake;
  limit = available;
}
raised q stake available (some l) = record l {
  used = default_add l.used stake;
  limit = dec_min l.limit available;
}

if_if :
    {A : Type 0} (b : Bool) (x y z : A)
    → (if b then x else z) ≡ (if b then x else if b then y else z)
if_if true x y z = refl
if_if false x y z = refl

other_level :
    (k p q : ExchangePriceObservation)
    → same_level k q ≡ false
    → same_level k p ≡ true
    → same_level q p ≡ false
other_level k p q e f = ground (
  arith,
  same_level-cong q p k,
  same_level_sym q k,
  same_level_sym k q,
  same_level_sym p k,
  same_level_sym k p,
  same_level-cong k p q,
  same_level_sym q p,
)

level_at-note_level :
    (p q : ExchangePriceObservation) (stake available : Decimal) (ls : List Level)
    → level_at p (note_level q stake available ls)
      ≡ (if same_level q p then some (raised q stake available (level_at q ls)) else level_at p ls)
unfolding level_at note_level raised
level_at-note_level p q stake available [] = refl
level_at-note_level p q stake available (l ∷ ls) = elim (Bool-cases (same_level l.key q)) [
  | inl e ↦ rw e (rw (same_level-cong l.key q p e) (if_if (same_level q p) _ _ _))
  | inr e ↦ elim (Bool-cases (same_level l.key p)) [
    | inl f ↦ rw (e, f) (rw (other_level l.key p q e f) refl)
    | inr f ↦ rw (e, f) (level_at-note_level p q stake available ls)
  ]
]

abbrev used_of : Option Level → Decimal
used_of none = dec_of 0
used_of (some l) = l.used

used_of-raised :
    (q : ExchangePriceObservation) (stake available : Decimal) (o : Option Level)
    → (raised q stake available o).used ≡ default_add (used_of o) stake
unfolding raised
used_of-raised q stake available none = refl
used_of-raised q stake available (some l) = refl

level_at-cong :
    (p q : ExchangePriceObservation) (ls : List Level)
    → same_level q p ≡ true
    → level_at q ls ≡ level_at p ls
unfolding level_at
level_at-cong p q [] h = refl
level_at-cong p q (l ∷ ls) h = ground (
  arith,
  same_level-cong l.key q p,
  same_level-cong l.key p q,
  same_level_sym q p,
  level_at-cong p q ls,
)

used_of-note_level :
    (p q : ExchangePriceObservation) (stake available : Decimal) (ls : List Level)
    → used_of (level_at p (note_level q stake available ls)) ≡ (
        if same_level q p
        then default_add (used_of (level_at p ls)) stake
        else used_of (level_at p ls))
used_of-note_level p q stake available ls = elim (Bool-cases (same_level q p)) [
  | inl e ↦
      rw (level_at-note_level p q stake available ls, e)
        (rw (← level_at-cong p q ls e) (used_of-raised q stake available (level_at q ls)))
  | inr e ↦ rw (level_at-note_level p q stake available ls, e) refl
]

-- The limit of a level that is there is at most `d`.
abbrev IsCapped : Decimal → Option Level → Type 0
IsCapped d none = ⊥
IsCapped d (some l) = dec_leb l.limit d ≡ true

raised-IsCapped :
    (d : Decimal) (q : ExchangePriceObservation) (stake available : Decimal) (o : Option Level)
    → IsCapped d o
    → IsCapped d (some (raised q stake available o))
unfolding raised
raised-IsCapped d q stake available none h = absurd h
raised-IsCapped d q stake available (some l) h =
    dec_leb_trans (dec_min l.limit available) l.limit d (dec_min-least l.limit available).0 h

raised-available :
    (q : ExchangePriceObservation) (stake available : Decimal) (o : Option Level)
    → IsCapped available (some (raised q stake available o))
unfolding raised
raised-available q stake available none = dec_leb_refl available
raised-available q stake available (some l) = (dec_min-least l.limit available).1

note_level-IsCapped :
    (d : Decimal) (p q : ExchangePriceObservation) (stake available : Decimal) (ls : List Level)
    → IsCapped d (level_at p ls)
    → IsCapped d (level_at p (note_level q stake available ls))
note_level-IsCapped d p q stake available ls h = elim (Bool-cases (same_level q p)) [
  | inl e ↦
      rw (level_at-note_level p q stake available ls, e)
        (raised-IsCapped d q stake available (level_at q ls) (rw (level_at-cong p q ls e) h))
  | inr e ↦ rw (level_at-note_level p q stake available ls, e) h
]

note_level-available :
    (q : ExchangePriceObservation) (stake available : Decimal) (ls : List Level)
    → IsCapped available (level_at q (note_level q stake available ls))
note_level-available q stake available ls =
    rw (level_at-note_level q q stake available ls, same_level_refl q)
      (raised-available q stake available (level_at q ls))

-- What the levels of all legs come to: each leg, as every price, has its level, used by all legs at it.
note_levels-IsCapped :
    (d : Decimal) (p : ExchangePriceObservation) (ss : List ExchangeStake) (ls ls' : List Level)
    → note_levels ls ss ≡ some ls'
    → IsCapped d (level_at p ls)
    → IsCapped d (level_at p ls')
unfolding note_levels
note_levels-IsCapped d p [] ls ls' h k =
    subst (λ x. IsCapped d (level_at p x)) (some-injective ls ls' h) k
note_levels-IsCapped d p (s ∷ ss) ls ls' h k =
    let (available, _, rest) = >>=-eq-some s.price.available_stake _ h in
    note_levels-IsCapped d p ss (note_level s.price s.stake available ls) ls' rest
      (note_level-IsCapped d p s.price s.stake available ls k)

note_levels-used :
    (p : ExchangePriceObservation) (ss : List ExchangeStake) (ls ls' : List Level)
    → note_levels ls ss ≡ some ls'
    → used_of (level_at p ls') ≡ used_at p (used_of (level_at p ls)) ss
unfolding note_levels used_at
note_levels-used p [] ls ls' h = ap (λ x. used_of (level_at p x)) (sym (some-injective ls ls' h))
note_levels-used p (s ∷ ss) ls ls' h =
    let (available, _, rest) = >>=-eq-some s.price.available_stake _ h in
    note_levels-used p ss (note_level s.price s.stake available ls) ls' rest
    ∙ ap (λ d. used_at p d ss) (used_of-note_level p s.price s.stake available ls)

abbrev pub IsWithin : Decimal → Option Decimal → Type 0
IsWithin used none = ⊥
IsWithin used (some available) = dec_leb used available ≡ true

IsWithin-available :
    (used d : Decimal) (o : Option Decimal) → o ≡ some d → dec_leb used d ≡ true → IsWithin used o
IsWithin-available used d none e h = cc
IsWithin-available used d (some a) e h =
    subst (λ x. dec_leb used x ≡ true) (sym (some-injective a d e)) h

level_at-within :
    (d : Decimal) (p : ExchangePriceObservation) (ls : List Level)
    → All (λ l. exceeds l ≡ false) ls
    → IsCapped d (level_at p ls)
    → dec_leb (used_of (level_at p ls)) d ≡ true
unfolding level_at
level_at-within d p [] h k = absurd k
level_at-within d p (l ∷ ls) h k = elim (Bool-cases (same_level l.key p)) [
  | inl e ↦ rw e (dec_leb_trans l.used l.limit d (dec_ltb-false l.limit l.used h.0) (rw e at k))
  | inr e ↦ rw e (level_at-within d p ls h.1 (rw e at k))
]

-- The legs of a row each have their level capped in the end.
note_levels-All :
    (ss : List ExchangeStake) (ls ls' : List Level)
    → note_levels ls ss ≡ some ls'
    → All
        (λ s.
          (d : Decimal) × (s.price.available_stake ≡ some d) × IsCapped d (level_at s.price ls'))
        ss
unfolding note_levels
note_levels-All [] ls ls' h = tt
note_levels-All (s ∷ ss) ls ls' h =
    let (available, e, rest) = >>=-eq-some s.price.available_stake _ h in
    let noted = note_level s.price s.stake available ls in
    (
      (
        available,
        e,
        note_levels-IsCapped available s.price ss noted ls' rest
            (note_level-available s.price s.stake available ls),
      ),
      note_levels-All ss noted ls' rest,
    )

pub note_levels-IsWithin :
    (ss : List ExchangeStake) (ls : List Level)
    → note_levels [] ss ≡ some ls
    → any exceeds ls ≡ false
    → All (λ s. IsWithin (used_at s.price (dec_of 0) ss) s.price.available_stake) ss
unfolding level_at
note_levels-IsWithin ss ls h k =
    All-map _ _
      (λ s m.
        let (d, e, capped) = m in
        IsWithin-available (used_at s.price (dec_of 0) ss) d s.price.available_stake e (
          subst (λ u. dec_leb u d ≡ true) (note_levels-used s.price ss [] ls h)
            (level_at-within d s.price ls (any-All exceeds ls k) capped)))
      ss (note_levels-All ss [] ls h)
