-- ===== src/MarketBook/Best/Laws.antt =====
-- marketbook/builder.py: `_best_quote` finds the best quote.
use arbiscan_arbitrage_scann.Prelude.{
  ℕ, ◌≤◌, ◌<◌, ◌≡◌, ◌⊎◌, inl, inr, refl, sym, ap, subst, arith, Bool, true, false, some, List, [],
  ◌∷◌, keep, All, All-map_both, In, In-keep, In-keep_back, keep-All_back, ltb, nat_beq, nat_beq_iff,
  key_leb, key_leb_refl, key_leb_total, key_leb_trans, if◌then◌else◌, Bool-cases, &&-true,
}
use arbiscan_arbitrage_scann.Domain.{
  Decimal, OddsQuote, dec_leb, dec_ltb, dec_eqb, effective_timestamp,
}
use arbiscan_arbitrage_scann.Domain.Number.{
  dec_leb_refl, dec_eqb_refl, dec_leb_total, dec_leb_trans,
}
use arbiscan_arbitrage_scann.MarketBook.Best.{
  max_price, max_time, tie_key, min_key, first_tie, freshest, best_quote,
}

-- A quote loses against another: by its price, then by its effective time, then by its key.
abbrev pub LosesLater : OddsQuote → OddsQuote → Type 0
LosesLater q b =
    (effective_timestamp q < effective_timestamp b)
    ⊎ ((effective_timestamp q ≡ effective_timestamp b) × (key_leb (tie_key b) (tie_key q) ≡ true))

abbrev pub Loses : OddsQuote → OddsQuote → Type 0
Loses q b =
    (dec_ltb q.decimal_price b.decimal_price ≡ true)
    ⊎ ((dec_eqb q.decimal_price b.decimal_price ≡ true) × LosesLater q b)

higher : Decimal → Decimal → Decimal
higher p r = if dec_ltb p r then r else p

higher-ge : (p r : Decimal) → (dec_leb p (higher p r) ≡ true) × (dec_leb r (higher p r) ≡ true)
unfolding higher dec_ltb
higher-ge p r = elim (Bool-cases (dec_leb r p)) [
  | inl e ↦ rw e (dec_leb_refl p, e)
  | inr e ↦ rw e (dec_leb_total r p e, dec_leb_refl r)
]

max_price-ge : (p : Decimal) (qs : List OddsQuote) → dec_leb p (max_price p qs) ≡ true
unfolding max_price higher
max_price-ge p [] = dec_leb_refl p
max_price-ge p (q ∷ qs) =
    dec_leb_trans p (higher p q.decimal_price) (max_price p (q ∷ qs))
      (higher-ge p q.decimal_price).0 (max_price-ge (higher p q.decimal_price) qs)

max_price-All :
    (p : Decimal) (qs : List OddsQuote)
    → All (λ q. dec_leb q.decimal_price (max_price p qs) ≡ true) qs
unfolding max_price higher
max_price-All p [] = tt
max_price-All p (q ∷ qs) =
    let next = higher p q.decimal_price in
    (
      dec_leb_trans q.decimal_price next (max_price p (q ∷ qs)) (higher-ge p q.decimal_price).1
          (max_price-ge next qs),
      max_price-All next qs,
    )

-- The highest price is the one of a quote.
max_price-In :
    (q : OddsQuote) (qs : List OddsQuote)
    → (b : OddsQuote) × In b (q ∷ qs) × (max_price q.decimal_price qs ≡ b.decimal_price)
unfolding max_price dec_ltb
max_price-In q [] = (q, inl refl, refl)
max_price-In q (r ∷ qs) = elim (Bool-cases (dec_leb r.decimal_price q.decimal_price)) [
  | inl e ↦ rw e (
      let (b, i, h) = max_price-In q qs in
      elim i [ inl here ↦ (b, inl here, h) | inr j ↦ (b, inr (inr j), h) ])
  | inr e ↦ rw e (let (b, i, h) = max_price-In r qs in (b, inr i, h))
]

later : ℕ → ℕ → ℕ
later t u = if ltb t u then u else t

pub max_time-ge : (t : ℕ) (qs : List OddsQuote) → t ≤ max_time t qs
unfolding max_time later
max_time-ge t [] = omega arith
max_time-ge t (q ∷ qs) = ground (arith, max_time-ge (later t (effective_timestamp q)) qs)

pub max_time-All :
    (t : ℕ) (qs : List OddsQuote) → All (λ q. effective_timestamp q ≤ max_time t qs) qs
unfolding max_time later
max_time-All t [] = tt
max_time-All t (q ∷ qs) =
    let next = later t (effective_timestamp q) in
    (ground (arith, max_time-ge next qs), max_time-All next qs)

-- The latest time is the one of a quote.
pub max_time-In :
    (q : OddsQuote) (qs : List OddsQuote)
    → (b : OddsQuote) × In b (q ∷ qs)
      × (max_time (effective_timestamp q) qs ≡ effective_timestamp b)
unfolding max_time
max_time-In q [] = (q, inl refl, refl)
max_time-In q (r ∷ qs) = elim (Bool-cases (ltb (effective_timestamp q) (effective_timestamp r))) [
  | inr e ↦ rw e (
      let (b, i, h) = max_time-In q qs in
      elim i [ inl here ↦ (b, inl here, h) | inr j ↦ (b, inr (inr j), h) ])
  | inl e ↦ rw e (let (b, i, h) = max_time-In r qs in (b, inr i, h))
]

lesser : OddsQuote → OddsQuote → OddsQuote
lesser p q = if key_leb (tie_key p) (tie_key q) then p else q

lesser-le :
    (p q : OddsQuote)
    → (key_leb (tie_key (lesser p q)) (tie_key p) ≡ true)
      × (key_leb (tie_key (lesser p q)) (tie_key q) ≡ true)
unfolding lesser
lesser-le p q = elim (Bool-cases (key_leb (tie_key p) (tie_key q))) [
  | inl e ↦ rw e (key_leb_refl (tie_key p), e)
  | inr e ↦ rw e (key_leb_total (tie_key p) (tie_key q) e, key_leb_refl (tie_key q))
]

min_key-le :
    (p : OddsQuote) (qs : List OddsQuote) → key_leb (tie_key (min_key p qs)) (tie_key p) ≡ true
unfolding min_key lesser
min_key-le p [] = key_leb_refl (tie_key p)
min_key-le p (q ∷ qs) =
    key_leb_trans (tie_key (min_key p (q ∷ qs))) (tie_key (lesser p q)) (tie_key p)
      (min_key-le (lesser p q) qs) (lesser-le p q).0

min_key-All :
    (p : OddsQuote) (qs : List OddsQuote)
    → All (λ q. key_leb (tie_key (min_key p qs)) (tie_key q) ≡ true) (p ∷ qs)
unfolding min_key lesser
min_key-All p [] = (key_leb_refl (tie_key p), tt)
min_key-All p (q ∷ qs) = (
  min_key-le p (q ∷ qs),
  (
    key_leb_trans (tie_key (min_key p (q ∷ qs))) (tie_key (lesser p q)) (tie_key q)
        (min_key-le (lesser p q) qs) (lesser-le p q).1,
    (min_key-All (lesser p q) qs).1,
  ),
)

min_key-In :
    (p : OddsQuote) (qs : List OddsQuote) → (b : OddsQuote) × In b (p ∷ qs) × (min_key p qs ≡ b)
unfolding min_key
min_key-In p [] = (p, inl refl, refl)
min_key-In p (q ∷ qs) = elim (Bool-cases (key_leb (tie_key p) (tie_key q))) [
  | inl e ↦ rw e (
      let (b, i, h) = min_key-In p qs in
      elim i [ inl here ↦ (b, inl here, h) | inr j ↦ (b, inr (inr j), h) ])
  | inr e ↦ rw e (let (b, i, h) = min_key-In q qs in (b, inr i, h))
]

LosesLater-of :
    (x b : OddsQuote) (latest : ℕ)
    → nat_beq (effective_timestamp b) latest ≡ true
    → (nat_beq (effective_timestamp x) latest ≡ false) ⊎ (key_leb (tie_key b) (tie_key x) ≡ true)
    → effective_timestamp x ≤ latest
    → LosesLater x b
LosesLater-of x b latest time (inl h) le = ground arith
LosesLater-of x b latest time (inr h) le = elim (Bool-cases (ltb (effective_timestamp x) latest)) [
  | inl e ↦ inl (ground arith)
  | inr e ↦ inr (ground arith, h)
]

-- Of quotes with one effective time: the one with the least key.
first_tie-best :
    (qs : List OddsQuote) (c : OddsQuote)
    → In c qs
    → (b : OddsQuote) × (first_tie qs ≡ some b)
      × In b qs
      × All (λ q. key_leb (tie_key b) (tie_key q) ≡ true) qs
unfolding first_tie
first_tie-best [] c i = absurd i
first_tie-best (q ∷ qs) c i =
    let (b, j, h) = min_key-In q qs in
    (
      b,
      ap some h,
      j,
      subst (λ x. All (λ r. key_leb (tie_key x) (tie_key r) ≡ true) (q ∷ qs)) h (min_key-All q qs),
    )

freshest-best :
    (qs : List OddsQuote) (c : OddsQuote)
    → In c qs
    → (b : OddsQuote) × (freshest qs ≡ some b) × In b qs × All (λ q. LosesLater q b) qs
unfolding freshest
freshest-best [] c i = absurd i
freshest-best (q ∷ qs) c i =
    let latest = max_time (effective_timestamp q) qs in
    let at : OddsQuote → Bool = λ x. nat_beq (effective_timestamp x) latest in
    let (l, il, el) = max_time-In q qs in
    let (b, found, j, least) =
      first_tie-best (keep at (q ∷ qs)) l
        (In-keep_back at l (q ∷ qs) il ((nat_beq_iff _ _).1 (sym el))) in
    let (k, time) = In-keep at b (q ∷ qs) j in
    (
      b,
      found,
      k,
      All-map_both _ _ _ (λ x h le. LosesLater-of x b latest time h le) (q ∷ qs)
          (keep-All_back _ at (q ∷ qs) least)
          (max_time-ge (effective_timestamp q) qs, max_time-All (effective_timestamp q) qs),
    )

Loses-of :
    (x b : OddsQuote) (best : Decimal)
    → dec_eqb b.decimal_price best ≡ true
    → (dec_eqb x.decimal_price best ≡ false) ⊎ LosesLater x b
    → dec_leb x.decimal_price best ≡ true
    → Loses x b
unfolding dec_eqb dec_ltb
Loses-of x b best price h le =
    let (up, down) = &&-true (dec_leb b.decimal_price best) (dec_leb best b.decimal_price) price in
    elim (Bool-cases (dec_leb b.decimal_price x.decimal_price)) [
      | inr e ↦ inl (rw e refl)
      | inl e ↦ elim h [
        | inr l ↦ inr (rw (e, dec_leb_trans x.decimal_price best b.decimal_price le down) refl, l)
        | inl n ↦ absurd (ground (arith, dec_leb_trans best b.decimal_price x.decimal_price down e))
      ]
    ]

-- Of one candidate or more, `_best_quote` returns one of them, to which every candidate loses: its
-- price is lower, or its price is the same and its effective time earlier, or both are the same and
-- its provider and identifier come no sooner.
pub best_quote_best :
    (c : OddsQuote) (cs : List OddsQuote)
    → (b : OddsQuote) × (best_quote (c ∷ cs) ≡ some b)
      × In b (c ∷ cs)
      × All (λ q. Loses q b) (c ∷ cs)
unfolding best_quote
best_quote_best c cs =
    let best = max_price c.decimal_price cs in
    let at : OddsQuote → Bool = λ x. dec_eqb x.decimal_price best in
    let (l, il, el) = max_price-In c cs in
    let (b, found, j, least) = freshest-best (keep at (c ∷ cs)) l (
      In-keep_back at l (c ∷ cs) il
        (subst (λ p. dec_eqb l.decimal_price p ≡ true) (sym el) (dec_eqb_refl l.decimal_price))) in
    let (k, price) = In-keep at b (c ∷ cs) j in
    (
      b,
      found,
      k,
      All-map_both _ _ _ (λ x h le. Loses-of x b best price h le) (c ∷ cs)
          (keep-All_back _ at (c ∷ cs) least)
          (max_price-ge c.decimal_price cs, max_price-All c.decimal_price cs),
    )
