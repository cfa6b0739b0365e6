-- ===== src/Services/Enablement/Laws.antt =====
-- services/source_enablement.py: `select` returns the enabled adapters or nothing.
use mathlib.Core.Option.{some-injective}
use arbiscan_arbitrage_scann.Prelude.{
  ℕ, Bool, true, false, not, ◌&&◌, ◌||◌, Option, none, some, List, [], ◌∷◌, map, ◌≡◌, refl, sym, ap,
  subst, ◌∙◌, ◌⊎◌, inl, inr, arith, All, All-map, nat_eq, ◌==◌, ==-refl, ==→eq, ==-sym_false,
  contains, subset, all_distinct, is_none, Bool-cases, &&-true, false-true, checked, if◌then◌else◌,
}
use arbiscan_arbitrage_scann.Prelude.Options.{◌>>=◌}
use arbiscan_arbitrage_scann.Prelude.Dict.{
  Dict, lookup, insert, lookup-insert, insert-All, lookup-All,
}
use arbiscan_arbitrage_scann.Prelude.Sort.{sort_by, sort_by-All}
use arbiscan_arbitrage_scann.Services.Enablement.{
  TransportSourceEnablementPolicy, index, has_unknown, take_all, select,
}

module _ {Adapter : Type 0} (provider_id : Adapter → ℕ) where
  abbrev ids : List Adapter → List ℕ
  ids adapters = map provider_id adapters

  -- No adapter has the id of another one, or one that the dict knows.
  abbrev is_new : Dict ℕ Adapter → List Adapter → Bool
  is_new d [] = true
  is_new d (a ∷ rest) =
      is_none (lookup (provider_id a) d)
      && not (contains (ids rest) (provider_id a))
      && is_new d rest

  is_new-insert :
      (k : ℕ) (v : Adapter) (d : Dict ℕ Adapter) (rest : List Adapter)
      → is_new (insert k v d) rest ≡ (not (contains (ids rest) k) && is_new d rest)
  is_new-insert k v d [] = refl
  is_new-insert k v d (a ∷ rest) =
      let i = provider_id a in
      let before = is_none (lookup i d) in
      elim (Bool-cases (k == i)) [
        | inl e ↦ rw (lookup-insert k i v d, e) (rw (==→eq k i e) (rw (==-refl i) refl))
        | inr e ↦
            rw (lookup-insert k i v d, e, ==-sym_false k i e, is_new-insert k v d rest)
              (shuffle before (not (contains (ids rest) i)) (not (contains (ids rest) k))
                (is_new d rest))
      ]
    where
      shuffle : (a b c d : Bool) → (a && b && (c && d)) ≡ (c && (a && b && d))
      shuffle a b c d = ground arith

  -- What the loop ends with.
  abbrev Indexed : Dict ℕ Adapter → List Adapter → Option (Dict ℕ Adapter) → Type 0
  Indexed d rest none = is_new d rest ≡ false
  Indexed d rest (some d') =
      (is_new d rest ≡ true)
      × ((k : ℕ) → is_none (lookup k d') ≡ (is_none (lookup k d) && not (contains (ids rest) k)))

  is_new-cons :
      (d : Dict ℕ Adapter) (a : Adapter) (rest : List Adapter)
      → is_none (lookup (provider_id a) d) ≡ true
      → is_new (insert (provider_id a) a d) rest ≡ is_new d (a ∷ rest)
  is_new-cons d a rest e = rw (is_new-insert (provider_id a) a d rest, e) refl

  Indexed-cons :
      (d : Dict ℕ Adapter) (a : Adapter) (rest : List Adapter)
      → is_none (lookup (provider_id a) d) ≡ true
      → (o : Option (Dict ℕ Adapter)) → Indexed (insert (provider_id a) a d) rest o
      → Indexed d (a ∷ rest) o
  Indexed-cons d a rest e none h = sym (is_new-cons d a rest e) ∙ h
  Indexed-cons d a rest e (some d') h =
      let i = provider_id a in
      (
        sym (is_new-cons d a rest e) ∙ h.0,
        λ k. elim (Bool-cases (i == k)) [
          | inl f ↦
              h.1 k
              ∙ rw (lookup-insert i k a d, f)
                  (rw (ap (λ x. is_none (lookup x d)) (sym (==→eq i k f)) ∙ e) refl)
          | inr f ↦ h.1 k ∙ rw (lookup-insert i k a d, f) refl
        ],
      )

  index-Indexed :
      (d : Dict ℕ Adapter) (rest : List Adapter) → Indexed d rest (index provider_id d rest)
  unfolding index
  index-Indexed d [] = (refl, λ k. ground arith)
  index-Indexed d (a ∷ rest) = elim (Bool-cases (is_none (lookup (provider_id a) d))) [
    | inl e ↦ rw e (
        Indexed-cons d a rest e (index provider_id (insert (provider_id a) a d) rest)
          (index-Indexed (insert (provider_id a) a d) rest))
    | inr e ↦
        subst
          (λ b.
            Indexed d (a ∷ rest)
              (if b then index provider_id (insert (provider_id a) a d) rest else none))
          (sym e) (rw e refl)
  ]

  is_new-all_distinct : (adapters : List Adapter) → is_new [] adapters ≡ all_distinct (ids adapters)
  unfolding lookup
  is_new-all_distinct [] = refl
  is_new-all_distinct (a ∷ rest) =
      rw (is_new-all_distinct rest)
        (by_test (contains (ids rest) (provider_id a)) (all_distinct (ids rest)))
    where
      by_test : (b c : Bool) → (true && not b && c) ≡ (if b then false else c)
      by_test true c = refl
      by_test false c = refl

  abbrev IsIn : Adapter → List Adapter → Type 0
  IsIn a [] = ⊥
  IsIn a (b ∷ bs) = (a ≡ b) ⊎ IsIn a bs

  all-IsIn : (adapters : List Adapter) → All (λ a. IsIn a adapters) adapters
  all-IsIn [] = tt
  all-IsIn (a ∷ rest) = (inl refl, All-map _ _ (λ b h. inr h) rest (all-IsIn rest))

  -- An entry of the dict: an adapter under its id, with a property of adapters.
  abbrev IsEntry : (Adapter → Type 0) → ℕ × Adapter → Type 0
  IsEntry P p = (provider_id p.1 ≡ p.0) × P p.1

  index-All :
      (P : Adapter → Type 0) (d d' : Dict ℕ Adapter) (rest : List Adapter)
      → index provider_id d rest ≡ some d'
      → All (IsEntry P) d
      → All P rest
      → All (IsEntry P) d'
  unfolding index
  index-All P d d' [] e h k = subst (All (IsEntry P)) (some-injective d d' e) h
  index-All P d d' (a ∷ rest) e h k = elim (Bool-cases (is_none (lookup (provider_id a) d))) [
    | inl f ↦
        index-All P (insert (provider_id a) a d) d' rest (rw f at e)
          (insert-All (IsEntry P) (provider_id a) a d (refl, k.0) h) k.1
    | inr f ↦ absurd (none-some (rw f at e))
  ]
    where
      none-some : {x : Dict ℕ Adapter} → none ≡ some x → ⊥
      none-some h = cc

  has_unknown-subset :
      (d : Dict ℕ Adapter) (xs known : List ℕ)
      → ((k : ℕ) → is_none (lookup k d) ≡ not (contains known k))
      → has_unknown provider_id d xs ≡ not (subset xs known)
  unfolding has_unknown
  has_unknown-subset d [] known h = refl
  has_unknown-subset d (x ∷ xs) known h =
      rw (h x, has_unknown-subset d xs known h) (by_test (contains known x) (subset xs known))
    where
      by_test : (b c : Bool) → (not b || not c) ≡ not (b && c)
      by_test true c = refl
      by_test false c = refl

  -- The adapters of a row of ids, each with a property.
  abbrev Taken : (Adapter → Type 0) → List ℕ → Option (List Adapter) → Type 0
  Taken P xs none = ⊥
  Taken P xs (some out) = (ids out ≡ xs) × All P out

  Taken-cons :
      (P : Adapter → Type 0) (x : ℕ) (xs : List ℕ) (a : Adapter)
      → provider_id a ≡ x
      → P a
      → (o : Option (List Adapter)) → Taken P xs o
      → Taken P (x ∷ xs) (o >>= λ more. some (a ∷ more))
  Taken-cons P x xs a e p none h = h
  Taken-cons P x xs a e p (some out) h = (rw (e, h.0) refl, (p, h.1))

  take_all-Taken :
      (P : Adapter → Type 0) (d : Dict ℕ Adapter) (xs : List ℕ)
      → All (λ x. is_none (lookup x d) ≡ false) xs
      → All (IsEntry P) d
      → Taken P xs (take_all provider_id d xs)
  unfolding take_all
  take_all-Taken P d [] h k = (refl, tt)
  take_all-Taken P d (x ∷ xs) h k = go (lookup x d) refl h.0 (take_all-Taken P d xs h.1 k)
    where
      go :
          (o : Option Adapter)
          → lookup x d ≡ o
          → is_none o ≡ false
          → Taken P xs (take_all provider_id d xs)
          → Taken P (x ∷ xs) (o >>= λ a. take_all provider_id d xs >>= λ more. some (a ∷ more))
      go none e f t = absurd (ground arith)
      go (some a) e f t =
          let (same, p) = lookup-All (IsEntry P) x a d k e in
          Taken-cons P x xs a same p (take_all provider_id d xs) t

  -- Each id of a set is found.
  subset-found :
      (d : Dict ℕ Adapter) (xs known : List ℕ)
      → ((k : ℕ) → is_none (lookup k d) ≡ not (contains known k))
      → subset xs known ≡ true
      → All (λ x. is_none (lookup x d) ≡ false) xs
  subset-found d [] known h k = tt
  subset-found d (x ∷ xs) known h k =
      let (found, others) = &&-true (contains known x) (subset xs known) k in
      (h x ∙ ap not found, subset-found d xs known h others)

  subset_trans :
      (xs ys zs : List ℕ) → subset xs ys ≡ true → subset ys zs ≡ true → subset xs zs ≡ true
  subset_trans [] ys zs h k = refl
  subset_trans (x ∷ xs) ys zs h k =
      let (found, others) = &&-true (contains ys x) (subset xs ys) h in
      rw (subset-contains x ys zs found k, subset_trans xs ys zs others k) refl
    where
      subset-contains :
          (y : ℕ) (as' bs : List ℕ)
          → contains as' y ≡ true
          → subset as' bs ≡ true
          → contains bs y ≡ true
      subset-contains y [] bs h k = absurd (false-true h)
      subset-contains y (a ∷ more) bs h k =
          let (here, there) = &&-true (contains bs a) (subset more bs) k in
          elim (Bool-cases (a == y)) [
            | inl e ↦ ap (contains bs) (sym (==→eq a y e)) ∙ here
            | inr e ↦ subset-contains y more bs (rw e at h) there
          ]

  -- The adapters of a configuration that is accepted, or its refusal.
  abbrev pub Selects :
      TransportSourceEnablementPolicy → List Adapter → Option (List Adapter) → Type 0
  Selects p adapters none =
      (all_distinct (ids adapters) && subset p.enabled_provider_ids (ids adapters)) ≡ false
  Selects p adapters (some out) =
      ((all_distinct (ids adapters) && subset p.enabled_provider_ids (ids adapters)) ≡ true)
      × (ids out ≡ sort_by (λ i. i ∷ []) p.enabled_provider_ids)
      × All (λ a. IsIn a adapters) out

  module _ (p : TransportSourceEnablementPolicy) (adapters : List Adapter)
      (kept : subset p.required_provider_ids p.enabled_provider_ids ≡ true) where
    Taken-Selects :
        (all_distinct (ids adapters) && subset p.enabled_provider_ids (ids adapters)) ≡ true
        → (o : Option (List Adapter))
        → Taken (λ a. IsIn a adapters) (sort_by (λ i. i ∷ []) p.enabled_provider_ids) o
        → Selects p adapters o
    Taken-Selects accepted none h = absurd h
    Taken-Selects accepted (some out) h = (accepted, h.0, h.1)

    -- Behind the index of the adapters.
    indexed-Selects :
        (d : Dict ℕ Adapter)
        → index provider_id [] adapters ≡ some d
        → all_distinct (ids adapters) ≡ true
        → ((k : ℕ) → is_none (lookup k d) ≡ not (contains (ids adapters) k))
        → Selects p adapters (
            checked
              (has_unknown provider_id d p.enabled_provider_ids
                ∷ has_unknown provider_id d p.required_provider_ids
                ∷ [])
              d
            >>= λ known. take_all provider_id known (sort_by (λ i. i ∷ []) p.enabled_provider_ids))
    indexed-Selects d made distinct known =
        let enabled = p.enabled_provider_ids in
        let required = p.required_provider_ids in
        let names = ids adapters in
        elim (Bool-cases (subset enabled names)) [
          | inl e ↦
              rw
                (
                  has_unknown-subset d enabled names known,
                  has_unknown-subset d required names known,
                  e,
                  subset_trans required enabled names kept e,
                )
                (Taken-Selects (rw (distinct, e) refl) _ (
                  take_all-Taken (λ a. IsIn a adapters) d (sort_by (λ i. i ∷ []) enabled)
                    (sort_by-All (λ i. i ∷ []) _ enabled (subset-found d enabled names known e))
                    (index-All (λ a. IsIn a adapters) [] d adapters made tt (all-IsIn adapters))))
          | inr e ↦ rw (has_unknown-subset d enabled names known, e) (rw (distinct, e) refl)
        ]

    -- Where the required ids are among the enabled ones, a selection is refused exactly if two adapters
    -- have the same id, or an id is enabled that no adapter has. Else the given adapters of the enabled
    -- ids are returned, one for each id and in the order of the ids.
    pub select-Selects : Selects p adapters (select provider_id p adapters)
    unfolding select lookup
    select-Selects = go (index provider_id [] adapters) refl (index-Indexed [] adapters)
      where
        go :
            (o : Option (Dict ℕ Adapter))
            → index provider_id [] adapters ≡ o
            → Indexed [] adapters o
            → Selects p adapters (
                o >>= λ d.
                checked
                  (has_unknown provider_id d p.enabled_provider_ids
                    ∷ has_unknown provider_id d p.required_provider_ids
                    ∷ [])
                  d
                >>= λ known.
                    take_all provider_id known (sort_by (λ i. i ∷ []) p.enabled_provider_ids))
        go none e h = rw (sym (is_new-all_distinct adapters) ∙ h) refl
        go (some d) e h =
            indexed-Selects d e (sym (is_new-all_distinct adapters) ∙ h.0) (λ k. h.1 k)
