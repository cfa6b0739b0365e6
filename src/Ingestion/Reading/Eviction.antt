-- ===== src/Ingestion/Reading/Eviction.antt =====
-- ingestion/realtime.py: which versions are fresh, and what `evict_stale` takes away.
use mathlib.Core.List.{Perm}
use mathlib.Core.List.Perm
use arbiscan_arbitrage_scann.Prelude.{
  ℕ, ◌+◌, ◌≤◌, ◌≡◌, refl, ap, inl, inr, Bool, true, false, not, List, [], ◌∷◌, ◌++◌, arith, is_none,
  keep, All, keep-All, All-map, keep-append-perm, keep-keep, keep-keep_none, Bool-cases,
}
use arbiscan_arbitrage_scann.Prelude.Sort.{sort_by-All, sort_by-perm}
use arbiscan_arbitrage_scann.Prelude.Dict.{Dict}
use arbiscan_arbitrage_scann.Domain.{effective_timestamp, QuoteStatus}
use arbiscan_arbitrage_scann.Ingestion.Quotes.{
  RealtimeIngestionPolicy, QuoteKey, QuoteVersion, LiveQuoteStore, version_key,
}
use arbiscan_arbitrage_scann.Ingestion.Reading.{
  values, is_fresh, fresh_versions, is_stale, stale_count, eviction, evict_stale,
}

-- What the policy allows into an evaluation at a moment.
pub record IsActionable (policy : RealtimeIngestionPolicy) (moment : ℕ) (v : QuoteVersion)
    : Type 0 where
  pub active : v.quote.status ≡ QuoteStatus.active
  pub ingested : v.quote.ingested_at ≤ moment
  pub not_future : effective_timestamp v.quote ≤ moment
  pub in_window : moment ≤ effective_timestamp v.quote + policy.freshness_window

is_fresh→IsActionable :
    (policy : RealtimeIngestionPolicy) (moment : ℕ) (v : QuoteVersion)
    → is_fresh policy moment v ≡ true
    → IsActionable policy moment v
unfolding is_fresh
is_fresh→IsActionable policy moment v e = record {
  active = ground arith;
  ingested = ground arith;
  not_future = ground arith;
  in_window = ground arith;
}

not-IsActionable :
    (policy : RealtimeIngestionPolicy) (moment : ℕ) (v : QuoteVersion)
    → not (is_fresh policy moment v) ≡ true
    → ¬ IsActionable policy moment v
unfolding is_fresh
not-IsActionable policy moment v e a = ground arith

-- `fresh_versions` returns exactly the stored versions that are active, ingested, not in the future
-- and inside the freshness window: with the others, of which none is so, they are all that is stored.
pub fresh_versions_exact :
    (s : LiveQuoteStore) (moment : ℕ)
    → (rest : List QuoteVersion) × Perm (fresh_versions s moment ++ rest) (values s.current)
      × All (IsActionable s.policy moment) (fresh_versions s moment)
      × All (λ v. ¬ IsActionable s.policy moment v) rest
unfolding fresh_versions
fresh_versions_exact s moment =
    let p = is_fresh s.policy moment in
    let vs = values s.current in
    (
      keep (λ v. not (p v)) vs,
      Perm.trans (Perm.append_right _ (sort_by-perm version_key (keep p vs)))
          (keep-append-perm p vs),
      sort_by-All version_key _ _
          (All-map _ _ (is_fresh→IsActionable s.policy moment) (keep p vs) (keep-All p vs)),
      All-map _ _ (not-IsActionable s.policy moment) _ (keep-All (λ v. not (p v)) vs),
    )

values-keep :
    (p : QuoteVersion → Bool) (d : Dict QuoteKey QuoteVersion)
    → values (keep (λ e. p e.1) d) ≡ keep p (values d)
values-keep p [] = refl
values-keep p (e ∷ d) = elim (Bool-cases (p e.1)) [
  | inl y ↦ rw y (ap (λ t. e.1 ∷ t) (values-keep p d))
  | inr n ↦ rw n (values-keep p d)
]

fresh-not_evicted :
    (policy : RealtimeIngestionPolicy) (moment : ℕ) (v : QuoteVersion)
    → is_fresh policy moment v ≡ true
    → is_none (eviction policy moment v) ≡ true
unfolding is_fresh eviction
fresh-not_evicted policy moment v e = ground arith

not_evicted-not_stale :
    (policy : RealtimeIngestionPolicy) (moment : ℕ) (v : QuoteVersion)
    → is_none (eviction policy moment v) ≡ true
    → is_stale policy moment v ≡ false
unfolding eviction
not_evicted-not_stale policy moment v e = ground arith

-- `evict_stale` loses nothing: what it keeps and what it reports are together what was stored. It
-- changes no answer of `fresh_versions` at that moment, and leaves no stale version behind.
pub evict_stale_effect :
    (s : LiveQuoteStore) (moment : ℕ)
    → let (s', r) = evict_stale s moment in
      Perm (values s'.current ++ r.evicted) (values s.current)
      × (fresh_versions s' moment ≡ fresh_versions s moment)
      × (stale_count s' moment ≡ 0)
unfolding evict_stale fresh_versions stale_count
evict_stale_effect s moment =
    let stays = λ (v : QuoteVersion). is_none (eviction s.policy moment v) in
    let vs = values s.current in
    (
      rw (values-keep stays s.current) (
          Perm.trans (Perm.append_left (keep stays vs) (sort_by-perm version_key _))
            (keep-append-perm stays vs)),
      rw (values-keep stays s.current) (
          rw (keep-keep (is_fresh s.policy moment) stays (fresh-not_evicted s.policy moment) vs)
            refl),
      rw (values-keep stays s.current) (
          rw
            (keep-keep_none (is_stale s.policy moment) stays (not_evicted-not_stale s.policy moment)
              vs)
            refl),
    )
