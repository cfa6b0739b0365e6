-- ===== src/Ingestion/Store/Replay.antt =====
-- ingestion/realtime.py: `LiveQuoteStore.apply` drops what it has seen.
use arbiscan_arbitrage_scann.Prelude.{
  ℕ, ◌≤◌, ◌≡◌, ◌⊎◌, refl, inl, inr, true, none, some, [], ◌∷◌, arith, Option, ==-refl,
}
use arbiscan_arbitrage_scann.Prelude.Dict.{Dict, lookup, lookup-insert}
use arbiscan_arbitrage_scann.Domain.{OddsQuote, QuoteStatus, status_eqb}
use arbiscan_arbitrage_scann.Domain.Number.{dec_eqb_refl}
use arbiscan_arbitrage_scann.Ingestion.Quotes.{
  QuoteKey, quote_key, quote_key_eq, QuoteVersion, LiveQuoteStore,
}
use arbiscan_arbitrage_scann.Ingestion.Store.{
  Verdict, reject, repeat, add, update, judge, Progress, settle, apply_one, apply, no_result,
  same_fingerprint, version_of,
}

status_eqb_refl : (s : QuoteStatus) → status_eqb s s ≡ true
status_eqb_refl QuoteStatus.active = refl
status_eqb_refl _ = refl

same_fingerprint_refl : (q : OddsQuote) → same_fingerprint q q ≡ true
unfolding same_fingerprint
same_fingerprint_refl q = ground (arith, dec_eqb_refl q.decimal_price, status_eqb_refl q.status)

judge_self :
    (tolerance observed later revision : ℕ) (current : Option QuoteVersion) (q : OddsQuote)
    → observed ≤ later
    → (judge tolerance observed current q ≡ add)
      ⊎ ((r : ℕ) × (judge tolerance observed current q ≡ update r))
    → judge tolerance later (some (version_of observed revision q)) q ≡ repeat
unfolding judge
judge_self tolerance observed later revision none q le e = ground (arith, same_fingerprint_refl q)
judge_self tolerance observed later revision (some w) q le (inl e) =
    ground (arith, same_fingerprint_refl q)
judge_self tolerance observed later revision (some w) q le (inr (r, e)) =
    ground (arith, same_fingerprint_refl q)

judge_again :
    (tolerance observed later : ℕ) (current : Option QuoteVersion) (q : OddsQuote)
    → observed ≤ later
    → judge tolerance observed current q ≡ repeat
    → judge tolerance later current q ≡ repeat
unfolding judge
judge_again tolerance observed later none q le e = ground arith
judge_again tolerance observed later (some w) q le e = ground arith

settle-repeats :
    (tolerance observed later : ℕ) (q : OddsQuote) (v : Verdict) (p : Progress)
    → observed ≤ later
    → judge tolerance observed (lookup (quote_key q) p.0) q ≡ v
    → (settle observed q v p).1.rejected_count ≡ p.1.rejected_count
    → judge tolerance later (lookup (quote_key q) (settle observed q v p).0) q ≡ repeat
unfolding settle
settle-repeats tolerance observed later q (reject code) p le e kept = absurd (omega arith)
settle-repeats tolerance observed later q repeat p le e kept =
    judge_again tolerance observed later _ q le e
settle-repeats tolerance observed later q add p le e kept =
    rw (lookup-insert, ==-refl)
      (judge_self tolerance observed later 1 (lookup (quote_key q) p.0) q le (inl e))
settle-repeats tolerance observed later q (update revision) p le e kept =
    rw (lookup-insert, ==-refl)
      (judge_self tolerance observed later revision (lookup (quote_key q) p.0) q le
        (inr (revision, e)))

apply_one-repeat :
    (tolerance later : ℕ) (d : Dict QuoteKey QuoteVersion) (q : OddsQuote)
    → judge tolerance later (lookup (quote_key q) d) q ≡ repeat
    → let p = apply_one tolerance later (d, no_result) q in
      (p.0 ≡ d) × (p.1.duplicate_count ≡ 1) × (p.1.accepted ≡ [])
unfolding apply_one settle
apply_one-repeat tolerance later d q e = (rw e, rw e (omega arith), rw e)

apply_one-repeats :
    (tolerance observed later : ℕ) (p : Progress) (q : OddsQuote)
    → observed ≤ later
    → (apply_one tolerance observed p q).1.rejected_count ≡ p.1.rejected_count
    → judge tolerance later (lookup (quote_key q) (apply_one tolerance observed p q).0) q ≡ repeat
unfolding apply_one
apply_one-repeats tolerance observed later p q le kept =
    settle-repeats tolerance observed later q
      (judge tolerance observed (lookup (quote_key q) p.0) q) _ le refl kept

-- A quote that was not rejected is a duplicate when it is applied again, at the same time or later:
-- the store stays as it is, and the quote is counted as a duplicate alone.
pub apply_again :
    (s : LiveQuoteStore) (q : OddsQuote) (observed later : ℕ)
    → observed ≤ later
    → (apply s (q ∷ []) observed).1.rejected_count ≡ 0
    → let s' = (apply s (q ∷ []) observed).0 in
      ((apply s' (q ∷ []) later).0.current ≡ s'.current)
      × ((apply s' (q ∷ []) later).1.duplicate_count ≡ 1)
      × ((apply s' (q ∷ []) later).1.accepted ≡ [])
unfolding apply
apply_again s q observed later le kept =
    let tolerance = s.policy.clock_skew_tolerance in
    apply_one-repeat tolerance later (apply_one tolerance observed (s.current, no_result) q).0 q
      (apply_one-repeats tolerance observed later (s.current, no_result) q le kept)
