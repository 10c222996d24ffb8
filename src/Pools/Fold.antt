-- ===== src/Pools/Fold.antt =====
-- core/crates/client-evm/src/pool_log.rs: what `derive_pool_state` computes.
use armchair_analyst.Prelude.{
  ℕ, ◌≡◌, refl, inl, inr, Option, none, some, List, [], ◌∷◌, ◌++◌, ℤ, arith, Option-cases,
}
use armchair_analyst.Pools.Events.{
  PoolState, PoolLogEvent, swap, fold_event, fold_events, derive_pool_state,
}

fold_events-append :
    (base : Option PoolState) (xs ys : List PoolLogEvent)
    → fold_events base (xs ++ ys)
      ≡ elim (fold_events base xs) [ none ↦ none | some mid ↦ fold_events mid ys ]
unfolding fold_events
fold_events-append base [] ys = refl
fold_events-append base (x ∷ xs) ys = elim (Option-cases (fold_event base x)) [
  | inl stop ↦ rw (stop, fold_events) refl
  | inr (next, go) ↦ rw (go, fold_events) (fold_events-append next xs ys)
]

-- A run that derives a state can be cut anywhere: deriving the second part from the state that the
-- first part left gives the state of the whole run.
pub derive-append :
    (base : Option PoolState) (xs ys : List PoolLogEvent) (mid : PoolState)
    → derive_pool_state base xs ≡ some mid
    → derive_pool_state base (xs ++ ys) ≡ derive_pool_state (some mid) ys
unfolding derive_pool_state
derive-append base xs ys mid h = ground (arith, fold_events-append base xs ys)

-- Whatever the base, a run whose part before a swap does not overflow derives the same state as
-- the run that starts with the swap, from no base at all.
pub derive-swap :
    (base mid : Option PoolState) (xs ys : List PoolLogEvent) (price : ℕ) (tick : ℤ) (liquidity : ℕ)
    → fold_events base xs ≡ some mid
    → derive_pool_state base (xs ++ swap price tick liquidity ∷ ys)
      ≡ derive_pool_state none (swap price tick liquidity ∷ ys)
unfolding derive_pool_state
derive-swap base mid xs ys price tick liquidity h =
    ground (arith, fold_events-append base xs (swap price tick liquidity ∷ ys))
