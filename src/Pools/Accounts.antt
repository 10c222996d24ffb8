-- ===== src/Pools/Accounts.antt =====
-- core/crates/client-evm/src/pool_log.rs: runs of mints and burns.
use armchair_analyst.Prelude.{
  ℕ, ◌+◌, ◌≡◌, refl, ap, leb_ℤ, ltb_ℤ, ◌∙◌, Bool-cases, inl, inr, ◌&&◌, Option, some, List, [], ◌∷◌,
  ℤ, arith, Option-cases, if◌then◌else◌,
}
use mathlib.Core.Path.{ap₂}
use armchair_analyst.Pools.Events.{
  PoolState, PoolLogEvent, initialize, swap, mint, burn, active, checked_add, checked_sub,
  fold_event, fold_events, derive_pool_state,
}
use armchair_analyst.Pools.Bounds.{checked_add_lem, checked_sub_lem}

-- The events that carry a change of liquidity, not a whole state.
abbrev pub IsDelta : PoolLogEvent → Type 0
IsDelta (swap p t l) = ⊥
IsDelta (initialize p t) = ⊥
IsDelta (mint lo hi a) = Unit {0}
IsDelta (burn lo hi a) = Unit {0}

abbrev pub AllDelta : List PoolLogEvent → Type 0
AllDelta [] = Unit {0}
AllDelta (e ∷ es) = IsDelta e × AllDelta es

-- What the mints (the burns) of a run add (take) at the tick of the pool.
abbrev pub minted : PoolState → List PoolLogEvent → ℕ
minted s [] = 0
minted s (mint lo hi a ∷ es) = (if active s lo hi then a else 0) + minted s es
minted s (_ ∷ es) = minted s es

abbrev pub burned : PoolState → List PoolLogEvent → ℕ
burned s [] = 0
burned s (burn lo hi a ∷ es) = (if active s lo hi then a else 0) + burned s es
burned s (_ ∷ es) = burned s es

active-tick : (s t : PoolState) (lo hi : ℤ) → s.tick ≡ t.tick → active s lo hi ≡ active t lo hi
unfolding active
active-tick s t lo hi e = ap (λ i. leb_ℤ lo i && ltb_ℤ i hi) e

-- The liquidity that enters in `minted` and `burned` never moves the tick.
minted-tick :
    (s t : PoolState) (es : List PoolLogEvent) → s.tick ≡ t.tick → minted s es ≡ minted t es
minted-tick s t [] e = refl
minted-tick s t (mint lo hi a ∷ es) e =
    ap₂ (λ b n. (if b then a else 0) + n) (active-tick s t lo hi e) (minted-tick s t es e)
minted-tick s t (burn lo hi a ∷ es) e = minted-tick s t es e
minted-tick s t (swap p q l ∷ es) e = minted-tick s t es e
minted-tick s t (initialize p q ∷ es) e = minted-tick s t es e

burned-tick :
    (s t : PoolState) (es : List PoolLogEvent) → s.tick ≡ t.tick → burned s es ≡ burned t es
burned-tick s t [] e = refl
burned-tick s t (mint lo hi a ∷ es) e = burned-tick s t es e
burned-tick s t (burn lo hi a ∷ es) e =
    ap₂ (λ b n. (if b then a else 0) + n) (active-tick s t lo hi e) (burned-tick s t es e)
burned-tick s t (swap p q l ∷ es) e = burned-tick s t es e
burned-tick s t (initialize p q ∷ es) e = burned-tick s t es e

-- The effect of a run on one state.
abbrev pub Accounts : PoolState → List PoolLogEvent → PoolState → Type 0
Accounts s es t =
    (t.sqrt_price_x96 ≡ s.sqrt_price_x96)
    × (t.tick ≡ s.tick)
    × (t.liquidity + burned s es ≡ s.liquidity + minted s es)

fold_delta-Accounts :
    (s : PoolState) (e : PoolLogEvent) (next : Option PoolState)
    → IsDelta e
    → fold_event (some s) e ≡ some next
    → (t : PoolState) × (next ≡ some t) × Accounts s (e ∷ []) t
unfolding fold_event
fold_delta-Accounts s (mint lo hi a) next d h = elim (Option-cases (checked_add s.liquidity a)) [
  | inl n ↦ elim (Bool-cases (active s lo hi)) [
    | inl on ↦ absurd (ground (arith, on, n))
    | inr off ↦ (s, ground (arith, off), (refl, refl, rw off (omega arith)))
  ]
  | inr (l, e) ↦ elim (Bool-cases (active s lo hi)) [
    | inl on ↦ (
      record s { liquidity = l },
      ground (arith, on, e),
      (refl, refl, rw on (omega (arith, checked_add_lem s.liquidity a l e))),
    )
    | inr off ↦ (s, ground (arith, off), (refl, refl, rw off (omega arith)))
  ]
]
fold_delta-Accounts s (burn lo hi a) next d h = elim (Option-cases (checked_sub s.liquidity a)) [
  | inl n ↦ elim (Bool-cases (active s lo hi)) [
    | inl on ↦ absurd (ground (arith, on, n))
    | inr off ↦ (s, ground (arith, off), (refl, refl, rw off (omega arith)))
  ]
  | inr (l, e) ↦ elim (Bool-cases (active s lo hi)) [
    | inl on ↦ (
      record s { liquidity = l },
      ground (arith, on, e),
      (refl, refl, rw on (omega (arith, checked_sub_lem s.liquidity a l e))),
    )
    | inr off ↦ (s, ground (arith, off), (refl, refl, rw off (omega arith)))
  ]
]
fold_delta-Accounts s (swap p t l) next d h = absurd d
fold_delta-Accounts s (initialize p t) next d h = absurd d

cons-Accounts :
    (s t u : PoolState) (e : PoolLogEvent) (es : List PoolLogEvent)
    → IsDelta e
    → Accounts s (e ∷ []) t
    → Accounts t es u
    → Accounts s (e ∷ es) u
cons-Accounts s t u (mint lo hi a) es d f g =
    let m = minted-tick t s es f.1 in
    let b = burned-tick t s es f.1 in (g.0 ∙ f.0, g.1 ∙ f.1, omega arith)
cons-Accounts s t u (burn lo hi a) es d f g =
    let m = minted-tick t s es f.1 in
    let b = burned-tick t s es f.1 in (g.0 ∙ f.0, g.1 ∙ f.1, omega arith)
cons-Accounts s t u (swap p q l) es d f g = absurd d
cons-Accounts s t u (initialize p q) es d f g = absurd d

fold_events-Accounts :
    (s u : PoolState) (es : List PoolLogEvent)
    → AllDelta es
    → fold_events (some s) es ≡ some (some u)
    → Accounts s es u
unfolding fold_events
fold_events-Accounts s u [] d h = ground arith
fold_events-Accounts s u (e ∷ es) d h = elim (Option-cases (fold_event (some s) e)) [
  | inl stop ↦ absurd (ground (arith, stop))
  | inr (next, go) ↦
      let (t, is, step) = fold_delta-Accounts s e next d.0 go in
      cons-Accounts s t u e es d.0 step
        (fold_events-Accounts t u es d.1 (rw is at (rw (go, fold_events) at h)))
]

-- A run of mints and burns leaves price and tick alone, and its liquidity is the one before plus all
-- that was minted less all that was burned in ranges that hold the tick.
pub derive-Accounts :
    (s u : PoolState) (es : List PoolLogEvent)
    → AllDelta es
    → derive_pool_state (some s) es ≡ some u
    → Accounts s es u
unfolding derive_pool_state
derive-Accounts s u es d h = elim (Option-cases (fold_events (some s) es)) [
  | inl stop ↦ absurd (ground (arith, stop))
  | inr (last, go) ↦ fold_events-Accounts s u es d (ground (arith, go))
]
