-- ===== src/Pools/Bounds.antt =====
-- core/crates/client-evm/src/pool_log.rs: the range of the liquidity of a derived state.
use armchair_analyst.Prelude.{
  ℕ, ◌+◌, ◌-◌, ◌^◌, ◌<◌, ◌≡◌, eq_of_some, ltb, leb, ltb→lt, leb→le, subst, sym, Bool-cases, ◌⊎◌,
  inl, inr, Option, none, some, List, [], ◌∷◌, arith, Option-cases,
}
use armchair_analyst.Pools.Events.{
  PoolState, PoolLogEvent, initialize, swap, mint, burn, checked_add, checked_sub, fold_event,
  fold_events, derive_pool_state,
}

-- The liquidity fits in a `u128`.
abbrev pub InRange : PoolState → Type 0
InRange s = s.liquidity < 2 ^ 128

abbrev pub EventInRange : PoolLogEvent → Type 0
EventInRange (swap price tick liquidity) = liquidity < 2 ^ 128
EventInRange _ = Unit {0}

abbrev pub AllInRange : List PoolLogEvent → Type 0
AllInRange [] = Unit {0}
AllInRange (e ∷ es) = EventInRange e × AllInRange es

abbrev pub BaseInRange : Option PoolState → Type 0
BaseInRange none = Unit {0}
BaseInRange (some s) = InRange s

pub checked_add_lem : (l a r : ℕ) → checked_add l a ≡ some r → (r ≡ l + a) × (r < 2 ^ 128)
unfolding checked_add
checked_add_lem l a r h = elim (Bool-cases (ltb (l + a) (2 ^ 128))) [
  | inl fits ↦
      let e : l + a ≡ r = eq_of_some (rw fits at h) in
      (sym e, subst (λ n. n < 2 ^ 128) e (ltb→lt _ _ fits))
  | inr over ↦ absurd (cc (rw over at h))
]

pub checked_sub_lem : (l a r : ℕ) → checked_sub l a ≡ some r → r + a ≡ l
unfolding checked_sub
checked_sub_lem l a r h = elim (Bool-cases (leb a l)) [
  | inl fits ↦ let e : l - a ≡ r = eq_of_some (rw fits at h) in omega (arith, leb→le a l fits)
  | inr over ↦ absurd (cc (rw over at h))
]

pub checked_add-cases :
    (l a : ℕ)
    → (checked_add l a ≡ none)
      ⊎ ((r : ℕ) × (checked_add l a ≡ some r) × (r ≡ l + a) × (r < 2 ^ 128))
checked_add-cases l a = elim (Option-cases (checked_add l a)) [
  | inl e ↦ inl e
  | inr (r, e) ↦ let (s, b) = checked_add_lem l a r e in inr (r, e, s, b)
]

pub checked_sub-cases :
    (l a : ℕ) → (checked_sub l a ≡ none) ⊎ ((r : ℕ) × (checked_sub l a ≡ some r) × (r + a ≡ l))
checked_sub-cases l a = elim (Option-cases (checked_sub l a)) [
  | inl e ↦ inl e
  | inr (r, e) ↦ inr (r, e, checked_sub_lem l a r e)
]

fold_event-InRange :
    (base : Option PoolState) (e : PoolLogEvent) (next : Option PoolState)
    → BaseInRange base
    → EventInRange e
    → fold_event base e ≡ some next
    → BaseInRange next
unfolding fold_event
fold_event-InRange none (mint lo hi a) next b r h = ground arith
fold_event-InRange (some s) (mint lo hi a) next b r h =
    ground (arith, checked_add-cases s.liquidity a)
fold_event-InRange none (burn lo hi a) next b r h = ground arith
fold_event-InRange (some s) (burn lo hi a) next b r h =
    ground (arith, checked_sub-cases s.liquidity a)
fold_event-InRange base (swap p t l) next b r h = ground arith
fold_event-InRange base (initialize p t) next b r h = ground arith

fold_events-InRange :
    (base : Option PoolState) (es : List PoolLogEvent) (last : Option PoolState)
    → BaseInRange base
    → AllInRange es
    → fold_events base es ≡ some last
    → BaseInRange last
unfolding fold_events
fold_events-InRange base [] last b r h = ground arith
fold_events-InRange base (e ∷ es) last b r h = elim (Option-cases (fold_event base e)) [
  | inl stop ↦ absurd (ground (arith, stop))
  | inr (next, go) ↦
      fold_events-InRange next es last (fold_event-InRange base e next b r.0 go) r.1
        (rw (go, fold_events) at h)
]

-- The liquidity of a derived state fits in a `u128`, if that of the base and of every swap does: the
-- checked additions and subtractions keep the range.
pub derive-InRange :
    (base : Option PoolState) (es : List PoolLogEvent) (s : PoolState)
    → BaseInRange base
    → AllInRange es
    → derive_pool_state base es ≡ some s
    → s.liquidity < 2 ^ 128
unfolding derive_pool_state
derive-InRange base es s b r h = elim (Option-cases (fold_events base es)) [
  | inl stop ↦ absurd (ground (arith, stop))
  | inr (last, go) ↦
      subst BaseInRange {y = some s} (ground (arith, go)) (fold_events-InRange base es last b r go)
]
