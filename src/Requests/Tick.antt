-- ===== src/Requests/Tick.antt =====
-- core/crates/client-evm/src/tick.rs: a clock of 64 bits that wraps.
use armchair_analyst.Prelude.{
  ℕ, zero, suc, ◌+◌, ◌-◌, ◌%◌, ◌^◌, ◌<◌, ◌≤◌, ◌≡◌, ◌↔◌, Bool, true, leb, arith,
}

abbrev pub Tick : Type 0
Tick = ℕ

abbrev pub request_ttl : ℕ
request_ttl = 10

unfoldable pub initial : Tick
initial = 0

-- `wrapping_add(1)`.
unfoldable pub next : Tick → Tick
next t = (t + 1) % 2 ^ 64

-- `wrapping_sub`.
unfoldable pub elapsed_since : Tick → Tick → ℕ
elapsed_since t earlier = (t + 2 ^ 64 - earlier) % 2 ^ 64

unfoldable pub is_expired_since : Tick → Tick → Bool
unfolding elapsed_since
is_expired_since t dispatched_at = leb request_ttl (elapsed_since t dispatched_at)

-- The clock some ticks later.
unfoldable pub after : ℕ → Tick → Tick
unfolding next
after zero t = t
after (suc n) t = next (after n t)

after_lem : (n : ℕ) (t : Tick) → t < 2 ^ 64 → after n t ≡ (t + n) % 2 ^ 64
unfolding after
after_lem zero t h = omega arith
after_lem (suc n) t h = omega (arith, after_lem n t h)

pub elapsed_since-after :
    (n : ℕ) (t : Tick) → t < 2 ^ 64 → n < 2 ^ 64 → elapsed_since (after n t) t ≡ n
unfolding elapsed_since
elapsed_since-after n t h b = omega (arith, after_lem n t h)

-- A request is expired after a number of ticks exactly when they are ten or more, across the wrap of the
-- clock too, if fewer than all 64-bit ticks have gone by.
pub is_expired_since-after :
    (n : ℕ) (t : Tick)
    → t < 2 ^ 64
    → n < 2 ^ 64
    → (is_expired_since (after n t) t ≡ true) ↔ (request_ttl ≤ n)
unfolding is_expired_since
is_expired_since-after n t h b = rw (elapsed_since-after n t h b, is_expired_since) (ground arith)
