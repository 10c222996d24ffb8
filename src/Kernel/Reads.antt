-- ===== src/Kernel/Reads.antt =====
-- core/crates/client-evm/src/kernel/mod.rs: the reads of a state, and the policy of finalized refreshes.
use armchair_analyst.Prelude.{
  ℕ, nat_eq, ◌+◌, ◌-◌, ◌*◌, ◌/◌, ◌<◌, ◌≤◌, ◌≡◌, ◌↔◌, refl, Bool, true, false, Option, none, some,
  inl, inr, leb, ltb, ltb→lt, if◌then◌else◌, arith, Bool-cases,
}
use native.Mathlib.Nat.{div-mul-le_self, le-div_iff_mul-le, div-lt_iff_lt-mul}
use armchair_analyst.Pools.Keys.{ChainKey, BlockHash}
use armchair_analyst.Pools.Chains.{pool_manager_address}
use armchair_analyst.Graph.Walks.{distance_from_head}
use armchair_analyst.Graph.Fold.{
  BloomApi, Snapshot, projected_pool_states, projected_pool_states_if_changed,
}
use armchair_analyst.Requests.Pending.{in_flight}
use armchair_analyst.Market.Registries.{verified_pools, verified_size, MetadataCatalog, from_views}
use armchair_analyst.Kernel.{State}

-- The two reads of an amount of blocks, `finalized_refresh_bucket` and its use. The stride is not zero.
unfoldable pub finalized_refresh_bucket : ℕ → ℕ → ℕ → ℕ
finalized_refresh_bucket len target_len retry_stride = (len - target_len) / retry_stride

unfoldable pub should_fetch_finalized_header : Option ℕ → Option ℕ → ℕ → ℕ → Bool
unfolding finalized_refresh_bucket
should_fetch_finalized_header before_len none target_len retry_stride = false
should_fetch_finalized_header none (some after_len) target_len retry_stride =
    leb target_len after_len
should_fetch_finalized_header (some before_len) (some after_len) target_len retry_stride =
    if ltb after_len target_len
    then false
    else if ltb before_len target_len
    then true
    else ltb (finalized_refresh_bucket before_len target_len retry_stride)
        (finalized_refresh_bucket after_len target_len retry_stride)

-- The lengths at which a refresh is due: the target, and every stride above it.
abbrev pub Crossed : ℕ → ℕ → ℕ → ℕ → Type 0
Crossed before_len after_len target_len stride =
    (k : ℕ) × (target_len + k * stride ≤ after_len) × (before_len < target_len + k * stride)

buckets-Crossed :
    (b a t stride : ℕ)
    → 0 < stride
    → t ≤ a
    → t ≤ b
    → ((b - t) / stride < (a - t) / stride) ↔ Crossed b a t stride
buckets-Crossed b a t stride h ta tb = (
  λ l.
      let k = (a - t) / stride in
      let low = div-mul-le_self (a - t) stride in
      let high = (div-lt_iff_lt-mul {x = b - t} {y = k} h).0 l in
      (k, omega (arith, low, ta), omega (arith, high, tb)),
  λ c.
      let (k, low, high) = c in
      let u = (div-lt_iff_lt-mul {x = b - t} {y = k} h).1 (omega (arith, high, tb)) in
      let v = (le-div_iff_mul-le {x = k} {y = a - t} h).1 (omega (arith, low, ta)) in
      omega (arith, u, v),
)

known-Crossed :
    (before_len after_len target_len retry_stride : ℕ)
    → 0 < retry_stride
    → (should_fetch_finalized_header (some before_len) (some after_len) target_len retry_stride
        ≡ true)
      ↔ Crossed before_len after_len target_len retry_stride
unfolding should_fetch_finalized_header finalized_refresh_bucket
known-Crossed b a t stride h = elim (Bool-cases (ltb a t)) [
  | inl short ↦
      rw (short, should_fetch_finalized_header)
        (λ e. absurd (ground (arith, e)), λ c. absurd (omega (arith, ltb→lt a t short, c.1)))
  | inr long ↦ elim (Bool-cases (ltb b t)) [
    | inl first ↦
        rw (long, should_fetch_finalized_header)
          (rw (first, should_fetch_finalized_header)
            (λ e. (0, ground (arith, long), ground (arith, first)), λ c. refl))
    | inr later ↦
        let m = buckets-Crossed b a t stride h (ground (arith, long)) (ground (arith, later)) in
        rw (long, should_fetch_finalized_header)
          (rw (later, should_fetch_finalized_header)
            (λ e. m.0 (ltb→lt _ _ e), λ c. ground (arith, m.1 c)))
  ]
]

-- The length of the path before an event has not reached `mark`: there was no path, or it is shorter.
abbrev pub Below : Option ℕ → ℕ → Type 0
Below none mark = Unit
Below (some len) mark = len < mark

-- One of the marks (the target and every stride above it) is reached by the later length and not by the
-- earlier one.
abbrev pub CrossedFrom : Option ℕ → Option ℕ → ℕ → ℕ → Type 0
CrossedFrom before_len none target_len stride = ⊥
CrossedFrom before_len (some after_len) target_len stride =
    (k : ℕ) × (target_len + k * stride ≤ after_len) × Below before_len (target_len + k * stride)

-- Where the stride is not zero, a refresh of the finalized header is asked for exactly when the canonical path
-- exists after the event and has reached a mark (the target, or a stride above it) that it had not reached
-- before the event, a path that did not exist having reached none.
pub should_fetch_finalized_header-CrossedFrom :
    (before_len after_len : Option ℕ) (target_len retry_stride : ℕ)
    → 0 < retry_stride
    → (should_fetch_finalized_header before_len after_len target_len retry_stride ≡ true)
      ↔ CrossedFrom before_len after_len target_len retry_stride
unfolding should_fetch_finalized_header
should_fetch_finalized_header-CrossedFrom none none t stride h =
    (λ e. ground (arith, e), λ c. absurd c)
should_fetch_finalized_header-CrossedFrom (some b) none t stride h =
    (λ e. ground (arith, e), λ c. absurd c)
should_fetch_finalized_header-CrossedFrom none (some a) t stride h =
    (λ e. (0, ground (arith, e), tt), λ c. first (c.0 * stride) c.1)
  where
    first : (m : ℕ) → t + m ≤ a → leb t a ≡ true
    first m l = ground (arith, l)
should_fetch_finalized_header-CrossedFrom (some b) (some a) t stride h =
    known-Crossed b a t stride h

pub record OptimizationStateUpdate : Type 0 where
  pub block_hash : BlockHash
  pub pool_states : Snapshot

unfoldable pub projected_states : BloomApi → State → ChainKey → Snapshot × BlockHash
unfolding projected_pool_states verified_pools pool_manager_address
projected_states api s chain =
    projected_pool_states api s.blocks.graph s.blocks.finalized_snapshot
      (verified_pools s.pool_registry chain) (pool_manager_address chain)

unfoldable pub optimization_update : BloomApi → State → ChainKey → OptimizationStateUpdate
unfolding projected_states
optimization_update api s chain =
    let (pool_states, block_hash) = projected_states api s chain in
    record { block_hash = block_hash; pool_states = pool_states }

unfoldable pub optimization_update_if_changed :
    BloomApi → State → ChainKey → Option BlockHash → Option OptimizationStateUpdate
unfolding projected_pool_states_if_changed verified_pools pool_manager_address
optimization_update_if_changed api s chain last_dispatched =
    elim (projected_pool_states_if_changed api s.blocks.graph s.blocks.finalized_snapshot
      (verified_pools s.pool_registry chain) (pool_manager_address chain) last_dispatched) [
        | none ↦ none
        | some (pool_states, block_hash) ↦
            some (record { block_hash = block_hash; pool_states = pool_states })
      ]

unfoldable pub blocks_behind : State → BlockHash → Option ℕ
unfolding distance_from_head
blocks_behind s reference_hash = distance_from_head s.blocks.graph reference_hash

unfoldable pub canonical_path_len_from_finalized : State → Option ℕ
unfolding distance_from_head
canonical_path_len_from_finalized s = distance_from_head s.blocks.graph s.blocks.graph.anchor.hash

unfoldable pub finalized_head : State → BlockHash × ℕ
finalized_head s = (s.blocks.graph.anchor.hash, s.blocks.graph.anchor.number)

unfoldable pub canonical_head : State → BlockHash
canonical_head s = s.blocks.graph.observed_head

unfoldable pub in_flight_request_count : State → ℕ
unfolding in_flight
in_flight_request_count s = in_flight s.pending_requests

unfoldable pub verified_pool_count : State → ℕ
unfolding verified_size
verified_pool_count s = verified_size s.pool_registry

unfoldable pub metadata_catalog : State → MetadataCatalog
unfolding from_views
metadata_catalog s = from_views s.pool_registry s.token_registry
