-- ===== src/Graph/Fold/Overlay.antt =====
-- core/crates/client-evm/src/kernel/blocks_graph.rs: `folded_overlay` and `folded_pool_states`, pool
-- by pool.
use armchair_analyst.Prelude.{
  ◌≡◌, ◌∙◌, ap, subst, refl, Bool, true, false, inl, inr, Option, none, some, List, [], ◌∷◌, ◌==◌,
  UniqueKeys, lookup, insert, lookup-insert, insert-UniqueKeys, contains_key, contains, is_some,
  if◌then◌else◌, arith, Bool-cases, Option-cases,
}
use armchair_analyst.Pools.Keys.{BlockHash, pool_key_eq, PoolRef, pool_ref_eq, pool_ref_beq_iff}
use armchair_analyst.Pools.Events.{PoolState, PoolLogEvent, derive_pool_state}
use armchair_analyst.Graph.Types.{BlocksGraph}
use armchair_analyst.Graph.Walks.{connected_path_data}
use armchair_analyst.Graph.Fold.{
  Authority, Buckets, bucket_path, Snapshot, overlay_pool, overlay_base, overlay_verified,
  folded_overlay, extend_snapshot, folded_pool_states,
}
use armchair_analyst.Graph.Fold.Buckets.{path_events, grow, lookup-bucket_path}

-- The state that a run of events gives a pool, if there is a run.
abbrev pub changed : Option PoolState → List PoolLogEvent → Option PoolState
changed base [] = none
changed base (e ∷ es) = derive_pool_state base (e ∷ es)

-- The entry of `pool` after `overlay_pool`, from its bucket and the entry before.
unfoldable from_bucket :
    Option PoolState → Option (List PoolLogEvent) → Option PoolState → Option PoolState
from_bucket base none before = before
from_bucket base (some run) before = elim (derive_pool_state base run) [
  | none ↦ before
  | some folded ↦ some folded
]

lookup-overlay_pool :
    (buckets : Buckets) (p pool : PoolRef) (base : Option PoolState) (overlay : Snapshot)
    → lookup p (overlay_pool buckets pool base overlay) ≡ (
        if pool == p
        then from_bucket base (lookup pool.key buckets) (lookup p overlay)
        else lookup p overlay)
unfolding overlay_pool from_bucket
lookup-overlay_pool buckets p pool base overlay = elim (Option-cases (lookup pool.key buckets)) [
  | inl no_bucket ↦ rw (no_bucket, overlay_pool, from_bucket) (both (pool == p) (lookup p overlay))
  | inr (run, found) ↦ elim (Option-cases (derive_pool_state base run)) [
    | inl stuck ↦
        rw (found, overlay_pool, from_bucket)
          (rw (stuck, overlay_pool, from_bucket) (both (pool == p) (lookup p overlay)))
    | inr (folded, derived) ↦
        rw (found, overlay_pool, from_bucket)
          (rw (derived, overlay_pool, from_bucket) (lookup-insert p pool folded overlay))
  ]
]
  where
    both : (b : Bool) (o : Option PoolState) → o ≡ (if b then o else o)
    both true o = refl
    both false o = refl

-- The entry of a pool after the pass over the snapshot.
abbrev after_base :
    Option PoolState → Option (List PoolLogEvent) → Option PoolState → Option PoolState
after_base none bucket before = before
after_base (some state) bucket before = from_bucket (some state) bucket before

lookup-overlay_base :
    (buckets : Buckets) (p : PoolRef) (base overlay : Snapshot)
    → UniqueKeys base
    → lookup p (overlay_base buckets base overlay)
      ≡ after_base (lookup p base) (lookup p.key buckets) (lookup p overlay)
unfolding overlay_base lookup
lookup-overlay_base buckets p [] overlay u = refl
lookup-overlay_base buckets p ((pool, state) ∷ base) overlay u =
    let rest =
      lookup-overlay_base buckets p base (overlay_pool buckets pool (some state) overlay) u.1 in
    let entry = lookup-overlay_pool buckets p pool (some state) overlay in
    elim (Bool-cases (pool == p)) [
      | inl here ↦
          let same = (pool_ref_beq_iff pool p).0 here in
          let absent = subst (λ q. lookup q base ≡ none) same u.0 in
          rest
          ∙ rw (absent, here)
              (entry
                ∙ rw here (
                    ap
                      (λ (q : PoolRef).
                        from_bucket (some state) (lookup q.key buckets) (lookup p overlay))
                      same))
      | inr there ↦
          rest
          ∙ rw there (
              ap (after_base (lookup p base) (lookup p.key buckets)) {y = lookup p overlay}
                (entry ∙ rw there refl))
    ]

from_bucket-twice :
    (base : Option PoolState) (bucket : Option (List PoolLogEvent)) (before : Option PoolState)
    → from_bucket base bucket (from_bucket base bucket before) ≡ from_bucket base bucket before
unfolding from_bucket
from_bucket-twice base none before = refl
from_bucket-twice base (some run) before = ground arith

-- The entry of a pool after the pass over the verified pools.
abbrev after_verified :
    Bool → Bool → Option (List PoolLogEvent) → Option PoolState → Option PoolState
after_verified true listed bucket before = before
after_verified false true bucket before = from_bucket none bucket before
after_verified false false bucket before = before

lookup-overlay_verified :
    (buckets : Buckets) (base : Snapshot) (p : PoolRef) (verified : List PoolRef)
    (overlay : Snapshot)
    → lookup p (overlay_verified buckets base verified overlay)
      ≡ after_verified
          (contains_key p base)
          (contains p verified)
          (lookup p.key buckets)
          (lookup p overlay)
unfolding overlay_verified
lookup-overlay_verified buckets base p [] overlay = ground arith
lookup-overlay_verified buckets base p (pool ∷ verified) overlay =
    let next = if contains_key pool base then overlay else overlay_pool buckets pool none overlay in
    let rest = lookup-overlay_verified buckets base p verified next in
    let entry = lookup-overlay_pool buckets p pool none overlay in
    ground (
      arith,
      rest,
      entry,
      pool_ref_beq_iff pool p,
      from_bucket-twice none (lookup p.key buckets) (lookup p overlay),
    )

from_run :
    (base : Option PoolState) (run : List PoolLogEvent)
    → from_bucket base (grow none run) none ≡ changed base run
unfolding from_bucket
from_run base [] = refl
from_run base (e ∷ es) = ground arith

-- What the fold reports for a pool: the state it had, whether it is verified, and its run of events.
abbrev pub pool_entry : Option PoolState → Bool → List PoolLogEvent → Option PoolState
pool_entry (some state) listed run = changed (some state) run
pool_entry none true run = changed none run
pool_entry none false run = none

-- The pass over the path, bucketed by pool, reports exactly the pools that have logs on the path: each
-- with the state that its own logs, oldest first, derive from its entry in the snapshot, or from nothing
-- where the pool is verified and has no entry.
pub lookup-folded_overlay :
    (g : BlocksGraph) (base : Snapshot) (verified : List PoolRef) (target : BlockHash)
    (authority : Authority) (p : PoolRef)
    → UniqueKeys base
    → lookup p (folded_overlay g base verified target authority)
      ≡ pool_entry
          (lookup p base)
          (contains p verified)
          (path_events authority p.key (connected_path_data g target))
unfolding folded_overlay lookup contains_key
lookup-folded_overlay g base verified target authority p u =
    let path = connected_path_data g target in
    let run = path_events authority p.key path in
    let buckets = bucket_path authority path [] in
    let bucket = lookup-bucket_path authority p.key path [] in
    let first = lookup-overlay_base buckets p base [] u in
    let second = lookup-overlay_verified buckets base p verified (overlay_base buckets base []) in
    second ∙ rw (first, bucket) (by_entry (lookup p base) (contains p verified) run)
  where
    by_entry :
        (o : Option PoolState) (listed : Bool) (run : List PoolLogEvent)
        → after_verified (is_some o) listed (grow none run) (after_base o (grow none run) none)
          ≡ pool_entry o listed run
    by_entry (some s) listed run = from_run (some s) run
    by_entry none true run = from_run none run
    by_entry none false run = refl

overlay_pool-UniqueKeys :
    (buckets : Buckets) (pool : PoolRef) (base : Option PoolState) (overlay : Snapshot)
    → UniqueKeys overlay
    → UniqueKeys (overlay_pool buckets pool base overlay)
unfolding overlay_pool
overlay_pool-UniqueKeys buckets pool base overlay u =
    elim (Option-cases (lookup pool.key buckets)) [
      | inl no_bucket ↦ rw (no_bucket, overlay_pool) u
      | inr (run, found) ↦ elim (Option-cases (derive_pool_state base run)) [
        | inl stuck ↦ rw (found, overlay_pool) (rw (stuck, overlay_pool) u)
        | inr (folded, derived) ↦
            rw (found, overlay_pool)
              (rw (derived, overlay_pool) (insert-UniqueKeys pool folded overlay u))
      ]
    ]

overlay_base-UniqueKeys :
    (buckets : Buckets) (base overlay : Snapshot)
    → UniqueKeys overlay
    → UniqueKeys (overlay_base buckets base overlay)
unfolding overlay_base
overlay_base-UniqueKeys buckets [] overlay u = u
overlay_base-UniqueKeys buckets ((pool, state) ∷ base) overlay u =
    overlay_base-UniqueKeys buckets base (overlay_pool buckets pool (some state) overlay)
      (overlay_pool-UniqueKeys buckets pool (some state) overlay u)

overlay_verified-UniqueKeys :
    (buckets : Buckets) (base : Snapshot) (verified : List PoolRef) (overlay : Snapshot)
    → UniqueKeys overlay
    → UniqueKeys (overlay_verified buckets base verified overlay)
unfolding overlay_verified
overlay_verified-UniqueKeys buckets base [] overlay u = u
overlay_verified-UniqueKeys buckets base (pool ∷ verified) overlay u =
    elim (Bool-cases (contains_key pool base)) [
      | inl has ↦
          rw (has, overlay_verified) (overlay_verified-UniqueKeys buckets base verified overlay u)
      | inr has ↦
          rw (has, overlay_verified)
            (overlay_verified-UniqueKeys buckets base verified
              (overlay_pool buckets pool none overlay)
              (overlay_pool-UniqueKeys buckets pool none overlay u))
    ]

lookup-extend_snapshot :
    (base overlay : Snapshot) (p : PoolRef)
    → UniqueKeys overlay
    → lookup p (extend_snapshot base overlay)
      ≡ elim (lookup p overlay) [ none ↦ lookup p base | some folded ↦ some folded ]
unfolding extend_snapshot lookup
lookup-extend_snapshot base [] p u = refl
lookup-extend_snapshot base ((pool, state) ∷ overlay) p u =
    let rest = lookup-extend_snapshot (insert pool state base) overlay p u.1 in
    let entry = lookup-insert p pool state base in
    elim (Bool-cases (pool == p)) [
      | inl here ↦
          let absent =
            subst (λ q. lookup q overlay ≡ none) ((pool_ref_beq_iff pool p).0 here) u.0 in
          rest ∙ rw (absent, here) (entry ∙ rw here refl)
      | inr there ↦ rest ∙ ground (arith, entry, there)
    ]

overlay-UniqueKeys :
    (g : BlocksGraph) (base : Snapshot) (verified : List PoolRef) (target : BlockHash)
    (authority : Authority)
    → UniqueKeys (folded_overlay g base verified target authority)
unfolding folded_overlay
overlay-UniqueKeys g base verified target authority =
    let buckets = bucket_path authority (connected_path_data g target) [] in
    overlay_verified-UniqueKeys buckets base verified (overlay_base buckets base [])
      (overlay_base-UniqueKeys buckets base [] tt)

-- The entry of a pool in the folded snapshot: the one the fold reports, or else the old one.
abbrev pub folded_entry : Option PoolState → Bool → List PoolLogEvent → Option PoolState
folded_entry before listed run = elim (pool_entry before listed run) [
  | none ↦ before
  | some folded ↦ some folded
]

-- The folded snapshot, pool by pool: the state derived from the logs of the pool on the path where they
-- derive one, and otherwise the entry of the snapshot as it was.
pub lookup-folded_pool_states :
    (g : BlocksGraph) (base : Snapshot) (verified : List PoolRef) (target : BlockHash)
    (authority : Authority) (p : PoolRef)
    → UniqueKeys base
    → lookup p (folded_pool_states g base verified target authority)
      ≡ folded_entry
          (lookup p base)
          (contains p verified)
          (path_events authority p.key (connected_path_data g target))
unfolding folded_pool_states
lookup-folded_pool_states g base verified target authority p u =
    lookup-extend_snapshot base (folded_overlay g base verified target authority) p
      (overlay-UniqueKeys g base verified target authority)
    ∙ rw (lookup-folded_overlay g base verified target authority p u) refl
