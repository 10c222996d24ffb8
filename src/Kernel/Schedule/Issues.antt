-- ===== src/Kernel/Schedule/Issues.antt =====
-- core/crates/client-evm/src/kernel/mod.rs: a scheduler as a list of requests that it enters one by one.
use armchair_analyst.Prelude.{
  ℕ, ◌+◌, ◌<◌, ◌^◌, ◌≡◌, ap, refl, sym, ◌∙◌, subst, inl, inr, List, [], ◌∷◌, ◌++◌, List-cases,
  length, length-append, arith, Bool-cases, nat_eq,
}
use armchair_analyst.Pools.Keys.{ChainKey, BlockHash, ProtocolPoolKey, TokenAddress}
use armchair_analyst.Graph.Fold.{BloomApi}
use armchair_analyst.Graph.Queries.{MissingRange}
use armchair_analyst.Graph.Queries.{
  missing_parents, unknown_log_hole_hashes, missing_complete_ranges_to,
  pool_log_candidates_from_head,
}
use armchair_analyst.Market.Registries.{verified_pools}
use armchair_analyst.Pools.Chains.{pool_manager_address}
use armchair_analyst.Requests.Pending.{
  PendingRequests, range_of_missing, has_pending_header_request, with_new_request,
  has_pending_block_backfill, pending_block_log_hashes, pending_log_range_numbers,
  pending_pool_metadata_candidates, pending_token_metadata_tokens,
}
use armchair_analyst.Requests.Ids.{Sound}
use armchair_analyst.Requests.Entered.{
  AnyRequest, header_of, logs_of, pool_metadata_of, token_metadata_of, pool_data_of, range_of,
  canonical_of, issued_as, put, new_id, AllTracked, put-Tracked, AllTracked-kept, put-Sound,
  AllTracked-append, new_id_lem, put_last,
}
use armchair_analyst.Kernel.{State}
use armchair_analyst.Kernel.Schedule.{
  Scheduled, with_request, stream_settle_depth, finalized_pool_seed_chunk, request_missing_header,
  request_headers, schedule_missing_header_requests, trusted_addresses, request_logs,
  schedule_unknown_canonical_log_requests, request_ranges, schedule_missing_log_range_requests,
  unknown_candidates, request_candidates, schedule_unknown_canonical_pool_metadata_requests,
  unknown_tokens_of, request_tokens, schedule_unknown_canonical_token_metadata_requests, sort_pools,
  truncate, uncovered_pools, schedule_finalized_pool_seed_requests,
  schedule_unknown_canonical_requests, orphan_suspected, with_finality_probe_if_orphan_suspected,
}

abbrev pub with_pending : PendingRequests → State → State
with_pending pending s = record s { pending_requests = pending }

-- One request enters.
abbrev pub enter : AnyRequest → Scheduled → Scheduled
enter q (s, effects) =
    let id = new_id s.pending_requests in
    (with_pending (put id q s.tick s.pending_requests) s, effects ++ issued_as id q ∷ [])

abbrev pub enter_all : List AnyRequest → Scheduled → Scheduled
enter_all [] r = r
enter_all (q ∷ qs) r = enter_all qs (enter q r)

enter_all-append :
    (ps qs : List AnyRequest) (r : Scheduled)
    → enter_all (ps ++ qs) r ≡ enter_all qs (enter_all ps r)
enter_all-append [] qs r = refl
enter_all-append (p ∷ ps) qs r = enter_all-append ps qs (enter p r)

-- What came after is what came before and some requests more.
abbrev pub Issues : Scheduled → Scheduled → Type 0
Issues r r' = (qs : List AnyRequest) × (r' ≡ enter_all qs r)

pub Issues-idle : (r : Scheduled) → Issues r r
Issues-idle r = ([], refl)

pub Issues-trans : {a b c : Scheduled} → Issues a b → Issues b c → Issues a c
Issues-trans {a} (ps, e) (qs, f) =
    (ps ++ qs, f ∙ ap (enter_all qs) e ∙ sym (enter_all-append ps qs a))

pub header-Issues : (hash : BlockHash) (r : Scheduled) → Issues r (request_missing_header hash r)
unfolding request_missing_header with_request with_new_request
header-Issues hash (s, effects) =
    elim (Bool-cases (has_pending_header_request s.pending_requests hash)) [
      | inl there ↦ rw (there, request_missing_header) (Issues-idle _)
      | inr absent ↦
          rw (absent, request_missing_header) (header_of (record { block_hash = hash }) ∷ [], refl)
    ]

pub headers-Issues : (hashes : List BlockHash) (r : Scheduled) → Issues r (request_headers hashes r)
unfolding request_headers
headers-Issues [] r = Issues-idle r
headers-Issues (hash ∷ hashes) r =
    Issues-trans (header-Issues hash r) (headers-Issues hashes (request_missing_header hash r))

pub logs-Issues : (hashes : List BlockHash) (r : Scheduled) → Issues r (request_logs hashes r)
unfolding request_logs with_request with_new_request
logs-Issues [] r = Issues-idle r
logs-Issues (hash ∷ hashes) r =
    Issues-trans (logs_of (record { block_hash = hash }) ∷ [], refl) (logs-Issues hashes _)

ranges-Issues : (ranges : List MissingRange) (r : Scheduled) → Issues r (request_ranges ranges r)
unfolding request_ranges with_request with_new_request
ranges-Issues [] r = Issues-idle r
ranges-Issues (range ∷ ranges) r =
    Issues-trans (range_of (range_of_missing range) ∷ [], refl) (ranges-Issues ranges _)

candidates-Issues :
    (chain : ChainKey) (blocks : List (BlockHash × List ProtocolPoolKey))
    (unavailable : List ProtocolPoolKey) (r : Scheduled)
    → Issues r (request_candidates chain blocks unavailable r)
unfolding request_candidates with_request with_new_request
candidates-Issues chain [] unavailable r = Issues-idle r
candidates-Issues chain ((hash, candidates) ∷ blocks) unavailable (s, effects) =
    let wanted = unknown_candidates chain s.pool_registry unavailable candidates in
    elim (List-cases wanted) [
      | inl e ↦ rw (e, request_candidates) (candidates-Issues chain blocks unavailable (s, effects))
      | inr (pool, pools, e) ↦
          rw (e, request_candidates)
            (Issues-trans
              (pool_metadata_of (record { block_at = hash; candidates = wanted }) ∷ [], refl)
              (candidates-Issues chain blocks (wanted ++ unavailable) _))
    ]

tokens-Issues :
    (chain : ChainKey) (blocks : List (BlockHash × List ProtocolPoolKey))
    (unavailable : List TokenAddress) (r : Scheduled)
    → Issues r (request_tokens chain blocks unavailable r)
unfolding request_tokens with_request with_new_request
tokens-Issues chain [] unavailable r = Issues-idle r
tokens-Issues chain ((hash, candidates) ∷ blocks) unavailable (s, effects) =
    let wanted = unknown_tokens_of chain s.pool_registry s.token_registry unavailable candidates in
    elim (List-cases wanted) [
      | inl e ↦ rw (e, request_tokens) (tokens-Issues chain blocks unavailable (s, effects))
      | inr (token, tokens, e) ↦
          rw (e, request_tokens)
            (Issues-trans
              (token_metadata_of (record { block_at = hash; tokens = wanted }) ∷ [], refl)
              (tokens-Issues chain blocks (wanted ++ unavailable) _))
    ]

pub seeds-Issues :
    (chain : ChainKey) (r : Scheduled) → Issues r (schedule_finalized_pool_seed_requests chain r)
unfolding schedule_finalized_pool_seed_requests with_request with_new_request
seeds-Issues chain (s, effects) =
    elim (Bool-cases (has_pending_block_backfill s.pending_requests)) [
      | inl busy ↦ rw (busy, schedule_finalized_pool_seed_requests) (Issues-idle _)
      | inr idle ↦ elim (List-cases (uncovered_pools chain s)) [
        | inl e ↦
            rw (idle, schedule_finalized_pool_seed_requests)
              (rw (e, schedule_finalized_pool_seed_requests) (Issues-idle _))
        | inr (pool, pools, e) ↦
            rw (idle, schedule_finalized_pool_seed_requests)
              (rw (e, schedule_finalized_pool_seed_requests)
                (
                  pool_data_of (record {
                    block_at = s.blocks.graph.anchor.hash;
                    pools = truncate finalized_pool_seed_chunk (sort_pools (pool ∷ pools));
                  })
                      ∷ [],
                  refl,
                ))
      ]
    ]

pub probe-Issues :
    (hash : BlockHash) (number : ℕ) (r : Scheduled)
    → Issues r (with_finality_probe_if_orphan_suspected hash number r)
unfolding with_finality_probe_if_orphan_suspected with_request with_new_request
probe-Issues hash number (s, effects) = elim (Bool-cases (orphan_suspected s hash number)) [
  | inl suspect ↦
      rw (suspect, with_finality_probe_if_orphan_suspected)
        (canonical_of (record { number = s.blocks.graph.anchor.number }) ∷ [], refl)
  | inr calm ↦ rw (calm, with_finality_probe_if_orphan_suspected) (Issues-idle _)
]

pub missing_log_ranges-Issues :
    (api : BloomApi) (chain : ChainKey) (target : BlockHash) (r : Scheduled)
    → Issues r (schedule_missing_log_range_requests api chain target r)
unfolding schedule_missing_log_range_requests
missing_log_ranges-Issues api chain target r =
    ranges-Issues
      (missing_complete_ranges_to api r.0.blocks.graph target
        (verified_pools r.0.pool_registry chain) (pool_manager_address chain)
        (pending_log_range_numbers r.0.pending_requests))
      r

pub missing_headers-Issues : (r : Scheduled) → Issues r (schedule_missing_header_requests r)
unfolding schedule_missing_header_requests
missing_headers-Issues r = headers-Issues (missing_parents r.0.blocks.graph) r

pub unknown_logs-Issues :
    (api : BloomApi) (chain : ChainKey) (r : Scheduled)
    → Issues r (schedule_unknown_canonical_log_requests api chain r)
unfolding schedule_unknown_canonical_log_requests
unknown_logs-Issues api chain r =
    logs-Issues
      (unknown_log_hole_hashes api r.0.blocks.graph (trusted_addresses chain r.0.pool_registry)
        (pending_block_log_hashes r.0.pending_requests) stream_settle_depth)
      r

pub pool_metadata-Issues :
    (chain : ChainKey) (blocks : List (BlockHash × List ProtocolPoolKey)) (r : Scheduled)
    → Issues r (schedule_unknown_canonical_pool_metadata_requests chain blocks r)
unfolding schedule_unknown_canonical_pool_metadata_requests
pool_metadata-Issues chain blocks r =
    candidates-Issues chain blocks (pending_pool_metadata_candidates r.0.pending_requests) r

pub token_metadata-Issues :
    (chain : ChainKey) (blocks : List (BlockHash × List ProtocolPoolKey)) (r : Scheduled)
    → Issues r (schedule_unknown_canonical_token_metadata_requests chain blocks r)
unfolding schedule_unknown_canonical_token_metadata_requests
token_metadata-Issues chain blocks r =
    tokens-Issues chain blocks (pending_token_metadata_tokens r.0.pending_requests) r

pub schedulers-Issues :
    (api : BloomApi) (chain : ChainKey) (r : Scheduled)
    → Issues r (schedule_unknown_canonical_requests api chain r)
unfolding schedule_unknown_canonical_requests
schedulers-Issues api chain r0 =
    let r1 = schedule_missing_header_requests r0 in
    let r2 = schedule_unknown_canonical_log_requests api chain r1 in
    let blocks = pool_log_candidates_from_head r2.0.blocks.graph in
    let r3 = schedule_unknown_canonical_pool_metadata_requests chain blocks r2 in
    let r4 = schedule_unknown_canonical_token_metadata_requests chain blocks r3 in
    Issues-trans (missing_headers-Issues r0) (
      Issues-trans (unknown_logs-Issues api chain r1) (
        Issues-trans (pool_metadata-Issues chain blocks r2)
          (Issues-trans (token_metadata-Issues chain blocks r3) (seeds-Issues chain r4))))

-- Only the requests of the state change.
pub Issues-frame : {r r' : Scheduled} → Issues r r' → r'.0 ≡ with_pending r'.0.pending_requests r.0
Issues-frame {r} {r'} (qs, e) =
    subst (λ t. t.0 ≡ with_pending t.0.pending_requests r.0) (sym e) (frame qs r)
  where
    frame :
        (qs : List AnyRequest) (r : Scheduled)
        → (enter_all qs r).0 ≡ with_pending (enter_all qs r).0.pending_requests r.0
    frame [] r = refl
    frame (q ∷ qs) r = frame qs (enter q r)

-- How the requests stand with the effects: the ids are in order, and what was handed out is pending.
pub record Tracks (r : Scheduled) : Type 0 where
  pub sound : Sound r.0.pending_requests
  pub tracked : AllTracked r.0.pending_requests r.1

abbrev pub next_free : Scheduled → ℕ
next_free r = r.0.pending_requests.last_request_id

enter-Tracks :
    (q : AnyRequest) (r : Scheduled) → next_free r + 1 < 2 ^ 64 → Tracks r → Tracks (enter q r)
enter-Tracks q (s, effects) room t =
    let id = new_id s.pending_requests in
    let later : s.pending_requests.last_request_id < id =
      omega (arith, new_id_lem s.pending_requests room) in
    record {
      sound = put-Sound s.pending_requests q id s.tick t.sound later;
      tracked =
          AllTracked-append (put id q s.tick s.pending_requests) effects (issued_as id q)
            (AllTracked-kept s.pending_requests q id s.tick t.sound later effects t.tracked)
            (put-Tracked s.pending_requests q id s.tick);
    }

pub enter_all-length :
    (qs : List AnyRequest) (r : Scheduled) → length (enter_all qs r).1 ≡ length r.1 + length qs
enter_all-length [] r = omega arith
enter_all-length (q ∷ qs) (s, effects) =
    let id = new_id s.pending_requests in
    omega (
      arith,
      enter_all-length qs (enter q (s, effects)),
      length-append effects (issued_as id q ∷ []),
    )

enter_all-Tracks :
    (qs : List AnyRequest) (r : Scheduled)
    → next_free r + length qs < 2 ^ 64
    → Tracks r
    → Tracks (enter_all qs r)
enter_all-Tracks [] r room t = t
enter_all-Tracks (q ∷ qs) (s, effects) room t =
    let one : s.pending_requests.last_request_id + 1 < 2 ^ 64 = omega (arith, room) in
    let id = new_id s.pending_requests in
    enter_all-Tracks qs (enter q (s, effects))
      (omega
        (arith, room, new_id_lem s.pending_requests one, put_last id q s.tick s.pending_requests))
      (enter-Tracks q (s, effects) one t)

-- Whatever a scheduler hands out is pending, with all that was pending before, if the 64-bit sequence of
-- ids has room for the effects.
pub Issues-Tracks :
    {r r' : Scheduled} → Issues r r' → next_free r + length r'.1 < 2 ^ 64 → Tracks r → Tracks r'
Issues-Tracks {r} (qs, e) room t =
    subst Tracks (sym e)
      (enter_all-Tracks qs r (omega (arith, room, ap (λ u. length u.1) e, enter_all-length qs r)) t)
