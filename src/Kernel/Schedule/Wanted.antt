-- ===== src/Kernel/Schedule/Wanted.antt =====
-- core/crates/client-evm/src/kernel/mod.rs: what the graph lacks is in flight once the schedulers have run.
use armchair_analyst.Prelude.{
  ℕ, nat_eq, suc, ◌+◌, ◌^◌, ◌<◌, ◌≤◌, ◌≡◌, ◌∙◌, ap, refl, sym, subst, true, ◌||◌, some, inl, inr,
  List, [], ◌∷◌, ◌==◌, map, any_by, contains, lookup, UniqueKeys, length, length-append, arith,
  Bool-cases, nat_beq_iff,
}
use armchair_analyst.Pools.Keys.{ChainKey, BlockHash, Bloom}
use armchair_analyst.Graph.Types.{BlockData}
use armchair_analyst.Graph.Walks.{present_chain_from_head}
use armchair_analyst.Graph.Fold.{BloomApi, bloom_patterns}
use armchair_analyst.Graph.Queries.{
  missing_parents, unknown_log_hole_hashes, holes_from, pool_log_candidates_from_head,
}
use armchair_analyst.Requests.Tracking.{RequestId, RequestCollection}
use armchair_analyst.Requests.Pending.{
  PendingRequests, GetBlockHeader, GetBlockLogs, AnyIssuedRequest, block_header_issued,
  block_log_issued, header_store, log_store, requests_of, log_target, with_new_request,
  has_pending_header_request, pending_block_log_hashes,
}
use armchair_analyst.Requests.Ids.{Sound}
use armchair_analyst.Requests.Entered.{
  AnyRequest, header_of, logs_of, issued_under, issued_as, new_id, new_id_lem, put_last, request_of,
  Tracked, put_kept, put-Tracked, put-Sound,
}
use armchair_analyst.Kernel.{State}
use armchair_analyst.Kernel.Schedule.{
  Scheduled, with_request, stream_settle_depth, request_missing_header, request_headers,
  schedule_missing_header_requests, trusted_addresses, request_logs,
  schedule_unknown_canonical_log_requests, schedule_unknown_canonical_pool_metadata_requests,
  schedule_unknown_canonical_token_metadata_requests, schedule_finalized_pool_seed_requests,
  schedule_unknown_canonical_requests,
}
use armchair_analyst.Kernel.Schedule.Issues.{
  enter, enter_all, enter_all-length, Issues, Issues-frame, Issues-trans, next_free, header-Issues,
  headers-Issues, logs-Issues, missing_headers-Issues, unknown_logs-Issues, pool_metadata-Issues,
  token_metadata-Issues, seeds-Issues,
}

-- A header, or the logs, of a block are asked for under some id.
abbrev pub HeaderInFlight : PendingRequests → BlockHash → Type 0
HeaderInFlight p hash =
    (id : RequestId) × Tracked p
      (block_header_issued (issued_under id (record { block_hash = hash })))

abbrev pub LogsInFlight : PendingRequests → BlockHash → Type 0
LogsInFlight p hash =
    (id : RequestId) × Tracked p (block_log_issued (issued_under id (record { block_hash = hash })))

header_found :
    (hash : BlockHash) (c : RequestCollection GetBlockHeader)
    → UniqueKeys c
    → any_by (λ (r : GetBlockHeader). nat_eq.beq r.block_hash hash) (requests_of c) ≡ true
    → (id : RequestId) × (request_of (lookup id c) ≡ some (record { block_hash = hash }))
unfolding lookup
header_found hash [] u h = absurd (ground (arith, h))
header_found hash ((id, p) ∷ c) (fresh, u) h =
    elim (Bool-cases (nat_eq.beq p.request.block_hash hash)) [
      | inl here ↦ (
        id,
        ground (arith, nat_beq_iff id id)
            ∙ ap (λ x. some (record { block_hash = x }))
                ((nat_beq_iff p.request.block_hash hash).0 here),
      )
      | inr there ↦
          let (x, found) = header_found hash c u (ground (arith, h, there)) in
          (x, ground (arith, found, fresh, nat_beq_iff id x))
    ]

logs_found :
    (hash : BlockHash) (c : RequestCollection GetBlockLogs)
    → UniqueKeys c
    → contains hash (map log_target (requests_of c)) ≡ true
    → (id : RequestId) × (request_of (lookup id c) ≡ some (record { block_hash = hash }))
unfolding lookup
logs_found hash [] u h = absurd (ground (arith, h))
logs_found hash ((id, p) ∷ c) (fresh, u) h = elim (Bool-cases (p.request.block_hash == hash)) [
  | inl here ↦ (
    id,
    ground (arith, nat_beq_iff id id)
        ∙ ap (λ x. some (record { block_hash = x }))
            ((nat_beq_iff p.request.block_hash hash).0 here),
  )
  | inr there ↦
      let (x, found) = logs_found hash c u (ground (arith, h, there)) in
      (x, ground (arith, found, fresh, nat_beq_iff id x))
]

-- The ids are in order, and there is room for as many more as make a number of effects.
pub record Room (n : ℕ) (r : Scheduled) : Type 0 where
  pub sound : Sound r.0.pending_requests
  pub room : next_free r + n < 2 ^ 64 + length r.1

-- What was handed out before is still in flight.
abbrev Keeps : Scheduled → Scheduled → Type 0
Keeps r r' =
    (e : AnyIssuedRequest) → Tracked r.0.pending_requests e → Tracked r'.0.pending_requests e

enter_kept :
    (n : ℕ) (q : AnyRequest) (r : Scheduled)
    → length r.1 < n
    → Room n r
    → Room n (enter q r) × Keeps r (enter q r)
enter_kept n q (s, effects) l k =
    let p = s.pending_requests in
    let id = new_id p in
    let fresh = new_id_lem p (omega (arith, k.room, l)) in
    let later : p.last_request_id < id = omega (arith, fresh) in
    let more = length-append effects (issued_as id q ∷ []) in
    (
      record {
        sound = put-Sound p q id s.tick k.sound later;
        room = omega (arith, put_last id q s.tick p, fresh, k.room, more);
      },
      put_kept p q id s.tick k.sound later,
    )

enter_all_kept :
    (n : ℕ) (qs : List AnyRequest) (r : Scheduled)
    → length r.1 + length qs ≤ n
    → Room n r
    → Room n (enter_all qs r) × Keeps r (enter_all qs r)
enter_all_kept n [] r l k = (k, λ e h. h)
enter_all_kept n (q ∷ qs) (s, effects) l k =
    let id = new_id s.pending_requests in
    let (k', keep) = enter_kept n q (s, effects) (omega (arith, l)) k in
    let (k'', keep') =
      enter_all_kept n qs (enter q (s, effects))
        (omega (arith, l, length-append effects (issued_as id q ∷ []))) k' in
    (k'', λ e h. keep' e (keep e h))

Issues-grow : {r r' : Scheduled} → Issues r r' → length r.1 ≤ length r'.1
Issues-grow {r} (qs, e) = omega (arith, ap (λ u. length u.1) e, enter_all-length qs r)

Issues-kept :
    {n : ℕ} {r r' : Scheduled} → Issues r r' → length r'.1 ≤ n → Room n r → Room n r' × Keeps r r'
Issues-kept {n} {r} (qs, e) l k =
    subst (λ t. Room n t × Keeps r t) (sym e)
      (enter_all_kept n qs r (omega (arith, l, ap (λ u. length u.1) e, enter_all-length qs r)) k)

abbrev header_issue : RequestId → BlockHash → AnyIssuedRequest
header_issue id hash = block_header_issued (issued_under id (record { block_hash = hash }))

abbrev log_issue : RequestId → BlockHash → AnyIssuedRequest
log_issue id hash = block_log_issued (issued_under id (record { block_hash = hash }))

header_wanted :
    (hash : BlockHash) (r : Scheduled)
    → Sound r.0.pending_requests
    → HeaderInFlight (request_missing_header hash r).0.pending_requests hash
unfolding request_missing_header has_pending_header_request with_request with_new_request
header_wanted hash (s, effects) k =
    let p = s.pending_requests in
    elim (Bool-cases (has_pending_header_request p hash)) [
      | inl there ↦
          rw (there, request_missing_header)
            (header_found hash p.block_headers k.block_headers_issued.unique there)
      | inr absent ↦
          rw (absent, request_missing_header)
            (new_id p, put-Tracked p (header_of (record { block_hash = hash })) (new_id p) s.tick)
    ]

-- Each of the blocks that the requests are made for.
headers_wanted :
    (n : ℕ) (hashes : List BlockHash) (r : Scheduled)
    → length (request_headers hashes r).1 ≤ n
    → Room n r
    → (hash : BlockHash) → contains hash hashes ≡ true
    → HeaderInFlight (request_headers hashes r).0.pending_requests hash
unfolding request_headers
headers_wanted n [] r l k hash h = absurd (ground (arith, h))
headers_wanted n (x ∷ hashes) r l k hash h =
    let r' = request_missing_header x r in
    let (k', keep) =
      Issues-kept (header-Issues x r) (omega (arith, l, Issues-grow (headers-Issues hashes r')))
        k in
    elim (Bool-cases (x == hash)) [
      | inr there ↦ headers_wanted n hashes r' l k' hash (ground (arith, h, there))
      | inl here ↦
          let (id, t) = header_wanted x r k.sound in
          let (k'', keep') = Issues-kept (headers-Issues hashes r') l k' in
          let later = (request_headers hashes r').0.pending_requests in
          subst (HeaderInFlight later) ((nat_beq_iff x hash).0 here)
            (id, keep' (header_issue id x) t)
    ]

logs_wanted :
    (n : ℕ) (hashes : List BlockHash) (r : Scheduled)
    → length (request_logs hashes r).1 ≤ n
    → Room n r
    → (hash : BlockHash) → contains hash hashes ≡ true
    → LogsInFlight (request_logs hashes r).0.pending_requests hash
unfolding request_logs with_request with_new_request
logs_wanted n [] r l k hash h = absurd (ground (arith, h))
logs_wanted n (x ∷ hashes) r l k hash h =
    let q = logs_of (record { block_hash = x }) in
    let p = r.0.pending_requests in
    let r' = enter q r in
    let rest : Issues r' (request_logs hashes r') = logs-Issues hashes r' in
    let one : Issues r r' = (q ∷ [], refl) in
    let (k', keep) = Issues-kept one (omega (arith, l, Issues-grow rest)) k in
    elim (Bool-cases (x == hash)) [
      | inr there ↦ logs_wanted n hashes r' l k' hash (ground (arith, h, there))
      | inl here ↦
          let t = put-Tracked p q (new_id p) r.0.tick in
          let (k'', keep') = Issues-kept rest l k' in
          let later = (request_logs hashes r').0.pending_requests in
          subst (LogsInFlight later) ((nat_beq_iff x hash).0 here)
            (new_id p, keep' (log_issue (new_id p) x) t)
    ]

-- A hole is excluded as it is in flight, or it is listed.
holes_excluded :
    (api : BloomApi) (trusted : List Bloom) (exclude : List BlockHash) (min_depth depth : ℕ)
    (blocks : List (BlockHash × BlockData)) (hash : BlockHash)
    → contains hash (holes_from api trusted [] min_depth depth blocks) ≡ true
    → (contains hash exclude
        || contains hash (holes_from api trusted exclude min_depth depth blocks))
      ≡ true
unfolding holes_from
holes_excluded api trusted exclude min_depth depth [] hash h = absurd (ground (arith, h))
holes_excluded api trusted exclude min_depth depth ((x, d) ∷ blocks) hash h = ground (
  arith,
  h,
  nat_beq_iff x hash,
  holes_excluded api trusted exclude min_depth (suc depth) blocks hash,
)

holes_wanted :
    (n : ℕ) (api : BloomApi) (chain : ChainKey) (r : Scheduled)
    → length (schedule_unknown_canonical_log_requests api chain r).1 ≤ n
    → Room n r
    → (hash : BlockHash)
    → contains hash (
        unknown_log_hole_hashes api r.0.blocks.graph
          (trusted_addresses chain r.0.pool_registry)
          []
          stream_settle_depth)
      ≡ true
    → LogsInFlight (schedule_unknown_canonical_log_requests api chain r).0.pending_requests hash
unfolding schedule_unknown_canonical_log_requests unknown_log_hole_hashes pending_block_log_hashes
holes_wanted n api chain (s, effects) l k hash h =
    let p = s.pending_requests in
    let trusted = bloom_patterns api (trusted_addresses chain s.pool_registry) in
    let blocks = present_chain_from_head s.blocks.graph in
    let exclude = pending_block_log_hashes p in
    let listed = holes_from api trusted exclude stream_settle_depth 0 blocks in
    elim (Bool-cases (contains hash exclude)) [
      | inl there ↦
          let (id, t) = logs_found hash p.block_logs k.sound.block_logs_issued.unique there in
          let (_, keep) = Issues-kept (unknown_logs-Issues api chain (s, effects)) l k in
          (id, keep (log_issue id hash) t)
      | inr absent ↦
          logs_wanted n listed (s, effects) l k hash
            (ground (
              arith,
              absent,
              holes_excluded api trusted exclude stream_settle_depth 0 blocks hash h,
            ))
    ]

-- Once the schedulers have run, the header of every missing parent and the logs of every hole of the tip are
-- in flight, whatever was in flight before, if the sequence of ids has room for the effects.
pub schedulers-InFlight :
    (api : BloomApi) (chain : ChainKey) (s : State) (hash : BlockHash)
    → Sound s.pending_requests
    → s.pending_requests.last_request_id
        + length (schedule_unknown_canonical_requests api chain (s, [])).1
      < 2 ^ 64
    → let p = (schedule_unknown_canonical_requests api chain (s, [])).0.pending_requests in
      (contains hash (missing_parents s.blocks.graph) ≡ true → HeaderInFlight p hash)
      × (contains hash (
              unknown_log_hole_hashes api s.blocks.graph
                (trusted_addresses chain s.pool_registry)
                []
                stream_settle_depth)
            ≡ true
          → LogsInFlight p hash)
unfolding schedule_unknown_canonical_requests schedule_missing_header_requests
schedulers-InFlight api chain s hash k room =
    let r0 : Scheduled = (s, []) in
    let r1 = schedule_missing_header_requests r0 in
    let r2 = schedule_unknown_canonical_log_requests api chain r1 in
    let blocks = pool_log_candidates_from_head r2.0.blocks.graph in
    let r3 = schedule_unknown_canonical_pool_metadata_requests chain blocks r2 in
    let r4 = schedule_unknown_canonical_token_metadata_requests chain blocks r3 in
    let r5 = schedule_finalized_pool_seed_requests chain r4 in
    let n = length r5.1 in
    let rest : Issues r2 r5 =
      Issues-trans (pool_metadata-Issues chain blocks r2)
        (Issues-trans (token_metadata-Issues chain blocks r3) (seeds-Issues chain r4)) in
    let logs = unknown_logs-Issues api chain r1 in
    let l2 = Issues-grow rest in
    let l1 : length r1.1 ≤ n = omega (arith, Issues-grow logs, l2) in
    let (k1, _) =
      Issues-kept {n = n} (missing_headers-Issues r0) l1
        (record { sound = k; room = omega (arith, room) }) in
    let (k2, keep2) = Issues-kept {n = n} logs l2 k1 in
    let (_, keep5) = Issues-kept {n = n} rest (omega arith) k2 in
    let frame = Issues-frame (missing_headers-Issues r0) in
    (
      λ h.
          let (id, t) =
            headers_wanted n (missing_parents s.blocks.graph) r0 l1
              (record { sound = k; room = omega (arith, room) }) hash h in
          (id, keep5 (header_issue id hash) (keep2 (header_issue id hash) t)),
      λ h.
          let (id, t) = holes_wanted n api chain r1 l2 k1 hash (
            subst
              (λ (u : State).
                contains hash (
                  unknown_log_hole_hashes api u.blocks.graph
                    (trusted_addresses chain u.pool_registry) [] stream_settle_depth)
                ≡ true)
              (sym frame) h) in
          (id, keep5 (log_issue id hash) t),
    )
