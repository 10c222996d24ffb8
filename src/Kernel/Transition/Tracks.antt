-- ===== src/Kernel/Transition/Tracks.antt =====
-- core/crates/client-evm/src/kernel/mod.rs: the requests that a transition hands out are in flight.
use armchair_analyst.Prelude.{
  ℕ, nat_eq, ◌+◌, ◌^◌, ◌<◌, ◌≡◌, ◌∙◌, ap, refl, sym, subst, not, ◌&&◌, Option, none, some, inl, inr,
  List, [], ◌∷◌, ◌==◌, lookup, contains, length, arith, Bool-cases, Option-cases,
}
use armchair_analyst.Pools.Keys.{ChainKey, BlockHash, Bloom}
use armchair_analyst.Pools.Chains.{max_pending_of, pool_manager_address}
use armchair_analyst.Pools.Events.{PoolLog}
use armchair_analyst.Graph.Types.{contains_block}
use armchair_analyst.Graph.Admission.{
  Admission, admitted, self_parent, anchor_readmit, duplicate_block, conflicting_parent,
  pending_buffer_full,
}
use armchair_analyst.Graph.Walks.{node_hashes}
use armchair_analyst.Graph.Fold.{BloomApi}
use armchair_analyst.Graph.Finality.{finalized_to}
use armchair_analyst.Graph.Queries.{missing_parents}
use armchair_analyst.Requests.Tick.{next}
use armchair_analyst.Requests.Tracking.{PendingPayload, RequestId, take_request}
use armchair_analyst.Requests.Pending.{
  PendingRequests, no_requests, in_flight, GetBlockHeader, header_store, log_store,
  pool_metadata_store, token_metadata_store, pool_data_store, logs_range_store,
  canonical_header_store, take, retry, retaining_block_targets, extend_effects, AnyIssuedRequest,
}
use armchair_analyst.Requests.Ids.{
  Issued, Sound, block_header-Counted, block_log-Counted, pool_metadata_request-Counted,
  token_metadata_request-Counted, pool_data_request-Counted, logs_range_request-Counted,
  canonical_header_request-Counted,
}
use armchair_analyst.Requests.Entered.{AllTracked}
use armchair_analyst.Requests.Retried.{removed-Sound}
use armchair_analyst.Requests.Rounds.{
  retry_expired-Tracks, retry-Tracks, retaining_block_targets-Sound,
}
use armchair_analyst.Market.Registries.{verified_pools}
use armchair_analyst.Kernel.{
  State, map_graph, with_log_streamed, with_streamed_logs_drained, with_log_head_observed,
  with_log_header_received, with_log_complete, with_streamed_logs_buffered,
  with_finalized_block_observed,
}
use armchair_analyst.Kernel.Schedule.{Scheduled}
use armchair_analyst.Kernel.Schedule.Issues.{
  Issues, Issues-trans, with_pending, schedulers-Issues, probe-Issues, header-Issues,
  missing_log_ranges-Issues, Tracks, Issues-Tracks,
}
use armchair_analyst.Kernel.Transition.{
  Event, head_observed, finalized_block_observed, block_header_received, block_header_not_found,
  canonical_header_received, block_logs_received, block_logs_range_received, logs_observed,
  pool_metadata_received, token_metadata_received, pool_data_received, request_failed, ticked,
  seeded_state, activate_from_seed, with_blocks_complete, with_absent_complete, effect_of,
  with_range_complete, on_head_observed, on_block_header_received, on_canonical_header_received,
  on_response, apply_logs, apply_pool_metadata, apply_token_metadata, apply_pool_data, head_outcome,
  scheduled_head, transition_outcome, flatten, transition, hashes_of, with_finalized_pool_seeds,
}
use armchair_analyst.Kernel.Transition.Feeds.{issue_headers-Issues, reissue-Issues}

drained-pending :
    (s : State) (hash : BlockHash)
    → (with_streamed_logs_drained s hash).pending_requests ≡ s.pending_requests
unfolding with_streamed_logs_drained with_log_streamed map_graph
drained-pending s hash = elim (Bool-cases (contains_block s.blocks.graph hash)) [
  | inr gone ↦ rw (gone, with_streamed_logs_drained) refl
  | inl there ↦ elim (Option-cases (lookup hash s.streamed_logs)) [
    | inl e ↦ rw (there, with_streamed_logs_drained) (rw (e, with_streamed_logs_drained) refl)
    | inr (logs, e) ↦
        rw (there, with_streamed_logs_drained) (rw (e, with_streamed_logs_drained) refl)
  ]
]

buffered-pending :
    (s : State) (hash : BlockHash) (logs : List PoolLog)
    → (with_streamed_logs_buffered s hash logs).pending_requests ≡ s.pending_requests
unfolding with_streamed_logs_buffered
buffered-pending s hash logs = ground arith

blocks-pending :
    (blocks : List (BlockHash × List PoolLog)) (s : State)
    → (with_blocks_complete blocks s).pending_requests ≡ s.pending_requests
unfolding with_blocks_complete with_log_complete
blocks-pending [] s = refl
blocks-pending ((hash, logs) ∷ blocks) s = blocks-pending blocks (with_log_complete s hash logs)

absent-pending :
    (covered responded : List BlockHash) (s : State)
    → (with_absent_complete covered responded s).pending_requests ≡ s.pending_requests
unfolding with_absent_complete with_log_complete
absent-pending [] responded s = refl
absent-pending (hash ∷ covered) responded s =
    absent-pending covered responded _ ∙ elim (Bool-cases (not (contains hash responded))) [
      | inl silent ↦ rw silent refl
      | inr named ↦ rw named refl
    ]

-- The ids of a result are in order, and what it hands out is in flight, if the sequence had room for it.
abbrev Fits : PendingRequests → Scheduled → Type 0
Fits p r = p.last_request_id + length r.1 < 2 ^ 64 → Tracks r

quiet : (s : State) → Sound s.pending_requests → Tracks (s, [])
quiet s k = record { sound = k; tracked = tt }

issued-Fits :
    {s : State} {r : Scheduled}
    → Issues (s, []) r
    → Sound s.pending_requests
    → Fits s.pending_requests r
issued-Fits {s} i k room = Issues-Tracks i room (quiet s k)

no-Issued : {R : Type 0} → Issued {R = R} 0 []
unfolding lookup
no-Issued = record { unique = tt; below = λ x h. absurd (ground (arith, h)) }

pub no_requests-Sound : Sound no_requests
unfolding no_requests
no_requests-Sound = record {
  block_headers_issued = no-Issued;
  block_logs_issued = no-Issued;
  pool_metadata_issued = no-Issued;
  token_metadata_issued = no-Issued;
  pool_data_issued = no-Issued;
  logs_range_issued = no-Issued;
  canonical_header_issued = no-Issued;
}

module _ (api : BloomApi) (chain : ChainKey) where
  head_outcome-Fits :
      (a : Admission) (head_before hash : BlockHash) (number : ℕ) (s : State)
      → Sound s.pending_requests
      → Fits s.pending_requests (flatten (head_outcome api chain a head_before hash number s))
  unfolding head_outcome scheduled_head
  head_outcome-Fits a head_before hash number s k = outcome a
    where
      full : Issues (s, []) (scheduled_head api chain hash number s)
      full = Issues-trans (schedulers-Issues api chain (s, [])) (probe-Issues hash number _)

      outcome :
          (a : Admission)
          → Fits s.pending_requests (flatten (head_outcome api chain a head_before hash number s))
      outcome self_parent = issued-Fits (header-Issues hash (s, [])) k
      outcome duplicate_block = elim (Bool-cases (hash == head_before)) [
        | inl same ↦ rw (same, head_outcome) (λ room. quiet s k)
        | inr moved ↦ rw (moved, head_outcome) (issued-Fits full k)
      ]
      outcome admitted = issued-Fits full k
      outcome anchor_readmit = issued-Fits full k
      outcome conflicting_parent = issued-Fits full k
      outcome pending_buffer_full = issued-Fits full k

  response-Fits :
      {R : Type 0} (apply : R → State → State) (s : State)
      (taken : PendingRequests × Option (PendingPayload R))
      → ((q : R) (t : State) → (apply q t).pending_requests ≡ t.pending_requests)
      → taken.0.last_request_id ≡ s.pending_requests.last_request_id
      → Sound taken.0
      → Fits s.pending_requests (on_response api chain apply s taken)
  unfolding on_response
  response-Fits apply s (pending, none) same last k room = quiet (with_pending pending s) k
  response-Fits apply s (pending, some p) same last k room =
      let t = with_pending pending s in
      let e = same p.request t in
      issued-Fits (schedulers-Issues api chain (apply p.request t, [])) (subst Sound (sym e) k)
        (omega (arith, room, ap (λ (q : PendingRequests). q.last_request_id) e, last))

  header-Fits :
      (s : State) (id : RequestId) (hash parent : BlockHash) (bloom : Bloom) (number : ℕ)
      → Sound s.pending_requests
      → Fits s.pending_requests (on_block_header_received api chain s id hash parent bloom number)
  unfolding on_block_header_received take take_request with_log_header_received map_graph
  header-Fits s0 id hash parent bloom number k room =
      let s = with_log_header_received s0 hash parent number bloom (max_pending_of chain) in
      let e : s.pending_requests ≡ s0.pending_requests = drained-pending _ hash in
      let t = take {R = GetBlockHeader} s.pending_requests id in
      issued-Fits
        (Issues-trans (reissue-Issues hash t.1 (with_pending t.0 s))
          (Issues-trans (schedulers-Issues api chain _) (probe-Issues hash number _)))
        (removed-Sound block_header-Counted s.pending_requests id (subst Sound (sym e) k))
        (omega (arith, room, ap (λ (q : PendingRequests). q.last_request_id) e))

  canonical-Fits :
      (s : State) (id : RequestId) (hash : BlockHash) (number : ℕ)
      → Sound s.pending_requests
      → Fits s.pending_requests (on_canonical_header_received s id hash number)
  unfolding on_canonical_header_received take take_request activate_from_seed seeded_state
      no_requests
  canonical-Fits s id hash number k =
      let fresh = seeded_state hash number [] s.pool_registry s.token_registry [] in
      elim (Bool-cases
        (number == s.blocks.graph.anchor.number && not (hash == s.blocks.graph.anchor.hash))) [
          | inl orphaned ↦
              rw (orphaned, on_canonical_header_received)
                (λ room.
                  issued-Fits
                    (issue_headers-Issues (missing_parents fresh.blocks.graph) (fresh, []))
                    no_requests-Sound (omega (arith, room)))
          | inr firm ↦
              rw (firm, on_canonical_header_received)
                (λ room.
                  quiet _ (removed-Sound canonical_header_request-Counted s.pending_requests id k))
        ]

  finalized-Fits :
      (s : State) (hash : BlockHash)
      → Sound s.pending_requests
      → let t = with_finalized_block_observed api s chain (pool_manager_address chain) hash in
        Sound t.pending_requests
        × (t.pending_requests.last_request_id ≡ s.pending_requests.last_request_id)
  unfolding with_finalized_block_observed retaining_block_targets
  finalized-Fits s hash k =
      let g =
        (finalized_to api s.blocks.graph hash s.blocks.finalized_snapshot
          (verified_pools s.pool_registry chain) (pool_manager_address chain)).0 in
      elim (Bool-cases (not (g.anchor.hash == s.blocks.graph.anchor.hash))) [
        | inl moved ↦
            rw (moved, with_finalized_block_observed)
              (retaining_block_targets-Sound s.pending_requests (node_hashes g) k, refl)
        | inr same ↦ rw (same, with_finalized_block_observed) (k, refl)
      ]

  effect_tracked :
      (p : PendingRequests) (issued : Option AnyIssuedRequest)
      → AllTracked p (extend_effects [] issued)
      → AllTracked p (effect_of issued)
  effect_tracked p none h = h
  effect_tracked p (some e) h = h

  -- The same with room for a retry of all that is in flight.
  abbrev FitsAll : PendingRequests → Scheduled → Type 0
  FitsAll p r = p.last_request_id + in_flight p + 1 + length r.1 < 2 ^ 64 → Tracks r

  fits_all : (p : PendingRequests) (r : Scheduled) → Fits p r → FitsAll p r
  fits_all p r f room = f (omega (arith, room))

  transition-Fits :
      (s : State) (event : Event)
      → Sound s.pending_requests
      → FitsAll s.pending_requests (transition api chain s event)
  unfolding transition transition_outcome on_head_observed with_log_head_observed map_graph take
      take_request apply_logs apply_pool_metadata apply_token_metadata apply_pool_data
      with_range_complete with_finalized_pool_seeds with_log_complete with_log_streamed
  transition-Fits s (head_observed hash parent bloom number) k =
      let r = with_log_head_observed s hash parent number bloom (max_pending_of chain) in
      let e : r.0.pending_requests ≡ s.pending_requests = drained-pending _ hash in
      fits_all _ _ (
        subst
          (λ p.
            Fits p
              (flatten (head_outcome api chain r.1 s.blocks.graph.observed_head hash number r.0)))
          e
          (head_outcome-Fits r.1 s.blocks.graph.observed_head hash number r.0
            (subst Sound (sym e) k)))
  transition-Fits s (finalized_block_observed hash number) k =
      let (sound, last) = finalized-Fits s hash k in
      λ room.
        issued-Fits (missing_log_ranges-Issues api chain hash _) sound (omega (arith, last, room))
  transition-Fits s (block_header_received id hash parent bloom number) k =
      fits_all _ _ (header-Fits s id hash parent bloom number k)
  transition-Fits s (block_header_not_found id) k =
      λ room. quiet _ (removed-Sound block_header-Counted s.pending_requests id k)
  transition-Fits s (canonical_header_received id hash number) k =
      fits_all _ _ (canonical-Fits s id hash number k)
  transition-Fits s (block_logs_received id logs) k = fits_all _ _ (
      response-Fits (apply_logs logs) s (take s.pending_requests id) (λ q t. refl) refl
        (removed-Sound block_log-Counted s.pending_requests id k))
  transition-Fits s (block_logs_range_received id blocks) k = fits_all _ _ (
      response-Fits (λ q. with_range_complete q blocks) s (take s.pending_requests id)
        (λ q t. absent-pending q.covered (hashes_of blocks) _ ∙ blocks-pending blocks t) refl
        (removed-Sound logs_range_request-Counted s.pending_requests id k))
  transition-Fits s (logs_observed hash logs) k =
      elim (Bool-cases (contains_block s.blocks.graph hash)) [
        | inl there ↦
            rw (there, transition_outcome)
              (fits_all s.pending_requests _
                (issued-Fits {s = with_log_streamed s hash logs} (schedulers-Issues api chain _) k))
        | inr gone ↦
            rw (gone, transition_outcome)
              (λ room.
                quiet (with_streamed_logs_buffered s hash logs)
                  (subst Sound (sym (buffered-pending s hash logs)) k))
      ]
  transition-Fits s (pool_metadata_received id metadata) k = fits_all _ _ (
      response-Fits (apply_pool_metadata chain metadata) s (take s.pending_requests id)
        (λ q t. refl) refl (removed-Sound pool_metadata_request-Counted s.pending_requests id k))
  transition-Fits s (token_metadata_received id metadata) k = fits_all _ _ (
      response-Fits (apply_token_metadata metadata) s (take s.pending_requests id) (λ q t. refl)
        refl (removed-Sound token_metadata_request-Counted s.pending_requests id k))
  transition-Fits s (pool_data_received id pools) k = fits_all _ _ (
      response-Fits (apply_pool_data pools) s (take s.pending_requests id) (λ q t. refl) refl
        (removed-Sound pool_data_request-Counted s.pending_requests id k))
  transition-Fits s (request_failed id) k = λ room.
      let (sound, tracked) = retry-Tracks s.pending_requests id s.tick k (omega (arith, room)) in
      record {
        sound = sound;
        tracked = effect_tracked (retry s.pending_requests id s.tick).0 _ tracked;
      }
  transition-Fits s ticked k = λ room.
      let (sound, tracked) =
        retry_expired-Tracks s.pending_requests (next s.tick) k (omega (arith, room)) in
      record { sound = sound; tracked = tracked }

  -- Every request that a transition hands out is in flight afterwards, under its own id and with its own
  -- payload, so that the answer to it will be recognised: if the ids in flight are in order, and the 64-bit
  -- sequence of ids has room for them and for the new ones.
  pub transition-Tracks :
      (s : State) (event : Event)
      → Sound s.pending_requests
      → s.pending_requests.last_request_id
          + in_flight s.pending_requests
          + 1
          + length (transition api chain s event).1
        < 2 ^ 64
      → Tracks (transition api chain s event)
  transition-Tracks s event k room = transition-Fits s event k room
