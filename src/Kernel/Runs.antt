-- ===== src/Kernel/Runs.antt =====
-- A kernel of ethereum: the block 1 is final, the head 10 follows it, and the head 13 arrives before its parent.
use armchair_analyst.Prelude.{
  nat_eq, ◌≡◌, ◌↔◌, ◌==◌, if◌then◌else◌, true, Map, refl, none, some, [], ◌∷◌, inl, pos, lookup,
  insert, arith, length,
}
use armchair_analyst.Pools.Keys.{ethereum, base, PoolRef, pool_ref_eq}
use armchair_analyst.Pools.Events.{PoolState}
use armchair_analyst.Pools.Chains.{
  chain_key_for_network_path, chain_key_for_network_path_roundtrip, drpc_network_path,
}
use armchair_analyst.Graph.Runs.{equal_blooms}
use armchair_analyst.Requests.Pending.{block_header, pool_data_request}
use armchair_analyst.Graph.Examples.{pool}
use armchair_analyst.Requests.Entered.{header_of, put, put-Sound}
use armchair_analyst.Requests.Ids.{Sound}
use armchair_analyst.Kernel.Schedule.Issues.{Tracks}
use armchair_analyst.Kernel.Reads.{should_fetch_finalized_header}
use armchair_analyst.Kernel.Schedule.{schedule_unknown_canonical_requests}
use armchair_analyst.Graph.Types.{
  pending, unknown, node_parent_hash, new, is_pending, pending_count, contains_block,
}
use armchair_analyst.Graph.Admission.{
  with_block_capped, with_data_capped, with_observed_head, admit_new, connects, from_seed,
}
use armchair_analyst.Graph.Queries.{
  missing_parents, unknown_log_hole_hashes, pool_log_candidates_from_head,
}
use armchair_analyst.Graph.Walks.{present_chain_from_head}
use armchair_analyst.Market.Registries.{verified_pools}
use armchair_analyst.Requests.Tracking.{retry_request, take_request, issue_request, next_id}
use armchair_analyst.Requests.Pending.{retry, retry_typed, in_flight, no_requests, with_new_request}
use armchair_analyst.Prelude.{contains_key}
use armchair_analyst.Kernel.{State}
use armchair_analyst.Kernel.Schedule.Wanted
use armchair_analyst.Kernel.Transition.{
  head_observed, request_failed, inert, activate_from_seed, transition, transition_outcome,
  seeded_state, issue_headers, with_range_complete, with_pool_seeds, PoolDataResult,
}
use armchair_analyst.Kernel.Transition.Feeds.{IsCoherent}
use armchair_analyst.Kernel.Transition.Life
use armchair_analyst.Kernel.Transition.Tracks
use armchair_analyst.Kernel.Transition.Tracks.{no_requests-Sound}
use armchair_analyst.Kernel.Transition.Unsolicited
use armchair_analyst.Kernel.Transition.Answers
use armchair_analyst.Kernel.Reads

abbrev read_of : PoolState
read_of = record { sqrt_price_x96 = 5; tick = pos 0; liquidity = 9 }

abbrev start : State
unfolding activate_from_seed
start =
    (activate_from_seed 1 100 [] (record { verified = []; rejected = [] })
      (record { verified = []; unsupported = [] }) []).0

abbrev first : State
unfolding transition
first = (transition equal_blooms ethereum start (head_observed 10 1 3 101)).0

abbrev orphan : State
unfolding transition
orphan = (transition equal_blooms ethereum first (head_observed 13 12 3 103)).0

Lives-IsCoherent_example : IsCoherent ethereum orphan
unfolding transition
Lives-IsCoherent_example = Life.Lives-IsCoherent (
    Life.moved first (head_observed 13 12 3 103)
      (Life.moved start (head_observed 10 1 3 101) (Life.activated 1 100 [] _ _ [] refl) refl) refl)

first-IsCoherent : IsCoherent ethereum first
unfolding activate_from_seed start first transition
first-IsCoherent =
    Life.Lives-IsCoherent
      (Life.moved start (head_observed 10 1 3 101) (Life.activated 1 100 [] _ _ [] refl) refl)

again : transition_outcome equal_blooms ethereum first (head_observed 10 1 3 101) ≡ inert first
unfolding transition transition_outcome with_block_capped with_data_capped with_observed_head
    admit_new connects insert lookup contains_key missing_parents present_chain_from_head
    unknown_log_hole_hashes pool_log_candidates_from_head verified_pools from_seed new is_pending
    pending_count contains_block no_requests with_new_request issue_request next_id node_parent_hash
again = refl

transition_outcome-inert_example : first ≡ first
transition_outcome-inert_example =
    Life.transition_outcome-inert equal_blooms ethereum first first (head_observed 10 1 3 101)
      first-IsCoherent again

transition-Unsolicited_example :
    transition equal_blooms ethereum start (request_failed (pool_data_request 7)) ≡ (start, [])
unfolding activate_from_seed seeded_state issue_headers missing_parents new no_requests lookup
transition-Unsolicited_example =
    Unsolicited.transition-Unsolicited equal_blooms ethereum start
      (request_failed (pool_data_request 7)) refl

-- One header is asked for.
abbrev asked : State
unfolding start
asked = record start {
  pending_requests = put 1 (header_of (record { block_hash = 12 })) 0 no_requests;
}

asked-Sound : Sound asked.pending_requests
unfolding asked no_requests
asked-Sound =
    put-Sound no_requests (header_of (record { block_hash = 12 })) 1 0 no_requests-Sound
      (omega arith)

transition-Tracks_example :
    Tracks (transition equal_blooms ethereum asked (request_failed (block_header 1)))
unfolding asked no_requests transition transition_outcome retry retry_typed retry_request
    take_request issue_request insert lookup in_flight
transition-Tracks_example =
    Tracks.transition-Tracks equal_blooms ethereum asked (request_failed (block_header 1))
      asked-Sound (omega arith)

abbrev waiting : State
unfolding start
waiting = record start {
  pending_requests = no_requests;
  blocks = record {
    graph = record {
      anchor = record { hash = 1; number = 100 };
      nodes =
          (
            13,
            pending (record {
              parent = 12;
              payload = record { number = 103; logs_bloom = none; logs = unknown };
            }),
          )
          ∷ [];
      observed_head = 1;
    };
    finalized_snapshot = [];
  };
}

one_header : length (schedule_unknown_canonical_requests equal_blooms ethereum (waiting, [])).1 ≡ 1
unfolding waiting start schedule_unknown_canonical_requests missing_parents present_chain_from_head
    unknown_log_hole_hashes pool_log_candidates_from_head verified_pools no_requests
    with_new_request issue_request insert lookup contains_key node_parent_hash
one_header = refl

schedulers-InFlight_example :
    Wanted.HeaderInFlight
      (schedule_unknown_canonical_requests equal_blooms ethereum (waiting, [])).0.pending_requests
      12
unfolding schedule_unknown_canonical_requests waiting missing_parents no_requests lookup
    contains_key is_pending
schedulers-InFlight_example =
    (Wanted.schedulers-InFlight equal_blooms ethereum waiting 12 no_requests-Sound
        (omega (arith, one_header))).0
      refl

with_range_complete-logs_example :
    Answers.logs_at
      (with_range_complete
        (record { from_block = 101; to_block = 101; covered = 10 ∷ [] })
        []
        first).blocks.graph
      10
    ≡ Answers.after_answer (some []) (Answers.logs_at first.blocks.graph 10)
with_range_complete-logs_example =
    Answers.with_range_complete-logs
      (record { from_block = 101; to_block = 101; covered = 10 ∷ [] }) [] first 10

with_pool_seeds-lem_example :
    let read : Map PoolRef PoolDataResult = (pool, inl read_of) ∷ [] in
    let blocks = with_pool_seeds start.blocks 1 read in
    (blocks.graph ≡ start.blocks.graph)
    × (lookup pool blocks.finalized_snapshot ≡ (
        if 1 == start.blocks.graph.anchor.hash
        then Answers.read_state (lookup pool read) (lookup pool start.blocks.finalized_snapshot)
        else lookup pool start.blocks.finalized_snapshot))
unfolding lookup
with_pool_seeds-lem_example =
    Answers.with_pool_seeds-lem start.blocks 1 ((pool, inl read_of) ∷ []) pool (refl, tt)

should_fetch_finalized_header-CrossedFrom_example :
    (should_fetch_finalized_header none (some 97) 64 32 ≡ true)
    ↔ Reads.CrossedFrom none (some 97) 64 32
should_fetch_finalized_header-CrossedFrom_example =
    Reads.should_fetch_finalized_header-CrossedFrom none (some 97) 64 32 (omega arith)

chain_key_for_network_path_roundtrip_example :
    (chain_key_for_network_path "base" ≡ some base) ↔ (drpc_network_path base ≡ "base")
chain_key_for_network_path_roundtrip_example = chain_key_for_network_path_roundtrip "base" base
