-- ===== src/Kernel/Transition/Unsolicited.antt =====
-- core/crates/client-evm/src/kernel/mod.rs: responses and failures whose request is not in flight.
use mathlib.Core.Path.{ap₂}
use armchair_analyst.Prelude.{nat_eq, ◌≡◌, ap, Option, none, [], remove-absent}
use armchair_analyst.Pools.Keys.{ChainKey}
use armchair_analyst.Graph.Fold.{BloomApi}
use armchair_analyst.Requests.Tracking.{PendingPayload, take_request}
use armchair_analyst.Requests.Pending.{
  PendingRequests, header_store, log_store, pool_metadata_store, token_metadata_store,
  pool_data_store, logs_range_store, canonical_header_store, take,
}
use armchair_analyst.Requests.Retried.{Absent, AbsentId, retry_absent}
use armchair_analyst.Kernel.{State}
use armchair_analyst.Kernel.Transition.{
  Event, block_header_not_found, block_logs_received, block_logs_range_received,
  pool_metadata_received, token_metadata_received, pool_data_received, request_failed, apply_logs,
  with_range_complete, apply_pool_metadata, apply_token_metadata, apply_pool_data, on_response,
  effect_of, transition_outcome, transition,
}

-- The event answers a request, or reports its failure, under an id that no request of the type has. A
-- header carries a block of its own, so it is not among these.
abbrev pub Unsolicited : PendingRequests → Event → Type 0
Unsolicited s (block_header_not_found id) = Absent id s.block_headers
Unsolicited s (block_logs_received id logs) = Absent id s.block_logs
Unsolicited s (block_logs_range_received id blocks) = Absent id s.logs_range
Unsolicited s (pool_metadata_received id metadata) = Absent id s.pool_metadata
Unsolicited s (token_metadata_received id metadata) = Absent id s.token_metadata
Unsolicited s (pool_data_received id pools) = Absent id s.pool_data
Unsolicited s (request_failed id) = AbsentId s id
Unsolicited s _ = ⊥

module _ (api : BloomApi) (chain : ChainKey) where
  response_absent :
      {R : Type 0} (apply : R → State → State) (s : State)
      (taken : PendingRequests × Option (PendingPayload R))
      → taken ≡ (s.pending_requests, none)
      → on_response api chain apply s taken ≡ (s, [])
  unfolding on_response
  response_absent apply s taken e = ap (on_response api chain apply s) e

  -- An answer or a failure without a request changes nothing and asks for nothing.
  pub transition-Unsolicited :
      (s : State) (event : Event)
      → Unsolicited s.pending_requests event
      → transition api chain s event ≡ (s, [])
  unfolding transition transition_outcome take take_request
  transition-Unsolicited s (block_header_not_found id) h =
      ap
        (λ c. (record s { pending_requests = record s.pending_requests { block_headers = c } }, []))
        (remove-absent id s.pending_requests.block_headers h)
  transition-Unsolicited s (block_logs_received id payload) h =
      response_absent (apply_logs payload) s _ (
        ap₂ (λ c o. (record s.pending_requests { block_logs = c }, o))
          (remove-absent id s.pending_requests.block_logs h) h)
  transition-Unsolicited s (block_logs_range_received id payload) h =
      response_absent (λ q. with_range_complete q payload) s _
        (ap₂ (λ c o. (record s.pending_requests { logs_range = c }, o))
          (remove-absent id s.pending_requests.logs_range h) h)
  transition-Unsolicited s (pool_metadata_received id payload) h =
      response_absent (apply_pool_metadata chain payload) s _ (
        ap₂ (λ c o. (record s.pending_requests { pool_metadata = c }, o))
          (remove-absent id s.pending_requests.pool_metadata h) h)
  transition-Unsolicited s (token_metadata_received id payload) h =
      response_absent (apply_token_metadata payload) s _ (
        ap₂ (λ c o. (record s.pending_requests { token_metadata = c }, o))
          (remove-absent id s.pending_requests.token_metadata h) h)
  transition-Unsolicited s (pool_data_received id payload) h =
      response_absent (apply_pool_data payload) s _ (
        ap₂ (λ c o. (record s.pending_requests { pool_data = c }, o))
          (remove-absent id s.pending_requests.pool_data h) h)
  transition-Unsolicited s (request_failed id) h =
      ap (λ r. (record s { pending_requests = r.0 }, effect_of r.1))
        (retry_absent s.pending_requests id s.tick h)
  transition-Unsolicited s _ h = absurd h
