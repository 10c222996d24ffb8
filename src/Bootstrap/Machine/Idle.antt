-- ===== src/Bootstrap/Machine/Idle.antt =====
-- core/crates/client-evm/src/bootstrap/pending_requests.rs: a ledger with one request in flight, and what its
-- answer leaves.
use armchair_analyst.Prelude.{
  nat_eq, nat_beq, ◌≡◌, refl, ap, none, ◌⊎◌, inl, inr, [], remove, lookup, Bool-cases,
}
use armchair_analyst.Requests.Tick.{Tick}
use armchair_analyst.Requests.Tracking.{RequestId, take_request, retry_request}
use armchair_analyst.Requests.Pending.{GetPoolMetadata, GetTokenMetadata}
use armchair_analyst.Bootstrap.Requests.{
  GetFinalizedHeader, GetPoolCandidatesInRange, AnyBootstrapId, finalized_header_request,
  pool_candidates_request, validation_request, resolution_request, AnyBootstrapIssued,
  finalized_header_issued, pool_candidates_issued, validation_issued, resolution_issued,
  BootstrapRequests, finalized_header_store, pool_candidates_store, validation_store,
  resolution_store, retry_bootstrap_typed, retry_bootstrap,
}
use armchair_analyst.Bootstrap.Machine.Sole.{sole, one_found, one_kept}

-- The ledger with nothing in flight.
abbrev pub idle : RequestId → BootstrapRequests
idle last = record {
  last_request_id = last;
  finalized_header = [];
  pool_candidates = [];
  pool_metadata = [];
  token_metadata = [];
}

-- What an answer leaves of the one request: all of it, or nothing.
abbrev pub Left : AnyBootstrapIssued → Tick → RequestId → BootstrapRequests → Type 0
Left e sent last pending = (pending ≡ sole e sent last) ⊎ (pending ≡ idle last)

module _ (sent : Tick) (last id : RequestId) where
  pub take_finalized_header :
      (e : AnyBootstrapIssued)
      → Left e sent last (take_request {R = GetFinalizedHeader} (sole e sent last) id).0
  unfolding take_request remove
  take_finalized_header (finalized_header_issued i) = elim (Bool-cases (nat_beq i.request_id id)) [
    | inl same ↦
        inr (ap (λ c. record (idle last) { finalized_header = c }) (one_found i sent id same).1)
    | inr other ↦
        inl (ap (λ c. record (idle last) { finalized_header = c }) (one_kept i sent id other).1)
  ]
  take_finalized_header _ = inl refl

  pub take_pool_candidates :
      (e : AnyBootstrapIssued)
      → Left e sent last (take_request {R = GetPoolCandidatesInRange} (sole e sent last) id).0
  unfolding take_request remove
  take_pool_candidates (pool_candidates_issued i) = elim (Bool-cases (nat_beq i.request_id id)) [
    | inl same ↦
        inr (ap (λ c. record (idle last) { pool_candidates = c }) (one_found i sent id same).1)
    | inr other ↦
        inl (ap (λ c. record (idle last) { pool_candidates = c }) (one_kept i sent id other).1)
  ]
  take_pool_candidates _ = inl refl

  pub take_pool_metadata :
      (e : AnyBootstrapIssued)
      → Left e sent last (take_request {R = GetPoolMetadata} (sole e sent last) id).0
  unfolding take_request remove
  take_pool_metadata (validation_issued i) = elim (Bool-cases (nat_beq i.request_id id)) [
    | inl same ↦
        inr (ap (λ c. record (idle last) { pool_metadata = c }) (one_found i sent id same).1)
    | inr other ↦
        inl (ap (λ c. record (idle last) { pool_metadata = c }) (one_kept i sent id other).1)
  ]
  take_pool_metadata _ = inl refl

  pub take_token_metadata :
      (e : AnyBootstrapIssued)
      → Left e sent last (take_request {R = GetTokenMetadata} (sole e sent last) id).0
  unfolding take_request remove
  take_token_metadata (resolution_issued i) = elim (Bool-cases (nat_beq i.request_id id)) [
    | inl same ↦
        inr (ap (λ c. record (idle last) { token_metadata = c }) (one_found i sent id same).1)
    | inr other ↦
        inl (ap (λ c. record (idle last) { token_metadata = c }) (one_kept i sent id other).1)
  ]
  take_token_metadata _ = inl refl

pub retry-idle :
    (last : RequestId) (id : AnyBootstrapId) (tick : Tick)
    → retry_bootstrap (idle last) id tick ≡ (idle last, none)
unfolding retry_bootstrap retry_bootstrap_typed retry_request take_request lookup remove
retry-idle last (finalized_header_request id) tick = refl
retry-idle last (pool_candidates_request id) tick = refl
retry-idle last (validation_request id) tick = refl
retry-idle last (resolution_request id) tick = refl
