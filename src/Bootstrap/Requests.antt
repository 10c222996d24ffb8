-- ===== src/Bootstrap/Requests.antt =====
-- core/crates/client-evm/src/bootstrap/pending_requests.rs: the ledger of the requests of a bootstrap, on the
-- tracking that the kernel's ledger uses. Its `with_new_request` and `take` only call that tracking, and are
-- its `issue_request` and `take_request` here.
use armchair_analyst.Prelude.{ℕ, nat_eq, refl, Option, none, some, List, [], ◌∷◌, ◌++◌, map}
use armchair_analyst.Requests.Tick.{Tick}
use armchair_analyst.Requests.Tracking.{
  RequestId, IssuedRequest, RequestCollection, RequestStore, expired_request_ids, retry_request,
}
use armchair_analyst.Requests.Pending.{GetPoolMetadata, GetTokenMetadata}

pub data GetFinalizedHeader : Type 0 where
  get_finalized_header : GetFinalizedHeader

pub record GetPoolCandidatesInRange : Type 0 where
  pub from_block : ℕ
  pub scan_tip : Option ℕ

pub data AnyBootstrapId : Type 0 where
  finalized_header_request pool_candidates_request validation_request resolution_request :
      RequestId → AnyBootstrapId

pub data AnyBootstrapIssued : Type 0 where
  finalized_header_issued : IssuedRequest GetFinalizedHeader → AnyBootstrapIssued
  pool_candidates_issued : IssuedRequest GetPoolCandidatesInRange → AnyBootstrapIssued
  validation_issued : IssuedRequest GetPoolMetadata → AnyBootstrapIssued
  resolution_issued : IssuedRequest GetTokenMetadata → AnyBootstrapIssued

pub record BootstrapRequests : Type 0 where
  pub last_request_id : RequestId
  pub finalized_header : RequestCollection GetFinalizedHeader
  pub pool_candidates : RequestCollection GetPoolCandidatesInRange
  pub pool_metadata : RequestCollection GetPoolMetadata
  pub token_metadata : RequestCollection GetTokenMetadata

unfoldable pub no_bootstrap_requests : BootstrapRequests
no_bootstrap_requests = record {
  last_request_id = 0;
  finalized_header = [];
  pool_candidates = [];
  pool_metadata = [];
  token_metadata = [];
}

instance abbrev pub finalized_header_store : RequestStore BootstrapRequests GetFinalizedHeader
finalized_header_store = record {
  last_id = λ s. s.last_request_id;
  with_last_id = λ id s. record s { last_request_id = id };
  collection = λ s. s.finalized_header;
  with_collection = λ c s. record s { finalized_header = c };
  last_id-with_last_id = λ id s. refl;
  last_id-with_collection = λ c s. refl;
  collection-with_last_id = λ id s. refl;
  collection-with_collection = λ c s. refl;
}

instance abbrev pub pool_candidates_store : RequestStore BootstrapRequests GetPoolCandidatesInRange
pool_candidates_store = record {
  last_id = λ s. s.last_request_id;
  with_last_id = λ id s. record s { last_request_id = id };
  collection = λ s. s.pool_candidates;
  with_collection = λ c s. record s { pool_candidates = c };
  last_id-with_last_id = λ id s. refl;
  last_id-with_collection = λ c s. refl;
  collection-with_last_id = λ id s. refl;
  collection-with_collection = λ c s. refl;
}

instance abbrev pub validation_store : RequestStore BootstrapRequests GetPoolMetadata
validation_store = record {
  last_id = λ s. s.last_request_id;
  with_last_id = λ id s. record s { last_request_id = id };
  collection = λ s. s.pool_metadata;
  with_collection = λ c s. record s { pool_metadata = c };
  last_id-with_last_id = λ id s. refl;
  last_id-with_collection = λ c s. refl;
  collection-with_last_id = λ id s. refl;
  collection-with_collection = λ c s. refl;
}

instance abbrev pub resolution_store : RequestStore BootstrapRequests GetTokenMetadata
resolution_store = record {
  last_id = λ s. s.last_request_id;
  with_last_id = λ id s. record s { last_request_id = id };
  collection = λ s. s.token_metadata;
  with_collection = λ c s. record s { token_metadata = c };
  last_id-with_last_id = λ id s. refl;
  last_id-with_collection = λ c s. refl;
  collection-with_last_id = λ id s. refl;
  collection-with_collection = λ c s. refl;
}

unfoldable pub expired_bootstrap_ids : BootstrapRequests → Tick → List AnyBootstrapId
unfolding expired_request_ids
expired_bootstrap_ids s tick =
    map finalized_header_request (expired_request_ids GetFinalizedHeader s tick)
    ++ map pool_candidates_request (expired_request_ids GetPoolCandidatesInRange s tick)
    ++ map validation_request (expired_request_ids GetPoolMetadata s tick)
    ++ map resolution_request (expired_request_ids GetTokenMetadata s tick)

unfoldable pub retry_bootstrap_typed :
    {R : Type 0} ⦃m : RequestStore BootstrapRequests R⦄
    → BootstrapRequests
    → RequestId
    → Tick
    → (IssuedRequest R → AnyBootstrapIssued)
    → BootstrapRequests × Option AnyBootstrapIssued
unfolding retry_request
retry_bootstrap_typed s id tick wrap =
    let (s', issued) = retry_request s id tick in
    elim issued [ none ↦ (s', none) | some i ↦ (s', some (wrap i)) ]

unfoldable pub retry_bootstrap :
    BootstrapRequests → AnyBootstrapId → Tick → BootstrapRequests × Option AnyBootstrapIssued
unfolding retry_bootstrap_typed
retry_bootstrap s (finalized_header_request id) tick =
    retry_bootstrap_typed s id tick finalized_header_issued
retry_bootstrap s (pool_candidates_request id) tick =
    retry_bootstrap_typed s id tick pool_candidates_issued
retry_bootstrap s (validation_request id) tick = retry_bootstrap_typed s id tick validation_issued
retry_bootstrap s (resolution_request id) tick = retry_bootstrap_typed s id tick resolution_issued

-- `Option::into_iter`.
abbrev pub option_list : {A : Type 0} → Option A → List A
option_list none = []
option_list (some a) = a ∷ []

unfoldable pub retry_bootstrap_all :
    List AnyBootstrapId
    → Tick
    → BootstrapRequests
    → List AnyBootstrapIssued
    → BootstrapRequests × List AnyBootstrapIssued
unfolding retry_bootstrap
retry_bootstrap_all [] tick s effects = (s, effects)
retry_bootstrap_all (id ∷ ids) tick s effects =
    let (s', issued) = retry_bootstrap s id tick in
    retry_bootstrap_all ids tick s' (effects ++ option_list issued)

unfoldable pub retry_bootstrap_expired :
    BootstrapRequests → Tick → BootstrapRequests × List AnyBootstrapIssued
unfolding expired_bootstrap_ids retry_bootstrap_all
retry_bootstrap_expired s tick = retry_bootstrap_all (expired_bootstrap_ids s tick) tick s []
