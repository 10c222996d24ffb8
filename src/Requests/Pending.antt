-- ===== src/Requests/Pending.antt =====
-- core/crates/client-evm/src/kernel/pending_requests.rs: the requests of one chain, a collection for each
-- type and one sequence of ids for all. A set is the list of its elements in some order.
use armchair_analyst.Prelude.{
  ℕ, nat_eq, zero, suc, ◌+◌, ◌-◌, refl, Bool, true, false, ◌||◌, Option, none, some, List, [], ◌∷◌,
  ◌++◌, retain, length, contains, any_by, map, leb, if◌then◌else◌,
}
use armchair_analyst.Pools.Keys.{BlockHash, ProtocolPoolKey, PoolRef, TokenAddress}
use armchair_analyst.Graph.Queries.{MissingRange}
use armchair_analyst.Requests.Tick.{Tick}
use armchair_analyst.Requests.Tracking.{
  RequestId, PendingPayload, IssuedRequest, RequestCollection, RequestStore, issue_request,
  take_request, expired_request_ids, retry_request,
}

pub record GetBlockHeader : Type 0 where
  pub block_hash : BlockHash

pub record GetBlockLogs : Type 0 where
  pub block_hash : BlockHash

pub record GetPoolMetadata : Type 0 where
  pub block_at : BlockHash
  pub candidates : List ProtocolPoolKey

pub record GetTokenMetadata : Type 0 where
  pub block_at : BlockHash
  pub tokens : List TokenAddress

pub record GetPoolData : Type 0 where
  pub block_at : BlockHash
  pub pools : List PoolRef

pub record GetLogsRange : Type 0 where
  pub from_block : ℕ
  pub to_block : ℕ
  pub covered : List BlockHash

pub record GetCanonicalHeaderAtHeight : Type 0 where
  pub number : ℕ

-- `GetLogsRange::new`: the bounds are in order.
unfoldable pub logs_range_of : ℕ → ℕ → List BlockHash → Option GetLogsRange
logs_range_of from_block to_block covered =
    if leb from_block to_block
    then some (record { from_block = from_block; to_block = to_block; covered = covered })
    else none

-- `From<MissingRange>`.
unfoldable pub range_of_missing : MissingRange → GetLogsRange
range_of_missing range = record {
  from_block = range.from_number;
  to_block = range.to_number;
  covered = range.hashes;
}

pub record PendingRequests : Type 0 where
  pub last_request_id : RequestId
  pub block_headers : RequestCollection GetBlockHeader
  pub block_logs : RequestCollection GetBlockLogs
  pub pool_metadata : RequestCollection GetPoolMetadata
  pub token_metadata : RequestCollection GetTokenMetadata
  pub pool_data : RequestCollection GetPoolData
  pub logs_range : RequestCollection GetLogsRange
  pub canonical_header : RequestCollection GetCanonicalHeaderAtHeight

unfoldable pub no_requests : PendingRequests
no_requests = record {
  last_request_id = 0;
  block_headers = [];
  block_logs = [];
  pool_metadata = [];
  token_metadata = [];
  pool_data = [];
  logs_range = [];
  canonical_header = [];
}

instance abbrev pub header_store : RequestStore PendingRequests GetBlockHeader
header_store = record {
  last_id = λ s. s.last_request_id;
  with_last_id = λ id s. record s { last_request_id = id };
  collection = λ s. s.block_headers;
  with_collection = λ c s. record s { block_headers = c };
  last_id-with_last_id = λ id s. refl;
  last_id-with_collection = λ c s. refl;
  collection-with_last_id = λ id s. refl;
  collection-with_collection = λ c s. refl;
}

instance abbrev pub log_store : RequestStore PendingRequests GetBlockLogs
log_store = record {
  last_id = λ s. s.last_request_id;
  with_last_id = λ id s. record s { last_request_id = id };
  collection = λ s. s.block_logs;
  with_collection = λ c s. record s { block_logs = c };
  last_id-with_last_id = λ id s. refl;
  last_id-with_collection = λ c s. refl;
  collection-with_last_id = λ id s. refl;
  collection-with_collection = λ c s. refl;
}

instance abbrev pub pool_metadata_store : RequestStore PendingRequests GetPoolMetadata
pool_metadata_store = record {
  last_id = λ s. s.last_request_id;
  with_last_id = λ id s. record s { last_request_id = id };
  collection = λ s. s.pool_metadata;
  with_collection = λ c s. record s { pool_metadata = c };
  last_id-with_last_id = λ id s. refl;
  last_id-with_collection = λ c s. refl;
  collection-with_last_id = λ id s. refl;
  collection-with_collection = λ c s. refl;
}

instance abbrev pub token_metadata_store : RequestStore PendingRequests GetTokenMetadata
token_metadata_store = record {
  last_id = λ s. s.last_request_id;
  with_last_id = λ id s. record s { last_request_id = id };
  collection = λ s. s.token_metadata;
  with_collection = λ c s. record s { token_metadata = c };
  last_id-with_last_id = λ id s. refl;
  last_id-with_collection = λ c s. refl;
  collection-with_last_id = λ id s. refl;
  collection-with_collection = λ c s. refl;
}

instance abbrev pub pool_data_store : RequestStore PendingRequests GetPoolData
pool_data_store = record {
  last_id = λ s. s.last_request_id;
  with_last_id = λ id s. record s { last_request_id = id };
  collection = λ s. s.pool_data;
  with_collection = λ c s. record s { pool_data = c };
  last_id-with_last_id = λ id s. refl;
  last_id-with_collection = λ c s. refl;
  collection-with_last_id = λ id s. refl;
  collection-with_collection = λ c s. refl;
}

instance abbrev pub logs_range_store : RequestStore PendingRequests GetLogsRange
logs_range_store = record {
  last_id = λ s. s.last_request_id;
  with_last_id = λ id s. record s { last_request_id = id };
  collection = λ s. s.logs_range;
  with_collection = λ c s. record s { logs_range = c };
  last_id-with_last_id = λ id s. refl;
  last_id-with_collection = λ c s. refl;
  collection-with_last_id = λ id s. refl;
  collection-with_collection = λ c s. refl;
}

instance abbrev pub canonical_header_store : RequestStore PendingRequests GetCanonicalHeaderAtHeight
canonical_header_store = record {
  last_id = λ s. s.last_request_id;
  with_last_id = λ id s. record s { last_request_id = id };
  collection = λ s. s.canonical_header;
  with_collection = λ c s. record s { canonical_header = c };
  last_id-with_last_id = λ id s. refl;
  last_id-with_collection = λ c s. refl;
  collection-with_last_id = λ id s. refl;
  collection-with_collection = λ c s. refl;
}

pub data AnyRequestId : Type 0 where
  block_header block_log pool_metadata_request token_metadata_request pool_data_request
        logs_range_request canonical_header_request :
      RequestId → AnyRequestId

pub data AnyIssuedRequest : Type 0 where
  block_header_issued : IssuedRequest GetBlockHeader → AnyIssuedRequest
  block_log_issued : IssuedRequest GetBlockLogs → AnyIssuedRequest
  pool_metadata_request_issued : IssuedRequest GetPoolMetadata → AnyIssuedRequest
  token_metadata_request_issued : IssuedRequest GetTokenMetadata → AnyIssuedRequest
  pool_data_request_issued : IssuedRequest GetPoolData → AnyIssuedRequest
  logs_range_request_issued : IssuedRequest GetLogsRange → AnyIssuedRequest
  canonical_header_request_issued : IssuedRequest GetCanonicalHeaderAtHeight → AnyIssuedRequest

unfoldable pub expired_ids : PendingRequests → Tick → List AnyRequestId
unfolding expired_request_ids
expired_ids s tick =
    map block_header (expired_request_ids GetBlockHeader s tick)
    ++ map block_log (expired_request_ids GetBlockLogs s tick)
    ++ map pool_metadata_request (expired_request_ids GetPoolMetadata s tick)
    ++ map token_metadata_request (expired_request_ids GetTokenMetadata s tick)
    ++ map pool_data_request (expired_request_ids GetPoolData s tick)
    ++ map logs_range_request (expired_request_ids GetLogsRange s tick)
    ++ map canonical_header_request (expired_request_ids GetCanonicalHeaderAtHeight s tick)

unfoldable pub with_new_request :
    {R : Type 0} ⦃m : RequestStore PendingRequests R⦄
    → PendingRequests
    → R
    → Tick
    → PendingRequests × RequestId
unfolding issue_request
with_new_request s request tick = issue_request s request tick

unfoldable pub take :
    {R : Type 0} ⦃m : RequestStore PendingRequests R⦄
    → PendingRequests
    → RequestId
    → PendingRequests × Option (PendingPayload R)
unfolding take_request
take s id = take_request s id

-- `PendingRequests::len`.
unfoldable pub in_flight : PendingRequests → ℕ
in_flight s =
    length s.block_headers
    + length s.block_logs
    + length s.pool_metadata
    + length s.token_metadata
    + length s.pool_data
    + length s.logs_range
    + length s.canonical_header

abbrev pub requests_of : {R : Type 0} → RequestCollection R → List R
requests_of [] = []
requests_of ((id, p) ∷ c) = p.request ∷ requests_of c

abbrev pub is_nonempty : {R : Type 0} → RequestCollection R → Bool
is_nonempty [] = false
is_nonempty (p ∷ c) = true

unfoldable pub has_pending_finality_probe : PendingRequests → Bool
has_pending_finality_probe s = is_nonempty s.canonical_header

abbrev pub log_target : GetBlockLogs → BlockHash
log_target r = r.block_hash

unfoldable pub pending_block_log_hashes : PendingRequests → List BlockHash
pending_block_log_hashes s = map log_target (requests_of s.block_logs)

unfoldable pub has_pending_header_request : PendingRequests → BlockHash → Bool
has_pending_header_request s hash =
    any_by (λ (r : GetBlockHeader). nat_eq.beq r.block_hash hash) (requests_of s.block_headers)

abbrev pub flat_map : {A B : Type 0} → (A → List B) → List A → List B
flat_map f [] = []
flat_map f (x ∷ xs) = f x ++ flat_map f xs

unfoldable pub pending_pool_metadata_candidates : PendingRequests → List ProtocolPoolKey
pending_pool_metadata_candidates s =
    flat_map (λ (r : GetPoolMetadata). r.candidates) (requests_of s.pool_metadata)

unfoldable pub pending_token_metadata_tokens : PendingRequests → List TokenAddress
pending_token_metadata_tokens s =
    flat_map (λ (r : GetTokenMetadata). r.tokens) (requests_of s.token_metadata)

unfoldable pub pending_pool_data_pools : PendingRequests → List PoolRef
pending_pool_data_pools s = flat_map (λ (r : GetPoolData). r.pools) (requests_of s.pool_data)

-- A number of consecutive numbers.
abbrev pub numbers_from : ℕ → ℕ → List ℕ
numbers_from zero number = []
numbers_from (suc count) number = number ∷ numbers_from count (suc number)

-- The numbers of an inclusive range, none if it is inverted.
abbrev pub inclusive : ℕ → ℕ → List ℕ
inclusive from_block to_block = numbers_from (suc to_block - from_block) from_block

unfoldable pub pending_log_range_numbers : PendingRequests → List ℕ
pending_log_range_numbers s =
    flat_map (λ (r : GetLogsRange). inclusive r.from_block r.to_block) (requests_of s.logs_range)

unfoldable pub has_pending_block_backfill : PendingRequests → Bool
has_pending_block_backfill s =
    is_nonempty s.block_headers || is_nonempty s.block_logs || is_nonempty s.logs_range

unfoldable pub retaining_block_targets : PendingRequests → List BlockHash → PendingRequests
retaining_block_targets s retained = record s {
  block_headers = retain (λ id p. contains p.request.block_hash retained) s.block_headers;
  block_logs = retain (λ id p. contains p.request.block_hash retained) s.block_logs;
  pool_metadata = retain (λ id p. contains p.request.block_at retained) s.pool_metadata;
  token_metadata = retain (λ id p. contains p.request.block_at retained) s.token_metadata;
  pool_data = retain (λ id p. contains p.request.block_at retained) s.pool_data;
  logs_range =
      retain (λ id p. any_by (λ hash. contains hash retained) p.request.covered) s.logs_range;
}

unfoldable pub retry_typed :
    {R : Type 0} ⦃m : RequestStore PendingRequests R⦄
    → PendingRequests
    → RequestId
    → Tick
    → (IssuedRequest R → AnyIssuedRequest)
    → PendingRequests × Option AnyIssuedRequest
unfolding retry_request
retry_typed s id tick wrap =
    let (s', issued) = retry_request s id tick in
    elim issued [ none ↦ (s', none) | some i ↦ (s', some (wrap i)) ]

unfoldable pub retry :
    PendingRequests → AnyRequestId → Tick → PendingRequests × Option AnyIssuedRequest
unfolding retry_typed
retry s (block_header id) tick = retry_typed s id tick block_header_issued
retry s (block_log id) tick = retry_typed s id tick block_log_issued
retry s (pool_metadata_request id) tick = retry_typed s id tick pool_metadata_request_issued
retry s (token_metadata_request id) tick = retry_typed s id tick token_metadata_request_issued
retry s (pool_data_request id) tick = retry_typed s id tick pool_data_request_issued
retry s (logs_range_request id) tick = retry_typed s id tick logs_range_request_issued
retry s (canonical_header_request id) tick = retry_typed s id tick canonical_header_request_issued

-- `effects.extend(issued)`.
abbrev pub extend_effects : List AnyIssuedRequest → Option AnyIssuedRequest → List AnyIssuedRequest
extend_effects effects none = effects
extend_effects effects (some issued) = effects ++ issued ∷ []

unfoldable pub retry_all :
    List AnyRequestId
    → Tick
    → PendingRequests
    → List AnyIssuedRequest
    → PendingRequests × List AnyIssuedRequest
unfolding retry
retry_all [] tick s effects = (s, effects)
retry_all (id ∷ ids) tick s effects =
    let (s', issued) = retry s id tick in retry_all ids tick s' (extend_effects effects issued)

unfoldable pub retry_expired : PendingRequests → Tick → PendingRequests × List AnyIssuedRequest
unfolding expired_ids retry_all
retry_expired s tick = retry_all (expired_ids s tick) tick s []
