-- ===== src/Requests/Ids.antt =====
-- core/crates/client-evm/src/kernel/pending_requests.rs: the ids of the collections, and the number
-- of requests in flight.
use armchair_analyst.Prelude.{
  nat_eq, ◌+◌, ◌≤◌, ◌≡◌, refl, true, lookup, remove, lookup-remove, remove-UniqueKeys, UniqueKeys,
  length, is_some, arith,
}
use armchair_analyst.Requests.Tracking.{RequestId, RequestCollection, RequestStore}
use armchair_analyst.Requests.Pending.{
  PendingRequests, in_flight, header_store, log_store, pool_metadata_store, token_metadata_store,
  pool_data_store, logs_range_store, canonical_header_store,
}

-- The ids of a collection are distinct, and none is above the last that was issued.
pub record Issued {R : Type 0} (last : RequestId) (c : RequestCollection R) : Type 0 where
  pub unique : UniqueKeys c
  pub below : (id : RequestId) → is_some (lookup id c) ≡ true → id ≤ last

pub Issued-mono :
    {R : Type 0} {last later : RequestId} (c : RequestCollection R)
    → last ≤ later
    → Issued last c
    → Issued later c
Issued-mono c h i = record { unique = i.unique; below = λ id p. omega (arith, i.below id p) }

pub Issued-remove :
    {R : Type 0} {last : RequestId} (c : RequestCollection R) (id : RequestId)
    → Issued last c
    → Issued last (remove id c)
Issued-remove c id i = record {
  unique = remove-UniqueKeys id c i.unique;
  below = λ x p. i.below x (ground (arith, lookup-remove x id c, p));
}

-- All collections, under the one last id.
pub record Sound (s : PendingRequests) : Type 0 where
  pub block_headers_issued : Issued s.last_request_id s.block_headers
  pub block_logs_issued : Issued s.last_request_id s.block_logs
  pub pool_metadata_issued : Issued s.last_request_id s.pool_metadata
  pub token_metadata_issued : Issued s.last_request_id s.token_metadata
  pub pool_data_issued : Issued s.last_request_id s.pool_data
  pub logs_range_issued : Issued s.last_request_id s.logs_range
  pub canonical_header_issued : Issued s.last_request_id s.canonical_header

-- What the counting of requests needs to know of a store.
pub record Counted {R : Type 0} (m : RequestStore PendingRequests R) : Type 0 where
  pub issued_of : (s : PendingRequests) → Sound s → Issued (m.last_id s) (m.collection s)
  pub last : (s : PendingRequests) → m.last_id s ≡ s.last_request_id
  pub total :
      (c : RequestCollection R) (s : PendingRequests)
      → in_flight (m.with_collection c s) + length (m.collection s) ≡ in_flight s + length c
  pub total_id :
      (id : RequestId) (s : PendingRequests) → in_flight (m.with_last_id id s) ≡ in_flight s
  pub sound :
      (c : RequestCollection R) (s : PendingRequests)
      → Sound s
      → Issued s.last_request_id c
      → Sound (m.with_collection c s)
  pub sound_id :
      (id : RequestId) (s : PendingRequests)
      → Sound s
      → s.last_request_id ≤ id
      → Sound (m.with_last_id id s)

pub block_header-Counted : Counted header_store
unfolding in_flight
block_header-Counted = record {
  issued_of = λ s k. k.block_headers_issued;
  last = λ s. refl;
  total = λ c s. omega arith;
  total_id = λ id s. refl;
  sound = λ c s k i. record {
    block_headers_issued = i;
    block_logs_issued = k.block_logs_issued;
    pool_metadata_issued = k.pool_metadata_issued;
    token_metadata_issued = k.token_metadata_issued;
    pool_data_issued = k.pool_data_issued;
    logs_range_issued = k.logs_range_issued;
    canonical_header_issued = k.canonical_header_issued;
  };
  sound_id = λ id s k h. record {
    block_headers_issued = Issued-mono s.block_headers h k.block_headers_issued;
    block_logs_issued = Issued-mono s.block_logs h k.block_logs_issued;
    pool_metadata_issued = Issued-mono s.pool_metadata h k.pool_metadata_issued;
    token_metadata_issued = Issued-mono s.token_metadata h k.token_metadata_issued;
    pool_data_issued = Issued-mono s.pool_data h k.pool_data_issued;
    logs_range_issued = Issued-mono s.logs_range h k.logs_range_issued;
    canonical_header_issued = Issued-mono s.canonical_header h k.canonical_header_issued;
  };
}

pub block_log-Counted : Counted log_store
unfolding in_flight
block_log-Counted = record {
  issued_of = λ s k. k.block_logs_issued;
  last = λ s. refl;
  total = λ c s. omega arith;
  total_id = λ id s. refl;
  sound = λ c s k i. record {
    block_headers_issued = k.block_headers_issued;
    block_logs_issued = i;
    pool_metadata_issued = k.pool_metadata_issued;
    token_metadata_issued = k.token_metadata_issued;
    pool_data_issued = k.pool_data_issued;
    logs_range_issued = k.logs_range_issued;
    canonical_header_issued = k.canonical_header_issued;
  };
  sound_id = λ id s k h. record {
    block_headers_issued = Issued-mono s.block_headers h k.block_headers_issued;
    block_logs_issued = Issued-mono s.block_logs h k.block_logs_issued;
    pool_metadata_issued = Issued-mono s.pool_metadata h k.pool_metadata_issued;
    token_metadata_issued = Issued-mono s.token_metadata h k.token_metadata_issued;
    pool_data_issued = Issued-mono s.pool_data h k.pool_data_issued;
    logs_range_issued = Issued-mono s.logs_range h k.logs_range_issued;
    canonical_header_issued = Issued-mono s.canonical_header h k.canonical_header_issued;
  };
}

pub pool_metadata_request-Counted : Counted pool_metadata_store
unfolding in_flight
pool_metadata_request-Counted = record {
  issued_of = λ s k. k.pool_metadata_issued;
  last = λ s. refl;
  total = λ c s. omega arith;
  total_id = λ id s. refl;
  sound = λ c s k i. record {
    block_headers_issued = k.block_headers_issued;
    block_logs_issued = k.block_logs_issued;
    pool_metadata_issued = i;
    token_metadata_issued = k.token_metadata_issued;
    pool_data_issued = k.pool_data_issued;
    logs_range_issued = k.logs_range_issued;
    canonical_header_issued = k.canonical_header_issued;
  };
  sound_id = λ id s k h. record {
    block_headers_issued = Issued-mono s.block_headers h k.block_headers_issued;
    block_logs_issued = Issued-mono s.block_logs h k.block_logs_issued;
    pool_metadata_issued = Issued-mono s.pool_metadata h k.pool_metadata_issued;
    token_metadata_issued = Issued-mono s.token_metadata h k.token_metadata_issued;
    pool_data_issued = Issued-mono s.pool_data h k.pool_data_issued;
    logs_range_issued = Issued-mono s.logs_range h k.logs_range_issued;
    canonical_header_issued = Issued-mono s.canonical_header h k.canonical_header_issued;
  };
}

pub token_metadata_request-Counted : Counted token_metadata_store
unfolding in_flight
token_metadata_request-Counted = record {
  issued_of = λ s k. k.token_metadata_issued;
  last = λ s. refl;
  total = λ c s. omega arith;
  total_id = λ id s. refl;
  sound = λ c s k i. record {
    block_headers_issued = k.block_headers_issued;
    block_logs_issued = k.block_logs_issued;
    pool_metadata_issued = k.pool_metadata_issued;
    token_metadata_issued = i;
    pool_data_issued = k.pool_data_issued;
    logs_range_issued = k.logs_range_issued;
    canonical_header_issued = k.canonical_header_issued;
  };
  sound_id = λ id s k h. record {
    block_headers_issued = Issued-mono s.block_headers h k.block_headers_issued;
    block_logs_issued = Issued-mono s.block_logs h k.block_logs_issued;
    pool_metadata_issued = Issued-mono s.pool_metadata h k.pool_metadata_issued;
    token_metadata_issued = Issued-mono s.token_metadata h k.token_metadata_issued;
    pool_data_issued = Issued-mono s.pool_data h k.pool_data_issued;
    logs_range_issued = Issued-mono s.logs_range h k.logs_range_issued;
    canonical_header_issued = Issued-mono s.canonical_header h k.canonical_header_issued;
  };
}

pub pool_data_request-Counted : Counted pool_data_store
unfolding in_flight
pool_data_request-Counted = record {
  issued_of = λ s k. k.pool_data_issued;
  last = λ s. refl;
  total = λ c s. omega arith;
  total_id = λ id s. refl;
  sound = λ c s k i. record {
    block_headers_issued = k.block_headers_issued;
    block_logs_issued = k.block_logs_issued;
    pool_metadata_issued = k.pool_metadata_issued;
    token_metadata_issued = k.token_metadata_issued;
    pool_data_issued = i;
    logs_range_issued = k.logs_range_issued;
    canonical_header_issued = k.canonical_header_issued;
  };
  sound_id = λ id s k h. record {
    block_headers_issued = Issued-mono s.block_headers h k.block_headers_issued;
    block_logs_issued = Issued-mono s.block_logs h k.block_logs_issued;
    pool_metadata_issued = Issued-mono s.pool_metadata h k.pool_metadata_issued;
    token_metadata_issued = Issued-mono s.token_metadata h k.token_metadata_issued;
    pool_data_issued = Issued-mono s.pool_data h k.pool_data_issued;
    logs_range_issued = Issued-mono s.logs_range h k.logs_range_issued;
    canonical_header_issued = Issued-mono s.canonical_header h k.canonical_header_issued;
  };
}

pub logs_range_request-Counted : Counted logs_range_store
unfolding in_flight
logs_range_request-Counted = record {
  issued_of = λ s k. k.logs_range_issued;
  last = λ s. refl;
  total = λ c s. omega arith;
  total_id = λ id s. refl;
  sound = λ c s k i. record {
    block_headers_issued = k.block_headers_issued;
    block_logs_issued = k.block_logs_issued;
    pool_metadata_issued = k.pool_metadata_issued;
    token_metadata_issued = k.token_metadata_issued;
    pool_data_issued = k.pool_data_issued;
    logs_range_issued = i;
    canonical_header_issued = k.canonical_header_issued;
  };
  sound_id = λ id s k h. record {
    block_headers_issued = Issued-mono s.block_headers h k.block_headers_issued;
    block_logs_issued = Issued-mono s.block_logs h k.block_logs_issued;
    pool_metadata_issued = Issued-mono s.pool_metadata h k.pool_metadata_issued;
    token_metadata_issued = Issued-mono s.token_metadata h k.token_metadata_issued;
    pool_data_issued = Issued-mono s.pool_data h k.pool_data_issued;
    logs_range_issued = Issued-mono s.logs_range h k.logs_range_issued;
    canonical_header_issued = Issued-mono s.canonical_header h k.canonical_header_issued;
  };
}

pub canonical_header_request-Counted : Counted canonical_header_store
unfolding in_flight
canonical_header_request-Counted = record {
  issued_of = λ s k. k.canonical_header_issued;
  last = λ s. refl;
  total = λ c s. omega arith;
  total_id = λ id s. refl;
  sound = λ c s k i. record {
    block_headers_issued = k.block_headers_issued;
    block_logs_issued = k.block_logs_issued;
    pool_metadata_issued = k.pool_metadata_issued;
    token_metadata_issued = k.token_metadata_issued;
    pool_data_issued = k.pool_data_issued;
    logs_range_issued = k.logs_range_issued;
    canonical_header_issued = i;
  };
  sound_id = λ id s k h. record {
    block_headers_issued = Issued-mono s.block_headers h k.block_headers_issued;
    block_logs_issued = Issued-mono s.block_logs h k.block_logs_issued;
    pool_metadata_issued = Issued-mono s.pool_metadata h k.pool_metadata_issued;
    token_metadata_issued = Issued-mono s.token_metadata h k.token_metadata_issued;
    pool_data_issued = Issued-mono s.pool_data h k.pool_data_issued;
    logs_range_issued = Issued-mono s.logs_range h k.logs_range_issued;
    canonical_header_issued = Issued-mono s.canonical_header h k.canonical_header_issued;
  };
}
