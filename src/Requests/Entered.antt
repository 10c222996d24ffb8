-- ===== src/Requests/Entered.antt =====
-- core/crates/client-evm/src/kernel/pending_requests.rs: a new request under its id, whatever its type.
use armchair_analyst.Prelude.{
  ◌++◌, ◌+◌, ◌^◌, nat_eq, ◌<◌, ◌≡◌, refl, Option, none, some, List, [], ◌∷◌, ◌==◌, lookup, insert,
  lookup-insert, insert-UniqueKeys, arith, Bool-cases, inl, inr, nat_beq_iff, Option-cases,
}
use armchair_analyst.Requests.Tick.{Tick}
use armchair_analyst.Requests.Tracking.{
  RequestId, next_id, PendingPayload, IssuedRequest, RequestCollection,
}
use armchair_analyst.Requests.Pending.{
  PendingRequests, GetBlockHeader, GetBlockLogs, GetPoolMetadata, GetTokenMetadata, GetPoolData,
  GetLogsRange, GetCanonicalHeaderAtHeight, AnyIssuedRequest, block_header_issued, header_store,
  block_log_issued, log_store, pool_metadata_request_issued, pool_metadata_store,
  token_metadata_request_issued, token_metadata_store, pool_data_request_issued, pool_data_store,
  logs_range_request_issued, logs_range_store, canonical_header_request_issued,
  canonical_header_store,
}
use armchair_analyst.Requests.Ids.{
  Issued, Sound, block_header-Counted, block_log-Counted, pool_metadata_request-Counted,
  token_metadata_request-Counted, pool_data_request-Counted, logs_range_request-Counted,
  canonical_header_request-Counted,
}

-- A request of any type.
pub data AnyRequest : Type 0 where
  header_of : GetBlockHeader → AnyRequest
  logs_of : GetBlockLogs → AnyRequest
  pool_metadata_of : GetPoolMetadata → AnyRequest
  token_metadata_of : GetTokenMetadata → AnyRequest
  pool_data_of : GetPoolData → AnyRequest
  range_of : GetLogsRange → AnyRequest
  canonical_of : GetCanonicalHeaderAtHeight → AnyRequest

abbrev pub entry : {R : Type 0} → R → Tick → PendingPayload R
entry request tick = record { request = request; dispatched_at = tick }

abbrev pub issued_under : {R : Type 0} → RequestId → R → IssuedRequest R
issued_under id request = record { request_id = id; request_payload = request }

-- The request as it is handed out.
abbrev pub issued_as : RequestId → AnyRequest → AnyIssuedRequest
issued_as id (header_of q) = block_header_issued (issued_under id q)
issued_as id (logs_of q) = block_log_issued (issued_under id q)
issued_as id (pool_metadata_of q) = pool_metadata_request_issued (issued_under id q)
issued_as id (token_metadata_of q) = token_metadata_request_issued (issued_under id q)
issued_as id (pool_data_of q) = pool_data_request_issued (issued_under id q)
issued_as id (range_of q) = logs_range_request_issued (issued_under id q)
issued_as id (canonical_of q) = canonical_header_request_issued (issued_under id q)

-- The collections after the request has entered under an id.
abbrev pub put : RequestId → AnyRequest → Tick → PendingRequests → PendingRequests
put id (header_of q) tick s = record s {
  last_request_id = id;
  block_headers = insert id (entry q tick) s.block_headers;
}
put id (logs_of q) tick s = record s {
  last_request_id = id;
  block_logs = insert id (entry q tick) s.block_logs;
}
put id (pool_metadata_of q) tick s = record s {
  last_request_id = id;
  pool_metadata = insert id (entry q tick) s.pool_metadata;
}
put id (token_metadata_of q) tick s = record s {
  last_request_id = id;
  token_metadata = insert id (entry q tick) s.token_metadata;
}
put id (pool_data_of q) tick s = record s {
  last_request_id = id;
  pool_data = insert id (entry q tick) s.pool_data;
}
put id (range_of q) tick s = record s {
  last_request_id = id;
  logs_range = insert id (entry q tick) s.logs_range;
}
put id (canonical_of q) tick s = record s {
  last_request_id = id;
  canonical_header = insert id (entry q tick) s.canonical_header;
}

abbrev pub new_id : PendingRequests → RequestId
unfolding next_id
new_id s = next_id s.last_request_id

abbrev pub request_of : {R : Type 0} → Option (PendingPayload R) → Option R
request_of none = none
request_of (some p) = some p.request

-- The request that was handed out is pending, under its id.
abbrev pub Tracked : PendingRequests → AnyIssuedRequest → Type 0
Tracked s (block_header_issued i) =
    request_of (lookup i.request_id s.block_headers) ≡ some i.request_payload
Tracked s (block_log_issued i) =
    request_of (lookup i.request_id s.block_logs) ≡ some i.request_payload
Tracked s (pool_metadata_request_issued i) =
    request_of (lookup i.request_id s.pool_metadata) ≡ some i.request_payload
Tracked s (token_metadata_request_issued i) =
    request_of (lookup i.request_id s.token_metadata) ≡ some i.request_payload
Tracked s (pool_data_request_issued i) =
    request_of (lookup i.request_id s.pool_data) ≡ some i.request_payload
Tracked s (logs_range_request_issued i) =
    request_of (lookup i.request_id s.logs_range) ≡ some i.request_payload
Tracked s (canonical_header_request_issued i) =
    request_of (lookup i.request_id s.canonical_header) ≡ some i.request_payload

abbrev pub AllTracked : PendingRequests → List AnyIssuedRequest → Type 0
AllTracked s [] = Unit {0}
AllTracked s (e ∷ es) = Tracked s e × AllTracked s es

abbrev pub number_of : AnyIssuedRequest → RequestId
number_of (block_header_issued i) = i.request_id
number_of (block_log_issued i) = i.request_id
number_of (pool_metadata_request_issued i) = i.request_id
number_of (token_metadata_request_issued i) = i.request_id
number_of (pool_data_request_issued i) = i.request_id
number_of (logs_range_request_issued i) = i.request_id
number_of (canonical_header_request_issued i) = i.request_id

insert_self :
    {R : Type 0} (id : RequestId) (q : R) (tick : Tick) (c : RequestCollection R)
    → request_of (lookup id (insert id (entry q tick) c)) ≡ some q
insert_self id q tick c = ground (arith, lookup-insert id id (entry q tick) c, nat_beq_iff id id)

pub put-Tracked :
    (s : PendingRequests) (q : AnyRequest) (id : RequestId) (tick : Tick)
    → Tracked (put id q tick s) (issued_as id q)
put-Tracked s (header_of q) id tick = insert_self id q tick s.block_headers
put-Tracked s (logs_of q) id tick = insert_self id q tick s.block_logs
put-Tracked s (pool_metadata_of q) id tick = insert_self id q tick s.pool_metadata
put-Tracked s (token_metadata_of q) id tick = insert_self id q tick s.token_metadata
put-Tracked s (pool_data_of q) id tick = insert_self id q tick s.pool_data
put-Tracked s (range_of q) id tick = insert_self id q tick s.logs_range
put-Tracked s (canonical_of q) id tick = insert_self id q tick s.canonical_header

module _ {R : Type 0} (last : RequestId) (c : RequestCollection R) (issued : Issued last c)
    (id : RequestId) (later : last < id) where
  -- A later id is a new one.
  insert_kept :
      (x : RequestId) (p : PendingPayload R) (q : R)
      → request_of (lookup x c) ≡ some q
      → request_of (lookup x (insert id p c)) ≡ some q
  insert_kept x p q h = elim (Option-cases (lookup x c)) [
    | inl absent ↦ absurd (ground (arith, h, absent))
    | inr (found, e) ↦
        let old = issued.below x (rw e refl) in
        ground (arith, lookup-insert x id p c, h, old, later, nat_beq_iff id x)
  ]

  insert-Issued : (p : PendingPayload R) → Issued id (insert id p c)
  insert-Issued p = record {
    unique = insert-UniqueKeys id p c issued.unique;
    below = λ x h. elim (Bool-cases (id == x)) [
      | inl here ↦ omega (arith, (nat_beq_iff id x).0 here)
      | inr there ↦
          omega (arith, issued.below x (ground (arith, h, there, lookup-insert x id p c)), later)
    ];
  }

  pub id_differs : (x : RequestId) (q : R) → request_of (lookup x c) ≡ some q → x < id
  id_differs x q h = elim (Option-cases (lookup x c)) [
    | inl absent ↦ absurd (ground (arith, h, absent))
    | inr (found, e) ↦ omega (arith, issued.below x (rw e refl), later)
  ]

pub put_kept :
    (s : PendingRequests) (q : AnyRequest) (id : RequestId) (tick : Tick)
    → Sound s
    → s.last_request_id < id
    → (e : AnyIssuedRequest) → Tracked s e
    → Tracked (put id q tick s) e
put_kept s (header_of q) id tick k l (block_header_issued i) h =
    insert_kept _ s.block_headers k.block_headers_issued id l _ _ _ h
put_kept s (logs_of q) id tick k l (block_log_issued i) h =
    insert_kept _ s.block_logs k.block_logs_issued id l _ _ _ h
put_kept s (pool_metadata_of q) id tick k l (pool_metadata_request_issued i) h =
    insert_kept _ s.pool_metadata k.pool_metadata_issued id l _ _ _ h
put_kept s (token_metadata_of q) id tick k l (token_metadata_request_issued i) h =
    insert_kept _ s.token_metadata k.token_metadata_issued id l _ _ _ h
put_kept s (pool_data_of q) id tick k l (pool_data_request_issued i) h =
    insert_kept _ s.pool_data k.pool_data_issued id l _ _ _ h
put_kept s (range_of q) id tick k l (logs_range_request_issued i) h =
    insert_kept _ s.logs_range k.logs_range_issued id l _ _ _ h
put_kept s (canonical_of q) id tick k l (canonical_header_request_issued i) h =
    insert_kept _ s.canonical_header k.canonical_header_issued id l _ _ _ h
put_kept s _ id tick k l _ h = h

pub AllTracked-kept :
    (s : PendingRequests) (q : AnyRequest) (id : RequestId) (tick : Tick)
    → Sound s
    → s.last_request_id < id
    → (es : List AnyIssuedRequest) → AllTracked s es
    → AllTracked (put id q tick s) es
AllTracked-kept s q id tick k l [] h = tt
AllTracked-kept s q id tick k l (e ∷ es) (h, hs) =
    (put_kept s q id tick k l e h, AllTracked-kept s q id tick k l es hs)

pub put-Sound :
    (s : PendingRequests) (q : AnyRequest) (id : RequestId) (tick : Tick)
    → Sound s
    → s.last_request_id < id
    → Sound (put id q tick s)
put-Sound s (header_of q) id tick k l =
    block_header-Counted.sound _ _ (block_header-Counted.sound_id id s k (omega (arith, l)))
      (insert-Issued _ s.block_headers k.block_headers_issued id l (entry q tick))
put-Sound s (logs_of q) id tick k l =
    block_log-Counted.sound _ _ (block_log-Counted.sound_id id s k (omega (arith, l)))
      (insert-Issued _ s.block_logs k.block_logs_issued id l (entry q tick))
put-Sound s (pool_metadata_of q) id tick k l =
    pool_metadata_request-Counted.sound _ _
      (pool_metadata_request-Counted.sound_id id s k (omega (arith, l)))
      (insert-Issued _ s.pool_metadata k.pool_metadata_issued id l (entry q tick))
put-Sound s (token_metadata_of q) id tick k l =
    token_metadata_request-Counted.sound _ _
      (token_metadata_request-Counted.sound_id id s k (omega (arith, l)))
      (insert-Issued _ s.token_metadata k.token_metadata_issued id l (entry q tick))
put-Sound s (pool_data_of q) id tick k l =
    pool_data_request-Counted.sound _ _
      (pool_data_request-Counted.sound_id id s k (omega (arith, l)))
      (insert-Issued _ s.pool_data k.pool_data_issued id l (entry q tick))
put-Sound s (range_of q) id tick k l =
    logs_range_request-Counted.sound _ _
      (logs_range_request-Counted.sound_id id s k (omega (arith, l)))
      (insert-Issued _ s.logs_range k.logs_range_issued id l (entry q tick))
put-Sound s (canonical_of q) id tick k l =
    canonical_header_request-Counted.sound _ _
      (canonical_header_request-Counted.sound_id id s k (omega (arith, l)))
      (insert-Issued _ s.canonical_header k.canonical_header_issued id l (entry q tick))

pub AllTracked-append :
    (s : PendingRequests) (es : List AnyIssuedRequest) (e : AnyIssuedRequest)
    → AllTracked s es
    → Tracked s e
    → AllTracked s (es ++ e ∷ [])
AllTracked-append s [] e h t = (t, tt)
AllTracked-append s (x ∷ es) e (h, hs) t = (h, AllTracked-append s es e hs t)

pub new_id_lem :
    (s : PendingRequests) → s.last_request_id + 1 < 2 ^ 64 → new_id s ≡ s.last_request_id + 1
unfolding next_id
new_id_lem s room = omega (arith, room)

pub put_last :
    (id : RequestId) (q : AnyRequest) (tick : Tick) (s : PendingRequests)
    → (put id q tick s).last_request_id ≡ id
put_last id (header_of q) tick s = refl
put_last id (logs_of q) tick s = refl
put_last id (pool_metadata_of q) tick s = refl
put_last id (token_metadata_of q) tick s = refl
put_last id (pool_data_of q) tick s = refl
put_last id (range_of q) tick s = refl
put_last id (canonical_of q) tick s = refl
