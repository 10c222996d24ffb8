-- ===== src/Requests/Retried.antt =====
-- core/crates/client-evm/src/kernel/pending_requests.rs: what is retried is in flight under its new id.
use armchair_analyst.Prelude.{
  nat_eq, ◌<◌, ◌≡◌, ◌∙◌, ap, refl, subst, Option, none, some, lookup, remove, remove-absent,
  lookup-remove, arith, nat_beq_iff,
}
use armchair_analyst.Requests.Tick.{Tick}
use armchair_analyst.Requests.Tracking.{
  RequestId, PendingPayload, IssuedRequest, RequestCollection, RequestStore, issue_request,
  take_request, retry_request,
}
use armchair_analyst.Requests.Pending.{
  PendingRequests, AnyRequestId, AnyIssuedRequest, retry_typed, retry, block_header, block_log,
  pool_metadata_request, token_metadata_request, pool_data_request, logs_range_request,
  canonical_header_request, block_header_issued, block_log_issued, pool_metadata_request_issued,
  token_metadata_request_issued, pool_data_request_issued, logs_range_request_issued,
  canonical_header_request_issued, header_store, log_store, pool_metadata_store,
  token_metadata_store, pool_data_store, logs_range_store, canonical_header_store,
}
use armchair_analyst.Requests.Ids.{
  Issued, Issued-remove, Sound, Counted, block_header-Counted, block_log-Counted,
  pool_metadata_request-Counted, token_metadata_request-Counted, pool_data_request-Counted,
  logs_range_request-Counted, canonical_header_request-Counted,
}
use armchair_analyst.Requests.Entered.{
  AnyRequest, header_of, logs_of, pool_metadata_of, token_metadata_of, pool_data_of, range_of,
  canonical_of, issued_as, request_of, Tracked, number_of,
}

abbrev pub Absent : {R : Type 0} → RequestId → RequestCollection R → Type 0
Absent id c = lookup id c ≡ none

abbrev pub AbsentId : PendingRequests → AnyRequestId → Type 0
AbsentId s (block_header id) = Absent id s.block_headers
AbsentId s (block_log id) = Absent id s.block_logs
AbsentId s (pool_metadata_request id) = Absent id s.pool_metadata
AbsentId s (token_metadata_request id) = Absent id s.token_metadata
AbsentId s (pool_data_request id) = Absent id s.pool_data
AbsentId s (logs_range_request id) = Absent id s.logs_range
AbsentId s (canonical_header_request id) = Absent id s.canonical_header

abbrev pub drop_id : AnyRequestId → PendingRequests → PendingRequests
drop_id (block_header id) s = record s { block_headers = remove id s.block_headers }
drop_id (block_log id) s = record s { block_logs = remove id s.block_logs }
drop_id (pool_metadata_request id) s = record s { pool_metadata = remove id s.pool_metadata }
drop_id (token_metadata_request id) s = record s { token_metadata = remove id s.token_metadata }
drop_id (pool_data_request id) s = record s { pool_data = remove id s.pool_data }
drop_id (logs_range_request id) s = record s { logs_range = remove id s.logs_range }
drop_id (canonical_header_request id) s = record s {
  canonical_header = remove id s.canonical_header;
}

abbrev pub number_of_id : AnyRequestId → RequestId
number_of_id (block_header id) = id
number_of_id (block_log id) = id
number_of_id (pool_metadata_request id) = id
number_of_id (token_metadata_request id) = id
number_of_id (pool_data_request id) = id
number_of_id (logs_range_request id) = id
number_of_id (canonical_header_request id) = id

module _ {R : Type 0} ⦃m : RequestStore PendingRequests R⦄ (s : PendingRequests) (id : RequestId)
    (tick : Tick) (wrap : IssuedRequest R → AnyIssuedRequest) where
  abbrev wrapped :
      PendingRequests × Option (IssuedRequest R) → PendingRequests × Option AnyIssuedRequest
  wrapped r = elim r.1 [ none ↦ (r.0, none) | some i ↦ (r.0, some (wrap i)) ]

  retry_typed_absent :
      lookup id (m.collection s) ≡ none
      → retry_typed s id tick wrap ≡ (m.with_collection (remove id (m.collection s)) s, none)
  unfolding retry_typed retry_request take_request
  retry_typed_absent h =
      let gone : retry_request {R = R} s id tick
          ≡ (m.with_collection (remove id (m.collection s)) s, none) =
        rw (h, retry_request, take_request) refl in
      ap wrapped gone

  pub retry_typed_found :
      (p : PendingPayload R)
      → lookup id (m.collection s) ≡ some p
      → let (s', new) =
          issue_request (m.with_collection (remove id (m.collection s)) s) p.request tick in
        retry_typed s id tick wrap
        ≡ (s', some (wrap (record { request_id = new; request_payload = p.request })))
  unfolding retry_typed retry_request take_request
  retry_typed_found p h =
      let taken = m.with_collection (remove id (m.collection s)) s in
      let issued = issue_request taken p.request tick in
      let again : retry_request {R = R} s id tick
          ≡ (issued.0, some (record { request_id = issued.1; request_payload = p.request })) =
        rw (h, retry_request, take_request) refl in
      ap wrapped again

pub retry_absent :
    (s : PendingRequests) (id : AnyRequestId) (tick : Tick)
    → AbsentId s id
    → retry s id tick ≡ (s, none)
unfolding retry
retry_absent s (block_header id) tick h =
    retry_typed_absent s id tick block_header_issued h
    ∙ ap (λ c. (record s { block_headers = c }, none)) (remove-absent id s.block_headers h)
retry_absent s (block_log id) tick h =
    retry_typed_absent s id tick block_log_issued h
    ∙ ap (λ c. (record s { block_logs = c }, none)) (remove-absent id s.block_logs h)
retry_absent s (pool_metadata_request id) tick h =
    retry_typed_absent s id tick pool_metadata_request_issued h
    ∙ ap (λ c. (record s { pool_metadata = c }, none)) (remove-absent id s.pool_metadata h)
retry_absent s (token_metadata_request id) tick h =
    retry_typed_absent s id tick token_metadata_request_issued h
    ∙ ap (λ c. (record s { token_metadata = c }, none)) (remove-absent id s.token_metadata h)
retry_absent s (pool_data_request id) tick h =
    retry_typed_absent s id tick pool_data_request_issued h
    ∙ ap (λ c. (record s { pool_data = c }, none)) (remove-absent id s.pool_data h)
retry_absent s (logs_range_request id) tick h =
    retry_typed_absent s id tick logs_range_request_issued h
    ∙ ap (λ c. (record s { logs_range = c }, none)) (remove-absent id s.logs_range h)
retry_absent s (canonical_header_request id) tick h =
    retry_typed_absent s id tick canonical_header_request_issued h
    ∙ ap (λ c. (record s { canonical_header = c }, none)) (remove-absent id s.canonical_header h)

pub removed-Sound :
    {R : Type 0} ⦃m : RequestStore PendingRequests R⦄ (k : Counted m) (s : PendingRequests)
    (id : RequestId)
    → Sound s
    → Sound (m.with_collection (remove id (m.collection s)) s)
removed-Sound ⦃m⦄ k s id sound = k.sound (remove id (m.collection s)) s sound (
    subst (λ l. Issued l (remove id (m.collection s))) (k.last s)
      (Issued-remove (m.collection s) id (k.issued_of s sound)))

pub drop_id-Sound : (s : PendingRequests) (id : AnyRequestId) → Sound s → Sound (drop_id id s)
drop_id-Sound s (block_header id) k = removed-Sound block_header-Counted s id k
drop_id-Sound s (block_log id) k = removed-Sound block_log-Counted s id k
drop_id-Sound s (pool_metadata_request id) k = removed-Sound pool_metadata_request-Counted s id k
drop_id-Sound s (token_metadata_request id) k = removed-Sound token_metadata_request-Counted s id k
drop_id-Sound s (pool_data_request id) k = removed-Sound pool_data_request-Counted s id k
drop_id-Sound s (logs_range_request id) k = removed-Sound logs_range_request-Counted s id k
drop_id-Sound s (canonical_header_request id) k =
    removed-Sound canonical_header_request-Counted s id k

remove_kept :
    {R : Type 0} (c : RequestCollection R) (id x : RequestId) (q : R)
    → id < x
    → request_of (lookup x c) ≡ some q
    → request_of (lookup x (remove id c)) ≡ some q
remove_kept c id x q l h = ground (arith, h, l, lookup-remove x id c, nat_beq_iff id x)

pub drop_id_kept :
    (s : PendingRequests) (id : AnyRequestId) (e : AnyIssuedRequest)
    → number_of_id id < number_of e
    → Tracked s e
    → Tracked (drop_id id s) e
drop_id_kept s (block_header id) (block_header_issued i) l h =
    remove_kept s.block_headers id _ _ l h
drop_id_kept s (block_log id) (block_log_issued i) l h = remove_kept s.block_logs id _ _ l h
drop_id_kept s (pool_metadata_request id) (pool_metadata_request_issued i) l h =
    remove_kept s.pool_metadata id _ _ l h
drop_id_kept s (token_metadata_request id) (token_metadata_request_issued i) l h =
    remove_kept s.token_metadata id _ _ l h
drop_id_kept s (pool_data_request id) (pool_data_request_issued i) l h =
    remove_kept s.pool_data id _ _ l h
drop_id_kept s (logs_range_request id) (logs_range_request_issued i) l h =
    remove_kept s.logs_range id _ _ l h
drop_id_kept s (canonical_header_request id) (canonical_header_request_issued i) l h =
    remove_kept s.canonical_header id _ _ l h
drop_id_kept s _ _ l h = h

pub number_of_issued : (id : RequestId) (q : AnyRequest) → number_of (issued_as id q) ≡ id
number_of_issued id (header_of r) = refl
number_of_issued id (logs_of r) = refl
number_of_issued id (pool_metadata_of r) = refl
number_of_issued id (token_metadata_of r) = refl
number_of_issued id (pool_data_of r) = refl
number_of_issued id (range_of r) = refl
number_of_issued id (canonical_of r) = refl

pub drop_id_last :
    (id : AnyRequestId) (s : PendingRequests) → (drop_id id s).last_request_id ≡ s.last_request_id
drop_id_last (block_header id) s = refl
drop_id_last (block_log id) s = refl
drop_id_last (pool_metadata_request id) s = refl
drop_id_last (token_metadata_request id) s = refl
drop_id_last (pool_data_request id) s = refl
drop_id_last (logs_range_request id) s = refl
drop_id_last (canonical_header_request id) s = refl
