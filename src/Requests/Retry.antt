-- ===== src/Requests/Retry.antt =====
-- core/crates/client-evm/src/request_tracking.rs: `retry_request`.
use armchair_analyst.Prelude.{
  nat_eq, ◌≡◌, ◌∙◌, ap, none, some, ◌==◌, lookup, insert, remove, lookup-insert, lookup-remove,
  if◌then◌else◌, arith,
}
use armchair_analyst.Requests.Tick.{Tick}
use armchair_analyst.Requests.Tracking.{
  RequestId, next_id, PendingPayload, RequestStore, issue_request, take_request, retry_request,
}
use armchair_analyst.Requests.Pending.{
  header_store, log_store, pool_metadata_store, token_metadata_store, pool_data_store,
  logs_range_store, canonical_header_store,
}

module _ {S R : Type 0} ⦃m : RequestStore S R⦄ where
  -- A retry of a pending request takes it out, and enters the same request under the next id with the
  -- tick of the retry; all other requests stay as they were.
  pub retry_request-lem :
      (s : S) (id : RequestId) (tick : Tick) (p : PendingPayload R)
      → lookup id (m.collection s) ≡ some p
      → let (s', issued) = retry_request {R = R} s id tick in
        (issued ≡ some (record { request_id = next_id (m.last_id s); request_payload = p.request }))
        × (m.last_id s' ≡ next_id (m.last_id s))
        × ((x : RequestId)
            → lookup x (m.collection s') ≡ (
                if next_id (m.last_id s) == x
                then some (record { request = p.request; dispatched_at = tick })
                else if id == x
                then none
                else lookup x (m.collection s)))
  unfolding retry_request take_request issue_request
  retry_request-lem s id tick p found =
      let taken = m.with_collection (remove id (m.collection s)) s in
      let last = m.last_id-with_collection (remove id (m.collection s)) s in
      let left = m.collection-with_collection (remove id (m.collection s)) s in
      let new = next_id (m.last_id taken) in
      let sent : PendingPayload R = record { request = p.request; dispatched_at = tick } in
      let issued = m.with_last_id new taken in
      rw (found, retry_request, take_request, issue_request)
        (
          ap (λ i. some (record { request_id = next_id i; request_payload = p.request })) last,
          m.last_id-with_collection _ issued ∙ m.last_id-with_last_id new taken ∙ ap next_id last,
          λ x.
              ap (lookup x)
                (m.collection-with_collection (insert new sent (m.collection issued)) issued)
              ∙ lookup-insert x new sent (m.collection issued)
              ∙ ground (
                arith,
                ap (lookup x) (m.collection-with_last_id new taken),
                ap (lookup x) left,
                last,
                lookup-remove x id (m.collection s),
                ap next_id last,
              ),
        )
