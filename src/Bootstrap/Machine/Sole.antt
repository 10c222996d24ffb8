-- ===== src/Bootstrap/Machine/Sole.antt =====
-- core/crates/client-evm/src/bootstrap/pending_requests.rs: a ledger with one request in flight.
use armchair_analyst.Prelude.{
  nat_eq, nat_beq, ◌≡◌, refl, ap, ◌∙◌, true, false, Option, none, some, ◌⊎◌, inl, inr, List, [],
  ◌∷◌, lookup, remove, insert, Bool-cases,
}
use armchair_analyst.Requests.Tick.{Tick, is_expired_since}
use armchair_analyst.Requests.Tracking.{
  RequestId, next_id, IssuedRequest, PendingPayload, RequestCollection, RequestStore, take_request,
  issue_request, retry_request, expired_in, expired_request_ids,
}
use armchair_analyst.Requests.Pending.{GetPoolMetadata, GetTokenMetadata}
use armchair_analyst.Bootstrap.Requests.{
  GetFinalizedHeader, GetPoolCandidatesInRange, AnyBootstrapId, finalized_header_request,
  pool_candidates_request, validation_request, resolution_request, AnyBootstrapIssued,
  finalized_header_issued, pool_candidates_issued, validation_issued, resolution_issued,
  BootstrapRequests, finalized_header_store, pool_candidates_store, validation_store,
  resolution_store, expired_bootstrap_ids, retry_bootstrap_typed, retry_bootstrap,
  retry_bootstrap_all, retry_bootstrap_expired, option_list,
}

abbrev pub sent_at : {R : Type 0} → IssuedRequest R → Tick → PendingPayload R
sent_at i tick = record { request = i.request_payload; dispatched_at = tick }

module _ {R : Type 0} (i : IssuedRequest R) (sent : Tick) (id : RequestId) where
  abbrev pub one : RequestCollection R
  one = (i.request_id, sent_at i sent) ∷ []

  pub one_found :
      nat_beq i.request_id id ≡ true
      → (lookup id one ≡ some (sent_at i sent)) × (remove id one ≡ [])
  unfolding lookup remove
  one_found h = (rw h refl, rw h refl)

  pub one_kept : nat_beq i.request_id id ≡ false → (lookup id one ≡ none) × (remove id one ≡ one)
  unfolding lookup remove
  one_kept h = (rw h refl, rw h refl)

module _ {R : Type 0} ⦃m : RequestStore BootstrapRequests R⦄ (s : BootstrapRequests)
    (id : RequestId) (tick : Tick) (wrap : IssuedRequest R → AnyBootstrapIssued) where
  abbrev wrapped :
      BootstrapRequests × Option (IssuedRequest R) → BootstrapRequests × Option AnyBootstrapIssued
  wrapped r = elim r.1 [ none ↦ (r.0, none) | some i ↦ (r.0, some (wrap i)) ]

  typed_absent :
      lookup id (m.collection s) ≡ none
      → retry_bootstrap_typed s id tick wrap
        ≡ (m.with_collection (remove id (m.collection s)) s, none)
  unfolding retry_bootstrap_typed retry_request take_request
  typed_absent h =
      let gone : retry_request {R = R} s id tick
          ≡ (m.with_collection (remove id (m.collection s)) s, none) =
        rw (h, retry_request, take_request) refl in
      ap wrapped gone

  typed_found :
      (p : PendingPayload R)
      → lookup id (m.collection s) ≡ some p
      → let (s', new) =
          issue_request (m.with_collection (remove id (m.collection s)) s) p.request tick in
        retry_bootstrap_typed s id tick wrap
        ≡ (s', some (wrap (record { request_id = new; request_payload = p.request })))
  unfolding retry_bootstrap_typed retry_request take_request
  typed_found p h =
      let taken = m.with_collection (remove id (m.collection s)) s in
      let issued = issue_request taken p.request tick in
      let again : retry_request {R = R} s id tick
          ≡ (issued.0, some (record { request_id = issued.1; request_payload = p.request })) =
        rw (h, retry_request, take_request) refl in
      ap wrapped again

-- The ledger that holds the one request that was handed out.
abbrev pub sole : AnyBootstrapIssued → Tick → RequestId → BootstrapRequests
sole (finalized_header_issued i) tick last = record {
  last_request_id = last;
  finalized_header = (i.request_id, sent_at i tick) ∷ [];
  pool_candidates = [];
  pool_metadata = [];
  token_metadata = [];
}
sole (pool_candidates_issued i) tick last = record {
  last_request_id = last;
  finalized_header = [];
  pool_candidates = (i.request_id, sent_at i tick) ∷ [];
  pool_metadata = [];
  token_metadata = [];
}
sole (validation_issued i) tick last = record {
  last_request_id = last;
  finalized_header = [];
  pool_candidates = [];
  pool_metadata = (i.request_id, sent_at i tick) ∷ [];
  token_metadata = [];
}
sole (resolution_issued i) tick last = record {
  last_request_id = last;
  finalized_header = [];
  pool_candidates = [];
  pool_metadata = [];
  token_metadata = (i.request_id, sent_at i tick) ∷ [];
}

-- The same request under another id.
abbrev pub reissued : RequestId → AnyBootstrapIssued → AnyBootstrapIssued
reissued id (finalized_header_issued i) = finalized_header_issued (record i { request_id = id })
reissued id (pool_candidates_issued i) = pool_candidates_issued (record i { request_id = id })
reissued id (validation_issued i) = validation_issued (record i { request_id = id })
reissued id (resolution_issued i) = resolution_issued (record i { request_id = id })

abbrev id_of : AnyBootstrapIssued → AnyBootstrapId
id_of (finalized_header_issued i) = finalized_header_request i.request_id
id_of (pool_candidates_issued i) = pool_candidates_request i.request_id
id_of (validation_issued i) = validation_request i.request_id
id_of (resolution_issued i) = resolution_request i.request_id

-- A retry finds another request, or hands the same one out again under the next id.
abbrev pub Resent :
    AnyBootstrapIssued
    → Tick
    → RequestId
    → Tick
    → BootstrapRequests × Option AnyBootstrapIssued
    → Type 0
unfolding next_id
Resent e sent last tick r =
    (r ≡ (sole e sent last, none))
    ⊎ (r ≡ (sole (reissued (next_id last) e) tick (next_id last), some (reissued (next_id last) e)))

abbrev again_finalized_header_issued :
    IssuedRequest GetFinalizedHeader
    → RequestId
    → Tick
    → RequestCollection GetFinalizedHeader
    → BootstrapRequests × Option AnyBootstrapIssued
unfolding next_id
again_finalized_header_issued i last tick c = (
  record (sole (finalized_header_issued i) tick (next_id last)) {
    finalized_header = insert (next_id last) (sent_at i tick) c;
  },
  some (reissued (next_id last) (finalized_header_issued i)),
)

abbrev again_pool_candidates_issued :
    IssuedRequest GetPoolCandidatesInRange
    → RequestId
    → Tick
    → RequestCollection GetPoolCandidatesInRange
    → BootstrapRequests × Option AnyBootstrapIssued
unfolding next_id
again_pool_candidates_issued i last tick c = (
  record (sole (pool_candidates_issued i) tick (next_id last)) {
    pool_candidates = insert (next_id last) (sent_at i tick) c;
  },
  some (reissued (next_id last) (pool_candidates_issued i)),
)

abbrev again_validation_issued :
    IssuedRequest GetPoolMetadata
    → RequestId
    → Tick
    → RequestCollection GetPoolMetadata
    → BootstrapRequests × Option AnyBootstrapIssued
unfolding next_id
again_validation_issued i last tick c = (
  record (sole (validation_issued i) tick (next_id last)) {
    pool_metadata = insert (next_id last) (sent_at i tick) c;
  },
  some (reissued (next_id last) (validation_issued i)),
)

abbrev again_resolution_issued :
    IssuedRequest GetTokenMetadata
    → RequestId
    → Tick
    → RequestCollection GetTokenMetadata
    → BootstrapRequests × Option AnyBootstrapIssued
unfolding next_id
again_resolution_issued i last tick c = (
  record (sole (resolution_issued i) tick (next_id last)) {
    token_metadata = insert (next_id last) (sent_at i tick) c;
  },
  some (reissued (next_id last) (resolution_issued i)),
)

pub retry-sole :
    (e : AnyBootstrapIssued) (sent tick : Tick) (last : RequestId) (id : AnyBootstrapId)
    → Resent e sent last tick (retry_bootstrap (sole e sent last) id tick)
unfolding retry_bootstrap retry_bootstrap_typed retry_request take_request issue_request lookup
    remove insert
retry-sole (finalized_header_issued i) sent tick last (finalized_header_request id) =
    elim (Bool-cases (nat_beq i.request_id id)) [
      | inl same ↦
          let (found, gone) = one_found i sent id same in
          inr (
            typed_found (sole (finalized_header_issued i) sent last) id tick finalized_header_issued
              (sent_at i sent) found
            ∙ ap (again_finalized_header_issued i last tick) gone)
      | inr other ↦
          let (absent, kept) = one_kept i sent id other in
          inl (
            typed_absent (sole (finalized_header_issued i) sent last) id tick
              finalized_header_issued absent
            ∙ ap
                (λ c. (
                  record (sole (finalized_header_issued i) sent last) { finalized_header = c },
                  none,
                ))
                kept)
    ]
retry-sole (pool_candidates_issued i) sent tick last (pool_candidates_request id) =
    elim (Bool-cases (nat_beq i.request_id id)) [
      | inl same ↦
          let (found, gone) = one_found i sent id same in
          inr (
            typed_found (sole (pool_candidates_issued i) sent last) id tick pool_candidates_issued
              (sent_at i sent) found
            ∙ ap (again_pool_candidates_issued i last tick) gone)
      | inr other ↦
          let (absent, kept) = one_kept i sent id other in
          inl (
            typed_absent (sole (pool_candidates_issued i) sent last) id tick pool_candidates_issued
              absent
            ∙ ap
                (λ c. (
                  record (sole (pool_candidates_issued i) sent last) { pool_candidates = c },
                  none,
                ))
                kept)
    ]
retry-sole (validation_issued i) sent tick last (validation_request id) =
    elim (Bool-cases (nat_beq i.request_id id)) [
      | inl same ↦
          let (found, gone) = one_found i sent id same in
          inr (
            typed_found (sole (validation_issued i) sent last) id tick validation_issued
              (sent_at i sent) found
            ∙ ap (again_validation_issued i last tick) gone)
      | inr other ↦
          let (absent, kept) = one_kept i sent id other in
          inl (
            typed_absent (sole (validation_issued i) sent last) id tick validation_issued absent
            ∙ ap (λ c. (record (sole (validation_issued i) sent last) { pool_metadata = c }, none))
                kept)
    ]
retry-sole (resolution_issued i) sent tick last (resolution_request id) =
    elim (Bool-cases (nat_beq i.request_id id)) [
      | inl same ↦
          let (found, gone) = one_found i sent id same in
          inr (
            typed_found (sole (resolution_issued i) sent last) id tick resolution_issued
              (sent_at i sent) found
            ∙ ap (again_resolution_issued i last tick) gone)
      | inr other ↦
          let (absent, kept) = one_kept i sent id other in
          inl (
            typed_absent (sole (resolution_issued i) sent last) id tick resolution_issued absent
            ∙ ap (λ c. (record (sole (resolution_issued i) sent last) { token_metadata = c }, none))
                kept)
    ]
retry-sole _ sent tick last _ = inl refl

-- What has expired is nothing, or the request in flight.
expired-sole :
    (e : AnyBootstrapIssued) (sent tick : Tick) (last : RequestId)
    → (expired_bootstrap_ids (sole e sent last) tick ≡ [])
      ⊎ (expired_bootstrap_ids (sole e sent last) tick ≡ id_of e ∷ [])
unfolding expired_bootstrap_ids expired_request_ids expired_in
expired-sole (finalized_header_issued i) sent tick last =
    elim (Bool-cases (is_expired_since tick sent)) [
      | inl expired ↦ inr (rw expired refl)
      | inr fresh ↦ inl (rw fresh refl)
    ]
expired-sole (pool_candidates_issued i) sent tick last =
    elim (Bool-cases (is_expired_since tick sent)) [
      | inl expired ↦ inr (rw expired refl)
      | inr fresh ↦ inl (rw fresh refl)
    ]
expired-sole (validation_issued i) sent tick last = elim (Bool-cases (is_expired_since tick sent)) [
  | inl expired ↦ inr (rw expired refl)
  | inr fresh ↦ inl (rw fresh refl)
]
expired-sole (resolution_issued i) sent tick last = elim (Bool-cases (is_expired_since tick sent)) [
  | inl expired ↦ inr (rw expired refl)
  | inr fresh ↦ inl (rw fresh refl)
]

abbrev as_list :
    BootstrapRequests × Option AnyBootstrapIssued → BootstrapRequests × List AnyBootstrapIssued
as_list r = (r.0, option_list r.1)

-- A round of retries keeps the request in flight, and hands out nothing, or that request under the next id.
pub retry_expired-sole :
    (e : AnyBootstrapIssued) (sent tick : Tick) (last : RequestId)
    → let r = retry_bootstrap_expired (sole e sent last) tick in
      (r ≡ (sole e sent last, []))
      ⊎ (r ≡ (sole (reissued (next_id last) e) tick (next_id last), reissued (next_id last) e ∷ []))
unfolding retry_bootstrap_expired retry_bootstrap_all
retry_expired-sole e sent tick last = elim (expired-sole e sent tick last) [
  | inl fresh ↦ inl (rw (fresh, retry_bootstrap_expired) refl)
  | inr expired ↦ elim (retry-sole e sent tick last (id_of e)) [
    | inl kept ↦ inl (rw (expired, retry_bootstrap_expired) (ap as_list kept))
    | inr again ↦ inr (rw (expired, retry_bootstrap_expired) (ap as_list again))
  ]
]
