-- ===== src/Requests/Held.antt =====
-- core/crates/client-evm/src/kernel/pending_requests.rs: the requests of all types as one map, with the tick at
-- which each was sent.
use armchair_analyst.Prelude.{
  nat_eq, ◌≡◌, ◌∙◌, ap, refl, sym, eq_of_some, Option, none, some, inl, inr, ◌⊎◌, lookup, insert,
  remove, lookup-insert, lookup-remove, arith, Option-cases, Bool-cases, nat_beq_iff, ◌==◌,
}
use armchair_analyst.Requests.Tick.{Tick}
use armchair_analyst.Requests.Tracking.{RequestId, PendingPayload, RequestCollection, issue_request}
use armchair_analyst.Requests.Pending.{
  PendingRequests, AnyRequestId, retry, block_header, block_log, pool_metadata_request,
  token_metadata_request, pool_data_request, logs_range_request, canonical_header_request,
  block_header_issued, block_log_issued, pool_metadata_request_issued,
  token_metadata_request_issued, pool_data_request_issued, logs_range_request_issued,
  canonical_header_request_issued, header_store, log_store, pool_metadata_store,
  token_metadata_store, pool_data_store, logs_range_store, canonical_header_store,
}
use armchair_analyst.Requests.Entered.{
  AnyRequest, header_of, logs_of, pool_metadata_of, token_metadata_of, pool_data_of, range_of,
  canonical_of, issued_as, put, new_id, entry,
}
use armchair_analyst.Requests.Retried.{drop_id, retry_absent, retry_typed_found}

abbrev pub found_as :
    {R : Type 0} → (R → AnyRequest) → Option (PendingPayload R) → Option (AnyRequest × Tick)
found_as wrap none = none
found_as wrap (some p) = some (wrap p.request, p.dispatched_at)

-- The request under an id, and when it was sent.
abbrev pub held : PendingRequests → AnyRequestId → Option (AnyRequest × Tick)
held s (block_header id) = found_as header_of (lookup id s.block_headers)
held s (block_log id) = found_as logs_of (lookup id s.block_logs)
held s (pool_metadata_request id) = found_as pool_metadata_of (lookup id s.pool_metadata)
held s (token_metadata_request id) = found_as token_metadata_of (lookup id s.token_metadata)
held s (pool_data_request id) = found_as pool_data_of (lookup id s.pool_data)
held s (logs_range_request id) = found_as range_of (lookup id s.logs_range)
held s (canonical_header_request id) = found_as canonical_of (lookup id s.canonical_header)

-- A retry finds nothing, or takes the request out and enters it again.
abbrev Retried : PendingRequests → AnyRequestId → Tick → Type 0
Retried s id tick =
    ((held s id ≡ none) × (retry s id tick ≡ (s, none)))
    ⊎ ((q : AnyRequest) × (sent : Tick) × (held s id ≡ some (q, sent))
        × (retry s id tick ≡ (put (new_id s) q tick (drop_id id s), some (issued_as (new_id s) q))))

pub retry-cases : (s : PendingRequests) (id : AnyRequestId) (tick : Tick) → Retried s id tick
unfolding retry issue_request
retry-cases s (block_header id) tick = elim (Option-cases (lookup id s.block_headers)) [
  | inl h ↦ inl (ap (found_as header_of) h, retry_absent s (block_header id) tick h)
  | inr (p, h) ↦ inr (
    header_of p.request,
    p.dispatched_at,
    ap (found_as header_of) h,
    retry_typed_found s id tick block_header_issued p h,
  )
]
retry-cases s (block_log id) tick = elim (Option-cases (lookup id s.block_logs)) [
  | inl h ↦ inl (ap (found_as logs_of) h, retry_absent s (block_log id) tick h)
  | inr (p, h) ↦ inr (
    logs_of p.request,
    p.dispatched_at,
    ap (found_as logs_of) h,
    retry_typed_found s id tick block_log_issued p h,
  )
]
retry-cases s (pool_metadata_request id) tick = elim (Option-cases (lookup id s.pool_metadata)) [
  | inl h ↦ inl (ap (found_as pool_metadata_of) h, retry_absent s (pool_metadata_request id) tick h)
  | inr (p, h) ↦ inr (
    pool_metadata_of p.request,
    p.dispatched_at,
    ap (found_as pool_metadata_of) h,
    retry_typed_found s id tick pool_metadata_request_issued p h,
  )
]
retry-cases s (token_metadata_request id) tick = elim (Option-cases (lookup id s.token_metadata)) [
  | inl h ↦
      inl (ap (found_as token_metadata_of) h, retry_absent s (token_metadata_request id) tick h)
  | inr (p, h) ↦ inr (
    token_metadata_of p.request,
    p.dispatched_at,
    ap (found_as token_metadata_of) h,
    retry_typed_found s id tick token_metadata_request_issued p h,
  )
]
retry-cases s (pool_data_request id) tick = elim (Option-cases (lookup id s.pool_data)) [
  | inl h ↦ inl (ap (found_as pool_data_of) h, retry_absent s (pool_data_request id) tick h)
  | inr (p, h) ↦ inr (
    pool_data_of p.request,
    p.dispatched_at,
    ap (found_as pool_data_of) h,
    retry_typed_found s id tick pool_data_request_issued p h,
  )
]
retry-cases s (logs_range_request id) tick = elim (Option-cases (lookup id s.logs_range)) [
  | inl h ↦ inl (ap (found_as range_of) h, retry_absent s (logs_range_request id) tick h)
  | inr (p, h) ↦ inr (
    range_of p.request,
    p.dispatched_at,
    ap (found_as range_of) h,
    retry_typed_found s id tick logs_range_request_issued p h,
  )
]
retry-cases s (canonical_header_request id) tick =
    elim (Option-cases (lookup id s.canonical_header)) [
      | inl h ↦
          inl (ap (found_as canonical_of) h, retry_absent s (canonical_header_request id) tick h)
      | inr (p, h) ↦ inr (
        canonical_of p.request,
        p.dispatched_at,
        ap (found_as canonical_of) h,
        retry_typed_found s id tick canonical_header_request_issued p h,
      )
    ]

module _ {R : Type 0} (wrap : R → AnyRequest) where
  entered_back :
      (id x : RequestId) (q : R) (tick : Tick) (c : RequestCollection R) (r : AnyRequest × Tick)
      → found_as wrap (lookup x (insert id (entry q tick) c)) ≡ some r
      → (r.1 ≡ tick) ⊎ (found_as wrap (lookup x c) ≡ some r)
  entered_back id x q tick c r h = elim (Bool-cases (id == x)) [
    | inl here ↦
        let e : lookup x (insert id (entry q tick) c) ≡ some (entry q tick) =
          lookup-insert x id (entry q tick) c ∙ rw here refl in
        inl (sym (ap (λ o. o.1) (eq_of_some (rw e at h))))
    | inr there ↦
        let e : lookup x (insert id (entry q tick) c) ≡ lookup x c =
          lookup-insert x id (entry q tick) c ∙ rw there refl in
        inr (rw e at h)
  ]

  dropped_back :
      (id x : RequestId) (c : RequestCollection R) (r : AnyRequest × Tick)
      → found_as wrap (lookup x (remove id c)) ≡ some r
      → found_as wrap (lookup x c) ≡ some r
  dropped_back id x c r h = elim (Bool-cases (id == x)) [
    | inl here ↦
        let e : lookup x (remove id c) ≡ none = lookup-remove x id c ∙ rw here refl in
        absurd (ground (arith, e, h))
    | inr there ↦
        let e : lookup x (remove id c) ≡ lookup x c = lookup-remove x id c ∙ rw there refl in
        rw e at h
  ]

  dropped_self :
      (id : RequestId) (c : RequestCollection R) → found_as wrap (lookup id (remove id c)) ≡ none
  dropped_self id c =
      let e : lookup id (remove id c) ≡ none =
        lookup-remove id id c ∙ rw ((nat_beq_iff id id).1 refl) refl in
      ap (found_as wrap) e

pub held_entered :
    (s : PendingRequests) (id : RequestId) (q : AnyRequest) (tick : Tick) (x : AnyRequestId)
    (r : AnyRequest × Tick)
    → held (put id q tick s) x ≡ some r
    → (r.1 ≡ tick) ⊎ (held s x ≡ some r)
held_entered s id (header_of q) tick (block_header x) r h =
    entered_back header_of id x q tick s.block_headers r h
held_entered s id (logs_of q) tick (block_log x) r h =
    entered_back logs_of id x q tick s.block_logs r h
held_entered s id (pool_metadata_of q) tick (pool_metadata_request x) r h =
    entered_back pool_metadata_of id x q tick s.pool_metadata r h
held_entered s id (token_metadata_of q) tick (token_metadata_request x) r h =
    entered_back token_metadata_of id x q tick s.token_metadata r h
held_entered s id (pool_data_of q) tick (pool_data_request x) r h =
    entered_back pool_data_of id x q tick s.pool_data r h
held_entered s id (range_of q) tick (logs_range_request x) r h =
    entered_back range_of id x q tick s.logs_range r h
held_entered s id (canonical_of q) tick (canonical_header_request x) r h =
    entered_back canonical_of id x q tick s.canonical_header r h
held_entered s id _ tick _ r h = inr h

pub held_dropped :
    (s : PendingRequests) (id x : AnyRequestId) (r : AnyRequest × Tick)
    → held (drop_id id s) x ≡ some r
    → held s x ≡ some r
held_dropped s (block_header id) (block_header x) r h =
    dropped_back header_of id x s.block_headers r h
held_dropped s (block_log id) (block_log x) r h = dropped_back logs_of id x s.block_logs r h
held_dropped s (pool_metadata_request id) (pool_metadata_request x) r h =
    dropped_back pool_metadata_of id x s.pool_metadata r h
held_dropped s (token_metadata_request id) (token_metadata_request x) r h =
    dropped_back token_metadata_of id x s.token_metadata r h
held_dropped s (pool_data_request id) (pool_data_request x) r h =
    dropped_back pool_data_of id x s.pool_data r h
held_dropped s (logs_range_request id) (logs_range_request x) r h =
    dropped_back range_of id x s.logs_range r h
held_dropped s (canonical_header_request id) (canonical_header_request x) r h =
    dropped_back canonical_of id x s.canonical_header r h
held_dropped s _ _ r h = h

pub held-drop_id : (s : PendingRequests) (id : AnyRequestId) → held (drop_id id s) id ≡ none
held-drop_id s (block_header id) = dropped_self header_of id s.block_headers
held-drop_id s (block_log id) = dropped_self logs_of id s.block_logs
held-drop_id s (pool_metadata_request id) = dropped_self pool_metadata_of id s.pool_metadata
held-drop_id s (token_metadata_request id) = dropped_self token_metadata_of id s.token_metadata
held-drop_id s (pool_data_request id) = dropped_self pool_data_of id s.pool_data
held-drop_id s (logs_range_request id) = dropped_self range_of id s.logs_range
held-drop_id s (canonical_header_request id) = dropped_self canonical_of id s.canonical_header
