-- ===== src/Requests/Counts.antt =====
-- core/crates/client-evm/src/kernel/pending_requests.rs: how many requests in flight pass a test.
use armchair_analyst.Prelude.{
  nat_eq, ◌+◌, ◌≡◌, ◌∙◌, ap, refl, sym, subst, eq_of_some, ◌<◌, Bool, none, some, inl, inr, [], ◌∷◌,
  lookup, insert, remove, UniqueKeys, arith, Option-cases, Bool-cases, nat_beq_iff, ◌==◌, ℕ,
  if◌then◌else◌,
}
use armchair_analyst.Requests.Tick.{Tick}
use armchair_analyst.Requests.Tracking.{RequestId, RequestCollection}
use armchair_analyst.Requests.Pending.{
  PendingRequests, AnyRequestId, block_header, block_log, pool_metadata_request,
  token_metadata_request, pool_data_request, logs_range_request, canonical_header_request,
  header_store, log_store, pool_metadata_store, token_metadata_store, pool_data_store,
  logs_range_store, canonical_header_store,
}
use armchair_analyst.Requests.Ids.{Issued, Sound}
use armchair_analyst.Requests.Entered.{
  AnyRequest, header_of, logs_of, pool_metadata_of, token_metadata_of, pool_data_of, range_of,
  canonical_of, put, entry,
}
use armchair_analyst.Requests.Retried.{drop_id}
use armchair_analyst.Requests.Held.{found_as, held}

abbrev pub one_if : Bool → ℕ
one_if b = if b then 1 else 0

-- How many requests pass a test, by collection and in all.
abbrev pub count : {R : Type 0} → (R → Bool) → RequestCollection R → ℕ
count p [] = 0
count p ((id, payload) ∷ c) = one_if (p payload.request) + count p c

abbrev pub count_held : (AnyRequest → Bool) → PendingRequests → ℕ
count_held p s =
    count (λ r. p (header_of r)) s.block_headers
    + count (λ r. p (logs_of r)) s.block_logs
    + count (λ r. p (pool_metadata_of r)) s.pool_metadata
    + count (λ r. p (token_metadata_of r)) s.token_metadata
    + count (λ r. p (pool_data_of r)) s.pool_data
    + count (λ r. p (range_of r)) s.logs_range
    + count (λ r. p (canonical_of r)) s.canonical_header

module _ {R : Type 0} (wrap : R → AnyRequest) where
  count-insert :
      (p : AnyRequest → Bool) (id : RequestId) (q : R) (tick : Tick) (c : RequestCollection R)
      → lookup id c ≡ none
      → count (λ r. p (wrap r)) (insert id (entry q tick) c)
        ≡ one_if (p (wrap q)) + count (λ r. p (wrap r)) c
  unfolding lookup insert
  count-insert p id q tick [] h = refl
  count-insert p id q tick ((j, v) ∷ c) h = ground (arith, h, count-insert p id q tick c)

  count-absent :
      (p : R → Bool) (id : RequestId) (c : RequestCollection R)
      → lookup id c ≡ none
      → count p (remove id c) ≡ count p c
  unfolding lookup remove
  count-absent p id [] h = refl
  count-absent p id ((j, v) ∷ c) h = ground (arith, h, count-absent p id c)

  count-remove :
      (p : AnyRequest → Bool) (id : RequestId) (c : RequestCollection R) (q : AnyRequest)
      (sent : Tick)
      → UniqueKeys c
      → found_as wrap (lookup id c) ≡ some (q, sent)
      → count (λ r. p (wrap r)) c ≡ one_if (p q) + count (λ r. p (wrap r)) (remove id c)
  unfolding lookup remove
  count-remove p id [] q sent u h = absurd (ground (arith, h))
  count-remove p id ((j, v) ∷ c) q sent (fresh, u) h = elim (Bool-cases (j == id)) [
    | inl same ↦
        let key = (nat_beq_iff j id).0 same in
        let gone : lookup id c ≡ none = subst (λ x. lookup x c ≡ none) key fresh in
        let it : some (wrap v.request, v.dispatched_at) ≡ some (q, sent) = rw same at h in
        rw same (
          ap (λ x. one_if (p x) + count (λ r. p (wrap r)) c) (ap (λ r. r.0) (eq_of_some it))
          ∙ ap (λ n. one_if (p q) + n) (sym (count-absent (λ r. p (wrap r)) id c gone)))
    | inr other ↦ rw other (omega (arith, count-remove p id c q sent u (rw other at h)))
  ]

pub count_held-drop :
    (p : AnyRequest → Bool) (s : PendingRequests) (id : AnyRequestId) (q : AnyRequest) (sent : Tick)
    → Sound s
    → held s id ≡ some (q, sent)
    → count_held p s ≡ one_if (p q) + count_held p (drop_id id s)
count_held-drop p s (block_header id) q sent k h =
    omega
      (arith, count-remove header_of p id s.block_headers q sent k.block_headers_issued.unique h)
count_held-drop p s (block_log id) q sent k h =
    omega (arith, count-remove logs_of p id s.block_logs q sent k.block_logs_issued.unique h)
count_held-drop p s (pool_metadata_request id) q sent k h = omega (
  arith,
  count-remove pool_metadata_of p id s.pool_metadata q sent k.pool_metadata_issued.unique h,
)
count_held-drop p s (token_metadata_request id) q sent k h = omega (
  arith,
  count-remove token_metadata_of p id s.token_metadata q sent k.token_metadata_issued.unique h,
)
count_held-drop p s (pool_data_request id) q sent k h =
    omega (arith, count-remove pool_data_of p id s.pool_data q sent k.pool_data_issued.unique h)
count_held-drop p s (logs_range_request id) q sent k h =
    omega (arith, count-remove range_of p id s.logs_range q sent k.logs_range_issued.unique h)
count_held-drop p s (canonical_header_request id) q sent k h = omega (
  arith,
  count-remove canonical_of p id s.canonical_header q sent k.canonical_header_issued.unique h,
)

fresh_id :
    {R : Type 0} {last : RequestId} (c : RequestCollection R) (id : RequestId)
    → Issued last c
    → last < id
    → lookup id c ≡ none
fresh_id c id issued later = elim (Option-cases (lookup id c)) [
  | inl fresh ↦ fresh
  | inr (p, old) ↦ absurd (omega (arith, issued.below id (rw old refl), later))
]

pub count_held-put :
    (p : AnyRequest → Bool) (s : PendingRequests) (id : RequestId) (q : AnyRequest) (tick : Tick)
    → Sound s
    → s.last_request_id < id
    → count_held p (put id q tick s) ≡ one_if (p q) + count_held p s
count_held-put p s id (header_of q) tick k l = omega (
  arith,
  count-insert header_of p id q tick s.block_headers
      (fresh_id s.block_headers id k.block_headers_issued l),
)
count_held-put p s id (logs_of q) tick k l = omega (
  arith,
  count-insert logs_of p id q tick s.block_logs (fresh_id s.block_logs id k.block_logs_issued l),
)
count_held-put p s id (pool_metadata_of q) tick k l = omega (
  arith,
  count-insert pool_metadata_of p id q tick s.pool_metadata
      (fresh_id s.pool_metadata id k.pool_metadata_issued l),
)
count_held-put p s id (token_metadata_of q) tick k l = omega (
  arith,
  count-insert token_metadata_of p id q tick s.token_metadata
      (fresh_id s.token_metadata id k.token_metadata_issued l),
)
count_held-put p s id (pool_data_of q) tick k l = omega (
  arith,
  count-insert pool_data_of p id q tick s.pool_data (fresh_id s.pool_data id k.pool_data_issued l),
)
count_held-put p s id (range_of q) tick k l = omega (
  arith,
  count-insert range_of p id q tick s.logs_range (fresh_id s.logs_range id k.logs_range_issued l),
)
count_held-put p s id (canonical_of q) tick k l = omega (
  arith,
  count-insert canonical_of p id q tick s.canonical_header
      (fresh_id s.canonical_header id k.canonical_header_issued l),
)
