-- ===== src/Requests/Rounds.antt =====
-- core/crates/client-evm/src/kernel/pending_requests.rs: a round of retries, and the ids through it.
use armchair_analyst.Prelude.{
  nat_eq, ◌+◌, ◌^◌, ◌<◌, ◌≤◌, ◌≡◌, refl, inl, inr, List, [], ◌∷◌, ◌++◌, map, length, length-append,
  lookup, arith, Bool-cases, Bool, retain, retain-UniqueKeys, lookup-retain, nat_beq_iff,
}
use armchair_analyst.Pools.Keys.{BlockHash}
use armchair_analyst.Requests.Tick.{Tick, is_expired_since}
use armchair_analyst.Requests.Tracking.{
  RequestId, PendingPayload, RequestCollection, expired_in, expired_request_ids,
}
use armchair_analyst.Requests.Pending.{
  PendingRequests, AnyRequestId, AnyIssuedRequest, expired_ids, in_flight, retry, retry_all,
  retry_expired, extend_effects, retaining_block_targets, block_header, block_log,
  pool_metadata_request, token_metadata_request, pool_data_request, logs_range_request,
  canonical_header_request, header_store, log_store, pool_metadata_store, token_metadata_store,
  pool_data_store, logs_range_store, canonical_header_store,
}
use armchair_analyst.Requests.Ids.{Issued, Sound}
use armchair_analyst.Requests.Entered.{
  issued_as, put, new_id, new_id_lem, put_last, AllTracked, AllTracked-append, number_of,
  put-Tracked, AllTracked-kept, put-Sound,
}
use armchair_analyst.Requests.Held.{retry-cases}
use armchair_analyst.Requests.Retried.{
  drop_id, number_of_id, drop_id-Sound, drop_id_kept, number_of_issued, drop_id_last,
}

-- Effects under ids above a bound, and ids up to it.
abbrev AllAbove : RequestId → List AnyIssuedRequest → Type 0
AllAbove last [] = Unit {0}
AllAbove last (e ∷ es) = (last < number_of e) × AllAbove last es

abbrev AllUnder : RequestId → List AnyRequestId → Type 0
AllUnder last [] = Unit {0}
AllUnder last (id ∷ ids) = (number_of_id id ≤ last) × AllUnder last ids

AllTracked-dropped :
    (s : PendingRequests) (id : AnyRequestId) (last : RequestId) (es : List AnyIssuedRequest)
    → number_of_id id ≤ last
    → AllAbove last es
    → AllTracked s es
    → AllTracked (drop_id id s) es
AllTracked-dropped s id last [] l a h = tt
AllTracked-dropped s id last (e ∷ es) l (a, above) (h, hs) =
    (drop_id_kept s id e (omega (arith, l, a)) h, AllTracked-dropped s id last es l above hs)

AllAbove-append :
    (last : RequestId) (es : List AnyIssuedRequest) (e : AnyIssuedRequest)
    → AllAbove last es
    → last < number_of e
    → AllAbove last (es ++ e ∷ [])
AllAbove-append last [] e a l = (l, tt)
AllAbove-append last (x ∷ es) e (a, above) l = (a, AllAbove-append last es e above l)

-- How a run of retries stands: its effects are in flight, under ids above those that it still takes out.
pub record Running (last : RequestId) (s : PendingRequests) (effects : List AnyIssuedRequest)
    : Type 0 where
  pub sound : Sound s
  pub tracked : AllTracked s effects
  pub above : AllAbove last effects
  pub grown : last ≤ s.last_request_id

retry-Running :
    (last : RequestId) (id : AnyRequestId) (tick : Tick) (s : PendingRequests)
    (effects : List AnyIssuedRequest)
    → number_of_id id ≤ last
    → s.last_request_id + 1 < 2 ^ 64
    → Running last s effects
    → Running last (retry s id tick).0 (extend_effects effects (retry s id tick).1)
      × ((retry s id tick).0.last_request_id ≤ s.last_request_id + 1)
retry-Running last id tick s effects l room r = elim (retry-cases s id tick) [
  | inl (absent, e) ↦ rw e (r, omega arith)
  | inr (q, sent, found, e) ↦
      let new = new_id s in
      let t = drop_id id s in
      let fresh = new_id_lem s room in
      let later : t.last_request_id < new = omega (arith, fresh, drop_id_last id s) in
      let sound = drop_id-Sound s id r.sound in
      let kept = AllTracked-dropped s id last effects l r.above r.tracked in
      rw e (
        record {
          sound = put-Sound t q new tick sound later;
          tracked =
              AllTracked-append (put new q tick t) effects (issued_as new q)
                (AllTracked-kept t q new tick sound later effects kept) (put-Tracked t q new tick);
          above =
              AllAbove-append last effects (issued_as new q) r.above
                (omega (arith, number_of_issued new q, fresh, r.grown));
          grown = omega (arith, put_last new q tick t, fresh, r.grown);
        },
        omega (arith, put_last new q tick t, fresh),
      )
]

pub retry_all-Running :
    (last : RequestId) (ids : List AnyRequestId) (tick : Tick) (s : PendingRequests)
    (effects : List AnyIssuedRequest)
    → AllUnder last ids
    → s.last_request_id + length ids < 2 ^ 64
    → Running last s effects
    → let (s', effects') = retry_all ids tick s effects in Running last s' effects'
unfolding retry_all
retry_all-Running last [] tick s effects u room r = r
retry_all-Running last (id ∷ ids) tick s effects (u, us) room r =
    let (r', one) = retry-Running last id tick s effects u (omega (arith, room)) r in
    retry_all-Running last ids tick (retry s id tick).0 (extend_effects effects (retry s id tick).1)
      us (omega (arith, one, room)) r'

AllUnder-append :
    (last : RequestId) (xs ys : List AnyRequestId)
    → AllUnder last xs
    → AllUnder last ys
    → AllUnder last (xs ++ ys)
AllUnder-append last [] ys u v = v
AllUnder-append last (x ∷ xs) ys (u, us) v = (u, AllUnder-append last xs ys us v)

under_expired :
    {R : Type 0} {last : RequestId} (tick : Tick) (c : RequestCollection R)
    (any : RequestId → AnyRequestId)
    → ((id : RequestId) → number_of_id (any id) ≡ id)
    → Issued last c
    → AllUnder last (map any (expired_in tick c))
unfolding expired_in lookup
under_expired tick [] any n i = tt
under_expired {last = last} tick ((id, p) ∷ c) any n i =
    let here = i.below id (ground (arith, nat_beq_iff id id)) in
    let rest =
      under_expired tick c any n
        (record { unique = i.unique.1; below = λ x h. i.below x (ground (arith, h)) }) in
    elim (Bool-cases (is_expired_since tick p.dispatched_at)) [
      | inl old ↦ rw (old, expired_in) (omega (arith, here, n id), rest)
      | inr young ↦ rw (young, expired_in) rest
    ]

expired_count :
    {R : Type 0} (tick : Tick) (c : RequestCollection R) (any : RequestId → AnyRequestId)
    → length (map any (expired_in tick c)) ≤ length c
unfolding expired_in
expired_count tick [] any = omega arith
expired_count tick ((id, p) ∷ c) any = ground (arith, expired_count tick c any)

pub expired_ids-AllUnder :
    (s : PendingRequests) (tick : Tick) → Sound s → AllUnder s.last_request_id (expired_ids s tick)
unfolding expired_ids expired_request_ids
expired_ids-AllUnder s tick k =
    let last = s.last_request_id in
    AllUnder-append last _ _
      (AllUnder-append last _ _
        (AllUnder-append last _ _
          (AllUnder-append last _ _
            (AllUnder-append last _ _
              (AllUnder-append last _ _
                (under_expired tick s.block_headers block_header (λ id. refl)
                  k.block_headers_issued)
                (under_expired tick s.block_logs block_log (λ id. refl) k.block_logs_issued))
              (under_expired tick s.pool_metadata pool_metadata_request (λ id. refl)
                k.pool_metadata_issued))
            (under_expired tick s.token_metadata token_metadata_request (λ id. refl)
              k.token_metadata_issued))
          (under_expired tick s.pool_data pool_data_request (λ id. refl) k.pool_data_issued))
        (under_expired tick s.logs_range logs_range_request (λ id. refl) k.logs_range_issued))
      (under_expired tick s.canonical_header canonical_header_request (λ id. refl)
        k.canonical_header_issued)

expired_ids-length : (s : PendingRequests) (tick : Tick) → length (expired_ids s tick) ≤ in_flight s
unfolding expired_ids expired_request_ids in_flight
expired_ids-length s tick =
    let e0 = map block_header (expired_in tick s.block_headers) in
    let e1 = map block_log (expired_in tick s.block_logs) in
    let e2 = map pool_metadata_request (expired_in tick s.pool_metadata) in
    let e3 = map token_metadata_request (expired_in tick s.token_metadata) in
    let e4 = map pool_data_request (expired_in tick s.pool_data) in
    let e5 = map logs_range_request (expired_in tick s.logs_range) in
    let e6 = map canonical_header_request (expired_in tick s.canonical_header) in
    omega (
      arith,
      length-append e0 e1,
      length-append (e0 ++ e1) e2,
      length-append (e0 ++ e1 ++ e2) e3,
      length-append (e0 ++ e1 ++ e2 ++ e3) e4,
      length-append (e0 ++ e1 ++ e2 ++ e3 ++ e4) e5,
      length-append (e0 ++ e1 ++ e2 ++ e3 ++ e4 ++ e5) e6,
      expired_count tick s.block_headers block_header,
      expired_count tick s.block_logs block_log,
      expired_count tick s.pool_metadata pool_metadata_request,
      expired_count tick s.token_metadata token_metadata_request,
      expired_count tick s.pool_data pool_data_request,
      expired_count tick s.logs_range logs_range_request,
      expired_count tick s.canonical_header canonical_header_request,
    )

-- The retries of a tick are in flight under their new ids, if the sequence of ids has room for them.
pub retry_expired-Tracks :
    (s : PendingRequests) (tick : Tick)
    → Sound s
    → s.last_request_id + in_flight s < 2 ^ 64
    → let (s', effects) = retry_expired s tick in Sound s' × AllTracked s' effects
unfolding retry_expired
retry_expired-Tracks s tick k room =
    let r =
      retry_all-Running s.last_request_id (expired_ids s tick) tick s []
        (expired_ids-AllUnder s tick k) (omega (arith, room, expired_ids-length s tick))
        (record { sound = k; tracked = tt; above = tt; grown = omega arith }) in
    (r.sound, r.tracked)

pub retry-Tracks :
    (s : PendingRequests) (id : AnyRequestId) (tick : Tick)
    → Sound s
    → s.last_request_id + 1 < 2 ^ 64
    → let (s', issued) = retry s id tick in Sound s' × AllTracked s' (extend_effects [] issued)
retry-Tracks s id tick k room = elim (retry-cases s id tick) [
  | inl (absent, e) ↦ rw e (k, tt)
  | inr (q, sent, found, e) ↦
      let new = new_id s in
      let t = drop_id id s in
      let later : t.last_request_id < new = omega (arith, new_id_lem s room, drop_id_last id s) in
      rw e (put-Sound t q new tick (drop_id-Sound s id k) later, (put-Tracked t q new tick, tt))
]

Issued-retain :
    {R : Type 0} {last : RequestId} (p : RequestId → PendingPayload R → Bool)
    (c : RequestCollection R)
    → Issued last c
    → Issued last (retain p c)
Issued-retain p c i = record {
  unique = retain-UniqueKeys p c i.unique;
  below = λ x h. i.below x (ground (arith, h, lookup-retain x p c i.unique));
}

-- The pruning keeps the ids in order.
pub retaining_block_targets-Sound :
    (s : PendingRequests) (retained : List BlockHash)
    → Sound s
    → Sound (retaining_block_targets s retained)
unfolding retaining_block_targets
retaining_block_targets-Sound s retained k = record {
  block_headers_issued = Issued-retain _ s.block_headers k.block_headers_issued;
  block_logs_issued = Issued-retain _ s.block_logs k.block_logs_issued;
  pool_metadata_issued = Issued-retain _ s.pool_metadata k.pool_metadata_issued;
  token_metadata_issued = Issued-retain _ s.token_metadata k.token_metadata_issued;
  pool_data_issued = Issued-retain _ s.pool_data k.pool_data_issued;
  logs_range_issued = Issued-retain _ s.logs_range k.logs_range_issued;
  canonical_header_issued = k.canonical_header_issued;
}
