-- ===== src/Requests/Listed.antt =====
-- core/crates/client-evm/src/kernel/pending_requests.rs: what has expired is among the ids to retry.
use armchair_analyst.Prelude.{
  nat_eq, ◌≡◌, ◌∙◌, ap, true, some, ◌⊎◌, inl, inr, List, [], ◌∷◌, ◌++◌, ◌==◌, map, lookup,
  eq_of_some, arith, Bool-cases, nat_beq_iff,
}
use armchair_analyst.Requests.Tick.{Tick, is_expired_since}
use armchair_analyst.Requests.Tracking.{
  RequestId, RequestCollection, expired_in, expired_request_ids,
}
use armchair_analyst.Requests.Pending.{
  PendingRequests, AnyRequestId, expired_ids, block_header, block_log, pool_metadata_request,
  token_metadata_request, pool_data_request, logs_range_request, canonical_header_request,
  header_store, log_store, pool_metadata_store, token_metadata_store, pool_data_store,
  logs_range_store, canonical_header_store,
}
use armchair_analyst.Requests.Entered.{
  AnyRequest, header_of, logs_of, pool_metadata_of, token_metadata_of, pool_data_of, range_of,
  canonical_of,
}
use armchair_analyst.Requests.Held.{found_as, held}

abbrev pub Among : AnyRequestId → List AnyRequestId → Type 0
Among x [] = ⊥
Among x (y ∷ ys) = (y ≡ x) ⊎ Among x ys

Among-left : (x : AnyRequestId) (ys zs : List AnyRequestId) → Among x ys → Among x (ys ++ zs)
Among-left x [] zs h = absurd h
Among-left x (y ∷ ys) zs (inl e) = inl e
Among-left x (y ∷ ys) zs (inr h) = inr (Among-left x ys zs h)

Among-right : (x : AnyRequestId) (ys zs : List AnyRequestId) → Among x zs → Among x (ys ++ zs)
Among-right x [] zs h = h
Among-right x (y ∷ ys) zs h = inr (Among-right x ys zs h)

Among-expired :
    {R : Type 0} (wrap : R → AnyRequest) (any : RequestId → AnyRequestId) (tick : Tick)
    (c : RequestCollection R) (id : RequestId) (r : AnyRequest × Tick)
    → found_as wrap (lookup id c) ≡ some r
    → is_expired_since tick r.1 ≡ true
    → Among (any id) (map any (expired_in tick c))
unfolding expired_in lookup
Among-expired wrap any tick [] id r h old = absurd (ground (arith, h))
Among-expired wrap any tick ((j, p) ∷ c) id r h old = elim (Bool-cases (j == id)) [
  | inl same ↦
      let it : some (wrap p.request, p.dispatched_at) ≡ some r = rw same at h in
      let late : is_expired_since tick p.dispatched_at ≡ true =
        ap (λ x. is_expired_since tick x.1) (eq_of_some it) ∙ old in
      rw (late, expired_in) (inl (ap any ((nat_beq_iff j id).0 same)))
  | inr other ↦
      let rest = Among-expired wrap any tick c id r (rw other at h) old in
      elim (Bool-cases (is_expired_since tick p.dispatched_at)) [
        | inl late ↦ rw (late, expired_in) (inr rest)
        | inr young ↦ rw (young, expired_in) rest
      ]
]

-- A member of one of seven lists is in all of them together.
module _ (x : AnyRequestId) (a b c d e f g : List AnyRequestId) where
  in_a : Among x a → Among x (a ++ b ++ c ++ d ++ e ++ f ++ g)
  in_a h = Among-left x (a ++ b ++ c ++ d ++ e ++ f) g (
      Among-left x (a ++ b ++ c ++ d ++ e) f (
        Among-left x (a ++ b ++ c ++ d) e
          (Among-left x (a ++ b ++ c) d (Among-left x (a ++ b) c (Among-left x (a) b h)))))

  in_b : Among x b → Among x (a ++ b ++ c ++ d ++ e ++ f ++ g)
  in_b h = Among-left x (a ++ b ++ c ++ d ++ e ++ f) g (
      Among-left x (a ++ b ++ c ++ d ++ e) f (
        Among-left x (a ++ b ++ c ++ d) e
          (Among-left x (a ++ b ++ c) d (Among-left x (a ++ b) c (Among-right x (a) b h)))))

  in_c : Among x c → Among x (a ++ b ++ c ++ d ++ e ++ f ++ g)
  in_c h = Among-left x (a ++ b ++ c ++ d ++ e ++ f) g (
      Among-left x (a ++ b ++ c ++ d ++ e) f (
        Among-left x (a ++ b ++ c ++ d) e
          (Among-left x (a ++ b ++ c) d (Among-right x (a ++ b) c h))))

  in_d : Among x d → Among x (a ++ b ++ c ++ d ++ e ++ f ++ g)
  in_d h = Among-left x (a ++ b ++ c ++ d ++ e ++ f) g (
      Among-left x (a ++ b ++ c ++ d ++ e) f
        (Among-left x (a ++ b ++ c ++ d) e (Among-right x (a ++ b ++ c) d h)))

  in_e : Among x e → Among x (a ++ b ++ c ++ d ++ e ++ f ++ g)
  in_e h =
      Among-left x (a ++ b ++ c ++ d ++ e ++ f) g
        (Among-left x (a ++ b ++ c ++ d ++ e) f (Among-right x (a ++ b ++ c ++ d) e h))

  in_f : Among x f → Among x (a ++ b ++ c ++ d ++ e ++ f ++ g)
  in_f h = Among-left x (a ++ b ++ c ++ d ++ e ++ f) g (Among-right x (a ++ b ++ c ++ d ++ e) f h)

  in_g : Among x g → Among x (a ++ b ++ c ++ d ++ e ++ f ++ g)
  in_g h = Among-right x (a ++ b ++ c ++ d ++ e ++ f) g h

module _ (s : PendingRequests) (tick : Tick) where
  abbrev old_block_headers : List AnyRequestId
  old_block_headers = map block_header (expired_in tick s.block_headers)

  abbrev old_block_logs : List AnyRequestId
  old_block_logs = map block_log (expired_in tick s.block_logs)

  abbrev old_pool_metadata : List AnyRequestId
  old_pool_metadata = map pool_metadata_request (expired_in tick s.pool_metadata)

  abbrev old_token_metadata : List AnyRequestId
  old_token_metadata = map token_metadata_request (expired_in tick s.token_metadata)

  abbrev old_pool_data : List AnyRequestId
  old_pool_data = map pool_data_request (expired_in tick s.pool_data)

  abbrev old_logs_range : List AnyRequestId
  old_logs_range = map logs_range_request (expired_in tick s.logs_range)

  abbrev old_canonical_header : List AnyRequestId
  old_canonical_header = map canonical_header_request (expired_in tick s.canonical_header)

  -- Whatever has expired is listed.
  pub held_expired :
      (x : AnyRequestId) (r : AnyRequest × Tick)
      → held s x ≡ some r
      → is_expired_since tick r.1 ≡ true
      → Among x (expired_ids s tick)
  unfolding expired_ids expired_request_ids
  held_expired (block_header id) r h old =
      in_a (block_header id) old_block_headers old_block_logs old_pool_metadata old_token_metadata
        old_pool_data old_logs_range old_canonical_header
        (Among-expired header_of block_header tick s.block_headers id r h old)
  held_expired (block_log id) r h old =
      in_b (block_log id) old_block_headers old_block_logs old_pool_metadata old_token_metadata
        old_pool_data old_logs_range old_canonical_header
        (Among-expired logs_of block_log tick s.block_logs id r h old)
  held_expired (pool_metadata_request id) r h old =
      in_c (pool_metadata_request id) old_block_headers old_block_logs old_pool_metadata
        old_token_metadata old_pool_data old_logs_range old_canonical_header
        (Among-expired pool_metadata_of pool_metadata_request tick s.pool_metadata id r h old)
  held_expired (token_metadata_request id) r h old =
      in_d (token_metadata_request id) old_block_headers old_block_logs old_pool_metadata
        old_token_metadata old_pool_data old_logs_range old_canonical_header
        (Among-expired token_metadata_of token_metadata_request tick s.token_metadata id r h old)
  held_expired (pool_data_request id) r h old =
      in_e (pool_data_request id) old_block_headers old_block_logs old_pool_metadata
        old_token_metadata old_pool_data old_logs_range old_canonical_header
        (Among-expired pool_data_of pool_data_request tick s.pool_data id r h old)
  held_expired (logs_range_request id) r h old =
      in_f (logs_range_request id) old_block_headers old_block_logs old_pool_metadata
        old_token_metadata old_pool_data old_logs_range old_canonical_header
        (Among-expired range_of logs_range_request tick s.logs_range id r h old)
  held_expired (canonical_header_request id) r h old =
      in_g (canonical_header_request id) old_block_headers old_block_logs old_pool_metadata
        old_token_metadata old_pool_data old_logs_range old_canonical_header
        (Among-expired canonical_of canonical_header_request tick s.canonical_header id r h old)
