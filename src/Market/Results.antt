-- ===== src/Market/Results.antt =====
-- core/crates/client-evm/src/kernel/pool_registry.rs, token_registry.rs: a batch of validation
-- results.
use armchair_analyst.Prelude.{
  nat_eq, ◌≡◌, ◌∙◌, refl, subst, Bool, true, false, not, ◌&&◌, ◌||◌, Option, none, some, inl, inr,
  List, [], ◌∷◌, ◌==◌, Map, UniqueKeys, lookup, lookup-insert, lookup-remove, contains_key,
  contains, if◌then◌else◌, arith, Bool-cases,
}
use armchair_analyst.Pools.Keys.{
  ChainKey, chain_eq, chain_beq_iff, ProtocolPoolKey, pool_key_eq, pool_key_beq_iff, pool_ref_eq,
  TokenAddress, token_eq, token_beq_iff,
}
use armchair_analyst.Market.Metadata.{PoolMetadata, PoolMetadataResult, TokenMetadataResult}
use armchair_analyst.Market.Registries.{
  remove_candidate, TrustedPoolRegistry, pool_on, with_pool_result, with_pool_results,
  TokenRegistry, with_token_result, with_token_results, verified_token_metadata, is_unsupported,
  is_known_token,
}

contains-remove_candidate :
    (c d : ProtocolPoolKey) (xs : List ProtocolPoolKey)
    → contains c (remove_candidate d xs) ≡ (not (d == c) && contains c xs)
unfolding remove_candidate
contains-remove_candidate c d [] = ground arith
contains-remove_candidate c d (x ∷ xs) = ground (
  arith,
  contains-remove_candidate c d xs,
  pool_key_beq_iff x d,
  pool_key_beq_iff x c,
  pool_key_beq_iff d c,
)

-- The entry of a pool after its result, if it has one.
abbrev pub pool_after : Option PoolMetadataResult → Option PoolMetadata → Option PoolMetadata
pool_after none before = before
pool_after (some (inl metadata)) before = some metadata
pool_after (some (inr failure)) before = before

-- Whether a candidate is rejected after its result, if it has one: a success clears a rejection, and a
-- failure rejects unless the pool is verified.
abbrev pub rejected_after : Option PoolMetadataResult → Bool → Bool → Bool
rejected_after none is_verified before = before
rejected_after (some (inl metadata)) is_verified before = false
rejected_after (some (inr failure)) is_verified before = before || not is_verified

module _ (chain : ChainKey) where
  step_verified :
      (r : TrustedPoolRegistry) (c : ProtocolPoolKey) (result : PoolMetadataResult)
      (p : ProtocolPoolKey)
      → lookup (pool_on chain p) (with_pool_result chain r c result).verified ≡ (
          if c == p
          then pool_after (some result) (lookup (pool_on chain p) r.verified)
          else lookup (pool_on chain p) r.verified)
  unfolding with_pool_result
  step_verified r c (inl metadata) p =
      lookup-insert (pool_on chain p) (pool_on chain c) metadata r.verified
      ∙ ground (arith, chain_beq_iff chain chain)
  step_verified r c (inr failure) p = ground arith

  step_rejected :
      (r : TrustedPoolRegistry) (c : ProtocolPoolKey) (result : PoolMetadataResult)
      (p : ProtocolPoolKey)
      → contains p (with_pool_result chain r c result).rejected ≡ (
          if c == p
          then rejected_after
              (some result)
              (contains_key (pool_on chain p) r.verified)
              (contains p r.rejected)
          else contains p r.rejected)
  unfolding with_pool_result
  step_rejected r c (inl metadata) p = contains-remove_candidate p c r.rejected ∙ ground arith
  step_rejected r c (inr failure) p = ground (arith, pool_key_beq_iff c p)

  -- A batch of results with one result for a candidate: each candidate of the chain ends as its own result
  -- says, and one without a result stays as it was.
  pub with_pool_results-lem :
      (results : Map ProtocolPoolKey PoolMetadataResult) (r : TrustedPoolRegistry)
      (p : ProtocolPoolKey)
      → UniqueKeys results
      → (lookup (pool_on chain p) (with_pool_results chain r results).verified
          ≡ pool_after (lookup p results) (lookup (pool_on chain p) r.verified))
        × (contains p (with_pool_results chain r results).rejected
            ≡ rejected_after
                (lookup p results)
                (contains_key (pool_on chain p) r.verified)
                (contains p r.rejected))
  unfolding with_pool_results lookup contains_key
  with_pool_results-lem [] r p u = (refl, refl)
  with_pool_results-lem ((c, result) ∷ results) r p u =
      let next = with_pool_result chain r c result in
      let (v, j) = with_pool_results-lem results next p u.1 in
      let sv = step_verified r c result p in
      let sj = step_rejected r c result p in
      elim (Bool-cases (c == p)) [
        | inl here ↦
            let absent = subst (λ q. lookup q results ≡ none) ((pool_key_beq_iff c p).0 here) u.0 in
            (ground (arith, v, sv, here, absent), ground (arith, j, sj, here, absent))
        | inr there ↦ (ground (arith, v, sv, there), ground (arith, j, sj, sv, there))
      ]

  -- No candidate is both rejected and verified on the chain.
  abbrev pub Consistent : TrustedPoolRegistry → Type 0
  Consistent r =
      (p : ProtocolPoolKey)
      → contains p r.rejected ≡ true
      → contains_key (pool_on chain p) r.verified ≡ false

  with_pool_result-Consistent :
      (r : TrustedPoolRegistry) (c : ProtocolPoolKey) (result : PoolMetadataResult)
      → Consistent r
      → Consistent (with_pool_result chain r c result)
  unfolding contains_key
  with_pool_result-Consistent r c (inl metadata) k p h =
      ground (arith, k p, step_verified r c (inl metadata) p, step_rejected r c (inl metadata) p, h)
  with_pool_result-Consistent r c (inr failure) k p h =
      ground (arith, k p, step_verified r c (inr failure) p, step_rejected r c (inr failure) p, h)

  -- Whatever results arrive for the chain, no candidate becomes both rejected and verified on it.
  pub with_pool_results-Consistent :
      (results : Map ProtocolPoolKey PoolMetadataResult) (r : TrustedPoolRegistry)
      → Consistent r
      → Consistent (with_pool_results chain r results)
  unfolding with_pool_results
  with_pool_results-Consistent [] r k = k
  with_pool_results-Consistent ((c, result) ∷ results) r k =
      with_pool_results-Consistent results (with_pool_result chain r c result)
        (with_pool_result-Consistent r c result k)

step_known :
    (r : TokenRegistry) (t : TokenAddress) (result : TokenMetadataResult) (x : TokenAddress)
    → is_known_token (with_token_result r t result) x ≡ (is_known_token r x || t == x)
unfolding is_known_token verified_token_metadata is_unsupported with_token_result contains_key
step_known r t (inl metadata) x =
    ground (arith, lookup-insert x t metadata r.verified, lookup-remove x t r.unsupported)
step_known r t (inr failure) x =
    ground (arith, lookup-insert x t failure r.unsupported, token_beq_iff t x)

-- A token is known after a batch exactly when it was before or the batch holds a result for it, a failure
-- included: no answer is asked for twice.
pub with_token_results_known :
    (results : Map TokenAddress TokenMetadataResult) (r : TokenRegistry) (x : TokenAddress)
    → is_known_token (with_token_results r results) x
      ≡ (is_known_token r x || contains_key x results)
unfolding with_token_results lookup contains_key
with_token_results_known [] r x = ground arith
with_token_results_known ((t, result) ∷ results) r x = ground (
  arith,
  with_token_results_known results (with_token_result r t result) x,
  step_known r t result x,
)
