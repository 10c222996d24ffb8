-- ===== src/Pools/Chains.antt =====
-- core/crates/client-evm/src/chain.rs, uniswap_v4.rs: the constants of each chain. An address is
-- written as the number that its bytes spell.
use Prim.Native.String.{String}
use text.Mathlib.Text
use text.Mathlib.TextEquality.{eq_iff}
use armchair_analyst.Prelude.{
  refl, Bool-cases, eq_of_some, subst, inl, inr, ℕ, nat_eq, ◌*◌, ◌≡◌, ◌↔◌, Bool, false, Option,
  none, some, List, [], ◌∷◌, any_by, ◌==◌, if◌then◌else◌, arith,
}
use armchair_analyst.Pools.Keys.{
  Address, ChainKey, chain_eq, ethereum, arbitrum, base, optimism, polygon, bnb, avalanche,
}

abbrev pub all_chains : List ChainKey
all_chains = ethereum ∷ arbitrum ∷ base ∷ optimism ∷ polygon ∷ bnb ∷ avalanche ∷ []

abbrev pub active_chains : List ChainKey
active_chains = ethereum ∷ base ∷ optimism ∷ avalanche ∷ []

unfoldable pub drpc_network_path : ChainKey → String
drpc_network_path ethereum = "ethereum"
drpc_network_path arbitrum = "arbitrum"
drpc_network_path base = "base"
drpc_network_path optimism = "optimism"
drpc_network_path polygon = "polygon"
drpc_network_path bnb = "bnb"
drpc_network_path avalanche = "avalanche"

-- `find` on the slugs.
unfoldable pub find_chain : String → List ChainKey → Option ChainKey
unfolding drpc_network_path
find_chain path [] = none
find_chain path (chain ∷ chains) =
    if Text.◌==◌ (drpc_network_path chain) path then some chain else find_chain path chains

unfoldable pub chain_key_for_network_path : String → Option ChainKey
unfolding find_chain
chain_key_for_network_path path = find_chain path all_chains

unfoldable pub pool_candidate_block_range_chunk : ChainKey → ℕ
pool_candidate_block_range_chunk base = 100
pool_candidate_block_range_chunk optimism = 250
pool_candidate_block_range_chunk _ = 5000

unfoldable pub approx_finalized_block_age : ChainKey → ℕ
approx_finalized_block_age ethereum = 64
approx_finalized_block_age arbitrum = 1000
approx_finalized_block_age base = 200
approx_finalized_block_age optimism = 200
approx_finalized_block_age polygon = 400
approx_finalized_block_age bnb = 150
approx_finalized_block_age avalanche = 80

abbrev pub max_simultaneous_forks : ℕ
max_simultaneous_forks = 4

abbrev pub pending_cap_fork_margin : ℕ
pending_cap_fork_margin = 8

-- `max_pending_blocks`.
unfoldable pub max_pending_of : ChainKey → ℕ
unfolding approx_finalized_block_age
max_pending_of chain = pending_cap_fork_margin * approx_finalized_block_age chain

pub record V4Deployment : Type 0 where
  pub pool_manager : Address
  pub state_view : Address

unfoldable pub v4_deployment : ChainKey → Option V4Deployment
v4_deployment ethereum = some (record {
  pool_manager = 0x000000000004444c5dc75cb358380d2e3de08a90;
  state_view = 0x7ffe42c4a5deea5b0fec41c94c136cf115597227;
})
v4_deployment arbitrum = some (record {
  pool_manager = 0x360e68faccca8ca495c1b759fd9eee466db9fb32;
  state_view = 0x76fd297e2d437cd7f76d50f01afe6160f86e9990;
})
v4_deployment base = some (record {
  pool_manager = 0x498581ff718922c3f8e6a244956af099b2652b2b;
  state_view = 0xa3c0c9b65bad0b08107aa264b0f3db444b867a71;
})
v4_deployment optimism = some (record {
  pool_manager = 0x9a13f98cb987694c9f086b1f5eb990eea8264ec3;
  state_view = 0xc18a3169788f4f75a170290584eca6395c75ecdb;
})
v4_deployment polygon = some (record {
  pool_manager = 0x67366782805870060151383f4bbff9dab53e5cd6;
  state_view = 0x5ea1bd7974c8a611cbab0bdcafcb1d9cc9b3ba5a;
})
v4_deployment bnb = some (record {
  pool_manager = 0x28e2ea090877bf75740558f6bfb36a5ffee9e9df;
  state_view = 0xd13dd3d6e93f276fafc9db9e6bb47c1180aee0c4;
})
v4_deployment avalanche = some (record {
  pool_manager = 0x06380c0e0912312b5150364b9dc4542ba0dbbc85;
  state_view = 0xc3c9e198c735a4b97e3e683f391ccbdd60b69286;
})

unfoldable pub pool_manager_address : ChainKey → Option Address
unfolding v4_deployment
pool_manager_address chain = elim (v4_deployment chain) [
  | none ↦ none
  | some d ↦ some d.pool_manager
]

abbrev is_manager_of : Address → ChainKey → Bool
unfolding pool_manager_address
is_manager_of address chain = elim (pool_manager_address chain) [
  | none ↦ false
  | some manager ↦ manager == address
]

unfoldable pub is_v4_pool_manager : Address → Bool
unfolding pool_manager_address
is_v4_pool_manager address = any_by (is_manager_of address) active_chains

find_chain-slug :
    (path : String) (chains : List ChainKey) (chain : ChainKey)
    → find_chain path chains ≡ some chain
    → drpc_network_path chain ≡ path
unfolding find_chain
find_chain-slug path [] chain h = absurd (ground (arith, h))
find_chain-slug path (c ∷ chains) chain h =
    elim (Bool-cases (Text.◌==◌ (drpc_network_path c) path)) [
      | inl here ↦
          subst (λ d. drpc_network_path d ≡ path) (eq_of_some (rw here at h))
            ((eq_iff _ path).0 here)
      | inr there ↦ find_chain-slug path chains chain (rw there at h)
    ]

slug_found : (chain : ChainKey) → chain_key_for_network_path (drpc_network_path chain) ≡ some chain
unfolding chain_key_for_network_path
slug_found ethereum = refl
slug_found arbitrum = refl
slug_found base = refl
slug_found optimism = refl
slug_found polygon = refl
slug_found bnb = refl
slug_found avalanche = refl

-- A chain is found under its slug, and under no other text: what is found is the one chain of that slug.
pub chain_key_for_network_path_roundtrip :
    (path : String) (chain : ChainKey)
    → (chain_key_for_network_path path ≡ some chain) ↔ (drpc_network_path chain ≡ path)
unfolding chain_key_for_network_path
chain_key_for_network_path_roundtrip path chain = (
  find_chain-slug path all_chains chain,
  λ e. subst (λ p. chain_key_for_network_path p ≡ some chain) e (slug_found chain),
)
