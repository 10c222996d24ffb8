-- ===== src/Kernel/Transition/Life.antt =====
-- core/crates/client-evm/src/kernel/mod.rs: the life of a kernel, and the events that do nothing.
use armchair_analyst.Prelude.{
  ℕ, nat_eq, ◌≡◌, ◌∙◌, ap, refl, sym, subst, true, ◌||◌, some, inl, inr, List, ◌==◌, lookup,
  contains_key, arith, Bool-cases, Option-cases, nat_beq_iff,
}
use armchair_analyst.Pools.Keys.{ChainKey, BlockHash, Bloom}
use armchair_analyst.Pools.Chains.{max_pending_of}
use armchair_analyst.Graph.Admission.Refine.{with_data_capped-cases}
use armchair_analyst.Graph.Types.{BlockData, unknown, BlocksGraph, contains_block}
use armchair_analyst.Graph.Admission.{
  Admission, duplicate_block, SeedBlock, with_block_capped, with_data_capped, with_observed_head,
}
use armchair_analyst.Graph.Fold.{BloomApi, Snapshot}
use armchair_analyst.Market.Registries.{TrustedPoolRegistry, TokenRegistry}
use armchair_analyst.Kernel.{
  State, with_streamed_logs_drained, map_graph, head_after, with_log_head_observed,
}
use armchair_analyst.Kernel.Transition.{
  Event, head_observed, inert, activate_from_seed, head_outcome, on_head_observed,
  transition_outcome, transition,
}
use armchair_analyst.Kernel.Transition.Feeds.{IsCoherent, seeded_kept}
use armchair_analyst.Kernel.Transition.Keeps.{transition-IsCoherent}

-- A state that the kernel of a chain can reach: activated from a seed, and moved by events.
pub data Lives (api : BloomApi) (chain : ChainKey) : State → Type 0 where
  activated :
      {s : State} (hash : BlockHash) (number : ℕ) (snapshots : Snapshot)
      (pools : TrustedPoolRegistry) (tokens : TokenRegistry) (blocks : List SeedBlock)
      → s ≡ (activate_from_seed hash number snapshots pools tokens blocks).0
      → Lives api chain s
  moved :
      {s' : State} (s : State) (event : Event)
      → Lives api chain s
      → s' ≡ (transition api chain s event).0
      → Lives api chain s'

-- Whatever a chain is seeded from and whatever events follow, the graph keeps its contract, and no block of
-- the graph has logs staged.
pub Lives-IsCoherent :
    {api : BloomApi} {chain : ChainKey} {s : State} → Lives api chain s → IsCoherent chain s
Lives-IsCoherent {chain = chain} (activated hash number snapshots pools tokens blocks e) =
    subst (IsCoherent chain) (sym e) (seeded_kept chain hash number snapshots pools tokens blocks)
Lives-IsCoherent {api} {chain} (moved s event l e) =
    subst (IsCoherent chain) (sym e) (transition-IsCoherent chain api s event (Lives-IsCoherent l))

-- What an admission that refuses a block as a duplicate has found.
duplicate_found :
    (g : BlocksGraph) (hash parent : BlockHash) (number : ℕ) (bloom : Bloom) (max_pending : ℕ)
    → (with_block_capped g hash parent number bloom max_pending).1 ≡ duplicate_block
    → ((with_block_capped g hash parent number bloom max_pending).0 ≡ g)
      × (contains_block g hash ≡ true)
unfolding with_block_capped with_data_capped contains_block contains_key
duplicate_found g hash parent number bloom max_pending h =
    let d : BlockData = record { number = number; logs_bloom = some bloom; logs = unknown } in
    (
      elim (with_data_capped-cases g hash parent d max_pending) [
        | inl (_, e, _) ↦ absurd (ground (arith, h, ap (λ r. r.1) e))
        | inr (e, _) ↦ e
      ],
      ground (arith, h),
    )

head_again :
    (g : BlocksGraph) (hash : BlockHash)
    → (hash == g.observed_head) ≡ true
    → with_observed_head g hash ≡ g
unfolding with_observed_head
head_again g hash h =
    let e = (nat_beq_iff hash g.observed_head).0 h in
    elim (Bool-cases (hash == g.anchor.hash || contains_key hash g.nodes)) [
      | inl there ↦ rw (there, with_observed_head) (ap (λ x. record g { observed_head = x }) e)
      | inr gone ↦ rw (gone, with_observed_head) refl
    ]

nothing_drained :
    (chain : ChainKey) (s : State) (hash : BlockHash)
    → IsCoherent chain s
    → contains_block s.blocks.graph hash ≡ true
    → with_streamed_logs_drained s hash ≡ s
unfolding with_streamed_logs_drained contains_key
nothing_drained chain s hash k there = elim (Option-cases (lookup hash s.streamed_logs)) [
  | inl e ↦ rw (there, with_streamed_logs_drained) (rw (e, with_streamed_logs_drained) refl)
  | inr (logs, e) ↦ absurd (ground (arith, k.apart hash (rw e refl), there))
]

module _ (api : BloomApi) (chain : ChainKey) where
  head_outcome-inert :
      (a : Admission) (head_before hash : BlockHash) (number : ℕ) (s s' : State)
      → head_outcome api chain a head_before hash number s ≡ inert s'
      → (a ≡ duplicate_block) × ((hash == head_before) ≡ true) × (s ≡ s')
  unfolding head_outcome
  head_outcome-inert a head_before hash number s s' h = ground (arith, h)

  -- An event that the kernel calls inert leaves the very state: nothing that is derived from it can have
  -- changed.
  pub transition_outcome-inert :
      (s s' : State) (event : Event)
      → IsCoherent chain s
      → transition_outcome api chain s event ≡ inert s'
      → s' ≡ s
  unfolding transition_outcome on_head_observed with_log_head_observed map_graph
  transition_outcome-inert s s' (head_observed hash parent bloom number) k h =
      let r = with_block_capped s.blocks.graph hash parent number bloom (max_pending_of chain) in
      let (a, same, e) =
        head_outcome-inert r.1 s.blocks.graph.observed_head hash number
          (with_log_head_observed s hash parent number bloom (max_pending_of chain)).0 s' h in
      let (g, there) = duplicate_found s.blocks.graph hash parent number bloom _ a in
      sym e
      ∙ ap (λ b. with_streamed_logs_drained (map_graph (λ _. head_after b hash r.0) s) hash) a
      ∙ ap (λ t. with_streamed_logs_drained (map_graph (λ _. with_observed_head t hash) s) hash) g
      ∙ ap (λ t. with_streamed_logs_drained (map_graph (λ _. t) s) hash)
          (head_again s.blocks.graph hash same)
      ∙ nothing_drained chain s hash k there
  transition_outcome-inert s s' _ k h = absurd (ground (arith, h))
