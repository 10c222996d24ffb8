-- ===== src/Bootstrap/Activation.antt =====
-- core/crates/client-evm/src/kernel/mod.rs: the activation of a chain from the seed of its bootstrap.
use armchair_analyst.Prelude.{
  ℕ, nat_eq, nat_beq_iff, suc, ◌≤◌, ◌≡◌, ◌∙◌, refl, sym, subst, true, false, ◌⊎◌, inl, inr, none,
  some, List, [], ◌∷◌, ◌==◌, Map, lookup, arith, Bool-cases, Option-cases, if◌then◌else◌,
}
use armchair_analyst.Pools.Keys.{BlockHash, ChainKey}
use armchair_analyst.Graph.Types.{
  BlockData, Node, connected, pending, BlocksGraph, new, complete, key_by_log_index,
  is_connected_node, count_pending, pending_count, node_parent_hash,
}
use armchair_analyst.Graph.Admission.{
  SeedBlock, connects, admit_new, with_data_capped, max_pending_blocks, with_seed_blocks, from_seed,
}
use armchair_analyst.Graph.Admission.Invariant.{
  IsTree, view, admit_new-pending_count, admit_new-view,
}
use armchair_analyst.Graph.Admission.Refine.{IsNew, with_data_capped-IsTree}
use armchair_analyst.Graph.Admission.Seed.{new-IsTree}
use armchair_analyst.Graph.Fold.{Snapshot}
use armchair_analyst.Graph.Queries.{dangling, sort_hashes, dedup, missing_parents}
use armchair_analyst.Market.Registries.{TrustedPoolRegistry, TokenRegistry}
use armchair_analyst.Kernel.Transition.{seeded_state, issue_headers, activate_from_seed}
use armchair_analyst.Bootstrap.Window.Linked.{Linked}
use armchair_analyst.Bootstrap.Machine.{
  BootstrapPolicy, BootstrapOutcome, activated, BootstrapEvent, bootstrap_init, completion,
  bootstrap_run,
}
use armchair_analyst.Bootstrap.Machine.Seeded.{completion-Linked}

-- Where nothing is pending, what is present is connected.
present-connected :
    (nodes : Map BlockHash Node) (hash : BlockHash) (node : Node)
    → count_pending nodes ≡ 0
    → lookup hash nodes ≡ some node
    → is_connected_node (some node) ≡ true
unfolding count_pending lookup
present-connected [] hash node c h = absurd (ground (arith, h))
present-connected ((k, connected n) ∷ nodes) hash node c h =
    ground (arith, h, present-connected nodes hash node c)
present-connected ((k, pending n) ∷ nodes) hash node c h = absurd (omega (arith, c))

module _ (g : BlocksGraph) (hash parent : BlockHash) (payload : BlockData) (max_pending : ℕ) where
  abbrev after_block : BlocksGraph
  after_block = (with_data_capped g hash parent payload max_pending).0

  -- A block on a connected parent enters, or the graph stays as it is and knows the hash.
  admission-cases :
      connects g parent ≡ true
      → (IsNew g hash parent × (after_block ≡ admit_new g hash parent payload))
        ⊎ ((after_block ≡ g)
            × ((hash ≡ parent)
                ⊎ (hash ≡ g.anchor.hash)
                ⊎ ((node : Node) × (lookup hash g.nodes ≡ some node))))
  unfolding with_data_capped
  admission-cases c = elim (Bool-cases (hash == parent)) [
    | inl self ↦ inr (ground (arith, self), inl ((nat_beq_iff hash parent).0 self))
    | inr other ↦ elim (Bool-cases (hash == g.anchor.hash)) [
      | inl top ↦
          inr (ground (arith, other, top), inr (inl ((nat_beq_iff hash g.anchor.hash).0 top)))
      | inr below ↦ elim (Option-cases (lookup hash g.nodes)) [
        | inr (node, found) ↦ inr (known node other below found, inr (inr (node, found)))
        | inl fresh ↦ inl (
          record { fresh = fresh; other = other; below = below },
          ground (arith, other, below, fresh, c),
        )
      ]
    ]
  ]
    where
      known :
          (node : Node)
          → (hash == parent) ≡ false
          → (hash == g.anchor.hash) ≡ false
          → lookup hash g.nodes ≡ some node
          → after_block ≡ g
      known node other below found =
          elim (Bool-cases (node_parent_hash g.anchor.hash node == parent)) [
            | inl same ↦ ground (arith, other, below, found, same)
            | inr differs ↦ ground (arith, other, below, found, differs)
          ]

record Settled (g : BlocksGraph) (hash : BlockHash) : Type 0 where
  pub tree : IsTree g
  pub nothing : pending_count g ≡ 0
  pub here : connects g hash ≡ true

connects_present :
    (g : BlocksGraph) (hash : BlockHash) (node : Node)
    → pending_count g ≡ 0
    → lookup hash g.nodes ≡ some node
    → connects g hash ≡ true
unfolding connects pending_count
connects_present g hash node c h = ground (arith, h, present-connected g.nodes hash node c h)

present_of_view :
    (g : BlocksGraph) (hash : BlockHash) (e : BlockHash × BlockData)
    → view g hash ≡ some e
    → (node : Node) × (lookup hash g.nodes ≡ some node)
present_of_view g hash e h = elim (Option-cases (lookup hash g.nodes)) [
  | inl absent ↦ absurd (ground (arith, absent, h))
  | inr found ↦ found
]

at_anchor : (g : BlocksGraph) → connects g g.anchor.hash ≡ true
unfolding connects
at_anchor g = ground (arith, nat_beq_iff g.anchor.hash g.anchor.hash)

settled_count :
    (g : BlocksGraph) (parent : BlockHash) (n : ℕ)
    → connects g parent ≡ true
    → pending_count g ≡ 0
    → n ≤ (if connects g parent then pending_count g else suc (pending_count g))
    → n ≡ 0
settled_count g parent n c h l = ground (arith, c, h, l)

-- One more block of the chain leaves nothing pending, and the next one a connected parent.
step-Settled :
    (g : BlocksGraph) (hash parent : BlockHash) (payload : BlockData) (max_pending : ℕ)
    → Settled g parent
    → Settled (with_data_capped g hash parent payload max_pending).0 hash
step-Settled g hash parent payload max_pending s =
    let t = with_data_capped-IsTree g hash parent payload max_pending s.tree in
    elim (admission-cases g hash parent payload max_pending s.here) [
      | inl (n, e) ↦
          let grows =
            admit_new-pending_count g hash parent payload s.tree n.fresh n.other n.below in
          let count : pending_count (admit_new g hash parent payload) ≡ 0 =
            settled_count g parent (pending_count (admit_new g hash parent payload)) s.here
              s.nothing grows in
          let (node, found) =
            present_of_view (admit_new g hash parent payload) hash (parent, payload)
              (admit_new-view g hash parent payload s.tree n.fresh n.other n.below hash
                ∙ ground (arith, nat_beq_iff hash hash)) in
          record {
            tree = t;
            nothing = rw e count;
            here = rw e (connects_present (admit_new g hash parent payload) hash node count found);
          }
      | inr (e, known) ↦
          let c : connects g hash ≡ true = elim known [
            | inl self ↦ rw self s.here
            | inr (inl top) ↦ rw top (at_anchor g)
            | inr (inr (node, found)) ↦ connects_present g hash node s.nothing found
          ] in
          record { tree = t; nothing = rw e s.nothing; here = rw e c }
    ]

with_seed_blocks-Settled :
    (blocks : List SeedBlock) (g : BlocksGraph) (hash : BlockHash) (number : ℕ)
    → Linked hash number blocks
    → Settled g hash
    → pending_count (with_seed_blocks g blocks) ≡ 0
unfolding with_seed_blocks
with_seed_blocks-Settled [] g hash number l s = s.nothing
with_seed_blocks-Settled ((h, parent, n, logs) ∷ blocks) g hash number (same, _, l) s =
    let d : BlockData = record {
      number = n;
      logs_bloom = none;
      logs = complete (key_by_log_index logs);
    } in
    with_seed_blocks-Settled blocks _ h n l
      (step-Settled g h parent d max_pending_blocks (subst (λ p. Settled g p) (sym same) s))

dangling-settled :
    (top : BlockHash) (nodes rest : Map BlockHash Node)
    → count_pending rest ≡ 0
    → dangling top nodes rest ≡ []
unfolding dangling count_pending
dangling-settled top nodes [] h = refl
dangling-settled top nodes ((hash, connected n) ∷ rest) h = dangling-settled top nodes rest h
dangling-settled top nodes ((hash, pending n) ∷ rest) h = absurd (omega (arith, h))

missing_parents-settled : (g : BlocksGraph) → pending_count g ≡ 0 → missing_parents g ≡ []
unfolding missing_parents pending_count sort_hashes dedup
missing_parents-settled g h = rw (dangling-settled g.anchor.hash g.nodes g.nodes h) refl

activate_from_seed-settled :
    (anchor_hash : BlockHash) (anchor_number : ℕ) (snapshots : Snapshot)
    (pools : TrustedPoolRegistry) (tokens : TokenRegistry) (seed : List SeedBlock)
    → Linked anchor_hash anchor_number seed
    → let (s, effects) = activate_from_seed anchor_hash anchor_number snapshots pools tokens seed in
      (pending_count s.blocks.graph ≡ 0) × (effects ≡ [])
unfolding activate_from_seed seeded_state issue_headers from_seed new pending_count
activate_from_seed-settled anchor_hash anchor_number snapshots pools tokens seed l =
    let g = from_seed anchor_hash anchor_number seed in
    let quiet : pending_count g ≡ 0 =
      with_seed_blocks-Settled seed (new anchor_hash anchor_number) anchor_hash anchor_number l
        (record {
          tree = new-IsTree anchor_hash anchor_number;
          nothing = refl;
          here = at_anchor (new anchor_hash anchor_number);
        }) in
    rw (missing_parents-settled g quiet, activate_from_seed) (quiet, refl)

-- Whatever arrived during the bootstrap, and whether it went through or ran out of time, a chain that is
-- activated with its outcome has nothing pending in its graph, and sends no request for a header.
pub bootstrap_run-activate_from_seed :
    (filler_hash : BlockHash → BlockHash → BlockHash) (chain : ChainKey) (policy : BootstrapPolicy)
    (events : List BootstrapEvent) (outcome : BootstrapOutcome)
    → completion (bootstrap_run filler_hash chain (bootstrap_init policy).0 events)
      ≡ some (activated outcome)
    → let (s, effects) =
        activate_from_seed outcome.anchor.hash outcome.anchor.number outcome.pool_snapshots
          outcome.pool_registry outcome.token_registry outcome.seed_blocks in
      (pending_count s.blocks.graph ≡ 0) × (effects ≡ [])
bootstrap_run-activate_from_seed filler_hash chain policy events outcome ended =
    activate_from_seed-settled outcome.anchor.hash outcome.anchor.number outcome.pool_snapshots
      outcome.pool_registry outcome.token_registry outcome.seed_blocks
      (completion-Linked filler_hash chain policy events outcome ended)
