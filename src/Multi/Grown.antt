-- ===== src/Multi/Grown.antt =====
-- core/crates/client-evm/src/multi_chain_kernel.rs: the states of a bootstrap and of a kernel that it activates.
use armchair_analyst.Prelude.{
  nat_eq, ◌≡◌, ◌∙◌, refl, sym, ap, Option, none, some, List, [], ◌∷◌, ◌++◌,
}
use armchair_analyst.Pools.Keys.{BlockHash, ChainKey, chain_eq}
use armchair_analyst.Graph.Fold.{BloomApi}
use armchair_analyst.Kernel.{State}
use armchair_analyst.Kernel.Transition.{Event, transition}
use armchair_analyst.Kernel.Transition.Life.{Lives}
use armchair_analyst.Bootstrap.Machine.{
  BootstrapOutcome, BootstrapState, BootstrapEvent, activated, bootstrap_init, completion,
  bootstrap_transition, bootstrap_run,
}
use armchair_analyst.Multi.{ChainLifecycle, bootstrapping, active}
use armchair_analyst.Multi.Policy.{bootstrap_policy}
use armchair_analyst.Multi.Keyed.{All, insert_chain-All}
use armchair_analyst.Multi.Machine.{Chains, reinserted, activate_bootstrap_outcome}

module _ (api : BloomApi) (filler_hash : BlockHash → BlockHash → BlockHash) where
  -- A state of a bootstrap that its events lead to.
  abbrev pub Ran : ChainKey → BootstrapState → Type 0
  Ran chain s =
      (events : List BootstrapEvent) × (s
        ≡ bootstrap_run filler_hash chain (bootstrap_init (bootstrap_policy chain)).0 events)

  -- A state of a kernel that was activated with the outcome of a bootstrap, and moved by events.
  pub data Grown (chain : ChainKey) : State → Type 0 where
    started :
        {s : State} (b : BootstrapState) (outcome : BootstrapOutcome)
        → Ran chain b
        → completion b ≡ some (activated outcome)
        → s ≡ (activate_bootstrap_outcome outcome).0
        → Grown chain s
    moved :
        {s' : State} (s : State) (event : Event)
        → Grown chain s
        → s' ≡ (transition api chain s event).0
        → Grown chain s'

  abbrev pub Known : ChainKey → ChainLifecycle → Type 0
  Known chain (bootstrapping s buffered) = Ran chain s
  Known chain (active s) = Grown chain s

  pub Grown-Lives : {chain : ChainKey} {s : State} → Grown chain s → Lives api chain s
  unfolding activate_bootstrap_outcome
  Grown-Lives (started b outcome ran ended e) =
      Lives.activated outcome.anchor.hash outcome.anchor.number outcome.pool_snapshots
        outcome.pool_registry outcome.token_registry outcome.seed_blocks e
  Grown-Lives (moved s event g e) = Lives.moved s event (Grown-Lives g) e

  run-snoc :
      (chain : ChainKey) (events : List BootstrapEvent) (s : BootstrapState)
      (event : BootstrapEvent)
      → bootstrap_run filler_hash chain s (events ++ event ∷ [])
        ≡ (bootstrap_transition filler_hash chain
            (bootstrap_run filler_hash chain s events)
            event).0
  unfolding bootstrap_run
  run-snoc chain [] s event = refl
  run-snoc chain (e ∷ events) s event =
      run-snoc chain events (bootstrap_transition filler_hash chain s e).0 event

  pub Ran-init : (chain : ChainKey) → Ran chain (bootstrap_init (bootstrap_policy chain)).0
  unfolding bootstrap_run
  Ran-init chain = ([], refl)

  pub Ran-next :
      (chain : ChainKey) (s : BootstrapState) (event : BootstrapEvent)
      → Ran chain s
      → Ran chain (bootstrap_transition filler_hash chain s event).0
  Ran-next chain s event (events, e) = (
    events ++ event ∷ [],
    ap (λ t. (bootstrap_transition filler_hash chain t event).0) e
        ∙ sym (run-snoc chain events (bootstrap_init (bootstrap_policy chain)).0 event),
  )

  abbrev pub KnownOption : ChainKey → Option ChainLifecycle → Type 0
  KnownOption chain none = Unit {0}
  KnownOption chain (some lifecycle) = Known chain lifecycle

  pub reinserted-Known :
      (chain : ChainKey) (o : Option ChainLifecycle) (chains : Chains)
      → KnownOption chain o
      → All Known chains
      → All Known (reinserted chain o chains)
  unfolding reinserted
  reinserted-Known chain none chains k h = h
  reinserted-Known chain (some lifecycle) chains k h =
      insert_chain-All Known chain lifecycle chains k h
