-- ===== src/Graph/Finality/Pruned.antt =====
-- core/crates/client-evm/src/kernel/blocks_graph.rs: the number of waiting blocks after
-- `reanchored_to`.
use armchair_analyst.Prelude.{
  ℕ, nat_eq, ◌≡◌, ◌≢◌, ◌∙◌, sym, refl, Option, none, some, [], ◌∷◌, Map, UniqueKeys, lookup,
  if◌then◌else◌, arith, nat_beq_iff,
}
use armchair_analyst.Pools.Keys.{BlockHash}
use armchair_analyst.Graph.Types.{
  count_pending, pending_count, PendingNode, Node, connected, pending, BlocksGraph,
}
use armchair_analyst.Graph.Admission.Invariant.{IsTree}
use armchair_analyst.Graph.Finality.{reclassify, rerooted_nodes, reroot}
use armchair_analyst.Graph.Finality.Reroot.{stays, lookup-rerooted, reroot-IsTree}

count_pending_none :
    (nodes : Map BlockHash Node)
    → UniqueKeys nodes
    → ((x : BlockHash) (n : PendingNode) → lookup x nodes ≢ some (pending n))
    → count_pending nodes ≡ 0
unfolding count_pending lookup
count_pending_none [] u h = refl
count_pending_none ((k, connected n) ∷ nodes) u h =
    count_pending_none nodes u.1 (λ x m e. h x m (ground (arith, e, u.0, nat_beq_iff k x)))
count_pending_none ((k, pending n) ∷ nodes) u h = absurd (h k n (ground (arith, nat_beq_iff k k)))

-- No waiting block survives a re-root.
pub reroot-count_pending :
    (g : BlocksGraph) (a : BlockHash) (number : ℕ)
    → IsTree g
    → pending_count (reroot g a number) ≡ 0
unfolding pending_count reroot
reroot-count_pending g a number t =
    count_pending_none (rerooted_nodes g.nodes a) (reroot-IsTree g a number t).unique
      (λ x n h. gone x n (lookup x g.nodes) (sym (lookup-rerooted g.nodes a x t.unique) ∙ h))
  where
    gone :
        (x : BlockHash) (n : PendingNode) (o : Option Node)
        → (elim o as (λ _. Option Node) [
          | none ↦ none
          | some node ↦ if stays g.nodes a x (some node) then some (reclassify a node) else none
        ])
          ≡ some (pending n)
        → ⊥
    gone x n none e = cc
    gone x n (some (connected m)) e = ground (arith, e)
    gone x n (some (pending m)) e = ground (arith, e)

-- A re-root brings in no block.
pub reroot_absent :
    (g : BlocksGraph) (a : BlockHash) (number : ℕ) (x : BlockHash)
    → UniqueKeys g.nodes
    → lookup x g.nodes ≡ none
    → lookup x (reroot g a number).nodes ≡ none
unfolding reroot
reroot_absent g a number x u h = lookup-rerooted g.nodes a x u ∙ rw h refl
