-- ===== src/Graph/Reachable/Connects.antt =====
-- core/crates/client-evm/src/kernel/blocks_graph.rs: which blocks an arriving block connects.
use armchair_analyst.Prelude.{
  ℕ, nat_eq, ◌≡◌, ◌≢◌, ◌↔◌, ◌⊎◌, inl, inr, ap, sym, subst, true, Option, lookup,
}
use armchair_analyst.Pools.Keys.{ChainKey, BlockHash}
use armchair_analyst.Graph.Types.{BlockData, BlocksGraph, is_connected_node}
use armchair_analyst.Graph.Admission.{admitted, with_data_capped}
use armchair_analyst.Graph.Admission.Invariant.{IsTree, with_entry, view}
use armchair_analyst.Graph.Admission.Rooted.{Entry}
use armchair_analyst.Graph.Admission.Refine.{
  Rooted, Rooted-mono, connected-iff-Rooted, with_data_capped-IsTree, with_data_capped-view,
}
use armchair_analyst.Graph.Admission.Order.{with_data_capped_frame}
use armchair_analyst.Graph.Reachable.{Reachable, Reachable-Contract}

connected-iff-shown :
    (g : BlocksGraph) (top : BlockHash) (v : BlockHash → Option Entry)
    → IsTree g
    → g.anchor.hash ≡ top
    → ((x : BlockHash) → view g x ≡ v x)
    → (x : BlockHash) → (is_connected_node (lookup x g.nodes) ≡ true) ↔ Rooted top v x
connected-iff-shown g top v t same shows x =
    let (there, back) = connected-iff-Rooted g x t in
    (
      λ c. subst (λ a. Rooted a v x) same (Rooted-mono g.anchor.hash (view g) v shows (there c)),
      λ r. back (
          subst (λ a. Rooted a (view g) x) (sym same)
            (Rooted-mono top v (view g) (λ y. sym (shows y)) r)),
    )

-- Whatever block arrives at a graph that the kernel can reach, the connected blocks afterwards are exactly those
-- from which the parents of the present blocks lead to the anchor. If the block is admitted, the present blocks
-- are those from before and the new one, so that all which waited for it are connected with it; if it is
-- refused, they are those from before, and the graph is unchanged.
pub with_data_capped-Rooted :
    {chain : ChainKey} (g : BlocksGraph) (hash parent : BlockHash) (payload : BlockData)
    (max_pending : ℕ)
    → Reachable chain g
    → let (g', outcome) = with_data_capped g hash parent payload max_pending in
      ((outcome ≡ admitted)
        × ((x : BlockHash)
            → (is_connected_node (lookup x g'.nodes) ≡ true)
              ↔ Rooted g.anchor.hash (with_entry (view g) hash (parent, payload)) x))
      ⊎ ((outcome ≢ admitted)
          × (g' ≡ g)
          × ((x : BlockHash)
              → (is_connected_node (lookup x g'.nodes) ≡ true) ↔ Rooted g.anchor.hash (view g) x))
with_data_capped-Rooted g hash parent payload max_pending r =
    let t = (Reachable-Contract r).tree in
    let t' = with_data_capped-IsTree g hash parent payload max_pending t in
    let (top, head) = with_data_capped_frame g hash parent payload max_pending in
    elim (with_data_capped-view g hash parent payload max_pending t) [
      | inl (o, fresh, shows) ↦ inl (o, connected-iff-shown _ _ _ t' (ap (λ a. a.hash) top) shows)
      | inr (o, e) ↦
          inr
            (o, e, connected-iff-shown _ _ _ t' (ap (λ a. a.hash) top) (λ x. ap (λ h. view h x) e))
    ]
