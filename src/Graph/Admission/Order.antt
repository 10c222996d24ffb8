-- ===== src/Graph/Admission/Order.antt =====
-- core/crates/client-evm/src/kernel/blocks_graph.rs: the order in which blocks arrive, and the cap
-- on the blocks that wait.
use armchair_analyst.Prelude.{
  ℕ, nat_eq, ◌≤◌, ◌≡◌, inl, inr, refl, false, Option, none, ◌==◌, lookup, arith, Bool-cases,
  nat_beq_iff, sym, ◌∙◌, ap,
}
use armchair_analyst.Pools.Keys.{BlockHash}
use armchair_analyst.Graph.Types.{BlockData, BlocksGraph, is_connected_node, pending_count}
use armchair_analyst.Graph.Admission.Rooted.{Entry}
use armchair_analyst.Graph.Admission.Invariant.{view, IsTree, with_entry, admit_new-pending_count}
use armchair_analyst.Graph.Admission.Refine.{
  with_data_capped-cases, with_data_capped-IsTree, with_data_capped-view, connected-determined,
}
use armchair_analyst.Graph.Admission.{
  Admission, admitted, connects, promote_reachable, admit_new, with_data_capped,
}

-- Admission leaves the anchor and the observed head alone.
pub with_data_capped_frame :
    (g : BlocksGraph) (hash parent : BlockHash) (payload : BlockData) (max_pending : ℕ)
    → let g' = (with_data_capped g hash parent payload max_pending).0 in
      (g'.anchor ≡ g.anchor) × (g'.observed_head ≡ g.observed_head)
unfolding admit_new promote_reachable
with_data_capped_frame g hash parent payload max_pending =
    elim (with_data_capped-cases g hash parent payload max_pending) [
      | inl (n, e, _) ↦ elim (Bool-cases (connects g parent)) [
        | inl c ↦ rw e (rw (c, admit_new) (refl, refl))
        | inr c ↦ rw e (rw (c, admit_new) (refl, refl))
      ]
      | inr (e, _) ↦ rw e (refl, refl)
    ]

-- The blocks that wait for an ancestor never exceed a bound that the cap does not, if they did not
-- before.
pub with_data_capped-pending_count :
    (g : BlocksGraph) (hash parent : BlockHash) (payload : BlockData) (max_pending bound : ℕ)
    → IsTree g
    → max_pending ≤ bound
    → pending_count g ≤ bound
    → pending_count (with_data_capped g hash parent payload max_pending).0 ≤ bound
with_data_capped-pending_count g hash parent payload max_pending bound t cap h =
    elim (with_data_capped-cases g hash parent payload max_pending) [
      | inl (n, e, room) ↦
          let grows = admit_new-pending_count g hash parent payload t n.fresh n.other n.below in
          rw e (ground (arith, grows, room, cap))
      | inr (e, _) ↦ rw e h
    ]

with_entry-swap :
    (a b v : BlockHash → Option Entry) (h1 h2 y : BlockHash) (e1 e2 : Entry)
    → a y ≡ with_entry v h1 e1 y
    → b y ≡ with_entry v h2 e2 y
    → (h1 == h2) ≡ false
    → with_entry a h2 e2 y ≡ with_entry b h1 e1 y
with_entry-swap a b v h1 h2 y e1 e2 p q n = ground (arith, p, q)

admitted_view :
    (g : BlocksGraph) (hash parent : BlockHash) (payload : BlockData) (max_pending : ℕ)
    → IsTree g
    → (with_data_capped g hash parent payload max_pending).1 ≡ admitted
    → (view g hash ≡ none)
      × ((x : BlockHash)
          → view (with_data_capped g hash parent payload max_pending).0 x
            ≡ with_entry (view g) hash (parent, payload) x)
admitted_view g hash parent payload max_pending t a =
    elim (with_data_capped-view g hash parent payload max_pending t) [
      | inl (_, fresh, shows) ↦ (fresh, shows)
      | inr (refused, _) ↦ absurd (refused a)
    ]

-- Two blocks that are admitted in either order give graphs with the same blocks, parents and payloads,
-- in which the same blocks are connected: where a child came before its parent, the promotion makes up
-- for it.
pub with_data_capped_order :
    (g : BlocksGraph) (h1 p1 h2 p2 : BlockHash) (d1 d2 : BlockData) (max_pending : ℕ)
    → IsTree g
    → let first = with_data_capped g h1 p1 d1 max_pending in
      let both = with_data_capped first.0 h2 p2 d2 max_pending in
      let second = with_data_capped g h2 p2 d2 max_pending in
      let swapped = with_data_capped second.0 h1 p1 d1 max_pending in
      first.1 ≡ admitted
      → both.1 ≡ admitted
      → second.1 ≡ admitted
      → swapped.1 ≡ admitted
      → (x : BlockHash)
      → (view both.0 x ≡ view swapped.0 x)
        × (is_connected_node (lookup x both.0.nodes) ≡ is_connected_node (lookup x swapped.0.nodes))
with_data_capped_order g h1 p1 h2 p2 d1 d2 max_pending t a b c d x = (
  same x,
  connected-determined both.0 swapped.0 (with_data_capped-IsTree _ h2 p2 d2 max_pending t1)
      (with_data_capped-IsTree _ h1 p1 d1 max_pending t2) anchors same x,
)
  where
    first : BlocksGraph × Admission
    first = with_data_capped g h1 p1 d1 max_pending

    both : BlocksGraph × Admission
    both = with_data_capped first.0 h2 p2 d2 max_pending

    second : BlocksGraph × Admission
    second = with_data_capped g h2 p2 d2 max_pending

    swapped : BlocksGraph × Admission
    swapped = with_data_capped second.0 h1 p1 d1 max_pending

    t1 : IsTree first.0
    t1 = with_data_capped-IsTree g h1 p1 d1 max_pending t

    t2 : IsTree second.0
    t2 = with_data_capped-IsTree g h2 p2 d2 max_pending t

    anchors : both.0.anchor.hash ≡ swapped.0.anchor.hash
    anchors =
        ap (λ r. r.hash)
          ((with_data_capped_frame first.0 h2 p2 d2 max_pending).0
            ∙ (with_data_capped_frame g h1 p1 d1 max_pending).0
            ∙ sym (
                (with_data_capped_frame second.0 h1 p1 d1 max_pending).0
                ∙ (with_data_capped_frame g h2 p2 d2 max_pending).0))

    same : (y : BlockHash) → view both.0 y ≡ view swapped.0 y
    same y =
        let (f1, v1) = admitted_view g h1 p1 d1 max_pending t a in
        let (f2, v2) = admitted_view first.0 h2 p2 d2 max_pending t1 b in
        let (f3, v3) = admitted_view g h2 p2 d2 max_pending t c in
        let (f4, v4) = admitted_view second.0 h1 p1 d1 max_pending t2 d in
        v2 y
        ∙ with_entry-swap (view first.0) (view second.0) (view g) h1 h2 y (p1, d1) (p2, d2) (v1 y)
            (v3 y) (ground (arith, f2, v1 h2, nat_beq_iff h1 h2))
        ∙ sym (v4 y)
