-- ===== src/Graph/Admission/Refine.antt =====
-- core/crates/client-evm/src/kernel/blocks_graph.rs: `with_data_capped` against an abstract
-- description, in which a graph is a partial map from hashes to parents and payloads.
use armchair_analyst.Prelude.{
  ℕ, nat_eq, ◌≡◌, ◌≢◌, ◌↔◌, ◌⊎◌, inl, inr, refl, Bool, true, false, not, ◌&&◌, Option, none, some,
  ◌==◌, leb, lookup, arith, Bool-cases, Option-cases, subst, sym, ◌∙◌,
}
use armchair_analyst.Pools.Keys.{BlockHash}
use armchair_analyst.Graph.Types.{
  BlockData, Node, connected, pending, BlocksGraph, connected_parent_hash, node_parent_hash,
  is_connected_node, pending_count,
}
use armchair_analyst.Graph.Admission.Rooted.{Anchored, root, step, Entry, connected_of_test}
use armchair_analyst.Graph.Admission.Invariant.{
  view, IsTree, with_entry, admit_new-IsTree, admit_new-view,
}
use armchair_analyst.Graph.Admission.{admitted, connects, admit_new, with_data_capped}

-- The parents that a view names lead from `hash` to the anchor `top`.
pub data Rooted (top : BlockHash) (v : BlockHash → Option Entry) : BlockHash → Type 0 where
  child : {hash : BlockHash} (e : Entry) → v hash ≡ some e → e.0 ≡ top → Rooted top v hash
  deeper : {hash : BlockHash} (e : Entry) → v hash ≡ some e → Rooted top v e.0 → Rooted top v hash

Rooted-of_Anchored :
    (g : BlocksGraph) {hash : BlockHash}
    → Anchored g.nodes hash
    → Rooted g.anchor.hash (view g) hash
unfolding node_parent_hash connected_parent_hash
Rooted-of_Anchored g (root {hash} node found top) =
    child (g.anchor.hash, node.payload) (rw found (ground (arith, top))) refl
Rooted-of_Anchored g (step {hash} node parent found up rest) =
    deeper (parent, node.payload) (rw found (ground (arith, up))) (Rooted-of_Anchored g rest)

connected_of_Rooted :
    (g : BlocksGraph) (t : IsTree g) {hash : BlockHash}
    → Rooted g.anchor.hash (view g) hash
    → is_connected_node (lookup hash g.nodes) ≡ true
unfolding node_parent_hash
connected_of_Rooted g t (child {hash} e at top) = elim (Option-cases (lookup hash g.nodes)) [
  | inl absent ↦ absurd (ground (arith, absent))
  | inr (node, found) ↦ present node found at top
]
  where
    present :
        (node : Node)
        → lookup hash g.nodes ≡ some node
        → view g hash ≡ some e
        → e.0 ≡ g.anchor.hash
        → is_connected_node (lookup hash g.nodes) ≡ true
    present (connected n) found at' top' = rw found
    present (pending n) found at' top' =
        absurd (ground (arith, found, at', top', t.awaited hash n found))
connected_of_Rooted g t (deeper {hash} e at rest) =
    deep (connected_of_Rooted g t rest) (lookup hash g.nodes) refl
  where
    deep :
        is_connected_node (lookup e.0 g.nodes) ≡ true
        → (o : Option Node) → lookup hash g.nodes ≡ o
        → is_connected_node (lookup hash g.nodes) ≡ true
    deep up none found = absurd (ground (arith, found, at))
    deep up (some (connected n)) found = rw found
    deep up (some (pending n)) found =
        absurd (ground (arith, found, at, up, t.awaited hash n found))

-- In a graph that keeps the contract a block is connected exactly when the parents of the present blocks
-- lead from it to the anchor.
pub connected-iff-Rooted :
    (g : BlocksGraph) (hash : BlockHash)
    → IsTree g
    → (is_connected_node (lookup hash g.nodes) ≡ true) ↔ Rooted g.anchor.hash (view g) hash
connected-iff-Rooted g hash t = (
  λ c.
      let (n, at) = connected_of_test (lookup hash g.nodes) c in
      Rooted-of_Anchored g (t.anchored hash n at),
  λ r. connected_of_Rooted g t r,
)

-- What an admission of a new block needs to know of it.
pub record IsNew (g : BlocksGraph) (hash parent : BlockHash) : Type 0 where
  pub fresh : lookup hash g.nodes ≡ none
  pub other : (hash == parent) ≡ false
  pub below : (hash == g.anchor.hash) ≡ false

-- Either the block is new and enters, or the graph is handed back.
pub with_data_capped-cases :
    (g : BlocksGraph) (hash parent : BlockHash) (payload : BlockData) (max_pending : ℕ)
    → (IsNew g hash parent
        × (with_data_capped g hash parent payload max_pending
            ≡ (admit_new g hash parent payload, admitted))
        × ((connects g parent ≡ true) ⊎ (leb max_pending (pending_count g) ≡ false)))
      ⊎ (((with_data_capped g hash parent payload max_pending).0 ≡ g)
          × ((with_data_capped g hash parent payload max_pending).1 ≢ admitted))
unfolding with_data_capped
with_data_capped-cases g hash parent payload max_pending = elim (Bool-cases (hash == parent)) [
  | inl self ↦ inr (ground (arith, self), ground (arith, self))
  | inr other ↦ elim (Bool-cases (hash == g.anchor.hash)) [
    | inl top ↦ inr (ground (arith, other, top), ground (arith, other, top))
    | inr below ↦ elim (Option-cases (lookup hash g.nodes)) [
      | inr (node, found) ↦ elim (Bool-cases (node_parent_hash g.anchor.hash node == parent)) [
        | inl same ↦
            inr
              (ground (arith, other, below, found, same), ground (arith, other, below, found, same))
        | inr differs ↦ inr (
          ground (arith, other, below, found, differs),
          ground (arith, other, below, found, differs),
        )
      ]
      | inl fresh ↦
          elim (Bool-cases (not (connects g parent) && leb max_pending (pending_count g))) [
            | inl full ↦ inr (
              ground (arith, other, below, fresh, full),
              ground (arith, other, below, fresh, full),
            )
            | inr room ↦ inl (
              record { fresh = fresh; other = other; below = below },
              ground (arith, other, below, fresh, room),
              ground (arith, room),
            )
          ]
    ]
  ]
]

-- Whatever block arrives, admission keeps the contract.
pub with_data_capped-IsTree :
    (g : BlocksGraph) (hash parent : BlockHash) (payload : BlockData) (max_pending : ℕ)
    → IsTree g
    → IsTree (with_data_capped g hash parent payload max_pending).0
with_data_capped-IsTree g hash parent payload max_pending t =
    elim (with_data_capped-cases g hash parent payload max_pending) [
      | inl (n, e, _) ↦ rw e (admit_new-IsTree g hash parent payload t n.fresh n.other n.below)
      | inr (e, _) ↦ rw e t
    ]

-- On the view, an admitted block is one new entry, at a hash that had none, and every refusal hands the
-- graph back unchanged.
pub with_data_capped-view :
    (g : BlocksGraph) (hash parent : BlockHash) (payload : BlockData) (max_pending : ℕ)
    → IsTree g
    → let (g', outcome) = with_data_capped g hash parent payload max_pending in
      ((outcome ≡ admitted)
        × (view g hash ≡ none)
        × ((x : BlockHash) → view g' x ≡ with_entry (view g) hash (parent, payload) x))
      ⊎ ((outcome ≢ admitted) × (g' ≡ g))
with_data_capped-view g hash parent payload max_pending t =
    elim (with_data_capped-cases g hash parent payload max_pending) [
      | inl (n, e, _) ↦ inl (
        rw e refl,
        rw n.fresh refl,
        λ x. rw e (admit_new-view g hash parent payload t n.fresh n.other n.below x),
      )
      | inr (e, o) ↦ inr (o, e)
    ]

pub Rooted-mono :
    (top : BlockHash) (v w : BlockHash → Option Entry)
    → ((x : BlockHash) → v x ≡ w x)
    → {hash : BlockHash} → Rooted top v hash
    → Rooted top w hash
Rooted-mono top v w same (child {hash} e at up) = child e (sym (same hash) ∙ at) up
Rooted-mono top v w same (deeper {hash} e at rest) =
    deeper e (sym (same hash) ∙ at) (Rooted-mono top v w same rest)

iff_eq : (a b : Bool) → ((a ≡ true) → (b ≡ true)) → ((b ≡ true) → (a ≡ true)) → a ≡ b
iff_eq true b f g = sym (f refl)
iff_eq false true f g = g refl
iff_eq false false f g = refl

-- Two graphs with one anchor and one view connect the same blocks.
pub connected-determined :
    (g h : BlocksGraph)
    → IsTree g
    → IsTree h
    → g.anchor.hash ≡ h.anchor.hash
    → ((x : BlockHash) → view g x ≡ view h x)
    → (x : BlockHash) → is_connected_node (lookup x g.nodes) ≡ is_connected_node (lookup x h.nodes)
connected-determined g h t u top same x =
    iff_eq _ _
      (λ c. connected_of_Rooted h u (
        subst (λ a. Rooted a (view h) x) top
          (Rooted-mono g.anchor.hash (view g) (view h) same ((connected-iff-Rooted g x t).0 c))))
      (λ c. connected_of_Rooted g t (
        subst (λ a. Rooted a (view g) x) (sym top)
          (Rooted-mono h.anchor.hash (view h) (view g) (λ y. sym (same y))
            ((connected-iff-Rooted h x u).0 c))))
