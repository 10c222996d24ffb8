-- ===== src/Graph/Admission/Promotion.antt =====
-- core/crates/client-evm/src/kernel/blocks_graph.rs: one promoted block, and the invariant of the
-- promotion.
use armchair_analyst.Prelude.{
  ℕ, nat_eq, suc, ◌+◌, ◌≤◌, ◌≡◌, ◌≢◌, ◌⊎◌, inl, inr, refl, true, false, Option, none, some, List,
  [], ◌∷◌, ◌==◌, Map, UniqueKeys, lookup, insert, remove, lookup-remove, insert-UniqueKeys,
  remove-UniqueKeys, remove-absent, contains, Distinct, length, if◌then◌else◌, arith, Bool-cases,
  nat_beq_iff,
}
use armchair_analyst.Pools.Keys.{BlockHash}
use armchair_analyst.Graph.Types.{
  block, ConnectedNode, PendingNode, Node, connected, pending, node_parent_hash, is_connected_node,
  count_pending,
}
use armchair_analyst.Graph.Admission.Rooted.{
  Anchored, step, Keeps, Anchored-mono, connected_of_test, Entry, view_of, lookup-replace,
}
use armchair_analyst.Graph.Admission.{pending_children, promote_child}

-- What holds in the loop: `frontier` are the connected blocks whose children are still to be promoted,
-- and `rest` the children of `current` that the inner loop has before it.
pub record Promoting (top : BlockHash) (view : BlockHash → Option Entry) (budget : ℕ)
    (nodes : Map BlockHash Node) (frontier : List BlockHash) (current : BlockHash)
    (rest : List BlockHash) : Type 0 where
  pub unique : UniqueKeys nodes
  pub no_anchor : lookup top nodes ≡ none
  pub anchored :
      (hash : BlockHash) (node : ConnectedNode)
      → lookup hash nodes ≡ some (connected node)
      → Anchored nodes hash
  pub awaited :
      (hash : BlockHash) (node : PendingNode)
      → lookup hash nodes ≡ some (pending node)
      → (node.parent ≢ top)
        × (is_connected_node (lookup node.parent nodes) ≡ true
            → (contains node.parent frontier ≡ true)
              ⊎ ((node.parent ≡ current) × (contains hash rest ≡ true)))
  pub waiting :
      (hash : BlockHash)
      → contains hash rest ≡ true
      → (node : PendingNode) × (lookup hash nodes ≡ some (pending node)) × (node.parent ≡ current)
  pub distinct : Distinct rest
  pub linked : is_connected_node (lookup current nodes) ≡ true
  pub grown :
      (hash : BlockHash)
      → contains hash frontier ≡ true
      → is_connected_node (lookup hash nodes) ≡ true
  pub budgeted : length frontier + count_pending nodes ≤ budget
  pub shown : (hash : BlockHash) → view_of top nodes hash ≡ view hash

pub count_pending-remove :
    (hash : BlockHash) (nodes : Map BlockHash Node) (node : PendingNode)
    → UniqueKeys nodes
    → lookup hash nodes ≡ some (pending node)
    → suc (count_pending (remove hash nodes)) ≡ count_pending nodes
unfolding count_pending lookup remove
count_pending-remove hash [] node u h = absurd (cc)
count_pending-remove hash ((j, connected n) ∷ nodes) node u h =
    ground (arith, count_pending-remove hash nodes node u.1)
count_pending-remove hash ((j, pending n) ∷ nodes) node u h =
    ground (arith, count_pending-remove hash nodes node u.1, remove-absent hash nodes)

pub count_pending-insert :
    (hash : BlockHash) (nodes : Map BlockHash Node) (node : ConnectedNode)
    → lookup hash nodes ≡ none
    → count_pending (insert hash (connected node) nodes) ≡ count_pending nodes
unfolding count_pending lookup insert
count_pending-insert hash [] node h = refl
count_pending-insert hash ((j, connected n) ∷ nodes) node h =
    ground (arith, count_pending-insert hash nodes node)
count_pending-insert hash ((j, pending n) ∷ nodes) node h =
    ground (arith, count_pending-insert hash nodes node)

pub count_pending-insert_pending :
    (hash : BlockHash) (nodes : Map BlockHash Node) (node : PendingNode)
    → lookup hash nodes ≡ none
    → count_pending (insert hash (pending node) nodes) ≡ suc (count_pending nodes)
unfolding count_pending lookup insert
count_pending-insert_pending hash [] node h = refl
count_pending-insert_pending hash ((j, connected n) ∷ nodes) node h =
    ground (arith, count_pending-insert_pending hash nodes node)
count_pending-insert_pending hash ((j, pending n) ∷ nodes) node h =
    ground (arith, count_pending-insert_pending hash nodes node)

pub pending_children-parent :
    (parent x : BlockHash) (nodes : Map BlockHash Node)
    → UniqueKeys nodes
    → contains x (pending_children parent nodes) ≡ true
    → (node : PendingNode) × (lookup x nodes ≡ some (pending node)) × (node.parent ≡ parent)
unfolding pending_children lookup
pending_children-parent parent x [] u h = absurd (cc)
pending_children-parent parent x ((j, connected n) ∷ nodes) u h =
    ground (arith, pending_children-parent parent x nodes u.1 h)
pending_children-parent parent x ((j, pending n) ∷ nodes) u h =
    elim (Bool-cases (contains x (pending_children parent nodes))) [
      | inl later ↦
          let (node, found, same) = pending_children-parent parent x nodes u.1 later in
          (node, ground (arith, found), same)
      | inr first ↦ (n, ground (arith, first), ground (arith, first))
    ]

pub pending_children_complete :
    (parent x : BlockHash) (nodes : Map BlockHash Node) (node : PendingNode)
    → lookup x nodes ≡ some (pending node)
    → node.parent ≡ parent
    → contains x (pending_children parent nodes) ≡ true
unfolding pending_children lookup
pending_children_complete parent x [] node h e = absurd (cc)
pending_children_complete parent x ((j, connected n) ∷ nodes) node h e =
    ground (arith, pending_children_complete parent x nodes node)
pending_children_complete parent x ((j, pending n) ∷ nodes) node h e =
    ground (arith, pending_children_complete parent x nodes node)

pending_children-fresh :
    (parent x : BlockHash) (nodes : Map BlockHash Node)
    → lookup x nodes ≡ none
    → contains x (pending_children parent nodes) ≡ false
unfolding pending_children lookup
pending_children-fresh parent x [] h = refl
pending_children-fresh parent x ((j, connected n) ∷ nodes) h =
    ground (arith, pending_children-fresh parent x nodes)
pending_children-fresh parent x ((j, pending n) ∷ nodes) h =
    ground (arith, pending_children-fresh parent x nodes)

pub pending_children-Distinct :
    (parent : BlockHash) (nodes : Map BlockHash Node)
    → UniqueKeys nodes
    → Distinct (pending_children parent nodes)
unfolding pending_children
pending_children-Distinct parent [] u = tt
pending_children-Distinct parent ((j, connected n) ∷ nodes) u =
    pending_children-Distinct parent nodes u.1
pending_children-Distinct parent ((j, pending n) ∷ nodes) u =
    ground
      (arith, pending_children-Distinct parent nodes u.1, pending_children-fresh parent j nodes)

module _ (top : BlockHash) (view : BlockHash → Option Entry) where
  -- The node that a child becomes.
  abbrev pub promoted : BlockHash → PendingNode → Node
  promoted current node = connected (record { parent = block current; payload = node.payload })

  pub promote_child-step :
      (current child : BlockHash) (nodes : Map BlockHash Node) (frontier : List BlockHash)
      (node : PendingNode)
      → lookup child nodes ≡ some (pending node)
      → promote_child current nodes frontier child
        ≡ (insert child (promoted current node) (remove child nodes), child ∷ frontier)
  unfolding promote_child
  promote_child-step current child nodes frontier node found = rw (found, promote_child) refl

  module _ (budget : ℕ) (nodes : Map BlockHash Node) (frontier : List BlockHash)
      (current child : BlockHash) (rest : List BlockHash)
      (p : Promoting top view budget nodes frontier current (child ∷ rest)) (node : PendingNode)
      (found : lookup child nodes ≡ some (pending node)) (up : node.parent ≡ current) where
    abbrev nodes' : Map BlockHash Node
    nodes' = insert child (promoted current node) (remove child nodes)

    look :
        (x : BlockHash)
        → lookup x nodes' ≡ (if child == x then some (promoted current node) else lookup x nodes)
    look x = lookup-replace x child (promoted current node) nodes

    child-Keeps : Keeps nodes nodes'
    child-Keeps x n h = ground (arith, look x, nat_beq_iff child x)

    current-Anchored : Anchored nodes' current
    current-Anchored =
        let (n, at) = connected_of_test (lookup current nodes) p.linked in
        Anchored-mono child-Keeps (p.anchored current n at)

    child-Anchored :
        (x : BlockHash) (n : ConnectedNode)
        → lookup x nodes' ≡ some (connected n)
        → Anchored nodes' x
    child-Anchored x n h = elim (Bool-cases (child == x)) [
      | inl here ↦ step n current h (ground (arith, look x, here)) current-Anchored
      | inr there ↦ Anchored-mono child-Keeps (p.anchored x n (ground (arith, look x, there)))
    ]

    child-awaited :
        (x : BlockHash) (n : PendingNode)
        → lookup x nodes' ≡ some (pending n)
        → (n.parent ≢ top)
          × (is_connected_node (lookup n.parent nodes') ≡ true
              → (contains n.parent (child ∷ frontier) ≡ true)
                ⊎ ((n.parent ≡ current) × (contains x rest ≡ true)))
    child-awaited x n h =
        let old : lookup x nodes ≡ some (pending n) = ground (arith, look x) in
        let (low, waits) = p.awaited x n old in
        (low, λ c. ground (arith, waits, look x, look n.parent, old))

    child-waiting :
        (x : BlockHash)
        → contains x rest ≡ true
        → (n : PendingNode) × (lookup x nodes' ≡ some (pending n)) × (n.parent ≡ current)
    child-waiting x h =
        let (n, at, same) = p.waiting x (ground (arith, h)) in
        (n, ground (arith, look x, at, p.distinct, nat_beq_iff child x), same)

    child-budgeted : length (child ∷ frontier) + count_pending nodes' ≤ budget
    child-budgeted = omega (
      arith,
      p.budgeted,
      count_pending-remove child nodes node p.unique found,
      count_pending-insert child (remove child nodes)
          (record { parent = block current; payload = node.payload })
          (ground (arith, lookup-remove child child nodes, nat_beq_iff child child)),
    )

    child-shown : (x : BlockHash) → view_of top nodes' x ≡ view x
    unfolding node_parent_hash
    child-shown x = ground (arith, look x, p.shown x, found, up, nat_beq_iff child x)

    pub child-Promoting : Promoting top view budget nodes' (child ∷ frontier) current rest
    child-Promoting = record {
      unique =
          insert-UniqueKeys child _ (remove child nodes) (remove-UniqueKeys child nodes p.unique);
      no_anchor = ground (arith, look top, p.no_anchor, found, nat_beq_iff child top);
      anchored = child-Anchored;
      awaited = child-awaited;
      waiting = child-waiting;
      distinct = p.distinct.1;
      linked = ground (arith, look current, p.linked);
      grown = λ x h. ground (arith, look x, p.grown x, nat_beq_iff child x);
      budgeted = child-budgeted;
      shown = child-shown;
    }
