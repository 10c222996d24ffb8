-- ===== src/Graph/Finality/Reroot.antt =====
-- core/crates/client-evm/src/kernel/blocks_graph.rs: the node map that `reanchored_to` leaves, hash
-- by hash.
use armchair_analyst.Prelude.{
  ℕ, nat_eq, ◌≡◌, ◌∙◌, ap, subst, sym, refl, Bool, true, false, not, ◌&&◌, ◌⊎◌, Option, none, some,
  List, [], ◌∷◌, ◌==◌, Map, UniqueKeys, lookup, contains, retain, lookup-retain, retain-UniqueKeys,
  if◌then◌else◌, arith, Bool-cases, inl, inr, nat_beq_iff,
}
use armchair_analyst.Pools.Keys.{BlockHash}
use armchair_analyst.Graph.Types.{
  block, ConnectedNode, PendingNode, Node, connected, pending, BlocksGraph, is_connected_node,
  node_parent_hash, connected_parent_hash,
}
use armchair_analyst.Graph.Admission.Rooted.{Anchored, root, step, entry_of}
use armchair_analyst.Graph.Admission.Invariant.{IsTree, view}
use armchair_analyst.Graph.Walks.Chain.{Chain, oldest, newer, Chain-of_Anchored}
use armchair_analyst.Graph.Finality.Descends.{descends-Chain}
use armchair_analyst.Graph.Finality.{
  connected_descends_from, retained_from, reclassify_parent, reclassify, map_nodes, rerooted_nodes,
  reroot,
}

lookup-map_nodes :
    (x : BlockHash) (f : Node → Node) (nodes : Map BlockHash Node)
    → lookup x (map_nodes f nodes)
      ≡ elim (lookup x nodes) [ none ↦ none | some node ↦ some (f node) ]
unfolding map_nodes lookup
lookup-map_nodes x f [] = refl
lookup-map_nodes x f ((hash, node) ∷ nodes) = ground (arith, lookup-map_nodes x f nodes)

map_nodes-UniqueKeys :
    (f : Node → Node) (nodes : Map BlockHash Node)
    → UniqueKeys nodes
    → UniqueKeys (map_nodes f nodes)
unfolding map_nodes
map_nodes-UniqueKeys f [] u = tt
map_nodes-UniqueKeys f ((hash, node) ∷ nodes) u =
    (lookup-map_nodes hash f nodes ∙ rw u.0 refl, map_nodes-UniqueKeys f nodes u.1)

module _ (nodes : Map BlockHash Node) (a : BlockHash) where
  -- Whether a node stays.
  abbrev pub stays : BlockHash → Option Node → Bool
  stays x node = is_connected_node node && not (x == a) && connected_descends_from nodes x a

  retained_absent :
      (x : BlockHash) (rest : Map BlockHash Node)
      → lookup x rest ≡ none
      → contains x (retained_from nodes a rest) ≡ false
  unfolding retained_from lookup
  retained_absent x [] h = refl
  retained_absent x ((hash, node) ∷ rest) h = ground (arith, retained_absent x rest)

  contains-retained_from :
      (x : BlockHash) (rest : Map BlockHash Node)
      → UniqueKeys rest
      → contains x (retained_from nodes a rest) ≡ stays x (lookup x rest)
  unfolding retained_from lookup
  contains-retained_from x [] u = refl
  contains-retained_from x ((hash, node) ∷ rest) u =
      ground (
        arith,
        contains-retained_from x rest u.1,
        retained_absent hash rest u.0,
        nat_beq_iff hash x,
      )

  pub lookup-rerooted :
      (x : BlockHash)
      → UniqueKeys nodes
      → lookup x (rerooted_nodes nodes a) ≡ elim (lookup x nodes) [
        | none ↦ none
        | some node ↦ if stays x (some node) then some (reclassify a node) else none
      ]
  unfolding rerooted_nodes
  lookup-rerooted x u =
      lookup-map_nodes x (reclassify a)
        (retain (λ hash _. contains hash (retained_from nodes a nodes)) nodes)
      ∙ rw (lookup-retain x (λ hash _. contains hash (retained_from nodes a nodes)) nodes u)
          (by_entry (lookup x nodes) (contains-retained_from x nodes u))
    where
      by_entry :
          (o : Option Node)
          → contains x (retained_from nodes a nodes) ≡ stays x o
          → (elim (elim o as (λ _. Option Node) [
            | none ↦ none
            | some v ↦ if contains x (retained_from nodes a nodes) then some v else none
          ])
              as (λ _. Option Node) [ none ↦ none | some node ↦ some (reclassify a node) ])
            ≡ elim o [
              | none ↦ none
              | some node ↦ if stays x (some node) then some (reclassify a node) else none
            ]
      by_entry none h = refl
      by_entry (some v) h = ground (arith, h)

  stays_up :
      (x : BlockHash) {hashes : List BlockHash} (n : ConnectedNode)
      → Chain nodes x hashes
      → lookup x nodes ≡ some (connected n)
      → (x == a) ≡ false
      → contains a hashes ≡ true
      → UniqueKeys nodes
      → lookup x (rerooted_nodes nodes a) ≡ some (reclassify a (connected n))
  stays_up x n c at other above u =
      lookup-rerooted x u ∙ rw at (ground (arith, other, descends-Chain nodes a c, above))

  -- A block that descends from the new anchor reaches it in what is left.
  rerooted-Anchored :
      {x : BlockHash} {hashes : List BlockHash}
      → UniqueKeys nodes
      → Chain nodes x hashes
      → (x == a) ≡ false
      → contains a hashes ≡ true
      → Anchored (rerooted_nodes nodes a) x
  rerooted-Anchored {x} u (oldest n at top e) other above =
      absurd (ground (arith, other, subst (λ l. contains a l ≡ true) e above))
  rerooted-Anchored {x} {hashes} u (newer n p r at up c e) other above =
      let here = stays_up x n (newer n p r at up c e) at other above u in
      elim (Bool-cases (p == a)) [
        | inl child ↦
            root (record n { parent = reclassify_parent a n.parent }) here
              (rw up (ground (arith, child)))
        | inr deeper ↦
            step (record n { parent = reclassify_parent a n.parent }) p here
              (rw up (ground (arith, deeper)))
              (rerooted-Anchored u c deeper
                (ground (arith, other, subst (λ l. contains a l ≡ true) e above)))
      ]

-- A child of the new anchor is now under the root, and every other block that stays keeps its parent.
parents_kept :
    (nodes : Map BlockHash Node) (top a x : BlockHash) (m : ConnectedNode) (hashes : List BlockHash)
    → lookup x nodes ≡ some (connected m)
    → Chain nodes x hashes
    → connected_descends_from nodes x a ≡ contains a hashes
    → entry_of a
        (if stays nodes a x (some (connected m)) then some (reclassify a (connected m)) else none)
      ≡ (if not (x == a) && contains a hashes then entry_of top (lookup x nodes) else none)
unfolding node_parent_hash connected_parent_hash
parents_kept nodes top a x m hashes found (oldest n at' up e) d =
    let alone : contains a hashes ≡ (x == a) = rw e (ground arith) in
    ground (arith, found, d, alone)
parents_kept nodes top a x m hashes found (newer n p r at' up c e) d =
    let same_parent : m.parent ≡ block p = ground (arith, found, at', up) in
    ground (arith, found, d, same_parent, nat_beq_iff p a)

module _ (g : BlocksGraph) (a : BlockHash) (number : ℕ) (t : IsTree g) where
  reroot-Anchored :
      (x : BlockHash) (n : ConnectedNode)
      → lookup x (rerooted_nodes g.nodes a) ≡ some (connected n)
      → Anchored (rerooted_nodes g.nodes a) x
  reroot-Anchored x n h =
      from (lookup x g.nodes) refl (sym (lookup-rerooted g.nodes a x t.unique) ∙ h)
    where
      from :
          (o : Option Node)
          → lookup x g.nodes ≡ o
          → (elim o as (λ _. Option Node) [
            | none ↦ none
            | some node ↦ if stays g.nodes a x (some node) then some (reclassify a node) else none
          ])
            ≡ some (connected n)
          → Anchored (rerooted_nodes g.nodes a) x
      from none at e = absurd (cc)
      from (some (pending m)) at e = absurd (ground (arith, e))
      from (some (connected m)) at e =
          let (hashes, c) = Chain-of_Anchored g.nodes (t.anchored x m at) in
          rerooted-Anchored g.nodes a t.unique c (ground (arith, e))
            (ground (arith, e, descends-Chain g.nodes a c))

  -- Re-rooting a graph that keeps the contract, at any hash, leaves one that keeps it.
  pub reroot-IsTree : IsTree (reroot g a number)
  unfolding reroot rerooted_nodes
  reroot-IsTree = record {
    unique = map_nodes-UniqueKeys (reclassify a) _ (retain-UniqueKeys _ g.nodes t.unique);
    no_anchor = lookup-rerooted g.nodes a a t.unique ∙ gone (lookup a g.nodes);
    anchored = reroot-Anchored;
    awaited = λ x n h.
        absurd (none_waits x n (lookup x g.nodes) (sym (lookup-rerooted g.nodes a x t.unique) ∙ h));
  }
    where
      gone :
          (o : Option Node)
          → (elim o as (λ _. Option Node) [
            | none ↦ none
            | some node ↦ if stays g.nodes a a (some node) then some (reclassify a node) else none
          ])
            ≡ none
      gone none = refl
      gone (some node) = ground (arith, nat_beq_iff a a)

      none_waits :
          (x : BlockHash) (n : PendingNode) (o : Option Node)
          → (elim o as (λ _. Option Node) [
            | none ↦ none
            | some node ↦ if stays g.nodes a x (some node) then some (reclassify a node) else none
          ])
            ≡ some (pending n)
          → ⊥
      none_waits x n none e = cc
      none_waits x n (some (connected m)) e = ground (arith, e)
      none_waits x n (some (pending m)) e = ground (arith, e)

  -- After re-rooting, the blocks are the connected blocks whose chain passes through the new anchor, with the
  -- parents and payloads that they had.
  pub reroot-view :
      (x : BlockHash)
      → ((is_connected_node (lookup x g.nodes) ≡ false) × (view (reroot g a number) x ≡ none))
        ⊎ ((hashes : List BlockHash) × Chain g.nodes x hashes
            × (view (reroot g a number) x
                ≡ (if not (x == a) && contains a hashes then view g x else none)))
  unfolding reroot
  reroot-view x = shown (lookup x g.nodes) refl (lookup-rerooted g.nodes a x t.unique)
    where
      same :
          (m : ConnectedNode) (hashes : List BlockHash)
          → lookup x g.nodes ≡ some (connected m)
          → Chain g.nodes x hashes
          → entry_of a (
              if stays g.nodes a x (some (connected m))
              then some (reclassify a (connected m))
              else none)
            ≡ (if not (x == a) && contains a hashes then view g x else none)
      same m hashes at c =
          parents_kept g.nodes g.anchor.hash a x m hashes at c (descends-Chain g.nodes a c)

      shown :
          (o : Option Node)
          → lookup x g.nodes ≡ o
          → lookup x (rerooted_nodes g.nodes a) ≡ (elim o as (λ _. Option Node) [
            | none ↦ none
            | some node ↦ if stays g.nodes a x (some node) then some (reclassify a node) else none
          ])
          → ((is_connected_node (lookup x g.nodes) ≡ false)
              × (entry_of a (lookup x (rerooted_nodes g.nodes a)) ≡ none))
            ⊎ ((hashes : List BlockHash) × Chain g.nodes x hashes
                × (entry_of a (lookup x (rerooted_nodes g.nodes a))
                    ≡ (if not (x == a) && contains a hashes then view g x else none)))
      shown none at e = inl (rw at refl, rw e refl)
      shown (some (pending m)) at e = inl (rw at refl, ground (arith, e))
      shown (some (connected m)) at e =
          let (hashes, c) = Chain-of_Anchored g.nodes (t.anchored x m at) in
          inr (hashes, c, ap (entry_of a) e ∙ same m hashes at c)
