-- ===== src/Graph/Walks/Present.antt =====
-- core/crates/client-evm/src/kernel/blocks_graph.rs: `present_chain_from_head` and
-- `distance_from_head`, the walks along raw parents.
use mathlib.Core.List.{reverse, append_assoc}
use armchair_analyst.Prelude.{
  ℕ, nat_eq, zero, suc, ◌+◌, ◌<◌, ◌≡◌, ◌∙◌, ap, subst, sym, refl, true, false, Option, none, some,
  List, [], ◌∷◌, ◌++◌, ◌==◌, lookup, keys, contains, contains-keys, Distinct, Within, length,
  length-keys, length-le_of_Within, arith, Bool-cases, Option-cases, inl, inr, nat_beq_iff,
}
use armchair_analyst.Pools.Keys.{BlockHash}
use armchair_analyst.Graph.Types.{
  BlockData, ConnectedNode, Node, connected, BlocksGraph, node_payload, is_connected_node,
  node_parent_hash, connected_parent_hash, connected_hash,
}
use armchair_analyst.Graph.Admission.Invariant.{IsTree}
use armchair_analyst.Graph.Walks.Chain.{
  Apart, Apart-next, Chain, oldest, newer, Chain-Distinct, length-Chain,
  connected_oldest_to_newest-Chain,
}
use armchair_analyst.Graph.Walks.{
  connected_oldest_to_newest, canonical_oldest_to_newest, present_walk, walk_fuel,
  present_chain_from_head, distance_walk, distance_from_head,
}

module _ (g : BlocksGraph) where
  -- What the set of visited hashes satisfies.
  abbrev Visited : List BlockHash → ℕ → Type 0
  Visited visited fuel =
      Distinct visited × Within visited (keys g.nodes) × (length g.nodes < length visited + fuel)

  Visited-empty : Visited [] (walk_fuel g)
  Visited-empty = (tt, λ a h. absurd (cc), omega arith)

  Visited-full : (visited : List BlockHash) → Visited visited zero → ⊥
  Visited-full visited v =
      omega (arith, length-le_of_Within visited (keys g.nodes) v.0 v.1, length-keys g.nodes)

  Visited-next :
      (visited : List BlockHash) (fuel : ℕ) (current : BlockHash) (node : Node)
      → contains current visited ≡ false
      → lookup current g.nodes ≡ some node
      → Visited visited (suc fuel)
      → Visited (current ∷ visited) fuel
  Visited-next visited fuel current node new found v = (
    (new, v.0),
    λ x h. contains-keys x g.nodes ∙ elim (Bool-cases (current == x)) [
      | inl here ↦ ground (arith, found, here, nat_beq_iff current x)
      | inr there ↦ sym (contains-keys x g.nodes) ∙ v.1 x (ground (arith, there, h))
    ],
    omega arith,
  )

  present_walk_returns :
      (fuel : ℕ) (current : BlockHash) (visited : List BlockHash)
      (chain : List (BlockHash × BlockData))
      → Visited visited fuel
      → (result : List (BlockHash × BlockData)) × (present_walk fuel g current visited chain
          ≡ some result)
  unfolding present_walk
  present_walk_returns zero current visited chain v = absurd (Visited-full visited v)
  present_walk_returns (suc fuel) current visited chain v =
      elim (Bool-cases (current == g.anchor.hash)) [
        | inl top ↦ (chain, rw (top, present_walk) refl)
        | inr below ↦ elim (Bool-cases (contains current visited)) [
          | inl again ↦ ([], rw (below, present_walk) (rw (again, present_walk) refl))
          | inr new ↦ elim (Option-cases (lookup current g.nodes)) [
            | inl absent ↦ (
              chain,
              rw (below, present_walk) (rw (new, present_walk) (rw (absent, present_walk) refl)),
            )
            | inr (node, found) ↦
                let (result, e) =
                  present_walk_returns fuel (node_parent_hash g.anchor.hash node)
                    (current ∷ visited) (chain ++ (current, node_payload node) ∷ [])
                    (Visited-next visited fuel current node new found v) in
                (
                  result,
                  rw (below, present_walk) (rw (new, present_walk) (rw (found, present_walk) e)),
                )
          ]
        ]
      ]

  distance_walk_returns :
      (fuel : ℕ) (reference current : BlockHash) (visited : List BlockHash) (d : ℕ)
      → Visited visited fuel
      → (result : Option ℕ) × (distance_walk fuel g reference current visited d ≡ some result)
  unfolding distance_walk
  distance_walk_returns zero reference current visited d v = absurd (Visited-full visited v)
  distance_walk_returns (suc fuel) reference current visited d v =
      elim (Bool-cases (current == reference)) [
        | inl top ↦ (some d, rw (top, distance_walk) refl)
        | inr below ↦ elim (Bool-cases (contains current visited)) [
          | inl again ↦ (none, rw (below, distance_walk) (rw (again, distance_walk) refl))
          | inr new ↦ elim (Option-cases (lookup current g.nodes)) [
            | inl absent ↦ (
              none,
              rw (below, distance_walk) (rw (new, distance_walk) (rw (absent, distance_walk) refl)),
            )
            | inr (node, found) ↦
                let (result, e) =
                  distance_walk_returns fuel reference (node_parent_hash g.anchor.hash node)
                    (current ∷ visited) (d + 1)
                    (Visited-next visited fuel current node new found v) in
                (
                  result,
                  rw (below, distance_walk) (rw (new, distance_walk) (rw (found, distance_walk) e)),
                )
          ]
        ]
      ]

-- On any graph, tree or not, both raw walks end before their fuel does: the visited set stops a cycle.
pub raw_walks_return :
    (g : BlocksGraph) (reference : BlockHash)
    → ((chain : List (BlockHash × BlockData)) × (present_walk (walk_fuel g) g g.observed_head [] []
          ≡ some chain)
        × (present_chain_from_head g ≡ chain))
      × ((d : Option ℕ) × (distance_walk (walk_fuel g) g reference g.observed_head [] 0 ≡ some d)
          × (distance_from_head g reference ≡ d))
unfolding present_chain_from_head distance_from_head
raw_walks_return g reference =
    let (chain, e) = present_walk_returns g (walk_fuel g) g.observed_head [] [] (Visited-empty g) in
    let (d, f) =
      distance_walk_returns g (walk_fuel g) reference g.observed_head [] 0 (Visited-empty g) in
    ((chain, e, rw (e, present_chain_from_head) refl), (d, f, rw (f, distance_from_head) refl))

abbrev pub hashes_of : List (BlockHash × BlockData) → List BlockHash
hashes_of [] = []
hashes_of ((hash, data') ∷ rest) = hash ∷ hashes_of rest

hashes_of-append :
    (xs ys : List (BlockHash × BlockData)) → hashes_of (xs ++ ys) ≡ hashes_of xs ++ hashes_of ys
hashes_of-append [] ys = refl
hashes_of-append ((h, d) ∷ xs) ys = ap (λ l. h ∷ l) (hashes_of-append xs ys)

module _ (g : BlocksGraph) (t : IsTree g) where
  not_anchor :
      (x : BlockHash) (node : Node) → lookup x g.nodes ≡ some node → (x == g.anchor.hash) ≡ false
  not_anchor x node found = ground (arith, found, t.no_anchor, nat_beq_iff x g.anchor.hash)

  distance_here :
      (fuel : ℕ) (current : BlockHash) (visited : List BlockHash) (d : ℕ)
      → 0 < fuel
      → distance_walk fuel g current current visited d ≡ some (some d)
  unfolding distance_walk
  distance_here zero current visited d h = absurd (omega arith)
  distance_here (suc fuel) current visited d h =
      rw ((nat_beq_iff current current).1 refl, distance_walk) refl

  distance_step :
      (fuel : ℕ) (current : BlockHash) (visited : List BlockHash) (d : ℕ) (n : ConnectedNode)
      → lookup current g.nodes ≡ some (connected n)
      → contains current visited ≡ false
      → distance_walk (suc fuel) g g.anchor.hash current visited d
        ≡ distance_walk fuel g g.anchor.hash
            (connected_parent_hash n.parent g.anchor.hash)
            (current ∷ visited)
            (d + 1)
  unfolding distance_walk node_parent_hash
  distance_step fuel current visited d n at new =
      rw (not_anchor current (connected n) at, distance_walk)
        (rw (new, distance_walk) (rw (at, distance_walk) refl))

  distance-Chain :
      (fuel : ℕ) {current : BlockHash} {hashes : List BlockHash} (visited : List BlockHash) (d : ℕ)
      → Chain g.nodes current hashes
      → Apart hashes visited
      → length hashes < fuel
      → distance_walk fuel g g.anchor.hash current visited d ≡ some (some (d + length hashes))
  unfolding connected_parent_hash
  distance-Chain zero visited d c a h = absurd (omega arith)
  distance-Chain (suc fuel) {current = x} visited d (oldest n at top e) a h =
      distance_step fuel x visited d n at
        (a x (subst (λ l. contains x l ≡ true) (sym e) (ground (arith, nat_beq_iff x x))))
      ∙ rw top (
          distance_here fuel g.anchor.hash (x ∷ visited) (d + 1) (omega (arith, ap length e))
          ∙ ap (λ n. some (some n)) (omega (arith, ap length e)))
  distance-Chain (suc fuel) {current = x} visited d (newer n p r at up c e) a h =
      distance_step fuel x visited d n at
        (a x (subst (λ l. contains x l ≡ true) (sym e) (ground (arith, nat_beq_iff x x))))
      ∙ rw up (
          distance-Chain fuel (x ∷ visited) (d + 1) c
            (Apart-next x r visited
              (subst Distinct e (Chain-Distinct g.nodes (newer n p r at up c e)))
              (subst (λ l. Apart l visited) e a))
            (omega (arith, ap length e))
          ∙ ap (λ n. some (some n)) (omega (arith, ap length e)))

  present_step :
      (fuel : ℕ) (current : BlockHash) (visited : List BlockHash)
      (chain : List (BlockHash × BlockData)) (n : ConnectedNode)
      → lookup current g.nodes ≡ some (connected n)
      → contains current visited ≡ false
      → present_walk (suc fuel) g current visited chain
        ≡ present_walk fuel g
            (connected_parent_hash n.parent g.anchor.hash)
            (current ∷ visited)
            (chain ++ (current, n.payload) ∷ [])
  unfolding present_walk node_parent_hash
  present_step fuel current visited chain n at new =
      rw (not_anchor current (connected n) at, present_walk)
        (rw (new, present_walk) (rw (at, present_walk) refl))

  present_here :
      (fuel : ℕ) (visited : List BlockHash) (chain : List (BlockHash × BlockData))
      → 0 < fuel
      → present_walk fuel g g.anchor.hash visited chain ≡ some chain
  unfolding present_walk
  present_here zero visited chain h = absurd (omega arith)
  present_here (suc fuel) visited chain h =
      rw ((nat_beq_iff g.anchor.hash g.anchor.hash).1 refl, present_walk) refl

  -- What the present walk pushes from a connected block on is the chain of that block.
  present-Chain :
      (fuel : ℕ) {current : BlockHash} {hashes : List BlockHash} (visited : List BlockHash)
      (chain : List (BlockHash × BlockData))
      → Chain g.nodes current hashes
      → Apart hashes visited
      → length hashes < fuel
      → (tail : List (BlockHash × BlockData)) × (present_walk fuel g current visited chain
          ≡ some (chain ++ tail))
        × (hashes_of tail ≡ hashes)
  unfolding connected_parent_hash
  present-Chain zero visited chain c a h = absurd (omega arith)
  present-Chain (suc fuel) {current = x} visited chain (oldest n at top e) a h = (
    (x, n.payload) ∷ [],
    present_step fuel x visited chain n at
          (a x (subst (λ l. contains x l ≡ true) (sym e) (ground (arith, nat_beq_iff x x))))
        ∙ rw top (present_here fuel (x ∷ visited) _ (omega (arith, ap length e))),
    sym e,
  )
  present-Chain (suc fuel) {current = x} visited chain (newer n p r at up c e) a h =
      let (tail, walk, same) =
        present-Chain fuel (x ∷ visited) (chain ++ (x, n.payload) ∷ []) c
          (Apart-next x r visited
            (subst Distinct e (Chain-Distinct g.nodes (newer n p r at up c e)))
            (subst (λ l. Apart l visited) e a))
          (omega (arith, ap length e)) in
      (
        (x, n.payload) ∷ tail,
        present_step fuel x visited chain n at
              (a x (subst (λ l. contains x l ≡ true) (sym e) (ground (arith, nat_beq_iff x x))))
            ∙ rw up (walk ∙ ap some (append_assoc chain ((x, n.payload) ∷ []) tail)),
        ap (λ l. x ∷ l) same ∙ sym e,
      )

pub canonical_of_connected :
    (g : BlocksGraph)
    → is_connected_node (lookup g.observed_head g.nodes) ≡ true
    → canonical_oldest_to_newest g ≡ connected_oldest_to_newest g g.observed_head
unfolding canonical_oldest_to_newest connected_hash
canonical_of_connected g c = ground (arith, c)

-- Under a connected head the present chain is the canonical chain read newest first, and the distance to the
-- anchor is its length.
pub present_chain-canonical :
    (g : BlocksGraph)
    → IsTree g
    → is_connected_node (lookup g.observed_head g.nodes) ≡ true
    → (hashes_of (present_chain_from_head g) ≡ reverse (canonical_oldest_to_newest g))
      × (distance_from_head g g.anchor.hash
          ≡ some (length (reverse (canonical_oldest_to_newest g))))
unfolding present_chain_from_head distance_from_head
present_chain-canonical g t c =
    let same_walk = canonical_of_connected g c in
    let chain = connected_oldest_to_newest-Chain g g.observed_head t c in
    let short = length-Chain g.nodes chain in
    let (tail, walk, same) =
      present-Chain g t (walk_fuel g) [] [] chain (λ x h. refl) (omega (arith, short)) in
    let far = distance-Chain g t (walk_fuel g) [] 0 chain (λ x h. refl) (omega (arith, short)) in
    (
      rw (walk, present_chain_from_head) (same ∙ ap reverse (sym same_walk)),
      rw (far, distance_from_head)
          (ap some (omega arith) ∙ ap (λ l. some (length (reverse l))) (sym same_walk)),
    )
