-- ===== src/Graph/Walks/Chain.antt =====
-- core/crates/client-evm/src/kernel/blocks_graph.rs: `connected_oldest_to_newest`, and the chains of
-- connected blocks that describe it.
use mathlib.Core.List.{reverse, reverse-reverse}
use armchair_analyst.Prelude.{
  ℕ, nat_eq, zero, suc, ◌≤◌, ◌≡◌, ◌∙◌, ap, subst, sym, refl, true, false, some, List, [], ◌∷◌, ◌==◌,
  Map, lookup, keys, contains, contains-keys, Distinct, Within, length, length-keys,
  length-le_of_Within, arith, Bool-cases, inl, inr, nat_beq_iff,
}
use armchair_analyst.Pools.Keys.{BlockHash}
use armchair_analyst.Graph.Types.{
  anchor, block, ConnectedNode, Node, connected, BlocksGraph, is_connected_node,
}
use armchair_analyst.Graph.Admission.Rooted.{Anchored, root, step, connected_of_test}
use armchair_analyst.Graph.Admission.Invariant.{IsTree}
use armchair_analyst.Graph.Walks.{connected_walk, connected_oldest_to_newest}

-- A list of connected blocks, newest first: each one's parent is the next, and that of the last is the
-- anchor.
pub data Chain (nodes : Map BlockHash Node) : BlockHash → List BlockHash → Type 0 where
  oldest :
      {hash : BlockHash} {hashes : List BlockHash} (node : ConnectedNode)
      → lookup hash nodes ≡ some (connected node)
      → node.parent ≡ anchor
      → hashes ≡ hash ∷ []
      → Chain nodes hash hashes
  newer :
      {hash : BlockHash} {hashes : List BlockHash} (node : ConnectedNode) (parent : BlockHash)
      (rest : List BlockHash)
      → lookup hash nodes ≡ some (connected node)
      → node.parent ≡ block parent
      → Chain nodes parent rest
      → hashes ≡ hash ∷ rest
      → Chain nodes hash hashes

module _ (nodes : Map BlockHash Node) where
  pub Chain-of_Anchored :
      {hash : BlockHash} → Anchored nodes hash → (hashes : List BlockHash) × Chain nodes hash hashes
  Chain-of_Anchored (root {hash = h} node found top) = (h ∷ [], oldest node found top refl)
  Chain-of_Anchored (step {hash = h} node parent found up rest) =
      let (hashes, chain) = Chain-of_Anchored rest in
      (h ∷ hashes, newer node parent hashes found up chain refl)

  -- The chain of a block is fixed by the block.
  pub Chain-unique :
      {hash : BlockHash} {xs ys : List BlockHash}
      → Chain nodes hash xs
      → Chain nodes hash ys
      → xs ≡ ys
  Chain-unique (oldest n at top e) (oldest m at' top' e') = e ∙ sym e'
  Chain-unique (oldest n at top e) (newer m p r at' up' c' e') =
      absurd (ground (arith, at, at', top, up'))
  Chain-unique (newer n p r at up c e) (oldest m at' top' e') =
      absurd (ground (arith, at, at', top', up))
  Chain-unique {hash = h} (newer n p r at up c e) (newer m q s at' up' c' e') =
      let same : p ≡ q = ground (arith, at, at', up, up') in
      e ∙ ap (λ rest. h ∷ rest) (Chain-unique (subst (λ x. Chain nodes x r) same c) c') ∙ sym e'

  -- A block of a chain has a chain of its own, no longer than that.
  Chain-within :
      (x : BlockHash) {hash : BlockHash} {hashes : List BlockHash}
      → Chain nodes hash hashes
      → contains x hashes ≡ true
      → (own : List BlockHash) × Chain nodes x own × (length own ≤ length hashes)
  Chain-within x {hash = h} {hashes = hs} (oldest n at top e) c =
      let here : h ≡ x =
        (nat_beq_iff h x).0 (ground (arith, subst (λ l. contains x l ≡ true) e c)) in
      (hs, subst (λ y. Chain nodes y hs) here (oldest n at top e), omega arith)
  Chain-within x {hash = h} {hashes = hs} (newer n p r at up rest e) c =
      elim (Bool-cases (h == x)) [
        | inl here ↦ (
          hs,
          subst (λ y. Chain nodes y hs) ((nat_beq_iff h x).0 here) (newer n p r at up rest e),
          omega arith,
        )
        | inr there ↦
            let (own, chain, short) =
              Chain-within x rest (ground (arith, there, subst (λ l. contains x l ≡ true) e c)) in
            (own, chain, omega (arith, ap length e))
      ]

  pub Chain-Distinct :
      {hash : BlockHash} {hashes : List BlockHash} → Chain nodes hash hashes → Distinct hashes
  Chain-Distinct {hash = h} (oldest n at top e) = subst Distinct (sym e) (refl, tt)
  Chain-Distinct {hash = h} (newer n p r at up rest e) =
      subst Distinct (sym e) (elim (Bool-cases (contains h r)) [
        | inl again ↦
            let (own, chain, short) = Chain-within h rest again in
            absurd (omega (arith, ap length (Chain-unique chain (newer n p r at up rest refl))))
        | inr once ↦ (once, Chain-Distinct rest)
      ])

  pub Chain-Within :
      {hash : BlockHash} {hashes : List BlockHash}
      → Chain nodes hash hashes
      → Within hashes (keys nodes)
  Chain-Within {hash = h} (oldest n at top e) x c =
      contains-keys x nodes
      ∙ ground (arith, at, subst (λ l. contains x l ≡ true) e c, nat_beq_iff h x)
  Chain-Within {hash = h} (newer n p r at up rest e) x c = elim (Bool-cases (contains x r)) [
    | inl later ↦ Chain-Within rest x later
    | inr first ↦
        contains-keys x nodes
        ∙ ground (arith, at, first, subst (λ l. contains x l ≡ true) e c, nat_beq_iff h x)
  ]

  -- A chain is no longer than the map has entries.
  pub length-Chain :
      {hash : BlockHash} {hashes : List BlockHash}
      → Chain nodes hash hashes
      → length hashes ≤ length nodes
  length-Chain {hashes = hs} c = omega (
    arith,
    length-le_of_Within hs (keys nodes) (Chain-Distinct c) (Chain-Within c),
    length-keys nodes,
  )

  walk-Chain :
      (fuel : ℕ) {hash : BlockHash} {hashes : List BlockHash}
      → Chain nodes hash hashes
      → length hashes ≤ fuel
      → connected_walk fuel nodes hash ≡ hashes
  unfolding connected_walk
  walk-Chain zero (oldest n at top e) h = absurd (omega (arith, ap length e))
  walk-Chain zero (newer n p r at up c e) h = absurd (omega (arith, ap length e))
  walk-Chain (suc fuel) (oldest n at top e) h = rw (at, connected_walk) (rw top (sym e))
  walk-Chain (suc fuel) {hash = hash} (newer n p r at up c e) h =
      rw (at, connected_walk)
        (rw up (ap (λ l. hash ∷ l) (walk-Chain fuel c (omega (arith, ap length e))) ∙ sym e))

-- From a connected block the walk returns all of its ancestors, oldest first, without a gap, and the rounds
-- it is given are enough.
pub connected_oldest_to_newest-Chain :
    (g : BlocksGraph) (target : BlockHash)
    → IsTree g
    → is_connected_node (lookup target g.nodes) ≡ true
    → Chain g.nodes target (reverse (connected_oldest_to_newest g target))
unfolding connected_oldest_to_newest
connected_oldest_to_newest-Chain g target t c =
    let (node, at) = connected_of_test (lookup target g.nodes) c in
    let (hashes, chain) = Chain-of_Anchored g.nodes (t.anchored target node at) in
    rw reverse-reverse (
      subst (Chain g.nodes target)
        (sym (walk-Chain g.nodes (length g.nodes) chain (length-Chain g.nodes chain))) chain)

-- None of the blocks to come was visited.
abbrev pub Apart : List BlockHash → List BlockHash → Type 0
Apart hashes visited = (x : BlockHash) → contains x hashes ≡ true → contains x visited ≡ false

pub Apart-next :
    (hash : BlockHash) (rest visited : List BlockHash)
    → Distinct (hash ∷ rest)
    → Apart (hash ∷ rest) visited
    → Apart rest (hash ∷ visited)
Apart-next hash rest visited d a x h = ground (arith, d, h, a x, nat_beq_iff hash x)
