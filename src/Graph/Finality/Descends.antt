-- ===== src/Graph/Finality/Descends.antt =====
-- core/crates/client-evm/src/kernel/blocks_graph.rs: `connected_descends_from` on the chain of a
-- block.
use armchair_analyst.Prelude.{
  ℕ, nat_eq, zero, suc, ◌<◌, ◌≡◌, ◌∙◌, ap, subst, sym, refl, true, false, some, List, [], ◌∷◌, ◌==◌,
  Map, lookup, contains, Distinct, length, arith, Bool-cases, inl, inr, nat_beq_iff,
}
use armchair_analyst.Pools.Keys.{BlockHash}
use armchair_analyst.Graph.Types.{ConnectedNode, Node, connected, anchor, block}
use armchair_analyst.Graph.Walks.Chain.{
  Apart, Apart-next, Chain, oldest, newer, Chain-Distinct, length-Chain,
}
use armchair_analyst.Graph.Finality.{descends_walk, connected_descends_from}

module _ (nodes : Map BlockHash Node) (ancestor : BlockHash) where
  descends_here :
      (fuel : ℕ) (current : BlockHash) (visited : List BlockHash)
      → (current == ancestor) ≡ true
      → descends_walk (suc fuel) nodes ancestor current visited ≡ some true
  unfolding descends_walk
  descends_here fuel current visited here = rw (here, descends_walk) refl

  descends_up :
      (fuel : ℕ) (current : BlockHash) (visited : List BlockHash) (n : ConnectedNode)
      → (current == ancestor) ≡ false
      → contains current visited ≡ false
      → lookup current nodes ≡ some (connected n)
      → descends_walk (suc fuel) nodes ancestor current visited ≡ elim n.parent [
        | anchor ↦ some false
        | block parent ↦ descends_walk fuel nodes ancestor parent (current ∷ visited)
      ]
  unfolding descends_walk
  descends_up fuel current visited n there new at =
      rw (there, descends_walk) (rw (new, descends_walk) (rw (at, descends_walk) refl))

  walk-descends :
      (fuel : ℕ) {current : BlockHash} {hashes : List BlockHash} (visited : List BlockHash)
      → Chain nodes current hashes
      → Apart hashes visited
      → length hashes < fuel
      → descends_walk fuel nodes ancestor current visited ≡ some (contains ancestor hashes)
  walk-descends zero visited c a h = absurd (omega arith)
  walk-descends (suc fuel) {current = x} visited (oldest n at top e) a h =
      elim (Bool-cases (x == ancestor)) [
        | inl here ↦ descends_here fuel x visited here ∙ ap some (rw e (ground (arith, here)))
        | inr there ↦
            descends_up fuel x visited n there
              (a x (subst (λ l. contains x l ≡ true) (sym e) (ground (arith, nat_beq_iff x x)))) at
            ∙ rw top (ap some (rw e (ground (arith, there))))
      ]
  walk-descends (suc fuel) {current = x} visited (newer n p r at up c e) a h =
      elim (Bool-cases (x == ancestor)) [
        | inl here ↦ descends_here fuel x visited here ∙ ap some (rw e (ground (arith, here)))
        | inr there ↦
            descends_up fuel x visited n there
              (a x (subst (λ l. contains x l ≡ true) (sym e) (ground (arith, nat_beq_iff x x)))) at
            ∙ rw up (
                walk-descends fuel (x ∷ visited) c
                  (Apart-next x r visited
                    (subst Distinct e (Chain-Distinct nodes (newer n p r at up c e)))
                    (subst (λ l. Apart l visited) e a))
                  (omega (arith, ap length e))
                ∙ ap some (rw e (ground (arith, there))))
      ]

-- A connected block descends from exactly the blocks of its own chain, itself included.
pub descends-Chain :
    (nodes : Map BlockHash Node) (ancestor : BlockHash) {hash : BlockHash} {hashes : List BlockHash}
    → Chain nodes hash hashes
    → connected_descends_from nodes hash ancestor ≡ contains ancestor hashes
unfolding connected_descends_from
descends-Chain nodes ancestor {hash} c =
    rw
      (
        walk-descends nodes ancestor (suc (suc (length nodes))) [] c (λ x h. refl)
            (omega (arith, length-Chain nodes c)),
        connected_descends_from,
      )
      refl
