-- ===== src/Multi/Keyed.antt =====
-- core/crates/client-evm/src/multi_chain_kernel.rs: the map of the chains.
use armchair_analyst.Prelude.{
  ◌≡◌, refl, subst, false, some, inl, inr, [], ◌∷◌, ◌==◌, ltb, Map, lookup, remove, arith,
  Bool-cases, if◌then◌else◌, eq_of_some,
}
use armchair_analyst.Pools.Keys.{ChainKey, chain_eq, chain_beq_iff, chain_index}
use armchair_analyst.Multi.{insert_chain}

module _ {V : Type 0} where
  pub lookup-insert_chain :
      (i k : ChainKey) (v : V) (m : Map ChainKey V)
      → lookup i (insert_chain k v m) ≡ (if k == i then some v else lookup i m)
  unfolding insert_chain lookup
  lookup-insert_chain i k v [] = refl
  lookup-insert_chain i k v ((j, w) ∷ m) = elim (Bool-cases (ltb (chain_index k) (chain_index j))) [
    | inl below ↦ rw below refl
    | inr above ↦ elim (Bool-cases (k == j)) [
      | inl same ↦
          rw (above, same)
            (elim (Bool-cases (k == i)) [
              | inl here ↦ rw here refl
              | inr there ↦
                  let j_there : (j == i) ≡ false =
                    subst (λ x. (x == i) ≡ false) ((chain_beq_iff k j).0 same) there in
                  rw (there, j_there) refl
            ])
      | inr other ↦
          rw (above, other)
            (elim (Bool-cases (j == i)) [
              | inl here ↦
                  let k_there : (k == i) ≡ false =
                    subst (λ x. (k == x) ≡ false) ((chain_beq_iff j i).0 here) other in
                  rw (here, k_there) refl
              | inr there ↦ rw there (lookup-insert_chain i k v m)
            ])
    ]
  ]

  -- Each entry satisfies a predicate.
  abbrev pub All : (ChainKey → V → Type 0) → Map ChainKey V → Type 0
  All Q [] = Unit {0}
  All Q ((k, v) ∷ m) = Q k v × All Q m

module _ {V : Type 0} (Q : ChainKey → V → Type 0) where
  pub remove-All : (k : ChainKey) (m : Map ChainKey V) → All Q m → All Q (remove k m)
  unfolding remove
  remove-All k [] h = tt
  remove-All k ((j, w) ∷ m) (h, hs) = elim (Bool-cases (j == k)) [
    | inl same ↦ rw same (remove-All k m hs)
    | inr other ↦ rw other (h, remove-All k m hs)
  ]

  pub insert_chain-All :
      (k : ChainKey) (v : V) (m : Map ChainKey V) → Q k v → All Q m → All Q (insert_chain k v m)
  unfolding insert_chain
  insert_chain-All k v [] q h = (q, tt)
  insert_chain-All k v ((j, w) ∷ m) q (h, hs) =
      elim (Bool-cases (ltb (chain_index k) (chain_index j))) [
        | inl below ↦ rw below (q, (h, hs))
        | inr above ↦ elim (Bool-cases (k == j)) [
          | inl same ↦ rw (above, same) (q, hs)
          | inr other ↦ rw (above, other) (h, insert_chain-All k v m q hs)
        ]
      ]

  pub All-lookup :
      (k : ChainKey) (v : V) (m : Map ChainKey V) → All Q m → lookup k m ≡ some v → Q k v
  unfolding lookup
  All-lookup k v [] h found = absurd (ground (arith, found))
  All-lookup k v ((j, w) ∷ m) (h, hs) found = elim (Bool-cases (j == k)) [
    | inl same ↦
        let here : w ≡ v = eq_of_some (rw same at found) in
        subst (λ x. Q x v) ((chain_beq_iff j k).0 same) (subst (λ x. Q j x) here h)
    | inr other ↦ All-lookup k v m hs (rw other at found)
  ]
