-- ===== src/Bootstrap/Window.antt =====
-- core/crates/client-evm/src/bootstrap/mod.rs: the seed of the graph, inferred from the blocks that a ranged
-- scan for logs found. The hash of a filler block is a parameter, as it is computed by a library; numbers
-- are `u64`, and the successor of a number below another one does not overflow.
pub mod Linked
use armchair_analyst.Prelude.{
  ℕ, nat_eq, suc, ◌+◌, ◌-◌, Bool, Option, none, some, List, [], ◌∷◌, ◌++◌, ◌==◌, leb, ltb,
  SortedMap, lookup, insert_sorted, if◌then◌else◌,
}
use armchair_analyst.Pools.Keys.{BlockHash}
use armchair_analyst.Pools.Events.{PoolLog}
use armchair_analyst.Graph.Admission.{SeedBlock}

pub record RangeLogBlock : Type 0 where
  pub hash : BlockHash
  pub number : ℕ
  pub logs : List PoolLog

pub record FinalizedAnchor : Type 0 where
  pub hash : BlockHash
  pub number : ℕ

-- `entry(number).or_insert(block)`.
unfoldable pub or_insert : RangeLogBlock → SortedMap RangeLogBlock → SortedMap RangeLogBlock
unfolding lookup insert_sorted
or_insert block recent = elim (lookup block.number recent) [
  | none ↦ insert_sorted block.number block recent
  | some first ↦ recent
]

-- The blocks above the anchor by their number, the first of each.
unfoldable pub recent_above :
    ℕ → List RangeLogBlock → SortedMap RangeLogBlock → SortedMap RangeLogBlock
unfolding or_insert
recent_above anchor_number [] recent = recent
recent_above anchor_number (block ∷ window) recent =
    recent_above anchor_number window
      (if ltb anchor_number block.number then or_insert block recent else recent)

-- `keys().next_back()`.
unfoldable pub max_key : SortedMap RangeLogBlock → Option ℕ
max_key [] = none
max_key ((number, block) ∷ recent) = elim (max_key recent) [
  | none ↦ some number
  | some last ↦ some last
]

unfoldable pub retained_upto : ℕ → SortedMap RangeLogBlock → SortedMap RangeLogBlock
retained_upto highest [] = []
retained_upto highest ((number, block) ∷ recent) =
    if leb number highest
    then (number, block) ∷ retained_upto highest recent
    else retained_upto highest recent

module _ (filler_hash : BlockHash → BlockHash → BlockHash) where
  -- The walk over the retained blocks: each links to the one before, over a filler where there is a gap.
  unfoldable pub linked_blocks : BlockHash → ℕ → SortedMap RangeLogBlock → List SeedBlock
  linked_blocks previous_hash previous_number [] = []
  linked_blocks previous_hash previous_number ((number, block) ∷ retained) =
      let rest = linked_blocks block.hash number retained in
      let filler = filler_hash previous_hash block.hash in
      if number == previous_number + 1
      then (block.hash, previous_hash, number, block.logs) ∷ rest
      else (filler, previous_hash, number - 1, []) ∷ (block.hash, filler, number, block.logs) ∷ rest

  unfoldable pub from_window : List RangeLogBlock → FinalizedAnchor → ℕ → List SeedBlock
  unfolding recent_above max_key retained_upto linked_blocks
  from_window window anchor tip_trim =
      let recent = recent_above anchor.number window [] in
      elim (max_key recent) [
        | none ↦ []
        | some max_number ↦
            linked_blocks anchor.hash anchor.number (retained_upto (max_number - tip_trim) recent)
      ]
