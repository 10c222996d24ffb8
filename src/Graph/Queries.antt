-- ===== src/Graph/Queries.antt =====
-- core/crates/client-evm/src/kernel/blocks_graph.rs: what the graph still lacks (parents, logs, ranges of
-- logs), for the schedulers of the kernel. Block numbers are `u64`.
pub mod Parents
pub mod Holes
pub mod Ranges
use armchair_analyst.Prelude.{
  ℕ, nat_eq, ◌+◌, ◌%◌, ◌^◌, zero, suc, Bool, true, false, not, ◌&&◌, Option, none, some, List, [],
  ◌∷◌, ◌++◌, ◌==◌, leb, ltb, Map, SortedMap, values, lookup, contains_key, contains, if◌then◌else◌,
}
use armchair_analyst.Pools.Keys.{Address, BlockHash, Bloom, PoolRef, ProtocolPoolKey, pool_key_eq}
use armchair_analyst.Pools.Events.{PoolLog}
use armchair_analyst.Graph.Types.{
  BlockLogs, unknown, streamed, complete, BlockData, ConnectedNode, Node, connected, pending,
  BlocksGraph, connected_of,
}
use armchair_analyst.Graph.Walks.{present_chain_from_head, connected_oldest_to_newest}
use armchair_analyst.Graph.Fold.{BloomApi, bloom_patterns, bloom_may_touch, watched_addresses}
use armchair_analyst.Graph.Finality.{canonical_connected_target}

-- The parents that pending nodes await and the graph does not hold, in the order of the map.
unfoldable pub dangling : BlockHash → Map BlockHash Node → Map BlockHash Node → List BlockHash
dangling top nodes [] = []
dangling top nodes ((hash, connected node) ∷ rest) = dangling top nodes rest
dangling top nodes ((hash, pending node) ∷ rest) =
    if not (node.parent == top) && not (contains_key node.parent nodes)
    then node.parent ∷ dangling top nodes rest
    else dangling top nodes rest

-- `sort_unstable` on hashes, whose order is that of the numbers.
unfoldable pub insert_hash : BlockHash → List BlockHash → List BlockHash
insert_hash hash [] = hash ∷ []
insert_hash hash (x ∷ xs) = if leb hash x then hash ∷ x ∷ xs else x ∷ insert_hash hash xs

unfoldable pub sort_hashes : List BlockHash → List BlockHash
unfolding insert_hash
sort_hashes [] = []
sort_hashes (x ∷ xs) = insert_hash x (sort_hashes xs)

-- `dedup`: of neighbours that are equal the first stays.
unfoldable pub dedup_after : BlockHash → List BlockHash → List BlockHash
dedup_after last [] = []
dedup_after last (x ∷ xs) = if x == last then dedup_after last xs else x ∷ dedup_after x xs

unfoldable pub dedup : List BlockHash → List BlockHash
unfolding dedup_after
dedup [] = []
dedup (x ∷ xs) = x ∷ dedup_after x xs

unfoldable pub missing_parents : BlocksGraph → List BlockHash
unfolding dangling sort_hashes dedup
missing_parents g = dedup (sort_hashes (dangling g.anchor.hash g.nodes g.nodes))

abbrev pub is_unknown : BlockLogs → Bool
is_unknown unknown = true
is_unknown (streamed logs) = false
is_unknown (complete logs) = false

-- The filter of `unknown_log_hole_hashes` over the enumerated chain.
unfoldable pub holes_from :
    BloomApi → List Bloom → List BlockHash → ℕ → ℕ → List (BlockHash × BlockData) → List BlockHash
holes_from api trusted exclude min_depth depth [] = []
holes_from api trusted exclude min_depth depth ((hash, d) ∷ chain) =
    let rest = holes_from api trusted exclude min_depth (suc depth) chain in
    if leb min_depth depth
      && is_unknown d.logs
      && not (contains hash exclude)
      && bloom_may_touch api d.logs_bloom trusted
    then hash ∷ rest
    else rest

unfoldable pub unknown_log_hole_hashes :
    BloomApi → BlocksGraph → List Address → List BlockHash → ℕ → List BlockHash
unfolding holes_from bloom_patterns
unknown_log_hole_hashes api g trusted exclude min_depth =
    holes_from api (bloom_patterns api trusted) exclude min_depth 0 (present_chain_from_head g)

-- `collect` into a set.
abbrev pub pools_of : List PoolLog → List ProtocolPoolKey
pools_of [] = []
pools_of (log ∷ logs) =
    let rest = pools_of logs in if contains log.pool rest then rest else log.pool ∷ rest

abbrev pub candidates_of : BlockLogs → List ProtocolPoolKey
candidates_of unknown = []
candidates_of (streamed logs) = pools_of (values logs)
candidates_of (complete logs) = pools_of (values logs)

unfoldable pub candidates_from :
    List (BlockHash × BlockData) → List (BlockHash × List ProtocolPoolKey)
candidates_from [] = []
candidates_from ((hash, d) ∷ chain) = elim (candidates_of d.logs) [
  | [] ↦ candidates_from chain
  | pool ∷ pools ↦ (hash, pool ∷ pools) ∷ candidates_from chain
]

unfoldable pub pool_log_candidates_from_head : BlocksGraph → List (BlockHash × List ProtocolPoolKey)
unfolding candidates_from
pool_log_candidates_from_head g = candidates_from (present_chain_from_head g)

pub record MissingRange : Type 0 where
  pub from_number : ℕ
  pub to_number : ℕ
  pub hashes : List BlockHash

abbrev pub is_complete : BlockLogs → Bool
is_complete unknown = false
is_complete (streamed logs) = false
is_complete (complete logs) = true

unfoldable pub is_hole : BloomApi → List Bloom → List ℕ → BlockData → Bool
is_hole api watched exclude_numbers d =
    not (is_complete d.logs)
    && bloom_may_touch api d.logs_bloom watched
    && not (contains d.number exclude_numbers)

abbrev pub single_range : ℕ → BlockHash → MissingRange
single_range number hash = record { from_number = number; to_number = number; hashes = hash ∷ [] }

-- One hole extends the last range if it is adjacent, and else opens a range after it.
unfoldable pub add_hole : ℕ → BlockHash → List MissingRange → List MissingRange
add_hole number hash [] = single_range number hash ∷ []
add_hole number hash (last ∷ []) =
    if number == (last.to_number + 1) % 2 ^ 64
    then record last { to_number = number; hashes = last.hashes ++ hash ∷ [] } ∷ []
    else last ∷ single_range number hash ∷ []
add_hole number hash (range ∷ next ∷ ranges) = range ∷ add_hole number hash (next ∷ ranges)

unfoldable pub ranges_walk :
    BloomApi
    → List Bloom
    → List ℕ
    → Map BlockHash Node
    → List MissingRange
    → List BlockHash
    → List MissingRange
unfolding is_hole add_hole
ranges_walk api watched exclude_numbers nodes ranges [] = ranges
ranges_walk api watched exclude_numbers nodes ranges (hash ∷ hashes) =
    elim (connected_of (lookup hash nodes)) [
      | none ↦ ranges
      | some node ↦ elim (is_hole api watched exclude_numbers node.payload) [
        | true ↦
            ranges_walk api watched exclude_numbers nodes (add_hole node.payload.number hash ranges)
              hashes
        | false ↦ ranges_walk api watched exclude_numbers nodes ranges hashes
      ]
    ]

unfoldable pub missing_complete_ranges :
    BloomApi → BlocksGraph → BlockHash → List Bloom → List ℕ → List MissingRange
unfolding ranges_walk
missing_complete_ranges api g target watched exclude_numbers =
    ranges_walk api watched exclude_numbers g.nodes [] (connected_oldest_to_newest g target)

unfoldable pub missing_complete_ranges_to :
    BloomApi → BlocksGraph → BlockHash → List PoolRef → Option Address → List ℕ → List MissingRange
unfolding missing_complete_ranges canonical_connected_target
missing_complete_ranges_to api g target verified v4_manager exclude_numbers =
    elim (canonical_connected_target g target) [
      | none ↦ []
      | some target' ↦
          missing_complete_ranges api g target'
            (bloom_patterns api (watched_addresses verified v4_manager)) exclude_numbers
    ]
