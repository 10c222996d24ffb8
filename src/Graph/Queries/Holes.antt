-- ===== src/Graph/Queries/Holes.antt =====
-- core/crates/client-evm/src/kernel/blocks_graph.rs: `unknown_log_hole_hashes`, the blocks to fetch
-- logs for.
use armchair_analyst.Prelude.{
  ℕ, nat_eq, zero, suc, ◌≡◌, refl, sym, subst, Bool, true, false, not, ◌&&◌, Option, none, some,
  List, [], ◌∷◌, ◌++◌, ◌==◌, leb, Map, lookup, contains, arith, Bool-cases, Option-cases, inl, inr,
  nat_beq_iff,
}
use armchair_analyst.Pools.Keys.{Address, BlockHash, Bloom}
use armchair_analyst.Pools.Events.{PoolLog}
use armchair_analyst.Graph.Types.{
  complete, BlockData, Node, BlocksGraph, node_payload, key_by_log_index,
}
use armchair_analyst.Graph.Logs.{merge_streamed, with_streamed_logs, with_complete_logs}
use armchair_analyst.Graph.Logs.Ladder.{lookup-update_block_data}
use armchair_analyst.Graph.Walks.{present_walk, walk_fuel, present_chain_from_head}
use armchair_analyst.Graph.Fold.{BloomApi, bloom_patterns, bloom_may_touch}
use armchair_analyst.Graph.Queries.{is_unknown, holes_from, unknown_log_hole_hashes}

-- Every entry is a block of the graph with the payload it has there.
abbrev AllPresent : Map BlockHash Node → List (BlockHash × BlockData) → Type 0
AllPresent nodes [] = Unit {0}
AllPresent nodes ((hash, d) ∷ chain) =
    ((node : Node) × (lookup hash nodes ≡ some node) × (node_payload node ≡ d))
    × AllPresent nodes chain

AllPresent-append :
    (nodes : Map BlockHash Node) (xs ys : List (BlockHash × BlockData))
    → AllPresent nodes xs
    → AllPresent nodes ys
    → AllPresent nodes (xs ++ ys)
AllPresent-append nodes [] ys a b = b
AllPresent-append nodes ((hash, d) ∷ xs) ys a b = (a.0, AllPresent-append nodes xs ys a.1 b)

-- An optional chain of present blocks.
abbrev OptionPresent : Map BlockHash Node → Option (List (BlockHash × BlockData)) → Type 0
OptionPresent nodes none = Unit {0}
OptionPresent nodes (some chain) = AllPresent nodes chain

present_walk-AllPresent :
    (g : BlocksGraph) (fuel : ℕ) (current : BlockHash) (visited : List BlockHash)
    (chain : List (BlockHash × BlockData))
    → AllPresent g.nodes chain
    → OptionPresent g.nodes (present_walk fuel g current visited chain)
unfolding present_walk
present_walk-AllPresent g zero current visited chain a = tt
present_walk-AllPresent g (suc fuel) current visited chain a =
    elim (Bool-cases (current == g.anchor.hash)) [
      | inl top ↦ rw (top, present_walk) a
      | inr below ↦ elim (Bool-cases (contains current visited)) [
        | inl again ↦ rw (below, present_walk) (rw (again, present_walk) tt)
        | inr new ↦ elim (Option-cases (lookup current g.nodes)) [
          | inl absent ↦
              rw (below, present_walk) (rw (new, present_walk) (rw (absent, present_walk) a))
          | inr (node, found) ↦
              rw (below, present_walk)
                (rw (new, present_walk)
                  (rw (found, present_walk)
                    (present_walk-AllPresent g fuel _ (current ∷ visited)
                      (chain ++ (current, node_payload node) ∷ [])
                      (AllPresent-append g.nodes chain ((current, node_payload node) ∷ []) a
                        ((node, found, refl), tt)))))
        ]
      ]
    ]

present_chain-AllPresent : (g : BlocksGraph) → AllPresent g.nodes (present_chain_from_head g)
unfolding present_chain_from_head
present_chain-AllPresent g =
    from (present_walk (walk_fuel g) g g.observed_head [] [])
      (present_walk-AllPresent g (walk_fuel g) g.observed_head [] [] tt)
  where
    from :
        (o : Option (List (BlockHash × BlockData)))
        → OptionPresent g.nodes o
        → AllPresent g.nodes
            (elim o as (λ _. List (BlockHash × BlockData)) [ none ↦ [] | some chain ↦ chain ])
    from none a = tt
    from (some chain) a = a

-- A block of the graph whose logs are unknown, not excluded, and whose bloom may touch a trusted address.
pub record Wanted (api : BloomApi) (trusted : List Bloom) (nodes : Map BlockHash Node)
    (exclude : List BlockHash) (hash : BlockHash) : Type 0 where
  pub node : Node
  pub found : lookup hash nodes ≡ some node
  pub lacks : is_unknown (node_payload node).logs ≡ true
  pub free : contains hash exclude ≡ false
  pub touches : bloom_may_touch api (node_payload node).logs_bloom trusted ≡ true

module _ (api : BloomApi) (trusted : List Bloom) (nodes : Map BlockHash Node)
    (exclude : List BlockHash) where
  holes_from-Wanted :
      (hash : BlockHash) (min_depth depth : ℕ) (chain : List (BlockHash × BlockData))
      → AllPresent nodes chain
      → contains hash (holes_from api trusted exclude min_depth depth chain) ≡ true
      → Wanted api trusted nodes exclude hash
  unfolding holes_from
  holes_from-Wanted hash min_depth depth [] a h = absurd (cc)
  holes_from-Wanted hash min_depth depth ((x, d) ∷ chain) a h =
      elim (Bool-cases (
        x == hash
        && leb min_depth depth
        && is_unknown d.logs
        && not (contains x exclude)
        && bloom_may_touch api d.logs_bloom trusted)) [
          | inr other ↦
              holes_from-Wanted hash min_depth (suc depth) chain a.1 (ground (arith, h, other))
          | inl wanted ↦
              let (node, found, same) = a.0 in
              let here : x ≡ hash = (nat_beq_iff x hash).0 (ground (arith, wanted)) in
              record {
                node = node;
                found = subst (λ y. lookup y nodes ≡ some node) here found;
                lacks =
                    subst (λ (p : BlockData). is_unknown p.logs ≡ true) (sym same)
                      (ground (arith, wanted));
                free = subst (λ y. contains y exclude ≡ false) here (ground (arith, wanted));
                touches =
                    subst (λ (p : BlockData). bloom_may_touch api p.logs_bloom trusted ≡ true)
                      (sym same) (ground (arith, wanted));
              }
        ]

-- Every hash that is listed for a fetch is a block of the graph with unknown logs and a bloom that may
-- touch a trusted address, for which no fetch is in flight.
pub unknown_log_hole_hashes-Wanted :
    (api : BloomApi) (g : BlocksGraph) (trusted : List Address) (exclude : List BlockHash)
    (min_depth : ℕ) (hash : BlockHash)
    → contains hash (unknown_log_hole_hashes api g trusted exclude min_depth) ≡ true
    → Wanted api (bloom_patterns api trusted) g.nodes exclude hash
unfolding unknown_log_hole_hashes
unknown_log_hole_hashes-Wanted api g trusted exclude min_depth hash h =
    holes_from-Wanted api (bloom_patterns api trusted) g.nodes exclude hash min_depth 0
      (present_chain_from_head g) (present_chain-AllPresent g) h

-- Once its logs were streamed or fetched, a block is listed no more, whatever is trusted or in flight.
pub unknown_log_hole_hashes_served :
    (api : BloomApi) (g : BlocksGraph) (trusted : List Address) (exclude : List BlockHash)
    (min_depth : ℕ) (hash : BlockHash) (logs : List PoolLog)
    → (contains hash
          (unknown_log_hole_hashes api (with_streamed_logs g hash logs) trusted exclude min_depth)
        ≡ false)
      × (contains hash (
            unknown_log_hole_hashes api
              (with_complete_logs g hash logs).0
              trusted
              exclude
              min_depth)
          ≡ false)
unfolding with_streamed_logs with_complete_logs merge_streamed
unknown_log_hole_hashes_served api g trusted exclude min_depth hash logs = (
  never _ (λ h.
      let w =
        unknown_log_hole_hashes-Wanted api (with_streamed_logs g hash logs) trusted exclude
          min_depth hash h in
      ground (
        arith,
        w.found,
        w.lacks,
        nat_beq_iff hash hash,
        lookup-update_block_data g hash (λ d. record d { logs = merge_streamed logs d.logs }) hash,
      )),
  never _ (λ h.
      let w =
        unknown_log_hole_hashes-Wanted api (with_complete_logs g hash logs).0 trusted exclude
          min_depth hash h in
      ground (
        arith,
        w.found,
        w.lacks,
        nat_beq_iff hash hash,
        lookup-update_block_data g hash (λ d. record d { logs = complete (key_by_log_index logs) })
            hash,
      )),
)
  where
    never : (b : Bool) → (b ≡ true → ⊥) → b ≡ false
    never true f = absurd (f refl)
    never false f = refl
