-- ===== src/Graph/Logs/Streams.antt =====
-- core/crates/client-evm/src/kernel/blocks_graph.rs: deliveries of streamed logs; several providers
-- send the same logs, in any order.
use armchair_analyst.Prelude.{
  ℕ, nat_eq, ◌≡◌, ◌∙◌, ap, inl, inr, refl, Option, none, some, List, [], SortedMap, lookup, insert,
  lookup-insert, insert-insert, extend_sorted, lookup-extend_sorted, last_of, last_of-lookup,
  lookup_of_entries, IsSorted, extend_sorted-IsSorted, sorted_ext, arith, Option-cases, nat_beq_iff,
  sym,
}
use armchair_analyst.Pools.Keys.{BlockHash}
use armchair_analyst.Pools.Events.{PoolLog}
use armchair_analyst.Graph.Types.{
  BlockLogs, unknown, streamed, complete, BlockData, Node, connected, pending, BlocksGraph,
  node_payload, indexed, key_by_log_index,
}
use armchair_analyst.Graph.Logs.{
  with_payload, update_nodes, update_block_data, merge_streamed, with_streamed_logs,
}

abbrev pub SortedLogs : BlockLogs → Type 0
SortedLogs unknown = Unit {0}
SortedLogs (streamed m) = IsSorted m
SortedLogs (complete m) = IsSorted m

-- No index carries two different logs.
abbrev pub Agree : List PoolLog → List PoolLog → Type 0
Agree xs ys =
    (i : ℕ) (a b : PoolLog)
    → last_of i (indexed xs) ≡ some a
    → last_of i (indexed ys) ≡ some b
    → a ≡ b

pub key_by_log_index-IsSorted : (logs : List PoolLog) → IsSorted (key_by_log_index logs)
unfolding key_by_log_index
key_by_log_index-IsSorted logs = extend_sorted-IsSorted (indexed logs) [] tt

pub lookup-key_by_log_index :
    (i : ℕ) (logs : List PoolLog) → lookup i (key_by_log_index logs) ≡ last_of i (indexed logs)
unfolding key_by_log_index
lookup-key_by_log_index i logs = lookup_of_entries i (indexed logs)

lookup-merge :
    (i : ℕ) (logs : List PoolLog) (m : SortedMap PoolLog)
    → lookup i (extend_sorted m (key_by_log_index logs))
      ≡ elim (last_of i (indexed logs)) [ some v ↦ some v | none ↦ lookup i m ]
lookup-merge i logs m = ground (
  arith,
  lookup-extend_sorted i (key_by_log_index logs) m,
  last_of-lookup i (key_by_log_index logs) (key_by_log_index-IsSorted logs),
  lookup-key_by_log_index i logs,
)

merge-swap :
    (xs ys : List PoolLog) (m : SortedMap PoolLog)
    → Agree xs ys
    → IsSorted m
    → extend_sorted (extend_sorted m (key_by_log_index xs)) (key_by_log_index ys)
      ≡ extend_sorted (extend_sorted m (key_by_log_index ys)) (key_by_log_index xs)
merge-swap xs ys m agree s =
    let x = key_by_log_index xs in
    let y = key_by_log_index ys in
    sorted_ext (extend_sorted (extend_sorted m x) y) (extend_sorted (extend_sorted m y) x)
      (extend_sorted-IsSorted y _ (extend_sorted-IsSorted x m s))
      (extend_sorted-IsSorted x _ (extend_sorted-IsSorted y m s))
      λ i. look i (last_of i (indexed xs)) (last_of i (indexed ys)) refl refl
  where
    look :
        (i : ℕ) (a b : Option PoolLog)
        → last_of i (indexed xs) ≡ a
        → last_of i (indexed ys) ≡ b
        → lookup i (extend_sorted (extend_sorted m (key_by_log_index xs)) (key_by_log_index ys))
          ≡ lookup i (extend_sorted (extend_sorted m (key_by_log_index ys)) (key_by_log_index xs))
    look i none b p q = ground (
      arith,
      p,
      q,
      lookup-merge i ys (extend_sorted m (key_by_log_index xs)),
      lookup-merge i xs m,
      lookup-merge i xs (extend_sorted m (key_by_log_index ys)),
      lookup-merge i ys m,
    )
    look i (some a) none p q = ground (
      arith,
      p,
      q,
      lookup-merge i ys (extend_sorted m (key_by_log_index xs)),
      lookup-merge i xs m,
      lookup-merge i xs (extend_sorted m (key_by_log_index ys)),
      lookup-merge i ys m,
    )
    look i (some a) (some b) p q = ground (
      arith,
      p,
      q,
      agree i a b p q,
      lookup-merge i ys (extend_sorted m (key_by_log_index xs)),
      lookup-merge i xs m,
      lookup-merge i xs (extend_sorted m (key_by_log_index ys)),
      lookup-merge i ys m,
    )

extend_sorted-nil : (m : SortedMap PoolLog) → IsSorted m → extend_sorted [] m ≡ m
extend_sorted-nil m s =
    sorted_ext (extend_sorted [] m) m (extend_sorted-IsSorted m [] tt) s
      λ i. lookup_of_entries i m ∙ last_of-lookup i m s

key_by_log_index-swap :
    (xs ys : List PoolLog)
    → Agree xs ys
    → extend_sorted (key_by_log_index xs) (key_by_log_index ys)
      ≡ extend_sorted (key_by_log_index ys) (key_by_log_index xs)
key_by_log_index-swap xs ys agree =
    let x = extend_sorted-nil (key_by_log_index xs) (key_by_log_index-IsSorted xs) in
    let y = extend_sorted-nil (key_by_log_index ys) (key_by_log_index-IsSorted ys) in
    ap (λ m. extend_sorted m (key_by_log_index ys)) (sym x)
    ∙ merge-swap xs ys [] agree tt
    ∙ ap (λ m. extend_sorted m (key_by_log_index xs)) y

merge_streamed-swap :
    (xs ys : List PoolLog) (logs : BlockLogs)
    → Agree xs ys
    → SortedLogs logs
    → merge_streamed ys (merge_streamed xs logs) ≡ merge_streamed xs (merge_streamed ys logs)
unfolding merge_streamed
merge_streamed-swap xs ys unknown agree s = ap streamed (key_by_log_index-swap xs ys agree)
merge_streamed-swap xs ys (streamed m) agree s = ap streamed (merge-swap xs ys m agree s)
merge_streamed-swap xs ys (complete m) agree s = refl

module _ (hash : BlockHash) (f e : BlockData → BlockData) where
  with_payload-twice :
      (node : Node)
      → with_payload
          (with_payload node (e (node_payload node)))
          (f (node_payload (with_payload node (e (node_payload node)))))
        ≡ with_payload node (f (e (node_payload node)))
  with_payload-twice (connected n) = refl
  with_payload-twice (pending n) = refl

  -- Two changes of one block's payload are one change.
  update_block_data-twice :
      (g : BlocksGraph)
      → update_block_data (update_block_data g hash e) hash f
        ≡ update_block_data g hash (λ d. f (e d))
  unfolding update_block_data
  update_block_data-twice g =
      ap (λ ns. record g { nodes = ns })
        (elim (Option-cases (lookup hash g.nodes)) [
          | inl absent ↦
              ap (update_nodes hash f) (gone absent e)
              ∙ gone absent f
              ∙ sym (gone absent (λ d. f (e d)))
          | inr (node, found) ↦ present node found
        ])
    where
      gone :
          lookup hash g.nodes ≡ none
          → (change : BlockData → BlockData) → update_nodes hash change g.nodes ≡ g.nodes
      gone absent change = rw (absent, update_nodes) refl

      present :
          (node : Node)
          → lookup hash g.nodes ≡ some node
          → update_nodes hash f (update_nodes hash e g.nodes)
            ≡ update_nodes hash (λ d. f (e d)) g.nodes
      present node found =
          let new = with_payload node (e (node_payload node)) in
          let inner : update_nodes hash e g.nodes ≡ insert hash new g.nodes =
            rw (found, update_nodes) refl in
          let at : lookup hash (insert hash new g.nodes) ≡ some new =
            ground (arith, lookup-insert hash hash new g.nodes, nat_beq_iff hash hash) in
          ap (update_nodes hash f) inner
          ∙ rw (at, update_nodes)
              (rw (found, update_nodes)
                (insert-insert hash _ new g.nodes
                  ∙ ap (λ n. insert hash n g.nodes) (with_payload-twice node)))

update_block_data-cong :
    (g : BlocksGraph) (hash : BlockHash) (f e : BlockData → BlockData)
    → ((node : Node)
        → lookup hash g.nodes ≡ some node
        → f (node_payload node) ≡ e (node_payload node))
    → update_block_data g hash f ≡ update_block_data g hash e
unfolding update_block_data
update_block_data-cong g hash f e same =
    ap (λ ns. record g { nodes = ns })
      (elim (Option-cases (lookup hash g.nodes)) [
        | inl absent ↦ rw (absent, update_nodes) refl
        | inr (node, found) ↦
            rw (found, update_nodes)
              (ap (λ d. insert hash (with_payload node d) g.nodes) (same node found))
      ])

-- Deliveries of streamed logs for one block can come in either order, if no index names two different
-- logs: the graph is the same.
pub with_streamed_logs-swap :
    (g : BlocksGraph) (hash : BlockHash) (xs ys : List PoolLog)
    → Agree xs ys
    → ((node : Node) → lookup hash g.nodes ≡ some node → SortedLogs (node_payload node).logs)
    → with_streamed_logs (with_streamed_logs g hash xs) hash ys
      ≡ with_streamed_logs (with_streamed_logs g hash ys) hash xs
unfolding with_streamed_logs
with_streamed_logs-swap g hash xs ys agree sorted =
    let merge =
      λ (logs : List PoolLog) (d : BlockData). record d { logs = merge_streamed logs d.logs } in
    update_block_data-twice hash (merge ys) (merge xs) g
    ∙ update_block_data-cong g hash (λ d. merge ys (merge xs d)) (λ d. merge xs (merge ys d))
        (λ node found.
          ap (λ l. record (node_payload node) { logs = l })
            (merge_streamed-swap xs ys (node_payload node).logs agree (sorted node found)))
    ∙ sym (update_block_data-twice hash (merge xs) (merge ys) g)
