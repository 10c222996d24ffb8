-- ===== src/Kernel/Commute.antt =====
-- core/crates/client-evm/src/kernel/mod.rs: a block and its streamed logs, observed in either order.
use mathlib.Core.Path.{ap₂}
use armchair_analyst.Prelude.{
  ℕ, nat_eq, ◌≡◌, ◌∙◌, ap, refl, sym, ◌<◌, false, none, some, inl, inr, List, [], ◌∷◌, SortedMap,
  lookup, insert, remove, lookup-insert, remove-absent, length, values, insert_sorted,
  extend_sorted, IsSorted, sorted_ext, last_of-lookup, lookup_of_entries, extend_sorted-IsSorted,
  if◌then◌else◌, arith, Bool-cases, nat_beq_iff,
}
use armchair_analyst.Pools.Keys.{BlockHash, Bloom}
use armchair_analyst.Pools.Events.{PoolLog}
use armchair_analyst.Graph.Types.{
  BlocksGraph, BlockLogs, unknown, streamed, complete, contains_block, indexed, key_by_log_index,
}
use armchair_analyst.Graph.Admission.{with_block_capped}
use armchair_analyst.Graph.Logs.{update_block_data, merge_streamed, with_streamed_logs}
use armchair_analyst.Kernel.{
  Staged, State, max_streamed_log_blocks, with_streamed_logs_buffered, map_graph, with_log_streamed,
  with_streamed_logs_drained, head_after, with_log_head_observed, log_observed,
}

extend-IsSorted : (m : SortedMap PoolLog) → IsSorted m → extend_sorted [] m ≡ m
extend-IsSorted m s =
    sorted_ext (extend_sorted [] m) m (extend_sorted-IsSorted m [] tt) s
      (λ i. lookup_of_entries i m ∙ last_of-lookup i m s)

-- Every log stands under its own index.
abbrev Keyed : SortedMap PoolLog → Type 0
Keyed [] = Unit {0}
Keyed ((i, log) ∷ m) = (log.log_index ≡ i) × Keyed m

insert_sorted-Keyed :
    (i : ℕ) (log : PoolLog) (m : SortedMap PoolLog)
    → log.log_index ≡ i
    → Keyed m
    → Keyed (insert_sorted i log m)
unfolding insert_sorted
insert_sorted-Keyed i log [] e k = (e, tt)
insert_sorted-Keyed i log ((j, other) ∷ m) e k =
    ground (arith, e, k, insert_sorted-Keyed i log m e k.1)

extend_sorted-Keyed :
    (logs : List PoolLog) (m : SortedMap PoolLog) → Keyed m → Keyed (extend_sorted m (indexed logs))
unfolding extend_sorted
extend_sorted-Keyed [] m k = k
extend_sorted-Keyed (log ∷ logs) m k =
    extend_sorted-Keyed logs (insert_sorted log.log_index log m)
      (insert_sorted-Keyed log.log_index log m refl k)

indexed-values : (m : SortedMap PoolLog) → Keyed m → indexed (values m) ≡ m
indexed-values [] k = refl
indexed-values ((i, log) ∷ m) k = ap₂ (λ j rest. (j, log) ∷ rest) k.0 (indexed-values m k.1)

-- To key logs, read them in order and key them again changes nothing.
key_by_log_index_again :
    (logs : List PoolLog)
    → key_by_log_index (values (extend_sorted [] (key_by_log_index logs))) ≡ key_by_log_index logs
unfolding key_by_log_index
key_by_log_index_again logs =
    let m = extend_sorted [] (indexed logs) in
    let s : IsSorted m = extend_sorted-IsSorted (indexed logs) [] tt in
    ap (λ n. extend_sorted [] (indexed (values n))) (extend-IsSorted m s)
    ∙ ap (extend_sorted []) (indexed-values m (extend_sorted-Keyed logs [] tt))
    ∙ extend-IsSorted m s

with_streamed_logs_again :
    (g : BlocksGraph) (hash : BlockHash) (logs : List PoolLog)
    → with_streamed_logs g hash (values (extend_sorted [] (key_by_log_index logs)))
      ≡ with_streamed_logs g hash logs
unfolding with_streamed_logs merge_streamed
with_streamed_logs_again g hash logs =
    ap
      (λ m. update_block_data g hash (λ d. record d {
        logs = elim d.logs as (λ _. BlockLogs) [
          | complete existing ↦ complete existing
          | streamed existing ↦ streamed (extend_sorted existing m)
          | unknown ↦ streamed m
        ];
      }))
      (key_by_log_index_again logs)

remove-insert_fresh :
    (hash : BlockHash) (m : SortedMap PoolLog) (staged : Staged)
    → lookup hash staged ≡ none
    → remove hash (insert hash m staged) ≡ staged
unfolding remove insert lookup
remove-insert_fresh hash m [] h = ground (arith, nat_beq_iff hash hash)
remove-insert_fresh hash m ((j, n) ∷ staged) h =
    ground (arith, h, remove-insert_fresh hash m staged, remove-absent hash staged)

module _ (s : State) (hash : BlockHash) (logs : List PoolLog)
    (absent : contains_block s.blocks.graph hash ≡ false)
    (fresh : lookup hash s.streamed_logs ≡ none)
    (room : length s.streamed_logs < max_streamed_log_blocks) where
  abbrev entered : Staged
  entered = insert hash (extend_sorted [] (key_by_log_index logs)) s.streamed_logs

  buffered : with_streamed_logs_buffered s hash logs ≡ record s { streamed_logs = entered }
  unfolding with_streamed_logs_buffered
  buffered = ground (arith, fresh, room)

  -- The state with another graph, its logs staged or not.
  abbrev staged_on : BlocksGraph → State
  staged_on g = map_graph (λ _. g) (record s { streamed_logs = entered })

  abbrev plain_on : BlocksGraph → State
  plain_on g = map_graph (λ _. g) s

  drained_plain : (g : BlocksGraph) → with_streamed_logs_drained (plain_on g) hash ≡ plain_on g
  unfolding with_streamed_logs_drained map_graph
  drained_plain g = elim (Bool-cases (contains_block g hash)) [
    | inl there ↦
        rw (there, with_streamed_logs_drained) (rw (fresh, with_streamed_logs_drained) refl)
    | inr gone ↦ rw (gone, with_streamed_logs_drained) refl
  ]

  staged_logs : lookup hash entered ≡ some (extend_sorted [] (key_by_log_index logs))
  staged_logs =
      lookup-insert hash hash (extend_sorted [] (key_by_log_index logs)) s.streamed_logs
      ∙ ground (arith, nat_beq_iff hash hash)

  drained_staged :
      (g : BlocksGraph)
      → with_streamed_logs_drained (staged_on g) hash
        ≡ (if contains_block g hash then with_log_streamed (plain_on g) hash logs else staged_on g)
  unfolding with_streamed_logs_drained map_graph with_log_streamed
  drained_staged g = elim (Bool-cases (contains_block g hash)) [
    | inr gone ↦ rw (gone, with_streamed_logs_drained) refl
    | inl there ↦
        rw (there, with_streamed_logs_drained)
          (rw (staged_logs, with_streamed_logs_drained)
            (ap₂
              (λ staged h. record s {
                streamed_logs = staged;
                blocks = record { graph = h; finalized_snapshot = s.blocks.finalized_snapshot };
              })
              (remove-insert_fresh hash (extend_sorted [] (key_by_log_index logs)) s.streamed_logs
                fresh)
              (with_streamed_logs_again g hash logs)))
  ]

  observed_plain :
      (g : BlocksGraph)
      → log_observed (plain_on g) hash logs
        ≡ (if contains_block g hash then with_log_streamed (plain_on g) hash logs else staged_on g)
  unfolding log_observed with_streamed_logs_buffered map_graph with_log_streamed
  observed_plain g = ground (arith, fresh, room)

  observed_first : log_observed s hash logs ≡ record s { streamed_logs = entered }
  unfolding log_observed
  observed_first = rw (absent, log_observed) buffered

  -- A block observed before or after its logs: the state is the same, and so is the verdict on the block,
  -- whether it is admitted or refused, if it was not in the graph, nothing was staged for it and the
  -- staging area has room.
  pub log_head_observed_commute :
      (parent : BlockHash) (number : ℕ) (bloom : Bloom) (max_pending : ℕ)
      → let before =
          with_log_head_observed (log_observed s hash logs) hash parent number bloom max_pending in
        let after = with_log_head_observed s hash parent number bloom max_pending in
        (before.0 ≡ log_observed after.0 hash logs) × (before.1 ≡ after.1)
  unfolding with_log_head_observed
  log_head_observed_commute parent number bloom max_pending =
      let r = with_block_capped s.blocks.graph hash parent number bloom max_pending in
      let g = head_after r.1 hash r.0 in
      let staged_first =
        ap (λ t. with_log_head_observed t hash parent number bloom max_pending) observed_first in
      (
        ap (λ q. q.0) staged_first
            ∙ drained_staged g
            ∙ sym (ap (λ t. log_observed t hash logs) (drained_plain g) ∙ observed_plain g),
        ap (λ q. q.1) staged_first,
      )
