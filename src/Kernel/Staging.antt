-- ===== src/Kernel/Staging.antt =====
-- core/crates/client-evm/src/kernel/mod.rs: the staging area of early logs, and the graph.
use armchair_analyst.Prelude.{
  ℕ, nat_eq, ◌≡◌, ◌∙◌, ap, subst, true, false, not, ◌&&◌, some, inl, inr, List, ◌==◌, leb, lookup,
  lookup-insert, lookup-remove, contains_key, length, values, extend_sorted, is_some, arith,
  Bool-cases, Option-cases, nat_beq_iff,
}
use armchair_analyst.Pools.Keys.{BlockHash, Bloom}
use armchair_analyst.Pools.Events.{PoolLog}
use armchair_analyst.Graph.Types.{
  unknown, complete, BlockData, BlocksGraph, contains_block, key_by_log_index,
}
use armchair_analyst.Graph.Admission.{
  Admission, with_data_capped, with_block_capped, with_observed_head,
}
use armchair_analyst.Graph.Admission.Invariant.{IsTree}
use armchair_analyst.Graph.Admission.Refine.{with_data_capped-view}
use armchair_analyst.Graph.Logs.{merge_streamed, with_streamed_logs, with_complete_logs}
use armchair_analyst.Graph.Logs.Ladder.{lookup-update_block_data}
use armchair_analyst.Kernel.{
  Staged, State, max_streamed_log_blocks, or_empty, with_streamed_logs_buffered, map_graph,
  with_log_streamed, with_streamed_logs_drained, head_after, with_log_head_observed,
  with_log_header_received, with_log_complete, log_observed,
}

-- No staged block, other than those left out, is in the graph.
abbrev pub Apart : BlocksGraph → Staged → Type 0
Apart g staged = (x : BlockHash) → contains_key x staged ≡ true → contains_block g x ≡ false

abbrev ApartBut : BlockHash → BlocksGraph → Staged → Type 0
ApartBut hash g staged =
    (x : BlockHash)
    → (hash == x) ≡ false
    → contains_key x staged ≡ true
    → contains_block g x ≡ false

abbrev pub StagedApart : State → Type 0
StagedApart s = Apart s.blocks.graph s.streamed_logs

contains_with_data :
    (g : BlocksGraph) (hash parent : BlockHash) (payload : BlockData) (max_pending : ℕ)
    (x : BlockHash)
    → IsTree g
    → (hash == x) ≡ false
    → contains_block (with_data_capped g hash parent payload max_pending).0 x ≡ contains_block g x
unfolding contains_block contains_key
contains_with_data g hash parent payload max_pending x t other =
    let g' = (with_data_capped g hash parent payload max_pending).0 in
    elim (with_data_capped-view g hash parent payload max_pending t) [
      | inl (_, _, shows) ↦ ground (arith, shows x, other)
      | inr (_, e) ↦ ap (λ (h : BlocksGraph). is_some (lookup x h.nodes)) e
    ]

contains_head_after :
    (a : Admission) (hash : BlockHash) (g : BlocksGraph) (x : BlockHash)
    → contains_block (head_after a hash g) x ≡ contains_block g x
unfolding with_observed_head contains_block
contains_head_after a hash g x = ground arith

contains_streamed :
    (g : BlocksGraph) (hash : BlockHash) (logs : List PoolLog) (x : BlockHash)
    → contains_block (with_streamed_logs g hash logs) x ≡ contains_block g x
unfolding contains_block contains_key with_streamed_logs
contains_streamed g hash logs x =
    ground (
      arith,
      lookup-update_block_data g hash (λ d. record d { logs = merge_streamed logs d.logs }) x,
    )

contains_completed :
    (g : BlocksGraph) (hash : BlockHash) (logs : List PoolLog) (x : BlockHash)
    → contains_block (with_complete_logs g hash logs).0 x ≡ contains_block g x
unfolding contains_block contains_key with_complete_logs
contains_completed g hash logs x = ground (
  arith,
  lookup-update_block_data g hash (λ d. record d { logs = complete (key_by_log_index logs) }) x,
)

drained-StagedApart :
    (s : State) (hash : BlockHash)
    → ApartBut hash s.blocks.graph s.streamed_logs
    → StagedApart (with_streamed_logs_drained s hash)
unfolding with_streamed_logs_drained with_log_streamed map_graph contains_key
drained-StagedApart s hash apart = elim (Bool-cases (contains_block s.blocks.graph hash)) [
  | inr gone ↦
      rw (gone, with_streamed_logs_drained)
        (λ x h. elim (Bool-cases (hash == x)) [
          | inl here ↦
              subst (λ y. contains_block s.blocks.graph y ≡ false) ((nat_beq_iff hash x).0 here)
                gone
          | inr there ↦ apart x there h
        ])
  | inl there ↦ elim (Option-cases (lookup hash s.streamed_logs)) [
    | inl none_staged ↦
        rw (there, with_streamed_logs_drained)
          (rw (none_staged, with_streamed_logs_drained)
            (λ x h. apart x (ground (arith, h, none_staged, nat_beq_iff hash x)) h))
    | inr (logs, staged) ↦
        rw (there, with_streamed_logs_drained)
          (rw (staged, with_streamed_logs_drained)
            (λ x h.
              contains_streamed s.blocks.graph hash (values logs) x
              ∙ apart x (ground (arith, h, lookup-remove x hash s.streamed_logs))
                  (ground (arith, h, lookup-remove x hash s.streamed_logs))))
  ]
]

-- The feeds of a head, of a header, of streamed and of complete logs keep the staged blocks apart from the
-- graph: a block that enters takes its staged logs along.
pub feeds-StagedApart :
    (s : State)
    → IsTree s.blocks.graph
    → StagedApart s
    → (hash parent : BlockHash) (number : ℕ) (bloom : Bloom) (max_pending : ℕ) (logs : List PoolLog)
    → StagedApart (with_log_head_observed s hash parent number bloom max_pending).0
      × StagedApart (with_log_header_received s hash parent number bloom max_pending)
      × StagedApart (log_observed s hash logs)
      × StagedApart (with_log_complete s hash logs)
unfolding with_log_head_observed with_log_header_received log_observed with_log_complete
    with_streamed_logs_buffered with_log_streamed map_graph with_block_capped contains_key
feeds-StagedApart s t apart hash parent number bloom max_pending logs =
    let r = with_block_capped s.blocks.graph hash parent number bloom max_pending in
    let d : BlockData = record { number = number; logs_bloom = some bloom; logs = unknown } in
    (
      drained-StagedApart _ hash (λ x other h.
          contains_head_after r.1 hash r.0 x
          ∙ contains_with_data s.blocks.graph hash parent d max_pending x t other
          ∙ apart x h),
      drained-StagedApart _ hash (λ x other h.
          contains_with_data s.blocks.graph hash parent d max_pending x t other ∙ apart x h),
      observed,
      λ x h. contains_completed s.blocks.graph hash logs x ∙ apart x h,
    )
  where
    observed : StagedApart (log_observed s hash logs)
    observed = elim (Bool-cases (contains_block s.blocks.graph hash)) [
      | inl there ↦
          rw (there, log_observed) (λ x h. contains_streamed s.blocks.graph hash logs x ∙ apart x h)
      | inr gone ↦
          rw (gone, log_observed)
            (elim (Bool-cases (
              leb max_streamed_log_blocks (length s.streamed_logs)
              && not (contains_key hash s.streamed_logs))) [
                | inl full ↦ rw (full, with_streamed_logs_buffered) apart
                | inr room ↦
                    rw (room, with_streamed_logs_buffered)
                      (λ x h. elim (Bool-cases (hash == x)) [
                        | inl here ↦
                            subst (λ y. contains_block s.blocks.graph y ≡ false)
                              ((nat_beq_iff hash x).0 here) gone
                        | inr there ↦ apart x (
                            ground (
                              arith,
                              h,
                              there,
                              lookup-insert x hash
                                  (extend_sorted (or_empty (lookup hash s.streamed_logs))
                                    (key_by_log_index logs))
                                  s.streamed_logs,
                            ))
                      ])
              ])
    ]
