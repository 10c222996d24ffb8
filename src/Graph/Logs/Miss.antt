-- ===== src/Graph/Logs/Miss.antt =====
-- core/crates/client-evm/src/kernel/blocks_graph.rs: the flag that `with_complete_logs` returns.
use armchair_analyst.Prelude.{
  ℕ, nat_eq, ◌≡◌, ◌↔◌, ◌∙◌, ap, sym, refl, true, false, not, Option, none, some, List, [], ◌∷◌,
  SortedMap, lookup, keys, last_of, last_of-lookup, lookup_of_entries, IsSorted,
  extend_sorted-IsSorted, sorted_ext, is_some, arith, nat_beq_iff,
}
use armchair_analyst.Pools.Keys.{BlockHash}
use armchair_analyst.Pools.Events.{PoolLog}
use armchair_analyst.Graph.Types.{streamed, Node, BlocksGraph, node_payload, indexed}
use armchair_analyst.Graph.Logs.{
  IndexSet, index_entries, key_entries, same_keys, index_set, key_set, streamed_log_mismatch,
  with_complete_logs,
}

same_keys-eq : (a b : IndexSet) → same_keys (keys a) (keys b) ≡ true → a ≡ b
same_keys-eq [] [] h = refl
same_keys-eq [] ((j, u) ∷ b) h = absurd (cc)
same_keys-eq ((i, t) ∷ a) [] h = absurd (cc)
same_keys-eq ((i, t) ∷ a) ((j, u) ∷ b) h = ground (arith, same_keys-eq a b)

same_keys_refl : (a : IndexSet) → same_keys (keys a) (keys a) ≡ true
same_keys_refl [] = refl
same_keys_refl ((i, t) ∷ a) = ground (arith, same_keys_refl a, nat_beq_iff i i)

last_of-index_entries :
    (i : ℕ) (logs : List PoolLog)
    → is_some (last_of i (index_entries logs)) ≡ is_some (last_of i (indexed logs))
unfolding last_of
last_of-index_entries i [] = refl
last_of-index_entries i (log ∷ logs) = ground (arith, last_of-index_entries i logs)

last_of-key_entries :
    (i : ℕ) (m : SortedMap PoolLog) → is_some (last_of i (key_entries m)) ≡ is_some (last_of i m)
unfolding last_of
last_of-key_entries i [] = refl
last_of-key_entries i ((k, log) ∷ m) = ground (arith, last_of-key_entries i m)

unit_eq : (a b : Option (Unit {0})) → is_some a ≡ is_some b → a ≡ b
unit_eq none none h = refl
unit_eq none (some u) h = absurd (cc)
unit_eq (some t) none h = absurd (cc)
unit_eq (some t) (some u) h = refl

-- The authoritative set differs from the streamed one in no index exactly when the flag is off.
pub with_complete_logs-miss :
    (g : BlocksGraph) (hash : BlockHash) (logs : List PoolLog) (node : Node)
    (existing : SortedMap PoolLog)
    → lookup hash g.nodes ≡ some node
    → (node_payload node).logs ≡ streamed existing
    → IsSorted existing
    → ((with_complete_logs g hash logs).1 ≡ false)
      ↔ ((i : ℕ) → is_some (lookup i existing) ≡ is_some (last_of i (indexed logs)))
unfolding with_complete_logs
with_complete_logs-miss g hash logs node existing found is s = (
  λ off i.
      let same = same_keys-eq (key_set existing) (index_set logs) (ground (arith, flag, off)) in
      ap is_some (sym (last_of-lookup i existing s))
      ∙ sym (last_of-key_entries i existing)
      ∙ ap is_some (sym (lookup_of_entries i (key_entries existing)))
      ∙ ap (λ m. is_some (lookup i m)) same
      ∙ ap is_some (lookup_of_entries i (index_entries logs))
      ∙ last_of-index_entries i logs,
  λ agree.
      let same : key_set existing ≡ index_set logs =
        sorted_ext _ _ (extend_sorted-IsSorted (key_entries existing) [] tt)
          (extend_sorted-IsSorted (index_entries logs) [] tt)
          λ i. unit_eq _ _ (
            ap is_some (lookup_of_entries i (key_entries existing))
            ∙ last_of-key_entries i existing
            ∙ ap is_some (last_of-lookup i existing s)
            ∙ agree i
            ∙ sym (last_of-index_entries i logs)
            ∙ ap is_some (sym (lookup_of_entries i (index_entries logs)))) in
      flag
      ∙ ap (λ m. not (same_keys (keys (key_set existing)) (keys m))) (sym same)
      ∙ ap not (same_keys_refl (key_set existing)),
)
  where
    flag :
        (with_complete_logs g hash logs).1
        ≡ not (same_keys (keys (key_set existing)) (keys (index_set logs)))
    flag = rw (found, streamed_log_mismatch) (rw is refl)
