-- ===== src/Graph/Fold/Buckets.antt =====
-- core/crates/client-evm/src/kernel/blocks_graph.rs: the buckets that `folded_overlay` files the
-- logs of the path in.
use mathlib.Core.List.{append_assoc, append-nil}
use armchair_analyst.Prelude.{
  ◌≡◌, ◌∙◌, ap, sym, refl, inl, inr, Option, none, some, List, [], ◌∷◌, ◌++◌, ◌==◌, lookup,
  lookup-insert, values, if◌then◌else◌, Bool-cases, Option-cases,
}
use armchair_analyst.Pools.Keys.{ProtocolPoolKey, pool_key_eq, pool_key_beq_iff, pool_ref_eq}
use armchair_analyst.Pools.Events.{PoolLogEvent, PoolLog}
use armchair_analyst.Graph.Types.{BlockData}
use armchair_analyst.Graph.Fold.{
  Authority, readable_logs, Buckets, or_default, push_event, push_logs, bucket_path,
}

-- The events of one pool among the logs of a block.
unfoldable pub events_of : ProtocolPoolKey → List PoolLog → List PoolLogEvent
events_of key [] = []
events_of key (log ∷ logs) =
    if log.pool == key then log.event ∷ events_of key logs else events_of key logs

-- The events of one pool in the readable logs of a path, oldest block first.
unfoldable pub path_events : Authority → ProtocolPoolKey → List BlockData → List PoolLogEvent
unfolding events_of
path_events authority key [] = []
path_events authority key (d ∷ path) = elim (readable_logs d.logs authority) [
  | none ↦ path_events authority key path
  | some logs ↦ events_of key (values logs) ++ path_events authority key path
]

-- A bucket after more events: there is none before the first.
abbrev pub grow : Option (List PoolLogEvent) → List PoolLogEvent → Option (List PoolLogEvent)
grow bucket [] = bucket
grow bucket (e ∷ es) = some (or_default bucket ++ e ∷ es)

grow-grow :
    (b : Option (List PoolLogEvent)) (xs ys : List PoolLogEvent)
    → grow (grow b xs) ys ≡ grow b (xs ++ ys)
grow-grow b [] ys = refl
grow-grow b (x ∷ xs) [] = ap (λ l. some (or_default b ++ x ∷ l)) (sym (append-nil xs))
grow-grow b (x ∷ xs) (y ∷ ys) = ap some (append_assoc (or_default b) (x ∷ xs) (y ∷ ys))

lookup-push_logs :
    (key : ProtocolPoolKey) (logs : List PoolLog) (b : Buckets)
    → lookup key (push_logs logs b) ≡ grow (lookup key b) (events_of key logs)
unfolding push_logs push_event events_of
lookup-push_logs key [] b = refl
lookup-push_logs key (log ∷ logs) b =
    lookup-push_logs key logs (push_event log.pool log.event b)
    ∙ elim (Bool-cases (log.pool == key)) [
      | inl here ↦
          let same = (pool_key_beq_iff log.pool key).0 here in
          ap (λ o. grow o (events_of key logs))
            (lookup-insert key log.pool (or_default (lookup log.pool b) ++ log.event ∷ []) b
              ∙ rw here (ap (λ k. some (or_default (lookup k b) ++ log.event ∷ [])) same))
          ∙ grow-grow (lookup key b) (log.event ∷ []) (events_of key logs)
          ∙ ap
              (λ c.
                grow (lookup key b)
                  (if c then log.event ∷ events_of key logs else events_of key logs))
              (sym here)
      | inr there ↦
          ap (λ o. grow o (events_of key logs))
            (lookup-insert key log.pool (or_default (lookup log.pool b) ++ log.event ∷ []) b
              ∙ rw there refl)
          ∙ ap
              (λ c.
                grow (lookup key b)
                  (if c then log.event ∷ events_of key logs else events_of key logs))
              (sym there)
    ]

pub lookup-bucket_path :
    (authority : Authority) (key : ProtocolPoolKey) (path : List BlockData) (b : Buckets)
    → lookup key (bucket_path authority path b)
      ≡ grow (lookup key b) (path_events authority key path)
unfolding bucket_path path_events
lookup-bucket_path authority key [] b = refl
lookup-bucket_path authority key (d ∷ path) b =
    elim (Option-cases (readable_logs d.logs authority)) [
      | inl closed ↦ rw (closed, bucket_path, path_events) (lookup-bucket_path authority key path b)
      | inr (logs, open') ↦
          rw (open', bucket_path, path_events)
            (lookup-bucket_path authority key path (push_logs (values logs) b)
              ∙ ap (λ o. grow o (path_events authority key path))
                  (lookup-push_logs key (values logs) b)
              ∙ grow-grow (lookup key b) (events_of key (values logs))
                  (path_events authority key path))
    ]
