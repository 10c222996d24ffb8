-- ===== src/Requests/Retained.antt =====
-- core/crates/client-evm/src/kernel/pending_requests.rs: `retaining_block_targets`.
use armchair_analyst.Prelude.{
  ◌≡◌, nat_eq, refl, ◌&&◌, List, [], ◌∷◌, map, any_by, contains, retain, arith, nat_beq_iff,
}
use armchair_analyst.Pools.Keys.{BlockHash}
use armchair_analyst.Requests.Tracking.{RequestCollection}
use armchair_analyst.Requests.Pending.{
  PendingRequests, GetBlockHeader, GetBlockLogs, requests_of, log_target, pending_block_log_hashes,
  has_pending_header_request, retaining_block_targets, has_pending_finality_probe,
}

retained_logs :
    (hash : BlockHash) (retained : List BlockHash) (c : RequestCollection GetBlockLogs)
    → contains hash
        (map log_target (requests_of (retain (λ id p. contains p.request.block_hash retained) c)))
      ≡ (contains hash (map log_target (requests_of c)) && contains hash retained)
unfolding retain
retained_logs hash retained [] = refl
retained_logs hash retained ((id, p) ∷ c) =
    ground (arith, retained_logs hash retained c, nat_beq_iff p.request.block_hash hash)

retained_headers :
    (hash : BlockHash) (retained : List BlockHash) (c : RequestCollection GetBlockHeader)
    → any_by
        (λ (r : GetBlockHeader). nat_eq.beq r.block_hash hash)
        (requests_of (retain (λ id p. contains p.request.block_hash retained) c))
      ≡ (any_by (λ (r : GetBlockHeader). nat_eq.beq r.block_hash hash) (requests_of c)
          && contains hash retained)
unfolding retain
retained_headers hash retained [] = refl
retained_headers hash retained ((id, p) ∷ c) =
    ground (arith, retained_headers hash retained c, nat_beq_iff p.request.block_hash hash)

-- After the pruning a header or the logs of a block are in flight exactly when they were before and the block
-- was retained; the probe of the finalized height is untouched.
pub retaining_block_targets-lem :
    (s : PendingRequests) (retained : List BlockHash) (hash : BlockHash)
    → let s' = retaining_block_targets s retained in
      (contains hash (pending_block_log_hashes s')
        ≡ (contains hash (pending_block_log_hashes s) && contains hash retained))
      × (has_pending_header_request s' hash
          ≡ (has_pending_header_request s hash && contains hash retained))
      × (has_pending_finality_probe s' ≡ has_pending_finality_probe s)
unfolding retaining_block_targets pending_block_log_hashes has_pending_header_request
    has_pending_finality_probe
retaining_block_targets-lem s retained hash =
    (retained_logs hash retained s.block_logs, retained_headers hash retained s.block_headers, refl)
