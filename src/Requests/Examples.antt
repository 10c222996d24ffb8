-- ===== src/Requests/Examples.antt =====
-- Two requests of which one has expired, at the wrap of the clock.
use armchair_analyst.Prelude.{nat_eq, ◌≤◌, ◌≡◌, ◌↔◌, refl, true, [], ◌∷◌, lookup, arith}
use armchair_analyst.Requests.Tick.{after, is_expired_since, request_ttl, elapsed_since}
use armchair_analyst.Requests.Tracking.{PendingPayload, expired_request_ids}
use armchair_analyst.Requests.Pending.{
  GetBlockLogs, PendingRequests, log_store, expired_ids, retry_expired,
}
use armchair_analyst.Requests.Tick
use armchair_analyst.Requests.Ids
use armchair_analyst.Requests.Lossless

abbrev old_logs : PendingPayload GetBlockLogs
old_logs = record { request = record { block_hash = 10 }; dispatched_at = 18446744073709551615 }

abbrev new_logs : PendingPayload GetBlockLogs
new_logs = record { request = record { block_hash = 11 }; dispatched_at = 5 }

abbrev requests : PendingRequests
requests = record {
  last_request_id = 2;
  block_headers = [];
  block_logs = (1, old_logs) ∷ (2, new_logs) ∷ [];
  pool_metadata = [];
  token_metadata = [];
  pool_data = [];
  logs_range = [];
  canonical_header = [];
}

requests-Sound : Ids.Sound requests
unfolding lookup
requests-Sound = record {
  block_headers_issued = record { unique = tt; below = λ id h. absurd (ground (arith, h)) };
  block_logs_issued = record { unique = (refl, (refl, tt)); below = λ id h. ground (arith, h) };
  pool_metadata_issued = record { unique = tt; below = λ id h. absurd (ground (arith, h)) };
  token_metadata_issued = record { unique = tt; below = λ id h. absurd (ground (arith, h)) };
  pool_data_issued = record { unique = tt; below = λ id h. absurd (ground (arith, h)) };
  logs_range_issued = record { unique = tt; below = λ id h. absurd (ground (arith, h)) };
  canonical_header_issued = record { unique = tt; below = λ id h. absurd (ground (arith, h)) };
}

is_expired_since-after_example :
    (is_expired_since (after 12 18446744073709551615) 18446744073709551615 ≡ true)
    ↔ (request_ttl ≤ 12)
is_expired_since-after_example =
    Tick.is_expired_since-after 12 18446744073709551615 (omega arith) (omega arith)

retry_expired-Lossless_example :
    let (s', effects) = retry_expired requests 12 in Lossless.Lossless 12 requests s' effects
unfolding expired_ids expired_request_ids is_expired_since
retry_expired-Lossless_example =
    Lossless.retry_expired-Lossless requests 12 requests-Sound (omega arith) (omega arith)
