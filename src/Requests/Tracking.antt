-- ===== src/Requests/Tracking.antt =====
-- core/crates/client-evm/src/request_tracking.rs: one sequence of ids, and a collection of pending payloads
-- for each type of request. An id is a `u64` that wraps. The two traits are one interface here, with the
-- laws that reading a field after writing it obeys.
use armchair_analyst.Prelude.{
  ℕ, nat_eq, ◌+◌, ◌%◌, ◌^◌, ◌≡◌, Option, none, some, List, [], ◌∷◌, Map, lookup, insert, remove,
  if◌then◌else◌,
}
use armchair_analyst.Requests.Tick.{Tick, is_expired_since}

abbrev pub RequestId : Type 0
RequestId = ℕ

unfoldable pub next_id : RequestId → RequestId
next_id id = (id + 1) % 2 ^ 64

pub record PendingPayload (R : Type 0) : Type 0 where
  pub request : R
  pub dispatched_at : Tick

pub record IssuedRequest (R : Type 0) : Type 0 where
  pub request_id : RequestId
  pub request_payload : R

abbrev pub RequestCollection : Type 0 → Type 0
RequestCollection R = Map RequestId (PendingPayload R)

-- `RequestIssuer` and `RequestStore<R>`.
pub record RequestStore (S R : Type 0) : Type 0 where
  pub last_id : S → RequestId
  pub with_last_id : RequestId → S → S
  pub collection : S → RequestCollection R
  pub with_collection : RequestCollection R → S → S
  pub last_id-with_last_id : (id : RequestId) (s : S) → last_id (with_last_id id s) ≡ id
  pub last_id-with_collection :
      (c : RequestCollection R) (s : S) → last_id (with_collection c s) ≡ last_id s
  pub collection-with_last_id :
      (id : RequestId) (s : S) → collection (with_last_id id s) ≡ collection s
  pub collection-with_collection :
      (c : RequestCollection R) (s : S) → collection (with_collection c s) ≡ c

-- The ids of the pending requests that have expired.
unfoldable pub expired_in : {R : Type 0} → Tick → RequestCollection R → List RequestId
expired_in tick [] = []
expired_in tick ((id, p) ∷ c) =
    if is_expired_since tick p.dispatched_at then id ∷ expired_in tick c else expired_in tick c

unfoldable pub expired_request_ids :
    {S : Type 0} (R : Type 0) ⦃m : RequestStore S R⦄ → S → Tick → List RequestId
unfolding expired_in
expired_request_ids R ⦃m⦄ s tick = expired_in tick (m.collection s)

module _ {S R : Type 0} ⦃m : RequestStore S R⦄ where
  -- `RequestIdSequence::issue` and the insertion.
  unfoldable pub issue_request : S → R → Tick → S × RequestId
  unfolding next_id
  issue_request s request tick =
      let id = next_id (m.last_id s) in
      let issued = m.with_last_id id s in
      (
        m.with_collection
            (insert id (record { request = request; dispatched_at = tick }) (m.collection issued))
            issued,
        id,
      )

  unfoldable pub take_request : S → RequestId → S × Option (PendingPayload R)
  take_request s id = (m.with_collection (remove id (m.collection s)) s, lookup id (m.collection s))

  unfoldable pub retry_request : S → RequestId → Tick → S × Option (IssuedRequest R)
  unfolding take_request issue_request
  retry_request s id tick =
      let (taken, found) = take_request s id in
      elim found [
        | none ↦ (taken, none)
        | some p ↦
            let (issued, new_id) = issue_request taken p.request tick in
            (issued, some (record { request_id = new_id; request_payload = p.request }))
      ]
