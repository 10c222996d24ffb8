-- ===== src/Bootstrap/Machine/Fits.antt =====
-- core/crates/client-evm/src/bootstrap/mod.rs: the request that a phase waits for.
use armchair_analyst.Prelude.{
  ℕ, nat_eq, ◌≡◌, refl, true, none, some, ◌⊎◌, inl, inr, List, [], ◌∷◌, ◌++◌,
}
use armchair_analyst.Pools.Keys.{ChainKey}
use armchair_analyst.Bootstrap.Window.{RangeLogBlock}
use armchair_analyst.Requests.Tick.{Tick}
use armchair_analyst.Requests.Tracking.{RequestId}
use armchair_analyst.Bootstrap.Requests.{
  GetPoolCandidatesInRange, AnyBootstrapIssued, finalized_header_issued, pool_candidates_issued,
  validation_issued, resolution_issued,
}
use armchair_analyst.Bootstrap.Machine.{
  referenced_tokens, Phase, anchoring_chain, discovering, validating_pools, resolving_tokens,
  BootstrapState, BootstrapEvent, pool_candidates_received, BootstrapStep, is_terminal,
}
use armchair_analyst.Bootstrap.Machine.Idle.{idle}
use armchair_analyst.Bootstrap.Machine.Sole.{sole, reissued}

-- An event is among those that arrived.
abbrev pub Heard : BootstrapEvent → List BootstrapEvent → Type 0
Heard event [] = ⊥
Heard event (x ∷ heard) = (x ≡ event) ⊎ Heard event heard

pub Heard-last :
    (event : BootstrapEvent) (heard : List BootstrapEvent) → Heard event (heard ++ event ∷ [])
Heard-last event [] = inl refl
Heard-last event (x ∷ heard) = inr (Heard-last event heard)

pub Heard-before :
    (event x : BootstrapEvent) (heard : List BootstrapEvent)
    → Heard event heard
    → Heard event (heard ++ x ∷ [])
Heard-before event x [] h = absurd h
Heard-before event x (y ∷ heard) (inl e) = inl e
Heard-before event x (y ∷ heard) (inr h) = inr (Heard-before event x heard h)

-- A window that continues the scan: an answer that arrived names the block it starts from and the tip, which
-- the request repeats, and the blocks of that answer are the last of those found.
abbrev pub Continues :
    List BootstrapEvent → (blocks : List RangeLogBlock) → GetPoolCandidatesInRange → Type 0
Continues heard blocks payload =
    (id : RequestId) × (earlier : List RangeLogBlock) × (found : List RangeLogBlock)
    × (scan_tip : ℕ) × (from : ℕ) × Heard (pool_candidates_received id found scan_tip (some from))
        heard
    × (blocks ≡ earlier ++ found)
    × (payload ≡ record { from_block = from; scan_tip = some scan_tip })

-- The request that a phase waits for: a window of the scan is the first one, from the anchor, or continues
-- it; metadata is asked at the anchor, that of the tokens for those that the verified pools name.
abbrev pub Fits : ChainKey → List BootstrapEvent → Phase → AnyBootstrapIssued → Type 0
Fits chain heard anchoring_chain (finalized_header_issued i) = Unit {0}
Fits chain heard (discovering anchor blocks) (pool_candidates_issued i) =
    ((i.request_payload ≡ record { from_block = anchor.number; scan_tip = none }) × (blocks ≡ []))
    ⊎ Continues heard blocks i.request_payload
Fits chain heard (validating_pools anchor seed) (validation_issued i) =
    i.request_payload.block_at ≡ anchor.hash
Fits chain heard (resolving_tokens anchor seed verified) (resolution_issued i) =
    i.request_payload ≡ record { block_at = anchor.hash; tokens = referenced_tokens verified chain }
Fits chain heard _ _ = ⊥

-- A phase that is terminal waits for no answer: what was in flight at its start may still be.
abbrev pub FitsOrEnded : ChainKey → List BootstrapEvent → Phase → AnyBootstrapIssued → Type 0
FitsOrEnded chain heard phase e = (is_terminal phase ≡ true) ⊎ Fits chain heard phase e

-- One request is in flight, and it is the phase's, unless that is terminal.
pub record Waits (chain : ChainKey) (heard : List BootstrapEvent) (s : BootstrapState)
    (e : AnyBootstrapIssued) : Type 0 where
  pub sent : Tick
  pub last : RequestId
  pub fits : FitsOrEnded chain heard s.phase e
  pub one : s.pending ≡ sole e sent last

-- The bootstrap has ended and nothing is in flight.
pub record IsIdle (s : BootstrapState) : Type 0 where
  pub last : RequestId
  pub ended : is_terminal s.phase ≡ true
  pub empty : s.pending ≡ idle last

abbrev pub Sequential : ChainKey → List BootstrapEvent → BootstrapState → Type 0
Sequential chain heard s = IsIdle s ⊎ ((e : AnyBootstrapIssued) × Waits chain heard s e)

-- A step ends with nothing in flight and sends nothing, or with one request in flight, and sends nothing or
-- that request.
abbrev pub Announces : ChainKey → List BootstrapEvent → BootstrapStep → Type 0
Announces chain heard (s, effects) =
    (IsIdle s × (effects ≡ []))
    ⊎ ((e : AnyBootstrapIssued) × Waits chain heard s e × ((effects ≡ []) ⊎ (effects ≡ e ∷ [])))

pub Fits-reissued :
    (chain : ChainKey) (heard : List BootstrapEvent) (phase : Phase) (e : AnyBootstrapIssued)
    (id : RequestId)
    → Fits chain heard phase e
    → Fits chain heard phase (reissued id e)
Fits-reissued chain heard anchoring_chain (finalized_header_issued i) id h = tt
Fits-reissued chain heard (discovering anchor blocks) (pool_candidates_issued i) id h = h
Fits-reissued chain heard (validating_pools anchor seed) (validation_issued i) id h = h
Fits-reissued chain heard (resolving_tokens anchor seed verified) (resolution_issued i) id h = h
Fits-reissued chain heard _ _ id h = h

pub Fits_later :
    (chain : ChainKey) (heard : List BootstrapEvent) (event : BootstrapEvent) (phase : Phase)
    (e : AnyBootstrapIssued)
    → Fits chain heard phase e
    → Fits chain (heard ++ event ∷ []) phase e
Fits_later chain heard event anchoring_chain (finalized_header_issued i) h = tt
Fits_later chain heard event (discovering anchor blocks) (pool_candidates_issued i) (inl h) = inl h
Fits_later chain heard event (discovering anchor blocks) (pool_candidates_issued i)
      (inr (id, earlier, found, tip, from, h, grown, same)) =
    inr (id, earlier, found, tip, from, Heard-before _ event heard h, grown, same)
Fits_later chain heard event (validating_pools anchor seed) (validation_issued i) h = h
Fits_later chain heard event (resolving_tokens anchor seed verified) (resolution_issued i) h = h
Fits_later chain heard event _ _ h = h
