-- ===== src/Mailbox/Wakeup.antt =====
-- core/crates/aa-client-core/src/latest_slot.rs: sleeping and notification.
use armchair_analyst.Prelude.{◌≡◌, false, none, List, [], ◌∷◌, arith}
use armchair_analyst.Mailbox.{
  asleep, LatestSlot, latest_slot, send, try_take, wait_round, close, Action, sends, tries, waits,
  resumes, drops, step,
}

unfoldable pub run : {T : Type 0} → List (Action T) → LatestSlot T → LatestSlot T
unfolding step
run [] s = s
run (action ∷ actions) s = run actions (step action s).0

-- A sleeping receiver has nothing to take and nothing to report.
abbrev pub Quiet : {T : Type 0} → LatestSlot T → Type 0
Quiet s = s.receiver ≡ asleep → (s.latest ≡ none) × (s.closed ≡ false)

step-Quiet : {T : Type 0} (action : Action T) (s : LatestSlot T) → Quiet s → Quiet (step action s).0
unfolding step send try_take wait_round close
step-Quiet (sends value) s q h = ground (arith, q, h)
step-Quiet tries s q h = ground (arith, q, h)
step-Quiet waits s q h = ground (arith, q, h)
step-Quiet resumes s q h = ground (arith, q, h)
step-Quiet drops s q h = ground (arith, q, h)

run-Quiet_from :
    {T : Type 0} (actions : List (Action T)) (s : LatestSlot T) → Quiet s → Quiet (run actions s)
unfolding run
run-Quiet_from [] s q = q
run-Quiet_from (action ∷ actions) s q =
    run-Quiet_from actions (step action s).0 (step-Quiet action s q)

-- Whatever the two threads do, in whatever order, a receiver that is asleep and not notified faces an empty
-- slot that is open: it never sleeps through a value or through the close.
pub run-Quiet : {T : Type 0} (actions : List (Action T)) → Quiet (run actions latest_slot)
unfolding latest_slot
run-Quiet actions = run-Quiet_from actions latest_slot (λ h. ground (arith, h))
