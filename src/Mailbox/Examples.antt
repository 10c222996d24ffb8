-- ===== src/Mailbox/Examples.antt =====
-- The receiver waits, two values are sent, and it takes the second.
use armchair_analyst.Prelude.{ℕ, List, [], ◌∷◌}
use armchair_analyst.Mailbox.{latest_slot, Action, sends, tries, waits, resumes}
use armchair_analyst.Mailbox.Wakeup
use armchair_analyst.Mailbox.Order

abbrev script : List (Action ℕ)
script = waits ∷ sends 4 ∷ sends 5 ∷ resumes ∷ tries ∷ waits ∷ []

run-Quiet_example : Wakeup.Quiet (Wakeup.run script latest_slot)
run-Quiet_example = Wakeup.run-Quiet script

taken-Subsequence_example :
    Order.Subsequence (Order.taken script latest_slot) (Order.sent script latest_slot)
taken-Subsequence_example = Order.taken-Subsequence script
