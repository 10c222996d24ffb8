-- ===== src/Mailbox/Order.antt =====
-- core/crates/aa-client-core/src/latest_slot.rs: the values that are sent and those that are taken.
use armchair_analyst.Prelude.{
  ◌≡◌, ◌∙◌, refl, sym, subst, ◌⊎◌, Option, none, some, inl, inr, List, [], ◌∷◌, ◌++◌, arith,
  Bool-cases, Option-cases,
}
use armchair_analyst.Mailbox.{
  LatestSlot, latest_slot, send, try_take, wait_round, close, Action, sends, tries, waits, resumes,
  drops, step,
}

-- The values that a script sends successfully, and those that it takes.
abbrev sent_by : {T : Type 0} → Action T → LatestSlot T → List T
sent_by (sends value) s = elim (send s value).1 [ inl _ ↦ value ∷ [] | inr _ ↦ [] ]
sent_by _ s = []

abbrev pub one : {T : Type 0} → Option T → List T
one none = []
one (some value) = value ∷ []

unfoldable pub sent : {T : Type 0} → List (Action T) → LatestSlot T → List T
unfolding step
sent [] s = []
sent (action ∷ actions) s = sent_by action s ++ sent actions (step action s).0

unfoldable pub taken : {T : Type 0} → List (Action T) → LatestSlot T → List T
unfolding step
taken [] s = []
taken (action ∷ actions) s = one (step action s).1 ++ taken actions (step action s).0

-- One list is the other with some elements left out.
pub data Subsequence {T : Type 0} : List T → List T → Type 0 where
  done : {xs ys : List T} → xs ≡ [] → ys ≡ [] → Subsequence xs ys
  keep :
      {xs ys : List T} (x : T) (xs' ys' : List T)
      → xs ≡ x ∷ xs'
      → ys ≡ x ∷ ys'
      → Subsequence xs' ys'
      → Subsequence xs ys
  skip :
      {xs ys : List T} (y : T) (ys' : List T)
      → ys ≡ y ∷ ys'
      → Subsequence xs ys'
      → Subsequence xs ys

-- What one step does: nothing to the slot, a take of its value, or a send that replaces its value.
abbrev Effect : {T : Type 0} → Action T → LatestSlot T → Type 0
Effect {T} action s =
    (((step action s).1 ≡ none) × ((step action s).0.latest ≡ s.latest) × (sent_by action s ≡ []))
    ⊎ (((v : T) × (s.latest ≡ some v)
          × ((step action s).1 ≡ some v)
          × ((step action s).0.latest ≡ none)
          × (sent_by action s ≡ []))
        ⊎ ((v : T) × ((step action s).1 ≡ none)
            × ((step action s).0.latest ≡ some v)
            × (sent_by action s ≡ v ∷ [])))

module _ {T : Type 0} where
  sends-Effect : (value : T) (s : LatestSlot T) → Effect (sends value) s
  unfolding step send
  sends-Effect value s = elim (Bool-cases s.poisoned) [
    | inl p ↦ inl (refl, ground (arith, p), ground (arith, p))
    | inr p ↦ elim (Bool-cases s.closed) [
      | inl c ↦ inl (refl, ground (arith, p, c), ground (arith, p, c))
      | inr c ↦ inr (inr (value, refl, ground (arith, p, c), ground (arith, p, c)))
    ]
  ]

  -- A take is a round that removes the value, if there is one.
  took :
      (action : Action T) (s : LatestSlot T)
      → sent_by action s ≡ []
      → (((step action s).1 ≡ none) × ((step action s).0.latest ≡ s.latest))
        ⊎ (((step action s).1 ≡ s.latest) × ((step action s).0.latest ≡ none))
      → Effect action s
  took action s e (inl (a, b)) = inl (a, b, e)
  took action s e (inr (a, b)) = elim (Option-cases s.latest) [
    | inl empty ↦ inl (a ∙ empty, b ∙ sym empty, e)
    | inr (v, full) ↦ inr (inl (v, full, a ∙ full, b, e))
  ]

  step-Effect : (action : Action T) (s : LatestSlot T) → Effect action s
  unfolding step try_take wait_round close
  step-Effect (sends value) s = sends-Effect value s
  step-Effect tries s = took tries s refl (ground arith)
  step-Effect waits s = took waits s refl (ground arith)
  step-Effect resumes s = took resumes s refl (ground arith)
  step-Effect drops s = took drops s refl (ground arith)

  -- The value that waits in the slot comes before all that is sent later.
  taken-Subsequence_from :
      (actions : List (Action T)) (s : LatestSlot T)
      → Subsequence (taken actions s) (one s.latest ++ sent actions s)
  unfolding taken sent
  taken-Subsequence_from [] s = elim (Option-cases s.latest) [
    | inl e ↦ rw e (done refl refl)
    | inr (v, e) ↦ rw e (skip v [] refl (done refl refl))
  ]
  taken-Subsequence_from (action ∷ actions) s =
      let s' = (step action s).0 in
      let later = taken-Subsequence_from actions s' in
      elim (step-Effect action s) [
        | inl (none_taken, same, none_sent) ↦
            rw (none_taken, none_sent)
              (subst (λ o. Subsequence (taken actions s') (one o ++ sent actions s')) same later)
        | inr (inl (v, full, took_it, emptied, none_sent)) ↦
            kept v took_it full none_sent
              (subst (λ o. Subsequence (taken actions s') (one o ++ sent actions s')) emptied later)
        | inr (inr (v, none_taken, filled, sent_it)) ↦
            let rest : Subsequence (taken actions s') (v ∷ sent actions s') =
              subst (λ o. Subsequence (taken actions s') (one o ++ sent actions s')) filled later in
            rw (none_taken, sent_it) (replaced s.latest rest)
      ]
    where
      kept :
          {o old : Option T} {now xs ys : List T} (v : T)
          → o ≡ some v
          → old ≡ some v
          → now ≡ []
          → Subsequence xs ys
          → Subsequence (one o ++ xs) (one old ++ (now ++ ys))
      kept {xs = xs} {ys = ys} v took_it full none_sent r =
          rw (took_it, full, none_sent) (keep v xs ys refl refl r)

      replaced : {xs ys : List T} (o : Option T) → Subsequence xs ys → Subsequence xs (one o ++ ys)
      replaced none r = r
      replaced {ys = ys} (some w) r = skip w ys refl r

-- Whatever the two threads do, the values that the receiver takes are a subsequence of those that were sent: a
-- value may be dropped for a later one, but none is invented, repeated or reordered.
pub taken-Subsequence :
    {T : Type 0} (actions : List (Action T))
    → Subsequence (taken actions latest_slot) (sent actions latest_slot)
unfolding latest_slot
taken-Subsequence actions = taken-Subsequence_from actions latest_slot
