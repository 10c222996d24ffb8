-- ===== src/Bootstrap/Window/Linked.antt =====
-- core/crates/client-evm/src/bootstrap/mod.rs: `GraphSeed::from_window` gives one chain above the anchor.
use armchair_analyst.Prelude.{
  ℕ, nat_eq, ◌+◌, ◌-◌, ◌<◌, ◌≤◌, ◌≡◌, ◌∙◌, ap, refl, sym, subst, true, ◌⊎◌, Option, none, some, inl,
  inr, List, [], ◌∷◌, ◌==◌, leb, ltb, ltb→lt, SortedMap, Above, IsSorted, lookup, nat_beq,
  insert_sorted-IsSorted, insert_sorted-Above, lookup-insert_sorted, arith, Bool-cases,
  Option-cases, nat_beq_iff, if◌then◌else◌, eq_of_some,
}
use armchair_analyst.Pools.Keys.{BlockHash}
use armchair_analyst.Graph.Admission.{SeedBlock}
use armchair_analyst.Bootstrap.Window.{
  RangeLogBlock, FinalizedAnchor, or_insert, recent_above, max_key, retained_upto, linked_blocks,
  from_window,
}

-- One chain: each block names the one before as its parent, the first one the block below, and the numbers
-- ascend.
abbrev pub Linked : BlockHash → ℕ → List SeedBlock → Type 0
Linked hash number [] = Unit {0}
Linked hash number ((h, parent, n, logs) ∷ blocks) =
    (parent ≡ hash) × (number < n) × Linked h n blocks

-- The block stands in the chain under its own hash and number, with its logs.
abbrev pub Holds : ℕ → RangeLogBlock → List SeedBlock → Type 0
Holds number block [] = ⊥
Holds number block ((h, parent, n, logs) ∷ blocks) =
    ((h ≡ block.hash) × (n ≡ number) × (logs ≡ block.logs)) ⊎ Holds number block blocks

-- The first block of the scan with a number.
abbrev pub first_numbered : ℕ → List RangeLogBlock → Option RangeLogBlock
first_numbered number [] = none
first_numbered number (block ∷ window) =
    if block.number == number then some block else first_numbered number window

module _ (block : RangeLogBlock) (recent : SortedMap RangeLogBlock) where
  or_insert-IsSorted : IsSorted recent → IsSorted (or_insert block recent)
  unfolding or_insert
  or_insert-IsSorted s = elim (Option-cases (lookup block.number recent)) [
    | inl fresh ↦ rw (fresh, or_insert) (insert_sorted-IsSorted block.number block recent s)
    | inr (first, found) ↦ rw (found, or_insert) s
  ]

  or_insert-Above : (n : ℕ) → n < block.number → Above n recent → Above n (or_insert block recent)
  unfolding or_insert
  or_insert-Above n l a = elim (Option-cases (lookup block.number recent)) [
    | inl fresh ↦ rw (fresh, or_insert) (insert_sorted-Above n block.number block recent l a)
    | inr (first, found) ↦ rw (found, or_insert) a
  ]

  lookup-or_insert :
      (n : ℕ)
      → lookup n (or_insert block recent) ≡ elim (lookup n recent) [
        | some first ↦ some first
        | none ↦ if block.number == n then some block else none
      ]
  unfolding or_insert
  lookup-or_insert n = elim (Option-cases (lookup block.number recent)) [
    | inl fresh ↦
        rw (fresh, or_insert)
          (ground (
            arith,
            fresh,
            nat_beq_iff block.number n,
            lookup-insert_sorted n block.number block recent,
          ))
    | inr (first, found) ↦ rw (found, or_insert) (ground (arith, found, nat_beq_iff block.number n))
  ]

recent_lem :
    (a : ℕ) (window : List RangeLogBlock) (recent : SortedMap RangeLogBlock)
    → IsSorted recent
    → Above a recent
    → IsSorted (recent_above a window recent) × Above a (recent_above a window recent)
unfolding recent_above
recent_lem a [] recent s h = (s, h)
recent_lem a (block ∷ window) recent s h = elim (Bool-cases (ltb a block.number)) [
  | inr below ↦ rw (below, recent_above) (recent_lem a window recent s h)
  | inl above ↦
      rw (above, recent_above)
        (recent_lem a window (or_insert block recent) (or_insert-IsSorted block recent s)
          (or_insert-Above block recent a (ltb→lt a block.number above) h))
]

lookup-recent :
    (a n : ℕ) (window : List RangeLogBlock) (recent : SortedMap RangeLogBlock)
    → a < n
    → lookup n (recent_above a window recent)
      ≡ elim (lookup n recent) [ some first ↦ some first | none ↦ first_numbered n window ]
unfolding recent_above
lookup-recent a n [] recent l = ground arith
lookup-recent a n (block ∷ window) recent l = elim (Bool-cases (ltb a block.number)) [
  | inr below ↦
      rw (below, recent_above)
        (ground (arith, below, l, lookup-recent a n window recent l, nat_beq_iff block.number n))
  | inl above ↦
      rw (above, recent_above)
        (ground (
          arith,
          lookup-recent a n window (or_insert block recent) l,
          lookup-or_insert block recent n,
        ))
]

max_key_lem :
    (m : SortedMap RangeLogBlock) (j k last : ℕ) (block : RangeLogBlock)
    → IsSorted m
    → Above j m
    → max_key m ≡ some last
    → j < last
unfolding max_key
max_key_lem [] j k last block s a h = ground (arith, h)
max_key_lem ((i, v) ∷ m) j k last block s a h = elim (Option-cases (max_key m)) [
  | inl empty ↦
      let here : i ≡ last =
        eq_of_some (
          sym (ap (λ o. elim o as (λ _. Option ℕ) [ none ↦ some i | some l ↦ some l ]) empty)
          ∙ h) in
      subst (λ x. j < x) here a
  | inr (l, found) ↦
      let here : l ≡ last =
        eq_of_some (
          sym (ap (λ o. elim o as (λ _. Option ℕ) [ none ↦ some i | some l ↦ some l ]) found)
          ∙ h) in
      let above : i < l = max_key_lem m i k l block s.1 s.0 found in omega (arith, here, above, a)
]

-- The last key is there and above each key.
max_key_above :
    (m : SortedMap RangeLogBlock) (k : ℕ) (block : RangeLogBlock)
    → IsSorted m
    → lookup k m ≡ some block
    → (last : ℕ) × (max_key m ≡ some last) × (k ≤ last)
unfolding max_key lookup
max_key_above [] k block s h = ground (arith, h)
max_key_above ((j, v) ∷ m) k block s h = elim (Bool-cases (nat_beq j k)) [
  | inl same ↦ elim (Option-cases (max_key m)) [
    | inl empty ↦ rw (empty, max_key) (j, refl, ground (arith, (nat_beq_iff j k).0 same))
    | inr (last, found) ↦
        rw (found, max_key)
          (
            last,
            refl,
            ground (arith, (nat_beq_iff j k).0 same, max_key_lem m j k last v s.1 s.0 found),
          )
  ]
  | inr other ↦
      let (last, found, bound) = max_key_above m k block s.1 (ground (arith, h, other)) in
      rw (found, max_key) (last, refl, bound)
]

retained_lem :
    (highest n : ℕ) (m : SortedMap RangeLogBlock)
    → IsSorted m
    → Above n m
    → IsSorted (retained_upto highest m) × Above n (retained_upto highest m)
unfolding retained_upto
retained_lem highest n [] s h = (s, h)
retained_lem highest n ((k, block) ∷ m) s h =
    let (s', a') = retained_lem highest k m s.1 s.0 in
    elim (Bool-cases (leb k highest)) [
      | inl keep ↦ rw (keep, retained_upto) ((a', s'), h)
      | inr drop ↦ rw (drop, retained_upto) (s', (retained_lem highest n m s.1 (lower m s.0)).1)
    ]
  where
    lower : (m : SortedMap RangeLogBlock) → Above k m → Above n m
    lower [] a = a
    lower ((j, v) ∷ m) a = omega (arith, a, h)

lookup-retained :
    (highest n : ℕ) (m : SortedMap RangeLogBlock)
    → lookup n (retained_upto highest m) ≡ (if leb n highest then lookup n m else none)
unfolding retained_upto lookup
lookup-retained highest n [] = ground arith
lookup-retained highest n ((k, block) ∷ m) =
    ground (arith, lookup-retained highest n m, nat_beq_iff k n)

within : (a b : ℕ) → a ≤ b → leb a b ≡ true
within a b h = ground arith

module _ (filler_hash : BlockHash → BlockHash → BlockHash) where
  linked_blocks-Linked :
      (hash : BlockHash) (number : ℕ) (m : SortedMap RangeLogBlock)
      → IsSorted m
      → Above number m
      → Linked hash number (linked_blocks filler_hash hash number m)
  unfolding linked_blocks
  linked_blocks-Linked hash number [] s a = tt
  linked_blocks-Linked hash number ((n, block) ∷ m) s a =
      let rest = linked_blocks-Linked block.hash n m s.1 s.0 in
      elim (Bool-cases (n == number + 1)) [
        | inl next ↦ rw (next, linked_blocks) (refl, a, rest)
        | inr gap ↦
            let wide : number + 1 < n = ground (arith, a, gap) in
            rw (gap, linked_blocks) (refl, omega (arith, wide), (refl, omega (arith, wide), rest))
      ]

  linked_blocks-Holds :
      (hash : BlockHash) (number n : ℕ) (block : RangeLogBlock) (m : SortedMap RangeLogBlock)
      → lookup n m ≡ some block
      → Holds n block (linked_blocks filler_hash hash number m)
  unfolding linked_blocks lookup
  linked_blocks-Holds hash number n block [] h = absurd (ground (arith, h))
  linked_blocks-Holds hash number n block ((k, v) ∷ m) h = elim (Bool-cases (nat_beq k n)) [
    | inl same ↦
        let here : v ≡ block = ground (arith, h, same) in
        let at_n : k ≡ n = (nat_beq_iff k n).0 same in
        elim (Bool-cases (k == number + 1)) [
          | inl next ↦
              rw (next, linked_blocks) (inl (ap (λ x. x.hash) here, at_n, ap (λ x. x.logs) here))
          | inr gap ↦
              rw (gap, linked_blocks)
                (inr (inl (ap (λ x. x.hash) here, at_n, ap (λ x. x.logs) here)))
        ]
    | inr other ↦
        let rest = linked_blocks-Holds v.hash k n block m (ground (arith, h, other)) in
        elim (Bool-cases (k == number + 1)) [
          | inl next ↦ rw (next, linked_blocks) (inr rest)
          | inr gap ↦ rw (gap, linked_blocks) (inr (inr rest))
        ]
  ]

  pub seed_chain :
      (window : List RangeLogBlock) (anchor : FinalizedAnchor) (tip_trim : ℕ)
      → Linked anchor.hash anchor.number (from_window filler_hash window anchor tip_trim)
  unfolding from_window
  seed_chain window anchor tip_trim =
      let recent = recent_above anchor.number window [] in
      let (s, a) = recent_lem anchor.number window [] tt tt in
      elim (Option-cases (max_key recent)) [
        | inl empty ↦ rw (empty, from_window) tt
        | inr (last, found) ↦
            let (s', a') = retained_lem (last - tip_trim) anchor.number recent s a in
            rw (found, from_window)
              (linked_blocks-Linked anchor.hash anchor.number
                (retained_upto (last - tip_trim) recent) s' a')
      ]

  -- The seed is one chain that ends at the anchor, and each number above the anchor that the scan found, and
  -- that is at least `tip_trim` below another found number, stands in it with the hash and the logs of
  -- the first block of the scan under it.
  pub from_window-Linked :
      (window : List RangeLogBlock) (anchor : FinalizedAnchor) (tip_trim n top : ℕ)
      (block highest : RangeLogBlock)
      → anchor.number < n
      → first_numbered n window ≡ some block
      → first_numbered top window ≡ some highest
      → n + tip_trim ≤ top
      → Linked anchor.hash anchor.number (from_window filler_hash window anchor tip_trim)
        × Holds n block (from_window filler_hash window anchor tip_trim)
  unfolding from_window
  from_window-Linked window anchor tip_trim n top block highest above found below far =
      let recent = recent_above anchor.number window [] in
      let (s, a) = recent_lem anchor.number window [] tt tt in
      let at_n : lookup n recent ≡ some block =
        lookup-recent anchor.number n window [] above ∙ found in
      let at_top : lookup top recent ≡ some highest =
        lookup-recent anchor.number top window [] (omega (arith, above, far)) ∙ below in
      let (last, is_last, bound) = max_key_above recent top highest s at_top in
      let (s', a') = retained_lem (last - tip_trim) anchor.number recent s a in
      let kept : leb n (last - tip_trim) ≡ true =
        within n (last - tip_trim) (omega (arith, far, bound)) in
      rw (is_last, from_window)
        (
          linked_blocks-Linked anchor.hash anchor.number (retained_upto (last - tip_trim) recent) s'
              a',
          linked_blocks-Holds anchor.hash anchor.number n block
              (retained_upto (last - tip_trim) recent)
              (lookup-retained (last - tip_trim) n recent ∙ rw kept at_n),
        )
