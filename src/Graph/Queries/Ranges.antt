-- ===== src/Graph/Queries/Ranges.antt =====
-- core/crates/client-evm/src/kernel/blocks_graph.rs: `missing_complete_ranges`, the ranges to
-- verify.
use mathlib.Core.List.{append_assoc, append-nil}
use armchair_analyst.Prelude.{
  ℕ, nat_eq, ◌+◌, ◌%◌, ◌^◌, ◌<◌, ◌≡◌, ◌∙◌, ap, refl, sym, suc, true, false, none, some, List, [],
  ◌∷◌, ◌++◌, ◌==◌, length, length-append, Map, lookup, arith, Bool-cases, Option-cases, inl, inr,
  nat_beq_iff,
}
use armchair_analyst.Pools.Keys.{BlockHash, Bloom}
use armchair_analyst.Graph.Types.{Node, BlocksGraph, connected_of}
use armchair_analyst.Graph.Walks.{connected_oldest_to_newest}
use armchair_analyst.Graph.Fold.{BloomApi}
use armchair_analyst.Graph.Queries.{
  MissingRange, is_hole, single_range, add_hole, ranges_walk, missing_complete_ranges,
}

-- A hole of the path: its number and its hash.
abbrev pub Hole : Type 0
Hole = ℕ × BlockHash

-- The holes of a path, up to the first block that is not connected (none, on the path that the walk gives).
unfoldable pub path_holes :
    BloomApi → List Bloom → List ℕ → Map BlockHash Node → List BlockHash → List Hole
path_holes api watched exclude_numbers nodes [] = []
path_holes api watched exclude_numbers nodes (hash ∷ path) =
    elim (connected_of (lookup hash nodes)) [
      | none ↦ []
      | some node ↦ elim (is_hole api watched exclude_numbers node.payload) [
        | true ↦ (node.payload.number, hash) ∷ path_holes api watched exclude_numbers nodes path
        | false ↦ path_holes api watched exclude_numbers nodes path
      ]
    ]

-- The hashes of a range under consecutive numbers.
abbrev pub numbered : ℕ → List BlockHash → List Hole
numbered number [] = []
numbered number (hash ∷ rest) = (number, hash) ∷ numbered (suc number) rest

abbrev pub covered : List MissingRange → List Hole
covered [] = []
covered (range ∷ ranges) = numbered range.from_number range.hashes ++ covered ranges

-- A range ends where its hashes do, and has at least one.
abbrev pub Closed : MissingRange → Type 0
Closed range =
    (count : ℕ) × (length range.hashes ≡ suc count) × (range.to_number ≡ range.from_number + count)

abbrev pub AllClosed : List MissingRange → Type 0
AllClosed [] = Unit {0}
AllClosed (range ∷ ranges) = Closed range × AllClosed ranges

-- Every block number of the path is a `u64` with a successor.
abbrev pub AllNumbers : List Hole → Type 0
AllNumbers [] = Unit {0}
AllNumbers ((number, hash) ∷ holes) = (number + 1 < 2 ^ 64) × AllNumbers holes

numbered-append :
    (number : ℕ) (xs : List BlockHash) (hash : BlockHash)
    → numbered number (xs ++ hash ∷ []) ≡ numbered number xs ++ (number + length xs, hash) ∷ []
numbered-append number [] hash = ap (λ n. (n, hash) ∷ []) (omega arith)
numbered-append number (x ∷ xs) hash =
    ap (λ l. (number, x) ∷ l)
      (numbered-append (suc number) xs hash
        ∙ ap (λ n. numbered (suc number) xs ++ (n, hash) ∷ []) (omega arith))

small_mod : (n : ℕ) → n < 2 ^ 64 → n % 2 ^ 64 ≡ n
small_mod n h = omega arith

-- What the walk keeps of the ranges so far.
abbrev AllSound : List MissingRange → Type 0
AllSound [] = Unit {0}
AllSound (range ∷ ranges) = (Closed range × (range.to_number + 1 < 2 ^ 64)) × AllSound ranges

abbrev Adds : ℕ → BlockHash → List MissingRange → List MissingRange → Type 0
Adds number hash ranges ranges' =
    (covered ranges' ≡ covered ranges ++ (number, hash) ∷ []) × AllSound ranges'

single_range-Closed :
    (number : ℕ) (hash : BlockHash)
    → number + 1 < 2 ^ 64
    → Closed (single_range number hash) × (number + 1 < 2 ^ 64)
single_range-Closed number hash h = ((0, refl, omega arith), h)

add_hole-Adds :
    (number : ℕ) (hash : BlockHash) (ranges : List MissingRange)
    → AllSound ranges
    → number + 1 < 2 ^ 64
    → Adds number hash ranges (add_hole number hash ranges)
unfolding add_hole
add_hole-Adds number hash [] s h = (refl, (single_range-Closed number hash h, tt))
add_hole-Adds number hash (last ∷ []) s h =
    elim (Bool-cases (number == (last.to_number + 1) % 2 ^ 64)) [
      | inr apart ↦ rw apart (
        ap (λ l. l ++ (number, hash) ∷ [])
            (sym (append-nil (numbered last.from_number last.hashes))),
        (s.0, (single_range-Closed number hash h, tt)),
      )
      | inl adjacent ↦
          let ((count, long, ends), fits) = s.0 in
          let follows : number ≡ last.to_number + 1 =
            (nat_beq_iff number _).0 adjacent ∙ small_mod (last.to_number + 1) fits in
          rw adjacent (
            append-nil (numbered last.from_number (last.hashes ++ hash ∷ []))
                ∙ numbered-append last.from_number last.hashes hash
                ∙ ap (λ n. numbered last.from_number last.hashes ++ (n, hash) ∷ [])
                    (omega (arith, long, ends, follows))
                ∙ ap (λ l. l ++ (number, hash) ∷ [])
                    (sym (append-nil (numbered last.from_number last.hashes))),
            (
              (
                (
                  suc count,
                  length-append last.hashes (hash ∷ []) ∙ omega (arith, long),
                  omega (arith, ends, follows),
                ),
                h,
              ),
              tt,
            ),
          )
    ]
add_hole-Adds number hash (range ∷ next ∷ ranges) s h =
    let (shown, sound) = add_hole-Adds number hash (next ∷ ranges) s.1 h in
    (
      ap (λ l. numbered range.from_number range.hashes ++ l) shown
          ∙ sym (
              append_assoc (numbered range.from_number range.hashes) (covered (next ∷ ranges))
                ((number, hash) ∷ [])),
      (s.0, sound),
    )

AllClosed-of_sound : (ranges : List MissingRange) → AllSound ranges → AllClosed ranges
AllClosed-of_sound [] s = tt
AllClosed-of_sound (range ∷ ranges) s = (s.0.0, AllClosed-of_sound ranges s.1)

module _ (api : BloomApi) (watched : List Bloom) (exclude_numbers : List ℕ)
    (nodes : Map BlockHash Node) where
  ranges_walk-covered :
      (path : List BlockHash) (ranges : List MissingRange)
      → AllNumbers (path_holes api watched exclude_numbers nodes path)
      → AllSound ranges
      → (covered (ranges_walk api watched exclude_numbers nodes ranges path)
          ≡ covered ranges ++ path_holes api watched exclude_numbers nodes path)
        × AllSound (ranges_walk api watched exclude_numbers nodes ranges path)
  unfolding ranges_walk path_holes
  ranges_walk-covered [] ranges b s = (sym (append-nil (covered ranges)), s)
  ranges_walk-covered (hash ∷ path) ranges b s =
      elim (Option-cases (connected_of (lookup hash nodes))) [
        | inl gone ↦ rw (gone, ranges_walk, path_holes) (sym (append-nil (covered ranges)), s)
        | inr (node, at) ↦ elim (Bool-cases (is_hole api watched exclude_numbers node.payload)) [
          | inl hole ↦
              let b' : AllNumbers (
                  (node.payload.number, hash) ∷ path_holes api watched exclude_numbers nodes path) =
                rw (hole, path_holes) at (rw (at, path_holes) at b) in
              let (shown, sound) = add_hole-Adds node.payload.number hash ranges s b'.0 in
              let (rest, sound') =
                ranges_walk-covered path (add_hole node.payload.number hash ranges) b'.1 sound in
              rw (at, ranges_walk, path_holes)
                (rw (hole, ranges_walk, path_holes)
                  (
                    rest
                        ∙ ap (λ l. l ++ path_holes api watched exclude_numbers nodes path) shown
                        ∙ append_assoc (covered ranges) ((node.payload.number, hash) ∷ [])
                            (path_holes api watched exclude_numbers nodes path),
                    sound',
                  ))
          | inr clear ↦
              let b' : AllNumbers (path_holes api watched exclude_numbers nodes path) =
                rw (clear, path_holes) at (rw (at, path_holes) at b) in
              rw (at, ranges_walk, path_holes)
                (rw (clear, ranges_walk, path_holes) (ranges_walk-covered path ranges b' s))
        ]
      ]

-- The ranges to verify cover exactly the holes of the path, under their own numbers and in order: each
-- range starts at its first hole, ends at its last, and holds one hash for each number between, if the
-- numbers of the holes leave room for a successor in a u64.
pub missing_complete_ranges-covered :
    (api : BloomApi) (g : BlocksGraph) (target : BlockHash) (watched : List Bloom)
    (exclude_numbers : List ℕ)
    → AllNumbers
        (path_holes api watched exclude_numbers g.nodes (connected_oldest_to_newest g target))
    → (covered (missing_complete_ranges api g target watched exclude_numbers)
        ≡ path_holes api watched exclude_numbers g.nodes (connected_oldest_to_newest g target))
      × AllClosed (missing_complete_ranges api g target watched exclude_numbers)
unfolding missing_complete_ranges
missing_complete_ranges-covered api g target watched exclude_numbers b =
    let path = connected_oldest_to_newest g target in
    let (shown, sound) = ranges_walk-covered api watched exclude_numbers g.nodes path [] b tt in
    (shown, AllClosed-of_sound _ sound)
