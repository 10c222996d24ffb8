-- ===== src/Prelude/Sorted.antt =====
-- Rust's `BTreeMap<u64, V>` as an association list with ascending keys: lookup, insertion, bulk
-- insertion, and the facts that fix such a map by its lookups.
use Prim.Native.Nat.{ℕ, ◌<◌, ◌≤◌}
use mathlib.Core.Path.{◌≡◌, refl, sym, subst, ◌∙◌}
use mathlib.Core.List.{List, [], ◌∷◌}
use mathlib.Core.Option.{Option, none, some}
use native.Mathlib.Omega.{arith}
use mathlib.Core.Logic.{inl, inr}
use armchair_analyst.Prelude.Tests.{
  ltb, nat_beq, nat_eq, Bool-cases, nat_beq_iff, ltb→lt, if◌then◌else◌,
}
use armchair_analyst.Prelude.Assoc.{lookup}

abbrev pub SortedMap {ℓ} : Type ℓ → Type ℓ
SortedMap V = List (ℕ × V)

module _ {V : Type 0} where
  -- `BTreeMap::insert`.
  unfoldable pub insert_sorted : ℕ → V → SortedMap V → SortedMap V
  insert_sorted k v [] = (k, v) ∷ []
  insert_sorted k v ((j, w) ∷ m) =
      if ltb k j
      then (k, v) ∷ (j, w) ∷ m
      else if nat_beq k j
      then (k, v) ∷ m
      else (j, w) ∷ insert_sorted k v m

  -- `BTreeMap::extend`, in the order of the new entries: a later entry replaces an earlier one.
  unfoldable pub extend_sorted : SortedMap V → List (ℕ × V) → SortedMap V
  unfolding insert_sorted
  extend_sorted m [] = m
  extend_sorted m ((k, v) ∷ es) = extend_sorted (insert_sorted k v m) es

  abbrev pub values : SortedMap V → List V
  values [] = []
  values ((k, v) ∷ m) = v ∷ values m

  -- The first key, if there is one, is above `n`.
  abbrev pub Above : ℕ → SortedMap V → Type 0
  Above n [] = Unit {0}
  Above n ((k, v) ∷ m) = n < k

  abbrev pub IsSorted : SortedMap V → Type 0
  IsSorted [] = Unit {0}
  IsSorted ((k, v) ∷ m) = Above k m × IsSorted m

  pub insert_sorted-Above :
      (n k : ℕ) (v : V) (m : SortedMap V) → n < k → Above n m → Above n (insert_sorted k v m)
  unfolding insert_sorted
  insert_sorted-Above n k v [] h a = h
  insert_sorted-Above n k v ((j, w) ∷ m) h a = ground arith

  pub insert_sorted-IsSorted :
      (k : ℕ) (v : V) (m : SortedMap V) → IsSorted m → IsSorted (insert_sorted k v m)
  unfolding insert_sorted
  insert_sorted-IsSorted k v [] s = (tt, tt)
  insert_sorted-IsSorted k v ((j, w) ∷ m) s = elim (Bool-cases (ltb k j)) [
    | inl below ↦ rw below (omega (arith, ltb→lt k j below), s)
    | inr above ↦ rw above (elim (Bool-cases (nat_beq k j)) [
      | inl same ↦ rw same (subst (λ i. Above i m) (sym ((nat_beq_iff k j).0 same)) s.0, s.1)
      | inr other ↦
          rw other
            (insert_sorted-Above j k v m (ground arith) s.0, insert_sorted-IsSorted k v m s.1)
    ])
  ]

  pub extend_sorted-IsSorted :
      (es : List (ℕ × V)) (m : SortedMap V) → IsSorted m → IsSorted (extend_sorted m es)
  unfolding extend_sorted
  extend_sorted-IsSorted [] m s = s
  extend_sorted-IsSorted ((k, v) ∷ es) m s =
      extend_sorted-IsSorted es (insert_sorted k v m) (insert_sorted-IsSorted k v m s)

  pub lookup-insert_sorted :
      (i k : ℕ) (v : V) (m : SortedMap V)
      → lookup i (insert_sorted k v m) ≡ (if nat_beq k i then some v else lookup i m)
  unfolding insert_sorted lookup
  lookup-insert_sorted i k v [] = refl
  lookup-insert_sorted i k v ((j, w) ∷ m) = ground (arith, lookup-insert_sorted i k v m)

  -- A later entry of the list wins over an earlier one, and over the map.
  unfoldable pub last_of : ℕ → List (ℕ × V) → Option V
  last_of i [] = none
  last_of i ((k, v) ∷ es) = elim (last_of i es) [
    | some w ↦ some w
    | none ↦ if nat_beq k i then some v else none
  ]

  pub lookup-extend_sorted :
      (i : ℕ) (es : List (ℕ × V)) (m : SortedMap V)
      → lookup i (extend_sorted m es) ≡ elim (last_of i es) [ some v ↦ some v | none ↦ lookup i m ]
  unfolding extend_sorted last_of
  lookup-extend_sorted i [] m = refl
  lookup-extend_sorted i ((k, v) ∷ es) m =
      ground (arith, lookup-extend_sorted i es (insert_sorted k v m), lookup-insert_sorted i k v m)

  pub lookup-Above :
      (i n : ℕ) (m : SortedMap V) → IsSorted m → Above n m → i ≤ n → lookup i m ≡ none
  unfolding lookup
  lookup-Above i n [] s a h = refl
  lookup-Above i n ((k, v) ∷ m) s a h = ground (arith, lookup-Above i k m s.1 s.0)

  tail_agrees :
      (k : ℕ) (v w : V) (m n : SortedMap V)
      → IsSorted ((k, v) ∷ m)
      → IsSorted ((k, w) ∷ n)
      → ((i : ℕ) → lookup i ((k, v) ∷ m) ≡ lookup i ((k, w) ∷ n))
      → (i : ℕ) → lookup i m ≡ lookup i n
  unfolding lookup
  tail_agrees k v w m n s t h i =
      ground (arith, h i, lookup-Above i k m s.1 s.0, lookup-Above i k n t.1 t.0)

  head_key :
      (j k : ℕ) (v w : V) (m n : SortedMap V)
      → IsSorted ((j, v) ∷ m)
      → IsSorted ((k, w) ∷ n)
      → ((i : ℕ) → lookup i ((j, v) ∷ m) ≡ lookup i ((k, w) ∷ n))
      → (j ≡ k) × (v ≡ w)
  unfolding lookup
  head_key j k v w m n s t h =
      ground (arith, h j, h k, lookup-Above j k n t.1 t.0, lookup-Above k j m s.1 s.0)

  -- Two ascending maps with the same lookups are the same map.
  pub sorted_ext :
      (m n : SortedMap V) → IsSorted m → IsSorted n → ((i : ℕ) → lookup i m ≡ lookup i n) → m ≡ n
  unfolding lookup
  sorted_ext [] [] s t h = refl
  sorted_ext [] ((k, w) ∷ n) s t h = ground (arith, h k)
  sorted_ext ((j, v) ∷ m) [] s t h = ground (arith, h j)
  sorted_ext ((j, v) ∷ m) ((k, w) ∷ n) s t h =
      let (jk, vw) = head_key j k v w m n s t h in
      let rest = sorted_ext m n s.1 t.1 (
        tail_agrees j v w m n s (subst (λ i. Above i n × IsSorted n) (sym jk) t)
          (λ i. subst (λ q. lookup i ((j, v) ∷ m) ≡ lookup i ((q, w) ∷ n)) (sym jk) (h i))) in
      ground (arith, jk, vw, rest)

  -- In an ascending map the only entry of a key is the last one.
  pub last_of-lookup : (i : ℕ) (m : SortedMap V) → IsSorted m → last_of i m ≡ lookup i m
  unfolding last_of lookup
  last_of-lookup i [] s = refl
  last_of-lookup i ((k, v) ∷ m) s =
      ground (arith, last_of-lookup i m s.1, lookup-Above i k m s.1 s.0)

  pub lookup_of_entries :
      (i : ℕ) (es : List (ℕ × V)) → lookup i (extend_sorted [] es) ≡ last_of i es
  unfolding lookup
  lookup_of_entries i es = lookup-extend_sorted i es [] ∙ some_or_none (last_of i es)
    where
      some_or_none :
          (o : Option V) → elim o as (λ _. Option V) [ some v ↦ some v | none ↦ none ] ≡ o
      some_or_none none = refl
      some_or_none (some v) = refl
