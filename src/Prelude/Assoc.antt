-- ===== src/Prelude/Assoc.antt =====
-- Rust's `HashMap` as an association list: the order of the list is one iteration order that the
-- hash map may have.
use Prim.Native.Nat.{suc}
use mathlib.Core.Path.{◌≡◌, refl, ap, subst}
use mathlib.Core.Logic.{inl, inr}
use mathlib.Core.Bool.{Bool}
use mathlib.Core.List.{List, [], ◌∷◌}
use mathlib.Core.Option.{Option, none, some}
use native.Mathlib.Omega.{arith}
use armchair_analyst.Prelude.Tests.{KeyEq, ◌==◌, Bool-cases, if◌then◌else◌, is_some}
use armchair_analyst.Prelude.Lists.{length, contains}

abbrev pub Map {ℓ κ} : Type ℓ → Type κ → Type (ℓ ⊔ κ)
Map K V = List (K × V)

module _ {ℓ κ} {K : Type ℓ} {V : Type κ} ⦃e : KeyEq K⦄ where
  unfoldable pub lookup : K → Map K V → Option V
  lookup k [] = none
  lookup k ((j, v) ∷ m) = if j == k then some v else lookup k m

  -- `HashMap::insert`: an old value of the key is replaced.
  unfoldable pub insert : K → V → Map K V → Map K V
  insert k v [] = (k, v) ∷ []
  insert k v ((j, w) ∷ m) = if j == k then (k, v) ∷ m else (j, w) ∷ insert k v m

  -- `HashMap::remove`.
  unfoldable pub remove : K → Map K V → Map K V
  remove k [] = []
  remove k ((j, w) ∷ m) = if j == k then remove k m else (j, w) ∷ remove k m

  unfoldable pub contains_key : K → Map K V → Bool
  unfolding lookup
  contains_key k m = is_some (lookup k m)

  abbrev pub keys : Map K V → List K
  keys [] = []
  keys ((k, v) ∷ m) = k ∷ keys m

  -- `HashMap::retain`, and `filter` with `collect`, on keys and values.
  unfoldable pub retain : (K → V → Bool) → Map K V → Map K V
  retain p [] = []
  retain p ((k, v) ∷ m) = if p k v then (k, v) ∷ retain p m else retain p m

  -- At most one entry for a key: what a hash map gives by its type.
  abbrev pub UniqueKeys : Map K V → Type κ
  UniqueKeys [] = Unit
  UniqueKeys ((k, v) ∷ m) = (lookup k m ≡ none) × UniqueKeys m

  pub lookup-insert :
      (j k : K) (v : V) (m : Map K V)
      → lookup j (insert k v m) ≡ (if k == j then some v else lookup j m)
  unfolding lookup insert
  lookup-insert j k v [] = refl
  lookup-insert j k v ((i, w) ∷ m) =
      ground (arith, e.beq_iff k j, e.beq_iff i k, e.beq_iff i j, lookup-insert j k v m)

  pub lookup-remove :
      (j k : K) (m : Map K V) → lookup j (remove k m) ≡ (if k == j then none else lookup j m)
  unfolding lookup remove
  lookup-remove j k [] = ground arith
  lookup-remove j k ((i, w) ∷ m) =
      ground (arith, e.beq_iff k j, e.beq_iff i k, e.beq_iff i j, lookup-remove j k m)

  pub insert-UniqueKeys : (k : K) (v : V) (m : Map K V) → UniqueKeys m → UniqueKeys (insert k v m)
  unfolding insert lookup
  insert-UniqueKeys k v [] u = (refl, tt)
  insert-UniqueKeys k v ((j, w) ∷ m) u =
      ground
        (arith, insert-UniqueKeys k v m u.1, lookup-insert j k v m, e.beq_iff k j, e.beq_iff j k)

  pub remove-UniqueKeys : (k : K) (m : Map K V) → UniqueKeys m → UniqueKeys (remove k m)
  unfolding remove
  remove-UniqueKeys k [] u = tt
  remove-UniqueKeys k ((j, w) ∷ m) u =
      ground (arith, remove-UniqueKeys k m u.1, lookup-remove j k m)

  pub retain_fresh :
      (j : K) (p : K → V → Bool) (m : Map K V) → lookup j m ≡ none → lookup j (retain p m) ≡ none
  unfolding lookup retain
  retain_fresh j p [] h = refl
  retain_fresh j p ((k, v) ∷ m) h = ground (arith, retain_fresh j p m)

  pub retain-UniqueKeys : (p : K → V → Bool) (m : Map K V) → UniqueKeys m → UniqueKeys (retain p m)
  unfolding retain
  retain-UniqueKeys p [] u = tt
  retain-UniqueKeys p ((k, v) ∷ m) u = ground (arith, retain-UniqueKeys p m u.1, retain_fresh k p m)

  pub lookup-retain :
      (j : K) (p : K → V → Bool) (m : Map K V)
      → UniqueKeys m
      → lookup j (retain p m)
        ≡ elim (lookup j m) [ none ↦ none | some v ↦ if p j v then some v else none ]
  unfolding lookup retain
  lookup-retain j p [] u = refl
  lookup-retain j p ((k, v) ∷ m) u =
      ground (arith, lookup-retain j p m u.1, e.beq_iff k j, retain_fresh j p m)

  pub contains-keys : (j : K) (m : Map K V) → contains j (keys m) ≡ is_some (lookup j m)
  unfolding lookup
  contains-keys j [] = refl
  contains-keys j ((k, v) ∷ m) = ground (arith, contains-keys j m)

  pub length-keys : (m : Map K V) → length (keys m) ≡ length m
  length-keys [] = refl
  length-keys ((k, v) ∷ m) = omega (arith, length-keys m)

  -- To remove an absent key changes nothing.
  pub remove-absent : (k : K) (m : Map K V) → lookup k m ≡ none → remove k m ≡ m
  unfolding lookup remove
  remove-absent k [] h = refl
  remove-absent k ((j, v) ∷ m) h = ground (arith, remove-absent k m)

  -- A second insertion under one key replaces the first.
  pub insert-insert : (k : K) (v w : V) (m : Map K V) → insert k v (insert k w m) ≡ insert k v m
  unfolding insert
  insert-insert k v w [] = ground (arith, e.beq_iff k k)
  insert-insert k v w ((j, u) ∷ m) = ground (arith, e.beq_iff k k, insert-insert k v w m)

  pub length-insert_fresh :
      (k : K) (v : V) (m : Map K V) → lookup k m ≡ none → length (insert k v m) ≡ suc (length m)
  unfolding lookup insert
  length-insert_fresh k v [] h = refl
  length-insert_fresh k v ((j, w) ∷ m) h = ground (arith, length-insert_fresh k v m)

  pub length-remove_present :
      (k : K) (v : V) (m : Map K V)
      → UniqueKeys m
      → lookup k m ≡ some v
      → suc (length (remove k m)) ≡ length m
  unfolding lookup remove
  length-remove_present k v [] u h = absurd (ground (arith, h))
  length-remove_present k v ((j, w) ∷ m) u h = elim (Bool-cases (j == k)) [
    | inl here ↦
        let same = (e.beq_iff j k).0 here in
        rw here
          (ap (λ l. suc (length l)) (remove-absent k m (subst (λ i. lookup i m ≡ none) same u.0)))
    | inr there ↦ rw there (ap suc (length-remove_present k v m u.1 (rw there at h)))
  ]
