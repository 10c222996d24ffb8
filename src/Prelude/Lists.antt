-- ===== src/Prelude/Lists.antt =====
-- Lists measured by the native numbers, under the library's names, with Boolean membership.
use Prim.Native.Nat.{ℕ, suc, ◌+◌, ◌≤◌}
use mathlib.Core.Logic.{◌⊎◌, inl, inr}
use mathlib.Core.Path.{◌≡◌, refl}
use mathlib.Core.Bool.{Bool, true, false, ◌||◌}
use mathlib.Core.List.{List, [], ◌∷◌, ◌++◌}
use native.Mathlib.Omega.{arith}
use armchair_analyst.Prelude.Tests.{KeyEq, ◌==◌, if◌then◌else◌}

module _ {ℓ} {A : Type ℓ} where
  abbrev pub length : List A → ℕ
  length [] = 0
  length (x ∷ xs) = suc (length xs)

  -- `Iterator::filter` with a Boolean test.
  abbrev pub filter_by : (A → Bool) → List A → List A
  filter_by p [] = []
  filter_by p (x ∷ xs) = if p x then x ∷ filter_by p xs else filter_by p xs

  abbrev pub any_by : (A → Bool) → List A → Bool
  any_by p [] = false
  any_by p (x ∷ xs) = p x || any_by p xs

  pub length-append : (xs ys : List A) → length (xs ++ ys) ≡ length xs + length ys
  length-append [] ys = omega arith
  length-append (x ∷ xs) ys = omega (arith, length-append xs ys)

  pub List-cases : (xs : List A) → (xs ≡ []) ⊎ ((y : A) × (ys : List A) × (xs ≡ y ∷ ys))
  List-cases [] = inl refl
  List-cases (x ∷ xs) = inr (x, xs, refl)

module _ {ℓ} {A : Type ℓ} ⦃e : KeyEq A⦄ where
  -- Membership in a list that stands for a set.
  abbrev pub contains : A → List A → Bool
  contains a [] = false
  contains a (x ∷ xs) = x == a || contains a xs

  -- No element occurs twice.
  abbrev pub Distinct : List A → Type 0
  Distinct [] = Unit {0}
  Distinct (x ∷ xs) = (contains x xs ≡ false) × Distinct xs

  pub contains-append :
      (a : A) (xs ys : List A) → contains a (xs ++ ys) ≡ (contains a xs || contains a ys)
  contains-append a [] ys = refl
  contains-append a (x ∷ xs) ys = ground (arith, contains-append a xs ys)

  drop_elem : A → List A → List A
  drop_elem a [] = []
  drop_elem a (x ∷ xs) = if x == a then xs else x ∷ drop_elem a xs

  length-drop_elem :
      (a : A) (xs : List A) → contains a xs ≡ true → suc (length (drop_elem a xs)) ≡ length xs
  unfolding drop_elem
  length-drop_elem a [] h = cc
  length-drop_elem a (x ∷ xs) h = ground (arith, length-drop_elem a xs)

  contains-drop_elem :
      (a b : A) (xs : List A)
      → (b == a) ≡ false
      → contains b xs ≡ true
      → contains b (drop_elem a xs) ≡ true
  unfolding drop_elem
  contains-drop_elem a b [] n h = h
  contains-drop_elem a b (x ∷ xs) n h =
      ground (arith, contains-drop_elem a b xs n, e.beq_iff x a, e.beq_iff x b, e.beq_iff b a)

  -- Every element of one list is in the other.
  abbrev pub Within : List A → List A → Type ℓ
  Within xs ys = (a : A) → contains a xs ≡ true → contains a ys ≡ true

  -- The pigeonhole principle: a list with no repeats inside another is no longer.
  pub length-le_of_Within : (xs ys : List A) → Distinct xs → Within xs ys → length xs ≤ length ys
  length-le_of_Within [] ys d w = omega arith
  length-le_of_Within (x ∷ xs) ys d w =
      let here = w x (ground (arith, e.beq_iff x x)) in
      omega (
        arith,
        length-drop_elem x ys here,
        length-le_of_Within xs (drop_elem x ys) d.1 λ a h.
            contains-drop_elem x a ys (ground (arith, d.0, e.beq_iff a x))
              (w a (ground (arith, h))),
      )
