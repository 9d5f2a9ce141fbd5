-- ===== src/Base/Lists.antt =====
-- Lists of native numbers: length, membership, removal, distinctness, and the pigeonhole bound.
use Prim.Native.Nat.{ℕ, zero, suc, ◌+◌, ◌≤◌, ◌<◌}
use mathlib.Core.Path.{◌≡◌, refl, ap}
use mathlib.Core.Logic.{inl, inr}
use mathlib.Core.Bool.{Bool, true, false, ◌||◌}
use mathlib.Core.List.{List, [], ◌∷◌, ◌++◌}
use mathlib.Core.Option.{Option, none, some}
use native.Mathlib.Omega.{arith}
use disk_oriented_concurrenc.Base.Tests.{◌==◌, if◌then◌else◌, Bool-cases, Option-cases}

module _ {ℓ} {A : Type ℓ} where
  abbrev pub length : List A → ℕ
  length [] = 0
  length (x ∷ xs) = suc (length xs)

  pub length-append : (xs ys : List A) → length (xs ++ ys) ≡ length xs + length ys
  length-append [] ys = omega arith
  length-append (x ∷ xs) ys = omega (arith, length-append xs ys)

  -- the last entry and the entries before it
  abbrev pub unsnoc : List A → Option (List A × A)
  unsnoc [] = none
  unsnoc (x ∷ xs) = elim (unsnoc xs) [ none ↦ some ([], x) | some (l, y) ↦ some (x ∷ l, y) ]

  pub length-unsnoc : (xs l : List A) (y : A) → unsnoc xs ≡ some (l, y) → length xs ≡ suc (length l)
  length-unsnoc [] l y h = cc
  length-unsnoc (x ∷ []) l y h = ground arith
  length-unsnoc (x ∷ z ∷ xs) l y h = elim (Option-cases (unsnoc (z ∷ xs))) [
    | inl e ↦ ground arith
    | inr ((l', y'), e) ↦ ground (arith, length-unsnoc (z ∷ xs) l' y' e)
  ]

abbrev pub elem : ℕ → List ℕ → Bool
elem a [] = false
elem a (x ∷ xs) = a == x || elem a xs

-- drops every occurrence
abbrev pub remove : ℕ → List ℕ → List ℕ
remove a [] = []
remove a (x ∷ xs) = let rest = remove a xs in if a == x then rest else x ∷ rest

pub elem-remove :
    (a b : ℕ) (xs : List ℕ) → elem b (remove a xs) ≡ (if b == a then false else elem b xs)
elem-remove a b [] = ground arith
elem-remove a b (x ∷ xs) = ground (arith, elem-remove a b xs)

abbrev pub Distinct : List ℕ → Type 0
Distinct [] = Unit {0}
Distinct (x ∷ xs) = (elem x xs ≡ false) × Distinct xs

pub remove-Distinct : (a : ℕ) (xs : List ℕ) → Distinct xs → Distinct (remove a xs)
remove-Distinct a [] d = tt
remove-Distinct a (x ∷ xs) d = ground (arith, elem-remove a x xs, remove-Distinct a xs d.1)

pub remove_absent : (a : ℕ) (xs : List ℕ) → elem a xs ≡ false → remove a xs ≡ xs
remove_absent a [] h = refl
remove_absent a (x ∷ xs) h = ground (arith, remove_absent a xs)

pub length-remove :
    (a : ℕ) (xs : List ℕ) → Distinct xs → elem a xs ≡ true → length xs ≡ suc (length (remove a xs))
length-remove a [] d h = cc
length-remove a (x ∷ xs) d h = ground (arith, length-remove a xs d.1, remove_absent a xs)

remove-below :
    (n : ℕ) (xs : List ℕ)
    → ((a : ℕ) → elem a xs ≡ true → a < suc n)
    → (a : ℕ) → elem a (remove n xs) ≡ true
    → a < n
remove-below n xs h a e = ground (arith, elem-remove n a xs, h a)

-- Distinct numbers below `n` are at most `n`.
pub pigeonhole :
    (n : ℕ) (xs : List ℕ) → Distinct xs → ((a : ℕ) → elem a xs ≡ true → a < n) → length xs ≤ n
pigeonhole zero [] d h = omega arith
pigeonhole zero (x ∷ xs) d h = ground (arith, h x)
pigeonhole (suc n) xs d h =
    let rest : length (remove n xs) ≤ n =
      pigeonhole n (remove n xs) (remove-Distinct n xs d) (remove-below n xs h) in
    elim (Bool-cases (elem n xs)) [
      | inl e ↦ omega (arith, length-remove n xs d e)
      | inr e ↦ omega (arith, ap length (remove_absent n xs e))
    ]

pub elem-append : (a : ℕ) (xs ys : List ℕ) → elem a (xs ++ ys) ≡ (elem a xs || elem a ys)
elem-append a [] ys = refl
elem-append a (x ∷ xs) ys = ground (arith, elem-append a xs ys)

pub snoc-Distinct :
    (a : ℕ) (xs : List ℕ) → Distinct xs → elem a xs ≡ false → Distinct (xs ++ a ∷ [])
snoc-Distinct a [] d h = (refl, tt)
snoc-Distinct a (x ∷ xs) d h = ground (arith, elem-append x xs (a ∷ []), snoc-Distinct a xs d.1)
