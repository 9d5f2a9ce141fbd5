-- ===== src/Base/Assoc.antt =====
-- A map as a function, and as an association list over native keys.
use Prim.Native.Nat.{ℕ}
use mathlib.Core.Path.{◌≡◌, fun_ext}
use mathlib.Core.Bool.{Bool, true, false}
use mathlib.Core.List.{List, [], ◌∷◌}
use mathlib.Core.Option.{Option, none, some}
use native.Mathlib.Omega.{arith}
use disk_oriented_concurrenc.Base.Tests.{◌==◌, if◌then◌else◌}

abbrev pub is_some {ℓ} : {A : Type ℓ} → Option A → Bool
is_some none = false
is_some (some a) = true

module _ {ℓ} {V : Type ℓ} where
  -- `f[k] = v`
  abbrev pub update : (ℕ → V) → ℕ → V → ℕ → V
  update f k v q = if q == k then v else f q

  pub update_comm :
      (f : ℕ → V) (j k : ℕ) (v : V) → update (update f j v) k v ≡ update (update f k v) j v
  update_comm f j k v = fun_ext λ q. ground arith

  unfoldable pub lookup : ℕ → List (ℕ × V) → Option V
  lookup k [] = none
  lookup k ((j, v) ∷ m) = if k == j then some v else lookup k m

  unfoldable pub erase : ℕ → List (ℕ × V) → List (ℕ × V)
  erase k [] = []
  erase k ((j, v) ∷ m) = let rest = erase k m in if k == j then rest else (j, v) ∷ rest

  unfoldable pub insert : ℕ → V → List (ℕ × V) → List (ℕ × V)
  insert k v m = (k, v) ∷ erase k m

  pub lookup-erase :
      (k q : ℕ) (m : List (ℕ × V)) → lookup q (erase k m) ≡ (if q == k then none else lookup q m)
  unfolding lookup erase
  lookup-erase k q [] = ground arith
  lookup-erase k q ((j, v) ∷ m) = ground (arith, lookup-erase k q m)

  pub lookup-insert :
      (k q : ℕ) (v : V) (m : List (ℕ × V))
      → lookup q (insert k v m) ≡ (if q == k then some v else lookup q m)
  unfolding lookup insert
  lookup-insert k q v m = ground (arith, lookup-erase k q m)

  -- No key stands twice.
  abbrev pub DistinctKeys : List (ℕ × V) → Type 0
  DistinctKeys [] = Unit {0}
  DistinctKeys ((k, v) ∷ m) = (is_some (lookup k m) ≡ false) × DistinctKeys m

  pub erase-DistinctKeys : (k : ℕ) (m : List (ℕ × V)) → DistinctKeys m → DistinctKeys (erase k m)
  unfolding erase
  erase-DistinctKeys k [] d = tt
  erase-DistinctKeys k ((j, v) ∷ m) d =
      ground (arith, lookup-erase k j m, erase-DistinctKeys k m d.1)

  pub insert-DistinctKeys :
      (k : ℕ) (v : V) (m : List (ℕ × V)) → DistinctKeys m → DistinctKeys (insert k v m)
  unfolding insert
  insert-DistinctKeys k v m d = ground (arith, lookup-erase k k m, erase-DistinctKeys k m d)
