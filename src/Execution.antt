-- ===== src/Execution.antt =====
-- src/execution/nested_loop_join_executor.cpp and limit_executor.cpp. A child executor is the list of
-- the tuples that its calls of `Next` still give, and `Init` gives the whole list again; a call of
-- `Next` that answers false is none.
pub mod Results
mod Tests
use disk_oriented_concurrenc.Base.{
  ℕ, zero, suc, ◌+◌, ◌%◌, ◌≡◌, Bool, true, false, Option, none, some, List, [], ◌∷◌, ◌++◌, leb,
  if◌then◌else◌,
}

-- `tmp_results` is the queue of joined tuples that are not handed out yet.
pub record NestedLoopJoin {ℓ κ ι} (A : Type ℓ) (B : Type κ) (C : Type ι) : Type (ℓ ⊔ κ ⊔ ι) where
  pub left : List A
  pub right : List B
  pub tmp_results : List C

-- A missing predicate accepts every pair.
abbrev pub accepts {ℓ κ} : {A : Type ℓ} {B : Type κ} → Option (A → B → Bool) → A → B → Bool
accepts none a b = true
accepts (some p) a b = p a b

module _ {ℓ κ ι} {A : Type ℓ} {B : Type κ} {C : Type ι} where
  -- The loop of `Next` over the right child: what it pushes for one left tuple.
  unfoldable pub matches : Option (A → B → Bool) → (A → B → C) → A → List B → List C
  matches predicate output a [] = []
  matches predicate output a (b ∷ rest) =
      let more = matches predicate output a rest in
      if accepts predicate a b then output a b ∷ more else more

  -- `Init` starts the left child; the queue stays.
  unfoldable pub init_join : List A → List B → List C → NestedLoopJoin A B C
  init_join left right tmp_results = record {
    left = left;
    right = right;
    tmp_results = tmp_results;
  }

  -- `Next` from its test of the queue on, over what is left of the left child.
  unfoldable pub next_from :
      Option (A → B → Bool)
      → (A → B → C)
      → List B
      → List C
      → List A
      → NestedLoopJoin A B C × Option C
  unfolding matches
  next_from predicate output right (c ∷ queue) left =
      (record { left = left; right = right; tmp_results = queue }, some c)
  next_from predicate output right [] [] =
      (record { left = []; right = right; tmp_results = [] }, none)
  next_from predicate output right [] (a ∷ left) =
      next_from predicate output right (matches predicate output a right) left

  unfoldable pub next_join :
      Option (A → B → Bool) → (A → B → C) → NestedLoopJoin A B C → NestedLoopJoin A B C × Option C
  unfolding next_from
  next_join predicate output e = next_from predicate output e.right e.tmp_results e.left

  -- The tuples of up to `n` calls of `Next`, until one answers false.
  unfoldable pub drain_join :
      Option (A → B → Bool) → (A → B → C) → ℕ → NestedLoopJoin A B C → List C
  unfolding next_join
  drain_join predicate output zero e = []
  drain_join predicate output (suc n) e =
      let (e', tuple) = next_join predicate output e in
      elim tuple [ none ↦ [] | some c ↦ c ∷ drain_join predicate output n e' ]

-- `numbers` counts the tuples that the child gave, in a `size_t`.
pub record Limit {ℓ} (A : Type ℓ) : Type ℓ where
  pub child : List A
  pub numbers : ℕ

module _ {ℓ} {A : Type ℓ} where
  unfoldable pub init_limit : List A → Limit A
  init_limit child = record { child = child; numbers = 0 }

  unfoldable pub next_limit : ℕ → Limit A → Limit A × Option A
  next_limit limit e = elim e.child [
    | [] ↦ (e, none)
    | a ∷ rest ↦
        let n = (e.numbers + 1) % 18446744073709551616 in
        (record { child = rest; numbers = n }, if leb n limit then some a else none)
  ]

  unfoldable pub drain_limit : ℕ → ℕ → Limit A → List A
  unfolding next_limit
  drain_limit limit zero e = []
  drain_limit limit (suc n) e =
      let (e', tuple) = next_limit limit e in
      elim tuple [ none ↦ [] | some a ↦ a ∷ drain_limit limit n e' ]
