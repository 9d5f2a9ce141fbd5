-- ===== src/HashJoin.antt =====
-- src/execution/hash_join_executor.cpp and src/include/execution/executors/hash_join_executor.h. The map is an
-- association list whose keys are compared by a test, a child is the list of the tuples that it still gives,
-- and a call of `Next` that answers false is none.
pub mod Agrees
mod Tests
use disk_oriented_concurrenc.Base.{
  ℕ, zero, suc, ◌≡◌, Bool, true, false, Option, none, some, List, [], ◌∷◌, ◌++◌, if◌then◌else◌,
}

pub record HashJoin {ℓ κ ι μ} (K : Type ℓ) (A : Type κ) (B : Type ι) (C : Type μ)
    : Type (ℓ ⊔ κ ⊔ ι ⊔ μ) where
  pub table : List (K × List A)
  pub right : List B
  pub tmp_results : List C

module _ {ℓ κ ι μ} {K : Type ℓ} {A : Type κ} {B : Type ι} {C : Type μ} (same : K → K → Bool)
    (left_key : A → K) (right_key : B → K) (output : A → B → C) where
  -- `Insert` of the map: at the end of the key's tuples, or as a new entry.
  unfoldable pub insert : K → A → List (K × List A) → List (K × List A)
  insert k a [] = (k, a ∷ []) ∷ []
  insert k a (e ∷ table) =
      let rest = insert k a table in if same k e.0 then (e.0, e.1 ++ a ∷ []) ∷ table else e ∷ rest

  -- `Get`, of no tuples where `Count` is 0.
  unfoldable pub get : K → List (K × List A) → List A
  get k [] = []
  get k (e ∷ table) = let rest = get k table in if same k e.0 then e.1 else rest

  -- The loop of `Init` over the left child.
  unfoldable pub insert_all : List A → List (K × List A) → List (K × List A)
  unfolding insert
  insert_all [] table = table
  insert_all (a ∷ left) table = insert_all left (insert (left_key a) a table)

  unfoldable pub init : List A → List B → List C → HashJoin K A B C
  unfolding insert_all
  init left right tmp_results = record {
    table = insert_all left [];
    right = right;
    tmp_results = tmp_results;
  }

  -- The results of one right tuple.
  unfoldable pub form : B → List A → List C
  form b [] = []
  form b (a ∷ tuples) = output a b ∷ form b tuples

  -- `Next` from its test of the queue on, over what is left of the right child.
  unfoldable pub next_from : List (K × List A) → List C → List B → HashJoin K A B C × Option C
  unfolding form get
  next_from table (c ∷ queue) right =
      (record { table = table; right = right; tmp_results = queue }, some c)
  next_from table [] [] = (record { table = table; right = []; tmp_results = [] }, none)
  next_from table [] (b ∷ right) = next_from table (form b (get (right_key b) table)) right

  unfoldable pub next : HashJoin K A B C → HashJoin K A B C × Option C
  unfolding next_from
  next e = next_from e.table e.tmp_results e.right

  -- The tuples of up to `n` calls of `Next`, until one answers false.
  unfoldable pub drain : ℕ → HashJoin K A B C → List C
  unfolding next
  drain zero e = []
  drain (suc n) e = let (e', tuple) = next e in elim tuple [ none ↦ [] | some c ↦ c ∷ drain n e' ]
