-- ===== src/Execution/Results.antt =====
-- What the executors hand out, against the relational operations that they implement.
use disk_oriented_concurrenc.Base.{
  ℕ, zero, suc, ◌+◌, ◌%◌, ◌<◌, ◌≡◌, refl, ap, ◌∙◌, sym, Bool, true, false, Option, none, some, List,
  [], ◌∷◌, ◌++◌, arith, length, leb, subst, Option-cases, Bool-cases, inl, inr,
}
use disk_oriented_concurrenc.Execution.{
  NestedLoopJoin, matches, init_join, next_from, next_join, drain_join, init_limit, next_limit,
  drain_limit,
}

module _ {ℓ κ ι} {A : Type ℓ} {B : Type κ} {C : Type ι} (predicate : Option (A → B → Bool))
    (output : A → B → C) where
  -- Every pair of a tuple of one list and a tuple of the other, the first list's order first.
  abbrev pub pair_with : A → List B → List (A × B)
  pair_with a [] = []
  pair_with a (b ∷ right) = (a, b) ∷ pair_with a right

  abbrev pub product : List A → List B → List (A × B)
  product [] right = []
  product (a ∷ left) right = pair_with a right ++ product left right

  -- The pairs for which the predicate, if there is one, is true, as output tuples.
  abbrev pub select : List (A × B) → List C
  select [] = []
  select (p ∷ ps) = elim predicate [
    | none ↦ output p.0 p.1 ∷ select ps
    | some test ↦ elim (test p.0 p.1) [ true ↦ output p.0 p.1 ∷ select ps | false ↦ select ps ]
  ]

  -- The join of two lists of tuples: what the predicate selects of their product.
  abbrev pub join : List A → List B → List C
  join left right = select (product left right)

  -- The loop over the right child selects of one left tuple's pairs.
  matches-select :
      (a : A) (right : List B) (ps : List (A × B))
      → matches predicate output a right ++ select ps ≡ select (pair_with a right ++ ps)
  unfolding matches
  matches-select a [] ps = refl
  matches-select a (b ∷ right) ps =
      let ih = matches-select a right ps in
      elim (Option-cases predicate) [
        | inl e ↦ ground (arith, e, ih)
        | inr (test, e) ↦ elim (Bool-cases (test a b)) [
          | inl k ↦ ground (arith, e, k, ih)
          | inr k ↦ ground (arith, e, k, ih)
        ]
      ]

  -- What a state of the executor has still to give.
  abbrev rest : NestedLoopJoin A B C → List C
  rest e = e.tmp_results ++ join e.left e.right

  -- A call of `Next` takes the first of them.
  abbrev Gives : List C → NestedLoopJoin A B C × Option C → Type ι
  Gives l (e, none) = l ≡ []
  Gives l (e, some c) = l ≡ c ∷ rest e

  next_from_lem :
      (right : List B) (queue : List C) (left : List A)
      → Gives (queue ++ join left right) (next_from predicate output right queue left)
  unfolding next_from
  next_from_lem right (c ∷ queue) left = refl
  next_from_lem right [] [] = refl
  next_from_lem right [] (a ∷ left) =
      subst
        (λ l. Gives l (next_from predicate output right (matches predicate output a right) left))
        (matches-select a right (product left right))
        (next_from_lem right (matches predicate output a right) left)

  -- What is handed out after a call.
  abbrev after : ℕ → NestedLoopJoin A B C × Option C → List C
  after n w = elim w.1 [ none ↦ [] | some c ↦ c ∷ drain_join predicate output n w.0 ]

  drained :
      (n : ℕ) (e : NestedLoopJoin A B C) (w : NestedLoopJoin A B C × Option C)
      → next_join predicate output e ≡ w
      → Gives (rest e) w
      → ((e' : NestedLoopJoin A B C)
          → length (rest e') < n
          → drain_join predicate output n e' ≡ rest e')
      → length (rest e) < suc n
      → drain_join predicate output (suc n) e ≡ rest e
  unfolding drain_join
  drained n e (e', none) q g ih h = subst (λ x. after n x ≡ rest e) (sym q) (sym g)
  drained n e (e', some c) q g ih h =
      let l : length (rest e) ≡ suc (length (rest e')) = ap length g in
      subst (λ x. after n x ≡ rest e) (sym q)
        (ap (λ t. c ∷ t) (ih e' (omega (arith, l, h))) ∙ sym g)

  drain_lem :
      (n : ℕ) (e : NestedLoopJoin A B C)
      → length (rest e) < n
      → drain_join predicate output n e ≡ rest e
  unfolding next_join
  drain_lem zero e h = absurd (omega (arith, h))
  drain_lem (suc n) e h =
      drained n e (next_join predicate output e) refl (next_from_lem e.right e.tmp_results e.left)
        (λ e' l. drain_lem n e' l) h

  -- An executor that starts with an empty queue hands out, in their order, exactly the output tuples of
  -- those pairs of the product of its children, the left child's order first, for which the predicate is
  -- true, or of all pairs when there is no predicate, and then answers false: more
  -- calls of `Next` than the join has tuples change nothing.
  pub drain_join-join :
      (left : List A) (right : List B) (n : ℕ)
      → length (join left right) < n
      → drain_join predicate output n (init_join left right []) ≡ join left right
  unfolding init_join
  drain_join-join left right n h =
      drain_lem n (record { left = left; right = right; tmp_results = [] }) h

module _ {ℓ} {A : Type ℓ} where
  -- the first `n` entries
  abbrev pub take : ℕ → List A → List A
  take zero l = []
  take (suc n) [] = []
  take (suc n) (a ∷ l) = a ∷ take n l

  limited :
      (limit numbers k : ℕ) (child : List A) (n : ℕ)
      → numbers + k ≡ limit
      → numbers + length child < 18446744073709551616
      → length child < n
      → drain_limit limit n (record { child = child; numbers = numbers }) ≡ take k child
  unfolding drain_limit next_limit
  limited limit numbers zero [] (suc n) e b h = refl
  limited limit numbers (suc k) [] (suc n) e b h = refl
  limited limit numbers k child zero e b h = absurd (omega (arith, h))
  limited limit numbers zero (a ∷ child) (suc n) e b h =
      let c : leb ((numbers + 1) % 18446744073709551616) limit ≡ false = ground arith in
      ground (arith, c)
  limited limit numbers (suc k) (a ∷ child) (suc n) e b h =
      let m : (numbers + 1) % 18446744073709551616 ≡ numbers + 1 = omega (arith, b) in
      let c : leb (numbers + 1) limit ≡ true = ground arith in
      let ih =
        limited limit (numbers + 1) k child n (omega (arith, e)) (omega (arith, b))
          (omega (arith, h)) in
      ground (arith, m, c, ih)

  -- A limit over a child of fewer than 2^64 tuples hands out the first `limit` of them and then answers
  -- false.
  pub drain_limit-take :
      (limit : ℕ) (child : List A) (n : ℕ)
      → length child < 18446744073709551616
      → length child < n
      → drain_limit limit n (init_limit child) ≡ take limit child
  unfolding init_limit
  drain_limit-take limit child n b h =
      limited limit 0 limit child n (omega arith) (omega (arith, b)) h
