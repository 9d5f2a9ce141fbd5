-- ===== src/HashJoin/Agrees.antt =====
-- The hash join gives what the nested-loop join gives of its children exchanged.
use disk_oriented_concurrenc.Base.{
  ℕ, zero, suc, ◌≡◌, refl, sym, ap, subst, ◌∙◌, Bool, true, false, Option, none, some, List, [],
  ◌∷◌, ◌++◌, if◌then◌else◌, arith, Bool-cases, inl, inr,
}
use disk_oriented_concurrenc.HashJoin.{
  HashJoin, insert, get, insert_all, init, form, next_from, next, drain,
}
use disk_oriented_concurrenc.Execution
use disk_oriented_concurrenc.Execution.{NestedLoopJoin, matches, init_join, next_join, drain_join}

append_assoc : {A : Type 0} (xs ys zs : List A) → (xs ++ ys) ++ zs ≡ xs ++ (ys ++ zs)
append_assoc [] ys zs = refl
append_assoc (x ∷ xs) ys zs = ap (λ ws. x ∷ ws) (append_assoc xs ys zs)

append_nil : {A : Type 0} (xs : List A) → xs ++ [] ≡ xs
append_nil [] = refl
append_nil (x ∷ xs) = ap (λ ws. x ∷ ws) (append_nil xs)

met :
    {A : Type 0} (f : A → A) (x y : A) (b : Bool)
    → (if b then f x else y) ≡ (if b then f (if b then x else y) else (if b then x else y))
met f x y true = refl
met f x y false = refl

-- Two tests that do not both hold.
apart :
    {A : Type 0} (f : A → A) (x y : A) (a b : Bool)
    → (a ≡ true → b ≡ true → false ≡ true)
    → (if a then x else if b then f y else y)
      ≡ (if b then f (if a then x else y) else (if a then x else y))
apart f x y true true n = let e = n refl refl in absurd (ground (arith, e))
apart f x y true false n = refl
apart f x y false b n = refl

appended :
    {A : Type 0} (xs : List A) (a : A) (ys : List A) (b : Bool)
    → (if b then xs ++ a ∷ [] else xs) ++ ys ≡ xs ++ (if b then a ∷ ys else ys)
appended xs a ys true = append_assoc xs (a ∷ []) ys
appended xs a ys false = refl

module _ {K A B C : Type 0} (same : K → K → Bool) (left_key : A → K) (right_key : B → K)
    (output : A → B → C) (sound : (a b : K) → same a b ≡ true → a ≡ b)
    (reflexive : (a : K) → same a a ≡ true) where
  abbrev find : K → List (K × List A) → List A
  find = get same left_key right_key output

  -- The tuples of a key, in order.
  abbrev chosen : K → List A → List A
  chosen k [] = []
  chosen k (a ∷ left) = let rest = chosen k left in if same k (left_key a) then a ∷ rest else rest

  differ : (k l m : K) → same l m ≡ false → same k m ≡ true → same k l ≡ true → false ≡ true
  differ k l m p a b = sym p ∙ ap (λ x. same x m) (sym (sound k l b)) ∙ a

  get-insert :
      (k l : K) (a : A) (table : List (K × List A))
      → find k (insert same left_key right_key output l a table)
        ≡ (if same k l then find k table ++ a ∷ [] else find k table)
  unfolding get insert
  get-insert k l a [] = refl
  get-insert k l a (e ∷ table) = elim (Bool-cases (same l e.0)) [
    | inl p ↦
        let q : same k e.0 ≡ same k l = ap (same k) (sym (sound l e.0 p)) in
        rw (p, q) (met (λ xs. xs ++ a ∷ []) e.1 (find k table) (same k l))
    | inr p ↦
        rw (p, get-insert k l a table)
          (apart (λ xs. xs ++ a ∷ []) e.1 (find k table) (same k e.0) (same k l) (differ k l e.0 p))
  ]

  get-insert_all :
      (k : K) (left : List A) (table : List (K × List A))
      → find k (insert_all same left_key right_key output left table)
        ≡ find k table ++ chosen k left
  unfolding insert_all
  get-insert_all k [] table = sym (append_nil (find k table))
  get-insert_all k (a ∷ left) table =
      get-insert_all k left (insert same left_key right_key output (left_key a) a table)
      ∙ ap (λ xs. xs ++ chosen k left) (get-insert k (left_key a) a table)
      ∙ appended (find k table) a (chosen k left) (same k (left_key a))

  form-chosen :
      (b : B) (left : List A)
      → form same left_key right_key output b (chosen (right_key b) left)
        ≡ matches (some (λ v w. same (right_key v) (left_key w))) (λ v w. output w v) b left
  unfolding form matches
  form-chosen b [] = refl
  form-chosen b (a ∷ left) = elim (Bool-cases (same (right_key b) (left_key a))) [
    | inl p ↦ rw p (ap (λ cs. output a b ∷ cs) (form-chosen b left))
    | inr p ↦ rw p (form-chosen b left)
  ]

  -- The results of a right tuple are those that the other executor forms.
  form-matches :
      (b : B) (left : List A)
      → form same left_key right_key output b
          (find (right_key b) (insert_all same left_key right_key output left []))
        ≡ matches (some (λ v w. same (right_key v) (left_key w))) (λ v w. output w v) b left
  unfolding form matches get
  form-matches b left =
      ap (form same left_key right_key output b) (get-insert_all (right_key b) left [])
      ∙ form-chosen b left

  -- The state of the other executor, with the children exchanged.
  abbrev exchanged : List A → HashJoin K A B C → NestedLoopJoin B A C
  exchanged left e = record { left = e.right; right = left; tmp_results = e.tmp_results }

  next_agrees :
      (left : List A) (queue : List C) (right : List B)
      → let table = insert_all same left_key right_key output left [] in
        let e = next_from same left_key right_key output table queue right in
        (Execution.next_from
            (some (λ v w. same (right_key v) (left_key w)))
            (λ v w. output w v)
            left
            queue
            right
          ≡ (exchanged left e.0, e.1))
        × (e.0.table ≡ table)
  unfolding next_from Execution.next_from
  next_agrees left (c ∷ queue) right = (refl, refl)
  next_agrees left [] [] = (refl, refl)
  next_agrees left [] (b ∷ right) =
      let table = insert_all same left_key right_key output left [] in
      let queue = form same left_key right_key output b (find (right_key b) table) in
      let e = next_from same left_key right_key output table queue right in
      subst
        (λ q.
          (Execution.next_from (some (λ v w. same (right_key v) (left_key w))) (λ v w. output w v)
              left q right
            ≡ (exchanged left e.0, e.1))
          × (e.0.table ≡ table))
        (form-matches b left) (next_agrees left queue right)

  -- What a drain does with the result of a call.
  abbrev rest : ℕ → NestedLoopJoin B A C × Option C → List C
  rest n p = elim p.1 [
    | none ↦ []
    | some c ↦
        c ∷ drain_join (some (λ v w. same (right_key v) (left_key w))) (λ v w. output w v) n p.0
  ]

  continued :
      (cs : List C) (n : ℕ) (s : NestedLoopJoin B A C) (o : Option C)
      → cs ≡ drain_join (some (λ v w. same (right_key v) (left_key w))) (λ v w. output w v) n s
      → (elim o [ none ↦ [] | some c ↦ c ∷ cs ]) ≡ rest n (s, o)
  continued cs n s none e = refl
  continued cs n s (some c) e = ap (λ ds. c ∷ ds) e

  drain_agrees :
      (n : ℕ) (left : List A) (e : HashJoin K A B C)
      → e.table ≡ insert_all same left_key right_key output left []
      → drain same left_key right_key output n e
        ≡ drain_join
            (some (λ v w. same (right_key v) (left_key w)))
            (λ v w. output w v)
            n
            (exchanged left e)
  unfolding drain next drain_join next_join
  drain_agrees zero left e q = refl
  drain_agrees (suc n) left e q =
      let table = insert_all same left_key right_key output left [] in
      let f = next_from same left_key right_key output table e.tmp_results e.right in
      let a = next_agrees left e.tmp_results e.right in
      let i = drain_agrees n left f.0 a.1 in
      subst
        (λ x.
          drain same left_key right_key output (suc n)
            (record { table = x; right = e.right; tmp_results = e.tmp_results })
          ≡ drain_join (some (λ v w. same (right_key v) (left_key w))) (λ v w. output w v) (suc n)
              (exchanged left e))
        (sym q)
        (continued (drain same left_key right_key output n f.0) n (exchanged left f.0) f.1 i
          ∙ ap (rest n) (sym a.0))

  -- Where keys are equal exactly when the test says so: any number of calls of `Next` after `Init` gives the tuples
  -- that as many calls give on the nested-loop join of the right child with the left one, whose predicate is that
  -- the two keys are equal.
  pub drain-drain_join :
      (n : ℕ) (left : List A) (right : List B) (tmp_results : List C)
      → drain same left_key right_key output n
          (init same left_key right_key output left right tmp_results)
        ≡ drain_join
            (some (λ v w. same (right_key v) (left_key w)))
            (λ v w. output w v)
            n
            (init_join right left tmp_results)
  unfolding init init_join
  drain-drain_join n left right tmp_results =
      drain_agrees n left (init same left_key right_key output left right tmp_results) refl
