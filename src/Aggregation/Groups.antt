-- ===== src/Aggregation/Groups.antt =====
-- The table of the aggregation as the groups of its rows.
use disk_oriented_concurrenc.Base.{
  ℕ, ◌≡◌, refl, sym, ap, subst, ◌∙◌, Bool, true, false, Option, none, some, List, [], ◌∷◌,
  if◌then◌else◌, arith, Bool-cases, inl, inr,
}
use disk_oriented_concurrenc.SqlType.{
  ◌>>=◌, Value, Double, Result, gives, throws, asserts, undefined,
}
use disk_oriented_concurrenc.Aggregation.{
  AggregationType, find, store, entry, inserted, generate_initial, combine_aggregate_values,
  insert_combine, insert_all,
}

bind_gives :
    {A B : Type 0} (r : Result A) (f : A → Result B) (b : B)
    → (r >>= f) ≡ gives b
    → (a : A) × (r ≡ gives a) × (f a ≡ gives b)
bind_gives (gives a) f b e = (a, refl, e)
bind_gives (throws x) f b e = absurd (ground arith)
bind_gives asserts f b e = absurd (ground arith)
bind_gives undefined f b e = absurd (ground arith)

gives_bind :
    {A B : Type 0} (r : Result A) (f : A → Result B) (a : A) (b : Result B)
    → r ≡ gives a
    → f a ≡ b
    → (r >>= f) ≡ b
gives_bind r f a b e g = ap (λ x. x >>= f) e ∙ g

gives_inj : {A : Type 0} {v w : A} → gives v ≡ gives w → v ≡ w
gives_inj e = cc

nested :
    {A : Type 0} (x y z : A) (b : Bool)
    → (if b then x else y) ≡ (if b then x else if b then z else y)
nested x y z true = refl
nested x y z false = refl

-- Two tests that do not both hold can be made in either order.
ordered :
    {A : Type 0} (x y z : A) (a b : Bool)
    → (a ≡ true → b ≡ true → false ≡ true)
    → (if a then x else if b then y else z) ≡ (if b then y else if a then x else z)
ordered x y z true true f = let e = f refl refl in absurd (ground (arith, e))
ordered x y z true false f = refl
ordered x y z false b f = refl

module _ {D : Type 0} (double : Double D) (parse_double : List ℕ → Result D) {K : Type 0}
    (same : K → K → Bool) (types : List AggregationType) where
  abbrev Row : Type 0
  Row = K × List (Value D)

  -- The rows of a key, and the aggregates over them, one after the other.
  abbrev pub inputs : K → List Row → List (List (Value D))
  inputs k [] = []
  inputs k (row ∷ rows) = let rest = inputs k rows in if same k row.0 then row.1 ∷ rest else rest

  -- The aggregates before a row: those there are, or the initial ones.
  abbrev pub current : Option (List (Value D)) → Result (List (Value D))
  current (some v) = gives v
  current none = generate_initial double parse_double types

  abbrev pub folded :
      Option (List (Value D)) → List (List (Value D)) → Result (Option (List (Value D)))
  folded acc [] = gives acc
  folded acc (i ∷ is) = current acc >>= λ old.
      combine_aggregate_values double parse_double types old i >>= λ new. folded (some new) is

  abbrev pub at : K → List Row → Option (List (Value D))
  at = find double parse_double same types

  module _ (sound : (a b : K) → same a b ≡ true → a ≡ b)
      (reflexive : (a : K) → same a a ≡ true) where
    differ : (k k₀ l : K) → same k₀ l ≡ false → same k l ≡ true → same k k₀ ≡ true → false ≡ true
    differ k k₀ l p a b = sym p ∙ ap (λ x. same x l) (sym (sound k k₀ b)) ∙ a

    at-store :
        (k k₀ : K) (v : List (Value D)) (ht : List Row)
        → at k (store double parse_double same types k₀ v ht)
          ≡ (if same k k₀ then some v else at k ht)
    at-store k k₀ v [] = refl
    at-store k k₀ v (e ∷ ht) = elim (Bool-cases (same k₀ e.0)) [
      | inl p ↦
          let q : same k e.0 ≡ same k k₀ = ap (same k) (sym (sound k₀ e.0 p)) in
          rw (p, q) (nested _ _ _ (same k k₀))
      | inr p ↦
          rw (p, at-store k k₀ v ht)
            (ordered _ _ _ (same k e.0) (same k k₀) (λ a b. differ k k₀ e.0 p a b))
    ]

    -- What a row does to the table.
    record Combined (row : Row) (ht ht' : List Row) : Type 0 where
      old : List (Value D)
      new : List (Value D)
      start : current (at row.0 ht) ≡ gives old
      step : combine_aggregate_values double parse_double types old row.1 ≡ gives new
      entries : (k : K) → at k ht' ≡ (if same k row.0 then some new else at k ht)

    stored_twice :
        (k l : K) (v w : List (Value D)) (ht : List Row)
        → at k
            (store double parse_double same types l w (store double parse_double same types l v ht))
          ≡ (if same k l then some w else at k ht)
    stored_twice k l v w ht =
        at-store k l w (store double parse_double same types l v ht)
        ∙ rw (at-store k l v ht) (sym (nested (some w) (at k ht) (some v) (same k l)))

    at_stored :
        (k : K) (v : List (Value D)) (ht : List Row)
        → at k (store double parse_double same types k v ht) ≡ some v
    at_stored k v ht = at-store k k v ht ∙ rw (reflexive k) refl

    -- The table with the new aggregates of a key.
    abbrev put : Option (List (Value D)) → K → List (Value D) → List (Value D) → List Row → List Row
    put none k old new ht =
        store double parse_double same types k new (store double parse_double same types k old ht)
    put (some v) k old new ht = store double parse_double same types k new ht

    at-put :
        (o : Option (List (Value D))) (k l : K) (old new : List (Value D)) (ht : List Row)
        → at k (put o l old new ht) ≡ (if same k l then some new else at k ht)
    at-put none k l old new ht = stored_twice k l old new ht
    at-put (some v) k l old new ht = at-store k l new ht

    opened :
        (k : K) (i : List (Value D)) (ht : List Row)
        → insert_combine double parse_double same types k i ht ≡ (
            current (at k ht) >>= λ old.
            combine_aggregate_values double parse_double types old i >>= λ new.
            gives (put (at k ht) k old new ht))
    unfolding insert_combine inserted
    opened k i ht = go (at k ht) refl
      where
        initially :
            (r : Result (List (Value D)))
            → ((r >>= λ v. gives (store double parse_double same types k v ht)) >>= λ h.
                combine_aggregate_values double parse_double types
                  (entry double parse_double same types (at k h))
                  i
                >>= λ new. gives (store double parse_double same types k new h))
              ≡ (r >>= λ old. combine_aggregate_values double parse_double types old i >>= λ new.
                  gives (put none k old new ht))
        initially (gives v) =
            ap
              (λ o.
                combine_aggregate_values double parse_double types
                  (entry double parse_double same types o) i
                >>= λ new. gives (put none k v new ht))
              (at_stored k v ht)
        initially (throws x) = refl
        initially asserts = refl
        initially undefined = refl

        go :
            (o : Option (List (Value D)))
            → at k ht ≡ o
            → ((elim o [
              | none ↦ generate_initial double parse_double types >>= λ v.
                  gives (store double parse_double same types k v ht)
              | some v ↦ gives ht
            ])
                >>= λ h.
                    combine_aggregate_values double parse_double types
                      (entry double parse_double same types (at k h))
                      i
                    >>= λ new. gives (store double parse_double same types k new h))
              ≡ (current o >>= λ old.
                  combine_aggregate_values double parse_double types old i >>= λ new.
                  gives (put o k old new ht))
        go none q = initially (generate_initial double parse_double types)
        go (some v) q =
            ap
              (λ o.
                combine_aggregate_values double parse_double types
                  (entry double parse_double same types o) i
                >>= λ new. gives (store double parse_double same types k new ht))
              q

    insert_combine-Combined :
        (row : Row) (ht ht' : List Row)
        → insert_combine double parse_double same types row.0 row.1 ht ≡ gives ht'
        → Combined row ht ht'
    insert_combine-Combined row ht ht' e =
        let a = bind_gives (current (at row.0 ht)) _ ht' (sym (opened row.0 row.1 ht) ∙ e) in
        let b =
          bind_gives (combine_aggregate_values double parse_double types a.0 row.1) _ ht' a.2 in
        record {
          old = a.0;
          new = b.0;
          start = a.1;
          step = b.1;
          entries = λ k. ap (at k) (sym (gives_inj b.2)) ∙ at-put (at row.0 ht) k row.0 a.0 b.0 ht;
        }

    folded_same :
        (row : Row) (ht ht' : List Row) (k : K) (is : List (List (Value D)))
        → Combined row ht ht'
        → same k row.0 ≡ true
        → folded (at k ht) (row.1 ∷ is) ≡ folded (at k ht') is
    folded_same row ht ht' k is c e =
        let s : at k ht' ≡ some c.new = c.entries k ∙ rw e refl in
        let q : current (at k ht) ≡ gives c.old =
          subst (λ l. current (at l ht) ≡ gives c.old) (sym (sound k row.0 e)) c.start in
        rw (q, c.step, s) refl

    at_other :
        (row : Row) (ht ht' : List Row) (k : K)
        → Combined row ht ht'
        → same k row.0 ≡ false
        → at k ht' ≡ at k ht
    at_other row ht ht' k c e = c.entries k ∙ rw e refl

    -- The fold of a key's rows over the rest of the rows, from the table that one row leaves.
    folded_rest :
        (row : Row) (rows ht ht' : List Row) (k : K)
        → Combined row ht ht'
        → folded (at k ht) (inputs k (row ∷ rows)) ≡ folded (at k ht') (inputs k rows)
    folded_rest row rows ht ht' k c = elim (Bool-cases (same k row.0)) [
      | inl p ↦ rw p (folded_same row ht ht' k (inputs k rows) c p)
      | inr p ↦ rw p (ap (λ x. folded x (inputs k rows)) (sym (at_other row ht ht' k c p)))
    ]

    insert_all_gives :
        (rows ht ht' : List Row) (k : K)
        → insert_all double parse_double same types rows ht ≡ gives ht'
        → folded (at k ht) (inputs k rows) ≡ gives (at k ht')
    unfolding insert_all
    insert_all_gives [] ht ht' k e = ap (λ x. gives (at k x)) (gives_inj e)
    insert_all_gives (row ∷ rows) ht ht' k e =
        let a = bind_gives (insert_combine double parse_double same types row.0 row.1 ht) _ ht' e in
        let c = insert_combine-Combined row ht a.0 a.1 in
        let i = insert_all_gives rows a.0 ht' k a.2 in folded_rest row rows ht a.0 k c ∙ i

    combined :
        (row : Row) (is : List (List (Value D))) (ht : List Row) (o : Option (List (Value D)))
        → folded (at row.0 ht) (row.1 ∷ is) ≡ gives o
        → (ht' : List Row) × (insert_combine double parse_double same types row.0 row.1 ht
            ≡ gives ht')
    combined row is ht o e =
        let a = bind_gives (current (at row.0 ht)) _ o e in
        let b = bind_gives (combine_aggregate_values double parse_double types a.0 row.1) _ o a.2 in
        (
          put (at row.0 ht) row.0 a.0 b.0 ht,
          opened row.0 row.1 ht
              ∙ gives_bind (current (at row.0 ht)) _ a.0 _ a.1 (
                  gives_bind (combine_aggregate_values double parse_double types a.0 row.1) _ b.0 _
                    b.1 refl),
        )

    insert_all_returns :
        (rows ht : List Row)
        → ((k : K) → (o : Option (List (Value D))) × (folded (at k ht) (inputs k rows) ≡ gives o))
        → (ht' : List Row) × (insert_all double parse_double same types rows ht ≡ gives ht')
    unfolding insert_all
    insert_all_returns [] ht h = (ht, refl)
    insert_all_returns (row ∷ rows) ht h =
        let f = h row.0 in
        let first : inputs row.0 (row ∷ rows) ≡ row.1 ∷ inputs row.0 rows =
          rw (reflexive row.0) refl in
        let a =
          combined row (inputs row.0 rows) ht f.0 (ap (folded (at row.0 ht)) (sym first) ∙ f.1) in
        let c = insert_combine-Combined row ht a.0 a.1 in
        let rest =
          insert_all_returns rows a.0
            (λ k. let g = h k in (g.0, sym (folded_rest row rows ht a.0 k c) ∙ g.1)) in
        (rest.0, rw a.1 rest.1)

    -- Where keys are equal exactly when the test says so: the loop of `Init` ends without an error exactly when,
    -- for every key, the aggregates over that key's rows can be computed one row after the other from the initial
    -- ones; the entry of each key is then what they come to, and a key without rows has none.
    pub insert_all-folded :
        (rows : List Row)
        → ((ht : List Row)
            → insert_all double parse_double same types rows [] ≡ gives ht
            → (k : K) → folded none (inputs k rows) ≡ gives (at k ht))
          × (((k : K) → (o : Option (List (Value D))) × (folded none (inputs k rows) ≡ gives o))
              → (ht : List Row) × (insert_all double parse_double same types rows [] ≡ gives ht))
    insert_all-folded rows =
        ((λ ht e k. insert_all_gives rows [] ht k e), insert_all_returns rows [])
