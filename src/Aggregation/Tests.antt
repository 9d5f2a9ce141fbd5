-- ===== src/Aggregation/Tests.antt =====
-- Counts and sums of three rows in two groups, with integers in place of doubles.
use disk_oriented_concurrenc.Base.{ℕ, ◌≡◌, refl, false, Option, none, List, [], ◌∷◌, arith, ◌==◌}
use disk_oriented_concurrenc.SqlType.Int.{
  ℤ, pos, negsuc, ◌+ℤ◌, ◌-ℤ◌, ◌*ℤ◌, quot, eqb_ℤ, ltb_ℤ, leb_ℤ,
}
use disk_oriented_concurrenc.SqlType.{
  Value, Double, Result, gives, throws, invalid_argument, integer, with_number,
}
use disk_oriented_concurrenc.Aggregation.{
  AggregationType, count_aggregate, sum_aggregate, insert_all,
}
use disk_oriented_concurrenc.Aggregation.Groups.{folded, inputs, at, insert_all-folded}

abbrev whole : Double ℤ
whole = record {
  null = negsuc 999;
  lowest = negsuc 998;
  highest = pos 999;
  of_int = λ x. x;
  add = ◌+ℤ◌;
  subtract = ◌-ℤ◌;
  multiply = ◌*ℤ◌;
  divide = quot;
  trunc = λ x. x;
  sqrt = λ x. x;
  equals = eqb_ℤ;
  less = ltb_ℤ;
  less_equals = leb_ℤ;
  to_int = λ x. x;
  to_string = λ x. [];
  to_bytes = λ x. [];
  of_bytes = λ bs. pos 0;
}

abbrev no_double : List ℕ → Result ℤ
no_double s = throws invalid_argument

abbrev int : ℕ → Value ℤ
int n = with_number whole integer false (pos n)

abbrev both : List AggregationType
both = count_aggregate ∷ sum_aggregate ∷ []

abbrev three_rows : List (ℕ × List (Value ℤ))
three_rows = (7, int 4 ∷ int 4 ∷ []) ∷ (8, int 1 ∷ int 1 ∷ []) ∷ (7, int 5 ∷ int 5 ∷ []) ∷ []

grouped :
    insert_all whole no_double ◌==◌ both three_rows []
    ≡ gives ((7, int 2 ∷ int 9 ∷ []) ∷ (8, int 1 ∷ int 1 ∷ []) ∷ [])
unfolding insert_all ◌+ℤ◌
grouped = refl

insert_all-folded_example :
    ((ht : List (ℕ × List (Value ℤ)))
      → insert_all whole no_double ◌==◌ both three_rows [] ≡ gives ht
      → (k : ℕ)
      → folded whole no_double ◌==◌ both none (inputs whole no_double ◌==◌ both k three_rows)
        ≡ gives (at whole no_double ◌==◌ both k ht))
    × (((k : ℕ)
          → (o : Option (List (Value ℤ))) × (folded whole no_double ◌==◌ both none
                (inputs whole no_double ◌==◌ both k three_rows)
              ≡ gives o))
        → (ht : List (ℕ × List (Value ℤ))) × (insert_all whole no_double ◌==◌ both three_rows []
            ≡ gives ht))
insert_all-folded_example =
    insert_all-folded whole no_double ◌==◌ both (λ a b e. ground arith) (λ a. ground arith)
      three_rows
