-- ===== src/SqlType/Tests.antt =====
-- Runs of the types on small values, with integers in place of doubles.
use disk_oriented_concurrenc.Base.{ℕ, ◌≡◌, ◌<◌, refl, false, List, [], ◌∷◌, ◌++◌}
use disk_oriented_concurrenc.SqlType.Int.{
  ℤ, pos, negsuc, ◌+ℤ◌, ◌-ℤ◌, ◌*ℤ◌, quot, rem, eqb_ℤ, ltb_ℤ, leb_ℤ, magnitude,
}
use disk_oriented_concurrenc.SqlType.Text.{show}
use disk_oriented_concurrenc.SqlType.{
  ◌>>=◌, Value, Double, Result, gives, throws, invalid_argument, tinyint, integer, bigint, varchar,
  with_number, half8, half32, cmp_true,
}
use disk_oriented_concurrenc.SqlType.Bounds.{Typed, exact}
use disk_oriented_concurrenc.SqlType.Operations.{half}
use disk_oriented_concurrenc.SqlType.Exact.{add-exact, multiply-exact}
use disk_oriented_concurrenc.SqlType.Quotients.{divide-modulo}
use disk_oriented_concurrenc.SqlType.Order.{compare_less_than_reversed}
use disk_oriented_concurrenc.SqlType.Casts.{cast_as-back}
use disk_oriented_concurrenc.SqlType.Storage.{deserialize_from-serialize_to}
use disk_oriented_concurrenc.SqlType.Texts.{cast_as-varchar}
use disk_oriented_concurrenc.SqlType.Calls

abbrev whole : Double ℤ
whole = record {
  null = negsuc 999;
  lowest = negsuc 998;
  highest = pos 999;
  of_int = λ x. x;
  add = ◌+ℤ◌;
  subtract = ◌-ℤ◌;
  multiply = ◌*ℤ◌;
  divide = quot;
  trunc = λ x. x;
  sqrt = λ x. x;
  equals = eqb_ℤ;
  less = ltb_ℤ;
  less_equals = leb_ℤ;
  to_int = λ x. x;
  to_string = show;
  to_bytes = λ x. [];
  of_bytes = λ bs. pos 0;
}

abbrev no_double : List ℕ → Result ℤ
no_double s = throws invalid_argument

abbrev tiny_100 : Value ℤ
tiny_100 = with_number whole tinyint false (pos 100)

abbrev tiny_minus_7 : Value ℤ
tiny_minus_7 = with_number whole tinyint false (negsuc 6)

abbrev int_300 : Value ℤ
int_300 = with_number whole integer false (pos 300)

tiny_100-Typed : Typed tiny_100 half8
tiny_100-Typed = record { half = refl; in_range = refl; null = refl }

tiny_minus_7-Typed : Typed tiny_minus_7 half8
tiny_minus_7-Typed = record { half = refl; in_range = refl; null = refl }

int_300-Typed : Typed int_300 half32
int_300-Typed = record { half = refl; in_range = refl; null = refl }

-- 100 + 100 is out of range in TINYINT.
add-exact_example :
    Calls.add whole no_double tiny_100 tiny_100
    ≡ exact whole half8 half8 tiny_100 tiny_100 (pos 100 +ℤ pos 100)
add-exact_example = add-exact whole no_double tiny_100 tiny_100 tiny_100-Typed tiny_100-Typed

multiply-exact_example :
    Calls.multiply whole no_double int_300 tiny_minus_7
    ≡ exact whole half32 half8 int_300 tiny_minus_7 (pos 300 *ℤ negsuc 6)
multiply-exact_example =
    multiply-exact whole no_double int_300 tiny_minus_7 int_300-Typed tiny_minus_7-Typed

-- 300 / -7 is -42, and the remainder is 6.
divide-modulo_example :
    (Calls.divide whole no_double int_300 tiny_minus_7
      ≡ gives (with_number whole integer false (quot (pos 300) (negsuc 6))))
    × (Calls.modulo whole no_double int_300 tiny_minus_7
        ≡ gives (with_number whole integer false (rem (pos 300) (negsuc 6))))
    × (quot (pos 300) (negsuc 6) *ℤ negsuc 6 +ℤ rem (pos 300) (negsuc 6) ≡ pos 300)
    × (magnitude (rem (pos 300) (negsuc 6)) < magnitude (negsuc 6))
divide-modulo_example =
    divide-modulo whole no_double int_300 tiny_minus_7 int_300-Typed tiny_minus_7-Typed refl refl
      refl

compare_less_than_reversed_example :
    (Calls.compare_less_than whole no_double tiny_100 int_300
      ≡ Calls.compare_greater_than whole no_double int_300 tiny_100)
    × (Calls.compare_less_than_equals whole no_double tiny_100 int_300
        ≡ Calls.compare_greater_than_equals whole no_double int_300 tiny_100)
    × (Calls.compare_equals whole no_double tiny_100 int_300
        ≡ Calls.compare_equals whole no_double int_300 tiny_100)
    × (Calls.compare_not_equals whole no_double tiny_100 int_300
        ≡ Calls.compare_not_equals whole no_double int_300 tiny_100)
compare_less_than_reversed_example =
    compare_less_than_reversed whole no_double tiny_100 int_300 tiny_100-Typed int_300-Typed

minus_7_less : Calls.compare_less_than whole no_double tiny_minus_7 tiny_100 ≡ gives cmp_true
unfolding Calls.compare_less_than
minus_7_less = refl

less_300 : Calls.compare_less_than whole no_double tiny_100 int_300 ≡ gives cmp_true
unfolding Calls.compare_less_than
less_300 = refl

widened :
    Calls.cast_as whole no_double tiny_100 bigint ≡ gives (with_number whole bigint false (pos 100))
unfolding Calls.cast_as
widened = refl

cast_as-back_example :
    (bigint ≡ bigint)
    × Typed (with_number whole bigint false (pos 100)) (half bigint)
    × (Calls.cast_as whole no_double (with_number whole bigint false (pos 100)) tinyint
        ≡ gives (with_number whole tinyint false (pos 100)))
cast_as-back_example =
    cast_as-back whole no_double tiny_100 (with_number whole bigint false (pos 100)) bigint
      tiny_100-Typed refl widened

deserialize_from-serialize_to_example :
    (Calls.serialize_to whole no_double int_300 >>= λ bytes.
    Calls.deserialize_from whole no_double (bytes ++ 9 ∷ []) integer)
    ≡ gives int_300
deserialize_from-serialize_to_example =
    deserialize_from-serialize_to whole no_double int_300 (9 ∷ []) int_300-Typed

cast_as-varchar_example :
    (Calls.cast_as whole no_double tiny_minus_7 varchar >>= λ s.
    Calls.cast_as whole no_double s tinyint)
    ≡ gives tiny_minus_7
cast_as-varchar_example = cast_as-varchar whole no_double tiny_minus_7 tiny_minus_7-Typed refl

-- The string "300" as a TINYINT is 44.
string_300 : Value ℤ
string_300 = record {
  type_id = varchar;
  is_null = false;
  number = pos 0;
  real = pos 0;
  text = 51 ∷ 48 ∷ 48 ∷ 0 ∷ [];
}
