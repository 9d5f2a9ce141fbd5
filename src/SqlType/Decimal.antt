-- ===== src/SqlType/Decimal.antt =====
-- src/type/decimal_type.cpp: the type of doubles.
use disk_oriented_concurrenc.Base.{ℕ, ◌-◌, Bool, not, ◌||◌, List, [], ◌∷◌, if◌then◌else◌}
use disk_oriented_concurrenc.SqlType.Int.{pos, negsuc, cast}
use disk_oriented_concurrenc.SqlType.Integers.{is_zero, val_mod, to_varchar}
use disk_oriented_concurrenc.SqlType.Arithmetic.{value_of}
use disk_oriented_concurrenc.SqlType.Varlen.{varlen_cast_as}
use disk_oriented_concurrenc.SqlType.{
  ◌>>=◌, Value, Double, Result, gives, throws, asserts, plain, out_of_range, divide_by_zero,
  decimal_error, TypeId, tinyint, smallint, integer, bigint, decimal, varchar, CmpBool, cmp_null,
  get_cmp_bool, half8, half16, half32, half64, null_number, value_double, check_comparable,
}

module _ {D : Type 0} (double : Double D) (parse_double : List ℕ → Result D) where
  unfoldable pub operate_null : Value D → Value D → Result (Value D)
  unfolding value_double
  operate_null left right = value_double double decimal double.null

  -- The right operand as a double; the switch of the file's macros.
  unfoldable pub operand : Value D → Result D
  unfolding varlen_cast_as
  operand right = elim right.type_id [
    | tinyint ↦ gives (double.of_int right.number)
    | smallint ↦ gives (double.of_int right.number)
    | integer ↦ gives (double.of_int right.number)
    | bigint ↦ gives (double.of_int right.number)
    | decimal ↦ gives right.real
    | varchar ↦ varlen_cast_as double parse_double right decimal >>= λ r. gives r.real
    | _ ↦ throws plain
  ]

  unfoldable pub modify : (D → D → D) → Value D → Value D → Result (Value D)
  unfolding operand value_double
  modify op left right = operand right >>= λ y. value_double double decimal (op left.real y)

  unfoldable pub compare : (D → D → Bool) → Value D → Value D → Result CmpBool
  unfolding operand get_cmp_bool
  compare test left right = operand right >>= λ y. gives (get_cmp_bool (test left.real y))

  -- The assertion and what a null operand gives, before an operation and before a comparison.
  unfoldable pub checked : Value D → Value D → Result (Value D) → Result (Value D)
  unfolding check_comparable operate_null
  checked left right result =
      if not (check_comparable double left right)
      then asserts
      else if left.is_null || right.is_null
      then operate_null left right
      else result

  unfoldable pub checked_compare : (D → D → Bool) → Value D → Value D → Result CmpBool
  unfolding check_comparable compare
  checked_compare test left right =
      if not (check_comparable double left right)
      then asserts
      else if left.is_null || right.is_null
      then gives cmp_null
      else compare test left right

  unfoldable pub add : Value D → Value D → Result (Value D)
  unfolding checked modify
  add left right = checked left right (modify double.add left right)

  unfoldable pub subtract : Value D → Value D → Result (Value D)
  unfolding checked modify
  subtract left right = checked left right (modify double.subtract left right)

  unfoldable pub multiply : Value D → Value D → Result (Value D)
  unfolding checked modify
  multiply left right = checked left right (modify double.multiply left right)

  unfoldable pub divide : Value D → Value D → Result (Value D)
  unfolding checked modify is_zero val_mod
  divide left right = checked left right (do
    zeroed ← is_zero double parse_double right
    if zeroed then throws divide_by_zero else modify double.divide left right)

  unfoldable pub modulo : Value D → Value D → Result (Value D)
  unfolding checked modify is_zero val_mod
  modulo left right = checked left right (do
    zeroed ← is_zero double parse_double right
    if zeroed then throws divide_by_zero else modify (val_mod double parse_double) left right)

  unfoldable pub compare_equals : Value D → Value D → Result CmpBool
  unfolding checked_compare
  compare_equals = checked_compare double.equals

  unfoldable pub compare_not_equals : Value D → Value D → Result CmpBool
  unfolding checked_compare
  compare_not_equals = checked_compare (λ x y. not (double.equals x y))

  unfoldable pub compare_less_than : Value D → Value D → Result CmpBool
  unfolding checked_compare
  compare_less_than = checked_compare double.less

  unfoldable pub compare_less_than_equals : Value D → Value D → Result CmpBool
  unfolding checked_compare
  compare_less_than_equals = checked_compare double.less_equals

  unfoldable pub compare_greater_than : Value D → Value D → Result CmpBool
  unfolding checked_compare
  compare_greater_than = checked_compare (λ x y. double.less y x)

  unfoldable pub compare_greater_than_equals : Value D → Value D → Result CmpBool
  unfolding checked_compare
  compare_greater_than_equals = checked_compare (λ x y. double.less_equals y x)

  unfoldable pub sqrt : Value D → Result (Value D)
  unfolding value_double
  sqrt val =
      if val.is_null
      then value_double double decimal double.null
      else if double.less val.real (double.of_int (pos 0))
      then throws decimal_error
      else value_double double decimal (double.sqrt val.real)

  unfoldable pub to_string : Value D → Result (List ℕ)
  to_string val =
      if val.is_null
      then gives (100 ∷ 101 ∷ 99 ∷ 105 ∷ 109 ∷ 97 ∷ 108 ∷ 95 ∷ 110 ∷ 117 ∷ 108 ∷ 108 ∷ [])
      else gives (double.to_string val.real)

  unfoldable pub serialize_to : Value D → List ℕ
  serialize_to val = double.to_bytes val.real

  unfoldable pub deserialize_from : List ℕ → Result (Value D)
  unfolding value_double
  deserialize_from storage = value_double double decimal (double.of_bytes storage)

  unfoldable pub copy : Value D → Result (Value D)
  unfolding value_double
  copy val = value_double double decimal val.real

  -- A cast to an integer type, whose bounds are compared as doubles.
  unfoldable pub narrow : TypeId → ℕ → Value D → Result (Value D)
  unfolding value_of cast
  narrow t h val =
      if val.is_null
      then value_of double h t (null_number h)
      else if double.less (double.of_int (pos (h - 1))) val.real
          || double.less val.real (double.of_int (negsuc (h - 2)))
      then throws out_of_range
      else value_of double h t (cast h (double.to_int val.real))

  -- For `BIGINT` the upper bound is excluded, since 2^63 - 1 is no double.
  unfoldable pub narrow_bigint : Value D → Result (Value D)
  unfolding value_of cast
  narrow_bigint val =
      if val.is_null
      then value_of double half64 bigint (null_number half64)
      else if double.less_equals (double.of_int (pos (half64 - 1))) val.real
          || double.less val.real (double.of_int (negsuc (half64 - 2)))
      then throws out_of_range
      else value_of double half64 bigint (cast half64 (double.to_int val.real))

  unfoldable pub cast_as : Value D → TypeId → Result (Value D)
  unfolding narrow narrow_bigint copy to_varchar to_string
  cast_as val tinyint = narrow tinyint half8 val
  cast_as val smallint = narrow smallint half16 val
  cast_as val integer = narrow integer half32 val
  cast_as val bigint = narrow_bigint val
  cast_as val decimal = copy val
  cast_as val varchar = to_varchar double parse_double to_string val
  cast_as val _ = throws plain
