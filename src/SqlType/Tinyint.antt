-- ===== src/SqlType/Tinyint.antt =====
-- src/type/tinyint_type.cpp: the type of integers of 8 bits.
use disk_oriented_concurrenc.Base.{ℕ, Bool, ◌∷◌, [], List, if◌then◌else◌}
use disk_oriented_concurrenc.SqlType.Int.{ℤ}
use disk_oriented_concurrenc.SqlType.{
  Value, Double, Result, throws, asserts, plain, TypeId, tinyint, smallint, integer, bigint,
  decimal, varchar, CmpBool, half8, half16, half32, half64, null_number, value_double,
  check_integer,
}
use disk_oriented_concurrenc.SqlType.Arithmetic.{value_of}
use disk_oriented_concurrenc.SqlType.Integers

module _ {D : Type 0} (double : Double D) (parse_double : List ℕ → Result D) where
  -- The null of the wider of the two types.
  unfoldable pub operate_null : Value D → Value D → Result (Value D)
  unfolding value_of value_double
  operate_null left right = elim right.type_id [
    | tinyint ↦ value_of double half8 tinyint (null_number half8)
    | smallint ↦ value_of double half16 smallint (null_number half16)
    | integer ↦ value_of double half32 integer (null_number half32)
    | bigint ↦ value_of double half64 bigint (null_number half64)
    | decimal ↦ value_double double decimal double.null
    | _ ↦ throws plain
  ]

  -- The macros of the file, with this type's `METHOD<int8_t, …>`.
  unfoldable pub modify :
      (ℕ → ℕ → Value D → Value D → Result (Value D))
      → (D → D → D)
      → Value D
      → Value D
      → Result (Value D)
  unfolding Integers.modify
  modify = Integers.modify double parse_double tinyint half8 operate_null

  unfoldable pub compare : (ℤ → ℤ → Bool) → (D → D → Bool) → Value D → Value D → Result CmpBool
  unfolding Integers.compare
  compare = Integers.compare double parse_double tinyint half8 operate_null

  unfoldable pub add : Value D → Value D → Result (Value D)
  unfolding Integers.add operate_null
  add = Integers.add double parse_double tinyint half8 operate_null

  unfoldable pub subtract : Value D → Value D → Result (Value D)
  unfolding Integers.subtract operate_null
  subtract = Integers.subtract double parse_double tinyint half8 operate_null

  unfoldable pub multiply : Value D → Value D → Result (Value D)
  unfolding Integers.multiply operate_null
  multiply = Integers.multiply double parse_double tinyint half8 operate_null

  unfoldable pub divide : Value D → Value D → Result (Value D)
  unfolding Integers.divide operate_null
  divide = Integers.divide double parse_double tinyint half8 operate_null

  unfoldable pub modulo : Value D → Value D → Result (Value D)
  unfolding Integers.modulo operate_null
  modulo = Integers.modulo double parse_double tinyint half8 operate_null

  unfoldable pub compare_equals : Value D → Value D → Result CmpBool
  unfolding Integers.compare_equals
  compare_equals = Integers.compare_equals double parse_double tinyint half8 operate_null

  unfoldable pub compare_not_equals : Value D → Value D → Result CmpBool
  unfolding Integers.compare_not_equals
  compare_not_equals = Integers.compare_not_equals double parse_double tinyint half8 operate_null

  unfoldable pub compare_less_than : Value D → Value D → Result CmpBool
  unfolding Integers.compare_less_than
  compare_less_than = Integers.compare_less_than double parse_double tinyint half8 operate_null

  unfoldable pub compare_less_than_equals : Value D → Value D → Result CmpBool
  unfolding Integers.compare_less_than_equals
  compare_less_than_equals =
      Integers.compare_less_than_equals double parse_double tinyint half8 operate_null

  unfoldable pub compare_greater_than : Value D → Value D → Result CmpBool
  unfolding Integers.compare_greater_than
  compare_greater_than =
      Integers.compare_greater_than double parse_double tinyint half8 operate_null

  unfoldable pub compare_greater_than_equals : Value D → Value D → Result CmpBool
  unfolding Integers.compare_greater_than_equals
  compare_greater_than_equals =
      Integers.compare_greater_than_equals double parse_double tinyint half8 operate_null

  unfoldable pub sqrt : Value D → Result (Value D)
  unfolding Integers.sqrt value_double operate_null
  sqrt val =
      Integers.sqrt double parse_double tinyint half8 operate_null
        (value_double double decimal double.null) val

  unfoldable pub to_string : Value D → Result (List ℕ)
  unfolding Integers.to_string
  to_string val =
      Integers.to_string double parse_double tinyint half8 operate_null
        (116 ∷ 105 ∷ 110 ∷ 121 ∷ 105 ∷ 110 ∷ 116 ∷ 95 ∷ 110 ∷ 117 ∷ 108 ∷ 108 ∷ []) val

  unfoldable pub serialize_to : Value D → List ℕ
  unfolding Integers.serialize_to
  serialize_to val = Integers.serialize_to double parse_double tinyint half8 operate_null 1 val

  unfoldable pub deserialize_from : List ℕ → Result (Value D)
  unfolding Integers.deserialize_from
  deserialize_from storage =
      Integers.deserialize_from double parse_double tinyint half8 operate_null 1 storage

  unfoldable pub copy : Value D → Result (Value D)
  unfolding check_integer value_of
  copy val = if check_integer double val then value_of double half8 tinyint val.number else asserts

  unfoldable pub cast_as : Value D → TypeId → Result (Value D)
  unfolding value_of copy to_string Integers.narrow Integers.widen Integers.to_decimal
      Integers.to_varchar
  cast_as val tinyint =
      if val.is_null then value_of double half8 tinyint (null_number half8) else copy val
  cast_as val smallint = Integers.widen double parse_double smallint half16 val
  cast_as val integer = Integers.widen double parse_double integer half32 val
  cast_as val bigint = Integers.widen double parse_double bigint half64 val
  cast_as val decimal = Integers.to_decimal double parse_double val
  cast_as val varchar = Integers.to_varchar double parse_double to_string val
  cast_as val _ = throws plain
