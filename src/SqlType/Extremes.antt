-- ===== src/SqlType/Extremes.antt =====
-- src/type/integer_parent_type.cpp, decimal_type.cpp and varlen_type.cpp: the least and the greatest of two
-- values.
use disk_oriented_concurrenc.Base.{ℕ, not, ◌||◌, List, if◌then◌else◌}
use disk_oriented_concurrenc.SqlType.{
  ◌>>=◌, Value, Double, Result, throws, asserts, undefined, not_implemented, tinyint, smallint,
  integer, bigint, decimal, varchar, timestamp, CmpBool, cmp_true, check_comparable, check_integer,
}
use disk_oriented_concurrenc.SqlType.Calls.{
  copy, operate_null, compare_less_than, compare_less_than_equals, compare_greater_than,
  compare_greater_than_equals,
}

module _ {D : Type 0} (double : Double D) (parse_double : List ℕ → Result D) where
  abbrev Call : Type 0
  Call = Value D → Value D → Result CmpBool

  -- The left value where the comparison is true, or else the right one.
  unfoldable pub choose : Call → Value D → Value D → Result (Value D)
  unfolding copy
  choose compare left right = do
    c ← compare left right
    elim c [ cmp_true ↦ copy double parse_double left | _ ↦ copy double parse_double right ]

  unfoldable pub checked_choose : Call → Value D → Value D → Result (Value D)
  unfolding choose operate_null check_comparable
  checked_choose compare left right =
      if not (check_comparable double left right)
      then asserts
      else if left.is_null || right.is_null
      then operate_null double parse_double left right
      else choose compare left right

  -- The integer types' function.
  unfoldable pub integer_min : Value D → Value D → Result (Value D)
  unfolding checked_choose check_integer compare_less_than
  integer_min left right =
      if not (check_integer double left)
      then asserts
      else checked_choose (compare_less_than double parse_double) left right

  -- The integer types' function.
  unfoldable pub integer_max : Value D → Value D → Result (Value D)
  unfolding checked_choose check_integer compare_greater_than_equals
  integer_max left right =
      if not (check_integer double left)
      then asserts
      else checked_choose (compare_greater_than_equals double parse_double) left right

  unfoldable pub decimal_min : Value D → Value D → Result (Value D)
  unfolding checked_choose compare_less_than_equals
  decimal_min = checked_choose (compare_less_than_equals double parse_double)

  unfoldable pub decimal_max : Value D → Value D → Result (Value D)
  unfolding checked_choose compare_greater_than_equals
  decimal_max = checked_choose (compare_greater_than_equals double parse_double)

  unfoldable pub varlen_min : Value D → Value D → Result (Value D)
  unfolding checked_choose compare_less_than
  varlen_min = checked_choose (compare_less_than double parse_double)

  unfoldable pub varlen_max : Value D → Value D → Result (Value D)
  unfolding checked_choose compare_greater_than
  varlen_max = checked_choose (compare_greater_than double parse_double)

  -- `Value::Min`
  unfoldable pub min : Value D → Value D → Result (Value D)
  unfolding integer_min decimal_min varlen_min
  min v o = elim v.type_id [
    | tinyint ↦ integer_min v o
    | smallint ↦ integer_min v o
    | integer ↦ integer_min v o
    | bigint ↦ integer_min v o
    | decimal ↦ decimal_min v o
    | varchar ↦ varlen_min v o
    | timestamp ↦ undefined
    | _ ↦ throws not_implemented
  ]

  -- `Value::Max`
  unfoldable pub max : Value D → Value D → Result (Value D)
  unfolding integer_max decimal_max varlen_max
  max v o = elim v.type_id [
    | tinyint ↦ integer_max v o
    | smallint ↦ integer_max v o
    | integer ↦ integer_max v o
    | bigint ↦ integer_max v o
    | decimal ↦ decimal_max v o
    | varchar ↦ varlen_max v o
    | timestamp ↦ undefined
    | _ ↦ throws not_implemented
  ]
