-- ===== src/SqlType/Integers.antt =====
-- src/type/integer_type.cpp, tinyint_type.cpp, smallint_type.cpp and bigint_type.cpp: what the four integer
-- types share. `own` is the type itself, whose numbers have 2 * h patterns, and `left` is a value of it;
-- `operate_null` is its function of that name. Each type's module takes its operations from here.
use disk_oriented_concurrenc.Base.{
  ℕ, zero, suc, ◌+◌, ◌-◌, ◌*◌, ◌/◌, ◌%◌, Bool, not, ◌||◌, List, [], ◌∷◌, if◌then◌else◌,
}
use disk_oriented_concurrenc.SqlType.Int.{ℤ, pos, negsuc, eqb_ℤ, ltb_ℤ, leb_ℤ, residue, cast}
use disk_oriented_concurrenc.SqlType.Text.{show}
use disk_oriented_concurrenc.SqlType.{
  ◌>>=◌, Value, Double, Result, gives, throws, asserts, undefined, plain, out_of_range,
  divide_by_zero, decimal_error, not_implemented, TypeId, tinyint, smallint, integer, bigint,
  decimal, varchar, timestamp, CmpBool, cmp_null, get_cmp_bool, half8, half16, half32, half64,
  null_number, value_double, value_string, null_string, check_integer, check_comparable,
}
use disk_oriented_concurrenc.SqlType.Arithmetic.{
  value_of, add_value, subtract_value, multiply_value, divide_value, modulo_value,
}
use disk_oriented_concurrenc.SqlType.Varlen.{varlen_cast_as}

-- The bytes of a word, least significant first, and the word.
abbrev pub to_bytes : ℕ → ℕ → List ℕ
to_bytes zero n = []
to_bytes (suc w) n = n % 256 ∷ to_bytes w (n / 256)

abbrev pub of_bytes : ℕ → List ℕ → ℕ
of_bytes zero bs = 0
of_bytes (suc w) [] = 0
of_bytes (suc w) (b ∷ bs) = b + 256 * of_bytes w bs

module _ {D : Type 0} (double : Double D) (parse_double : List ℕ → Result D) where
  -- `IsZero` of the right operand's type, which `DIVIDE` and `MODULO` call.
  unfoldable pub is_zero : Value D → Result Bool
  is_zero v = elim v.type_id [
    | tinyint ↦ gives (eqb_ℤ v.number (pos 0))
    | smallint ↦ gives (eqb_ℤ v.number (pos 0))
    | integer ↦ gives (eqb_ℤ v.number (pos 0))
    | bigint ↦ gives (eqb_ℤ v.number (pos 0))
    | decimal ↦ gives (double.equals v.real (double.of_int (pos 0)))
    | timestamp ↦ undefined
    | _ ↦ throws not_implemented
  ]

  -- `ValMod`
  unfoldable pub val_mod : D → D → D
  val_mod x y = double.subtract x (double.multiply (double.trunc (double.divide x y)) y)

  -- A cast of an integer to a narrower type, and to one that is not.
  unfoldable pub narrow : TypeId → ℕ → Value D → Result (Value D)
  unfolding value_of
  narrow t h v =
      if v.is_null
      then value_of double h t (null_number h)
      else if ltb_ℤ (pos (h - 1)) v.number || ltb_ℤ v.number (negsuc (h - 2))
      then throws out_of_range
      else value_of double h t (cast h v.number)

  unfoldable pub widen : TypeId → ℕ → Value D → Result (Value D)
  unfolding value_of
  widen t h v =
      if v.is_null then value_of double h t (null_number h) else value_of double h t v.number

  unfoldable pub to_decimal : Value D → Result (Value D)
  unfolding value_double
  to_decimal v =
      if v.is_null
      then value_double double decimal double.null
      else value_double double decimal (double.of_int v.number)

  -- `to_string` is that of the value's type.
  unfoldable pub to_varchar : (Value D → Result (List ℕ)) → Value D → Result (Value D)
  unfolding value_string null_string
  to_varchar to_string v =
      if v.is_null then null_string double varchar else to_string v >>= value_string double varchar

  module _ (own : TypeId) (h : ℕ) (operate_null : Value D → Value D → Result (Value D)) where
    -- The two assertions, and what a null operand gives.
    unfoldable pub checked : Value D → Value D → Result (Value D) → Result (Value D)
    unfolding check_integer check_comparable
    checked left right result =
        if not (check_integer double left)
        then asserts
        else if not (check_comparable double left right)
        then asserts
        else if left.is_null || right.is_null
        then operate_null left right
        else result

    unfoldable pub checked_compare : Value D → Value D → Result CmpBool → Result CmpBool
    unfolding check_integer check_comparable
    checked_compare left right result =
        if not (check_integer double left)
        then asserts
        else if not (check_comparable double left right)
        then asserts
        else if left.is_null || right.is_null
        then gives cmp_null
        else result

    -- The macro `INT_MODIFY_FUNC`: `method` is `METHOD`, whose two types come first, and `op` is `OP`.
    unfoldable pub modify :
        (ℕ → ℕ → Value D → Value D → Result (Value D))
        → (D → D → D)
        → Value D
        → Value D
        → Result (Value D)
    unfolding varlen_cast_as value_double
    modify method op left right = elim right.type_id [
      | tinyint ↦ method h half8 left right
      | smallint ↦ method h half16 left right
      | integer ↦ method h half32 left right
      | bigint ↦ method h half64 left right
      | decimal ↦ value_double double decimal (op (double.of_int left.number) right.real)
      | varchar ↦ varlen_cast_as double parse_double right own >>= method h h left
      | _ ↦ throws plain
    ]

    -- The macro `INT_COMPARE_FUNC`: `test` is `OP` of integers, and `test_double` of numbers of which one is
    -- a `double`.
    unfoldable pub compare : (ℤ → ℤ → Bool) → (D → D → Bool) → Value D → Value D → Result CmpBool
    unfolding varlen_cast_as get_cmp_bool
    compare test test_double left right = elim right.type_id [
      | tinyint ↦ gives (get_cmp_bool (test left.number right.number))
      | smallint ↦ gives (get_cmp_bool (test left.number right.number))
      | integer ↦ gives (get_cmp_bool (test left.number right.number))
      | bigint ↦ gives (get_cmp_bool (test left.number right.number))
      | decimal ↦ gives (get_cmp_bool (test_double (double.of_int left.number) right.real))
      | varchar ↦ varlen_cast_as double parse_double right own >>= λ r.
          gives (get_cmp_bool (test left.number r.number))
      | _ ↦ throws plain
    ]

    unfoldable pub add : Value D → Value D → Result (Value D)
    unfolding checked modify add_value
    add left right = checked left right (modify (add_value double) double.add left right)

    unfoldable pub subtract : Value D → Value D → Result (Value D)
    unfolding checked modify subtract_value
    subtract left right =
        checked left right (modify (subtract_value double) double.subtract left right)

    unfoldable pub multiply : Value D → Value D → Result (Value D)
    unfolding checked modify multiply_value
    multiply left right =
        checked left right (modify (multiply_value double) double.multiply left right)

    unfoldable pub divide : Value D → Value D → Result (Value D)
    unfolding checked modify is_zero divide_value
    divide left right = checked left right (do
      zeroed ← is_zero right
      if zeroed
          then throws divide_by_zero
          else modify (divide_value double) double.divide left right)

    unfoldable pub modulo : Value D → Value D → Result (Value D)
    unfolding checked modify is_zero modulo_value val_mod
    modulo left right = checked left right (do
      zeroed ← is_zero right
      if zeroed then throws divide_by_zero else modify (modulo_value double) val_mod left right)

    unfoldable pub compare_equals : Value D → Value D → Result CmpBool
    unfolding checked_compare compare
    compare_equals left right = checked_compare left right (compare eqb_ℤ double.equals left right)

    unfoldable pub compare_not_equals : Value D → Value D → Result CmpBool
    unfolding checked_compare compare
    compare_not_equals left right =
        checked_compare left right
          (compare (λ x y. not (eqb_ℤ x y)) (λ x y. not (double.equals x y)) left right)

    unfoldable pub compare_less_than : Value D → Value D → Result CmpBool
    unfolding checked_compare compare
    compare_less_than left right = checked_compare left right (compare ltb_ℤ double.less left right)

    unfoldable pub compare_less_than_equals : Value D → Value D → Result CmpBool
    unfolding checked_compare compare
    compare_less_than_equals left right =
        checked_compare left right (compare leb_ℤ double.less_equals left right)

    unfoldable pub compare_greater_than : Value D → Value D → Result CmpBool
    unfolding checked_compare compare
    compare_greater_than left right =
        checked_compare left right (compare (λ x y. ltb_ℤ y x) (λ x y. double.less y x) left right)

    unfoldable pub compare_greater_than_equals : Value D → Value D → Result CmpBool
    unfolding checked_compare compare
    compare_greater_than_equals left right =
        checked_compare left right
          (compare (λ x y. leb_ℤ y x) (λ x y. double.less_equals y x) left right)

    -- `null_root` is what the type gives for a null.
    unfoldable pub sqrt : Result (Value D) → Value D → Result (Value D)
    unfolding check_integer value_double
    sqrt null_root val =
        if not (check_integer double val)
        then asserts
        else if val.is_null
        then null_root
        else if ltb_ℤ val.number (pos 0)
        then throws decimal_error
        else value_double double decimal (double.sqrt (double.of_int val.number))

    -- `null_text` is the text of a null.
    unfoldable pub to_string : List ℕ → Value D → Result (List ℕ)
    unfolding check_integer show
    to_string null_text val =
        if not (check_integer double val)
        then asserts
        else if val.is_null
        then gives null_text
        else gives (show val.number)

    -- The bytes that are stored, of a number of `w` bytes in the machine's (little-endian) order, and the
    -- value of the bytes at the front of the storage.
    unfoldable pub serialize_to : ℕ → Value D → List ℕ
    serialize_to w val = to_bytes w (residue (h + h) val.number)

    unfoldable pub deserialize_from : ℕ → List ℕ → Result (Value D)
    unfolding value_of cast
    deserialize_from w storage = value_of double h own (cast h (pos (of_bytes w storage)))
