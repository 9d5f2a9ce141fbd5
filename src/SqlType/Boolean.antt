-- ===== src/SqlType/Boolean.antt =====
-- src/type/boolean_type.cpp: the type of booleans, whose member has 8 bits.
use disk_oriented_concurrenc.Base.{ℕ, ◌+◌, Bool, not, ◌||◌, List, [], ◌∷◌, if◌then◌else◌}
use disk_oriented_concurrenc.SqlType.Int.{ℤ, pos, eqb_ℤ, ltb_ℤ, leb_ℤ, residue, cast}
use disk_oriented_concurrenc.SqlType.Integers.{to_bytes, of_bytes, to_varchar}
use disk_oriented_concurrenc.SqlType.Varlen.{varlen_cast_as}
use disk_oriented_concurrenc.SqlType.{
  ◌>>=◌, Value, Double, Result, gives, throws, asserts, plain, TypeId, boolean, varchar, CmpBool,
  cmp_null, get_cmp_bool, half8, value_int8, check_comparable,
}

module _ {D : Type 0} (double : Double D) (parse_double : List ℕ → Result D) where
  unfoldable pub copy : Value D → Result (Value D)
  unfolding value_int8
  copy val = value_int8 double boolean val.number

  -- The macro: the right operand, a boolean or a string, is cast to a boolean.
  unfoldable pub compare : (ℤ → ℤ → Bool) → Value D → Value D → Result CmpBool
  unfolding varlen_cast_as get_cmp_bool copy
  compare test left right = elim right.type_id [
    | boolean ↦ copy right >>= λ r. gives (get_cmp_bool (test left.number r.number))
    | varchar ↦ varlen_cast_as double parse_double right boolean >>= λ r.
        gives (get_cmp_bool (test left.number r.number))
    | _ ↦ throws plain
  ]

  -- The steps that the six comparisons share.
  unfoldable pub checked_compare : (ℤ → ℤ → Bool) → Value D → Value D → Result CmpBool
  unfolding check_comparable compare
  checked_compare test left right =
      if not (check_comparable double left right)
      then asserts
      else if left.is_null || right.is_null
      then gives cmp_null
      else compare test left right

  unfoldable pub compare_equals : Value D → Value D → Result CmpBool
  unfolding checked_compare
  compare_equals = checked_compare eqb_ℤ

  unfoldable pub compare_not_equals : Value D → Value D → Result CmpBool
  unfolding checked_compare
  compare_not_equals = checked_compare (λ x y. not (eqb_ℤ x y))

  unfoldable pub compare_less_than : Value D → Value D → Result CmpBool
  unfolding checked_compare
  compare_less_than = checked_compare ltb_ℤ

  unfoldable pub compare_less_than_equals : Value D → Value D → Result CmpBool
  unfolding checked_compare
  compare_less_than_equals = checked_compare leb_ℤ

  unfoldable pub compare_greater_than : Value D → Value D → Result CmpBool
  unfolding checked_compare
  compare_greater_than = checked_compare (λ x y. ltb_ℤ y x)

  unfoldable pub compare_greater_than_equals : Value D → Value D → Result CmpBool
  unfolding checked_compare
  compare_greater_than_equals = checked_compare (λ x y. leb_ℤ y x)

  unfoldable pub to_string : Value D → Result (List ℕ)
  to_string val =
      if eqb_ℤ val.number (pos 1)
      then gives (116 ∷ 114 ∷ 117 ∷ 101 ∷ [])
      else if eqb_ℤ val.number (pos 0)
      then gives (102 ∷ 97 ∷ 108 ∷ 115 ∷ 101 ∷ [])
      else gives (98 ∷ 111 ∷ 111 ∷ 108 ∷ 101 ∷ 97 ∷ 110 ∷ 95 ∷ 110 ∷ 117 ∷ 108 ∷ 108 ∷ [])

  unfoldable pub serialize_to : Value D → List ℕ
  serialize_to val = to_bytes 1 (residue (half8 + half8) val.number)

  unfoldable pub deserialize_from : List ℕ → Result (Value D)
  unfolding value_int8 cast
  deserialize_from storage = value_int8 double boolean (cast half8 (pos (of_bytes 1 storage)))

  unfoldable pub cast_as : Value D → TypeId → Result (Value D)
  unfolding copy to_varchar to_string
  cast_as val boolean = copy val
  cast_as val varchar = to_varchar double parse_double to_string val
  cast_as val _ = throws plain
