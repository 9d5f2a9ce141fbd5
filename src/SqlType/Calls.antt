-- ===== src/SqlType/Calls.antt =====
-- src/include/type/value.h and type.cpp: a value's functions, which call those of its type. The table
-- `k_types` has no entry for TIMESTAMP, so a call on such a value reads outside it.
use disk_oriented_concurrenc.Base.{ℕ, List}
use disk_oriented_concurrenc.SqlType.{
  Value, Double, Result, gives, throws, undefined, not_implemented, TypeId, boolean, tinyint,
  smallint, integer, bigint, decimal, varchar, timestamp, CmpBool,
}
use disk_oriented_concurrenc.SqlType.Varlen.{varlen_cast_as, varlen_to_string}
use disk_oriented_concurrenc.SqlType.Strings
use disk_oriented_concurrenc.SqlType.Tinyint
use disk_oriented_concurrenc.SqlType.Smallint
use disk_oriented_concurrenc.SqlType.Integer
use disk_oriented_concurrenc.SqlType.Bigint
use disk_oriented_concurrenc.SqlType.Boolean
use disk_oriented_concurrenc.SqlType.Decimal

module _ {D : Type 0} (double : Double D) (parse_double : List ℕ → Result D) where
  unfoldable pub cast_as : Value D → TypeId → Result (Value D)
  unfolding Boolean.cast_as Tinyint.cast_as Smallint.cast_as Integer.cast_as Bigint.cast_as
      Decimal.cast_as varlen_cast_as
  cast_as v t = elim v.type_id [
    | boolean ↦ Boolean.cast_as double parse_double v t
    | tinyint ↦ Tinyint.cast_as double parse_double v t
    | smallint ↦ Smallint.cast_as double parse_double v t
    | integer ↦ Integer.cast_as double parse_double v t
    | bigint ↦ Bigint.cast_as double parse_double v t
    | decimal ↦ Decimal.cast_as double parse_double v t
    | varchar ↦ varlen_cast_as double parse_double v t
    | timestamp ↦ undefined
    | _ ↦ throws not_implemented
  ]

  unfoldable pub to_string : Value D → Result (List ℕ)
  unfolding Boolean.to_string Tinyint.to_string Smallint.to_string Integer.to_string
      Bigint.to_string Decimal.to_string varlen_to_string
  to_string v = elim v.type_id [
    | boolean ↦ Boolean.to_string double parse_double v
    | tinyint ↦ Tinyint.to_string double parse_double v
    | smallint ↦ Smallint.to_string double parse_double v
    | integer ↦ Integer.to_string double parse_double v
    | bigint ↦ Bigint.to_string double parse_double v
    | decimal ↦ Decimal.to_string double parse_double v
    | varchar ↦ gives (varlen_to_string double parse_double v)
    | timestamp ↦ undefined
    | _ ↦ throws not_implemented
  ]

  unfoldable pub copy : Value D → Result (Value D)
  unfolding Boolean.copy Tinyint.copy Smallint.copy Integer.copy Bigint.copy Decimal.copy
  copy v = elim v.type_id [
    | boolean ↦ Boolean.copy double parse_double v
    | tinyint ↦ Tinyint.copy double parse_double v
    | smallint ↦ Smallint.copy double parse_double v
    | integer ↦ Integer.copy double parse_double v
    | bigint ↦ Bigint.copy double parse_double v
    | decimal ↦ Decimal.copy double parse_double v
    | varchar ↦ gives v
    | timestamp ↦ undefined
    | _ ↦ throws not_implemented
  ]

  unfoldable pub serialize_to : Value D → Result (List ℕ)
  unfolding Boolean.serialize_to Tinyint.serialize_to Smallint.serialize_to Integer.serialize_to
      Bigint.serialize_to Decimal.serialize_to Strings.serialize_to
  serialize_to v = elim v.type_id [
    | boolean ↦ gives (Boolean.serialize_to double parse_double v)
    | tinyint ↦ gives (Tinyint.serialize_to double parse_double v)
    | smallint ↦ gives (Smallint.serialize_to double parse_double v)
    | integer ↦ gives (Integer.serialize_to double parse_double v)
    | bigint ↦ gives (Bigint.serialize_to double parse_double v)
    | decimal ↦ gives (Decimal.serialize_to double parse_double v)
    | varchar ↦ gives (Strings.serialize_to double v)
    | timestamp ↦ undefined
    | _ ↦ throws not_implemented
  ]

  unfoldable pub deserialize_from : List ℕ → TypeId → Result (Value D)
  unfolding Boolean.deserialize_from Tinyint.deserialize_from Smallint.deserialize_from
      Integer.deserialize_from Bigint.deserialize_from Decimal.deserialize_from
      Strings.deserialize_from
  deserialize_from storage t = elim t [
    | boolean ↦ Boolean.deserialize_from double parse_double storage
    | tinyint ↦ Tinyint.deserialize_from double parse_double storage
    | smallint ↦ Smallint.deserialize_from double parse_double storage
    | integer ↦ Integer.deserialize_from double parse_double storage
    | bigint ↦ Bigint.deserialize_from double parse_double storage
    | decimal ↦ Decimal.deserialize_from double parse_double storage
    | varchar ↦ Strings.deserialize_from double storage
    | timestamp ↦ undefined
    | _ ↦ throws not_implemented
  ]

  unfoldable pub operate_null : Value D → Value D → Result (Value D)
  unfolding Tinyint.operate_null Smallint.operate_null Integer.operate_null Bigint.operate_null
      Decimal.operate_null
  operate_null v o = elim v.type_id [
    | tinyint ↦ Tinyint.operate_null double parse_double v o
    | smallint ↦ Smallint.operate_null double parse_double v o
    | integer ↦ Integer.operate_null double parse_double v o
    | bigint ↦ Bigint.operate_null double parse_double v o
    | decimal ↦ Decimal.operate_null double parse_double v o
    | timestamp ↦ undefined
    | _ ↦ throws not_implemented
  ]

  unfoldable pub add : Value D → Value D → Result (Value D)
  unfolding Tinyint.add Smallint.add Integer.add Bigint.add Decimal.add
  add v o = elim v.type_id [
    | tinyint ↦ Tinyint.add double parse_double v o
    | smallint ↦ Smallint.add double parse_double v o
    | integer ↦ Integer.add double parse_double v o
    | bigint ↦ Bigint.add double parse_double v o
    | decimal ↦ Decimal.add double parse_double v o
    | timestamp ↦ undefined
    | _ ↦ throws not_implemented
  ]

  unfoldable pub subtract : Value D → Value D → Result (Value D)
  unfolding Tinyint.subtract Smallint.subtract Integer.subtract Bigint.subtract Decimal.subtract
  subtract v o = elim v.type_id [
    | tinyint ↦ Tinyint.subtract double parse_double v o
    | smallint ↦ Smallint.subtract double parse_double v o
    | integer ↦ Integer.subtract double parse_double v o
    | bigint ↦ Bigint.subtract double parse_double v o
    | decimal ↦ Decimal.subtract double parse_double v o
    | timestamp ↦ undefined
    | _ ↦ throws not_implemented
  ]

  unfoldable pub multiply : Value D → Value D → Result (Value D)
  unfolding Tinyint.multiply Smallint.multiply Integer.multiply Bigint.multiply Decimal.multiply
  multiply v o = elim v.type_id [
    | tinyint ↦ Tinyint.multiply double parse_double v o
    | smallint ↦ Smallint.multiply double parse_double v o
    | integer ↦ Integer.multiply double parse_double v o
    | bigint ↦ Bigint.multiply double parse_double v o
    | decimal ↦ Decimal.multiply double parse_double v o
    | timestamp ↦ undefined
    | _ ↦ throws not_implemented
  ]

  unfoldable pub divide : Value D → Value D → Result (Value D)
  unfolding Tinyint.divide Smallint.divide Integer.divide Bigint.divide Decimal.divide
  divide v o = elim v.type_id [
    | tinyint ↦ Tinyint.divide double parse_double v o
    | smallint ↦ Smallint.divide double parse_double v o
    | integer ↦ Integer.divide double parse_double v o
    | bigint ↦ Bigint.divide double parse_double v o
    | decimal ↦ Decimal.divide double parse_double v o
    | timestamp ↦ undefined
    | _ ↦ throws not_implemented
  ]

  unfoldable pub modulo : Value D → Value D → Result (Value D)
  unfolding Tinyint.modulo Smallint.modulo Integer.modulo Bigint.modulo Decimal.modulo
  modulo v o = elim v.type_id [
    | tinyint ↦ Tinyint.modulo double parse_double v o
    | smallint ↦ Smallint.modulo double parse_double v o
    | integer ↦ Integer.modulo double parse_double v o
    | bigint ↦ Bigint.modulo double parse_double v o
    | decimal ↦ Decimal.modulo double parse_double v o
    | timestamp ↦ undefined
    | _ ↦ throws not_implemented
  ]

  unfoldable pub sqrt : Value D → Result (Value D)
  unfolding Tinyint.sqrt Smallint.sqrt Integer.sqrt Bigint.sqrt Decimal.sqrt
  sqrt v = elim v.type_id [
    | tinyint ↦ Tinyint.sqrt double parse_double v
    | smallint ↦ Smallint.sqrt double parse_double v
    | integer ↦ Integer.sqrt double parse_double v
    | bigint ↦ Bigint.sqrt double parse_double v
    | decimal ↦ Decimal.sqrt double parse_double v
    | timestamp ↦ undefined
    | _ ↦ throws not_implemented
  ]

  unfoldable pub compare_equals : Value D → Value D → Result CmpBool
  unfolding Boolean.compare_equals Tinyint.compare_equals Smallint.compare_equals
      Integer.compare_equals Bigint.compare_equals Decimal.compare_equals Strings.compare_equals
      cast_as
  compare_equals v o = elim v.type_id [
    | boolean ↦ Boolean.compare_equals double parse_double v o
    | tinyint ↦ Tinyint.compare_equals double parse_double v o
    | smallint ↦ Smallint.compare_equals double parse_double v o
    | integer ↦ Integer.compare_equals double parse_double v o
    | bigint ↦ Bigint.compare_equals double parse_double v o
    | decimal ↦ Decimal.compare_equals double parse_double v o
    | varchar ↦ Strings.compare_equals double cast_as v o
    | timestamp ↦ undefined
    | _ ↦ throws not_implemented
  ]

  unfoldable pub compare_not_equals : Value D → Value D → Result CmpBool
  unfolding Boolean.compare_not_equals Tinyint.compare_not_equals Smallint.compare_not_equals
      Integer.compare_not_equals Bigint.compare_not_equals Decimal.compare_not_equals
      Strings.compare_not_equals cast_as
  compare_not_equals v o = elim v.type_id [
    | boolean ↦ Boolean.compare_not_equals double parse_double v o
    | tinyint ↦ Tinyint.compare_not_equals double parse_double v o
    | smallint ↦ Smallint.compare_not_equals double parse_double v o
    | integer ↦ Integer.compare_not_equals double parse_double v o
    | bigint ↦ Bigint.compare_not_equals double parse_double v o
    | decimal ↦ Decimal.compare_not_equals double parse_double v o
    | varchar ↦ Strings.compare_not_equals double cast_as v o
    | timestamp ↦ undefined
    | _ ↦ throws not_implemented
  ]

  unfoldable pub compare_less_than : Value D → Value D → Result CmpBool
  unfolding Boolean.compare_less_than Tinyint.compare_less_than Smallint.compare_less_than
      Integer.compare_less_than Bigint.compare_less_than Decimal.compare_less_than
      Strings.compare_less_than cast_as
  compare_less_than v o = elim v.type_id [
    | boolean ↦ Boolean.compare_less_than double parse_double v o
    | tinyint ↦ Tinyint.compare_less_than double parse_double v o
    | smallint ↦ Smallint.compare_less_than double parse_double v o
    | integer ↦ Integer.compare_less_than double parse_double v o
    | bigint ↦ Bigint.compare_less_than double parse_double v o
    | decimal ↦ Decimal.compare_less_than double parse_double v o
    | varchar ↦ Strings.compare_less_than double cast_as v o
    | timestamp ↦ undefined
    | _ ↦ throws not_implemented
  ]

  unfoldable pub compare_less_than_equals : Value D → Value D → Result CmpBool
  unfolding Boolean.compare_less_than_equals Tinyint.compare_less_than_equals
      Smallint.compare_less_than_equals Integer.compare_less_than_equals
      Bigint.compare_less_than_equals Decimal.compare_less_than_equals
      Strings.compare_less_than_equals cast_as
  compare_less_than_equals v o = elim v.type_id [
    | boolean ↦ Boolean.compare_less_than_equals double parse_double v o
    | tinyint ↦ Tinyint.compare_less_than_equals double parse_double v o
    | smallint ↦ Smallint.compare_less_than_equals double parse_double v o
    | integer ↦ Integer.compare_less_than_equals double parse_double v o
    | bigint ↦ Bigint.compare_less_than_equals double parse_double v o
    | decimal ↦ Decimal.compare_less_than_equals double parse_double v o
    | varchar ↦ Strings.compare_less_than_equals double cast_as v o
    | timestamp ↦ undefined
    | _ ↦ throws not_implemented
  ]

  unfoldable pub compare_greater_than : Value D → Value D → Result CmpBool
  unfolding Boolean.compare_greater_than Tinyint.compare_greater_than Smallint.compare_greater_than
      Integer.compare_greater_than Bigint.compare_greater_than Decimal.compare_greater_than
      Strings.compare_greater_than cast_as
  compare_greater_than v o = elim v.type_id [
    | boolean ↦ Boolean.compare_greater_than double parse_double v o
    | tinyint ↦ Tinyint.compare_greater_than double parse_double v o
    | smallint ↦ Smallint.compare_greater_than double parse_double v o
    | integer ↦ Integer.compare_greater_than double parse_double v o
    | bigint ↦ Bigint.compare_greater_than double parse_double v o
    | decimal ↦ Decimal.compare_greater_than double parse_double v o
    | varchar ↦ Strings.compare_greater_than double cast_as v o
    | timestamp ↦ undefined
    | _ ↦ throws not_implemented
  ]

  unfoldable pub compare_greater_than_equals : Value D → Value D → Result CmpBool
  unfolding Boolean.compare_greater_than_equals Tinyint.compare_greater_than_equals
      Smallint.compare_greater_than_equals Integer.compare_greater_than_equals
      Bigint.compare_greater_than_equals Decimal.compare_greater_than_equals
      Strings.compare_greater_than_equals cast_as
  compare_greater_than_equals v o = elim v.type_id [
    | boolean ↦ Boolean.compare_greater_than_equals double parse_double v o
    | tinyint ↦ Tinyint.compare_greater_than_equals double parse_double v o
    | smallint ↦ Smallint.compare_greater_than_equals double parse_double v o
    | integer ↦ Integer.compare_greater_than_equals double parse_double v o
    | bigint ↦ Bigint.compare_greater_than_equals double parse_double v o
    | decimal ↦ Decimal.compare_greater_than_equals double parse_double v o
    | varchar ↦ Strings.compare_greater_than_equals double cast_as v o
    | timestamp ↦ undefined
    | _ ↦ throws not_implemented
  ]
