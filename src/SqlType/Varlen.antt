-- ===== src/SqlType/Varlen.antt =====
-- src/type/varlen_type.cpp: a string as a value of another type.
use disk_oriented_concurrenc.Base.{
  ℕ, ◌+◌, ◌-◌, Bool, true, false, ◌&&◌, ◌||◌, List, [], ◌∷◌, leb, ◌==◌, if◌then◌else◌,
}
use disk_oriented_concurrenc.SqlType.Int.{pos, negsuc, ltb_ℤ, cast}
use disk_oriented_concurrenc.SqlType.Text.{parse}
use disk_oriented_concurrenc.SqlType.{
  ◌>>=◌, Value, Double, Result, gives, throws, plain, out_of_range, TypeId, boolean, tinyint,
  smallint, integer, bigint, decimal, varchar, half8, half16, half32, half64, value_int8,
  value_int16, value_int32, value_int64, value_double,
}

abbrev pub all_but_last : List ℕ → List ℕ
all_but_last [] = []
all_but_last (c ∷ []) = []
all_but_last (c ∷ d ∷ cs) = c ∷ all_but_last (d ∷ cs)

-- `tolower`
abbrev pub lower : ℕ → ℕ
lower c = if leb 65 c && leb c 90 then c + 32 else c

abbrev pub lower_all : List ℕ → List ℕ
lower_all [] = []
lower_all (c ∷ cs) = lower c ∷ lower_all cs

abbrev pub same_text : List ℕ → List ℕ → Bool
same_text [] [] = true
same_text (c ∷ cs) (d ∷ ds) = c == d && same_text cs ds
same_text _ _ = false

module _ {D : Type 0} (double : Double D) (parse_double : List ℕ → Result D) where
  -- `ToString`; "varlen_null" for a null.
  unfoldable pub varlen_to_string : Value D → List ℕ
  varlen_to_string v =
      if v.is_null
      then 118 ∷ 97 ∷ 114 ∷ 108 ∷ 101 ∷ 110 ∷ 95 ∷ 110 ∷ 117 ∷ 108 ∷ 108 ∷ []
      else all_but_last v.text

  -- The value of a boolean: "true", "1" or "t", and "false", "0" or "f".
  unfoldable pub varlen_to_boolean : List ℕ → Result (Value D)
  unfolding value_int32
  varlen_to_boolean s =
      if same_text s (116 ∷ 114 ∷ 117 ∷ 101 ∷ []) || same_text s (49 ∷ []) || same_text s (116 ∷ [])
      then value_int32 double boolean (pos 1)
      else if same_text s (102 ∷ 97 ∷ 108 ∷ 115 ∷ 101 ∷ [])
          || same_text s (48 ∷ [])
          || same_text s (102 ∷ [])
      then value_int32 double boolean (pos 0)
      else throws plain

  -- `CastAs`; `parse_double` stands for `stod`.
  unfoldable pub varlen_cast_as : Value D → TypeId → Result (Value D)
  unfolding varlen_to_string varlen_to_boolean parse value_int8 value_int16 value_int32 value_int64
      value_double
  varlen_cast_as v boolean = varlen_to_boolean (lower_all (varlen_to_string v))
  varlen_cast_as v tinyint = do
    x ← parse half32 (varlen_to_string v)
    if ltb_ℤ (cast half8 x) (negsuc (half8 - 2))
        then throws out_of_range
        else value_int8 double tinyint (cast half8 x)
  varlen_cast_as v smallint = do
    x ← parse half32 (varlen_to_string v)
    if ltb_ℤ (cast half16 x) (negsuc (half16 - 2))
        then throws out_of_range
        else value_int16 double smallint (cast half16 x)
  varlen_cast_as v integer = do
    x ← parse half32 (varlen_to_string v)
    if ltb_ℤ (pos (half32 - 1)) x || ltb_ℤ x (negsuc (half32 - 2))
        then throws out_of_range
        else value_int32 double integer x
  varlen_cast_as v bigint = do
    x ← parse half64 (varlen_to_string v)
    if ltb_ℤ (pos (half64 - 1)) x || ltb_ℤ x (negsuc (half64 - 2))
        then throws out_of_range
        else value_int64 double bigint x
  varlen_cast_as v decimal = do
    d ← parse_double (varlen_to_string v)
    if double.less double.highest d || double.less d double.lowest
        then throws out_of_range
        else value_double double decimal d
  varlen_cast_as v varchar = gives v
  varlen_cast_as v _ = throws plain
