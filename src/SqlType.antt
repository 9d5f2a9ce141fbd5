-- ===== src/SqlType.antt =====
-- src/type/value.cpp, src/include/type/value.h, limits.h and type.cpp: the values of SQL types and how they
-- are made. The members of a value's union are fields of their own: every integer member is `number`, and
-- a varchar's bytes, with the NUL at their end, are `text`. `Double` stands for `double` and what the types
-- use of it.
pub mod Int
pub mod Arithmetic
pub mod Cast
pub mod Bounds
pub mod Text
pub mod Varlen
pub mod Integers
pub mod Tinyint
pub mod Smallint
pub mod Integer
pub mod Bigint
pub mod Boolean
pub mod Decimal
pub mod Strings
pub mod Calls
pub mod Extremes
pub mod Operations
pub mod Division
pub mod Exact
pub mod Quotients
pub mod Comparisons
pub mod Order
pub mod Casts
pub mod Storage
pub mod Printing
pub mod Texts
pub mod Selection
mod Tests
use disk_oriented_concurrenc.Base.{
  ℕ, zero, suc, ◌+◌, ◌-◌, ◌*◌, ◌/◌, ◌%◌, ◌≡◌, Bool, true, false, not, ◌&&◌, ◌||◌, Option, none,
  some, List, [], ◌∷◌, ◌++◌, arith, ltb, leb, ◌==◌, if◌then◌else◌,
}
use disk_oriented_concurrenc.SqlType.Int.{ℤ, pos, negsuc, eqb_ℤ, residue, cast}

pub data TypeId : Type 0 where
  invalid : TypeId
  boolean : TypeId
  tinyint : TypeId
  smallint : TypeId
  integer : TypeId
  bigint : TypeId
  decimal : TypeId
  varchar : TypeId
  timestamp : TypeId

pub data CmpBool : Type 0 where
  cmp_false : CmpBool
  cmp_true : CmpBool
  cmp_null : CmpBool

unfoldable pub get_cmp_bool : Bool → CmpBool
get_cmp_bool b = if b then cmp_true else cmp_false

-- `ExceptionType`, the types that are thrown here, and `std::invalid_argument`.
pub data ExceptionType : Type 0 where
  plain : ExceptionType
  out_of_range : ExceptionType
  decimal_error : ExceptionType
  divide_by_zero : ExceptionType
  incompatible_type : ExceptionType
  mismatch_type : ExceptionType
  unknown_type : ExceptionType
  not_implemented : ExceptionType
  invalid_argument : ExceptionType

-- A call gives a value, throws, fails an assertion, or has computed what C++ leaves undefined.
pub data Result {ℓ} (A : Type ℓ) : Type ℓ where
  gives : A → Result A
  throws : ExceptionType → Result A
  asserts : Result A
  undefined : Result A

infixl 5 ◌>>=◌
abbrev pub ◌>>=◌ {ℓ κ} : {A : Type ℓ} {B : Type κ} → Result A → (A → Result B) → Result B
gives a >>= f = f a
throws e >>= f = throws e
asserts >>= f = asserts
undefined >>= f = undefined

pub record Double (D : Type 0) : Type 0 where
  pub null : D
  pub lowest : D
  pub highest : D
  pub of_int : ℤ → D
  pub add : D → D → D
  pub subtract : D → D → D
  pub multiply : D → D → D
  pub divide : D → D → D
  pub trunc : D → D
  pub sqrt : D → D
  pub equals : D → D → Bool
  pub less : D → D → Bool
  pub less_equals : D → D → Bool
  pub to_int : D → ℤ
  pub to_string : D → List ℕ
  pub to_bytes : D → List ℕ
  pub of_bytes : List ℕ → D

pub record Value (D : Type 0) : Type 0 where
  pub type_id : TypeId
  pub is_null : Bool
  pub number : ℤ
  pub real : D
  pub text : List ℕ

-- 2^(w-1) for the integer types of w bits, whose least value stands for null.
abbrev pub half8 : ℕ
half8 = 128

abbrev pub half16 : ℕ
half16 = 32768

abbrev pub half32 : ℕ
half32 = 2147483648

abbrev pub half64 : ℕ
half64 = 9223372036854775808

-- The least value of a type, `BUSTUB_INT8_NULL` and so on.
abbrev pub null_number : ℕ → ℤ
null_number h = negsuc (h - 1)

-- `GetTypeSize`
unfoldable pub get_type_size : TypeId → Result ℕ
get_type_size boolean = gives 1
get_type_size tinyint = gives 1
get_type_size smallint = gives 2
get_type_size integer = gives 4
get_type_size bigint = gives 8
get_type_size decimal = gives 8
get_type_size timestamp = gives 8
get_type_size varchar = gives 0
get_type_size invalid = throws unknown_type

unfoldable pub is_integer : TypeId → Bool
is_integer tinyint = true
is_integer smallint = true
is_integer integer = true
is_integer bigint = true
is_integer _ = false

-- The types that a number compares with.
unfoldable pub is_numeric : TypeId → Bool
unfolding is_integer
is_numeric decimal = true
is_numeric varchar = true
is_numeric t = is_integer t

-- `IsCoercableFrom`
unfoldable pub is_coercable_from : TypeId → TypeId → Bool
unfolding is_numeric
is_coercable_from invalid t = false
is_coercable_from boolean t = true
is_coercable_from timestamp varchar = true
is_coercable_from timestamp timestamp = true
is_coercable_from timestamp t = false
is_coercable_from varchar invalid = false
is_coercable_from varchar t = true
is_coercable_from t u = is_numeric u

module _ {D : Type 0} (double : Double D) where
  -- A value of a type, whose integer member is set.
  abbrev pub with_number : TypeId → Bool → ℤ → Value D
  with_number t n x = record {
    type_id = t;
    is_null = n;
    number = x;
    real = double.of_int (pos 0);
    text = [];
  }

  -- The member is the number cast to a type of 2 * h patterns, and the value is null for its least one.
  abbrev pub member : TypeId → ℕ → ℤ → Value D
  member t h x = with_number t (eqb_ℤ (cast h x) (null_number h)) (cast h x)

  -- The cases that the four constructors of integers share.
  unfoldable pub set_integer : TypeId → ℤ → Result (Value D)
  unfolding cast
  set_integer boolean x = gives (member boolean half8 x)
  set_integer tinyint x = gives (member tinyint half8 x)
  set_integer smallint x = gives (member smallint half16 x)
  set_integer integer x = gives (member integer half32 x)
  set_integer bigint x = gives (member bigint half64 x)
  set_integer t x = throws incompatible_type

  -- And the case of `TIMESTAMP`, an unsigned word, whose largest value stands for null.
  unfoldable pub set_timestamp : ℤ → Value D
  set_timestamp x =
      let m = residue (half64 + half64) x in
      with_number timestamp (m == half64 + half64 - 1) (pos m)

  -- `Value(type, int8_t)`, `Value(type, int16_t)`, `Value(type, int32_t)` and `Value(type, int64_t)`.
  unfoldable pub value_int8 : TypeId → ℤ → Result (Value D)
  unfolding set_integer
  value_int8 t x = set_integer t x

  unfoldable pub value_int16 : TypeId → ℤ → Result (Value D)
  unfolding set_integer set_timestamp
  value_int16 timestamp x = gives (set_timestamp x)
  value_int16 t x = set_integer t x

  unfoldable pub value_int32 : TypeId → ℤ → Result (Value D)
  unfolding set_integer set_timestamp
  value_int32 timestamp x = gives (set_timestamp x)
  value_int32 t x = set_integer t x

  unfoldable pub value_int64 : TypeId → ℤ → Result (Value D)
  unfolding set_integer set_timestamp
  value_int64 timestamp x = gives (set_timestamp x)
  value_int64 t x = set_integer t x

  -- `Value(type, double)`
  unfoldable pub value_double : TypeId → D → Result (Value D)
  value_double decimal d = gives (record {
    type_id = decimal;
    is_null = double.equals d double.null;
    number = pos 0;
    real = d;
    text = [];
  })
  value_double t d = throws incompatible_type

  -- `Value(type, string)`, and `Value(type, nullptr, 0, false)`.
  unfoldable pub value_string : TypeId → List ℕ → Result (Value D)
  value_string varchar s = gives (record {
    type_id = varchar;
    is_null = false;
    number = pos 0;
    real = double.of_int (pos 0);
    text = s ++ 0 ∷ [];
  })
  value_string t s = throws incompatible_type

  unfoldable pub null_string : TypeId → Result (Value D)
  null_string varchar = gives (record {
    type_id = varchar;
    is_null = true;
    number = pos 0;
    real = double.of_int (pos 0);
    text = [];
  })
  null_string t = throws incompatible_type

  unfoldable pub check_integer : Value D → Bool
  unfolding is_integer
  check_integer v = is_integer v.type_id

  unfoldable pub check_comparable : Value D → Value D → Bool
  unfolding is_integer is_numeric
  check_comparable v o = elim v.type_id [
    | boolean ↦ elim o.type_id [ boolean ↦ true | varchar ↦ true | _ ↦ false ]
    | varchar ↦ true
    | decimal ↦ is_numeric o.type_id
    | t ↦ is_integer t && is_numeric o.type_id
  ]

  -- `GetMinValue` and `GetMaxValue`
  unfoldable pub get_min_value : TypeId → Result (Value D)
  unfolding value_int8 value_int16 value_int32 value_int64 value_double value_string
  get_min_value boolean = value_int32 boolean (pos 0)
  get_min_value tinyint = value_int8 tinyint (negsuc (half8 - 2))
  get_min_value smallint = value_int16 smallint (negsuc (half16 - 2))
  get_min_value integer = value_int32 integer (negsuc (half32 - 2))
  get_min_value bigint = value_int64 bigint (negsuc (half64 - 2))
  get_min_value decimal = value_double decimal double.lowest
  get_min_value timestamp = value_int32 timestamp (pos 0)
  get_min_value varchar = value_string varchar []
  get_min_value invalid = throws mismatch_type

  unfoldable pub get_max_value : TypeId → Result (Value D)
  unfolding value_int8 value_int16 value_int32 value_int64 value_double set_timestamp null_string
  get_max_value boolean = value_int32 boolean (pos 1)
  get_max_value tinyint = value_int8 tinyint (pos (half8 - 1))
  get_max_value smallint = value_int16 smallint (pos (half16 - 1))
  get_max_value integer = value_int32 integer (pos (half32 - 1))
  get_max_value bigint = value_int64 bigint (pos (half64 - 1))
  get_max_value decimal = value_double decimal double.highest
  get_max_value timestamp = gives (set_timestamp (pos 11231999986399999999))
  get_max_value varchar = null_string varchar
  get_max_value invalid = throws mismatch_type
