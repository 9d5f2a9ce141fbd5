-- ===== src/SqlType/Operations.antt =====
-- src/type/*_type.cpp: what an operation on two values of integer types comes to, whichever the two types are:
-- the null of the wider one, or what the templates of integer_parent_type.h compute with their widths.
use disk_oriented_concurrenc.Base.{
  ℕ, ◌≡◌, refl, Bool, true, false, ◌||◌, List, arith, leb, if◌then◌else◌,
}
use disk_oriented_concurrenc.SqlType.Int.{ℤ, pos, eqb_ℤ, cast}
use disk_oriented_concurrenc.SqlType.{
  ◌>>=◌, Value, Double, Result, gives, throws, divide_by_zero, half8, half16, half32, half64,
  TypeId, tinyint, smallint, integer, bigint, with_number, null_number, check_integer,
  check_comparable, is_integer, is_numeric, value_int8, value_int16, value_int32, value_int64,
  set_integer, cmp_null, get_cmp_bool,
}
use disk_oriented_concurrenc.SqlType.Arithmetic.{value_of}
use disk_oriented_concurrenc.SqlType.Integers
use disk_oriented_concurrenc.SqlType.Tinyint
use disk_oriented_concurrenc.SqlType.Smallint
use disk_oriented_concurrenc.SqlType.Integer
use disk_oriented_concurrenc.SqlType.Bigint
use disk_oriented_concurrenc.SqlType.Calls

-- The half of an integer type, 0 of another.
abbrev pub half : TypeId → ℕ
half tinyint = half8
half smallint = half16
half integer = half32
half bigint = half64
half _ = 0

-- Whether a type is one.
abbrev pub sized : TypeId → Bool
sized tinyint = true
sized smallint = true
sized integer = true
sized bigint = true
sized _ = false

abbrev pub wider : TypeId → TypeId → TypeId
wider t u = if leb (half u) (half t) then t else u

module _ {D : Type 0} (double : Double D) (parse_double : List ℕ → Result D) where
  -- The null of the wider of two types.
  abbrev pub null_of : TypeId → TypeId → Value D
  null_of t u = with_number double (wider t u) true (null_number (half (wider t u)))

  abbrev pub value : TypeId → Bool → ℤ → D → List ℕ → Value D
  value t n x d s = record { type_id = t; is_null = n; number = x; real = d; text = s }

  pub operate_null_cases :
      (t u : TypeId) (n m : Bool) (x y : ℤ) (d e : D) (r s : List ℕ)
      → sized t ≡ true
      → sized u ≡ true
      → Calls.operate_null double parse_double (value t n x d r) (value u m y e s)
        ≡ gives (null_of t u)
  unfolding Calls.operate_null Tinyint.operate_null Smallint.operate_null Integer.operate_null
      Bigint.operate_null value_of value_int8 value_int16 value_int32 value_int64 set_integer cast
  operate_null_cases tinyint tinyint n m x y d e r s p q = refl
  operate_null_cases tinyint smallint n m x y d e r s p q = refl
  operate_null_cases tinyint integer n m x y d e r s p q = refl
  operate_null_cases tinyint bigint n m x y d e r s p q = refl
  operate_null_cases smallint tinyint n m x y d e r s p q = refl
  operate_null_cases smallint smallint n m x y d e r s p q = refl
  operate_null_cases smallint integer n m x y d e r s p q = refl
  operate_null_cases smallint bigint n m x y d e r s p q = refl
  operate_null_cases integer tinyint n m x y d e r s p q = refl
  operate_null_cases integer smallint n m x y d e r s p q = refl
  operate_null_cases integer integer n m x y d e r s p q = refl
  operate_null_cases integer bigint n m x y d e r s p q = refl
  operate_null_cases bigint tinyint n m x y d e r s p q = refl
  operate_null_cases bigint smallint n m x y d e r s p q = refl
  operate_null_cases bigint integer n m x y d e r s p q = refl
  operate_null_cases bigint bigint n m x y d e r s p q = refl
  operate_null_cases t u n m x y d e r s p q = absurd (ground arith)

  pub assertions :
      (t u : TypeId) (n m : Bool) (x y : ℤ) (d e : D) (r s : List ℕ)
      → sized t ≡ true
      → sized u ≡ true
      → (check_integer double (value t n x d r) ≡ true)
        × (check_comparable double (value t n x d r) (value u m y e s) ≡ true)
  unfolding check_integer check_comparable is_integer is_numeric
  assertions t u n m x y d e r s p q = ground arith

  -- The switch of the macros, on a type that is an integer type.
  modify_cases :
      (own : TypeId) (h : ℕ) (null : Value D → Value D → Result (Value D))
      (method : ℕ → ℕ → Value D → Value D → Result (Value D)) (op : D → D → D) (left : Value D)
      (u : TypeId) (m : Bool) (y : ℤ) (e : D) (s : List ℕ)
      → sized u ≡ true
      → Integers.modify double parse_double own h null method op left (value u m y e s)
        ≡ method h (half u) left (value u m y e s)
  unfolding Integers.modify
  modify_cases own h null method op left tinyint m y e s q = refl
  modify_cases own h null method op left smallint m y e s q = refl
  modify_cases own h null method op left integer m y e s q = refl
  modify_cases own h null method op left bigint m y e s q = refl
  modify_cases own h null method op left u m y e s q = absurd (ground arith)

  compare_cases :
      (own : TypeId) (h : ℕ) (null : Value D → Value D → Result (Value D)) (test : ℤ → ℤ → Bool)
      (test_double : D → D → Bool) (left : Value D) (u : TypeId) (m : Bool) (y : ℤ) (e : D)
      (s : List ℕ)
      → sized u ≡ true
      → Integers.compare double parse_double own h null test test_double left (value u m y e s)
        ≡ gives (get_cmp_bool (test left.number y))
  unfolding Integers.compare
  compare_cases own h null test test_double left tinyint m y e s q = refl
  compare_cases own h null test test_double left smallint m y e s q = refl
  compare_cases own h null test test_double left integer m y e s q = refl
  compare_cases own h null test test_double left bigint m y e s q = refl
  compare_cases own h null test test_double left u m y e s q = absurd (ground arith)

  is_zero_cases :
      (u : TypeId) (m : Bool) (y : ℤ) (e : D) (s : List ℕ)
      → sized u ≡ true
      → Integers.is_zero double parse_double (value u m y e s) ≡ gives (eqb_ℤ y (pos 0))
  unfolding Integers.is_zero
  is_zero_cases tinyint m y e s q = refl
  is_zero_cases smallint m y e s q = refl
  is_zero_cases integer m y e s q = refl
  is_zero_cases bigint m y e s q = refl
  is_zero_cases u m y e s q = absurd (ground arith)

  module _ (null : Value D → Value D → Result (Value D)) (t u : TypeId) (n m : Bool) (x y : ℤ)
      (d e : D) (r s : List ℕ) (p : sized t ≡ true) (q : sized u ≡ true)
      (z : null (value t n x d r) (value u m y e s) ≡ gives (null_of t u)) where
    -- A sum, a difference or a product.
    pub modified :
        (method : ℕ → ℕ → Value D → Value D → Result (Value D)) (op : D → D → D)
        → let left = value t n x d r in
          let right = value u m y e s in
          Integers.checked double parse_double t
            (half t)
            null
            left
            right
            (Integers.modify double parse_double t (half t) null method op left right)
          ≡ (if n || m then gives (null_of t u) else method (half t) (half u) left right)
    unfolding Integers.checked
    modified method op =
        let a = assertions t u n m x y d e r s p q in
        rw (a.0, a.1, z, modify_cases t (half t) null method op (value t n x d r) u m y e s q) refl

    -- A quotient or a remainder.
    pub divided :
        (method : ℕ → ℕ → Value D → Value D → Result (Value D)) (op : D → D → D)
        → let left = value t n x d r in
          let right = value u m y e s in
          Integers.checked double parse_double t (half t) null left right (
            Integers.is_zero double parse_double right >>= λ zeroed.
            if zeroed
            then throws divide_by_zero
            else Integers.modify double parse_double t (half t) null method op left right)
          ≡ (if n || m
              then gives (null_of t u)
              else if eqb_ℤ y (pos 0)
              then throws divide_by_zero
              else method (half t) (half u) left right)
    unfolding Integers.checked
    divided method op =
        let a = assertions t u n m x y d e r s p q in
        rw
          (
            a.0,
            a.1,
            z,
            is_zero_cases u m y e s q,
            modify_cases t (half t) null method op (value t n x d r) u m y e s q,
          )
          refl

    pub compared :
        (test : ℤ → ℤ → Bool) (test_double : D → D → Bool)
        → let left = value t n x d r in
          let right = value u m y e s in
          Integers.checked_compare double parse_double t
            (half t)
            null
            left
            right
            (Integers.compare double parse_double t (half t) null test test_double left right)
          ≡ (if n || m then gives cmp_null else gives (get_cmp_bool (test x y)))
    unfolding Integers.checked_compare
    compared test test_double =
        let a = assertions t u n m x y d e r s p q in
        rw (a.0, a.1, compare_cases t (half t) null test test_double (value t n x d r) u m y e s q)
          refl
