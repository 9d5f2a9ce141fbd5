-- ===== src/SqlType/Exact.antt =====
-- src/include/type/value.h: `Add`, `Subtract` and `Multiply` of two values of integer types.
use disk_oriented_concurrenc.Base.{
  ℕ, ◌≡◌, ap, ◌∙◌, Bool, true, ◌||◌, some, List, arith, if◌then◌else◌,
}
use disk_oriented_concurrenc.SqlType.Int.{ℤ, ◌+ℤ◌, ◌-ℤ◌, ◌*ℤ◌}
use disk_oriented_concurrenc.SqlType.{
  Value, Double, Result, gives, TypeId, tinyint, smallint, integer, bigint,
}
use disk_oriented_concurrenc.SqlType.Arithmetic.{add_value, subtract_value, multiply_value}
use disk_oriented_concurrenc.SqlType.Bounds.{
  half_of, Typed, exact, add_value-exact, subtract_value-exact, multiply_value-exact,
}
use disk_oriented_concurrenc.SqlType.Operations.{
  half, sized, null_of, value, operate_null_cases, modified,
}
use disk_oriented_concurrenc.SqlType.Integers
use disk_oriented_concurrenc.SqlType.Tinyint
use disk_oriented_concurrenc.SqlType.Smallint
use disk_oriented_concurrenc.SqlType.Integer
use disk_oriented_concurrenc.SqlType.Bigint
use disk_oriented_concurrenc.SqlType.Calls

pub sized-Typed : (t : TypeId) (h : ℕ) → half_of t ≡ some h → sized t ≡ true
sized-Typed t h e = ground arith

module _ {D : Type 0} (double : Double D) (parse_double : List ℕ → Result D) where
  add_cases :
      (t u : TypeId) (n m : Bool) (x y : ℤ) (d e : D) (r s : List ℕ)
      → sized t ≡ true
      → sized u ≡ true
      → Calls.add double parse_double
          (value double parse_double t n x d r)
          (value double parse_double u m y e s)
        ≡ (if n || m
            then gives (null_of double parse_double t u)
            else add_value double
                (half t)
                (half u)
                (value double parse_double t n x d r)
                (value double parse_double u m y e s))
  unfolding Calls.add Tinyint.add Smallint.add Integer.add Bigint.add Integers.add
      Calls.operate_null Tinyint.operate_null Smallint.operate_null Integer.operate_null
      Bigint.operate_null
  add_cases tinyint u n m x y d e r s p q =
      modified double parse_double (Tinyint.operate_null double parse_double) tinyint u n m x y d e
        r s p q (operate_null_cases double parse_double tinyint u n m x y d e r s p q)
        (add_value double) double.add
  add_cases smallint u n m x y d e r s p q =
      modified double parse_double (Smallint.operate_null double parse_double) smallint u n m x y d
        e r s p q (operate_null_cases double parse_double smallint u n m x y d e r s p q)
        (add_value double) double.add
  add_cases integer u n m x y d e r s p q =
      modified double parse_double (Integer.operate_null double parse_double) integer u n m x y d e
        r s p q (operate_null_cases double parse_double integer u n m x y d e r s p q)
        (add_value double) double.add
  add_cases bigint u n m x y d e r s p q =
      modified double parse_double (Bigint.operate_null double parse_double) bigint u n m x y d e r
        s p q (operate_null_cases double parse_double bigint u n m x y d e r s p q)
        (add_value double) double.add
  add_cases t u n m x y d e r s p q = absurd (ground arith)

  subtract_cases :
      (t u : TypeId) (n m : Bool) (x y : ℤ) (d e : D) (r s : List ℕ)
      → sized t ≡ true
      → sized u ≡ true
      → Calls.subtract double parse_double
          (value double parse_double t n x d r)
          (value double parse_double u m y e s)
        ≡ (if n || m
            then gives (null_of double parse_double t u)
            else subtract_value double
                (half t)
                (half u)
                (value double parse_double t n x d r)
                (value double parse_double u m y e s))
  unfolding Calls.subtract Tinyint.subtract Smallint.subtract Integer.subtract Bigint.subtract
      Integers.subtract Calls.operate_null Tinyint.operate_null Smallint.operate_null
      Integer.operate_null Bigint.operate_null
  subtract_cases tinyint u n m x y d e r s p q =
      modified double parse_double (Tinyint.operate_null double parse_double) tinyint u n m x y d e
        r s p q (operate_null_cases double parse_double tinyint u n m x y d e r s p q)
        (subtract_value double) double.subtract
  subtract_cases smallint u n m x y d e r s p q =
      modified double parse_double (Smallint.operate_null double parse_double) smallint u n m x y d
        e r s p q (operate_null_cases double parse_double smallint u n m x y d e r s p q)
        (subtract_value double) double.subtract
  subtract_cases integer u n m x y d e r s p q =
      modified double parse_double (Integer.operate_null double parse_double) integer u n m x y d e
        r s p q (operate_null_cases double parse_double integer u n m x y d e r s p q)
        (subtract_value double) double.subtract
  subtract_cases bigint u n m x y d e r s p q =
      modified double parse_double (Bigint.operate_null double parse_double) bigint u n m x y d e r
        s p q (operate_null_cases double parse_double bigint u n m x y d e r s p q)
        (subtract_value double) double.subtract
  subtract_cases t u n m x y d e r s p q = absurd (ground arith)

  multiply_cases :
      (t u : TypeId) (n m : Bool) (x y : ℤ) (d e : D) (r s : List ℕ)
      → sized t ≡ true
      → sized u ≡ true
      → Calls.multiply double parse_double
          (value double parse_double t n x d r)
          (value double parse_double u m y e s)
        ≡ (if n || m
            then gives (null_of double parse_double t u)
            else multiply_value double
                (half t)
                (half u)
                (value double parse_double t n x d r)
                (value double parse_double u m y e s))
  unfolding Calls.multiply Tinyint.multiply Smallint.multiply Integer.multiply Bigint.multiply
      Integers.multiply Calls.operate_null Tinyint.operate_null Smallint.operate_null
      Integer.operate_null Bigint.operate_null
  multiply_cases tinyint u n m x y d e r s p q =
      modified double parse_double (Tinyint.operate_null double parse_double) tinyint u n m x y d e
        r s p q (operate_null_cases double parse_double tinyint u n m x y d e r s p q)
        (multiply_value double) double.multiply
  multiply_cases smallint u n m x y d e r s p q =
      modified double parse_double (Smallint.operate_null double parse_double) smallint u n m x y d
        e r s p q (operate_null_cases double parse_double smallint u n m x y d e r s p q)
        (multiply_value double) double.multiply
  multiply_cases integer u n m x y d e r s p q =
      modified double parse_double (Integer.operate_null double parse_double) integer u n m x y d e
        r s p q (operate_null_cases double parse_double integer u n m x y d e r s p q)
        (multiply_value double) double.multiply
  multiply_cases bigint u n m x y d e r s p q =
      modified double parse_double (Bigint.operate_null double parse_double) bigint u n m x y d e r
        s p q (operate_null_cases double parse_double bigint u n m x y d e r s p q)
        (multiply_value double) double.multiply
  multiply_cases t u n m x y d e r s p q = absurd (ground arith)

  -- The sum of two values of integer types, whichever two they are: if one is null, the null of the wider type
  -- (of the left one if they are the same). Otherwise, where the exact sum is in the range of the wider type,
  -- the value of that type whose number it is (and which is null exactly for the type's least pattern);
  -- OUT_OF_RANGE is thrown where it is not, but where it is not even in the range of `int` (of 64 bits if one
  -- type is BIGINT) what C++ computes is undefined.
  pub add-exact :
      (left right : Value D)
      → Typed left (half left.type_id)
      → Typed right (half right.type_id)
      → Calls.add double parse_double left right ≡ (
          if left.is_null || right.is_null
          then gives (null_of double parse_double left.type_id right.type_id)
          else exact double
              (half left.type_id)
              (half right.type_id)
              left
              right
              (left.number +ℤ right.number))
  add-exact left right a b =
      add_cases left.type_id right.type_id left.is_null right.is_null left.number right.number
        left.real right.real left.text right.text
        (sized-Typed left.type_id (half left.type_id) a.half)
        (sized-Typed right.type_id (half right.type_id) b.half)
      ∙ ap
          (λ z.
            if left.is_null || right.is_null
            then gives (null_of double parse_double left.type_id right.type_id)
            else z)
          (add_value-exact double (half left.type_id) (half right.type_id) left right a b)

  -- The difference of two values of integer types, whichever two they are: if one is null, the null of the wider type
  -- (of the left one if they are the same). Otherwise, where the exact difference is in the range of the wider type,
  -- the value of that type whose number it is (and which is null exactly for the type's least pattern);
  -- OUT_OF_RANGE is thrown where it is not, but where it is not even in the range of `int` (of 64 bits if one
  -- type is BIGINT) what C++ computes is undefined.
  pub subtract-exact :
      (left right : Value D)
      → Typed left (half left.type_id)
      → Typed right (half right.type_id)
      → Calls.subtract double parse_double left right ≡ (
          if left.is_null || right.is_null
          then gives (null_of double parse_double left.type_id right.type_id)
          else exact double
              (half left.type_id)
              (half right.type_id)
              left
              right
              (left.number -ℤ right.number))
  subtract-exact left right a b =
      subtract_cases left.type_id right.type_id left.is_null right.is_null left.number right.number
        left.real right.real left.text right.text
        (sized-Typed left.type_id (half left.type_id) a.half)
        (sized-Typed right.type_id (half right.type_id) b.half)
      ∙ ap
          (λ z.
            if left.is_null || right.is_null
            then gives (null_of double parse_double left.type_id right.type_id)
            else z)
          (subtract_value-exact double (half left.type_id) (half right.type_id) left right a b)

  -- The product of two values of integer types, whichever two they are: if one is null, the null of the wider type
  -- (of the left one if they are the same). Otherwise, where the exact product is in the range of the wider type,
  -- the value of that type whose number it is (and which is null exactly for the type's least pattern);
  -- OUT_OF_RANGE is thrown where it is not, but where it is not even in the range of `int` (of 64 bits if one
  -- type is BIGINT) what C++ computes is undefined.
  pub multiply-exact :
      (left right : Value D)
      → Typed left (half left.type_id)
      → Typed right (half right.type_id)
      → Calls.multiply double parse_double left right ≡ (
          if left.is_null || right.is_null
          then gives (null_of double parse_double left.type_id right.type_id)
          else exact double
              (half left.type_id)
              (half right.type_id)
              left
              right
              (left.number *ℤ right.number))
  multiply-exact left right a b =
      multiply_cases left.type_id right.type_id left.is_null right.is_null left.number right.number
        left.real right.real left.text right.text
        (sized-Typed left.type_id (half left.type_id) a.half)
        (sized-Typed right.type_id (half right.type_id) b.half)
      ∙ ap
          (λ z.
            if left.is_null || right.is_null
            then gives (null_of double parse_double left.type_id right.type_id)
            else z)
          (multiply_value-exact double (half left.type_id) (half right.type_id) left right a b)
