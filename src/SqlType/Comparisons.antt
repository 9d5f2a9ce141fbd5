-- ===== src/SqlType/Comparisons.antt =====
-- src/include/type/value.h: what a comparison of two values of integer types comes to.
use disk_oriented_concurrenc.Base.{ℕ, ◌≡◌, Bool, true, not, ◌||◌, List, arith, if◌then◌else◌}
use disk_oriented_concurrenc.SqlType.Int.{ℤ, eqb_ℤ, ltb_ℤ, leb_ℤ}
use disk_oriented_concurrenc.SqlType.{
  Value, Double, Result, gives, TypeId, tinyint, smallint, integer, bigint, CmpBool, cmp_null,
  get_cmp_bool,
}
use disk_oriented_concurrenc.SqlType.Bounds.{Typed}
use disk_oriented_concurrenc.SqlType.Operations.{half, sized, value, operate_null_cases, compared}
use disk_oriented_concurrenc.SqlType.Integers
use disk_oriented_concurrenc.SqlType.Tinyint
use disk_oriented_concurrenc.SqlType.Smallint
use disk_oriented_concurrenc.SqlType.Integer
use disk_oriented_concurrenc.SqlType.Bigint
use disk_oriented_concurrenc.SqlType.Calls
use disk_oriented_concurrenc.SqlType.Exact.{sized-Typed}

-- The verdict of two numbers, null where one of the values is.
abbrev pub verdict : Bool → Bool → Result CmpBool
verdict null b = if null then gives cmp_null else gives (get_cmp_bool b)

module _ {D : Type 0} (double : Double D) (parse_double : List ℕ → Result D) where
  compare_equals_cases :
      (t u : TypeId) (n m : Bool) (x y : ℤ) (d e : D) (r s : List ℕ)
      → sized t ≡ true
      → sized u ≡ true
      → Calls.compare_equals double parse_double
          (value double parse_double t n x d r)
          (value double parse_double u m y e s)
        ≡ verdict (n || m) (eqb_ℤ x y)
  unfolding Calls.compare_equals Tinyint.compare_equals Smallint.compare_equals
      Integer.compare_equals Bigint.compare_equals Integers.compare_equals Calls.operate_null
      Tinyint.operate_null Smallint.operate_null Integer.operate_null Bigint.operate_null
  compare_equals_cases tinyint u n m x y d e r s p q =
      compared double parse_double (Tinyint.operate_null double parse_double) tinyint u n m x y d e
        r s p q (operate_null_cases double parse_double tinyint u n m x y d e r s p q) eqb_ℤ
        double.equals
  compare_equals_cases smallint u n m x y d e r s p q =
      compared double parse_double (Smallint.operate_null double parse_double) smallint u n m x y d
        e r s p q (operate_null_cases double parse_double smallint u n m x y d e r s p q) eqb_ℤ
        double.equals
  compare_equals_cases integer u n m x y d e r s p q =
      compared double parse_double (Integer.operate_null double parse_double) integer u n m x y d e
        r s p q (operate_null_cases double parse_double integer u n m x y d e r s p q) eqb_ℤ
        double.equals
  compare_equals_cases bigint u n m x y d e r s p q =
      compared double parse_double (Bigint.operate_null double parse_double) bigint u n m x y d e r
        s p q (operate_null_cases double parse_double bigint u n m x y d e r s p q) eqb_ℤ
        double.equals
  compare_equals_cases t u n m x y d e r s p q = absurd (ground arith)

  pub compare_equals-verdict :
      (left right : Value D)
      → Typed left (half left.type_id)
      → Typed right (half right.type_id)
      → let x = left.number in
        let y = right.number in
        Calls.compare_equals double parse_double left right
        ≡ verdict (left.is_null || right.is_null) (eqb_ℤ x y)
  compare_equals-verdict left right a b =
      compare_equals_cases left.type_id right.type_id left.is_null right.is_null left.number
        right.number left.real right.real left.text right.text
        (sized-Typed left.type_id (half left.type_id) a.half)
        (sized-Typed right.type_id (half right.type_id) b.half)

  compare_not_equals_cases :
      (t u : TypeId) (n m : Bool) (x y : ℤ) (d e : D) (r s : List ℕ)
      → sized t ≡ true
      → sized u ≡ true
      → Calls.compare_not_equals double parse_double
          (value double parse_double t n x d r)
          (value double parse_double u m y e s)
        ≡ verdict (n || m) (not (eqb_ℤ x y))
  unfolding Calls.compare_not_equals Tinyint.compare_not_equals Smallint.compare_not_equals
      Integer.compare_not_equals Bigint.compare_not_equals Integers.compare_not_equals
      Calls.operate_null Tinyint.operate_null Smallint.operate_null Integer.operate_null
      Bigint.operate_null
  compare_not_equals_cases tinyint u n m x y d e r s p q =
      compared double parse_double (Tinyint.operate_null double parse_double) tinyint u n m x y d e
        r s p q (operate_null_cases double parse_double tinyint u n m x y d e r s p q)
        (λ v w. not (eqb_ℤ v w)) (λ v w. not (double.equals v w))
  compare_not_equals_cases smallint u n m x y d e r s p q =
      compared double parse_double (Smallint.operate_null double parse_double) smallint u n m x y d
        e r s p q (operate_null_cases double parse_double smallint u n m x y d e r s p q)
        (λ v w. not (eqb_ℤ v w)) (λ v w. not (double.equals v w))
  compare_not_equals_cases integer u n m x y d e r s p q =
      compared double parse_double (Integer.operate_null double parse_double) integer u n m x y d e
        r s p q (operate_null_cases double parse_double integer u n m x y d e r s p q)
        (λ v w. not (eqb_ℤ v w)) (λ v w. not (double.equals v w))
  compare_not_equals_cases bigint u n m x y d e r s p q =
      compared double parse_double (Bigint.operate_null double parse_double) bigint u n m x y d e r
        s p q (operate_null_cases double parse_double bigint u n m x y d e r s p q)
        (λ v w. not (eqb_ℤ v w)) (λ v w. not (double.equals v w))
  compare_not_equals_cases t u n m x y d e r s p q = absurd (ground arith)

  pub compare_not_equals-verdict :
      (left right : Value D)
      → Typed left (half left.type_id)
      → Typed right (half right.type_id)
      → let x = left.number in
        let y = right.number in
        Calls.compare_not_equals double parse_double left right
        ≡ verdict (left.is_null || right.is_null) (not (eqb_ℤ x y))
  compare_not_equals-verdict left right a b =
      compare_not_equals_cases left.type_id right.type_id left.is_null right.is_null left.number
        right.number left.real right.real left.text right.text
        (sized-Typed left.type_id (half left.type_id) a.half)
        (sized-Typed right.type_id (half right.type_id) b.half)

  compare_less_than_cases :
      (t u : TypeId) (n m : Bool) (x y : ℤ) (d e : D) (r s : List ℕ)
      → sized t ≡ true
      → sized u ≡ true
      → Calls.compare_less_than double parse_double
          (value double parse_double t n x d r)
          (value double parse_double u m y e s)
        ≡ verdict (n || m) (ltb_ℤ x y)
  unfolding Calls.compare_less_than Tinyint.compare_less_than Smallint.compare_less_than
      Integer.compare_less_than Bigint.compare_less_than Integers.compare_less_than
      Calls.operate_null Tinyint.operate_null Smallint.operate_null Integer.operate_null
      Bigint.operate_null
  compare_less_than_cases tinyint u n m x y d e r s p q =
      compared double parse_double (Tinyint.operate_null double parse_double) tinyint u n m x y d e
        r s p q (operate_null_cases double parse_double tinyint u n m x y d e r s p q) ltb_ℤ
        double.less
  compare_less_than_cases smallint u n m x y d e r s p q =
      compared double parse_double (Smallint.operate_null double parse_double) smallint u n m x y d
        e r s p q (operate_null_cases double parse_double smallint u n m x y d e r s p q) ltb_ℤ
        double.less
  compare_less_than_cases integer u n m x y d e r s p q =
      compared double parse_double (Integer.operate_null double parse_double) integer u n m x y d e
        r s p q (operate_null_cases double parse_double integer u n m x y d e r s p q) ltb_ℤ
        double.less
  compare_less_than_cases bigint u n m x y d e r s p q =
      compared double parse_double (Bigint.operate_null double parse_double) bigint u n m x y d e r
        s p q (operate_null_cases double parse_double bigint u n m x y d e r s p q) ltb_ℤ
        double.less
  compare_less_than_cases t u n m x y d e r s p q = absurd (ground arith)

  pub compare_less_than-verdict :
      (left right : Value D)
      → Typed left (half left.type_id)
      → Typed right (half right.type_id)
      → let x = left.number in
        let y = right.number in
        Calls.compare_less_than double parse_double left right
        ≡ verdict (left.is_null || right.is_null) (ltb_ℤ x y)
  compare_less_than-verdict left right a b =
      compare_less_than_cases left.type_id right.type_id left.is_null right.is_null left.number
        right.number left.real right.real left.text right.text
        (sized-Typed left.type_id (half left.type_id) a.half)
        (sized-Typed right.type_id (half right.type_id) b.half)

  compare_less_than_equals_cases :
      (t u : TypeId) (n m : Bool) (x y : ℤ) (d e : D) (r s : List ℕ)
      → sized t ≡ true
      → sized u ≡ true
      → Calls.compare_less_than_equals double parse_double
          (value double parse_double t n x d r)
          (value double parse_double u m y e s)
        ≡ verdict (n || m) (leb_ℤ x y)
  unfolding Calls.compare_less_than_equals Tinyint.compare_less_than_equals
      Smallint.compare_less_than_equals Integer.compare_less_than_equals
      Bigint.compare_less_than_equals Integers.compare_less_than_equals Calls.operate_null
      Tinyint.operate_null Smallint.operate_null Integer.operate_null Bigint.operate_null
  compare_less_than_equals_cases tinyint u n m x y d e r s p q =
      compared double parse_double (Tinyint.operate_null double parse_double) tinyint u n m x y d e
        r s p q (operate_null_cases double parse_double tinyint u n m x y d e r s p q) leb_ℤ
        double.less_equals
  compare_less_than_equals_cases smallint u n m x y d e r s p q =
      compared double parse_double (Smallint.operate_null double parse_double) smallint u n m x y d
        e r s p q (operate_null_cases double parse_double smallint u n m x y d e r s p q) leb_ℤ
        double.less_equals
  compare_less_than_equals_cases integer u n m x y d e r s p q =
      compared double parse_double (Integer.operate_null double parse_double) integer u n m x y d e
        r s p q (operate_null_cases double parse_double integer u n m x y d e r s p q) leb_ℤ
        double.less_equals
  compare_less_than_equals_cases bigint u n m x y d e r s p q =
      compared double parse_double (Bigint.operate_null double parse_double) bigint u n m x y d e r
        s p q (operate_null_cases double parse_double bigint u n m x y d e r s p q) leb_ℤ
        double.less_equals
  compare_less_than_equals_cases t u n m x y d e r s p q = absurd (ground arith)

  pub compare_less_than_equals-verdict :
      (left right : Value D)
      → Typed left (half left.type_id)
      → Typed right (half right.type_id)
      → let x = left.number in
        let y = right.number in
        Calls.compare_less_than_equals double parse_double left right
        ≡ verdict (left.is_null || right.is_null) (leb_ℤ x y)
  compare_less_than_equals-verdict left right a b =
      compare_less_than_equals_cases left.type_id right.type_id left.is_null right.is_null
        left.number right.number left.real right.real left.text right.text
        (sized-Typed left.type_id (half left.type_id) a.half)
        (sized-Typed right.type_id (half right.type_id) b.half)

  compare_greater_than_cases :
      (t u : TypeId) (n m : Bool) (x y : ℤ) (d e : D) (r s : List ℕ)
      → sized t ≡ true
      → sized u ≡ true
      → Calls.compare_greater_than double parse_double
          (value double parse_double t n x d r)
          (value double parse_double u m y e s)
        ≡ verdict (n || m) (ltb_ℤ y x)
  unfolding Calls.compare_greater_than Tinyint.compare_greater_than Smallint.compare_greater_than
      Integer.compare_greater_than Bigint.compare_greater_than Integers.compare_greater_than
      Calls.operate_null Tinyint.operate_null Smallint.operate_null Integer.operate_null
      Bigint.operate_null
  compare_greater_than_cases tinyint u n m x y d e r s p q =
      compared double parse_double (Tinyint.operate_null double parse_double) tinyint u n m x y d e
        r s p q (operate_null_cases double parse_double tinyint u n m x y d e r s p q)
        (λ v w. ltb_ℤ w v) (λ v w. double.less w v)
  compare_greater_than_cases smallint u n m x y d e r s p q =
      compared double parse_double (Smallint.operate_null double parse_double) smallint u n m x y d
        e r s p q (operate_null_cases double parse_double smallint u n m x y d e r s p q)
        (λ v w. ltb_ℤ w v) (λ v w. double.less w v)
  compare_greater_than_cases integer u n m x y d e r s p q =
      compared double parse_double (Integer.operate_null double parse_double) integer u n m x y d e
        r s p q (operate_null_cases double parse_double integer u n m x y d e r s p q)
        (λ v w. ltb_ℤ w v) (λ v w. double.less w v)
  compare_greater_than_cases bigint u n m x y d e r s p q =
      compared double parse_double (Bigint.operate_null double parse_double) bigint u n m x y d e r
        s p q (operate_null_cases double parse_double bigint u n m x y d e r s p q)
        (λ v w. ltb_ℤ w v) (λ v w. double.less w v)
  compare_greater_than_cases t u n m x y d e r s p q = absurd (ground arith)

  pub compare_greater_than-verdict :
      (left right : Value D)
      → Typed left (half left.type_id)
      → Typed right (half right.type_id)
      → let x = left.number in
        let y = right.number in
        Calls.compare_greater_than double parse_double left right
        ≡ verdict (left.is_null || right.is_null) (ltb_ℤ y x)
  compare_greater_than-verdict left right a b =
      compare_greater_than_cases left.type_id right.type_id left.is_null right.is_null left.number
        right.number left.real right.real left.text right.text
        (sized-Typed left.type_id (half left.type_id) a.half)
        (sized-Typed right.type_id (half right.type_id) b.half)

  compare_greater_than_equals_cases :
      (t u : TypeId) (n m : Bool) (x y : ℤ) (d e : D) (r s : List ℕ)
      → sized t ≡ true
      → sized u ≡ true
      → Calls.compare_greater_than_equals double parse_double
          (value double parse_double t n x d r)
          (value double parse_double u m y e s)
        ≡ verdict (n || m) (leb_ℤ y x)
  unfolding Calls.compare_greater_than_equals Tinyint.compare_greater_than_equals
      Smallint.compare_greater_than_equals Integer.compare_greater_than_equals
      Bigint.compare_greater_than_equals Integers.compare_greater_than_equals Calls.operate_null
      Tinyint.operate_null Smallint.operate_null Integer.operate_null Bigint.operate_null
  compare_greater_than_equals_cases tinyint u n m x y d e r s p q =
      compared double parse_double (Tinyint.operate_null double parse_double) tinyint u n m x y d e
        r s p q (operate_null_cases double parse_double tinyint u n m x y d e r s p q)
        (λ v w. leb_ℤ w v) (λ v w. double.less_equals w v)
  compare_greater_than_equals_cases smallint u n m x y d e r s p q =
      compared double parse_double (Smallint.operate_null double parse_double) smallint u n m x y d
        e r s p q (operate_null_cases double parse_double smallint u n m x y d e r s p q)
        (λ v w. leb_ℤ w v) (λ v w. double.less_equals w v)
  compare_greater_than_equals_cases integer u n m x y d e r s p q =
      compared double parse_double (Integer.operate_null double parse_double) integer u n m x y d e
        r s p q (operate_null_cases double parse_double integer u n m x y d e r s p q)
        (λ v w. leb_ℤ w v) (λ v w. double.less_equals w v)
  compare_greater_than_equals_cases bigint u n m x y d e r s p q =
      compared double parse_double (Bigint.operate_null double parse_double) bigint u n m x y d e r
        s p q (operate_null_cases double parse_double bigint u n m x y d e r s p q)
        (λ v w. leb_ℤ w v) (λ v w. double.less_equals w v)
  compare_greater_than_equals_cases t u n m x y d e r s p q = absurd (ground arith)

  pub compare_greater_than_equals-verdict :
      (left right : Value D)
      → Typed left (half left.type_id)
      → Typed right (half right.type_id)
      → let x = left.number in
        let y = right.number in
        Calls.compare_greater_than_equals double parse_double left right
        ≡ verdict (left.is_null || right.is_null) (leb_ℤ y x)
  compare_greater_than_equals-verdict left right a b =
      compare_greater_than_equals_cases left.type_id right.type_id left.is_null right.is_null
        left.number right.number left.real right.real left.text right.text
        (sized-Typed left.type_id (half left.type_id) a.half)
        (sized-Typed right.type_id (half right.type_id) b.half)
