-- ===== src/SqlType/Quotients.antt =====
-- src/include/type/value.h: `Divide` and `Modulo` of two values of integer types.
use disk_oriented_concurrenc.Base.{
  ℕ, ◌≤◌, ◌<◌, ◌≡◌, refl, sym, ◌∙◌, Bool, true, false, ◌||◌, some, List, arith, leb, if◌then◌else◌,
  Bool-cases, inl, inr,
}
use disk_oriented_concurrenc.SqlType.Int.{
  ℤ, pos, ◌+ℤ◌, ◌*ℤ◌, eqb_ℤ, fits, cast, quot, rem, magnitude,
}
use disk_oriented_concurrenc.SqlType.{
  ◌>>=◌, Value, Double, Result, gives, throws, divide_by_zero, half64, TypeId, tinyint, smallint,
  integer, bigint, with_number, null_number,
}
use disk_oriented_concurrenc.SqlType.Arithmetic.{
  value_of, within, common, divide_value, modulo_value,
}
use disk_oriented_concurrenc.SqlType.Bounds.{half_of, Typed, value_of-member}
use disk_oriented_concurrenc.SqlType.Operations.{
  half, sized, wider, null_of, value, operate_null_cases, divided,
}
use disk_oriented_concurrenc.SqlType.Integers
use disk_oriented_concurrenc.SqlType.Tinyint
use disk_oriented_concurrenc.SqlType.Smallint
use disk_oriented_concurrenc.SqlType.Integer
use disk_oriented_concurrenc.SqlType.Bigint
use disk_oriented_concurrenc.SqlType.Calls
use disk_oriented_concurrenc.SqlType.Exact.{sized-Typed}
use disk_oriented_concurrenc.SqlType.Cast.{cast-fits}
use disk_oriented_concurrenc.SqlType.Bounds.{within_bind}
use disk_oriented_concurrenc.SqlType.Division.{quot_le, rem_le, rem_lt, quot-rem}

half_range :
    (t : TypeId) → sized t ≡ true → (0 < half t) × (half t ≤ half64) × (half_of t ≡ some (half t))
half_range t p = ground arith

-- A number of a magnitude below the half is in range, and is not the null's.
fits_below :
    (h : ℕ) (z : ℤ) → magnitude z < h → (fits h z ≡ true) × (eqb_ℤ z (null_number h) ≡ false)
fits_below h z l = ground (arith, l)

-- A number that is not the null's, of a value of the type.
pub magnitude-Typed :
    {D : Type 0} (v : Value D) (h : ℕ) → Typed v h → v.is_null ≡ false → magnitude v.number < h
magnitude-Typed v h a n =
    let f = a.in_range in
    let e : eqb_ℤ v.number (null_number h) ≡ false = sym a.null ∙ n in ground arith

module _ {D : Type 0} (double : Double D) (parse_double : List ℕ → Result D) where
  divide_cases :
      (t u : TypeId) (n m : Bool) (x y : ℤ) (d e : D) (r s : List ℕ)
      → sized t ≡ true
      → sized u ≡ true
      → Calls.divide double parse_double
          (value double parse_double t n x d r)
          (value double parse_double u m y e s)
        ≡ (if n || m
            then gives (null_of double parse_double t u)
            else if eqb_ℤ y (pos 0)
            then throws divide_by_zero
            else divide_value double
                (half t)
                (half u)
                (value double parse_double t n x d r)
                (value double parse_double u m y e s))
  unfolding Calls.divide Tinyint.divide Smallint.divide Integer.divide Bigint.divide Integers.divide
      Calls.operate_null Tinyint.operate_null Smallint.operate_null Integer.operate_null
      Bigint.operate_null
  divide_cases tinyint u n m x y d e r s p q =
      divided double parse_double (Tinyint.operate_null double parse_double) tinyint u n m x y d e r
        s p q (operate_null_cases double parse_double tinyint u n m x y d e r s p q)
        (divide_value double) double.divide
  divide_cases smallint u n m x y d e r s p q =
      divided double parse_double (Smallint.operate_null double parse_double) smallint u n m x y d e
        r s p q (operate_null_cases double parse_double smallint u n m x y d e r s p q)
        (divide_value double) double.divide
  divide_cases integer u n m x y d e r s p q =
      divided double parse_double (Integer.operate_null double parse_double) integer u n m x y d e r
        s p q (operate_null_cases double parse_double integer u n m x y d e r s p q)
        (divide_value double) double.divide
  divide_cases bigint u n m x y d e r s p q =
      divided double parse_double (Bigint.operate_null double parse_double) bigint u n m x y d e r s
        p q (operate_null_cases double parse_double bigint u n m x y d e r s p q)
        (divide_value double) double.divide
  divide_cases t u n m x y d e r s p q = absurd (ground arith)

  modulo_cases :
      (t u : TypeId) (n m : Bool) (x y : ℤ) (d e : D) (r s : List ℕ)
      → sized t ≡ true
      → sized u ≡ true
      → Calls.modulo double parse_double
          (value double parse_double t n x d r)
          (value double parse_double u m y e s)
        ≡ (if n || m
            then gives (null_of double parse_double t u)
            else if eqb_ℤ y (pos 0)
            then throws divide_by_zero
            else modulo_value double
                (half t)
                (half u)
                (value double parse_double t n x d r)
                (value double parse_double u m y e s))
  unfolding Calls.modulo Tinyint.modulo Smallint.modulo Integer.modulo Bigint.modulo Integers.modulo
      Calls.operate_null Tinyint.operate_null Smallint.operate_null Integer.operate_null
      Bigint.operate_null
  modulo_cases tinyint u n m x y d e r s p q =
      divided double parse_double (Tinyint.operate_null double parse_double) tinyint u n m x y d e r
        s p q (operate_null_cases double parse_double tinyint u n m x y d e r s p q)
        (modulo_value double) (Integers.val_mod double parse_double)
  modulo_cases smallint u n m x y d e r s p q =
      divided double parse_double (Smallint.operate_null double parse_double) smallint u n m x y d e
        r s p q (operate_null_cases double parse_double smallint u n m x y d e r s p q)
        (modulo_value double) (Integers.val_mod double parse_double)
  modulo_cases integer u n m x y d e r s p q =
      divided double parse_double (Integer.operate_null double parse_double) integer u n m x y d e r
        s p q (operate_null_cases double parse_double integer u n m x y d e r s p q)
        (modulo_value double) (Integers.val_mod double parse_double)
  modulo_cases bigint u n m x y d e r s p q =
      divided double parse_double (Bigint.operate_null double parse_double) bigint u n m x y d e r s
        p q (operate_null_cases double parse_double bigint u n m x y d e r s p q)
        (modulo_value double) (Integers.val_mod double parse_double)
  modulo_cases t u n m x y d e r s p q = absurd (ground arith)

  common-fits :
      (t u : TypeId) (z : ℤ)
      → sized t ≡ true
      → sized u ≡ true
      → magnitude z < half t
      → fits (common (half t) (half u)) z ≡ true
  common-fits t u z p q l = ground (arith, l)

  pub stored :
      (t : TypeId) (z : ℤ)
      → sized t ≡ true
      → magnitude z < half t
      → value_of double (half t) t (cast (half t) z) ≡ gives (with_number double t false z)
  stored t z p l =
      let b = fits_below (half t) z l in
      let c = cast-fits (half t) z b.0 in
      rw c (value_of-member double t (half t) z (half_range t p).2 ∙ rw (c, b.1) refl)

  -- The end of both operations: a result that is smaller than the left number is kept in the wider type.
  chosen :
      (t u : TypeId) (z : ℤ)
      → sized t ≡ true
      → sized u ≡ true
      → magnitude z < half t
      → (if leb (half u) (half t)
          then value_of double (half t) t (cast (half t) z)
          else value_of double (half u) u (cast (half u) z))
        ≡ gives (with_number double (wider t u) false z)
  chosen t u z p q l = elim (Bool-cases (leb (half u) (half t))) [
    | inl e ↦ rw e (stored t z p l)
    | inr e ↦ rw e (stored u z q (ground (arith, l)))
  ]

  -- The quotient, or the remainder, is defined, and is kept.
  settled :
      (t u : TypeId) (x y : ℤ) (f : ℤ → ℤ)
      → sized t ≡ true
      → sized u ≡ true
      → magnitude x < half t
      → magnitude (f (quot x y)) ≤ magnitude x
      → (within (common (half t) (half u)) (quot x y) >>= λ q.
          if leb (half u) (half t)
          then value_of double (half t) t (cast (half t) (f q))
          else value_of double (half u) u (cast (half u) (f q)))
        ≡ gives (with_number double (wider t u) false (f (quot x y)))
  settled t u x y f p q l m =
      let c : fits (common (half t) (half u)) (quot x y) ≡ true =
        common-fits t u (quot x y) p q (omega (arith, quot_le x y, l)) in
      within_bind (common (half t) (half u)) (quot x y) _ _
        (chosen t u (f (quot x y)) p q (omega (arith, m, l)))
      ∙ rw c refl

  -- Of two values of integer types that are not null, where the right one is not 0: both operations give a value
  -- of the wider type, not null, with the quotient towards zero and its remainder. These satisfy x = q * y + r,
  -- and the remainder is smaller than the divisor, by magnitude.
  pub divide-modulo :
      (left right : Value D)
      → Typed left (half left.type_id)
      → Typed right (half right.type_id)
      → left.is_null ≡ false
      → right.is_null ≡ false
      → eqb_ℤ right.number (pos 0) ≡ false
      → let t = wider left.type_id right.type_id in
        let q = quot left.number right.number in
        let r = rem left.number right.number in
        (Calls.divide double parse_double left right ≡ gives (with_number double t false q))
        × (Calls.modulo double parse_double left right ≡ gives (with_number double t false r))
        × (q *ℤ right.number +ℤ r ≡ left.number)
        × (magnitude r < magnitude right.number)
  unfolding divide_value modulo_value
  divide-modulo left right a b n m z =
      let t = left.type_id in
      let u = right.type_id in
      let x = left.number in
      let y = right.number in
      let p = sized-Typed t (half t) a.half in
      let q = sized-Typed u (half u) b.half in
      let l = magnitude-Typed left (half t) a n in
      (
        divide_cases t u left.is_null right.is_null x y left.real right.real left.text right.text p
              q
            ∙ rw (n, m, z) (settled t u x y (λ w. w) p q l (quot_le x y)),
        modulo_cases t u left.is_null right.is_null x y left.real right.real left.text right.text p
              q
            ∙ rw (n, m, z) (settled t u x y (λ w. rem x y) p q l (rem_le x y)),
        quot-rem x y,
        rem_lt x y z,
      )
