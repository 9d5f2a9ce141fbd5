-- ===== src/SqlType/Selection.antt =====
-- src/type/integer_parent_type.cpp: the least and the greatest of two values of integer types.
use disk_oriented_concurrenc.Base.{
  ℕ, ◌<◌, ◌≡◌, refl, ◌∙◌, Bool, true, false, not, ◌||◌, List, arith, if◌then◌else◌,
}
use disk_oriented_concurrenc.SqlType.Int.{ℤ, ltb_ℤ, leb_ℤ, magnitude}
use disk_oriented_concurrenc.SqlType.{
  Value, Double, Result, gives, asserts, TypeId, tinyint, smallint, integer, bigint, with_number,
  CmpBool, get_cmp_bool, check_integer, is_integer,
}
use disk_oriented_concurrenc.SqlType.Bounds.{Typed}
use disk_oriented_concurrenc.SqlType.Operations.{half, sized, value, assertions}
use disk_oriented_concurrenc.SqlType.Exact.{sized-Typed}
use disk_oriented_concurrenc.SqlType.Quotients.{magnitude-Typed}
use disk_oriented_concurrenc.SqlType.Casts.{uncast}
use disk_oriented_concurrenc.SqlType.Comparisons.{
  compare_less_than-verdict, compare_greater_than_equals-verdict,
}
use disk_oriented_concurrenc.SqlType.Tinyint
use disk_oriented_concurrenc.SqlType.Smallint
use disk_oriented_concurrenc.SqlType.Integer
use disk_oriented_concurrenc.SqlType.Bigint
use disk_oriented_concurrenc.SqlType.Calls
use disk_oriented_concurrenc.SqlType.Extremes.{
  choose, checked_choose, integer_min, integer_max, min, max,
}

module _ {D : Type 0} (double : Double D) (parse_double : List ℕ → Result D) where
  -- A value of its type and number, not null.
  abbrev plain_value : Value D → Value D
  plain_value v = with_number double v.type_id false v.number

  copy_cases :
      (t : TypeId) (n : Bool) (x : ℤ) (d : D) (s : List ℕ)
      → sized t ≡ true
      → magnitude x < half t
      → Calls.copy double parse_double (value double parse_double t n x d s)
        ≡ gives (with_number double t false x)
  unfolding Calls.copy Tinyint.copy Smallint.copy Integer.copy Bigint.copy check_integer is_integer
  copy_cases tinyint n x d s p l = uncast double parse_double tinyint x p l
  copy_cases smallint n x d s p l = uncast double parse_double smallint x p l
  copy_cases integer n x d s p l = uncast double parse_double integer x p l
  copy_cases bigint n x d s p l = uncast double parse_double bigint x p l
  copy_cases t n x d s p l = absurd (ground arith)

  copy_lem :
      (v : Value D)
      → Typed v (half v.type_id)
      → v.is_null ≡ false
      → Calls.copy double parse_double v ≡ gives (plain_value v)
  copy_lem v a n =
      copy_cases v.type_id v.is_null v.number v.real v.text
        (sized-Typed v.type_id (half v.type_id) a.half) (magnitude-Typed v (half v.type_id) a n)

  choose_lem :
      (compare : Value D → Value D → Result CmpBool) (left right : Value D) (b : Bool)
      → compare left right ≡ gives (get_cmp_bool b)
      → Calls.copy double parse_double left ≡ gives (plain_value left)
      → Calls.copy double parse_double right ≡ gives (plain_value right)
      → choose double parse_double compare left right
        ≡ (if b then gives (plain_value left) else gives (plain_value right))
  unfolding choose get_cmp_bool
  choose_lem compare left right true e p q = rw (e, p) refl
  choose_lem compare left right false e p q = rw (e, q) refl

  -- What `Value::Min` and `Value::Max` come to where neither value is null.
  chosen :
      (compare : Value D → Value D → Result CmpBool) (left right : Value D) (b : Bool)
      → Typed left (half left.type_id)
      → Typed right (half right.type_id)
      → left.is_null ≡ false
      → right.is_null ≡ false
      → compare left right ≡ gives (get_cmp_bool b)
      → (if not (check_integer double left)
          then asserts
          else checked_choose double parse_double compare left right)
        ≡ (if b then gives (plain_value left) else gives (plain_value right))
  unfolding checked_choose
  chosen compare left right b a c n m e =
      let s =
        assertions double parse_double left.type_id right.type_id left.is_null right.is_null
          left.number right.number left.real right.real left.text right.text
          (sized-Typed left.type_id (half left.type_id) a.half)
          (sized-Typed right.type_id (half right.type_id) c.half) in
      let k : (left.is_null || right.is_null) ≡ false = ground arith in
      rw (s.0, s.1, k) (choose_lem compare left right b e (copy_lem left a n) (copy_lem right c m))

  dispatched :
      (t : TypeId) (n : Bool) (x : ℤ) (d : D) (s : List ℕ) (right : Value D)
      → sized t ≡ true
      → let left = value double parse_double t n x d s in
        (min double parse_double left right ≡ integer_min double parse_double left right)
        × (max double parse_double left right ≡ integer_max double parse_double left right)
  unfolding min max
  dispatched tinyint n x d s right p = (refl, refl)
  dispatched smallint n x d s right p = (refl, refl)
  dispatched integer n x d s right p = (refl, refl)
  dispatched bigint n x d s right p = (refl, refl)
  dispatched t n x d s right p = absurd (ground arith)

  -- Of two values of integer types that are not null, `Min` and `Max` are the two values themselves, each of its
  -- own type: in their order where the left number is less, and in the other order where it is not.
  pub min-max :
      (left right : Value D)
      → Typed left (half left.type_id)
      → Typed right (half right.type_id)
      → left.is_null ≡ false
      → right.is_null ≡ false
      → let b = ltb_ℤ left.number right.number in
        (min double parse_double left right
          ≡ (if b then gives (plain_value left) else gives (plain_value right)))
        × (max double parse_double left right
            ≡ (if b then gives (plain_value right) else gives (plain_value left)))
  unfolding integer_min integer_max
  min-max left right a c n m =
      let b = ltb_ℤ left.number right.number in
      let d =
        dispatched left.type_id left.is_null left.number left.real left.text right
          (sized-Typed left.type_id (half left.type_id) a.half) in
      let e : leb_ℤ right.number left.number ≡ not b = ground arith in
      let f = compare_less_than-verdict double parse_double left right a c ∙ rw (n, m) refl in
      let g =
        compare_greater_than_equals-verdict double parse_double left right a c
        ∙ rw (n, m, e) refl in
      (
        d.0 ∙ chosen (Calls.compare_less_than double parse_double) left right b a c n m f,
        d.1
            ∙ chosen (Calls.compare_greater_than_equals double parse_double) left right (not b) a c
                n m g
            ∙ swapped _ _ b,
      )
    where
      swapped : {A : Type 0} (v w : A) (b : Bool) → (if not b then v else w) ≡ (if b then w else v)
      swapped v w true = refl
      swapped v w false = refl
