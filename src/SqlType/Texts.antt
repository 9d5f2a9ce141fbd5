-- ===== src/SqlType/Texts.antt =====
-- src/type/*_type.cpp and varlen_type.cpp: a number cast to a string and back.
use disk_oriented_concurrenc.Base.{
  ℕ, ◌-◌, ◌<◌, ◌≡◌, refl, sym, ap, subst, true, false, ◌||◌, List, [], ◌∷◌, ◌++◌, arith,
}
use disk_oriented_concurrenc.SqlType.Int.{ℤ, pos, negsuc, eqb_ℤ, ltb_ℤ, magnitude}
use disk_oriented_concurrenc.SqlType.{
  ◌>>=◌, Value, Double, Result, gives, half8, half16, half32, half64, TypeId, tinyint, smallint,
  integer, bigint, varchar, with_number, member, null_number, value_string, value_int8, value_int16,
  value_int32, value_int64, set_integer, check_integer, is_integer,
}
use disk_oriented_concurrenc.SqlType.Text.{show}
use disk_oriented_concurrenc.SqlType.Varlen.{varlen_cast_as, varlen_to_string, all_but_last}
use disk_oriented_concurrenc.SqlType.Bounds.{Typed}
use disk_oriented_concurrenc.SqlType.Cast.{cast-fits}
use disk_oriented_concurrenc.SqlType.Operations.{half, sized, value}
use disk_oriented_concurrenc.SqlType.Exact.{sized-Typed}
use disk_oriented_concurrenc.SqlType.Quotients.{magnitude-Typed}
use disk_oriented_concurrenc.SqlType.Printing.{parse-show}
use disk_oriented_concurrenc.SqlType.Integers
use disk_oriented_concurrenc.SqlType.Tinyint
use disk_oriented_concurrenc.SqlType.Smallint
use disk_oriented_concurrenc.SqlType.Integer
use disk_oriented_concurrenc.SqlType.Bigint
use disk_oriented_concurrenc.SqlType.Calls

all_but_last-append : (xs : List ℕ) (c : ℕ) → all_but_last (xs ++ c ∷ []) ≡ xs
all_but_last-append [] c = refl
all_but_last-append (x ∷ []) c = refl
all_but_last-append (x ∷ y ∷ xs) c = ap (λ zs. x ∷ zs) (all_but_last-append (y ∷ xs) c)

module _ {D : Type 0} (double : Double D) (parse_double : List ℕ → Result D) where
  -- The string of a number.
  abbrev text_of : List ℕ → Value D
  text_of s = record {
    type_id = varchar;
    is_null = false;
    number = pos 0;
    real = double.of_int (pos 0);
    text = s ++ 0 ∷ [];
  }

  varlen_to_string-text_of : (s : List ℕ) → varlen_to_string double parse_double (text_of s) ≡ s
  unfolding varlen_to_string
  varlen_to_string-text_of s = all_but_last-append s 0

  -- A number is printed.
  printed :
      (t : TypeId) (x : ℤ) (d : D) (s : List ℕ)
      → sized t ≡ true
      → Calls.cast_as double parse_double (value double parse_double t false x d s) varchar
        ≡ gives (text_of (show x))
  unfolding Calls.cast_as Tinyint.cast_as Smallint.cast_as Integer.cast_as Bigint.cast_as
      Integers.to_varchar value_string Tinyint.to_string Smallint.to_string Integer.to_string
      Bigint.to_string Integers.to_string check_integer is_integer
  printed tinyint x d s p = refl
  printed smallint x d s p = refl
  printed integer x d s p = refl
  printed bigint x d s p = refl
  printed t x d s p = absurd (ground arith)

  member-below :
      (t : TypeId) (x : ℤ)
      → sized t ≡ true
      → magnitude x < half t
      → gives (member double t (half t) x) ≡ gives (with_number double t false x)
  member-below t x p l =
      let c = cast-fits (half t) x (ground (arith, l)) in
      let e : eqb_ℤ x (null_number (half t)) ≡ false = ground (arith, l) in rw (c, e) refl

  -- And is read, in each type.
  read :
      (t : TypeId) (x : ℤ)
      → sized t ≡ true
      → magnitude x < half t
      → Calls.cast_as double parse_double (text_of (show x)) t
        ≡ gives (with_number double t false x)
  unfolding Calls.cast_as varlen_cast_as value_int8 value_int16 value_int32 value_int64 set_integer
  read tinyint x p l =
      let c = cast-fits half8 x (ground (arith, l)) in
      let e : ltb_ℤ x (negsuc (half8 - 2)) ≡ false = ground (arith, l) in
      rw
        (
          varlen_to_string-text_of (show x),
          parse-show half32 x (ground (arith, l)) (omega (arith, l)),
          c,
          e,
        )
        (member-below tinyint x p l)
  read smallint x p l =
      let c = cast-fits half16 x (ground (arith, l)) in
      let e : ltb_ℤ x (negsuc (half16 - 2)) ≡ false = ground (arith, l) in
      rw
        (
          varlen_to_string-text_of (show x),
          parse-show half32 x (ground (arith, l)) (omega (arith, l)),
          c,
          e,
        )
        (member-below smallint x p l)
  read integer x p l =
      let e : (ltb_ℤ (pos (half32 - 1)) x || ltb_ℤ x (negsuc (half32 - 2))) ≡ false =
        ground (arith, l) in
      rw
        (
          varlen_to_string-text_of (show x),
          parse-show half32 x (ground (arith, l)) (omega (arith, l)),
          e,
        )
        (member-below integer x p l)
  read bigint x p l =
      let e : (ltb_ℤ (pos (half64 - 1)) x || ltb_ℤ x (negsuc (half64 - 2))) ≡ false =
        ground (arith, l) in
      rw
        (
          varlen_to_string-text_of (show x),
          parse-show half64 x (ground (arith, l)) (omega (arith, l)),
          e,
        )
        (member-below bigint x p l)
  read t x p l = absurd (ground arith)

  -- A value of an integer type that is not null, cast to a string and that to the type again, is that value, up
  -- to the parts of it that are not of the type.
  pub cast_as-varchar :
      (v : Value D)
      → Typed v (half v.type_id)
      → v.is_null ≡ false
      → (Calls.cast_as double parse_double v varchar >>= λ s.
          Calls.cast_as double parse_double s v.type_id)
        ≡ gives (with_number double v.type_id false v.number)
  cast_as-varchar v a n =
      let p = sized-Typed v.type_id (half v.type_id) a.half in
      let c : Calls.cast_as double parse_double v varchar ≡ gives (text_of (show v.number)) =
        subst
          (λ b.
            Calls.cast_as double parse_double
              (value double parse_double v.type_id b v.number v.real v.text) varchar
            ≡ gives (text_of (show v.number)))
          (sym n) (printed v.type_id v.number v.real v.text p) in
      rw c (read v.type_id v.number p (magnitude-Typed v (half v.type_id) a n))
