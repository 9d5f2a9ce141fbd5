-- ===== src/SqlType/Order.antt =====
-- src/include/type/value.h: the order of the values of integer types.
use disk_oriented_concurrenc.Base.{
  ℕ, ◌≡◌, refl, sym, ap, ◌∙◌, Bool, true, false, not, ◌||◌, List, arith,
}
use disk_oriented_concurrenc.SqlType.Int.{eqb_ℤ, ltb_ℤ, leb_ℤ}
use disk_oriented_concurrenc.SqlType.{
  ◌>>=◌, Value, Double, Result, gives, CmpBool, cmp_true, cmp_false, cmp_null, get_cmp_bool,
}
use disk_oriented_concurrenc.SqlType.Bounds.{Typed}
use disk_oriented_concurrenc.SqlType.Operations.{half}
use disk_oriented_concurrenc.SqlType.Calls
use disk_oriented_concurrenc.SqlType.Comparisons.{
  verdict, compare_equals-verdict, compare_not_equals-verdict, compare_less_than-verdict,
  compare_less_than_equals-verdict, compare_greater_than-verdict,
  compare_greater_than_equals-verdict,
}

-- SQL's negation.
abbrev pub negated : Result CmpBool → Result CmpBool
negated r =
    r >>= λ c. gives (elim c [ cmp_true ↦ cmp_false | cmp_false ↦ cmp_true | cmp_null ↦ cmp_null ])

verdict-negated : (n b c : Bool) → c ≡ not b → verdict n c ≡ negated (verdict n b)
unfolding get_cmp_bool
verdict-negated n b c e = ground arith

verdict-true : (n b : Bool) → verdict n b ≡ gives cmp_true → (n ≡ false) × (b ≡ true)
unfolding get_cmp_bool
verdict-true n b e = ground arith

module _ {D : Type 0} (double : Double D) (parse_double : List ℕ → Result D) where
  -- Of two values of integer types, null or not: a comparison agrees with the reversed comparison of the
  -- reversed operands, though these may be functions of two different types.
  pub compare_less_than_reversed :
      (left right : Value D)
      → Typed left (half left.type_id)
      → Typed right (half right.type_id)
      → (Calls.compare_less_than double parse_double left right
          ≡ Calls.compare_greater_than double parse_double right left)
        × (Calls.compare_less_than_equals double parse_double left right
            ≡ Calls.compare_greater_than_equals double parse_double right left)
        × (Calls.compare_equals double parse_double left right
            ≡ Calls.compare_equals double parse_double right left)
        × (Calls.compare_not_equals double parse_double left right
            ≡ Calls.compare_not_equals double parse_double right left)
  compare_less_than_reversed left right a b =
      let n : (left.is_null || right.is_null) ≡ (right.is_null || left.is_null) = ground arith in
      let e : eqb_ℤ left.number right.number ≡ eqb_ℤ right.number left.number = ground arith in
      (
        compare_less_than-verdict double parse_double left right a b
            ∙ rw n (sym (compare_greater_than-verdict double parse_double right left b a)),
        compare_less_than_equals-verdict double parse_double left right a b
            ∙ rw n (sym (compare_greater_than_equals-verdict double parse_double right left b a)),
        compare_equals-verdict double parse_double left right a b
            ∙ rw (n, e) (sym (compare_equals-verdict double parse_double right left b a)),
        compare_not_equals-verdict double parse_double left right a b
            ∙ rw (n, e) (sym (compare_not_equals-verdict double parse_double right left b a)),
      )

  -- Of two values of integer types: `<>`, `>=` and `>` are SQL's negations of `=`, `<` and `<=`, where the
  -- negation of null is null.
  pub compare_equals-negated :
      (left right : Value D)
      → Typed left (half left.type_id)
      → Typed right (half right.type_id)
      → (Calls.compare_not_equals double parse_double left right
          ≡ negated (Calls.compare_equals double parse_double left right))
        × (Calls.compare_greater_than_equals double parse_double left right
            ≡ negated (Calls.compare_less_than double parse_double left right))
        × (Calls.compare_greater_than double parse_double left right
            ≡ negated (Calls.compare_less_than_equals double parse_double left right))
  compare_equals-negated left right a b =
      let n = left.is_null || right.is_null in
      let x = left.number in
      let y = right.number in
      (
        compare_not_equals-verdict double parse_double left right a b
            ∙ verdict-negated n (eqb_ℤ x y) (not (eqb_ℤ x y)) refl
            ∙ ap negated (sym (compare_equals-verdict double parse_double left right a b)),
        compare_greater_than_equals-verdict double parse_double left right a b
            ∙ verdict-negated n (ltb_ℤ x y) (leb_ℤ y x) (ground arith)
            ∙ ap negated (sym (compare_less_than-verdict double parse_double left right a b)),
        compare_greater_than-verdict double parse_double left right a b
            ∙ verdict-negated n (leb_ℤ x y) (ltb_ℤ y x) (ground arith)
            ∙ ap negated
                (sym (compare_less_than_equals-verdict double parse_double left right a b)),
      )

  -- Among values of integer types, whichever three types they are of, `<` is transitive.
  pub compare_less_than_trans :
      (u v w : Value D)
      → Typed u (half u.type_id)
      → Typed v (half v.type_id)
      → Typed w (half w.type_id)
      → Calls.compare_less_than double parse_double u v ≡ gives cmp_true
      → Calls.compare_less_than double parse_double v w ≡ gives cmp_true
      → Calls.compare_less_than double parse_double u w ≡ gives cmp_true
  unfolding get_cmp_bool
  compare_less_than_trans u v w a b c f g =
      let p =
        verdict-true (u.is_null || v.is_null) (ltb_ℤ u.number v.number)
          (sym (compare_less_than-verdict double parse_double u v a b) ∙ f) in
      let q =
        verdict-true (v.is_null || w.is_null) (ltb_ℤ v.number w.number)
          (sym (compare_less_than-verdict double parse_double v w b c) ∙ g) in
      let n : (u.is_null || w.is_null) ≡ false = ground (arith, p, q) in
      let l : ltb_ℤ u.number w.number ≡ true = ground (arith, p, q) in
      compare_less_than-verdict double parse_double u w a c ∙ rw (n, l) refl
