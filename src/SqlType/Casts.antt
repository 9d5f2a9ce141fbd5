-- ===== src/SqlType/Casts.antt =====
-- src/type/*_type.cpp: `CastAs` between the integer types.
use disk_oriented_concurrenc.Base.{
  ℕ, ◌-◌, ◌<◌, ◌≡◌, refl, sym, ap, subst, ◌∙◌, Bool, true, false, not, ◌||◌, List, arith, ltb,
  if◌then◌else◌, Bool-cases, inl, inr,
}
use disk_oriented_concurrenc.SqlType.Int.{ℤ, pos, negsuc, ltb_ℤ, fits, cast, magnitude}
use disk_oriented_concurrenc.SqlType.{
  Value, Double, Result, gives, throws, out_of_range, TypeId, tinyint, smallint, integer, bigint,
  with_number, null_number,
}
use disk_oriented_concurrenc.SqlType.Arithmetic.{value_of}
use disk_oriented_concurrenc.SqlType.Bounds.{Typed}
use disk_oriented_concurrenc.SqlType.Operations.{half, sized, wider, null_of, value}
use disk_oriented_concurrenc.SqlType.Integers
use disk_oriented_concurrenc.SqlType.Tinyint
use disk_oriented_concurrenc.SqlType.Smallint
use disk_oriented_concurrenc.SqlType.Integer
use disk_oriented_concurrenc.SqlType.Bigint
use disk_oriented_concurrenc.SqlType.Calls
use disk_oriented_concurrenc.SqlType.Int.{eqb_ℤ_iff}
use disk_oriented_concurrenc.SqlType.{
  value_int8, value_int16, value_int32, value_int64, set_integer, check_integer, is_integer,
}
use disk_oriented_concurrenc.SqlType.Exact.{sized-Typed}
use disk_oriented_concurrenc.SqlType.Quotients.{stored, magnitude-Typed}
use disk_oriented_concurrenc.SqlType.Cast.{cast-fits}

module _ {D : Type 0} (double : Double D) (parse_double : List ℕ → Result D) where
  -- The number in another type, null for null.
  abbrev pub converted : TypeId → Bool → ℤ → Result (Value D)
  converted u n x =
      if n
      then gives (null_of double parse_double u u)
      else if ltb (magnitude x) (half u)
      then gives (with_number double u false x)
      else throws out_of_range

  wider_same : (u : TypeId) → wider u u ≡ u
  wider_same u = ground arith

  gives_inj : {A : Type 0} {v w : A} → gives v ≡ gives w → v ≡ w
  gives_inj e = cc

  value_of-null :
      (u : TypeId)
      → sized u ≡ true
      → value_of double (half u) u (null_number (half u)) ≡ gives (null_of double parse_double u u)
  unfolding value_of value_int8 value_int16 value_int32 value_int64 set_integer cast
  value_of-null tinyint p = refl
  value_of-null smallint p = refl
  value_of-null integer p = refl
  value_of-null bigint p = refl
  value_of-null u p = absurd (ground arith)

  pub uncast :
      (u : TypeId) (x : ℤ)
      → sized u ≡ true
      → magnitude x < half u
      → value_of double (half u) u x ≡ gives (with_number double u false x)
  uncast u x p l =
      let f : fits (half u) x ≡ true = ground (arith, l) in
      subst (λ z. value_of double (half u) u z ≡ gives (with_number double u false x))
        (cast-fits (half u) x f) (stored double parse_double u x p l)

  narrow-converted :
      (u : TypeId) (v : Value D)
      → sized u ≡ true
      → Integers.narrow double parse_double u (half u) v ≡ converted u v.is_null v.number
  unfolding Integers.narrow
  narrow-converted u v p =
      let x = v.number in
      let e : (ltb_ℤ (pos (half u - 1)) x || ltb_ℤ x (negsuc (half u - 2)))
          ≡ not (ltb (magnitude x) (half u)) =
        ground arith in
      rw (e, value_of-null u p)
        (go _ _ _ _ v.is_null (ltb (magnitude x) (half u))
          (λ b. stored double parse_double u x p (ground (arith, b))))
    where
      go :
          {R : Type 0} (a b c d : R) (n m : Bool)
          → (m ≡ true → b ≡ c)
          → (if n then a else if not m then d else b) ≡ (if n then a else if m then c else d)
      go a b c d true m f = refl
      go a b c d false true f = f refl
      go a b c d false false f = refl

  widen-converted :
      (u : TypeId) (v : Value D)
      → sized u ≡ true
      → (v.is_null ≡ false → magnitude v.number < half u)
      → Integers.widen double parse_double u (half u) v ≡ converted u v.is_null v.number
  unfolding Integers.widen
  widen-converted u v p f =
      rw (value_of-null u p)
        (go _ _ _ v.is_null (λ n. uncast u v.number p (f n) ∙ rw (ltb-true (f n)) refl))
    where
      go :
          {R : Type 0} (a b c : R) (n : Bool)
          → (n ≡ false → b ≡ c)
          → (if n then a else b) ≡ (if n then a else c)
      go a b c true f = refl
      go a b c false f = f refl

      ltb-true : {a b : ℕ} → a < b → ltb a b ≡ true
      ltb-true l = ground (arith, l)

  cast_as_cases :
      (t u : TypeId) (n : Bool) (x : ℤ) (d : D) (s : List ℕ)
      → sized t ≡ true
      → sized u ≡ true
      → (n ≡ false → magnitude x < half t)
      → Calls.cast_as double parse_double (value double parse_double t n x d s) u ≡ converted u n x
  unfolding Calls.cast_as Tinyint.cast_as Smallint.cast_as Integer.cast_as Bigint.cast_as
      Tinyint.copy Smallint.copy Integer.copy Bigint.copy Integers.widen check_integer is_integer
  cast_as_cases tinyint tinyint n x d s p q f =
      widen-converted tinyint (value double parse_double tinyint n x d s) q
        (λ e. let l = f e in omega (arith, l))
  cast_as_cases tinyint smallint n x d s p q f =
      widen-converted smallint (value double parse_double tinyint n x d s) q
        (λ e. let l = f e in omega (arith, l))
  cast_as_cases tinyint integer n x d s p q f =
      widen-converted integer (value double parse_double tinyint n x d s) q
        (λ e. let l = f e in omega (arith, l))
  cast_as_cases tinyint bigint n x d s p q f =
      widen-converted bigint (value double parse_double tinyint n x d s) q
        (λ e. let l = f e in omega (arith, l))
  cast_as_cases smallint tinyint n x d s p q f =
      narrow-converted tinyint (value double parse_double smallint n x d s) q
  cast_as_cases smallint smallint n x d s p q f =
      widen-converted smallint (value double parse_double smallint n x d s) q
        (λ e. let l = f e in omega (arith, l))
  cast_as_cases smallint integer n x d s p q f =
      widen-converted integer (value double parse_double smallint n x d s) q
        (λ e. let l = f e in omega (arith, l))
  cast_as_cases smallint bigint n x d s p q f =
      widen-converted bigint (value double parse_double smallint n x d s) q
        (λ e. let l = f e in omega (arith, l))
  cast_as_cases integer tinyint n x d s p q f =
      narrow-converted tinyint (value double parse_double integer n x d s) q
  cast_as_cases integer smallint n x d s p q f =
      narrow-converted smallint (value double parse_double integer n x d s) q
  cast_as_cases integer integer n x d s p q f =
      widen-converted integer (value double parse_double integer n x d s) q
        (λ e. let l = f e in omega (arith, l))
  cast_as_cases integer bigint n x d s p q f =
      widen-converted bigint (value double parse_double integer n x d s) q
        (λ e. let l = f e in omega (arith, l))
  cast_as_cases bigint tinyint n x d s p q f =
      narrow-converted tinyint (value double parse_double bigint n x d s) q
  cast_as_cases bigint smallint n x d s p q f =
      narrow-converted smallint (value double parse_double bigint n x d s) q
  cast_as_cases bigint integer n x d s p q f =
      narrow-converted integer (value double parse_double bigint n x d s) q
  cast_as_cases bigint bigint n x d s p q f =
      widen-converted bigint (value double parse_double bigint n x d s) q
        (λ e. let l = f e in omega (arith, l))
  cast_as_cases t u n x d s p q f = absurd (ground arith)

  -- A value of an integer type cast to an integer type: null gives the null of that type; another number is kept
  -- where it is smaller, by magnitude, than half the number of that type's patterns, and OUT_OF_RANGE is thrown
  -- where it is not.
  pub cast_as-converted :
      (v : Value D) (u : TypeId)
      → Typed v (half v.type_id)
      → sized u ≡ true
      → Calls.cast_as double parse_double v u ≡ converted u v.is_null v.number
  cast_as-converted v u a q =
      cast_as_cases v.type_id u v.is_null v.number v.real v.text
        (sized-Typed v.type_id (half v.type_id) a.half) q (magnitude-Typed v (half v.type_id) a)

  -- What is known of a value that a cast gives.
  abbrev Converted : TypeId → Bool → ℤ → Value D → Type 0
  Converted u n x w =
      (w.type_id ≡ u)
      × Typed w (half u)
      × (w.is_null ≡ n)
      × (w.number ≡ (if n then null_number (half u) else x))

  null_of-Typed : (u : TypeId) → sized u ≡ true → Typed (null_of double parse_double u u) (half u)
  null_of-Typed tinyint p = record { half = refl; in_range = refl; null = refl }
  null_of-Typed smallint p = record { half = refl; in_range = refl; null = refl }
  null_of-Typed integer p = record { half = refl; in_range = refl; null = refl }
  null_of-Typed bigint p = record { half = refl; in_range = refl; null = refl }
  null_of-Typed u p = absurd (ground arith)

  with_number-Typed :
      (u : TypeId) (x : ℤ)
      → sized u ≡ true
      → magnitude x < half u
      → Typed (with_number double u false x) (half u)
  with_number-Typed u x p l = record {
    half = ground arith;
    in_range = ground (arith, l);
    null = ground (arith, l);
  }

  converted-Converted :
      (u : TypeId) (n : Bool) (x : ℤ) (w : Value D)
      → sized u ≡ true
      → converted u n x ≡ gives w
      → Converted u n x w
  converted-Converted u n x w q e = go n (ltb (magnitude x) (half u)) (λ b. ground arith) e
    where
      go :
          (n m : Bool)
          → (m ≡ true → magnitude x < half u)
          → (if n
              then gives (null_of double parse_double u u)
              else if m
              then gives (with_number double u false x)
              else throws out_of_range)
            ≡ gives w
          → Converted u n x w
      go true m f e =
          subst (Converted u true x) (gives_inj e)
            (wider_same u, null_of-Typed u q, refl, ap (λ t. null_number (half t)) (wider_same u))
      go false true f e =
          subst (Converted u false x) (gives_inj e)
            (refl, with_number-Typed u x q (f refl), refl, refl)
      go false false f e = absurd (ground arith)

  converted-same :
      (v : Value D) (y : ℤ)
      → Typed v (half v.type_id)
      → converted v.type_id v.is_null (if v.is_null then y else v.number)
        ≡ gives (with_number double v.type_id v.is_null v.number)
  converted-same v y a = elim (Bool-cases v.is_null) [
    | inl e ↦
        let k : v.number ≡ null_number (half v.type_id) =
          eqb_ℤ_iff v.number (null_number (half v.type_id)) (sym a.null ∙ e) in
        rw (e, k, wider_same v.type_id) refl
    | inr e ↦
        let l = magnitude-Typed v (half v.type_id) a e in
        let b : ltb (magnitude v.number) (half v.type_id) ≡ true = ground (arith, l) in
        rw (e, b) refl
  ]

  -- Where a cast of a value of an integer type to another one gives a value, the value is one of that type, and
  -- its cast to the first type gives the first value again, up to the parts of it that are not of the type.
  pub cast_as-back :
      (v w : Value D) (u : TypeId)
      → Typed v (half v.type_id)
      → sized u ≡ true
      → Calls.cast_as double parse_double v u ≡ gives w
      → (w.type_id ≡ u)
        × Typed w (half u)
        × (Calls.cast_as double parse_double w v.type_id
            ≡ gives (with_number double v.type_id v.is_null v.number))
  cast_as-back v w u a q e =
      let c = converted-Converted u v.is_null v.number w q (sym (cast_as-converted v u a q) ∙ e) in
      let b : Typed w (half w.type_id) = subst (λ t. Typed w (half t)) (sym c.0) c.1 in
      let p = sized-Typed v.type_id (half v.type_id) a.half in
      (
        c.0,
        c.1,
        cast_as-converted w v.type_id b p
            ∙ rw (c.2, c.3) (converted-same v (null_number (half u)) a),
      )
