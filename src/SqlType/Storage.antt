-- ===== src/SqlType/Storage.antt =====
-- src/type/*_type.cpp: `SerializeTo` and `DeserializeFrom`.
use disk_oriented_concurrenc.Base.{
  ℕ, zero, suc, ◌+◌, ◌-◌, ◌*◌, ◌/◌, ◌%◌, ◌<◌, ◌≡◌, refl, sym, ap, subst, ◌∙◌, Bool, true, false,
  some, List, [], ◌∷◌, ◌++◌, arith, ◌==◌,
}
use native.Mathlib.Nat.{mod-eq_of_lt, mod-lt}
use disk_oriented_concurrenc.Base.{length}
use disk_oriented_concurrenc.SqlType.Int.{ℤ, pos, negsuc, eqb_ℤ, fits, cast, residue}
use disk_oriented_concurrenc.SqlType.{
  ◌>>=◌, Value, Double, Result, gives, TypeId, tinyint, smallint, integer, bigint, varchar,
  with_number, null_number,
}
use disk_oriented_concurrenc.SqlType.Bounds.{half_of, Typed, value_of-member}
use disk_oriented_concurrenc.SqlType.Cast.{cast-fits}
use disk_oriented_concurrenc.SqlType.Operations.{half, sized, value}
use disk_oriented_concurrenc.SqlType.Exact.{sized-Typed}
use disk_oriented_concurrenc.SqlType.Integers.{to_bytes, of_bytes}
use disk_oriented_concurrenc.SqlType.Integers
use disk_oriented_concurrenc.SqlType.Strings.{take, after, value_null}
use disk_oriented_concurrenc.SqlType.Strings
use disk_oriented_concurrenc.SqlType.Tinyint
use disk_oriented_concurrenc.SqlType.Smallint
use disk_oriented_concurrenc.SqlType.Integer
use disk_oriented_concurrenc.SqlType.Bigint
use disk_oriented_concurrenc.SqlType.Calls

-- The number of patterns of `w` bytes.
abbrev patterns : ℕ → ℕ
patterns zero = 1
patterns (suc w) = 256 * patterns w

-- The bytes of a number that fits, in front of anything, are that number.
of_bytes-to_bytes : (w n : ℕ) (bs : List ℕ) → n < patterns w → of_bytes w (to_bytes w n ++ bs) ≡ n
of_bytes-to_bytes zero n bs l = omega (arith, l)
of_bytes-to_bytes (suc w) n bs l =
    let e = of_bytes-to_bytes w (n / 256) bs (omega (arith, l)) in omega (arith, e)

residue_lt : (h : ℕ) (x : ℤ) → 0 < h → residue (h + h) x < h + h
residue_lt h (pos n) l = mod-lt n (omega (arith, l))
residue_lt h (negsuc n) l = omega (arith, l)

-- The signed number of the pattern of a number in range is that number.
cast-residue : (h : ℕ) (x : ℤ) → fits h x ≡ true → cast h (pos (residue (h + h) x)) ≡ x
unfolding cast
cast-residue h (pos n) f =
    let e : n % (h + h) ≡ n = mod-eq_of_lt (ground arith) in rw (e, e) (ground arith)
cast-residue h (negsuc n) f =
    let e : n % (h + h) ≡ n = mod-eq_of_lt (ground arith) in
    let d : (h + h - 1 - n) % (h + h) ≡ h + h - 1 - n = mod-eq_of_lt (ground arith) in
    rw (e, d) (ground arith)

take-length : {A : Type 0} (xs ys : List A) → take (length xs) (xs ++ ys) ≡ xs
take-length [] ys = refl
take-length (x ∷ xs) ys = ap (λ zs. x ∷ zs) (take-length xs ys)

after-to_bytes : (w n : ℕ) (bs : List ℕ) → after w (to_bytes w n ++ bs) ≡ bs
after-to_bytes zero n bs = refl
after-to_bytes (suc w) n bs = after-to_bytes w (n / 256) bs

module _ {D : Type 0} (double : Double D) (parse_double : List ℕ → Result D) where
  -- A number of `w` bytes, stored and read again.
  restored :
      (t : TypeId) (w : ℕ) (null : Value D → Value D → Result (Value D)) (v : Value D)
      (rest : List ℕ)
      → half_of t ≡ some (half t)
      → 0 < half t
      → patterns w ≡ half t + half t
      → fits (half t) v.number ≡ true
      → Integers.deserialize_from double parse_double t
          (half t)
          null
          w
          (Integers.serialize_to double parse_double t (half t) null w v ++ rest)
        ≡ gives (with_number double t (eqb_ℤ v.number (null_number (half t))) v.number)
  unfolding Integers.deserialize_from Integers.serialize_to
  restored t w null v rest e p q f =
      let x = v.number in
      let h = half t in
      let b =
        of_bytes-to_bytes w (residue (h + h) x) rest
          (subst (λ m. residue (h + h) x < m) (sym q) (residue_lt h x p)) in
      rw (b, cast-residue h x f) (value_of-member double t h x e ∙ rw (cast-fits h x f) refl)

  restored_cases :
      (t : TypeId) (n : Bool) (x : ℤ) (d : D) (s : List ℕ) (rest : List ℕ)
      → sized t ≡ true
      → fits (half t) x ≡ true
      → (Calls.serialize_to double parse_double (value double parse_double t n x d s) >>= λ bytes.
          Calls.deserialize_from double parse_double (bytes ++ rest) t)
        ≡ gives (with_number double t (eqb_ℤ x (null_number (half t))) x)
  unfolding Calls.serialize_to Calls.deserialize_from Tinyint.serialize_to Tinyint.deserialize_from
      Smallint.serialize_to Smallint.deserialize_from Integer.serialize_to Integer.deserialize_from
      Bigint.serialize_to Bigint.deserialize_from
  restored_cases tinyint n x d s rest p f =
      restored tinyint 1 (Tinyint.operate_null double parse_double)
        (value double parse_double tinyint n x d s) rest refl (omega arith) refl f
  restored_cases smallint n x d s rest p f =
      restored smallint 2 (Smallint.operate_null double parse_double)
        (value double parse_double smallint n x d s) rest refl (omega arith) refl f
  restored_cases integer n x d s rest p f =
      restored integer 4 (Integer.operate_null double parse_double)
        (value double parse_double integer n x d s) rest refl (omega arith) refl f
  restored_cases bigint n x d s rest p f =
      restored bigint 8 (Bigint.operate_null double parse_double)
        (value double parse_double bigint n x d s) rest refl (omega arith) refl f
  restored_cases t n x d s rest p f = absurd (ground arith)

  -- A value of an integer type, stored in front of anything and read again as one of its type, is that value, up
  -- to the parts of it that are not of the type.
  pub deserialize_from-serialize_to :
      (v : Value D) (rest : List ℕ)
      → Typed v (half v.type_id)
      → (Calls.serialize_to double parse_double v >>= λ bytes.
          Calls.deserialize_from double parse_double (bytes ++ rest) v.type_id)
        ≡ gives (with_number double v.type_id v.is_null v.number)
  deserialize_from-serialize_to v rest a =
      restored_cases v.type_id v.is_null v.number v.real v.text rest
        (sized-Typed v.type_id (half v.type_id) a.half) a.in_range
      ∙ ap (λ n. gives (with_number double v.type_id n v.number)) (sym a.null)

  abbrev varchar_of : List ℕ → Value D
  varchar_of s = record {
    type_id = varchar;
    is_null = false;
    number = pos 0;
    real = double.of_int (pos 0);
    text = s;
  }

  read_varchar :
      (n : ℕ) (storage : List ℕ)
      → of_bytes 4 storage ≡ n
      → n < value_null
      → Strings.deserialize_from double storage ≡ gives (varchar_of (take n (after 4 storage)))
  unfolding Strings.deserialize_from
  read_varchar n storage e l =
      let ne : (n == value_null) ≡ false = ground (arith, l) in rw (e, ne) refl

  -- A string that is not null and whose length, with its NUL, is below that of a null, stored in front of
  -- anything and read again, has the bytes it had.
  pub deserialize_from-serialize_to_varchar :
      (s rest : List ℕ)
      → length s < value_null
      → (Calls.serialize_to double parse_double (varchar_of s) >>= λ bytes.
          Calls.deserialize_from double parse_double (bytes ++ rest) varchar)
        ≡ gives (varchar_of s)
  unfolding Calls.serialize_to Calls.deserialize_from Strings.serialize_to
  deserialize_from-serialize_to_varchar s rest l =
      read_varchar (length s) (to_bytes 4 (length s) ++ (s ++ rest))
        (of_bytes-to_bytes 4 (length s) (s ++ rest) (below l)) l
      ∙ ap (λ xs. gives (varchar_of xs)) (take-length s rest)
    where
      below : {n : ℕ} → n < value_null → n < patterns 4
      below l = omega (arith, l)
