-- ===== src/SqlType/Strings.antt =====
-- src/type/varlen_type.cpp and src/include/type/type_util.h: strings compared as bytes. A length of
-- BUSTUB_VARCHAR_MAX_LEN is that of a null, so that the branches on it are never reached.
use disk_oriented_concurrenc.Base.{
  ℕ, zero, suc, Bool, false, not, ◌||◌, List, [], ◌∷◌, ◌++◌, ltb, ◌==◌, if◌then◌else◌,
}
use disk_oriented_concurrenc.Base.{length}
use disk_oriented_concurrenc.SqlType.Int.{ℤ, pos, negsuc, eqb_ℤ, ltb_ℤ, leb_ℤ}
use disk_oriented_concurrenc.SqlType.Varlen.{all_but_last}
use disk_oriented_concurrenc.SqlType.Integers.{to_bytes, of_bytes}
use disk_oriented_concurrenc.SqlType.{
  null_string, ◌>>=◌, Value, Double, Result, gives, asserts, varchar, TypeId, CmpBool, cmp_null,
  get_cmp_bool, check_comparable,
}

-- `CompareStrings`: `memcmp` on the shorter length, of which the sign is all that is used, and then the
-- difference of the lengths.
unfoldable pub compare_strings : List ℕ → List ℕ → ℤ
compare_strings [] [] = pos 0
compare_strings [] (d ∷ ds) = negsuc (length ds)
compare_strings (c ∷ cs) [] = pos (suc (length cs))
compare_strings (c ∷ cs) (d ∷ ds) =
    let rest = compare_strings cs ds in
    if ltb c d then negsuc 0 else if ltb d c then pos 1 else rest

-- The bytes before the NUL; a length of 0 less 1 fails `CompareStrings`'s assertion.
unfoldable pub content : List ℕ → Result (List ℕ)
content [] = asserts
content (c ∷ cs) = gives (all_but_last (c ∷ cs))

abbrev pub take {ℓ} : {A : Type ℓ} → ℕ → List A → List A
take zero xs = []
take (suc n) [] = []
take (suc n) (x ∷ xs) = x ∷ take n xs

-- The storage from an offset.
abbrev pub after {ℓ} : {A : Type ℓ} → ℕ → List A → List A
after zero xs = xs
after (suc n) [] = []
after (suc n) (x ∷ xs) = after n xs

-- `BUSTUB_VALUE_NULL`, the length of a null.
abbrev pub value_null : ℕ
value_null = 4294967295

module _ {D : Type 0} (double : Double D) where
  -- The length in 4 bytes, least significant first, and the bytes.
  unfoldable pub serialize_to : Value D → List ℕ
  serialize_to val =
      if val.is_null then to_bytes 4 value_null else to_bytes 4 (length val.text) ++ val.text

  unfoldable pub deserialize_from : List ℕ → Result (Value D)
  unfolding null_string
  deserialize_from storage =
      let len = of_bytes 4 storage in
      if len == value_null
      then null_string double varchar
      else gives (record {
        type_id = varchar;
        is_null = false;
        number = pos 0;
        real = double.of_int (pos 0);
        text = take len (after 4 storage);
      })

module _ {D : Type 0} (double : Double D) (cast_as : Value D → TypeId → Result (Value D)) where
  -- The right operand as a string, with `CastAs` of its type.
  unfoldable pub as_string : Value D → Result (Value D)
  as_string right = elim right.type_id [ varchar ↦ gives right | _ ↦ cast_as right varchar ]

  -- The macro `VARLEN_COMPARE_FUNC`.
  unfoldable pub compare : (ℤ → ℤ → Bool) → Value D → Value D → Result CmpBool
  unfolding compare_strings content get_cmp_bool as_string
  compare test left right = do
    r ← as_string right
    s₁ ← content left.text
    s₂ ← content r.text
    gives (get_cmp_bool (test (compare_strings s₁ s₂) (pos 0)))

  unfoldable pub checked_compare : (ℤ → ℤ → Bool) → Value D → Value D → Result CmpBool
  unfolding check_comparable compare
  checked_compare test left right =
      if not (check_comparable double left right)
      then asserts
      else if left.is_null || right.is_null
      then gives cmp_null
      else compare test left right

  unfoldable pub compare_equals : Value D → Value D → Result CmpBool
  unfolding checked_compare
  compare_equals = checked_compare eqb_ℤ

  unfoldable pub compare_not_equals : Value D → Value D → Result CmpBool
  unfolding checked_compare
  compare_not_equals = checked_compare (λ x y. not (eqb_ℤ x y))

  unfoldable pub compare_less_than : Value D → Value D → Result CmpBool
  unfolding checked_compare
  compare_less_than = checked_compare ltb_ℤ

  unfoldable pub compare_less_than_equals : Value D → Value D → Result CmpBool
  unfolding checked_compare
  compare_less_than_equals = checked_compare leb_ℤ

  unfoldable pub compare_greater_than : Value D → Value D → Result CmpBool
  unfolding checked_compare
  compare_greater_than = checked_compare (λ x y. ltb_ℤ y x)

  unfoldable pub compare_greater_than_equals : Value D → Value D → Result CmpBool
  unfolding checked_compare
  compare_greater_than_equals = checked_compare (λ x y. leb_ℤ y x)
