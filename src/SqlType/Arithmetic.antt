-- ===== src/SqlType/Arithmetic.antt =====
-- src/include/type/integer_parent_type.h: arithmetic on two integers of given widths. A template's
-- types T1 and T2 are the halves of their numbers of patterns, and `x + y` is computed in `int`, or in 64
-- bits where one of them has 64; out of its range C++ leaves a signed sum undefined.
use disk_oriented_concurrenc.Base.{ℕ, Bool, not, ◌&&◌, ◌||◌, ltb, leb, ◌==◌, if◌then◌else◌}
use disk_oriented_concurrenc.SqlType.Int.{
  ℤ, pos, ◌+ℤ◌, ◌-ℤ◌, ◌*ℤ◌, quot, rem, eqb_ℤ, ltb_ℤ, fits, cast,
}
use disk_oriented_concurrenc.SqlType.{
  ◌>>=◌, Value, Double, Result, gives, throws, undefined, out_of_range, divide_by_zero, half8,
  half16, half32, half64, value_int8, value_int16, value_int32, value_int64, TypeId,
}

-- The type of `x + y`, and a result of it.
abbrev pub common : ℕ → ℕ → ℕ
common h₁ h₂ = if ltb half32 h₁ || ltb half32 h₂ then half64 else half32

abbrev pub within : ℕ → ℤ → Result ℤ
within h x = if fits h x then gives x else undefined

abbrev pub is_positive : ℤ → Bool
is_positive x = ltb_ℤ (pos 0) x

abbrev pub is_negative : ℤ → Bool
is_negative x = ltb_ℤ x (pos 0)

module _ {D : Type 0} (double : Double D) where
  -- `Value(type, T)`, for `T` of 2 * h patterns.
  unfoldable pub value_of : ℕ → TypeId → ℤ → Result (Value D)
  unfolding value_int8 value_int16 value_int32 value_int64
  value_of h t x =
      if h == half8
      then value_int8 double t x
      else if h == half16
      then value_int16 double t x
      else if h == half32
      then value_int32 double t x
      else value_int64 double t x

  -- `AddValue` and `SubtractValue`, whose overflow tests differ in the sign of `y`.
  unfoldable pub add_value : ℕ → ℕ → Value D → Value D → Result (Value D)
  add_value h₁ h₂ left right = do
    let x = left.number
    let y = right.number
    s ← within (common h₁ h₂) (x +ℤ y)
    let sum₁ = cast h₁ s
    let sum₂ = cast h₂ s
    let over₁ =
        is_positive x && is_positive y && is_negative sum₁
        || is_negative x && is_negative y && is_positive sum₁
    let over₂ =
        is_positive x && is_positive y && is_negative sum₂
        || is_negative x && is_negative y && is_positive sum₂
    if not (eqb_ℤ s sum₁) && not (eqb_ℤ s sum₂)
        then throws out_of_range
        else if leb h₂ h₁
        then (if over₁ then throws out_of_range else value_of h₁ left.type_id sum₁)
        else (if over₂ then throws out_of_range else value_of h₂ right.type_id sum₂)

  unfoldable pub subtract_value : ℕ → ℕ → Value D → Value D → Result (Value D)
  subtract_value h₁ h₂ left right = do
    let x = left.number
    let y = right.number
    d ← within (common h₁ h₂) (x -ℤ y)
    let diff₁ = cast h₁ d
    let diff₂ = cast h₂ d
    let over₁ =
        is_positive x && is_negative y && is_negative diff₁
        || is_negative x && is_positive y && is_positive diff₁
    let over₂ =
        is_positive x && is_negative y && is_negative diff₂
        || is_negative x && is_positive y && is_positive diff₂
    if not (eqb_ℤ d diff₁) && not (eqb_ℤ d diff₂)
        then throws out_of_range
        else if leb h₂ h₁
        then (if over₁ then throws out_of_range else value_of h₁ left.type_id diff₁)
        else (if over₂ then throws out_of_range else value_of h₂ right.type_id diff₂)

  unfoldable pub multiply_value : ℕ → ℕ → Value D → Value D → Result (Value D)
  multiply_value h₁ h₂ left right = do
    let x = left.number
    let y = right.number
    p ← within (common h₁ h₂) (x *ℤ y)
    let prod₁ = cast h₁ p
    let prod₂ = cast h₂ p
    let over₁ = not (eqb_ℤ y (pos 0)) && not (eqb_ℤ (quot prod₁ y) x)
    let over₂ = not (eqb_ℤ y (pos 0)) && not (eqb_ℤ (quot prod₂ y) x)
    if not (eqb_ℤ p prod₁) && not (eqb_ℤ p prod₂)
        then throws out_of_range
        else if leb h₂ h₁
        then (if over₁ then throws out_of_range else value_of h₁ left.type_id prod₁)
        else (if over₂ then throws out_of_range else value_of h₂ right.type_id prod₂)

  unfoldable pub divide_value : ℕ → ℕ → Value D → Value D → Result (Value D)
  divide_value h₁ h₂ left right =
      let result = (do
        q ← within (common h₁ h₂) (quot left.number right.number)
        if leb h₂ h₁
            then value_of h₁ left.type_id (cast h₁ q)
            else value_of h₂ right.type_id (cast h₂ q)) in
      if eqb_ℤ right.number (pos 0) then throws divide_by_zero else result

  -- `x % y` is undefined where `x / y` is.
  unfoldable pub modulo_value : ℕ → ℕ → Value D → Value D → Result (Value D)
  modulo_value h₁ h₂ left right =
      let result = (do
        q ← within (common h₁ h₂) (quot left.number right.number)
        let r = rem left.number right.number
        if leb h₂ h₁
            then value_of h₁ left.type_id (cast h₁ r)
            else value_of h₂ right.type_id (cast h₂ r)) in
      if eqb_ℤ right.number (pos 0) then throws divide_by_zero else result
