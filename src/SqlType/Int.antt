-- ===== src/SqlType/Int.antt =====
-- Integers over the native numbers, with what C++ does with the fixed-width ones.
use disk_oriented_concurrenc.Base.{
  ℕ, suc, ◌+◌, ◌-◌, ◌*◌, ◌/◌, ◌%◌, ◌≡◌, Bool, true, false, ◌&&◌, arith, ltb, leb, ◌==◌,
  if◌then◌else◌,
}

-- `negsuc n` is -(n + 1).
pub data ℤ : Type 0 where
  pos : ℕ → ℤ
  negsuc : ℕ → ℤ

-- The two parts of an integer, one of which is 0.
abbrev pub pos_part : ℤ → ℕ
pos_part (pos n) = n
pos_part (negsuc n) = 0

abbrev pub neg_part : ℤ → ℕ
neg_part (pos n) = 0
neg_part (negsuc n) = suc n

abbrev pub sub_ℕ : ℕ → ℕ → ℤ
sub_ℕ a b = if leb b a then pos (a - b) else negsuc (b - a - 1)

infixl 65 ◌+ℤ◌ ◌-ℤ◌
infixl 70 ◌*ℤ◌
unfoldable pub ◌+ℤ◌ : ℤ → ℤ → ℤ
x +ℤ y = sub_ℕ (pos_part x + pos_part y) (neg_part x + neg_part y)

unfoldable pub ◌-ℤ◌ : ℤ → ℤ → ℤ
x -ℤ y = sub_ℕ (pos_part x + neg_part y) (neg_part x + pos_part y)

unfoldable pub ◌*ℤ◌ : ℤ → ℤ → ℤ
x *ℤ y =
    sub_ℕ (pos_part x * pos_part y + neg_part x * neg_part y)
      (pos_part x * neg_part y + neg_part x * pos_part y)

abbrev pub magnitude : ℤ → ℕ
magnitude x = pos_part x + neg_part x

abbrev pub is_neg : ℤ → Bool
is_neg (pos n) = false
is_neg (negsuc n) = true

-- `x / y` and `x % y` towards zero, for `y` that is not 0.
unfoldable pub quot : ℤ → ℤ → ℤ
quot x y =
    let q = magnitude x / magnitude y in
    if is_neg x
    then (if is_neg y then pos q else sub_ℕ 0 q)
    else (if is_neg y then sub_ℕ 0 q else pos q)

unfoldable pub rem : ℤ → ℤ → ℤ
rem x y = let r = magnitude x % magnitude y in if is_neg x then sub_ℕ 0 r else pos r

abbrev pub eqb_ℤ : ℤ → ℤ → Bool
eqb_ℤ x y = pos_part x + neg_part y == pos_part y + neg_part x

abbrev pub ltb_ℤ : ℤ → ℤ → Bool
ltb_ℤ x y = ltb (pos_part x + neg_part y) (pos_part y + neg_part x)

abbrev pub leb_ℤ : ℤ → ℤ → Bool
leb_ℤ x y = leb (pos_part x + neg_part y) (pos_part y + neg_part x)

-- A signed type of 2 * h patterns holds -h to h - 1.
abbrev pub fits : ℕ → ℤ → Bool
fits h x = ltb (pos_part x) h && leb (neg_part x) h

-- `static_cast` to it.
abbrev pub residue : ℕ → ℤ → ℕ
residue m (pos n) = n % m
residue m (negsuc n) = m - 1 - n % m

unfoldable pub cast : ℕ → ℤ → ℤ
cast h x = let m = residue (h + h) x in if ltb m h then pos m else negsuc (h + h - m - 1)

pub eqb_ℤ_iff : (x y : ℤ) → eqb_ℤ x y ≡ true → x ≡ y
eqb_ℤ_iff x y e = ground arith

pub eqb_ℤ_refl : (x : ℤ) → eqb_ℤ x x ≡ true
eqb_ℤ_refl x = ground arith
