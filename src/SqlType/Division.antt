-- ===== src/SqlType/Division.antt =====
-- Quotients towards zero and their remainders.
use disk_oriented_concurrenc.Base.{
  ℕ, zero, suc, ◌+◌, ◌*◌, ◌/◌, ◌%◌, ◌≤◌, ◌<◌, ◌≡◌, ◌∙◌, false, arith,
}
use native.Mathlib.Nat.{mod-lt, div-add-mod', div-le_self, mod-le}
use disk_oriented_concurrenc.SqlType.Int.{
  ℤ, pos, negsuc, ◌+ℤ◌, ◌*ℤ◌, eqb_ℤ, quot, rem, magnitude, sub_ℕ,
}
use disk_oriented_concurrenc.SqlType.Bounds.{
  same_product, left_product, right_product, both_product,
}

pub quot_le : (x y : ℤ) → magnitude (quot x y) ≤ magnitude x
unfolding quot
quot_le x y = let l = div-le_self (magnitude x) (magnitude y) in ground (arith, l)

pub rem_le : (x y : ℤ) → magnitude (rem x y) ≤ magnitude x
unfolding rem
rem_le x y = let l = mod-le (magnitude x) (magnitude y) in ground (arith, l)

pub rem_lt : (x y : ℤ) → eqb_ℤ y (pos 0) ≡ false → magnitude (rem x y) < magnitude y
unfolding rem
rem_lt x y e =
    let p : 0 < magnitude y = ground arith in let l = mod-lt (magnitude x) p in ground (arith, l)

negated_suc : (q : ℕ) → sub_ℕ 0 (suc q) ≡ negsuc q
negated_suc q = ground arith

negated_pos : (q k : ℕ) → sub_ℕ 0 q *ℤ pos k ≡ sub_ℕ 0 (q * k)
negated_pos zero k = same_product 0 k ∙ ground arith
negated_pos (suc q) k = rw (negated_suc q) (right_product q k)

negated_neg : (q k : ℕ) → sub_ℕ 0 q *ℤ negsuc k ≡ pos (q * suc k)
negated_neg zero k = left_product 0 k ∙ ground arith
negated_neg (suc q) k = rw (negated_suc q) (both_product q k)

add_pos : (a b n : ℕ) → a + b ≡ n → pos a +ℤ pos b ≡ pos n
unfolding ◌+ℤ◌
add_pos a b n e = ground (arith, e)

add_neg : (a b n : ℕ) → a + b ≡ suc n → sub_ℕ 0 a +ℤ sub_ℕ 0 b ≡ negsuc n
unfolding ◌+ℤ◌
add_neg a b n e = ground (arith, e)

plus_zero : (n : ℕ) → n + 0 ≡ n
plus_zero n = omega arith

zero_plus : (n : ℕ) → 0 + n ≡ n
zero_plus n = omega arith

-- The quotient times the divisor, and the remainder, are the number again.
pub quot-rem : (x y : ℤ) → quot x y *ℤ y +ℤ rem x y ≡ x
unfolding quot rem
quot-rem (pos n) (pos k) =
    rw (quot, rem, plus_zero n, plus_zero k, same_product (n / k) k)
      (add_pos (n / k * k) (n % k) n (div-add-mod' n k))
quot-rem (pos n) (negsuc k) =
    rw (quot, rem, plus_zero n, zero_plus (suc k), negated_neg (n / suc k) k)
      (add_pos (n / suc k * suc k) (n % suc k) n (div-add-mod' n (suc k)))
quot-rem (negsuc n) (pos k) =
    rw (quot, rem, zero_plus (suc n), plus_zero k, negated_pos (suc n / k) k)
      (add_neg (suc n / k * k) (suc n % k) n (div-add-mod' (suc n) k))
quot-rem (negsuc n) (negsuc k) =
    rw (quot, rem, zero_plus (suc n), zero_plus (suc k), left_product (suc n / suc k) k)
      (add_neg (suc n / suc k * suc k) (suc n % suc k) n (div-add-mod' (suc n) (suc k)))
