-- ===== src/SqlType/Text.antt =====
-- What the types use of strings, as lists of character codes: std::to_string, std::stoi and std::stoll.
use disk_oriented_concurrenc.Base.{
  ℕ, zero, suc, ◌+◌, ◌-◌, ◌*◌, ◌/◌, ◌%◌, Bool, true, false, not, ◌&&◌, ◌||◌, List, [], ◌∷◌, ◌++◌,
  ltb, leb, ◌==◌, if◌then◌else◌,
}
use disk_oriented_concurrenc.SqlType.Int.{ℤ, pos, sub_ℕ, magnitude, is_neg, fits}
use disk_oriented_concurrenc.SqlType.{Result, gives, throws, out_of_range, invalid_argument}

-- The decimal digits of a number of at most `r + 1` digits.
unfoldable pub digits : ℕ → ℕ → List ℕ
digits zero n = (48 + n % 10) ∷ []
digits (suc r) n =
    let rest = digits r (n / 10) in if ltb n 10 then (48 + n) ∷ [] else rest ++ (48 + n % 10) ∷ []

-- Numbers of 64 bits have at most 20 digits.
unfoldable pub show : ℤ → List ℕ
unfolding digits
show x = if is_neg x then 45 ∷ digits 19 (magnitude x) else digits 19 (magnitude x)

abbrev pub is_digit : ℕ → Bool
is_digit c = leb 48 c && leb c 57

abbrev pub is_space : ℕ → Bool
is_space c = c == 32 || leb 9 c && leb c 13

abbrev pub starts_number : List ℕ → Bool
starts_number [] = false
starts_number (c ∷ cs) = is_digit c

-- The digits at the front, after `acc`.
abbrev pub read_digits : ℕ → List ℕ → ℕ
read_digits acc [] = acc
read_digits acc (c ∷ cs) =
    let rest = read_digits (acc * 10 + (c - 48)) cs in if is_digit c then rest else acc

abbrev pub skip_spaces : List ℕ → List ℕ
skip_spaces [] = []
skip_spaces (c ∷ cs) = let rest = skip_spaces cs in if is_space c then rest else c ∷ cs

-- After the sign: the number, in a type of 2 * h patterns.
abbrev pub read_signed : ℕ → Bool → List ℕ → Result ℤ
read_signed h negative cs =
    let x = if negative then sub_ℕ 0 (read_digits 0 cs) else pos (read_digits 0 cs) in
    if not (starts_number cs)
    then throws invalid_argument
    else if fits h x
    then gives x
    else throws out_of_range

unfoldable pub after_spaces : ℕ → List ℕ → Result ℤ
after_spaces h [] = throws invalid_argument
after_spaces h (c ∷ cs) =
    if c == 45
    then read_signed h true cs
    else if c == 43
    then read_signed h false cs
    else read_signed h false (c ∷ cs)

-- `stoi` for the half of `int`, and `stoll` for that of `long long`.
unfoldable pub parse : ℕ → List ℕ → Result ℤ
unfolding after_spaces
parse h cs = after_spaces h (skip_spaces cs)
