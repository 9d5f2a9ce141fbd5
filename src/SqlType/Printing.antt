-- ===== src/SqlType/Printing.antt =====
-- A number that std::to_string prints is read again by std::stoi and std::stoll.
use disk_oriented_concurrenc.Base.{
  ℕ, zero, suc, ◌+◌, ◌-◌, ◌*◌, ◌/◌, ◌%◌, ◌<◌, ◌≡◌, refl, ◌∙◌, Bool, true, false, ◌&&◌, List, [],
  ◌∷◌, ◌++◌, arith, ltb, ◌==◌, if◌then◌else◌, Bool-cases, inl, inr,
}
use disk_oriented_concurrenc.SqlType.Int.{ℤ, pos, negsuc, sub_ℕ, magnitude, fits}
use disk_oriented_concurrenc.SqlType.Text.{
  digits, show, is_digit, is_space, starts_number, read_digits, read_signed, after_spaces, parse,
}
use disk_oriented_concurrenc.SqlType.{gives}

-- The numbers of at most r + 1 digits are those below this.
abbrev pub digit_bound : ℕ → ℕ
digit_bound zero = 10
digit_bound (suc r) = 10 * digit_bound r

abbrev all_digits : List ℕ → Bool
all_digits [] = true
all_digits (c ∷ cs) = is_digit c && all_digits cs

all_digits-append :
    (xs : List ℕ) (c : ℕ)
    → all_digits xs ≡ true
    → is_digit c ≡ true
    → all_digits (xs ++ c ∷ []) ≡ true
all_digits-append [] c p q = ground arith
all_digits-append (x ∷ xs) c p q = let e = all_digits-append xs c (ground arith) q in ground arith

all_digits-digits : (r n : ℕ) → all_digits (digits r n) ≡ true
unfolding digits
all_digits-digits zero n = ground arith
all_digits-digits (suc r) n = elim (Bool-cases (ltb n 10)) [
  | inl e ↦ rw e (ground arith)
  | inr e ↦ rw e (
      all_digits-append (digits r (n / 10)) (48 + n % 10) (all_digits-digits r (n / 10))
        (ground arith))
]

read_digits-append :
    (acc : ℕ) (xs : List ℕ) (c : ℕ)
    → all_digits xs ≡ true
    → is_digit c ≡ true
    → read_digits acc (xs ++ c ∷ []) ≡ read_digits acc xs * 10 + (c - 48)
read_digits-append acc [] c p q = rw q refl
read_digits-append acc (x ∷ xs) c p q =
    let d : is_digit x ≡ true = ground arith in
    let e : all_digits xs ≡ true = ground arith in
    rw d (read_digits-append (acc * 10 + (x - 48)) xs c e q)

read_digits-digits : (r n : ℕ) → n < digit_bound r → read_digits 0 (digits r n) ≡ n
unfolding digits
read_digits-digits zero n l = ground (arith, l)
read_digits-digits (suc r) n l = elim (Bool-cases (ltb n 10)) [
  | inl e ↦ rw e (ground (arith, e))
  | inr e ↦
      let i = read_digits-digits r (n / 10) (omega (arith, l)) in
      let a =
        read_digits-append 0 (digits r (n / 10)) (48 + n % 10) (all_digits-digits r (n / 10))
          (ground arith) in
      rw e (a ∙ omega (arith, i))
]

starts_number-append : (xs ys : List ℕ) → starts_number xs ≡ true → starts_number (xs ++ ys) ≡ true
starts_number-append [] ys e = absurd (ground arith)
starts_number-append (x ∷ xs) ys e = e

starts_number-digits : (r n : ℕ) → starts_number (digits r n) ≡ true
unfolding digits
starts_number-digits zero n = ground arith
starts_number-digits (suc r) n = elim (Bool-cases (ltb n 10)) [
  | inl e ↦ rw e (ground (arith, e))
  | inr e ↦ rw e (
      starts_number-append (digits r (n / 10)) ((48 + n % 10) ∷ [])
        (starts_number-digits r (n / 10)))
]

-- Digits are read with no sign and no spaces before them.
parse_digits : (h : ℕ) (cs : List ℕ) → starts_number cs ≡ true → parse h cs ≡ read_signed h false cs
unfolding parse after_spaces
parse_digits h [] e = absurd (ground arith)
parse_digits h (c ∷ cs) e =
    let s : is_space c ≡ false = ground (arith, e) in
    let m : (c == 45) ≡ false = ground (arith, e) in
    let p : (c == 43) ≡ false = ground (arith, e) in rw (s, m, p) refl

parse_minus : (h : ℕ) (cs : List ℕ) → parse h (45 ∷ cs) ≡ read_signed h true cs
unfolding parse after_spaces
parse_minus h cs = refl

read_signed-digits :
    (h : ℕ) (b : Bool) (cs : List ℕ) (x : ℤ)
    → starts_number cs ≡ true
    → (if b then sub_ℕ 0 (read_digits 0 cs) else pos (read_digits 0 cs)) ≡ x
    → fits h x ≡ true
    → read_signed h b cs ≡ gives x
read_signed-digits h b cs x s e f = rw (s, e, f) refl

-- Digits with a minus sign, or with none.
pub parse-show :
    (h : ℕ) (x : ℤ) → fits h x ≡ true → magnitude x < digit_bound 19 → parse h (show x) ≡ gives x
unfolding show
parse-show h (pos n) f l =
    let a = n + 0 in
    let d = read_digits-digits 19 a l in
    parse_digits h (digits 19 a) (starts_number-digits 19 a)
    ∙ read_signed-digits h false (digits 19 a) (pos n) (starts_number-digits 19 a)
        (rw d (ground arith)) f
parse-show h (negsuc n) f l =
    let a = 0 + suc n in
    let d = read_digits-digits 19 a l in
    parse_minus h (digits 19 a)
    ∙ read_signed-digits h true (digits 19 a) (negsuc n) (starts_number-digits 19 a)
        (rw d (ground arith)) f
