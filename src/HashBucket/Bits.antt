-- ===== src/HashBucket/Bits.antt =====
-- The bits of a byte, and loops over them against a function that names each bit.
use disk_oriented_concurrenc.Base.{
  ℕ, zero, suc, ◌+◌, ◌*◌, ◌/◌, ◌%◌, ◌≤◌, ◌<◌, ◌≡◌, refl, ap, ◌∙◌, Bool, true, false, not, ◌&&◌,
  ◌||◌, arith, ltb, ◌==◌, if◌then◌else◌,
}
use disk_oriented_concurrenc.HashBucket.{
  bit, set_bit, clear_bit, count_bits, all_bits, count_bytes, full_bytes, zero_bytes,
}

pub bit-set_bit : (c j k : ℕ) → bit (set_bit c j) k ≡ (k == j || bit c k)
unfolding bit set_bit
bit-set_bit c zero zero = ground arith
bit-set_bit c zero (suc k) = let e : (c / 2 * 2 + 1) / 2 ≡ c / 2 = omega arith in ground (arith, e)
bit-set_bit c (suc j) zero =
    let e : (set_bit (c / 2) j * 2 + c % 2) % 2 ≡ c % 2 = omega arith in ground (arith, e)
bit-set_bit c (suc j) (suc k) =
    let e : (set_bit (c / 2) j * 2 + c % 2) / 2 ≡ set_bit (c / 2) j = omega arith in
    ground (arith, e, bit-set_bit (c / 2) j k)

pub bit-clear_bit : (c j k : ℕ) → bit (clear_bit c j) k ≡ (not (k == j) && bit c k)
unfolding bit clear_bit
bit-clear_bit c zero zero = ground arith
bit-clear_bit c zero (suc k) = let e : (c / 2 * 2) / 2 ≡ c / 2 = omega arith in ground (arith, e)
bit-clear_bit c (suc j) zero =
    let e : (clear_bit (c / 2) j * 2 + c % 2) % 2 ≡ c % 2 = omega arith in ground (arith, e)
bit-clear_bit c (suc j) (suc k) =
    let e : (clear_bit (c / 2) j * 2 + c % 2) / 2 ≡ clear_bit (c / 2) j = omega arith in
    ground (arith, e, bit-clear_bit (c / 2) j k)

-- How many of the first `m` places hold, and whether all or none of them do.
abbrev pub count : (ℕ → Bool) → ℕ → ℕ
count f zero = 0
count f (suc m) = (if f 0 then 1 else 0) + count (λ k. f (suc k)) m

abbrev pub every : (ℕ → Bool) → ℕ → Bool
every f zero = true
every f (suc m) = let rest = every (λ k. f (suc k)) m in if f 0 then rest else false

pub count_same : (f g : ℕ → Bool) (m : ℕ) → ((k : ℕ) → k < m → f k ≡ g k) → count f m ≡ count g m
count_same f g zero h = refl
count_same f g (suc m) h = ground (
  arith,
  h 0,
  count_same (λ k. f (suc k)) (λ k. g (suc k)) m (λ k l. h (suc k) (omega (arith, l))),
)

pub every_same : (f g : ℕ → Bool) (m : ℕ) → ((k : ℕ) → k < m → f k ≡ g k) → every f m ≡ every g m
every_same f g zero h = refl
every_same f g (suc m) h = ground (
  arith,
  h 0,
  every_same (λ k. f (suc k)) (λ k. g (suc k)) m (λ k l. h (suc k) (omega (arith, l))),
)

pub count_bits_lem : (c m : ℕ) → count_bits c m ≡ count (bit c) m
unfolding count_bits bit
count_bits_lem c zero = refl
count_bits_lem c (suc m) = ground (arith, count_bits_lem (c / 2) m)

pub all_bits_lem : (c m : ℕ) → all_bits c m ≡ every (bit c) m
unfolding all_bits bit
all_bits_lem c zero = refl
all_bits_lem c (suc m) = ground (arith, all_bits_lem (c / 2) m)

-- A run of `a + b` places is a run of `a` and one of `b`.
pub count-add : (f : ℕ → Bool) (a b : ℕ) → count f (a + b) ≡ count f a + count (λ k. f (a + k)) b
count-add f zero b =
    let n : 0 + b ≡ b = omega arith in
    omega (arith, ap (count f) n, count_same f (λ k. f (0 + k)) b (λ k l. ap f (omega arith)))
count-add f (suc a) b =
    let n : suc a + b ≡ suc (a + b) = omega arith in
    let e : count f (suc a + b) ≡ count f (suc (a + b)) = ap (count f) n in
    let ih = count-add (λ k. f (suc k)) a b in
    let s : count (λ k. f (suc (a + k))) b ≡ count (λ k. f (suc a + k)) b =
      count_same (λ k. f (suc (a + k))) (λ k. f (suc a + k)) b (λ k l. ap f (omega arith)) in
    omega (arith, e, ih, s)

pub every_append :
    (f : ℕ → Bool) (a b : ℕ) → every f (a + b) ≡ (every f a && every (λ k. f (a + k)) b)
every_append f zero b =
    let n : 0 + b ≡ b = omega arith in
    ap (every f) n ∙ every_same f (λ k. f (0 + k)) b (λ k l. ap f (omega arith))
every_append f (suc a) b =
    let n : suc a + b ≡ suc (a + b) = omega arith in
    let e : every f (suc a + b) ≡ every f (suc (a + b)) = ap (every f) n in
    let ih = every_append (λ k. f (suc k)) a b in
    let s : every (λ k. f (suc (a + k))) b ≡ every (λ k. f (suc a + k)) b =
      every_same (λ k. f (suc (a + k))) (λ k. f (suc a + k)) b (λ k l. ap f (omega arith)) in
    ground (arith, e, ih, s)

-- Place `k` of a bitmap.
abbrev pub place : (ℕ → ℕ) → ℕ → Bool
place r k = bit (r (k / 8)) (k % 8)

place_in_byte : (r : ℕ → ℕ) (q k : ℕ) → k < 8 → bit (r q) k ≡ place r (8 * q + k)
place_in_byte r q k h =
    let a : (8 * q + k) / 8 ≡ q = omega arith in
    let b : (8 * q + k) % 8 ≡ k = omega arith in rw (a, b) refl

-- The bits of byte `q` from its lowest one on.
pub count_byte :
    (r : ℕ → ℕ) (q m : ℕ) → m ≤ 8 → count_bits (r q) m ≡ count (λ k. place r (8 * q + k)) m
count_byte r q m h =
    count_bits_lem (r q) m
    ∙ count_same (bit (r q)) (λ k. place r (8 * q + k)) m
        (λ k l. place_in_byte r q k (omega (arith, l, h)))

pub all_byte : (r : ℕ → ℕ) (q m : ℕ) → m ≤ 8 → all_bits (r q) m ≡ every (λ k. place r (8 * q + k)) m
all_byte r q m h =
    all_bits_lem (r q) m
    ∙ every_same (bit (r q)) (λ k. place r (8 * q + k)) m
        (λ k l. place_in_byte r q k (omega (arith, l, h)))

full_byte : (c : ℕ) → (c % 256 == 255) ≡ all_bits c 8
unfolding all_bits
full_byte c = ground arith

zero_byte : (c : ℕ) → not (ltb 0 (c % 256)) ≡ every (λ k. not (bit c k)) 8
unfolding bit
zero_byte c = ground arith

next_byte : (q : ℕ) → 8 * suc q ≡ 8 * q + 8
next_byte q = omega arith

pub count_bytes_lem : (r : ℕ → ℕ) (q : ℕ) → count_bytes r q ≡ count (place r) (8 * q)
unfolding count_bytes
count_bytes_lem r zero = refl
count_bytes_lem r (suc q) =
    let e : count (place r) (8 * suc q) ≡ count (place r) (8 * q + 8) =
      ap (count (place r)) (next_byte q) in
    omega
      (arith, e, count-add (place r) (8 * q) 8, count_byte r q 8 (omega arith), count_bytes_lem r q)

pub full_bytes_lem : (r : ℕ → ℕ) (q : ℕ) → full_bytes r q ≡ every (place r) (8 * q)
unfolding full_bytes
full_bytes_lem r zero = refl
full_bytes_lem r (suc q) =
    let e : every (place r) (8 * suc q) ≡ every (place r) (8 * q + 8) =
      ap (every (place r)) (next_byte q) in
    ground (
      arith,
      e,
      every_append (place r) (8 * q) 8,
      full_byte (r q),
      all_byte r q 8 (omega arith),
      full_bytes_lem r q,
    )

pub zero_bytes_lem : (r : ℕ → ℕ) (q : ℕ) → zero_bytes r q ≡ every (λ k. not (place r k)) (8 * q)
unfolding zero_bytes
zero_bytes_lem r zero = refl
zero_bytes_lem r (suc q) =
    let f : ℕ → Bool = λ k. not (place r k) in
    let e : every f (8 * suc q) ≡ every f (8 * q + 8) = ap (every f) (next_byte q) in
    let z : every (λ k. not (bit (r q) k)) 8 ≡ every (λ k. f (8 * q + k)) 8 =
      every_same (λ k. not (bit (r q) k)) (λ k. f (8 * q + k)) 8
        (λ k l. ap not (place_in_byte r q k l)) in
    ground (arith, e, every_append f (8 * q) 8, zero_byte (r q), z, zero_bytes_lem r q)
