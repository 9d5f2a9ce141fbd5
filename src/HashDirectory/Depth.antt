-- ===== src/HashDirectory/Depth.antt =====
-- Growing and shrinking the directory: every hash still leads to its bucket.
use disk_oriented_concurrenc.Base.{
  ℕ, zero, suc, ◌+◌, ◌-◌, ◌%◌, ◌^◌, ◌≤◌, ◌<◌, ◌≡◌, refl, ap, ◌∙◌, sym, true, arith, ltb, ◌==◌,
  Bool-cases, inl, inr, subst, ◌⊎◌,
}
use native.Mathlib.Nat.{
  mod-eq_of_lt, mod-eq-sub-mod, mod-mod_of_dvd, mod-lt, two-pow-succ, dvd_refl, dvd-add,
}
use Prim.Native.Nat.{◌∣◌}
use disk_oriented_concurrenc.HashDirectory.{
  HashTableDirectoryPage, size, copy_up, incr_global_depth, decr_global_depth, shrinks_below,
  can_shrink, word,
}

pub pow_pos : (n : ℕ) → 0 < 2 ^ n
pow_pos zero = omega arith
pow_pos (suc n) = omega (arith, two-pow-succ n, pow_pos n)

pow_dvd : (a k : ℕ) → 2 ^ a ∣ 2 ^ (a + k)
pow_dvd a zero = let e : a ≡ a + 0 = omega arith in subst (λ n. 2 ^ a ∣ 2 ^ n) e (dvd_refl (2 ^ a))
pow_dvd a (suc k) =
    let e : suc (a + k) ≡ a + suc k = omega arith in
    subst (λ n. 2 ^ a ∣ 2 ^ n) e
      (subst (λ n. 2 ^ a ∣ n) (sym (two-pow-succ (a + k)))
        (dvd-add (2 ^ a) (pow_dvd a k) (pow_dvd a k)))

pub pow_dvd_le : (a b : ℕ) → a ≤ b → 2 ^ a ∣ 2 ^ b
pow_dvd_le a b l =
    let e : a + (b - a) ≡ b = omega arith in subst (λ n. 2 ^ a ∣ 2 ^ n) e (pow_dvd a (b - a))

-- The lowest `a` bits of the lowest `b` bits.
pub mod_pow : (h a b : ℕ) → a ≤ b → h % 2 ^ b % 2 ^ a ≡ h % 2 ^ a
mod_pow h a b l = mod-mod_of_dvd (2 ^ a) h (pow_dvd_le a b l)

-- The place in a directory of twice the size is the place in the old one, or that of its copy.
pub place_doubled : (h g : ℕ) → (h % 2 ^ suc g ≡ h % 2 ^ g) ⊎ (h % 2 ^ suc g ≡ h % 2 ^ g + 2 ^ g)
place_doubled h g =
    let n = 2 ^ g in
    let m = h % 2 ^ suc g in
    let low : m % n ≡ h % n = mod_pow h g (suc g) (omega arith) in
    let lt : m < 2 ^ suc g = mod-lt h (pow_pos (suc g)) in
    elim (Bool-cases (ltb m n)) [
      | inl e ↦ let k : m < n = ground arith in inl (sym (mod-eq_of_lt k) ∙ low)
      | inr e ↦
          let k : n ≤ m = ground arith in
          let s : m % n ≡ (m - n) % n = mod-eq-sub-mod k in
          let r : (m - n) % n ≡ m - n = mod-eq_of_lt (omega (arith, lt, k, two-pow-succ g)) in
          inr (omega (arith, s, r, low, k))
    ]

copy_up_lem :
    (n m : ℕ) (f : ℕ → ℕ) (k : ℕ)
    → m ≤ n
    → (k < n → copy_up n m f k ≡ f k) × (k < m → copy_up n m f (n + k) ≡ f k)
unfolding copy_up
copy_up_lem n zero f k h = (λ l. refl, λ l. absurd (omega (arith, l)))
copy_up_lem n (suc m) f k h =
    let ih = copy_up_lem n m f in
    (
      λ l. ground (arith, ih k (omega arith), l),
      λ l. ground (arith, ih k (omega arith), ih m (omega arith), l),
    )

-- Every place that a bucket's local depth does not tell apart holds the bucket, with the same depth.
pub record Mirrored (d : HashTableDirectoryPage) : Type 0 where
  pub bounded : (i : ℕ) → i < 2 ^ d.global_depth → d.local_depths i ≤ d.global_depth
  pub same :
      (i j : ℕ)
      → i < 2 ^ d.global_depth
      → j < 2 ^ d.global_depth
      → i % 2 ^ d.local_depths i ≡ j % 2 ^ d.local_depths i
      → (d.bucket_page_ids i ≡ d.bucket_page_ids j) × (d.local_depths i ≡ d.local_depths j)

-- The bucket and the local depth of a hash.
abbrev pub bucket_of : HashTableDirectoryPage → ℕ → ℕ × ℕ
bucket_of d h =
    (d.bucket_page_ids (h % 2 ^ d.global_depth), d.local_depths (h % 2 ^ d.global_depth))

doubled :
    (d : HashTableDirectoryPage) (f : ℕ → ℕ) (h : ℕ)
    → copy_up (size d) (size d) f (h % 2 ^ suc d.global_depth) ≡ f (h % 2 ^ d.global_depth)
unfolding size
doubled d f h =
    let n = 2 ^ d.global_depth in
    let lt : h % n < n = mod-lt h (pow_pos d.global_depth) in
    let c = copy_up_lem n n f (h % n) (omega arith) in
    elim (place_doubled h d.global_depth) [
      | inl e ↦ ap (copy_up n n f) e ∙ c.0 lt
      | inr e ↦ let q : h % n + n ≡ n + h % n = omega arith in ap (copy_up n n f) (e ∙ q) ∙ c.1 lt
    ]

pub grown_depth :
    (d : HashTableDirectoryPage)
    → d.global_depth < 9
    → (incr_global_depth d).global_depth ≡ suc d.global_depth
unfolding incr_global_depth
grown_depth d h = omega arith

grown_bucket :
    (d : HashTableDirectoryPage) (h : ℕ)
    → d.global_depth < 9
    → bucket_of (incr_global_depth d) h ≡ bucket_of d h
unfolding incr_global_depth
grown_bucket d h l =
    let g : (d.global_depth + 1) % word ≡ suc d.global_depth = omega arith in
    rw (g, doubled d d.bucket_page_ids h, doubled d d.local_depths h) refl

-- A directory in which every hash leads to the bucket of a mirrored one is mirrored.
pub Mirrored-by :
    (d d' : HashTableDirectoryPage)
    → ((h : ℕ) → bucket_of d' h ≡ bucket_of d h)
    → ((i : ℕ) → i < 2 ^ d'.global_depth → d'.local_depths i ≤ d'.global_depth)
    → Mirrored d
    → Mirrored d'
Mirrored-by d d' b l m = record {
  bounded = l;
  same = λ i j x y e.
      let n = 2 ^ d.global_depth in
      let at_i : bucket_of d i ≡ (d'.bucket_page_ids i, d'.local_depths i) =
        subst (λ k. bucket_of d i ≡ (d'.bucket_page_ids k, d'.local_depths k)) (mod-eq_of_lt x)
          (sym (b i)) in
      let at_j : bucket_of d j ≡ (d'.bucket_page_ids j, d'.local_depths j) =
        subst (λ k. bucket_of d j ≡ (d'.bucket_page_ids k, d'.local_depths k)) (mod-eq_of_lt y)
          (sym (b j)) in
      let lt_i : i % n < n = mod-lt i (pow_pos d.global_depth) in
      let lt_j : j % n < n = mod-lt j (pow_pos d.global_depth) in
      let depth : d.local_depths (i % n) ≡ d'.local_depths i = ap (λ p. p.1) at_i in
      let le = m.bounded (i % n) lt_i in
      let e' : i % 2 ^ d.local_depths (i % n) ≡ j % 2 ^ d.local_depths (i % n) = rw depth e in
      let same = m.same (i % n) (j % n) lt_i lt_j (
        mod_pow i (d.local_depths (i % n)) d.global_depth le
        ∙ e'
        ∙ sym (mod_pow j (d.local_depths (i % n)) d.global_depth le)) in
      (
        sym (ap (λ p. p.0) at_i) ∙ same.0 ∙ ap (λ p. p.0) at_j,
        sym depth ∙ same.1 ∙ ap (λ p. p.1) at_j,
      );
}

pow_le : (a k : ℕ) → 2 ^ a ≤ 2 ^ (a + k)
pow_le a zero = let e : a + 0 ≡ a = omega arith in rw e (omega arith)
pow_le a (suc k) =
    let e : a + suc k ≡ suc (a + k) = omega arith in
    rw (e, two-pow-succ (a + k)) (omega (arith, pow_le a k))

pub pow_bound : (a b : ℕ) → a ≤ b → 2 ^ a ≤ 2 ^ b
pow_bound a b h =
    let e : a + (b - a) ≡ b = omega arith in subst (λ n. 2 ^ a ≤ 2 ^ n) e (pow_le a (b - a))

-- A directory of twice the places, still within its array, in which every hash leads to the same
-- bucket with the same local depth.
pub record Grows (d d' : HashTableDirectoryPage) : Type 0 where
  pub twice : size d' ≡ size d + size d
  pub within : size d' ≤ 512
  pub buckets : (h : ℕ) → bucket_of d' h ≡ bucket_of d h
  pub mirrored : Mirrored d'

-- On a directory whose places mirror each other, with a global depth below 9, `IncrGlobalDepth` doubles
-- the number of places, which stays within the array, leads every hash to the same bucket with the same
-- local depth as before, and leaves a directory whose places mirror each other.
pub incr_global_depth-Grows :
    (d : HashTableDirectoryPage) → d.global_depth < 9 → Mirrored d → Grows d (incr_global_depth d)
unfolding size
incr_global_depth-Grows d l m =
    let g = grown_depth d l in
    let b = λ (h : ℕ). grown_bucket d h l in
    record {
      twice = ap (λ n. 2 ^ n) g ∙ two-pow-succ d.global_depth;
      within = subst (λ n. 2 ^ n ≤ 512) (sym g) (pow_bound (suc d.global_depth) 9 l);
      buckets = b;
      mirrored =
          Mirrored-by d (incr_global_depth d) b
            (λ i x.
              let n = 2 ^ d.global_depth in
              let e : (incr_global_depth d).local_depths i ≡ d.local_depths (i % n) =
                subst (λ k. (incr_global_depth d).local_depths k ≡ d.local_depths (i % n))
                  (mod-eq_of_lt x) (ap (λ p. p.1) (b i)) in
              omega (arith, e, g, m.bounded (i % n) (mod-lt i (pow_pos d.global_depth))))
            m;
    }

pub shrinks_below_lem :
    (d : HashTableDirectoryPage) (m i : ℕ)
    → shrinks_below d m ≡ true
    → i < m
    → d.local_depths i < d.global_depth
unfolding shrinks_below
shrinks_below_lem d zero i e l = absurd (omega (arith, l))
shrinks_below_lem d (suc m) i e l = elim (Bool-cases (i == m)) [
  | inl q ↦ let q' : i ≡ m = ground arith in ground arith
  | inr q ↦ shrinks_below_lem d m i (ground arith) (ground arith)
]

-- The directory of half the places.
pub record Halves (d d' : HashTableDirectoryPage) : Type 0 where
  pub half : size d' + size d' ≡ size d
  pub buckets : (h : ℕ) → bucket_of d' h ≡ bucket_of d h
  pub mirrored : Mirrored d'

halved :
    (d d' : HashTableDirectoryPage)
    → d.global_depth ≡ suc d'.global_depth
    → d'.bucket_page_ids ≡ d.bucket_page_ids
    → d'.local_depths ≡ d.local_depths
    → ((i : ℕ) → i < 2 ^ d.global_depth → d.local_depths i < d.global_depth)
    → Mirrored d
    → Halves d d'
unfolding size
halved d d' g p q s m =
    let two : 2 ^ d'.global_depth + 2 ^ d'.global_depth ≡ 2 ^ d.global_depth =
      sym (two-pow-succ d'.global_depth) ∙ ap (λ n. 2 ^ n) (sym g) in
    let b : (h : ℕ) → bucket_of d' h ≡ bucket_of d h = λ h.
      let i = h % 2 ^ d.global_depth in
      let j = h % 2 ^ d'.global_depth in
      let lt_i : i < 2 ^ d.global_depth = mod-lt h (pow_pos d.global_depth) in
      let lt_j : j < 2 ^ d'.global_depth = mod-lt h (pow_pos d'.global_depth) in
      let le : d.local_depths i ≤ d'.global_depth = omega (arith, s i lt_i, g) in
      let same = m.same i j lt_i (omega (arith, lt_j, two)) (
        mod_pow h (d.local_depths i) d.global_depth (omega (arith, le, g))
        ∙ sym (mod_pow h (d.local_depths i) d'.global_depth le)) in
      rw (p, q, same.0, same.1) refl in
    record {
      half = two;
      buckets = b;
      mirrored = Mirrored-by d d' b (λ i x. rw q (omega (arith, s i (omega (arith, x, two)), g))) m;
    }

-- On a directory whose places mirror each other, with a global depth of at most 9, where `CanShrink`
-- allows it, `DecrGlobalDepth` halves the
-- number of places, leads every hash to the same bucket with the same local depth as before, and leaves a
-- directory whose places mirror each other.
pub decr_global_depth-Halves :
    (d : HashTableDirectoryPage)
    → d.global_depth ≤ 9
    → can_shrink d ≡ true
    → Mirrored d
    → Halves d (decr_global_depth d)
unfolding can_shrink size decr_global_depth
decr_global_depth-Halves d l c m =
    let s =
      λ (i : ℕ) (x : i < 2 ^ d.global_depth). shrinks_below_lem d (2 ^ d.global_depth) i c x in
    let first = s 0 (pow_pos d.global_depth) in
    halved d (decr_global_depth d) (omega (arith, first)) refl refl s m
