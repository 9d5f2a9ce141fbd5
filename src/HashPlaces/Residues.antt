-- ===== src/HashPlaces/Residues.antt =====
-- Places that agree in their lowest bits.
use disk_oriented_concurrenc.Base.{
  ℕ, suc, ◌+◌, ◌-◌, ◌*◌, ◌/◌, ◌%◌, ◌^◌, ◌≤◌, ◌<◌, ◌≡◌, ◌≢◌, sym, ◌∙◌, Bool, ◌&&◌, ◌||◌, arith, ltb,
  leb, ◌==◌, inl, inr, ◌⊎◌, Bool-cases, subst, if◌then◌else◌,
}
use native.Mathlib.Nat.{
  mod-eq-sub-mod, div-add-mod, add-mod_right, mod-lt, two-pow-succ, add-mod, mod-eq_of_lt,
  mul-add-mod_self_left, mod-eq-zero_of_dvd,
}
use disk_oriented_concurrenc.HashDirectory.Depth.{pow_pos, place_doubled, pow_dvd_le}

-- Two numbers less than `m` apart with the same remainder are equal.
pub close_same : (m i j : ℕ) → j ≤ i → i < j + m → i % m ≡ j % m → i ≡ j
close_same m i j h k e =
    let a = div-add-mod i m in let b = div-add-mod j m in grind (arith, a, b, e, h, k)

-- Place `j` is one of those from `i` downwards, or upwards, in steps of `m`.
abbrev pub below : ℕ → ℕ → ℕ → Bool
below m i j = leb j i && (j % m == i % m)

abbrev pub above : ℕ → ℕ → ℕ → Bool
above m i j = leb i j && (j % m == i % m)

pub below_last : (m i j : ℕ) → i < m → below m i j ≡ (j == i)
below_last m i j h = elim (Bool-cases (below m i j)) [
  | inl e ↦
      let q : i ≡ j = close_same m i j (ground arith) (omega (arith, h)) (ground arith) in
      ground arith
  | inr e ↦ ground arith
]

pub below_next : (m i j : ℕ) → 0 < m → m ≤ i → below m i j ≡ ((j == i) || below m (i - m) j)
below_next m i j p h =
    let e : i % m ≡ (i - m) % m = mod-eq-sub-mod h in
    elim (Bool-cases (below m i j)) [
      | inl b ↦ elim (Bool-cases (leb j (i - m))) [
        | inl c ↦ ground (arith, e)
        | inr c ↦
            let q : i ≡ j = close_same m i j (ground arith) (ground arith) (ground arith) in
            ground (arith, e)
      ]
      | inr b ↦ ground (arith, e)
    ]

pub above_next : (m i j : ℕ) → 0 < m → above m i j ≡ ((j == i) || above m (i + m) j)
above_next m i j p =
    let e : (i + m) % m ≡ i % m = add-mod_right i m in
    elim (Bool-cases (above m i j)) [
      | inl b ↦ elim (Bool-cases (leb (i + m) j)) [
        | inl c ↦ ground (arith, e)
        | inr c ↦
            let q : j ≡ i = close_same m j i (ground arith) (ground arith) (ground arith) in
            ground (arith, e)
      ]
      | inr b ↦ ground (arith, e)
    ]

-- Downwards and upwards together.
pub below_or_above : (m i j : ℕ) → (below m i j || above m i j) ≡ (j % m == i % m)
below_or_above m i j = ground arith

add_within : (i k c : ℕ) → i % c + k < c → (i + k) % c ≡ i % c + k
add_within i k c h =
    let s : k % c ≡ k = mod-eq_of_lt (omega (arith, h)) in
    let e : (i % c + k % c) % c ≡ i % c + k = rw s (mod-eq_of_lt h) in add-mod i k c ∙ e

sub_within : (i k c : ℕ) → 0 < c → k ≤ i % c → (i - k) % c ≡ i % c - k
sub_within i k c p h =
    let e : c * (i / c) + i % c ≡ i = div-add-mod i c in
    let lt : i % c < c = mod-lt i p in
    let q : c * (i / c) + (i % c - k) ≡ i - k = omega (arith, e, h) in
    subst (λ x. x % c ≡ i % c - k) q
      (mul-add-mod_self_left c (i / c) (i % c - k) ∙ mod-eq_of_lt (omega (arith, lt)))

-- The bit of weight 2^l is turned.
abbrev pub turned : ℕ → ℕ → ℕ
turned l i = if leb (2 ^ l) (i % (2 ^ l + 2 ^ l)) then i - 2 ^ l else i + 2 ^ l

-- The split image of place `i` in a directory of 2^g places.
pub record IsImage (g l i image : ℕ) : Type 0 where
  pub within : image < 2 ^ g
  pub same : image % 2 ^ l ≡ i % 2 ^ l
  pub differs : image % 2 ^ suc l ≢ i % 2 ^ suc l
  pub covers :
      (h : ℕ)
      → h % 2 ^ l ≡ i % 2 ^ l
      → (h % 2 ^ suc l ≡ i % 2 ^ suc l) ⊎ (h % 2 ^ suc l ≡ image % 2 ^ suc l)

turned_residue :
    (l i : ℕ) → (turned l i % 2 ^ l ≡ i % 2 ^ l) × (turned l i % 2 ^ suc l ≢ i % 2 ^ suc l)
turned_residue l i =
    let b = 2 ^ l in
    let pb = pow_pos l in
    let two = two-pow-succ l in
    let di = place_doubled i l in
    let ri : i % b < b = mod-lt i pb in
    elim (Bool-cases (leb b (i % (b + b)))) [
      | inl e ↦
          let s : (i - b) % (b + b) ≡ i % (b + b) - b =
            sub_within i b (b + b) (omega (arith, pb)) (ground arith) in
          let dt = place_doubled (i - b) l in
          let rt : (i - b) % b < b = mod-lt (i - b) pb in
          rw e (ground (arith, s, dt, di, ri, rt, two, pb))
      | inr e ↦
          let s : (i + b) % (b + b) ≡ i % (b + b) + b =
            add_within i b (b + b) (ground (arith, di, ri, two)) in
          let dt = place_doubled (i + b) l in
          let rt : (i + b) % b < b = mod-lt (i + b) pb in
          rw e (ground (arith, s, dt, di, ri, rt, two, pb))
    ]

-- 2^l + 2^l divides 2^g for l < g, so setting a clear bit stays below 2^g.
turned_within : (g l i : ℕ) → l < g → i < 2 ^ g → turned l i < 2 ^ g
turned_within g l i h k = elim (Bool-cases (leb (2 ^ l) (i % (2 ^ l + 2 ^ l)))) [
  | inl e ↦ rw e (omega (arith, k))
  | inr e ↦ elim (Bool-cases (ltb (i + 2 ^ l) (2 ^ g))) [
    | inl t ↦ rw e (ground arith)
    | inr t ↦
        let c = 2 ^ l + 2 ^ l in
        let n = 2 ^ g in
        let two = two-pow-succ l in
        let gap : (i + (n - i)) % c ≡ i % c + (n - i) =
          add_within i (n - i) c (ground (arith, k)) in
        let sum : i + (n - i) ≡ n = omega (arith, k) in
        let zero_mod : n % c ≡ 0 =
          subst (λ x. n % x ≡ 0) two
            (mod-eq-zero_of_dvd (2 ^ suc l) (pow_dvd_le (suc l) g (omega (arith, h)))) in
        let z : (i + (n - i)) % c ≡ 0 = subst (λ x. x % c ≡ 0) (sym sum) zero_mod in
        absurd (omega (arith, gap, z, k))
  ]
]

pub turned-IsImage : (g l i : ℕ) → l < g → i < 2 ^ g → IsImage g l i (turned l i)
turned-IsImage g l i h k =
    let t = turned_residue l i in
    record {
      within = turned_within g l i h k;
      same = t.0;
      differs = t.1;
      covers = λ x e.
          let a = place_doubled i l in
          let b = place_doubled (turned l i) l in
          let c = place_doubled x l in ground (arith, a, b, c, t.0, t.1, e);
    }
