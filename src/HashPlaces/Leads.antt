-- ===== src/HashPlaces/Leads.antt =====
-- Where a directory leads each hash, and when its places mirror each other.
use disk_oriented_concurrenc.Base.{
  ℕ, suc, ◌%◌, ◌^◌, ◌≤◌, ◌<◌, ◌≡◌, ◌≢◌, refl, ap, sym, ◌∙◌, true, false, arith, ◌==◌, if◌then◌else◌,
  inl, inr, ◌⊎◌, Bool-cases, subst,
}
use native.Mathlib.Nat.{mod-eq_of_lt, mod-lt}
use disk_oriented_concurrenc.HashDirectory.{HashTableDirectoryPage}
use disk_oriented_concurrenc.HashDirectory.Depth.{Mirrored, bucket_of, pow_pos, mod_pow}
use disk_oriented_concurrenc.HashPlaces.Residues.{IsImage}

-- The bucket of a place is that of the place taken as a hash.
pub place_lem :
    (d : HashTableDirectoryPage) (i : ℕ)
    → i < 2 ^ d.global_depth
    → bucket_of d i ≡ (d.bucket_page_ids i, d.local_depths i)
place_lem d i p = ap (λ k. (d.bucket_page_ids k, d.local_depths k)) (mod-eq_of_lt p)

-- Mirrored places, said of hashes.
abbrev pub Leads : HashTableDirectoryPage → Type 0
Leads d =
    (x y : ℕ)
    → x % 2 ^ (bucket_of d x).1 ≡ y % 2 ^ (bucket_of d x).1
    → bucket_of d x ≡ bucket_of d y

pub Mirrored-Leads : (d : HashTableDirectoryPage) → Mirrored d → Leads d
Mirrored-Leads d m x y e =
    let n = 2 ^ d.global_depth in
    let lt_x : x % n < n = mod-lt x (pow_pos d.global_depth) in
    let lt_y : y % n < n = mod-lt y (pow_pos d.global_depth) in
    let le = m.bounded (x % n) lt_x in
    let same = m.same (x % n) (y % n) lt_x lt_y (
      mod_pow x (d.local_depths (x % n)) d.global_depth le
      ∙ e
      ∙ sym (mod_pow y (d.local_depths (x % n)) d.global_depth le)) in
    rw (same.0, same.1) refl

pub Leads-Mirrored :
    (d : HashTableDirectoryPage)
    → ((h : ℕ) → (bucket_of d h).1 ≤ d.global_depth)
    → Leads d
    → Mirrored d
Leads-Mirrored d b l = record {
  bounded = λ i x. subst (λ q. q.1 ≤ d.global_depth) (place_lem d i x) (b i);
  same = λ i j x y e.
      let q : bucket_of d i ≡ bucket_of d j =
        l i j (subst (λ z. i % 2 ^ z.1 ≡ j % 2 ^ z.1) (sym (place_lem d i x)) e) in
      let r = sym (place_lem d i x) ∙ q ∙ place_lem d j y in (ap (λ z. z.0) r, ap (λ z. z.1) r);
}

-- The split bucket of a directory.
module _ (w : HashTableDirectoryPage) (i l page image image_id : ℕ) where
  -- Where a hash leads after the split.
  abbrev pub led : ℕ → ℕ × ℕ
  led h =
      if h % 2 ^ suc l == i % 2 ^ suc l
      then (page, suc l)
      else if h % 2 ^ suc l == image % 2 ^ suc l
      then (image_id, suc l)
      else bucket_of w h

  -- A hash of the split bucket is in one of the two halves.
  in_half :
      IsImage w.global_depth l i image
      → (h : ℕ) → h % 2 ^ l ≡ i % 2 ^ l
      → ((h % 2 ^ suc l == i % 2 ^ suc l) ≡ true) ⊎ ((h % 2 ^ suc l == image % 2 ^ suc l) ≡ true)
  in_half m h e = elim (m.covers h e) [ inl x ↦ inl (ground arith) | inr x ↦ inr (ground arith) ]

  -- A hash in neither half keeps a bucket of hashes in neither half.
  stays_out :
      IsImage w.global_depth l i image
      → Leads w
      → (bucket_of w i).1 ≡ l
      → (x y : ℕ) → x % 2 ^ suc l ≢ i % 2 ^ suc l
      → x % 2 ^ suc l ≢ image % 2 ^ suc l
      → x % 2 ^ (bucket_of w x).1 ≡ y % 2 ^ (bucket_of w x).1
      → y % 2 ^ l ≢ i % 2 ^ l
  stays_out m leads depth x y a b e z =
      let q : bucket_of w i ≡ bucket_of w y =
        leads i y (subst (λ k. i % 2 ^ k ≡ y % 2 ^ k) (sym depth) (sym z)) in
      let r : bucket_of w x ≡ bucket_of w y = leads x y e in
      let k : (bucket_of w x).1 ≡ l = ap (λ p. p.1) (r ∙ sym q) ∙ depth in
      let same : x % 2 ^ l ≡ i % 2 ^ l = subst (λ k. x % 2 ^ k ≡ y % 2 ^ k) k e ∙ z in
      elim (m.covers x same) [ inl c ↦ absurd (a c) | inr c ↦ absurd (b c) ]

  half_low : (x y : ℕ) → x % 2 ^ suc l ≡ y % 2 ^ suc l → x % 2 ^ l ≡ y % 2 ^ l
  half_low x y e =
      sym (mod_pow x l (suc l) (omega arith))
      ∙ ap (λ k. k % 2 ^ l) e
      ∙ mod_pow y l (suc l) (omega arith)

  pub led-Leads :
      IsImage w.global_depth l i image
      → Leads w
      → (bucket_of w i).1 ≡ l
      → (x y : ℕ) → x % 2 ^ (led x).1 ≡ y % 2 ^ (led x).1
      → led x ≡ led y
  led-Leads m leads depth x y = elim (Bool-cases (x % 2 ^ suc l == i % 2 ^ suc l)) [
    | inl a ↦ λ e. ground arith
    | inr a ↦ elim (Bool-cases (x % 2 ^ suc l == image % 2 ^ suc l)) [
      | inl b ↦ λ e. ground arith
      | inr b ↦
          rw (a, b)
            λ e.
              let out = stays_out m leads depth x y (ground arith) (ground arith) e in
              let not_i : (y % 2 ^ suc l == i % 2 ^ suc l) ≡ false =
                ground (arith, half_low y i, out) in
              let not_image : (y % 2 ^ suc l == image % 2 ^ suc l) ≡ false =
                ground (arith, half_low y image, m.same, out) in
              rw (not_i, not_image) (leads x y e)
    ]
  ]

-- A directory that leads every hash so is mirrored.
pub led-Mirrored :
    (d w : HashTableDirectoryPage) (i l page image image_id : ℕ)
    → d.global_depth ≡ w.global_depth
    → ((h : ℕ) → bucket_of d h ≡ led w i l page image image_id h)
    → IsImage w.global_depth l i image
    → Leads w
    → (bucket_of w i).1 ≡ l
    → Mirrored w
    → l < w.global_depth
    → Mirrored d
led-Mirrored d w i l page image image_id gd to img leads depth m room =
    Leads-Mirrored d
      (λ h.
        let b : (bucket_of w h).1 ≤ w.global_depth =
          m.bounded (h % 2 ^ w.global_depth) (mod-lt h (pow_pos w.global_depth)) in
        let e : (bucket_of d h).1 ≡ (led w i l page image image_id h).1 = ap (λ q. q.1) (to h) in
        ground (arith, b, e, gd, room))
      (λ x y e.
        to x
        ∙ led-Leads w i l page image image_id img leads depth x y
            (subst (λ q. x % 2 ^ q.1 ≡ y % 2 ^ q.1) (to x) e)
        ∙ sym (to y))

-- A hash of the split bucket leads to a bucket one deeper.
pub half_depth :
    (w : HashTableDirectoryPage) (i l page image image_id : ℕ)
    → IsImage w.global_depth l i image
    → (h : ℕ) → h % 2 ^ l ≡ i % 2 ^ l
    → (led w i l page image image_id h).1 ≡ suc l
half_depth w i l page image image_id img h e = elim (Bool-cases (h % 2 ^ suc l == i % 2 ^ suc l)) [
  | inl a ↦ rw a refl
  | inr a ↦
      let b : (h % 2 ^ suc l == image % 2 ^ suc l) ≡ true = elim (img.covers h e) [
        | inl x ↦ absurd (ground arith)
        | inr x ↦ ground arith
      ] in
      rw (a, b) refl
]
