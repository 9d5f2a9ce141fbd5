-- ===== src/HashPlaces/Merge.antt =====
-- Merge's part of the directory: two halves become one bucket, and the directory shrinks as far as it can.
use disk_oriented_concurrenc.Base.{
  ℕ, suc, ◌+◌, ◌%◌, ◌^◌, ◌≤◌, ◌<◌, ◌≡◌, refl, ap, sym, ◌∙◌, Bool, true, false, ◌&&◌, ◌||◌, arith,
  ltb, ◌==◌, if◌then◌else◌, update, inl, inr, Bool-cases, subst,
}
use native.Mathlib.Nat.{mod-lt}
use disk_oriented_concurrenc.HashDirectory.{
  HashTableDirectoryPage, returns, size, set_bucket_page_id, decr_local_depth, can_shrink,
}
use disk_oriented_concurrenc.HashDirectory.Depth.{Mirrored, bucket_of, pow_pos, mod_pow}
use disk_oriented_concurrenc.HashPlaces.{repoint, shrink, merge_places}
use disk_oriented_concurrenc.HashPlaces.Leads.{place_lem, Leads, Mirrored-Leads, Leads-Mirrored}
use disk_oriented_concurrenc.HashPlaces.Residues.{IsImage}
use disk_oriented_concurrenc.HashPlaces.Loops.{Points}
use disk_oriented_concurrenc.HashPlaces.Shrink.{shrink-Shrunk}
use disk_oriented_concurrenc.HashPlaces.Repoint.{wanted, repoint_lem}

same_pair : {a b c e : ℕ} → a ≡ c → b ≡ e → ◌≡◌ {A = ℕ × ℕ} (a, b) (c, e)
same_pair p q = rw (p, q) refl

-- Different buckets have different pages.
abbrev pub Separate : HashTableDirectoryPage → Type 0
Separate d =
    (x y : ℕ)
    → (bucket_of d x).0 ≡ (bucket_of d y).0
    → x % 2 ^ (bucket_of d x).1 ≡ y % 2 ^ (bucket_of d x).1

-- The buckets of `target` and of its split image `image`, of depth k + 1, have become one of depth `k`.
pub record Merges (d d' : HashTableDirectoryPage) (target k image_id : ℕ) : Type 0 where
  pub buckets :
      (h : ℕ)
      → bucket_of d' h ≡ (if h % 2 ^ k == target % 2 ^ k then (image_id, k) else bucket_of d h)
  pub mirrored : Mirrored d'
  pub stuck : can_shrink d' ≡ false

module _ (d : HashTableDirectoryPage) (target image k : ℕ) where
  -- The two halves of the bucket: neighbouring places of the same depth, with different pages.
  pub record Halves : Type 0 where
    pub mirrored : Mirrored d
    pub separate : Separate d
    pub bounded : d.global_depth ≤ 9
    pub place : target < 2 ^ d.global_depth
    pub image_of : IsImage d.global_depth k target image
    pub target_depth : d.local_depths target ≡ suc k
    pub image_depth : d.local_depths image ≡ suc k

  abbrev written : HashTableDirectoryPage
  written =
      decr_local_depth
        (decr_local_depth (set_bucket_page_id d target (d.bucket_page_ids image)) target) image

  abbrev merged : HashTableDirectoryPage
  merged = record d {
    bucket_page_ids = update d.bucket_page_ids target (d.bucket_page_ids image);
    local_depths = update (update d.local_depths target k) image k;
  }

  written-merged : Halves → written ≡ merged
  unfolding set_bucket_page_id decr_local_depth
  written-merged h =
      let g = h.mirrored.bounded target h.place in
      let t : (d.local_depths target + 255) % 256 ≡ k =
        omega (arith, h.target_depth, g, h.bounded) in
      let ne : (image == target) ≡ false = elim (Bool-cases (image == target)) [
        | inr f ↦ f
        | inl e ↦
            let q : image ≡ target = ground arith in
            absurd (h.image_of.differs (ap (λ x. x % 2 ^ suc k) q))
      ] in
      let i : (d.local_depths image + 255) % 256 ≡ k =
        omega (arith, h.image_depth, h.target_depth, g, h.bounded) in
      rw (t, ne, i) refl

  -- The loops, once the first writes are done.
  merge_runs :
      (d₃ : HashTableDirectoryPage)
      → (written.local_depths target == written.local_depths image) ≡ true
      → repoint (size written) written target (d.bucket_page_ids target) (d.bucket_page_ids image)
        ≡ returns d₃
      → merge_places d target image ≡ returns (shrink d₃.global_depth d₃)
  unfolding merge_places
  merge_runs d₃ t run = rw (t, run) refl

  abbrev target_id : ℕ
  target_id = d.bucket_page_ids target

  abbrev image_id : ℕ
  image_id = d.bucket_page_ids image

  -- Whether a hash is of the bucket that the two become.
  abbrev joined : ℕ → Bool
  joined h = h % 2 ^ k == target % 2 ^ k

  half_low : (x y : ℕ) → x % 2 ^ suc k ≡ y % 2 ^ suc k → x % 2 ^ k ≡ y % 2 ^ k
  half_low x y e =
      sym (mod_pow x k (suc k) (omega arith))
      ∙ ap (λ z. z % 2 ^ k) e
      ∙ mod_pow y k (suc k) (omega arith)

  target_bucket : Halves → bucket_of d target ≡ (target_id, suc k)
  target_bucket m = place_lem d target m.place ∙ ap (λ z. (target_id, z)) m.target_depth

  image_bucket : Halves → bucket_of d image ≡ (image_id, suc k)
  image_bucket m = place_lem d image m.image_of.within ∙ ap (λ z. (image_id, z)) m.image_depth

  -- A place with the page of a half has the hashes of that half.
  same_half :
      (p q h : ℕ)
      → Separate d
      → bucket_of d p ≡ (q, suc k)
      → (bucket_of d h).0 ≡ q
      → h % 2 ^ k ≡ p % 2 ^ k
  same_half p q h s b e =
      let x : p % 2 ^ (bucket_of d p).1 ≡ h % 2 ^ (bucket_of d p).1 =
        s p h (ap (λ z. z.0) b ∙ sym e) in
      let y : p % 2 ^ suc k ≡ h % 2 ^ suc k = subst (λ z. p % 2 ^ z.1 ≡ h % 2 ^ z.1) b x in
      sym (half_low p h y)

  -- And the other way.
  half_page :
      (p q h : ℕ)
      → Leads d
      → bucket_of d p ≡ (q, suc k)
      → h % 2 ^ suc k ≡ p % 2 ^ suc k
      → (bucket_of d h).0 ≡ q
  half_page p q h l b e =
      let x : bucket_of d p ≡ bucket_of d h =
        l p h (subst (λ z. p % 2 ^ z.1 ≡ h % 2 ^ z.1) (sym b) (sym e)) in
      ap (λ z. z.0) (sym x ∙ b)

  wanted-joined : Halves → (h : ℕ) → wanted d target_id image_id (h % 2 ^ d.global_depth) ≡ joined h
  wanted-joined m h =
      let a = half_page target target_id h (Mirrored-Leads d m.mirrored) (target_bucket m) in
      let b = half_page image image_id h (Mirrored-Leads d m.mirrored) (image_bucket m) in
      let a' = same_half target target_id h m.separate (target_bucket m) in
      let b' = same_half image image_id h m.separate (image_bucket m) in
      let c = m.image_of.covers h in let s = m.image_of.same in ground (arith, a, b, a', b', c, s)

  -- Where a hash leads once the two are one.
  abbrev leads_on : ℕ → ℕ × ℕ
  leads_on h = if joined h then (image_id, k) else bucket_of d h

  leads_on-Leads :
      Halves → (x y : ℕ) → x % 2 ^ (leads_on x).1 ≡ y % 2 ^ (leads_on x).1 → leads_on x ≡ leads_on y
  leads_on-Leads m x y = elim (Bool-cases (joined x)) [
    | inl a ↦ λ e. ground arith
    | inr a ↦ rw a λ e.
        let q : bucket_of d x ≡ bucket_of d y = Mirrored-Leads d m.mirrored x y e in
        let w : wanted d target_id image_id (x % 2 ^ d.global_depth)
            ≡ wanted d target_id image_id (y % 2 ^ d.global_depth) =
          ap (λ z. z.0 == target_id || z.0 == image_id) q in
        let not_y : joined y ≡ false = sym (wanted-joined m y) ∙ sym w ∙ wanted-joined m x ∙ a in
        rw not_y q
  ]

  merged-wanted : (j : ℕ) → wanted merged target_id image_id j ≡ wanted d target_id image_id j
  merged-wanted j = elim (Bool-cases (j == target)) [
    | inr e ↦ rw e refl
    | inl e ↦ let q : j ≡ target = ground arith in rw q (ground arith)
  ]

  apart :
      (j : ℕ)
      → wanted d target_id image_id j ≡ false
      → ((j == target) ≡ false) × ((j == image) ≡ false)
  apart j f =
      let no : (p : ℕ) → wanted d target_id image_id p ≡ true → (j == p) ≡ false = λ p t.
        elim (Bool-cases (j == p)) [
          | inr e ↦ e
          | inl e ↦
              let q : j ≡ p = ground arith in
              let both_ways : true ≡ false = sym t ∙ sym (ap (wanted d target_id image_id) q) ∙ f in
              absurd (ground arith)
        ] in
      (no target (ground arith), no image (ground arith))

  -- The places of the two, by their hashes.
  repointed_bucket :
      (d₃ : HashTableDirectoryPage)
      → Halves
      → Points merged d₃
          (λ j. wanted merged target_id image_id j && ltb j (2 ^ d.global_depth))
          image_id
          k
      → (h : ℕ) → bucket_of d₃ h ≡ leads_on h
  repointed_bucket d₃ m p h =
      let g : 2 ^ d₃.global_depth ≡ 2 ^ d.global_depth = ap (λ z. 2 ^ z) p.global in
      let j = h % 2 ^ d.global_depth in
      let lt : ltb j (2 ^ d.global_depth) ≡ true =
        ground (arith, mod-lt h (pow_pos d.global_depth)) in
      let w = wanted-joined m h in
      let at : bucket_of d₃ h ≡ (d₃.bucket_page_ids j, d₃.local_depths j) = rw g refl in
      let hit : (wanted merged target_id image_id j && ltb j (2 ^ d.global_depth)) ≡ joined h =
        rw (merged-wanted j, lt) (ground (arith, w)) in
      elim (Bool-cases (joined h)) [
        | inl t ↦ rw t (at ∙ same_pair (p.ids j ∙ rw (hit, t) refl) (p.depths j ∙ rw (hit, t) refl))
        | inr f ↦
            let (not_target, not_image) = apart j (w ∙ f) in
            rw f (
              at
              ∙ same_pair (p.ids j ∙ rw (hit, f, not_target) refl)
                  (p.depths j ∙ rw (hit, f, not_target, not_image) refl))
      ]

  merged_depth : merged.local_depths target ≡ k
  merged_depth = ground arith

  merged_same : (merged.local_depths target == merged.local_depths image) ≡ true
  merged_same = rw merged_depth (ground arith)

  shallow : Halves → suc k ≤ d.global_depth
  shallow m = omega (arith, m.mirrored.bounded target m.place, m.target_depth)

  repointed-Mirrored :
      (d₃ : HashTableDirectoryPage)
      → Halves
      → d₃.global_depth ≡ d.global_depth
      → ((h : ℕ) → bucket_of d₃ h ≡ leads_on h)
      → Mirrored d₃
  repointed-Mirrored d₃ m g to =
      Leads-Mirrored d₃
        (λ h.
          let b = m.mirrored.bounded (h % 2 ^ d.global_depth) (mod-lt h (pow_pos d.global_depth)) in
          let e : (bucket_of d₃ h).1 ≡ (leads_on h).1 = ap (λ q. q.1) (to h) in
          ground (arith, b, e, g, shallow m))
        (λ x y e.
          to x
          ∙ leads_on-Leads m x y (subst (λ q. x % 2 ^ q.1 ≡ y % 2 ^ q.1) (to x) e)
          ∙ sym (to y))

-- The directory's part of a merge, at a place whose split image is a different bucket of the same depth
-- in a mirrored directory of global depth at most 9 in which places of different buckets have different
-- pages: no assertion fails, both buckets become one of depth
-- one less under the image's page, every other hash leads where it did, the places mirror each other,
-- and the directory cannot shrink further.
pub merge_places-Merges :
    (d : HashTableDirectoryPage) (target image k : ℕ)
    → Halves d target image k
    → (d' : HashTableDirectoryPage) × (merge_places d target image ≡ returns d')
      × Merges d d' target k (d.bucket_page_ids image)
unfolding size
merge_places-Merges d target image k m =
    let w = merged d target image k in
    let e = written-merged d target image k m in
    let at : w.local_depths target ≡ k = merged_depth d target image k in
    let le : w.local_depths target ≤ w.global_depth =
      omega (arith, at, shallow d target image k m) in
    let (d₃, run, p) =
      repoint_lem (size w) w target (d.bucket_page_ids target) (d.bucket_page_ids image) le in
    let q =
      repointed_bucket d target image k d₃ m
        (subst (Points w d₃ _ (d.bucket_page_ids image)) at p) in
    let mirrored : Mirrored d₃ = repointed-Mirrored d target image k d₃ m p.global q in
    let g : d₃.global_depth ≤ 9 = omega (arith, p.global, m.bounded) in
    let s = shrink-Shrunk d₃.global_depth d₃ mirrored (omega arith) g in
    let t : (w.local_depths target == w.local_depths image) ≡ true = merged_same d target image k in
    (
      shrink d₃.global_depth d₃,
      merge_runs d target image k d₃
          (subst (λ z. (z.local_depths target == z.local_depths image) ≡ true) (sym e) t)
          (subst
            (λ z.
              repoint (size z) z target (d.bucket_page_ids target) (d.bucket_page_ids image)
              ≡ returns d₃)
            (sym e) run),
      record { buckets = λ h. s.buckets h ∙ q h; mirrored = s.mirrored; stuck = s.stuck },
    )
