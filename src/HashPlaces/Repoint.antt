-- ===== src/HashPlaces/Repoint.antt =====
-- The loop of Merge that gives the places of two buckets one page.
use disk_oriented_concurrenc.Base.{
  ℕ, zero, suc, ◌≤◌, ◌≡◌, refl, ◌∙◌, Bool, true, false, ◌&&◌, ◌||◌, arith, ltb, leb, ◌==◌, update,
  inl, inr, Bool-cases, subst, fun_ext,
}
use disk_oriented_concurrenc.HashDirectory.{
  HashTableDirectoryPage, returns, set_local_depth, set_bucket_page_id,
}
use disk_oriented_concurrenc.HashPlaces.{repoint}
use disk_oriented_concurrenc.HashPlaces.Loops.{Points, PointsTo, both, keeps_depth}

-- Whether the loop writes place `j`.
abbrev pub wanted : HashTableDirectoryPage → ℕ → ℕ → ℕ → Bool
wanted d target_id image_id j = d.bucket_page_ids j == target_id || d.bucket_page_ids j == image_id

-- A round at a place of either bucket, and at another place.
repoint_hit :
    (m : ℕ) (d d₁ : HashTableDirectoryPage) (target target_id image_id : ℕ)
    → repoint m d target target_id image_id ≡ returns d₁
    → wanted d₁ target_id image_id m ≡ true
    → d₁.local_depths target ≤ d₁.global_depth
    → PointsTo d₁
        (repoint (suc m) d target target_id image_id)
        (λ j. j == m)
        image_id
        (d₁.local_depths target)
unfolding repoint set_local_depth set_bucket_page_id
repoint_hit m d d₁ target target_id image_id e t l =
    let ok : leb (d₁.local_depths target) d₁.global_depth ≡ true = ground arith in
    (
      record d₁ {
        bucket_page_ids = update d₁.bucket_page_ids m image_id;
        local_depths = update d₁.local_depths m (d₁.local_depths target);
      },
      rw (e, t, ok) refl,
      record { global = refl; ids = λ j. refl; depths = λ j. refl },
    )

repoint_miss :
    (m : ℕ) (d d₁ : HashTableDirectoryPage) (target target_id image_id : ℕ)
    → repoint m d target target_id image_id ≡ returns d₁
    → wanted d₁ target_id image_id m ≡ false
    → repoint (suc m) d target target_id image_id ≡ returns d₁
unfolding repoint
repoint_miss m d d₁ target target_id image_id e t = rw (e, t) refl

with_place :
    (w : ℕ → Bool) (m : ℕ)
    → w m ≡ true
    → (j : ℕ) → (w j && ltb j (suc m)) ≡ ((w j && ltb j m) || j == m)
with_place w m t j = elim (Bool-cases (j == m)) [
  | inl e ↦ let q : j ≡ m = ground arith in rw q (ground (arith, t))
  | inr e ↦ ground arith
]

without_place :
    (w : ℕ → Bool) (m : ℕ) → w m ≡ false → (j : ℕ) → (w j && ltb j m) ≡ (w j && ltb j (suc m))
without_place w m t j = elim (Bool-cases (j == m)) [
  | inl e ↦ let q : j ≡ m = ground arith in rw q (ground (arith, t))
  | inr e ↦ ground arith
]

-- The loop writes every place of either bucket below `m`.
pub repoint_lem :
    (m : ℕ) (d : HashTableDirectoryPage) (target target_id image_id : ℕ)
    → d.local_depths target ≤ d.global_depth
    → PointsTo d
        (repoint m d target target_id image_id)
        (λ j. wanted d target_id image_id j && ltb j m)
        image_id
        (d.local_depths target)
unfolding repoint
repoint_lem zero d target target_id image_id l =
    (d, refl, record { global = refl; ids = λ j. ground arith; depths = λ j. ground arith })
repoint_lem (suc m) d target target_id image_id l =
    let (d₁, e, p) = repoint_lem m d target target_id image_id l in
    let k = keeps_depth d d₁ _ image_id target p in
    let w = wanted d target_id image_id in
    let off : (w m && ltb m m) ≡ false = ground arith in
    let at : d₁.bucket_page_ids m ≡ d.bucket_page_ids m = p.ids m ∙ rw off refl in
    let here : wanted d₁ target_id image_id m ≡ w m = rw at refl in
    elim (Bool-cases (w m)) [
      | inr t ↦ (
        d₁,
        repoint_miss m d d₁ target target_id image_id e (here ∙ t),
        subst (λ (a : ℕ → Bool). Points d d₁ a image_id (d.local_depths target))
            (fun_ext (without_place w m t)) p,
      )
      | inl t ↦
          let (d₂, e', q) =
            repoint_hit m d d₁ target target_id image_id e (here ∙ t)
              (omega (arith, k, l, p.global)) in
          (
            d₂,
            e',
            both d d₁ d₂ _ _ _ image_id (d.local_depths target) p
                (subst (Points d₁ d₂ (λ j. j == m) image_id) k q) (with_place w m t),
          )
    ]
