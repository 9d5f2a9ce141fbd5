-- ===== src/HashPlaces/Shrink.antt =====
-- The loop that shrinks the directory.
use disk_oriented_concurrenc.Base.{
  ℕ, zero, suc, ◌^◌, ◌≤◌, ◌≡◌, refl, sym, ◌∙◌, true, false, arith, inl, inr, Bool-cases, subst,
}
use disk_oriented_concurrenc.HashDirectory.{
  HashTableDirectoryPage, size, decr_global_depth, can_shrink,
}
use disk_oriented_concurrenc.HashDirectory.Depth.{
  Mirrored, bucket_of, pow_pos, decr_global_depth-Halves, shrinks_below_lem,
}
use disk_oriented_concurrenc.HashPlaces.{shrink}

-- The directory after the last round of the shrinking loop.
pub record Shrunk (d d' : HashTableDirectoryPage) : Type 0 where
  pub buckets : (h : ℕ) → bucket_of d' h ≡ bucket_of d h
  pub mirrored : Mirrored d'
  pub bounded : d'.global_depth ≤ d.global_depth
  pub stuck : can_shrink d' ≡ false

flat : (d : HashTableDirectoryPage) → d.global_depth ≡ 0 → can_shrink d ≡ false
unfolding can_shrink size
flat d e = elim (Bool-cases (can_shrink d)) [
  | inr f ↦ f
  | inl t ↦
      let x = shrinks_below_lem d (2 ^ d.global_depth) 0 t (pow_pos d.global_depth) in
      absurd (omega (arith, x, e))
]

lowers :
    (d : HashTableDirectoryPage)
    → can_shrink d ≡ true
    → d.global_depth ≤ 9
    → suc (decr_global_depth d).global_depth ≡ d.global_depth
unfolding can_shrink size decr_global_depth
lowers d t g =
    let x = shrinks_below_lem d (2 ^ d.global_depth) 0 t (pow_pos d.global_depth) in
    omega (arith, x, g)

shrink_stops : (r : ℕ) (d : HashTableDirectoryPage) → can_shrink d ≡ false → shrink (suc r) d ≡ d
unfolding shrink
shrink_stops r d f = rw (f, shrink) refl

shrink_goes :
    (r : ℕ) (d : HashTableDirectoryPage)
    → can_shrink d ≡ true
    → shrink (suc r) d ≡ shrink r (decr_global_depth d)
unfolding shrink
shrink_goes r d t = rw (t, shrink) refl

-- With as many rounds as the global depth, on a mirrored directory of global depth at most 9, the loop
-- ends at a directory that cannot shrink any more: every hash leads to the same bucket of the same depth,
-- the places mirror each other, and the global depth has not grown.
pub shrink-Shrunk :
    (r : ℕ) (d : HashTableDirectoryPage)
    → Mirrored d
    → d.global_depth ≤ r
    → d.global_depth ≤ 9
    → Shrunk d (shrink r d)
unfolding shrink
shrink-Shrunk zero d m h g = record {
  buckets = λ _. refl;
  mirrored = m;
  bounded = omega arith;
  stuck = flat d (omega (arith, h));
}
shrink-Shrunk (suc r) d m h g = elim (Bool-cases (can_shrink d)) [
  | inr f ↦
      subst (Shrunk d) (sym (shrink_stops r d f))
        (record { buckets = λ _. refl; mirrored = m; bounded = omega arith; stuck = f })
  | inl t ↦
      let x = decr_global_depth-Halves d g t m in
      let lower : suc (decr_global_depth d).global_depth ≡ d.global_depth = lowers d t g in
      let s =
        shrink-Shrunk r (decr_global_depth d) x.mirrored (omega (arith, lower, h))
          (omega (arith, lower, g)) in
      subst (Shrunk d) (sym (shrink_goes r d t)) (record {
        buckets = λ k. s.buckets k ∙ x.buckets k;
        mirrored = s.mirrored;
        bounded = omega (arith, s.bounded, lower);
        stuck = s.stuck;
      })
]
