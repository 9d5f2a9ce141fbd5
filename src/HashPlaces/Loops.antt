-- ===== src/HashPlaces/Loops.antt =====
-- What the loops over the places of a bucket write.
use disk_oriented_concurrenc.Base.{
  ℕ, zero, suc, ◌+◌, ◌-◌, ◌%◌, ◌^◌, ◌≤◌, ◌<◌, ◌≡◌, refl, ap, ◌∙◌, Bool, ◌||◌, ◌&&◌, arith, ltb,
  ◌==◌, if◌then◌else◌, update, inl, inr, Bool-cases, subst,
}
use disk_oriented_concurrenc.HashDirectory.{
  HashTableDirectoryPage, Checked, returns, size, set_local_depth, set_bucket_page_id,
}
use disk_oriented_concurrenc.HashPlaces.{point, point_down, point_up, point_all}
use disk_oriented_concurrenc.HashPlaces.Residues.{
  below, above, below_last, below_next, above_next, below_or_above,
}

-- The places that `hit` names hold the page with the depth of place `split`; the others are as before.
pub record Points (d d' : HashTableDirectoryPage) (hit : ℕ → Bool) (page depth : ℕ) : Type 0 where
  pub global : d'.global_depth ≡ d.global_depth
  pub ids : (j : ℕ) → d'.bucket_page_ids j ≡ (if hit j then page else d.bucket_page_ids j)
  pub depths : (j : ℕ) → d'.local_depths j ≡ (if hit j then depth else d.local_depths j)

abbrev pub PointsTo :
    HashTableDirectoryPage → Checked HashTableDirectoryPage → (ℕ → Bool) → ℕ → ℕ → Type 0
PointsTo d c hit page depth =
    (d' : HashTableDirectoryPage) × (c ≡ returns d') × Points d d' hit page depth

point-Points :
    (d : HashTableDirectoryPage) (split page i : ℕ)
    → d.local_depths split ≤ d.global_depth
    → PointsTo d (point d split page i) (λ j. j == i) page (d.local_depths split)
unfolding point set_local_depth set_bucket_page_id
point-Points d split page i h = (
  record d {
    bucket_page_ids = update d.bucket_page_ids i page;
    local_depths = update d.local_depths i (d.local_depths split);
  },
  ground arith,
  record { global = refl; ids = λ j. refl; depths = λ j. refl },
)

-- One round and then others.
pub both :
    (d d₁ d₂ : HashTableDirectoryPage) (a b c : ℕ → Bool) (page depth : ℕ)
    → Points d d₁ a page depth
    → Points d₁ d₂ b page depth
    → ((j : ℕ) → c j ≡ (a j || b j))
    → Points d d₂ c page depth
both d d₁ d₂ a b c page depth p q h = record {
  global = q.global ∙ p.global;
  ids = λ j. ground (arith, p.ids j, q.ids j, h j);
  depths = λ j. ground (arith, p.depths j, q.depths j, h j);
}

-- The depth that the loops copy stays.
pub keeps_depth :
    (d d' : HashTableDirectoryPage) (a : ℕ → Bool) (page split : ℕ)
    → Points d d' a page (d.local_depths split)
    → d'.local_depths split ≡ d.local_depths split
keeps_depth d d' a page split p = ground (arith, p.depths split)

point_down_lem :
    (r : ℕ) (d : HashTableDirectoryPage) (split page m i : ℕ)
    → 0 < m
    → i ≤ r
    → d.local_depths split ≤ d.global_depth
    → PointsTo d (point_down r d split page m i) (below m i) page (d.local_depths split)
unfolding point_down
point_down_lem zero d split page m i p h l =
    let (d', e, q) = point-Points d split page i l in
    (
      d',
      e,
      record {
        global = q.global;
        ids = λ j. ground (arith, q.ids j, below_last m i j (omega (arith, h, p)));
        depths = λ j. ground (arith, q.depths j, below_last m i j (omega (arith, h, p)));
      },
    )
point_down_lem (suc r) d split page m i p h l =
    let (d₁, e, q) = point-Points d split page i l in
    let k = keeps_depth d d₁ _ page split q in
    elim (Bool-cases (ltb i m)) [
      | inl t ↦ (
        d₁,
        rw (e, t) refl,
        record {
          global = q.global;
          ids = λ j. ground (arith, q.ids j, below_last m i j (ground arith));
          depths = λ j. ground (arith, q.depths j, below_last m i j (ground arith));
        },
      )
      | inr t ↦
          let (d₂, e', q') =
            point_down_lem r d₁ split page m (i - m) p (omega (arith, h, p))
              (omega (arith, k, l, q.global)) in
          (
            d₂,
            rw (e, t) e',
            both d d₁ d₂ _ _ _ page (d.local_depths split) q
                (subst (Points d₁ d₂ (below m (i - m)) page) k q')
                (λ j. below_next m i j p (ground arith)),
          )
    ]

point_up_lem :
    (r : ℕ) (d : HashTableDirectoryPage) (split page m i : ℕ)
    → 0 < m
    → size d ≤ i + r
    → d.local_depths split ≤ d.global_depth
    → PointsTo d
        (point_up r d split page m i)
        (λ j. above m i j && ltb j (size d))
        page
        (d.local_depths split)
unfolding point_up size
point_up_lem zero d split page m i p h l = (
  d,
  refl,
  record { global = refl; ids = λ j. ground (arith, h); depths = λ j. ground (arith, h) },
)
point_up_lem (suc r) d split page m i p h l = elim (Bool-cases (ltb i (2 ^ d.global_depth))) [
  | inr t ↦
      (d, rw t refl, record { global = refl; ids = λ j. ground arith; depths = λ j. ground arith })
  | inl t ↦
      let (d₁, e, q) = point-Points d split page i l in
      let k = keeps_depth d d₁ _ page split q in
      let s : 2 ^ d₁.global_depth ≡ 2 ^ d.global_depth = ap (λ g. 2 ^ g) q.global in
      let (d₂, e', q') =
        point_up_lem r d₁ split page m (i + m) p (omega (arith, h, p, s))
          (omega (arith, k, l, q.global)) in
      (
        d₂,
        rw (t, e) e',
        both d d₁ d₂ _ _ _ page (d.local_depths split) q (subst (Points d₁ d₂ _ page) k q')
            (λ j. ground (arith, above_next m i j p, s)),
      )
]

-- The loops from place `i`, in steps that are not 0, write exactly the places below the size of the
-- directory that are a multiple of the step away.
pub point_all_lem :
    (d : HashTableDirectoryPage) (split page m i : ℕ)
    → 0 < m
    → i < size d
    → d.local_depths split ≤ d.global_depth
    → PointsTo d
        (point_all d split page m i)
        (λ j. j % m == i % m && ltb j (size d))
        page
        (d.local_depths split)
unfolding point_all size
point_all_lem d split page m i p h l =
    let (d₁, e, q) = point_down_lem i d split page m i p (omega arith) l in
    let k = keeps_depth d d₁ _ page split q in
    let s : 2 ^ d₁.global_depth ≡ 2 ^ d.global_depth = ap (λ g. 2 ^ g) q.global in
    let (d₂, e', q') =
      point_up_lem (2 ^ d₁.global_depth) d₁ split page m i p (omega arith)
        (omega (arith, k, l, q.global)) in
    (
      d₂,
      rw e e',
      both d d₁ d₂ _ _ _ page (d.local_depths split) q (subst (Points d₁ d₂ _ page) k q')
          (λ j. ground (arith, below_or_above m i j, s, h)),
    )
