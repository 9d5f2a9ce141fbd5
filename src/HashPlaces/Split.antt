-- ===== src/HashPlaces/Split.antt =====
-- SplitInsert's part of the directory: one bucket becomes two, and no other hash is led elsewhere.
use disk_oriented_concurrenc.Base.{
  ℕ, suc, ◌+◌, ◌-◌, ◌%◌, ◌^◌, ◌≤◌, ◌<◌, ◌≡◌, ◌≢◌, refl, ap, sym, ◌∙◌, true, false, ◌&&◌, some,
  arith, ltb, leb, ◌==◌, if◌then◌else◌, update, inl, inr, Bool-cases, subst,
}
use native.Mathlib.Nat.{mod-lt}
use disk_oriented_concurrenc.HashDirectory.{
  HashTableDirectoryPage, returns, size, incr_global_depth, set_local_depth, set_bucket_page_id,
  incr_local_depth, get_local_high_bit,
}
use disk_oriented_concurrenc.HashDirectory.Depth.{
  Mirrored, bucket_of, pow_pos, mod_pow, incr_global_depth-Grows, grown_depth,
}
use disk_oriented_concurrenc.HashPlaces.{deepen, point_all, split_places}
use disk_oriented_concurrenc.HashPlaces.Leads.{
  place_lem, Mirrored-Leads, led, half_depth, led-Mirrored,
}
use disk_oriented_concurrenc.HashPlaces.Residues.{turned, turned-IsImage}
use disk_oriented_concurrenc.HashPlaces.Loops.{Points, point_all_lem}

-- A bucket of depth `l` and page `page` at place `i` has become two of depth l + 1, `page` for the
-- hashes that agree with `i` in one more bit and `image_id` for those that agree with `image`.
pub record Splits (d d' : HashTableDirectoryPage) (i l page image image_id : ℕ) : Type 0 where
  pub deep : suc l ≤ d'.global_depth
  pub bounded : d'.global_depth ≤ 9
  pub buckets :
      (h : ℕ)
      → bucket_of d' h ≡ (
          if h % 2 ^ suc l == i % 2 ^ suc l
          then (page, suc l)
          else if h % 2 ^ suc l == image % 2 ^ suc l
          then (image_id, suc l)
          else bucket_of d h)
  pub deepens : (h : ℕ) → h % 2 ^ l ≡ i % 2 ^ l → (bucket_of d' h).1 ≡ suc l
  pub mirrored : Mirrored d'

-- The directory after `deepen`: the depth of place `i` alone has grown.
pub record Deepens (d d' : HashTableDirectoryPage) (i : ℕ) : Type 0 where
  pub whole : HashTableDirectoryPage
  pub mirrored : Mirrored whole
  pub buckets : (h : ℕ) → bucket_of whole h ≡ bucket_of d h
  pub depth : whole.local_depths i ≡ d.local_depths i
  pub place : i < 2 ^ whole.global_depth
  pub room : d.local_depths i < whole.global_depth
  pub bounded : whole.global_depth ≤ 9
  pub grown :
      d' ≡ record whole { local_depths = update whole.local_depths i (suc (d.local_depths i)) }

deepened :
    (d w : HashTableDirectoryPage) (i : ℕ)
    → Mirrored w
    → ((h : ℕ) → bucket_of w h ≡ bucket_of d h)
    → w.local_depths i ≡ d.local_depths i
    → i < 2 ^ w.global_depth
    → d.local_depths i < w.global_depth
    → w.global_depth ≤ 9
    → (d' : HashTableDirectoryPage) × (incr_local_depth w i ≡ returns d') × Deepens d d' i
unfolding incr_local_depth
deepened d w i m b e p r g =
    let wrap : (w.local_depths i + 1) % 256 ≡ suc (d.local_depths i) = omega (arith, e, r, g) in
    let t : ltb (w.local_depths i) w.global_depth ≡ true = ground (arith, e, r) in
    (
      record w { local_depths = update w.local_depths i (suc (d.local_depths i)) },
      rw (t, wrap) refl,
      record {
        whole = w;
        mirrored = m;
        buckets = b;
        depth = e;
        place = p;
        room = r;
        bounded = g;
        grown = refl;
      },
    )

-- At a place of a depth below 9.
deepen-Deepens :
    (d : HashTableDirectoryPage) (i : ℕ)
    → Mirrored d
    → d.global_depth ≤ 9
    → i < 2 ^ d.global_depth
    → d.local_depths i < 9
    → (d' : HashTableDirectoryPage) × (deepen d i ≡ returns d') × Deepens d d' i
unfolding deepen size
deepen-Deepens d i m g p l = elim (Bool-cases (d.local_depths i == d.global_depth)) [
  | inr t ↦ rw t (deepened d d i m (λ h. refl) refl p (ground (arith, m.bounded i p)) g)
  | inl t ↦
      let s = incr_global_depth-Grows d (ground arith) m in
      let w = incr_global_depth d in
      let wide : i < 2 ^ w.global_depth = omega (arith, p, s.twice) in
      let deep : w.global_depth ≡ suc d.global_depth = grown_depth d (ground arith) in
      let e : w.local_depths i ≡ d.local_depths i =
        ap (λ q. q.1) (sym (place_lem w i wide) ∙ s.buckets i ∙ place_lem d i p) in
      rw t
        (deepened d w i s.mirrored s.buckets e wide (ground (arith, deep)) (ground (arith, deep)))
]

-- The places that the loops write, read as a directory.
module _ (d : HashTableDirectoryPage) (i l page image image_id : ℕ) where
  -- `d` before the loops, with the depth of place `i` and the image's place written.
  abbrev marked : HashTableDirectoryPage
  marked = record d {
    local_depths = update d.local_depths image (d.local_depths i);
    bucket_page_ids = update d.bucket_page_ids image image_id;
  }

  marked_depth : d.local_depths i ≡ suc l → marked.local_depths i ≡ suc l
  marked_depth e = ground (arith, e)

  split_runs :
      (d₃ d₄ : HashTableDirectoryPage)
      → d.local_depths i ≡ suc l
      → suc l ≤ d.global_depth
      → point_all marked i page (2 ^ suc l) i ≡ returns d₃
      → point_all d₃ i image_id (2 ^ suc l) image ≡ returns d₄
      → split_places d i page image image_id ≡ returns d₄
  unfolding split_places set_local_depth set_bucket_page_id
  split_runs d₃ d₄ e g r₃ r₄ =
      let k = marked_depth e in
      let test : leb (d.local_depths i) d.global_depth ≡ true = ground (arith, e, g) in
      rw (test, k, r₃) r₄

  -- The two loops, one after the other.
  looped :
      i < size d
      → image < size d
      → d.local_depths i ≡ suc l
      → suc l ≤ d.global_depth
      → (d₃ : HashTableDirectoryPage) × (d₄ : HashTableDirectoryPage) × (split_places d i page image
            image_id
          ≡ returns d₄)
        × Points marked d₃ (λ j. j % 2 ^ suc l == i % 2 ^ suc l && ltb j (size d)) page (suc l)
        × Points d₃ d₄ (λ j. j % 2 ^ suc l == image % 2 ^ suc l && ltb j (size d)) image_id (suc l)
  unfolding size
  looped p q e g =
      let m = 2 ^ suc l in
      let k = marked_depth e in
      let (d₃, run₃, pt₃) =
        point_all_lem marked i page m i (pow_pos (suc l)) p (omega (arith, k, g)) in
      let k₃ : d₃.local_depths i ≡ suc l = ground (arith, pt₃.depths i, k) in
      let s₃ : 2 ^ d₃.global_depth ≡ 2 ^ d.global_depth = ap (λ n. 2 ^ n) pt₃.global in
      let (d₄, run₄, pt₄) =
        point_all_lem d₃ i image_id m image (pow_pos (suc l)) (omega (arith, q, s₃))
          (omega (arith, k₃, g, pt₃.global)) in
      (
        d₃,
        d₄,
        split_runs d₃ d₄ e g run₃ run₄,
        subst (Points marked d₃ _ page) k pt₃,
        subst (λ z. Points d₃ d₄ (λ j. j % m == image % m && ltb j z) image_id (suc l)) s₃
            (subst (Points d₃ d₄ _ image_id) k₃ pt₄),
      )

  -- The place of a hash after both loops.
  looped_bucket :
      (d₃ d₄ w : HashTableDirectoryPage)
      → Points marked d₃ (λ j. j % 2 ^ suc l == i % 2 ^ suc l && ltb j (size d)) page (suc l)
      → Points d₃ d₄ (λ j. j % 2 ^ suc l == image % 2 ^ suc l && ltb j (size d)) image_id (suc l)
      → d ≡ record w { local_depths = update w.local_depths i (suc l) }
      → image % 2 ^ suc l ≢ i % 2 ^ suc l
      → suc l ≤ w.global_depth
      → (h : ℕ) → bucket_of d₄ h ≡ led w i l page image image_id h
  unfolding size
  looped_bucket d₃ d₄ w p q e ne g h =
      let gd : d₄.global_depth ≡ w.global_depth =
        q.global ∙ p.global ∙ ap (λ z. z.global_depth) e in
      let j = h % 2 ^ w.global_depth in
      let lt : j < 2 ^ w.global_depth = mod-lt h (pow_pos w.global_depth) in
      let low : j % 2 ^ suc l ≡ h % 2 ^ suc l = mod_pow h (suc l) w.global_depth g in
      let at_image : (if j == image then j % 2 ^ suc l == image % 2 ^ suc l else true) ≡ true =
        ground arith in
      let at_i : (if j == i then j % 2 ^ suc l == i % 2 ^ suc l else true) ≡ true = ground arith in
      let ids₀ : d.bucket_page_ids j ≡ w.bucket_page_ids j = ap (λ z. z.bucket_page_ids j) e in
      let depths₀ : d.local_depths j ≡ update w.local_depths i (suc l) j =
        ap (λ z. z.local_depths j) e in
      let gd₀ : d.global_depth ≡ w.global_depth = ap (λ z. z.global_depth) e in
      let size₀ : 2 ^ d.global_depth ≡ 2 ^ w.global_depth = ap (λ g. 2 ^ g) gd₀ in
      rw gd (
        ground (
          arith,
          low,
          ne,
          lt,
          size₀,
          p.ids j,
          p.depths j,
          q.ids j,
          q.depths j,
          ids₀,
          depths₀,
          at_image,
          at_i,
        ))

deepened_place :
    (d d' w : HashTableDirectoryPage) (i : ℕ)
    → d' ≡ record w { local_depths = update w.local_depths i (suc (d.local_depths i)) }
    → (d'.local_depths i ≡ suc (d.local_depths i)) × (d'.global_depth ≡ w.global_depth)
deepened_place d d' w i e =
    (ap (λ z. z.local_depths i) e ∙ ground arith, ap (λ z. z.global_depth) e)

high_bit :
    (d : HashTableDirectoryPage) (i l : ℕ)
    → d.local_depths i ≡ suc l
    → get_local_high_bit d i ≡ some (turned l i)
unfolding get_local_high_bit
high_bit d i l e =
    let p : suc l - 1 ≡ l = omega arith in
    let z : (suc l == 0) ≡ false = ground arith in
    rw (e, p, z)
      (elim (Bool-cases (leb (2 ^ l) (i % (2 ^ l + 2 ^ l)))) [
        | inl t ↦ rw t refl
        | inr t ↦ rw t refl
      ])

-- On a mirrored directory within its depth, a split of a place of a depth below 9 runs through: the
-- depth grows, the split image is the place with one more bit turned, and with the loops the bucket
-- becomes two of depth one more, one for each value of that bit, while every other hash leads where it
-- did, the directory is mirrored again, and its depth is at most 9.
pub split_places-Splits :
    (d : HashTableDirectoryPage) (i page image_id : ℕ)
    → Mirrored d
    → d.global_depth ≤ 9
    → i < size d
    → d.local_depths i < 9
    → (d₁ : HashTableDirectoryPage) × (image : ℕ) × (d' : HashTableDirectoryPage) × (deepen d i
        ≡ returns d₁)
      × (get_local_high_bit d₁ i ≡ some image)
      × (split_places d₁ i page image image_id ≡ returns d')
      × Splits d d' i (d.local_depths i) page image image_id
unfolding size
split_places-Splits d i page image_id m g p l₉ =
    let l = d.local_depths i in
    let (d₁, run₁, s) = deepen-Deepens d i m g p l₉ in
    let w = s.whole in
    let at = deepened_place d d₁ w i s.grown in
    let image = turned l i in
    let img = turned-IsImage w.global_depth l i s.room s.place in
    let size₁ : 2 ^ d₁.global_depth ≡ 2 ^ w.global_depth = ap (λ n. 2 ^ n) at.1 in
    let (d₃, d₄, run, p₃, p₄) =
      looped d₁ i l page image image_id (omega (arith, s.place, size₁))
        (omega (arith, img.within, size₁)) at.0 (omega (arith, at.1, s.room)) in
    let deep : (bucket_of w i).1 ≡ l = ap (λ q. q.1) (place_lem w i s.place) ∙ s.depth in
    let to_w = looped_bucket d₁ i l page image image_id d₃ d₄ w p₃ p₄ s.grown img.differs s.room in
    let gd : d₄.global_depth ≡ w.global_depth = p₄.global ∙ p₃.global ∙ at.1 in
    (
      d₁,
      image,
      d₄,
      run₁,
      high_bit d₁ i l at.0,
      run,
      record {
        bounded = omega (arith, gd, s.bounded);
        deepens = λ h e. ap (λ q. q.1) (to_w h) ∙ half_depth w i l page image image_id img h e;
        deep = omega (arith, gd, s.room);
        buckets = λ h.
            to_w h
            ∙ ap
                (λ b.
                  if h % 2 ^ suc l == i % 2 ^ suc l
                  then (page, suc l)
                  else if h % 2 ^ suc l == image % 2 ^ suc l
                  then (image_id, suc l)
                  else b)
                (s.buckets h);
        mirrored =
            led-Mirrored d₄ w i l page image image_id gd to_w img (Mirrored-Leads w s.mirrored) deep
              s.mirrored s.room;
      },
    )
