-- ===== src/HashTable/Rounds.antt =====
-- Insert and SplitInsert call each other: ten rounds are enough.
use disk_oriented_concurrenc.Base.{
  ℕ, zero, suc, ◌+◌, ◌%◌, ◌^◌, ◌≤◌, ◌<◌, ◌≡◌, ◌≢◌, refl, ap, sym, subst, ◌∙◌, Bool, true, false,
  not, some, arith, leb, ◌==◌, Bool-cases, inl, inr,
}
use native.Mathlib.Nat.{mod-lt}
use disk_oriented_concurrenc.RwLatch.{r_lock, r_unlock, w_lock, w_unlock}
use disk_oriented_concurrenc.HashDirectory.{
  HashTableDirectoryPage, returns, size, get_local_high_bit,
}
use disk_oriented_concurrenc.HashDirectory.Depth.{Mirrored, bucket_of, pow_pos, mod_pow}
use disk_oriented_concurrenc.HashBucket
use disk_oriented_concurrenc.HashBucket.{HashTableBucketPage, is_full}
use disk_oriented_concurrenc.HashPlaces.{deepen, split_places, redistribute}
use disk_oriented_concurrenc.HashPlaces.Split.{Splits, split_places-Splits}
use disk_oriented_concurrenc.HashTable.{
  ◌>>◌, PagePool, HashTable, Call, spent, latch, unlatch, check, expect, assert_pool, hash,
  key_to_page_id, key_to_directory_index, fetch_directory_page, fetch_bucket_page, insert, halve,
  split_insert, invalid_page_id, new_page,
}
use disk_oriented_concurrenc.HashTable.Pool.{directory_of}
use disk_oriented_concurrenc.HashTable.Post.{
  Post, bind-Post, Keeps, Same, Same-trans, latch-Post, fetch_directory_page-Post,
  fetch_bucket_page-Post, check-Post, check-same, expect-Post, new_page-Post, unpin-Post,
}

-- The results of a split's three parts are those of the theorem on splits.
given :
    (d d₁ d₂ : HashTableDirectoryPage) (i page image image_id : ℕ)
    → Mirrored d
    → d.global_depth ≤ 9
    → i < size d
    → d.local_depths i < 9
    → deepen d i ≡ returns d₁
    → get_local_high_bit d₁ i ≡ some image
    → split_places d₁ i page image image_id ≡ returns d₂
    → Splits d d₂ i (d.local_depths i) page image image_id
given d d₁ d₂ i page image image_id m g p l e₁ e₂ e₃ =
    let (c₁, im, c₂, f₁, f₂, f₃, s) = split_places-Splits d i page image_id m g p l in
    let a : c₁ ≡ d₁ = cc in
    let b : im ≡ image = cc in
    let c : c₂ ≡ d₂ = cc in
    subst (λ z. Splits d z i (d.local_depths i) page image image_id) c
      (subst (λ z. Splits d c₂ i (d.local_depths i) page z image_id) b s)

module _ {ℓ κ} {P : Type 0} {K : Type ℓ} {V : Type κ} (pages : PagePool P K V)
    (key_eq : K → K → Bool) (value_eq : V → V → Bool) (hash_fn : K → ℕ) (blank : K × V)
    (n : ℕ) where
  -- The local depth where a key leads.
  abbrev pub depth_of : K → HashTable P → ℕ
  depth_of key t =
      (directory_of pages t).local_depths
        (key_to_directory_index hash_fn key (directory_of pages t))

  -- The directory of a table, there, mirrored and within its depth.
  pub record Sound (t : HashTable P) : Type 0 where
    pub made : (t.directory_page_id == invalid_page_id) ≡ false
    pub mirrored : Mirrored (directory_of pages t)
    pub bounded : (directory_of pages t).global_depth ≤ 9

  abbrev Any : Bool → HashTable P → Type 0
  Any a t = Unit {0}

  -- The table before the next round.
  abbrev Deeper : K → HashTable P → HashTable P → Type 0
  Deeper key t t' = Sound t' × (depth_of key t' ≡ suc (depth_of key t))

  depth_bucket :
      (key : K) (d : HashTableDirectoryPage)
      → d.local_depths (key_to_directory_index hash_fn key d) ≡ (bucket_of d (hash hash_fn key)).1
  unfolding key_to_directory_index size
  depth_bucket key d = refl

  index_lem :
      (key : K) (d : HashTableDirectoryPage)
      → key_to_directory_index hash_fn key d ≡ hash hash_fn key % 2 ^ d.global_depth
  unfolding key_to_directory_index size
  index_lem key d = refl

  index_within :
      (key : K) (d : HashTableDirectoryPage) → key_to_directory_index hash_fn key d < size d
  unfolding key_to_directory_index size
  index_within key d = mod-lt (hash hash_fn key) (pow_pos d.global_depth)

  deeper :
      (key : K) (t t' : HashTable P) (d d₂ : HashTableDirectoryPage) (page image image_id : ℕ)
      → Sound t
      → d ≡ directory_of pages t
      → Splits d d₂
          (key_to_directory_index hash_fn key d)
          (d.local_depths (key_to_directory_index hash_fn key d))
          page
          image
          image_id
      → t'.directory_page_id ≡ t.directory_page_id
      → directory_of pages t' ≡ d₂
      → Deeper key t t'
  deeper key t t' d d₂ page image image_id sound e s id e₂ =
      let i = key_to_directory_index hash_fn key d in
      let l = d.local_depths i in
      let m : Mirrored d = subst Mirrored (sym e) sound.mirrored in
      let h = hash hash_fn key in
      let le : l ≤ d.global_depth = m.bounded i (
        subst (λ z. z < 2 ^ d.global_depth) (sym (index_lem key d))
          (mod-lt h (pow_pos d.global_depth))) in
      let low : h % 2 ^ l ≡ i % 2 ^ l =
        sym (mod_pow h l d.global_depth le) ∙ ap (λ z. z % 2 ^ l) (sym (index_lem key d)) in
      (
        record {
          made = ap (λ z. z == invalid_page_id) id ∙ sound.made;
          mirrored = subst Mirrored (sym e₂) s.mirrored;
          bounded = subst (λ z. z.global_depth ≤ 9) (sym e₂) s.bounded;
        },
        ap (λ z. z.local_depths (key_to_directory_index hash_fn key z)) e₂
            ∙ depth_bucket key d₂
            ∙ s.deepens h low
            ∙ ap (λ z. suc (z.local_depths (key_to_directory_index hash_fn key z))) e,
      )

  -- The end of a split: the pages are unpinned and the latch released before the next round.
  split_ends :
      (keeps : Keeps pages) (again : Call P Bool) (w : HashTable P) (x y z : ℕ)
      → ((t' : HashTable P) → Same pages w t' → Post (again t') Any)
      → Post
          ((assert_pool (λ p. pages.unpin_page p x true)
              >> (assert_pool (λ p. pages.unpin_page p y true)
                  >> (assert_pool (λ p. pages.unpin_page p z true) >> (unlatch w_unlock >> again))))
            w)
          Any
  split_ends keeps again w x y z next =
      bind-Post (assert_pool (λ p. pages.unpin_page p x true)) _ w (λ _ t. Same pages w t) Any
        (unpin-Post pages keeps w x true)
        (λ a t₁ s₁.
          bind-Post (assert_pool (λ p. pages.unpin_page p y true)) _ t₁ (λ _ t. Same pages t₁ t) Any
            (unpin-Post pages keeps t₁ y true)
            (λ a t₂ s₂.
              bind-Post (assert_pool (λ p. pages.unpin_page p z true)) _ t₂ (λ _ t. Same pages t₂ t)
                Any (unpin-Post pages keeps t₂ z true)
                (λ a t₃ s₃.
                  let s = Same-trans pages w t₁ t₃ s₁ (Same-trans pages t₁ t₂ t₃ s₂ s₃) in
                  next (record t₃ { table_latch = w_unlock t₃.table_latch })
                    (record { id = s.id; dir = s.dir }))))

  -- The two buckets are made: the table has the new directory, whose places are split.
  record Halved (dir_id : ℕ) (d : HashTableDirectoryPage) (i : ℕ) (t : HashTable P)
      (r : ℕ × ℕ × HashTableDirectoryPage) (t' : HashTable P) : Type 0 where
    pub id : t'.directory_page_id ≡ t.directory_page_id
    pub dir : pages.directory t'.pool dir_id ≡ r.2
    pub image : ℕ
    pub splits : Splits d r.2 i (d.local_depths i) r.0 image r.1

  halve-Post :
      (keeps : Keeps pages) (key : K) (dir_id : ℕ) (d : HashTableDirectoryPage) (i : ℕ)
      (t : HashTable P)
      → Mirrored d
      → d.global_depth ≤ 9
      → i < size d
      → d.local_depths i < 9
      → Post (halve pages key_eq value_eq hash_fn blank n key dir_id d i t) (Halved dir_id d i t)
  unfolding halve
  halve-Post keeps key dir_id d i t m g w l =
      let R = Halved dir_id d i t in
      bind-Post (check (deepen d i)) _ t _ R (check-Post pages (deepen d i) t) λ d₁ t₃ q₃.
        let split_id = key_to_page_id hash_fn key d₁ in
        bind-Post (fetch_bucket_page pages split_id) _ t₃ _ R
          (fetch_bucket_page-Post pages keeps t₃ split_id)
          λ b t₄ s₄. bind-Post (new_page pages) _ t₄ _ R (new_page-Post pages t₄) λ image_id t₅ s₅.
            bind-Post (expect (get_local_high_bit d₁ i)) _ t₅ _ R
              (expect-Post pages (get_local_high_bit d₁ i) t₅)
              λ image t₆ q₆.
                let places = split_places d₁ i split_id image image_id in
                bind-Post (check places) _ t₆ _ R (check-Post pages places t₆) λ d₂ t₇ q₇.
                  let moved =
                    redistribute key_eq value_eq (hash hash_fn) n d₂ (2 ^ d₂.local_depths i)
                      split_id image_id (HashBucket.get_array_copy n b) (HashBucket.reset blank)
                      (pages.bucket t₅.pool image_id) in
                  bind-Post (check moved) _ t₇ _ R (check-same pages moved t₇) λ bs t₈ q₈.
                    let same : t₈ ≡ t₅ = q₈ ∙ q₇.1 ∙ q₆.1 in
                    record {
                      id =
                          ap (λ z. z.directory_page_id) same
                          ∙ s₅
                          ∙ s₄.id
                          ∙ ap (λ z. z.directory_page_id) q₃.1;
                      dir = keeps.written _ dir_id d₂;
                      image = image;
                      splits = given d d₁ d₂ i split_id image image_id m g w l q₃.0 q₆.0 q₇.0;
                    }

  split_insert-Post :
      (keeps : Keeps pages) (again : Call P Bool) (key : K) (t : HashTable P)
      → Sound t
      → ((t' : HashTable P) → Deeper key t t' → Post (again t') Any)
      → Post (split_insert pages key_eq value_eq hash_fn blank n again key t) Any
  unfolding split_insert
  split_insert-Post keeps again key t sound next =
      bind-Post (latch w_lock) _ t (λ _ t'. Same pages t t') Any (latch-Post pages w_lock t)
        λ a t₁ s₁.
          let made : (t₁.directory_page_id == invalid_page_id) ≡ false =
            ap (λ z. z == invalid_page_id) s₁.id ∙ sound.made in
          bind-Post (fetch_directory_page pages) _ t₁ _ Any
            (fetch_directory_page-Post pages keeps t₁ made)
            λ r t₂ q.
              let d = r.1 in
              let e : d ≡ directory_of pages t = q.1 ∙ s₁.dir in
              let i = key_to_directory_index hash_fn key d in
              elim (Bool-cases (leb 9 (d.local_depths i))) [
                | inl f ↦ rw f (
                    bind-Post (assert_pool (λ p. pages.unpin_page p d.page_id false)) _ t₂
                      (λ _ t'. Same pages t₂ t') Any (unpin-Post pages keeps t₂ d.page_id false)
                      λ a t₃ s₃. tt)
                | inr f ↦ rw f (
                    bind-Post (halve pages key_eq value_eq hash_fn blank n key (r.0) d i) _ t₂
                      (Halved (r.0) d i t₂) Any
                      (halve-Post keeps key (r.0) d i t₂ (subst Mirrored (sym e) sound.mirrored)
                        (subst (λ z. z.global_depth ≤ 9) (sym e) sound.bounded) (index_within key d)
                        (ground arith))
                      λ v w h.
                        let id : w.directory_page_id ≡ t₁.directory_page_id = h.id ∙ q.2.id in
                        split_ends keeps again w (v.0) (v.1) v.2.page_id λ t' s. next t' (
                          deeper key t t' d (v.2) (v.0) h.image (v.1) sound e h.splits
                            (s.id ∙ id ∙ s₁.id)
                            (s.dir ∙ ap (λ z. pages.directory w.pool z) (id ∙ sym q.0) ∙ h.dir)))
              ]

  Same-Sound : (t t' : HashTable P) → Same pages t t' → Sound t → Sound t'
  Same-Sound t t' s sound = record {
    made = ap (λ z. z == invalid_page_id) s.id ∙ sound.made;
    mirrored = subst Mirrored (sym s.dir) sound.mirrored;
    bounded = subst (λ z. z.global_depth ≤ 9) (sym s.dir) sound.bounded;
  }

  Same-depth_of :
      (key : K) (t t' : HashTable P) → Same pages t t' → depth_of key t' ≡ depth_of key t
  Same-depth_of key t t' s = ap (λ z. z.local_depths (key_to_directory_index hash_fn key z)) s.dir

  insert-Post :
      (keeps : Keeps pages) (r : ℕ) (key : K) (value : V) (t : HashTable P)
      → Sound t
      → 9 < r + depth_of key t
      → Post (insert pages key_eq value_eq hash_fn blank n r key value t) Any
  unfolding insert
  insert-Post keeps zero key value t sound enough =
      let d = directory_of pages t in
      let le = sound.mirrored.bounded (key_to_directory_index hash_fn key d) (
        subst (λ z. z < 2 ^ d.global_depth) (sym (index_lem key d))
          (mod-lt (hash hash_fn key) (pow_pos d.global_depth))) in
      absurd (omega (arith, le, sound.bounded, enough))
  insert-Post keeps (suc r) key value t sound enough =
      bind-Post (latch r_lock) _ t (λ _ t'. Same pages t t') Any (latch-Post pages r_lock t)
        (λ a t₁ s₁.
          let made : (t₁.directory_page_id == invalid_page_id) ≡ false =
            ap (λ z. z == invalid_page_id) s₁.id ∙ sound.made in
          bind-Post (fetch_directory_page pages) _ t₁ _ Any
            (fetch_directory_page-Post pages keeps t₁ made)
            (λ q t₂ e.
              let id = key_to_page_id hash_fn key q.1 in
              let dir = q.1.page_id in
              bind-Post (fetch_bucket_page pages id) _ t₂ _ Any
                (fetch_bucket_page-Post pages keeps t₂ id)
                (λ b t₃ s₃. elim (Bool-cases (not (is_full n b))) [
                  | inl f ↦ rw f (
                      bind-Post (assert_pool (λ p. pages.unpin_page p id true)) _ _ _ Any
                        (unpin-Post pages keeps _ id true)
                        (λ a t₄ s₄.
                          bind-Post (assert_pool (λ p. pages.unpin_page p dir false)) _ t₄ _ Any
                            (unpin-Post pages keeps t₄ dir false) (λ a t₅ s₅. tt)))
                  | inr f ↦ rw f (
                      bind-Post (assert_pool (λ p. pages.unpin_page p id false)) _ t₃ _ Any
                        (unpin-Post pages keeps t₃ id false)
                        (λ a t₄ s₄.
                          bind-Post (assert_pool (λ p. pages.unpin_page p dir false)) _ t₄ _ Any
                            (unpin-Post pages keeps t₄ dir false)
                            (λ a t₅ s₅.
                              let back =
                                Same-trans pages t₂ t₃ t₅ s₃ (Same-trans pages t₃ t₄ t₅ s₄ s₅) in
                              let all =
                                Same-trans pages t t₁ t₅ s₁ (Same-trans pages t₁ t₂ t₅ e.2 back) in
                              let t₆ = record t₅ { table_latch = r_unlock t₅.table_latch } in
                              let same : Same pages t t₆ = record { id = all.id; dir = all.dir } in
                              split_insert-Post keeps
                                (insert pages key_eq value_eq hash_fn blank n r key value) key t₆
                                (Same-Sound t t₆ same sound)
                                (λ t' next.
                                  insert-Post keeps r key value t' next.0
                                    (omega (arith, next.1, Same-depth_of key t t₆ same, enough))))))
                ])))

  -- `Insert` and `SplitInsert` do not go on calling each other: on a table whose directory is there, mirrored
  -- and of global depth at most 9, over a pool that keeps directories, at most ten rounds run for any key,
  -- whatever the buckets hold and whether or not the pool's calls succeed. The call then has returned, failed an
  -- assertion, or waits for the table latch.
  pub insert-ends :
      (keeps : Keeps pages) (r : ℕ) (key : K) (value : V) (t : HashTable P)
      → Sound t
      → 10 ≤ r
      → insert pages key_eq value_eq hash_fn blank n r key value t ≢ spent
  insert-ends keeps r key value t sound enough e =
      subst (λ o. Post o Any) e (insert-Post keeps r key value t sound (omega (arith, enough)))
