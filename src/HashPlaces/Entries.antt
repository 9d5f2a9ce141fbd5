-- ===== src/HashPlaces/Entries.antt =====
-- SplitInsert's loop over the entries of the bucket that is split.
use disk_oriented_concurrenc.Base.{
  ℕ, zero, suc, ◌+◌, ◌≤◌, ◌%◌, ◌≡◌, ◌≢◌, refl, ap, sym, Bool, true, false, not, ◌&&◌, ◌||◌, List,
  [], ◌∷◌, ◌++◌, arith, ◌==◌, if◌then◌else◌, inl, inr, Bool-cases, subst, length,
}
use disk_oriented_concurrenc.HashDirectory.{HashTableDirectoryPage, Checked, returns}
use disk_oriented_concurrenc.HashBucket.{
  HashTableBucketPage, get_array_copy, insert, reset, bit, is_readable,
}
use disk_oriented_concurrenc.HashBucket.Filled.{
  Filled, ends, matches, insert-Appends, get_array_copy-Filled,
}
use disk_oriented_concurrenc.HashPlaces.{redistribute}

no_bit : (j : ℕ) → bit 0 j ≡ false
unfolding bit
no_bit zero = refl
no_bit (suc j) = no_bit j

append_assoc {ℓ} :
    {A : Type ℓ} (xs : List A) (y : A) (zs : List A) → (xs ++ y ∷ []) ++ zs ≡ xs ++ y ∷ zs
append_assoc [] y zs = refl
append_assoc (x ∷ xs) y zs = ap (λ l. x ∷ l) (append_assoc xs y zs)

length_snoc {ℓ} : {A : Type ℓ} (xs : List A) (y : A) → length (xs ++ y ∷ []) ≡ suc (length xs)
length_snoc [] y = refl
length_snoc (x ∷ xs) y = ap (λ k. suc k) (length_snoc xs y)

append_nil {ℓ} : {A : Type ℓ} (xs : List A) → xs ++ [] ≡ xs
append_nil [] = refl
append_nil (x ∷ xs) = ap (λ l. x ∷ l) (append_nil xs)

module _ {ℓ κ} {K : Type ℓ} {V : Type κ} (key_eq : K → K → Bool) (value_eq : V → V → Bool)
    (hash : K → ℕ) (n : ℕ) where
  -- The entries, in their order, whose place in the directory holds this page.
  abbrev pub entries_of : HashTableDirectoryPage → ℕ → ℕ → List (K × V) → List (K × V)
  entries_of d modulus page [] = []
  entries_of d modulus page (e ∷ es) =
      let rest = entries_of d modulus page es in
      if d.bucket_page_ids (hash e.0 % modulus) == page then e ∷ rest else rest

  -- Each entry's place holds one of the two pages.
  abbrev pub covered : HashTableDirectoryPage → ℕ → ℕ → ℕ → List (K × V) → Bool
  covered d modulus split_id image_id [] = true
  covered d modulus split_id image_id (e ∷ es) =
      (d.bucket_page_ids (hash e.0 % modulus) == split_id
        || d.bucket_page_ids (hash e.0 % modulus) == image_id)
      && covered d modulus split_id image_id es

  -- No entry equals one that was seen or an earlier one.
  abbrev pub unseen : List (K × V) → List (K × V) → Bool
  unseen seen [] = true
  unseen seen (e ∷ es) = not (matches key_eq value_eq e.0 e.1 seen) && unseen (seen ++ e ∷ []) es

  matches-append :
      (key : K) (value : V) (xs : List (K × V)) (e : K × V)
      → matches key_eq value_eq key value (xs ++ e ∷ [])
        ≡ (matches key_eq value_eq key value xs || (key_eq key e.0 && value_eq value e.1))
  matches-append key value [] e = ground arith
  matches-append key value (x ∷ xs) e = let r = matches-append key value xs e in ground (arith, r)

  -- The pairs of a list are among those that were seen.
  abbrev Seen : List (K × V) → List (K × V) → Type (ℓ ⊔ κ)
  Seen seen xs =
      (key : K) (value : V)
      → matches key_eq value_eq key value seen ≡ false
      → matches key_eq value_eq key value xs ≡ false

  Seen-both :
      (seen xs : List (K × V)) (e : K × V) → Seen seen xs → Seen (seen ++ e ∷ []) (xs ++ e ∷ [])
  Seen-both seen xs e s key value m =
      let a = matches-append key value seen e in
      let b = matches-append key value xs e in
      let c : matches key_eq value_eq key value seen ≡ false = ground arith in
      let r = s key value c in ground arith

  Seen-more : (seen xs : List (K × V)) (e : K × V) → Seen seen xs → Seen (seen ++ e ∷ []) xs
  Seen-more seen xs e s key value m =
      let a = matches-append key value seen e in s key value (ground arith)

  -- The buckets after the loop.
  pub record Divides (r : Checked (HashTableBucketPage K V × HashTableBucketPage K V))
      (xs ys : List (K × V)) : Type (ℓ ⊔ κ) where
    pub split : HashTableBucketPage K V
    pub image : HashTableBucketPage K V
    pub runs : r ≡ returns (split, image)
    pub split_filled : Filled split 0 xs
    pub image_filled : Filled image 0 ys

  -- A round at an entry of each page.
  to_split :
      (d : HashTableDirectoryPage) (modulus split_id image_id : ℕ) (e : K × V) (es : List (K × V))
      (split image : HashTableBucketPage K V)
      → (d.bucket_page_ids (hash e.0 % modulus) == split_id) ≡ true
      → (insert key_eq value_eq n split e.0 e.1).1 ≡ true
      → redistribute key_eq value_eq hash n d modulus split_id image_id (e ∷ es) split image
        ≡ redistribute key_eq value_eq hash n d modulus split_id image_id es
            (insert key_eq value_eq n split e.0 e.1).0
            image
  unfolding redistribute
  to_split d modulus split_id image_id e es split image p ok = rw (p, ok, insert) refl

  to_image :
      (d : HashTableDirectoryPage) (modulus split_id image_id : ℕ) (e : K × V) (es : List (K × V))
      (split image : HashTableBucketPage K V)
      → (d.bucket_page_ids (hash e.0 % modulus) == split_id) ≡ false
      → (d.bucket_page_ids (hash e.0 % modulus) == image_id) ≡ true
      → (insert key_eq value_eq n image e.0 e.1).1 ≡ true
      → redistribute key_eq value_eq hash n d modulus split_id image_id (e ∷ es) split image
        ≡ redistribute key_eq value_eq hash n d modulus split_id image_id es split
            (insert key_eq value_eq n image e.0 e.1).0
  unfolding redistribute
  to_image d modulus split_id image_id e es split image f p ok = rw (f, p, ok, insert) refl

  done :
      (d : HashTableDirectoryPage) (modulus split_id image_id : ℕ)
      (split image : HashTableBucketPage K V)
      → redistribute key_eq value_eq hash n d modulus split_id image_id [] split image
        ≡ returns (split, image)
  unfolding redistribute
  done d modulus split_id image_id split image = refl

  redistribute_lem :
      (d : HashTableDirectoryPage) (modulus split_id image_id : ℕ) (es seen xs ys : List (K × V))
      (split image : HashTableBucketPage K V)
      → split_id ≢ image_id
      → Filled split 0 xs
      → Filled image 0 ys
      → length xs + length es ≤ n
      → length ys + length es ≤ n
      → Seen seen xs
      → Seen seen ys
      → unseen seen es ≡ true
      → covered d modulus split_id image_id es ≡ true
      → Divides
          (redistribute key_eq value_eq hash n d modulus split_id image_id es split image)
          (xs ++ entries_of d modulus split_id es)
          (ys ++ entries_of d modulus image_id es)
  redistribute_lem d modulus split_id image_id [] seen xs ys split image ne f g a b s t u c =
      record {
        split = split;
        image = image;
        runs = done d modulus split_id image_id split image;
        split_filled = subst (Filled split 0) (sym (append_nil xs)) f;
        image_filled = subst (Filled image 0) (sym (append_nil ys)) g;
      }
  redistribute_lem d modulus split_id image_id (e ∷ es) seen xs ys split image ne f g a b s t u c =
      let fresh : matches key_eq value_eq e.0 e.1 seen ≡ false = ground arith in
      let here = d.bucket_page_ids (hash e.0 % modulus) in
      let unseen_rest : unseen (seen ++ e ∷ []) es ≡ true = ground arith in
      let rest_too : covered d modulus split_id image_id es ≡ true = ground arith in
      elim (Bool-cases (here == split_id)) [
        | inl p ↦
            let not_image : (here == image_id) ≡ false = ground arith in
            let i =
              insert-Appends key_eq value_eq n split e.0 e.1 xs f (omega (arith, a))
                (s e.0 e.1 fresh) in
            let r =
              redistribute_lem d modulus split_id image_id es (seen ++ e ∷ []) (xs ++ e ∷ []) ys _
                image ne i.filled g (omega (arith, a, length_snoc xs e)) (omega (arith, b))
                (Seen-both seen xs e s) (Seen-more seen ys e t) unseen_rest rest_too in
            rw
              (
                p,
                not_image,
                to_split d modulus split_id image_id e es split image p i.ok,
                sym (append_assoc xs e (entries_of d modulus split_id es)),
              )
              r
        | inr p ↦
            let q : (here == image_id) ≡ true = ground arith in
            let i =
              insert-Appends key_eq value_eq n image e.0 e.1 ys g (omega (arith, b))
                (t e.0 e.1 fresh) in
            let r =
              redistribute_lem d modulus split_id image_id es (seen ++ e ∷ []) xs (ys ++ e ∷ [])
                split _ ne f i.filled (omega (arith, a)) (omega (arith, b, length_snoc ys e))
                (Seen-more seen xs e s) (Seen-both seen ys e t) unseen_rest rest_too in
            rw
              (
                p,
                q,
                to_image d modulus split_id image_id e es split image p q i.ok,
                sym (append_assoc ys e (entries_of d modulus image_id es)),
              )
              r
      ]

  length-entries_of :
      (d : HashTableDirectoryPage) (modulus page : ℕ) (es : List (K × V))
      → length (entries_of d modulus page es) ≤ length es
  length-entries_of d modulus page [] = omega arith
  length-entries_of d modulus page (e ∷ es) =
      let r = length-entries_of d modulus page es in
      elim (Bool-cases (d.bucket_page_ids (hash e.0 % modulus) == page)) [
        | inl t ↦ rw t (omega (arith, r))
        | inr t ↦ rw t (omega (arith, r))
      ]

  reset-Filled : (blank : K × V) → Filled (reset blank) 0 []
  unfolding reset is_readable
  reset-Filled blank = ends (λ k l. no_bit (k % 8))

  -- The loop over at most `BUCKET_ARRAY_SIZE` entries, none equal to an earlier one, whose places each hold
  -- one of two different pages, into two buckets without entries: no assertion fails, and afterwards
  -- `GetArrayCopy` of each bucket gives exactly the entries whose places hold its page, in their order.
  pub redistribute-get_array_copy :
      (d : HashTableDirectoryPage) (modulus split_id image_id : ℕ) (es : List (K × V))
      (blank : K × V)
      → split_id ≢ image_id
      → length es ≤ n
      → unseen [] es ≡ true
      → covered d modulus split_id image_id es ≡ true
      → (split : HashTableBucketPage K V) × (image : HashTableBucketPage K V) × (redistribute key_eq
            value_eq hash n d modulus split_id image_id es
            (reset blank)
            (reset blank)
          ≡ returns (split, image))
        × (get_array_copy n split ≡ entries_of d modulus split_id es)
        × (get_array_copy n image ≡ entries_of d modulus image_id es)
  redistribute-get_array_copy d modulus split_id image_id es blank ne l u c =
      let empty = reset-Filled blank in
      let r =
        redistribute_lem d modulus split_id image_id es [] [] [] _ _ ne empty empty
          (omega (arith, l)) (omega (arith, l)) (λ key value m. m) (λ key value m. m) u c in
      (
        r.split,
        r.image,
        r.runs,
        get_array_copy-Filled n r.split _ r.split_filled
            (omega (arith, l, length-entries_of d modulus split_id es)),
        get_array_copy-Filled n r.image _ r.image_filled
            (omega (arith, l, length-entries_of d modulus image_id es)),
      )
