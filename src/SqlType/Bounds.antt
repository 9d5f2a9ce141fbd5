-- ===== src/SqlType/Bounds.antt =====
-- Sums, differences and products: exact, or an error, or outside what C++ defines.
use disk_oriented_concurrenc.Base.{
  ℕ, zero, suc, ◌+◌, ◌*◌, ◌/◌, ◌≤◌, ◌<◌, ◌≡◌, refl, sym, ap, subst, ◌∙◌, Bool, true, false, not,
  ◌&&◌, ◌||◌, Option, none, some, arith, leb, if◌then◌else◌,
}
use native.Mathlib.Nat.{mul-div_cancel}
use disk_oriented_concurrenc.SqlType.Int.{
  sub_ℕ, ℤ, pos, negsuc, ◌+ℤ◌, ◌-ℤ◌, ◌*ℤ◌, quot, eqb_ℤ, fits, cast,
}
use disk_oriented_concurrenc.SqlType.Cast.{cast-fits, eqb_ℤ-cast, fits-wider}
use disk_oriented_concurrenc.SqlType.{
  ◌>>=◌, Value, Double, Result, gives, throws, undefined, out_of_range, half8, half16, half32,
  half64, TypeId, tinyint, smallint, integer, bigint, with_number, null_number, member,
}
use disk_oriented_concurrenc.SqlType.Arithmetic.{
  common, within, is_positive, is_negative, value_of, add_value, subtract_value, multiply_value,
}

-- The half of an integer type.
abbrev pub half_of : TypeId → Option ℕ
half_of tinyint = some half8
half_of smallint = some half16
half_of integer = some half32
half_of bigint = some half64
half_of _ = none

-- A value of an integer type of half `h`: its number is in range, and it is null for the least one.
pub record Typed {D : Type 0} (v : Value D) (h : ℕ) : Type 0 where
  pub half : half_of v.type_id ≡ some h
  pub in_range : fits h v.number ≡ true
  pub null : v.is_null ≡ eqb_ℤ v.number (null_number h)

pub half_bounds : (t : TypeId) (h : ℕ) → half_of t ≡ some h → (0 < h) × (h ≤ half64)
half_bounds t h e = ground arith

yes {ℓ} : {A : Type ℓ} (b : Bool) → b ≡ true → (x y : A) → x ≡ (if b then x else y)
yes true e x y = refl
yes false e x y = absurd (ground arith)

no {ℓ} : {A : Type ℓ} (b : Bool) → b ≡ false → (x y : A) → y ≡ (if b then x else y)
no true e x y = absurd (ground arith)
no false e x y = refl

-- The tests at the end of the three operations: whether the number stays in each type, which type is
-- wider, and whether a carry shows.
abbrev pick {ℓ} : {R : Type ℓ} → Bool → Bool → Bool → Bool → Bool → R → R → R → R
pick b₁ b₂ l o₁ o₂ error x y =
    if not b₁ && not b₂
    then error
    else if l
    then (if o₁ then error else x)
    else (if o₂ then error else y)

pick_lem {ℓ} :
    {R : Type ℓ} (b₁ b₂ l o₁ o₂ : Bool) (error x y u v : R)
    → (b₁ ≡ true → o₁ ≡ false)
    → (b₂ ≡ true → o₂ ≡ false)
    → (b₁ ≡ true → x ≡ u)
    → (b₁ ≡ false → error ≡ u)
    → (b₂ ≡ true → y ≡ v)
    → (b₂ ≡ false → error ≡ v)
    → (l ≡ true → b₂ ≡ true → b₁ ≡ true)
    → (l ≡ false → b₁ ≡ true → b₂ ≡ true)
    → pick b₁ b₂ l o₁ o₂ error x y ≡ (if l then u else v)
pick_lem true b₂ true o₁ o₂ error x y u v p q i j k m f g = rw (p refl) (i refl)
pick_lem false true true o₁ o₂ error x y u v p q i j k m f g = absurd (ground (arith, f refl refl))
pick_lem false false true o₁ o₂ error x y u v p q i j k m f g = j refl
pick_lem true true false o₁ o₂ error x y u v p q i j k m f g = rw (q refl) (k refl)
pick_lem false true false o₁ o₂ error x y u v p q i j k m f g = rw (q refl) (k refl)
pick_lem true false false o₁ o₂ error x y u v p q i j k m f g = absurd (ground (arith, g refl refl))
pick_lem false false false o₁ o₂ error x y u v p q i j k m f g = m refl

module _ {D : Type 0} (double : Double D) where
  -- The constructor that a width picks sets the type's member.
  pub value_of-member :
      (t : TypeId) (h : ℕ) (x : ℤ)
      → half_of t ≡ some h
      → value_of double h t x ≡ gives (member double t h x)
  unfolding value_of
  value_of-member tinyint h x e =
      let q : half8 ≡ h = cc in
      subst (λ k. value_of double k tinyint x ≡ gives (member double tinyint k x)) q refl
  value_of-member smallint h x e =
      let q : half16 ≡ h = cc in
      subst (λ k. value_of double k smallint x ≡ gives (member double smallint k x)) q refl
  value_of-member integer h x e =
      let q : half32 ≡ h = cc in
      subst (λ k. value_of double k integer x ≡ gives (member double integer k x)) q refl
  value_of-member bigint h x e =
      let q : half64 ≡ h = cc in
      subst (λ k. value_of double k bigint x ≡ gives (member double bigint k x)) q refl
  value_of-member _ h x e = absurd (ground arith)

  -- The number in a type, if it is in its range.
  abbrev pub in_type : ℕ → TypeId → ℤ → Result (Value D)
  in_type h t z =
      if fits h z
      then gives (with_number double t (eqb_ℤ z (null_number h)) z)
      else throws out_of_range

  -- A value of the wider of two types, or an error where the number is out of its range; undefined where it
  -- is out of the range of the common type.
  abbrev pub exact : ℕ → ℕ → Value D → Value D → ℤ → Result (Value D)
  exact h₁ h₂ left right z =
      if fits (common h₁ h₂) z
      then (if leb h₂ h₁ then in_type h₁ left.type_id z else in_type h₂ right.type_id z)
      else undefined

  kept :
      (t : TypeId) (h : ℕ) (z : ℤ)
      → half_of t ≡ some h
      → eqb_ℤ z (cast h z) ≡ true
      → value_of double h t (cast h z) ≡ in_type h t z
  kept t h z a e =
      let f : fits h z ≡ true = sym (eqb_ℤ-cast h z (half_bounds t h a).0) ∙ e in
      let q = cast-fits h z f in
      subst (λ y. value_of double h t y ≡ in_type h t z) (sym q)
        (value_of-member t h z a
          ∙ ap (λ y. gives (with_number double t (eqb_ℤ y (null_number h)) y)) q
          ∙ yes (fits h z) f _ _)

  -- What is common to the three operations, once `z` is computed: `over₁` and `over₂` are false for a number
  -- that fits.
  settle-exact :
      (h₁ h₂ : ℕ) (left right : Value D) (z : ℤ) (over₁ over₂ : Bool)
      → half_of left.type_id ≡ some h₁
      → half_of right.type_id ≡ some h₂
      → (fits h₁ z ≡ true → over₁ ≡ false)
      → (fits h₂ z ≡ true → over₂ ≡ false)
      → pick
          (eqb_ℤ z (cast h₁ z))
          (eqb_ℤ z (cast h₂ z))
          (leb h₂ h₁)
          over₁
          over₂
          (throws out_of_range)
          (value_of double h₁ left.type_id (cast h₁ z))
          (value_of double h₂ right.type_id (cast h₂ z))
        ≡ (if leb h₂ h₁ then in_type h₁ left.type_id z else in_type h₂ right.type_id z)
  settle-exact h₁ h₂ left right z over₁ over₂ a b no₁ no₂ =
      let e₁ = eqb_ℤ-cast h₁ z (half_bounds left.type_id h₁ a).0 in
      let e₂ = eqb_ℤ-cast h₂ z (half_bounds right.type_id h₂ b).0 in
      pick_lem (eqb_ℤ z (cast h₁ z)) (eqb_ℤ z (cast h₂ z)) (leb h₂ h₁) over₁ over₂ _ _ _ _ _
        (λ q. no₁ (sym e₁ ∙ q)) (λ q. no₂ (sym e₂ ∙ q)) (kept left.type_id h₁ z a)
        (λ q. no (fits h₁ z) (sym e₁ ∙ q) _ _) (kept right.type_id h₂ z b)
        (λ q. no (fits h₂ z) (sym e₂ ∙ q) _ _)
        (λ l q. e₁ ∙ fits-wider h₂ h₁ z (ground arith) (sym e₂ ∙ q))
        (λ l q. e₂ ∙ fits-wider h₁ h₂ z (ground arith) (sym e₁ ∙ q))

carry_add :
    (x y : ℤ)
    → (is_positive x && is_positive y && is_negative (x +ℤ y)
        || is_negative x && is_negative y && is_positive (x +ℤ y))
      ≡ false
unfolding ◌+ℤ◌
carry_add x y = ground arith

carry_subtract :
    (x y : ℤ)
    → (is_positive x && is_negative y && is_negative (x -ℤ y)
        || is_negative x && is_positive y && is_positive (x -ℤ y))
      ≡ false
unfolding ◌-ℤ◌
carry_subtract x y = ground arith

pub same_product : (m k : ℕ) → (pos m *ℤ pos k ≡ pos (m * k))
unfolding ◌*ℤ◌
same_product m k =
    let a : m * k + 0 * 0 ≡ m * k = grind arith in
    let b : m * 0 + 0 * k ≡ 0 = grind arith in rw (a, b) (ground arith)

pub left_product : (m n : ℕ) → pos m *ℤ negsuc n ≡ sub_ℕ 0 (m * suc n)
unfolding ◌*ℤ◌
left_product m n =
    let a : m * 0 + 0 * suc n ≡ 0 = grind arith in
    let b : m * suc n + 0 * 0 ≡ m * suc n = grind arith in rw (a, b) refl

pub right_product : (m k : ℕ) → negsuc m *ℤ pos k ≡ sub_ℕ 0 (suc m * k)
unfolding ◌*ℤ◌
right_product m k =
    let a : 0 * k + suc m * 0 ≡ 0 = grind arith in
    let b : 0 * 0 + suc m * k ≡ suc m * k = grind arith in rw (a, b) refl

pub both_product : (m n : ℕ) → negsuc m *ℤ negsuc n ≡ pos (suc m * suc n)
unfolding ◌*ℤ◌
both_product m n =
    let a : 0 * 0 + suc m * suc n ≡ suc m * suc n = grind arith in
    let b : 0 * suc n + suc m * 0 ≡ 0 = grind arith in rw (a, b) (ground arith)

cancel : (m n : ℕ) → m * suc n / suc n ≡ m
cancel m n = mul-div_cancel m (omega arith)

-- The product divided by `y` is `x` again.
carry_multiply : (x y : ℤ) → (not (eqb_ℤ y (pos 0)) && not (eqb_ℤ (quot (x *ℤ y) y) x)) ≡ false
unfolding quot
carry_multiply x (pos zero) = refl
carry_multiply (pos m) (pos (suc n)) = rw (same_product m (suc n)) (ground (arith, cancel m n))
carry_multiply (pos m) (negsuc n) = rw (left_product m n) (ground (arith, cancel m n))
carry_multiply (negsuc m) (pos (suc n)) =
    rw (right_product m (suc n)) (ground (arith, cancel (suc m) n))
carry_multiply (negsuc m) (negsuc n) = rw (both_product m n) (ground (arith, cancel (suc m) n))

-- A step that computes `z` in the common type.
pub within_bind {ℓ} :
    {R : Type ℓ} (h : ℕ) (z : ℤ) (k : ℤ → Result R) (u : Result R)
    → k z ≡ u
    → (within h z >>= k) ≡ (if fits h z then u else undefined)
within_bind {R = R} h z k u e = go (fits h z)
  where
    go : (b : Bool) → ((if b then gives z else undefined) >>= k) ≡ (if b then u else undefined)
    go true = e
    go false = refl

module _ {D : Type 0} (double : Double D) where
  pub add_value-exact :
      (h₁ h₂ : ℕ) (left right : Value D)
      → Typed left h₁
      → Typed right h₂
      → add_value double h₁ h₂ left right
        ≡ exact double h₁ h₂ left right (left.number +ℤ right.number)
  unfolding add_value
  add_value-exact h₁ h₂ left right a b =
      let x = left.number in
      let y = right.number in
      let z = x +ℤ y in
      let c = carry_add x y in
      within_bind (common h₁ h₂) z _ _ (
        settle-exact double h₁ h₂ left right z _ _ a.half b.half (λ f. rw (cast-fits h₁ z f) c)
          (λ f. rw (cast-fits h₂ z f) c))

  pub subtract_value-exact :
      (h₁ h₂ : ℕ) (left right : Value D)
      → Typed left h₁
      → Typed right h₂
      → subtract_value double h₁ h₂ left right
        ≡ exact double h₁ h₂ left right (left.number -ℤ right.number)
  unfolding subtract_value
  subtract_value-exact h₁ h₂ left right a b =
      let x = left.number in
      let y = right.number in
      let z = x -ℤ y in
      let c = carry_subtract x y in
      within_bind (common h₁ h₂) z _ _ (
        settle-exact double h₁ h₂ left right z _ _ a.half b.half (λ f. rw (cast-fits h₁ z f) c)
          (λ f. rw (cast-fits h₂ z f) c))

  pub multiply_value-exact :
      (h₁ h₂ : ℕ) (left right : Value D)
      → Typed left h₁
      → Typed right h₂
      → multiply_value double h₁ h₂ left right
        ≡ exact double h₁ h₂ left right (left.number *ℤ right.number)
  unfolding multiply_value
  multiply_value-exact h₁ h₂ left right a b =
      let x = left.number in
      let y = right.number in
      let z = x *ℤ y in
      let c = carry_multiply x y in
      within_bind (common h₁ h₂) z _ _ (
        settle-exact double h₁ h₂ left right z _ _ a.half b.half (λ f. rw (cast-fits h₁ z f) c)
          (λ f. rw (cast-fits h₂ z f) c))
