-- ===== src/TablePage/Bytes.antt =====
-- Copies in the bytes of a page.
use disk_oriented_concurrenc.Base.{
  ℕ, zero, suc, ◌+◌, ◌-◌, ◌≤◌, ◌<◌, ◌≡◌, refl, ◌⊎◌, List, [], ◌∷◌, arith, length, update, ◌∙◌,
  subst, ap,
}
use disk_oriented_concurrenc.TablePage.{store, load, move}

-- Two ranges with the same bytes load the same.
pub load_agree :
    (b c : ℕ → ℕ) (n x y : ℕ) → ((k : ℕ) → k < n → b (x + k) ≡ c (y + k)) → load b x n ≡ load c y n
unfolding load
load_agree b c zero x y h = refl
load_agree b c (suc n) x y h =
    let first : b x ≡ c y = ground (arith, h 0) in
    let rest : load b (suc x) n ≡ load c (suc y) n =
      load_agree b c n (suc x) (suc y) (λ k l. ground (arith, h (suc k))) in
    rw (first, rest) refl

pub store_outside :
    (b : ℕ → ℕ) (a q : ℕ) (xs : List ℕ) → (q < a) ⊎ (a + length xs ≤ q) → store b a xs q ≡ b q
unfolding store
store_outside b a q [] h = refl
store_outside b a q (x ∷ xs) h = ground (arith, store_outside b (suc a) q xs)

pub load-store : (b : ℕ → ℕ) (a : ℕ) (xs : List ℕ) → load (store b a xs) a (length xs) ≡ xs
unfolding store load
load-store b a [] = refl
load-store b a (x ∷ xs) =
    let s = store b (suc a) xs in
    let first : update s a x a ≡ x = ground arith in
    let rest : load (update s a x) (suc a) (length xs) ≡ xs =
      load_agree (update s a x) s (length xs) (suc a) (suc a) (λ k l. ground arith)
      ∙ load-store b (suc a) xs in
    rw (first, rest) refl

pub move_inside : (b : ℕ → ℕ) (to from n k : ℕ) → k < n → move b to from n (to + k) ≡ b (from + k)
unfolding move
move_inside b to from n k h =
    let e : from + (to + k - to) ≡ from + k = omega arith in ground (arith, e)

pub move_outside :
    (b : ℕ → ℕ) (to from n a : ℕ) → (a < to) ⊎ (to + n ≤ a) → move b to from n a ≡ b a
unfolding move
move_outside b to from n a h = ground arith

-- A byte between `from` and `end` is found at its distance from `to`.
pub moved_below :
    (b : ℕ → ℕ) (to from end x y : ℕ)
    → from ≤ x
    → x < end
    → y + from ≡ x + to
    → move b to from (end - from) y ≡ b x
moved_below b to from end x y h k e =
    let at : to + (x - from) ≡ y = omega (arith, e, h) in
    let was : from + (x - from) ≡ x = omega (arith, h) in
    subst (λ z. move b to from (end - from) z ≡ b x) at
      (move_inside b to from (end - from) (x - from) (omega (arith, h, k)) ∙ ap b was)
