-- ===== src/SqlType/Cast.antt =====
-- What a cast between the integer types keeps.
use disk_oriented_concurrenc.Base.{
  ℕ, ◌+◌, ◌%◌, ◌≤◌, ◌<◌, ◌≡◌, sym, ap, ◌∙◌, true, arith, Bool-cases, inl, inr,
}
use native.Mathlib.Nat.{mod-eq_of_lt, mod-lt}
use disk_oriented_concurrenc.SqlType.Int.{ℤ, pos, negsuc, eqb_ℤ, eqb_ℤ_iff, eqb_ℤ_refl, fits, cast}

-- A number in range stays.
pub cast-fits : (h : ℕ) (x : ℤ) → fits h x ≡ true → cast h x ≡ x
unfolding cast
cast-fits h (pos n) f = let e : n % (h + h) ≡ n = mod-eq_of_lt (ground arith) in rw e (ground arith)
cast-fits h (negsuc n) f =
    let e : n % (h + h) ≡ n = mod-eq_of_lt (ground arith) in rw e (ground arith)

-- The result is in range.
pub fits-cast : (h : ℕ) (x : ℤ) → 0 < h → fits h (cast h x) ≡ true
unfolding cast
fits-cast h (pos n) p =
    let l : n % (h + h) < h + h = mod-lt n (omega (arith, p)) in ground (arith, l, p)
fits-cast h (negsuc n) p =
    let l : n % (h + h) < h + h = mod-lt n (omega (arith, p)) in ground (arith, l, p)

-- So the cast tells whether a number is in range.
pub eqb_ℤ-cast : (h : ℕ) (x : ℤ) → 0 < h → eqb_ℤ x (cast h x) ≡ fits h x
eqb_ℤ-cast h x p = elim (Bool-cases (fits h x)) [
  | inl f ↦ rw (cast-fits h x f, f) (eqb_ℤ_refl x)
  | inr f ↦ elim (Bool-cases (eqb_ℤ x (cast h x))) [
    | inr e ↦ e ∙ sym f
    | inl e ↦
        let q : x ≡ cast h x = eqb_ℤ_iff x (cast h x) e in
        let g : fits h x ≡ true = ap (fits h) q ∙ fits-cast h x p in absurd (ground arith)
  ]
]

pub fits-wider : (h k : ℕ) (x : ℤ) → h ≤ k → fits h x ≡ true → fits k x ≡ true
fits-wider h k x l f = ground (arith, l)
