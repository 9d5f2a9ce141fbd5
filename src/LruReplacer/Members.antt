-- ===== src/LruReplacer/Members.antt =====
-- The replacer as a set of frames: which frames each operation adds and removes.
use disk_oriented_concurrenc.Base.{
  ℕ, ◌<◌, ◌≡◌, refl, true, false, Option, none, some, List, [], ◌∷◌, arith, length, unsnoc,
  Option-cases, inl, inr, ◌==◌, if◌then◌else◌, elem, elem-remove, Distinct,
}
use disk_oriented_concurrenc.LruReplacer.{LruReplacer, victim, pin, unpin, frames}
use disk_oriented_concurrenc.LruReplacer.Refines.{
  IsValid, pin_lem, unpin_lem, victim_lem, spec_unpin, spec_victim, frames-Distinct,
}

pub elem-pin :
    (r : LruReplacer) (f g : ℕ)
    → IsValid r
    → elem g (frames (pin r f)) ≡ (if g == f then false else elem g (frames r))
elem-pin r f g v = rw ((pin_lem r f v).1) (elem-remove f g (frames r))

pub elem-unpin :
    (r : LruReplacer) (f g : ℕ)
    → IsValid r
    → length (frames r) < r.max_size
    → elem g (frames (unpin r f)) ≡ (if g == f then true else elem g (frames r))
unfolding spec_unpin
elem-unpin r f g v room = ground (arith, unpin_lem r f v)

unsnoc-empty : (l : List ℕ) → unsnoc l ≡ none → l ≡ []
unsnoc-empty [] h = refl
unsnoc-empty (a ∷ l) h = ground arith

-- The last entry of a list of distinct numbers stands nowhere else in it.
unsnoc-elem :
    (l l' : List ℕ) (y g : ℕ)
    → Distinct l
    → unsnoc l ≡ some (l', y)
    → (elem y l ≡ true) × (elem g l' ≡ (if g == y then false else elem g l))
unsnoc-elem [] l' y g d e = cc
unsnoc-elem (x ∷ l) l' y g d e = elim (Option-cases (unsnoc l)) [
  | inl e' ↦ ground (arith, unsnoc-empty l)
  | inr ((l'', z), e') ↦ ground (arith, unsnoc-elem l l'' z g d.1 e', unsnoc-elem l l'' z x d.1 e')
]

-- `Victim` fails exactly on the empty replacer, and otherwise takes out a frame that was in it.
abbrev pub Victims : LruReplacer → LruReplacer × Option ℕ → Type 0
Victims r (r', none) = (r' ≡ r) × ((g : ℕ) → elem g (frames r) ≡ false)
Victims r (r', some f) =
    IsValid r'
    × (r'.max_size ≡ r.max_size)
    × (elem f (frames r) ≡ true)
    × ((g : ℕ) → elem g (frames r') ≡ (if g == f then false else elem g (frames r)))

victim-none : (r r' : LruReplacer) → victim r ≡ (r', none) → r' ≡ r
unfolding victim
victim-none r r' e = ground arith

result-Victims :
    (r : LruReplacer) (w : LruReplacer × Option ℕ) → IsValid r → victim r ≡ w → Victims r w
unfolding spec_victim
result-Victims r (r', none) v e = elim (Option-cases (unsnoc (frames r))) [
  | inl e' ↦ (victim-none r r' e, λ g. ground (arith, unsnoc-empty (frames r) e'))
  | inr ((l, z), e') ↦ absurd (ground (arith, victim_lem r v))
]
result-Victims r (r', some f) v e = elim (Option-cases (unsnoc (frames r))) [
  | inl e' ↦ absurd (ground (arith, victim_lem r v))
  | inr ((l, z), e') ↦
      let distinct = frames-Distinct r v in
      (
        rw e at ((victim_lem r v).0),
        ground (arith, victim_lem r v),
        ground (arith, victim_lem r v, unsnoc-elem (frames r) l z 0 distinct e'),
        λ g. ground (arith, victim_lem r v, unsnoc-elem (frames r) l z g distinct e'),
      )
]

pub victim-Victims : (r : LruReplacer) → IsValid r → Victims r (victim r)
victim-Victims r v = result-Victims r (victim r) v refl
