-- ===== src/LruReplacer/Refines.antt =====
-- The replacer against its abstract view: a list of distinct frames, most recently unpinned first.
-- The other components use the replacer through the laws of this file only.
use disk_oriented_concurrenc.Base.{
  ℕ, suc, ◌≤◌, ◌≡◌, refl, sym, ap, fun_ext, Option, none, some, List, [], ◌∷◌, arith, length,
  unsnoc, Option-cases, inl, inr, leb, if◌then◌else◌, elem, remove, remove_absent, Distinct,
  length-unsnoc, update,
}
use disk_oriented_concurrenc.LruReplacer.{
  LruReplacer, Node, init, victim, pin, unpin, frames, frames_of,
}
use disk_oriented_concurrenc.LruReplacer.Linked.{
  Linked, Linked-Distinct, elem_of_none, elem_of_some, erase_node-Linked, unsnoc-Linked,
}

-- Nodes and iterators agree, and the list stays within the capacity.
pub record IsValid (r : LruReplacer) : Type 0 where
  pub linked : Linked r.next_node r.lru_list r.lru_hash
  pub bounded : length (frames r) ≤ r.max_size

pub frames-Distinct : (r : LruReplacer) → IsValid r → Distinct (frames r)
frames-Distinct r v = Linked-Distinct r.next_node r.lru_list r.lru_hash v.linked

-- The abstract operations.
unfoldable pub spec_unpin : ℕ → ℕ → List ℕ → List ℕ
spec_unpin cap f fs = if elem f fs then fs else if leb cap (length fs) then fs else f ∷ fs

unfoldable pub spec_victim : List ℕ → List ℕ × Option ℕ
spec_victim fs = elim (unsnoc fs) [ none ↦ ([], none) | some (l, f) ↦ (l, some f) ]

length-frames : (l : List Node) → length (frames_of l) ≡ length l
length-frames [] = refl
length-frames (n ∷ l) = ap suc (length-frames l)

length-remove-le : (a : ℕ) (xs : List ℕ) → length (remove a xs) ≤ length xs
length-remove-le a [] = omega arith
length-remove-le a (x ∷ xs) = ground (arith, length-remove-le a xs)

pub init-IsValid : (cap : ℕ) → IsValid (init cap) × (frames (init cap) ≡ [])
unfolding init
init-IsValid cap = (record { linked = λ f. refl; bounded = omega arith }, refl)

pub init-max_size : (cap : ℕ) → (init cap).max_size ≡ cap
unfolding init
init-max_size cap = refl

unset_lem :
    (h : ℕ → Option ℕ) (f : ℕ) (v : Option ℕ) → h f ≡ none → update (update h f v) f none ≡ h
unset_lem h f v e = fun_ext λ q. ground arith

unsnoc-eq-none {ℓ} : {A : Type ℓ} (l : List A) → unsnoc l ≡ none → l ≡ []
unsnoc-eq-none [] e = refl
unsnoc-eq-none (x ∷ l) e = ground arith

-- On a valid replacer `Pin` drops the frame from the list, wherever it stands.
pub pin_lem :
    (r : LruReplacer) (f : ℕ)
    → IsValid r
    → IsValid (pin r f)
      × (frames (pin r f) ≡ remove f (frames r))
      × ((pin r f).max_size ≡ r.max_size)
unfolding pin
pin_lem r f v = elim (Option-cases (r.lru_hash f)) [
  | inl e ↦
      let absent = elem_of_none r.next_node f r.lru_list r.lru_hash v.linked e in
      rw (e, pin) (v, sym (remove_absent f (frames r) absent), refl)
  | inr (it, e) ↦
      let (linked, erased) = erase_node-Linked r.next_node f it r.lru_list r.lru_hash v.linked e in
      rw (e, pin)
        (
          record {
            linked = linked;
            bounded = omega (arith, v.bounded, ap length erased, length-remove-le f (frames r));
          },
          erased,
          refl,
        )
]

-- On a valid replacer `Unpin` pushes an absent frame to the front, while there is room.
pub unpin_lem :
    (r : LruReplacer) (f : ℕ)
    → IsValid r
    → IsValid (unpin r f)
      × (frames (unpin r f) ≡ spec_unpin r.max_size f (frames r))
      × ((unpin r f).max_size ≡ r.max_size)
unfolding unpin spec_unpin
unpin_lem r f v = elim (Option-cases (r.lru_hash f)) [
  | inl e ↦
      let same = unset_lem r.lru_hash f (some r.next_node) e in
      ground (
        arith,
        elem_of_none r.next_node f r.lru_list r.lru_hash v.linked e,
        length-frames r.lru_list,
        rw (← same) at v.linked,
      )
  | inr (it, e) ↦ ground (arith, elem_of_some r.next_node f it r.lru_list r.lru_hash v.linked e)
]

-- On a valid replacer `Victim` takes the last frame of the list.
pub victim_lem :
    (r : LruReplacer)
    → IsValid r
    → IsValid (victim r).0
      × (frames (victim r).0 ≡ (spec_victim (frames r)).0)
      × ((victim r).1 ≡ (spec_victim (frames r)).1)
      × ((victim r).0.max_size ≡ r.max_size)
unfolding victim spec_victim
victim_lem r v = elim (Option-cases (unsnoc r.lru_list)) [
  | inl e ↦
      let emptied : frames r ≡ [] = ap frames_of (unsnoc-eq-none r.lru_list e) in
      rw (e, victim) (v, rw emptied, rw emptied, refl)
  | inr ((l, n), e) ↦
      let (linked, last) = unsnoc-Linked r.next_node r.lru_list l n r.lru_hash v.linked e in
      rw (e, victim, last, spec_victim)
        (
          record {
            linked = linked;
            bounded = omega (arith, v.bounded, length-unsnoc (frames r) (frames_of l) n.1 last);
          },
          refl,
          refl,
          refl,
        )
]

-- A call of the replacer, and the frame that it reports.
pub data Call : Type 0 where
  victims : Call
  pins unpins : ℕ → Call

unfoldable pub step : LruReplacer → Call → LruReplacer × Option ℕ
step r victims = victim r
step r (pins f) = (pin r f, none)
step r (unpins f) = (unpin r f, none)

unfoldable pub run : LruReplacer → List Call → List (Option ℕ)
run r [] = []
run r (c ∷ cs) = (step r c).1 ∷ run (step r c).0 cs

-- The same calls on the abstract list, with the capacity as a parameter.
unfoldable pub spec_step : ℕ → List ℕ → Call → List ℕ × Option ℕ
unfolding spec_victim spec_unpin
spec_step cap fs victims = spec_victim fs
spec_step cap fs (pins f) = (remove f fs, none)
spec_step cap fs (unpins f) = (spec_unpin cap f fs, none)

unfoldable pub spec_run : ℕ → List ℕ → List Call → List (Option ℕ)
spec_run cap fs [] = []
spec_run cap fs (c ∷ cs) = (spec_step cap fs c).1 ∷ spec_run cap (spec_step cap fs c).0 cs

step_lem :
    (r : LruReplacer) (c : Call)
    → IsValid r
    → IsValid (step r c).0
      × (frames (step r c).0 ≡ (spec_step r.max_size (frames r) c).0)
      × ((step r c).1 ≡ (spec_step r.max_size (frames r) c).1)
      × ((step r c).0.max_size ≡ r.max_size)
unfolding step spec_step
step_lem r victims v = victim_lem r v
step_lem r (pins f) v = let (w, e, m) = pin_lem r f v in (w, e, refl, m)
step_lem r (unpins f) v = let (w, e, m) = unpin_lem r f v in (w, e, refl, m)

run_lem :
    (r : LruReplacer) (cs : List Call) → IsValid r → run r cs ≡ spec_run r.max_size (frames r) cs
unfolding run spec_run
run_lem r [] v = refl
run_lem r (c ∷ cs) v =
    let (w, e, out, m) = step_lem r c v in rw (run_lem (step r c).0 cs w, e, out, m)

-- From a fresh replacer of any capacity, every sequence of `Victim`, `Pin` and `Unpin` calls reports
-- the frames that the abstract least-recently-used list reports.
pub run-refines : (cap : ℕ) (cs : List Call) → run (init cap) cs ≡ spec_run cap [] cs
unfolding init
run-refines cap cs = run_lem (init cap) cs (init-IsValid cap).0
