-- ===== src/LruReplacer/Linked.antt =====
-- The invariant that ties the list of nodes to the map of iterators, and each operation's effect on it.
use disk_oriented_concurrenc.Base.{
  ℕ, ◌≤◌, ◌<◌, ◌≡◌, refl, true, false, Option, none, some, List, [], ◌∷◌, arith, unsnoc,
  Option-cases, update, update_comm, elem, remove, remove_absent, dec_eq, inl, inr, Distinct,
}
use disk_oriented_concurrenc.LruReplacer.{Node, erase_node, frames_of}

-- Identities fall along the list, and the map holds exactly the listed frames, each with its node.
abbrev pub Linked : ℕ → List Node → (ℕ → Option ℕ) → Type 0
Linked bound [] h = (f : ℕ) → h f ≡ none
Linked bound (n ∷ l) h = (n.0 < bound) × (h n.1 ≡ some n.0) × Linked n.0 l (update h n.1 none)

pub Linked-mono : (b c : ℕ) (l : List Node) (h : ℕ → Option ℕ) → b ≤ c → Linked b l h → Linked c l h
Linked-mono b c [] h le k = k
Linked-mono b c (n ∷ l) h le k = (omega arith, k.1, k.2)

-- A frame without a node is not in the list.
pub elem_of_none :
    (b f : ℕ) (l : List Node) (h : ℕ → Option ℕ)
    → Linked b l h
    → h f ≡ none
    → elem f (frames_of l) ≡ false
elem_of_none b f [] h k e = refl
elem_of_none b f (n ∷ l) h k e = ground (arith, elem_of_none n.0 f l (update h n.1 none) k.2)

-- A frame with a node is in the list, and the node is older than the bound.
pub elem_of_some :
    (b f it : ℕ) (l : List Node) (h : ℕ → Option ℕ)
    → Linked b l h
    → h f ≡ some it
    → (elem f (frames_of l) ≡ true) × (it < b)
elem_of_some b f it [] h k e = ground (arith, k f)
elem_of_some b f it (n ∷ l) h k e = ground (arith, elem_of_some n.0 f it l (update h n.1 none) k.2)

pub Linked-Distinct :
    (b : ℕ) (l : List Node) (h : ℕ → Option ℕ) → Linked b l h → Distinct (frames_of l)
Linked-Distinct b [] h k = tt
Linked-Distinct b (n ∷ l) h k =
    (elem_of_none n.0 n.1 l (update h n.1 none) k.2 (ground arith), Linked-Distinct n.0 l _ k.2)

-- Unlinking the node of a frame removes that frame and keeps the rest tied.
pub erase_node-Linked :
    (b f it : ℕ) (l : List Node) (h : ℕ → Option ℕ)
    → Linked b l h
    → h f ≡ some it
    → Linked b (erase_node it l) (update h f none)
      × (frames_of (erase_node it l) ≡ remove f (frames_of l))
unfolding erase_node
erase_node-Linked b f it [] h k e = ground (arith, k f)
erase_node-Linked b f it ((i, g) ∷ l) h k e = elim (dec_eq f g) [
  | yes same ↦ ground (
    arith,
    remove_absent f (frames_of l)
        (rw same (elem_of_none i g l (update h g none) k.2 (ground arith))),
    Linked-mono i b l (update h g none),
  )
  | no other ↦ ground (
    arith,
    elem_of_some i f it l (update h g none) k.2,
    erase_node-Linked i f it l (update h g none) k.2,
    update_comm h g f none,
  )
]

unsnoc-elem : (l l' : List ℕ) (y : ℕ) → unsnoc l ≡ some (l', y) → elem y l ≡ true
unsnoc-elem [] l' y e = cc
unsnoc-elem (x ∷ l) l' y e = elim (Option-cases (unsnoc l)) [
  | inl e' ↦ ground arith
  | inr ((l'', z), e') ↦ ground (arith, unsnoc-elem l l'' z e')
]

unsnoc-ne-none {ℓ} : {A : Type ℓ} (x : A) (l : List A) → ¬ (unsnoc (x ∷ l) ≡ none)
unsnoc-ne-none x l = ground arith

-- Unlinking the last node does the same for its frame.
pub unsnoc-Linked :
    (b : ℕ) (l l' : List Node) (n : Node) (h : ℕ → Option ℕ)
    → Linked b l h
    → unsnoc l ≡ some (l', n)
    → Linked b l' (update h n.1 none) × (unsnoc (frames_of l) ≡ some (frames_of l', n.1))
unsnoc-Linked b [] l' n h k e = cc
unsnoc-Linked b ((i, g) ∷ []) l' n h k e =
    let emptied : l' ≡ [] = ground arith in
    let taken : n ≡ (i, g) = ground arith in rw (emptied, taken) (k.2, refl)
unsnoc-Linked b ((i, g) ∷ m ∷ l) l' n h k e = elim (Option-cases (unsnoc (m ∷ l))) [
  | inl e' ↦ absurd (unsnoc-ne-none m l e')
  | inr ((l'', n'), e') ↦
      let ih = unsnoc-Linked i (m ∷ l) l'' n' (update h g none) k.2 e' in
      let last = unsnoc-elem (frames_of (m ∷ l)) (frames_of l'') n'.1 ih.1 in
      let first = elem_of_none i g (m ∷ l) (update h g none) k.2 (ground arith) in
      ground (arith, update_comm h g n'.1 none)
]
