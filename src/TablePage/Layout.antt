-- ===== src/TablePage/Layout.antt =====
-- The bounds of a slotted page: where the slots end, where the tuples lie, and that they are apart.
use disk_oriented_concurrenc.Base.{
  ℕ, ◌+◌, ◌*◌, ◌≤◌, ◌<◌, ◌≡◌, ◌≢◌, refl, ◌⊎◌, inl, inr, false, arith, leb, Bool-cases,
}
use disk_oriented_concurrenc.TablePage.{
  TablePage, init, free_space_remaining, is_deleted, unset_deleted_flag, get_tuple, load,
}

abbrev pub page_size : ℕ
page_size = 4096

-- The size of the tuple in a slot, whether it is marked as deleted or not.
abbrev pub real_size : TablePage → ℕ → ℕ
real_size t i = unset_deleted_flag (t.tuple_size i)

-- The slot holds a tuple.
abbrev pub IsUsed : TablePage → ℕ → Type 0
IsUsed t i = (i < t.tuple_count) × (0 < t.tuple_size i)

pub record Layout (t : TablePage) : Type 0 where
  pub header : 24 + 8 * t.tuple_count ≤ t.free_space_pointer
  pub top : t.free_space_pointer ≤ page_size
  pub placed :
      (i : ℕ)
      → IsUsed t i
      → (t.free_space_pointer ≤ t.tuple_offset i)
        × (t.tuple_offset i + real_size t i ≤ page_size)
        × (0 < real_size t i)
  pub apart :
      (i j : ℕ)
      → i ≢ j
      → IsUsed t i
      → IsUsed t j
      → (t.tuple_offset i + real_size t i ≤ t.tuple_offset j)
        ⊎ (t.tuple_offset j + real_size t j ≤ t.tuple_offset i)

pub init-Layout :
    (t : TablePage) (page_id size prev : ℕ)
    → 24 ≤ size
    → size ≤ page_size
    → Layout (init t page_id size prev)
unfolding init
init-Layout t page_id size prev h k = record {
  header = h;
  top = k;
  placed = λ i u. absurd (ground (arith, u.0));
  apart = λ i j ne u v. absurd (ground (arith, u.0));
}

-- On a page within its bounds the remaining space is what lies between the slots and the tuples.
pub free_space_remaining_lem :
    (t : TablePage)
    → Layout t
    → free_space_remaining t + 24 + 8 * t.tuple_count ≡ t.free_space_pointer
unfolding free_space_remaining
free_space_remaining_lem t l = omega (arith, l.header, l.top)

-- What a read depends on.
pub get_tuple_agree :
    (t t' : TablePage) (j : ℕ)
    → leb t'.tuple_count j ≡ leb t.tuple_count j
    → t'.tuple_size j ≡ t.tuple_size j
    → (IsUsed t j
        → is_deleted (t.tuple_size j) ≡ false
        → load t'.bytes (t'.tuple_offset j) (t.tuple_size j)
          ≡ load t.bytes (t.tuple_offset j) (t.tuple_size j))
    → get_tuple t' j ≡ get_tuple t j
unfolding get_tuple
get_tuple_agree t t' j c s h = elim (Bool-cases (leb t.tuple_count j)) [
  | inl e ↦ rw (c, e) refl
  | inr e ↦ elim (Bool-cases (is_deleted (t.tuple_size j))) [
    | inl d ↦ ground (arith, c, s)
    | inr d ↦ let q = h (ground arith, ground arith) d in ground (arith, c, s, q)
  ]
]
