-- ===== src/LruReplacer.antt =====
-- src/buffer/lru_replacer.cpp and src/include/buffer/lru_replacer.h. A `std::list` node has an
-- identity, which is what an iterator holds; `lru_hash_` maps a frame to its node's identity.
pub mod Linked
pub mod Refines
pub mod Members
mod Tests
use disk_oriented_concurrenc.Base.{
  ℕ, suc, Bool, true, false, Option, none, some, List, [], ◌∷◌, arith, length, unsnoc, ◌==◌, leb,
  if◌then◌else◌, update,
}

-- A node of the list: its identity and the frame that it holds.
abbrev pub Node : Type 0
Node = ℕ × ℕ

-- `next_node` is the identity that the next allocation returns.
pub record LruReplacer : Type 0 where
  pub lru_list : List Node
  pub lru_hash : ℕ → Option ℕ
  pub max_size : ℕ
  pub next_node : ℕ

unfoldable pub init : ℕ → LruReplacer
init num_pages = record { lru_list = []; lru_hash = λ _. none; max_size = num_pages; next_node = 0 }

-- `lru_list_.erase(it)`: unlinks the node with this identity.
unfoldable pub erase_node : ℕ → List Node → List Node
erase_node it [] = []
erase_node it (n ∷ l) = if n.0 == it then l else n ∷ erase_node it l

unfoldable pub victim : LruReplacer → LruReplacer × Option ℕ
victim r = elim (unsnoc r.lru_list) [
  | none ↦ (r, none)
  | some (l, n) ↦ (record r { lru_list = l; lru_hash = update r.lru_hash n.1 none }, some n.1)
]

unfoldable pub pin : LruReplacer → ℕ → LruReplacer
unfolding erase_node
pin r frame_id = elim (r.lru_hash frame_id) [
  | none ↦ r
  | some it ↦ record r {
    lru_list = erase_node it r.lru_list;
    lru_hash = update r.lru_hash frame_id none;
  }
]

unfoldable pub unpin : LruReplacer → ℕ → LruReplacer
unpin r frame_id = elim (r.lru_hash frame_id) [
  | some _ ↦ r
  | none ↦ if leb r.max_size (length r.lru_list) then r else record r {
    lru_list = (r.next_node, frame_id) ∷ r.lru_list;
    lru_hash = update r.lru_hash frame_id (some r.next_node);
    next_node = suc r.next_node;
  }
]

unfoldable pub size : LruReplacer → ℕ
size r = length r.lru_list

abbrev pub frames_of : List Node → List ℕ
frames_of [] = []
frames_of (n ∷ l) = n.1 ∷ frames_of l

-- The frames that can be evicted, most recently unpinned first.
abbrev pub frames : LruReplacer → List ℕ
frames r = frames_of r.lru_list
