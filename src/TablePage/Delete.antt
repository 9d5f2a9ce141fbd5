-- ===== src/TablePage/Delete.antt =====
-- `MarkDelete`, `RollbackDelete` and `ApplyDelete`: the mark can be undone, and the removal of a tuple
-- closes its gap and leaves the other tuples readable.
use disk_oriented_concurrenc.Base.{
  ℕ, ◌+◌, ◌-◌, ◌%◌, ◌≤◌, ◌<◌, ◌≡◌, ◌≢◌, refl, ◌⊎◌, inl, inr, true, false, none, arith, is_some,
  update, fun_ext, ap, ◌∙◌,
}
use disk_oriented_concurrenc.TablePage.{
  TablePage, returns, mark_delete, rollback_delete, apply_delete, shift_offsets, get_tuple, move,
  word, is_deleted, set_deleted_flag,
}
use disk_oriented_concurrenc.TablePage.Layout.{real_size, IsUsed, Layout, get_tuple_agree}
use disk_oriented_concurrenc.TablePage.Bytes.{load_agree, moved_below, move_outside}

-- The page after the tuple in a slot was marked.
pub record Marks (t t' : TablePage) (slot : ℕ) : Type 0 where
  pub layout : Layout t'
  pub hidden : get_tuple t' slot ≡ none
  pub others : (j : ℕ) → j ≢ slot → get_tuple t' j ≡ get_tuple t j
  pub undo : rollback_delete t' slot ≡ returns t

readable :
    (t : TablePage) (slot : ℕ)
    → is_some (get_tuple t slot) ≡ true
    → IsUsed t slot × (is_deleted (t.tuple_size slot) ≡ false)
unfolding get_tuple
readable t slot h = ground arith

update_back : (f : ℕ → ℕ) (i v w : ℕ) → f i ≡ w → update (update f i v) i w ≡ f
update_back f i v w e = fun_ext λ q. ground arith

-- On a page within its bounds `MarkDelete` succeeds exactly on a slot that can be read. The slot then
-- reads as none, the others as before, the page stays within its bounds, and `RollbackDelete` gives
-- the page back as it was; without success nothing changes.
pub mark_delete-Marks :
    (t : TablePage) (slot : ℕ)
    → Layout t
    → ((mark_delete t slot).1 ≡ is_some (get_tuple t slot))
      × (is_some (get_tuple t slot) ≡ true → Marks t (mark_delete t slot).0 slot)
      × (is_some (get_tuple t slot) ≡ false → (mark_delete t slot).0 ≡ t)
unfolding mark_delete get_tuple rollback_delete
mark_delete-Marks t slot l = (
  ground arith,
  λ h.
      let (u, d) = readable t slot h in
      let run : (mark_delete t slot).0 ≡ record t {
        tuple_size = update t.tuple_size slot (set_deleted_flag (t.tuple_size slot));
      } =
        ground arith in
      record {
        layout = rw run (record {
          header = l.header;
          top = l.top;
          placed = λ i v. ground (arith, l.placed i, u, d);
          apart = λ i j ne v w. ground (arith, l.apart i j ne, u, d);
        });
        hidden = ground arith;
        others = λ j ne. ground arith;
        undo = ground (arith, update_back t.tuple_size slot (set_deleted_flag (t.tuple_size slot)));
      },
  λ h. ground arith,
)

-- The page after the tuple in a slot was removed.
pub record Removes (t t' : TablePage) (slot : ℕ) : Type 0 where
  pub layout : Layout t'
  pub empty : t'.tuple_size slot ≡ 0
  pub others : (j : ℕ) → j ≢ slot → get_tuple t' j ≡ get_tuple t j
  pub space : t'.free_space_pointer ≡ t.free_space_pointer + real_size t slot

unfoldable removed : TablePage → ℕ → ℕ → ℕ → TablePage
unfolding move shift_offsets
removed t slot offset size =
    let p = t.free_space_pointer in
    let t' = record t {
      bytes = move t.bytes (p + size) p (offset - p);
      free_space_pointer = (p + size) % word;
      tuple_size = update t.tuple_size slot 0;
      tuple_offset = update t.tuple_offset slot 0;
    } in
    record t' { tuple_offset = shift_offsets t' offset size }

-- Where the tuple of another slot lies afterwards.
shift_offsets_lem :
    (t : TablePage) (slot j : ℕ)
    → Layout t
    → IsUsed t slot
    → IsUsed t j
    → j ≢ slot
    → ((t.tuple_offset j + real_size t j ≤ t.tuple_offset slot)
        × ((removed t slot (t.tuple_offset slot) (real_size t slot)).tuple_offset j
            ≡ t.tuple_offset j + real_size t slot))
      ⊎ ((t.tuple_offset slot + real_size t slot ≤ t.tuple_offset j)
          × ((removed t slot (t.tuple_offset slot) (real_size t slot)).tuple_offset j
              ≡ t.tuple_offset j))
unfolding removed shift_offsets
shift_offsets_lem t slot j l u v ne =
    ground (arith, l.placed slot u, l.placed j v, l.apart j slot ne v u)

abbrev removed_at : TablePage → ℕ → TablePage
removed_at t slot = removed t slot (t.tuple_offset slot) (real_size t slot)

-- A slot that is in use afterwards is another one, with the same size.
removed-IsUsed :
    (t : TablePage) (slot j : ℕ)
    → IsUsed (removed_at t slot) j
    → (j ≢ slot) × IsUsed t j × (real_size (removed_at t slot) j ≡ real_size t j)
unfolding removed
removed-IsUsed t slot j u = ground arith

removed-space :
    (t : TablePage) (slot : ℕ)
    → Layout t
    → IsUsed t slot
    → (removed_at t slot).free_space_pointer ≡ t.free_space_pointer + real_size t slot
unfolding removed
removed-space t slot l u = let p = l.placed slot u in omega (arith, p.0, p.1, l.top)

removed_count : (t : TablePage) (slot : ℕ) → (removed_at t slot).tuple_count ≡ t.tuple_count
unfolding removed
removed_count t slot = refl

removed-apart :
    (t : TablePage) (slot i j : ℕ)
    → Layout t
    → IsUsed t slot
    → i ≢ j
    → IsUsed (removed_at t slot) i
    → IsUsed (removed_at t slot) j
    → ((removed_at t slot).tuple_offset i + real_size (removed_at t slot) i
        ≤ (removed_at t slot).tuple_offset j)
      ⊎ ((removed_at t slot).tuple_offset j + real_size (removed_at t slot) j
          ≤ (removed_at t slot).tuple_offset i)
removed-apart t slot i j l u ne v w =
    let (a, x, e) = removed-IsUsed t slot i v in
    let (b, y, f) = removed-IsUsed t slot j w in
    ground (
      arith,
      e,
      f,
      l.apart i j ne x y,
      shift_offsets_lem t slot i l u x a,
      shift_offsets_lem t slot j l u y b,
    )

removed-Layout : (t : TablePage) (slot : ℕ) → Layout t → IsUsed t slot → Layout (removed_at t slot)
removed-Layout t slot l u =
    let p = l.placed slot u in
    let f = removed-space t slot l u in
    record {
      header = omega (arith, l.header, f, removed_count t slot);
      top = omega (arith, f, p.0, p.1);
      placed = λ i v.
          let (a, x, e) = removed-IsUsed t slot i v in
          let q = l.placed i x in
          let s = shift_offsets_lem t slot i l u x a in
          (ground (arith, f, q, s, p), ground (arith, f, q, s, p, e), ground (arith, q, e));
      apart = λ i j ne v w. removed-apart t slot i j l u ne v w;
    }

-- The bytes of another slot's tuple.
removed-bytes :
    (t : TablePage) (slot j k : ℕ)
    → Layout t
    → IsUsed t slot
    → IsUsed t j
    → j ≢ slot
    → k < real_size t j
    → (removed_at t slot).bytes ((removed_at t slot).tuple_offset j + k)
      ≡ t.bytes (t.tuple_offset j + k)
unfolding removed
removed-bytes t slot j k l u v ne h =
    let o = t.tuple_offset slot in
    let p = t.free_space_pointer in
    let to = p + real_size t slot in
    let x = t.tuple_offset j + k in
    let q = l.placed j v in
    let r = l.placed slot u in
    elim (shift_offsets_lem t slot j l u v ne) [
      | inl (le, e) ↦
          moved_below t.bytes to p o x _ (omega (arith, q.0)) (omega (arith, le, h))
            (omega (arith, e))
      | inr (le, e) ↦
          move_outside t.bytes to p (o - p) _ (inr (omega (arith, le, e, r.0)))
          ∙ ap t.bytes (ap (λ z. z + k) e)
    ]

removed-others :
    (t : TablePage) (slot j : ℕ)
    → Layout t
    → IsUsed t slot
    → j ≢ slot
    → get_tuple (removed_at t slot) j ≡ get_tuple t j
unfolding removed
removed-others t slot j l u ne = get_tuple_agree t (removed_at t slot) j refl (ground arith) (λ v d.
    load_agree (removed_at t slot).bytes t.bytes (t.tuple_size j) _ (t.tuple_offset j)
      (λ k h. removed-bytes t slot j k l u v ne (ground (arith, d))))

-- On a page within its bounds, `ApplyDelete` of a slot in use returns: the slot becomes empty, every
-- other slot reads as before although tuples have moved, the page stays within its bounds, and the
-- free space grows by the size of the tuple, whether it was marked as deleted or not.
pub apply_delete-Removes :
    (t : TablePage) (slot : ℕ)
    → Layout t
    → IsUsed t slot
    → (t' : TablePage) × (apply_delete t slot ≡ returns t') × Removes t t' slot
unfolding apply_delete removed
apply_delete-Removes t slot l u =
    let p = l.placed slot u in
    (
      removed_at t slot,
      ground (arith, p, u),
      record {
        layout = removed-Layout t slot l u;
        empty = ground arith;
        others = λ j ne. removed-others t slot j l u ne;
        space = removed-space t slot l u;
      },
    )
