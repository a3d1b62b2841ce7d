-- ===== src/Memory/Replace.antt =====
-- `page_insert` of kernel/memory/memory.c on a page that is mapped: it removes the old mapping first.
use riem_os.Base.{
  ℕ, ◌+◌, ◌*◌, ◌^◌, ◌<◌, ◌≡◌, ◌≢◌, refl, ◌∙◌, sym, ap, inl, inr, arith, true, false, List, bit_or,
}
use riem_os.Base.Int.{ℤ, pos}
use riem_os.Memory.{
  Mem, walk_from, page_walk, evict, place_leaf, insert_walked, page_insert, page_remove,
}
use riem_os.Memory.Ram.{load64}
use riem_os.Memory.Pte.{table_index, pte2pa, pa2page, down_align, leaf_entry, mask_a, mask_d}
use riem_os.Memory.Pte.Fields.{perm_ad-lt}
use riem_os.Memory.Tree.{Shape, is_valid, IsPhysical, IsTree, entry, leaf_place, read_from}
use riem_os.Memory.Walk.{Reached, walk_from-Reached, translation}
use riem_os.Memory.Insert.{Inserted, place_leaf-Inserted}
use riem_os.Memory.Remove.{Removed, page_remove-Removed, free_after, less, IsUsed}

evict-page_remove :
    (stale : ℕ) (m : Mem) (root va old : ℕ)
    → old ≢ 0
    → is_valid (load64 m.ram old) ≡ true
    → evict stale m root va old ≡ (page_remove stale m root va).1
unfolding evict
evict-page_remove stale m root va old ne v = ground arith

-- The first mapping is removed, and what is left of it is mapped anew.
abbrev pub Replaced : ℕ → Mem → Shape → List ℕ → ℕ → ℕ → ℤ × Mem → Type 0
Replaced root m shape free va e r =
    (m1 : Mem) × Removed root m shape free va (pos 0, m1)
    × Inserted root m1 (free_after m (pa2page (pte2pa (translation m root va))) free) va e r

Removed-result :
    (root : ℕ) (m : Mem) (shape : Shape) (free : List ℕ) (va : ℕ) (r : ℤ × Mem)
    → Removed root m shape free va r
    → Removed root m shape free va (pos 0, r.1)
Removed-result root m shape free va (r, m1) (e, tree, gone, others, count) =
    (refl, tree, gone, others, count)

-- Where the page tables form a tree: on the address of a page that is mapped to a frame of the
-- physical memory, which is no page table and not free should its count fall to 0, `page_insert`
-- does what `page_remove` does there, and then maps the new frame.
pub page_insert-Replaced :
    (stale root : ℕ) (m : Mem) (shape : Shape) (free : List ℕ) (va pa perm : ℕ)
    → IsTree root m shape free
    → down_align va ≡ va
    → pa < 2 ^ 56
    → perm < 2 ^ 10
    → is_valid (translation m root va) ≡ true
    → IsPhysical (pte2pa (translation m root va))
    → (less m (pa2page (pte2pa (translation m root va))) ≡ 0
        → IsUsed shape free (pa2page (pte2pa (translation m root va))))
    → Replaced root m shape free va
        (leaf_entry (down_align pa) (bit_or perm (mask_a + mask_d)))
        (page_insert stale m root va pa perm)
page_insert-Replaced stale root m shape free va pa perm tree page wide few v inside used = (
  (page_remove stale m root va).1,
  gone,
  rw (enters (walk_from-Reached root m shape free tree va 2 root 0 tree.rooted)) (
      place_leaf-Inserted root (page_remove stale m root va).1 shape
        (free_after m (pa2page (pte2pa (translation m root va))) free) va pa
        (bit_or perm (mask_a + mask_d)) wide (perm_ad-lt perm few) gone.1),
)
  where
    gone : Removed root m shape free va (pos 0, (page_remove stale m root va).1)
    gone =
        Removed-result root m shape free va (page_remove stale m root va)
          (page_remove-Removed stale root m shape free va tree v inside used)

    enters :
        Reached m shape 2 root 0 va (walk_from 2 false va root m)
        → page_insert stale m root va pa perm
          ≡ place_leaf
              (down_align pa)
              (bit_or perm (mask_a + mask_d))
              (page_walk (page_remove stale m root va).1 root va true)
    enters (inl (w, z)) = absurd (ground (arith, none_there z))
      where
        none_there : read_from 2 m.ram va root ≡ 0 → translation m root va ≡ 0
        none_there z = unfold translation in z
    enters (inr (t, w, leaf, z)) =
        unfold page_insert page_walk in
        ap
          (λ x.
            insert_walked stale root x (down_align pa) (bit_or perm (mask_a + mask_d))
              (walk_from 2 false x root m))
          page
        ∙ ap (insert_walked stale root va (down_align pa) (bit_or perm (mask_a + mask_d))) w
        ∙ ap
            (λ e.
              place_leaf (down_align pa) (bit_or perm (mask_a + mask_d))
                (walk_from 2 true va root e))
            (evict-page_remove stale m root va (t + 8 * table_index va 0)
              (ground (arith, tree.placed t 0 (leaf_place 2 0 va) leaf))
              (ap is_valid (sym (at_entry z)) ∙ v))
      where
        at_entry :
            read_from 2 m.ram va root ≡ entry m.ram t (table_index va 0)
            → translation m root va ≡ entry m.ram t (table_index va 0)
        at_entry z = unfold translation in z
