-- ===== src/Memory/Insert.antt =====
-- `page_insert` of kernel/memory/memory.c updates the address space at one page.
use riem_os.Base.{
  ℕ, ◌+◌, ◌*◌, ◌^◌, ◌<◌, ◌≡◌, ◌≢◌, refl, ◌∙◌, sym, ap, ◌⊎◌, inl, inr, arith, true, false, some,
  List, [], mem, bit_or,
}
use riem_os.Base.Int.{ℤ, pos, neg}
use riem_os.Memory.{
  Mem, found, walk_from, page_walk, evict, set_leaf, place_leaf, insert_walked, page_insert,
  e_no_mem,
}
use riem_os.Memory.Ram.{load64, store64}
use riem_os.Memory.Pte.{table_index, pte2pa, down_align, leaf_entry, mask_a, mask_d}
use riem_os.Memory.Pte.Fields.{leaf_entry-fields, perm_ad-lt}
use riem_os.Memory.Tree.{Shape, is_valid, IsTree, leaf_place}
use riem_os.Memory.Tree.Store.{table_index-lt}
use riem_os.Memory.Tree.Walks.{Grown, WalkedTo, walk_from-WalkedTo}
use riem_os.Memory.Walk.{Reached, walk_from-Reached, translation}
use riem_os.Memory.Leaf.{vpn, set-IsTree, set-translation_self, set-translation_other}
use riem_os.Memory.Lookup.{translation-vpn}

-- What `page_insert` comes to, from memory `m` with no valid translation at `va`.
abbrev pub Inserted : ℕ → Mem → List ℕ → ℕ → ℕ → ℤ × Mem → Type 0
Inserted root m free va e (r, m') =
    (shape' : Shape) × (free' : List ℕ) × IsTree root m' shape' free'
    × ((n : ℕ) → mem n free ≡ false → mem n free' ≡ false)
    × (((r ≡ neg e_no_mem)
          × (free' ≡ [])
          × ((vb : ℕ) → translation m' root vb ≡ translation m root vb))
        ⊎ ((r ≡ pos 0)
            × (translation m' root va ≡ e)
            × ((vb : ℕ) → vpn va ≢ vpn vb → translation m' root vb ≡ translation m root vb)))

set_leaf-ram :
    (m : Mem) (pte pa perm : ℕ)
    → (set_leaf m pte pa perm).ram ≡ store64 m.ram pte (leaf_entry pa perm)
unfolding set_leaf
set_leaf-ram m pte pa perm = ground arith

set_leaf-links : (m : Mem) (pte pa perm : ℕ) → (set_leaf m pte pa perm).links ≡ m.links
unfolding set_leaf
set_leaf-links m pte pa perm = ground arith

module _ (root : ℕ) (m : Mem) (shape : Shape) (free : List ℕ) (va pa perm : ℕ) (wide : pa < 2 ^ 56)
    (few : perm < 2 ^ 10) where
  abbrev new_entry : ℕ
  new_entry = leaf_entry (down_align pa) perm

  fields : (is_valid new_entry ≡ true) × (pte2pa new_entry ≡ down_align pa) × (new_entry < 2 ^ 64)
  fields =
      let f = leaf_entry-fields (down_align pa) perm (omega arith) few in
      (f.0, omega (arith, f.1), omega (arith, f.3))

  -- At the slot that the walk reached, the store makes the new translation.
  place_found :
      (m2 : Mem) (shape2 : Shape) (free2 : List ℕ) (t : ℕ)
      → Grown root m shape free m2 shape2 free2
      → shape2 t ≡ some (0, leaf_place 2 0 va)
      → walk_from 2 false va root m2 ≡ found (t + 8 * table_index va 0) m2
      → shape root ≡ some (2, 0)
      → Inserted root m free va new_entry
          (pos 0, set_leaf m2 (t + 8 * table_index va 0) (down_align pa) perm)
  place_found m2 shape2 free2 t g leaf at rooted = (
    shape2,
    free2,
    tree',
    g.fewer,
    inr (
      refl,
      set-translation_self root m2 m3 shape2 free2 g.tree t (leaf_place 2 0 va) (table_index va 0)
          new_entry leaf (table_index-lt va 0) fields.2 stored free2 tree' va refl refl at,
      λ vb ne.
          set-translation_other root m2 m3 shape2 free2 g.tree t (leaf_place 2 0 va)
            (table_index va 0) new_entry leaf (table_index-lt va 0) fields.2 stored free2 tree' va
            refl refl vb ne
          ∙ (unfold translation in g.reads 2 root 0 vb rooted),
    ),
  )
    where
      m3 : Mem
      m3 = set_leaf m2 (t + 8 * table_index va 0) (down_align pa) perm

      stored : m3.ram ≡ store64 m2.ram (t + 8 * table_index va 0) new_entry
      stored = set_leaf-ram m2 (t + 8 * table_index va 0) (down_align pa) perm

      tree' : IsTree root m3 shape2 free2
      tree' =
          set-IsTree root m2 m3 shape2 free2 g.tree t (leaf_place 2 0 va) (table_index va 0)
            new_entry leaf (table_index-lt va 0) fields.2 stored free2
            (rw (set_leaf-links m2 (t + 8 * table_index va 0) (down_align pa) perm) g.tree.links)
            g.tree.pages

  pub place_leaf-Inserted :
      IsTree root m shape free
      → Inserted root m free va new_entry
          (place_leaf (down_align pa) perm (page_walk m root va true))
  unfolding page_walk
  place_leaf-Inserted tree = go (walk_from-WalkedTo root va 2 m shape free root 0 tree tree.rooted)
    where
      go :
          WalkedTo root m shape free 2 root 0 va (walk_from 2 true va root m)
          → Inserted root m free va new_entry
              (place_leaf (down_align pa) perm (walk_from 2 true va root m))
      go (m2, shape2, free2, g, inl (w, none_left)) = rw w (
        shape2,
        free2,
        g.tree,
        g.fewer,
        inl (refl, none_left, λ vb. unfold translation in g.reads 2 root 0 vb tree.rooted),
      )
      go (m2, shape2, free2, g, inr (t, w, leaf, same, again)) =
          rw w (place_found m2 shape2 free2 t g leaf again tree.rooted)

-- Nothing is evicted where the walk found no valid entry.
evict-none :
    (stale : ℕ) (m : Mem) (root va old : ℕ)
    → (old ≡ 0) ⊎ (is_valid (load64 m.ram old) ≡ false)
    → evict stale m root va old ≡ m
unfolding evict
evict-none stale m root va old (inl e) = rw e refl
evict-none stale m root va old (inr e) = ground arith

-- Where the page tables form a tree, for any physical address of 56 bits and permissions of 10
-- bits: on a page that has no valid translation,
-- `page_insert` maps the frame with its permissions, the accessed and dirty bits and PTE_V, and
-- changes no other translation; or no page was left for a table, it returns -E_NO_MEM, and no
-- translation has changed. The tables stay a tree.
pub page_insert-Inserted :
    (stale root : ℕ) (m : Mem) (shape : Shape) (free : List ℕ) (va pa perm : ℕ)
    → IsTree root m shape free
    → pa < 2 ^ 56
    → perm < 2 ^ 10
    → is_valid (translation m root va) ≡ false
    → Inserted root m free va
        (leaf_entry (down_align pa) (bit_or perm (mask_a + mask_d)))
        (page_insert stale m root va pa perm)
unfolding page_insert page_walk
page_insert-Inserted stale root m shape free va pa perm tree wide few unset =
    whole (go (walk_from-Reached root m shape free tree (down_align va) 2 root 0 tree.rooted))
  where
    perm' : ℕ
    perm' = bit_or perm (mask_a + mask_d)

    unset' : is_valid (translation m root (down_align va)) ≡ false
    unset' = ap is_valid (translation-vpn m root (down_align va) va (omega arith)) ∙ unset

    behind :
        (old : ℕ)
        → (old ≡ 0) ⊎ (is_valid (load64 m.ram old) ≡ false)
        → Inserted root m free
            (down_align va)
            (leaf_entry (down_align pa) perm')
            (insert_walked stale root (down_align va) (down_align pa) perm' (found old m))
    behind old e = rw (evict-none stale m root (down_align va) old e) (
        place_leaf-Inserted root m shape free (down_align va) pa perm' wide (perm_ad-lt perm few)
          tree)

    go :
        Reached m shape 2 root 0 (down_align va) (walk_from 2 false (down_align va) root m)
        → Inserted root m free
            (down_align va)
            (leaf_entry (down_align pa) perm')
            (page_insert stale m root va pa perm)
    go (inl (w, z)) = rw w (behind 0 (inl refl))
    go (inr (t, w, leaf, z)) = rw w (
        behind (t + 8 * table_index (down_align va) 0)
          (inr (unfold translation in ap is_valid (sym z) ∙ unset')))

    whole :
        Inserted root m free
          (down_align va)
          (leaf_entry (down_align pa) perm')
          (page_insert stale m root va pa perm)
        → Inserted root m free va
            (leaf_entry (down_align pa) perm')
            (page_insert stale m root va pa perm)
    whole (shape', free', tree', fewer, inl r) = (shape', free', tree', fewer, inl r)
    whole (shape', free', tree', fewer, inr (r, self, others)) = (
      shape',
      free',
      tree',
      fewer,
      inr (
        r,
        translation-vpn _ root va (down_align va) (omega arith) ∙ self,
        λ vb ne. others vb (λ e. ne (omega (arith, e))),
      ),
    )
