-- ===== src/Memory/Remove.antt =====
-- `page_remove` of kernel/memory/memory.c clears one translation and gives the frame back when its
-- count falls to 0.
use riem_os.Base.{
  ℕ, ◌+◌, ◌-◌, ◌*◌, ◌%◌, ◌^◌, ◌≤◌, ◌<◌, ◌≡◌, ◌≢◌, refl, ◌∙◌, ap, ◌⊎◌, inl, inr, arith, true, false,
  Option, none, some, List, ◌∷◌, mem, if◌then◌else◌, ◌==◌, Bool-cases, ==_ne, ==_refl, ◌||◌, leb,
  ltb,
}
use riem_os.Base.Int.{ℤ, pos, neg}
use riem_os.Queue.Chain.{IsList}
use riem_os.Queue.Insert.{insert_head-cons}
use riem_os.Memory.{Mem, found, walk_from, page_lookup, page_remove, page_free, ref_down, stored_or}
use riem_os.Memory.Ram.{store64}
use riem_os.Memory.Pte.{
  table_index, pte2pa, pa2page, page2pa, physical_address_base, physical_memory_top,
}
use riem_os.Memory.Tree.{Shape, entry, is_valid, IsPhysical, IsTree, leaf_place}
use riem_os.Memory.Tree.Store.{table_index-lt}
use riem_os.Memory.Walk.{translation}
use riem_os.Memory.Leaf.{vpn, set-IsTree, set-translation_self, set-translation_other}
use riem_os.Memory.Lookup.{LooksUp, page_lookup-LooksUp}

-- The rest of `page_remove` behind its lookup.
remove_from : ℕ → Mem → ℕ × Option ℕ → ℤ × Mem
remove_from stale m (pa, stored) =
    let pte = stored_or stored stale in
    if pte == 0
    then (neg 1, m)
    else if ltb pa physical_address_base || leb physical_memory_top pa
    then (neg 1, m)
    else let page = pa2page pa in
      let freed = page_free (ref_down m page) page in
      (pos 0, record freed { ram = store64 freed.ram pte 0 })

page_remove_lem :
    (stale : ℕ) (m : Mem) (root va : ℕ)
    → page_remove stale m root va ≡ remove_from stale m (page_lookup m root va)
unfolding page_remove remove_from
page_remove_lem stale m root va = refl

-- The memory when the entry at `slot`, which mapped `page`, is gone.
abbrev pub removed : Mem → ℕ → ℕ → Mem
removed m page slot =
    let freed = page_free (ref_down m page) page in record freed { ram = store64 freed.ram slot 0 }

-- The count of a page after `ref--`.
abbrev pub less : Mem → ℕ → ℕ
less m page = (m.ref page + 2 ^ 32 - 1) % 2 ^ 32

remove_from-physical :
    (stale : ℕ) (m : Mem) (pa slot : ℕ)
    → slot ≢ 0
    → IsPhysical pa
    → remove_from stale m (pa, some slot) ≡ (pos 0, removed m (pa2page pa) slot)
unfolding remove_from
remove_from-physical stale m pa slot ne inside = rw (==_ne slot 0 ne) (rw bounds refl)
  where
    bounds : (ltb pa physical_address_base || leb physical_memory_top pa) ≡ false
    bounds = ground arith

-- Where the page tables form a tree and there is no valid translation, or one to an address
-- outside the physical memory, `page_remove` returns -1 and changes nothing, whatever its
-- uninitialised pointer holds.
pub page_remove-none :
    (stale : ℕ) (m : Mem) (root va : ℕ) (shape : Shape) (free : List ℕ)
    → IsTree root m shape free
    → (is_valid (translation m root va) ≡ false)
      ⊎ (pte2pa (translation m root va) < physical_address_base)
      ⊎ (physical_memory_top ≤ pte2pa (translation m root va))
    → page_remove stale m root va ≡ (neg 1, m)
page_remove-none stale m root va shape free tree h =
    page_remove_lem stale m root va ∙ go (page_lookup-LooksUp root m va shape free tree) h
  where
    go :
        LooksUp root m shape va (page_lookup m root va)
        → (is_valid (translation m root va) ≡ false)
          ⊎ (pte2pa (translation m root va) < physical_address_base)
          ⊎ (physical_memory_top ≤ pte2pa (translation m root va))
        → remove_from stale m (page_lookup m root va) ≡ (neg 1, m)
    go (inl (v, e)) h = rw e (unfold remove_from in ground arith)
    go (inr (t, v, e, _, _, _)) (inl h) = absurd (ground arith)
    go (inr (t, v, e, _, _, _)) (inr (inl h)) = rw e (unfold remove_from in ground arith)
    go (inr (t, v, e, _, _, _)) (inr (inr h)) = rw e (unfold remove_from in ground arith)

-- The free pages afterwards: the frame joins them when its count has come to 0.
abbrev pub free_after : Mem → ℕ → List ℕ → List ℕ
free_after m page free = if ltb 0 (less m page) then free else page ∷ free

-- The frame is no page table and not free: only such a frame may come to be given back.
abbrev pub IsUsed : Shape → List ℕ → ℕ → Type 0
IsUsed shape free page = (mem page free ≡ false) × (shape (page2pa page) ≡ none)

removed-links :
    (m : Mem) (page slot : ℕ) (free : List ℕ)
    → IsList m.links free
    → (less m page ≡ 0 → mem page free ≡ false)
    → IsList (removed m page slot).links (free_after m page free)
unfolding page_free
removed-links m page slot free l out = elim (Bool-cases (ltb 0 (less m page))) [
  | inl used ↦ rw (==_refl page) (rw used l)
  | inr unused ↦
      rw (==_refl page) (rw unused (insert_head-cons m.links free page l (out (ground arith))))
]

removed-ram : (m : Mem) (page slot : ℕ) → (removed m page slot).ram ≡ store64 m.ram slot 0
unfolding page_free
removed-ram m page slot = ground arith

-- What `page_remove` does to a mapped page.
abbrev pub Removed : ℕ → Mem → Shape → List ℕ → ℕ → ℤ × Mem → Type 0
Removed root m shape free va (r, m') =
    let page = pa2page (pte2pa (translation m root va)) in
    (r ≡ pos 0)
    × IsTree root m' shape (free_after m page free)
    × (translation m' root va ≡ 0)
    × ((vb : ℕ) → vpn va ≢ vpn vb → translation m' root vb ≡ translation m root vb)
    × (m'.ref page ≡ less m page)

-- The walk's slot of a mapped page.
abbrev pub IsSlot : ℕ → Mem → Shape → ℕ → ℕ → Type 0
IsSlot root m shape va t =
    (shape t ≡ some (0, leaf_place 2 0 va))
    × (entry m.ram t (table_index va 0) ≡ translation m root va)
    × (walk_from 2 false va root m ≡ found (t + 8 * table_index va 0) m)

module _ (root : ℕ) (m : Mem) (shape : Shape) (free : List ℕ) (tree : IsTree root m shape free)
    (va t : ℕ) (slot : IsSlot root m shape va t) (v : is_valid (translation m root va) ≡ true)
    (inside : IsPhysical (pte2pa (translation m root va)))
    (used : less m (pa2page (pte2pa (translation m root va))) ≡ 0
      → IsUsed shape free (pa2page (pte2pa (translation m root va)))) where
  abbrev frame : ℕ
  frame = pa2page (pte2pa (translation m root va))

  in_pool : frame < 0x8000
  in_pool = omega (arith, inside)

  after_pages :
      (n : ℕ) → mem n (free_after m frame free) ≡ true → (n < 0x8000) × (shape (page2pa n) ≡ none)
  after_pages n h = elim (Bool-cases (ltb 0 (less m frame))) [
    | inl counted ↦ tree.pages n (ground (arith, counted, h))
    | inr unused ↦ elim (Bool-cases (n == frame)) [
      | inl e ↦
          let same : n ≡ frame = ground arith in
          (omega (arith, in_pool, same), ap (λ k. shape (page2pa k)) same ∙ (used (ground arith)).1)
      | inr e ↦ tree.pages n (ground (arith, unused, h))
    ]
  ]

  removed-IsTree :
      IsTree root (removed m frame (t + 8 * table_index va 0)) shape (free_after m frame free)
  removed-IsTree =
      set-IsTree root m (removed m frame (t + 8 * table_index va 0)) shape free tree t
        (leaf_place 2 0 va) (table_index va 0) 0 slot.0 (table_index-lt va 0) (omega arith)
        (removed-ram m frame (t + 8 * table_index va 0)) (free_after m frame free)
        (removed-links m frame (t + 8 * table_index va 0) free tree.links (λ z. (used z).0))
        after_pages

  removed-Removed : Removed root m shape free va (pos 0, removed m frame (t + 8 * table_index va 0))
  removed-Removed = (
    refl,
    removed-IsTree,
    set-translation_self root m m' shape free tree t (leaf_place 2 0 va) (table_index va 0) 0 slot.0
        (table_index-lt va 0) (omega arith) (removed-ram m frame (t + 8 * table_index va 0))
        (free_after m frame free) removed-IsTree va refl refl slot.2,
    set-translation_other root m m' shape free tree t (leaf_place 2 0 va) (table_index va 0) 0
        slot.0 (table_index-lt va 0) (omega arith) (removed-ram m frame (t + 8 * table_index va 0))
        (free_after m frame free) removed-IsTree va refl refl,
    unfold page_free in ground arith,
  )
    where
      m' : Mem
      m' = removed m frame (t + 8 * table_index va 0)

-- Where the page tables form a tree, a page is mapped to a frame of the physical memory, and the
-- frame, should its count fall to 0, is no page table and not free, `page_remove` returns 0, clears
-- that translation and no other, counts the frame down, and gives it back exactly when the count
-- has come to 0. The tables stay a tree.
pub page_remove-Removed :
    (stale root : ℕ) (m : Mem) (shape : Shape) (free : List ℕ) (va : ℕ)
    → IsTree root m shape free
    → is_valid (translation m root va) ≡ true
    → IsPhysical (pte2pa (translation m root va))
    → (less m (pa2page (pte2pa (translation m root va))) ≡ 0
        → IsUsed shape free (pa2page (pte2pa (translation m root va))))
    → Removed root m shape free va (page_remove stale m root va)
page_remove-Removed stale root m shape free va tree v inside used =
    rw (page_remove_lem stale m root va) (go (page_lookup-LooksUp root m va shape free tree))
  where
    go :
        LooksUp root m shape va (page_lookup m root va)
        → Removed root m shape free va (remove_from stale m (page_lookup m root va))
    go (inl (u, e)) = absurd (ground arith)
    go (inr (t, u, e, leaf, same, at)) =
        rw
          (
            e,
            remove_from-physical stale m (pte2pa (translation m root va)) (t + 8 * table_index va 0)
                (omega (arith, tree.placed t 0 (leaf_place 2 0 va) leaf)) inside,
          )
          (removed-Removed root m shape free tree va t (leaf, same, at) v inside used)
