-- ===== src/Memory.antt =====
-- kernel/memory/memory.c and include/memory.h: physical memory, page table entries, physical pages
-- and page tables. The functions run on one record of the globals; NULL is 0.
pub mod Ram
pub mod Pte
pub mod Pages
pub mod Init
pub mod Walk
pub mod Leaf
pub mod Lookup
pub mod User
pub mod Map
pub mod Fresh
pub mod Cells
pub mod Across
pub mod Same
pub mod Taken
pub mod Replace
pub mod Insert
pub mod Remove
pub mod Tree
use riem_os.Base.{
  ℕ, zero, suc, ◌+◌, ◌-◌, ◌*◌, ◌/◌, ◌%◌, ◌^◌, Bool, true, false, ◌||◌, ◌&&◌, not, Option, none,
  some, ltb, leb, ◌==◌, if◌then◌else◌, update, bit_or,
}
use riem_os.Base.Int.{ℤ, pos, neg}
use riem_os.Queue.{Lists, init, insert_head, unlink}
use riem_os.Memory.Ram.{Bytes, load64, store64, bzero}
use riem_os.Memory.Pte.{
  page_size, physical_address_base, physical_memory_top, mask_a, mask_d, pte_v, has_bit, down_align,
  page2pa, pa2page, pa2ppn, table_index, pte2pa, leaf_entry, table_entry,
}

-- `freePages` with the link fields of `pages`, `pages[i].ref`, and the physical memory.
pub record Mem : Type 0 where
  pub ram : Bytes
  pub links : Lists
  pub ref : ℕ → ℕ

abbrev pub e_no_mem : ℕ
e_no_mem = 4

-- `ref++` and `ref--` on a u_int
abbrev pub set_ref : Mem → ℕ → ℕ → Mem
set_ref m page v = record m { ref = update m.ref page v }

abbrev pub ref_up : Mem → ℕ → Mem
ref_up m page = set_ref m page ((m.ref page + 1) % 2 ^ 32)

abbrev pub ref_down : Mem → ℕ → Mem
ref_down m page = set_ref m page ((m.ref page + 2 ^ 32 - 1) % 2 ^ 32)

abbrev pub push_free : Mem → ℕ → Mem
push_free m page = record m { links = insert_head m.links page }

-- The loops of `pages_init`: `n` pages from `i` on.
unfoldable pub reserve_pages : ℕ → ℕ → Mem → Mem
reserve_pages zero i m = m
reserve_pages (suc n) i m = reserve_pages n (i + 1) (set_ref m i 1)

unfoldable pub release_pages : ℕ → ℕ → Mem → Mem
release_pages zero i m = m
release_pages (suc n) i m = release_pages n (i + 1) (push_free (set_ref m i 0) i)

unfoldable pub pages_init : ℕ → Mem → Mem
unfolding reserve_pages release_pages init
pages_init kernel_end m =
    let used = pa2ppn kernel_end in
    let reserved = reserve_pages used 0 m in
    let empty = record reserved { links = init reserved.links } in
    release_pages (pa2ppn physical_memory_top - used) used empty

abbrev pub alloc_first : Mem → Option ℕ → Option (ℕ × Mem)
alloc_first m none = none
alloc_first m (some page) =
    some
      (page, record m { links = unlink m.links page; ram = bzero m.ram (page2pa page) page_size })

-- `none` is -E_NO_MEM, with `*pp = NULL` and nothing changed.
unfoldable pub page_alloc : Mem → Option (ℕ × Mem)
page_alloc m = alloc_first m m.links.lh_first

unfoldable pub page_free : Mem → ℕ → Mem
page_free m page = if ltb 0 (m.ref page) then m else push_free m page

unfoldable pub page_ref_decrease : Mem → ℕ → Mem
page_ref_decrease m pa =
    let page = pa2page pa in
    let down = ref_down m page in if down.ref page == 0 then push_free down page else down

unfoldable pub pgdir_alloc : Mem → Option (ℕ × Mem)
pgdir_alloc m = elim (page_alloc m) [ none ↦ none | some (page, m') ↦ some (page, ref_up m' page) ]

-- What `page_walk` returns: 0 with `*pte` set (to NULL where a table is missing), or -E_NO_MEM.
pub data Walked : Type 0 where
  found : ℕ → Mem → Walked
  no_mem : Mem → Walked

-- One round of its loop: the next table; or a table is missing and is not wanted, or cannot be had.
pub data Next : Type 0 where
  table : ℕ → Mem → Next
  missing : Next
  exhausted : Next

-- The round that adds a table at `slot`.
abbrev pub add_table : ℕ → Option (ℕ × Mem) → Next
add_table slot none = exhausted
add_table slot (some (page, m)) =
    let stored = record m { ram = store64 m.ram slot (table_entry page) } in
    let counted = ref_up stored page in table (pte2pa (load64 counted.ram slot)) counted

unfoldable pub next_table : Bool → ℕ → Mem → Next
next_table create slot m =
    if has_bit pte_v (load64 m.ram slot)
    then table (pte2pa (load64 m.ram slot)) m
    else if create
    then add_table slot (page_alloc m)
    else missing

-- The loop from `level` down to 1, and `*pte = addr + GET_PAGE_TABLE_INDEX(va, 0)` behind it.
unfoldable pub walk_from : ℕ → Bool → ℕ → ℕ → Mem → Walked
walk_from zero create va addr m = found (addr + 8 * table_index va 0) m
walk_from (suc level) create va addr m =
    elim (next_table create (addr + 8 * table_index va (suc level)) m) [
      | table next m' ↦ walk_from level create va next m'
      | missing ↦ found 0 m
      | exhausted ↦ no_mem m
    ]

unfoldable pub page_walk : Mem → ℕ → ℕ → Bool → Walked
unfolding walk_from
page_walk m pgdir va create = walk_from 2 create va pgdir m

-- `page_lookup` returns a physical address, 0 if there is none, and what it stores through `pte`,
-- `none` where it leaves that alone.
abbrev pub lookup_at : Bytes → ℕ → ℕ × Option ℕ
lookup_at ram pte =
    if pte == 0 || not (has_bit pte_v (load64 ram pte))
    then (0, none)
    else (pte2pa (load64 ram pte), some pte)

unfoldable pub page_lookup : Mem → ℕ → ℕ → ℕ × Option ℕ
page_lookup m pgdir va = elim (page_walk m pgdir va false) [
  | found pte m' ↦ lookup_at m'.ram pte
  | no_mem m' ↦ (0, none)
]

abbrev pub stored_or : Option ℕ → ℕ → ℕ
stored_or none before = before
stored_or (some pte) before = pte

-- `stale` is what the uninitialised local `pte` holds.
unfoldable pub page_remove : ℕ → Mem → ℕ → ℕ → ℤ × Mem
page_remove stale m pgdir va =
    let (pa, stored) = page_lookup m pgdir va in
    let pte = stored_or stored stale in
    if pte == 0
    then (neg 1, m)
    else if ltb pa physical_address_base || leb physical_memory_top pa
    then (neg 1, m)
    else let page = pa2page pa in
      let freed = page_free (ref_down m page) page in
      (pos 0, record freed { ram = store64 freed.ram pte 0 })

-- The call of `page_remove` in `page_insert`, under its condition.
unfoldable pub evict : ℕ → Mem → ℕ → ℕ → ℕ → Mem
evict stale m pgdir va pte =
    if not (pte == 0) && has_bit pte_v (load64 m.ram pte)
    then (page_remove stale m pgdir va).1
    else m

-- `*pte = PA2PTE(pa) | perm | PTE_V`, and the count of the page.
unfoldable pub set_leaf : Mem → ℕ → ℕ → ℕ → Mem
set_leaf m pte pa perm =
    let stored = record m { ram = store64 m.ram pte (leaf_entry pa perm) } in
    if leb physical_address_base pa && ltb pa physical_memory_top
    then ref_up stored (pa2page pa)
    else stored

-- `page_insert` behind its second walk.
abbrev pub place_leaf : ℕ → ℕ → Walked → ℤ × Mem
place_leaf pa perm (no_mem m) = (neg e_no_mem, m)
place_leaf pa perm (found pte m) = (pos 0, set_leaf m pte pa perm)

-- `page_insert` behind its first walk.
abbrev pub insert_walked : ℕ → ℕ → ℕ → ℕ → ℕ → Walked → ℤ × Mem
insert_walked stale pgdir va pa perm (no_mem m) = (neg e_no_mem, m)
insert_walked stale pgdir va pa perm (found old m) =
    place_leaf pa perm (page_walk (evict stale m pgdir va old) pgdir va true)

unfoldable pub page_insert : ℕ → Mem → ℕ → ℕ → ℕ → ℕ → ℤ × Mem
page_insert stale m pgdir va pa perm =
    insert_walked stale pgdir (down_align va) (down_align pa) (bit_or perm (mask_a + mask_d))
      (page_walk m pgdir (down_align va) false)
