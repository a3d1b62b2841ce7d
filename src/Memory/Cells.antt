-- ===== src/Memory/Cells.antt =====
-- `page_insert` of kernel/memory/memory.c keeps a memory of bytes one.
use riem_os.Base.{
  ℕ, zero, suc, ◌+◌, ◌*◌, ◌≡◌, sym, subst, arith, Bool, Bool-cases, true, false, not, ◌&&◌, ◌||◌,
  inl, inr, Option, none, some, ltb, leb, ◌==◌, if◌then◌else◌, bit_or,
}
use riem_os.Base.Int.{ℤ, pos, neg}
use riem_os.Memory.{
  Mem, Walked, found, no_mem, Next, table, missing, exhausted, alloc_first, page_alloc, add_table,
  next_table, walk_from, page_walk, page_free, page_remove, evict, set_leaf, place_leaf,
  insert_walked, page_insert, ref_down, page_lookup, stored_or,
}
use riem_os.Memory.Ram.{Bytes, store8, store32, store64, load64, bzero}
use riem_os.Memory.Ram.Loops.{bzero-zeroed}
use riem_os.Memory.Ram.Copy.{IsBytes}
use riem_os.Memory.Pte.{
  page2pa, page_size, pte_v, has_bit, table_index, table_entry, leaf_entry, pa2page, down_align,
  mask_a, mask_d, physical_address_base, physical_memory_top,
}

store64-IsBytes : (m : Bytes) (p v : ℕ) → IsBytes m → IsBytes (store64 m p v)
unfolding store64 store32 store8
store64-IsBytes m p v h q = ground (arith, h q)

bzero-IsBytes : (m : Bytes) (p n : ℕ) → IsBytes m → IsBytes (bzero m p n)
bzero-IsBytes m p n h = subst IsBytes (sym (bzero-zeroed m p n)) (λ q. ground (arith, h q))

abbrev AllocBytes : Option (ℕ × Mem) → Type 0
AllocBytes none = Unit
AllocBytes (some (page, m)) = IsBytes m.ram

page_alloc-IsBytes : (m : Mem) → IsBytes m.ram → AllocBytes (page_alloc m)
unfolding page_alloc
page_alloc-IsBytes m h = go m.links.lh_first
  where
    go : (o : Option ℕ) → AllocBytes (alloc_first m o)
    go none = tt
    go (some page) = bzero-IsBytes m.ram (page2pa page) page_size h

abbrev NextBytes : Next → Type 0
NextBytes (table t m) = IsBytes m.ram
NextBytes _ = Unit

next_table-IsBytes :
    (create : Bool) (slot : ℕ) (m : Mem) → IsBytes m.ram → NextBytes (next_table create slot m)
unfolding next_table
next_table-IsBytes create slot m h = elim (Bool-cases (has_bit pte_v (load64 m.ram slot))) [
  | inl valid ↦ rw valid h
  | inr invalid ↦ rw invalid (go create (page_alloc m) (page_alloc-IsBytes m h))
]
  where
    go :
        (b : Bool) (o : Option (ℕ × Mem))
        → AllocBytes o
        → NextBytes (if b then add_table slot o else missing)
    go false o k = tt
    go true none k = tt
    go true (some (page, m')) k = store64-IsBytes m'.ram slot (table_entry page) k

abbrev memory_of : Walked → Mem
memory_of (found p m) = m
memory_of (no_mem m) = m

walk_from-IsBytes :
    (l : ℕ) (create : Bool) (va a : ℕ) (m : Mem)
    → IsBytes m.ram
    → IsBytes (memory_of (walk_from l create va a m)).ram
unfolding walk_from
walk_from-IsBytes zero create va a m h = h
walk_from-IsBytes (suc l) create va a m h =
    go (next_table create (a + 8 * table_index va (suc l)) m)
      (next_table-IsBytes create (a + 8 * table_index va (suc l)) m h)
      (λ t m' k. walk_from-IsBytes l create va t m' k)
  where
    go :
        (w : Next)
        → NextBytes w
        → ((t : ℕ) (m' : Mem)
            → IsBytes m'.ram
            → IsBytes (memory_of (walk_from l create va t m')).ram)
        → IsBytes
            (memory_of (elim w [
              | table next m' ↦ walk_from l create va next m'
              | missing ↦ found 0 m
              | exhausted ↦ no_mem m
            ])).ram
    go (table t m') k rest = rest t m' k
    go missing k rest = h
    go exhausted k rest = h

page_free-ram : (m : Mem) (page : ℕ) → (page_free m page).ram ≡ m.ram
unfolding page_free
page_free-ram m page = ground arith

-- `page_remove` behind its lookup.
abbrev removed : Mem → ℕ → ℕ → ℤ × Mem
removed m pa pte =
    if pte == 0
    then (neg 1, m)
    else if ltb pa physical_address_base || leb physical_memory_top pa
    then (neg 1, m)
    else let page = pa2page pa in
      let freed = page_free (ref_down m page) page in
      (pos 0, record freed { ram = store64 freed.ram pte 0 })

page_remove-IsBytes :
    (stale : ℕ) (m : Mem) (pgdir va : ℕ)
    → IsBytes m.ram
    → IsBytes (page_remove stale m pgdir va).1.ram
unfolding page_remove
page_remove-IsBytes stale m pgdir va h =
    go (page_lookup m pgdir va).0 (stored_or (page_lookup m pgdir va).1 stale)
  where
    freed-IsBytes :
        (pa pte : ℕ)
        → IsBytes (store64 (page_free (ref_down m (pa2page pa)) (pa2page pa)).ram pte 0)
    freed-IsBytes pa pte =
        store64-IsBytes _ pte 0
          (subst IsBytes (sym (page_free-ram (ref_down m (pa2page pa)) (pa2page pa))) h)

    go : (pa pte : ℕ) → IsBytes (removed m pa pte).1.ram
    go pa pte = elim (Bool-cases (pte == 0)) [
      | inl null ↦ rw null h
      | inr set ↦ elim (Bool-cases (ltb pa physical_address_base || leb physical_memory_top pa)) [
        | inl outside ↦ rw set (rw outside h)
        | inr inside ↦ rw set (rw inside (freed-IsBytes pa pte))
      ]
    ]

evict-IsBytes :
    (stale : ℕ) (m : Mem) (pgdir va pte : ℕ)
    → IsBytes m.ram
    → IsBytes (evict stale m pgdir va pte).ram
unfolding evict
evict-IsBytes stale m pgdir va pte h =
    elim (Bool-cases (not (pte == 0) && has_bit pte_v (load64 m.ram pte))) [
      | inl there ↦ rw there (page_remove-IsBytes stale m pgdir va h)
      | inr free ↦ rw free h
    ]

set_leaf-IsBytes :
    (m : Mem) (pte pa perm : ℕ) → IsBytes m.ram → IsBytes (set_leaf m pte pa perm).ram
unfolding set_leaf
set_leaf-IsBytes m pte pa perm h =
    elim (Bool-cases (leb physical_address_base pa && ltb pa physical_memory_top)) [
      | inl inside ↦ rw inside (store64-IsBytes m.ram pte (leaf_entry pa perm) h)
      | inr outside ↦ rw outside (store64-IsBytes m.ram pte (leaf_entry pa perm) h)
    ]

-- `page_insert` keeps a memory of bytes one, on every branch.
pub page_insert-IsBytes :
    (stale : ℕ) (m : Mem) (pgdir va pa perm : ℕ)
    → IsBytes m.ram
    → IsBytes (page_insert stale m pgdir va pa perm).1.ram
unfolding page_insert page_walk
page_insert-IsBytes stale m pgdir va pa perm h =
    whole (walk_from 2 false (down_align va) pgdir m)
      (walk_from-IsBytes 2 false (down_align va) pgdir m h)
  where
    placed :
        (w : Walked)
        → IsBytes (memory_of w).ram
        → IsBytes (place_leaf (down_align pa) (bit_or perm (mask_a + mask_d)) w).1.ram
    placed (found pte t) k =
        set_leaf-IsBytes t pte (down_align pa) (bit_or perm (mask_a + mask_d)) k
    placed (no_mem t) k = k

    whole :
        (w : Walked)
        → IsBytes (memory_of w).ram
        → IsBytes
            (insert_walked stale pgdir
              (down_align va)
              (down_align pa)
              (bit_or perm (mask_a + mask_d))
              w).1.ram
    whole (no_mem t) k = k
    whole (found old t) k =
        placed (page_walk (evict stale t pgdir (down_align va) old) pgdir (down_align va) true) (
          walk_from-IsBytes 2 true (down_align va) pgdir (evict stale t pgdir (down_align va) old)
            (evict-IsBytes stale t pgdir (down_align va) old k))
