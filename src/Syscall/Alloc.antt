-- ===== src/Syscall/Alloc.antt =====
-- `syscallMemoryAlloc` of kernel/trap/syscall.c in the address space of a process.
use riem_os.Base.{
  ℕ, ◌+◌, ◌%◌, ◌^◌, ◌<◌, ◌≡◌, ◌≢◌, refl, ◌∙◌, arith, true, false, some, List, [], ◌∷◌, mem, inl,
  inr, ◌⊎◌, bit_or,
}
use riem_os.Base.Int.{ℤ, neg}
use riem_os.Memory.{Mem, e_no_mem, page_alloc, page_insert}
use riem_os.Memory.Pte.{has_bit, pte_v, pte_c, mask_a, mask_d, page2pa, leaf_entry}
use riem_os.Memory.Pages.{taken, page_alloc-cons, page_alloc-nil}
use riem_os.Memory.Tree.{Shape, IsTree, is_valid}
use riem_os.Memory.Walk.{translation}
use riem_os.Memory.Leaf.{vpn}
use riem_os.Memory.Taken.{taken-translation}
use riem_os.Memory.Insert.{Inserted}
use riem_os.Memory.Fresh.{fresh-Inserted}
use riem_os.Process.{Kernel, pid2process, process_found}
use riem_os.Syscall.{syscall_memory_alloc, map_new, inserted, word}

-- What `syscallMemoryAlloc` comes to in the address space at `root`, for the page at `va`.
abbrev pub Allocated : ℕ → Mem → List ℕ → ℕ → ℕ → Kernel → Type 0
Allocated root m free va perm k' =
    (shape' : Shape) × (free' : List ℕ) × IsTree root k'.mem shape' free'
    × (((k'.trapframe.a0 ≡ word (neg e_no_mem))
          × ((vb : ℕ) → translation k'.mem root vb ≡ translation m root vb))
        ⊎ ((page : ℕ) × (mem page free ≡ true)
            × (mem page free' ≡ false)
            × (k'.trapframe.a0 ≡ 0)
            × (translation k'.mem root va
                ≡ leaf_entry (page2pa page) (bit_or perm (mask_a + mask_d)))
            × ((vb : ℕ) → vpn va ≢ vpn vb → translation k'.mem root vb ≡ translation m root vb)))

module _ (k : Kernel) (root va perm : ℕ) where
  inserted-Allocated :
      (shape : Shape) (page : ℕ) (rest : List ℕ) (r : ℤ × Mem)
      → IsTree root k.mem shape (page ∷ rest)
      → Inserted root
          (taken k.mem page)
          rest
          va
          (leaf_entry (page2pa page) (bit_or perm (mask_a + mask_d)))
          r
      → Allocated root k.mem (page ∷ rest) va perm (inserted k r)
  inserted-Allocated shape page rest (r, m) tree
        (shape', free', tree', fewer, inl (e, used, same)) =
      (
        shape',
        free',
        tree',
        inl (rw e refl, λ vb. same vb ∙ taken-translation root k.mem shape page rest tree vb),
      )
  inserted-Allocated shape page rest (r, m) tree
        (shape', free', tree', fewer, inr (e, here, same)) =
      (
        shape',
        free',
        tree',
        inr (
          page,
          ground arith,
          fewer page (ground (arith, tree.links.distinct)),
          rw e refl,
          here,
          λ vb ne. same vb ne ∙ taken-translation root k.mem shape page rest tree vb,
        ),
      )

map_new-Allocated :
    (stale : ℕ) (k : Kernel) (p : ℕ) (shape : Shape) (free : List ℕ)
    → IsTree (k.processes p).pgdir k.mem shape free
    → k.trapframe.a2 < 2 ^ 10
    → is_valid (translation k.mem (k.processes p).pgdir k.trapframe.a1) ≡ false
    → Allocated
        (k.processes p).pgdir
        k.mem
        free
        k.trapframe.a1
        k.trapframe.a2
        (map_new stale k p (page_alloc k.mem))
map_new-Allocated stale k p shape [] tree few unset =
    rw (page_alloc-nil k.mem tree.links) (shape, [], tree, inl (refl, λ vb. refl))
map_new-Allocated stale k p shape (page ∷ rest) tree few unset =
    rw ((page_alloc-cons k.mem page rest tree.links).0) (
      inserted-Allocated k root k.trapframe.a1 k.trapframe.a2 shape page rest
        (page_insert stale (taken k.mem page) root k.trapframe.a1 (page2pa page) k.trapframe.a2)
        tree
        (fresh-Inserted stale root k.mem shape page rest k.trapframe.a1 k.trapframe.a2 tree few
          unset))
  where
    root : ℕ
    root = (k.processes p).pgdir

-- Where the page tables form a tree, `syscallMemoryAlloc` with PTE_V and without PTE_C in
-- permissions of 10 bits, for a process that the caller may change, at a page without a valid
-- translation: it maps a page that was free, which is not free any more, with the permissions, the
-- accessed and dirty bits, returns 0 and changes no other translation of that address space; or
-- memory runs out, it returns -E_NO_MEM and changes no translation. The page tables stay a tree.
pub syscall_memory_alloc-Allocated :
    (stale : ℕ) (k : Kernel) (p : ℕ) (shape : Shape) (free : List ℕ)
    → pid2process k (k.trapframe.a0 % 2 ^ 32) true ≡ process_found p
    → IsTree (k.processes p).pgdir k.mem shape free
    → has_bit pte_v k.trapframe.a2 ≡ true
    → has_bit pte_c k.trapframe.a2 ≡ false
    → k.trapframe.a2 < 2 ^ 10
    → is_valid (translation k.mem (k.processes p).pgdir k.trapframe.a1) ≡ false
    → (k' : Kernel) × (syscall_memory_alloc stale k ≡ some k')
      × Allocated (k.processes p).pgdir k.mem free k.trapframe.a1 k.trapframe.a2 k'
syscall_memory_alloc-Allocated stale k p shape free found tree v c few unset = (
  map_new stale k p (page_alloc k.mem),
  (unfold syscall_memory_alloc in rw v (rw c (rw found refl))),
  map_new-Allocated stale k p shape free tree few unset,
)
