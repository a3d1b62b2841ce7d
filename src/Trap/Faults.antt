-- ===== src/Trap/Faults.antt =====
-- Page faults of user programs, in `userTrap` of kernel/trap/trap.c and `pageout` of
-- kernel/memory/memory.c.
use riem_os.Base.{ℕ, ◌+◌, ◌≡◌, ◌≢◌, ◌⊎◌, mem, true, false, Option, none, some, List, [], bit_or}
use riem_os.Base.Int.{neg}
use riem_os.Queue.Chain.{IsList}
use riem_os.Memory.{Mem, e_no_mem, page_alloc, page_insert}
use riem_os.Memory.Pte.{mask_r, mask_w, mask_u, mask_a, mask_d, page2pa, leaf_entry}
use riem_os.Memory.Tree.{Shape, IsTree}
use riem_os.Memory.Walk.{translation}
use riem_os.Memory.Leaf.{vpn}
use riem_os.Process.{Kernel}
use riem_os.Process.Create.{get_process_top_sp}
use riem_os.Trap.{TrapImage, user_trap}

abbrev user_perm : ℕ
user_perm = mask_u + mask_r + mask_w

-- No page is free, or `page_insert` finds none for a table and leaves none.
abbrev pub IsExhausted : ℕ → ℕ → Mem → ℕ → Type 0
IsExhausted stale root m va =
    IsList m.links []
    ⊎ ((page : ℕ) × (m1 : Mem) × (m2 : Mem) × (page_alloc m ≡ some (page, m1))
        × (page_insert stale m1 root va (page2pa page) user_perm ≡ (neg e_no_mem, m2))
        × IsList m2.links [])

-- A page that was free is mapped at `va`, with the permissions of a user page.
abbrev pub IsPagedIn : ℕ → Mem → List ℕ → ℕ → Mem → Type 0
IsPagedIn root m free va m' =
    (shape' : Shape) × (free' : List ℕ) × (page : ℕ) × IsTree root m' shape' free'
    × (mem page free ≡ true)
    × (mem page free' ≡ false)
    × (translation m' root va ≡ leaf_entry (page2pa page) (bit_or user_perm (mask_a + mask_d)))
    × ((vb : ℕ) → vpn va ≢ vpn vb → translation m' root vb ≡ translation m root vb)

abbrev IsPageout : ℕ → ℕ → Mem → List ℕ → ℕ → Option Mem → Type 0
IsPageout stale root m free va none = IsExhausted stale root m va
IsPageout stale root m free va (some m') = IsPagedIn root m free va m'

-- The kernel behind a page fault of process `c`, on its memory `m`.
abbrev pub served : TrapImage → Kernel → ℕ → Mem → Kernel
served t k c m =
    let tf = k.trapframe in
    record k {
      mem = m;
      trapframe = record tf { kernel_sp = get_process_top_sp c; stvec = t.user_trap };
    }

abbrev pub IsServed : TrapImage → Kernel → ℕ → List ℕ → ℕ → Option Kernel → Type 0
IsServed t k c free va none = IsExhausted t.image.stale (k.processes c).pgdir k.mem va
IsServed t k c free va (some k') =
    IsPagedIn (k.processes c).pgdir k.mem free va k'.mem × (k' ≡ served t k c k'.mem)
