-- ===== src/Tests/Syscalls.antt =====
-- System calls of process 3, which runs, while 7 can run and 4 waits for a message.
use riem_os.Base.{
  ℕ, ◌%◌, ◌^◌, ◌<◌, ◌≡◌, refl, none, some, List, [], ◌∷◌, arith, ◌==◌, ◌+◌, ◌&&◌, leb, ltb, true,
  false, if◌then◌else◌, update, mem, bit_or,
}
use riem_os.Queue.{Lists, nowhere, insert_head, unlink}
use riem_os.Queue.Chain.{IsList}
use riem_os.Queue.Insert.{insert_head-cons}
use riem_os.Memory.{
  Mem, pages_init, page_insert, page_walk, page_alloc, next_table, evict, set_leaf,
}
use riem_os.Memory.Init.{pages_init-IsList}
use riem_os.Memory.Insert.{Inserted, page_insert-Inserted}
use riem_os.Memory.Ram.{load32, load64, store64, bzero}
use riem_os.Memory.Pte.{pa2ppn, leaf_entry, table_entry, down_align, mask_a, mask_d}
use riem_os.Memory.Tree.{Shape, IsTree, is_valid, entry, read_from}
use riem_os.Memory.Walk.{translation}
use riem_os.Process.{
  Kernel, Process, is_runnable, Trapframe, blocked, runnable, pid2process, process_found,
}
use riem_os.Syscall.{syscall_ipc_recv, syscall_ipc_can_send, syscall_memory_alloc}
use riem_os.Syscall.Ipc.{
  Received, syscall_ipc_recv-Received, Delivered, syscall_ipc_can_send-Delivered,
}
use riem_os.Syscall.Alloc.{Allocated, syscall_memory_alloc-Allocated}

abbrev pub unlinked : Lists
unlinked = record { lh_first = none; le_next = λ _. none; le_prev = λ _. nowhere }

abbrev pool : Lists
pool = insert_head (insert_head unlinked 2) 1

pub pool-IsList : IsList pool (1 ∷ 2 ∷ [])
pool-IsList =
    insert_head-cons (insert_head unlinked 2) (2 ∷ []) 1
      (insert_head-cons unlinked [] 2 (record { chain = refl; distinct = tt }) refl) refl

abbrev pub memory : Mem
memory = record { ram = λ _. 0; links = pool; ref = λ _. 0 }

abbrev pub one_table : Shape
one_table = update (λ _. none) 0x87fff000 (some (2, 0))

invalid : (a i : ℕ) → is_valid (entry memory.ram a i) ≡ false
invalid a i = unfold load64 load32 in refl

pub memory-IsTree : IsTree 0x87fff000 memory one_table (1 ∷ 2 ∷ [])
memory-IsTree = record {
  rooted = refl;
  placed = λ a l p h. ground arith;
  child = λ a l p i h k v. ground (arith, invalid a i);
  links = pool-IsList;
  pages = λ n h. ground arith;
}

-- The argument registers of a call.
abbrev arguments : ℕ → ℕ → ℕ → ℕ → Trapframe
arguments first second third fourth = record {
  kernel_satp = 0;
  kernel_sp = 0;
  stvec = 0;
  sepc = 0;
  ra = 0;
  sp = 0;
  gp = 0;
  tp = 0;
  t0 = 0;
  t1 = 0;
  t2 = 0;
  s0 = 0;
  s1 = 0;
  a0 = first;
  a1 = second;
  a2 = third;
  a3 = fourth;
  a4 = 0;
  a5 = 0;
  a6 = 0;
  a7 = 0;
  s2 = 0;
  s3 = 0;
  s4 = 0;
  s5 = 0;
  s6 = 0;
  s7 = 0;
  s8 = 0;
  s9 = 0;
  s10 = 0;
  s11 = 0;
  t3 = 0;
  t4 = 0;
  t5 = 0;
  t6 = 0;
}

abbrev process : ℕ → Process
process p = record {
  trapframe = arguments 0 0 0 0;
  pgdir = 0x87fff000;
  id = 2048 + p;
  parent_id = 0;
  priority = 1;
  state = if p == 4 then blocked else runnable;
  env_ipc_value = 0;
  env_ipc_from = 0;
  env_ipc_recving = if p == 4 then 1 else 0;
  env_ipc_dstva = 0;
  env_ipc_perm = 0;
  runs = 0;
}

abbrev calling : Trapframe → Kernel
calling tf = record {
  mem = memory;
  free_processes = unlinked;
  schedule_list = insert_head (insert_head unlinked 7) 4;
  processes = process;
  cur_process = some 3;
  trapframe = tf;
  next_id = 1;
  count = 0;
}

abbrev pub receiving : Kernel
receiving = calling (arguments 0x5000 0 0 0)

pub scheduled-IsList : IsList receiving.schedule_list (4 ∷ 7 ∷ [])
scheduled-IsList =
    insert_head-cons (insert_head unlinked 7) (7 ∷ []) 4
      (insert_head-cons unlinked [] 7 (record { chain = refl; distinct = tt }) refl) refl

blocked_four : (q : ℕ) → mem q (4 ∷ []) ≡ true → is_runnable (receiving.processes q).state ≡ false
blocked_four q h = ground arith

syscall_ipc_recv-Received_example :
    Received receiving 3 7 (3 ∷ 4 ∷ []) (syscall_ipc_recv 3 receiving)
syscall_ipc_recv-Received_example =
    syscall_ipc_recv-Received 2 receiving 3 (4 ∷ 7 ∷ []) (4 ∷ []) [] 7 refl (omega arith) refl
      scheduled-IsList refl (omega arith) refl blocked_four refl (omega arith)

-- Process 4 has the id 2052.
abbrev sending : Kernel
sending = calling (arguments 2052 99 0 0)

found_four : pid2process sending (2052 % 2 ^ 32) false ≡ process_found 4
found_four = unfold pid2process in refl

syscall_ipc_can_send-Delivered_example :
    (k' : Kernel) × (syscall_ipc_can_send 0 sending ≡ some k') × Delivered 0 sending 3 4 k'
syscall_ipc_can_send-Delivered_example =
    syscall_ipc_can_send-Delivered 0 sending 3 4 refl found_four (omega arith) refl

abbrev five_free : Lists
five_free = insert_head (insert_head (insert_head pool 3) 4) 5

five_free-IsList : IsList five_free (5 ∷ 4 ∷ 3 ∷ 1 ∷ 2 ∷ [])
five_free-IsList =
    insert_head-cons (insert_head (insert_head pool 3) 4) (4 ∷ 3 ∷ 1 ∷ 2 ∷ []) 5
      (insert_head-cons (insert_head pool 3) (3 ∷ 1 ∷ 2 ∷ []) 4
        (insert_head-cons pool (1 ∷ 2 ∷ []) 3 pool-IsList refl) refl)
      refl

abbrev roomy : Mem
roomy = record memory { links = five_free }

roomy-IsTree : IsTree 0x87fff000 roomy one_table (5 ∷ 4 ∷ 3 ∷ 1 ∷ 2 ∷ [])
roomy-IsTree = record {
  rooted = refl;
  placed = λ a l p h. ground arith;
  child = λ a l p i h k v. ground (arith, invalid a i);
  links = five_free-IsList;
  pages = λ n h. ground arith;
}

-- The directory maps its own page at its own address, as `initPgdir` makes it.
abbrev pub one_to_one : Mem
one_to_one = (page_insert 0 roomy 0x87fff000 0x87fff000 0x87fff000 7).1

unmapped_there : is_valid (translation roomy 0x87fff000 0x87fff000) ≡ false
unmapped_there = unfold translation read_from load64 load32 in refl

pub self_mapped :
    Inserted 0x87fff000 roomy
      (5 ∷ 4 ∷ 3 ∷ 1 ∷ 2 ∷ [])
      0x87fff000
      (leaf_entry (down_align 0x87fff000) (bit_or 7 (mask_a + mask_d)))
      (page_insert 0 roomy 0x87fff000 0x87fff000 0x87fff000 7)
self_mapped =
    page_insert-Inserted 0 0x87fff000 roomy one_table (5 ∷ 4 ∷ 3 ∷ 1 ∷ 2 ∷ []) 0x87fff000 0x87fff000
      7 roomy-IsTree (omega arith) (omega arith) unmapped_there

self_mapped-translation : translation one_to_one 0x87fff000 0x87fff000 ≡ 0x21fffcc7
unfolding page_insert page_walk page_alloc next_table insert_head unlink load64 bzero store64 evict
    set_leaf leaf_entry table_entry translation read_from
self_mapped-translation = refl

-- For the caller itself, id 0: a page at 0x1000 with PTE_V, PTE_R and PTE_W.
abbrev allocating : Kernel
allocating = record (calling (arguments 0 0x1000 7 0)) { mem = one_to_one }

found_self : pid2process allocating (0 % 2 ^ 32) true ≡ process_found 3
found_self = unfold pid2process in refl

unmapped_page : is_valid (translation one_to_one 0x87fff000 0x1000) ≡ false
unfolding page_insert page_walk page_alloc next_table insert_head unlink load64 bzero store64 evict
    set_leaf leaf_entry table_entry translation read_from
unmapped_page = refl

syscall_memory_alloc-Allocated_example :
    (k' : Kernel) × (syscall_memory_alloc 0 allocating ≡ some k')
    × Allocated 0x87fff000 one_to_one self_mapped.1 0x1000 7 k'
syscall_memory_alloc-Allocated_example =
    syscall_memory_alloc-Allocated 0 allocating 3 self_mapped.0 self_mapped.1 found_self
      self_mapped.2 refl refl (omega arith) unmapped_page

-- The kernel ends at 0x80210000.
pages_init-IsList_example :
    (free : List ℕ) × IsList (pages_init 0x80210000 memory).links free
    × ((p : ℕ) → mem p free ≡ (leb (pa2ppn 0x80210000) p && ltb p 0x8000))
    × ((p : ℕ)
        → p < 0x8000
        → (pages_init 0x80210000 memory).ref p ≡ (if ltb p (pa2ppn 0x80210000) then 1 else 0))
    × ((pages_init 0x80210000 memory).ram ≡ memory.ram)
pages_init-IsList_example = pages_init-IsList 0x80210000 memory (omega arith)
