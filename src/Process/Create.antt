-- ===== src/Process/Create.antt =====
-- kernel/trap/process.c: address spaces for new processes, `process_alloc`, `process_free` and
-- `process_destory`. `none` is a panic, or a loop that does not end.
use riem_os.Base.{ℕ, ◌+◌, ◌-◌, ◌*◌, Bool, false, Option, none, some, ◌==◌, if◌then◌else◌}
use riem_os.Queue.{unlink}
use riem_os.Memory.{Mem, page_alloc, pgdir_alloc, page_insert}
use riem_os.Memory.Pte.{page_size, physical_memory_top, mask_r, mask_w, mask_x, page2pa}
use riem_os.Memory.Map.{Symbols, trampoline_base, init_pgdir, pgdir_free}
use riem_os.Process.{Kernel, free, runnable, set_process, generate_pid, process_yield}

-- What the linker and the compiler fix: the symbols, what uninitialised pointers hold, the address of
-- `kernelPageDirectory`, and page2pa(NULL), which depends on the address of `pages`.
pub record Image : Type 0 where
  pub symbols : Symbols
  pub stale : ℕ
  pub kernel_pgdir : ℕ
  pub null_pa : ℕ

abbrev pub kernel_stack_size : ℕ
kernel_stack_size = 0x8000

abbrev pub kernel_stack_top : ℕ
kernel_stack_top = physical_memory_top + kernel_stack_size

abbrev pub user_stack_top : ℕ
user_stack_top = trampoline_base

-- KERNEL_STACK_TOP - (u_longlong)(p - processes) * 10 * PAGE_SIZE, for an index in `processes`
unfoldable pub get_process_top_sp : ℕ → ℕ
get_process_top_sp p = kernel_stack_top - p * 10 * page_size

-- `page_alloc(&page)`, whose result `process_setup` does not look at, and the address of the page.
abbrev pub stack_page : ℕ → Mem → Option (ℕ × Mem) → ℕ × Mem
stack_page null_pa m none = (null_pa, m)
stack_page null_pa m (some (page, m')) = (page2pa page, m')

-- The stack of the kernel for process `p`, in the kernel's address space and in its own.
abbrev pub map_stack : Image → ℕ → ℕ → ℕ × Mem → Mem
map_stack image pgdir p (pa, m) =
    let va = get_process_top_sp p - page_size in
    let perm = mask_r + mask_w + mask_x in
    let shared = (page_insert image.stale m image.kernel_pgdir va pa perm).1 in
    (page_insert image.stale shared pgdir va pa perm).1

abbrev pub setup_with : Image → Kernel → ℕ → Option (ℕ × Mem) → Option Kernel
setup_with image k p none = none
setup_with image k p (some (page, m)) =
    let pgdir = page2pa page in
    let k' = set_process k p (record (k.processes p) { pgdir = pgdir; parent_id = 0 }) in
    some (record k' { mem = map_stack image pgdir p (stack_page image.null_pa m (page_alloc m)) })

unfoldable pub process_setup : Image → Kernel → ℕ → Option Kernel
unfolding get_process_top_sp
process_setup image k p = setup_with image k p (pgdir_alloc k.mem)

unfoldable pub copy_kernel_pgdir : Image → Mem → ℕ → Mem
copy_kernel_pgdir image m pgdir = init_pgdir image.symbols image.stale m pgdir

-- What `process_alloc` stores through `new`, and its result.
pub data Allocated : Type 0 where
  allocated : ℕ → Kernel → Allocated
  no_free_env : Allocated

-- The stores behind `process_setup`.
abbrev pub start_process : Image → ℕ → ℕ → Kernel → Kernel
start_process image p parent_id k =
    let mapped = record k { mem = copy_kernel_pgdir image k.mem (k.processes p).pgdir } in
    let (pid, next) = generate_pid mapped.next_id p in
    let tf = (mapped.processes p).trapframe in
    set_process (record mapped { next_id = next }) p
      (record (mapped.processes p) {
        id = pid;
        state = runnable;
        parent_id = parent_id;
        trapframe = record tf { sp = user_stack_top };
      })

abbrev pub alloc_at : Image → Kernel → ℕ → Option ℕ → Option Allocated
alloc_at image k parent_id none = some no_free_env
alloc_at image k parent_id (some p) =
    elim (process_setup image (record k { free_processes = unlink k.free_processes p }) p) [
      | none ↦ none
      | some k' ↦ some (allocated p (start_process image p parent_id k'))
    ]

unfoldable pub process_alloc : Image → Kernel → ℕ → Option Allocated
unfolding process_setup copy_kernel_pgdir
process_alloc image k parent_id = alloc_at image k parent_id k.free_processes.lh_first

unfoldable pub process_free : ℕ → Kernel → ℕ → Kernel
process_free stale k p =
    let k' = record k { mem = pgdir_free stale k.mem (k.processes p).pgdir } in
    set_process k' p (record (k'.processes p) { state = free })

-- `curProcess == p`
abbrev pub is_current : Option ℕ → ℕ → Bool
is_current none p = false
is_current (some c) p = c == p

-- The switch to the kernel's own stack before `process_yield` changes no global.
unfoldable pub process_destroy : ℕ → ℕ → Kernel → ℕ → Option Kernel
unfolding process_free
process_destroy fuel stale k p =
    let k' = process_free stale k p in
    if is_current k'.cur_process p
    then process_yield fuel (record k' { cur_process = none })
    else some k'
