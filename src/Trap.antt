-- ===== src/Trap.antt =====
-- kernel/trap/trap.c with the table of system calls and the calls on processes of
-- kernel/trap/syscall.c. `none` where the kernel does not come back. The system calls that drive the
-- console and the card, and the control registers, are hardware: `device` is a parameter, and so are
-- the values read from `scause`, `stval` and SPP.
pub mod Faults
use riem_os.Base.{
  ℕ, zero, suc, ◌+◌, ◌*◌, ◌^◌, ◌%◌, Bool, true, false, ◌||◌, ◌&&◌, Option, none, some, List, [],
  ◌∷◌, leb, ◌==◌, if◌then◌else◌,
}
use riem_os.Memory.{Mem, page_lookup, stored_or}
use riem_os.Memory.Ram.{load64}
use riem_os.Memory.Pte.{pte_c, has_bit}
use riem_os.Memory.Map.{pageout, cow_handler}
use riem_os.Process.{
  Kernel, Process, Trapframe, PidResult, process_found, bad_env, no_current, pid2process,
  process_yield,
}
use riem_os.Process.Create.{Image, get_process_top_sp, process_destroy}
use riem_os.Process.Fork.{process_fork}
use riem_os.Syscall.{
  set_a0_word, set_mem, with_current, syscall_get_process_id, syscall_get_parent_process_id,
  syscall_yield, syscall_ipc_recv, syscall_ipc_can_send, syscall_map_memory_from_to,
  syscall_unmap_memory_from, syscall_memory_alloc, syscall_check_va_is_map,
  syscall_get_physical_page_ref, syscall_get_physical_page_addr,
}

-- The addresses that the traps use besides those of `Image`: of `cowBuffer`, of `userTrap`, and of
-- `processes` with the size of an entry.
pub record TrapImage : Type 0 where
  pub image : Image
  pub cow_buffer : ℕ
  pub user_trap : ℕ
  pub processes : ℕ
  pub process_size : ℕ

unfoldable pub syscall_fork : TrapImage → Kernel → Option Kernel
syscall_fork t k = process_fork t.image k

-- `pid2Process(0, …)` gives the current process.
unfoldable pub syscall_exit : TrapImage → ℕ → Kernel → Option Kernel
syscall_exit t fuel k = with_current k.cur_process (λ p. process_destroy fuel t.image.stale k p)

-- The address of the process that `pid2Process` stores, NULL where it finds none.
abbrev pub pcb_address : TrapImage → PidResult → Option ℕ
pcb_address t (process_found p) = some (t.processes + p * t.process_size)
pcb_address t bad_env = some 0
pcb_address t no_current = none

abbrev pub with_pcb : Kernel → Option ℕ → Option Kernel
with_pcb k none = none
with_pcb k (some address) = some (set_a0_word k address)

unfoldable pub syscall_get_process_pcb : TrapImage → Kernel → Option Kernel
syscall_get_process_pcb t k =
    with_pcb k (pcb_address t (pid2process k (k.trapframe.a0 % 2 ^ 32) false))

-- `syscallVector[n]()`. There is nothing behind the table, and no entry 0.
abbrev pub call_at : List (Kernel → Option Kernel) → ℕ → Kernel → Option Kernel
call_at [] n k = none
call_at (call ∷ calls) zero k = call k
call_at (call ∷ calls) (suc n) k = call_at calls n k

-- The table, in the order of include/syscallLib.h, behind entry 0.
unfoldable pub syscall_vector :
    TrapImage → ℕ → (ℕ → Kernel → Option Kernel) → List (Kernel → Option Kernel)
syscall_vector t fuel device =
    let stale = t.image.stale in
    (λ k. none)
    ∷ device 1
    ∷ device 2
    ∷ syscall_get_process_id
    ∷ device 4
    ∷ syscall_exit t fuel
    ∷ syscall_yield fuel
    ∷ syscall_get_parent_process_id
    ∷ syscall_fork t
    ∷ syscall_ipc_recv fuel
    ∷ syscall_ipc_can_send stale
    ∷ device 11
    ∷ device 12
    ∷ syscall_map_memory_from_to stale
    ∷ syscall_unmap_memory_from stale
    ∷ syscall_memory_alloc stale
    ∷ syscall_check_va_is_map stale
    ∷ syscall_get_process_pcb t
    ∷ syscall_get_physical_page_ref
    ∷ syscall_get_physical_page_addr
    ∷ []

-- `trapframe->sepc += 4` and the call.
abbrev pub environment_call : TrapImage → ℕ → (ℕ → Kernel → Option Kernel) → Kernel → Option Kernel
environment_call t fuel device k =
    let tf = k.trapframe in
    call_at (syscall_vector t fuel device) tf.a7
      (record k { trapframe = record tf { sepc = (tf.sepc + 4) % 2 ^ 64 } })

abbrev pub keep_mem : Kernel → Option Mem → Option Kernel
keep_mem k none = none
keep_mem k (some m) = some (set_mem k m)

-- A load or store page fault at `stval`.
abbrev pub page_fault : TrapImage → ℕ → Kernel → ℕ → Option Kernel
page_fault t stval k c =
    let pgdir = (k.processes c).pgdir in
    let (pa, stored) = page_lookup k.mem pgdir stval in
    if pa == 0
    then keep_mem k (pageout t.image.stale k.mem pgdir stval)
    else if has_bit pte_c (load64 k.mem.ram (stored_or stored 0))
    then keep_mem k (cow_handler t.cow_buffer t.image.stale k.mem pgdir stval)
    else none

abbrev pub trap_exception :
    TrapImage → ℕ → (ℕ → Kernel → Option Kernel) → ℕ → ℕ → Kernel → Option Kernel
trap_exception t fuel device code stval k =
    if code == 8
    then environment_call t fuel device k
    else if code == 13 || code == 15
    then with_current k.cur_process (page_fault t stval k)
    else some k

-- `userTrapReturn`: the stores to the trap frame, up to the jump to user mode.
abbrev pub prepare : TrapImage → Kernel → ℕ → Option Kernel
prepare t k c =
    let tf = k.trapframe in
    some
      (record k { trapframe = record tf { kernel_sp = get_process_top_sp c; stvec = t.user_trap } })

unfoldable pub user_trap_return : TrapImage → Kernel → Option Kernel
user_trap_return t k = with_current k.cur_process (prepare t k)

abbrev pub return_from : TrapImage → Option Kernel → Option Kernel
return_from t none = none
return_from t (some k) = user_trap_return t k

-- `spp`: the trap came from the kernel. `process_yield` ends in `userTrapReturn` as well.
unfoldable pub user_trap :
    TrapImage → ℕ → (ℕ → Kernel → Option Kernel) → Bool → ℕ → ℕ → Kernel → Option Kernel
unfolding user_trap_return syscall_vector
user_trap t fuel device spp scause stval k =
    if spp
    then none
    else if leb (2 ^ 63) scause
    then return_from t (process_yield fuel k)
    else return_from t (trap_exception t fuel device (scause % 2 ^ 63) stval k)

-- `kernelTrap`, but for sepc and sstatus, which it puts back: a timer interrupt (code 5) yields, and
-- `process_yield` ends in `userTrapReturn`.
unfoldable pub kernel_trap : TrapImage → ℕ → ℕ → Kernel → Option Kernel
unfolding user_trap_return
kernel_trap t fuel scause k =
    if leb (2 ^ 63) scause && scause % 2 ^ 63 == 5
    then return_from t (process_yield fuel k)
    else some k
