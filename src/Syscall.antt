-- ===== src/Syscall.antt =====
-- kernel/trap/syscall.c: the system calls on processes, memory and messages. Arguments and results
-- are in the saved registers. A call returns `none` where the kernel does not come back: it
-- follows a NULL pointer, or `process_yield` does not end. `stale` is what uninitialised pointers
-- hold.
pub mod Ipc
pub mod Alloc
use riem_os.Base.{
  ℕ, zero, suc, ◌+◌, ◌-◌, ◌*◌, ◌/◌, ◌%◌, ◌^◌, Bool, true, false, not, Option, none, some, leb, ltb,
  ◌==◌, if◌then◌else◌,
}
use riem_os.Base.Int.{ℤ, pos, negsuc, neg, is_neg, is_nonzero}
use riem_os.Memory.{
  Mem, Walked, found, no_mem, e_no_mem, page_alloc, page_insert, page_lookup, page_remove,
  page_walk,
}
use riem_os.Memory.Pte.{physical_memory_top, has_bit, pte_v, pte_c, down_align, page2pa, pa2page}
use riem_os.Process.{
  Kernel, Process, ProcessState, blocked, runnable, PidResult, process_found, bad_env, no_current,
  pid2process, set_process, process_yield, e_bad_env,
}

abbrev pub e_inval : ℕ
e_inval = 3

-- An `int` as a u_longlong.
abbrev pub word : ℤ → ℕ
word (pos n) = n % 2 ^ 64
word (negsuc n) = (2 ^ 64 - 1 - n) % 2 ^ 64

abbrev pub set_a0_word : Kernel → ℕ → Kernel
set_a0_word k w = let tf = k.trapframe in record k { trapframe = record tf { a0 = w } }

abbrev pub set_a0 : Kernel → ℤ → Kernel
set_a0 k v = set_a0_word k (word v)

abbrev pub set_mem : Kernel → Mem → Kernel
set_mem k m = record k { mem = m }

-- The call of `pid2Process` on a register, with the branch for an error; `then_do` is what follows.
abbrev pub with_result : Kernel → PidResult → (ℕ → Option Kernel) → Option Kernel
with_result k bad_env then_do = some (set_a0 k (neg e_bad_env))
with_result k no_current then_do = none
with_result k (process_found p) then_do = then_do p

abbrev pub with_process : Kernel → ℕ → Bool → (ℕ → Option Kernel) → Option Kernel
with_process k pid check_perm then_do =
    with_result k (pid2process k (pid % 2 ^ 32) check_perm) then_do

-- What follows uses `curProcess`.
abbrev pub with_current : Option ℕ → (ℕ → Option Kernel) → Option Kernel
with_current none then_do = none
with_current (some c) then_do = then_do c

unfoldable pub syscall_get_process_id : Kernel → Option Kernel
syscall_get_process_id k = with_current k.cur_process (λ c. some (set_a0_word k (k.processes c).id))

unfoldable pub syscall_get_parent_process_id : Kernel → Option Kernel
syscall_get_parent_process_id k =
    with_current k.cur_process (λ c. some (set_a0_word k (k.processes c).parent_id))

unfoldable pub syscall_yield : ℕ → Kernel → Option Kernel
syscall_yield fuel k = process_yield fuel k

-- The stores of `syscallIpcRecv` to the current process.
abbrev pub wait_for : Kernel → ℕ → ℕ → Kernel
wait_for k c dst_va =
    set_process k c
      (record (k.processes c) { env_ipc_recving = 1; env_ipc_dstva = dst_va; state = blocked })

unfoldable pub syscall_ipc_recv : ℕ → Kernel → Option Kernel
unfolding syscall_yield
syscall_ipc_recv fuel k =
    if leb physical_memory_top k.trapframe.a0
    then some k
    else with_current k.cur_process (λ c. syscall_yield fuel (wait_for k c k.trapframe.a0))

-- The stores of `syscallIpcCanSend` to the receiver.
abbrev pub deliver : Kernel → ℕ → ℕ → ℕ → ℕ → Kernel
deliver k c p value perm = set_process k p (record (k.processes p) {
  env_ipc_value = value;
  env_ipc_from = (k.processes c).id;
  env_ipc_perm = perm;
  env_ipc_recving = 0;
  state = runnable;
})

-- The end of `syscallIpcCanSend`, on the result of `page_insert`.
abbrev pub sent_page : Kernel → ℤ × Mem → Kernel
sent_page k (r, m) = set_a0 (set_mem k m) (if is_nonzero r then neg 1 else pos 0)

-- The branch under `if (srcVa != 0)`. `page` points into `pages` or behind, and is never NULL.
abbrev pub send_page : ℕ → Kernel → ℕ → ℕ → ℕ → ℕ → Kernel
send_page stale k c p src_va perm =
    let page = pa2page (page_lookup k.mem (k.processes c).pgdir src_va).0 in
    let dst_va = (k.processes p).env_ipc_dstva in
    if leb physical_memory_top dst_va
    then set_a0 k (neg 1)
    else sent_page k (page_insert stale k.mem (k.processes c).pgdir dst_va (page2pa page) perm)

abbrev pub send_to : ℕ → Kernel → ℕ → ℕ → Kernel
send_to stale k c p =
    let tf = k.trapframe in
    if (k.processes p).env_ipc_recving == 0
    then set_a0 k (neg 1)
    else let told = deliver k c p tf.a1 tf.a3 in
      if tf.a2 == 0 then set_a0 told (pos 0) else send_page stale told c p tf.a2 tf.a3

unfoldable pub syscall_ipc_can_send : ℕ → Kernel → Option Kernel
syscall_ipc_can_send stale k =
    with_process k k.trapframe.a0 false
      (λ p. with_current k.cur_process (λ c. some (send_to stale k c p)))

-- The end of the calls that return what `page_insert` returns.
abbrev pub returned : Kernel → ℤ × Mem → Kernel
returned k (r, m) = set_a0 (set_mem k m) r

-- `ppage == NULL` is never true here either.
abbrev pub map_page : ℕ → Kernel → ℕ → ℕ → Kernel
map_page stale k src dst =
    let tf = k.trapframe in
    let page = pa2page (page_lookup k.mem (k.processes src).pgdir (down_align tf.a1)).0 in
    returned k
      (page_insert stale k.mem (k.processes dst).pgdir (down_align tf.a3) (page2pa page) tf.a4)

unfoldable pub syscall_map_memory_from_to : ℕ → Kernel → Option Kernel
syscall_map_memory_from_to stale k =
    if not (has_bit pte_v k.trapframe.a4)
    then some (set_a0 k (neg e_inval))
    else with_process k k.trapframe.a0 false
        (λ src. with_process k k.trapframe.a2 false (λ dst. some (map_page stale k src dst)))

unfoldable pub syscall_unmap_memory_from : ℕ → Kernel → Option Kernel
syscall_unmap_memory_from stale k = with_process k k.trapframe.a0 false (λ p.
    some
      (set_a0 (set_mem k (page_remove stale k.mem (k.processes p).pgdir k.trapframe.a1).1) (pos 0)))

-- The end of `syscallMemoryAlloc`, on the results of `page_insert` and of `page_alloc`.
abbrev pub inserted : Kernel → ℤ × Mem → Kernel
inserted k (r, m) = set_a0 (set_mem k m) (if is_neg r then r else pos 0)

abbrev pub map_new : ℕ → Kernel → ℕ → Option (ℕ × Mem) → Kernel
map_new stale k p none = set_a0 k (neg e_no_mem)
map_new stale k p (some (page, m)) =
    inserted k
      (page_insert stale m (k.processes p).pgdir k.trapframe.a1 (page2pa page) k.trapframe.a2)

unfoldable pub syscall_memory_alloc : ℕ → Kernel → Option Kernel
syscall_memory_alloc stale k =
    if not (has_bit pte_v k.trapframe.a2)
    then some (set_a0 k (neg e_inval))
    else if has_bit pte_c k.trapframe.a2
    then some (set_a0 k (neg e_inval))
    else with_process k k.trapframe.a0 true (λ p. some (map_new stale k p (page_alloc k.mem)))

-- The pointer that `page_walk` stores, which leaves it alone where it fails.
abbrev pub walked_pte : ℕ → Walked → ℕ
walked_pte stale (found pte m) = pte
walked_pte stale (no_mem m) = stale

unfoldable pub syscall_check_va_is_map : ℕ → Kernel → Option Kernel
syscall_check_va_is_map stale k = with_current k.cur_process (λ c.
    let pte = walked_pte stale (page_walk k.mem (k.processes c).pgdir k.trapframe.a0 false) in
    some (set_a0 k (if pte == 0 then pos 0 else pos 1)))

unfoldable pub syscall_get_physical_page_ref : Kernel → Option Kernel
syscall_get_physical_page_ref k = with_current k.cur_process (λ c.
    let pa = (page_lookup k.mem (k.processes c).pgdir k.trapframe.a0).0 in
    some (set_a0_word k (k.mem.ref (pa2page pa))))

unfoldable pub syscall_get_physical_page_addr : Kernel → Option Kernel
syscall_get_physical_page_addr k =
    with_current k.cur_process
      (λ c. some (set_a0_word k (page_lookup k.mem (k.processes c).pgdir k.trapframe.a0).0))
