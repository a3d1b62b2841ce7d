-- ===== src/Process.antt =====
-- kernel/trap/process.c and include/process.h: the process table, process ids and the scheduler.
-- A process is its index in `processes`; NULL is `none`. The console output is left out.
pub mod Pid
pub mod Schedule
pub mod Switch
pub mod Chosen
pub mod Create
pub mod Alloc
pub mod Load
pub mod Fork
use riem_os.Base.{
  ℕ, zero, suc, ◌+◌, ◌-◌, ◌*◌, ◌/◌, ◌%◌, ◌^◌, Bool, true, false, not, ◌||◌, ◌&&◌, Option, none,
  some, ltb, leb, ◌==◌, if◌then◌else◌, update, bit_or,
}
use riem_os.Base.Int.{ℤ, pos, neg}
use riem_os.Queue.{Lists, init, insert_head, insert_tail, unlink}
use riem_os.Memory.{Mem}

-- `Trapframe`: the registers that a trap saves.
pub record Trapframe : Type 0 where
  pub kernel_satp : ℕ
  pub kernel_sp : ℕ
  pub stvec : ℕ
  pub sepc : ℕ
  pub ra : ℕ
  pub sp : ℕ
  pub gp : ℕ
  pub tp : ℕ
  pub t0 : ℕ
  pub t1 : ℕ
  pub t2 : ℕ
  pub s0 : ℕ
  pub s1 : ℕ
  pub a0 : ℕ
  pub a1 : ℕ
  pub a2 : ℕ
  pub a3 : ℕ
  pub a4 : ℕ
  pub a5 : ℕ
  pub a6 : ℕ
  pub a7 : ℕ
  pub s2 : ℕ
  pub s3 : ℕ
  pub s4 : ℕ
  pub s5 : ℕ
  pub s6 : ℕ
  pub s7 : ℕ
  pub s8 : ℕ
  pub s9 : ℕ
  pub s10 : ℕ
  pub s11 : ℕ
  pub t3 : ℕ
  pub t4 : ℕ
  pub t5 : ℕ
  pub t6 : ℕ

pub data ProcessState : Type 0 where
  free blocked runnable : ProcessState

abbrev pub is_free : ProcessState → Bool
is_free free = true
is_free _ = false

abbrev pub is_runnable : ProcessState → Bool
is_runnable runnable = true
is_runnable _ = false

-- `struct Process`, its two list entries apart.
pub record Process : Type 0 where
  pub trapframe : Trapframe
  pub pgdir : ℕ
  pub id : ℕ
  pub parent_id : ℕ
  pub priority : ℕ
  pub state : ProcessState
  pub env_ipc_value : ℕ
  pub env_ipc_from : ℕ
  pub env_ipc_recving : ℕ
  pub env_ipc_dstva : ℕ
  pub env_ipc_perm : ℕ
  pub runs : ℕ

-- The kernel's globals: those of memory.c; `freeProcesses` with the `link` entries and
-- `scheduleList` with the `scheduleLink` entries; `processes`, `curProcess`, the trap frame page;
-- the statics of `generate_pid` and `process_yield`.
pub record Kernel : Type 0 where
  pub mem : Mem
  pub free_processes : Lists
  pub schedule_list : Lists
  pub processes : ℕ → Process
  pub cur_process : Option ℕ
  pub trapframe : Trapframe
  pub next_id : ℕ
  pub count : ℕ

abbrev pub process_total_number : ℕ
process_total_number = 1024

abbrev pub e_bad_env : ℕ
e_bad_env = 2

abbrev pub e_no_free_env : ℕ
e_no_free_env = 5

-- PROCESS_OFFSET
abbrev pub process_offset : ℕ → ℕ
process_offset id = id % process_total_number

abbrev pub set_process : Kernel → ℕ → Process → Kernel
set_process k p v = record k { processes = update k.processes p v }

-- The loop of `process_management_init`, from index `n - 1` down. `satp` is
-- MAKE_SATP(kernelPageDirectory).
unfoldable pub init_processes : ℕ → ℕ → Kernel → Kernel
init_processes zero satp k = k
init_processes (suc n) satp k =
    let tf = (k.processes n).trapframe in
    let p = record (k.processes n) { state = free; trapframe = record tf { kernel_satp = satp } } in
    let k' = set_process k n p in
    init_processes n satp (record k' { free_processes = insert_head k'.free_processes n })

unfoldable pub process_management_init : ℕ → Kernel → Kernel
unfolding init_processes init
process_management_init satp k =
    let k' = record k {
      free_processes = init k.free_processes;
      schedule_list = init k.schedule_list;
    } in
    init_processes process_total_number satp k'

-- `(++nextId << (1 + LOG_PROCESS_NUM)) | (u_int)(p - processes)`, with the new `nextId`.
unfoldable pub generate_pid : ℕ → ℕ → ℕ × ℕ
generate_pid next_id p =
    let next = (next_id + 1) % 2 ^ 32 in (bit_or (next * 2 ^ 11 % 2 ^ 32) p, next)

-- What `pid2Process` stores through `process`, and its result. `no_current`: it follows the NULL of
-- `curProcess`, and does not come back.
pub data PidResult : Type 0 where
  process_found : ℕ → PidResult
  bad_env : PidResult
  no_current : PidResult

-- `p == curProcess || p->parentId == curProcess->id`
abbrev pub is_permitted : Kernel → ℕ → ℕ → Bool
is_permitted k p c = p == c || (k.processes p).parent_id == (k.processes c).id

-- Id 0, with the id that is printed.
abbrev pub current_found : Option ℕ → PidResult
current_found none = no_current
current_found (some c) = process_found c

-- The branch under `checkPerm`.
abbrev pub check_permission : Kernel → ℕ → Option ℕ → PidResult
check_permission k p none = no_current
check_permission k p (some c) = if is_permitted k p c then process_found p else bad_env

unfoldable pub pid2process : Kernel → ℕ → Bool → PidResult
pid2process k process_id check_perm =
    if process_id == 0
    then current_found k.cur_process
    else let p = process_offset process_id in
      if is_free (k.processes p).state || not ((k.processes p).id == process_id)
      then bad_env
      else if check_perm
      then check_permission k p k.cur_process
      else process_found p

-- `process_run`, up to the jump to user mode.
abbrev pub save_current : Kernel → Option ℕ → Kernel
save_current k none = k
save_current k (some c) = set_process k c (record (k.processes c) { trapframe = k.trapframe })

unfoldable pub process_run : Kernel → ℕ → Kernel
process_run k p =
    let saved = save_current k k.cur_process in
    let ran = set_process saved p (record (saved.processes p) { state = runnable }) in
    record ran { cur_process = some p; trapframe = (ran.processes p).trapframe }

-- What a round of the loop of `process_yield` does under `if (process)`.
abbrev pub requeue : Lists → Option ℕ → Option Lists
requeue l none = some l
requeue l (some q) = insert_tail process_total_number l q

-- The head of the list, taken off it. `none`: the list is empty, and `while (LIST_EMPTY(…));`
-- spins.
abbrev pub take_at : Lists → Option ℕ → Option (ℕ × Lists)
take_at l none = none
take_at l (some p) = some (p, unlink l p)

abbrev pub take_first : Lists → Option (ℕ × Lists)
take_first l = take_at l l.lh_first

abbrev pub take_next : Option Lists → Option (ℕ × Lists)
take_next none = none
take_next (some l) = take_first l

-- The loop's test with `count` and `process`.
abbrev pub stays : (ℕ → Process) → ℕ → Option ℕ → Bool
stays ps count none = true
stays ps count (some p) = count == 0 || not (is_runnable (ps p).state)

-- The loop of `process_yield` on fuel: the process to run, `count` and the list.
unfoldable pub yield_loop : ℕ → (ℕ → Process) → ℕ → Option ℕ → Lists → Option (Option ℕ × ℕ × Lists)
yield_loop zero ps count process l = none
yield_loop (suc fuel) ps count process l = elim (stays ps count process) [
  | false ↦ some (process, count, l)
  | true ↦ elim (take_next (requeue l process)) [
    | none ↦ none
    | some (p, l') ↦ yield_loop fuel ps 1 (some p) l'
  ]
]

abbrev pub run_chosen : Kernel → Option (Option ℕ × ℕ × Lists) → Option Kernel
run_chosen k none = none
run_chosen k (some (none, count, l)) = none
run_chosen k (some (some p, count, l)) =
    some (process_run (record k { schedule_list = l; count = (count + 2 ^ 32 - 1) % 2 ^ 32 }) p)

-- `none`: the loop does not end within the fuel. Interrupts are off.
unfoldable pub process_yield : ℕ → Kernel → Option Kernel
unfolding yield_loop process_run
process_yield fuel k =
    run_chosen k (yield_loop fuel k.processes k.count k.cur_process k.schedule_list)
