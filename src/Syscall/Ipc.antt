-- ===== src/Syscall/Ipc.antt =====
-- Messages: `syscallIpcRecv` and `syscallIpcCanSend` of kernel/trap/syscall.c.
use riem_os.Base.{
  ℕ, ◌%◌, ◌^◌, ◌<◌, ◌≡◌, ◌≢◌, refl, ◌∙◌, sym, subst, ap, arith, true, false, Option, none, some,
  ◌==◌, leb, ==_refl, ==_ne, ◌||◌, List, [], ◌∷◌, ◌++◌, mem, mem-append, length, suc, ◌≤◌,
}
use riem_os.Queue.Chain.{IsList, mem_ne}
use riem_os.Process.Schedule.{Switched, process_yield-Switched, IsApart, waiting, append-middle}
use riem_os.Base.Int.{pos, neg}
use riem_os.Memory.Pte.{physical_memory_top}
use riem_os.Process.{
  Kernel, blocked, runnable, is_runnable, process_yield, process_total_number, pid2process,
  process_found,
}
use riem_os.Process.Chosen.{Yielded, process_yield-Yielded}
use riem_os.Syscall.{
  syscall_ipc_recv, syscall_ipc_can_send, syscall_yield, wait_for, with_current, send_to, deliver,
  set_a0,
}

-- What holds when a kernel comes back from `syscallIpcRecv` of process `c`: another process runs,
-- and `c` is blocked and waits for a message.
abbrev pub Waiting : ℕ → ℕ → Option Kernel → Type 0
Waiting c dst_va none = Unit
Waiting c dst_va (some k') =
    (k'.cur_process ≢ some c)
    × ((k'.processes c).state ≡ blocked)
    × ((k'.processes c).env_ipc_recving ≡ 1)
    × ((k'.processes c).env_ipc_dstva ≡ dst_va)

wait_for-Waiting :
    (k : Kernel) (c dst_va : ℕ) (r : Option Kernel)
    → Yielded (wait_for k c dst_va) r
    → Waiting c dst_va r
wait_for-Waiting k c dst_va none y = tt
wait_for-Waiting k c dst_va (some k') (p, chosen, ready, keeps, same) =
    let (st, same_id, same_parent, same_pgdir, recving, dst, value, from, perm) = keeps c in
    (
      λ e. ground (arith, chosen, e, ready),
      ground (arith, st),
      ground (arith, recving),
      ground (arith, dst),
    )

syscall_ipc_recv_yields :
    (fuel : ℕ) (k : Kernel) (c : ℕ)
    → k.cur_process ≡ some c
    → k.trapframe.a0 < physical_memory_top
    → syscall_ipc_recv fuel k ≡ process_yield fuel (wait_for k c k.trapframe.a0)
unfolding syscall_ipc_recv syscall_yield
syscall_ipc_recv_yields fuel k c current below =
    rw above
      (ap (λ r. with_current r (λ c'. process_yield fuel (wait_for k c' k.trapframe.a0))) current)
  where
    above : leb physical_memory_top k.trapframe.a0 ≡ false
    above = ground arith

-- The kernel after `syscallIpcRecv` of process `c`, with `p` running.
abbrev pub Received : Kernel → ℕ → ℕ → List ℕ → Option Kernel → Type 0
Received k c p xs r =
    (k' : Kernel) × (r ≡ some k')
    × (k'.cur_process ≡ some p)
    × IsList k'.schedule_list xs
    × ((k'.processes c).state ≡ blocked)
    × ((k'.processes c).env_ipc_recving ≡ 1)
    × ((k'.processes c).env_ipc_dstva ≡ k.trapframe.a0)

received :
    (k : Kernel) (c p : ℕ) (xs : List ℕ) (r : Option Kernel)
    → ((k' : Kernel) × (r ≡ some k') × Switched (wait_for k c k.trapframe.a0) k' p xs)
    → Waiting c k.trapframe.a0 r
    → Received k c p xs r
received k c p xs r (k', e, switched) w =
    let (other, stopped, marked, stored) = subst (Waiting c k.trapframe.a0) e w in
    (k', e, switched.cur_process, switched.schedule_list, stopped, marked, stored)

-- A process `c` that calls `syscallIpcRecv` with an address below the end of the physical memory,
-- while a process of the schedule list can run, the list being well linked, with at most 1024
-- processes and not `c`, and the slice count 0, gives way to the first of those: the call ends in
-- that process, given fuel for the ones before it, and `c` is blocked, at the end of the round,
-- marked as receiving and with its address stored.
pub syscall_ipc_recv-Received :
    (fuel : ℕ) (k : Kernel) (c : ℕ) (xs pre post : List ℕ) (p : ℕ)
    → k.cur_process ≡ some c
    → k.trapframe.a0 < physical_memory_top
    → k.count ≡ 0
    → IsList k.schedule_list xs
    → mem c xs ≡ false
    → length xs ≤ process_total_number
    → xs ≡ pre ++ p ∷ post
    → ((q : ℕ) → mem q pre ≡ true → is_runnable (k.processes q).state ≡ false)
    → is_runnable (k.processes p).state ≡ true
    → length pre < fuel
    → Received k c p ((post ++ c ∷ []) ++ pre) (syscall_ipc_recv (suc fuel) k)
syscall_ipc_recv-Received fuel k c xs pre post p current below idle list apart fits order stuck run
      h =
    rw (syscall_ipc_recv_yields (suc fuel) k c current below) (
      received k c p ((post ++ c ∷ []) ++ pre) (process_yield (suc fuel) after)
        (process_yield-Switched fuel after xs pre (post ++ c ∷ []) p idle list
          (subst (λ r. IsApart r xs) (sym current) apart) fits
          (ap (λ r. waiting r xs) current
            ∙ ap (λ t. t ++ c ∷ []) order
            ∙ append-middle pre post p c)
          (λ q m. ground (arith, stuck q, outside q)) (ground (arith, run, outside p, order)) h)
        (wait_for-Waiting k c k.trapframe.a0 (process_yield (suc fuel) after)
          (process_yield-Yielded (suc fuel) after)))
  where
    after : Kernel
    after = wait_for k c k.trapframe.a0

    apart_from : mem c (pre ++ p ∷ post) ≡ false
    apart_from = sym (ap (mem c) order) ∙ apart

    outside : (q : ℕ) → (mem q pre || (q == p)) ≡ true → (c == q) ≡ false
    outside q m =
        mem_ne q c (pre ++ p ∷ post) (ground (arith, mem-append q pre (p ∷ post))) apart_from

-- The stores to the receiver do not keep it from being found again.
deliver-found :
    (k : Kernel) (id c p value perm : ℕ)
    → pid2process k id false ≡ process_found p
    → pid2process (deliver k c p value perm) id false ≡ process_found p
unfolding pid2process
deliver-found k id c p value perm h = ground arith

-- The same call once more, with the registers of the first.
abbrev again : Kernel → Kernel → Kernel
again k k' = record k' { trapframe = k.trapframe }

-- A message without a page, `a2 = 0`, that reaches a process waiting for one.
abbrev pub Delivered : ℕ → Kernel → ℕ → ℕ → Kernel → Type 0
Delivered stale k c p k' =
    (k'.trapframe.a0 ≡ 0)
    × ((k'.processes p).env_ipc_value ≡ k.trapframe.a1)
    × ((k'.processes p).env_ipc_from ≡ (k.processes c).id)
    × ((k'.processes p).env_ipc_perm ≡ k.trapframe.a3)
    × ((k'.processes p).state ≡ runnable)
    × ((q : ℕ) → q ≢ p → k'.processes q ≡ k.processes q)
    × (k'.mem ≡ k.mem)
    × (syscall_ipc_can_send stale (again k k') ≡ some (set_a0 (again k k') (neg 1)))

send_to-waiting :
    (stale : ℕ) (k : Kernel) (c p : ℕ)
    → k.cur_process ≡ some c
    → pid2process k (k.trapframe.a0 % 2 ^ 32) false ≡ process_found p
    → syscall_ipc_can_send stale k ≡ some (send_to stale k c p)
unfolding syscall_ipc_can_send
send_to-waiting stale k c p current found = rw found (rw current refl)

-- `syscallIpcCanSend` without a page, to a process that waits, returns 0, hands over the value, the
-- sender's id and the permissions, makes the receiver runnable and changes no other process and no
-- memory; the same call made once more, to a process that does not wait then, returns -1, which is not
-- the -E_IPC_NOT_RECV that include/error.h has for it, and changes nothing else.
pub syscall_ipc_can_send-Delivered :
    (stale : ℕ) (k : Kernel) (c p : ℕ)
    → k.cur_process ≡ some c
    → pid2process k (k.trapframe.a0 % 2 ^ 32) false ≡ process_found p
    → (k.processes p).env_ipc_recving ≢ 0
    → k.trapframe.a2 ≡ 0
    → (k' : Kernel) × (syscall_ipc_can_send stale k ≡ some k') × Delivered stale k c p k'
syscall_ipc_can_send-Delivered stale k c p current found waits no_page = (
  set_a0 told (pos 0),
  send_to-waiting stale k c p current found ∙ ap some (rw (==_ne _ 0 waits) (rw (==_zero) refl)),
  (
    refl,
    rw (==_refl p) refl,
    rw (==_refl p) refl,
    rw (==_refl p) refl,
    rw (==_refl p) refl,
    λ q ne. rw (==_ne p q (λ e. ne (sym e))) refl,
    refl,
    send_to-waiting stale (again k told) c p current
          (deliver-found k (k.trapframe.a0 % 2 ^ 32) c p k.trapframe.a1 k.trapframe.a3 found)
        ∙ ap some (rw (==_refl p) refl),
  ),
)
  where
    told : Kernel
    told = deliver k c p k.trapframe.a1 k.trapframe.a3

    ==_zero : (k.trapframe.a2 == 0) ≡ true
    ==_zero = ground arith
