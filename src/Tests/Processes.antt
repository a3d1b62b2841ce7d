-- ===== src/Tests/Processes.antt =====
-- A kernel that runs process 3 while 4, 7 and 5 wait, of which only 7 can run.
use riem_os.Base.{
  ℕ, ◌↔◌, ◌%◌, ◌+◌, ◌^◌, ◌<◌, ◌≡◌, ◌≢◌, refl, none, some, [], ◌∷◌, arith, ◌==◌, true, false,
  if◌then◌else◌, mem,
}
use riem_os.Queue.{Lists, nowhere, insert_head}
use riem_os.Queue.Chain.{IsList}
use riem_os.Queue.Insert.{insert_head-cons}
use riem_os.Process.{
  Kernel, Process, Trapframe, free, blocked, runnable, is_runnable, is_permitted, process_offset,
  process_total_number, generate_pid, pid2process, process_found, process_run, process_yield,
}
use riem_os.Process.Pid.{generate_pid-eq_iff, generate_pid-offset, pid2process-found}
use riem_os.Process.Schedule.{Switched, process_yield-Switched}
use riem_os.Process.Switch.{registers, process_run-registers}

abbrev unlinked : Lists
unlinked = record { lh_first = none; le_next = λ _. none; le_prev = λ _. nowhere }

-- 4, 7, 5
abbrev scheduled : Lists
scheduled = insert_head (insert_head (insert_head unlinked 5) 7) 4

scheduled-IsList : IsList scheduled (4 ∷ 7 ∷ 5 ∷ [])
scheduled-IsList =
    insert_head-cons (insert_head (insert_head unlinked 5) 7) (7 ∷ 5 ∷ []) 4
      (insert_head-cons (insert_head unlinked 5) (5 ∷ []) 7
        (insert_head-cons unlinked [] 5 (record { chain = refl; distinct = tt }) refl) refl)
      refl

-- All registers hold `n`.
abbrev filled : ℕ → Trapframe
filled n = record {
  kernel_satp = n;
  kernel_sp = n;
  stvec = n;
  sepc = n;
  ra = n;
  sp = n;
  gp = n;
  tp = n;
  t0 = n;
  t1 = n;
  t2 = n;
  s0 = n;
  s1 = n;
  a0 = n;
  a1 = n;
  a2 = n;
  a3 = n;
  a4 = n;
  a5 = n;
  a6 = n;
  a7 = n;
  s2 = n;
  s3 = n;
  s4 = n;
  s5 = n;
  s6 = n;
  s7 = n;
  s8 = n;
  s9 = n;
  s10 = n;
  s11 = n;
  t3 = n;
  t4 = n;
  t5 = n;
  t6 = n;
}

abbrev process : ℕ → Process
process p = record {
  trapframe = filled p;
  pgdir = 0;
  id = 2048 + p;
  parent_id = 0;
  priority = 1;
  state = if p == 7 then runnable else blocked;
  env_ipc_value = 0;
  env_ipc_from = 0;
  env_ipc_recving = 0;
  env_ipc_dstva = 0;
  env_ipc_perm = 0;
  runs = 0;
}

abbrev kernel : Kernel
kernel = record {
  mem = record { ram = λ _. 0; links = unlinked; ref = λ _. 0 };
  free_processes = unlinked;
  schedule_list = scheduled;
  processes = process;
  cur_process = some 3;
  trapframe = filled 100;
  next_id = 1;
  count = 0;
}

blocked_four : (q : ℕ) → mem q (4 ∷ []) ≡ true → is_runnable (kernel.processes q).state ≡ false
blocked_four q h = ground arith

process_yield-Switched_example :
    (k' : Kernel) × (process_yield 3 kernel ≡ some k') × Switched kernel k' 7 (5 ∷ 3 ∷ 4 ∷ [])
process_yield-Switched_example =
    process_yield-Switched 2 kernel (4 ∷ 7 ∷ 5 ∷ []) (4 ∷ []) (5 ∷ 3 ∷ []) 7 refl scheduled-IsList
      refl (omega arith) refl blocked_four refl (omega arith)

process_run-registers_example :
    (registers (process_run kernel 7) 3 ≡ registers kernel 3)
    × ((process_run kernel 7).cur_process ≡ some 7)
    × ((process_run kernel 7).trapframe ≡ registers kernel 7)
process_run-registers_example = process_run-registers kernel 7 3

generate_pid-offset_example :
    (process_offset (generate_pid 6 40).0 ≡ 40)
    × ((generate_pid 6 40).0 < 2 ^ 32)
    × ((generate_pid 6 40).0 ≢ 0)
    × ((generate_pid 6 40).1 ≡ 7)
generate_pid-offset_example = generate_pid-offset 6 40 (omega arith) (omega arith)

pid2process-found_example :
    (7 < process_total_number)
    × ((kernel.processes 7).id ≡ 2055)
    × ((kernel.processes 7).state ≢ free)
    × (false ≡ true → (c : ℕ) × (kernel.cur_process ≡ some c) × (is_permitted kernel 7 c ≡ true))
pid2process-found_example = pid2process-found kernel 2055 false 7 (omega arith) found_seven
  where
    found_seven : pid2process kernel 2055 false ≡ process_found 7
    found_seven = unfold pid2process in refl

abbrev slot : ℕ
slot = 40

generate_pid-eq_iff_example :
    ((generate_pid 6 slot).0 ≡ (generate_pid 7 slot).0)
    ↔ ((7 % 2 ^ 21 ≡ 8 % 2 ^ 21) × (slot ≡ slot))
generate_pid-eq_iff_example = generate_pid-eq_iff 6 7 slot slot (omega arith) (omega arith)
