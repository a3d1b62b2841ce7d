-- ===== src/Process/Switch.antt =====
-- What `process_run` of kernel/trap/process.c does to the saved registers.
use riem_os.Base.{ℕ, ◌≡◌, refl, arith, Option, none, some, ◌==◌, if◌then◌else◌}
use riem_os.Process.{Kernel, Trapframe, save_current, process_run}

-- The registers that belong to a process: the trap frame page while it is the current one, its own
-- entry else.
abbrev owner : Kernel → ℕ → Option ℕ → Trapframe
owner k q none = (k.processes q).trapframe
owner k q (some c) = if q == c then k.trapframe else (k.processes q).trapframe

abbrev pub registers : Kernel → ℕ → Trapframe
registers k q = owner k q k.cur_process

save_current-registers :
    (k : Kernel) (q : ℕ) (c : Option ℕ) → ((save_current k c).processes q).trapframe ≡ owner k q c
save_current-registers k q none = refl
save_current-registers k q (some c) = ground arith

-- Switching to a process changes the registers of none: those of the process that gives way are
-- saved, those of the chosen one are loaded, and the others stay. The chosen one is current.
pub process_run-registers :
    (k : Kernel) (p q : ℕ)
    → (registers (process_run k p) q ≡ registers k q)
      × ((process_run k p).cur_process ≡ some p)
      × ((process_run k p).trapframe ≡ registers k p)
unfolding process_run
process_run-registers k p q =
    let at_q = save_current-registers k q k.cur_process in
    let at_p = save_current-registers k p k.cur_process in (ground arith, refl, ground arith)
