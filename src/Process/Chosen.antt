-- ===== src/Process/Chosen.antt =====
-- Which process `process_yield` of kernel/trap/process.c can choose.
use riem_os.Base.{
  ℕ, zero, suc, ◌≡◌, refl, sym, subst, ==_iff, ==_refl, arith, true, false, Option, none, some,
  Bool-cases, inl, inr, ◌==◌, ◌+◌, ◌-◌, ◌%◌, ◌^◌,
}
use riem_os.Queue.{Lists}
use riem_os.Process.{
  Kernel, Process, ProcessState, free, blocked, runnable, is_runnable, take_next, requeue, stays,
  yield_loop, run_chosen, process_yield, process_run, save_current,
}
use riem_os.Process.Schedule.{pick, yield_loop_round}

-- If the loop ends, the process that it leaves can run.
abbrev IsChoice : (ℕ → Process) → Option (Option ℕ × ℕ × Lists) → Type 0
IsChoice ps none = Unit
IsChoice ps (some (none, count, l)) = ⊥
IsChoice ps (some (some p, count, l)) = is_runnable (ps p).state ≡ true

pick-IsChoice :
    (fuel : ℕ) (ps : ℕ → Process) (chosen : Option (ℕ × Lists))
    → ((p : ℕ) (l : Lists) → IsChoice ps (yield_loop fuel ps 1 (some p) l))
    → IsChoice ps (pick fuel ps chosen)
pick-IsChoice fuel ps none rest = tt
pick-IsChoice fuel ps (some (p, l)) rest = rest p l

yield_loop_stop :
    (fuel : ℕ) (ps : ℕ → Process) (count : ℕ) (process : Option ℕ) (l : Lists)
    → stays ps count process ≡ false
    → IsChoice ps (yield_loop (suc fuel) ps count process l)
yield_loop_stop fuel ps count none l h = ground arith
yield_loop_stop fuel ps count (some p) l h = unfold yield_loop in rw (h, yield_loop) (ground arith)

yield_loop-IsChoice :
    (fuel : ℕ) (ps : ℕ → Process) (count : ℕ) (process : Option ℕ) (l : Lists)
    → IsChoice ps (yield_loop fuel ps count process l)
yield_loop-IsChoice zero ps count process l = unfold yield_loop in tt
yield_loop-IsChoice (suc fuel) ps count process l = elim (Bool-cases (stays ps count process)) [
  | inl go ↦ rw (yield_loop_round fuel ps count process l go) (
      pick-IsChoice fuel ps (take_next (requeue l process))
        (λ p l'. yield_loop-IsChoice fuel ps 1 (some p) l'))
  | inr stop ↦ yield_loop_stop fuel ps count process l stop
]

-- What a process keeps while another one is chosen: everything but its saved registers.
abbrev pub Keeps : Process → Process → Type 0
Keeps before after =
    (after.state ≡ before.state)
    × (after.id ≡ before.id)
    × (after.parent_id ≡ before.parent_id)
    × (after.pgdir ≡ before.pgdir)
    × (after.env_ipc_recving ≡ before.env_ipc_recving)
    × (after.env_ipc_dstva ≡ before.env_ipc_dstva)
    × (after.env_ipc_value ≡ before.env_ipc_value)
    × (after.env_ipc_from ≡ before.env_ipc_from)
    × (after.env_ipc_perm ≡ before.env_ipc_perm)

-- What holds of a kernel that comes back from `process_yield`.
abbrev pub Yielded : Kernel → Option Kernel → Type 0
Yielded k none = Unit
Yielded k (some k') =
    (p : ℕ) × (k'.cur_process ≡ some p)
    × (is_runnable (k.processes p).state ≡ true)
    × ((q : ℕ) → Keeps (k.processes q) (k'.processes q))
    × (k'.mem ≡ k.mem)

save_current-Keeps :
    (k : Kernel) (c : Option ℕ) (q : ℕ)
    → Keeps (k.processes q) ((save_current k c).processes q) × ((save_current k c).mem ≡ k.mem)
save_current-Keeps k none q = ((refl, refl, refl, refl, refl, refl, refl, refl, refl), refl)
save_current-Keeps k (some c) q = (ground arith, refl)

runnable_of : (st : ProcessState) → is_runnable st ≡ true → st ≡ runnable
runnable_of free h = ground arith
runnable_of blocked h = ground arith
runnable_of runnable h = refl

process_run-Keeps_self :
    (k : Kernel) (p : ℕ)
    → is_runnable (k.processes p).state ≡ true
    → Keeps (k.processes p) ((process_run k p).processes p) × ((process_run k p).mem ≡ k.mem)
unfolding process_run
process_run-Keeps_self k p h =
    let (kept, same) = save_current-Keeps k k.cur_process p in
    (
      rw (==_refl p) (
        sym (runnable_of (k.processes p).state h),
        kept.1,
        kept.2,
        kept.3,
        kept.4,
        kept.5,
        kept.6,
        kept.7,
        kept.8,
      ),
      same,
    )

process_run-Keeps :
    (k : Kernel) (p q : ℕ)
    → is_runnable (k.processes p).state ≡ true
    → Keeps (k.processes q) ((process_run k p).processes q)
unfolding process_run
process_run-Keeps k p q h = elim (Bool-cases (p == q)) [
  | inl here ↦
      subst (λ x. Keeps (k.processes x) ((process_run k p).processes x)) ((==_iff p q).0 here)
        (process_run-Keeps_self k p h).0
  | inr other ↦ rw other (save_current-Keeps k k.cur_process q).0
]

run_chosen-Yielded :
    (k : Kernel) (r : Option (Option ℕ × ℕ × Lists))
    → IsChoice k.processes r
    → Yielded k (run_chosen k r)
run_chosen-Yielded k none h = tt
run_chosen-Yielded k (some (none, count, l)) h = absurd h
run_chosen-Yielded k (some (some p, count, l)) h =
    let k1 : Kernel = record k { schedule_list = l; count = (count + 2 ^ 32 - 1) % 2 ^ 32 } in
    (
      p,
      unfold process_run in refl,
      h,
      λ q. process_run-Keeps k1 p q h,
      (process_run-Keeps_self k1 p h).1,
    )

-- If `process_yield` comes back, with whatever fuel, it runs a process that could run; every
-- process keeps its state, its ids, its page directory and its message fields, and the memory
-- stays.
pub process_yield-Yielded : (fuel : ℕ) (k : Kernel) → Yielded k (process_yield fuel k)
unfolding process_yield
process_yield-Yielded fuel k =
    run_chosen-Yielded k (yield_loop fuel k.processes k.count k.cur_process k.schedule_list)
      (yield_loop-IsChoice fuel k.processes k.count k.cur_process k.schedule_list)
