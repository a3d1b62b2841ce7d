-- ===== src/Process/Alloc.antt =====
-- What `process_alloc` of kernel/trap/process.c hands out.
use riem_os.Base.{
  ℕ, ◌+◌, ◌^◌, ◌<◌, ◌≡◌, ◌≢◌, inl, refl, ◌∙◌, sym, ap, subst, mem, arith, true, false, Option, none,
  some, List, [], ◌∷◌, ==_refl, ==_ne,
}
use riem_os.Queue.{unlink}
use riem_os.Queue.Chain.{IsList}
use riem_os.Queue.Remove.{unlink-append}
use riem_os.Memory.{Mem, pgdir_alloc, page_alloc, ref_up}
use riem_os.Memory.Pages.{page_alloc-cons, page_alloc-nil}
use riem_os.Memory.Pte.{page2pa}
use riem_os.Process.{
  Kernel, Process, free, runnable, set_process, process_total_number, generate_pid, process_found,
  pid2process, process_offset,
}
use riem_os.Process.Pid.{generate_pid-offset, pid2process_complete}
use riem_os.Process.Create.{
  Image, user_stack_top, Allocated, allocated, no_free_env, stack_page, map_stack, setup_with,
  start_process, alloc_at, process_setup, process_alloc,
}

-- Process `p` is new in `k'`: it can run, has a fresh id that leads to it, its parent and its stack;
-- it is off the free list, and the rest of the process table and the schedule are as in `k`.
pub record Started (k k' : Kernel) (p parent : ℕ) : Type 0 where
  pub state : (k'.processes p).state ≡ runnable
  pub parent_id : (k'.processes p).parent_id ≡ parent
  pub id : (k'.processes p).id ≡ (generate_pid k.next_id p).0
  pub next_id : k'.next_id ≡ k.next_id + 1
  pub sp : (k'.processes p).trapframe.sp ≡ user_stack_top
  pub known : pid2process k' (k'.processes p).id false ≡ process_found p
  pub others : (q : ℕ) → q ≢ p → k'.processes q ≡ k.processes q
  pub free_processes : k'.free_processes ≡ unlink k.free_processes p
  pub schedule_list : k'.schedule_list ≡ k.schedule_list
  pub cur_process : k'.cur_process ≡ k.cur_process
  pub trapframe : k'.trapframe ≡ k.trapframe

-- The kernel behind `process_setup`.
abbrev pub set_up : Kernel → ℕ → Process → Mem → Kernel
set_up k p v x =
    record (set_process (record k { free_processes = unlink k.free_processes p }) p v) { mem = x }

start_process-id :
    (image : Image) (k : Kernel) (p parent : ℕ) (v : Process) (x : Mem)
    → ((start_process image p parent (set_up k p v x)).processes p).id
      ≡ (generate_pid k.next_id p).0
start_process-id image k p parent v x = rw (==_refl p) refl

start_process-state :
    (image : Image) (k : Kernel) (p parent : ℕ) (v : Process) (x : Mem)
    → ((start_process image p parent (set_up k p v x)).processes p).state ≡ runnable
start_process-state image k p parent v x = rw (==_refl p) refl

start_process-Started :
    (image : Image) (k : Kernel) (p parent : ℕ) (v : Process) (x : Mem)
    → p < process_total_number
    → k.next_id + 1 < 2 ^ 21
    → Started k (start_process image p parent (set_up k p v x)) p parent
start_process-Started image k p parent v x low few = record {
  state = rw (==_refl p) refl;
  parent_id = rw (==_refl p) refl;
  id = start_process-id image k p parent v x;
  next_id = (generate_pid-offset k.next_id p low few).3;
  sp = rw (==_refl p) refl;
  known =
      pid2process_complete _ false p
        (λ e.
          (generate_pid-offset k.next_id p low few).2
            (sym (start_process-id image k p parent v x) ∙ e))
        (ap process_offset (start_process-id image k p parent v x)
          ∙ (generate_pid-offset k.next_id p low few).0)
        (λ e. runnable_ne (sym (start_process-state image k p parent v x) ∙ e)) (inl refl);
  others = λ q ne. rw (==_ne p q (λ e. ne (sym e))) refl;
  free_processes = refl;
  schedule_list = refl;
  cur_process = refl;
  trapframe = refl;
}
  where
    runnable_ne : runnable ≡ free → ⊥
    runnable_ne e = ground (arith, e)

-- What `process_alloc` comes to on a kernel with the free processes `spare` and free pages `pages`.
abbrev pub IsAlloc : Kernel → ℕ → List ℕ → List ℕ → Option Allocated → Type 0
IsAlloc k parent spare pages none = (pages ≡ []) × (spare ≢ [])
IsAlloc k parent spare pages (some no_free_env) = spare ≡ []
IsAlloc k parent spare pages (some (allocated p k')) =
    (pages ≢ [])
    × (rest : List ℕ) × (spare ≡ p ∷ rest)
    × IsList k'.free_processes rest
    × Started k k' p parent

pgdir_alloc-some :
    (m m' : Mem) (page : ℕ)
    → page_alloc m ≡ some (page, m')
    → pgdir_alloc m ≡ some (page, ref_up m' page)
unfolding pgdir_alloc
pgdir_alloc-some m m' page e = rw (e, pgdir_alloc) refl

pgdir_alloc-none : (m : Mem) → page_alloc m ≡ none → pgdir_alloc m ≡ none
unfolding pgdir_alloc
pgdir_alloc-none m e = rw (e, pgdir_alloc) refl

process_setup-some :
    (image : Image) (k : Kernel) (p page : ℕ) (m : Mem)
    → pgdir_alloc k.mem ≡ some (page, m)
    → process_setup image k p
      ≡ some
          (record (set_process k p
            (record (k.processes p) { pgdir = page2pa page; parent_id = 0 })) {
              mem = map_stack image (page2pa page) p (stack_page image.null_pa m (page_alloc m));
            })
unfolding process_setup
process_setup-some image k p page m e = ap (setup_with image k p) e

process_setup-none :
    (image : Image) (k : Kernel) (p : ℕ) → pgdir_alloc k.mem ≡ none → process_setup image k p ≡ none
unfolding process_setup
process_setup-none image k p e = ap (setup_with image k p) e

abbrev after_setup : Image → ℕ → ℕ → Option Kernel → Option Allocated
after_setup image parent p none = none
after_setup image parent p (some k') = some (allocated p (start_process image p parent k'))

alloc_at-some :
    (image : Image) (k : Kernel) (parent p : ℕ)
    → alloc_at image k parent (some p)
      ≡ after_setup image parent p
          (process_setup image (record k { free_processes = unlink k.free_processes p }) p)
alloc_at-some image k parent p =
    elim (process_setup image (record k { free_processes = unlink k.free_processes p }) p)
      as (λ r.
        (elim r [ none ↦ none | some k' ↦ some (allocated p (start_process image p parent k')) ])
        ≡ after_setup image parent p r) [ none ↦ refl | some k' ↦ refl ]

alloc_at-IsAlloc :
    (image : Image) (k : Kernel) (parent p : ℕ) (rest pages : List ℕ)
    → IsList k.free_processes (p ∷ rest)
    → IsList k.mem.links pages
    → p < process_total_number
    → k.next_id + 1 < 2 ^ 21
    → IsAlloc k parent (p ∷ rest) pages (alloc_at image k parent (some p))
alloc_at-IsAlloc image k parent p rest [] l f low few =
    subst (IsAlloc k parent (p ∷ rest) [])
      (sym (
        alloc_at-some image k parent p
        ∙ ap (after_setup image parent p)
            (process_setup-none image _ p (pgdir_alloc-none k.mem (page_alloc-nil k.mem f)))))
      (refl, λ e. ground (arith, e))
alloc_at-IsAlloc image k parent p rest (page ∷ pages) l f low few =
    subst (IsAlloc k parent (p ∷ rest) (page ∷ pages))
      (sym (
        alloc_at-some image k parent p
        ∙ ap (after_setup image parent p) (
            process_setup-some image _ p page _
              (pgdir_alloc-some k.mem _ page (page_alloc-cons k.mem page pages f).0))))
      (
        (λ e. ground (arith, e)),
        rest,
        refl,
        unlink-append k.free_processes [] rest p l,
        start_process-Started image k p parent _ _ low few,
      )

-- With well linked lists of free processes and of free pages, every free process a slot of the table,
-- and fewer than 2 ^ 21 - 1 ids given out, `process_alloc` fails exactly if no process is free,
-- panics exactly if one is but no page is free, and otherwise takes the first free process off its list
-- and starts it: the process can run, has a fresh id that leads back to it, the given parent and the
-- top of the user stack, and the rest of the process table, the schedule and the current process stay.
pub process_alloc-IsAlloc :
    (image : Image) (k : Kernel) (parent : ℕ) (spare pages : List ℕ)
    → IsList k.free_processes spare
    → IsList k.mem.links pages
    → ((p : ℕ) → mem p spare ≡ true → p < process_total_number)
    → k.next_id + 1 < 2 ^ 21
    → IsAlloc k parent spare pages (process_alloc image k parent)
unfolding process_alloc
process_alloc-IsAlloc image k parent [] pages l f slots few =
    subst (IsAlloc k parent [] pages) (sym (ap (alloc_at image k parent) l.chain)) refl
process_alloc-IsAlloc image k parent (p ∷ rest) pages l f slots few =
    subst (IsAlloc k parent (p ∷ rest) pages) (sym (ap (alloc_at image k parent) l.chain.0))
      (alloc_at-IsAlloc image k parent p rest pages l f (slots p (rw (==_refl p) refl)) few)
