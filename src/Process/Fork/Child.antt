-- ===== src/Process/Fork/Child.antt =====
-- The child that `process_fork` of kernel/trap/process.c makes.
use riem_os.Base.{
  ℕ, ◌+◌, ◌-◌, ◌^◌, ◌<◌, ◌≤◌, ◌≡◌, ◌≢◌, ◌⊎◌, inl, inr, refl, sym, ap, subst, mem, arith, true,
  false, Option, none, some, List, [], ◌∷◌, ◌++◌, ==_refl, ==_ne, length,
}
use riem_os.Queue.{Lists, insert_tail}
use riem_os.Queue.Chain.{IsList}
use riem_os.Queue.Tail.{insert_tail-append}
use riem_os.Process.{
  set_process, Kernel, Trapframe, runnable, process_total_number, generate_pid, e_no_free_env,
}
use riem_os.Process.Create.{Image, Allocated, allocated, no_free_env, process_alloc}
use riem_os.Process.Alloc.{IsAlloc, Started, process_alloc-IsAlloc}
use riem_os.Process.Fork.{fork_frames, fork_with, fork_current, fork_memory, process_fork}

-- Process `p` of `k'` is a child of `c` of `k`: it has the live registers and 0 in a0, its parent's
-- priority and an id that leads to it, can run, and waits last; the parent goes on with that id in a0.
pub record Forked (k k' : Kernel) (c p : ℕ) (queue : List ℕ) : Type 0 where
  pub child : (k'.processes p).trapframe ≡ record k.trapframe { a0 = 0 }
  pub parent : k'.trapframe ≡ record k.trapframe { a0 = (k'.processes p).id }
  pub id : (k'.processes p).id ≡ (generate_pid k.next_id p).0
  pub state : (k'.processes p).state ≡ runnable
  pub parent_id : (k'.processes p).parent_id ≡ (k.processes c).id
  pub priority : (k'.processes p).priority ≡ (k.processes c).priority
  pub waits : IsList k'.schedule_list (queue ++ p ∷ [])
  pub others : (q : ℕ) → q ≢ p → k'.processes q ≡ k.processes q
  pub cur_process : k'.cur_process ≡ k.cur_process

abbrev pub IsFork : Kernel → ℕ → List ℕ → List ℕ → List ℕ → Option Kernel → Type 0
IsFork k c spare pages queue none = (pages ≡ []) × (spare ≢ [])
IsFork k c spare pages queue (some k') =
    ((spare ≡ [])
      × (k'
          ≡ set_process k c (record (k.processes c) {
            trapframe = record (k.processes c).trapframe { a0 = 2 ^ 64 - e_no_free_env };
          })))
    ⊎ ((pages ≢ [])
        × (p : ℕ) × (rest : List ℕ) × (spare ≡ p ∷ rest)
        × IsList k'.free_processes rest
        × Forked k k' c p queue)

-- What `fork_with` gives for a new process, on the list that `insert_tail` leaves.
abbrev copied : Image → Kernel → ℕ → ℕ → Lists → Kernel
copied image k c p l = record (fork_frames k c p) {
  mem = fork_memory image (fork_frames k c p) c p;
  schedule_list = l;
}

fork_with-some :
    (image : Image) (k k' : Kernel) (c p : ℕ) (l : Lists)
    → insert_tail process_total_number k'.schedule_list p ≡ some l
    → fork_with image k c (some (allocated p k')) ≡ some (copied image k' c p l)
fork_with-some image k k' c p l e = rw (e, fork_with) refl

abbrev with_a0 : Trapframe → ℕ → Trapframe
with_a0 t v = record t { a0 = v }

copied-Forked :
    (image : Image) (k k' : Kernel) (c p parent : ℕ) (l : Lists) (queue : List ℕ)
    → p ≢ c
    → IsList l (queue ++ p ∷ [])
    → Started k k' p (k.processes c).id
    → Forked k (copied image k' c p l) c p queue
copied-Forked image k k' c p parent l queue ne waits started = record {
  child = rw (==_refl p) (ap (λ t. with_a0 t 0) started.trapframe);
  parent = rw (==_refl p) (ap (λ t. with_a0 t (k'.processes p).id) started.trapframe);
  id = rw (==_refl p) started.id;
  state = rw (==_refl p) started.state;
  parent_id = rw (==_refl p) started.parent_id;
  priority = rw (==_refl p) (ap (λ r. r.priority) (started.others c (λ e. ne (sym e))));
  waits = waits;
  others = λ q other. rw (==_ne p q (λ e. other (sym e))) (started.others q other);
  cur_process = started.cur_process;
}

fork_with-IsFork :
    (image : Image) (k : Kernel) (c : ℕ) (spare pages queue : List ℕ) (w : Option Allocated)
    → IsList k.schedule_list queue
    → length queue ≤ process_total_number
    → mem c spare ≡ false
    → ((p : ℕ) → mem p spare ≡ true → mem p queue ≡ false)
    → IsAlloc k (k.processes c).id spare pages w
    → IsFork k c spare pages queue (fork_with image k c w)
fork_with-IsFork image k c spare pages queue none q short apart idle h = h
fork_with-IsFork image k c spare pages queue (some no_free_env) q short apart idle h = inl (h, refl)
fork_with-IsFork image k c spare pages queue (some (allocated p k')) q short apart idle
      (page, rest, e, l, started) =
    finish (
      insert_tail-append process_total_number k'.schedule_list queue p
        (subst (λ s. IsList s queue) (sym started.schedule_list) q) (idle p listed) short)
  where
    listed : mem p spare ≡ true
    listed = rw e (rw (==_refl p) refl)

    ne : p ≢ c
    ne d = ground (arith, d, listed, apart, ap (λ x. mem x spare) d)

    finish :
        ((t : Lists) × (insert_tail process_total_number k'.schedule_list p ≡ some t)
          × IsList t (queue ++ p ∷ []))
        → IsFork k c spare pages queue (fork_with image k c (some (allocated p k')))
    finish (t, got, waits) =
        subst (IsFork k c spare pages queue) (sym (fork_with-some image k k' c p t got)) (
          inr (
            page,
            p,
            rest,
            e,
            l,
            copied-Forked image k k' c p (k.processes c).id t queue ne waits started,
          ))

-- With well linked lists of free processes, of free pages and of waiting processes, every free process
-- a slot of the table that does not wait, and fewer than 2 ^ 21 - 1 ids given out, a fork by process
-- `c`, which is not free, makes the first free process its child: the child has the live registers
-- with 0 in a0, its parent's id and priority, can run, and waits last; the parent goes on with the
-- child's id in a0. It panics exactly if a process is free but no page is. If no process is free, nothing
-- changes but a0 of the parent's saved frame, which is -E_NO_FREE_ENV.
pub process_fork-IsFork :
    (image : Image) (k : Kernel) (c : ℕ) (spare pages queue : List ℕ)
    → k.cur_process ≡ some c
    → IsList k.free_processes spare
    → IsList k.mem.links pages
    → IsList k.schedule_list queue
    → length queue ≤ process_total_number
    → mem c spare ≡ false
    → ((p : ℕ) → mem p spare ≡ true → (p < process_total_number) × (mem p queue ≡ false))
    → k.next_id + 1 < 2 ^ 21
    → IsFork k c spare pages queue (process_fork image k)
unfolding process_fork
process_fork-IsFork image k c spare pages queue current l f q short apart idle few =
    subst (IsFork k c spare pages queue) (sym (ap (fork_current image k) current)) (
      fork_with-IsFork image k c spare pages queue (process_alloc image k (k.processes c).id) q
        short apart (λ p h. (idle p h).1)
        (process_alloc-IsAlloc image k (k.processes c).id spare pages l f (λ p h. (idle p h).0)
          few))
