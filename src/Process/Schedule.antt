-- ===== src/Process/Schedule.antt =====
-- The scheduler of kernel/trap/process.c.
use riem_os.Base.{
  ℕ, zero, suc, ◌<◌, ◌≤◌, ◌≡◌, refl, ◌∙◌, ap, arith, true, false, Option, none, some, List, [], ◌∷◌,
  ◌++◌, length, mem, append-nil, length-append,
}
use riem_os.Queue.{Lists, insert_tail, unlink}
use riem_os.Queue.Chain.{IsList}
use riem_os.Queue.Remove.{unlink-append}
use riem_os.Queue.Tail.{insert_tail-append}
use riem_os.Process.{
  Kernel, Process, is_runnable, take_first, take_next, take_at, requeue, stays, yield_loop,
  run_chosen, process_yield, process_run, process_total_number, save_current,
}

append_cons_assoc : (xs ys : List ℕ) (y : ℕ) → (xs ++ y ∷ ys) ≡ ((xs ++ y ∷ []) ++ ys)
append_cons_assoc [] ys y = refl
append_cons_assoc (x ∷ xs) ys y = ap (λ t. x ∷ t) (append_cons_assoc xs ys y)

pub append-middle :
    (xs ys : List ℕ) (p q : ℕ) → ((xs ++ p ∷ ys) ++ q ∷ []) ≡ (xs ++ p ∷ (ys ++ q ∷ []))
append-middle [] ys p q = refl
append-middle (x ∷ xs) ys p q = ap (λ t. x ∷ t) (append-middle xs ys p q)

-- What is left of a round once the process is back in the list.
abbrev pub pick : ℕ → (ℕ → Process) → Option (ℕ × Lists) → Option (Option ℕ × ℕ × Lists)
pick fuel ps chosen = elim chosen [ none ↦ none | some (p, l) ↦ yield_loop fuel ps 1 (some p) l ]

pub yield_loop_round :
    (fuel : ℕ) (ps : ℕ → Process) (count : ℕ) (process : Option ℕ) (l : Lists)
    → stays ps count process ≡ true
    → yield_loop (suc fuel) ps count process l ≡ pick fuel ps (take_next (requeue l process))
unfolding yield_loop
yield_loop_round fuel ps count process l h = rw (h, yield_loop) refl

yield_loop_done :
    (fuel : ℕ) (ps : ℕ → Process) (p : ℕ) (l : Lists)
    → is_runnable (ps p).state ≡ true
    → yield_loop (suc fuel) ps 1 (some p) l ≡ some (some p, 1, l)
unfolding yield_loop
yield_loop_done fuel ps p l h = rw (h, yield_loop) refl

abbrev Picks : ℕ → (ℕ → Process) → Lists → ℕ → List ℕ → Type 0
Picks fuel ps l p xs =
    (t : Lists) × (pick fuel ps (take_first l) ≡ some (some p, 1, t)) × IsList t xs

-- A process at the head that cannot run goes to the end of the list, and the choice goes on there.
pick-later :
    (fuel : ℕ) (ps : ℕ → Process) (l : Lists) (pre post : List ℕ) (x p : ℕ)
    → IsList l (x ∷ (pre ++ p ∷ post))
    → is_runnable (ps x).state ≡ false
    → ((t : Lists)
        → IsList t (pre ++ p ∷ (post ++ x ∷ []))
        → Picks fuel ps t p ((post ++ x ∷ []) ++ pre))
    → length (pre ++ p ∷ post) ≤ process_total_number
    → Picks (suc fuel) ps l p (post ++ x ∷ pre)
pick-later fuel ps l pre post x p list blocked later k = go (
    insert_tail-append process_total_number (unlink l x) (pre ++ p ∷ post) x
      (unlink-append l [] (pre ++ p ∷ post) x list) list.distinct.0 k)
  where
    finish :
        (t : Lists)
        → insert_tail process_total_number (unlink l x) x ≡ some t
        → Picks fuel ps t p ((post ++ x ∷ []) ++ pre)
        → Picks (suc fuel) ps l p (post ++ x ∷ pre)
    finish t put (u, e, list') = (
      u,
      ap (λ f. pick (suc fuel) ps (take_at l f)) list.chain.0
          ∙ yield_loop_round fuel ps 1 (some x) (unlink l x) (ground (arith, blocked))
          ∙ ap (λ r. pick fuel ps (take_next r)) put
          ∙ e,
      rw (append_cons_assoc post pre x) list',
    )

    go :
        ((t : Lists) × (insert_tail process_total_number (unlink l x) x ≡ some t)
          × IsList t ((pre ++ p ∷ post) ++ x ∷ []))
        → Picks (suc fuel) ps l p (post ++ x ∷ pre)
    go (t, put, list') = finish t put (later t (rw (append-middle pre post p x) at list'))

pick-first :
    (fuel : ℕ) (ps : ℕ → Process) (l : Lists) (pre post : List ℕ) (p : ℕ)
    → IsList l (pre ++ p ∷ post)
    → ((q : ℕ) → mem q pre ≡ true → is_runnable (ps q).state ≡ false)
    → is_runnable (ps p).state ≡ true
    → length pre < fuel
    → length (pre ++ p ∷ post) ≤ suc process_total_number
    → Picks fuel ps l p (post ++ pre)
pick-first zero ps l pre post p list blocked run h k = absurd (omega arith)
pick-first (suc fuel) ps l [] post p list blocked run h k = (
  unlink l p,
  ap (λ f. pick (suc fuel) ps (take_at l f)) list.chain.0
      ∙ yield_loop_done fuel ps p (unlink l p) run,
  rw append-nil (unlink-append l [] post p list),
)
pick-first (suc fuel) ps l (x ∷ pre) post p list blocked run h k =
    pick-later fuel ps l pre post x p list (ground (arith, blocked x))
      (λ t list'.
        pick-first fuel ps t pre (post ++ x ∷ []) p list' (λ q m. blocked q (ground arith)) run
          (omega arith)
          (omega (
            arith,
            length-append pre (p ∷ post),
            length-append pre (p ∷ (post ++ x ∷ [])),
            length-append post (x ∷ []),
          )))
      (omega arith)

-- The order in which `process_yield` asks: the list, and behind it the process that gives way.
abbrev pub waiting : Option ℕ → List ℕ → List ℕ
waiting none xs = xs
waiting (some q) xs = xs ++ q ∷ []

-- The current process, if there is one, is not in the list.
abbrev pub IsApart : Option ℕ → List ℕ → Type 0
IsApart none xs = Unit
IsApart (some q) xs = mem q xs ≡ false

-- What `process_yield` leaves: `p` runs, and the list holds `xs`.
pub record Switched (k k' : Kernel) (p : ℕ) (xs : List ℕ) : Type 0 where
  pub cur_process : k'.cur_process ≡ some p
  pub schedule_list : IsList k'.schedule_list xs
  pub count : k'.count ≡ 0
  pub memory : k'.mem ≡ k.mem

yield_loop_entry :
    (fuel : ℕ) (ps : ℕ → Process) (process : Option ℕ) (l : Lists) (xs pre post : List ℕ) (p : ℕ)
    → IsList l xs
    → IsApart process xs
    → waiting process xs ≡ (pre ++ p ∷ post)
    → ((q : ℕ) → mem q pre ≡ true → is_runnable (ps q).state ≡ false)
    → is_runnable (ps p).state ≡ true
    → length xs ≤ process_total_number
    → length pre < fuel
    → (t : Lists) × (yield_loop (suc fuel) ps 0 process l ≡ some (some p, 1, t))
      × IsList t (post ++ pre)
yield_loop_entry fuel ps none l xs pre post p list out order blocked run fits h =
    let (t, e, list') =
      pick-first fuel ps l pre post p (rw order at list) blocked run h
        (omega (arith, ap length order)) in
    (t, yield_loop_round fuel ps 0 none l refl ∙ e, list')
yield_loop_entry fuel ps (some q) l xs pre post p list out order blocked run fits h =
    let (u, put, listed) = insert_tail-append process_total_number l xs q list out fits in
    let (t, e, list') =
      pick-first fuel ps u pre post p (rw order at listed) blocked run h
        (omega (arith, length-append xs (q ∷ []), ap length order)) in
    (
      t,
      yield_loop_round fuel ps 0 (some q) l refl ∙ ap (λ r. pick fuel ps (take_next r)) put ∙ e,
      list',
    )

save_current-rest :
    (k : Kernel) (c : Option ℕ)
    → ((save_current k c).mem ≡ k.mem)
      × ((save_current k c).schedule_list ≡ k.schedule_list)
      × ((save_current k c).count ≡ k.count)
save_current-rest k none = (refl, refl, refl)
save_current-rest k (some c) = (refl, refl, refl)

process_run-Switched :
    (k : Kernel) (p : ℕ) (t : Lists) (xs : List ℕ)
    → IsList t xs
    → Switched k (process_run (record k { schedule_list = t; count = 0 }) p) p xs
unfolding process_run
process_run-Switched k p t xs list =
    let rest = save_current-rest (record k { schedule_list = t; count = 0 }) k.cur_process in
    record { cur_process = refl; schedule_list = rw (rest.1) list; count = rest.2; memory = rest.0 }

-- `process_yield`, when its slice count is 0 and the schedule list is well linked, has at most
-- 1024 processes and not the current one, asks the processes of the schedule list in order, and
-- after them the current one, if there is one. If the ones before `p` cannot run and `p` can, it
-- ends, given fuel for them, runs `p`, and leaves in the list the ones behind `p` and then the
-- ones before it; the count is 0 again.
pub process_yield-Switched :
    (fuel : ℕ) (k : Kernel) (xs pre post : List ℕ) (p : ℕ)
    → k.count ≡ 0
    → IsList k.schedule_list xs
    → IsApart k.cur_process xs
    → length xs ≤ process_total_number
    → waiting k.cur_process xs ≡ (pre ++ p ∷ post)
    → ((q : ℕ) → mem q pre ≡ true → is_runnable (k.processes q).state ≡ false)
    → is_runnable (k.processes p).state ≡ true
    → length pre < fuel
    → (k' : Kernel) × (process_yield (suc fuel) k ≡ some k') × Switched k k' p (post ++ pre)
unfolding process_yield
process_yield-Switched fuel k xs pre post p idle list out fits order blocked run h =
    let (t, e, list') =
      yield_loop_entry fuel k.processes k.cur_process k.schedule_list xs pre post p list out order
        blocked run fits h in
    (
      process_run (record k { schedule_list = t; count = 0 }) p,
      ap (λ c. run_chosen k (yield_loop (suc fuel) k.processes c k.cur_process k.schedule_list))
            idle
          ∙ ap (run_chosen k) e,
      process_run-Switched k p t (post ++ pre) list',
    )
