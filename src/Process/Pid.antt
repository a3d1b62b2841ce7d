-- ===== src/Process/Pid.antt =====
-- Process ids of kernel/trap/process.c.
use riem_os.Base.{
  ℕ, ◌+◌, ◌*◌, ◌%◌, ◌^◌, ◌<◌, ◌≡◌, ◌≢◌, ◌↔◌, refl, ◌∙◌, ap, arith, Bool, true, false, some, bit_or,
  ◌⊎◌, inl, inr, Bool-cases, Option, none,
}
use riem_os.Base.Bits.{bit_or_low}
use riem_os.Process.{
  Kernel, ProcessState, free, blocked, runnable, is_free, is_permitted, check_permission,
  process_offset, process_total_number, generate_pid, process_found, pid2process,
}

generate_pid_sum :
    (next_id p : ℕ) → p < 2 ^ 11 → (generate_pid next_id p).0 ≡ (next_id + 1) % 2 ^ 21 * 2 ^ 11 + p
unfolding generate_pid
generate_pid_sum next_id p h =
    ap (λ t. bit_or t p) shifted ∙ bit_or_low 11 ((next_id + 1) % 2 ^ 21) p h
  where
    shifted : (next_id + 1) % 2 ^ 32 * 2 ^ 11 % 2 ^ 32 ≡ (next_id + 1) % 2 ^ 21 * 2 ^ 11
    shifted = omega arith

-- An id of a slot of the table leads back to its slot of the process table, fits an u_int, and is
-- not the 0 that stands for the current process, as long as fewer than 2 ^ 21 - 1 ids have been
-- given out.
pub generate_pid-offset :
    (next_id p : ℕ)
    → p < process_total_number
    → next_id + 1 < 2 ^ 21
    → (process_offset (generate_pid next_id p).0 ≡ p)
      × ((generate_pid next_id p).0 < 2 ^ 32)
      × ((generate_pid next_id p).0 ≢ 0)
      × ((generate_pid next_id p).1 ≡ next_id + 1)
unfolding generate_pid
generate_pid-offset next_id p h k =
    let sum = generate_pid_sum next_id p (omega arith) in
    (omega (arith, sum), omega (arith, sum), omega (arith, sum), omega arith)

-- Ids of two slots of the table are the same exactly if their counts agree modulo 2 ^ 21 and the
-- slots are the same.
pub generate_pid-eq_iff :
    (n m p q : ℕ)
    → p < process_total_number
    → q < process_total_number
    → ((generate_pid n p).0 ≡ (generate_pid m q).0)
      ↔ (((n + 1) % 2 ^ 21 ≡ (m + 1) % 2 ^ 21) × (p ≡ q))
generate_pid-eq_iff n m p q hp hq = (
  λ e. omega (arith, e, generate_pid_sum n p (omega arith), generate_pid_sum m q (omega arith)),
  λ (e, f).
      omega (arith, e, f, generate_pid_sum n p (omega arith), generate_pid_sum m q (omega arith)),
)

-- A process that a nonzero id leads to lies in the table, is not free and carries that id; and if
-- permission is asked for, it is the current process or a child of it.
pub pid2process-found :
    (k : Kernel) (id : ℕ) (check : Bool) (p : ℕ)
    → id ≢ 0
    → pid2process k id check ≡ process_found p
    → (p < process_total_number)
      × ((k.processes p).id ≡ id)
      × ((k.processes p).state ≢ free)
      × (check ≡ true → (c : ℕ) × (k.cur_process ≡ some c) × (is_permitted k p c ≡ true))
unfolding pid2process
pid2process-found k id check p ne h = elim (Bool-cases check) [
  | inl c ↦
      let found : check_permission k p k.cur_process ≡ process_found p = ground arith in
      (ground arith, ground arith, ground arith, λ _. permitted k.cur_process found)
  | inr c ↦ (ground arith, ground arith, ground arith, λ e. absurd (ground arith))
]
  where
    permitted :
        (w : Option ℕ)
        → check_permission k p w ≡ process_found p
        → (c : ℕ) × (w ≡ some c) × (is_permitted k p c ≡ true)
    permitted none e = ground (arith, e)
    permitted (some c) e = (c, refl, ground (arith, e))

is_free_ne : (st : ProcessState) → st ≢ free → is_free st ≡ false
is_free_ne free h = absurd (h refl)
is_free_ne blocked h = refl
is_free_ne runnable h = refl

-- Every process that is not free is found under its own id, if the id leads to its slot, is not 0,
-- and permission is not asked for or is there.
pub pid2process_complete :
    (k : Kernel) (check : Bool) (p : ℕ)
    → (k.processes p).id ≢ 0
    → process_offset (k.processes p).id ≡ p
    → (k.processes p).state ≢ free
    → (check ≡ false) ⊎ ((c : ℕ) × (k.cur_process ≡ some c) × (is_permitted k p c ≡ true))
    → pid2process k (k.processes p).id check ≡ process_found p
unfolding pid2process
pid2process_complete k check p ne at live (inl e) =
    rw (at, e) (ground (arith, is_free_ne (k.processes p).state live))
pid2process_complete k check p ne at live (inr (c, e, allowed)) = elim (Bool-cases check) [
  | inl asked ↦ rw (at, asked, e, allowed) (ground (arith, is_free_ne (k.processes p).state live))
  | inr unasked ↦ rw (at, unasked) (ground (arith, is_free_ne (k.processes p).state live))
]
