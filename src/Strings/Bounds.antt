-- ===== src/Strings/Bounds.antt =====
-- Where `safestrcpy` of kernel/utility/string.c writes.
use riem_os.Base.{ℕ, zero, suc, ◌+◌, ◌≤◌, ◌<◌, ◌≡◌, ◌∙◌, ap, ◌⊎◌, inl, inr, arith, ◌==◌, Bool-cases}
use riem_os.Memory.Ram.{Bytes, store8}
use riem_os.Strings.{safe_copy, safestrcpy}

-- The block of `n` bytes at `s` ends a string, and the rest of the memory is as before.
abbrev pub Terminated : Bytes → Bytes → ℕ → ℕ → Type 0
Terminated m m' s n =
    ((i : ℕ) × (i < n) × (m' (s + i) ≡ 0)) × ((q : ℕ) → (q < s) ⊎ (s + n ≤ q) → m' q ≡ m q)

safe_copy-Terminated : (n : ℕ) (m : Bytes) (s t : ℕ) → Terminated m (safe_copy n m s t) s (suc n)
unfolding safe_copy store8
safe_copy-Terminated zero m s t = ((0, omega arith, ground arith), λ q h. ground arith)
safe_copy-Terminated (suc n) m s t =
    let ((i, h, ends), frame) = safe_copy-Terminated n (store8 m s (m t)) (s + 1) (t + 1) in
    elim (Bool-cases (store8 m s (m t) s == 0)) [
      | inl last ↦ rw last ((1, omega arith, ground arith), λ q k. ground arith)
      | inr more ↦ rw more (
        (
          suc i,
          omega arith,
          ap (safe_copy n (store8 m s (m t)) (s + 1) (t + 1)) (omega arith) ∙ ends,
        ),
        λ q k. frame q (omega arith) ∙ ground arith,
      )
    ]

-- `safestrcpy` into `n` bytes, `n` not 0, leaves a string that ends within them, whatever the source, and
-- writes nowhere else.
pub safestrcpy-Terminated : (m : Bytes) (s t n : ℕ) → 0 < n → Terminated m (safestrcpy m s t n) s n
unfolding safestrcpy
safestrcpy-Terminated m s t zero h = absurd (omega arith)
safestrcpy-Terminated m s t (suc n) h = safe_copy-Terminated n m s t
