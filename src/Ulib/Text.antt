-- ===== src/Ulib/Text.antt =====
-- `memmove` and `strcmp` of user/lib/uLib.c.
use riem_os.Base.{
  ℕ, zero, suc, ◌+◌, ◌≤◌, ◌<◌, ◌≡◌, ◌≢◌, refl, ◌∙◌, sym, ap, ◌⊎◌, inl, inr, arith, false, Option,
  some, ltb, ◌==◌, ==_iff, Bool-cases,
}
use riem_os.Base.Int.{ℤ}
use riem_os.Memory.Ram.{Bytes}
use riem_os.Memory.Ram.Copy.{IsBytes, moved, copy_bytes-moved}
use riem_os.Strings.{difference}
use riem_os.Strings.Move.{copy_back-moved}
use riem_os.Strings.Compare.{Agree, Agree-step, shift, start}
use riem_os.Ulib.{memmove, strcmp}

-- In a memory of bytes, the `memmove` of user programs moves a block for every source, destination and
-- length: the destination holds what the source held before, and nothing else changes.
pub memmove-moved_any :
    (m : Bytes) (dst src n : ℕ) → IsBytes m → memmove m dst src n ≡ moved m src dst n
unfolding memmove
memmove-moved_any m dst src n h = elim (Bool-cases (ltb dst src)) [
  | inl above ↦ rw above (copy_bytes-moved n m src dst h (inl (ground (arith, above))))
  | inr below ↦ rw below (copy_back-moved n m src dst h (ground (arith, below)))
]

-- The place at which `strcmp` stops, and what it returns there.
abbrev pub Stops : Bytes → ℕ → ℕ → ℕ → Option ℤ → Type 0
Stops m p q k r =
    (i : ℕ) × (i ≤ k)
    × Agree m p q i
    × ((i ≡ k) ⊎ (m (p + i) ≢ m (q + i)))
    × (r ≡ some (difference (m (p + i)) (m (q + i))))

Stops-step :
    (m : Bytes) (p q k : ℕ) (r : Option ℤ)
    → m p ≡ m q
    → Stops m (p + 1) (q + 1) k r
    → Stops m p q (suc k) r
Stops-step m p q k r e (i, h, agree, why, result) = (
  suc i,
  omega arith,
  Agree-step m p q i e agree,
  next why,
  result
      ∙ ap (λ a. some (difference a (m (q + 1 + i)))) (shift m p i)
      ∙ ap (λ b. some (difference (m (p + suc i)) b)) (shift m q i),
)
  where
    next :
        (i ≡ k) ⊎ (m (p + 1 + i) ≢ m (q + 1 + i))
        → (suc i ≡ suc k) ⊎ (m (p + suc i) ≢ m (q + suc i))
    next (inl e) = inl (ap suc e)
    next (inr d) = inr (λ f. d (shift m p i ∙ f ∙ sym (shift m q i)))

-- On a first string of length `k`, `strcmp` ends, given fuel for it, at the end of that string or at the
-- first place where the two differ, and returns the difference of the bytes there.
pub strcmp-Stops :
    (fuel : ℕ) (m : Bytes) (p q k : ℕ)
    → k < fuel
    → m (p + k) ≡ 0
    → ((j : ℕ) → j < k → m (p + j) ≢ 0)
    → Stops m p q k (strcmp fuel m p q)
unfolding strcmp
strcmp-Stops zero m p q k h e before = absurd (omega arith)
strcmp-Stops (suc fuel) m p q zero h e before =
    (0, omega arith, λ j h. absurd (omega arith), inl refl, ground (arith, start m p, start m q))
strcmp-Stops (suc fuel) m p q (suc k) h e before = elim (Bool-cases (m p == m q)) [
  | inl same ↦ rw (inside) (
      rw same (
        Stops-step m p q k _ ((==_iff _ _).0 same) (
          strcmp-Stops fuel m (p + 1) (q + 1) k (omega arith) (shift m p k ∙ e)
            (λ j h z. before (suc j) (omega arith) (sym (shift m p j) ∙ z)))))
  | inr differ ↦ (
    0,
    omega arith,
    λ j h. absurd (omega arith),
    inr (ground (arith, differ, start m p, start m q)),
    ground (arith, inside, differ, start m p, start m q),
  )
]
  where
    inside : (m p == 0) ≡ false
    inside = ground (arith, before 0, start m p)
