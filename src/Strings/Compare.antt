-- ===== src/Strings/Compare.antt =====
-- `memcmp` and `strlen` of kernel/utility/string.c.
use riem_os.Base.{
  ℕ, zero, suc, ◌+◌, ◌≤◌, ◌<◌, ◌≡◌, ◌≢◌, refl, ◌∙◌, sym, ap, ◌⊎◌, inl, inr, arith, some, ◌==◌,
  ==_iff, Bool-cases,
}
use riem_os.Base.Int.{pos}
use riem_os.Memory.Ram.{Bytes}
use riem_os.Strings.{memcmp, difference, strlen, strlen_from}

-- The first `i` bytes of two blocks agree.
abbrev pub Agree : Bytes → ℕ → ℕ → ℕ → Type 0
Agree m v1 v2 i = (j : ℕ) → j < i → m (v1 + j) ≡ m (v2 + j)

pub Agree-step :
    (m : Bytes) (v1 v2 i : ℕ) → m v1 ≡ m v2 → Agree m (v1 + 1) (v2 + 1) i → Agree m v1 v2 (suc i)
Agree-step m v1 v2 i e h zero k = ap m (omega arith) ∙ e ∙ ap m (omega arith)
Agree-step m v1 v2 i e h (suc j) k = ap m (omega arith) ∙ h j (omega arith) ∙ ap m (omega arith)

-- The byte behind, seen from one byte on.
pub shift : (m : Bytes) (v i : ℕ) → m (v + 1 + i) ≡ m (v + suc i)
shift m v i = ap m (omega arith)

pub start : (m : Bytes) (v : ℕ) → m v ≡ m (v + 0)
start m v = ap m (omega arith)

-- `memcmp` returns 0 if the blocks agree, and else the difference of the first two bytes that
-- differ.
pub memcmp_lem :
    (m : Bytes) (v1 v2 n : ℕ)
    → (Agree m v1 v2 n × (memcmp m v1 v2 n ≡ pos 0))
      ⊎ ((i : ℕ) × (i < n)
          × Agree m v1 v2 i
          × (m (v1 + i) ≢ m (v2 + i))
          × (memcmp m v1 v2 n ≡ difference (m (v1 + i)) (m (v2 + i))))
unfolding memcmp
memcmp_lem m v1 v2 zero = inl (λ j h. absurd (omega arith), refl)
memcmp_lem m v1 v2 (suc n) = elim (Bool-cases (m v1 == m v2)) [
  | inr differ ↦ inr (
    0,
    omega arith,
    λ j h. absurd (omega arith),
    ground arith,
    rw differ
        (ap (λ a. difference a (m v2)) (start m v1) ∙ ap (difference (m (v1 + 0))) (start m v2)),
  )
  | inl same ↦ elim (memcmp_lem m (v1 + 1) (v2 + 1) n) [
    | inl (all, e) ↦ inl (Agree-step m v1 v2 n ((==_iff _ _).0 same) all, rw same e)
    | inr (i, h, before, differ, e) ↦ inr (
      suc i,
      omega arith,
      Agree-step m v1 v2 i ((==_iff _ _).0 same) before,
      λ d. differ (shift m v1 i ∙ d ∙ sym (shift m v2 i)),
      rw same (
          e
          ∙ ap (λ a. difference a (m (v2 + 1 + i))) (shift m v1 i)
          ∙ ap (difference (m (v1 + suc i))) (shift m v2 i)),
    )
  ]
]

strlen_from_lem :
    (fuel : ℕ) (m : Bytes) (s n k : ℕ)
    → k < fuel
    → m (s + (n + k)) ≡ 0
    → ((j : ℕ) → n ≤ j → j < n + k → m (s + j) ≢ 0)
    → strlen_from fuel m s n ≡ some (n + k)
unfolding strlen_from
strlen_from_lem zero m s n k h e before = absurd (omega arith)
strlen_from_lem (suc fuel) m s n zero h e before = ground arith
strlen_from_lem (suc fuel) m s n (suc k) h e before = ground (
  arith,
  before n,
  strlen_from_lem fuel m s (n + 1) k (omega arith) (ap m (omega arith) ∙ e)
      (λ j p q. before j (omega arith) (omega arith)),
)

-- `strlen` ends at the first NUL, given fuel for it, and returns its distance.
pub strlen_lem :
    (fuel : ℕ) (m : Bytes) (s k : ℕ)
    → k < fuel
    → m (s + k) ≡ 0
    → ((j : ℕ) → j < k → m (s + j) ≢ 0)
    → strlen fuel m s ≡ some k
unfolding strlen
strlen_lem fuel m s k h e before =
    strlen_from_lem fuel m s 0 k h (ap m (omega arith) ∙ e) (λ j p q. before j (omega (arith, q)))
    ∙ ap some (omega arith)
