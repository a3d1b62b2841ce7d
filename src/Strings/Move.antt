-- ===== src/Strings/Move.antt =====
-- `memmove` and `memset` of kernel/utility/string.c.
use mathlib.Core.Path.{fun_ext}
use riem_os.Base.{
  ℕ, zero, suc, ◌+◌, ◌-◌, ◌%◌, ◌≤◌, ◌≡◌, ◌∙◌, ap, inl, inr, arith, ◌==◌, if◌then◌else◌, ltb, leb,
  ◌&&◌, Bool-cases,
}
use riem_os.Memory.Ram.{Bytes, store8}
use riem_os.Memory.Ram.Copy.{IsBytes, store8-IsBytes, moved, copy_bytes-moved}
use riem_os.Strings.{memset, copy_back, memmove}

-- A byte loop that runs downwards moves a block that does not reach above its destination.
pub copy_back-moved :
    (n : ℕ) (m : Bytes) (src dst : ℕ)
    → IsBytes m
    → src ≤ dst
    → copy_back n m src dst ≡ moved m src dst n
unfolding copy_back store8
copy_back-moved zero m src dst h e = fun_ext λ q. ground arith
copy_back-moved (suc n) m src dst h e =
    copy_back-moved n (store8 m (dst + n) (m (src + n))) src dst
      (store8-IsBytes m (dst + n) (m (src + n)) h) e
    ∙ fun_ext λ q. step q
  where
    step :
        (q : ℕ) → moved (store8 m (dst + n) (m (src + n))) src dst n q ≡ moved m src dst (suc n) q
    step q = ground (arith, h (src + n), last)
      where
        last : q ≡ dst + n → m (src + (q - dst)) ≡ m (src + n)
        last e = ap m (omega arith)

-- In a memory of bytes, `memmove` moves a block for every source, destination and length: the
-- destination holds what the source held before, however they overlap, and nothing else changes.
pub memmove-moved :
    (m : Bytes) (dst src n : ℕ) → IsBytes m → memmove m dst src n ≡ moved m src dst n
unfolding memmove
memmove-moved m dst src n h = elim (Bool-cases (n == 0)) [
  | inl none_left ↦ rw none_left (fun_ext λ q. ground (arith, none_left))
  | inr some_left ↦ elim (Bool-cases (ltb src dst && ltb dst (src + n))) [
    | inl over ↦ rw some_left (rw over (copy_back-moved n m src dst h (ground (arith, over))))
    | inr apart ↦ rw some_left (rw apart (copy_bytes-moved n m src dst h (ground (arith, apart))))
  ]
]

-- `memset` sets exactly the bytes of its block to the low byte of `c`.
pub memset_lem :
    (n : ℕ) (m : Bytes) (dst c q : ℕ)
    → memset m dst c n q ≡ (if leb dst q && ltb q (dst + n) then c % 256 else m q)
unfolding memset store8
memset_lem zero m dst c q = ground arith
memset_lem (suc n) m dst c q = ground (arith, memset_lem n (store8 m dst c) (dst + 1) c q)
