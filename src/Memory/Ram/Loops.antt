-- ===== src/Memory/Ram/Loops.antt =====
-- The three loops of `bzero` of kernel/memory/memory.c clear one block.
use mathlib.Core.Path.{fun_ext}
use riem_os.Base.{
  ℕ, zero, suc, ◌+◌, ◌%◌, ◌≤◌, ◌≡◌, refl, ◌∙◌, sym, ◌⊎◌, inl, inr, arith, ◌==◌, Bool-cases,
}
use riem_os.Memory.Ram.{
  Bytes, Span, store8, store32, load32, load64, zeroed, zero_head, zero_words, zero_bytes, bzero,
}

-- One byte of a block.
zeroed_step : (m : Bytes) (p n : ℕ) → zeroed (store8 m p 0) (p + 1) n ≡ zeroed m p (suc n)
unfolding store8
zeroed_step m p n = fun_ext λ q. ground arith

zeroed_none : (m : Bytes) (p : ℕ) → zeroed m p 0 ≡ m
zeroed_none m p = fun_ext λ q. ground arith

zeroed_word :
    (m : Bytes) (p n : ℕ) → zeroed (store32 m p 0) (p + 4) n ≡ zeroed m p (suc (suc (suc (suc n))))
unfolding store32
zeroed_word m p n = fun_ext λ q. ground arith

zero_bytes-zeroed : (n : ℕ) (m : Bytes) (p : ℕ) → zero_bytes n m p ≡ zeroed m p n
unfolding zero_bytes
zero_bytes-zeroed zero m p = sym (zeroed_none m p)
zero_bytes-zeroed (suc n) m p = zero_bytes-zeroed n (store8 m p 0) (p + 1) ∙ zeroed_step m p n

-- What is left to clear after a loop, cleared.
abbrev rest_zeroed : Span → Bytes
rest_zeroed s = zeroed s.ram s.at s.left

zero_words-zeroed : (n : ℕ) (m : Bytes) (p : ℕ) → rest_zeroed (zero_words n m p) ≡ zeroed m p n
unfolding zero_words
zero_words-zeroed zero m p = refl
zero_words-zeroed (suc zero) m p = refl
zero_words-zeroed (suc (suc zero)) m p = refl
zero_words-zeroed (suc (suc (suc zero))) m p = refl
zero_words-zeroed (suc (suc (suc (suc n)))) m p =
    zero_words-zeroed n (store32 m p 0) (p + 4) ∙ zeroed_word m p n

zero_head-zeroed : (n : ℕ) (m : Bytes) (p : ℕ) → rest_zeroed (zero_head n m p) ≡ zeroed m p n
unfolding zero_head
zero_head-zeroed zero m p = refl
zero_head-zeroed (suc n) m p = elim (Bool-cases (p % 4 == 0)) [
  | inl aligned ↦ rw aligned
  | inr not_aligned ↦ rw not_aligned (zero_head-zeroed n (store8 m p 0) (p + 1) ∙ zeroed_step m p n)
]

-- `bzero` sets exactly the bytes of its block to zero, whatever the alignment of its ends.
pub bzero-zeroed : (m : Bytes) (start len : ℕ) → bzero m start len ≡ zeroed m start len
unfolding bzero
bzero-zeroed m start len =
    zero_bytes-zeroed _ _ _ ∙ zero_words-zeroed _ _ _ ∙ zero_head-zeroed len m start

load32-bzero_in :
    (m : Bytes) (start len p : ℕ)
    → start ≤ p
    → p + 4 ≤ start + len
    → load32 (bzero m start len) p ≡ 0
unfolding load32
load32-bzero_in m start len p h k = rw bzero-zeroed (ground arith)

load32-bzero_out :
    (m : Bytes) (start len p : ℕ)
    → (p + 4 ≤ start) ⊎ (start + len ≤ p)
    → load32 (bzero m start len) p ≡ load32 m p
unfolding load32
load32-bzero_out m start len p h = rw bzero-zeroed (ground arith)

-- A doubleword inside a cleared block reads as zero.
pub load64-bzero_in :
    (m : Bytes) (start len p : ℕ)
    → start ≤ p
    → p + 8 ≤ start + len
    → load64 (bzero m start len) p ≡ 0
unfolding load64
load64-bzero_in m start len p h k = omega (
  arith,
  load32-bzero_in m start len p h (omega arith),
  load32-bzero_in m start len (p + 4) (omega arith) (omega arith),
)

pub load64-bzero_out :
    (m : Bytes) (start len p : ℕ)
    → (p + 8 ≤ start) ⊎ (start + len ≤ p)
    → load64 (bzero m start len) p ≡ load64 m p
unfolding load64
load64-bzero_out m start len p h =
    ground (arith, load32-bzero_out m start len p, load32-bzero_out m start len (p + 4))
