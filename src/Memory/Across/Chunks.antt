-- ===== src/Memory/Across/Chunks.antt =====
-- The block that `copyin` of kernel/memory/memory.c copies, one round after the other.
use mathlib.Core.Path.{fun_ext}
use riem_os.Base.{
  ℕ, ◌+◌, ◌-◌, ◌/◌, ◌%◌, ◌<◌, ◌≤◌, ◌≡◌, ◌≢◌, ◌∙◌, sym, ap, arith, true, ◌&&◌, Bool-cases, inl, inr,
  ◌⊎◌, ltb, leb, if◌then◌else◌,
}
use riem_os.Memory.Ram.{Bytes}
use riem_os.Memory.Ram.Copy.{IsBytes, moved}
use riem_os.Memory.Pte.{page_size, down_align, pte2pa, has_bit, pte_u}
use riem_os.Memory.Tree.{is_valid}
use riem_os.Memory.User.{max_va}

-- The physical address that a translation gives to `va`.
abbrev pub place : (ℕ → ℕ) → ℕ → ℕ
place tr va = pte2pa (tr va) + va % 4096

-- The block of `n` bytes at `dst` holds the user block at `src`; nothing else changed.
abbrev pub copied : (ℕ → ℕ) → Bytes → ℕ → ℕ → ℕ → Bytes
copied tr ram dst src n q =
    if leb dst q && ltb q (dst + n) then ram (place tr (src + (q - dst))) else ram q

-- The byte at `va` is in a user page, whose frame is not at address 0.
abbrev pub IsReadable : (ℕ → ℕ) → ℕ → Type 0
IsReadable tr va =
    (va < max_va)
    × (is_valid (tr va) ≡ true)
    × (has_bit pte_u (tr va) ≡ true)
    × (pte2pa (tr va) ≢ 0)

abbrev pub IsApart : (ℕ → ℕ) → ℕ → ℕ → ℕ → Type 0
IsApart tr va dst n = (place tr va < dst) ⊎ (dst + n ≤ place tr va)

pub moved-IsBytes : (m : Bytes) (src dst n : ℕ) → IsBytes m → IsBytes (moved m src dst n)
moved-IsBytes m src dst n h q = ground (arith, h q, h (src + (q - dst)))

pub in_block :
    (dst n q x y : ℕ) → dst ≤ q → q < dst + n → (if leb dst q && ltb q (dst + n) then x else y) ≡ x
in_block dst n q x y low high = ground (arith, low, high)

pub off_block :
    (dst n q x y : ℕ)
    → (q < dst) ⊎ (dst + n ≤ q)
    → (if leb dst q && ltb q (dst + n) then x else y) ≡ y
off_block dst n q x y off = ground (arith, off)

-- A round of `copyin` takes `n` bytes, up to the end of the page or of the block.
module _ (tr : ℕ → ℕ) (ram : Bytes) (dst src len n : ℕ) (fits : src % 4096 + n ≤ 4096)
    (within : n ≤ len) (full : (src % 4096 + n ≡ 4096) ⊎ (n ≡ len))
    (page : (i : ℕ) → src / 4096 ≡ (src + i) / 4096 → tr (src + i) ≡ tr src)
    (apart : (i : ℕ) → i < len → IsApart tr (src + i) dst len) where
  place-page : (i : ℕ) → i < n → place tr src + i ≡ place tr (src + i)
  place-page i h = ground (arith, fits, ap pte2pa (page i (omega (arith, fits, h))))

  place-next :
      (q : ℕ)
      → dst + n ≤ q
      → q < dst + len
      → down_align src + page_size + (q - (dst + n)) ≡ src + (q - dst)
  place-next q low high = omega (arith, full)

  now-cell :
      (q : ℕ)
      → dst ≤ q
      → q < dst + n
      → copied tr
          (moved ram (place tr src) dst n)
          (dst + n)
          (down_align src + page_size)
          (len - n)
          q
        ≡ copied tr ram dst src len q
  now-cell q low high =
      off_block (dst + n) (len - n) q _ _ (inl high)
      ∙ in_block dst n q _ _ low high
      ∙ ap ram (place-page (q - dst) (omega (arith, low, high)))
      ∙ sym (in_block dst len q _ _ low (omega (arith, high, within)))

  later-cell :
      (q : ℕ)
      → dst + n ≤ q
      → q < dst + len
      → copied tr
          (moved ram (place tr src) dst n)
          (dst + n)
          (down_align src + page_size)
          (len - n)
          q
        ≡ copied tr ram dst src len q
  later-cell q low high =
      in_block (dst + n) (len - n) q _ _ low (omega (arith, high, within))
      ∙ ap (moved ram (place tr src) dst n) (ap (place tr) (place-next q low high))
      ∙ off_block dst n (place tr (src + (q - dst))) _ _ away
      ∙ sym (in_block dst len q _ _ (omega (arith, low)) high)
    where
      away : (place tr (src + (q - dst)) < dst) ⊎ (dst + n ≤ place tr (src + (q - dst)))
      away = elim (apart (q - dst) (omega (arith, low, high))) [
        | inl h ↦ inl h
        | inr h ↦ inr (omega (arith, h, within))
      ]

  pub copied-chunk :
      copied tr (moved ram (place tr src) dst n) (dst + n) (down_align src + page_size) (len - n)
      ≡ copied tr ram dst src len
  copied-chunk = fun_ext λ q. elim (Bool-cases (leb dst q && ltb q (dst + len))) [
    | inr outside ↦ outside-cell q (ground (arith, outside))
    | inl inside ↦ elim (Bool-cases (ltb q (dst + n))) [
      | inl now ↦ now-cell q (ground (arith, inside)) (ground (arith, now))
      | inr later ↦ later-cell q (ground (arith, later)) (ground (arith, inside))
    ]
  ]
    where
      outside-cell :
          (q : ℕ)
          → (q < dst) ⊎ (dst + len ≤ q)
          → copied tr
              (moved ram (place tr src) dst n)
              (dst + n)
              (down_align src + page_size)
              (len - n)
              q
            ≡ copied tr ram dst src len q
      outside-cell q off =
          off_block (dst + n) (len - n) q _ _ (ground (arith, off, within))
          ∙ off_block dst n q _ _ (ground (arith, off, within))
          ∙ sym (off_block dst len q _ _ off)
