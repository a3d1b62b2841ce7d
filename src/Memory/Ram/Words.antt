-- ===== src/Memory/Ram/Words.antt =====
-- Words read back from memory.
use riem_os.Base.{ℕ, ◌+◌, ◌*◌, ◌/◌, ◌%◌, ◌^◌, ◌≤◌, ◌<◌, ◌≡◌, ◌⊎◌, arith}
use riem_os.Memory.Ram.{Bytes, load32, store32, load64, store64}

-- Four bytes of a word make up its low half.
split_word :
    (v : ℕ)
    → v % 256 + v / 2 ^ 8 % 256 * 2 ^ 8 + v / 2 ^ 16 % 256 * 2 ^ 16 + v / 2 ^ 24 % 256 * 2 ^ 24
      ≡ v % 2 ^ 32
split_word v = omega arith

pub load32-store32_self : (m : Bytes) (p v : ℕ) → load32 (store32 m p v) p ≡ v % 2 ^ 32
unfolding load32 store32
load32-store32_self m p v = ground (arith, split_word v)

pub store32-at : (m : Bytes) (p v q : ℕ) → (q < p) ⊎ (p + 4 ≤ q) → store32 m p v q ≡ m q
unfolding store32
store32-at m p v q h = ground arith

pub load32-store32_ne :
    (m : Bytes) (p v q : ℕ) → (q + 4 ≤ p) ⊎ (p + 4 ≤ q) → load32 (store32 m p v) q ≡ load32 m q
unfolding load32
load32-store32_ne m p v q h = ground (
  arith,
  store32-at m p v q,
  store32-at m p v (q + 1),
  store32-at m p v (q + 2),
  store32-at m p v (q + 3),
)

-- A doubleword below 2 ^ 64 is read back as it was written, at every address.
pub load64-store64_self : (m : Bytes) (p v : ℕ) → v < 2 ^ 64 → load64 (store64 m p v) p ≡ v
unfolding load64 store64
load64-store64_self m p v h = ground (
  arith,
  load32-store32_ne (store32 m p v) (p + 4) (v / 2 ^ 32) p,
  load32-store32_self m p v,
  load32-store32_self (store32 m p v) (p + 4) (v / 2 ^ 32),
)

-- A write elsewhere is not seen.
pub load64-store64_ne :
    (m : Bytes) (p v q : ℕ) → (q + 8 ≤ p) ⊎ (p + 8 ≤ q) → load64 (store64 m p v) q ≡ load64 m q
unfolding load64 store64
load64-store64_ne m p v q h = ground (
  arith,
  load32-store32_ne (store32 m p v) (p + 4) (v / 2 ^ 32) q,
  load32-store32_ne (store32 m p v) (p + 4) (v / 2 ^ 32) (q + 4),
  load32-store32_ne m p v q,
  load32-store32_ne m p v (q + 4),
)
