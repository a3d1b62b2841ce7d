-- ===== src/Memory/Tree/Store.antt =====
-- Writing one entry of a table leaves the entries of the other tables alone.
use riem_os.Base.{ℕ, ◌+◌, ◌*◌, ◌%◌, ◌≤◌, ◌<◌, ◌≡◌, ◌≢◌, ap, ◌⊎◌, arith, none, some}
use riem_os.Memory.Ram.{Bytes, store64, bzero}
use riem_os.Memory.Ram.Words.{load64-store64_ne}
use riem_os.Memory.Ram.Loops.{load64-bzero_in, load64-bzero_out}
use riem_os.Memory.Pte.{table_index}
use riem_os.Memory.Tree.{Shape, entry}

-- Two slots of aligned tables are the same or do not overlap.
pub entry-store64_ne :
    (ram : Bytes) (a i b j v : ℕ)
    → a % 4096 ≡ 0
    → b % 4096 ≡ 0
    → i < 512
    → j < 512
    → (a ≢ b) ⊎ (i ≢ j)
    → entry (store64 ram (a + 8 * i) v) b j ≡ entry ram b j
entry-store64_ne ram a i b j v ha hb hi hj ne =
    load64-store64_ne ram (a + 8 * i) v (b + 8 * j) apart
  where
    apart : (b + 8 * j + 8 ≤ a + 8 * i) ⊎ (a + 8 * i + 8 ≤ b + 8 * j)
    apart = omega arith

pub entry-bzero_ne :
    (ram : Bytes) (a b j : ℕ)
    → a % 4096 ≡ 0
    → b % 4096 ≡ 0
    → j < 512
    → a ≢ b
    → entry (bzero ram a 4096) b j ≡ entry ram b j
entry-bzero_ne ram a b j ha hb hj ne = load64-bzero_out ram a 4096 (b + 8 * j) (omega arith)

pub entry-bzero_self : (ram : Bytes) (a j : ℕ) → j < 512 → entry (bzero ram a 4096) a j ≡ 0
entry-bzero_self ram a j hj = load64-bzero_in ram a 4096 (a + 8 * j) (omega arith) (omega arith)

pub table_index-lt : (va l : ℕ) → table_index va l < 512
table_index-lt va l = omega arith

-- Tables of different levels are different.
pub ne_of_level :
    (shape : Shape) (a b l k p q : ℕ)
    → shape a ≡ some (l, p)
    → shape b ≡ some (k, q)
    → l ≢ k
    → a ≢ b
ne_of_level shape a b l k p q ha hb ne e = ne (ground (arith, same))
  where
    same : shape a ≡ shape b
    same = ap shape e

pub ne_of_none : (shape : Shape) (a b l p : ℕ) → shape a ≡ some (l, p) → shape b ≡ none → a ≢ b
ne_of_none shape a b l p ha hb e = ground (arith, same)
  where
    same : shape a ≡ shape b
    same = ap shape e
