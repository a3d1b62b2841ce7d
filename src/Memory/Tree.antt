-- ===== src/Memory/Tree.antt =====
-- When the page tables of kernel/memory/memory.c form a tree: each table page has one level and one
-- place, and no table page is free. The leaves may map any address, the tables' own pages and the
-- free pages too: `initPgdir` maps all of the physical memory one to one.
pub mod Store
pub mod Grow
pub mod Walks
use riem_os.Base.{
  ℕ, zero, suc, ◌+◌, ◌*◌, ◌/◌, ◌%◌, ◌^◌, ◌≤◌, ◌<◌, ◌≡◌, Bool, true, false, Option, none, some, List,
  mem, if◌then◌else◌, ◌==◌,
}
use riem_os.Queue.Chain.{IsList}
use riem_os.Memory.{Mem}
use riem_os.Memory.Ram.{Bytes, load64}
use riem_os.Memory.Pte.{
  page_size, physical_address_base, physical_memory_top, pte_v, has_bit, page2pa, pa2page,
  table_index, pte2pa,
}

-- The level of the table at an address, and the index bits that lead to it.
abbrev pub Shape : Type 0
Shape = ℕ → Option (ℕ × ℕ)

abbrev pub entry : Bytes → ℕ → ℕ → ℕ
entry ram a i = load64 ram (a + 8 * i)

abbrev pub is_valid : ℕ → Bool
is_valid = has_bit pte_v

abbrev pub IsPhysical : ℕ → Type 0
IsPhysical pa = (physical_address_base ≤ pa) × (pa < physical_memory_top)

pub record IsTree (root : ℕ) (m : Mem) (shape : Shape) (free : List ℕ) : Type 0 where
  pub rooted : shape root ≡ some (2, 0)
  pub placed :
      (a l p : ℕ)
      → shape a ≡ some (l, p)
      → (a % 4096 ≡ 0) × (physical_address_base ≤ a) × (a + 4096 ≤ physical_memory_top)
  pub child :
      (a l p i : ℕ)
      → shape a ≡ some (suc l, p)
      → i < 512
      → is_valid (entry m.ram a i) ≡ true
      → shape (pte2pa (entry m.ram a i)) ≡ some (l, p * 512 + i)
  pub links : IsList m.links free
  pub pages : (n : ℕ) → mem n free ≡ true → (n < 0x8000) × (shape (page2pa n) ≡ none)

-- The page table entry that a walk from the table at `a` ends at, 0 where a table is missing.
unfoldable pub read_from : ℕ → Bytes → ℕ → ℕ → ℕ
read_from zero ram va a = entry ram a (table_index va 0)
read_from (suc l) ram va a =
    if is_valid (entry ram a (table_index va (suc l)))
    then read_from l ram va (pte2pa (entry ram a (table_index va (suc l))))
    else 0

-- The place of the lowest table on the walk.
abbrev pub leaf_place : ℕ → ℕ → ℕ → ℕ
leaf_place zero p va = p
leaf_place (suc l) p va = leaf_place l (p * 512 + table_index va (suc l)) va
