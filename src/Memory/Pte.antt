-- ===== src/Memory/Pte.antt =====
-- Page table entries and the address arithmetic of include/memory.h and include/memConfig.h.
pub mod Fields
use riem_os.Base.{ℕ, ◌+◌, ◌-◌, ◌*◌, ◌/◌, ◌%◌, ◌^◌, Bool, ◌==◌, bit_or}

abbrev pub page_size : ℕ
page_size = 4096

abbrev pub physical_address_base : ℕ
physical_address_base = 0x80000000

abbrev pub physical_memory_size : ℕ
physical_memory_size = 0x08000000

abbrev pub physical_memory_top : ℕ
physical_memory_top = physical_address_base + physical_memory_size

-- The bit numbers of PTE_V, PTE_W and so on, and the masks.
abbrev pub pte_v : ℕ
pte_v = 0

abbrev pub pte_w : ℕ
pte_w = 2

abbrev pub pte_u : ℕ
pte_u = 4

abbrev pub pte_c : ℕ
pte_c = 8

abbrev pub mask_v : ℕ
mask_v = 1

abbrev pub mask_r : ℕ
mask_r = 2

abbrev pub mask_w : ℕ
mask_w = 4

abbrev pub mask_x : ℕ
mask_x = 8

abbrev pub mask_u : ℕ
mask_u = 16

abbrev pub mask_a : ℕ
mask_a = 64

abbrev pub mask_d : ℕ
mask_d = 128

abbrev pub mask_c : ℕ
mask_c = 256

-- `w & (1 << k)` as a test
abbrev pub has_bit : ℕ → ℕ → Bool
has_bit k w = w / 2 ^ k % 2 == 1

-- DOWN_ALIGN(x, PAGE_SIZE)
abbrev pub down_align : ℕ → ℕ
down_align x = x / page_size * page_size

-- UP_ALIGN(x, PAGE_SIZE) on a 64-bit word
abbrev pub up_align : ℕ → ℕ
up_align x = (down_align ((x + 2 ^ 64 - 1) % 2 ^ 64) + page_size) % 2 ^ 64

-- A page is its index in `pages`. `page - pages` is cut to u_int.
abbrev pub page2ppn : ℕ → ℕ
page2ppn page = page % 2 ^ 32

-- The shift is made in u_int.
abbrev pub page2pa : ℕ → ℕ
page2pa page = physical_address_base + page2ppn page * 2 ^ 12 % 2 ^ 32

-- The argument of `ppn2page` is a u_int.
abbrev pub pa2page : ℕ → ℕ
pa2page pa = (pa + 2 ^ 64 - physical_address_base) % 2 ^ 64 / 2 ^ 12 % 2 ^ 32

-- PA2PPN
abbrev pub pa2ppn : ℕ → ℕ
pa2ppn va = va % 2 ^ 28 / 2 ^ 12

-- GET_PAGE_TABLE_INDEX
abbrev pub table_index : ℕ → ℕ → ℕ
table_index va level = va / 2 ^ (12 + 9 * level) % 512

-- PTE2PERM
abbrev pub pte2perm : ℕ → ℕ
pte2perm pte = pte % 2 ^ 10 + pte / 2 ^ 54 * 2 ^ 54

-- PTE2PA
abbrev pub pte2pa : ℕ → ℕ
pte2pa pte = pte % 2 ^ 54 / 2 ^ 10 * 2 ^ 12

-- PA2PTE
abbrev pub pa2pte : ℕ → ℕ
pa2pte pa = pa / 2 ^ 12 * 2 ^ 10 % 2 ^ 64

abbrev pub page2pte : ℕ → ℕ
page2pte page = page2pa page / 2 ^ 12 * 2 ^ 10

-- `PA2PTE(pa) | perm | PTE_V`, the entry that `page_insert` stores
unfoldable pub leaf_entry : ℕ → ℕ → ℕ
leaf_entry pa perm = bit_or (bit_or (pa2pte pa) perm) mask_v

-- `page2pte(pp) | PTE_V`, the entry that `page_walk` stores
unfoldable pub table_entry : ℕ → ℕ
table_entry page = bit_or (page2pte page) mask_v
