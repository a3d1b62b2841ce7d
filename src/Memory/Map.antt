-- ===== src/Memory/Map.antt =====
-- kernel/memory/memory.c: the address spaces that the kernel sets up and takes down, and the two page
-- faults that it serves. `none` is a panic. `stale` is what uninitialised pointers hold.
use riem_os.Base.{
  ℕ, zero, suc, ◌+◌, ◌-◌, ◌*◌, ◌/◌, ◌^◌, not, Option, none, some, leb, if◌then◌else◌, bit_or,
}
use riem_os.Base.Int.{ℤ, is_neg}
use riem_os.Memory.{
  Mem, pages_init, page_alloc, page_insert, page_lookup, page_remove, page_ref_decrease, stored_or,
}
use riem_os.Memory.Ram.{load64, store64, bcopy}
use riem_os.Memory.Pte.{
  page_size, physical_memory_top, mask_r, mask_w, mask_x, mask_u, mask_a, mask_d, mask_c, pte_v,
  pte_c, has_bit, page2pa, pte2pa, pte2perm,
}

-- for (i = 0; i < n * PAGE_SIZE; i += PAGE_SIZE) page_insert(pgdir, va + i, pa + i, perm);
unfoldable pub map_range : ℕ → ℕ → Mem → ℕ → ℕ → ℕ → ℕ → Mem
map_range zero stale m pgdir va pa perm = m
map_range (suc n) stale m pgdir va pa perm =
    map_range n stale (page_insert stale m pgdir va pa perm).1 pgdir (va + page_size)
      (pa + page_size) perm

-- The addresses of include/mmio.h, and the symbols of the linker.
abbrev pub uart : ℕ
uart = 0x10000000

abbrev pub virt_offset : ℕ
virt_offset = 0x3f00000000

abbrev pub clint : ℕ
clint = 0x02000000

abbrev pub plic : ℕ
plic = 0x0c000000

abbrev pub spi_ctrl_addr : ℕ
spi_ctrl_addr = 0x10050000

abbrev pub uart_ctrl_addr : ℕ
uart_ctrl_addr = 0x10010000

abbrev pub trampoline_base : ℕ
trampoline_base = 2 ^ 38 - 2 * page_size

pub record Symbols : Type 0 where
  pub kernel_start : ℕ
  pub text_end : ℕ
  pub trampoline : ℕ

-- The pages of a loop `for (i = 0; va + i < end; i += PAGE_SIZE)`.
abbrev pub pages_to : ℕ → ℕ → ℕ
pages_to va end = (end - va + page_size - 1) / page_size

unfoldable pub init_pgdir : Symbols → ℕ → Mem → ℕ → Mem
unfolding map_range
init_pgdir symbols stale m pgdir =
    let plain = mask_r + mask_w + mask_a + mask_d in
    let code = mask_r + mask_x + mask_w + mask_a + mask_d in
    let m1 = (page_insert stale m pgdir (uart + virt_offset) uart plain).1 in
    let m2 = map_range 16 stale m1 pgdir (clint + virt_offset) clint plain in
    let m3 = map_range 4 stale m2 pgdir (plic + virt_offset) plic plain in
    let m4 = map_range 4 stale m3 pgdir (plic + virt_offset + 0x200000) (plic + 0x200000) plain in
    let m5 = (page_insert stale m4 pgdir spi_ctrl_addr spi_ctrl_addr plain).1 in
    let m6 = (page_insert stale m5 pgdir uart_ctrl_addr uart_ctrl_addr plain).1 in
    let text = symbols.kernel_start in
    let m7 = map_range (pages_to text symbols.text_end) stale m6 pgdir text text code in
    let rest = symbols.text_end in
    let m8 = map_range (pages_to rest physical_memory_top) stale m7 pgdir rest rest plain in
    let m9 = (page_insert stale m8 pgdir trampoline_base symbols.trampoline code).1 in
    (page_insert stale m9 pgdir (trampoline_base + page_size) (symbols.trampoline + page_size)
      code).1

-- The loops of `pgdir_free`, `n` entries from index `k`, `j` or `i` on. The index bits of an address do
-- not overlap.
unfoldable pub free_pages_of : ℕ → ℕ → Mem → ℕ → ℕ → ℕ → ℕ → ℕ → Mem
free_pages_of zero stale m pgdir pa2 i j k = m
free_pages_of (suc n) stale m pgdir pa2 i j k =
    let freed =
      if has_bit pte_v (load64 m.ram (pa2 + 8 * k))
      then (page_remove stale m pgdir (i * 2 ^ 30 + j * 2 ^ 21 + k * 2 ^ 12)).1
      else m in
    free_pages_of n stale freed pgdir pa2 i j (k + 1)

-- The table at `pa2` once its pages are freed; the store goes into it, at index `j`.
abbrev pub free_leaf_table : ℕ → Mem → ℕ → ℕ → ℕ → ℕ → Mem
free_leaf_table stale m pgdir pa2 i j =
    let freed = free_pages_of 512 stale m pgdir pa2 i j 0 in
    let cleared = record freed { ram = store64 freed.ram (pa2 + 8 * j) 0 } in
    page_ref_decrease cleared pa2

unfoldable pub free_tables_of : ℕ → ℕ → Mem → ℕ → ℕ → ℕ → ℕ → Mem
unfolding free_pages_of
free_tables_of zero stale m pgdir pa i j = m
free_tables_of (suc n) stale m pgdir pa i j =
    let freed =
      if has_bit pte_v (load64 m.ram (pa + 8 * j))
      then free_leaf_table stale m pgdir (pte2pa (load64 m.ram (pa + 8 * j))) i j
      else m in
    free_tables_of n stale freed pgdir pa i (j + 1)

abbrev pub free_middle_table : ℕ → Mem → ℕ → ℕ → ℕ → Mem
free_middle_table stale m pgdir pa i =
    page_ref_decrease (free_tables_of 512 stale m pgdir pa i 0) pa

unfoldable pub free_directory : ℕ → ℕ → Mem → ℕ → ℕ → Mem
unfolding free_tables_of
free_directory zero stale m pgdir i = m
free_directory (suc n) stale m pgdir i =
    let freed =
      if has_bit pte_v (load64 m.ram (pgdir + 8 * i))
      then free_middle_table stale m pgdir (pte2pa (load64 m.ram (pgdir + 8 * i))) i
      else m in
    free_directory n stale freed pgdir (i + 1)

unfoldable pub pgdir_free : ℕ → Mem → ℕ → Mem
unfolding free_directory
pgdir_free stale m pgdir = page_ref_decrease (free_directory 512 stale m pgdir 0) pgdir

-- `pageout` behind its allocation.
abbrev pub checked : ℤ × Mem → Option Mem
checked (r, m) = if is_neg r then none else some m

abbrev pub page_in : ℕ → ℕ → ℕ → Option (ℕ × Mem) → Option Mem
page_in stale pgdir bad_addr none = none
page_in stale pgdir bad_addr (some (page, m)) =
    checked (page_insert stale m pgdir bad_addr (page2pa page) (mask_u + mask_r + mask_w))

unfoldable pub pageout : ℕ → Mem → ℕ → ℕ → Option Mem
pageout stale m pgdir bad_addr =
    if leb bad_addr page_size then none else page_in stale pgdir bad_addr (page_alloc m)

-- `w & ~PTE_C`
abbrev pub without_c : ℕ → ℕ
without_c w = if has_bit pte_c w then w - mask_c else w

-- `cowHandler` behind its allocation; `cow_buffer` is the address of `cowBuffer`.
abbrev pub copy_page : ℕ → ℕ → ℕ → ℕ → Option (ℕ × Mem) → Option Mem
copy_page cow_buffer stale pgdir bad_addr none = none
copy_page cow_buffer stale pgdir bad_addr (some (page, m)) =
    let (pa, stored) = page_lookup m pgdir bad_addr in
    let pte = stored_or stored stale in
    let saved = record m { ram = bcopy m.ram pa cow_buffer page_size } in
    let perm = without_c (bit_or (pte2perm (load64 saved.ram pte)) mask_w) in
    let mapped = (page_insert stale saved pgdir bad_addr (page2pa page) perm).1 in
    some (record mapped { ram = bcopy mapped.ram cow_buffer (page2pa page) page_size })

unfoldable pub cow_handler : ℕ → ℕ → Mem → ℕ → ℕ → Option Mem
cow_handler cow_buffer stale m pgdir bad_addr =
    let (pa, stored) = page_lookup m pgdir bad_addr in
    let pte = stored_or stored stale in
    if not (has_bit pte_c (load64 m.ram pte))
    then some m
    else copy_page cow_buffer stale pgdir bad_addr (page_alloc m)

-- `memory_management_init`, but for satp: `pages_init` and `virtual_memory_map`.
unfoldable pub memory_management_init : Symbols → ℕ → ℕ → ℕ → Mem → Mem
unfolding init_pgdir
memory_management_init symbols kernel_end kernel_pgdir stale m =
    init_pgdir symbols stale (pages_init kernel_end m) kernel_pgdir
