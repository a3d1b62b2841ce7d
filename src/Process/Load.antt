-- ===== src/Process/Load.antt =====
-- kernel/trap/process.c: `codeMapper`, which maps one segment of a program, and
-- `processCreatePriority`. `none` is a panic, a fault, or a loop that does not
-- end within the fuel.
use riem_os.Base.{
  ℕ, zero, suc, ◌+◌, ◌-◌, ◌^◌, ◌%◌, Bool, true, false, Option, none, some, ltb, ◌==◌, ◌&&◌,
  if◌then◌else◌,
}
use riem_os.Base.Int.{ℤ, pos, neg}
use riem_os.Queue.{insert_tail}
use riem_os.Memory.{Mem, page_alloc, page_insert, page_lookup}
use riem_os.Memory.Ram.{bcopy, bzero}
use riem_os.Memory.Pte.{page_size, down_align, mask_r, mask_w, mask_x, mask_u, page2pa, pa2page}
use riem_os.Elf.{load_elf}
use riem_os.Process.{Kernel, set_process, process_total_number}
use riem_os.Process.Create.{Image, Allocated, allocated, no_free_env, process_alloc}

abbrev pub min : ℕ → ℕ → ℕ
min a b = if ltb a b then a else b

-- `va - DOWN_ALIGN(va, PAGE_SIZE)`
abbrev pub page_offset : ℕ → ℕ
page_offset va = va - down_align va

-- A new page mapped at `va`, whatever `page_insert` returns. `none`: no page is free.
abbrev pub map_fresh : ℕ → ℕ → ℕ → Option (ℕ × Mem) → Option (ℕ × Mem)
map_fresh stale pgdir va none = none
map_fresh stale pgdir va (some (page, m)) =
    some (page, (page_insert stale m pgdir va (page2pa page) (mask_x + mask_r + mask_w + mask_u)).1)

-- How far the mapper came: `i` and `r`, or no page was free.
pub data Segment : Type 0 where
  reached : ℕ → ℕ → Mem → Segment
  failed : Mem → Segment

-- for (; i < end; i += r) { a new page at va + i; r = …; fill it }
unfoldable pub map_pages :
    (Mem → ℕ → ℕ → ℕ → Mem) → ℕ → ℕ → ℕ → ℕ → ℕ → ℕ → ℕ → Mem → Option Segment
map_pages fill zero stale pgdir va end i r m = none
map_pages fill (suc fuel) stale pgdir va end i r m = elim (ltb i end) [
  | false ↦ some (reached i r m)
  | true ↦ elim (map_fresh stale pgdir ((va + i) % 2 ^ 64) (page_alloc m)) [
    | none ↦ some (failed m)
    | some (page, m') ↦
        let r' = min page_size (end - i) in
        map_pages fill fuel stale pgdir va end (i + r') r' (fill m' page i r')
  ]
]

-- The two ways to fill a page: from the file, and with zeros.
abbrev pub fill_file : ℕ → Mem → ℕ → ℕ → ℕ → Mem
fill_file binary m page i r = record m { ram = bcopy m.ram (binary + i) (page2pa page) r }

abbrev pub fill_zero : Mem → ℕ → ℕ → ℕ → Mem
fill_zero m page i r = record m { ram = bzero m.ram (page2pa page) r }

-- Behind `p = pa2page(page_lookup(…))`, `p` is never NULL: `pa2page(0)` is an address too, but one for
-- which `page2pa(p)` lies behind the physical memory. A store of `r` bytes there faults in the kernel,
-- unless `r` is 0.
abbrev pub page_faults : ℕ → ℕ → Bool
page_faults pa r = pa == 0 && ltb 0 r

-- The first branch under `if (offset > 0)`: the page that is there already.
abbrev pub first_part : Mem → ℕ → ℕ → ℕ → ℕ → Option (ℕ × Mem)
first_part m pgdir va binary bin_size =
    let offset = page_offset va in
    let pa = (page_lookup m pgdir va).0 in
    let r = min bin_size (page_size - offset) in
    if ltb 0 offset
    then if page_faults pa r
      then none
      else some (r, record m { ram = bcopy m.ram binary (page2pa (pa2page pa) + offset) r })
    else some (0, m)

-- The second branch, behind the file's bytes; `segmentSize - i` wraps.
abbrev pub last_part : Mem → ℕ → ℕ → ℕ → ℕ → ℕ → Option (ℕ × Mem)
last_part m pgdir va segment_size i r =
    let at = (va + i) % 2 ^ 64 in
    let offset = page_offset at in
    let pa = (page_lookup m pgdir at).0 in
    let r' = min ((segment_size + 2 ^ 64 - i) % 2 ^ 64) (page_size - offset) in
    if ltb 0 offset
    then if page_faults pa r'
      then none
      else some (r', record m { ram = bzero m.ram (page2pa (pa2page pa) + offset) r' })
    else some (r, m)

abbrev pub segment_done : Option Segment → Option (ℤ × Mem)
segment_done none = none
segment_done (some (failed m)) = some (neg 1, m)
segment_done (some (reached i r m)) = some (pos 0, m)

-- The loop over the rest of the segment, from `i + r` on.
abbrev pub map_zeros : ℕ → ℕ → ℕ → ℕ → ℕ → ℕ → Option (ℕ × Mem) → Option (ℤ × Mem)
map_zeros fuel stale pgdir va segment_size i none = none
map_zeros fuel stale pgdir va segment_size i (some (r, m)) =
    segment_done (map_pages fill_zero fuel stale pgdir va segment_size (i + r) r m)

-- `codeMapper` behind the loop over the file's bytes.
abbrev pub map_rest : ℕ → ℕ → ℕ → ℕ → ℕ → Option Segment → Option (ℤ × Mem)
map_rest fuel stale pgdir va segment_size none = none
map_rest fuel stale pgdir va segment_size (some (failed m)) = some (neg 1, m)
map_rest fuel stale pgdir va segment_size (some (reached i r m)) =
    map_zeros fuel stale pgdir va segment_size i (last_part m pgdir va segment_size i r)

-- The loop over the file's bytes, from `r` on, and the rest.
abbrev pub map_file : ℕ → ℕ → ℕ → ℕ → ℕ → ℕ → ℕ → Option (ℕ × Mem) → Option (ℤ × Mem)
map_file fuel stale pgdir va segment_size binary bin_size none = none
map_file fuel stale pgdir va segment_size binary bin_size (some (r, m)) =
    map_rest fuel stale pgdir va segment_size
      (map_pages (fill_file binary) fuel stale pgdir va bin_size r r m)

unfoldable pub code_mapper : ℕ → ℕ → ℕ → Mem → ℕ → ℕ → ℕ → ℕ → Option (ℤ × Mem)
code_mapper fuel stale pgdir m va segment_size binary bin_size =
    map_file fuel stale pgdir va segment_size binary bin_size
      (first_part m pgdir va binary bin_size)

-- `processCreatePriority` behind `loadElf`: a negative result is a panic.
abbrev pub enter : Kernel → ℕ → Option (ℤ × Option ℕ × Mem) → Option Kernel
enter k p (some (r, some entry, m)) =
    let tf = (k.processes p).trapframe in
    let ready =
      set_process k p (record (k.processes p) { trapframe = record tf { sepc = entry } }) in
    elim (insert_tail process_total_number ready.schedule_list p) [
      | none ↦ none
      | some l ↦ some (record ready { schedule_list = l; mem = m })
    ]
enter k p _ = none

abbrev pub create_with : ℕ → Image → Kernel → ℕ → ℕ → ℕ → Option Allocated → Option Kernel
create_with fuel image k binary size priority none = none
create_with fuel image k binary size priority (some no_free_env) = some k
create_with fuel image k binary size priority (some (allocated p k')) =
    let ranked = set_process k' p (record (k'.processes p) { priority = priority }) in
    enter ranked p
      (load_elf (code_mapper fuel image.stale (k'.processes p).pgdir) ranked.mem binary size)

unfoldable pub process_create_priority : ℕ → Image → Kernel → ℕ → ℕ → ℕ → Option Kernel
unfolding code_mapper
process_create_priority fuel image k binary size priority =
    create_with fuel image k binary size priority (process_alloc image k 0)
