-- ===== src/Process/Fork.antt =====
-- `process_fork` of kernel/trap/process.c. `none` is a panic, or a NULL pointer that it follows.
pub mod Child
use riem_os.Base.{
  ℕ, zero, suc, ◌+◌, ◌-◌, ◌*◌, ◌^◌, ◌%◌, Bool, true, false, not, ◌||◌, Option, none, some, ◌==◌,
  if◌then◌else◌, bit_or,
}
use riem_os.Base.Int.{ℤ, neg}
use riem_os.Queue.{Lists, insert_tail}
use riem_os.Memory.{Mem, page_insert}
use riem_os.Memory.Ram.{load64, store64}
use riem_os.Memory.Pte.{page_size, mask_w, mask_c, pte_v, pte_u, pte_w, has_bit, pte2pa, pte2perm}
use riem_os.Memory.Map.{trampoline_base}
use riem_os.Process.{Kernel, Process, Trapframe, set_process, process_total_number, e_no_free_env}
use riem_os.Process.Create.{Image, Allocated, allocated, no_free_env, process_alloc}

-- `pa2[k] |= PTE_C; pa2[k] &= ~PTE_W;` for a word with PTE_W
abbrev pub share_entry : Mem → ℕ → Mem
share_entry m slot =
    let marked = record m { ram = store64 m.ram slot (bit_or (load64 m.ram slot) mask_c) } in
    record marked { ram = store64 marked.ram slot (load64 marked.ram slot - mask_w) }

-- The body of the innermost loop, for the entry at `slot` of a lowest table.
unfoldable pub fork_page : ℕ → Mem → ℕ → ℕ → ℕ → Mem
fork_page stale m pgdir slot va =
    if not (has_bit pte_v (load64 m.ram slot))
    then m
    else if va == trampoline_base
        || va == trampoline_base + page_size
        || not (has_bit pte_u (load64 m.ram slot))
    then m
    else let shared = if has_bit pte_w (load64 m.ram slot) then share_entry m slot else m in
      (page_insert stale shared pgdir va (pte2pa (load64 shared.ram slot))
        (pte2perm (load64 shared.ram slot))).1

-- The three loops, `n` entries from index `k`, `j` or `i` on. The index bits of an address do not
-- overlap; `i << 30` and the others are on 64 bits.
unfoldable pub fork_pages : ℕ → ℕ → Mem → ℕ → ℕ → ℕ → ℕ → ℕ → Mem
unfolding fork_page
fork_pages zero stale m pgdir pa2 i j k = m
fork_pages (suc n) stale m pgdir pa2 i j k =
    fork_pages n stale
      (fork_page stale m pgdir (pa2 + 8 * k) (i * 2 ^ 30 + j * 2 ^ 21 + k * 2 ^ 12)) pgdir pa2 i j
      (k + 1)

unfoldable pub fork_tables : ℕ → ℕ → Mem → ℕ → ℕ → ℕ → ℕ → Mem
unfolding fork_pages
fork_tables zero stale m pgdir pa i j = m
fork_tables (suc n) stale m pgdir pa i j =
    let done =
      if has_bit pte_v (load64 m.ram (pa + 8 * j))
      then fork_pages 512 stale m pgdir (pte2pa (load64 m.ram (pa + 8 * j))) i j 0
      else m in
    fork_tables n stale done pgdir pa i (j + 1)

unfoldable pub fork_directory : ℕ → ℕ → Mem → ℕ → ℕ → ℕ → Mem
unfolding fork_tables
fork_directory zero stale m pgdir parent i = m
fork_directory (suc n) stale m pgdir parent i =
    let done =
      if has_bit pte_v (load64 m.ram (parent + 8 * i))
      then fork_tables 512 stale m pgdir (pte2pa (load64 m.ram (parent + 8 * i))) i 0
      else m in
    fork_directory n stale done pgdir parent (i + 1)

-- The stores to the child and to the live trap frame.
abbrev pub fork_frames : Kernel → ℕ → ℕ → Kernel
fork_frames k c p =
    let tf = k.trapframe in
    let k' = set_process k p (record (k.processes p) {
      priority = (k.processes c).priority;
      trapframe = record tf { a0 = 0 };
    }) in
    record k' { trapframe = record tf { a0 = (k'.processes p).id } }

unfoldable pub fork_memory : Image → Kernel → ℕ → ℕ → Mem
unfolding fork_directory
fork_memory image k c p =
    fork_directory 512 image.stale k.mem (k.processes p).pgdir (k.processes c).pgdir 0

abbrev pub fork_with : Image → Kernel → ℕ → Option Allocated → Option Kernel
fork_with image k c none = none
fork_with image k c (some no_free_env) =
    let tf = (k.processes c).trapframe in
    some (
      set_process k c
        (record (k.processes c) { trapframe = record tf { a0 = 2 ^ 64 - e_no_free_env } }))
fork_with image k c (some (allocated p k')) =
    let framed = fork_frames k' c p in
    let copied = record framed { mem = fork_memory image framed c p } in
    elim (insert_tail process_total_number copied.schedule_list p) [
      | none ↦ none
      | some l ↦ some (record copied { schedule_list = l })
    ]

abbrev pub fork_current : Image → Kernel → Option ℕ → Option Kernel
fork_current image k none = none
fork_current image k (some c) = fork_with image k c (process_alloc image k (k.processes c).id)

unfoldable pub process_fork : Image → Kernel → Option Kernel
unfolding fork_memory
process_fork image k = fork_current image k k.cur_process
