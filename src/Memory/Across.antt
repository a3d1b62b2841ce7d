-- ===== src/Memory/Across.antt =====
-- `copyin` and `copyout` of kernel/memory/memory.c, and `either_copyin` of kernel/trap/process.c, which
-- copy between the kernel and the pages of a user program. `none`: the fuel runs out, or the kernel
-- panics.
pub mod Chunks
pub mod Copied
use riem_os.Base.{
  ℕ, zero, suc, ◌+◌, ◌-◌, ◌*◌, ◌/◌, Bool, true, false, Option, none, some, ltb, ◌==◌, if◌then◌else◌,
}
use riem_os.Base.Int.{ℤ, pos, neg}
use riem_os.Strings.{memmove}
use riem_os.Memory.{Mem}
use riem_os.Memory.Pte.{page_size, down_align}
use riem_os.Memory.User.{vir2phy}
use riem_os.Memory.Map.{cow_handler}

-- `n = PGSIZE - (va - va0); if (n > len) n = len;`
abbrev pub chunk : ℕ → ℕ → ℕ
chunk va len = let n = page_size - (va - down_align va) in if ltb len n then len else n

abbrev pub move : Mem → ℕ → ℕ → ℕ → Mem
move m dst src n = record m { ram = memmove m.ram dst src n }

unfoldable pub copyin : ℕ → Mem → ℕ → ℕ → ℕ → ℕ → Option (ℤ × Mem)
copyin zero m pagetable dst src_va len = none
copyin (suc fuel) m pagetable dst src_va len = elim (len == 0) [
  | true ↦ some (pos 0, m)
  | false ↦
      let va0 = down_align src_va in
      let pa0 = (vir2phy m pagetable va0).0 in
      elim (pa0 == 0) [
        | true ↦ some (neg 1, m)
        | false ↦
            let n = chunk src_va len in
            copyin fuel (move m dst (pa0 + (src_va - va0)) n) pagetable (dst + n) (va0 + page_size)
              (len - n)
      ]
]

-- The call of `cowHandler` in `copyout`, under its condition.
abbrev pub unshare : ℕ → ℕ → Mem → ℕ → ℕ → Option Bool → Option Mem
unshare cow_buffer stale m pagetable va0 (some true) = cow_handler cow_buffer stale m pagetable va0
unshare cow_buffer stale m pagetable va0 _ = some m

unfoldable pub copyout : ℕ → ℕ → ℕ → Mem → ℕ → ℕ → ℕ → ℕ → Option (ℤ × Mem)
copyout zero cow_buffer stale m pagetable dst_va src len = none
copyout (suc fuel) cow_buffer stale m pagetable dst_va src len = elim (len == 0) [
  | true ↦ some (pos 0, m)
  | false ↦
      let va0 = down_align dst_va in
      elim ((vir2phy m pagetable va0).0 == 0) [
        | true ↦ some (neg 1, m)
        | false ↦ elim (unshare cow_buffer stale m pagetable va0 (vir2phy m pagetable va0).1) [
          | none ↦ none
          | some m' ↦
              let pa0 = (vir2phy m' pagetable va0).0 in
              let n = chunk dst_va len in
              copyout fuel cow_buffer stale (move m' (pa0 + (dst_va - va0)) src n) pagetable
                (va0 + page_size) (src + n) (len - n)
        ]
      ]
]

-- `pagetable` is that of `myproc()`.
unfoldable pub either_copyin : ℕ → Mem → ℕ → ℕ → Bool → ℕ → ℕ → Option (ℤ × Mem)
unfolding copyin
either_copyin fuel m pagetable dst user_src src len = elim user_src [
  | true ↦ copyin fuel m pagetable dst src len
  | false ↦ some (pos 0, move m dst src len)
]
