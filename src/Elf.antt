-- ===== src/Elf.antt =====
-- kernel/trap/elfLoader.c and include/elf.h: the loader of program images. A file lies in memory from
-- `binary` on; the function that maps a segment is a parameter, and `none` where that does not return.
use riem_os.Base.{
  ℕ, zero, suc, ◌+◌, ◌*◌, ◌^◌, ◌%◌, Bool, true, false, not, ◌&&◌, ◌||◌, Option, none, some, ltb,
  ◌==◌, if◌then◌else◌,
}
use riem_os.Base.Int.{ℤ, pos, neg, is_neg}
use riem_os.Memory.{Mem}
use riem_os.Memory.Ram.{Bytes, load32, load64}

-- `*(u_short *)p`
unfoldable pub load16 : Bytes → ℕ → ℕ
load16 m p = m p + m (p + 1) * 2 ^ 8

-- The fields of `Ehdr` that the loader reads.
pub record Ehdr : Type 0 where
  pub entry : ℕ
  pub phoff : ℕ
  pub phentsize : ℕ
  pub phnum : ℕ

abbrev pub read_ehdr : Bytes → ℕ → Ehdr
read_ehdr ram binary = record {
  entry = load64 ram (binary + 24);
  phoff = load64 ram (binary + 32);
  phentsize = load16 ram (binary + 54);
  phnum = load16 ram (binary + 56);
}

-- The fields of `Phdr` that the loader reads.
pub record Phdr : Type 0 where
  pub kind : ℕ
  pub offset : ℕ
  pub vaddr : ℕ
  pub filesz : ℕ
  pub memsz : ℕ

abbrev pub read_phdr : Bytes → ℕ → Phdr
read_phdr ram at = record {
  kind = load32 ram at;
  offset = load64 ram (at + 8);
  vaddr = load64 ram (at + 16);
  filesz = load64 ram (at + 32);
  memsz = load64 ram (at + 40);
}

abbrev pub pt_load : ℕ
pt_load = 1

unfoldable pub is_elf_format : Bytes → ℕ → Bool
is_elf_format ram binary =
    ram binary == 0x7f
    && ram (binary + 1) == 0x45
    && ram (binary + 2) == 0x4c
    && ram (binary + 3) == 0x46

module _ (map : Mem → ℕ → ℕ → ℕ → ℕ → Option (ℤ × Mem)) where
  -- The call of `map` for one header. `segmentSize` and `binSize` are u_int.
  abbrev pub map_segment : ℕ → Phdr → Mem → Option (ℤ × Mem)
  map_segment binary ph m =
      if ph.kind == pt_load
      then map m ph.vaddr (ph.memsz % 2 ^ 32) (binary + ph.offset) (ph.filesz % 2 ^ 32)
      else some (pos 0, m)

  -- The loop over the program headers, `n` of them from `ph_table` on.
  unfoldable pub load_segments : ℕ → ℕ → ℕ → ℕ → Mem → Option (ℤ × Mem)
  load_segments zero binary ph_table entry_size m = some (pos 0, m)
  load_segments (suc n) binary ph_table entry_size m =
      elim (map_segment binary (read_phdr m.ram ph_table) m) [
        | none ↦ none
        | some (r, m') ↦ elim (is_neg r) [
          | true ↦ some (r, m')
          | false ↦ load_segments n binary (ph_table + entry_size) entry_size m'
        ]
      ]

  -- `*entry` is stored only where the result is 0.
  abbrev pub with_entry : ℕ → Option (ℤ × Mem) → Option (ℤ × Option ℕ × Mem)
  with_entry binary none = none
  with_entry binary (some (r, m)) =
      some (r, if is_neg r then none else some (read_ehdr m.ram binary).entry, m)

  unfoldable pub load_elf : Mem → ℕ → ℕ → Option (ℤ × Option ℕ × Mem)
  unfolding load_segments is_elf_format load16
  load_elf m binary size =
      let ehdr = read_ehdr m.ram binary in
      if ltb size 4 || not (is_elf_format m.ram binary)
      then some (neg 1, none, m)
      else with_entry binary
          (load_segments ehdr.phnum binary (binary + ehdr.phoff) ehdr.phentsize m)
