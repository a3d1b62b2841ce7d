-- ===== src/Tests/Files.antt =====
-- A small disk in the memory of the file server.
use riem_os.Base.{
  ℕ, ◌+◌, ◌-◌, ◌*◌, ◌/◌, ◌≡◌, ◌<◌, inl, inr, refl, subst, ◌||◌, arith, update, true, Bool,
  if◌then◌else◌, ◌&&◌, leb, ltb, ◌==◌,
}
use riem_os.Base.Int.{pos, neg}
use riem_os.Memory.Ram.{Bytes, load32}
use riem_os.Fs.{Os, Server, returned, bit2blk}
use riem_os.Fs.Blocks.{alloc_block_num, free_block, block_is_free, is_marked, s_nblocks}
use riem_os.Fs.Nodes.{dir_lookup}
use riem_os.Fs.Files.{file_truncate}
use riem_os.Fs.Free.{
  IsLawful, IsLaidOut, IsBitmapMapped, IsKept, TakesFirst, alloc_block_num-TakesFirst,
}
use riem_os.Fs.Free.Undo.{free_block-block_is_free}
use riem_os.Fs.Lookup.Files.{FindsFile, IsResident, dir_lookup-FindsFile}
use riem_os.Fs.Serve.{serve_init}
use riem_os.Fs.Serve.Opens.{IsTable, Opens, serve_init-IsTable}
use riem_os.Fs.Truncate.{IsNode}
use riem_os.Fs.Truncate.Whole.{IsTruncated, file_truncate-IsTruncated}

-- The memory of the server, the disk, which pages are mapped, and how many pages are left.
pub record Machine : Type 0 where
  pub cells : Bytes
  pub disk : Bytes
  pub present : ℕ → ℕ
  pub room : ℕ
  pub refs : ℕ → ℕ
  pub mail : ℕ

abbrev pub within : ℕ → ℕ → ℕ → Bool
within p start n = leb start p && ltb p (start + n)

abbrev pub toy : Os Machine
toy = record {
  ram = λ w. w.cells;
  set_ram = λ w m. record w { cells = m };
  check_va_is_map = λ w va. w.present va;
  memory_alloc = λ w va perm. if w.room == 0 then (neg 4, w) else (
    pos 0,
    record w { present = update w.present va 1; room = w.room - 1; refs = update w.refs va 1 },
  );
  map_memory_from_to = λ w src dst perm. (pos 0, record w { present = update w.present dst 1 });
  unmap_memory_from = λ w va. record w { present = update w.present va 0 };
  sd_read = λ w dst secno n. record w {
    cells = λ p. if within p dst (n * 512) then w.disk (secno * 512 + (p - dst)) else w.cells p;
  };
  sd_write = λ w src secno n. record w {
    disk = λ p.
        if within p (secno * 512) (n * 512) then w.cells (src + (p - secno * 512)) else w.disk p;
  };
  get_physical_page_ref = λ w va. w.refs va;
  ipc_send_call = λ w whom val srcva perm. (pos 0, record w { mail = val });
  ipc_recv_call = λ w dstva. w;
  sched_yield = λ w. w;
  env_ipc_from = λ w. 0x801;
  env_ipc_perm = λ w. 1;
  env_ipc_value = λ w. w.mail;
}

pub toy-IsLawful : IsLawful toy
toy-IsLawful = record {
  ram_set = λ w m. refl;
  mapped_set = λ w m va. refl;
  ram_write = λ w src secno n. refl;
  ram_remap = λ w va perm. refl;
}

-- Eight blocks of which 5 and 6 are free. The root is a directory with the one block 3, which holds the
-- files "a" and "b"; "b" is at 4096 too.
abbrev words : Bytes
words =
    update
      (update
        (update
          (update
            (update (update (update (update (λ _. 0) 0x30001004 8) 0x30002000 96) 0x30001089 16)
              0x3000108c 1)
            0x30001090 3)
          0x30003000 97)
        0x30003108 98)
      4096 98

abbrev small_disk : Server Machine
small_disk = record {
  super = 0x30001000;
  nbitmap = 1;
  bitmap = 0x30002000;
  opentab = λ i. record { o_file = 0; o_fileid = i; o_mode = 0; o_ff = 0x60000000 + i * 4096 };
  world = record {
    cells = words;
    disk = λ _. 0;
    present = update (update (update (λ _. 0) 0x30001000 1) 0x30002000 1) 0x30003000 1;
    room = 1;
    refs = update (λ _. 0) 0x60000000 2;
    mail = 0;
  };
}

small_disk-IsLaidOut : IsLaidOut toy small_disk
unfolding load32
small_disk-IsLaidOut = record {
  super_there = omega arith;
  small = omega arith;
  apart = λ b h. inl (omega arith);
}

small_disk-IsBitmapMapped : IsBitmapMapped toy small_disk
unfolding load32
small_disk-IsBitmapMapped b h =
    let first : b / bit2blk ≡ 0 = omega arith in rw first (λ z. omega arith)

alloc_block_num-TakesFirst_example :
    TakesFirst toy toy-IsLawful small_disk (alloc_block_num toy small_disk)
alloc_block_num-TakesFirst_example =
    alloc_block_num-TakesFirst toy toy-IsLawful small_disk small_disk-IsLaidOut
      small_disk-IsBitmapMapped

four-lt-s_nblocks : 4 < s_nblocks toy small_disk
unfolding load32
four-lt-s_nblocks = omega arith

free_block-block_is_free_example :
    (s' : Server Machine) × (free_block toy 4 small_disk ≡ returned tt s')
    × (block_is_free toy 4 s' ≡ returned true s')
    × IsKept toy small_disk s'
    × ((c : ℕ) → is_marked toy s' c ≡ (c == 4 || is_marked toy small_disk c))
free_block-block_is_free_example =
    free_block-block_is_free toy toy-IsLawful 4 small_disk small_disk-IsLaidOut (λ e. omega arith)
      four-lt-s_nblocks

small_disk-IsNode : IsNode toy small_disk 0x30001008
unfolding load32
small_disk-IsNode p low high = record {
  off_bitmap = λ b h. inl (omega arith);
  off_super = inr (omega arith);
}

-- Cut to nothing, which frees block 3.
file_truncate-IsTruncated_example :
    (s' : Server Machine) × (file_truncate toy 0x30001008 0 small_disk ≡ returned tt s')
    × IsTruncated toy toy-IsLawful small_disk s' 0x30001008 0 0 2
unfolding load32
file_truncate-IsTruncated_example =
    file_truncate-IsTruncated toy toy-IsLawful 0x30001008 0 small_disk small_disk-IsLaidOut
      small_disk-IsNode (omega arith) (omega arith)

first-IsResident : IsResident toy small_disk 0x30001008 0
unfolding load32
first-IsResident = record {
  direct = omega arith;
  there = λ z. omega arith;
  on_disk = omega arith;
  used = refl;
  mapped = λ z. omega arith;
  small = λ z. omega arith;
}

small_disk-IsResident : (i : ℕ) → i < 1 → IsResident toy small_disk 0x30001008 i
small_disk-IsResident i h =
    let first : 0 ≡ i = omega arith in
    subst (IsResident toy small_disk 0x30001008) first first-IsResident

-- The name "b" is found.
dir_lookup-FindsFile_example :
    FindsFile toy small_disk 0x30001008 4096 0 1 (dir_lookup toy 0x30001008 4096 small_disk)
unfolding load32
dir_lookup-FindsFile_example =
    dir_lookup-FindsFile toy 0x30001008 4096 1 small_disk small_disk-IsResident
      (omega arith, refl, λ j h. ground arith)

serve_init-IsTable_example :
    (s' : Server Machine) × (serve_init toy small_disk ≡ returned tt s') × IsTable s'.opentab
serve_init-IsTable_example = serve_init-IsTable toy small_disk
