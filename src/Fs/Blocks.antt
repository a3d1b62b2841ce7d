-- ===== src/Fs/Blocks.antt =====
-- The blocks of the disk in the memory of the server, and the bitmap of the free ones: the first half
-- of fs/fs.c. NULL is 0, and block numbers are below 2 ^ 31.
use riem_os.Base.{
  ℕ, zero, suc, ◌+◌, ◌-◌, ◌*◌, ◌/◌, ◌%◌, ◌^◌, Bool, true, false, not, ◌&&◌, ◌||◌, ltb, leb, ◌==◌,
  if◌then◌else◌, none, some,
}
use riem_os.Base.Int.{ℤ}
use riem_os.Memory.Ram.{load32}
use riem_os.Memory.Pte.{page_size, has_bit, mask_v, mask_r, mask_w, mask_x, mask_u, mask_a, mask_d}
use riem_os.Ulib.{strcpy, memcpy}
use riem_os.Fs.{
  Os, Server, Outcome, returned, failed, panicked, Run, ◌>>=◌, ◌>>◌, pure, fail, user_panic, result,
  memory, with_memory, peek, poke, with_bit, without_bit, by2blk, bit2blk, sect2blk, diskmap,
  diskmax, fs_magic, e_no_disk, mask_g,
}

module _ {W : Type 0} (os : Os W) where
  -- `super->s_nblocks`
  abbrev pub s_nblocks : Server W → ℕ
  s_nblocks s = load32 (memory os s) (s.super + 4)

  unfoldable pub diskaddr : ℕ → Run W ℕ
  diskaddr blockno s =
      if not (s.super == 0) && ltb (s_nblocks s) blockno
      then panicked
      else returned ((diskmap + blockno * by2blk) % 2 ^ 32) s

  unfoldable pub va_is_mapped : ℕ → Run W Bool
  va_is_mapped va s = returned (not (os.check_va_is_map s.world va == 0)) s

  -- The address, 0 if the block is not mapped.
  unfoldable pub block_is_mapped : ℕ → Run W ℕ
  block_is_mapped blockno = do
    va ← diskaddr blockno
    mapped ← va_is_mapped va
    pure (if mapped then va else 0)

  abbrev pub va_is_dirty : ℕ → ℕ
  va_is_dirty va = 1

  unfoldable pub block_is_dirty : ℕ → Run W Bool
  block_is_dirty blockno = do
    va ← diskaddr blockno
    mapped ← va_is_mapped va
    pure (mapped && not (va_is_dirty va == 0))

  -- ide_read and ide_write
  abbrev pub ide_read : ℕ → ℕ → ℕ → Run W (Unit {0})
  ide_read dst secno nsecs s = returned tt (record s { world = os.sd_read s.world dst secno nsecs })

  abbrev pub ide_write : ℕ → ℕ → ℕ → Run W (Unit {0})
  ide_write src secno nsecs s =
      returned tt (record s { world = os.sd_write s.world src secno nsecs })

  abbrev pub alloc_page : ℕ → ℕ → Run W ℤ
  alloc_page va perm s =
      let (r, w) = os.memory_alloc s.world va perm in returned r (record s { world = w })

  abbrev pub map_onto : ℕ → ℕ → ℕ → Run W ℤ
  map_onto src dst perm s =
      let (r, w) = os.map_memory_from_to s.world src dst perm in returned r (record s { world = w })

  abbrev pub unmap_page : ℕ → Run W (Unit {0})
  unmap_page va s = returned tt (record s { world = os.unmap_memory_from s.world va })

  unfoldable pub map_block : ℕ → Run W (Unit {0})
  map_block blockno = do
    mapped ← block_is_mapped blockno
    if not (mapped == 0)
        then pure tt
        else (diskaddr blockno >>= λ va. alloc_page va (mask_r + mask_v) >>= result)

  unfoldable pub write_block : ℕ → Run W (Unit {0})
  write_block blockno = do
    mapped ← block_is_mapped blockno
    if mapped == 0 then user_panic else pure tt
    va ← diskaddr blockno
    ide_write va (blockno * sect2blk % 2 ^ 32) sect2blk
    r ← map_onto va va (mask_v + mask_r + mask_g)
    pure tt

  -- The word of the bitmap with the bit of a block.
  abbrev pub bitmap_word : Server W → ℕ → ℕ
  bitmap_word s blockno = s.bitmap + 4 * (blockno / 32)

  abbrev pub is_marked : Server W → ℕ → Bool
  is_marked s blockno = has_bit (blockno % 32) (load32 (memory os s) (bitmap_word s blockno))

  unfoldable pub block_is_free : ℕ → Run W Bool
  block_is_free blockno s =
      if s.super == 0 || leb (s_nblocks s) blockno
      then returned false s
      else returned (is_marked s blockno) s

  unfoldable pub unmap_block : ℕ → Run W (Unit {0})
  unmap_block blockno = do
    addr ← block_is_mapped blockno
    free ← block_is_free blockno
    dirty ← (if free then pure false else block_is_dirty blockno)
    if dirty then write_block blockno else pure tt
    unmap_page addr

  -- The address of the block and `*isnew`.
  unfoldable pub read_block : ℕ → Run W (ℕ × Bool)
  read_block blockno s =
      let checked : Run W (Unit {0}) = do
        if not (s.super == 0) && leb (s_nblocks s) blockno then user_panic else pure tt
        free ← (if s.bitmap == 0 then pure false else block_is_free blockno)
        if free then user_panic else pure tt
      in let load : ℕ → Run W (ℕ × Bool) = λ va. do
        r ← alloc_page va (mask_r + mask_x + mask_w + mask_a + mask_d + mask_v + mask_u)
        ide_read va (blockno * sect2blk % 2 ^ 32) sect2blk
        pure (va, true)
        in (checked
            >> (diskaddr blockno >>= λ va. block_is_mapped blockno >>= λ mapped.
                if mapped == 0 then load va else pure (va, false)))
          s

  unfoldable pub free_block : ℕ → Run W (Unit {0})
  free_block blockno s =
      if blockno == 0 || (not (s.super == 0) && leb (s_nblocks s) blockno)
      then returned tt s
      else (do
        w ← peek os (bitmap_word s blockno)
        poke os (bitmap_word s blockno) (with_bit (blockno % 32) w))
          s

  -- The body of the loop of `alloc_block_num` at a free block.
  unfoldable pub take_block : ℕ → Run W ℕ
  take_block blockno s =
      (do
        w ← peek os (bitmap_word s blockno)
        poke os (bitmap_word s blockno) (without_bit (blockno % 32) w)
        write_block (blockno / bit2blk + 2)
        pure blockno)
        s

  -- The loop of `alloc_block_num` with `n` rounds left.
  unfoldable pub alloc_from : ℕ → ℕ → Run W ℕ
  alloc_from zero blockno s = failed e_no_disk s
  alloc_from (suc n) blockno s =
      let rest = alloc_from n (blockno + 1) s in
      if is_marked s blockno then take_block blockno s else rest

  unfoldable pub alloc_block_num : Run W ℕ
  alloc_block_num s = alloc_from (s_nblocks s - 3) 3 s

  -- `free_block(bno); return r;` where `map_block` fails.
  abbrev pub freeing : ℕ → Outcome W (Unit {0}) → Outcome W ℕ
  freeing bno (returned a s) = returned bno s
  freeing bno (failed e s) = (free_block bno >> fail e) s
  freeing bno panicked = panicked

  unfoldable pub alloc_block : Run W ℕ
  alloc_block = alloc_block_num >>= λ bno s. freeing bno (map_block bno s)

  unfoldable pub read_super : Run W (Unit {0})
  read_super = do
    (blk, isnew) ← read_block 1
    (λ s. returned tt (record s { super = blk }))
    magic ← peek os blk
    nblocks ← peek os (blk + 4)
    if magic == fs_magic then pure tt else user_panic
    if ltb (diskmax / by2blk) nblocks then user_panic else pure tt

  -- The loop of `read_bitmap` from `i` on with `n` rounds left.
  unfoldable pub read_bitmap_from : ℕ → ℕ → Run W (Unit {0})
  read_bitmap_from zero i = pure tt
  read_bitmap_from (suc n) i = do blk ← read_block (i + 2); read_bitmap_from n (i + 1)

  unfoldable pub read_bitmap : Run W (Unit {0})
  read_bitmap s =
      (do
        read_bitmap_from (s_nblocks s / bit2blk + 1) 0
        va ← diskaddr 2
        (λ t. returned tt (record t { nbitmap = s_nblocks s / bit2blk + 1; bitmap = va })))
        s

  abbrev pub copy : ℕ → ℕ → ℕ → Run W (Unit {0})
  copy dst src n s = returned tt (with_memory os s (memcpy (memory os s) dst src n))

  -- strcpy
  abbrev pub copy_string : ℕ → ℕ → ℕ → Run W (Unit {0})
  copy_string fuel dst src s = elim (strcpy fuel (memory os s) dst src) [
    | none ↦ panicked
    | some m ↦ returned tt (with_memory os s m)
  ]

  -- `oops` is the address of the string "OOPS!\n".
  unfoldable pub check_write_block : ℕ → Run W (Unit {0})
  check_write_block oops = do
    (λ s. returned tt (record s { super = 0 }))
    (b, n) ← read_block 0
    d1 ← diskaddr 1
    d0 ← diskaddr 0
    copy d1 d0 page_size
    copy_string 7 d1 oops
    write_block 1
    unmap_page d1
    (c, k) ← read_block 1
    copy d0 d1 page_size
    write_block 1
    (λ s. returned tt (record s { super = d1 }))

  unfoldable pub fs_init : ℕ → Run W (Unit {0})
  fs_init oops = do read_super; check_write_block oops; read_bitmap
