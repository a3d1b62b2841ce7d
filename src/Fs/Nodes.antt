-- ===== src/Fs/Nodes.antt =====
-- `struct File` and the blocks of a file, and the entries of a directory: fs/fs.c from
-- `file_block_walk` to `dir_alloc_file`. A file is the address of its node.
use riem_os.Base.{
  ℕ, zero, suc, ◌+◌, ◌*◌, ◌/◌, Bool, true, false, ltb, ◌==◌, if◌then◌else◌, Option, none, some,
}
use riem_os.Base.Int.{ℤ, is_nonzero}
use riem_os.Memory.Ram.{Bytes, load32, store64, store8}
use riem_os.Ulib.{strcmp}
use riem_os.Fs.{
  Os, returned, failed, panicked, Run, ◌>>=◌, ◌>>◌, pure, fail, memory, with_memory, peek, poke,
  by2blk, ndirect, nindirect, maxnamelen, by2file, file2blk, e_inval, e_not_found,
}
use riem_os.Fs.Blocks.{alloc_block, read_block, free_block}

-- The addresses of the fields; `f_name` is the first.
abbrev pub f_size : ℕ → ℕ
f_size f = f + 128

abbrev pub f_type : ℕ → ℕ
f_type f = f + 132

abbrev pub f_direct : ℕ → ℕ → ℕ
f_direct f i = f + 136 + 4 * i

abbrev pub f_indirect : ℕ → ℕ
f_indirect f = f + 176

abbrev pub f_dir : ℕ → ℕ
f_dir f = f + 184

module _ {W : Type 0} (os : Os W) where
  abbrev pub poke64 : ℕ → ℕ → Run W (Unit {0})
  poke64 p v s = returned tt (with_memory os s (store64 (memory os s) p v))

  abbrev pub poke8 : ℕ → ℕ → Run W (Unit {0})
  poke8 p v s = returned tt (with_memory os s (store8 (memory os s) p v))

  -- `*ppdiskbno`
  unfoldable pub file_block_walk : ℕ → ℕ → Bool → Run W ℕ
  file_block_walk f filebno alloc =
      if ltb filebno ndirect
      then pure (f_direct f filebno)
      else if ltb filebno nindirect
      then (do
        there ← peek os (f_indirect f)
        if there == 0
            then (if alloc
                then (alloc_block os >>= λ r. poke os (f_indirect f) r)
                else fail e_not_found)
            else pure tt
        indirect ← peek os (f_indirect f)
        (blk, isnew) ← read_block os indirect
        pure (blk + 4 * filebno))
      else fail e_inval

  -- `*diskbno`
  unfoldable pub file_map_block : ℕ → ℕ → Bool → Run W ℕ
  file_map_block f filebno alloc = do
    ptr ← file_block_walk f filebno alloc
    there ← peek os ptr
    if there == 0
        then (if alloc then (alloc_block os >>= λ r. poke os ptr r) else fail e_not_found)
        else pure tt
    peek os ptr

  unfoldable pub file_clear_block : ℕ → ℕ → Run W (Unit {0})
  file_clear_block f filebno = do
    ptr ← file_block_walk f filebno false
    there ← peek os ptr
    if there == 0 then pure tt else (free_block os there >> poke os ptr 0)

  -- `*blk`
  unfoldable pub file_get_block : ℕ → ℕ → Run W ℕ
  file_get_block f filebno = do
    diskbno ← file_map_block f filebno true
    (blk, isnew) ← read_block os diskbno
    pure blk

  unfoldable pub file_dirty : ℕ → ℕ → Run W (Unit {0})
  file_dirty f offset =
      file_get_block f (offset / by2blk) >>= λ blk s. poke8 blk (memory os s blk) s

  abbrev pub is_same : Option ℤ → Run W Bool
  is_same none s = panicked
  is_same (some r) s = returned (if is_nonzero r then false else true) s

  -- `strcmp(a, b) == 0` where `a` ends within MAXNAMELEN bytes.
  abbrev pub same_name : ℕ → ℕ → Run W Bool
  same_name a b s = is_same (strcmp maxnamelen (memory os s) a b) s

  -- The loop over `j` from node `f` on with `n` rounds left; `none`: no node of the block has the name.
  unfoldable pub lookup_block : ℕ → ℕ → ℕ → ℕ → Run W (Option ℕ)
  lookup_block zero dir name f s = returned none s
  lookup_block (suc n) dir name f s =
      let rest = lookup_block n dir name (f + by2file) s in
      let put = (poke64 (f_dir f) dir >> pure (some f)) s in
      (same_name name f >>= λ same t. if same then put else rest) s

  -- The loop over `i` with `n` rounds left.
  unfoldable pub lookup_from : ℕ → ℕ → ℕ → ℕ → Run W ℕ
  lookup_from zero dir name i s = failed e_not_found s
  lookup_from (suc n) dir name i s =
      (do
        blk ← file_get_block dir i
        found ← lookup_block file2blk dir name blk
        (elim found as (λ _. Run W ℕ) [ some f ↦ pure f | none ↦ lookup_from n dir name (i + 1) ]))
        s

  -- `*file`
  unfoldable pub dir_lookup : ℕ → ℕ → Run W ℕ
  dir_lookup dir name s = lookup_from (load32 (memory os s) (f_size dir) / by2blk) dir name 0 s

  -- The loop over `j` of `dir_alloc_file`: the first node with an empty name.
  unfoldable pub free_node : ℕ → ℕ → Bytes → Option ℕ
  free_node zero f m = none
  free_node (suc n) f m =
      let rest = free_node n (f + by2file) m in if m f == 0 then some f else rest

  -- The loop over `i` with `n` rounds left, and what stands behind it.
  unfoldable pub alloc_file_from : ℕ → ℕ → ℕ → Run W ℕ
  alloc_file_from zero dir i s =
      (do size ← peek os (f_size dir); poke os (f_size dir) (size + by2blk); file_get_block dir i) s
  alloc_file_from (suc n) dir i s =
      (do
        blk ← file_get_block dir i
        (λ t.
            (elim (free_node file2blk blk (memory os t)) as (λ _. Run W ℕ) [
              | some f ↦ pure f
              | none ↦ alloc_file_from n dir (i + 1)
            ])
              t))
        s

  -- `*file`
  unfoldable pub dir_alloc_file : ℕ → Run W ℕ
  dir_alloc_file dir s = alloc_file_from (load32 (memory os s) (f_size dir) / by2blk) dir 0 s
