-- ===== src/Fs/Files.antt =====
-- Paths, and files by their path: fs/fs.c from `skip_slash` on. A path and a name are addresses in the
-- memory of the server; loops up to a NUL run on fuel.
use riem_os.Base.{
  ℕ, zero, suc, ◌+◌, ◌-◌, ◌/◌, Bool, true, false, ◌&&◌, ◌||◌, not, ltb, leb, ◌==◌, if◌then◌else◌,
  Option, none, some,
}
use riem_os.Memory.Ram.{Bytes, load64}
use riem_os.Fs.{
  Os, Server, Outcome, returned, failed, panicked, Run, ◌>>=◌, ◌>>◌, pure, fail, ignoring, memory,
  peek, poke, by2blk, ndirect, maxnamelen, e_not_found, e_bad_path, e_file_exists,
}
use riem_os.Fs.Blocks.{s_nblocks, block_is_dirty, write_block, free_block, copy, copy_string}
use riem_os.Fs.Nodes.{
  f_size, f_type, f_indirect, f_dir, poke8, file_map_block, file_clear_block, dir_lookup,
  dir_alloc_file,
}

abbrev pub ftype_dir : ℕ
ftype_dir = 1

-- old_nblocks
abbrev pub blocks_of : ℕ → ℕ
blocks_of size = size / by2blk + 1

-- new_nblocks
abbrev pub new_blocks : ℕ → ℕ
new_blocks newsize = if newsize == 0 then 0 else blocks_of newsize

unfoldable pub skip_slash : ℕ → Bytes → ℕ → Option ℕ
skip_slash zero m p = none
skip_slash (suc fuel) m p =
    let rest = skip_slash fuel m (p + 1) in if m p == 0x2f then rest else some p

-- while (*path != '/' && *path != '\0') path++;
unfoldable pub element_end : ℕ → Bytes → ℕ → Option ℕ
element_end zero m p = none
element_end (suc fuel) m p =
    let rest = element_end fuel m (p + 1) in if m p == 0x2f || m p == 0 then some p else rest

-- The result of `walk_path`, -E where `error` is E, and what it stores for its caller.
pub record PathResult : Type 0 where
  pub error : Option ℕ
  pub pdir : ℕ
  pub pfile : ℕ

module _ {W : Type 0} (os : Os W) where
  -- A pointer's loop in the memory of the server.
  abbrev pub scanning : (Bytes → ℕ → Option ℕ) → ℕ → Run W ℕ
  scanning scan p s = elim (scan (memory os s) p) [ none ↦ panicked | some q ↦ returned q s ]

  -- `*path == '\0'`
  abbrev pub path_ended : Server W → ℕ → Bool
  path_ended s path = memory os s path == 0

  -- What follows `dir_lookup`: the walk ends with its error, or goes on at the file.
  abbrev looked_up : ℕ → ℕ → ℕ → ℕ → (ℕ → Run W PathResult) → Outcome W ℕ → Outcome W PathResult
  looked_up dir name path lastelem go_on (returned file s) = go_on file s
  looked_up dir name path lastelem go_on (failed e s) =
      if e == e_not_found && path_ended s path
      then (do
        if lastelem == 0 then pure tt else copy_string os maxnamelen lastelem name
        pure (record { error = some e; pdir = dir; pfile = 0 }))
          s
      else returned (record { error = some e; pdir = 0; pfile = 0 }) s
  looked_up dir name path lastelem go_on panicked = panicked

  abbrev ended : ℕ → Run W PathResult
  ended e s = returned (record { error = some e; pdir = 0; pfile = 0 }) s

  -- The loop of `walk_path`; `name` is the address of its array, and `dir` what `*pdir` gets at the end.
  unfoldable pub walk_elements : ℕ → ℕ → ℕ → ℕ → ℕ → ℕ → Run W PathResult
  walk_elements zero path name lastelem dir file s = panicked
  walk_elements (suc fuel) path name lastelem dir file s = elim (path_ended s path) [
    | true ↦ returned (record { error = none; pdir = dir; pfile = file }) s
    | false ↦
        (do
          end ← scanning (element_end fuel) path
          if leb maxnamelen (end - path) then ended e_bad_path else (do
            copy os path name (end - path)
            poke8 os (name + (end - path)) 0
            next ← scanning (skip_slash fuel) end
            kind ← peek os (f_type file)
            if kind == ftype_dir
                then (λ t.
                    looked_up file name next lastelem
                      (λ found. walk_elements fuel next name lastelem file found)
                      (dir_lookup os file name t))
                else ended e_not_found))
          s
  ]

  -- `lastelem` is 0 where the caller passes none.
  unfoldable pub walk_path : ℕ → ℕ → ℕ → ℕ → Run W PathResult
  walk_path fuel path name lastelem s =
      (do
        start ← scanning (skip_slash fuel) path
        poke8 os name 0
        walk_elements fuel start name lastelem 0 (s.super + 8))
        s

  abbrev opened : PathResult → Run W ℕ
  opened w = elim w.error as (λ _. Run W ℕ) [ none ↦ pure w.pfile | some e ↦ fail e ]

  -- `*file`
  unfoldable pub file_open : ℕ → ℕ → ℕ → Run W ℕ
  file_open fuel path name = walk_path fuel path name 0 >>= opened

  -- `if (dir_alloc_file(dir, &f) < 0) return r;`, the `r` of `walk_path`
  abbrev or_walk_error : ℕ → (ℕ → Run W ℕ) → Outcome W ℕ → Outcome W ℕ
  or_walk_error e go_on (returned f s) = go_on f s
  or_walk_error e go_on (failed e' s) = failed e s
  or_walk_error e go_on panicked = panicked

  abbrev creating : ℕ → PathResult → Run W ℕ
  creating last w = elim w.error as (λ _. Run W ℕ) [
    | none ↦ fail e_file_exists
    | some e ↦ if not (e == e_not_found) || w.pdir == 0 then fail e else (λ s.
        or_walk_error e (λ f. copy_string os maxnamelen f last >> pure f)
          (dir_alloc_file os w.pdir s))
  ]

  -- `last` and `name` are the arrays of `file_create` and of `walk_path`.
  unfoldable pub file_create : ℕ → ℕ → ℕ → ℕ → Run W ℕ
  file_create fuel path name last = walk_path fuel path name last >>= creating last

  -- The loop of `file_truncate` with `n` rounds left.
  unfoldable pub clear_from : ℕ → ℕ → ℕ → Run W (Unit {0})
  clear_from zero f bno s = returned tt s
  clear_from (suc n) f bno s = (do ignoring (file_clear_block os f bno); clear_from n f (bno + 1)) s

  unfoldable pub file_truncate : ℕ → ℕ → Run W (Unit {0})
  file_truncate f newsize = do
    size ← peek os (f_size f)
    let old_nblocks = blocks_of size
    let new_nblocks = new_blocks newsize
    clear_from (old_nblocks - new_nblocks) f new_nblocks
    indirect ← peek os (f_indirect f)
    if leb new_nblocks ndirect && not (indirect == 0)
        then (free_block os indirect >> poke os (f_indirect f) 0)
        else pure tt
    poke os (f_size f) newsize

  -- The body of the loop of `file_flush`.
  abbrev flush_block : ℕ → Run W (Unit {0})
  flush_block diskno = do
    dirty ← block_is_dirty os diskno
    if dirty then write_block os diskno else pure tt

  abbrev flushed : Outcome W ℕ → Outcome W (Unit {0})
  flushed (returned diskno s) = flush_block diskno s
  flushed (failed e s) = returned tt s
  flushed panicked = panicked

  -- The loop of `file_flush` with `n` rounds left.
  unfoldable pub flush_from : ℕ → ℕ → ℕ → Run W (Unit {0})
  flush_from zero f bno s = returned tt s
  flush_from (suc n) f bno s =
      (do (λ t. flushed (file_map_block os f bno false t)); flush_from n f (bno + 1)) s

  unfoldable pub file_flush : ℕ → Run W (Unit {0})
  file_flush f = peek os (f_size f) >>= λ size. flush_from (blocks_of size) f 0

  -- `if (f->f_dir) file_flush(f->f_dir);`
  abbrev flush_dir : ℕ → Run W (Unit {0})
  flush_dir f s =
      let dir = load64 (memory os s) (f_dir f) in
      if dir == 0 then returned tt s else file_flush dir s

  unfoldable pub file_set_size : ℕ → ℕ → Run W (Unit {0})
  file_set_size f newsize = do
    size ← peek os (f_size f)
    if ltb newsize size then file_truncate f newsize else pure tt
    poke os (f_size f) newsize
    flush_dir f

  -- The loop of `fs_sync`, which reads the number of blocks in each round.
  unfoldable pub sync_from : ℕ → ℕ → Run W (Unit {0})
  sync_from zero i s = panicked
  sync_from (suc fuel) i s = elim (ltb i (s_nblocks os s)) [
    | false ↦ returned tt s
    | true ↦ (do flush_block i; sync_from fuel (i + 1)) s
  ]

  unfoldable pub fs_sync : ℕ → Run W (Unit {0})
  fs_sync fuel = sync_from fuel 0

  unfoldable pub file_close : ℕ → Run W (Unit {0})
  file_close f = do file_flush f; flush_dir f

  unfoldable pub file_remove : ℕ → ℕ → ℕ → Run W (Unit {0})
  file_remove fuel path name = do
    f ← file_open fuel path name
    file_truncate f 0
    poke8 os f 0
    file_flush f
    flush_dir f
