-- ===== src/Fs/Serve.antt =====
-- fs/server.c: the table of open files, the handlers and a round of the loop of
-- `serve`. Messages that are printed are left out. `opentab` has MAXOPEN entries, an entry is its index.
pub mod Opens
use riem_os.Base.{
  ℕ, zero, suc, ◌+◌, ◌-◌, ◌*◌, ◌/◌, ◌%◌, ◌^◌, Bool, true, false, ◌&&◌, ◌||◌, not, ltb, leb, ◌==◌,
  if◌then◌else◌, Option, none, some, update,
}
use riem_os.Base.Int.{ℤ, pos, negsuc, is_neg}
use riem_os.Memory.Ram.{Bytes, load32, store32, copy_bytes}
use riem_os.Memory.Pte.{page_size, has_bit, mask_v, mask_r}
use riem_os.Ulib.{memset}
use riem_os.Fs.{
  Os, Server, Open, Outcome, returned, failed, panicked, Run, ◌>>=◌, ◌>>◌, pure, fail, user_panic,
  result, memory, with_memory, peek, poke, by2blk, by2file, mask_g, maxpathlen, e_max_open, e_inval,
}
use riem_os.Ipc.{ipc_send, ipc_recv}
use riem_os.Fs.Blocks.{alloc_page, unmap_page, copy, fs_init}
use riem_os.Fs.Nodes.{poke8, file_get_block, file_dirty}
use riem_os.Fs.Files.{file_open, file_set_size, file_remove, fs_sync}

abbrev pub maxopen : ℕ
maxopen = 1024

abbrev pub fileva : ℕ
fileva = 0x60000000

abbrev pub reqva : ℕ
reqva = 0x0ffff000

-- `devfile.dev_id` in this unit, where nothing initialises the `devfile` of user/include/fd.h.
abbrev pub devfile_dev_id : ℕ
devfile_dev_id = 0

-- The loop of `serve_init` from `i` on with `n` rounds left; `va` is a u_int.
unfoldable pub init_from : ℕ → ℕ → ℕ → (ℕ → Open) → ℕ → Open
init_from zero i va tab = tab
init_from (suc n) i va tab =
    init_from n (i + 1) ((va + page_size) % 2 ^ 32)
      (update tab i (record (tab i) { o_fileid = i; o_ff = va }))

module _ {W : Type 0} (os : Os W) where
  abbrev pub sent : Server W → Option W → Outcome W (Unit {0})
  sent s none = panicked
  sent s (some w) = returned tt (record s { world = w })

  -- ipc_send
  abbrev pub reply : ℕ → ℕ → ℕ → ℕ → ℕ → Run W (Unit {0})
  reply fuel envid val srcva perm s = sent s (ipc_send os fuel envid val srcva perm s.world)

  -- ipc_recv
  abbrev pub receive : ℕ → Run W (ℕ × ℕ × ℕ)
  receive dstva s =
      let (message, w) = ipc_recv os dstva s.world in returned message (record s { world = w })

  unfoldable pub serve_init : Run W (Unit {0})
  serve_init s = returned tt (record s { opentab = init_from maxopen 0 fileva s.opentab })

  -- `case 1` of `open_alloc`: the entry and its new id.
  unfoldable pub open_entry : ℕ → Run W (ℕ × ℕ)
  open_entry i s =
      let o = s.opentab i in
      let id = (o.o_fileid + maxopen) % 2 ^ 32 in
      let t = record s { opentab = update s.opentab i (record o { o_fileid = id }) } in
      returned (i, id) (with_memory os t (memset (memory os t) o.o_ff 0 page_size))

  -- The loop of `open_alloc` from `i` on with `n` rounds left.
  unfoldable pub open_from : ℕ → ℕ → Run W (ℕ × ℕ)
  open_from zero i s = failed e_max_open s
  open_from (suc n) i s =
      let rest = open_from n (i + 1) s in
      let ref = os.get_physical_page_ref s.world (s.opentab i).o_ff in
      if ref == 0
      then (do
        r ← alloc_page os (s.opentab i).o_ff (mask_v + mask_r + mask_g)
        if is_neg r then result r else pure tt
        open_entry i)
          s
      else if ref == 1
      then open_entry i s
      else rest

  unfoldable pub open_alloc : Run W (ℕ × ℕ)
  open_alloc = open_from maxopen 0

  -- `*po`
  unfoldable pub open_lookup : ℕ → Run W ℕ
  open_lookup fileid s =
      let i = fileid % maxopen in
      if os.get_physical_page_ref s.world (s.opentab i).o_ff == 1
        || not ((s.opentab i).o_fileid == fileid)
      then failed e_inval s
      else returned i s

  -- What a handler sends: `ipc_send(envid, r, 0, 0)` with its error, or the page.
  abbrev pub answer : ℕ → ℕ → Outcome W (ℕ × ℕ) → Outcome W (Unit {0})
  answer fuel envid (returned (srcva, perm) s) = reply fuel envid 0 srcva perm s
  answer fuel envid (failed e s) = reply fuel envid (2 ^ 64 - e) 0 0 s
  answer fuel envid panicked = panicked

  abbrev pub o_file_of : ℕ → Run W ℕ
  o_file_of i s = returned (s.opentab i).o_file s

  unfoldable pub serve_map : ℕ → ℕ → ℕ → Run W (Unit {0})
  serve_map fuel envid rq s = answer fuel envid (
      (do
        fileid ← peek os rq
        i ← open_lookup fileid
        offset ← peek os (rq + 4)
        f ← o_file_of i
        blk ← file_get_block os f (offset / by2blk)
        pure (blk, mask_v + mask_r + mask_g))
        s)

  unfoldable pub serve_set_size : ℕ → ℕ → ℕ → Run W (Unit {0})
  serve_set_size fuel envid rq s = answer fuel envid (
      (do
        fileid ← peek os rq
        i ← open_lookup fileid
        size ← peek os (rq + 4)
        f ← o_file_of i
        file_set_size os f size
        pure (0, 0))
        s)

  unfoldable pub serve_close : ℕ → ℕ → ℕ → Run W (Unit {0})
  serve_close fuel envid rq s =
      answer fuel envid ((do fileid ← peek os rq; i ← open_lookup fileid; pure (0, 0)) s)

  unfoldable pub serve_dirty : ℕ → ℕ → ℕ → Run W (Unit {0})
  serve_dirty fuel envid rq s = answer fuel envid (
      (do
        fileid ← peek os rq
        i ← open_lookup fileid
        offset ← peek os (rq + 4)
        f ← o_file_of i
        file_dirty os f offset
        pure (0, 0))
        s)

  -- `path` and `name` are the arrays of the handler and of `walk_path`.
  unfoldable pub serve_remove : ℕ → ℕ → ℕ → ℕ → ℕ → Run W (Unit {0})
  serve_remove fuel path name envid rq s = answer fuel envid (
      (do
        copy os rq path maxpathlen
        poke8 os (path + (maxpathlen - 1)) 0
        file_remove os fuel path name
        pure (0, 0))
        s)

  unfoldable pub serve_sync : ℕ → ℕ → Run W (Unit {0})
  serve_sync fuel envid = do fs_sync os fuel; reply fuel envid 0 0 0

  -- `while (1);`: the handler does not come back.
  abbrev pub or_stuck : {A : Type 0} → Outcome W A → Outcome W A
  or_stuck (returned a s) = returned a s
  or_stuck (failed e s) = panicked
  or_stuck panicked = panicked

  -- The result of `open_alloc`. Where it is an error, `ipc_send(envid, r, 0, 0)` sends it, and the
  -- handler goes on with `o`, which then has no value: it comes to nothing either way.
  abbrev pub opened : ℕ → ℕ → Outcome W (ℕ × ℕ) → Outcome W (ℕ × ℕ)
  opened fuel envid (returned (i, id) s) = returned (i, id) s
  opened fuel envid (failed e s) = (reply fuel envid (2 ^ 64 - e) 0 0 >> (λ _. panicked)) s
  opened fuel envid panicked = panicked

  -- What `serve_open` stores in entry `i`, and in the page of its descriptor, for file `f`.
  unfoldable pub fill_open : ℕ → ℕ → ℕ → Run W (Unit {0})
  fill_open i f rq s =
      let ff = (s.opentab i).o_ff in
      let m1 = copy_bytes by2file (memory os s) f (ff + 16) in
      let m2 = store32 m1 (ff + 12) (s.opentab i).o_fileid in
      let mode = load32 m2 (rq + 128) in
      let m3 = store32 (store32 m2 (ff + 8) mode) ff devfile_dev_id in
      returned tt (
        with_memory os
          (record s {
            opentab = update s.opentab i (record (s.opentab i) { o_file = f; o_mode = mode });
          })
          m3)

  unfoldable pub serve_open : ℕ → ℕ → ℕ → ℕ → ℕ → Run W (Unit {0})
  serve_open fuel path name envid rq = do
    copy os rq path 128
    poke8 os (path + 127) 0
    (i, id) ← (λ s. opened fuel envid (open_alloc s))
    f ← (λ s. or_stuck (file_open os fuel path name s))
    fill_open i f rq
    (λ s. reply fuel envid 0 (s.opentab i).o_ff (mask_v + mask_r + mask_g) s)

  -- The switch of `serve`.
  unfoldable pub dispatch : ℕ → ℕ → ℕ → ℕ → ℕ → Run W (Unit {0})
  dispatch fuel path name req whom =
      if req == 1
      then serve_open fuel path name whom reqva
      else if req == 2
      then serve_map fuel whom reqva
      else if req == 3
      then serve_set_size fuel whom reqva
      else if req == 4
      then serve_close fuel whom reqva
      else if req == 5
      then serve_dirty fuel whom reqva
      else if req == 6
      then serve_remove fuel path name whom reqva
      else if req == 7
      then serve_sync fuel whom
      else pure tt

  -- A round of the loop of `serve`.
  unfoldable pub serve : ℕ → ℕ → ℕ → Run W (Unit {0})
  serve fuel path name = do
    (req, whom, perm) ← receive reqva
    if has_bit 0 perm then (dispatch fuel path name req whom >> unmap_page os reqva) else pure tt

  unfoldable pub serve_rounds : ℕ → ℕ → ℕ → ℕ → Run W (Unit {0})
  serve_rounds zero fuel path name s = returned tt s
  serve_rounds (suc n) fuel path name s = (do serve fuel path name; serve_rounds n fuel path name) s

  -- `userMain` up to `n` rounds of its loop.
  unfoldable pub user_main : ℕ → ℕ → ℕ → ℕ → ℕ → Run W (Unit {0})
  user_main n fuel oops path name = do serve_init; fs_init os oops; serve_rounds n fuel path name
