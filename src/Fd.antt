-- ===== src/Fd.antt =====
-- user/lib/fd.c: file descriptors and their devices. A process sees its memory and the system calls as
-- `Os`; the devices of `devtab`, up to its 0, are a parameter. Messages that are printed are left out.
use riem_os.Base.{
  ℕ, zero, suc, ◌+◌, ◌-◌, ◌*◌, ◌/◌, ◌%◌, ◌^◌, Bool, false, ltb, leb, ◌==◌, if◌then◌else◌, Option,
  none, some, List, [], ◌∷◌,
}
use riem_os.Base.Int.{ℤ, pos, negsuc, neg, is_neg}
use riem_os.Memory.Ram.{load32, store32, store64, store8}
use riem_os.Memory.Pte.{page_size}
use riem_os.Fs.{Os, e_inval, e_max_open}

abbrev pub maxfd : ℕ
maxfd = 32

abbrev pub pdmap : ℕ
pdmap = 0x200000

abbrev pub filebase : ℕ
filebase = 0x60000000

abbrev pub fdtable : ℕ
fdtable = filebase - pdmap

abbrev pub o_rdonly : ℕ
o_rdonly = 0

abbrev pub o_wronly : ℕ
o_wronly = 1

-- INDEX2FD of an `int`, as a u_int
abbrev pub index2fd : ℤ → ℕ
index2fd (pos i) = (fdtable + i * page_size) % 2 ^ 32
index2fd (negsuc i) = (fdtable + 2 ^ 44 - (i + 1) * page_size) % 2 ^ 32

-- `fdnum >= MAXFD`
abbrev pub is_high : ℤ → Bool
is_high (pos i) = leb maxfd i
is_high (negsuc i) = false

abbrev pub fd2num : ℕ → ℕ
fd2num fd = (fd % 2 ^ 32 + 2 ^ 32 - fdtable) % 2 ^ 32 / page_size

-- INDEX2DATA(fd2num(fd))
abbrev pub fd2data : ℕ → ℕ
fd2data fd = (filebase + fd2num fd * pdmap) % 2 ^ 32

abbrev pub num2fd : ℕ → ℕ
num2fd fd = (fd * page_size + fdtable) % 2 ^ 32

-- A result that is not negative, as a number.
abbrev pub count : ℤ → ℕ
count (pos n) = n
count (negsuc n) = 0

-- `struct Dev` and its address
pub record Dev (W : Type 0) : Type 0 where
  pub address : ℕ
  pub dev_id : ℕ
  pub dev_read : W → ℕ → ℕ → ℕ → ℕ → ℤ × W
  pub dev_write : W → ℕ → ℕ → ℕ → ℕ → ℤ × W
  pub dev_close : W → ℕ → ℤ × W
  pub dev_stat : W → ℕ → ℕ → ℤ × W

-- `*dev`; `none`: -E_INVAL
unfoldable pub dev_lookup : {W : Type 0} → List (Dev W) → ℕ → Option (Dev W)
dev_lookup [] dev_id = none
dev_lookup (d ∷ ds) dev_id =
    let rest = dev_lookup ds dev_id in if d.dev_id == dev_id then some d else rest

module _ {W : Type 0} (os : Os W) where
  -- The loop of `fd_alloc` with `n` rounds left: the result, and `*fd`. `none`: it ends without one.
  unfoldable pub fd_alloc_from : ℕ → ℕ → W → Option (ℤ × ℕ)
  fd_alloc_from zero fdno w = none
  fd_alloc_from (suc n) fdno w =
      let va = index2fd (pos fdno) in
      if os.check_va_is_map w va == 0 then some (pos 0, va) else some (neg e_max_open, 0)

  unfoldable pub fd_alloc : W → Option (ℤ × ℕ)
  fd_alloc w = fd_alloc_from (maxfd - 1) 0 w

  unfoldable pub fd_close : ℕ → W → W
  fd_close fd w = os.unmap_memory_from w (fd % 2 ^ 32)

  -- `*fd`; `none`: -E_INVAL
  unfoldable pub fd_lookup : ℤ → W → Option ℕ
  fd_lookup fdnum w =
      if is_high fdnum
      then none
      else if os.check_va_is_map w (index2fd fdnum) == 0
      then none
      else some (index2fd fdnum)

  -- if ((r = ...) < 0) return r;
  abbrev pub or_inval : {A : Type 0} → Option A → W → (A → ℤ × W) → ℤ × W
  or_inval none w go_on = (neg e_inval, w)
  or_inval (some a) w go_on = go_on a

  -- A store to the memory of the process.
  abbrev pub put32 : ℕ → ℕ → W → W
  put32 p v w = os.set_ram w (store32 (os.ram w) p v)

  -- `if (r > 0) fd->fd_offset += r;`
  abbrev pub advance_by : ℤ → ℕ → W → W
  advance_by (pos zero) fd w = w
  advance_by (pos (suc r)) fd w = put32 (fd + 4) (load32 (os.ram w) (fd + 4) + suc r) w
  advance_by (negsuc r) fd w = w

  -- `((char *)buf)[r]`
  abbrev pub byte_at : ℕ → ℤ → ℕ
  byte_at buf (pos r) = buf + r
  byte_at buf (negsuc r) = buf - (r + 1)

  -- What `read` and `write` do with the device's result.
  abbrev pub read_with : ℕ → ℕ → ℤ × W → ℤ × W
  read_with fd buf (r, w) =
      let moved = advance_by r fd w in
      (r, os.set_ram moved (store8 (os.ram moved) (byte_at buf r) 0))

  abbrev pub written_with : ℕ → ℤ × W → ℤ × W
  written_with fd (r, w) = (r, advance_by r fd w)

  unfoldable pub seek : ℤ → ℕ → W → ℤ × W
  seek fdnum offset w = or_inval (fd_lookup fdnum w) w λ fd. (pos 0, put32 (fd + 4) offset w)

  module _ (devtab : List (Dev W)) where
    -- The descriptor and its device, with which most functions begin.
    abbrev pub with_dev : ℤ → W → (ℕ → Dev W → ℤ × W) → ℤ × W
    with_dev fdnum w go_on =
        or_inval (fd_lookup fdnum w) w
          λ fd. or_inval (dev_lookup devtab (load32 (os.ram w) fd)) w λ dev. go_on fd dev

    abbrev pub closed_with : ℕ → ℤ × W → ℤ × W
    closed_with fd (r, w) = (r, fd_close fd w)

    unfoldable pub close : ℤ → W → ℤ × W
    close fdnum w = with_dev fdnum w λ fd dev. closed_with fd (dev.dev_close w fd)

    -- The loop of `close_all` from `i` on with `n` rounds left.
    unfoldable pub close_from : ℕ → ℕ → W → W
    close_from zero i w = w
    close_from (suc n) i w = close_from n (i + 1) (close (pos i) w).1

    unfoldable pub close_all : W → W
    close_all w = close_from maxfd 0 w

    unfoldable pub dup : ℤ → ℤ → W → ℤ × W
    dup oldfdnum newfdnum w =
        or_inval (fd_lookup oldfdnum w) w λ oldfd. (newfdnum, (close newfdnum w).1)

    unfoldable pub read : ℤ → ℕ → ℕ → W → ℤ × W
    read fdnum buf n w = with_dev fdnum w λ fd dev.
        if load32 (os.ram w) (fd + 8) % 4 == o_wronly
        then (neg e_inval, w)
        else read_with fd buf (dev.dev_read w fd buf n (load32 (os.ram w) (fd + 4)))

    -- The loop of `readn` at `tot`; `none`: the fuel runs out.
    unfoldable pub readn_from : ℕ → ℤ → ℕ → ℕ → ℕ → W → Option (ℤ × W)
    readn_from zero fdnum buf n tot w = none
    readn_from (suc fuel) fdnum buf n tot w =
        let r = read fdnum (buf + tot) (n - tot) w in
        let rest = readn_from fuel fdnum buf n (tot + count r.0) r.1 in
        if ltb tot n
        then if is_neg r.0 then some r else if count r.0 == 0 then some (pos tot, r.1) else rest
        else some (pos tot, w)

    unfoldable pub readn : ℕ → ℤ → ℕ → ℕ → W → Option (ℤ × W)
    readn fuel fdnum buf n w = readn_from fuel fdnum buf n 0 w

    unfoldable pub write : ℤ → ℕ → ℕ → W → ℤ × W
    write fdnum buf n w = with_dev fdnum w λ fd dev.
        if load32 (os.ram w) (fd + 8) % 4 == o_rdonly
        then (neg e_inval, w)
        else written_with fd (dev.dev_write w fd buf n (load32 (os.ram w) (fd + 4)))

    -- `st_name`, `st_size`, `st_isdir` and `st_dev` before the device fills them in.
    unfoldable pub fstat : ℤ → ℕ → W → ℤ × W
    fstat fdnum stat w = with_dev fdnum w λ fd dev.
        let m1 = store8 (os.ram w) stat 0 in
        let m2 = store32 (store32 m1 (stat + 128) 0) (stat + 132) 0 in
        dev.dev_stat (os.set_ram w (store64 m2 (stat + 136) dev.address)) fd stat

    abbrev pub stat_with : ℤ × W → ℤ × W → ℤ × W
    stat_with (fd, w) (r, w1) = (r, (close fd w1).1)

    -- `open` of user/lib/file.c is a parameter.
    unfoldable pub stat : (W → ℕ → ℕ → ℤ × W) → ℕ → ℕ → W → ℤ × W
    stat open_file path st w =
        let (fd, w1) = open_file w path o_rdonly in
        if is_neg fd then (fd, w1) else stat_with (fd, w1) (fstat fd st w1)
