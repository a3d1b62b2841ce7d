-- ===== src/Ipc.antt =====
-- user/lib/ipc.c and the requests of user/lib/fsipc.c to the file server. A process sees its memory and
-- the system calls as `Os`. `none`: the call panics, or does not end within its fuel.
use riem_os.Base.{
  ℕ, zero, suc, ◌+◌, ◌-◌, ◌*◌, ◌/◌, ◌%◌, ◌^◌, Bool, false, ltb, leb, ◌==◌, if◌then◌else◌, Option,
  none, some, not,
}
use riem_os.Base.Int.{ℤ, pos, negsuc, neg, is_neg}
use riem_os.Memory.Ram.{store32}
use riem_os.Memory.Pte.{mask_v, mask_r}
use riem_os.Ulib.{strcpy, strlen}
use riem_os.Fs.{Os, e_ipc_not_recv, e_bad_path, mask_g, maxpathlen}

-- The test `r == -E_IPC_NOT_RECV`.
abbrev pub is_not_recv : ℤ → Bool
is_not_recv (pos n) = false
is_not_recv (negsuc n) = n + 1 == e_ipc_not_recv

abbrev pub is_zero : ℤ → Bool
is_zero (pos n) = n == 0
is_zero (negsuc n) = false

-- A u_int as an `int`.
abbrev pub as_int : ℕ → ℤ
as_int v = let w = v % 2 ^ 32 in if ltb w (2 ^ 31) then pos w else neg (2 ^ 32 - w)

-- `fileSystemPid`
abbrev pub file_system_pid : ℕ
file_system_pid = 0x800

-- `(perm & ~(PTE_R | PTE_G)) != PTE_V` on the bits of a u_int
abbrev pub is_odd_perm : ℕ → Bool
is_odd_perm perm =
    let p = perm % 2 ^ 32 in not (p - p / 2 % 2 * mask_r - p / 32 % 2 * mask_g == mask_v)

module _ {W : Type 0} (os : Os W) where
  unfoldable pub ipc_send : ℕ → ℕ → ℕ → ℕ → ℕ → W → Option W
  ipc_send zero whom val srcva perm w = none
  ipc_send (suc fuel) whom val srcva perm w =
      let (r, w1) = os.ipc_send_call w whom val srcva perm in
      let again = ipc_send fuel whom val srcva perm (os.sched_yield w1) in
      if is_not_recv r then again else if is_zero r then some w1 else none

  -- The value, `*whom` and `*perm`, and the world.
  unfoldable pub ipc_recv : ℕ → W → (ℕ × ℕ × ℕ) × W
  ipc_recv dstva w =
      let w1 = os.ipc_recv_call w dstva in
      ((os.env_ipc_value w1 % 2 ^ 32, os.env_ipc_from w1, os.env_ipc_perm w1), w1)

  -- The answer of the server once it has been sent the request: the value as an `int`, and `*perm`.
  abbrev pub answered : ℕ → Option W → Option ((ℤ × ℕ) × W)
  answered dstva none = none
  answered dstva (some w) =
      let ((val, whom, perm), w1) = ipc_recv dstva w in some ((as_int val, perm), w1)

  unfoldable pub fsipc : ℕ → ℕ → ℕ → ℕ → W → Option ((ℤ × ℕ) × W)
  fsipc fuel kind fsreq dstva w =
      answered dstva (ipc_send fuel file_system_pid kind fsreq (mask_v + mask_r) w)

  -- The result without `*perm`.
  abbrev pub plain : Option ((ℤ × ℕ) × W) → Option (ℤ × W)
  plain none = none
  plain (some ((r, perm), w)) = some (r, w)

  abbrev pub put_word : ℕ → ℕ → W → W
  put_word p v w = os.set_ram w (store32 (os.ram w) p v)

  -- `strcpy(req->req_path, path)`, and what follows.
  abbrev pub put_path : Option (ℕ → ℕ) → W → (W → Option (ℤ × W)) → Option (ℤ × W)
  put_path none w go_on = none
  put_path (some m) w go_on = go_on (os.set_ram w m)

  -- Where `strlen(path) >= MAXPATHLEN` does not hold.
  abbrev pub if_short : Option ℕ → W → Option (ℤ × W) → Option (ℤ × W)
  if_short none w go_on = none
  if_short (some n) w go_on = if leb maxpathlen n then some (neg e_bad_path, w) else go_on

  -- `fsipcbuf` is the page at `req`.
  module _ (fuel req : ℕ) where
    unfoldable pub fsipc_open : ℕ → ℕ → ℕ → W → Option (ℤ × W)
    fsipc_open path omode fd w = if_short (strlen fuel (os.ram w) path) w (
        put_path (strcpy fuel (os.ram w) req path) w
          λ w1. plain (fsipc fuel 1 req (fd % 2 ^ 32) (put_word (req + 128) omode w1)))

    -- `while (1);` where the page comes with other permissions.
    abbrev pub with_perm : Option ((ℤ × ℕ) × W) → Option (ℤ × W)
    with_perm none = none
    with_perm (some ((r, perm), w)) =
        if is_neg r then some (r, w) else if is_odd_perm perm then none else some (pos 0, w)

    unfoldable pub fsipc_map : ℕ → ℕ → ℕ → W → Option (ℤ × W)
    fsipc_map fileid offset dstva w =
        with_perm (fsipc fuel 2 req dstva (put_word (req + 4) offset (put_word req fileid w)))

    unfoldable pub fsipc_set_size : ℕ → ℕ → W → Option (ℤ × W)
    fsipc_set_size fileid size w =
        plain (fsipc fuel 3 req 0 (put_word (req + 4) size (put_word req fileid w)))

    unfoldable pub fsipc_close : ℕ → W → Option (ℤ × W)
    fsipc_close fileid w = plain (fsipc fuel 4 req 0 (put_word req fileid w))

    unfoldable pub fsipc_dirty : ℕ → ℕ → W → Option (ℤ × W)
    fsipc_dirty fileid offset w =
        plain (fsipc fuel 5 req 0 (put_word (req + 4) offset (put_word req fileid w)))

    unfoldable pub fsipc_remove : ℕ → W → Option (ℤ × W)
    fsipc_remove path w =
        if os.ram w path == 0
        then some (neg e_bad_path, w)
        else if_short (strlen fuel (os.ram w) path) w
            (put_path (strcpy fuel (os.ram w) req path) w λ w1. plain (fsipc fuel 6 req 0 w1))

    unfoldable pub fsipc_sync : W → Option (ℤ × W)
    fsipc_sync w = plain (fsipc fuel 7 req 0 w)
