-- ===== src/Fs.antt =====
-- The file system of fs/fs.c with user/include/fs.h and fs/server.h: what its functions share. A
-- function runs on the globals of the server and on the rest of the machine, of which it sees its own
-- memory and the system calls.
pub mod Blocks
pub mod Nodes
pub mod Files
pub mod Marks
pub mod Free
pub mod Truncate
pub mod Lookup
pub mod Serve
use riem_os.Base.{
  ℕ, ◌+◌, ◌-◌, ◌*◌, ◌/◌, ◌%◌, ◌^◌, Bool, true, false, Option, none, some, if◌then◌else◌, ◌==◌,
}
use riem_os.Base.Int.{ℤ, pos, negsuc}
use riem_os.Memory.Ram.{Bytes, load32, store32}
use riem_os.Memory.Pte.{page_size, has_bit}

-- What the server uses of the machine: its memory at its own addresses, and the system calls of
-- user/include/syscallLib.h, for itself as process 0.
pub record Os (W : Type 0) : Type 0 where
  pub ram : W → Bytes
  pub set_ram : W → Bytes → W
  pub check_va_is_map : W → ℕ → ℕ
  pub memory_alloc : W → ℕ → ℕ → ℤ × W
  pub map_memory_from_to : W → ℕ → ℕ → ℕ → ℤ × W
  pub unmap_memory_from : W → ℕ → W
  pub sd_read : W → ℕ → ℕ → ℕ → W
  pub sd_write : W → ℕ → ℕ → ℕ → W
  pub get_physical_page_ref : W → ℕ → ℕ
  pub ipc_send_call : W → ℕ → ℕ → ℕ → ℕ → ℤ × W
  pub ipc_recv_call : W → ℕ → W
  pub sched_yield : W → W
  -- the fields of the process that `ipc_recv` reads
  pub env_ipc_from : W → ℕ
  pub env_ipc_perm : W → ℕ
  pub env_ipc_value : W → ℕ

-- `struct Open`
pub record Open : Type 0 where
  pub o_file : ℕ
  pub o_fileid : ℕ
  pub o_mode : ℕ
  pub o_ff : ℕ

-- `super`, `nbitmap`, `bitmap`, `opentab` and the machine.
pub record Server (W : Type 0) : Type 0 where
  pub super : ℕ
  pub nbitmap : ℕ
  pub bitmap : ℕ
  pub opentab : ℕ → Open
  pub world : W

-- A function returns, fails with the error -e, or does not come back: `user_panic`, or a loop that
-- does not end within its fuel.
pub data Outcome (W A : Type 0) : Type 0 where
  returned : A → Server W → Outcome W A
  failed : ℕ → Server W → Outcome W A
  panicked : Outcome W A

abbrev pub Run : Type 0 → Type 0 → Type 0
Run W A = Server W → Outcome W A

abbrev pub and_then : {W A B : Type 0} → Outcome W A → (A → Run W B) → Outcome W B
and_then (returned a s) f = f a s
and_then (failed e s) f = failed e s
and_then panicked f = panicked

-- if ((r = m) < 0) return r;
infixl 5 ◌>>=◌ ◌>>◌
abbrev pub ◌>>=◌ : {W A B : Type 0} → Run W A → (A → Run W B) → Run W B
◌>>=◌ m f s = and_then (m s) f

abbrev pub ◌>>◌ : {W B : Type 0} → Run W (Unit {0}) → Run W B → Run W B
m >> k = m >>= λ _. k

abbrev pub pure : {W A : Type 0} → A → Run W A
pure a s = returned a s

abbrev pub fail : {W A : Type 0} → ℕ → Run W A
fail e s = failed e s

abbrev pub user_panic : {W A : Type 0} → Run W A
user_panic s = panicked

-- return r; of a system call
abbrev pub result : {W : Type 0} → ℤ → Run W (Unit {0})
result (pos n) = pure tt
result (negsuc n) = fail (n + 1)

-- A call whose result is not looked at.
abbrev pub settled : {W A : Type 0} → Outcome W A → Outcome W (Unit {0})
settled (returned a s) = returned tt s
settled (failed e s) = returned tt s
settled panicked = panicked

abbrev pub ignoring : {W A : Type 0} → Run W A → Run W (Unit {0})
ignoring m s = settled (m s)

module _ {W : Type 0} (os : Os W) where
  abbrev pub memory : Server W → Bytes
  memory s = os.ram s.world

  abbrev pub with_memory : Server W → Bytes → Server W
  with_memory s m = record s { world = os.set_ram s.world m }

  -- `*(u_int *)p`, and a store to it
  abbrev pub peek : ℕ → Run W ℕ
  peek p s = returned (load32 (memory s) p) s

  -- A store. The permissions of its page are not modelled: one to a page that `write_block` has mapped
  -- onto itself, without PTE_W and PTE_U, would fault.
  abbrev pub poke : ℕ → ℕ → Run W (Unit {0})
  poke p v s = returned tt (with_memory s (store32 (memory s) p v))

-- A bit of a word set, and cleared: `w | 1 << k` and `w & ~(1 << k)`.
abbrev pub with_bit : ℕ → ℕ → ℕ
with_bit k w = if has_bit k w then w else w + 2 ^ k

abbrev pub without_bit : ℕ → ℕ → ℕ
without_bit k w = if has_bit k w then w - 2 ^ k else w

abbrev pub by2blk : ℕ
by2blk = page_size

abbrev pub bit2blk : ℕ
bit2blk = by2blk * 8

abbrev pub sect2blk : ℕ
sect2blk = 8

abbrev pub diskmap : ℕ
diskmap = 0x30000000

abbrev pub diskmax : ℕ
diskmax = 0x40000000

abbrev pub fs_magic : ℕ
fs_magic = 0x68286097

abbrev pub ndirect : ℕ
ndirect = 10

abbrev pub nindirect : ℕ
nindirect = by2blk / 4

abbrev pub maxnamelen : ℕ
maxnamelen = 128

-- sizeof(struct File) with its pointer of 8 bytes, and FILE2BLK.
abbrev pub by2file : ℕ
by2file = 264

abbrev pub file2blk : ℕ
file2blk = page_size / by2file

abbrev pub mask_g : ℕ
mask_g = 32

-- include/error.h
abbrev pub e_inval : ℕ
e_inval = 3

abbrev pub e_no_disk : ℕ
e_no_disk = 7

abbrev pub e_not_found : ℕ
e_not_found = 9

abbrev pub e_bad_path : ℕ
e_bad_path = 10

abbrev pub e_file_exists : ℕ
e_file_exists = 11

abbrev pub e_ipc_not_recv : ℕ
e_ipc_not_recv = 6

abbrev pub e_max_open : ℕ
e_max_open = 8

abbrev pub maxpathlen : ℕ
maxpathlen = 1024
