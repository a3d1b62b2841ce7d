-- ===== src/Pipe.antt =====
-- user/lib/pipe.c: reading from a pipe and writing to it. What other processes do to the pipe while the
-- caller gives way is `world`, and the counts of the pages that the kernel gives for the descriptor and
-- for the pipe are `refs`, at each time that the caller asks. `none`: the fuel runs out.
pub mod Steps
pub mod Fifo
use riem_os.Base.{
  ℕ, zero, suc, ◌+◌, ◌-◌, ◌%◌, ◌^◌, Bool, true, false, ◌||◌, Option, none, some, ltb, ◌==◌,
  if◌then◌else◌, update,
}
use riem_os.Memory.Ram.{Bytes, store8}

abbrev pub by2pipe : ℕ
by2pipe = 32

-- `struct Pipe`; the positions are u_int and go around.
pub record Pipe : Type 0 where
  pub rpos : ℕ
  pub wpos : ℕ
  pub buf : Bytes

-- The end of `_pipeisclosed`, on the two counts.
abbrev pub is_closed : ℕ × ℕ → Bool
is_closed (pfd, pfp) = pfd == pfp

-- `rbuf[i] = p->p_buf[p->p_rpos % BY2PIPE]; p->p_rpos++;`
abbrev pub read_byte : Pipe → ℕ
read_byte p = p.buf (p.rpos % by2pipe)

abbrev pub advance : Pipe → Pipe
advance p = record p { rpos = (p.rpos + 1) % 2 ^ 32 }

-- `p->p_buf[p->p_wpos % BY2PIPE] = b; p->p_wpos++;`
unfoldable pub write_byte : Pipe → ℕ → Pipe
unfolding store8
write_byte p b = record p { buf = store8 p.buf (p.wpos % by2pipe) b; wpos = (p.wpos + 1) % 2 ^ 32 }

-- `p->p_wpos - p->p_rpos` on u_int
abbrev pub used : Pipe → ℕ
used p = (p.wpos + 2 ^ 32 - p.rpos) % 2 ^ 32

module _ (world : ℕ → Pipe → Pipe) (refs : ℕ → ℕ × ℕ) where
  -- The loop of `piperead` from `i` on, at time `t`: the result, the memory with `vbuf` and the pipe.
  unfoldable pub read_loop : ℕ → ℕ → Pipe → Bytes → ℕ → ℕ → ℕ → Option (ℕ × Bytes × Pipe)
  unfolding store8
  read_loop zero t p m vbuf i n = none
  read_loop (suc fuel) t p m vbuf i n = elim (ltb i n) [
    | false ↦ some (n, m, p)
    | true ↦ elim (p.rpos == p.wpos) [
      | true ↦ elim (is_closed (refs t) || ltb 0 i) [
        | true ↦ some (i, m, p)
        | false ↦ read_loop fuel (t + 1) (world t p) m vbuf i n
      ]
      | false ↦ read_loop fuel t (advance p) (store8 m (vbuf + i) (read_byte p)) vbuf (i + 1) n
    ]
  ]

  unfoldable pub piperead : ℕ → Pipe → Bytes → ℕ → ℕ → Option (ℕ × Bytes × Pipe)
  unfolding read_loop
  piperead fuel p m vbuf n = read_loop fuel 0 p m vbuf 0 n

  -- The loop of `pipewrite` from `i` on, at time `t`: the result and the pipe.
  unfoldable pub write_loop : ℕ → ℕ → Pipe → Bytes → ℕ → ℕ → ℕ → Option (ℕ × Pipe)
  unfolding write_byte
  write_loop zero t p m vbuf i n = none
  write_loop (suc fuel) t p m vbuf i n = elim (ltb i n) [
    | false ↦ some (n, p)
    | true ↦ elim (used p == by2pipe) [
      | true ↦ elim (is_closed (refs t)) [
        | true ↦ some (0, p)
        | false ↦ write_loop fuel (t + 1) (world t p) m vbuf i n
      ]
      | false ↦ write_loop fuel t (write_byte p (m (vbuf + i))) m vbuf (i + 1) n
    ]
  ]

  unfoldable pub pipewrite : ℕ → Pipe → Bytes → ℕ → ℕ → Option (ℕ × Pipe)
  unfolding write_loop
  pipewrite fuel p m vbuf n = write_loop fuel 0 p m vbuf 0 n
