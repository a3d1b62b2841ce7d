-- ===== src/Pipe/Steps.antt =====
-- One byte in and one byte out of the pipe of user/lib/pipe.c.
use riem_os.Base.{
  ℕ, zero, suc, ◌+◌, ◌-◌, ◌%◌, ◌^◌, ◌<◌, ◌≤◌, ◌≡◌, ◌∙◌, ap, arith, ◌&&◌, ltb, leb, ◌==◌,
  if◌then◌else◌,
}
use riem_os.Memory.Ram.{Bytes, store8}
use riem_os.Memory.Ram.Copy.{IsBytes}
use riem_os.Pipe.{Pipe, by2pipe, read_byte, advance, write_byte, used}

-- The positions are words, and at most BY2PIPE bytes are waiting.
abbrev pub IsPipe : Pipe → Type 0
IsPipe p = (p.rpos < 2 ^ 32) × (p.wpos < 2 ^ 32) × (used p ≤ by2pipe)

-- The byte that is read behind `k` others.
abbrev pub waiting : Pipe → ℕ → ℕ
waiting p k = p.buf ((p.rpos + k) % by2pipe)

pub advance-used :
    (p : Pipe) → IsPipe p → 0 < used p → IsPipe (advance p) × (used p ≡ used (advance p) + 1)
advance-used p (r, w, u) some_left =
    ((omega arith, w, omega (arith, r, w, u, some_left)), omega (arith, r, w, u, some_left))

advance-waiting : (p : Pipe) (k : ℕ) → waiting (advance p) k ≡ waiting p (k + 1)
advance-waiting p k = ap p.buf (omega arith)

pub write_byte-used :
    (p : Pipe) (b : ℕ)
    → IsPipe p
    → used p < by2pipe
    → IsPipe (write_byte p b) × (used (write_byte p b) ≡ used p + 1)
unfolding write_byte
write_byte-used p b (r, w, u) room =
    ((r, omega arith, omega (arith, r, w, room)), omega (arith, r, w, room))

write_byte-waiting :
    (p : Pipe) (b k : ℕ)
    → IsPipe p
    → used p < by2pipe
    → k ≤ used p
    → waiting (write_byte p b) k ≡ (if k == used p then b % 256 else waiting p k)
unfolding write_byte store8
write_byte-waiting p b k (r, w, u) room le = ground (arith, r, w, room, le)

-- Of the bytes that wait in `p`, `k` come to memory at `at`, in order, and the others wait in `p'`.
abbrev pub Taken : Pipe → Bytes → ℕ → ℕ → Bytes → Pipe → Type 0
Taken p m at k m' p' =
    IsPipe p'
    × (used p' ≡ used p - k)
    × ((j : ℕ) → waiting p' j ≡ waiting p (j + k))
    × ((q : ℕ) → m' q ≡ (if leb at q && ltb q (at + k) then waiting p (q - at) else m q))

-- The `n` bytes at `at` wait in `p'` behind those of `p`.
abbrev pub Given : Pipe → Bytes → ℕ → ℕ → Pipe → Type 0
Given p m at n p' =
    IsPipe p'
    × IsBytes p'.buf
    × (used p' ≡ used p + n)
    × ((j : ℕ) → j < used p → waiting p' j ≡ waiting p j)
    × ((j : ℕ) → j < n → waiting p' (used p + j) ≡ m (at + j))

pub write_byte-IsBytes : (p : Pipe) (b : ℕ) → IsBytes p.buf → IsBytes (write_byte p b).buf
unfolding write_byte store8
write_byte-IsBytes p b h q = ground (arith, h q)

pub write_byte-old :
    (p : Pipe) (b j : ℕ)
    → IsPipe p
    → used p < by2pipe
    → j < used p
    → waiting (write_byte p b) j ≡ waiting p j
write_byte-old p b j pipe room less =
    write_byte-waiting p b j pipe room (omega (arith, less)) ∙ ground (arith, less)

pub write_byte-new :
    (p : Pipe) (b : ℕ)
    → IsPipe p
    → used p < by2pipe
    → b < 256
    → waiting (write_byte p b) (used p) ≡ b
write_byte-new p b pipe room byte =
    write_byte-waiting p b (used p) pipe room (omega arith) ∙ ground (arith, byte)

-- Where the rest goes behind the first byte, all of it goes behind what was there.
pub given_step :
    (p p' : Pipe) (b : ℕ) (m : Bytes) (at k : ℕ)
    → used (write_byte p b) ≡ used p + 1
    → waiting (write_byte p b) (used p) ≡ b
    → b ≡ m at
    → ((j : ℕ) → j < used (write_byte p b) → waiting p' j ≡ waiting (write_byte p b) j)
    → ((j : ℕ) → j < k → waiting p' (used (write_byte p b) + j) ≡ m (at + 1 + j))
    → (j : ℕ) → j < suc k
    → waiting p' (used p + j) ≡ m (at + j)
given_step p p' b m at k more first byte old new zero h =
    ap (waiting p') {y = used p} (omega arith)
    ∙ old (used p) (omega (arith, more))
    ∙ first
    ∙ byte
    ∙ ap m (omega arith)
given_step p p' b m at k more first byte old new (suc j) h =
    ap (waiting p') (omega (arith, more)) ∙ new j (omega (arith, h)) ∙ ap m (omega arith)

pub in_cell :
    (p : Pipe) (m : Bytes) (at k j : ℕ)
    → j < k
    → (if leb at (at + j) && ltb (at + j) (at + k) then waiting p (at + j - at) else m (at + j))
      ≡ waiting p j
in_cell p m at k j h = ground (arith, h, back)
  where
    back : waiting p (at + j - at) ≡ waiting p j
    back = ap (waiting p) (omega arith)

pub Taken-none : (p : Pipe) (m : Bytes) (at : ℕ) → IsPipe p → Taken p m at 0 m p
Taken-none p m at pipe = (pipe, omega arith, λ j. ap (waiting p) (omega arith), λ q. ground arith)

first_cell :
    (p : Pipe) (m : Bytes) (at k q x : ℕ)
    → IsBytes p.buf
    → x ≡ (
        if leb (at + 1) q && ltb q (at + 1 + k)
        then waiting (advance p) (q - (at + 1))
        else store8 m at (read_byte p) q)
    → x ≡ (if leb at q && ltb q (at + suc k) then waiting p (q - at) else m q)
unfolding store8
first_cell p m at k q x bytes e = ground (arith, e, here, rest, bytes (p.rpos % by2pipe))
  where
    here : q ≡ at → waiting p (q - at) ≡ read_byte p
    here h = ap p.buf (omega (arith, h))

    rest : at < q → waiting (advance p) (q - (at + 1)) ≡ waiting p (q - at)
    rest h = ap p.buf (omega (arith, h))

-- Where the rest is taken behind the first byte, all of it is.
pub Taken-step :
    (p : Pipe) (m : Bytes) (at k : ℕ) (m' : Bytes) (p' : Pipe)
    → IsPipe p
    → 0 < used p
    → IsBytes p.buf
    → Taken (advance p) (store8 m at (read_byte p)) (at + 1) k m' p'
    → Taken p m at (suc k) m' p'
Taken-step p m at k m' p' pipe some_left bytes (isp, u, later, cells) = (
  isp,
  omega (arith, u, (advance-used p pipe some_left).1),
  λ j. later j ∙ advance-waiting p (j + k) ∙ ap (waiting p) (omega arith),
  λ q. first_cell p m at k q (m' q) bytes (cells q),
)
