-- ===== src/Pipe/Fifo.antt =====
-- The pipe of user/lib/pipe.c as a queue of bytes.
use riem_os.Base.{
  ℕ, zero, suc, ◌+◌, ◌<◌, ◌≤◌, ◌≡◌, refl, subst, ◌∙◌, ap, arith, inl, inr, ◌⊎◌, Bool-cases, true,
  false, ◌||◌, some, ltb, ◌==◌,
}
use riem_os.Memory.Ram.{Bytes, store8}
use riem_os.Memory.Ram.Copy.{IsBytes}
use riem_os.Pipe.{
  Pipe, by2pipe, is_closed, read_byte, advance, write_byte, used, read_loop, piperead, write_loop,
  pipewrite,
}
use riem_os.Pipe.Steps.{
  IsPipe, waiting, advance-used, write_byte-used, Taken, Given, write_byte-IsBytes, write_byte-old,
  write_byte-new, given_step, in_cell, Taken-none, Taken-step,
}

module _ (world : ℕ → Pipe → Pipe) (refs : ℕ → ℕ × ℕ) where
  read_loop-next :
      (fuel t : ℕ) (p : Pipe) (m : Bytes) (vbuf i n : ℕ)
      → ltb i n ≡ true
      → p.rpos == p.wpos ≡ false
      → read_loop world refs (suc fuel) t p m vbuf i n
        ≡ read_loop world refs fuel t (advance p) (store8 m (vbuf + i) (read_byte p)) vbuf (i + 1) n
  unfolding read_loop
  read_loop-next fuel t p m vbuf i n more some_left = rw (more, read_loop) (rw some_left refl)

  read_loop-full :
      (fuel t : ℕ) (p : Pipe) (m : Bytes) (vbuf n : ℕ)
      → read_loop world refs (suc fuel) t p m vbuf n n ≡ some (n, m, p)
  unfolding read_loop
  read_loop-full fuel t p m vbuf n = rw (not_less, read_loop) refl
    where
      not_less : ltb n n ≡ false
      not_less = ground arith

  read_loop-empty :
      (fuel t : ℕ) (p : Pipe) (m : Bytes) (vbuf i n : ℕ)
      → ltb i n ≡ true
      → p.rpos == p.wpos ≡ true
      → (is_closed (refs t) || ltb 0 i) ≡ true
      → read_loop world refs (suc fuel) t p m vbuf i n ≡ some (i, m, p)
  unfolding read_loop
  read_loop-empty fuel t p m vbuf i n more empty stop =
      rw (more, read_loop) (rw empty (rw stop refl))

  write_loop-next :
      (fuel t : ℕ) (p : Pipe) (m : Bytes) (vbuf i n : ℕ)
      → ltb i n ≡ true
      → used p == by2pipe ≡ false
      → write_loop world refs (suc fuel) t p m vbuf i n
        ≡ write_loop world refs fuel t (write_byte p (m (vbuf + i))) m vbuf (i + 1) n
  unfolding write_loop
  write_loop-next fuel t p m vbuf i n more room = rw (more, write_loop) (rw room refl)

  write_loop-full :
      (fuel t : ℕ) (p : Pipe) (m : Bytes) (vbuf n : ℕ)
      → write_loop world refs (suc fuel) t p m vbuf n n ≡ some (n, p)
  unfolding write_loop
  write_loop-full fuel t p m vbuf n = rw (not_less, write_loop) refl
    where
      not_less : ltb n n ≡ false
      not_less = ground arith

  -- `k` rounds of `write_loop`.
  write_loop-Given :
      (k fuel t : ℕ) (p : Pipe) (m : Bytes) (vbuf i n : ℕ)
      → k < fuel
      → i + k ≡ n
      → IsPipe p
      → IsBytes p.buf
      → IsBytes m
      → used p + k ≤ by2pipe
      → (p' : Pipe) × (write_loop world refs fuel t p m vbuf i n ≡ some (n, p'))
        × Given p m (vbuf + i) k p'
  write_loop-Given k zero t p m vbuf i n enough e pipe buf bytes room =
      absurd (omega (arith, enough))
  write_loop-Given zero (suc fuel) t p m vbuf i n enough e pipe buf bytes room = (
    p,
    ap (λ x. write_loop world refs (suc fuel) t p m vbuf x n) {y = n} (omega (arith, e))
        ∙ write_loop-full fuel t p m vbuf n,
    (pipe, buf, omega arith, λ j h. refl, λ j h. absurd (omega (arith, h))),
  )
  write_loop-Given (suc k) (suc fuel) t p m vbuf i n enough e pipe buf bytes room =
      let (pipe', more) = write_byte-used p (m (vbuf + i)) pipe (omega (arith, room)) in
      let (p', got, (isp, held, u, old, new)) =
        write_loop-Given k fuel t (write_byte p (m (vbuf + i))) m vbuf (i + 1) n
          (omega (arith, enough)) (omega (arith, e)) pipe' (write_byte-IsBytes p (m (vbuf + i)) buf)
          bytes (omega (arith, more, room)) in
      (
        p',
        write_loop-next fuel t p m vbuf i n (ground (arith, e)) (ground (arith, room)) ∙ got,
        (
          isp,
          held,
          omega (arith, u, more),
          λ j h.
              old j (omega (arith, more, h))
              ∙ write_byte-old p (m (vbuf + i)) j pipe (omega (arith, room)) h,
          given_step p p' (m (vbuf + i)) m (vbuf + i) k more
              (write_byte-new p (m (vbuf + i)) pipe (omega (arith, room)) (bytes (vbuf + i))) refl
              old (λ j h. new j h ∙ ap m (omega arith)),
        ),
      )

  -- `k` rounds of `read_loop`.
  read_loop-Taken :
      (k fuel t : ℕ) (p : Pipe) (m : Bytes) (vbuf i n : ℕ)
      → k < fuel
      → i + k ≤ n
      → k ≤ used p
      → (i + k ≡ n) ⊎ ((used p ≡ k) × (0 < i + k))
      → IsPipe p
      → IsBytes p.buf
      → (m' : Bytes) × (p' : Pipe) × (read_loop world refs fuel t p m vbuf i n
          ≡ some (i + k, m', p'))
        × Taken p m (vbuf + i) k m' p'
  read_loop-Taken k zero t p m vbuf i n enough fits have stop pipe bytes =
      absurd (omega (arith, enough))
  read_loop-Taken zero (suc fuel) t p m vbuf i n enough fits have (inl e) pipe bytes = (
    m,
    p,
    ap (λ x. read_loop world refs (suc fuel) t p m vbuf x n) {y = n} (omega (arith, e))
        ∙ read_loop-full fuel t p m vbuf n
        ∙ ap (λ x. some (x, m, p)) (omega (arith, e)),
    Taken-none p m (vbuf + i) pipe,
  )
  read_loop-Taken zero (suc fuel) t p m vbuf i n enough fits have (inr (none_left, pos)) pipe
        bytes =
      elim (Bool-cases (ltb i n)) [
        | inr all ↦ (
          m,
          p,
          ap (λ x. read_loop world refs (suc fuel) t p m vbuf x n) {y = n}
                (ground (arith, all, fits))
              ∙ read_loop-full fuel t p m vbuf n
              ∙ ap (λ x. some (x, m, p)) (ground (arith, all, fits)),
          Taken-none p m (vbuf + i) pipe,
        )
        | inl more ↦ (
          m,
          p,
          read_loop-empty fuel t p m vbuf i n more (ground (arith, empty)) (ground (arith, pos))
              ∙ ap (λ x. some (x, m, p)) (omega arith),
          Taken-none p m (vbuf + i) pipe,
        )
      ]
    where
      empty : p.rpos ≡ p.wpos
      empty = omega (arith, pipe.0, pipe.1, none_left)
  read_loop-Taken (suc k) (suc fuel) t p m vbuf i n enough fits have stop pipe bytes =
      let (pipe', less) = advance-used p pipe (omega (arith, have)) in
      let (m', p', got, taken) =
        read_loop-Taken k fuel t (advance p) (store8 m (vbuf + i) (read_byte p)) vbuf (i + 1) n
          (omega (arith, enough)) (omega (arith, fits)) (omega (arith, have, less))
          (omega (arith, stop, less)) pipe' bytes in
      (
        m',
        p',
        again m' p' got,
        Taken-step p m (vbuf + i) k m' p' pipe (omega (arith, have)) bytes (
            subst (λ x. Taken (advance p) (store8 m (vbuf + i) (read_byte p)) x k m' p')
              (omega arith) taken),
      )
    where
      not_empty : p.rpos == p.wpos ≡ false
      not_empty = ground (arith, have)

      again :
          (m' : Bytes) (p' : Pipe)
          → read_loop world refs fuel t
              (advance p)
              (store8 m (vbuf + i) (read_byte p))
              vbuf
              (i + 1)
              n
            ≡ some (i + 1 + k, m', p')
          → read_loop world refs (suc fuel) t p m vbuf i n ≡ some (i + suc k, m', p')
      again m' p' got =
          read_loop-next fuel t p m vbuf i n (ground (arith, fits)) not_empty
          ∙ got
          ∙ ap (λ y. some (y, m', p')) (omega arith)

  pipewrite-Given :
      (fuel : ℕ) (p : Pipe) (m : Bytes) (src n : ℕ)
      → n < fuel
      → IsPipe p
      → IsBytes p.buf
      → IsBytes m
      → used p + n ≤ by2pipe
      → (p' : Pipe) × (pipewrite world refs fuel p m src n ≡ some (n, p')) × Given p m src n p'
  unfolding pipewrite
  pipewrite-Given fuel p m src n enough pipe buf bytes room =
      subst
        (λ x.
          (p' : Pipe) × (write_loop world refs fuel 0 p m src 0 n ≡ some (n, p'))
          × Given p m x n p')
        {x = src + 0} (omega arith)
        (write_loop-Given n fuel 0 p m src 0 n enough (omega arith) pipe buf bytes room)

  piperead-Taken :
      (k fuel : ℕ) (p : Pipe) (m : Bytes) (dst n : ℕ)
      → k < fuel
      → k ≤ n
      → used p ≡ k
      → 0 < k
      → IsPipe p
      → IsBytes p.buf
      → (m' : Bytes) × (p' : Pipe) × (piperead world refs fuel p m dst n ≡ some (k, m', p'))
        × Taken p m dst k m' p'
  unfolding piperead
  piperead-Taken k fuel p m dst n enough wide all some_left pipe bytes =
      subst
        (λ x.
          (m' : Bytes) × (p' : Pipe) × (read_loop world refs fuel 0 p m dst 0 n ≡ some (k, m', p'))
          × Taken p m x k m' p')
        {x = dst + 0} (omega arith)
        (subst
          (λ y.
            (m' : Bytes) × (p' : Pipe) × (read_loop world refs fuel 0 p m dst 0 n
              ≡ some (y, m', p'))
            × Taken p m (dst + 0) k m' p')
          {x = 0 + k} (omega arith)
          (read_loop-Taken k fuel 0 p m dst 0 n enough (omega (arith, wide)) (omega (arith, all))
            (inr (all, omega (arith, some_left))) pipe bytes))

  -- On a pipe with room for `n` bytes, `pipewrite` writes them and returns `n`; a `piperead` of at least
  -- as many bytes as then wait, and of at least one, returns their number without waiting: the bytes
  -- that waited before come first, then the `n` bytes, all in order, and the pipe is empty. This holds
  -- across the ends of the buffer and of the positions.
  pub pipewrite-piperead :
      (fuel : ℕ) (p : Pipe) (m : Bytes) (src n dst count : ℕ)
      → IsPipe p
      → IsBytes p.buf
      → IsBytes m
      → used p + n ≤ by2pipe
      → 0 < used p + n
      → used p + n ≤ count
      → by2pipe < fuel
      → (p1 p2 : Pipe) × (m' : Bytes) × (pipewrite world refs fuel p m src n ≡ some (n, p1))
        × (piperead world refs fuel p1 m dst count ≡ some (used p + n, m', p2))
        × (used p2 ≡ 0)
        × ((j : ℕ) → j < used p → m' (dst + j) ≡ waiting p j)
        × ((j : ℕ) → j < n → m' (dst + (used p + j)) ≡ m (src + j))
        × ((q : ℕ) → (q < dst) ⊎ (dst + (used p + n) ≤ q) → m' q ≡ m q)
  pipewrite-piperead fuel p m src n dst count pipe bytes cells room some_left wide enough =
      let (p1, wrote, (pipe1, bytes1, u1, old, new)) =
        pipewrite-Given fuel p m src n (omega (arith, enough, room)) pipe bytes cells room in
      let (m', p2, got, (pipe2, u2, later, at)) =
        piperead-Taken (used p + n) fuel p1 m dst count (omega (arith, enough, room)) wide u1
          some_left pipe1 bytes1 in
      (
        p1,
        p2,
        m',
        wrote,
        got,
        omega (arith, u1, u2),
        λ j h. at (dst + j) ∙ in_cell p1 m dst (used p + n) j (omega (arith, h)) ∙ old j h,
        λ j h.
            at (dst + (used p + j))
            ∙ in_cell p1 m dst (used p + n) (used p + j) (omega (arith, h))
            ∙ new j h,
        λ q h. at q ∙ ground (arith, h),
      )
