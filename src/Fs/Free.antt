-- ===== src/Fs/Free.antt =====
-- The free blocks: what `alloc_block_num`, `alloc_block` and `free_block` of fs/fs.c do to the bitmap.
pub mod Undo
use riem_os.Base.{
  ℕ, zero, suc, ◌+◌, ◌-◌, ◌*◌, ◌/◌, ◌%◌, ◌^◌, ◌≤◌, ◌<◌, ◌≡◌, ◌≢◌, ◌⊎◌, refl, ◌∙◌, sym, ap, Bool,
  true, false, ◌||◌, ◌&&◌, not, ==_ne, ==_iff, ==_refl, leb, Bool-cases, inl, inr, ◌==◌, arith,
  if◌then◌else◌,
}
use riem_os.Base.Int.{ℤ, pos, negsuc}
use riem_os.Memory.Ram.{load32, store32}
use riem_os.Memory.Ram.Words.{load32-store32_ne}
use riem_os.Fs.{
  Os, Server, Outcome, returned, failed, panicked, memory, with_memory, bit2blk, by2blk, diskmap,
  diskmax, e_no_disk, ◌>>=◌, ◌>>◌, pure, fail, result, with_bit, without_bit, sect2blk, mask_g,
  peek, poke, user_panic, and_then,
}
use riem_os.Fs.Blocks.{
  s_nblocks, bitmap_word, is_marked, diskaddr, va_is_mapped, block_is_mapped, write_block,
  take_block, alloc_from, alloc_block_num, map_block, alloc_block, free_block, block_is_free,
  freeing,
}
use riem_os.Fs.Marks.{marked, marked-with_bit, marked-without_bit}

-- What the server relies on: its memory is read as it was written, and a write to the disk and mapping
-- a page where it already is keep it.
pub record IsLawful {W : Type 0} (os : Os W) : Type 0 where
  pub ram_set : (w : W) (m : ℕ → ℕ) → os.ram (os.set_ram w m) ≡ m
  pub mapped_set :
      (w : W) (m : ℕ → ℕ) (va : ℕ)
      → os.check_va_is_map (os.set_ram w m) va ≡ os.check_va_is_map w va
  pub ram_write : (w : W) (src secno n : ℕ) → os.ram (os.sd_write w src secno n) ≡ os.ram w
  pub ram_remap : (w : W) (va perm : ℕ) → os.ram (os.map_memory_from_to w va va perm).1 ≡ os.ram w

module _ {W : Type 0} (os : Os W) where
  -- The super block and the bitmap stand in memory, apart from each other.
  pub record IsLaidOut (s : Server W) : Type 0 where
    pub super_there : s.super ≢ 0
    pub small : s_nblocks os s ≤ diskmax / by2blk
    pub apart :
        (b : ℕ)
        → b < s_nblocks os s
        → (s.super + 8 ≤ bitmap_word os s b) ⊎ (bitmap_word os s b + 4 ≤ s.super + 4)

  -- The blocks of the bitmap are mapped.
  abbrev pub IsBitmapMapped : Server W → Type 0
  IsBitmapMapped s =
      (b : ℕ)
      → b < s_nblocks os s
      → os.check_va_is_map s.world ((diskmap + (b / bit2blk + 2) * by2blk) % 2 ^ 32) ≢ 0

  -- Two states of the server that may differ in the memory, off the super block, and the machine.
  abbrev pub IsKept : Server W → Server W → Type 0
  IsKept s s' = (s'.super ≡ s.super) × (s'.bitmap ≡ s.bitmap) × (s_nblocks os s' ≡ s_nblocks os s)

  pub IsKept-IsLaidOut : (s s' : Server W) → IsLaidOut s → IsKept s s' → IsLaidOut s'
  IsKept-IsLaidOut s s' l (a, b, c) = record {
    super_there = λ e. l.super_there (sym a ∙ e);
    small = omega (arith, l.small);
    apart = λ k h. ground (arith, l.apart k (omega arith));
  }

  -- Block `b` is taken, and the other blocks are as free as before.
  abbrev pub IsTaken : Server W → ℕ → Server W → Type 0
  IsTaken s b s' = IsKept s s' × ((c : ℕ) → is_marked os s' c ≡ (not (c == b) && is_marked os s c))

  pub diskaddr-below :
      (b : ℕ) (s : Server W)
      → b ≤ s_nblocks os s
      → diskaddr os b s ≡ returned ((diskmap + b * by2blk) % 2 ^ 32) s
  unfolding diskaddr
  diskaddr-below b s below = ground arith

  pub block_is_mapped-below :
      (b : ℕ) (s : Server W)
      → b ≤ s_nblocks os s
      → os.check_va_is_map s.world ((diskmap + b * by2blk) % 2 ^ 32) ≢ 0
      → block_is_mapped os b s ≡ returned ((diskmap + b * by2blk) % 2 ^ 32) s
  unfolding block_is_mapped va_is_mapped
  block_is_mapped-below b s below mapped = rw (diskaddr-below b s below, ==_ne _ 0 mapped) refl

  module _ (lawful : IsLawful os) where
    pub write_block-returns :
        (b : ℕ) (s : Server W)
        → s.super ≢ 0
        → s_nblocks os s ≤ diskmax / by2blk
        → b ≤ s_nblocks os s
        → os.check_va_is_map s.world ((diskmap + b * by2blk) % 2 ^ 32) ≢ 0
        → (w : W) × (write_block os b s ≡ returned tt (record s { world = w }))
          × (os.ram w ≡ os.ram s.world)
    unfolding write_block
    write_block-returns b s there small below mapped =
        let va : ℕ = (diskmap + b * by2blk) % 2 ^ 32 in
        let w : W = os.sd_write s.world va (b * sect2blk % 2 ^ 32) sect2blk in
        (
          (os.map_memory_from_to w va va (1 + 2 + mask_g)).1,
          rw
              (
                block_is_mapped-below b s below mapped,
                ==_ne ((diskmap + b * by2blk) % 2 ^ 32) 0 (λ e. omega arith),
                diskaddr-below b s below,
              )
              refl,
          lawful.ram_remap w va (1 + 2 + mask_g)
              ∙ lawful.ram_write s.world va (b * sect2blk % 2 ^ 32) sect2blk,
        )

    -- A store into the bitmap leaves the number of blocks.
    pub s_nblocks-store32 :
        (s : Server W) (b v : ℕ)
        → IsLaidOut s
        → b < s_nblocks os s
        → s_nblocks os (with_memory os s (store32 (memory os s) (bitmap_word os s b) v))
          ≡ s_nblocks os s
    s_nblocks-store32 s b v l h =
        ap (λ m. load32 m (s.super + 4)) (lawful.ram_set s.world _)
        ∙ load32-store32_ne (memory os s) (bitmap_word os s b) v (s.super + 4)
            (ground (arith, l.apart b h))

    take_block-IsTaken :
        (b : ℕ) (s : Server W)
        → IsLaidOut s
        → IsBitmapMapped s
        → 3 ≤ b
        → b < s_nblocks os s
        → (s' : Server W) × (take_block os b s ≡ returned b s') × IsTaken s b s'
    unfolding take_block
    take_block-IsTaken b s l mapped low below =
        let cleared : ℕ = without_bit (b % 32) (load32 (memory os s) (bitmap_word os s b)) in
        let m : ℕ → ℕ = store32 (memory os s) (bitmap_word os s b) cleared in
        let s1 : Server W = with_memory os s m in
        let kept = s_nblocks-store32 s b cleared l below in
        let (w, done, ram) =
          write_block-returns (b / bit2blk + 2) s1 l.super_there (omega (arith, kept, l.small))
            (omega (arith, kept)) (λ e. mapped b below (sym (lawful.mapped_set s.world m _) ∙ e)) in
        (
          record s1 { world = w },
          rw done refl,
          (
            (refl, refl, ap (λ r. load32 r (s.super + 4)) ram ∙ kept),
            λ c.
                ap (λ r. marked r s.bitmap c) (ram ∙ lawful.ram_set s.world m)
                ∙ marked-without_bit (memory os s) s.bitmap b c,
          ),
        )

    -- What `alloc_block_num` promises: it takes the first free block from 3 on, or there is none.
    abbrev pub TakesFirst : Server W → Outcome W ℕ → Type 0
    TakesFirst s (returned b s') =
        (3 ≤ b)
        × (b < s_nblocks os s)
        × (is_marked os s b ≡ true)
        × ((c : ℕ) → 3 ≤ c → c < b → is_marked os s c ≡ false)
        × IsTaken s b s'
    TakesFirst s (failed e s') =
        (e ≡ e_no_disk)
        × (s' ≡ s)
        × ((c : ℕ) → 3 ≤ c → c < s_nblocks os s → is_marked os s c ≡ false)
    TakesFirst s panicked = ⊥

    alloc_from-TakesFirst :
        (n b : ℕ) (s : Server W)
        → IsLaidOut s
        → IsBitmapMapped s
        → 3 ≤ b
        → n ≡ s_nblocks os s - b
        → ((c : ℕ) → 3 ≤ c → c < b → is_marked os s c ≡ false)
        → TakesFirst s (alloc_from os n b s)
    unfolding alloc_from
    alloc_from-TakesFirst zero b s l mapped low e none_below =
        (refl, refl, λ c h k. none_below c h (omega arith))
    alloc_from-TakesFirst (suc n) b s l mapped low e none_below =
        elim (Bool-cases (is_marked os s b)) [
          | inl free ↦
              let (s', done, taken) = take_block-IsTaken b s l mapped low (omega arith) in
              rw (free, done) (low, omega arith, free, none_below, taken)
          | inr used ↦ rw used (
              alloc_from-TakesFirst n (b + 1) s l mapped (omega arith) (omega arith) (λ c h k.
                elim (Bool-cases (c == b)) [
                  | inl same ↦ rw ((==_iff c b).0 same) used
                  | inr other ↦ none_below c h (ground arith)
                ]))
        ]

    -- `alloc_block_num` on a laid out server whose bitmap is mapped takes the first free block from 3
    -- on: the block it returns is below the number of blocks and was free, no block from 3 on below it
    -- was, and afterwards exactly that block is free no longer. It fails only with E_NO_DISK, on the
    -- state it was called in, and then no block from 3 on is free. It does not panic.
    pub alloc_block_num-TakesFirst :
        (s : Server W) → IsLaidOut s → IsBitmapMapped s → TakesFirst s (alloc_block_num os s)
    unfolding alloc_block_num
    alloc_block_num-TakesFirst s l mapped =
        alloc_from-TakesFirst (s_nblocks os s - 3) 3 s l mapped (omega arith) refl
          (λ c h k. absurd (omega arith))
