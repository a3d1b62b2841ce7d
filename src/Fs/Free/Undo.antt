-- ===== src/Fs/Free/Undo.antt =====
-- Blocks given back: `free_block` of fs/fs.c.
use riem_os.Base.{leb-lt, ℕ, ◌%◌, ◌<◌, ◌≡◌, ◌≢◌, refl, ◌∙◌, ap, true, ◌||◌, ==_ne, ==_refl, ◌==◌}
use riem_os.Memory.Ram.{load32, store32}
use riem_os.Fs.{Os, Server, returned, memory, with_memory, with_bit}
use riem_os.Fs.Blocks.{s_nblocks, bitmap_word, is_marked, free_block, block_is_free}
use riem_os.Fs.Marks.{marked, marked-with_bit}
use riem_os.Fs.Free.{s_nblocks-store32, IsLaidOut, IsKept, IsLawful}

module _ {W : Type 0} (os : Os W) where
  module _ (lawful : IsLawful os) where
    -- `free_block` at a block below the number of blocks that is not 0 makes exactly it free:
    -- `block_is_free` says so afterwards, and the other blocks are as free as before.
    pub free_block-block_is_free :
        (b : ℕ) (s : Server W)
        → IsLaidOut os s
        → b ≢ 0
        → b < s_nblocks os s
        → (s' : Server W) × (free_block os b s ≡ returned tt s')
          × (block_is_free os b s' ≡ returned true s')
          × IsKept os s s'
          × ((c : ℕ) → is_marked os s' c ≡ (c == b || is_marked os s c))
    unfolding free_block block_is_free
    free_block-block_is_free b s l nonzero below =
        let set : ℕ = with_bit (b % 32) (load32 (memory os s) (bitmap_word os s b)) in
        let m : ℕ → ℕ = store32 (memory os s) (bitmap_word os s b) set in
        let s' : Server W = with_memory os s m in
        let kept = s_nblocks-store32 os lawful s b set l below in
        let marks : (c : ℕ) → is_marked os s' c ≡ (c == b || is_marked os s c) = λ c.
          ap (λ r. marked r s.bitmap c) (lawful.ram_set s.world m)
          ∙ marked-with_bit (memory os s) s.bitmap b c in
        let unequal = ==_ne s.super 0 l.super_there in
        (
          s',
          rw (==_ne b 0 nonzero, unequal, leb-lt _ _ below) refl,
          rw (unequal, kept, leb-lt _ _ below, marks b, ==_refl b) refl,
          (refl, refl, kept),
          marks,
        )
