-- ===== src/Fs/Truncate/Whole.antt =====
-- `file_truncate` of fs/fs.c as a whole.
use riem_os.Base.{
  le-leb, ℕ, ◌+◌, ◌-◌, ◌*◌, ◌/◌, ◌%◌, ◌^◌, ◌≤◌, ◌<◌, ◌≡◌, ◌⊎◌, ◌∙◌, ap, ◌||◌, Bool-cases, inl, inr,
  ◌==◌, arith,
}
use riem_os.Memory.Ram.{load32, store32}
use riem_os.Memory.Ram.Words.{load32-store32_ne, load32-store32_self}
use riem_os.Memory.Pte.{has_bit}
use riem_os.Fs.{Os, Server, returned, memory, with_memory, poke, and_then, ndirect}
use riem_os.Fs.Blocks.{s_nblocks, is_marked}
use riem_os.Fs.Nodes.{f_size, f_direct, f_indirect}
use riem_os.Fs.Files.{blocks_of, new_blocks, clear_from, file_truncate}
use riem_os.Fs.Marks.{marked}
use riem_os.Fs.Free.{IsLawful, IsLaidOut, IsKept-IsLaidOut}
use riem_os.Fs.Truncate.{IsApart, IsNode, slot, frees, IsCleared, IsKept-IsApart, or_assoc}
use riem_os.Fs.Truncate.Clear.{any_freed, clear_from-IsCleared, drop_word, drop_word-IsCleared}

module _ {W : Type 0} (os : Os W) where
  module _ (lawful : IsLawful os) where
    -- What `file_truncate` promises of a file with direct blocks only.
    pub record IsTruncated (s s' : Server W) (f newsize kept cut : ℕ) : Type 0 where
      pub size : load32 (memory os s') (f_size f) ≡ newsize
      pub indirect : load32 (memory os s') (f_indirect f) ≡ 0
      pub left : (i : ℕ) → i < kept → slot os s' f i ≡ slot os s f i
      pub gone : (i : ℕ) → kept ≤ i → i < kept + cut → slot os s' f i ≡ 0
      pub marks :
          (c : ℕ)
          → c < s_nblocks os s
          → is_marked os s' c ≡ (
              frees os s (load32 (memory os s) (f_indirect f)) c
              || any_freed os lawful s f cut kept c
              || is_marked os s c)

    -- A store to a word of the node leaves the free blocks.
    poked :
        (p v c : ℕ) (s : Server W)
        → IsApart os s p
        → c < s_nblocks os s
        → is_marked os (with_memory os s (store32 (memory os s) p v)) c ≡ is_marked os s c
    poked p v c s at below =
        ap (λ m. marked m s.bitmap c) (lawful.ram_set s.world (store32 (memory os s) p v))
        ∙ ap (has_bit (c % 32)) (
            load32-store32_ne (memory os s) p v (s.bitmap + 4 * (c / 32))
              (ground (arith, at.off_bitmap c below)))

    poked_ne :
        (p v q : ℕ) (s : Server W)
        → (q + 4 ≤ p) ⊎ (p + 4 ≤ q)
        → load32 (memory os (with_memory os s (store32 (memory os s) p v))) q
          ≡ load32 (memory os s) q
    poked_ne p v q s off =
        ap (λ m. load32 m q) (lawful.ram_set s.world (store32 (memory os s) p v))
        ∙ load32-store32_ne (memory os s) p v q off

    -- The parts of `file_truncate` in their order.
    file_truncate_parts :
        (f newsize : ℕ) (s s1 s2 : Server W)
        → new_blocks newsize ≤ ndirect
        → clear_from os
            (blocks_of (load32 (memory os s) (f_size f)) - new_blocks newsize)
            f
            (new_blocks newsize)
            s
          ≡ returned tt s1
        → drop_word os lawful (f_indirect f) s1 ≡ returned tt s2
        → file_truncate os f newsize s
          ≡ returned tt (with_memory os s2 (store32 (memory os s2) (f_size f) newsize))
    unfolding file_truncate
    file_truncate_parts f newsize s s1 s2 fits done dropped =
        elim (Bool-cases (load32 (memory os s1) (f_indirect f) == 0)) [
          | inl e ↦
              rw (done, le-leb (new_blocks newsize) ndirect fits, e)
                (ap (λ o. and_then o (λ x. poke os (f_size f) newsize)) (rw e at dropped))
          | inr e ↦
              rw (done, le-leb (new_blocks newsize) ndirect fits, e)
                (ap (λ o. and_then o (λ x. poke os (f_size f) newsize)) (rw e at dropped))
        ]

    truncated :
        (f newsize kept cut : ℕ) (s s1 s2 : Server W)
        → IsNode os s f
        → kept + cut ≤ ndirect
        → newsize < 2 ^ 32
        → IsCleared os s s1 (f_direct f kept) cut (any_freed os lawful s f cut kept)
        → IsCleared os s1 s2 (f_indirect f) 1 (frees os s1 (load32 (memory os s1) (f_indirect f)))
        → IsTruncated s
            (with_memory os s2 (store32 (memory os s2) (f_size f) newsize))
            f
            newsize
            kept
            cut
    truncated f newsize kept cut s s1 s2 node fits word clear off =
        let apart : (p : ℕ) → f ≤ p → p + 4 ≤ f + 264 → IsApart os s1 p =
          λ p low high. IsKept-IsApart os s s1 p clear.kept (node p low high) in
        let slot_then : (i : ℕ)
            → i < ndirect
            → load32 (memory os (with_memory os s2 (store32 (memory os s2) (f_size f) newsize)))
                (f_direct f i)
              ≡ slot os s1 f i =
          λ i h.
            poked_ne (f_size f) newsize (f_direct f i) s2 (inr (omega arith))
            ∙ off.words (f_direct f i) (apart (f_direct f i) (omega arith) (omega arith))
                (inl (omega arith)) in
        let indirect : load32 (memory os s1) (f_indirect f) ≡ load32 (memory os s) (f_indirect f) =
          clear.words (f_indirect f) (node (f_indirect f) (omega arith) (omega arith))
            (inr (omega arith)) in
        let size_apart : IsApart os s2 (f_size f) =
          IsKept-IsApart os s1 s2 (f_size f) off.kept
            (apart (f_size f) (omega arith) (omega arith)) in
        let (x, y, z) = clear.kept in
        let (x', y', z') = off.kept in
        record {
          size =
              ap (λ m. load32 m (f_size f)) (lawful.ram_set s2.world _)
              ∙ load32-store32_self (memory os s2) (f_size f) newsize
              ∙ omega arith;
          indirect =
              poked_ne (f_size f) newsize (f_indirect f) s2 (inr (omega arith))
              ∙ ap (load32 (memory os s2)) (omega arith)
              ∙ off.zeros 0 (omega arith);
          left = λ i h.
              slot_then i (omega arith)
              ∙ clear.words (f_direct f i) (node (f_direct f i) (omega arith) (omega arith))
                  (inl (omega arith));
          gone = λ i low high.
              slot_then i (omega arith)
              ∙ ap (load32 (memory os s1)) (omega arith)
              ∙ clear.zeros (i - kept) (omega arith);
          marks = λ c below.
              poked (f_size f) newsize c s2 size_apart (omega arith)
              ∙ off.marks c (omega arith)
              ∙ ap (λ t. frees os s1 (load32 (memory os s1) (f_indirect f)) c || t)
                  (clear.marks c below)
              ∙ rw (indirect, z)
                  (or_assoc (frees os s (load32 (memory os s) (f_indirect f)) c)
                    (any_freed os lawful s f cut kept c) (is_marked os s c));
        }

    -- `file_truncate` to a smaller size, of a file whose blocks are direct, returns: the size is the
    -- new one, there is no indirect block, the slots below the new number of blocks are as before and
    -- those from there up to the old number are 0, and exactly the blocks that those slots and the
    -- indirect slot os named have become free.
    pub file_truncate-IsTruncated :
        (f newsize : ℕ) (s : Server W)
        → IsLaidOut os s
        → IsNode os s f
        → blocks_of (load32 (memory os s) (f_size f)) ≤ ndirect
        → newsize ≤ load32 (memory os s) (f_size f)
        → (s' : Server W) × (file_truncate os f newsize s ≡ returned tt s')
          × IsTruncated s s' f newsize
              (new_blocks newsize)
              (blocks_of (load32 (memory os s) (f_size f)) - new_blocks newsize)
    file_truncate-IsTruncated f newsize s l node direct shrinks =
        let cut : ℕ = blocks_of (load32 (memory os s) (f_size f)) - new_blocks newsize in
        let fits : new_blocks newsize + cut ≤ ndirect = ground arith in
        let (s1, done, clear) =
          clear_from-IsCleared os lawful cut f (new_blocks newsize) s l node fits in
        let near : IsApart os s (f_indirect f) = node (f_indirect f) (omega arith) (omega arith) in
        let (s2, dropped, off) =
          drop_word-IsCleared os lawful (f_indirect f) s1 (IsKept-IsLaidOut os s s1 l clear.kept)
            (IsKept-IsApart os s s1 (f_indirect f) clear.kept near) in
        (
          with_memory os s2 (store32 (memory os s2) (f_size f) newsize),
          file_truncate_parts f newsize s s1 s2 (omega arith) done dropped,
          truncated f newsize (new_blocks newsize) cut s s1 s2 node fits (omega (arith, direct))
              clear off,
        )
