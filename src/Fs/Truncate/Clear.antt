-- ===== src/Fs/Truncate/Clear.antt =====
-- Direct blocks given up one after the other: `file_clear_block` and the loop of `file_truncate` of fs/fs.c.
use riem_os.Base.{
  lt-ltb, ℕ, zero, suc, ◌+◌, ◌*◌, ◌/◌, ◌%◌, ◌≤◌, ◌<◌, ◌≡◌, refl, ◌∙◌, ap, subst, Bool, false, ◌||◌,
  Bool-cases, inl, inr, ◌==◌, ==_iff, arith, if◌then◌else◌,
}
use riem_os.Memory.Ram.{Bytes, load32, store32}
use riem_os.Memory.Ram.Words.{load32-store32_ne, load32-store32_self}
use riem_os.Memory.Pte.{has_bit}
use riem_os.Fs.{Os, Server, Outcome, returned, memory, with_memory, ◌>>◌, pure, poke, ndirect}
use riem_os.Fs.Blocks.{s_nblocks, free_block}
use riem_os.Fs.Nodes.{f_direct, file_block_walk, file_clear_block}
use riem_os.Fs.Files.{clear_from}
use riem_os.Fs.Marks.{marked}
use riem_os.Fs.Free.{IsLawful, IsLaidOut, IsKept-IsLaidOut}
use riem_os.Fs.Truncate.{
  free_block-IsFreed, IsApart, IsNode, slot, frees, IsFreed, IsCleared, IsKept-IsApart,
  IsCleared-then, frees-skipped,
}

module _ {W : Type 0} (os : Os W) where
  module _ (lawful : IsLawful os) where
    -- A store of 0 into a word apart from the bitmap, whose block is freed.
    emptied :
        (p : ℕ) (s s1 : Server W)
        → IsApart os s p
        → IsFreed os s s1 (load32 (memory os s) p)
        → IsCleared os s
            (with_memory os s1 (store32 (memory os s1) p 0))
            p
            1
            (frees os s (load32 (memory os s) p))
    emptied p s s1 at r =
        let m : Bytes = store32 (memory os s1) p 0 in
        let (x, y, z) = r.kept in
        record {
          kept = (
            x,
            y,
            ap (λ q. load32 q (s1.super + 4)) (lawful.ram_set s1.world m)
                ∙ load32-store32_ne (memory os s1) p 0 (s1.super + 4) (ground (arith, at.off_super))
                ∙ z,
          );
          words = λ q away off.
              ap (λ r. load32 r q) (lawful.ram_set s1.world m)
              ∙ load32-store32_ne (memory os s1) p 0 q (ground arith)
              ∙ r.words q away;
          zeros = λ j high.
              ap (λ q. load32 q (p + 4 * j)) (lawful.ram_set s1.world m)
              ∙ ap (load32 m) (omega arith)
              ∙ load32-store32_self (memory os s1) p 0;
          marks = λ c below.
              ap (λ q. marked q s1.bitmap c) (lawful.ram_set s1.world m)
              ∙ ap (has_bit (c % 32)) (
                  load32-store32_ne (memory os s1) p 0 (s1.bitmap + 4 * (c / 32))
                    (ground (arith, at.off_bitmap c below)))
              ∙ r.marks c;
        }

    -- The word at `p` names no block.
    empty :
        (p : ℕ) (s : Server W)
        → load32 (memory os s) p ≡ 0
        → IsCleared os s s p 1 (frees os s (load32 (memory os s) p))
    empty p s e = record {
      kept = (refl, refl, refl);
      words = λ q away off. refl;
      zeros = λ j high. ap (load32 (memory os s)) (omega arith) ∙ e;
      marks = λ c below.
          rw (frees-skipped (s_nblocks os s) (load32 (memory os s) p) c (rw e refl)) refl;
    }

    -- if (*p) { free_block(*p); *p = 0; }
    abbrev pub drop_word : ℕ → Server W → Outcome W (Unit {0})
    drop_word p s =
        let there : ℕ = load32 (memory os s) p in
        (if there == 0 then pure tt else (free_block os there >> poke os p 0)) s

    pub drop_word-IsCleared :
        (p : ℕ) (s : Server W)
        → IsLaidOut os s
        → IsApart os s p
        → (s' : Server W) × (drop_word p s ≡ returned tt s')
          × IsCleared os s s' p 1 (frees os s (load32 (memory os s) p))
    drop_word-IsCleared p s l at = elim (Bool-cases (load32 (memory os s) p == 0)) [
      | inl e ↦ (s, rw e refl, empty p s ((==_iff (load32 (memory os s) p) 0).0 e))
      | inr e ↦
          let (s1, done, freed) = free_block-IsFreed os lawful (load32 (memory os s) p) s l in
          (
            with_memory os s1 (store32 (memory os s1) p 0),
            rw (e, done) refl,
            emptied p s s1 at freed,
          )
    ]

    file_clear_block-direct :
        (f i : ℕ) (s : Server W)
        → i < ndirect
        → file_clear_block os f i s ≡ drop_word (f_direct f i) s
    unfolding file_clear_block file_block_walk
    file_clear_block-direct f i s h = rw (lt-ltb i ndirect h) refl

    -- Which blocks the `n` slots from `i` on free.
    abbrev pub any_freed : Server W → ℕ → ℕ → ℕ → ℕ → Bool
    any_freed s f zero i c = false
    any_freed s f (suc n) i c = frees os s (slot os s f i) c || any_freed s f n (i + 1) c

    any_freed-later :
        (f i j n c : ℕ) (s s1 : Server W) (a : ℕ → Bool)
        → IsNode os s f
        → IsCleared os s s1 (f_direct f i) 1 a
        → i < j
        → j + n ≤ ndirect
        → any_freed s1 f n j c ≡ any_freed s f n j c
    any_freed-later f i j zero c s s1 a node l h k = refl
    any_freed-later f i j (suc n) c s s1 a node l h k =
        let same : slot os s1 f j ≡ slot os s f j =
          l.words (f_direct f j) (node (f_direct f j) (omega arith) (omega arith))
            (inr (omega arith)) in
        let (x, y, z) = l.kept in
        rw (same, z, any_freed-later f i (j + 1) n c s s1 a node l (omega arith) (omega arith)) refl

    pub clear_from-IsCleared :
        (n f i : ℕ) (s : Server W)
        → IsLaidOut os s
        → IsNode os s f
        → i + n ≤ ndirect
        → (s' : Server W) × (clear_from os n f i s ≡ returned tt s')
          × IsCleared os s s' (f_direct f i) n (any_freed s f n i)
    unfolding clear_from
    clear_from-IsCleared zero f i s l node h = (
      s,
      refl,
      record {
        kept = (refl, refl, refl);
        words = λ p away off. refl;
        zeros = λ j high. absurd (omega arith);
        marks = λ c below. refl;
      },
    )
    clear_from-IsCleared (suc n) f i s l node h =
        let at = node (f_direct f i) (omega arith) (omega arith) in
        let (s1, done, cleared) = drop_word-IsCleared (f_direct f i) s l at in
        let (s', more, rest) =
          clear_from-IsCleared n f (i + 1) s1 (IsKept-IsLaidOut os s s1 l cleared.kept)
            (λ p low high. IsKept-IsApart os s s1 p cleared.kept (node p low high)) (omega arith) in
        (
          s',
          rw (file_clear_block-direct f i s (omega arith), done, more) refl,
          IsCleared-then os s s1 s' (f_direct f i) (f_direct f (i + 1)) n _ _ (omega arith) cleared
              (subst (IsCleared os s1 s' (f_direct f (i + 1)) n)
                (λ k c.
                  any_freed-later f i (i + 1) n c s s1 _ node cleared (omega arith) (omega arith) k)
                rest)
              at,
        )
