-- ===== src/Fs/Truncate.antt =====
-- Words apart from the bitmap, and what freeing a block and giving up words of a node do: for
-- `file_truncate` of fs/fs.c.
pub mod Whole
pub mod Clear
use riem_os.Base.{
  ℕ, zero, suc, ◌+◌, ◌-◌, ◌*◌, ◌/◌, ◌%◌, ◌^◌, ◌≤◌, ◌<◌, ◌≡◌, ◌≢◌, ◌⊎◌, refl, ◌∙◌, sym, ap, subst,
  Bool, true, false, ◌||◌, ◌&&◌, not, Bool-cases, inl, inr, ◌==◌, ==_ne, ==_iff, ==_refl, arith,
  if◌then◌else◌, ltb, leb,
}
use riem_os.Memory.Ram.{Bytes, load32, store32}
use riem_os.Memory.Ram.Words.{load32-store32_ne, load32-store32_self}
use riem_os.Memory.Pte.{has_bit}
use riem_os.Fs.{
  Os, Server, Outcome, returned, failed, panicked, memory, with_memory, ◌>>=◌, ◌>>◌, pure, fail,
  with_bit, peek, poke, and_then, ndirect, ignoring,
}
use riem_os.Fs.Blocks.{s_nblocks, bitmap_word, is_marked, free_block}
use riem_os.Fs.Nodes.{f_size, f_direct, f_indirect, file_block_walk, file_clear_block}
use riem_os.Fs.Files.{blocks_of, new_blocks, clear_from, file_truncate}
use riem_os.Fs.Marks.{marked, marked-with_bit}
use riem_os.Fs.Free.{IsLawful, IsLaidOut, IsKept, IsKept-IsLaidOut, s_nblocks-store32}

pub frees-skipped :
    (n b c : ℕ) → (b == 0 || leb n b) ≡ true → (not (b == 0) && ltb b n && c == b) ≡ false
frees-skipped n b c h = ground arith

frees-stored :
    (n b c : ℕ) → (b == 0 || leb n b) ≡ false → (not (b == 0) && ltb b n && c == b) ≡ (c == b)
frees-stored n b c h = ground arith

zeros-suc :
    (m : Bytes) (at at' n : ℕ)
    → at' ≡ at + 4
    → load32 m at ≡ 0
    → ((j : ℕ) → j < n → load32 m (at' + 4 * j) ≡ 0)
    → (j : ℕ) → j < suc n
    → load32 m (at + 4 * j) ≡ 0
zeros-suc m at at' n e first rest zero h = ap (load32 m) (omega arith) ∙ first
zeros-suc m at at' n e first rest (suc j) h = ap (load32 m) (omega arith) ∙ rest j (omega arith)

pub or_assoc : (a b c : Bool) → (a || (b || c)) ≡ (a || b || c)
or_assoc true b c = refl
or_assoc false b c = refl

or_swap : (a b c : Bool) → (b || (a || c)) ≡ (a || b || c)
or_swap true true c = refl
or_swap true false c = refl
or_swap false true c = refl
or_swap false false c = refl

module _ {W : Type 0} (os : Os W) where
  -- A word that stands apart from the bitmap and from `s_nblocks`.
  pub record IsApart (s : Server W) (p : ℕ) : Type 0 where
    pub off_bitmap :
        (b : ℕ) → b < s_nblocks os s → (p + 4 ≤ bitmap_word os s b) ⊎ (bitmap_word os s b + 4 ≤ p)
    pub off_super : (p + 4 ≤ s.super + 4) ⊎ (s.super + 8 ≤ p)

  -- Whether freeing block `b` makes block `c` free.
  abbrev pub frees : Server W → ℕ → ℕ → Bool
  frees s b c = not (b == 0) && ltb b (s_nblocks os s) && c == b

  -- `s'` is `s` but for the free blocks, to which `b` is added, and what lies in the bitmap.
  pub record IsFreed (s s' : Server W) (b : ℕ) : Type 0 where
    pub kept : IsKept os s s'
    pub words : (p : ℕ) → IsApart s p → load32 (memory os s') p ≡ load32 (memory os s) p
    pub marks : (c : ℕ) → is_marked os s' c ≡ (frees s b c || is_marked os s c)

  -- The node of a file stands apart from the bitmap and from `s_nblocks`.
  abbrev pub IsNode : Server W → ℕ → Type 0
  IsNode s f = (p : ℕ) → f ≤ p → p + 4 ≤ f + 264 → IsApart s p

  abbrev pub slot : Server W → ℕ → ℕ → ℕ
  slot s f i = load32 (memory os s) (f_direct f i)

  pub IsKept-IsApart : (s s' : Server W) (p : ℕ) → IsKept os s s' → IsApart s p → IsApart s' p
  IsKept-IsApart s s' p (a, b, c) h = record {
    off_bitmap = λ k e. ground (arith, h.off_bitmap k (omega arith));
    off_super = ground (arith, h.off_super);
  }

  -- The `n` words from `at` on are 0 now, and `freed` says which blocks have become free.
  pub record IsCleared (s s' : Server W) (at n : ℕ) (freed : ℕ → Bool) : Type 0 where
    pub kept : IsKept os s s'
    pub words :
        (p : ℕ)
        → IsApart s p
        → (p + 4 ≤ at) ⊎ (at + 4 * n ≤ p)
        → load32 (memory os s') p ≡ load32 (memory os s) p
    pub zeros : (j : ℕ) → j < n → load32 (memory os s') (at + 4 * j) ≡ 0
    pub marks : (c : ℕ) → c < s_nblocks os s → is_marked os s' c ≡ (freed c || is_marked os s c)

  pub IsCleared-then :
      (s s1 s2 : Server W) (at at' n : ℕ) (a b : ℕ → Bool)
      → at' ≡ at + 4
      → IsCleared s s1 at 1 a
      → IsCleared s1 s2 at' n b
      → IsApart s at
      → IsCleared s s2 at (suc n) (λ c. a c || b c)
  IsCleared-then s s1 s2 at at' n a b e l r node =
      let (x, y, z) = l.kept in
      let (x', y', z') = r.kept in
      record {
        kept = (x' ∙ x, y' ∙ y, z' ∙ z);
        words = λ p away off.
            r.words p (IsKept-IsApart s s1 p l.kept away) (ground arith)
            ∙ l.words p away (ground arith);
        zeros =
            zeros-suc (memory os s2) at at' n e
              (r.words at (IsKept-IsApart s s1 at l.kept node) (omega arith)
                ∙ ap (load32 (memory os s1)) (omega arith)
                ∙ l.zeros 0 (omega arith))
              r.zeros;
        marks = λ c below.
            r.marks c (omega arith)
            ∙ ap (λ t. b c || t) (l.marks c below)
            ∙ or_swap (a c) (b c) (is_marked os s c);
      }

  module _ (lawful : IsLawful os) where
    pub free_block-IsFreed :
        (b : ℕ) (s : Server W)
        → IsLaidOut os s
        → (s' : Server W) × (free_block os b s ≡ returned tt s') × IsFreed s s' b
    unfolding free_block
    free_block-IsFreed b s l = elim (Bool-cases (b == 0 || leb (s_nblocks os s) b)) [
      | inl skipped ↦ (
        s,
        rw (==_ne s.super 0 l.super_there, skipped) refl,
        record {
          kept = (refl, refl, refl);
          words = λ p h. refl;
          marks = λ c. rw (frees-skipped (s_nblocks os s) b c skipped) refl;
        },
      )
      | inr stored ↦
          let set : ℕ = with_bit (b % 32) (load32 (memory os s) (bitmap_word os s b)) in
          let m : Bytes = store32 (memory os s) (bitmap_word os s b) set in
          (
            with_memory os s m,
            rw (==_ne s.super 0 l.super_there, stored) refl,
            record {
              kept = (refl, refl, s_nblocks-store32 os lawful s b set l (ground arith));
              words = λ p h.
                  ap (λ r. load32 r p) (lawful.ram_set s.world m)
                  ∙ load32-store32_ne (memory os s) (bitmap_word os s b) set p
                      (ground (arith, h.off_bitmap b));
              marks = λ c.
                  ap (λ r. marked r s.bitmap c) (lawful.ram_set s.world m)
                  ∙ marked-with_bit (memory os s) s.bitmap b c
                  ∙ rw (frees-stored (s_nblocks os s) b c stored) refl;
            },
          )
    ]
