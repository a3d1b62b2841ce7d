-- ===== src/Memory/Across/Copied.antt =====
-- `copyin` of kernel/memory/memory.c copies the bytes of a user block in order, across its pages.
use mathlib.Core.Path.{fun_ext}
use riem_os.Base.{
  ℕ, zero, suc, ◌+◌, ◌-◌, ◌/◌, ◌%◌, ◌<◌, ◌≤◌, ◌≡◌, refl, subst, ◌∙◌, sym, ap, arith, true, false,
  Bool-cases, inl, inr, ◌⊎◌, some, List, ltb, ◌==◌,
}
use riem_os.Base.Int.{pos}
use riem_os.Memory.{Mem}
use riem_os.Memory.Ram.Copy.{IsBytes, moved}
use riem_os.Memory.Pte.{page_size, down_align, pte2pa}
use riem_os.Memory.Tree.{Shape, IsTree}
use riem_os.Memory.Walk.{translation}
use riem_os.Memory.Lookup.{translation-vpn}
use riem_os.Memory.Same.{
  SameTables, IsBeside, same_tables-translation, same_tables-IsTree, same_outside-SameTables,
}
use riem_os.Memory.User.{max_va, vir2phy, user_address, vir2phy-user_address}
use riem_os.Memory.Across.Chunks.{
  place, copied, IsReadable, IsApart, moved-IsBytes, off_block, copied-chunk,
}
use riem_os.Memory.Across.{chunk, move, copyin}
use riem_os.Strings.{memmove}
use riem_os.Strings.Move.{memmove-moved}

copyin-done :
    (fuel : ℕ) (m : Mem) (root dst src len : ℕ)
    → len == 0 ≡ true
    → copyin (suc fuel) m root dst src len ≡ some (pos 0, m)
unfolding copyin
copyin-done fuel m root dst src len done = rw (done, copyin) refl

copyin-next :
    (fuel : ℕ) (m : Mem) (root dst src len : ℕ)
    → len == 0 ≡ false
    → (vir2phy m root (down_align src)).0 == 0 ≡ false
    → copyin (suc fuel) m root dst src len
      ≡ copyin fuel
          (move m dst
            ((vir2phy m root (down_align src)).0 + (src - down_align src))
            (chunk src len))
          root
          (dst + chunk src len)
          (down_align src + page_size)
          (len - chunk src len)
unfolding copyin
copyin-next fuel m root dst src len more set = rw (more, copyin) (rw set refl)

chunk_lem :
    (src len : ℕ)
    → (src % 4096 + chunk src len ≤ 4096)
      × (chunk src len ≤ len)
      × ((src % 4096 + chunk src len ≡ 4096) ⊎ (chunk src len ≡ len))
      × ((len == 0 ≡ false) → 0 < chunk src len)
chunk_lem src len = ground arith

-- A user page's address is that of its translation.
vir2phy-page :
    (root : ℕ) (f : ℕ → ℕ) (m : Mem) (shape : Shape) (free : List ℕ) (va : ℕ)
    → IsTree root m shape free
    → ((va : ℕ) → translation m root va ≡ f va)
    → IsReadable f va
    → (vir2phy m root (down_align va)).0 ≡ pte2pa (f va)
vir2phy-page root f m shape free va tree same (low, valid, user, set) =
    ap (λ r. r.0)
      (vir2phy-user_address root m shape free (down_align va) tree
        ∙ ap (user_address (down_align va)) here)
    ∙ rw below (rw valid (rw user (omega arith)))
  where
    below : ltb (down_align va) max_va ≡ true
    below = ground (arith, low)

    here : translation m root (down_align va) ≡ f va
    here = translation-vpn m root (down_align va) va (omega arith) ∙ same va

module _ (root : ℕ) (f : ℕ → ℕ) (m : Mem) (shape : Shape) (free : List ℕ) (dst src len n : ℕ)
    (fits : src % 4096 + n ≤ 4096) (within : n ≤ len) (full : (src % 4096 + n ≡ 4096) ⊎ (n ≡ len))
    (tree : IsTree root m shape free) (beside : IsBeside shape dst len) where
  abbrev mid : Mem
  mid = record m { ram = moved m.ram (place f src) dst n }

  mid-SameTables : SameTables shape m mid
  mid-SameTables =
      same_outside-SameTables shape m mid dst n
        (λ b k q h. elim (beside b k q h) [
          | inl below ↦ inl (omega (arith, below, within))
          | inr above ↦ inr above
        ])
        (λ q off. off_block dst n q _ _ off)

  mid-IsTree : IsTree root mid shape free
  mid-IsTree = same_tables-IsTree root m mid shape free tree mid-SameTables refl

  rest-IsBeside : IsBeside shape (dst + n) (len - n)
  rest-IsBeside b k q h = elim (beside b k q h) [
    | inl below ↦ inl (omega (arith, below, within))
    | inr above ↦ inr (omega (arith, above))
  ]

  rest-at : (i : ℕ) → i < len - n → src + (n + i) ≡ down_align src + page_size + i
  rest-at i h = omega (arith, full)

  rest-IsReadable :
      ((i : ℕ) → i < len → IsReadable f (src + i))
      → (i : ℕ) → i < len - n
      → IsReadable f (down_align src + page_size + i)
  rest-IsReadable readable i h =
      subst (IsReadable f) (rest-at i h) (readable (n + i) (omega (arith, h, within)))

  rest-IsApart :
      ((i : ℕ) → i < len → IsApart f (src + i) dst len)
      → (i : ℕ) → i < len - n
      → IsApart f (down_align src + page_size + i) (dst + n) (len - n)
  rest-IsApart apart i h =
      subst (λ va. IsApart f va (dst + n) (len - n)) (rest-at i h)
        (elim (apart (n + i) (omega (arith, h, within))) [
          | inl below ↦ inl (omega (arith, below))
          | inr above ↦ inr (omega (arith, above, within))
        ])

copyin_from-copied :
    (fuel root : ℕ) (tr : ℕ → ℕ) (m : Mem) (shape : Shape) (free : List ℕ) (dst src len : ℕ)
    → len < fuel
    → IsTree root m shape free
    → ((va : ℕ) → translation m root va ≡ tr va)
    → IsBytes m.ram
    → IsBeside shape dst len
    → ((i : ℕ) → i < len → IsReadable tr (src + i))
    → ((i : ℕ) → i < len → IsApart tr (src + i) dst len)
    → copyin fuel m root dst src len ≡ some (pos 0, record m { ram = copied tr m.ram dst src len })
copyin_from-copied zero root f m shape free dst src len enough tree same bytes beside readable
      apart =
    ground (arith, enough)
copyin_from-copied (suc fuel) root f m shape free dst src len enough tree same bytes beside readable
      apart =
    elim (Bool-cases (len == 0)) [
      | inl done ↦
          copyin-done fuel m root dst src len done
          ∙ ap (λ r. some (pos 0, record m { ram = r }))
              (fun_ext λ q. sym (off_block dst len q _ _ (ground (arith, done))))
      | inr more ↦
          copyin-next fuel m root dst src len more (set more)
          ∙ ap
              (λ r.
                copyin fuel (record m { ram = r }) root (dst + (chunk src len))
                  (down_align src + page_size) (len - (chunk src len)))
              (ram_after more)
          ∙ copyin_from-copied fuel root f
              (mid root f m shape free dst src len (chunk src len) fits within full tree beside)
              shape free (dst + (chunk src len)) (down_align src + page_size)
              (len - (chunk src len)) (omega (arith, enough, within, (chunk_lem src len).3 more))
              (mid-IsTree root f m shape free dst src len (chunk src len) fits within full tree
                beside)
              (λ va.
                same_tables-translation root m
                  (mid root f m shape free dst src len (chunk src len) fits within full tree beside)
                  shape free tree
                  (mid-SameTables root f m shape free dst src len (chunk src len) fits within full
                    tree beside)
                  va
                ∙ same va)
              (moved-IsBytes m.ram (place f src) dst (chunk src len) bytes)
              (rest-IsBeside root f m shape free dst src len (chunk src len) fits within full tree
                beside)
              (rest-IsReadable root f m shape free dst src len (chunk src len) fits within full tree
                beside readable)
              (rest-IsApart root f m shape free dst src len (chunk src len) fits within full tree
                beside apart)
          ∙ ap (λ r. some (pos 0, record m { ram = r }))
              (copied-chunk f m.ram dst src len (chunk src len) fits within full same_page apart)
    ]
  where
    fits : src % 4096 + (chunk src len) ≤ 4096
    fits = (chunk_lem src len).0

    within : (chunk src len) ≤ len
    within = (chunk_lem src len).1

    full : (src % 4096 + (chunk src len) ≡ 4096) ⊎ ((chunk src len) ≡ len)
    full = (chunk_lem src len).2

    page_readable : len == 0 ≡ false → IsReadable f src
    page_readable more = subst (IsReadable f) (omega arith) (readable 0 (ground (arith, more)))

    offset : pte2pa (f src) + (src - down_align src) ≡ place f src
    offset = omega arith

    first : len == 0 ≡ false → (vir2phy m root (down_align src)).0 ≡ pte2pa (f src)
    first more = vir2phy-page root f m shape free src tree same (page_readable more)

    set : len == 0 ≡ false → (vir2phy m root (down_align src)).0 == 0 ≡ false
    set more = ground (arith, first more, (page_readable more).3)

    ram_after :
        len == 0 ≡ false
        → memmove m.ram dst
            ((vir2phy m root (down_align src)).0 + (src - down_align src))
            (chunk src len)
          ≡ moved m.ram (place f src) dst (chunk src len)
    ram_after more =
        ap (λ a. memmove m.ram dst a (chunk src len))
          (ap (λ a. a + (src - down_align src)) (first more) ∙ offset)
        ∙ memmove-moved m.ram dst (place f src) (chunk src len) bytes

    same_page : (i : ℕ) → src / 4096 ≡ (src + i) / 4096 → f (src + i) ≡ f src
    same_page i h =
        sym (same (src + i)) ∙ translation-vpn m root (src + i) src (omega (arith, h)) ∙ same src

-- If the page tables form a tree, memory holds bytes, every byte of the `len` bytes at `src` is in a
-- valid user page below MAXVA, and the kernel block at `dst` lies beside the tables and beside the
-- frames that hold these bytes, then `copyin` returns 0 once its fuel is above `len`: the block at
-- `dst` then holds the bytes of the user block in order, whichever frames hold them, and nothing else
-- changed.
pub copyin-copied :
    (fuel root : ℕ) (m : Mem) (shape : Shape) (free : List ℕ) (dst src len : ℕ)
    → len < fuel
    → IsTree root m shape free
    → IsBytes m.ram
    → IsBeside shape dst len
    → ((i : ℕ) → i < len → IsReadable (translation m root) (src + i))
    → ((i : ℕ) → i < len → IsApart (translation m root) (src + i) dst len)
    → copyin fuel m root dst src len
      ≡ some (pos 0, record m { ram = copied (translation m root) m.ram dst src len })
copyin-copied fuel root m shape free dst src len enough tree =
    copyin_from-copied fuel root (translation m root) m shape free dst src len enough tree
      (λ va. refl)
