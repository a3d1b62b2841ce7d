-- ===== src/Memory/Pte/Fields.antt =====
-- The fields of a page table entry are read back as they were packed (include/memory.h).
use riem_os.Base.{
  ℕ, ◌+◌, ◌*◌, ◌/◌, ◌^◌, ◌≤◌, ◌<◌, ◌≡◌, refl, ◌∙◌, ap, arith, true, bit_or, ltb, ltb→lt,
}
use riem_os.Base.Bits.{bit_or_low, bit_or-one, passes_below, passes_below_lem}
use riem_os.Memory.Pte.{
  page_size, physical_address_base, physical_memory_top, mask_a, mask_d, pte_v, has_bit, down_align,
  page2pa, pa2page, page2pte, pte2pa, pte2perm, pa2pte, leaf_entry, table_entry,
}

-- In terms of arithmetic.
leaf_entry_sum :
    (pa perm : ℕ)
    → pa < 2 ^ 56
    → perm < 2 ^ 10
    → leaf_entry pa perm ≡ pa / 2 ^ 12 * 2 ^ 10 + (perm / 2 * 2 + 1)
unfolding leaf_entry
leaf_entry_sum pa perm h k =
    bit_or-one (bit_or (pa2pte pa) perm)
    ∙ omega (arith, ap (λ t. bit_or t perm) small, bit_or_low 10 (pa / 2 ^ 12) perm k)
  where
    small : pa2pte pa ≡ pa / 2 ^ 12 * 2 ^ 10
    small = omega arith

-- The entry that `page_insert` packs is valid and unpacks to its page and to its permissions with
-- PTE_V, for physical addresses of 56 bits and permissions of 10.
pub leaf_entry-fields :
    (pa perm : ℕ)
    → pa < 2 ^ 56
    → perm < 2 ^ 10
    → (has_bit pte_v (leaf_entry pa perm) ≡ true)
      × (pte2pa (leaf_entry pa perm) ≡ down_align pa)
      × (pte2perm (leaf_entry pa perm) ≡ perm / 2 * 2 + 1)
      × (leaf_entry pa perm < 2 ^ 54)
leaf_entry-fields pa perm h k = ground (arith, leaf_entry_sum pa perm h k)

-- The entry that `page_walk` packs is valid and unpacks to its page.
pub table_entry-fields :
    (page : ℕ)
    → page < 0x8000
    → (has_bit pte_v (table_entry page) ≡ true)
      × (pte2pa (table_entry page) ≡ page2pa page)
      × (table_entry page < 2 ^ 54)
unfolding table_entry
table_entry-fields page h = ground (arith, bit_or-one (page2pte page))

-- `perm |= PTE_A | PTE_D` keeps permissions of 10 bits within them.
ad_table : passes_below (λ x. ltb (bit_or x 192) 1024) 1024 ≡ true
unfolding passes_below
ad_table = refl

pub perm_ad-lt : (perm : ℕ) → perm < 2 ^ 10 → bit_or perm (mask_a + mask_d) < 2 ^ 10
perm_ad-lt perm h = ltb→lt _ _ (passes_below_lem _ 1024 perm h ad_table)

-- For an address of the physical memory, `pa2page` gives a page of the array, and `page2pa` leads
-- back to the start of its page.
pub page2pa-pa2page :
    (pa : ℕ)
    → physical_address_base ≤ pa
    → pa < physical_memory_top
    → (page2pa (pa2page pa) ≡ down_align pa) × (pa2page pa < 0x8000)
page2pa-pa2page pa h k = omega arith

pub pa2page-page2pa :
    (page : ℕ)
    → page < 0x8000
    → (pa2page (page2pa page) ≡ page)
      × (physical_address_base ≤ page2pa page)
      × (page2pa page + page_size ≤ physical_memory_top)
pa2page-page2pa page h = omega arith
