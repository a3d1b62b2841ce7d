-- ===== src/Tests/Memories.antt =====
-- Runs on a memory with one empty page directory and two free pages.
use riem_os.Base.{
  ℕ, ◌+◌, ◌%◌, ◌≡◌, ◌≢◌, ◌<◌, ◌⊎◌, ◌∙◌, inl, inr, refl, none, some, List, [], ◌∷◌, arith, update,
  false, bit_or,
}
use riem_os.Base.Int.{pos, neg}
use riem_os.Queue.{Lists, nowhere, insert_head, unlink}
use riem_os.Queue.Chain.{IsList}
use riem_os.Queue.Insert.{insert_head-cons}
use riem_os.Memory.{
  Mem, page_insert, page_lookup, page_walk, next_table, page_alloc, evict, set_leaf, page_remove,
}
use riem_os.Memory.Ram.{Bytes, load32, load64, bzero, store64, zeroed, bcopy, copy_bytes}
use riem_os.Memory.Ram.Copy.{bcopy-copy_bytes}
use riem_os.Memory.Pte.{
  leaf_entry, table_entry, page_size, page2pa, pa2page, pte2pa, down_align, mask_a, mask_d,
}
use riem_os.Memory.Ram.Loops.{bzero-zeroed}
use riem_os.Memory.Pages.{page_alloc_lem}
use riem_os.Memory.Tree.{Shape, IsTree, is_valid, entry, read_from}
use riem_os.Memory.Walk.{translation}
use riem_os.Memory.User.{vir2phy, user_address, vir2phy-user_address}
use riem_os.Memory.Lookup.{LooksUp, page_lookup-LooksUp}
use riem_os.Memory.Insert.{Inserted, page_insert-Inserted}
use riem_os.Memory.Lookup.{translation-vpn}
use riem_os.Memory.Same.{IsBeside}
use riem_os.Memory.Cells.{page_insert-IsBytes}
use riem_os.Memory.Across.{copyin}
use riem_os.Memory.Across.Chunks.{copied, IsReadable, IsApart}
use riem_os.Memory.Across.Copied.{copyin-copied}
use riem_os.Memory.Replace.{Replaced, page_insert-Replaced}
use riem_os.Memory.Remove.{Removed, page_remove-Removed, page_remove-none, less}

abbrev pool : Lists
pool =
    insert_head
      (insert_head (record { lh_first = none; le_next = λ _. none; le_prev = λ _. nowhere }) 2) 1

pool-IsList : IsList pool (1 ∷ 2 ∷ [])
pool-IsList =
    insert_head-cons (insert_head _ 2) (2 ∷ []) 1
      (insert_head-cons _ [] 2 (record { chain = refl; distinct = tt }) refl) refl

-- The frame of the directory is counted once.
abbrev bare : Mem
bare = record { ram = λ _. 0; links = pool; ref = update (λ _. 0) 0x7fff 1 }

abbrev directory : ℕ
directory = 0x87fff000

abbrev one_table : Shape
one_table = update (λ _. none) directory (some (2, 0))

-- Every entry of a memory of zeros is 0.
entry-bare : (a i : ℕ) → entry bare.ram a i ≡ 0
unfolding load64 load32
entry-bare a i = refl

invalid-bare : (a i : ℕ) → is_valid (entry bare.ram a i) ≡ false
invalid-bare a i = rw (entry-bare a i) refl

bare-IsTree : IsTree directory bare one_table (1 ∷ 2 ∷ [])
bare-IsTree = record {
  rooted = refl;
  placed = λ a l p h. ground arith;
  child = λ a l p i h k v. ground (arith, invalid-bare a i);
  links = pool-IsList;
  pages = λ n h. ground arith;
}

untranslated : is_valid (translation bare directory 0x1000) ≡ false
unfolding translation read_from load64 load32
untranslated = refl

insert_runs : (page_insert 0 bare directory 0x1000 0x87fff000 7).0 ≡ pos 0
unfolding page_insert page_walk page_alloc next_table insert_head unlink load64 bzero store64 evict
    set_leaf leaf_entry table_entry
insert_runs = refl

insert_lookup_runs :
    page_lookup (page_insert 0 bare directory 0x1000 0x87fff000 7).1 directory 0x1234
    ≡ (0x87fff000, some 0x80002008)
unfolding page_insert page_lookup page_walk page_alloc next_table insert_head unlink load64 bzero
    store64 evict set_leaf leaf_entry table_entry
insert_lookup_runs = refl

inserted :
    Inserted directory bare
      (1 ∷ 2 ∷ [])
      0x1000
      (leaf_entry (down_align 0x87fff000) (bit_or 7 (mask_a + mask_d)))
      (page_insert 0 bare directory 0x1000 0x87fff000 7)
inserted =
    page_insert-Inserted 0 directory bare one_table (1 ∷ 2 ∷ []) 0x1000 0x87fff000 7 bare-IsTree
      (omega arith) (omega arith) untranslated

page_insert-Inserted_example :
    Inserted directory bare
      (1 ∷ 2 ∷ [])
      0x1000
      (leaf_entry (down_align 0x87fff000) (bit_or 7 (mask_a + mask_d)))
      (page_insert 0 bare directory 0x1000 0x87fff000 7)
page_insert-Inserted_example =
    page_insert-Inserted 0 directory bare one_table (1 ∷ 2 ∷ []) 0x1000 0x87fff000 7 bare-IsTree
      (omega arith) (omega arith) untranslated

-- The directory maps itself.
abbrev mapped : Mem
mapped = (page_insert 0 bare directory 0x1000 0x87fff000 7).1

mapped-translation : translation mapped directory 0x1000 ≡ 0x21fffcc7
unfolding page_insert page_walk page_alloc next_table insert_head unlink load64 bzero store64 evict
    set_leaf leaf_entry table_entry translation read_from
mapped-translation = refl

counted_twice : mapped.ref 0x7fff ≡ 2
unfolding page_insert page_walk page_alloc next_table insert_head unlink load64 bzero store64 evict
    set_leaf leaf_entry table_entry
counted_twice = refl

still_counted : less mapped (pa2page (pte2pa (translation mapped directory 0x1000))) ≢ 0
still_counted = rw mapped-translation (rw counted_twice (omega arith))

page_remove-Removed_example :
    Removed directory mapped inserted.0 inserted.1 0x1000 (page_remove 0 mapped directory 0x1000)
page_remove-Removed_example =
    page_remove-Removed 0 directory mapped inserted.0 inserted.1 0x1000 inserted.2
      (rw mapped-translation refl) (rw mapped-translation (omega arith, omega arith))
      (λ h. absurd (still_counted h))

page_lookup-LooksUp_example :
    LooksUp directory mapped inserted.0 0x1000 (page_lookup mapped directory 0x1000)
page_lookup-LooksUp_example =
    page_lookup-LooksUp directory mapped 0x1000 inserted.0 inserted.1 inserted.2

page_remove-none_example : page_remove 0x1234 bare directory 0x1000 ≡ (neg 1, bare)
page_remove-none_example =
    page_remove-none 0x1234 bare directory 0x1000 one_table (1 ∷ 2 ∷ []) bare-IsTree
      (inl untranslated)

abbrev counting : Bytes
counting p = p % 256

bzero-zeroed_example : bzero counting 5 13 ≡ zeroed counting 5 13
bzero-zeroed_example = bzero-zeroed counting 5 13

abbrev two_free : List ℕ
two_free = 1 ∷ 2 ∷ []

page_alloc_lem_example :
    ((page_alloc bare ≡ none) × (two_free ≡ []))
    ⊎ ((page : ℕ) × (rest : List ℕ) × (m' : Mem) × (two_free ≡ (page ∷ rest))
        × (page_alloc bare ≡ some (page, m'))
        × IsList m'.links rest
        × (m'.ref ≡ bare.ref)
        × (m'.ram ≡ zeroed bare.ram (page2pa page) page_size))
page_alloc_lem_example = page_alloc_lem bare (1 ∷ 2 ∷ []) pool-IsList

bcopy-copy_bytes_example : bcopy counting 5 13 10 ≡ copy_bytes 10 counting 5 13
bcopy-copy_bytes_example = bcopy-copy_bytes counting 5 13 10 (λ p. omega arith)

vir2phy-user_address_example :
    vir2phy mapped directory 0x1234 ≡ user_address 0x1234 (translation mapped directory 0x1234)
vir2phy-user_address_example =
    vir2phy-user_address directory mapped inserted.0 inserted.1 0x1234 inserted.2

-- A page that the user may read and write, at 0x1000.
abbrev lent : Mem
lent = (page_insert 0 bare directory 0x1000 0x80005000 22).1

lent_inserted :
    Inserted directory bare
      (1 ∷ 2 ∷ [])
      0x1000
      (leaf_entry (down_align 0x80005000) (bit_or 22 (mask_a + mask_d)))
      (page_insert 0 bare directory 0x1000 0x80005000 22)
lent_inserted =
    page_insert-Inserted 0 directory bare one_table (1 ∷ 2 ∷ []) 0x1000 0x80005000 22 bare-IsTree
      (omega arith) (omega arith) untranslated

lent-translation : translation lent directory 0x1000 ≡ 0x200014d7
unfolding page_insert page_walk page_alloc next_table insert_head unlink load64 bzero store64 evict
    set_leaf leaf_entry table_entry translation read_from
lent-translation = refl

lent_page : (i : ℕ) → i < 3 → translation lent directory (0x1234 + i) ≡ 0x200014d7
lent_page i h =
    translation-vpn lent directory (0x1234 + i) 0x1000 (omega (arith, h)) ∙ lent-translation

lent-IsReadable : (i : ℕ) → i < 3 → IsReadable (translation lent directory) (0x1234 + i)
lent-IsReadable i h = rw (lent_page i h) (omega (arith, h), refl, refl, omega arith)

lent-IsApart : (i : ℕ) → i < 3 → IsApart (translation lent directory) (0x1234 + i) 0x1000 3
lent-IsApart i h = rw (lent_page i h) (inr (omega (arith, h)))

lent-IsBeside : IsBeside lent_inserted.0 0x1000 3
lent-IsBeside b k q h = inl (ground (arith, lent_inserted.2.placed b k q h))

-- Three bytes go from the user's 0x1234 to the kernel's 0x1000, which is not in the physical memory.
copyin-copied_example :
    copyin 4 lent directory 0x1000 0x1234 3
    ≡ some
        (pos 0, record lent { ram = copied (translation lent directory) lent.ram 0x1000 0x1234 3 })
copyin-copied_example =
    copyin-copied 4 directory lent lent_inserted.0 lent_inserted.1 0x1000 0x1234 3 (omega arith)
      lent_inserted.2 (page_insert-IsBytes 0 bare directory 0x1000 0x80005000 22 (λ q. omega arith))
      lent-IsBeside lent-IsReadable lent-IsApart

-- The device at 0x10000000 takes the place of the frame.
page_insert-Replaced_example :
    Replaced directory mapped inserted.0 inserted.1 0x1000
      (leaf_entry (down_align 0x10000000) (bit_or 7 (mask_a + mask_d)))
      (page_insert 0 mapped directory 0x1000 0x10000000 7)
page_insert-Replaced_example =
    page_insert-Replaced 0 directory mapped inserted.0 inserted.1 0x1000 0x10000000 7 inserted.2
      refl (omega arith) (omega arith) (rw mapped-translation refl)
      (rw mapped-translation (omega arith, omega arith)) (λ h. absurd (still_counted h))
