-- ===== src/Memory/Pages.antt =====
-- The physical page allocator of kernel/memory/memory.c and its list of free pages.
use riem_os.Base.{ℕ, ◌≡◌, refl, ap, ◌⊎◌, none, some, List, [], ◌∷◌}
use riem_os.Queue.{unlink}
use riem_os.Queue.Chain.{IsList}
use riem_os.Queue.Remove.{unlink-append}
use riem_os.Memory.{Mem, page_alloc, alloc_first}
use riem_os.Memory.Ram.{bzero, zeroed}
use riem_os.Memory.Ram.Loops.{bzero-zeroed}
use riem_os.Memory.Pte.{page_size, page2pa}

-- What `page_alloc` leaves behind when it takes `page`.
abbrev pub taken : Mem → ℕ → Mem
taken m page = record m { links = unlink m.links page; ram = bzero m.ram (page2pa page) page_size }

pub page_alloc-cons :
    (m : Mem) (page : ℕ) (free : List ℕ)
    → IsList m.links (page ∷ free)
    → (page_alloc m ≡ some (page, taken m page)) × IsList (taken m page).links free
unfolding page_alloc
page_alloc-cons m page free l = (ap (alloc_first m) l.chain.0, unlink-append m.links [] free page l)

pub page_alloc-nil : (m : Mem) → IsList m.links [] → page_alloc m ≡ none
unfolding page_alloc
page_alloc-nil m l = ap (alloc_first m) l.chain

-- Where the list of free pages is well linked, `page_alloc` hands out the first free page, clears
-- exactly its bytes, takes it off the list and leaves the counts alone; it fails exactly when no
-- page is free.
pub page_alloc_lem :
    (m : Mem) (free : List ℕ)
    → IsList m.links free
    → ((page_alloc m ≡ none) × (free ≡ []))
      ⊎ ((page : ℕ) × (rest : List ℕ) × (m' : Mem) × (free ≡ page ∷ rest)
          × (page_alloc m ≡ some (page, m'))
          × IsList m'.links rest
          × (m'.ref ≡ m.ref)
          × (m'.ram ≡ zeroed m.ram (page2pa page) page_size))
page_alloc_lem m [] l = ◌⊎◌.inl (page_alloc-nil m l, refl)
page_alloc_lem m (page ∷ free) l =
    let (got, rest) = page_alloc-cons m page free l in
    ◌⊎◌.inr
      (page, free, taken m page, refl, got, rest, refl, bzero-zeroed m.ram (page2pa page) page_size)
