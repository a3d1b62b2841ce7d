-- ===== src/Memory/Init.antt =====
-- `pages_init` of kernel/memory/memory.c.
use riem_os.Base.{
  ℕ, zero, suc, ◌+◌, ◌-◌, ◌≤◌, ◌<◌, ◌≡◌, refl, ◌∙◌, arith, true, ◌||◌, ◌&&◌, List, [], ◌∷◌, mem,
  ltb, leb, if◌then◌else◌,
}
use riem_os.Queue.{init}
use riem_os.Queue.Chain.{IsList}
use riem_os.Queue.Insert.{insert_head-cons}
use riem_os.Memory.{Mem, set_ref, push_free, reserve_pages, release_pages, pages_init}
use riem_os.Memory.Pte.{pa2ppn}

-- The pages from `i` to `i + n` are free and have count 0, in front of the pages of `xs`.
abbrev Released : ℕ → ℕ → List ℕ → Mem → Mem → Type 0
Released n i xs m m' =
    (free : List ℕ) × IsList m'.links free
    × ((p : ℕ) → mem p free ≡ (mem p xs || (leb i p && ltb p (i + n))))
    × ((p : ℕ) → m'.ref p ≡ (if leb i p && ltb p (i + n) then 0 else m.ref p))
    × (m'.ram ≡ m.ram)

release_pages-Released :
    (n i : ℕ) (m : Mem) (xs : List ℕ)
    → IsList m.links xs
    → ((p : ℕ) → mem p xs ≡ true → p < i)
    → Released n i xs m (release_pages n i m)
unfolding release_pages
release_pages-Released zero i m xs list below =
    (xs, list, λ p. ground arith, λ p. ground arith, refl)
release_pages-Released (suc n) i m xs list below =
    let (free, listed, holds, counts, same) =
      release_pages-Released n (i + 1) (push_free (set_ref m i 0) i) (i ∷ xs)
        (insert_head-cons m.links xs i list (ground (arith, below i)))
        (λ p h. ground (arith, below p)) in
    (free, listed, λ p. ground (arith, holds p), λ p. ground (arith, counts p), same)

reserve_pages-ref :
    (n i : ℕ) (m : Mem)
    → ((p : ℕ) → (reserve_pages n i m).ref p ≡ (if leb i p && ltb p (i + n) then 1 else m.ref p))
      × ((reserve_pages n i m).ram ≡ m.ram)
unfolding reserve_pages
reserve_pages-ref zero i m = (λ p. ground arith, refl)
reserve_pages-ref (suc n) i m =
    let (counts, same) = reserve_pages-ref n (i + 1) (set_ref m i 1) in
    (λ p. ground (arith, counts p), same)

-- If the kernel ends inside the memory, `pages_init` leaves a well linked list that holds exactly
-- the pages from the end of the kernel to the end of the memory; those have count 0, the pages of
-- the kernel have count 1, and the bytes of memory stay.
pub pages_init-IsList :
    (kernel_end : ℕ) (m : Mem)
    → pa2ppn kernel_end ≤ 0x8000
    → (free : List ℕ) × IsList (pages_init kernel_end m).links free
      × ((p : ℕ) → mem p free ≡ (leb (pa2ppn kernel_end) p && ltb p 0x8000))
      × ((p : ℕ)
          → p < 0x8000
          → (pages_init kernel_end m).ref p ≡ (if ltb p (pa2ppn kernel_end) then 1 else 0))
      × ((pages_init kernel_end m).ram ≡ m.ram)
unfolding pages_init init
pages_init-IsList kernel_end m fits =
    let used : ℕ = pa2ppn kernel_end in
    let reserved : Mem = reserve_pages used 0 m in
    let (ones, kept) = reserve_pages-ref used 0 m in
    let (free, listed, holds, counts, same) =
      release_pages-Released (0x8000 - used) used (record reserved { links = init reserved.links })
        [] (record { chain = refl; distinct = tt }) (λ p h. ground arith) in
    (
      free,
      listed,
      λ p. ground (arith, holds p),
      λ p h. ground (arith, counts p, ones p),
      same ∙ kept,
    )
