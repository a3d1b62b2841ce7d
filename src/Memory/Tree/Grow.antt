-- ===== src/Memory/Tree/Grow.antt =====
-- `page_walk` with `create` hangs a fresh table under an invalid entry: the tree stays a tree, and
-- no translation changes.
use riem_os.Base.{
  ℕ, zero, suc, ◌+◌, ◌*◌, ◌%◌, ◌≤◌, ◌<◌, ◌≡◌, ◌≢◌, refl, ◌∙◌, sym, ap, ◌⊎◌, inl, inr, arith, true,
  false, Option, none, some, List, ◌∷◌, mem, update, ◌==◌, Bool-cases, ==_ne, ==_refl,
}
use riem_os.Memory.{Mem, ref_up}
use riem_os.Memory.Ram.{Bytes, store64}
use riem_os.Memory.Ram.Words.{load64-store64_self}
use riem_os.Memory.Pages.{taken, page_alloc-cons}
use riem_os.Memory.Pte.{
  table_index, page2pa, pa2page, pte2pa, table_entry, physical_address_base, physical_memory_top,
}
use riem_os.Memory.Pte.Fields.{table_entry-fields, pa2page-page2pa}
use riem_os.Memory.Tree.{Shape, entry, is_valid, IsTree, read_from}
use riem_os.Memory.Tree.Store.{
  entry-store64_ne, entry-bzero_ne, entry-bzero_self, ne_of_none, ne_of_level, table_index-lt,
}

-- A walk over cleared tables finds nothing.
read_from-zero :
    (k : ℕ) (ram : Bytes) (va t : ℕ)
    → ((j : ℕ) → j < 512 → entry ram t j ≡ 0)
    → read_from k ram va t ≡ 0
unfolding read_from
read_from-zero zero ram va t h = h (table_index va 0) (table_index-lt va 0)
read_from-zero (suc k) ram va t h = rw (h (table_index va (suc k)) (table_index-lt va (suc k))) refl

-- One step of a walk that reads.
module _ (k : ℕ) (ram : Bytes) (va b : ℕ) where
  pub read_from-valid :
      (w : ℕ)
      → entry ram b (table_index va (suc k)) ≡ w
      → is_valid w ≡ true
      → read_from (suc k) ram va b ≡ read_from k ram va (pte2pa w)
  unfolding read_from
  read_from-valid w e v = rw e (rw v refl)

  pub read_from-invalid :
      (w : ℕ)
      → entry ram b (table_index va (suc k)) ≡ w
      → is_valid w ≡ false
      → read_from (suc k) ram va b ≡ 0
  unfolding read_from
  read_from-invalid w e v = rw e (rw v refl)

-- The memory when `page` has become the table under entry `i` of the table at `a`.
abbrev pub grown : Mem → ℕ → ℕ → ℕ → Mem
grown m page a i =
    let m' = taken m page in
    ref_up (record m' { ram = store64 m'.ram (a + 8 * i) (table_entry page) }) page

abbrev pub grown_shape : Shape → ℕ → ℕ → ℕ → ℕ → Shape
grown_shape shape page l p i = update shape (page2pa page) (some (l, p * 512 + i))

module _ (root : ℕ) (m : Mem) (shape : Shape) (page : ℕ) (free : List ℕ)
    (tree : IsTree root m shape (page ∷ free)) (a l p i : ℕ) (here : shape a ≡ some (suc l, p))
    (small : i < 512) (unset : is_valid (entry m.ram a i) ≡ false) where
  abbrev pub fresh : ℕ
  fresh = page2pa page

  in_pool : (page < 0x8000) × (shape fresh ≡ none)
  in_pool = tree.pages page (ground arith)

  fresh_placed :
      (fresh % 4096 ≡ 0) × (physical_address_base ≤ fresh) × (fresh + 4096 ≤ physical_memory_top)
  fresh_placed = omega (arith, in_pool.0)

  entry_at : entry (grown m page a i).ram a i ≡ table_entry page
  entry_at =
      load64-store64_self (taken m page).ram (a + 8 * i) (table_entry page)
        (omega (arith, (table_entry-fields page in_pool.0).2))

  entry_old :
      (b k q j : ℕ)
      → shape b ≡ some (k, q)
      → j < 512
      → (a ≢ b) ⊎ (i ≢ j)
      → entry (grown m page a i).ram b j ≡ entry m.ram b j
  entry_old b k q j hb hj ne =
      entry-store64_ne (taken m page).ram a i b j (table_entry page)
        (tree.placed a (suc l) p here).0 (tree.placed b k q hb).0 small hj ne
      ∙ entry-bzero_ne m.ram fresh b j fresh_placed.0 (tree.placed b k q hb).0 hj
          (λ e. ne_of_none shape b fresh k q hb in_pool.1 (sym e))

  entry_new : (j : ℕ) → j < 512 → entry (grown m page a i).ram fresh j ≡ 0
  entry_new j hj =
      entry-store64_ne (taken m page).ram a i fresh j (table_entry page)
        (tree.placed a (suc l) p here).0 fresh_placed.0 small hj
        (inl (ne_of_none shape a fresh (suc l) p here in_pool.1))
      ∙ entry-bzero_self m.ram fresh j hj

  -- A table of the tree before keeps its place.
  pub shape_old : (b k q : ℕ) → shape b ≡ some (k, q) → grown_shape shape page l p i b ≡ some (k, q)
  shape_old b k q hb =
      rw (==_ne fresh b (λ e. ne_of_none shape b fresh k q hb in_pool.1 (sym e))) hb

  pub shape_new : grown_shape shape page l p i fresh ≡ some (l, p * 512 + i)
  shape_new = rw (==_refl fresh) refl

  -- The slots of the two sides of a split.
  same_slot : (b j : ℕ) → ((a ≡ b) × (i ≡ j)) ⊎ ((a ≢ b) ⊎ (i ≢ j))
  same_slot b j = elim (Bool-cases (a == b)) [
    | inl e ↦ elim (Bool-cases (i == j)) [
      | inl f ↦ inl (ground arith, ground arith)
      | inr f ↦ inr (inr (ground arith))
    ]
    | inr e ↦ inr (inl (ground arith))
  ]

  entry_here : (b j : ℕ) → a ≡ b → i ≡ j → entry (grown m page a i).ram b j ≡ table_entry page
  entry_here b j e f = rw (← e, ← f) entry_at

  unset_here : (b j : ℕ) → a ≡ b → i ≡ j → is_valid (entry m.ram b j) ≡ false
  unset_here b j e f = rw (← e, ← f) unset

  -- A walk that meets the new table finds it empty, where it found no table before.
  pub grown-reads :
      (k b q va : ℕ)
      → shape b ≡ some (k, q)
      → read_from k (grown m page a i).ram va b ≡ read_from k m.ram va b
  grown-reads zero b q va hb =
      unfold read_from in
      entry_old b 0 q (table_index va 0) hb (table_index-lt va 0)
        (inl (ne_of_level shape a b (suc l) 0 p q here hb (omega arith)))
  grown-reads (suc k) b q va hb = elim (same_slot b (table_index va (suc k))) [
    | inl (e, f) ↦
        read_from-valid k (grown m page a i).ram va b (table_entry page)
          (entry_here b (table_index va (suc k)) e f) (table_entry-fields page in_pool.0).0
        ∙ ap (read_from k (grown m page a i).ram va) (table_entry-fields page in_pool.0).1
        ∙ read_from-zero k (grown m page a i).ram va fresh entry_new
        ∙ sym (
            read_from-invalid k m.ram va b (entry m.ram b (table_index va (suc k))) refl
              (unset_here b (table_index va (suc k)) e f))
    | inr ne ↦ elim (Bool-cases (is_valid (entry m.ram b (table_index va (suc k))))) [
      | inl v ↦
          read_from-valid k (grown m page a i).ram va b (entry m.ram b (table_index va (suc k)))
            (entry_old b (suc k) q (table_index va (suc k)) hb (table_index-lt va (suc k)) ne) v
          ∙ grown-reads k (pte2pa (entry m.ram b (table_index va (suc k))))
              (q * 512 + table_index va (suc k)) va
              (tree.child b k q (table_index va (suc k)) hb (table_index-lt va (suc k)) v)
          ∙ sym (read_from-valid k m.ram va b (entry m.ram b (table_index va (suc k))) refl v)
      | inr v ↦
          read_from-invalid k (grown m page a i).ram va b (entry m.ram b (table_index va (suc k)))
            (entry_old b (suc k) q (table_index va (suc k)) hb (table_index-lt va (suc k)) ne) v
          ∙ sym (read_from-invalid k m.ram va b (entry m.ram b (table_index va (suc k))) refl v)
    ]
  ]

  -- The tables of the new tree are those of the old one and the fresh table.
  shape_split :
      (b k q : ℕ)
      → grown_shape shape page l p i b ≡ some (k, q)
      → ((fresh ≡ b) × (l ≡ k) × (p * 512 + i ≡ q)) ⊎ (shape b ≡ some (k, q))
  shape_split b k q h = elim (Bool-cases (fresh == b)) [
    | inl e ↦ inl (ground arith, ground arith, ground arith)
    | inr e ↦ inr (ground arith)
  ]

  entry_in_fresh : (b j : ℕ) → fresh ≡ b → j < 512 → entry (grown m page a i).ram b j ≡ 0
  entry_in_fresh b j e hj = rw (← e) (entry_new j hj)

  set_false :
      (b j : ℕ) → fresh ≡ b → j < 512 → is_valid (entry (grown m page a i).ram b j) ≡ true → ⊥
  set_false b j e hj v = ground (arith, ap is_valid (entry_in_fresh b j e hj))

  not_shape_none : (b : ℕ) → shape b ≡ none → fresh ≢ b → grown_shape shape page l p i b ≡ none
  not_shape_none b h ne = rw (==_ne fresh b ne) h

  valid_old :
      (b k q j : ℕ)
      → shape b ≡ some (k, q)
      → j < 512
      → (a ≢ b) ⊎ (i ≢ j)
      → is_valid (entry (grown m page a i).ram b j) ≡ true
      → is_valid (entry m.ram b j) ≡ true
  valid_old b k q j hb hj ne v = ap is_valid (sym (entry_old b k q j hb hj ne)) ∙ v

  grown-placed :
      (b k q : ℕ)
      → grown_shape shape page l p i b ≡ some (k, q)
      → (b % 4096 ≡ 0) × (physical_address_base ≤ b) × (b + 4096 ≤ physical_memory_top)
  grown-placed b k q h = elim (shape_split b k q h) [
    | inl (e, _, _) ↦ omega (arith, fresh_placed)
    | inr hb ↦ tree.placed b k q hb
  ]

  grown-child :
      (b k q j : ℕ)
      → grown_shape shape page l p i b ≡ some (suc k, q)
      → j < 512
      → is_valid (entry (grown m page a i).ram b j) ≡ true
      → grown_shape shape page l p i (pte2pa (entry (grown m page a i).ram b j))
        ≡ some (k, q * 512 + j)
  grown-child b k q j h hj v = elim (shape_split b (suc k) q h) [
    | inl (e, _, _) ↦ absurd (set_false b j e hj v)
    | inr hb ↦ elim (same_slot b j) [
      | inl (e, f) ↦
          ap (grown_shape shape page l p i)
            (ap pte2pa (entry_here b j e f) ∙ (table_entry-fields page in_pool.0).1)
          ∙ shape_new
          ∙ place b hb e f
      | inr ne ↦
          ap (λ w. grown_shape shape page l p i (pte2pa w)) (entry_old b (suc k) q j hb hj ne)
          ∙ shape_old (pte2pa (entry m.ram b j)) k (q * 512 + j)
              (tree.child b k q j hb hj (valid_old b (suc k) q j hb hj ne v))
    ]
  ]
    where
      place :
          (b : ℕ)
          → shape b ≡ some (suc k, q)
          → a ≡ b
          → i ≡ j
          → ◌≡◌ {A = Option (ℕ × ℕ)} (some (l, p * 512 + i)) (some (k, q * 512 + j))
      place b hb e f = ground (arith, ap shape e)

  grown-pages :
      (n : ℕ) → mem n free ≡ true → (n < 0x8000) × (grown_shape shape page l p i (page2pa n) ≡ none)
  grown-pages n h =
      let old = tree.pages n (ground arith) in
      (old.0, not_shape_none (page2pa n) old.1 (λ e. ground (arith, distinct e)))
    where
      distinct : fresh ≡ page2pa n → ⊥
      distinct e = ground (
        arith,
        tree.links.distinct.0,
        pa2page-page2pa page in_pool.0,
        pa2page-page2pa n (tree.pages n (ground arith)).0,
        ap pa2page e,
      )

  pub grown-IsTree : IsTree root (grown m page a i) (grown_shape shape page l p i) free
  grown-IsTree = record {
    rooted = shape_old root 2 0 tree.rooted;
    placed = grown-placed;
    child = grown-child;
    links = (page_alloc-cons m page free tree.links).1;
    pages = grown-pages;
  }

  pub grown-keeps :
      (b k q j : ℕ)
      → shape b ≡ some (k, q)
      → j < 512
      → is_valid (entry m.ram b j) ≡ true
      → entry (grown m page a i).ram b j ≡ entry m.ram b j
  grown-keeps b k q j hb hj v = elim (same_slot b j) [
    | inl (e, f) ↦ absurd (ground (arith, unset_here b j e f))
    | inr ne ↦ entry_old b k q j hb hj ne
  ]

  pub grown-entry :
      (is_valid (entry (grown m page a i).ram a i) ≡ true)
      × (pte2pa (entry (grown m page a i).ram a i) ≡ fresh)
  grown-entry =
      rw entry_at ((table_entry-fields page in_pool.0).0, (table_entry-fields page in_pool.0).1)
