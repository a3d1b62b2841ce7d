-- ===== src/Memory/Tree/Walks.antt =====
-- `page_walk` with `create` over a tree of tables.
use riem_os.Base.{
  ℕ, zero, suc, ◌+◌, ◌*◌, ◌<◌, ◌≡◌, refl, ◌∙◌, ap, ◌⊎◌, inl, inr, arith, Bool, true, false, some,
  List, [], ◌∷◌, mem, Bool-cases,
}
use riem_os.Memory.{
  Mem, Next, table, missing, exhausted, Walked, found, no_mem, add_table, page_alloc, next_table,
  walk_from,
}
use riem_os.Memory.Pages.{page_alloc-cons, page_alloc-nil}
use riem_os.Memory.Pte.{table_index, pte2pa}
use riem_os.Memory.Tree.{Shape, entry, is_valid, IsTree, read_from, leaf_place}
use riem_os.Memory.Tree.Store.{table_index-lt}
use riem_os.Memory.Tree.Grow.{
  grown, grown_shape, grown-IsTree, shape_old, shape_new, grown-reads, grown-keeps, grown-entry,
  read_from-valid,
}

-- The memory may have gained tables, out of the free pages; what it translates is the same.
pub record Grown (root : ℕ) (m : Mem) (shape : Shape) (free : List ℕ) (m' : Mem) (shape' : Shape)
    (free' : List ℕ) : Type 0 where
  pub tree : IsTree root m' shape' free'
  pub extends : (b k q : ℕ) → shape b ≡ some (k, q) → shape' b ≡ some (k, q)
  pub keeps :
      (b k q j : ℕ)
      → shape b ≡ some (k, q)
      → j < 512
      → is_valid (entry m.ram b j) ≡ true
      → entry m'.ram b j ≡ entry m.ram b j
  pub reads :
      (k b q va : ℕ) → shape b ≡ some (k, q) → read_from k m'.ram va b ≡ read_from k m.ram va b
  pub fewer : (n : ℕ) → mem n free ≡ false → mem n free' ≡ false

module _ (root : ℕ) where
  Grown-refl :
      (m : Mem) (shape : Shape) (free : List ℕ)
      → IsTree root m shape free
      → Grown root m shape free m shape free
  Grown-refl m shape free t = record {
    tree = t;
    extends = λ b k q h. h;
    keeps = λ b k q j h hj v. refl;
    reads = λ k b q va h. refl;
    fewer = λ n h. h;
  }

  Grown-trans :
      (m m1 m2 : Mem) (shape shape1 shape2 : Shape) (free free1 free2 : List ℕ)
      → Grown root m shape free m1 shape1 free1
      → Grown root m1 shape1 free1 m2 shape2 free2
      → Grown root m shape free m2 shape2 free2
  Grown-trans m m1 m2 shape shape1 shape2 free free1 free2 g h = record {
    tree = h.tree;
    extends = λ b k q e. h.extends b k q (g.extends b k q e);
    keeps = λ b k q j e hj v.
        h.keeps b k q j (g.extends b k q e) hj (ap is_valid (g.keeps b k q j e hj v) ∙ v)
        ∙ g.keeps b k q j e hj v;
    reads = λ k b q va e. h.reads k b q va (g.extends b k q e) ∙ g.reads k b q va e;
    fewer = λ n e. h.fewer n (g.fewer n e);
  }

-- The outcome of one round of the loop at entry `i` of the table at `a`.
abbrev pub Stepped : ℕ → Mem → Shape → List ℕ → ℕ → ℕ → ℕ → ℕ → Next → Type 0
Stepped root m shape free a l p i next =
    ((next ≡ exhausted) × (free ≡ []))
    ⊎ ((t : ℕ) × (m' : Mem) × (shape' : Shape) × (free' : List ℕ) × (next ≡ table t m')
        × Grown root m shape free m' shape' free'
        × (shape' t ≡ some (l, p * 512 + i))
        × (is_valid (entry m'.ram a i) ≡ true)
        × (pte2pa (entry m'.ram a i) ≡ t))

module _ (root : ℕ) (m : Mem) (shape : Shape) (a l p i : ℕ) (here : shape a ≡ some (suc l, p))
    (small : i < 512) where
  pub next_table-valid :
      (create : Bool)
      → is_valid (entry m.ram a i) ≡ true
      → next_table create (a + 8 * i) m ≡ table (pte2pa (entry m.ram a i)) m
  unfolding next_table
  next_table-valid create v = rw v refl

  next_table-invalid :
      is_valid (entry m.ram a i) ≡ false
      → next_table true (a + 8 * i) m ≡ add_table (a + 8 * i) (page_alloc m)
  unfolding next_table
  next_table-invalid v = rw v refl

  next_table_fresh :
      (page : ℕ) (free : List ℕ)
      → IsTree root m shape (page ∷ free)
      → is_valid (entry m.ram a i) ≡ false
      → Stepped root m shape (page ∷ free) a l p i (next_table true (a + 8 * i) m)
  next_table_fresh page free tree v =
      let added = grown-entry root m shape page free tree a l p i here small v in
      inr (
        pte2pa (entry (grown m page a i).ram a i),
        grown m page a i,
        grown_shape shape page l p i,
        free,
        next_table-invalid v
            ∙ ap (add_table (a + 8 * i)) (page_alloc-cons m page free tree.links).0,
        record {
          tree = grown-IsTree root m shape page free tree a l p i here small v;
          extends = shape_old root m shape page free tree a l p i here small v;
          keeps = grown-keeps root m shape page free tree a l p i here small v;
          reads = grown-reads root m shape page free tree a l p i here small v;
          fewer = λ n h. ground arith;
        },
        ap (grown_shape shape page l p i) added.1
            ∙ shape_new root m shape page free tree a l p i here small v,
        added.0,
        refl,
      )

  next_table_lem :
      (free : List ℕ)
      → IsTree root m shape free
      → Stepped root m shape free a l p i (next_table true (a + 8 * i) m)
  next_table_lem free tree = elim (Bool-cases (is_valid (entry m.ram a i))) [
    | inl v ↦ inr (
      pte2pa (entry m.ram a i),
      m,
      shape,
      free,
      next_table-valid true v,
      Grown-refl root m shape free tree,
      tree.child a l p i here small v,
      v,
      refl,
    )
    | inr v ↦ go free tree v
  ]
    where
      go :
          (free : List ℕ)
          → IsTree root m shape free
          → is_valid (entry m.ram a i) ≡ false
          → Stepped root m shape free a l p i (next_table true (a + 8 * i) m)
      go [] tree v =
          inl
            (next_table-invalid v ∙ ap (add_table (a + 8 * i)) (page_alloc-nil m tree.links), refl)
      go (page ∷ rest) tree v = next_table_fresh page rest tree v

module _ (level : ℕ) (create : Bool) (va addr : ℕ) (m : Mem) where
  pub walk_from-table :
      (t : ℕ) (m' : Mem)
      → next_table create (addr + 8 * table_index va (suc level)) m ≡ table t m'
      → walk_from (suc level) create va addr m ≡ walk_from level create va t m'
  unfolding walk_from
  walk_from-table t m' e = rw (e, walk_from) refl

  pub walk_from-missing :
      next_table create (addr + 8 * table_index va (suc level)) m ≡ missing
      → walk_from (suc level) create va addr m ≡ found 0 m
  unfolding walk_from
  walk_from-missing e = rw (e, walk_from) refl

  walk_from-exhausted :
      next_table create (addr + 8 * table_index va (suc level)) m ≡ exhausted
      → walk_from (suc level) create va addr m ≡ no_mem m
  unfolding walk_from
  walk_from-exhausted e = rw (e, walk_from) refl

-- Where a walk with `create` from the table at `a` ends: at the slot of `va` in a table of level 0,
-- or for want of a free page.
abbrev pub WalkedTo : ℕ → Mem → Shape → List ℕ → ℕ → ℕ → ℕ → ℕ → Walked → Type 0
WalkedTo root m shape free l a p va w =
    (m' : Mem) × (shape' : Shape) × (free' : List ℕ) × Grown root m shape free m' shape' free'
    × (((w ≡ no_mem m') × (free' ≡ []))
        ⊎ ((t : ℕ) × (w ≡ found (t + 8 * table_index va 0) m')
            × (shape' t ≡ some (0, leaf_place l p va))
            × (read_from l m'.ram va a ≡ entry m'.ram t (table_index va 0))
            × (walk_from l false va a m' ≡ found (t + 8 * table_index va 0) m')))

module _ (root : ℕ) (va : ℕ) where
  -- A walk goes on behind a round that found or made a table.
  walk_behind :
      (l : ℕ) (m m1 : Mem) (shape shape1 : Shape) (free free1 : List ℕ) (a p t : ℕ)
      → shape a ≡ some (suc l, p)
      → next_table true (a + 8 * table_index va (suc l)) m ≡ table t m1
      → Grown root m shape free m1 shape1 free1
      → is_valid (entry m1.ram a (table_index va (suc l))) ≡ true
      → pte2pa (entry m1.ram a (table_index va (suc l))) ≡ t
      → WalkedTo root m1 shape1 free1 l t
          (p * 512 + table_index va (suc l))
          va
          (walk_from l true va t m1)
      → WalkedTo root m shape free (suc l) a p va (walk_from (suc l) true va a m)
  walk_behind l m m1 shape shape1 free free1 a p t here e g v at
        (m2, shape2, free2, h, inl (w, none_left)) =
      (
        m2,
        shape2,
        free2,
        Grown-trans root m m1 m2 shape shape1 shape2 free free1 free2 g h,
        inl (walk_from-table l true va a m t m1 e ∙ w, none_left),
      )
  walk_behind l m m1 shape shape1 free free1 a p t here e g v at
        (m2, shape2, free2, h, inr (u, w, leaf, same, again)) =
      (
        m2,
        shape2,
        free2,
        Grown-trans root m m1 m2 shape shape1 shape2 free free1 free2 g h,
        inr (
          u,
          walk_from-table l true va a m t m1 e ∙ w,
          leaf,
          read_from-valid l m2.ram va a (entry m1.ram a (table_index va (suc l))) kept v
              ∙ ap (read_from l m2.ram va) at
              ∙ same,
          walk_from-table l false va a m2 _ m2 (
                next_table-valid root m2 shape2 a l p (table_index va (suc l))
                  (h.extends a (suc l) p (g.extends a (suc l) p here)) (table_index-lt va (suc l))
                  false (ap is_valid kept ∙ v))
              ∙ ap (λ x. walk_from l false va (pte2pa x) m2) kept
              ∙ ap (λ x. walk_from l false va x m2) at
              ∙ again,
        ),
      )
    where
      kept : entry m2.ram a (table_index va (suc l)) ≡ entry m1.ram a (table_index va (suc l))
      kept =
          h.keeps a (suc l) p (table_index va (suc l)) (g.extends a (suc l) p here)
            (table_index-lt va (suc l)) v

  -- With `create` the walk reaches the slot of `va` unless the free pages run out, and on the way
  -- it changes no translation.
  pub walk_from-WalkedTo :
      (l : ℕ) (m : Mem) (shape : Shape) (free : List ℕ) (a p : ℕ)
      → IsTree root m shape free
      → shape a ≡ some (l, p)
      → WalkedTo root m shape free l a p va (walk_from l true va a m)
  walk_from-WalkedTo zero m shape free a p tree here =
      unfold walk_from read_from in
      (m, shape, free, Grown-refl root m shape free tree, inr (a, refl, here, refl, refl))
  walk_from-WalkedTo (suc l) m shape free a p tree here =
      elim (next_table_lem root m shape a l p (table_index va (suc l)) here
        (table_index-lt va (suc l)) free tree) [
          | inl (e, none_left) ↦ (
            m,
            shape,
            free,
            Grown-refl root m shape free tree,
            inl (walk_from-exhausted l true va a m e, none_left),
          )
          | inr (t, m1, shape1, free1, e, g, below, v, at) ↦
              walk_behind l m m1 shape shape1 free free1 a p t here e g v at (
                walk_from-WalkedTo l m1 shape1 free1 t (p * 512 + table_index va (suc l)) g.tree
                  below)
        ]
