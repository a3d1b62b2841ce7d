-- ===== src/Memory/Leaf.antt =====
-- Writing the entry of one virtual page: the tables stay a tree and the other pages keep their
-- translations.
use riem_os.Base.{
  ℕ, zero, suc, ◌+◌, ◌*◌, ◌%◌, ◌^◌, ◌/◌, ◌<◌, ◌≡◌, ◌≢◌, refl, ◌∙◌, sym, ap, ◌⊎◌, inl, inr, arith,
  true, false, none, some, List, mem, ◌==◌, Bool-cases,
}
use riem_os.Queue.Chain.{IsList}
use riem_os.Memory.{Mem, Walked, found, no_mem, walk_from}
use riem_os.Memory.Ram.{store64}
use riem_os.Memory.Ram.Words.{load64-store64_self}
use riem_os.Memory.Pte.{table_index, pte2pa, page2pa}
use riem_os.Memory.Tree.{Shape, entry, is_valid, IsTree, leaf_place}
use riem_os.Memory.Tree.Store.{table_index-lt, entry-store64_ne, ne_of_level}
use riem_os.Memory.Tree.Walks.{walk_from-table, walk_from-missing, next_table-valid}
use riem_os.Memory.Walk.{Reached, walk_from-Reached, next_table-missing, translation}

-- The number of a virtual page, as far as the tables look at it.
abbrev pub vpn : ℕ → ℕ
vpn va = va / 4096 % 2 ^ 27

-- The slot of a virtual page is given by its number.
pub place_of_vpn :
    (va vb : ℕ)
    → vpn va ≢ vpn vb
    → (leaf_place 2 0 va ≢ leaf_place 2 0 vb) ⊎ (table_index va 0 ≢ table_index vb 0)
place_of_vpn va vb ne = elim (Bool-cases (table_index va 0 == table_index vb 0)) [
  | inl e ↦ inl (ground arith)
  | inr e ↦ inr (ground arith)
]

-- Two memories whose upper tables agree walk to the same slot.
module _ (root : ℕ) (m m' : Mem) (shape : Shape) (free : List ℕ) (tree : IsTree root m shape free)
    (upper : (b k q j : ℕ)
      → shape b ≡ some (suc k, q)
      → j < 512
      → entry m'.ram b j ≡ entry m.ram b j) where
  walk_same :
      (l a p va : ℕ)
      → shape a ≡ some (l, p)
      → (s : ℕ) × (walk_from l false va a m ≡ found s m) × (walk_from l false va a m' ≡ found s m')
  walk_same zero a p va here = unfold walk_from in (a + 8 * table_index va 0, refl, refl)
  walk_same (suc l) a p va here =
      elim (Bool-cases (is_valid (entry m.ram a (table_index va (suc l))))) [
        | inl v ↦
            let (s, w, w') =
              walk_same l (pte2pa (entry m.ram a (table_index va (suc l))))
                (p * 512 + table_index va (suc l)) va
                (tree.child a l p (table_index va (suc l)) here (table_index-lt va (suc l)) v) in
            (
              s,
              walk_from-table l false va a m _ m (
                    next_table-valid root m shape a l p (table_index va (suc l)) here
                      (table_index-lt va (suc l)) false v)
                  ∙ w,
              walk_from-table l false va a m' _ m' (
                    next_table-valid root m' shape a l p (table_index va (suc l)) here
                      (table_index-lt va (suc l)) false (ap is_valid same ∙ v))
                  ∙ ap (λ u. walk_from l false va (pte2pa u) m') same
                  ∙ w',
            )
        | inr v ↦ (
          0,
          walk_from-missing l false va a m
              (next_table-missing (a + 8 * table_index va (suc l)) m v),
          walk_from-missing l false va a m'
              (next_table-missing (a + 8 * table_index va (suc l)) m' (ap is_valid same ∙ v)),
        )
      ]
    where
      same : entry m'.ram a (table_index va (suc l)) ≡ entry m.ram a (table_index va (suc l))
      same = upper a l p (table_index va (suc l)) here (table_index-lt va (suc l))

abbrev pub walked_slot : Walked → ℕ
walked_slot (found s m) = s
walked_slot (no_mem m) = 0

pub same_end : (s r : ℕ) (m : Mem) (w : Walked) → w ≡ found s m → w ≡ found r m → s ≡ r
same_end s r m w e f = ap walked_slot (sym e ∙ f)

-- A walk that ends at a slot of both.
one_table :
    (m m' : Mem) (w w' : Walked) (s t1 t2 i : ℕ)
    → w ≡ found s m
    → w' ≡ found s m'
    → w ≡ found (t1 + 8 * i) m
    → w' ≡ found (t2 + 8 * i) m'
    → t2 ≡ t1
one_table m m' w w' s t1 t2 i e e' f f' =
    omega (arith, same_end s (t1 + 8 * i) m w e f, same_end s (t2 + 8 * i) m' w' e' f')

-- The entry `i` of the lowest table at `t`, which stands at place `p`, is set to `v`.
module _ (root : ℕ) (m m' : Mem) (shape : Shape) (free : List ℕ) (tree : IsTree root m shape free)
    (t p i v : ℕ) (here : shape t ≡ some (0, p)) (small : i < 512) (word : v < 2 ^ 64)
    (stored : m'.ram ≡ store64 m.ram (t + 8 * i) v) where
  set_upper :
      (b k q j : ℕ) → shape b ≡ some (suc k, q) → j < 512 → entry m'.ram b j ≡ entry m.ram b j
  set_upper b k q j hb hj =
      ap (λ r. entry r b j) stored
      ∙ entry-store64_ne m.ram t i b j v (tree.placed t 0 p here).0 (tree.placed b (suc k) q hb).0
          small hj (inl (ne_of_level shape t b 0 (suc k) p q here hb (omega arith)))

  set_other :
      (b q j : ℕ)
      → shape b ≡ some (0, q)
      → j < 512
      → (t ≢ b) ⊎ (i ≢ j)
      → entry m'.ram b j ≡ entry m.ram b j
  set_other b q j hb hj ne =
      ap (λ r. entry r b j) stored
      ∙ entry-store64_ne m.ram t i b j v (tree.placed t 0 p here).0 (tree.placed b 0 q hb).0 small
          hj ne

  set_self : entry m'.ram t i ≡ v
  set_self = ap (λ r. entry r t i) stored ∙ load64-store64_self m.ram (t + 8 * i) v word

  same_entry : (b j : ℕ) → ((t ≡ b) × (i ≡ j)) ⊎ ((t ≢ b) ⊎ (i ≢ j))
  same_entry b j = elim (Bool-cases (t == b)) [
    | inl e ↦ elim (Bool-cases (i == j)) [
      | inl f ↦ inl (ground arith, ground arith)
      | inr f ↦ inr (inr (ground arith))
    ]
    | inr e ↦ inr (inl (ground arith))
  ]

  set_self_at : (b j : ℕ) → t ≡ b → i ≡ j → entry m'.ram b j ≡ v
  set_self_at b j e f = rw (← e, ← f) set_self

  -- The tables are a tree still, whatever the new entry maps.
  pub set-IsTree :
      (free' : List ℕ)
      → IsList m'.links free'
      → ((n : ℕ) → mem n free' ≡ true → (n < 0x8000) × (shape (page2pa n) ≡ none))
      → IsTree root m' shape free'
  set-IsTree free' links pages = record {
    rooted = tree.rooted;
    placed = tree.placed;
    child = λ b k q j hb hj h.
        let same = set_upper b k q j hb hj in
        ap (λ w. shape (pte2pa w)) same ∙ tree.child b k q j hb hj (ap is_valid (sym same) ∙ h);
    links = links;
    pages = pages;
  }

  -- What the walks read afterwards, once the tables are known to be a tree.
  module _ (free' : List ℕ) (tree' : IsTree root m' shape free') (va : ℕ)
      (place : p ≡ leaf_place 2 0 va) (index : i ≡ table_index va 0) where
    pub set-translation_other :
        (vb : ℕ) → vpn va ≢ vpn vb → translation m' root vb ≡ translation m root vb
    set-translation_other vb ne =
        compare_ends (walk_same root m m' shape free tree set_upper 2 root 0 vb tree.rooted)
          (walk_from-Reached root m shape free tree vb 2 root 0 tree.rooted)
          (walk_from-Reached root m' shape free' tree' vb 2 root 0 tree.rooted)
      where
        compare_ends :
            ((s : ℕ) × (walk_from 2 false vb root m ≡ found s m)
              × (walk_from 2 false vb root m' ≡ found s m'))
            → Reached m shape 2 root 0 vb (walk_from 2 false vb root m)
            → Reached m' shape 2 root 0 vb (walk_from 2 false vb root m')
            → translation m' root vb ≡ translation m root vb
        compare_ends (s, w, w') (inl (r, z)) (inl (r', z')) = unfold translation in z' ∙ sym z
        compare_ends (s, w, w') (inl (r, z)) (inr (t', r', l', z')) = absurd (
            omega (
              arith,
              same_end s 0 m _ w r,
              same_end s (t' + 8 * table_index vb 0) m' _ w' r',
              tree'.placed t' 0 (leaf_place 2 0 vb) l',
            ))
        compare_ends (s, w, w') (inr (t1, r, l, z)) (inl (r', z')) = absurd (
            omega (
              arith,
              same_end s 0 m' _ w' r',
              same_end s (t1 + 8 * table_index vb 0) m _ w r,
              tree.placed t1 0 (leaf_place 2 0 vb) l,
            ))
        compare_ends (s, w, w') (inr (t1, r, l, z)) (inr (t2, r', l', z')) =
            unfold translation in
            z'
            ∙ ap (λ b. entry m'.ram b (table_index vb 0))
                (one_table m m' _ _ s t1 t2 (table_index vb 0) w w' r r')
            ∙ set_other t1 (leaf_place 2 0 vb) (table_index vb 0) l (table_index-lt vb 0)
                (apart t1 l)
            ∙ sym z
          where
            apart :
                (b : ℕ) → shape b ≡ some (0, leaf_place 2 0 vb) → (t ≢ b) ⊎ (i ≢ table_index vb 0)
            apart b hb = elim (place_of_vpn va vb ne) [
              | inl q ↦ inl (λ e. q (sym place ∙ place_eq b hb e))
              | inr q ↦ inr (λ e. q (sym index ∙ e))
            ]
              where
                place_eq :
                    (b : ℕ) → shape b ≡ some (0, leaf_place 2 0 vb) → t ≡ b → p ≡ leaf_place 2 0 vb
                place_eq b hb e = ground (arith, ap shape e)

    pub set-translation_self :
        walk_from 2 false va root m ≡ found (t + 8 * i) m → translation m' root va ≡ v
    set-translation_self at =
        finish (walk_same root m m' shape free tree set_upper 2 root 0 va tree.rooted)
          (walk_from-Reached root m' shape free' tree' va 2 root 0 tree.rooted)
      where
        finish :
            ((s : ℕ) × (walk_from 2 false va root m ≡ found s m)
              × (walk_from 2 false va root m' ≡ found s m'))
            → Reached m' shape 2 root 0 va (walk_from 2 false va root m')
            → translation m' root va ≡ v
        finish (s, w, w') (inl (r', z')) = absurd (
            omega (
              arith,
              same_end s (t + 8 * i) m _ w at,
              same_end s 0 m' _ w' r',
              tree.placed t 0 p here,
            ))
        finish (s, w, w') (inr (t', r', l', z')) =
            unfold translation in
            z'
            ∙ set_self_at t' (table_index va 0)
                (omega (
                  arith,
                  same_end s (t + 8 * i) m _ w at,
                  same_end s (t' + 8 * table_index va 0) m' _ w' r',
                  index,
                ))
                index
