-- ===== src/Memory/Walk.antt =====
-- `page_walk` without `create`, and `page_lookup`: they read the tables and change nothing.
use riem_os.Base.{
  ℕ, zero, suc, ◌+◌, ◌*◌, ◌≡◌, refl, ◌∙◌, ◌⊎◌, inl, inr, true, false, some, List, Bool-cases,
}
use riem_os.Memory.{Mem, missing, Walked, found, next_table, walk_from}
use riem_os.Memory.Ram.{load64}
use riem_os.Memory.Pte.{table_index, pte2pa}
use riem_os.Memory.Tree.{Shape, entry, is_valid, IsTree, read_from, leaf_place}
use riem_os.Memory.Tree.Store.{table_index-lt}
use riem_os.Memory.Tree.Walks.{walk_from-table, walk_from-missing, next_table-valid}
use riem_os.Memory.Tree.Grow.{read_from-valid, read_from-invalid}

-- A walk that reads ends at the slot of `va` in a table of level 0, or nowhere, where the
-- translation is then 0.
abbrev pub Reached : Mem → Shape → ℕ → ℕ → ℕ → ℕ → Walked → Type 0
Reached m shape l a p va w =
    ((w ≡ found 0 m) × (read_from l m.ram va a ≡ 0))
    ⊎ ((t : ℕ) × (w ≡ found (t + 8 * table_index va 0) m)
        × (shape t ≡ some (0, leaf_place l p va))
        × (read_from l m.ram va a ≡ entry m.ram t (table_index va 0)))

pub next_table-missing :
    (slot : ℕ) (m : Mem) → is_valid (load64 m.ram slot) ≡ false → next_table false slot m ≡ missing
unfolding next_table
next_table-missing slot m v = rw v refl

module _ (root : ℕ) (m : Mem) (shape : Shape) (free : List ℕ) (tree : IsTree root m shape free)
    (va : ℕ) where
  pub walk_from-Reached :
      (l a p : ℕ) → shape a ≡ some (l, p) → Reached m shape l a p va (walk_from l false va a m)
  walk_from-Reached zero a p here = unfold walk_from read_from in inr (a, refl, here, refl)
  walk_from-Reached (suc l) a p here =
      elim (Bool-cases (is_valid (entry m.ram a (table_index va (suc l))))) [
        | inl v ↦ behind v (
            walk_from-Reached l (pte2pa (entry m.ram a (table_index va (suc l))))
              (p * 512 + table_index va (suc l))
              (tree.child a l p (table_index va (suc l)) here (table_index-lt va (suc l)) v))
        | inr v ↦ inl (
          walk_from-missing l false va a m
              (next_table-missing (a + 8 * table_index va (suc l)) m v),
          read_from-invalid l m.ram va a (entry m.ram a (table_index va (suc l))) refl v,
        )
      ]
    where
      behind :
          is_valid (entry m.ram a (table_index va (suc l))) ≡ true
          → Reached m shape l
              (pte2pa (entry m.ram a (table_index va (suc l))))
              (p * 512 + table_index va (suc l))
              va
              (walk_from l false va (pte2pa (entry m.ram a (table_index va (suc l)))) m)
          → Reached m shape (suc l) a p va (walk_from (suc l) false va a m)
      behind v (inl (w, z)) = inl (
        walk_from-table l false va a m _ m (
              next_table-valid root m shape a l p (table_index va (suc l)) here
                (table_index-lt va (suc l)) false v)
            ∙ w,
        read_from-valid l m.ram va a (entry m.ram a (table_index va (suc l))) refl v ∙ z,
      )
      behind v (inr (t, w, leaf, z)) = inr (
        t,
        walk_from-table l false va a m _ m (
              next_table-valid root m shape a l p (table_index va (suc l)) here
                (table_index-lt va (suc l)) false v)
            ∙ w,
        leaf,
        read_from-valid l m.ram va a (entry m.ram a (table_index va (suc l))) refl v ∙ z,
      )

-- The entry that translates `va`, 0 if there is none: the abstract view of an address space.
unfoldable pub translation : Mem → ℕ → ℕ → ℕ
translation m root va = read_from 2 m.ram va root
