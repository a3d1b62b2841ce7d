-- ===== src/Memory/User.antt =====
-- `vir2phy` of kernel/memory/memory.c, which the kernel uses on the addresses of user programs.
use riem_os.Base.{
  ℕ, ◌+◌, ◌*◌, ◌%◌, ◌^◌, ◌≡◌, refl, ◌∙◌, sym, ap, arith, Bool, Bool-cases, true, false, not, ◌&&◌,
  Option, none, some, List, inl, inr, ltb, leb, ◌==◌, if◌then◌else◌,
}
use riem_os.Memory.{Mem, Walked, found, no_mem, page_walk}
use riem_os.Memory.Ram.{load64}
use riem_os.Memory.Pte.{has_bit, pte_v, pte_u, pte_c, pte2pa, table_index}
use riem_os.Memory.Tree.{Shape, IsTree, is_valid, leaf_place}
use riem_os.Memory.Walk.{Reached, walk_from-Reached, translation}

abbrev pub max_va : ℕ
max_va = 2 ^ 38

-- What `vir2phy` does behind its walk: the physical address, 0 if there is none, and what it stores
-- through `cow`, `none` where it leaves that alone. A walk that adds no tables does not fail.
abbrev pub read_user : ℕ → Walked → ℕ × Option Bool
read_user va (no_mem m) = (0, none)
read_user va (found pte m) =
    if pte == 0
    then (0, none)
    else if not (has_bit pte_v (load64 m.ram pte))
    then (0, none)
    else if not (has_bit pte_u (load64 m.ram pte))
    then (0, none)
    else (pte2pa (load64 m.ram pte) + va % 4096, some (has_bit pte_c (load64 m.ram pte)))

unfoldable pub vir2phy : Mem → ℕ → ℕ → ℕ × Option Bool
vir2phy m pagetable va =
    if leb max_va va then (0, none) else read_user va (page_walk m pagetable va false)

-- The answer that the translation of an address calls for.
abbrev pub user_address : ℕ → ℕ → ℕ × Option Bool
user_address va w =
    if ltb va max_va && is_valid w && has_bit pte_u w
    then (pte2pa w + va % 4096, some (has_bit pte_c w))
    else (0, none)

read_user-user_address :
    (m : Mem) (va pte : ℕ)
    → ltb va max_va ≡ true
    → (pte == 0) ≡ false
    → read_user va (found pte m) ≡ user_address va (load64 m.ram pte)
read_user-user_address m va pte low set = elim (Bool-cases (has_bit pte_v (load64 m.ram pte))) [
  | inr invalid ↦ rw set (rw low (rw invalid refl))
  | inl valid ↦ elim (Bool-cases (has_bit pte_u (load64 m.ram pte))) [
    | inr kernel ↦ rw set (rw low (rw valid (rw kernel refl)))
    | inl user ↦ rw set (rw low (rw valid (rw user refl)))
  ]
]

read_user-Reached :
    (root : ℕ) (m : Mem) (shape : Shape) (free : List ℕ) (va : ℕ) (w : Walked)
    → IsTree root m shape free
    → ltb va max_va ≡ true
    → Reached m shape 2 root 0 va w
    → read_user va w ≡ user_address va (translation m root va)
read_user-Reached root m shape free va w tree low (inl (e, z)) =
    ap (read_user va) e ∙ rw low refl ∙ ap (user_address va) (sym none_there)
  where
    none_there : translation m root va ≡ 0
    none_there = unfold translation in z
read_user-Reached root m shape free va w tree low (inr (t, e, leaf, z)) =
    ap (read_user va) e
    ∙ read_user-user_address m va (t + 8 * table_index va 0) low
        (ground (arith, tree.placed t 0 (leaf_place 2 0 va) leaf))
    ∙ ap (user_address va) (sym at_entry)
  where
    at_entry : translation m root va ≡ load64 m.ram (t + 8 * table_index va 0)
    at_entry = unfold translation in z

-- Where the page tables form a tree, `vir2phy` gives the physical address of a user address,
-- offset included, and whether its page is copied on write, exactly if the address is below MAXVA
-- and its translation has PTE_V and PTE_U.
pub vir2phy-user_address :
    (root : ℕ) (m : Mem) (shape : Shape) (free : List ℕ) (va : ℕ)
    → IsTree root m shape free
    → vir2phy m root va ≡ user_address va (translation m root va)
unfolding vir2phy page_walk
vir2phy-user_address root m shape free va tree = elim (Bool-cases (ltb va max_va)) [
  | inl low ↦ rw (below low) (
      read_user-Reached root m shape free va (page_walk m root va false) tree low
        (walk_from-Reached root m shape free tree va 2 root 0 tree.rooted))
  | inr high ↦ rw (above high) (rw high refl)
]
  where
    below : ltb va max_va ≡ true → leb max_va va ≡ false
    below h = ground (arith, h)

    above : ltb va max_va ≡ false → leb max_va va ≡ true
    above h = ground (arith, h)
