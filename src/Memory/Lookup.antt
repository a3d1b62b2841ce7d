-- ===== src/Memory/Lookup.antt =====
-- `page_lookup` of kernel/memory/memory.c against the translation that the tables give.
use riem_os.Base.{
  ℕ, ◌+◌, ◌*◌, ◌≡◌, ◌≢◌, refl, ◌∙◌, sym, ap, ◌⊎◌, inl, inr, arith, true, false, Option, none, some,
  List, if◌then◌else◌, Bool-cases, ==_ne,
}
use riem_os.Memory.{Mem, found, walk_from, page_walk, page_lookup, lookup_at}
use riem_os.Memory.Ram.{load64}
use riem_os.Memory.Pte.{table_index, pte2pa}
use riem_os.Memory.Tree.{Shape, entry, is_valid, IsTree, read_from, leaf_place}
use riem_os.Memory.Walk.{Reached, walk_from-Reached, translation}
use riem_os.Memory.Leaf.{vpn}

-- What `page_lookup` returns and stores, and where the entry stands.
abbrev pub LooksUp : ℕ → Mem → Shape → ℕ → ℕ × Option ℕ → Type 0
LooksUp root m shape va r =
    ((is_valid (translation m root va) ≡ false) × (r ≡ (0, none)))
    ⊎ ((t : ℕ) × (is_valid (translation m root va) ≡ true)
        × (r ≡ (pte2pa (translation m root va), some (t + 8 * table_index va 0)))
        × (shape t ≡ some (0, leaf_place 2 0 va))
        × (entry m.ram t (table_index va 0) ≡ translation m root va)
        × (walk_from 2 false va root m ≡ found (t + 8 * table_index va 0) m))

module _ (root : ℕ) (m : Mem) (va : ℕ) where
  page_lookup-found :
      (p : ℕ) → walk_from 2 false va root m ≡ found p m → page_lookup m root va ≡ lookup_at m.ram p
  unfolding page_lookup page_walk
  page_lookup-found p e = rw (e, page_lookup) refl

  lookup_at-valid :
      (p : ℕ)
      → p ≢ 0
      → is_valid (load64 m.ram p) ≡ true
      → lookup_at m.ram p ≡ (pte2pa (load64 m.ram p), some p)
  lookup_at-valid p ne v = rw (==_ne p 0 ne, v) refl

  lookup_at-invalid : (p : ℕ) → is_valid (load64 m.ram p) ≡ false → lookup_at m.ram p ≡ (0, none)
  lookup_at-invalid p v = ground arith

  -- Where the page tables form a tree, `page_lookup` returns the page of the translation and
  -- points `pte` at its entry, or returns 0 and leaves `pte` alone where the page has no valid
  -- translation.
  pub page_lookup-LooksUp :
      (shape : Shape) (free : List ℕ)
      → IsTree root m shape free
      → LooksUp root m shape va (page_lookup m root va)
  page_lookup-LooksUp shape free tree =
      go (walk_from-Reached root m shape free tree va 2 root 0 tree.rooted)
    where
      go :
          Reached m shape 2 root 0 va (walk_from 2 false va root m)
          → LooksUp root m shape va (page_lookup m root va)
      go (inl (w, z)) = inl (unfold translation in rw z refl, page_lookup-found 0 w)
      go (inr (t, w, leaf, z)) = elim (Bool-cases (is_valid (entry m.ram t (table_index va 0)))) [
        | inl v ↦
            unfold translation in
            inr (
              t,
              ap is_valid z ∙ v,
              page_lookup-found (t + 8 * table_index va 0) w
                  ∙ lookup_at-valid (t + 8 * table_index va 0)
                      (omega (arith, tree.placed t 0 (leaf_place 2 0 va) leaf)) v
                  ∙ ap (λ e. (pte2pa e, some (t + 8 * table_index va 0))) (sym z),
              leaf,
              sym z,
              w,
            )
        | inr v ↦ inl (
          unfold translation in ap is_valid z ∙ v,
          page_lookup-found (t + 8 * table_index va 0) w
              ∙ lookup_at-invalid (t + 8 * table_index va 0) v,
        )
      ]

-- The translation of a page does not depend on the offset.
pub translation-vpn :
    (m : Mem) (root va vb : ℕ) → vpn va ≡ vpn vb → translation m root va ≡ translation m root vb
unfolding translation read_from
translation-vpn m root va vb e = λ i. same (i2 i) (i1 i) (i0 i)
  where
    i2 : table_index va 2 ≡ table_index vb 2
    i2 = omega arith

    i1 : table_index va 1 ≡ table_index vb 1
    i1 = omega arith

    i0 : table_index va 0 ≡ table_index vb 0
    i0 = omega arith

    same : ℕ → ℕ → ℕ → ℕ
    same x y z =
        if is_valid (entry m.ram root x)
        then (if is_valid (entry m.ram (pte2pa (entry m.ram root x)) y)
            then entry m.ram (pte2pa (entry m.ram (pte2pa (entry m.ram root x)) y)) z
            else 0)
        else 0
