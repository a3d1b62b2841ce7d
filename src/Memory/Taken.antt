-- ===== src/Memory/Taken.antt =====
-- `page_alloc` of kernel/memory/memory.c beside page tables: the tables stay a tree, and every
-- translation stays.
use riem_os.Base.{ℕ, suc, ◌<◌, ◌≡◌, sym, arith, none, some, List, ◌∷◌}
use riem_os.Memory.{Mem}
use riem_os.Memory.Pte.{page2pa}
use riem_os.Memory.Pages.{taken, page_alloc-cons}
use riem_os.Memory.Tree.{Shape, entry, IsTree}
use riem_os.Memory.Tree.Store.{entry-bzero_ne, ne_of_none}
use riem_os.Memory.Walk.{translation}
use riem_os.Memory.Same.{same_tables-translation}

module _ (root : ℕ) (m : Mem) (shape : Shape) (page : ℕ) (free : List ℕ)
    (tree : IsTree root m shape (page ∷ free)) where
  in_pool : (page < 0x8000) × (shape (page2pa page) ≡ none)
  in_pool = tree.pages page (ground arith)

  taken-entry :
      (b k q j : ℕ)
      → shape b ≡ some (k, q)
      → j < 512
      → entry (taken m page).ram b j ≡ entry m.ram b j
  taken-entry b k q j hb hj =
      entry-bzero_ne m.ram (page2pa page) b j (omega (arith, in_pool.0)) (tree.placed b k q hb).0 hj
        (λ e. ne_of_none shape b (page2pa page) k q hb in_pool.1 (sym e))

  pub taken-IsTree : IsTree root (taken m page) shape free
  taken-IsTree = record {
    rooted = tree.rooted;
    placed = tree.placed;
    child = λ a l p i h k v.
        rw (taken-entry a (suc l) p i h k)
          (tree.child a l p i h k (rw (taken-entry a (suc l) p i h k) at v));
    links = (page_alloc-cons m page free tree.links).1;
    pages = λ n h. tree.pages n (ground arith);
  }

  pub taken-translation : (va : ℕ) → translation (taken m page) root va ≡ translation m root va
  taken-translation =
      same_tables-translation root m (taken m page) shape (page ∷ free) tree taken-entry
