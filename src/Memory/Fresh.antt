-- ===== src/Memory/Fresh.antt =====
-- `page_insert` of kernel/memory/memory.c on a page that `page_alloc` has just handed out.
use riem_os.Base.{ℕ, ◌+◌, ◌^◌, ◌<◌, ◌≡◌, ◌∙◌, subst, ap, arith, false, List, ◌∷◌, bit_or}
use riem_os.Memory.{Mem, page_insert}
use riem_os.Memory.Pte.{mask_a, mask_d, page2pa, down_align, leaf_entry}
use riem_os.Memory.Pages.{taken}
use riem_os.Memory.Tree.{Shape, IsTree, is_valid}
use riem_os.Memory.Walk.{translation}
use riem_os.Memory.Taken.{taken-IsTree, taken-translation}
use riem_os.Memory.Insert.{Inserted, page_insert-Inserted}

pub fresh-Inserted :
    (stale root : ℕ) (m : Mem) (shape : Shape) (page : ℕ) (rest : List ℕ) (va perm : ℕ)
    → IsTree root m shape (page ∷ rest)
    → perm < 2 ^ 10
    → is_valid (translation m root va) ≡ false
    → Inserted root
        (taken m page)
        rest
        va
        (leaf_entry (page2pa page) (bit_or perm (mask_a + mask_d)))
        (page_insert stale (taken m page) root va (page2pa page) perm)
fresh-Inserted stale root m shape page rest va perm tree few unset =
    subst
      (λ a.
        Inserted root (taken m page) rest va (leaf_entry a (bit_or perm (mask_a + mask_d)))
          (page_insert stale (taken m page) root va (page2pa page) perm))
      aligned
      (page_insert-Inserted stale root (taken m page) shape rest va (page2pa page) perm
        (taken-IsTree root m shape page rest tree) (omega (arith, in_pool)) few
        (ap is_valid (taken-translation root m shape page rest tree va) ∙ unset))
  where
    in_pool : page < 0x8000
    in_pool = (tree.pages page (ground arith)).0

    aligned : down_align (page2pa page) ≡ page2pa page
    aligned = omega (arith, in_pool)
