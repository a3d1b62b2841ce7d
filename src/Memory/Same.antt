-- ===== src/Memory/Same.antt =====
-- Memories that agree on the page tables: the tables form a tree in both, and give the same translations.
use riem_os.Base.{
  ℕ, zero, suc, ◌+◌, ◌*◌, ◌<◌, ◌≤◌, ◌≡◌, refl, ◌∙◌, sym, ap, arith, Bool-cases, inl, inr, ◌⊎◌, some,
  List,
}
use riem_os.Memory.{Mem}
use riem_os.Memory.Ram.{load32, load64}
use riem_os.Memory.Pte.{table_index, pte2pa}
use riem_os.Memory.Tree.{Shape, entry, is_valid, IsTree, read_from}
use riem_os.Memory.Tree.Store.{table_index-lt}
use riem_os.Memory.Tree.Grow.{read_from-valid, read_from-invalid}
use riem_os.Memory.Walk.{translation}

-- The tables of `shape` hold the same entries.
abbrev pub SameTables : Shape → Mem → Mem → Type 0
SameTables shape m m' =
    (b k q j : ℕ) → shape b ≡ some (k, q) → j < 512 → entry m'.ram b j ≡ entry m.ram b j

module _ (root : ℕ) (m m' : Mem) (shape : Shape) (free : List ℕ) (tree : IsTree root m shape free)
    (same : SameTables shape m m') where
  same_reads :
      (l a p va : ℕ) → shape a ≡ some (l, p) → read_from l m'.ram va a ≡ read_from l m.ram va a
  same_reads zero a p va h =
      unfold read_from in same a 0 p (table_index va 0) h (table_index-lt va 0)
  same_reads (suc l) a p va h =
      elim (Bool-cases (is_valid (entry m.ram a (table_index va (suc l))))) [
        | inl v ↦
            read_from-valid l m'.ram va a (entry m.ram a (table_index va (suc l))) here v
            ∙ same_reads l (pte2pa (entry m.ram a (table_index va (suc l))))
                (p * 512 + table_index va (suc l)) va
                (tree.child a l p (table_index va (suc l)) h (table_index-lt va (suc l)) v)
            ∙ sym (read_from-valid l m.ram va a (entry m.ram a (table_index va (suc l))) refl v)
        | inr v ↦
            read_from-invalid l m'.ram va a (entry m.ram a (table_index va (suc l))) here v
            ∙ sym (read_from-invalid l m.ram va a (entry m.ram a (table_index va (suc l))) refl v)
      ]
    where
      here : entry m'.ram a (table_index va (suc l)) ≡ entry m.ram a (table_index va (suc l))
      here = same a (suc l) p (table_index va (suc l)) h (table_index-lt va (suc l))

  pub same_tables-translation : (va : ℕ) → translation m' root va ≡ translation m root va
  same_tables-translation va = unfold translation in same_reads 2 root 0 va tree.rooted

  pub same_tables-IsTree : m'.links ≡ m.links → IsTree root m' shape free
  same_tables-IsTree e = record {
    rooted = tree.rooted;
    placed = tree.placed;
    child = λ a l p i h k v.
        rw (same a (suc l) p i h k) (tree.child a l p i h k (rw (same a (suc l) p i h k) at v));
    links = rw e tree.links;
    pages = tree.pages;
  }

-- A block outside the tables.
abbrev pub IsBeside : Shape → ℕ → ℕ → Type 0
IsBeside shape at n = (b k q : ℕ) → shape b ≡ some (k, q) → (at + n ≤ b) ⊎ (b + 4096 ≤ at)

pub same_outside-SameTables :
    (shape : Shape) (m m' : Mem) (at n : ℕ)
    → IsBeside shape at n
    → ((q : ℕ) → (q < at) ⊎ (at + n ≤ q) → m'.ram q ≡ m.ram q)
    → SameTables shape m m'
unfolding load64 load32
same_outside-SameTables shape m m' at n beside outside b k q j hb hj = elim (beside b k q hb) [
  | inl below ↦
      same (b + 8 * j) (λ i hi. outside (b + 8 * j + i) (inr (ground (arith, below, hi, hj))))
  | inr above ↦
      same (b + 8 * j) (λ i hi. outside (b + 8 * j + i) (inl (ground (arith, above, hi, hj))))
]
  where
    same :
        (a : ℕ)
        → ((i : ℕ) → i < 8 → m'.ram (a + i) ≡ m.ram (a + i))
        → load64 m'.ram a ≡ load64 m.ram a
    same a h = ground (
      arith,
      ap m'.ram (four 1),
      ap m'.ram (four 2),
      ap m'.ram (four 3),
      ap m.ram (four 1),
      ap m.ram (four 2),
      ap m.ram (four 3),
      h 0,
      h 1,
      h 2,
      h 3,
      h 4,
      h 5,
      h 6,
      h 7,
    )
      where
        four : (i : ℕ) → a + 4 + i ≡ a + (4 + i)
        four i = omega arith
