-- ===== src/Queue/Chain.antt =====
-- When the pointers of a list (include/queue.h) spell a sequence of elements.
use riem_os.Base.{
  ℕ, ◌≡◌, refl, ◌∙◌, true, false, none, some, List, [], ◌∷◌, ◌++◌, arith, ◌==◌, mem, IsDistinct,
  mem-append,
}
use riem_os.Queue.{Slot, nowhere, head, next_of, Lists, read_slot}

-- The pointer in slot `q` leads through `xs`, in order, to NULL, and each `le_prev` points back to
-- the slot before.
abbrev pub Chain : Lists → Slot → List ℕ → Type 0
Chain s q [] = read_slot s q ≡ none
Chain s q (x ∷ xs) = (read_slot s q ≡ some x) × (s.le_prev x ≡ q) × Chain s (next_of x) xs

-- The list headed by `s` holds exactly `xs`.
pub record IsList (s : Lists) (xs : List ℕ) : Type 0 where
  pub chain : Chain s head xs
  pub distinct : IsDistinct xs

-- `q` is no `le_next` of an element of `xs`.
abbrev pub IsOutside : Slot → List ℕ → Type 0
IsOutside nowhere xs = Unit
IsOutside head xs = Unit
IsOutside (next_of e) xs = mem e xs ≡ false

-- The links of `xs` are the same in two stores.
abbrev pub SameOn : Lists → Lists → List ℕ → Type 0
SameOn s t xs =
    (e : ℕ) → mem e xs ≡ true → (t.le_next e ≡ s.le_next e) × (t.le_prev e ≡ s.le_prev e)

pub frame :
    (s t : Lists) (q : Slot) (xs : List ℕ)
    → Chain s q xs
    → read_slot t q ≡ read_slot s q
    → SameOn s t xs
    → Chain t q xs
frame s t q [] c r same = r ∙ c
frame s t q (x ∷ xs) c r same =
    let here = same x (ground arith) in
    (r ∙ c.0, here.1 ∙ c.1, frame s t (next_of x) xs c.2 here.0 (λ e m. same e (ground arith)))

pub mem_ne : (a b : ℕ) (xs : List ℕ) → mem a xs ≡ true → mem b xs ≡ false → (b == a) ≡ false
mem_ne a b xs h k = ground (arith, ap_mem)
  where
    ap_mem : a ≡ b → mem a xs ≡ mem b xs
    ap_mem e = λ i. mem (e i) xs

-- Without element `x` in the middle, the other elements are still distinct.
pub IsDistinct-drop : (xs ys : List ℕ) (x : ℕ) → IsDistinct (xs ++ x ∷ ys) → IsDistinct (xs ++ ys)
IsDistinct-drop [] ys x d = d.1
IsDistinct-drop (a ∷ xs) ys x d =
    (ground (arith, mem-append a xs ys, mem-append a xs (x ∷ ys)), IsDistinct-drop xs ys x d.1)

-- The element in the middle occurs nowhere else.
pub not_mem_middle :
    (xs ys : List ℕ) (x : ℕ) → IsDistinct (xs ++ x ∷ ys) → (mem x xs ≡ false) × (mem x ys ≡ false)
not_mem_middle [] ys x d = (refl, d.0)
not_mem_middle (a ∷ xs) ys x d =
    ground (arith, mem-append a xs (x ∷ ys), not_mem_middle xs ys x d.1)

-- A new element in the middle keeps the elements distinct.
pub IsDistinct-insert :
    (xs ys : List ℕ) (x : ℕ)
    → IsDistinct (xs ++ ys)
    → mem x (xs ++ ys) ≡ false
    → IsDistinct (xs ++ x ∷ ys)
IsDistinct-insert [] ys x d out = (out, d)
IsDistinct-insert (a ∷ xs) ys x d out = (
  ground (arith, mem-append a xs ys, mem-append a xs (x ∷ ys)),
  IsDistinct-insert xs ys x d.1 (ground arith),
)
