-- ===== src/Queue/Splice.antt =====
-- Changing a list of include/queue.h behind a given element: what stands before is kept.
use riem_os.Base.{
  ℕ, ◌≡◌, ◌≢◌, refl, ◌∙◌, Bool, true, false, some, List, [], ◌∷◌, ◌++◌, arith, ◌==◌, mem,
  IsDistinct, mem-append,
}
use riem_os.Queue.{Slot, nowhere, head, next_of, Lists, read_slot}
use riem_os.Queue.Chain.{Chain, IsOutside, mem_ne}

abbrev pub same_slot : Slot → Slot → Bool
same_slot nowhere nowhere = true
same_slot head head = true
same_slot (next_of a) (next_of b) = a == b
same_slot _ _ = false

-- The slot behind the elements `xs` of a list that begins at `q`.
abbrev pub last_slot : Slot → List ℕ → Slot
last_slot q [] = q
last_slot q (x ∷ xs) = last_slot (next_of x) xs

-- Past its first element a list ends behind one of its elements.
last_slot-ne :
    (q : Slot) (x : ℕ) (xs : List ℕ)
    → IsOutside q (x ∷ xs)
    → same_slot q (last_slot (next_of x) xs) ≡ false
last_slot-ne nowhere x [] out = refl
last_slot-ne head x [] out = refl
last_slot-ne (next_of e) x [] out = ground arith
last_slot-ne nowhere x (y ∷ xs) out = last_slot-ne nowhere y xs tt
last_slot-ne head x (y ∷ xs) out = last_slot-ne head y xs tt
last_slot-ne (next_of e) x (y ∷ xs) out = last_slot-ne (next_of e) y xs (ground arith)

pub split :
    (s : Lists) (q : Slot) (xs ys : List ℕ) → Chain s q (xs ++ ys) → Chain s (last_slot q xs) ys
split s q [] ys c = c
split s q (x ∷ xs) ys c = split s (next_of x) xs ys c.2

-- A store that differs from `s` among `xs` only in the slot behind them spells `xs` and then what
-- it spells from that slot.
pub splice :
    (s t : Lists) (q : Slot) (xs ys zs : List ℕ)
    → IsOutside q xs
    → IsDistinct xs
    → Chain s q (xs ++ ys)
    → (same_slot q (last_slot q xs) ≡ false → read_slot t q ≡ read_slot s q)
    → ((e : ℕ)
        → mem e xs ≡ true
        → (t.le_prev e ≡ s.le_prev e)
          × (same_slot (next_of e) (last_slot q xs) ≡ false → t.le_next e ≡ s.le_next e))
    → Chain t (last_slot q xs) zs
    → Chain t q (xs ++ zs)
splice s t q [] ys zs out d c front keep back = back
splice s t q (x ∷ xs) ys zs out d c front keep back =
    let at_x = keep x (ground arith) in
    (
      front (last_slot-ne q x xs out) ∙ c.0,
      at_x.0 ∙ c.1,
      splice s t (next_of x) xs ys zs d.0 d.1 c.2 at_x.1 (λ e m. keep e (ground arith)) back,
    )

pub IsDistinct-front : (xs ys : List ℕ) → IsDistinct (xs ++ ys) → IsDistinct xs
IsDistinct-front [] ys d = tt
IsDistinct-front (x ∷ xs) ys d = (ground (arith, mem-append x xs ys), IsDistinct-front xs ys d.1)

-- The slot behind `xs` belongs to no element that comes later.
pub last_slot-IsOutside :
    (q : Slot) (xs ys : List ℕ)
    → IsDistinct (xs ++ ys)
    → IsOutside q ys
    → IsOutside (last_slot q xs) ys
last_slot-IsOutside q [] ys d out = out
last_slot-IsOutside q (x ∷ xs) ys d out =
    last_slot-IsOutside (next_of x) xs ys d.1 (ground (arith, mem-append x xs ys))

pub IsDistinct-back : (xs ys : List ℕ) → IsDistinct (xs ++ ys) → IsDistinct ys
IsDistinct-back [] ys d = d
IsDistinct-back (x ∷ xs) ys d = IsDistinct-back xs ys d.1

-- Elements before a given point are not behind it.
pub mem-front :
    (xs ys : List ℕ) (e : ℕ) → IsDistinct (xs ++ ys) → mem e xs ≡ true → mem e ys ≡ false
mem-front [] ys e d m = cc
mem-front (x ∷ xs) ys e d m = ground (arith, mem-append x xs ys, mem-front xs ys e d.1)

-- A slot that belongs to no element of `xs` is none of their slots.
pub IsOutside-ne :
    (q : Slot) (xs : List ℕ) (e : ℕ)
    → IsOutside q xs
    → mem e xs ≡ true
    → same_slot (next_of e) q ≡ false
IsOutside-ne nowhere xs e o m = refl
IsOutside-ne head xs e o m = refl
IsOutside-ne (next_of w) xs e o m = ground (arith, mem_ne e w xs)

pub IsDistinct-swap :
    (xs ys : List ℕ) (a b : ℕ) → IsDistinct (xs ++ a ∷ b ∷ ys) → IsDistinct (xs ++ b ∷ a ∷ ys)
IsDistinct-swap [] ys a b d = ground arith
IsDistinct-swap (x ∷ xs) ys a b d = (
  ground (arith, mem-append x xs (a ∷ b ∷ ys), mem-append x xs (b ∷ a ∷ ys)),
  IsDistinct-swap xs ys a b d.1,
)

-- The element behind `elm` is one of those that follow it.
pub next-ne :
    (s : Lists) (elm e : ℕ) (ys : List ℕ)
    → Chain s (next_of elm) ys
    → mem e ys ≡ false
    → s.le_next elm ≢ some e
next-ne s elm e [] c out = ground arith
next-ne s elm e (y ∷ ys) c out = ground arith
