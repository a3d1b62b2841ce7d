-- ===== src/Queue/Remove.antt =====
-- LIST_REMOVE of include/queue.h.
use riem_os.Base.{
  ℕ, ◌≡◌, ◌≢◌, true, false, Option, some, List, [], ◌∷◌, ◌++◌, arith, mem, IsDistinct,
}
use riem_os.Queue.{Slot, nowhere, head, next_of, Lists, read_slot, write_slot, set_prev_of, unlink}
use riem_os.Queue.Chain.{Chain, IsList, IsOutside, frame, mem_ne, IsDistinct-drop, not_mem_middle}
use riem_os.Queue.Splice.{
  next-ne, last_slot, same_slot, split, splice, IsDistinct-front, IsDistinct-back,
  last_slot-IsOutside, mem-front,
}

-- What the two stores of the macro come to at an element that is linked behind slot `q`.
unlink_at :
    (s : Lists) (q : Slot) (elm : ℕ) (ys : List ℕ)
    → s.le_prev elm ≡ q
    → Chain s (next_of elm) ys
    → mem elm ys ≡ false
    → unlink s elm ≡ write_slot (set_prev_of s (s.le_next elm) q) q (s.le_next elm)
unfolding unlink
unlink_at s q elm [] p c out = ground arith
unlink_at s q elm (y ∷ ys) p c out = ground arith

-- The stores of the macro reach no other slot, and no other back pointer than the next element's.
module _ (s : Lists) (q : Slot) (p : Option ℕ) where
  unlink-read :
      (r : Slot)
      → same_slot r q ≡ false
      → read_slot (write_slot (set_prev_of s p q) q p) r ≡ read_slot s r
  unlink-read r h = ground arith

  unlink-prev : (e : ℕ) → p ≢ some e → (write_slot (set_prev_of s p q) q p).le_prev e ≡ s.le_prev e
  unlink-prev e h = ground arith

-- Behind the slot of the removed element the list goes on with what followed it.
unlink-back :
    (s : Lists) (q : Slot) (elm : ℕ) (ys : List ℕ)
    → Chain s q (elm ∷ ys)
    → IsOutside q ys
    → mem elm ys ≡ false
    → IsDistinct ys
    → Chain (write_slot (set_prev_of s (s.le_next elm) q) q (s.le_next elm)) q ys
unlink-back s q elm [] c o out d = ground arith
unlink-back s q elm (y ∷ ys) c o out d = (
  ground arith,
  ground arith,
  frame s (write_slot (set_prev_of s (s.le_next elm) q) q (s.le_next elm)) (next_of y) ys c.2.2
      (ground arith) (λ e m. (outside e m, ground (arith, mem_ne e y ys))),
)
  where
    outside :
        (e : ℕ)
        → mem e ys ≡ true
        → (write_slot (set_prev_of s (s.le_next elm) q) q (s.le_next elm)).le_next e ≡ s.le_next e
    outside e m =
        elim q
            as (λ q.
              IsOutside q (y ∷ ys)
              → (write_slot (set_prev_of s (s.le_next elm) q) q (s.le_next elm)).le_next e
                ≡ s.le_next e) [
                  | nowhere ↦ λ o. ground arith
                  | head ↦ λ o. ground arith
                  | next_of w ↦ λ o. ground (arith, mem_ne e w ys)
                ]
          o

-- LIST_REMOVE takes its element out of the list, wherever it stands, and leaves the others well
-- linked and in their order.
pub unlink-append :
    (s : Lists) (xs ys : List ℕ) (elm : ℕ)
    → IsList s (xs ++ elm ∷ ys)
    → IsList (unlink s elm) (xs ++ ys)
unlink-append s xs ys elm l = record {
  chain = rw (unlink_at s q elm ys here.1 here.2 once.1) (
      splice s _ head xs (elm ∷ ys) ys tt (IsDistinct-front xs (elm ∷ ys) l.distinct) l.chain
        (unlink-read s q (s.le_next elm) head)
        (λ e m. (
          unlink-prev s q (s.le_next elm) e (next-ne s elm e ys here.2 (later e m)),
          unlink-read s q (s.le_next elm) (next_of e),
        ))
        (unlink-back s q elm ys here (last_slot-IsOutside head xs ys rest tt) once.1
          (IsDistinct-back xs ys rest)));
  distinct = rest;
}
  where
    q : Slot
    q = last_slot head xs

    here : Chain s q (elm ∷ ys)
    here = split s head xs (elm ∷ ys) l.chain

    once : (mem elm xs ≡ false) × (mem elm ys ≡ false)
    once = not_mem_middle xs ys elm l.distinct

    rest : IsDistinct (xs ++ ys)
    rest = IsDistinct-drop xs ys elm l.distinct

    later : (e : ℕ) → mem e xs ≡ true → mem e ys ≡ false
    later e m = mem-front xs ys e rest m
