-- ===== src/Queue/Insert.antt =====
-- LIST_INSERT_HEAD, LIST_INSERT_AFTER and LIST_INSERT_BEFORE of include/queue.h.
use riem_os.Base.{
  ℕ, ◌≡◌, refl, ◌∙◌, ◌≢◌, true, false, some, List, [], ◌∷◌, ◌++◌, arith, ◌==◌, mem, IsDistinct,
  mem-append,
}
use riem_os.Queue.{
  Slot, nowhere, head, next_of, Lists, read_slot, insert_head, insert_before, insert_after,
  set_prev, set_prev_of, set_next, write_slot,
}
use riem_os.Queue.Chain.{Chain, IsOutside, IsList, frame, mem_ne, IsDistinct-insert, not_mem_middle}
use riem_os.Queue.Splice.{
  next-ne, IsDistinct-back, IsOutside-ne, IsDistinct-swap, last_slot-IsOutside, mem-front,
  last_slot, same_slot, split, splice, IsDistinct-front,
}

-- LIST_INSERT_HEAD of an element that is not in the list puts it in front of the others, and
-- leaves a well linked list.
pub insert_head-cons :
    (s : Lists) (xs : List ℕ) (elm : ℕ)
    → IsList s xs
    → mem elm xs ≡ false
    → IsList (insert_head s elm) (elm ∷ xs)
unfolding insert_head
insert_head-cons s [] elm l out = record { chain = ground arith; distinct = (out, l.distinct) }
insert_head-cons s (x ∷ xs) elm l out = record {
  chain = (
    refl,
    ground arith,
    (
      ground arith,
      ground arith,
      frame s (insert_head s elm) (next_of x) xs l.chain.2 (ground arith) (λ e m.
          (ground (arith, mem_ne e elm xs), ground (arith, mem_ne e elm xs, mem_ne e x xs))),
    ),
  );
  distinct = (out, l.distinct);
}

-- What LIST_INSERT_BEFORE stores, behind slot `q`.
insert_before_at :
    (s : Lists) (q : Slot) (listelm elm : ℕ)
    → s.le_prev listelm ≡ q
    → (listelm == elm) ≡ false
    → insert_before s listelm elm
      ≡ set_prev
          (write_slot (set_next (set_prev s elm q) elm (some listelm)) q (some elm))
          listelm
          (next_of elm)
unfolding insert_before
insert_before_at s q listelm elm p ne = ground arith

IsOutside-ne' :
    (q : Slot) (x : ℕ) (xs : List ℕ) → IsOutside q (x ∷ xs) → same_slot q (next_of x) ≡ false
IsOutside-ne' nowhere x xs o = refl
IsOutside-ne' head x xs o = refl
IsOutside-ne' (next_of e) x xs o = ground arith

IsOutside-tail : (q : Slot) (x : ℕ) (xs : List ℕ) → IsOutside q (x ∷ xs) → IsOutside q xs
IsOutside-tail nowhere x xs o = tt
IsOutside-tail head x xs o = tt
IsOutside-tail (next_of e) x xs o = ground arith

module _ (s : Lists) (q : Slot) (listelm elm : ℕ) where
  abbrev before : Lists
  before =
      set_prev (write_slot (set_next (set_prev s elm q) elm (some listelm)) q (some elm)) listelm
        (next_of elm)

  before-read :
      (r : Slot)
      → same_slot r q ≡ false
      → same_slot r (next_of elm) ≡ false
      → read_slot before r ≡ read_slot s r
  before-read r h k = ground arith

  before-prev :
      (e : ℕ) → (e == elm) ≡ false → (e == listelm) ≡ false → before.le_prev e ≡ s.le_prev e
  before-prev e h k = ground arith

  before-back :
      (ys : List ℕ)
      → Chain s q (listelm ∷ ys)
      → IsOutside q (listelm ∷ ys)
      → same_slot q (next_of elm) ≡ false
      → mem elm (listelm ∷ ys) ≡ false
      → mem listelm ys ≡ false
      → Chain before q (elm ∷ listelm ∷ ys)
  before-back ys c o ne out d = (
    ground arith,
    ground arith,
    (
      ground arith,
      ground arith,
      frame s before (next_of listelm) ys c.2 (ground arith) (λ e m. (
        before-read (next_of e) (IsOutside-ne q ys e (IsOutside-tail q listelm ys o) m)
            (ground (arith, mem_ne e elm ys)),
        ground (arith, mem_ne e elm ys, mem_ne e listelm ys),
      )),
    ),
  )

-- An element that is not in a list is not what the list's slots belong to.
last_slot-ne_of :
    (xs : List ℕ) (r : Slot) (e : ℕ)
    → same_slot r (next_of e) ≡ false
    → mem e xs ≡ false
    → same_slot (last_slot r xs) (next_of e) ≡ false
last_slot-ne_of [] r e h m = h
last_slot-ne_of (x ∷ xs) r e h m = last_slot-ne_of xs (next_of x) e (ground arith) (ground arith)

-- LIST_INSERT_BEFORE of an element that is not in the list puts it directly in front of the given
-- one, wherever that stands, and leaves a well linked list.
pub insert_before-append :
    (s : Lists) (xs ys : List ℕ) (listelm elm : ℕ)
    → IsList s (xs ++ listelm ∷ ys)
    → mem elm (xs ++ listelm ∷ ys) ≡ false
    → IsList (insert_before s listelm elm) (xs ++ elm ∷ listelm ∷ ys)
insert_before-append s xs ys listelm elm l out = record {
  chain = rw (insert_before_at s q listelm elm here.1 (ground (arith, new))) (
      splice s _ head xs (listelm ∷ ys) (elm ∷ listelm ∷ ys) tt
        (IsDistinct-front xs (listelm ∷ ys) l.distinct) l.chain
        (λ h. before-read s q listelm elm head h refl)
        (λ e m. (
          before-prev s q listelm elm e (ground (arith, new, mem_ne e elm xs))
              (ground (arith, mem-front xs (listelm ∷ ys) e l.distinct m)),
          λ h. before-read s q listelm elm (next_of e) h (ground (arith, new, mem_ne e elm xs)),
        ))
        (before-back s q listelm elm ys here
          (last_slot-IsOutside head xs (listelm ∷ ys) l.distinct tt)
          (last_slot-ne_of xs head elm refl new.0) new.1 once.1));
  distinct = IsDistinct-insert xs (listelm ∷ ys) elm l.distinct out;
}
  where
    q : Slot
    q = last_slot head xs

    here : Chain s q (listelm ∷ ys)
    here = split s head xs (listelm ∷ ys) l.chain

    once : (mem listelm xs ≡ false) × (mem listelm ys ≡ false)
    once = not_mem_middle xs ys listelm l.distinct

    new : (mem elm xs ≡ false) × (mem elm (listelm ∷ ys) ≡ false)
    new = ground (arith, mem-append elm xs (listelm ∷ ys))

-- What LIST_INSERT_AFTER stores.
abbrev after : Lists → ℕ → ℕ → Lists
after s listelm elm =
    set_prev
      (set_next (set_prev_of (set_next s elm (s.le_next listelm)) (s.le_next listelm) (next_of elm))
        listelm (some elm))
      elm (next_of listelm)

insert_after_at :
    (s : Lists) (listelm elm : ℕ)
    → (listelm == elm) ≡ false
    → insert_after s listelm elm ≡ after s listelm elm
unfolding insert_after
insert_after_at s listelm elm ne = ground arith

module _ (s : Lists) (listelm elm : ℕ) where
  after-read :
      (r : Slot)
      → same_slot r (next_of listelm) ≡ false
      → same_slot r (next_of elm) ≡ false
      → read_slot (after s listelm elm) r ≡ read_slot s r
  after-read r h k = ground arith

  after-prev :
      (e : ℕ)
      → (e == elm) ≡ false
      → s.le_next listelm ≢ some e
      → (after s listelm elm).le_prev e ≡ s.le_prev e
  after-prev e h k = ground arith

  after-back :
      (ys : List ℕ) (q : Slot)
      → Chain s q (listelm ∷ ys)
      → IsOutside q (listelm ∷ ys)
      → same_slot q (next_of elm) ≡ false
      → mem elm (listelm ∷ ys) ≡ false
      → IsDistinct (listelm ∷ ys)
      → Chain (after s listelm elm) q (listelm ∷ elm ∷ ys)
  after-back [] q c o ne out d = (
    after-read q (IsOutside-ne' q listelm [] o) ne ∙ c.0,
    ground arith,
    (ground arith, ground arith, ground arith),
  )
  after-back (y ∷ ys) q c o ne out d = (
    after-read q (IsOutside-ne' q listelm (y ∷ ys) o) ne ∙ c.0,
    ground arith,
    (
      ground arith,
      ground arith,
      (
        ground arith,
        ground arith,
        frame s (after s listelm elm) (next_of y) ys c.2.2 (ground arith) (λ e m. (
          ground (arith, mem_ne e elm ys, mem_ne e listelm ys),
          ground (arith, mem_ne e elm ys, mem_ne e y ys),
        )),
      ),
    ),
  )

-- LIST_INSERT_AFTER of an element that is not in the list puts it directly behind the given one,
-- wherever that stands, and leaves a well linked list.
pub insert_after-append :
    (s : Lists) (xs ys : List ℕ) (listelm elm : ℕ)
    → IsList s (xs ++ listelm ∷ ys)
    → mem elm (xs ++ listelm ∷ ys) ≡ false
    → IsList (insert_after s listelm elm) (xs ++ listelm ∷ elm ∷ ys)
insert_after-append s xs ys listelm elm l out = record {
  chain = rw (insert_after_at s listelm elm (ground (arith, new))) (
      splice s (after s listelm elm) head xs (listelm ∷ ys) (listelm ∷ elm ∷ ys) tt
        (IsDistinct-front xs (listelm ∷ ys) l.distinct) l.chain
        (λ h. after-read s listelm elm head refl refl)
        (λ e m. (
          after-prev s listelm elm e (ground (arith, new, mem_ne e elm xs))
              (next-ne s listelm e ys here.2 (ground (arith, behind e m))),
          λ h.
              after-read s listelm elm (next_of e) (ground (arith, behind e m))
                (ground (arith, new, mem_ne e elm xs)),
        ))
        (after-back s listelm elm ys q here
          (last_slot-IsOutside head xs (listelm ∷ ys) l.distinct tt)
          (last_slot-ne_of xs head elm refl new.0) new.1
          (IsDistinct-back xs (listelm ∷ ys) l.distinct)));
  distinct =
      IsDistinct-swap xs ys elm listelm (IsDistinct-insert xs (listelm ∷ ys) elm l.distinct out);
}
  where
    q : Slot
    q = last_slot head xs

    here : Chain s q (listelm ∷ ys)
    here = split s head xs (listelm ∷ ys) l.chain

    new : (mem elm xs ≡ false) × (mem elm (listelm ∷ ys) ≡ false)
    new = ground (arith, mem-append elm xs (listelm ∷ ys))

    behind : (e : ℕ) → mem e xs ≡ true → mem e (listelm ∷ ys) ≡ false
    behind e m = mem-front xs (listelm ∷ ys) e l.distinct m
