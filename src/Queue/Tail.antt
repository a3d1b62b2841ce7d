-- ===== src/Queue/Tail.antt =====
-- LIST_INSERT_TAIL of include/queue.h.
use mathlib.Core.Path.{fun_ext}
use riem_os.Base.{
  ℕ, zero, suc, ◌<◌, ◌≤◌, ◌≡◌, refl, ap, ◌∙◌, true, false, Option, none, some, List, [], ◌∷◌, ◌++◌,
  arith, ◌==◌, mem, IsDistinct, update, length, append-nil,
}
use riem_os.Queue.{
  Slot, head, next_of, Lists, read_slot, set_next, set_prev, insert_head, walk_tail, hang,
  insert_tail, insert_tail_into, hang_walked,
}
use riem_os.Queue.Chain.{Chain, IsList, frame, mem_ne, IsDistinct-insert}
use riem_os.Queue.Splice.{last_slot, same_slot, splice}
use riem_os.Queue.Insert.{insert_head-cons}

set_next_self : (s : Lists) (e : ℕ) (p : Option ℕ) → s.le_next e ≡ p → set_next s e p ≡ s
set_next_self s e p h = λ i. record { lh_first = s.lh_first; le_next = same i; le_prev = s.le_prev }
  where
    same : update s.le_next e p ≡ s.le_next
    same = fun_ext λ d. ground arith

set_next-set_next :
    (s : Lists) (e : ℕ) (p q : Option ℕ) → set_next (set_next s e p) e q ≡ set_next s e q
set_next-set_next s e p q =
    λ i. record { lh_first = s.lh_first; le_next = same i; le_prev = s.le_prev }
  where
    same : update (update s.le_next e p) e q ≡ update s.le_next e q
    same = fun_ext λ d. ground arith

-- The loop follows the pointers of the list to its last element and changes only the pointer of the
-- new element.
walk_tail-last :
    (fuel : ℕ) (s : Lists) (elm x : ℕ) (xs : List ℕ)
    → length xs < fuel
    → s.le_next elm ≡ some x
    → Chain s (next_of x) xs
    → mem elm (x ∷ xs) ≡ false
    → (c : ℕ) × (last_slot (next_of x) xs ≡ next_of c)
      × (walk_tail fuel s elm ≡ some (set_next s elm (some c)))
unfolding walk_tail
walk_tail-last zero s elm x xs h e c out = absurd (omega arith)
walk_tail-last (suc fuel) s elm x [] h e c out =
    (x, refl, rw (e, walk_tail) (rw c (rw (set_next_self s elm (some x) e) refl)))
walk_tail-last (suc fuel) s elm x (y ∷ xs) h e c out =
    let (d, last, walked) =
      walk_tail-last fuel (set_next s elm (some y)) elm y xs (omega arith) (ground arith)
        (frame s (set_next s elm (some y)) (next_of y) xs c.2 (ground arith)
          (λ f m. (ground (arith, mem_ne f elm xs), refl)))
        (ground arith) in
    (
      d,
      last,
      rw (e, walk_tail) (rw c.0 (walked ∙ ap some (set_next-set_next s elm (some y) (some d)))),
    )

-- Behind the last element the macro hangs the new one.
hung : Lists → ℕ → ℕ → Lists
hung s elm c =
    set_next (set_prev (set_next (set_next s elm (some c)) c (some elm)) elm (next_of c)) elm none

hang_at :
    (s : Lists) (elm c : ℕ)
    → (c == elm) ≡ false
    → hang (set_next s elm (some c)) elm ≡ some (hung s elm c)
unfolding hang hung
hang_at s elm c ne = ground arith

module _ (s : Lists) (elm c : ℕ) (ne : (c == elm) ≡ false) where
  hung-read :
      (r : Slot)
      → same_slot r (next_of c) ≡ false
      → same_slot r (next_of elm) ≡ false
      → read_slot (hung s elm c) r ≡ read_slot s r
  unfolding hung
  hung-read r h k = ground arith

  hung-prev : (e : ℕ) → (e == elm) ≡ false → (hung s elm c).le_prev e ≡ s.le_prev e
  unfolding hung
  hung-prev e h = ground arith

  hung-back : Chain (hung s elm c) (next_of c) (elm ∷ [])
  unfolding hung
  hung-back = (ground arith, ground arith, ground arith)

-- The element behind which a slot of a list stands is one of its elements.
mem_of_last : (x c : ℕ) (xs : List ℕ) → last_slot (next_of x) xs ≡ next_of c → mem c (x ∷ xs) ≡ true
mem_of_last x c [] e = ground arith
mem_of_last x c (y ∷ xs) e = ground (arith, mem_of_last y c xs e)

-- The list that LIST_INSERT_TAIL leaves, once its loop has found the last element.
hung-IsList :
    (s : Lists) (xs : List ℕ) (elm c : ℕ)
    → IsList s xs
    → mem elm xs ≡ false
    → last_slot head xs ≡ next_of c
    → (c == elm) ≡ false
    → IsList (hung s elm c) (xs ++ elm ∷ [])
hung-IsList s xs elm c l out last ne = record {
  chain =
      splice s (hung s elm c) head xs [] (elm ∷ []) tt plain (rw append-nil l.chain)
        (λ h. hung-read s elm c ne head refl refl)
        (λ e m. (
          hung-prev s elm c ne e (ground (arith, mem_ne e elm xs)),
          λ h. hung-read s elm c ne (next_of e) (rw last at h) (ground (arith, mem_ne e elm xs)),
        ))
        (rw last (hung-back s elm c ne));
  distinct = IsDistinct-insert xs [] elm (rw append-nil l.distinct) (rw append-nil out);
}
  where
    plain : IsDistinct xs
    plain = l.distinct

insert_tail_walked :
    (fuel : ℕ) (s : Lists) (x elm c : ℕ)
    → s.lh_first ≡ some x
    → walk_tail fuel (set_next s elm (some x)) elm
      ≡ some (set_next (set_next s elm (some x)) elm (some c))
    → (c == elm) ≡ false
    → insert_tail fuel s elm ≡ some (hung s elm c)
unfolding insert_tail
insert_tail_walked fuel s x elm c first walked ne =
    ap (insert_tail_into fuel s elm) first
    ∙ ap (hang_walked elm) (walked ∙ ap some (set_next-set_next s elm (some x) (some c)))
    ∙ hang_at s elm c ne

-- LIST_INSERT_TAIL of an element that is not in the list ends, given fuel for its length, and
-- leaves a well linked list with the element behind the others.
pub insert_tail-append :
    (fuel : ℕ) (s : Lists) (xs : List ℕ) (elm : ℕ)
    → IsList s xs
    → mem elm xs ≡ false
    → length xs ≤ fuel
    → (t : Lists) × (insert_tail fuel s elm ≡ some t) × IsList t (xs ++ elm ∷ [])
insert_tail-append fuel s [] elm l out h =
    (insert_head s elm, insert_tail_empty, insert_head-cons s [] elm l out)
  where
    insert_tail_empty : insert_tail fuel s elm ≡ some (insert_head s elm)
    insert_tail_empty = unfold insert_tail in ap (insert_tail_into fuel s elm) l.chain
insert_tail-append fuel s (x ∷ xs) elm l out h = finish (
    walk_tail-last fuel (set_next s elm (some x)) elm x xs (omega arith) (ground arith)
      (frame s (set_next s elm (some x)) (next_of x) xs l.chain.2 (ground arith)
        (λ f m. (ground (arith, mem_ne f elm xs), refl)))
      out)
  where
    finish :
        ((c : ℕ) × (last_slot (next_of x) xs ≡ next_of c)
          × (walk_tail fuel (set_next s elm (some x)) elm
              ≡ some (set_next (set_next s elm (some x)) elm (some c))))
        → (t : Lists) × (insert_tail fuel s elm ≡ some t) × IsList t (x ∷ (xs ++ elm ∷ []))
    finish (c, last, walked) = (
      hung s elm c,
      insert_tail_walked fuel s x elm c l.chain.0 walked
          (ground (arith, mem_ne c elm (x ∷ xs), mem_of_last x c xs)),
      hung-IsList s (x ∷ xs) elm c l out last
          (ground (arith, mem_ne c elm (x ∷ xs), mem_of_last x c xs)),
    )
