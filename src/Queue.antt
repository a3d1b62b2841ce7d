-- ===== src/Queue.antt =====
-- include/queue.h: the doubly linked lists of the LIST_ macros. Elements are numbers (their index
-- in the array that holds them); one value of `Lists` is a head with the link fields of all
-- elements.
pub mod Chain
pub mod Insert
pub mod Splice
pub mod Remove
pub mod Tail
use riem_os.Base.{ℕ, zero, suc, Bool, true, false, Option, none, some, update}

-- What a `le_prev` field holds: the address of the head's `lh_first` or of an element's `le_next`,
-- or NULL in an entry that was never linked.
pub data Slot : Type 0 where
  nowhere : Slot
  head : Slot
  next_of : ℕ → Slot

-- `none` is the NULL pointer.
pub record Lists : Type 0 where
  pub lh_first : Option ℕ
  pub le_next : ℕ → Option ℕ
  pub le_prev : ℕ → Slot

-- `*le_prev`
abbrev pub read_slot : Lists → Slot → Option ℕ
read_slot s nowhere = none
read_slot s head = s.lh_first
read_slot s (next_of e) = s.le_next e

-- `*le_prev = p`. A store through NULL reaches no cell of a list.
abbrev pub write_slot : Lists → Slot → Option ℕ → Lists
write_slot s nowhere p = s
write_slot s head p = record s { lh_first = p }
write_slot s (next_of e) p = record s { le_next = update s.le_next e p }

abbrev pub set_next : Lists → ℕ → Option ℕ → Lists
set_next s e p = record s { le_next = update s.le_next e p }

abbrev pub set_prev : Lists → ℕ → Slot → Lists
set_prev s e q = record s { le_prev = update s.le_prev e q }

-- `if (p) p->field.le_prev = q`
abbrev pub set_prev_of : Lists → Option ℕ → Slot → Lists
set_prev_of s none q = s
set_prev_of s (some e) q = set_prev s e q

-- LIST_INIT
unfoldable pub init : Lists → Lists
init s = record s { lh_first = none }

-- LIST_EMPTY
unfoldable pub is_empty : Lists → Bool
is_empty s = elim (s.lh_first) [ none ↦ true | some _ ↦ false ]

-- LIST_INSERT_HEAD
unfoldable pub insert_head : Lists → ℕ → Lists
insert_head s elm =
    let linked = set_next s elm s.lh_first in
    let back = set_prev_of linked linked.lh_first (next_of elm) in
    set_prev (record back { lh_first = some elm }) elm head

-- LIST_INSERT_AFTER
unfoldable pub insert_after : Lists → ℕ → ℕ → Lists
insert_after s listelm elm =
    let linked = set_next s elm (s.le_next listelm) in
    let back = set_prev_of linked (linked.le_next listelm) (next_of elm) in
    set_prev (set_next back listelm (some elm)) elm (next_of listelm)

-- LIST_INSERT_BEFORE
unfoldable pub insert_before : Lists → ℕ → ℕ → Lists
insert_before s listelm elm =
    let back = set_prev s elm (s.le_prev listelm) in
    let linked = set_next back elm (some listelm) in
    let hung = write_slot linked (linked.le_prev listelm) (some elm) in
    set_prev hung listelm (next_of elm)

-- LIST_REMOVE
unfoldable pub unlink : Lists → ℕ → Lists
unlink s elm =
    let back = set_prev_of s (s.le_next elm) (s.le_prev elm) in
    write_slot back (back.le_prev elm) (back.le_next elm)

-- The loop of LIST_INSERT_TAIL, which walks `elm->le_next` to the last element. `none`: the fuel
-- ran out, or a NULL pointer is followed.
unfoldable pub walk_tail : ℕ → Lists → ℕ → Option Lists
walk_tail zero s elm = none
walk_tail (suc fuel) s elm = elim (s.le_next elm) [
  | none ↦ none
  | some c ↦ elim (s.le_next c) [
    | none ↦ some s
    | some d ↦ walk_tail fuel (set_next s elm (some d)) elm
  ]
]

-- What LIST_INSERT_TAIL does behind its loop.
unfoldable pub hang : Lists → ℕ → Option Lists
hang s elm = elim (s.le_next elm) [
  | none ↦ none
  | some c ↦
      let hung = set_next s c (some elm) in
      elim (hung.le_next elm) [
        | none ↦ none
        | some d ↦ some (set_next (set_prev hung elm (next_of d)) elm none)
      ]
]

abbrev pub hang_walked : ℕ → Option Lists → Option Lists
hang_walked elm none = none
hang_walked elm (some walked) = hang walked elm

-- The two branches of LIST_INSERT_TAIL, on the first element of the list.
abbrev pub insert_tail_into : ℕ → Lists → ℕ → Option ℕ → Option Lists
insert_tail_into fuel s elm none = some (insert_head s elm)
insert_tail_into fuel s elm (some first) =
    hang_walked elm (walk_tail fuel (set_next s elm (some first)) elm)

-- LIST_INSERT_TAIL
unfoldable pub insert_tail : ℕ → Lists → ℕ → Option Lists
unfolding walk_tail hang insert_head
insert_tail fuel s elm = insert_tail_into fuel s elm s.lh_first
