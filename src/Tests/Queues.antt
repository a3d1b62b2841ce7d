-- ===== src/Tests/Queues.antt =====
-- Lists of include/queue.h with three elements.
use riem_os.Base.{◌≡◌, refl, none, some, [], ◌∷◌, arith}
use riem_os.Queue.{Lists, nowhere, insert_head, insert_tail, insert_before, insert_after, unlink}
use riem_os.Queue.Chain.{IsList}
use riem_os.Queue.Insert.{insert_head-cons, insert_before-append, insert_after-append}
use riem_os.Queue.Remove.{unlink-append}
use riem_os.Queue.Tail.{insert_tail-append}

abbrev empty_lists : Lists
empty_lists = record { lh_first = none; le_next = λ _. none; le_prev = λ _. nowhere }

-- 4, 7, 5
abbrev three : Lists
three = insert_head (insert_head (insert_head empty_lists 5) 7) 4

empty-IsList : IsList empty_lists []
empty-IsList = record { chain = refl; distinct = tt }

three-IsList : IsList three (4 ∷ 7 ∷ 5 ∷ [])
three-IsList =
    insert_head-cons (insert_head (insert_head empty_lists 5) 7) (7 ∷ 5 ∷ []) 4
      (insert_head-cons (insert_head empty_lists 5) (5 ∷ []) 7
        (insert_head-cons empty_lists [] 5 empty-IsList refl) refl)
      refl

unlink-append_example : IsList (unlink three 7) (4 ∷ 5 ∷ [])
unlink-append_example = unlink-append three (4 ∷ []) (5 ∷ []) 7 three-IsList

insert_tail-append_example :
    (t : Lists) × (insert_tail 1024 three 9 ≡ some t) × IsList t (4 ∷ 7 ∷ 5 ∷ 9 ∷ [])
insert_tail-append_example =
    insert_tail-append 1024 three (4 ∷ 7 ∷ 5 ∷ []) 9 three-IsList refl (omega arith)

insert_before-append_example : IsList (insert_before three 7 9) (4 ∷ 9 ∷ 7 ∷ 5 ∷ [])
insert_before-append_example = insert_before-append three (4 ∷ []) (5 ∷ []) 7 9 three-IsList refl

insert_after-append_example : IsList (insert_after three 7 9) (4 ∷ 7 ∷ 9 ∷ 5 ∷ [])
insert_after-append_example = insert_after-append three (4 ∷ []) (5 ∷ []) 7 9 three-IsList refl
