-- ===== src/Tests/Buffers.antt =====
-- auto_buffer with room for two objects on the stack.
use signals.Base.{true, false, ℕ, ◌≡◌, ◌≤◌, ◌<◌, refl, true, none, some, [], ◌∷◌, arith}
use signals.Buffer.{AutoBuffer, stack, heap, allocate, erase_range, full, size}
use signals.Buffer.Growth.{reserve}
use signals.Buffer.Insert.{rebuild, insert}
use signals.Buffer.Whole.{swap}
use signals.Buffer.Laws.{IsLive, Yields, reserve-Yields}
use signals.Buffer.Erase.{erase_range_lem, erase_range-full}
use signals.Buffer.Inserted.{insert-full, insert-back, insert-copies}
use signals.Buffer.Swapped.{Exchanged, swap-Exchanged}

abbrev pair : AutoBuffer ℕ
pair = record { items = 4 ∷ 5 ∷ []; capacity = 2; buffer = stack }

abbrev roomy : AutoBuffer ℕ
roomy = record { items = 1 ∷ 2 ∷ 3 ∷ []; capacity = 8; buffer = heap }

pair-IsLive : IsLive 2 pair
unfolding allocate
pair-IsLive = record { fits = omega arith; covers = omega arith; placed = refl }

roomy-IsLive : IsLive 2 roomy
unfolding allocate
roomy-IsLive = record { fits = omega arith; covers = omega arith; placed = refl }

reserve-Yields_example : (v : Yields 2 (reserve 2 pair 3) pair.items) × (3 ≤ v.buf.capacity)
reserve-Yields_example = reserve-Yields 2 pair 3 pair-IsLive

swap-Exchanged_example : Exchanged 2 pair roomy (swap 2 pair roomy)
swap-Exchanged_example = swap-Exchanged 2 pair roomy pair-IsLive roomy-IsLive

erase_range_lem_example : erase_range roomy 1 2 ≡ some (record roomy { items = 1 ∷ 3 ∷ [] }, 1)
erase_range_lem_example =
    erase_range_lem roomy (1 ∷ []) (2 ∷ []) (3 ∷ []) refl (omega arith) (omega arith) (omega arith)

pair-full : full pair ≡ true
unfolding full size
pair-full = refl

erase_range-full_example : erase_range pair 1 1 ≡ none
erase_range-full_example = erase_range-full pair 1 (unfold size in omega arith) pair-full

pair-size : size pair ≡ pair.capacity
unfolding size
pair-size = refl

insert-full_example :
    (v : Yields 2 (rebuild 2 pair 1 (6 ∷ [])) (4 ∷ 6 ∷ 5 ∷ [])) × (insert false 2 0 pair 1 6
      ≡ some (v.buf, 1))
insert-full_example = insert-full 2 false 0 pair (4 ∷ []) (5 ∷ []) 6 pair-IsLive refl pair-size

roomy-room : size roomy < roomy.capacity
unfolding size
roomy-room = omega arith

insert-back_example :
    insert true 2 0 roomy (size roomy) 9
    ≡ some (record roomy { items = 1 ∷ 2 ∷ 3 ∷ 9 ∷ [] }, size roomy)
insert-back_example = insert-back 2 true 0 roomy 9 roomy-room

insert-copies_example :
    (insert false 2 0 roomy 0 9 ≡ some (record roomy { items = 9 ∷ 1 ∷ 1 ∷ 1 ∷ [] }, 0))
    × (insert true 2 0 roomy 0 9 ≡ some (record roomy { items = 9 ∷ 1 ∷ 2 ∷ 3 ∷ [] }, 0))
insert-copies_example = insert-copies 2 0 roomy [] (2 ∷ 3 ∷ []) 1 9 roomy-IsLive refl roomy-room
