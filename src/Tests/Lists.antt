-- ===== src/Tests/Lists.antt =====
-- grouped_list with two groups of slots.
use signals.Base.{ℕ, ◌≡◌, refl, true, none, some, List, [], ◌∷◌, ltb, arith}
use signals.Groups.{
  GroupKey, GroupedList, front_ungrouped_slots, grouped_slots, back_ungrouped_slots, group_key_less,
  compare_keys, push_back, push_front, erase,
}
use signals.Groups.Containers.{node_after}
use signals.Groups.Segments.{Segment, Models, StrictWeakOrder, append_to, prepend_to}
use signals.Groups.Order.{group_key_less-StrictWeakOrder, compare_keys-orders}
use signals.Groups.Erase.{InGroup, without_node}
use signals.Groups.Duplicate.{copy_list}
use signals.Groups.Copied.{renumber, copy_list-Models}
use signals.Groups.Refine.{push_back-Models, push_front-Models, erase-Models}

pub ltb-StrictWeakOrder : StrictWeakOrder ltb
ltb-StrictWeakOrder = record {
  irreflexive = λ a. ground arith;
  transitive = λ a b c h k. ground arith;
  splits = λ a b c h k. ground arith;
}

abbrev pub second : GroupKey ℕ
second = record { first = grouped_slots; second = some 2 }

abbrev pub behind : GroupKey ℕ
behind = record { first = back_ungrouped_slots; second = none }

abbrev in_front : GroupKey ℕ
in_front = record { first = front_ungrouped_slots; second = none }

abbrev pub segments : List (Segment (GroupKey ℕ) ℕ)
segments =
    record {
      key = second;
      first = record { id = 0; value = 70 };
      rest = record { id = 2; value = 72 } ∷ [];
    }
    ∷ record { key = behind; first = record { id = 1; value = 71 }; rest = [] }
    ∷ []

abbrev pub three_slots : GroupedList (GroupKey ℕ) ℕ
three_slots = record {
  list =
      record { id = 0; value = 70 }
      ∷ record { id = 2; value = 72 }
      ∷ record { id = 1; value = 71 }
      ∷ [];
  group_map = record { key = second; item = 0 } ∷ record { key = behind; item = 1 } ∷ [];
  next_id = 3;
}

pub three_slots-Models : Models (group_key_less ltb) three_slots segments
unfolding group_key_less
three_slots-Models = record {
  list_flat = refl;
  map_index = refl;
  sorted = ground arith;
  unique = ground arith;
  fresh = ground arith;
}

compare_keys-orders_example :
    (compare_keys ltb second behind ≡ some true)
    × (group_key_less ltb second behind ≡ true)
    × StrictWeakOrder (group_key_less ltb)
compare_keys-orders_example = compare_keys-orders ltb ltb-StrictWeakOrder second behind (2, refl) tt

push_back-Models_example :
    Models
      (group_key_less ltb)
      (push_back ltb three_slots behind 73)
      (append_to (group_key_less ltb) behind (record { id = 3; value = 73 }) segments)
push_back-Models_example =
    push_back-Models ltb ltb-StrictWeakOrder three_slots segments behind 73 three_slots-Models

push_front-Models_example :
    Models
      (group_key_less ltb)
      (push_front ltb three_slots in_front 73)
      (prepend_to (group_key_less ltb) in_front (record { id = 3; value = 73 }) segments)
push_front-Models_example =
    push_front-Models ltb ltb-StrictWeakOrder three_slots segments in_front 73 three_slots-Models

first-InGroup : InGroup (group_key_less ltb) second 0 segments
unfolding group_key_less
first-InGroup = ground arith

erase-Models_example :
    (g' : GroupedList (GroupKey ℕ) ℕ) × (erase (group_key_less ltb) three_slots second 0
      ≡ some (g', node_after 0 three_slots.list))
    × Models (group_key_less ltb) g' (without_node (group_key_less ltb) second 0 segments)
erase-Models_example =
    erase-Models (group_key_less ltb) (group_key_less-StrictWeakOrder ltb ltb-StrictWeakOrder)
      three_slots segments second 0 three_slots-Models first-InGroup

copy_list-Models_example : Models (group_key_less ltb) (copy_list three_slots) (renumber 3 segments)
copy_list-Models_example =
    copy_list-Models (group_key_less ltb) three_slots segments three_slots-Models
