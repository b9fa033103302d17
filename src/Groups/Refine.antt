-- ===== src/Groups/Refine.antt =====
-- grouped_list refines the groups: push_back, push_front and erase are append_to, prepend_to and
-- without_node.
use signals.Base.{
  ℕ, suc, ◌≡◌, refl, ap, Bool, true, List, [], ◌∷◌, some, ◌==◌, arith, get_elem?, inl, inr,
  Bool-cases, length,
}
use signals.Groups.{
  GroupedList, GroupKey, SlotMetaGroup, front_ungrouped_slots, back_ungrouped_slots, meta_value,
  group_key_less, entry_equivalent, erase, push_back, push_front,
}
use signals.Groups.Containers.{Node, Entry, node_after, erase_node, lower_bound, upper_bound}
use signals.Groups.Segments.{
  Segment, flat, index, Unique, Above, Sorted, Models, StrictWeakOrder, append_to, prepend_to,
}
use signals.Groups.Order.{group_key_less-StrictWeakOrder, front_least, back_greatest}
use signals.Groups.Push.{m_insert-append, m_insert-prepend}
use signals.Groups.Erase.{
  without_node, drop_first, InGroup, flat-without_node, Unique-erase_node, Below-erase_node,
}
use signals.Groups.Removed.{index-without_node}

module _ {K V : Type 0} (less : K → K → Bool) (o : StrictWeakOrder less) where
  -- The assertions of erase hold for a node of the key's group.
  group_found :
      (key : K) (it : ℕ) (segs : List (Segment K V))
      → InGroup less key it segs
      → entry_equivalent less key (get_elem? (index segs) (lower_bound less key (index segs)))
        ≡ true
  unfolding lower_bound entry_equivalent
  group_found key it [] g = absurd g
  group_found key it (t ∷ segs) (inl (h, g)) = rw h (group_found key it segs g)
  group_found key it (t ∷ segs) (inr (h, j, p)) = simp (h, j)

  Above-drop_first :
      (k : K) (key : K) (xs : List (Node V)) (segs : List (Segment K V))
      → less k key ≡ true
      → Above less key segs
      → Above less k (drop_first less key xs segs)
  Above-drop_first k key [] [] h a = tt
  Above-drop_first k key [] (t ∷ segs) h a = o.transitive k key t.key h a
  Above-drop_first k key (x ∷ xs) segs h a = h

  Sorted-drop_first :
      (key : K) (xs : List (Node V)) (segs : List (Segment K V))
      → Above less key segs
      → Sorted less segs
      → Sorted less (drop_first less key xs segs)
  Sorted-drop_first key [] segs a s = s
  Sorted-drop_first key (x ∷ xs) segs a s = (a, s)

  Above-without_node :
      (k key : K) (it : ℕ) (segs : List (Segment K V))
      → Above less k segs
      → Sorted less segs
      → Above less k (without_node less key it segs)
  unfolding without_node
  Above-without_node k key it [] a s = tt
  Above-without_node k key it (t ∷ segs) a s =
      ground (arith, Above-drop_first k t.key t.rest segs a s.0)

  Sorted-without_node :
      (key : K) (it : ℕ) (segs : List (Segment K V))
      → Sorted less segs
      → Sorted less (without_node less key it segs)
  unfolding without_node
  Sorted-without_node key it [] s = tt
  Sorted-without_node key it (t ∷ segs) s = elim (Bool-cases (less t.key key)) [
    | inl later ↦
        rw later (Above-without_node t.key key it segs s.0 s.1, Sorted-without_node key it segs s.1)
    | inr stop ↦ elim (Bool-cases (it == t.first.id)) [
      | inl first ↦ rw (stop, first) (Sorted-drop_first t.key t.rest segs s.0 s.1)
      | inr inner ↦ rw (stop, inner) s
    ]
  ]

  -- On a grouped list that represents a sorted sequence of groups, under a strict weak order of
  -- the keys, erase of a node of the key's group passes its assertions, returns the iterator
  -- behind the node, and represents the sequence without the node, and without its group if that
  -- is left empty.
  pub erase-Models :
      (g : GroupedList K V) (segs : List (Segment K V)) (key : K) (it : ℕ)
      → Models less g segs
      → InGroup less key it segs
      → (g' : GroupedList K V) × (erase less g key it ≡ some (g', node_after it g.list))
        × Models less g' (without_node less key it segs)
  unfolding erase
  erase-Models g segs key it m i =
      let u : Unique (flat segs) = rw m.list_flat at m.unique in
      (
        record g { list = erase_node it g.list; group_map = index (without_node less key it segs) },
        rw (m.map_index, group_found key it segs i)
            (rw m.list_flat (
              ap
                (λ mp. some (
                  record g { list = erase_node it (flat segs); group_map = mp },
                  node_after it (flat segs),
                ))
                (index-without_node less o key it segs m.sorted u i))),
        record {
          list_flat = rw m.list_flat (flat-without_node less key it segs u i);
          map_index = refl;
          sorted = Sorted-without_node key it segs m.sorted;
          unique = Unique-erase_node it g.list m.unique;
          fresh = Below-erase_node g.next_id it g.list m.fresh;
        },
      )

-- The optimisations of push_back and push_front.
module _ {Group : Type 0} (cmp : Group → Group → Bool) (o : StrictWeakOrder cmp) where
  abbrev key_order : StrictWeakOrder (group_key_less cmp)
  key_order = group_key_less-StrictWeakOrder cmp o

  upper-back :
      (key : GroupKey Group) (m : List (Entry (GroupKey Group)))
      → key.first ≡ back_ungrouped_slots
      → length m ≡ upper_bound (group_key_less cmp) key m
  unfolding upper_bound
  upper-back key [] h = refl
  upper-back key (e ∷ m) h = rw (back_greatest cmp o key e.key h) (ap suc (upper-back key m h))

  lower-front :
      (key : GroupKey Group) (m : List (Entry (GroupKey Group)))
      → key.first ≡ front_ungrouped_slots
      → 0 ≡ lower_bound (group_key_less cmp) key m
  unfolding lower_bound
  lower-front key [] h = refl
  lower-front key (e ∷ m) h = rw (front_least cmp o key e.key h)

  meta-back : (a : SlotMetaGroup) → (meta_value a == 2) ≡ true → a ≡ back_ungrouped_slots
  meta-back a h = ground arith

  meta-front : (a : SlotMetaGroup) → (meta_value a == 0) ≡ true → a ≡ front_ungrouped_slots
  meta-front a h = ground arith

module _ {Group V : Type 0} (cmp : Group → Group → Bool) (o : StrictWeakOrder cmp) where
  -- On a grouped list that represents a sorted sequence of non-empty groups, push_back, with its
  -- shortcut for the slots behind all groups, represents the sequence with the slot added at the
  -- end of its key's group, or with a new group at the key's place; the group comparison is a
  -- strict weak order.
  pub push_back-Models :
      (g : GroupedList (GroupKey Group) V) (segs : List (Segment (GroupKey Group) V))
      (key : GroupKey Group) (value : V)
      → Models (group_key_less cmp) g segs
      → Models
          (group_key_less cmp)
          (push_back cmp g key value)
          (append_to (group_key_less cmp) key (record { id = g.next_id; value = value }) segs)
  push_back-Models g segs key value m = elim (Bool-cases (meta_value key.first == 2)) [
    | inl e ↦
        unfold push_back in
        rw (e, upper-back cmp o key g.group_map (meta-back cmp o key.first e))
          (m_insert-append (group_key_less cmp) (key_order cmp o) g segs key value m)
    | inr e ↦
        unfold push_back in
        rw e (m_insert-append (group_key_less cmp) (key_order cmp o) g segs key value m)
  ]

  -- On a grouped list that represents a sorted sequence of non-empty groups, push_front, with its
  -- shortcut for the slots in front of all groups, represents the sequence with the slot added at
  -- the beginning of its key's group, or with a new group at the key's place; the group comparison
  -- is a strict weak order.
  pub push_front-Models :
      (g : GroupedList (GroupKey Group) V) (segs : List (Segment (GroupKey Group) V))
      (key : GroupKey Group) (value : V)
      → Models (group_key_less cmp) g segs
      → Models
          (group_key_less cmp)
          (push_front cmp g key value)
          (prepend_to (group_key_less cmp) key (record { id = g.next_id; value = value }) segs)
  push_front-Models g segs key value m = elim (Bool-cases (meta_value key.first == 0)) [
    | inl e ↦
        unfold push_front in
        rw (e, lower-front cmp o key g.group_map (meta-front cmp o key.first e))
          (m_insert-prepend (group_key_less cmp) (key_order cmp o) g segs key value m)
    | inr e ↦
        unfold push_front in
        rw e (m_insert-prepend (group_key_less cmp) (key_order cmp o) g segs key value m)
  ]
