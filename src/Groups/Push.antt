-- ===== src/Groups/Push.antt =====
-- push_back and push_front add a slot at the end or at the beginning of its group.
use signals.Base.{
  ℕ, zero, suc, ◌≡◌, refl, sym, ap, ◌∙◌, Bool, true, false, List, [], ◌∷◌, ◌++◌, append_assoc,
  Option, none, some, arith, get_elem?, inl, inr, Bool-cases,
}
use signals.Groups.{GroupedList, m_insert}
use signals.Groups.Containers.{Node, entry_item, insert_before, lower_bound, upper_bound}
use signals.Groups.Segments.{
  Segment, nodes_of, flat, index, Unique, Above, Sorted, append_to, prepend_to, Models,
  StrictWeakOrder,
}
use signals.Groups.Keys.{
  asym, Above-equivalent, upper-not_equivalent, index-append_to, index-prepend_to, Sorted-append_to,
  Sorted-prepend_to,
}
use signals.Groups.Unique.{
  Absent-left, Unique_right, Unique-Absent, Below-Absent, Below-suc, AbsentAt, insert_before-append,
  Unique-insert_before, Below-insert_before,
}

module _ {K V : Type 0} (less : K → K → Bool) (o : StrictWeakOrder less) where
  abbrev pub upper : K → List (Segment K V) → Option ℕ
  upper key segs = entry_item (get_elem? (index segs) (upper_bound less key (index segs)))

  abbrev pub lower : K → List (Segment K V) → Option ℕ
  lower key segs = entry_item (get_elem? (index segs) (lower_bound less key (index segs)))

  AbsentAt-left : (it : Option ℕ) (xs ys : List (Node V)) → AbsentAt it (xs ++ ys) → AbsentAt it xs
  AbsentAt-left none xs ys a = tt
  AbsentAt-left (some i) xs ys a = Absent-left i xs ys a

  -- An item of the map's later part is not among the nodes in front.
  pub item_absent :
      (xs : List (Node V)) (segs : List (Segment K V)) (pos : ℕ)
      → Unique (xs ++ flat segs)
      → AbsentAt (entry_item (get_elem? (index segs) pos)) xs
  item_absent xs [] pos u = tt
  item_absent xs (t ∷ segs) zero u = Unique-Absent xs _ t.first u
  item_absent xs (t ∷ segs) (suc pos) u =
      AbsentAt-left (entry_item (get_elem? (index segs) pos)) xs (nodes_of t)
        (item_absent (xs ++ nodes_of t) segs pos (rw (append_assoc xs (nodes_of t) (flat segs)) u))

  insert-first :
      (n : Node V) (t : Segment K V) (segs : List (Segment K V))
      → insert_before (some t.first.id) n (flat (t ∷ segs)) ≡ n ∷ flat (t ∷ segs)
  unfolding insert_before
  insert-first n t segs = ground arith

  insert-end : (n : Node V) → insert_before none n [] ≡ n ∷ []
  unfolding insert_before
  insert-end n = refl

  pub upper-stop :
      (key : K) (t : Segment K V) (segs : List (Segment K V))
      → less key t.key ≡ true
      → upper key (t ∷ segs) ≡ some t.first.id
  unfolding upper_bound
  upper-stop key t segs h = rw h

  pub upper-skip :
      (key : K) (t : Segment K V) (segs : List (Segment K V))
      → less key t.key ≡ false
      → upper key (t ∷ segs) ≡ upper key segs
  unfolding upper_bound
  upper-skip key t segs h = rw h

  pub lower-stop :
      (key : K) (t : Segment K V) (segs : List (Segment K V))
      → less t.key key ≡ false
      → lower key (t ∷ segs) ≡ some t.first.id
  unfolding lower_bound
  lower-stop key t segs h = rw h

  pub lower-skip :
      (key : K) (t : Segment K V) (segs : List (Segment K V))
      → less t.key key ≡ true
      → lower key (t ∷ segs) ≡ lower key segs
  unfolding lower_bound
  lower-skip key t segs h = rw h

  insert-Above :
      (key : K) (n : Node V) (segs : List (Segment K V))
      → Above less key segs
      → insert_before (upper key segs) n (flat segs) ≡ n ∷ flat segs
  insert-Above key n [] a = insert-end n
  insert-Above key n (t ∷ segs) a = rw (upper-stop key t segs a) (insert-first n t segs)

  -- Behind the nodes of a group the insertion goes on in the later groups.
  insert-behind :
      (t : Segment K V) (segs : List (Segment K V)) (pos : ℕ) (n : Node V)
      → Unique (flat (t ∷ segs))
      → insert_before (entry_item (get_elem? (index segs) pos)) n (flat (t ∷ segs))
        ≡ nodes_of t ++ insert_before (entry_item (get_elem? (index segs) pos)) n (flat segs)
  insert-behind t segs pos n u =
      insert_before-append (entry_item (get_elem? (index segs) pos)) n (nodes_of t) (flat segs)
        (item_absent (nodes_of t) segs pos u)

  -- The list after push_back.
  flat-append_to :
      (key : K) (n : Node V) (segs : List (Segment K V))
      → Sorted less segs
      → Unique (flat segs)
      → insert_before (upper key segs) n (flat segs) ≡ flat (append_to less key n segs)
  unfolding append_to
  flat-append_to key n [] s u = insert-end n
  flat-append_to key n (t ∷ segs) s u = elim (Bool-cases (less key t.key)) [
    | inl before ↦
        rw (before, asym o key t.key before, upper-stop key t segs before) (insert-first n t segs)
    | inr after ↦ elim (Bool-cases (less t.key key)) [
      | inl later ↦
          rw (after, later, upper-skip key t segs after)
            (insert-behind t segs (upper_bound less key (index segs)) n u
              ∙ ap (◌++◌ (nodes_of t))
                  (flat-append_to key n segs s.1 (Unique_right (nodes_of t) (flat segs) u)))
      | inr same ↦
          rw (after, same, upper-skip key t segs after)
            (insert-behind t segs (upper_bound less key (index segs)) n u
              ∙ ap (◌++◌ (nodes_of t))
                  (insert-Above key n segs (Above-equivalent less o key t segs same after s.0))
              ∙ ap (◌∷◌ t.first) (sym (append_assoc t.rest (n ∷ []) (flat segs))))
    ]
  ]

  -- The list after push_front.
  flat-prepend_to :
      (key : K) (n : Node V) (segs : List (Segment K V))
      → Unique (flat segs)
      → insert_before (lower key segs) n (flat segs) ≡ flat (prepend_to less key n segs)
  unfolding prepend_to
  flat-prepend_to key n [] u = insert-end n
  flat-prepend_to key n (t ∷ segs) u = elim (Bool-cases (less t.key key)) [
    | inl later ↦
        rw (later, lower-skip key t segs later)
          (insert-behind t segs (lower_bound less key (index segs)) n u
            ∙ ap (◌++◌ (nodes_of t))
                (flat-prepend_to key n segs (Unique_right (nodes_of t) (flat segs) u)))
    | inr here ↦ rw (here, lower-stop key t segs here) (ground (arith, insert-first n t segs))
  ]

  abbrev pub new_node : GroupedList K V → V → Node V
  new_node g value = record { id = g.next_id; value = value }

  -- push_back's insertion puts the slot behind those of its group.
  pub m_insert-append :
      (g : GroupedList K V) (segs : List (Segment K V)) (key : K) (value : V)
      → Models less g segs
      → Models less
          (m_insert less g (upper_bound less key g.group_map) key value)
          (append_to less key (new_node g value) segs)
  unfolding m_insert
  m_insert-append g segs key value m =
      let n = new_node g value in
      let u = rw m.list_flat at m.unique in
      record {
        list_flat = rw (m.map_index, m.list_flat) (flat-append_to key n segs m.sorted u);
        map_index =
            rw (m.map_index, upper-not_equivalent less o key segs)
              (index-append_to less o key n segs);
        sorted = Sorted-append_to less o key n segs m.sorted;
        unique = Unique-insert_before _ n g.list (Below-Absent g.next_id g.list m.fresh) m.unique;
        fresh =
            Below-insert_before (suc g.next_id) _ n g.list (omega arith)
              (Below-suc g.next_id g.list m.fresh);
      }

  pub m_insert-prepend :
      (g : GroupedList K V) (segs : List (Segment K V)) (key : K) (value : V)
      → Models less g segs
      → Models less
          (m_insert less g (lower_bound less key g.group_map) key value)
          (prepend_to less key (new_node g value) segs)
  unfolding m_insert
  m_insert-prepend g segs key value m =
      let n = new_node g value in
      let u = rw m.list_flat at m.unique in
      record {
        list_flat = rw (m.map_index, m.list_flat) (flat-prepend_to key n segs u);
        map_index = rw m.map_index (index-prepend_to less o key n segs m.sorted);
        sorted = Sorted-prepend_to less o key n segs m.sorted;
        unique = Unique-insert_before _ n g.list (Below-Absent g.next_id g.list m.fresh) m.unique;
        fresh =
            Below-insert_before (suc g.next_id) _ n g.list (omega arith)
              (Below-suc g.next_id g.list m.fresh);
      }
