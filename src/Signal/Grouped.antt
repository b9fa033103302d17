-- ===== src/Signal/Grouped.antt =====
-- disconnect( group ): the slots between the group's lower and upper bound are those of the group.
use signals.Base.{
  ℕ, ◌≡◌, refl, ap, Bool, true, Option, none, some, List, [], ◌∷◌, ◌++◌, ◌==◌, if◌then◌else◌, arith,
  inl, inr, Bool-cases,
}
use signals.Groups.{
  GroupKey, grouped_slots, group_key_less, list_lower_bound, list_upper_bound, get_list_iterator,
}
use signals.Groups.Containers.{Node, head_id, nodes_from, lower_bound}
use signals.Groups.Segments.{
  Segment, nodes_of, flat, index, Unique, Sorted, Models, StrictWeakOrder,
}
use signals.Groups.Order.{group_key_less-StrictWeakOrder}
use signals.Groups.Keys.{asym, Above-equivalent}
use signals.Groups.Unique.{AbsentAt, Absent-right, Unique_right}
use signals.Groups.Push.{upper, lower, upper-stop, upper-skip, lower-stop, lower-skip, item_absent}
use signals.Groups.Removed.{upper-Above, head_apart}
use signals.Connection.Handle.{AllCounted}
use signals.Signal.{SignalImpl, current_list}
use signals.Signal.Disconnect.{nodes_until, disconnect_group}
use signals.Signal.Stored.{Stored}
use signals.Signal.Disconnected.{Cuts, disconnect_each-Cuts}

same_test : (i : ℕ) → (i == i) ≡ true
same_test i = ground arith

module _ {V : Type 0} where
  from_behind :
      (it : Option ℕ) (xs ys : List (Node V))
      → AbsentAt it xs
      → nodes_from it (xs ++ ys) ≡ nodes_from it ys
  unfolding nodes_from
  from_behind it [] ys a = refl
  from_behind none (x ∷ xs) ys a = from_behind none xs ys tt
  from_behind (some i) (x ∷ xs) ys (h, a) = rw h (from_behind (some i) xs ys a)

  from_here : (x : Node V) (xs : List (Node V)) → nodes_from (some x.id) (x ∷ xs) ≡ x ∷ xs
  unfolding nodes_from
  from_here x xs = rw (same_test x.id) refl

  until_here : (x : Node V) (xs : List (Node V)) → nodes_until (some x.id) (x ∷ xs) ≡ []
  until_here x xs = rw (same_test x.id) refl

module _ {K V : Type 0} (less : K → K → Bool) where
  -- The nodes of the key's group.
  unfoldable pub group_nodes : K → List (Segment K V) → List (Node V)
  group_nodes key [] = []
  group_nodes key (t ∷ segs) =
      if less t.key key then group_nodes key segs else if less key t.key then [] else nodes_of t

module _ {K V : Type 0} (less : K → K → Bool) (o : StrictWeakOrder less) where
  until_end :
      (xs : List (Node V)) (segs : List (Segment K V))
      → Unique (xs ++ flat segs)
      → nodes_until (head_id (flat segs)) (xs ++ flat segs) ≡ xs
  until_end [] [] u = refl
  until_end [] (t ∷ segs) u = until_here t.first (t.rest ++ flat segs)
  until_end (x ∷ xs) segs (a, u) =
      rw (head_apart less o x (flat segs) (Absent-right x.id xs (flat segs) a))
        (ap (λ t. x ∷ t) (until_end xs segs u))

  range_lem :
      (key : K) (segs : List (Segment K V))
      → Sorted less segs
      → Unique (flat segs)
      → nodes_until (upper less o key segs) (nodes_from (lower less o key segs) (flat segs))
        ≡ group_nodes less key segs
  unfolding group_nodes
  range_lem key [] s u = unfold nodes_from in refl
  range_lem key (t ∷ segs) s u = elim (Bool-cases (less t.key key)) [
    | inl later ↦
        rw
          (
            later,
            upper-skip less o key t segs (asym o t.key key later),
            lower-skip less o key t segs later,
            from_behind (lower less o key segs) (nodes_of t) (flat segs)
                (item_absent less o (nodes_of t) segs (lower_bound less key (index segs)) u),
          )
          (range_lem key segs s.1 (Unique_right (nodes_of t) (flat segs) u))
    | inr stop ↦ elim (Bool-cases (less key t.key)) [
      | inl before ↦
          rw
            (
              stop,
              before,
              upper-stop less o key t segs before,
              lower-stop less o key t segs stop,
              from_here t.first (t.rest ++ flat segs),
            )
            (until_here t.first (t.rest ++ flat segs))
      | inr same ↦
          rw
            (
              stop,
              same,
              upper-skip less o key t segs same,
              upper-Above less o key segs (Above-equivalent less o key t segs stop same s.0),
              lower-stop less o key t segs stop,
              from_here t.first (t.rest ++ flat segs),
            )
            (until_end (nodes_of t) segs u)
    ]
  ]

abbrev pub group_of : {Group : Type 0} → Group → GroupKey Group
group_of group = record { first = grouped_slots; second = some group }

module _ {F Group C : Type 0} (cmp : Group → Group → Bool) (o : StrictWeakOrder cmp) where
  -- Where the signal's list represents a sorted sequence of groups, under a strict weak order of
  -- the groups, all bodies are counted and those of the group exist, disconnect( group ) passes
  -- every assertion; afterwards a body is connected exactly if it was before and is not in the
  -- group; all bodies are counted for the same invocations, and the lists and the shared state are
  -- as before.
  pub disconnect_group-Cuts :
      (users : ℕ → ℕ) (group : Group) (s : SignalImpl F Group C)
      (segs : List (Segment (GroupKey Group) ℕ))
      → Models (group_key_less cmp) (current_list s) segs
      → AllCounted users s.bodies
      → Stored (group_nodes (group_key_less cmp) (group_of group) segs) s.bodies
      → Cuts users
          (group_nodes (group_key_less cmp) (group_of group) segs)
          s
          (disconnect_group cmp group s)
  unfolding disconnect_group list_lower_bound list_upper_bound get_list_iterator
  disconnect_group-Cuts users group s segs m all stored =
      let k = group_key_less-StrictWeakOrder cmp o in
      let u : Unique (flat segs) = rw m.list_flat at m.unique in
      rw
        (
          m.map_index,
          m.list_flat,
          range_lem (group_key_less cmp) k (group_of group) segs m.sorted u,
        )
        (disconnect_each-Cuts users (group_nodes (group_key_less cmp) (group_of group) segs) s all
          stored)
