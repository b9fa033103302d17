-- ===== src/Groups/Removed.antt =====
-- What erase( key, it ) does to the map of group keys, and to the whole list.
use signals.Base.{
  ℕ, ◌≡◌, refl, ap, ◌∙◌, Bool, true, false, not, List, [], ◌∷◌, ◌++◌, Option, none, some, ◌==◌,
  if◌then◌else◌, arith, get_elem?, inl, inr, Bool-cases,
}
use signals.Groups.{item_is, assign_next}
use signals.Groups.Containers.{
  Node, Entry, same_iterator, head_id, node_after, erase_node, lower_bound, erase_at, map_assign,
}
use signals.Groups.Segments.{
  Segment, nodes_of, flat, index, Absent, Unique, Above, Sorted, StrictWeakOrder,
}
use signals.Groups.Keys.{asym, Above-equivalent, entry_of}
use signals.Groups.Unique.{Absent-right, Unique_right}
use signals.Groups.Push.{upper, upper-skip, upper-stop}
use signals.Groups.Erase.{
  Present-Absent, without_node, drop_first, InGroup, InGroup-Present, node_after-behind,
}

module _ {K : Type 0} (less : K → K → Bool) where
  -- erase's change of the map, given the next node and the end of the group.
  abbrev erased_map : K → ℕ → Option ℕ → Option ℕ → List (Entry K) → List (Entry K)
  erased_map key it next end_it m =
      if item_is it (get_elem? m (lower_bound less key m))
      then (if not (same_iterator next end_it)
          then assign_next less key next m
          else erase_at (lower_bound less key m) m)
      else m

  assign_next-skip :
      (key : K) (next : Option ℕ) (e : Entry K) (m : List (Entry K))
      → less e.key key ≡ true
      → assign_next less key next (e ∷ m) ≡ e ∷ assign_next less key next m
  unfolding map_assign
  assign_next-skip key none e m h = refl
  assign_next-skip key (some n) e m h = rw h

  erased_map-skip :
      (key : K) (it : ℕ) (next end_it : Option ℕ) (e : Entry K) (m : List (Entry K))
      → less e.key key ≡ true
      → erased_map key it next end_it (e ∷ m) ≡ e ∷ erased_map key it next end_it m
  unfolding lower_bound erase_at
  erased_map-skip key it next end_it e m h =
      elim (Bool-cases (item_is it (get_elem? m (lower_bound less key m)))) [
        | inr other ↦ rw (h, other)
        | inl here ↦ elim (Bool-cases (same_iterator next end_it)) [
          | inl last ↦ rw (h, here, last)
          | inr more ↦ rw (h, here, more) (assign_next-skip key next e m h)
        ]
      ]

same_iterator_refl : (a : Option ℕ) → same_iterator a a ≡ true
same_iterator_refl none = refl
same_iterator_refl (some a) = ground arith

module _ {K V : Type 0} (less : K → K → Bool) (o : StrictWeakOrder less) where
  pub upper-Above :
      (key : K) (segs : List (Segment K V))
      → Above less key segs
      → upper less o key segs ≡ head_id (flat segs)
  upper-Above key [] a = refl
  upper-Above key (t ∷ segs) a = upper-stop less o key t segs a

  -- The first node of a later group is another one.
  pub head_apart :
      (y : Node V) (xs : List (Node V))
      → Absent y.id xs
      → same_iterator (some y.id) (head_id xs) ≡ false
  head_apart y [] a = refl
  head_apart y (x ∷ xs) a = a.0

  -- In the group itself.
  erased_here :
      (key : K) (it : ℕ) (k : K) (x : Node V) (xs : List (Node V)) (segs : List (Segment K V))
      → less k key ≡ false
      → less key k ≡ false
      → Above less key segs
      → Unique ((x ∷ xs) ++ flat segs)
      → erased_map less key it
          (node_after it ((x ∷ xs) ++ flat segs))
          (head_id (flat segs))
          (record { key = k; item = x.id } ∷ index segs)
        ≡ index (
            if it == x.id
            then drop_first less k xs segs
            else record { key = k; first = x; rest = erase_node it xs } ∷ segs)
  unfolding node_after lower_bound erase_at map_assign
  erased_here key it k x [] segs h j a u = elim (Bool-cases (it == x.id)) [
    | inl e ↦ simp (h, e, same_iterator_refl)
    | inr e ↦ simp (h, e)
  ]
  erased_here key it k x (y ∷ ys) segs h j a u = elim (Bool-cases (it == x.id)) [
    | inl e ↦ simp (h, j, e, head_apart y (flat segs) (Absent-right y.id ys (flat segs) u.1.0))
    | inr e ↦ simp (h, e)
  ]

  -- The map after erase.
  pub index-without_node :
      (key : K) (it : ℕ) (segs : List (Segment K V))
      → Sorted less segs
      → Unique (flat segs)
      → InGroup less key it segs
      → erased_map less key it (node_after it (flat segs)) (upper less o key segs) (index segs)
        ≡ index (without_node less key it segs)
  unfolding without_node
  index-without_node key it [] s u g = absurd g
  index-without_node key it (t ∷ segs) s u (inl (h, g)) =
      let p = InGroup-Present less key it segs g in
      rw
        (
          h,
          upper-skip less o key t segs (asym o t.key key h),
          node_after-behind it (nodes_of t) (flat segs)
              (Present-Absent it (nodes_of t) (flat segs) p u),
        )
        (erased_map-skip less key it (node_after it (flat segs)) (upper less o key segs)
            (entry_of less o t) (index segs) h
          ∙ ap (◌∷◌ (entry_of less o t))
              (index-without_node key it segs s.1 (Unique_right (nodes_of t) (flat segs) u) g))
  index-without_node key it (t ∷ segs) s u (inr (h, j, p)) =
      let a = Above-equivalent less o key t segs h j s.0 in
      rw (h, upper-skip less o key t segs j, upper-Above key segs a)
        (erased_here key it t.key t.first t.rest segs h j a u)
