-- ===== src/Groups/Copied.antt =====
-- The copy constructor of grouped_list: the copy's map points to the copy's own nodes.
use signals.Base.{
  ℕ, suc, ◌+◌, ◌<◌, ◌≡◌, refl, sym, ap, ◌∙◌, Bool, true, false, some, List, [], ◌∷◌, ◌++◌, ◌==◌,
  arith, length, append_assoc,
}
use signals.Groups.{GroupedList}
use signals.Groups.Containers.{Node, same_iterator, nodes_from}
use signals.Groups.Segments.{Segment, nodes_of, flat, index, Absent, Unique, Below, Sorted, Models}
use signals.Groups.Unique.{Absent-right, Unique_right, Unique-Absent}
use signals.Groups.Duplicate.{copy_nodes, walk, fix_map, copy_list, next_entry}

module _ {K V : Type 0} where
  -- The same groups of the same slots, in new nodes whose identities are numbered on.
  unfoldable pub renumber : ℕ → List (Segment K V) → List (Segment K V)
  unfolding copy_nodes
  renumber n [] = []
  renumber n (s ∷ segs) =
      record {
        key = s.key;
        first = record { id = n; value = s.first.value };
        rest = copy_nodes (suc n) s.rest;
      }
      ∷ renumber (n + length (nodes_of s)) segs

plus_zero : (n : ℕ) → n ≡ n + 0
plus_zero n = omega arith

same_test : (i : ℕ) → (i == i) ≡ true
same_test i = ground arith

module _ {V : Type 0} where
  copy_nodes-append :
      (n : ℕ) (xs ys : List (Node V))
      → copy_nodes n (xs ++ ys) ≡ copy_nodes n xs ++ copy_nodes (n + length xs) ys
  unfolding copy_nodes
  copy_nodes-append n [] ys = ap (λ k. copy_nodes k ys) (omega arith)
  copy_nodes-append n (x ∷ xs) ys =
      ap (λ t. record { id = n; value = x.value } ∷ t)
        (copy_nodes-append (suc n) xs ys
          ∙ ap (λ k. copy_nodes (suc n) xs ++ copy_nodes k ys) (omega arith))

  nodes_from-append :
      (x : Node V) (xs ys : List (Node V))
      → Absent x.id xs
      → nodes_from (some x.id) (xs ++ x ∷ ys) ≡ x ∷ ys
  unfolding nodes_from
  nodes_from-append x [] ys a = rw (same_test x.id) refl
  nodes_from-append x (y ∷ xs) ys (h, a) = rw h (nodes_from-append x xs ys a)

  Absent-copy_nodes : (i n : ℕ) (xs : List (Node V)) → i < n → Absent i (copy_nodes n xs)
  unfolding copy_nodes
  Absent-copy_nodes i n [] h = tt
  Absent-copy_nodes i n (x ∷ xs) h = (ground arith, Absent-copy_nodes i (suc n) xs (omega arith))

  Unique-copy_nodes : (n : ℕ) (xs : List (Node V)) → Unique (copy_nodes n xs)
  unfolding copy_nodes
  Unique-copy_nodes n [] = tt
  Unique-copy_nodes n (x ∷ xs) =
      (Absent-copy_nodes n (suc n) xs (omega arith), Unique-copy_nodes (suc n) xs)

  Below-copy_nodes : (n m : ℕ) (xs : List (Node V)) → n + length xs ≡ m → Below m (copy_nodes n xs)
  unfolding copy_nodes
  Below-copy_nodes n m [] h = tt
  Below-copy_nodes n m (x ∷ xs) h = (omega arith, Below-copy_nodes (suc n) m xs (omega arith))

module _ {K V : Type 0} where
  flat-renumber :
      (n : ℕ) (segs : List (Segment K V)) → copy_nodes n (flat segs) ≡ flat (renumber n segs)
  unfolding copy_nodes renumber
  flat-renumber n [] = refl
  flat-renumber n (s ∷ segs) =
      copy_nodes-append n (nodes_of s) (flat segs)
      ∙ ap (λ t. copy_nodes n (nodes_of s) ++ t) (flat-renumber (n + length (nodes_of s)) segs)

  not_next :
      (x : Node V) (xs : List (Node V)) (segs : List (Segment K V))
      → Absent x.id (xs ++ flat segs)
      → same_iterator (some x.id) (next_entry (index segs)) ≡ false
  not_next x xs [] a = refl
  not_next x xs (t ∷ segs) a = (Absent-right x.id xs (flat (t ∷ segs)) a).0

  walk_lem :
      (n : ℕ) (xs : List (Node V)) (segs : List (Segment K V))
      → Unique (xs ++ flat segs)
      → walk (xs ++ flat segs) (next_entry (index segs)) (copy_nodes n (xs ++ flat segs))
        ≡ copy_nodes (n + length xs) (flat segs)
  unfolding walk copy_nodes
  walk_lem n [] [] u = refl
  walk_lem n [] (t ∷ segs) u =
      rw (same_test t.first.id) (ap (λ k. copy_nodes k (flat (t ∷ segs))) (plus_zero n))
  walk_lem n (x ∷ xs) segs (a, u) =
      rw (not_next x xs segs a)
        (walk_lem (suc n) xs segs u ∙ ap (λ k. copy_nodes k (flat segs)) (omega arith))

  fix_map-index :
      (n : ℕ) (others pre : List (Node V)) (segs : List (Segment K V))
      → others ≡ pre ++ flat segs
      → Unique others
      → fix_map others (index segs) (copy_nodes n (flat segs)) ≡ index (renumber n segs)
  unfolding fix_map renumber
  fix_map-index n others pre [] e u = refl
  fix_map-index n others pre (s ∷ segs) e u =
      let v : Unique (pre ++ flat (s ∷ segs)) = rw e at u in
      let a = Unique-Absent pre (s.rest ++ flat segs) s.first v in
      let found : nodes_from (some s.first.id) others ≡ nodes_of s ++ flat segs =
        rw e (nodes_from-append s.first pre (s.rest ++ flat segs) a) in
      let w = walk_lem n (nodes_of s) segs (Unique_right pre (flat (s ∷ segs)) v) in
      let ih =
        fix_map-index (n + length (nodes_of s)) others (pre ++ nodes_of s) segs
          (e ∙ sym (append_assoc pre (nodes_of s) (flat segs))) u in
      rw (found, w) (ap (λ t. record { key = s.key; item = n } ∷ t) ih)

  Sorted-renumber :
      (less : K → K → Bool) (n : ℕ) (segs : List (Segment K V))
      → Sorted less segs
      → Sorted less (renumber n segs)
  unfolding renumber
  Sorted-renumber less n [] s = tt
  Sorted-renumber less n (t ∷ []) s = (tt, tt)
  Sorted-renumber less n (t ∷ u ∷ segs) (h, s) =
      (h, Sorted-renumber less (n + length (nodes_of t)) (u ∷ segs) s)

  -- The copy constructor of a grouped list that represents a sorted sequence of groups makes a
  -- list that represents the same groups with the same slots, in nodes of its own, to which its
  -- map points.
  pub copy_list-Models :
      (less : K → K → Bool) (g : GroupedList K V) (segs : List (Segment K V))
      → Models less g segs
      → Models less (copy_list g) (renumber g.next_id segs)
  unfolding copy_list
  copy_list-Models less g segs m = record {
    list_flat = rw m.list_flat (flat-renumber g.next_id segs);
    map_index =
        rw (m.map_index, m.list_flat)
          (fix_map-index g.next_id (flat segs) [] segs refl (rw m.list_flat at m.unique));
    sorted = Sorted-renumber less g.next_id segs m.sorted;
    unique = Unique-copy_nodes g.next_id g.list;
    fresh = Below-copy_nodes g.next_id (g.next_id + length g.list) g.list refl;
  }
