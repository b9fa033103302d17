-- ===== src/Groups/Erase.antt =====
-- erase( key, it ) removes one slot, and its group when it was the only one.
use signals.Base.{
  ℕ, ◌≡◌, refl, ap, ◌∙◌, ◌⊎◌, Bool, true, false, List, [], ◌∷◌, ◌++◌, ◌==◌, if◌then◌else◌, arith,
  inl, inr,
}
use signals.Groups.Containers.{Node, node_after, erase_node}
use signals.Groups.Segments.{Segment, nodes_of, flat, Absent, Unique, Below}
use signals.Groups.Unique.{Absent-right, Unique_right}

abbrev pub Present {ℓ} : {V : Type ℓ} → ℕ → List (Node V) → Type 0
Present i [] = ⊥
Present i (x ∷ xs) = ((i == x.id) ≡ true) ⊎ Present i xs

module _ {V : Type 0} where
  pub Present-Absent :
      (i : ℕ) (xs ys : List (Node V)) → Present i ys → Unique (xs ++ ys) → Absent i xs
  Present-Absent i [] ys p u = tt
  Present-Absent i (x ∷ xs) ys p u =
      (apart i x ys p (Absent-right x.id xs ys u.0), Present-Absent i xs ys p u.1)
    where
      apart :
          (i : ℕ) (x : Node V) (ys : List (Node V))
          → Present i ys
          → Absent x.id ys
          → (i == x.id) ≡ false
      apart i x [] p a = absurd p
      apart i x (y ∷ ys) (inl e) a = ground arith
      apart i x (y ∷ ys) (inr p) a = apart i x ys p a.1

  pub erase_node-behind :
      (i : ℕ) (xs ys : List (Node V))
      → Absent i xs
      → erase_node i (xs ++ ys) ≡ xs ++ erase_node i ys
  unfolding erase_node
  erase_node-behind i [] ys a = refl
  erase_node-behind i (x ∷ xs) ys a = rw a.0 (ap (◌∷◌ x) (erase_node-behind i xs ys a.1))

  pub erase_node-within :
      (i : ℕ) (xs ys : List (Node V))
      → Present i xs
      → erase_node i (xs ++ ys) ≡ erase_node i xs ++ ys
  unfolding erase_node
  erase_node-within i [] ys p = absurd p
  erase_node-within i (x ∷ xs) ys (inl e) = ground arith
  erase_node-within i (x ∷ xs) ys (inr p) = ground (arith, erase_node-within i xs ys p)

  pub node_after-behind :
      (i : ℕ) (xs ys : List (Node V)) → Absent i xs → node_after i (xs ++ ys) ≡ node_after i ys
  unfolding node_after
  node_after-behind i [] ys a = refl
  node_after-behind i (x ∷ xs) ys a = rw a.0 (node_after-behind i xs ys a.1)

  pub Absent-erase_node : (j i : ℕ) (xs : List (Node V)) → Absent j xs → Absent j (erase_node i xs)
  unfolding erase_node
  Absent-erase_node j i [] a = tt
  Absent-erase_node j i (x ∷ xs) a = ground (arith, Absent-erase_node j i xs a.1)

  pub Unique-erase_node : (i : ℕ) (xs : List (Node V)) → Unique xs → Unique (erase_node i xs)
  unfolding erase_node
  Unique-erase_node i [] u = tt
  Unique-erase_node i (x ∷ xs) u =
      ground (arith, Unique-erase_node i xs u.1, Absent-erase_node x.id i xs u.0)

  pub Below-erase_node : (n i : ℕ) (xs : List (Node V)) → Below n xs → Below n (erase_node i xs)
  unfolding erase_node
  Below-erase_node n i [] b = tt
  Below-erase_node n i (x ∷ xs) b = ground (arith, Below-erase_node n i xs b.1)

module _ {K V : Type 0} (less : K → K → Bool) where
  -- A group without its first node, if any is left.
  abbrev pub drop_first : K → List (Node V) → List (Segment K V) → List (Segment K V)
  drop_first key [] segs = segs
  drop_first key (y ∷ ys) segs = record { key = key; first = y; rest = ys } ∷ segs

  unfoldable pub without_node : K → ℕ → List (Segment K V) → List (Segment K V)
  unfolding erase_node
  without_node key it [] = []
  without_node key it (s ∷ segs) =
      if less s.key key
      then s ∷ without_node key it segs
      else if it == s.first.id
      then drop_first s.key s.rest segs
      else record s { rest = erase_node it s.rest } ∷ segs

  -- The node stands in the group of the key.
  abbrev pub InGroup : K → ℕ → List (Segment K V) → Type 0
  InGroup key it [] = ⊥
  InGroup key it (s ∷ segs) =
      ((less s.key key ≡ true) × InGroup key it segs)
      ⊎ ((less s.key key ≡ false) × (less key s.key ≡ false) × Present it (nodes_of s))

  pub InGroup-Present :
      (key : K) (it : ℕ) (segs : List (Segment K V)) → InGroup key it segs → Present it (flat segs)
  InGroup-Present key it [] g = absurd g
  InGroup-Present key it (s ∷ segs) (inl (h, g)) =
      later (nodes_of s) (InGroup-Present key it segs g)
    where
      later : (xs : List (Node V)) → Present it (flat segs) → Present it (xs ++ flat segs)
      later [] p = p
      later (x ∷ xs) p = inr (later xs p)
  InGroup-Present key it (s ∷ segs) (inr (h, k, p)) = within (nodes_of s) p
    where
      within : (xs : List (Node V)) → Present it xs → Present it (xs ++ flat segs)
      within [] p = absurd p
      within (x ∷ xs) (inl e) = inl e
      within (x ∷ xs) (inr p) = inr (within xs p)

  -- The list after erase.
  pub flat-without_node :
      (key : K) (it : ℕ) (segs : List (Segment K V))
      → Unique (flat segs)
      → InGroup key it segs
      → erase_node it (flat segs) ≡ flat (without_node key it segs)
  unfolding without_node
  flat-without_node key it [] u g = absurd g
  flat-without_node key it (s ∷ segs) u (inl (h, g)) = rw h (
      erase_node-behind it (nodes_of s) (flat segs)
        (Present-Absent it (nodes_of s) (flat segs) (InGroup-Present key it segs g) u)
      ∙ ap (◌++◌ (nodes_of s))
          (flat-without_node key it segs (Unique_right (nodes_of s) (flat segs) u) g))
  flat-without_node key it (s ∷ segs) u (inr (h, k, p)) =
      rw h (erase_node-within it (nodes_of s) (flat segs) p ∙ dropped s.key s.first s.rest)
    where
      dropped :
          (k : K) (x : Node V) (xs : List (Node V))
          → erase_node it (x ∷ xs) ++ flat segs
            ≡ flat (
                if it == x.id
                then drop_first k xs segs
                else record { key = k; first = x; rest = erase_node it xs } ∷ segs)
      dropped k x [] = ground arith
      dropped k x (y ∷ ys) = ground arith
