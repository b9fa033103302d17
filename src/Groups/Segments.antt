-- ===== src/Groups/Segments.antt =====
-- The abstract view of grouped_list: the groups in the order of their keys, each with its slots.
use signals.Base.{ℕ, ◌≡◌, ◌<◌, Bool, true, false, List, [], ◌∷◌, ◌++◌, ◌==◌, if◌then◌else◌}
use signals.Groups.{GroupedList}
use signals.Groups.Containers.{Node, Entry}

-- A group is never empty: its first node is the one that the map points to.
pub record Segment {ℓ κ} (K : Type ℓ) (V : Type κ) : Type (ℓ ⊔ κ) where
  pub key : K
  pub first : Node V
  pub rest : List (Node V)

module _ {ℓ κ} {K : Type ℓ} {V : Type κ} where
  abbrev pub nodes_of : Segment K V → List (Node V)
  nodes_of s = s.first ∷ s.rest

  abbrev pub flat : List (Segment K V) → List (Node V)
  flat [] = []
  flat (s ∷ segs) = nodes_of s ++ flat segs

  abbrev pub index : List (Segment K V) → List (Entry K)
  index [] = []
  index (s ∷ segs) = record { key = s.key; item = s.first.id } ∷ index segs

-- No node of the list has the identity.
abbrev pub Absent {κ} : {V : Type κ} → ℕ → List (Node V) → Type 0
Absent i [] = Unit {0}
Absent i (x ∷ xs) = ((i == x.id) ≡ false) × Absent i xs

abbrev pub Unique {κ} : {V : Type κ} → List (Node V) → Type 0
Unique [] = Unit {0}
Unique (x ∷ xs) = Absent x.id xs × Unique xs

abbrev pub Below {κ} : {V : Type κ} → ℕ → List (Node V) → Type 0
Below n [] = Unit {0}
Below n (x ∷ xs) = (x.id < n) × Below n xs

module _ {ℓ κ} {K : Type ℓ} {V : Type κ} (less : K → K → Bool) where
  abbrev pub Above : K → List (Segment K V) → Type 0
  Above key [] = Unit {0}
  Above key (t ∷ segs) = less key t.key ≡ true

  -- The keys rise from group to group.
  abbrev pub Sorted : List (Segment K V) → Type 0
  Sorted [] = Unit {0}
  Sorted (s ∷ segs) = Above s.key segs × Sorted segs

  -- What connecting a slot at the back or at the front of its group means.
  unfoldable pub append_to : K → Node V → List (Segment K V) → List (Segment K V)
  append_to key n [] = record { key = key; first = n; rest = [] } ∷ []
  append_to key n (s ∷ segs) =
      if less s.key key
      then s ∷ append_to key n segs
      else if less key s.key
      then record { key = key; first = n; rest = [] } ∷ s ∷ segs
      else record s { rest = s.rest ++ n ∷ [] } ∷ segs

  unfoldable pub prepend_to : K → Node V → List (Segment K V) → List (Segment K V)
  prepend_to key n [] = record { key = key; first = n; rest = [] } ∷ []
  prepend_to key n (s ∷ segs) =
      if less s.key key
      then s ∷ prepend_to key n segs
      else if less key s.key
      then record { key = key; first = n; rest = [] } ∷ s ∷ segs
      else record { key = key; first = n; rest = s.first ∷ s.rest } ∷ segs

  unfoldable pub without_group : K → List (Segment K V) → List (Segment K V)
  without_group key [] = []
  without_group key (s ∷ segs) =
      if less s.key key
      then s ∷ without_group key segs
      else if less key s.key
      then s ∷ segs
      else segs

  -- The representation: the list is the groups one after the other, the map their first nodes.
  pub record Models (g : GroupedList K V) (segs : List (Segment K V)) : Type (ℓ ⊔ κ) where
    pub list_flat : g.list ≡ flat segs
    pub map_index : g.group_map ≡ index segs
    pub sorted : Sorted segs
    pub unique : Unique g.list
    pub fresh : Below g.next_id g.list

-- What std::map asks of its comparison: a strict weak order.
pub record StrictWeakOrder {ℓ} {K : Type ℓ} (less : K → K → Bool) : Type ℓ where
  pub irreflexive : (a : K) → less a a ≡ false
  pub transitive : (a b c : K) → less a b ≡ true → less b c ≡ true → less a c ≡ true
  pub splits : (a b c : K) → less a b ≡ true → less a c ≡ false → less c b ≡ true
