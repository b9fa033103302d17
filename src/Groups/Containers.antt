-- ===== src/Groups/Containers.antt =====
-- What slot_groups.hpp uses of std::list and std::map. A node keeps its identity as long as it is in
-- the list; a map is a list of entries in the order of their keys.
use signals.Base.{
  ℕ, zero, suc, Bool, true, false, Option, none, some, List, [], ◌∷◌, ◌==◌, if◌then◌else◌,
}

pub record Node {ℓ} (V : Type ℓ) : Type ℓ where
  pub id : ℕ
  pub value : V

-- The item is an iterator to a group's first node.
pub record Entry {ℓ} (K : Type ℓ) : Type ℓ where
  pub key : K
  pub item : ℕ

abbrev pub same_iterator : Option ℕ → Option ℕ → Bool
same_iterator none none = true
same_iterator none (some b) = false
same_iterator (some a) none = false
same_iterator (some a) (some b) = a == b

-- The list iterator behind a map iterator; that of the map's end() is the list's end().
abbrev pub entry_item {ℓ} : {K : Type ℓ} → Option (Entry K) → Option ℕ
entry_item none = none
entry_item (some e) = some e.item

module _ {ℓ} {V : Type ℓ} where
  -- list::insert
  unfoldable pub insert_before : Option ℕ → Node V → List (Node V) → List (Node V)
  insert_before it n [] = n ∷ []
  insert_before it n (x ∷ xs) =
      if same_iterator it (some x.id) then n ∷ x ∷ xs else x ∷ insert_before it n xs

  -- list::erase( it )
  unfoldable pub erase_node : ℕ → List (Node V) → List (Node V)
  erase_node it [] = []
  erase_node it (x ∷ xs) = if it == x.id then xs else x ∷ erase_node it xs

  -- The nodes from the one at an iterator on.
  unfoldable pub nodes_from : Option ℕ → List (Node V) → List (Node V)
  nodes_from it [] = []
  nodes_from it (x ∷ xs) = if same_iterator it (some x.id) then x ∷ xs else nodes_from it xs

  -- list::erase( first, last )
  unfoldable pub erase_nodes : Option ℕ → Option ℕ → List (Node V) → List (Node V)
  unfolding nodes_from
  erase_nodes first last [] = []
  erase_nodes first last (x ∷ xs) =
      if same_iterator first (some x.id)
      then nodes_from last (x ∷ xs)
      else x ∷ erase_nodes first last xs

  abbrev pub head_id : List (Node V) → Option ℕ
  head_id [] = none
  head_id (x ∷ xs) = some x.id

  -- ++it
  unfoldable pub node_after : ℕ → List (Node V) → Option ℕ
  node_after it [] = none
  node_after it (x ∷ xs) = if it == x.id then head_id xs else node_after it xs

module _ {ℓ} {K : Type ℓ} where
  unfoldable pub erase_at : ℕ → List (Entry K) → List (Entry K)
  erase_at pos [] = []
  erase_at zero (e ∷ m) = m
  erase_at (suc pos) (e ∷ m) = e ∷ erase_at pos m

module _ {ℓ} {K : Type ℓ} (less : K → K → Bool) where
  -- The first entry whose key is not less, and the first whose key is greater.
  unfoldable pub lower_bound : K → List (Entry K) → ℕ
  lower_bound key [] = 0
  lower_bound key (e ∷ m) = if less e.key key then suc (lower_bound key m) else 0

  unfoldable pub upper_bound : K → List (Entry K) → ℕ
  upper_bound key [] = 0
  upper_bound key (e ∷ m) = if less key e.key then 0 else suc (upper_bound key m)

  -- map::insert: an entry with an equivalent key stays as it is.
  unfoldable pub map_insert : K → ℕ → List (Entry K) → List (Entry K)
  map_insert key it [] = record { key = key; item = it } ∷ []
  map_insert key it (e ∷ m) =
      if less e.key key
      then e ∷ map_insert key it m
      else if less key e.key
      then record { key = key; item = it } ∷ e ∷ m
      else e ∷ m

  -- map[ key ] = it: an entry with an equivalent key keeps its key.
  unfoldable pub map_assign : K → ℕ → List (Entry K) → List (Entry K)
  map_assign key it [] = record { key = key; item = it } ∷ []
  map_assign key it (e ∷ m) =
      if less e.key key
      then e ∷ map_assign key it m
      else if less key e.key
      then record { key = key; item = it } ∷ e ∷ m
      else record e { item = it } ∷ m
