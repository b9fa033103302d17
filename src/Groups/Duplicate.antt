-- ===== src/Groups/Duplicate.antt =====
-- grouped_list's copy constructor: the nodes are copied, and the map is made to point to the copies.
use signals.Base.{ℕ, suc, ◌+◌, Option, none, some, List, [], ◌∷◌, if◌then◌else◌, length}
use signals.Groups.{GroupedList}
use signals.Groups.Containers.{Node, Entry, same_iterator, nodes_from}

module _ {ℓ} {V : Type ℓ} where
  -- list::list( other ): new nodes with the same values.
  unfoldable pub copy_nodes : ℕ → List (Node V) → List (Node V)
  copy_nodes next [] = []
  copy_nodes next (x ∷ xs) = record { id = next; value = x.value } ∷ copy_nodes (suc next) xs

  abbrev pub rest_of : List (Node V) → List (Node V)
  rest_of [] = []
  rest_of (x ∷ xs) = xs

  -- while(other_list_it != other_next_list_it) { ++other_list_it; ++this_list_it; }
  unfoldable pub walk : List (Node V) → Option ℕ → List (Node V) → List (Node V)
  walk [] next this = this
  walk (x ∷ others) next this =
      let moved = walk others next (rest_of this) in
      if same_iterator (some x.id) next then this else moved

  -- An entry of the copied map cannot point to the end of the list.
  abbrev pub point_to : {K : Type ℓ} → Entry K → List (Node V) → Entry K
  point_to e [] = e
  point_to e (x ∷ xs) = record e { item = x.id }

abbrev pub next_entry {ℓ} : {K : Type ℓ} → List (Entry K) → Option ℕ
next_entry [] = none
next_entry (e ∷ m) = some e.item

module _ {ℓ} {K V : Type ℓ} where
  -- The loop over both maps; `this` is what lies behind this_list_it.
  unfoldable pub fix_map : List (Node V) → List (Entry K) → List (Node V) → List (Entry K)
  unfolding walk nodes_from
  fix_map others [] this = []
  fix_map others (e ∷ m) this =
      point_to e this
      ∷ fix_map others m (walk (nodes_from (some e.item) others) (next_entry m) this)

  unfoldable pub copy_list : GroupedList K V → GroupedList K V
  unfolding copy_nodes fix_map
  copy_list other =
      let nodes = copy_nodes other.next_id other.list in
      record {
        list = nodes;
        group_map = fix_map other.list other.group_map nodes;
        next_id = other.next_id + length other.list;
      }
