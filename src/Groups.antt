-- ===== src/Groups.antt =====
-- include/boost/signals2/detail/slot_groups.hpp: group keys, their order, and grouped_list, a list
-- of slots with a map from each group's key to the group's first list item.
-- A list iterator is the identity of a node, or `none` for end(); a map iterator is a position.
pub mod Containers
pub mod Segments
pub mod Order
pub mod Unique
pub mod Keys
pub mod Push
pub mod Erase
pub mod Removed
pub mod Refine
pub mod Duplicate
pub mod Copied
use signals.Base.{
  ℕ, suc, ◌+◌, ◌-◌, Bool, true, false, not, ◌&&◌, ◌||◌, Option, none, some, List, [], ◌∷◌, ltb,
  ◌==◌, if◌then◌else◌, get_elem?, length,
}
use Containers.{
  Node, Entry, insert_before, erase_node, erase_nodes, lower_bound, upper_bound, erase_at,
  map_insert, map_assign, node_after, same_iterator, entry_item,
}

pub data SlotMetaGroup : Type 0 where
  front_ungrouped_slots grouped_slots back_ungrouped_slots : SlotMetaGroup

-- The enumerators' values.
abbrev pub meta_value : SlotMetaGroup → ℕ
meta_value front_ungrouped_slots = 0
meta_value grouped_slots = 1
meta_value back_ungrouped_slots = 2

pub record GroupKey {ℓ} (Group : Type ℓ) : Type ℓ where
  pub first : SlotMetaGroup
  pub second : Option Group

abbrev pub answer_or : Option Bool → Bool → Bool
answer_or none other = other
answer_or (some less) other = less

module _ {ℓ} {Group : Type ℓ} (group_compare : Group → Group → Bool) where
  -- `get` of an empty optional is a failed assertion.
  unfoldable pub compare_groups : Option Group → Option Group → Option Bool
  compare_groups (some a) (some b) = some (group_compare a b)
  compare_groups (some a) none = none
  compare_groups none b = none

  -- group_key_less::operator()
  unfoldable pub compare_keys : GroupKey Group → GroupKey Group → Option Bool
  unfolding compare_groups
  compare_keys key1 key2 =
      if not (meta_value key1.first == meta_value key2.first)
      then some (ltb (meta_value key1.first) (meta_value key2.first))
      else if not (meta_value key1.first == meta_value grouped_slots)
      then some false
      else compare_groups key1.second key2.second

  -- An order for where there is no answer, which no caller meets: grouped keys hold a group.
  unfoldable pub empty_first : Option Group → Option Group → Bool
  empty_first none (some b) = true
  empty_first (some a) b = false
  empty_first none none = false

  -- The answer of group_key_less, made total.
  unfoldable pub group_key_less : GroupKey Group → GroupKey Group → Bool
  unfolding compare_keys empty_first
  group_key_less key1 key2 =
      answer_or (compare_keys key1 key2) (empty_first key1.second key2.second)

-- `next_id` is the identity of the next node that the list allocates.
pub record GroupedList {ℓ κ} (K : Type ℓ) (V : Type κ) : Type (ℓ ⊔ κ) where
  pub list : List (Node V)
  pub group_map : List (Entry K)
  pub next_id : ℕ

-- map_it->second == it, the sides exchanged; end() is not looked at.
abbrev pub item_is {ℓ} : {K : Type ℓ} → ℕ → Option (Entry K) → Bool
item_is it none = false
item_is it (some e) = it == e.item

-- _group_map[key] = next; a next of end() is equal to every upper bound behind it.
abbrev pub assign_next {ℓ} :
    {K : Type ℓ} → (K → K → Bool) → K → Option ℕ → List (Entry K) → List (Entry K)
assign_next less key none m = m
assign_next less key (some next) m = map_assign less key next m

module _ {ℓ} {K : Type ℓ} (less : K → K → Bool) where
  unfoldable pub weakly_equivalent : K → K → Bool
  weakly_equivalent a b = if less a b then false else if less b a then false else true

  -- Whether the entry at a position of a map has an equivalent key; end() has none.
  unfoldable pub entry_equivalent : K → Option (Entry K) → Bool
  unfolding weakly_equivalent
  entry_equivalent key none = false
  entry_equivalent key (some e) = weakly_equivalent key e.key

  -- The end of m_insert: an entry for the new node, unless the group has one.
  unfoldable pub insert_absent : K → ℕ → List (Entry K) → List (Entry K)
  unfolding entry_equivalent
  insert_absent key new_it m =
      if not (entry_equivalent key (get_elem? m (lower_bound less key m)))
      then map_insert less key new_it m
      else m

module _ {ℓ κ} {K : Type ℓ} {V : Type κ} (less : K → K → Bool) where
  unfoldable pub get_list_iterator : GroupedList K V → ℕ → Option ℕ
  get_list_iterator g pos = entry_item (get_elem? g.group_map pos)

  unfoldable pub m_insert : GroupedList K V → ℕ → K → V → GroupedList K V
  unfolding get_list_iterator entry_equivalent insert_absent
  m_insert g map_it key value =
      let new_it = g.next_id in
      let list' =
        insert_before (get_list_iterator g map_it) (record { id = new_it; value = value }) g.list in
      let map₁ =
        if entry_equivalent less key (get_elem? g.group_map map_it)
        then erase_at map_it g.group_map
        else g.group_map in
      let map₂ = insert_absent less key new_it map₁ in
      record { list = list'; group_map = map₂; next_id = suc g.next_id }

  -- lower_bound( key ) and upper_bound( key ) as list iterators
  unfoldable pub list_lower_bound : GroupedList K V → K → Option ℕ
  unfolding get_list_iterator
  list_lower_bound g key = get_list_iterator g (lower_bound less key g.group_map)

  unfoldable pub list_upper_bound : GroupedList K V → K → Option ℕ
  unfolding get_list_iterator
  list_upper_bound g key = get_list_iterator g (upper_bound less key g.group_map)

  -- erase( key )
  unfoldable pub erase_group : GroupedList K V → K → GroupedList K V
  unfolding get_list_iterator list_upper_bound
  erase_group g key =
      let map_it = lower_bound less key g.group_map in
      let begin_list_it = get_list_iterator g map_it in
      let end_list_it = list_upper_bound g key in
      if same_iterator begin_list_it end_list_it then g else record g {
        list = erase_nodes begin_list_it end_list_it g.list;
        group_map = erase_at map_it g.group_map;
      }

  -- erase( key, it ): `none` is a failed assertion.
  unfoldable pub erase : GroupedList K V → K → ℕ → Option (GroupedList K V × Option ℕ)
  unfolding entry_equivalent list_upper_bound
  erase g key it =
      let map_it = lower_bound less key g.group_map in
      let next = node_after it g.list in
      let map' =
        if item_is it (get_elem? g.group_map map_it)
        then (if not (same_iterator next (list_upper_bound g key))
            then assign_next less key next g.group_map
            else erase_at map_it g.group_map)
        else g.group_map in
      if not (entry_equivalent less key (get_elem? g.group_map map_it))
      then none
      else some (record g { list = erase_node it g.list; group_map = map' }, next)

  unfoldable pub clear : GroupedList K V → GroupedList K V
  clear g = record g { list = []; group_map = [] }

module _ {ℓ κ} {Group : Type ℓ} {V : Type κ} (group_compare : Group → Group → Bool) where
  -- `_group_map.begin()` where the key is that of the slots in front of all groups.
  unfoldable pub push_front :
      GroupedList (GroupKey Group) V → GroupKey Group → V → GroupedList (GroupKey Group) V
  unfolding m_insert group_key_less
  push_front g key value =
      let map_it =
        if meta_value key.first == meta_value front_ungrouped_slots
        then 0
        else lower_bound (group_key_less group_compare) key g.group_map in
      m_insert (group_key_less group_compare) g map_it key value

  -- `_group_map.end()` where the key is that of the slots behind all groups.
  unfoldable pub push_back :
      GroupedList (GroupKey Group) V → GroupKey Group → V → GroupedList (GroupKey Group) V
  unfolding m_insert group_key_less
  push_back g key value =
      let map_it =
        if meta_value key.first == meta_value back_ungrouped_slots
        then length g.group_map
        else upper_bound (group_key_less group_compare) key g.group_map in
      m_insert (group_key_less group_compare) g map_it key value
