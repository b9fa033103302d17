-- ===== src/Groups/Order.antt =====
-- group_key_less: where it has an answer, and that its order is a strict weak one where that of the groups
-- is one.
use signals.Base.{
  ◌≡◌, refl, sym, ap, ◌∙◌, ltb, not, Bool, true, false, Option, none, some, ◌==◌, if◌then◌else◌,
  arith,
}
use signals.Groups.{
  SlotMetaGroup, front_ungrouped_slots, grouped_slots, back_ungrouped_slots, meta_value, GroupKey,
  compare_groups, compare_keys, empty_first, group_key_less, answer_or,
}
use signals.Groups.Segments.{StrictWeakOrder}

abbrev chosen : Bool → Bool → Bool → Bool → Bool
chosen p q less g = if not p then less else if not q then false else g

settled-if :
    (p q less other : Bool) (c : Option Bool)
    → answer_or (if not p then some less else if not q then some false else c) other
      ≡ (if not p then less else if not q then false else answer_or c other)
settled-if true true less other c = refl
settled-if true false less other c = refl
settled-if false q less other c = refl

module _ {Group : Type 0} (cmp : Group → Group → Bool) where
  -- The order of the groups that may be missing: none is in front of all.
  abbrev less_group : Option Group → Option Group → Bool
  less_group (some a) (some b) = cmp a b
  less_group (some a) none = false
  less_group none (some b) = true
  less_group none none = false

  settled_group :
      (a b : Option Group)
      → answer_or (compare_groups cmp a b) (empty_first cmp a b) ≡ less_group a b
  unfolding compare_groups empty_first
  settled_group (some a) (some b) = refl
  settled_group (some a) none = refl
  settled_group none (some b) = refl
  settled_group none none = refl

  -- The order of keys without the empty optionals' assertions.
  less_lem :
      (a b : GroupKey Group)
      → group_key_less cmp a b ≡ (
          if not (meta_value a.first == meta_value b.first)
          then ltb (meta_value a.first) (meta_value b.first)
          else if not (meta_value a.first == meta_value grouped_slots)
          then false
          else less_group a.second b.second)
  unfolding group_key_less compare_keys
  less_lem a b =
      let same = meta_value a.first == meta_value b.first in
      let grouped = meta_value a.first == meta_value grouped_slots in
      let less = ltb (meta_value a.first) (meta_value b.first) in
      settled-if same grouped less (empty_first cmp a.second b.second)
        (compare_groups cmp a.second b.second)
      ∙ ap (chosen same grouped less) (settled_group a.second b.second)

module _ {Group : Type 0} (cmp : Group → Group → Bool) (o : StrictWeakOrder cmp) where
  compare_irreflexive : (a : Option Group) → less_group cmp a a ≡ false
  compare_irreflexive none = refl
  compare_irreflexive (some a) = o.irreflexive a

  compare_transitive :
      (a b c : Option Group)
      → less_group cmp a b ≡ true
      → less_group cmp b c ≡ true
      → less_group cmp a c ≡ true
  compare_transitive (some a) (some b) (some c) h k = o.transitive a b c h k
  compare_transitive none (some b) (some c) h k = refl
  compare_transitive _ _ _ h k = cc

  compare_splits :
      (a b c : Option Group)
      → less_group cmp a b ≡ true
      → less_group cmp a c ≡ false
      → less_group cmp c b ≡ true
  compare_splits (some a) (some b) (some c) h k = o.splits a b c h k
  compare_splits (some a) (some b) none h k = refl
  compare_splits none (some b) none h k = refl
  compare_splits _ _ _ h k = cc

  pub group_key_less-StrictWeakOrder : StrictWeakOrder (group_key_less cmp)
  group_key_less-StrictWeakOrder = record {
    irreflexive = λ a. less_lem cmp a a ∙ ground (arith, compare_irreflexive a.second);
    transitive = λ a b c h k.
        let h' = sym (less_lem cmp a b) ∙ h in
        let k' = sym (less_lem cmp b c) ∙ k in
        less_lem cmp a c ∙ ground (arith, compare_transitive a.second b.second c.second);
    splits = λ a b c h k.
        let h' = sym (less_lem cmp a b) ∙ h in
        let k' = sym (less_lem cmp a c) ∙ k in
        less_lem cmp c b ∙ ground (arith, compare_splits a.second b.second c.second);
  }

  -- No key is less than that of the slots in front, and none is greater than that of those behind.
  pub front_least :
      (a b : GroupKey Group) → a.first ≡ front_ungrouped_slots → group_key_less cmp b a ≡ false
  front_least a b h = less_lem cmp b a ∙ ground arith

  pub back_greatest :
      (a b : GroupKey Group) → a.first ≡ back_ungrouped_slots → group_key_less cmp a b ≡ false
  back_greatest a b h = less_lem cmp a b ∙ ground arith

-- The key of a slot in a group holds the group.
abbrev pub HoldsGroup : {Group : Type 0} → SlotMetaGroup → Option Group → Type 0
HoldsGroup front_ungrouped_slots x = Unit {0}
HoldsGroup back_ungrouped_slots x = Unit {0}
HoldsGroup {Group} grouped_slots x = (g : Group) × (x ≡ some g)

-- The slots in front stand before all groups, these as their comparison says, and the slots behind
-- after them; the slots in front are one group, and so are those behind.
abbrev pub stands_before :
    {Group : Type 0}
    → (Group → Group → Bool)
    → SlotMetaGroup
    → Option Group
    → SlotMetaGroup
    → Option Group
    → Bool
stands_before cmp front_ungrouped_slots x front_ungrouped_slots y = false
stands_before cmp front_ungrouped_slots x grouped_slots y = true
stands_before cmp front_ungrouped_slots x back_ungrouped_slots y = true
stands_before cmp grouped_slots x front_ungrouped_slots y = false
stands_before cmp grouped_slots (some x) grouped_slots (some y) = cmp x y
stands_before cmp grouped_slots x grouped_slots y = false
stands_before cmp grouped_slots x back_ungrouped_slots y = true
stands_before cmp back_ungrouped_slots x n y = false

module _ {Group : Type 0} (cmp : Group → Group → Bool) where
  compare_lem :
      (m n : SlotMetaGroup) (x y : Option Group)
      → HoldsGroup m x
      → HoldsGroup n y
      → compare_keys cmp (record { first = m; second = x }) (record { first = n; second = y })
        ≡ some (stands_before cmp m x n y)
  unfolding compare_keys compare_groups
  compare_lem front_ungrouped_slots front_ungrouped_slots x y h k = refl
  compare_lem front_ungrouped_slots grouped_slots x y h k = refl
  compare_lem front_ungrouped_slots back_ungrouped_slots x y h k = refl
  compare_lem grouped_slots front_ungrouped_slots x y h k = refl
  compare_lem grouped_slots grouped_slots x y h k = rw (h.1, k.1) refl
  compare_lem grouped_slots back_ungrouped_slots x y h k = refl
  compare_lem back_ungrouped_slots front_ungrouped_slots x y h k = refl
  compare_lem back_ungrouped_slots grouped_slots x y h k = refl
  compare_lem back_ungrouped_slots back_ungrouped_slots x y h k = refl

  -- Where the group comparison is a strict weak order, on two keys that hold a group if they are
  -- of a group, group_key_less does not read an empty optional, and answers that the slots in
  -- front stand before all groups, these as their comparison says, and the slots behind after
  -- them, where slots in front are not ordered among each other, nor are those behind; its order,
  -- made total, gives the same answer and is a strict weak order.
  pub compare_keys-orders :
      StrictWeakOrder cmp
      → (a b : GroupKey Group) → HoldsGroup a.first a.second
      → HoldsGroup b.first b.second
      → (compare_keys cmp a b ≡ some (stands_before cmp a.first a.second b.first b.second))
        × (group_key_less cmp a b ≡ stands_before cmp a.first a.second b.first b.second)
        × StrictWeakOrder (group_key_less cmp)
  unfolding group_key_less
  compare_keys-orders o a b h k =
      let e = compare_lem a.first b.first a.second b.second h k in
      (
        e,
        ap (λ c. answer_or c (empty_first cmp a.second b.second)) e,
        group_key_less-StrictWeakOrder cmp o,
      )
