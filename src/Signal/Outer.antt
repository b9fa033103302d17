-- ===== src/Signal/Outer.antt =====
-- connect without a group: the new slot is the first of the whole list, or the last.
use signals.Base.{
  ℕ, ◌≡◌, refl, sym, ap, subst, ◌∙◌, Bool, true, false, none, List, [], ◌∷◌, ◌++◌, append_assoc,
  append-nil, arith, inl, inr, Bool-cases,
}
use signals.Slot.{Slot}
use signals.Groups.{GroupKey, group_key_less, front_ungrouped_slots, back_ungrouped_slots}
use signals.Groups.Containers.{Node}
use signals.Groups.Segments.{
  Segment, flat, nodes_of, Above, Sorted, StrictWeakOrder, append_to, prepend_to,
}
use signals.Groups.Order.{group_key_less-StrictWeakOrder, front_least, back_greatest}
use signals.Signal.{SignalImpl, unique, current_list}
use signals.Signal.Connect.{ConnectPosition, at_back, at_front, ungrouped_key, nolock_connect}
use signals.Signal.Emit.{values_of}
use signals.Signal.Begun.{values_of-append}
use signals.Signal.Sharing.{addressed, is_reader_list}
use signals.Signal.Consistent.{Consistent}
use signals.Signal.Placed.{place}
use signals.Signal.Connected.{Connects, nolock_connect-Connects}

-- The key of the slots in front of all groups, or behind them.
abbrev pub outer_key : {Group : Type 0} → ConnectPosition → GroupKey Group
outer_key at_front = record { first = front_ungrouped_slots; second = none }
outer_key at_back = record { first = back_ungrouped_slots; second = none }

-- A value in front of all values, or behind them.
abbrev pub outermost : {A : Type 0} → ConnectPosition → A → List A → List A
outermost at_front x xs = x ∷ xs
outermost at_back x xs = xs ++ x ∷ []

same_key :
    {Group : Type 0} (position : ConnectPosition)
    → outer_key {Group = Group} position ≡ ungrouped_key position
same_key at_front = refl
same_key at_back = refl

end_lem : {A : Type 0} (n : A) (xs : List A) → (xs ++ n ∷ []) ++ [] ≡ (xs ++ []) ++ n ∷ []
end_lem n xs = append-nil (xs ++ n ∷ []) ∙ ap (λ l. l ++ n ∷ []) (sym (append-nil xs))

module _ {Group : Type 0} (cmp : Group → Group → Bool) (o : StrictWeakOrder cmp) where
  place_front :
      (n : Node ℕ) (segs : List (Segment (GroupKey Group) ℕ))
      → flat (prepend_to (group_key_less cmp) (outer_key at_front) n segs) ≡ n ∷ flat segs
  unfolding prepend_to
  place_front n [] = refl
  place_front n (s ∷ segs) =
      rw (front_least cmp o (outer_key at_front) s.key refl)
        (elim (Bool-cases (group_key_less cmp (outer_key at_front) s.key)) [
          | inl h ↦ rw h refl
          | inr h ↦ rw h refl
        ])

  -- A group that is not less than the slots behind has none above it.
  last_group :
      (s : Segment (GroupKey Group) ℕ) (segs : List (Segment (GroupKey Group) ℕ))
      → group_key_less cmp s.key (outer_key at_back) ≡ false
      → Above (group_key_less cmp) s.key segs
      → segs ≡ []
  last_group s [] h a = refl
  last_group s (t ∷ segs) h a =
      let k = group_key_less-StrictWeakOrder cmp o in
      let over = k.splits s.key t.key (outer_key at_back) a h in
      let under = back_greatest cmp o (outer_key at_back) t.key refl in absurd (ground arith)

  place_back :
      (n : Node ℕ) (segs : List (Segment (GroupKey Group) ℕ))
      → Sorted (group_key_less cmp) segs
      → flat (append_to (group_key_less cmp) (outer_key at_back) n segs) ≡ flat segs ++ n ∷ []
  unfolding append_to
  place_back n [] sorted = refl
  place_back n (s ∷ segs) (above, sorted) =
      elim (Bool-cases (group_key_less cmp s.key (outer_key at_back))) [
        | inl h ↦ rw h (
            ap (λ l. nodes_of s ++ l) (place_back n segs sorted)
            ∙ sym (append_assoc (nodes_of s) (flat segs) (n ∷ [])))
        | inr h ↦ rw h (
            rw (back_greatest cmp o (outer_key at_back) s.key refl)
              (rw (last_group s segs h above) (end_lem n (nodes_of s))))
      ]

  place-outermost :
      (position : ConnectPosition) (n : Node ℕ) (segs : List (Segment (GroupKey Group) ℕ))
      → Sorted (group_key_less cmp) segs
      → values_of (flat (place (group_key_less cmp) position (outer_key position) n segs))
        ≡ outermost position n.value (values_of (flat segs))
  place-outermost at_front n segs sorted = ap values_of (place_front n segs)
  place-outermost at_back n segs sorted =
      ap values_of (place_back n segs sorted) ∙ values_of-append (flat segs) (n ∷ [])

module _ {F Group C : Type 0} (cmp : Group → Group → Bool) (alive : ℕ → Bool) where
  -- connect of a slot without a group passes every assertion, returns the identity of a new body
  -- with the slot, and leaves a consistent signal whose list is the list of before, without some
  -- slots that cannot be called, and with the new slot in front of them all, for the front, or
  -- behind them all, for the back, under the key of the slots that stand there; the other bodies
  -- that could be called still can, no call holds the state, and the lists that calls read are as
  -- before. The group comparison is a strict weak order, the signal is consistent, the readers'
  -- addresses have been allocated, a list that a call reads belongs to a state that a call holds,
  -- and the new body's identity is unused.
  pub nolock_connect-Outer :
      (o : StrictWeakOrder cmp) (users : ℕ → ℕ) (segs : List (Segment (GroupKey Group) ℕ))
      (slot : Slot F) (position : ConnectPosition) (s : SignalImpl F Group C)
      → Consistent cmp users segs s
      → addressed s.next_address s.readers ≡ true
      → (unique s ≡ true → is_reader_list s.shared_state.connection_bodies s.readers ≡ false)
      → s.bodies s.next_body ≡ none
      → users s.next_body ≡ 0
      → (c : Connects cmp alive users position
          (outer_key position)
          slot
          s
          (nolock_connect cmp alive slot position s))
        × (values_of (current_list c.after).list
            ≡ outermost position s.next_body (values_of (flat c.segs)))
  nolock_connect-Outer o users segs slot position s c low apart free unused =
      let r =
        subst
          (λ k.
            Connects cmp alive users position k slot s (nolock_connect cmp alive slot position s))
          (sym (same_key position))
          (nolock_connect-Connects cmp alive o users segs slot position s c low apart free
            unused) in
      (
        r,
        ap values_of r.consistent.models.list_flat
            ∙ place-outermost cmp o position (record { id = r.node_id; value = s.next_body }) r.segs
                r.sorted,
      )
