-- ===== src/Signal/Disconnect.antt =====
-- signal_template.hpp: the ways to disconnect slots. The list is read through a copy of the shared
-- state, and is not changed; a body's lock leaves its trash to the garbage.
use signals.Base.{ℕ, Bool, true, false, not, Option, none, some, List, [], ◌∷◌, ◌++◌, if◌then◌else◌}
use signals.Buffer.{◌>>=◌}
use signals.Groups.{GroupKey, group_key_less, grouped_slots, list_lower_bound, list_upper_bound}
use signals.Groups.Containers.{Node, nodes_from, same_iterator}
use signals.Connection.{Held, disconnect_body, hold, nolock_disconnect, nolock_nograb_connected}
use signals.Connection.Handle.{put_body}
use signals.Signal.{SignalImpl, current_list}

-- The nodes in front of an iterator.
abbrev pub nodes_until {ℓ} : {V : Type ℓ} → Option ℕ → List (Node V) → List (Node V)
nodes_until end [] = []
nodes_until end (x ∷ xs) = if same_iterator (some x.id) end then [] else x ∷ nodes_until end xs

-- What boost::function answers of a slot function and of the argument of disconnect: whether it
-- contains it, and whether its target of the type of a bound extended slot or of a weak signal does.
pub record Contains (F : Type 0) : Type 0 where
  pub contains : F → Bool
  pub bound_extended_contains : F → Option Bool
  pub weak_signal_contains : F → Option Bool

abbrev pub is_target : Option Bool → Bool
is_target none = false
is_target (some b) = b

abbrev pub matches : {F : Type 0} → Contains F → F → Bool
matches c f =
    if c.contains f
    then true
    else if is_target (c.bound_extended_contains f)
    then true
    else is_target (c.weak_signal_contains f)

module _ {F Group : Type 0} where
  -- do_disconnect's round. A connected body whose slot is gone is a failed assertion.
  unfoldable pub disconnect_matching :
      Contains F → Held F (GroupKey Group) → Option (Held F (GroupKey Group))
  unfolding nolock_disconnect nolock_nograb_connected
  disconnect_matching c h =
      let found = (do
        slot ← h.body.slot
        if matches c slot.slot_function then nolock_disconnect h else some h) in
      if not (nolock_nograb_connected h.body) then some h else found

module _ {F Group C : Type 0} where
  -- What has become of a body and the garbage of its lock are put back.
  abbrev pub put_held : ℕ → Held F (GroupKey Group) → SignalImpl F Group C → SignalImpl F Group C
  put_held i h s = record s {
    bodies = put_body i h.body s.bodies;
    garbage = s.garbage ++ h.garbage;
  }

  -- The loop of disconnect_all_slots and of disconnect( group ).
  unfoldable pub disconnect_each :
      List (Node ℕ) → SignalImpl F Group C → Option (SignalImpl F Group C)
  unfolding disconnect_body
  disconnect_each [] s = some s
  disconnect_each (n ∷ ns) s = do
    b ← s.bodies n.value
    h ← disconnect_body b
    disconnect_each ns (put_held n.value h s)

  unfoldable pub disconnect_all_slots : SignalImpl F Group C → Option (SignalImpl F Group C)
  unfolding disconnect_each
  disconnect_all_slots s = disconnect_each (current_list s).list s

  -- disconnect( group )
  unfoldable pub disconnect_group :
      (Group → Group → Bool) → Group → SignalImpl F Group C → Option (SignalImpl F Group C)
  unfolding disconnect_each group_key_less list_lower_bound list_upper_bound nodes_from
  disconnect_group group_compare group s =
      let key : GroupKey Group = record { first = grouped_slots; second = some group } in
      let less = group_key_less group_compare in
      let end_it = list_upper_bound less (current_list s) key in
      let it = list_lower_bound less (current_list s) key in
      disconnect_each (nodes_until end_it (nodes_from it (current_list s).list)) s

  unfoldable pub disconnect_matching_each :
      Contains F → List (Node ℕ) → SignalImpl F Group C → Option (SignalImpl F Group C)
  unfolding disconnect_matching
  disconnect_matching_each c [] s = some s
  disconnect_matching_each c (n ∷ ns) s = do
    b ← s.bodies n.value
    h ← disconnect_matching c (hold b)
    disconnect_matching_each c ns (put_held n.value h s)

  -- do_disconnect( slot )
  unfoldable pub do_disconnect : Contains F → SignalImpl F Group C → Option (SignalImpl F Group C)
  unfolding disconnect_matching_each
  do_disconnect c s = disconnect_matching_each c (current_list s).list s
