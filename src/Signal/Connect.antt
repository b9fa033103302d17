-- ===== src/Signal/Connect.antt =====
-- signal_template.hpp: connect, with its two overloads of nolock_connect.
use signals.Base.{ℕ, suc, Bool, Option, none, some, ◌==◌, if◌then◌else◌}
use signals.Buffer.{◌>>=◌}
use signals.Slot.{Slot}
use signals.Groups.{
  GroupKey, front_ungrouped_slots, grouped_slots, back_ungrouped_slots, push_front, push_back,
}
use signals.Connection.{ConnectionBody, make_body}
use signals.Connection.Handle.{Store, put_body}
use signals.Signal.{SignalImpl, ConnectionList, current_list, set_current_list}
use signals.Signal.Cleanup.{nolock_force_unique_connection_list}

pub data ConnectPosition : Type 0 where
  at_back at_front : ConnectPosition

-- connection_body::set_group_key
unfoldable pub set_group_key :
    {F K : Type 0} → K → Option (ConnectionBody F K) → Option (ConnectionBody F K)
set_group_key key none = none
set_group_key key (some b) = some (record b { group_key = key })

abbrev pub ungrouped_key : {Group : Type 0} → ConnectPosition → GroupKey Group
ungrouped_key at_back = record { first = back_ungrouped_slots; second = none }
ungrouped_key at_front = record { first = front_ungrouped_slots; second = none }

module _ {Group : Type 0} (group_compare : Group → Group → Bool) where
  -- push_back or push_front of the body, as the position says.
  unfoldable pub push_at :
      ConnectPosition → GroupKey Group → ℕ → ConnectionList Group → ConnectionList Group
  unfolding push_back push_front
  push_at at_back key i l = push_back group_compare l key i
  push_at at_front key i l = push_front group_compare l key i

module _ {F Group : Type 0} where
  abbrev pub set_key_of : GroupKey Group → ℕ → Store F (GroupKey Group) → Store F (GroupKey Group)
  unfolding set_group_key
  set_key_of key i bodies j = if i == j then set_group_key key (bodies j) else bodies j

module _ {F Group C : Type 0} (group_compare : Group → Group → Bool) (alive : ℕ → Bool) where
  -- The new body, still with a default key, and its identity.
  unfoldable pub create_new_connection :
      Slot F → SignalImpl F Group C → Option (SignalImpl F Group C × ℕ)
  unfolding nolock_force_unique_connection_list make_body
  create_new_connection slot s = do
    s₁ ← nolock_force_unique_connection_list group_compare alive s
    let key : GroupKey Group = record { first = front_ungrouped_slots; second = none }
    let body = make_body slot key
    some (
      record s₁ { bodies = put_body s₁.next_body body s₁.bodies; next_body = suc s₁.next_body },
      s₁.next_body,
    )

  -- What both overloads do with the new body and its key.
  unfoldable pub add_connection :
      ConnectPosition → GroupKey Group → SignalImpl F Group C × ℕ → SignalImpl F Group C × ℕ
  unfolding push_at set_group_key
  add_connection position key (s, i) = (
    record (set_current_list (push_at group_compare position key i (current_list s)) s) {
      bodies = set_key_of key i s.bodies;
    },
    i,
  )

  -- connect( slot, position )
  unfoldable pub nolock_connect :
      Slot F → ConnectPosition → SignalImpl F Group C → Option (SignalImpl F Group C × ℕ)
  unfolding create_new_connection add_connection
  nolock_connect slot position s = do
    c ← create_new_connection slot s
    some (add_connection position (ungrouped_key position) c)

  -- connect( group, slot, position )
  unfoldable pub nolock_connect_group :
      Group → Slot F → ConnectPosition → SignalImpl F Group C → Option (SignalImpl F Group C × ℕ)
  unfolding create_new_connection add_connection
  nolock_connect_group group slot position s = do
    c ← create_new_connection slot s
    some (add_connection position (record { first = grouped_slots; second = some group }) c)
