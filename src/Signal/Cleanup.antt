-- ===== src/Signal/Cleanup.antt =====
-- signal_template.hpp: the clean-up of disconnected slots, and the copy of a list that is being read.
use signals.Base.{
  ℕ, suc, ◌+◌, Bool, true, false, not, ◌||◌, Option, none, some, List, [], ◌∷◌, ◌++◌, ◌==◌, ltb,
  if◌then◌else◌,
}
use signals.Buffer.{◌>>=◌, ◌>>◌, assert}
use signals.Groups.{GroupKey, group_key_less, erase}
use signals.Groups.Containers.{Node, head_id, nodes_from}
use signals.Groups.Duplicate.{copy_list}
use signals.Connection.{Held, hold, disconnect_expired_slot, nolock_nograb_connected}
use signals.Connection.Handle.{put_body}
use signals.Signal.{SignalImpl, put, unique, current_list, set_current_list}

abbrev pub begin_at : Option ℕ → List (Node ℕ) → Option ℕ
begin_at none nodes = head_id nodes
begin_at (some it) nodes = some it

module _ {F Group C : Type 0} where
  -- make_shared<invocation_state>( *_shared_state, _shared_state->connection_bodies() )
  unfoldable pub copy_state : SignalImpl F Group C → SignalImpl F Group C
  unfolding copy_list
  copy_state s = record s {
    shared_state = record s.shared_state {
      address = s.next_address;
      connection_bodies = s.next_address + 1;
    };
    lists = put (s.next_address + 1) (copy_list (current_list s)) s.lists;
    next_address = s.next_address + 2;
  }

module _ {F Group C : Type 0} (group_compare : Group → Group → Bool) (alive : ℕ → Bool) where
  -- disconnect_expired_slot on the body, if asked for.
  unfoldable pub check_body :
      Bool → ℕ → SignalImpl F Group C → Option (SignalImpl F Group C × Held F (GroupKey Group))
  unfolding disconnect_expired_slot
  check_body grab_tracked i s = do
    b ← s.bodies i
    h ← (if grab_tracked then disconnect_expired_slot alive (hold b) else some (hold b))
    some (record s { bodies = put_body i h.body s.bodies; garbage = s.garbage ++ h.garbage }, h)

  -- The loop from an iterator on; the nodes are those behind it. The result is where it stops.
  unfoldable pub cleanup_loop :
      Bool → ℕ → ℕ → List (Node ℕ) → SignalImpl F Group C → Option (SignalImpl F Group C × Option ℕ)
  unfolding check_body nolock_nograb_connected erase group_key_less
  cleanup_loop grab_tracked count i [] s = some (s, none)
  cleanup_loop grab_tracked count i (n ∷ ns) s = elim (count == 0 || ltb i count) [
    | false ↦ some (s, some n.id)
    | true ↦ do
      c ← check_body grab_tracked n.value s
      elim (nolock_nograb_connected c.1.body) [
        | true ↦ cleanup_loop grab_tracked count (suc i) ns c.0
        | false ↦ do
          e ← erase (group_key_less group_compare) (current_list c.0) c.1.body.group_key n.id
          cleanup_loop grab_tracked count (suc i) ns (set_current_list e.0 c.0)
      ]
  ]

  -- nolock_cleanup_connections_from; begin is the iterator to begin at.
  unfoldable pub nolock_cleanup_connections_from :
      Bool → Option ℕ → ℕ → SignalImpl F Group C → Option (SignalImpl F Group C)
  unfolding unique cleanup_loop nodes_from
  nolock_cleanup_connections_from grab_tracked begin count s = do
    assert (unique s)
    r ← cleanup_loop grab_tracked count 0 (nodes_from begin (current_list s).list) s
    some (record r.0 { garbage_collector_it = r.1 })

  unfoldable pub nolock_cleanup_connections :
      Bool → ℕ → SignalImpl F Group C → Option (SignalImpl F Group C)
  unfolding unique nolock_cleanup_connections_from
  nolock_cleanup_connections grab_tracked count s = do
    assert (unique s)
    nolock_cleanup_connections_from grab_tracked
        (begin_at s.garbage_collector_it (current_list s).list) count s

  unfoldable pub nolock_force_unique_connection_list :
      SignalImpl F Group C → Option (SignalImpl F Group C)
  unfolding unique copy_state nolock_cleanup_connections_from nolock_cleanup_connections
  nolock_force_unique_connection_list s =
      if not (unique s)
      then (let s' = copy_state s in
          nolock_cleanup_connections_from true (head_id (current_list s').list) 0 s')
      else nolock_cleanup_connections true 2 s

  -- `list` is the address of the list that the call has read.
  unfoldable pub force_cleanup_connections :
      ℕ → SignalImpl F Group C → Option (SignalImpl F Group C)
  unfolding unique copy_state nolock_cleanup_connections_from
  force_cleanup_connections list s =
      if not (s.shared_state.connection_bodies == list)
      then some s
      else (let s' = if not (unique s) then copy_state s else s in
          nolock_cleanup_connections_from false (head_id (current_list s').list) 0 s')
