-- ===== src/Signal.antt =====
-- include/boost/signals2/detail/signal_template.hpp: signal_impl. Its invocation_state is shared with
-- running calls, and copied before it is changed while one of them reads it. Addresses name the
-- shared objects. Each function runs with the signal's mutex held; `none` is a failed assertion.
pub mod Connect
pub mod Cleanup
pub mod Disconnect
pub mod Query
pub mod Emit
pub mod Stored
pub mod Disconnected
pub mod Counted
pub mod Picked
pub mod Grouped
pub mod Keyed
pub mod Placed
pub mod Consistent
pub mod Unmoved
pub mod Visited
pub mod Sweep
pub mod Swept
pub mod Cleaned
pub mod Owned
pub mod Connected
pub mod Outer
pub mod Begun
pub mod Ended
pub mod Completed
pub mod Extended
pub mod Owner
pub mod Schedule
pub mod Sharing
use signals.Base.{
  ℕ, suc, ◌+◌, Bool, true, false, not, ◌||◌, Option, none, some, List, [], ◌∷◌, ◌++◌, ◌==◌,
  if◌then◌else◌,
}
use signals.Slot.{Slot}
use signals.Groups.{GroupedList, GroupKey}
use signals.Connection.{ConnectionBody}
use signals.Connection.Handle.{Store}

-- The addresses of an invocation_state, of its connection list and of its combiner.
pub record InvocationState : Type 0 where
  pub address : ℕ
  pub connection_bodies : ℕ
  pub combiner : ℕ

abbrev pub ConnectionList : Type 0 → Type 0
ConnectionList Group = GroupedList (GroupKey Group) ℕ

-- `readers` are the copies of _shared_state that running calls hold; `garbage` is the trash of the
-- locks so far. The list of a connection body is the list of its identity.
pub record SignalImpl (F Group C : Type 0) : Type 0 where
  pub shared_state : InvocationState
  pub readers : List InvocationState
  pub lists : ℕ → ConnectionList Group
  pub combiners : ℕ → C
  pub next_address : ℕ
  pub garbage_collector_it : Option ℕ
  pub bodies : Store F (GroupKey Group)
  pub next_body : ℕ
  pub garbage : List (Option (Slot F))

abbrev pub put {ℓ} : {A : Type ℓ} → ℕ → A → (ℕ → A) → ℕ → A
put i a f j = if i == j then a else f j

abbrev pub held : ℕ → List InvocationState → Bool
held a [] = false
held a (r ∷ rs) = r.address == a || held a rs

abbrev pub without_reader : ℕ → List InvocationState → List InvocationState
without_reader a [] = []
without_reader a (r ∷ rs) = if r.address == a then rs else r ∷ without_reader a rs

module _ {F Group C : Type 0} where
  -- _shared_state.unique()
  unfoldable pub unique : SignalImpl F Group C → Bool
  unique s = not (held s.shared_state.address s.readers)

  -- _shared_state->connection_bodies()
  abbrev pub current_list : SignalImpl F Group C → ConnectionList Group
  current_list s = s.lists s.shared_state.connection_bodies

  abbrev pub set_current_list : ConnectionList Group → SignalImpl F Group C → SignalImpl F Group C
  set_current_list l s = record s { lists = put s.shared_state.connection_bodies l s.lists }

  -- signal_impl( combiner_arg, group_compare ): the list is at the address 1, the combiner at 2.
  unfoldable pub make_signal : C → SignalImpl F Group C
  make_signal combiner_arg = record {
    shared_state = record { address = 0; connection_bodies = 1; combiner = 2 };
    readers = [];
    lists = λ _. record { list = []; group_map = []; next_id = 0 };
    combiners = λ _. combiner_arg;
    next_address = 3;
    garbage_collector_it = none;
    bodies = λ _. none;
    next_body = 0;
    garbage = [];
  }

  unfoldable pub combiner : SignalImpl F Group C → C
  combiner s = s.combiners s.shared_state.combiner

  -- A unique state takes the new combiner in place. Otherwise a new state is made, of the same list
  -- and a new combiner.
  unfoldable pub set_combiner : C → SignalImpl F Group C → SignalImpl F Group C
  unfolding unique
  set_combiner c s =
      if unique s
      then record s { combiners = put s.shared_state.combiner c s.combiners }
      else record s {
        shared_state = record s.shared_state {
          address = s.next_address;
          combiner = s.next_address + 1;
        };
        combiners = put (s.next_address + 1) c s.combiners;
        next_address = s.next_address + 2;
      }

  -- get_readable_state() by a running call, and the end of that call.
  unfoldable pub add_reader : SignalImpl F Group C → SignalImpl F Group C
  add_reader s = record s { readers = s.shared_state ∷ s.readers }

  unfoldable pub drop_reader : ℕ → SignalImpl F Group C → SignalImpl F Group C
  drop_reader a s = record s { readers = without_reader a s.readers }
