-- ===== src/Tests/Calls.antt =====
-- A signal with three slots in two groups, one of them disconnected, and an old call that reads
-- another list.
use signals.Base.{
  ℕ, ◌≡◌, refl, subst, ltb, Bool, true, false, not, ◌+◌, none, some, [], ◌∷◌, ◌==◌, if◌then◌else◌,
  arith, inl, inr, Bool-cases,
}
use signals.Groups.{GroupKey, group_key_less, grouped_slots}
use signals.Slot.{Slot, void_ptr, expired_tracked}
use signals.Connection.{ConnectionBody}
use signals.Connection.Body.{IsCounted}
use signals.Connection.Handle.{AllCounted}
use signals.Invocation.Combiner.{optional_last_value}
use signals.Signal.{SignalImpl, unique, add_reader, current_list}
use signals.Signal.Cleanup.{nolock_cleanup_connections}
use signals.Signal.Connect.{at_back, at_front, nolock_connect, nolock_connect_group}
use signals.Signal.Emit.{values_of, call_signal}
use signals.Signal.Consistent.{Consistent}
use signals.Signal.Unmoved.{stays}
use signals.Signal.Sweep.{sweep}
use signals.Signal.Cleaned.{sweep_from, kept_start, Cleans, cleanup_connections-Cleans}
use signals.Signal.Connected.{Connects, nolock_connect_group-Connects}
use signals.Signal.Outer.{outer_key, outermost, nolock_connect-Outer}
use signals.Groups.Segments.{flat}
use signals.Signal.Completed.{Finishes, call_signal-optional_last_value-Finishes}
use signals.Signal.Extended.{Cells, connect_extended, connect_extended_group}
use signals.Signal.Extended.Bound.{Binds, connect_extended-Binds}
use signals.Signal.Owner.{Signal, Heap, move_assign}
use signals.Signal.Owner.Moved.{Moves, move_assign-Moves}
use signals.Signal.Query.{num_slots}
use signals.Tests.Lists.{
  second, behind, segments, three_slots, three_slots-Models, ltb-StrictWeakOrder,
}
use signals.Tests.Runs.{leaves_alone, leaves_alone-Respects, unused, unused-bounded}

abbrev slot_of : ℕ → Slot ℕ
slot_of f = record { slot_function = f; tracked_objects = void_ptr f ∷ [] }

-- The slot 72 is gone.
abbrev body_of : ℕ → ConnectionBody ℕ (GroupKey ℕ)
body_of i = record {
  connected = not (i == 72);
  slot_refcount = if i == 72 then 0 else 1;
  slot = if i == 72 then none else some (slot_of i);
  blockers = 0;
  group_key = if i == 71 then behind else second;
}

abbrev three : SignalImpl ℕ ℕ ℕ
three = record {
  shared_state = record { address = 3; connection_bodies = 4; combiner = 2 };
  readers = record { address = 0; connection_bodies = 1; combiner = 2 } ∷ [];
  lists = λ a. three_slots;
  combiners = λ a. 50;
  next_address = 5;
  garbage_collector_it = none;
  bodies = λ i. if i == 80 then none else some (body_of i);
  next_body = 80;
  garbage = [];
}

body_of-IsCounted : (i : ℕ) → IsCounted 0 (body_of i)
body_of-IsCounted i = elim (Bool-cases (i == 72)) [
  | inl e ↦
      rw e (record { counted = refl; bounded = omega arith; present = ((λ h. refl), (λ h. refl)) })
  | inr e ↦ rw e (record {
    counted = refl;
    bounded = omega arith;
    present = ((λ h. absurd (ground arith)), (λ h. absurd (ground arith)));
  })
]

three-AllCounted : AllCounted unused three.bodies
three-AllCounted i b e = elim (Bool-cases (i == 80)) [
  | inl h ↦ absurd (ground arith)
  | inr h ↦ subst (IsCounted 0) {x = body_of i} {y = b} (ground arith) (body_of-IsCounted i)
]

three-Consistent : Consistent ltb unused segments three
unfolding group_key_less
three-Consistent = record {
  models = three_slots-Models;
  counted = three-AllCounted;
  keyed = (
    ((body_of 70, refl, refl, refl), ((body_of 72, refl, refl, refl), tt)),
    (((body_of 71, refl, refl, refl), tt), tt),
  );
}

abbrev living : ℕ → Bool
living i = not (i == 70)

three_unique : unique three ≡ true
unfolding unique
three_unique = refl

-- One round: the clean-up begins at the first slot, which has expired, and stops at the third.
swept_three :
    values_of (
      sweep_from
        (stays true living three.bodies)
        (kept_start three.garbage_collector_it three_slots.list)
        2
        three_slots.list)
    ≡ 71 ∷ []
unfolding sweep_from sweep expired_tracked
swept_three = refl

cleanup_connections-Cleans_example :
    Cleans ltb living unused true
      (kept_start three.garbage_collector_it (current_list three).list)
      2
      three
      (nolock_cleanup_connections ltb living true 2 three)
cleanup_connections-Cleans_example =
    cleanup_connections-Cleans ltb living ltb-StrictWeakOrder unused true 2 segments three
      three-Consistent three_unique

nolock_connect-Outer_example :
    (c : Connects ltb living unused at_back
      (outer_key at_back)
      (slot_of 90)
      three
      (nolock_connect ltb living (slot_of 90) at_back three))
    × (values_of (current_list c.after).list ≡ outermost at_back 80 (values_of (flat c.segs)))
nolock_connect-Outer_example =
    nolock_connect-Outer ltb living ltb-StrictWeakOrder unused segments (slot_of 90) at_back three
      three-Consistent refl (λ u. refl) refl refl

nolock_connect_group-Connects_example :
    Connects ltb living unused at_front
      (record { first = grouped_slots; second = some 2 })
      (slot_of 90)
      three
      (nolock_connect_group ltb living 2 (slot_of 90) at_front three)
nolock_connect_group-Connects_example =
    nolock_connect_group-Connects ltb living ltb-StrictWeakOrder unused segments 2 (slot_of 90)
      at_front three three-Consistent refl (λ u. refl) refl refl

call_signal-optional_last_value-Finishes_example :
    Finishes ltb unused three (call_signal ltb (λ c. optional_last_value leaves_alone) living three)
call_signal-optional_last_value-Finishes_example =
    call_signal-optional_last_value-Finishes ltb ltb-StrictWeakOrder leaves_alone unused segments
      living three leaves_alone-Respects unused-bounded three-Consistent (unfold add_reader in refl)
      (λ u. refl)

-- No extended slot has been bound before.
abbrev no_cells : Cells
no_cells = record { content = λ i. record { weak = none }; next_cell = 0 }

-- A bound function calls with its own number and that of its cell.
abbrev bind_sum : ℕ → ℕ → ℕ
bind_sum e cell = e + cell

connect_extended-Binds_example :
    Binds bind_sum
      (λ f. [])
      ltb
      living
      unused
      at_back
      (outer_key at_back)
      (slot_of 90)
      no_cells
      three
      (connect_extended bind_sum (λ f. []) ltb living (slot_of 90) at_back no_cells three)
    × Binds bind_sum
        (λ f. [])
        ltb
        living
        unused
        at_back
        (record { first = grouped_slots; second = some 2 })
        (slot_of 90)
        no_cells
        three
        (connect_extended_group bind_sum (λ f. []) ltb living 2 (slot_of 90) at_back no_cells three)
connect_extended-Binds_example =
    connect_extended-Binds bind_sum (λ f. []) ltb living ltb-StrictWeakOrder unused segments 2
      (slot_of 90) at_back no_cells three three-Consistent refl (λ u. refl) refl refl

-- Two signals with three slots each.
abbrev two_signals : Heap ℕ ℕ ℕ
two_signals = record { impls = λ a. some three; owners = λ a. 1; next_impl = 2 }

abbrev signal_at : ℕ → Signal
signal_at a = record { pimpl = some a }

move_assign-Moves_example :
    Moves living
      (num_slots living)
      (signal_at 0)
      (signal_at 1)
      two_signals
      (move_assign false (signal_at 0) (signal_at 1) two_signals)
move_assign-Moves_example =
    move_assign-Moves living (num_slots living) (signal_at 0) (signal_at 1) 1 three two_signals refl
      refl (omega arith) (λ e. absurd (ground arith))
