-- ===== src/Tests/Signals.antt =====
-- A signal with one slot in its list, which a running call reads.
use signals.Base.{ℕ, ◌≡◌, refl, subst, ltb, Bool, true, false, none, some, [], ◌∷◌, ◌==◌, arith}
use signals.Groups.{GroupKey, group_key_less, back_ungrouped_slots}
use signals.Slot.{void_ptr, expired_tracked}
use signals.Connection.{ConnectionBody}
use signals.Connection.Body.{IsCounted}
use signals.Connection.Handle.{AllCounted}
use signals.Signal.{SignalImpl, current_list, unique, combiner, set_combiner, add_reader}
use signals.Signal.Cleanup.{copy_state}
use signals.Signal.Disconnect.{Contains, disconnect_all_slots, disconnect_group, do_disconnect}
use signals.Signal.Query.{num_slots, is_empty}
use signals.Signal.Emit.{values_of}
use signals.Signal.Disconnected.{Cuts, disconnect_all_slots-Cuts}
use signals.Signal.Picked.{Picks, do_disconnect-Picks}
use signals.Signal.Grouped.{group_nodes, group_of, disconnect_group-Cuts}
use signals.Tests.Lists.{segments, three_slots, three_slots-Models, ltb-StrictWeakOrder}
use signals.Signal.Counted.{Answers, num_slots-empty}
use signals.Signal.Sharing.{is_reader_list, copy_state-isolates, set_combiner-shares}

abbrev pub behind : GroupKey ℕ
behind = record { first = back_ungrouped_slots; second = none }

abbrev pub used : ConnectionBody ℕ (GroupKey ℕ)
used = record {
  connected = true;
  slot_refcount = 2;
  slot = some (record { slot_function = 40; tracked_objects = void_ptr 1 ∷ [] });
  blockers = 0;
  group_key = behind;
}

pub used-IsCounted : IsCounted 1 used
used-IsCounted = record {
  counted = refl;
  bounded = omega arith;
  present = ((λ e. absurd (ground arith)), (λ e. absurd (ground arith)));
}

abbrev pub running : SignalImpl ℕ ℕ ℕ
running = record {
  shared_state = record { address = 0; connection_bodies = 1; combiner = 2 };
  readers = record { address = 0; connection_bodies = 1; combiner = 2 } ∷ [];
  lists = λ a. record {
    list = record { id = 0; value = 7 } ∷ [];
    group_map = record { key = behind; item = 0 } ∷ [];
    next_id = 1;
  };
  combiners = λ a. 50;
  next_address = 3;
  garbage_collector_it = none;
  bodies = λ i. some used;
  next_body = 8;
  garbage = [];
}

abbrev pub users : ℕ → ℕ
users i = 1

pub bodies-AllCounted : AllCounted users running.bodies
bodies-AllCounted i b e = subst (IsCounted 1) {x = used} {y = b} (ground arith) used-IsCounted

abbrev only_first : ℕ → Bool
only_first i = i == 1

disconnect_all_slots-Cuts_example :
    Cuts users (record { id = 0; value = 7 } ∷ []) running (disconnect_all_slots running)
disconnect_all_slots-Cuts_example =
    disconnect_all_slots-Cuts users running bodies-AllCounted (λ j h. (used, refl))

num_slots-empty_example :
    Answers only_first users running 1 (num_slots only_first running)
    × Answers only_first users running false (is_empty only_first running)
unfolding expired_tracked
num_slots-empty_example =
    num_slots-empty only_first users running bodies-AllCounted (λ j h. (used, refl)) (omega arith)

copy_state-isolates_example :
    (unique (copy_state running) ≡ true)
    × ((a : ℕ)
        → is_reader_list a running.readers ≡ true
        → (copy_state running).lists a ≡ running.lists a)
    × (values_of (current_list (copy_state running)).list ≡ 7 ∷ [])
    × (combiner (copy_state running) ≡ combiner running)
    × (is_reader_list
          (copy_state running).shared_state.connection_bodies
          (copy_state running).readers
        ≡ false)
copy_state-isolates_example = copy_state-isolates running refl

set_combiner-shares_example :
    (combiner (set_combiner 51 (add_reader running)) ≡ 51)
    × (unique (set_combiner 51 (add_reader running)) ≡ true)
    × (is_reader_list
          (set_combiner 51 (add_reader running)).shared_state.connection_bodies
          (set_combiner 51 (add_reader running)).readers
        ≡ true)
set_combiner-shares_example = set_combiner-shares 51 running (unfold add_reader in refl)

abbrev is_40 : Contains ℕ
is_40 = record {
  contains = λ f. f == 40;
  bound_extended_contains = λ f. none;
  weak_signal_contains = λ f. none;
}

do_disconnect-Picks_example :
    Picks users is_40 (record { id = 0; value = 7 } ∷ []) running (do_disconnect is_40 running)
do_disconnect-Picks_example =
    do_disconnect-Picks users is_40 running bodies-AllCounted (λ j h. (used, refl))

abbrev grouped : SignalImpl ℕ ℕ ℕ
grouped = record running { lists = λ a. three_slots }

disconnect_group-Cuts_example :
    Cuts users
      (group_nodes (group_key_less ltb) (group_of 2) segments)
      grouped
      (disconnect_group ltb 2 grouped)
disconnect_group-Cuts_example =
    disconnect_group-Cuts ltb ltb-StrictWeakOrder users 2 grouped segments three_slots-Models
      bodies-AllCounted (λ j h. (used, refl))
