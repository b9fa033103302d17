-- ===== src/Signal/Query.antt =====
-- signal_template.hpp: num_slots and empty, which ask each body whether it is connected.
use signals.Base.{ℕ, ◌+◌, ◌%◌, Bool, true, false, Option, some, List, [], ◌∷◌, if◌then◌else◌}
use signals.Buffer.{◌>>=◌, size_mod}
use signals.Groups.Containers.{Node}
use signals.Connection.{connected_body}
use signals.Signal.{SignalImpl, current_list}
use signals.Signal.Disconnect.{put_held}

module _ {F Group C : Type 0} (alive : ℕ → Bool) where
  -- (*it)->connected()
  unfoldable pub ask : ℕ → SignalImpl F Group C → Option (SignalImpl F Group C × Bool)
  unfolding connected_body
  ask i s = do b ← s.bodies i; r ← connected_body alive b; some (put_held i r.0 s, r.1)

  unfoldable pub count_each :
      List (Node ℕ) → ℕ → SignalImpl F Group C → Option (SignalImpl F Group C × ℕ)
  unfolding ask
  count_each [] count s = some (s, count)
  count_each (n ∷ ns) count s = do
    r ← ask n.value s
    count_each ns (if r.1 then (count + 1) % size_mod else count) r.0

  unfoldable pub num_slots : SignalImpl F Group C → Option (SignalImpl F Group C × ℕ)
  unfolding count_each
  num_slots s = count_each (current_list s).list 0 s

  -- The loop of empty(), which returns at the first connected slot.
  unfoldable pub none_connected :
      List (Node ℕ) → SignalImpl F Group C → Option (SignalImpl F Group C × Bool)
  unfolding ask
  none_connected [] s = some (s, true)
  none_connected (n ∷ ns) s = do
    r ← ask n.value s
    let rest = none_connected ns r.0
    if r.1 then some (r.0, false) else rest

  unfoldable pub is_empty : SignalImpl F Group C → Option (SignalImpl F Group C × Bool)
  unfolding none_connected
  is_empty s = none_connected (current_list s).list s
