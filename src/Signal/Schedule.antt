-- ===== src/Signal/Schedule.antt =====
-- signal_template.hpp: what may happen to a signal while a slot of a call runs, by the slot itself or by
-- other threads: sequences of operations, each of which runs under the mutex.
pub mod Ready
pub mod Survived
use signals.Base.{ℕ, Bool, Option, none, some, List, [], ◌∷◌}
use signals.Buffer.{◌>>=◌}
use signals.Slot.{Slot}
use signals.Connection.Handle.{disconnect}
use signals.Signal.{SignalImpl}
use signals.Signal.Connect.{ConnectPosition, nolock_connect, nolock_connect_group}
use signals.Signal.Emit.{begin_call}

pub data Action (F Group : Type 0) : Type 0 where
  connects : ConnectPosition → Slot F → Action F Group
  connects_group : Group → ConnectPosition → Slot F → Action F Group
  -- By the handle of a body.
  disconnects : ℕ → Action F Group
  -- The beginning of another call.
  calls : Action F Group

module _ {F Group C : Type 0} (group_compare : Group → Group → Bool) (alive : ℕ → Bool) where
  unfoldable pub act : Action F Group → SignalImpl F Group C → Option (SignalImpl F Group C)
  unfolding nolock_connect nolock_connect_group disconnect begin_call
  act (connects position slot) s =
      nolock_connect group_compare alive slot position s >>= λ r. some r.0
  act (connects_group group position slot) s =
      nolock_connect_group group_compare alive group slot position s >>= λ r. some r.0
  act (disconnects i) s =
      disconnect (record { weak = some i }) s.bodies >>= λ r. some (record s { bodies = r.0 })
  act calls s = begin_call group_compare alive s

  unfoldable pub act_all :
      List (Action F Group) → SignalImpl F Group C → Option (SignalImpl F Group C)
  unfolding act
  act_all [] s = some s
  act_all (x ∷ xs) s = act x s >>= λ t. act_all xs t
