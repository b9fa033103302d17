-- ===== src/Tests/Schedules.antt =====
-- A new signal: two slots are connected, a call begins, and meanwhile a slot is connected, another is
-- disconnected, and a second call begins.
use signals.Base.{ℕ, refl, ltb, true, List, [], ◌∷◌}
use signals.Slot.{Slot}
use signals.Signal.{SignalImpl, make_signal}
use signals.Signal.Connect.{at_back, at_front}
use signals.Signal.Schedule.{Action, connects, connects_group, disconnects, calls, act_all}
use signals.Signal.Schedule.Ready.{Survives, make_signal-Ready}
use signals.Signal.Schedule.Survived.{act_all-Survives}
use signals.Tests.Lists.{ltb-StrictWeakOrder}
use signals.Tests.Runs.{unused}

abbrev plain_slot : ℕ → Slot ℕ
plain_slot f = record { slot_function = f; tracked_objects = [] }

abbrev busy_day : List (Action ℕ ℕ)
busy_day =
    connects at_back (plain_slot 10)
    ∷ connects_group 2 at_back (plain_slot 20)
    ∷ calls
    ∷ connects at_front (plain_slot 30)
    ∷ disconnects 1
    ∷ calls
    ∷ []

abbrev new_one : SignalImpl ℕ ℕ ℕ
new_one = make_signal 50

act_all-Survives_example : Survives ltb unused new_one (act_all ltb (λ t. true) busy_day new_one)
act_all-Survives_example =
    act_all-Survives ltb (λ t. true) ltb-StrictWeakOrder unused busy_day new_one
      (make_signal-Ready ltb unused 50 (λ j. refl))
