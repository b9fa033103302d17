-- ===== src/Signal/Owner.antt =====
-- signal_template.hpp: the class signal, which owns a signal_impl, and weak_signal, which a slot holds
-- to call another signal. A heap holds the implementations that have an owner under their addresses,
-- with the number of shared pointers to each; `none` is a read of a null pointer.
pub mod Moved
use signals.Base.{
  ℕ, suc, ◌-◌, ◌+◌, Bool, true, false, Option, none, some, List, ◌==◌, if◌then◌else◌,
}
use signals.Buffer.{◌>>=◌}
use signals.Slot.{Slot, Tracked}
use signals.Groups.{GroupKey}
use signals.Connection.Handle.{Connection}
use signals.Signal.{SignalImpl, put, make_signal, combiner, set_combiner}
use signals.Signal.Connect.{ConnectPosition, nolock_connect, nolock_connect_group}
use signals.Signal.Disconnect.{Contains, disconnect_all_slots, disconnect_group, do_disconnect}
use signals.Signal.Query.{num_slots, is_empty}
use signals.Signal.Extended.{Cells, connect_extended, connect_extended_group}

-- _pimpl
pub record Signal : Type 0 where
  pub pimpl : Option ℕ

-- _weak_pimpl
pub record WeakSignal : Type 0 where
  pub weak_pimpl : Option ℕ

pub record Heap (F Group C : Type 0) : Type 0 where
  pub impls : ℕ → Option (SignalImpl F Group C)
  pub owners : ℕ → ℕ
  pub next_impl : ℕ

abbrev pub same_pimpl : Option ℕ → Option ℕ → Bool
same_pimpl none none = true
same_pimpl none (some b) = false
same_pimpl (some a) none = false
same_pimpl (some a) (some b) = a == b

-- The move constructor: the members are swapped with those of a new null pointer.
unfoldable pub move_signal : Signal → Signal × Signal
move_signal other = (record { pimpl = other.pimpl }, record { pimpl = none })

unfoldable pub swap_signals : Signal → Signal → Signal × Signal
swap_signals a b = (record { pimpl = b.pimpl }, record { pimpl = a.pimpl })

unfoldable pub equal_signals : Signal → Signal → Bool
equal_signals a b = same_pimpl a.pimpl b.pimpl

unfoldable pub null : Signal → Bool
null s = same_pimpl s.pimpl none

-- signal::lock_pimpl
unfoldable pub lock_pimpl : Signal → Option ℕ
lock_pimpl s = s.pimpl

-- weak_signal( signal )
unfoldable pub make_weak_signal : Signal → WeakSignal
make_weak_signal s = record { weak_pimpl = s.pimpl }

module _ {F Group C : Type 0} where
  -- signal( combiner_arg, group_compare )
  unfoldable pub new_signal : C → Heap F Group C → Signal × Heap F Group C
  unfolding make_signal
  new_signal combiner_arg h = (
    record { pimpl = some h.next_impl },
    record {
      impls = put h.next_impl (some (make_signal combiner_arg)) h.impls;
      owners = put h.next_impl 1 h.owners;
      next_impl = suc h.next_impl;
    },
  )

  -- ~signal, and the reset of any shared pointer: the last owner destroys the implementation.
  unfoldable pub reset : Option ℕ → Heap F Group C → Heap F Group C
  reset none h = h
  reset (some a) h = record h {
    impls = if h.owners a == 1 then put a none h.impls else h.impls;
    owners = put a (h.owners a - 1) h.owners;
  }

  -- A copy of a shared pointer.
  unfoldable pub acquire : Option ℕ → Heap F Group C → Heap F Group C
  acquire none h = h
  acquire (some a) h = record h { owners = put a (h.owners a + 1) h.owners }

  -- The move assignment; `self` says whether both sides are one object.
  unfoldable pub move_assign :
      Bool → Signal → Signal → Heap F Group C → (Signal × Signal) × Heap F Group C
  unfolding reset
  move_assign self this rhs h =
      if self
      then ((this, this), h)
      else ((record { pimpl = rhs.pimpl }, record { pimpl = none }), reset this.pimpl h)

  -- (*_pimpl).f()
  unfoldable pub on_impl :
      {A : Type 0}
      → (SignalImpl F Group C → Option (SignalImpl F Group C × A))
      → Option ℕ
      → Heap F Group C
      → Option (Heap F Group C × A)
  on_impl f none h = none
  on_impl f (some a) h = do
    s ← h.impls a
    r ← f s
    some (record h { impls = put a (some r.0) h.impls }, r.1)

  -- if (_pimpl.get() == 0) return ...;
  unfoldable pub unless_null :
      {A : Type 0}
      → A
      → (SignalImpl F Group C → Option (SignalImpl F Group C × A))
      → Option ℕ
      → Heap F Group C
      → Option (Heap F Group C × A)
  unfolding on_impl
  unless_null a f none h = some (h, a)
  unless_null a f (some i) h = on_impl f (some i) h

  abbrev with_unit : Option (SignalImpl F Group C) → Option (SignalImpl F Group C × Unit {0})
  with_unit o = o >>= λ s. some (s, tt)

  unfoldable pub signal_disconnect_all_slots :
      Signal → Heap F Group C → Option (Heap F Group C × Unit {0})
  unfolding unless_null
  signal_disconnect_all_slots s h =
      unless_null tt (λ i. with_unit (disconnect_all_slots i)) s.pimpl h

  unfoldable pub signal_disconnect_group :
      (Group → Group → Bool) → Group → Signal → Heap F Group C → Option (Heap F Group C × Unit {0})
  unfolding unless_null
  signal_disconnect_group group_compare group s h =
      unless_null tt (λ i. with_unit (disconnect_group group_compare group i)) s.pimpl h

  unfoldable pub signal_disconnect :
      Contains F → Signal → Heap F Group C → Option (Heap F Group C × Unit {0})
  unfolding unless_null
  signal_disconnect slot s h = unless_null tt (λ i. with_unit (do_disconnect slot i)) s.pimpl h

  unfoldable pub signal_num_slots :
      (ℕ → Bool) → Signal → Heap F Group C → Option (Heap F Group C × ℕ)
  unfolding unless_null
  signal_num_slots alive s h = unless_null 0 (num_slots alive) s.pimpl h

  unfoldable pub signal_empty :
      (ℕ → Bool) → Signal → Heap F Group C → Option (Heap F Group C × Bool)
  unfolding unless_null
  signal_empty alive s h = unless_null true (is_empty alive) s.pimpl h

  unfoldable pub signal_connect :
      (Group → Group → Bool)
      → (ℕ → Bool)
      → Slot F
      → ConnectPosition
      → Signal
      → Heap F Group C
      → Option (Heap F Group C × ℕ)
  unfolding on_impl
  signal_connect group_compare alive slot position s h =
      on_impl (nolock_connect group_compare alive slot position) s.pimpl h

  unfoldable pub signal_connect_group :
      (Group → Group → Bool)
      → (ℕ → Bool)
      → Group
      → Slot F
      → ConnectPosition
      → Signal
      → Heap F Group C
      → Option (Heap F Group C × ℕ)
  unfolding on_impl
  signal_connect_group group_compare alive group slot position s h =
      on_impl (nolock_connect_group group_compare alive group slot position) s.pimpl h

  unfoldable pub signal_combiner : Signal → Heap F Group C → Option (Heap F Group C × C)
  unfolding on_impl
  signal_combiner s h = on_impl (λ i. some (i, combiner i)) s.pimpl h

  unfoldable pub signal_set_combiner :
      C → Signal → Heap F Group C → Option (Heap F Group C × Unit {0})
  unfolding on_impl
  signal_set_combiner c s h = on_impl (λ i. some (set_combiner c i, tt)) s.pimpl h

  -- operator(), with a call of the implementation
  unfoldable pub call_owner :
      {A : Type 0}
      → (SignalImpl F Group C → Option (SignalImpl F Group C × A))
      → Signal
      → Heap F Group C
      → Option (Heap F Group C × A)
  unfolding on_impl
  call_owner run s h = on_impl run s.pimpl h

  -- _weak_pimpl.lock()
  unfoldable pub lock_weak : WeakSignal → Heap F Group C → Option ℕ
  lock_weak w h = w.weak_pimpl >>= λ a. elim (h.impls a) [ none ↦ none | some i ↦ some a ]

  -- weak_signal::operator(), with an owner of its own during the call
  unfoldable pub call_weak_signal :
      {A : Type 0}
      → (SignalImpl F Group C → Option (SignalImpl F Group C × A))
      → WeakSignal
      → Heap F Group C
      → Option (Heap F Group C × A)
  unfolding lock_weak acquire on_impl reset
  call_weak_signal run w h = do
    let shared_pimpl = lock_weak w h
    r ← on_impl run shared_pimpl (acquire shared_pimpl h)
    some (reset shared_pimpl r.0, r.1)

  -- weak_signal::contains
  unfoldable pub weak_signal_is : WeakSignal → Signal → Heap F Group C → Bool
  unfolding lock_weak
  weak_signal_is w s h = same_pimpl (lock_weak w h) s.pimpl

module _ {E F Group C : Type 0} (bind : E → ℕ → F) (tracked_of : F → List Tracked)
    (group_compare : Group → Group → Bool) (alive : ℕ → Bool) where
  abbrev with_answer :
      SignalImpl F Group C × Connection × Cells → SignalImpl F Group C × (Connection × Cells)
  with_answer (s, conn, cells) = (s, (conn, cells))

  unfoldable pub signal_connect_extended :
      Slot E
      → ConnectPosition
      → Cells
      → Signal
      → Heap F Group C
      → Option (Heap F Group C × (Connection × Cells))
  unfolding on_impl
  signal_connect_extended slot position cells s h =
      on_impl
        (λ i. connect_extended bind tracked_of group_compare alive slot position cells i >>= λ r.
          some (with_answer r))
        s.pimpl h

  unfoldable pub signal_connect_extended_group :
      Group
      → Slot E
      → ConnectPosition
      → Cells
      → Signal
      → Heap F Group C
      → Option (Heap F Group C × (Connection × Cells))
  unfolding on_impl
  signal_connect_extended_group group slot position cells s h =
      on_impl
        (λ i.
          connect_extended_group bind tracked_of group_compare alive group slot position cells i
          >>= λ r. some (with_answer r))
        s.pimpl h
