-- ===== src/Slot.antt =====
-- include/boost/signals2/slot_base.hpp, detail/slot_template.hpp, detail/tracked_objects_visitor.hpp,
-- trackable.hpp, detail/foreign_ptr.hpp and detail/replace_slot_function.hpp: slots and the objects
-- that they track. An object is named by its control block; a `Life` says at each moment which
-- control blocks still have an owner. Threads move the moment on between two reads.
pub mod Lock
pub mod Visit
use signals.Base.{
  ℕ, suc, Bool, true, false, not, ◌||◌, Option, none, some, List, [], ◌∷◌, ◌++◌, if◌then◌else◌,
}

-- void_weak_ptr_variant
pub data Tracked : Type 0 where
  trackable_ptr void_ptr foreign_ptr : ℕ → Tracked

-- void_shared_ptr_variant; an empty pointer is `none`.
pub data Locked : Type 0 where
  void_shared foreign_shared : Option ℕ → Locked

abbrev pub Life : Type 0
Life = ℕ → ℕ → Bool

-- weak_ptr::lock
abbrev pub lock_ptr : Bool → ℕ → Option ℕ
lock_ptr true i = some i
lock_ptr false i = none

-- lock_weak_ptr_visitor: a trackable's pointer is not locked.
unfoldable pub lock_weak_ptr : (ℕ → Bool) → Tracked → Locked
lock_weak_ptr alive (trackable_ptr i) = void_shared none
lock_weak_ptr alive (void_ptr i) = void_shared (lock_ptr (alive i) i)
lock_weak_ptr alive (foreign_ptr i) = foreign_shared (lock_ptr (alive i) i)

-- expired_weak_ptr_visitor
unfoldable pub expired_weak_ptr : (ℕ → Bool) → Tracked → Bool
expired_weak_ptr alive (trackable_ptr i) = not (alive i)
expired_weak_ptr alive (void_ptr i) = not (alive i)
expired_weak_ptr alive (foreign_ptr i) = not (alive i)

pub record Slot (F : Type 0) : Type 0 where
  pub slot_function : F
  pub tracked_objects : List Tracked

-- slot_base::lock from a moment on: `none` is the exception expired_slot. Each object is locked
-- first and tested one moment later.
unfoldable pub lock_tracked : Life → ℕ → List Tracked → Option (List Locked)
unfolding lock_weak_ptr expired_weak_ptr
lock_tracked life t [] = some []
lock_tracked life t (x ∷ xs) =
    let locked = lock_weak_ptr (life t) x in
    let rest = lock_tracked life (suc (suc t)) xs in
    if expired_weak_ptr (life (suc t)) x
    then none
    else elim rest [ none ↦ none | some ls ↦ some (locked ∷ ls) ]

-- slot_base::expired
unfoldable pub expired_tracked : (ℕ → Bool) → List Tracked → Bool
unfolding expired_weak_ptr
expired_tracked alive [] = false
expired_tracked alive (x ∷ xs) = if expired_weak_ptr alive x then true else expired_tracked alive xs

unfoldable pub track_each : List Tracked → List Tracked → List Tracked
track_each acc [] = acc
track_each acc (x ∷ xs) = track_each (acc ++ x ∷ []) xs

module _ {F : Type 0} where
  unfoldable pub lock : Life → ℕ → Slot F → Option (List Locked)
  unfolding lock_tracked
  lock life t s = lock_tracked life t s.tracked_objects

  unfoldable pub expired : (ℕ → Bool) → Slot F → Bool
  unfolding expired_tracked
  expired alive s = expired_tracked alive s.tracked_objects

  -- operator(): the objects stay locked during the call of the slot function.
  unfoldable pub call_slot : {R : Type 0} → Life → ℕ → (F → List Locked → R) → Slot F → Option R
  unfolding lock
  call_slot life t call s = elim (lock life t s) [
    | none ↦ none
    | some locked ↦ some (call s.slot_function locked)
  ]

  -- track( weak_ptr<void> )
  unfoldable pub track : ℕ → Slot F → Slot F
  track i s = record s { tracked_objects = s.tracked_objects ++ void_ptr i ∷ [] }

  -- track( signal_base ): the signal's implementation is tracked as a weak_ptr<void>.
  unfoldable pub track_signal : ℕ → Slot F → Slot F
  track_signal pimpl s = record s { tracked_objects = s.tracked_objects ++ void_ptr pimpl ∷ [] }

  -- track( slot_base )
  unfoldable pub track_slot : {G : Type 0} → Slot G → Slot F → Slot F
  unfolding track_each
  track_slot other s = record s {
    tracked_objects = track_each s.tracked_objects other.tracked_objects;
  }

  -- track_foreign, of a weak or of a shared pointer
  unfoldable pub track_foreign : ℕ → Slot F → Slot F
  track_foreign i s = record s { tracked_objects = s.tracked_objects ++ foreign_ptr i ∷ [] }

  -- The copy constructors copy the tracked objects and the function.
  unfoldable pub slot_from : {G : Type 0} → (G → F) → Slot G → Slot F
  slot_from convert other = record {
    slot_function = convert other.slot_function;
    tracked_objects = other.tracked_objects;
  }

  -- replace_slot_function: a new slot of the function, which tracks what the old one tracked.
  -- `tracked_of` is what the slot's own constructor finds to track in the function.
  unfoldable pub replace_slot_function : {G : Type 0} → (F → List Tracked) → Slot G → F → Slot F
  unfolding track_slot
  replace_slot_function tracked_of slot_in fun =
      track_slot slot_in (record { slot_function = fun; tracked_objects = tracked_of fun })
