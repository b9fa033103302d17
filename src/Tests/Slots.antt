-- ===== src/Tests/Slots.antt =====
-- A slot that tracks two objects, of which one is gone.
use signals.Base.{ℕ, ◌≡◌, ◌↔◌, refl, Bool, true, ◌||◌, none, some, [], ◌∷◌, ◌==◌, arith, not, ltb}
use signals.Slot.{
  Slot, Life, trackable_ptr, void_ptr, foreign_ptr, void_shared, foreign_shared, lock, expired,
  lock_tracked, lock_weak_ptr, expired_weak_ptr,
}
use signals.Slot.Lock.{IsDying, HoldsAll, lock-Holds, lock-expired}
use signals.Slot.Visit.{
  reference_wrapper, pointer, null_pointer, signal_pointee, trackable_pointee, init_slot_function,
  init_slot_function-tracks,
}

abbrev tracking : Slot ℕ
tracking = record { slot_function = 40; tracked_objects = void_ptr 1 ∷ foreign_ptr 2 ∷ [] }

-- The object 3 dies at the moment 4, all others live on.
abbrev dying : Life
dying t i = ltb t 4 || not (i == 3)

dying-IsDying : IsDying dying
dying-IsDying t i h = ground arith

tracking-lock : lock dying 0 tracking ≡ some (void_shared (some 1) ∷ foreign_shared (some 2) ∷ [])
unfolding lock lock_tracked lock_weak_ptr expired_weak_ptr
tracking-lock = refl

lock-Holds_example :
    HoldsAll tracking.tracked_objects (void_shared (some 1) ∷ foreign_shared (some 2) ∷ [])
lock-Holds_example =
    lock-Holds dying 0 tracking (void_shared (some 1) ∷ foreign_shared (some 2) ∷ []) dying-IsDying
      tracking-lock

abbrev only_first : ℕ → Bool
only_first i = i == 1

lock-expired_example :
    (lock (λ _. only_first) 0 tracking ≡ none) ↔ (expired only_first tracking ≡ true)
lock-expired_example = lock-expired only_first 0 tracking

init_slot_function-tracks_example :
    init_slot_function {F = ℕ} 40 (
      reference_wrapper (signal_pointee 1)
      ∷ null_pointer (trackable_pointee 5)
      ∷ pointer (trackable_pointee 2)
      ∷ [])
    ≡ record { slot_function = 40; tracked_objects = void_ptr 1 ∷ trackable_ptr 2 ∷ [] }
init_slot_function-tracks_example = init_slot_function-tracks 40 (
    reference_wrapper (signal_pointee 1)
    ∷ null_pointer (trackable_pointee 5)
    ∷ pointer (trackable_pointee 2)
    ∷ [])
