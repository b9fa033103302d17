-- ===== src/Slot/Visit.antt =====
-- detail/tracked_objects_visitor.hpp: what a slot tracks of the objects bound into its function.
-- boost::visit_each, which finds those objects, is not part of the repository: it is their list.
use signals.Base.{
  ℕ, ◌≡◌, refl, ◌∙◌, Bool, true, false, List, [], ◌∷◌, ◌++◌, append_assoc, append-nil,
}
use signals.Slot.{Tracked, trackable_ptr, void_ptr, Slot, track_signal}

-- What a bound object is, or points to. A signal is named by its implementation, a trackable by its
-- own control block.
pub data Pointee : Type 0 where
  function_pointee other_pointee : Pointee
  signal_pointee trackable_pointee : ℕ → Pointee

-- A reference_wrapper, a pointer, which may be null, or an object.
pub data Bound : Type 0 where
  reference_wrapper : Pointee → Bound
  pointer : Pointee → Bound
  null_pointer : Pointee → Bound
  object : Pointee → Bound

module _ {F : Type 0} where
  add_if_trackable : Bool → Pointee → Slot F → Slot F
  add_if_trackable true (trackable_pointee i) s = record s {
    tracked_objects = s.tracked_objects ++ trackable_ptr i ∷ [];
  }
  add_if_trackable false (trackable_pointee i) s = s
  add_if_trackable b function_pointee s = s
  add_if_trackable b other_pointee s = s
  add_if_trackable b (signal_pointee i) s = s

  -- `set` says whether the pointer is not null.
  unfoldable pub m_visit_signal : Bool → Pointee → Slot F → Slot F
  unfolding track_signal add_if_trackable
  m_visit_signal true (signal_pointee i) s = track_signal i s
  m_visit_signal false (signal_pointee i) s = s
  m_visit_signal set (trackable_pointee i) s = add_if_trackable set (trackable_pointee i) s
  m_visit_signal set function_pointee s = add_if_trackable set function_pointee s
  m_visit_signal set other_pointee s = add_if_trackable set other_pointee s

  unfoldable pub m_visit_not_function_pointer : Bool → Pointee → Slot F → Slot F
  unfolding m_visit_signal
  m_visit_not_function_pointer set function_pointee s = s
  m_visit_not_function_pointer set other_pointee s = m_visit_signal set other_pointee s
  m_visit_not_function_pointer set (signal_pointee i) s = m_visit_signal set (signal_pointee i) s
  m_visit_not_function_pointer set (trackable_pointee i) s =
      m_visit_signal set (trackable_pointee i) s

  -- An object is visited through its address.
  unfoldable pub visit : Bound → Slot F → Slot F
  unfolding m_visit_not_function_pointer
  visit (reference_wrapper p) s = m_visit_not_function_pointer true p s
  visit (pointer p) s = m_visit_not_function_pointer true p s
  visit (null_pointer p) s = m_visit_not_function_pointer false p s
  visit (object p) s = m_visit_not_function_pointer true p s

  unfoldable pub visit_all : List Bound → Slot F → Slot F
  unfolding visit
  visit_all [] s = s
  visit_all (b ∷ bs) s = visit_all bs (visit b s)

  -- init_slot_function
  unfoldable pub init_slot_function : F → List Bound → Slot F
  unfolding visit_all
  init_slot_function f bound = visit_all bound (record { slot_function = f; tracked_objects = [] })

-- What one bound object adds.
abbrev pub pointed : Pointee → List Tracked
pointed function_pointee = []
pointed other_pointee = []
pointed (signal_pointee i) = void_ptr i ∷ []
pointed (trackable_pointee i) = trackable_ptr i ∷ []

abbrev pub adds : Bound → List Tracked
adds (reference_wrapper p) = pointed p
adds (pointer p) = pointed p
adds (null_pointer p) = []
adds (object p) = pointed p

abbrev pub adds_all : List Bound → List Tracked
adds_all [] = []
adds_all (b ∷ bs) = adds b ++ adds_all bs

module _ {F : Type 0} where
  visit_set :
      (p : Pointee) (s : Slot F)
      → m_visit_not_function_pointer true p s
        ≡ record s { tracked_objects = s.tracked_objects ++ pointed p }
  unfolding m_visit_not_function_pointer
  visit_set function_pointee s = rw (append-nil s.tracked_objects)
  visit_set other_pointee s = rw (append-nil s.tracked_objects)
  visit_set (signal_pointee i) s = refl
  visit_set (trackable_pointee i) s = refl

  visit_null :
      (p : Pointee) (s : Slot F)
      → m_visit_not_function_pointer false p s
        ≡ record s { tracked_objects = s.tracked_objects ++ [] }
  unfolding m_visit_not_function_pointer
  visit_null function_pointee s = rw (append-nil s.tracked_objects)
  visit_null other_pointee s = rw (append-nil s.tracked_objects)
  visit_null (signal_pointee i) s = rw (append-nil s.tracked_objects)
  visit_null (trackable_pointee i) s = rw (append-nil s.tracked_objects)

  visit_lem :
      (b : Bound) (s : Slot F)
      → visit b s ≡ record s { tracked_objects = s.tracked_objects ++ adds b }
  unfolding visit
  visit_lem (reference_wrapper p) s = visit_set p s
  visit_lem (pointer p) s = visit_set p s
  visit_lem (null_pointer p) s = visit_null p s
  visit_lem (object p) s = visit_set p s

  visit_all_lem :
      (bs : List Bound) (s : Slot F)
      → visit_all bs s ≡ record s { tracked_objects = s.tracked_objects ++ adds_all bs }
  unfolding visit_all
  visit_all_lem [] s = rw (append-nil s.tracked_objects)
  visit_all_lem (b ∷ bs) s =
      rw (visit_lem b s)
        (visit_all_lem bs _ ∙ rw (append_assoc s.tracked_objects (adds b) (adds_all bs)))

  -- A slot tracks the signals and the trackables that are bound into its function, in their order,
  -- by value, by reference or by a pointer that is not null, and nothing else.
  pub init_slot_function-tracks :
      (f : F) (bs : List Bound)
      → init_slot_function f bs ≡ record { slot_function = f; tracked_objects = adds_all bs }
  unfolding init_slot_function
  init_slot_function-tracks f bs = visit_all_lem bs _
