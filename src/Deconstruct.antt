-- ===== src/Deconstruct.antt =====
-- include/boost/signals2/deconstruct.hpp and deconstruct_ptr.hpp: factories that run a postconstructor
-- after an object has been made, and a predestructor before it is destroyed. What user code is run is
-- recorded as a list of events. `throws` says of each constructor or postconstructor whether it
-- throws; a shared_ptr is the deleter that it holds.
pub mod Lifetime
pub mod Pointers
use signals.Base.{ℕ, Bool, true, false, not, Option, none, some, List, [], ◌∷◌, ◌++◌, if◌then◌else◌}
use signals.Buffer.{◌>>=◌}

-- The calls of user code, with the arguments of those that take some.
pub data Event (A : Type 0) : Type 0 where
  construct postconstruct : A → Event A
  predestruct destruct : Event A

-- deconstruct_deleter
pub record DeconstructDeleter : Type 0 where
  pub initialized : Bool

-- postconstructor_invoker, with the deleter that its shared_ptr holds
pub record PostconstructorInvoker : Type 0 where
  pub deleter : DeconstructDeleter
  pub postconstructed : Bool

-- deconstruct_deleter(), and its copy constructor, which does not copy the flag.
abbrev pub make_deleter : DeconstructDeleter
make_deleter = record { initialized = false }

unfoldable pub copy_deleter : DeconstructDeleter → DeconstructDeleter
copy_deleter other = record { initialized = false }

unfoldable pub set_initialized : DeconstructDeleter → DeconstructDeleter
set_initialized d = record { initialized = true }

module _ {A : Type 0} where
  unfoldable pub destroy : DeconstructDeleter → List (Event A) → DeconstructDeleter × List (Event A)
  destroy d log =
      if d.initialized
      then (record { initialized = false }, log ++ predestruct ∷ destruct ∷ [])
      else (d, log)

  -- operator(), and the destructor
  unfoldable pub call_deleter :
      DeconstructDeleter → List (Event A) → DeconstructDeleter × List (Event A)
  unfolding destroy
  call_deleter d log = destroy d log

  unfoldable pub destroy_deleter : DeconstructDeleter → List (Event A) → List (Event A)
  unfolding destroy
  destroy_deleter d log = (destroy d log).1

  -- The last owner of a shared_ptr is gone: it calls its deleter, and destroys it.
  unfoldable pub end_shared_ptr : DeconstructDeleter → List (Event A) → List (Event A)
  unfolding call_deleter destroy_deleter
  end_shared_ptr d log = let r = call_deleter d log in destroy_deleter r.0 r.1

  -- deconstruct_access::deconstruct: `none` is the constructor's exception, which destroys the
  -- shared_ptr that holds the storage.
  unfoldable pub deconstruct :
      (A → Bool) → A → List (Event A) → Option PostconstructorInvoker × List (Event A)
  unfolding copy_deleter set_initialized end_shared_ptr
  deconstruct throws args log =
      let pd = copy_deleter make_deleter in
      let log' = log ++ construct args ∷ [] in
      if throws args
      then (none, end_shared_ptr pd log')
      else (some (record { deleter = set_initialized pd; postconstructed = false }), log')

  -- postconstruct( args ); the flag says whether it throws.
  unfoldable pub postconstruct_with :
      (A → Bool)
      → A
      → PostconstructorInvoker × List (Event A)
      → Bool × PostconstructorInvoker × List (Event A)
  postconstruct_with throws args (p, log) =
      let log' = log ++ postconstruct args ∷ [] in
      if not p.postconstructed
      then (if throws args
          then (true, p, log')
          else (false, record p { postconstructed = true }, log'))
      else (false, p, log)

-- What deconstruct_ptr sees of a class: whether it has the base classes, and what its own functions
-- throw.
pub record PointerClass : Type 0 where
  pub is_postconstructible : Bool
  pub is_predestructible : Bool
  pub postconstruct_throws : Bool
  pub predestruct_throws : Bool

-- What becomes of a pointer; a deletion of a null pointer runs nothing.
pub data PointerEvent : Type 0 where
  postconstructs predestructs deletes : ℕ → PointerEvent
  deletes_with : Option ℕ → PointerEvent

-- The two overloads of do_postconstruct; the flag says whether it throws.
unfoldable pub do_postconstruct : PointerClass → ℕ → List PointerEvent → Bool × List PointerEvent
do_postconstruct c ptr log =
    if c.is_postconstructible
    then (c.postconstruct_throws, log ++ postconstructs ptr ∷ [])
    else (false, log)

-- do_predestruct: `none` is BOOST_ASSERT(false), when the predestructor throws.
unfoldable pub do_predestruct : PointerClass → ℕ → List PointerEvent → Option (List PointerEvent)
do_predestruct c ptr log =
    if c.is_predestructible
    then (if c.predestruct_throws then none else some (log ++ predestructs ptr ∷ []))
    else some log

-- predestructing_deleter
unfoldable pub predestructing_deleter :
    PointerClass → ℕ → List PointerEvent → Option (List PointerEvent)
unfolding do_predestruct
predestructing_deleter c ptr log = do
  log' ← do_predestruct c ptr log
  some (log' ++ deletes ptr ∷ [])

-- The deleter that a shared_ptr to a pointer holds.
pub data Deleter : Type 0 where
  plain_delete predestructing given : Deleter

pub record SharedPointer : Type 0 where
  pub ptr : Option ℕ
  pub deleter : Deleter

-- The deleter is called. A predestructing_deleter of a null pointer would read it.
unfoldable pub delete_by :
    PointerClass → Deleter → Option ℕ → List PointerEvent → Option (List PointerEvent)
unfolding predestructing_deleter
delete_by c given p log = some (log ++ deletes_with p ∷ [])
delete_by c plain_delete none log = some log
delete_by c plain_delete (some i) log = some (log ++ deletes i ∷ [])
delete_by c predestructing none log = none
delete_by c predestructing (some i) log = predestructing_deleter c i log

-- The last owner of a shared_ptr is gone.
unfoldable pub end_pointer :
    PointerClass → SharedPointer → List PointerEvent → Option (List PointerEvent)
unfolding delete_by
end_pointer c shared log = delete_by c shared.deleter shared.ptr log

-- What follows the making of the shared_ptr: an exception of the postconstructor destroys it.
unfoldable pub postconstruct_shared :
    PointerClass
    → ℕ
    → SharedPointer
    → List PointerEvent
    → Option (Option SharedPointer × List PointerEvent)
unfolding do_postconstruct end_pointer
postconstruct_shared c i shared log =
    let r = do_postconstruct c i log in
    if r.0 then (do log' ← end_pointer c shared r.1; some (none, log')) else some (some shared, r.1)

-- deconstruct_ptr( ptr ): an inner `none` is the exception of the postconstructor.
unfoldable pub deconstruct_ptr :
    PointerClass → Option ℕ → List PointerEvent → Option (Option SharedPointer × List PointerEvent)
unfolding postconstruct_shared
deconstruct_ptr c none log = some (some (record { ptr = none; deleter = plain_delete }), log)
deconstruct_ptr c (some i) log =
    postconstruct_shared c i (record { ptr = some i; deleter = predestructing }) log

-- deconstruct_ptr( ptr, deleter )
unfoldable pub deconstruct_ptr_with :
    PointerClass → Option ℕ → List PointerEvent → Option (Option SharedPointer × List PointerEvent)
unfolding postconstruct_shared
deconstruct_ptr_with c none log = some (some (record { ptr = none; deleter = given }), log)
deconstruct_ptr_with c (some i) log =
    postconstruct_shared c i (record { ptr = some i; deleter = given }) log
