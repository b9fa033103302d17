-- ===== src/Invocation.antt =====
-- include/boost/signals2/detail/slot_call_iterator.hpp, optional_last_value.hpp, last_value.hpp and
-- detail/variadic_slot_invoker.hpp: the iterator that calls the slots of a signal one by one, and
-- the combiners that run it. A list iterator is the rest of the list of body identities; the list is
-- not changed while it is read. `none` is a failed assertion or a read of a null pointer.
pub mod Combiner
pub mod Callee
pub mod Counting
pub mod Live
pub mod Steps
pub mod Called
pub mod Abstract
pub mod Loop
pub mod Whole
pub mod Runs
use signals.Base.{
  ℕ, suc, ◌+◌, ◌%◌, Bool, true, false, not, Option, none, some, List, [], ◌∷◌, ◌++◌, ◌==◌,
  if◌then◌else◌, length,
}
use signals.Buffer.{◌>>=◌, ◌>>◌, unsigned_mod}
use signals.Slot.{Slot, Locked}
use signals.Connection.{
  ConnectionBody, Held, hold, inc_slot_refcount, dec_slot_refcount, disconnect_body,
  nolock_grab_tracked_objects, nolock_nograb_connected, nolock_nograb_blocked,
}
use signals.Connection.Handle.{Store, put_body}

-- How the call of a slot function ends: with a value, with the exception expired_slot, or with
-- another one.
pub data Outcome (R : Type 0) : Type 0 where
  returned : R → Outcome R
  slot_expired other_exception : Outcome R

-- What the slots see and change: the bodies, and which tracked objects are alive.
pub record World (F K : Type 0) : Type 0 where
  pub bodies : Store F K
  pub alive : ℕ → Bool

-- slot_call_iterator_cache. `released` is the trash of the locks, in order.
pub record Cache (F R : Type 0) : Type 0 where
  pub result : Option R
  pub tracked_ptrs : List Locked
  pub connected_slot_count : ℕ
  pub disconnected_slot_count : ℕ
  pub active_slot : Option ℕ
  pub released : List (Option (Slot F))

-- slot_call_iterator_t, with the world and the cache that it works on.
pub record Iter (F K R : Type 0) : Type 0 where
  pub world : World F K
  pub cache : Cache F R
  pub iter : List ℕ
  pub callable_iter : List ℕ

-- Two iterators into one list are equal when as much of it lies behind them.
abbrev pub same_place : List ℕ → List ℕ → Bool
same_place a b = length a == length b

abbrev pub first_of_rest : List ℕ → Option ℕ
first_of_rest [] = none
first_of_rest (i ∷ is) = some i

abbrev pub is_blocked : {F K : Type 0} → Option (ConnectionBody F K) → Bool
is_blocked none = true
is_blocked (some b) = nolock_nograb_blocked b

abbrev pub empty_cache : {F R : Type 0} → Cache F R
empty_cache = record {
  result = none;
  tracked_ptrs = [];
  connected_slot_count = 0;
  disconnected_slot_count = 0;
  active_slot = none;
  released = [];
}

module _ {F K R : Type 0} where
  -- A call on a body under its lock, whose trash is destroyed afterwards.
  unfoldable pub on_body : (Held F K → Option (Held F K)) → ℕ → Iter F K R → Option (Iter F K R)
  on_body f i s = do
    b ← s.world.bodies i
    h ← f (hold b)
    some (record s {
      world = record s.world { bodies = put_body i h.body s.world.bodies };
      cache = record s.cache { released = s.cache.released ++ h.garbage };
    })

  unfoldable pub drop_active : Option ℕ → Iter F K R → Option (Iter F K R)
  unfolding on_body dec_slot_refcount
  drop_active none s = some s
  drop_active (some i) s = on_body dec_slot_refcount i s

  unfoldable pub take_active : Option ℕ → Iter F K R → Option (Iter F K R)
  unfolding on_body inc_slot_refcount
  take_active none s = some s
  take_active (some i) s = on_body inc_slot_refcount i s

  unfoldable pub set_active_slot : Option ℕ → Iter F K R → Option (Iter F K R)
  unfolding drop_active take_active
  set_active_slot active s = do
    s₁ ← drop_active s.cache.active_slot s
    take_active active (record s₁ { cache = record s₁.cache { active_slot = active } })

  unfoldable pub set_callable_iter : List ℕ → Iter F K R → Option (Iter F K R)
  unfolding set_active_slot
  set_callable_iter new s = set_active_slot (first_of_rest new) (record s { callable_iter = new })

  -- One round of the loop of lock_next_callable, up to its test: the tracked objects are locked, and
  -- the slot is counted as connected or as disconnected.
  unfoldable pub grab_next : ℕ → Iter F K R → Option (Iter F K R)
  unfolding nolock_grab_tracked_objects nolock_nograb_connected
  grab_next i s = do
    b ← s.world.bodies i
    r ← nolock_grab_tracked_objects s.world.alive (hold b)
    let on = nolock_nograb_connected r.0.body
    let connected = s.cache.connected_slot_count
    let disconnected = s.cache.disconnected_slot_count
    some (record s {
      world = record s.world { bodies = put_body i r.0.body s.world.bodies };
      cache = record s.cache {
        tracked_ptrs = r.1;
        released = s.cache.released ++ r.0.garbage;
        connected_slot_count = if on then (connected + 1) % unsigned_mod else connected;
        disconnected_slot_count = if on then disconnected else (disconnected + 1) % unsigned_mod;
      };
    })

  -- for(;iter != end; ++iter), with what follows the loop at the end of the list
  unfoldable pub next_callable : List ℕ → Iter F K R → Option (Iter F K R)
  unfolding grab_next set_callable_iter nolock_nograb_blocked
  next_callable [] s =
      if not (same_place s.callable_iter [])
      then set_callable_iter [] (record s { iter = [] })
      else some (record s { iter = [] })
  next_callable (i ∷ is) s = do
    s₁ ← grab_next i (record s { iter = i ∷ is })
    let later = next_callable is s₁
    if not (is_blocked (s₁.world.bodies i)) then set_callable_iter (i ∷ is) s₁ else later

  unfoldable pub lock_next_callable : Iter F K R → Option (Iter F K R)
  unfolding next_callable
  lock_next_callable s =
      if same_place s.iter s.callable_iter then some s else next_callable s.iter s

  -- The constructor: callable_iter begins at the end of the list.
  unfoldable pub make_iterator : World F K → Cache F R → List ℕ → Option (Iter F K R)
  unfolding lock_next_callable
  make_iterator w c is =
      lock_next_callable (record { world = w; cache = c; iter = is; callable_iter = [] })

  unfoldable pub increment : Iter F K R → Option (Iter F K R)
  unfolding lock_next_callable
  increment s = elim s.iter [
    | [] ↦ none
    | i ∷ is ↦ do
      s₁ ← lock_next_callable (record s { iter = is })
      some (record s₁ { cache = record s₁.cache { result = none } })
  ]
