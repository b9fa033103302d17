-- ===== src/Invocation/Combiner.antt =====
-- Dereferencing the iterator calls the slot; the combiners run over all slots.
use signals.Base.{ℕ, zero, suc, Bool, true, false, Option, none, some, [], ◌∷◌, length}
use signals.Buffer.{◌>>=◌}
use signals.Connection.{nolock_disconnect}
use signals.Invocation.{
  World, Iter, Outcome, returned, slot_expired, other_exception, on_body, drop_active, increment,
  first_of_rest,
}

-- What a combiner returns or throws.
pub data Combined (R : Type 0) : Type 0 where
  value : R → Combined R
  no_slots_error exception : Combined R

-- A slot function may change the world that it is called in.
abbrev pub Calls : Type 0 → Type 0 → Type 0 → Type 0
Calls F K R = F → World F K → Outcome R × World F K

module _ {F K R : Type 0} where
  -- ~slot_call_iterator_cache
  unfoldable pub destroy_cache : Iter F K R → Option (Iter F K R)
  unfolding drop_active
  destroy_cache s = drop_active s.cache.active_slot s

module _ {R : Type 0} where
  -- What one round does to the value: expired_slot is caught, another exception ends the loop.
  abbrev pub next_value : Outcome R → Option R → Option R
  next_value (returned r) v = some r
  next_value slot_expired v = v
  next_value other_exception v = v

  abbrev pub stops : Outcome R → Bool
  stops (returned r) = false
  stops slot_expired = false
  stops other_exception = true

  abbrev pub value_or_error : Bool → Option R → Combined R
  value_or_error true v = exception
  value_or_error false none = no_slots_error
  value_or_error false (some r) = value r

module _ {F K R : Type 0} (calls : Calls F K R) where
  -- What follows the call of the slot: the value is cached, and a slot that has expired is
  -- disconnected before the exception goes on.
  unfoldable pub after_call : ℕ → Outcome R → Iter F K R → Option (Outcome R × Iter F K R)
  unfolding on_body nolock_disconnect
  after_call i (returned r) s =
      some (returned r, record s { cache = record s.cache { result = some r } })
  after_call i slot_expired s = do s₁ ← on_body nolock_disconnect i s; some (slot_expired, s₁)
  after_call i other_exception s = some (other_exception, s)

  -- slot_invoker: connectionBody->slot().slot_function()( args )
  unfoldable pub invoke : ℕ → Iter F K R → Option (Outcome R × Iter F K R)
  unfolding after_call
  invoke i s = do
    b ← s.world.bodies i
    slot ← b.slot
    let done = calls slot.slot_function s.world
    after_call i done.0 (record s { world = done.1 })

  unfoldable pub dereference_at : Option R → Option ℕ → Iter F K R → Option (Outcome R × Iter F K R)
  unfolding invoke
  dereference_at (some r) at s = some (returned r, s)
  dereference_at none none s = none
  dereference_at none (some i) s = invoke i s

  unfoldable pub dereference : Iter F K R → Option (Outcome R × Iter F K R)
  unfolding dereference_at
  dereference s = dereference_at s.cache.result (first_of_rest s.iter) s

  -- while (first != last) { try { value = *first; } catch(const expired_slot &) {} ++first; }
  -- The flag says whether another exception was thrown. Each round moves the iterator on.
  unfoldable pub last_loop : ℕ → Option R → Iter F K R → Option (Bool × Option R × Iter F K R)
  unfolding dereference increment
  last_loop zero v s = none
  last_loop (suc fuel) v s = elim s.iter [
    | [] ↦ some (false, v, s)
    | i ∷ is ↦ do
      d ← dereference s
      elim (stops d.0) [
        | true ↦ some (true, v, d.1)
        | false ↦ do s₁ ← increment d.1; last_loop fuel (next_value d.0 v) s₁
      ]
  ]

  unfoldable pub optional_last_value : Iter F K R → Option (Combined (Option R) × Iter F K R)
  unfolding last_loop
  optional_last_value s = do
    r ← last_loop (suc (length s.iter)) none s
    some (elim r.0 [ true ↦ exception | false ↦ value r.1 ], r.2)

  unfoldable pub last_value : Iter F K R → Option (Combined R × Iter F K R)
  unfolding last_loop
  last_value s = elim s.iter [
    | [] ↦ some (no_slots_error, s)
    | i ∷ is ↦ do r ← last_loop (suc (length s.iter)) none s; some (value_or_error r.0 r.1, r.2)
  ]
