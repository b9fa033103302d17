-- ===== src/Signal/Emit.antt =====
-- signal_template.hpp: operator(), with invocation_janitor. The slots see and change the world of the
-- bodies and of the tracked objects; what they do to the signal itself is not part of this call.
use signals.Base.{ℕ, Bool, false, Option, some, List, [], ◌∷◌, ◌++◌, ltb, if◌then◌else◌}
use signals.Buffer.{◌>>=◌}
use signals.Groups.{GroupKey}
use signals.Groups.Containers.{Node}
use signals.Invocation.{Iter, make_iterator, empty_cache}
use signals.Invocation.Combiner.{destroy_cache}
use signals.Signal.{SignalImpl, InvocationState, unique, add_reader, drop_reader}
use signals.Signal.Cleanup.{nolock_cleanup_connections, force_cleanup_connections}

abbrev pub values_of {ℓ} : {V : Type ℓ} → List (Node V) → List V
values_of [] = []
values_of (x ∷ xs) = x.value ∷ values_of xs

module _ {F Group C : Type 0} (group_compare : Group → Group → Bool) where
  -- The locked part of operator().
  unfoldable pub begin_call : (ℕ → Bool) → SignalImpl F Group C → Option (SignalImpl F Group C)
  unfolding unique nolock_cleanup_connections add_reader
  begin_call alive s = do
    s₁ ← (if unique s then nolock_cleanup_connections group_compare alive false 1 s else some s)
    some (add_reader s₁)

module _ {F Group C R : Type 0} (group_compare : Group → Group → Bool) where
  -- The bodies and the garbage of the iterator are those of the signal.
  abbrev pub settle_in : Iter F (GroupKey Group) R → SignalImpl F Group C → SignalImpl F Group C
  settle_in it s = record s { bodies = it.world.bodies; garbage = s.garbage ++ it.cache.released }

  -- ~invocation_janitor
  unfoldable pub janitor :
      InvocationState
      → Iter F (GroupKey Group) R
      → SignalImpl F Group C
      → Option (SignalImpl F Group C)
  unfolding force_cleanup_connections
  janitor state it s =
      if ltb it.cache.connected_slot_count it.cache.disconnected_slot_count
      then force_cleanup_connections group_compare it.world.alive state.connection_bodies s
      else some s

  -- The locals are destroyed in the reverse order: the janitor, the cache, the copy of the state.
  unfoldable pub end_call :
      InvocationState
      → Iter F (GroupKey Group) R
      → SignalImpl F Group C
      → Option (SignalImpl F Group C)
  unfolding janitor destroy_cache drop_reader
  end_call state it s = do
    s₁ ← janitor state it (settle_in it s)
    let world = record it.world { bodies = s₁.bodies }
    d ← destroy_cache (record it { world = world; cache = record it.cache { released = [] } })
    some (drop_reader state.address (settle_in d s₁))

  -- operator(): `run` is the call of the combiner with the two iterators.
  unfoldable pub call_signal :
      {Result : Type 0}
      → (C → Iter F (GroupKey Group) R → Option (Result × Iter F (GroupKey Group) R))
      → (ℕ → Bool)
      → SignalImpl F Group C
      → Option (Result × SignalImpl F Group C × (ℕ → Bool))
  unfolding begin_call make_iterator end_call
  call_signal run alive s = do
    s₁ ← begin_call group_compare alive s
    let state = s₁.shared_state
    it ←
        make_iterator (record { bodies = s₁.bodies; alive = alive }) empty_cache
          (values_of (s₁.lists state.connection_bodies).list)
    r ← run (s₁.combiners state.combiner) it
    s₂ ← end_call state r.1 s₁
    some (r.0, s₂, r.1.world.alive)
